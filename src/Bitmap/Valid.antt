-- ===== src/Bitmap/Valid.antt =====
-- The representation invariant of `struct bitmap`, the bits that it stands for, and how a write
-- of one word changes them.
use Prim.Native.Nat.{bit_and, bit_or}
use operating_systems_lab.Base.{
  ℕ, ◌+◌, ◌-◌, ◌*◌, ◌/◌, ◌%◌, ◌^◌, ◌≤◌, ◌<◌, ◌≡◌, Bool, true, false, length, length-set,
  get_or-set_self, get_or-set_ne, ◌==◌, if◌then◌else◌, inl, inr, Bool-cases, ◌∙◌, arith,
}
use operating_systems_lab.Bitmap.{Bitmap, word, put_word, words_for}
use operating_systems_lab.Bitmap.Bits.{bit, bit-bit_or, bit_or-lt, bit-bit_clear, bit_clear-lt}

-- Bit `i` is set: the bit is in use.
abbrev pub bit_at : Bitmap → ℕ → Bool
bit_at b i = bit (word b (i / 8)) (i % 8)

-- There are as many bytes as the bits need, and the bits past the last one are set. The size
-- leaves room for rounding up in 32 bits.
pub record IsValid (b : Bitmap) : Type 0 where
  pub small : b.nbits + 8 ≤ 2 ^ 32
  pub words : length b.v ≡ words_for b.nbits
  pub bytes : (ix : ℕ) → word b ix < 256
  pub leftover : (i : ℕ) → b.nbits ≤ i → i < 8 * length b.v → bit_at b i ≡ true

unfoldable pub set_bit : Bitmap → ℕ → Bitmap
set_bit b i = put_word b (i / 8) (bit_or (word b (i / 8)) (2 ^ (i % 8)))

unfoldable pub clear_bit : Bitmap → ℕ → Bitmap
clear_bit b i = put_word b (i / 8) (bit_and (word b (i / 8)) (255 - 2 ^ (i % 8)))

pub word-put_word :
    (b : Bitmap) (ix jx w : ℕ)
    → ix < length b.v
    → word (put_word b ix w) jx ≡ (if ix == jx then w else word b jx)
word-put_word b ix jx w h = ground (arith, get_or-set_self b.v ix w 0, get_or-set_ne b.v ix jx w 0)

module _ {b : Bitmap} (v : IsValid b) (i k : ℕ) (h : i < 8 * length b.v) where
  pub bit_at-set_bit : bit_at (set_bit b i) k ≡ (if i == k then true else bit_at b k)
  unfolding set_bit
  bit_at-set_bit =
      rw (word-put_word b (i / 8) (k / 8) (bit_or (word b (i / 8)) (2 ^ (i % 8))) (omega arith))
        (elim (Bool-cases (i / 8 == k / 8)) [
          | inl e ↦ ground (
            arith,
            bit-bit_or (word b (i / 8)) (i % 8) (k % 8) (v.bytes (i / 8)) (omega arith)
                (omega arith),
          )
          | inr e ↦ ground arith
        ])

  pub bit_at-clear_bit : bit_at (clear_bit b i) k ≡ (if i == k then false else bit_at b k)
  unfolding clear_bit
  bit_at-clear_bit =
      rw
        (word-put_word b (i / 8) (k / 8) (bit_and (word b (i / 8)) (255 - 2 ^ (i % 8)))
          (omega arith))
        (elim (Bool-cases (i / 8 == k / 8)) [
          | inl e ↦ ground (
            arith,
            bit-bit_clear (word b (i / 8)) (i % 8) (k % 8) (v.bytes (i / 8)) (omega arith)
                (omega arith),
          )
          | inr e ↦ ground arith
        ])

bytes-put_word :
    {b : Bitmap} (ix jx w : ℕ)
    → IsValid b
    → w < 256
    → ix < length b.v
    → word (put_word b ix w) jx < 256
bytes-put_word {b} ix jx w v hw h = ground (arith, word-put_word b ix jx w, v.bytes jx)

module _ {b : Bitmap} (v : IsValid b) (i : ℕ) (h : i < b.nbits) where
  -- A bit below `nbits` lies in the array.
  pub in_words : i < 8 * length b.v
  in_words = omega (arith, v.words, v.small)

  pub set_bit-IsValid : IsValid (set_bit b i)
  unfolding set_bit
  set_bit-IsValid = record {
    small = v.small;
    words = length-set b.v _ _ ∙ v.words;
    bytes = λ ix.
        bytes-put_word (i / 8) ix _ v
          (bit_or-lt (word b (i / 8)) (i % 8) 0 (v.bytes (i / 8)) (omega arith) (omega arith))
          (omega (arith, in_words));
    leftover = λ k p q. ground (
      arith,
      bit_at-set_bit v i k in_words,
      v.leftover k,
      length-set b.v (i / 8) (bit_or (word b (i / 8)) (2 ^ (i % 8))),
    );
  }

  pub clear_bit-IsValid : IsValid (clear_bit b i)
  unfolding clear_bit
  clear_bit-IsValid = record {
    small = v.small;
    words = length-set b.v _ _ ∙ v.words;
    bytes = λ ix.
        bytes-put_word (i / 8) ix _ v
          (bit_clear-lt (word b (i / 8)) (i % 8) 0 (v.bytes (i / 8)) (omega arith) (omega arith))
          (omega (arith, in_words));
    leftover = λ k p q. ground (
      arith,
      bit_at-clear_bit v i k in_words,
      v.leftover k,
      length-set b.v (i / 8) (bit_and (word b (i / 8)) (255 - 2 ^ (i % 8))),
    );
  }
