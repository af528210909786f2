-- ===== src/Bitmap/Alloc.antt =====
-- `bitmap_alloc`: the first clear bit, and no other.
use Prim.Native.Nat.{bit_and, bit_or}
use operating_systems_lab.Base.{
  ℕ, zero, suc, ◌+◌, ◌*◌, ◌/◌, ◌%◌, ◌^◌, ◌<◌, ◌≡◌, refl, sym, subst, ◌∙◌, true, false, Option, none,
  some, length, lt→ltb, ◌==◌, ==_iff, if◌then◌else◌, inl, inr, Bool-cases, arith, Outcome, ok, err,
  fault, enospc,
}
use operating_systems_lab.Bitmap.{
  Bitmap, word, word_allbits, put_word, scan_word, take_bit, alloc_loop, alloc,
}
use operating_systems_lab.Bitmap.Bits.{bit, full_of_bits, bit_of_full}
use operating_systems_lab.Bitmap.Valid.{bit_at, IsValid, set_bit, bit_at-set_bit, set_bit-IsValid}

-- What a scan of one word finds: its first clear bit, or that all are set.
abbrev Scanned : ℕ → Option ℕ → Type 0
Scanned w none = (k : ℕ) → k < 8 → bit w k ≡ true
Scanned w (some j) = (j < 8) × (bit w j ≡ false) × ((k : ℕ) → k < j → bit w k ≡ true)

below_suc :
    (w j k : ℕ) → ((k : ℕ) → k < j → bit w k ≡ true) → bit w j ≡ true → k < j + 1 → bit w k ≡ true
below_suc w j k h e lt = elim (Bool-cases (k == j)) [
  | inl p ↦ let q : k ≡ j = (==_iff k j).0 p in rw q e
  | inr p ↦ h k (ground arith)
]

scan_word-Scanned :
    (n j w : ℕ) → n + j ≡ 8 → ((k : ℕ) → k < j → bit w k ≡ true) → Scanned w (scan_word n j w)
unfolding scan_word
scan_word-Scanned zero j w e h = λ k hk. h k (omega arith)
scan_word-Scanned (suc n) j w e h = elim (Bool-cases (bit_and w (2 ^ j) == 0)) [
  | inl c ↦ rw (c, Scanned) (omega arith, rw c, h)
  | inr c ↦
      rw (c, Scanned) (scan_word-Scanned n (j + 1) w (omega arith) (λ k. below_suc w j k h (rw c)))
]

-- What an allocation promises: the first clear bit is taken and no other bit changes, or every
-- bit is in use.
abbrev pub Allocated : Bitmap → Outcome (ℕ × Bitmap) → Type 0
Allocated b (ok (i, b')) =
    (i < b.nbits)
    × (bit_at b i ≡ false)
    × ((k : ℕ) → k < i → bit_at b k ≡ true)
    × ((k : ℕ) → bit_at b' k ≡ (if i == k then true else bit_at b k))
    × (b'.nbits ≡ b.nbits)
    × IsValid b'
Allocated b (err e) = (e ≡ enospc) × ((k : ℕ) → k < b.nbits → bit_at b k ≡ true)
Allocated b fault = ⊥

put_word-eq-set_bit :
    (b : Bitmap) (ix j : ℕ)
    → j < 8
    → put_word b ix (bit_or (word b ix) (2 ^ j)) ≡ set_bit b (ix * 8 + j)
unfolding set_bit
put_word-eq-set_bit b ix j h =
    let q : (ix * 8 + j) / 8 ≡ ix = omega arith in
    let r : (ix * 8 + j) % 8 ≡ j = omega arith in rw (q, r)

nbits-set_bit : (b : Bitmap) (i : ℕ) → (set_bit b i).nbits ≡ b.nbits
unfolding set_bit
nbits-set_bit b i = refl

module _ {b : Bitmap} (v : IsValid b) where
  bit_at_split : (ix j : ℕ) → j < 8 → bit_at b (ix * 8 + j) ≡ bit (word b ix) j
  bit_at_split ix j h =
      let q : (ix * 8 + j) / 8 ≡ ix = omega arith in
      let r : (ix * 8 + j) % 8 ≡ j = omega arith in rw (q, r)

  below_index :
      (ix j : ℕ)
      → ((k : ℕ) → k < 8 * ix → bit_at b k ≡ true)
      → Scanned (word b ix) (some j)
      → (k : ℕ) → k < ix * 8 + j
      → bit_at b k ≡ true
  below_index ix j below s k lt = elim (Bool-cases (k / 8 == ix)) [
    | inl p ↦ let q : k / 8 ≡ ix = (==_iff _ _).0 p in rw q (s.2 (k % 8) (omega arith))
    | inr p ↦ below k (ground arith)
  ]

  take_bit-Allocated :
      (ix j : ℕ)
      → ix < length b.v
      → ((k : ℕ) → k < 8 * ix → bit_at b k ≡ true)
      → Scanned (word b ix) (some j)
      → Allocated b (take_bit b ix (some j))
  unfolding take_bit
  take_bit-Allocated ix j h below s =
      let i : ℕ = ix * 8 + j in
      let clear : bit_at b i ≡ false = bit_at_split ix j s.0 ∙ s.1 in
      let lt : i < b.nbits = ground (arith, v.leftover i) in
      let taken : Allocated b (ok (i, set_bit b i)) = (
        lt,
        clear,
        below_index ix j below s,
        (λ k. bit_at-set_bit v i k (omega arith)),
        nbits-set_bit b i,
        set_bit-IsValid v i lt,
      ) in
      rw (lt→ltb _ _ lt)
        (subst (λ b'. Allocated b (ok (i, b'))) (sym (put_word-eq-set_bit b ix j s.0)) taken)

  full_below :
      (ix : ℕ)
      → ((k : ℕ) → k < 8 * ix → bit_at b k ≡ true)
      → (word b ix == word_allbits) ≡ true
      → (k : ℕ) → k < 8 * (ix + 1)
      → bit_at b k ≡ true
  full_below ix below full k lt = elim (Bool-cases (k / 8 == ix)) [
    | inl p ↦
        let q : k / 8 ≡ ix = (==_iff _ _).0 p in
        let w : word b ix ≡ 255 = (==_iff _ _).0 full in
        rw (q, w) (bit_of_full (k % 8) (omega arith))
    | inr p ↦ below k (ground arith)
  ]

  take-Scanned :
      (ix : ℕ)
      → ix < length b.v
      → ((k : ℕ) → k < 8 * ix → bit_at b k ≡ true)
      → (word b ix == word_allbits) ≡ false
      → (o : Option ℕ) → Scanned (word b ix) o
      → Allocated b (take_bit b ix o)
  take-Scanned ix h below ne none s =
      absurd (ground (arith, full_of_bits (word b ix) (v.bytes ix) s))
  take-Scanned ix h below ne (some j) s = take_bit-Allocated ix j h below s

  alloc_loop-Allocated :
      (n ix : ℕ)
      → n + ix ≡ length b.v
      → ((k : ℕ) → k < 8 * ix → bit_at b k ≡ true)
      → Allocated b (alloc_loop b n ix)
  unfolding alloc_loop
  alloc_loop-Allocated zero ix e below = (refl, λ k lt. below k (omega (arith, v.words, v.small)))
  alloc_loop-Allocated (suc n) ix e below =
      rw (lt→ltb ix (length b.v) (omega arith), Allocated)
        (elim (Bool-cases (word b ix == word_allbits)) [
          | inl full ↦
              rw (full, Allocated)
                (alloc_loop-Allocated n (ix + 1) (omega arith) (full_below ix below full))
          | inr ne ↦
              rw (ne, Allocated)
                (take-Scanned ix (omega arith) below ne _
                  (scan_word-Scanned 8 0 (word b ix) (omega arith) (λ k lt. absurd (omega arith))))
        ])

-- In a valid bitmap `bitmap_alloc` takes the first clear bit, below `nbits`, and changes no other
-- bit and not the size, or reports `-ENOSPC` with every bit in use. Its assertions hold, and the result is valid.
pub alloc-Allocated : {b : Bitmap} → IsValid b → Allocated b (alloc b)
unfolding alloc
alloc-Allocated v =
    alloc_loop-Allocated v _ 0 (omega (arith, v.words)) (λ k lt. absurd (omega arith))
