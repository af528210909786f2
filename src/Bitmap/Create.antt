-- ===== src/Bitmap/Create.antt =====
-- `bitmap_create`: every bit below `nbits` is clear, the rest of the last byte is set.
use Prim.Native.Nat.{bit_or, bit_and-bitwise}
use operating_systems_lab.Base.{
  ℕ, zero, suc, ◌+◌, ◌-◌, ◌*◌, ◌/◌, ◌%◌, ◌^◌, ◌≤◌, ◌<◌, ◌≡◌, ◌≢◌, refl, ◌∙◌, ==_iff, true, false,
  length, replicate, length-replicate, get_or-replicate, leb, ◌==◌, if◌then◌else◌, inl, inr,
  Bool-cases, arith, Outcome, ok, err, fault, length-set,
}
use operating_systems_lab.Bitmap.{
  Bitmap, word, put_word, words_for, mark_leftover, fill_new, create,
}
use operating_systems_lab.Bitmap.Bits.{bit, bit-bit_or, bit_or-lt}
use operating_systems_lab.Bitmap.Valid.{bit_at, IsValid, word-put_word}

-- The loop sets the bits from `j` on.
mark_leftover-bit :
    (n j w k : ℕ)
    → w < 256
    → k < 8
    → n + j ≡ 8
    → (bit (mark_leftover n j w) k ≡ (if leb j k then true else bit w k))
      × (mark_leftover n j w < 256)
unfolding mark_leftover
mark_leftover-bit zero j w k hw hk e = ground arith
mark_leftover-bit (suc n) j w k hw hk e = ground (
  arith,
  mark_leftover-bit n (j + 1) (bit_or w (2 ^ j)) k (bit_or-lt w j k hw (omega arith) hk) hk
      (omega arith),
  bit-bit_or w j k hw (omega arith) hk,
)

zero_bit : (k : ℕ) → bit 0 k ≡ false
zero_bit k = ground (arith, bit_and-bitwise 0 (2 ^ k))

-- A new bitmap of the given size with every bit clear.
abbrev pub Created : ℕ → Outcome Bitmap → Type 0
Created nbits (ok b) = (b.nbits ≡ nbits) × IsValid b × ((k : ℕ) → k < nbits → bit_at b k ≡ false)
Created nbits (err e) = ⊥
Created nbits fault = ⊥

abbrev pub blank : ℕ → Bitmap
blank nbits = record { nbits = nbits; v = replicate (words_for nbits) 0 }

-- The bytes with `over` bits used in the last of them.
abbrev padded : ℕ → ℕ → Bitmap
padded nbits over = put_word (blank nbits) (words_for nbits - 1) (mark_leftover (8 - over) over 0)

length-zeros : (n : ℕ) → length (replicate {A = ℕ} n 0) ≡ n
length-zeros n = length-replicate n 0

fill_new-eq :
    (nbits : ℕ)
    → nbits + 8 ≤ 2 ^ 32
    → fill_new nbits ≡ (if nbits % 8 == 0 then ok (blank nbits) else ok (padded nbits (nbits % 8)))
unfolding fill_new
fill_new-eq nbits h =
    let over : nbits % 8 ≢ 0 → nbits - (words_for nbits - 1) * 8 ≡ nbits % 8 = omega arith in
    elim (Bool-cases (nbits % 8 == 0)) [
      | inl whole ↦ rw whole (ground arith)
      | inr part ↦
          let e = over (ground arith) in
          rw (part, e, get_or-replicate {A = ℕ} (words_for nbits) (words_for nbits - 1) 0)
            (ground arith)
    ]

module _ (nbits : ℕ) (h : nbits + 8 ≤ 2 ^ 32) where
  pub blank-Created : nbits % 8 ≡ 0 → Created nbits (ok (blank nbits))
  blank-Created whole = (
    refl,
    record {
      small = h;
      words = length-zeros (words_for nbits);
      bytes = λ ix. rw get_or-replicate (omega arith);
      leftover = λ i p q. absurd (omega (arith, length-zeros (words_for nbits)));
    },
    λ k lt. rw get_or-replicate (zero_bit (k % 8)),
  )

  padded_byte :
      (over : ℕ) → over ≡ nbits % 8 → over ≢ 0 → (ix : ℕ) → word (padded nbits over) ix < 256
  padded_byte over e ne ix = ground (
    arith,
    word-put_word (blank nbits) (words_for nbits - 1) ix (mark_leftover (8 - over) over 0),
    length-zeros (words_for nbits),
    get_or-replicate {A = ℕ} (words_for nbits) ix 0,
    mark_leftover-bit (8 - over) over 0 0 (omega arith) (omega arith) (omega arith),
  )

  padded_bit :
      (over : ℕ)
      → over ≡ nbits % 8
      → over ≢ 0
      → (k : ℕ) → k < 8 * words_for nbits
      → bit_at (padded nbits over) k ≡ leb nbits k
  padded_bit over e ne k lt = ground (
    arith,
    word-put_word (blank nbits) (words_for nbits - 1) (k / 8) (mark_leftover (8 - over) over 0),
    length-zeros (words_for nbits),
    get_or-replicate {A = ℕ} (words_for nbits) (k / 8) 0,
    mark_leftover-bit (8 - over) over 0 (k % 8) (omega arith) (omega arith) (omega arith),
    zero_bit (k % 8),
  )

  padded-Created : nbits % 8 ≢ 0 → Created nbits (ok (padded nbits (nbits % 8)))
  padded-Created part =
      let last = words_for nbits - 1 in
      let w = mark_leftover (8 - nbits % 8) (nbits % 8) 0 in
      (
        refl,
        record {
          small = h;
          words =
              length-set (replicate (words_for nbits) 0) last w ∙ length-zeros (words_for nbits);
          bytes = padded_byte (nbits % 8) refl part;
          leftover = λ i p q. ground (
            arith,
            padded_bit (nbits % 8) refl part i,
            length-set (replicate (words_for nbits) 0) last w,
            length-zeros (words_for nbits),
          );
        },
        λ k lt. ground (arith, padded_bit (nbits % 8) refl part k),
      )

-- Where both allocations succeed and the size leaves room for rounding up in 32 bits,
-- `bitmap_create` meets its assertions and returns a valid bitmap of that size with every bit
-- below the size clear.
pub create-Created : (nbits : ℕ) → nbits + 8 ≤ 2 ^ 32 → Created nbits (create true true nbits)
unfolding create
create-Created nbits h =
    rw (fill_new-eq nbits h, Created)
      (elim (Bool-cases (nbits % 8 == 0)) [
        | inl whole ↦ rw (whole, Created) (blank-Created nbits h ((==_iff _ _).0 whole))
        | inr part ↦ rw (part, Created) (padded-Created nbits h (ground arith))
      ])
