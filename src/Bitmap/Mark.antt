-- ===== src/Bitmap/Mark.antt =====
-- `bitmap_mark` and `bitmap_unmark`: each changes the bit it is given and no other, and fails its
-- assertion exactly where that bit is out of range or already in the state asked for.
use operating_systems_lab.Base.{
  ℕ, ◌<◌, ◌≡◌, refl, ◌⊎◌, Bool, true, false, not, ltb, ltb→lt, ◌==◌, if◌then◌else◌, inl, inr,
  Bool-cases, arith, Outcome, ok, err, fault,
}
use operating_systems_lab.Bitmap.{Bitmap, mark, unmark}
use operating_systems_lab.Bitmap.Valid.{
  bit_at, IsValid, set_bit, clear_bit, bit_at-set_bit, bit_at-clear_bit, set_bit-IsValid,
  clear_bit-IsValid, in_words,
}

mark-eq :
    (b : Bitmap) (i : ℕ)
    → mark b i ≡ (if ltb i b.nbits then if bit_at b i then fault else ok (set_bit b i) else fault)
unfolding mark set_bit
mark-eq b i = ground arith

unmark-eq :
    (b : Bitmap) (i : ℕ)
    → unmark b i
      ≡ (if ltb i b.nbits then if bit_at b i then ok (clear_bit b i) else fault else fault)
unfolding unmark clear_bit
unmark-eq b i = ground arith

-- What a call that gives bit `i` the value `to` promises.
abbrev pub Gives : Bool → Bitmap → ℕ → Outcome Bitmap → Type 0
Gives to b i (ok b') =
    (i < b.nbits)
    × (bit_at b i ≡ not to)
    × ((k : ℕ) → bit_at b' k ≡ (if i == k then to else bit_at b k))
    × (b'.nbits ≡ b.nbits)
    × IsValid b'
Gives to b i (err e) = ⊥
Gives to b i fault = (ltb i b.nbits ≡ false) ⊎ (bit_at b i ≡ to)

module _ {b : Bitmap} (v : IsValid b) (i : ℕ) where
  set_bit-Gives : ltb i b.nbits ≡ true → bit_at b i ≡ false → Gives true b i (ok (set_bit b i))
  unfolding set_bit
  set_bit-Gives lt clear =
      let h = ltb→lt i b.nbits lt in
      (h, clear, (λ k. bit_at-set_bit v i k (in_words v i h)), refl, set_bit-IsValid v i h)

  clear_bit-Gives : ltb i b.nbits ≡ true → bit_at b i ≡ true → Gives false b i (ok (clear_bit b i))
  unfolding clear_bit
  clear_bit-Gives lt used =
      let h = ltb→lt i b.nbits lt in
      (h, used, (λ k. bit_at-clear_bit v i k (in_words v i h)), refl, clear_bit-IsValid v i h)

  -- In a valid bitmap `bitmap_mark` sets bit `i`, which was clear and below `nbits`, changes no
  -- other bit and not the size, and keeps the bitmap valid; it stops only if `i` is out of range or already set.
  pub mark-Gives : Gives true b i (mark b i)
  mark-Gives = rw mark-eq (elim (Bool-cases (ltb i b.nbits)) [
    | inr out ↦ rw (out, Gives) (inl out)
    | inl lt ↦
        rw (lt, Gives)
          (elim (Bool-cases (bit_at b i)) [
            | inl used ↦ rw (used, Gives) (inr used)
            | inr clear ↦ rw (clear, Gives) (set_bit-Gives lt clear)
          ])
  ])

  -- In a valid bitmap `bitmap_unmark` clears bit `i`, which was set and below `nbits`, changes no
  -- other bit and not the size, and keeps the bitmap valid; it stops only if `i` is out of range or already clear.
  pub unmark-Gives : Gives false b i (unmark b i)
  unmark-Gives = rw unmark-eq (elim (Bool-cases (ltb i b.nbits)) [
    | inr out ↦ rw (out, Gives) (inl out)
    | inl lt ↦
        rw (lt, Gives)
          (elim (Bool-cases (bit_at b i)) [
            | inl used ↦ rw (used, Gives) (clear_bit-Gives lt used)
            | inr clear ↦ rw (clear, Gives) (inr clear)
          ])
  ])
