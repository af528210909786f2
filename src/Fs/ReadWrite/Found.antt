-- ===== src/Fs/ReadWrite/Found.antt =====
-- `testfs_read_block` on each range of logical blocks: ten direct ones, 2048 by one table, 2048 * 2048 by
-- two, and those past them.
use operating_systems_lab.Base.{
  ℕ, ◌-◌, ◌%◌, ◌<◌, ◌≤◌, ◌≡◌, ◌∙◌, refl, sym, ap, subst, true, false, ◌&&◌, not, Option, some, ltb,
  leb, if◌then◌else◌, arith, inl, inr, Bool-cases, efbig,
}
use operating_systems_lab.Base.Int.{ℤ}
use operating_systems_lab.Fs.Bytes.{Buffer, int_at}
use operating_systems_lab.Fs.State.{Fs, Dinode, code}
use operating_systems_lab.Fs.ReadWrite.{read_phys, read_indirect, read_dindirect, testfs_read_block}
use operating_systems_lab.Fs.ReadWrite.Allocate.{is_zero}
use operating_systems_lab.Fs.ReadWrite.Lookup.{
  at, first_entry, physical, shown, InDevice, IsMapped, Gives, read_phys-Gives, read_indirect-Gives,
  read_dindirect-Gives,
}

-- EFBIG for a block past the last that two tables reach, and else the physical number and the block.
abbrev pub Found : Fs → Dinode → (n : ℕ) → (block : Buffer) → Option ((ℤ × Buffer) × Fs) → Type 0
Found s d n block o =
    if leb 4196362 n
    then o ≡ some ((code efbig, block), s)
    else Gives s (physical s d n) (shown s d n) o

module _ (n : ℕ) where
  direct_range : ltb n 10 ≡ true → (leb 4196362 n ≡ false) × (leb 2058 n ≡ false) × (n < 4196362)
  direct_range e = ground arith

  single_range :
      ltb n 10 ≡ false
      → ltb n 2058 ≡ true
      → (leb 4196362 n ≡ false)
        × (leb 2058 n ≡ false)
        × (n < 4196362)
        × (ltb (n - 10) 2048 ≡ true)
        × (n - 10 < 2048)
  single_range e f = ground arith

  big_range :
      leb 4196362 n ≡ true
      → (ltb n 10 ≡ false) × (ltb (n - 10) 2048 ≡ false) × (leb 4194304 (n - 10 - 2048) ≡ true)
  big_range e = ground arith

  double_range :
      ltb n 2058 ≡ false
      → leb 4196362 n ≡ false
      → (ltb n 10 ≡ false)
        × (ltb (n - 10) 2048 ≡ false)
        × (leb 4194304 (n - 10 - 2048) ≡ false)
        × (leb 2058 n ≡ true)
        × (n < 4196362)
        × (2058 ≤ n)
        × (n - 2058 < 4194304)
        × (n - 10 - 2048 ≡ n - 2058)
  double_range e f = ground arith

module _ (s : Fs) (p n : ℕ) (block : Buffer) where
  by_direct :
      ltb n 10 ≡ true → testfs_read_block p n block s ≡ read_phys ((s.inodes p).din.i_block_nr n) s
  unfolding testfs_read_block
  by_direct e = rw e refl

  by_single :
      ltb n 10 ≡ false
      → ltb (n - 10) 2048 ≡ true
      → testfs_read_block p n block s ≡ read_indirect (s.inodes p).din.i_indirect (n - 10) s
  unfolding testfs_read_block
  by_single e f = rw (e, f) refl

  past_tables :
      ltb n 10 ≡ false
      → ltb (n - 10) 2048 ≡ false
      → leb 4194304 (n - 10 - 2048) ≡ true
      → testfs_read_block p n block s ≡ some ((code efbig, block), s)
  unfolding testfs_read_block
  past_tables e f g = rw (e, f, g) refl

  by_double :
      ltb n 10 ≡ false
      → ltb (n - 10) 2048 ≡ false
      → leb 4194304 (n - 10 - 2048) ≡ false
      → testfs_read_block p n block s
        ≡ read_dindirect (s.inodes p).din.i_dindirect (n - 10 - 2048) s
  unfolding testfs_read_block
  by_double e f g = rw (e, f, g) refl

module _ (s : Fs) (d : Dinode) (n : ℕ) where
  physical_direct : ltb n 10 ≡ true → physical s d n ≡ d.i_block_nr n
  physical_direct e = rw e refl

  physical_single :
      ltb n 10 ≡ false → ltb n 2058 ≡ true → physical s d n ≡ int_at (at s d.i_indirect) (n - 10)
  physical_single e f = rw (e, f) refl

  physical_double :
      ltb n 10 ≡ false
      → ltb n 2058 ≡ false
      → physical s d n ≡ int_at (at s (first_entry s d n)) ((n - 2058) % 2048)
  physical_double e f = rw (e, f) refl

  -- The block itself is shown where no first table is left in the buffer.
  shown_low : leb 2058 n ≡ false → shown s d n ≡ physical s d n
  shown_low e =
      ap
        (λ b.
          if b && (is_zero (first_entry s d n) && not (is_zero d.i_dindirect))
          then d.i_dindirect
          else physical s d n)
        e

  shown_double :
      leb 2058 n ≡ true
      → shown s d n ≡ (
          if is_zero (first_entry s d n) && not (is_zero d.i_dindirect)
          then d.i_dindirect
          else physical s d n)
  shown_double e =
      ap
        (λ b.
          if b && (is_zero (first_entry s d n) && not (is_zero d.i_dindirect))
          then d.i_dindirect
          else physical s d n)
        e

  found_in :
      (block : Buffer) {o o' : Option ((ℤ × Buffer) × Fs)} {r z : ℤ}
      → leb 4196362 n ≡ false
      → physical s d n ≡ r
      → shown s d n ≡ z
      → o' ≡ o
      → Gives s r z o
      → Found s d n block o'
  found_in block {o} {o'} {r} {z} small is shows runs g =
      subst
        (λ b.
          if b
          then o' ≡ some ((code efbig, block), s)
          else Gives s (physical s d n) (shown s d n) o')
        (sym small)
        (subst (λ x. Gives s x (shown s d n) o') (sym is)
          (subst (λ x. Gives s r x o') (sym shows) (subst (Gives s r z) (sym runs) g)))

module _ (s : Fs) (p n : ℕ) (block : Buffer) (h : IsMapped s (s.inodes p).din n) where
  found_direct : ltb n 10 ≡ true → Found s (s.inodes p).din n block (testfs_read_block p n block s)
  found_direct e =
      let d = (s.inodes p).din in
      let (small, low, fits) = direct_range n e in
      let is = physical_direct s d n e in
      found_in s d n block small is (shown_low s d n low ∙ is) (by_direct s p n block e)
        (read_phys-Gives s (d.i_block_nr n) (subst (InDevice s) is (h.block fits)))

  found_single :
      ltb n 10 ≡ false
      → ltb n 2058 ≡ true
      → Found s (s.inodes p).din n block (testfs_read_block p n block s)
  found_single e f =
      let d = (s.inodes p).din in
      let (small, low, fits, inner, lt) = single_range n e f in
      let is = physical_single s d n e f in
      found_in s d n block small is (shown_low s d n low ∙ is) (by_single s p n block e inner) (
        read_indirect-Gives s d.i_indirect (n - 10) lt h.indirect
          (subst (InDevice s) is (h.block fits)))

  found_double :
      ltb n 2058 ≡ false
      → leb 4196362 n ≡ false
      → Found s (s.inodes p).din n block (testfs_read_block p n block s)
  found_double f small =
      let d = (s.inodes p).din in
      let (e, inner, reach, high, fits, le, lt, same) = double_range n f small in
      let is = physical_double s d n e f in
      let z = int_at (at s (first_entry s d n)) ((n - 2058) % 2048) in
      let shows =
        shown_double s d n high
        ∙ ap
            (λ x.
              if is_zero (first_entry s d n) && not (is_zero d.i_dindirect)
              then d.i_dindirect
              else x)
            is in
      found_in s d n block small is shows
        (by_double s p n block e inner reach ∙ ap (λ i. read_dindirect d.i_dindirect i s) same)
        (read_dindirect-Gives s d.i_dindirect (n - 2058) h.dindirect lt (h.second le fits)
          (subst (InDevice s) is (h.block fits)))

  -- Where the numbers on the way to logical block `n` lie in the device, `testfs_read_block` returns -EFBIG
  -- for a block past the last that two tables reach, with the buffer as it was; else the physical number
  -- with the block in the buffer, zeros where there is none, but for a first table without an entry, which
  -- is left in the buffer itself. Nothing else changes.
  pub testfs_read_block-Found : Found s (s.inodes p).din n block (testfs_read_block p n block s)
  testfs_read_block-Found = elim (Bool-cases (ltb n 10)) [
    | inl e ↦ found_direct e
    | inr e ↦ elim (Bool-cases (ltb n 2058)) [
      | inl f ↦ found_single e f
      | inr f ↦ elim (Bool-cases (leb 4196362 n)) [
        | inl big ↦
            let (a, b, c) = big_range n big in
            let d = (s.inodes p).din in
            subst
              (λ x.
                if x
                then testfs_read_block p n block s ≡ some ((code efbig, block), s)
                else Gives s (physical s d n) (shown s d n) (testfs_read_block p n block s))
              (sym big) (past_tables s p n block a b c)
        | inr small ↦ found_double f small
      ]
    ]
  ]
