-- ===== src/Fs/Super/Allocate.antt =====
-- `testfs_alloc_block` on a consistent file system.
use operating_systems_lab.Base.{
  ℕ, ◌+◌, ◌-◌, ◌%◌, ◌^◌, ◌<◌, ◌≤◌, ◌≡◌, ◌⊎◌, ◌∙◌, refl, sym, ap, subst, true, false, Option, none,
  some, leb, ◌==◌, if◌then◌else◌, leb→le, arith, Bool-cases, inl, inr, Outcome, ok, err, fault,
  enospc, Errno, enoent, enomem, eexist, enotdir, eisdir, einval, efbig, enotempty,
}
use operating_systems_lab.Base.Int.{ℤ, pos, negsuc}
use operating_systems_lab.Bitmap
use operating_systems_lab.Bitmap.{Bitmap, nr_allocated}
use operating_systems_lab.Bitmap.Valid.{bit_at}
use operating_systems_lab.Bitmap.Alloc.{Allocated, alloc-Allocated}
use operating_systems_lab.Bitmap.Count.{nr_allocated-alloc, nr_allocated-le}
use operating_systems_lab.Fs.Bytes.{to_int}
use operating_systems_lab.Fs.State.{Fs, code, ◌>>=◌}
use operating_systems_lab.Fs.Super.{
  map_alloc, got_block, testfs_get_block_freemap, testfs_write_block_freemap,
  testfs_write_super_block,
}
use operating_systems_lab.Fs.Super.Alloc.{testfs_alloc_block, count_block}
use operating_systems_lab.Fs.Super.Consistent.{IsConsistent}
use operating_systems_lab.Fs.Super.Changed.{with_blocks, KeepsData, with_blocks-IsConsistent}

-- What an allocation promises: the first block that is not in use, by its number on the device, which
-- is in use afterwards, one more block counted; or -ENOSPC with nothing changed, if the limit of the
-- super block is reached or no block is free.
abbrev pub Allocates : (mi m : Bitmap) → Fs → Option (ℤ × Fs) → Type 0
Allocates mi m s none = ⊥
Allocates mi m s (some (pos n, s')) =
    (146 ≤ n)
    × (n < 146 + m.nbits)
    × (bit_at m (n - 146) ≡ false)
    × ((k : ℕ) → k < n - 146 → bit_at m k ≡ true)
    × (s'.sb.used_block_count ≡ s.sb.used_block_count + 1)
    × KeepsData s s'
    × ((m' : Bitmap) × IsConsistent mi m' s'
        × ((k : ℕ) → bit_at m' k ≡ (if n - 146 == k then true else bit_at m k)))
Allocates mi m s (some (negsuc k, s')) =
    (negsuc k ≡ code enospc)
    × (s' ≡ s)
    × ((s.sb.max_fs_blocks ≤ s.sb.used_block_count) ⊎ ((k : ℕ) → k < m.nbits → bit_at m k ≡ true))

-- The outcome of `testfs_alloc_block` by that of `bitmap_alloc`.
alloc_by : Fs → Outcome (ℕ × Bitmap) → Option (ℤ × Fs)
alloc_by s fault = none
alloc_by s (err e) = some (code e, s)
alloc_by s (ok (i, m')) = some (
  to_int ((s.sb.data_blocks_start + i) % 2 ^ 32),
  with_blocks s m' i ((s.sb.used_block_count + 1) % 2 ^ 32),
)

count_code : (e : Errno) (s : Fs) → count_block (code e) s ≡ some (code e, s)
unfolding count_block
count_code enoent s = refl
count_code enomem s = refl
count_code eexist s = refl
count_code enotdir s = refl
count_code eisdir s = refl
count_code einval s = refl
count_code efbig s = refl
count_code enospc s = refl
count_code enotempty s = refl

alloc_by-eq : (s : Fs) (o : Outcome (ℕ × Bitmap)) → (got_block o >>= count_block) s ≡ alloc_by s o
unfolding got_block count_block alloc_by testfs_write_block_freemap testfs_write_super_block
alloc_by-eq s fault = refl
alloc_by-eq s (err e) = count_code e s
alloc_by-eq s (ok (i, m')) = refl

module _ {mi m : Bitmap} {s : Fs} (c : IsConsistent mi m s) where
  by_map : (testfs_get_block_freemap >>= count_block) s ≡ alloc_by s (Bitmap.alloc m)
  unfolding testfs_get_block_freemap
  by_map =
      ap (λ o. (got_block (map_alloc o) >>= count_block) s) c.blocks
      ∙ alloc_by-eq s (Bitmap.alloc m)

  -- What the bitmap gives is the block's number, counted from the first data block.
  alloc_by-Allocates :
      (o : Outcome (ℕ × Bitmap))
      → Bitmap.alloc m ≡ o
      → Allocated m o
      → Allocates mi m s (alloc_by s o)
  unfolding alloc_by
  alloc_by-Allocates fault e a = a
  alloc_by-Allocates (err e) eq (is, full) = rw is (refl, refl, inr full)
  alloc_by-Allocates (ok (i, m')) e (lt, clear, first, changed, same, valid) =
      let count = nr_allocated-alloc i c.block_map.valid e in
      let below = nr_allocated-le m in
      let fits : i < 1048576 = ground (arith, lt, c.block_map.bits) in
      let used : (s.sb.used_block_count + 1) % 2 ^ 32 ≡ s.sb.used_block_count + 1 =
        ground (arith, c.block_map.bits, c.block_map.counted, below) in
      let at : to_int ((s.sb.data_blocks_start + i) % 2 ^ 32) ≡ pos (146 + i) =
        ground (arith, c.data_at, fits) in
      let back : 146 + i - 146 ≡ i = omega arith in
      let (consistent, kept) =
        with_blocks-IsConsistent i (s.sb.used_block_count + 1) true c fits valid same
          (ground (arith, count, c.block_map.counted)) changed in
      let is : alloc_by s (ok (i, m'))
          ≡ some (pos (146 + i), with_blocks s m' i (s.sb.used_block_count + 1)) =
        rw (at, used) refl in
      let first' = subst (λ j. (k : ℕ) → k < j → bit_at m k ≡ true) (sym back) first in
      let changed' =
        subst (λ j. (k : ℕ) → bit_at m' k ≡ (if j == k then true else bit_at m k)) (sym back)
          changed in
      subst (Allocates mi m s) (sym is) (
        omega arith,
        omega (arith, lt),
        subst (λ j. bit_at m j ≡ false) (sym back) clear,
        first',
        refl,
        kept,
        (m', consistent, changed'),
      )

  -- On a consistent file system `testfs_alloc_block` returns: the first free block, which is in use and
  -- counted afterwards, with no other bit, no block from 18 on and no inode changed and the file system
  -- consistent; or -ENOSPC with nothing changed, where the limit is reached or no block is free.
  pub testfs_alloc_block-Allocates : Allocates mi m s (testfs_alloc_block s)
  unfolding testfs_alloc_block
  testfs_alloc_block-Allocates = elim (Bool-cases (leb s.sb.max_fs_blocks s.sb.used_block_count)) [
    | inl full ↦ rw full (refl, refl, inl (leb→le _ _ full))
    | inr room ↦
        rw (room, by_map)
          (alloc_by-Allocates (Bitmap.alloc m) refl (alloc-Allocated c.block_map.valid))
  ]
