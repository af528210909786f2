-- ===== src/Fs/Super/Release.antt =====
-- `testfs_free_block` on a consistent file system.
use operating_systems_lab.Base.{
  ℕ, ◌+◌, ◌-◌, ◌<◌, ◌≤◌, ◌≡◌, ◌⊎◌, ◌∙◌, refl, sym, ap, subst, true, false, Option, none, some, ltb,
  leb, ◌==◌, if◌then◌else◌, leb→le, arith, Bool-cases, inl, inr, Outcome, ok, err, fault,
}
use operating_systems_lab.Base.Int.{ℤ, pos}
use operating_systems_lab.Bitmap
use operating_systems_lab.Bitmap.{Bitmap, nr_allocated}
use operating_systems_lab.Bitmap.Valid.{bit_at}
use operating_systems_lab.Bitmap.Mark.{Gives, unmark-Gives}
use operating_systems_lab.Bitmap.Count.{nr_allocated-unmark}
use operating_systems_lab.Fs.Bytes.{zeros}
use operating_systems_lab.Fs.State.{Fs, ◌>>=◌, ◌>>◌, assert, gets, pure, M, bind}
use operating_systems_lab.Fs.Block.{write_device, zero_loop}
use operating_systems_lab.Fs.Block.Written.{written_at, written_ne}
use operating_systems_lab.Fs.Super.{
  map_unmark, put_block, testfs_put_block_freemap, testfs_write_block_freemap,
  testfs_write_super_block, set_super,
}
use operating_systems_lab.Fs.Super.Alloc.{testfs_free_block}
use operating_systems_lab.Fs.Super.Consistent.{IsConsistent, IsStored-kept}
use operating_systems_lab.Fs.Super.Changed.{with_blocks, KeepsData, with_blocks-IsConsistent}

abbrev pub zeroed : Fs → ℕ → Fs
zeroed s n = record s { dev = write_device s.dev zeros n 1 }

-- What freeing block `n` promises: the block was in use, is free and zero afterwards, and one block less
-- is counted. It stops only for a block that is not in use, or is no data block.
abbrev pub Frees : (mi m : Bitmap) → Fs → (n : ℕ) → Option (ℤ × Fs) → Type 0
Frees mi m s n none = (n < 146) ⊎ ((m.nbits ≤ n - 146) ⊎ (bit_at m (n - 146) ≡ false))
Frees mi m s n (some (ret, s')) =
    (ret ≡ pos 0)
    × (146 ≤ n)
    × (bit_at m (n - 146) ≡ true)
    × (s'.sb.used_block_count + 1 ≡ s.sb.used_block_count)
    × ((k : ℕ) → s'.dev.block n k ≡ 0)
    × KeepsData (zeroed s n) s'
    × ((m' : Bitmap) × IsConsistent mi m' s'
        × ((k : ℕ) → bit_at m' k ≡ (if n - 146 == k then false else bit_at m k)))

-- The rest of `testfs_free_block` by the outcome of `bitmap_unmark`.
free_by : Fs → (n : ℕ) → Outcome Bitmap → Option (ℤ × Fs)
free_by s n fault = none
free_by s n (err e) = none
free_by s n (ok m') =
    if ltb 0 s.sb.used_block_count
    then some (pos 0, with_blocks s m' n (s.sb.used_block_count - 1))
    else none

-- The end of `testfs_free_block`
abbrev count_down : M ℤ
count_down = do
  used ← gets (λ s. s.sb.used_block_count)
  assert (ltb 0 used)
  set_super (λ d. record d { used_block_count = d.used_block_count - 1 })
  testfs_write_super_block
  pure (pos 0)

free_by-eq : (s : Fs) (n : ℕ) (o : Outcome Bitmap) → (put_block n o >> count_down) s ≡ free_by s n o
unfolding free_by put_block testfs_write_block_freemap testfs_write_super_block
free_by-eq s n fault = refl
free_by-eq s n (err e) = refl
free_by-eq s n (ok m') = elim (Bool-cases (ltb 0 s.sb.used_block_count)) [
  | inl e ↦ rw e refl
  | inr e ↦ rw e refl
]

module _ {mi m : Bitmap} {s : Fs} (c : IsConsistent mi m s) (n : ℕ) where
  zeroed-IsConsistent : 146 ≤ n → IsConsistent mi m (zeroed s n)
  zeroed-IsConsistent le =
      let kept = λ (b : ℕ) (h : b < 146). written_ne s.dev zeros n b (ground arith) in
      record {
        inodes = c.inodes;
        blocks = c.blocks;
        inode_map_at = c.inode_map_at;
        block_map_at = c.block_map_at;
        inodes_at = c.inodes_at;
        data_at = c.data_at;
        inode_map = IsStored-kept (λ b l u. kept b (omega arith)) c.inode_map;
        block_map = IsStored-kept (λ b l u. kept b (omega arith)) c.block_map;
        super_block = λ k lt. rw (kept 0 (omega arith)) (c.super_block k lt);
      }

  free_by-Frees :
      146 ≤ n
      → (o : Outcome Bitmap) → Bitmap.unmark m (n - 146) ≡ o
      → Gives false m (n - 146) o
      → Frees mi m s n (free_by (zeroed s n) (n - 146) o)
  unfolding free_by
  free_by-Frees le fault e (inl out) = inr (inl (ground arith))
  free_by-Frees le fault e (inr was) = inr (inr was)
  free_by-Frees le (err e) eq a = absurd a
  free_by-Frees le (ok m') e (lt, was, changed, same, valid) =
      let count = nr_allocated-unmark (n - 146) c.block_map.valid e in
      let fits : n - 146 < 1048576 = ground (arith, lt, c.block_map.bits) in
      let some_used : ltb 0 s.sb.used_block_count ≡ true =
        ground (arith, count, c.block_map.counted) in
      let (consistent, kept) =
        with_blocks-IsConsistent (n - 146) (s.sb.used_block_count - 1) false
          (zeroed-IsConsistent le) fits valid same (ground (arith, count, c.block_map.counted))
          changed in
      let zero_block = λ (k : ℕ).
        ap (λ b. b k) (kept.blocks n (omega (arith, le))) ∙ written_at s.dev zeros n n k refl in
      rw some_used (
        refl,
        le,
        was,
        ground (arith, count, c.block_map.counted),
        zero_block,
        kept,
        (m', consistent, changed),
      )

  by_map :
      testfs_put_block_freemap (n - 146) (zeroed s n)
      ≡ put_block (n - 146) (Bitmap.unmark m (n - 146)) (zeroed s n)
  unfolding testfs_put_block_freemap
  by_map = ap (λ o. put_block (n - 146) (map_unmark o (n - 146)) (zeroed s n)) c.blocks

  step : ℕ → Option (ℤ × Fs)
  step start =
      (do assert (leb start n); testfs_put_block_freemap (n - start); count_down) (zeroed s n)

  to_step : testfs_free_block n s ≡ step 146
  unfolding testfs_free_block zero_loop step
  to_step = ap step c.data_at

  step-Frees : Frees mi m s n (step 146)
  unfolding step
  step-Frees = elim (Bool-cases (leb 146 n)) [
    | inl le ↦
        let o = Bitmap.unmark m (n - 146) in
        let is = ap (λ r. bind r (λ _. count_down)) by_map ∙ free_by-eq (zeroed s n) (n - 146) o in
        rw le (
          subst (Frees mi m s n) (sym is)
            (free_by-Frees (leb→le _ _ le) o refl (unmark-Gives c.block_map.valid (n - 146))))
    | inr lt ↦ rw lt (inl (ground arith))
  ]

  -- On a consistent file system `testfs_free_block` zeroes a block in use, makes it free and counts one
  -- block less, with no other bit, no other block from 18 on and no inode changed and the file system
  -- consistent; it stops only for a block that is not in use, or is no data block.
  pub testfs_free_block-Frees : Frees mi m s n (testfs_free_block n s)
  testfs_free_block-Frees = subst (Frees mi m s n) (sym to_step) step-Frees
