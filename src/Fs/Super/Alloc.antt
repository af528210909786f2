-- ===== src/Fs/Super/Alloc.antt =====
-- Allocation in fs/super.c: inode numbers and blocks, with the counts in the super block.
use operating_systems_lab.Base.{
  ℕ, ◌+◌, ◌-◌, ◌%◌, ◌^◌, some, ltb, leb, if◌then◌else◌, Outcome, ok, err, fault, enospc,
}
use operating_systems_lab.Base.Int.{ℤ, pos, negsuc}
use operating_systems_lab.Bitmap.{Bitmap}
use operating_systems_lab.Fs.Bytes.{to_int}
use operating_systems_lab.Fs.State.{M, pure, stop, gets, modify, assert, ◌>>=◌, ◌>>◌, code}
use operating_systems_lab.Fs.Block.{zero_blocks}
use operating_systems_lab.Fs.Super.{
  testfs_write_super_block, testfs_write_inode_freemap, testfs_get_block_freemap,
  testfs_put_block_freemap, map_alloc, map_unmark, set_super,
}

-- Behind `bitmap_alloc` on the inode freemap.
unfoldable pub got_inode : Outcome (ℕ × Bitmap) → M ℤ
unfolding testfs_write_inode_freemap testfs_write_super_block
got_inode fault = stop
got_inode (err e) = pure (code e)
got_inode (ok (index, b)) = do
  modify (λ s. record s { inode_freemap = some b })
  testfs_write_inode_freemap index
  set_super (λ d. record d { used_inode_count = (d.used_inode_count + 1) % 2 ^ 32 })
  testfs_write_super_block
  pure (pos index)

unfoldable pub testfs_get_inode_freemap : M ℤ
unfolding got_inode
testfs_get_inode_freemap s = got_inode (map_alloc s.inode_freemap) s

unfoldable pub put_inode_nr : (inode_nr : ℕ) → Outcome Bitmap → M (Unit {0})
unfolding testfs_write_inode_freemap testfs_write_super_block
put_inode_nr inode_nr fault = stop
put_inode_nr inode_nr (err e) = stop
put_inode_nr inode_nr (ok b) = do
  modify (λ s. record s { inode_freemap = some b })
  testfs_write_inode_freemap inode_nr
  used ← gets (λ s. s.sb.used_inode_count)
  assert (ltb 0 used)
  set_super (λ d. record d { used_inode_count = d.used_inode_count - 1 })
  testfs_write_super_block

unfoldable pub testfs_put_inode_freemap : (inode_nr : ℕ) → M (Unit {0})
unfolding put_inode_nr
testfs_put_inode_freemap inode_nr s = put_inode_nr inode_nr (map_unmark s.inode_freemap inode_nr) s

-- Behind `testfs_get_block_freemap`: the count, and the number of the block on the device.
unfoldable pub count_block : ℤ → M ℤ
unfolding testfs_write_super_block
count_block (negsuc k) = pure (negsuc k)
count_block (pos n) = do
  set_super (λ d. record d { used_block_count = (d.used_block_count + 1) % 2 ^ 32 })
  testfs_write_super_block
  gets (λ s. to_int ((s.sb.data_blocks_start + n) % 2 ^ 32))

unfoldable pub testfs_alloc_block : M ℤ
unfolding testfs_get_block_freemap count_block
testfs_alloc_block s =
    if leb s.sb.max_fs_blocks s.sb.used_block_count
    then pure (code enospc) s
    else (testfs_get_block_freemap >>= count_block) s

-- A block number below `data_blocks_start` fails an assertion, as the difference is negative in an
-- `int`.
unfoldable pub testfs_free_block : (block_nr : ℕ) → M ℤ
unfolding testfs_put_block_freemap testfs_write_super_block
testfs_free_block block_nr = do
  zero_blocks block_nr 1
  start ← gets (λ s. s.sb.data_blocks_start)
  assert (leb start block_nr)
  testfs_put_block_freemap (block_nr - start)
  used ← gets (λ s. s.sb.used_block_count)
  assert (ltb 0 used)
  set_super (λ d. record d { used_block_count = d.used_block_count - 1 })
  testfs_write_super_block
  pure (pos 0)
