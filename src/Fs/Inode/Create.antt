-- ===== src/Fs/Inode/Create.antt =====
-- `testfs_create_inode` and `testfs_remove_inode` of fs/inode.c.
use operating_systems_lab.Base.{ℕ, ◌/◌, leb, if◌then◌else◌, enospc}
use operating_systems_lab.Base.Int.{ℤ, pos, negsuc}
use operating_systems_lab.Fs.State.{M, pure, gets, assert, ◌>>=◌, ◌>>◌, code, nr_inode_blocks}
use operating_systems_lab.Fs.Super.Alloc.{testfs_get_inode_freemap, testfs_put_inode_freemap}
use operating_systems_lab.Fs.Inode.{
  Hlist, inodes_per_block, empty_dinode, change_din, testfs_get_inode, testfs_put_inode,
  testfs_sync_inode,
}
use operating_systems_lab.Fs.ReadWrite.Allocate.{is_zero}
use operating_systems_lab.Fs.ReadWrite.Free.{testfs_free_blocks}

-- The result 0 with the inode, or an error code.
pub data Made : Type 0 where
  made : (p : ℕ) → Made
  failed : ℤ → Made

module _ (lib : Hlist) where
  unfoldable pub create_numbered : (type : ℤ) → (inode_nr : ℤ) → M Made
  create_numbered type (negsuc k) = pure (failed (negsuc k))
  create_numbered type (pos nr) =
      if leb nr_inode_blocks (nr / inodes_per_block)
      then (do testfs_put_inode_freemap nr; pure (failed (code enospc)))
      else (do
        p ← testfs_get_inode lib nr
        change_din p (λ d. record d { i_type = type })
        pure (made p))

  unfoldable pub testfs_create_inode : (type : ℤ) → M Made
  unfolding create_numbered
  testfs_create_inode type = testfs_get_inode_freemap >>= create_numbered type

  unfoldable pub testfs_remove_inode : (p : ℕ) → M (Unit {0})
  testfs_remove_inode p = do
    freed ← testfs_free_blocks p
    count ← gets (λ s. (s.inodes p).din.block_count)
    assert (is_zero count)
    change_din p (λ d. empty_dinode)
    nr ← gets (λ s. (s.inodes p).i_nr)
    testfs_put_inode_freemap nr
    testfs_sync_inode p
    testfs_put_inode lib p
