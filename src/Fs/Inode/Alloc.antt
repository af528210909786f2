-- ===== src/Fs/Inode/Alloc.antt =====
-- The blocks of an inode in fs/inode.c.
use operating_systems_lab.Base.{ℕ, ◌==◌, if◌then◌else◌}
use operating_systems_lab.Base.Int.{ℤ, pos, negsuc, plus, minus}
use operating_systems_lab.Fs.State.{M, pure, stop, ◌>>=◌, ◌>>◌}
use operating_systems_lab.Fs.Super.Alloc.{testfs_alloc_block, testfs_free_block}
use operating_systems_lab.Fs.Inode.{change_din}

unfoldable pub count_for_inode : (p : ℕ) → ℤ → M ℤ
count_for_inode p (negsuc k) = pure (negsuc k)
count_for_inode p (pos n) = do
  change_din p (λ d. record d { block_count = plus d.block_count 1 })
  pure (pos n)

unfoldable pub testfs_alloc_block_for_inode : (p : ℕ) → M ℤ
unfolding testfs_alloc_block count_for_inode
testfs_alloc_block_for_inode p = testfs_alloc_block >>= count_for_inode p

-- A negative number is no position in the file, and ends the process.
unfoldable pub testfs_free_block_from_inode : (p : ℕ) → (phy_block_nr : ℤ) → M (Unit {0})
unfolding testfs_free_block
testfs_free_block_from_inode p (negsuc k) = stop
testfs_free_block_from_inode p (pos n) = if n == 0 then pure tt else (do
  freed ← testfs_free_block n
  change_din p (λ d. record d { block_count = minus d.block_count 1 }))
