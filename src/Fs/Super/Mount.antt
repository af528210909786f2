-- ===== src/Fs/Super/Mount.antt =====
-- `testfs_init_super_block` and `testfs_close_super_block`: the super block and the freemaps between
-- the device and memory. The file can be opened, and there is memory.
use operating_systems_lab.Base.{
  ℕ, zero, suc, ◌+◌, ◌*◌, Bool, true, false, Option, none, some, List, [], ◌∷◌, Outcome, ok, err,
  fault, ◌||◌, ltb, ◌^◌, ◌/◌, if◌then◌else◌,
}
use operating_systems_lab.Base.Int.{ℤ, pos}
use operating_systems_lab.Bitmap
use operating_systems_lab.Bitmap.{Bitmap}
use operating_systems_lab.Fs.Bytes.{Buffer, of_list}
use operating_systems_lab.Fs.State.{
  M, pure, stop, gets, modify, assert, ◌>>=◌, ◌>>◌, code, block_size, inode_freemap_size,
  block_freemap_size, bind, Inode, Fs,
}
use operating_systems_lab.Fs.Block.{write_blocks, read_blocks}
use operating_systems_lab.Fs.Super.{
  super_of, testfs_write_super_block, testfs_make_super_block, testfs_make_inode_freemap,
  testfs_make_block_freemap, testfs_make_inode_blocks,
}

-- The first `n` bytes from offset `k` on, as a bitmap holds them.
unfoldable pub bytes_from : (n k : ℕ) → Buffer → List ℕ
bytes_from zero k b = []
bytes_from (suc n) k b = b k ∷ bytes_from n (k + 1) b

-- `bitmap_create` of `size` blocks, and the blocks from `start` on read into it.
unfoldable pub read_map : (size start : ℕ) → (k : Bitmap → M ℤ) → Outcome Bitmap → M ℤ
read_map size start k fault = stop
read_map size start k (err e) = pure (code e)
read_map size start k (ok b) = do
  bytes ← read_blocks start size
  k (record b { v = bytes_from (block_size * size) 0 bytes })

abbrev pub new_map : (size : ℕ) → Outcome Bitmap
new_map size = Bitmap.create true true (block_size * size * 8)

unfoldable pub testfs_init_super_block : M ℤ
unfolding read_map
testfs_init_super_block = do
  block ← read_blocks 0 1
  modify (λ s. record s { sb = super_of block })
  inode_start ← gets (λ s. s.sb.inode_freemap_start)
  read_map inode_freemap_size inode_start
      (λ inodes. do
        modify (λ s. record s { inode_freemap = some inodes })
        block_start ← gets (λ s. s.sb.block_freemap_start)
        read_map block_freemap_size block_start
            (λ blocks. do
              modify (λ s. record s { block_freemap = some blocks; chains = λ h. [] })
              pure (pos 0))
            (new_map block_freemap_size))
      (new_map inode_freemap_size)

-- A freemap that is there is written whole.
unfoldable pub close_map : Option Bitmap → (start size : ℕ) → M (Unit {0})
close_map none start size = pure tt
close_map (some b) start size = write_blocks (of_list b.v) start size

abbrev is_nil : List ℕ → Bool
is_nil [] = true
is_nil (x ∷ xs) = false

-- `inode_hash_destroy` asserts that each of the 256 chains is empty.
unfoldable pub inode_hash_destroy : (rounds i : ℕ) → M (Unit {0})
inode_hash_destroy zero i = pure tt
inode_hash_destroy (suc n) i = do
  chain ← gets (λ s. s.chains i)
  assert (is_nil chain)
  inode_hash_destroy n (i + 1)

unfoldable pub testfs_close_super_block : M (Unit {0})
unfolding testfs_write_super_block close_map
testfs_close_super_block = do
  testfs_write_super_block
  inode_hash_destroy 256 0
  inodes ← gets (λ s. s.inode_freemap)
  inode_start ← gets (λ s. s.sb.inode_freemap_start)
  close_map inodes inode_start inode_freemap_size
  blocks ← gets (λ s. s.block_freemap)
  block_start ← gets (λ s. s.sb.block_freemap_start)
  close_map blocks block_start block_freemap_size
  modify (λ s. record s { inode_freemap = none; block_freemap = none })

-- `main` of fs/mktestfs.c, from the size in megabytes on up to the mount.
unfoldable pub format : (fs_size_mb : ℕ) → (inodes : ℕ → Inode) → Option (ℤ × Fs)
format fs_size_mb inodes =
    if ltb fs_size_mb 1 || ltb 8192 fs_size_mb
    then none
    else bind (testfs_make_super_block (fs_size_mb * 2 ^ 20 / block_size) inodes) (λ _. do
      testfs_make_inode_freemap
      testfs_make_block_freemap
      testfs_make_inode_blocks
      testfs_close_super_block
      testfs_init_super_block)
