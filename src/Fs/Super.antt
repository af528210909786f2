-- ===== src/Fs/Super.antt =====
-- fs/super.c: the super block, the two freemaps, and the blocks and inode numbers that they hold.
pub mod Alloc
pub mod Mount
pub mod Format
pub mod HasBytes
pub mod Closed
pub mod Remount
pub mod Image
pub mod Release
pub mod Allocate
pub mod Changed
pub mod Consistent
use operating_systems_lab.Base.{
  ℕ, zero, suc, ◌+◌, ◌-◌, ◌*◌, ◌/◌, ◌%◌, ◌^◌, Bool, Option, none, some, List, [], ◌∷◌, ltb, leb,
  ◌==◌, if◌then◌else◌, Outcome, ok, err, fault, enospc,
}
use operating_systems_lab.Base.Int.{ℤ, pos, negsuc}
use operating_systems_lab.Bitmap
use operating_systems_lab.Bitmap.{Bitmap}
use operating_systems_lab.Fs.Bytes.{Buffer, zeros, of_list, from, memcpy, of_words, word_at, to_int}
use operating_systems_lab.Fs.State.{
  DsuperBlock, Device, Inode, Fs, M, pure, stop, gets, modify, assert, ◌>>=◌, ◌>>◌, code,
  block_size, super_block_size, inode_freemap_size, block_freemap_size, nr_inode_blocks,
}
use operating_systems_lab.Fs.Block.{write_blocks, zero_blocks, read_blocks}

-- The words of `struct dsuper_block`, with `max_fs_blocks` in two, and the structure they make.
abbrev pub super_words : DsuperBlock → ℕ → ℕ
super_words d j =
    if j == 0
    then d.inode_freemap_start
    else if j == 1
    then d.block_freemap_start
    else if j == 2
    then d.inode_blocks_start
    else if j == 3
    then d.data_blocks_start
    else if j == 4
    then d.used_inode_count
    else if j == 5
    then d.used_block_count
    else if j == 6
    then d.max_fs_blocks % 2 ^ 32
    else d.max_fs_blocks / 2 ^ 32

abbrev pub super_of : Buffer → DsuperBlock
super_of b = record {
  inode_freemap_start = word_at b 0;
  block_freemap_start = word_at b 1;
  inode_blocks_start = word_at b 2;
  data_blocks_start = word_at b 3;
  used_inode_count = word_at b 4;
  used_block_count = word_at b 5;
  max_fs_blocks = word_at b 6 + 2 ^ 32 * word_at b 7;
}

abbrev pub super_image : DsuperBlock → Buffer
super_image d = memcpy zeros 0 (of_words (super_words d)) 0 32

unfoldable pub testfs_write_super_block : M (Unit {0})
testfs_write_super_block s = write_blocks (super_image s.sb) 0 1 s

-- The block of a freemap that bit `nr` is in: 65536 bits to a block.
abbrev pub write_map : Option Bitmap → (start nr : ℕ) → M (Unit {0})
write_map none start nr = stop
write_map (some b) start nr =
    let block = nr / (block_size * 8) in
    write_blocks (from (of_list b.v) (block * block_size)) (start + block) 1

unfoldable pub testfs_write_inode_freemap : (inode_nr : ℕ) → M (Unit {0})
testfs_write_inode_freemap inode_nr s =
    write_map s.inode_freemap s.sb.inode_freemap_start inode_nr s

unfoldable pub testfs_write_block_freemap : (block_nr : ℕ) → M (Unit {0})
testfs_write_block_freemap block_nr s =
    write_map s.block_freemap s.sb.block_freemap_start block_nr s

-- `bitmap_alloc` and `bitmap_unmark` on a freemap; a null pointer fails the assertion before.
abbrev pub map_alloc : Option Bitmap → Outcome (ℕ × Bitmap)
map_alloc none = fault
map_alloc (some b) = Bitmap.alloc b

abbrev pub map_unmark : Option Bitmap → ℕ → Outcome Bitmap
map_unmark none nr = fault
map_unmark (some b) nr = Bitmap.unmark b nr

-- Behind `bitmap_alloc` on the block freemap.
unfoldable pub got_block : Outcome (ℕ × Bitmap) → M ℤ
unfolding testfs_write_block_freemap
got_block fault = stop
got_block (err e) = pure (code e)
got_block (ok (index, b)) = do
  modify (λ s. record s { block_freemap = some b })
  testfs_write_block_freemap index
  pure (pos index)

unfoldable pub testfs_get_block_freemap : M ℤ
unfolding got_block
testfs_get_block_freemap s = got_block (map_alloc s.block_freemap) s

unfoldable pub put_block : (block_nr : ℕ) → Outcome Bitmap → M (Unit {0})
unfolding testfs_write_block_freemap
put_block block_nr fault = stop
put_block block_nr (err e) = stop
put_block block_nr (ok b) = do
  modify (λ s. record s { block_freemap = some b })
  testfs_write_block_freemap block_nr

unfoldable pub testfs_put_block_freemap : (block_nr : ℕ) → M (Unit {0})
unfolding put_block
testfs_put_block_freemap block_nr s = put_block block_nr (map_unmark s.block_freemap block_nr) s

abbrev pub set_super : (DsuperBlock → DsuperBlock) → M (Unit {0})
set_super f = modify (λ s. record s { sb = f s.sb })

-- The file system that `testfs_make_super_block` makes on an empty file; the memory for inodes is
-- given.
unfoldable pub testfs_make_super_block : (max_fs_blocks : ℕ) → (ℕ → Inode) → Option (Unit {0} × Fs)
unfolding testfs_write_super_block
testfs_make_super_block max_fs_blocks inodes =
    let inode_freemap_start = super_block_size in
    let block_freemap_start = inode_freemap_start + inode_freemap_size in
    let inode_blocks_start = block_freemap_start + block_freemap_size in
    testfs_write_super_block (record {
      sb = record {
        inode_freemap_start = inode_freemap_start;
        block_freemap_start = block_freemap_start;
        inode_blocks_start = inode_blocks_start;
        data_blocks_start = inode_blocks_start + nr_inode_blocks;
        used_inode_count = 0;
        used_block_count = 0;
        max_fs_blocks = max_fs_blocks;
      };
      dev = record { block = λ b. zeros; size = 0 };
      inode_freemap = none;
      block_freemap = none;
      inodes = inodes;
      chains = λ h. [];
      next_inode = 0;
    })

unfoldable pub testfs_make_inode_freemap : M (Unit {0})
testfs_make_inode_freemap s = zero_blocks s.sb.inode_freemap_start inode_freemap_size s

unfoldable pub testfs_make_block_freemap : M (Unit {0})
testfs_make_block_freemap s = zero_blocks s.sb.block_freemap_start block_freemap_size s

unfoldable pub testfs_make_inode_blocks : M (Unit {0})
testfs_make_inode_blocks s = zero_blocks s.sb.inode_blocks_start nr_inode_blocks s
