-- ===== src/Fs/ReadWrite.antt =====
-- fs/read_write.c: the blocks of a file, by logical number, and reading and writing through them. A
-- logical number is looked up in the inode, in the indirect block, or over two tables.
pub mod Found
pub mod Kept
pub mod Lookup
pub mod Read
pub mod Allocate
pub mod Write
pub mod Free
use operating_systems_lab.Base.{
  ℕ, ◌+◌, ◌-◌, ◌*◌, ◌/◌, ◌%◌, ◌^◌, ltb, leb, ◌==◌, if◌then◌else◌, efbig,
}
use operating_systems_lab.Base.Int.{ℤ, pos, negsuc}
use operating_systems_lab.Fs.Bytes.{Buffer, zeros, int_at, to_int}
use operating_systems_lab.Fs.State.{Fs, M, pure, stop, gets, ◌>>=◌, code}
use operating_systems_lab.Fs.Block.{read_blocks}

-- `NR_DIRECT_BLOCKS` and `NR_INDIRECT_BLOCKS`
abbrev pub nr_direct_blocks : ℕ
nr_direct_blocks = 10

abbrev pub nr_indirect_blocks : ℕ
nr_indirect_blocks = 2048

-- A `long` block number given as an `int`, which is asserted not to be negative.
abbrev pub int_nr : (nr : ℕ) → (ℕ → M (ℤ × Buffer)) → M (ℤ × Buffer)
int_nr nr k = elim (to_int (nr % 2 ^ 32)) [ negsuc j ↦ stop | pos n ↦ k n ]

-- The end of `testfs_read_block`: the block itself, or zeros.
unfoldable pub read_phys : (phy_block_nr : ℤ) → M (ℤ × Buffer)
read_phys (negsuc k) = pure (negsuc k, zeros)
read_phys (pos n) =
    if n == 0 then pure (pos 0, zeros) else (do block ← read_blocks n 1; pure (pos n, block))

-- The entry `i` of the table in block `i_indirect`, if there is one.
unfoldable pub read_indirect : (i_indirect : ℤ) → (i : ℕ) → M (ℤ × Buffer)
unfolding read_phys
read_indirect (negsuc k) i = read_phys (pos 0)
read_indirect (pos n) i =
    if n == 0 then read_phys (pos 0) else (do table ← read_blocks n 1; read_phys (int_at table i))

-- The entry `di_addr` of the first table; with none, the buffer still holds that table.
unfoldable pub read_second : (table : Buffer) → (di_addr : ℤ) → (i : ℕ) → M (ℤ × Buffer)
unfolding read_phys
read_second table (negsuc k) i = pure (negsuc k, table)
read_second table (pos n) i =
    if n == 0
    then pure (pos 0, table)
    else (do second ← read_blocks n 1; read_phys (int_at second i))

unfoldable pub read_dindirect : (i_dindirect : ℤ) → (i : ℕ) → M (ℤ × Buffer)
unfolding read_phys read_second
read_dindirect (negsuc k) i = read_phys (pos 0)
read_dindirect (pos n) i = if n == 0 then read_phys (pos 0) else (do
  table ← read_blocks n 1
  read_second table (int_at table (i / nr_indirect_blocks)) (i % nr_indirect_blocks))

-- The result is the physical number and what the caller's buffer holds, `block` before.
unfoldable pub testfs_read_block : (p : ℕ) → (log_block_nr : ℕ) → (block : Buffer) → M (ℤ × Buffer)
unfolding read_phys read_indirect read_dindirect
testfs_read_block p n block s =
    let d = (s.inodes p).din in
    if ltb n nr_direct_blocks
    then read_phys (d.i_block_nr n) s
    else if ltb (n - nr_direct_blocks) nr_indirect_blocks
    then read_indirect d.i_indirect (n - nr_direct_blocks) s
    else if leb (nr_indirect_blocks * nr_indirect_blocks)
        (n - nr_direct_blocks - nr_indirect_blocks)
    then pure (code efbig, block) s
    else read_dindirect d.i_dindirect (n - nr_direct_blocks - nr_indirect_blocks) s
