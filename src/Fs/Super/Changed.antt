-- ===== src/Fs/Super/Changed.antt =====
-- A consistent file system after one bit of the freemap of blocks has changed.
use operating_systems_lab.Base.{
  ℕ, ◌+◌, ◌*◌, ◌/◌, ◌<◌, ◌≤◌, ◌≡◌, ◌∙◌, refl, subst, Bool, false, some, ◌==◌, if◌then◌else◌, arith,
}
use operating_systems_lab.Bitmap.{Bitmap, nr_allocated}
use operating_systems_lab.Bitmap.Valid.{IsValid, bit_at}
use operating_systems_lab.Fs.Bytes.{from, of_list}
use operating_systems_lab.Fs.State.{Fs, Device, DsuperBlock, block_size}
use operating_systems_lab.Fs.Block.{write_device}
use operating_systems_lab.Fs.Block.Written.{written_at, written_ne}
use operating_systems_lab.Fs.Super.{super_image}
use operating_systems_lab.Fs.Super.Consistent.{
  IsStored, IsConsistent, IsStored-kept, IsStored-written,
}

-- The state with the freemap `m`, of which the block of bit `i` was written, and `used` blocks counted.
abbrev pub with_blocks : Fs → (m : Bitmap) → (i used : ℕ) → Fs
with_blocks s m i used =
    let sb : DsuperBlock = record s.sb { used_block_count = used } in
    let map_at : ℕ = s.sb.block_freemap_start + i / 65536 in
    let mapped : Device =
      write_device s.dev (from (of_list m.v) (i / 65536 * block_size)) map_at 1 in
    record s { sb = sb; block_freemap = some m; dev = write_device mapped (super_image sb) 0 1 }

-- Nothing in memory but the counts and the freemap has changed, and of the device no block that the
-- inodes or the data have.
pub record KeepsData (s s' : Fs) : Type 0 where
  pub inodes : s'.inodes ≡ s.inodes
  pub chains : s'.chains ≡ s.chains
  pub next_inode : s'.next_inode ≡ s.next_inode
  pub max_fs_blocks : s'.sb.max_fs_blocks ≡ s.sb.max_fs_blocks
  pub blocks : (b : ℕ) → 18 ≤ b → s'.dev.block b ≡ s.dev.block b

untouched :
    (s : Fs) (m : Bitmap) (i used b : ℕ)
    → (b == 0) ≡ false
    → (b == s.sb.block_freemap_start + i / 65536) ≡ false
    → (with_blocks s m i used).dev.block b ≡ s.dev.block b
untouched s m i used b first map =
    let map_at : ℕ = s.sb.block_freemap_start + i / 65536 in
    let bits = from (of_list m.v) (i / 65536 * block_size) in
    written_ne (write_device s.dev bits map_at 1) (super_image (with_blocks s m i used).sb) 0 b
      first
    ∙ written_ne s.dev bits map_at b map

-- A bit of the freemap of blocks is changed on the device too, and the blocks are counted.
pub with_blocks-IsConsistent :
    {mi m m' : Bitmap} {s : Fs} (i used : ℕ) (to : Bool)
    → IsConsistent mi m s
    → i < 1048576
    → IsValid m'
    → m'.nbits ≡ m.nbits
    → nr_allocated m' ≡ used
    → ((k : ℕ) → bit_at m' k ≡ (if i == k then to else bit_at m k))
    → IsConsistent mi m' (with_blocks s m' i used) × KeepsData s (with_blocks s m' i used)
with_blocks-IsConsistent {mi} {m} {m'} {s} i used to c lt v same count changed =
    let sb : DsuperBlock = record s.sb { used_block_count = used } in
    let map_at : ℕ = s.sb.block_freemap_start + i / 65536 in
    let mapped : Device =
      write_device s.dev (from (of_list m'.v) (i / 65536 * block_size)) map_at 1 in
    let last : Device = write_device mapped (super_image sb) 0 1 in
    let map_stored = IsStored-written i to c.block_map v same count changed in
    let there : write_device s.dev (from (of_list m'.v) (i / 65536 * block_size)) (2 + i / 65536) 1
        ≡ mapped =
      rw c.block_map_at in
    (
      record {
        inodes = c.inodes;
        blocks = refl;
        inode_map_at = c.inode_map_at;
        block_map_at = c.block_map_at;
        inodes_at = c.inodes_at;
        data_at = c.data_at;
        inode_map =
            IsStored-kept
              (λ b l u. untouched s m' i used b (ground arith) (ground (arith, c.block_map_at)))
              c.inode_map;
        block_map =
            IsStored-kept (λ b l u. written_ne mapped (super_image sb) 0 b (ground arith))
              (subst (IsStored m' 2 16 used) there map_stored);
        super_block = λ k lt. written_at mapped (super_image sb) 0 0 k refl;
      },
      record {
        inodes = refl;
        chains = refl;
        next_inode = refl;
        max_fs_blocks = refl;
        blocks = λ b le. untouched s m' i used b (ground arith) (ground (arith, c.block_map_at));
      },
    )
