-- ===== src/Fs/Super/HasBytes.antt =====
-- Freemaps as the device holds them, and what `testfs_init_super_block` makes of them.
use operating_systems_lab.Base.{
  ℕ, ◌+◌, ◌*◌, ◌/◌, ◌%◌, ◌<◌, ◌≤◌, ◌≡◌, ◌∙◌, refl, ap, some, [], length, get_or, arith,
}
use operating_systems_lab.Base.Int.{pos}
use operating_systems_lab.Bitmap.{Bitmap, nr_allocated}
use operating_systems_lab.Bitmap.Bits.{bit}
use operating_systems_lab.Bitmap.Valid.{IsValid}
use operating_systems_lab.Fs.Bytes.{of_list}
use operating_systems_lab.Fs.State.{Fs, Device, DsuperBlock, block_size}
use operating_systems_lab.Fs.Block.{write_device}
use operating_systems_lab.Fs.Block.Written.{written_in}
use operating_systems_lab.Fs.Super.{super_image, super_of}
use operating_systems_lab.Fs.Super.Consistent.{IsStored, IsConsistent}
use operating_systems_lab.Fs.Super.Image.{IsSuperBlock, super_of-super_image}
use operating_systems_lab.Fs.Super.Mount.{testfs_init_super_block}
use operating_systems_lab.Fs.Super.Remount.{bytes_at, read_bitmap, init-eq, bytes_from-of_list}

-- The device has the bytes of the freemap from block `start` on.
pub record HasBytes (m : Bitmap) (start blocks : ℕ) (d : Device) : Type 0 where
  pub bits : m.nbits ≡ block_size * blocks * 8
  pub words : length m.v ≡ block_size * blocks
  pub bytes : (k : ℕ) → k < block_size * blocks → bytes_at d start k ≡ get_or m.v k 0

pub read_bitmap-eq :
    {m : Bitmap} {start blocks : ℕ} {d : Device}
    → HasBytes m start blocks d
    → read_bitmap d start blocks ≡ m
read_bitmap-eq {m} {start} {blocks} {d} h =
    let list : _ ≡ m.v =
      bytes_from-of_list m.v (block_size * blocks) 0 (bytes_at d start) h.words
        (λ k lt. ap (bytes_at d start) (omega arith) ∙ h.bytes k lt) in
    rw (list, h.bits) refl

pub IsStored-of-HasBytes :
    {m : Bitmap} {start blocks used : ℕ} {d : Device}
    → IsValid m
    → nr_allocated m ≡ used
    → HasBytes m start blocks d
    → IsStored m start blocks used d
IsStored-of-HasBytes {m} {start} {blocks} {d = d} v count h = record {
  valid = v;
  bits = h.bits;
  counted = count;
  stored = λ i lt.
      let block : start + i / 65536 ≡ start + i / 8 / block_size = omega arith in
      rw block (ap (λ w. bit w (i % 8)) (h.bytes (i / 8) (omega (arith, lt))));
}

pub HasBytes-written :
    {m : Bitmap} (start blocks : ℕ) (d : Device)
    → m.nbits ≡ block_size * blocks * 8
    → length m.v ≡ block_size * blocks
    → HasBytes m start blocks (write_device d (of_list m.v) start blocks)
HasBytes-written {m} start blocks d bits words = record {
  bits = bits;
  words = words;
  bytes = λ k lt.
      written_in d (of_list m.v) start blocks (start + k / block_size) (k % block_size)
        (omega arith) (omega (arith, lt))
      ∙ ap (of_list m.v) (omega arith);
}

pub HasBytes-kept :
    {m : Bitmap} {start blocks : ℕ} {d e : Device}
    → ((b : ℕ) → start ≤ b → b < start + blocks → e.block b ≡ d.block b)
    → HasBytes m start blocks d
    → HasBytes m start blocks e
HasBytes-kept {start = start} {blocks = blocks} same h = record {
  bits = h.bits;
  words = h.words;
  bytes = λ k lt.
      ap (λ b. b (k % block_size)) (same (start + k / block_size) (omega arith) (omega (arith, lt)))
      ∙ h.bytes k lt;
}

-- A device with the super block `sb` and the bytes of two valid freemaps of which `sb` has the counts.
pub record IsMountable (mi mb : Bitmap) (sb : DsuperBlock) (d : Device) : Type 0 where
  pub fields : IsSuperBlock sb
  pub inode_map_at : sb.inode_freemap_start ≡ 1
  pub block_map_at : sb.block_freemap_start ≡ 2
  pub inodes_at : sb.inode_blocks_start ≡ 18
  pub data_at : sb.data_blocks_start ≡ 146
  pub inodes_valid : IsValid mi
  pub blocks_valid : IsValid mb
  pub inodes_counted : nr_allocated mi ≡ sb.used_inode_count
  pub blocks_counted : nr_allocated mb ≡ sb.used_block_count
  pub inode_bytes : HasBytes mi 1 1 d
  pub block_bytes : HasBytes mb 2 16 d
  pub super_block : (k : ℕ) → k < block_size → d.block 0 k ≡ super_image sb k
  pub size : 18 ≤ d.size

-- The file system in memory after it was mounted from the device of `s`.
abbrev pub mount_of : Fs → (mi mb : Bitmap) → DsuperBlock → Fs
mount_of s mi mb sb = record s {
  sb = sb;
  inode_freemap = some mi;
  block_freemap = some mb;
  chains = λ h. [];
}

module _ {mi mb : Bitmap} {sb : DsuperBlock} (s : Fs) (m : IsMountable mi mb sb s.dev) where
  pub init-mounts : testfs_init_super_block s ≡ some (pos 0, mount_of s mi mb sb)
  init-mounts =
      let read : super_of (bytes_at s.dev 0) ≡ sb =
        super_of-super_image m.fields (bytes_at s.dev 0) (λ k lt.
          let zero_block : 0 + k / block_size ≡ 0 = omega arith in
          let here : k % block_size ≡ k = omega arith in
          ap (λ b. s.dev.block b (k % block_size)) zero_block
          ∙ ap (s.dev.block 0) here
          ∙ m.super_block k (omega (arith, lt))) in
      init-eq s sb read m.inode_map_at m.block_map_at m.size
      ∙ ap
          (λ a. some (
            pos 0,
            record s {
              sb = sb;
              inode_freemap = some a;
              block_freemap = some (read_bitmap s.dev 2 16);
              chains = λ h. [];
            },
          ))
          (read_bitmap-eq m.inode_bytes)
      ∙ ap (λ b. some (pos 0, mount_of s mi b sb)) (read_bitmap-eq m.block_bytes)

  pub mount-IsConsistent : IsConsistent mi mb (mount_of s mi mb sb)
  mount-IsConsistent = record {
    inodes = refl;
    blocks = refl;
    inode_map_at = m.inode_map_at;
    block_map_at = m.block_map_at;
    inodes_at = m.inodes_at;
    data_at = m.data_at;
    inode_map = IsStored-of-HasBytes m.inodes_valid m.inodes_counted m.inode_bytes;
    block_map = IsStored-of-HasBytes m.blocks_valid m.blocks_counted m.block_bytes;
    super_block = m.super_block;
  }
