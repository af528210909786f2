-- ===== src/Fs/Super/Consistent.antt =====
-- When the super block and the freemaps in memory agree with each other and with the device.
use operating_systems_lab.Base.{
  ℕ, ◌+◌, ◌*◌, ◌/◌, ◌%◌, ◌<◌, ◌≤◌, ◌≡◌, Bool, some, ◌==◌, if◌then◌else◌, arith, Bool-cases, inl,
  inr,
}
use operating_systems_lab.Bitmap.{Bitmap, nr_allocated}
use operating_systems_lab.Bitmap.Bits.{bit}
use operating_systems_lab.Bitmap.Valid.{IsValid, bit_at}
use operating_systems_lab.Fs.Bytes.{from, of_list}
use operating_systems_lab.Fs.State.{Fs, Device, block_size}
use operating_systems_lab.Fs.Block.{write_device}
use operating_systems_lab.Fs.Block.Written.{written_at, written_ne}
use operating_systems_lab.Fs.Super.{super_image}

-- The freemap `m` of `blocks` blocks is valid, `used` of its bits are set, and the device has the same
-- bits from block `start` on.
pub record IsStored (m : Bitmap) (start blocks used : ℕ) (d : Device) : Type 0 where
  pub valid : IsValid m
  pub bits : m.nbits ≡ block_size * blocks * 8
  pub counted : nr_allocated m ≡ used
  pub stored :
      (i : ℕ)
      → i < block_size * blocks * 8
      → bit (d.block (start + i / 65536) (i / 8 % block_size)) (i % 8) ≡ bit_at m i

-- The layout of `testfs_make_super_block`, the freemaps `mi` and `mb`, and the super block on the device.
pub record IsConsistent (mi mb : Bitmap) (s : Fs) : Type 0 where
  pub inodes : s.inode_freemap ≡ some mi
  pub blocks : s.block_freemap ≡ some mb
  pub inode_map_at : s.sb.inode_freemap_start ≡ 1
  pub block_map_at : s.sb.block_freemap_start ≡ 2
  pub inodes_at : s.sb.inode_blocks_start ≡ 18
  pub data_at : s.sb.data_blocks_start ≡ 146
  pub inode_map : IsStored mi 1 1 s.sb.used_inode_count s.dev
  pub block_map : IsStored mb 2 16 s.sb.used_block_count s.dev
  pub super_block : (k : ℕ) → k < block_size → s.dev.block 0 k ≡ super_image s.sb k

-- A freemap on blocks that are not written stays stored.
pub IsStored-kept :
    {m : Bitmap} {start blocks used : ℕ} {d e : Device}
    → ((b : ℕ) → start ≤ b → b < start + blocks → e.block b ≡ d.block b)
    → IsStored m start blocks used d
    → IsStored m start blocks used e
IsStored-kept {start = start} {blocks = blocks} same h = record {
  valid = h.valid;
  bits = h.bits;
  counted = h.counted;
  stored = λ i lt. rw (same (start + i / 65536) (omega arith) (omega arith)) (h.stored i lt);
}

-- The device after the block of bit `i` is written has the bits of a freemap that differs only there.
pub IsStored-written :
    {m m' : Bitmap} {start blocks used used' : ℕ} {d : Device} (i : ℕ) (to : Bool)
    → IsStored m start blocks used d
    → IsValid m'
    → m'.nbits ≡ m.nbits
    → nr_allocated m' ≡ used'
    → ((k : ℕ) → bit_at m' k ≡ (if i == k then to else bit_at m k))
    → IsStored m' start blocks used'
        (write_device d (from (of_list m'.v) (i / 65536 * block_size)) (start + i / 65536) 1)
IsStored-written {m} {m'} {start} {blocks} {d = d} i to h v same count changed = record {
  valid = v;
  bits = ground (arith, same, h.bits);
  counted = count;
  stored = λ k lt. at k lt;
}
  where
    at :
        (k : ℕ)
        → k < block_size * blocks * 8
        → bit
            ((write_device d
                (from (of_list m'.v) (i / 65536 * block_size))
                (start + i / 65536)
                1).block
              (start + k / 65536)
              (k / 8 % block_size))
            (k % 8)
          ≡ bit_at m' k
    at k lt = elim (Bool-cases (k / 65536 == i / 65536)) [
      | inl e ↦
          let b : ℕ = i / 65536 * block_size in
          let here : start + k / 65536 ≡ start + i / 65536 = ground arith in
          let byte : b + k / 8 % block_size ≡ k / 8 = ground arith in
          rw (
            written_at d (from (of_list m'.v) b) (start + i / 65536) (start + k / 65536)
                (k / 8 % block_size) here,
            byte,
          )
      | inr ne ↦
          rw
            (written_ne d (from (of_list m'.v) (i / 65536 * block_size)) (start + i / 65536)
              (start + k / 65536) (ground arith))
            (ground (arith, changed k, h.stored k lt))
    ]
