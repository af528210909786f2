-- ===== src/Fs/Super/Closed.antt =====
-- What `testfs_close_super_block` leaves on the device, and mounting it again.
use operating_systems_lab.Base.{
  ℕ, ◌^◌, ◌<◌, ◌≤◌, ◌≡◌, ◌∙◌, refl, ap, Option, none, some, [], arith, inl, inr,
}
use operating_systems_lab.Base.Int.{pos}
use operating_systems_lab.Bitmap.{Bitmap}
use operating_systems_lab.Fs.Bytes.{of_list}
use operating_systems_lab.Fs.State.{
  Fs, M, Device, ◌>>=◌, ◌>>◌, bind, block_size, modify, gets, inode_freemap_size,
  block_freemap_size,
}
use operating_systems_lab.Fs.Block.{write_device}
use operating_systems_lab.Fs.Block.Written.{written_at, written_ne, written_out, written-size}
use operating_systems_lab.Fs.Super.{super_image}
use operating_systems_lab.Fs.Super.Consistent.{IsConsistent}
use operating_systems_lab.Fs.Super.Image.{IsSuperBlock}
use operating_systems_lab.Fs.Super.Mount.{
  testfs_init_super_block, close_map, testfs_close_super_block,
}
use operating_systems_lab.Fs.Super.HasBytes.{
  HasBytes, HasBytes-written, HasBytes-kept, IsMountable, mount_of, init-mounts, mount-IsConsistent,
}
use operating_systems_lab.Fs.Super.Remount.{inode_hash_destroy-empty}
use operating_systems_lab.Bitmap.Count.{nr_allocated-le}

abbrev closed_device : Fs → (mi mb : Bitmap) → Device
closed_device s mi mb =
    write_device (write_device (write_device s.dev (super_image s.sb) 0 1) (of_list mi.v) 1 1)
      (of_list mb.v) 2 16

-- What `testfs_close_super_block` does behind the chains, and behind the first freemap.
abbrev write_last : Option Bitmap → (start : ℕ) → M (Unit {0})
write_last blocks start = do
  close_map blocks start block_freemap_size
  modify (λ s. record s { inode_freemap = none; block_freemap = none })

abbrev write_maps : Option Bitmap → (start : ℕ) → M (Unit {0})
write_maps inodes start = do
  close_map inodes start inode_freemap_size
  blocks ← gets (λ s. s.block_freemap)
  block_start ← gets (λ s. s.sb.block_freemap_start)
  write_last blocks block_start

pub close_by-eq :
    (s : Fs)
    → ((h : ℕ) → s.chains h ≡ [])
    → testfs_close_super_block s
      ≡ write_maps s.inode_freemap s.sb.inode_freemap_start
          (record s { dev = write_device s.dev (super_image s.sb) 0 1 })
unfolding testfs_close_super_block
close_by-eq s empty =
    rw
      (inode_hash_destroy-empty 256 0 (record s { dev = write_device s.dev (super_image s.sb) 0 1 })
        empty)
      refl

module _ {mi mb : Bitmap} {s : Fs} (c : IsConsistent mi mb s) where
  close-eq :
      ((h : ℕ) → s.chains h ≡ [])
      → testfs_close_super_block s
        ≡ some (
          tt,
          record s { dev = closed_device s mi mb; inode_freemap = none; block_freemap = none },
        )
  unfolding close_map
  close-eq empty =
      let s1 : Fs = record s { dev = write_device s.dev (super_image s.sb) 0 1 } in
      let s2 : Fs = record s1 { dev = write_device s1.dev (of_list mi.v) 1 1 } in
      close_by-eq s empty
      ∙ ap (λ m. write_maps m s.sb.inode_freemap_start s1) c.inodes
      ∙ ap (λ k. write_maps (some mi) k s1) c.inode_map_at
      ∙ ap (λ m. write_last m s.sb.block_freemap_start s2) c.blocks
      ∙ ap (λ k. write_last (some mb) k s2) c.block_map_at

  -- The three parts of what was written.
  super_bytes : (k : ℕ) → k < block_size → (closed_device s mi mb).block 0 k ≡ super_image s.sb k
  super_bytes k lt =
      let d1 = write_device s.dev (super_image s.sb) 0 1 in
      let d2 = write_device d1 (of_list mi.v) 1 1 in
      ap (λ b. b k)
        (written_out d2 (of_list mb.v) 2 16 0 (inl (omega arith))
          ∙ written_out d1 (of_list mi.v) 1 1 0 (inl (omega arith)))
      ∙ written_at s.dev (super_image s.sb) 0 0 k refl

  inode_bytes : HasBytes mi 1 1 (closed_device s mi mb)
  inode_bytes =
      let d1 = write_device s.dev (super_image s.sb) 0 1 in
      let d2 = write_device d1 (of_list mi.v) 1 1 in
      HasBytes-kept (λ b l u. written_out d2 (of_list mb.v) 2 16 b (inl (omega arith)))
        (HasBytes-written 1 1 d1 c.inode_map.bits
          (omega (arith, c.inode_map.valid.words, c.inode_map.bits)))

  block_bytes : HasBytes mb 2 16 (closed_device s mi mb)
  block_bytes =
      let d1 = write_device s.dev (super_image s.sb) 0 1 in
      HasBytes-written 2 16 (write_device d1 (of_list mi.v) 1 1) c.block_map.bits
        (omega (arith, c.block_map.valid.words, c.block_map.bits))

  closed-size : 18 ≤ (closed_device s mi mb).size
  closed-size =
      let d1 = write_device s.dev (super_image s.sb) 0 1 in
      written-size (write_device d1 (of_list mi.v) 1 1) (of_list mb.v) 2 16

  consistent-IsSuperBlock : s.sb.max_fs_blocks < 2 ^ 64 → IsSuperBlock s.sb
  consistent-IsSuperBlock h = record {
    inode_freemap_start = omega (arith, c.inode_map_at);
    block_freemap_start = omega (arith, c.block_map_at);
    inode_blocks_start = omega (arith, c.inodes_at);
    data_blocks_start = omega (arith, c.data_at);
    used_inode_count = omega (arith, c.inode_map.counted, nr_allocated-le mi, c.inode_map.bits);
    used_block_count = omega (arith, c.block_map.counted, nr_allocated-le mb, c.block_map.bits);
    max_fs_blocks = h;
  }

  closed-IsMountable : IsSuperBlock s.sb → IsMountable mi mb s.sb (closed_device s mi mb)
  closed-IsMountable fields = record {
    fields = fields;
    inode_map_at = c.inode_map_at;
    block_map_at = c.block_map_at;
    inodes_at = c.inodes_at;
    data_at = c.data_at;
    inodes_valid = c.inode_map.valid;
    blocks_valid = c.block_map.valid;
    inodes_counted = c.inode_map.counted;
    blocks_counted = c.block_map.counted;
    inode_bytes = inode_bytes;
    block_bytes = block_bytes;
    super_block = super_bytes;
    size = closed-size;
  }

  closed-data : (b : ℕ) → 18 ≤ b → (closed_device s mi mb).block b ≡ s.dev.block b
  closed-data b le =
      let d1 = write_device s.dev (super_image s.sb) 0 1 in
      let d2 = write_device d1 (of_list mi.v) 1 1 in
      written_out d2 (of_list mb.v) 2 16 b (inr le)
      ∙ written_out d1 (of_list mi.v) 1 1 b (inr (omega arith))
      ∙ written_ne s.dev (super_image s.sb) 0 b (ground arith)

  -- On a consistent file system whose hash table is empty, with a limit that fits 64 bits, closing and
  -- mounting returns 0 with the same super block and the same freemaps, consistent with the device, on
  -- which no block from 18 on has changed.
  pub close-init :
      s.sb.max_fs_blocks < 2 ^ 64
      → ((h : ℕ) → s.chains h ≡ [])
      → (s' : Fs) × ((testfs_close_super_block >> testfs_init_super_block) s ≡ some (pos 0, s'))
        × (s'.sb ≡ s.sb)
        × IsConsistent mi mb s'
        × ((b : ℕ) → 18 ≤ b → s'.dev.block b ≡ s.dev.block b)
  close-init small empty =
      let s1 : Fs = record s {
        dev = closed_device s mi mb;
        inode_freemap = none;
        block_freemap = none;
      } in
      let m = closed-IsMountable (consistent-IsSuperBlock small) in
      (
        mount_of s1 mi mb s.sb,
        ap (λ o. bind o (λ _. testfs_init_super_block)) (close-eq empty) ∙ init-mounts s1 m,
        refl,
        mount-IsConsistent s1 m,
        closed-data,
      )
