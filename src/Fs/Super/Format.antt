-- ===== src/Fs/Super/Format.antt =====
-- A new file system, as `main` of fs/mktestfs.c makes and mounts it, up to the root directory.
use operating_systems_lab.Base.{
  ℕ, zero, suc, ◌+◌, ◌*◌, ◌/◌, ◌%◌, ◌^◌, ◌<◌, ◌≤◌, ◌≡◌, ◌⊎◌, ◌∙◌, refl, sym, ap, false, none, some,
  length-replicate, get_or-replicate, ltb, leb, ◌==◌, arith, inl, inr, Bool-cases, ◌||◌, [],
}
use operating_systems_lab.Base.Int.{pos}
use operating_systems_lab.Bitmap.{words_for}
use operating_systems_lab.Bitmap.Valid.{bit_at}
use operating_systems_lab.Bitmap.Create.{blank, blank-Created}
use operating_systems_lab.Bitmap.Count.{nr_allocated-clear_all}
use operating_systems_lab.Fs.Bytes.{zeros}
use operating_systems_lab.Fs.State.{Fs, Device, DsuperBlock, Inode, block_size}
use operating_systems_lab.Fs.Block.{write_device, zero_loop}
use operating_systems_lab.Fs.Block.Written.{written_at, written_ne, size-written}
use operating_systems_lab.Fs.Super.{
  super_image, testfs_make_super_block, testfs_make_inode_freemap, testfs_make_block_freemap,
  testfs_make_inode_blocks,
}
use operating_systems_lab.Fs.Super.Consistent.{IsConsistent}
use operating_systems_lab.Fs.Super.Mount.{testfs_close_super_block, close_map, format}
use operating_systems_lab.Fs.Super.HasBytes.{
  HasBytes, IsMountable, mount_of, init-mounts, mount-IsConsistent,
}
use operating_systems_lab.Fs.Super.Closed.{close_by-eq}

-- The device after the loop of `zero_blocks`.
zeroed_device : (rounds start : ℕ) → Device → Device
zeroed_device zero start d = d
zeroed_device (suc n) start d = zeroed_device n (start + 1) (write_device d zeros start 1)

zero_loop-eq :
    (n start : ℕ) (s : Fs)
    → zero_loop n start s ≡ some (tt, record s { dev = zeroed_device n start s.dev })
unfolding zero_loop zeroed_device
zero_loop-eq zero start s = refl
zero_loop-eq (suc n) start s =
    zero_loop-eq n (start + 1) (record s { dev = write_device s.dev zeros start 1 })

zeroed_out :
    (n start : ℕ) (d : Device) (b : ℕ)
    → (b < start) ⊎ (start + n ≤ b)
    → (zeroed_device n start d).block b ≡ d.block b
unfolding zeroed_device
zeroed_out zero start d b h = refl
zeroed_out (suc n) start d b h =
    zeroed_out n (start + 1) (write_device d zeros start 1) b (ground (arith, h))
    ∙ written_ne d zeros start b (ground (arith, h))

zeroed_in :
    (n start : ℕ) (d : Device) (b k : ℕ)
    → start ≤ b
    → b < start + n
    → (zeroed_device n start d).block b k ≡ 0
unfolding zeroed_device
zeroed_in zero start d b k l u = absurd (omega (arith, l, u))
zeroed_in (suc n) start d b k l u = elim (Bool-cases (b == start)) [
  | inl e ↦
      ap (λ f. f k) (zeroed_out n (start + 1) (write_device d zeros start 1) b (inl (ground arith)))
      ∙ written_at d zeros start b k (ground arith)
  | inr ne ↦ zeroed_in n (start + 1) (write_device d zeros start 1) b k (ground arith) (omega arith)
]

zeroed-size : (n start : ℕ) (d : Device) → d.size ≤ (zeroed_device n start d).size
unfolding zeroed_device
zeroed-size zero start d = omega arith
zeroed-size (suc n) start d =
    omega (
      arith,
      zeroed-size n (start + 1) (write_device d zeros start 1),
      size-written d zeros start 1,
    )

zeroed-reaches :
    (n start : ℕ) (d : Device) → start ≤ d.size → start + n ≤ (zeroed_device n start d).size
unfolding zeroed_device
zeroed-reaches zero start d h = omega arith
zeroed-reaches (suc n) start d h =
    let next = zeroed-reaches n (start + 1) (write_device d zeros start 1) (ground arith) in
    omega (arith, next)

-- The layout of a new file system, and what is on the device when it is closed.
abbrev layout : (max_fs_blocks : ℕ) → DsuperBlock
layout max_fs_blocks = record {
  inode_freemap_start = 1;
  block_freemap_start = 2;
  inode_blocks_start = 18;
  data_blocks_start = 146;
  used_inode_count = 0;
  used_block_count = 0;
  max_fs_blocks = max_fs_blocks;
}

abbrev made_device : (max_fs_blocks : ℕ) → Device
made_device max =
    let empty : Device = record { block = λ b. zeros; size = 0 } in
    let first : Device = write_device empty (super_image (layout max)) 0 1 in
    zeroed_device 128 18 (zeroed_device 16 2 (zeroed_device 1 1 first))

abbrev closed_new : (max_fs_blocks : ℕ) → Device
closed_new max = write_device (made_device max) (super_image (layout max)) 0 1

blank-clear : (n k : ℕ) → n + 8 ≤ 2 ^ 32 → n % 8 ≡ 0 → k < n → bit_at (blank n) k ≡ false
blank-clear n k small whole lt = (blank-Created n small whole).2 k lt

module _ (max : ℕ) where
  made_zero : (b k : ℕ) → 1 ≤ b → b < 146 → (closed_new max).block b k ≡ 0
  made_zero b k l u =
      let empty : Device = record { block = λ b. zeros; size = 0 } in
      let first : Device = write_device empty (super_image (layout max)) 0 1 in
      let d1 = zeroed_device 1 1 first in
      let d2 = zeroed_device 16 2 d1 in
      let outer = written_ne (made_device max) (super_image (layout max)) 0 b (ground arith) in
      ap (λ f. f k) outer ∙ elim (Bool-cases (leb 18 b)) [
        | inl in_inodes ↦ zeroed_in 128 18 d2 b k (ground arith) (omega arith)
        | inr low ↦
            ap (λ f. f k) (zeroed_out 128 18 d2 b (inl (ground arith)))
            ∙ elim (Bool-cases (leb 2 b)) [
              | inl in_map ↦ zeroed_in 16 2 d1 b k (ground arith) (ground arith)
              | inr one ↦
                  ap (λ f. f k) (zeroed_out 16 2 d1 b (inl (ground arith)))
                  ∙ zeroed_in 1 1 first b k l (ground arith)
            ]
      ]

  map_bytes :
      (n start blocks : ℕ)
      → n ≡ block_size * blocks * 8
      → 1 ≤ start
      → start + blocks ≤ 146
      → blocks ≤ 16
      → HasBytes (blank n) start blocks (closed_new max)
  map_bytes n start blocks e l u small = record {
    bits = e;
    words = length-replicate (words_for n) 0 ∙ omega (arith, e);
    bytes = λ k lt.
        made_zero (start + k / block_size) (k % block_size) (omega arith) (omega arith)
        ∙ sym (get_or-replicate (words_for n) k 0);
  }

  made-size : 18 ≤ (closed_new max).size
  made-size =
      let empty : Device = record { block = λ b. zeros; size = 0 } in
      let first : Device = write_device empty (super_image (layout max)) 0 1 in
      let d1 = zeroed_device 1 1 first in
      let maps = zeroed-reaches 16 2 d1 (zeroed-reaches 1 1 first (omega arith)) in
      omega (
        arith,
        maps,
        zeroed-size 128 18 (zeroed_device 16 2 d1),
        size-written (made_device max) (super_image (layout max)) 0 1,
      )

  made-IsMountable :
      max < 2 ^ 64 → IsMountable (blank 65536) (blank 1048576) (layout max) (closed_new max)
  made-IsMountable h = record {
    fields = record {
      inode_freemap_start = omega arith;
      block_freemap_start = omega arith;
      inode_blocks_start = omega arith;
      data_blocks_start = omega arith;
      used_inode_count = omega arith;
      used_block_count = omega arith;
      max_fs_blocks = h;
    };
    inode_map_at = refl;
    block_map_at = refl;
    inodes_at = refl;
    data_at = refl;
    inodes_valid = (blank-Created 65536 (omega arith) refl).1;
    blocks_valid = (blank-Created 1048576 (omega arith) refl).1;
    inodes_counted =
        nr_allocated-clear_all (blank 65536) (λ k lt. blank-clear 65536 k (omega arith) refl lt);
    blocks_counted =
        nr_allocated-clear_all (blank 1048576)
          (λ k lt. blank-clear 1048576 k (omega arith) refl lt);
    inode_bytes = map_bytes 65536 1 1 refl (omega arith) (omega arith) (omega arith);
    block_bytes = map_bytes 1048576 2 16 refl (omega arith) (omega arith) (omega arith);
    super_block = λ k lt. written_at (made_device max) (super_image (layout max)) 0 0 k refl;
    size = made-size;
  }

-- The file system of `testfs_make_super_block` with the device `d`.
abbrev new_fs : (max_fs_blocks : ℕ) → (ℕ → Inode) → Device → Fs
new_fs max inodes d = record {
  sb = layout max;
  dev = d;
  inode_freemap = none;
  block_freemap = none;
  inodes = inodes;
  chains = λ h. [];
  next_inode = 0;
}

close_new :
    (max : ℕ) (inodes : ℕ → Inode)
    → testfs_close_super_block (new_fs max inodes (made_device max))
      ≡ some (tt, new_fs max inodes (closed_new max))
unfolding close_map
close_new max inodes = close_by-eq (new_fs max inodes (made_device max)) (λ h. refl)

-- For a size of 1 to 8192 megabytes `main` of mktestfs makes and mounts a consistent file system with
-- every inode and every block free, an empty hash table, and a limit of 128 blocks for each megabyte.
pub format-IsConsistent :
    (fs_size_mb : ℕ) (inodes : ℕ → Inode)
    → 1 ≤ fs_size_mb
    → fs_size_mb ≤ 8192
    → (s : Fs) × (format fs_size_mb inodes ≡ some (pos 0, s))
      × IsConsistent (blank 65536) (blank 1048576) s
      × (s.sb.max_fs_blocks ≡ 128 * fs_size_mb)
      × ((h : ℕ) → s.chains h ≡ [])
unfolding format testfs_make_super_block testfs_make_inode_freemap testfs_make_block_freemap
    testfs_make_inode_blocks
format-IsConsistent fs_size_mb inodes l u =
    let max : ℕ = fs_size_mb * 2 ^ 20 / block_size in
    let s1 = new_fs max inodes (closed_new max) in
    let t0 =
      new_fs max inodes
        (write_device (record { block = λ b. zeros; size = 0 }) (super_image (layout max)) 0 1) in
    let t1 : Fs = record t0 { dev = zeroed_device 1 1 t0.dev } in
    let t2 : Fs = record t1 { dev = zeroed_device 16 2 t1.dev } in
    let m = made-IsMountable max (omega arith) in
    let sized : (ltb fs_size_mb 1 || ltb 8192 fs_size_mb) ≡ false = ground arith in
    let run : format fs_size_mb inodes
        ≡ some (pos 0, mount_of s1 (blank 65536) (blank 1048576) (layout max)) =
      rw
        (
          sized,
          zero_loop-eq 1 1 t0,
          zero_loop-eq 16 2 t1,
          zero_loop-eq 128 18 t2,
          close_new max inodes,
        )
        (init-mounts s1 m) in
    (
      mount_of s1 (blank 65536) (blank 1048576) (layout max),
      run,
      mount-IsConsistent s1 m,
      omega arith,
      λ h. refl,
    )
