-- ===== src/Fs/Super/Remount.antt =====
-- Closing a file system and reading it again: `testfs_close_super_block`, then
-- `testfs_init_super_block`.
use operating_systems_lab.Base.{
  ℕ, zero, suc, ◌+◌, ◌*◌, ◌/◌, ◌%◌, ◌^◌, ◌<◌, ◌≤◌, ◌≡◌, ◌∙◌, refl, ap, true, some, List, [], ◌∷◌,
  length, get_or, leb, arith, Outcome, ok, err, fault,
}
use operating_systems_lab.Base.Int.{ℤ, pos}
use operating_systems_lab.Bitmap.{Bitmap}
use operating_systems_lab.Bitmap.Create.{Created, create-Created}
use operating_systems_lab.Fs.Bytes.{Buffer}
use operating_systems_lab.Fs.State.{
  Fs, M, Device, DsuperBlock, ◌>>=◌, ◌>>◌, block_size, pure, modify, gets, inode_freemap_size,
  block_freemap_size,
}
use operating_systems_lab.Fs.Super.{super_of}
use operating_systems_lab.Fs.Super.Mount.{
  bytes_from, read_map, new_map, testfs_init_super_block, inode_hash_destroy,
}

-- A list comes back from bytes that agree with it.
pub bytes_from-of_list :
    (v : List ℕ) (n j : ℕ) (b : Buffer)
    → length v ≡ n
    → ((k : ℕ) → k < n → b (j + k) ≡ get_or v k 0)
    → bytes_from n j b ≡ v
unfolding bytes_from
bytes_from-of_list [] zero j b e h = refl
bytes_from-of_list [] (suc n) j b e h = absurd (omega (arith, e))
bytes_from-of_list (x ∷ v) zero j b e h = absurd (omega (arith, e))
bytes_from-of_list (x ∷ v) (suc n) j b e h =
    let first : b j ≡ x = ap b (omega arith) ∙ h 0 (omega arith) in
    rw
      (
        first,
        bytes_from-of_list v n (j + 1) b (omega (arith, e))
            (λ k lt. ap b (omega arith) ∙ h (suc k) (omega arith)),
      )
      refl

-- Without references to inodes the hash table is empty.
pub inode_hash_destroy-empty :
    (n i : ℕ) (s : Fs) → ((j : ℕ) → s.chains j ≡ []) → inode_hash_destroy n i s ≡ some (tt, s)
unfolding inode_hash_destroy
inode_hash_destroy-empty zero i s h = refl
inode_hash_destroy-empty (suc n) i s h = rw (h i) (inode_hash_destroy-empty n (i + 1) s h)

-- `bitmap_create` answers with a bitmap of that size.
created : (n : ℕ) (o : Outcome Bitmap) → Created n o → (b : Bitmap) × (o ≡ ok b) × (b.nbits ≡ n)
created n (ok b) c = (b, refl, c.0)
created n (err e) c = absurd c
created n fault c = absurd c

-- The bytes of the blocks from `start` on.
abbrev pub bytes_at : Device → (start : ℕ) → Buffer
bytes_at d start k = d.block (start + k / block_size) (k % block_size)

abbrev pub read_bitmap : Device → (start size : ℕ) → Bitmap
read_bitmap d start size = record {
  nbits = block_size * size * 8;
  v = bytes_from (block_size * size) 0 (bytes_at d start);
}

read_map-eq :
    (size start : ℕ) (k : Bitmap → M ℤ) (s : Fs)
    → block_size * size * 8 + 8 ≤ 2 ^ 32
    → start + size ≤ s.dev.size
    → read_map size start k (new_map size) s ≡ k (read_bitmap s.dev start size) s
unfolding read_map
read_map-eq size start k s small fits =
    let (b, is, bits) =
      created (block_size * size * 8) (new_map size)
        (create-Created (block_size * size * 8) small) in
    let inside : leb (start + size) s.dev.size ≡ true = ground (arith, fits) in
    rw (is, inside, bits) refl

-- What is in memory after `testfs_init_super_block`, for the layout of `testfs_make_super_block`.
abbrev pub mounted : Fs → DsuperBlock → Fs
mounted s sb = record s {
  sb = sb;
  inode_freemap = some (read_bitmap s.dev 1 1);
  block_freemap = some (read_bitmap s.dev 2 16);
  chains = λ h. [];
}

-- What `testfs_init_super_block` does with each freemap.
abbrev set_blocks : Bitmap → M ℤ
set_blocks blocks = do
  modify (λ s. record s { block_freemap = some blocks; chains = λ h. [] })
  pure (pos 0)

abbrev set_inodes : Bitmap → M ℤ
set_inodes inodes = do
  modify (λ s. record s { inode_freemap = some inodes })
  block_start ← gets (λ s. s.sb.block_freemap_start)
  read_map block_freemap_size block_start set_blocks (new_map block_freemap_size)

-- Reading the super block `sb` and the two freemaps that it names.
pub init-eq :
    (s : Fs) (sb : DsuperBlock)
    → super_of (bytes_at s.dev 0) ≡ sb
    → sb.inode_freemap_start ≡ 1
    → sb.block_freemap_start ≡ 2
    → 18 ≤ s.dev.size
    → testfs_init_super_block s ≡ some (pos 0, mounted s sb)
unfolding testfs_init_super_block
init-eq s sb is inodes blocks size =
    let fits : leb 1 s.dev.size ≡ true = ground (arith, size) in
    let s1 : Fs = record s { sb = sb } in
    let s2 : Fs = record s1 { inode_freemap = some (read_bitmap s.dev 1 1) } in
    let from_map = λ (d : DsuperBlock).
      read_map inode_freemap_size d.inode_freemap_start set_inodes (new_map inode_freemap_size)
        (record s { sb = d }) in
    let read : testfs_init_super_block s ≡ from_map (super_of (bytes_at s.dev 0)) = rw fits refl in
    let first =
      ap (λ k. read_map inode_freemap_size k set_inodes (new_map inode_freemap_size) s1) inodes in
    let second =
      ap (λ k. read_map block_freemap_size k set_blocks (new_map block_freemap_size) s2) blocks in
    read
    ∙ ap from_map is
    ∙ first
    ∙ read_map-eq 1 1 set_inodes s1 (omega arith) (omega (arith, size))
    ∙ second
    ∙ read_map-eq 16 2 set_blocks s2 (omega arith) (omega (arith, size))
