-- ===== src/Fs/Inode/Slot.antt =====
-- The slot of an inode on the device, and what `testfs_sync_inode` makes of it.
use operating_systems_lab.Base.{
  ℕ, ◌+◌, ◌-◌, ◌*◌, ◌/◌, ◌%◌, ◌^◌, ◌<◌, ◌≤◌, ◌≡◌, ◌∙◌, refl, sym, ap, true, false, some, ltb, leb,
  ◌==◌, arith, inl, inr, Bool-cases,
}
use operating_systems_lab.Base.Int.{ℤ}
use operating_systems_lab.Fs.Bytes.{Buffer, of_words, word_at, to_int, of_int, int_at, memcpy}
use operating_systems_lab.Fs.Bytes.Words.{word_at-of_words, to_int-of_int, IsInt, of_int-lt}
use operating_systems_lab.Fs.State.{Fs, Dinode, block_size}
use operating_systems_lab.Fs.Block.{write_device}
use operating_systems_lab.Fs.Block.Written.{written_at, written_ne}
use operating_systems_lab.Fs.Inode.{
  dinode_size, inodes_per_block, dinode_words, dinode_of, put_inode, testfs_read_inode_block,
  testfs_write_inode_block, testfs_sync_inode,
}
use operating_systems_lab.Fs.Bytes.Copied.{memcpy_in, memcpy_out}

-- The fields fit `s32`, and the size 64 bits.
pub record IsDinode (d : Dinode) : Type 0 where
  pub i_type : IsInt d.i_type
  pub i_block_nr : (j : ℕ) → j < 10 → IsInt (d.i_block_nr j)
  pub i_indirect : IsInt d.i_indirect
  pub i_dindirect : IsInt d.i_dindirect
  pub block_count : IsInt d.block_count
  pub i_size : d.i_size < 2 ^ 64

-- The same inode, as far as a `struct dinode` reaches.
pub record IsSame (d e : Dinode) : Type 0 where
  pub i_type : d.i_type ≡ e.i_type
  pub i_block_nr : (j : ℕ) → j < 10 → d.i_block_nr j ≡ e.i_block_nr j
  pub i_indirect : d.i_indirect ≡ e.i_indirect
  pub i_dindirect : d.i_dindirect ≡ e.i_dindirect
  pub block_count : d.block_count ≡ e.block_count
  pub i_size : d.i_size ≡ e.i_size

-- A structure that was copied out word by word is read back.
module _ {d : Dinode} (f : IsDinode d) (b : Buffer)
    (h : (k : ℕ) → k < dinode_size → b k ≡ of_words (dinode_words d) k) where
  word : (i : ℕ) → i < 16 → dinode_words d i < 2 ^ 32 → word_at b i ≡ dinode_words d i
  word i lt small = word_at-of_words (dinode_words d) i b (λ k l u. h k (omega arith)) small

  int : (i : ℕ) (z : ℤ) → i < 16 → dinode_words d i ≡ of_int z → IsInt z → int_at b i ≡ z
  int i z lt e is =
      ap to_int (word i lt (omega (arith, e, of_int-lt z is)) ∙ e) ∙ to_int-of_int z is

  pub dinode_of-IsSame : IsSame (dinode_of b) d
  dinode_of-IsSame =
      let high : d.i_size / 2 ^ 32 < 2 ^ 32 = omega (arith, f.i_size) in
      let low : d.i_size % 2 ^ 32 < 2 ^ 32 = omega arith in
      record {
        i_type = int 0 d.i_type (omega arith) refl f.i_type;
        i_block_nr = λ j lt.
            let past : (j + 1 == 0) ≡ false = ground arith in
            let direct : ltb (j + 1) 11 ≡ true = ground (arith, lt) in
            let back : j + 1 - 1 ≡ j = omega arith in
            int (j + 1) (d.i_block_nr j) (omega arith) (rw (past, direct, back) refl)
              (f.i_block_nr j lt);
        i_indirect = int 11 d.i_indirect (omega arith) refl f.i_indirect;
        i_dindirect = int 12 d.i_dindirect (omega arith) refl f.i_dindirect;
        block_count = int 13 d.block_count (omega arith) refl f.block_count;
        i_size = omega (arith, word 14 (omega arith) low, word 15 (omega arith) high);
      }

-- The bytes from the slot of an inode on.
abbrev pub slot : Fs → (i_nr : ℕ) → Buffer
slot s i_nr k =
    s.dev.block (s.sb.inode_blocks_start + i_nr / inodes_per_block)
      (i_nr % inodes_per_block * dinode_size + k)

-- The same bytes, as they are read with the block that the slot is in.
abbrev pub read_at : Fs → (i_nr : ℕ) → Buffer
read_at s i_nr k =
    let i : ℕ = i_nr % inodes_per_block * dinode_size + k in
    s.dev.block (s.sb.inode_blocks_start + i_nr / inodes_per_block + i / block_size)
      (i % block_size)

pub slot-read : (s : Fs) (i_nr k : ℕ) → k < dinode_size → read_at s i_nr k ≡ slot s i_nr k
slot-read s i_nr k lt =
    let at : ℕ = s.sb.inode_blocks_start + i_nr / inodes_per_block in
    let i : ℕ = i_nr % inodes_per_block * dinode_size + k in
    let here : at + i / block_size ≡ at = omega (arith, lt) in
    let offset : i % block_size ≡ i = omega (arith, lt) in
    ap (λ b. s.dev.block b (i % block_size)) here ∙ ap (s.dev.block at) offset

-- The block of a slot with the image of an inode in it, and the state after it was written.
abbrev pub image_of : (p : ℕ) → Fs → Buffer
image_of p s =
    let at : ℕ = s.sb.inode_blocks_start + (s.inodes p).i_nr / inodes_per_block in
    let block : Buffer = λ k. s.dev.block (at + k / block_size) (k % block_size) in
    memcpy block ((s.inodes p).i_nr % inodes_per_block * dinode_size)
      (of_words (dinode_words (s.inodes p).din)) 0 dinode_size

abbrev pub synced : (p : ℕ) → Fs → Fs
synced p s =
    let at : ℕ = s.sb.inode_blocks_start + (s.inodes p).i_nr / inodes_per_block in
    put_inode p (record (s.inodes p) { dirty = false })
      (record s { dev = write_device s.dev (image_of p s) at 1 })

module _ (p : ℕ) (s : Fs) where
  pub sync-eq :
      (s.inodes p).dirty ≡ true
      → (s.inodes p).i_nr < 16384
      → s.sb.inode_blocks_start + 128 ≤ s.dev.size
      → testfs_sync_inode p s ≡ some (tt, synced p s)
  unfolding testfs_sync_inode testfs_read_inode_block testfs_write_inode_block
  sync-eq is lt fits =
      let block_ok : ltb ((s.inodes p).i_nr / inodes_per_block) 128 ≡ true = ground (arith, lt) in
      let inside : leb (s.sb.inode_blocks_start + (s.inodes p).i_nr / inodes_per_block + 1)
            s.dev.size
          ≡ true =
        ground (arith, lt, fits) in
      rw (is, block_ok, inside) refl

  -- The slot has the image of the inode, and every other slot is as before.
  pub slot-synced :
      (k : ℕ)
      → k < dinode_size
      → slot (synced p s) (s.inodes p).i_nr k ≡ of_words (dinode_words (s.inodes p).din) k
  slot-synced k lt =
      let nr = (s.inodes p).i_nr in
      let at : ℕ = s.sb.inode_blocks_start + nr / inodes_per_block in
      let offset : ℕ = nr % inodes_per_block * dinode_size in
      let words = of_words (dinode_words (s.inodes p).din) in
      let block : Buffer = λ k. s.dev.block (at + k / block_size) (k % block_size) in
      let back : 0 + (offset + k - offset) ≡ k = omega arith in
      written_at s.dev (image_of p s) at at (offset + k) refl
      ∙ memcpy_in block offset words 0 dinode_size (offset + k) (omega arith) (omega arith)
      ∙ ap words back

  pub slot-others :
      (j k : ℕ)
      → (j == (s.inodes p).i_nr) ≡ false
      → k < dinode_size
      → slot (synced p s) j k ≡ slot s j k
  slot-others j k ne lt =
      let nr = (s.inodes p).i_nr in
      let start = s.sb.inode_blocks_start in
      let at : ℕ = start + nr / inodes_per_block in
      let words = of_words (dinode_words (s.inodes p).din) in
      let block : Buffer = λ k. s.dev.block (at + k / block_size) (k % block_size) in
      let i : ℕ = j % inodes_per_block * dinode_size + k in
      elim (Bool-cases (j / inodes_per_block == nr / inodes_per_block)) [
        | inl same ↦
            let blocks : start + j / inodes_per_block ≡ at = ground (arith, same) in
            written_at s.dev (image_of p s) at (start + j / inodes_per_block) i blocks
            ∙ memcpy_out block (nr % inodes_per_block * dinode_size) words 0 dinode_size i
                (ground (arith, ne, same, lt))
            ∙ ap (λ b. s.dev.block (b + i / block_size) (i % block_size)) (sym blocks)
            ∙ slot-read s j k lt
        | inr other ↦
            ap (λ b. b i)
              (written_ne s.dev (image_of p s) at (start + j / inodes_per_block)
                (ground (arith, other)))
      ]
