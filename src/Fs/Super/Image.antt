-- ===== src/Fs/Super/Image.antt =====
-- The super block and its image on the device.
use operating_systems_lab.Base.{ℕ, ◌+◌, ◌*◌, ◌/◌, ◌%◌, ◌^◌, ◌<◌, ◌≡◌, ◌∙◌, refl, arith}
use operating_systems_lab.Fs.Bytes.{Buffer, of_words, word_at}
use operating_systems_lab.Fs.Bytes.Words.{word_at-of_words}
use operating_systems_lab.Fs.State.{DsuperBlock}
use operating_systems_lab.Fs.Super.{super_words, super_of, super_image}

-- Every field fits the number of bits that it has.
pub record IsSuperBlock (d : DsuperBlock) : Type 0 where
  pub inode_freemap_start : d.inode_freemap_start < 2 ^ 32
  pub block_freemap_start : d.block_freemap_start < 2 ^ 32
  pub inode_blocks_start : d.inode_blocks_start < 2 ^ 32
  pub data_blocks_start : d.data_blocks_start < 2 ^ 32
  pub used_inode_count : d.used_inode_count < 2 ^ 32
  pub used_block_count : d.used_block_count < 2 ^ 32
  pub max_fs_blocks : d.max_fs_blocks < 2 ^ 64

image-words : (d : DsuperBlock) (k : ℕ) → k < 32 → super_image d k ≡ of_words (super_words d) k
image-words d k h = ground arith

module _ {d : DsuperBlock} (f : IsSuperBlock d) (b : Buffer)
    (h : (k : ℕ) → k < 32 → b k ≡ super_image d k) where
  word : (i : ℕ) → i < 8 → super_words d i < 2 ^ 32 → word_at b i ≡ super_words d i
  word i lt small =
      word_at-of_words (super_words d) i b
        (λ k l u. h k (omega arith) ∙ image-words d k (omega arith)) small

  pub super_of-super_image : super_of b ≡ d
  super_of-super_image =
      let high : d.max_fs_blocks / 2 ^ 32 < 2 ^ 32 = omega (arith, f.max_fs_blocks) in
      let low : d.max_fs_blocks % 2 ^ 32 < 2 ^ 32 = omega arith in
      let max : word_at b 6 + 2 ^ 32 * word_at b 7 ≡ d.max_fs_blocks =
        omega (arith, word 6 (omega arith) low, word 7 (omega arith) high) in
      rw
        (
          word 0 (omega arith) f.inode_freemap_start,
          word 1 (omega arith) f.block_freemap_start,
          word 2 (omega arith) f.inode_blocks_start,
          word 3 (omega arith) f.data_blocks_start,
          word 4 (omega arith) f.used_inode_count,
          word 5 (omega arith) f.used_block_count,
          max,
        )
        refl
