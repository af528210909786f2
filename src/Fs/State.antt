-- ===== src/Fs/State.antt =====
-- What the functions of fs/ work on, and the monad they run in. `none` is a failed assertion, or
-- `EXIT`: the process ends. An `int` result is an integer, with the negative error codes of <errno.h>.
use operating_systems_lab.Base.{
  ℕ, Bool, Option, none, some, List, if◌then◌else◌, Errno, enomem, enospc, enoent, eexist, einval,
  eisdir, enotdir, enotempty, efbig,
}
use operating_systems_lab.Base.Int.{ℤ, negsuc}
use operating_systems_lab.Bitmap.{Bitmap}
use operating_systems_lab.Fs.Bytes.{Buffer}

-- `BLOCK_SIZE`, and the sizes of the parts of the file system in blocks
abbrev pub block_size : ℕ
block_size = 8192

abbrev pub super_block_size : ℕ
super_block_size = 1

abbrev pub inode_freemap_size : ℕ
inode_freemap_size = 1

abbrev pub block_freemap_size : ℕ
block_freemap_size = 16

abbrev pub nr_inode_blocks : ℕ
nr_inode_blocks = 128

-- `struct dsuper_block`
pub record DsuperBlock : Type 0 where
  pub inode_freemap_start : ℕ
  pub block_freemap_start : ℕ
  pub inode_blocks_start : ℕ
  pub data_blocks_start : ℕ
  pub used_inode_count : ℕ
  pub used_block_count : ℕ
  pub max_fs_blocks : ℕ

-- The file that `sb->dev` is: the bytes of each block, and how many blocks it has.
pub record Device : Type 0 where
  pub block : ℕ → Buffer
  pub size : ℕ

-- `struct dinode`; the file's size is not negative.
pub record Dinode : Type 0 where
  pub i_type : ℤ
  pub i_block_nr : ℕ → ℤ
  pub i_indirect : ℤ
  pub i_dindirect : ℤ
  pub block_count : ℤ
  pub i_size : ℕ

-- `struct inode`, with its dirty flag
pub record Inode : Type 0 where
  pub din : Dinode
  pub dirty : Bool
  pub i_nr : ℕ
  pub i_count : ℤ

-- The super block in memory, with the device; the in-memory inodes by address, the chains of the
-- hash table, and the address that `calloc` gives next.
pub record Fs : Type 0 where
  pub sb : DsuperBlock
  pub dev : Device
  pub inode_freemap : Option Bitmap
  pub block_freemap : Option Bitmap
  pub inodes : ℕ → Inode
  pub chains : ℕ → List ℕ
  pub next_inode : ℕ

abbrev pub M : Type 0 → Type 0
M A = Fs → Option (A × Fs)

module _ {A : Type 0} where
  abbrev pub pure : A → M A
  pure a s = some (a, s)

  abbrev pub stop : M A
  stop s = none

  abbrev pub gets : (Fs → A) → M A
  gets f s = some (f s, s)

abbrev pub modify : (Fs → Fs) → M (Unit {0})
modify f s = some (tt, f s)

abbrev pub assert : Bool → M (Unit {0})
assert b s = if b then some (tt, s) else none

abbrev pub bind : {A B : Type 0} → Option (A × Fs) → (A → M B) → Option (B × Fs)
bind none f = none
bind (some (a, s)) f = f a s

infixl 5 ◌>>=◌ ◌>>◌
abbrev pub ◌>>=◌ : {A B : Type 0} → M A → (A → M B) → M B
◌>>=◌ m f s = bind (m s) f

abbrev pub ◌>>◌ : {B : Type 0} → M (Unit {0}) → M B → M B
m >> k = m >>= λ _. k

-- The negative codes that functions return.
abbrev pub code : Errno → ℤ
code enoent = negsuc 1
code enomem = negsuc 11
code eexist = negsuc 16
code enotdir = negsuc 19
code eisdir = negsuc 20
code einval = negsuc 21
code efbig = negsuc 26
code enospc = negsuc 27
code enotempty = negsuc 38
