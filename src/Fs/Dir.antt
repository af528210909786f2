-- ===== src/Fs/Dir.antt =====
-- fs/dir.c: directories. An entry is eight bytes, the length of its name with the final 0 and an inode
-- number, negative for an entry that is not in use, and the name. A name is the bytes before its 0.
pub mod Scan
pub mod Entries
pub mod Create
pub mod Show
pub mod Listed
pub mod Answers
mod Tests
use operating_systems_lab.Base.{
  ℕ, zero, suc, ◌+◌, ◌-◌, ◌%◌, ◌^◌, Bool, true, false, ◌&&◌, Option, none, some, List, [], ◌∷◌, ltb,
  leb, ◌==◌, if◌then◌else◌, get_or, length, enoent,
}
use operating_systems_lab.Base.Int.{ℤ, pos, negsuc}
use operating_systems_lab.Fs.Bytes.{
  Buffer, zeros, int_at, of_words, of_int, to_int, memcpy, of_list,
}
use operating_systems_lab.Fs.State.{Fs, M, pure, stop, gets, assert, ◌>>=◌, ◌>>◌, code}
use operating_systems_lab.Fs.ReadWrite.Read.{testfs_read_data}
use operating_systems_lab.Fs.ReadWrite.Write.{testfs_write_data}

-- `struct dirent`, with the name behind it
pub record Dirent : Type 0 where
  pub d_name_len : ℕ
  pub d_inode_nr : ℤ
  pub d_name : Buffer

abbrev pub dirent_size : ℕ
dirent_size = 8

abbrev pub same_int : ℤ → ℤ → Bool
same_int (pos a) (pos b) = a == b
same_int (negsuc a) (negsuc b) = a == b
same_int (pos a) (negsuc b) = false
same_int (negsuc a) (pos b) = false

abbrev pub in_use : ℤ → Bool
in_use (pos n) = true
in_use (negsuc k) = false

-- `strcmp(D_NAME(d), name) == 0`, from the byte `k` on
unfoldable pub names : (d_name : Buffer) → (k : ℕ) → List ℕ → Bool
names b k [] = b k == 0
names b k (c ∷ name) = (b k == c) && names b (k + 1) name

-- `assert(testfs_inode_get_type(dir) == I_DIR)`
unfoldable pub assert_dir : (p : ℕ) → M (Unit {0})
assert_dir p s = assert (same_int (s.inodes p).din.i_type (pos 2)) s

-- `testfs_next_dirent` behind the two reads: the entry and the next offset. Where the name cannot be
-- read the offset has already moved. The memory for the header and for the name is not set in the
-- source before it is read into; here it is zeros, which shows where a read is short.
unfoldable pub named : (offset len : ℕ) → (d_inode_nr : ℤ) → ℤ × Buffer → M (Option Dirent × ℕ)
named offset len nr (negsuc k, b) = pure (none, offset + dirent_size)
named offset len nr (pos n, b) =
    pure
      (some (record { d_name_len = len; d_inode_nr = nr; d_name = b }), offset + dirent_size + len)

unfoldable pub with_name : (p offset : ℕ) → (d_inode_nr d_name_len : ℤ) → M (Option Dirent × ℕ)
unfolding named
with_name p offset nr (negsuc k) = stop
with_name p offset nr (pos len) = do
  assert (ltb 0 len)
  name ← testfs_read_data p zeros (offset + dirent_size) len
  named offset len nr name

unfoldable pub with_header : (p offset : ℕ) → ℤ × Buffer → M (Option Dirent × ℕ)
unfolding with_name
with_header p offset (negsuc k, b) = pure (none, offset)
with_header p offset (pos n, b) = with_name p offset (int_at b 1) (int_at b 0)

unfoldable pub testfs_next_dirent : (p offset : ℕ) → M (Option Dirent × ℕ)
unfolding assert_dir with_header
testfs_next_dirent p offset = do
  assert_dir p
  size ← gets (λ s. (s.inodes p).din.i_size)
  if leb size offset
      then pure (none, offset)
      else testfs_read_data p zeros offset dirent_size >>= with_header p offset

-- Each entry has nine bytes or more, so a loop over a directory takes fewer rounds than this.
abbrev pub rounds_for : (p : ℕ) → Fs → ℕ
rounds_for p s = (s.inodes p).din.i_size + 1

-- `testfs_dir_name_to_inode_nr` from an offset on; out of rounds it stops.
unfoldable pub name_loop : (rounds p : ℕ) → (name : List ℕ) → (offset : ℕ) → M ℤ
name_loop zero p name offset = stop
name_loop (suc n) p name offset = testfs_next_dirent p offset >>= λ (d, next). elim d [
  | none ↦ pure (code enoent)
  | some d ↦ elim (in_use d.d_inode_nr && names d.d_name 0 name) [
    | true ↦ pure d.d_inode_nr
    | false ↦ name_loop n p name next
  ]
]

unfoldable pub testfs_dir_name_to_inode_nr : (p : ℕ) → (name : List ℕ) → M ℤ
unfolding assert_dir name_loop
testfs_dir_name_to_inode_nr p name s = (do assert_dir p; name_loop (rounds_for p s) p name 0) s

-- The loop of `testfs_find_dirent`, by inode number
unfoldable pub find_loop : (rounds p inode_nr offset : ℕ) → M (Option Dirent)
find_loop zero p nr offset = stop
find_loop (suc n) p nr offset = testfs_next_dirent p offset >>= λ (d, next). elim d [
  | none ↦ pure none
  | some d ↦ elim (same_int d.d_inode_nr (pos nr)) [
    | true ↦ pure (some d)
    | false ↦ find_loop n p nr next
  ]
]

unfoldable pub testfs_find_dirent : (p inode_nr : ℕ) → M (Option Dirent)
unfolding assert_dir find_loop
testfs_find_dirent p nr s = (do assert_dir p; find_loop (rounds_for p s) p nr 0) s
