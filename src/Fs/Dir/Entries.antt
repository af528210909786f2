-- ===== src/Fs/Dir/Entries.antt =====
-- Adding and removing entries in fs/dir.c.
use operating_systems_lab.Base.{
  ℕ, zero, suc, ◌+◌, ◌%◌, ◌^◌, true, false, not, ◌&&◌, ◌||◌, none, some, List, [], ◌∷◌, ◌==◌,
  if◌then◌else◌, length, enoent, eexist, einval, enotempty, same_name,
}
use operating_systems_lab.Base.Int.{ℤ, pos, negsuc}
use operating_systems_lab.Fs.Bytes.{Buffer, of_words, of_int, to_int, memcpy, of_list}
use operating_systems_lab.Fs.State.{M, pure, stop, gets, assert, ◌>>=◌, ◌>>◌, code}
use operating_systems_lab.Fs.Inode.{Hlist, testfs_get_inode, testfs_put_inode}
use operating_systems_lab.Fs.ReadWrite.Write.{testfs_write_data}
use operating_systems_lab.Fs.Dir.{
  Dirent, dirent_size, same_int, in_use, names, assert_dir, testfs_next_dirent, rounds_for,
}

-- The bytes of an entry: the two `int`s, then the name.
abbrev pub dirent_image : (len : ℕ) → (nr : ℤ) → (name : Buffer) → Buffer
dirent_image len nr name =
    memcpy (of_words (λ j. if j == 0 then of_int (pos len) else of_int nr)) dirent_size name 0 len

unfoldable pub write_at : (p : ℕ) → Buffer → (size : ℕ) → (offset : ℤ) → M ℤ
write_at p b size (negsuc k) = stop
write_at p b size (pos offset) = testfs_write_data p b offset size

-- `offset` is given as an `int`.
unfoldable pub testfs_write_dirent : (p : ℕ) → (name : List ℕ) → (len inode_nr offset : ℕ) → M ℤ
unfolding write_at
testfs_write_dirent p name len inode_nr offset =
    write_at p (dirent_image len (pos inode_nr) (of_list name)) (dirent_size + len)
      (to_int (offset % 2 ^ 32))

-- Where the loop of `testfs_add_dirent` ends: the name is there, an entry of the same length is not in
-- use, or there is no further entry.
pub data Slot : Type 0 where
  taken : Slot
  unused : (p_offset : ℕ) → Slot
  at_end : (p_offset : ℕ) → Slot

unfoldable pub slot_loop : (rounds p : ℕ) → (name : List ℕ) → (len offset : ℕ) → M Slot
slot_loop zero p name len offset = stop
slot_loop (suc n) p name len offset = testfs_next_dirent p offset >>= λ (d, next). elim d [
  | none ↦ pure (at_end offset)
  | some d ↦ elim (in_use d.d_inode_nr && names d.d_name 0 name) [
    | true ↦ pure taken
    | false ↦ elim (in_use d.d_inode_nr || not (d.d_name_len == len)) [
      | true ↦ slot_loop n p name len next
      | false ↦ pure (unused offset)
    ]
  ]
]

unfoldable pub fill_slot : (p : ℕ) → (name : List ℕ) → (len inode_nr : ℕ) → Slot → M ℤ
unfolding testfs_write_dirent
fill_slot p name len nr taken = pure (code eexist)
fill_slot p name len nr (unused offset) = testfs_write_dirent p name len nr offset
fill_slot p name len nr (at_end offset) = do
  size ← gets (λ s. (s.inodes p).din.i_size)
  assert (offset == size)
  testfs_write_dirent p name len nr offset

unfoldable pub testfs_add_dirent : (p : ℕ) → (name : List ℕ) → (inode_nr : ℕ) → M ℤ
unfolding assert_dir slot_loop fill_slot
testfs_add_dirent p name nr s =
    (do
      assert_dir p
      slot ← slot_loop (rounds_for p s) p name (length name + 1) 0
      fill_slot p name (length name + 1) nr slot)
      s

-- `.` and `..`
abbrev pub dot : List ℕ
dot = 46 ∷ []

abbrev pub dot_dot : List ℕ
dot_dot = 46 ∷ 46 ∷ []

unfoldable pub empty_loop : (rounds p offset : ℕ) → M ℤ
empty_loop zero p offset = stop
empty_loop (suc n) p offset = testfs_next_dirent p offset >>= λ (d, next). elim d [
  | none ↦ pure (pos 0)
  | some d ↦
      elim (not (in_use d.d_inode_nr) || (names d.d_name 0 dot || names d.d_name 0 dot_dot)) [
        | true ↦ empty_loop n p next
        | false ↦ pure (code enotempty)
      ]
]

module _ (lib : Hlist) where
  unfoldable pub testfs_remove_dirent_allowed : (inode_nr : ℕ) → M ℤ
  unfolding empty_loop
  testfs_remove_dirent_allowed nr = do
    p ← testfs_get_inode lib nr
    type ← gets (λ s. (s.inodes p).din.i_type)
    rounds ← gets (rounds_for p)
    ret ← if same_int type (pos 2) then empty_loop rounds p 0 else pure (pos 0)
    testfs_put_inode lib p
    pure ret

  -- Behind `testfs_remove_dirent_allowed`: the entry is written with the inode number -1.
  unfoldable pub clear_entry : (p : ℕ) → Dirent → (p_offset inode_nr : ℕ) → (allowed : ℤ) → M ℤ
  clear_entry p d offset nr (negsuc k) = pure (negsuc k)
  clear_entry p d offset nr (pos n) = do
    ret ←
        testfs_write_data p (dirent_image d.d_name_len (negsuc 0) d.d_name) offset
          (dirent_size + d.d_name_len)
    pure (if in_use ret then pos nr else ret)

  unfoldable pub remove_entry : (p : ℕ) → Dirent → (p_offset : ℕ) → (inode_nr : ℤ) → M ℤ
  unfolding testfs_remove_dirent_allowed clear_entry
  remove_entry p d offset (negsuc k) = stop
  remove_entry p d offset (pos nr) = testfs_remove_dirent_allowed nr >>= clear_entry p d offset nr

  unfoldable pub remove_loop : (rounds p : ℕ) → (name : List ℕ) → (offset : ℕ) → M ℤ
  unfolding remove_entry
  remove_loop zero p name offset = stop
  remove_loop (suc n) p name offset = testfs_next_dirent p offset >>= λ (d, next). elim d [
    | none ↦ pure (code enoent)
    | some d ↦ elim (in_use d.d_inode_nr && names d.d_name 0 name) [
      | true ↦ remove_entry p d offset d.d_inode_nr
      | false ↦ remove_loop n p name next
    ]
  ]

  unfoldable pub testfs_remove_dirent : (p : ℕ) → (name : List ℕ) → M ℤ
  unfolding same_name remove_loop
  testfs_remove_dirent p name s =
      if same_name name dot || same_name name dot_dot
      then pure (code einval) s
      else remove_loop (rounds_for p s) p name 0 s
