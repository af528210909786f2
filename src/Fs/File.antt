-- ===== src/Fs/File.antt =====
-- fs/file.c: reading and writing a file by its name, and `cmd_stat` of fs/dir.c. `nargs` and the words are
-- those of `struct context`; its current directory is an argument.
use operating_systems_lab.Base.{
  ℕ, ◌+◌, ◌%◌, ◌^◌, Bool, true, false, Option, none, some, List, ◌==◌, if◌then◌else◌, length,
  einval, eisdir, enomem, Outcome, ok, err, fault,
}
use operating_systems_lab.Base.Int.{ℤ, pos, negsuc}
use operating_systems_lab.Fs.Bytes.{Buffer, zeros, of_list}
use operating_systems_lab.Fs.State.{M, pure, stop, gets, ◌>>=◌, ◌>>◌, code}
use operating_systems_lab.Fs.Inode.{
  Hlist, i_dir, testfs_get_inode, testfs_put_inode, testfs_sync_inode,
}
use operating_systems_lab.Fs.Inode.Create.{Made, made, failed}
use operating_systems_lab.Fs.ReadWrite.Read.{testfs_read_data, past_end}
use operating_systems_lab.Fs.ReadWrite.Write.{testfs_write_data}
use operating_systems_lab.Fs.Dir.{same_int, in_use, testfs_dir_name_to_inode_nr}
use operating_systems_lab.Fs.Number.{str_to_offset, str_to_size}

-- The result of `cmd_read`, and the bytes of the string that it prints.
abbrev pub Shown : Type 0
Shown = ℤ × Option Buffer

module _ (lib : Hlist) where
  unfoldable pub file_numbered : (inode_nr : ℤ) → M Made
  file_numbered (negsuc k) = pure (failed (negsuc k))
  file_numbered (pos nr) = do
    p ← testfs_get_inode lib nr
    type ← gets (λ s. (s.inodes p).din.i_type)
    if same_int type i_dir
        then (do testfs_put_inode lib p; pure (failed (code eisdir)))
        else pure (made p)

  unfoldable pub testfs_get_file_inode : (dir : ℕ) → (name : List ℕ) → M Made
  unfolding file_numbered
  testfs_get_file_inode dir name = testfs_dir_name_to_inode_nr dir name >>= file_numbered

  -- `malloc` says whether there is memory for a number of bytes.
  module _ (malloc : ℕ → Bool) where
    unfoldable pub read_checked : (p offset size : ℕ) → Option Bool → M Shown
    read_checked p offset size none = stop
    read_checked p offset size (some true) = do testfs_put_inode lib p; pure (code einval, none)
    read_checked p offset size (some false) =
        if malloc ((size + 1) % 2 ^ 64)
        then (do
          (ret, buf) ← testfs_read_data p zeros offset size
          testfs_put_inode lib p
          pure (ret, if in_use ret then some (λ j. if j == size then 0 else buf j) else none))
        else (do testfs_put_inode lib p; pure (code enomem, none))

    unfoldable pub read_in : (offset size : ℕ) → Made → M Shown
    unfolding past_end read_checked
    read_in offset size (failed ret) = pure (ret, none)
    read_in offset size (made p) = do
      file_size ← gets (λ s. (s.inodes p).din.i_size)
      read_checked p offset size (past_end offset size file_size)

    unfoldable pub read_sized :
        (cur_dir : ℕ) → (filename : List ℕ) → (offset : ℕ) → Outcome ℕ → M Shown
    unfolding testfs_get_file_inode read_in
    read_sized dir name offset fault = stop
    read_sized dir name offset (err e) = pure (code e, none)
    read_sized dir name offset (ok size) = testfs_get_file_inode dir name >>= read_in offset size

    unfoldable pub read_from : (cur_dir : ℕ) → (filename size : List ℕ) → Outcome ℤ → M Shown
    unfolding read_sized
    read_from dir name size fault = stop
    read_from dir name size (err e) = pure (code e, none)
    read_from dir name size (ok (negsuc k)) = pure (code einval, none)
    read_from dir name size (ok (pos offset)) = read_sized dir name offset (str_to_size size)

    unfoldable pub cmd_read :
        (nargs : ℕ) → (filename offset size : List ℕ) → (cur_dir : ℕ) → M Shown
    unfolding read_from
    cmd_read nargs name offset size dir =
        if nargs == 4
        then read_from dir name size (str_to_offset offset)
        else pure (code einval, none)

  unfoldable pub write_in : (offset : ℕ) → (buf : List ℕ) → Made → M ℤ
  write_in offset buf (failed ret) = pure ret
  write_in offset buf (made p) = do
    ret ← testfs_write_data p (of_list buf) offset (length buf)
    testfs_sync_inode p
    testfs_put_inode lib p
    pure ret

  unfoldable pub write_from : (cur_dir : ℕ) → (filename buf : List ℕ) → Outcome ℤ → M ℤ
  unfolding testfs_get_file_inode write_in
  write_from dir name buf fault = stop
  write_from dir name buf (err e) = pure (code e)
  write_from dir name buf (ok (negsuc k)) = pure (code einval)
  write_from dir name buf (ok (pos offset)) = testfs_get_file_inode dir name >>= write_in offset buf

  unfoldable pub cmd_write : (nargs : ℕ) → (filename offset buf : List ℕ) → (cur_dir : ℕ) → M ℤ
  unfolding write_from
  cmd_write nargs name offset buf dir =
      if nargs == 4 then write_from dir name buf (str_to_offset offset) else pure (code einval)
