-- ===== src/Fs/Dir/Answers.antt =====
-- What the commands of fs/dir.c and fs/file.c answer for a name that is in the current directory, or is not.
use operating_systems_lab.Base.{
  ℕ, ◌≡◌, refl, ap, ◌∙◌, Bool, true, none, some, List, [], enoent, eexist, ok,
}
use operating_systems_lab.Base.Int.{pos}
use operating_systems_lab.Fs.State.{Fs, code}
use operating_systems_lab.Fs.Inode.{Hlist}
use operating_systems_lab.Fs.Dir.{Dirent, same_int, testfs_dir_name_to_inode_nr}
use operating_systems_lab.Fs.Dir.Listed.{Reads, at, found, testfs_dir_name_to_inode_nr-found}
use operating_systems_lab.Fs.Dir.Create.{
  testfs_create_file_or_dir, unless_found, cmd_create, cmd_mkdir, cmd_cd, cd_numbered,
}
use operating_systems_lab.Fs.Dir.Show.{cmd_ls_internal, ls_numbered, cmd_stat, stat_numbered}
use operating_systems_lab.Fs.File.{
  cmd_read, read_from, read_sized, read_in, cmd_write, write_from, write_in, testfs_get_file_inode,
  file_numbered,
}
use operating_systems_lab.Fs.Number.{str_to_offset, str_to_size}

module _ (lib : Hlist) (s : Fs) (p : ℕ) (name : List ℕ) (ds : List Dirent) where
  -- In a directory whose entries can all be read, for a name that none of them in use has: cd, ls, lsr
  -- and stat of the name, and read and write of it with an offset and a size that are numbers, the
  -- offset not negative, return `ENOENT`, print nothing and change nothing.
  pub commands-enoent :
      (malloc : ℕ → Bool) (depth : ℕ) (recursive : Bool) (offset size bytes : List ℕ) (o n : ℕ)
      → same_int (s.inodes p).din.i_type (pos 2) ≡ true
      → Reads s p 0 ds true
      → found name ds true ≡ some (code enoent)
      → str_to_offset offset ≡ ok (pos o)
      → str_to_size size ≡ ok n
      → (cmd_cd lib 2 name p s ≡ some ((code enoent, p), s))
        × (cmd_ls_internal lib depth 2 name p recursive s ≡ some ((code enoent, []), s))
        × (cmd_stat lib 2 name p s ≡ some ((code enoent, none), s))
        × (cmd_read lib malloc 4 name offset size p s ≡ some ((code enoent, none), s))
        × (cmd_write lib 4 name offset bytes p s ≡ some (code enoent, s))
  unfolding cmd_cd cd_numbered cmd_ls_internal ls_numbered cmd_stat stat_numbered cmd_read read_from
      read_sized read_in cmd_write write_from write_in testfs_get_file_inode file_numbered
  commands-enoent malloc depth recursive offset size bytes o n is_dir reads absent at_offset
        at_size =
      let e : testfs_dir_name_to_inode_nr p name s ≡ some (code enoent, s) =
        testfs_dir_name_to_inode_nr-found s p name ds true reads is_dir ∙ ap (at s) absent in
      (rw e refl, rw e refl, rw e refl, rw (at_offset, at_size, e) refl, rw (at_offset, e) refl)

  -- In such a directory, for a name that an entry in use has: create and mkdir of the name return
  -- `EEXIST` and change nothing.
  pub commands-eexist :
      (nr : ℕ)
      → same_int (s.inodes p).din.i_type (pos 2) ≡ true
      → Reads s p 0 ds true
      → found name ds true ≡ some (pos nr)
      → (cmd_create lib 2 name p s ≡ some (code eexist, s))
        × (cmd_mkdir lib 2 name p s ≡ some (code eexist, s))
  unfolding cmd_create cmd_mkdir testfs_create_file_or_dir unless_found
  commands-eexist nr is_dir reads there =
      let e : testfs_dir_name_to_inode_nr p name s ≡ some (pos nr, s) =
        testfs_dir_name_to_inode_nr-found s p name ds true reads is_dir ∙ ap (at s) there in
      (rw e refl, rw e refl)
