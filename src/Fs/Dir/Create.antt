-- ===== src/Fs/Dir/Create.antt =====
-- Creating and removing files and directories in fs/dir.c, and the commands that do. `nargs` and the
-- words are those of `struct context`; its current directory is an argument.
use operating_systems_lab.Base.{
  ℕ, Option, none, some, List, [], ◌==◌, if◌then◌else◌, eexist, einval, enotdir,
}
use operating_systems_lab.Base.Int.{ℤ, pos, negsuc}
use operating_systems_lab.Fs.Super.Mount.{format, testfs_close_super_block}
use operating_systems_lab.Fs.State.{Fs, Inode, M, bind, pure, stop, gets, ◌>>=◌, ◌>>◌, code}
use operating_systems_lab.Fs.Inode.{
  Hlist, i_file, i_dir, testfs_get_inode, testfs_put_inode, testfs_sync_inode,
}
use operating_systems_lab.Fs.Inode.Create.{
  Made, made, failed, testfs_create_inode, testfs_remove_inode,
}
use operating_systems_lab.Fs.Dir.{same_int, assert_dir, testfs_dir_name_to_inode_nr}
use operating_systems_lab.Fs.Dir.Entries.{dot, dot_dot, testfs_add_dirent, testfs_remove_dirent}

module _ (lib : Hlist) where
  unfoldable pub after_dot_dot : (p : ℕ) → (ret : ℤ) → M ℤ
  after_dot_dot p (pos n) = pure (pos 0)
  after_dot_dot p (negsuc k) = do removed ← testfs_remove_dirent lib p dot; pure (negsuc k)

  unfoldable pub after_dot : (p p_inode_nr : ℕ) → (ret : ℤ) → M ℤ
  unfolding after_dot_dot
  after_dot p parent (negsuc k) = pure (negsuc k)
  after_dot p parent (pos n) = testfs_add_dirent p dot_dot parent >>= after_dot_dot p

  unfoldable pub testfs_create_empty_dir : (p_inode_nr p : ℕ) → M ℤ
  unfolding assert_dir after_dot
  testfs_create_empty_dir parent p = do
    assert_dir p
    nr ← gets (λ s. (s.inodes p).i_nr)
    ret ← testfs_add_dirent p dot nr
    after_dot p parent ret

  -- The labels `out` and the end of `testfs_create_file_or_dir`.
  unfoldable pub undo : (p : ℕ) → ℤ → M ℤ
  undo p ret = do testfs_remove_inode lib p; pure ret

  unfoldable pub keep : (p : ℕ) → M ℤ
  keep p = do testfs_sync_inode p; testfs_put_inode lib p; pure (pos 0)

  unfoldable pub linked : (dir p : ℕ) → (ret : ℤ) → M ℤ
  unfolding undo keep
  linked dir p (negsuc k) = undo p (negsuc k)
  linked dir p (pos n) = do testfs_sync_inode dir; keep p

  -- The new inode is entered in the directory, if there is one.
  unfoldable pub enter : (dir : Option ℕ) → (name : List ℕ) → (p : ℕ) → (ret : ℤ) → M ℤ
  unfolding undo keep linked
  enter dir name p (negsuc k) = undo p (negsuc k)
  enter none name p (pos n) = keep p
  enter (some dir) name p (pos n) = do
    nr ← gets (λ s. (s.inodes p).i_nr)
    ret ← testfs_add_dirent dir name nr
    linked dir p ret

  -- `p_inode_nr` is the directory's number, or the new one for a root.
  abbrev pub parent_of : (dir : Option ℕ) → (p : ℕ) → Fs → ℕ
  parent_of none p s = (s.inodes p).i_nr
  parent_of (some dir) p s = (s.inodes dir).i_nr

  unfoldable pub with_inode : (dir : Option ℕ) → (type : ℤ) → (name : List ℕ) → Made → M ℤ
  unfolding testfs_create_empty_dir enter
  with_inode dir type name (failed ret) = pure ret
  with_inode dir type name (made p) = do
    parent ← gets (parent_of dir p)
    ret ← if same_int type i_dir then testfs_create_empty_dir parent p else pure (pos 0)
    enter dir name p ret

  -- `EEXIST` for a name that is there.
  unfoldable pub unless_found : (dir : Option ℕ) → (type : ℤ) → (name : List ℕ) → (found : ℤ) → M ℤ
  unfolding with_inode
  unless_found dir type name (pos n) = pure (code eexist)
  unless_found dir type name (negsuc k) = testfs_create_inode lib type >>= with_inode dir type name

  unfoldable pub testfs_create_file_or_dir : (dir : Option ℕ) → (type : ℤ) → (name : List ℕ) → M ℤ
  unfolding with_inode unless_found
  testfs_create_file_or_dir none type name =
      testfs_create_inode lib type >>= with_inode none type name
  testfs_create_file_or_dir (some dir) type name =
      testfs_dir_name_to_inode_nr dir name >>= unless_found (some dir) type name

  unfoldable pub testfs_make_root_dir : M ℤ
  unfolding testfs_create_file_or_dir
  testfs_make_root_dir = testfs_create_file_or_dir none i_dir []

  unfoldable pub cmd_create : (nargs : ℕ) → (name : List ℕ) → (cur_dir : ℕ) → M ℤ
  unfolding testfs_create_file_or_dir
  cmd_create nargs name cur_dir =
      if nargs == 2
      then testfs_create_file_or_dir (some cur_dir) i_file name
      else pure (code einval)

  unfoldable pub cmd_mkdir : (nargs : ℕ) → (name : List ℕ) → (cur_dir : ℕ) → M ℤ
  unfolding testfs_create_file_or_dir
  cmd_mkdir nargs name cur_dir =
      if nargs == 2 then testfs_create_file_or_dir (some cur_dir) i_dir name else pure (code einval)

  unfoldable pub remove_numbered : (cur_dir : ℕ) → (inode_nr : ℤ) → M ℤ
  remove_numbered cur_dir (negsuc k) = pure (negsuc k)
  remove_numbered cur_dir (pos nr) = do
    p ← testfs_get_inode lib nr
    testfs_remove_inode lib p
    testfs_sync_inode cur_dir
    pure (pos 0)

  unfoldable pub cmd_rm : (nargs : ℕ) → (name : List ℕ) → (cur_dir : ℕ) → M ℤ
  unfolding remove_numbered
  cmd_rm nargs name cur_dir =
      if nargs == 2
      then testfs_remove_dirent lib cur_dir name >>= remove_numbered cur_dir
      else pure (code einval)

  -- The result, and the current directory behind the call.
  unfoldable pub cd_numbered : (cur_dir : ℕ) → (inode_nr : ℤ) → M (ℤ × ℕ)
  cd_numbered cur_dir (negsuc k) = pure (negsuc k, cur_dir)
  cd_numbered cur_dir (pos nr) = do
    p ← testfs_get_inode lib nr
    type ← gets (λ s. (s.inodes p).din.i_type)
    if same_int type i_dir
        then (do testfs_put_inode lib cur_dir; pure (pos 0, p))
        else (do testfs_put_inode lib p; pure (code enotdir, cur_dir))

  unfoldable pub cmd_cd : (nargs : ℕ) → (name : List ℕ) → (cur_dir : ℕ) → M (ℤ × ℕ)
  unfolding cd_numbered
  cmd_cd nargs name cur_dir =
      if nargs == 2
      then testfs_dir_name_to_inode_nr cur_dir name >>= cd_numbered cur_dir
      else pure (code einval, cur_dir)

  -- fs/mktestfs.c behind its arguments: a new file system, mounted, with a root directory, and closed. The
  -- result of `testfs_make_root_dir` is not tested.
  unfoldable pub with_root : (ret : ℤ) → M (Unit {0})
  unfolding testfs_make_root_dir
  with_root ret =
      if same_int ret (pos 0)
      then (do result ← testfs_make_root_dir; testfs_close_super_block)
      else stop

  unfoldable pub mktestfs : (fs_size_mb : ℕ) → (inodes : ℕ → Inode) → Option (Unit {0} × Fs)
  unfolding with_root
  mktestfs fs_size_mb inodes = bind (format fs_size_mb inodes) with_root
