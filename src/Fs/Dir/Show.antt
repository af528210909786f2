-- ===== src/Fs/Dir/Show.antt =====
-- What fs/dir.c prints: the path of a directory, its entries and the fields of an inode. Printed text is
-- the list of its bytes. Calls go as deep as `depth`, since the directories of a device can form a
-- cycle; behind it they stop.
use operating_systems_lab.Base.{
  ℕ, zero, suc, ◌+◌, Bool, true, false, not, ◌&&◌, Option, none, some, List, [], ◌∷◌, ◌++◌, ◌==◌,
  if◌then◌else◌, einval, enotdir,
}
use operating_systems_lab.Base.Int.{ℤ, pos, negsuc}
use operating_systems_lab.Fs.Bytes.{Buffer}
use operating_systems_lab.Fs.State.{M, pure, stop, gets, ◌>>=◌, ◌>>◌, code}
use operating_systems_lab.Fs.Inode.{Hlist, i_dir, testfs_get_inode, testfs_put_inode}
use operating_systems_lab.Fs.Dir.{
  Dirent, same_int, names, testfs_next_dirent, rounds_for, testfs_dir_name_to_inode_nr,
  testfs_find_dirent,
}
use operating_systems_lab.Fs.Dir.Entries.{dot, dot_dot}

-- The string `D_NAME(d)`, from the byte `k` on
abbrev pub string_from : (n : ℕ) → Buffer → (k : ℕ) → List ℕ
string_from zero b k = []
string_from (suc n) b k = let rest = string_from n b (k + 1) in if b k == 0 then [] else b k ∷ rest

abbrev pub d_string : Dirent → List ℕ
d_string d = string_from d.d_name_len d.d_name 0

abbrev pub slash : List ℕ
slash = 47 ∷ []

abbrev pub newline : List ℕ
newline = 10 ∷ []

-- What `cmd_stat` prints of an inode.
pub record Stat : Type 0 where
  pub i_nr : ℕ
  pub i_type : ℤ
  pub i_size : ℕ
  pub block_count : ℤ

module _ (lib : Hlist) where
  -- `testfs_pwd` behind the look for the directory in its parent: `up` is the call for the parent.
  unfoldable pub pwd_entry :
      (up : M (Bool × List ℕ)) → (parent : ℕ) → Option Dirent → M (Bool × List ℕ)
  pwd_entry up q none = stop
  pwd_entry up q (some d) = do
    (root, path) ← up
    testfs_put_inode lib q
    pure (false, path ++ (if root then [] else slash) ++ d_string d)

  unfoldable pub pwd_parent :
      (up : ℕ → M (Bool × List ℕ)) → (i_nr : ℕ) → (p_inode_nr : ℤ) → M (Bool × List ℕ)
  unfolding pwd_entry
  pwd_parent up nr (negsuc k) = stop
  pwd_parent up nr (pos parent) =
      if parent == nr
      then pure (true, slash)
      else (do q ← testfs_get_inode lib parent; d ← testfs_find_dirent q nr; pwd_entry (up q) q d)

  -- The result 1, for the root, as `true`, and what is printed.
  unfoldable pub testfs_pwd : (depth p : ℕ) → M (Bool × List ℕ)
  unfolding pwd_parent
  testfs_pwd zero p = stop
  testfs_pwd (suc n) p = do
    parent ← testfs_dir_name_to_inode_nr p dot_dot
    nr ← gets (λ s. (s.inodes p).i_nr)
    pwd_parent (testfs_pwd n) nr parent

  -- Is the entry listed too, for `recursive`?
  abbrev pub descends : (recursive : Bool) → (type : ℤ) → Dirent → Bool
  descends recursive type d =
      recursive
      && same_int type i_dir
      && not (names d.d_name 0 dot)
      && not (names d.d_name 0 dot_dot)

  abbrev pub ls_line : Dirent → (type : ℤ) → List ℕ
  ls_line d type = d_string d ++ (if same_int type i_dir then slash else []) ++ newline

  -- `below` is the call for a directory in this one.
  unfoldable pub ls_entry : (below : ℕ → M (List ℕ)) → (recursive : Bool) → Dirent → ℤ → M (List ℕ)
  ls_entry below recursive d (negsuc k) = pure []
  ls_entry below recursive d (pos nr) = do
    q ← testfs_get_inode lib nr
    type ← gets (λ s. (s.inodes q).din.i_type)
    lines ← if descends recursive type d then below q else pure []
    testfs_put_inode lib q
    pure (ls_line d type ++ lines)

  unfoldable pub ls_loop :
      (below : ℕ → M (List ℕ)) → (recursive : Bool) → (rounds p offset : ℕ) → M (List ℕ)
  unfolding ls_entry
  ls_loop below recursive zero p offset = stop
  ls_loop below recursive (suc n) p offset = testfs_next_dirent p offset >>= λ (d, next). elim d [
    | none ↦ pure []
    | some d ↦ do
      lines ← ls_entry below recursive d d.d_inode_nr
      rest ← ls_loop below recursive n p next
      pure (lines ++ rest)
  ]

  unfoldable pub testfs_ls : (depth p : ℕ) → (recursive : Bool) → M (List ℕ)
  unfolding ls_loop
  testfs_ls zero p recursive s = none
  testfs_ls (suc n) p recursive s =
      ls_loop (λ q. testfs_ls n q recursive) recursive (rounds_for p s) p 0 s

  -- The inode of what is no directory is not put back.
  unfoldable pub ls_numbered : (depth : ℕ) → (recursive : Bool) → (inode_nr : ℤ) → M (ℤ × List ℕ)
  unfolding testfs_ls
  ls_numbered depth recursive (negsuc k) = pure (negsuc k, [])
  ls_numbered depth recursive (pos nr) = do
    p ← testfs_get_inode lib nr
    type ← gets (λ s. (s.inodes p).din.i_type)
    if same_int type i_dir
        then (do lines ← testfs_ls depth p recursive; testfs_put_inode lib p; pure (pos 0, lines))
        else pure (code enotdir, [])

  unfoldable pub cmd_ls_internal :
      (depth nargs : ℕ) → (cdir : List ℕ) → (cur_dir : ℕ) → (recursive : Bool) → M (ℤ × List ℕ)
  unfolding ls_numbered
  cmd_ls_internal depth nargs cdir cur_dir recursive =
      if nargs == 2
      then testfs_dir_name_to_inode_nr cur_dir cdir >>= ls_numbered depth recursive
      else pure (code einval, [])

  unfoldable pub cmd_pwd : (depth nargs cur_dir : ℕ) → M (ℤ × List ℕ)
  unfolding testfs_pwd
  cmd_pwd depth nargs cur_dir =
      if nargs == 1
      then (do (root, path) ← testfs_pwd depth cur_dir; pure (pos 0, path ++ newline))
      else pure (code einval, [])

  unfoldable pub stat_numbered : (inode_nr : ℤ) → M (ℤ × Option Stat)
  stat_numbered (negsuc k) = pure (negsuc k, none)
  stat_numbered (pos nr) = do
    p ← testfs_get_inode lib nr
    stat ← gets (λ s.
        let inode = s.inodes p in
        let stat : Stat = record {
          i_nr = inode.i_nr;
          i_type = inode.din.i_type;
          i_size = inode.din.i_size;
          block_count = inode.din.block_count;
        } in
        stat)
    testfs_put_inode lib p
    pure (pos 0, some stat)

  unfoldable pub cmd_stat : (nargs : ℕ) → (name : List ℕ) → (cur_dir : ℕ) → M (ℤ × Option Stat)
  unfolding stat_numbered
  cmd_stat nargs name cur_dir =
      if nargs == 2
      then testfs_dir_name_to_inode_nr cur_dir name >>= stat_numbered
      else pure (code einval, none)
