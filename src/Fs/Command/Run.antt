-- ===== src/Fs/Command/Run.antt =====
-- The commands of fs/testfs.c and the loop that runs them. The lines of the standard input are a list, each
-- with its end of line; what a command prints is part of its result, but for fixed texts.
use operating_systems_lab.Base.{
  ℕ, Bool, true, false, Option, none, some, List, [], ◌∷◌, ◌==◌, if◌then◌else◌, same_name, einval,
}
use operating_systems_lab.Base.Int.{ℤ, pos}
use operating_systems_lab.Fs.Bytes.{Buffer}
use operating_systems_lab.Fs.State.{M, pure, stop, gets, ◌>>=◌, ◌>>◌, code}
use operating_systems_lab.Fs.Inode.{Hlist, testfs_get_inode, testfs_put_inode}
use operating_systems_lab.Fs.Super.Mount.{testfs_init_super_block, testfs_close_super_block}
use operating_systems_lab.Fs.Dir.{same_int}
use operating_systems_lab.Fs.Dir.Create.{cmd_create, cmd_mkdir, cmd_rm, cmd_cd}
use operating_systems_lab.Fs.Dir.Show.{Stat, cmd_ls_internal, cmd_pwd, cmd_stat}
use operating_systems_lab.Fs.File.{cmd_read, cmd_write}
use operating_systems_lab.Fs.Command.{Context, blanks, line_ends, strtok_r, parse_command}

-- `cmdtable`: the functions, their names and `max_args`.
pub data Cmd : Type 0 where
  help cd pwd ls lsr create stat rm mkdir read write fsstat quit : Cmd

abbrev pub cmdtable : List (List ℕ × Cmd × ℕ)
cmdtable =
    (104 ∷ 101 ∷ 108 ∷ 112 ∷ [], help, 1)
    ∷ (99 ∷ 100 ∷ [], cd, 2)
    ∷ (112 ∷ 119 ∷ 100 ∷ [], pwd, 1)
    ∷ (108 ∷ 115 ∷ [], ls, 2)
    ∷ (108 ∷ 115 ∷ 114 ∷ [], lsr, 2)
    ∷ (99 ∷ 114 ∷ 101 ∷ 97 ∷ 116 ∷ 101 ∷ [], create, 2)
    ∷ (115 ∷ 116 ∷ 97 ∷ 116 ∷ [], stat, 2)
    ∷ (114 ∷ 109 ∷ [], rm, 2)
    ∷ (109 ∷ 107 ∷ 100 ∷ 105 ∷ 114 ∷ [], mkdir, 2)
    ∷ (114 ∷ 101 ∷ 97 ∷ 100 ∷ [], read, 4)
    ∷ (119 ∷ 114 ∷ 105 ∷ 116 ∷ 101 ∷ [], write, 4)
    ∷ (102 ∷ 115 ∷ 115 ∷ 116 ∷ 97 ∷ 116 ∷ [], fsstat, 1)
    ∷ (113 ∷ 117 ∷ 105 ∷ 116 ∷ [], quit, 1)
    ∷ []

-- The text a command prints.
pub data Output : Type 0 where
  silent : Output
  commands : Output
  bye : Output
  text : List ℕ → Output
  string : Option Buffer → Output
  fields : Option Stat → Output
  usage_counts : (inodes blocks : ℕ) → Output

-- What is behind a command: `ret`, its output, the current directory and `can_quit`.
pub record Ran : Type 0 where
  pub ret : ℤ
  pub output : Output
  pub cur_dir : ℕ
  pub can_quit : Bool

-- A word that is read only where the count of words says that it is there.
abbrev pub word : Context → (i : ℕ) → List ℕ
word c i = elim (c.cmd i) [ none ↦ [] | some w ↦ w ]

abbrev pub ran : Context → ℤ → Output → Ran
ran c ret output = record { ret = ret; output = output; cur_dir = c.cur_dir; can_quit = false }

unfoldable pub cmd_fsstat : (nargs : ℕ) → M (ℤ × Output)
cmd_fsstat nargs =
    if nargs == 1
    then gets (λ s. (pos 0, usage_counts s.sb.used_inode_count s.sb.used_block_count))
    else pure (code einval, silent)

module _ (lib : Hlist) (malloc : ℕ → Bool) (depth : ℕ) where
  unfoldable pub run_cmd : Cmd → Context → M Ran
  unfolding cmd_fsstat
  run_cmd help c = pure (ran c (pos 0) commands)
  run_cmd cd c = do
    (ret, dir) ← cmd_cd lib c.nargs (word c 1) c.cur_dir
    pure (record (ran c ret silent) { cur_dir = dir })
  run_cmd pwd c = do (ret, t) ← cmd_pwd lib depth c.nargs c.cur_dir; pure (ran c ret (text t))
  run_cmd ls c = do
    (ret, t) ← cmd_ls_internal lib depth c.nargs (word c 1) c.cur_dir false
    pure (ran c ret (text t))
  run_cmd lsr c = do
    (ret, t) ← cmd_ls_internal lib depth c.nargs (word c 1) c.cur_dir true
    pure (ran c ret (text t))
  run_cmd create c = do ret ← cmd_create lib c.nargs (word c 1) c.cur_dir; pure (ran c ret silent)
  run_cmd stat c = do
    (ret, f) ← cmd_stat lib c.nargs (word c 1) c.cur_dir
    pure (ran c ret (fields f))
  run_cmd rm c = do ret ← cmd_rm lib c.nargs (word c 1) c.cur_dir; pure (ran c ret silent)
  run_cmd mkdir c = do ret ← cmd_mkdir lib c.nargs (word c 1) c.cur_dir; pure (ran c ret silent)
  run_cmd read c = do
    (ret, b) ← cmd_read lib malloc c.nargs (word c 1) (word c 2) (word c 3) c.cur_dir
    pure (ran c ret (string b))
  run_cmd write c = do
    ret ← cmd_write lib c.nargs (word c 1) (word c 2) (word c 3) c.cur_dir
    pure (ran c ret silent)
  run_cmd fsstat c = do (ret, o) ← cmd_fsstat c.nargs; pure (ran c ret o)
  run_cmd quit c = pure (record (ran c (pos 0) bye) { can_quit = true })

  -- `none` for a name that the table does not have.
  unfoldable pub handle_in :
      (table : List (List ℕ × Cmd × ℕ))
      → Context
      → (name : List ℕ) → (args : Option (List ℕ)) → M (Context × Option Ran)
  unfolding run_cmd
  handle_in [] c name args = pure (c, none)
  handle_in ((key, cmd, max_args) ∷ table) c name args = elim (same_name name key) [
    | true ↦ elim (parse_command max_args name args c) [
      | none ↦ stop
      | some c' ↦ do r ← run_cmd cmd c'; pure (record c' { cur_dir = r.cur_dir }, some r)
    ]
    | false ↦ handle_in table c name args
  ]

  unfoldable pub handle_command : Context → (name args : Option (List ℕ)) → M (Context × Option Ran)
  unfolding handle_in
  handle_command c none args = pure (c, none)
  handle_command c (some name) args = handle_in cmdtable c name args

  -- The line is cut at the first token and at the end of the line.
  unfoldable pub run_line : Context → (line : List ℕ) → M (Context × Option Ran)
  unfolding handle_command
  run_line c line = elim (strtok_r (some line) blanks none) [
    | none ↦ stop
    | some (cname, save) ↦ elim (strtok_r none line_ends save) [
      | none ↦ stop
      | some (pargs, save) ↦ handle_command c cname pargs
    ]
  ]

  abbrev pub is_comment : List ℕ → Bool
  is_comment [] = false
  is_comment (c ∷ line) = c == 35

  abbrev pub quits : Option Ran → Bool
  quits none = false
  quits (some r) = r.can_quit

  -- The loop of `main`, to the end of the input or `quit`: the results of the commands.
  unfoldable pub run_lines : (lines : List (List ℕ)) → Context → M (Context × List (Option Ran))
  unfolding run_line
  run_lines [] c = pure (c, [])
  run_lines (line ∷ lines) c = elim (is_comment line) [
    | true ↦ run_lines lines c
    | false ↦ run_line c line >>= λ (c', r). elim (quits r) [
      | true ↦ pure (c', r ∷ [])
      | false ↦ do (c'', rs) ← run_lines lines c'; pure (c'', r ∷ rs)
    ]
  ]

  -- `main` behind its arguments. The words of the context are not set at the start.
  unfoldable pub session : (lines : List (List ℕ)) → M (List (Option Ran))
  unfolding run_lines
  session lines = do
    ret ← testfs_init_super_block
    if same_int ret (pos 0)
        then (do
          root ← testfs_get_inode lib 0
          (c, rs) ← run_lines lines (record { nargs = 0; cmd = λ i. none; cur_dir = root })
          testfs_put_inode lib c.cur_dir
          testfs_close_super_block
          pure rs)
        else stop
