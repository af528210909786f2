-- ===== src/Fs/Command/Dispatch.antt =====
-- Which command a name runs, and with which words: `handle_command` of fs/testfs.c.
use mathlib.Core.Bool.{false≢true}
use operating_systems_lab.Base.{
  ℕ, ◌+◌, ◌<◌, ◌≡◌, refl, inl, inr, Bool, true, false, Bool-cases, Option, none, some, List, [],
  ◌∷◌, same_name, ltb, ltb→lt, ◌&&◌, sym, subst, ◌-◌,
}
use operating_systems_lab.Fs.State.{Fs, M, pure, ◌>>=◌}
use operating_systems_lab.Fs.Inode.{Hlist}
use operating_systems_lab.Fs.Command.{Context, parse_command}
use operating_systems_lab.Fs.Command.Words.{Line}
use operating_systems_lab.Fs.Command.Array.{Command}
use operating_systems_lab.Fs.Command.Bounds.{parse_command-Command}
use operating_systems_lab.Fs.Command.Run.{Cmd, Ran, cmdtable, run_cmd, handle_in, handle_command}

abbrev pub Table : Type 0
Table = List (List ℕ × Cmd × ℕ)

-- Each command of a table takes one word to `MAX_ARGS` words.
data Fits : Table → Type 0 where
  empty : Fits []
  fits :
      (key : List ℕ) (cmd : Cmd) (m : ℕ) (table : Table)
      → 0 < m
      → m < 7
      → Fits table
      → Fits ((key, cmd, m) ∷ table)

-- The first entry of a table whose name is the given one.
pub data First (name : List ℕ) (cmd : Cmd) (m : ℕ) : Table → Type 0 where
  here :
      (key : List ℕ) (table : Table)
      → same_name name key ≡ true
      → First name cmd m ((key, cmd, m) ∷ table)
  there :
      (key : List ℕ) (cmd' : Cmd) (m' : ℕ) (table : Table)
      → same_name name key ≡ false
      → First name cmd m table
      → First name cmd m ((key, cmd', m') ∷ table)

-- No entry has the name.
pub data Absent (name : List ℕ) : Table → Type 0 where
  at_end : Absent name []
  other :
      (key : List ℕ) (cmd : Cmd) (m : ℕ) (table : Table)
      → same_name name key ≡ false
      → Absent name table
      → Absent name ((key, cmd, m) ∷ table)

-- The test of an entry's number of words
abbrev all_fit : Table → Bool
all_fit [] = true
all_fit ((key, cmd, m) ∷ table) = ltb 0 m && ltb m 7 && all_fit table

all_fit-Fits : (table : Table) → all_fit table ≡ true → Fits table
all_fit-Fits [] h = empty
all_fit-Fits ((key, cmd, m) ∷ table) h =
    let (low, high, rest) = both (ltb 0 m) (ltb m 7) (all_fit table) h in
    fits key cmd m table (ltb→lt 0 m low) (ltb→lt m 7 high) (all_fit-Fits table rest)
  where
    both : (a b c : Bool) → (a && b && c) ≡ true → (a ≡ true) × (b ≡ true) × (c ≡ true)
    both true true true e = (refl, refl, refl)
    both true true false e = (refl, refl, e)
    both true false c e = (refl, e, absurd (false≢true e))
    both false b c e = (e, absurd (false≢true e), absurd (false≢true e))

cmdtable-Fits : Fits cmdtable
cmdtable-Fits = all_fit-Fits cmdtable refl

module _ (lib : Hlist) (malloc : ℕ → Bool) (depth : ℕ) where
  -- The command is run on the words, and can change the directory.
  abbrev pub runs : Cmd → Context → M (Context × Option Ran)
  runs cmd c =
      run_cmd lib malloc depth cmd c >>= λ r. pure (record c { cur_dir = r.cur_dir }, some r)

  -- What is done with a name: nothing, where the table does not have it, or its command is run on
  -- a context that the name and the words of the string behind it fill.
  pub data Dispatches (c : Context) (name args : List ℕ) (s : Fs) (table : Table)
      : Option ((Context × Option Ran) × Fs) → Type 0 where
    unknown : Absent name table → Dispatches c name args s table (some ((c, none), s))
    known :
        (cmd : Cmd) (m : ℕ) (c' : Context) (ws : List (List ℕ))
        → First name cmd m table
        → Line true (m - 1) args ws
        → Command (name ∷ ws) c.cur_dir (m + 1) c'
        → Dispatches c name args s table (runs cmd c' s)

  handle_in-hit :
      (table : Table) (key : List ℕ) (cmd : Cmd) (m : ℕ) (c c' : Context) (name args : List ℕ)
      (s : Fs)
      → same_name name key ≡ true
      → parse_command m name (some args) c ≡ some c'
      → handle_in lib malloc depth ((key, cmd, m) ∷ table) c name (some args) s ≡ runs cmd c' s
  unfolding handle_in
  handle_in-hit table key cmd m c c' name args s e eq = rw (e, eq, handle_in) refl

  handle_in-miss :
      (table : Table) (key : List ℕ) (cmd : Cmd) (m : ℕ) (c : Context) (name args : List ℕ) (s : Fs)
      → same_name name key ≡ false
      → handle_in lib malloc depth ((key, cmd, m) ∷ table) c name (some args) s
        ≡ handle_in lib malloc depth table c name (some args) s
  unfolding handle_in
  handle_in-miss table key cmd m c name args s e = rw (e, handle_in) refl

  handle_in-Dispatches :
      (table : Table) (c : Context) (name args : List ℕ) (s : Fs)
      → Fits table
      → Dispatches c name args s table (handle_in lib malloc depth table c name (some args) s)
  unfolding handle_in
  handle_in-Dispatches _ c name args s empty = unknown at_end
  handle_in-Dispatches _ c name args s (fits key cmd m table low high h) =
      elim (Bool-cases (same_name name key)) [
        | inl e ↦
            let (c', ws, eq, line, filled) = parse_command-Command m name args c low high in
            subst (Dispatches c name args s ((key, cmd, m) ∷ table))
              (sym (handle_in-hit table key cmd m c c' name args s e eq))
              (known cmd m c' ws (here key table e) line filled)
        | inr e ↦
            subst (Dispatches c name args s ((key, cmd, m) ∷ table))
              (sym (handle_in-miss table key cmd m c name args s e))
              (further (handle_in-Dispatches table c name args s h) e)
      ]
    where
      further :
          {r : Option ((Context × Option Ran) × Fs)}
          → Dispatches c name args s table r
          → same_name name key ≡ false
          → Dispatches c name args s ((key, cmd, m) ∷ table) r
      further (unknown a) e = unknown (other key cmd m table e a)
      further (known cmd' m' c' ws f line filled) e =
          known cmd' m' c' ws (there key cmd m table e f) line filled

  -- Given a name and a string behind it, `handle_command` does nothing for a name that `cmdtable` does
  -- not have, and runs the command of the first entry with the name on a context in which the name and
  -- the words of the string (those that `parse_command-Command` describes, for the entry's `max_args`)
  -- are filled in, in bounds, with at most one word more than `max_args`.
  pub handle_command-Dispatches :
      (c : Context) (name args : List ℕ) (s : Fs)
      → Dispatches c name args s cmdtable
          (handle_command lib malloc depth c (some name) (some args) s)
  unfolding handle_command
  handle_command-Dispatches c name args s =
      handle_in-Dispatches cmdtable c name args s cmdtable-Fits
