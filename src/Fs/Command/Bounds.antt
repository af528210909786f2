-- ===== src/Fs/Command/Bounds.antt =====
-- The array of words of a command: `parse_command` of fs/testfs.c stays in it.
use mathlib.Core.List.{append-nil, append_assoc}
use operating_systems_lab.Base.{
  ℕ, zero, suc, ◌+◌, ◌-◌, ◌<◌, ◌≤◌, ◌≡◌, refl, sym, true, false, subst, Option, none, some, List,
  [], ◌∷◌, ◌++◌, arith, length, Bool, length-append,
}
use operating_systems_lab.Fs.Command.{
  Context, blanks, line_ends, strtok_r, Cursor, parse_words, parse_rest, parse_command, bind,
}
use operating_systems_lab.Fs.Command.Words.{
  Blank, Surplus, nothing, whole, Line, full, all_blank, over, next, Surplus-nil, Token, no_token,
  token, Given, given_str, given_save, strtok_r-Token,
}
use operating_systems_lab.Fs.Command.Array.{
  Filled, put, set_word-in, put-Filled, add-Filled, Command, counted-Command,
}

-- Where the loops over the words are, with `s` to go on with.
record Parsed (all : List (List ℕ)) (dir limit : ℕ) (first : Bool) (s : List ℕ) (k : Cursor)
    : Type 0 where
  given : Given first s k.args k.save
  filled : Filled all dir k.c
  here : k.j ≡ length all
  bounded : k.j ≤ limit

-- The words that are read from `s`, behind those of `all`.
abbrev Reads :
    (all : List (List ℕ)) → (dir most : ℕ) → (List (List ℕ) → Type 0) → Option Context → Type 0
Reads all dir most shape r =
    (c : Context) × (ws : List (List ℕ)) × (r ≡ some c) × shape ws × Command (all ++ ws) dir most c

module _ {dir limit : ℕ} (small : limit < 7) where
  parse_rest-Command :
      (all : List (List ℕ)) (first : Bool) (s : List ℕ) (k : Cursor)
      → Parsed all dir limit first s k
      → Reads all dir (limit + 1) (Surplus s) (parse_rest k)
  unfolding parse_rest
  parse_rest-Command all first s k h = let (r, e, t) = strtok_r-Token line_ends h.given in go r e t
    where
      go :
          (r : Option (List ℕ) × Option (List ℕ))
          → strtok_r k.args line_ends k.save ≡ some r
          → Token line_ends s r
          → Reads all dir (limit + 1) (Surplus s) (parse_rest k)
      go _ e (no_token b) =
          let (c, eq, r) =
            counted-Command k.j (put k.j none k.c)
              (put-Filled h.filled k.j none (omega (arith, h.here))) h.here
              (omega (arith, h.bounded)) in
          (
            c,
            [],
            rw (e, set_word-in k.j none k.c (omega (arith, h.bounded, small))) eq,
            nothing b,
            subst (λ l. Command l dir (limit + 1) c) (sym (append-nil all)) r,
          )
      go _ e (token w rest t) =
          let (c, eq, r) =
            counted-Command (k.j + 1) (put k.j (some w) k.c) (add-Filled h.filled k.j w h.here)
              (omega (arith, h.here, length-append all (w ∷ []))) (omega (arith, h.bounded)) in
          (
            c,
            w ∷ [],
            rw (e, set_word-in k.j (some w) k.c (omega (arith, h.bounded, small))) eq,
            whole w rest t,
            r,
          )

  -- The first loop has found only blanks.
  only_blanks-Command :
      (n : ℕ) (all : List (List ℕ)) (first : Bool) (s : List ℕ) (j : ℕ)
      (args save : Option (List ℕ)) (c : Context)
      → Given first s args save
      → Filled all dir c
      → j ≡ length all
      → j ≤ limit
      → Blank blanks s
      → Reads all dir
          (limit + 1)
          (Line first (suc n) s)
          (parse_rest (record { j = j; args = args; save = some []; c = c }))
  only_blanks-Command n all _ _ j _ _ c (given_str s save) f is le b =
      let k : Cursor = record { j = j; args = some s; save = some []; c = c } in
      let (c', ws, eq, surplus, r) =
        parse_rest-Command all true s k
          (record { given = given_str s (some []); filled = f; here = is; bounded = le }) in
      (c', ws, eq, all_blank n s ws b surplus, r)
  only_blanks-Command n all _ _ j _ _ c (given_save s) f is le b =
      let k : Cursor = record { j = j; args = none; save = some []; c = c } in
      let (c', ws, eq, surplus, r) =
        parse_rest-Command all false [] k
          (record { given = given_save []; filled = f; here = is; bounded = le }) in
      (c', ws, eq, subst (Line false (suc n) s) (sym (Surplus-nil ws surplus)) (over n s b), r)

  parse_words-Command :
      (n : ℕ) (all : List (List ℕ)) (first : Bool) (s : List ℕ) (k : Cursor)
      → Parsed all dir limit first s k
      → k.j + n ≤ limit
      → Reads all dir (limit + 1) (Line first n s) (bind (parse_words n k) parse_rest)
  unfolding parse_words
  parse_words-Command zero all first s k h le =
      let (c, ws, eq, surplus, r) = parse_rest-Command all first s k h in
      (c, ws, eq, full first s ws surplus, r)
  parse_words-Command (suc n) all first s k h le =
      let (r, e, t) = strtok_r-Token blanks h.given in go (parse_words-Command n) r e t
    where
      goal : Option Cursor → Type 0
      goal o = Reads all dir (limit + 1) (Line first (suc n) s) (bind o parse_rest)

      go :
          ((all' : List (List ℕ)) (first' : Bool) (s' : List ℕ) (k' : Cursor)
            → Parsed all' dir limit first' s' k'
            → k'.j + n ≤ limit
            → Reads all' dir (limit + 1) (Line first' n s') (bind (parse_words n k') parse_rest))
          → (r : Option (List ℕ) × Option (List ℕ)) → strtok_r k.args blanks k.save ≡ some r
          → Token blanks s r
          → goal (parse_words (suc n) k)
      go onwards _ e (no_token b) =
          let step : parse_words (suc n) k
              ≡ some (record k { save = some []; c = put k.j none k.c }) =
            rw (e, set_word-in k.j none k.c (omega (arith, le, small))) refl in
          subst goal (sym step) (
            only_blanks-Command n all first s k.j k.args k.save (put k.j none k.c) h.given
              (put-Filled h.filled k.j none (omega (arith, h.here))) h.here h.bounded b)
      go onwards _ e (token w rest t) =
          let k' : Cursor = record {
            j = k.j + 1;
            args = none;
            save = some rest;
            c = put k.j (some w) k.c;
          } in
          let step : parse_words (suc n) k ≡ parse_words n k' =
            rw (e, set_word-in k.j (some w) k.c (omega (arith, le, small))) refl in
          let parsed : Parsed (all ++ w ∷ []) dir limit false rest k' = record {
            given = given_save rest;
            filled = add-Filled h.filled k.j w h.here;
            here = omega (arith, h.here, length-append all (w ∷ []));
            bounded = omega (arith, le);
          } in
          let (c, ws, eq, line, r) =
            onwards (all ++ w ∷ []) false rest k' parsed (omega (arith, le)) in
          subst goal (sym step) (
            c,
            w ∷ ws,
            eq,
            next first n s w rest ws t line,
            subst (λ l. Command l dir (limit + 1) c) (append_assoc all (w ∷ []) ws) r,
          )

-- For a command of one to `MAX_ARGS` words with a string behind its name, `parse_command` returns and
-- writes no element outside the array. The words are the name and those of the string: the first
-- `max_args - 1` words between blanks, and as one more word what is left of the line; where the string
-- is all blanks, it is itself what is left. The first elements of the array are these words, `nargs`
-- is their number, at most `max_args + 1`, the elements of an index above `nargs` are null pointers,
-- and the current directory is the same.
pub parse_command-Command :
    (max_args : ℕ) (name s : List ℕ) (c : Context)
    → 0 < max_args
    → max_args < 7
    → (c' : Context) × (ws : List (List ℕ)) × (parse_command max_args name (some s) c ≡ some c')
      × Line true (max_args - 1) s ws
      × Command (name ∷ ws) c.cur_dir (max_args + 1) c'
unfolding parse_command
parse_command-Command max_args name s c 0<m small =
    let start : Cursor = record { j = 1; args = some s; save = none; c = put 0 (some name) c } in
    let parsed : Parsed (name ∷ []) c.cur_dir max_args true s start = record {
      given = given_str s none;
      filled = record { filled = λ i lt. ground (arith, lt); same_dir = refl };
      here = refl;
      bounded = 0<m;
    } in
    let (c', ws, eq, line, r) =
      parse_words-Command small (max_args - 1) (name ∷ []) true s start parsed
        (omega (arith, 0<m)) in
    (c', ws, rw (set_word-in 0 (some name) c (omega arith)) eq, line, r)
