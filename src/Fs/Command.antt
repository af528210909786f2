-- ===== src/Fs/Command.antt =====
-- fs/testfs.c: the words of a command, in `struct context`. A string is the list of its bytes before the
-- final 0; `none` is a null pointer.
pub mod Words
pub mod Array
pub mod Bounds
pub mod Run
pub mod Dispatch
mod Tests
use operating_systems_lab.Base.{
  ℕ, zero, suc, ◌+◌, ◌-◌, Bool, true, false, ◌||◌, Option, none, some, List, [], ◌∷◌, ltb, ◌==◌,
  if◌then◌else◌,
}

-- `struct context`. A write to `cmd` behind its `MAX_ARGS + 1` elements stops.
pub record Context : Type 0 where
  pub nargs : ℕ
  pub cmd : ℕ → Option (List ℕ)
  pub cur_dir : ℕ

abbrev pub max_args_limit : ℕ
max_args_limit = 6

unfoldable pub set_word : (j : ℕ) → Option (List ℕ) → Context → Option Context
set_word j w c =
    if ltb j (max_args_limit + 1)
    then some (record c { cmd = λ i. if i == j then w else c.cmd i })
    else none

abbrev pub is_in : List ℕ → ℕ → Bool
is_in [] c = false
is_in (d ∷ ds) c = (c == d) || is_in ds c

-- `" \t\r\n"` and `"\r\n"`
abbrev pub blanks : List ℕ
blanks = 32 ∷ 9 ∷ 13 ∷ 10 ∷ []

abbrev pub line_ends : List ℕ
line_ends = 13 ∷ 10 ∷ []

-- What `strtok_r` of the C library gives: the first longest part of the string without delimiters, and
-- what is behind the delimiter that ends it.
abbrev pub skip : (delim : List ℕ) → List ℕ → List ℕ
skip ds [] = []
skip ds (c ∷ s) = if is_in ds c then skip ds s else c ∷ s

abbrev pub token_part : (delim : List ℕ) → List ℕ → List ℕ
token_part ds [] = []
token_part ds (c ∷ s) = if is_in ds c then [] else c ∷ token_part ds s

abbrev pub token_rest : (delim : List ℕ) → List ℕ → List ℕ
token_rest ds [] = []
token_rest ds (c ∷ s) = if is_in ds c then s else token_rest ds s

unfoldable pub cut : (delim : List ℕ) → List ℕ → Option (List ℕ) × Option (List ℕ)
cut ds [] = (none, some [])
cut ds (c ∷ s) = (some (c ∷ token_part ds s), some (token_rest ds s))

-- The token and `*saveptr` behind the call. With two null pointers the call is undefined.
unfoldable pub strtok_r :
    (str : Option (List ℕ))
    → (delim : List ℕ) → (save : Option (List ℕ)) → Option (Option (List ℕ) × Option (List ℕ))
strtok_r (some s) ds save = some (cut ds (skip ds s))
strtok_r none ds (some s) = some (cut ds (skip ds s))
strtok_r none ds none = none

abbrev pub bind {ℓ κ} : {A : Type ℓ} {B : Type κ} → Option A → (A → Option B) → Option B
bind none f = none
bind (some a) f = f a

-- Where the loops of `parse_command` are.
pub record Cursor : Type 0 where
  pub j : ℕ
  pub args : Option (List ℕ)
  pub save : Option (List ℕ)
  pub c : Context

-- The first loop, with `n` as `max_args - j`. A call with a string that has no token leaves `args`.
unfoldable pub parse_words : (n : ℕ) → Cursor → Option Cursor
parse_words zero k = some k
parse_words (suc n) k = bind (strtok_r k.args blanks k.save) λ (w, save).
    bind (set_word k.j w k.c) λ c. elim w [
      | none ↦ some (record k { save = save; c = c })
      | some w ↦ parse_words n (record { j = k.j + 1; args = none; save = save; c = c })
    ]

-- The last loop, with `n` as `MAX_ARGS + 1 - j`
unfoldable pub clear_words : (n j : ℕ) → Context → Option Context
clear_words zero j c = some c
clear_words (suc n) j c = bind (set_word j none c) λ c. clear_words n (j + 1) c

unfoldable pub counted : (j : ℕ) → Context → Option Context
counted j c = clear_words (max_args_limit - j) (j + 1) (record c { nargs = j })

-- The word behind the loop, up to the end of the line, and the rest.
unfoldable pub parse_rest : Cursor → Option Context
unfolding counted
parse_rest k = bind (strtok_r k.args line_ends k.save) λ (w, save).
    bind (set_word k.j w k.c) λ c. elim w [ none ↦ counted k.j c | some w ↦ counted (k.j + 1) c ]

unfoldable pub parse_command :
    (max_args : ℕ) → (name : List ℕ) → (args : Option (List ℕ)) → Context → Option Context
unfolding parse_words parse_rest
parse_command max_args name args c = bind (set_word 0 (some name) c) λ c.
    bind (parse_words (max_args - 1) (record { j = 1; args = args; save = none; c = c })) parse_rest
