-- ===== src/Fs/Command/Words.antt =====
-- The words of a line, as `strtok_r` and the two loops of `parse_command` of fs/testfs.c take them.
use operating_systems_lab.Base.{
  ℕ, zero, suc, ◌≡◌, refl, Bool, true, false, inl, inr, Bool-cases, Option, none, some, List, [],
  ◌∷◌,
}
use operating_systems_lab.Fs.Command.{
  is_in, blanks, line_ends, skip, token_part, token_rest, cut, strtok_r,
}

-- A string of delimiters.
pub data Blank (ds : List ℕ) : List ℕ → Type 0 where
  no_more : Blank ds []
  delimiter : (d : ℕ) (s : List ℕ) → is_in ds d ≡ true → Blank ds s → Blank ds (d ∷ s)

-- A string goes on with the letters `w`, up to its end or to a delimiter with `rest` behind it.
pub data Letters (ds : List ℕ) : (s w rest : List ℕ) → Type 0 where
  at_end : Letters ds [] [] []
  ended : (d : ℕ) (rest : List ℕ) → is_in ds d ≡ true → Letters ds (d ∷ rest) [] rest
  letter :
      (c : ℕ) (s w rest : List ℕ)
      → is_in ds c ≡ false
      → Letters ds s w rest
      → Letters ds (c ∷ s) (c ∷ w) rest

-- `w`, which is not empty, is the first word of a string, and `rest` what is behind the delimiter that
-- ends it.
pub data Word (ds : List ℕ) : (s w rest : List ℕ) → Type 0 where
  word :
      (c : ℕ) (s w rest : List ℕ)
      → is_in ds c ≡ false
      → Letters ds s w rest
      → Word ds (c ∷ s) (c ∷ w) rest
  behind :
      (d : ℕ) (s w rest : List ℕ) → is_in ds d ≡ true → Word ds s w rest → Word ds (d ∷ s) w rest

-- What is left of the line is one word at most, blanks and all.
pub data Surplus (s : List ℕ) : List (List ℕ) → Type 0 where
  nothing : Blank line_ends s → Surplus s []
  whole : (w rest : List ℕ) → Word line_ends s w rest → Surplus s (w ∷ [])

-- The words of a string: up to `n` between blanks, and one more for what is left of the line. Where
-- the whole string behind the name is blank, it is what is left.
pub data Line : (first : Bool) (n : ℕ) → List ℕ → List (List ℕ) → Type 0 where
  full : (first : Bool) (s : List ℕ) (ws : List (List ℕ)) → Surplus s ws → Line first zero s ws
  all_blank :
      (n : ℕ) (s : List ℕ) (ws : List (List ℕ))
      → Blank blanks s
      → Surplus s ws
      → Line true (suc n) s ws
  over : (n : ℕ) (s : List ℕ) → Blank blanks s → Line false (suc n) s []
  next :
      (first : Bool) (n : ℕ) (s w rest : List ℕ) (ws : List (List ℕ))
      → Word blanks s w rest
      → Line false n rest ws
      → Line first (suc n) s (w ∷ ws)

pub Surplus-nil : (ws : List (List ℕ)) → Surplus [] ws → ws ≡ []
Surplus-nil _ (nothing h) = refl
Surplus-nil _ (whole w rest h) = elim h [ ]

-- What `strtok_r` gives on a string.
pub data Token (ds s : List ℕ) : Option (List ℕ) × Option (List ℕ) → Type 0 where
  no_token : Blank ds s → Token ds s (none, some [])
  token : (w rest : List ℕ) → Word ds s w rest → Token ds s (some w, some rest)

token_part-Letters : (ds s : List ℕ) → Letters ds s (token_part ds s) (token_rest ds s)
token_part-Letters ds [] = at_end
token_part-Letters ds (c ∷ s) = elim (Bool-cases (is_in ds c)) [
  | inl e ↦ rw e (ended c s e)
  | inr e ↦ rw e (letter c s _ _ e (token_part-Letters ds s))
]

cut-Token : (ds s : List ℕ) → Token ds s (cut ds (skip ds s))
unfolding cut
cut-Token ds [] = no_token no_more
cut-Token ds (c ∷ s) = elim (Bool-cases (is_in ds c)) [
  | inl e ↦ rw e (after e (cut-Token ds s))
  | inr e ↦ rw e (token _ _ (word c s _ _ e (token_part-Letters ds s)))
]
  where
    after :
        is_in ds c ≡ true
        → {r : Option (List ℕ) × Option (List ℕ)} → Token ds s r
        → Token ds (c ∷ s) r
    after e (no_token b) = no_token (delimiter c s e b)
    after e (token w rest h) = token w rest (behind c s w rest e h)

-- The string to go on with, by the arguments of `strtok_r`; `true` for the whole one.
pub data Given : Bool → List ℕ → Option (List ℕ) → Option (List ℕ) → Type 0 where
  given_str : (s : List ℕ) (save : Option (List ℕ)) → Given true s (some s) save
  given_save : (s : List ℕ) → Given false s none (some s)

pub strtok_r-Token :
    (ds : List ℕ) {first : Bool} {s : List ℕ} {args save : Option (List ℕ)}
    → Given first s args save
    → (r : Option (List ℕ) × Option (List ℕ)) × (strtok_r args ds save ≡ some r) × Token ds s r
unfolding strtok_r
strtok_r-Token ds (given_str s save) = (_, refl, cut-Token ds s)
strtok_r-Token ds (given_save s) = (_, refl, cut-Token ds s)
