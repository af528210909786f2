-- ===== src/Fs/Command/Array.antt =====
-- The array of words of fs/testfs.c: a write in it, and the end of `parse_command` that clears it.
use operating_systems_lab.Base.{
  ◌∙◌, inl, inr, Bool-cases, ℕ, zero, suc, ◌+◌, ◌-◌, ◌<◌, ◌≤◌, ◌≡◌, refl, sym, ap, true, false,
  subst, Option, none, some, List, [], ◌∷◌, ◌++◌, arith, ltb, ◌==◌, if◌then◌else◌, length,
  length-append, get_elem?, get_elem?-append, get_elem?-last,
}
use operating_systems_lab.Fs.Command.{Context, set_word, clear_words, counted}

-- The array holds the words `all` from its start on.
pub record Filled (all : List (List ℕ)) (dir : ℕ) (c : Context) : Type 0 where
  pub filled : (i : ℕ) → i < length all → c.cmd i ≡ get_elem? all i
  pub same_dir : c.cur_dir ≡ dir

pub set_word-in :
    (j : ℕ) (w : Option (List ℕ)) (c : Context)
    → j < 7
    → set_word j w c ≡ some (record c { cmd = λ i. if i == j then w else c.cmd i })
unfolding set_word
set_word-in j w c h = let e : ltb j 7 ≡ true = ground (arith, h) in rw e refl

-- `cmd` with a word written.
abbrev pub put : (k : ℕ) → Option (List ℕ) → Context → Context
put k w c = record c { cmd = λ i. if i == k then w else c.cmd i }

put-other :
    (k : ℕ) (w : Option (List ℕ)) (c : Context) (i : ℕ)
    → (i == k) ≡ false
    → (put k w c).cmd i ≡ c.cmd i
put-other k w c i e = rw e refl

put-same : (k : ℕ) (w : Option (List ℕ)) (c : Context) → (put k w c).cmd k ≡ w
put-same k w c = rw (same k) refl
  where
    same : (k : ℕ) → (k == k) ≡ true
    same k = ground arith

module _ {all : List (List ℕ)} {dir : ℕ} {c : Context} (f : Filled all dir c) where
  pub put-Filled : (k : ℕ) (w : Option (List ℕ)) → length all ≤ k → Filled all dir (put k w c)
  put-Filled k w h = record {
    filled = λ i lt. put-other k w c i (ground (arith, h, lt)) ∙ f.filled i lt;
    same_dir = f.same_dir;
  }

  pub add-Filled :
      (j : ℕ) (w : List ℕ) → j ≡ length all → Filled (all ++ w ∷ []) dir (put j (some w) c)
  add-Filled j w is = record {
    filled = λ i lt. elim (Bool-cases (i == j)) [
      | inl e ↦
          let same : i ≡ length all = ground (arith, e, is) in
          rw (e) (sym (ap (get_elem? (all ++ w ∷ [])) same ∙ get_elem?-last all w))
      | inr e ↦
          let before : i < length all = ground (arith, e, is, lt, length-append all (w ∷ [])) in
          put-other j (some w) c i e
          ∙ f.filled i before
          ∙ sym (get_elem?-append all (w ∷ []) i before)
    ];
    same_dir = f.same_dir;
  }

-- The words from `j` on are null pointers, and the others as before.
record Cleared (j : ℕ) (c c' : Context) : Type 0 where
  kept : (i : ℕ) → i < j → c'.cmd i ≡ c.cmd i
  cleared : (i : ℕ) → j ≤ i → i < 7 → c'.cmd i ≡ none
  same_nargs : c'.nargs ≡ c.nargs
  same_dir : c'.cur_dir ≡ c.cur_dir

clear_words-Cleared :
    (n j : ℕ) (c : Context)
    → n ≡ 7 - j
    → (c' : Context) × (clear_words n j c ≡ some c') × Cleared j c c'
unfolding clear_words
clear_words-Cleared zero j c h = (
  c,
  refl,
  record {
    kept = λ i lt. refl;
    cleared = λ i ge lt. absurd (omega (arith, h, ge, lt));
    same_nargs = refl;
    same_dir = refl;
  },
)
clear_words-Cleared (suc n) j c h =
    let (c', e, r) = clear_words-Cleared n (j + 1) (put j none c) (omega (arith, h)) in
    (
      c',
      rw (set_word-in j none c (omega (arith, h))) e,
      record {
        kept = λ i lt. r.kept i (omega (arith, lt)) ∙ put-other j none c i (ground (arith, lt));
        cleared = λ i ge lt. elim (Bool-cases (i == j)) [
          | inl q ↦ r.kept i (ground (arith, q)) ∙ rw q refl
          | inr q ↦ r.cleared i (ground (arith, ge, q)) lt
        ];
        same_nargs = r.same_nargs;
        same_dir = r.same_dir;
      },
    )

-- The words of a command, in the array: the element behind them is left out.
pub record Command (all : List (List ℕ)) (dir most : ℕ) (c : Context) : Type 0 where
  pub count : c.nargs ≡ length all
  pub words : (i : ℕ) → i < length all → c.cmd i ≡ get_elem? all i
  pub nulls : (i : ℕ) → c.nargs < i → i < 7 → c.cmd i ≡ none
  pub bounded : c.nargs ≤ most
  pub same_dir : c.cur_dir ≡ dir

pub counted-Command :
    {all : List (List ℕ)} {dir most : ℕ} (j : ℕ) (c : Context)
    → Filled all dir c
    → j ≡ length all
    → j ≤ most
    → (c' : Context) × (counted j c ≡ some c') × Command all dir most c'
unfolding counted
counted-Command {all} {dir} {most} j c f is le =
    let (c', e, r) = clear_words-Cleared (6 - j) (j + 1) (record c { nargs = j }) (omega arith) in
    (
      c',
      e,
      record {
        count = r.same_nargs ∙ is;
        words = λ i lt. r.kept i (omega (arith, lt, is)) ∙ f.filled i lt;
        nulls = λ i lt l7. r.cleared i (omega (arith, subst (λ m. m < i) r.same_nargs lt)) l7;
        bounded = subst (λ m. m ≤ most) (sym r.same_nargs) le;
        same_dir = r.same_dir ∙ f.same_dir;
      },
    )
