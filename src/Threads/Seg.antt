-- ===== src/Threads/Seg.antt =====
-- Segments of the `next` pointers, and how the writes of the queue code change them.
use operating_systems_lab.Base.{
  ℕ, ◌≡◌, refl, Bool, true, false, Option, none, some, List, [], ◌∷◌, ◌++◌, ◌==◌, ==_iff, inl, inr,
  Bool-cases, sym, ap, subst, arith,
}
use operating_systems_lab.Threads.Spec.{has, Distinct}

abbrev pub Next : Type 0
Next = ℕ → Option ℕ

-- From `p` the pointers lead through `xs` to `r`.
abbrev pub Seg : Next → (p : Option ℕ) → List ℕ → (r : Option ℕ) → Type 0
Seg next p [] r = p ≡ r
Seg next p (x ∷ xs) r = (p ≡ some x) × Seg next (next x) xs r

abbrev pub last : ℕ → List ℕ → ℕ
last x [] = x
last x (y ∷ ys) = last y ys

pub has-last : (x : ℕ) (xs : List ℕ) → has (last x xs) (x ∷ xs) ≡ true
has-last x [] = ground arith
has-last x (y ∷ ys) = ground (arith, has-last y ys)

pub last-snoc : (x : ℕ) (xs : List ℕ) (y : ℕ) → last x (xs ++ y ∷ []) ≡ y
last-snoc x [] y = refl
last-snoc x (z ∷ zs) y = last-snoc z zs y

pub last-append : (x : ℕ) (xs : List ℕ) (y : ℕ) (ys : List ℕ) → last x (xs ++ y ∷ ys) ≡ last y ys
last-append x [] y ys = refl
last-append x (z ∷ zs) y ys = last-append z zs y ys

pub has_eq : (y z : ℕ) (xs : List ℕ) (b : Bool) → (y == z) ≡ true → has y xs ≡ b → has z xs ≡ b
has_eq y z xs b e h = subst (λ w. has w xs ≡ b) ((==_iff y z).0 e) h

module _ (next next' : Next) where
  pub Seg-frame :
      (p : Option ℕ) (xs : List ℕ) (r : Option ℕ)
      → Seg next p xs r
      → ((x : ℕ) → has x xs ≡ true → next' x ≡ next x)
      → Seg next' p xs r
  Seg-frame p [] r s same = s
  Seg-frame p (x ∷ xs) r s same = (
    s.0,
    subst (λ q. Seg next' q xs r) (sym (same x (ground arith)))
        (Seg-frame (next x) xs r s.1 (λ y h. same y (ground arith))),
  )

  -- The last node of a segment is given another successor.
  pub Seg-relink :
      (p : Option ℕ) (x : ℕ) (xs : List ℕ) (r r' : Option ℕ)
      → Distinct (x ∷ xs)
      → Seg next p (x ∷ xs) r
      → next' (last x xs) ≡ r'
      → ((y : ℕ) → has y (x ∷ xs) ≡ true → (y == last x xs) ≡ false → next' y ≡ next y)
      → Seg next' p (x ∷ xs) r'
  Seg-relink p x [] r r' d s e same = (s.0, e)
  Seg-relink p x (y ∷ ys) r r' d s e same =
      let ne : (x == last y ys) ≡ false = elim (Bool-cases (x == last y ys)) [
        | inr n ↦ n
        | inl n ↦ ground (arith, has_eq x (last y ys) (y ∷ ys) false n d.0, has-last y ys)
      ] in
      let kept : next' x ≡ next x = same x (ground arith) ne in
      (
        s.0,
        subst (λ q. Seg next' q (y ∷ ys) r') (sym kept)
            (Seg-relink (next x) y ys r r' d.1 s.1 e (λ z h n. same z (ground arith) n)),
      )

module _ (next : Next) where
  pub Seg-append :
      (p q r : Option ℕ) (xs ys : List ℕ)
      → Seg next p xs q
      → Seg next q ys r
      → Seg next p (xs ++ ys) r
  Seg-append p q r [] ys s t = subst (λ p. Seg next p ys r) (sym s) t
  Seg-append p q r (x ∷ xs) ys s t = (s.0, Seg-append (next x) q r xs ys s.1 t)

  pub Seg-split :
      (p r : Option ℕ) (xs ys : List ℕ)
      → Seg next p (xs ++ ys) r
      → (q : Option ℕ) × Seg next p xs q × Seg next q ys r
  Seg-split p r [] ys s = (p, refl, s)
  Seg-split p r (x ∷ xs) ys s = let (q, t, u) = Seg-split (next x) r xs ys s.1 in (q, (s.0, t), u)

-- A queue's tail pointer; of an empty queue it says nothing.
abbrev pub IsTail : Option ℕ → List ℕ → Type 0
IsTail t [] = Unit
IsTail t (x ∷ xs) = t ≡ some (last x xs)

pub IsTail-snoc : (xs : List ℕ) (y : ℕ) → IsTail (some y) (xs ++ y ∷ [])
IsTail-snoc [] y = refl
IsTail-snoc (x ∷ xs) y = ap some (sym (last-snoc x xs y))

-- `tail->next = p` on a queue that goes on with `ys`.
pub Seg-join :
    (next next' : Next) (h p : Option ℕ) (x : ℕ) (xs ys : List ℕ)
    → Distinct (x ∷ xs)
    → Seg next h (x ∷ xs) none
    → Seg next' p ys none
    → next' (last x xs) ≡ p
    → ((y : ℕ) → has y (x ∷ xs) ≡ true → (y == last x xs) ≡ false → next' y ≡ next y)
    → Seg next' h (x ∷ xs ++ ys) none
Seg-join next next' h p x xs ys d s u e same =
    Seg-append next' h p none (x ∷ xs) ys (Seg-relink next next' h x xs none p d s e same) u

-- `next'` is `next` where `i` has been put behind `t`.
pub record Appended (next next' : Next) (t i : ℕ) : Type 0 where
  pub at_new : next' i ≡ none
  pub at_tail : (t == i) ≡ false → next' t ≡ some i
  pub others : (y : ℕ) → (i == y) ≡ false → (t == y) ≡ false → next' y ≡ next y

pub ne_of_has : (y z : ℕ) (xs : List ℕ) → has y xs ≡ false → has z xs ≡ true → (y == z) ≡ false
ne_of_has y z xs hy hz = elim (Bool-cases (y == z)) [
  | inl e ↦ ground (arith, has_eq y z xs false e hy)
  | inr e ↦ e
]

module _ (next next' : Next) where
  pub Seg-Appended :
      (h : Option ℕ) (x : ℕ) (xs : List ℕ) (i : ℕ)
      → Distinct (x ∷ xs)
      → Seg next h (x ∷ xs) none
      → has i (x ∷ xs) ≡ false
      → Appended next next' (last x xs) i
      → Seg next' h (x ∷ xs ++ i ∷ []) none
  Seg-Appended h x xs i d seg new app =
      Seg-join next next' h (some i) x xs (i ∷ []) d seg (refl, app.at_new)
        (app.at_tail (ground (arith, ne_of_has i (last x xs) (x ∷ xs) new (has-last x xs))))
        (λ y hy ne. app.others y (ne_of_has i y (x ∷ xs) new hy) (ground arith))
