-- ===== src/Threads/Refine/Find.antt =====
-- The search of the ready queue: it ends, and finds a thread exactly if it is there.
use operating_systems_lab.Base.{
  ℕ, zero, suc, ◌+◌, ◌≤◌, ◌<◌, ◌≡◌, refl, sym, ap, subst, ◌∙◌, true, false, Option, none, some,
  List, [], ◌∷◌, ◌++◌, length, ◌==◌, ==_iff, inl, inr, Bool-cases, arith,
}
use operating_systems_lab.Threads.State.{max_threads, State}
use operating_systems_lab.Threads.Sched.{Search, found, absent, endless, find_ready}
use operating_systems_lab.Threads.Spec.{Threads, is_free, has, Distinct, erase}
use operating_systems_lab.Threads.Spec.WellFormed.{has-erase, has-append, Distinct-erase}
use operating_systems_lab.Threads.Seg.{Seg, last, last-snoc}
use operating_systems_lab.Threads.Refine.{next_of, Represents}
use mathlib.Core.List.{append_assoc}

length-erase : (x : ℕ) (xs : List ℕ) → length xs ≤ length (erase x xs) + 1
length-erase x [] = omega arith
length-erase x (y ∷ ys) = ground (arith, length-erase x ys)

-- Distinct numbers below `n` are at most `n`.
pub length-le_of_Distinct :
    (n : ℕ) (xs : List ℕ) → Distinct xs → ((x : ℕ) → has x xs ≡ true → x < n) → length xs ≤ n
length-le_of_Distinct n [] d h = omega arith
length-le_of_Distinct zero (x ∷ xs) d h = absurd (ground (arith, h x))
length-le_of_Distinct (suc n) (x ∷ xs) d h =
    let rest = erase n (x ∷ xs) in
    let ih =
      length-le_of_Distinct n rest (Distinct-erase n (x ∷ xs) d)
        (λ y hy. ground (arith, h y, has-erase y n (x ∷ xs) d)) in
    omega (arith, length-erase n (x ∷ xs))

-- The node before the one that is looked at.
abbrev pub IsPre : Option ℕ → List ℕ → Type 0
IsPre pre [] = pre ≡ none
IsPre pre (x ∷ xs) = pre ≡ some (last x xs)

IsPre-snoc : (xs : List ℕ) (y : ℕ) → IsPre (some y) (xs ++ y ∷ [])
IsPre-snoc [] y = refl
IsPre-snoc (x ∷ xs) y = ap some (sym (last-snoc x xs y))

abbrev pub Searched : ℕ → List ℕ → Search → Type 0
Searched want xs (found pre t) =
    (ls rs : List ℕ) × (xs ≡ ls ++ t ∷ rs) × (has t ls ≡ false) × IsPre pre ls × (t ≡ want)
Searched want xs absent = has want xs ≡ false
Searched want xs endless = ⊥

module _ (s : State) (want : ℕ) where
  find_ready-from :
      (fuel : ℕ) (pre p : Option ℕ) (done ys xs : List ℕ)
      → length ys ≤ fuel
      → ((y : ℕ) → has y ys ≡ true → (s.tcb y).index ≡ y)
      → xs ≡ done ++ ys
      → has want done ≡ false
      → IsPre pre done
      → Seg (next_of s) p ys none
      → Searched want xs (find_ready s want fuel pre p)
  unfolding find_ready
  find_ready-from fuel pre p done [] xs len index e new is seg =
      let miss : has want xs ≡ false = ground (arith, e, has-append want done []) in
      subst (λ q. Searched want xs (find_ready s want fuel pre q)) (sym seg) miss
  find_ready-from zero pre p done (y ∷ ys) xs len index e new is seg = absurd (omega arith)
  find_ready-from (suc n) pre p done (y ∷ ys) xs len index e new is seg =
      let at_y : (s.tcb y).index ≡ y = index y (ground arith) in
      let go : Searched want xs (find_ready s want (suc n) pre (some y)) =
        elim (Bool-cases ((s.tcb y).index == want)) [
          | inl hit ↦
              let t : y ≡ want = sym at_y ∙ (==_iff _ _).0 hit in
              rw (hit, Searched) (done, ys, e, rw t new, is, t)
          | inr miss ↦
              rw (miss, Searched)
                (find_ready-from n (some y) (s.tcb y).next (done ++ y ∷ []) ys xs (omega arith)
                  (λ z h. index z (ground arith)) (e ∙ sym (append_assoc done (y ∷ []) ys))
                  (ground (arith, has-append want done (y ∷ []))) (IsPre-snoc done y) seg.1)
        ] in
      subst (λ q. Searched want xs (find_ready s want (suc n) pre q)) (sym seg.0) go

-- In a state that stands for `a` the search from the head of the ready queue ends within its fuel:
-- it finds the thread and the node before it, or the thread is not ready.
pub find_ready-Searched :
    {a : Threads} {s : State} (want : ℕ)
    → Represents a s
    → Searched want a.ready (find_ready s want max_threads none s.ready.head)
find_ready-Searched {a} {s} want rep =
    let in_use : (y : ℕ) → has y a.ready ≡ true → is_free (a.place y) ≡ false =
      λ y h. ground (arith, rep.wf.ready_place y) in
    find_ready-from s want max_threads none s.ready.head [] a.ready a.ready
      (length-le_of_Distinct max_threads a.ready rep.wf.ready_distinct
        (λ y h. rep.bounded y (in_use y h)))
      (λ y h. rep.index y (in_use y h)) refl refl refl rep.ready_seg
