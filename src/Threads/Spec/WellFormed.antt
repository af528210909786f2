-- ===== src/Threads/Spec/WellFormed.antt =====
-- Every operation on the lists keeps each thread in one queue, once.
use operating_systems_lab.Base.{
  ℕ, ◌≡◌, refl, subst, true, false, ◌||◌, List, [], ◌∷◌, ◌++◌, ◌==◌, if◌then◌else◌, inl, inr,
  Bool-cases, ==_iff, arith,
}
use operating_systems_lab.Threads.State.{update}
use operating_systems_lab.Threads.Spec.{
  Place, free, lost, running, ready, blocked, is_ready, is_blocked, Threads, has, Distinct, erase,
  IsWellFormed, created, yielded, exited, killed, slept, woke_one, woke_all, lost_at,
}

pub has-append : (y : ℕ) (xs ys : List ℕ) → has y (xs ++ ys) ≡ (has y xs || has y ys)
has-append y [] ys = refl
has-append y (x ∷ xs) ys = ground (arith, has-append y xs ys)

pub has-erase :
    (y x : ℕ) (xs : List ℕ)
    → Distinct xs
    → has y (erase x xs) ≡ (if y == x then false else has y xs)
has-erase y x [] d = ground arith
has-erase y x (z ∷ zs) d = elim (Bool-cases (x == z)) [
  | inl e ↦ ground (arith, has_eq z y zs)
  | inr e ↦ ground (arith, has-erase y x zs d.1)
]
  where
    has_eq : (z y : ℕ) (zs : List ℕ) → (z == y) ≡ true → has z zs ≡ has y zs
    has_eq z y zs e = let e' = (==_iff z y).0 e in rw e'

pub Distinct-snoc : (xs : List ℕ) (x : ℕ) → Distinct xs → has x xs ≡ false → Distinct (xs ++ x ∷ [])
Distinct-snoc [] x d h = (refl, tt)
Distinct-snoc (y ∷ ys) x d h =
    (ground (arith, has-append y ys (x ∷ [])), Distinct-snoc ys x d.1 (ground arith))

pub Distinct-erase : (x : ℕ) (xs : List ℕ) → Distinct xs → Distinct (erase x xs)
Distinct-erase x [] d = tt
Distinct-erase x (y ∷ ys) d = elim (Bool-cases (x == y)) [
  | inl e ↦ rw e d.1
  | inr e ↦ rw e (ground (arith, has-erase y x ys d.1), Distinct-erase x ys d.1)
]

Distinct-append :
    (xs ys : List ℕ)
    → Distinct xs
    → Distinct ys
    → ((y : ℕ) → has y ys ≡ true → has y xs ≡ false)
    → Distinct (xs ++ ys)
Distinct-append [] ys d e apart = e
Distinct-append (x ∷ xs) ys d e apart = (
  ground (arith, has-append x xs ys, apart x),
  Distinct-append xs ys d.1 e (λ y h. ground (arith, apart y)),
)

-- A property of every entry of an updated table.
pub update_elim {ℓ κ} :
    {A : Type ℓ} (P : ℕ → A → Type κ) (f : ℕ → A) (q : ℕ) (v : A)
    → P q v
    → ((r : ℕ) → (q == r) ≡ false → P r (f r))
    → (r : ℕ) → P r (update f q v r)
update_elim P f q v at_q others r = elim (Bool-cases (q == r)) [
  | inl e ↦ rw (e, update) (subst (λ r. P r v) ((==_iff q r).0 e) at_q)
  | inr e ↦ rw (e, update) (others r e)
]

module _ {a : Threads} (wf : IsWellFormed a) where
  pub created-IsWellFormed : (i : ℕ) → a.place i ≡ free → IsWellFormed (created a i)
  created-IsWellFormed i f = record {
    one_runs = λ x. ground (arith, wf.one_runs x, wf.one_runs i);
    ready_place = λ x. ground (arith, wf.ready_place x, has-append x a.ready (i ∷ []));
    wait_place = λ q x. ground (arith, wf.wait_place q x);
    ready_distinct = Distinct-snoc a.ready i wf.ready_distinct (ground (arith, wf.ready_place i));
    wait_distinct = wf.wait_distinct;
  }

  pub lost-IsWellFormed : (i : ℕ) → a.place i ≡ free → IsWellFormed (lost_at a i)
  lost-IsWellFormed i f = record {
    one_runs = λ x. ground (arith, wf.one_runs x, wf.one_runs i);
    ready_place = λ x. ground (arith, wf.ready_place x, f);
    wait_place = λ q x. ground (arith, wf.wait_place q x, f);
    ready_distinct = wf.ready_distinct;
    wait_distinct = wf.wait_distinct;
  }

  -- A ready thread does not run.
  pub not_current : (x : ℕ) → has x a.ready ≡ true → (x == a.current) ≡ false
  not_current x h = ground (arith, wf.one_runs x, wf.ready_place x)

  pub yielded-IsWellFormed : (x : ℕ) → has x a.ready ≡ true → IsWellFormed (yielded a x)
  yielded-IsWellFormed x h =
      let cur = a.current in
      let old : has cur a.ready ≡ false = ground (arith, wf.one_runs cur, wf.ready_place cur) in
      record {
        one_runs = λ y. ground (arith, wf.one_runs y, not_current x h);
        ready_place = λ y. ground (
          arith,
          wf.ready_place y,
          wf.one_runs y,
          not_current x h,
          has-append y (erase x a.ready) (cur ∷ []),
          has-erase y x a.ready wf.ready_distinct,
        );
        wait_place = λ q y.
            ground (arith, wf.wait_place q y, wf.one_runs y, wf.ready_place x, wf.wait_place q x);
        ready_distinct =
            Distinct-snoc (erase x a.ready) cur (Distinct-erase x a.ready wf.ready_distinct)
              (ground (arith, has-erase cur x a.ready wf.ready_distinct));
        wait_distinct = wf.wait_distinct;
      }

  pub killed-IsWellFormed : (x : ℕ) → has x a.ready ≡ true → IsWellFormed (killed a x)
  killed-IsWellFormed x h = record {
    one_runs = λ y. ground (arith, wf.one_runs y, not_current x h);
    ready_place = λ y. ground (arith, wf.ready_place y, has-erase y x a.ready wf.ready_distinct);
    wait_place = λ q y. ground (arith, wf.wait_place q y, wf.ready_place x, wf.wait_place q x);
    ready_distinct = Distinct-erase x a.ready wf.ready_distinct;
    wait_distinct = wf.wait_distinct;
  }

module _ {a : Threads} (wf : IsWellFormed a) (x : ℕ) (xs : List ℕ) (e : a.ready ≡ x ∷ xs) where
  pub head_of : Distinct (x ∷ xs)
  head_of = subst Distinct e wf.ready_distinct

  pub head_place : (y : ℕ) → has y (x ∷ xs) ≡ is_ready (a.place y)
  head_place y = subst (λ l. has y l ≡ is_ready (a.place y)) e (wf.ready_place y)

  pub exited-IsWellFormed : IsWellFormed (exited a x xs)
  exited-IsWellFormed = record {
    one_runs = λ y. ground (arith, wf.one_runs y, wf.one_runs x, head_place x);
    ready_place = λ y. ground (arith, head_place y, wf.one_runs y, head_of);
    wait_place =
        λ q y. ground (arith, wf.wait_place q y, wf.one_runs y, wf.wait_place q x, head_place x);
    ready_distinct = head_of.1;
    wait_distinct = wf.wait_distinct;
  }

  pub slept-IsWellFormed : (q : ℕ) → IsWellFormed (slept a q x xs)
  slept-IsWellFormed q = record {
    one_runs = λ y. ground (arith, wf.one_runs y, wf.one_runs x, head_place x);
    ready_place = λ y. ground (arith, head_place y, wf.one_runs y, head_of);
    wait_place = λ r y.
        update_elim (λ r l. has y l ≡ is_blocked r ((slept a q x xs).place y)) a.waiting q
          (a.waiting q ++ a.current ∷ [])
          (ground (
            arith,
            has-append y (a.waiting q) (a.current ∷ []),
            wf.wait_place q y,
            wf.one_runs y,
            wf.one_runs x,
            wf.wait_place q x,
            head_place x,
          ))
          (λ r ne.
            ground (arith, wf.wait_place r y, wf.one_runs y, wf.wait_place r x, head_place x))
          r;
    ready_distinct = head_of.1;
    wait_distinct =
        update_elim (λ r l. Distinct l) a.waiting q (a.waiting q ++ a.current ∷ [])
          (Distinct-snoc (a.waiting q) a.current (wf.wait_distinct q)
            (ground (arith, wf.wait_place q a.current, wf.one_runs a.current)))
          (λ r ne. wf.wait_distinct r);
  }

module _ {a : Threads} (wf : IsWellFormed a) (q : ℕ) where
  pub waiter_place : (y : ℕ) → has y (a.waiting q) ≡ true → a.place y ≡ blocked q
  waiter_place y h = go (a.place y) (wf.wait_place q y)
    where
      go : (p : Place) → has y (a.waiting q) ≡ is_blocked q p → p ≡ blocked q
      go (blocked r) e = ground arith
      go free e = ground arith
      go lost e = ground arith
      go running e = ground arith
      go ready e = ground arith

  pub woke_one-IsWellFormed :
      (x : ℕ) (xs : List ℕ) → a.waiting q ≡ x ∷ xs → IsWellFormed (woke_one a q x xs)
  woke_one-IsWellFormed x xs e =
      let d : Distinct (x ∷ xs) = subst Distinct e (wf.wait_distinct q) in
      let w : (y : ℕ) → has y (x ∷ xs) ≡ is_blocked q (a.place y) =
        λ y. subst (λ l. has y l ≡ is_blocked q (a.place y)) e (wf.wait_place q y) in
      let p : a.place x ≡ blocked q = waiter_place x (ground (arith, e)) in
      record {
        one_runs = λ y. ground (arith, wf.one_runs y, p);
        ready_place = λ y. ground (arith, wf.ready_place y, p, has-append y a.ready (x ∷ []));
        wait_place = λ r y.
            update_elim (λ r l. has y l ≡ is_blocked r ((woke_one a q x xs).place y)) a.waiting q xs
              (ground (arith, w y, d)) (λ r ne. ground (arith, wf.wait_place r y, p)) r;
        ready_distinct =
            Distinct-snoc a.ready x wf.ready_distinct (ground (arith, wf.ready_place x, p));
        wait_distinct =
            update_elim (λ r l. Distinct l) a.waiting q xs d.1 (λ r ne. wf.wait_distinct r);
      }

  pub woke_all-IsWellFormed : IsWellFormed (woke_all a q)
  woke_all-IsWellFormed = record {
    one_runs = λ y. ground (arith, wf.one_runs y, waiter_place y);
    ready_place =
        λ y. ground (arith, wf.ready_place y, waiter_place y, has-append y a.ready (a.waiting q));
    wait_place = λ r y.
        update_elim (λ r l. has y l ≡ is_blocked r ((woke_all a q).place y)) a.waiting q []
          (ground (arith, wf.wait_place q y))
          (λ r ne. ground (arith, wf.wait_place r y, waiter_place y)) r;
    ready_distinct =
        Distinct-append a.ready (a.waiting q) wf.ready_distinct (wf.wait_distinct q)
          (λ y h. ground (arith, wf.ready_place y, waiter_place y));
    wait_distinct = update_elim (λ r l. Distinct l) a.waiting q [] tt (λ r ne. wf.wait_distinct r);
  }
