-- ===== src/Threads/Refine/Yield.antt =====
-- `thread_yield`: the caller goes to the end of the ready queue, and the first ready thread or the
-- one that was named runs.
use operating_systems_lab.Base.{
  ℕ, ◌≡◌, refl, sym, subst, ◌∙◌, Bool, true, false, List, [], ◌∷◌, ◌++◌, ◌==◌, if◌then◌else◌, inl,
  inr, Bool-cases, arith, ltb, ◌≢◌, leb,
}
use operating_systems_lab.Base.Int.{pos}
use operating_systems_lab.Threads.State.{
  State, Reply, in_switch, in_yield_to, leave, thread_invalid, thread_none, max_threads,
  interrupts_off, free_pending, thread_any, Tid,
}
use operating_systems_lab.Threads.Sched.{
  Search, found, absent, endless, yield_any, yield_found, yield_to, yield_from, thread_yield,
}
use operating_systems_lab.Threads.Spec.{Threads, is_free, has, yielded}
use operating_systems_lab.Threads.Spec.WellFormed.{has-append}
use operating_systems_lab.Threads.Refine.{
  Represents, Represents-same, ReturnsTo, SwitchesTo, ready_head, no_head, free_pending-Represents,
}
use operating_systems_lab.Threads.Refine.Find.{Searched, find_ready-Searched}
use operating_systems_lab.Threads.Refine.Rotate.{
  any_prepared, any-Prepared, to-Prepared, rotate_ready-yielded,
}
use operating_systems_lab.Threads.Refine.Take.{take_ready-yielded}

-- `thread_yield(THREAD_ANY)` with a ready thread runs the first one, and the caller becomes the
-- last; every queue stays in order.
pub thread_yield-any :
    {a : Threads} {s : State} (x : ℕ) (xs : List ℕ)
    → Represents a s
    → a.ready ≡ x ∷ xs
    → SwitchesTo (yielded a x) (thread_yield true thread_any s)
unfolding thread_yield yield_from yield_any any_prepared
thread_yield-any {a} {s} x xs rep e =
    let rep' = free_pending-Represents rep in
    let s1 = free_pending (interrupts_off s) in
    rw (ready_head rep' x xs e)
      (rotate_ready-yielded rep' (any-Prepared s1 (in_switch s.enabled x)) x xs e)

-- `thread_yield(THREAD_ANY)` with no ready thread returns `THREAD_NONE` and changes no queue.
pub thread_yield-none :
    {a : Threads} {s : State}
    → Represents a s
    → a.ready ≡ []
    → ReturnsTo thread_none s.enabled a (thread_yield true thread_any s)
unfolding thread_yield yield_from yield_any
thread_yield-none {a} {s} rep e =
    let rep' = free_pending-Represents rep in
    rw (no_head rep' e) (refl, refl, Represents-same s.enabled _ _ rep')

-- The ready queue of a thread that was found is not empty.
nonempty : (ls rs : List ℕ) (t : ℕ) → (x : ℕ) × (xs : List ℕ) × (ls ++ t ∷ rs ≡ x ∷ xs)
nonempty [] rs t = (t, rs, refl)
nonempty (x ∷ ls) rs t = (x, ls ++ t ∷ rs, refl)

-- The code that refuses `thread_yield(t)` for a thread that is not ready: `THREAD_NONE` where the
-- thread is in use and no thread is ready, and else `THREAD_INVALID`.
abbrev pub refusal : Threads → ℕ → Tid
refusal a t =
    if is_free (a.place t)
    then thread_invalid
    else elim a.ready [ [] ↦ thread_none | x ∷ xs ↦ thread_invalid ]

-- What `thread_yield(t)` promises for a ready thread, and for any other.
abbrev pub YieldsTo : Threads → ℕ → Bool → (was_ready : Bool) → Reply → Type 0
YieldsTo a t enable true r = SwitchesTo (yielded a t) r
YieldsTo a t enable false r = ReturnsTo (refusal a t) enable a r

module _ {a : Threads} {s : State} (rep : Represents a s) (enable : Bool) (t : ℕ) where
  refuses :
      (r : Tid)
      → has t a.ready ≡ false
      → r ≡ refusal a t
      → YieldsTo a t enable (has t a.ready) (leave enable r s)
  refuses r e same =
      subst (λ b. YieldsTo a t enable b (leave enable r s)) (sym e)
        (same, refl, Represents-same enable s.pending s.frees rep)

  absent-YieldsTo :
      has t a.ready ≡ false
      → is_free (a.place t) ≡ false
      → YieldsTo a t enable (has t a.ready) (yield_found true enable t s absent)
  unfolding yield_found
  absent-YieldsTo e used = go a.ready refl
    where
      go :
          (l : List ℕ)
          → a.ready ≡ l
          → YieldsTo a t enable (has t a.ready) (yield_found true enable t s absent)
      go [] q =
          subst (YieldsTo a t enable (has t a.ready)) (ground (arith, no_head rep q))
            (refuses thread_none e (ground (arith, q, used)))
      go (x ∷ xs) q =
          subst (YieldsTo a t enable (has t a.ready)) (ground (arith, ready_head rep x xs q))
            (refuses thread_invalid e (ground (arith, q, used)))

  yield_found-YieldsTo :
      (r : Search)
      → Searched t a.ready r
      → is_free (a.place t) ≡ false
      → YieldsTo a t enable (has t a.ready) (yield_found true enable t s r)
  unfolding yield_found
  yield_found-YieldsTo endless h used = absurd h
  yield_found-YieldsTo absent h used = absent-YieldsTo h used
  yield_found-YieldsTo (found pre u) (ls, rs, at_u, new, is, same) used =
      let (x, xs, e) = nonempty ls rs u in
      let moved =
        take_ready-yielded rep (to-Prepared s (in_yield_to enable u)) x xs (at_u ∙ e) pre u ls rs
          at_u new is in
      let there : has u a.ready ≡ true = ground (arith, at_u, has-append u ls (u ∷ rs)) in
      subst (λ w. YieldsTo a w enable (has w a.ready) (yield_found true enable w s (found pre u)))
        same
        (subst (λ b. YieldsTo a u enable b (yield_found true enable u s (found pre u))) (sym there)
          moved)

-- `thread_yield(t)` for another thread, but for `t` = 1024: a ready thread runs, wherever it stands
-- in the ready queue, with the caller behind the last ready thread; for any other the call returns
-- `THREAD_NONE` or `THREAD_INVALID` and changes no queue.
pub thread_yield-YieldsTo :
    {a : Threads} {s : State} (t : ℕ)
    → Represents a s
    → t ≢ a.current
    → t ≢ max_threads
    → YieldsTo a t s.enabled (has t a.ready) (thread_yield true (pos t) s)
unfolding thread_yield yield_from yield_to
thread_yield-YieldsTo {a} {s} t rep other inside =
    let rep' = free_pending-Represents rep in
    let s1 = free_pending (interrupts_off s) in
    let goal : Reply → Type 0 = YieldsTo a t s.enabled (has t a.ready) in
    let c : (t == s1.current) ≡ false = ground (arith, rep'.current) in
    let m : leb max_threads t ≡ ltb max_threads t = ground (arith, inside) in
    elim (Bool-cases (ltb max_threads t)) [
      | inl out ↦ subst goal (ground (arith, c, out)) (
          refuses rep' s.enabled t thread_invalid
            (ground (arith, rep.bounded t, rep.wf.ready_place t)) (ground (arith, rep.bounded t)))
      | inr lt ↦ elim (Bool-cases (s1.tcb t).is_valid) [
        | inr bad ↦ subst goal (ground (arith, c, lt, m, bad)) (
            refuses rep' s.enabled t thread_invalid
              (ground (arith, rep'.valid t, rep.wf.ready_place t)) (ground (arith, rep'.valid t)))
        | inl good ↦ subst goal (ground (arith, c, lt, m, good)) (
            yield_found-YieldsTo rep' s.enabled t _ (find_ready-Searched t rep')
              (ground (arith, rep'.valid t)))
      ]
    ]
