-- ===== src/Threads/Refine/Rotate.antt =====
-- Putting the caller behind the last ready thread, and running the first.
use operating_systems_lab.Base.{
  ℕ, ◌≡◌, refl, sym, ap, subst, ◌∙◌, true, false, none, some, List, [], ◌∷◌, ◌++◌, ◌==◌, arith, not,
}
use operating_systems_lab.Threads.State.{
  State, Context, set_next, set_tail, set_context, max_threads,
}
use operating_systems_lab.Threads.Sched.{append_ready, rotate_ready}
use operating_systems_lab.Threads.Spec.{Threads, is_free, has, Distinct, erase, yielded}
use operating_systems_lab.Threads.Spec.WellFormed.{yielded-IsWellFormed}
use operating_systems_lab.Threads.Seg.{
  Seg, last, last-snoc, has-last, Seg-frame, Appended, Seg-Appended, ne_of_has,
}
use operating_systems_lab.Threads.Refine.{next_of, Represents, SwitchesTo, IsReadyTail, ready_last}
use Prim.Native.Nat.{◌<◌}

-- `s2` is `s` with the context of the caller saved; the caller's `next` may have changed.
pub record Prepared (s s2 : State) : Type 0 where
  pub next : (y : ℕ) → (s.current == y) ≡ false → next_of s2 y ≡ next_of s y
  pub index : (y : ℕ) → (s2.tcb y).index ≡ (s.tcb y).index
  pub is_valid : (y : ℕ) → (s2.tcb y).is_valid ≡ (s.tcb y).is_valid
  pub ready : s2.ready ≡ s.ready
  pub queues : s2.queues ≡ s.queues
  pub current : s2.current ≡ s.current

unfoldable pub any_prepared : State → ℕ → Context → State
any_prepared s cur ctx = set_context (set_next s cur none) cur ctx

pub any-Prepared : (s : State) (ctx : Context) → Prepared s (any_prepared s s.current ctx)
unfolding any_prepared
any-Prepared s ctx = record {
  next = λ y ne. ground arith;
  index = λ y. ground arith;
  is_valid = λ y. ground arith;
  ready = refl;
  queues = refl;
  current = refl;
}

pub to-Prepared : (s : State) (ctx : Context) → Prepared s (set_context s s.current ctx)
to-Prepared s ctx = record {
  next = λ y ne. ground arith;
  index = λ y. ground arith;
  is_valid = λ y. ground arith;
  ready = refl;
  queues = refl;
  current = refl;
}

-- `s2` with the caller behind the thread `t`.
unfoldable pub appended : State → (cur t : ℕ) → State
appended s2 cur t = set_next (set_tail (set_next s2 t (some cur)) (some cur)) cur none

module _ {a : Threads} {s s2 : State} (rep : Represents a s) (p : Prepared s s2) (x : ℕ)
    (xs : List ℕ) (e : a.ready ≡ x ∷ xs) where
  unfoldable pub behind_last : State
  behind_last = appended s2 s.current (last x xs)

  pub append_ready-eq : append_ready s2 s.current s2.ready.tail ≡ some behind_last
  unfolding append_ready behind_last appended
  append_ready-eq = rw (p.ready, ready_last rep x xs e)

  pub index-behind_last : (y : ℕ) → (behind_last.tcb y).index ≡ (s.tcb y).index
  unfolding behind_last appended
  index-behind_last y = ground (arith, p.index y)

  pub is_valid-behind_last : (y : ℕ) → (behind_last.tcb y).is_valid ≡ (s.tcb y).is_valid
  unfolding behind_last appended
  is_valid-behind_last y = ground (arith, p.is_valid y)

  pub next-behind_last : Appended (next_of s) (next_of behind_last) (last x xs) s.current
  unfolding behind_last appended
  next-behind_last = record {
    at_new = ground arith;
    at_tail = λ ne. ground arith;
    others = λ y ni nt. ground (arith, p.next y);
  }

  pub caller_not_ready : has s.current (x ∷ xs) ≡ false
  caller_not_ready =
      ground (arith, e, rep.current, rep.wf.one_runs s.current, rep.wf.ready_place s.current)

  pub ready_behind_last : Seg (next_of behind_last) s.ready.head (x ∷ xs ++ s.current ∷ []) none
  ready_behind_last =
      Seg-Appended (next_of s) (next_of behind_last) s.ready.head x xs s.current
        (subst Distinct e rep.wf.ready_distinct)
        (subst (λ l. Seg (next_of s) s.ready.head l none) e rep.ready_seg) caller_not_ready
        next-behind_last

  pub wait_behind_last : (q : ℕ) → Seg (next_of behind_last) (s.queues q).head (a.waiting q) none
  wait_behind_last q =
      Seg-frame (next_of s) (next_of behind_last) (s.queues q).head (a.waiting q) none
        (rep.wait_seg q)
        (λ y h.
          next-behind_last.others y
            (ground (arith, rep.wf.wait_place q y, rep.current, rep.wf.one_runs y))
            (ground (
              arith,
              e,
              has-last x xs,
              rep.wf.ready_place (last x xs),
              rep.wf.wait_place q (last x xs),
              rep.wf.ready_place y,
              rep.wf.wait_place q y,
              ne_of_has y (last x xs) a.ready,
            )))

  pub in_use : (y : ℕ) → has y (x ∷ xs) ≡ true → is_free (a.place y) ≡ false
  in_use y h = ground (arith, e, rep.wf.ready_place y)

  pub valid_yielded :
      (t y : ℕ)
      → has t (x ∷ xs) ≡ true
      → y < max_threads
      → (s.tcb y).is_valid ≡ not (is_free ((yielded a t).place y))
  valid_yielded t y h lt = ground (arith, rep.valid y lt, in_use t h, rep.wf.one_runs y)

  pub in_use_yielded :
      (t y : ℕ)
      → has t (x ∷ xs) ≡ true
      → is_free ((yielded a t).place y) ≡ false
      → is_free (a.place y) ≡ false
  in_use_yielded t y h f = ground (arith, in_use t h, rep.wf.one_runs y)

pub IsReadyTail-snoc : (cur y : ℕ) (xs : List ℕ) → IsReadyTail (some y) cur (xs ++ y ∷ [])
IsReadyTail-snoc cur y [] = refl
IsReadyTail-snoc cur y (x ∷ xs) = ap some (sym (last-snoc x xs y))

module _ {a : Threads} {s s2 : State} (rep : Represents a s) (p : Prepared s s2) (x : ℕ)
    (xs : List ℕ) (e : a.ready ≡ x ∷ xs) where
  erase_head : erase x a.ready ++ a.current ∷ [] ≡ xs ++ s.current ∷ []
  erase_head = rw (e, rep.current) (ground arith)

  -- The head of the queue is taken off and runs.
  pub rotate_ready-yielded :
      SwitchesTo
        (yielded a x)
        (rotate_ready s2 s.current x (append_ready s2 s.current s2.ready.tail))
  unfolding rotate_ready behind_last appended
  rotate_ready-yielded =
      let s3 = behind_last rep p x xs e in
      let there : has x (x ∷ xs) ≡ true = ground arith in
      let seg = ready_behind_last rep p x xs e in
      rw (append_ready-eq rep p x xs e, SwitchesTo)
        (record {
          wf = yielded-IsWellFormed rep.wf x (ground (arith, e));
          current = index-behind_last rep p x xs e x ∙ rep.index x (in_use rep p x xs e x there);
          ready_seg = rw erase_head (seg.1);
          ready_tail = rw erase_head (IsReadyTail-snoc x s.current xs);
          wait_seg = λ q. rw (p.queues) (wait_behind_last rep p x xs e q);
          wait_tail = λ q. rw (p.queues) (rep.wait_tail q);
          valid =
              λ y h. is_valid-behind_last rep p x xs e y ∙ valid_yielded rep p x xs e x y there h;
          bounded = λ y h. rep.bounded y (in_use_yielded rep p x xs e x y there h);
          index = λ y h.
              index-behind_last rep p x xs e y
              ∙ rep.index y (in_use_yielded rep p x xs e x y there h);
        })
