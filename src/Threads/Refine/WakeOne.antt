-- ===== src/Threads/Refine/WakeOne.antt =====
-- `thread_wakeup` of one thread: the first of a wait queue becomes the last ready thread.
use operating_systems_lab.Base.{
  ℕ, ◌≡◌, refl, sym, ap, subst, Bool, true, false, Option, none, some, List, [], ◌∷◌, ◌++◌, ◌==◌,
  arith,
}
use operating_systems_lab.Base.Int.{pos}
use operating_systems_lab.Threads.State.{
  State, Queue, Thread, set_next, set_head, set_tail, put_queue, interrupts_off,
}
use operating_systems_lab.Threads.Wait.{wake_one, wake_from, thread_wakeup}
use operating_systems_lab.Threads.Wait
use operating_systems_lab.Threads.Spec.{Threads, has, Distinct, woke_one}
use operating_systems_lab.Threads.Spec.WellFormed.{woke_one-IsWellFormed}
use operating_systems_lab.Threads.Seg.{
  Seg, last, has-last, last-snoc, IsTail, Seg-frame, Seg-Appended, ne_of_has,
}
use operating_systems_lab.Threads.Refine.{
  next_of, Represents, Represents-same, ReturnsTo, ready_head, ready_last, no_head,
}
use operating_systems_lab.Threads.Refine.Woken.{Woken, Woken-Represents}
use operating_systems_lab.Threads.Refine.Wake.{waits_seg, wait_head, wait_last, waits, apart}

module _ {a : Threads} {s : State} (rep : Represents a s) (q x : ℕ) (xs : List ℕ)
    (w : a.waiting q ≡ x ∷ xs) where
  abbrev rest_queue : Queue
  rest_queue = record (s.queues q) { head = (s.tcb x).next }

  abbrev first_woken : State
  first_woken = set_next (put_queue (set_tail (set_head s (some x)) (some x)) q rest_queue) x none

  -- With the control block of `x` that the code reads the new head from.
  abbrev woken_by : ℕ → Thread → State
  woken_by e c =
      set_next
        (put_queue (set_tail (set_next s e (some x)) (some x)) q
          (record (s.queues q) { head = c.next }))
        x none

  abbrev last_woken : ℕ → State
  last_woken e = woken_by e (s.tcb x)

  others_wait : Distinct (x ∷ xs)
  others_wait = subst Distinct w (rep.wf.wait_distinct q)

  rest_tail : IsTail (s.queues q).tail xs
  rest_tail = go xs (wait_last rep q x xs w)
    where
      go : (ys : List ℕ) → (s.queues q).tail ≡ some (last x ys) → IsTail (s.queues q).tail ys
      go [] h = tt
      go (y ∷ ys) h = h

  first_woken-Woken : a.ready ≡ [] → Woken a s first_woken q rest_queue (x ∷ []) xs
  first_woken-Woken e = record {
    current = refl;
    queues = λ r. refl;
    ready_seg =
        subst (λ l. Seg (next_of first_woken) (some x) (l ++ x ∷ []) none) (sym e)
          (refl, ground arith);
    ready_tail = rw e refl;
    seg =
        Seg-frame (next_of s) (next_of first_woken) (s.tcb x).next xs none
          (waits_seg rep q x xs w).1 (λ y h. ground (arith, ne_of_has x y xs others_wait.0 h));
    tail = rest_tail;
    index = λ y. ground arith;
    is_valid = λ y. ground arith;
    others = λ y n m. ground (arith, waits rep q x xs w y);
  }

  module _ (y : ℕ) (ys : List ℕ) (e : a.ready ≡ y ∷ ys) where
    x_new : has x (y ∷ ys) ≡ false
    x_new = subst (λ l. has x l ≡ false) e (apart rep q x xs w x (ground arith))

    e_waits : (z : ℕ) → has z (x ∷ xs) ≡ true → (last y ys == z) ≡ false
    e_waits z h =
        ground
          (arith, ne_of_has z (last y ys) a.ready (apart rep q x xs w z h) (rw e (has-last y ys)))

    kept : (set_next s (last y ys) (some x)).tcb x ≡ s.tcb x
    kept = ground (arith, e_waits x)

    last_woken-Woken : Woken a s (last_woken (last y ys)) q rest_queue (x ∷ []) xs
    last_woken-Woken =
        let new = next_of (last_woken (last y ys)) in
        record {
          current = refl;
          queues = λ r. refl;
          ready_seg =
              subst (λ l. Seg new s.ready.head (l ++ x ∷ []) none) (sym e)
                (Seg-Appended (next_of s) new s.ready.head y ys x
                  (subst Distinct e rep.wf.ready_distinct)
                  (subst (λ l. Seg (next_of s) s.ready.head l none) e rep.ready_seg) x_new
                  (record {
                    at_new = ground arith;
                    at_tail = λ n. ground arith;
                    others = λ z n m. ground arith;
                  }));
          ready_tail = rw e (ap some (sym (last-snoc y ys x)));
          seg =
              Seg-frame (next_of s) new (s.tcb x).next xs none (waits_seg rep q x xs w).1
                (λ z h. ground (arith, ne_of_has x z xs others_wait.0 h, e_waits z));
          tail = rest_tail;
          index = λ z. ground arith;
          is_valid = λ z. ground arith;
          others = λ z n m. ground (
            arith,
            waits rep q x xs w z,
            ne_of_has z (last y ys) a.ready n (rw e (has-last y ys)),
          );
        }

  returns-Woken :
      (enable : Bool) (st : State)
      → Woken a s st q rest_queue (x ∷ []) xs
      → ReturnsTo (pos 1) enable (woke_one a q x xs) (Wait.woke_one enable (some st))
  unfolding Wait.woke_one
  returns-Woken enable st h = (
    refl,
    refl,
    Represents-same enable st.pending st.frees (
        Woken-Represents rep q rest_queue (x ∷ []) xs h (woke_one a q x xs).place
          (woke_one-IsWellFormed rep.wf q x xs w)
          (λ y. ground (arith, rep.wf.wait_place q x, waits rep q x xs w x))),
  )

  wake_one-returns :
      (enable : Bool)
      → ReturnsTo
          (pos 1)
          enable
          (woke_one a q x xs)
          (Wait.woke_one enable (wake_one s q x s.ready.head s.ready.tail))
  unfolding wake_one
  wake_one-returns enable = go a.ready refl
    where
      goal : Option ℕ → Option ℕ → Type 0
      goal h t =
          ReturnsTo (pos 1) enable (woke_one a q x xs) (Wait.woke_one enable (wake_one s q x h t))

      go : (l : List ℕ) → a.ready ≡ l → goal s.ready.head s.ready.tail
      go [] e =
          subst (λ h. goal h s.ready.tail) (sym (no_head rep e))
            (returns-Woken enable first_woken (first_woken-Woken e))
      go (y ∷ ys) e =
          subst (λ h. goal h s.ready.tail) (sym (ready_head rep y ys e))
            (subst (goal (some y)) (sym (ready_last rep y ys e)) (
              subst
                (λ (c : Thread).
                  ReturnsTo (pos 1) enable (woke_one a q x xs)
                    (Wait.woke_one enable (some (woken_by (last y ys) c))))
                (sym (kept y ys e))
                (returns-Woken enable (last_woken (last y ys)) (last_woken-Woken y ys e))))

-- `thread_wakeup(q, 0)` moves the first thread of a wait queue behind the ready threads, leaves the
-- other waiting threads in their order, and returns 1.
pub thread_wakeup-one :
    {a : Threads} {s : State} (q x : ℕ) (xs : List ℕ)
    → Represents a s
    → a.waiting q ≡ x ∷ xs
    → ReturnsTo (pos 1) s.enabled (woke_one a q x xs) (thread_wakeup (some q) false s)
unfolding thread_wakeup wake_from
thread_wakeup-one {a} {s} q x xs rep w =
    let off = Represents-same false s.pending s.frees rep in
    subst
      (λ h.
        ReturnsTo (pos 1) s.enabled (woke_one a q x xs)
          (wake_from s.enabled false q (interrupts_off s) h))
      (sym (wait_head off q x xs w)) (wake_one-returns off q x xs w s.enabled)
