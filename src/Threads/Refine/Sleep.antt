-- ===== src/Threads/Refine/Sleep.antt =====
-- `thread_sleep`: the caller becomes the last thread of a wait queue, and the first ready thread
-- runs.
use operating_systems_lab.Base.{
  ℕ, ◌≡◌, refl, sym, ap, subst, ◌∙◌, Bool, true, false, Option, none, some, List, [], ◌∷◌, ◌++◌,
  ◌==◌, ==_iff, inl, inr, Bool-cases, arith,
}
use operating_systems_lab.Threads.State.{
  State, Queue, Context, in_switch, update, set_next, put_queue, set_context, thread_none,
  thread_invalid, interrupts_off,
}
use operating_systems_lab.Threads.Wait.{enqueue_wait, sleep_switch, sleep_on, thread_sleep}
use operating_systems_lab.Threads.Spec.{Threads, is_free, has, Distinct, slept}
use operating_systems_lab.Threads.Spec.WellFormed.{slept-IsWellFormed, head_place}
use operating_systems_lab.Threads.Seg.{
  Seg, last, has-last, IsTail, IsTail-snoc, Seg-frame, Seg-Appended, ne_of_has,
}
use operating_systems_lab.Threads.Refine.{
  next_of, Represents, Represents-same, ReturnsTo, SwitchesTo, ready_head, ready_rest, rest_tail,
  no_head,
}

-- The state `st` is `s` with the caller at the end of the wait queue `q`.
record Waits (a : Threads) (s st : State) (q : ℕ) (v : Queue) : Type 0 where
  ready : st.ready ≡ s.ready
  queues : st.queues ≡ update s.queues q v
  tail : v.tail ≡ some s.current
  seg : Seg (next_of st) v.head (a.waiting q ++ s.current ∷ []) none
  index : (y : ℕ) → (st.tcb y).index ≡ (s.tcb y).index
  is_valid : (y : ℕ) → (st.tcb y).is_valid ≡ (s.tcb y).is_valid
  others :
      (y : ℕ) → (y == s.current) ≡ false → has y (a.waiting q) ≡ false → next_of st y ≡ next_of s y

module _ {a : Threads} {s : State} (rep : Represents a s) (q x : ℕ) (xs : List ℕ)
    (e : a.ready ≡ x ∷ xs) where
  sleep_switch-slept :
      {st : State} {v : Queue}
      → Waits a s st q v
      → SwitchesTo (slept a q x xs) (sleep_switch x (some st))
  unfolding sleep_switch
  sleep_switch-slept {st} {v} h =
      let used : is_free (a.place x) ≡ false = ground (arith, head_place rep.wf x xs e x) in
      let kept : (y : ℕ) → has y (x ∷ xs) ≡ true → next_of st y ≡ next_of s y = λ y hy.
        h.others y (ground (arith, head_place rep.wf x xs e y, rep.wf.one_runs y, rep.current))
          (ground (arith, head_place rep.wf x xs e y, rep.wf.wait_place q y)) in
      record {
        wf = slept-IsWellFormed rep.wf x xs e q;
        current = h.index x ∙ rep.index x used;
        ready_seg =
            subst (λ p. Seg (next_of st) p xs none) (sym (kept x (ground arith)))
              (Seg-frame (next_of s) (next_of st) (next_of s x) xs none (ready_rest rep x xs e)
                (λ y hy. kept y (ground arith)));
        ready_tail = rw (h.ready) (rest_tail rep x xs e);
        wait_seg = λ r.
            subst
              (λ (qs : ℕ → Queue). Seg (next_of st) (qs r).head ((slept a q x xs).waiting r) none)
              (sym h.queues) (seg_at st v h r);
        wait_tail = λ r.
            subst (λ (qs : ℕ → Queue). IsTail (qs r).tail ((slept a q x xs).waiting r))
              (sym h.queues) (tail_at st v h r);
        valid = λ y hy. ground (arith, h.is_valid y, rep.valid y hy, used, rep.wf.one_runs y);
        bounded = λ y hy. ground (arith, rep.bounded y, rep.wf.one_runs y, used);
        index = λ y hy. ground (arith, h.index y, rep.index y, rep.wf.one_runs y, used);
      }
    where
      seg_at :
          (st : State) (v : Queue)
          → Waits a s st q v
          → (r : ℕ)
          → Seg (next_of st) (update s.queues q v r).head ((slept a q x xs).waiting r) none
      seg_at st v h r = elim (Bool-cases (q == r)) [
        | inl same ↦
            rw (same)
              (subst (λ c. Seg (next_of st) v.head (a.waiting q ++ c ∷ []) none) rep.current h.seg)
        | inr other ↦ rw (other) (
            Seg-frame (next_of s) (next_of st) (s.queues r).head (a.waiting r) none (rep.wait_seg r)
              (λ y hy.
                h.others y (ground (arith, rep.wf.wait_place r y, rep.wf.one_runs y, rep.current))
                  (ground (arith, rep.wf.wait_place r y, rep.wf.wait_place q y, (==_iff q r).1))))
      ]

      tail_at :
          (st : State) (v : Queue)
          → Waits a s st q v
          → (r : ℕ) → IsTail (update s.queues q v r).tail ((slept a q x xs).waiting r)
      tail_at st v h r = elim (Bool-cases (q == r)) [
        | inl same ↦ rw (same) (
            subst (λ t. IsTail t (a.waiting q ++ a.current ∷ []))
              (sym (h.tail ∙ ap some rep.current)) (IsTail-snoc (a.waiting q) a.current))
        | inr other ↦ rw (other) (rep.wait_tail r)
      ]

-- The state in which the caller's context is saved.
abbrev saved_at : State → ℕ → State
saved_at s h = set_context s s.current (in_switch s.enabled h)

module _ {a : Threads} {s : State} (rep : Represents a s) (q : ℕ) (c : Context) where
  -- The pointers behind `enqueue_wait`.
  abbrev to_empty : State
  to_empty =
      set_next
        (put_queue (set_context s s.current c) q
          (record { head = some s.current; tail = some s.current }))
        s.current none

  abbrev to_last : (h t : ℕ) → State
  to_last h t =
      set_next
        (put_queue (set_next (set_context s s.current c) t (some s.current)) q
          (record { head = some h; tail = some s.current }))
        s.current none

  to_empty-Waits :
      a.waiting q ≡ []
      → Waits a s to_empty q (record { head = some s.current; tail = some s.current })
  to_empty-Waits e = record {
    ready = refl;
    queues = refl;
    tail = refl;
    seg = rw e (refl, ground arith);
    index = λ y. ground arith;
    is_valid = λ y. ground arith;
    others = λ y n m. ground arith;
  }

  to_last-Waits :
      (y : ℕ) (ys : List ℕ)
      → a.waiting q ≡ y ∷ ys
      → Waits a s (to_last y (last y ys)) q (record { head = some y; tail = some s.current })
  to_last-Waits y ys e =
      let seg : Seg (next_of s) (some y) (y ∷ ys) none =
        (refl, (subst (λ l. Seg (next_of s) (s.queues q).head l none) e (rep.wait_seg q)).1) in
      let new : has s.current (y ∷ ys) ≡ false =
        subst (λ l. has s.current l ≡ false) e
          (ground (arith, rep.wf.wait_place q s.current, rep.wf.one_runs s.current, rep.current)) in
      record {
        ready = refl;
        queues = refl;
        tail = refl;
        seg =
            subst (λ l. Seg (next_of (to_last y (last y ys))) (some y) (l ++ s.current ∷ []) none)
              (sym e)
              (Seg-Appended (next_of s) (next_of (to_last y (last y ys))) (some y) y ys s.current
                (subst Distinct e (rep.wf.wait_distinct q)) seg new
                (record {
                  at_new = ground arith;
                  at_tail = λ n. ground arith;
                  others = λ z n m. ground arith;
                }));
        index = λ z. ground arith;
        is_valid = λ z. ground arith;
        others = λ z n m. ground (
          arith,
          ne_of_has z (last y ys) (y ∷ ys) (subst (λ l. has z l ≡ false) e m) (has-last y ys),
        );
      }

sleep_on-slept :
    {a : Threads} {s : State} (enable : Bool) (q x : ℕ) (xs : List ℕ)
    → Represents a s
    → a.ready ≡ x ∷ xs
    → SwitchesTo (slept a q x xs) (sleep_on true enable q s (some x))
unfolding sleep_on enqueue_wait
sleep_on-slept {a} {s} enable q x xs rep e = go (a.waiting q) refl
  where
    c : Context
    c = in_switch enable x

    s1 : State
    s1 = set_context s s.current c

    go :
        (l : List ℕ)
        → a.waiting q ≡ l
        → SwitchesTo (slept a q x xs) (sleep_on true enable q s (some x))
    go [] w =
        let none_waits : (s.queues q).head ≡ none =
          subst (λ l. Seg (next_of s) (s.queues q).head l none) w (rep.wait_seg q) in
        subst
          (λ h.
            SwitchesTo (slept a q x xs)
              (sleep_switch x (enqueue_wait s1 q s.current h (s.queues q).tail)))
          (sym none_waits) (sleep_switch-slept rep q x xs e (to_empty-Waits rep q c w))
    go (y ∷ ys) w =
        let first : (s.queues q).head ≡ some y =
          (subst (λ l. Seg (next_of s) (s.queues q).head l none) w (rep.wait_seg q)).0 in
        let end : (s.queues q).tail ≡ some (last y ys) =
          subst (λ l. IsTail (s.queues q).tail l) w (rep.wait_tail q) in
        subst
          (λ h.
            SwitchesTo (slept a q x xs)
              (sleep_switch x (enqueue_wait s1 q s.current h (s.queues q).tail)))
          (sym first)
          (subst
            (λ t.
              SwitchesTo (slept a q x xs) (sleep_switch x (enqueue_wait s1 q s.current (some y) t)))
            (sym end) (sleep_switch-slept rep q x xs e (to_last-Waits rep q c y ys w)))

-- `thread_sleep(q)` with a ready thread runs the first one, and the caller becomes the last thread
-- of the wait queue; every queue stays in order.
pub thread_sleep-slept :
    {a : Threads} {s : State} (q x : ℕ) (xs : List ℕ)
    → Represents a s
    → a.ready ≡ x ∷ xs
    → SwitchesTo (slept a q x xs) (thread_sleep true (some q) s)
unfolding thread_sleep
thread_sleep-slept {a} {s} q x xs rep e =
    let off = Represents-same false s.pending s.frees rep in
    subst (λ h. SwitchesTo (slept a q x xs) (sleep_on true s.enabled q (interrupts_off s) h))
      (sym (ready_head rep x xs e)) (sleep_on-slept s.enabled q x xs off e)

-- With no ready thread `thread_sleep` returns and changes no queue: `THREAD_INVALID` for a null queue,
-- and else `THREAD_NONE`.
pub thread_sleep-stays :
    {a : Threads} {s : State} (queue : Option ℕ)
    → Represents a s
    → a.ready ≡ []
    → ReturnsTo
        (elim queue [ none ↦ thread_invalid | some q ↦ thread_none ])
        s.enabled
        a
        (thread_sleep true queue s)
unfolding thread_sleep sleep_on
thread_sleep-stays {a} {s} none rep e =
    (refl, refl, Represents-same s.enabled s.pending s.frees rep)
thread_sleep-stays {a} {s} (some q) rep e =
    subst (λ h. ReturnsTo thread_none s.enabled a (sleep_on true s.enabled q (interrupts_off s) h))
      (sym (no_head rep e)) (refl, refl, Represents-same s.enabled s.pending s.frees rep)
