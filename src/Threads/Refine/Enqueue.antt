-- ===== src/Threads/Refine/Enqueue.antt =====
-- A new thread at the end of the ready queue.
use operating_systems_lab.Base.{
  ℕ, ◌<◌, ◌≡◌, refl, sym, ap, subst, ◌∙◌, true, false, Option, none, some, List, [], ◌∷◌, ◌++◌,
  ◌==◌, if◌then◌else◌, inl, inr, arith,
}
use operating_systems_lab.Threads.State.{
  State, Queue, Context, put_thread, set_next, set_tail, set_head, max_threads,
}
use operating_systems_lab.Threads.Sched.{enqueue_new}
use operating_systems_lab.Threads.Spec.{free, Threads, has, Distinct, created}
use operating_systems_lab.Threads.Spec.WellFormed.{created-IsWellFormed}
use operating_systems_lab.Threads.Seg.{
  Seg, last, has-last, Seg-frame, Seg-Appended, ne_of_has, IsTail,
}
use operating_systems_lab.Threads.Refine.{next_of, Represents, IsReadyTail, ready_head, no_head}
use operating_systems_lab.Threads.Refine.Rotate.{IsReadyTail-snoc}

-- The control block `i` filled in for a new thread.
unfoldable pub filled : State → (i : ℕ) → Context → Option ℕ → State
filled s i ctx mem = put_thread s i (record (s.tcb i) {
  is_valid = true;
  index = i;
  next = none;
  context = ctx;
  stack_memory = mem;
})

-- The state `st` is `s` with a new thread `i` behind the ready ones.
pub record Enqueued (a : Threads) (s st : State) (i : ℕ) : Type 0 where
  current : st.current ≡ s.current
  queues : st.queues ≡ s.queues
  tail : st.ready.tail ≡ some i
  seg : Seg (next_of st) st.ready.head (a.ready ++ i ∷ []) none
  index : (y : ℕ) → (st.tcb y).index ≡ (if i == y then i else (s.tcb y).index)
  is_valid : (y : ℕ) → (st.tcb y).is_valid ≡ (if i == y then true else (s.tcb y).is_valid)
  others :
      (y : ℕ)
      → (i == y) ≡ false
      → (y == s.current) ≡ false
      → has y a.ready ≡ false
      → next_of st y ≡ next_of s y

module _ {a : Threads} {s : State} (rep : Represents a s) (i : ℕ) (f : a.place i ≡ free)
    (lt : i < max_threads) where
  pub Enqueued-Represents : {st : State} → Enqueued a s st i → Represents (created a i) st
  Enqueued-Represents {st} h = record {
    wf = created-IsWellFormed rep.wf i f;
    current = h.current ∙ rep.current;
    ready_seg = h.seg;
    ready_tail =
        subst (λ t. IsReadyTail t a.current (a.ready ++ i ∷ [])) (sym h.tail)
          (IsReadyTail-snoc a.current i a.ready);
    wait_seg = λ q.
        subst (λ (qs : ℕ → Queue). Seg (next_of st) (qs q).head (a.waiting q) none) (sym h.queues)
          (Seg-frame (next_of s) (next_of st) (s.queues q).head (a.waiting q) none (rep.wait_seg q)
            (λ y hy.
              h.others y (ground (arith, rep.wf.wait_place q y, rep.wf.wait_place q i, f))
                (ground (arith, rep.wf.wait_place q y, rep.wf.one_runs y, rep.current))
                (ground (arith, rep.wf.wait_place q y, rep.wf.ready_place y))));
    wait_tail = λ q.
        subst (λ (qs : ℕ → Queue). IsTail (qs q).tail (a.waiting q)) (sym h.queues)
          (rep.wait_tail q);
    valid = λ y hy. ground (arith, h.is_valid y, rep.valid y hy);
    bounded = λ y hy. ground (arith, rep.bounded y);
    index = λ y hy. ground (arith, h.index y, rep.index y);
  }

  not_ready : has i a.ready ≡ false
  not_ready = ground (arith, rep.wf.ready_place i)

  not_caller : (i == s.current) ≡ false
  not_caller = ground (arith, rep.wf.one_runs i, rep.current)

  module _ (ctx : Context) (mem : Option ℕ) where
    -- What the queue code leaves: a first thread on a null tail, a first thread behind the tail
    -- that was not reset, and a last thread.
    first_ever : State
    first_ever = set_head (set_tail (filled s i ctx mem) (some i)) (some i)

    behind : ℕ → State
    behind t = set_tail (set_next (filled s i ctx mem) t (some i)) (some i)

    first_ever-Enqueued : a.ready ≡ [] → Enqueued a s first_ever i
    unfolding first_ever filled
    first_ever-Enqueued e = record {
      current = refl;
      queues = refl;
      tail = refl;
      seg = rw e (refl, ground arith);
      index = λ y. ground arith;
      is_valid = λ y. ground arith;
      others = λ y ni nc nr. ground arith;
    }

    first_again-Enqueued : a.ready ≡ [] → Enqueued a s (set_head (behind s.current) (some i)) i
    unfolding behind filled
    first_again-Enqueued e = record {
      current = refl;
      queues = refl;
      tail = refl;
      seg = rw e (refl, ground (arith, not_caller));
      index = λ y. ground (arith, not_caller);
      is_valid = λ y. ground (arith, not_caller);
      others = λ y ni nc nr. ground arith;
    }

    last-Enqueued : (x : ℕ) (xs : List ℕ) → a.ready ≡ x ∷ xs → Enqueued a s (behind (last x xs)) i
    unfolding behind filled
    last-Enqueued x xs e =
        let there : has (last x xs) a.ready ≡ true = rw e (has-last x xs) in
        let apart = ne_of_has i (last x xs) a.ready not_ready there in
        record {
          current = refl;
          queues = refl;
          tail = refl;
          seg =
              subst (λ l. Seg (next_of (behind (last x xs))) s.ready.head (l ++ i ∷ []) none)
                (sym e)
                (Seg-Appended (next_of s) (next_of (behind (last x xs))) s.ready.head x xs i
                  (subst Distinct e rep.wf.ready_distinct)
                  (subst (λ l. Seg (next_of s) s.ready.head l none) e rep.ready_seg)
                  (subst (λ l. has i l ≡ false) e not_ready)
                  (record {
                    at_new = ground (arith, apart);
                    at_tail = λ ne. ground arith;
                    others = λ y ni nt. ground arith;
                  }));
          index = λ y. ground (arith, apart);
          is_valid = λ y. ground (
            arith,
            apart,
            rep.valid (last x xs),
            rep.wf.ready_place (last x xs),
            rep.bounded (last x xs),
          );
          others = λ y ni nc nr. ground (arith, ne_of_has y (last x xs) a.ready nr there);
        }

    to_first_ever :
        s.ready.tail ≡ none → s.ready.head ≡ none → first_ever ≡ enqueue_new (filled s i ctx mem) i
    unfolding enqueue_new first_ever filled
    to_first_ever t h = ground arith

    to_first_again :
        (c : ℕ)
        → s.ready.tail ≡ some c
        → s.ready.head ≡ none
        → set_head (behind c) (some i) ≡ enqueue_new (filled s i ctx mem) i
    unfolding enqueue_new behind filled
    to_first_again c t h = ground arith

    to_last :
        (t x : ℕ)
        → s.ready.tail ≡ some t
        → s.ready.head ≡ some x
        → behind t ≡ enqueue_new (filled s i ctx mem) i
    unfolding enqueue_new behind filled
    to_last t x e h = ground arith

    pub enqueue-Enqueued : Enqueued a s (enqueue_new (filled s i ctx mem) i) i
    enqueue-Enqueued = go a.ready refl rep.ready_tail
      where
        go :
            (l : List ℕ)
            → a.ready ≡ l
            → IsReadyTail s.ready.tail a.current l
            → Enqueued a s (enqueue_new (filled s i ctx mem) i) i
        go [] e (inl t) =
            subst (λ st. Enqueued a s st i) (to_first_ever t (no_head rep e))
              (first_ever-Enqueued e)
        go [] e (inr t) =
            subst (λ st. Enqueued a s st i)
              (to_first_again s.current (t ∙ ap some (sym rep.current)) (no_head rep e))
              (first_again-Enqueued e)
        go (x ∷ xs) e t =
            subst (λ st. Enqueued a s st i) (to_last (last x xs) x t (ready_head rep x xs e))
              (last-Enqueued x xs e)
