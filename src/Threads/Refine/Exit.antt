-- ===== src/Threads/Refine/Exit.antt =====
-- `thread_exit`: the first ready thread runs, and the caller's control block is free.
use operating_systems_lab.Base.{
  ℕ, ◌≡◌, refl, Bool, false, none, some, List, [], ◌∷◌, ◌==◌, ◌∙◌, if◌then◌else◌, arith,
}
use operating_systems_lab.Threads.State.{thread_none, State, update, Thread}
use operating_systems_lab.Threads.Sched.{thread_exit, exit_to}
use operating_systems_lab.Threads.Spec.{is_free, Threads, exited}
use operating_systems_lab.Threads.Spec.WellFormed.{head_place, exited-IsWellFormed}
use operating_systems_lab.Threads.Refine.{
  next_of, Represents, SwitchesTo, ReturnsTo, ready_rest, ready_head, rest_tail, no_head,
  free_pending-Represents, Represents-same,
}
use operating_systems_lab.Threads.Seg.{Seg-frame}

module _ {a : Threads} {s : State} (rep : Represents a s) (x : ℕ) (xs : List ℕ)
    (e : a.ready ≡ x ∷ xs) where
  marked : (y : ℕ) → Thread
  marked = update s.tcb s.current (record (s.tcb s.current) { is_valid = false })

  next-marked : (y : ℕ) → (marked y).next ≡ (s.tcb y).next
  unfolding marked
  next-marked y = ground arith

  index-marked : (y : ℕ) → (marked y).index ≡ (s.tcb y).index
  unfolding marked
  index-marked y = ground arith

  is_valid-marked :
      (y : ℕ) → (marked y).is_valid ≡ (if y == a.current then false else (s.tcb y).is_valid)
  unfolding marked
  is_valid-marked y = ground (arith, rep.current)

  head_in_use : is_free (a.place x) ≡ false
  head_in_use = ground (arith, head_place rep.wf x xs e x)

  exit_to-Represents : (enable : Bool) → SwitchesTo (exited a x xs) (exit_to enable s (some x))
  unfolding exit_to marked
  exit_to-Represents enable =
      let frame = Seg-frame (next_of s) (λ y. (marked y).next) in
      record {
        wf = exited-IsWellFormed rep.wf x xs e;
        current = index-marked x ∙ rep.index x head_in_use;
        ready_seg =
            frame ((marked x).next) xs none (rw next-marked (ready_rest rep x xs e))
              (λ y h. next-marked y);
        ready_tail = rest_tail rep x xs e;
        wait_seg = λ q.
            frame ((s.queues q).head) (a.waiting q) none (rep.wait_seg q) (λ y h. next-marked y);
        wait_tail = rep.wait_tail;
        valid = λ y h. ground (
          arith,
          is_valid-marked y,
          rep.valid y h,
          head_in_use,
          rep.wf.one_runs y,
          head_place rep.wf x xs e x,
        );
        bounded = λ y h. ground (arith, rep.bounded y, rep.bounded x, head_in_use);
        index = λ y h. ground (arith, index-marked y, rep.index y, rep.index x, head_in_use);
      }

-- With a ready thread `thread_exit` gives the processor to the first one, frees the caller's
-- control block, and leaves every queue in order.
pub thread_exit-exited :
    {a : Threads} {s : State} (x : ℕ) (xs : List ℕ)
    → Represents a s
    → a.ready ≡ x ∷ xs
    → SwitchesTo (exited a x xs) (thread_exit s)
unfolding thread_exit
thread_exit-exited {s} x xs rep e =
    let rep' = free_pending-Represents rep in
    rw (ready_head rep' x xs e) (exit_to-Represents rep' x xs e s.enabled)

-- With no ready thread `thread_exit` returns `THREAD_NONE` and changes no queue.
pub thread_exit-last :
    {a : Threads} {s : State}
    → Represents a s
    → a.ready ≡ []
    → ReturnsTo thread_none s.enabled a (thread_exit s)
unfolding thread_exit exit_to
thread_exit-last {a} {s} rep e =
    let rep' = free_pending-Represents rep in
    rw (no_head rep' e) (refl, refl, Represents-same s.enabled _ _ rep')
