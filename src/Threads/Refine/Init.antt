-- ===== src/Threads/Refine/Init.antt =====
-- `thread_init`: only the main thread is in use, and it runs.
use operating_systems_lab.Base.{
  ℕ, zero, suc, ◌+◌, ◌≡◌, refl, ◌∙◌, true, false, none, inl, [], ◌==◌, leb, ltb, if◌then◌else◌,
  arith, ◌-◌, ap,
}
use operating_systems_lab.Threads.State.{State, Queue, put_thread, max_threads}
use operating_systems_lab.Threads.Sched.{init_loop, thread_init}
use operating_systems_lab.Threads.Spec.{Threads, free, running, IsWellFormed}
use operating_systems_lab.Threads.Refine.{Represents}

abbrev pub only_main : Threads
only_main = record {
  current = 0;
  ready = [];
  waiting = λ q. [];
  place = λ x. if x == 0 then running else free;
}

pub only_main-IsWellFormed : IsWellFormed only_main
only_main-IsWellFormed = record {
  one_runs = λ x. ground arith;
  ready_place = λ x. ground arith;
  wait_place = λ q x. ground arith;
  ready_distinct = tt;
  wait_distinct = λ q. tt;
}

-- What `n` rounds from `i` on leave behind.
record Cleared (s st : State) (n i : ℕ) : Type 0 where
  ready : st.ready ≡ s.ready
  current : st.current ≡ s.current
  queues : st.queues ≡ s.queues
  index : (y : ℕ) → (st.tcb y).index ≡ (s.tcb y).index
  is_valid :
      (y : ℕ)
      → (st.tcb y).is_valid ≡ (
          if leb i y
          then (if ltb y (i + n) then false else (s.tcb y).is_valid)
          else (s.tcb y).is_valid)

init_loop-Cleared : (n i : ℕ) (s : State) → Cleared s (init_loop n i s) n i
unfolding init_loop
init_loop-Cleared zero i s = record {
  ready = refl;
  current = refl;
  queues = refl;
  index = λ y. refl;
  is_valid = λ y. ground arith;
}
init_loop-Cleared (suc n) i s =
    let s1 = put_thread s i (record (s.tcb i) { is_valid = false; has_lock = false }) in
    let ih = init_loop-Cleared n (i + 1) s1 in
    record {
      ready = ih.ready;
      current = ih.current;
      queues = ih.queues;
      index = λ y. ground (arith, ih.index y);
      is_valid = λ y. ground (arith, ih.is_valid y);
    }

Cleared-Represents :
    (s st : State)
    → Cleared s st 1023 1
    → s.current ≡ 0
    → s.ready ≡ record { head = none; tail = none }
    → ((q : ℕ) → (s.queues q).head ≡ none)
    → (s.tcb 0).is_valid ≡ true
    → (s.tcb 0).index ≡ 0
    → Represents only_main st
Cleared-Represents s st h c r empty v i = record {
  wf = only_main-IsWellFormed;
  current = h.current ∙ c;
  ready_seg = ap (λ (q : Queue). q.head) (h.ready ∙ r);
  ready_tail = inl (ap (λ (q : Queue). q.tail) (h.ready ∙ r));
  wait_seg = λ q. ap (λ (qs : ℕ → Queue). (qs q).head) h.queues ∙ empty q;
  wait_tail = λ q. tt;
  valid = λ x lt. ground (arith, h.is_valid x);
  bounded = λ x used. ground arith;
  index = λ x used. ground (arith, h.index x);
}

-- Where no wait queue holds a thread, `thread_init` gives a state in which the thread 0 runs and no
-- other identifier is in use.
pub thread_init-Represents :
    (s : State) → ((q : ℕ) → (s.queues q).head ≡ none) → Represents only_main (thread_init s)
unfolding thread_init
thread_init-Represents s empty =
    let s0 = record s { ready = record { head = none; tail = none }; current = 0 } in
    let main = record (s.tcb 0) { is_valid = true; index = 0; has_lock = false } in
    Cleared-Represents (put_thread s0 0 main) (init_loop (max_threads - 1) 1 (put_thread s0 0 main))
      (init_loop-Cleared (max_threads - 1) 1 (put_thread s0 0 main)) refl refl empty refl refl
