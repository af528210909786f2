-- ===== src/Threads/Interrupt/Preempt.antt =====
-- What a timer signal of threads/interrupt.c does to the threads.
use operating_systems_lab.Base.{ℕ, ◌≡◌, refl, true, false, List, [], ◌∷◌}
use operating_systems_lab.Threads.State.{
  State, thread_any, thread_none, Reply, returns, switches, fault, hangs, exits, interrupts_off,
}
use operating_systems_lab.Threads.Sched.Yield.{thread_yield}
use operating_systems_lab.Threads.Spec.{Threads, yielded}
use operating_systems_lab.Threads.Refine.{Represents, Represents-same, ReturnsTo, SwitchesTo}
use operating_systems_lab.Threads.Refine.Yield.{thread_yield-any, thread_yield-none}
use operating_systems_lab.Threads.Interrupt.{
  Timer, yielding, set_interrupt, timed, interrupt_handler, Delivered, goes_on, preempted,
  handler_ends, deliver,
}

-- The signal, with the ready threads: with none the same thread goes on with interrupts enabled, and else
-- the first runs and the thread is the last; an alarm is set again.
pub data Preempts (a : Threads) : List ℕ → Delivered → Type 0 where
  alone :
      (t : Timer) (s : State)
      → t.armed ≡ true
      → s.enabled ≡ true
      → Represents a s
      → Preempts a [] (goes_on t s)
  next_runs :
      (x : ℕ) (xs : List ℕ) (t : Timer) (s : State)
      → t.armed ≡ true
      → Represents (yielded a x) s
      → Preempts a (x ∷ xs) (preempted t s)

handler_ends-alone :
    {a : Threads} (t : Timer) (r : Reply)
    → t.armed ≡ true
    → ReturnsTo thread_none false a r
    → Preempts a [] (handler_ends (yielding t r))
unfolding handler_ends
handler_ends-alone t (returns r s) armed (same, off, rep) =
    alone t (record s { enabled = true }) armed refl (Represents-same true s.pending s.frees rep)
handler_ends-alone t (switches s) armed h = absurd h
handler_ends-alone t fault armed h = absurd h
handler_ends-alone t hangs armed h = absurd h
handler_ends-alone t (exits s) armed h = absurd h

handler_ends-next :
    {a : Threads} (x : ℕ) (xs : List ℕ) (t : Timer) (r : Reply)
    → t.armed ≡ true
    → SwitchesTo (yielded a x) r
    → Preempts a (x ∷ xs) (handler_ends (yielding t r))
unfolding handler_ends
handler_ends-next x xs t (switches s) armed rep = next_runs x xs t s armed rep
handler_ends-next x xs t (returns r s) armed h = absurd h
handler_ends-next x xs t fault armed h = absurd h
handler_ends-next x xs t hangs armed h = absurd h
handler_ends-next x xs t (exits s) armed h = absurd h

-- A timer signal in a state that stands for threads, with interrupts enabled, where `getcontext`
-- succeeds: the assertion of the handler holds, an alarm is set again, and the first ready thread runs,
-- with the interrupted one behind all others; or, with no ready thread, the interrupted one goes on
-- with the same queues and interrupts enabled.
pub deliver-Preempts :
    {a : Threads} {s : State} (t : Timer)
    → Represents a s
    → s.enabled ≡ true
    → Preempts a a.ready (deliver true t s)
unfolding deliver interrupt_handler set_interrupt
deliver-Preempts {a} {s} t rep on = rw (deliver, on) (go a.ready refl)
  where
    off : Represents a (interrupts_off s)
    off = Represents-same false s.pending s.frees rep

    go :
        (ready : List ℕ)
        → a.ready ≡ ready
        → Preempts a ready (
            handler_ends (
              yielding
                (set_interrupt (timed (record t { armed = false })))
                (thread_yield true thread_any (interrupts_off s))))
    go [] e = handler_ends-alone _ _ refl (thread_yield-none off e)
    go (x ∷ xs) e = handler_ends-next x xs _ _ refl (thread_yield-any x xs off e)
