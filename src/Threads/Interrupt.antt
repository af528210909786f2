-- ===== src/Threads/Interrupt.antt =====
-- threads/interrupt.c: the timer signal that preempts a thread. The signal mask is `enabled` of the threads'
-- state; the timer of the host and the globals of the file are a record. The host calls the handler with
-- the signal blocked, and sets the mask back when it returns. `saved` says whether `getcontext` succeeds.
pub mod Preempt
use operating_systems_lab.Base.{Bool, true, false, not, Option, none, some, if◌then◌else◌}
use operating_systems_lab.Threads.State.{
  State, Tid, thread_any, Reply, returns, switches, fault, hangs, exits, interrupts_off,
}
use operating_systems_lab.Threads.Sched.Yield.{thread_yield}

-- `loud`, `first`, `init`, and whether an alarm is set
pub record Timer : Type 0 where
  pub loud : Bool
  pub first : Bool
  pub init : Bool
  pub armed : Bool

-- The result tells whether interrupts were enabled.
unfoldable pub interrupts_set : (enabled : Bool) → State → Bool × State
interrupts_set enabled s = (s.enabled, record s { enabled = enabled })

unfoldable pub interrupts_on : State → Bool × State
unfolding interrupts_set
interrupts_on s = interrupts_set true s

unfoldable pub interrupts_enabled : State → Bool
interrupts_enabled s = s.enabled

unfoldable pub interrupts_quiet : Timer → Timer
interrupts_quiet t = record t { loud = false }

unfoldable pub set_interrupt : Timer → Timer
set_interrupt t = record t { armed = true }

-- A second call fails its assertion.
unfoldable pub register_interrupt_handler : (verbose : Bool) → Timer → Option Timer
unfolding set_interrupt
register_interrupt_handler verbose t =
    if t.init then none else some (set_interrupt (record t { init = true; loud = verbose }))

-- The mask around the printing, and behind it
unfoldable pub unintr_printf : State → State × State
unfolding interrupts_set
unintr_printf s =
    let (enabled, s1) = interrupts_set false s in
    let (was, s2) = interrupts_set enabled s1 in (s1, s2)

-- The handler, up to what its `thread_yield` does, or its failed assertion
pub data Handled : Type 0 where
  failed : Handled
  yielding : Timer → Reply → Handled

-- The time of a loud handler is only printed.
abbrev pub timed : Timer → Timer
timed t = if t.loud then record t { first = false } else t

unfoldable pub interrupt_handler : (saved : Bool) → Timer → State → Handled
unfolding interrupts_enabled set_interrupt
interrupt_handler saved t s =
    if interrupts_enabled s
    then failed
    else yielding (set_interrupt (timed t)) (thread_yield saved thread_any s)

-- What becomes of a signal: it waits while it is blocked; or the handler runs, and the same thread goes
-- on, or another.
pub data Delivered : Type 0 where
  waits : Delivered
  goes_on : Timer → State → Delivered
  preempted : Timer → State → Delivered
  undefined : Delivered

unfoldable pub handler_ends : Handled → Delivered
handler_ends failed = undefined
handler_ends (yielding t (returns r s)) = goes_on t (record s { enabled = true })
handler_ends (yielding t (switches s)) = preempted t s
handler_ends (yielding t fault) = undefined
handler_ends (yielding t hangs) = undefined
handler_ends (yielding t (exits s)) = undefined

-- The alarm goes off; it is not set again by itself.
unfoldable pub deliver : (saved : Bool) → Timer → State → Delivered
unfolding interrupt_handler handler_ends
deliver saved t s =
    if s.enabled
    then handler_ends (interrupt_handler saved (record t { armed = false }) (interrupts_off s))
    else waits
