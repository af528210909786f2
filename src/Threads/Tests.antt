-- ===== src/Threads/Tests.antt =====
-- The theorems on threads at states with one, two and three threads.
use operating_systems_lab.Base.{◌≡◌, refl, true, false, none, some, inl, [], ◌==◌, ltb, arith, ◌∷◌}
use operating_systems_lab.Base.Int.{pos}
use operating_systems_lab.Threads.State.{
  State, Reply, returns, switches, fault, hangs, exits, unused, thread_any, thread_nomemory,
}
use operating_systems_lab.Threads.Sched.{
  thread_init, thread_create, thread_yield, thread_exit, thread_kill,
}
use operating_systems_lab.Threads.Wait.{
  thread_sleep, thread_wakeup, sleep_on, enqueue_wait, sleep_switch,
}
use operating_systems_lab.Threads.Lock.{
  lock_acquire, lock_release, acquire_rounds, cv_signal, cv_broadcast,
}
use operating_systems_lab.Threads.Spec.{
  Threads, created, yielded, exited, slept, woke_one, woke_all, lost_at,
}
use operating_systems_lab.Threads.Spec.WellFormed.{created-IsWellFormed}
use operating_systems_lab.Threads.Refine.{Represents, SwitchesTo, ReturnsTo}
use operating_systems_lab.Threads.Refine.Init.{
  only_main, only_main-IsWellFormed, thread_init-Represents,
}
use operating_systems_lab.Threads.Refine.Create.{
  IsFirstFree, thread_create-created, thread_create-nomemory,
}
use operating_systems_lab.Threads.Refine.Yield.{YieldsTo, thread_yield-any, thread_yield-YieldsTo}
use operating_systems_lab.Threads.Refine.Exit.{thread_exit-exited}
use operating_systems_lab.Threads.Refine.Kill.{Killed, thread_kill-Killed}
use operating_systems_lab.Threads.Refine.Sleep.{thread_sleep-slept}
use operating_systems_lab.Threads.Refine.Wake.{thread_wakeup-all}
use operating_systems_lab.Threads.Refine.WakeOne.{thread_wakeup-one}
use operating_systems_lab.Threads.Refine.Lock.{
  Takes, SleepsFor, Spins, lock_acquire-Takes, lock_acquire-SleepsFor, lock_acquire-Spins,
}
use operating_systems_lab.Threads.Refine.Release.{Releases, released, lock_release-Releases}
use operating_systems_lab.Threads.Interrupt.{Timer, deliver}
use operating_systems_lab.Threads.Interrupt.Preempt.{Preempts, deliver-Preempts}
use operating_systems_lab.Threads.Refine.Cond.{EndsIn, cv_signal-EndsIn, cv_broadcast-EndsIn}

-- Only the main thread. The lock 0 is available, any other is taken, and its queue is the lock's
-- address.
abbrev one : State
one = record {
  tcb = λ x. record {
    is_valid = x == 0;
    index = x;
    has_lock = false;
    context = unused;
    stack_memory = none;
    next = none;
  };
  ready = record { head = none; tail = none };
  current = 0;
  pending = none;
  queues = λ q. record { head = none; tail = none };
  locks = λ l. record { wait_q = l; available = l == 0 };
  cvs = λ c. c;
  enabled = true;
  frees = [];
}

one-Represents : Represents only_main one
one-Represents = record {
  wf = only_main-IsWellFormed;
  current = refl;
  ready_seg = refl;
  ready_tail = inl refl;
  wait_seg = λ q. refl;
  wait_tail = λ q. tt;
  valid = λ x lt. ground arith;
  bounded = λ x used. ground arith;
  index = λ x used. refl;
}

-- Thread 1 is ready.
abbrev two : State
two = record one {
  tcb = λ x. record {
    is_valid = ltb x 2;
    index = x;
    has_lock = false;
    context = unused;
    stack_memory = none;
    next = none;
  };
  ready = record { head = some 1; tail = some 1 };
}

abbrev main_and_one : Threads
main_and_one = created only_main 1

two-Represents : Represents main_and_one two
two-Represents = record {
  wf = created-IsWellFormed only_main-IsWellFormed 1 refl;
  current = refl;
  ready_seg = (refl, refl);
  ready_tail = refl;
  wait_seg = λ q. refl;
  wait_tail = λ q. tt;
  valid = λ x lt. ground arith;
  bounded = λ x used. ground arith;
  index = λ x used. refl;
}

one_is_free : IsFirstFree only_main 1
one_is_free = record {
  free_here = refl;
  in_range = omega arith;
  used_before = λ k lt. ground arith;
}

thread_init-Represents_example : Represents only_main (thread_init two)
thread_init-Represents_example = thread_init-Represents two (λ q. refl)

thread_create-created_example :
    ReturnsTo (pos 1) true main_and_one (thread_create 7 8 (some 40000) one)
thread_create-created_example = thread_create-created one-Represents 7 8 40000 1 one_is_free

thread_create-nomemory_example :
    ReturnsTo thread_nomemory true (lost_at only_main 1) (thread_create 7 8 none one)
thread_create-nomemory_example = thread_create-nomemory one-Represents 7 8 1 one_is_free

thread_yield-any_example : SwitchesTo (yielded main_and_one 1) (thread_yield true thread_any two)
thread_yield-any_example = thread_yield-any 1 [] two-Represents refl

thread_yield-YieldsTo_example : YieldsTo main_and_one 1 true true (thread_yield true (pos 1) two)
thread_yield-YieldsTo_example = thread_yield-YieldsTo 1 two-Represents (omega arith) (omega arith)

thread_exit-exited_example : SwitchesTo (exited main_and_one 1 []) (thread_exit two)
thread_exit-exited_example = thread_exit-exited 1 [] two-Represents refl

thread_kill-Killed_example : Killed main_and_one 1 true true (thread_kill (pos 1) two)
thread_kill-Killed_example = thread_kill-Killed 1 two-Represents

thread_sleep-slept_example : SwitchesTo (slept main_and_one 5 1 []) (thread_sleep true (some 5) two)
thread_sleep-slept_example = thread_sleep-slept 5 1 [] two-Represents refl

-- The state behind a switch.
abbrev behind : Reply → State
behind (switches s) = s
behind (returns r s) = one
behind fault = one
behind hangs = one
behind (exits s) = one

behind-Represents : {a : Threads} (r : Reply) → SwitchesTo a r → Represents a (behind r)
behind-Represents (switches s) h = h
behind-Represents (returns r s) h = absurd h
behind-Represents fault h = absurd h
behind-Represents hangs h = absurd h
behind-Represents (exits s) h = absurd h

-- The main thread waits in the queue 5, and thread 1 runs.
asleep : State
asleep = behind (thread_sleep true (some 5) two)

asleep-Represents : Represents (slept main_and_one 5 1 []) asleep
unfolding asleep
asleep-Represents = behind-Represents (thread_sleep true (some 5) two) thread_sleep-slept_example

thread_wakeup-all_example :
    ReturnsTo
      (pos 1)
      asleep.enabled
      (woke_all (slept main_and_one 5 1 []) 5)
      (thread_wakeup (some 5) true asleep)
thread_wakeup-all_example = thread_wakeup-all 5 0 [] asleep-Represents refl

thread_wakeup-one_example :
    ReturnsTo
      (pos 1)
      asleep.enabled
      (woke_one (slept main_and_one 5 1 []) 5 0 [])
      (thread_wakeup (some 5) false asleep)
thread_wakeup-one_example = thread_wakeup-one 5 0 [] asleep-Represents refl

lock_acquire-Takes_example : Takes main_and_one true 0 (lock_acquire true (some 0) two)
lock_acquire-Takes_example = lock_acquire-Takes 0 two-Represents refl

lock_acquire-SleepsFor_example :
    SleepsFor (slept main_and_one 3 1 []) 3 (lock_acquire true (some 3) two)
lock_acquire-SleepsFor_example = lock_acquire-SleepsFor 3 1 [] two-Represents refl refl

lock_acquire-Spins_example :
    Spins only_main 3 (acquire_rounds 50 true true 3 (lock_acquire true (some 3) one))
lock_acquire-Spins_example = lock_acquire-Spins 50 3 one-Represents refl refl

lock_release-Releases_example :
    Releases (released main_and_one 3) true 3 (lock_release (some 3) two)
lock_release-Releases_example = lock_release-Releases 3 two-Represents refl

abbrev quiet_timer : Timer
quiet_timer = record { loud = false; first = true; init = true; armed = true }

deliver-Preempts_example : Preempts main_and_one main_and_one.ready (deliver true quiet_timer two)
deliver-Preempts_example = deliver-Preempts quiet_timer two-Represents refl

asleep_lock : (asleep.locks 3).available ≡ false
unfolding asleep thread_sleep sleep_on enqueue_wait sleep_switch
asleep_lock = refl

asleep_queue : (slept main_and_one 5 1 []).waiting (asleep.cvs 5) ≡ 0 ∷ []
unfolding asleep thread_sleep sleep_on enqueue_wait sleep_switch
asleep_queue = refl

cv_signal-EndsIn_example :
    EndsIn
      (woke_one (slept main_and_one 5 1 []) (asleep.cvs 5) 0 [])
      asleep.enabled
      (cv_signal (some 5) (some 3) asleep)
cv_signal-EndsIn_example = cv_signal-EndsIn 5 3 0 [] asleep-Represents asleep_lock asleep_queue

cv_broadcast-EndsIn_example :
    EndsIn
      (woke_all (slept main_and_one 5 1 []) (asleep.cvs 5))
      asleep.enabled
      (cv_broadcast (some 5) (some 3) asleep)
cv_broadcast-EndsIn_example =
    cv_broadcast-EndsIn 5 3 0 [] asleep-Represents asleep_lock asleep_queue
