-- ===== src/Threads/Lock.antt =====
-- Locks and condition variables. A call that blocks is cut where it switches: `acquire_pass` is one
-- round of the loop of `lock_acquire`, and runs again when the thread goes on behind the sleep.
-- Pointers to locks and condition variables are addresses, `none` is a null pointer.
use operating_systems_lab.Base.{
  ℕ, zero, suc, Bool, true, false, Option, none, some, ◌∷◌, if◌then◌else◌,
}
use operating_systems_lab.Threads.State.{
  Lock, State, Reply, returns, switches, fault, hangs, exits, Block, update, put_thread, put_queue,
  interrupts_off,
}
use operating_systems_lab.Threads.Wait.{
  no_threads, wait_queue_create, wait_queue_destroy, thread_sleep, thread_wakeup,
}

abbrev pub put_lock : State → ℕ → Lock → State
put_lock s l v = record s { locks = update s.locks l v }

abbrev pub set_enabled : Bool → State → State
set_enabled enable s = record s { enabled = enable }

-- `malloc` gives the lock's address, then the queue's.
unfoldable pub lock_create_in : Bool → (l q : ℕ) → Option State → Option State
lock_create_in enable l q none = none
lock_create_in enable l q (some s) =
    some (set_enabled enable (put_lock s l (record { wait_q = q; available = true })))

unfoldable pub lock_create : (l q : ℕ) → State → Option State
unfolding lock_create_in
lock_create l q s = lock_create_in s.enabled l q (wait_queue_create (some q) (interrupts_off s))

unfoldable pub lock_destroy : (lock : Option ℕ) → State → Option State
lock_destroy none s = none
lock_destroy (some l) s =
    if (s.locks l).available
    then (let s1 = wait_queue_destroy (s.locks l).wait_q s in
        some (record s1 { frees = Block.lock l ∷ s1.frees }))
    else some s

-- How a pass through a blocking call ends: the call is over, the thread sleeps and goes on with
-- the named pass, or it goes round at once.
pub data Pass : Type 0 where
  over : State → Pass
  sleeps : State → Pass
  again : State → Pass
  stuck : Pass

unfoldable pub slept : Reply → Pass
slept (returns r s) = again s
slept (switches s) = sleeps s
slept fault = stuck
slept hangs = stuck
slept (exits s) = stuck

-- `while(!lock->available) thread_sleep(lock->waitQ);` and what follows. `enable` is the local of
-- `lock_acquire`.
unfoldable pub acquire_pass : (enable saved : Bool) → (l : ℕ) → State → Pass
unfolding slept
acquire_pass enable saved l s =
    if (s.locks l).available
    then (let s1 = put_thread s s.current (record (s.tcb s.current) { has_lock = true }) in
        let s2 = put_lock s1 l (record (s1.locks l) { available = false }) in
        over (set_enabled enable s2))
    else slept (thread_sleep saved (some (s.locks l).wait_q) s)

-- The rounds of the loop behind the first pass, as long as it goes round at once.
unfoldable pub acquire_rounds : (rounds : ℕ) (enable saved : Bool) → (l : ℕ) → Pass → Pass
unfolding acquire_pass
acquire_rounds zero enable saved l p = p
acquire_rounds (suc n) enable saved l (over s) = over s
acquire_rounds (suc n) enable saved l (sleeps s) = sleeps s
acquire_rounds (suc n) enable saved l stuck = stuck
acquire_rounds (suc n) enable saved l (again s) =
    acquire_rounds n enable saved l (acquire_pass enable saved l s)

unfoldable pub lock_acquire : (saved : Bool) → (lock : Option ℕ) → State → Pass
lock_acquire saved none s = stuck
lock_acquire saved (some l) s = acquire_pass s.enabled saved l (interrupts_off s)

unfoldable pub reply_state : Reply → Option State
reply_state (returns r s) = some s
reply_state r = none

unfoldable pub restore : Bool → Option State → Option State
restore enable none = none
restore enable (some s) = some (set_enabled enable s)

-- The check that the caller holds the lock is a comment in the source.
unfoldable pub release_held : (l : ℕ) → State → Option State
unfolding reply_state
release_held l s =
    let s1 = put_lock s l (record (s.locks l) { available = true }) in
    let s2 = put_thread s1 s1.current (record (s1.tcb s1.current) { has_lock = false }) in
    reply_state (thread_wakeup (some (s2.locks l).wait_q) true s2)

unfoldable pub lock_release : (lock : Option ℕ) → State → Option State
unfolding release_held restore
lock_release none s = none
lock_release (some l) s =
    if (s.locks l).available then some s else restore s.enabled (release_held l (interrupts_off s))

-- A condition variable is the address of its queue.
unfoldable pub cv_create : (c q : ℕ) → State → State
cv_create c q s = put_queue (record s { cvs = update s.cvs c q }) q no_threads

unfoldable pub cv_destroy : (cv : Option ℕ) → State → Option State
cv_destroy none s = none
cv_destroy (some c) s =
    let s1 = wait_queue_destroy (s.cvs c) s in some (record s1 { frees = Block.cv c ∷ s1.frees })

-- `cv_wait` up to the sleep; the thread goes on with `lock_acquire`, then `cv_wait_end`.
unfoldable pub cv_wait_sleep : (saved : Bool) → (c : ℕ) → Option State → Pass
unfolding slept
cv_wait_sleep saved c none = stuck
cv_wait_sleep saved c (some s) = slept (thread_sleep saved (some (s.cvs c)) s)

unfoldable pub cv_wait : (saved : Bool) → (cv lock : Option ℕ) → State → Pass
unfolding cv_wait_sleep
cv_wait saved none lock s = stuck
cv_wait saved (some c) none s = stuck
cv_wait saved (some c) (some l) s =
    if (s.locks l).available
    then over s
    else cv_wait_sleep saved c (lock_release (some l) (interrupts_off s))

-- The end of `cv_wait`, behind `lock_acquire`, with the local `enable` of `cv_wait`.
unfoldable pub cv_wait_end : (enable : Bool) → State → State
cv_wait_end = set_enabled

-- `cv_signal` and `cv_broadcast` wake one and all.
unfoldable pub cv_wake : (all : Bool) → (cv lock : Option ℕ) → State → Option State
unfolding reply_state restore
cv_wake all none lock s = none
cv_wake all (some c) none s = none
cv_wake all (some c) (some l) s =
    if (s.locks l).available
    then some s
    else restore s.enabled (reply_state (thread_wakeup (some (s.cvs c)) all (interrupts_off s)))

unfoldable pub cv_signal : (cv lock : Option ℕ) → State → Option State
unfolding cv_wake
cv_signal = cv_wake false

unfoldable pub cv_broadcast : (cv lock : Option ℕ) → State → Option State
unfolding cv_wake
cv_broadcast = cv_wake true
