-- ===== src/Threads/Sched/Yield.antt =====
-- `thread_yield`. Whether `getcontext` succeeds is an argument.
use operating_systems_lab.Base.{ℕ, Bool, not, Option, none, some, ltb, leb, ◌==◌, if◌then◌else◌}
use operating_systems_lab.Base.Int.{pos, negsuc}
use operating_systems_lab.Threads.State.{
  max_threads, Tid, thread_none, thread_invalid, thread_failed, in_switch, in_yield_to, State,
  Reply, switches, fault, hangs, set_next, set_context, set_head, interrupts_off, leave,
  free_pending,
}
use operating_systems_lab.Threads.Sched.Ready.{
  append_ready, Search, found, absent, endless, find_ready, unlink,
}

-- `thread_yield(THREAD_ANY)` with `head` the node `h`, behind the saved context. The caller goes
-- to the end before the head is taken off, so with one ready thread the head is the caller.
unfoldable pub rotate_ready : State → (cur h : ℕ) → Option State → Reply
rotate_ready s cur h none = fault
rotate_ready s cur h (some s') =
    switches (record (set_head s' (s'.tcb h).next) { current = (s'.tcb h).index })

unfoldable pub yield_any : (saved enable : Bool) → State → Option ℕ → Reply
unfolding append_ready rotate_ready
yield_any saved enable s none = leave enable thread_none s
yield_any saved enable s (some h) =
    let cur = s.current in
    let s1 = set_next s cur none in
    let s2 = set_context s1 cur (in_switch enable h) in
    if saved
    then rotate_ready s2 cur h (append_ready s2 cur s2.ready.tail)
    else leave enable thread_failed s1

-- `thread_yield(want)` for a thread found in the ready queue.
unfoldable pub take_ready : (want : ℕ) (pre : Option ℕ) (temp : ℕ) → Option State → Reply
unfolding unlink
take_ready want pre temp none = fault
take_ready want pre temp (some s') = switches (record (unlink s' pre temp) { current = want })

unfoldable pub yield_found : (saved enable : Bool) (want : ℕ) → State → Search → Reply
unfolding append_ready take_ready
yield_found saved enable want s endless = hangs
yield_found saved enable want s absent = elim s.ready.head [
  | none ↦ leave enable thread_none s
  | some h ↦ leave enable thread_invalid s
]
yield_found saved enable want s (found pre temp) =
    let cur = s.current in
    let s1 = set_context s cur (in_yield_to enable want) in
    if saved
    then take_ready want pre temp (append_ready s1 cur s1.ready.tail)
    else leave enable thread_failed s

-- The upper bound of the test is `want_tid > THREAD_MAX_THREADS`. A read of `TCB` at the end of the
-- array or behind it is a fault.
unfoldable pub yield_to : (saved enable : Bool) (want : ℕ) → State → Reply
unfolding find_ready yield_found
yield_to saved enable want s =
    if ltb max_threads want
    then leave enable thread_invalid s
    else if leb max_threads want
    then fault
    else if not (s.tcb want).is_valid
    then leave enable thread_invalid s
    else yield_found saved enable want s (find_ready s want max_threads none s.ready.head)

-- `thread_yield`, up to the switch. `THREAD_ANY` is -1 and `THREAD_SELF` is -2.
unfoldable pub yield_from : (saved enable : Bool) → Tid → State → Reply
unfolding yield_any yield_to
yield_from saved enable (negsuc k) s =
    if k == 1
    then leave enable (pos s.current) s
    else if k == 0
    then yield_any saved enable s s.ready.head
    else leave enable thread_invalid s
yield_from saved enable (pos want) s =
    if want == s.current then leave enable (pos s.current) s else yield_to saved enable want s

unfoldable pub thread_yield : (saved : Bool) → Tid → State → Reply
unfolding yield_from free_pending
thread_yield saved want s = yield_from saved s.enabled want (free_pending (interrupts_off s))
