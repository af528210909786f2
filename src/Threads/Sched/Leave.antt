-- ===== src/Threads/Sched/Leave.antt =====
-- `thread_exit`, `thread_kill`, `thread_stub`, and what a thread does when it goes on.
use operating_systems_lab.Base.{
  ℕ, Bool, true, false, not, Option, none, some, ◌∷◌, ltb, ◌==◌, if◌then◌else◌,
}
use operating_systems_lab.Base.Int.{pos, negsuc}
use operating_systems_lab.Threads.State.{
  max_threads, Tid, thread_none, thread_invalid, start, in_switch, in_yield_to, State, Reply,
  returns, switches, fault, hangs, exits, Context, unused, put_thread, set_head, set_tail,
  interrupts_off, leave, free_pending, stack,
}
use operating_systems_lab.Threads.Sched.Ready.{Search, found, absent, endless, find_ready, unlink}

-- `thread_exit`, up to the switch
unfoldable pub exit_to : Bool → State → Option ℕ → Reply
exit_to enable s none = leave enable thread_none s
exit_to enable s (some h) =
    let cur = s.current in
    let s1 = put_thread s cur (record (s.tcb cur) { is_valid = false }) in
    switches (record (set_head s1 (s1.tcb h).next) {
      pending = (s1.tcb cur).stack_memory;
      current = (s1.tcb h).index;
    })

unfoldable pub thread_exit : State → Reply
unfolding exit_to free_pending
thread_exit s = let s1 = free_pending (interrupts_off s) in exit_to s.enabled s1 s1.ready.head

unfoldable pub free_memory : State → Option ℕ → State
free_memory s none = s
free_memory s (some p) = record s { frees = stack p ∷ s.frees }

-- `free(TCB[tid].stack_memory); TCB[tid].stack_memory = NULL;`, not for the main thread
unfoldable pub free_stack : State → ℕ → State
unfolding free_memory
free_stack s tid =
    if tid == 0
    then s
    else free_memory (put_thread s tid (record (s.tcb tid) { stack_memory = none }))
        (s.tcb tid).stack_memory

-- `if(temp->next == NULL) readyQ.tail = pre;`
unfoldable pub fix_tail : State → (pre : Option ℕ) → Option ℕ → State
fix_tail s pre none = set_tail s pre
fix_tail s pre (some n) = s

unfoldable pub kill_found : Bool → ℕ → State → Search → Reply
unfolding unlink fix_tail free_stack
kill_found enable tid s endless = hangs
kill_found enable tid s absent = leave enable thread_invalid s
kill_found enable tid s (found pre temp) =
    let s1 = unlink s pre temp in
    let s2 = fix_tail s1 pre (s1.tcb temp).next in
    let s3 = put_thread s2 tid (record (s2.tcb tid) { is_valid = false }) in
    leave enable (pos tid) (free_stack s3 tid)

unfoldable pub kill_tid : Bool → ℕ → State → Reply
unfolding find_ready kill_found
kill_tid enable tid s =
    if tid == s.current
    then leave enable thread_invalid s
    else if not (ltb tid max_threads)
    then leave enable thread_invalid s
    else if not (s.tcb tid).is_valid
    then leave enable thread_invalid s
    else kill_found enable tid s (find_ready s tid max_threads none s.ready.head)

unfoldable pub thread_kill : Tid → State → Reply
unfolding kill_tid
thread_kill (negsuc k) s = leave s.enabled thread_invalid (interrupts_off s)
thread_kill (pos tid) s = kill_tid s.enabled tid (interrupts_off s)

-- What a thread does where its saved context is restored: it is `current`, and goes on behind
-- `getcontext` with `setcontext_flag` 1, or runs its function from `thread_stub`.
pub data Resumed : Type 0 where
  goes_on : Reply → Resumed
  runs : (fn arg : ℕ) → State → Resumed

unfoldable pub resume_at : Context → State → Resumed
resume_at unused s = goes_on fault
resume_at (start fn arg sp) s = runs fn arg (record s { enabled = true })
resume_at (in_switch enable temp_head) s = goes_on (leave enable (pos (s.tcb temp_head).index) s)
resume_at (in_yield_to enable want) s = goes_on (leave enable (pos want) s)

unfoldable pub resume : State → Resumed
unfolding resume_at
resume s = resume_at (s.tcb s.current).context s

-- The rest of `thread_stub` behind `thread_main(arg)`: `assert(ret == THREAD_NONE); exit(0);`
unfoldable pub stub_end : Reply → Reply
stub_end (returns (negsuc k) s) = if k == 3 then exits s else fault
stub_end (returns (pos n) s) = fault
stub_end r = r

unfoldable pub thread_stub_end : State → Reply
unfolding stub_end
thread_stub_end s = stub_end (thread_exit s)
