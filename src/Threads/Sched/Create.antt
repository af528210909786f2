-- ===== src/Threads/Sched/Create.antt =====
-- `thread_init`, `thread_id` and `thread_create`. What `malloc` returns is an argument.
use operating_systems_lab.Base.{
  ℕ, zero, suc, ◌+◌, ◌-◌, ◌%◌, Bool, true, false, Option, none, some, ◌==◌,
}
use operating_systems_lab.Base.Int.{pos}
use operating_systems_lab.Threads.State.{
  max_threads, min_stack, thread_nomore, thread_nomemory, start, State, Reply, returns, put_thread,
  set_next, set_head, set_tail, interrupts_off, leave,
}

-- One round of the loop of `thread_init`, and the loop by the rounds left.
unfoldable pub init_loop : (rounds i : ℕ) → State → State
init_loop zero i s = s
init_loop (suc n) i s =
    init_loop n (i + 1) (put_thread s i (record (s.tcb i) { is_valid = false; has_lock = false }))

unfoldable pub thread_init : State → State
unfolding init_loop
thread_init s =
    let s0 = record s { ready = record { head = none; tail = none }; current = 0 } in
    let main = record (s.tcb 0) { is_valid = true; index = 0; has_lock = false } in
    init_loop (max_threads - 1) 1 (put_thread s0 0 main)

-- The second call of `interrupts_set` stands behind the `return`.
unfoldable pub thread_id : State → Reply
thread_id s = returns (pos s.current) (interrupts_off s)

-- The loop that looks for a free control block; `none` is its `return THREAD_NOMORE`.
unfoldable pub find_slot : State → (rounds i : ℕ) → Option ℕ
find_slot s zero i = none
find_slot s (suc n) i = elim (s.tcb i).is_valid [
  | false ↦ some i
  | true ↦ elim (i == max_threads - 1) [ true ↦ none | false ↦ find_slot s n (i + 1) ]
]

-- The stack pointer of a new thread: the top of the block, aligned, less 8.
unfoldable pub stack_top : ℕ → ℕ
stack_top p = let top = p + min_stack in top - top % 16 - 8

-- `put in end of ready state`. Behind `tail->next = &TCB[i]`, `tail->next` is `&TCB[i]`.
unfoldable pub link_tail : State → ℕ → Option ℕ → State
link_tail s i none = set_tail s (some i)
link_tail s i (some t) = set_tail (set_next s t (some i)) (some i)

unfoldable pub fill_head : State → Option ℕ → State
fill_head s none = set_head s s.ready.tail
fill_head s (some h) = s

unfoldable pub enqueue_new : State → ℕ → State
unfolding link_tail fill_head
enqueue_new s i = let s1 = link_tail s i s.ready.tail in fill_head s1 s1.ready.head

-- `thread_create` once it has a slot; `mem` is the new stack, `none` if `malloc` fails. The slot
-- is taken before the allocation and not given back.
unfoldable pub create_in : Bool → (fn arg : ℕ) → (mem : Option ℕ) → ℕ → State → Reply
create_in enable fn arg none i s = leave enable thread_nomemory (
    put_thread s i (record (s.tcb i) {
      is_valid = true;
      index = i;
      next = none;
      context = start fn arg 0;
      stack_memory = none;
    }))
create_in enable fn arg (some p) i s = leave enable (pos i) (
    enqueue_new
      (put_thread s i (record (s.tcb i) {
        is_valid = true;
        index = i;
        next = none;
        context = start fn arg (stack_top p);
        stack_memory = some p;
      }))
      i)

unfoldable pub slot_found : Bool → (fn arg : ℕ) → (mem : Option ℕ) → State → Option ℕ → Reply
unfolding create_in
slot_found enable fn arg mem s none = leave enable thread_nomore s
slot_found enable fn arg mem s (some i) = create_in enable fn arg mem i s

unfoldable pub thread_create : (fn arg : ℕ) → (mem : Option ℕ) → State → Reply
unfolding slot_found find_slot
thread_create fn arg mem s =
    slot_found s.enabled fn arg mem (interrupts_off s) (find_slot s max_threads 0)
