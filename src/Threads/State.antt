-- ===== src/Threads/State.antt =====
-- The state of thread.c. A pointer to a thread control block is its index in `TCB`, a null pointer
-- is `none`. A saved context is the place where the thread goes on when `setcontext` restores it,
-- with the locals that it reads there.
use operating_systems_lab.Base.{ℕ, Bool, false, Option, none, some, List, ◌∷◌, ◌==◌, if◌then◌else◌}
use operating_systems_lab.Base.Int.{ℤ, negsuc}

-- `THREAD_MAX_THREADS` and `THREAD_MIN_STACK`
abbrev pub max_threads : ℕ
max_threads = 1024

abbrev pub min_stack : ℕ
min_stack = 32768

-- `Tid`, and its control and error codes
abbrev pub Tid : Type 0
Tid = ℤ

abbrev pub thread_any : Tid
thread_any = negsuc 0

abbrev pub thread_self : Tid
thread_self = negsuc 1

abbrev pub thread_invalid : Tid
thread_invalid = negsuc 2

abbrev pub thread_none : Tid
thread_none = negsuc 3

abbrev pub thread_nomore : Tid
thread_nomore = negsuc 4

abbrev pub thread_nomemory : Tid
thread_nomemory = negsuc 5

abbrev pub thread_failed : Tid
thread_failed = negsuc 6

-- Where a thread goes on: at the start of `thread_stub` with its function and argument and the
-- stack pointer, or behind `getcontext` in `thread_yield` or `thread_sleep`, where it sets the
-- interrupts as they were and returns `temp_head->index` or `want_tid`.
pub data Context : Type 0 where
  unused : Context
  start : (fn arg sp : ℕ) → Context
  in_switch : (enable : Bool) (temp_head : ℕ) → Context
  in_yield_to : (enable : Bool) (want : ℕ) → Context

-- `struct thread`
pub record Thread : Type 0 where
  pub is_valid : Bool
  pub index : ℕ
  pub has_lock : Bool
  pub context : Context
  pub stack_memory : Option ℕ
  pub next : Option ℕ

-- `struct ready_queue` and `struct wait_queue`
pub record Queue : Type 0 where
  pub head : Option ℕ
  pub tail : Option ℕ

-- `struct lock`
pub record Lock : Type 0 where
  pub wait_q : ℕ
  pub available : Bool

-- What `free` was called on.
pub data Block : Type 0 where
  stack queue lock cv : ℕ → Block

-- The globals `TCB`, `readyQ`, `current_thread_id` and `stack_mem_to_be_deleted`, the wait queues,
-- locks and condition variables (a condition variable is its queue) by address, the signal mask
-- and the calls of `free`, the latest first.
pub record State : Type 0 where
  pub tcb : ℕ → Thread
  pub ready : Queue
  pub current : ℕ
  pub pending : Option ℕ
  pub queues : ℕ → Queue
  pub locks : ℕ → Lock
  pub cvs : ℕ → ℕ
  pub enabled : Bool
  pub frees : List Block

-- What a call does: it returns, or it leaves the processor to `current`, or it does neither in a
-- defined way (a null pointer, an index past the array, a failed assertion), or it never ends, or
-- it ends the process.
pub data Reply : Type 0 where
  returns : Tid → State → Reply
  switches : State → Reply
  fault : Reply
  hangs : Reply
  exits : State → Reply

abbrev pub update {ℓ} : {A : Type ℓ} → (ℕ → A) → ℕ → A → ℕ → A
update f i v j = if i == j then v else f j

abbrev pub put_thread : State → ℕ → Thread → State
put_thread s i t = record s { tcb = update s.tcb i t }

-- `TCB[i].next = p`
abbrev pub set_next : State → ℕ → Option ℕ → State
set_next s i p = put_thread s i (record (s.tcb i) { next = p })

abbrev pub set_context : State → ℕ → Context → State
set_context s i c = put_thread s i (record (s.tcb i) { context = c })

abbrev pub set_head : State → Option ℕ → State
set_head s p = record s { ready = record (s.ready) { head = p } }

abbrev pub set_tail : State → Option ℕ → State
set_tail s p = record s { ready = record (s.ready) { tail = p } }

abbrev pub put_queue : State → ℕ → Queue → State
put_queue s q v = record s { queues = update s.queues q v }

-- `interrupts_set(0)`, whose result is the old `enabled`
abbrev pub interrupts_off : State → State
interrupts_off s = record s { enabled = false }

-- `interrupts_set(enable); return r;`
abbrev pub leave : Bool → Tid → State → Reply
leave enable r s = returns r (record s { enabled = enable })

-- `if (stack_mem_to_be_deleted != NULL) { free(...); ... = NULL; }`
unfoldable pub free_block : State → Option ℕ → State
free_block s none = s
free_block s (some p) = record s { pending = none; frees = stack p ∷ s.frees }

unfoldable pub free_pending : State → State
unfolding free_block
free_pending s = free_block s s.pending
