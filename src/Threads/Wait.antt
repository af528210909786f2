-- ===== src/Threads/Wait.antt =====
-- Wait queues: `wait_queue_create`, `wait_queue_destroy`, `thread_sleep` and `thread_wakeup`.
-- A queue is named by its address, which `malloc` gives, and `none` is a null pointer.
use operating_systems_lab.Base.{ℕ, zero, suc, ◌+◌, Bool, Option, none, some, ◌∷◌, if◌then◌else◌}
use operating_systems_lab.Base.Int.{pos}
use operating_systems_lab.Threads.State.{
  max_threads, thread_none, thread_invalid, thread_failed, in_switch, Queue, State, Reply, switches,
  fault, hangs, Block, set_next, set_context, set_head, set_tail, put_queue, interrupts_off, leave,
}

abbrev pub no_threads : Queue
no_threads = record { head = none; tail = none }

-- `assert(wq)` fails where `malloc` does.
unfoldable pub wait_queue_create : (mem : Option ℕ) → State → Option State
wait_queue_create none s = none
wait_queue_create (some q) s = some (put_queue s q no_threads)

unfoldable pub wait_queue_destroy : ℕ → State → State
wait_queue_destroy q s = record s { frees = Block.queue q ∷ s.frees }

-- `add to wait_Q at the end`. Behind `tail->next = &TCB[i]`, `tail->next` is `&TCB[i]`.
unfoldable pub enqueue_wait : State → (q i : ℕ) → (head tail : Option ℕ) → Option State
enqueue_wait s q i none tail =
    some (set_next (put_queue s q (record { head = some i; tail = some i })) i none)
enqueue_wait s q i (some h) none = none
enqueue_wait s q i (some h) (some t) = some (
    set_next (put_queue (set_next s t (some i)) q (record { head = some h; tail = some i })) i none)

-- `switch to the new thread wiz. head of readyQ`
unfoldable pub sleep_switch : (h : ℕ) → Option State → Reply
sleep_switch h none = fault
sleep_switch h (some s') =
    switches (record (set_head s' (s'.tcb h).next) { current = (s'.tcb h).index })

unfoldable pub sleep_on : (saved enable : Bool) → (q : ℕ) → State → Option ℕ → Reply
unfolding enqueue_wait sleep_switch
sleep_on saved enable q s none = leave enable thread_none s
sleep_on saved enable q s (some h) =
    let cur = s.current in
    let s1 = set_context s cur (in_switch enable h) in
    if saved
    then sleep_switch h (enqueue_wait s1 q cur (s1.queues q).head (s1.queues q).tail)
    else leave enable thread_failed s

unfoldable pub thread_sleep : (saved : Bool) → (queue : Option ℕ) → State → Reply
unfolding sleep_on
thread_sleep saved none s = leave s.enabled thread_invalid (interrupts_off s)
thread_sleep saved (some q) s = sleep_on saved s.enabled q (interrupts_off s) s.ready.head

-- The loop that counts the threads from `temp` on; `none` where it does not end.
unfoldable pub count_threads : State → (fuel : ℕ) → (temp : Option ℕ) → (c : ℕ) → Option ℕ
count_threads s fuel none c = some c
count_threads s zero (some t) c = none
count_threads s (suc n) (some t) c = count_threads s n (s.tcb t).next (c + 1)

-- `readyQ.head = queue->head; readyQ.tail = queue->tail; readyQ.tail->next = NULL;` on an empty
-- ready queue, and the same behind `readyQ.tail->next = queue->head` otherwise.
unfoldable pub splice : State → (h : ℕ) → (qtail rhead rtail : Option ℕ) → Option State
splice s h none rhead rtail = none
splice s h (some t) none rtail = some (set_next (set_tail (set_head s (some h)) (some t)) t none)
splice s h (some t) (some r) none = none
splice s h (some t) (some r) (some e) =
    some (set_next (set_tail (set_next s e (some h)) (some t)) t none)

unfoldable pub woken : (enable : Bool) → State → Option ℕ → Reply
woken enable s none = hangs
woken enable s (some c) = leave enable (pos c) s

-- The queue keeps its head while the threads are counted.
unfoldable pub wake_all : (enable : Bool) → (q h : ℕ) → Option State → Reply
unfolding count_threads woken
wake_all enable q h none = fault
wake_all enable q h (some s) =
    woken enable (put_queue s q no_threads) (count_threads s max_threads (some h) 0)

-- The first thread of the queue goes to the end of the ready queue; the queue's tail stays.
unfoldable pub wake_one : State → (q h : ℕ) → (rhead rtail : Option ℕ) → Option State
wake_one s q h none rtail =
    let s1 = set_tail (set_head s (some h)) (some h) in
    let s2 = put_queue s1 q (record (s.queues q) { head = (s.tcb h).next }) in
    some (set_next s2 h none)
wake_one s q h (some r) none = none
wake_one s q h (some r) (some e) =
    let s1 = set_tail (set_next s e (some h)) (some h) in
    let s2 = put_queue s1 q (record (s1.queues q) { head = (s1.tcb h).next }) in
    some (set_next s2 h none)

unfoldable pub woke_one : (enable : Bool) → Option State → Reply
woke_one enable none = fault
woke_one enable (some s) = leave enable (pos 1) s

unfoldable pub wake_from : (enable all : Bool) → (q : ℕ) → State → Option ℕ → Reply
unfolding splice wake_all wake_one woke_one
wake_from enable all q s none = leave enable (pos 0) s
wake_from enable all q s (some h) =
    if all
    then wake_all enable q h (splice s h (s.queues q).tail s.ready.head s.ready.tail)
    else woke_one enable (wake_one s q h s.ready.head s.ready.tail)

unfoldable pub thread_wakeup : (queue : Option ℕ) → (all : Bool) → State → Reply
unfolding wake_from
thread_wakeup none all s = leave s.enabled (pos 0) (interrupts_off s)
thread_wakeup (some q) all s = wake_from s.enabled all q (interrupts_off s) (s.queues q).head
