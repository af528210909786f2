-- ===== src/Threads/Sched/Ready.antt =====
-- The ready queue: a thread at its end, the search for a thread, and taking one out.
use operating_systems_lab.Base.{ℕ, zero, suc, true, false, Option, none, some, ◌==◌}
use operating_systems_lab.Threads.State.{State, set_next, set_head, set_tail}

-- `tail->next = &TCB[i]; tail = tail->next; tail->next = NULL;` of the ready queue, behind a
-- null pointer `none`.
unfoldable pub append_ready : State → ℕ → Option ℕ → Option State
append_ready s i none = none
append_ready s i (some t) = some (set_next (set_tail (set_next s t (some i)) (some i)) i none)

-- The loop `while(temp != NULL)` over the ready queue: the match with the node before it.
pub data Search : Type 0 where
  found : (pre : Option ℕ) (temp : ℕ) → Search
  absent : Search
  endless : Search

unfoldable pub find_ready : State → ℕ → (fuel : ℕ) → (pre temp : Option ℕ) → Search
find_ready s tid fuel pre none = absent
find_ready s tid zero pre (some t) = endless
find_ready s tid (suc n) pre (some t) = elim ((s.tcb t).index == tid) [
  | true ↦ found pre t
  | false ↦ find_ready s tid n (some t) (s.tcb t).next
]

-- `if(pre == NULL) readyQ.head = readyQ.head->next; else pre->next = temp->next;` with `head` the
-- node `temp` in the first case.
unfoldable pub unlink : State → (pre : Option ℕ) → (temp : ℕ) → State
unlink s none temp = set_head s (s.tcb temp).next
unlink s (some p) temp = set_next s p (s.tcb temp).next
