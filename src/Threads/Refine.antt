-- ===== src/Threads/Refine.antt =====
-- The pointers of thread.c stand for the lists of `Spec`.
pub mod Create
pub mod Enqueue
pub mod Sleep
pub mod Woken
pub mod Init
pub mod Lock
pub mod Cond
pub mod Release
pub mod Wake
pub mod WakeOne
pub mod Exit
pub mod Find
pub mod Unlink
pub mod Kill
pub mod KillAt
pub mod Rotate
pub mod Take
pub mod Yield
use operating_systems_lab.Base.{
  ℕ, ◌<◌, ◌≡◌, ◌⊎◌, inr, Bool, true, false, not, Option, none, some, List, [], ◌∷◌, ◌++◌, ◌==◌,
  subst, ◌∙◌, arith,
}
use operating_systems_lab.Threads.State.{
  max_threads, Tid, State, Block, interrupts_off, free_block, free_pending, Reply, returns,
  switches, fault, hangs, exits,
}
use operating_systems_lab.Threads.Spec.{is_free, Threads, has, Distinct, IsWellFormed}
use operating_systems_lab.Threads.Seg.{Next, Seg, last, IsTail, Seg-frame}

abbrev pub next_of : State → Next
next_of s x = (s.tcb x).next

-- The tail of the ready queue; that of an empty one is null or, as nobody resets it, the thread
-- that was taken off last, which runs.
abbrev pub IsReadyTail : Option ℕ → ℕ → List ℕ → Type 0
IsReadyTail t cur [] = (t ≡ none) ⊎ (t ≡ some cur)
IsReadyTail t cur (x ∷ xs) = t ≡ some (last x xs)

-- The state `s` stands for `a`: every queue's pointers lead through its list, and the control block
-- of each thread in use is valid, in range and knows its own index.
pub record Represents (a : Threads) (s : State) : Type 0 where
  pub wf : IsWellFormed a
  pub current : s.current ≡ a.current
  pub ready_seg : Seg (next_of s) s.ready.head a.ready none
  pub ready_tail : IsReadyTail s.ready.tail a.current a.ready
  pub wait_seg : (q : ℕ) → Seg (next_of s) (s.queues q).head (a.waiting q) none
  pub wait_tail : (q : ℕ) → IsTail (s.queues q).tail (a.waiting q)
  pub valid : (x : ℕ) → x < max_threads → (s.tcb x).is_valid ≡ not (is_free (a.place x))
  pub bounded : (x : ℕ) → is_free (a.place x) ≡ false → x < max_threads
  pub index : (x : ℕ) → is_free (a.place x) ≡ false → (s.tcb x).index ≡ x

-- The call switches to a state that stands for `a`.
abbrev pub SwitchesTo : Threads → Reply → Type 0
SwitchesTo a (switches s) = Represents a s
SwitchesTo a (returns r s) = ⊥
SwitchesTo a fault = ⊥
SwitchesTo a hangs = ⊥
SwitchesTo a (exits s) = ⊥

-- The call returns `r`, with the interrupts as they were, in a state that stands for `a`.
abbrev pub ReturnsTo : Tid → Bool → Threads → Reply → Type 0
ReturnsTo r enable a (returns r' s) = (r' ≡ r) × (s.enabled ≡ enable) × Represents a s
ReturnsTo r enable a (switches s) = ⊥
ReturnsTo r enable a fault = ⊥
ReturnsTo r enable a hangs = ⊥
ReturnsTo r enable a (exits s) = ⊥

-- What is changed outside the queues does not matter to them.
pub Represents-same :
    {a : Threads} {s : State} (enabled : Bool) (pending : Option ℕ) (frees : List Block)
    → Represents a s
    → Represents a (record s { enabled = enabled; pending = pending; frees = frees })
Represents-same enabled pending frees rep = record {
  wf = rep.wf;
  current = rep.current;
  ready_seg = rep.ready_seg;
  ready_tail = rep.ready_tail;
  wait_seg = rep.wait_seg;
  wait_tail = rep.wait_tail;
  valid = rep.valid;
  bounded = rep.bounded;
  index = rep.index;
}

free_block-Represents :
    {a : Threads} {s : State} (p : Option ℕ)
    → Represents a s
    → Represents a (free_block (interrupts_off s) p)
unfolding free_block
free_block-Represents {s} none rep = Represents-same false s.pending s.frees rep
free_block-Represents {s} (some p) rep = Represents-same false none (Block.stack p ∷ s.frees) rep

-- Freeing the stack of the thread that exited before changes no queue.
pub free_pending-Represents :
    {a : Threads} {s : State} → Represents a s → Represents a (free_pending (interrupts_off s))
unfolding free_pending
free_pending-Represents {s} rep = free_block-Represents s.pending rep

module _ {a : Threads} {s : State} (rep : Represents a s) (x : ℕ) (xs : List ℕ)
    (e : a.ready ≡ x ∷ xs) where
  pub ready_head : s.ready.head ≡ some x
  ready_head = (subst (λ l. Seg (next_of s) s.ready.head l none) e rep.ready_seg).0

  pub ready_rest : Seg (next_of s) (s.tcb x).next xs none
  ready_rest = (subst (λ l. Seg (next_of s) s.ready.head l none) e rep.ready_seg).1

  pub ready_last : s.ready.tail ≡ some (last x xs)
  ready_last = subst (λ l. IsReadyTail s.ready.tail a.current l) e rep.ready_tail

  -- The tail is good for the rest of the queue, if the first thread runs.
  pub rest_tail : IsReadyTail s.ready.tail x xs
  rest_tail = go xs ready_last
    where
      go : (ys : List ℕ) → s.ready.tail ≡ some (last x ys) → IsReadyTail s.ready.tail x ys
      go [] h = inr h
      go (y ∷ ys) h = h

module _ {a : Threads} {s : State} (rep : Represents a s) (e : a.ready ≡ []) where
  pub no_head : s.ready.head ≡ none
  no_head = subst (λ l. Seg (next_of s) s.ready.head l none) e rep.ready_seg

-- The same queues and the same control blocks, but for what the queues do not use.
pub record Same (s s' : State) : Type 0 where
  pub current : s'.current ≡ s.current
  pub ready : s'.ready ≡ s.ready
  pub queues : s'.queues ≡ s.queues
  pub next : (y : ℕ) → (s'.tcb y).next ≡ (s.tcb y).next
  pub index : (y : ℕ) → (s'.tcb y).index ≡ (s.tcb y).index
  pub is_valid : (y : ℕ) → (s'.tcb y).is_valid ≡ (s.tcb y).is_valid

pub Represents-Same : {a : Threads} {s s' : State} → Same s s' → Represents a s → Represents a s'
Represents-Same {a} {s} {s'} same rep =
    let frame = Seg-frame (next_of s) (next_of s') in
    record {
      wf = rep.wf;
      current = same.current ∙ rep.current;
      ready_seg =
          rw (same.ready) (frame s.ready.head a.ready none rep.ready_seg (λ y h. same.next y));
      ready_tail = rw (same.ready) (rep.ready_tail);
      wait_seg = λ q.
          rw (same.queues)
            (frame (s.queues q).head (a.waiting q) none (rep.wait_seg q) (λ y h. same.next y));
      wait_tail = λ q. rw (same.queues) (rep.wait_tail q);
      valid = λ x h. same.is_valid x ∙ rep.valid x h;
      bounded = rep.bounded;
      index = λ x h. same.index x ∙ rep.index x h;
    }
