-- ===== src/Threads/Refine/Woken.antt =====
-- States in which threads of a wait queue are moved behind the ready threads.
use operating_systems_lab.Base.{
  ℕ, ◌≡◌, sym, subst, ◌∙◌, false, none, List, ◌++◌, ◌==◌, ==_iff, inl, inr, Bool-cases, arith,
}
use operating_systems_lab.Threads.State.{State, Queue, update}
use operating_systems_lab.Threads.Spec.{Threads, Place, is_free, has, IsWellFormed}
use operating_systems_lab.Threads.Seg.{Seg, IsTail, Seg-frame}
use operating_systems_lab.Threads.Refine.{next_of, Represents, IsReadyTail}

-- The state `st` is `s` with `moved` behind the ready threads and `rest` in the queue `q`.
pub record Woken (a : Threads) (s st : State) (q : ℕ) (v : Queue) (moved rest : List ℕ)
    : Type 0 where
  pub current : st.current ≡ s.current
  pub queues : (r : ℕ) → st.queues r ≡ update s.queues q v r
  pub ready_seg : Seg (next_of st) st.ready.head (a.ready ++ moved) none
  pub ready_tail : IsReadyTail st.ready.tail a.current (a.ready ++ moved)
  pub seg : Seg (next_of st) v.head rest none
  pub tail : IsTail v.tail rest
  pub index : (y : ℕ) → (st.tcb y).index ≡ (s.tcb y).index
  pub is_valid : (y : ℕ) → (st.tcb y).is_valid ≡ (s.tcb y).is_valid
  pub others :
      (y : ℕ) → has y a.ready ≡ false → has y (a.waiting q) ≡ false → next_of st y ≡ next_of s y

abbrev pub moved_to : Threads → ℕ → (moved rest : List ℕ) → (ℕ → Place) → Threads
moved_to a q moved rest place = record a {
  ready = a.ready ++ moved;
  waiting = update a.waiting q rest;
  place = place;
}

module _ {a : Threads} {s st : State} (rep : Represents a s) (q : ℕ) (v : Queue)
    (moved rest : List ℕ) (h : Woken a s st q v moved rest) where
  seg_at : (r : ℕ) → Seg (next_of st) (update s.queues q v r).head (update a.waiting q rest r) none
  seg_at r = elim (Bool-cases (q == r)) [
    | inl same ↦ rw (same) (h.seg)
    | inr other ↦ rw (other) (
        Seg-frame (next_of s) (next_of st) (s.queues r).head (a.waiting r) none (rep.wait_seg r)
          (λ y hy.
            h.others y (ground (arith, rep.wf.wait_place r y, rep.wf.ready_place y))
              (ground (arith, rep.wf.wait_place r y, rep.wf.wait_place q y, (==_iff q r).1))))
  ]

  tail_at : (r : ℕ) → IsTail (update s.queues q v r).tail (update a.waiting q rest r)
  tail_at r = elim (Bool-cases (q == r)) [
    | inl same ↦ rw (same) (h.tail)
    | inr other ↦ rw (other) (rep.wait_tail r)
  ]

  pub Woken-Represents :
      (place : ℕ → Place)
      → IsWellFormed (moved_to a q moved rest place)
      → ((y : ℕ) → is_free (place y) ≡ is_free (a.place y))
      → Represents (moved_to a q moved rest place) st
  Woken-Represents place wf same = record {
    wf = wf;
    current = h.current ∙ rep.current;
    ready_seg = h.ready_seg;
    ready_tail = h.ready_tail;
    wait_seg = λ r.
        subst (λ (v : Queue). Seg (next_of st) v.head (update a.waiting q rest r) none)
          (sym (h.queues r)) (seg_at r);
    wait_tail = λ r.
        subst (λ (v : Queue). IsTail v.tail (update a.waiting q rest r)) (sym (h.queues r))
          (tail_at r);
    valid = λ y hy. ground (arith, h.is_valid y, rep.valid y hy, same y);
    bounded = λ y hy. rep.bounded y (sym (same y) ∙ hy);
    index = λ y hy. h.index y ∙ rep.index y (sym (same y) ∙ hy);
  }
