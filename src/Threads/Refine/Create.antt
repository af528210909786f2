-- ===== src/Threads/Refine/Create.antt =====
-- `thread_create`: the first free control block is taken, and the new thread is the last ready one.
use operating_systems_lab.Base.{
  ℕ, zero, suc, ◌+◌, ◌<◌, ◌≡◌, refl, sym, subst, Bool, true, false, Option, none, some, ◌==◌,
  ==_iff, inl, inr, Bool-cases, arith, ltb,
}
use operating_systems_lab.Base.Int.{pos}
use operating_systems_lab.Threads.State.{
  State, Context, start, thread_nomore, thread_nomemory, max_threads, interrupts_off,
}
use operating_systems_lab.Threads.Sched.{find_slot, stack_top, enqueue_new, thread_create}
use operating_systems_lab.Threads.Spec.{free, Threads, is_free, created, lost_at}
use operating_systems_lab.Threads.Spec.WellFormed.{lost-IsWellFormed}
use operating_systems_lab.Threads.Seg.{Seg-frame, ne_of_has}
use operating_systems_lab.Threads.Refine.{next_of, Represents, Represents-same, ReturnsTo}
use operating_systems_lab.Threads.Refine.Enqueue.{filled, Enqueued-Represents, enqueue-Enqueued}

-- The control blocks before the first free one are in use.
find_slot-first :
    (s : State) (i n j : ℕ)
    → (s.tcb i).is_valid ≡ false
    → ((k : ℕ) → k < i → (s.tcb k).is_valid ≡ true)
    → j + n ≡ max_threads
    → i < max_threads
    → ltb i j ≡ false
    → find_slot s n j ≡ some i
unfolding find_slot
find_slot-first s i zero j f used e lt le = absurd (ground arith)
find_slot-first s i (suc n) j f used e lt le = elim (Bool-cases (j == i)) [
  | inl hit ↦
      let fj : (s.tcb j).is_valid ≡ false =
        subst (λ k. (s.tcb k).is_valid ≡ false) (sym ((==_iff j i).0 hit)) f in
      ground (arith, fj)
  | inr miss ↦ ground (arith, used j, find_slot-first s i n (j + 1) f used (omega arith) lt)
]

find_slot-none :
    (s : State) (n j : ℕ)
    → ((k : ℕ) → k < max_threads → (s.tcb k).is_valid ≡ true)
    → j + n ≡ max_threads
    → find_slot s n j ≡ none
unfolding find_slot
find_slot-none s zero j used e = refl
find_slot-none s (suc n) j used e =
    ground (arith, used j, find_slot-none s n (j + 1) used (omega arith))

-- A control block that is taken without a thread for it.
lost-Represents :
    {a : Threads} {s : State}
    → Represents a s
    → (i : ℕ) → a.place i ≡ free
    → i < max_threads
    → (ctx : Context) (enable : Bool)
    → Represents (lost_at a i) (record (filled s i ctx none) { enabled = enable })
unfolding filled
lost-Represents {a} {s} rep i f lt ctx enable =
    let frame = Seg-frame (next_of s) (next_of (filled s i ctx none)) in
    record {
      wf = lost-IsWellFormed rep.wf i f;
      current = rep.current;
      ready_seg =
          frame s.ready.head a.ready none rep.ready_seg
            (λ y h. ground (arith, rep.wf.ready_place i, ne_of_has i y a.ready));
      ready_tail = rep.ready_tail;
      wait_seg = λ q.
          frame (s.queues q).head (a.waiting q) none (rep.wait_seg q)
            (λ y h. ground (arith, rep.wf.wait_place q i, ne_of_has i y (a.waiting q)));
      wait_tail = rep.wait_tail;
      valid = λ y h. ground (arith, rep.valid y h);
      bounded = λ y h. ground (arith, rep.bounded y);
      index = λ y h. ground (arith, rep.index y);
    }

-- `i` is the first identifier that is not in use.
pub record IsFirstFree (a : Threads) (i : ℕ) : Type 0 where
  pub free_here : a.place i ≡ free
  pub in_range : i < max_threads
  pub used_before : (k : ℕ) → k < i → is_free (a.place k) ≡ false

module _ {a : Threads} {s : State} (rep : Represents a s) where
  slot_first : (i : ℕ) → IsFirstFree a i → find_slot (interrupts_off s) max_threads 0 ≡ some i
  slot_first i first =
      find_slot-first (interrupts_off s) i max_threads 0
        (ground (arith, rep.valid i, first.free_here, first.in_range))
        (λ k lt. ground (arith, rep.valid k, first.used_before k, first.in_range)) refl
        first.in_range (ground arith)

  -- `thread_create` takes the first identifier that is not in use, makes the new thread the last
  -- ready one, and returns the identifier, if there is memory for a stack.
  pub thread_create-created :
      (fn arg p i : ℕ)
      → IsFirstFree a i
      → ReturnsTo (pos i) s.enabled (created a i) (thread_create fn arg (some p) s)
  unfolding thread_create filled
  thread_create-created fn arg p i first =
      let rep' = Represents-same false s.pending s.frees rep in
      let ctx = start fn arg (stack_top p) in
      let st = enqueue_new (filled (interrupts_off s) i ctx (some p)) i in
      let done : Represents (created a i) st =
        Enqueued-Represents rep' i first.free_here first.in_range
          (enqueue-Enqueued rep' i first.free_here first.in_range ctx (some p)) in
      rw (slot_first i first) (refl, refl, Represents-same s.enabled st.pending st.frees done)

  -- With every identifier in use `thread_create` returns `THREAD_NOMORE` and changes no queue.
  pub thread_create-nomore :
      (fn arg : ℕ) (mem : Option ℕ)
      → ((k : ℕ) → k < max_threads → is_free (a.place k) ≡ false)
      → ReturnsTo thread_nomore s.enabled a (thread_create fn arg mem s)
  unfolding thread_create
  thread_create-nomore fn arg mem used =
      let full : find_slot (interrupts_off s) max_threads 0 ≡ none =
        find_slot-none (interrupts_off s) max_threads 0
          (λ k lt. ground (arith, rep.valid k, used k)) refl in
      rw full (refl, refl, Represents-same s.enabled s.pending s.frees rep)

  -- Without memory for a stack `thread_create` returns `THREAD_NOMEMORY`, and the identifier that it
  -- had taken stays in use by no thread.
  pub thread_create-nomemory :
      (fn arg i : ℕ)
      → IsFirstFree a i
      → ReturnsTo thread_nomemory s.enabled (lost_at a i) (thread_create fn arg none s)
  unfolding thread_create filled
  thread_create-nomemory fn arg i first =
      rw (slot_first i first) (
        refl,
        refl,
        lost-Represents rep i first.free_here first.in_range (start fn arg 0) s.enabled,
      )
