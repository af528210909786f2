-- ===== src/Threads/Refine/Wake.antt =====
-- `thread_wakeup`: the first thread of a wait queue, or all of them, go to the end of the ready queue.
use operating_systems_lab.Base.{
  ℕ, zero, suc, ◌+◌, ◌≡◌, refl, sym, ap, subst, ◌∙◌, Bool, true, false, Option, none, some, List,
  [], ◌∷◌, ◌++◌, length, ◌≤◌, ◌==◌, ==_iff, arith,
}
use operating_systems_lab.Base.Int.{pos}
use operating_systems_lab.Threads.State.{
  State, Queue, set_next, set_head, set_tail, put_queue, interrupts_off, max_threads,
}
use operating_systems_lab.Threads.Wait.{
  splice, wake_all, wake_from, thread_wakeup, no_threads, count_threads, woken,
}
use operating_systems_lab.Threads.Spec.{Threads, has, Distinct, woke_all}
use operating_systems_lab.Threads.Spec.WellFormed.{woke_all-IsWellFormed}
use operating_systems_lab.Threads.Seg.{
  Next, Seg, last, last-append, has-last, IsTail, Seg-frame, Seg-join, ne_of_has,
}
use operating_systems_lab.Threads.Refine.{
  next_of, Represents, Represents-same, ReturnsTo, IsReadyTail, ready_head, ready_last, no_head,
}
use operating_systems_lab.Threads.Refine.Find.{length-le_of_Distinct}
use operating_systems_lab.Threads.Refine.Woken.{Woken, Woken-Represents}
use operating_systems_lab.Threads.Seg.{Seg-split}

-- The loop counts the threads of a queue that fits.
count_threads-length :
    (s : State) (fuel : ℕ) (p : Option ℕ) (xs : List ℕ) (c : ℕ)
    → Seg (next_of s) p xs none
    → length xs ≤ fuel
    → count_threads s fuel p c ≡ some (c + length xs)
unfolding count_threads
count_threads-length s fuel p [] c seg le = rw (seg) (ground arith)
count_threads-length s zero p (x ∷ xs) c seg le = ground arith
count_threads-length s (suc n) p (x ∷ xs) c seg le =
    rw (seg.0)
      (count_threads-length s n (s.tcb x).next xs (c + 1) seg.1 (ground arith) ∙ ground arith)

pub last-next :
    (next : Next) (p : Option ℕ) (x : ℕ) (xs : List ℕ) (r : Option ℕ)
    → Seg next p (x ∷ xs) r
    → next (last x xs) ≡ r
last-next next p x [] r seg = seg.1
last-next next p x (y ∷ ys) r seg = last-next next (next x) y ys r seg.1

IsReadyTail-append : (c x : ℕ) (xs l : List ℕ) → IsReadyTail (some (last x xs)) c (l ++ x ∷ xs)
IsReadyTail-append c x xs [] = refl
IsReadyTail-append c x xs (y ∷ ys) = ap some (sym (last-append y ys x xs))

module _ {a : Threads} {s : State} (rep : Represents a s) (q x : ℕ) (xs : List ℕ)
    (w : a.waiting q ≡ x ∷ xs) where
  pub waits_seg : Seg (next_of s) (some x) (x ∷ xs) none
  waits_seg = (refl, (subst (λ l. Seg (next_of s) (s.queues q).head l none) w (rep.wait_seg q)).1)

  pub wait_head : (s.queues q).head ≡ some x
  wait_head = (subst (λ l. Seg (next_of s) (s.queues q).head l none) w (rep.wait_seg q)).0

  pub wait_last : (s.queues q).tail ≡ some (last x xs)
  wait_last = subst (λ l. IsTail (s.queues q).tail l) w (rep.wait_tail q)

  pub waits : (y : ℕ) → has y (x ∷ xs) ≡ has y (a.waiting q)
  waits y = ap (has y) (sym w)

  -- No thread is both in the wait queue and ready.
  pub apart : (y : ℕ) → has y (x ∷ xs) ≡ true → has y a.ready ≡ false
  apart y h = ground (arith, waits y, rep.wf.wait_place q y, rep.wf.ready_place y)

  abbrev spliced_first : State
  spliced_first = set_next (set_tail (set_head s (some x)) (some (last x xs))) (last x xs) none

  abbrev spliced_last : ℕ → State
  spliced_last e = set_next (set_tail (set_next s e (some x)) (some (last x xs))) (last x xs) none

  spliced_first-Woken :
      a.ready ≡ [] → Woken a s (put_queue spliced_first q no_threads) q no_threads (x ∷ xs) []
  spliced_first-Woken e =
      let next : (y : ℕ) → next_of spliced_first y ≡ next_of s y = λ y.
        ground
          (arith, last-next (next_of s) (some x) x xs none waits_seg, (==_iff (last x xs) y).0) in
      record {
        current = refl;
        queues = λ r. refl;
        ready_seg =
            subst (λ l. Seg (next_of spliced_first) (some x) (l ++ x ∷ xs) none) (sym e)
              (Seg-frame (next_of s) (next_of spliced_first) (some x) (x ∷ xs) none waits_seg
                (λ y h. next y));
        ready_tail = IsReadyTail-append a.current x xs a.ready;
        seg = refl;
        tail = tt;
        index = λ y. ground arith;
        is_valid = λ y. ground arith;
        others = λ y n m. next y;
      }

  spliced_last-Woken :
      (y : ℕ) (ys : List ℕ)
      → a.ready ≡ y ∷ ys
      → Woken a s (put_queue (spliced_last (last y ys)) q no_threads) q no_threads (x ∷ xs) []
  spliced_last-Woken y ys e =
      let e_ready : has (last y ys) a.ready ≡ true = rw e (has-last y ys) in
      let t_waits : has (last x xs) (x ∷ xs) ≡ true = has-last x xs in
      let ne : (last y ys == last x xs) ≡ false =
        ground
          (arith, ne_of_has (last x xs) (last y ys) a.ready (apart (last x xs) t_waits) e_ready) in
      let new = next_of (spliced_last (last y ys)) in
      let t_end = last-next (next_of s) (some x) x xs none waits_seg in
      let moved : (z : ℕ) → has z (x ∷ xs) ≡ true → new z ≡ next_of s z = λ z h. ground (
        arith,
        t_end,
        (==_iff (last x xs) z).0,
        ne_of_has z (last y ys) a.ready (apart z h) e_ready,
      ) in
      record {
        current = refl;
        queues = λ r. refl;
        ready_seg =
            subst (λ l. Seg new s.ready.head (l ++ x ∷ xs) none) (sym e)
              (Seg-join (next_of s) new s.ready.head (some x) y ys (x ∷ xs)
                (subst Distinct e rep.wf.ready_distinct)
                (subst (λ l. Seg (next_of s) s.ready.head l none) e rep.ready_seg)
                (Seg-frame (next_of s) new (some x) (x ∷ xs) none waits_seg moved) (ground arith)
                (λ z h n. ground (arith, t_end, (==_iff (last x xs) z).0)));
        ready_tail = IsReadyTail-append a.current x xs a.ready;
        seg = refl;
        tail = tt;
        index = λ z. ground arith;
        is_valid = λ z. ground arith;
        others = λ z n m. ground (
          arith,
          ne_of_has z (last y ys) a.ready n e_ready,
          ne_of_has z (last x xs) (x ∷ xs) (waits z ∙ m) t_waits,
        );
      }

  moved_count :
      {st : State} {v : Queue} {rest : List ℕ}
      → Woken a s st q v (x ∷ xs) rest
      → count_threads st max_threads (some x) 0 ≡ some (length (x ∷ xs))
  moved_count {st} {v} {rest} h =
      let (p, l, r) = Seg-split (next_of st) st.ready.head none a.ready (x ∷ xs) h.ready_seg in
      count_threads-length st max_threads (some x) (x ∷ xs) 0 (refl, r.1)
        (length-le_of_Distinct max_threads (x ∷ xs) (subst Distinct w (rep.wf.wait_distinct q))
          (λ y hy. rep.bounded y (ground (arith, waits y, rep.wf.wait_place q y))))
      ∙ ground arith

  -- Any splice that moves the whole queue makes the call return its length.
  wake_all-woke_all :
      (enable : Bool) (st : State)
      → Woken a s (put_queue st q no_threads) q no_threads (x ∷ xs) []
      → ReturnsTo (pos (length (x ∷ xs))) enable (woke_all a q) (wake_all enable q x (some st))
  unfolding wake_all woken
  wake_all-woke_all enable st h =
      let st1 = put_queue st q no_threads in
      rw (moved_count h, ReturnsTo)
        (
          refl,
          refl,
          Represents-same enable st.pending st.frees (
              Woken-Represents rep q no_threads (a.waiting q) []
                (subst (λ l. Woken a s st1 q no_threads l []) (sym w) h) (woke_all a q).place
                (woke_all-IsWellFormed rep.wf q) (λ y. ground (arith, rep.wf.wait_place q y))),
        )

  wake_all-returns :
      (enable : Bool)
      → ReturnsTo
          (pos (length (x ∷ xs)))
          enable
          (woke_all a q)
          (wake_all enable q x (splice s x (s.queues q).tail s.ready.head s.ready.tail))
  unfolding splice
  wake_all-returns enable = go a.ready refl
    where
      goal : Option ℕ → Option ℕ → Option ℕ → Type 0
      goal t h e =
          ReturnsTo (pos (length (x ∷ xs))) enable (woke_all a q)
            (wake_all enable q x (splice s x t h e))

      go : (l : List ℕ) → a.ready ≡ l → goal (s.queues q).tail s.ready.head s.ready.tail
      go [] e =
          subst (λ t. goal t s.ready.head s.ready.tail) (sym wait_last)
            (subst (λ h. goal (some (last x xs)) h s.ready.tail) (sym (no_head rep e))
              (wake_all-woke_all enable spliced_first (spliced_first-Woken e)))
      go (y ∷ ys) e =
          subst (λ t. goal t s.ready.head s.ready.tail) (sym wait_last)
            (subst (λ h. goal (some (last x xs)) h s.ready.tail) (sym (ready_head rep y ys e))
              (subst (λ r. goal (some (last x xs)) (some y) r) (sym (ready_last rep y ys e))
                (wake_all-woke_all enable (spliced_last (last y ys)) (spliced_last-Woken y ys e))))

pub nobody_waits :
    {a : Threads} {s : State} (q : ℕ) → Represents a s → a.waiting q ≡ [] → (s.queues q).head ≡ none
nobody_waits {a} {s} q rep w =
    subst (λ l. Seg (next_of s) (s.queues q).head l none) w (rep.wait_seg q)

-- `thread_wakeup(q, all)` with `all` 0 or 1 and nobody in the queue returns 0 and changes nothing.
pub thread_wakeup-nobody :
    {a : Threads} {s : State} (q : ℕ) (all : Bool)
    → Represents a s
    → a.waiting q ≡ []
    → ReturnsTo (pos 0) s.enabled a (thread_wakeup (some q) all s)
unfolding thread_wakeup wake_from
thread_wakeup-nobody {a} {s} q all rep w =
    subst (λ h. ReturnsTo (pos 0) s.enabled a (wake_from s.enabled all q (interrupts_off s) h))
      (sym (nobody_waits q rep w)) (refl, refl, Represents-same s.enabled s.pending s.frees rep)

-- `thread_wakeup(q, 1)` moves all threads of a wait queue, in their order, behind the ready threads,
-- leaves the queue empty, and returns how many they were.
pub thread_wakeup-all :
    {a : Threads} {s : State} (q x : ℕ) (xs : List ℕ)
    → Represents a s
    → a.waiting q ≡ x ∷ xs
    → ReturnsTo (pos (length (x ∷ xs))) s.enabled (woke_all a q) (thread_wakeup (some q) true s)
unfolding thread_wakeup wake_from
thread_wakeup-all {a} {s} q x xs rep w =
    let off = Represents-same false s.pending s.frees rep in
    subst
      (λ h.
        ReturnsTo (pos (length (x ∷ xs))) s.enabled (woke_all a q)
          (wake_from s.enabled true q (interrupts_off s) h))
      (sym (wait_head off q x xs w)) (wake_all-returns off q x xs w s.enabled)
