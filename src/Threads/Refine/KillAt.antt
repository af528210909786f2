-- ===== src/Threads/Refine/KillAt.antt =====
-- `thread_kill` of a thread that was found in the ready queue.
use operating_systems_lab.Base.{
  ℕ, ◌≡◌, refl, sym, ap, subst, ◌∙◌, Bool, true, false, Option, none, some, List, [], ◌∷◌, ◌++◌,
  ◌==◌, inl, inr, Bool-cases, arith,
}
use mathlib.Core.List.{append-nil}
use operating_systems_lab.Base.Int.{pos}
use operating_systems_lab.Threads.State.{State, set_tail, put_thread}
use operating_systems_lab.Threads.Sched.{
  found, unlink, fix_tail, free_stack, kill_found, free_memory,
}
use operating_systems_lab.Threads.Spec.{Threads, has, Distinct, erase, killed}
use operating_systems_lab.Threads.Spec.WellFormed.{has-append, killed-IsWellFormed}
use operating_systems_lab.Threads.Seg.{Next, Seg, last-append, Seg-frame, Seg-split}
use operating_systems_lab.Threads.Refine.{
  next_of, Represents, Represents-same, ReturnsTo, IsReadyTail, Same, Represents-Same,
}
use operating_systems_lab.Threads.Refine.Find.{IsPre}
use operating_systems_lab.Threads.Refine.Unlink.{
  erase_middle, index-unlink, is_valid-unlink, next-unlink, Seg-unlink, tail-unlink, queues-unlink,
  current-unlink,
}

module _ {a : Threads} {s : State} (rep : Represents a s) (pre : Option ℕ) (t : ℕ) (ls rs : List ℕ)
    (e : a.ready ≡ ls ++ t ∷ rs) (new : has t ls ≡ false) (is : IsPre pre ls) where
  pub ready_has : has t a.ready ≡ true
  ready_has = ground (arith, e, has-append t ls (t ∷ rs))

  left_of : erase t a.ready ≡ ls ++ rs
  left_of = rw e (erase_middle t ls rs new)

  -- The thread that is killed stands in no wait queue, and no node before it does.
  wait_frame : (q : ℕ) → Seg (next_of (unlink s pre t)) (s.queues q).head (a.waiting q) none
  wait_frame q =
      Seg-frame (next_of s) (next_of (unlink s pre t)) (s.queues q).head (a.waiting q) none
        (rep.wait_seg q)
        (λ y h. next-unlink s pre t ls y is (
          ground (arith, e, has-append y ls (t ∷ rs), rep.wf.wait_place q y, rep.wf.ready_place y)))

  behind : Seg (next_of s) (next_of s t) rs none
  behind =
      let (q, front, back) =
        Seg-split (next_of s) s.ready.head none ls (t ∷ rs)
          (subst (λ l. Seg (next_of s) s.ready.head l none) e rep.ready_seg) in
      back.1

  tail_was : IsReadyTail s.ready.tail a.current (ls ++ t ∷ rs)
  tail_was = subst (λ l. IsReadyTail s.ready.tail a.current l) e rep.ready_tail

-- The tail is the node before where the last thread was taken out, and stays otherwise.
fix_tail-IsReadyTail :
    (s : State) (cur : ℕ) (pre : Option ℕ) (t : ℕ) (n : Option ℕ) (next : Next) (ls rs : List ℕ)
    → IsPre pre ls
    → Seg next n rs none
    → IsReadyTail s.ready.tail cur (ls ++ t ∷ rs)
    → IsReadyTail (fix_tail s pre n).ready.tail cur (ls ++ rs)
unfolding fix_tail
fix_tail-IsReadyTail s cur pre t n next [] [] is seg tail = rw (seg, fix_tail) (inl is)
fix_tail-IsReadyTail s cur pre t n next (x ∷ xs) [] is seg tail = rw (seg, fix_tail, append-nil) is
fix_tail-IsReadyTail s cur pre t n next [] (r ∷ rs) is seg tail = rw (seg.0, fix_tail) tail
fix_tail-IsReadyTail s cur pre t n next (x ∷ xs) (r ∷ rs) is seg tail =
    rw (seg.0, fix_tail)
      (tail ∙ ap some (last-append x xs t (r ∷ rs) ∙ sym (last-append x xs r rs)))

fix_tail-eq :
    (s : State) (pre n : Option ℕ) → fix_tail s pre n ≡ set_tail s (fix_tail s pre n).ready.tail
unfolding fix_tail
fix_tail-eq s pre none = refl
fix_tail-eq s pre (some n) = refl

free_memory-Same : (s s' : State) (p : Option ℕ) → Same s s' → Same s (free_memory s' p)
unfolding free_memory
free_memory-Same s s' none same = same
free_memory-Same s s' (some p) same = record {
  current = same.current;
  ready = same.ready;
  queues = same.queues;
  next = same.next;
  index = same.index;
  is_valid = same.is_valid;
}

free_stack-Same : (s : State) (t : ℕ) → Same s (free_stack s t)
unfolding free_stack
free_stack-Same s t = elim (Bool-cases (t == 0)) [
  | inl e ↦
      rw (e, free_stack)
        (record {
          current = refl;
          ready = refl;
          queues = refl;
          next = λ y. refl;
          index = λ y. refl;
          is_valid = λ y. refl;
        })
  | inr e ↦
      rw (e, free_stack)
        (free_memory-Same s (put_thread s t (record (s.tcb t) { stack_memory = none })) _ (record {
          current = refl;
          ready = refl;
          queues = refl;
          next = λ y. ground arith;
          index = λ y. ground arith;
          is_valid = λ y. ground arith;
        }))
]

module _ {a : Threads} {s : State} (rep : Represents a s) (pre : Option ℕ) (t : ℕ) (ls rs : List ℕ)
    (e : a.ready ≡ ls ++ t ∷ rs) (new : has t ls ≡ false) (is : IsPre pre ls) where
  -- The state behind the unlinking, with `tail` for the tail and the control block given back.
  unlinked : Option ℕ → State
  unlinked tail =
      let s2 = set_tail (unlink s pre t) tail in
      put_thread s2 t (record (s2.tcb t) { is_valid = false })

  next-unlinked : (tail : Option ℕ) (y : ℕ) → next_of (unlinked tail) y ≡ next_of (unlink s pre t) y
  unfolding unlinked
  next-unlinked tail y = ground arith

  unlinked-Represents :
      (tail : Option ℕ)
      → IsReadyTail tail a.current (ls ++ rs)
      → Represents (killed a t) (unlinked tail)
  unfolding unlinked
  unlinked-Represents tail is_tail =
      let there = ready_has rep pre t ls rs e new is in
      let frame = Seg-frame (next_of (unlink s pre t)) (next_of (unlinked tail)) in
      record {
        wf = killed-IsWellFormed rep.wf t there;
        current = current-unlink s t pre ∙ rep.current;
        ready_seg =
            subst (λ l. Seg (next_of (unlinked tail)) (unlink s pre t).ready.head l none)
              (sym (left_of rep pre t ls rs e new is))
              (frame ((unlink s pre t).ready.head) (ls ++ rs) none
                (Seg-unlink s pre t ls rs (subst Distinct e rep.wf.ready_distinct) is
                  (subst (λ l. Seg (next_of s) s.ready.head l none) e rep.ready_seg))
                (λ y h. next-unlinked tail y));
        ready_tail = rw (left_of rep pre t ls rs e new is) is_tail;
        wait_seg = λ q. rw (queues-unlink s t pre) (
            frame ((s.queues q).head) (a.waiting q) none (wait_frame rep pre t ls rs e new is q)
              (λ y h. next-unlinked tail y));
        wait_tail = λ q. rw (queues-unlink s t pre) (rep.wait_tail q);
        valid = λ y h. ground (arith, is_valid-unlink s pre t y, rep.valid y h);
        bounded = λ y h. ground (arith, rep.bounded y);
        index = λ y h. ground (arith, index-unlink s pre t y, rep.index y);
      }

-- The branch of `thread_kill` for a thread that is found.
module _ {a : Threads} {s : State} (rep : Represents a s) (pre : Option ℕ) (t : ℕ) (ls rs : List ℕ)
    (e : a.ready ≡ ls ++ t ∷ rs) (new : has t ls ≡ false) (is : IsPre pre ls) where
  pub kill_at-Represents :
      (enable : Bool) → ReturnsTo (pos t) enable (killed a t) (kill_found enable t s (found pre t))
  unfolding kill_found unlinked
  kill_at-Represents enable =
      let s1 = unlink s pre t in
      let n = next_of s1 t in
      let s2 = fix_tail s1 pre n in
      let tail = s2.ready.tail in
      let good : IsReadyTail tail a.current (ls ++ rs) =
        fix_tail-IsReadyTail s1 a.current pre t n (next_of s) ls rs is
          (rw (next-unlink s pre t ls t is new) (behind rep pre t ls rs e new is))
          (rw (tail-unlink s t pre) (tail_was rep pre t ls rs e new is)) in
      let s3 : State → State = λ u. put_thread u t (record (u.tcb t) { is_valid = false }) in
      let rep3 : Represents (killed a t) (s3 s2) =
        subst (λ u. Represents (killed a t) (s3 u)) (sym (fix_tail-eq s1 pre n))
          (unlinked-Represents rep pre t ls rs e new is tail good) in
      let s4 = free_stack (s3 s2) t in
      (
        refl,
        refl,
        Represents-same enable s4.pending s4.frees
            (Represents-Same (free_stack-Same (s3 s2) t) rep3),
      )
