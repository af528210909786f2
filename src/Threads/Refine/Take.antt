-- ===== src/Threads/Refine/Take.antt =====
-- Running a ready thread that is named, with the caller behind the last one.
use mathlib.Core.List.{append_assoc}
use operating_systems_lab.Base.{
  ℕ, ◌≡◌, refl, sym, ap, subst, ◌∙◌, true, false, Option, none, some, List, [], ◌∷◌, ◌++◌, arith,
}
use operating_systems_lab.Threads.State.{State, Queue}
use operating_systems_lab.Threads.Sched.{unlink, append_ready, take_ready}
use operating_systems_lab.Threads.Spec.{Threads, has, Distinct, erase, yielded}
use operating_systems_lab.Threads.Spec.WellFormed.{has-append, Distinct-snoc, yielded-IsWellFormed}
use operating_systems_lab.Threads.Seg.{Seg, Seg-frame, IsTail}
use operating_systems_lab.Threads.Refine.{next_of, Represents, SwitchesTo, IsReadyTail}
use operating_systems_lab.Threads.Refine.Find.{IsPre}
use operating_systems_lab.Threads.Refine.Unlink.{
  erase_middle, index-unlink, is_valid-unlink, next-unlink, Seg-unlink, queues-unlink, tail-unlink,
}
use operating_systems_lab.Threads.Refine.Rotate.{
  Prepared, appended, behind_last, append_ready-eq, index-behind_last, is_valid-behind_last,
  caller_not_ready, ready_behind_last, wait_behind_last, valid_yielded, in_use_yielded,
  IsReadyTail-snoc,
}

module _ {a : Threads} {s s2 : State} (rep : Represents a s) (p : Prepared s s2) (x : ℕ)
    (xs : List ℕ) (e : a.ready ≡ x ∷ xs) (pre : Option ℕ) (t : ℕ) (ls rs : List ℕ)
    (at_t : a.ready ≡ ls ++ t ∷ rs) (new : has t ls ≡ false) (is : IsPre pre ls) where
  with_caller : x ∷ xs ++ s.current ∷ [] ≡ ls ++ t ∷ (rs ++ s.current ∷ [])
  with_caller =
      ap (λ l. l ++ s.current ∷ []) (sym e ∙ at_t) ∙ append_assoc ls (t ∷ rs) (s.current ∷ [])

  without_t : erase t a.ready ++ a.current ∷ [] ≡ ls ++ (rs ++ s.current ∷ [])
  without_t =
      ap (λ l. erase t l ++ a.current ∷ []) at_t
      ∙ ap (λ l. l ++ a.current ∷ []) (erase_middle t ls rs new)
      ∙ append_assoc ls rs (a.current ∷ [])
      ∙ ap (λ c. ls ++ (rs ++ c ∷ [])) (sym rep.current)

  with_caller-Distinct : Distinct (ls ++ t ∷ (rs ++ s.current ∷ []))
  with_caller-Distinct = subst Distinct with_caller (
      Distinct-snoc (x ∷ xs) s.current (subst Distinct e rep.wf.ready_distinct)
        (caller_not_ready rep p x xs e))

  t_ready : has t (x ∷ xs) ≡ true
  t_ready = subst (λ l. has t l ≡ true) e (ground (arith, at_t, has-append t ls (t ∷ rs)))

  head-behind_last : (behind_last rep p x xs e).ready.head ≡ s.ready.head
  unfolding behind_last appended
  head-behind_last = ap (λ (r : Queue). r.head) p.ready

  queues-behind_last : (behind_last rep p x xs e).queues ≡ s.queues
  unfolding behind_last appended
  queues-behind_last = p.queues

  tail-behind_last : (behind_last rep p x xs e).ready.tail ≡ some s.current
  unfolding behind_last appended
  tail-behind_last = refl

  not_before : (q y : ℕ) → has y (a.waiting q) ≡ true → has y ls ≡ false
  not_before q y h =
      ground (arith, at_t, has-append y ls (t ∷ rs), rep.wf.wait_place q y, rep.wf.ready_place y)

  -- The thread `t` is taken out of the queue, with the caller at its end, and runs.
  pub take_ready-yielded :
      SwitchesTo (yielded a t) (take_ready t pre t (append_ready s2 s.current s2.ready.tail))
  unfolding take_ready
  take_ready-yielded =
      let s3 = behind_last rep p x xs e in
      let s4 = unlink s3 pre t in
      let seg : Seg (next_of s3) s3.ready.head (ls ++ t ∷ (rs ++ s.current ∷ [])) none =
        rw head-behind_last (
          subst (λ l. Seg (next_of s3) s.ready.head l none) with_caller
            (ready_behind_last rep p x xs e)) in
      rw (append_ready-eq rep p x xs e, SwitchesTo)
        (record {
          wf = yielded-IsWellFormed rep.wf t (rw e t_ready);
          current = refl;
          ready_seg =
              subst (λ l. Seg (next_of s4) s4.ready.head l none) (sym without_t)
                (Seg-unlink s3 pre t ls (rs ++ s.current ∷ []) with_caller-Distinct is seg);
          ready_tail =
              subst (λ l. IsReadyTail s4.ready.tail t l)
                (append_assoc ls rs (s.current ∷ []) ∙ sym without_t)
                (subst (λ q. IsReadyTail q t (ls ++ rs ++ s.current ∷ []))
                  (sym (tail-unlink s3 t pre ∙ tail-behind_last))
                  (IsReadyTail-snoc t s.current (ls ++ rs)));
          wait_seg = λ q.
              subst (λ (qs : ℕ → Queue). Seg (next_of s4) (qs q).head (a.waiting q) none)
                (sym (queues-unlink s3 t pre ∙ queues-behind_last))
                (Seg-frame (next_of s3) (next_of s4) (s.queues q).head (a.waiting q) none
                  (wait_behind_last rep p x xs e q)
                  (λ y h. next-unlink s3 pre t ls y is (not_before q y h)));
          wait_tail = λ q.
              subst (λ (qs : ℕ → Queue). IsTail (qs q).tail (a.waiting q))
                (sym (queues-unlink s3 t pre ∙ queues-behind_last)) (rep.wait_tail q);
          valid = λ y h.
              is_valid-unlink s3 pre t y
              ∙ is_valid-behind_last rep p x xs e y
              ∙ valid_yielded rep p x xs e t y t_ready h;
          bounded = λ y h. rep.bounded y (in_use_yielded rep p x xs e t y t_ready h);
          index = λ y h.
              index-unlink s3 pre t y
              ∙ index-behind_last rep p x xs e y
              ∙ rep.index y (in_use_yielded rep p x xs e t y t_ready h);
        })
