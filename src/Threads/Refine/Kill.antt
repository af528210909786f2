-- ===== src/Threads/Refine/Kill.antt =====
-- `thread_kill`: a ready thread is taken out of the queue and its control block is free.
use operating_systems_lab.Base.{
  ℕ, ◌≡◌, refl, sym, subst, Bool, true, false, ◌==◌, inl, inr, Bool-cases, arith, ltb,
}
use operating_systems_lab.Base.Int.{pos}
use operating_systems_lab.Threads.State.{
  State, Reply, thread_invalid, max_threads, interrupts_off, leave,
}
use operating_systems_lab.Threads.Sched.{
  Search, found, absent, endless, kill_found, kill_tid, thread_kill,
}
use operating_systems_lab.Threads.Spec.{Threads, has, killed}
use operating_systems_lab.Threads.Spec.WellFormed.{not_current}
use operating_systems_lab.Threads.Refine.{Represents, Represents-same, ReturnsTo}
use operating_systems_lab.Threads.Refine.Find.{Searched, find_ready-Searched}
use operating_systems_lab.Threads.Refine.KillAt.{ready_has, kill_at-Represents}

-- What `thread_kill` promises for a thread that was ready, and for any other.
abbrev pub Killed : Threads → ℕ → Bool → (was_ready : Bool) → Reply → Type 0
Killed a t enable true r = ReturnsTo (pos t) enable (killed a t) r
Killed a t enable false r = ReturnsTo thread_invalid enable a r

refused :
    (a : Threads) (t : ℕ) (enable : Bool) (s : State)
    → has t a.ready ≡ false
    → Represents a s
    → Killed a t enable (has t a.ready) (leave enable thread_invalid s)
refused a t enable s e rep =
    subst (λ b. Killed a t enable b (leave enable thread_invalid s)) (sym e)
      (refl, refl, Represents-same enable s.pending s.frees rep)

kill_found-Killed :
    {a : Threads} {s : State} (enable : Bool) (t : ℕ) (r : Search)
    → Represents a s
    → Searched t a.ready r
    → Killed a t enable (has t a.ready) (kill_found enable t s r)
unfolding kill_found
kill_found-Killed {a} {s} enable t endless rep h = absurd h
kill_found-Killed {a} {s} enable t absent rep h = refused a t enable s h rep
kill_found-Killed {a} {s} enable t (found pre temp) rep (ls, rs, e, new, is, same) =
    subst (λ x. Killed a x enable (has x a.ready) (kill_found enable x s (found pre temp))) same
      (subst (λ b. Killed a temp enable b (kill_found enable temp s (found pre temp)))
        (sym (ready_has rep pre temp ls rs e new is))
        (kill_at-Represents rep pre temp ls rs e new is enable))

-- `thread_kill` of a ready thread takes it out of the ready queue, frees its control block and
-- returns its identifier. Of any other identifier it returns `THREAD_INVALID` and changes no queue:
-- the caller, one out of range or not in use, for which thread.h asks it, and also a thread that
-- waits in a wait queue, for which thread.h promises the kill.
pub thread_kill-Killed :
    {a : Threads} {s : State} (t : ℕ)
    → Represents a s
    → Killed a t s.enabled (has t a.ready) (thread_kill (pos t) s)
unfolding thread_kill kill_tid
thread_kill-Killed {a} {s} t rep =
    let rep' = Represents-same false s.pending s.frees rep in
    let other : has t a.ready ≡ false
        → Killed a t s.enabled (has t a.ready) (leave s.enabled thread_invalid (interrupts_off s)) =
      λ h. refused a t s.enabled _ h rep' in
    let goal : Reply → Type 0 = Killed a t s.enabled (has t a.ready) in
    elim (Bool-cases (t == s.current)) [
      | inl c ↦
          subst goal (ground (arith, c)) (other (ground (arith, rep.current, not_current rep.wf t)))
      | inr c ↦ elim (Bool-cases (ltb t max_threads)) [
        | inr out ↦
            subst goal (ground (arith, c, out))
              (other (ground (arith, rep.bounded t, rep.wf.ready_place t)))
        | inl lt ↦ elim (Bool-cases (s.tcb t).is_valid) [
          | inr bad ↦
              subst goal (ground (arith, c, lt, bad))
                (other (ground (arith, rep.valid t, rep.wf.ready_place t)))
          | inl good ↦
              subst goal (ground (arith, c, lt, good))
                (kill_found-Killed s.enabled t _ rep' (find_ready-Searched t rep'))
        ]
      ]
    ]
