-- ===== src/Threads/Refine/Cond.antt =====
-- `cv_signal` and `cv_broadcast` over the queues: who wakes.
use operating_systems_lab.Base.{
  ℕ, ◌≡◌, refl, sym, subst, Bool, true, false, Option, none, some, List, ◌∷◌, length, if◌then◌else◌,
}
use operating_systems_lab.Base.Int.{pos}
use operating_systems_lab.Threads.State.{
  State, Reply, returns, switches, fault, hangs, exits, Tid, interrupts_off,
}
use operating_systems_lab.Threads.Wait.{thread_wakeup}
use operating_systems_lab.Threads.Lock.{reply_state, restore, cv_wake, cv_signal, cv_broadcast}
use operating_systems_lab.Threads.Spec.{Threads, woke_one, woke_all}
use operating_systems_lab.Threads.Refine.{Represents, Represents-same, ReturnsTo}
use operating_systems_lab.Threads.Refine.Wake.{thread_wakeup-all}
use operating_systems_lab.Threads.Refine.WakeOne.{thread_wakeup-one}

-- The call returns in a state that stands for `a`, with the interrupts as they were.
abbrev pub EndsIn : Threads → (enable : Bool) → Option State → Type 0
EndsIn a enable (some s) = (s.enabled ≡ enable) × Represents a s
EndsIn a enable none = ⊥

restore-EndsIn :
    (a : Threads) (t : Tid) (off enable : Bool) (r : Reply)
    → ReturnsTo t off a r
    → EndsIn a enable (restore enable (reply_state r))
unfolding restore reply_state
restore-EndsIn a t off enable (returns r s) (e, f, rep) =
    (refl, Represents-same enable s.pending s.frees rep)
restore-EndsIn a t off enable (switches s) rep = absurd rep
restore-EndsIn a t off enable fault rep = absurd rep
restore-EndsIn a t off enable hangs rep = absurd rep
restore-EndsIn a t off enable (exits s) rep = absurd rep

cv_wake-EndsIn :
    (a : Threads) (t : Tid) (s : State) (all : Bool) (c l : ℕ)
    → (s.locks l).available ≡ false
    → ReturnsTo t false a (thread_wakeup (some (s.cvs c)) all (interrupts_off s))
    → EndsIn a s.enabled (cv_wake all (some c) (some l) s)
unfolding cv_wake
cv_wake-EndsIn a t s all c l taken r =
    subst
      (λ b. EndsIn a s.enabled (
        if b
        then some s
        else restore s.enabled
            (reply_state (thread_wakeup (some (s.cvs c)) all (interrupts_off s)))))
      (sym taken)
      (restore-EndsIn a t false s.enabled (thread_wakeup (some (s.cvs c)) all (interrupts_off s)) r)

-- With the lock taken, `cv_signal` moves the first thread that waits for the condition behind the
-- ready threads, and keeps the order of the others.
pub cv_signal-EndsIn :
    {a : Threads} {s : State} (c l x : ℕ) (xs : List ℕ)
    → Represents a s
    → (s.locks l).available ≡ false
    → a.waiting (s.cvs c) ≡ x ∷ xs
    → EndsIn (woke_one a (s.cvs c) x xs) s.enabled (cv_signal (some c) (some l) s)
unfolding cv_signal
cv_signal-EndsIn {a} {s} c l x xs rep taken w =
    cv_wake-EndsIn (woke_one a (s.cvs c) x xs) (pos 1) s false c l taken
      (thread_wakeup-one (s.cvs c) x xs (Represents-same false s.pending s.frees rep) w)

-- With the lock taken, `cv_broadcast` moves all threads that wait for the condition, in their order,
-- behind the ready threads.
pub cv_broadcast-EndsIn :
    {a : Threads} {s : State} (c l x : ℕ) (xs : List ℕ)
    → Represents a s
    → (s.locks l).available ≡ false
    → a.waiting (s.cvs c) ≡ x ∷ xs
    → EndsIn (woke_all a (s.cvs c)) s.enabled (cv_broadcast (some c) (some l) s)
unfolding cv_broadcast
cv_broadcast-EndsIn {a} {s} c l x xs rep taken w =
    cv_wake-EndsIn (woke_all a (s.cvs c)) (pos (length (x ∷ xs))) s true c l taken
      (thread_wakeup-all (s.cvs c) x xs (Represents-same false s.pending s.frees rep) w)
