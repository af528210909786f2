-- ===== src/Threads/Refine/Lock.antt =====
-- `lock_acquire` over the queues: who gets a lock, and who waits for it.
use operating_systems_lab.Base.{
  ℕ, zero, suc, ◌≡◌, refl, ap, ◌∙◌, Bool, true, false, Option, none, some, List, [], ◌∷◌, arith,
}
use operating_systems_lab.Threads.State.{
  State, Reply, returns, switches, fault, hangs, exits, Lock, Tid, interrupts_off, put_thread,
  thread_none, set_context, in_switch,
}
use operating_systems_lab.Threads.Wait.{thread_sleep, sleep_on, sleep_switch, enqueue_wait}
use operating_systems_lab.Threads.Lock.{
  Pass, over, sleeps, again, stuck, put_lock, set_enabled, slept, acquire_pass, acquire_rounds,
  lock_acquire,
}
use operating_systems_lab.Threads.Spec.{Threads, woke_all}
use operating_systems_lab.Threads.Spec
use operating_systems_lab.Threads.Refine.{
  Represents, Represents-same, Represents-Same, Same, SwitchesTo, ReturnsTo,
}
use operating_systems_lab.Threads.Refine.Sleep.{thread_sleep-slept, thread_sleep-stays}

-- A call leaves the locks as they are in `ls`.
abbrev pub KeepsLocks : (ℕ → Lock) → Reply → Type 0
KeepsLocks ls (returns r s) = s.locks ≡ ls
KeepsLocks ls (switches s) = s.locks ≡ ls
KeepsLocks ls fault = Unit
KeepsLocks ls hangs = Unit
KeepsLocks ls (exits s) = Unit

sleep_switch-KeepsLocks :
    (s : State) (q h i : ℕ) (head tail : Option ℕ)
    → KeepsLocks s.locks (sleep_switch h (enqueue_wait s q i head tail))
unfolding sleep_switch enqueue_wait
sleep_switch-KeepsLocks s q h i none tail = refl
sleep_switch-KeepsLocks s q h i (some x) none = tt
sleep_switch-KeepsLocks s q h i (some x) (some t) = refl

sleep_on-KeepsLocks :
    (enable : Bool) (q : ℕ) (s : State) (h : Option ℕ)
    → KeepsLocks s.locks (sleep_on true enable q s h)
unfolding sleep_on
sleep_on-KeepsLocks enable q s none = refl
sleep_on-KeepsLocks enable q s (some h) =
    let s1 = set_context s s.current (in_switch enable h) in
    sleep_switch-KeepsLocks s1 q h s.current (s1.queues q).head (s1.queues q).tail

thread_sleep-KeepsLocks : (q : ℕ) (s : State) → KeepsLocks s.locks (thread_sleep true (some q) s)
unfolding thread_sleep
thread_sleep-KeepsLocks q s = sleep_on-KeepsLocks s.enabled q (interrupts_off s) s.ready.head

-- The pass ends with the lock `l` taken by the caller, and no queue has changed.
abbrev pub Takes : Threads → (enable : Bool) → ℕ → Pass → Type 0
Takes a enable l (over s) =
    ((s.locks l).available ≡ false)
    × ((s.tcb a.current).has_lock ≡ true)
    × (s.enabled ≡ enable)
    × Represents a s
Takes a enable l (sleeps s) = ⊥
Takes a enable l (again s) = ⊥
Takes a enable l stuck = ⊥

-- The pass puts the caller to sleep, and the lock `l` stays taken.
abbrev pub SleepsFor : Threads → ℕ → Pass → Type 0
SleepsFor a l (sleeps s) = ((s.locks l).available ≡ false) × Represents a s
SleepsFor a l (over s) = ⊥
SleepsFor a l (again s) = ⊥
SleepsFor a l stuck = ⊥

-- The pass goes round with the lock `l` taken and the same queues.
abbrev pub Spins : Threads → ℕ → Pass → Type 0
Spins a l (again s) = ((s.locks l).available ≡ false) × Represents a s
Spins a l (over s) = ⊥
Spins a l (sleeps s) = ⊥
Spins a l stuck = ⊥

abbrev taken_by : (enable : Bool) → ℕ → State → State
taken_by enable l s = set_enabled enable (
    put_lock
      (put_thread (interrupts_off s) s.current (record (s.tcb s.current) { has_lock = true })) l
      (record (s.locks l) { available = false }))

taken_by-Same : (enable : Bool) (l : ℕ) (s : State) → Same s (taken_by enable l s)
taken_by-Same enable l s = record {
  current = refl;
  ready = refl;
  queues = refl;
  next = λ y. ground arith;
  index = λ y. ground arith;
  is_valid = λ y. ground arith;
}

-- `lock_acquire` of an available lock takes it for the caller and returns, with the queues and the
-- interrupts as they were.
pub lock_acquire-Takes :
    {a : Threads} {s : State} (l : ℕ)
    → Represents a s
    → (s.locks l).available ≡ true
    → Takes a s.enabled l (lock_acquire true (some l) s)
unfolding lock_acquire acquire_pass
lock_acquire-Takes {a} {s} l rep free =
    rw (free, Takes)
      (
        ground arith,
        ground (arith, rep.current),
        refl,
        Represents-Same (taken_by-Same s.enabled l s) rep,
      )

slept-SleepsFor :
    (a : Threads) (l : ℕ) (ls : ℕ → Lock) (r : Reply)
    → SwitchesTo a r
    → KeepsLocks ls r
    → (ls l).available ≡ false
    → SleepsFor a l (slept r)
unfolding slept
slept-SleepsFor a l ls (switches s) rep keeps taken = (ap (λ f. (f l).available) keeps ∙ taken, rep)
slept-SleepsFor a l ls (returns r s) rep keeps taken = absurd rep
slept-SleepsFor a l ls fault rep keeps taken = absurd rep
slept-SleepsFor a l ls hangs rep keeps taken = absurd rep
slept-SleepsFor a l ls (exits s) rep keeps taken = absurd rep

-- `lock_acquire` of a taken lock, with a ready thread, puts the caller at the end of the lock's
-- wait queue, runs the first ready thread, and leaves the lock taken.
pub lock_acquire-SleepsFor :
    {a : Threads} {s : State} (l x : ℕ) (xs : List ℕ)
    → Represents a s
    → (s.locks l).available ≡ false
    → a.ready ≡ x ∷ xs
    → SleepsFor (Spec.slept a (s.locks l).wait_q x xs) l (lock_acquire true (some l) s)
unfolding lock_acquire acquire_pass
lock_acquire-SleepsFor {a} {s} l x xs rep taken e =
    let q = (s.locks l).wait_q in
    let off = Represents-same false s.pending s.frees rep in
    rw (taken) (
      slept-SleepsFor (Spec.slept a q x xs) l s.locks _ (thread_sleep-slept q x xs off e)
        (thread_sleep-KeepsLocks q (interrupts_off s)) taken)

slept-Spins :
    (a : Threads) (t : Tid) (enable : Bool) (l : ℕ) (ls : ℕ → Lock) (r : Reply)
    → ReturnsTo t enable a r
    → KeepsLocks ls r
    → (ls l).available ≡ false
    → Spins a l (slept r)
unfolding slept
slept-Spins a t enable l ls (returns r s) (e, f, rep) keeps taken =
    (ap (λ f. (f l).available) keeps ∙ taken, rep)
slept-Spins a t enable l ls (switches s) rep keeps taken = absurd rep
slept-Spins a t enable l ls fault rep keeps taken = absurd rep
slept-Spins a t enable l ls hangs rep keeps taken = absurd rep
slept-Spins a t enable l ls (exits s) rep keeps taken = absurd rep

acquire_pass-Spins :
    {a : Threads} {s : State} (enable : Bool) (l : ℕ)
    → Represents a s
    → (s.locks l).available ≡ false
    → a.ready ≡ []
    → Spins a l (acquire_pass enable true l s)
unfolding acquire_pass
acquire_pass-Spins {a} {s} enable l rep taken e =
    let q = (s.locks l).wait_q in
    rw (taken) (
      slept-Spins a thread_none s.enabled l s.locks _ (thread_sleep-stays (some q) rep e)
        (thread_sleep-KeepsLocks q s) taken)

acquire_rounds-Spins :
    (a : Threads) (rounds : ℕ) (enable : Bool) (l : ℕ) (p : Pass)
    → a.ready ≡ []
    → Spins a l p
    → Spins a l (acquire_rounds rounds enable true l p)
unfolding acquire_rounds
acquire_rounds-Spins a zero enable l p e h = h
acquire_rounds-Spins a (suc n) enable l (again s) e (taken, rep) =
    acquire_rounds-Spins a n enable l _ e (acquire_pass-Spins enable l rep taken e)
acquire_rounds-Spins a (suc n) enable l (over s) e h = absurd h
acquire_rounds-Spins a (suc n) enable l (sleeps s) e h = absurd h
acquire_rounds-Spins a (suc n) enable l stuck e h = absurd h

-- `lock_acquire` of a taken lock, with no ready thread, does not end within any number of rounds of
-- its loop: behind each of them the loop goes round, the lock is taken and every queue is as it was.
pub lock_acquire-Spins :
    {a : Threads} {s : State} (rounds l : ℕ)
    → Represents a s
    → (s.locks l).available ≡ false
    → a.ready ≡ []
    → Spins a l (acquire_rounds rounds s.enabled true l (lock_acquire true (some l) s))
unfolding lock_acquire
lock_acquire-Spins {a} {s} rounds l rep taken e =
    acquire_rounds-Spins a rounds s.enabled l _ e
      (acquire_pass-Spins s.enabled l (Represents-same false s.pending s.frees rep) taken e)
