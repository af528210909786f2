-- ===== src/Threads/Refine/Release.antt =====
-- `lock_release` over the queues: who wakes.
use operating_systems_lab.Base.{
  ℕ, ◌≡◌, refl, sym, ap, subst, ◌∙◌, Bool, true, false, Option, none, some, List, [], ◌∷◌, length,
  arith, if◌then◌else◌,
}
use operating_systems_lab.Base.Int.{pos}
use operating_systems_lab.Threads.State.{
  State, Reply, returns, switches, fault, hangs, exits, Lock, Tid, interrupts_off, put_thread,
  set_next, set_head, set_tail, put_queue,
}
use operating_systems_lab.Threads.Wait.{
  thread_wakeup, wake_from, wake_all, splice, woken, no_threads,
}
use operating_systems_lab.Threads.Lock.{put_lock, lock_release, release_held, reply_state, restore}
use operating_systems_lab.Threads.Spec.{Threads, woke_all}
use operating_systems_lab.Threads.Refine.{
  Represents, Represents-same, Represents-Same, Same, ReturnsTo,
}
use operating_systems_lab.Threads.Refine.Wake.{thread_wakeup-all, thread_wakeup-nobody}
use operating_systems_lab.Threads.Refine.Lock.{KeepsLocks}

-- The threads behind a release: all that waited in `q` are ready.
abbrev pub released : Threads → ℕ → Threads
released a q = elim (a.waiting q) [ [] ↦ a | x ∷ xs ↦ woke_all a q ]

-- The lock `l` is available and the interrupts are as they were.
abbrev pub Releases : Threads → (enable : Bool) → ℕ → Option State → Type 0
Releases a enable l (some s) =
    ((s.locks l).available ≡ true) × (s.enabled ≡ enable) × Represents a s
Releases a enable l none = ⊥

restore-Releases :
    (a : Threads) (t : Tid) (off enable : Bool) (l : ℕ) (ls : ℕ → Lock) (r : Reply)
    → ReturnsTo t off a r
    → KeepsLocks ls r
    → (ls l).available ≡ true
    → Releases a enable l (restore enable (reply_state r))
unfolding restore reply_state
restore-Releases a t off enable l ls (returns r s) (e, f, rep) keeps free =
    (ap (λ f. (f l).available) keeps ∙ free, refl, Represents-same enable s.pending s.frees rep)
restore-Releases a t off enable l ls (switches s) rep keeps free = absurd rep
restore-Releases a t off enable l ls fault rep keeps free = absurd rep
restore-Releases a t off enable l ls hangs rep keeps free = absurd rep
restore-Releases a t off enable l ls (exits s) rep keeps free = absurd rep

woken-KeepsLocks :
    (enable : Bool) (s : State) (c : Option ℕ) → KeepsLocks s.locks (woken enable s c)
unfolding woken
woken-KeepsLocks enable s none = tt
woken-KeepsLocks enable s (some c) = refl

wake_all-KeepsLocks :
    (enable : Bool) (q h : ℕ) (s : State) (qtail rhead rtail : Option ℕ)
    → KeepsLocks s.locks (wake_all enable q h (splice s h qtail rhead rtail))
unfolding wake_all splice
wake_all-KeepsLocks enable q h s none rhead rtail = tt
wake_all-KeepsLocks enable q h s (some t) none rtail =
    woken-KeepsLocks enable
      (put_queue (set_next (set_tail (set_head s (some h)) (some t)) t none) q no_threads) _
wake_all-KeepsLocks enable q h s (some t) (some r) none = tt
wake_all-KeepsLocks enable q h s (some t) (some r) (some e) =
    woken-KeepsLocks enable
      (put_queue (set_next (set_tail (set_next s e (some h)) (some t)) t none) q no_threads) _

wake_from-KeepsLocks :
    (enable : Bool) (q : ℕ) (s : State) (h : Option ℕ)
    → KeepsLocks s.locks (wake_from enable true q s h)
unfolding wake_from
wake_from-KeepsLocks enable q s none = refl
wake_from-KeepsLocks enable q s (some h) =
    wake_all-KeepsLocks enable q h s (s.queues q).tail s.ready.head s.ready.tail

thread_wakeup-KeepsLocks : (q : ℕ) (s : State) → KeepsLocks s.locks (thread_wakeup (some q) true s)
unfolding thread_wakeup
thread_wakeup-KeepsLocks q s = wake_from-KeepsLocks s.enabled q (interrupts_off s) (s.queues q).head

abbrev given_up : ℕ → State → State
given_up l s =
    let s1 = put_lock (interrupts_off s) l (record (s.locks l) { available = true }) in
    put_thread s1 s.current (record (s.tcb s.current) { has_lock = false })

given_up-Same : (l : ℕ) (s : State) → Same s (given_up l s)
given_up-Same l s = record {
  current = refl;
  ready = refl;
  queues = refl;
  next = λ y. ground arith;
  index = λ y. ground arith;
  is_valid = λ y. ground arith;
}

-- `lock_release` of a taken lock makes it available, and moves all threads of its wait queue, in
-- their order, behind the ready threads.
pub lock_release-Releases :
    {a : Threads} {s : State} (l : ℕ)
    → Represents a s
    → (s.locks l).available ≡ false
    → Releases (released a (s.locks l).wait_q) s.enabled l (lock_release (some l) s)
unfolding lock_release release_held
lock_release-Releases {a} {s} l rep taken =
    subst
      (λ b.
        Releases (released a q) s.enabled l
          (if b then some s else restore s.enabled (release_held l (interrupts_off s))))
      (sym taken) (go (a.waiting q) refl)
  where
    q : ℕ
    q = (s.locks l).wait_q

    s2 : State
    s2 = given_up l s

    same_q : (s2.locks l).wait_q ≡ q
    same_q = ground arith

    rep2 : Represents a s2
    rep2 = Represents-Same (given_up-Same l s) rep

    goal : ℕ → Type 0
    goal r =
        Releases (released a q) s.enabled l
          (restore s.enabled (reply_state (thread_wakeup (some r) true s2)))

    back : Threads → Type 0
    back b =
        Releases b s.enabled l (restore s.enabled (reply_state (thread_wakeup (some q) true s2)))

    go : (ws : List ℕ) → a.waiting q ≡ ws → goal (s2.locks l).wait_q
    go [] w = subst goal (sym same_q) (
        subst back (ground (arith, w)) (
          restore-Releases a (pos 0) false s.enabled l s2.locks _
            (thread_wakeup-nobody q true rep2 w) (thread_wakeup-KeepsLocks q s2) (ground arith)))
    go (x ∷ xs) w = subst goal (sym same_q) (
        subst back (ground (arith, w)) (
          restore-Releases (woke_all a q) (pos (length (x ∷ xs))) false s.enabled l s2.locks _
            (thread_wakeup-all q x xs rep2 w) (thread_wakeup-KeepsLocks q s2) (ground arith)))
