-- ===== src/Threads/Spec.antt =====
-- The threads as lists: who runs, who is ready and who waits where, in order, and the place of each
-- thread. The operations are those of thread.h, with no pointers.
pub mod WellFormed
use operating_systems_lab.Base.{
  ℕ, zero, suc, ◌<◌, ◌≡◌, Bool, true, false, ◌||◌, not, List, [], ◌∷◌, ◌++◌, ◌==◌, if◌then◌else◌,
}
use operating_systems_lab.Threads.State.{update}

-- Where a thread is. `lost` is a control block that `thread_create` took without a stack for it.
pub data Place : Type 0 where
  free lost running ready : Place
  blocked : ℕ → Place

abbrev pub is_free : Place → Bool
is_free free = true
is_free p = false

abbrev pub is_running : Place → Bool
is_running running = true
is_running p = false

abbrev pub is_ready : Place → Bool
is_ready ready = true
is_ready p = false

abbrev pub is_blocked : ℕ → Place → Bool
is_blocked q (blocked r) = q == r
is_blocked q p = false

pub record Threads : Type 0 where
  pub current : ℕ
  pub ready : List ℕ
  pub waiting : ℕ → List ℕ
  pub place : ℕ → Place

abbrev pub has : ℕ → List ℕ → Bool
has x [] = false
has x (y ∷ ys) = (x == y) || has x ys

abbrev pub Distinct : List ℕ → Type 0
Distinct [] = Unit
Distinct (x ∷ xs) = (has x xs ≡ false) × Distinct xs

abbrev pub erase : ℕ → List ℕ → List ℕ
erase x [] = []
erase x (y ∷ ys) = if x == y then ys else y ∷ erase x ys

-- Each thread is in the one queue that its place names, once, and one thread runs.
pub record IsWellFormed (a : Threads) : Type 0 where
  pub one_runs : (x : ℕ) → is_running (a.place x) ≡ (x == a.current)
  pub ready_place : (x : ℕ) → has x a.ready ≡ is_ready (a.place x)
  pub wait_place : (q x : ℕ) → has x (a.waiting q) ≡ is_blocked q (a.place x)
  pub ready_distinct : Distinct a.ready
  pub wait_distinct : (q : ℕ) → Distinct (a.waiting q)

-- The running thread goes to `p`, `x` runs, and `rest` is ready.
abbrev pub run : Threads → (x : ℕ) → (rest : List ℕ) → (p : Place) → Threads
run a x rest p = record a {
  current = x;
  ready = rest;
  place = update (update a.place a.current p) x running;
}

-- A new thread `i` is the last of the ready threads.
abbrev pub created : Threads → ℕ → Threads
created a i = record a { ready = a.ready ++ i ∷ []; place = update a.place i ready }

-- The identifier `i` is taken, with no thread for it.
abbrev pub lost_at : Threads → ℕ → Threads
lost_at a i = record a { place = update a.place i lost }

-- The ready thread `x` runs, the running one is the last of the ready threads.
abbrev pub yielded : Threads → ℕ → Threads
yielded a x = run a x (erase x a.ready ++ a.current ∷ []) ready

-- The first ready thread runs, and the running one is gone.
abbrev pub exited : Threads → (x : ℕ) → (xs : List ℕ) → Threads
exited a x xs = run a x xs free

abbrev pub killed : Threads → ℕ → Threads
killed a x = record a { ready = erase x a.ready; place = update a.place x free }

-- The first ready thread runs, the running one is the last in the queue `q`.
abbrev pub slept : Threads → (q x : ℕ) → (xs : List ℕ) → Threads
slept a q x xs = record (run a x xs (blocked q)) {
  waiting = update a.waiting q (a.waiting q ++ a.current ∷ []);
}

abbrev pub woke_one : Threads → (q x : ℕ) → (xs : List ℕ) → Threads
woke_one a q x xs = record a {
  ready = a.ready ++ x ∷ [];
  waiting = update a.waiting q xs;
  place = update a.place x ready;
}

-- All threads of the queue `q` are ready, in their order, behind those that were.
abbrev pub woke_all : Threads → ℕ → Threads
woke_all a q = record a {
  ready = a.ready ++ a.waiting q;
  waiting = update a.waiting q [];
  place = λ x. if has x (a.waiting q) then ready else a.place x;
}
