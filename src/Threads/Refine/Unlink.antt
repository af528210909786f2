-- ===== src/Threads/Refine/Unlink.antt =====
-- Taking a thread out of the ready queue: the head moves on, or the node before is linked to the
-- node behind.
use operating_systems_lab.Base.{
  ℕ, ◌≡◌, refl, sym, subst, true, false, Option, none, some, List, [], ◌∷◌, ◌++◌, ◌==◌, ==_iff, inl,
  inr, Bool-cases, arith,
}
use operating_systems_lab.Threads.State.{State}
use operating_systems_lab.Threads.Sched.{unlink}
use operating_systems_lab.Threads.Spec.{has, Distinct, erase}
use operating_systems_lab.Threads.Spec.WellFormed.{has-append}
use operating_systems_lab.Threads.Seg.{
  Seg, last, has-last, ne_of_has, Seg-frame, Seg-split, Seg-relink, Seg-append,
}
use operating_systems_lab.Threads.Refine.{next_of}
use operating_systems_lab.Threads.Refine.Find.{IsPre}

pub erase_middle : (t : ℕ) (ls rs : List ℕ) → has t ls ≡ false → erase t (ls ++ t ∷ rs) ≡ ls ++ rs
erase_middle t [] rs new = ground arith
erase_middle t (x ∷ ls) rs new = ground (arith, erase_middle t ls rs)

Distinct-left : (ls rs : List ℕ) → Distinct (ls ++ rs) → Distinct ls
Distinct-left [] rs d = tt
Distinct-left (x ∷ ls) rs d = (ground (arith, has-append x ls rs), Distinct-left ls rs d.1)

apart_of_Distinct :
    (ls rs : List ℕ) (y : ℕ) → Distinct (ls ++ rs) → has y ls ≡ true → has y rs ≡ false
apart_of_Distinct [] rs y d h = absurd (ground arith)
apart_of_Distinct (x ∷ ls) rs y d h = elim (Bool-cases (y == x)) [
  | inl e ↦
      let e' : x ≡ y = sym ((==_iff y x).0 e) in
      subst (λ z. has z rs ≡ false) e' (ground (arith, has-append x ls rs))
  | inr ne ↦ apart_of_Distinct ls rs y d.1 (ground arith)
]

module _ (s : State) (pre : Option ℕ) (t : ℕ) where
  pub index-unlink : (y : ℕ) → ((unlink s pre t).tcb y).index ≡ (s.tcb y).index
  unfolding unlink
  index-unlink y = go pre
    where
      go : (p : Option ℕ) → ((unlink s p t).tcb y).index ≡ (s.tcb y).index
      go none = refl
      go (some p) = ground arith

  pub is_valid-unlink : (y : ℕ) → ((unlink s pre t).tcb y).is_valid ≡ (s.tcb y).is_valid
  unfolding unlink
  is_valid-unlink y = go pre
    where
      go : (p : Option ℕ) → ((unlink s p t).tcb y).is_valid ≡ (s.tcb y).is_valid
      go none = refl
      go (some p) = ground arith

  pub next-unlink :
      (ls : List ℕ) (y : ℕ)
      → IsPre pre ls
      → has y ls ≡ false
      → next_of (unlink s pre t) y ≡ next_of s y
  unfolding unlink
  next-unlink [] y is out = rw (is, unlink)
  next-unlink (x ∷ xs) y is out =
      rw (is, unlink) (ground (arith, ne_of_has y (last x xs) (x ∷ xs) out (has-last x xs)))

module _ (s : State) (t : ℕ) where
  pub tail-unlink : (pre : Option ℕ) → (unlink s pre t).ready.tail ≡ s.ready.tail
  unfolding unlink
  tail-unlink none = refl
  tail-unlink (some p) = refl

  pub queues-unlink : (pre : Option ℕ) → (unlink s pre t).queues ≡ s.queues
  unfolding unlink
  queues-unlink none = refl
  queues-unlink (some p) = refl

  pub current-unlink : (pre : Option ℕ) → (unlink s pre t).current ≡ s.current
  unfolding unlink
  current-unlink none = refl
  current-unlink (some p) = refl

-- The queue goes round the thread that is taken out.
pub Seg-unlink :
    (s : State) (pre : Option ℕ) (t : ℕ) (ls rs : List ℕ)
    → Distinct (ls ++ t ∷ rs)
    → IsPre pre ls
    → Seg (next_of s) s.ready.head (ls ++ t ∷ rs) none
    → Seg (next_of (unlink s pre t)) (unlink s pre t).ready.head (ls ++ rs) none
unfolding unlink
Seg-unlink s pre t [] rs d is seg = rw (is, unlink) seg.1
Seg-unlink s pre t (x ∷ xs) rs d is seg =
    let (q, front, back) = Seg-split (next_of s) s.ready.head none (x ∷ xs) (t ∷ rs) seg in
    let next' = next_of (unlink s (some (last x xs)) t) in
    let round : Seg next' s.ready.head (x ∷ xs) (next_of s t) =
      Seg-relink (next_of s) next' s.ready.head x xs q (next_of s t)
        (Distinct-left (x ∷ xs) (t ∷ rs) d) front (ground arith) (λ y h ne. ground arith) in
    let rest : Seg next' (next_of s t) rs none =
      Seg-frame (next_of s) next' (next_of s t) rs none back.1 (λ y h. ground (
        arith,
        apart_of_Distinct (x ∷ xs) (t ∷ rs) (last x xs) d (has-last x xs),
        ne_of_has (last x xs) y (t ∷ rs),
      )) in
    subst (λ p. Seg (next_of (unlink s p t)) (unlink s p t).ready.head (x ∷ xs ++ rs) none) (sym is)
      (Seg-append next' s.ready.head (next_of s t) none (x ∷ xs) rs round rest)
