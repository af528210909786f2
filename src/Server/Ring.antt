-- ===== src/Server/Ring.antt =====
-- Positions in a ring of slots, and the requests between two of them.
use native.Mathlib.Nat.{mod_self, mod-eq_of_lt, add-mod_left}
use operating_systems_lab.Base.{
  ℕ, ◌+◌, ◌-◌, ◌%◌, ◌<◌, ◌≡◌, sym, subst, ◌∙◌, List, [], ◌∷◌, ◌++◌, length, leb, ◌==◌, ==_iff,
  if◌then◌else◌, inl, inr, Bool-cases, arith,
}

-- The slot behind `p`, and how many slots lie from `o` up to `i`, by cases.
abbrev pub step : (n p : ℕ) → ℕ
step n p = if p + 1 == n then 0 else p + 1

abbrev pub distance : (n o i : ℕ) → ℕ
distance n o i = if leb o i then i - o else i + n - o

pub mod-step : (n p : ℕ) → p < n → (p + 1) % n ≡ step n p
mod-step n p lt = elim (Bool-cases (p + 1 == n)) [
  | inl e ↦ rw (e) (subst (λ m. m % n ≡ 0) (sym ((==_iff (p + 1) n).0 e)) (mod_self n))
  | inr e ↦ rw (e) (mod-eq_of_lt (ground arith))
]

pub mod-distance : (n o i : ℕ) → o < n → i < n → (i + n - o) % n ≡ distance n o i
mod-distance n o i lo li = elim (Bool-cases (leb o i)) [
  | inl e ↦ rw (e) (
      subst (λ m. m % n ≡ i - o) (ground arith)
        (add-mod_left n (i - o) ∙ mod-eq_of_lt (ground arith)))
  | inr e ↦ rw (e) (mod-eq_of_lt (ground arith))
]

pub step_lt : (n p : ℕ) → p < n → step n p < n
step_lt n p lt = ground arith

-- From the slot `o` on up to the slot `i` stand the requests `xs`.
abbrev pub Stores : (n : ℕ) → (buffer : ℕ → ℕ) → (o : ℕ) → List ℕ → (i : ℕ) → Type 0
Stores n buffer o [] i = o ≡ i
Stores n buffer o (x ∷ xs) i = (buffer o ≡ x) × Stores n buffer (step n o) xs i

-- A request written to the slot `i` is behind the others.
pub Stores-snoc :
    (n : ℕ) (buffer : ℕ → ℕ) (o : ℕ) (xs : List ℕ) (i x : ℕ)
    → o < n
    → i < n
    → length xs ≡ distance n o i
    → Stores n buffer o xs i
    → Stores n (λ j. if i == j then x else buffer j) o (xs ++ x ∷ []) (step n i)
Stores-snoc n buffer o [] i x lo li len at_i = (ground arith, ground arith)
Stores-snoc n buffer o (y ∷ ys) i x lo li len (at_o, rest) =
    (ground arith, Stores-snoc n buffer (step n o) ys i x (step_lt n o lo) li (ground arith) rest)
