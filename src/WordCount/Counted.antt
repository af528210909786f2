-- ===== src/WordCount/Counted.antt =====
-- The table of warmup/wc.c, for a text whose words have slots of their own.
use operating_systems_lab.Base.{
  ℕ, suc, ◌+◌, ◌%◌, ◌^◌, ◌<◌, ◌≤◌, ◌≡◌, refl, sym, ap, ◌∙◌, Bool, true, false, Bool-cases, inl, inr,
  none, some, List, [], ◌∷◌, ◌++◌, ltb, ◌==◌, if◌then◌else◌, length, same_name, arith, ==_iff, ◌&&◌,
  ◌⊎◌, length-append,
}
use mathlib.Core.Bool.{false≢true}
use mathlib.Core.List.{append-nil, append_assoc}
use operating_systems_lab.Server.Cache.{hash}
use operating_systems_lab.WordCount.{Wc, is_space, c_string, wc_loop}

-- A word: bytes that are no white space and not 0, the first `c`
pub data IsWord : List ℕ → Type 0 where
  empty : IsWord []
  byte : (c : ℕ) (w : List ℕ) → is_space c ≡ false → (c == 0) ≡ false → IsWord w → IsWord (c ∷ w)

-- A text and the words in it that a white space follows.
pub data Text : List (List ℕ) → List ℕ → Type 0 where
  rest : (w : List ℕ) → IsWord w → length w ≤ 500 → Text [] w
  blank :
      (ws : List (List ℕ)) (c : ℕ) (s : List ℕ) → is_space c ≡ true → Text ws s → Text ws (c ∷ s)
  followed :
      (ws : List (List ℕ)) (a : ℕ) (w : List ℕ) (c : ℕ) (s : List ℕ)
      → IsWord (a ∷ w)
      → length (a ∷ w) < 500
      → is_space c ≡ true
      → Text ws s
      → Text ((a ∷ w) ∷ ws) ((a ∷ w) ++ (c ∷ s))

pub c_string-IsWord : (w : List ℕ) → IsWord w → c_string w ≡ w
c_string-IsWord _ empty = refl
c_string-IsWord _ (byte c w h e r) = rw e (ap (λ t. c ∷ t) (c_string-IsWord w r))

shorter :
    (buff : List ℕ) (c n : ℕ) → length buff + suc n ≤ 500 → length (buff ++ (c ∷ [])) + n ≤ 500
shorter buff c n le =
    let e : length (buff ++ (c ∷ [])) ≡ length buff + 1 = length-append buff (c ∷ []) in
    omega (arith, le, e)

-- The bytes of a word go to the buffer.
pub wc_loop-word :
    (fuel : ℕ) (w s buff : List ℕ) (wc : Wc)
    → IsWord w
    → length buff + length w ≤ 500
    → wc_loop fuel (w ++ s) buff wc ≡ wc_loop fuel s (buff ++ w) wc
unfolding wc_loop
wc_loop-word fuel _ s buff wc empty le = ap (λ b. wc_loop fuel s b wc) (sym (append-nil buff))
wc_loop-word fuel _ s buff wc (byte c w h e r) le =
    let room : ltb (length buff) 500 ≡ true = ground (arith, le) in
    rw (wc_loop, room, h)
      (wc_loop-word fuel w s (buff ++ (c ∷ [])) wc r (shorter buff c (length w) le)
        ∙ ap (λ b. wc_loop fuel s b wc) (append_assoc buff (c ∷ []) w))

-- How often a word is in a list of words.
abbrev pub occurrences : (word : List ℕ) → List (List ℕ) → ℕ
occurrences word [] = 0
occurrences word (w ∷ ws) = (if same_name w word then 1 else 0) + occurrences word ws

pub data Mem (w : List ℕ) : List (List ℕ) → Type 0 where
  here : (ws : List (List ℕ)) → Mem w (w ∷ ws)
  there : (v : List ℕ) (ws : List (List ℕ)) → Mem w ws → Mem w (v ∷ ws)

-- The first slot of a word in a table of `n` slots
abbrev pub slot : (n : ℕ) → List ℕ → ℕ
slot n w = hash w % n

-- Words with one slot are the same word.
abbrev pub Separate : (n : ℕ) → List (List ℕ) → Type 0
Separate n ws = (v w : List ℕ) → Mem v ws → Mem w ws → slot n v ≡ slot n w → v ≡ w

-- The table after words were counted, the last one first.
pub record Counts (n : ℕ) (seen : List (List ℕ)) (wc : Wc) : Type 0 where
  pub same_size : wc.table_size ≡ n
  pub counted :
      (w : List ℕ)
      → Mem w seen
      → wc.hashtable (slot n w) ≡ some (record { word = w; count = occurrences w seen % 2 ^ 64 })
  pub free : (k : ℕ) → ((w : List ℕ) → Mem w seen → (slot n w == k) ≡ false) → wc.hashtable k ≡ none

same_name-eq : (v w : List ℕ) → same_name v w ≡ true → v ≡ w
unfolding same_name
same_name-eq [] [] h = refl
same_name-eq [] (b ∷ w) h = absurd (false≢true h)
same_name-eq (a ∷ v) [] h = absurd (false≢true h)
same_name-eq (a ∷ v) (b ∷ w) h =
    let (e, r) = both (a == b) (same_name v w) h in
    ap (λ c. c ∷ v) ((==_iff a b).0 e) ∙ ap (λ u. b ∷ u) (same_name-eq v w r)
  where
    both : (p q : Bool) → (p && q) ≡ true → (p ≡ true) × (q ≡ true)
    both true q h = (refl, h)
    both false q h = absurd (false≢true h)

-- Another slot is another name.
pub same_name-other :
    (n : ℕ) (v w : List ℕ) → (slot n v == slot n w) ≡ false → same_name v w ≡ false
same_name-other n v w h = elim (Bool-cases (same_name v w)) [
  | inl e ↦
      absurd
        (false≢true (sym h ∙ (==_iff (slot n v) (slot n w)).1 (ap (slot n) (same_name-eq v w e))))
  | inr e ↦ e
]

module _ (n : ℕ) (w : List ℕ) where
  -- A word that has the slot, or none.
  abbrev pub Slots : List (List ℕ) → Type 0
  Slots seen =
      ((v : List ℕ) × Mem v seen × (slot n v ≡ slot n w))
      ⊎ ((v : List ℕ) → Mem v seen → (slot n v == slot n w) ≡ false)

  pub slots : (seen : List (List ℕ)) → Slots seen
  slots [] = inr (λ v m. elim m [ ])
  slots (u ∷ seen) = elim (Bool-cases (slot n u == slot n w)) [
    | inl e ↦ inl (u, here seen, (==_iff (slot n u) (slot n w)).0 e)
    | inr e ↦ elim (slots seen) [
      | inl (v, m, q) ↦ inl (v, there u seen m, q)
      | inr none_has ↦ inr (λ v m. beside e none_has v m)
    ]
  ]
    where
      beside :
          (slot n u == slot n w) ≡ false
          → ((v : List ℕ) → Mem v seen → (slot n v == slot n w) ≡ false)
          → (v : List ℕ) → Mem v (u ∷ seen)
          → (slot n v == slot n w) ≡ false
      beside e h _ (here _) = e
      beside e h v (there _ _ m) = h v m

  pub occurrences-none :
      (seen : List (List ℕ))
      → ((v : List ℕ) → Mem v seen → (slot n v == slot n w) ≡ false)
      → occurrences w seen ≡ 0
  occurrences-none [] h = refl
  occurrences-none (u ∷ seen) h =
      let r = occurrences-none seen (λ v m. h v (there u seen m)) in
      rw (same_name-other n u w (h u (here seen))) (omega (arith, r))
