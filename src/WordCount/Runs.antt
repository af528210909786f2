-- ===== src/WordCount/Runs.antt =====
-- The runs of warmup/wc.c on a text whose words have slots of their own.
use mathlib.Core.Bool.{false≢true}
use native.Mathlib.Nat.{mod-eq_of_lt}
use operating_systems_lab.Base.{
  ℕ, zero, suc, ◌+◌, ◌%◌, ◌^◌, ◌<◌, ◌≡◌, refl, sym, ap, subst, ◌∙◌, true, false, Bool-cases, inl,
  inr, none, some, List, ◌∷◌, ◌==◌, same_name, arith, ==_iff,
}
use operating_systems_lab.Server.Cache.{hash}
use operating_systems_lab.Server.Cache.Stored.{same_name_refl}
use operating_systems_lab.WordCount.{Element, Wc, done, endless, put, insert_from, insert}
use operating_systems_lab.WordCount.Counted.{
  occurrences, Mem, here, there, slot, Separate, Counts, same_name-other, slots, occurrences-none,
}

-- The element for a word that was counted `k` times before.
abbrev once_more : (w : List ℕ) → (k : ℕ) → Element
once_more w k = record { word = w; count = (k + 1) % 2 ^ 64 }

==_swap : (a b : ℕ) → (a == b) ≡ false → (b == a) ≡ false
==_swap a b h = ground (arith, h)

==_self : (a : ℕ) → (a == a) ≡ true
==_self a = ground arith

Mem-other :
    (v w : List ℕ) (seen : List (List ℕ)) (n : ℕ)
    → (slot n v == slot n w) ≡ false
    → Mem v (w ∷ seen)
    → Mem v seen
Mem-other _ w seen n e (here _) = absurd (false≢true (sym e ∙ ==_self (slot n w)))
Mem-other v w seen n e (there _ _ m) = m

module _ (n : ℕ) (w : List ℕ) (seen : List (List ℕ)) (separate : Separate n (w ∷ seen)) where
  put_self :
      (wc : Wc)
      → (put wc (slot n w) (once_more w (occurrences w seen))).hashtable (slot n w)
        ≡ some (record { word = w; count = occurrences w (w ∷ seen) % 2 ^ 64 })
  put_self wc =
      let k : ℕ = occurrences w seen in
      let e : k + 1 ≡ 1 + k = omega arith in
      rw (==_self (slot n w), same_name_refl w)
        (ap (λ c. some (record { word = w; count = c % 2 ^ 64 })) e)

  put-Counts :
      (wc : Wc)
      → Counts n seen wc
      → Counts n (w ∷ seen) (put wc (slot n w) (once_more w (occurrences w seen)))
  put-Counts wc h = record {
    same_size = h.same_size;
    counted = λ v m. elim (Bool-cases (slot n v == slot n w)) [
      | inl e ↦
          subst
            (λ u.
              (put wc (slot n w) (once_more w (occurrences w seen))).hashtable (slot n u)
              ≡ some (record { word = u; count = occurrences u (w ∷ seen) % 2 ^ 64 }))
            (sym (separate v w m (here seen) ((==_iff (slot n v) (slot n w)).0 e))) (put_self wc)
      | inr e ↦
          let k : ℕ = occurrences v seen in
          let plus_none : k ≡ 0 + k = omega arith in
          rw (e, same_name-other n w v (==_swap (slot n v) (slot n w) e))
            (h.counted v (Mem-other v w seen n e m)
              ∙ ap (λ c. some (record { word = v; count = c % 2 ^ 64 })) plus_none)
    ];
    free = λ k none_has.
        rw (==_swap (slot n w) k (none_has w (here seen)))
          (h.free k (λ v m. none_has v (there w seen m)));
  }

insert_from-same :
    (fuel : ℕ) (wc : Wc) (w : List ℕ) (key : ℕ) (e : Element)
    → same_name e.word w ≡ true
    → insert_from fuel wc w key (some e)
      ≡ done (put wc key (record e { count = (e.count + 1) % 2 ^ 64 }))
unfolding insert_from
insert_from-same zero wc w key e h = rw (insert_from, h) refl
insert_from-same (suc fuel) wc w key e h = rw (insert_from, h) refl

insert_from-none :
    (fuel : ℕ) (wc : Wc) (w : List ℕ) (key : ℕ)
    → insert_from fuel wc w key none ≡ done (put wc key (record { word = w; count = 1 }))
unfolding insert_from
insert_from-none zero wc w key = refl
insert_from-none (suc fuel) wc w key = refl

zero_mod : (n : ℕ) → 0 < n → 0 % n ≡ 0
zero_mod n h = mod-eq_of_lt h

-- In the slot 0 the next slot is 0 again, so a word that meets another one there never gets a slot.
pub insert_from-endless :
    (fuel : ℕ) (wc : Wc) (w : List ℕ) (e : Element)
    → wc.hashtable 0 ≡ some e
    → same_name e.word w ≡ false
    → 0 < wc.table_size
    → insert_from fuel wc w 0 (some e) ≡ endless
unfolding insert_from
insert_from-endless zero wc w e full h positive = rw (insert_from, h) refl
insert_from-endless (suc fuel) wc w e full h positive =
    rw (insert_from, h)
      (ap (λ k. insert_from fuel wc w k (wc.hashtable k)) (zero_mod wc.table_size positive)
        ∙ ap (insert_from fuel wc w 0) full
        ∙ insert_from-endless fuel wc w e full h positive)

next_mod : (k : ℕ) → (k % 2 ^ 64 + 1) % 2 ^ 64 ≡ (k + 1) % 2 ^ 64
next_mod k = omega arith

first_mod : (k : ℕ) → k ≡ 0 → 1 ≡ (k + 1) % 2 ^ 64
first_mod k h = omega (arith, h)

module _ (n : ℕ) (positive : 0 < n) (fuel : ℕ) where
  -- At the slot of the word.
  insert_from-once_more :
      (w : List ℕ) (seen : List (List ℕ)) (wc : Wc)
      → Separate n (w ∷ seen)
      → Counts n seen wc
      → insert_from fuel wc w (slot n w) (wc.hashtable (slot n w))
        ≡ done (put wc (slot n w) (once_more w (occurrences w seen)))
  insert_from-once_more w seen wc separate h =
      let k : ℕ = occurrences w seen in
      elim (slots n w seen) [
        | inl (v, m, q) ↦
            let same : v ≡ w = separate v w (there w seen m) (here seen) q in
            let counted : wc.hashtable (slot n w) ≡ some (record { word = w; count = k % 2 ^ 64 }) =
              subst
                (λ u.
                  wc.hashtable (slot n u)
                  ≡ some (record { word = u; count = occurrences u seen % 2 ^ 64 }))
                same (h.counted v m) in
            ap (insert_from fuel wc w (slot n w)) counted
            ∙ insert_from-same fuel wc w (slot n w) (record { word = w; count = k % 2 ^ 64 })
                (same_name_refl w)
            ∙ ap (λ c. done (put wc (slot n w) (record { word = w; count = c }))) (next_mod k)
        | inr none_has ↦
            ap (insert_from fuel wc w (slot n w)) (h.free (slot n w) none_has)
            ∙ insert_from-none fuel wc w (slot n w)
            ∙ ap (λ c. done (put wc (slot n w) (record { word = w; count = c })))
                (first_mod k (occurrences-none n w seen none_has))
      ]

  pub insert-Counts :
      (w : List ℕ) (seen : List (List ℕ)) (wc : Wc)
      → Separate n (w ∷ seen)
      → Counts n seen wc
      → (wc' : Wc) × (insert fuel wc w ≡ done wc') × Counts n (w ∷ seen) wc'
  unfolding insert
  insert-Counts w seen wc separate h =
      let wc' = put wc (slot n w) (once_more w (occurrences w seen)) in
      let some_slot : (wc.table_size == 0) ≡ false =
        subst (λ m. (m == 0) ≡ false) (sym h.same_size) (ground (arith, positive)) in
      let runs : insert fuel wc w ≡ done wc' =
        rw (insert, some_slot)
          (ap (λ m. insert_from fuel wc w (hash w % m) (wc.hashtable (hash w % m))) h.same_size
            ∙ insert_from-once_more w seen wc separate h) in
      (wc', runs, put-Counts n w seen separate wc h)
