-- ===== src/WordCount/Total.antt =====
-- The whole run of warmup/wc.c on a text, word by word.
use mathlib.Core.List.{append-nil}
use operating_systems_lab.Base.{
  ℕ, ◌+◌, ◌/◌, ◌%◌, ◌^◌, ◌<◌, ◌≡◌, refl, sym, ap, ◌∙◌, true, ◌⊎◌, inl, inr, some, List, [], ◌∷◌,
  ltb, length, arith,
}
use operating_systems_lab.WordCount.{
  Wc, done, create_hash, is_space, c_string, insert, end_word, then_count, wc_loop, wc_init,
}
use operating_systems_lab.WordCount.Counted.{
  IsWord, Text, rest, blank, followed, c_string-IsWord, wc_loop-word, occurrences, Mem, here, there,
  Separate, Counts,
}
use operating_systems_lab.WordCount.Runs.{insert-Counts}

-- The words `ws` counted behind the words `seen`, the last one first
abbrev onto : List (List ℕ) → List (List ℕ) → List (List ℕ)
onto [] seen = seen
onto (w ∷ ws) seen = onto ws (w ∷ seen)

Mem-onto_right : (v : List ℕ) (ws seen : List (List ℕ)) → Mem v seen → Mem v (onto ws seen)
Mem-onto_right v [] seen m = m
Mem-onto_right v (w ∷ ws) seen m = Mem-onto_right v ws (w ∷ seen) (there w seen m)

Mem-onto_left : (v : List ℕ) (ws seen : List (List ℕ)) → Mem v ws → Mem v (onto ws seen)
Mem-onto_left v _ seen (here ws) = Mem-onto_right v ws (v ∷ seen) (here seen)
Mem-onto_left v _ seen (there w ws m) = Mem-onto_left v ws (w ∷ seen) m

Mem-head : (v w : List ℕ) (ws seen : List (List ℕ)) → Mem v (w ∷ seen) → Mem v (w ∷ ws) ⊎ Mem v seen
Mem-head _ w ws seen (here _) = inl (here ws)
Mem-head v w ws seen (there _ _ k) = inr k

Mem-onto_cases :
    (v : List ℕ) (ws seen : List (List ℕ)) → Mem v (onto ws seen) → Mem v ws ⊎ Mem v seen
Mem-onto_cases v [] seen m = inr m
Mem-onto_cases v (w ∷ ws) seen m = elim (Mem-onto_cases v ws (w ∷ seen) m) [
  | inl k ↦ inl (there w ws k)
  | inr k ↦ Mem-head v w ws seen k
]

occurrences-onto :
    (v : List ℕ) (ws seen : List (List ℕ))
    → occurrences v (onto ws seen) ≡ occurrences v ws + occurrences v seen
occurrences-onto v [] seen = omega arith
occurrences-onto v (w ∷ ws) seen = omega (arith, occurrences-onto v ws (w ∷ seen))

module _ (n : ℕ) (positive : 0 < n) (fuel : ℕ) where
  -- At a white space the word in the buffer is counted.
  wc_loop-space :
      (a : ℕ) (w : List ℕ) (c : ℕ) (s : List ℕ) (wc wc' : Wc)
      → IsWord (a ∷ w)
      → length (a ∷ w) < 500
      → is_space c ≡ true
      → insert fuel wc (a ∷ w) ≡ done wc'
      → wc_loop fuel (c ∷ s) (a ∷ w) wc ≡ wc_loop fuel s [] wc'
  unfolding wc_loop end_word
  wc_loop-space a w c s wc wc' is_word short h runs =
      let room : ltb (length (a ∷ w)) 500 ≡ true = ground (arith, short) in
      let ends : end_word fuel wc (c_string (a ∷ w)) ≡ done wc' =
        ap (end_word fuel wc) (c_string-IsWord (a ∷ w) is_word) ∙ runs in
      rw (wc_loop, room, h) (ap (λ r. then_count r (wc_loop fuel s [])) ends)

  wc_loop-Counts :
      (ws : List (List ℕ)) (text : List ℕ)
      → Text ws text
      → (seen : List (List ℕ)) (wc : Wc) → Separate n (onto ws seen)
      → Counts n seen wc
      → (wc' : Wc) × (wc_loop fuel text [] wc ≡ done wc') × Counts n (onto ws seen) wc'
  unfolding wc_loop end_word
  wc_loop-Counts _ _ (rest w is_word short) seen wc separate h = (
    wc,
    ap (λ t. wc_loop fuel t [] wc) (sym (append-nil w))
        ∙ wc_loop-word fuel w [] [] wc is_word (omega (arith, short)),
    h,
  )
  wc_loop-Counts _ _ (blank ws c s is t) seen wc separate h =
      let (wc', runs, counts) = wc_loop-Counts ws s t seen wc separate h in
      (wc', rw (wc_loop, is) runs, counts)
  wc_loop-Counts _ _ (followed ws a w c s is_word short is t) seen wc separate h =
      let now : Separate n ((a ∷ w) ∷ seen) = λ u v m k.
        separate u v (Mem-onto_right u ws ((a ∷ w) ∷ seen) m)
          (Mem-onto_right v ws ((a ∷ w) ∷ seen) k) in
      let (wc1, inserted, counts1) = insert-Counts n positive fuel (a ∷ w) seen wc now h in
      let (wc', runs, counts) = wc_loop-Counts ws s t ((a ∷ w) ∷ seen) wc1 separate counts1 in
      (
        wc',
        wc_loop-word fuel (a ∷ w) (c ∷ s) [] wc is_word (omega (arith, short))
            ∙ wc_loop-space a w c s wc wc1 is_word short is inserted
            ∙ runs,
        counts,
      )

-- For a text of words of less than 500 bytes with white space between them, long enough for a table of one
-- slot or more, in which different words have different first slots: `wc_init` returns, with a table as
-- long as a third of the text, in which each word that a white space follows has its number of
-- occurrences, modulo 2^64, in its first slot, and all other slots are empty.
pub wc_init-Counts :
    (fuel : ℕ) (ws : List (List ℕ)) (text : List ℕ)
    → Text ws text
    → 0 < length text / 3
    → Separate (length text / 3) ws
    → (wc : Wc) × (wc_init fuel text ≡ done wc) × Counts (length text / 3) ws wc
unfolding wc_init create_hash
wc_init-Counts fuel ws text t positive separate =
    let n : ℕ = length text / 3 in
    let back = λ (v : List ℕ) (m : Mem v (onto ws [])). in_words v (Mem-onto_cases v ws [] m) in
    let (wc, runs, h) =
      wc_loop-Counts n positive fuel ws text t [] (create_hash (length text))
        (λ u v m k. separate u v (back u m) (back v k))
        (record { same_size = refl; counted = λ w m. elim m [ ]; free = λ k f. refl }) in
    (
      wc,
      runs,
      record {
        same_size = h.same_size;
        counted = λ w m.
            let e : occurrences w (onto ws []) ≡ occurrences w ws =
              omega (arith, occurrences-onto w ws []) in
            h.counted w (Mem-onto_left w ws [] m)
            ∙ ap (λ k. some (record { word = w; count = k % 2 ^ 64 })) e;
        free = λ k f. h.free k (λ w m. f w (back w m));
      },
    )
  where
    in_words : (v : List ℕ) → Mem v ws ⊎ Mem v [] → Mem v ws
    in_words v (inl m) = m
    in_words v (inr m) = elim m [ ]
