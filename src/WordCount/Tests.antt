-- ===== src/WordCount/Tests.antt =====
-- The theorem on word counts at a text of two words, one of them twice, and runs.
use operating_systems_lab.Base.{
  ℕ, ◌≡◌, ◌≢◌, ◌⊎◌, inl, inr, sym, ◌∙◌, if◌then◌else◌, length, same_name, refl, ap, List, [], ◌∷◌,
  ◌==◌, arith,
}
use operating_systems_lab.Server.Cache.{hash, hash_from, sign_extend}
use operating_systems_lab.WordCount.{
  Wc, done, endless, wc_init, wc_output, create_hash, insert, insert_from, end_word, wc_loop,
  then_count,
}
use operating_systems_lab.WordCount.Counted.{
  empty, byte, Text, rest, followed, Mem, here, there, slot, Separate, Counts,
}
use operating_systems_lab.WordCount.Total.{wc_init-Counts}

-- `a b a c`, whose last word no white space follows
abbrev text : List ℕ
text = 97 ∷ 32 ∷ 98 ∷ 32 ∷ 97 ∷ 32 ∷ 99 ∷ []

abbrev words : List (List ℕ)
words = (97 ∷ []) ∷ (98 ∷ []) ∷ (97 ∷ []) ∷ []

words_of_text : Text words text
words_of_text = followed _ 97 [] 32 _ (byte 97 [] refl refl empty) (omega arith) refl (
    followed _ 98 [] 32 _ (byte 98 [] refl refl empty) (omega arith) refl (
      followed _ 97 [] 32 _ (byte 97 [] refl refl empty) (omega arith) refl
        (rest (99 ∷ []) (byte 99 [] refl refl empty) (omega arith))))

two_slots : (slot 2 (97 ∷ []) ≡ 0) × (slot 2 (98 ∷ []) ≡ 1)
unfolding hash hash_from sign_extend
two_slots = (refl, refl)

two_words : (v : List ℕ) → Mem v words → (v ≡ 97 ∷ []) ⊎ (v ≡ 98 ∷ [])
two_words _ (here _) = inl refl
two_words _ (there _ _ (here _)) = inr refl
two_words _ (there _ _ (there _ _ (here _))) = inl refl
two_words v (there _ _ (there _ _ (there _ _ m))) = elim m [ ]

apart : slot 2 (97 ∷ []) ≢ slot 2 (98 ∷ [])
apart h = omega (arith, h, two_slots.0, two_slots.1)

words-Separate : Separate 2 words
words-Separate v w m k h = go (two_words v m) (two_words w k)
  where
    moved : {a b : List ℕ} → v ≡ a → w ≡ b → slot 2 a ≡ slot 2 b
    moved p q = ap (slot 2) (sym p) ∙ h ∙ ap (slot 2) q

    go : (v ≡ 97 ∷ []) ⊎ (v ≡ 98 ∷ []) → (w ≡ 97 ∷ []) ⊎ (w ≡ 98 ∷ []) → v ≡ w
    go (inl p) (inl q) = p ∙ sym q
    go (inr p) (inr q) = p ∙ sym q
    go (inl p) (inr q) = absurd (apart (moved p q))
    go (inr p) (inl q) = absurd (apart (sym (moved p q)))

wc_init-Counts_example : (wc : Wc) × (wc_init 0 text ≡ done wc) × Counts 2 words wc
wc_init-Counts_example = wc_init-Counts 0 words text words_of_text (omega arith) words-Separate

-- The last word is not counted.
counted_run :
    then_count (wc_init 0 text) (λ wc. if length (wc_output wc) == 2 then done wc else endless)
    ≡ wc_init 0 text
unfolding wc_init create_hash insert insert_from end_word wc_loop wc_output hash hash_from
    sign_extend same_name
counted_run = refl

-- `a c `, with one slot
goes_round : wc_init 20 (97 ∷ 32 ∷ 99 ∷ 32 ∷ []) ≡ endless
unfolding wc_init create_hash insert insert_from end_word wc_loop hash hash_from sign_extend
    same_name
goes_round = refl
