-- ===== src/Fs/Bytes/Words.antt =====
-- Structures and arrays of words in memory, written and read.
use operating_systems_lab.Base.{ℕ, ◌+◌, ◌*◌, ◌/◌, ◌%◌, ◌^◌, ◌<◌, ◌≡◌, ◌∙◌, refl, arith, ◌≤◌}
use operating_systems_lab.Base.Int.{ℤ, pos, negsuc}
use operating_systems_lab.Fs.Bytes.{Buffer, word_at, of_words, to_int, of_int}

-- The four bytes of a word make the word.
bytes_of_word :
    (w : ℕ)
    → w < 2 ^ 32
    → w % 256 + 256 * (w / 256 % 256) + 65536 * (w / 65536 % 256) + 16777216 * (w / 16777216 % 256)
      ≡ w
bytes_of_word w h = omega arith

module _ (f : ℕ → ℕ) (i : ℕ) where
  byte_0 : of_words f (4 * i) ≡ f i % 256
  byte_0 =
      let q : 4 * i / 4 ≡ i = omega arith in let r : 4 * i % 4 ≡ 0 = omega arith in rw (q, r) refl

  byte_1 : of_words f (4 * i + 1) ≡ f i / 256 % 256
  byte_1 =
      let q : (4 * i + 1) / 4 ≡ i = omega arith in
      let r : (4 * i + 1) % 4 ≡ 1 = omega arith in rw (q, r) refl

  byte_2 : of_words f (4 * i + 2) ≡ f i / 65536 % 256
  byte_2 =
      let q : (4 * i + 2) / 4 ≡ i = omega arith in
      let r : (4 * i + 2) % 4 ≡ 2 = omega arith in rw (q, r) refl

  byte_3 : of_words f (4 * i + 3) ≡ f i / 16777216 % 256
  byte_3 =
      let q : (4 * i + 3) / 4 ≡ i = omega arith in
      let r : (4 * i + 3) % 4 ≡ 3 = omega arith in rw (q, r) refl

  -- A buffer with the bytes of the words `f` has the word `f i` at `i`.
  pub word_at-of_words :
      (b : Buffer)
      → ((k : ℕ) → 4 * i ≤ k → k < 4 * i + 4 → b k ≡ of_words f k)
      → f i < 2 ^ 32
      → word_at b i ≡ f i
  word_at-of_words b h lt =
      rw
        (
          h (4 * i) (omega arith) (omega arith) ∙ byte_0,
          h (4 * i + 1) (omega arith) (omega arith) ∙ byte_1,
          h (4 * i + 2) (omega arith) (omega arith) ∙ byte_2,
          h (4 * i + 3) (omega arith) (omega arith) ∙ byte_3,
        )
        (bytes_of_word (f i) lt)

-- A value of `s32`
abbrev pub IsInt : ℤ → Type 0
IsInt (pos n) = n < 2 ^ 31
IsInt (negsuc n) = n < 2 ^ 31

-- An integer of 32 bits comes back from its word.
pub to_int-of_int : (z : ℤ) → IsInt z → to_int (of_int z) ≡ z
to_int-of_int (pos n) h = ground arith
to_int-of_int (negsuc n) h = ground arith

pub of_int-lt : (z : ℤ) → IsInt z → of_int z < 2 ^ 32
of_int-lt (pos n) h = omega arith
of_int-lt (negsuc n) h = omega arith
