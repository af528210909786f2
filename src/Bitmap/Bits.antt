-- ===== src/Bitmap/Bits.antt =====
-- Single bits of a byte: what `|` with a mask and `&` with its complement do, from tables over
-- every byte and every pair of offsets.
use Prim.Native.Nat.{bit_and, bit_or}
use operating_systems_lab.Base.{
  ℕ, zero, suc, ◌-◌, ◌^◌, ◌<◌, ◌≡◌, refl, Bool, true, false, not, ◌&&◌, ltb, ◌==◌, if◌then◌else◌,
  ltb→lt, arith,
}

-- Bit `j` of the byte `w` is set.
abbrev pub bit : ℕ → ℕ → Bool
bit w j = not (bit_and w (2 ^ j) == 0)

abbrev bool_eq : Bool → Bool → Bool
bool_eq true b = b
bool_eq false b = not b

bool_eq→eq : (a b : Bool) → bool_eq a b ≡ true → a ≡ b
bool_eq→eq true true h = refl
bool_eq→eq true false h = ground arith
bool_eq→eq false true h = ground arith
bool_eq→eq false false h = refl

-- Over a range, check every value by evaluation.
all_below : ℕ → (ℕ → Bool) → Bool
all_below zero p = true
all_below (suc n) p = p n && all_below n p

all_below-apply : (n : ℕ) (p : ℕ → Bool) (x : ℕ) → all_below n p ≡ true → x < n → p x ≡ true
unfolding all_below
all_below-apply zero p x h lt = absurd (omega arith)
all_below-apply (suc n) p x h lt = ground (arith, all_below-apply n p x)

-- Every byte `w` and offsets `j` and `k`.
every : (ℕ → ℕ → ℕ → Bool) → Bool
unfolding all_below
every p = all_below 256 (λ w. all_below 8 (λ j. all_below 8 (λ k. p w j k)))

every-apply :
    (p : ℕ → ℕ → ℕ → Bool) (w j k : ℕ) → every p ≡ true → w < 256 → j < 8 → k < 8 → p w j k ≡ true
unfolding every
every-apply p w j k h hw hj hk =
    all_below-apply 8 (λ k. p w j k) k
      (all_below-apply 8 (λ j. all_below 8 (λ k. p w j k)) j
        (all_below-apply 256 (λ w. all_below 8 (λ j. all_below 8 (λ k. p w j k))) w h hw) hj)
      hk

abbrev or_test : ℕ → ℕ → ℕ → Bool
or_test w j k =
    ltb (bit_or w (2 ^ j)) 256
    && bool_eq (bit (bit_or w (2 ^ j)) k) (if j == k then true else bit w k)

abbrev clear_test : ℕ → ℕ → ℕ → Bool
clear_test w j k =
    ltb (bit_and w (255 - 2 ^ j)) 256
    && bool_eq (bit (bit_and w (255 - 2 ^ j)) k) (if j == k then false else bit w k)

or_table : every or_test ≡ true
unfolding every
or_table = refl

clear_table : every clear_test ≡ true
unfolding every
clear_table = refl

-- A byte is full where all its bits are set.
abbrev full_test : ℕ → ℕ → ℕ → Bool
full_test w j k =
    (if all_below 8 (bit w) then w == 255 else true) && (if w == 255 then bit w k else true)

full_table : every full_test ≡ true
unfolding every all_below
full_table = refl

and_left : (a b : Bool) → (a && b) ≡ true → a ≡ true
and_left a b h = ground arith

and_right : (a b : Bool) → (a && b) ≡ true → b ≡ true
and_right a b h = ground arith

module _ (w j k : ℕ) (hw : w < 256) (hj : j < 8) (hk : k < 8) where
  pub bit-bit_or : bit (bit_or w (2 ^ j)) k ≡ (if j == k then true else bit w k)
  bit-bit_or = bool_eq→eq _ _ (and_right _ _ (every-apply or_test w j k or_table hw hj hk))

  pub bit_or-lt : bit_or w (2 ^ j) < 256
  bit_or-lt = let h = and_left _ _ (every-apply or_test w j k or_table hw hj hk) in ltb→lt _ _ h

  pub bit-bit_clear : bit (bit_and w (255 - 2 ^ j)) k ≡ (if j == k then false else bit w k)
  bit-bit_clear = bool_eq→eq _ _ (and_right _ _ (every-apply clear_test w j k clear_table hw hj hk))

  pub bit_clear-lt : bit_and w (255 - 2 ^ j) < 256
  bit_clear-lt =
      let h = and_left _ _ (every-apply clear_test w j k clear_table hw hj hk) in ltb→lt _ _ h

all_below-intro : (n : ℕ) (p : ℕ → Bool) → ((k : ℕ) → k < n → p k ≡ true) → all_below n p ≡ true
unfolding all_below
all_below-intro zero p h = refl
all_below-intro (suc n) p h =
    ground (arith, h n (omega arith), all_below-intro n p (λ k hk. h k (omega arith)))

if_true : (a b : Bool) → (if a then b else true) ≡ true → a ≡ true → b ≡ true
if_true a b h k = ground arith

pub full_of_bits : (w : ℕ) → w < 256 → ((k : ℕ) → k < 8 → bit w k ≡ true) → (w == 255) ≡ true
full_of_bits w hw h =
    if_true _ _
      (and_left _ _ (every-apply full_test w 0 0 full_table hw (omega arith) (omega arith)))
      (all_below-intro 8 (bit w) h)

pub bit_of_full : (k : ℕ) → k < 8 → bit 255 k ≡ true
bit_of_full k hk =
    and_right _ _ (every-apply full_test 255 0 k full_table (omega arith) (omega arith) hk)
