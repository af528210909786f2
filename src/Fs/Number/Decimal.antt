-- ===== src/Fs/Number/Decimal.antt =====
-- What fs/common.c makes of a decimal number.
use mathlib.Core.List.{append-nil}
use operating_systems_lab.Base.{
  min, ℕ, suc, ◌+◌, ◌-◌, ◌*◌, ◌^◌, ◌<◌, ◌≡◌, sym, ap, ◌∙◌, true, false, List, [], ◌∷◌, ltb, ◌==◌,
  if◌then◌else◌, length, arith, ok, ◌++◌, ◌⊎◌, err, einval, subst, refl,
}
use native.Mathlib.Omega.{pow_step}
use native.Mathlib.Nat.{add-mul, mul_assoc}
use operating_systems_lab.Base.Int.{pos}
use operating_systems_lab.Fs.Number.{
  is_digit, is_space, starts_digit, digits, scan, str_to_offset, str_to_size,
}

-- The number that decimal digits stand for, the first for the highest power of ten.
abbrev pub value_of : List ℕ → ℕ
value_of [] = 0
value_of (d ∷ ds) = d * 10 ^ length ds + value_of ds

-- The characters of digits
abbrev pub characters : List ℕ → List ℕ
characters [] = []
characters (d ∷ ds) = (48 + d) ∷ characters ds

pub data AreDigits : List ℕ → Type 0 where
  no_digits : AreDigits []
  digit : (d : ℕ) (ds : List ℕ) → d < 10 → AreDigits ds → AreDigits (d ∷ ds)

is_digit-lt : (d : ℕ) → d < 10 → is_digit (48 + d) ≡ true
is_digit-lt d lt = ground (arith, lt)

shift :
    (sum d : ℕ) (ds : List ℕ)
    → (sum * 10 + d) * 10 ^ length ds + value_of ds
      ≡ sum * 10 ^ suc (length ds) + (d * 10 ^ length ds + value_of ds)
shift sum d ds =
    by_power sum d (10 ^ length ds) (value_of ds)
    ∙ ap (λ p. sum * p + (d * 10 ^ length ds + value_of ds)) (sym (pow_step 10 (length ds)))
  where
    by_power : (s d p v : ℕ) → (s * 10 + d) * p + v ≡ s * (10 * p) + (d * p + v)
    by_power s d p v = rw (add-mul (s * 10) d p, mul_assoc s 10 p) (omega arith)

digits-stops : (sum : ℕ) (rest : List ℕ) → starts_digit rest ≡ false → digits sum rest ≡ (sum, rest)
unfolding digits
digits-stops sum [] other = refl
digits-stops sum (c ∷ rest) other = rw other refl

digits-characters :
    (sum : ℕ) (ds rest : List ℕ)
    → AreDigits ds
    → starts_digit rest ≡ false
    → digits sum (characters ds ++ rest) ≡ (sum * 10 ^ length ds + value_of ds, rest)
unfolding digits
digits-characters sum _ rest no_digits other =
    digits-stops sum rest other ∙ ap (λ m. (m, rest)) (omega arith)
digits-characters sum _ rest (digit d ds lt h) other =
    let e : is_digit (48 + d) ≡ true = is_digit-lt d lt in
    let f : 48 + d - 48 ≡ d = omega arith in
    rw (e, f)
      (digits-characters (sum * 10 + d) ds rest h other ∙ ap (λ m. (m, rest)) (shift sum d ds))

scan-characters :
    (d : ℕ) (ds rest : List ℕ)
    → d < 10
    → AreDigits ds
    → starts_digit rest ≡ false
    → scan (characters (d ∷ ds) ++ rest) ≡ (false, value_of (d ∷ ds), rest)
unfolding scan
scan-characters d ds rest lt h other =
    let not_space : is_space (48 + d) ≡ false = ground (arith, lt) in
    let not_minus : (48 + d == 45) ≡ false = ground arith in
    let not_plus : (48 + d == 43) ≡ false = ground arith in
    rw (not_space, not_minus, not_plus, is_digit-lt d lt)
      (ap (λ (sum, end). (false, sum, end))
          (digits-characters 0 (d ∷ ds) rest (digit d ds lt h) other)
        ∙ ap (λ n. (false, n, rest)) (omega arith))

capped : (n k : ℕ) → (if ltb n (suc k) then n else k) ≡ min n k
capped n k = ground arith

-- A character that is no digit
abbrev pub NoDigit : ℕ → Type 0
NoDigit c = (c < 48) ⊎ (57 < c)

-- A string of decimal digits, one or more, is read as the number that it stands for, up to the
-- greatest of the type: `str_to_offset` gives the least of it and 2^63 - 1, and `str_to_size` the
-- least of it and 2^64 - 1. With a character that is no digit behind it, and whatever else, both
-- refuse the string with `EINVAL`.
pub decimal-read :
    (d : ℕ) (ds : List ℕ) (c : ℕ) (rest : List ℕ)
    → AreDigits (d ∷ ds)
    → NoDigit c
    → (str_to_offset (characters (d ∷ ds)) ≡ ok (pos (min (value_of (d ∷ ds)) (2 ^ 63 - 1))))
      × (str_to_size (characters (d ∷ ds)) ≡ ok (min (value_of (d ∷ ds)) (2 ^ 64 - 1)))
      × (str_to_offset (characters (d ∷ ds) ++ c ∷ rest) ≡ err einval)
      × (str_to_size (characters (d ∷ ds) ++ c ∷ rest) ≡ err einval)
unfolding str_to_offset str_to_size scan
decimal-read d ds c rest (digit _ _ lt h) ends =
    let e : scan (characters (d ∷ ds)) ≡ (false, value_of (d ∷ ds), []) =
      subst (λ str. scan str ≡ (false, value_of (d ∷ ds), [])) (append-nil (characters (d ∷ ds)))
        (scan-characters d ds [] lt h refl) in
    let other : is_digit c ≡ false = ground (arith, ends) in
    let f = scan-characters d ds (c ∷ rest) lt h other in
    let left : ltb 0 (length (c ∷ rest)) ≡ true = ground arith in
    (
      rw e (ap (λ n. ok (pos n)) (capped (value_of (d ∷ ds)) (2 ^ 63 - 1))),
      rw e (ap ok (capped (value_of (d ∷ ds)) (2 ^ 64 - 1))),
      rw (f, left) refl,
      rw (f, left) refl,
    )
