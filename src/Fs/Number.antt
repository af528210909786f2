-- ===== src/Fs/Number.antt =====
-- fs/common.c: offsets and sizes from words. A string is the list of its bytes before the final 0.
pub mod Decimal
mod Tests
use operating_systems_lab.Base.{
  ℕ, zero, suc, ◌+◌, ◌-◌, ◌*◌, ◌%◌, ◌^◌, Bool, true, false, not, ◌&&◌, ◌||◌, Option, none, some,
  List, [], ◌∷◌, ltb, leb, ◌==◌, if◌then◌else◌, length, einval, Outcome, ok, err,
}
use operating_systems_lab.Base.Int.{ℤ, pos, negsuc}

abbrev pub is_digit : ℕ → Bool
is_digit c = leb 48 c && leb c 57

-- White space in the C locale
abbrev pub is_space : ℕ → Bool
is_space c = c == 32 || (leb 9 c && leb c 13)

-- What `strtoll` and `strtoull` of the C library read in base 10: white space, a sign and digits.
abbrev pub skip_space : List ℕ → List ℕ
skip_space [] = []
skip_space (c ∷ s) = if is_space c then skip_space s else c ∷ s

-- The sign, `true` for a minus, and what is behind it
abbrev pub sign_of : List ℕ → Bool × List ℕ
sign_of [] = (false, [])
sign_of (c ∷ s) = if c == 45 then (true, s) else if c == 43 then (false, s) else (false, c ∷ s)

-- The digits, and what is behind them
unfoldable pub digits : (sum : ℕ) → List ℕ → ℕ × List ℕ
digits sum [] = (sum, [])
digits sum (c ∷ s) = if is_digit c then digits (sum * 10 + (c - 48)) s else (sum, c ∷ s)

abbrev pub starts_digit : List ℕ → Bool
starts_digit [] = false
starts_digit (c ∷ s) = is_digit c

-- The sign, the number, and `*endptr`, which is the whole string where there is no digit
unfoldable pub scan : List ℕ → Bool × ℕ × List ℕ
scan str =
    let (minus, s) = sign_of (skip_space str) in
    if starts_digit s then (let (sum, end) = digits 0 s in (minus, sum, end)) else (false, 0, str)

-- `strtoll` gives the nearest number that fits 64 bits.
abbrev pub signed : (minus : Bool) → (sum : ℕ) → ℤ
signed false sum = pos (if ltb sum (2 ^ 63) then sum else 2 ^ 63 - 1)
signed true zero = pos 0
signed true (suc n) = negsuc (if ltb n (2 ^ 63) then n else 2 ^ 63 - 1)

-- `strtoull` negates modulo the word, and gives the greatest number where the digits are too many.
abbrev pub unsigned : (minus : Bool) → (sum : ℕ) → ℕ
unsigned minus sum =
    if ltb sum (2 ^ 64) then (if minus then (2 ^ 64 - sum) % 2 ^ 64 else sum) else 2 ^ 64 - 1

unfoldable pub str_to_offset : List ℕ → Outcome ℤ
str_to_offset str =
    let (minus, sum, end) = scan str in
    if ltb 0 (length end) then err einval else ok (signed minus sum)

unfoldable pub str_to_size : List ℕ → Outcome ℕ
str_to_size str =
    let (minus, sum, end) = scan str in
    if ltb 0 (length end) then err einval else ok (unsigned minus sum)
