-- ===== src/Fs/Number/Tests.antt =====
-- The theorem on decimal numbers at 205 and `205a1`, and runs.
use operating_systems_lab.Base.{◌^◌, ◌-◌, ◌≡◌, refl, [], ◌∷◌, arith, ok, err, einval, inr}
use operating_systems_lab.Base.Int.{pos, negsuc}
use operating_systems_lab.Fs.Number.{str_to_offset, str_to_size, scan, digits}
use operating_systems_lab.Fs.Number.Decimal.{no_digits, digit, decimal-read}

decimal-read_example :
    (str_to_offset (50 ∷ 48 ∷ 53 ∷ []) ≡ ok (pos 205))
    × (str_to_size (50 ∷ 48 ∷ 53 ∷ []) ≡ ok 205)
    × (str_to_offset (50 ∷ 48 ∷ 53 ∷ 97 ∷ 49 ∷ []) ≡ err einval)
    × (str_to_size (50 ∷ 48 ∷ 53 ∷ 97 ∷ 49 ∷ []) ≡ err einval)
decimal-read_example =
    decimal-read 2 (0 ∷ 5 ∷ []) 97 (49 ∷ [])
      (digit 2 _ (omega arith) (digit 0 _ (omega arith) (digit 5 _ (omega arith) no_digits)))
      (inr (omega arith))

-- `-1` as an offset and as a size, and a number with a letter behind it
minus_one : str_to_offset (45 ∷ 49 ∷ []) ≡ ok (negsuc 0)
unfolding str_to_offset scan digits
minus_one = refl

minus_one_size : str_to_size (45 ∷ 49 ∷ []) ≡ ok (2 ^ 64 - 1)
unfolding str_to_size scan digits
minus_one_size = refl

letter : str_to_offset (49 ∷ 97 ∷ []) ≡ err einval
unfolding str_to_offset scan digits
letter = refl
