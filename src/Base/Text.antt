-- ===== src/Base/Text.antt =====
-- Strings of C as the lists of their bytes before the final 0, and what <string.h> and `sprintf` do on them.
use Prim.Native.Nat.{ℕ, zero, suc, ◌+◌, ◌/◌, ◌%◌}
use Prim.Native.String.{String}
use Prim.Native.Char.{code}
use mathlib.Core.Bool.{Bool, true, false, ◌&&◌, ◌||◌}
use mathlib.Core.Option.{Option, none, some}
use mathlib.Core.List.{List, [], ◌∷◌}
use operating_systems_lab.Base.Tests.{◌==◌, ltb, leb, if◌then◌else◌}

-- The bytes of an ASCII text
abbrev pub codes : String → List ℕ
codes String.[] = []
codes (String.◌∷◌ c s) = code c ∷ codes s

abbrev pub crlf : List ℕ
crlf = 13 ∷ 10 ∷ []

abbrev pub take : {A : Type 0} → ℕ → List A → List A
take zero xs = []
take (suc n) [] = []
take (suc n) (x ∷ xs) = x ∷ take n xs

abbrev pub starts_with : (prefix s : List ℕ) → Bool
starts_with [] s = true
starts_with (p ∷ ps) [] = false
starts_with (p ∷ ps) (c ∷ s) = (p == c) && starts_with ps s

-- `strstr(s, part) != NULL`
unfoldable pub contains : (part s : List ℕ) → Bool
contains part [] = starts_with part []
contains part (c ∷ s) = starts_with part (c ∷ s) || contains part s

-- `strrchr(s, c)`: from the last `c` on
unfoldable pub strrchr : (c : ℕ) → List ℕ → Option (List ℕ)
strrchr c [] = none
strrchr c (d ∷ s) = elim (strrchr c s) [
  | some t ↦ some t
  | none ↦ if d == c then some (d ∷ s) else none
]

-- The decimal digits of a number below 10^n
abbrev pub decimal_from : (n : ℕ) → ℕ → List ℕ → List ℕ
decimal_from zero k s = s
decimal_from (suc n) k s =
    let rest = decimal_from n (k / 10) ((48 + k % 10) ∷ s) in
    if ltb k 10 then (48 + k) ∷ s else rest

-- `%d`, `%ld` and `%u` of a number that is not negative; 64 bits have 20 digits at most.
abbrev pub decimal : ℕ → List ℕ
decimal k = decimal_from 20 k []

-- ASCII letters without case
abbrev pub to_lower : ℕ → ℕ
to_lower c = if leb 65 c && leb c 90 then c + 32 else c

-- `strcasecmp(a, b) == 0`
abbrev pub strcasecmp : List ℕ → List ℕ → Bool
strcasecmp [] [] = true
strcasecmp [] (b ∷ bs) = false
strcasecmp (a ∷ rest) [] = false
strcasecmp (a ∷ rest) (b ∷ bs) = (to_lower a == to_lower b) && strcasecmp rest bs
