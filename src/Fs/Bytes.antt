-- ===== src/Fs/Bytes.antt =====
-- Memory as bytes: buffers by offset, `memcpy`, and `int`s as four bytes, the lowest first.
pub mod Copied
pub mod Words
use operating_systems_lab.Base.{
  ℕ, ◌+◌, ◌-◌, ◌*◌, ◌/◌, ◌%◌, ◌^◌, ◌&&◌, List, ltb, leb, ◌==◌, if◌then◌else◌, get_or,
}
use operating_systems_lab.Base.Int.{ℤ, pos, negsuc}

abbrev pub Buffer : Type 0
Buffer = ℕ → ℕ

abbrev pub zeros : Buffer
zeros k = 0

-- The bytes of a list, and the buffer `p + n`.
abbrev pub of_list : List ℕ → Buffer
of_list l k = get_or l k 0

abbrev pub from : Buffer → ℕ → Buffer
from b n k = b (n + k)

-- `memcpy(dst + at, src + start, n)`
abbrev pub memcpy : (dst : Buffer) (at : ℕ) (src : Buffer) (start n : ℕ) → Buffer
memcpy dst at src start n k = if leb at k && ltb k (at + n) then src (start + (k - at)) else dst k

-- The byte `j` of a 32-bit word, and the word that four bytes make.
abbrev pub byte_of : (w j : ℕ) → ℕ
byte_of w j =
    if j == 0
    then w % 256
    else if j == 1
    then w / 256 % 256
    else if j == 2
    then w / 65536 % 256
    else w / 16777216 % 256

abbrev pub word_at : Buffer → (i : ℕ) → ℕ
word_at b i = b (4 * i) + 256 * b (4 * i + 1) + 65536 * b (4 * i + 2) + 16777216 * b (4 * i + 3)

-- A word as a signed integer, and the other way.
abbrev pub to_int : ℕ → ℤ
to_int w = if ltb w (2 ^ 31) then pos w else negsuc (2 ^ 32 - 1 - w)

abbrev pub of_int : ℤ → ℕ
of_int (pos n) = n % 2 ^ 32
of_int (negsuc k) = 2 ^ 32 - 1 - k % 2 ^ 32

-- `((int *)b)[i]`, read and written
abbrev pub int_at : Buffer → (i : ℕ) → ℤ
int_at b i = to_int (word_at b i)

abbrev pub put_int : Buffer → (i : ℕ) → ℤ → Buffer
put_int b i v k = if k / 4 == i then byte_of (of_int v) (k % 4) else b k

-- The bytes of a structure given by its words.
abbrev pub of_words : (ℕ → ℕ) → Buffer
of_words word k = byte_of (word (k / 4)) (k % 4)
