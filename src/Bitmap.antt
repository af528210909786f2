-- ===== src/Bitmap.antt =====
-- fs/bitmap.c: an array of bits in words of one byte. A word is a number below 256, and a mask
-- `1 << j` is `2 ^ j`. What `malloc` answers is an argument; a failed `assert` and an access
-- outside the array are `fault`.
pub mod Alloc
pub mod Bits
pub mod Count
pub mod Create
pub mod Mark
mod Tests
pub mod Valid
use Prim.Native.Nat.{bit_and, bit_or}
use operating_systems_lab.Base.{
  ℕ, zero, suc, ◌+◌, ◌-◌, ◌*◌, ◌/◌, ◌%◌, ◌^◌, Bool, true, false, Option, none, some, List, not,
  ◌||◌, length, get_or, set, replicate, ltb, ◌==◌, if◌then◌else◌, Outcome, ok, err, fault, enomem,
  enospc,
}

-- `WORD_ALLBITS`
abbrev pub word_allbits : ℕ
word_allbits = 255

pub record Bitmap : Type 0 where
  pub nbits : ℕ
  pub v : List ℕ

-- `DIVROUNDUP(nbits, BITS_PER_WORD)` in `u_int32_t`
abbrev pub words_for : ℕ → ℕ
words_for nbits = ((nbits + 8 - 1) % 2 ^ 32) / 8

abbrev pub word : Bitmap → ℕ → ℕ
word b ix = get_or b.v ix 0

abbrev pub put_word : Bitmap → ℕ → ℕ → Bitmap
put_word b ix w = record b { v = set b.v ix w }

-- `for (j = overbits; j < BITS_PER_WORD; j++) w |= 1 << j`, by the rounds left
pub mark_leftover : (rounds j w : ℕ) → ℕ
mark_leftover zero j w = w
mark_leftover (suc n) j w = mark_leftover n (j + 1) (bit_or w (2 ^ j))

-- The body behind the two allocations.
pub fill_new : ℕ → Outcome Bitmap
unfolding mark_leftover
fill_new nbits =
    let words = words_for nbits in
    let b : Bitmap = record { nbits = nbits; v = replicate words 0 } in
    let ix = words - 1 in
    let overbits = nbits - ix * 8 in
    if ltb (nbits / 8) words
    then (if not (nbits / 8 == words - 1) || (overbits == 0 || not (ltb overbits 8))
        then fault
        else ok (put_word b ix (mark_leftover (8 - overbits) overbits (word b ix))))
    else ok b

-- `bitmap_create`; the flags say whether each `malloc` succeeds
pub create : (got_struct got_words : Bool) → ℕ → Outcome Bitmap
unfolding fill_new
create got_struct got_words nbits =
    if not got_struct then err enomem else if not got_words then err enomem else fill_new nbits

pub get_size : Bitmap → ℕ
get_size b = b.nbits

-- The inner loop of `bitmap_alloc`: the first offset whose bit is clear.
pub scan_word : (rounds offset w : ℕ) → Option ℕ
scan_word zero offset w = none
scan_word (suc n) offset w = elim (bit_and w (2 ^ offset) == 0) [
  | true ↦ some offset
  | false ↦ scan_word n (offset + 1) w
]

-- What the outer loop does with a word that is not full.
pub take_bit : Bitmap → ℕ → Option ℕ → Outcome (ℕ × Bitmap)
take_bit b ix none = fault
take_bit b ix (some offset) =
    let b' = put_word b ix (bit_or (word b ix) (2 ^ offset)) in
    let index = ix * 8 + offset in if ltb index b.nbits then ok (index, b') else fault

pub alloc_loop : Bitmap → (rounds ix : ℕ) → Outcome (ℕ × Bitmap)
unfolding scan_word take_bit
alloc_loop b zero ix = err enospc
alloc_loop b (suc n) ix = elim (ltb ix (length b.v)) [
  | false ↦ fault
  | true ↦ elim (word b ix == word_allbits) [
    | false ↦ take_bit b ix (scan_word 8 0 (word b ix))
    | true ↦ alloc_loop b n (ix + 1)
  ]
]

-- `bitmap_alloc`: the index goes through the pointer argument
pub alloc : Bitmap → Outcome (ℕ × Bitmap)
unfolding alloc_loop
alloc b = alloc_loop b (words_for b.nbits) 0

-- `bitmap_translate`: word index and mask
abbrev pub translate : ℕ → ℕ × ℕ
translate bitno = (bitno / 8, 2 ^ (bitno % 8))

pub mark : Bitmap → ℕ → Outcome Bitmap
mark b index =
    if not (ltb index b.nbits)
    then fault
    else let (ix, mask) = translate index in
      if not (bit_and (word b ix) mask == 0)
      then fault
      else ok (put_word b ix (bit_or (word b ix) mask))

-- `~mask`, cut down to the `unsigned char` that it is stored in, is `255 - mask`.
pub unmark : Bitmap → ℕ → Outcome Bitmap
unmark b index =
    if not (ltb index b.nbits)
    then fault
    else let (ix, mask) = translate index in
      if bit_and (word b ix) mask == 0
      then fault
      else ok (put_word b ix (bit_and (word b ix) (255 - mask)))

-- `bitmap_isset`, which checks no bound: the masked word, zero or not
pub isset : Bitmap → ℕ → ℕ
isset b index = let (ix, mask) = translate index in bit_and (word b ix) mask

pub count_loop : Bitmap → (rounds i nr : ℕ) → ℕ
unfolding isset
count_loop b zero i nr = nr
count_loop b (suc n) i nr = count_loop b n (i + 1) (if isset b i == 0 then nr else nr + 1)

pub nr_allocated : Bitmap → ℕ
unfolding count_loop
nr_allocated b = count_loop b b.nbits 0 0
