-- ===== src/WordCount.antt =====
-- warmup/wc.c: the words of a text and how often each stands in it. The hash table is a function from its
-- slots, null for `none`; its hash is the one of webserver/server_thread.c, which is the same code.
pub mod Counted
pub mod Runs
pub mod Total
mod Tests
use operating_systems_lab.Base.{
  ℕ, zero, suc, ◌+◌, ◌-◌, ◌*◌, ◌/◌, ◌%◌, ◌^◌, Bool, true, false, ◌&&◌, ◌||◌, Option, none, some,
  List, [], ◌∷◌, ◌++◌, ltb, leb, ◌==◌, if◌then◌else◌, length, same_name,
}
use operating_systems_lab.Server.Cache.{hash}

-- `struct element`
pub record Element : Type 0 where
  pub word : List ℕ
  pub count : ℕ

-- `struct wc`, with the number of slots
pub record Wc : Type 0 where
  pub hashtable : ℕ → Option Element
  pub table_size : ℕ

-- A run ends, goes round the slots for ever, or does what C leaves undefined.
pub data Counting : Type 0 where
  done : Wc → Counting
  endless : Counting
  broken : Counting

unfoldable pub create_hash : (size : ℕ) → Wc
create_hash size = record { hashtable = λ i. none; table_size = size / 3 }

-- `isspace` in the C locale
abbrev pub is_space : ℕ → Bool
is_space c = c == 32 || (leb 9 c && leb c 13)

-- The bytes before the first 0
abbrev pub c_string : List ℕ → List ℕ
c_string [] = []
c_string (c ∷ s) = if c == 0 then [] else c ∷ c_string s

abbrev pub put : Wc → (key : ℕ) → Element → Wc
put wc key e = record wc { hashtable = λ i. if i == key then some e else wc.hashtable i }

-- The slot of a word from `key` on, with what it holds: a new element, one more, or the next slot.
-- `new_key` is a `long`.
unfoldable pub insert_from :
    (fuel : ℕ) → Wc → (word : List ℕ) → (key : ℕ) → Option Element → Counting
insert_from fuel wc word key none = done (put wc key (record { word = word; count = 1 }))
insert_from zero wc word key (some e) =
    if same_name e.word word
    then done (put wc key (record e { count = (e.count + 1) % 2 ^ 64 }))
    else endless
insert_from (suc n) wc word key (some e) =
    let next = key * key % wc.table_size in
    elim (same_name e.word word) [
      | true ↦ done (put wc key (record e { count = (e.count + 1) % 2 ^ 64 }))
      | false ↦ elim (ltb (key * key) (2 ^ 63)) [
        | true ↦ insert_from n wc word next (wc.hashtable next)
        | false ↦ broken
      ]
    ]

-- A table without slots has no remainder.
unfoldable pub insert : (fuel : ℕ) → Wc → (word : List ℕ) → Counting
unfolding insert_from
insert fuel wc word =
    let key = hash word % wc.table_size in
    if wc.table_size == 0 then broken else insert_from fuel wc word key (wc.hashtable key)

-- What is done at a white space; nothing if the buffer starts with a 0.
unfoldable pub end_word : (fuel : ℕ) → Wc → (word : List ℕ) → Counting
unfolding insert
end_word fuel wc [] = done wc
end_word fuel wc (c ∷ w) = insert fuel wc (c ∷ w)

abbrev pub then_count : Counting → (Wc → Counting) → Counting
then_count endless f = endless
then_count broken f = broken
then_count (done wc) f = f wc

-- The loop over the text. `buff` is the `k` bytes that are set; it has 500.
unfoldable pub wc_loop : (fuel : ℕ) → (text buff : List ℕ) → Wc → Counting
unfolding end_word
wc_loop fuel [] buff wc = done wc
wc_loop fuel (c ∷ text) buff wc = elim (ltb (length buff) 500) [
  | false ↦ broken
  | true ↦ elim (is_space c) [
    | true ↦ then_count (end_word fuel wc (c_string buff)) (wc_loop fuel text [])
    | false ↦ wc_loop fuel text (buff ++ (c ∷ [])) wc
  ]
]

unfoldable pub wc_init : (fuel : ℕ) → (word_array : List ℕ) → Counting
unfolding create_hash wc_loop
wc_init fuel word_array = wc_loop fuel word_array [] (create_hash (length word_array))

-- The elements that `wc_output` prints, from the slot `i` on, `n` slots
abbrev pub elements_from : (n : ℕ) → Wc → (i : ℕ) → List Element
elements_from zero wc i = []
elements_from (suc n) wc i =
    let rest = elements_from n wc (i + 1) in
    elim (wc.hashtable i) [ none ↦ rest | some e ↦ e ∷ rest ]

unfoldable pub wc_output : Wc → List Element
wc_output wc = elements_from wc.table_size wc 0

-- The calls of `free`, on the word and the element in a slot and at last on the table and its structure.
pub data Freed : Type 0 where
  word_at element_at : (slot : ℕ) → Freed
  table structure : Freed

abbrev pub frees_from : (n : ℕ) → Wc → (i : ℕ) → List Freed
frees_from zero wc i = table ∷ structure ∷ []
frees_from (suc n) wc i =
    let rest = frees_from n wc (i + 1) in
    elim (wc.hashtable i) [ none ↦ rest | some e ↦ word_at i ∷ element_at i ∷ rest ]

unfoldable pub wc_destroy : Wc → List Freed
wc_destroy wc = frees_from wc.table_size wc 0
