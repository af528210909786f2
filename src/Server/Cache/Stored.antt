-- ===== src/Server/Cache/Stored.antt =====
-- What `cache_insert` stores, and that the size limit is not kept.
use operating_systems_lab.Base.{
  ℕ, zero, suc, ◌*◌, ◌≤◌, ◌≡◌, refl, sym, subst, Bool, true, false, Option, none, some, List, [],
  ◌∷◌, ltb, ◌==◌, if◌then◌else◌, inl, inr, Bool-cases, arith, same_name,
}
use operating_systems_lab.Base.Int.{minus, above}
use operating_systems_lab.Server.Cache.{Cache, first_slot, update}
use operating_systems_lab.Server.Cache.Lru.{
  set_next, set_pre, append_entry, upgrade_from, upgrade_lru,
}
use operating_systems_lab.Server.Cache.Insert.{
  evicted, evict_loop, cache_evict, probe, place, placed, insert_after, cache_insert, inserted,
}

-- `cache_evict` does nothing when less than the amount is left.
pub evict_loop-stays :
    (rounds fuel amount : ℕ) (c : Cache)
    → above c.remaining_cache_size amount ≡ false
    → evict_loop rounds fuel amount (evicted c) ≡ evicted c
unfolding evict_loop
evict_loop-stays zero fuel amount c low = rw low
evict_loop-stays (suc n) fuel amount c low = rw (evict_loop, low) refl

-- The order of use has changed, and nothing else.
record Kept (c c1 : Cache) : Type 0 where
  hashtable : c1.hashtable ≡ c.hashtable
  remaining : c1.remaining_cache_size ≡ c.remaining_cache_size
  files : c1.files ≡ c.files
  table_size : c1.table_size ≡ c.table_size
  frees : c1.frees ≡ c.frees
  file_of : (y : ℕ) → (c1.elements y).file ≡ (c.elements y).file

abbrev Gives : Cache → Option Cache → Type 0
Gives c r = (c1 : Cache) × (r ≡ some c1) × Kept c c1

append_entry-Kept : (c : Cache) (e t : ℕ) → Gives c (append_entry c e (some t))
unfolding append_entry
append_entry-Kept c e t = (
  record (set_pre (set_next c t (some e)) e (some t)) { lru_tail = some e },
  refl,
  record {
    hashtable = refl;
    remaining = refl;
    files = refl;
    table_size = refl;
    frees = refl;
    file_of = λ y. ground arith;
  },
)

upgrade_from-Kept :
    (c : Cache) (e : ℕ) (h : Option ℕ)
    → ((x : ℕ) → h ≡ some x → (t : ℕ) × (c.lru_tail ≡ some t))
    → Gives c (upgrade_from c e true h)
unfolding upgrade_from
upgrade_from-Kept c e none tail = (
  record (set_pre (set_next (record c { lru_element = some e }) e none) e none) {
    lru_tail = some e;
  },
  refl,
  record {
    hashtable = refl;
    remaining = refl;
    files = refl;
    table_size = refl;
    frees = refl;
    file_of = λ y. ground arith;
  },
)
upgrade_from-Kept c e (some h) tail = go (c.elements h).next
  where
    appended : Gives c (append_entry c e c.lru_tail)
    appended =
        let (t, is) = tail h refl in
        subst (λ r. Gives c (append_entry c e r)) (sym is) (append_entry-Kept c e t)

    alone : (b : Bool) → Gives c (if b then some c else append_entry c e c.lru_tail)
    alone true = (
      c,
      refl,
      record {
        hashtable = refl;
        remaining = refl;
        files = refl;
        table_size = refl;
        frees = refl;
        file_of = λ y. refl;
      },
    )
    alone false = appended

    go :
        (next : Option ℕ)
        → Gives c (elim next [
          | none ↦
              if (c.elements h).file == (c.elements e).file
              then some c
              else append_entry c e c.lru_tail
          | some n ↦ append_entry c e c.lru_tail
        ])
    go none = alone ((c.elements h).file == (c.elements e).file)
    go (some n) = appended

-- `c1` is `c` with the file in the element `e` and the slot `key`, and less room, and nothing else
-- has left the table.
pub record Stores (c : Cache) (file e key : ℕ) (c1 : Cache) : Type 0 where
  pub hashtable : c1.hashtable ≡ update c.hashtable key (some e)
  pub remaining : c1.remaining_cache_size ≡ minus c.remaining_cache_size (c.files file).file_size
  pub files : c1.files ≡ c.files
  pub table_size : c1.table_size ≡ c.table_size
  pub frees : c1.frees ≡ c.frees
  pub file_of : (y : ℕ) → (c1.elements y).file ≡ (if e == y then file else (c.elements y).file)

-- There is a tail where there is a head.
abbrev pub HasTail : Cache → Type 0
HasTail c = (x : ℕ) → c.lru_element ≡ some x → (t : ℕ) × (c.lru_tail ≡ some t)

pub place-Stores :
    (c : Cache) (file e key : ℕ)
    → HasTail c
    → (c1 : Cache) × (place c file e (some key) ≡ inserted e c1) × Stores c file e key c1
unfolding place upgrade_lru
place-Stores c file e key tail =
    let (c1, is, kept) = upgrade_from-Kept (placed c file e key) e c.lru_element tail in
    (
      c1,
      rw (place, is) refl,
      record {
        hashtable = kept.hashtable;
        remaining = kept.remaining;
        files = kept.files;
        table_size = kept.table_size;
        frees = kept.frees;
        file_of = λ y. ground (arith, kept.file_of y);
      },
    )

-- `cache_insert` of a file of at most half the cache's size, whose first slot is empty, always stores
-- it there and takes its size off the room that is left, however little that is: no file leaves the
-- cache, and nothing is freed.
pub cache_insert-Stores :
    (fuel : ℕ) (c : Cache) (file e : ℕ)
    → 2 * (c.files file).file_size ≤ c.cache_size
    → c.hashtable (first_slot c (c.files file).file_name) ≡ none
    → HasTail c
    → (c1 : Cache) × (cache_insert (suc fuel) c file e ≡ inserted e c1)
      × Stores c file e (first_slot c (c.files file).file_name) c1
unfolding cache_insert insert_after probe cache_evict
cache_insert-Stores fuel c file e half empty tail =
    let size = (c.files file).file_size in
    let key = first_slot c (c.files file).file_name in
    let (c1, is, stores) = place-Stores c file e key tail in
    let fits : ltb c.cache_size (2 * size) ≡ false = ground arith in
    let room : (if above c.remaining_cache_size size
          then evicted c
          else cache_evict (suc fuel) c size)
        ≡ evicted c =
      elim (Bool-cases (above c.remaining_cache_size size)) [
        | inl e ↦ rw e
        | inr e ↦ rw (e) (evict_loop-stays (suc fuel) (suc fuel) size c e)
      ] in
    let stored : insert_after (suc fuel) file e (evicted c) ≡ inserted e c1 =
      rw (insert_after, probe, empty) is in
    (c1, rw (fits, room) stored, stores)

pub same_name_refl : (name : List ℕ) → same_name name name ≡ true
unfolding same_name
same_name_refl [] = refl
same_name_refl (a ∷ rest) = ground (arith, same_name_refl rest)
