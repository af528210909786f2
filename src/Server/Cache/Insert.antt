-- ===== src/Server/Cache/Insert.antt =====
-- `cache_insert` and `cache_evict`. `endless` is a loop that runs out of fuel, `broken` a null
-- pointer.
use operating_systems_lab.Base.{
  ℕ, zero, suc, ◌*◌, ◌%◌, Bool, true, false, Option, none, some, ◌∷◌, ltb, ◌==◌, if◌then◌else◌,
}
use operating_systems_lab.Base.Int.{minus, plus, above}
use operating_systems_lab.Server.Cache.{Cache, Freed, name_at, first_slot, update}
use operating_systems_lab.Server.Cache.Lru.{set_pre, upgrade_lru}

-- The first slot from `key` on that `stop` accepts.
unfoldable pub probe : (stop : Option ℕ → Bool) → Cache → (fuel key : ℕ) → Option ℕ
probe stop c zero key = none
probe stop c (suc n) key = elim (stop (c.hashtable key)) [
  | true ↦ some key
  | false ↦ probe stop c n (key * key % c.table_size)
]

abbrev pub is_null : Option ℕ → Bool
is_null none = true
is_null (some e) = false

abbrev pub is_at : ℕ → Option ℕ → Bool
is_at e none = false
is_at e (some f) = e == f

pub data Evicted : Type 0 where
  evicted : Cache → Evicted
  endless : Evicted
  broken : Evicted

-- The end of a round of `cache_evict`: the slot of `e` is found, its file and itself are freed.
unfoldable pub clear_slot : Cache → (e : ℕ) → Option ℕ → Evicted
clear_slot c e none = endless
clear_slot c e (some key) = evicted (record c {
  hashtable = update c.hashtable key none;
  frees = Freed.element e ∷ Freed.file_data (c.elements e).file ∷ c.frees;
})

-- A round with `LRU_element` the element `e` and its `next`.
unfoldable pub evict_entry : (fuel : ℕ) → Cache → (e : ℕ) → Option ℕ → Evicted
unfolding clear_slot probe
evict_entry fuel c e none = broken
evict_entry fuel c e (some n) =
    let size = (c.files (c.elements e).file).file_size in
    let c1 = set_pre (record c { lru_element = some n }) n none in
    let c2 = record c1 { remaining_cache_size = plus c1.remaining_cache_size size } in
    clear_slot c2 e (probe (is_at e) c2 fuel (first_slot c2 (name_at c2 e)))

unfoldable pub evict_round : (fuel : ℕ) → Cache → Option ℕ → Evicted
unfolding evict_entry
evict_round fuel c none = evicted c
evict_round fuel c (some e) = evict_entry fuel c e (c.elements e).next

unfoldable pub evict_loop : (rounds fuel : ℕ) → (amount : ℕ) → Evicted → Evicted
unfolding evict_round
evict_loop rounds fuel amount endless = endless
evict_loop rounds fuel amount broken = broken
evict_loop zero fuel amount (evicted c) =
    if above c.remaining_cache_size amount then endless else evicted c
evict_loop (suc n) fuel amount (evicted c) = elim (above c.remaining_cache_size amount) [
  | true ↦ evict_loop n fuel amount (evict_round fuel c c.lru_element)
  | false ↦ evicted c
]

unfoldable pub cache_evict : (fuel : ℕ) → Cache → (amount : ℕ) → Evicted
unfolding evict_loop
cache_evict fuel c amount = evict_loop fuel fuel amount (evicted c)

-- What `cache_insert` does: it returns null, or the new element.
pub data Inserted : Type 0 where
  refused : Inserted
  inserted : ℕ → Cache → Inserted
  endless : Inserted
  broken : Inserted

-- The element `e` in the slot `key`.
abbrev pub placed : Cache → (file e key : ℕ) → Cache
placed c file e key = record c {
  elements = update c.elements e (record { file = file; next = none; pre = none });
  hashtable = update c.hashtable key (some e);
  remaining_cache_size = minus c.remaining_cache_size (c.files file).file_size;
}

unfoldable pub place : Cache → (file e : ℕ) → Option ℕ → Inserted
place c file e none = endless
place c file e (some key) = elim (upgrade_lru (placed c file e key) e true) [
  | none ↦ broken
  | some c1 ↦ inserted e c1
]

unfoldable pub insert_after : (fuel : ℕ) → (file e : ℕ) → Evicted → Inserted
unfolding place probe
insert_after fuel file e endless = endless
insert_after fuel file e broken = broken
insert_after fuel file e (evicted c) =
    place c file e (probe is_null c fuel (first_slot c (c.files file).file_name))

-- `file->file_size > 0.5*cache->cache_size`, doubled; `e` is the new element.
unfoldable pub cache_insert : (fuel : ℕ) → Cache → (file e : ℕ) → Inserted
unfolding cache_evict insert_after
cache_insert fuel c file e =
    let size = (c.files file).file_size in
    if ltb c.cache_size (2 * size)
    then refused
    else insert_after fuel file e
        (if above c.remaining_cache_size size then evicted c else cache_evict fuel c size)
