-- ===== src/Server/Cache/Probe.antt =====
-- `cache_lookup`: the probes from the slot of a name, which is squared for the next one. `endless` is
-- a loop that runs out of fuel, `broken` an overflow of `int` or a null pointer.
use operating_systems_lab.Base.{
  ℕ, zero, suc, ◌*◌, ◌^◌, ◌%◌, Bool, true, false, Option, none, some, List, leb, same_name,
}
use operating_systems_lab.Server.Cache.{Cache, name_at, first_slot}
use operating_systems_lab.Server.Cache.Lru.{upgrade_lru}

pub data Found : Type 0 where
  hit : ℕ → Cache → Found
  missing : Found
  endless : Found
  broken : Found

unfoldable pub touch : Cache → (e : ℕ) → (lru_flag : Bool) → Found
touch c e false = hit e c
touch c e true = elim (upgrade_lru c e false) [ none ↦ broken | some c1 ↦ hit e c1 ]

-- The loop at the slot `key`, with what the slot holds. `key` is an `int`.
unfoldable pub lookup_from : Cache → List ℕ → (lru_flag : Bool) → (fuel key : ℕ) → Option ℕ → Found
unfolding touch
lookup_from c name flag fuel key none = missing
lookup_from c name flag zero key (some e) = endless
lookup_from c name flag (suc n) key (some e) = elim (same_name name (name_at c e)) [
  | true ↦ touch c e flag
  | false ↦ elim (leb (2 ^ 31) (key * key)) [
    | true ↦ broken
    | false ↦
        lookup_from c name flag n (key * key % c.table_size)
          (c.hashtable (key * key % c.table_size))
  ]
]

unfoldable pub cache_lookup : (fuel : ℕ) → Cache → (file : ℕ) → (lru_flag : Bool) → Found
unfolding lookup_from
cache_lookup fuel c file flag =
    let name = (c.files file).file_name in
    lookup_from c name flag fuel (first_slot c name) (c.hashtable (first_slot c name))
