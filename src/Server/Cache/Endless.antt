-- ===== src/Server/Cache/Endless.antt =====
-- Probes of `cache_lookup` that go round for ever.
use operating_systems_lab.Base.{
  ℕ, zero, suc, ◌*◌, ◌^◌, ◌%◌, ◌<◌, ◌≡◌, subst, Bool, false, some, List, leb, arith, same_name,
}
use operating_systems_lab.Server.Cache.{Cache, name_at}
use operating_systems_lab.Server.Cache.Probe.{Found, lookup_from}

-- Where a slot whose number squared leads back to it holds another file, the probes from there
-- never end, for any number of rounds.
pub lookup_from-endless :
    (c : Cache) (name : List ℕ) (flag : Bool) (fuel key e : ℕ)
    → c.hashtable key ≡ some e
    → same_name name (name_at c e) ≡ false
    → key * key < 2 ^ 31
    → key * key % c.table_size ≡ key
    → lookup_from c name flag fuel key (c.hashtable key) ≡ Found.endless
unfolding lookup_from
lookup_from-endless c name flag zero key e full other small back = rw full
lookup_from-endless c name flag (suc n) key e full other small back =
    let fits : leb (2 ^ 31) (key * key) ≡ false = ground arith in
    let rest : lookup_from c name flag n key (some e) ≡ Found.endless =
      subst (λ o. lookup_from c name flag n key o ≡ Found.endless) full
        (lookup_from-endless c name flag n key e full other small back) in
    ground (arith, full, other, fits, back, rest)
