-- ===== src/Server/Cache/Roundtrip.antt =====
-- What `cache_insert` stores is what `cache_lookup` finds, however many other files stand on the way.
use operating_systems_lab.Base.{ℕ, suc, ◌≡◌, false}
use operating_systems_lab.Server.Cache.{Cache}
use operating_systems_lab.Server.Cache.Probe.{Found, hit, cache_lookup}
use operating_systems_lab.Server.Cache.Insert.{Inserted, inserted}

-- How the insertion of a file ends where the file `g` was in `x`: both are found under their names,
-- or the probes for the new file, in the table as it was, do not end.
pub data FoundAgain (c : Cache) (file e fuel g n x : ℕ) : Inserted → Type 0 where
  found :
      (c1 : Cache)
      → cache_lookup (suc fuel) c1 file false ≡ hit e c1
      → cache_lookup n c1 g false ≡ hit x c1
      → FoundAgain c file e fuel g n x (inserted e c1)
  goes_round :
      cache_lookup fuel c file false ≡ Found.endless
      → FoundAgain c file e fuel g n x Inserted.endless
