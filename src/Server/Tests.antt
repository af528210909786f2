-- ===== src/Server/Tests.antt =====
-- The theorems on the buffer and the cache at small inputs.
use operating_systems_lab.Base.{
  ◌≡◌, refl, false, none, some, [], ◌∷◌, ◌==◌, if◌then◌else◌, arith, same_name,
}
use operating_systems_lab.Base.Int.{pos}
use operating_systems_lab.Server.Buffer.{Server, server_init, server_request, stub}
use operating_systems_lab.Server.Fifo.{
  Holds, Puts, Takes, server_init-Holds, server_request-Puts, stub-Takes,
}
use operating_systems_lab.Server.Cache.{Cache, hash, hash_from, sign_extend, first_slot}
use operating_systems_lab.Server.Cache.Probe.{Found, lookup_from}
use operating_systems_lab.Server.Cache.Insert.{cache_insert, inserted, probe, is_null}
use operating_systems_lab.Server.Cache.Endless.{lookup_from-endless}
use operating_systems_lab.Server.Cache.Stored.{Stores, HasTail, cache_insert-Stores}

server_request-Puts_example : Puts [] 2 7 (server_request 7 (server_init 2 (λ i. 0)))
unfolding server_init
server_request-Puts_example = server_request-Puts 7 (server_init-Holds 2 (λ i. 0))

-- The last of three slots holds a request, and the next one goes to the first.
abbrev one_request : Server
one_request = record { max_requests = 2; buffer = λ i. 7; in_at = 0; out_at = 2 }

one_request-Holds : Holds one_request (7 ∷ [])
one_request-Holds = record {
  in_range = omega arith;
  out_range = omega arith;
  size = refl;
  slots = (refl, refl);
}

stub-Takes_example : Takes (7 ∷ []) 2 (stub one_request)
stub-Takes_example = stub-Takes (7 ∷ []) one_request-Holds

-- The file 5 is called `a`, any other file `b`; two bytes are left, and `a` has three.
abbrev cache : Cache
cache = record {
  hashtable = λ k. none;
  cache_size = 10;
  remaining_cache_size = pos 2;
  table_size = 110;
  lru_element = none;
  lru_tail = none;
  elements = λ e. record { file = 6; next = none; pre = none };
  files = λ f. record {
    file_name = if f == 5 then 97 ∷ [] else 98 ∷ [];
    file_buf = 1 ∷ 2 ∷ 3 ∷ [];
    file_size = 3;
  };
  frees = [];
}

hash_of_a : hash (97 ∷ []) ≡ 177670
unfolding hash hash_from sign_extend
hash_of_a = refl

no_head : HasTail cache
no_head x e = ground (arith, e)

stored_a :
    (c : Cache) × (cache_insert 4 cache 5 9 ≡ inserted 9 c)
    × Stores cache 5 9 (first_slot cache (97 ∷ [])) c
stored_a = cache_insert-Stores 3 cache 5 9 (omega arith) refl no_head

-- The names `a` and `l` have the same first slot, 9, of eleven, and `l` is there.
abbrev crowded : Cache
crowded = record cache {
  table_size = 11;
  hashtable = λ k. if k == 9 then some 7 else none;
  files = λ f. record {
    file_name = if f == 5 then 97 ∷ [] else 108 ∷ [];
    file_buf = 1 ∷ 2 ∷ 3 ∷ [];
    file_size = 3;
  };
}

-- `a` is in the slot 4, the square of 9.
next_of_a : probe is_null crowded 4 (first_slot crowded (97 ∷ [])) ≡ some 4
unfolding probe hash hash_from sign_extend
next_of_a = refl

other_name : same_name (97 ∷ []) (98 ∷ []) ≡ false
unfolding same_name
other_name = refl

-- The slot 1 holds the file `b`.
abbrev slot_one : Cache
slot_one = record cache { hashtable = λ k. if k == 1 then some 9 else none }

lookup_from-endless_example :
    lookup_from slot_one (97 ∷ []) false 50 1 (slot_one.hashtable 1) ≡ Found.endless
lookup_from-endless_example =
    lookup_from-endless slot_one (97 ∷ []) false 50 1 9 refl other_name (omega arith) refl
