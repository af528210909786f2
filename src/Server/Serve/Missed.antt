-- ===== src/Server/Serve/Missed.antt =====
-- A request for a name that the cache of webserver/server_thread.c does not hold.
use operating_systems_lab.Base.{
  ℕ, suc, ◌*◌, ◌<◌, ◌≤◌, ◌≡◌, refl, sym, ap, subst, Bool, true, false, Option, none, some, List,
  ◌++◌, ltb, arith, ◌==◌, if◌then◌else◌,
}
use operating_systems_lab.Server.Cache.{FileData, Cache, first_slot}
use operating_systems_lab.Server.Cache.Probe.{missing, cache_lookup, lookup_from}
use operating_systems_lab.Server.Cache.Stored.{Stores, HasTail, cache_insert-Stores}
use operating_systems_lab.Server.Request.{
  accepted, Stat, Read, request_init, request_readfile, request_sendfile,
}
use operating_systems_lab.Server.Serve.{
  Event, writes, served, request_destroy, put_data, after_insert, after_check, store_read,
  after_lookup, serve_init, do_server_request,
}

cache_lookup-missing :
    (fuel d : ℕ) (c : Cache) (flag : Bool)
    → c.hashtable (first_slot c (c.files d).file_name) ≡ none
    → cache_lookup fuel c d flag ≡ missing
unfolding cache_lookup lookup_from
cache_lookup-missing fuel d c flag empty = rw (cache_lookup, empty) refl

put_data-same : (c : Cache) (d : ℕ) (f : FileData) → (put_data c d f).files d ≡ f
put_data-same c d f = ap (λ b. if b then f else c.files d) (same d)
  where
    same : (d : ℕ) → (d == d) ≡ true
    same d = ground arith

abbrev pub answers : (fd : ℕ) → Read → List Event
answers fd r = writes fd r.sent ++ writes fd (request_sendfile r.data_after) ++ request_destroy fd

store_read-Stores :
    (fuel max : ℕ) (c : Cache) (fd d e : ℕ) (r : Read)
    → 0 < max
    → c.hashtable (first_slot c r.data_after.file_name) ≡ none
    → HasTail c
    → 2 * r.data_after.file_size ≤ c.cache_size
    → (c' : Cache) × (store_read (suc fuel) max c fd d e (some r) ≡ served c' (answers fd r))
      × Stores (put_data c d r.data_after) d e (first_slot c r.data_after.file_name) c'
unfolding store_read after_check after_insert
store_read-Stores fuel max c fd d e r 0<max empty tail half =
    let c1 : Cache = put_data c d r.data_after in
    let same : c1.files d ≡ r.data_after = put_data-same c d r.data_after in
    let free : c1.hashtable (first_slot c1 (c1.files d).file_name) ≡ none =
      subst (λ f. c1.hashtable (first_slot c1 f.file_name) ≡ none) (sym same) empty in
    let fits : 2 * (c1.files d).file_size ≤ c1.cache_size =
      subst (λ f. 2 * f.file_size ≤ c.cache_size) (sym same) half in
    let (c', is, stores) = cache_insert-Stores fuel c1 d e fits free tail in
    let on : ltb 0 max ≡ true = ground (arith, 0<max) in
    let look = cache_lookup-missing (suc fuel) d c1 false free in
    (
      c',
      rw (on, look, is) refl,
      subst (λ f. Stores c1 d e (first_slot c1 f.file_name) c') same stores,
    )

module _ (disk : List ℕ → Option Stat) (others : Cache → Cache) where
  -- With caching on, a complete request for a name whose first slot is empty, both when the cache is
  -- looked into and when it is looked into again, and a file that `request_readfile` answers for, with or
  -- without success, of at most half the cache's size: the client gets all that `request_readfile`
  -- sends, then the answer of `request_sendfile` for the data as it is then, and the connection is
  -- closed; the data is then in the cache, in the first slot of its name.
  pub do_server_request-Missed :
      (fuel max : ℕ) (lines : List (List ℕ)) (c : Cache) (fd d e : ℕ) (data_of : FileData)
      (r : Read)
      → 0 < max
      → request_init lines ≡ accepted data_of
      → request_readfile disk data_of ≡ some r
      → c.hashtable (first_slot c data_of.file_name) ≡ none
      → (others (put_data c d data_of)).hashtable
          (first_slot (others (put_data c d data_of)) r.data_after.file_name)
        ≡ none
      → HasTail (others (put_data c d data_of))
      → 2 * r.data_after.file_size ≤ (others (put_data c d data_of)).cache_size
      → (c' : Cache) × (do_server_request disk others (suc fuel) max lines c fd d e
          ≡ served c' (answers fd r))
        × Stores
            (put_data (others (put_data c d data_of)) d r.data_after)
            d
            e
            (first_slot (others (put_data c d data_of)) r.data_after.file_name)
            c'
  unfolding do_server_request serve_init after_lookup
  do_server_request-Missed fuel max lines c fd d e data_of r 0<max init reads empty later tail
        half =
      let c1 : Cache = put_data c d data_of in
      let same : c1.files d ≡ data_of = put_data-same c d data_of in
      let free : c1.hashtable (first_slot c1 (c1.files d).file_name) ≡ none =
        subst (λ f. c1.hashtable (first_slot c1 f.file_name) ≡ none) (sym same) empty in
      let on : ltb 0 max ≡ true = ground (arith, 0<max) in
      let look = cache_lookup-missing (suc fuel) d c1 true free in
      let (c', is, stores) =
        store_read-Stores fuel max (others c1) fd d e r 0<max later tail half in
      (c', rw (init, on, look, reads) is, stores)
