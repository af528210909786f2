-- ===== src/Server/Serve.antt =====
-- `do_server_request` of webserver/server_thread.c: a request from its connection to the cache. `d` is the
-- address of its data and `e` that of an element. `others` is what other threads do with the cache
-- while this one does not hold `table_lock`; the data is this thread's.
pub mod Missed
mod Tests
use operating_systems_lab.Base.{
  ℕ, ◌+◌, Bool, true, false, ◌||◌, Option, none, some, List, [], ◌∷◌, ◌++◌, ltb, ◌==◌,
  if◌then◌else◌, map,
}
use operating_systems_lab.Server.Cache.{FileData, Freed, Cache, update}
use operating_systems_lab.Server.Cache.Probe.{Found, hit, missing, cache_lookup}
use operating_systems_lab.Server.Cache.Insert.{Inserted, refused, inserted, cache_insert}
use operating_systems_lab.Server.Request.{
  Sent, Init, accepted, Stat, Read, request_init, request_readfile, request_sendfile,
}

-- What happens on the connection
pub data Event : Type 0 where
  wrote : (fd : ℕ) → List ℕ → Event
  closed : (fd : ℕ) → Event

abbrev pub writes : (fd : ℕ) → Sent → List Event
writes fd [] = []
writes fd (s ∷ sent) = wrote fd s ∷ writes fd sent

-- `endless` and `broken` are as in the cache, and for a request that is not complete.
pub data Served : Type 0 where
  served : Cache → List Event → Served
  endless : Served
  broken : Served

-- `request_destroy`
abbrev pub request_destroy : (fd : ℕ) → List Event
request_destroy fd = closed fd ∷ []

abbrev pub file_data_free : Cache → (d : ℕ) → Cache
file_data_free c d = record c { frees = Freed.file_data d ∷ c.frees }

abbrev pub put_data : Cache → (d : ℕ) → FileData → Cache
put_data c d data_of = record c { files = update c.files d data_of }

-- Was the memory of a file's data given back?
abbrev pub is_freed : (f : ℕ) → List Freed → Bool
is_freed f [] = false
is_freed f (Freed.file_data g ∷ frees) = (f == g) || is_freed f frees
is_freed f (Freed.element g ∷ frees) = is_freed f frees

-- A hit: the file is sent without the lock; if another thread has freed it, that is undefined.
unfoldable pub send_hit : (fd : ℕ) → (e : ℕ) → Cache → Served
send_hit fd e c =
    let f = (c.elements e).file in
    if is_freed f c.frees
    then broken
    else served c (writes fd (request_sendfile (c.files f)) ++ request_destroy fd)

unfoldable pub after_insert : Inserted → Cache → List Event → Served
after_insert refused c events = served c events
after_insert (inserted e c1) c events = served c1 events
after_insert Inserted.endless c events = endless
after_insert Inserted.broken c events = broken

unfoldable pub after_check : (fuel : ℕ) → Found → Cache → (d e : ℕ) → List Event → Served
unfolding after_insert
after_check fuel (hit f c1) c d e events = served c1 events
after_check fuel missing c d e events = after_insert (cache_insert fuel c d e) c events
after_check fuel Found.endless c d e events = endless
after_check fuel Found.broken c d e events = broken

-- Behind `request_readfile`, whose result is not tested.
unfoldable pub store_read : (fuel max_cache_size : ℕ) → Cache → (fd d e : ℕ) → Option Read → Served
unfolding after_check
store_read fuel max c fd d e none = broken
store_read fuel max c fd d e (some r) =
    let c1 = put_data c d r.data_after in
    let events =
      writes fd r.sent ++ writes fd (request_sendfile r.data_after) ++ request_destroy fd in
    if ltb 0 max
    then after_check fuel (cache_lookup fuel c1 d false) c1 d e events
    else served c1 events

module _ (disk : List ℕ → Option Stat) (others : Cache → Cache) where
  -- With the result of the first look into the cache; `c` is the cache before it.
  unfoldable pub after_lookup :
      (fuel max_cache_size : ℕ) → Found → Cache → FileData → (fd d e : ℕ) → Served
  unfolding send_hit store_read
  after_lookup fuel max (hit f c1) c data_of fd d e = send_hit fd f (others c1)
  after_lookup fuel max missing c data_of fd d e =
      store_read fuel max (others c) fd d e (request_readfile disk data_of)
  after_lookup fuel max Found.endless c data_of fd d e = endless
  after_lookup fuel max Found.broken c data_of fd d e = broken

  unfoldable pub serve_init : (fuel max_cache_size : ℕ) → Init → Cache → (fd d e : ℕ) → Served
  unfolding after_lookup
  serve_init fuel max (Init.refused sent) c fd d e =
      served (file_data_free c d) (writes fd sent ++ request_destroy fd)
  serve_init fuel max (accepted data_of) c fd d e =
      let c1 = put_data c d data_of in
      after_lookup fuel max (if ltb 0 max then cache_lookup fuel c1 d true else missing) c1 data_of
        fd d e
  serve_init fuel max Init.undefined c fd d e = broken
  serve_init fuel max Init.endless c fd d e = endless

  unfoldable pub do_server_request :
      (fuel max_cache_size : ℕ) → (lines : List (List ℕ)) → Cache → (fd d e : ℕ) → Served
  unfolding serve_init
  do_server_request fuel max lines c fd d e = serve_init fuel max (request_init lines) c fd d e
