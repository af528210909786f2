-- ===== src/Server/Serve/Tests.antt =====
-- A request for a file that the host does not have, on an empty cache.
use operating_systems_lab.Base.{
  ℕ, ◌≡◌, refl, same_name, false, Option, none, some, List, [], ◌∷◌, ◌++◌, arith,
}
use operating_systems_lab.Base.Text.{codes, crlf, contains, strrchr}
use operating_systems_lab.Base.Int.{pos}
use operating_systems_lab.Server.Cache.{FileData, Cache, first_slot}
use operating_systems_lab.Server.Cache.Stored.{Stores, HasTail}
use operating_systems_lab.Server.Request.{
  Sent, Stat, Read, accepted, request_init, init_words, init_get, request_read_headers,
  request_parse_uri, request_readfile, read_found, refuse, request_error, error_body,
}
use operating_systems_lab.Server.Request.Readfile.{Readfile, request_readfile-Readfile}
use operating_systems_lab.Server.Serve.{served, put_data, do_server_request}
use operating_systems_lab.Server.Serve.Missed.{answers, do_server_request-Missed}

abbrev lines : List (List ℕ)
lines = (codes "GET x HTTP/1.0" ++ crlf) ∷ (codes "Host: a" ++ crlf) ∷ crlf ∷ []

abbrev asked : FileData
asked = record { file_name = codes "./x"; file_buf = []; file_size = 0 }

is_asked : request_init lines ≡ accepted asked
unfolding request_init init_words init_get request_read_headers request_parse_uri same_name
is_asked = refl

abbrev no_files : List ℕ → Option Stat
no_files name = none

request_readfile-Readfile_example : Readfile asked none (request_readfile no_files asked)
request_readfile-Readfile_example = request_readfile-Readfile asked no_files

not_found :
    (sent : Sent) × (request_readfile no_files asked
      ≡ some (record { ret = false; data_after = asked; sent = sent }))
unfolding request_readfile read_found refuse request_error error_body contains strrchr same_name
not_found = (_, refl)

abbrev failed : Read
failed = record { ret = false; data_after = asked; sent = not_found.0 }

abbrev empty_cache : Cache
empty_cache = record {
  hashtable = λ k. none;
  cache_size = 10;
  remaining_cache_size = pos 10;
  table_size = 110;
  lru_element = none;
  lru_tail = none;
  elements = λ e. record { file = 0; next = none; pre = none };
  files = λ f. asked;
  frees = [];
}

no_head : HasTail empty_cache
no_head x e = ground (arith, e)

-- The error page is followed by an answer without an error, and the missing file is in the cache.
do_server_request-Missed_example :
    (c' : Cache) × (do_server_request no_files (λ c. c) 4 10 lines empty_cache 7 5 9
      ≡ served c' (answers 7 failed))
    × Stores
        (put_data (put_data empty_cache 5 asked) 5 asked)
        5
        9
        (first_slot (put_data empty_cache 5 asked) asked.file_name)
        c'
do_server_request-Missed_example =
    do_server_request-Missed no_files (λ c. c) 3 10 lines empty_cache 7 5 9 asked failed
      (omega arith) is_asked not_found.1 refl refl no_head (omega arith)
