-- ===== src/Server/Buffer.antt =====
-- The request buffer of webserver/server_thread.c: `in`, `out` and the array of `max_requests + 1`
-- slots, as `server_request` and `stub` use them under `buffer_lock`. Each call below is one pass of
-- the loop around `pthread_cond_wait`, and tells whether it waits and which condition it signals.
use operating_systems_lab.Base.{ℕ, ◌+◌, ◌-◌, ◌%◌, Bool, ◌==◌, if◌then◌else◌}

-- The fields of `struct server` that the buffer uses.
pub record Server : Type 0 where
  pub max_requests : ℕ
  pub buffer : ℕ → ℕ
  pub in_at : ℕ
  pub out_at : ℕ

-- The fields as `server_init` sets them where it makes a buffer; `buffer` is what `malloc` gives.
unfoldable pub server_init : (max_requests : ℕ) → (buffer : ℕ → ℕ) → Server
server_init max_requests buffer = record {
  max_requests = max_requests;
  buffer = buffer;
  in_at = 0;
  out_at = 0;
}

-- `(sv->in - sv->out + sv->max_requests + 1)%(sv->max_requests + 1)`; the sum is not negative.
abbrev pub used : Server → ℕ
used sv = (sv.in_at + sv.max_requests + 1 - sv.out_at) % (sv.max_requests + 1)

abbrev pub is_full : Server → Bool
is_full sv = used sv == sv.max_requests

abbrev pub is_empty : Server → Bool
is_empty sv = sv.in_at == sv.out_at

-- A pass of `server_request`: it waits for `buffer_full`, or stores and signals `buffer_empty` or not.
pub data Stored : Type 0 where
  waits_full : Stored
  stored : (signals : Bool) → Server → Stored

abbrev pub put_at : Server → (connfd : ℕ) → Server
put_at sv connfd = record sv {
  buffer = λ i. if sv.in_at == i then connfd else sv.buffer i;
  in_at = (sv.in_at + 1) % (sv.max_requests + 1);
}

unfoldable pub server_request : (connfd : ℕ) → Server → Stored
server_request connfd sv =
    if is_full sv then waits_full else stored (is_empty sv) (put_at sv connfd)

-- A pass of the loop of `stub` up to the request: it waits for `buffer_empty`, or takes a request
-- and signals `buffer_full` or not.
pub data Fetched : Type 0 where
  waits_empty : Fetched
  fetched : (connfd : ℕ) → (signals : Bool) → Server → Fetched

abbrev pub take_at : Server → Server
take_at sv = record sv { out_at = (sv.out_at + 1) % (sv.max_requests + 1) }

unfoldable pub stub : Server → Fetched
stub sv =
    if is_empty sv then waits_empty else fetched (sv.buffer sv.out_at) (is_full sv) (take_at sv)
