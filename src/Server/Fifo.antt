-- ===== src/Server/Fifo.antt =====
-- The request buffer is a queue that holds at most `max_requests` requests.
use operating_systems_lab.Base.{
  ℕ, ◌+◌, ◌%◌, ◌<◌, ◌≤◌, ◌≡◌, refl, sym, subst, ap, ◌∙◌, Bool, true, false, List, [], ◌∷◌, ◌++◌,
  length, length-append, ◌==◌, ==_iff, if◌then◌else◌, inl, inr, Bool-cases, arith,
}
use operating_systems_lab.Server.Buffer.{
  Server, Stored, waits_full, stored, Fetched, waits_empty, fetched, used, is_full, is_empty,
  put_at, take_at, server_request, stub, server_init,
}
use operating_systems_lab.Server.Ring.{
  distance, mod-step, mod-distance, step_lt, Stores, Stores-snoc,
}

-- The buffer holds the requests `xs`, the oldest first.
pub record Holds (sv : Server) (xs : List ℕ) : Type 0 where
  pub in_range : sv.in_at < sv.max_requests + 1
  pub out_range : sv.out_at < sv.max_requests + 1
  pub size : length xs ≡ distance (sv.max_requests + 1) sv.out_at sv.in_at
  pub slots : Stores (sv.max_requests + 1) sv.buffer sv.out_at xs sv.in_at

-- The buffer of a new server is empty.
pub server_init-Holds : (max : ℕ) (buffer : ℕ → ℕ) → Holds (server_init max buffer) []
unfolding server_init
server_init-Holds max buffer = record {
  in_range = omega arith;
  out_range = omega arith;
  size = ground arith;
  slots = refl;
}

module _ {sv : Server} {xs : List ℕ} (h : Holds sv xs) where
  pub used-length : used sv ≡ length xs
  used-length =
      subst (λ m. m % (sv.max_requests + 1) ≡ length xs) (omega arith)
        (mod-distance (sv.max_requests + 1) sv.out_at sv.in_at h.out_range h.in_range ∙ sym h.size)

  pub length-bound : length xs ≤ sv.max_requests
  length-bound = ground (arith, h.size, h.in_range, h.out_range)

put_at-Holds :
    {sv : Server} {xs : List ℕ} (connfd : ℕ)
    → Holds sv xs
    → length xs < sv.max_requests
    → Holds (put_at sv connfd) (xs ++ connfd ∷ [])
put_at-Holds {sv} {xs} connfd h room =
    let n = sv.max_requests + 1 in
    let buffer : ℕ → ℕ = λ i. if sv.in_at == i then connfd else sv.buffer i in
    subst (λ p. Holds (record sv { buffer = buffer; in_at = p }) (xs ++ connfd ∷ []))
      (sym (mod-step n sv.in_at h.in_range))
      (record {
        in_range = step_lt n sv.in_at h.in_range;
        out_range = h.out_range;
        size = ground (arith, length-append xs (connfd ∷ []), h.size, h.in_range, h.out_range);
        slots =
            Stores-snoc n sv.buffer sv.out_at xs sv.in_at connfd h.out_range h.in_range h.size
              h.slots;
      })

-- What a pass of `server_request` promises.
abbrev pub Puts : List ℕ → (max connfd : ℕ) → Stored → Type 0
Puts xs max connfd waits_full = length xs ≡ max
Puts xs max connfd (stored signals sv) =
    (length xs < max)
    × (signals ≡ (length xs == 0))
    × (sv.max_requests ≡ max)
    × Holds sv (xs ++ connfd ∷ [])

-- A pass of `server_request` waits if the buffer holds `max_requests` requests; otherwise it puts
-- the new one behind them, and signals `buffer_empty` exactly if there were none.
pub server_request-Puts :
    {sv : Server} {xs : List ℕ} (connfd : ℕ)
    → Holds sv xs
    → Puts xs sv.max_requests connfd (server_request connfd sv)
unfolding server_request
server_request-Puts {sv} {xs} connfd h =
    let max = sv.max_requests in
    let pass : Bool → Type 0 =
      λ b. Puts xs max connfd (if b then waits_full else stored (is_empty sv) (put_at sv connfd)) in
    let test : is_full sv ≡ (length xs == max) = ap (λ m. m == max) (used-length h) in
    elim (Bool-cases (length xs == max)) [
      | inl e ↦ subst pass (sym (test ∙ e)) ((==_iff (length xs) max).0 e)
      | inr e ↦ subst pass (sym (test ∙ e)) (
        ground (arith, length-bound h),
        ground (arith, h.size, h.in_range, h.out_range),
        refl,
        put_at-Holds connfd h (ground (arith, length-bound h)),
      )
    ]

take_at-Holds :
    {sv : Server} {x : ℕ} {rest : List ℕ} → Holds sv (x ∷ rest) → Holds (take_at sv) rest
take_at-Holds {sv} {x} {rest} h =
    subst (λ p. Holds (record sv { out_at = p }) rest)
      (sym (mod-step (sv.max_requests + 1) sv.out_at h.out_range))
      (record {
        in_range = h.in_range;
        out_range = step_lt (sv.max_requests + 1) sv.out_at h.out_range;
        size = ground (arith, h.size, h.in_range, h.out_range);
        slots = h.slots.1;
      })

-- What a pass of `stub` promises.
abbrev pub Takes : List ℕ → (max : ℕ) → Fetched → Type 0
Takes xs max waits_empty = xs ≡ []
Takes xs max (fetched connfd signals sv) =
    (rest : List ℕ) × (xs ≡ connfd ∷ rest)
    × (signals ≡ (length xs == max))
    × (sv.max_requests ≡ max)
    × Holds sv rest

-- A pass of a worker waits if the buffer holds no request; otherwise it takes the oldest one, and
-- signals `buffer_full` exactly if the buffer was full.
pub stub-Takes : {sv : Server} (xs : List ℕ) → Holds sv xs → Takes xs sv.max_requests (stub sv)
unfolding stub
stub-Takes {sv} [] h =
    let none : is_empty sv ≡ true = ground (arith, h.size, h.in_range, h.out_range) in
    let pass : Bool → Type 0 = λ b.
      Takes [] sv.max_requests
        (if b then waits_empty else fetched (sv.buffer sv.out_at) (is_full sv) (take_at sv)) in
    subst pass (sym none) refl
stub-Takes {sv} (x ∷ rest) h =
    let some_waits : is_empty sv ≡ false = ground (arith, h.size, h.in_range, h.out_range) in
    let pass : Bool → Type 0 = λ b.
      Takes (x ∷ rest) sv.max_requests
        (if b then waits_empty else fetched (sv.buffer sv.out_at) (is_full sv) (take_at sv)) in
    subst pass (sym some_waits) (
      rest,
      ap (λ y. y ∷ rest) (sym h.slots.0),
      ap (λ m. m == sv.max_requests) (used-length h),
      refl,
      take_at-Holds h,
    )
