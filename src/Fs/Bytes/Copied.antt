-- ===== src/Fs/Bytes/Copied.antt =====
-- A buffer after `memcpy`: the bytes that were copied, and the others.
use operating_systems_lab.Base.{ℕ, ◌+◌, ◌-◌, ◌<◌, ◌≤◌, ◌≡◌, ◌⊎◌, ◌&&◌, true, false, ltb, leb, arith}
use operating_systems_lab.Fs.Bytes.{Buffer, memcpy}

module _ (dst : Buffer) (at : ℕ) (src : Buffer) (start n k : ℕ) where
  pub memcpy_in : at ≤ k → k < at + n → memcpy dst at src start n k ≡ src (start + (k - at))
  memcpy_in l u = let hit : (leb at k && ltb k (at + n)) ≡ true = ground arith in rw hit

  pub memcpy_out : (k < at) ⊎ (at + n ≤ k) → memcpy dst at src start n k ≡ dst k
  memcpy_out out = let miss : (leb at k && ltb k (at + n)) ≡ false = ground arith in rw miss
