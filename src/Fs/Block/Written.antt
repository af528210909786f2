-- ===== src/Fs/Block/Written.antt =====
-- The device after blocks are written: those blocks, and the others.
use operating_systems_lab.Base.{
  ℕ, ◌+◌, ◌-◌, ◌*◌, ◌≡◌, ltb, leb, ◌==◌, ◌&&◌, false, true, arith, ◌≤◌, ◌<◌, ◌⊎◌,
}
use operating_systems_lab.Fs.Bytes.{Buffer}
use operating_systems_lab.Fs.State.{Device, block_size}
use operating_systems_lab.Fs.Block.{write_device}

module _ (d : Device) (blocks : Buffer) (start : ℕ) where
  pub written_at : (b k : ℕ) → b ≡ start → (write_device d blocks start 1).block b k ≡ blocks k
  written_at b k e =
      let hit : (leb start b && ltb b (start + 1)) ≡ true = ground arith in
      let here : (b - start) * block_size + k ≡ k = omega arith in rw (hit, here)

  pub written_ne :
      (b : ℕ) → (b == start) ≡ false → (write_device d blocks start 1).block b ≡ d.block b
  written_ne b ne = let miss : (leb start b && ltb b (start + 1)) ≡ false = ground arith in rw miss

module _ (d : Device) (blocks : Buffer) (start nr : ℕ) where
  pub written_in :
      (b k : ℕ)
      → start ≤ b
      → b < start + nr
      → (write_device d blocks start nr).block b k ≡ blocks ((b - start) * block_size + k)
  written_in b k l u = let hit : (leb start b && ltb b (start + nr)) ≡ true = ground arith in rw hit

  pub written_out :
      (b : ℕ)
      → (b < start) ⊎ (start + nr ≤ b)
      → (write_device d blocks start nr).block b ≡ d.block b
  written_out b out =
      let miss : (leb start b && ltb b (start + nr)) ≡ false = ground arith in rw miss

  pub written-size : start + nr ≤ (write_device d blocks start nr).size
  written-size = ground arith

  pub size-written : d.size ≤ (write_device d blocks start nr).size
  size-written = ground arith
