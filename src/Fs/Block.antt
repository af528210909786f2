-- ===== src/Fs/Block.antt =====
-- fs/block.c. Writing past the end of the file makes it longer; reading past it ends the process.
pub mod Written
use operating_systems_lab.Base.{
  ℕ, zero, suc, ◌+◌, ◌-◌, ◌*◌, ◌/◌, ◌%◌, ◌&&◌, ltb, leb, if◌then◌else◌, none, some,
}
use operating_systems_lab.Fs.Bytes.{Buffer, zeros, from}
use operating_systems_lab.Fs.State.{Device, M, ◌>>◌, pure, block_size}

abbrev pub write_device : Device → Buffer → (start nr : ℕ) → Device
write_device d blocks start nr = record {
  block = λ b.
      if leb start b && ltb b (start + nr)
      then from blocks ((b - start) * block_size)
      else d.block b;
  size = if ltb d.size (start + nr) then start + nr else d.size;
}

abbrev pub write_blocks : Buffer → (start nr : ℕ) → M (Unit {0})
write_blocks blocks start nr s = some (tt, record s { dev = write_device s.dev blocks start nr })

-- The loop of `zero_blocks`, by the rounds left
unfoldable pub zero_loop : (rounds start : ℕ) → M (Unit {0})
zero_loop zero start = pure tt
zero_loop (suc n) start = do write_blocks zeros start 1; zero_loop n (start + 1)

abbrev pub zero_blocks : (start nr : ℕ) → M (Unit {0})
zero_blocks start nr = zero_loop nr start

abbrev pub read_blocks : (start nr : ℕ) → M Buffer
read_blocks start nr s =
    if leb (start + nr) s.dev.size
    then some ((λ k. s.dev.block (start + k / block_size) (k % block_size)), s)
    else none
