-- ===== src/Fs/ReadWrite/Read.antt =====
-- `testfs_read_data`. The buffer that it fills is a parameter and part of the result.
use operating_systems_lab.Base.{
  ℕ, zero, suc, ◌+◌, ◌-◌, ◌*◌, ◌/◌, ◌%◌, ◌^◌, ltb, if◌then◌else◌, Bool, Option, some, none,
}
use operating_systems_lab.Base.Int.{ℤ, pos, negsuc, minus, above}
use operating_systems_lab.Fs.Bytes.{Buffer, zeros, memcpy, to_int}
use operating_systems_lab.Fs.State.{M, pure, stop, ◌>>=◌, block_size}
use operating_systems_lab.Fs.ReadWrite.{int_nr, testfs_read_block}

-- What follows a read of a block, unless its number is negative.
unfoldable pub unless_negative :
    (buf : Buffer) → (k : Buffer → M (ℤ × Buffer)) → ℤ × Buffer → M (ℤ × Buffer)
unless_negative buf k (negsuc j, block) = pure (negsuc j, buf)
unless_negative buf k (pos n, block) = k block

-- The last block, of which `leftover_size` bytes are copied; a negative size is no size.
unfoldable pub read_last :
    (p nr ix size increment : ℕ) → (leftover_size : ℤ) → (buf block : Buffer) → M (ℤ × Buffer)
unfolding testfs_read_block unless_negative
read_last p nr ix size increment (negsuc j) buf block = stop
read_last p nr ix size increment (pos left) buf block =
    int_nr (nr + increment) (λ n. testfs_read_block p n block)
    >>= unless_negative buf (λ block.
      pure (to_int (size % 2 ^ 32), memcpy buf (block_size * increment - ix) block 0 left))

-- The loop over whole blocks, by the rounds left
unfoldable pub read_loop :
    (rounds p nr ix size increment : ℕ)
    → (leftover_size : ℤ) → (buf block : Buffer) → M (ℤ × Buffer)
unfolding read_last
read_loop zero p nr ix size increment left buf block =
    read_last p nr ix size increment left buf block
read_loop (suc rounds) p nr ix size increment left buf block =
    if above left block_size
    then int_nr (nr + increment) (λ n. testfs_read_block p n block)
      >>= unless_negative buf (λ block.
        read_loop rounds p nr ix size (increment + 1) (minus left block_size)
          (memcpy buf (block_size * increment - ix) block 0 block_size) block)
    else read_last p nr ix size increment left buf block

-- How many rounds the loop can take.
abbrev pub rounds_of : ℤ → ℕ
rounds_of (pos n) = n / block_size
rounds_of (negsuc k) = 0

-- `int leftover_size = size - BLOCK_SIZE + block_ix`, in 64 bits and cut down
abbrev pub leftover : (size ix : ℕ) → ℤ
leftover size ix = to_int ((size + ix + (2 ^ 64 - block_size)) % 2 ^ 64 % 2 ^ 32)

unfoldable pub read_blocks_of : (p nr ix size : ℕ) → (buf : Buffer) → M (ℤ × Buffer)
unfolding read_loop testfs_read_block unless_negative
read_blocks_of p nr ix size buf =
    if ltb block_size ((ix + size) % 2 ^ 64)
    then int_nr nr (λ n. testfs_read_block p n zeros)
      >>= unless_negative buf (λ block.
        read_loop (rounds_of (leftover size ix)) p nr ix size 1 (leftover size ix)
          (memcpy buf 0 block ix (block_size - ix)) block)
    else int_nr nr (λ n. testfs_read_block p n zeros)
      >>= unless_negative buf (λ block. pure (to_int (size % 2 ^ 32), memcpy buf 0 block ix size))

-- `offset + (off_t)size > file_size`. The size turns negative from 2^63 on; a sum that does not fit is
-- undefined.
unfoldable pub past_end : (offset size file_size : ℕ) → Option Bool
past_end offset size file_size =
    if ltb size (2 ^ 63)
    then (if ltb (offset + size) (2 ^ 63) then some (ltb file_size (offset + size)) else none)
    else some (ltb (file_size + (2 ^ 64 - size)) offset)

-- Past the end of the file the size is what is left, which wraps round if `start` lies behind it.
unfoldable pub read_part :
    (p : ℕ) → (buf : Buffer) → (start size i_size : ℕ) → Option Bool → M (ℤ × Buffer)
unfolding read_blocks_of
read_part p buf start size i_size none = stop
read_part p buf start size i_size (some past) =
    read_blocks_of p (start / block_size) (start % block_size)
      (if past then (i_size + 2 ^ 64 - start) % 2 ^ 64 else size) buf

unfoldable pub testfs_read_data : (p : ℕ) → (buf : Buffer) → (start size : ℕ) → M (ℤ × Buffer)
unfolding read_part past_end
testfs_read_data p buf start size s =
    let i_size = (s.inodes p).din.i_size in
    read_part p buf start size i_size (past_end start size i_size) s
