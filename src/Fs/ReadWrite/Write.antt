-- ===== src/Fs/ReadWrite/Write.antt =====
-- `testfs_write_data`.
use operating_systems_lab.Base.{ℕ, zero, suc, ◌+◌, ◌-◌, ◌*◌, ◌/◌, ◌%◌, ◌^◌, ltb, leb, if◌then◌else◌}
use operating_systems_lab.Base.Int.{ℤ, pos, negsuc, minus, above}
use operating_systems_lab.Fs.Bytes.{Buffer, zeros, memcpy, to_int}
use operating_systems_lab.Fs.State.{M, pure, stop, ◌>>=◌, ◌>>◌, block_size}
use operating_systems_lab.Fs.Block.{write_blocks}
use operating_systems_lab.Fs.Inode.{change_din}
use operating_systems_lab.Fs.ReadWrite.{int_nr}
use operating_systems_lab.Fs.ReadWrite.Read.{leftover, rounds_of}
use operating_systems_lab.Fs.ReadWrite.Allocate.{testfs_allocate_block}

-- What follows an allocation: an error goes to `bad`, and else the block, with `n` bytes of `buf` from
-- `start` on copied to `at`, is written.
unfoldable pub store :
    (buf : Buffer) (start at n : ℕ) → (bad : ℤ → M ℤ) → (k : Buffer → M ℤ) → ℤ × Buffer → M ℤ
store buf start at n bad k (negsuc j, block) = bad (negsuc j)
store buf start at n bad k (pos phy, block) = do
  write_blocks (memcpy block at buf start n) phy 1
  k (memcpy block at buf start n)

-- `in->i_size = MAX(...)` for a size that is not 0, and the dirty flag
unfoldable pub grown : (p start size : ℕ) → M ℤ
grown p start size = do
  change_din p (λ d. record d {
    i_size =
        if ltb 0 size
        then if leb (start + size) d.i_size then d.i_size else start + size
        else d.i_size;
  })
  pure (to_int (size % 2 ^ 32))

-- The size that the inode gets where the last block cannot be allocated.
abbrev pub magic_size : ℕ
magic_size = 34376597504

unfoldable pub give_up : (p : ℕ) → ℤ → M ℤ
give_up p ret = do change_din p (λ d. record d { i_size = magic_size }); pure ret

unfoldable pub write_last :
    (p nr ix start size increment : ℕ) → (leftover_size : ℤ) → (buf block : Buffer) → M ℤ
unfolding testfs_allocate_block store grown give_up
write_last p nr ix start size increment (negsuc j) buf block = stop
write_last p nr ix start size increment (pos left) buf block =
    int_nr (nr + increment) (λ n. testfs_allocate_block p n block)
    >>= store buf (block_size * increment - ix) 0 left (give_up p) (λ block. grown p start size)

-- The loop over whole blocks, by the rounds left
unfoldable pub write_loop :
    (rounds p nr ix start size increment : ℕ) → (leftover_size : ℤ) → (buf block : Buffer) → M ℤ
unfolding write_last
write_loop zero p nr ix start size increment left buf block =
    write_last p nr ix start size increment left buf block
write_loop (suc rounds) p nr ix start size increment left buf block =
    if above left block_size
    then int_nr (nr + increment) (λ n. testfs_allocate_block p n block)
      >>= store buf (block_size * increment - ix) 0 block_size pure (λ block.
        write_loop rounds p nr ix start size (increment + 1) (minus left block_size) buf block)
    else write_last p nr ix start size increment left buf block

unfoldable pub write_blocks_of : (p nr ix start size : ℕ) → (buf : Buffer) → M ℤ
unfolding write_loop testfs_allocate_block store grown
write_blocks_of p nr ix start size buf =
    if ltb block_size ((ix + size) % 2 ^ 64)
    then int_nr nr (λ n. testfs_allocate_block p n zeros)
      >>= store buf 0 ix (block_size - ix) pure (λ block.
        write_loop (rounds_of (leftover size ix)) p nr ix start size 1 (leftover size ix) buf block)
    else int_nr nr (λ n. testfs_allocate_block p n zeros)
      >>= store buf 0 ix size pure (λ block. grown p start size)

unfoldable pub testfs_write_data : (p : ℕ) → (buf : Buffer) → (start size : ℕ) → M ℤ
unfolding write_blocks_of
testfs_write_data p buf start size =
    write_blocks_of p (start / block_size) (start % block_size) start size buf
