-- ===== src/Fs/ReadWrite/Free.antt =====
-- `testfs_free_blocks`. The loops go over `int`s; `e` is `e_block_nr`, and each loop is given by the
-- rounds that are left.
use operating_systems_lab.Base.{
  ℕ, zero, suc, ◌+◌, ◌-◌, ◌/◌, ◌%◌, ◌^◌, true, false, ◌==◌, if◌then◌else◌,
}
use operating_systems_lab.Base.Int.{ℤ, pos, negsuc, minus, above}
use operating_systems_lab.Fs.Bytes.{Buffer, int_at, to_int}
use operating_systems_lab.Fs.State.{M, pure, gets, ◌>>=◌, ◌>>◌, block_size}
use operating_systems_lab.Fs.Inode.{update, change_din}
use operating_systems_lab.Fs.Inode.Alloc.{testfs_free_block_from_inode}
use operating_systems_lab.Fs.ReadWrite.{nr_direct_blocks, nr_indirect_blocks}
use operating_systems_lab.Fs.ReadWrite.Allocate.{is_zero, set_din, read_table}

unfoldable pub free_direct_at : (p i : ℕ) → ℤ → M (Unit {0})
free_direct_at p i nr = if is_zero nr then pure tt else (do
  testfs_free_block_from_inode p nr
  set_din p (λ d. record d { i_block_nr = update d.i_block_nr i (pos 0) }))

unfoldable pub free_direct : (rounds i : ℕ) → (e : ℤ) → (p : ℕ) → M (Unit {0})
unfolding free_direct_at
free_direct zero i e p = pure tt
free_direct (suc n) i e p = elim (above e i) [
  | false ↦ pure tt
  | true ↦ (do
    nr ← gets (λ s. (s.inodes p).din.i_block_nr i)
    free_direct_at p i nr
    free_direct n (i + 1) e p)
]

-- The entries of a table from `i` on; `e` is the bound for the count that `i` stands for.
unfoldable pub free_entries : (rounds i count : ℕ) → (e : ℤ) → (table : Buffer) → (p : ℕ) → M ℕ
free_entries zero i count e table p = pure count
free_entries (suc n) i count e table p = elim (above e count) [
  | false ↦ pure count
  | true ↦ (do
    testfs_free_block_from_inode p (int_at table i)
    free_entries n (i + 1) (count + 1) e table p)
]

unfoldable pub free_indirect : (e : ℤ) → (p : ℕ) → (i_indirect : ℤ) → M (Unit {0})
unfolding free_entries
free_indirect e p (negsuc k) = pure tt
free_indirect e p (pos n) = if n == 0 then pure tt else (do
  table ← read_table (pos n)
  count ← free_entries nr_indirect_blocks 0 0 e table p
  testfs_free_block_from_inode p (pos n)
  set_din p (λ d. record d { i_indirect = pos 0 }))

-- A second table: its entries while the counter is below the bound, and itself.
unfoldable pub free_second : (counter : ℕ) → (e : ℤ) → (p : ℕ) → (entry : ℤ) → M ℕ
unfolding free_entries
free_second counter e p (negsuc k) = pure (counter + nr_indirect_blocks)
free_second counter e p (pos n) = if n == 0 then pure (counter + nr_indirect_blocks) else (do
  table ← read_table (pos n)
  count ← free_entries nr_indirect_blocks 0 counter e table p
  testfs_free_block_from_inode p (pos n)
  pure count)

unfoldable pub free_seconds :
    (rounds i counter : ℕ) → (e : ℤ) → (table : Buffer) → (p : ℕ) → M (Unit {0})
unfolding free_second
free_seconds zero i counter e table p = pure tt
free_seconds (suc n) i counter e table p = elim (above e counter) [
  | false ↦ pure tt
  | true ↦ (do
    count ← free_second counter e p (int_at table i)
    free_seconds n (i + 1) count e table p)
]

unfoldable pub free_dindirect : (e : ℤ) → (p : ℕ) → M (Unit {0})
unfolding free_seconds
free_dindirect (negsuc k) p = pure tt
free_dindirect (pos e) p = do
  at ← gets (λ s. (s.inodes p).din.i_dindirect)
  table ← read_table at
  free_seconds nr_indirect_blocks 0 0 (pos e) table p
  at ← gets (λ s. (s.inodes p).din.i_dindirect)
  testfs_free_block_from_inode p at
  set_din p (λ d. record d { i_dindirect = pos 0 })

unfoldable pub testfs_free_blocks : (p : ℕ) → M ℤ
unfolding free_direct free_indirect free_dindirect
testfs_free_blocks p = do
  size ← gets (λ s. (s.inodes p).din.i_size)
  let e = to_int ((size + block_size - 1) / block_size % 2 ^ 32)
  free_direct nr_direct_blocks 0 e p
  indirect ← gets (λ s. (s.inodes p).din.i_indirect)
  free_indirect (minus e nr_direct_blocks) p indirect
  free_dindirect (minus (minus e nr_direct_blocks) nr_indirect_blocks) p
  change_din p (λ d. record d { i_size = 0 })
  pure (pos 0)
