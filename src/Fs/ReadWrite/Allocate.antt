-- ===== src/Fs/ReadWrite/Allocate.antt =====
-- `testfs_allocate_block`: the physical block of a logical number, new where there is none, with the
-- tables on the way. The tests of a new number are clauses: a negative one is an error.
use operating_systems_lab.Base.{
  ℕ, ◌-◌, ◌*◌, ◌/◌, ◌%◌, Bool, true, false, ltb, leb, ◌==◌, if◌then◌else◌, efbig,
}
use operating_systems_lab.Base.Int.{ℤ, pos, negsuc}
use operating_systems_lab.Fs.Bytes.{Buffer, zeros, int_at, put_int}
use operating_systems_lab.Fs.State.{Dinode, M, pure, stop, gets, assert, ◌>>=◌, ◌>>◌, code}
use operating_systems_lab.Fs.Block.{write_blocks, read_blocks}
use operating_systems_lab.Fs.Inode.{update, change}
use operating_systems_lab.Fs.Inode.Alloc.{
  testfs_alloc_block_for_inode, testfs_free_block_from_inode,
}
use operating_systems_lab.Fs.ReadWrite.{nr_direct_blocks, nr_indirect_blocks, testfs_read_block}

abbrev pub is_zero : ℤ → Bool
is_zero (pos n) = n == 0
is_zero (negsuc k) = false

-- `in->in.x = phy_block_nr`, which does not set the dirty flag; that is set by the allocation.
abbrev pub set_din : (p : ℕ) → (Dinode → Dinode) → M (Unit {0})
set_din p f = change p (λ n. record n { din = f n.din })

-- The table in a block that an inode or a table names.
abbrev pub read_table : ℤ → M Buffer
read_table (negsuc k) = stop
read_table (pos n) = read_blocks n 1

abbrev pub write_table : Buffer → ℤ → M (Unit {0})
write_table table (negsuc k) = stop
write_table table (pos n) = write_blocks table n 1

unfoldable pub set_direct : (p n : ℕ) → ℤ → M ℤ
set_direct p n (negsuc k) = pure (negsuc k)
set_direct p n (pos phy) = do
  set_din p (λ d. record d { i_block_nr = update d.i_block_nr n (pos phy) })
  pure (pos phy)

unfoldable pub allocate_direct : (p n : ℕ) → M ℤ
unfolding set_direct
allocate_direct p n = do
  old ← gets (λ s. (s.inodes p).din.i_block_nr n)
  assert (is_zero old)
  phy ← testfs_alloc_block_for_inode p
  set_direct p n phy

-- The entry `i` of the indirect block, or that block is given up if it was new.
unfoldable pub set_indirect :
    (p i : ℕ) → (indirect : Buffer) → (indirect_allocated : Bool) → ℤ → M ℤ
set_indirect p i indirect allocated (pos phy) = do
  at ← gets (λ s. (s.inodes p).din.i_indirect)
  write_table (put_int indirect i (pos phy)) at
  pure (pos phy)
set_indirect p i indirect false (negsuc k) = pure (negsuc k)
set_indirect p i indirect true (negsuc k) = do
  at ← gets (λ s. (s.inodes p).din.i_indirect)
  testfs_free_block_from_inode p at
  set_din p (λ d. record d { i_indirect = pos 0 })
  pure (negsuc k)

unfoldable pub allocate_entry : (p i : ℕ) → (indirect : Buffer) → (indirect_allocated : Bool) → M ℤ
unfolding set_indirect
allocate_entry p i indirect allocated = do
  assert (is_zero (int_at indirect i))
  phy ← testfs_alloc_block_for_inode p
  set_indirect p i indirect allocated phy

unfoldable pub new_indirect : (p i : ℕ) → ℤ → M ℤ
unfolding allocate_entry
new_indirect p i (negsuc k) = pure (negsuc k)
new_indirect p i (pos phy) = do
  set_din p (λ d. record d { i_indirect = pos phy })
  allocate_entry p i zeros true

unfoldable pub allocate_indirect : (p i : ℕ) → M ℤ
unfolding new_indirect allocate_entry
allocate_indirect p i s =
    let at = (s.inodes p).din.i_indirect in
    if is_zero at
    then (testfs_alloc_block_for_inode p >>= new_indirect p i) s
    else (do table ← read_table at; allocate_entry p i table false) s

-- The last step over two tables, the first as it is in memory: the entry `i` of the second, which is
-- given up if it was new, and the first with it if that was new. Neither the inode nor the first table
-- on the device forgets a block that is given up.
unfoldable pub set_second :
    (p i : ℕ) → (first second : Buffer) → (first_new second_new : Bool) → ℤ → M ℤ
set_second p i first second first_new second_new (pos phy) = do
  write_table (put_int second (i % nr_indirect_blocks) (pos phy))
      (int_at first (i / nr_indirect_blocks))
  pure (pos phy)
set_second p i first second true second_new (negsuc k) = do
  testfs_free_block_from_inode p (int_at first (i / nr_indirect_blocks))
  at ← gets (λ s. (s.inodes p).din.i_dindirect)
  testfs_free_block_from_inode p at
  pure (negsuc k)
set_second p i first second false true (negsuc k) = do
  testfs_free_block_from_inode p (int_at first (i / nr_indirect_blocks))
  pure (negsuc k)
set_second p i first second false false (negsuc k) = pure (negsuc k)

unfoldable pub new_second : (p i : ℕ) → (first : Buffer) → (first_new : Bool) → ℤ → M ℤ
unfolding set_second
new_second p i first true (negsuc k) = do
  at ← gets (λ s. (s.inodes p).din.i_dindirect)
  testfs_free_block_from_inode p at
  pure (negsuc k)
new_second p i first false (negsuc k) = pure (negsuc k)
new_second p i first first_new (pos phy) = do
  let table = put_int first (i / nr_indirect_blocks) (pos phy)
  at ← gets (λ s. (s.inodes p).din.i_dindirect)
  write_table table at
  leaf ← testfs_alloc_block_for_inode p
  set_second p i table zeros first_new true leaf

unfoldable pub allocate_second : (p i : ℕ) → (first : Buffer) → (first_new : Bool) → M ℤ
unfolding new_second set_second
allocate_second p i first first_new =
    if is_zero (int_at first (i / nr_indirect_blocks))
    then testfs_alloc_block_for_inode p >>= new_second p i first first_new
    else (do
      second ← read_table (int_at first (i / nr_indirect_blocks))
      leaf ← testfs_alloc_block_for_inode p
      set_second p i first second first_new false leaf)

unfoldable pub new_dindirect : (p i : ℕ) → ℤ → M ℤ
unfolding allocate_second
new_dindirect p i (negsuc k) = pure (negsuc k)
new_dindirect p i (pos phy) = do
  set_din p (λ d. record d { i_dindirect = pos phy })
  allocate_second p i zeros true

unfoldable pub allocate_dindirect : (p i : ℕ) → M ℤ
unfolding new_dindirect allocate_second
allocate_dindirect p i s =
    let at = (s.inodes p).din.i_dindirect in
    if leb (nr_indirect_blocks * nr_indirect_blocks) i
    then pure (code efbig) s
    else if is_zero at
    then (testfs_alloc_block_for_inode p >>= new_dindirect p i) s
    else (do table ← read_table at; allocate_second p i table false) s

unfoldable pub allocate_missing : (p n : ℕ) → M ℤ
unfolding allocate_direct allocate_indirect allocate_dindirect
allocate_missing p n =
    if ltb n nr_direct_blocks
    then allocate_direct p n
    else if leb nr_indirect_blocks (n - nr_direct_blocks)
    then allocate_dindirect p (n - nr_direct_blocks - nr_indirect_blocks)
    else allocate_indirect p (n - nr_direct_blocks)

unfoldable pub testfs_allocate_block : (p log_block_nr : ℕ) → (block : Buffer) → M (ℤ × Buffer)
unfolding testfs_read_block allocate_missing
testfs_allocate_block p n block = do
  found ← testfs_read_block p n block
  if is_zero found.0 then (do phy ← allocate_missing p n; pure (phy, found.1)) else pure found
