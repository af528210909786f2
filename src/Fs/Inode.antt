-- ===== src/Fs/Inode.antt =====
-- fs/inode.c: the inodes in memory, by address, and their slots on the device, 128 of 64 bytes to a
-- block. The hash and the chains of fs/list.h are parameters.
pub mod Alloc
pub mod Reload
pub mod Slot
pub mod Create
use operating_systems_lab.Base.{
  ℕ, ◌+◌, ◌-◌, ◌*◌, ◌/◌, ◌%◌, ◌^◌, Bool, true, false, not, Option, none, some, List, [], ◌∷◌, ltb,
  leb, ◌==◌, if◌then◌else◌,
}
use operating_systems_lab.Base.Int.{ℤ, pos, negsuc, plus, minus, is_zero}
use operating_systems_lab.Fs.Bytes.{Buffer, memcpy, from, of_words, word_at, int_at, of_int}
use operating_systems_lab.Fs.State.{
  Dinode, Inode, Fs, M, pure, stop, gets, modify, assert, ◌>>=◌, ◌>>◌, block_size, nr_inode_blocks,
}
use operating_systems_lab.Fs.Block.{write_blocks, read_blocks}

-- `I_NONE`, `I_FILE` and `I_DIR`
abbrev pub i_none : ℤ
i_none = pos 0

abbrev pub i_file : ℤ
i_file = pos 1

abbrev pub i_dir : ℤ
i_dir = pos 2

-- `sizeof(struct dinode)` and `INODES_PER_BLOCK`
abbrev pub dinode_size : ℕ
dinode_size = 64

abbrev pub inodes_per_block : ℕ
inodes_per_block = 128

-- The words of `struct dinode`, with `i_size` in two, and the structure they make.
abbrev pub dinode_words : Dinode → ℕ → ℕ
dinode_words d j =
    if j == 0
    then of_int d.i_type
    else if ltb j 11
    then of_int (d.i_block_nr (j - 1))
    else if j == 11
    then of_int d.i_indirect
    else if j == 12
    then of_int d.i_dindirect
    else if j == 13
    then of_int d.block_count
    else if j == 14
    then d.i_size % 2 ^ 32
    else d.i_size / 2 ^ 32

abbrev pub dinode_of : Buffer → Dinode
dinode_of b = record {
  i_type = int_at b 0;
  i_block_nr = λ j. int_at b (j + 1);
  i_indirect = int_at b 11;
  i_dindirect = int_at b 12;
  block_count = int_at b 13;
  i_size = word_at b 14 + 2 ^ 32 * word_at b 15;
}

abbrev pub empty_dinode : Dinode
empty_dinode = record {
  i_type = i_none;
  i_block_nr = λ j. pos 0;
  i_indirect = pos 0;
  i_dindirect = pos 0;
  block_count = pos 0;
  i_size = 0;
}

abbrev pub update {ℓ} : {A : Type ℓ} → (ℕ → A) → ℕ → A → ℕ → A
update f i v j = if i == j then v else f j

abbrev pub put_inode : (p : ℕ) → Inode → Fs → Fs
put_inode p in_mem s = record s { inodes = update s.inodes p in_mem }

abbrev pub change : (p : ℕ) → (Inode → Inode) → M (Unit {0})
change p f = modify (λ s. put_inode p (f (s.inodes p)) s)

-- `in->in` changed, with the dirty flag set
abbrev pub change_din : (p : ℕ) → (Dinode → Dinode) → M (Unit {0})
change_din p f = change p (λ n. record n { din = f n.din; dirty = true })

-- The block of the slot, from the start of the inode blocks, and the offset in it.
abbrev pub testfs_inode_to_block_nr : ℕ → ℕ
testfs_inode_to_block_nr i_nr = i_nr / inodes_per_block

abbrev pub testfs_inode_to_block_offset : ℕ → ℕ
testfs_inode_to_block_offset i_nr = i_nr % inodes_per_block * dinode_size

unfoldable pub testfs_read_inode_block : (i_nr : ℕ) → M Buffer
testfs_read_inode_block i_nr = do
  let nr = testfs_inode_to_block_nr i_nr
  assert (ltb nr nr_inode_blocks)
  start ← gets (λ s. s.sb.inode_blocks_start)
  read_blocks (start + nr) 1

unfoldable pub testfs_write_inode_block : (i_nr : ℕ) → Buffer → M (Unit {0})
testfs_write_inode_block i_nr block = do
  let nr = testfs_inode_to_block_nr i_nr
  assert (ltb nr nr_inode_blocks)
  start ← gets (λ s. s.sb.inode_blocks_start)
  write_blocks block (start + nr) 1

unfoldable pub testfs_sync_inode : (p : ℕ) → M (Unit {0})
unfolding testfs_read_inode_block testfs_write_inode_block
testfs_sync_inode p s =
    if not (s.inodes p).dirty
    then pure tt s
    else (do
      block ← testfs_read_inode_block (s.inodes p).i_nr
      let offset = testfs_inode_to_block_offset (s.inodes p).i_nr
      testfs_write_inode_block (s.inodes p).i_nr
          (memcpy block offset (of_words (dinode_words (s.inodes p).din)) 0 dinode_size)
      change p (λ n. record n { dirty = false }))
        s

-- `hash_int`, `hlist_add_head` and `hlist_del` of fs/list.h, on chains by bucket.
pub record Hlist : Type 0 where
  pub hash_int : (nr shift : ℕ) → ℕ
  pub add_head : (elem : ℕ) → (bucket : ℕ) → (ℕ → List ℕ) → ℕ → List ℕ
  pub del : (elem : ℕ) → (ℕ → List ℕ) → ℕ → List ℕ

-- The loop of `inode_hash_find`; there is one super block.
unfoldable pub find_in : (ℕ → Inode) → (inode_nr : ℕ) → List ℕ → Option ℕ
find_in inodes inode_nr [] = none
find_in inodes inode_nr (p ∷ rest) =
    if (inodes p).i_nr == inode_nr then some p else find_in inodes inode_nr rest

module _ (lib : Hlist) where
  abbrev pub inode_hashfn : ℕ → ℕ
  inode_hashfn nr = lib.hash_int nr 8

  unfoldable pub inode_hash_find : (inode_nr : ℕ) → Fs → Option ℕ
  unfolding find_in
  inode_hash_find inode_nr s = find_in s.inodes inode_nr (s.chains (inode_hashfn inode_nr))

  unfoldable pub inode_hash_insert : (p : ℕ) → M (Unit {0})
  inode_hash_insert p =
      modify (λ s. record s { chains = lib.add_head p (inode_hashfn (s.inodes p).i_nr) s.chains })

  unfoldable pub inode_hash_remove : (p : ℕ) → M (Unit {0})
  inode_hash_remove p = modify (λ s. record s { chains = lib.del p s.chains })

  -- A new inode in memory, by what `inode_hash_find` answers.
  unfoldable pub get_found : (inode_nr : ℕ) → Option ℕ → M ℕ
  unfolding testfs_read_inode_block inode_hash_insert
  get_found inode_nr (some p) = do change p (λ n. record n { i_count = plus n.i_count 1 }); pure p
  get_found inode_nr none = do
    p ← gets (λ s. s.next_inode)
    modify (λ s. record s { next_inode = s.next_inode + 1 })
    change p (λ n. record { din = empty_dinode; dirty = false; i_nr = inode_nr; i_count = pos 1 })
    block ← testfs_read_inode_block inode_nr
    change p
        (λ n. record n { din = dinode_of (from block (testfs_inode_to_block_offset inode_nr)) })
    inode_hash_insert p
    pure p

  unfoldable pub testfs_get_inode : (inode_nr : ℕ) → M ℕ
  unfolding inode_hash_find get_found
  testfs_get_inode inode_nr s = get_found inode_nr (inode_hash_find inode_nr s) s

  unfoldable pub testfs_put_inode : (p : ℕ) → M (Unit {0})
  unfolding inode_hash_remove
  testfs_put_inode p = do
    dirty ← gets (λ s. (s.inodes p).dirty)
    assert (not dirty)
    change p (λ n. record n { i_count = minus n.i_count 1 })
    count ← gets (λ s. (s.inodes p).i_count)
    if is_zero count then inode_hash_remove p else pure tt
