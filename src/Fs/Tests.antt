-- ===== src/Fs/Tests.antt =====
-- The theorems on the file system at a new file system of one megabyte, and runs of its operations.
use operating_systems_lab.Base.{
  ◌≡◌, refl, arith, ℕ, ◌≤◌, ◌<◌, [], some, true, false, ◌%◌, ◌^◌, ◌==◌, if◌then◌else◌, none, ◌∷◌,
  List,
}
use operating_systems_lab.Base.Int.{pos}
use operating_systems_lab.Bitmap.{Bitmap}
use operating_systems_lab.Bitmap.Create.{blank, blank-Created}
use operating_systems_lab.Fs.State.{Fs, Inode, ◌>>◌}
use operating_systems_lab.Fs.Inode.{empty_dinode, Hlist}
use operating_systems_lab.Fs.Super.Alloc.{testfs_alloc_block, testfs_free_block}
use operating_systems_lab.Fs.Super.Consistent.{IsConsistent}
use operating_systems_lab.Fs.Super.Allocate.{Allocates, testfs_alloc_block-Allocates}
use operating_systems_lab.Fs.Super.Release.{Frees, testfs_free_block-Frees}
use operating_systems_lab.Fs.Super.Closed.{close-init}
use operating_systems_lab.Fs.Super.Format.{format-IsConsistent}
use operating_systems_lab.Fs.Super.Mount.{format, testfs_close_super_block, testfs_init_super_block}
use operating_systems_lab.Fs.Super.Changed.{with_blocks, with_blocks-IsConsistent}
use operating_systems_lab.Bitmap.Valid.{set_bit, set_bit-IsValid, bit_at-set_bit, in_words}
use operating_systems_lab.Bitmap.Count.{nr_allocated-set, nr_allocated-clear_all}
use operating_systems_lab.Fs.Command.Run.{cmdtable, handle_command}
use operating_systems_lab.Fs.Command.Dispatch.{Dispatches, handle_command-Dispatches}
use operating_systems_lab.Fs.Bytes.{zeros}
use operating_systems_lab.Fs.Inode.Reload.{without}
use operating_systems_lab.Fs.ReadWrite.{testfs_read_block}
use operating_systems_lab.Fs.ReadWrite.Found.{Found, testfs_read_block-Found}
use operating_systems_lab.Fs.ReadWrite.Lookup.{shown}

abbrev no_inode : ℕ → Inode
no_inode p = record { din = empty_dinode; dirty = false; i_nr = 0; i_count = pos 0 }

format-IsConsistent_example :
    (s : Fs) × (format 1 no_inode ≡ some (pos 0, s))
    × IsConsistent (blank 65536) (blank 1048576) s
    × (s.sb.max_fs_blocks ≡ 128)
    × ((h : ℕ) → s.chains h ≡ [])
format-IsConsistent_example = format-IsConsistent 1 no_inode (omega arith) (omega arith)

-- That file system, and one whose first data block is in use.
abbrev fresh : Fs
fresh = (format-IsConsistent 1 no_inode (omega arith) (omega arith)).0

fresh-IsConsistent : IsConsistent (blank 65536) (blank 1048576) fresh
fresh-IsConsistent = (format-IsConsistent 1 no_inode (omega arith) (omega arith)).2

fresh-max : fresh.sb.max_fs_blocks ≡ 128
fresh-max = (format-IsConsistent 1 no_inode (omega arith) (omega arith)).3

fresh-chains : (h : ℕ) → fresh.chains h ≡ []
fresh-chains = (format-IsConsistent 1 no_inode (omega arith) (omega arith)).4

abbrev first_used : Bitmap
first_used = set_bit (blank 1048576) 0

abbrev one_used : Fs
one_used = with_blocks fresh first_used 0 1

one_used-IsConsistent : IsConsistent (blank 65536) first_used one_used
unfolding set_bit
one_used-IsConsistent =
    let v = fresh-IsConsistent.block_map.valid in
    let clear = (blank-Created 1048576 (omega arith) refl).2 in
    let lt : 0 < 1048576 = omega arith in
    let changed = λ (k : ℕ). bit_at-set_bit v 0 k (in_words v 0 lt) in
    let none_used = nr_allocated-clear_all (blank 1048576) (λ k h. clear k h) in
    let count = nr_allocated-set (blank 1048576) first_used 0 lt (clear 0 lt) changed refl in
    (with_blocks-IsConsistent 0 1 true fresh-IsConsistent lt (set_bit-IsValid v 0 lt) refl
      (omega (arith, count, none_used)) changed).0

testfs_alloc_block-Allocates_example :
    Allocates (blank 65536) first_used one_used (testfs_alloc_block one_used)
testfs_alloc_block-Allocates_example = testfs_alloc_block-Allocates one_used-IsConsistent

testfs_free_block-Frees_example :
    Frees (blank 65536) first_used one_used 146 (testfs_free_block 146 one_used)
testfs_free_block-Frees_example = testfs_free_block-Frees one_used-IsConsistent 146

close-init_example :
    (s : Fs) × ((testfs_close_super_block >> testfs_init_super_block) one_used ≡ some (pos 0, s))
    × (s.sb ≡ one_used.sb)
    × IsConsistent (blank 65536) first_used s
    × ((b : ℕ) → 18 ≤ b → s.dev.block b ≡ one_used.dev.block b)
close-init_example = close-init one_used-IsConsistent (omega (arith, fresh-max)) fresh-chains

-- A table of 256 chains, and an inode at 5 whose size has changed.
abbrev table : Hlist
table = record {
  hash_int = λ nr shift. nr % 2 ^ shift;
  add_head = λ p h chains j. if j == h then p ∷ chains j else chains j;
  del = λ p chains h. without p (chains h);
}

abbrev grown_file : Inode
grown_file = record {
  din = record empty_dinode {
    i_type = pos 1;
    i_block_nr = λ j. if j == 0 then pos 146 else pos 0;
    i_size = 8000;
    block_count = pos 1;
  };
  dirty = true;
  i_nr = 300;
  i_count = pos 1;
}

abbrev one_file : Fs
one_file = record {
  sb = record {
    inode_freemap_start = 1;
    block_freemap_start = 2;
    inode_blocks_start = 18;
    data_blocks_start = 146;
    used_inode_count = 1;
    used_block_count = 1;
    max_fs_blocks = 128;
  };
  dev = record { block = λ b. zeros; size = 200 };
  inode_freemap = none;
  block_freemap = none;
  inodes = λ p. if p == 5 then grown_file else no_inode p;
  chains = λ h. if h == 44 then 5 ∷ [] else [];
  next_inode = 6;
}

-- A file over two tables whose first table has only its entry 0.
abbrev sparse : Fs
sparse = record one_file {
  dev = record { block = λ b k. if b == 150 then if k == 0 then 7 else 0 else 0; size = 200 };
  inodes = λ p. record (no_inode p) { din = record empty_dinode { i_dindirect = pos 150 } };
}

-- Logical block 5000 is a hole, but what is shown is the table.
testfs_read_block-Found_example :
    Found sparse (sparse.inodes 1).din 5000 zeros (testfs_read_block 1 5000 zeros sparse)
testfs_read_block-Found_example = testfs_read_block-Found sparse 1 5000 zeros (record {
  indirect = omega arith;
  dindirect = omega arith;
  second = λ l u. omega arith;
  block = λ u. omega arith;
})

hole_shown : shown sparse (sparse.inodes 1).din 5000 ≡ pos 150
hole_shown = refl

abbrev ls_name : List ℕ
ls_name = 108 ∷ 115 ∷ []

-- `ls` with the word `a`, at a place where the inode 5 is the current directory.
handle_command-Dispatches_example :
    Dispatches table
      (λ n. true)
      1
      (record { nargs = 0; cmd = λ i. none; cur_dir = 5 })
      ls_name
      (97 ∷ [])
      one_file
      cmdtable
      (handle_command table
        (λ n. true)
        1
        (record { nargs = 0; cmd = λ i. none; cur_dir = 5 })
        (some ls_name)
        (some (97 ∷ []))
        one_file)
handle_command-Dispatches_example =
    handle_command-Dispatches table (λ n. true) 1
      (record { nargs = 0; cmd = λ i. none; cur_dir = 5 }) ls_name (97 ∷ []) one_file
