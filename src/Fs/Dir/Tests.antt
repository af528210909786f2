-- ===== src/Fs/Dir/Tests.antt =====
-- A directory of two entries, and the theorems on directories at it.
use operating_systems_lab.Base.{
  ℕ, ◌≡◌, [], none, false, ◌==◌, if◌then◌else◌, ◌∷◌, List, Bool, ◌&&◌, some, true, refl, ap, ok,
  enoent, eexist, ◌%◌, ◌^◌,
}
use operating_systems_lab.Base.Int.{pos, negsuc}
use operating_systems_lab.Fs.Bytes.{zeros, of_list, memcpy}
use operating_systems_lab.Fs.State.{Fs, Inode, code}
use operating_systems_lab.Fs.Inode.{empty_dinode, Hlist}
use operating_systems_lab.Fs.Dir.{
  Dirent, rounds_for, testfs_dir_name_to_inode_nr, testfs_find_dirent, testfs_next_dirent,
  assert_dir, with_header, with_name, named, names, in_use,
}
use operating_systems_lab.Fs.Dir.Entries.{dirent_image, empty_loop}
use operating_systems_lab.Fs.Dir.Listed.{
  Reads, found, found_nr, vacant, at, directory-refines, entry, last,
}
use operating_systems_lab.Fs.ReadWrite.{testfs_read_block, read_phys}
use operating_systems_lab.Fs.ReadWrite.Read.{
  testfs_read_data, read_blocks_of, unless_negative, read_part, past_end,
}
use operating_systems_lab.Fs.Number.{str_to_offset, str_to_size, scan, digits}
use operating_systems_lab.Fs.Dir.Create.{cmd_cd, cmd_create, cmd_mkdir}
use operating_systems_lab.Fs.Dir.Show.{cmd_ls_internal, cmd_stat}
use operating_systems_lab.Fs.File.{cmd_read, cmd_write}
use operating_systems_lab.Fs.Dir.Answers.{commands-enoent, commands-eexist}

-- `a` with the inode number 7, in the data block 146, and behind it an entry that is not in use
abbrev directory : Inode
directory = record {
  din = record empty_dinode {
    i_type = pos 2;
    i_block_nr = λ j. if j == 0 then pos 146 else pos 0;
    i_size = 20;
    block_count = pos 1;
  };
  dirty = false;
  i_nr = 3;
  i_count = pos 1;
}

abbrev two_entries : Fs
two_entries = record {
  sb = record {
    inode_freemap_start = 1;
    block_freemap_start = 2;
    inode_blocks_start = 18;
    data_blocks_start = 146;
    used_inode_count = 2;
    used_block_count = 1;
    max_fs_blocks = 128;
  };
  dev = record {
    block = λ b.
        if b == 146
        then memcpy (memcpy zeros 0 (dirent_image 2 (pos 7) (of_list (97 ∷ []))) 0 10) 10
            (dirent_image 2 (negsuc 0) (of_list (98 ∷ []))) 0 10
        else zeros;
    size = 200;
  };
  inode_freemap = none;
  block_freemap = none;
  inodes = λ p. directory;
  chains = λ h. [];
  next_inode = 6;
}

-- Chains of inodes in a table
abbrev chains : Hlist
chains = record {
  hash_int = λ nr shift. nr % 2 ^ shift;
  add_head = λ p h chains j. if j == h then p ∷ chains j else chains j;
  del = λ p chains h. chains h;
}

directory-refines_example :
    (ds : List Dirent) × (e : Bool) × Reads two_entries 5 0 ds e
    × ((name : List ℕ)
        → testfs_dir_name_to_inode_nr 5 name two_entries ≡ at two_entries (found name ds e))
    × ((nr : ℕ) → testfs_find_dirent 5 nr two_entries ≡ at two_entries (found_nr nr ds e))
    × (empty_loop (rounds_for 5 two_entries) 5 0 two_entries ≡ at two_entries (vacant ds e))
directory-refines_example = directory-refines two_entries 5

first_entry :
    (d : Dirent) × (testfs_next_dirent 5 0 two_entries ≡ some ((some d, 10), two_entries))
    × ((in_use d.d_inode_nr && names d.d_name 0 (97 ∷ [])) ≡ true)
    × ((in_use d.d_inode_nr && names d.d_name 0 (98 ∷ [])) ≡ false)
    × (d.d_inode_nr ≡ pos 7)
unfolding testfs_next_dirent assert_dir with_header with_name named testfs_read_data read_part
    past_end read_blocks_of unless_negative testfs_read_block read_phys names
first_entry = (_, refl, refl, refl, refl)

second_entry :
    (d : Dirent) × (testfs_next_dirent 5 10 two_entries ≡ some ((some d, 20), two_entries))
    × ((in_use d.d_inode_nr && names d.d_name 0 (98 ∷ [])) ≡ false)
unfolding testfs_next_dirent assert_dir with_header with_name named testfs_read_data read_part
    past_end read_blocks_of unless_negative testfs_read_block read_phys names
second_entry = (_, refl, refl)

no_entry : testfs_next_dirent 5 20 two_entries ≡ some ((none, 20), two_entries)
unfolding testfs_next_dirent assert_dir
no_entry = refl

abbrev entries : List Dirent
entries = first_entry.0 ∷ second_entry.0 ∷ []

entries-Reads : Reads two_entries 5 0 entries true
entries-Reads =
    entry 0 10 _ _ true first_entry.1 (entry 10 20 _ _ true second_entry.1 (last 20 20 no_entry))

-- `b` is the name of an entry that is not in use.
no_b : found (98 ∷ []) entries true ≡ some (code enoent)
no_b = rw (first_entry.3, second_entry.2) refl

one_a : found (97 ∷ []) entries true ≡ some (pos 7)
one_a = rw (first_entry.2) (ap (λ z. some z) first_entry.4)

zero_offset : str_to_offset (48 ∷ []) ≡ ok (pos 0)
unfolding str_to_offset scan digits
zero_offset = refl

zero_size : str_to_size (48 ∷ []) ≡ ok 0
unfolding str_to_size scan digits
zero_size = refl

commands-enoent_example :
    (cmd_cd chains 2 (98 ∷ []) 5 two_entries ≡ some ((code enoent, 5), two_entries))
    × (cmd_ls_internal chains 1 2 (98 ∷ []) 5 true two_entries
        ≡ some ((code enoent, []), two_entries))
    × (cmd_stat chains 2 (98 ∷ []) 5 two_entries ≡ some ((code enoent, none), two_entries))
    × (cmd_read chains (λ n. true) 4 (98 ∷ []) (48 ∷ []) (48 ∷ []) 5 two_entries
        ≡ some ((code enoent, none), two_entries))
    × (cmd_write chains 4 (98 ∷ []) (48 ∷ []) (48 ∷ []) 5 two_entries
        ≡ some (code enoent, two_entries))
commands-enoent_example =
    commands-enoent chains two_entries 5 (98 ∷ []) entries (λ n. true) 1 true (48 ∷ []) (48 ∷ [])
      (48 ∷ []) 0 0 refl entries-Reads no_b zero_offset zero_size

commands-eexist_example :
    (cmd_create chains 2 (97 ∷ []) 5 two_entries ≡ some (code eexist, two_entries))
    × (cmd_mkdir chains 2 (97 ∷ []) 5 two_entries ≡ some (code eexist, two_entries))
commands-eexist_example =
    commands-eexist chains two_entries 5 (97 ∷ []) entries 7 refl entries-Reads one_a
