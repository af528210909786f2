-- ===== src/Fs/Inode/Reload.antt =====
-- An inode that is written, given up and read again: `testfs_sync_inode`, `testfs_put_inode` and
-- `testfs_get_inode`.
use operating_systems_lab.Base.{ℕ, ◌+◌, ◌/◌, ◌%◌, ◌≡◌, false, List, [], ◌∷◌, ◌==◌, if◌then◌else◌}
use operating_systems_lab.Fs.Bytes.{Buffer, from}
use operating_systems_lab.Fs.State.{Fs, Inode}
use operating_systems_lab.Fs.Inode.{
  Hlist, inode_hashfn, put_inode, dinode_of, empty_dinode, testfs_inode_to_block_offset,
}
use operating_systems_lab.Base.Int.{pos, minus}

-- A chain without the node `p`.
abbrev pub without : ℕ → List ℕ → List ℕ
without p [] = []
without p (q ∷ chain) = if q == p then without p chain else q ∷ without p chain

-- `hlist_del` takes a node out of its chain and leaves the others.
pub record Deletes (lib : Hlist) : Type 0 where
  pub del_is : (p : ℕ) (chains : ℕ → List ℕ) (h : ℕ) → lib.del p chains h ≡ without p (chains h)

-- No node of the chain but `p` is for the inode `nr`.
abbrev pub IsOnly : (ℕ → Inode) → (nr p : ℕ) → List ℕ → Type 0
IsOnly inodes nr p [] = Unit {0}
IsOnly inodes nr p (q ∷ chain) = ((inodes q).i_nr ≡ nr → q ≡ p) × IsOnly inodes nr p chain

-- The state after the last reference to `p` was given up.
abbrev given_up : Hlist → (p : ℕ) → Fs → Fs
given_up lib p s =
    record (put_inode p (record (s.inodes p) { i_count = minus (s.inodes p).i_count 1 }) s) {
      chains = lib.del p s.chains;
    }

-- An inode that is not in the table is read from its slot.
abbrev loaded : Hlist → (nr : ℕ) → Fs → Fs
loaded lib nr s =
    let at : ℕ = s.sb.inode_blocks_start + nr / 128 in
    let block : Buffer = λ k. s.dev.block (at + k / 8192) (k % 8192) in
    let q : ℕ = s.next_inode in
    let n : Inode = record { din = empty_dinode; dirty = false; i_nr = nr; i_count = pos 1 } in
    let s1 = put_inode q n (record s { next_inode = q + 1 }) in
    let s2 =
      put_inode q
        (record (s1.inodes q) { din = dinode_of (from block (testfs_inode_to_block_offset nr)) })
        s1 in
    record s2 { chains = lib.add_head q (inode_hashfn lib (s2.inodes q).i_nr) s2.chains }

-- The inode in memory at `q` has number `nr`, one reference, and no change to write.
pub record IsFresh (q nr : ℕ) (s : Fs) : Type 0 where
  pub i_nr : (s.inodes q).i_nr ≡ nr
  pub i_count : (s.inodes q).i_count ≡ pos 1
  pub dirty : (s.inodes q).dirty ≡ false
