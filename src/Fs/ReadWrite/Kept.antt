-- ===== src/Fs/ReadWrite/Kept.antt =====
-- The state while a file is read: `testfs_read_block` and `testfs_read_data`.
use operating_systems_lab.Base.{
  ℕ, zero, suc, ◌+◌, ◌-◌, ◌*◌, ◌/◌, ◌%◌, ◌^◌, Bool, true, false, Option, none, some, ltb, leb, ◌==◌,
  if◌then◌else◌, Bool-cases, inl, inr,
}
use operating_systems_lab.Base.Int.{ℤ, pos, negsuc, above, minus}
use operating_systems_lab.Fs.Bytes.{Buffer, int_at, to_int, zeros, memcpy}
use operating_systems_lab.Fs.State.{Fs, M, bind, ◌>>=◌, pure, stop}
use operating_systems_lab.Fs.Block.{read_blocks}
use operating_systems_lab.Fs.ReadWrite.{
  int_nr, read_phys, read_indirect, read_second, read_dindirect, testfs_read_block,
}
use operating_systems_lab.Fs.ReadWrite.Read.{
  unless_negative, read_last, read_loop, rounds_of, leftover, read_blocks_of, testfs_read_data,
  read_part, past_end,
}

-- The call stops, or returns with the state as it was.
pub data Kept {A : Type 0} (s : Fs) : Option (A × Fs) → Type 0 where
  stopped : Kept s none
  kept : (a : A) → Kept s (some (a, s))

module _ {A : Type 0} {s : Fs} where
  pub if-Kept :
      (b : Bool) (m m' : M A) → Kept s (m s) → Kept s (m' s) → Kept s ((if b then m else m') s)
  if-Kept true m m' h k = h
  if-Kept false m m' h k = k

  pub then-Kept :
      {B : Type 0} (m : M A) (f : A → M B)
      → Kept s (m s)
      → ((a : A) → Kept s (f a s))
      → Kept s ((m >>= f) s)
  then-Kept m f h k = go (m s) h
    where
      go : (o : Option (A × Fs)) → Kept s o → Kept s (bind o f)
      go none stopped = stopped
      go (some (a, s')) (kept b) = k b

module _ (s : Fs) where
  read_blocks-Kept : (start nr : ℕ) → Kept s (read_blocks start nr s)
  read_blocks-Kept start nr = elim (Bool-cases (leb (start + nr) s.dev.size)) [
    | inl e ↦ rw e (kept _)
    | inr e ↦ rw e stopped
  ]

  read_phys-Kept : (z : ℤ) → Kept s (read_phys z s)
  unfolding read_phys
  read_phys-Kept (negsuc k) = kept _
  read_phys-Kept (pos n) =
      if-Kept (n == 0) (pure (pos 0, zeros)) (read_blocks n 1 >>= λ block. pure (pos n, block))
        (kept _)
        (then-Kept (read_blocks n 1) (λ block. pure (pos n, block)) (read_blocks-Kept n 1)
          (λ b. kept _))

  read_entry-Kept : (n i : ℕ) → Kept s ((read_blocks n 1 >>= λ table. read_phys (int_at table i)) s)
  read_entry-Kept n i =
      then-Kept (read_blocks n 1) (λ table. read_phys (int_at table i)) (read_blocks-Kept n 1)
        (λ table. read_phys-Kept (int_at table i))

  read_indirect-Kept : (z : ℤ) (i : ℕ) → Kept s (read_indirect z i s)
  unfolding read_indirect
  read_indirect-Kept (negsuc k) i = read_phys-Kept (pos 0)
  read_indirect-Kept (pos n) i =
      if-Kept (n == 0) (read_phys (pos 0)) (read_blocks n 1 >>= λ table. read_phys (int_at table i))
        (read_phys-Kept (pos 0)) (read_entry-Kept n i)

  read_second-Kept : (table : Buffer) (z : ℤ) (i : ℕ) → Kept s (read_second table z i s)
  unfolding read_second
  read_second-Kept table (negsuc k) i = kept _
  read_second-Kept table (pos n) i =
      if-Kept (n == 0) (pure (pos 0, table))
        (read_blocks n 1 >>= λ second. read_phys (int_at second i)) (kept _) (read_entry-Kept n i)

  read_dindirect-Kept : (z : ℤ) (i : ℕ) → Kept s (read_dindirect z i s)
  unfolding read_dindirect
  read_dindirect-Kept (negsuc k) i = read_phys-Kept (pos 0)
  read_dindirect-Kept (pos n) i =
      let second = λ (table : Buffer). read_second table (int_at table (i / 2048)) (i % 2048) in
      if-Kept (n == 0) (read_phys (pos 0)) (read_blocks n 1 >>= second) (read_phys-Kept (pos 0)) (
        then-Kept (read_blocks n 1) second (read_blocks-Kept n 1)
          (λ table. read_second-Kept table (int_at table (i / 2048)) (i % 2048)))

  -- Reading a block changes nothing.
  testfs_read_block-Kept : (p n : ℕ) (block : Buffer) → Kept s (testfs_read_block p n block s)
  unfolding testfs_read_block
  testfs_read_block-Kept p n block =
      let d = (s.inodes p).din in
      let i : ℕ = n - 10 - 2048 in
      elim (Bool-cases (ltb n 10)) [
        | inl e ↦ rw e (read_phys-Kept (d.i_block_nr n))
        | inr e ↦ elim (Bool-cases (ltb (n - 10) 2048)) [
          | inl f ↦ rw (e, f) (read_indirect-Kept d.i_indirect (n - 10))
          | inr f ↦ elim (Bool-cases (leb 4194304 i)) [
            | inl g ↦ rw (e, f, g) (kept _)
            | inr g ↦ rw (e, f, g) (read_dindirect-Kept d.i_dindirect i)
          ]
        ]
      ]

  -- A block and what follows it.
  block-Kept :
      (nr p : ℕ) (buf block : Buffer) (k : Buffer → M (ℤ × Buffer))
      → ((b : Buffer) → Kept s (k b s))
      → Kept s ((int_nr nr (λ n. testfs_read_block p n block) >>= unless_negative buf k) s)
  unfolding unless_negative
  block-Kept nr p buf block k h =
      then-Kept (int_nr nr (λ n. testfs_read_block p n block)) (unless_negative buf k)
        (number (to_int (nr % 2 ^ 32))) rest
    where
      number :
          (z : ℤ)
          → Kept s (
              (elim z as (λ x. M (ℤ × Buffer)) [
                | negsuc j ↦ stop
                | pos n ↦ testfs_read_block p n block
              ])
                s)
      number (negsuc j) = stopped
      number (pos n) = testfs_read_block-Kept p n block

      rest : (r : ℤ × Buffer) → Kept s (unless_negative buf k r s)
      rest (negsuc j, b) = kept _
      rest (pos n, b) = h b

  read_last-Kept :
      (p nr ix size increment : ℕ) (left : ℤ) (buf block : Buffer)
      → Kept s (read_last p nr ix size increment left buf block s)
  unfolding read_last
  read_last-Kept p nr ix size increment (negsuc j) buf block = stopped
  read_last-Kept p nr ix size increment (pos left) buf block =
      block-Kept (nr + increment) p buf block _ (λ b. kept _)

  read_loop-Kept :
      (rounds p nr ix size increment : ℕ) (left : ℤ) (buf block : Buffer)
      → Kept s (read_loop rounds p nr ix size increment left buf block s)
  unfolding read_loop
  read_loop-Kept zero p nr ix size increment left buf block =
      read_last-Kept p nr ix size increment left buf block
  read_loop-Kept (suc rounds) p nr ix size increment left buf block =
      elim (Bool-cases (above left 8192)) [
        | inl e ↦ rw e (
            block-Kept (nr + increment) p buf block
              (λ b.
                read_loop rounds p nr ix size (increment + 1) (minus left 8192)
                  (memcpy buf (8192 * increment - ix) b 0 8192) b)
              (λ b. read_loop-Kept rounds p nr ix size (increment + 1) (minus left 8192) _ b))
        | inr e ↦ rw e (read_last-Kept p nr ix size increment left buf block)
      ]

  read_blocks_of-Kept :
      (p : ℕ) (buf : Buffer) (nr ix size : ℕ) → Kept s (read_blocks_of p nr ix size buf s)
  unfolding read_blocks_of
  read_blocks_of-Kept p buf nr ix size = elim (Bool-cases (ltb 8192 ((ix + size) % 2 ^ 64))) [
    | inl e ↦ rw e (
        block-Kept nr p buf zeros
          (λ b.
            read_loop (rounds_of (leftover size ix)) p nr ix size 1 (leftover size ix)
              (memcpy buf 0 b ix (8192 - ix)) b)
          (λ b.
            read_loop-Kept (rounds_of (leftover size ix)) p nr ix size 1 (leftover size ix) _ b))
    | inr e ↦ rw e (
        block-Kept nr p buf zeros (λ b. pure (to_int (size % 2 ^ 32), memcpy buf 0 b ix size))
          (λ b. kept _))
  ]

  read_part-Kept :
      (p : ℕ) (buf : Buffer) (start size i_size : ℕ) (past : Option Bool)
      → Kept s (read_part p buf start size i_size past s)
  unfolding read_part
  read_part-Kept p buf start size i_size none = stopped
  read_part-Kept p buf start size i_size (some past) =
      read_blocks_of-Kept p buf (start / 8192) (start % 8192)
        (if past then (i_size + 2 ^ 64 - start) % 2 ^ 64 else size)

  -- Reading a file changes nothing.
  pub testfs_read_data-Kept :
      (p : ℕ) (buf : Buffer) (start size : ℕ) → Kept s (testfs_read_data p buf start size s)
  unfolding testfs_read_data
  testfs_read_data-Kept p buf start size =
      let i_size = (s.inodes p).din.i_size in
      read_part-Kept p buf start size i_size (past_end start size i_size)
