-- ===== src/Fs/ReadWrite/Lookup.antt =====
-- `testfs_read_block` against the blocks of a file as a map from logical to physical numbers, in which
-- a table or a block that is not there is one of zeros.
use operating_systems_lab.Base.{
  ℕ, ◌+◌, ◌-◌, ◌*◌, ◌/◌, ◌%◌, ◌<◌, ◌≤◌, ◌≡◌, ◌∙◌, refl, sym, ap, subst, true, false, ◌&&◌, Option,
  none, some, ltb, leb, ◌==◌, if◌then◌else◌, arith, zero, suc, not,
}
use operating_systems_lab.Base.Int.{ℤ, pos, negsuc}
use operating_systems_lab.Fs.Bytes.{Buffer, zeros, int_at, word_at, to_int}
use operating_systems_lab.Fs.State.{Fs, Dinode}
use operating_systems_lab.Fs.ReadWrite.{read_phys, read_indirect, read_second, read_dindirect}
use operating_systems_lab.Fs.ReadWrite.Allocate.{is_zero}

-- The block of a physical number; there is no block 0 in a file.
abbrev pub at : Fs → ℤ → Buffer
at s (pos m) = if m == 0 then zeros else s.dev.block m
at s (negsuc k) = zeros

-- The first table over the others for the logical block `n`, and the physical number of `n`.
abbrev pub first_entry : Fs → Dinode → (n : ℕ) → ℤ
first_entry s d n = int_at (at s d.i_dindirect) ((n - 2058) / 2048)

abbrev pub physical : Fs → Dinode → (n : ℕ) → ℤ
physical s d n =
    if ltb n 10
    then d.i_block_nr n
    else if ltb n 2058
    then int_at (at s d.i_indirect) (n - 10)
    else int_at (at s (first_entry s d n)) ((n - 2058) % 2048)

-- The block that the caller's buffer holds afterwards: that of `n`, but for a first table without an entry
-- the table itself.
abbrev pub shown : Fs → Dinode → (n : ℕ) → ℤ
shown s d n =
    if leb 2058 n && (is_zero (first_entry s d n) && not (is_zero d.i_dindirect))
    then d.i_dindirect
    else physical s d n

-- A number that is in the device.
abbrev pub InDevice : Fs → ℤ → Type 0
InDevice s (pos m) = m < s.dev.size
InDevice s (negsuc k) = ⊥

-- The numbers on the way to logical block `n`, and its own.
pub record IsMapped (s : Fs) (d : Dinode) (n : ℕ) : Type 0 where
  pub indirect : InDevice s d.i_indirect
  pub dindirect : InDevice s d.i_dindirect
  pub second : 2058 ≤ n → n < 4196362 → InDevice s (first_entry s d n)
  pub block : n < 4196362 → InDevice s (physical s d n)

-- What a read gives: the number, and the block `z`, with nothing changed.
abbrev pub Gives : Fs → (r z : ℤ) → Option ((ℤ × Buffer) × Fs) → Type 0
Gives s r z none = ⊥
Gives s r z (some ((r', b), s')) = (r' ≡ r) × (s' ≡ s) × ((k : ℕ) → k < 8192 → b k ≡ at s z k)

-- The entries of a table are those of the bytes that it has.
int_at-cong :
    (b c : Buffer) (i : ℕ) → i < 2048 → ((k : ℕ) → k < 8192 → b k ≡ c k) → int_at b i ≡ int_at c i
int_at-cong b c i lt h =
    let b0 = h (4 * i) (omega arith) in
    let b1 = h (4 * i + 1) (omega arith) in
    let b2 = h (4 * i + 2) (omega arith) in
    let b3 = h (4 * i + 3) (omega arith) in
    let words : word_at b i ≡ word_at c i = omega (arith, b0, b1, b2, b3) in ap to_int words

module _ (s : Fs) where
  -- The bytes that `read_blocks` reads of one block.
  abbrev read_of : ℕ → Buffer
  read_of m k = s.dev.block (m + k / 8192) (k % 8192)

  read_of-block : (m k : ℕ) → k < 8192 → read_of m k ≡ s.dev.block m k
  read_of-block m k lt =
      let here : m + k / 8192 ≡ m = omega arith in
      let offset : k % 8192 ≡ k = omega arith in
      ap (λ b. s.dev.block b (k % 8192)) here ∙ ap (s.dev.block m) offset

  read_of-at : (m k : ℕ) → (m == 0) ≡ false → k < 8192 → read_of m k ≡ at s (pos m) k
  read_of-at m k ne lt = rw ne (read_of-block m k lt)

  pub read_phys-Gives : (z : ℤ) → InDevice s z → Gives s z z (read_phys z s)
  unfolding read_phys
  read_phys-Gives (negsuc k) h = absurd h
  read_phys-Gives (pos zero) h = (refl, refl, λ k lt. refl)
  read_phys-Gives (pos (suc m)) h =
      let ne : (suc m == 0) ≡ false = ground arith in
      let fits : leb (suc m + 1) s.dev.size ≡ true = ground (arith, h) in
      rw (ne, fits, Gives) (refl, refl, λ k lt. read_of-at (suc m) k ne lt)

  module _ (m i : ℕ) (lt : i < 2048) (ne : (m == 0) ≡ false) (h : m < s.dev.size) where
    -- An entry of a table that is read is that of the table's block.
    entry-eq : int_at (read_of m) i ≡ int_at (at s (pos m)) i
    entry-eq = rw ne (int_at-cong (read_of m) (s.dev.block m) i lt (read_of-block m))

    read_entry-Gives :
        InDevice s (int_at (at s (pos m)) i)
        → Gives s
            (int_at (at s (pos m)) i)
            (int_at (at s (pos m)) i)
            (read_phys (int_at (read_of m) i) s)
    read_entry-Gives e =
        let z = int_at (at s (pos m)) i in
        subst (λ x. Gives s z z (read_phys x s)) (sym entry-eq) (read_phys-Gives z e)

    fits : leb (m + 1) s.dev.size ≡ true
    fits = ground (arith, h)

    to_entry : read_indirect (pos m) i s ≡ read_phys (int_at (read_of m) i) s
    unfolding read_indirect
    to_entry = rw (ne, fits) refl

    second_entry :
        (table : Buffer) → read_second table (pos m) i s ≡ read_phys (int_at (read_of m) i) s
    unfolding read_second
    second_entry table = rw (ne, fits) refl

  pub read_indirect-Gives :
      (z : ℤ) (i : ℕ)
      → i < 2048
      → InDevice s z
      → InDevice s (int_at (at s z) i)
      → Gives s (int_at (at s z) i) (int_at (at s z) i) (read_indirect z i s)
  unfolding read_indirect read_phys
  read_indirect-Gives (negsuc k) i lt h e = absurd h
  read_indirect-Gives (pos zero) i lt h e = (refl, refl, λ k lt. refl)
  read_indirect-Gives (pos (suc m)) i lt h e =
      let ne : (suc m == 0) ≡ false = ground arith in
      let z = int_at (at s (pos (suc m))) i in
      subst (Gives s z z) (sym (to_entry (suc m) i lt ne h)) (read_entry-Gives (suc m) i lt ne h e)

  -- Over two tables: without the second, the buffer keeps the first.
  read_second-Gives :
      (m i : ℕ) (z : ℤ)
      → (m == 0) ≡ false
      → i < 2048
      → InDevice s z
      → InDevice s (int_at (at s z) i)
      → Gives s
          (int_at (at s z) i)
          (if is_zero z then pos m else int_at (at s z) i)
          (read_second (read_of m) z i s)
  unfolding read_second
  read_second-Gives m i (negsuc k) ne lt h e = absurd h
  read_second-Gives m i (pos zero) ne lt h e = (refl, refl, λ k lt. read_of-at m k ne lt)
  read_second-Gives m i (pos (suc n)) ne lt h e =
      let nz : (suc n == 0) ≡ false = ground arith in
      let z = int_at (at s (pos (suc n))) i in
      let there = ap (λ b. if b then pos m else z) nz in
      subst (λ x. Gives s z x (read_second (read_of m) (pos (suc n)) i s)) (sym there)
        (subst (Gives s z z) (sym (second_entry (suc n) i lt nz h (read_of m)))
          (read_entry-Gives (suc n) i lt nz h e))

  pub read_dindirect-Gives :
      (z : ℤ) (i : ℕ)
      → InDevice s z
      → i < 4194304
      → InDevice s (int_at (at s z) (i / 2048))
      → InDevice s (int_at (at s (int_at (at s z) (i / 2048))) (i % 2048))
      → Gives s
          (int_at (at s (int_at (at s z) (i / 2048))) (i % 2048))
          (if is_zero (int_at (at s z) (i / 2048)) && not (is_zero z)
            then z
            else int_at (at s (int_at (at s z) (i / 2048))) (i % 2048))
          (read_dindirect z i s)
  unfolding read_dindirect read_phys
  read_dindirect-Gives (negsuc k) i h lt h1 e = absurd h
  read_dindirect-Gives (pos zero) i h lt h1 e = (refl, refl, λ k lt. refl)
  read_dindirect-Gives (pos (suc m)) i h lt h1 e =
      let ne : (suc m == 0) ≡ false = ground arith in
      let f = int_at (at s (pos (suc m))) (i / 2048) in
      let z = int_at (at s f) (i % 2048) in
      let to_second : read_dindirect (pos (suc m)) i s
          ≡ read_second (read_of (suc m)) (int_at (read_of (suc m)) (i / 2048)) (i % 2048) s =
        rw (ne, fits (suc m) (i / 2048) (omega arith) ne h) refl in
      let run =
        to_second
        ∙ ap (λ x. read_second (read_of (suc m)) x (i % 2048) s)
            (entry-eq (suc m) (i / 2048) (omega arith) ne h) in
      let there : (is_zero f && not (suc m == 0)) ≡ is_zero f = ground (arith, ne) in
      subst (λ b. Gives s z (if b then pos (suc m) else z) (read_dindirect (pos (suc m)) i s))
        (sym there)
        (subst (Gives s z (if is_zero f then pos (suc m) else z)) (sym run)
          (read_second-Gives (suc m) (i % 2048) f ne (omega arith) h1 e))
