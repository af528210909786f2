-- ===== src/Fs/Dir/Listed.antt =====
-- The loops over a directory, and the list of its entries they go through.
use operating_systems_lab.Base.{
  ℕ, zero, suc, ◌-◌, ◌<◌, ◌≤◌, ◌≡◌, refl, Bool, true, false, not, ◌&&◌, ◌||◌, Option, none, some,
  List, [], ◌∷◌, length, if◌then◌else◌, arith, ◌+◌, subst, Bool-cases, inl, inr, enoent, enotempty,
}
use operating_systems_lab.Base.Int.{ℤ, pos}
use operating_systems_lab.Fs.State.{Fs, M, code}
use operating_systems_lab.Fs.Dir.{
  Dirent, assert_dir, same_int, in_use, names, testfs_next_dirent, rounds_for, name_loop, find_loop,
  testfs_dir_name_to_inode_nr, testfs_find_dirent,
}
use operating_systems_lab.Fs.Dir.Entries.{dot, dot_dot, empty_loop}
use operating_systems_lab.Fs.Dir.Scan.{Steps, stops, ends, moves, testfs_next_dirent-Steps}

-- The entries that `testfs_next_dirent` gives from an offset on. Behind the last it gives none and
-- returns, for `true`, or stops, for `false`. The state stays as it is.
pub data Reads (s : Fs) (p : ℕ) : ℕ → List Dirent → Bool → Type 0 where
  last : (o o' : ℕ) → testfs_next_dirent p o s ≡ some ((none, o'), s) → Reads s p o [] true
  stuck : (o : ℕ) → testfs_next_dirent p o s ≡ none → Reads s p o [] false
  entry :
      (o o' : ℕ) (d : Dirent) (ds : List Dirent) (e : Bool)
      → testfs_next_dirent p o s ≡ some ((some d, o'), s)
      → Reads s p o' ds e
      → Reads s p o (d ∷ ds) e

-- What a search of the list of entries finds: the inode number of the first entry in use with the name, or
-- `enoent`; nothing where the list ends because the code stops.
abbrev pub found : (name : List ℕ) → List Dirent → Bool → Option ℤ
found name [] true = some (code enoent)
found name [] false = none
found name (d ∷ ds) e =
    if in_use d.d_inode_nr && names d.d_name 0 name then some d.d_inode_nr else found name ds e

-- The first entry with the inode number
abbrev pub found_nr : (nr : ℕ) → List Dirent → Bool → Option (Option Dirent)
found_nr nr [] true = some none
found_nr nr [] false = none
found_nr nr (d ∷ ds) e = if same_int d.d_inode_nr (pos nr) then some (some d) else found_nr nr ds e

-- An entry that may be in a directory that is removed
abbrev pub removable : Dirent → Bool
removable d = not (in_use d.d_inode_nr) || (names d.d_name 0 dot || names d.d_name 0 dot_dot)

abbrev pub vacant : List Dirent → Bool → Option ℤ
vacant [] true = some (pos 0)
vacant [] false = none
vacant (d ∷ ds) e = if removable d then vacant ds e else some (code enotempty)

abbrev pub at : {A : Type 0} → Fs → Option A → Option (A × Fs)
at s none = none
at s (some a) = some (a, s)

module _ (s : Fs) (p : ℕ) where
  branch-at :
      {A : Type 0} (b : Bool) (m m' : M A) (x y : Option A)
      → m s ≡ at s x
      → m' s ≡ at s y
      → elim b as (λ x. M A) [ true ↦ m | false ↦ m' ] s ≡ at s (if b then x else y)
  branch-at true m m' x y h k = h
  branch-at false m m' x y h k = k

  name_loop-found :
      (n : ℕ) (name : List ℕ) (o : ℕ) (ds : List Dirent) (e : Bool)
      → Reads s p o ds e
      → length ds < n
      → name_loop n p name o s ≡ at s (found name ds e)
  unfolding name_loop
  name_loop-found zero name o ds e r h = elim h [ ]
  name_loop-found (suc n) name o _ _ (last _ o' eq) h = rw eq refl
  name_loop-found (suc n) name o _ _ (stuck _ eq) h = rw eq refl
  name_loop-found (suc n) name o _ _ (entry _ o' d ds e eq r) h = rw eq (
      branch-at (in_use d.d_inode_nr && names d.d_name 0 name) (λ s'. some (d.d_inode_nr, s'))
        (name_loop n p name o') (some (d.d_inode_nr)) (found name ds e) refl
        (name_loop-found n name o' ds e r (omega (arith, h))))

  find_loop-found_nr :
      (n nr o : ℕ) (ds : List Dirent) (e : Bool)
      → Reads s p o ds e
      → length ds < n
      → find_loop n p nr o s ≡ at s (found_nr nr ds e)
  unfolding find_loop
  find_loop-found_nr zero nr o ds e r h = elim h [ ]
  find_loop-found_nr (suc n) nr o _ _ (last _ o' eq) h = rw eq refl
  find_loop-found_nr (suc n) nr o _ _ (stuck _ eq) h = rw eq refl
  find_loop-found_nr (suc n) nr o _ _ (entry _ o' d ds e eq r) h = rw eq (
      branch-at (same_int d.d_inode_nr (pos nr)) (λ s'. some (some d, s')) (find_loop n p nr o')
        (some (some d)) (found_nr nr ds e) refl
        (find_loop-found_nr n nr o' ds e r (omega (arith, h))))

  empty_loop-vacant :
      (n o : ℕ) (ds : List Dirent) (e : Bool)
      → Reads s p o ds e
      → length ds < n
      → empty_loop n p o s ≡ at s (vacant ds e)
  unfolding empty_loop
  empty_loop-vacant zero o ds e r h = elim h [ ]
  empty_loop-vacant (suc n) o _ _ (last _ o' eq) h = rw eq refl
  empty_loop-vacant (suc n) o _ _ (stuck _ eq) h = rw eq refl
  empty_loop-vacant (suc n) o _ _ (entry _ o' d ds e eq r) h = rw eq (
      branch-at (removable d) (empty_loop n p o') (λ s'. some (code enotempty, s')) (vacant ds e)
        (some (code enotempty)) (empty_loop-vacant n o' ds e r (omega (arith, h))) refl)

  abbrev size : ℕ
  size = (s.inodes p).din.i_size

  -- Each entry of the list takes nine bytes of the directory or more, so there is a list from every
  -- offset on, by recursion on the bytes that are left.
  reads_from :
      (n o : ℕ)
      → size - o < n
      → (ds : List Dirent) × (e : Bool) × Reads s p o ds e × (length ds ≤ size - o)
  reads_from zero o h = elim h [ ]
  reads_from (suc n) o h =
      go (reads_from n) h (testfs_next_dirent p o s) refl (testfs_next_dirent-Steps s p o)
    where
      go :
          ((o' : ℕ)
            → size - o' < n
            → (ds : List Dirent) × (e : Bool) × Reads s p o' ds e × (length ds ≤ size - o'))
          → size - o < suc n
          → (r : Option ((Option Dirent × ℕ) × Fs)) → testfs_next_dirent p o s ≡ r
          → Steps s size o r
          → (ds : List Dirent) × (e : Bool) × Reads s p o ds e × (length ds ≤ size - o)
      go rest h _ eq stops = ([], false, stuck o eq, omega arith)
      go rest h _ eq (ends o') = ([], true, last o o' eq, omega arith)
      go rest h _ eq (moves d o' lt step) =
          let (ds, e, r, short) = rest o' (omega (arith, h, lt, step)) in
          (d ∷ ds, e, entry o o' d ds e eq r, omega (arith, lt, step, short))

-- An entry starts in the directory and takes nine bytes or more of it.
abbrev Bounded : (limit o : ℕ) → Option ((Option Dirent × ℕ) × Fs) → Type 0
Bounded limit o none = Unit {0}
Bounded limit o (some ((none, o'), s)) = Unit {0}
Bounded limit o (some ((some d, o'), s)) = (o < limit) × (o + 9 ≤ o')

Steps-Bounded :
    {s : Fs} (limit o : ℕ) (r : Option ((Option Dirent × ℕ) × Fs))
    → Steps s limit o r
    → Bounded limit o r
Steps-Bounded limit o _ stops = tt
Steps-Bounded limit o _ (ends o') = tt
Steps-Bounded limit o _ (moves d o' lt step) = (lt, step)

length-Reads :
    (s : Fs) (p o : ℕ) (ds : List Dirent) (e : Bool)
    → Reads s p o ds e
    → length ds ≤ (s.inodes p).din.i_size - o
length-Reads s p o _ _ (last _ o' eq) = omega arith
length-Reads s p o _ _ (stuck _ eq) = omega arith
length-Reads s p o _ _ (entry _ o' d ds e eq r) =
    let i_size : ℕ = (s.inodes p).din.i_size in
    let (lt, step) =
      subst (Bounded i_size o) eq (Steps-Bounded i_size o _ (testfs_next_dirent-Steps s p o)) in
    let short = length-Reads s p o' ds e r in omega (arith, lt, step, short)

-- Looking up a name in any listing of a directory
pub testfs_dir_name_to_inode_nr-found :
    (s : Fs) (p : ℕ) (name : List ℕ) (ds : List Dirent) (e : Bool)
    → Reads s p 0 ds e
    → same_int (s.inodes p).din.i_type (pos 2) ≡ true
    → testfs_dir_name_to_inode_nr p name s ≡ at s (found name ds e)
unfolding testfs_dir_name_to_inode_nr assert_dir
testfs_dir_name_to_inode_nr-found s p name ds e r is_dir =
    let short = length-Reads s p 0 ds e r in
    rw is_dir (name_loop-found s p (rounds_for p s) name 0 ds e r (omega (arith, short)))

-- A directory as a list of entries, the one that `testfs_next_dirent` gives from the offset 0 on. Looking
-- up a name, finding an inode number and testing for entries that prevent a removal are searches of
-- that list, for every name and number, and stop only where an entry of the list cannot be read.
pub directory-refines :
    (s : Fs) (p : ℕ)
    → (ds : List Dirent) × (e : Bool) × Reads s p 0 ds e
      × ((name : List ℕ) → testfs_dir_name_to_inode_nr p name s ≡ at s (found name ds e))
      × ((nr : ℕ) → testfs_find_dirent p nr s ≡ at s (found_nr nr ds e))
      × (empty_loop (rounds_for p s) p 0 s ≡ at s (vacant ds e))
unfolding testfs_dir_name_to_inode_nr testfs_find_dirent testfs_next_dirent assert_dir
directory-refines s p = elim (Bool-cases (same_int (s.inodes p).din.i_type (pos 2))) [
  | inr f ↦
      let none_read : Reads s p 0 [] false = stuck 0 (rw f refl) in
      (
        [],
        false,
        none_read,
        (λ name. rw f refl),
        (λ nr. rw f refl),
        empty_loop-vacant s p (rounds_for p s) 0 [] false none_read (omega arith),
      )
  | inl f ↦
      let (ds, e, r, short) = reads_from s p (rounds_for p s) 0 (omega arith) in
      let lt : length ds < rounds_for p s = omega (arith, short) in
      (
        ds,
        e,
        r,
        (λ name. rw f (name_loop-found s p (rounds_for p s) name 0 ds e r lt)),
        (λ nr. rw f (find_loop-found_nr s p (rounds_for p s) nr 0 ds e r lt)),
        empty_loop-vacant s p (rounds_for p s) 0 ds e r lt,
      )
]
