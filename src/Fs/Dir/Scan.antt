-- ===== src/Fs/Dir/Scan.antt =====
-- The entries of a directory, as `testfs_next_dirent` gives them from an offset on, and how far it moves.
use operating_systems_lab.Base.{
  ℕ, ◌+◌, ◌<◌, ◌≤◌, Option, none, some, ltb, leb, arith, Bool-cases, inl, inr,
}
use operating_systems_lab.Base.Int.{ℤ, pos, negsuc}
use operating_systems_lab.Fs.Bytes.{Buffer, zeros, int_at}
use operating_systems_lab.Fs.State.{Fs, M, ◌>>=◌, bind}
use operating_systems_lab.Fs.ReadWrite.Kept.{Kept, stopped, kept, testfs_read_data-Kept}
use operating_systems_lab.Fs.ReadWrite.Read.{testfs_read_data}
use operating_systems_lab.Fs.Dir.{
  Dirent, dirent_size, same_int, assert_dir, named, with_name, with_header, testfs_next_dirent,
}

-- What `testfs_next_dirent` gives at offset `o` of a directory of `size` bytes: nothing, or an entry, which
-- starts in the directory and ends nine bytes further or more. The state is as before.
pub data Steps (s : Fs) (size o : ℕ) : Option ((Option Dirent × ℕ) × Fs) → Type 0 where
  stops : Steps s size o none
  ends : (o' : ℕ) → Steps s size o (some ((none, o'), s))
  moves : (d : Dirent) (o' : ℕ) → o < size → o + 9 ≤ o' → Steps s size o (some ((some d, o'), s))

-- A step that changes nothing, and what follows it.
then-Steps :
    {s : Fs} {size o : ℕ} {A : Type 0} (m : M A) (f : A → M (Option Dirent × ℕ))
    → Kept s (m s)
    → ((a : A) → Steps s size o (f a s))
    → Steps s size o ((m >>= f) s)
then-Steps {s} {size} {o} {A} m f h k = go (m s) h
  where
    go : (r : Option (A × Fs)) → Kept s r → Steps s size o (bind r f)
    go none stopped = stops
    go (some (a, s')) (kept b) = k b

module _ (s : Fs) (p o size : ℕ) (lt : o < size) where
  named-Steps : (len : ℕ) (nr : ℤ) (r : ℤ × Buffer) → 0 < len → Steps s size o (named o len nr r s)
  unfolding named
  named-Steps len nr (negsuc k, b) h = ends _
  named-Steps len nr (pos n, b) h = moves _ _ lt (omega (arith, h))

  with_name-Steps : (nr len : ℤ) → Steps s size o (with_name p o nr len s)
  unfolding with_name
  with_name-Steps nr (negsuc k) = stops
  with_name-Steps nr (pos len) = elim (Bool-cases (ltb 0 len)) [
    | inl e ↦ rw e (
        then-Steps (testfs_read_data p zeros (o + dirent_size) len) (named o len nr)
          (testfs_read_data-Kept s p zeros (o + dirent_size) len)
          (λ r. named-Steps len nr r (ground (arith, e))))
    | inr e ↦ rw e stops
  ]

  with_header-Steps : (r : ℤ × Buffer) → Steps s size o (with_header p o r s)
  unfolding with_header
  with_header-Steps (negsuc k, b) = ends _
  with_header-Steps (pos n, b) = with_name-Steps (int_at b 1) (int_at b 0)

pub testfs_next_dirent-Steps :
    (s : Fs) (p o : ℕ) → Steps s (s.inodes p).din.i_size o (testfs_next_dirent p o s)
unfolding testfs_next_dirent assert_dir
testfs_next_dirent-Steps s p o = elim (Bool-cases (same_int (s.inodes p).din.i_type (pos 2))) [
  | inr e ↦ rw e stops
  | inl e ↦ elim (Bool-cases (leb (s.inodes p).din.i_size o)) [
    | inl f ↦ rw (e, f) (ends _)
    | inr f ↦
        rw (e, f)
          (then-Steps (testfs_read_data p zeros o dirent_size) (with_header p o)
            (testfs_read_data-Kept s p zeros o dirent_size)
            (with_header-Steps s p o (s.inodes p).din.i_size (ground (arith, f))))
  ]
]
