-- ===== src/Base/Failure.antt =====
-- What a C function does: it returns, it returns an error code, or it does not return in a
-- defined way (a failed assertion, or an access outside an array).

-- The codes of <errno.h> that the file system uses.
pub data Errno : Type 0 where
  enomem enospc enoent eexist einval eisdir enotdir enotempty efbig : Errno

pub data Outcome {ℓ} (A : Type ℓ) : Type ℓ where
  ok : A → Outcome A
  err : Errno → Outcome A
  fault : Outcome A

infixl 5 ◌>>=◌ ◌>>◌
abbrev pub ◌>>=◌ {ℓ κ} : {A : Type ℓ} {B : Type κ} → Outcome A → (A → Outcome B) → Outcome B
ok a >>= f = f a
err e >>= f = err e
fault >>= f = fault

abbrev pub ◌>>◌ {ℓ} : {B : Type ℓ} → Outcome (Unit {0}) → Outcome B → Outcome B
m >> k = m >>= λ _. k
