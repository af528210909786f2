-- ===== src/Server/Request/Readfile.antt =====
-- When `request_readfile` of webserver/request.c gives the bytes of a file.
use mathlib.Core.Option.{some-ne-none}
use operating_systems_lab.Base.{
  ℕ, ◌^◌, ◌≤◌, ◌<◌, ◌≡◌, refl, Bool, true, false, not, ◌||◌, Bool-cases, Option-cases,
  if◌then◌else◌, inl, inr, Option, none, some, List, [], length, ltb, arith, ltb→lt, ap, ◌%◌, subst,
  sym, ◌∷◌,
}
use operating_systems_lab.Base.Text.{codes, contains, strrchr, take}
use operating_systems_lab.Server.Cache.{FileData}
use operating_systems_lab.Server.Request.{
  Sent, maxbuf, error_body, request_error, Stat, Read, refuse, is_absolute, is_source,
  read_contents, read_found, request_readfile,
}

-- Why a file is not served.
pub data Reason (name : List ℕ) : Option Stat → Type 0 where
  absolute : (o : Option Stat) → is_absolute name ≡ true → Reason name o
  parent : (o : Option Stat) → contains (codes "..") name ≡ true → Reason name o
  source : (o : Option Stat) → is_source (strrchr 46 name) ≡ true → Reason name o
  no_file : Reason name none
  unreadable : (st : Stat) → (not st.is_regular || not st.user_reads) ≡ true → Reason name (some st)

-- The outcomes for a request and what the host has under its name: the error is sent and the data
-- stays, the file is read, a part of it is read, the page of the error does not fit its buffer, or the
-- size of the file is negative as an `int`.
pub data Readfile (data_of : FileData) : Option Stat → Option Read → Type 0 where
  refused :
      (o : Option Stat) (errnum short long : List ℕ) (sent : Sent)
      → Reason data_of.file_name o
      → request_error data_of.file_name errnum short long ≡ some sent
      → Readfile data_of o (some (record { ret = false; data_after = data_of; sent = sent }))
  reads :
      (st : Stat)
      → is_absolute data_of.file_name ≡ false
      → contains (codes "..") data_of.file_name ≡ false
      → is_source (strrchr 46 data_of.file_name) ≡ false
      → (not st.is_regular || not st.user_reads) ≡ false
      → length st.contents < 2 ^ 31
      → Readfile data_of (some st) (
          some (record {
            ret = true;
            data_after = record data_of { file_buf = st.contents; file_size = length st.contents };
            sent = [];
          }))
  too_long :
      (o : Option Stat) (errnum short long : List ℕ)
      → Reason data_of.file_name o
      → maxbuf ≤ length (error_body data_of.file_name errnum short long)
      → Readfile data_of o none
  cut_short :
      (st : Stat)
      → is_absolute data_of.file_name ≡ false
      → contains (codes "..") data_of.file_name ≡ false
      → is_source (strrchr 46 data_of.file_name) ≡ false
      → (not st.is_regular || not st.user_reads) ≡ false
      → 2 ^ 32 ≤ length st.contents
      → Readfile data_of (some st) (
          some (record {
            ret = true;
            data_after = record data_of {
              file_buf = take (length st.contents % 2 ^ 32) st.contents;
              file_size = length st.contents % 2 ^ 32;
            };
            sent = [];
          }))
  too_large :
      (st : Stat)
      → 2 ^ 31 ≤ length st.contents
      → 2 ^ 31 ≤ length st.contents % 2 ^ 32
      → Readfile data_of (some st) none

take-all : {A : Type 0} (xs : List A) → take (length xs) xs ≡ xs
take-all [] = refl
take-all (x ∷ xs) = ap (λ ys. x ∷ ys) (take-all xs)

if-none : {A : Type 0} (b : Bool) (a : A) → (if b then some a else none) ≡ none → b ≡ false
if-none true a h = absurd (some-ne-none _ h)
if-none false a h = refl

request_error-long :
    (cause errnum short long : List ℕ)
    → request_error cause errnum short long ≡ none
    → maxbuf ≤ length (error_body cause errnum short long)
unfolding request_error
request_error-long cause errnum short long h =
    let e = if-none (ltb (length (error_body cause errnum short long)) maxbuf) _ h in
    at_least (length (error_body cause errnum short long)) e
  where
    at_least : (n : ℕ) → ltb n maxbuf ≡ false → maxbuf ≤ n
    at_least n e = ground (arith, e)

module _ (data_of : FileData) where
  refuse-Readfile :
      (o : Option Stat) (errnum short long : List ℕ)
      → Reason data_of.file_name o
      → Readfile data_of o (refuse data_of errnum short long)
  unfolding refuse
  refuse-Readfile o errnum short long reason =
      let name = data_of.file_name in
      elim (Option-cases (request_error name errnum short long)) [
        | inl e ↦
            rw (e, refuse)
              (too_long o errnum short long reason (request_error-long name errnum short long e))
        | inr (sent, e) ↦ rw (e, refuse) (refused o errnum short long sent reason e)
      ]

  read_contents-Readfile :
      (st : Stat)
      → is_absolute data_of.file_name ≡ false
      → contains (codes "..") data_of.file_name ≡ false
      → is_source (strrchr 46 data_of.file_name) ≡ false
      → (not st.is_regular || not st.user_reads) ≡ false
      → Readfile data_of (some st) (read_contents data_of st)
  unfolding read_contents
  read_contents-Readfile st a b c d =
      let n = length st.contents in
      elim (Bool-cases (ltb n (2 ^ 32))) [
        | inl small ↦
            let e : n % 2 ^ 32 ≡ n = ground (arith, small) in
            elim (Bool-cases (ltb n (2 ^ 31))) [
              | inl f ↦
                  rw (e, f, read_contents, take-all st.contents) (reads st a b c d (ltb→lt _ _ f))
              | inr f ↦
                  let low : 2 ^ 31 ≤ n = ground (arith, f) in
                  rw (e, f, read_contents) (too_large st low (subst (λ m. 2 ^ 31 ≤ m) (sym e) low))
            ]
        | inr large ↦
            let big : 2 ^ 32 ≤ n = ground (arith, large) in
            elim (Bool-cases (ltb (n % 2 ^ 32) (2 ^ 31))) [
              | inl f ↦ rw (f, read_contents) (cut_short st a b c d big)
              | inr f ↦
                  rw (f, read_contents) (too_large st (omega (arith, big)) (ground (arith, f)))
            ]
      ]

  read_found-Readfile :
      is_absolute data_of.file_name ≡ false
      → contains (codes "..") data_of.file_name ≡ false
      → is_source (strrchr 46 data_of.file_name) ≡ false
      → (o : Option Stat) → Readfile data_of o (read_found data_of o)
  unfolding read_found
  read_found-Readfile a b c none = refuse-Readfile none _ _ _ no_file
  read_found-Readfile a b c (some st) = elim (Bool-cases (not st.is_regular || not st.user_reads)) [
    | inl e ↦ rw (e, read_found) (refuse-Readfile (some st) _ _ _ (unreadable st e))
    | inr e ↦ rw (e, read_found) (read_contents-Readfile st a b c e)
  ]

  -- For every name and every state of the host: `request_readfile` gives the bytes of a file only if its
  -- name does not start with `/`, has no `..` and does not end in `.c` or `.h`, and the host has it as a
  -- regular file that its user may read; then it gives all of them, with their number, and sends nothing.
  -- Of a file of 2^32 bytes or more it gives as many of the first bytes as the low 32 bits of the size
  -- say. Otherwise it sends an error for one of these reasons and leaves the data as it was. It fails
  -- only if the page of that error does not fit its buffer, or the size of the file and its low 32
  -- bits are 2^31 or more.
  pub request_readfile-Readfile :
      (disk : List ℕ → Option Stat)
      → Readfile data_of (disk data_of.file_name) (request_readfile disk data_of)
  unfolding request_readfile
  request_readfile-Readfile disk =
      let name = data_of.file_name in
      elim (Bool-cases (is_absolute name)) [
        | inl e ↦ rw (e, request_readfile) (refuse-Readfile _ _ _ _ (absolute _ e))
        | inr e ↦ elim (Bool-cases (contains (codes "..") name)) [
          | inl f ↦ rw (e, f, request_readfile) (refuse-Readfile _ _ _ _ (parent _ f))
          | inr f ↦ elim (Bool-cases (is_source (strrchr 46 name))) [
            | inl g ↦ rw (e, f, g, request_readfile) (refuse-Readfile _ _ _ _ (source _ g))
            | inr g ↦ rw (e, f, g, request_readfile) (read_found-Readfile e f g (disk name))
          ]
        ]
      ]
