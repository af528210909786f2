-- ===== src/Server/Cache.antt =====
-- The cache of webserver/server_thread.c. Elements and file data are named by their addresses, a
-- null pointer is `none`; `malloc` gives an address that the caller passes.
pub mod Lru
pub mod Probe
pub mod Insert
pub mod Endless
pub mod Stored
pub mod Slots
pub mod Roundtrip
use operating_systems_lab.Base.{
  ℕ, ◌+◌, ◌*◌, ◌^◌, ◌%◌, Bool, true, false, ◌&&◌, Option, none, List, [], ◌∷◌, ltb, ◌==◌,
  if◌then◌else◌, ◌-◌,
}
use operating_systems_lab.Base.Int.{ℤ, pos}

-- `struct file_data`. A name is the bytes before the final 0; the buffer is empty where it is null.
pub record FileData : Type 0 where
  pub file_name : List ℕ
  pub file_buf : List ℕ
  pub file_size : ℕ

-- `struct element`, without the unused `rc`
pub record Element : Type 0 where
  pub file : ℕ
  pub next : Option ℕ
  pub pre : Option ℕ

-- What `free` is called on.
pub data Freed : Type 0 where
  file_data element : ℕ → Freed

-- `struct wc`, with the memory that it points into, and the calls of `free`, the latest first
pub record Cache : Type 0 where
  pub hashtable : ℕ → Option ℕ
  pub cache_size : ℕ
  pub remaining_cache_size : ℤ
  pub table_size : ℕ
  pub lru_element : Option ℕ
  pub lru_tail : Option ℕ
  pub elements : ℕ → Element
  pub files : ℕ → FileData
  pub frees : List Freed

-- The cache that `server_init` makes with `create_hash`.
unfoldable pub cache_init : (max_cache_size : ℕ) → (ℕ → Element) → (ℕ → FileData) → Cache
cache_init max_cache_size elements files = record {
  hashtable = λ k. none;
  cache_size = max_cache_size;
  remaining_cache_size = pos max_cache_size;
  table_size = max_cache_size * 11;
  lru_element = none;
  lru_tail = none;
  elements = elements;
  files = files;
  frees = [];
}

-- A `char` is signed: as an `unsigned long` it is the byte, or the byte less 256.
unfoldable pub sign_extend : ℕ → ℕ
sign_extend c = if ltb c 128 then c else c + (2 ^ 64 - 256)

unfoldable pub hash_from : (hash : ℕ) → List ℕ → ℕ
unfolding sign_extend
hash_from hash [] = hash
hash_from hash (c ∷ str) = hash_from ((hash * 2 ^ 5 + hash + sign_extend c) % 2 ^ 64) str

unfoldable pub hash : List ℕ → ℕ
unfolding hash_from
hash str = hash_from 5381 str

-- `e->file->file_name`, and the slot at which the probes for a name start
abbrev pub name_at : Cache → ℕ → List ℕ
name_at c e = (c.files (c.elements e).file).file_name

abbrev pub first_slot : Cache → List ℕ → ℕ
first_slot c name = hash name % c.table_size

abbrev pub update {ℓ} : {A : Type ℓ} → (ℕ → A) → ℕ → A → ℕ → A
update f i v j = if i == j then v else f j
