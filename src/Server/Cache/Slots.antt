-- ===== src/Server/Cache/Slots.antt =====
-- The probes of `cache_lookup` and of `cache_insert`, slot by slot.
use mathlib.Core.Option.{some-ne-none, some_inj}
use native.Mathlib.Nat.{mul-le-mul, mod-lt}
use operating_systems_lab.Base.{
  ℕ, zero, suc, ◌*◌, ◌^◌, ◌%◌, ◌<◌, ◌≤◌, ◌≡◌, refl, sym, subst, ap, ◌∙◌, true, false, Option, none,
  some, List, leb, ◌==◌, inl, inr, Option-cases, arith, same_name,
}
use operating_systems_lab.Server.Cache.{Cache, name_at}
use operating_systems_lab.Server.Cache.Probe.{Found, hit, missing, lookup_from, touch}
use operating_systems_lab.Server.Cache.Insert.{probe, is_null, place, Inserted}

-- The probes stay in the table, and their squares in an `int`.
pub record InTable (c : Cache) : Type 0 where
  pub some_slot : 0 < c.table_size
  pub small : c.table_size ≤ 46340

-- A file that is not in the table, and an element that is not in it.
pub record IsNew (c : Cache) (name : List ℕ) (e : ℕ) : Type 0 where
  pub new_name : (k x : ℕ) → c.hashtable k ≡ some x → same_name name (name_at c x) ≡ false
  pub new_element : (k x : ℕ) → c.hashtable k ≡ some x → (e == x) ≡ false

pub lookup_hit :
    (c : Cache) (name : List ℕ) (n key x : ℕ)
    → same_name name (name_at c x) ≡ true
    → lookup_from c name false (suc n) key (some x) ≡ hit x c
unfolding lookup_from touch
lookup_hit c name n key x same = ground (arith, same)

pub lookup_miss :
    (c : Cache) (name : List ℕ) (n key x : ℕ)
    → same_name name (name_at c x) ≡ false
    → leb (2 ^ 31) (key * key) ≡ false
    → lookup_from c name false (suc n) key (some x)
      ≡ lookup_from c name false n
          (key * key % c.table_size)
          (c.hashtable (key * key % c.table_size))
unfolding lookup_from
lookup_miss c name n key x other fits = ground (arith, other, fits)

pub lookup_wide :
    (c : Cache) (name : List ℕ) (n key x : ℕ)
    → same_name name (name_at c x) ≡ false
    → leb (2 ^ 31) (key * key) ≡ true
    → lookup_from c name false (suc n) key (some x) ≡ Found.broken
unfolding lookup_from
lookup_wide c name n key x other wide = ground (arith, other, wide)

abbrev pub hit_of : Found → Option ℕ
hit_of (hit x c) = some x
hit_of missing = none
hit_of Found.endless = none
hit_of Found.broken = none

abbrev pub IsNoHit : Found → Type 0
IsNoHit (hit x c) = ⊥
IsNoHit missing = Unit
IsNoHit Found.endless = Unit
IsNoHit Found.broken = Unit

pub not_hit : {f : Found} {x : ℕ} {c : Cache} → f ≡ hit x c → IsNoHit f → ⊥
not_hit e h = subst IsNoHit e h

pub place-none : (c : Cache) (file e : ℕ) → place c file e none ≡ Inserted.endless
unfolding place
place-none c file e = refl

pub probe_empty :
    (c : Cache) (n key : ℕ) → c.hashtable key ≡ none → probe is_null c (suc n) key ≡ some key
unfolding probe
probe_empty c n key e = rw (e, probe) refl

pub probe_full :
    (c : Cache) (n key x : ℕ)
    → c.hashtable key ≡ some x
    → probe is_null c (suc n) key ≡ probe is_null c n (key * key % c.table_size)
unfolding probe
probe_full c n key x e = rw (e, probe) refl

pub square_fits :
    (c : Cache) (key : ℕ) → InTable c → key < c.table_size → leb (2 ^ 31) (key * key) ≡ false
square_fits c key t lt =
    let k : key ≤ 46339 = omega (arith, lt, t.small) in
    let square : key * key ≤ 46339 * 46339 = mul-le-mul k k in ground (arith, square)

pub next_slot : (c : Cache) (key : ℕ) → InTable c → key * key % c.table_size < c.table_size
next_slot c key t = mod-lt (key * key) t.some_slot

pub probe-is_null :
    (c : Cache) (n k key : ℕ) → probe is_null c n k ≡ some key → c.hashtable key ≡ none
unfolding probe
probe-is_null c zero k key h = absurd (some-ne-none _ (sym h))
probe-is_null c (suc n) k key h = elim (Option-cases (c.hashtable k)) [
  | inl e ↦
      let same : k ≡ key = some_inj.0 (sym (probe_empty c n k e) ∙ h) in
      subst (λ j. c.hashtable j ≡ none) same e
  | inr (x, e) ↦ probe-is_null c n _ key (sym (probe_full c n k x e) ∙ h)
]

-- The probes of a name that is not in a table with no empty slot on the way.
pub probe-endless :
    (c : Cache) (name : List ℕ) (e n k : ℕ)
    → InTable c
    → IsNew c name e
    → k < c.table_size
    → probe is_null c (suc n) k ≡ none
    → lookup_from c name false n k (c.hashtable k) ≡ Found.endless
unfolding lookup_from
probe-endless c name e zero k t new lt h = elim (Option-cases (c.hashtable k)) [
  | inl f ↦ absurd (some-ne-none k (sym (probe_empty c zero k f) ∙ h))
  | inr (x, f) ↦ rw (f, lookup_from) refl
]
probe-endless c name e (suc n) k t new lt h = elim (Option-cases (c.hashtable k)) [
  | inl f ↦ absurd (some-ne-none k (sym (probe_empty c (suc n) k f) ∙ h))
  | inr (x, f) ↦
      ap (lookup_from c name false (suc n) k) f
      ∙ lookup_miss c name n k x (new.new_name k x f) (square_fits c k t lt)
      ∙ probe-endless c name e n _ t new (next_slot c k t) (sym (probe_full c (suc n) k x f) ∙ h)
]
