-- ===== src/Server/Cache/Lru.antt =====
-- `upgrade_LRU_2`. `none` is a call that goes through a null pointer.
use operating_systems_lab.Base.{ℕ, Bool, Option, none, some, ◌==◌, if◌then◌else◌, same_name}
use operating_systems_lab.Server.Cache.{Cache, name_at, update}

abbrev pub set_next : Cache → ℕ → Option ℕ → Cache
set_next c e p = record c { elements = update c.elements e (record (c.elements e) { next = p }) }

abbrev pub set_pre : Cache → ℕ → Option ℕ → Cache
set_pre c e p = record c { elements = update c.elements e (record (c.elements e) { pre = p }) }

-- `LRU_tail->next = e; e->pre = LRU_tail; LRU_tail = LRU_tail->next;` on the tail given last
unfoldable pub append_entry : Cache → (e : ℕ) → Option ℕ → Option Cache
append_entry c e none = none
append_entry c e (some t) =
    some (record (set_pre (set_next c t (some e)) e (some t)) { lru_tail = some e })

-- The entry leaves its place: the link of the element before it, or the head `h`, whose `next` is
-- `n`.
unfoldable pub unlink_before : Cache → (e h n : ℕ) → Option ℕ → Option Cache
unlink_before c e h n pre =
    if same_name (name_at c h) (name_at c e)
    then some (set_pre (record c { lru_element = some n }) n none)
    else elim pre [ none ↦ none | some p ↦ some (set_next c p (c.elements e).next) ]

-- The tail moves to the element before it.
unfoldable pub retreat_tail : Cache → Option ℕ → Option Cache
retreat_tail c none = none
retreat_tail c (some p) = some (set_next (record c { lru_tail = some p }) p none)

-- The link of the element behind the entry, or the tail.
unfoldable pub unlink_after : (e : ℕ) → Option Cache → Option Cache
unfolding retreat_tail
unlink_after e none = none
unlink_after e (some c) = elim c.lru_tail [
  | none ↦ none
  | some t ↦
      if same_name (name_at c t) (name_at c e)
      then retreat_tail c (c.elements t).pre
      else elim (c.elements e).next [ none ↦ none | some n ↦ some (set_pre c n (c.elements e).pre) ]
]

-- The entry becomes the tail, and its `next` null.
unfoldable pub relink_last : (e : ℕ) → Option Cache → Option Cache
unfolding append_entry
relink_last e none = none
relink_last e (some c) = elim (append_entry c e c.lru_tail) [
  | none ↦ none
  | some c1 ↦ some (set_next c1 e none)
]

-- By `LRU_element` and the `next` of that.
unfoldable pub upgrade_from : Cache → (e : ℕ) → (inserting : Bool) → Option ℕ → Option Cache
unfolding append_entry unlink_before unlink_after relink_last
upgrade_from c e inserting none =
    some (record (set_pre (set_next (record c { lru_element = some e }) e none) e none) {
      lru_tail = some e;
    })
upgrade_from c e inserting (some h) = elim (c.elements h).next [
  | none ↦
      if (c.elements h).file == (c.elements e).file then some c else append_entry c e c.lru_tail
  | some n ↦
      if inserting
      then append_entry c e c.lru_tail
      else relink_last e (unlink_after e (unlink_before c e h n (c.elements e).pre))
]

unfoldable pub upgrade_lru : Cache → (e : ℕ) → (inserting : Bool) → Option Cache
unfolding upgrade_from
upgrade_lru c e inserting = upgrade_from c e inserting c.lru_element
