-- ===== src/Bitmap/Count.antt =====
-- `bitmap_nr_allocated` counts the bits in use, and follows each operation.
use native.Mathlib.Numerals.{add-one}
use operating_systems_lab.Base.{
  ℕ, zero, suc, ◌+◌, ◌<◌, ◌≡◌, sym, ap, subst, true, false, ltb, ◌==◌, ==_iff, if◌then◌else◌, arith,
  ok, inl, inr, Bool-cases, ◌≤◌, ◌∙◌, refl,
}
use operating_systems_lab.Bitmap.{Bitmap, count_loop, isset, nr_allocated, alloc, mark, unmark}
use operating_systems_lab.Bitmap.Valid.{bit_at, IsValid}
use operating_systems_lab.Bitmap.Alloc.{Allocated, alloc-Allocated}
use operating_systems_lab.Bitmap.Mark.{Gives, mark-Gives, unmark-Gives}

-- How many of the first `n` bits are set.
pub used_below : Bitmap → ℕ → ℕ
used_below b zero = 0
used_below b (suc n) = used_below b n + (if bit_at b n then 1 else 0)

used_below-add_one :
    (b : Bitmap) (i : ℕ)
    → (if isset b i == 0 then used_below b i else used_below b i + 1) ≡ used_below b (i + 1)
unfolding used_below isset
used_below-add_one b i = ground (arith, add-one i)

count_loop-used_below :
    (b : Bitmap) (n i j : ℕ) → i + n ≡ j → count_loop b n i (used_below b i) ≡ used_below b j
unfolding count_loop
count_loop-used_below b zero i j e = let e' : i ≡ j = omega arith in ap (used_below b) e'
count_loop-used_below b (suc n) i j e =
    rw used_below-add_one (count_loop-used_below b n (i + 1) j (omega arith))

nr_allocated-eq : (b : Bitmap) → nr_allocated b ≡ used_below b b.nbits
unfolding nr_allocated used_below
nr_allocated-eq b = count_loop-used_below b b.nbits 0 b.nbits (omega arith)

module _ (b b' : Bitmap) (i : ℕ) where
  used_below-set :
      bit_at b i ≡ false
      → ((k : ℕ) → bit_at b' k ≡ (if i == k then true else bit_at b k))
      → (n : ℕ) → used_below b' n ≡ used_below b n + (if ltb i n then 1 else 0)
  unfolding used_below
  used_below-set was h zero = ground arith
  used_below-set was h (suc n) = elim (Bool-cases (i == n)) [
    | inl e ↦
        let e' : i ≡ n = (==_iff i n).0 e in
        let was' = subst (λ x. bit_at b x ≡ false) e' was in
        ground (arith, h n, used_below-set was h n)
    | inr e ↦ ground (arith, h n, used_below-set was h n)
  ]

  pub nr_allocated-set :
      i < b.nbits
      → bit_at b i ≡ false
      → ((k : ℕ) → bit_at b' k ≡ (if i == k then true else bit_at b k))
      → b'.nbits ≡ b.nbits
      → nr_allocated b' ≡ nr_allocated b + 1
  nr_allocated-set lt was h same = ground (
    arith,
    nr_allocated-eq b,
    nr_allocated-eq b',
    ap (used_below b') same,
    used_below-set was h b.nbits,
  )

-- A bit that is cleared was set before: `bitmap_nr_allocated` falls by one.
nr_allocated-clear :
    (b b' : Bitmap) (i : ℕ)
    → i < b.nbits
    → bit_at b i ≡ true
    → ((k : ℕ) → bit_at b' k ≡ (if i == k then false else bit_at b k))
    → b'.nbits ≡ b.nbits
    → nr_allocated b' + 1 ≡ nr_allocated b
nr_allocated-clear b b' i lt was h same =
    sym (nr_allocated-set b' b i (omega arith) (ground (arith, h i)) (λ k. back k) (sym same))
  where
    back : (k : ℕ) → bit_at b k ≡ (if i == k then true else bit_at b' k)
    back k = elim (Bool-cases (i == k)) [
      | inl e ↦ let e' : i ≡ k = (==_iff i k).0 e in rw e (subst (λ x. bit_at b x ≡ true) e' was)
      | inr e ↦ ground (arith, h k)
    ]

module _ {b b' : Bitmap} (i : ℕ) (v : IsValid b) where
  -- An allocation from a valid bitmap raises `bitmap_nr_allocated` by one.
  pub nr_allocated-alloc : alloc b ≡ ok (i, b') → nr_allocated b' ≡ nr_allocated b + 1
  nr_allocated-alloc e =
      let h = subst (Allocated b) e (alloc-Allocated v) in nr_allocated-set b b' i h.0 h.1 h.3 h.4

  -- Marking a bit of a valid bitmap raises `bitmap_nr_allocated` by one.
  pub nr_allocated-mark : mark b i ≡ ok b' → nr_allocated b' ≡ nr_allocated b + 1
  nr_allocated-mark e =
      let h = subst (Gives true b i) e (mark-Gives v i) in nr_allocated-set b b' i h.0 h.1 h.2 h.3

  -- Unmarking a bit of a valid bitmap lowers `bitmap_nr_allocated` by one.
  pub nr_allocated-unmark : unmark b i ≡ ok b' → nr_allocated b' + 1 ≡ nr_allocated b
  nr_allocated-unmark e =
      let h = subst (Gives false b i) e (unmark-Gives v i) in
      nr_allocated-clear b b' i h.0 h.1 h.2 h.3

used_below-le : (b : Bitmap) (n : ℕ) → used_below b n ≤ n
unfolding used_below
used_below-le b zero = omega arith
used_below-le b (suc n) = ground (arith, used_below-le b n)

pub nr_allocated-le : (b : Bitmap) → nr_allocated b ≤ b.nbits
nr_allocated-le b = rw nr_allocated-eq (used_below-le b b.nbits)

used_below-clear :
    (b : Bitmap) (n : ℕ) → ((k : ℕ) → k < n → bit_at b k ≡ false) → used_below b n ≡ 0
unfolding used_below
used_below-clear b zero h = refl
used_below-clear b (suc n) h =
    ground (arith, h n (omega arith), used_below-clear b n (λ k lt. h k (omega arith)))

-- With every bit clear none is allocated.
pub nr_allocated-clear_all :
    (b : Bitmap) → ((k : ℕ) → k < b.nbits → bit_at b k ≡ false) → nr_allocated b ≡ 0
nr_allocated-clear_all b h = nr_allocated-eq b ∙ used_below-clear b b.nbits h
