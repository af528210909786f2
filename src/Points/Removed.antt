-- ===== src/Points/Removed.antt =====
-- What the removals from the list do.
use mathlib.Core.List.{append_assoc}
use operating_systems_lab.Base.{
  ℕ, ◌+◌, ◌≤◌, ◌≡◌, refl, sym, subst, ◌∙◌, true, false, List, [], ◌∷◌, ◌++◌, ◌==◌, ==_iff, length,
  length-append, inl, inr, Bool-cases, arith, zero, suc, ◌⊎◌,
}
use operating_systems_lab.Base.Int.{pos}
use operating_systems_lab.Points.{Doubles}
use operating_systems_lab.Points.Sorted.{PointNode}
use operating_systems_lab.Points.Removal.{
  Removed, nothing, removed, last_from, sp_remove_last, index_from, sp_remove_by_index, same_place,
  duplicates_from, sp_delete_duplicates,
}

module _ (d : Doubles) where
  -- The node at an index is gone, or the list is too short.
  abbrev pub RemovesAt : List (PointNode d) → (index : ℕ) → Removed d → Type 0
  RemovesAt nodes index nothing = length nodes ≤ index
  RemovesAt nodes index (removed p l) =
      (ls : List (PointNode d)) × (n : PointNode d) × (rs : List (PointNode d)) × (nodes
        ≡ ls ++ n ∷ rs)
      × (length ls ≡ index)
      × (p ≡ n.pt)
      × (l ≡ ls ++ rs)

  index_hit :
      (index : ℕ) (done : List (PointNode d)) (temp : PointNode d) (rest : List (PointNode d))
      → (length done == index) ≡ true
      → index_from d (length done) index done (temp ∷ rest) ≡ removed temp.pt (done ++ rest)
  unfolding index_from
  index_hit index done temp rest hit = ground (arith, hit)

  index_miss :
      (count index : ℕ) (done : List (PointNode d)) (temp : PointNode d) (rest : List (PointNode d))
      → (count == index) ≡ false
      → index_from d count index done (temp ∷ rest)
        ≡ index_from d (count + 1) index (done ++ temp ∷ []) rest
  unfolding index_from
  index_miss count index done temp rest miss = ground (arith, miss)

  index_from-RemovesAt :
      (nodes : List (PointNode d)) (index : ℕ) (done rest : List (PointNode d))
      → nodes ≡ done ++ rest
      → length done ≤ index
      → RemovesAt nodes index (index_from d (length done) index done rest)
  unfolding index_from
  index_from-RemovesAt nodes index done [] e le = rw (e) (ground (arith, length-append done []))
  index_from-RemovesAt nodes index done (temp ∷ rest) e le =
      elim (Bool-cases (length done == index)) [
        | inl hit ↦
            subst (RemovesAt nodes index) (sym (index_hit index done temp rest hit))
              (done, temp, rest, e, (==_iff (length done) index).0 hit, refl, refl)
        | inr miss ↦
            let longer : length (done ++ temp ∷ []) ≡ length done + 1 =
              ground (arith, length-append done (temp ∷ [])) in
            subst (RemovesAt nodes index) (sym (index_miss (length done) index done temp rest miss))
              (subst (λ c. RemovesAt nodes index (index_from d c index (done ++ temp ∷ []) rest))
                longer
                (index_from-RemovesAt nodes index (done ++ temp ∷ []) rest
                  (e ∙ sym (append_assoc done (temp ∷ []) rest)) (ground (arith, longer))))
      ]

  -- `sp_remove_by_index` takes exactly the node at the index out and stores its point, or returns 0
  -- if the list is too short.
  pub sp_remove_by_index-RemovesAt :
      (nodes : List (PointNode d)) (index : ℕ)
      → RemovesAt nodes index (sp_remove_by_index d nodes (pos index))
  unfolding sp_remove_by_index
  sp_remove_by_index-RemovesAt [] index = omega arith
  sp_remove_by_index-RemovesAt (temp ∷ rest) zero = ([], temp, rest, refl, refl, refl, refl)
  sp_remove_by_index-RemovesAt (temp ∷ rest) (suc n) =
      index_from-RemovesAt (temp ∷ rest) (suc n) [] (temp ∷ rest) refl (omega arith)

  abbrev pub RemovesLast : List (PointNode d) → Removed d → Type 0
  RemovesLast nodes nothing = nodes ≡ []
  RemovesLast nodes (removed p l) = (n : PointNode d) × (nodes ≡ l ++ n ∷ []) × (p ≡ n.pt)

  last_from-RemovesLast :
      (nodes done : List (PointNode d)) (temp : PointNode d) (rest : List (PointNode d))
      → nodes ≡ done ++ temp ∷ rest
      → RemovesLast nodes (last_from d done temp rest)
  unfolding last_from
  last_from-RemovesLast nodes done temp [] e = (temp, e, refl)
  last_from-RemovesLast nodes done temp (r ∷ rest) e =
      last_from-RemovesLast nodes (done ++ temp ∷ []) r rest
        (e ∙ sym (append_assoc done (temp ∷ []) (r ∷ rest)))

  -- `sp_remove_last` takes exactly the last node out and stores its point, or returns 0 if the list
  -- is empty.
  pub sp_remove_last-RemovesLast :
      (nodes : List (PointNode d)) → RemovesLast nodes (sp_remove_last d nodes)
  unfolding sp_remove_last
  sp_remove_last-RemovesLast [] = refl
  sp_remove_last-RemovesLast (temp ∷ rest) = last_from-RemovesLast (temp ∷ rest) [] temp rest refl

  -- Two nodes are at the same point, or differ in a coordinate.
  abbrev pub Same : PointNode d → PointNode d → Type 0
  Same n m = (d.equal n.pt.x m.pt.x ≡ true) × (d.equal n.pt.y m.pt.y ≡ true)

  abbrev pub Other : PointNode d → PointNode d → Type 0
  Other n m = (d.equal n.pt.x m.pt.x ≡ false) ⊎ (d.equal n.pt.y m.pt.y ≡ false)

  abbrev pub AllSame : PointNode d → List (PointNode d) → Type 0
  AllSame n [] = Unit
  AllSame n (m ∷ ms) = Same n m × AllSame n ms

  -- A list that is empty or starts with another point.
  abbrev pub Ends : PointNode d → List (PointNode d) → Type 0
  Ends n [] = Unit
  Ends n (m ∷ ms) = Other n m

  -- A list falls into runs, each a node and the longest part behind it at the same point; the second
  -- list has the first node of each run, in their order.
  pub data Runs : List (PointNode d) → List (PointNode d) → Type 0 where
    no_run : Runs [] []
    run :
        (n : PointNode d) (same rest firsts : List (PointNode d))
        → AllSame n same
        → Ends n rest
        → Runs rest firsts
        → Runs (n ∷ same ++ rest) (n ∷ firsts)

  -- No two neighbours are at the same point.
  abbrev pub Differ : List (PointNode d) → Type 0
  Differ [] = Unit
  Differ (n ∷ rest) = Ends n rest × Differ rest

  first_of :
      (n : PointNode d) {rest firsts : List (PointNode d)}
      → Runs rest firsts
      → Ends n rest
      → Ends n firsts
  first_of n no_run e = tt
  first_of n (run m same rest firsts all ends runs) e = e

  Runs-Differ : {nodes firsts : List (PointNode d)} → Runs nodes firsts → Differ firsts
  Runs-Differ no_run = tt
  Runs-Differ (run n same rest firsts all ends runs) = (first_of n runs ends, Runs-Differ runs)

  same_place-Same : (n m : PointNode d) → same_place d n m ≡ true → Same n m
  same_place-Same n m e = ground (arith, e)

  same_place-Other : (n m : PointNode d) → same_place d n m ≡ false → Other n m
  same_place-Other n m e = ground (arith, e)

  AllSame-append :
      (n m : PointNode d) (seen : List (PointNode d))
      → AllSame n seen
      → Same n m
      → AllSame n (seen ++ m ∷ [])
  AllSame-append n m [] all same = (same, tt)
  AllSame-append n m (x ∷ seen) (first, all) same = (first, AllSame-append n m seen all same)

  -- The count and the list that are left of `rest` behind `pre` and the nodes `seen` at its point.
  record Cleaned (count : ℕ) (pre : PointNode d) (seen rest : List (PointNode d))
      (r : ℕ × List (PointNode d)) : Type 0 where
    runs : Runs (pre ∷ seen ++ rest) r.1
    total : r.0 + length r.1 ≡ count + length rest + 1

  dropped :
      (count : ℕ) (pre temp : PointNode d) (rest : List (PointNode d))
      → same_place d pre temp ≡ true
      → duplicates_from d count pre (temp ∷ rest) ≡ duplicates_from d (count + 1) pre rest
  unfolding duplicates_from
  dropped count pre temp rest same = ground (arith, same)

  kept :
      (count : ℕ) (pre temp : PointNode d) (rest : List (PointNode d))
      → same_place d pre temp ≡ false
      → duplicates_from d count pre (temp ∷ rest)
        ≡ ((duplicates_from d count temp rest).0, pre ∷ (duplicates_from d count temp rest).1)
  unfolding duplicates_from
  kept count pre temp rest other = ground (arith, other)

  duplicates_from-Cleaned :
      (count : ℕ) (pre : PointNode d) (seen rest : List (PointNode d))
      → AllSame pre seen
      → Cleaned count pre seen rest (duplicates_from d count pre rest)
  unfolding duplicates_from
  duplicates_from-Cleaned count pre seen [] all = record {
    runs = run pre seen [] [] all tt no_run;
    total = omega arith;
  }
  duplicates_from-Cleaned count pre seen (temp ∷ rest) all =
      elim (Bool-cases (same_place d pre temp)) [
        | inl same ↦
            let next = AllSame-append pre temp seen all (same_place-Same pre temp same) in
            let ih = duplicates_from-Cleaned (count + 1) pre (seen ++ temp ∷ []) rest next in
            subst (Cleaned count pre seen (temp ∷ rest)) (sym (dropped count pre temp rest same))
              (record {
                runs =
                    subst (λ l. Runs (pre ∷ l) (duplicates_from d (count + 1) pre rest).1)
                      (append_assoc seen (temp ∷ []) rest) ih.runs;
                total = ground (arith, ih.total);
              })
        | inr other ↦
            let ih = duplicates_from-Cleaned count temp [] rest tt in
            subst (Cleaned count pre seen (temp ∷ rest)) (sym (kept count pre temp rest other))
              (record {
                runs = run pre seen (temp ∷ rest) _ all (same_place-Other pre temp other) ih.runs;
                total = ground (arith, ih.total);
              })
      ]

  -- `sp_delete_duplicates` leaves the first node of each run of nodes at the same point (with both
  -- coordinates equal to those of the first), in their order and no other node, so that no two
  -- neighbours are at the same point, and returns how many nodes are gone.
  pub sp_delete_duplicates-Runs :
      (nodes : List (PointNode d))
      → Runs nodes (sp_delete_duplicates d nodes).1
        × Differ (sp_delete_duplicates d nodes).1
        × ((sp_delete_duplicates d nodes).0 + length (sp_delete_duplicates d nodes).1
            ≡ length nodes)
  unfolding sp_delete_duplicates
  sp_delete_duplicates-Runs [] = (no_run, tt, refl)
  sp_delete_duplicates-Runs (pre ∷ rest) =
      let h = duplicates_from-Cleaned 0 pre [] rest tt in
      (h.runs, Runs-Differ h.runs, ground (arith, h.total))
