-- ===== src/Points/Removal.antt =====
-- `sp_remove_first`, `sp_remove_last`, `sp_remove_by_index` and `sp_delete_duplicates`.
use operating_systems_lab.Base.{
  ℕ, ◌+◌, Bool, true, false, ◌&&◌, List, [], ◌∷◌, ◌++◌, ◌==◌, zero, suc,
}
use operating_systems_lab.Base.Int.{ℤ, pos, negsuc}
use operating_systems_lab.Points.{Doubles, Point}
use operating_systems_lab.Points.Sorted.{PointNode}

module _ (d : Doubles) where
  -- The result 0, or 1 with `*ret` and the list that is left.
  pub data Removed : Type 0 where
    nothing : Removed
    removed : Point d → List (PointNode d) → Removed

  unfoldable pub sp_remove_first : List (PointNode d) → Removed
  sp_remove_first [] = nothing
  sp_remove_first (temp ∷ rest) = removed temp.pt rest

  -- The loop of `sp_remove_last`, with the nodes up to `pre`.
  unfoldable pub last_from :
      (done : List (PointNode d)) → PointNode d → List (PointNode d) → Removed
  last_from done temp [] = removed temp.pt done
  last_from done temp (r ∷ rest) = last_from (done ++ temp ∷ []) r rest

  unfoldable pub sp_remove_last : List (PointNode d) → Removed
  unfolding last_from
  sp_remove_last [] = nothing
  sp_remove_last (temp ∷ rest) = last_from [] temp rest

  -- The loop of `sp_remove_by_index`
  unfoldable pub index_from :
      (count index : ℕ) → (done : List (PointNode d)) → List (PointNode d) → Removed
  index_from count index done [] = nothing
  index_from count index done (temp ∷ rest) = elim (count == index) [
    | true ↦ removed temp.pt (done ++ rest)
    | false ↦ index_from (count + 1) index (done ++ temp ∷ []) rest
  ]

  unfoldable pub sp_remove_by_index : List (PointNode d) → (index : ℤ) → Removed
  unfolding index_from
  sp_remove_by_index nodes (negsuc k) = nothing
  sp_remove_by_index [] (pos index) = nothing
  sp_remove_by_index (temp ∷ rest) (pos zero) = removed temp.pt rest
  sp_remove_by_index (temp ∷ rest) (pos (suc n)) = index_from 0 (suc n) [] (temp ∷ rest)

  abbrev pub same_place : (pre temp : PointNode d) → Bool
  same_place pre temp = d.equal pre.pt.x temp.pt.x && d.equal pre.pt.y temp.pt.y

  -- The loop of `sp_delete_duplicates`: the count and the list from `pre` on.
  unfoldable pub duplicates_from :
      (count : ℕ) → (pre : PointNode d) → List (PointNode d) → ℕ × List (PointNode d)
  duplicates_from count pre [] = (count, pre ∷ [])
  duplicates_from count pre (temp ∷ rest) = elim (same_place pre temp) [
    | true ↦ duplicates_from (count + 1) pre rest
    | false ↦ let (c, l) = duplicates_from count temp rest in (c, pre ∷ l)
  ]

  unfoldable pub sp_delete_duplicates : List (PointNode d) → ℕ × List (PointNode d)
  unfolding duplicates_from
  sp_delete_duplicates [] = (0, [])
  sp_delete_duplicates (pre ∷ rest) = duplicates_from 0 pre rest
