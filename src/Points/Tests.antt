-- ===== src/Points/Tests.antt =====
-- The list of points over natural numbers in place of `double`.
use operating_systems_lab.Base.{ℕ, ◌+◌, ◌-◌, ◌≡◌, [], ◌∷◌, ltb, ◌==◌}
use operating_systems_lab.Base.Int.{pos}
use operating_systems_lab.Points.{Doubles}
use operating_systems_lab.Points.Sorted.{PointNode, added, new_node, sp_add_point}
use operating_systems_lab.Points.Removal.{sp_remove_by_index, sp_delete_duplicates}
use operating_systems_lab.Points.Removed.{
  RemovesAt, Differ, Runs, sp_remove_by_index-RemovesAt, sp_delete_duplicates-Runs,
}
use operating_systems_lab.Points.Last.{sp_add_point-last}
use operating_systems_lab.Base.{length}

-- Points on the axes have the sum of their coordinates as their distance.
abbrev naturals : Doubles
naturals = record {
  Double = ℕ;
  less = ltb;
  equal = λ a b. a == b;
  add = λ a b. a + b;
  sub = λ a b. a - b;
  norm = λ x y. x + y;
}

abbrev at : ℕ → PointNode naturals
at x = record { pt = record { x = x; y = 0 }; origin_dist = x + 0 }

-- The distance 1 comes behind the distance 5.
added_last : sp_add_point naturals (at 5 ∷ []) 1 0 ≡ added (at 5 ∷ new_node naturals 1 0 ∷ [])
added_last = sp_add_point-last naturals [] (at 5) 1 0 tt

sp_remove_by_index-RemovesAt_example :
    RemovesAt naturals
      (at 1 ∷ at 2 ∷ at 3 ∷ [])
      1
      (sp_remove_by_index naturals (at 1 ∷ at 2 ∷ at 3 ∷ []) (pos 1))
sp_remove_by_index-RemovesAt_example =
    sp_remove_by_index-RemovesAt naturals (at 1 ∷ at 2 ∷ at 3 ∷ []) 1

sp_delete_duplicates-Runs_example :
    Runs naturals
      (at 1 ∷ at 1 ∷ at 2 ∷ [])
      (sp_delete_duplicates naturals (at 1 ∷ at 1 ∷ at 2 ∷ [])).1
    × Differ naturals (sp_delete_duplicates naturals (at 1 ∷ at 1 ∷ at 2 ∷ [])).1
    × ((sp_delete_duplicates naturals (at 1 ∷ at 1 ∷ at 2 ∷ [])).0
          + length (sp_delete_duplicates naturals (at 1 ∷ at 1 ∷ at 2 ∷ [])).1
        ≡ 3)
sp_delete_duplicates-Runs_example = sp_delete_duplicates-Runs naturals (at 1 ∷ at 1 ∷ at 2 ∷ [])
