-- ===== src/Points/Last.antt =====
-- `sp_add_point` and the last node.
use mathlib.Core.List.{append_assoc}
use operating_systems_lab.Base.{
  ℕ, zero, suc, ◌+◌, ◌≤◌, ◌≡◌, refl, ap, ◌∙◌, true, List, [], ◌∷◌, ◌++◌, length, length-append,
  arith,
}
use operating_systems_lab.Points.{Doubles}
use operating_systems_lab.Points.Sorted.{
  PointNode, added, goes, new_node, round, add_loop, sp_add_point,
}

module _ (d : Doubles) where
  abbrev pub AllBelow : d.Double → List (PointNode d) → Type 0
  AllBelow r [] = Unit
  AllBelow r (n ∷ rest) = (d.less n.origin_dist r ≡ true) × AllBelow r rest

  -- A node that is nearer is passed.
  round_low :
      (new : PointNode d) (done : List (PointNode d)) (temp r : PointNode d)
      (rest : List (PointNode d))
      → d.less temp.origin_dist new.origin_dist ≡ true
      → round d new done temp r rest
        ≡ goes (record { done = done ++ temp ∷ []; temp = r; rest = rest })
  unfolding round
  round_low new done temp r rest low = ground (arith, low)

  pass_low :
      (new : PointNode d) (fuel : ℕ) (done : List (PointNode d)) (temp r : PointNode d)
      (rest : List (PointNode d))
      → d.less temp.origin_dist new.origin_dist ≡ true
      → add_loop d new (suc fuel) (goes (record { done = done; temp = temp; rest = r ∷ rest }))
        ≡ add_loop d new fuel (goes (record { done = done ++ temp ∷ []; temp = r; rest = rest }))
  unfolding add_loop
  pass_low new fuel done temp r rest low =
      ap (add_loop d new fuel) (round_low new done temp r rest low)

  add_loop-last :
      (new : PointNode d) (fuel : ℕ) (done : List (PointNode d)) (temp : PointNode d)
      (ls : List (PointNode d)) (n : PointNode d)
      → length ls + 2 ≤ fuel
      → d.less temp.origin_dist new.origin_dist ≡ true
      → AllBelow new.origin_dist ls
      → add_loop d new fuel (goes (record { done = done; temp = temp; rest = ls ++ n ∷ [] }))
        ≡ added (done ++ (temp ∷ (ls ++ n ∷ new ∷ [])))
  unfolding add_loop round
  add_loop-last new zero done temp ls n le low all = absurd (omega arith)
  add_loop-last new (suc zero) done temp ls n le low all = absurd (omega arith)
  add_loop-last new (suc (suc f)) done temp [] n le low all =
      pass_low new (suc f) done temp n [] low
      ∙ ap added (append_assoc done (temp ∷ []) (n ∷ new ∷ []))
  add_loop-last new (suc (suc f)) done temp (m ∷ ls) n le low all =
      pass_low new (suc f) done temp m (ls ++ n ∷ []) low
      ∙ add_loop-last new (suc f) (done ++ temp ∷ []) m ls n (omega arith) all.0 all.1
      ∙ ap added (append_assoc done (temp ∷ []) (m ∷ (ls ++ n ∷ new ∷ [])))

  -- `sp_add_point` puts a point that is farther than all but the last one behind the last one,
  -- whether that is nearer or not.
  pub sp_add_point-last :
      (ls : List (PointNode d)) (n : PointNode d) (x y : d.Double)
      → AllBelow (d.norm x y) ls
      → sp_add_point d (ls ++ n ∷ []) x y ≡ added (ls ++ n ∷ new_node d x y ∷ [])
  unfolding sp_add_point add_loop new_node
  sp_add_point-last [] n x y all = refl
  sp_add_point-last (m ∷ ls) n x y all =
      add_loop-last (new_node d x y) (length (m ∷ ls ++ n ∷ [])) [] m ls n
        (ground (arith, length-append ls (n ∷ []))) all.0 all.1
