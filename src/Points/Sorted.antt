-- ===== src/Points/Sorted.antt =====
-- `sp_add_point`: the list from the head on is `done ++ temp ∷ rest`, with `temp` the node that the
-- code looks at and `pre` the last of `done`. `stuck` is a write through a null `pre`, or a loop that
-- runs out of fuel.
use operating_systems_lab.Base.{
  ℕ, zero, suc, Bool, true, false, not, ◌&&◌, List, [], ◌∷◌, ◌++◌, length, if◌then◌else◌,
}
use operating_systems_lab.Points.{Doubles, Point}

module _ (d : Doubles) where
  -- `struct point_node`, without the link
  pub record PointNode : Type 0 where
    pub pt : Point d
    pub origin_dist : d.Double

  unfoldable pub new_node : (x y : d.Double) → PointNode
  new_node x y = record { pt = record { x = x; y = y }; origin_dist = d.norm x y }

  -- Where the walk stands.
  pub record Spot : Type 0 where
    pub done : List (PointNode)
    pub temp : PointNode
    pub rest : List (PointNode)

  -- What a round of the loop does: the point is in the list, or the loop goes on from a spot.
  pub data Round : Type 0 where
    added : List (PointNode) → Round
    goes : Spot → Round
    stuck : Round

abbrev is_nil {ℓ} : {A : Type ℓ} → List A → Bool
is_nil [] = true
is_nil (x ∷ xs) = false

module _ (d : Doubles) (new : PointNode d) where
  -- The new node before `temp`, by the head or by `pre`, and behind `temp`.
  abbrev pub before : Spot d → List (PointNode d)
  before s = s.done ++ new ∷ s.temp ∷ s.rest

  abbrev pub behind : Spot d → List (PointNode d)
  behind s = s.done ++ s.temp ∷ new ∷ s.rest

  -- The inner loops: on while there is a next node and `test` holds.
  unfoldable pub walk :
      (test : PointNode d → Bool)
      → (done : List (PointNode d)) → PointNode d
      → (rest : List (PointNode d)) → Spot d
  walk test done temp [] = record { done = done; temp = temp; rest = [] }
  walk test done temp (r ∷ rest) = elim (test temp) [
    | true ↦ walk test (done ++ temp ∷ []) r rest
    | false ↦ record { done = done; temp = temp; rest = r ∷ rest }
  ]

  abbrev pub less_x : PointNode d → Bool
  less_x temp = d.equal new.origin_dist temp.origin_dist && d.less temp.pt.x new.pt.x

  abbrev pub less_y : PointNode d → Bool
  less_y temp = d.equal new.origin_dist temp.origin_dist && d.less temp.pt.y new.pt.y

  -- Behind an inner loop at a node that differs: at the end of the list, or before `temp` by `pre`.
  unfoldable pub after_walk : (larger : Bool) → Spot d → Round d
  after_walk larger s =
      if is_nil s.rest && larger
      then added (behind s)
      else if is_nil s.done
      then stuck
      else added (before s)

  unfoldable pub same_point : Spot d → Round d
  same_point s =
      if d.equal new.pt.x s.temp.pt.x && d.equal new.pt.y s.temp.pt.y
      then added (before s)
      else goes s

  unfoldable pub after_y : Spot d → Round d
  unfolding after_walk same_point
  after_y s =
      if not (d.equal new.pt.y s.temp.pt.y)
      then after_walk (d.less s.temp.pt.y new.pt.y) s
      else same_point s

  unfoldable pub tie_y : Spot d → Round d
  unfolding after_y same_point walk
  tie_y s =
      if d.less new.pt.y s.temp.pt.y
      then added (before s)
      else if d.less s.temp.pt.y new.pt.y
      then after_y (walk less_y s.done s.temp s.rest)
      else same_point s

  unfoldable pub after_x : Spot d → Round d
  unfolding after_walk tie_y
  after_x s =
      if not (d.equal new.pt.x s.temp.pt.x)
      then after_walk (d.less s.temp.pt.x new.pt.x) s
      else tie_y s

  unfoldable pub tie : Spot d → Round d
  unfolding after_x tie_y walk
  tie s =
      if d.less new.pt.x s.temp.pt.x
      then added (before s)
      else if d.less s.temp.pt.x new.pt.x
      then after_x (walk less_x s.done s.temp s.rest)
      else tie_y s

  -- A round of the outer loop, at a node that is not the last.
  unfoldable pub round :
      (done : List (PointNode d)) → PointNode d → PointNode d → List (PointNode d) → Round d
  unfolding tie
  round done temp r rest =
      let s : Spot d = record { done = done; temp = temp; rest = r ∷ rest } in
      if d.less temp.origin_dist new.origin_dist
      then goes (record { done = done ++ temp ∷ []; temp = r; rest = rest })
      else if d.less new.origin_dist temp.origin_dist
      then added (before s)
      else tie s

  -- The outer loop; the last node is not compared with, the new one goes behind it.
  unfoldable pub add_loop : (fuel : ℕ) → Round d → Round d
  unfolding round
  add_loop fuel (added l) = added l
  add_loop fuel stuck = stuck
  add_loop zero (goes s) = stuck
  add_loop (suc n) (goes s) = elim s.rest [
    | [] ↦ added (behind s)
    | r ∷ rest ↦ add_loop n (round s.done s.temp r rest)
  ]

module _ (d : Doubles) where
  unfoldable pub sp_init : List (PointNode d)
  sp_init = []

  unfoldable pub sp_add_point : List (PointNode d) → (x y : d.Double) → Round d
  unfolding new_node add_loop
  sp_add_point [] x y = added (new_node d x y ∷ [])
  sp_add_point (temp ∷ rest) x y =
      add_loop d (new_node d x y) (length (temp ∷ rest))
        (goes (record { done = []; temp = temp; rest = rest }))
