-- ===== src/Points.antt =====
-- warmup/point.c and warmup/sorted_points.c: points, and a list of points in the order of their
-- distance from the origin.
pub mod Sorted
pub mod Last
pub mod Removal
pub mod Removed
pub mod Tests
use operating_systems_lab.Base.{ℕ, Bool, if◌then◌else◌}
use operating_systems_lab.Base.Int.{ℤ, pos, negsuc}

-- What the code uses of `double` and of the mathematical library: `<`, `==`, `+`, `-`, and
-- `sqrt(pow(y, 2) + pow(x, 2))`.
pub record Doubles : Type 1 where
  pub Double : Type 0
  pub less : Double → Double → Bool
  pub equal : Double → Double → Bool
  pub add : Double → Double → Double
  pub sub : Double → Double → Double
  pub norm : (x y : Double) → Double

module _ (d : Doubles) where
  -- `struct point`
  pub record Point : Type 0 where
    pub x : d.Double
    pub y : d.Double

  unfoldable pub point_translate : Point → (x y : d.Double) → Point
  point_translate p x y = record { x = d.add p.x x; y = d.add p.y y }

  unfoldable pub point_distance : (p1 p2 : Point) → d.Double
  point_distance p1 p2 = d.norm (d.sub p2.x p1.x) (d.sub p2.y p1.y)

  unfoldable pub point_compare : (p1 p2 : Point) → ℤ
  point_compare p1 p2 =
      if d.less (d.norm p2.x p2.y) (d.norm p1.x p1.y)
      then pos 1
      else if d.equal (d.norm p1.x p1.y) (d.norm p2.x p2.y)
      then pos 0
      else if d.less (d.norm p1.x p1.y) (d.norm p2.x p2.y)
      then negsuc 0
      else pos 2
