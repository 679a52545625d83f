-- ===== src/Game/Geometry.antt =====
-- The metric part of internal/game/aoi.go and world.go: configuration, local coordinates, cells
-- and radii. float64 is the parameter `fl`; every constant is written as its literal.
use map_walker.Prelude.{◌≡◌, Bool, true, ◌&&◌, List, [], ◌∷◌, ◌↔◌, arith}
use map_walker.Prelude.Int.{ℤ, pos, negsuc, ◌+ℤ◌}
use map_walker.Prelude.Eq.{Eq, int_beq, int_beq_iff}
use map_walker.Prelude.Float.{Float64}

pub record CellCoord : Type 0 where
  pub x : ℤ
  pub y : ℤ

abbrev pub cell_beq : CellCoord → CellCoord → Bool
cell_beq c d = int_beq c.x d.x && int_beq c.y d.y

pub cell_beq_iff : (c d : CellCoord) → (cell_beq c d ≡ true) ↔ (c ≡ d)
cell_beq_iff c d = (
  λ h. ground (arith, int_beq_iff c.x d.x, int_beq_iff c.y d.y),
  λ h. ground (arith, int_beq_iff c.x d.x, int_beq_iff c.y d.y),
)

instance abbrev pub cell_eq : Eq CellCoord
cell_eq = record { beq = cell_beq; beq_iff = cell_beq_iff }

-- The loops `for dx := -1; dx <= 1` and `for dy := -1; dy <= 1` around a cell.
unfoldable pub nine_cells : CellCoord → List CellCoord
unfolding ◌+ℤ◌
nine_cells c = at m m ∷ at m z ∷ at m p ∷ at z m ∷ at z z ∷ at z p ∷ at p m ∷ at p z ∷ at p p ∷ []
  where
    m : ℤ
    m = negsuc 0

    z : ℤ
    z = pos 0

    p : ℤ
    p = pos 1

    at : ℤ → ℤ → CellCoord
    at dx dy = record { x = c.x +ℤ dx; y = c.y +ℤ dy }

-- `Config` of world.go.
pub record Config (F : Type 0) : Type 0 where
  pub spawn_lat : F
  pub spawn_lng : F
  pub speed_meters_per_second : F

pub record AoiConfig (F : Type 0) : Type 0 where
  pub origin_lat : F
  pub origin_lng : F
  pub cell_size_meters : F
  pub enter_radius_meters : F
  pub leave_radius_meters : F
  pub enter_rescan_distance_meters : F

module _ ⦃fl : Float64⦄ where
  open fl use {F, pi, lit, fadd, fsub, fmul, fdiv, fleb, fltb, floor, cos}

  abbrev pub meters_per_degree_latitude : F
  meters_per_degree_latitude = lit 111320 1

  abbrev pub meters_per_degree_longitude : F → F
  meters_per_degree_longitude latitude =
      fmul meters_per_degree_latitude (cos (fdiv (fmul latitude pi) (lit 180 1)))

  abbrev pub default_config : Config F
  default_config = record {
    spawn_lat = lit 312304 10000;
    spawn_lng = lit 1214737 10000;
    speed_meters_per_second = lit 60 1;
  }

  unfoldable pub aoi_config_from_world : Config F → AoiConfig F
  aoi_config_from_world config = record {
    origin_lat = config.spawn_lat;
    origin_lng = config.spawn_lng;
    cell_size_meters = lit 600 1;
    enter_radius_meters = lit 500 1;
    leave_radius_meters = lit 600 1;
    enter_rescan_distance_meters = lit 50 1;
  }

  unfoldable pub lat_lng_to_local : AoiConfig F → F → F → F × F
  lat_lng_to_local c lat lng = (
    fmul (fsub lng c.origin_lng) (meters_per_degree_longitude c.origin_lat),
    fmul (fsub lat c.origin_lat) meters_per_degree_latitude,
  )

  unfoldable pub local_to_cell : AoiConfig F → F → F → CellCoord
  local_to_cell c local_x local_y = record {
    x = floor (fdiv local_x c.cell_size_meters);
    y = floor (fdiv local_y c.cell_size_meters);
  }

  unfoldable pub local_to_lat_lng : AoiConfig F → F → F → F × F
  local_to_lat_lng c local_x local_y = (
    fadd c.origin_lat (fdiv local_y meters_per_degree_latitude),
    fadd c.origin_lng (fdiv local_x (meters_per_degree_longitude c.origin_lat)),
  )

  abbrev pub enter_radius_squared : AoiConfig F → F
  enter_radius_squared c = fmul c.enter_radius_meters c.enter_radius_meters

  abbrev pub leave_radius_squared : AoiConfig F → F
  leave_radius_squared c = fmul c.leave_radius_meters c.leave_radius_meters

  abbrev pub enter_rescan_distance_squared : AoiConfig F → F
  enter_rescan_distance_squared c =
      fmul c.enter_rescan_distance_meters c.enter_rescan_distance_meters

  -- dx*dx + dy*dy between two local positions.
  abbrev pub square_distance : F → F → F → F → F
  square_distance x y u v = fadd (fmul dx dx) (fmul dy dy)
    where
      dx : F
      dx = fsub x u

      dy : F
      dy = fsub y v
