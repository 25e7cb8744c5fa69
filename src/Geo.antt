-- ===== src/Geo.antt =====
-- Positions and distances (backend/src/lib/geo.ts), over an abstract floating point.
-- `Float` is the language's `number`: its operations are parameters, with no law assumed, so every
-- theorem holds for the rounding, infinities and NaN that the real operations have.
use eki.Prelude.{ℕ, Bool, not, ◌&&◌, ◌||◌, if◌then◌else◌}

-- The language's numbers, their comparisons (false on NaN) and the functions of `Math`.
pub record Float : Type 1 where
  pub Num : Type 0
  pub lit : ℕ → Num
  pub neg : Num → Num
  pub add : Num → Num → Num
  pub sub : Num → Num → Num
  pub mul : Num → Num → Num
  pub div : Num → Num → Num
  pub lt : Num → Num → Bool
  pub le : Num → Num → Bool
  pub num_eq : Num → Num → Bool
  pub is_finite : Num → Bool
  pub is_safe_integer : Num → Bool
  pub infinity : Num
  pub pi : Num
  pub floor : Num → Num
  pub abs : Num → Num
  pub sqrt : Num → Num
  pub sin : Num → Num
  pub cos : Num → Num
  pub atan2 : Num → Num → Num
  pub hypot : Num → Num → Num
  pub minimum : Num → Num → Num
  pub maximum : Num → Num → Num
  -- The operator `%`, `Number.EPSILON`, and `Number(x.toFixed(digits))`.
  pub rem : Num → Num → Num
  pub epsilon : Num
  pub to_fixed : ℕ → Num → Num

pub record LatLng (N : Type 0) : Type 0 where
  pub lat : N
  pub lng : N

module _ (F : Float) where
  open F use {
    Num, lit, add, sub, mul, div, lt, le, num_eq, is_finite, infinity, pi, abs, sqrt, sin, cos,
    atan2, hypot, minimum, maximum,
  }

  unfoldable pub to_radians : Num → Num
  to_radians degrees = div (mul degrees pi) (lit 180)

  -- `[a.lat, a.lng, b.lat, b.lng].every(Number.isFinite)` and the bounds on a coordinate.
  unfoldable pub off_globe : LatLng Num → LatLng Num → Bool
  off_globe a b =
      not (is_finite a.lat && (is_finite a.lng && (is_finite b.lat && is_finite b.lng)))
      || (lt (lit 90) (abs a.lat)
          || (lt (lit 90) (abs b.lat) || (lt (lit 180) (abs a.lng) || lt (lit 180) (abs b.lng))))

  unfoldable pub haversine_meters : LatLng Num → LatLng Num → Num
  unfolding off_globe to_radians
  haversine_meters a b =
      let delta_lat = to_radians (sub b.lat a.lat) in
      let delta_lng = to_radians (sub b.lng a.lng) in
      let sin_lat = sin (div delta_lat (lit 2)) in
      let sin_lng = sin (div delta_lng (lit 2)) in
      let haversine =
        add (mul sin_lat sin_lat)
          (mul (mul (mul (cos (to_radians a.lat)) (cos (to_radians b.lat))) sin_lng) sin_lng) in
      let bounded = minimum (lit 1) (maximum (lit 0) haversine) in
      if off_globe a b
      then infinity
      else mul (mul (lit 6_371_000) (lit 2)) (atan2 (sqrt bounded) (sqrt (sub (lit 1) bounded)))
