-- ===== src/Matching/Segments.antt =====
-- The segments of a path and what a fix is to one of them (backend/src/services/routeMatching.ts).
-- The cache of distances by path only saves time, and the counters of the work done are metrics.
use eki.Trip.Evidence.{Vector}
use eki.Geo.{haversine_meters, Float, LatLng}
use eki.Prelude.{
  ◌&&◌, ltb, some, ◌-◌, ◌||◌, length, not, Bool, get_or, none, if◌then◌else◌, List, Option, ◌∷◌, [],
  ℕ,
}

pub data RouteAdherenceState : Type 0 where
  on_route possible_off_route off_route rerouting on_new_route : RouteAdherenceState

-- The segment's index is whatever number was stored.
pub record PreviousRouteMatch (N : Type 0) : Type 0 where
  pub segment_index : N
  pub along_route_distance_m : N

pub record RouteMatch (N : Type 0) : Type 0 where
  pub point : LatLng N
  pub segment_index : ℕ
  pub segment_fraction : N
  pub distance_to_route_m : N
  pub along_route_distance_m : N
  pub heading_difference : Option N
  pub match_confidence : N
  pub is_ambiguous : Bool

-- What `projectToSegment` returns.
pub record Projection (N : Type 0) : Type 0 where
  pub point : LatLng N
  pub distance_m : N
  pub fraction : N

module _ (F : Float) where
  open F use {
    Num, lit, neg, add, sub, mul, div, lt, le, num_eq, is_finite, pi, abs, sin, cos, atan2, hypot,
    minimum, maximum, rem,
  }

  abbrev pub radian : Num
  radian = div pi (lit 180)

  abbrev pub degree : Num
  degree = div (lit 180) pi

  -- `none` is `undefined`.
  unfoldable pub plausible_progress_bound : Num → Num → Num → Option Num
  plausible_progress_bound elapsed_ms speed_kmh uncertainty =
      let speed = if is_finite speed_kmh then maximum (lit 0) speed_kmh else lit 0 in
      if not (is_finite elapsed_ms) || (le elapsed_ms (lit 0) || lt (lit 10_000) elapsed_ms)
      then none
      else some (
          add (div (mul (div (add speed (lit 15)) (div (lit 36) (lit 10))) elapsed_ms) (lit 1_000))
            (maximum (lit 0) uncertainty))

  unfoldable pub clamp01 : Num → Num
  clamp01 value = maximum (lit 0) (minimum (lit 1) value)

  unfoldable pub angular_difference : Num → Num → Num
  angular_difference left right =
      abs (sub (rem (add (sub left right) (lit 540)) (lit 360)) (lit 180))

  unfoldable pub segment_heading : LatLng Num → LatLng Num → Num
  segment_heading start end =
      let lat1 = mul start.lat radian in
      let lat2 = mul end.lat radian in
      let delta_lng = mul (sub end.lng start.lng) radian in
      let y = mul (sin delta_lng) (cos lat2) in
      let x = sub (mul (cos lat1) (sin lat2)) (mul (mul (sin lat1) (cos lat2)) (cos delta_lng)) in
      rem (add (mul (atan2 y x) degree) (lit 360)) (lit 360)

  -- The heading from the first to the last of the points, unless they are too close.
  unfoldable pub trajectory_heading : List (LatLng Num) → Num → Option Num
  unfolding segment_heading
  trajectory_heading [] minimum_m = none
  trajectory_heading (first ∷ rest) minimum_m =
      let last = get_or rest (length rest - 1) first in
      if ltb 0 (length rest) && le minimum_m (haversine_meters F first last)
      then some (segment_heading first last)
      else none

  -- `toLocal`: metres from the point.
  unfoldable pub to_local : LatLng Num → Num → LatLng Num → Vector Num
  to_local point scale value = record {
    x = mul (mul (mul (sub value.lng point.lng) radian) (lit 6_371_000)) scale;
    y = mul (mul (sub value.lat point.lat) radian) (lit 6_371_000);
  }

  unfoldable pub project_to_segment : LatLng Num → LatLng Num → LatLng Num → Projection Num
  unfolding to_local
  project_to_segment point start end =
      let scale = maximum (div (lit 1) (lit 100)) (cos (mul point.lat radian)) in
      let local_start = to_local point scale start in
      let local_end = to_local point scale end in
      let delta_x = sub local_end.x local_start.x in
      let delta_y = sub local_end.y local_start.y in
      let length_squared = add (mul delta_x delta_x) (mul delta_y delta_y) in
      let fraction =
        if num_eq length_squared (lit 0)
        then lit 0
        else maximum (lit 0) (
            minimum (lit 1) (
              div (neg (add (mul local_start.x delta_x) (mul local_start.y delta_y)))
                length_squared)) in
      let x = add local_start.x (mul fraction delta_x) in
      let y = add local_start.y (mul fraction delta_y) in
      record {
        point = record {
          lat = add point.lat (mul (div y (lit 6_371_000)) degree);
          lng = add point.lng (mul (div x (mul (lit 6_371_000) scale)) degree);
        };
        distance_m = hypot x y;
        fraction = fraction;
      }

  -- A number of a list, by the index.
  abbrev pub value_at : List Num → ℕ → Num
  value_at values i = get_or values i (lit 0)

  abbrev pub vertex : List (LatLng Num) → ℕ → LatLng Num
  vertex path i = get_or path i (record { lat = lit 0; lng = lit 0 })

  -- `cumulativeDistances`: the distance from the path's start to each vertex.
  unfoldable pub distances_from : Num → LatLng Num → List (LatLng Num) → List Num
  distances_from d at [] = d ∷ []
  distances_from d at (p ∷ ps) = d ∷ distances_from (add d (haversine_meters F at p)) p ps

  unfoldable pub cumulative_distances : List (LatLng Num) → List Num
  unfolding distances_from
  cumulative_distances [] = []
  cumulative_distances (p ∷ ps) = distances_from (lit 0) p ps
