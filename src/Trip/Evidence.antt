-- ===== src/Trip/Evidence.antt =====
-- What one pair of fixes shows about a stop: the geometry and the tests on the quality of a fix.
use eki.Prelude.{
  ℕ, ◌+◌, ◌-◌, Bool, true, false, not, ◌&&◌, ◌||◌, List, Option, none, some, ltb, if◌then◌else◌,
  holds, or_else, get_or, length,
}
use eki.Geo.{Float, LatLng, haversine_meters}
use eki.Trip.Types.{MotionState, moving, uncertain, TripPosition, TripStateInput}

abbrev pub is_moving : MotionState → Bool
is_moving moving = true
is_moving _ = false

abbrev pub is_uncertain : MotionState → Bool
is_uncertain uncertain = true
is_uncertain _ = false

-- A vector in metres.
pub record Vector (N : Type 0) : Type 0 where
  pub x : N
  pub y : N

module _ (F : Float) where
  open F use {
    Num, lit, neg, add, sub, mul, div, lt, le, num_eq, is_finite, infinity, pi, abs, sin, cos,
    hypot, minimum, maximum,
  }

  -- Comparisons with the literals of the source.
  abbrev pub over : Num → ℕ → Bool
  over x n = lt (lit n) x

  abbrev pub at_most : Num → ℕ → Bool
  at_most x n = le x (lit n)

  abbrev pub at_least : Num → ℕ → Bool
  at_least x n = le (lit n) x

  -- `typeof h === "number" && (!Number.isFinite(h) || h < 0 || h > GNSS_HDOP_MAX)`.
  unfoldable pub bad_hdop : Option Num → Bool
  bad_hdop = holds (λ h. not (is_finite h) || (lt h (lit 0) || over h 4))

  unfoldable pub unreliable_trip_fix : Option MotionState → Option Num → Bool
  unfolding bad_hdop
  unreliable_trip_fix motion hdop = holds is_uncertain motion || bad_hdop hdop

  abbrev pub unreliable_position : TripPosition Num → Bool
  unreliable_position p = unreliable_trip_fix p.motion_state p.gps_hdop

  abbrev pub unreliable_input : TripStateInput Num → Bool
  unreliable_input i = unreliable_trip_fix (some i.motion_state) i.gps_hdop

  abbrev pub finite : Option Num → Bool
  finite = holds is_finite

  -- `Number.isFinite(p) && Number.isFinite(t) && t - p > GNSS_GAP_MS`.
  unfoldable pub long_pause : Option Num → Option Num → Bool
  long_pause previous timestamp =
      finite previous
      && (finite timestamp && holds (λ p. holds (λ t. over (sub t p) 10_000) timestamp) previous)

  unfoldable pub distance_to_segment_meters : LatLng Num → LatLng Num → LatLng Num → Num
  distance_to_segment_meters point start end =
      let per_lat = lit 111_320 in
      let per_lng = mul per_lat (cos (div (mul point.lat pi) (lit 180))) in
      let start_x = mul (sub start.lng point.lng) per_lng in
      let start_y = mul (sub start.lat point.lat) per_lat in
      let end_x = mul (sub end.lng point.lng) per_lng in
      let end_y = mul (sub end.lat point.lat) per_lat in
      let delta_x = sub end_x start_x in
      let delta_y = sub end_y start_y in
      let length_squared = add (mul delta_x delta_x) (mul delta_y delta_y) in
      let along = add (mul start_x delta_x) (mul start_y delta_y) in
      let projection = minimum (lit 1) (maximum (lit 0) (div (neg along) length_squared)) in
      if num_eq length_squared (lit 0)
      then hypot start_x start_y
      else hypot (add start_x (mul projection delta_x)) (add start_y (mul projection delta_y))

  unfoldable pub local_vector : LatLng Num → LatLng Num → Vector Num
  local_vector from to = record {
    x = mul (mul (sub to.lng from.lng) (lit 111_320)) (cos (div (mul from.lat pi) (lit 180)));
    y = mul (sub to.lat from.lat) (lit 111_320);
  }

  abbrev pub dot : Vector Num → Vector Num → Num
  dot u v = add (mul u.x v.x) (mul u.y v.y)

  abbrev pub norm : Vector Num → Num
  norm u = hypot u.x u.y

  -- One entry of `legs.some`: the cosine of the angle to the leg is at least that of 70 degrees.
  unfoldable pub along_leg : Vector Num → Num → Option (Vector Num) → Bool
  along_leg travel travelled none = false
  along_leg travel travelled (some leg) =
      let len = norm leg in
      not (num_eq len (lit 0))
      && le (cos (div (mul (lit 70) pi) (lit 180))) (div (dot travel leg) (mul travelled len))

  -- `stops[index]`; the default is never read at an index within the list.
  abbrev pub stop_at : List (LatLng Num) → ℕ → LatLng Num
  stop_at stops i = get_or stops i (record { lat = infinity; lng = infinity })

  unfoldable pub travels_route_way_through : List (LatLng Num) → ℕ → LatLng Num → LatLng Num → Bool
  unfolding local_vector along_leg
  travels_route_way_through stops index from to =
      let travel = local_vector from to in
      let travelled = norm travel in
      let arriving =
        if ltb 0 index
        then some (local_vector (stop_at stops (index - 1)) (stop_at stops index))
        else none in
      let leaving =
        if ltb index (length stops - 1)
        then some (local_vector (stop_at stops index) (stop_at stops (index + 1)))
        else none in
      if lt travelled (lit 3)
      then false
      else (along_leg travel travelled arriving || along_leg travel travelled leaving)

  -- The direction of travel: the last two fixes if they are apart, else the receiver's course.
  unfoldable pub travel_direction :
      LatLng Num → Option (LatLng Num) → Option Num → Option (Vector Num)
  unfolding local_vector
  travel_direction position from heading =
      let travel : Option (Vector Num) = elim from [
        | none ↦ none
        | some p ↦ some (local_vector p position)
      ] in
      let crept : Bool = elim travel [ none ↦ true | some v ↦ lt (norm v) (lit 2) ] in
      let course = λ (degrees : Num).
        let radians = div (mul degrees pi) (lit 180) in
        let v : Vector Num = record { x = sin radians; y = cos radians } in v in
      if not crept then travel else elim heading [
        | none ↦ none
        | some degrees ↦ if is_finite degrees then some (course degrees) else none
      ]

  unfoldable pub offside_meters :
      LatLng Num → LatLng Num → Option (LatLng Num) → Option Num → Option Num
  unfolding travel_direction local_vector
  offside_meters stop position from heading = elim (travel_direction position from heading) [
    | none ↦ none
    | some travel ↦
        let to_stop = local_vector position stop in
        let left_m =
          div (sub (mul travel.x to_stop.y) (mul travel.y to_stop.x)) (hypot travel.x travel.y) in
        some (neg left_m)
  ]

  unfoldable pub reverses_between : List (LatLng Num) → ℕ → Bool
  unfolding local_vector
  reverses_between stops index =
      let arriving = local_vector (stop_at stops (index - 2)) (stop_at stops (index - 1)) in
      let inner = ltb index (length stops - 1) in
      let next =
        if inner
        then local_vector (stop_at stops index) (stop_at stops (index + 1))
        else local_vector (stop_at stops (index - 1)) (stop_at stops index) in
      let lengths = mul (norm arriving) (norm next) in
      let cosine = div (dot arriving next) lengths in
      let half = div (lit 1) (lit 2) in
      let opposed = lt cosine (neg half) in
      if ltb index 2
      then false
      else if num_eq lengths (lit 0)
      then false
      else if inner
      then opposed
      else (lt (abs cosine) half || opposed)

  unfoldable pub origin_departure_radius : List (LatLng Num) → Num
  origin_departure_radius stops =
      let half_leg = div (haversine_meters F (stop_at stops 0) (stop_at stops 1)) (lit 2) in
      if ltb 1 (length stops) then minimum (lit 50) (maximum (lit 10) half_leg) else lit 50

  unfoldable pub was_stop_reached : LatLng Num → LatLng Num → Option (TripPosition Num) → Bool
  was_stop_reached stop position previous =
      at_most (haversine_meters F position stop) 15
      || holds
          (λ p.
            not (unreliable_position p)
            && (not (over (haversine_meters F p.place position) 250)
                && at_most (distance_to_segment_meters stop p.place position) 15))
          previous

  -- The sample time before the gap that this update opens, if it misses anything.
  unfoldable pub detected_gnss_gap : TripStateInput Num → Option Num
  unfolding long_pause
  detected_gnss_gap input =
      let missed =
        unreliable_input input
        || holds
            (λ p.
              unreliable_position p
              || (over (haversine_meters F p.place input.place) 250
                  || long_pause p.timestamp input.timestamp))
            input.previous_position in
      let previous_time : Option Num = elim input.previous_position [
        | none ↦ none
        | some p ↦ p.timestamp
      ] in
      let since = or_else previous_time input.timestamp in
      if missed
      then elim since [ none ↦ some (lit 0) | some t ↦ some (if is_finite t then t else lit 0) ]
      else none
