-- ===== src/Trip/Frame.antt =====
-- The derived values of one in-service update, and the tests that the reducer closes over
-- (`reduceTripState` of backend/src/services/tripStateReducer.ts).
use eki.Prelude.{
  ℕ, ◌+◌, ◌-◌, Bool, true, not, ◌&&◌, ◌||◌, List, [], ◌∷◌, Option, none, some, ◌==◌, if◌then◌else◌,
  holds, any, take, get_or, length,
}
use eki.Geo.{Float, LatLng, haversine_meters}
use eki.Trip.Types.{TripPosition, TripStateInput}
use eki.Trip.Evidence.{
  is_moving, over, at_most, at_least, stop_at, travels_route_way_through, offside_meters,
  reverses_between, was_stop_reached,
}
use eki.Trip.Passing.{reliable_start}

pub record Frame (N : Type 0) : Type 0 where
  pub input : TripStateInput N
  pub segment_start : Option (TripPosition N)
  pub gnss_gap : Option N
  pub has_departed : Bool
  pub leaving_origin : Bool
  -- `safeCurrentIndex`
  pub safe_index : ℕ

module _ (F : Float) where
  open F use {Num, lit, add, sub, mul, div, lt, le, maximum}

  -- `routeMeters`: the distance along the stops, from the first.
  unfoldable pub route_meters : Num → LatLng Num → List (LatLng Num) → List Num
  route_meters acc previous [] = acc ∷ []
  route_meters acc previous (stop ∷ rest) =
      acc ∷ route_meters (add acc (haversine_meters F previous stop)) stop rest

  unfoldable pub all_route_meters : List (LatLng Num) → List Num
  all_route_meters [] = lit 0 ∷ []
  all_route_meters (stop ∷ rest) = route_meters (lit 0) stop rest

module _ (F : Float) (fr : Frame F.Num) where
  open F use {Num, lit, add, sub, mul, div, lt, le, maximum}

  abbrev pub stops : List (LatLng Num)
  stops = fr.input.stops

  abbrev pub last_index : ℕ
  last_index = length stops - 1

  abbrev pub position : LatLng Num
  position = fr.input.place

  -- A ride that is leaving its origin may not be credited with its terminal in the same update.
  abbrev pub last_skippable : ℕ
  last_skippable = if fr.leaving_origin then last_index - 1 else last_index

  abbrev pub to_stop : ℕ → Num
  to_stop index = haversine_meters F position (stop_at F stops index)

  abbrev pub trusted_start : Option (TripPosition Num)
  trusted_start = reliable_start F stops fr.segment_start

  -- `gapElapsedMs`
  unfoldable pub gap_elapsed_ms : Num
  gap_elapsed_ms = elim fr.gnss_gap [
    | none ↦ lit 0
    | some since ↦ elim fr.input.timestamp [
      | none ↦ lit 0
      | some t ↦ if F.is_finite t then sub t since else lit 0
    ]
  ]

  unfoldable pub path_meters : ℕ → ℕ → Num
  path_meters from to =
      let along = all_route_meters F stops in
      sub (get_or along to (lit 0)) (get_or along from (lit 0))

  -- `atPassedStopLocation`, where the stops before `next` are passed.
  unfoldable pub at_passed_stop_location : ℕ → LatLng Num → Bool
  at_passed_stop_location next point =
      any (λ stop. at_most F (haversine_meters F point stop) 30) (take next stops)

  -- `movingHeading`
  unfoldable pub moving_heading : Option Num
  moving_heading =
      if is_moving fr.input.motion_state && holds (λ v. at_least F v 5) fr.input.speed
      then fr.input.heading
      else none

  unfoldable pub reached_stop : ℕ → Bool
  reached_stop index =
      let start : Option (LatLng Num) = elim trusted_start [
        | none ↦ none
        | some p ↦ some p.place
      ] in
      let offside = offside_meters F (stop_at F stops index) position start moving_heading in
      let near_side : Bool = elim offside [ none ↦ true | some m ↦ at_most F m 6 ] in
      was_stop_reached F (stop_at F stops index) position fr.segment_start
      && (not (is_moving fr.input.motion_state) || near_side)

  -- A move of at least `n` metres between two moving fixes, along the route through a stop.
  unfoldable pub moved_through : Num → List (LatLng Num) → ℕ → Bool
  moved_through least route index =
      is_moving fr.input.motion_state
      && holds
          (λ p.
            holds is_moving p.motion_state
            && (le least (haversine_meters F p.place position)
                && travels_route_way_through F route index p.place position))
          trusted_start

  unfoldable pub travelled_through : ℕ → Bool
  travelled_through index = moved_through (lit 4) stops index

  unfoldable pub observed_later_stop : ℕ → Bool
  observed_later_stop index =
      reached_stop index && (travelled_through index || at_most F (to_stop index) 8)

  -- A gap can only have hidden as much route as a bus drives in it, at 25 m/s.
  unfoldable pub reachable_in_gap : ℕ → ℕ → Bool
  reachable_in_gap next index =
      le (maximum (lit 0) (sub (path_meters next index) (lit 15)))
        (mul (div gap_elapsed_ms (lit 1_000)) (lit 25))

  -- `Math.max(GNSS_GAP_MS, pathMeters(from, to) / MAX_REVISIT_SPEED_MPS * 1000)`
  unfoldable pub drive_ms : ℕ → ℕ → Num
  drive_ms from to = maximum (lit 10_000) (mul (div (path_meters from to) (lit 25)) (lit 1_000))

  unfoldable pub revisit_minimum_ms : ℕ → ℕ → Num
  revisit_minimum_ms next index = drive_ms (next - 1) index

  -- Consecutive pins that share a place on a U-turn want evidence of their own.
  unfoldable pub distinguishable : ℕ → Bool
  distinguishable index =
      let here = stop_at F stops index in
      let apart = haversine_meters F here (stop_at F stops (index - 1)) in
      let two_and_half = div (lit 5) (lit 2) in
      if le apart two_and_half || (over F apart 30 || not (reverses_between F stops index))
      then true
      else if index == last_index
      then at_most F (to_stop index) 8
      else moved_through (lit 3) (here ∷ stop_at F stops (index + 1) ∷ []) 0
