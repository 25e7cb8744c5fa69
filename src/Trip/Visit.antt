-- ===== src/Trip/Visit.antt =====
-- The stop that the bus is at now (`visitedStopIndex` of backend/src/services/tripStateReducer.ts).
use eki.Trip.Evidence.{stop_at, unreliable_trip_fix, at_most}
use eki.Trip.Types.{in_service, pre_departure, completed, TripState, MotionState}
use eki.Prelude.{
  none, if◌then◌else◌, arith, ◌⊎◌, false, ◌==◌, true, ◌≢◌, ◌&&◌, some, not, any, ◌-◌, List, ◌≤◌,
  length, Bool, ◌<◌, ◌≡◌, Option, ℕ,
}
use eki.Prelude.Int.{clamp_index-le, clamp_index, ℤ}
use eki.Geo.{LatLng, Float, haversine_meters}

-- `trip_state` is `none` for any other text, `current_stop_index` for a number that is no safe
-- integer; an absent list of unobserved stops is the empty one.
pub record StopVisitInput (N : Type 0) : Type 0 where
  pub place : LatLng N
  pub motion_state : Option MotionState
  pub gps_hdop : Option N
  pub stops : List (LatLng N)
  pub trip_state : Option TripState
  pub current_stop_index : Option ℤ
  pub has_departed_origin : Bool
  pub unobserved_stop_indices : List ℕ

abbrev pub contains : List ℕ → ℕ → Bool
contains xs i = any (λ x. x == i) xs

module _ (F : Float) (input : StopVisitInput F.Num) where
  open F use {Num, is_finite}

  abbrev pub visit_last : ℕ
  visit_last = length input.stops - 1

  unfoldable pub within_corridor : ℕ → Bool
  within_corridor i = at_most F (haversine_meters F input.place (stop_at F input.stops i)) 15

  unfoldable pub observed_at : ℕ → Bool
  observed_at i = not (contains input.unobserved_stop_indices i) && within_corridor i

  unfoldable pub usable_visit_fix : Bool
  usable_visit_fix =
      is_finite input.place.lat
      && (is_finite input.place.lng
          && not (unreliable_trip_fix F input.motion_state input.gps_hdop))

  -- The stop for a ride that waits at its origin or is in service.
  unfoldable pub visited_at : ℕ → Option ℕ
  visited_at index =
      if index == 0
      then (if not input.has_departed_origin && within_corridor 0 then some 0 else none)
      else if index == visit_last && (input.has_departed_origin && observed_at visit_last)
      then some visit_last
      else if observed_at (index - 1)
      then some (index - 1)
      else none

  unfoldable pub visited_under_way : ℤ → Option ℕ
  visited_under_way z =
      let found = visited_at (clamp_index z visit_last) in if usable_visit_fix then found else none

  unfoldable pub visited_stop_index : Option ℕ
  visited_stop_index = if length input.stops == 0 then none else elim input.current_stop_index [
    | none ↦ none
    | some z ↦ elim input.trip_state [
      | none ↦ none
      | some completed ↦ some visit_last
      | some pre_departure ↦ visited_under_way z
      | some in_service ↦ visited_under_way z
    ]
  ]

  -- What a reported visit rests on.
  pub record IsVisit (z : ℤ) (k : ℕ) : Type 0 where
    pub on_route : k < length input.stops
    pub reached : k ≤ clamp_index z visit_last
    pub near : within_corridor k ≡ true
    pub reliable : usable_visit_fix ≡ true
    pub seen :
        (contains input.unobserved_stop_indices k ≡ false) ⊎ (input.has_departed_origin ≡ false)

  visited_at-bounds :
      (index k : ℕ)
      → index ≤ visit_last
      → 0 < length input.stops
      → visited_at index ≡ some k
      → (k < length input.stops)
        × (k ≤ index)
        × (within_corridor k ≡ true)
        × ((contains input.unobserved_stop_indices k ≡ false) ⊎ (input.has_departed_origin ≡ false))
  unfolding visited_at observed_at
  visited_at-bounds index k b l h = ground arith

  -- While a ride is not completed, the stop that is reported is one of the route, at or before the
  -- next expected one, with a reliable fix inside its corridor; after the departure it is never a
  -- stop that was credited without being observed.
  pub visited_stop_index-IsVisit :
      (z : ℤ) (k : ℕ)
      → input.current_stop_index ≡ some z
      → input.trip_state ≢ some completed
      → visited_stop_index ≡ some k
      → IsVisit z k
  unfolding visited_stop_index visited_under_way
  visited_stop_index-IsVisit z k e n h =
      ground (arith, clamp_index-le z visit_last, visited_at-bounds (clamp_index z visit_last) k)
