-- ===== src/Trip/Passing.antt =====
-- Which of two passes through a shared place the bus is on (`sharedStopPass` of
-- backend/src/services/tripStateReducer.ts).
use eki.Prelude.{
  ℕ, ◌+◌, ◌-◌, Bool, true, false, List, [], ◌∷◌, ◌++◌, Option, none, some, ltb, if◌then◌else◌,
  or_else, filter, length,
}
use eki.Geo.{Float, LatLng, haversine_meters}
use eki.Trip.Types.{TripPosition}
use eki.Trip.Evidence.{
  over, unreliable_position, distance_to_segment_meters, stop_at, travels_route_way_through,
}

pub data Pass : Type 0 where
  earlier later : Pass

-- A fix as evidence, with the side of the stop that it shows.
pub record Sighting (N : Type 0) : Type 0 where
  pub point : LatLng N
  pub arriving : Bool

module _ (F : Float) (stops : List (LatLng F.Num)) where
  open F use {Num, lit, add, sub, lt, infinity}

  unfoldable pub leg_distance : LatLng Num → Bool → ℕ → Num
  leg_distance point arriving index =
      if arriving
      then distance_to_segment_meters F point (stop_at F stops (index - 1)) (stop_at F stops index)
      else if ltb index (length stops - 1)
      then distance_to_segment_meters F point (stop_at F stops index) (stop_at F stops (index + 1))
      else infinity

  unfoldable pub side_of : ℕ → ℕ → Sighting Num → Option Pass
  unfolding leg_distance
  side_of e l s =
      let to_earlier = leg_distance s.point s.arriving e in
      let to_later = leg_distance s.point s.arriving l in
      if lt (add to_earlier (lit 5)) to_later
      then some earlier
      else if lt (add to_later (lit 5)) to_earlier
      then some later
      else none

  -- `evidence.sort(...)` of at most two sightings, the farther from the shared place first.
  unfoldable pub farthest_first : LatLng Num → List (Sighting Num) → List (Sighting Num)
  farthest_first shared (a ∷ b ∷ rest) =
      let d = λ (s : Sighting Num). haversine_meters F s.point shared in
      if lt (lit 0) (sub (d b) (d a)) then b ∷ a ∷ rest else a ∷ b ∷ rest
  farthest_first shared sightings = sightings

  unfoldable pub first_pass : ℕ → ℕ → List (Sighting Num) → Option Pass
  unfolding side_of
  first_pass e l [] = none
  first_pass e l (s ∷ rest) = or_else (side_of e l s) (first_pass e l rest)

  -- The previous fix, if there is one and it can be trusted.
  abbrev pub reliable_start : Option (TripPosition Num) → Option (TripPosition Num)
  reliable_start none = none
  reliable_start (some p) = if unreliable_position F p then none else some p

  -- The direction of travel, if it fits only one of the two copies.
  unfoldable pub pass_by_travel : ℕ → ℕ → LatLng Num → Option (TripPosition Num) → Option Pass
  pass_by_travel e l position none = none
  pass_by_travel e l position (some p) =
      let fits_earlier = travels_route_way_through F stops e p.place position in
      let fits_later = travels_route_way_through F stops l p.place position in
      elim fits_earlier [
        | true ↦ if fits_later then none else some earlier
        | false ↦ if fits_later then some later else none
      ]

  unfoldable pub shared_stop_pass : ℕ → ℕ → LatLng Num → Option (TripPosition Num) → Option Pass
  unfolding pass_by_travel first_pass farthest_first
  shared_stop_pass e l position segment_start =
      let shared = stop_at F stops e in
      let start = reliable_start segment_start in
      let arrived : List (Sighting Num) = elim start [
        | none ↦ []
        | some p ↦ record { point = p.place; arriving = true } ∷ []
      ] in
      let here : Sighting Num = record { point = position; arriving = false } in
      let evidence =
        filter (λ (s : Sighting Num). over F (haversine_meters F s.point shared) 15)
          (arrived ++ here ∷ []) in
      or_else (pass_by_travel e l position start) (first_pass e l (farthest_first shared evidence))
