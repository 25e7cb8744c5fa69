-- ===== src/Tests/Direction.antt =====
-- A route of three legs on one meridian, over the small model of the numbers.
use eki.Direction.Symmetry.{automatic_turnaround_is_ready-reverse}
use eki.Trip.Types.{stopped}
use eki.Prelude.Int.{pos, ℤ}
use eki.Direction.Endpoint.{
  opposite_ride_direction, reverse, forward, infer_ride_direction_from_telemetry,
  TurnaroundReadinessInput, automatic_turnaround_is_ready,
}
use eki.Matching.Bisection.{distance_bound, bisect}
use eki.Matching.Segments.{
  project_to_segment, distances_from, to_local, trajectory_heading, cumulative_distances, clamp01,
  segment_heading, angular_difference,
}
use eki.Geo.{LatLng, off_globe, to_radians, haversine_meters}
use eki.Direction.Departure.{
  DepartureInput, DepartureSample, recent_sample, in_sequence, usable_samples,
  infer_departure_direction, places_along, only_candidate, is_candidate, match_point, good_match,
  advances, keeps_forward,
}
use eki.Matching.Search.{
  matched, competing_score, candidates, search_window, match_route_position, point_along_path,
  best_of, prior_point, along_route, continuity_confidence, out_of_reach, better, competes,
  ambiguity_window, segments_are_continuous, unexplained_forward, candidate_at,
}
use mathlib.Core.Option.{map as map_option}
use eki.Direction.Mirror.{infer_departure_direction-mirrored, mirrored}
use eki.Tests.Grid.{below, up_to, grid, at}
use eki.Prelude.{arith, refl, false, none, true, some, ◌≡◌, List, ◌∷◌, [], ℕ}

abbrev line : List (LatLng ℤ)
line = at 0 ∷ at 10 ∷ at 20 ∷ at 30 ∷ []

abbrev line_back : List (LatLng ℤ)
line_back = at 30 ∷ at 20 ∷ at 10 ∷ at 0 ∷ []

abbrev arrived : TurnaroundReadinessInput ℤ
arrived = record {
  now = pos 50_000;
  telemetry_timestamp = pos 49_000;
  eligible_at = pos 40_000;
  minimum_sample_timestamp = none;
  motion_state = some stopped;
  gps_hdop = some (pos 1);
  position = at 30;
  destination = at 30;
}

up_to_below : (x y : ℤ) → up_to x y ≡ true → below y x ≡ false
up_to_below x y h = ground arith

below_up_to : (x y : ℤ) → below x y ≡ true → up_to y x ≡ false
below_up_to x y h = ground arith

arrived_ready : automatic_turnaround_is_ready grid arrived (pos 10) ≡ true
unfolding automatic_turnaround_is_ready haversine_meters to_radians off_globe
arrived_ready = refl

far_away : up_to (haversine_meters grid (at 30) (at 0)) (pos 10) ≡ false
unfolding haversine_meters to_radians off_globe
far_away = refl

automatic_turnaround_is_ready-reverse_example :
    infer_ride_direction_from_telemetry grid line
      (record {
        now = pos 50_000;
        timestamp = pos 49_000;
        motion_state = some stopped;
        gps_hdop = some (pos 1);
        position = at 30;
      })
      (pos 10)
    ≡ some reverse
automatic_turnaround_is_ready-reverse_example =
    automatic_turnaround_is_ready-reverse grid up_to_below below_up_to (at 0)
      (at 10 ∷ at 20 ∷ at 30 ∷ []) arrived (pos 10) (omega arith) refl refl far_away arrived_ready

abbrev seen : ℕ → ℕ → DepartureSample ℤ
seen place time = record { place = at place; timestamp = pos time }

abbrev leaving : DepartureInput ℤ
leaving = record {
  samples = seen 0 1_000 ∷ seen 10 2_000 ∷ seen 20 3_500 ∷ [];
  stops = at 0 ∷ at 30 ∷ [];
  forward_path = line;
  reverse_path = line_back;
  now = pos 4_000;
}

leaving_forward : infer_departure_direction grid leaving ≡ some forward
unfolding bisect distance_bound clamp01 angular_difference segment_heading to_local
    project_to_segment distances_from cumulative_distances segments_are_continuous point_along_path
    search_window ambiguity_window prior_point out_of_reach along_route unexplained_forward
    candidate_at candidates better best_of competes competing_score continuity_confidence matched
    match_route_position haversine_meters to_radians off_globe trajectory_heading recent_sample
    in_sequence usable_samples match_point good_match places_along keeps_forward advances
    is_candidate only_candidate infer_departure_direction
leaving_forward = refl

infer_departure_direction-mirrored_example :
    infer_departure_direction grid (mirrored leaving)
    ≡ map_option opposite_ride_direction (infer_departure_direction grid leaving)
infer_departure_direction-mirrored_example = infer_departure_direction-mirrored grid leaving
