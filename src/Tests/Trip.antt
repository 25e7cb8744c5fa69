-- ===== src/Tests/Trip.antt =====
-- A ride over four stops, 100 m apart from each other.
use eki.Trip.Credits.{
  reduce_trip_state-skipped, reduce_trip_state-unobserved, serving_frame, IsCredited,
}
use eki.Trip.Completion.{reduce_trip_state-IsConfirmed, IsConfirmed}
use eki.Trip.Order.{reduce_trip_state-IsProgress, IsProgress}
use eki.Trip.Departure.{reduce_trip_state-HasLeft, reduce_trip_state-IsTrusted, IsTrusted, HasLeft}
use eki.Trip.Recovery.{
  gap_credit_from, reanchors_from, reanchored_gap, unobserved_from, credit_through,
  unobserved_credit, resolve_from, still_there, resolve_shared_stop, choose_copy, gap_credit,
}
use eki.Trip.Passing.{
  leg_distance, farthest_first, pass_by_travel, shared_stop_pass, side_of, first_pass,
}
use eki.Trip.Frame.{
  drive_ms, reachable_in_gap, moved_through, distinguishable, moving_heading, path_meters,
  reached_stop, travelled_through, route_meters, at_passed_stop_location, observed_later_stop,
  gap_elapsed_ms, all_route_meters, revisit_minimum_ms,
}
use eki.Trip.Visit.{
  visited_stop_index-IsVisit, IsVisit, StopVisitInput, within_corridor, observed_at,
  visited_stop_index, usable_visit_fix, visited_at, visited_under_way,
}
use eki.Trip.Arrival.{
  confirms, terminal_from, walk_from, confirmation_ms, crossing_at, terminal_at, may_consume,
  usable_prior, reliable_arrival, walk,
}
use eki.Trip.Evidence.{
  detected_gnss_gap, was_stop_reached, origin_departure_radius, reverses_between, offside_meters,
  travel_direction, travels_route_way_through, along_leg, local_vector, distance_to_segment_meters,
  long_pause, unreliable_trip_fix, bad_hdop,
}
use eki.Tests.Grid.{at, grid}
use eki.Prelude.Int.{pos, ℤ}
use eki.Trip.Types.{
  in_service, completed, pre_departure, trip, moving, stopped, TripPosition, MotionState,
  TripStateInput,
}
use eki.Trip.Reducer.{
  clear_of_origin, frame_of, serve, reduce_fresh, departed_origin, segment_start_of, gnss_gap_of,
  finish_update, stale_fix, reduce_trip_state,
}
use eki.Geo.{to_radians, off_globe, LatLng, haversine_meters}
use eki.Prelude.{
  inl, inr, arith, true, ◌≤◌, length, is_some, refl, interval, false, [], some, none, ◌∷◌, ◌≡◌,
  List, ℕ,
}

-- The definitions that a run of the reducer computes with.
run : Unit {0}
unfolding haversine_meters off_globe to_radians bad_hdop unreliable_trip_fix long_pause
    distance_to_segment_meters local_vector along_leg travels_route_way_through travel_direction
    offside_meters reverses_between origin_departure_radius was_stop_reached detected_gnss_gap
    leg_distance side_of farthest_first first_pass pass_by_travel shared_stop_pass route_meters
    all_route_meters gap_elapsed_ms path_meters at_passed_stop_location moving_heading reached_stop
    moved_through travelled_through observed_later_stop reachable_in_gap drive_ms revisit_minimum_ms
    distinguishable choose_copy resolve_from resolve_shared_stop credit_through still_there
    reanchors_from reanchored_gap gap_credit_from gap_credit unobserved_from unobserved_credit
    confirmation_ms crossing_at may_consume walk walk_from reliable_arrival usable_prior confirms
    terminal_from terminal_at stale_fix gnss_gap_of segment_start_of clear_of_origin departed_origin
    frame_of finish_update serve reduce_fresh reduce_trip_state interval within_corridor observed_at
    usable_visit_fix visited_at visited_under_way visited_stop_index
run = tt

abbrev route : List (LatLng ℤ)
route = at 0 ∷ at 10 ∷ at 20 ∷ at 30 ∷ []

abbrev waiting : TripStateInput ℤ
waiting = record {
  place = at 0;
  previous_position = none;
  motion_state = stopped;
  current_trip_state = trip pre_departure;
  current_stop_index = pos 0;
  stops = route;
  has_departed_origin = false;
  timestamp = some (pos 1_000);
  now = some (pos 1_000);
  gps_hdop = some (pos 1);
  speed = some (pos 0);
  heading = none;
  terminal_arrival = none;
  gnss_gap_since = none;
}

abbrev fix : ℕ → MotionState → TripPosition ℤ
fix n m = record {
  place = at n;
  motion_state = some m;
  gps_hdop = some (pos 1);
  timestamp = some (pos 1_000);
}

-- The bus drives from the origin to the first stop.
abbrev driving : TripStateInput ℤ
driving = record waiting {
  place = at 10;
  previous_position = some (fix 4 moving);
  motion_state = moving;
  timestamp = some (pos 2_000);
  now = some (pos 2_000);
  speed = some (pos 30);
}

departs : (reduce_trip_state grid (pos 0) driving).current_stop_index ≡ pos 2
unfolding run
departs = refl

-- An update in service towards the stop with the given index.
abbrev under_way : ℕ → ℕ → TripStateInput ℤ
under_way index n = record driving {
  place = at n;
  previous_position = none;
  current_trip_state = trip in_service;
  current_stop_index = pos index;
  has_departed_origin = true;
}

-- The bus stands at the terminal, as it did three seconds before.
abbrev arrived : TripStateInput ℤ
arrived = record (under_way 3 30) {
  motion_state = stopped;
  speed = some (pos 0);
  timestamp = some (pos 9_000);
  now = some (pos 9_000);
  terminal_arrival = some (record { started_at = pos 6_000; last_sampled_at = pos 8_000 });
}

arrives : (reduce_trip_state grid (pos 0) arrived).trip_state ≡ completed
unfolding run
arrives = refl

-- A fix at the third stop, a minute into a gap in which the second was passed.
abbrev resurfaced : TripStateInput ℤ
resurfaced = record (under_way 1 20) {
  timestamp = some (pos 61_000);
  now = some (pos 61_000);
  gnss_gap_since = some (pos 1_000);
}

skips : (reduce_trip_state grid (pos 0) resurfaced).skipped_stop_indices ≡ some (1 ∷ [])
unfolding run
skips = refl

-- Driving through the third stop, with the second never inside the corridor.
abbrev detoured : TripStateInput ℤ
detoured = record (under_way 1 20) { previous_position = some (fix 14 moving) }

misses : (reduce_trip_state grid (pos 0) detoured).unobserved_stop_indices ≡ some (1 ∷ [])
unfolding run
misses = refl

reduce_trip_state-IsProgress_example :
    IsProgress grid (pos 0) driving 0 (reduce_trip_state grid (pos 0) driving)
reduce_trip_state-IsProgress_example =
    reduce_trip_state-IsProgress grid (pos 0) driving 0 refl (omega arith)

reduce_trip_state-IsConfirmed_example :
    (arrived.current_trip_state ≡ trip in_service)
    × IsConfirmed grid (pos 0) (frame_of grid (pos 0) arrived false)
reduce_trip_state-IsConfirmed_example =
    reduce_trip_state-IsConfirmed grid (pos 0) arrived (λ e. cc) arrives

reduce_trip_state-skipped_example :
    (is_some (gnss_gap_of grid (pos 0) resurfaced) ≡ true)
    × IsCredited grid
        (serving_frame grid (pos 0) resurfaced)
        (1 ∷ [])
        (reduce_trip_state grid (pos 0) resurfaced)
reduce_trip_state-skipped_example =
    reduce_trip_state-skipped grid (pos 0) resurfaced 1 (1 ∷ []) refl (omega arith) skips

reduce_trip_state-unobserved_example :
    (gnss_gap_of grid (pos 0) detoured ≡ none)
    × (length {A = ℕ} (1 ∷ []) ≤ 2)
    × IsCredited grid
        (serving_frame grid (pos 0) detoured)
        (1 ∷ [])
        (reduce_trip_state grid (pos 0) detoured)
reduce_trip_state-unobserved_example =
    reduce_trip_state-unobserved grid (pos 0) detoured 1 (1 ∷ []) refl (omega arith) misses

started : (reduce_trip_state grid (pos 0) driving).trip_state ≡ in_service
unfolding run
started = refl

reduce_trip_state-HasLeft_example :
    HasLeft grid (pos 0) driving
    × ((reduce_trip_state grid (pos 0) driving).trip_state ≡ in_service)
    × ((reduce_trip_state grid (pos 0) driving).has_departed_origin ≡ true)
reduce_trip_state-HasLeft_example =
    reduce_trip_state-HasLeft grid (pos 0) driving refl (λ e. cc started)

reduce_trip_state-IsTrusted_example : IsTrusted grid (pos 0) driving
reduce_trip_state-IsTrusted_example =
    reduce_trip_state-IsTrusted grid (pos 0) driving (omega arith) (inr (inl (λ e. cc started)))

abbrev visiting : StopVisitInput ℤ
visiting = record {
  place = at 10;
  motion_state = some stopped;
  gps_hdop = some (pos 1);
  stops = route;
  trip_state = some in_service;
  current_stop_index = some (pos 2);
  has_departed_origin = true;
  unobserved_stop_indices = [];
}

visits : visited_stop_index grid visiting ≡ some 1
unfolding run
visits = refl

visited_stop_index-IsVisit_example : IsVisit grid visiting (pos 2) 1
visited_stop_index-IsVisit_example =
    visited_stop_index-IsVisit grid visiting (pos 2) 1 refl (λ e. cc) visits
