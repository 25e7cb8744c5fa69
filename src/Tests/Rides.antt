-- ===== src/Tests/Rides.antt =====
-- A bus that rides forward, completes, and is armed for its return.
use eki.Rides.Attach.{
  delete_history, forget, StartPatch, overwrite_session, merged_session, attach_live,
  commit_creation, creation_session,
}
use eki.Rides.Owned.{is_unused, no_return}
use eki.Rides.Return.{open_return, may_return, return_session, arm_return}
use eki.Rides.Progress.{commit_progress-advances}
use eki.Prelude.OrderedMap.{remove, set, lookup}
use eki.Rides.Steps.{
  then_attach, then_create, then_delete, no_ride, then_start, then_progress, Reach-returned_once,
  then_complete, then_return, Reach-locked, Reach, empty_store,
}
use eki.Rides.Completion.{journey_of, complete_ride, finish_session}
use eki.Rides.Engine.{
  is_in_service, RideCheckpoint, RideProgress, with_progress, normalized_delay_minutes,
  checkpoint_of, commit_progress, persist_active_ride, durable_ride,
}
use eki.Rides.History.{stop_evidence, is_recorded, missing_stop_history, missing_from}
use eki.Rides.Start.{
  opened_session, owns_lock, find_session, ServiceAssignment, drop_ride, release_lock, open_service,
  start_service, opened_store,
}
use eki.Prelude.{
  arith, ◌||◌, ◌<◌, max, holds, ℕ, ℕ_discrete, List, [], ◌∷◌, some, none, true, false, ◌≡◌, refl,
}
use eki.Prelude.Int.{ℤ, pos}
use eki.Direction.Endpoint.{RideDirection}
use eki.Rides.Records.{active_ride, is_unfinished, DurableRide, Session, BusStore, LiveNode}
use eki.Tests.Grid.{grid, at}
use eki.Trip.Types.{in_service, pre_departure, TripState, LegacyTripState, moving}

abbrev Store : Type 0
Store = BusStore ℕ ℤ

abbrev driver_assignment : ServiceAssignment
driver_assignment = record { driver_id = 5; route_id = 9 }

-- An event of the session 1.
abbrev event : LiveNode ℤ
event = record {
  session_id = some 1;
  route_id = 9;
  driver_id = some 5;
  is_active = true;
  is_offline = false;
  direction = some RideDirection.forward;
  trip_state = LegacyTripState.trip pre_departure;
  current_stop_index = some 0;
  has_departed_origin = false;
  terminal_arrival = none;
  gnss_gap = none;
  at_stop = none;
  unobserved_stops = none;
  timestamp = pos 1_000;
  place = at 0;
  motion_state = some moving;
  gps_hdop = some (pos 1);
  route_version = 1;
  delay_minutes = 3;
  delay_updated_at = 7;
  automatic_turnaround = false;
  previous_session_id = none;
  completed_at = none;
  turnaround_eligible_at = none;
  turnaround_sampled_at = none;
  turnaround_claim_id = none;
  turnaround_claimed_at = none;
}

abbrev progress_to : TripState → ℕ → RideProgress ℤ
progress_to trip i = record {
  trip_state = trip;
  current_stop_index = i;
  has_departed_origin = true;
  terminal_arrival = none;
  gnss_gap_since = none;
  skipped_stop_indices = [];
  unobserved_stop_indices = [];
}

abbrev route_stops : List ℕ
route_stops = 10 ∷ 20 ∷ 30 ∷ []

abbrev idle_bus : Store
idle_bus = empty_store ((5, true) ∷ []) (9 ∷ [])

abbrev started_bus : Store
started_bus =
    (start_service driver_assignment (some RideDirection.forward) 4 1 (pos 900) idle_bus).0

abbrev moving_bus : Store
moving_bus =
    (persist_active_ride grid event (progress_to in_service 2) route_stops (pos 1_000)
      started_bus).0

abbrev arrived_bus : Store
arrived_bus =
    (complete_ride grid event RideDirection.forward 2 route_stops 4 (pos 2_000) (pos 30)
      moving_bus).0

abbrev returning_bus : Store
returning_bus = (arm_return grid 1 9 5 RideDirection.forward 4 2 (pos 3_000) arrived_bus).0

-- A second return from the same session is refused.
abbrev again_bus : Store
again_bus = (arm_return grid 1 9 5 RideDirection.forward 4 3 (pos 3_001) returning_bus).0

return_armed : owns_lock 2 returning_bus ≡ true
unfolding start_service open_service opened_store persist_active_ride commit_progress checkpoint_of
    durable_ride with_progress normalized_delay_minutes missing_stop_history missing_from
    is_recorded stop_evidence complete_ride finish_session journey_of release_lock drop_ride
    arm_return may_return open_return lookup set remove ℕ_discrete
return_armed = refl

returned_once : find_session 3 again_bus ≡ none
unfolding start_service open_service opened_store persist_active_ride commit_progress checkpoint_of
    durable_ride with_progress normalized_delay_minutes missing_stop_history missing_from
    is_recorded stop_evidence complete_ride finish_session journey_of release_lock drop_ride
    arm_return may_return open_return lookup set remove ℕ_discrete
returned_once = refl

history_of_again : Reach grid ℕ again_bus
unfolding start_service open_service opened_store persist_active_ride commit_progress checkpoint_of
    durable_ride with_progress normalized_delay_minutes missing_stop_history missing_from
    is_recorded stop_evidence complete_ride finish_session journey_of release_lock drop_ride
    arm_return may_return open_return lookup set remove ℕ_discrete is_unused no_return
history_of_again = then_return 1 9 5 RideDirection.forward 4 3 (pos 3_001) refl (
    then_return 1 9 5 RideDirection.forward 4 2 (pos 3_000) refl (
      then_complete event RideDirection.forward 2 route_stops 4 (pos 2_000) (pos 30) (
        then_progress event (progress_to in_service 2) route_stops (pos 1_000) (
          then_start driver_assignment (some RideDirection.forward) 4 1 (pos 900) refl
            (no_ride ((5, true) ∷ []) (9 ∷ []))))))

-- The patch of a start without a key that saw the live node of the session 1.
abbrev late_patch : StartPatch ℕ ℤ
late_patch = record {
  direction = some RideDirection.forward;
  is_in_service = true;
  assignment = none;
  endpoint_version = none;
  armed_at = none;
  started = none;
}

-- Written after the session is over, it makes it unfinished again, and nothing holds the lock; with a
-- key it is refused.
late_start_revives :
    (holds
        (λ (s : Session ℕ ℤ). is_unfinished s.status)
        (find_session 1 (overwrite_session 1 late_patch arrived_bus))
      ≡ true)
    × (owns_lock 1 (overwrite_session 1 late_patch arrived_bus) ≡ false)
    × ((commit_creation 1 late_patch none true (0, 0) arrived_bus).1 ≡ false)
unfolding start_service open_service opened_store persist_active_ride commit_progress checkpoint_of
    durable_ride with_progress normalized_delay_minutes missing_stop_history missing_from
    is_recorded stop_evidence complete_ride finish_session journey_of release_lock drop_ride
    arm_return may_return open_return lookup set remove ℕ_discrete overwrite_session merged_session
    commit_creation creation_session
late_start_revives = (refl, refl, refl)

-- Without a key the lock is also taken for a session that is not stored.
lock_of_nobody :
    ((attach_live false driver_assignment none 7 idle_bus).1 ≡ true)
    × ((attach_live true driver_assignment none 7 idle_bus).1 ≡ false)
unfolding attach_live lookup
lock_of_nobody = (refl, refl)

-- A start with a key finds the return, makes it a ride in service, and the first history is deleted.
abbrev attached_bus : Store
attached_bus = (attach_live true driver_assignment none 2 again_bus).0

abbrev created_bus : Store
created_bus = (commit_creation 2 late_patch none true (0, 0) attached_bus).0

abbrev swept_bus : Store
swept_bus = (delete_history 1 created_bus).0

history_of_swept : Reach grid ℕ swept_bus
history_of_swept = then_delete 1 (
    then_create 2 late_patch none true (0, 0)
      (then_attach driver_assignment none 2 history_of_again))

swept :
    (owns_lock 2 swept_bus ≡ true)
    × (holds (λ (s : Session ℕ ℤ). is_unfinished s.status) (find_session 2 swept_bus) ≡ true)
    × (find_session 1 swept_bus ≡ none)
unfolding start_service open_service opened_store persist_active_ride commit_progress checkpoint_of
    durable_ride with_progress normalized_delay_minutes missing_stop_history missing_from
    is_recorded stop_evidence complete_ride finish_session journey_of release_lock drop_ride
    arm_return may_return open_return lookup set remove ℕ_discrete attach_live commit_creation
    creation_session merged_session delete_history forget
swept = (refl, refl, refl)

Reach-locked_example :
    owns_lock 2 swept_bus
    ≡ holds (λ (s : Session ℕ ℤ). is_unfinished s.status) (find_session 2 swept_bus)
Reach-locked_example = Reach-locked grid swept_bus history_of_swept 2

abbrev armed_session : Session ℕ ℤ
armed_session = return_session grid 1 9 5 RideDirection.forward 4 (pos 3_000)

armed_found : find_session 2 again_bus ≡ some armed_session
unfolding start_service open_service opened_store persist_active_ride commit_progress checkpoint_of
    durable_ride with_progress normalized_delay_minutes missing_stop_history missing_from
    is_recorded stop_evidence complete_ride finish_session journey_of release_lock drop_ride
    arm_return may_return open_return lookup set remove ℕ_discrete
armed_found = refl

Reach-returned_once_example :
    (◌≡◌ {A = ℕ} 2 2)
    × (holds (λ (o : Session ℕ ℤ). is_unfinished o.status) (find_session 1 again_bus) ≡ false)
Reach-returned_once_example =
    Reach-returned_once grid again_bus history_of_again 2 2 1 armed_session armed_session
      armed_found armed_found refl refl

abbrev first_checkpoint : RideCheckpoint ℤ
first_checkpoint = checkpoint_of grid event (progress_to in_service 2) 3 none

abbrev moving_ride : DurableRide ℤ
moving_ride =
    durable_ride grid event (progress_to in_service 2) first_checkpoint 1 5 RideDirection.forward
      none

abbrev moving_session : Session ℕ ℤ
moving_session =
    with_progress grid event (progress_to in_service 2) first_checkpoint route_stops (pos 1_000)
      (opened_session driver_assignment (some RideDirection.forward) 4 (pos 900))

moving_facts :
    (owns_lock 1 moving_bus ≡ true)
    × (find_session 1 moving_bus ≡ some moving_session)
    × (is_unfinished moving_session.status ≡ true)
    × (lookup ℕ_discrete 9 moving_bus.rides ≡ some moving_ride)
    × (moving_ride.session_id ≡ 1)
    × (is_in_service moving_ride.trip_state ≡ true)
    × (moving_ride.current_stop_index < 3)
    × (0 < max 1 moving_ride.current_stop_index)
unfolding start_service open_service opened_store persist_active_ride commit_progress checkpoint_of
    durable_ride with_progress normalized_delay_minutes missing_stop_history missing_from
    is_recorded stop_evidence complete_ride finish_session journey_of release_lock drop_ride
    arm_return may_return open_return lookup set remove ℕ_discrete
moving_facts = (refl, refl, refl, refl, refl, refl, omega arith, omega arith)

-- A late event, from before the departure, for the stop that was passed.
commit_progress-advances_example :
    (r' : DurableRide ℤ) × (s' : Session ℕ ℤ) × (lookup ℕ_discrete 9
        (commit_progress grid event
          (progress_to pre_departure 1)
          route_stops
          (pos 1_500)
          1
          5
          RideDirection.forward
          moving_bus).0.rides
      ≡ some r')
    × (find_session 1
          (commit_progress grid event
            (progress_to pre_departure 1)
            route_stops
            (pos 1_500)
            1
            5
            RideDirection.forward
            moving_bus).0
        ≡ some s')
    × (r'.session_id ≡ 1)
    × (r'.trip_state ≡ in_service)
    × (r'.current_stop_index ≡ max 1 moving_ride.current_stop_index)
    × (r'.has_departed_origin ≡ (true || moving_ride.has_departed_origin))
    × (s'.status ≡ active_ride)
    × (is_recorded 0 s'.stops_reached ≡ true)
commit_progress-advances_example =
    let (owns, found, unfinished, stored, mine, service, low, before) = moving_facts in
    commit_progress-advances grid event (progress_to pre_departure 1) route_stops (pos 1_500) 1 5
      RideDirection.forward moving_bus moving_session moving_ride 0 owns found unfinished stored
      mine service low (omega arith) before
