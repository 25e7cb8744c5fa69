-- ===== src/Tests/Live.antt =====
-- A completed node that a return claims and takes over.
use eki.Rides.Claimed.{Reach-activated}
use eki.Rides.Claims.{Reach, LiveClaims, no_node, then_written, then_claim, has_claim}
use eki.Rides.Live.{
  ReturnRide, activate_return, claim_return, claim_is_fresh, live_is_ready, publish_progress,
}
use eki.Rides.Records.{LiveNode}
use eki.Direction.Endpoint.{RideDirection, automatic_turnaround_is_ready}
use eki.Geo.{haversine_meters, to_radians, off_globe}
use eki.Prelude.{ℕ, [], ◌∷◌, some, none, true, false, ◌≡◌, refl}
use eki.Prelude.Int.{ℤ, pos}
use eki.Tests.Grid.{grid, at}
use eki.Trip.Types.{completed, in_service, pre_departure, LegacyTripState, stopped}

-- The session 1 ended at the last stop.
abbrev ended_node : LiveNode ℤ
ended_node = record {
  session_id = some 1;
  route_id = 9;
  driver_id = some 5;
  is_active = true;
  is_offline = false;
  direction = some RideDirection.forward;
  trip_state = LegacyTripState.trip completed;
  current_stop_index = some 3;
  has_departed_origin = true;
  terminal_arrival = none;
  gnss_gap = none;
  at_stop = none;
  unobserved_stops = none;
  timestamp = pos 49_000;
  place = at 30;
  motion_state = some stopped;
  gps_hdop = some (pos 1);
  route_version = 1;
  delay_minutes = 3;
  delay_updated_at = 7;
  automatic_turnaround = false;
  previous_session_id = none;
  completed_at = some (pos 10_000);
  turnaround_eligible_at = some (pos 40_000);
  turnaround_sampled_at = some (pos 40_000);
  turnaround_claim_id = none;
  turnaround_claimed_at = none;
}

abbrev claimed_node : LiveNode ℤ
claimed_node = record ended_node {
  turnaround_claim_id = some 2;
  turnaround_claimed_at = some (pos 50_000);
}

abbrev ride_back : ReturnRide
ride_back = record { session_id = 2; driver_id = 5; direction = RideDirection.reverse }

claims : claim_return grid 2 1 (pos 50_000) (at 30) (pos 10) (some ended_node) ≡ some claimed_node
unfolding claim_return claim_is_fresh live_is_ready automatic_turnaround_is_ready haversine_meters
    to_radians off_globe
claims = refl

-- A second claim within a minute is refused, and so is progress of the completed session.
still_claimed : claim_return grid 3 1 (pos 59_000) (at 30) (pos 10) (some claimed_node) ≡ none
unfolding claim_return claim_is_fresh live_is_ready automatic_turnaround_is_ready haversine_meters
    to_radians off_globe
still_claimed = refl

no_progress :
    publish_progress grid ended_node
      (record {
        trip_state = in_service;
        current_stop_index = 2;
        has_departed_origin = true;
        terminal_arrival = none;
        last_route_version = 0;
      })
      none
      none
      []
      (some claimed_node)
    ≡ none
unfolding publish_progress
no_progress = refl

abbrev claimed_once : LiveClaims ℤ
claimed_once = record { node = some claimed_node; claims = (2, 1) ∷ [] }

claimed_once-Reach : Reach grid claimed_once
unfolding claim_return claim_is_fresh live_is_ready automatic_turnaround_is_ready haversine_meters
    to_radians off_globe
claimed_once-Reach =
    then_claim 2 1 (pos 50_000) (at 30) (pos 10) (then_written ended_node refl no_node)

abbrev taken_over : LiveNode ℤ
taken_over = record claimed_node {
  session_id = some 2;
  direction = some RideDirection.reverse;
  trip_state = LegacyTripState.trip pre_departure;
  current_stop_index = some 0;
  has_departed_origin = false;
  route_version = 0;
  delay_minutes = 0;
  delay_updated_at = 0;
  automatic_turnaround = true;
  previous_session_id = some 1;
  completed_at = none;
  turnaround_eligible_at = none;
  turnaround_sampled_at = none;
  turnaround_claim_id = none;
  turnaround_claimed_at = none;
}

takes_over : activate_return grid ride_back 1 (some claimed_node) ≡ some taken_over
unfolding activate_return
takes_over = refl

-- The same return as another worker would see it, with another driver.
abbrev again : ReturnRide
again = record ride_back { driver_id = 6 }

takes_over_again :
    activate_return grid again 1 (some claimed_node)
    ≡ some (record taken_over { driver_id = some 6 })
unfolding activate_return
takes_over_again = refl

Reach-activated_example :
    (has_claim 2 1 ((2, 1) ∷ []) ≡ true)
    × (taken_over.session_id ≡ some 2)
    × (taken_over.turnaround_claim_id ≡ none)
    × (again.session_id ≡ 2)
    × (◌≡◌ {A = ℕ} 1 1)
Reach-activated_example =
    Reach-activated grid claimed_once ride_back again 1 1 taken_over
      (record taken_over { driver_id = some 6 }) claimed_once-Reach takes_over takes_over_again
