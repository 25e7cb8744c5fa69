-- ===== src/Tests/Abandoned.antt =====
-- An automatic return that was armed and never left.
use eki.Abandoned.Decision.{
  may_end, ride_of, bus_of, long_ago, is_unused, reconciliation_decision-stale, all_known,
  all_times, any_known, times_of_bus, times_of_ride, has_time,
}
use eki.Trip.Types.{pre_departure}
use eki.Abandoned.Defs.{
  is_ready, is_stale, latest, armed, activity_values, unused_automatic_return, ActiveRide,
  RideSession, matching_ride, reconciliation_decision, matching_session, matching_bus, decide,
}
use eki.Prelude.{◌&&◌, ℕ, some, none, [], ◌∷◌, ◌≡◌, true, false, refl, ℕ_discrete}

abbrev armed_return : RideSession
armed_return = record {
  status = armed;
  automatic_turnaround = true;
  start_time = none;
  has_start_time = false;
  created_at = some 100_000;
  armed_at = some 200_000;
  activated_at = none;
  updated_at = none;
  stops_reached = [];
  path = none ∷ [];
  passengers = [];
}

abbrev waiting_ride : ActiveRide ℕ
waiting_ride = record {
  session_id = some 7;
  trip_state = some pre_departure;
  has_departed_origin = some false;
  updated_at = some 300_000;
  created_at = none;
}

-- Half a day without activity leaves it ready, a day makes it stale.
half_day :
    reconciliation_decision ℕ_discrete 7 armed_return (some waiting_ride) none 43_300_000 86_500_000
    ≡ record { stale = false; last_activity = some 300_000; reason = is_ready }
unfolding reconciliation_decision decide matching_ride matching_bus matching_session
    unused_automatic_return activity_values latest ℕ_discrete
half_day = refl

whole_day :
    reconciliation_decision ℕ_discrete 7 armed_return (some waiting_ride) none 43_500_000 86_700_000
    ≡ record { stale = true; last_activity = some 300_000; reason = is_stale }
unfolding reconciliation_decision decide matching_ride matching_bus matching_session
    unused_automatic_return activity_values latest ℕ_discrete
whole_day = refl

-- A start time that cannot be read still counts as a start: the usual cutoff holds.
unreadable_start :
    reconciliation_decision ℕ_discrete 7
      (record armed_return { has_start_time = true })
      (some waiting_ride)
      none
      43_300_000
      86_500_000
    ≡ record { stale = true; last_activity = some 300_000; reason = is_stale }
unfolding reconciliation_decision decide matching_ride matching_bus matching_session
    unused_automatic_return activity_values latest ℕ_discrete
unreadable_start = refl

reconciliation_decision-stale_example :
    (reconciliation_decision ℕ_discrete 7 armed_return
      (some waiting_ride)
      none
      43_500_000
      86_700_000).stale
    ≡ (may_end armed
        && ((has_time
                (ride_of ℕ_discrete 7 (some waiting_ride))
                (times_of_ride (ride_of ℕ_discrete 7 (some waiting_ride)))
              && has_time
                  (bus_of {I = ℕ} ℕ_discrete 7 none)
                  (times_of_bus (bus_of {I = ℕ} ℕ_discrete 7 none)))
            && (any_known (
                  all_times armed_return
                    (ride_of ℕ_discrete 7 (some waiting_ride))
                    (bus_of ℕ_discrete 7 none))
                && all_known
                    (long_ago
                      (is_unused armed_return
                        (ride_of ℕ_discrete 7 (some waiting_ride))
                        (bus_of ℕ_discrete 7 none))
                      43_500_000
                      86_700_000)
                    (all_times armed_return
                      (ride_of ℕ_discrete 7 (some waiting_ride))
                      (bus_of ℕ_discrete 7 none)))))
reconciliation_decision-stale_example =
    reconciliation_decision-stale ℕ_discrete 7 armed_return (some waiting_ride) none 43_500_000
      86_700_000
