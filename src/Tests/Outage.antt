-- ===== src/Tests/Outage.antt =====
-- Samples of one bus after an outage, and one that is repeated.
use eki.Tests.Telemetry.{
  payload, below-irreflexive, below-transitive, equal-symmetric, equal-congruent,
}
use eki.Telemetry.Jump.{next_stored-three}
use eki.Telemetry.Replay.{no_more, then_written, Reach-replayed}
use eki.Motion.Defs.{
  TelemetryMotionSample, evaluate_outage_reacquisition, within_travel_envelope, is_coherent, clamp,
  error_budget, usable_reacquisition_fix, may_reacquire, adaptive_gnss_error_meters,
  is_plausible_telemetry_transition,
}
use eki.Geo.{to_radians, haversine_meters, off_globe}
use eki.Telemetry.Fixes.{
  motion_sample, stored_fix, qualified, StoredFix, previous_telemetry_gps_hdop, previous_fix,
}
use eki.Telemetry.Intake.{
  gnss_lost, connected, transition_is_plausible, next_anchor, previous_of, reacquisition_of,
  next_telemetry_value, accepted_sample, DeviceAssignment, LiveRecord, initial_record, written,
  next_stored, is_retired,
}
use eki.Telemetry.Order.{telemetry_sample_is_newer, is_late}
use eki.Trip.Types.{uncertain, moving}
use eki.Prelude.{Option, ℕ_discrete, ◌≡◌, some, none, true, false, refl, ℕ}
use eki.Prelude.Int.{ℤ, pos}
use eki.Tests.Grid.{grid, at}

abbrev assignment : DeviceAssignment ℕ ℤ
assignment = record {
  bus_id = 1;
  route_id = 2;
  device_id = some 3;
  assignment_revision = some (pos 1);
}

abbrev LiveBus : Type 0
LiveBus = LiveRecord ℕ ℕ ℤ

abbrev fix_at : ℕ → ℕ → StoredFix ℤ
fix_at place time = stored_fix (motion_sample (payload place time 0))

-- The record after a sample of the place 2 was held at the place 0, with the evidence so far.
abbrev held_bus : ℕ → ℕ → ℕ → LiveBus
held_bus time number count = record {
  fix = record (fix_at 0 time) { speed = some (pos 0) };
  heading = some (pos 90);
  motion_state = some uncertain;
  seq = some (pos number);
  device_sent_at = some (pos time);
  device_timestamp = none;
  raw_location =
      some (record { fix = qualified (payload 2 time number); heading = pos 90; seq = pos number });
  plausibility_anchor = some (fix_at 0 10_000);
  plausibility_reacquisition = some (record { count = pos count; started_at = pos 100_000 });
  retired_assignment_revision = none;
  rtdb_committed_at = none;
  active_route_polyline = none;
  bus_id = some 1;
  route_id = some 2;
  device_id = some 3;
  assignment_revision = some (pos 1);
  is_online = true;
  signal_state = some gnss_lost;
  backend_received_at = some (pos time);
  rest = 0;
}

-- The record while and after the bus is shown at a place.
abbrev shown_bus : ℕ → ℕ → ℕ → LiveBus
shown_bus place time number = record (held_bus time number 0) {
  fix = fix_at place time;
  motion_state = some moving;
  raw_location =
      some (record {
        fix = qualified (payload place time number);
        heading = pos 90;
        seq = pos number;
      });
  plausibility_anchor = some (fix_at place time);
  plausibility_reacquisition = none;
  signal_state = some connected;
}

-- The next record, computed.
abbrev received : Option LiveBus → ℕ → ℕ → ℕ → Option LiveBus
received none place time number = none
received (some c) place time number =
    next_stored grid ℕ_discrete c assignment (payload place time number) (pos time)

first_held : received (some (shown_bus 0 10_000 1)) 2 100_000 2 ≡ some (held_bus 100_000 2 1)
unfolding next_stored is_retired telemetry_sample_is_newer is_late written accepted_sample
    next_anchor transition_is_plausible reacquisition_of previous_of previous_fix
    previous_telemetry_gps_hdop evaluate_outage_reacquisition is_coherent may_reacquire
    usable_reacquisition_fix is_plausible_telemetry_transition within_travel_envelope error_budget
    adaptive_gnss_error_meters clamp haversine_meters to_radians off_globe ℕ_discrete initial_record
    next_telemetry_value
first_held = refl

second_held : received (some (held_bus 100_000 2 1)) 2 101_000 3 ≡ some (held_bus 101_000 3 2)
unfolding next_stored is_retired telemetry_sample_is_newer is_late written accepted_sample
    next_anchor transition_is_plausible reacquisition_of previous_of previous_fix
    previous_telemetry_gps_hdop evaluate_outage_reacquisition is_coherent may_reacquire
    usable_reacquisition_fix is_plausible_telemetry_transition within_travel_envelope error_budget
    adaptive_gnss_error_meters clamp haversine_meters to_radians off_globe ℕ_discrete initial_record
    next_telemetry_value
second_held = refl

third_shown : received (some (held_bus 101_000 3 2)) 2 102_000 4 ≡ some (shown_bus 2 102_000 4)
unfolding next_stored is_retired telemetry_sample_is_newer is_late written accepted_sample
    next_anchor transition_is_plausible reacquisition_of previous_of previous_fix
    previous_telemetry_gps_hdop evaluate_outage_reacquisition is_coherent may_reacquire
    usable_reacquisition_fix is_plausible_telemetry_transition within_travel_envelope error_budget
    adaptive_gnss_error_meters clamp haversine_meters to_radians off_globe ℕ_discrete initial_record
    next_telemetry_value
third_shown = refl

first_shown :
    next_telemetry_value grid ℕ_discrete 0 none assignment (payload 0 10_000 1) (pos 10_000)
    ≡ some (shown_bus 0 10_000 1)
unfolding next_stored is_retired telemetry_sample_is_newer is_late written accepted_sample
    next_anchor transition_is_plausible reacquisition_of previous_of previous_fix
    previous_telemetry_gps_hdop evaluate_outage_reacquisition is_coherent may_reacquire
    usable_reacquisition_fix is_plausible_telemetry_transition within_travel_envelope error_budget
    adaptive_gnss_error_meters clamp haversine_meters to_radians off_globe ℕ_discrete initial_record
    next_telemetry_value
first_shown = refl

anchored : previous_of grid (held_bus 101_000 3 2) ≡ some (motion_sample (payload 0 10_000 0))
unfolding previous_of previous_fix previous_telemetry_gps_hdop
anchored = refl

unexplained :
    is_plausible_telemetry_transition grid
      (some (motion_sample (payload 0 10_000 0)))
      (motion_sample (payload 2 102_000 4))
    ≡ false
unfolding next_stored is_retired telemetry_sample_is_newer is_late accepted_sample next_anchor
    transition_is_plausible reacquisition_of previous_of previous_fix previous_telemetry_gps_hdop
    evaluate_outage_reacquisition is_coherent may_reacquire usable_reacquisition_fix
    is_plausible_telemetry_transition within_travel_envelope error_budget adaptive_gnss_error_meters
    clamp haversine_meters to_radians off_globe ℕ_discrete initial_record next_telemetry_value
unexplained = refl

next_stored-three_example :
    (before : TelemetryMotionSample ℤ) × (previous_of grid (held_bus 100_000 2 1) ≡ some before)
    × (at 0 ≡ before.place)
    × (pos 10_000 ≡ before.timestamp)
    × (may_reacquire grid before (qualified (payload 2 101_000 3)) ≡ true)
    × (may_reacquire grid (motion_sample (payload 0 10_000 0)) (qualified (payload 2 102_000 4))
        ≡ true)
    × (is_plausible_telemetry_transition grid
          (some (motion_sample (payload 2 100_000 2)))
          (motion_sample (payload 2 101_000 3))
        ≡ true)
    × (is_plausible_telemetry_transition grid
          (some (motion_sample (payload 2 101_000 3)))
          (motion_sample (payload 2 102_000 4))
        ≡ true)
next_stored-three_example =
    next_stored-three grid ℕ_discrete refl (shown_bus 0 10_000 1) (held_bus 100_000 2 1)
      (held_bus 101_000 3 2) (shown_bus 2 102_000 4) assignment assignment assignment
      (payload 2 100_000 2) (payload 2 101_000 3) (payload 2 102_000 4) (pos 100_000) (pos 101_000)
      (pos 102_000) (motion_sample (payload 0 10_000 0)) first_held second_held third_shown anchored
      unexplained refl

Reach-replayed_example :
    next_stored grid ℕ_discrete (held_bus 101_000 3 2) assignment (payload 0 10_000 1) (pos 101_500)
    ≡ none
Reach-replayed_example =
    Reach-replayed grid below-irreflexive below-transitive equal-symmetric equal-congruent
      ℕ_discrete (payload 0 10_000 1) (shown_bus 0 10_000 1) (held_bus 101_000 3 2) assignment
      (pos 101_500) refl refl refl refl
      (then_written assignment (payload 2 101_000 3) (pos 101_000)
        (then_written assignment (payload 2 100_000 2) (pos 100_000) no_more refl first_held) refl
        second_held)
