-- ===== src/Tests/Motion.antt =====
-- Three fixes after an outage of a minute and a half.
use eki.Motion.Reacquisition.{evaluate_outage_reacquisition-three}
use eki.Trip.Types.{moving}
use eki.Prelude.Int.{pos, ℤ}
use eki.Geo.{off_globe, to_radians, haversine_meters}
use eki.Motion.Defs.{
  refused, accepted, OutageReacquisitionEvidence, QualifiedMotionSample, TelemetryMotionSample,
  clamp, within_travel_envelope, is_plausible_telemetry_transition, is_coherent,
  adaptive_gnss_error_meters, evaluate_outage_reacquisition, may_reacquire, error_budget,
  usable_reacquisition_fix,
}
use eki.Tests.Grid.{up_to, grid, at}
use eki.Prelude.{true, refl, ◌&&◌, ◌≡◌, some, ℕ}

abbrev sample : ℕ → TelemetryMotionSample ℤ
sample time = record { place = at 0; speed = pos 20; timestamp = pos time; gps_hdop = some (pos 1) }

abbrev moving_fix : ℕ → QualifiedMotionSample ℤ
moving_fix time = record { sample = sample time; motion_state = some moving }

abbrev counted : ℕ → OutageReacquisitionEvidence ℤ
counted n = record { count = pos n; started_at = pos 100_000 }

second_pending :
    evaluate_outage_reacquisition grid
      (some (sample 10_000))
      (moving_fix 101_000)
      (some (moving_fix 100_000))
      (some (counted 1))
    ≡ refused (some (counted 2))
unfolding evaluate_outage_reacquisition is_coherent may_reacquire usable_reacquisition_fix
    is_plausible_telemetry_transition within_travel_envelope error_budget adaptive_gnss_error_meters
    clamp haversine_meters to_radians off_globe
second_pending = refl

third_accepted :
    evaluate_outage_reacquisition grid
      (some (sample 10_000))
      (moving_fix 102_000)
      (some (moving_fix 101_000))
      (some (counted 2))
    ≡ accepted
unfolding evaluate_outage_reacquisition is_coherent may_reacquire usable_reacquisition_fix
    is_plausible_telemetry_transition within_travel_envelope error_budget adaptive_gnss_error_meters
    clamp haversine_meters to_radians off_globe
third_accepted = refl

evaluate_outage_reacquisition-three_example :
    (first : QualifiedMotionSample ℤ) × (e : OutageReacquisitionEvidence ℤ) × (some
        (moving_fix 100_000)
      ≡ some first)
    × (some (counted 1) ≡ some e)
    × ((up_to e.count (pos 1) && up_to (pos 1) e.count) ≡ true)
    × ((up_to e.started_at first.sample.timestamp && up_to first.sample.timestamp e.started_at)
        ≡ true)
    × (is_coherent grid (sample 10_000) first (moving_fix 101_000) e ≡ true)
    × (may_reacquire grid (sample 10_000) (moving_fix 101_000) ≡ true)
    × (may_reacquire grid (sample 10_000) (moving_fix 102_000) ≡ true)
    × (is_plausible_telemetry_transition grid (some first.sample) (sample 101_000) ≡ true)
    × (is_plausible_telemetry_transition grid (some (sample 101_000)) (sample 102_000) ≡ true)
evaluate_outage_reacquisition-three_example =
    evaluate_outage_reacquisition-three grid refl (sample 10_000) (moving_fix 101_000)
      (moving_fix 102_000) (some (moving_fix 100_000)) (some (counted 1)) (some (counted 2))
      second_pending third_accepted
