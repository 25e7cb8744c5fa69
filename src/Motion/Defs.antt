-- ===== src/Motion/Defs.antt =====
-- backend/src/lib/telemetryMotion.ts. A dilution, an accuracy or a stored field of the wrong type is
-- `none`, and so is a motion state that is neither moving nor stopped.
use eki.Trip.Evidence.{is_uncertain}
use eki.Trip.Types.{MotionState}
use eki.Geo.{haversine_meters, LatLng, Float}
use eki.Prelude.{◌||◌, holds, true, not, Bool, ◌&&◌, if◌then◌else◌, some, none, Option}

pub record TelemetryMotionSample (N : Type 0) : Type 0 where
  pub place : LatLng N
  pub speed : N
  pub timestamp : N
  pub gps_hdop : Option N

-- A sample with its motion state.
pub record QualifiedMotionSample (N : Type 0) : Type 0 where
  pub sample : TelemetryMotionSample N
  pub motion_state : Option MotionState

pub record OutageReacquisitionEvidence (N : Type 0) : Type 0 where
  pub count : N
  pub started_at : N

-- `accepted`, and the `pending` evidence.
pub data Reacquisition (N : Type 0) : Type 0 where
  accepted : Reacquisition N
  refused : Option (OutageReacquisitionEvidence N) → Reacquisition N

module _ (F : Float) where
  open F use {
    Num, lit, add, sub, mul, div, lt, le, num_eq, is_finite, is_safe_integer, minimum, maximum, abs,
  }

  unfoldable pub clamp : Num → Num → Num → Num
  clamp value low high = maximum low (minimum high value)

  unfoldable pub adaptive_gnss_error_meters : Option Num → Num → Num → Num → Option Num → Num
  unfolding clamp
  adaptive_gnss_error_meters gps_hdop speed previous_speed elapsed_ms accuracy =
      let hdop_error : Num = elim gps_hdop [
        | none ↦ lit 50
        | some h ↦
            if is_finite h && (le (lit 0) h && le h (lit 99))
            then add (lit 15) (mul h (lit 7))
            else lit 50
      ] in
      let quality_error : Num = elim accuracy [
        | none ↦ hdop_error
        | some a ↦ if is_finite a && le (lit 0) a then a else hdop_error
      ] in
      let stationary = le (maximum (maximum speed previous_speed) (lit 0)) (div (lit 5) (lit 2)) in
      let multipath = if stationary then lit 10 else lit 0 in
      let gap =
        clamp (div (maximum (lit 0) (sub elapsed_ms (lit 10_000))) (lit 2_000)) (lit 0) (lit 10) in
      clamp (add (add quality_error multipath) gap) (lit 15) (lit 50)

  -- What the source calls its error budget, in metres.
  unfoldable pub error_budget : TelemetryMotionSample Num → TelemetryMotionSample Num → Num → Num
  error_budget previous next elapsed_ms =
      maximum
        (adaptive_gnss_error_meters previous.gps_hdop previous.speed next.speed elapsed_ms none)
        (adaptive_gnss_error_meters next.gps_hdop next.speed previous.speed elapsed_ms none)

  unfoldable pub within_travel_envelope :
      TelemetryMotionSample Num → TelemetryMotionSample Num → Num → Bool
  unfolding clamp error_budget
  within_travel_envelope previous next elapsed_ms =
      let maximum_speed =
        clamp (maximum (maximum previous.speed next.speed) (lit 0)) (lit 0) (lit 200) in
      let reachable =
        add (error_budget previous next elapsed_ms)
          (mul (div maximum_speed (div (lit 36) (lit 10))) (div elapsed_ms (lit 1_000))) in
      le (haversine_meters F previous.place next.place) reachable

  unfoldable pub is_plausible_telemetry_transition :
      Option (TelemetryMotionSample Num) → TelemetryMotionSample Num → Bool
  is_plausible_telemetry_transition none next = true
  is_plausible_telemetry_transition (some previous) next =
      let gap = maximum (lit 0) (sub next.timestamp previous.timestamp) in
      lt (lit 300_000) gap || within_travel_envelope previous next (minimum (lit 60_000) gap)

  unfoldable pub usable_reacquisition_fix : QualifiedMotionSample Num → Bool
  usable_reacquisition_fix q =
      let s = q.sample in
      is_finite s.place.lat
      && (le (abs s.place.lat) (lit 90)
          && (is_finite s.place.lng
              && (le (abs s.place.lng) (lit 180)
                  && (is_finite s.speed
                      && (le (lit 0) s.speed
                          && (le s.speed (lit 200)
                              && (is_safe_integer s.timestamp
                                  && (holds (λ h. is_finite h && (le (lit 0) h && le h (lit 4)))
                                        s.gps_hdop
                                      && holds (λ m. not (is_uncertain m)) q.motion_state))))))))

  -- The outage is one for which the travel allowance applies, and the fix lies within it.
  unfoldable pub may_reacquire : TelemetryMotionSample Num → QualifiedMotionSample Num → Bool
  may_reacquire previous next =
      let gap = sub next.sample.timestamp previous.timestamp in
      usable_reacquisition_fix next
      && (not (le gap (lit 60_000))
          && (not (lt (lit 300_000) gap) && within_travel_envelope previous next.sample gap))

  -- The candidate before and its evidence fit the next fix.
  unfoldable pub is_coherent :
      TelemetryMotionSample Num
      → QualifiedMotionSample Num
      → QualifiedMotionSample Num
      → OutageReacquisitionEvidence Num
      → Bool
  is_coherent previous before next e =
      let gap = sub next.sample.timestamp before.sample.timestamp in
      let age = sub before.sample.timestamp e.started_at in
      usable_reacquisition_fix before
      && (not (lt gap (lit 500))
          && (not (lt (lit 5_000) gap)
              && (is_plausible_telemetry_transition (some before.sample) next.sample
                  && ((num_eq e.count (lit 1) || num_eq e.count (lit 2))
                      && (is_safe_integer e.started_at
                          && (not (le e.started_at previous.timestamp)
                              && (not (lt before.sample.timestamp e.started_at)
                                  && (not (
                                        num_eq e.count (lit 1)
                                        && not (num_eq e.started_at before.sample.timestamp))
                                      && not (
                                          num_eq e.count (lit 2)
                                          && (lt age (lit 500) || lt (lit 5_000) age))))))))))

  unfoldable pub evaluate_outage_reacquisition :
      Option (TelemetryMotionSample Num)
      → QualifiedMotionSample Num
      → Option (QualifiedMotionSample Num)
      → Option (OutageReacquisitionEvidence Num)
      → Reacquisition Num
  evaluate_outage_reacquisition none next prior_raw evidence = refused none
  evaluate_outage_reacquisition (some previous) next prior_raw evidence =
      let first = refused (some (record { count = lit 1; started_at = next.sample.timestamp })) in
      let corroborated : Reacquisition Num = elim prior_raw [
        | none ↦ first
        | some before ↦ elim evidence [
          | none ↦ first
          | some e ↦
              if not (is_coherent previous before next e)
              then first
              else if num_eq e.count (lit 2)
              then accepted
              else refused (some (record { count = lit 2; started_at = e.started_at }))
        ]
      ] in
      if may_reacquire previous next then corroborated else refused none
