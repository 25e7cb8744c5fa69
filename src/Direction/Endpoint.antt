-- ===== src/Direction/Endpoint.antt =====
-- The direction of a ride that starts at an endpoint of its route (backend/src/lib/rideDirection.ts,
-- backend/src/lib/automaticRideDirection.ts). A motion state that the device did not report is
-- `none`, and so is a dilution that is no number.
use mathlib.Core.List.{reverse as reverse_list}
use eki.Trip.Types.{MotionState}
use eki.Geo.{haversine_meters, LatLng, Float}
use eki.Prelude.{
  ◌||◌, ◌==◌, false, length, not, holds, true, ◌&&◌, none, if◌then◌else◌, some, Bool, List, Option,
  ◌∷◌, [],
}

pub data RideDirection : Type 0 where
  forward reverse : RideDirection

abbrev pub opposite_ride_direction : RideDirection → RideDirection
opposite_ride_direction forward = reverse
opposite_ride_direction reverse = forward

abbrev pub is_stopped_fix : Option MotionState → Bool
is_stopped_fix (some MotionState.stopped) = true
is_stopped_fix _ = false

unfoldable pub stops_in_ride_direction {ℓ} : {T : Type ℓ} → List T → RideDirection → List T
stops_in_ride_direction stops forward = stops
stops_in_ride_direction stops reverse = reverse_list stops

pub record DirectionInferenceTelemetry (N : Type 0) : Type 0 where
  pub now : N
  pub timestamp : N
  pub motion_state : Option MotionState
  pub gps_hdop : Option N
  pub position : LatLng N

pub record TurnaroundReadinessInput (N : Type 0) : Type 0 where
  pub now : N
  pub telemetry_timestamp : N
  pub eligible_at : N
  pub minimum_sample_timestamp : Option N
  pub motion_state : Option MotionState
  pub gps_hdop : Option N
  pub position : LatLng N
  pub destination : LatLng N

module _ (F : Float) where
  open F use {Num, lit, add, sub, lt, le, is_finite}

  abbrev pub valid_coordinate : LatLng Num → Bool
  valid_coordinate p = is_finite p.lat && is_finite p.lng

  -- The last of some stops, of which the first is given.
  abbrev pub last_stop : LatLng Num → List (LatLng Num) → LatLng Num
  last_stop first [] = first
  last_stop first (s ∷ ss) = last_stop s ss

  unfoldable pub infer_ride_direction_at_endpoint :
      List (LatLng Num) → LatLng Num → Num → Option RideDirection
  infer_ride_direction_at_endpoint [] position radius = none
  infer_ride_direction_at_endpoint (first ∷ rest) position radius =
      let last = last_stop first rest in
      let near_forward_origin = le (haversine_meters F position first) radius in
      let near_reverse_origin = le (haversine_meters F position last) radius in
      if length rest == 0
        || (not (valid_coordinate position)
            || (not (valid_coordinate first)
                || (not (valid_coordinate last) || (not (is_finite radius) || le radius (lit 0)))))
      then none
      else if near_forward_origin
      then (if near_reverse_origin then none else some forward)
      else if near_reverse_origin
      then some reverse
      else none

  -- The sample is fresh, reliable and of a stopped bus.
  unfoldable pub fresh_stopped : DirectionInferenceTelemetry Num → Bool
  fresh_stopped t =
      is_finite t.now
      && (is_finite t.timestamp
          && (not (lt (add t.now (lit 10_000)) t.timestamp)
              && (not (lt (lit 60_000) (sub t.now t.timestamp))
                  && (is_stopped_fix t.motion_state
                      && holds (λ h. is_finite h && (not (lt h (lit 0)) && not (lt (lit 4) h)))
                          t.gps_hdop))))

  unfoldable pub infer_ride_direction_from_telemetry :
      List (LatLng Num) → DirectionInferenceTelemetry Num → Num → Option RideDirection
  unfolding fresh_stopped
  infer_ride_direction_from_telemetry stops t radius =
      if fresh_stopped t then infer_ride_direction_at_endpoint stops t.position radius else none

  unfoldable pub automatic_turnaround_is_ready : TurnaroundReadinessInput Num → Num → Bool
  automatic_turnaround_is_ready i radius =
      let earliest : Num = elim i.minimum_sample_timestamp [
        | none ↦ i.eligible_at
        | some t ↦ if is_finite t then t else i.eligible_at
      ] in
      is_finite i.now
      && (is_finite i.telemetry_timestamp
          && (is_finite i.eligible_at
              && (lt (lit 0) i.eligible_at
                  && (le i.eligible_at i.now
                      && (le earliest i.telemetry_timestamp
                          && (le i.telemetry_timestamp (add i.now (lit 10_000))
                              && (le (sub i.now i.telemetry_timestamp) (lit 60_000)
                                  && (is_stopped_fix i.motion_state
                                      && (holds (λ h. is_finite h && (le (lit 0) h && le h (lit 4)))
                                            i.gps_hdop
                                          && (valid_coordinate i.position
                                              && (valid_coordinate i.destination
                                                  && (is_finite radius
                                                      && (lt (lit 0) radius
                                                          && le
                                                            (haversine_meters F i.position
                                                            i.destination)
                                                            radius)))))))))))))
