-- ===== src/Telemetry/Order.antt =====
-- `telemetrySampleIsNewer` of backend/src/services/deviceTelemetryService.ts: whether a sample comes
-- after the stored one. A stored field is `none` where it is absent or no number.
use eki.Geo.{Float}
use eki.Telemetry.Payload.{TelemetryPayload, or_else_num}
use eki.Prelude.{◌&&◌, not, holds, Bool, if◌then◌else◌, some, none, true, false, Option}

module _ (F : Float) where
  open F use {Num, lt, num_eq, is_finite, is_safe_integer}

  -- The capture time of a sample: its raw time where it was clamped.
  abbrev pub capture_time : TelemetryPayload Num → Num
  capture_time p = or_else_num p.timestamp p.device_timestamp

  -- A late delivery: both the sequence and the capture time precede the stored ones.
  unfoldable pub is_late : Num → Option Num → TelemetryPayload Num → Option Num → Bool
  is_late timestamp sequence p device_timestamp =
      let stored_capture = or_else_num timestamp device_timestamp in
      holds is_safe_integer sequence
      && (is_finite stored_capture
          && (holds (lt p.seq) sequence && lt (capture_time p) stored_capture))

  unfoldable pub telemetry_sample_is_newer :
      Option Num → Option Num → TelemetryPayload Num → Option Num → Bool
  telemetry_sample_is_newer none sequence p device_timestamp = true
  telemetry_sample_is_newer (some timestamp) sequence p device_timestamp =
      if not (is_finite timestamp)
      then true
      else if is_late timestamp sequence p device_timestamp
      then false
      else if not (num_eq p.timestamp timestamp)
      then lt timestamp p.timestamp
      else holds is_safe_integer sequence && holds (λ s. lt s p.seq) sequence
