-- ===== src/Telemetry/Payload.antt =====
-- `parseTelemetryValue` of backend/src/services/telemetryPayload.ts: the closed schemas of a payload
-- and the tests on its values. The parsed JSON object is the argument; `none` is any other value.
use eki.Geo.{LatLng, Float}
use eki.Trip.Types.{MotionState}
use eki.Prelude.{ℕ, ◌==◌, ◌||◌, holds, is_some, not, Bool, ◌&&◌, if◌then◌else◌, some, none, Option}

-- A value of a field. A string that names no motion state is an `other_value`.
pub data JsonValue (N : Type 0) : Type 0 where
  number_value : N → JsonValue N
  motion_value : MotionState → JsonValue N
  other_value : JsonValue N

-- An object: a field that is absent is `none`, and fields of other names are counted.
pub record RawTelemetry (N : Type 0) : Type 0 where
  pub device_sent_at : Option (JsonValue N)
  pub gps_hdop : Option (JsonValue N)
  pub heading : Option (JsonValue N)
  pub lat : Option (JsonValue N)
  pub lng : Option (JsonValue N)
  pub motion_state : Option (JsonValue N)
  pub seq : Option (JsonValue N)
  pub speed : Option (JsonValue N)
  pub timestamp : Option (JsonValue N)
  pub other_fields : ℕ

pub record TelemetryPayload (N : Type 0) : Type 0 where
  pub place : LatLng N
  pub speed : N
  pub heading : N
  pub gps_hdop : Option N
  pub motion_state : MotionState
  pub seq : N
  pub device_sent_at : N
  pub timestamp : N
  pub device_timestamp : Option N

pub data ParseFailure : Type 0 where
  invalid_shape unexpected_fields invalid_lat invalid_lng invalid_speed : ParseFailure
  invalid_heading invalid_gps_hdop invalid_motion_state invalid_sequence : ParseFailure
  stale_or_invalid_timestamp invalid_device_sent_at : ParseFailure

pub data TelemetryParseResult (N : Type 0) : Type 0 where
  parsed : TelemetryPayload N → TelemetryParseResult N
  failed : ParseFailure → TelemetryParseResult N

-- `typeof value === "number"`.
abbrev pub number_of : {N : Type 0} → Option (JsonValue N) → Option N
number_of (some (number_value n)) = some n
number_of _ = none

abbrev pub motion_of : {N : Type 0} → Option (JsonValue N) → Option MotionState
motion_of (some (motion_value m)) = some m
motion_of _ = none

-- A field's number, read after its test has passed.
abbrev pub or_else_num : {N : Type 0} → N → Option N → N
or_else_num d none = d
or_else_num d (some n) = n

module _ {N : Type 0} where
  unfoldable pub has_legacy_fields : RawTelemetry N → Bool
  has_legacy_fields r =
      is_some r.heading
      && (is_some r.lat
          && (is_some r.lng
              && (is_some r.motion_state
                  && (is_some r.speed && (is_some r.timestamp && (r.other_fields == 0))))))

  unfoldable pub uses_sequenced_schema : RawTelemetry N → Bool
  uses_sequenced_schema r =
      has_legacy_fields r && (is_some r.seq && (is_some r.device_sent_at && is_some r.gps_hdop))

  unfoldable pub uses_previous_sequenced_schema : RawTelemetry N → Bool
  uses_previous_sequenced_schema r =
      has_legacy_fields r
      && (is_some r.seq && (is_some r.device_sent_at && not (is_some r.gps_hdop)))

  unfoldable pub uses_legacy_schema : RawTelemetry N → Bool
  uses_legacy_schema r =
      has_legacy_fields r
      && (not (is_some r.seq) && (not (is_some r.device_sent_at) && not (is_some r.gps_hdop)))

module _ (F : Float) where
  open F use {Num, lit, neg, add, sub, lt, le, is_finite, is_safe_integer, minimum}

  -- A finite number between two bounds.
  unfoldable pub within : Num → Num → Num → Bool
  within low high v = is_finite v && (not (lt v low) && not (lt high v))

  unfoldable pub valid_heading : Num → Bool
  valid_heading v = is_finite v && (not (lt v (lit 0)) && not (le (lit 360) v))

  unfoldable pub valid_sequence : Num → Bool
  valid_sequence v = is_safe_integer v && (not (le v (lit 0)) && not (lt (lit 4_294_967_295) v))

  unfoldable pub valid_timestamp : Num → Num → Bool
  valid_timestamp now v =
      is_safe_integer v && (not (lt v (sub now (lit 60_000))) && not (lt (add now (lit 10_000)) v))

  unfoldable pub valid_device_sent_at : Num → Num → Num → Bool
  valid_device_sent_at now timestamp v =
      is_safe_integer v && (not (lt v timestamp) && not (lt (add now (lit 10_000)) v))

  -- The capture time, where the clock of the device is ahead.
  unfoldable pub clamped_from : Num → Num → Option Num
  clamped_from now timestamp = if lt (minimum timestamp now) timestamp then some timestamp else none

  -- The value that is returned after all tests.
  unfoldable pub accepted_value : RawTelemetry Num → MotionState → Num → Num → TelemetryPayload Num
  accepted_value r motion timestamp now =
      let stamped = uses_sequenced_schema r || uses_previous_sequenced_schema r in
      let read = or_else_num (lit 0) in
      let accepted_timestamp = minimum timestamp now in
      record {
        place = record { lat = read (number_of r.lat); lng = read (number_of r.lng) };
        speed = read (number_of r.speed);
        heading = read (number_of r.heading);
        gps_hdop = if uses_sequenced_schema r then number_of r.gps_hdop else none;
        motion_state = motion;
        seq = if stamped then read (number_of r.seq) else lit 1;
        device_sent_at =
            if stamped then minimum (read (number_of r.device_sent_at)) now else accepted_timestamp;
        timestamp = accepted_timestamp;
        device_timestamp = clamped_from now timestamp;
      }

  unfoldable pub parse_telemetry_value : Option (RawTelemetry Num) → Num → TelemetryParseResult Num
  parse_telemetry_value none now = failed invalid_shape
  parse_telemetry_value (some r) now =
      let stamped = uses_sequenced_schema r || uses_previous_sequenced_schema r in
      let timestamp = or_else_num (lit 0) (number_of r.timestamp) in
      if not (stamped || uses_legacy_schema r)
      then failed unexpected_fields
      else if not (holds (within (neg (lit 90)) (lit 90)) (number_of r.lat))
      then failed invalid_lat
      else if not (holds (within (neg (lit 180)) (lit 180)) (number_of r.lng))
      then failed invalid_lng
      else if not (holds (within (lit 0) (lit 200)) (number_of r.speed))
      then failed invalid_speed
      else if not (holds valid_heading (number_of r.heading))
      then failed invalid_heading
      else if uses_sequenced_schema r
          && not (holds (within (lit 0) (lit 99)) (number_of r.gps_hdop))
      then failed invalid_gps_hdop
      else elim (motion_of r.motion_state) [
        | none ↦ failed invalid_motion_state
        | some motion ↦
            if stamped && not (holds valid_sequence (number_of r.seq))
            then failed invalid_sequence
            else if not (holds (valid_timestamp now) (number_of r.timestamp))
            then failed stale_or_invalid_timestamp
            else if stamped
                && not (holds (valid_device_sent_at now timestamp) (number_of r.device_sent_at))
            then failed invalid_device_sent_at
            else parsed (accepted_value r motion timestamp now)
      ]
