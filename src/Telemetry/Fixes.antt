-- ===== src/Telemetry/Fixes.antt =====
-- The positions of a live record, as backend/src/services/deviceTelemetryService.ts stores and
-- reads them.
use eki.Geo.{Float}
use eki.Motion.Defs.{
  accepted, refused, OutageReacquisitionEvidence, QualifiedMotionSample, Reacquisition,
  TelemetryMotionSample,
}
use eki.Telemetry.Payload.{TelemetryPayload}
use eki.Prelude.{or_else, holds, Bool, if◌then◌else◌, some, none, true, false, Option}

-- The fields of a position, on the record itself and on its `plausibilityAnchor`.
pub record StoredFix (N : Type 0) : Type 0 where
  pub lat : Option N
  pub lng : Option N
  pub speed : Option N
  pub gps_hdop : Option N
  pub timestamp : Option N

-- `rawLocation`.
pub record RawLocation (N : Type 0) : Type 0 where
  pub fix : QualifiedMotionSample N
  pub heading : N
  pub seq : N

module _ {N : Type 0} where
  abbrev pub motion_sample : TelemetryPayload N → TelemetryMotionSample N
  motion_sample p = record {
    place = p.place;
    speed = p.speed;
    timestamp = p.timestamp;
    gps_hdop = p.gps_hdop;
  }

  abbrev pub qualified : TelemetryPayload N → QualifiedMotionSample N
  qualified p = record { sample = motion_sample p; motion_state = some p.motion_state }

  abbrev pub no_fix : StoredFix N
  no_fix = record { lat = none; lng = none; speed = none; gps_hdop = none; timestamp = none }

  abbrev pub anchor_of : Option (StoredFix N) → StoredFix N
  anchor_of none = no_fix
  anchor_of (some a) = a

  -- A position as its stored fields.
  abbrev pub stored_fix : TelemetryMotionSample N → StoredFix N
  stored_fix s = record {
    lat = some s.place.lat;
    lng = some s.place.lng;
    speed = some s.speed;
    gps_hdop = s.gps_hdop;
    timestamp = some s.timestamp;
  }

  abbrev pub raw_fix : Option (RawLocation N) → Option (QualifiedMotionSample N)
  raw_fix none = none
  raw_fix (some r) = some r.fix

  abbrev pub is_accepted : Reacquisition N → Bool
  is_accepted accepted = true
  is_accepted (refused _) = false

  abbrev pub pending_of : Reacquisition N → Option (OutageReacquisitionEvidence N)
  pending_of accepted = none
  pending_of (refused e) = e

module _ (F : Float) where
  open F use {Num, is_finite}

  -- `Number(anchor?.x ?? current?.x)`, if it is finite.
  abbrev pub known : Option Num → Option Num → Option Num
  known anchor live = elim (or_else anchor live) [
    | none ↦ none
    | some n ↦ if is_finite n then some n else none
  ]

  unfoldable pub previous_telemetry_gps_hdop : Option Num → Option Num → Option Num
  previous_telemetry_gps_hdop anchor live =
      if holds is_finite anchor then anchor else if holds is_finite live then live else none

  -- The last position that was accepted, where its numbers are finite.
  unfoldable pub previous_fix : StoredFix Num → StoredFix Num → Option (TelemetryMotionSample Num)
  unfolding previous_telemetry_gps_hdop
  previous_fix anchor live = elim (known anchor.lat live.lat) [
    | none ↦ none
    | some lat ↦ elim (known anchor.lng live.lng) [
      | none ↦ none
      | some lng ↦ elim (known anchor.speed live.speed) [
        | none ↦ none
        | some speed ↦ elim (known anchor.timestamp live.timestamp) [
          | none ↦ none
          | some timestamp ↦ some (record {
            place = record { lat = lat; lng = lng };
            speed = speed;
            timestamp = timestamp;
            gps_hdop = previous_telemetry_gps_hdop anchor.gps_hdop live.gps_hdop;
          })
        ]
      ]
    ]
  ]
