-- ===== src/Telemetry/Intake.antt =====
-- `nextTelemetryValue` of backend/src/services/deviceTelemetryService.ts: what an authenticated
-- sample makes of the live record of a bus. The fields that this function does not read or write are
-- one value, `rest`. A stored number that is missing is `none`; the store keeps no null, and a field
-- of another type than its own has no counterpart. The server's own time stamp, `receivedAt`, is
-- not modelled.
use eki.Telemetry.Fixes.{
  pending_of, raw_fix, qualified, RawLocation, is_accepted, stored_fix, anchor_of, motion_sample,
  no_fix, StoredFix, previous_fix,
}
use eki.Geo.{Float}
use eki.Trip.Types.{uncertain, MotionState}
use eki.Trip.Evidence.{is_uncertain}
use eki.Motion.Defs.{
  refused, OutageReacquisitionEvidence, Reacquisition, TelemetryMotionSample,
  evaluate_outage_reacquisition, is_plausible_telemetry_transition,
}
use eki.Telemetry.Order.{telemetry_sample_is_newer}
use eki.Telemetry.Payload.{TelemetryPayload, or_else_num}
use eki.Prelude.{
  is_some, ◌||◌, or_else, ◌&&◌, not, holds, Bool, if◌then◌else◌, some, none, true, false, Option,
}
use mathlib.Core.Logic.{ite}

-- An empty device id counts as none, as the source's tests of it do.
pub record DeviceAssignment (I N : Type 0) : Type 0 where
  pub bus_id : I
  pub route_id : I
  pub device_id : Option I
  pub assignment_revision : Option N

pub data SignalState : Type 0 where
  connected gnss_lost : SignalState

pub record LiveRecord (I R N : Type 0) : Type 0 where
  pub fix : StoredFix N
  pub heading : Option N
  pub motion_state : Option MotionState
  pub seq : Option N
  pub device_sent_at : Option N
  pub device_timestamp : Option N
  pub raw_location : Option (RawLocation N)
  pub plausibility_anchor : Option (StoredFix N)
  pub plausibility_reacquisition : Option (OutageReacquisitionEvidence N)
  pub retired_assignment_revision : Option N
  pub rtdb_committed_at : Option N
  pub active_route_polyline : Option I
  pub bus_id : Option I
  pub route_id : Option I
  pub device_id : Option I
  pub assignment_revision : Option N
  pub is_online : Bool
  pub signal_state : Option SignalState
  pub backend_received_at : Option N
  pub rest : R

-- `===` of two identifiers, of which the first is given.
abbrev pub same_id : {I : Type 0} → Discrete I → Option I → Option I → Bool
same_id dec (some i) (some j) = ite (dec i j) true false
same_id _ _ _ = false

module _ (F : Float) {I R : Type 0} where
  open F use {Num, lit, lt, is_finite}

  unfoldable pub previous_of : LiveRecord I R Num → Option (TelemetryMotionSample Num)
  unfolding previous_fix
  previous_of c = previous_fix F (anchor_of c.plausibility_anchor) c.fix

  -- `reacquisition`: nothing is accepted or pending after an ordinary transition.
  unfoldable pub reacquisition_of : LiveRecord I R Num → TelemetryPayload Num → Reacquisition Num
  unfolding previous_of
  reacquisition_of c p =
      if is_plausible_telemetry_transition F (previous_of c) (motion_sample p)
      then refused none
      else evaluate_outage_reacquisition F (previous_of c) (qualified p) (raw_fix c.raw_location)
          c.plausibility_reacquisition

  unfoldable pub transition_is_plausible : LiveRecord I R Num → TelemetryPayload Num → Bool
  unfolding previous_of reacquisition_of
  transition_is_plausible c p =
      is_plausible_telemetry_transition F (previous_of c) (motion_sample p)
      || is_accepted (reacquisition_of c p)

  -- `acceptedSample`: an implausible sample keeps the previous place and stands still.
  unfoldable pub accepted_sample : LiveRecord I R Num → TelemetryPayload Num → TelemetryPayload Num
  unfolding previous_of transition_is_plausible
  accepted_sample c p =
      let heading : Num = elim c.heading [
        | none ↦ p.heading
        | some h ↦ if is_finite h then h else p.heading
      ] in
      let held : TelemetryPayload Num = elim (previous_of c) [
        | none ↦ p
        | some previous ↦ record p {
          place = previous.place;
          speed = lit 0;
          heading = heading;
          motion_state = uncertain;
        }
      ] in
      if transition_is_plausible c p then p else held

  -- `plausibilityAnchor`: a sample without a reliable motion is none, unless it is the first.
  unfoldable pub next_anchor : LiveRecord I R Num → TelemetryPayload Num → TelemetryMotionSample Num
  unfolding previous_of transition_is_plausible
  next_anchor c p = elim (previous_of c) [
    | none ↦ motion_sample p
    | some previous ↦
        if transition_is_plausible c p && not (is_uncertain p.motion_state)
        then motion_sample p
        else previous
  ]

  -- The record that is written for a sample that is newer.
  unfoldable pub written :
      LiveRecord I R Num → DeviceAssignment I Num → TelemetryPayload Num → Num → LiveRecord I R Num
  unfolding accepted_sample next_anchor reacquisition_of
  written c a p received_at =
      let s = accepted_sample c p in
      record c {
        fix = stored_fix (motion_sample s);
        heading = some s.heading;
        motion_state = some s.motion_state;
        seq = some s.seq;
        device_sent_at = some s.device_sent_at;
        device_timestamp = s.device_timestamp;
        raw_location = some (record { fix = qualified p; heading = p.heading; seq = p.seq });
        plausibility_anchor = some (stored_fix (next_anchor c p));
        plausibility_reacquisition = pending_of (reacquisition_of c p);
        retired_assignment_revision = none;
        rtdb_committed_at = none;
        active_route_polyline = none;
        bus_id = some a.bus_id;
        route_id = some a.route_id;
        device_id = or_else a.device_id c.device_id;
        assignment_revision = or_else a.assignment_revision c.assignment_revision;
        is_online = true;
        signal_state = some (if is_uncertain s.motion_state then gnss_lost else connected);
        backend_received_at = some received_at;
      }

  -- `initialDevicePresenceState`, whose status is in `rest`, and what a missing record is read as.
  unfoldable pub initial_record : R → LiveRecord I R Num
  initial_record presence = record {
    fix = no_fix;
    heading = none;
    motion_state = none;
    seq = none;
    device_sent_at = none;
    device_timestamp = none;
    raw_location = none;
    plausibility_anchor = none;
    plausibility_reacquisition = none;
    retired_assignment_revision = none;
    rtdb_committed_at = none;
    active_route_polyline = none;
    bus_id = none;
    route_id = none;
    device_id = none;
    assignment_revision = none;
    is_online = false;
    signal_state = none;
    backend_received_at = none;
    rest = presence;
  }

  module _ (dec : Discrete I) where
    -- The assignment was retired: its revision is lower than the one that was retired last.
    unfoldable pub is_retired : LiveRecord I R Num → DeviceAssignment I Num → Bool
    is_retired c a =
        (not (is_some a.device_id) || same_id dec a.device_id c.device_id)
        && holds (lt (or_else_num (lit 0) a.assignment_revision)) c.retired_assignment_revision

    -- `nextTelemetryValue` of a stored record: the new one, or `none` where nothing is written.
    unfoldable pub next_stored :
        LiveRecord I R Num
        → DeviceAssignment I Num
        → TelemetryPayload Num
        → Num
        → Option (LiveRecord I R Num)
    unfolding written is_retired
    next_stored c a p received_at =
        if is_retired c a
        then none
        else if not (telemetry_sample_is_newer F c.fix.timestamp c.seq p c.device_timestamp)
        then none
        else some (written c a p received_at)

    unfoldable pub next_telemetry_value :
        R
        → Option (LiveRecord I R Num)
        → DeviceAssignment I Num
        → TelemetryPayload Num
        → Num
        → Option (LiveRecord I R Num)
    unfolding next_stored initial_record
    next_telemetry_value presence none a p received_at =
        next_stored (initial_record presence) a p received_at
    next_telemetry_value presence (some c) a p received_at = next_stored c a p received_at
