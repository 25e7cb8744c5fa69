-- ===== src/Abandoned/Defs.antt =====
-- `reconciliationDecision` of backend/src/services/abandonedRideReconciliationLogic.ts. A time is
-- what `timestampMillis` reads, in whole milliseconds, or `none`; the stops, points and passengers of
-- a session are the times that they carry.
use eki.Prelude.{
  ℕ, List, [], ◌∷◌, ◌++◌, Option, some, none, Bool, true, false, if◌then◌else◌, leb, not, ◌&&◌,
  ◌||◌, ◌+◌, max, holds, is_some,
}
use eki.Trip.Types.{pre_departure, TripState}
use mathlib.Core.Logic.{ite}

abbrev pub automatic_return_retention_ms : ℕ
automatic_return_retention_ms = 86_400_000

pub data SessionStatus : Type 0 where
  pending armed active other_status : SessionStatus

pub record RideSession : Type 0 where
  pub status : SessionStatus
  pub automatic_turnaround : Bool
  -- `startTime`, and whether it is there at all, `startTime != null`.
  pub start_time : Option ℕ
  pub has_start_time : Bool
  pub created_at : Option ℕ
  pub armed_at : Option ℕ
  pub activated_at : Option ℕ
  pub updated_at : Option ℕ
  pub stops_reached : List (Option ℕ)
  pub path : List (Option ℕ)
  pub passengers : List (Option ℕ)

pub record ActiveRide (I : Type 0) : Type 0 where
  pub session_id : Option I
  pub trip_state : Option TripState
  pub has_departed_origin : Option Bool
  pub updated_at : Option ℕ
  pub created_at : Option ℕ

pub record LiveBus (I : Type 0) : Type 0 where
  pub session_id : Option I
  pub trip_state : Option TripState
  pub timestamp : Option ℕ
  pub received_at : Option ℕ
  pub lifecycle_updated_at : Option ℕ

pub data DecisionReason : Type 0 where
  is_stale is_terminal is_recent unknown_activity is_ready : DecisionReason

pub record ReconciliationDecision : Type 0 where
  pub stale : Bool
  pub last_activity : Option ℕ
  pub reason : DecisionReason

abbrev pub is_reconcilable : SessionStatus → Bool
is_reconcilable other_status = false
is_reconcilable _ = true

abbrev pub is_armed : SessionStatus → Bool
is_armed armed = true
is_armed _ = false

abbrev pub is_pre_departure : TripState → Bool
is_pre_departure pre_departure = true
is_pre_departure _ = false

-- The latest of the times that are known.
unfoldable pub latest : List (Option ℕ) → Option ℕ
latest [] = none
latest (none ∷ ts) = latest ts
latest (some t ∷ ts) = elim (latest ts) [ none ↦ some t | some u ↦ some (max t u) ]

unfoldable pub activity_values : RideSession → List (Option ℕ)
activity_values s =
    (s.created_at ∷ s.armed_at ∷ s.start_time ∷ s.activated_at ∷ s.updated_at ∷ [])
    ++ (s.stops_reached ++ (s.path ++ s.passengers))

abbrev pub ride_times : {I : Type 0} → ActiveRide I → List (Option ℕ)
ride_times r = r.updated_at ∷ r.created_at ∷ []

abbrev pub bus_times : {I : Type 0} → LiveBus I → List (Option ℕ)
bus_times b = b.timestamp ∷ b.received_at ∷ b.lifecycle_updated_at ∷ []

module _ {I : Type 0} (dec : Discrete I) where
  unfoldable pub matching_session : I → Option I → Bool
  matching_session i none = false
  matching_session i (some j) = ite (dec j i) true false

  -- A stored record, if it belongs to the session.
  unfoldable pub matching_ride : I → Option (ActiveRide I) → Option (ActiveRide I)
  matching_ride i none = none
  matching_ride i (some r) = if matching_session i r.session_id then some r else none

  unfoldable pub matching_bus : I → Option (LiveBus I) → Option (LiveBus I)
  matching_bus i none = none
  matching_bus i (some b) = if matching_session i b.session_id then some b else none

-- `unusedAutomaticReturn`, of the records that belong to the session.
unfoldable pub unused_automatic_return :
    {I : Type 0} → RideSession → Option (ActiveRide I) → Option (LiveBus I) → Bool
unused_automatic_return s ride bus =
    is_armed s.status
    && (s.automatic_turnaround
        && (not s.has_start_time
            && (holds (λ r. holds is_pre_departure r.trip_state && holds not r.has_departed_origin)
                  ride
                && not (holds (λ b. not (holds is_pre_departure b.trip_state)) bus))))

-- `lastActivity <= inactivityCutoff`.
abbrev pub is_inactive : Bool → ℕ → ℕ → ℕ → Bool
is_inactive unused cutoff now t =
    leb t cutoff && (not unused || leb (t + automatic_return_retention_ms) now)

abbrev pub no_decision : Option ℕ → DecisionReason → ReconciliationDecision
no_decision t reason = record { stale = false; last_activity = t; reason = reason }

-- The decision, of the records that belong to the session.
unfoldable pub decide :
    {I : Type 0}
    → RideSession
    → Option (ActiveRide I)
    → Option (LiveBus I)
    → ℕ
    → ℕ
    → ReconciliationDecision
decide s ride bus cutoff now =
    let unused = unused_automatic_return s ride bus in
    let session_activity = latest (activity_values s) in
    let ride_activity : Option ℕ = elim ride [ none ↦ none | some r ↦ latest (ride_times r) ] in
    let bus_activity : Option ℕ = elim bus [ none ↦ none | some b ↦ latest (bus_times b) ] in
    if not (is_reconcilable s.status)
    then no_decision none is_terminal
    else if (is_some ride && not (is_some ride_activity))
        || (is_some bus && not (is_some bus_activity))
    then no_decision session_activity unknown_activity
    else elim (latest (session_activity ∷ ride_activity ∷ bus_activity ∷ [])) [
      | none ↦ no_decision none unknown_activity
      | some last ↦
          if is_inactive unused cutoff now last
          then record { stale = true; last_activity = some last; reason = is_stale }
          else no_decision (some last) (if unused then is_ready else is_recent)
    ]

unfoldable pub reconciliation_decision :
    {I : Type 0}
    → Discrete I
    → I
    → RideSession
    → Option (ActiveRide I)
    → Option (LiveBus I)
    → ℕ
    → ℕ
    → ReconciliationDecision
unfolding decide
reconciliation_decision dec i s ride bus cutoff now =
    decide s (matching_ride dec i ride) (matching_bus dec i bus) cutoff now
