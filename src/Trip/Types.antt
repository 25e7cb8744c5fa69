-- ===== src/Trip/Types.antt =====
-- The data of the trip reducer (backend/src/services/tripStateReducer.ts, backend/src/types/index.ts).
use eki.Prelude.{ℕ, Bool, List, Option}
use eki.Prelude.Int.{ℤ}
use eki.Geo.{LatLng}

pub data MotionState : Type 0 where
  moving stopped uncertain : MotionState

pub data TripState : Type 0 where
  pre_departure in_service completed : TripState

-- `LegacyTripState` is `TripState | "maintenance"`.
pub data LegacyTripState : Type 0 where
  trip : TripState → LegacyTripState
  maintenance : LegacyTripState

pub record TerminalArrivalEvidence (N : Type 0) : Type 0 where
  pub started_at : N
  pub last_sampled_at : N

-- An absent and a null quality are one: the code asks `typeof gpsHdop === "number"`.
pub record TripPosition (N : Type 0) : Type 0 where
  pub place : LatLng N
  pub motion_state : Option MotionState
  pub gps_hdop : Option N
  pub timestamp : Option N

pub record TripStateInput (N : Type 0) : Type 0 where
  pub place : LatLng N
  pub previous_position : Option (TripPosition N)
  pub motion_state : MotionState
  pub current_trip_state : LegacyTripState
  pub current_stop_index : ℤ
  pub stops : List (LatLng N)
  pub has_departed_origin : Bool
  pub timestamp : Option N
  pub now : Option N
  pub gps_hdop : Option N
  pub speed : Option N
  pub heading : Option N
  pub terminal_arrival : Option (TerminalArrivalEvidence N)
  pub gnss_gap_since : Option N

pub record TripStateResult (N : Type 0) : Type 0 where
  pub trip_state : TripState
  pub current_stop_index : ℤ
  pub has_departed_origin : Bool
  pub terminal_arrival : Option (TerminalArrivalEvidence N)
  pub gnss_gap_since : Option N
  pub skipped_stop_indices : Option (List ℕ)
  pub unobserved_stop_indices : Option (List ℕ)
