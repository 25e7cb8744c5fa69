-- ===== src/Rides/Records.antt =====
-- The documents of one bus: its sessions, its lock, its durable rides, completed trips and terminal
-- checkpoint, and the live node of one of its routes, with the fields that the transactions of
-- backend/src/services/tripStateEngine.ts, backend/src/services/rideSessionStart.ts and
-- backend/src/routes/shifts.ts read or write. A session, a driver and a route are named by numbers, and
-- so is the version of a route's endpoints.
use eki.Direction.Endpoint.{RideDirection}
use eki.Geo.{LatLng}
use eki.Prelude.{ℕ, List, Option, Bool, true, false}
use eki.Rides.History.{StopReached}
use eki.Trip.Types.{LegacyTripState, MotionState, TerminalArrivalEvidence, TripState}

pub data RideStatus : Type 0 where
  pending_ride armed_ride active_ride : RideStatus
  completed_ride interrupted_ride failed_ride : RideStatus

-- `["pending", "armed", "active"].includes(status)`.
abbrev pub is_unfinished : RideStatus → Bool
is_unfinished pending_ride = true
is_unfinished armed_ride = true
is_unfinished active_ride = true
is_unfinished _ = false

-- A document of `ride_sessions`, of this bus.
pub record Session (S N : Type 0) : Type 0 where
  pub status : RideStatus
  pub route_id : ℕ
  pub driver_id : ℕ
  pub direction : Option RideDirection
  pub endpoint_version : Option ℕ
  pub automatic_turnaround : Bool
  pub previous_session_id : Option ℕ
  pub armed_at : Option N
  pub start_time : Option N
  pub end_time : Option N
  pub terminal_arrival_confirmed_at : Option N
  pub stops_reached : List (ℕ × StopReached S N)

-- The document of `_active_bus_locks`.
pub record BusLock : Type 0 where
  pub session_id : ℕ
  pub route_id : ℕ
  pub driver_id : ℕ
  pub direction : Option RideDirection

-- A document of `active_rides`.
pub record DurableRide (N : Type 0) : Type 0 where
  pub session_id : ℕ
  pub driver_id : ℕ
  pub direction : RideDirection
  pub trip_state : TripState
  pub current_stop_index : ℕ
  pub has_departed_origin : Bool
  pub terminal_arrival : Option (TerminalArrivalEvidence N)
  pub gnss_gap_since : Option N
  pub last_route_version : ℕ
  pub delay_minutes : ℕ
  pub delay_updated_at : ℕ
  pub automatic_turnaround : Bool
  pub previous_session_id : Option ℕ

-- A document of `completed_trips`.
pub record CompletedTrip (N : Type 0) : Type 0 where
  pub session_id : Option ℕ
  pub route_id : ℕ
  pub driver_id : Option ℕ
  pub direction : RideDirection
  pub completed_at : N
  pub turnaround_eligible_at : N
  pub stop_count : ℕ

-- `terminalJourney` of the document of `bus_locations`.
pub record TerminalJourney (N : Type 0) : Type 0 where
  pub session_id : ℕ
  pub route_id : ℕ
  pub driver_id : ℕ
  pub direction : RideDirection
  pub endpoint_version : ℕ
  pub completed_at : N
  pub turnaround_eligible_at : N
  pub turnaround_sampled_at : N
  pub consumed_by : Option ℕ
  pub current_stop_index : ℕ

-- The documents of one bus. A completed trip without a session has its route as key.
pub record BusStore (S N : Type 0) : Type 0 where
  pub sessions : List (ℕ × Session S N)
  pub lock : Option BusLock
  pub rides : List (ℕ × DurableRide N)
  pub completed_trips : List (ℕ × CompletedTrip N)
  pub route_completions : List (ℕ × CompletedTrip N)
  pub terminal_journey : Option (TerminalJourney N)
  -- The bus that each driver is assigned to, if it is this one, and the routes of this bus.
  pub drivers : List (ℕ × Bool)
  pub assigned_routes : List ℕ

-- A node of `activeBuses`, which is also the event that the engine gets.
pub record LiveNode (N : Type 0) : Type 0 where
  pub session_id : Option ℕ
  pub route_id : ℕ
  pub driver_id : Option ℕ
  pub is_active : Bool
  pub is_offline : Bool
  pub direction : Option RideDirection
  pub trip_state : LegacyTripState
  pub current_stop_index : Option ℕ
  pub has_departed_origin : Bool
  pub terminal_arrival : Option (TerminalArrivalEvidence N)
  pub gnss_gap : Option (ℕ × N)
  pub at_stop : Option (ℕ × ℕ)
  pub unobserved_stops : Option (ℕ × List ℕ)
  pub timestamp : N
  pub place : LatLng N
  pub motion_state : Option MotionState
  pub gps_hdop : Option N
  pub route_version : ℕ
  pub delay_minutes : ℕ
  pub delay_updated_at : ℕ
  pub automatic_turnaround : Bool
  pub previous_session_id : Option ℕ
  pub completed_at : Option N
  pub turnaround_eligible_at : Option N
  pub turnaround_sampled_at : Option N
  pub turnaround_claim_id : Option ℕ
  pub turnaround_claimed_at : Option N
