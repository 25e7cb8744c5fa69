-- ===== src/Rides/Engine.antt =====
-- The transactions of backend/src/services/tripStateEngine.ts on the documents of a bus: the progress
-- of a ride, its completion, and the return that is armed after it.
use eki.Geo.{Float}
use eki.Direction.Endpoint.{RideDirection}
use eki.Prelude.{
  not, ◌&&◌, ℕ, ℕ_discrete, List, ◌++◌, Option, some, none, Bool, true, false, if◌then◌else◌, ◌==◌,
  ◌||◌, holds, or_else, length, ltb, leb, max,
}
use eki.Prelude.OrderedMap.{lookup, set}
use eki.Rides.History.{missing_stop_history}
use eki.Rides.Records.{
  RideStatus, active_ride, is_unfinished, Session, BusStore, DurableRide, LiveNode,
}
use eki.Rides.Start.{find_session, put_session, owns_lock}
use eki.Trip.Types.{in_service, TripState, TerminalArrivalEvidence}

-- What a fix makes of a ride: the fields of the reducer's result that the engine stores.
pub record RideProgress (N : Type 0) : Type 0 where
  pub trip_state : TripState
  pub current_stop_index : ℕ
  pub has_departed_origin : Bool
  pub terminal_arrival : Option (TerminalArrivalEvidence N)
  pub gnss_gap_since : Option N
  pub skipped_stop_indices : List ℕ
  pub unobserved_stop_indices : List ℕ

-- `RideCheckpoint`.
pub record RideCheckpoint (N : Type 0) : Type 0 where
  pub trip_state : TripState
  pub current_stop_index : ℕ
  pub has_departed_origin : Bool
  pub terminal_arrival : Option (TerminalArrivalEvidence N)
  pub last_route_version : ℕ

abbrev pub is_in_service : TripState → Bool
is_in_service in_service = true
is_in_service _ = false

abbrev pub is_active_ride : RideStatus → Bool
is_active_ride active_ride = true
is_active_ride _ = false

unfoldable pub normalized_delay_minutes : ℕ → ℕ
normalized_delay_minutes n = if leb n 1_440 then n else 0

module _ (F : Float) where
  open F use {Num, lt}

  -- `checkpoint`: progress never falls behind what is stored of the same session.
  unfoldable pub checkpoint_of :
      LiveNode Num → RideProgress Num → ℕ → Option (DurableRide Num) → RideCheckpoint Num
  checkpoint_of event p stop_count none = record {
    trip_state = p.trip_state;
    current_stop_index = p.current_stop_index;
    has_departed_origin = p.has_departed_origin;
    terminal_arrival = p.terminal_arrival;
    last_route_version = event.route_version;
  }
  checkpoint_of event p stop_count (some r) = record {
    trip_state = if is_in_service r.trip_state then in_service else p.trip_state;
    current_stop_index =
        max p.current_stop_index
          (if ltb r.current_stop_index stop_count then r.current_stop_index else 0);
    has_departed_origin = p.has_departed_origin || r.has_departed_origin;
    terminal_arrival =
        if holds (λ (t : TerminalArrivalEvidence Num). lt event.timestamp t.last_sampled_at)
          r.terminal_arrival
        then r.terminal_arrival
        else p.terminal_arrival;
    last_route_version = max event.route_version r.last_route_version;
  }

  unfoldable pub durable_ride :
      LiveNode Num
      → RideProgress Num
      → RideCheckpoint Num
      → ℕ
      → ℕ
      → RideDirection
      → Option (DurableRide Num)
      → DurableRide Num
  unfolding normalized_delay_minutes
  durable_ride event p c i driver direction stored =
      let newer_delay : Bool =
        holds (λ (r : DurableRide Num). ltb event.delay_updated_at r.delay_updated_at) stored in
      let own_delay = normalized_delay_minutes event.delay_minutes in
      record {
        session_id = i;
        driver_id = driver;
        direction = direction;
        trip_state = c.trip_state;
        current_stop_index = c.current_stop_index;
        has_departed_origin = c.has_departed_origin;
        terminal_arrival = c.terminal_arrival;
        gnss_gap_since = p.gnss_gap_since;
        last_route_version = c.last_route_version;
        delay_minutes = elim stored [
          | none ↦ own_delay
          | some r ↦ if newer_delay then normalized_delay_minutes r.delay_minutes else own_delay
        ];
        delay_updated_at = elim stored [
          | none ↦ event.delay_updated_at
          | some r ↦ if newer_delay then r.delay_updated_at else event.delay_updated_at
        ];
        automatic_turnaround = elim stored [ none ↦ false | some r ↦ r.automatic_turnaround ];
        previous_session_id = elim stored [ none ↦ none | some r ↦ r.previous_session_id ];
      }

module _ (F : Float) {S : Type 0} where
  open F use {Num, lit, add, lt, num_eq, maximum}

  -- The durable ride of the route, if it belongs to the session.
  abbrev pub same_session_ride : ℕ → ℕ → BusStore S Num → Option (DurableRide Num)
  same_session_ride route i b = elim (lookup ℕ_discrete route b.rides) [
    | none ↦ none
    | some r ↦ if r.session_id == i then some r else none
  ]

  -- The session with the stops that were passed, and active once it is in service.
  unfoldable pub with_progress :
      LiveNode Num
      → RideProgress Num
      → RideCheckpoint Num
      → List S
      → Num
      → Session S Num
      → Session S Num
  with_progress event p c stops now s =
      let added =
        missing_stop_history stops c.trip_state c.current_stop_index s.stops_reached now
          event.current_stop_index p.skipped_stop_indices p.unobserved_stop_indices in
      let recorded = record s { stops_reached = s.stops_reached ++ added } in
      let activated = record recorded {
        status = active_ride;
        start_time = or_else s.start_time (some now);
      } in
      if is_in_service c.trip_state && not (is_active_ride s.status) then activated else recorded

  -- The transaction of `persistActiveRideLifecycle`, for a session, its driver and its direction.
  unfoldable pub commit_progress :
      LiveNode Num
      → RideProgress Num
      → List S
      → Num
      → ℕ
      → ℕ
      → RideDirection
      → BusStore S Num
      → BusStore S Num × Option (RideCheckpoint Num)
  commit_progress event p stops now i driver direction b =
      let stored = lookup ℕ_discrete event.route_id b.rides in
      let c = checkpoint_of F event p (length stops) (same_session_ride event.route_id i b) in
      let ride = durable_ride F event p c i driver direction stored in
      let recorded : BusStore S Num = elim (find_session i b) [
        | none ↦ b
        | some s ↦
            if is_unfinished s.status
            then put_session i (with_progress event p c stops now s) b
            else b
      ] in
      if owns_lock i b
      then (record recorded { rides = set ℕ_discrete event.route_id ride recorded.rides }, some c)
      else (b, none)

  -- `persistActiveRideLifecycle`: nothing is written for an event that is no active ride.
  unfoldable pub persist_active_ride :
      LiveNode Num
      → RideProgress Num
      → List S
      → Num
      → BusStore S Num
      → BusStore S Num × Option (RideCheckpoint Num)
  unfolding commit_progress
  persist_active_ride event p stops now b = elim event.session_id [
    | none ↦ (b, none)
    | some i ↦ elim event.driver_id [
      | none ↦ (b, none)
      | some driver ↦ elim event.direction [
        | none ↦ (b, none)
        | some direction ↦
            if event.is_active
            then commit_progress event p stops now i driver direction b
            else (b, none)
      ]
    ]
  ]
