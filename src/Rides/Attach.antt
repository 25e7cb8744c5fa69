-- ===== src/Rides/Attach.antt =====
-- The rest of `startAssignedService` in backend/src/services/rideSessionStart.ts: the lock of a ride that
-- the live node still shows, and the writes of a start's session and durable ride, which a start with an
-- idempotency key makes in one guarded transaction and one without a key makes without a look; and
-- `deleteTerminalRideHistory` of backend/src/services/rideHistoryDeletion.ts.
use eki.Direction.Endpoint.{RideDirection}
use eki.Prelude.{
  ℕ, ℕ_discrete, List, [], ◌∷◌, Option, some, none, Bool, true, false, if◌then◌else◌, ◌==◌, ◌&&◌,
  ◌||◌, not, holds, is_some, or_else, ltb, max, ite,
}
use eki.Prelude.OrderedMap.{lookup, set}
use eki.Rides.Engine.{normalized_delay_minutes}
use eki.Rides.History.{StopReached}
use eki.Rides.Records.{
  RideStatus, pending_ride, armed_ride, active_ride, is_unfinished, Session, BusStore, DurableRide,
}
use eki.Rides.Start.{ServiceAssignment, find_session, put_session, owns_lock}
use eki.Trip.Types.{in_service, pre_departure, TripState}

-- What a start writes to its session. The times and the first stop are written only by some starts.
pub record StartPatch (S N : Type 0) : Type 0 where
  pub direction : Option RideDirection
  pub is_in_service : Bool
  pub assignment : Option ServiceAssignment
  pub endpoint_version : Option (Option ℕ)
  pub armed_at : Option N
  pub started : Option (N × StopReached S N)

-- What a start writes to the durable ride.
pub record RidePatch : Type 0 where
  pub session_id : ℕ
  pub route_id : ℕ
  pub driver_id : ℕ
  pub direction : RideDirection
  pub is_in_service : Bool
  pub current_stop_index : ℕ
  pub has_departed_origin : Bool
  pub delay_minutes : ℕ
  pub delay_updated_at : ℕ

abbrev pub start_status : Option RideDirection → Bool → RideStatus
start_status none _ = pending_ride
start_status (some _) true = active_ride
start_status (some _) false = armed_ride

-- A start never takes a status back.
abbrev pub kept_status : RideStatus → RideStatus → RideStatus
kept_status active_ride _ = active_ride
kept_status armed_ride pending_ride = armed_ride
kept_status _ next = next

abbrev pub trip_state_of : Bool → TripState
trip_state_of true = in_service
trip_state_of false = pre_departure

abbrev pub serves : TripState → Bool
serves in_service = true
serves _ = false

-- The entries without those of a document.
unfoldable pub forget {ℓ} : {A : Type ℓ} → ℕ → List (ℕ × A) → List (ℕ × A)
forget i [] = []
forget i ((j, a) ∷ m) = let rest = forget i m in ite (ℕ_discrete i j) rest ((j, a) ∷ rest)

-- The later delay of two.
abbrev pub later_delay : ℕ × ℕ → ℕ × ℕ → ℕ × ℕ
later_delay (minutes, at) (m, t) = if ltb at t then (m, t) else (minutes, at)

-- The durable ride of a start with a key, over the stored one of the same session, and with the delay
-- of the live node.
unfoldable pub creation_ride :
    {N : Type 0} → RidePatch → ℕ × ℕ → Option (DurableRide N) → DurableRide N
creation_ride p live none =
    let (minutes, at) =
      later_delay (p.delay_minutes, p.delay_updated_at) (normalized_delay_minutes live.0, live.1) in
    record {
      session_id = p.session_id;
      driver_id = p.driver_id;
      direction = p.direction;
      trip_state = trip_state_of p.is_in_service;
      current_stop_index = p.current_stop_index;
      has_departed_origin = p.has_departed_origin;
      terminal_arrival = none;
      gnss_gap_since = none;
      last_route_version = 0;
      delay_minutes = minutes;
      delay_updated_at = at;
      automatic_turnaround = false;
      previous_session_id = none;
    }
creation_ride p live (some r) =
    let stored =
      later_delay (p.delay_minutes, p.delay_updated_at) (r.delay_minutes, r.delay_updated_at) in
    let (minutes, at) = later_delay stored (normalized_delay_minutes live.0, live.1) in
    record r {
      session_id = p.session_id;
      driver_id = p.driver_id;
      direction = p.direction;
      trip_state = trip_state_of (p.is_in_service || serves r.trip_state);
      current_stop_index = max p.current_stop_index r.current_stop_index;
      has_departed_origin = p.has_departed_origin || r.has_departed_origin;
      delay_minutes = minutes;
      delay_updated_at = at;
    }

module _ {S N : Type 0} where
  -- The transaction that takes the lock for the session `i` of the live node: whether it has it. The key
  -- of a start that is bound to another session can only refuse it. A finished session is refused, and
  -- with a key also a session that is not stored.
  unfoldable pub attach_live :
      Bool → ServiceAssignment → Option RideDirection → ℕ → BusStore S N → BusStore S N × Bool
  attach_live keyed a direction i b =
      let refused : Bool = elim (find_session i b) [
        | none ↦ keyed
        | some s ↦ not (is_unfinished s.status)
      ] in
      if refused || (is_some b.lock && not (owns_lock i b)) then (b, false) else (
        record b {
          lock = some (record {
            session_id = i;
            route_id = a.route_id;
            driver_id = a.driver_id;
            direction = direction;
          });
        },
        true,
      )

  -- The fields of a patch over those stored.
  unfoldable pub merged_session : StartPatch S N → Session S N → Session S N
  merged_session p s = record s {
    status = start_status p.direction p.is_in_service;
    route_id = elim p.assignment [ none ↦ s.route_id | some a ↦ a.route_id ];
    driver_id = elim p.assignment [ none ↦ s.driver_id | some a ↦ a.driver_id ];
    direction = p.direction;
    endpoint_version = elim p.endpoint_version [ none ↦ s.endpoint_version | some v ↦ v ];
    armed_at = or_else p.armed_at s.armed_at;
    start_time = elim p.started [ none ↦ s.start_time | some (t, _) ↦ some t ];
    stops_reached = elim p.started [
      | none ↦ s.stops_reached
      | some (_, stop) ↦ set ℕ_discrete 0 stop s.stops_reached
    ];
  }

  -- A session with nothing but its assignment.
  abbrev blank_session : ServiceAssignment → Session S N
  blank_session a = record {
    status = pending_ride;
    route_id = a.route_id;
    driver_id = a.driver_id;
    direction = none;
    endpoint_version = none;
    automatic_turnaround = false;
    previous_session_id = none;
    armed_at = none;
    start_time = none;
    end_time = none;
    terminal_arrival_confirmed_at = none;
    stops_reached = [];
  }

  -- The write of a start without a key, which creates a session that is not stored. A patch without an
  -- assignment, on a session that was deleted since it was claimed, would leave one without a route,
  -- which has no counterpart here.
  unfoldable pub overwrite_session : ℕ → StartPatch S N → BusStore S N → BusStore S N
  unfolding merged_session
  overwrite_session i p b = elim (find_session i b) [
    | none ↦ elim p.assignment [
      | none ↦ b
      | some a ↦ put_session i (merged_session p (blank_session a)) b
    ]
    | some s ↦ put_session i (merged_session p s) b
  ]

  -- `sessionData` of `commitCreationProjections`: what is stored of a direction, of a start and of stops
  -- stays, and so does a status that is further on.
  unfoldable pub creation_session : StartPatch S N → Session S N → Session S N
  unfolding merged_session
  creation_session p s =
      let m = merged_session p s in
      record m {
        status = kept_status s.status m.status;
        direction = or_else s.direction m.direction;
        endpoint_version = if is_some s.direction then s.endpoint_version else m.endpoint_version;
        start_time = or_else s.start_time m.start_time;
        stops_reached = elim s.stops_reached [ [] ↦ m.stops_reached | _ ∷ _ ↦ s.stops_reached ];
      }

  -- `commitCreationProjections`, the writes of a start with a key: whether they are made. The live node
  -- has another store, so that whether it still shows this session, and its delay, are arguments.
  unfoldable pub commit_creation :
      ℕ → StartPatch S N → Option RidePatch → Bool → ℕ × ℕ → BusStore S N → BusStore S N × Bool
  unfolding creation_session creation_ride
  commit_creation i p ride live_fits live b = elim (find_session i b) [
    | none ↦ (b, false)
    | some s ↦ if not (is_unfinished s.status) || not live_fits then (b, false) else elim ride [
      | none ↦ (put_session i (creation_session p s) b, true)
      | some r ↦
          let stored = lookup ℕ_discrete r.route_id b.rides in
          if holds (λ (d : DurableRide N). not (d.session_id == i)) stored then (b, false) else (
            record (put_session i (creation_session p s) b) {
              rides = set ℕ_discrete r.route_id (creation_ride r live stored) b.rides;
            },
            true,
          )
    ]
  ]

  -- The deletion of a session's history, with its completed trip: whether it is deleted. A session
  -- that is not finished is refused.
  unfoldable pub delete_history : ℕ → BusStore S N → BusStore S N × Bool
  unfolding forget
  delete_history i b =
      if holds (λ (s : Session S N). is_unfinished s.status) (find_session i b)
      then (b, false)
      else (
        record b { sessions = forget i b.sessions; completed_trips = forget i b.completed_trips },
        true,
      )
