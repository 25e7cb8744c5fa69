-- ===== src/Rides/Start.antt =====
-- The transactions that open a ride and end it by hand: those of `startAssignedService` in
-- backend/src/services/rideSessionStart.ts, of the stop of a shift in backend/src/routes/shifts.ts, and of
-- backend/src/services/abandonedRideReconciler.ts. Idempotency keys, a pinned session and a route that
-- changed meanwhile can only refuse a start, and are left out.
use eki.Direction.Endpoint.{RideDirection}
use eki.Prelude.{
  ℕ, ℕ_discrete, [], Option, some, none, Bool, true, false, if◌then◌else◌, ◌==◌, ◌&&◌, ◌||◌, not,
  holds, is_some, or_else,
}
use eki.Prelude.OrderedMap.{lookup, set, remove}
use eki.Rides.Records.{
  RideStatus, pending_ride, failed_ride, interrupted_ride, is_unfinished, Session, BusLock,
  BusStore, DurableRide,
}

pub record ServiceAssignment : Type 0 where
  pub driver_id : ℕ
  pub route_id : ℕ

-- `{ sessionId, created, direction }` of a lock that was claimed.
pub record LockClaim : Type 0 where
  pub session_id : ℕ
  pub created : Bool
  pub direction : Option RideDirection

abbrev pub same_direction : RideDirection → RideDirection → Bool
same_direction RideDirection.forward RideDirection.forward = true
same_direction RideDirection.reverse RideDirection.reverse = true
same_direction _ _ = false

abbrev pub is_interrupted : RideStatus → Bool
is_interrupted interrupted_ride = true
is_interrupted _ = false

module _ {S N : Type 0} where
  -- The session of this number, and the entry of a number.
  abbrev pub find_session : ℕ → BusStore S N → Option (Session S N)
  find_session i b = lookup ℕ_discrete i b.sessions

  abbrev pub put_session : ℕ → Session S N → BusStore S N → BusStore S N
  put_session i s b = record b { sessions = set ℕ_discrete i s b.sessions }

  -- `lock.data()?.sessionId === sessionId`.
  abbrev pub owns_lock : ℕ → BusStore S N → Bool
  owns_lock i b = holds (λ (l : BusLock). l.session_id == i) b.lock

  unfoldable pub release_lock : ℕ → BusStore S N → BusStore S N
  release_lock i b = if owns_lock i b then record b { lock = none } else b

  -- A ride of the route that belongs to the session is deleted.
  unfoldable pub drop_ride : ℕ → ℕ → BusStore S N → BusStore S N
  drop_ride route i b =
      if holds (λ (r : DurableRide N). r.session_id == i) (lookup ℕ_discrete route b.rides)
      then record b { rides = remove ℕ_discrete route b.rides }
      else b

  -- The unfinished session of a lock, with the direction that it gets if it has none.
  unfoldable pub resumed_store :
      Option RideDirection → ℕ → BusLock → Session S N → BusStore S N → BusStore S N
  resumed_store requested version l s b =
      record (put_session l.session_id
        (record s { direction = requested; endpoint_version = some version }) b) {
          lock = some (record l { direction = requested });
        }

  -- A lock of another assignment, a finished session, or another direction.
  unfoldable pub refuses_resume :
      ServiceAssignment → Option RideDirection → BusLock → Session S N → Bool
  refuses_resume a requested l s =
      not ((l.driver_id == a.driver_id) && (l.route_id == a.route_id))
      || (not (is_unfinished s.status)
          || holds (λ d. holds (λ r. not (same_direction d r)) requested) s.direction)

  -- A lock that exists: its session is resumed.
  unfoldable pub resume_service :
      ServiceAssignment
      → Option RideDirection
      → ℕ
      → BusLock
      → BusStore S N
      → BusStore S N × Option LockClaim
  resume_service a requested version l b = elim (find_session l.session_id b) [
    | none ↦ (b, none)
    | some s ↦
        let claim = some (record {
          session_id = l.session_id;
          created = false;
          direction = or_else s.direction requested;
        }) in
        if refuses_resume a requested l s
        then (b, none)
        else if is_some requested && not (is_some s.direction)
        then (resumed_store requested version l s b, claim)
        else (b, claim)
  ]

  abbrev pub opened_session : ServiceAssignment → Option RideDirection → ℕ → N → Session S N
  opened_session a requested version now = record {
    status = pending_ride;
    route_id = a.route_id;
    driver_id = a.driver_id;
    direction = requested;
    endpoint_version = elim requested [ none ↦ none | some _ ↦ some version ];
    automatic_turnaround = false;
    previous_session_id = none;
    armed_at = some now;
    start_time = none;
    end_time = none;
    terminal_arrival_confirmed_at = none;
    stops_reached = [];
  }

  -- A new session with the lock; the terminal checkpoint is forgotten.
  unfoldable pub opened_store :
      ServiceAssignment → Option RideDirection → ℕ → ℕ → N → BusStore S N → BusStore S N
  opened_store a requested version new now b =
      record (put_session new (opened_session a requested version now) b) {
        lock = some (record {
          session_id = new;
          route_id = a.route_id;
          driver_id = a.driver_id;
          direction = requested;
        });
        terminal_journey = none;
      }

  -- A free lock. `none` also where the number of the new session is taken, which
  -- `transaction.create` refuses.
  unfoldable pub open_service :
      ServiceAssignment
      → Option RideDirection
      → ℕ
      → ℕ
      → N
      → BusStore S N
      → BusStore S N × Option LockClaim
  open_service a requested version new now b = elim (find_session new b) [
    | some _ ↦ (b, none)
    | none ↦ (
      opened_store a requested version new now b,
      some (record { session_id = new; created = true; direction = requested }),
    )
  ]

  unfoldable pub start_service :
      ServiceAssignment
      → Option RideDirection
      → ℕ
      → ℕ
      → N
      → BusStore S N
      → BusStore S N × Option LockClaim
  start_service a requested version new now b = elim b.lock [
    | some l ↦ resume_service a requested version l b
    | none ↦ open_service a requested version new now b
  ]

  -- A session that ends gives its lock back, in one transaction.
  unfoldable pub ended_store : ℕ → RideStatus → N → Session S N → BusStore S N → BusStore S N
  ended_store i status now s b =
      release_lock i (put_session i (record s { status = status; end_time = some now }) b)

  -- A start that created its session and then lost the live node: the session fails. A session that
  -- is not there would be created without its other fields, and is left alone.
  unfoldable pub fail_service : ℕ → N → BusStore S N → BusStore S N
  fail_service i now b = elim (find_session i b) [
    | none ↦ b
    | some s ↦ ended_store i failed_ride now s b
  ]

  -- The stop of a shift by hand: whether the session is interrupted now. One that was interrupted
  -- before keeps its end, and its ride and lock are given back again.
  unfoldable pub end_early : ServiceAssignment → ℕ → N → BusStore S N → BusStore S N × Bool
  end_early a i now b = elim (find_session i b) [
    | none ↦ (b, false)
    | some s ↦
        if not ((s.driver_id == a.driver_id) && (s.route_id == a.route_id))
        then (b, false)
        else if is_unfinished s.status
        then (ended_store i interrupted_ride now s (drop_ride a.route_id i b), true)
        else if is_interrupted s.status
        then (release_lock i (drop_ride a.route_id i b), true)
        else (b, false)
  ]

  -- The reconciler's transaction. Its decision, which is Abandoned/Defs, is an argument as far as the
  -- times go: since when the session is abandoned, and whether the durable ride is as old. A session
  -- that is finished is never abandoned.
  unfoldable pub interrupt_ride : ℕ → ℕ → Option N → Bool → BusStore S N → BusStore S N × Bool
  interrupt_ride route i decided ride_is_old b = elim (find_session i b) [
    | none ↦ (b, false)
    | some s ↦ elim decided [
      | none ↦ (b, false)
      | some last ↦
          if is_unfinished s.status
          then (
            ended_store i interrupted_ride last s (if ride_is_old then drop_ride route i b else b),
            true,
          )
          else (b, false)
    ]
  ]
