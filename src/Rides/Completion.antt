-- ===== src/Rides/Completion.antt =====
-- The completion of a ride: a transaction of backend/src/services/tripStateEngine.ts on the documents of
-- a bus.
use eki.Geo.{Float}
use eki.Direction.Endpoint.{RideDirection}
use eki.Prelude.{
  ℕ, ℕ_discrete, List, [], ◌++◌, Option, some, none, Bool, true, false, if◌then◌else◌, ◌==◌, ◌&&◌,
  ◌||◌, not, holds, length,
}
use eki.Prelude.OrderedMap.{lookup, set}
use eki.Rides.History.{missing_stop_history}
use eki.Rides.Records.{
  completed_ride, is_unfinished, Session, BusLock, BusStore, DurableRide, LiveNode, CompletedTrip,
  TerminalJourney, RideStatus,
}
use eki.Rides.Start.{find_session, put_session, owns_lock, release_lock, drop_ride, same_direction}
use eki.Trip.Types.{completed}

-- `{ completedAtMs, eligibleAt }` of a completion that is stored.
pub record Completion (N : Type 0) : Type 0 where
  pub completed_at : N
  pub eligible_at : N

abbrev pub is_completed_ride : RideStatus → Bool
is_completed_ride completed_ride = true
is_completed_ride _ = false

module _ (F : Float) where
  open F use {Num, maximum}

  -- The checkpoint from which a return may be armed once.
  unfoldable pub journey_of :
      LiveNode Num → RideDirection → ℕ → ℕ → ℕ → ℕ → Completion Num → TerminalJourney Num
  journey_of event direction index version i driver c = record {
    session_id = i;
    route_id = event.route_id;
    driver_id = driver;
    direction = direction;
    endpoint_version = version;
    completed_at = c.completed_at;
    turnaround_eligible_at = c.eligible_at;
    turnaround_sampled_at = maximum event.timestamp c.eligible_at;
    consumed_by = none;
    current_stop_index = index;
  }

module _ (F : Float) {S : Type 0} where
  open F use {Num, lit, add, is_finite, maximum}

  -- A session that is completed already: the completion as it was stored, if no other ride has taken
  -- over.
  unfoldable pub recover_completion :
      LiveNode Num → RideDirection → Num → ℕ → BusStore S Num → Option (Completion Num)
  recover_completion event direction dwell i b = elim (lookup ℕ_discrete i b.completed_trips) [
    | none ↦ none
    | some t ↦
        let other_lock = holds (λ (l : BusLock). not (l.session_id == i)) b.lock in
        let other_ride =
          holds (λ (r : DurableRide Num). not (r.session_id == i))
            (lookup ℕ_discrete event.route_id b.rides) in
        let same_trip =
          holds (λ j. j == i) t.session_id
          && ((t.route_id == event.route_id) && same_direction t.direction direction) in
        if not same_trip || (not (is_finite t.completed_at) || (other_lock || other_ride))
        then none
        else some (record {
          completed_at = t.completed_at;
          eligible_at =
              if is_finite t.turnaround_eligible_at
              then t.turnaround_eligible_at
              else add t.completed_at dwell;
        })
  ]

  abbrev pub trip_of : LiveNode Num → RideDirection → List S → Completion Num → CompletedTrip Num
  trip_of event direction stops c = record {
    session_id = event.session_id;
    route_id = event.route_id;
    driver_id = event.driver_id;
    direction = direction;
    completed_at = c.completed_at;
    turnaround_eligible_at = c.eligible_at;
    stop_count = length stops;
  }

  abbrev pub finished_session :
      LiveNode Num → ℕ → List S → Completion Num → Session S Num → Session S Num
  finished_session event index stops c s = record s {
    status = completed_ride;
    terminal_arrival_confirmed_at = some c.completed_at;
    end_time = some c.completed_at;
    stops_reached =
        s.stops_reached
        ++ missing_stop_history stops completed index s.stops_reached c.completed_at
            event.current_stop_index [] [];
  }

  -- The session and its completed trip.
  abbrev pub completed_store :
      LiveNode Num
      → RideDirection
      → ℕ
      → List S
      → ℕ
      → Session S Num
      → Completion Num
      → BusStore S Num
      → BusStore S Num
  completed_store event direction index stops i s c b =
      record (put_session i (finished_session event index stops c s) b) {
        completed_trips = set ℕ_discrete i (trip_of event direction stops c) b.completed_trips;
      }

  -- The writes for the session that completes.
  unfoldable pub finish_session :
      LiveNode Num
      → RideDirection
      → ℕ
      → List S
      → ℕ
      → ℕ
      → Session S Num
      → Completion Num
      → BusStore S Num
      → BusStore S Num
  unfolding journey_of
  finish_session event direction index stops version i s c b =
      let stored = completed_store event direction index stops i s c b in
      let freed = release_lock i (drop_ride event.route_id i stored) in
      elim event.driver_id [
        | none ↦ freed
        | some driver ↦ record freed {
          terminal_journey = some (journey_of F event direction index version i driver c);
        }
      ]

  -- The transaction of a confirmed terminal arrival at a stop index: `none` where another ride or a
  -- manual stop has won.
  unfoldable pub complete_ride :
      LiveNode Num
      → RideDirection
      → ℕ
      → List S
      → ℕ
      → Num
      → Num
      → BusStore S Num
      → BusStore S Num × Option (Completion Num)
  unfolding finish_session recover_completion
  complete_ride event direction index stops version now dwell b =
      let c : Completion Num = record { completed_at = now; eligible_at = add now dwell } in
      elim event.session_id [
        | none ↦ (
          record b {
            route_completions =
                set ℕ_discrete event.route_id (trip_of event direction stops c) b.route_completions;
          },
          some c,
        )
        | some i ↦ elim (find_session i b) [
          | none ↦ (b, none)
          | some s ↦
              if is_completed_ride s.status
              then (b, recover_completion event direction dwell i b)
              else if not (owns_lock i b) || not (is_unfinished s.status)
              then (b, none)
              else (finish_session event direction index stops version i s c b, some c)
        ]
      ]
