-- ===== src/Rides/Return.antt =====
-- The return that is armed after a completed ride: the transaction of `maybeArmAutomaticTurnaround` of
-- backend/src/services/tripStateEngine.ts on the documents of a bus.
use eki.Rides.Completion.{is_completed_ride}
use eki.Geo.{Float}
use eki.Direction.Endpoint.{RideDirection, opposite_ride_direction}
use eki.Prelude.{
  ℕ, ℕ_discrete, [], some, none, Bool, true, false, if◌then◌else◌, ◌==◌, ◌&&◌, not, holds, is_some,
}
use eki.Prelude.OrderedMap.{lookup, set}
use eki.Rides.History.{includes}
use eki.Rides.Records.{armed_ride, Session, BusStore, DurableRide, TerminalJourney}
use eki.Rides.Start.{find_session, put_session, same_direction}
use eki.Trip.Types.{pre_departure}

module _ (F : Float) {S : Type 0} where
  open F use {Num, is_finite}

  -- The completed session and the checkpoint still allow a return.
  unfoldable pub may_return : ℕ → ℕ → ℕ → RideDirection → ℕ → BusStore S Num → Bool
  may_return i route driver direction version b =
      let session_fits : Bool =
        holds
          (λ (s : Session S Num).
            is_completed_ride s.status
            && (holds (same_direction direction) s.direction
                && (holds is_finite s.terminal_arrival_confirmed_at
                    && ((s.route_id == route) && (s.driver_id == driver)))))
          (find_session i b) in
      let journey_fits : Bool =
        holds
          (λ (j : TerminalJourney Num).
            (j.session_id == i)
            && (same_direction j.direction direction
                && (not (is_some j.consumed_by) && (j.endpoint_version == version))))
          b.terminal_journey in
      let is_assigned : Bool =
        holds (λ here. here) (lookup ℕ_discrete driver b.drivers)
        && includes b.assigned_routes route in
      not (is_some b.lock) && (session_fits && (journey_fits && is_assigned))

  abbrev pub return_session : ℕ → ℕ → ℕ → RideDirection → ℕ → Num → Session S Num
  return_session i route driver direction version now = record {
    status = armed_ride;
    route_id = route;
    driver_id = driver;
    direction = some (opposite_ride_direction direction);
    endpoint_version = some version;
    automatic_turnaround = true;
    previous_session_id = some i;
    armed_at = some now;
    start_time = none;
    end_time = none;
    terminal_arrival_confirmed_at = none;
    stops_reached = [];
  }

  -- The return: a new session with the lock and the durable ride, and the checkpoint is consumed.
  unfoldable pub open_return :
      ℕ
      → ℕ
      → ℕ
      → RideDirection
      → ℕ
      → ℕ
      → Num
      → TerminalJourney Num
      → BusStore S Num
      → BusStore S Num
  open_return i route driver direction version new now journey b =
      let back = opposite_ride_direction direction in
      let ride : DurableRide Num = record {
        session_id = new;
        driver_id = driver;
        direction = back;
        trip_state = pre_departure;
        current_stop_index = 0;
        has_departed_origin = false;
        terminal_arrival = none;
        gnss_gap_since = none;
        last_route_version = 0;
        delay_minutes = 0;
        delay_updated_at = 0;
        automatic_turnaround = true;
        previous_session_id = some i;
      } in
      record (put_session new (return_session i route driver direction version now) b) {
        lock = some (record {
          session_id = new;
          route_id = route;
          driver_id = driver;
          direction = some back;
        });
        rides = set ℕ_discrete route ride b.rides;
        terminal_journey = some (record journey { consumed_by = some new });
      }

  -- The transaction of `maybeArmAutomaticTurnaround`, after the claim: whether the return is created.
  -- It fails where the number of the new session is taken.
  unfoldable pub arm_return :
      ℕ → ℕ → ℕ → RideDirection → ℕ → ℕ → Num → BusStore S Num → BusStore S Num × Bool
  unfolding may_return open_return
  arm_return i route driver direction version new now b = elim (find_session new b) [
    | some _ ↦ (b, false)
    | none ↦ elim b.terminal_journey [
      | none ↦ (b, false)
      | some journey ↦
          if may_return i route driver direction version b
          then (open_return i route driver direction version new now journey b, true)
          else (b, false)
    ]
  ]
