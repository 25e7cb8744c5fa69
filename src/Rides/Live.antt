-- ===== src/Rides/Live.antt =====
-- The transactions on the live node of a bus on a route in backend/src/services/tripStateEngine.ts. Each
-- gives the node after it, if one was committed. The fields of a node that no guard here reads are left
-- out: the names of its end stops, its display texts and what was completed last.
use eki.Direction.Endpoint.{RideDirection, automatic_turnaround_is_ready}
use eki.Geo.{Float, LatLng}
use eki.Prelude.{
  [], ◌∷◌, ℕ, List, Option, some, none, Bool, true, false, if◌then◌else◌, ◌==◌, ◌&&◌, ◌||◌, not,
  holds, or_else,
}
use eki.Rides.Engine.{RideCheckpoint}
use eki.Rides.Records.{LiveNode}
use eki.Rides.Start.{same_direction}
use eki.Trip.Types.{LegacyTripState, trip, completed, pre_departure}

abbrev pub is_number : Option ℕ → ℕ → Bool
is_number o i = holds (λ j. j == i) o

-- `live.tripState === "completed"`.
abbrev pub is_completed : LegacyTripState → Bool
is_completed (trip completed) = true
is_completed _ = false

abbrev pub same_ends : Option RideDirection → Option RideDirection → Bool
same_ends none none = true
same_ends (some d) (some e) = same_direction d e
same_ends _ _ = false

abbrev pub unless_empty : List ℕ → Option (List ℕ)
unless_empty [] = none
unless_empty (i ∷ is) = some (i ∷ is)

-- The new session of a return, and what it starts from.
pub record ReturnRide : Type 0 where
  pub session_id : ℕ
  pub driver_id : ℕ
  pub direction : RideDirection

module _ (F : Float) where
  open F use {Num, lit, sub, lt, is_finite}

  -- `claimIsFresh`, with `TURNAROUND_CLAIM_STALE_MS`.
  unfoldable pub claim_is_fresh : Num → LiveNode Num → Bool
  claim_is_fresh now live = elim live.turnaround_claim_id [
    | none ↦ false
    | some _ ↦ holds (λ t. is_finite t && lt (sub now t) (lit 60_000)) live.turnaround_claimed_at
  ]

  -- An absent time counts as 0, which is not ready either.
  unfoldable pub live_is_ready : Num → LatLng Num → Num → LiveNode Num → Bool
  live_is_ready now destination radius live =
      let eligible : Num = elim live.turnaround_eligible_at [ none ↦ lit 0 | some t ↦ t ] in
      automatic_turnaround_is_ready F
        (record {
          now = now;
          telemetry_timestamp = live.timestamp;
          eligible_at = eligible;
          minimum_sample_timestamp = or_else live.turnaround_sampled_at (some eligible);
          motion_state = live.motion_state;
          gps_hdop = live.gps_hdop;
          position = live.place;
          destination = destination;
        })
        radius

  -- The claim of a return by the new session `new` from the session `previous`.
  unfoldable pub claim_return :
      ℕ → ℕ → Num → LatLng Num → Num → Option (LiveNode Num) → Option (LiveNode Num)
  unfolding claim_is_fresh live_is_ready
  claim_return new previous now destination radius none = none
  claim_return new previous now destination radius (some live) =
      if is_number live.session_id previous
        && (is_completed live.trip_state
            && (not (claim_is_fresh now live) && live_is_ready now destination radius live))
      then some (record live { turnaround_claim_id = some new; turnaround_claimed_at = some now })
      else none

  -- The claim is given back where the durable return was not created.
  unfoldable pub release_claim : ℕ → Option (LiveNode Num) → Option (LiveNode Num)
  release_claim new none = none
  release_claim new (some live) =
      if is_number live.turnaround_claim_id new
      then some (record live { turnaround_claim_id = none; turnaround_claimed_at = none })
      else none

  -- The node of the return: without route context, at the origin, with no time of a completion.
  unfoldable pub activate_return : ReturnRide → ℕ → Option (LiveNode Num) → Option (LiveNode Num)
  activate_return r previous none = none
  activate_return r previous (some live) =
      if is_number live.session_id previous
        && (is_completed live.trip_state && is_number live.turnaround_claim_id r.session_id)
      then some (record live {
        session_id = some r.session_id;
        driver_id = some r.driver_id;
        direction = some r.direction;
        is_active = true;
        is_offline = false;
        trip_state = trip pre_departure;
        current_stop_index = some 0;
        has_departed_origin = false;
        terminal_arrival = none;
        gnss_gap = none;
        route_version = 0;
        delay_minutes = 0;
        delay_updated_at = 0;
        automatic_turnaround = true;
        previous_session_id = some previous;
        completed_at = none;
        turnaround_eligible_at = none;
        turnaround_sampled_at = none;
        turnaround_claim_id = none;
        turnaround_claimed_at = none;
      })
      else none

  -- `{ sessionId, ... }` of the event's session, if there is something to record.
  abbrev pub of_session : {A : Type 0} → Option ℕ → Option A → Option (ℕ × A)
  of_session none _ = none
  of_session (some i) none = none
  of_session (some i) (some a) = some (i, a)

  -- The event is of another session than the node.
  abbrev pub other_session : LiveNode Num → LiveNode Num → Bool
  other_session event live = holds (λ i. not (is_number live.session_id i)) event.session_id

  -- The progress that passengers see, with the stop at which the bus is and those not observed.
  unfoldable pub publish_progress :
      LiveNode Num
      → RideCheckpoint Num
      → Option Num
      → Option ℕ
      → List ℕ
      → Option (LiveNode Num)
      → Option (LiveNode Num)
  publish_progress event c gap stop unobserved none = none
  publish_progress event c gap stop unobserved (some live) =
      if other_session event live
        || (not (same_ends live.direction event.direction)
            || (is_completed live.trip_state || live.is_offline))
      then none
      else some (record live {
        trip_state = trip c.trip_state;
        current_stop_index = some c.current_stop_index;
        has_departed_origin = c.has_departed_origin;
        terminal_arrival = c.terminal_arrival;
        gnss_gap = of_session event.session_id gap;
        at_stop = of_session event.session_id stop;
        unobserved_stops = of_session event.session_id (unless_empty unobserved);
      })

  abbrev pub same_session : LiveNode Num → LiveNode Num → Bool
  same_session event live = elim event.session_id [
    | none ↦ elim live.session_id [ none ↦ true | some _ ↦ false ]
    | some i ↦ is_number live.session_id i
  ]

  -- The completion that passengers see, after the durable one, and the times of a return.
  unfoldable pub publish_completion :
      LiveNode Num → ℕ → Bool → Num → Num → Num → Option (LiveNode Num) → Option (LiveNode Num)
  publish_completion event index departed at eligible sampled none = none
  publish_completion event index departed at eligible sampled (some live) =
      if same_session event live
      then some (record live {
        trip_state = trip completed;
        current_stop_index = some index;
        has_departed_origin = departed;
        terminal_arrival = none;
        gnss_gap = none;
        completed_at = some at;
        turnaround_eligible_at = some eligible;
        turnaround_sampled_at = some sampled;
        turnaround_claim_id = none;
        turnaround_claimed_at = none;
      })
      else none

  -- The guarded end of a completed session.
  unfoldable pub retire : LiveNode Num → Option (LiveNode Num) → Option (LiveNode Num)
  retire event none = none
  retire event (some live) =
      if is_completed live.trip_state && same_session event live
      then some (record live { is_active = false; is_offline = true })
      else none
