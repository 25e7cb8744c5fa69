-- ===== src/Trip/Reducer.antt =====
-- `reduceTripState` of backend/src/services/tripStateReducer.ts.
use eki.Prelude.{
  ℕ, ◌-◌, Bool, true, false, not, ◌&&◌, ◌||◌, List, Option, none, some, ltb, ◌==◌, if◌then◌else◌,
  holds, is_some, or_else, length, interval, max,
}
use eki.Prelude.Int.{pos, clamp_index}
use eki.Geo.{Float, haversine_meters}
use eki.Trip.Types.{
  TripState, pre_departure, in_service, completed, LegacyTripState, trip, maintenance, TripPosition,
  TripStateInput, TripStateResult,
}
use eki.Trip.Evidence.{
  is_moving, unreliable_input, finite, over, long_pause, stop_at, was_stop_reached,
  origin_departure_radius, detected_gnss_gap,
}
use eki.Trip.Frame.{Frame, last_index}
use eki.Trip.Recovery.{
  stay, awaiting_direction, through, reanchored_gap, gap_credit, unobserved_credit,
}
use eki.Trip.Arrival.{at_terminal, paused, unproven, pending, confirmed, walk_from, terminal_at}

-- A ride that was in maintenance is in service again.
abbrev pub resumed : LegacyTripState → TripState
resumed maintenance = in_service
resumed (trip s) = s

abbrev pub is_in_service : LegacyTripState → Bool
is_in_service (trip in_service) = true
is_in_service _ = false

abbrev pub is_pre_departure : LegacyTripState → Bool
is_pre_departure (trip pre_departure) = true
is_pre_departure _ = false

module _ (F : Float) (configured : F.Num) where
  open F use {Num, lit, le, lt, sub, is_finite}

  -- `staleFix`
  unfoldable pub stale_fix : TripStateInput Num → Bool
  stale_fix input =
      holds
        (λ now.
          not (finite F input.timestamp)
          || holds (λ t. over F (sub now t) 60_000 || lt (F.add now (lit 10_000)) t)
              input.timestamp)
        input.now

  -- `gnssGap`: the open one, or the one that this fix opens.
  unfoldable pub gnss_gap_of : TripStateInput Num → Option Num
  unfolding stale_fix
  gnss_gap_of input =
      let detected = detected_gnss_gap F input in
      let opened : Option Num = if stale_fix input then none else detected in
      elim input.gnss_gap_since [
        | none ↦ opened
        | some since ↦ if is_finite since then some since else opened
      ]

  -- A result that leaves the stops as they are.
  abbrev pub unchanged : TripStateInput Num → TripState → Bool → Option Num → TripStateResult Num
  unchanged input state departed gap = record {
    trip_state = state;
    current_stop_index = input.current_stop_index;
    has_departed_origin = departed;
    terminal_arrival = none;
    gnss_gap_since = gap;
    skipped_stop_indices = none;
    unobserved_stop_indices = none;
  }

  -- `segmentStart`: the previous fix, unless too long ago.
  unfoldable pub segment_start_of : TripStateInput Num → Option (TripPosition Num)
  segment_start_of input = elim input.previous_position [
    | none ↦ none
    | some p ↦ if long_pause F p.timestamp input.timestamp then none else some p
  ]

  -- The bus is clear of the origin, or beyond a first stop close to it.
  unfoldable pub clear_of_origin : TripStateInput Num → Bool
  unfolding segment_start_of
  clear_of_origin input =
      let origin = stop_at F input.stops 0 in
      let first = stop_at F input.stops 1 in
      let from_origin = haversine_meters F input.place origin in
      let crossed_first_stop =
        is_moving input.motion_state
        && (ltb 1 (length input.stops)
            && (was_stop_reached F first input.place (segment_start_of input)
                && lt (haversine_meters F first origin) from_origin)) in
      le (origin_departure_radius F input.stops) from_origin || crossed_first_stop

  -- `hasDepartedOrigin`
  unfoldable pub departed_origin : TripStateInput Num → Bool
  departed_origin input =
      input.has_departed_origin || (is_in_service input.current_trip_state && clear_of_origin input)

  -- The values that the in-service part derives; `leaving` is set by a departure in this update.
  unfoldable pub frame_of : TripStateInput Num → Bool → Frame Num
  frame_of input leaving =
      let last = length input.stops - 1 in
      let clamped = clamp_index input.current_stop_index last in
      let departed = departed_origin input in
      let leaving' = leaving || (clamped == 0 && (departed && ltb 0 last)) in
      record {
        input = input;
        segment_start = segment_start_of input;
        gnss_gap = gnss_gap_of input;
        has_departed = departed;
        leaving_origin = leaving';
        safe_index = if leaving' then max 1 clamped else clamped;
      }

  -- The result in service with the stops before `next` credited.
  abbrev pub serving :
      Frame Num → ℕ → Bool → Option Num → Option (List ℕ) → Option (List ℕ) → TripStateResult Num
  serving fr next departed gap skipped unobserved = record {
    trip_state = in_service;
    current_stop_index = pos next;
    has_departed_origin = departed;
    terminal_arrival = none;
    gnss_gap_since = gap;
    skipped_stop_indices = skipped;
    unobserved_stop_indices = unobserved;
  }

  -- The loop over the reached stops from `next`, and what follows it.
  unfoldable pub finish_update :
      Frame Num → ℕ → Option (List ℕ) → Option (List ℕ) → TripStateResult Num
  finish_update fr next skipped unobserved = elim (walk_from F configured fr next) [
    | paused next' observed ↦
        let reanchored = reanchored_gap F fr fr.safe_index in
        let open_gap =
          if not (is_some skipped) && is_some reanchored then reanchored else fr.gnss_gap in
        serving fr next' (fr.has_departed || fr.leaving_origin)
          (if observed then none else open_gap) skipped unobserved
    | at_terminal ↦
        let result = serving fr (last_index F fr) fr.has_departed none skipped unobserved in
        elim (terminal_at F configured fr) [
          | unproven ↦ result
          | pending evidence ↦ record result { terminal_arrival = some evidence }
          | confirmed ↦ record result { trip_state = completed }
        ]
  ]

  -- The in-service part, from the clamped index.
  unfoldable pub serve : Frame Num → TripStateResult Num
  serve fr =
      let next = fr.safe_index in
      elim (gap_credit F fr next) [
        | awaiting_direction ↦
            serving fr next (fr.has_departed || fr.leaving_origin)
              (or_else (reanchored_gap F fr next) fr.gnss_gap) none none
        | through index ↦ finish_update fr index (some (interval next (index - next))) none
        | stay ↦ elim (unobserved_credit F fr next) [
          | none ↦ finish_update fr next none none
          | some index ↦ finish_update fr index none (some (interval next (index - next)))
        ]
      ]

  -- The reducer on a fresh, reliable fix of a ride that has stops.
  unfoldable pub reduce_fresh : TripStateInput Num → TripStateResult Num
  reduce_fresh input =
      let departed = departed_origin input in
      let gap = gnss_gap_of input in
      let leaves = is_moving input.motion_state && clear_of_origin input in
      let started = serve (frame_of input true) in
      let continued = serve (frame_of input false) in
      elim input.current_trip_state [
        | maintenance ↦ unchanged input in_service departed gap
        | trip completed ↦ unchanged input completed departed gap
        | trip in_service ↦ continued
        | trip pre_departure ↦
            if not leaves || ltb (length input.stops) 2
            then unchanged input (if leaves then in_service else pre_departure) (departed || leaves)
                gap
            else started
      ]

  unfoldable pub reduce_trip_state : TripStateInput Num → TripStateResult Num
  reduce_trip_state input =
      let fresh = reduce_fresh input in
      if length input.stops == 0
      then record (unchanged input (resumed input.current_trip_state) input.has_departed_origin
          none) { current_stop_index = pos 0 }
      else if unreliable_input F input || stale_fix input
      then unchanged input (resumed input.current_trip_state) input.has_departed_origin
          (gnss_gap_of input)
      else fresh
