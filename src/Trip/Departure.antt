-- ===== src/Trip/Departure.antt =====
-- When a ride leaves its origin, and which samples may change a ride at all (`reduceTripState` of
-- backend/src/services/tripStateReducer.ts).
use eki.Trip.Completion.{walk-at_terminal, serve_leaving-ne-completed}
use eki.Trip.Progress.{after_miss, credited, after_gap, in_order, held, serve-Served}
use eki.Trip.Arrival.{walk_from}
use eki.Trip.Evidence.{
  was_stop_reached, stop_at, origin_departure_radius, is_moving, unreliable_input,
  unreliable_trip_fix,
}
use eki.Trip.Reducer.{
  segment_start_of, resumed, reduce_fresh, clear_of_origin, frame_of, finish_update,
  reduce_trip_state, serve, stale_fix,
}
use eki.Trip.Types.{pre_departure, in_service, trip, uncertain, completed, moving, TripStateInput}
use eki.Trip.Frame.{last_index, Frame}
use eki.Prelude.{
  none, ◌-◌, ◌+◌, inr, inl, refl, ◌⊎◌, List, Option-cases, Option, arith, some, length, true, false,
  ◌<◌, ◌≢◌, ◌≡◌, ℕ,
}
use eki.Geo.{Float, haversine_meters}

module _ (F : Float) (configured : F.Num) (fr : Frame F.Num) where
  finish_update-leaving :
      (next : ℕ) (skipped unobserved : Option (List ℕ))
      → fr.leaving_origin ≡ true
      → (finish_update F configured fr next skipped unobserved).has_departed_origin ≡ true
  unfolding finish_update walk_from
  finish_update-leaving next skipped unobserved h = ground (
    arith,
    walk-at_terminal F configured fr (last_index F fr + 1 - next) next (F.neg F.infinity) false,
  )

  serve-leaving : fr.leaving_origin ≡ true → (serve F configured fr).has_departed_origin ≡ true
  serve-leaving h = elim (serve-Served F configured fr) [
    | held _ e ↦ ground arith
    | in_order e ↦ rw e (finish_update-leaving fr.safe_index none none h)
    | after_gap i _ _ e ↦ rw e (finish_update-leaving i (credited fr i) none h)
    | after_miss i _ _ e ↦ rw e (finish_update-leaving i none (credited fr i) h)
  ]

  serve-in_service :
      (serve F configured fr).trip_state ≢ completed
      → (serve F configured fr).trip_state ≡ in_service
  unfolding serve finish_update
  serve-in_service h = ground arith

module _ (F : Float) (configured : F.Num) (input : TripStateInput F.Num) where
  -- The evidence of a departure: a moving bus that is clear of the origin, or that has passed a
  -- first stop close to it and is farther from the origin than that stop.
  pub record HasLeft : Type 0 where
    pub in_motion : input.motion_state ≡ moving
    pub clear :
        (F.le
            (origin_departure_radius F input.stops)
            (haversine_meters F input.place (stop_at F input.stops 0))
          ≡ true)
        ⊎ ((was_stop_reached F
                (stop_at F input.stops 1)
                input.place
                (segment_start_of F configured input)
              ≡ true)
            × (F.lt
                  (haversine_meters F (stop_at F input.stops 1) (stop_at F input.stops 0))
                  (haversine_meters F input.place (stop_at F input.stops 0))
                ≡ true))

  frame_of-leaving : (frame_of F configured input true).leaving_origin ≡ true
  unfolding frame_of
  frame_of-leaving = refl

  HasLeft-of_leaves :
      is_moving input.motion_state ≡ true → clear_of_origin F configured input ≡ true → HasLeft
  unfolding clear_of_origin
  HasLeft-of_leaves m c = record { in_motion = ground arith; clear = ground arith }

  serve_leaving-in_service :
      (serve F configured (frame_of F configured input true)).trip_state ≡ in_service
  serve_leaving-in_service =
      serve-in_service F configured (frame_of F configured input true)
        (serve_leaving-ne-completed F configured input)

  -- A ride that awaits its departure leaves that state only on a fix that shows the bus moving and
  -- clear of the origin; it is then in service, never completed, and is recorded as departed.
  pub reduce_trip_state-HasLeft :
      input.current_trip_state ≡ trip pre_departure
      → (reduce_trip_state F configured input).trip_state ≢ pre_departure
      → HasLeft
        × ((reduce_trip_state F configured input).trip_state ≡ in_service)
        × ((reduce_trip_state F configured input).has_departed_origin ≡ true)
  unfolding reduce_trip_state reduce_fresh
  reduce_trip_state-HasLeft s h = (
    HasLeft-of_leaves (ground arith) (ground arith),
    ground (arith, serve_leaving-in_service),
    ground (arith, serve-leaving F configured (frame_of F configured input true) frame_of-leaving),
  )

  -- What a sample must be for the reducer to act on it.
  pub record IsTrusted : Type 0 where
    pub certain : input.motion_state ≢ uncertain
    pub precise :
        (h : F.Num)
        → input.gps_hdop ≡ some h
        → (F.is_finite h ≡ true) × (F.lt h (F.lit 0) ≡ false) × (F.lt (F.lit 4) h ≡ false)
    pub recent :
        (now : F.Num)
        → input.now ≡ some now
        → (t : F.Num) × (input.timestamp ≡ some t)
          × (F.is_finite t ≡ true)
          × (F.lt (F.lit 60_000) (F.sub now t) ≡ false)
          × (F.lt (F.add now (F.lit 10_000)) t ≡ false)

  recent-of_fresh :
      stale_fix F configured input ≡ false
      → (now : F.Num) → input.now ≡ some now
      → (t : F.Num) × (input.timestamp ≡ some t)
        × (F.is_finite t ≡ true)
        × (F.lt (F.lit 60_000) (F.sub now t) ≡ false)
        × (F.lt (F.add now (F.lit 10_000)) t ≡ false)
  unfolding stale_fix
  recent-of_fresh f now e = elim (Option-cases input.timestamp) [
    | inl none_e ↦ absurd (ground arith)
    | inr (t, some_e) ↦ (t, some_e, ground arith, ground arith, ground arith)
  ]

  IsTrusted-of_fresh :
      unreliable_input F input ≡ false → stale_fix F configured input ≡ false → IsTrusted
  unfolding unreliable_trip_fix
  IsTrusted-of_fresh u f = record {
    certain = λ e. ground arith;
    precise = λ h e. (ground arith, ground arith, ground arith);
    recent = recent-of_fresh f;
  }

  -- Of a ride with stops, an update changes the next stop, the state of the trip (but for the end
  -- of a maintenance) or the departure only if the sample is certain, precise and recent.
  pub reduce_trip_state-IsTrusted :
      (0 < length input.stops)
      → let r = reduce_trip_state F configured input in
        (r.current_stop_index ≢ input.current_stop_index)
          ⊎ ((r.trip_state ≢ resumed input.current_trip_state)
              ⊎ (r.has_departed_origin ≢ input.has_departed_origin))
        → IsTrusted
  unfolding reduce_trip_state
  reduce_trip_state-IsTrusted b h = IsTrusted-of_fresh (ground arith) (ground arith)
