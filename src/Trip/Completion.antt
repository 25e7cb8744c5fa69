-- ===== src/Trip/Completion.antt =====
-- What completes a ride (`reduceTripState` of backend/src/services/tripStateReducer.ts).
use eki.Prelude.{
  ℕ, zero, ◌+◌, ◌-◌, suc, Bool, true, false, ◌&&◌, inl, inr, List, Option, none, some, ◌≡◌, ◌≢◌,
  refl, arith, holds-eq-true, Option-cases, length,
}
use eki.Geo.{Float, haversine_meters}
use eki.Trip.Types.{TripStateInput, TerminalArrivalEvidence, stopped, trip, in_service, completed}
use eki.Trip.Evidence.{stop_at}
use eki.Trip.Frame.{Frame, last_index}
use eki.Trip.Arrival.{
  at_terminal, confirmed, confirmation_ms, may_consume, crossing_at, walk, walk_from, terminal_from,
  terminal_at,
}
use eki.Trip.Reducer.{finish_update, serve, frame_of, reduce_fresh, reduce_trip_state}
use eki.Trip.Progress.{held, in_order, after_gap, after_miss, serve-Served, credited}
use eki.Trip.Order.{LegacyTripState-cases}

-- The evidence on which a ride is completed: a stopped bus that has left the origin, with this fix
-- or before, a precise fix within the corridor of the terminal, and an earlier sample there, long
-- enough ago.
pub record IsConfirmed (F : Float) (configured : F.Num) (fr : Frame F.Num) : Type 0 where
  pub departed : fr.has_departed ≡ true
  pub not_leaving : fr.leaving_origin ≡ false
  pub still : fr.input.motion_state ≡ stopped
  pub precise : (h : F.Num) × (fr.input.gps_hdop ≡ some h) × (F.le h (F.lit 4) ≡ true)
  pub slow : (v : F.Num) × (fr.input.speed ≡ some v) × (F.le v (F.div (F.lit 5) (F.lit 2)) ≡ true)
  pub near :
      F.le
        (haversine_meters F fr.input.place (stop_at F fr.input.stops (length fr.input.stops - 1)))
        (F.lit 15)
      ≡ true
  pub waited :
      (t : F.Num) × (prior : TerminalArrivalEvidence F.Num) × (fr.input.timestamp ≡ some t)
      × (fr.input.terminal_arrival ≡ some prior)
      × (F.lt prior.last_sampled_at t ≡ true)
      × (F.le (F.sub t prior.last_sampled_at) (F.lit 60_000) ≡ true)
      × (F.le (confirmation_ms F configured) (F.sub t prior.started_at) ≡ true)

module _ (F : Float) (configured : F.Num) (fr : Frame F.Num) where
  pub walk-at_terminal :
      (left next : ℕ) (c : F.Num) (o : Bool)
      → walk F configured fr left next c o ≡ at_terminal
      → fr.leaving_origin ≡ false
  unfolding walk may_consume
  walk-at_terminal zero next c o h = ground arith
  walk-at_terminal (suc left) next c o h = ground (
    arith,
    walk-at_terminal left (suc next) (crossing_at F configured fr next fr.segment_start) true,
  )

  terminal_from-confirmed :
      (t : F.Num) (o : Option (TerminalArrivalEvidence F.Num))
      → terminal_from F configured fr t o ≡ confirmed
      → (prior : TerminalArrivalEvidence F.Num) × (o ≡ some prior)
        × (F.lt prior.last_sampled_at t ≡ true)
        × (F.le (F.sub t prior.last_sampled_at) (F.lit 60_000) ≡ true)
        × (F.le (confirmation_ms F configured) (F.sub t prior.started_at) ≡ true)
  unfolding terminal_from
  terminal_from-confirmed t none h = ground arith
  terminal_from-confirmed t (some prior) h = (prior, refl, ground arith, ground arith, ground arith)

  terminal_at-waited :
      terminal_at F configured fr ≡ confirmed
      → (t : F.Num) × (prior : TerminalArrivalEvidence F.Num) × (fr.input.timestamp ≡ some t)
        × (fr.input.terminal_arrival ≡ some prior)
        × (F.lt prior.last_sampled_at t ≡ true)
        × (F.le (F.sub t prior.last_sampled_at) (F.lit 60_000) ≡ true)
        × (F.le (confirmation_ms F configured) (F.sub t prior.started_at) ≡ true)
  unfolding terminal_at
  terminal_at-waited h = elim (Option-cases fr.input.timestamp) [
    | inl e ↦ absurd (ground arith)
    | inr (t, e) ↦
        let (prior, found, later, recent, enough) =
          terminal_from-confirmed t fr.input.terminal_arrival (ground arith) in
        (t, prior, e, found, later, recent, enough)
  ]

  terminal_at-precise :
      terminal_at F configured fr ≡ confirmed
      → (h : F.Num) × (fr.input.gps_hdop ≡ some h) × (F.le h (F.lit 4) ≡ true)
  unfolding terminal_at
  terminal_at-precise c =
      let (h, e, good) =
        holds-eq-true (λ h. F.is_finite h && (F.le (F.lit 0) h && F.le h (F.lit 4)))
          fr.input.gps_hdop (ground arith) in
      (h, e, ground arith)

  terminal_at-slow :
      terminal_at F configured fr ≡ confirmed
      → (v : F.Num) × (fr.input.speed ≡ some v) × (F.le v (F.div (F.lit 5) (F.lit 2)) ≡ true)
  unfolding terminal_at
  terminal_at-slow c =
      let (v, e, good) =
        holds-eq-true (λ v. F.le (F.lit 0) v && F.le v (F.div (F.lit 5) (F.lit 2))) fr.input.speed
          (ground arith) in
      (v, e, ground arith)

  terminal_at-IsConfirmed :
      terminal_at F configured fr ≡ confirmed
      → fr.leaving_origin ≡ false
      → IsConfirmed F configured fr
  terminal_at-IsConfirmed h l = record {
    departed = unfold terminal_at in ground arith;
    not_leaving = l;
    still = unfold terminal_at in ground arith;
    precise = terminal_at-precise h;
    slow = terminal_at-slow h;
    near = unfold terminal_at in ground arith;
    waited = terminal_at-waited h;
  }

  finish_update-IsConfirmed :
      (next : ℕ) (skipped unobserved : Option (List ℕ))
      → (finish_update F configured fr next skipped unobserved).trip_state ≡ completed
      → IsConfirmed F configured fr
  unfolding finish_update
  finish_update-IsConfirmed next skipped unobserved h = terminal_at-IsConfirmed (ground arith) (
      walk-at_terminal (last_index F fr + 1 - next) next (F.neg F.infinity) false
        (unfold walk_from in ground arith))

  serve-IsConfirmed : (serve F configured fr).trip_state ≡ completed → IsConfirmed F configured fr
  serve-IsConfirmed h = elim (serve-Served F configured fr) [
    | held _ e ↦ absurd (ground arith)
    | in_order e ↦ finish_update-IsConfirmed fr.safe_index none none (rw (← e) h)
    | after_gap i _ _ e ↦ finish_update-IsConfirmed i (credited fr i) none (rw (← e) h)
    | after_miss i _ _ e ↦ finish_update-IsConfirmed i none (credited fr i) (rw (← e) h)
  ]

module _ (F : Float) (configured : F.Num) (input : TripStateInput F.Num) where
  pub serve_leaving-ne-completed :
      (serve F configured (frame_of F configured input true)).trip_state ≢ completed
  serve_leaving-ne-completed h =
      let c = serve-IsConfirmed F configured (frame_of F configured input true) h in
      unfold frame_of in ground (arith, c.not_leaving)

  -- An update completes a ride that was not completed only if the ride was in service before it,
  -- the origin was left before it or this very fix lies outside the departure radius or past a
  -- close first stop, and the sample shows a stopped bus, with a horizontal dilution of at most 4
  -- and a speed of at most 2.5 km/h, within 15 m of the last stop, after an earlier sample there
  -- that is at most 60 s old and whose wait has lasted the configured confirmation time. It never
  -- completes a ride that awaits its departure.
  pub reduce_trip_state-IsConfirmed :
      input.current_trip_state ≢ trip completed
      → (reduce_trip_state F configured input).trip_state ≡ completed
      → (input.current_trip_state ≡ trip in_service)
        × IsConfirmed F configured (frame_of F configured input false)
  unfolding reduce_trip_state reduce_fresh
  reduce_trip_state-IsConfirmed n h = elim (LegacyTripState-cases input.current_trip_state) [
    | inl s ↦ absurd (ground arith)
    | inr (inl s) ↦ absurd (n s)
    | inr (inr (inl s)) ↦ (s, serve-IsConfirmed F configured _ (ground arith))
    | inr (inr (inr s)) ↦ absurd (ground (arith, serve_leaving-ne-completed))
  ]
