-- ===== src/Trip/Order.antt =====
-- The order in which a ride progresses, over every branch of `reduceTripState`
-- (backend/src/services/tripStateReducer.ts).
use eki.Prelude.{ℕ, ◌≤◌, ◌<◌, Bool, true, false, ◌⊎◌, inl, inr, ◌≡◌, ◌≢◌, refl, ap, arith, length}
use eki.Prelude.Int.{pos, pos_part}
use eki.Geo.{Float}
use eki.Trip.Types.{
  TripStateInput, TripStateResult, LegacyTripState, trip, maintenance, pre_departure, in_service,
  completed,
}
use eki.Trip.Frame.{last_index}
use eki.Trip.Reducer.{serve, frame_of, departed_origin, reduce_fresh, reduce_trip_state}
use eki.Trip.Progress.{serve-IsAdvance, serve-departed}

pub LegacyTripState-cases :
    (s : LegacyTripState)
    → (s ≡ maintenance)
      ⊎ ((s ≡ trip completed) ⊎ ((s ≡ trip in_service) ⊎ (s ≡ trip pre_departure)))
LegacyTripState-cases maintenance = inl refl
LegacyTripState-cases (trip completed) = inr (inl refl)
LegacyTripState-cases (trip in_service) = inr (inr (inl refl))
LegacyTripState-cases (trip pre_departure) = inr (inr (inr refl))

module _ (F : Float) (configured : F.Num) (input : TripStateInput F.Num) where
  -- The frame's index is the given one, or the first stop on leaving the origin.
  pub frame_of-safe_index :
      (i : ℕ) (leaving : Bool)
      → input.current_stop_index ≡ pos i
      → i < length input.stops
      → (leaving ≡ true → 1 < length input.stops)
      → let fr = frame_of F configured input leaving in
        (i ≤ fr.safe_index) × (fr.safe_index ≤ last_index F fr)
  unfolding frame_of
  frame_of-safe_index i leaving e b l = ground (arith, l)

  frame_of-stops :
      (leaving : Bool) → (frame_of F configured input leaving).input.stops ≡ input.stops
  unfolding frame_of
  frame_of-stops leaving = refl

  departed_origin-true :
      input.has_departed_origin ≡ true → departed_origin F configured input ≡ true
  unfolding departed_origin
  departed_origin-true h = ground arith

  -- No update takes back what a ride has done.
  pub record IsProgress (i : ℕ) (r : TripStateResult F.Num) : Type 0 where
    pub natural : r.current_stop_index ≡ pos (pos_part r.current_stop_index)
    pub forward : i ≤ pos_part r.current_stop_index
    pub within : pos_part r.current_stop_index < length input.stops
    pub departed : input.has_departed_origin ≡ true → r.has_departed_origin ≡ true
    pub started : input.current_trip_state ≢ trip pre_departure → r.trip_state ≢ pre_departure
    pub finished : input.current_trip_state ≡ trip completed → r.trip_state ≡ completed

  frame_of-departed :
      (leaving : Bool)
      → input.has_departed_origin ≡ true
      → (frame_of F configured input leaving).has_departed ≡ true
  unfolding frame_of departed_origin
  frame_of-departed leaving h = ground arith

  serve-IsProgress :
      (i : ℕ) (leaving : Bool)
      → input.current_stop_index ≡ pos i
      → i < length input.stops
      → (leaving ≡ true → 1 < length input.stops)
      → input.current_trip_state ≢ trip completed
      → IsProgress i (serve F configured (frame_of F configured input leaving))
  serve-IsProgress i leaving e b l state =
      let fr = frame_of F configured input leaving in
      let (up, low) = frame_of-safe_index i leaving e b l in
      let adv = serve-IsAdvance F configured fr low in
      record {
        natural = adv.natural;
        forward = omega (arith, adv.forward);
        within = omega (arith, adv.within, ap length (frame_of-stops leaving));
        departed = λ h. serve-departed F configured fr (frame_of-departed leaving h);
        started = λ _. adv.started;
        finished = λ h. absurd (state h);
      }

  reduce_fresh-IsProgress :
      (i : ℕ)
      → input.current_stop_index ≡ pos i
      → i < length input.stops
      → IsProgress i (reduce_fresh F configured input)
  unfolding reduce_fresh
  reduce_fresh-IsProgress i e b = elim (LegacyTripState-cases input.current_trip_state) [
    | inl s ↦ ground (arith, departed_origin-true)
    | inr (inl s) ↦ ground (arith, departed_origin-true)
    | inr (inr (inl s)) ↦ ground (arith, serve-IsProgress i false e b)
    | inr (inr (inr s)) ↦ ground (arith, serve-IsProgress i true e b, departed_origin-true)
  ]

  -- Whatever the sample, an update of a ride keeps the next expected stop within the route, never
  -- moves it back, never forgets the departure, never returns a started ride to departure and never
  -- reopens a completed one.
  pub reduce_trip_state-IsProgress :
      (i : ℕ)
      → input.current_stop_index ≡ pos i
      → i < length input.stops
      → IsProgress i (reduce_trip_state F configured input)
  unfolding reduce_trip_state
  reduce_trip_state-IsProgress i e b = ground (arith, reduce_fresh-IsProgress i e b)
