-- ===== src/Trip/Credits.antt =====
-- Which stops an update credits without having observed them, and on what evidence
-- (`reduceTripState` of backend/src/services/tripStateReducer.ts).
use eki.Trip.Order.{LegacyTripState-cases, frame_of-safe_index}
use eki.Prelude.{
  ◌||◌, Bool, ℕ, zero, ◌+◌, ◌-◌, ◌≤◌, ◌<◌, suc, true, ◌⊎◌, inl, inr, List, Option, none, some, ◌≡◌,
  refl, arith, is_some, Bool-cases, length, min, interval, length-interval,
}
use eki.Prelude.Int.{pos, pos_part}
use eki.Geo.{Float}
use eki.Trip.Types.{TripStateInput, TripStateResult}
use eki.Trip.Frame.{
  Frame, last_index, last_skippable, reached_stop, observed_later_stop, travelled_through,
}
use eki.Trip.Recovery.{
  through, resolve_shared_stop, credit_through, gap_credit_from, gap_credit, unobserved_from,
  unobserved_credit,
}
use eki.Trip.Reducer.{
  is_pre_departure, gnss_gap_of, frame_of, reduce_fresh, reduce_trip_state, finish_update, serve,
}
use eki.Trip.Progress.{
  held, in_order, after_gap, after_miss, serve-Served, credited, credit_through-through,
  last_skippable-le, resolve_shared_stop_bounds, finish_update-IsAdvance,
}

module _ (F : Float) (fr : Frame F.Num) where
  observed_later_stop-reached :
      (index : ℕ) → observed_later_stop F fr index ≡ true → reached_stop F fr index ≡ true
  unfolding observed_later_stop
  observed_later_stop-reached index h = ground arith

  gap_credit_from-cases :
      (rounds next index i : ℕ)
      → gap_credit_from F fr (suc rounds) next index ≡ through i
      → (gap_credit_from F fr rounds next (suc index) ≡ through i)
        ⊎ ((observed_later_stop F fr index ≡ true)
            × (credit_through F fr next (resolve_shared_stop F fr index) ≡ through i))
  unfolding gap_credit_from
  gap_credit_from-cases rounds next index i h = ground arith

  gap_credit_from-reached :
      (rounds next index i : ℕ)
      → next < index
      → gap_credit_from F fr rounds next index ≡ through i
      → (k : ℕ) × (next ≤ k) × (k ≤ i) × (reached_stop F fr k ≡ true)
  unfolding gap_credit_from
  gap_credit_from-reached zero next index i lt h = absurd (ground arith)
  gap_credit_from-reached (suc rounds) next index i lt h =
      elim (gap_credit_from-cases rounds next index i h) [
        | inl e ↦ gap_credit_from-reached rounds next (suc index) i (omega arith) e
        | inr (o, e) ↦ (
          index,
          omega arith,
          ground (
            arith,
            credit_through-through F fr next i (resolve_shared_stop F fr index),
            resolve_shared_stop_bounds F fr index i,
          ),
          observed_later_stop-reached index o,
        )
      ]

  gap_credit-reached :
      (next i : ℕ)
      → gap_credit F fr next ≡ through i
      → (k : ℕ) × (next ≤ k) × (k ≤ i) × (reached_stop F fr k ≡ true)
  unfolding gap_credit
  gap_credit-reached next i h = elim (Bool-cases (reached_stop F fr next)) [
    | inl r ↦ (
      next,
      omega arith,
      ground (
        arith,
        credit_through-through F fr next i (resolve_shared_stop F fr next),
        resolve_shared_stop_bounds F fr next i,
      ),
      r,
    )
    | inr r ↦
        gap_credit_from-reached (last_skippable F fr + 1 - (next + 1)) next (next + 1) i
          (omega arith) (ground arith)
  ]

  unobserved_from-reached :
      (rounds next index i : ℕ)
      → unobserved_from F fr rounds next index ≡ some i
      → (reached_stop F fr i ≡ true) × (travelled_through F fr i ≡ true)
  unfolding unobserved_from
  unobserved_from-reached zero next index i h = ground arith
  unobserved_from-reached (suc rounds) next index i h =
      ground (arith, unobserved_from-reached rounds next (suc index) i)

  unobserved_credit-reached :
      (next i : ℕ)
      → unobserved_credit F fr next ≡ some i
      → (reached_stop F fr i ≡ true) × (travelled_through F fr i ≡ true)
  unfolding unobserved_credit
  unobserved_credit-reached next i h = ground (
    arith,
    unobserved_from-reached (min (next + 2) (last_skippable F fr) + 1 - (next + 1)) next (next + 1)
        i,
  )

-- Stops `from`, `from + 1`, … are credited as unobserved: how many, on the evidence of which stop.
pub record IsCredited (F : Float) (fr : Frame F.Num) (l : List ℕ) (r : TripStateResult F.Num)
    : Type 0 where
  pub target : ℕ
  pub ahead : fr.safe_index < target
  pub allowed : target ≤ last_skippable F fr
  pub interval_from : l ≡ interval fr.safe_index (target - fr.safe_index)
  pub passed : target ≤ pos_part r.current_stop_index
  pub witness : ℕ
  pub witness_from : fr.safe_index ≤ witness
  pub witness_to : witness ≤ target
  pub reached : reached_stop F fr witness ≡ true

module _ (F : Float) (configured : F.Num) (fr : Frame F.Num)
    (bounded : fr.safe_index ≤ last_index F fr) where
  finish_update-credits :
      (next : ℕ) (skipped unobserved : Option (List ℕ))
      → let r = finish_update F configured fr next skipped unobserved in
        (r.skipped_stop_indices ≡ skipped) × (r.unobserved_stop_indices ≡ unobserved)
  unfolding finish_update
  finish_update-credits next skipped unobserved = ground arith

  -- Both kinds of credit end in the same shape of result.
  finish_update-IsCredited :
      (i k : ℕ) (skipped unobserved : Option (List ℕ)) (r : TripStateResult F.Num)
      → r ≡ finish_update F configured fr i skipped unobserved
      → fr.safe_index < i
      → i ≤ last_skippable F fr
      → fr.safe_index ≤ k
      → k ≤ i
      → reached_stop F fr k ≡ true
      → IsCredited F fr (interval fr.safe_index (i - fr.safe_index)) r
  finish_update-IsCredited i k skipped unobserved r e lt le low up reached =
      let adv =
        finish_update-IsAdvance F configured fr i skipped unobserved
          (omega (arith, last_skippable-le F fr)) in
      record {
        target = i;
        ahead = lt;
        allowed = le;
        interval_from = refl;
        passed = rw e adv.forward;
        witness = k;
        witness_from = low;
        witness_to = up;
        reached = reached;
      }

  -- Across a gap: the skipped stops.
  serve-skipped :
      (l : List ℕ)
      → (serve F configured fr).skipped_stop_indices ≡ some l
      → (is_some fr.gnss_gap ≡ true) × IsCredited F fr l (serve F configured fr)
  serve-skipped l h = elim (serve-Served F configured fr) [
    | held _ e ↦ absurd (ground arith)
    | in_order e ↦ absurd (ground (arith, finish_update-credits fr.safe_index none none))
    | after_miss i _ _ e ↦ absurd (ground (arith, finish_update-credits i none (credited fr i)))
    | after_gap i g b e ↦
        let (k, low, up, reached) = gap_credit-reached F fr fr.safe_index i g in
        let same : interval fr.safe_index (i - fr.safe_index) ≡ l =
          ground (arith, finish_update-credits i (credited fr i) none) in
        (
          b.2,
          rw (← same)
              (finish_update-IsCredited i k (credited fr i) none _ e b.0 b.1 low up reached),
        )
  ]

  -- Without one: the stops that were missed.
  serve-unobserved :
      (l : List ℕ)
      → (serve F configured fr).unobserved_stop_indices ≡ some l
      → (fr.gnss_gap ≡ none) × (length l ≤ 2) × IsCredited F fr l (serve F configured fr)
  serve-unobserved l h = elim (serve-Served F configured fr) [
    | held _ e ↦ absurd (ground arith)
    | in_order e ↦ absurd (ground (arith, finish_update-credits fr.safe_index none none))
    | after_gap i _ _ e ↦ absurd (ground (arith, finish_update-credits i (credited fr i) none))
    | after_miss i g b e ↦
        let (reached, travelled) = unobserved_credit-reached F fr fr.safe_index i g in
        let same : interval fr.safe_index (i - fr.safe_index) ≡ l =
          ground (arith, finish_update-credits i none (credited fr i)) in
        (
          b.3,
          rw (← same) (omega (arith, length-interval fr.safe_index (i - fr.safe_index))),
          rw (← same) (
              finish_update-IsCredited i i none (credited fr i) _ e b.0 b.2 (omega arith)
                (omega arith) reached),
        )
  ]

module _ (F : Float) (configured : F.Num) (input : TripStateInput F.Num) where
  -- The frame in which the update serves the ride: leaving the origin, or already under way.
  abbrev pub serving_frame : Frame F.Num
  serving_frame = frame_of F configured input (is_pre_departure input.current_trip_state)

  frame_of-gap :
      (leaving : Bool)
      → (frame_of F configured input leaving).gnss_gap ≡ gnss_gap_of F configured input
  unfolding frame_of
  frame_of-gap leaving = refl

  -- A result that credits stops is that of the in-service part.
  reduce_trip_state-serve :
      let r = reduce_trip_state F configured input in
      (is_some r.skipped_stop_indices || is_some r.unobserved_stop_indices) ≡ true
      → (r ≡ serve F configured serving_frame)
        × (is_pre_departure input.current_trip_state ≡ true → 1 < length input.stops)
        × (0 < length input.stops)
  unfolding reduce_trip_state reduce_fresh
  reduce_trip_state-serve h = elim (LegacyTripState-cases input.current_trip_state) [
    | inl s ↦ absurd (ground arith)
    | inr (inl s) ↦ absurd (ground arith)
    | inr (inr (inl s)) ↦ ground arith
    | inr (inr (inr s)) ↦ ground arith
  ]

  -- Stops are credited as skipped only while a GNSS gap is open, and are then the stops from the
  -- next expected one up to a later one that is not the terminal of a ride that is only leaving
  -- its origin, on the evidence of a stop among them, or of that later one, that this fix reaches.
  pub reduce_trip_state-skipped :
      (i : ℕ) (l : List ℕ)
      → input.current_stop_index ≡ pos i
      → i < length input.stops
      → (reduce_trip_state F configured input).skipped_stop_indices ≡ some l
      → (is_some (gnss_gap_of F configured input) ≡ true)
        × IsCredited F serving_frame l (reduce_trip_state F configured input)
  reduce_trip_state-skipped i l e b h =
      let (served, leaves, _) = reduce_trip_state-serve (rw h) in
      let (_, bounded) =
        frame_of-safe_index F configured input i (is_pre_departure input.current_trip_state) e b
          leaves in
      let (gap, credit) = serve-skipped F configured serving_frame bounded l (rw (← served) h) in
      (rw (← frame_of-gap (is_pre_departure input.current_trip_state)) gap, rw served credit)

  -- Stops are credited as unobserved only with no gap open, at most two at a time, and only when
  -- this fix reaches a later stop.
  pub reduce_trip_state-unobserved :
      (i : ℕ) (l : List ℕ)
      → input.current_stop_index ≡ pos i
      → i < length input.stops
      → (reduce_trip_state F configured input).unobserved_stop_indices ≡ some l
      → (gnss_gap_of F configured input ≡ none)
        × (length l ≤ 2)
        × IsCredited F serving_frame l (reduce_trip_state F configured input)
  reduce_trip_state-unobserved i l e b h =
      let (served, leaves, _) = reduce_trip_state-serve (ground arith) in
      let (_, bounded) =
        frame_of-safe_index F configured input i (is_pre_departure input.current_trip_state) e b
          leaves in
      let (gap, few, credit) =
        serve-unobserved F configured serving_frame bounded l (rw (← served) h) in
      (rw (← frame_of-gap (is_pre_departure input.current_trip_state)) gap, few, rw served credit)
