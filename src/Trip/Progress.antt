-- ===== src/Trip/Progress.antt =====
-- Where one update can move the next expected stop: never back, never past the terminal, and over
-- stops that were not observed only with the evidence that the rules ask for.
use eki.Prelude.{
  ℕ, zero, ◌+◌, ◌-◌, ◌≤◌, ◌<◌, suc, Bool, true, false, ◌||◌, ◌⊎◌, inl, inr, List, Option, none,
  some, ◌≡◌, ◌≢◌, refl, arith, is_some, min, interval, or_else, Option-cases,
}
use eki.Geo.{Float}
use eki.Trip.Frame.{Frame, last_index, last_skippable}
use eki.Trip.Recovery.{
  Credit, stay, awaiting_direction, through, choose_copy, resolve_from, resolve_shared_stop,
  credit_through, gap_credit_from, gap_credit, reanchored_gap, unobserved_from, unobserved_credit,
}
use eki.Trip.Arrival.{Walk, at_terminal, paused, crossing_at, walk, walk_from}
use eki.Trip.Types.{TripStateResult, pre_departure}
use eki.Trip.Reducer.{serving, finish_update, serve}
use eki.Prelude.Int.{pos, pos_part}

-- The stops that are credited when the ride jumps to a later one.
abbrev pub credited : {N : Type 0} → Frame N → ℕ → Option (List ℕ)
credited fr i = some (interval fr.safe_index (i - fr.safe_index))

module _ (F : Float) (fr : Frame F.Num) where
  pub last_skippable-le : last_skippable F fr ≤ last_index F fr
  last_skippable-le = ground arith

  choose_copy_cases :
      (index copy i : ℕ) → choose_copy F fr index copy ≡ some i → (i ≡ index) ⊎ (i ≡ copy)
  unfolding choose_copy
  choose_copy_cases index copy i h = ground arith

  -- The copy that is chosen is the stop itself or one of the later stops that the loop visits.
  resolve_from_cases :
      (rounds copy index i : ℕ)
      → resolve_from F fr rounds copy index ≡ some i
      → (i ≡ index) ⊎ ((copy ≤ i) × (i < copy + rounds))
  unfolding resolve_from
  resolve_from_cases zero copy index i h = ground arith
  resolve_from_cases (suc rounds) copy index i h =
      ground (arith, choose_copy_cases index copy i, resolve_from_cases rounds (suc copy) index i)

  pub resolve_shared_stop_bounds :
      (index i : ℕ)
      → resolve_shared_stop F fr index ≡ some i
      → (i ≡ index) ⊎ ((index < i) × (i ≤ last_skippable F fr))
  unfolding resolve_shared_stop
  resolve_shared_stop_bounds index i h =
      ground (arith, resolve_from_cases (last_skippable F fr + 1 - (index + 2)) (index + 2) index i)

  pub credit_through-through :
      (next i : ℕ) (o : Option ℕ)
      → credit_through F fr next o ≡ through i
      → (o ≡ some i) × (i ≢ next)
  unfolding credit_through
  credit_through-through next i none h = ground arith
  credit_through-through next i (some index) h = ground arith

  gap_credit_from_bounds :
      (rounds next index i : ℕ)
      → next < index
      → (0 < rounds → index + rounds ≤ last_skippable F fr + 1)
      → gap_credit_from F fr rounds next index ≡ through i
      → (next < i) × (i ≤ last_skippable F fr)
  unfolding gap_credit_from
  gap_credit_from_bounds zero next index i lt b h = ground arith
  gap_credit_from_bounds (suc rounds) next index i lt b h = ground (
    arith,
    b,
    credit_through-through next i (resolve_shared_stop F fr index),
    resolve_shared_stop_bounds index i,
    gap_credit_from_bounds rounds next (suc index) i (omega arith)
        (λ p. omega (arith, b (omega arith))),
  )

  -- A gap credits only stops up to a later one that may be reached.
  pub gap_credit_bounds :
      (next i : ℕ)
      → gap_credit F fr next ≡ through i
      → (next < i) × (i ≤ last_skippable F fr) × (is_some fr.gnss_gap ≡ true)
  unfolding gap_credit
  gap_credit_bounds next i h = ground (
    arith,
    credit_through-through next i (resolve_shared_stop F fr next),
    resolve_shared_stop_bounds next i,
    gap_credit_from_bounds (last_skippable F fr + 1 - (next + 1)) next (next + 1) i (omega arith)
        (λ p. omega arith),
  )

  unobserved_from_bounds :
      (rounds next index i : ℕ)
      → unobserved_from F fr rounds next index ≡ some i
      → (index ≤ i) × (i < index + rounds)
  unfolding unobserved_from
  unobserved_from_bounds zero next index i h = ground arith
  unobserved_from_bounds (suc rounds) next index i h =
      ground (arith, unobserved_from_bounds rounds next (suc index) i)

  -- Continuous telemetry credits one or two stops, and only where no gap is open.
  pub unobserved_credit_bounds :
      (next i : ℕ)
      → unobserved_credit F fr next ≡ some i
      → (next < i) × (i ≤ next + 2) × (i ≤ last_skippable F fr) × (fr.gnss_gap ≡ none)
  unfolding unobserved_credit
  unobserved_credit_bounds next i h = ground (
    arith,
    unobserved_from_bounds (min (next + 2) (last_skippable F fr) + 1 - (next + 1)) next (next + 1)
        i,
  )

pub Walk-cases : (w : Walk) → (w ≡ at_terminal) ⊎ ((n : ℕ) × (o : Bool) × (w ≡ paused n o))
Walk-cases at_terminal = inl refl
Walk-cases (paused n o) = inr (n, o, refl)

pub Credit-cases :
    (c : Credit) → (c ≡ stay) ⊎ ((c ≡ awaiting_direction) ⊎ ((i : ℕ) × (c ≡ through i)))
Credit-cases stay = inl refl
Credit-cases awaiting_direction = inr (inl refl)
Credit-cases (through i) = inr (inr (i, refl))

module _ (F : Float) (configured : F.Num) (fr : Frame F.Num) where
  walk_bounds :
      (left next : ℕ) (c : F.Num) (o : Bool) (n : ℕ) (observed : Bool)
      → next ≤ last_index F fr
      → next + left ≡ last_index F fr + 1
      → walk F configured fr left next c o ≡ paused n observed
      → (next ≤ n) × (n ≤ last_index F fr)
  unfolding walk
  walk_bounds zero next c o n observed b e h = ground arith
  walk_bounds (suc left) next c o n observed b e h = ground (
    arith,
    walk_bounds left (suc next) (crossing_at F configured fr next fr.segment_start) true n observed,
  )

  -- What the in-service part returns: the index is natural and stays within the route, the ride is
  -- not sent back to departure, and the credited stops are an interval that ends at or before it.
  pub record IsAdvance (from : ℕ) (r : TripStateResult F.Num) : Type 0 where
    pub natural : r.current_stop_index ≡ pos (pos_part r.current_stop_index)
    pub forward : from ≤ pos_part r.current_stop_index
    pub within : pos_part r.current_stop_index ≤ last_index F fr
    pub started : r.trip_state ≢ pre_departure

  walk_from_bounds :
      (next n : ℕ) (observed : Bool)
      → next ≤ last_index F fr
      → walk_from F configured fr next ≡ paused n observed
      → (next ≤ n) × (n ≤ last_index F fr)
  unfolding walk_from
  walk_from_bounds next n observed b h =
      walk_bounds (last_index F fr + 1 - next) next (F.neg F.infinity) false n observed b
        (omega arith) h

  pub finish_update-IsAdvance :
      (next : ℕ) (skipped unobserved : Option (List ℕ))
      → next ≤ last_index F fr
      → IsAdvance next (finish_update F configured fr next skipped unobserved)
  unfolding finish_update
  finish_update-IsAdvance next skipped unobserved b =
      elim (Walk-cases (walk_from F configured fr next)) [
        | inl e ↦ ground arith
        | inr (n, o, e) ↦ ground (arith, walk_from_bounds next n o)
      ]

  -- The four ways in which the in-service part ends.
  pub data Served (r : TripStateResult F.Num) : Type 0 where
    held :
        gap_credit F fr fr.safe_index ≡ awaiting_direction
        → r
          ≡ serving F configured fr fr.safe_index
              (fr.has_departed || fr.leaving_origin)
              (or_else (reanchored_gap F fr fr.safe_index) fr.gnss_gap)
              none
              none
        → Served r
    in_order : r ≡ finish_update F configured fr fr.safe_index none none → Served r
    after_gap :
        (i : ℕ)
        → gap_credit F fr fr.safe_index ≡ through i
        → (fr.safe_index < i) × (i ≤ last_skippable F fr) × (is_some fr.gnss_gap ≡ true)
        → r ≡ finish_update F configured fr i (credited fr i) none
        → Served r
    after_miss :
        (i : ℕ)
        → unobserved_credit F fr fr.safe_index ≡ some i
        → (fr.safe_index < i)
          × (i ≤ fr.safe_index + 2)
          × (i ≤ last_skippable F fr)
          × (fr.gnss_gap ≡ none)
        → r ≡ finish_update F configured fr i none (credited fr i)
        → Served r

  pub serve-Served : Served (serve F configured fr)
  unfolding serve
  serve-Served = elim (Credit-cases (gap_credit F fr fr.safe_index)) [
    | inl e ↦ elim (Option-cases (unobserved_credit F fr fr.safe_index)) [
      | inl none_e ↦ in_order (ground arith)
      | inr (i, some_e) ↦
          after_miss i some_e (unobserved_credit_bounds F fr fr.safe_index i some_e) (ground arith)
    ]
    | inr (inl e) ↦ held e (ground arith)
    | inr (inr (i, e)) ↦ after_gap i e (gap_credit_bounds F fr fr.safe_index i e) (ground arith)
  ]

  -- The in-service part never moves the next expected stop back or past the terminal.
  pub serve-IsAdvance :
      fr.safe_index ≤ last_index F fr → IsAdvance fr.safe_index (serve F configured fr)
  serve-IsAdvance b = elim serve-Served [
    | held _ e ↦ ground arith
    | in_order e ↦ rw e (finish_update-IsAdvance fr.safe_index none none b)
    | after_gap i _ h e ↦ ground (
      arith,
      finish_update-IsAdvance i (credited fr i) none (omega (arith, last_skippable-le F fr)),
    )
    | after_miss i _ h e ↦ ground (
      arith,
      finish_update-IsAdvance i none (credited fr i) (omega (arith, last_skippable-le F fr)),
    )
  ]

  finish_update-departed :
      (next : ℕ) (skipped unobserved : Option (List ℕ))
      → fr.has_departed ≡ true
      → (finish_update F configured fr next skipped unobserved).has_departed_origin ≡ true
  unfolding finish_update
  finish_update-departed next skipped unobserved h = ground arith

  -- A ride that has departed stays so.
  pub serve-departed : fr.has_departed ≡ true → (serve F configured fr).has_departed_origin ≡ true
  serve-departed h = elim serve-Served [
    | held _ e ↦ ground arith
    | in_order e ↦ ground (arith, finish_update-departed fr.safe_index none none h)
    | after_gap i _ _ e ↦ ground (arith, finish_update-departed i (credited fr i) none h)
    | after_miss i _ _ e ↦ ground (arith, finish_update-departed i none (credited fr i) h)
  ]
