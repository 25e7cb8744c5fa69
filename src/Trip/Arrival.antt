-- ===== src/Trip/Arrival.antt =====
-- Consuming the stops that one update reaches in order, and the confirmation of the terminal
-- (`reduceTripState` of backend/src/services/tripStateReducer.ts).
use eki.Prelude.{
  ℕ, zero, ◌+◌, ◌-◌, suc, Bool, true, false, not, ◌&&◌, Option, none, some, ltb, ◌==◌,
  if◌then◌else◌, holds,
}
use eki.Geo.{Float}
use eki.Trip.Types.{MotionState, stopped, TripPosition, TerminalArrivalEvidence}
use eki.Trip.Evidence.{at_most, stop_at}
use eki.Trip.Frame.{Frame, stops, last_index, to_stop, reached_stop, distinguishable}

-- Where the loop over reached stops ends: at the terminal, or before the next expected stop.
pub data Walk : Type 0 where
  at_terminal : Walk
  paused : ℕ → Bool → Walk

-- The terminal without reliable evidence, with evidence to carry on, or confirmed.
pub data Terminal (N : Type 0) : Type 0 where
  unproven : Terminal N
  pending : TerminalArrivalEvidence N → Terminal N
  confirmed : Terminal N

abbrev pub is_stopped : MotionState → Bool
is_stopped stopped = true
is_stopped _ = false

-- `TERMINAL_ARRIVAL_CONFIRMATION_MS`, from the number that the environment's variable reads as.
unfoldable pub confirmation_ms : (F : Float) → F.Num → F.Num
confirmation_ms F configured =
    if F.is_finite configured && F.le (F.lit 1_000) configured
    then F.floor configured
    else F.lit 2_000

module _ (F : Float) (configured : F.Num) (fr : Frame F.Num) where
  open F use {Num, neg, lit, add, sub, mul, div, le, lt, is_finite, is_safe_integer, infinity}

  -- How far along the segment the stop lies.
  unfoldable pub crossing_at : ℕ → Option (TripPosition Num) → Num
  crossing_at next none = lit 1
  crossing_at next (some p) =
      let dx = sub fr.input.place.lng p.place.lng in
      let dy = sub fr.input.place.lat p.place.lat in
      let length_squared = add (mul dx dx) (mul dy dy) in
      let stop = stop_at F (stops F fr) next in
      if lt (lit 0) length_squared
      then div (add (mul (sub stop.lng p.place.lng) dx) (mul (sub stop.lat p.place.lat) dy))
          length_squared
      else lit 1

  -- The condition of the loop.
  unfoldable pub may_consume : ℕ → Bool
  may_consume next =
      ltb 0 next
      && (not (fr.leaving_origin && next == last_index F fr)
          && (reached_stop F fr next
              && (distinguishable F fr next && le (to_stop F fr next) (to_stop F fr (next - 1)))))

  -- The loop itself, on the number of stops that are left from `next` on.
  unfoldable pub walk : ℕ → ℕ → Num → Bool → Walk
  walk zero next last_crossing observed = paused next observed
  walk (suc left) next last_crossing observed =
      let crossing = crossing_at next fr.segment_start in
      let rest = walk left (suc next) crossing true in
      if not (may_consume next)
      then paused next observed
      else if lt crossing last_crossing
      then paused next true
      else if next == last_index F fr
      then at_terminal
      else rest

  unfoldable pub walk_from : ℕ → Walk
  unfolding walk
  walk_from next = walk (last_index F fr + 1 - next) next (neg infinity) false

  unfoldable pub reliable_arrival : Bool
  reliable_arrival =
      fr.has_departed
      && (is_stopped fr.input.motion_state
          && (holds (λ h. is_finite h && (le (lit 0) h && at_most F h 4)) fr.input.gps_hdop
              && (holds (λ v. le (lit 0) v && le v (div (lit 5) (lit 2))) fr.input.speed
                  && (holds is_safe_integer fr.input.timestamp
                      && at_most F (to_stop F fr (last_index F fr)) 15))))

  unfoldable pub usable_prior : Num → TerminalArrivalEvidence Num → Bool
  usable_prior t prior =
      is_safe_integer prior.started_at
      && (is_safe_integer prior.last_sampled_at
          && (le prior.started_at prior.last_sampled_at
              && (le prior.last_sampled_at t && at_most F (sub t prior.last_sampled_at) 60_000)))

  -- Whether this sample, after that evidence, confirms the arrival.
  unfoldable pub confirms : Num → TerminalArrivalEvidence Num → Bool
  unfolding confirmation_ms
  confirms t prior =
      lt prior.last_sampled_at t && le (confirmation_ms F configured) (sub t prior.started_at)

  unfoldable pub terminal_from : Num → Option (TerminalArrivalEvidence Num) → Terminal Num
  unfolding usable_prior confirms
  terminal_from t none = pending (record { started_at = t; last_sampled_at = t })
  terminal_from t (some prior) =
      if usable_prior t prior
      then (if confirms t prior then confirmed else pending (record prior { last_sampled_at = t }))
      else pending (record { started_at = t; last_sampled_at = t })

  unfoldable pub terminal_at : Terminal Num
  unfolding reliable_arrival terminal_from
  terminal_at =
      if reliable_arrival
      then elim fr.input.timestamp [
        | none ↦ unproven
        | some t ↦ terminal_from t fr.input.terminal_arrival
      ]
      else unproven
