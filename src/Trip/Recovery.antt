-- ===== src/Trip/Recovery.antt =====
-- Crediting a stop that is not the next expected one, after a GNSS gap or a stop that was missed
-- (`reduceTripState` of backend/src/services/tripStateReducer.ts). Each loop over stops recurs on the
-- rounds that are left, `last + 1 - first`.
use eki.Prelude.{
  ℕ, zero, ◌+◌, ◌-◌, suc, Bool, true, false, not, ◌&&◌, Option, none, some, ltb, ◌==◌,
  if◌then◌else◌, is_some, or_else, any, filter, take, min,
}
use eki.Geo.{Float, haversine_meters}
use eki.Trip.Evidence.{over, at_most, stop_at}
use eki.Trip.Passing.{earlier, later, shared_stop_pass}
use eki.Trip.Frame.{
  Frame, stops, last_index, position, last_skippable, to_stop, gap_elapsed_ms, drive_ms,
  at_passed_stop_location, reached_stop, travelled_through, observed_later_stop, reachable_in_gap,
  revisit_minimum_ms,
}

-- What a gap credits: nothing, nothing until a direction shows, or the stops before an index.
pub data Credit : Type 0 where
  stay : Credit
  awaiting_direction : Credit
  through : ℕ → Credit

module _ (F : Float) (fr : Frame F.Num) where
  open F use {Num, lit, div, le, lt}

  -- Two copies of one place, long enough apart in time: which of them the bus is at.
  unfoldable pub choose_copy : ℕ → ℕ → Option ℕ
  choose_copy index copy =
      let apart = haversine_meters F (stop_at F (stops F fr) copy) (stop_at F (stops F fr) index) in
      let on_index = at_most F (to_stop F fr index) 8 in
      let on_copy = at_most F (to_stop F fr copy) 8 in
      let off_index = over F (to_stop F fr index) 8 in
      let off_copy = over F (to_stop F fr copy) 8 in
      let pass =
        or_else (shared_stop_pass F (stops F fr) index copy (position F fr) fr.segment_start)
          (if copy == last_index F fr then some later else none) in
      if over F apart 8 && (on_index && off_copy)
      then some index
      else if over F apart 8 && (on_copy && off_index)
      then some copy
      else elim pass [ none ↦ none | some earlier ↦ some index | some later ↦ some copy ]

  -- The loop of `resolveSharedStop` over the later copies.
  unfoldable pub resolve_from : ℕ → ℕ → ℕ → Option ℕ
  resolve_from zero copy index = some index
  resolve_from (suc rounds) copy index =
      let rest = resolve_from rounds (suc copy) index in
      let apart = haversine_meters F (stop_at F (stops F fr) copy) (stop_at F (stops F fr) index) in
      if over F apart 30
      then rest
      else if lt (gap_elapsed_ms F fr) (drive_ms F fr index copy)
      then some index
      else choose_copy index copy

  unfoldable pub resolve_shared_stop : ℕ → Option ℕ
  resolve_shared_stop index = resolve_from (last_skippable F fr + 1 - (index + 2)) (index + 2) index

  -- `creditThrough`
  unfoldable pub credit_through : ℕ → Option ℕ → Credit
  credit_through next none = awaiting_direction
  credit_through next (some index) = if index == next then stay else through index

  -- The fix still sits at a passed place that `stops[index]` shares.
  unfoldable pub still_there : ℕ → ℕ → Bool
  still_there next index =
      let passed_here =
        filter (λ stop. at_most F (haversine_meters F (position F fr) stop) 15)
          (take next (stops F fr)) in
      if at_most F (to_stop F fr index) 15
      then at_passed_stop_location F fr next (stop_at F (stops F fr) index)
      else any (λ stop. at_most F (haversine_meters F stop (stop_at F (stops F fr) index)) 30)
          passed_here

  -- The loop that re-anchors an open gap.
  unfoldable pub reanchors_from : ℕ → ℕ → ℕ → Bool
  reanchors_from zero next index = false
  reanchors_from (suc rounds) next index =
      let rest = reanchors_from rounds next (suc index) in
      let minimum_ms = revisit_minimum_ms F fr next index in
      let elapsed = gap_elapsed_ms F fr in
      if not (still_there next index)
      then rest
      else if le (div minimum_ms (lit 2)) elapsed && lt elapsed minimum_ms
      then true
      else rest

  -- `reanchoredGap`
  unfoldable pub reanchored_gap : ℕ → Option Num
  reanchored_gap next =
      if is_some fr.gnss_gap
        && (ltb 0 next && reanchors_from (last_skippable F fr + 1 - (next + 1)) next (next + 1))
      then fr.input.timestamp
      else none

  -- The loop over the stops beyond the next expected one, while a gap is open.
  unfoldable pub gap_credit_from : ℕ → ℕ → ℕ → Credit
  gap_credit_from zero next index = stay
  gap_credit_from (suc rounds) next index =
      let rest = gap_credit_from rounds next (suc index) in
      let too_soon =
        at_passed_stop_location F fr next (stop_at F (stops F fr) index)
        && lt (gap_elapsed_ms F fr) (revisit_minimum_ms F fr next index) in
      if not (reachable_in_gap F fr next index)
      then stay
      else if not (observed_later_stop F fr index)
      then rest
      else if too_soon
      then rest
      else credit_through next (resolve_shared_stop index)

  unfoldable pub gap_credit : ℕ → Credit
  gap_credit next =
      if not (is_some fr.gnss_gap && ltb 0 next)
      then stay
      else if reached_stop F fr next
      then credit_through next (resolve_shared_stop next)
      else gap_credit_from (last_skippable F fr + 1 - (next + 1)) next (next + 1)

  -- The loop over the next few stops with continuous telemetry.
  unfoldable pub unobserved_from : ℕ → ℕ → ℕ → Option ℕ
  unobserved_from zero next index = none
  unobserved_from (suc rounds) next index =
      let rest = unobserved_from rounds next (suc index) in
      if not (reached_stop F fr index && travelled_through F fr index)
      then rest
      else if at_passed_stop_location F fr next (stop_at F (stops F fr) index)
      then none
      else some index

  -- The stop whose pass credits those before it as unobserved.
  unfoldable pub unobserved_credit : ℕ → Option ℕ
  unobserved_credit next =
      let last_target = min (next + 2) (last_skippable F fr) in
      if not (is_some fr.gnss_gap) && (ltb 0 next && not (reached_stop F fr next))
      then unobserved_from (last_target + 1 - (next + 1)) next (next + 1)
      else none
