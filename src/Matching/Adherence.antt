-- ===== src/Matching/Adherence.antt =====
-- `evaluateRouteAdherence` of backend/src/services/routeMatching.ts: when a bus that leaves its
-- route asks for another one. The stored count of samples is a natural number.
use eki.Geo.{Float}
use eki.Matching.Segments.{
  on_new_route, off_route, on_route, possible_off_route, rerouting, RouteMatch, RouteAdherenceState,
}
use eki.Prelude.{
  arith, refl, [], ◌∷◌, List, ◌≡◌, ◌||◌, leb, false, not, ◌+◌, true, ◌&&◌, some, min, holds,
  if◌then◌else◌, Bool, Option, ℕ,
}

pub record RouteAdherenceDecision : Type 0 where
  pub route_state : RouteAdherenceState
  pub off_route_sample_count : ℕ
  pub should_reroute : Bool

abbrev pub is_rerouting : Option RouteAdherenceState → Bool
is_rerouting (some rerouting) = true
is_rerouting _ = false

module _ (F : Float) where
  open F use {Num, lit, div, le}

  -- The fix is close to the route, on one segment only.
  unfoldable pub on_segment : Option (RouteMatch Num) → Bool
  on_segment = holds (λ (m : RouteMatch Num).
      not m.is_ambiguous
      && (le m.distance_to_route_m (lit 45) && le (div (lit 45) (lit 100)) m.match_confidence))

  abbrev pub ambiguous : Option (RouteMatch Num) → Bool
  ambiguous = holds (λ (m : RouteMatch Num). m.is_ambiguous)

  unfoldable pub strong_deviation : Option (RouteMatch Num) → Bool
  strong_deviation = holds (λ (m : RouteMatch Num). le (lit 120) m.distance_to_route_m)

  -- A sample that says nothing: what was known stays.
  unfoldable pub undecided : Option RouteAdherenceState → ℕ → RouteAdherenceDecision
  undecided previous count = record {
    route_state = if is_rerouting previous then rerouting else possible_off_route;
    off_route_sample_count = count;
    should_reroute = false;
  }

  unfoldable pub evaluate_route_adherence :
      Option RouteAdherenceState → ℕ → Option (RouteMatch Num) → Bool → RouteAdherenceDecision
  unfolding on_segment strong_deviation undecided
  evaluate_route_adherence previous count found reliably_moving =
      let samples = min 2 (if strong_deviation found then 2 else count + 1) in
      let confirmed = leb 2 samples in
      if on_segment found
      then record {
        route_state = elim previous [
          | some RouteAdherenceState.on_new_route ↦ on_new_route
          | _ ↦ on_route
        ];
        off_route_sample_count = 0;
        should_reroute = false;
      }
      else if ambiguous found || not reliably_moving
      then undecided previous count
      else record {
        route_state =
            if confirmed && is_rerouting previous
            then rerouting
            else if confirmed
            then off_route
            else possible_off_route;
        off_route_sample_count = samples;
        should_reroute = confirmed && not (is_rerouting previous);
      }

  -- A sample that counts as off the route.
  unfoldable pub deviates : Option (RouteMatch Num) × Bool → Bool
  deviates (found, moving) = moving && (not (on_segment found) && not (ambiguous found))

  -- A fix that was evaluated: the state stored then, the match, and whether the bus reliably moved.
  abbrev pub Sample : Type 0
  Sample = Option RouteAdherenceState × Option (RouteMatch Num) × Bool

  -- The stored count after some fixes, in their order.
  unfoldable pub count_after : ℕ → List Sample → ℕ
  count_after count [] = count
  count_after count ((state, found, moving) ∷ more) =
      count_after (evaluate_route_adherence state count found moving).off_route_sample_count more

  -- The evidence against the route: one for each fix that deviates since the last one on the route,
  -- two for one that deviates strongly.
  unfoldable pub evidence : ℕ → List Sample → ℕ
  evidence n [] = n
  evidence n ((state, found, moving) ∷ more) =
      let weight = if strong_deviation found then 2 else 1 in
      evidence (if on_segment found then 0 else if deviates (found, moving) then n + weight else n)
        more

  one-sample :
      (state : Option RouteAdherenceState) (count n : ℕ) (found : Option (RouteMatch Num))
      (moving : Bool)
      → count ≡ min 2 n
      → (evaluate_route_adherence state count found moving).off_route_sample_count
        ≡ min 2 (evidence n ((state, found, moving) ∷ []))
  unfolding evaluate_route_adherence evidence deviates undecided
  one-sample state count n found moving h = ground arith

  evidence-cons :
      (n : ℕ) (s : Sample) (more : List Sample)
      → evidence n (s ∷ more) ≡ evidence (evidence n (s ∷ [])) more
  unfolding evidence
  evidence-cons n (state, found, moving) more = refl

  count_after-cons :
      (count : ℕ) (state : Option RouteAdherenceState) (found : Option (RouteMatch Num))
      (moving : Bool) (more : List Sample)
      → count_after count ((state, found, moving) ∷ more)
        ≡ count_after
            (evaluate_route_adherence state count found moving).off_route_sample_count
            more
  unfolding count_after
  count_after-cons count state found moving more = refl

  count_after-evidence :
      (count n : ℕ) (samples : List Sample)
      → count ≡ min 2 n
      → count_after count samples ≡ min 2 (evidence n samples)
  count_after-evidence count n [] h = unfold count_after evidence in h
  count_after-evidence count n ((state, found, moving) ∷ more) h =
      rw
        (
          evidence-cons n (state, found, moving) more,
          count_after-cons count state found moving more,
        )
        (count_after-evidence
          (evaluate_route_adherence state count found moving).off_route_sample_count
          (evidence n ((state, found, moving) ∷ [])) more (one-sample state count n found moving h))

  -- After any fixes, a fix asks for a new route exactly when no other is being computed, it shows
  -- the bus moving reliably, off the route and on no ambiguous segment, and with it the evidence
  -- since the last fix on the route is that of two such fixes, or of one that deviates strongly.
  pub evaluate_route_adherence-reroute :
      (history : List Sample) (state : Option RouteAdherenceState) (found : Option (RouteMatch Num))
      (moving : Bool)
      → (evaluate_route_adherence state (count_after 0 history) found moving).should_reroute ≡ (
          deviates (found, moving)
          && (not (is_rerouting state)
              && leb 2 (evidence (evidence 0 history) ((state, found, moving) ∷ []))))
  evaluate_route_adherence-reroute history state found moving =
      let stored = count_after-evidence 0 0 history (ground arith) in
      unfold evaluate_route_adherence evidence deviates undecided in ground (arith, stored)
