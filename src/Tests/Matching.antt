-- ===== src/Tests/Matching.antt =====
-- A fix against a path of two legs, over the small model of the numbers.
use eki.Matching.Missing.{match_route_position-none_iff}
use eki.Matching.Best.{match_route_position-least, eligible, window_of}
use eki.Prelude.Int.{pos, ℤ}
use eki.Geo.{to_radians, haversine_meters, off_globe}
use eki.Matching.Segments.{
  on_route, RouteMatch, distances_from, to_local, clamp01, cumulative_distances, angular_difference,
  segment_heading, project_to_segment,
}
use eki.Matching.Adherence.{
  evaluate_route_adherence-reroute, strong_deviation, deviates, evidence, count_after,
  evaluate_route_adherence, undecided, on_segment,
}
use eki.Matching.Bisection.{distance_bound-IsSplit, is_before, IsSplit, bisect, distance_bound}
use eki.Matching.Search.{
  Candidate, MatchInput, better, match_route_position, along_route, competes, competing_score,
  matched, unexplained_forward, best_of, ambiguity_window, prior_point, out_of_reach, candidate_at,
  search_window, continuity_confidence, point_along_path, candidates, segments_are_continuous,
}
use eki.Tests.Grid.{below, at, grid}
use eki.Prelude.{
  leb, zero, suc, ◌&&◌, ◌⊎◌, arith, ◌↔◌, refl, ◌<◌, ◌≤◌, ◌+◌, true, some, List, ◌≡◌, ℕ, false, none,
  Option, ◌∷◌, [],
}

program : Unit {0}
unfolding bisect distance_bound clamp01 angular_difference segment_heading to_local
    project_to_segment distances_from cumulative_distances segments_are_continuous point_along_path
    search_window ambiguity_window prior_point out_of_reach along_route unexplained_forward
    candidate_at candidates better best_of competes competing_score continuity_confidence matched
    match_route_position haversine_meters to_radians off_globe on_segment strong_deviation undecided
    evaluate_route_adherence deviates count_after evidence
program = tt

abbrev fix : MatchInput ℤ
fix = record {
  raw_point = at 5;
  path = at 0 ∷ at 10 ∷ at 20 ∷ [];
  heading_degrees = none;
  previous = none;
  position_uncertainty_m = pos 25;
  maximum_progress_change_m = none;
  plausible_progress_m = none;
}

abbrev found : RouteMatch ℤ
found = record {
  point = record { lat = pos 0; lng = pos 0 };
  segment_index = 0;
  segment_fraction = pos 0;
  distance_to_route_m = pos 250;
  along_route_distance_m = pos 0;
  heading_difference = none;
  match_confidence = pos 0;
  is_ambiguous = false;
}

fix-found : match_route_position grid fix ≡ some found
unfolding bisect distance_bound clamp01 angular_difference segment_heading to_local
    project_to_segment distances_from cumulative_distances segments_are_continuous point_along_path
    search_window ambiguity_window prior_point out_of_reach along_route unexplained_forward
    candidate_at candidates better best_of competes competing_score continuity_confidence matched
    match_route_position haversine_meters to_radians off_globe
fix-found = refl

below_irrefl : (x : ℤ) → below x x ≡ false
below_irrefl x = ground arith

below_trans : (x y z : ℤ) → below x y ≡ true → below y z ≡ true → below x z ≡ true
below_trans x y z p q = ground arith

match_route_position-least_example :
    (found.segment_index + 1 < 3)
    × ((window_of grid fix).0 ≤ found.segment_index)
    × (found.segment_index < (window_of grid fix).1)
    × (b : Candidate ℤ) × (eligible grid fix found.segment_index ≡ some b)
    × (found.along_route_distance_m ≡ b.along_route_distance_m)
    × ((j : ℕ) (c : Candidate ℤ)
        → (window_of grid fix).0 ≤ j
        → j < (window_of grid fix).1
        → eligible grid fix j ≡ some c
        → below c.score b.score ≡ false)
match_route_position-least_example =
    match_route_position-least grid fix below_irrefl below_trans found fix-found

match_route_position-none_iff_example : (match_route_position grid fix ≡ none) ↔ (
    (◌<◌ 3 2)
    ⊎ ((i : ℕ)
        → (window_of grid fix).0 ≤ i
        → i < (window_of grid fix).1
        → eligible grid fix i ≡ none))
match_route_position-none_iff_example = match_route_position-none_iff grid fix

abbrev distances : List ℤ
distances = pos 0 ∷ pos 10 ∷ pos 20 ∷ []

distances_early : (i : ℕ) → i < 2 → is_before grid distances (pos 10) true i ≡ true
distances_early zero h = refl
distances_early (suc zero) h = refl
distances_early (suc (suc i)) h = absurd (omega arith)

distances_sorted :
    (i j : ℕ)
    → i ≤ j
    → j < 3
    → is_before grid distances (pos 10) true j ≡ true
    → is_before grid distances (pos 10) true i ≡ true
distances_sorted i zero p q h = distances_early i (omega arith)
distances_sorted i (suc zero) p q h = distances_early i (omega arith)
distances_sorted i (suc (suc zero)) p q h = absurd (ground (arith, h))
distances_sorted i (suc (suc (suc j))) p q h = absurd (omega arith)

distance_bound-IsSplit_example :
    IsSplit
      (is_before grid distances (pos 10) true)
      0
      3
      (distance_bound grid distances (pos 10) true)
distance_bound-IsSplit_example =
    distance_bound-IsSplit grid distances (pos 10) true distances_sorted

two_found : distance_bound grid distances (pos 10) true ≡ 2
unfolding distance_bound bisect
two_found = refl

-- A fix far from the route.
abbrev strayed : Option (RouteMatch ℤ)
strayed = some found

evaluate_route_adherence-reroute_example :
    (evaluate_route_adherence grid
      (some on_route)
      (count_after grid 0 ((none, strayed, true) ∷ []))
      strayed
      true).should_reroute
    ≡ (deviates grid (strayed, true)
        && (true
            && leb 2 (
                evidence grid
                  (evidence grid 0 ((none, strayed, true) ∷ []))
                  ((some on_route, strayed, true) ∷ []))))
evaluate_route_adherence-reroute_example =
    evaluate_route_adherence-reroute grid ((none, strayed, true) ∷ []) (some on_route) strayed true
