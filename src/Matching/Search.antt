-- ===== src/Matching/Search.antt =====
-- `matchRoutePosition` of backend/src/services/routeMatching.ts.
use eki.Matching.Bisection.{distance_bound}
use eki.Matching.Segments.{
  segment_heading, angular_difference, value_at, clamp01, cumulative_distances, project_to_segment,
  RouteMatch, PreviousRouteMatch, vertex,
}
use eki.Geo.{haversine_meters, Float, LatLng}
use eki.Prelude.{
  ◌||◌, true, leb, ltb, ◌+◌, ◌-◌, holds, ◌&&◌, max, false, some, length, if◌then◌else◌, min, not,
  Option, List, Bool, none, ◌∷◌, [], ℕ, zero, suc,
}

-- The arguments of `matchRoutePosition`; `none` is `undefined`, or `null` for the previous match.
pub record MatchInput (N : Type 0) : Type 0 where
  pub raw_point : LatLng N
  pub path : List (LatLng N)
  pub heading_degrees : Option N
  pub previous : Option (PreviousRouteMatch N)
  pub position_uncertainty_m : N
  pub maximum_progress_change_m : Option N
  pub plausible_progress_m : Option N

-- A segment that is eligible, with its score.
pub record Candidate (N : Type 0) : Type 0 where
  pub point : LatLng N
  pub segment_index : ℕ
  pub segment_fraction : N
  pub distance_to_route_m : N
  pub along_route_distance_m : N
  pub heading_difference : Option N
  pub score : N

module _ (F : Float) where
  open F use {
    Num, lit, add, sub, mul, div, lt, le, num_eq, is_finite, infinity, abs, minimum, maximum,
    epsilon, to_fixed,
  }

  -- Segments joined directly or only through repeated vertices.
  unfoldable pub segments_are_continuous : List Num → ℕ → ℕ → Bool
  segments_are_continuous cumulative left right =
      let lower = min left right in
      let upper = max left right in
      leb (upper - lower) 1
      || num_eq (value_at F cumulative upper) (value_at F cumulative (lower + 1))

  unfoldable pub point_along_path : List (LatLng Num) → List Num → Num → LatLng Num
  point_along_path path cumulative distance_m =
      let index = min (length path - 2) (distance_bound F cumulative distance_m true - 1) in
      let begun = value_at F cumulative index in
      let span = sub (value_at F cumulative (index + 1)) begun in
      let fraction =
        if lt (lit 0) span then clamp01 F (div (sub distance_m begun) span) else lit 0 in
      let a = vertex F path index in
      let b = vertex F path (index + 1) in
      record {
        lat = add a.lat (mul (sub b.lat a.lat) fraction);
        lng = add a.lng (mul (sub b.lng a.lng) fraction);
      }

  -- The segments that the search looks at: from the first up to the second, which is left out.
  unfoldable pub search_window : MatchInput Num → List Num → ℕ × ℕ
  search_window m cumulative =
      let all : ℕ × ℕ = (0, length m.path - 1) in
      elim m.previous [
        | none ↦ all
        | some p ↦ elim m.maximum_progress_change_m [
          | none ↦ all
          | some reach ↦
              let pad =
                mul (mul epsilon (maximum (maximum (lit 1) (abs p.along_route_distance_m)) reach))
                  (lit 4) in
              let from = sub (sub p.along_route_distance_m reach) pad in
              let to = add (add p.along_route_distance_m reach) pad in
              if is_finite p.along_route_distance_m
                && (is_finite reach
                    && (le (lit 0) reach
                        && is_finite (value_at F cumulative (length cumulative - 1))))
              then (
                distance_bound F cumulative from false - 1,
                min (length m.path - 1) (distance_bound F cumulative to true),
              )
              else all
        ]
      ]

  unfoldable pub ambiguity_window : Num → Num
  ambiguity_window uncertainty =
      maximum (lit 6) (minimum (lit 12) (mul (maximum (lit 0) uncertainty) (div (lit 1) (lit 4))))

  -- The place of the previous match, where plausible progress is bounded.
  unfoldable pub prior_point : MatchInput Num → List Num → Option (LatLng Num)
  prior_point m cumulative = elim m.previous [
    | none ↦ none
    | some p ↦
        if holds is_finite m.plausible_progress_m
        then some (point_along_path m.path cumulative p.along_route_distance_m)
        else none
  ]

  -- A segment whose place is farther from the previous match than the bus may have travelled.
  unfoldable pub out_of_reach : MatchInput Num → Num → Bool
  out_of_reach m along = elim m.previous [
    | none ↦ false
    | some p ↦
        holds (λ reach. lt reach (abs (sub along p.along_route_distance_m)))
          m.maximum_progress_change_m
  ]

  unfoldable pub along_route : MatchInput Num → List Num → ℕ → Num
  along_route m cumulative i =
      let p = project_to_segment F m.raw_point (vertex F m.path i) (vertex F m.path (i + 1)) in
      add (value_at F cumulative i)
        (mul p.fraction (sub (value_at F cumulative (i + 1)) (value_at F cumulative i)))

  unfoldable pub unexplained_forward : MatchInput Num → List Num → Num → LatLng Num → Num
  unexplained_forward m cumulative progress point = elim (prior_point m cumulative) [
    | none ↦ lit 0
    | some prior ↦ elim m.plausible_progress_m [
      | none ↦ lit 0
      | some plausible ↦ maximum (lit 0) (
          minimum (sub progress (maximum (lit 0) plausible)) (
            sub (sub progress (haversine_meters F prior point))
              (ambiguity_window m.position_uncertainty_m)))
    ]
  ]

  -- One round of the loop: the candidate, or `none` where the loop continues without one.
  unfoldable pub candidate_at : MatchInput Num → List Num → ℕ → Option (Candidate Num)
  candidate_at m cumulative i =
      let start = vertex F m.path i in
      let end = vertex F m.path (i + 1) in
      let p = project_to_segment F m.raw_point start end in
      let along = along_route m cumulative i in
      let difference : Option Num = elim m.heading_degrees [
        | none ↦ none
        | some h ↦ some (angular_difference F h (segment_heading F start end))
      ] in
      let backwards : Num = elim m.previous [
        | none ↦ lit 0
        | some q ↦ maximum (lit 0) (sub (sub q.along_route_distance_m along) (lit 15))
      ] in
      let jump : Num = elim m.previous [
        | none ↦ lit 0
        | some q ↦ maximum (lit 0) (sub (abs (sub (lit i) q.segment_index)) (lit 25))
      ] in
      let progress : Num = elim m.previous [
        | none ↦ lit 0
        | some q ↦ sub along q.along_route_distance_m
      ] in
      let turn : Num = elim difference [ none ↦ lit 0 | some d ↦ d ] in
      let score =
        add
          (add (add (add p.distance_m (mul turn (div (lit 28) (lit 100)))) (mul backwards (lit 2)))
            (unexplained_forward m cumulative progress p.point))
          (mul jump (lit 3)) in
      if out_of_reach m along
      then none
      else some (record {
        point = p.point;
        segment_index = i;
        segment_fraction = p.fraction;
        distance_to_route_m = p.distance_m;
        along_route_distance_m = along;
        heading_difference = difference;
        score = score;
      })

  -- The candidates of the loop, from a segment on, in order.
  unfoldable pub candidates : MatchInput Num → List Num → ℕ → ℕ → List (Candidate Num)
  candidates m cumulative i zero = []
  candidates m cumulative i (suc rounds) =
      let rest = candidates m cumulative (suc i) rounds in
      elim (candidate_at m cumulative i) [ none ↦ rest | some c ↦ c ∷ rest ]

  unfoldable pub better : Option (Candidate Num) → Candidate Num → Candidate Num
  better none c = c
  better (some b) c = if lt c.score b.score then c else b

  -- `best` after the loop, from a `best` before it.
  unfoldable pub best_of : Option (Candidate Num) → List (Candidate Num) → Option (Candidate Num)
  best_of best [] = best
  best_of best (c ∷ cs) = best_of (some (better best c)) cs

  unfoldable pub competes : MatchInput Num → List Num → Candidate Num → Candidate Num → Bool
  competes m cumulative best c =
      not (segments_are_continuous cumulative c.segment_index best.segment_index)
      && lt
          (add (haversine_meters F c.point best.point) (ambiguity_window m.position_uncertainty_m))
          (abs (sub c.along_route_distance_m best.along_route_distance_m))

  unfoldable pub competing_score :
      MatchInput Num → List Num → Candidate Num → Num → List (Candidate Num) → Num
  competing_score m cumulative best score [] = score
  competing_score m cumulative best score (c ∷ cs) =
      competing_score m cumulative best
        (if competes m cumulative best c then minimum score c.score else score) cs

  unfoldable pub continuity_confidence : MatchInput Num → Candidate Num → Num
  continuity_confidence m best = elim m.previous [
    | none ↦ div (lit 65) (lit 100)
    | some p ↦
        mul
          (clamp01 F
            (sub (lit 1) (div (abs (sub (lit best.segment_index) p.segment_index)) (lit 30))))
          (if lt (lit 0) (
              maximum (lit 0)
                (sub (sub p.along_route_distance_m best.along_route_distance_m) (lit 15)))
            then div (lit 25) (lit 100)
            else lit 1)
  ]

  -- The result for the best candidate.
  unfoldable pub matched :
      MatchInput Num → List Num → List (Candidate Num) → Candidate Num → RouteMatch Num
  matched m cumulative cs best =
      let rival = competing_score m cumulative best infinity cs in
      let ambiguous =
        is_finite rival && le (sub rival best.score) (ambiguity_window m.position_uncertainty_m) in
      let near = clamp01 F (sub (lit 1) (div best.distance_to_route_m (lit 60))) in
      let ahead : Num = elim best.heading_difference [
        | none ↦ div (lit 65) (lit 100)
        | some d ↦ clamp01 F (sub (lit 1) (div d (lit 120)))
      ] in
      let weighed =
        add (add (mul near (div (lit 55) (lit 100))) (mul ahead (div (lit 25) (lit 100))))
          (mul (continuity_confidence m best) (div (lit 2) (lit 10))) in
      record {
        point = best.point;
        segment_index = best.segment_index;
        segment_fraction = best.segment_fraction;
        distance_to_route_m = best.distance_to_route_m;
        along_route_distance_m = best.along_route_distance_m;
        heading_difference = best.heading_difference;
        match_confidence =
            to_fixed 3 (mul weighed (if ambiguous then div (lit 55) (lit 100) else lit 1));
        is_ambiguous = ambiguous;
      }

  -- `none` is `null`.
  unfoldable pub match_route_position : MatchInput Num → Option (RouteMatch Num)
  match_route_position m =
      let cumulative = cumulative_distances F m.path in
      let window = search_window m cumulative in
      let cs = candidates m cumulative window.0 (window.1 - window.0) in
      let found : Option (RouteMatch Num) = elim (best_of none cs) [
        | none ↦ none
        | some best ↦ some (matched m cumulative cs best)
      ] in
      if ltb (length m.path) 2 then none else found
