-- ===== src/Matching/Best.antt =====
-- Which segment `matchRoutePosition` of backend/src/services/routeMatching.ts takes.
use eki.Matching.Segments.{RouteMatch, cumulative_distances}
use eki.Geo.{Float}
use eki.Matching.Search.{
  matched, match_route_position, search_window, candidates, best_of, Candidate, MatchInput, better,
  candidate_at,
}
use eki.Prelude.{
  ◌-◌, ◌==◌, length, refl, ◌∙◌, ◌+◌, sym, Option-cases, inr, ◌<◌, none, ◌≤◌, inl, Bool-cases, arith,
  some, ◌⊎◌, Option, true, false, ◌≡◌, List, ◌∷◌, ℕ, zero, suc,
}

module _ (F : Float) (m : MatchInput F.Num) (cumulative : List F.Num)
    (lt_irrefl : (x : F.Num) → F.lt x x ≡ false)
    (lt_trans : (x y z : F.Num) → F.lt x y ≡ true → F.lt y z ≡ true → F.lt x z ≡ true) where
  open F use {Num, lt}

  better-lt :
      (x : Num) (best : Option (Candidate Num)) (c o : Candidate Num)
      → best ≡ some o
      → lt x o.score ≡ false
      → lt x (better F best c).score ≡ false
  unfolding better
  better-lt x none c o e h = ground arith
  better-lt x (some b) c o e h = ground (arith, lt_trans x c.score b.score)

  better-own :
      (best : Option (Candidate Num)) (c : Candidate Num)
      → lt c.score (better F best c).score ≡ false
  unfolding better
  better-own none c = lt_irrefl c.score
  better-own (some b) c = elim (Bool-cases (lt c.score b.score)) [
    | inl q ↦ rw (q) (lt_irrefl c.score)
    | inr q ↦ rw (q) (q)
  ]

  better-from :
      (best : Option (Candidate Num)) (c : Candidate Num)
      → (better F best c ≡ c) ⊎ (best ≡ some (better F best c))
  unfolding better
  better-from none c = inl refl
  better-from (some b) c = ground arith

  -- What the loop finds from a segment on, with a best candidate from before.
  pub record IsScan (best : Option (Candidate Num)) (i rounds : ℕ) (b : Candidate Num)
      : Type 0 where
    pub from :
        (best ≡ some b)
        ⊎ ((i ≤ b.segment_index)
            × (b.segment_index < i + rounds)
            × (candidate_at F m cumulative b.segment_index ≡ some b))
    pub below :
        (x : Num) (o : Candidate Num) → best ≡ some o → lt x o.score ≡ false → lt x b.score ≡ false
    pub least :
        (j : ℕ) (c : Candidate Num)
        → i ≤ j
        → j < i + rounds
        → candidate_at F m cumulative j ≡ some c
        → lt c.score b.score ≡ false

  candidate_at-index :
      (i : ℕ) (c : Candidate Num) → candidate_at F m cumulative i ≡ some c → c.segment_index ≡ i
  unfolding candidate_at
  candidate_at-index i c e = ground arith

  best_of-IsScan :
      (best : Option (Candidate Num)) (i rounds : ℕ) (b : Candidate Num)
      → best_of F best (candidates F m cumulative i rounds) ≡ some b
      → IsScan best i rounds b
  best_of-IsScan best i zero b e =
      let same : best ≡ some b = unfold best_of candidates in ground arith in
      record {
        from = inl same;
        below = λ x o e' h. ground arith;
        least = λ j c p q r. absurd (omega arith);
      }
  best_of-IsScan best i (suc rounds) b e = elim (Option-cases (candidate_at F m cumulative i)) [
    | inl q ↦
        let eq : candidates F m cumulative i (suc rounds)
            ≡ candidates F m cumulative (suc i) rounds =
          unfold candidates in ground arith in
        let ih = best_of-IsScan best (suc i) rounds b (rw (← eq) e) in
        record {
          from = grind (arith, ih.from);
          below = ih.below;
          least = λ j c p r s. elim (Bool-cases (i == j)) [
            | inl t ↦ absurd (grind (arith, q, s, t))
            | inr t ↦ ih.least j c (ground arith) (omega arith) s
          ];
        }
    | inr (c, q) ↦
        let eq : candidates F m cumulative i (suc rounds)
            ≡ c ∷ candidates F m cumulative (suc i) rounds =
          unfold candidates in ground arith in
        let step : best_of F best (c ∷ candidates F m cumulative (suc i) rounds)
            ≡ best_of F (some (better F best c)) (candidates F m cumulative (suc i) rounds) =
          unfold best_of in refl in
        let ih =
          best_of-IsScan (some (better F best c)) (suc i) rounds b (sym step ∙ (rw (← eq) e)) in
        record {
          from = elim ih.from [
            | inl t ↦ elim (better-from best c) [
              | inl u ↦
                  let here = candidate_at-index i c q in
                  inr (
                    grind (arith, t, u, here),
                    grind (arith, t, u, here),
                    grind (arith, q, t, u, here),
                  )
              | inr u ↦ inl (u ∙ t)
            ]
            | inr (after, before, found) ↦ inr (omega arith, omega arith, found)
          ];
          below = λ x o e' h. ih.below x (better F best c) refl (better-lt x best c o e' h);
          least = λ j c' p r s. elim (Bool-cases (i == j)) [
            | inl t ↦
                ih.below c'.score (better F best c) refl (grind (arith, q, s, t, better-own best c))
            | inr t ↦ ih.least j c' (ground arith) (omega arith) s
          ];
        }
  ]

-- The segments that `match_route_position` looks at.
abbrev pub window_of : (F : Float) → MatchInput F.Num → ℕ × ℕ
window_of F m = search_window F m (cumulative_distances F m.path)

-- A segment of the window that the bus may have reached, with its score.
abbrev pub eligible : (F : Float) → MatchInput F.Num → ℕ → Option (Candidate F.Num)
eligible F m i = candidate_at F m (cumulative_distances F m.path) i

module _ (F : Float) (m : MatchInput F.Num) where
  search_window-to :
      (cumulative : List F.Num) → (search_window F m cumulative).1 ≤ length m.path - 1
  unfolding search_window
  search_window-to cumulative = ground arith

  -- Over numbers whose < is irreflexive and transitive, a match lies on a segment of the path, in
  -- the window and within reach of the previous match, and no segment in the window and within
  -- reach has a lower score.
  pub match_route_position-least :
      ((x : F.Num) → F.lt x x ≡ false)
      → ((x y z : F.Num) → F.lt x y ≡ true → F.lt y z ≡ true → F.lt x z ≡ true)
      → (r : RouteMatch F.Num) → match_route_position F m ≡ some r
      → (r.segment_index + 1 < length m.path)
        × ((window_of F m).0 ≤ r.segment_index)
        × (r.segment_index < (window_of F m).1)
        × (b : Candidate F.Num) × (eligible F m r.segment_index ≡ some b)
        × (r.along_route_distance_m ≡ b.along_route_distance_m)
        × ((j : ℕ) (c : Candidate F.Num)
            → (window_of F m).0 ≤ j
            → j < (window_of F m).1
            → eligible F m j ≡ some c
            → F.lt c.score b.score ≡ false)
  match_route_position-least irrefl trans r e =
      let cumulative = cumulative_distances F m.path in
      let w = search_window F m cumulative in
      let cs = candidates F m cumulative w.0 (w.1 - w.0) in
      elim (Option-cases (best_of F none cs)) [
        | inl q ↦ absurd (unfold match_route_position in ground arith)
        | inr (b, q) ↦
            let is : matched F m cumulative cs b ≡ r =
              unfold match_route_position in ground arith in
            let scan = best_of-IsScan F m cumulative irrefl trans none w.0 (w.1 - w.0) b q in
            let index : r.segment_index ≡ b.segment_index = unfold matched in ground (arith, is) in
            let along : r.along_route_distance_m ≡ b.along_route_distance_m =
              unfold matched in ground (arith, is) in
            let last = search_window-to cumulative in
            elim scan.from [
              | inl t ↦ absurd (ground (arith, t))
              | inr (after, before, found) ↦ (
                omega (arith, index, last),
                omega (arith, index),
                omega (arith, index),
                b,
                rw (index) found,
                along,
                λ j c p s f. scan.least j c p (omega arith) f,
              )
            ]
      ]
