-- ===== src/Matching/Missing.antt =====
-- When `matchRoutePosition` of backend/src/services/routeMatching.ts finds no match.
use eki.Matching.Segments.{cumulative_distances}
use eki.Matching.Best.{eligible, window_of}
use eki.Geo.{Float}
use eki.Matching.Search.{
  search_window, candidate_at, better, match_route_position, Candidate, MatchInput, candidates,
  best_of,
}
use eki.Prelude.{
  lt→ltb, List-cases, ltb→lt, ltb, ◌-◌, ◌==◌, Bool-cases, inl, inr, ◌⊎◌, refl, Option-cases, length,
  ◌↔◌, ◌+◌, arith, ◌≢◌, ◌<◌, none, ◌≤◌, some, ◌≡◌, List, ◌∷◌, [], ℕ, zero, suc,
}

module _ (F : Float) (m : MatchInput F.Num) where
  best_of-some : (b : Candidate F.Num) (cs : List (Candidate F.Num)) → best_of F (some b) cs ≢ none
  unfolding best_of
  best_of-some b [] e = ground arith
  best_of-some b (c ∷ cs) e = best_of-some (better F (some b) c) cs e

  candidates-nil :
      (cumulative : List F.Num) (i rounds j : ℕ)
      → candidates F m cumulative i rounds ≡ []
      → i ≤ j
      → j < i + rounds
      → candidate_at F m cumulative j ≡ none
  unfolding candidates
  candidates-nil cumulative i zero j e p q = absurd (omega arith)
  candidates-nil cumulative i (suc rounds) j e p q =
      elim (Option-cases (candidate_at F m cumulative i)) [
        | inr (c, f) ↦ absurd (ground arith)
        | inl f ↦ elim (Bool-cases (i == j)) [
          | inl t ↦ grind (arith, f, t)
          | inr t ↦
              candidates-nil cumulative (suc i) rounds j (ground arith) (ground arith) (omega arith)
        ]
      ]

  nil-candidates :
      (cumulative : List F.Num) (i rounds : ℕ)
      → ((j : ℕ) → i ≤ j → j < i + rounds → candidate_at F m cumulative j ≡ none)
      → candidates F m cumulative i rounds ≡ []
  unfolding candidates
  nil-candidates cumulative i zero h = refl
  nil-candidates cumulative i (suc rounds) h =
      let first = h i (omega arith) (omega arith) in
      let rest =
        nil-candidates cumulative (suc i) rounds (λ j p q. h j (omega arith) (omega arith)) in
      ground (arith, first, rest)

  -- There is no match exactly when the path has fewer than two vertices, or no segment of the
  -- window is within reach of the previous match.
  pub match_route_position-none_iff : (match_route_position F m ≡ none) ↔ (
      (length m.path < 2)
      ⊎ ((i : ℕ) → (window_of F m).0 ≤ i → i < (window_of F m).1 → eligible F m i ≡ none))
  match_route_position-none_iff =
      let cumulative = cumulative_distances F m.path in
      let w = search_window F m cumulative in
      let cs = candidates F m cumulative w.0 (w.1 - w.0) in
      (
        λ e. elim (Bool-cases (ltb (length m.path) 2)) [
          | inl q ↦ inl (ltb→lt (length m.path) 2 q)
          | inr q ↦ elim (List-cases cs) [
            | inl t ↦ inr (λ i p s. candidates-nil cumulative w.0 (w.1 - w.0) i t p (omega arith))
            | inr (c, more, t) ↦
                let start : best_of F none cs ≡ best_of F (some c) more =
                  unfold best_of better in ground (arith, t) in
                elim (Option-cases (best_of F (some c) more)) [
                  | inl u ↦ absurd (best_of-some c more u)
                  | inr (b, u) ↦ absurd (unfold match_route_position in ground (arith, start, u))
                ]
          ]
        ],
        λ h. elim h [
          | inl q ↦ unfold match_route_position in ground (arith, lt→ltb (length m.path) 2 q)
          | inr h' ↦
              let t : cs ≡ [] =
                nil-candidates cumulative w.0 (w.1 - w.0) (λ j p s. h' j p (omega arith)) in
              let u : best_of F none cs ≡ none = unfold best_of in ground (arith, t) in
              unfold match_route_position in ground (arith, u)
        ],
      )
