-- ===== src/Matching/Bisection.antt =====
-- `distanceBound` of backend/src/services/routeMatching.ts: a binary search in the distances of a
-- path's vertices. Each round of the loop at least halves the interval, so that as many rounds as
-- there are values are enough.
use eki.Matching.Segments.{value_at}
use eki.Geo.{Float}
use eki.Prelude.{
  leb, inl, inr, Bool-cases, false, ltb, arith, ◌&&◌, if◌then◌else◌, true, ◌/◌, ◌||◌, ◌≡◌, ◌<◌, ◌-◌,
  length, List, ◌+◌, ◌≤◌, Bool, ℕ, zero, suc,
}

-- The loop, on a test of the value at an index.
unfoldable pub bisect : ℕ → (ℕ → Bool) → ℕ → ℕ → ℕ
bisect zero before low high = low
bisect (suc rounds) before low high =
    let middle = low + (high - low) / 2 in
    let above = bisect rounds before (middle + 1) high in
    let below = bisect rounds before low middle in
    if ltb low high then (if before middle then above else below) else low

-- Where the search ends: the values up to there pass the test, and those from there on do not.
pub record IsSplit (before : ℕ → Bool) (low high r : ℕ) : Type 0 where
  pub from : low ≤ r
  pub to : r ≤ high
  pub passed : (i : ℕ) → low ≤ i → i < r → before i ≡ true
  pub rest : (i : ℕ) → r ≤ i → i < high → before i ≡ false

bisect-IsSplit :
    (rounds : ℕ) (before : ℕ → Bool) (low high : ℕ)
    → low ≤ high
    → high ≤ low + rounds
    → ((i j : ℕ) → i ≤ j → j < high → before j ≡ true → before i ≡ true)
    → IsSplit before low high (bisect rounds before low high)
bisect-IsSplit zero before low high b e m =
    unfold bisect in
    record {
      from = omega arith;
      to = omega arith;
      passed = λ i p q. absurd (omega arith);
      rest = λ i p q. absurd (omega arith);
    }
bisect-IsSplit (suc rounds) before low high b e m = elim (Bool-cases (ltb low high)) [
  | inr done ↦
      let eq : bisect (suc rounds) before low high ≡ low = unfold bisect in ground arith in
      let same : high ≤ low = ground arith in
      rw (eq) (record {
        from = omega arith;
        to = omega arith;
        passed = λ i p q. absurd (omega arith);
        rest = λ i p q. absurd (omega arith);
      })
  | inl more ↦
      let middle = low + (high - low) / 2 in
      let inside : low < high = ground arith in
      elim (Bool-cases (before middle)) [
        | inl q ↦
            let eq : bisect (suc rounds) before low high ≡ bisect rounds before (middle + 1) high =
              unfold bisect in ground arith in
            let ih = bisect-IsSplit rounds before (middle + 1) high (omega arith) (omega arith) m in
            rw (eq) (record {
              from = omega (arith, ih.from);
              to = ih.to;
              passed = λ i p r. elim (Bool-cases (leb i middle)) [
                | inl s ↦ m i middle (ground arith) (omega arith) q
                | inr s ↦ ih.passed i (ground arith) r
              ];
              rest = ih.rest;
            })
        | inr q ↦
            let eq : bisect (suc rounds) before low high ≡ bisect rounds before low middle =
              unfold bisect in ground arith in
            let ih =
              bisect-IsSplit rounds before low middle (omega arith) (omega arith)
                (λ i j p r. m i j p (omega arith)) in
            rw (eq) (record {
              from = ih.from;
              to = omega (arith, ih.to);
              passed = ih.passed;
              rest = λ i p r. elim (Bool-cases (ltb i middle)) [
                | inl s ↦ ih.rest i p (ground arith)
                | inr s ↦ elim (Bool-cases (before i)) [
                  | inl t ↦ absurd (ground (arith, m middle i (ground arith) r t))
                  | inr t ↦ t
                ]
              ];
            })
      ]
]

module _ (F : Float) where
  open F use {Num, lt, num_eq}

  abbrev pub is_before : List Num → Num → Bool → ℕ → Bool
  is_before values bound upper i =
      lt (value_at F values i) bound || (upper && num_eq (value_at F values i) bound)

  unfoldable pub distance_bound : List Num → Num → Bool → ℕ
  unfolding bisect
  distance_bound values bound upper =
      bisect (length values) (is_before values bound upper) 0 (length values)

  -- For distances that do not decrease, so that a value before the bound has only such values in
  -- front of it, the search ends at the first value that is not before the bound, or at the end.
  pub distance_bound-IsSplit :
      (values : List Num) (bound : Num) (upper : Bool)
      → ((i j : ℕ)
          → i ≤ j
          → j < length values
          → is_before values bound upper j ≡ true
          → is_before values bound upper i ≡ true)
      → IsSplit (is_before values bound upper) 0 (length values) (distance_bound values bound upper)
  unfolding distance_bound
  distance_bound-IsSplit values bound upper m =
      bisect-IsSplit (length values) (is_before values bound upper) 0 (length values) (omega arith)
        (omega arith) m
