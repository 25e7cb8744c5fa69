-- ===== src/Rides/History.antt =====
-- `missingStopHistory` of backend/src/services/rideProgressHistory.ts: the stops that a ride has
-- passed and that its session does not list yet. A stop is any type; an index that is no integer is
-- left out before.
use eki.Prelude.{
  ==_iff, lt→ltb, inr, inl, Bool-cases, ◌+◌, refl, arith, ◌≢◌, ◌<◌, not, ℕ, suc, List, [], ◌∷◌,
  ◌++◌, Option, Bool, true, false, if◌then◌else◌, ltb, leb, length, any, ◌==◌, ◌-◌, holds, ◌||◌,
  ◌≡◌, ◌≤◌,
}
use eki.Trip.Types.{completed, pre_departure, in_service, TripState}

pub data StopEvidence : Type 0 where
  skipped_gnss_gap passed_unobserved recovered_checkpoint gnss_progress : StopEvidence

pub record StopReached (S N : Type 0) : Type 0 where
  pub stop_index : ℕ
  pub stop : S
  pub timestamp : N
  pub evidence : StopEvidence

-- Whether an index has an entry, and whether it is in a list of indices.
unfoldable pub is_recorded : {A : Type 0} → ℕ → List (ℕ × A) → Bool
is_recorded i [] = false
is_recorded i ((j, a) ∷ m) = let rest = is_recorded i m in (j == i) || rest

abbrev pub includes : List ℕ → ℕ → Bool
includes js i = any (λ j. j == i) js

-- The evidence of one stop: `previous` is the index before, if it is a number.
unfoldable pub stop_evidence : Option ℕ → List ℕ → List ℕ → ℕ → StopEvidence
stop_evidence previous skipped unobserved i =
    if includes skipped i
    then skipped_gnss_gap
    else if includes unobserved i
    then passed_unobserved
    else if holds (ltb i) previous
    then recovered_checkpoint
    else gnss_progress

module _ {S N A : Type 0} (existing : List (ℕ × A)) (observed : N)
    (evidence : ℕ → StopEvidence) where
  -- The loop, from one index to the last reached, over the stops from this index on.
  unfoldable pub missing_from : ℕ → ℕ → List S → List (ℕ × StopReached S N)
  missing_from i last [] = []
  missing_from i last (s ∷ ss) =
      let rest = missing_from (suc i) last ss in
      if not (leb i last) || is_recorded i existing
      then rest
      else (i, record { stop_index = i; stop = s; timestamp = observed; evidence = evidence i })
        ∷ rest

-- The last index that was reached: the terminal stop of a completed trip, or the one before the next.
abbrev pub last_reached : TripState → ℕ → ℕ
last_reached in_service i = i - 1
last_reached _ i = i

unfoldable pub missing_stop_history :
    {S N A : Type 0}
    → List S
    → TripState
    → ℕ
    → List (ℕ × A)
    → N
    → Option ℕ
    → List ℕ
    → List ℕ
    → List (ℕ × StopReached S N)
missing_stop_history stops pre_departure i existing observed previous skipped unobserved = []
missing_stop_history stops trip i existing observed previous skipped unobserved =
    if ltb i (length stops)
    then missing_from existing observed (stop_evidence previous skipped unobserved) 0
        (last_reached trip i) stops
    else []

is_recorded-append :
    {A : Type 0} (i : ℕ) (m n : List (ℕ × A))
    → is_recorded i (m ++ n) ≡ (is_recorded i m || is_recorded i n)
unfolding is_recorded
is_recorded-append i [] n = refl
is_recorded-append i ((j, a) ∷ m) n = let ih = is_recorded-append i m n in ground (arith, ih)

missing_from-recorded :
    {S N A : Type 0} (existing : List (ℕ × A)) (observed : N) (evidence : ℕ → StopEvidence)
    (k i last : ℕ) (ss : List S)
    → i ≤ k
    → k ≤ last
    → k < i + length ss
    → is_recorded k existing ≡ false
    → is_recorded k (missing_from existing observed evidence i last ss) ≡ true
unfolding missing_from is_recorded
missing_from-recorded existing observed evidence k i last [] h1 h2 h3 h4 =
    absurd (omega (arith, h1, h3))
missing_from-recorded existing observed evidence k i last (s ∷ ss) h1 h2 h3 h4 =
    elim (Bool-cases (i == k)) [
      | inl e ↦
          let same : i ≡ k = (==_iff i k).0 e in
          let fresh : is_recorded i existing ≡ false = rw (same) h4 in
          ground (arith, e, fresh, same, h2)
      | inr e ↦
          let ih =
            missing_from-recorded existing observed evidence k (suc i) last ss
              (ground (arith, e, h1)) h2 (ground (arith, h3)) h4 in
          ground (arith, ih, e)
    ]

both_recorded :
    {S N : Type 0} (stops : List S) (last k : ℕ) (existing : List (ℕ × StopReached S N))
    (observed : N) (evidence : ℕ → StopEvidence)
    → last < length stops
    → k ≤ last
    → is_recorded k (existing ++ missing_from existing observed evidence 0 last stops) ≡ true
both_recorded stops last k existing observed evidence h1 h2 =
    let split =
      is_recorded-append k existing (missing_from existing observed evidence 0 last stops) in
    elim (Bool-cases (is_recorded k existing)) [
      | inl e ↦ ground (arith, split, e)
      | inr e ↦
          let added =
            missing_from-recorded existing observed evidence k 0 last stops (omega arith) h2
              (omega (arith, h1, h2)) e in
          ground (arith, split, e, added)
    ]

-- After the additions, every stop up to the last reached one has an entry, old or new.
pub missing_stop_history-recorded :
    {S N : Type 0} (stops : List S) (trip : TripState) (i k : ℕ)
    (existing : List (ℕ × StopReached S N)) (observed : N) (previous : Option ℕ)
    (skipped unobserved : List ℕ)
    → trip ≢ pre_departure
    → i < length stops
    → k ≤ last_reached trip i
    → is_recorded k (
        existing ++ missing_stop_history stops trip i existing observed previous skipped unobserved)
      ≡ true
unfolding missing_stop_history
missing_stop_history-recorded stops pre_departure i k existing observed previous skipped unobserved
      h1 h2 h3 =
    absurd (h1 refl)
missing_stop_history-recorded stops in_service i k existing observed previous skipped unobserved h1
      h2 h3 =
    rw (lt→ltb i (length stops) h2) (
      both_recorded stops (i - 1) k existing observed (stop_evidence previous skipped unobserved)
        (omega (arith, h2)) h3)
missing_stop_history-recorded stops completed i k existing observed previous skipped unobserved h1
      h2 h3 =
    rw (lt→ltb i (length stops) h2)
      (both_recorded stops i k existing observed (stop_evidence previous skipped unobserved) h2 h3)
