-- ===== src/Flight/Bounds.antt =====
-- The bounds of the fills and their callers (backend/src/lib/boundedSingleFlight.ts).
use eki.Flight.Operations.{
  invalidate_flights-IsBounded, leave-IsBounded, leave-options, finish-options,
  run_flight-IsBounded, run_flight-options, with_caller, create_flights-IsBounded,
}
use eki.Flight.Invariant.{count-move, count-IsBounded, finish-IsBounded, IsBounded}
use eki.Flight.Defs.{
  invalidate_flights, create_flights, FlightBudgets, run_flight, leave, finish, Flight, Flights,
  object,
}
use mathlib.Core.Path.{◌∙◌}
use eki.Prelude.{◌++◌, Option, ℕ, List, none, some, [], ◌∷◌, ◌≡◌}

-- The flights and the callers that wait for them.
pub record Traffic (K T : Type 0) : Type 0 where
  pub flights : Flights K T
  pub callers : List ℕ

-- The runs, ends of works, ends of waits and invalidations, in any order.
pub data Reach {K T : Type 0} (dec : Discrete K) (options : FlightBudgets)
    : Traffic K T → Type 0 where
  idle :
      (f : Flights K T)
      → create_flights options ≡ some f
      → Reach dec options (record { flights = f; callers = [] })
  then_run :
      {u : Traffic K T} (k scope : K) (started now : ℕ)
      → Reach dec options u
      → Reach dec options (record {
        flights = (run_flight dec k scope started now u.flights).0;
        callers = with_caller (run_flight dec k scope started now u.flights).1 u.callers;
      })
  then_finish :
      {u : Traffic K T} (i : ℕ) (s : Flight K T) (outcome : Option T)
      → object dec i u.flights ≡ some s
      → s.settled ≡ none
      → Reach dec options u
      → Reach dec options (record u { flights = finish dec i outcome u.flights })
  then_leave :
      {f : Flights K T} (before : List ℕ) (i : ℕ) (after : List ℕ)
      → Reach dec options (record { flights = f; callers = before ++ i ∷ after })
      → Reach dec options (record { flights = leave dec i f; callers = before ++ after })
  then_invalidate :
      {u : Traffic K T} (scope : Option K)
      → Reach dec options u
      → Reach dec options (record u { flights = invalidate_flights dec scope u.flights })

module _ {K T : Type 0} (dec : Discrete K) where
  -- Whatever runs, ends of works, ends of waits and invalidations follow, in whatever order: the flights
  -- of the map are those whose work has not ended, also when no caller waits for them any more, one for a
  -- key and no more than the budget. The waiters of a flight are the callers that wait for it, and no
  -- more than the budget.
  pub Reach-IsBounded :
      (options : FlightBudgets) (u : Traffic K T)
      → Reach dec options u
      → (u.flights.options ≡ options) × IsBounded dec u.flights u.callers
  Reach-IsBounded o _ (idle f e) = create_flights-IsBounded dec o f e
  Reach-IsBounded o _ (then_run {u = u} k scope started now r) =
      let (p, h) = Reach-IsBounded o u r in
      (
        run_flight-options dec k scope started now u.flights ∙ p,
        run_flight-IsBounded dec k scope started now u.flights u.callers h,
      )
  Reach-IsBounded o _ (then_finish {u = u} i s outcome e l r) =
      let (p, h) = Reach-IsBounded o u r in
      (
        finish-options dec i outcome u.flights ∙ p,
        finish-IsBounded dec i outcome s u.flights u.callers h e l,
      )
  Reach-IsBounded o _ (then_leave {f = f} before i after r) =
      let (p, h) = Reach-IsBounded o _ r in
      let same = λ (j : ℕ). count-move i j before after in
      (
        leave-options dec i f ∙ p,
        leave-IsBounded dec i f (before ++ after) (count-IsBounded dec f _ _ same h),
      )
  Reach-IsBounded o _ (then_invalidate {u = u} scope r) =
      let (p, h) = Reach-IsBounded o u r in
      let (q, g) = invalidate_flights-IsBounded dec scope u.flights u.callers h in (q ∙ p, g)
