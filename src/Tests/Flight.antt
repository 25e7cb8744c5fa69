-- ===== src/Tests/Flight.antt =====
-- Two callers for one key and one for another, a late caller, and the end of the work.
use eki.Flight.Bounds.{Reach, Reach-IsBounded, idle, then_run}
use eki.Flight.Invariant.{IsBounded}
use eki.Flight.Defs.{
  Flights, FlightBudgets, capacity_error, deadline_error, waiting, create_flights, run_flight,
  take_off, board, leave, finish, snapshot_flights, waiting_on, value, response,
}
use eki.Prelude.{ℕ, [], ◌∷◌, ◌≡◌, refl, some, ℕ_discrete, false}
use eki.Prelude.OrderedMap.{lookup, set, remove}

abbrev budgets : FlightBudgets
budgets = record { max_fills = 1; max_waiters_per_fill = 2; response_ms = 100 }

abbrev no_flights : Flights ℕ ℕ
no_flights = record { options = budgets; flights = []; objects = []; next_flight = 0 }

abbrev one_flight : Flights ℕ ℕ
one_flight = (run_flight ℕ_discrete 5 7 10 10 no_flights).0

abbrev two_callers : Flights ℕ ℕ
two_callers = (run_flight ℕ_discrete 5 7 20 20 one_flight).0

abbrev timed_out : Flights ℕ ℕ
timed_out = leave ℕ_discrete 0 (leave ℕ_discrete 0 two_callers)

-- The second key finds no room, nor does a third caller; a late caller is refused; the slot of the
-- late work is occupied until it ends.
no_room : (run_flight ℕ_discrete 6 7 20 20 two_callers).1 ≡ capacity_error
unfolding run_flight take_off board lookup set ℕ_discrete
no_room = refl

third_caller : (run_flight ℕ_discrete 5 7 20 20 two_callers).1 ≡ capacity_error
unfolding run_flight take_off board lookup set ℕ_discrete
third_caller = refl

waits : (run_flight ℕ_discrete 5 7 20 20 one_flight).1 ≡ waiting 0 90
unfolding run_flight take_off board lookup set ℕ_discrete
waits = refl

late_caller : (run_flight ℕ_discrete 5 7 110 110 timed_out).1 ≡ deadline_error
unfolding run_flight take_off board leave lookup set ℕ_discrete
late_caller = refl

still_occupied : snapshot_flights ℕ_discrete timed_out ≡ (1, 0)
unfolding run_flight take_off board leave snapshot_flights waiting_on lookup set ℕ_discrete
still_occupied = refl

freed : snapshot_flights ℕ_discrete (finish ℕ_discrete 0 (some 3) timed_out) ≡ (0, 0)
unfolding run_flight take_off board leave finish snapshot_flights waiting_on lookup set remove
    ℕ_discrete
freed = refl

answered_in_time :
    response ℕ_discrete false 0 50 (finish ℕ_discrete 0 (some 3) two_callers) ≡ some (value 3)
unfolding run_flight take_off board finish response lookup set remove ℕ_discrete
answered_in_time = refl

two_callers-Reach :
    Reach ℕ_discrete budgets (record { flights = two_callers; callers = 0 ∷ 0 ∷ [] })
unfolding run_flight take_off board lookup set create_flights ℕ_discrete
two_callers-Reach = then_run 5 7 20 20 (then_run 5 7 10 10 (idle no_flights refl))

Reach-IsBounded_example :
    (two_callers.options ≡ budgets) × IsBounded ℕ_discrete two_callers (0 ∷ 0 ∷ [])
Reach-IsBounded_example =
    Reach-IsBounded ℕ_discrete budgets (record { flights = two_callers; callers = 0 ∷ 0 ∷ [] })
      two_callers-Reach
