-- ===== src/Flight/Defs.antt =====
-- `createBoundedSingleFlight` of backend/src/lib/boundedSingleFlight.ts. A flight object is named by a
-- number, and lives on while a caller or its work refers to it. Keys and scopes are both the strings
-- `K`. What the event loop runs later are operations of their own: `finish` is the handler at the end
-- of a fill's work, and `leave` the end of a caller's wait. Times are whole milliseconds, and each
-- reading of the clock is an argument.
use eki.Prelude.OrderedMap.{lookup, remove, set}
use eki.Prelude.{
  ℕ_discrete, ℕ, List, Option, Bool, true, false, none, some, [], ◌∷◌, ◌||◌, ◌==◌, ltb, leb, ◌+◌,
  ◌-◌, length, if◌then◌else◌, ite, ◌&&◌,
}

-- The key that the work's last handler refers to is a field here.
pub record Flight (K T : Type 0) : Type 0 where
  pub key : K
  pub scope : K
  pub current : Bool
  pub started_at : ℕ
  pub waiters : ℕ
  -- How the promise settled, with `none` inside for a rejection.
  pub settled : Option (Option T)

pub record FlightBudgets : Type 0 where
  pub max_fills : ℕ
  pub max_waiters_per_fill : ℕ
  pub response_ms : ℕ

pub record Flights (K T : Type 0) : Type 0 where
  pub options : FlightBudgets
  pub flights : List (K × ℕ)
  -- The flight objects, and the name of the next one.
  pub objects : List (ℕ × Flight K T)
  pub next_flight : ℕ

-- The start of `run`: an error, or the wait for a flight, at most for a time.
pub data Admission : Type 0 where
  capacity_error deadline_error : Admission
  waiting : ℕ → ℕ → Admission

-- What the caller of `run` gets.
pub data Response (T : Type 0) : Type 0 where
  late rejected : Response T
  value : T → Response T

-- `none` where the budgets are refused. A budget that is no safe integer has no counterpart.
unfoldable pub create_flights : {K T : Type 0} → FlightBudgets → Option (Flights K T)
create_flights o =
    if o.max_fills == 0 || (o.max_waiters_per_fill == 0 || o.response_ms == 0)
    then none
    else some (record { options = o; flights = []; objects = []; next_flight = 0 })

abbrev pub new_flight : {K T : Type 0} → K → K → ℕ → Flight K T
new_flight k scope now = record {
  key = k;
  scope = scope;
  current = true;
  started_at = now;
  waiters = 0;
  settled = none;
}

module _ {K T : Type 0} (dec : Discrete K) where
  abbrev pub object : ℕ → Flights K T → Option (Flight K T)
  object i f = lookup ℕ_discrete i f.objects

  abbrev pub store : ℕ → Flight K T → Flights K T → Flights K T
  store i s f = record f { objects = set ℕ_discrete i s f.objects }

  -- `scope === undefined || flight.scope === scope`.
  abbrev pub in_scope : Option K → Flight K T → Bool
  in_scope none s = true
  in_scope (some k) s = ite (dec s.scope k) true false

  -- The loop over the flights of the map.
  unfoldable pub fence : Option K → List (K × ℕ) → Flights K T → Flights K T
  fence scope [] f = f
  fence scope ((_, i) ∷ m) f =
      let rest = fence scope m in
      elim (object i f) [
        | none ↦ rest f
        | some s ↦ rest (if in_scope scope s then store i (record s { current = false }) f else f)
      ]

  unfoldable pub invalidate_flights : Option K → Flights K T → Flights K T
  invalidate_flights scope f = fence scope f.flights f

  unfoldable pub waiting_on : List (K × ℕ) → Flights K T → ℕ
  waiting_on [] f = 0
  waiting_on ((_, i) ∷ m) f = elim (object i f) [ none ↦ 0 | some s ↦ s.waiters ] + waiting_on m f

  unfoldable pub snapshot_flights : Flights K T → ℕ × ℕ
  snapshot_flights f = (length f.flights, waiting_on f.flights f)

  -- A new flight for a key without one, if there is room.
  unfoldable pub take_off : K → K → ℕ → Flights K T → Option (Flights K T × ℕ)
  take_off k scope now f = elim (lookup dec k f.flights) [
    | some i ↦ some (f, i)
    | none ↦
        if leb f.options.max_fills (length f.flights)
        then none
        else some (
          record f {
            flights = set dec k f.next_flight f.flights;
            objects = set ℕ_discrete f.next_flight (new_flight k scope now) f.objects;
            next_flight = f.next_flight + 1;
          },
          f.next_flight,
        )
  ]

  -- The guards before the wait, and the count of the waiter.
  unfoldable pub board : ℕ → ℕ → Flights K T → Flights K T × Admission
  board i now f = elim (object i f) [
    | none ↦ (f, capacity_error)
    | some s ↦
        let remaining = (f.options.response_ms + s.started_at) - now in
        if leb f.options.max_waiters_per_fill s.waiters
        then (f, capacity_error)
        else if remaining == 0
        then (f, deadline_error)
        else (store i (record s { waiters = s.waiters + 1 }) f, waiting i remaining)
  ]

  -- `run` up to its first `await`. The clock is read at a new flight and again before the wait.
  unfoldable pub run_flight : K → K → ℕ → ℕ → Flights K T → Flights K T × Admission
  unfolding take_off board
  run_flight k scope started now f = elim (take_off k scope started f) [
    | none ↦ (f, capacity_error)
    | some (g, i) ↦ board i now g
  ]

  -- `isCurrent`, the argument of the work of a flight.
  unfoldable pub is_current : ℕ → ℕ → Flights K T → Bool
  is_current i now f = elim (object i f) [
    | none ↦ false
    | some s ↦ s.current && ltb now (f.options.response_ms + s.started_at)
  ]

  -- The end of the work: the flight leaves the map if the key is still its own, and its promise
  -- settles.
  unfoldable pub finish : ℕ → Option T → Flights K T → Flights K T
  finish i outcome f = elim (object i f) [
    | none ↦ f
    | some s ↦
        let g = store i (record s { settled = some outcome }) f in
        elim (lookup dec s.key f.flights) [
          | none ↦ g
          | some j ↦ if j == i then record g { flights = remove dec s.key f.flights } else g
        ]
  ]

  -- The end of a wait that was admitted, by the promise, by the timer or late.
  unfoldable pub leave : ℕ → Flights K T → Flights K T
  leave i f = elim (object i f) [
    | none ↦ f
    | some s ↦ store i (record s { waiters = s.waiters - 1 }) f
  ]

  -- What a wait ends with: the timer's error, or the promise's outcome unless the time is over.
  -- `none` while it goes on.
  unfoldable pub response : Bool → ℕ → ℕ → Flights K T → Option (Response T)
  response timed_out i now f = elim (object i f) [
    | none ↦ none
    | some s ↦ if timed_out then some late else elim s.settled [
      | none ↦ none
      | some none ↦ some rejected
      | some (some v) ↦
          some (if leb (f.options.response_ms + s.started_at) now then late else value v)
    ]
  ]
