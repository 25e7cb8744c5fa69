-- ===== src/Executor/Defs.antt =====
-- `BoundedKeyedExecutor` of backend/src/lib/boundedKeyedExecutor.ts. A method returns the new
-- executor. What the event loop runs later are operations of their own: `expire` is the timer of a
-- pending task, `begin` the first microtask after a dispatch and `complete` the end of its work.
-- A task is named by a number, as its promise is in the source; times are whole milliseconds, and
-- the clock is an argument.
use eki.Prelude.OrderedMap.{remove, set, lookup}
use eki.Prelude.{
  length, ◌||◌, max, ◌&&◌, ◌+◌, leb, is_some, ◌==◌, ltb, ◌-◌, ◌∷◌, not, holds, true, none, some,
  ◌++◌, [], false, Bool, if◌then◌else◌, List, Option, ℕ,
}
use mathlib.Core.Logic.{ite}

pub record Task : Type 0 where
  pub promise : ℕ
  pub enqueued_at : ℕ

pub record KeyState : Type 0 where
  pub active : Option Task
  pub pending : List Task

pub record Budgets : Type 0 where
  pub max_concurrent : ℕ
  pub max_pending : ℕ
  pub max_pending_per_key : ℕ
  pub max_queue_age_ms : ℕ

-- `ExecutionBudgets`: a missing number is the default of the constructor.
pub record ExecutionBudgets : Type 0 where
  pub max_concurrent : Option ℕ
  pub max_pending : Option ℕ
  pub max_pending_per_key : Option ℕ
  pub max_queue_age_ms : Option ℕ

pub record Executor (K : Type 0) : Type 0 where
  pub budgets : Budgets
  pub states : List (K × KeyState)
  pub ready : List K
  pub ready_set : List K
  pub active : ℕ
  pub waiting : ℕ
  pub rejected : ℕ
  pub expired : ℕ
  pub peak_pending : ℕ
  -- The name of the next promise.
  pub next_promise : ℕ

abbrev pub default_to : Option ℕ → ℕ → ℕ
default_to none d = d
default_to (some n) d = n

-- The constructor: `none` where it throws. A count that is no safe integer has no counterpart.
unfoldable pub create : {K : Type 0} → ExecutionBudgets → Option (Executor K)
create o =
    let b : Budgets = record {
      max_concurrent = default_to o.max_concurrent 8;
      max_pending = default_to o.max_pending 256;
      max_pending_per_key = default_to o.max_pending_per_key 32;
      max_queue_age_ms = default_to o.max_queue_age_ms 5_000;
    } in
    if not (ltb 0 b.max_concurrent && ltb 0 b.max_pending_per_key) || b.max_queue_age_ms == 0
    then none
    else some (record {
      budgets = b;
      states = [];
      ready = [];
      ready_set = [];
      active = 0;
      waiting = 0;
      rejected = 0;
      expired = 0;
      peak_pending = 0;
      next_promise = 0;
    })

abbrev pub is_empty {ℓ} : {A : Type ℓ} → List A → Bool
is_empty [] = true
is_empty (_ ∷ _) = false

-- `pending.indexOf(task)` and `pending.splice(index, 1)`: the list without the task, if it is there.
unfoldable pub take_out : ℕ → List Task → Option (List Task)
take_out p [] = none
take_out p (t ∷ ts) =
    let rest = take_out p ts in
    if t.promise == p then some ts else elim rest [ none ↦ none | some ts' ↦ some (t ∷ ts') ]

-- The tasks with the age of one of them renewed.
unfoldable pub renew : ℕ → ℕ → List Task → List Task
renew p now [] = []
renew p now (t ∷ ts) =
    let rest = renew p now ts in
    if t.promise == p then record t { enqueued_at = now } ∷ ts else t ∷ rest

module _ {K : Type 0} (dec : Discrete K) where
  unfoldable pub has_key : K → List K → Bool
  has_key k [] = false
  has_key k (j ∷ js) = ite (dec j k) true (has_key k js)

  -- `readySet.delete(key)`, and `ready.splice(ready.indexOf(key), 1)`.
  unfoldable pub drop_key : K → List K → List K
  drop_key k [] = []
  drop_key k (j ∷ js) = ite (dec j k) js (j ∷ drop_key k js)

  abbrev pub pending_of : Option KeyState → List Task
  pending_of none = []
  pending_of (some s) = s.pending

  abbrev pub active_of : Option KeyState → Option Task
  active_of none = none
  active_of (some s) = s.active

  unfoldable pub can_run : K → Executor K → Bool
  can_run k e =
      let s = lookup dec k e.states in
      let starts_immediately =
        not (is_some (active_of s))
        && (is_empty (pending_of s) && ltb e.active e.budgets.max_concurrent) in
      (starts_immediately || ltb e.waiting e.budgets.max_pending)
      && ltb (length (pending_of s)) e.budgets.max_pending_per_key

  unfoldable pub mark_ready : K → Executor K → Executor K
  mark_ready k e =
      if has_key k e.ready_set
      then e
      else record e { ready_set = e.ready_set ++ k ∷ []; ready = e.ready ++ k ∷ [] }

  -- One round of `pump`, for a key that was taken off `ready`.
  unfoldable pub dispatch : K → Executor K → Executor K
  dispatch k e = elim (lookup dec k e.states) [
    | none ↦ e
    | some s ↦ elim s.active [
      | some _ ↦ e
      | none ↦ elim s.pending [
        | [] ↦ record e { states = remove dec k e.states }
        | t ∷ ts ↦ record e {
          waiting = e.waiting - 1;
          active = e.active + 1;
          states = set dec k (record { active = some t; pending = ts }) e.states;
        }
      ]
    ]
  ]

  -- The loop of `pump`, over the keys of `ready`.
  unfoldable pub pump_keys : List K → Executor K → Executor K
  pump_keys [] e = record e { ready = [] }
  pump_keys (k ∷ ks) e =
      let rest = pump_keys ks (dispatch k (record e { ready_set = drop_key k e.ready_set })) in
      if ltb e.active e.budgets.max_concurrent then rest else record e { ready = k ∷ ks }

  unfoldable pub pump : Executor K → Executor K
  pump e = pump_keys e.ready e

  -- `run` up to its `pump`: the task joins the end of its key's queue.
  unfoldable pub enqueue : K → ℕ → Executor K → Executor K
  enqueue k now e =
      let s = lookup dec k e.states in
      let task : Task = record { promise = e.next_promise; enqueued_at = now } in
      let joined = record e {
        states =
            set dec k (record { active = active_of s; pending = pending_of s ++ task ∷ [] })
              e.states;
        waiting = e.waiting + 1;
        next_promise = e.next_promise + 1;
      } in
      if is_some (active_of s) then joined else mark_ready k joined

  -- `run`: the promise, or `none` where it throws `WorkCapacityError`.
  unfoldable pub run : K → ℕ → Executor K → Executor K × Option ℕ
  run k now e =
      let pumped = pump (enqueue k now e) in
      if can_run k e
      then (
        record pumped { peak_pending = max pumped.peak_pending pumped.waiting },
        some e.next_promise,
      )
      else (record e { rejected = e.rejected + 1 }, none)

  -- What `expire` does with a task that it has found pending.
  unfoldable pub expire_found : K → Option Task → List Task → Executor K → Executor K
  expire_found k active left e =
      let shorter = record e { waiting = e.waiting - 1; expired = e.expired + 1 } in
      if not (is_some active) && is_empty left
      then record shorter {
        states = remove dec k e.states;
        ready_set = drop_key k e.ready_set;
        ready = drop_key k e.ready;
      }
      else record shorter {
        states = set dec k (record { active = active; pending = left }) e.states;
      }

  -- `expire`, the timer of a task; whether its promise is rejected.
  unfoldable pub expire : K → ℕ → Executor K → Executor K × Bool
  expire k p e = elim (lookup dec k e.states) [
    | none ↦ (e, false)
    | some s ↦ elim (take_out p s.pending) [
      | none ↦ (e, false)
      | some left ↦ (expire_found k s.active left e, true)
    ]
  ]

  -- `complete`: the active task of the key has settled.
  unfoldable pub complete : K → Executor K → Executor K
  complete k e = elim (lookup dec k e.states) [
    | none ↦ e
    | some s ↦
        let idle = record e {
          states = set dec k (record s { active = none }) e.states;
          active = e.active - 1;
        } in
        pump (
          if is_empty s.pending
          then record idle { states = remove dec k e.states }
          else mark_ready k idle)
  ]

  -- The first microtask after the dispatch of a key's active task: whether its work starts. A task
  -- that is too old is counted as expired, and settles without running.
  unfoldable pub begin : K → ℕ → Executor K → Executor K × Bool
  begin k now e = elim (active_of (lookup dec k e.states)) [
    | none ↦ (e, false)
    | some t ↦
        if leb (t.enqueued_at + e.budgets.max_queue_age_ms) now
        then (complete k (record e { expired = e.expired + 1 }), false)
        else (e, true)
  ]

  unfoldable pub is_dispatched : K → ℕ → Executor K → Bool
  is_dispatched k p e = holds (λ (t : Task). t.promise == p) (active_of (lookup dec k e.states))

  unfoldable pub refresh_pending : K → ℕ → ℕ → Executor K → Executor K
  refresh_pending k p now e = elim (lookup dec k e.states) [
    | none ↦ e
    | some s ↦ record e {
      states = set dec k (record s { pending = renew p now s.pending }) e.states;
    }
  ]
