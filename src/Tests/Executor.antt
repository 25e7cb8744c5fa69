-- ===== src/Tests/Executor.antt =====
-- An executor for two concurrent tasks, and one waiting task in all.
use eki.Prelude.OrderedMap.{remove, set, lookup, total}
use eki.Executor.Sound.{busy, queued, IsSound}
use eki.Executor.Queues.{run-line, complete-line, line}
use eki.Executor.Admission.{run-refused_iff, new_task, ran, here, Reach-IsSound, next, Reach}
use eki.Executor.Defs.{
  active_of, pending_of, refresh_pending, renew, begin, expire, Executor, expire_found,
  ExecutionBudgets, complete, pump_keys, has_key, take_out, dispatch, can_run, pump, mark_ready,
  enqueue, create, drop_key, run,
}
use eki.Prelude.{
  ◌≢◌, refl, ◌⊎◌, length, ◌≤◌, ◌++◌, ◌∷◌, if◌then◌else◌, ◌↔◌, false, some, ite, none, [],
  ℕ_discrete, ◌≡◌, ℕ,
}

program : Unit {0}
unfolding create take_out has_key drop_key can_run mark_ready dispatch pump_keys pump enqueue run
    expire_found expire complete begin renew refresh_pending lookup set remove ℕ_discrete
program = tt

abbrev narrow : ExecutionBudgets
narrow = record {
  max_concurrent = some 2;
  max_pending = some 1;
  max_pending_per_key = some 1;
  max_queue_age_ms = none;
}

abbrev fresh : Executor ℕ
fresh = record {
  budgets = record {
    max_concurrent = 2;
    max_pending = 1;
    max_pending_per_key = 1;
    max_queue_age_ms = 5_000;
  };
  states = [];
  ready = [];
  ready_set = [];
  active = 0;
  waiting = 0;
  rejected = 0;
  expired = 0;
  peak_pending = 0;
  next_promise = 0;
}

created : create {K = ℕ} narrow ≡ some fresh
unfolding program
created = refl

abbrev once : Executor ℕ
once = (run ℕ_discrete 7 0 fresh).0

abbrev twice : Executor ℕ
twice = (run ℕ_discrete 7 10 once).0

-- A second task of the same key waits, a third is refused, and another key starts.
admits :
    ((run ℕ_discrete 7 10 once).1 ≡ some 1)
    × (twice.waiting ≡ 1)
    × (twice.active ≡ 1)
    × ((run ℕ_discrete 7 10 twice).1 ≡ none)
    × ((run ℕ_discrete 8 10 twice).0.active ≡ 2)
unfolding program
admits = (refl, refl, refl, refl, refl)

-- The waiting task starts when the first settles, and is too old after five seconds.
turns :
    ((complete ℕ_discrete 7 twice).active ≡ 1)
    × ((complete ℕ_discrete 7 twice).waiting ≡ 0)
    × ((begin ℕ_discrete 7 5_010 (complete ℕ_discrete 7 twice)).1 ≡ false)
unfolding program
turns = (refl, refl, refl)

twice_reached : Reach ℕ_discrete fresh twice
twice_reached = next (next here (ran 7 0)) (ran 7 10)

Reach-IsSound_example : IsSound ℕ_discrete twice
Reach-IsSound_example = Reach-IsSound ℕ_discrete narrow created twice_reached

run-line_example :
    line ℕ_discrete 7 (run ℕ_discrete 7 10 once).0
    ≡ ite
        (ℕ_discrete 7 7)
        (if can_run ℕ_discrete 7 once
          then line ℕ_discrete 7 once ++ new_task ℕ_discrete 10 once ∷ []
          else line ℕ_discrete 7 once)
        (line ℕ_discrete 7 once)
run-line_example =
    run-line ℕ_discrete 7 7 10 once (Reach-IsSound ℕ_discrete narrow created (next here (ran 7 0)))

complete-line_example :
    line ℕ_discrete 7 twice
    ≡ ite
        (ℕ_discrete 7 7)
        (record { promise = 0; enqueued_at = 0 } ∷ line ℕ_discrete 7 (complete ℕ_discrete 7 twice))
        (line ℕ_discrete 7 (complete ℕ_discrete 7 twice))
unfolding program
complete-line_example =
    complete-line ℕ_discrete 7 7 twice (record { promise = 0; enqueued_at = 0 })
      Reach-IsSound_example refl

run-refused_iff_example : ((run ℕ_discrete 7 10 twice).1 ≡ none) ↔ (
    (1 ≤ length (pending_of ℕ_discrete (lookup ℕ_discrete 7 twice.states)))
    ⊎ ((1 ≤ total ℕ_discrete queued twice.states)
        × ((active_of ℕ_discrete (lookup ℕ_discrete 7 twice.states) ≢ none)
            ⊎ (2 ≤ total ℕ_discrete busy twice.states))))
unfolding program
run-refused_iff_example = run-refused_iff ℕ_discrete 7 10 twice Reach-IsSound_example
