-- ===== src/Tests/Leadership.antt =====
-- Two processes that compete for the lease, the second 3 seconds ahead of the first.
use eki.Leadership.Exclusive.{Reach-exclusive, IsFresh}
use eki.Prelude.{false, ◌==◌, refl, true, arith, if◌then◌else◌, ◌≡◌, some, none, ℕ}
use eki.Leadership.Defs.{
  assume_office, answer, tick, idle, commit, start, here, next, committed, Worker, update, Acquired,
  Lease, Reach, step_worker, commit_renew, start_renew, acquire, take_office, grant, leads,
  remaining_ms, respond, System,
}

program : Unit {0}
unfolding start_renew acquire commit_renew remaining_ms grant respond take_office leads
program = tt

abbrev started_worker : ℕ → Worker
started_worker i = record {
  offset = if i == 0 then 0 else 3_000;
  stopped = false;
  fence = none;
  transition = 0;
  renewal = idle;
}

abbrev unowned : System
unowned = record {
  time = 100_000;
  lease = record { owner_id = none; generation = 4; expires_at = 0 };
  workers = started_worker;
}

abbrev taken_lease : Lease
taken_lease = record { owner_id = some 0; generation = 5; expires_at = 145_000 }

abbrev taken : Acquired
taken = record { generation = 5; expires_at = 145_000 }

abbrev asking : System
asking = step_worker unowned 0 (start_renew 100_000 (unowned.workers 0))

abbrev took : System
took = record asking {
  lease = taken_lease;
  workers =
      update asking.workers 0
        (record (asking.workers 0) { renewal = committed 0 100_000 (some taken) });
}

abbrev later : System
later = record took { time = 100_500 }

abbrev answered : System
answered = step_worker later 0 (respond 100_500 0 100_000 (some taken) (later.workers 0))

abbrev elected : System
elected = step_worker answered 0 (take_office 100_500 0 5 141_000 (answered.workers 0))

elected_leads : leads elected.time (elected.workers 0) ≡ true
unfolding start_renew acquire commit_renew remaining_ms grant respond take_office leads
elected_leads = refl

unowned-IsFresh : (i : ℕ) → IsFresh unowned i
unowned-IsFresh i = record {
  no_fence = refl;
  resting = refl;
  synced = ground arith;
  recent = λ e. ground arith;
}

elected-Reach : Reach unowned elected
unfolding start_renew acquire commit_renew remaining_ms grant respond take_office leads
elected-Reach =
    next
      (next
        (next (next (next here (start 0)) (commit 0 0 100_000 taken_lease _ refl refl))
          (tick 100_500 (ground arith)))
        (answer 0 0 100_000 (some taken) refl))
      (assume_office 0 0 5 141_000 refl)

Reach-exclusive_example : ◌≡◌ {A = ℕ} 0 0
Reach-exclusive_example =
    Reach-exclusive unowned elected unowned-IsFresh elected-Reach 0 0 elected_leads elected_leads
