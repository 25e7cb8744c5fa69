-- ===== src/Leadership/Defs.antt =====
-- The worker coordinator (backend/src/services/workerCoordinator.ts) and its fence
-- (backend/src/lib/workerFence.ts). Processes are numbered, as their random owner names tell them
-- apart. Time is the true time in whole milliseconds; a process's wall clock is ahead of it by the
-- worker's `offset`, and its monotonic clock runs with it, so that deadlines are true times here.
-- The document store is not under src: a transaction on the lease is one atomic step.
use eki.Prelude.{
  leb, is_some, not, ◌*◌, ltb, ◌&&◌, ◌≡◌, holds, ◌+◌, ◌==◌, ◌-◌, some, ◌||◌, ◌≤◌, none, Bool, min,
  if◌then◌else◌, true, Option, ℕ,
}

abbrev pub lease_duration_ms : ℕ
lease_duration_ms = 45_000

abbrev pub worker_clock_skew_ms : ℕ
worker_clock_skew_ms = 2_000

-- The lease document; what is missing in it reads as no owner, generation 0 or time 0.
pub record Lease : Type 0 where
  pub owner_id : Option ℕ
  pub generation : ℕ
  pub expires_at : ℕ

pub record WorkerFence : Type 0 where
  pub generation : ℕ
  pub deadline : ℕ

-- What a renewal's transaction returns.
pub record Acquired : Type 0 where
  pub generation : ℕ
  pub expires_at : ℕ

-- Where `renew` stands: not running, before its transaction, after it, or waiting for the old work
-- to stop. Each remembers `transition` as it was at the start.
pub data Renewal : Type 0 where
  idle : Renewal
  requested : ℕ → ℕ → Renewal
  committed : ℕ → ℕ → Option Acquired → Renewal
  draining : ℕ → ℕ → ℕ → Renewal

pub record Worker : Type 0 where
  pub offset : ℕ
  pub stopped : Bool
  -- `active` and `fence`, which change together.
  pub fence : Option WorkerFence
  pub transition : ℕ
  pub renewal : Renewal

-- `WorkerFence.assert`: whether the worker may act as the leader. A revoked fence is dropped.
unfoldable pub leads : ℕ → Worker → Bool
leads now w = holds (λ (f : WorkerFence). ltb now f.deadline) w.fence

-- The body of the renewal's transaction, at a wall time.
unfoldable pub acquire : ℕ → ℕ → Lease → Option (Lease × Acquired)
acquire me now lease =
    let mine = holds (λ o. o == me) lease.owner_id in
    let generation =
      if mine && ltb now lease.expires_at then lease.generation else lease.generation + 1 in
    if not mine && ltb now (lease.expires_at + worker_clock_skew_ms)
    then none
    else some (
      record { owner_id = some me; generation = generation; expires_at = now + lease_duration_ms },
      record { generation = generation; expires_at = now + lease_duration_ms },
    )

-- `stopWork`, with `transition += 1` before it.
unfoldable pub stop_work : Worker → Worker
stop_work w = record w { fence = none; transition = w.transition + 1 }

-- `runRenew` and the start of `renew`.
unfoldable pub start_renew : ℕ → Worker → Worker
start_renew time w = elim w.renewal [
  | idle ↦ if w.stopped then w else record w { renewal = requested w.transition time }
  | _ ↦ w
]

-- The transaction of a renewal that was requested.
unfoldable pub commit_renew : ℕ → ℕ → ℕ → ℕ → Lease → Worker → Lease × Worker
commit_renew me time attempt started lease w =
    let denied = record w { renewal = committed attempt started none } in
    if w.stopped || not (attempt == w.transition)
    then (lease, denied)
    else elim (acquire me (time + w.offset) lease) [
      | none ↦ (lease, denied)
      | some (lease', a) ↦ (lease', record w { renewal = committed attempt started (some a) })
    ]

-- The milliseconds for which the response to a renewal still grants the leadership, 0 if none.
unfoldable pub remaining_ms : ℕ → ℕ → ℕ → Acquired → ℕ
remaining_ms time started offset a =
    min (lease_duration_ms - 2 * worker_clock_skew_ms - (time - started))
      (a.expires_at - (time + offset) - worker_clock_skew_ms)

-- The leadership goes on (`WorkerFence.extend`, which throws when the fence has expired), or the
-- work of another generation is stopped before it starts anew.
unfoldable pub grant : ℕ → ℕ → ℕ → ℕ → Worker → Worker
grant time attempt generation deadline w = elim w.fence [
  | none ↦ record w { renewal = draining attempt generation deadline }
  | some f ↦
      if not (f.generation == generation)
      then record w { fence = none; renewal = draining attempt generation deadline }
      else if leb f.deadline time
      then record (stop_work w) { renewal = idle }
      else record w {
        fence = some (record { generation = generation; deadline = deadline });
        renewal = idle;
      }
]

-- `renew` after its transaction has answered.
unfoldable pub respond : ℕ → ℕ → ℕ → Option Acquired → Worker → Worker
respond time attempt started acquired w =
    let finished = record w { renewal = idle } in
    if w.stopped || not (attempt == w.transition) then finished else elim acquired [
      | none ↦ stop_work finished
      | some a ↦
          let remaining = remaining_ms time started w.offset a in
          if remaining == 0
          then stop_work finished
          else grant time attempt a.generation (time + remaining) w
    ]

-- `renew` once the old work has stopped.
unfoldable pub take_office : ℕ → ℕ → ℕ → ℕ → Worker → Worker
take_office time attempt generation deadline w =
    let finished = record w { renewal = idle } in
    if w.stopped || (is_some w.fence || (not (attempt == w.transition) || leb deadline time))
    then finished
    else record finished { fence = some (record { generation = generation; deadline = deadline }) }

-- The renewal threw: the leadership is given up.
unfoldable pub fail_renew : Worker → Worker
unfolding stop_work
fail_renew w = record (stop_work w) { renewal = idle }

-- The function that `startWorkerCoordinator` returns, up to the release of the lease.
unfoldable pub shut_down : Worker → Worker
unfolding stop_work
shut_down w = record (stop_work w) { stopped = true }

-- The transaction that releases the lease; the generation stays.
unfoldable pub release : ℕ → Lease → Lease
release me lease =
    if holds (λ o. o == me) lease.owner_id
    then record lease { owner_id = none; expires_at = 0 }
    else lease

-- The lease check of `workerTransaction`, for a fence and a wall time.
unfoldable pub may_write : ℕ → ℕ → WorkerFence → Lease → Bool
may_write me now f lease =
    holds (λ o. o == me) lease.owner_id
    && (lease.generation == f.generation && ltb (now + worker_clock_skew_ms) lease.expires_at)

pub record System : Type 0 where
  pub time : ℕ
  pub lease : Lease
  pub workers : ℕ → Worker

abbrev pub update : (ℕ → Worker) → ℕ → Worker → ℕ → Worker
update ws i w j = if i == j then w else ws j

abbrev pub step_worker : System → ℕ → Worker → System
step_worker s i w = record s { workers = update s.workers i w }

-- What may happen: time passes, and in any order the processes take the steps of a renewal, lose
-- it, reach their deadline, shut down, and release the lease after a shutdown with no renewal
-- under way.
pub data Step (s : System) : System → Type 0 where
  tick : (t : ℕ) → s.time ≤ t → Step s (record s { time = t })
  start : (i : ℕ) → Step s (step_worker s i (start_renew s.time (s.workers i)))
  commit :
      (i attempt started : ℕ) (lease : Lease) (w : Worker)
      → (s.workers i).renewal ≡ requested attempt started
      → commit_renew i s.time attempt started s.lease (s.workers i) ≡ (lease, w)
      → Step s (record s { lease = lease; workers = update s.workers i w })
  answer :
      (i attempt started : ℕ) (acquired : Option Acquired)
      → (s.workers i).renewal ≡ committed attempt started acquired
      → Step s (step_worker s i (respond s.time attempt started acquired (s.workers i)))
  assume_office :
      (i attempt generation deadline : ℕ)
      → (s.workers i).renewal ≡ draining attempt generation deadline
      → Step s (step_worker s i (take_office s.time attempt generation deadline (s.workers i)))
  fail : (i : ℕ) → Step s (step_worker s i (fail_renew (s.workers i)))
  expire : (i : ℕ) → Step s (step_worker s i (stop_work (s.workers i)))
  shut : (i : ℕ) → Step s (step_worker s i (shut_down (s.workers i)))
  let_go :
      (i : ℕ)
      → (s.workers i).stopped ≡ true
      → (s.workers i).renewal ≡ idle
      → Step s (record s { lease = release i s.lease })

pub data Reach (s : System) : System → Type 0 where
  here : Reach s s
  next : {t u : System} → Reach s t → Step t u → Reach s u
