-- ===== src/Leadership/Exclusion.antt =====
-- What the steps of one process keep of it (backend/src/services/workerCoordinator.ts).
use eki.Leadership.Defs.{
  idle, respond, remaining_ms, grant, committed, Acquired, WorkerFence, lease_duration_ms,
  worker_clock_skew_ms, draining, Worker, Lease, start_renew, take_office, shut_down, fail_renew,
  stop_work,
}
use eki.Prelude.{
  ap, ◌∙◌, Option, Option-cases, false, inr, inl, Bool-cases, leb, ◌==◌, not, is_some, ◌||◌, refl,
  none, true, ◌⊎◌, ◌+◌, some, ◌≤◌, arith, ◌≡◌, ℕ,
}

-- A wall time up to which a process counts on the lease: the lease is still its own up to then, or
-- that time, less the skew, has passed.
abbrev pub IsBacked : ℕ → Lease → ℕ → ℕ → ℕ → Type 0
IsBacked time lease me offset limit =
    ((lease.owner_id ≡ some me) × (limit ≤ lease.expires_at))
    ⊎ (limit ≤ time + offset + worker_clock_skew_ms)

-- What holds of one process, at a time and with a lease.
pub record IsHonest (time : ℕ) (lease : Lease) (me : ℕ) (w : Worker) : Type 0 where
  pub synced : w.offset ≤ 4_000
  pub recent : lease.owner_id ≡ some me → lease.expires_at ≤ time + w.offset + lease_duration_ms
  pub halted : w.stopped ≡ true → w.fence ≡ none
  pub fenced :
      (f : WorkerFence)
      → w.fence ≡ some f
      → IsBacked time lease me w.offset (f.deadline + w.offset + worker_clock_skew_ms)
  pub answered :
      (attempt started : ℕ) (a : Acquired)
      → w.renewal ≡ committed attempt started (some a)
      → IsBacked time lease me w.offset a.expires_at
  pub drained :
      (attempt generation deadline : ℕ)
      → w.renewal ≡ draining attempt generation deadline
      → IsBacked time lease me w.offset (deadline + w.offset + worker_clock_skew_ms)

-- A process that is handled while the lease stays.
module _ (time : ℕ) (lease : Lease) (me : ℕ) (w : Worker) (h : IsHonest time lease me w) where
  pub start_renew-IsHonest : IsHonest time lease me (start_renew time w)
  unfolding start_renew
  start_renew-IsHonest = grind arith

  pub stop_work-IsHonest : IsHonest time lease me (stop_work w)
  unfolding stop_work
  stop_work-IsHonest = record {
    synced = h.synced;
    recent = h.recent;
    halted = λ _. refl;
    fenced = λ f e. ground arith;
    answered = h.answered;
    drained = h.drained;
  }

  pub fail_renew-IsHonest : IsHonest time lease me (fail_renew w)
  unfolding fail_renew
  fail_renew-IsHonest = record {
    synced = h.synced;
    recent = h.recent;
    halted = λ _. refl;
    fenced = λ f e. ground arith;
    answered = λ n s a e. ground arith;
    drained = λ n g d e. ground arith;
  }

  pub shut_down-IsHonest : IsHonest time lease me (shut_down w)
  unfolding shut_down
  shut_down-IsHonest = record {
    synced = h.synced;
    recent = h.recent;
    halted = λ _. refl;
    fenced = λ f e. ground arith;
    answered = h.answered;
    drained = h.drained;
  }

  -- The old work has stopped.
  pub take_office-IsHonest :
      (attempt generation deadline : ℕ)
      → w.renewal ≡ draining attempt generation deadline
      → IsHonest time lease me (take_office time attempt generation deadline w)
  unfolding take_office
  take_office-IsHonest attempt generation deadline e =
      let refused =
        w.stopped || (is_some w.fence || (not (attempt == w.transition) || leb deadline time)) in
      elim (Bool-cases refused) [
        | inl q ↦ rw (q) (record {
          synced = h.synced;
          recent = h.recent;
          halted = h.halted;
          fenced = h.fenced;
          answered = λ n s a e'. ground arith;
          drained = λ n g d e'. ground arith;
        })
        | inr q ↦ rw (q) (record {
          synced = h.synced;
          recent = h.recent;
          halted = λ e'. ground arith;
          fenced = λ f e'. grind (arith, h.drained attempt generation deadline e);
          answered = λ n s a e'. ground arith;
          drained = λ n g d e'. ground arith;
        })
      ]

-- The other steps of a renewal, for a process whose lease stays.
module _ (time : ℕ) (lease : Lease) (me : ℕ) (w : Worker) (h : IsHonest time lease me w) where
  grant-IsHonest :
      (attempt generation deadline : ℕ)
      → w.stopped ≡ false
      → IsBacked time lease me w.offset (deadline + w.offset + worker_clock_skew_ms)
      → IsHonest time lease me (grant time attempt generation deadline w)
  unfolding grant stop_work
  grant-IsHonest attempt generation deadline awake b = elim (Option-cases w.fence) [
    | inl q ↦ rw (q) (record {
      synced = h.synced;
      recent = h.recent;
      halted = λ _. refl;
      fenced = λ f e'. ground arith;
      answered = λ n s a e'. ground arith;
      drained = λ n g d e'. grind (arith, b);
    })
    | inr (f, q) ↦ rw (q) (elim (Bool-cases (f.generation == generation)) [
      | inl same ↦ rw (same) (elim (Bool-cases (leb f.deadline time)) [
        | inl late ↦ rw (late) (record {
          synced = h.synced;
          recent = h.recent;
          halted = λ _. refl;
          fenced = λ f' e'. ground arith;
          answered = λ n s a e'. ground arith;
          drained = λ n g d e'. ground arith;
        })
        | inr timely ↦ rw (timely) (record {
          synced = h.synced;
          recent = h.recent;
          halted = λ e'. ground arith;
          fenced = λ f' e'. grind (arith, b);
          answered = λ n s a e'. ground arith;
          drained = λ n g d e'. ground arith;
        })
      ])
      | inr other ↦ rw (other) (record {
        synced = h.synced;
        recent = h.recent;
        halted = λ _. refl;
        fenced = λ f' e'. ground arith;
        answered = λ n s a e'. ground arith;
        drained = λ n g d e'. grind (arith, b);
      })
    ])
  ]

  finish-IsHonest : IsHonest time lease me (record w { renewal = idle })
  finish-IsHonest = record {
    synced = h.synced;
    recent = h.recent;
    halted = h.halted;
    fenced = h.fenced;
    answered = λ n s a e. ground arith;
    drained = λ n g d e. ground arith;
  }

  -- A response that leaves time to lead leaves it within the lease.
  remaining-IsBacked :
      (started : ℕ) (a : Acquired)
      → (remaining_ms time started w.offset a == 0) ≡ false
      → IsBacked time lease me w.offset a.expires_at
      → IsBacked time lease me w.offset
          (time + remaining_ms time started w.offset a + w.offset + worker_clock_skew_ms)
  unfolding remaining_ms
  remaining-IsBacked started a e b = grind (arith, b)

  pub respond-IsHonest :
      (attempt started : ℕ) (acquired : Option Acquired)
      → w.renewal ≡ committed attempt started acquired
      → IsHonest time lease me (respond time attempt started acquired w)
  unfolding respond
  respond-IsHonest attempt started acquired e =
      elim (Bool-cases (w.stopped || not (attempt == w.transition))) [
        | inl q ↦ rw (q) finish-IsHonest
        | inr q ↦ rw (q) (elim (Option-cases acquired) [
          | inl q' ↦
              rw (q')
                (stop_work-IsHonest time lease me (record w { renewal = idle }) finish-IsHonest)
          | inr (a, q') ↦ rw (q') (elim (Bool-cases (remaining_ms time started w.offset a == 0)) [
            | inl z ↦
                rw (z)
                  (stop_work-IsHonest time lease me (record w { renewal = idle }) finish-IsHonest)
            | inr z ↦ rw (z) (
                grant-IsHonest attempt a.generation (time + remaining_ms time started w.offset a)
                  (ground arith)
                  (remaining-IsBacked started a z
                    (h.answered attempt started a (e ∙ ap (committed attempt started) q'))))
          ])
        ])
      ]
