-- ===== src/Leadership/Reachable.antt =====
-- What the processes of the worker coordinator keep true together
-- (backend/src/services/workerCoordinator.ts, backend/src/lib/workerFence.ts).
use eki.Leadership.Exclusion.{IsBacked, IsHonest}
use eki.Prelude.{inl, true, none, ◌⊎◌, arith, some, ◌+◌, ◌≡◌, ◌≤◌, ℕ}
use eki.Leadership.Defs.{
  idle, release, commit_renew, worker_clock_skew_ms, committed, lease_duration_ms, Acquired, Worker,
  acquire, Lease,
}

-- Another lease or a later time, as one process sees it.
module _ (t t' : ℕ) (l l' : Lease) (me : ℕ) (w : Worker) (h : IsHonest t l me w) where
  carry-IsHonest :
      ((limit : ℕ) → IsBacked t l me w.offset limit → IsBacked t' l' me w.offset limit)
      → (l'.owner_id ≡ some me → l'.expires_at ≤ t' + w.offset + lease_duration_ms)
      → IsHonest t' l' me w
  carry-IsHonest carry recent = record {
    synced = h.synced;
    recent = recent;
    halted = h.halted;
    fenced = λ f e. carry (f.deadline + w.offset + worker_clock_skew_ms) (h.fenced f e);
    answered = λ n s a e. carry a.expires_at (h.answered n s a e);
    drained = λ n g d e. carry (d + w.offset + worker_clock_skew_ms) (h.drained n g d e);
  }

pub tick-IsHonest :
    (t t' : ℕ) (l : Lease) (me : ℕ) (w : Worker) → t ≤ t' → IsHonest t l me w → IsHonest t' l me w
tick-IsHonest t t' l me w e h =
    carry-IsHonest t t' l l me w h (λ limit b. grind (arith, b)) (λ o. grind (arith, h.recent o))

-- What a transaction that takes the lease did.
acquire_lem :
    (me now : ℕ) (l l' : Lease) (a : Acquired)
    → acquire me now l ≡ some (l', a)
    → (l'.owner_id ≡ some me)
      × (l'.expires_at ≡ now + lease_duration_ms)
      × (a.expires_at ≡ l'.expires_at)
      × ((l.owner_id ≡ some me) ⊎ (l.expires_at + worker_clock_skew_ms ≤ now))
unfolding acquire
acquire_lem me now l l' a e = grind arith

-- The process that took the lease.
module _ (t : ℕ) (l l' : Lease) (me : ℕ) (w : Worker) (h : IsHonest t l me w) where
  pub taken-IsHonest :
      (a : Acquired) (attempt started : ℕ)
      → acquire me (t + w.offset) l ≡ some (l', a)
      → IsHonest t l' me (record w { renewal = committed attempt started (some a) })
  taken-IsHonest a attempt started e =
      let (mine, expires, same, before) = acquire_lem me (t + w.offset) l l' a e in
      let carry : (limit : ℕ) → IsBacked t l me w.offset limit → IsBacked t l' me w.offset limit =
        λ limit b. grind (arith, mine, expires, h.recent, b) in
      record {
        synced = h.synced;
        recent = λ o. ground (arith, expires);
        halted = h.halted;
        fenced = λ f q. carry (f.deadline + w.offset + worker_clock_skew_ms) (h.fenced f q);
        answered = λ n s b q. inl (mine, grind (arith, same));
        drained = λ n g d q. ground arith;
      }

-- Every other process.
pub other-IsHonest :
    (t : ℕ) (l l' : Lease) (me other : ℕ) (w w' : Worker) (a : Acquired)
    → w.offset ≤ 4_000
    → (me ≡ other → ⊥)
    → acquire me (t + w.offset) l ≡ some (l', a)
    → IsHonest t l other w'
    → IsHonest t l' other w'
other-IsHonest t l l' me other w w' a synced apart e h =
    let (mine, expires, same, before) = acquire_lem me (t + w.offset) l l' a e in
    carry-IsHonest t t l l' other w' h (λ limit b. grind (arith, apart, mine, before, b))
      (λ o. ground (arith, apart, mine))

pub denied-IsHonest :
    (t : ℕ) (l : Lease) (me attempt started : ℕ) (w : Worker)
    → IsHonest t l me w
    → IsHonest t l me (record w { renewal = committed attempt started none })
denied-IsHonest t l me attempt started w h = record {
  synced = h.synced;
  recent = h.recent;
  halted = h.halted;
  fenced = h.fenced;
  answered = λ n s a e. ground arith;
  drained = λ n g d e. ground arith;
}

-- A renewal's transaction leaves the lease, or takes it.
pub commit_renew-cases :
    (me time attempt started : ℕ) (l l' : Lease) (w w' : Worker)
    → commit_renew me time attempt started l w ≡ (l', w')
    → ((l' ≡ l) × (w' ≡ record w { renewal = committed attempt started none }))
      ⊎ ((a : Acquired) × (acquire me (time + w.offset) l ≡ some (l', a))
          × (w' ≡ record w { renewal = committed attempt started (some a) }))
unfolding commit_renew
commit_renew-cases me time attempt started l l' w w' e = grind arith

-- A process with nothing under way counts on no lease.
pub idle-IsHonest :
    (t : ℕ) (l l' : Lease) (me : ℕ) (w : Worker)
    → w.stopped ≡ true
    → w.renewal ≡ idle
    → (l'.owner_id ≡ some me → ⊥)
    → IsHonest t l me w
    → IsHonest t l' me w
idle-IsHonest t l l' me w halted resting disowned h = record {
  synced = h.synced;
  recent = λ o. absurd (disowned o);
  halted = h.halted;
  fenced = λ f e. ground (arith, h.halted halted);
  answered = λ n s a e. ground arith;
  drained = λ n g d e. ground arith;
}

-- A release by another process.
pub released-IsHonest :
    (t : ℕ) (l : Lease) (me other : ℕ) (w : Worker)
    → (me ≡ other → ⊥)
    → IsHonest t l other w
    → IsHonest t (release me l) other w
unfolding release
released-IsHonest t l me other w apart h =
    carry-IsHonest t t l (release me l) other w h (λ limit b. grind (arith, apart, b))
      (λ o. grind (arith, h.recent))

pub release-owner : (me : ℕ) (l : Lease) → (release me l).owner_id ≡ some me → ⊥
unfolding release
release-owner me l o = grind arith
