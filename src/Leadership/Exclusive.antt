-- ===== src/Leadership/Exclusive.antt =====
-- The processes of the worker coordinator together
-- (backend/src/services/workerCoordinator.ts, backend/src/lib/workerFence.ts).
use mathlib.Core.Path.{subst}
use eki.Leadership.Reachable.{
  released-IsHonest, release-owner, idle-IsHonest, other-IsHonest, taken-IsHonest, denied-IsHonest,
  commit_renew-cases, tick-IsHonest,
}
use eki.Leadership.Exclusion.{
  shut_down-IsHonest, stop_work-IsHonest, fail_renew-IsHonest, take_office-IsHonest,
  respond-IsHonest, start_renew-IsHonest, IsHonest,
}
use eki.Prelude.{
  ==_iff, inr, inl, ◌+◌, Option-cases, ◌==◌, ◌≤◌, Bool-cases, some, none, arith, true, ◌≡◌, ℕ,
}
use eki.Leadership.Defs.{
  release, let_go, shut_down, shut, stop_work, expire, fail_renew, fail, take_office, assume_office,
  respond, answer, commit, start_renew, start, committed, lease_duration_ms, idle, commit_renew,
  step_worker, here, update, Worker, next, Lease, tick, Step, Reach, leads, System,
}

pub update-lem {ℓ} :
    (P : ℕ → Worker → Type ℓ) (ws : ℕ → Worker) (i : ℕ) (w : Worker)
    → P i w
    → ((j : ℕ) → (i ≡ j → ⊥) → P j (ws j))
    → (j : ℕ) → P j (update ws i w j)
update-lem P ws i w own others j = elim (Bool-cases (i == j)) [
  | inl e ↦ rw (e) (subst (λ k. P k w) ((==_iff i j).0 e) own)
  | inr e ↦ rw (e) (others j (λ p. ground (arith, p)))
]

abbrev pub AllHonest : System → Type 0
AllHonest s = (i : ℕ) → IsHonest s.time s.lease i (s.workers i)

-- A step of one process that leaves the lease.
alone-AllHonest :
    (s : System) (i : ℕ) (w : Worker)
    → AllHonest s
    → IsHonest s.time s.lease i w
    → AllHonest (step_worker s i w)
alone-AllHonest s i w h own =
    update-lem (λ j w'. IsHonest s.time s.lease j w') s.workers i w own (λ j _. h j)

commit-AllHonest :
    (s : System) (i attempt started : ℕ) (lease : Lease) (w : Worker)
    → commit_renew i s.time attempt started s.lease (s.workers i) ≡ (lease, w)
    → AllHonest s
    → AllHonest (record s { lease = lease; workers = update s.workers i w })
commit-AllHonest s i attempt started lease w e h =
    elim (commit_renew-cases i s.time attempt started s.lease lease (s.workers i) w e) [
      | inl (same, q) ↦
          rw (same, q)
            (alone-AllHonest s i (record (s.workers i) { renewal = committed attempt started none })
              h (denied-IsHonest s.time s.lease i attempt started (s.workers i) (h i)))
      | inr (a, took, q) ↦
          let own =
            taken-IsHonest s.time s.lease lease i (s.workers i) (h i) a attempt started took in
          update-lem (λ j w'. IsHonest s.time lease j w') s.workers i w (rw (q) own)
            (λ j apart.
              other-IsHonest s.time s.lease lease i j (s.workers i) (s.workers j) a (h i).synced
                apart took (h j))
    ]

Step-AllHonest : (s u : System) → Step s u → AllHonest s → AllHonest u
Step-AllHonest s _ (tick t e) h = λ i. tick-IsHonest s.time t s.lease i (s.workers i) e (h i)
Step-AllHonest s _ (start i) h =
    alone-AllHonest s i (start_renew s.time (s.workers i)) h
      (start_renew-IsHonest s.time s.lease i (s.workers i) (h i))
Step-AllHonest s _ (commit i n b l w _ e) h = commit-AllHonest s i n b l w e h
Step-AllHonest s _ (answer i n b a e) h =
    alone-AllHonest s i (respond s.time n b a (s.workers i)) h
      (respond-IsHonest s.time s.lease i (s.workers i) (h i) n b a e)
Step-AllHonest s _ (assume_office i n g d e) h =
    alone-AllHonest s i (take_office s.time n g d (s.workers i)) h
      (take_office-IsHonest s.time s.lease i (s.workers i) (h i) n g d e)
Step-AllHonest s _ (fail i) h =
    alone-AllHonest s i (fail_renew (s.workers i)) h
      (fail_renew-IsHonest s.time s.lease i (s.workers i) (h i))
Step-AllHonest s _ (expire i) h =
    alone-AllHonest s i (stop_work (s.workers i)) h
      (stop_work-IsHonest s.time s.lease i (s.workers i) (h i))
Step-AllHonest s _ (shut i) h =
    alone-AllHonest s i (shut_down (s.workers i)) h
      (shut_down-IsHonest s.time s.lease i (s.workers i) (h i))
Step-AllHonest s _ (let_go i halted resting) h = λ j. elim (Bool-cases (i == j)) [
  | inl e ↦
      subst (λ k. IsHonest s.time (release i s.lease) k (s.workers k)) ((==_iff i j).0 e)
        (idle-IsHonest s.time s.lease (release i s.lease) i (s.workers i) halted resting
          (release-owner i s.lease) (h i))
  | inr e ↦ released-IsHonest s.time s.lease i j (s.workers j) (λ p. ground (arith, p)) (h j)
]

Reach-AllHonest : (s u : System) → Reach s u → AllHonest s → AllHonest u
Reach-AllHonest s _ here h = h
Reach-AllHonest s u (next {t = t} r d) h = Step-AllHonest t u d (Reach-AllHonest s t r h)

-- A process before its first renewal, under a wall clock up to 4 seconds ahead of the true time,
-- which may own the lease only for the 45 seconds of a renewal.
pub record IsFresh (s : System) (i : ℕ) : Type 0 where
  pub no_fence : (s.workers i).fence ≡ none
  pub resting : (s.workers i).renewal ≡ idle
  pub synced : (s.workers i).offset ≤ 4_000
  pub recent :
      s.lease.owner_id ≡ some i
      → s.lease.expires_at ≤ s.time + (s.workers i).offset + lease_duration_ms

fresh-IsHonest : (s : System) (i : ℕ) → IsFresh s i → IsHonest s.time s.lease i (s.workers i)
fresh-IsHonest s i f = record {
  synced = f.synced;
  recent = f.recent;
  halted = λ _. f.no_fence;
  fenced = λ g e. ground (arith, f.no_fence);
  answered = λ n b a e. ground (arith, f.resting);
  drained = λ n g d e. ground (arith, f.resting);
}

leads-owner :
    (time : ℕ) (lease : Lease) (me : ℕ) (w : Worker)
    → IsHonest time lease me w
    → leads time w ≡ true
    → lease.owner_id ≡ some me
unfolding leads
leads-owner time lease me w h e = elim (Option-cases w.fence) [
  | inl q ↦ absurd (ground arith)
  | inr (f, q) ↦ grind (arith, h.fenced f q)
]

-- From processes that are all fresh, whatever steps follow and in whatever order, two processes
-- that lead at the same time are the same process.
pub Reach-exclusive :
    (s u : System)
    → ((i : ℕ) → IsFresh s i)
    → Reach s u
    → (i j : ℕ) → leads u.time (u.workers i) ≡ true
    → leads u.time (u.workers j) ≡ true
    → i ≡ j
Reach-exclusive s u fresh r i j a b =
    let h = Reach-AllHonest s u r (λ k. fresh-IsHonest s k (fresh k)) in
    let p = leads-owner u.time u.lease i (u.workers i) (h i) a in
    let q = leads-owner u.time u.lease j (u.workers j) (h j) b in ground arith
