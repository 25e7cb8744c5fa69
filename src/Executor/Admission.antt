-- ===== src/Executor/Admission.antt =====
-- `run` of backend/src/lib/boundedKeyedExecutor.ts: admission, and the runs of the executor.
use eki.Executor.Steps.{expire-IsSound}
use eki.Executor.Invariant.{
  pump-waiting-le, pump-IsSound, refresh_pending-IsSound, complete-IsSound, begin-IsSound,
  mark_ready-IsMarked,
}
use eki.Prelude.OrderedMap.{total, lookup-set, set, lookup}
use eki.Executor.Pump.{Pumping}
use eki.Executor.Defs.{
  Budgets, dispatch, pump_keys, refresh_pending, complete, can_run, begin, expire, ExecutionBudgets,
  create, mark_ready, enqueue, has_key, pending_of, run, active_of, KeyState, Task, Executor, pump,
}
use eki.Prelude.{
  List-cases, ◌≢◌, ◌↔◌, ◌⊎◌, ◌≤◌, some, Bool-cases, ◌∙◌, refl, ap, inl, length-append, arith, inr,
  Option-cases, true, ◌∷◌, ◌++◌, ◌<◌, [], ◌+◌, none, ◌≡◌, length, List, ℕ,
}
use eki.Executor.Sound.{busy, queued, set-IsPumping, IsSound, IsPumping}

module _ {K : Type 0} (dec : Discrete K) where
  abbrev pub new_task : ℕ → Executor K → Task
  new_task now e = record { promise = e.next_promise; enqueued_at = now }

  -- The state of a key that a task has joined.
  abbrev pub joined : K → ℕ → Executor K → KeyState
  joined k now e =
      let s = lookup dec k e.states in
      record { active = active_of dec s; pending = pending_of dec s ++ new_task now e ∷ [] }

  -- What `run` hands to `pump`.
  pub record IsEnqueued (k : K) (now : ℕ) (e e' : Executor K) : Type 0 where
    pub pumping : Pumping dec e' e'.ready
    pub same : e'.ready_set ≡ e'.ready
    pub waiting : e'.waiting ≡ e.waiting + 1
    pub budgets : e'.budgets ≡ e.budgets

  joined-IsPumping :
      (k : K) (now : ℕ) (e : Executor K) (ks : List K)
      → IsSound dec e
      → length (pending_of dec (lookup dec k e.states)) < e.budgets.max_pending_per_key
      → (active_of dec (lookup dec k e.states) ≡ none → has_key dec k ks ≡ true)
      → ((j : K) → has_key dec j e.ready ≡ true → has_key dec j ks ≡ true)
      → IsPumping dec e.budgets (set dec k (joined k now e) e.states) e.active (e.waiting + 1) ks
  joined-IsPumping k now e ks h room on keep =
      set-IsPumping dec h.pumped k (joined k now e) e.active (e.waiting + 1) ks (ground arith)
        (ground
          (arith, length-append (pending_of dec (lookup dec k e.states)) (new_task now e ∷ [])))
        h.pumped.capacity
        (omega
          (arith, length-append (pending_of dec (lookup dec k e.states)) (new_task now e ∷ [])))
        on
        (λ _ p. omega (
          arith,
          ap length p,
          length-append (pending_of dec (lookup dec k e.states)) (new_task now e ∷ []),
        ))
        (λ j _. keep j)

  pub enqueue-IsEnqueued :
      (k : K) (now : ℕ) (e : Executor K)
      → IsSound dec e
      → length (pending_of dec (lookup dec k e.states)) < e.budgets.max_pending_per_key
      → IsEnqueued k now e (enqueue dec k now e)
  enqueue-IsEnqueued k now e h room =
      let base : Executor K = record e {
        states = set dec k (joined k now e) e.states;
        waiting = e.waiting + 1;
        next_promise = e.next_promise + 1;
      } in
      elim (Option-cases (active_of dec (lookup dec k e.states))) [
        | inr (t, a) ↦
            let eq : enqueue dec k now e ≡ base = unfold enqueue in ground arith in
            rw eq (record {
              pumping = joined-IsPumping k now e e.ready h room (λ n. ground arith) (λ j o. o);
              same = h.same;
              waiting = refl;
              budgets = refl;
            })
        | inl a ↦
            let eq : enqueue dec k now e ≡ mark_ready dec k base = unfold enqueue in ground arith in
            let m = mark_ready-IsMarked dec k base h.same in
            rw eq (record {
              pumping =
                  rw (m.budgets, m.states, m.active, m.waiting)
                    (joined-IsPumping k now e (mark_ready dec k base).ready h room (λ _. m.marked)
                      m.kept);
              same = m.same;
              waiting = m.waiting;
              budgets = m.budgets;
            })
      ]

  -- With a free slot and nothing of the key under way, the task is dispatched at once.
  enqueue_idle-waiting :
      (k : K) (now : ℕ) (e : Executor K)
      → IsSound dec e
      → active_of dec (lookup dec k e.states) ≡ none
      → pending_of dec (lookup dec k e.states) ≡ []
      → e.active < e.budgets.max_concurrent
      → (pump dec (enqueue dec k now e)).waiting ≡ e.waiting
  enqueue_idle-waiting k now e h a p lt =
      let v : KeyState = record { active = none; pending = new_task now e ∷ [] } in
      let q : Executor K = record e {
        states = set dec k v e.states;
        waiting = e.waiting + 1;
        next_promise = e.next_promise + 1;
        ready = k ∷ [];
        ready_set = k ∷ [];
      } in
      let none_ready : e.ready ≡ [] = ground (arith, h.conserving) in
      let none_marked : e.ready_set ≡ [] = h.same ∙ none_ready in
      let same_state : joined k now e ≡ v = rw (a, p) in
      let eq : enqueue dec k now e ≡ q =
        unfold enqueue mark_ready has_key in ground (arith, none_ready, none_marked, same_state) in
      let found : lookup dec k q.states ≡ some v = ground (arith, lookup-set dec k k v e.states) in
      rw eq (unfold pump pump_keys dispatch in ground (arith, found))

  pub can_run-room :
      (k : K) (e : Executor K)
      → can_run dec k e ≡ true
      → length (pending_of dec (lookup dec k e.states)) < e.budgets.max_pending_per_key
  unfolding can_run
  can_run-room k e h = ground arith

  can_run-cases :
      (k : K) (e : Executor K)
      → can_run dec k e ≡ true
      → (e.waiting < e.budgets.max_pending)
        ⊎ ((active_of dec (lookup dec k e.states) ≡ none)
            × (pending_of dec (lookup dec k e.states) ≡ [])
            × (e.active < e.budgets.max_concurrent))
  unfolding can_run
  can_run-cases k e h = ground arith

  enqueue-bounded :
      (k : K) (now : ℕ) (e : Executor K)
      → IsSound dec e
      → can_run dec k e ≡ true
      → (pump dec (enqueue dec k now e)).waiting ≤ (enqueue dec k now e).budgets.max_pending
  enqueue-bounded k now e h fits =
      let q = enqueue-IsEnqueued k now e h (can_run-room k e fits) in
      let budget = ap (λ (b : Budgets). b.max_pending) q.budgets in
      elim (can_run-cases k e fits) [
        | inl room ↦
            omega
              (arith, budget, q.waiting, pump-waiting-le dec (enqueue dec k now e) q.pumping q.same)
        | inr (a, p, lt) ↦ omega (arith, budget, enqueue_idle-waiting k now e h a p lt, h.bounded)
      ]

  pub run-IsSound :
      (k : K) (now : ℕ) (e : Executor K) → IsSound dec e → IsSound dec (run dec k now e).0
  unfolding run
  run-IsSound k now e h = elim (Bool-cases (can_run dec k e)) [
    | inr full ↦
        let eq : (run dec k now e).0 ≡ record e { rejected = e.rejected + 1 } =
          unfold run in ground arith in
        rw eq (record {
          pumped = h.pumped;
          same = h.same;
          bounded = h.bounded;
          conserving = h.conserving;
        })
    | inl fits ↦
        let q = enqueue-IsEnqueued k now e h (can_run-room k e fits) in
        let sound =
          pump-IsSound dec (enqueue dec k now e) q.pumping q.same
            (enqueue-bounded k now e h fits) in
        rw (fits, run)
          (record {
            pumped = sound.pumped;
            same = sound.same;
            bounded = sound.bounded;
            conserving = sound.conserving;
          })
  ]

  -- What may happen to an executor: a call of `run`, a timer, the start or the end of a dispatched
  -- task, and the renewal of a pending one. A task settles only while it is active.
  pub data Step (e : Executor K) : Executor K → Type 0 where
    ran : (k : K) (now : ℕ) → Step e (run dec k now e).0
    timed_out : (k : K) (p : ℕ) → Step e (expire dec k p e).0
    began : (k : K) (now : ℕ) → Step e (begin dec k now e).0
    settled :
        (k : K) (t : Task)
        → active_of dec (lookup dec k e.states) ≡ some t
        → Step e (complete dec k e)
    refreshed : (k : K) (p now : ℕ) → Step e (refresh_pending dec k p now e)

  pub data Reach (s : Executor K) : Executor K → Type 0 where
    here : Reach s s
    next : {e e' : Executor K} → Reach s e → Step e e' → Reach s e'

  Step-IsSound : {e e' : Executor K} → IsSound dec e → Step e e' → IsSound dec e'
  Step-IsSound {e} h (ran k now) = run-IsSound k now e h
  Step-IsSound {e} h (timed_out k p) = expire-IsSound dec k p e h
  Step-IsSound {e} h (began k now) = begin-IsSound dec k now e h
  Step-IsSound {e} h (settled k t a) = complete-IsSound dec k e t h a
  Step-IsSound {e} h (refreshed k p now) = refresh_pending-IsSound dec k p now e h

  create-IsSound : (o : ExecutionBudgets) (e : Executor K) → create o ≡ some e → IsSound dec e
  unfolding create
  create-IsSound o e h =
      let no_states : e.states ≡ [] = ground arith in
      let none_ready : e.ready ≡ [] = ground arith in
      record {
        pumped = record {
          distinct = rw no_states tt;
          actives = rw no_states (unfold total in ground arith);
          waitings = rw no_states (unfold total in ground arith);
          capacity = ground arith;
          per_key = λ k s f. unfold lookup in ground arith;
          listed = λ k s f a. unfold lookup in ground arith;
          alive = λ k s f a. unfold lookup in ground arith;
        };
        same = ground arith;
        bounded = ground arith;
        conserving = inr none_ready;
      }

  Reach-IsSound_from : {s e : Executor K} → IsSound dec s → Reach s e → IsSound dec e
  Reach-IsSound_from h here = h
  Reach-IsSound_from h (next r st) = Step-IsSound (Reach-IsSound_from h r) st

  -- From its constructor on, whatever is submitted and in whatever order timers and tasks end, the
  -- executor never runs or queues more than its budgets allow, its counters agree with the stored
  -- tasks, no key without work stays stored, and no slot is free while a key with work waits.
  pub Reach-IsSound :
      (o : ExecutionBudgets) {s e : Executor K} → create o ≡ some s → Reach s e → IsSound dec e
  Reach-IsSound o {s} c r = Reach-IsSound_from (create-IsSound o s c) r

  -- A key that waits without a task of its own has no free slot to start one.
  idle_key-full :
      (k : K) (e : Executor K)
      → IsSound dec e
      → active_of dec (lookup dec k e.states) ≡ none
      → pending_of dec (lookup dec k e.states) ≢ []
      → e.active ≡ e.budgets.max_concurrent
  unfolding has_key
  idle_key-full k e h idle full = elim (Option-cases (lookup dec k e.states)) [
    | inl n ↦ absurd (full (rw (n) refl))
    | inr (s, n) ↦ elim h.conserving [
      | inl all ↦ all
      | inr none_ready ↦
          let listed = h.pumped.listed k s n (ground (arith, idle, n)) in
          absurd (ground (arith, listed, none_ready))
    ]
  ]

  -- Between two operations, a call of `run` is refused exactly when as many tasks of the key wait as
  -- its queue takes, or as many tasks wait in all queues together as the shared budget allows while
  -- the key has a task that runs or as many tasks run, of all keys, as may run at once.
  pub run-refused_iff :
      (k : K) (now : ℕ) (e : Executor K)
      → IsSound dec e
      → ((run dec k now e).1 ≡ none) ↔ (
          (e.budgets.max_pending_per_key ≤ length (pending_of dec (lookup dec k e.states)))
          ⊎ ((e.budgets.max_pending ≤ total dec queued e.states)
              × ((active_of dec (lookup dec k e.states) ≢ none)
                  ⊎ (e.budgets.max_concurrent ≤ total dec busy e.states))))
  unfolding run can_run
  run-refused_iff k now e h =
      let counts = h.pumped.actives in
      let waits = h.pumped.waitings in
      (
        λ r. elim (Option-cases (active_of dec (lookup dec k e.states))) [
          | inr (t, q) ↦ ground (arith, r, q, counts, waits)
          | inl q ↦ elim (List-cases (pending_of dec (lookup dec k e.states))) [
            | inl z ↦ ground (arith, r, q, z, counts, waits)
            | inr (t, ts, z) ↦
                let all = idle_key-full k e h q (λ y. ground (arith, y, z)) in
                ground (arith, r, q, z, counts, waits, all)
          ]
        ],
        λ r. ground (arith, r, counts, waits),
      )
