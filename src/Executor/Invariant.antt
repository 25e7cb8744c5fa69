-- ===== src/Executor/Invariant.antt =====
-- Every operation of the executor (backend/src/lib/boundedKeyedExecutor.ts).
use eki.Prelude.OrderedMap.{
  lookup-remove_ne, lookup-set, lookup-remove_self, measure-le-total, set, remove, lookup,
}
use eki.Executor.Pump.{pump_keys-IsPumped, Pumping}
use eki.Executor.Defs.{
  take_out, refresh_pending, begin, Budgets, KeyState, active_of, Task, Executor, has_key, renew,
  mark_ready, complete, drop_key, pump,
}
use eki.Prelude.{
  length, ite, leb, ◌-◌, none, List-cases, refl, ap, inr, Option-cases, arith, [], ◌+◌, inl, ◌∷◌,
  some, Bool-cases, ◌≤◌, true, ◌≢◌, ◌≡◌, ◌++◌, List, ℕ,
}
use eki.Executor.Sound.{line_of, set-IsPumping, remove-IsPumping, busy, IsSound}

module _ {K : Type 0} (dec : Discrete K) where
  has_key-append_self : (k : K) (ks : List K) → has_key dec k (ks ++ k ∷ []) ≡ true
  unfolding has_key
  has_key-append_self k [] = ground arith
  has_key-append_self k (j ∷ ks) = ground (arith, has_key-append_self k ks)

  has_key-append :
      (k j : K) (ks : List K) → has_key dec j ks ≡ true → has_key dec j (ks ++ k ∷ []) ≡ true
  unfolding has_key
  has_key-append k j [] h = cc
  has_key-append k j (i ∷ ks) h = ground (arith, has_key-append k j ks)

  pub has_key-drop_key :
      (k j : K) (ks : List K)
      → k ≢ j
      → has_key dec j ks ≡ true
      → has_key dec j (drop_key dec k ks) ≡ true
  unfolding has_key drop_key
  has_key-drop_key k j [] n h = h
  has_key-drop_key k j (i ∷ ks) n h = ground (arith, has_key-drop_key k j ks n)

  -- What `markReady` does: the key is marked, in both containers, and nothing else changes.
  pub record IsMarked (k : K) (e e' : Executor K) : Type 0 where
    pub marked : has_key dec k e'.ready ≡ true
    pub kept : (j : K) → has_key dec j e.ready ≡ true → has_key dec j e'.ready ≡ true
    pub same : e'.ready_set ≡ e'.ready
    pub states : e'.states ≡ e.states
    pub active : e'.active ≡ e.active
    pub waiting : e'.waiting ≡ e.waiting
    pub budgets : e'.budgets ≡ e.budgets

  pub mark_ready-IsMarked :
      (k : K) (e : Executor K) → e.ready_set ≡ e.ready → IsMarked k e (mark_ready dec k e)
  unfolding mark_ready
  mark_ready-IsMarked k e s = elim (Bool-cases (has_key dec k e.ready_set)) [
    | inl old ↦ rw old (record {
      marked = rw s at old;
      kept = λ j h. h;
      same = s;
      states = refl;
      active = refl;
      waiting = refl;
      budgets = refl;
    })
    | inr new ↦ rw new (record {
      marked = has_key-append_self k e.ready;
      kept = λ j. has_key-append k j e.ready;
      same = ap (λ l. l ++ k ∷ []) s;
      states = refl;
      active = refl;
      waiting = refl;
      budgets = refl;
    })
  ]

  -- After a pump the executor is sound if the waiting tasks fit.
  pub pump-IsSound :
      (e : Executor K)
      → Pumping dec e e.ready
      → e.ready_set ≡ e.ready
      → (pump dec e).waiting ≤ e.budgets.max_pending
      → IsSound dec (pump dec e)
  unfolding pump
  pump-IsSound e h s b =
      let p = pump_keys-IsPumped dec e.ready e h s in
      record {
        pumped = p.pumped;
        same = p.same;
        bounded = rw p.budgets b;
        conserving = p.conserving;
      }

  pub pump-waiting-le :
      (e : Executor K)
      → Pumping dec e e.ready
      → e.ready_set ≡ e.ready
      → (pump dec e).waiting ≤ e.waiting
  unfolding pump
  pump-waiting-le e h s = (pump_keys-IsPumped dec e.ready e h s).fewer

  -- `complete` up to its `pump`: the executor without the active task of the key.
  pub record IsFreed (k : K) (t : Task) (e p : Executor K) : Type 0 where
    pub completes : complete dec k e ≡ pump dec p
    pub pumping : Pumping dec p p.ready
    pub same : p.ready_set ≡ p.ready
    pub waiting : p.waiting ≡ e.waiting
    pub budgets : p.budgets ≡ e.budgets
    pub lines :
        (j : K)
        → line_of (lookup dec j e.states)
          ≡ ite (dec k j) (t ∷ line_of (lookup dec j p.states)) (line_of (lookup dec j p.states))

  -- The last task of a key has settled: the key is forgotten.
  complete_last :
      (k : K) (e : Executor K) (s : KeyState) (t : Task)
      → IsSound dec e
      → lookup dec k e.states ≡ some s
      → s.active ≡ some t
      → s.pending ≡ []
      → (p : Executor K) × IsFreed k t e p
  complete_last k e s t h found act p =
      let idle = record e { states = remove dec k e.states; active = e.active - 1 } in
      let some_busy = measure-le-total dec busy k e.states in
      (
        idle,
        record {
          completes = unfold complete in ground arith;
          pumping =
              remove-IsPumping dec h.pumped k (e.active - 1) e.waiting e.ready
                (ground (arith, some_busy, h.pumped.actives)) (ground arith) (λ j n o. o);
          same = h.same;
          waiting = refl;
          budgets = refl;
          lines = λ j. elim (dec k j) [
            | yes q ↦ ground (arith, lookup-remove_self dec k e.states h.pumped.distinct)
            | no q ↦ ground (arith, lookup-remove_ne dec k j e.states q)
          ];
        },
      )

  -- A task of a key has settled and others wait: the key is ready again.
  complete_more :
      (k : K) (e : Executor K) (s : KeyState) (t : Task)
      → IsSound dec e
      → lookup dec k e.states ≡ some s
      → s.active ≡ some t
      → s.pending ≢ []
      → (p : Executor K) × IsFreed k t e p
  complete_more k e s t h found act p =
      let freed : KeyState = record s { active = none } in
      let idle = record e { states = set dec k freed e.states; active = e.active - 1 } in
      let some_busy = measure-le-total dec busy k e.states in
      let marked = mark_ready-IsMarked k idle h.same in
      (
        mark_ready dec k idle,
        record {
          completes = unfold complete in ground arith;
          pumping =
              rw (marked.budgets, marked.states, marked.active, marked.waiting)
                (set-IsPumping dec h.pumped k freed (e.active - 1) e.waiting
                  (mark_ready dec k idle).ready (ground (arith, some_busy, h.pumped.actives))
                  (ground arith) (omega (arith, h.pumped.capacity)) (h.pumped.per_key k s found)
                  (λ _. marked.marked) (λ _. p) (λ j n o. marked.kept j o));
          same = marked.same;
          waiting = marked.waiting;
          budgets = marked.budgets;
          lines = λ j. rw marked.states (ground (arith, lookup-set dec k j freed e.states));
        },
      )

  pub complete-IsFreed :
      (k : K) (e : Executor K) (t : Task)
      → IsSound dec e
      → active_of dec (lookup dec k e.states) ≡ some t
      → (p : Executor K) × IsFreed k t e p
  complete-IsFreed k e t h f = elim (Option-cases (lookup dec k e.states)) [
    | inl n ↦ absurd (ground arith)
    | inr (s, found) ↦ elim (List-cases s.pending) [
      | inl p ↦ complete_last k e s t h found (ground arith) p
      | inr (u, us, p) ↦ complete_more k e s t h found (ground arith) (ground arith)
    ]
  ]

  pub complete-IsSound :
      (k : K) (e : Executor K) (t : Task)
      → IsSound dec e
      → active_of dec (lookup dec k e.states) ≡ some t
      → IsSound dec (complete dec k e)
  complete-IsSound k e t h f =
      let (p, freed) = complete-IsFreed k e t h f in
      rw freed.completes (
        pump-IsSound p freed.pumping freed.same (
          omega (
            arith,
            pump-waiting-le p freed.pumping freed.same,
            freed.waiting,
            h.bounded,
            ap (λ (b : Budgets). b.max_pending) freed.budgets,
          )))

  -- Where a pending task is found, one fewer is left.
  pub length-take_out :
      (p : ℕ) (ts left : List Task) → take_out p ts ≡ some left → length left + 1 ≡ length ts
  unfolding take_out
  length-take_out p [] left h = ground arith
  length-take_out p (t ∷ ts) left h = elim (Option-cases (take_out p ts)) [
    | inl n ↦ ground arith
    | inr (l, e) ↦ ground (arith, length-take_out p ts l e)
  ]

  length-renew : (p now : ℕ) (ts : List Task) → length (renew p now ts) ≡ length ts
  unfolding renew
  length-renew p now [] = refl
  length-renew p now (t ∷ ts) = ground (arith, length-renew p now ts)

  pub begin-IsSound :
      (k : K) (now : ℕ) (e : Executor K) → IsSound dec e → IsSound dec (begin dec k now e).0
  unfolding begin
  begin-IsSound k now e h = elim (Option-cases (active_of dec (lookup dec k e.states))) [
    | inl n ↦ rw (n, begin) h
    | inr (t, a) ↦ elim (Bool-cases (leb (t.enqueued_at + e.budgets.max_queue_age_ms) now)) [
      | inr young ↦ rw (a, begin, young) h
      | inl old ↦
          rw (a, begin, old)
            (complete-IsSound k (record e { expired = e.expired + 1 }) t
              (record {
                pumped = h.pumped;
                same = h.same;
                bounded = h.bounded;
                conserving = h.conserving;
              })
              a)
    ]
  ]

  pub refresh_pending-IsSound :
      (k : K) (p now : ℕ) (e : Executor K)
      → IsSound dec e
      → IsSound dec (refresh_pending dec k p now e)
  unfolding refresh_pending
  refresh_pending-IsSound k p now e h = elim (Option-cases (lookup dec k e.states)) [
    | inl n ↦ rw (n, refresh_pending) h
    | inr (s, f) ↦
        rw (f, refresh_pending)
          (record {
            pumped =
                set-IsPumping dec h.pumped k (record s { pending = renew p now s.pending }) e.active
                  e.waiting e.ready (ground (arith)) (ground (arith, length-renew p now s.pending))
                  h.pumped.capacity
                  (omega (arith, length-renew p now s.pending, h.pumped.per_key k s f))
                  (h.pumped.listed k s f)
                  (λ a n. h.pumped.alive k s f a (ground (arith, length-renew p now s.pending)))
                  (λ j _ o. o);
            same = h.same;
            bounded = h.bounded;
            conserving = h.conserving;
          })
  ]
