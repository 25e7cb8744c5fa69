-- ===== src/Executor/Queues.antt =====
-- The executor as one first-in first-out queue for each key
-- (backend/src/lib/boundedKeyedExecutor.ts).
use eki.Executor.Invariant.{complete-IsFreed}
use eki.Executor.Admission.{can_run-room, enqueue-IsEnqueued, joined, new_task}
use eki.Executor.Pump.{dispatch-Pumping, KeyState-cases, Pumping}
use eki.Prelude.OrderedMap.{
  set, lookup-set, lookup-remove_ne, lookup-remove_self, lookup, IsDistinct,
}
use eki.Executor.Defs.{
  can_run, complete, pump, drop_key, run, active_of, enqueue, Task, Executor, mark_ready, dispatch,
  pump_keys,
}
use eki.Prelude.{
  Option-cases, ◌+◌, ◌++◌, if◌then◌else◌, ite, refl, ◌∙◌, ltb, inr, inl, some, Bool-cases, arith,
  [], ◌∷◌, ◌≡◌, List, ℕ,
}
use eki.Executor.Sound.{line_of, IsSound}

module _ {K : Type 0} (dec : Discrete K) where
  -- The abstract view of the executor.
  abbrev pub line : K → Executor K → List Task
  line k e = line_of (lookup dec k e.states)

  dispatch-line :
      (k j : K) (e : Executor K) → IsDistinct dec e.states → line j (dispatch dec k e) ≡ line j e
  unfolding dispatch
  dispatch-line k j e d = elim (KeyState-cases (lookup dec k e.states)) [
    | inl f ↦ ground arith
    | inr (inl (t, ts, f)) ↦ ground arith
    | inr (inr (inl f)) ↦ elim (dec k j) [
      | yes p ↦ ground (arith, lookup-remove_self dec k e.states d)
      | no p ↦ ground (arith, lookup-remove_ne dec k j e.states p)
    ]
    | inr (inr (inr (t, ts, f))) ↦
        ground (arith, lookup-set dec k j (record { active = some t; pending = ts }) e.states)
  ]

  pump_keys-line :
      (ks : List K) (e : Executor K) (j : K)
      → Pumping dec e ks
      → line j (pump_keys dec ks e) ≡ line j e
  unfolding pump_keys
  pump_keys-line [] e j h = refl
  pump_keys-line (k ∷ ks) e j h = elim (Bool-cases (ltb e.active e.budgets.max_concurrent)) [
    | inr full ↦ rw full
    | inl free ↦
        let cleared = record e { ready_set = drop_key dec k e.ready_set } in
        rw free (
          pump_keys-line ks (dispatch dec k cleared) j
            (dispatch-Pumping dec k ks cleared h (ground arith))
          ∙ dispatch-line k j cleared h.distinct)
  ]

  mark_ready-line : (k j : K) (e : Executor K) → line j (mark_ready dec k e) ≡ line j e
  unfolding mark_ready
  mark_ready-line k j e = ground arith

  pump-line : (e : Executor K) → Pumping dec e e.ready → (j : K) → line j (pump dec e) ≡ line j e
  unfolding pump
  pump-line e h j = pump_keys-line e.ready e j h

  joined-line :
      (k j : K) (now : ℕ) (e : Executor K)
      → line_of (lookup dec j (set dec k (joined dec k now e) e.states))
        ≡ ite (dec k j) (line j e ++ new_task dec now e ∷ []) (line j e)
  joined-line k j now e = elim (dec k j) [
    | yes p ↦ ground (arith, lookup-set dec k j (joined dec k now e) e.states)
    | no p ↦ ground (arith, lookup-set dec k j (joined dec k now e) e.states)
  ]

  enqueue-line :
      (k j : K) (now : ℕ) (e : Executor K)
      → line j (enqueue dec k now e)
        ≡ ite (dec k j) (line j e ++ new_task dec now e ∷ []) (line j e)
  enqueue-line k j now e =
      let base : Executor K = record e {
        states = set dec k (joined dec k now e) e.states;
        waiting = e.waiting + 1;
        next_promise = e.next_promise + 1;
      } in
      let after : line j base ≡ ite (dec k j) (line j e ++ new_task dec now e ∷ []) (line j e) =
        joined-line k j now e in
      elim (Option-cases (active_of dec (lookup dec k e.states))) [
        | inr (t, a) ↦
            let eq : enqueue dec k now e ≡ base = unfold enqueue in ground arith in rw eq after
        | inl a ↦
            let eq : enqueue dec k now e ≡ mark_ready dec k base = unfold enqueue in ground arith in
            rw eq (mark_ready-line k j base ∙ after)
      ]

  -- In a sound executor an accepted call of `run` appends its task to the line of its key and leaves the lines of the
  -- other keys as they are; a refused one changes no line.
  pub run-line :
      (k j : K) (now : ℕ) (e : Executor K)
      → IsSound dec e
      → line j (run dec k now e).0
        ≡ ite
            (dec k j)
            (if can_run dec k e then line j e ++ new_task dec now e ∷ [] else line j e)
            (line j e)
  unfolding run
  run-line k j now e h = elim (Bool-cases (can_run dec k e)) [
    | inr full ↦ rw (full, run) (ground arith)
    | inl fits ↦
        let q = enqueue-IsEnqueued dec k now e h (can_run-room dec k e fits) in
        rw (fits, run) (pump-line (enqueue dec k now e) q.pumping j ∙ enqueue-line k j now e)
  ]

  -- In a sound executor, when the active task of a key settles it leaves the head of its line, and no other line changes.
  pub complete-line :
      (k j : K) (e : Executor K) (t : Task)
      → IsSound dec e
      → active_of dec (lookup dec k e.states) ≡ some t
      → line j e ≡ ite (dec k j) (t ∷ line j (complete dec k e)) (line j (complete dec k e))
  complete-line k j e t h a =
      let (p, freed) = complete-IsFreed dec k e t h a in
      rw freed.completes (rw (← pump-line p freed.pumping j) at (freed.lines j))
