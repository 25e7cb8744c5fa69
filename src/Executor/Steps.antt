-- ===== src/Executor/Steps.antt =====
-- The operations that admit and expire a task, and the runs of the executor
-- (backend/src/lib/boundedKeyedExecutor.ts).
use eki.Executor.Invariant.{has_key-drop_key, length-take_out}
use eki.Prelude.OrderedMap.{set, remove, measure-le-total, lookup}
use eki.Executor.Sound.{remove-IsPumping, set-IsPumping, queued, IsSound}
use eki.Executor.Defs.{drop_key, expire_found, take_out, Task, KeyState, Executor, expire}
use eki.Prelude.{
  refl, ap, ◌+◌, ◌-◌, [], List-cases, ◌≢◌, none, arith, some, inr, ◌≡◌, inl, Option-cases, List, ℕ,
}

module _ {K : Type 0} (dec : Discrete K) where
  -- The key of an expired task that has nothing else is forgotten.
  expire_last-IsSound :
      (k : K) (p : ℕ) (e : Executor K) (s : KeyState) (left : List Task)
      → IsSound dec e
      → lookup dec k e.states ≡ some s
      → take_out p s.pending ≡ some left
      → s.active ≡ none
      → left ≡ []
      → IsSound dec (expire_found dec k s.active left e)
  expire_last-IsSound k p e s left h f t a l =
      let one = length-take_out dec p s.pending left t in
      let some_waiting = measure-le-total dec queued k e.states in
      let keep = λ (j : K). has_key-drop_key dec k j e.ready in
      let next : Executor K = record e {
        waiting = e.waiting - 1;
        expired = e.expired + 1;
        states = remove dec k e.states;
        ready_set = drop_key dec k e.ready_set;
        ready = drop_key dec k e.ready;
      } in
      let eq : expire_found dec k s.active left e ≡ next = unfold expire_found in ground arith in
      rw eq (record {
        pumped =
            remove-IsPumping dec h.pumped k e.active (e.waiting - 1) (drop_key dec k e.ready)
              (ground arith) (ground (arith, one, some_waiting, h.pumped.waitings)) keep;
        same = ap (drop_key dec k) h.same;
        bounded = omega (arith, h.bounded);
        conserving = elim h.conserving [
          | inl full ↦ inl full
          | inr idle ↦ inr (rw idle (unfold drop_key in refl))
        ];
      })

  expire_more-IsSound :
      (k : K) (p : ℕ) (e : Executor K) (s : KeyState) (left : List Task)
      → IsSound dec e
      → lookup dec k e.states ≡ some s
      → take_out p s.pending ≡ some left
      → (s.active ≡ none → left ≢ [])
      → IsSound dec (expire_found dec k s.active left e)
  expire_more-IsSound k p e s left h f t n =
      let one = length-take_out dec p s.pending left t in
      let some_waiting = measure-le-total dec queued k e.states in
      let v : KeyState = record { active = s.active; pending = left } in
      let next : Executor K = record e {
        waiting = e.waiting - 1;
        expired = e.expired + 1;
        states = set dec k v e.states;
      } in
      let eq : expire_found dec k s.active left e ≡ next = unfold expire_found in ground arith in
      rw eq (record {
        pumped =
            set-IsPumping dec h.pumped k v e.active (e.waiting - 1) e.ready (ground arith)
              (ground (arith, one, some_waiting, h.pumped.waitings)) h.pumped.capacity
              (omega (arith, one, h.pumped.per_key k s f)) (h.pumped.listed k s f) n (λ j _ o. o);
        same = h.same;
        bounded = omega (arith, h.bounded);
        conserving = h.conserving;
      })

  pub expire-IsSound :
      (k : K) (p : ℕ) (e : Executor K) → IsSound dec e → IsSound dec (expire dec k p e).0
  unfolding expire
  expire-IsSound k p e h = elim (Option-cases (lookup dec k e.states)) [
    | inl n ↦ rw (n, expire) h
    | inr (s, f) ↦ elim (Option-cases (take_out p s.pending)) [
      | inl n ↦ rw (f, expire) (rw (n, expire) h)
      | inr (left, t) ↦
          rw (f, expire)
            (rw (t, expire)
              (elim (Option-cases s.active) [
                | inr (u, a) ↦ expire_more-IsSound k p e s left h f t (λ i. ground arith)
                | inl a ↦ elim (List-cases left) [
                  | inl l ↦ expire_last-IsSound k p e s left h f t a l
                  | inr (u, us, l) ↦ expire_more-IsSound k p e s left h f t (λ i. ground arith)
                ]
              ]))
    ]
  ]
