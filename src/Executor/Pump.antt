-- ===== src/Executor/Pump.antt =====
-- `pump` of backend/src/lib/boundedKeyedExecutor.ts, and the invariant.
use eki.Prelude.OrderedMap.{measure-le-total, lookup}
use eki.Executor.Defs.{drop_key, Task, KeyState, Executor, dispatch, has_key, pump_keys}
use eki.Prelude.{
  ap, ◌∙◌, ◌-◌, ◌+◌, List-cases, refl, Option-cases, ltb, Bool-cases, inl, some, arith, [], ◌<◌,
  none, inr, ◌≤◌, ◌⊎◌, true, ◌≡◌, ◌≢◌, ◌∷◌, Option, List,
}
use eki.Executor.Sound.{queued, set-IsPumping, remove-IsPumping, skip-IsPumping, IsPumping}

pub KeyState-cases :
    (o : Option KeyState)
    → (o ≡ none)
      ⊎ (((t : Task) × (ts : List Task) × (o ≡ some (record { active = some t; pending = ts })))
          ⊎ ((o ≡ some (record { active = none; pending = [] }))
              ⊎ ((t : Task) × (ts : List Task) × (o
                    ≡ some (record { active = none; pending = t ∷ ts })))))
KeyState-cases none = inl refl
KeyState-cases (some s) = elim (Option-cases s.active) [
  | inr (t, e) ↦ inr (inl (t, s.pending, ground arith))
  | inl e ↦ elim (List-cases s.pending) [
    | inl n ↦ inr (inr (inl (ground arith)))
    | inr (t, ts, c) ↦ inr (inr (inr (t, ts, ground arith)))
  ]
]

module _ {K : Type 0} (dec : Discrete K) where
  has_key-tail :
      (k : K) (ks : List K) (j : K)
      → k ≢ j
      → has_key dec j (k ∷ ks) ≡ true
      → has_key dec j ks ≡ true
  unfolding has_key
  has_key-tail k ks j n h = ground arith

  abbrev pub Pumping : Executor K → List K → Type 0
  Pumping e ks = IsPumping dec e.budgets e.states e.active e.waiting ks

  -- One round: the key at the head is dispatched, dropped, or already busy.
  pub dispatch-Pumping :
      (k : K) (ks : List K) (e : Executor K)
      → Pumping e (k ∷ ks)
      → e.active < e.budgets.max_concurrent
      → Pumping (dispatch dec k e) ks
  unfolding dispatch
  dispatch-Pumping k ks e h lt = elim (KeyState-cases (lookup dec k e.states)) [
    | inl f ↦ rw (f, dispatch) (skip-IsPumping dec h k ks (λ s g. ground arith) (has_key-tail k ks))
    | inr (inl (t, ts, f)) ↦
        rw (f, dispatch) (skip-IsPumping dec h k ks (λ s g. ground arith) (has_key-tail k ks))
    | inr (inr (inl f)) ↦
        rw (f, dispatch)
          (remove-IsPumping dec h k e.active e.waiting ks (ground arith) (ground arith)
            (has_key-tail k ks))
    | inr (inr (inr (t, ts, f))) ↦
        rw (f, dispatch)
          (set-IsPumping dec h k (record { active = some t; pending = ts }) (e.active + 1)
            (e.waiting - 1) ks (ground arith)
            (ground (arith, measure-le-total dec queued k e.states, h.waitings)) (omega arith)
            (ground (arith, h.per_key k (record { active = none; pending = t ∷ ts }) f))
            (λ x. ground arith) (λ x. ground arith) (has_key-tail k ks))
  ]

  dispatch-fields :
      (k : K) (e : Executor K)
      → ((dispatch dec k e).ready_set ≡ e.ready_set)
        × ((dispatch dec k e).budgets ≡ e.budgets)
        × ((dispatch dec k e).waiting ≤ e.waiting)
  unfolding dispatch
  dispatch-fields k e = ground arith

  drop_key-head : (k : K) (ks : List K) → drop_key dec k (k ∷ ks) ≡ ks
  unfolding drop_key
  drop_key-head k ks = ground arith

  -- What `pump` leaves behind, from a state in which the keys `ks` are marked.
  pub record IsPumped (e e' : Executor K) : Type 0 where
    pub pumped : Pumping e' e'.ready
    pub same : e'.ready_set ≡ e'.ready
    pub conserving : (e'.active ≡ e'.budgets.max_concurrent) ⊎ (e'.ready ≡ [])
    pub fewer : e'.waiting ≤ e.waiting
    pub budgets : e'.budgets ≡ e.budgets

  pub pump_keys-IsPumped :
      (ks : List K) (e : Executor K)
      → Pumping e ks
      → e.ready_set ≡ ks
      → IsPumped e (pump_keys dec ks e)
  unfolding pump_keys
  pump_keys-IsPumped [] e h s = record {
    pumped = h;
    same = s;
    conserving = inr refl;
    fewer = omega arith;
    budgets = refl;
  }
  pump_keys-IsPumped (k ∷ ks) e h s = elim (Bool-cases (ltb e.active e.budgets.max_concurrent)) [
    | inr full ↦ rw full (record {
      pumped = h;
      same = s;
      conserving = inl (ground (arith, h.capacity));
      fewer = omega arith;
      budgets = refl;
    })
    | inl free ↦
        let e' = dispatch dec k (record e { ready_set = drop_key dec k e.ready_set }) in
        let (set', budgets', fewer') =
          dispatch-fields k (record e { ready_set = drop_key dec k e.ready_set }) in
        let ih =
          pump_keys-IsPumped ks e'
            (dispatch-Pumping k ks (record e { ready_set = drop_key dec k e.ready_set }) h
              (ground arith))
            (set' ∙ (ap (drop_key dec k) s ∙ drop_key-head k ks)) in
        rw free (record {
          pumped = ih.pumped;
          same = ih.same;
          conserving = ih.conserving;
          fewer = omega (arith, ih.fewer, fewer');
          budgets = ih.budgets ∙ budgets';
        })
  ]
