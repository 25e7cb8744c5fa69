-- ===== src/Executor/Sound.antt =====
-- The invariant of the executor (backend/src/lib/boundedKeyedExecutor.ts), and how a change of one
-- key's state keeps it.
use eki.Executor.Defs.{Task, has_key, Executor, Budgets, KeyState}
use eki.Prelude.{
  ◌∷◌, Option, ◌∙◌, sym, arith, true, [], none, ◌≢◌, some, ◌⊎◌, ◌≤◌, ◌+◌, length, ◌≡◌, List, ℕ,
}
use eki.Prelude.OrderedMap.{
  total-remove, remove-IsDistinct, lookup-remove_ne, lookup-set, lookup-remove_self, total-set,
  set-IsDistinct, remove, set, measure, lookup, IsDistinct, total,
}

abbrev pub busy : KeyState → ℕ
busy s = elim s.active [ none ↦ 0 | some _ ↦ 1 ]

abbrev pub queued : KeyState → ℕ
queued s = length s.pending

-- The tasks of a key that have not settled, in the order in which they settle.
abbrev pub line_of : Option KeyState → List Task
line_of none = []
line_of (some s) = elim s.active [ none ↦ s.pending | some t ↦ t ∷ s.pending ]

module _ {K : Type 0} (dec : Discrete K) where
  -- What holds of the budgets `b`, the states `m`, and the counts `a` of active and `w` of waiting
  -- tasks, while `pump` still has the keys `ks` to look at.
  pub record IsPumping (b : Budgets) (m : List (K × KeyState)) (a w : ℕ) (ks : List K)
      : Type 0 where
    pub distinct : IsDistinct dec m
    pub actives : total dec busy m ≡ a
    pub waitings : total dec queued m ≡ w
    pub capacity : a ≤ b.max_concurrent
    pub per_key :
        (k : K) (s : KeyState) → lookup dec k m ≡ some s → length s.pending ≤ b.max_pending_per_key
    pub listed :
        (k : K) (s : KeyState) → lookup dec k m ≡ some s → s.active ≡ none → has_key dec k ks ≡ true
    pub alive : (k : K) (s : KeyState) → lookup dec k m ≡ some s → s.active ≡ none → s.pending ≢ []

  -- Between two operations: the counters are exact, no budget is exceeded, a key without work is
  -- not stored, and there is no free slot while a task waits for one.
  pub record IsSound (e : Executor K) : Type 0 where
    pub pumped : IsPumping e.budgets e.states e.active e.waiting e.ready
    pub same : e.ready_set ≡ e.ready
    pub bounded : e.waiting ≤ e.budgets.max_pending
    pub conserving : (e.active ≡ e.budgets.max_concurrent) ⊎ (e.ready ≡ [])

  module _ {b : Budgets} {m : List (K × KeyState)} {a w : ℕ} {ks : List K}
      (h : IsPumping b m a w ks) (k : K) where
    -- The state of one key is replaced, and the counts with it.
    pub set-IsPumping :
        (v : KeyState) (a' w' : ℕ) (ks' : List K)
        → a' + measure dec busy (lookup dec k m) ≡ a + busy v
        → w' + measure dec queued (lookup dec k m) ≡ w + queued v
        → a' ≤ b.max_concurrent
        → length v.pending ≤ b.max_pending_per_key
        → (v.active ≡ none → has_key dec k ks' ≡ true)
        → (v.active ≡ none → v.pending ≢ [])
        → ((j : K) → k ≢ j → has_key dec j ks ≡ true → has_key dec j ks' ≡ true)
        → IsPumping b (set dec k v m) a' w' ks'
    set-IsPumping v a' w' ks' ea ew cap room on full keep = record {
      distinct = set-IsDistinct dec k v m h.distinct;
      actives = omega (arith, h.actives, ea, total-set dec busy k v m);
      waitings = omega (arith, h.waitings, ew, total-set dec queued k v m);
      capacity = cap;
      per_key = λ j s e. elim (dec k j) [
        | yes p ↦ ground (arith, lookup-set dec k j v m)
        | no p ↦ h.per_key j s (ground (arith, lookup-set dec k j v m))
      ];
      listed = λ j s e i. elim (dec k j) [
        | yes p ↦ ground (arith, lookup-set dec k j v m)
        | no p ↦ keep j p (h.listed j s (ground (arith, lookup-set dec k j v m)) i)
      ];
      alive = λ j s e i. elim (dec k j) [
        | yes p ↦ ground (arith, lookup-set dec k j v m)
        | no p ↦ h.alive j s (ground (arith, lookup-set dec k j v m)) i
      ];
    }

    -- The state of one key is removed.
    pub remove-IsPumping :
        (a' w' : ℕ) (ks' : List K)
        → a' + measure dec busy (lookup dec k m) ≡ a
        → w' + measure dec queued (lookup dec k m) ≡ w
        → ((j : K) → k ≢ j → has_key dec j ks ≡ true → has_key dec j ks' ≡ true)
        → IsPumping b (remove dec k m) a' w' ks'
    remove-IsPumping a' w' ks' ea ew keep = record {
      distinct = remove-IsDistinct dec k m h.distinct;
      actives = omega (arith, h.actives, ea, total-remove dec busy k m);
      waitings = omega (arith, h.waitings, ew, total-remove dec queued k m);
      capacity = omega (arith, h.capacity, ea);
      per_key = λ j s e. h.per_key j s (other j s e);
      listed = λ j s e i. keep j (apart j s e) (h.listed j s (other j s e) i);
      alive = λ j s e i. h.alive j s (other j s e) i;
    }
      where
        apart : (j : K) (s : KeyState) → lookup dec j (remove dec k m) ≡ some s → k ≢ j
        apart j s e p = ground (arith, lookup-remove_self dec k m h.distinct)

        other :
            (j : K) (s : KeyState)
            → lookup dec j (remove dec k m) ≡ some s
            → lookup dec j m ≡ some s
        other j s e = sym (lookup-remove_ne dec k j m (apart j s e)) ∙ e

    -- The key at the head is active already, or has no state.
    pub skip-IsPumping :
        (ks' : List K)
        → ((s : KeyState) → lookup dec k m ≡ some s → s.active ≢ none)
        → ((j : K) → k ≢ j → has_key dec j ks ≡ true → has_key dec j ks' ≡ true)
        → IsPumping b m a w ks'
    skip-IsPumping ks' no_idle keep = record {
      distinct = h.distinct;
      actives = h.actives;
      waitings = h.waitings;
      capacity = h.capacity;
      per_key = h.per_key;
      listed = λ j s e i. elim (dec k j) [
        | yes p ↦ absurd (no_idle s (rw p e) i)
        | no p ↦ keep j p (h.listed j s e i)
      ];
      alive = h.alive;
    }
