-- ===== src/ReadCache/Fresh.antt =====
-- What the cache of reads promises (backend/src/services/apiReadCache.ts): no value that is older than the
-- last invalidation.
use eki.ReadCache.Steps.{Scene, Load, answered, is_open}
use eki.ReadCache.Entries.{IsAll}
use eki.ReadCache.Defs.{CachedValue}
use eki.Flight.Invariant.{IsBounded}
use eki.Flight.Ages.{IsLater}
use eki.Flight.Defs.{Flight, object}
use eki.Prelude.OrderedMap.{lookup-set, set, lookup}
use eki.Prelude.{◌∙◌, ℕ, true, none, some, ◌≡◌, ℕ_discrete, ◌≤◌, ◌<◌, arith}

-- A version at or after `floor` has the value.
abbrev pub IsSince : {K V : Type 0} → (ℕ → K → V) → ℕ → ℕ → K → V → Type 0
IsSince data_at floor version k v = (n : ℕ) × (floor ≤ n) × (n ≤ version) × (v ≡ data_at n k)

module _ {K V : Type 0} (dec : Discrete K) (data_at : ℕ → K → V) where
  abbrev pub IsSinceEntry : ℕ → ℕ → K → CachedValue V → Type 0
  IsSinceEntry floor version k e = IsSince data_at floor version k e.value

  -- The cached values are of versions since the last invalidation, and so is what a load has answered to
  -- a flight that is current still.
  pub record IsFresh (u : Scene K V) : Type 0 where
    pub bounded : IsBounded dec u.cache.flights u.callers
    pub order : u.floor ≤ u.version
    pub cached : IsAll (IsSinceEntry u.floor u.version) u.cache.cache.entries
    pub known :
        (i : ℕ) (l : Load V)
        → lookup ℕ_discrete i u.loads ≡ some l
        → i < u.cache.flights.next_flight
    pub unended :
        (i : ℕ) (l : Load V) (s : Flight K V)
        → lookup ℕ_discrete i u.loads ≡ some l
        → is_open l ≡ true
        → object dec i u.cache.flights ≡ some s
        → s.settled ≡ none
    pub past : (i n : ℕ) → lookup ℕ_discrete i u.loads ≡ some (answered n) → n ≤ u.version
    pub read :
        (i n : ℕ) (s : Flight K V)
        → lookup ℕ_discrete i u.loads ≡ some (answered n)
        → object dec i u.cache.flights ≡ some s
        → s.current ≡ true
        → u.floor ≤ n

  -- The flights age, and the entries may be others of versions since the last invalidation.
  pub aged-IsFresh :
      (u w : Scene K V)
      → IsFresh u
      → w.floor ≡ u.floor
      → w.version ≡ u.version
      → w.loads ≡ u.loads
      → IsBounded dec w.cache.flights w.callers
      → IsAll (IsSinceEntry u.floor u.version) w.cache.cache.entries
      → u.cache.flights.next_flight ≤ w.cache.flights.next_flight
      → ((j : ℕ) (t : Flight K V)
          → j < u.cache.flights.next_flight
          → object dec j w.cache.flights ≡ some t
          → (s : Flight K V) × (object dec j u.cache.flights ≡ some s) × IsLater s t)
      → IsFresh w
  aged-IsFresh u w h fl ve lo b all next age = record {
    bounded = b;
    order = ground (arith, h.order, fl, ve);
    cached = rw (fl) (rw (ve) all);
    known = λ i l e. let k = h.known i l (ground (arith, e, lo)) in omega arith;
    unended = λ i l t e o p.
        let q : lookup ℕ_discrete i u.loads ≡ some l = ground (arith, e, lo) in
        let (s, r, later) = age i t (h.known i l q) p in later.settled ∙ h.unended i l s q o r;
    past = λ i n e. ground (arith, h.past i n, e, lo, ve);
    read = λ i n t e p c.
        let q : lookup ℕ_discrete i u.loads ≡ some (answered n) = ground (arith, e, lo) in
        let (s, r, later) = age i t (h.known i _ q) p in
        ground (arith, h.read i n s q r (later.current c), fl);
  }

  -- The load of one flight goes on, and the entries may be others.
  pub loads-IsFresh :
      (u w : Scene K V) (i : ℕ) (l : Load V)
      → IsFresh u
      → w.floor ≡ u.floor
      → w.version ≡ u.version
      → w.callers ≡ u.callers
      → w.cache.flights ≡ u.cache.flights
      → w.loads ≡ set ℕ_discrete i l u.loads
      → IsAll (IsSinceEntry u.floor u.version) w.cache.cache.entries
      → i < u.cache.flights.next_flight
      → ((s : Flight K V)
          → is_open l ≡ true
          → object dec i u.cache.flights ≡ some s
          → s.settled ≡ none)
      → ((n : ℕ) → l ≡ answered n → (n ≤ u.version) × (u.floor ≤ n))
      → IsFresh w
  loads-IsFresh u w i l h fl ve ca fs lo all low op an =
      let at = λ (j : ℕ). lookup-set ℕ_discrete i j l u.loads in
      record {
        bounded = rw (fs) (rw (ca) h.bounded);
        order = ground (arith, h.order, fl, ve);
        cached = rw (fl) (rw (ve) all);
        known = λ j m e. elim (ℕ_discrete i j) [
          | yes same ↦ ground (arith, low, fs, same)
          | no other ↦ ground (arith, h.known j m, e, at j, lo, fs)
        ];
        unended = λ j m s e o p. elim (ℕ_discrete i j) [
          | yes same ↦ ground (arith, op s, e, at j, lo, fs, o, p)
          | no other ↦ h.unended j m s (ground (arith, e, at j, lo)) o (ground (arith, p, fs))
        ];
        past = λ j n e. elim (ℕ_discrete i j) [
          | yes same ↦ ground (arith, an n, e, at j, lo, ve)
          | no other ↦ ground (arith, h.past j n, e, at j, lo, ve)
        ];
        read = λ j n s e p c. elim (ℕ_discrete i j) [
          | yes same ↦ ground (arith, an n, e, at j, lo, fl)
          | no other ↦ ground (arith, h.read j n s, e, p, c, at j, lo, fl, fs)
        ];
      }
