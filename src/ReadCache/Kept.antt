-- ===== src/ReadCache/Kept.antt =====
-- Each step of a cache of reads keeps its values fresh (backend/src/services/apiReadCache.ts).
use eki.Lru.{get, put}
use eki.Flight.Invariant.{finish-IsBounded}
use eki.Flight.Operations.{run_flight-IsBounded, with_caller, invalidate_flights-IsBounded}
use eki.Flight.Ages.{
  run_flight-next, run_flight-IsAged, IsAged, invalidate_flights-current, finish-next,
  invalidate_flights-IsAged, invalidate_flights-next, finish-IsAged,
}
use eki.ReadCache.Steps.{Scene, answered, ended, with_reader}
use eki.ReadCache.Fresh.{aged-IsFresh, loads-IsFresh, IsFresh, IsSinceEntry}
use eki.ReadCache.Entries.{put-IsAll, IsAll, IsAll-mono, get-IsAll}
use eki.ReadCache.Defs.{
  load_failed, hit, missed, ReadCache, invalidate_cache, read_cache, load_value, end_fill,
}
use eki.Flight.Defs.{is_current, run_flight, Flight, object}
use eki.Prelude.OrderedMap.{lookup, set}
use eki.Prelude.{
  true, ltb, Bool-cases, inr, Option-cases, ◌⊎◌, inl, refl, ◌∙◌, ℕ, Option, Bool, none, some, ◌≡◌,
  ◌+◌, ℕ_discrete, ◌<◌, arith,
}

module _ {K V : Type 0} (dec : Discrete K) (data_at : ℕ → K → V) where
  -- A flight that is stored has a name below the next.
  pub object-lt :
      (u : Scene K V) (i : ℕ) (s : Flight K V)
      → IsFresh dec data_at u
      → object dec i u.cache.flights ≡ some s
      → i < u.cache.flights.next_flight
  object-lt u i s h o = ground (arith, h.bounded.fresh i, o)

  pub edit-IsFresh :
      (u : Scene K V)
      → IsFresh dec data_at u
      → IsFresh dec data_at (record u { version = u.version + 1 })
  edit-IsFresh u h = record {
    bounded = h.bounded;
    order = omega (arith, h.order);
    cached =
        IsAll-mono (IsSinceEntry dec data_at u.floor u.version)
          (IsSinceEntry dec data_at u.floor (u.version + 1))
          (λ k e (n, low, high, same). (n, low, omega arith, same)) u.cache.cache.entries h.cached;
    known = h.known;
    unended = h.unended;
    past = λ i n e. omega (arith, h.past i n e);
    read = h.read;
  }

  pub invalidate-IsFresh :
      (u : Scene K V)
      → IsFresh dec data_at u
      → IsFresh dec data_at (record u { cache = invalidate_cache dec u.cache; floor = u.version })
  unfolding invalidate_cache IsAll IsAged
  invalidate-IsFresh u h =
      let f = u.cache.flights in
      let next = invalidate_flights-next dec none f in
      let age = invalidate_flights-IsAged dec none f in
      record {
        bounded = (invalidate_flights-IsBounded dec none f u.callers h.bounded).1;
        order = omega arith;
        cached = ground arith;
        known = λ i l e. ground (arith, h.known i l e, next);
        unended =
            λ i l t e o p. let (s, q, later) = age i t p in later.settled ∙ h.unended i l s e o q;
        past = h.past;
        read = λ i n t e p c.
            let (s, q, later) = age i t p in
            let own = h.bounded.flying i s q (h.unended i _ s e refl q) in
            absurd (ground (arith, c, invalidate_flights-current dec s.key f i t own p));
      }

  -- A read is a hit, or a run.
  read_cache-cases :
      (u : Scene K V) (k : K) (now started boarding : ℕ)
      → (read_cache dec k now started boarding u.cache ≡ (
        record u.cache {
          cache = (get dec k u.cache.cache).0;
          flights = (run_flight dec k u.cache.cache_name started boarding u.cache.flights).0;
        },
        missed (run_flight dec k u.cache.cache_name started boarding u.cache.flights).1,
      ))
        ⊎ ((v : V) × (read_cache dec k now started boarding u.cache ≡ (
          record u.cache {
            cache = (get dec k u.cache.cache).0;
            stats = record u.cache.stats { hits = u.cache.stats.hits + 1 };
          },
          hit v,
        )))
  unfolding read_cache
  read_cache-cases u k now started boarding = elim (Option-cases (get dec k u.cache.cache).1) [
    | inl n ↦ inl (ground (arith, n))
    | inr (e, n) ↦ elim (Bool-cases (ltb now e.expires)) [
      | inl y ↦ inr (e.value, ground (arith, n, y))
      | inr y ↦ inl (ground (arith, n, y))
    ]
  ]

  pub read-IsFresh :
      (u : Scene K V) (k : K) (now started boarding : ℕ)
      → IsFresh dec data_at u
      → IsFresh dec data_at (record u {
        cache = (read_cache dec k now started boarding u.cache).0;
        callers = with_reader (read_cache dec k now started boarding u.cache).1 u.callers;
      })
  read-IsFresh u k now started boarding h =
      let c = u.cache in
      let f = c.flights in
      let run = run_flight dec k c.cache_name started boarding f in
      let used = get-IsAll dec (IsSinceEntry dec data_at u.floor u.version) k c.cache h.cached in
      let before = run_flight-IsAged dec k c.cache_name started boarding f in
      elim (read_cache-cases u k now started boarding) [
        | inl filled ↦ rw filled (
            aged-IsFresh dec data_at u
              (record u {
                cache = record c { cache = (get dec k c.cache).0; flights = run.0 };
                callers = with_caller run.1 u.callers;
              })
              h refl refl refl
              (run_flight-IsBounded dec k c.cache_name started boarding f u.callers h.bounded) used
              (run_flight-next dec k c.cache_name started boarding f) before)
        | inr (v, found) ↦ rw found (
            aged-IsFresh dec data_at u
              (record u {
                cache = record c {
                  cache = (get dec k c.cache).0;
                  stats = record c.stats { hits = c.stats.hits + 1 };
                };
              })
              h refl refl refl h.bounded used (omega arith)
              (λ j t _ o. (t, o, record { key = refl; settled = refl; current = λ q. q })))
      ]

  load_value-flights :
      (i : ℕ) (k : K) (v : V) (small : Bool) (now stored : ℕ) (c : ReadCache K V)
      → (load_value dec i k v small now stored c).0.flights ≡ c.flights
  unfolding load_value load_failed
  load_value-flights i k v small now stored c = ground arith

  -- The entries stay, or the flight is current and its value is put.
  load_value-cases :
      (i : ℕ) (k : K) (v : V) (small : Bool) (now stored : ℕ) (c : ReadCache K V) (s : Flight K V)
      → object dec i c.flights ≡ some s
      → ((load_value dec i k v small now stored c).0.cache ≡ c.cache)
        ⊎ ((s.current ≡ true)
            × ((load_value dec i k v small now stored c).0.cache
                ≡ (put dec k (record { value = v; expires = stored + c.ttl_ms }) c.cache).0))
  unfolding load_value load_failed is_current
  load_value-cases i k v small now stored c s o = ground (arith, o)

  pub load_value-IsFresh :
      (u : Scene K V) (i n : ℕ) (s : Flight K V) (small : Bool) (now stored : ℕ)
      → lookup ℕ_discrete i u.loads ≡ some (answered n)
      → object dec i u.cache.flights ≡ some s
      → IsFresh dec data_at u
      → IsFresh dec data_at (record u {
        cache = (load_value dec i s.key (data_at n s.key) small now stored u.cache).0;
        loads =
            set ℕ_discrete i
              (ended (load_value dec i s.key (data_at n s.key) small now stored u.cache).1)
              u.loads;
      })
  load_value-IsFresh u i n s small now stored e o h =
      let c = u.cache in
      let v = data_at n s.key in
      let result = load_value dec i s.key v small now stored c in
      let ends =
        λ (d : ReadCache K V) (l : Option V) (fs : d.flights ≡ c.flights)
            (all : IsAll (IsSinceEntry dec data_at u.floor u.version) d.cache.entries).
          loads-IsFresh dec data_at u
            (record u { cache = d; loads = set ℕ_discrete i (ended l) u.loads }) i (ended l) h refl
            refl refl fs refl all (object-lt u i s h o) (λ t q. absurd (ground (arith, q)))
            (λ m q. absurd (ground (arith, q))) in
      ends result.0 result.1 (load_value-flights i s.key v small now stored c)
        (elim (load_value-cases i s.key v small now stored c s o) [
          | inl same ↦ rw same h.cached
          | inr (live, filled) ↦ rw filled (
              put-IsAll dec (IsSinceEntry dec data_at u.floor u.version) s.key
                (record { value = v; expires = stored + c.ttl_ms }) c.cache
                (n, h.read i n s e o live, h.past i n e, refl) h.cached)
        ])

  pub end_fill-IsFresh :
      (u : Scene K V) (i : ℕ) (s : Flight K V) (outcome : Option V)
      → lookup ℕ_discrete i u.loads ≡ some (ended outcome)
      → object dec i u.cache.flights ≡ some s
      → s.settled ≡ none
      → IsFresh dec data_at u
      → IsFresh dec data_at (record u { cache = end_fill dec i outcome u.cache })
  unfolding end_fill
  end_fill-IsFresh u i s outcome e o n h =
      let f = u.cache.flights in
      let other = finish-IsAged dec i outcome f in
      let next = finish-next dec i outcome f in
      record {
        bounded = finish-IsBounded dec i outcome s f u.callers h.bounded o n;
        order = h.order;
        cached = h.cached;
        known = λ j l d. ground (arith, h.known j l d, next);
        unended = λ j l t d op p. elim (ℕ_discrete i j) [
          | yes same ↦ ground (arith, d, e, op, same)
          | no apart ↦ h.unended j l t d op (other j t apart p)
        ];
        past = h.past;
        read = λ j m t d p c. elim (ℕ_discrete i j) [
          | yes same ↦ ground (arith, d, e, same)
          | no apart ↦ h.read j m t d (other j t apart p) c
        ];
      }
