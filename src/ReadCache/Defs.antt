-- ===== src/ReadCache/Defs.antt =====
-- `createApiReadCache` of backend/src/services/apiReadCache.ts, on the cache of backend/src/lib/lruCache.ts
-- and the flights of backend/src/lib/boundedSingleFlight.ts. What a fill does after an `await` is an
-- operation of its own: `begin_fill` up to the call of `load`, `load_value` and `load_failed` when that
-- call ends. Times are whole milliseconds, and each reading of the clock is an argument. Whether a
-- value is small enough to be kept is an argument too.
use eki.Lru.{LruCache, get, put, create_cache}
use eki.Flight.Defs.{
  Flights, Admission, create_flights, invalidate_flights, run_flight, is_current, finish,
  snapshot_flights,
}
use eki.Prelude.{ℕ, Option, Bool, none, some, [], ltb, ◌+◌, if◌then◌else◌, ◌&&◌, length}

pub record CachedValue (V : Type 0) : Type 0 where
  pub value : V
  pub expires : ℕ

pub record CacheStats : Type 0 where
  pub hits : ℕ
  pub fills : ℕ
  pub failures : ℕ
  pub invalidations : ℕ

pub record ReadCache (K V : Type 0) : Type 0 where
  -- The name, which is the scope of its flights.
  pub cache_name : K
  pub ttl_ms : ℕ
  pub cache : LruCache K (CachedValue V)
  pub flights : Flights K V
  pub stats : CacheStats

pub record CacheSnapshot : Type 0 where
  pub stats : CacheStats
  pub cached : ℕ
  pub ttl_ms : ℕ
  pub active_fills : ℕ
  pub waiting_callers : ℕ

pub data CacheRead (V : Type 0) : Type 0 where
  hit : V → CacheRead V
  missed : Admission → CacheRead V

-- `none` where a constructor throws.
unfoldable pub create_read_cache : {K V : Type 0} → K → ℕ → ℕ → Option (ReadCache K V)
create_read_cache name ttl_ms entries = elim (create_cache entries) [
  | none ↦ none
  | some c ↦
      elim (create_flights
        (record { max_fills = 8; max_waiters_per_fill = 32; response_ms = 3_000 })) [
          | none ↦ none
          | some f ↦ some (record {
            cache_name = name;
            ttl_ms = ttl_ms;
            cache = c;
            flights = f;
            stats = record { hits = 0; fills = 0; failures = 0; invalidations = 0 };
          })
        ]
]

module _ {K V : Type 0} (dec : Discrete K) where
  unfoldable pub invalidate_cache : ReadCache K V → ReadCache K V
  invalidate_cache c = record c {
    cache = record c.cache { entries = [] };
    flights = invalidate_flights dec none c.flights;
    stats = record c.stats { invalidations = c.stats.invalidations + 1 };
  }

  unfoldable pub cache_snapshot : ReadCache K V → CacheSnapshot
  cache_snapshot c = record {
    stats = c.stats;
    cached = length c.cache.entries;
    ttl_ms = c.ttl_ms;
    active_fills = (snapshot_flights dec c.flights).0;
    waiting_callers = (snapshot_flights dec c.flights).1;
  }

  -- `cache.get`, and `flights.run` up to its first `await` where there is no hit. The
  -- clock is read for the hit, for a new flight and before the wait.
  unfoldable pub read_cache : K → ℕ → ℕ → ℕ → ReadCache K V → ReadCache K V × CacheRead V
  read_cache k now started boarding c =
      let (used, found) = get dec k c.cache in
      let touched = record c { cache = used } in
      let run = run_flight dec k c.cache_name started boarding c.flights in
      let filling : ReadCache K V × CacheRead V =
        (record touched { flights = run.0 }, missed run.1) in
      elim found [
        | none ↦ filling
        | some e ↦
            if ltb now e.expires
            then (
              record touched { stats = record c.stats { hits = c.stats.hits + 1 } },
              hit e.value,
            )
            else filling
      ]

  -- The work of a flight up to the call of `load`.
  unfoldable pub begin_fill : ReadCache K V → ReadCache K V
  begin_fill c = record c { stats = record c.stats { fills = c.stats.fills + 1 } }

  unfoldable pub load_failed : ReadCache K V → ReadCache K V × Option V
  load_failed c = (record c { stats = record c.stats { failures = c.stats.failures + 1 } }, none)

  -- The rest of the work of the flight `i` for the key `k`: what it returns, `none` where it throws. The
  -- clock is read for `current` and for the time of expiry.
  unfoldable pub load_value : ℕ → K → V → Bool → ℕ → ℕ → ReadCache K V → ReadCache K V × Option V
  load_value i k v small now stored c =
      if is_current dec i now c.flights
      then (
        if ltb 0 c.ttl_ms && small
            then record c {
              cache = (put dec k (record { value = v; expires = stored + c.ttl_ms }) c.cache).0;
            }
            else c,
        some v,
      )
      else load_failed c

  -- The end of the work, with what it returned.
  unfoldable pub end_fill : ℕ → Option V → ReadCache K V → ReadCache K V
  end_fill i outcome c = record c { flights = finish dec i outcome c.flights }
