-- ===== src/ReadCache/Steps.antt =====
-- Every order of reads, fills and invalidations of a cache (backend/src/services/apiReadCache.ts) over
-- data that is edited meanwhile. `load` is outside code: a call of it answers with the version that the
-- data has at some moment of the call, or fails.
use eki.ReadCache.Defs.{
  ReadCache, CacheRead, hit, missed, create_read_cache, invalidate_cache, read_cache, begin_fill,
  load_value, load_failed, end_fill,
}
use eki.Flight.Defs.{Flight, object, leave}
use eki.Flight.Operations.{with_caller}
use eki.Prelude.OrderedMap.{lookup, set}
use eki.Prelude.{
  ℕ, List, Option, Bool, true, false, none, some, [], ◌∷◌, ◌++◌, ◌≡◌, ◌+◌, ℕ_discrete,
}

-- A call of `load`, or how the work of its flight ended.
pub data Load (V : Type 0) : Type 0 where
  asked : Load V
  answered : ℕ → Load V
  ended : Option V → Load V

abbrev pub is_open : {V : Type 0} → Load V → Bool
is_open (ended _) = false
is_open _ = true

-- The cache, the callers that wait, the loads of its flights, the version of the data, and the version
-- that it had at the last invalidation.
pub record Scene (K V : Type 0) : Type 0 where
  pub cache : ReadCache K V
  pub callers : List ℕ
  pub loads : List (ℕ × Load V)
  pub version : ℕ
  pub floor : ℕ

abbrev pub with_reader : {V : Type 0} → CacheRead V → List ℕ → List ℕ
with_reader (hit _) cs = cs
with_reader (missed a) cs = with_caller a cs

-- `data_at n k` is what the version `n` of the data has for the key `k`.
pub data Reach {K V : Type 0} (dec : Discrete K) (data_at : ℕ → K → V) : Scene K V → Type 0 where
  empty :
      (name : K) (ttl_ms entries : ℕ) (c : ReadCache K V)
      → create_read_cache name ttl_ms entries ≡ some c
      → Reach dec data_at (record { cache = c; callers = []; loads = []; version = 0; floor = 0 })
  then_edit :
      {u : Scene K V}
      → Reach dec data_at u
      → Reach dec data_at (record u { version = u.version + 1 })
  then_invalidate :
      {u : Scene K V}
      → Reach dec data_at u
      → Reach dec data_at (record u { cache = invalidate_cache dec u.cache; floor = u.version })
  then_read :
      {u : Scene K V} (k : K) (now started boarding : ℕ)
      → Reach dec data_at u
      → Reach dec data_at (record u {
        cache = (read_cache dec k now started boarding u.cache).0;
        callers = with_reader (read_cache dec k now started boarding u.cache).1 u.callers;
      })
  then_begin :
      {u : Scene K V} (i : ℕ) (s : Flight K V)
      → object dec i u.cache.flights ≡ some s
      → s.settled ≡ none
      → lookup ℕ_discrete i u.loads ≡ none
      → Reach dec data_at u
      → Reach dec data_at
          (record u { cache = begin_fill dec u.cache; loads = set ℕ_discrete i asked u.loads })
  then_answer :
      {u : Scene K V} (i : ℕ)
      → lookup ℕ_discrete i u.loads ≡ some asked
      → Reach dec data_at u
      → Reach dec data_at (record u { loads = set ℕ_discrete i (answered u.version) u.loads })
  then_value :
      {u : Scene K V} (i n : ℕ) (s : Flight K V) (small : Bool) (now stored : ℕ)
      → lookup ℕ_discrete i u.loads ≡ some (answered n)
      → object dec i u.cache.flights ≡ some s
      → Reach dec data_at u
      → Reach dec data_at (record u {
        cache = (load_value dec i s.key (data_at n s.key) small now stored u.cache).0;
        loads =
            set ℕ_discrete i
              (ended (load_value dec i s.key (data_at n s.key) small now stored u.cache).1)
              u.loads;
      })
  then_fail :
      {u : Scene K V} (i : ℕ)
      → lookup ℕ_discrete i u.loads ≡ some asked
      → Reach dec data_at u
      → Reach dec data_at (record u {
        cache = (load_failed dec u.cache).0;
        loads = set ℕ_discrete i (ended (load_failed dec u.cache).1) u.loads;
      })
  then_end :
      {u : Scene K V} (i : ℕ) (s : Flight K V) (outcome : Option V)
      → lookup ℕ_discrete i u.loads ≡ some (ended outcome)
      → object dec i u.cache.flights ≡ some s
      → s.settled ≡ none
      → Reach dec data_at u
      → Reach dec data_at (record u { cache = end_fill dec i outcome u.cache })
  then_leave :
      {u : Scene K V} (before : List ℕ) (i : ℕ) (after : List ℕ)
      → u.callers ≡ before ++ i ∷ after
      → Reach dec data_at u
      → Reach dec data_at (record u {
        cache = record u.cache { flights = leave dec i u.cache.flights };
        callers = before ++ after;
      })
