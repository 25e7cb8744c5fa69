-- ===== src/ReadCache/Since.antt =====
-- The promise of the cache of reads over every order of its steps (backend/src/services/apiReadCache.ts).
use eki.ReadCache.Entries.{IsAll-lookup, IsAll}
use eki.Lru.{get, create_cache}
use eki.Flight.Operations.{create_flights-IsBounded, leave-IsBounded}
use eki.Flight.Invariant.{count, count-move, count-IsBounded}
use eki.Flight.Ages.{leave-IsAged, leave-next, IsAged}
use eki.ReadCache.Kept.{
  edit-IsFresh, invalidate-IsFresh, read-IsFresh, load_value-IsFresh, end_fill-IsFresh, object-lt,
}
use eki.ReadCache.Steps.{
  Load, Scene, asked, answered, ended, Reach, empty, then_edit, then_invalidate, then_read,
  then_begin, then_answer, then_value, then_fail, then_end, then_leave,
}
use eki.ReadCache.Fresh.{IsSinceEntry, IsFresh, IsSince, aged-IsFresh, loads-IsFresh}
use eki.ReadCache.Defs.{
  CachedValue, ReadCache, create_read_cache, read_cache, begin_fill, load_failed, hit,
}
use eki.Flight.Defs.{create_flights, Flight, object, leave}
use eki.Prelude.OrderedMap.{lookup, set}
use eki.Prelude.{
  ltb, Bool-cases, inr, inl, ◌≢◌, Option-cases, sym, ap, ◌∙◌, refl, ℕ, List, none, some, [], ◌∷◌,
  ◌++◌, ◌≡◌, ℕ_discrete, arith,
}

module _ {K V : Type 0} (dec : Discrete K) (data_at : ℕ → K → V) where
  create_read_cache-parts :
      (name : K) (ttl_ms entries : ℕ) (c : ReadCache K V)
      → create_read_cache name ttl_ms entries ≡ some c
      → (c.cache.entries ≡ [])
        × (create_flights (record { max_fills = 8; max_waiters_per_fill = 32; response_ms = 3_000 })
            ≡ some c.flights)
  unfolding create_read_cache create_cache create_flights
  create_read_cache-parts name ttl_ms entries c e = ground (arith, e)

  create_read_cache-IsFresh :
      (name : K) (ttl_ms entries : ℕ) (c : ReadCache K V)
      → create_read_cache name ttl_ms entries ≡ some c
      → IsFresh dec data_at (record { cache = c; callers = []; loads = []; version = 0; floor = 0 })
  unfolding lookup IsAll
  create_read_cache-IsFresh name ttl_ms entries c e =
      let (none_cached, made) = create_read_cache-parts name ttl_ms entries c e in
      let (_, b) = create_flights-IsBounded dec _ c.flights made in
      record {
        bounded = b;
        order = omega arith;
        cached = rw (none_cached) (ground arith);
        known = λ i l p. absurd (nothing i l p);
        unended = λ i l s p. absurd (nothing i l p);
        past = λ i n p. absurd (nothing i _ p);
        read = λ i n s p. absurd (nothing i _ p);
      }
    where
      nothing : (i : ℕ) (l : Load V) → lookup ℕ_discrete i [] ≢ some l
      nothing i l p = ground (arith, p)

  begin_fill-IsFresh :
      (u : Scene K V) (i : ℕ) (s : Flight K V)
      → object dec i u.cache.flights ≡ some s
      → s.settled ≡ none
      → IsFresh dec data_at u
      → IsFresh dec data_at
          (record u { cache = begin_fill dec u.cache; loads = set ℕ_discrete i asked u.loads })
  unfolding begin_fill
  begin_fill-IsFresh u i s o n h =
      loads-IsFresh dec data_at u _ i asked h refl refl refl refl refl h.cached
        (object-lt dec data_at u i s h o) (λ t _ p. ground (arith, n, o, p))
        (λ m q. absurd (ground (arith, q)))

  answer-IsFresh :
      (u : Scene K V) (i : ℕ)
      → lookup ℕ_discrete i u.loads ≡ some asked
      → IsFresh dec data_at u
      → IsFresh dec data_at (record u { loads = set ℕ_discrete i (answered u.version) u.loads })
  answer-IsFresh u i e h =
      loads-IsFresh dec data_at u _ i (answered u.version) h refl refl refl refl refl h.cached
        (h.known i asked e) (λ t q p. h.unended i asked t e refl p)
        (λ m q. ground (arith, q, h.order))

  load_failed-IsFresh :
      (u : Scene K V) (i : ℕ)
      → lookup ℕ_discrete i u.loads ≡ some asked
      → IsFresh dec data_at u
      → IsFresh dec data_at (record u {
        cache = (load_failed dec u.cache).0;
        loads = set ℕ_discrete i (ended (load_failed dec u.cache).1) u.loads;
      })
  unfolding load_failed
  load_failed-IsFresh u i e h =
      loads-IsFresh dec data_at u _ i (ended none) h refl refl refl refl refl h.cached
        (h.known i asked e) (λ t q p. absurd (ground (arith, q)))
        (λ m q. absurd (ground (arith, q)))

  leave-IsFresh :
      (u : Scene K V) (before : List ℕ) (i : ℕ) (after : List ℕ)
      → u.callers ≡ before ++ i ∷ after
      → IsFresh dec data_at u
      → IsFresh dec data_at (record u {
        cache = record u.cache { flights = leave dec i u.cache.flights };
        callers = before ++ after;
      })
  unfolding IsAged
  leave-IsFresh u before i after e h =
      let f = u.cache.flights in
      let moved =
        count-IsBounded dec f u.callers (i ∷ (before ++ after))
          (λ j. count-move i j before after ∙ ap (count j) (sym e)) h.bounded in
      aged-IsFresh dec data_at u _ h refl refl refl
        (leave-IsBounded dec i f (before ++ after) moved) h.cached
        (omega (arith, leave-next dec i f)) (λ j t _. leave-IsAged dec i f j t)

  Reach-IsFresh : (u : Scene K V) → Reach dec data_at u → IsFresh dec data_at u
  Reach-IsFresh _ (empty name ttl_ms entries c e) =
      create_read_cache-IsFresh name ttl_ms entries c e
  Reach-IsFresh _ (then_edit {u = u} r) = edit-IsFresh dec data_at u (Reach-IsFresh u r)
  Reach-IsFresh _ (then_invalidate {u = u} r) = invalidate-IsFresh dec data_at u (Reach-IsFresh u r)
  Reach-IsFresh _ (then_read {u = u} k now started boarding r) =
      read-IsFresh dec data_at u k now started boarding (Reach-IsFresh u r)
  Reach-IsFresh _ (then_begin {u = u} i s o n l r) =
      begin_fill-IsFresh u i s o n (Reach-IsFresh u r)
  Reach-IsFresh _ (then_answer {u = u} i e r) = answer-IsFresh u i e (Reach-IsFresh u r)
  Reach-IsFresh _ (then_value {u = u} i n s small now stored e o r) =
      load_value-IsFresh dec data_at u i n s small now stored e o (Reach-IsFresh u r)
  Reach-IsFresh _ (then_fail {u = u} i e r) = load_failed-IsFresh u i e (Reach-IsFresh u r)
  Reach-IsFresh _ (then_end {u = u} i s outcome e o n r) =
      end_fill-IsFresh dec data_at u i s outcome e o n (Reach-IsFresh u r)
  Reach-IsFresh _ (then_leave {u = u} before i after e r) =
      leave-IsFresh u before i after e (Reach-IsFresh u r)

  hit-lookup :
      (k : K) (now started boarding : ℕ) (v : V) (c : ReadCache K V)
      → (read_cache dec k now started boarding c).1 ≡ hit v
      → (e : CachedValue V) × (lookup dec k c.cache.entries ≡ some e) × (e.value ≡ v)
  unfolding read_cache get
  hit-lookup k now started boarding v c h = elim (Option-cases (lookup dec k c.cache.entries)) [
    | inl n ↦ absurd (ground (arith, h, n))
    | inr (e, n) ↦ elim (Bool-cases (ltb now e.expires)) [
      | inl y ↦ (e, n, ground (arith, h, n, y))
      | inr y ↦ absurd (ground (arith, h, n, y))
    ]
  ]

  -- Whatever reads, fills, failures and invalidations came before, in whatever order, and however the data
  -- was edited meanwhile: a hit is the value of the key in a version of the data that is not older than
  -- the last invalidation.
  pub Reach-IsSince :
      (u : Scene K V) (k : K) (now started boarding : ℕ) (v : V)
      → Reach dec data_at u
      → (read_cache dec k now started boarding u.cache).1 ≡ hit v
      → IsSince data_at u.floor u.version k v
  Reach-IsSince u k now started boarding v r e =
      let h = Reach-IsFresh u r in
      let (f, found, same) = hit-lookup k now started boarding v u.cache e in
      let all = IsAll-lookup dec (IsSinceEntry dec data_at u.floor u.version) k f in
      let (n, low, high, it) = all u.cache.cache.entries h.cached found in
      (n, low, high, sym same ∙ it)
