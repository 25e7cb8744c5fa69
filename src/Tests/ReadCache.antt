-- ===== src/Tests/ReadCache.antt =====
-- A value that is read, kept and hit; a fill that an invalidation overtakes.
use eki.ReadCache.Since.{Reach-IsSince}
use eki.ReadCache.Fresh.{IsSince}
use eki.ReadCache.Steps.{
  Scene, Reach, empty, then_edit, then_invalidate, then_read, then_begin, then_answer, then_value,
  asked, ended,
}
use eki.ReadCache.Defs.{
  ReadCache, create_read_cache, read_cache, begin_fill, load_value, load_failed, invalidate_cache,
  hit,
}
use eki.Lru.{create_cache, get, put, use_entry, evict}
use eki.Flight.Defs.{
  Flight, create_flights, run_flight, take_off, board, is_current, new_flight, invalidate_flights,
  fence,
}
use eki.Prelude.OrderedMap.{lookup, set, remove}
use eki.Prelude.{ℕ, [], ◌∷◌, ◌≡◌, refl, some, none, ℕ_discrete, true, ◌+◌, ◌*◌}

-- The version `n` has `100 * n + k` for the key `k`.
abbrev data_at : ℕ → ℕ → ℕ
data_at n k = 100 * n + k

abbrev fresh_cache : ReadCache ℕ ℕ
fresh_cache = record {
  cache_name = 9;
  ttl_ms = 5_000;
  cache = record { max_size = 16; entries = [] };
  flights = record {
    options = record { max_fills = 8; max_waiters_per_fill = 32; response_ms = 3_000 };
    flights = [];
    objects = [];
    next_flight = 0;
  };
  stats = record { hits = 0; fills = 0; failures = 0; invalidations = 0 };
}

abbrev flight : Flight ℕ ℕ
flight = record (new_flight 4 9 10) { waiters = 1 }

abbrev invalidated : Scene ℕ ℕ
invalidated = record {
  cache = invalidate_cache ℕ_discrete fresh_cache;
  callers = [];
  loads = [];
  version = 1;
  floor = 1;
}

abbrev asking : Scene ℕ ℕ
asking = record invalidated {
  cache = begin_fill ℕ_discrete (read_cache ℕ_discrete 4 10 10 10 invalidated.cache).0;
  callers = 0 ∷ [];
  loads = (0, asked) ∷ [];
}

abbrev filled : Scene ℕ ℕ
filled = record asking {
  cache = (load_value ℕ_discrete 0 4 104 true 40 41 asking.cache).0;
  loads = (0, ended (some 104)) ∷ [];
}

asking-Reach : Reach ℕ_discrete data_at asking
unfolding begin_fill read_cache invalidate_cache invalidate_flights fence get lookup set run_flight
    ℕ_discrete take_off board create_read_cache create_cache create_flights
asking-Reach =
    then_begin 0 flight refl refl refl
      (then_read 4 10 10 10 (then_invalidate (then_edit (empty 9 5_000 16 fresh_cache refl))))

filled-Reach : Reach ℕ_discrete data_at filled
unfolding load_value load_failed is_current begin_fill read_cache invalidate_cache ℕ_discrete
    invalidate_flights fence get put use_entry evict lookup set remove run_flight take_off board
filled-Reach = then_value 0 1 flight true 40 41 refl refl (then_answer 0 refl asking-Reach)

hits : (read_cache ℕ_discrete 4 50 50 50 filled.cache).1 ≡ hit 104
unfolding load_value load_failed is_current begin_fill read_cache invalidate_cache ℕ_discrete
    invalidate_flights fence get put use_entry evict lookup set remove run_flight take_off board
hits = refl

Reach-IsSince_example : IsSince data_at 1 1 4 104
Reach-IsSince_example = Reach-IsSince ℕ_discrete data_at filled 4 50 50 50 104 filled-Reach hits

-- The work of a flight that was invalidated throws, and nothing is kept.
overtaken :
    (load_value ℕ_discrete 0 4 104 true 40 41 (invalidate_cache ℕ_discrete asking.cache)).1 ≡ none
unfolding load_value load_failed is_current begin_fill read_cache invalidate_cache ℕ_discrete
    invalidate_flights fence get put use_entry evict lookup set remove run_flight take_off board
overtaken = refl
