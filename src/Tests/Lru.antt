-- ===== src/Tests/Lru.antt =====
-- A cache of two entries that is full.
use eki.Prelude.OrderedMap.{lookup, remove, set}
use eki.Lru.{put-order, evict, use_entry, get, create_cache, put, LruCache}
use eki.Prelude.{◌+◌, min, length, refl, ◌++◌, ℕ, ◌≡◌, ℕ_discrete, ◌∷◌, []}

program : Unit {0}
unfolding create_cache evict use_entry get put lookup set remove ℕ_discrete
program = tt

abbrev full : LruCache ℕ ℕ
full = record { max_size = 2; entries = (1, 10) ∷ (2, 20) ∷ [] }

put-order_example :
    ((put ℕ_discrete 3 30 full).1 ++ (put ℕ_discrete 3 30 full).0.entries
      ≡ remove ℕ_discrete 3 full.entries ++ (3, 30) ∷ [])
    × (length (put ℕ_discrete 3 30 full).0.entries
        ≡ min 2 (length (remove ℕ_discrete 3 full.entries) + 1))
unfolding ℕ_discrete lookup
put-order_example = put-order ℕ_discrete 3 30 full (refl, (refl, tt))

-- A read makes an entry the last to go.
get-last : (get ℕ_discrete 1 full).0.entries ≡ (2, 20) ∷ (1, 10) ∷ []
unfolding create_cache evict use_entry get put lookup set remove ℕ_discrete
get-last = refl
