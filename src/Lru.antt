-- ===== src/Lru.antt =====
-- `LruCache` of backend/src/lib/lruCache.ts: the entries in the order of their last use, the oldest
-- first. An eviction hook gets the evicted entries, which `put` (`set` there) returns in order.
use eki.Prelude.OrderedMap.{lookup-remove_self, remove, IsDistinct, set, lookup}
use eki.Prelude.{
  length-append, ◌∙◌, ◌+◌, refl, min, length, ◌==◌, arith, ltb, some, ◌++◌, ◌≡◌, if◌then◌else◌,
  none, ℕ, List, Option, ◌∷◌, [],
}

pub record LruCache (K V : Type 0) : Type 0 where
  pub max_size : ℕ
  pub entries : List (K × V)

-- The constructor, `none` where it throws.
unfoldable pub create_cache : {K V : Type 0} → ℕ → Option (LruCache K V)
create_cache max_size =
    if max_size == 0 then none else some (record { max_size = max_size; entries = [] })

-- The loop of `set`: the entries that stay, and the evicted ones.
unfoldable pub evict : {K V : Type 0} → ℕ → List (K × V) → List (K × V) × List (K × V)
evict max_size [] = ([], [])
evict max_size (e ∷ m) =
    let rest = evict max_size m in
    if ltb max_size (length (e ∷ m)) then (rest.0, e ∷ rest.1) else (e ∷ m, [])

module _ {K V : Type 0} (dec : Discrete K) where
  -- The entry is deleted and inserted again, so that it comes last.
  unfoldable pub use_entry : K → V → List (K × V) → List (K × V)
  use_entry k v m = set dec k v (remove dec k m)

  unfoldable pub get : K → LruCache K V → LruCache K V × Option V
  unfolding use_entry
  get k c = elim (lookup dec k c.entries) [
    | none ↦ (c, none)
    | some v ↦ (record c { entries = use_entry k v c.entries }, some v)
  ]

  unfoldable pub put : K → V → LruCache K V → LruCache K V × List (K × V)
  unfolding evict use_entry
  put k v c =
      let kept = evict c.max_size (use_entry k v c.entries) in
      (record c { entries = kept.0 }, kept.1)

  set-absent :
      (k : K) (v : V) (m : List (K × V)) → lookup dec k m ≡ none → set dec k v m ≡ m ++ (k, v) ∷ []
  unfolding set lookup
  set-absent k v [] h = refl
  set-absent k v ((j, w) ∷ m) h = ground (arith, set-absent k v m)

  use_entry-last :
      (k : K) (v : V) (m : List (K × V))
      → IsDistinct dec m
      → use_entry k v m ≡ remove dec k m ++ (k, v) ∷ []
  unfolding use_entry
  use_entry-last k v m h = set-absent k v (remove dec k m) (lookup-remove_self dec k m h)

evict-order :
    {K V : Type 0}
    → (n : ℕ) (m : List (K × V))
    → ((evict n m).1 ++ (evict n m).0 ≡ m) × (length (evict n m).0 ≡ min n (length m))
unfolding evict
evict-order n [] = (refl, ground arith)
evict-order n (e ∷ m) = grind (arith, evict-order n m)

module _ {K V : Type 0} (dec : Discrete K) where
  -- In a cache without a key twice, storing a value under a key evicts a first part of the entries
  -- in their order of use, with the key's own moved to the end, and keeps the rest, as many as fit.
  pub put-order :
      (k : K) (v : V) (c : LruCache K V)
      → IsDistinct dec c.entries
      → ((put dec k v c).1 ++ (put dec k v c).0.entries ≡ remove dec k c.entries ++ (k, v) ∷ [])
        × (length (put dec k v c).0.entries ≡ min c.max_size (length (remove dec k c.entries) + 1))
  unfolding put
  put-order k v c h =
      let (order, size) = evict-order c.max_size (use_entry dec k v c.entries) in
      let last = use_entry-last dec k v c.entries h in
      (order ∙ last, size ∙ rw (last, length-append (remove dec k c.entries) ((k, v) ∷ [])) refl)
