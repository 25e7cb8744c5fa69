-- ===== src/ReadCache/Entries.antt =====
-- What holds of every entry of a cache (backend/src/lib/lruCache.ts) through its operations.
use eki.Lru.{LruCache, get, put, evict, use_entry}
use eki.Prelude.OrderedMap.{lookup, set, remove}
use mathlib.Core.Path.{subst}
use eki.Prelude.{
  length, ltb, Bool-cases, if_pos, if_neg, ℕ, List, some, [], ◌∷◌, ◌≡◌, arith, Option-cases, inl,
  inr,
}

unfoldable pub IsAll : {K V : Type 0} → (K → V → Type 0) → List (K × V) → Type 0
IsAll P [] = Unit
IsAll P ((k, v) ∷ m) = P k v × IsAll P m

pub IsAll-mono :
    {K V : Type 0}
    → (P Q : K → V → Type 0) → ((k : K) (v : V) → P k v → Q k v)
    → (m : List (K × V)) → IsAll P m
    → IsAll Q m
unfolding IsAll
IsAll-mono P Q f [] h = h
IsAll-mono P Q f ((k, v) ∷ m) h = (f k v h.0, IsAll-mono P Q f m h.1)

module _ {K V : Type 0} (dec : Discrete K) (P : K → V → Type 0) where
  pub IsAll-lookup :
      (k : K) (v : V) (m : List (K × V)) → IsAll P m → lookup dec k m ≡ some v → P k v
  unfolding IsAll lookup
  IsAll-lookup k v [] h e = absurd (ground (arith, e))
  IsAll-lookup k v ((j, w) ∷ m) h e = elim (dec j k) [
    | yes q ↦
        let same : w ≡ v = ground (arith, e, q) in
        subst (λ x. P k x) same (subst (λ x. P x w) q h.0)
    | no q ↦ IsAll-lookup k v m h.1 (ground (arith, e, q))
  ]

  set-IsAll : (k : K) (v : V) (m : List (K × V)) → P k v → IsAll P m → IsAll P (set dec k v m)
  unfolding IsAll set
  set-IsAll k v [] p h = (p, h)
  set-IsAll k v ((j, w) ∷ m) p h = elim (dec j k) [
    | yes e ↦ rw (if_pos _ e) (rw e p, h.1)
    | no e ↦ rw (if_neg _ e) (h.0, set-IsAll k v m p h.1)
  ]

  remove-IsAll : (k : K) (m : List (K × V)) → IsAll P m → IsAll P (remove dec k m)
  unfolding IsAll remove
  remove-IsAll k [] h = h
  remove-IsAll k ((j, w) ∷ m) h = elim (dec j k) [
    | yes e ↦ rw (if_pos _ e) h.1
    | no e ↦ rw (if_neg _ e) (h.0, remove-IsAll k m h.1)
  ]

  evict-IsAll : (n : ℕ) (m : List (K × V)) → IsAll P m → IsAll P (evict n m).0
  unfolding IsAll evict
  evict-IsAll n [] h = h
  evict-IsAll n (e ∷ m) h = elim (Bool-cases (ltb n (length (e ∷ m)))) [
    | inl b ↦ rw (b) (evict-IsAll n m h.1)
    | inr b ↦ rw (b) h
  ]

  pub get-IsAll : (k : K) (c : LruCache K V) → IsAll P c.entries → IsAll P (get dec k c).0.entries
  get-IsAll k c h = elim (Option-cases (lookup dec k c.entries)) [
    | inl e ↦ let eq : (get dec k c).0 ≡ c = unfold get in ground (arith, e) in rw eq h
    | inr (v, e) ↦
        let m = remove dec k c.entries in
        let eq : (get dec k c).0.entries ≡ set dec k v m =
          unfold get use_entry in ground (arith, e) in
        rw eq (set-IsAll k v m (IsAll-lookup k v c.entries h e) (remove-IsAll k c.entries h))
  ]

  pub put-IsAll :
      (k : K) (v : V) (c : LruCache K V)
      → P k v
      → IsAll P c.entries
      → IsAll P (put dec k v c).0.entries
  unfolding put use_entry
  put-IsAll k v c p h =
      evict-IsAll c.max_size (set dec k v (remove dec k c.entries))
        (set-IsAll k v (remove dec k c.entries) p (remove-IsAll k c.entries h))
