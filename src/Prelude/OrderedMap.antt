-- ===== src/Prelude/OrderedMap.antt =====
-- The language's `Map`: entries in the order of insertion. `set` on a present key keeps its place.
use Prim.Native.Nat.{ℕ, ◌+◌, ◌≤◌}
use mathlib.Core.Path.{◌≡◌, refl}
use mathlib.Core.Logic.{◌≢◌, ite, if_pos, if_neg}
use mathlib.Core.Option.{Option, none, some}
use mathlib.Core.List.{List, [], ◌∷◌}
use native.Mathlib.Omega.{arith}

module _ {ℓ} {K V : Type ℓ} (dec : Discrete K) where
  unfoldable pub lookup : K → List (K × V) → Option V
  lookup k [] = none
  lookup k ((j, v) ∷ m) = ite (dec j k) (some v) (lookup k m)

  unfoldable pub set : K → V → List (K × V) → List (K × V)
  set k v [] = (k, v) ∷ []
  set k v ((j, w) ∷ m) = ite (dec j k) ((j, v) ∷ m) ((j, w) ∷ set k v m)

  unfoldable pub remove : K → List (K × V) → List (K × V)
  remove k [] = []
  remove k ((j, w) ∷ m) = ite (dec j k) m ((j, w) ∷ remove k m)

  -- No key twice.
  abbrev pub IsDistinct : List (K × V) → Type ℓ
  IsDistinct [] = Unit
  IsDistinct ((j, w) ∷ m) = (lookup j m ≡ none) × IsDistinct m

  pub lookup-set :
      (k j : K) (v : V) (m : List (K × V))
      → lookup j (set k v m) ≡ ite (dec k j) (some v) (lookup j m)
  unfolding lookup set
  lookup-set k j v [] = refl
  lookup-set k j v ((i, w) ∷ m) = ground (arith, lookup-set k j v m)

  pub lookup-remove_ne : (k j : K) (m : List (K × V)) → k ≢ j → lookup j (remove k m) ≡ lookup j m
  unfolding lookup remove
  lookup-remove_ne k j [] h = refl
  lookup-remove_ne k j ((i, w) ∷ m) h = ground (arith, lookup-remove_ne k j m)

  pub lookup-remove_self : (k : K) (m : List (K × V)) → IsDistinct m → lookup k (remove k m) ≡ none
  unfolding lookup remove
  lookup-remove_self k [] h = refl
  lookup-remove_self k ((i, w) ∷ m) h = ground (arith, lookup-remove_self k m)

  lookup-set_absent :
      (k j : K) (v : V) (m : List (K × V)) → j ≢ k → lookup j m ≡ none → lookup j (set k v m) ≡ none
  lookup-set_absent k j v m n h = ground (arith, lookup-set k j v m)

  lookup-remove_absent :
      (k j : K) (m : List (K × V)) → lookup j m ≡ none → lookup j (remove k m) ≡ none
  unfolding lookup remove
  lookup-remove_absent k j [] h = refl
  lookup-remove_absent k j ((i, w) ∷ m) h = ground (arith, lookup-remove_absent k j m)

  pub set-IsDistinct : (k : K) (v : V) (m : List (K × V)) → IsDistinct m → IsDistinct (set k v m)
  unfolding set lookup
  set-IsDistinct k v [] h = ground arith
  set-IsDistinct k v ((i, w) ∷ m) h = elim (dec i k) [
    | yes p ↦ rw (if_pos _ p) h
    | no p ↦ rw (if_neg _ p) (lookup-set_absent k i v m p h.0, set-IsDistinct k v m h.1)
  ]

  pub remove-IsDistinct : (k : K) (m : List (K × V)) → IsDistinct m → IsDistinct (remove k m)
  unfolding remove
  remove-IsDistinct k [] h = h
  remove-IsDistinct k ((i, w) ∷ m) h = elim (dec i k) [
    | yes p ↦ rw (if_pos _ p) h.1
    | no p ↦ rw (if_neg _ p) (lookup-remove_absent k i m h.0, remove-IsDistinct k m h.1)
  ]

  -- Sums over the values.
  unfoldable pub total : (V → ℕ) → List (K × V) → ℕ
  total f [] = 0
  total f ((j, w) ∷ m) = f w + total f m

  -- The measure of the value under a key, 0 if there is none.
  abbrev pub measure : (V → ℕ) → Option V → ℕ
  measure f none = 0
  measure f (some v) = f v

  pub total-set :
      (f : V → ℕ) (k : K) (v : V) (m : List (K × V))
      → total f (set k v m) + measure f (lookup k m) ≡ total f m + f v
  unfolding total set lookup
  total-set f k v [] = omega arith
  total-set f k v ((i, w) ∷ m) = ground (arith, total-set f k v m)

  pub total-remove :
      (f : V → ℕ) (k : K) (m : List (K × V))
      → total f (remove k m) + measure f (lookup k m) ≡ total f m
  unfolding total remove lookup
  total-remove f k [] = omega arith
  total-remove f k ((i, w) ∷ m) = ground (arith, total-remove f k m)

  pub measure-le-total : (f : V → ℕ) (k : K) (m : List (K × V)) → measure f (lookup k m) ≤ total f m
  measure-le-total f k m = omega (arith, total-remove f k m)
