-- ===== src/Chat/Recent.antt =====
-- Counting the recent ones among times, in any order and in sorted lists.
use eki.Chat.Defs.{is_within, sort, insert}
use eki.Prelude.{
  inr, inl, ◌&&◌, Bool-cases, leb, zero, ◌-◌, min, refl, suc, arith, if◌then◌else◌, filter, drop,
  ◌∙◌, length, ◌∷◌, [], ℕ, List, Bool, ◌≡◌, ◌≤◌, true,
}

unfoldable pub count_if : (ℕ → Bool) → List ℕ → ℕ
count_if p [] = 0
count_if p (t ∷ ts) = let rest = count_if p ts in if p t then suc rest else rest

abbrev pub is_sorted : List ℕ → Bool
is_sorted [] = true
is_sorted (t ∷ []) = true
is_sorted (t ∷ u ∷ us) = leb t u && is_sorted (u ∷ us)

count_if-insert :
    (p : ℕ → Bool) (t : ℕ) (us : List ℕ) → count_if p (insert t us) ≡ count_if p (t ∷ us)
unfolding count_if insert
count_if-insert p t [] = refl
count_if-insert p t (u ∷ us) = let ih = count_if-insert p t us in ground (arith, ih)

count_if-cons :
    (p : ℕ → Bool) (t : ℕ) (us ts : List ℕ)
    → count_if p us ≡ count_if p ts
    → count_if p (t ∷ us) ≡ count_if p (t ∷ ts)
unfolding count_if
count_if-cons p t us ts h = ground (arith, h)

pub count_if-sort : (p : ℕ → Bool) (ts : List ℕ) → count_if p (sort ts) ≡ count_if p ts
unfolding sort
count_if-sort p [] = refl
count_if-sort p (t ∷ ts) =
    count_if-insert p t (sort ts) ∙ count_if-cons p t (sort ts) ts (count_if-sort p ts)

is_sorted-insert : (t : ℕ) (us : List ℕ) → is_sorted us ≡ true → is_sorted (insert t us) ≡ true
unfolding insert
is_sorted-insert t [] h = refl
is_sorted-insert t (u ∷ []) h = ground arith
is_sorted-insert t (u ∷ v ∷ vs) h =
    let ih = is_sorted-insert t (v ∷ vs) (ground (arith, h)) in ground (arith, ih, h)

pub is_sorted-sort : (ts : List ℕ) → is_sorted (sort ts) ≡ true
unfolding sort
is_sorted-sort [] = refl
is_sorted-sort (t ∷ ts) = is_sorted-insert t (sort ts) (is_sorted-sort ts)

pub count_if-le : (p : ℕ → Bool) (ts : List ℕ) → count_if p ts ≤ length ts
unfolding count_if
count_if-le p [] = omega arith
count_if-le p (t ∷ ts) = let ih = count_if-le p ts in ground (arith, ih)

pub length-filter : (p : ℕ → Bool) (ts : List ℕ) → length (filter p ts) ≡ count_if p ts
unfolding count_if
length-filter p [] = refl
length-filter p (t ∷ ts) = let ih = length-filter p ts in ground (arith, ih)

pub length-insert : (t : ℕ) (us : List ℕ) → length (insert t us) ≡ suc (length us)
unfolding insert
length-insert t [] = refl
length-insert t (u ∷ us) = let ih = length-insert t us in ground (arith, ih)

-- All times of a sorted list after a recent one are recent.
pub all_recent :
    (s now t : ℕ) (us : List ℕ)
    → is_sorted (t ∷ us) ≡ true
    → is_within s now t ≡ true
    → count_if (is_within s now) us ≡ length us
unfolding count_if
all_recent s now t [] h r = refl
all_recent s now t (u ∷ us) h r =
    let ih = all_recent s now u us (ground (arith, h)) (ground (arith, h, r)) in
    ground (arith, h, r, ih)

pub tail_sorted : (t : ℕ) (us : List ℕ) → is_sorted (t ∷ us) ≡ true → is_sorted us ≡ true
tail_sorted t [] h = refl
tail_sorted t (u ∷ us) h = ground (arith, h)

drop_step :
    (s now k t : ℕ) (us : List ℕ)
    → is_sorted (t ∷ us) ≡ true
    → count_if (is_within s now) (drop k us) ≡ min (count_if (is_within s now) us) (length us - k)
    → count_if (is_within s now) (drop k us)
      ≡ min (count_if (is_within s now) (t ∷ us)) (suc (length us) - suc k)
unfolding count_if
drop_step s now k t us h ih =
    let le = count_if-le (is_within s now) us in
    elim (Bool-cases (is_within s now t)) [
      | inl r ↦ let all = all_recent s now t us h r in ground (arith, ih, all, r)
      | inr r ↦ ground (arith, ih, r)
    ]

-- Of the recent times, leaving the first ones out keeps as many as it can.
pub count_if-drop :
    (s now k : ℕ) (ts : List ℕ)
    → is_sorted ts ≡ true
    → count_if (is_within s now) (drop k ts) ≡ min (count_if (is_within s now) ts) (length ts - k)
count_if-drop s now zero ts h = let le = count_if-le (is_within s now) ts in ground (arith, le)
count_if-drop s now (suc k) [] h = unfold count_if in ground arith
count_if-drop s now (suc k) (t ∷ us) h =
    drop_step s now k t us h (count_if-drop s now k us (tail_sorted t us h))
