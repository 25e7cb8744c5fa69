-- ===== src/Flight/Invariant.antt =====
-- The invariant of the flights, and the changes of one flight that keep it (backend/src/lib/boundedSingleFlight.ts).
use eki.Prelude.OrderedMap.{
  remove-IsDistinct, total-remove, lookup-remove_ne, lookup-remove_self, set-IsDistinct, set,
  remove, total-set, lookup, IsDistinct, lookup-set, total,
}
use eki.Flight.Defs.{new_flight, finish, Flight, Flights, object, store}
use eki.Prelude.{
  ◌++◌, ◌<◌, Option, ℕ, List, none, some, [], ◌∷◌, ◌==◌, ◌+◌, length, if◌then◌else◌, ◌≡◌, ◌≤◌, ◌≢◌,
  arith, ℕ_discrete, refl,
}

-- The callers that wait for a flight.
unfoldable pub count : ℕ → List ℕ → ℕ
count i [] = 0
count i (j ∷ js) = (if j == i then 1 else 0) + count i js

unfoldable pub unsettled : {K T : Type 0} → Flight K T → ℕ
unsettled s = elim s.settled [ none ↦ 1 | some _ ↦ 0 ]

total-one : {K V : Type 0} → (dec : Discrete K) (m : List (K × V)) → total dec (λ _. 1) m ≡ length m
unfolding total
total-one dec [] = refl
total-one dec (_ ∷ m) = omega (arith, total-one dec m)

count-append : (i : ℕ) (l r : List ℕ) → count i (l ++ r) ≡ count i l + count i r
unfolding count
count-append i [] r = omega arith
count-append i (j ∷ js) r = omega (arith, count-append i js r)

-- A caller in the middle of the list may stand at its head.
pub count-move :
    (i j : ℕ) (before after : List ℕ)
    → count j (i ∷ (before ++ after)) ≡ count j (before ++ i ∷ after)
unfolding count
count-move i j before after =
    omega (arith, count-append j before after, count-append j before (i ∷ after))

-- The flights of the map are those whose work has not ended, one for a key, and no more than the
-- budget. The waiters of a flight are counted, and no more than the budget.
pub record IsBounded {K T : Type 0} (dec : Discrete K) (f : Flights K T) (callers : List ℕ)
    : Type 0 where
  pub fills : length f.flights ≤ f.options.max_fills
  pub distinct : IsDistinct dec f.flights
  pub running : total ℕ_discrete unsettled f.objects ≡ length f.flights
  pub mapped :
      (k : K) (i : ℕ)
      → lookup dec k f.flights ≡ some i
      → (s : Flight K T) × (object dec i f ≡ some s) × (s.key ≡ k) × (s.settled ≡ none)
  pub flying :
      (i : ℕ) (s : Flight K T)
      → object dec i f ≡ some s
      → s.settled ≡ none
      → lookup dec s.key f.flights ≡ some i
  pub counted :
      (i : ℕ) (s : Flight K T)
      → object dec i f ≡ some s
      → (s.waiters ≡ count i callers) × (s.waiters ≤ f.options.max_waiters_per_fill)
  pub fresh : (i : ℕ) → f.next_flight ≤ i → (object dec i f ≡ none) × (count i callers ≡ 0)

module _ {K T : Type 0} (dec : Discrete K) where
  -- A flight gets another number of waiters, or is not current any more.
  pub store-IsBounded :
      (i : ℕ) (s t : Flight K T) (f : Flights K T) (cs ds : List ℕ)
      → IsBounded dec f cs
      → object dec i f ≡ some s
      → t.key ≡ s.key
      → t.settled ≡ s.settled
      → t.waiters ≡ count i ds
      → t.waiters ≤ f.options.max_waiters_per_fill
      → ((j : ℕ) → i ≢ j → count j ds ≡ count j cs)
      → IsBounded dec (store dec i t f) ds
  unfolding unsettled
  store-IsBounded i s t f cs ds h o key settled waiters low others =
      let at = λ (j : ℕ). lookup-set ℕ_discrete i j t f.objects in
      record {
        fills = h.fills;
        distinct = h.distinct;
        running =
            ground (arith, total-set ℕ_discrete unsettled i t f.objects, h.running, o, settled);
        mapped = λ k j e.
            let (u, p, q, r) = h.mapped k j e in
            elim (ℕ_discrete i j) [
              | yes same ↦ (
                t,
                ground (arith, at j),
                ground (arith, key, o, p, q),
                ground (arith, settled, o, p, r),
              )
              | no other ↦ (u, ground (arith, at j), q, r)
            ];
        flying = λ j u e l. elim (ℕ_discrete i j) [
          | yes same ↦ ground (arith, at j, h.flying i s o, key, settled)
          | no other ↦ h.flying j u (ground (arith, at j)) l
        ];
        counted = λ j u e. elim (ℕ_discrete i j) [
          | yes same ↦ ground (arith, at j, waiters, low)
          | no other ↦ ground (arith, at j, h.counted j u, others j)
        ];
        fresh = λ j l. elim (ℕ_discrete i j) [
          | yes same ↦ ground (arith, h.fresh j l, o)
          | no other ↦ ground (arith, h.fresh j l, at j, others j)
        ];
      }

  -- Only the numbers of callers matter.
  pub count-IsBounded :
      (f : Flights K T) (cs ds : List ℕ)
      → ((j : ℕ) → count j ds ≡ count j cs)
      → IsBounded dec f cs
      → IsBounded dec f ds
  count-IsBounded f cs ds e h = record {
    fills = h.fills;
    distinct = h.distinct;
    running = h.running;
    mapped = h.mapped;
    flying = h.flying;
    counted = λ j s o. ground (arith, h.counted j s o, e j);
    fresh = λ j l. ground (arith, h.fresh j l, e j);
  }

  -- Room in the map: a flight under a key and a name that were not used.
  pub new_flight-IsBounded :
      (k scope : K) (now : ℕ) (f : Flights K T) (cs : List ℕ)
      → IsBounded dec f cs
      → lookup dec k f.flights ≡ none
      → length f.flights < f.options.max_fills
      → IsBounded dec
          (record f {
            flights = set dec k f.next_flight f.flights;
            objects = set ℕ_discrete f.next_flight (new_flight k scope now) f.objects;
            next_flight = f.next_flight + 1;
          })
          cs
  unfolding unsettled
  new_flight-IsBounded k scope now f cs h l room =
      let i = f.next_flight in
      let at = λ (j : ℕ). lookup-set ℕ_discrete i j (new_flight k scope now) f.objects in
      let under = λ (q : K). lookup-set dec k q i f.flights in
      let size = total-set dec (λ _. 1) k i f.flights in
      let before = total-one dec f.flights in
      let after = total-one dec (set dec k i f.flights) in
      let (nothing, nobody) = h.fresh i (omega arith) in
      record {
        fills = ground (arith, size, before, after, room, l);
        distinct = set-IsDistinct dec k i f.flights h.distinct;
        running = ground (
          arith,
          size,
          before,
          after,
          l,
          h.running,
          nothing,
          total-set ℕ_discrete unsettled i (new_flight k scope now) f.objects,
        );
        mapped = λ q j e. elim (dec k q) [
          | yes same ↦ (new_flight k scope now, ground (arith, at j, under q), same, refl)
          | no other ↦
              let (u, p, r, v) = h.mapped q j (ground (arith, under q)) in
              (u, ground (arith, at j, nothing), r, v)
        ];
        flying = λ j u e v. elim (ℕ_discrete i j) [
          | yes same ↦ ground (arith, at j, under k)
          | no other ↦
              let old : object dec j f ≡ some u = ground (arith, at j) in
              let low = h.flying j u old v in ground (arith, low, under u.key, l)
        ];
        counted = λ j u e. elim (ℕ_discrete i j) [
          | yes same ↦ ground (arith, at j, nobody)
          | no other ↦ h.counted j u (ground (arith, at j))
        ];
        fresh = λ j low. let (p, q) = h.fresh j (omega arith) in (ground (arith, at j), q);
      }

  pub finish-IsBounded :
      (i : ℕ) (outcome : Option T) (s : Flight K T) (f : Flights K T) (cs : List ℕ)
      → IsBounded dec f cs
      → object dec i f ≡ some s
      → s.settled ≡ none
      → IsBounded dec (finish dec i outcome f) cs
  unfolding unsettled
  finish-IsBounded i outcome s f cs h o u =
      let t : Flight K T = record s { settled = some outcome } in
      let m = f.flights in
      let own = h.flying i s o u in
      let next : Flights K T = record f {
        flights = remove dec s.key m;
        objects = set ℕ_discrete i t f.objects;
      } in
      let eq : finish dec i outcome f ≡ next = unfold finish in ground (arith, o, own) in
      let at = λ (j : ℕ). lookup-set ℕ_discrete i j t f.objects in
      let gone = lookup-remove_self dec s.key m h.distinct in
      let kept = λ (q : K). lookup-remove_ne dec s.key q m in
      let size = total-remove dec (λ _. 1) s.key m in
      let before = total-one dec m in
      let after = total-one dec (remove dec s.key m) in
      rw eq (record {
        fills = ground (arith, size, before, after, h.fills);
        distinct = remove-IsDistinct dec s.key m h.distinct;
        running = ground (
          arith,
          size,
          before,
          after,
          own,
          h.running,
          o,
          u,
          total-set ℕ_discrete unsettled i t f.objects,
        );
        mapped = λ q j e. elim (dec s.key q) [
          | yes same ↦ absurd (ground (arith, gone))
          | no other ↦
              let (v, p, r, w) = h.mapped q j (ground (arith, kept q)) in
              (v, ground (arith, at j, own, r, p, o), r, w)
        ];
        flying = λ j v e w. elim (ℕ_discrete i j) [
          | yes same ↦ absurd (ground (arith, at j))
          | no other ↦
              let low = h.flying j v (ground (arith, at j)) w in
              ground (arith, low, own, kept v.key)
        ];
        counted = λ j v e. elim (ℕ_discrete i j) [
          | yes same ↦ ground (arith, at j, h.counted i s o)
          | no other ↦ h.counted j v (ground (arith, at j))
        ];
        fresh = λ j low. let (p, q) = h.fresh j low in (ground (arith, at j, o), q);
      })
