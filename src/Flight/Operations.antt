-- ===== src/Flight/Operations.antt =====
-- What each operation on the flights keeps (backend/src/lib/boundedSingleFlight.ts).
use eki.Flight.Invariant.{unsettled, store-IsBounded, new_flight-IsBounded, IsBounded, count}
use eki.Prelude.OrderedMap.{total, set, lookup}
use eki.Flight.Defs.{
  new_flight, store, invalidate_flights, create_flights, FlightBudgets, run_flight, deadline_error,
  in_scope, capacity_error, waiting, Admission, take_off, board, leave, finish, fence, Flights,
  object,
}
use mathlib.Core.Path.{subst}
use eki.Prelude.{
  ℕ_discrete, false, ◌-◌, leb, Bool-cases, inr, inl, Option, Option-cases, ℕ, List, some, [], ◌∷◌,
  ◌==◌, ◌+◌, ◌≡◌, arith, refl,
}

abbrev pub with_caller : Admission → List ℕ → List ℕ
with_caller capacity_error cs = cs
with_caller deadline_error cs = cs
with_caller (waiting i _) cs = i ∷ cs

module _ {K T : Type 0} (dec : Discrete K) where
  board-IsBounded :
      (i now : ℕ) (f : Flights K T) (cs : List ℕ)
      → IsBounded dec f cs
      → IsBounded dec (board dec i now f).0 (with_caller (board dec i now f).1 cs)
  unfolding board count
  board-IsBounded i now f cs h = elim (Option-cases (object dec i f)) [
    | inl n ↦ rw (n, board) h
    | inr (s, o) ↦
        let full = leb f.options.max_waiters_per_fill s.waiters in
        let over = ((f.options.response_ms + s.started_at) - now) == 0 in
        rw (o, board)
          (elim (Bool-cases full) [
            | inl y ↦ rw (y) h
            | inr y ↦ rw (y) (elim (Bool-cases over) [
              | inl z ↦ rw (z) h
              | inr z ↦ rw (z) (
                  store-IsBounded dec i s (record s { waiters = s.waiters + 1 }) f cs (i ∷ cs) h o
                    refl refl (ground (arith, h.counted i s o)) (ground (arith, h.counted i s o))
                    (λ j n. ground arith))
            ])
          ])
  ]

  take_off-IsBounded :
      (k scope : K) (now i : ℕ) (f g : Flights K T) (cs : List ℕ)
      → IsBounded dec f cs
      → take_off dec k scope now f ≡ some (g, i)
      → IsBounded dec g cs
  unfolding take_off
  take_off-IsBounded k scope now i f g cs h e = elim (Option-cases (lookup dec k f.flights)) [
    | inr (j, l) ↦ let same : f ≡ g = ground (arith, l, e) in subst (λ x. IsBounded dec x cs) same h
    | inl l ↦
        let next : Flights K T = record f {
          flights = set dec k f.next_flight f.flights;
          objects = set ℕ_discrete f.next_flight (new_flight k scope now) f.objects;
          next_flight = f.next_flight + 1;
        } in
        let same : next ≡ g = ground (arith, l, e) in
        subst (λ x. IsBounded dec x cs) same
          (new_flight-IsBounded dec k scope now f cs h l (ground (arith, l, e)))
  ]

  pub leave-IsBounded :
      (i : ℕ) (f : Flights K T) (cs : List ℕ)
      → IsBounded dec f (i ∷ cs)
      → IsBounded dec (leave dec i f) cs
  unfolding leave count
  leave-IsBounded i f cs h = elim (Option-cases (object dec i f)) [
    | inl n ↦
        rw (n, leave)
          (record {
            fills = h.fills;
            distinct = h.distinct;
            running = h.running;
            mapped = h.mapped;
            flying = h.flying;
            counted = λ j s e. ground (arith, h.counted j s e, n);
            fresh = λ j l. ground (arith, h.fresh j l);
          })
    | inr (s, o) ↦
        rw (o, leave)
          (store-IsBounded dec i s (record s { waiters = s.waiters - 1 }) f (i ∷ cs) cs h o refl
            refl (ground (arith, h.counted i s o)) (ground (arith, h.counted i s o))
            (λ j n. ground arith))
  ]

  fence-IsBounded :
      (scope : Option K) (m : List (K × ℕ)) (f : Flights K T) (cs : List ℕ)
      → IsBounded dec f cs
      → IsBounded dec (fence dec scope m f) cs
  unfolding fence
  fence-IsBounded scope [] f cs h = h
  fence-IsBounded scope ((_, i) ∷ m) f cs h = elim (Option-cases (object dec i f)) [
    | inl n ↦ rw (n, fence) (fence-IsBounded scope m f cs h)
    | inr (s, o) ↦
        rw (o, fence)
          (elim (Bool-cases (in_scope dec scope s)) [
            | inl y ↦ rw (y) (
                fence-IsBounded scope m _ cs (
                  store-IsBounded dec i s (record s { current = false }) f cs cs h o refl refl
                    (h.counted i s o).0 (h.counted i s o).1 (λ _ _. refl)))
            | inr y ↦ rw (y) (fence-IsBounded scope m f cs h)
          ])
  ]

  pub run_flight-IsBounded :
      (k scope : K) (started now : ℕ) (f : Flights K T) (cs : List ℕ)
      → IsBounded dec f cs
      → IsBounded dec
          (run_flight dec k scope started now f).0
          (with_caller (run_flight dec k scope started now f).1 cs)
  run_flight-IsBounded k scope started now f cs h =
      let run = run_flight dec k scope started now f in
      elim (Option-cases (take_off dec k scope started f)) [
        | inl n ↦
            let eq : run ≡ (f, capacity_error) = unfold run_flight in ground (arith, n) in rw eq h
        | inr ((g, i), e) ↦
            let eq : run ≡ board dec i now g = unfold run_flight in ground (arith, e) in
            rw eq (board-IsBounded i now g cs (take_off-IsBounded k scope started i f g cs h e))
      ]

pub create_flights-IsBounded :
    {K T : Type 0}
    → (dec : Discrete K) (o : FlightBudgets) (f : Flights K T) → create_flights o ≡ some f
    → (f.options ≡ o) × IsBounded dec f []
unfolding create_flights unsettled lookup count total
create_flights-IsBounded {K = K} {T = T} dec o f e =
    let empty : Flights K T = record { options = o; flights = []; objects = []; next_flight = 0 } in
    let same : empty ≡ f = ground (arith, e) in
    subst (λ x. (x.options ≡ o) × IsBounded dec x []) same
      (
        refl,
        record {
          fills = omega arith;
          distinct = ground arith;
          running = refl;
          mapped = λ k i p. absurd (ground (arith, p));
          flying = λ i s p. absurd (ground (arith, p));
          counted = λ i s p. absurd (ground (arith, p));
          fresh = λ i l. (refl, refl);
        },
      )

module _ {K T : Type 0} (dec : Discrete K) where
  -- The budgets stay.
  pub run_flight-options :
      (k scope : K) (started now : ℕ) (f : Flights K T)
      → (run_flight dec k scope started now f).0.options ≡ f.options
  unfolding run_flight take_off board
  run_flight-options k scope started now f = ground arith

  pub finish-options :
      (i : ℕ) (outcome : Option T) (f : Flights K T) → (finish dec i outcome f).options ≡ f.options
  unfolding finish
  finish-options i outcome f = ground arith

  pub leave-options : (i : ℕ) (f : Flights K T) → (leave dec i f).options ≡ f.options
  unfolding leave
  leave-options i f = ground arith

  fence-options :
      (scope : Option K) (m : List (K × ℕ)) (f : Flights K T)
      → (fence dec scope m f).options ≡ f.options
  unfolding fence
  fence-options scope [] f = refl
  fence-options scope ((_, i) ∷ m) f = elim (Option-cases (object dec i f)) [
    | inl n ↦ rw (n, fence) (fence-options scope m f)
    | inr (s, o) ↦
        rw (o, fence)
          (elim (Bool-cases (in_scope dec scope s)) [
            | inl y ↦ rw (y) (fence-options scope m (store dec i (record s { current = false }) f))
            | inr y ↦ rw (y) (fence-options scope m f)
          ])
  ]

  pub invalidate_flights-IsBounded :
      (scope : Option K) (f : Flights K T) (cs : List ℕ)
      → IsBounded dec f cs
      → ((invalidate_flights dec scope f).options ≡ f.options)
        × IsBounded dec (invalidate_flights dec scope f) cs
  unfolding invalidate_flights
  invalidate_flights-IsBounded scope f cs h =
      (fence-options scope f.flights f, fence-IsBounded dec scope f.flights f cs h)
