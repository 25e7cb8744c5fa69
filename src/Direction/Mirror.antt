-- ===== src/Direction/Mirror.antt =====
-- The inference of a departure on the route in the other order (backend/src/services/departureDirection.ts).
use mathlib.Core.List.{reverse as reverse_list}
use mathlib.Core.Option.{map as map_option}
use mathlib.Core.List.{reverse-cons}
use eki.Prelude.{
  Bool-cases, map, Option-cases, zero, suc, sym, length, ◌++◌, ◌-◌, ◌+◌, ◌<◌, ◌≤◌, leb, List, [],
  ◌∷◌, ◌≡◌, refl, ◌∙◌, arith, ap, length-append, true, false, inl, inr, List-cases, Bool, ℕ,
}
use eki.Geo.{LatLng, Float}
use eki.Matching.Segments.{trajectory_heading, vertex}
use eki.Direction.Endpoint.{opposite_ride_direction, forward, reverse, RideDirection}
use eki.Direction.Departure.{
  DepartureSample, path_of, DepartureInput, infer_departure_direction, is_candidate, only_candidate,
  next_stop,
}

abbrev pub mirrored : {N : Type 0} → DepartureInput N → DepartureInput N
mirrored i = record i {
  stops = reverse_list i.stops;
  forward_path = i.reverse_path;
  reverse_path = i.forward_path;
}

length-reverse_list : {A : Type 0} → (l : List A) → length (reverse_list l) ≡ length l
length-reverse_list [] = refl
length-reverse_list (x ∷ l) = omega (
  arith,
  ap length (reverse-cons x l),
  length-append (reverse_list l) (x ∷ []),
  length-reverse_list l,
)

module _ (F : Float) where
  open F use {Num, lit}

  vertex-append :
      (l : List (LatLng Num)) (s : LatLng Num) (k : ℕ)
      → k < length l
      → vertex F (l ++ s ∷ []) k ≡ vertex F l k
  vertex-append [] s k h = absurd (omega (arith, h))
  vertex-append (x ∷ l) s zero h = refl
  vertex-append (x ∷ l) s (suc k) h = vertex-append l s k (omega (arith, h))

  vertex-append_last :
      (l : List (LatLng Num)) (s : LatLng Num) → vertex F (l ++ s ∷ []) (length l) ≡ s
  vertex-append_last [] s = refl
  vertex-append_last (x ∷ l) s = vertex-append_last l s

  vertex-reverse_list :
      (l : List (LatLng Num)) (k m : ℕ)
      → k + m + 1 ≡ length l
      → vertex F (reverse_list l) k ≡ vertex F l m
  vertex-reverse_list [] k m h = absurd (omega (arith, h))
  vertex-reverse_list (x ∷ l) k zero h =
      let last : k ≡ length (reverse_list l) = omega (arith, h, length-reverse_list l) in
      rw (reverse-cons x l, last) (vertex-append_last (reverse_list l) x)
  vertex-reverse_list (x ∷ l) k (suc m) h = rw (reverse-cons x l) (
      vertex-append (reverse_list l) x k (omega (arith, h, length-reverse_list l))
      ∙ vertex-reverse_list l k m (omega (arith, h)))

  next_stop-mirrored :
      (i : DepartureInput Num) (d : RideDirection)
      → 2 ≤ length i.stops
      → next_stop F (mirrored i) d ≡ next_stop F i (opposite_ride_direction d)
  next_stop-mirrored i forward h =
      vertex-reverse_list i.stops 1 (length i.stops - 2) (omega (arith, h))
  next_stop-mirrored i reverse h =
      vertex-reverse_list i.stops (length (reverse_list i.stops) - 2) 1
        (omega (arith, h, length-reverse_list i.stops))

  -- Of the stops and the paths, the test of a direction reads the next stop and one path.
  abbrev departs_along : Num → List (DepartureSample Num) → List (LatLng Num) → LatLng Num → Bool
  departs_along heading samples path next =
      is_candidate F
        (record {
          samples = samples;
          stops = next ∷ next ∷ [];
          forward_path = path;
          reverse_path = path;
          now = lit 0;
        })
        heading forward

  is_candidate-departs_along :
      (i : DepartureInput Num) (heading : Num) (d : RideDirection)
      → is_candidate F i heading d
        ≡ departs_along heading i.samples (path_of F i d) (next_stop F i d)
  unfolding is_candidate
  is_candidate-departs_along i heading forward = refl
  is_candidate-departs_along i heading reverse = refl

  path_of-mirrored :
      (i : DepartureInput Num) (d : RideDirection)
      → path_of F (mirrored i) d ≡ path_of F i (opposite_ride_direction d)
  path_of-mirrored i forward = refl
  path_of-mirrored i reverse = refl

  is_candidate-mirrored :
      (i : DepartureInput Num) (heading : Num) (d : RideDirection)
      → 2 ≤ length i.stops
      → is_candidate F (mirrored i) heading d ≡ is_candidate F i heading (opposite_ride_direction d)
  is_candidate-mirrored i heading d h =
      is_candidate-departs_along (mirrored i) heading d
      ∙ ap (λ path. departs_along heading i.samples path (next_stop F (mirrored i) d))
          (path_of-mirrored i d)
      ∙ ap (departs_along heading i.samples (path_of F i (opposite_ride_direction d)))
          (next_stop-mirrored i d h)
      ∙ sym (is_candidate-departs_along i heading (opposite_ride_direction d))

  only_candidate-mirrored :
      (ahead back : Bool)
      → only_candidate F back ahead
        ≡ map_option opposite_ride_direction (only_candidate F ahead back)
  unfolding only_candidate
  only_candidate-mirrored true true = refl
  only_candidate-mirrored true false = refl
  only_candidate-mirrored false true = refl
  only_candidate-mirrored false false = refl

  candidates-mirrored :
      (i : DepartureInput Num) (heading : Num)
      → leb 2 (length i.stops) ≡ true
      → only_candidate F
          (is_candidate F (mirrored i) heading forward)
          (is_candidate F (mirrored i) heading reverse)
        ≡ map_option opposite_ride_direction
            (only_candidate F (is_candidate F i heading forward) (is_candidate F i heading reverse))
  candidates-mirrored i heading h =
      let enough : 2 ≤ length i.stops = ground (arith, h) in
      rw
        (
          is_candidate-mirrored i heading forward enough,
          is_candidate-mirrored i heading reverse enough,
        )
        (only_candidate-mirrored (is_candidate F i heading forward)
          (is_candidate F i heading reverse))

  -- On the route in the other order, its stops reversed and its two paths exchanged, the same fixes
  -- give the opposite direction, and none exactly where they give none.
  pub infer_departure_direction-mirrored :
      (i : DepartureInput Num)
      → infer_departure_direction F (mirrored i)
        ≡ map_option opposite_ride_direction (infer_departure_direction F i)
  infer_departure_direction-mirrored i = elim (List-cases i.samples) [
    | inl q ↦ unfold infer_departure_direction in ground (arith, q)
    | inr (first, rest, q) ↦
        let size : length (reverse_list i.stops) ≡ length i.stops = length-reverse_list i.stops in
        elim (Option-cases
          (trajectory_heading F (map (λ (s : DepartureSample Num). s.place) i.samples) (lit 30))) [
            | inl t ↦ unfold infer_departure_direction in ground (arith, q, t, size)
            | inr (heading, t) ↦ elim (Bool-cases (leb 2 (length i.stops))) [
              | inl u ↦
                  unfold infer_departure_direction in
                  ground (arith, q, t, u, size, candidates-mirrored i heading u)
              | inr u ↦ unfold infer_departure_direction in ground (arith, q, t, u, size)
            ]
          ]
  ]
