-- ===== src/Flight/Ages.antt =====
-- How the flights age (backend/src/lib/boundedSingleFlight.ts): a flight object keeps its key and its
-- promise, and is never made current again, until its work ends.
use eki.Flight.Defs.{
  new_flight, take_off, run_flight, in_scope, invalidate_flights, finish, Flight, Flights, object,
  store, board, fence, leave,
}
use eki.Prelude.OrderedMap.{lookup, lookup-set}
use eki.Prelude.{
  ◌≤◌, ◌<◌, ◌⊎◌, ◌≢◌, ◌+◌, Bool-cases, ◌<◌, sym, ◌∙◌, ℕ, List, Option, true, false, none, some, [],
  ◌∷◌, ◌≡◌, inl, inr, arith, Option-cases, ℕ_discrete, refl,
}

-- An object of flights is a later state of an object of earlier flights.
pub record IsLater {K T : Type 0} (s t : Flight K T) : Type 0 where
  pub key : t.key ≡ s.key
  pub settled : t.settled ≡ s.settled
  pub current : t.current ≡ true → s.current ≡ true

module _ {K T : Type 0} (dec : Discrete K) where
  -- Each object is a later state of one before.
  unfoldable pub IsAged : Flights K T → Flights K T → Type 0
  IsAged f g =
      (j : ℕ) (t : Flight K T)
      → object dec j g ≡ some t
      → (s : Flight K T) × (object dec j f ≡ some s) × IsLater s t

  store-IsAged :
      (i : ℕ) (s t : Flight K T) (f : Flights K T)
      → object dec i f ≡ some s
      → IsLater s t
      → IsAged f (store dec i t f)
  unfolding IsAged
  store-IsAged i s t f o l j u e =
      let at = lookup-set ℕ_discrete i j t f.objects in
      elim (ℕ_discrete i j) [
        | yes same ↦ let it : t ≡ u = ground (arith, at) in (s, ground (arith, o), rw (sym it) l)
        | no other ↦
            (u, ground (arith, at), record { key = refl; settled = refl; current = λ c. c })
      ]

  itself-IsAged : (f : Flights K T) → IsAged f f
  unfolding IsAged
  itself-IsAged f j t e = (t, e, record { key = refl; settled = refl; current = λ c. c })

  IsAged-trans : (f g h : Flights K T) → IsAged f g → IsAged g h → IsAged f h
  unfolding IsAged
  IsAged-trans f g h first then j u e =
      let (t, o, l) = then j u e in
      let (s, p, k) = first j t o in
      (
        s,
        p,
        record {
          key = l.key ∙ k.key;
          settled = l.settled ∙ k.settled;
          current = λ c. k.current (l.current c);
        },
      )

  pub leave-IsAged : (i : ℕ) (f : Flights K T) → IsAged f (leave dec i f)
  unfolding leave
  leave-IsAged i f = elim (Option-cases (object dec i f)) [
    | inl n ↦ rw (n, leave) (itself-IsAged f)
    | inr (s, o) ↦
        rw (o, leave)
          (store-IsAged i s _ f o (record { key = refl; settled = refl; current = λ c. c }))
  ]

  board-IsAged : (i now : ℕ) (f : Flights K T) → IsAged f (board dec i now f).0
  board-IsAged i now f = elim (Option-cases (object dec i f)) [
    | inl n ↦
        let eq : (board dec i now f).0 ≡ f = unfold board in ground (arith, n) in
        rw eq (itself-IsAged f)
    | inr (s, o) ↦
        let t : Flight K T = record s { waiters = s.waiters + 1 } in
        let eq : ((board dec i now f).0 ≡ f) ⊎ ((board dec i now f).0 ≡ store dec i t f) =
          unfold board in ground (arith, o) in
        elim eq [
          | inl same ↦ rw same (itself-IsAged f)
          | inr more ↦
              rw more
                (store-IsAged i s t f o (record { key = refl; settled = refl; current = λ c. c }))
        ]
  ]

  fence-IsAged :
      (scope : Option K) (m : List (K × ℕ)) (f : Flights K T) → IsAged f (fence dec scope m f)
  unfolding fence
  fence-IsAged scope [] f = itself-IsAged f
  fence-IsAged scope ((_, i) ∷ m) f = elim (Option-cases (object dec i f)) [
    | inl n ↦ rw (n, fence) (fence-IsAged scope m f)
    | inr (s, o) ↦
        let t : Flight K T = record s { current = false } in
        let g = store dec i t f in
        let step =
          store-IsAged i s t f o
            (record { key = refl; settled = refl; current = λ c. absurd (ground (arith, c)) }) in
        rw (o, fence)
          (elim (Bool-cases (in_scope dec scope s)) [
            | inl y ↦ rw (y) (IsAged-trans f g (fence dec scope m g) step (fence-IsAged scope m g))
            | inr y ↦ rw (y) (fence-IsAged scope m f)
          ])
  ]

  -- A flight of the list is not current afterwards.
  fence-current :
      (k : K) (m : List (K × ℕ)) (f : Flights K T) (i : ℕ) (t : Flight K T)
      → lookup dec k m ≡ some i
      → object dec i (fence dec none m f) ≡ some t
      → t.current ≡ false
  unfolding fence lookup IsAged
  fence-current k [] f i t l o = ground (arith, l)
  fence-current k ((q, j) ∷ m) f i t l o = elim (Option-cases (object dec j f)) [
    | inl n ↦ elim (dec q k) [
      | yes same ↦
          let (s, p, _) = fence-IsAged none m f i t (ground (arith, o, n)) in
          absurd (ground (arith, l, same, n, p))
      | no other ↦ fence-current k m f i t (ground (arith, l)) (ground (arith, o, n))
    ]
    | inr (s, p) ↦
        let g = store dec j (record s { current = false }) f in
        elim (dec q k) [
          | yes same ↦
              let (u, r, later) = fence-IsAged none m g i t (ground (arith, o, p)) in
              elim (Bool-cases t.current) [
                | inl c ↦ absurd (
                    ground (
                      arith,
                      later.current c,
                      r,
                      l,
                      same,
                      lookup-set ℕ_discrete j i (record s { current = false }) f.objects,
                    ))
                | inr c ↦ c
              ]
          | no other ↦ fence-current k m g i t (ground (arith, l)) (ground (arith, o, p))
        ]
  ]

  -- After an invalidation of all scopes no flight in the map is current.
  pub invalidate_flights-current :
      (k : K) (f : Flights K T) (i : ℕ) (t : Flight K T)
      → lookup dec k f.flights ≡ some i
      → object dec i (invalidate_flights dec none f) ≡ some t
      → t.current ≡ false
  unfolding invalidate_flights
  invalidate_flights-current k f i t = fence-current k f.flights f i t

  pub invalidate_flights-IsAged :
      (scope : Option K) (f : Flights K T) → IsAged f (invalidate_flights dec scope f)
  unfolding invalidate_flights
  invalidate_flights-IsAged scope f = fence-IsAged scope f.flights f

  take_off-object :
      (k scope : K) (now i : ℕ) (f g : Flights K T) (j : ℕ)
      → j < f.next_flight
      → take_off dec k scope now f ≡ some (g, i)
      → object dec j f ≡ object dec j g
  unfolding take_off
  take_off-object k scope now i f g j low e =
      ground (arith, e, lookup-set ℕ_discrete f.next_flight j (new_flight k scope now) f.objects)

  -- A run changes the flights that there were only in their waiters.
  pub run_flight-IsAged :
      (k scope : K) (started now : ℕ) (f : Flights K T) (j : ℕ) (t : Flight K T)
      → j < f.next_flight
      → object dec j (run_flight dec k scope started now f).0 ≡ some t
      → (s : Flight K T) × (object dec j f ≡ some s) × IsLater s t
  unfolding IsAged
  run_flight-IsAged k scope started now f j t low o =
      let run = run_flight dec k scope started now f in
      elim (Option-cases (take_off dec k scope started f)) [
        | inl n ↦
            let eq : run.0 ≡ f = unfold run_flight in ground (arith, n) in
            (t, ground (arith, o, eq), record { key = refl; settled = refl; current = λ c. c })
        | inr ((g, i), e) ↦
            let eq : run.0 ≡ (board dec i now g).0 = unfold run_flight in ground (arith, e) in
            let (s, p, l) = board-IsAged i now g j t (ground (arith, o, eq)) in
            (s, take_off-object k scope started i f g j low e ∙ p, l)
      ]

  -- The end of a work settles its own flight.
  pub finish-IsAged :
      (i : ℕ) (outcome : Option T) (f : Flights K T) (j : ℕ) (t : Flight K T)
      → i ≢ j
      → object dec j (finish dec i outcome f) ≡ some t
      → object dec j f ≡ some t
  unfolding finish
  finish-IsAged i outcome f j t n o = elim (Option-cases (object dec i f)) [
    | inl e ↦ ground (arith, o, e)
    | inr (s, e) ↦
        ground
          (arith, o, e, lookup-set ℕ_discrete i j (record s { settled = some outcome }) f.objects)
  ]

  -- Names of flights are not used again.
  pub run_flight-next :
      (k scope : K) (started now : ℕ) (f : Flights K T)
      → f.next_flight ≤ (run_flight dec k scope started now f).0.next_flight
  unfolding run_flight take_off board
  run_flight-next k scope started now f = ground arith

  pub leave-next : (i : ℕ) (f : Flights K T) → (leave dec i f).next_flight ≡ f.next_flight
  unfolding leave
  leave-next i f = ground arith

  pub finish-next :
      (i : ℕ) (outcome : Option T) (f : Flights K T)
      → (finish dec i outcome f).next_flight ≡ f.next_flight
  unfolding finish
  finish-next i outcome f = ground arith

  fence-next :
      (scope : Option K) (m : List (K × ℕ)) (f : Flights K T)
      → (fence dec scope m f).next_flight ≡ f.next_flight
  unfolding fence
  fence-next scope [] f = refl
  fence-next scope ((_, i) ∷ m) f = elim (Option-cases (object dec i f)) [
    | inl n ↦ rw (n, fence) (fence-next scope m f)
    | inr (s, o) ↦
        rw (o, fence)
          (elim (Bool-cases (in_scope dec scope s)) [
            | inl y ↦ rw (y) (fence-next scope m (store dec i (record s { current = false }) f))
            | inr y ↦ rw (y) (fence-next scope m f)
          ])
  ]

  pub invalidate_flights-next :
      (scope : Option K) (f : Flights K T)
      → (invalidate_flights dec scope f).next_flight ≡ f.next_flight
  unfolding invalidate_flights
  invalidate_flights-next scope f = fence-next scope f.flights f
