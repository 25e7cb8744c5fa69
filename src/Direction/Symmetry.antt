-- ===== src/Direction/Symmetry.antt =====
-- What the direction at an endpoint depends on (backend/src/lib/automaticRideDirection.ts).
use mathlib.Core.List.{reverse as reverse_list}
use mathlib.Core.Option.{map as map_option}
use mathlib.Core.List.{reverse-cons}
use eki.Prelude.{inr, inl, Option-cases, ◌∙◌, length-append, arith, ap, refl}
use eki.Geo.{haversine_meters, LatLng, Float}
use eki.Direction.Endpoint.{
  opposite_ride_direction, reverse, valid_coordinate, TurnaroundReadinessInput, last_stop,
  infer_ride_direction_from_telemetry, automatic_turnaround_is_ready, fresh_stopped,
  infer_ride_direction_at_endpoint,
}
use eki.Prelude.{some, length, ◌<◌, ◌++◌, false, true, List, ◌≡◌, ◌∷◌, []}

module _ (F : Float) where
  open F use {Num, lit, add, sub, lt, le, is_finite}

  last_stop-append :
      (first : LatLng Num) (ss : List (LatLng Num)) (s : LatLng Num)
      → last_stop F first (ss ++ s ∷ []) ≡ s
  last_stop-append first [] s = refl
  last_stop-append first (t ∷ ts) s = last_stop-append t ts s

  -- Some stops in the other order, seen from their ends.
  reversed :
      (first : LatLng Num) (rest : List (LatLng Num))
      → (more : List (LatLng Num)) × (reverse_list (first ∷ rest) ≡ last_stop F first rest ∷ more)
        × (last_stop F (last_stop F first rest) more ≡ first)
        × (length more ≡ length rest)
  reversed first [] = ([], refl, refl, refl)
  reversed first (s ∷ ss) =
      let (more, turned, last, size) = reversed s ss in
      (
        more ++ first ∷ [],
        reverse-cons first (s ∷ ss) ∙ ap (λ l. l ++ first ∷ []) turned,
        last_stop-append (last_stop F s ss) more first,
        omega (arith, size, length-append more (first ∷ [])),
      )

  -- The route in the other order gives the opposite direction, wherever the bus is.
  pub infer_ride_direction_at_endpoint-reverse :
      (stops : List (LatLng Num)) (position : LatLng Num) (radius : Num)
      → infer_ride_direction_at_endpoint F (reverse_list stops) position radius
        ≡ map_option opposite_ride_direction
            (infer_ride_direction_at_endpoint F stops position radius)
  infer_ride_direction_at_endpoint-reverse [] position radius =
      unfold infer_ride_direction_at_endpoint in refl
  infer_ride_direction_at_endpoint-reverse (first ∷ rest) position radius =
      let (more, turned, last, size) = reversed first rest in
      rw (turned) (unfold infer_ride_direction_at_endpoint in ground (arith, last, size))

  -- Where <= excludes > and < excludes >=: when a completed forward ride is ready to turn round at
  -- its destination, the last stop of a route of two stops at least, the first stop is a valid
  -- place, and the bus is farther from it than the radius, then the direction inferred from the
  -- same sample with the same radius is the reverse one.
  pub automatic_turnaround_is_ready-reverse :
      ((x y : Num) → le x y ≡ true → lt y x ≡ false)
      → ((x y : Num) → lt x y ≡ true → le y x ≡ false)
      → (first : LatLng Num) (rest : List (LatLng Num)) (i : TurnaroundReadinessInput Num)
        (radius : Num)
      → 0 < length rest
      → i.destination ≡ last_stop F first rest
      → valid_coordinate F first ≡ true
      → le (haversine_meters F i.position first) radius ≡ false
      → automatic_turnaround_is_ready F i radius ≡ true
      → infer_ride_direction_from_telemetry F
          (first ∷ rest)
          (record {
            now = i.now;
            timestamp = i.telemetry_timestamp;
            motion_state = i.motion_state;
            gps_hdop = i.gps_hdop;
            position = i.position;
          })
          radius
        ≡ some reverse
  unfolding automatic_turnaround_is_ready infer_ride_direction_from_telemetry fresh_stopped
      infer_ride_direction_at_endpoint
  automatic_turnaround_is_ready-reverse le_lt lt_le first rest i radius more end valid far ready =
      elim (Option-cases i.gps_hdop) [
        | inl q ↦ absurd (ground arith)
        | inr (h, q) ↦ ground (
          arith,
          end,
          le_lt (lit 0) h,
          le_lt h (lit 4),
          le_lt i.telemetry_timestamp (add i.now (lit 10_000)),
          le_lt (sub i.now i.telemetry_timestamp) (lit 60_000),
          lt_le (lit 0) radius,
        )
      ]
