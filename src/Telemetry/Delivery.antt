-- ===== src/Telemetry/Delivery.antt =====
-- The order of delivery: `parseTelemetryValue` of backend/src/services/telemetryPayload.ts with
-- `telemetrySampleIsNewer` of backend/src/services/deviceTelemetryService.ts.
use eki.Telemetry.Order.{capture_time, telemetry_sample_is_newer, is_late}
use eki.Trip.Types.{MotionState}
use eki.Telemetry.Payload.{
  or_else_num, clamped_from, motion_of, valid_timestamp, parsed, number_of, TelemetryPayload,
  RawTelemetry, parse_telemetry_value, accepted_value,
}
use eki.Geo.{Float}
use eki.Prelude.{
  ◌∙◌, ap, sym, Option, not, Bool-cases, ◌||◌, ◌&&◌, false, refl, inr, inl, Option-cases, arith,
  ◌≡◌, some, true,
}

module _ (F : Float) where
  open F use {Num, lit, lt, num_eq, is_finite, is_safe_integer, minimum}

  -- The tests that a payload with a time has passed.
  accepted_lem :
      (r : RawTelemetry Num) (now t : Num) (p : TelemetryPayload Num)
      → number_of r.timestamp ≡ some t
      → parse_telemetry_value F (some r) now ≡ parsed p
      → (motion : MotionState) × (valid_timestamp F now t ≡ true)
        × (accepted_value F r motion t now ≡ p)
  unfolding parse_telemetry_value
  accepted_lem r now t p e h = elim (Option-cases (motion_of r.motion_state)) [
    | inl n ↦ absurd (ground (arith, n, h))
    | inr (m, s) ↦ (m, ground (arith, s, e, h), ground (arith, s, e, h))
  ]

  value_lem :
      (r : RawTelemetry Num) (m : MotionState) (t now : Num)
      → ((accepted_value F r m t now).timestamp ≡ minimum t now)
        × ((accepted_value F r m t now).device_timestamp ≡ clamped_from F now t)
  unfolding accepted_value
  value_lem r m t now = (refl, refl)

  -- The sequence does not depend on the time of arrival.
  seq_lem :
      (r : RawTelemetry Num) (m m' : MotionState) (t now later : Num)
      → (accepted_value F r m t now).seq ≡ (accepted_value F r m' t later).seq
  unfolding accepted_value
  seq_lem r m m' t now later = refl

  abbrev captured : Num → Num → Num
  captured t now = or_else_num (minimum t now) (clamped_from F now t)

  -- The times of an accepted payload.
  parsed_lem :
      (r : RawTelemetry Num) (now t : Num) (p : TelemetryPayload Num)
      → number_of r.timestamp ≡ some t
      → parse_telemetry_value F (some r) now ≡ parsed p
      → (is_safe_integer t ≡ true)
        × (p.timestamp ≡ minimum t now)
        × (p.device_timestamp ≡ clamped_from F now t)
  parsed_lem r now t p e h =
      let (m, valid, eq) = accepted_lem r now t p e h in
      let (time, device) = value_lem r m t now in
      (unfold valid_timestamp in ground (arith, valid), rw (← eq) time, rw (← eq) device)

  parsed-seq :
      (r : RawTelemetry Num) (now later t : Num) (p q : TelemetryPayload Num)
      → number_of r.timestamp ≡ some t
      → parse_telemetry_value F (some r) now ≡ parsed p
      → parse_telemetry_value F (some r) later ≡ parsed q
      → q.seq ≡ p.seq
  parsed-seq r now later t p q e h h' =
      let (m, _, eq) = accepted_lem r now t p e h in
      let (m', _, eq') = accepted_lem r later t q e h' in
      let read : TelemetryPayload Num → Num = λ v. v.seq in
      sym (ap read eq') ∙ seq_lem r m' m t later now ∙ ap read eq

  module _ (irreflexive : (a : Num) → lt a a ≡ false)
      (transitive : (a b c : Num) → lt a b ≡ true → lt b c ≡ true → lt a c ≡ true)
      (shift : (a b c : Num) → is_finite b ≡ true → lt a c ≡ true → lt b c ≡ false → lt a b ≡ true)
      (below_minimum : (a b c : Num) → lt c (minimum a b) ≡ (lt c a && lt c b))
      (minimum_below : (a b c : Num)
        → is_finite a ≡ true
        → is_finite b ≡ true
        → lt (minimum a b) c ≡ (lt a c || lt b c)) where
    captured-above :
        (x t now : Num)
        → is_finite t ≡ true
        → is_finite now ≡ true
        → lt x t ≡ true
        → lt x (captured t now) ≡ true
    unfolding clamped_from
    captured-above x t now fin fin' h = elim (Bool-cases (lt (minimum t now) t)) [
      | inl c ↦ ground (arith, c, h)
      | inr c ↦
          let behind : lt now t ≡ false = ground (arith, minimum_below t now t fin fin', c) in
          let low = shift x now t fin' h behind in
          let eq = below_minimum t now x in ground (arith, c, h, low, eq)
    ]

    captured-below :
        (y t now : Num)
        → is_finite t ≡ true
        → is_finite now ≡ true
        → lt t y ≡ true
        → lt (captured t now) y ≡ true
    unfolding clamped_from
    captured-below y t now fin fin' h =
        let eq = minimum_below t now y fin fin' in
        elim (Bool-cases (lt (minimum t now) t)) [
          | inl c ↦ ground (arith, c, h)
          | inr c ↦ ground (arith, c, h, eq)
        ]

    captured-finite :
        (t now : Num)
        → is_finite t ≡ true
        → is_finite (minimum t now) ≡ true
        → is_finite (captured t now) ≡ true
    unfolding clamped_from
    captured-finite t now fin fin' = elim (Bool-cases (lt (minimum t now) t)) [
      | inl c ↦ ground (arith, c, fin)
      | inr c ↦ ground (arith, c, fin')
    ]

    asymmetric : (a b : Num) → lt a b ≡ true → lt b a ≡ false
    asymmetric a b h = elim (Bool-cases (lt b a)) [
      | inl t ↦ absurd (ground (arith, transitive a b a h t, irreflexive a))
      | inr f ↦ f
    ]

    minimum-order :
        (t1 t2 n1 n2 : Num)
        → is_finite t2 ≡ true
        → is_finite n2 ≡ true
        → lt t1 t2 ≡ true
        → lt n2 n1 ≡ false
        → lt (minimum t2 n2) (minimum t1 n1) ≡ false
    minimum-order t1 t2 n1 n2 fin fin' h later =
        let back = asymmetric t1 t2 h in
        let a = below_minimum t1 n1 (minimum t2 n2) in
        let b = minimum_below t2 n2 t1 fin fin' in
        let c = minimum_below t2 n2 n1 fin fin' in
        elim (Bool-cases (lt n2 t1)) [
          | inr e ↦ ground (arith, a, b, back, e)
          | inl e ↦ elim (Bool-cases (lt t2 n1)) [
            | inr g ↦ ground (arith, a, c, g, later)
            | inl g ↦
                let round = transitive n2 t2 n1 (transitive n2 t1 t2 e h) g in
                absurd (ground (arith, round, later))
          ]
        ]

    in_order :
        (p1 p2 : TelemetryPayload Num)
        → is_finite p1.timestamp ≡ true
        → is_safe_integer p1.seq ≡ true
        → lt p1.seq p2.seq ≡ true
        → (num_eq p2.timestamp p1.timestamp ≡ false → lt p1.timestamp p2.timestamp ≡ true)
        → telemetry_sample_is_newer F (some p1.timestamp) (some p1.seq) p2 p1.device_timestamp
          ≡ true
    unfolding telemetry_sample_is_newer is_late
    in_order p1 p2 fin safe h apart =
        let back = asymmetric p1.seq p2.seq h in
        elim (Bool-cases (num_eq p2.timestamp p1.timestamp)) [
          | inl e ↦ ground (arith, back, safe, h, fin, e)
          | inr e ↦ let low = apart e in ground (arith, back, safe, h, fin, e, low)
        ]

    out_of_order :
        (t2 s2 : Num) (device : Option Num) (p : TelemetryPayload Num)
        → is_finite t2 ≡ true
        → is_finite (or_else_num t2 device) ≡ true
        → is_safe_integer s2 ≡ true
        → lt p.seq s2 ≡ true
        → lt (capture_time F p) (or_else_num t2 device) ≡ true
        → telemetry_sample_is_newer F (some t2) (some s2) p device ≡ false
    unfolding telemetry_sample_is_newer is_late
    out_of_order t2 s2 device p fin fin' safe h earlier =
        ground (arith, fin, fin', safe, h, earlier)

    -- Over numbers whose < is irreflexive and transitive and whose finite ones are in order, with the
    -- smaller of two in the order of both: of two payloads that are accepted, where one has the
    -- earlier capture time and the lower sequence, both a safe integer, the later one is newer than
    -- the stored earlier one if it arrives no earlier, and the earlier one, however late it arrives,
    -- is not newer than the stored later one.
    pub telemetry_sample_is_newer-parse_telemetry_value :
        ((a : Num) → is_safe_integer a ≡ true → is_finite a ≡ true)
        → ((a b : Num) → is_finite a ≡ true → is_finite b ≡ true → is_finite (minimum a b) ≡ true)
        → ((a b : Num)
            → is_finite a ≡ true
            → is_finite b ≡ true
            → num_eq a b ≡ not (lt a b || lt b a))
        → (r1 r2 : RawTelemetry Num) (t1 t2 n1 n2 late : Num) (p1 p2 q1 : TelemetryPayload Num)
        → number_of r1.timestamp ≡ some t1
        → number_of r2.timestamp ≡ some t2
        → is_finite n1 ≡ true
        → is_finite n2 ≡ true
        → is_finite late ≡ true
        → parse_telemetry_value F (some r1) n1 ≡ parsed p1
        → parse_telemetry_value F (some r2) n2 ≡ parsed p2
        → parse_telemetry_value F (some r1) late ≡ parsed q1
        → lt n2 n1 ≡ false
        → lt t1 t2 ≡ true
        → lt p1.seq p2.seq ≡ true
        → is_safe_integer p1.seq ≡ true
        → is_safe_integer p2.seq ≡ true
        → (telemetry_sample_is_newer F (some p1.timestamp) (some p1.seq) p2 p1.device_timestamp
            ≡ true)
          × (telemetry_sample_is_newer F (some p2.timestamp) (some p2.seq) q1 p2.device_timestamp
              ≡ false)
    telemetry_sample_is_newer-parse_telemetry_value safe_finite finite_minimum decided r1 r2 t1 t2
          n1 n2 late p1 p2 q1 e1 e2 f1 f2 f3 h1 h2 h3 order before sequence safe1 safe2 =
        let (s1, time1, device1) = parsed_lem r1 n1 t1 p1 e1 h1 in
        let (s2, time2, device2) = parsed_lem r2 n2 t2 p2 e2 h2 in
        let (_, time3, device3) = parsed_lem r1 late t1 q1 e1 h3 in
        let fin1 = safe_finite t1 s1 in
        let fin2 = safe_finite t2 s2 in
        let small1 = finite_minimum t1 n1 fin1 f1 in
        let small2 = finite_minimum t2 n2 fin2 f2 in
        let ordered = minimum-order t1 t2 n1 n2 fin2 f2 before order in
        let test = decided (minimum t2 n2) (minimum t1 n1) small2 small1 in
        let apart : num_eq (minimum t2 n2) (minimum t1 n1) ≡ false
            → lt (minimum t1 n1) (minimum t2 n2) ≡ true =
          λ e. ground (arith, e, test, ordered) in
        let earlier =
          captured-below (captured t2 n2) t1 late fin1 f3
            (captured-above t1 t2 n2 fin2 f2 before) in
        (
          in_order p1 p2 (rw (time1) small1) safe1 sequence (rw (time1, time2) apart),
          out_of_order p2.timestamp p2.seq p2.device_timestamp q1 (rw (time2) small2)
              (rw (time2, device2) (captured-finite t2 n2 fin2 small2)) safe2
              (rw (parsed-seq r1 n1 late t1 p1 q1 e1 h1 h3) sequence)
              (rw (time2, device2, time3, device3) earlier),
        )
