-- ===== src/Telemetry/Replay.antt =====
-- A sample that was written is not written a second time (`nextTelemetryValue` and
-- `telemetrySampleIsNewer` of backend/src/services/deviceTelemetryService.ts).
use eki.Telemetry.Jump.{next_stored-written}
use eki.Telemetry.Payload.{TelemetryPayload}
use eki.Telemetry.Intake.{
  previous_of, written, accepted_sample, next_stored, DeviceAssignment, LiveRecord,
}
use eki.Prelude.{
  sym, ap, ◌≢◌, Bool-cases, none, ◌∙◌, inr, arith, inl, some, Option, ◌⊎◌, true, false, ◌≡◌,
}
use eki.Telemetry.Order.{telemetry_sample_is_newer}
use eki.Geo.{Float}

-- Records that follow one another by samples with a finite time.
pub data Reach (F : Float) {I R : Type 0} (dec : Discrete I) (c : LiveRecord I R (F.Num))
    : LiveRecord I R (F.Num) → Type 0 where
  no_more : Reach F dec c c
  then_written :
      {d e : LiveRecord I R (F.Num)} (a : DeviceAssignment I (F.Num)) (p : TelemetryPayload (F.Num))
      (t : F.Num)
      → Reach F dec c d
      → F.is_finite p.timestamp ≡ true
      → next_stored F dec d a p t ≡ some e
      → Reach F dec c e

false_not_true : false ≢ true
false_not_true h = ground arith

module _ (F : Float) (irreflexive : (a : F.Num) → F.lt a a ≡ false)
    (transitive : (a b c : F.Num) → F.lt a b ≡ true → F.lt b c ≡ true → F.lt a c ≡ true)
    (symmetric : (a b : F.Num) → F.num_eq a b ≡ F.num_eq b a)
    (congruent : (a b c : F.Num)
      → F.num_eq a b ≡ true
      → (F.lt a c ≡ F.lt b c) × (F.lt c a ≡ F.lt c b) × (F.num_eq a c ≡ F.num_eq b c)) where
  open F use {Num, lt, num_eq, is_finite, is_safe_integer}

  -- A stored time and sequence are not before those of a sample.
  abbrev Covers : TelemetryPayload Num → Num → Num → Type 0
  Covers p t s = (lt p.timestamp t ≡ true) ⊎ ((num_eq p.timestamp t ≡ true) × (lt s p.seq ≡ false))

  -- What a newer sample has over the stored one.
  newer_cases :
      (p : TelemetryPayload Num) (t s : Num) (device : Option Num)
      → is_finite t ≡ true
      → telemetry_sample_is_newer F (some t) (some s) p device ≡ true
      → (lt t p.timestamp ≡ true) ⊎ ((num_eq p.timestamp t ≡ true) × (lt s p.seq ≡ true))
  unfolding telemetry_sample_is_newer
  newer_cases p t s device fin h = ground (arith, fin, h)

  not_below : (a b c : Num) → lt a b ≡ true → lt a c ≡ false → lt b c ≡ false
  not_below a b c h not = elim (Bool-cases (lt b c)) [
    | inl t ↦ absurd (false_not_true (sym not ∙ transitive a b c h t))
    | inr f ↦ f
  ]

  -- A lower number is neither equal nor higher.
  lower_lem : (a b : Num) → lt a b ≡ true → (num_eq a b ≡ false) × (lt b a ≡ false)
  lower_lem a b h = (
    elim (Bool-cases (num_eq a b)) [
      | inl t ↦ absurd (false_not_true (sym (irreflexive b) ∙ sym ((congruent a b b t).0) ∙ h))
      | inr f ↦ f
    ],
    not_below a b a h (irreflexive a),
  )

  newer-Covers :
      (p next : TelemetryPayload Num) (t s : Num)
      → Covers p t s
      → (lt t next.timestamp ≡ true) ⊎ ((num_eq next.timestamp t ≡ true) × (lt s next.seq ≡ true))
      → Covers p next.timestamp next.seq
  newer-Covers p next t s (inl before) (inl after) =
      inl (transitive p.timestamp t next.timestamp before after)
  newer-Covers p next t s (inl before) (inr (same, later)) =
      inl ((congruent next.timestamp t p.timestamp same).1 ∙ before)
  newer-Covers p next t s (inr (eq, late)) (inl after) =
      inl ((congruent p.timestamp t next.timestamp eq).0 ∙ after)
  newer-Covers p next t s (inr (eq, late)) (inr (same, later)) = inr (
    (congruent p.timestamp t next.timestamp eq).2 ∙ (symmetric t next.timestamp ∙ same),
    not_below s next.seq p.seq later late,
  )

  covered_lem :
      (p : TelemetryPayload Num) (t s : Num) (device : Option Num)
      → is_finite t ≡ true
      → Covers p t s
      → telemetry_sample_is_newer F (some t) (some s) p device ≡ false
  unfolding telemetry_sample_is_newer
  covered_lem p t s device fin (inl before) =
      let (differ, back) = lower_lem p.timestamp t before in ground (arith, differ, back, fin)
  covered_lem p t s device fin (inr (eq, late)) = ground (arith, eq, late, fin)

  module _ {I R : Type 0} (dec : Discrete I) where
    -- The stored time and sequence of a record are finite, and not before those of a sample.
    abbrev IsAfter : TelemetryPayload Num → LiveRecord I R Num → Type 0
    IsAfter p d =
        (t : Num) × (s : Num) × (d.fix.timestamp ≡ some t)
        × (d.seq ≡ some s)
        × (is_finite t ≡ true)
        × Covers p t s

    accepted-times :
        (c : LiveRecord I R Num) (p : TelemetryPayload Num)
        → ((accepted_sample F c p).timestamp ≡ p.timestamp) × ((accepted_sample F c p).seq ≡ p.seq)
    unfolding accepted_sample previous_of
    accepted-times c p = ground arith

    written-times :
        (c : LiveRecord I R Num) (a : DeviceAssignment I Num) (p : TelemetryPayload Num) (t : Num)
        → ((written F c a p t).fix.timestamp ≡ some p.timestamp)
          × ((written F c a p t).seq ≡ some p.seq)
    unfolding written
    written-times c a p t =
        let (time, sequence) = accepted-times c p in (ap some time, ap some sequence)

    newer_lem :
        (d e : LiveRecord I R Num) (a : DeviceAssignment I Num) (p : TelemetryPayload Num) (t : Num)
        → next_stored F dec d a p t ≡ some e
        → (telemetry_sample_is_newer F d.fix.timestamp d.seq p d.device_timestamp ≡ true)
          × (e.fix.timestamp ≡ some p.timestamp)
          × (e.seq ≡ some p.seq)
    newer_lem d e a p t h =
        let eq = next_stored-written F dec d e a p t h in
        let (time, sequence) = written-times d a p t in
        (
          unfold next_stored in ground (arith, h),
          ap (λ (r : LiveRecord I R Num). r.fix.timestamp) eq ∙ time,
          ap (λ (r : LiveRecord I R Num). r.seq) eq ∙ sequence,
        )

    refused_lem :
        (d : LiveRecord I R Num) (a : DeviceAssignment I Num) (p : TelemetryPayload Num) (t : Num)
        → telemetry_sample_is_newer F d.fix.timestamp d.seq p d.device_timestamp ≡ false
        → next_stored F dec d a p t ≡ none
    unfolding next_stored
    refused_lem d a p t h = ground (arith, h)

    Reach-IsAfter :
        (p : TelemetryPayload Num) (c d : LiveRecord I R Num)
        → Reach F dec c d
        → IsAfter p c
        → IsAfter p d
    Reach-IsAfter p c d no_more h = h
    Reach-IsAfter p c e (then_written {d} a next t r fin h) after =
        let (s0, s1, time, sequence, fin0, covers) = Reach-IsAfter p c d r after in
        let (newer, time', sequence') = newer_lem d e a next t h in
        (
          next.timestamp,
          next.seq,
          time',
          sequence',
          fin,
          newer-Covers p next s0 s1 covers
              (newer_cases next s0 s1 d.device_timestamp fin0 (rw (← time, ← sequence) newer)),
        )

    -- Over numbers whose < is irreflexive and transitive and whose equality is symmetric and kept by
    -- < and itself: a sample whose time and sequence a record shows is written to no record that
    -- follows, whatever other samples of a finite time come between.
    pub Reach-replayed :
        (p : TelemetryPayload Num) (c d : LiveRecord I R Num) (a : DeviceAssignment I Num) (t : Num)
        → is_finite p.timestamp ≡ true
        → num_eq p.timestamp p.timestamp ≡ true
        → c.fix.timestamp ≡ some p.timestamp
        → c.seq ≡ some p.seq
        → Reach F dec c d
        → next_stored F dec d a p t ≡ none
    Reach-replayed p c d a t fin same time sequence r =
        let (s0, s1, time', sequence', fin0, covers) =
          Reach-IsAfter p c d r
            (p.timestamp, p.seq, time, sequence, fin, inr (same, irreflexive p.seq)) in
        let old = covered_lem p s0 s1 d.device_timestamp fin0 covers in
        refused_lem d a p t (rw (time', sequence') old)
