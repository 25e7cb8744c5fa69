-- ===== src/Motion/Reacquisition.antt =====
-- What it takes to accept a position after an outage (`evaluateOutageReacquisition` of
-- backend/src/lib/telemetryMotion.ts).
use eki.Prelude.{
  ap, ◌∙◌, inr, inl, Option-cases, ◌≢◌, refl, none, arith, true, some, false, ◌≡◌, Option,
}
use eki.Geo.{Float}
use eki.Motion.Defs.{
  is_plausible_telemetry_transition, is_coherent, may_reacquire, refused, accepted,
  OutageReacquisitionEvidence, QualifiedMotionSample, TelemetryMotionSample,
  evaluate_outage_reacquisition,
}

module _ (F : Float) where
  open F use {Num, lit, num_eq}

  pub accepted_lem :
      (previous : TelemetryMotionSample Num) (next : QualifiedMotionSample Num)
      (raw : Option (QualifiedMotionSample Num)) (e : OutageReacquisitionEvidence Num)
      → evaluate_outage_reacquisition F (some previous) next raw (some e) ≡ accepted
      → (before : QualifiedMotionSample Num) × (raw ≡ some before)
        × (may_reacquire F previous next ≡ true)
        × (is_coherent F previous before next e ≡ true)
        × (num_eq e.count (lit 2) ≡ true)
  unfolding evaluate_outage_reacquisition
  accepted_lem previous next none e h = absurd (ground arith)
  accepted_lem previous next (some before) e h =
      (before, refl, ground arith, ground arith, ground arith)

  pub no-evidence :
      (previous : TelemetryMotionSample Num) (next : QualifiedMotionSample Num)
      (raw : Option (QualifiedMotionSample Num))
      → evaluate_outage_reacquisition F (some previous) next raw none ≢ accepted
  unfolding evaluate_outage_reacquisition
  no-evidence previous next none h = ground arith
  no-evidence previous next (some before) h = ground arith

  -- A fix that leaves evidence of two.
  pub second_lem :
      num_eq (lit 1) (lit 2) ≡ false
      → (previous : TelemetryMotionSample Num) (second : QualifiedMotionSample Num)
        (raw : Option (QualifiedMotionSample Num))
        (stored : Option (OutageReacquisitionEvidence Num)) (left : OutageReacquisitionEvidence Num)
      → num_eq left.count (lit 2) ≡ true
      → evaluate_outage_reacquisition F (some previous) second raw stored ≡ refused (some left)
      → (first : QualifiedMotionSample Num) × (e : OutageReacquisitionEvidence Num) × (raw
          ≡ some first)
        × (stored ≡ some e)
        × (num_eq e.count (lit 2) ≡ false)
        × (is_coherent F previous first second e ≡ true)
  unfolding evaluate_outage_reacquisition
  second_lem differ previous second none stored left two h = absurd (grind (arith, differ))
  second_lem differ previous second (some first) none left two h = absurd (grind (arith, differ))
  second_lem differ previous second (some first) (some e) left two h =
      (first, e, refl, refl, grind (arith, differ), grind (arith, differ))

  -- Where 1 and 2 differ: when a fix is accepted with the evidence that the fix before it left, that
  -- fix was coherent with a third one, whose evidence counted one and began with it. The two later
  -- fixes lie within the travel allowance of the last accepted position, and each of the three can
  -- follow the one before it.
  pub evaluate_outage_reacquisition-three :
      num_eq (lit 1) (lit 2) ≡ false
      → (previous : TelemetryMotionSample Num) (second third : QualifiedMotionSample Num)
        (raw : Option (QualifiedMotionSample Num))
        (stored left : Option (OutageReacquisitionEvidence Num))
      → evaluate_outage_reacquisition F (some previous) second raw stored ≡ refused left
      → evaluate_outage_reacquisition F (some previous) third (some second) left ≡ accepted
      → (first : QualifiedMotionSample Num) × (e : OutageReacquisitionEvidence Num) × (raw
          ≡ some first)
        × (stored ≡ some e)
        × (num_eq e.count (lit 1) ≡ true)
        × (num_eq e.started_at first.sample.timestamp ≡ true)
        × (is_coherent F previous first second e ≡ true)
        × (may_reacquire F previous second ≡ true)
        × (may_reacquire F previous third ≡ true)
        × (is_plausible_telemetry_transition F (some first.sample) second.sample ≡ true)
        × (is_plausible_telemetry_transition F (some second.sample) third.sample ≡ true)
  evaluate_outage_reacquisition-three differ previous second third raw stored left h h' =
      elim (Option-cases left) [
        | inl q ↦ absurd (no-evidence previous third (some second) (rw (← q) h'))
        | inr (e2, q) ↦
            let (before, same, near, fits, two) =
              accepted_lem previous third (some second) e2 (rw (← q) h') in
            let (first, e, r, st, not_two, coherent) =
              second_lem differ previous second raw stored e2 two (h ∙ ap refused q) in
            (
              first,
              e,
              r,
              st,
              unfold is_coherent in ground (arith, coherent, not_two),
              unfold is_coherent in ground (arith, coherent, not_two),
              coherent,
              unfold evaluate_outage_reacquisition in ground (arith, h, r, st, q),
              near,
              unfold is_coherent in ground (arith, coherent),
              unfold is_coherent in ground (arith, fits, same),
            )
      ]
