-- ===== src/Telemetry/Jump.antt =====
-- When a bus that was held at its last accepted place is shown elsewhere (`nextTelemetryValue` of
-- backend/src/services/deviceTelemetryService.ts with `evaluateOutageReacquisition` of
-- backend/src/lib/telemetryMotion.ts).
use eki.Motion.Reacquisition.{second_lem, no-evidence, accepted_lem}
use eki.Trip.Evidence.{is_uncertain}
use eki.Telemetry.Payload.{TelemetryPayload}
use eki.Motion.Defs.{
  is_coherent, may_reacquire, refused, accepted, is_plausible_telemetry_transition,
  evaluate_outage_reacquisition, OutageReacquisitionEvidence, TelemetryMotionSample,
}
use eki.Prelude.{
  holds, ◌∙◌, refl, ap, ◌≢◌, none, sym, inr, inl, Option-cases, true, false, arith, ◌≡◌, some,
  Option,
}
use eki.Telemetry.Fixes.{
  raw_fix, qualified, motion_sample, pending_of, stored_fix, StoredFix, known, previous_fix,
}
use eki.Telemetry.Intake.{
  DeviceAssignment, written, next_stored, previous_of, LiveRecord, next_anchor, accepted_sample,
  reacquisition_of, transition_is_plausible,
}
use eki.Geo.{Float}

module _ (F : Float) where
  open F use {Num, lit, num_eq, is_finite}

  none_not_some : {A : Type 0} {a : A} → ◌≢◌ {A = Option A} none (some a)
  none_not_some h = ground arith

  known_lem : (x y : Num) (l : Option Num) → known F (some x) l ≡ some y → x ≡ y
  known_lem x y l h = ground arith

  -- The fields of an anchor are read back as they were stored.
  previous_fix-stored_fix :
      (q r : TelemetryMotionSample Num) (live : StoredFix Num)
      → previous_fix F (stored_fix q) live ≡ some r
      → (r.place ≡ q.place) × (r.timestamp ≡ q.timestamp)
  unfolding previous_fix
  previous_fix-stored_fix q r live h = ground arith

  third_lem :
      (anchor : TelemetryMotionSample Num) (p2 p3 : TelemetryPayload Num)
      (e : OutageReacquisitionEvidence Num)
      → evaluate_outage_reacquisition F (some anchor) (qualified p3) (some (qualified p2)) (some e)
        ≡ accepted
      → (may_reacquire F anchor (qualified p3) ≡ true)
        × (is_plausible_telemetry_transition F (some (motion_sample p2)) (motion_sample p3) ≡ true)
        × (num_eq e.count (lit 2) ≡ true)
  third_lem anchor p2 p3 e h =
      let (b, same, near, fits, two) =
        accepted_lem F anchor (qualified p3) (some (qualified p2)) e h in
      (near, unfold is_coherent in ground (arith, fits, same), two)

  corroborated_lem :
      num_eq (lit 1) (lit 2) ≡ false
      → (anchor : TelemetryMotionSample Num) (p1 p2 : TelemetryPayload Num)
        (stored : Option (OutageReacquisitionEvidence Num)) (e : OutageReacquisitionEvidence Num)
      → num_eq e.count (lit 2) ≡ true
      → evaluate_outage_reacquisition F (some anchor) (qualified p2) (some (qualified p1)) stored
        ≡ refused (some e)
      → (may_reacquire F anchor (qualified p2) ≡ true)
        × (is_plausible_telemetry_transition F (some (motion_sample p1)) (motion_sample p2) ≡ true)
  corroborated_lem differ anchor p1 p2 stored e two h =
      let (b, e', same, st, not_two, fits) =
        second_lem F differ anchor (qualified p2) (some (qualified p1)) stored e two h in
      (
        unfold evaluate_outage_reacquisition in ground (arith, h, st),
        unfold is_coherent in ground (arith, fits, same),
      )

  module _ {I R : Type 0} where
    -- A transition that is plausible only through an outage.
    reacquired_lem :
        (c : LiveRecord I R Num) (p : TelemetryPayload Num) (q : TelemetryMotionSample Num)
        → previous_of F c ≡ some q
        → is_plausible_telemetry_transition F (some q) (motion_sample p) ≡ false
        → transition_is_plausible F c p ≡ true
        → evaluate_outage_reacquisition F
            (some q)
            (qualified p)
            (raw_fix c.raw_location)
            c.plausibility_reacquisition
          ≡ accepted
    unfolding transition_is_plausible reacquisition_of previous_of
    reacquired_lem c p q prev not_plausible h = ground (arith, prev, not_plausible, h)

    first_lem :
        (c : LiveRecord I R Num) (p : TelemetryPayload Num)
        → previous_of F c ≡ none
        → reacquisition_of F c p ≡ refused none
    unfolding reacquisition_of is_plausible_telemetry_transition
    first_lem c p n = rw (n) refl

    -- A sample whose evidence is kept is held.
    pending_lem :
        (c : LiveRecord I R Num) (p : TelemetryPayload Num) (e : OutageReacquisitionEvidence Num)
        → pending_of (reacquisition_of F c p) ≡ some e
        → (q : TelemetryMotionSample Num) × (previous_of F c ≡ some q)
          × (evaluate_outage_reacquisition F
                (some q)
                (qualified p)
                (raw_fix c.raw_location)
                c.plausibility_reacquisition
              ≡ refused (some e))
          × (next_anchor F c p ≡ q)
    unfolding transition_is_plausible reacquisition_of next_anchor previous_of
    pending_lem c p e h = elim (Option-cases (previous_of F c)) [
      | inl n ↦ absurd (none_not_some (sym (ap pending_of (first_lem c p n)) ∙ h))
      | inr (q, s) ↦ (q, s, ground (arith, s, h), ground (arith, s, h))
    ]

    shown_lem :
        (c : LiveRecord I R Num) (p : TelemetryPayload Num) (q : TelemetryMotionSample Num)
        → previous_of F c ≡ some q
        → is_uncertain (accepted_sample F c p).motion_state ≡ false
        → transition_is_plausible F c p ≡ true
    unfolding accepted_sample previous_of
    shown_lem c p q prev h = ground (arith, prev, h)

    module _ (dec : Discrete I) where
      pub next_stored-written :
          (c d : LiveRecord I R Num) (a : DeviceAssignment I Num) (p : TelemetryPayload Num)
          (t : Num)
          → next_stored F dec c a p t ≡ some d
          → d ≡ written F c a p t
      unfolding next_stored
      next_stored-written c d a p t h = ground arith

      raw_lem :
          (c : LiveRecord I R Num) (a : DeviceAssignment I Num) (p : TelemetryPayload Num) (t : Num)
          → (raw_fix (written F c a p t).raw_location ≡ some (qualified p))
            × ((written F c a p t).plausibility_reacquisition ≡ pending_of (reacquisition_of F c p))
            × ((written F c a p t).motion_state ≡ some (accepted_sample F c p).motion_state)
      unfolding written
      raw_lem c a p t = (refl, refl, refl)

      anchor_lem :
          (c : LiveRecord I R Num) (a : DeviceAssignment I Num) (p : TelemetryPayload Num) (t : Num)
          (q r : TelemetryMotionSample Num)
          → next_anchor F c p ≡ q
          → previous_of F (written F c a p t) ≡ some r
          → (r.place ≡ q.place) × (r.timestamp ≡ q.timestamp)
      unfolding previous_of written
      anchor_lem c a p t q r e h =
          previous_fix-stored_fix q r (stored_fix (motion_sample (accepted_sample F c p)))
            (rw (← e) h)

      stored_lem :
          (c d : LiveRecord I R Num) (a : DeviceAssignment I Num) (p : TelemetryPayload Num)
          (t : Num)
          → next_stored F dec c a p t ≡ some d
          → (raw_fix d.raw_location ≡ some (qualified p))
            × (d.plausibility_reacquisition ≡ pending_of (reacquisition_of F c p))
            × (d.motion_state ≡ some (accepted_sample F c p).motion_state)
      stored_lem c d a p t h = rw (next_stored-written c d a p t h) (raw_lem c a p t)

      -- Where 1 and 2 differ: when a bus is shown moving or stopped on a sample that its anchor does
      -- not explain, that sample is the third of three in a row. The second and the third lie within
      -- the travel allowance of an outage, from the same place and time, and each of the three can
      -- follow the one before it.
      pub next_stored-three :
          num_eq (lit 1) (lit 2) ≡ false
          → (c0 c1 c2 c3 : LiveRecord I R Num) (a1 a2 a3 : DeviceAssignment I Num)
            (p1 p2 p3 : TelemetryPayload Num) (t1 t2 t3 : Num) (anchor : TelemetryMotionSample Num)
          → next_stored F dec c0 a1 p1 t1 ≡ some c1
          → next_stored F dec c1 a2 p2 t2 ≡ some c2
          → next_stored F dec c2 a3 p3 t3 ≡ some c3
          → previous_of F c2 ≡ some anchor
          → is_plausible_telemetry_transition F (some anchor) (motion_sample p3) ≡ false
          → holds is_uncertain c3.motion_state ≡ false
          → (before : TelemetryMotionSample Num) × (previous_of F c1 ≡ some before)
            × (anchor.place ≡ before.place)
            × (anchor.timestamp ≡ before.timestamp)
            × (may_reacquire F before (qualified p2) ≡ true)
            × (may_reacquire F anchor (qualified p3) ≡ true)
            × (is_plausible_telemetry_transition F (some (motion_sample p1)) (motion_sample p2)
                ≡ true)
            × (is_plausible_telemetry_transition F (some (motion_sample p2)) (motion_sample p3)
                ≡ true)
      next_stored-three differ c0 c1 c2 c3 a1 a2 a3 p1 p2 p3 t1 t2 t3 anchor s1 s2 s3 prev off
            shown =
          let (raw1, _, _) = stored_lem c0 c1 a1 p1 t1 s1 in
          let (raw2, evidence2, _) = stored_lem c1 c2 a2 p2 t2 s2 in
          let (_, _, motion3) = stored_lem c2 c3 a3 p3 t3 s3 in
          let moves = sym (ap (holds is_uncertain) motion3) ∙ shown in
          let again = reacquired_lem c2 p3 anchor prev off (shown_lem c2 p3 anchor prev moves) in
          elim (Option-cases c2.plausibility_reacquisition) [
            | inl n ↦
                absurd
                  (no-evidence F anchor (qualified p3) (raw_fix c2.raw_location) (rw (← n) again))
            | inr (e, s) ↦
                let (near3, fits3, two) = third_lem anchor p2 p3 e (rw (← raw2, ← s) again) in
                let (before, prev2, evidence, held) = pending_lem c1 p2 e (sym evidence2 ∙ s) in
                let (place, time) =
                  anchor_lem c1 a2 p2 t2 before anchor held
                    (rw (← next_stored-written c1 c2 a2 p2 t2 s2) prev) in
                let (near2, fits2) =
                  corroborated_lem differ before p1 p2 c1.plausibility_reacquisition e two
                    (rw (← raw1) evidence) in
                (before, prev2, place, time, near2, near3, fits2, fits3)
          ]
