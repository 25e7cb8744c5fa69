-- ===== src/Tests/Telemetry.antt =====
-- Samples of one bus, in and out of order, and the order of integers.
use eki.Telemetry.Delivery.{telemetry_sample_is_newer-parse_telemetry_value}
use eki.Telemetry.Order.{telemetry_sample_is_newer}
use eki.Trip.Types.{moving}
use eki.Telemetry.Payload.{
  motion_value, number_value, RawTelemetry, TelemetryPayload, parsed, uses_sequenced_schema,
  valid_heading, uses_previous_sequenced_schema, valid_device_sent_at, parse_telemetry_value,
  clamped_from, has_legacy_fields, accepted_value, valid_timestamp, uses_legacy_schema, within,
  valid_sequence,
}
use eki.Prelude.{not, ◌&&◌, arith, ◌||◌, ◌≡◌, some, none, true, false, refl, ℕ}
use eki.Prelude.Int.{ℤ, pos, negsuc}
use eki.Tests.Grid.{grid, at, below, up_to}

-- A payload of the current firmware, captured at a time.
abbrev raw : ℕ → ℕ → RawTelemetry ℤ
raw time number = record {
  device_sent_at = some (number_value (pos time));
  gps_hdop = some (number_value (pos 1));
  heading = some (number_value (pos 90));
  lat = some (number_value (pos 0));
  lng = some (number_value (pos 0));
  motion_state = some (motion_value moving);
  seq = some (number_value (pos number));
  speed = some (number_value (pos 3));
  timestamp = some (number_value (pos time));
  other_fields = 0;
}

abbrev pub payload : ℕ → ℕ → ℕ → TelemetryPayload ℤ
payload place time number = record {
  place = at place;
  speed = pos 3;
  heading = pos 90;
  gps_hdop = some (pos 1);
  motion_state = moving;
  seq = pos number;
  device_sent_at = pos time;
  timestamp = pos time;
  device_timestamp = none;
}

-- A clock that is 2 s ahead: the time is clamped, and the capture time is kept.
clamped_payload :
    parse_telemetry_value grid (some (raw 102_000 7)) (pos 100_000)
    ≡ parsed (record (payload 0 100_000 7) { device_timestamp = some (pos 102_000) })
unfolding parse_telemetry_value accepted_value uses_sequenced_schema has_legacy_fields
    uses_previous_sequenced_schema uses_legacy_schema within valid_heading valid_sequence
    valid_timestamp valid_device_sent_at clamped_from
clamped_payload = refl

late_payload :
    parse_telemetry_value grid (some (raw 102_000 7)) (pos 104_000) ≡ parsed (payload 0 102_000 7)
unfolding parse_telemetry_value accepted_value uses_sequenced_schema has_legacy_fields
    uses_previous_sequenced_schema uses_legacy_schema within valid_heading valid_sequence
    valid_timestamp valid_device_sent_at clamped_from
late_payload = refl

next_payload :
    parse_telemetry_value grid (some (raw 103_000 8)) (pos 101_000)
    ≡ parsed (record (payload 0 101_000 8) { device_timestamp = some (pos 103_000) })
unfolding parse_telemetry_value accepted_value uses_sequenced_schema has_legacy_fields
    uses_previous_sequenced_schema uses_legacy_schema within valid_heading valid_sequence
    valid_timestamp valid_device_sent_at clamped_from
next_payload = refl

pub below-irreflexive : (a : ℤ) → below a a ≡ false
below-irreflexive (pos n) = ground arith
below-irreflexive (negsuc n) = ground arith

pub below-transitive : (a b c : ℤ) → below a b ≡ true → below b c ≡ true → below a c ≡ true
below-transitive a b c h h' = ground arith

below-shift : (a b c : ℤ) → below a c ≡ true → below b c ≡ false → below a b ≡ true
below-shift a b c h h' = ground arith

below-minimum : (a b c : ℤ) → below c (grid.minimum a b) ≡ (below c a && below c b)
below-minimum a b c = ground arith

minimum-below : (a b c : ℤ) → below (grid.minimum a b) c ≡ (below a c || below b c)
minimum-below a b c = ground arith

equal_lem : (a b : ℤ) → (up_to a b && up_to b a) ≡ not (below a b || below b a)
equal_lem a b = ground arith

pub equal-symmetric : (a b : ℤ) → (up_to a b && up_to b a) ≡ (up_to b a && up_to a b)
equal-symmetric a b = ground arith

pub equal-congruent :
    (a b c : ℤ)
    → (up_to a b && up_to b a) ≡ true
    → (below a c ≡ below b c)
      × (below c a ≡ below c b)
      × ((up_to a c && up_to c a) ≡ (up_to b c && up_to c b))
equal-congruent a b c h = (ground arith, ground arith, ground arith)

-- Two samples of a fast clock, where the first is delivered once more after the second.
telemetry_sample_is_newer-parse_telemetry_value_example :
    (telemetry_sample_is_newer grid
        (some (pos 100_000))
        (some (pos 7))
        (record (payload 0 101_000 8) { device_timestamp = some (pos 103_000) })
        (some (pos 102_000))
      ≡ true)
    × (telemetry_sample_is_newer grid
          (some (pos 101_000))
          (some (pos 8))
          (payload 0 102_000 7)
          (some (pos 103_000))
        ≡ false)
telemetry_sample_is_newer-parse_telemetry_value_example =
    telemetry_sample_is_newer-parse_telemetry_value grid below-irreflexive below-transitive
      (λ a b c _. below-shift a b c) below-minimum (λ a b c _ _. minimum-below a b c) (λ a _. refl)
      (λ a b _ _. refl) (λ a b _ _. equal_lem a b) (raw 102_000 7) (raw 103_000 8) (pos 102_000)
      (pos 103_000) (pos 100_000) (pos 101_000) (pos 104_000)
      (record (payload 0 100_000 7) { device_timestamp = some (pos 102_000) })
      (record (payload 0 101_000 8) { device_timestamp = some (pos 103_000) }) (payload 0 102_000 7)
      refl refl refl refl refl clamped_payload next_payload late_payload refl refl refl refl refl
