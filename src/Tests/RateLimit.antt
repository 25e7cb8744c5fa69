-- ===== src/Tests/RateLimit.antt =====
-- Two devices under a limit of two requests a window.
use eki.RateLimit.Window.{evaluate-retry, reserve_all-limit, evaluate-reserve, reserve_all}
use eki.RateLimit.Tokens.{
  consume_lease-credit, accept_reservation-credit, credit, consume_local-keeps, passes,
}
use eki.Prelude.OrderedMap.{remove, lookup, set}
use eki.RateLimit.Defs.{
  DistributedTokenReservation, RateBucket, LocalTokenLease, TokenReservationDecision, valid_bucket,
  consume_lease, set_bounded, drop_oldest, shortest_wait, accept_reservation, consume_local,
  open_bucket, drop_expired, evaluate_device_rate_limit, reserve_rate_limit_tokens,
  DeviceRateLimitConfiguration,
}
use eki.Prelude.{
  ◌≢◌, is_some, if◌then◌else◌, min, refl, leb, arith, Bool, false, ltb, ◌+◌, ◌≤◌, ◌≡◌, List, ℕ,
  some, ℕ_discrete, ◌∷◌, [],
}

program : Unit {0}
unfolding valid_bucket open_bucket evaluate_device_rate_limit reserve_rate_limit_tokens
    shortest_wait drop_oldest set_bounded drop_expired consume_local consume_lease
    accept_reservation lookup set remove ℕ_discrete reserve_all
program = tt

abbrev full_bucket : RateBucket
full_bucket = record { started_at = 1_000; count = 2 }

abbrev empty_bucket : RateBucket
empty_bucket = record { started_at = 1_000; count = 0 }

abbrev two_a_window : DeviceRateLimitConfiguration
two_a_window = record { limit = 2; lease_size = 2; max_tracked_devices = 3 }

abbrev lease_of_two : LocalTokenLease
lease_of_two = record { expires_at = 60_000; remaining = 2 }

abbrev grant_of_two : DistributedTokenReservation
grant_of_two = record {
  granted = 2;
  expires_at = 60_000;
  retry_after_ms = 0;
  transaction_attempts = 1;
}

abbrev is_named : ℕ → Bool
is_named k = ltb 0 k

evaluate-reserve_example :
    (d : TokenReservationDecision) × (reserve_rate_limit_tokens (some full_bucket) 31_000 2 1
      ≡ some d)
    × ((evaluate_device_rate_limit (some full_bucket) 31_000 2).allowed ≡ ltb 0 d.granted)
    × ((evaluate_device_rate_limit (some full_bucket) 31_000 2).retry_after_ms ≡ d.retry_after_ms)
evaluate-reserve_example = evaluate-reserve (some full_bucket) 31_000 2 (ground arith)

full_refused : (evaluate_device_rate_limit (some full_bucket) 31_000 2).allowed ≡ false
unfolding evaluate_device_rate_limit open_bucket valid_bucket
full_refused = refl

evaluate-retry_example :
    (evaluate_device_rate_limit
      (some (evaluate_device_rate_limit (some full_bucket) 31_000 2).next)
      (31_000 + 30_000)
      2).allowed
    ≡ leb (evaluate_device_rate_limit (some full_bucket) 31_000 2).retry_after_ms 30_000
evaluate-retry_example = evaluate-retry (some full_bucket) 31_000 2 30_000 full_refused

abbrev three_requests : List (ℕ × ℕ)
three_requests = (1_000, 1) ∷ (2_000, 5) ∷ (3_000, 1) ∷ []

reserve_all-limit_example :
    ((reserve_all 2 (some empty_bucket) three_requests).0 + 0 ≤ 2)
    × ((reserve_all 2 (some empty_bucket) three_requests).1
        ≡ some (record empty_bucket {
          count = 0 + (reserve_all 2 (some empty_bucket) three_requests).0;
        }))
reserve_all-limit_example =
    reserve_all-limit 2 empty_bucket three_requests (ground arith) (ground arith)

consume_local-keeps_example :
    lookup ℕ_discrete 2
      (consume_local ℕ_discrete is_named two_a_window 1 31_000 ((2, full_bucket) ∷ [])).0
    ≡ some full_bucket
unfolding ℕ_discrete lookup
consume_local-keeps_example =
    consume_local-keeps ℕ_discrete is_named two_a_window 1 2 31_000 ((2, full_bucket) ∷ [])
      full_bucket (λ e. ground (arith, e)) refl (ground arith)

consume_lease-credit_example :
    (passes (consume_lease ℕ_discrete is_named 1 31_000 ((1, lease_of_two) ∷ [])).1
        + credit ℕ_discrete is_named 1
            (consume_lease ℕ_discrete is_named 1 31_000 ((1, lease_of_two) ∷ [])).0
      ≡ (if is_some (consume_lease ℕ_discrete is_named 1 31_000 ((1, lease_of_two) ∷ [])).1
          then credit ℕ_discrete is_named 1 ((1, lease_of_two) ∷ [])
          else 0))
    × ((j : ℕ)
        → 1 ≢ j
        → credit ℕ_discrete is_named j
            (consume_lease ℕ_discrete is_named 1 31_000 ((1, lease_of_two) ∷ [])).0
          ≡ credit ℕ_discrete is_named j ((1, lease_of_two) ∷ []))
unfolding lookup
consume_lease-credit_example =
    consume_lease-credit ℕ_discrete is_named 1 31_000 ((1, lease_of_two) ∷ []) (refl, tt)

accept_reservation-credit_example :
    passes (accept_reservation ℕ_discrete is_named two_a_window 1 31_000 grant_of_two []).1
      + credit ℕ_discrete is_named 1
          (accept_reservation ℕ_discrete is_named two_a_window 1 31_000 grant_of_two []).0
    ≤ min 2 2
unfolding lookup
accept_reservation-credit_example =
    accept_reservation-credit ℕ_discrete is_named two_a_window 1 31_000 grant_of_two [] refl
