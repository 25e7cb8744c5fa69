-- ===== src/RateLimit/Window.antt =====
-- The window of one device (evaluateDeviceRateLimit and reserveRateLimitTokens of
-- backend/src/services/deviceRateLimiter.ts).
use eki.RateLimit.Defs.{
  DeviceRateLimitDecision, window_ms, TokenReservationDecision, RateBucket,
  reserve_rate_limit_tokens, evaluate_device_rate_limit, valid_bucket, open_bucket,
}
use eki.Prelude.{
  ◌-◌, max, if◌then◌else◌, ◌≤◌, arith, none, ◌∷◌, [], inr, inl, Option-cases, leb, ◌+◌, ltb, some,
  false, ◌<◌, List, ◌≡◌, Option, ℕ,
}

evaluate-reserve_granted :
    (existing : Option RateBucket) (now limit : ℕ)
    → 0 < limit
    → (d : TokenReservationDecision) → reserve_rate_limit_tokens existing now limit 1 ≡ some d
    → ((evaluate_device_rate_limit existing now limit).allowed ≡ ltb 0 d.granted)
      × ((evaluate_device_rate_limit existing now limit).retry_after_ms ≡ d.retry_after_ms)
unfolding evaluate_device_rate_limit reserve_rate_limit_tokens
evaluate-reserve_granted existing now limit h d e = elim (Option-cases (open_bucket existing now)) [
  | inl q ↦ grind arith
  | inr (b, q) ↦ grind arith
]

-- For every stored bucket and positive limit, reserveRateLimitTokens answers a request for one
-- token, evaluateDeviceRateLimit allows a request exactly when that answer grants the token, and
-- both ask for the same wait.
pub evaluate-reserve :
    (existing : Option RateBucket) (now limit : ℕ)
    → 0 < limit
    → (d : TokenReservationDecision) × (reserve_rate_limit_tokens existing now limit 1 ≡ some d)
      × ((evaluate_device_rate_limit existing now limit).allowed ≡ ltb 0 d.granted)
      × ((evaluate_device_rate_limit existing now limit).retry_after_ms ≡ d.retry_after_ms)
evaluate-reserve existing now limit h =
    elim (Option-cases (reserve_rate_limit_tokens existing now limit 1)) [
      | inl q ↦ absurd (unfold reserve_rate_limit_tokens in grind arith)
      | inr (d, q) ↦
          let (same, waits) = evaluate-reserve_granted existing now limit h d q in
          (d, q, same, waits)
    ]

open_bucket_lem :
    (existing : Option RateBucket) (now : ℕ) (b : RateBucket)
    → open_bucket existing now ≡ some b
    → (b.started_at ≤ now) × (now < b.started_at + window_ms)
unfolding open_bucket valid_bucket
open_bucket_lem none now b e = ground arith
open_bucket_lem (some a) now b e = grind arith

open_bucket-later :
    (b : RateBucket) (now wait : ℕ)
    → b.started_at ≤ now
    → open_bucket (some b) (now + wait)
      ≡ (if leb (window_ms + b.started_at) (now + wait) then none else some b)
unfolding open_bucket valid_bucket
open_bucket-later b now wait h = grind arith

-- The wait that a refused request is told is exact: the device's next request is allowed when it
-- comes at least that long after, and refused, on the bucket that the refusal stored, before.
pub evaluate-retry :
    (existing : Option RateBucket) (now limit wait : ℕ)
    → (evaluate_device_rate_limit existing now limit).allowed ≡ false
    → (evaluate_device_rate_limit
        (some (evaluate_device_rate_limit existing now limit).next)
        (now + wait)
        limit).allowed
      ≡ leb (evaluate_device_rate_limit existing now limit).retry_after_ms wait
evaluate-retry existing now limit wait h = elim (Option-cases (open_bucket existing now)) [
  | inl q ↦ unfold evaluate_device_rate_limit in ground arith
  | inr (b, q) ↦
      let (begun, running) = open_bucket_lem existing now b q in
      let full : leb (b.count + 1) limit ≡ false =
        unfold evaluate_device_rate_limit in ground arith in
      let next : RateBucket = record { started_at = b.started_at; count = b.count + 1 } in
      let told : DeviceRateLimitDecision = record {
        allowed = false;
        next = next;
        retry_after_ms = max 1 (window_ms + b.started_at - now);
      } in
      let eq : evaluate_device_rate_limit existing now limit ≡ told =
        unfold evaluate_device_rate_limit in ground arith in
      let later = open_bucket-later next now wait begun in
      rw (eq) (unfold evaluate_device_rate_limit in grind (arith, begun, running, full, later))
]

-- The tokens that a sequence of requests is granted, each at a time and for a number of tokens, and
-- the bucket that it leaves; a request that throws leaves the bucket.
unfoldable pub reserve_all : ℕ → Option RateBucket → List (ℕ × ℕ) → ℕ × Option RateBucket
reserve_all limit existing [] = (0, existing)
reserve_all limit existing ((now, requested) ∷ more) =
    elim (reserve_rate_limit_tokens existing now limit requested) [
      | none ↦ reserve_all limit existing more
      | some d ↦ (
        d.granted + (reserve_all limit (some d.next) more).0,
        (reserve_all limit (some d.next) more).1,
      )
    ]

-- Requests that come in the window that starts at a time.
abbrev pub AllInWindow : ℕ → List (ℕ × ℕ) → Type 0
AllInWindow start [] = Unit
AllInWindow start ((now, requested) ∷ more) =
    (start ≤ now) × (now < start + window_ms) × AllInWindow start more

reserve_lem :
    (limit : ℕ) (b : RateBucket) (now requested : ℕ) (d : TokenReservationDecision)
    → b.count ≤ limit
    → b.started_at ≤ now
    → now < b.started_at + window_ms
    → reserve_rate_limit_tokens (some b) now limit requested ≡ some d
    → (d.next.started_at ≡ b.started_at)
      × (d.next.count ≡ b.count + d.granted)
      × (d.next.count ≤ limit)
unfolding reserve_rate_limit_tokens open_bucket valid_bucket
reserve_lem limit b now requested d h begun running e = grind arith

-- In one window, however many requests for tokens come and of whatever size, the tokens granted add
-- up to no more than the limit, with those granted before, and the bucket counts them all.
pub reserve_all-limit :
    (limit : ℕ) (b : RateBucket) (requests : List (ℕ × ℕ))
    → b.count ≤ limit
    → AllInWindow b.started_at requests
    → ((reserve_all limit (some b) requests).0 + b.count ≤ limit)
      × ((reserve_all limit (some b) requests).1
          ≡ some (record b { count = b.count + (reserve_all limit (some b) requests).0 }))
reserve_all-limit limit b [] h w = unfold reserve_all in ground arith
reserve_all-limit limit b ((now, requested) ∷ more) h w =
    elim (Option-cases (reserve_rate_limit_tokens (some b) now limit requested)) [
      | inl q ↦
          let eq : reserve_all limit (some b) ((now, requested) ∷ more)
              ≡ reserve_all limit (some b) more =
            unfold reserve_all in ground arith in
          rw (eq) (reserve_all-limit limit b more h w.2)
      | inr (d, q) ↦
          let (keeps, counts, fits) = reserve_lem limit b now requested d h w.0 w.1 q in
          let rest = reserve_all limit (some d.next) more in
          let eq : reserve_all limit (some b) ((now, requested) ∷ more)
              ≡ (d.granted + rest.0, rest.1) =
            unfold reserve_all in ground arith in
          let (fewer, last) = reserve_all-limit limit d.next more fits (rw (keeps) w.2) in
          rw (eq) (grind (arith, keeps, counts, fewer, last))
    ]
