-- ===== src/RateLimit/Defs.antt =====
-- backend/src/services/deviceRateLimiter.ts. Times are whole milliseconds. A stored bucket with a
-- field that is no natural number counts as missing in the source, and is `none` here; the time that a
-- window has left, `WINDOW_MS - (now - startedAt)`, is `window_ms + started_at - now`.
use eki.Prelude.OrderedMap.{remove, set, lookup}
use eki.Prelude.{
  ◌∷◌, [], [], max, length, ◌+◌, ◌&&◌, ◌||◌, ◌==◌, not, ltb, leb, true, if◌then◌else◌, min, is_some,
  ◌-◌, none, some, List, Bool, Option, ℕ,
}

abbrev pub window_ms : ℕ
window_ms = 60_000

pub record RateBucket : Type 0 where
  pub started_at : ℕ
  pub count : ℕ

pub record DeviceRateLimitDecision : Type 0 where
  pub allowed : Bool
  pub next : RateBucket
  pub retry_after_ms : ℕ

pub record TokenReservationDecision : Type 0 where
  pub granted : ℕ
  pub next : RateBucket
  pub retry_after_ms : ℕ

-- What the shared allocator answers.
pub record DistributedTokenReservation : Type 0 where
  pub granted : ℕ
  pub expires_at : ℕ
  pub retry_after_ms : ℕ
  pub transaction_attempts : ℕ

pub data Source : Type 0 where
  local : Source
  lease : Source
  reservation : Source

pub record DeviceRateLimitResult : Type 0 where
  pub retry_after_ms : Option ℕ
  pub source : Source
  pub reserved_tokens : ℕ
  pub transaction_attempts : ℕ

pub record LocalTokenLease : Type 0 where
  pub expires_at : ℕ
  pub remaining : ℕ

pub record DeviceRateLimitConfiguration : Type 0 where
  pub limit : ℕ
  pub lease_size : ℕ
  pub max_tracked_devices : ℕ

unfoldable pub valid_bucket : Option RateBucket → ℕ → Option RateBucket
valid_bucket none now = none
valid_bucket (some b) now = if leb b.started_at now then some b else none

-- The bucket that counts at a time, `none` where a new window starts.
unfoldable pub open_bucket : Option RateBucket → ℕ → Option RateBucket
unfolding valid_bucket
open_bucket existing now = elim (valid_bucket existing now) [
  | none ↦ none
  | some b ↦ if leb window_ms (now - b.started_at) then none else some b
]

unfoldable pub evaluate_device_rate_limit : Option RateBucket → ℕ → ℕ → DeviceRateLimitDecision
evaluate_device_rate_limit existing now limit = elim (open_bucket existing now) [
  | none ↦ record {
    allowed = true;
    next = record { started_at = now; count = 1 };
    retry_after_ms = 0;
  }
  | some b ↦
      let allowed = leb (b.count + 1) limit in
      record {
        allowed = allowed;
        next = record { started_at = b.started_at; count = b.count + 1 };
        retry_after_ms = if allowed then 0 else max 1 (window_ms + b.started_at - now);
      }
]

-- `none` where it throws.
unfoldable pub reserve_rate_limit_tokens :
    Option RateBucket → ℕ → ℕ → ℕ → Option TokenReservationDecision
reserve_rate_limit_tokens existing now limit requested =
    let current : RateBucket = elim (open_bucket existing now) [
      | none ↦ record { started_at = now; count = 0 }
      | some b ↦ b
    ] in
    let granted = min requested (limit - current.count) in
    if limit == 0 || requested == 0
    then none
    else some (record {
      granted = granted;
      next = record { started_at = current.started_at; count = current.count + granted };
      retry_after_ms = if ltb 0 granted then 0 else max 1 (window_ms + current.started_at - now);
    })

-- The time until the first of some buckets ends, up to the given one.
unfoldable pub shortest_wait : {K : Type 0} → ℕ → ℕ → List (K × RateBucket) → ℕ
shortest_wait now wait [] = wait
shortest_wait now wait ((k, b) ∷ m) =
    shortest_wait now (min wait (max 1 (window_ms + b.started_at - now))) m

-- A device id is of any type with decidable equality; `truthy` is false for the empty one.
module _ {K : Type 0} (dec : Discrete K) (truthy : K → Bool) where
  unfoldable pub drop_oldest : {T : Type 0} → List (K × T) → List (K × T)
  drop_oldest [] = []
  drop_oldest ((k, v) ∷ m) = if truthy k then m else (k, v) ∷ m

  unfoldable pub set_bounded : {T : Type 0} → List (K × T) → K → T → ℕ → List (K × T)
  unfolding drop_oldest
  set_bounded m k v maximum =
      set dec k v
        (if not (is_some (lookup dec k m)) && leb maximum (length m) then drop_oldest m else m)

  abbrev pub local_result : Option ℕ → DeviceRateLimitResult
  local_result retry = record {
    retry_after_ms = retry;
    source = local;
    reserved_tokens = 0;
    transaction_attempts = 0;
  }

  -- The buckets whose window is not over. On ℕ a bucket from the future has age 0.
  unfoldable pub drop_expired : ℕ → List (K × RateBucket) → List (K × RateBucket)
  drop_expired now [] = []
  drop_expired now ((k, b) ∷ m) =
      let rest = drop_expired now m in
      if leb window_ms (now - b.started_at) then rest else (k, b) ∷ rest

  -- `consumeUnlocked` in local mode, on `localBuckets`.
  unfoldable pub consume_local :
      DeviceRateLimitConfiguration
      → K
      → ℕ
      → List (K × RateBucket)
      → List (K × RateBucket) × DeviceRateLimitResult
  consume_local c k now m =
      let known = is_some (lookup dec k m) in
      let kept = if known then m else drop_expired now m in
      let decision = evaluate_device_rate_limit (lookup dec k kept) now c.limit in
      if not known && leb c.max_tracked_devices (length kept)
      then (
        kept,
        local_result (
            some (elim kept [
              | [] ↦ 0
              | (j, b) ∷ rest ↦ shortest_wait now (max 1 (window_ms + b.started_at - now)) rest
            ])),
      )
      else (
        set dec k decision.next kept,
        local_result (if decision.allowed then none else some decision.retry_after_ms),
      )

  -- `consumeUnlocked` in distributed mode, on `localLeases`, up to the call of the allocator: the
  -- result, or `none` where the allocator is asked.
  unfoldable pub consume_lease :
      K → ℕ → List (K × LocalTokenLease) → List (K × LocalTokenLease) × Option DeviceRateLimitResult
  consume_lease k now m = elim (lookup dec k m) [
    | none ↦ (m, none)
    | some l ↦
        if ltb now l.expires_at && ltb 0 l.remaining
        then (
          set dec k (record l { remaining = l.remaining - 1 }) m,
          some (record {
            retry_after_ms = none;
            source = lease;
            reserved_tokens = 0;
            transaction_attempts = 0;
          }),
        )
        else (remove dec k m, none)
  ]

  -- The rest, once the allocator has answered; `none` where it throws.
  unfoldable pub accept_reservation :
      DeviceRateLimitConfiguration
      → K
      → ℕ
      → DistributedTokenReservation
      → List (K × LocalTokenLease)
      → List (K × LocalTokenLease) × Option DeviceRateLimitResult
  unfolding set_bounded
  accept_reservation c k now r m =
      let stored =
        set_bounded m k (record { expires_at = r.expires_at; remaining = r.granted - 1 })
          c.max_tracked_devices in
      if ltb c.lease_size r.granted || r.transaction_attempts == 0
      then (m, none)
      else if r.granted == 0
      then (
        m,
        if r.retry_after_ms == 0
            then none
            else some (record {
              retry_after_ms = some (max 1 r.retry_after_ms);
              source = reservation;
              reserved_tokens = 0;
              transaction_attempts = r.transaction_attempts;
            }),
      )
      else if leb r.expires_at now
      then (m, none)
      else (
        stored,
        some (record {
          retry_after_ms = none;
          source = reservation;
          reserved_tokens = r.granted;
          transaction_attempts = r.transaction_attempts;
        }),
      )
