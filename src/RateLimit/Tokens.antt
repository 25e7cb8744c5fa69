-- ===== src/RateLimit/Tokens.antt =====
-- The tokens of all devices (AuthenticatedDeviceRateLimiter of
-- backend/src/services/deviceRateLimiter.ts).
use eki.RateLimit.Defs.{
  drop_oldest, lease, DistributedTokenReservation, accept_reservation, window_ms,
  DeviceRateLimitResult, LocalTokenLease, RateBucket, DeviceRateLimitConfiguration, drop_expired,
  consume_lease, consume_local,
}
use eki.Prelude.OrderedMap.{
  remove, lookup-remove_ne, lookup-remove_self, lookup-set, IsDistinct, measure, lookup, set,
}
use eki.Prelude.{
  min, leb, ◌-◌, ◌&&◌, ltb, not, Bool-cases, inr, true, inl, ◌⊎◌, Option-cases, refl, none, ◌+◌,
  is_some, arith, if◌then◌else◌, ◌<◌, ◌≢◌, ◌≤◌, some, ◌≡◌, length, List, Option, ℕ, Bool, ◌∷◌, [],
}

-- The requests that an answer allows.
abbrev pub passes : Option DeviceRateLimitResult → ℕ
passes none = 0
passes (some r) = if is_some r.retry_after_ms then 0 else 1

module _ {K : Type 0} (dec : Discrete K) (truthy : K → Bool) where
  lookup-drop_expired :
      (k : K) (now : ℕ) (m : List (K × RateBucket)) (b : RateBucket)
      → lookup dec k m ≡ some b
      → now < b.started_at + window_ms
      → lookup dec k (drop_expired dec truthy now m) ≡ some b
  unfolding lookup drop_expired
  lookup-drop_expired k now [] b e w = ground arith
  lookup-drop_expired k now ((j, a) ∷ m) b e w = ground (arith, lookup-drop_expired k now m b)

  length-set :
      {T : Type 0}
      → (k : K) (v : T) (m : List (K × T))
      → length (set dec k v m) ≡ (if is_some (lookup dec k m) then length m else length m + 1)
  unfolding set lookup
  length-set k v [] = refl
  length-set k v ((j, w) ∷ m) = ground (arith, length-set k v m)

  length-drop_expired :
      (now : ℕ) (m : List (K × RateBucket)) → length (drop_expired dec truthy now m) ≤ length m
  unfolding drop_expired
  length-drop_expired now [] = ground arith
  length-drop_expired now ((j, a) ∷ m) = ground (arith, length-drop_expired now m)

  -- The buckets among which a request looks for its own.
  abbrev kept : K → ℕ → List (K × RateBucket) → List (K × RateBucket)
  kept k now m = if is_some (lookup dec k m) then m else drop_expired dec truthy now m

  lookup-kept :
      (k j : K) (now : ℕ) (m : List (K × RateBucket)) (b : RateBucket)
      → lookup dec j m ≡ some b
      → now < b.started_at + window_ms
      → lookup dec j (kept k now m) ≡ some b
  lookup-kept k j now m b e w = ground (arith, e, lookup-drop_expired j now m b e w)

  consume_local-cases :
      (c : DeviceRateLimitConfiguration) (k : K) (now : ℕ) (m : List (K × RateBucket))
      → ((consume_local dec truthy c k now m).0 ≡ kept k now m)
        ⊎ ((v : RateBucket) × ((consume_local dec truthy c k now m).0 ≡ set dec k v (kept k now m))
            × ((is_some (lookup dec k m) ≡ true) ⊎ (length (kept k now m) < c.max_tracked_devices)))
  unfolding consume_local
  consume_local-cases c k now m =
      elim (Bool-cases
        (not (is_some (lookup dec k m)) && leb c.max_tracked_devices (length (kept k now m)))) [
          | inl q ↦ rw (q) (inl refl)
          | inr q ↦ rw (q) (inr (_, refl, ground arith))
        ]

  -- A request of one device, accepted or refused, never drops or changes the bucket of another
  -- device whose window is not over.
  pub consume_local-keeps :
      (c : DeviceRateLimitConfiguration) (k j : K) (now : ℕ) (m : List (K × RateBucket))
      (b : RateBucket)
      → k ≢ j
      → lookup dec j m ≡ some b
      → now < b.started_at + window_ms
      → lookup dec j (consume_local dec truthy c k now m).0 ≡ some b
  consume_local-keeps c k j now m b n e w = elim (consume_local-cases c k now m) [
    | inl q ↦ rw (q) (lookup-kept k j now m b e w)
    | inr (v, q, room) ↦
        rw (q) (ground (arith, n, lookup-set dec k j v (kept k now m), lookup-kept k j now m b e w))
  ]

  -- When no more devices than configured are tracked before a request in local mode, no more are
  -- after it.
  pub consume_local-bounded :
      (c : DeviceRateLimitConfiguration) (k : K) (now : ℕ) (m : List (K × RateBucket))
      → length m ≤ c.max_tracked_devices
      → length (consume_local dec truthy c k now m).0 ≤ c.max_tracked_devices
  consume_local-bounded c k now m h = elim (consume_local-cases c k now m) [
    | inl q ↦ rw (q) (ground (arith, h, length-drop_expired now m))
    | inr (v, q, room) ↦ rw (q) (ground (arith, h, room, length-set k v (kept k now m)))
  ]

  -- The tokens that are left for a device.
  abbrev pub credit : K → List (K × LocalTokenLease) → ℕ
  credit k m = measure dec (λ (l : LocalTokenLease). l.remaining) (lookup dec k m)

  -- A request that a lease answers is paid with one of its device's tokens, and one that goes on to
  -- the allocator leaves its device no token of the old lease. No other device loses a token.
  pub consume_lease-credit :
      (k : K) (now : ℕ) (m : List (K × LocalTokenLease))
      → IsDistinct dec m
      → (passes (consume_lease dec truthy k now m).1 + credit k (consume_lease dec truthy k now m).0
          ≡ (if is_some (consume_lease dec truthy k now m).1 then credit k m else 0))
        × ((j : K) → k ≢ j → credit j (consume_lease dec truthy k now m).0 ≡ credit j m)
  consume_lease-credit k now m h = elim (Option-cases (lookup dec k m)) [
    | inl q ↦
        let eq : consume_lease dec truthy k now m ≡ (m, none) =
          unfold consume_lease in ground arith in
        rw (eq) (ground arith, λ j n. refl)
    | inr (l, q) ↦
        let one_less : LocalTokenLease = record l { remaining = l.remaining - 1 } in
        let paid : DeviceRateLimitResult = record {
          retry_after_ms = none;
          source = lease;
          reserved_tokens = 0;
          transaction_attempts = 0;
        } in
        elim (Bool-cases (ltb now l.expires_at && ltb 0 l.remaining)) [
          | inl live ↦
              let eq : consume_lease dec truthy k now m ≡ (set dec k one_less m, some paid) =
                unfold consume_lease in ground arith in
              rw (eq) (
                ground (arith, lookup-set dec k k one_less m),
                λ j n. ground (arith, n, lookup-set dec k j one_less m),
              )
          | inr over ↦
              let eq : consume_lease dec truthy k now m ≡ (remove dec k m, none) =
                unfold consume_lease in ground arith in
              rw (eq) (
                ground (arith, lookup-remove_self dec k m h),
                λ j n. ground (arith, n, lookup-remove_ne dec k j m n),
              )
        ]
  ]

  -- For a device without tokens, the request that an allocation allows, if it does, and the tokens
  -- that the device has left after it are together at most the tokens granted and at most the
  -- configured size of a lease.
  pub accept_reservation-credit :
      (c : DeviceRateLimitConfiguration) (k : K) (now : ℕ) (r : DistributedTokenReservation)
      (m : List (K × LocalTokenLease))
      → credit k m ≡ 0
      → passes (accept_reservation dec truthy c k now r m).1
          + credit k (accept_reservation dec truthy c k now r m).0
        ≤ min r.granted c.lease_size
  unfolding accept_reservation
  accept_reservation-credit c k now r m h =
      let lease' : LocalTokenLease = record {
        expires_at = r.expires_at;
        remaining = r.granted - 1;
      } in
      let room = not (is_some (lookup dec k m)) && leb c.max_tracked_devices (length m) in
      let found = lookup-set dec k k lease' (if room then drop_oldest dec truthy m else m) in
      ground (arith, h, found)
