-- ===== src/Abandoned/Decision.antt =====
-- When a ride counts as abandoned (`reconciliationDecision` of
-- backend/src/services/abandonedRideReconciliationLogic.ts).
use eki.Abandoned.Defs.{
  SessionStatus, pending, armed, active, other_status, matching_session, matching_bus,
  unused_automatic_return, matching_ride, ride_times, activity_values, decide, is_reconcilable,
  bus_times, ActiveRide, RideSession, LiveBus, reconciliation_decision, is_inactive, latest,
}
use eki.Trip.Types.{TripState, pre_departure}
use eki.Prelude.{
  inr, inl, Option-cases, leb, ◌+◌, ite, ap, sym, ◌∙◌, ◌||◌, is_some, ◌++◌, false, arith, holds,
  not, ℕ, List, [], ◌∷◌, Option, some, none, Bool, true, ◌≡◌, ◌&&◌, refl,
}

-- Whether all the known times pass a test, and whether there is one.
pub all_known : (ℕ → Bool) → List (Option ℕ) → Bool
all_known p [] = true
all_known p (t ∷ ts) = let rest = all_known p ts in not (holds (λ u. not (p u)) t) && rest

latest-all_known :
    (unused : Bool) (cutoff now : ℕ) (ts : List (Option ℕ))
    → all_known (is_inactive unused cutoff now) ts
      ≡ not (holds (λ u. not (is_inactive unused cutoff now u)) (latest ts))
unfolding latest all_known
latest-all_known unused cutoff now [] = refl
latest-all_known unused cutoff now (none ∷ ts) =
    let ih = latest-all_known unused cutoff now ts in ground (arith, ih)
latest-all_known unused cutoff now (some t ∷ ts) =
    let ih = latest-all_known unused cutoff now ts in ground (arith, ih)

pub any_known : List (Option ℕ) → Bool
any_known [] = false
any_known (t ∷ ts) = let rest = any_known ts in is_some t || rest

latest-any_known : (ts : List (Option ℕ)) → is_some (latest ts) ≡ any_known ts
unfolding latest any_known
latest-any_known [] = refl
latest-any_known (none ∷ ts) = latest-any_known ts
latest-any_known (some t ∷ ts) = ground arith

all_known-append :
    (p : ℕ → Bool) (ts us : List (Option ℕ))
    → all_known p (ts ++ us) ≡ (all_known p ts && all_known p us)
unfolding all_known
all_known-append p [] us = refl
all_known-append p (t ∷ ts) us = let ih = all_known-append p ts us in ground (arith, ih)

any_known-append : (ts us : List (Option ℕ)) → any_known (ts ++ us) ≡ (any_known ts || any_known us)
unfolding any_known
any_known-append [] us = refl
any_known-append (t ∷ ts) us = let ih = any_known-append ts us in ground (arith, ih)

-- The times of the record that belongs to the session, if there is one.
abbrev pub times_of_ride : {I : Type 0} → Option (ActiveRide I) → List (Option ℕ)
times_of_ride none = []
times_of_ride (some r) = r.updated_at ∷ r.created_at ∷ []

abbrev pub times_of_bus : {I : Type 0} → Option (LiveBus I) → List (Option ℕ)
times_of_bus none = []
times_of_bus (some b) = b.timestamp ∷ b.received_at ∷ b.lifecycle_updated_at ∷ []

-- The times of a session: its own five, and those of its stops, points and passengers.
abbrev pub times_of_session : RideSession → List (Option ℕ)
times_of_session s =
    s.created_at
    ∷ s.armed_at
    ∷ s.start_time
    ∷ s.activated_at
    ∷ s.updated_at
    ∷ (s.stops_reached ++ (s.path ++ s.passengers))

-- All times of a session and its records.
abbrev pub all_times :
    {I : Type 0} → RideSession → Option (ActiveRide I) → Option (LiveBus I) → List (Option ℕ)
all_times s ride bus = times_of_session s ++ (times_of_ride ride ++ times_of_bus bus)

-- The records whose session is the one asked for.
abbrev pub ride_of : {I : Type 0} → Discrete I → I → Option (ActiveRide I) → Option (ActiveRide I)
ride_of dec i ride = elim ride [
  | none ↦ none
  | some r ↦ elim r.session_id [ none ↦ none | some j ↦ ite (dec j i) (some r) none ]
]

abbrev pub bus_of : {I : Type 0} → Discrete I → I → Option (LiveBus I) → Option (LiveBus I)
bus_of dec i bus = elim bus [
  | none ↦ none
  | some b ↦ elim b.session_id [ none ↦ none | some j ↦ ite (dec j i) (some b) none ]
]

-- A session may be abandoned, and may be one of a return.
abbrev pub may_end : SessionStatus → Bool
may_end pending = true
may_end armed = true
may_end active = true
may_end other_status = false

abbrev pub may_be_unused : SessionStatus → Bool
may_be_unused armed = true
may_be_unused _ = false

abbrev pub never_left : Option TripState → Bool
never_left (some pre_departure) = true
never_left _ = false

-- A return that was armed by itself and not used: it has no start time, its durable ride is before its
-- departure, and so is its live bus, if there is one.
abbrev pub is_unused :
    {I : Type 0} → RideSession → Option (ActiveRide I) → Option (LiveBus I) → Bool
is_unused s ride bus =
    may_be_unused s.status
    && (s.automatic_turnaround
        && (not s.has_start_time
            && (elim ride [
              | none ↦ false
              | some r ↦
                  never_left r.trip_state
                  && elim r.has_departed_origin [ none ↦ false | some d ↦ not d ]
            ]
                && elim bus [ none ↦ true | some b ↦ never_left b.trip_state ])))

-- A time is at or before the cutoff, and of an unused return a day ago or more.
abbrev pub long_ago : Bool → ℕ → ℕ → ℕ → Bool
long_ago unused cutoff now t = leb t cutoff && (not unused || leb (t + 86_400_000) now)

abbrev times_that_count :
    {I : Type 0} → RideSession → Option (ActiveRide I) → Option (LiveBus I) → List (Option ℕ)
times_that_count s ride bus = activity_values s ++ (times_of_ride ride ++ times_of_bus bus)

abbrev pub has_time : {A : Type 0} → Option A → List (Option ℕ) → Bool
has_time record_of ts = not (is_some record_of) || any_known ts

three_lem :
    (p : ℕ → Bool) (a r b : Option ℕ)
    → (all_known p (a ∷ r ∷ b ∷ []) ≡ (
        not (holds (λ u. not (p u)) a)
        && (not (holds (λ u. not (p u)) r) && not (holds (λ u. not (p u)) b))))
      × (any_known (a ∷ r ∷ b ∷ []) ≡ (is_some a || (is_some r || is_some b)))
unfolding all_known any_known
three_lem p a r b = (ground arith, ground arith)

abbrev latest_ride : {I : Type 0} → Option (ActiveRide I) → Option ℕ
latest_ride ride = elim ride [ none ↦ none | some r ↦ latest (ride_times r) ]

abbrev latest_bus : {I : Type 0} → Option (LiveBus I) → Option ℕ
latest_bus bus = elim bus [ none ↦ none | some b ↦ latest (bus_times b) ]

ride_lem :
    {I : Type 0} (unused : Bool) (cutoff now : ℕ) (ride : Option (ActiveRide I))
    → (all_known (is_inactive unused cutoff now) (times_of_ride ride)
        ≡ not (holds (λ u. not (is_inactive unused cutoff now u)) (latest_ride ride)))
      × (any_known (times_of_ride ride) ≡ is_some (latest_ride ride))
ride_lem unused cutoff now none = (unfold all_known in refl, unfold any_known in refl)
ride_lem unused cutoff now (some r) =
    (latest-all_known unused cutoff now (ride_times r), sym (latest-any_known (ride_times r)))

bus_lem :
    {I : Type 0} (unused : Bool) (cutoff now : ℕ) (bus : Option (LiveBus I))
    → (all_known (is_inactive unused cutoff now) (times_of_bus bus)
        ≡ not (holds (λ u. not (is_inactive unused cutoff now u)) (latest_bus bus)))
      × (any_known (times_of_bus bus) ≡ is_some (latest_bus bus))
bus_lem unused cutoff now none = (unfold all_known in refl, unfold any_known in refl)
bus_lem unused cutoff now (some b) =
    (latest-all_known unused cutoff now (bus_times b), sym (latest-any_known (bus_times b)))

-- The decision in terms of the latest time of all.
decide_lem :
    {I : Type 0} (s : RideSession) (ride : Option (ActiveRide I)) (bus : Option (LiveBus I))
    (cutoff now : ℕ) (last : Option ℕ)
    → latest (latest (activity_values s) ∷ latest_ride ride ∷ latest_bus bus ∷ []) ≡ last
    → (decide s ride bus cutoff now).stale ≡ (
        is_reconcilable s.status
        && (((not (is_some ride) || is_some (latest_ride ride))
              && (not (is_some bus) || is_some (latest_bus bus)))
            && (is_some last
                && not (
                    holds
                      (λ u. not (is_inactive (unused_automatic_return s ride bus) cutoff now u))
                      last))))
unfolding decide
decide_lem s ride bus cutoff now none e = ground (arith, e)
decide_lem s ride bus cutoff now (some t) e = ground (arith, e)

stale_lem :
    {I : Type 0} (s : RideSession) (ride : Option (ActiveRide I)) (bus : Option (LiveBus I))
    (cutoff now : ℕ)
    → (decide s ride bus cutoff now).stale ≡ (
        is_reconcilable s.status
        && ((has_time ride (times_of_ride ride) && has_time bus (times_of_bus bus))
            && (any_known (times_that_count s ride bus)
                && all_known
                    (is_inactive (unused_automatic_return s ride bus) cutoff now)
                    (times_that_count s ride bus))))
stale_lem s ride bus cutoff now =
    let u = unused_automatic_return s ride bus in
    let acts = activity_values s in
    let (all_r, any_r) = ride_lem u cutoff now ride in
    let (all_b, any_b) = bus_lem u cutoff now bus in
    let all_a = latest-all_known u cutoff now acts in
    let any_a = latest-any_known acts in
    let all_split =
      all_known-append (is_inactive u cutoff now) acts (times_of_ride ride ++ times_of_bus bus)
      ∙ ap (λ c. all_known (is_inactive u cutoff now) acts && c)
          (all_known-append (is_inactive u cutoff now) (times_of_ride ride) (times_of_bus bus)) in
    let any_split =
      any_known-append acts (times_of_ride ride ++ times_of_bus bus)
      ∙ ap (λ c. any_known acts || c) (any_known-append (times_of_ride ride) (times_of_bus bus)) in
    let three = latest acts ∷ latest_ride ride ∷ latest_bus bus ∷ [] in
    let all_c = latest-all_known u cutoff now three in
    let any_c = latest-any_known three in
    let (all_three, any_three) =
      three_lem (is_inactive u cutoff now) (latest acts) (latest_ride ride) (latest_bus bus) in
    rw
      (
        all_split,
        any_split,
        all_r,
        any_r,
        all_b,
        any_b,
        all_a,
        ← any_a,
        ← any_three,
        ← all_three,
        ← any_c,
        all_c,
      )
      (decide_lem s ride bus cutoff now (latest three) refl)

matching_ride-of :
    {I : Type 0} (dec : Discrete I) (i : I) (ride : Option (ActiveRide I))
    → matching_ride dec i ride ≡ ride_of dec i ride
unfolding matching_ride matching_session
matching_ride-of dec i ride = elim (Option-cases ride) [
  | inl e ↦ rw (e) refl
  | inr (r, e) ↦ elim (Option-cases r.session_id) [
    | inl n ↦ grind (arith, e, n)
    | inr (j, n) ↦ elim (dec j i) [ yes q ↦ grind (arith, e, n, q) | no q ↦ grind (arith, e, n, q) ]
  ]
]

matching_bus-of :
    {I : Type 0} (dec : Discrete I) (i : I) (bus : Option (LiveBus I))
    → matching_bus dec i bus ≡ bus_of dec i bus
unfolding matching_bus matching_session
matching_bus-of dec i bus = elim (Option-cases bus) [
  | inl e ↦ rw (e) refl
  | inr (r, e) ↦ elim (Option-cases r.session_id) [
    | inl n ↦ grind (arith, e, n)
    | inr (j, n) ↦ elim (dec j i) [ yes q ↦ grind (arith, e, n, q) | no q ↦ grind (arith, e, n, q) ]
  ]
]

unused_automatic_return-unused :
    {I : Type 0} (s : RideSession) (ride : Option (ActiveRide I)) (bus : Option (LiveBus I))
    → unused_automatic_return s ride bus ≡ is_unused s ride bus
unfolding unused_automatic_return
unused_automatic_return-unused s ride bus = grind arith

-- A ride is abandoned exactly when its session is pending, armed or active, neither a live bus nor
-- an active ride of this session lacks a time, there is a time at all, and all times of the three
-- are at or before the cutoff, and for an unused automatic return a day old. The times of a session
-- are its creation, arming, start, activation and update, and those of its stops, points and
-- passengers; those of a ride are its update and its creation; those of a live bus its sample, its
-- receipt and the change of its lifecycle.
pub reconciliation_decision-stale :
    {I : Type 0} (dec : Discrete I) (i : I) (s : RideSession) (ride : Option (ActiveRide I))
    (bus : Option (LiveBus I)) (cutoff now : ℕ)
    → (reconciliation_decision dec i s ride bus cutoff now).stale ≡ (
        may_end s.status
        && ((has_time (ride_of dec i ride) (times_of_ride (ride_of dec i ride))
              && has_time (bus_of dec i bus) (times_of_bus (bus_of dec i bus)))
            && (any_known (all_times s (ride_of dec i ride) (bus_of dec i bus))
                && all_known
                    (long_ago (is_unused s (ride_of dec i ride) (bus_of dec i bus)) cutoff now)
                    (all_times s (ride_of dec i ride) (bus_of dec i bus)))))
unfolding reconciliation_decision activity_values
reconciliation_decision-stale dec i s ride bus cutoff now =
    let mine = matching_ride-of dec i ride in
    let bus_mine = matching_bus-of dec i bus in
    let unused = unused_automatic_return-unused s (ride_of dec i ride) (bus_of dec i bus) in
    rw (← unused, ← mine, ← bus_mine)
      (stale_lem s (matching_ride dec i ride) (matching_bus dec i bus) cutoff now)
