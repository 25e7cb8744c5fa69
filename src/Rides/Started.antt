-- ===== src/Rides/Started.antt =====
-- The transactions of backend/src/services/rideSessionStart.ts, backend/src/routes/shifts.ts and
-- backend/src/services/abandonedRideReconciler.ts keep the documents of a bus consistent.
use eki.Rides.Owned.{
  IsUnused, unused-facts, maybe_dropped, facts-set, journey_key, brief_of, lock_id, dropped_lem,
  moved, freed_lem, finished-IsOwned, kept-IsOwned, facts, IsOwned,
}
use eki.Direction.Endpoint.{RideDirection}
use eki.Prelude.{
  not, ◌&&◌, if◌then◌else◌, sym, ◌==◌, refl, Bool-cases, ◌∙◌, inr, ap, inl, Option-cases, is_some,
  ℕ, ℕ_discrete, Option, some, none, Bool, false, ◌≡◌, arith,
}
use eki.Prelude.OrderedMap.{set}
use eki.Rides.Consistent.{opened-IsConsistent}
use eki.Rides.Records.{
  failed_ride, interrupted_ride, RideStatus, BusLock, BusStore, Session, is_unfinished,
}
use eki.Rides.Start.{
  is_interrupted, open_service, opened_session, put_session, refuses_resume, interrupt_ride,
  fail_service, end_early, start_service, ended_store, opened_store, resumed_store,
  ServiceAssignment, resume_service, find_session, release_lock, drop_ride,
}

module _ {S N : Type 0} where
  -- A finished session gives back its ride, and has no lock.
  freed-IsOwned :
      (route i : ℕ) (s : Session S N) (b : BusStore S N)
      → IsOwned b
      → find_session i b ≡ some s
      → is_unfinished s.status ≡ false
      → IsOwned (release_lock i (drop_ride route i b))
  unfolding IsOwned
  freed-IsOwned route i s b h found over =
      let (ss, jj, freed) = freed_lem i (drop_ride route i b) in
      let (ds, dj, dl) = dropped_lem route i b in
      let same : lock_id (release_lock i (drop_ride route i b)).lock ≡ lock_id b.lock =
        grind (arith, freed, ap lock_id dl, h.owner i, ap brief_of found, over) in
      rw (ss ∙ ds, jj ∙ dj, same) h

  resumed_lem :
      (r : Option RideDirection) (v : ℕ) (l : BusLock) (s : Session S N) (b : BusStore S N)
      → IsOwned b
      → b.lock ≡ some l
      → find_session l.session_id b ≡ some s
      → IsOwned (resumed_store r v l s b)
  unfolding resumed_store
  resumed_lem r v l s b h held found =
      kept-IsOwned l.session_id s (record s { direction = r; endpoint_version = some v }) b
        (resumed_store r v l s b) h found refl refl refl (sym (ap lock_id held))

  resume_service-IsOwned :
      (a : ServiceAssignment) (r : Option RideDirection) (v : ℕ) (l : BusLock) (b : BusStore S N)
      → IsOwned b
      → b.lock ≡ some l
      → IsOwned (resume_service a r v l b).0
  resume_service-IsOwned a r v l b h held = elim (Option-cases (find_session l.session_id b)) [
    | inl n ↦ moved h (unfold resume_service in ground (arith, n))
    | inr (s, q) ↦ elim (Bool-cases (refuses_resume a r l s)) [
      | inl e ↦ moved h (unfold resume_service in ground (arith, q, e))
      | inr e ↦ elim (Bool-cases (is_some r && not (is_some s.direction))) [
        | inl d ↦
            moved (resumed_lem r v l s b h held q)
              (unfold resume_service in ground (arith, q, e, d))
        | inr d ↦ moved h (unfold resume_service in ground (arith, q, e, d))
      ]
    ]
  ]

  opened_lem :
      (a : ServiceAssignment) (r : Option RideDirection) (v new : ℕ) (now : N) (b : BusStore S N)
      → IsOwned b
      → b.lock ≡ none
      → find_session new b ≡ none
      → IsUnused new b
      → IsOwned (opened_store a r v new now b)
  unfolding opened_store IsOwned
  opened_lem a r v new now b h free fresh unused =
      opened-IsConsistent (facts b.sessions)
        (facts (set ℕ_discrete new (opened_session a r v now) b.sessions)) (lock_id b.lock)
        (journey_key b.terminal_journey) h new (ap lock_id free) (ap brief_of fresh)
        (unused-facts new b unused) (λ k. facts-set new k (opened_session a r v now) b.sessions)

  -- A start keeps the documents consistent.
  pub start_service-IsOwned :
      (a : ServiceAssignment) (r : Option RideDirection) (v new : ℕ) (now : N) (b : BusStore S N)
      → IsOwned b
      → IsUnused new b
      → IsOwned (start_service a r v new now b).0
  start_service-IsOwned a r v new now b h unused = elim (Option-cases b.lock) [
    | inr (l, q) ↦
        moved (resume_service-IsOwned a r v l b h q) (unfold start_service in ground (arith, q))
    | inl n ↦ elim (Option-cases (find_session new b)) [
      | inl q ↦
          moved (opened_lem a r v new now b h n q unused)
            (unfold start_service open_service in ground (arith, n, q))
      | inr (s, q) ↦ moved h (unfold start_service open_service in ground (arith, n, q))
    ]
  ]

  -- A session that ends, after its ride may have been deleted.
  pub ended_store-IsOwned :
      (i : ℕ) (status : RideStatus) (now : N) (s : Session S N) (b c : BusStore S N)
      → IsOwned b
      → is_unfinished status ≡ false
      → find_session i b ≡ some s
      → (c.sessions ≡ b.sessions) × (c.terminal_journey ≡ b.terminal_journey) × (c.lock ≡ b.lock)
      → IsOwned (ended_store i status now s c)
  unfolding ended_store
  ended_store-IsOwned i status now s b c h over found (ss, jj, ll) =
      finished-IsOwned i s (record s { status = status; end_time = some now }) b
        (put_session i (record s { status = status; end_time = some now }) c) h found
        (ap (λ (u : Bool). (u, s.previous_session_id)) over)
        (ap (set ℕ_discrete i (record s { status = status; end_time = some now })) ss) jj ll

  pub fail_service-IsOwned :
      (i : ℕ) (now : N) (b : BusStore S N) → IsOwned b → IsOwned (fail_service i now b)
  fail_service-IsOwned i now b h = elim (Option-cases (find_session i b)) [
    | inl n ↦ moved h (unfold fail_service in ground (arith, n))
    | inr (s, q) ↦
        moved (ended_store-IsOwned i failed_ride now s b b h refl q (refl, refl, refl))
          (unfold fail_service in ground (arith, q))
  ]

  pub interrupt_ride-IsOwned :
      (route i : ℕ) (decided : Option N) (old : Bool) (b : BusStore S N)
      → IsOwned b
      → IsOwned (interrupt_ride route i decided old b).0
  interrupt_ride-IsOwned route i decided old b h = elim (Option-cases (find_session i b)) [
    | inl n ↦ moved h (unfold interrupt_ride in ground (arith, n))
    | inr (s, q) ↦ elim (Option-cases decided) [
      | inl n ↦ moved h (unfold interrupt_ride in ground (arith, q, n))
      | inr (last, d) ↦ elim (Bool-cases (is_unfinished s.status)) [
        | inr e ↦ moved h (unfold interrupt_ride in ground (arith, q, d, e))
        | inl e ↦
            let dropped = if old then drop_ride route i b else b in
            moved
              (ended_store-IsOwned i interrupted_ride last s b dropped h refl q
                (maybe_dropped old route i b))
              (unfold interrupt_ride in ground (arith, q, d, e))
      ]
    ]
  ]

  pub end_early-IsOwned :
      (a : ServiceAssignment) (i : ℕ) (now : N) (b : BusStore S N)
      → IsOwned b
      → IsOwned (end_early a i now b).0
  end_early-IsOwned a i now b h = elim (Option-cases (find_session i b)) [
    | inl n ↦ moved h (unfold end_early in ground (arith, n))
    | inr (s, q) ↦ elim (Bool-cases ((s.driver_id == a.driver_id) && (s.route_id == a.route_id))) [
      | inr d ↦ moved h (unfold end_early in ground (arith, q, d))
      | inl d ↦ elim (Bool-cases (is_unfinished s.status)) [
        | inl e ↦
            moved
              (ended_store-IsOwned i interrupted_ride now s b (drop_ride a.route_id i b) h refl q
                (dropped_lem a.route_id i b))
              (unfold end_early in ground (arith, q, d, e))
        | inr e ↦ elim (Bool-cases (is_interrupted s.status)) [
          | inr w ↦ moved h (unfold end_early in ground (arith, q, d, e, w))
          | inl w ↦
              moved (freed-IsOwned a.route_id i s b h q e)
                (unfold end_early in ground (arith, q, d, e, w))
        ]
      ]
    ]
  ]
