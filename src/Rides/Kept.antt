-- ===== src/Rides/Kept.antt =====
-- The transactions of backend/src/services/tripStateEngine.ts keep the documents of a bus consistent.
use eki.Rides.Return.{arm_return, return_session, may_return, open_return}
use eki.Rides.Consistent.{returned-IsConsistent}
use eki.Prelude.OrderedMap.{set, lookup}
use eki.Rides.Completion.{
  journey_of, finished_session, completed_store, is_completed_ride, trip_of, finish_session,
  Completion, complete_ride,
}
use eki.Rides.Start.{drop_ride, owns_lock, put_session, find_session}
use eki.Rides.Engine.{
  durable_ride, persist_active_ride, same_session_ride, checkpoint_of, commit_progress,
  RideCheckpoint, RideProgress, with_progress,
}
use eki.Geo.{Float}
use eki.Direction.Endpoint.{RideDirection}
use eki.Prelude.{
  ap, false, &&-eq-true, ◌&&◌, ℕ_discrete, none, length, ℕ, List, some, true, ◌≡◌, refl, arith, inl,
  inr, Option-cases, Bool-cases,
}
use eki.Rides.Owned.{
  IsUnused, unused-facts, unused-journey, facts-set, brief_of, lock_id, facts, journey_key,
  checkpointed-IsOwned, finished-IsOwned, dropped_lem, kept-IsOwned, brief, IsOwned, moved,
}
use eki.Rides.Records.{
  TerminalJourney, CompletedTrip, BusStore, Session, LiveNode, DurableRide, is_unfinished,
}

module _ (F : Float) {S : Type 0} where
  open F use {Num}

  with_progress-brief :
      (e : LiveNode Num) (p : RideProgress Num) (c : RideCheckpoint Num) (stops : List S)
      (now : Num) (s : Session S Num)
      → is_unfinished s.status ≡ true
      → brief (with_progress F e p c stops now s) ≡ brief s
  unfolding with_progress
  with_progress-brief e p c stops now s open_session = ground (arith, open_session)

  rides_lem :
      (b : BusStore S Num) (rs : List (ℕ × DurableRide Num))
      → IsOwned b
      → IsOwned (record b { rides = rs })
  unfolding IsOwned
  rides_lem b rs h = h

  completions_lem :
      (b : BusStore S Num) (ts : List (ℕ × CompletedTrip Num))
      → IsOwned b
      → IsOwned (record b { route_completions = ts })
  unfolding IsOwned
  completions_lem b ts h = h

  progressed_lem :
      (i : ℕ) (s s' : Session S Num) (b : BusStore S Num) (rs : List (ℕ × DurableRide Num))
      → IsOwned b
      → find_session i b ≡ some s
      → brief s' ≡ brief s
      → IsOwned (record (put_session i s' b) { rides = rs })
  progressed_lem i s s' b rs h found same =
      kept-IsOwned i s s' b (record (put_session i s' b) { rides = rs }) h found same refl refl refl

  commit_progress-IsOwned :
      (e : LiveNode Num) (p : RideProgress Num) (stops : List S) (now : Num) (i driver : ℕ)
      (d : RideDirection) (b : BusStore S Num)
      → IsOwned b
      → IsOwned (commit_progress F e p stops now i driver d b).0
  commit_progress-IsOwned e p stops now i driver d b h =
      let c = checkpoint_of F e p (length stops) (same_session_ride F e.route_id i b) in
      let ride = durable_ride F e p c i driver d (lookup ℕ_discrete e.route_id b.rides) in
      let rides = set ℕ_discrete e.route_id ride b.rides in
      elim (Bool-cases (owns_lock i b)) [
        | inr n ↦ moved h (unfold commit_progress in ground (arith, n))
        | inl o ↦ elim (Option-cases (find_session i b)) [
          | inl n ↦ moved (rides_lem b rides h) (unfold commit_progress in ground (arith, o, n))
          | inr (s, q) ↦ elim (Bool-cases (is_unfinished s.status)) [
            | inr u ↦
                moved (rides_lem b rides h) (unfold commit_progress in ground (arith, o, q, u))
            | inl u ↦
                moved
                  (progressed_lem i s (with_progress F e p c stops now s) b rides h q
                    (with_progress-brief e p c stops now s u))
                  (unfold commit_progress in ground (arith, o, q, u))
          ]
        ]
      ]

  pub persist_active_ride-IsOwned :
      (e : LiveNode Num) (p : RideProgress Num) (stops : List S) (now : Num) (b : BusStore S Num)
      → IsOwned b
      → IsOwned (persist_active_ride F e p stops now b).0
  persist_active_ride-IsOwned e p stops now b h = elim (Option-cases e.session_id) [
    | inl n ↦ moved h (unfold persist_active_ride in ground (arith, n))
    | inr (i, s) ↦ elim (Option-cases e.driver_id) [
      | inl n ↦ moved h (unfold persist_active_ride in ground (arith, s, n))
      | inr (driver, v) ↦ elim (Option-cases e.direction) [
        | inl n ↦ moved h (unfold persist_active_ride in ground (arith, s, v, n))
        | inr (d, w) ↦ elim (Bool-cases e.is_active) [
          | inr n ↦ moved h (unfold persist_active_ride in ground (arith, s, v, w, n))
          | inl a ↦
              moved (commit_progress-IsOwned e p stops now i driver d b h)
                (unfold persist_active_ride in ground (arith, s, v, w, a))
        ]
      ]
    ]
  ]

  -- The session of the lock completes.
  finish_session-IsOwned :
      (e : LiveNode Num) (d : RideDirection) (index : ℕ) (stops : List S) (v i : ℕ)
      (s : Session S Num) (c : Completion Num) (b : BusStore S Num)
      → IsOwned b
      → find_session i b ≡ some s
      → is_unfinished s.status ≡ true
      → IsOwned (finish_session F e d index stops v i s c b)
  finish_session-IsOwned e d index stops v i s c b h found u =
      let (ss, jj, ll) = dropped_lem e.route_id i (completed_store F e d index stops i s c b) in
      elim (Option-cases e.driver_id) [
        | inl n ↦
            moved
              (finished-IsOwned i s (finished_session F e index stops c s) b
                (drop_ride e.route_id i (completed_store F e d index stops i s c b)) h found refl ss
                jj ll)
              (unfold finish_session in ground (arith, n))
        | inr (driver, q) ↦
            moved
              (checkpointed-IsOwned i s (finished_session F e index stops c s)
                (journey_of F e d index v i driver c) b
                (drop_ride e.route_id i (completed_store F e d index stops i s c b)) h found u refl
                ss ll (unfold journey_of in refl) (unfold journey_of in refl))
              (unfold finish_session in ground (arith, q))
      ]

  pub complete_ride-IsOwned :
      (e : LiveNode Num) (d : RideDirection) (index : ℕ) (stops : List S) (v : ℕ) (now dwell : Num)
      (b : BusStore S Num)
      → IsOwned b
      → IsOwned (complete_ride F e d index stops v now dwell b).0
  complete_ride-IsOwned e d index stops v now dwell b h =
      let c : Completion Num = record { completed_at = now; eligible_at = F.add now dwell } in
      elim (Option-cases e.session_id) [
        | inl n ↦
            moved
              (completions_lem b
                (set ℕ_discrete e.route_id (trip_of F e d stops c) b.route_completions) h)
              (unfold complete_ride in ground (arith, n))
        | inr (i, w) ↦ elim (Option-cases (find_session i b)) [
          | inl n ↦ moved h (unfold complete_ride in ground (arith, w, n))
          | inr (s, q) ↦ elim (Bool-cases (is_completed_ride s.status)) [
            | inl y ↦ moved h (unfold complete_ride in ground (arith, w, q, y))
            | inr y ↦ elim (Bool-cases (owns_lock i b && is_unfinished s.status)) [
              | inr n ↦ moved h (unfold complete_ride in ground (arith, w, q, y, n))
              | inl n ↦
                  let (o, u) = &&-eq-true (owns_lock i b) (is_unfinished s.status) n in
                  moved (finish_session-IsOwned e d index stops v i s c b h q u)
                    (unfold complete_ride in ground (arith, w, q, y, o, u))
            ]
          ]
        ]
      ]

  may_return_lem :
      (i route driver : ℕ) (d : RideDirection) (v : ℕ) (j : TerminalJourney Num)
      (b : BusStore S Num)
      → b.terminal_journey ≡ some j
      → may_return F i route driver d v b ≡ true
      → (b.lock ≡ none) × (j.session_id ≡ i) × (j.consumed_by ≡ none)
  unfolding may_return
  may_return_lem i route driver d v j b journey may =
      (ground (arith, may), grind (arith, may, journey), ground (arith, may, journey))

  return_lem :
      (i route driver : ℕ) (d : RideDirection) (v new : ℕ) (now : Num) (j : TerminalJourney Num)
      (b : BusStore S Num)
      → IsOwned b
      → find_session new b ≡ none
      → b.terminal_journey ≡ some j
      → may_return F i route driver d v b ≡ true
      → IsUnused new b
      → IsOwned (open_return F i route driver d v new now j b)
  unfolding IsOwned open_return
  return_lem i route driver d v new now j b h fresh journey may unused =
      let (free, mine, spare) = may_return_lem i route driver d v j b journey may in
      let key : journey_key b.terminal_journey ≡ some (i, false) =
        grind (arith, journey, mine, spare) in
      let used : journey_key (some (record j { consumed_by = some new })) ≡ some (i, true) =
        grind (arith, mine) in
      rw (used) (
        returned-IsConsistent (facts b.sessions)
          (facts (set ℕ_discrete new (return_session F i route driver d v now) b.sessions))
          (lock_id b.lock) (journey_key b.terminal_journey) h new i (ap lock_id free)
          (ap brief_of fresh) (unused-facts new b unused) (unused-journey new b unused) key
          (λ k. facts-set new k (return_session F i route driver d v now) b.sessions))

  pub arm_return-IsOwned :
      (i route driver : ℕ) (d : RideDirection) (v new : ℕ) (now : Num) (b : BusStore S Num)
      → IsOwned b
      → IsUnused new b
      → IsOwned (arm_return F i route driver d v new now b).0
  arm_return-IsOwned i route driver d v new now b h unused =
      elim (Option-cases (find_session new b)) [
        | inr (s, q) ↦ moved h (unfold arm_return in ground (arith, q))
        | inl fresh ↦ elim (Option-cases b.terminal_journey) [
          | inl n ↦ moved h (unfold arm_return in ground (arith, fresh, n))
          | inr (j, q) ↦ elim (Bool-cases (may_return F i route driver d v b)) [
            | inr n ↦ moved h (unfold arm_return in ground (arith, fresh, q, n))
            | inl y ↦
                moved (return_lem i route driver d v new now j b h fresh q y unused)
                  (unfold arm_return in ground (arith, fresh, q, y))
          ]
        ]
      ]
