-- ===== src/Rides/Steps.antt =====
-- Every order of the transactions on one bus's documents: those of the engine, of starts with an
-- idempotency key, of stops by requests, of the reconciler and of the deletion of a history. An event may
-- be as old as it likes, and a process may stop between two transactions, since nothing relates the
-- steps. A start without a key, which only the older route of backend/src/routes/shifts.ts makes, writes
-- the status of a session without a look at the stored one, and is not among the steps.
-- A reservation of the lock for firmware names no session and can only refuse a start; it is left out.
use eki.Rides.Started.{
  interrupt_ride-IsOwned, end_early-IsOwned, fail_service-IsOwned, start_service-IsOwned,
}
use eki.Rides.Return.{arm_return}
use eki.Rides.Completion.{complete_ride}
use eki.Rides.Engine.{persist_active_ride, RideProgress}
use eki.Rides.Kept.{arm_return-IsOwned, complete_ride-IsOwned, persist_active_ride-IsOwned}
use eki.Rides.Start.{
  interrupt_ride, end_early, fail_service, start_service, find_session, owns_lock,
  ServiceAssignment,
}
use eki.Rides.Owned.{facts, IsOwned, is_unused, is_unused-IsUnused}
use eki.Rides.Attach.{StartPatch, RidePatch, attach_live, commit_creation, delete_history}
use eki.Rides.Attached.{attach_live-IsOwned, commit_creation-IsOwned, delete_history-IsOwned}
use eki.Prelude.OrderedMap.{lookup}
use eki.Geo.{Float}
use eki.Direction.Endpoint.{RideDirection}
use eki.Prelude.{
  false, ◌==◌, Bool-cases, inr, inl, Option-cases, ℕ, List, [], Option, some, none, Bool, true, ◌≡◌,
  arith, holds,
}
use eki.Rides.Records.{BusStore, Session, LiveNode, is_unfinished}

abbrev pub empty_store : {S N : Type 0} → List (ℕ × Bool) → List ℕ → BusStore S N
empty_store drivers routes = record {
  sessions = [];
  lock = none;
  rides = [];
  completed_trips = [];
  route_completions = [];
  terminal_journey = none;
  drivers = drivers;
  assigned_routes = routes;
}

-- The states after any of these transactions, from a bus without a ride on. The fixes that a progress
-- is made of have an index of the stops. The number of a new session is one that the document store
-- gives out once, so that no document refers to it; the others are any numbers.
pub data Reach (F : Float) (S : Type 0) : BusStore S (F.Num) → Type 0 where
  no_ride : (drivers : List (ℕ × Bool)) (routes : List ℕ) → Reach F S (empty_store drivers routes)
  then_start :
      {b : BusStore S (F.Num)} (a : ServiceAssignment) (d : Option RideDirection) (version new : ℕ)
      (now : F.Num)
      → is_unused new b ≡ true
      → Reach F S b
      → Reach F S (start_service a d version new now b).0
  then_attach :
      {b : BusStore S (F.Num)} (a : ServiceAssignment) (d : Option RideDirection) (i : ℕ)
      → Reach F S b
      → Reach F S (attach_live true a d i b).0
  then_create :
      {b : BusStore S (F.Num)} (i : ℕ) (p : StartPatch S (F.Num)) (ride : Option RidePatch)
      (fits : Bool) (live : ℕ × ℕ)
      → Reach F S b
      → Reach F S (commit_creation i p ride fits live b).0
  then_delete : {b : BusStore S (F.Num)} (i : ℕ) → Reach F S b → Reach F S (delete_history i b).0
  then_fail :
      {b : BusStore S (F.Num)} (i : ℕ) (now : F.Num)
      → Reach F S b
      → Reach F S (fail_service i now b)
  then_stop :
      {b : BusStore S (F.Num)} (a : ServiceAssignment) (i : ℕ) (now : F.Num)
      → Reach F S b
      → Reach F S (end_early a i now b).0
  then_interrupt :
      {b : BusStore S (F.Num)} (route i : ℕ) (decided : Option (F.Num)) (old : Bool)
      → Reach F S b
      → Reach F S (interrupt_ride route i decided old b).0
  then_progress :
      {b : BusStore S (F.Num)} (e : LiveNode (F.Num)) (p : RideProgress (F.Num)) (stops : List S)
      (now : F.Num)
      → Reach F S b
      → Reach F S (persist_active_ride F e p stops now b).0
  then_complete :
      {b : BusStore S (F.Num)} (e : LiveNode (F.Num)) (d : RideDirection) (index : ℕ)
      (stops : List S) (version : ℕ) (now dwell : F.Num)
      → Reach F S b
      → Reach F S (complete_ride F e d index stops version now dwell b).0
  then_return :
      {b : BusStore S (F.Num)} (i route driver : ℕ) (d : RideDirection) (version new : ℕ)
      (now : F.Num)
      → is_unused new b ≡ true
      → Reach F S b
      → Reach F S (arm_return F i route driver d version new now b).0

empty_store-IsOwned :
    (S N : Type 0) (drivers : List (ℕ × Bool)) (routes : List ℕ)
    → IsOwned {S = S} {N = N} (empty_store drivers routes)
unfolding IsOwned lookup
empty_store-IsOwned S N drivers routes = record {
  owner = λ i q. absurd (ground (arith, q));
  locked = λ i p q. absurd (ground (arith, q));
  ended = λ i c u p q. absurd (ground (arith, q));
  origin = λ i p u v q r. absurd (ground (arith, r));
  spent = λ i p u q. absurd (ground (arith, q));
  single = λ i k p u v q r. absurd (ground (arith, q));
}

module _ (F : Float) {S : Type 0} where
  open F use {Num}

  Reach-IsOwned : (b : BusStore S Num) → Reach F S b → IsOwned b
  Reach-IsOwned _ (no_ride drivers routes) = empty_store-IsOwned S Num drivers routes
  Reach-IsOwned _ (then_start {b} a d v new now n r) =
      start_service-IsOwned a d v new now b (Reach-IsOwned b r) (is_unused-IsUnused new b n)
  Reach-IsOwned _ (then_attach {b} a d i r) = attach_live-IsOwned a d i b (Reach-IsOwned b r)
  Reach-IsOwned _ (then_create {b} i p ride fits live r) =
      commit_creation-IsOwned i p ride fits live b (Reach-IsOwned b r)
  Reach-IsOwned _ (then_delete {b} i r) = delete_history-IsOwned i b (Reach-IsOwned b r)
  Reach-IsOwned _ (then_fail {b} i now r) = fail_service-IsOwned i now b (Reach-IsOwned b r)
  Reach-IsOwned _ (then_stop {b} a i now r) = end_early-IsOwned a i now b (Reach-IsOwned b r)
  Reach-IsOwned _ (then_interrupt {b} route i decided old r) =
      interrupt_ride-IsOwned route i decided old b (Reach-IsOwned b r)
  Reach-IsOwned _ (then_progress {b} e p stops now r) =
      persist_active_ride-IsOwned F e p stops now b (Reach-IsOwned b r)
  Reach-IsOwned _ (then_complete {b} e d index stops v now dwell r) =
      complete_ride-IsOwned F e d index stops v now dwell b (Reach-IsOwned b r)
  Reach-IsOwned _ (then_return {b} i route driver d v new now n r) =
      arm_return-IsOwned F i route driver d v new now b (Reach-IsOwned b r)
        (is_unused-IsUnused new b n)

  locked_lem :
      (b : BusStore S Num)
      → IsOwned b
      → (i : ℕ)
      → owns_lock i b ≡ holds (λ (s : Session S Num). is_unfinished s.status) (find_session i b)
  unfolding IsOwned
  locked_lem b h i = elim (Option-cases (find_session i b)) [
    | inl n ↦ elim (Option-cases b.lock) [
      | inl q ↦ ground (arith, n, q)
      | inr (l, q) ↦ elim (Bool-cases (l.session_id == i)) [
        | inr e ↦ ground (arith, n, q, e)
        | inl e ↦ absurd (grind (arith, n, q, e, h.owner i))
      ]
    ]
    | inr (s, q) ↦ elim (Bool-cases (is_unfinished s.status)) [
      | inl u ↦
          let lock = h.locked i s.previous_session_id (grind (arith, q, u)) in
          grind (arith, q, u, lock)
      | inr u ↦ grind (arith, q, u, h.owner i)
    ]
  ]

  once_lem :
      (b : BusStore S Num)
      → IsOwned b
      → (i k p : ℕ) (s t : Session S Num) → find_session i b ≡ some s
      → find_session k b ≡ some t
      → s.previous_session_id ≡ some p
      → t.previous_session_id ≡ some p
      → (i ≡ k) × (holds (λ (o : Session S Num). is_unfinished o.status) (find_session p b) ≡ false)
  unfolding IsOwned
  once_lem b h i k p s t found found' from from' =
      let mine : facts b.sessions i ≡ some (is_unfinished s.status, some p) =
        grind (arith, found, from) in
      let other : facts b.sessions k ≡ some (is_unfinished t.status, some p) =
        grind (arith, found', from') in
      (
        h.single i k p (is_unfinished s.status) (is_unfinished t.status) mine other,
        elim (Option-cases (find_session p b)) [
          | inl n ↦ grind (arith, n)
          | inr (o, z) ↦
              let over =
                h.origin i p (is_unfinished s.status) (is_unfinished o.status) o.previous_session_id
                  mine (grind (arith, z)) in
              grind (arith, z, over)
        ],
      )

  -- If every start carries an idempotency key and no document refers to the number of a new
  -- session, after any starts, attachments to a live ride, writes of a start's documents, failures,
  -- stops by hand, interruptions, progresses, completions, returns and deletions of histories, in
  -- any order and by any processes, the lock of the bus names a session exactly if this session is
  -- stored and neither completed, interrupted nor failed.
  pub Reach-locked :
      (b : BusStore S Num)
      → Reach F S b
      → (i : ℕ)
      → owns_lock i b ≡ holds (λ (s : Session S Num). is_unfinished s.status) (find_session i b)
  Reach-locked b r i = locked_lem b (Reach-IsOwned b r) i

  -- If every start carries an idempotency key and no document refers to the number of a new
  -- session, after any starts, attachments to a live ride, writes of a start's documents, failures,
  -- stops by hand, interruptions, progresses, completions, returns and deletions of histories, in
  -- any order and by any processes, two stored sessions that return from the same one are the same,
  -- and the one that they return from is not unfinished: it is finished, or its history is deleted.
  pub Reach-returned_once :
      (b : BusStore S Num)
      → Reach F S b
      → (i k p : ℕ) (s t : Session S Num) → find_session i b ≡ some s
      → find_session k b ≡ some t
      → s.previous_session_id ≡ some p
      → t.previous_session_id ≡ some p
      → (i ≡ k) × (holds (λ (o : Session S Num). is_unfinished o.status) (find_session p b) ≡ false)
  Reach-returned_once b r i k p s t found found' from from' =
      once_lem b (Reach-IsOwned b r) i k p s t found found' from from'
