-- ===== src/Rides/Attached.antt =====
-- What a start of a ride that is on, and the deletion of a history, keep of a bus's documents
-- (backend/src/services/rideSessionStart.ts, backend/src/services/rideHistoryDeletion.ts).
use mathlib.Core.Path.{subst}
use eki.Rides.Records.{
  RideStatus, pending_ride, armed_ride, active_ride, completed_ride, interrupted_ride, failed_ride,
}
use eki.Rides.Consistent.{IsConsistent, deleted-IsConsistent}
use eki.Direction.Endpoint.{RideDirection}
use eki.Rides.Attach.{
  creation_ride, StartPatch, RidePatch, attach_live, commit_creation, creation_session,
  merged_session, delete_history, forget, start_status, kept_status,
}
use eki.Rides.Owned.{kept-IsOwned, journey_key, lock_id, facts, IsOwned, moved, brief}
use eki.Rides.Records.{DurableRide, BusLock, BusStore, Session, is_unfinished}
use eki.Rides.Start.{put_session, owns_lock, ServiceAssignment, find_session}
use eki.Prelude.OrderedMap.{set, lookup}
use eki.Prelude.{
  ◌==◌, ◌&&◌, ◌||◌, sym, not, is_some, Option-cases, ap, ◌∙◌, ◌≢◌, ℕ, ℕ_discrete, List, [], ◌∷◌,
  Option, some, none, Bool, true, false, ◌≡◌, refl, arith, ite, holds, Bool-cases, inl, inr,
}

lookup-forget :
    {A : Type 0} (i k : ℕ) (m : List (ℕ × A))
    → lookup ℕ_discrete k (forget i m) ≡ ite (ℕ_discrete i k) none (lookup ℕ_discrete k m)
unfolding lookup forget
lookup-forget i k [] = grind arith
lookup-forget i k ((j, a) ∷ m) = let ih = lookup-forget i k m in grind (arith, ih)

start_status-unfinished :
    (d : Option RideDirection) (serving : Bool) → is_unfinished (start_status d serving) ≡ true
start_status-unfinished none serving = refl
start_status-unfinished (some d) true = refl
start_status-unfinished (some d) false = refl

kept_status-unfinished :
    (s t : RideStatus) → is_unfinished t ≡ true → is_unfinished (kept_status s t) ≡ true
kept_status-unfinished pending_ride t h = h
kept_status-unfinished armed_ride pending_ride h = refl
kept_status-unfinished armed_ride armed_ride h = refl
kept_status-unfinished armed_ride active_ride h = refl
kept_status-unfinished armed_ride completed_ride h = h
kept_status-unfinished armed_ride interrupted_ride h = h
kept_status-unfinished armed_ride failed_ride h = h
kept_status-unfinished active_ride t h = refl
kept_status-unfinished completed_ride t h = h
kept_status-unfinished interrupted_ride t h = h
kept_status-unfinished failed_ride t h = h

module _ {S N : Type 0} where
  creation_session-brief :
      (p : StartPatch S N) (s : Session S N)
      → is_unfinished s.status ≡ true
      → brief (creation_session p s) ≡ brief s
  unfolding creation_session merged_session
  creation_session-brief p s u =
      let next = start_status p.direction p.is_in_service in
      let on =
        kept_status-unfinished s.status next
          (start_status-unfinished p.direction p.is_in_service) in
      ap (λ (v : Bool). (v, s.previous_session_id)) (on ∙ sym u)

  -- The lock of an unfinished session is written again.
  relocked-IsOwned :
      (i : ℕ) (s : Session S N) (l : BusLock) (b : BusStore S N)
      → IsOwned b
      → find_session i b ≡ some s
      → is_unfinished s.status ≡ true
      → l.session_id ≡ i
      → IsOwned (record b { lock = some l })
  unfolding IsOwned
  relocked-IsOwned i s l b h q u mine =
      let held : lock_id b.lock ≡ some i = h.locked i s.previous_session_id (grind (arith, q, u)) in
      subst (λ o. IsConsistent (facts b.sessions) o (journey_key b.terminal_journey))
        (held ∙ ap some (sym mine)) h

  -- With a key, the lock is taken only for a session that has it.
  pub attach_live-IsOwned :
      (a : ServiceAssignment) (d : Option RideDirection) (i : ℕ) (b : BusStore S N)
      → IsOwned b
      → IsOwned (attach_live true a d i b).0
  attach_live-IsOwned a d i b h = elim (Option-cases (find_session i b)) [
    | inl n ↦ moved h (unfold attach_live in ground (arith, n))
    | inr (s, q) ↦ elim (Bool-cases (is_unfinished s.status)) [
      | inr u ↦ moved h (unfold attach_live in ground (arith, q, u))
      | inl u ↦ elim (Bool-cases (is_some b.lock && not (owns_lock i b))) [
        | inl w ↦ moved h (unfold attach_live in ground (arith, q, u, w))
        | inr w ↦
            let l : BusLock = record {
              session_id = i;
              route_id = a.route_id;
              driver_id = a.driver_id;
              direction = d;
            } in
            moved (relocked-IsOwned i s l b h q u refl)
              (unfold attach_live in ground (arith, q, u, w))
      ]
    ]
  ]

  pub commit_creation-IsOwned :
      (i : ℕ) (p : StartPatch S N) (ride : Option RidePatch) (fits : Bool) (live : ℕ × ℕ)
      (b : BusStore S N)
      → IsOwned b
      → IsOwned (commit_creation i p ride fits live b).0
  commit_creation-IsOwned i p ride fits live b h = elim (Option-cases (find_session i b)) [
    | inl n ↦ moved h (unfold commit_creation in ground (arith, n))
    | inr (s, q) ↦ elim (Bool-cases (not (is_unfinished s.status) || not fits)) [
      | inl u ↦ moved h (unfold commit_creation in ground (arith, q, u))
      | inr u ↦
          let on : is_unfinished s.status ≡ true = ground (arith, u) in
          let same = creation_session-brief p s on in
          let next = creation_session p s in
          elim (Option-cases ride) [
            | inl n ↦
                moved (kept-IsOwned i s next b (put_session i next b) h q same refl refl refl)
                  (unfold commit_creation in ground (arith, q, u, n))
            | inr (r, n) ↦
                let stored = lookup ℕ_discrete r.route_id b.rides in
                let done : BusStore S N = record (put_session i next b) {
                  rides = set ℕ_discrete r.route_id (creation_ride r live stored) b.rides;
                } in
                elim (Bool-cases (holds (λ (d : DurableRide N). not (d.session_id == i)) stored)) [
                  | inl w ↦ moved h (unfold commit_creation in ground (arith, q, u, n, w))
                  | inr w ↦
                      moved (kept-IsOwned i s next b done h q same refl refl refl)
                        (unfold commit_creation in ground (arith, q, u, n, w))
                ]
          ]
    ]
  ]

  over_lem :
      (i : ℕ) (b : BusStore S N)
      → holds (λ (s : Session S N). is_unfinished s.status) (find_session i b) ≡ false
      → (p : Option ℕ) → facts b.sessions i ≢ some (true, p)
  over_lem i b u p q = elim (Option-cases (find_session i b)) [
    | inl n ↦ absurd (grind (arith, n, q))
    | inr (s, n) ↦ absurd (grind (arith, n, q, u))
  ]

  forgotten-IsOwned :
      (i : ℕ) (b c : BusStore S N)
      → IsOwned b
      → ((p : Option ℕ) → facts b.sessions i ≢ some (true, p))
      → c.sessions ≡ forget i b.sessions
      → c.lock ≡ b.lock
      → c.terminal_journey ≡ b.terminal_journey
      → IsOwned c
  unfolding IsOwned
  forgotten-IsOwned i b c h over sessions lock journey =
      rw (sessions, lock, journey)
        (deleted-IsConsistent (facts b.sessions) (facts (forget i b.sessions)) (lock_id b.lock)
          (journey_key b.terminal_journey) h i over
          (λ k. let at = lookup-forget i k b.sessions in grind (arith, at)))

  pub delete_history-IsOwned :
      (i : ℕ) (b : BusStore S N) → IsOwned b → IsOwned (delete_history i b).0
  delete_history-IsOwned i b h =
      elim (Bool-cases (holds (λ (s : Session S N). is_unfinished s.status) (find_session i b))) [
        | inl u ↦ moved h (unfold delete_history in ground (arith, u))
        | inr u ↦
            let done : BusStore S N = record b {
              sessions = forget i b.sessions;
              completed_trips = forget i b.completed_trips;
            } in
            moved (forgotten-IsOwned i b done h (over_lem i b u) refl refl refl)
              (unfold delete_history in ground (arith, u))
      ]
