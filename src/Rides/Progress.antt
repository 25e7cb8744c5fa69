-- ===== src/Rides/Progress.antt =====
-- A ride in service never falls behind (`persistActiveRideLifecycle` of
-- backend/src/services/tripStateEngine.ts).
use eki.Prelude.OrderedMap.{lookup-set, set, lookup}
use eki.Rides.History.{missing_stop_history-recorded, last_reached, is_recorded}
use eki.Rides.Start.{put_session, find_session, owns_lock}
use eki.Rides.Engine.{
  durable_ride, same_session_ride, commit_progress, is_in_service, with_progress, RideCheckpoint,
  RideProgress, checkpoint_of,
}
use eki.Geo.{Float}
use eki.Direction.Endpoint.{RideDirection}
use eki.Prelude.{
  ◌∙◌, ap, ◌≤◌, Option, ==_iff, ℕ_discrete, ◌||◌, ℕ, List, some, true, ◌≡◌, ◌<◌, refl, arith,
  length, max,
}
use eki.Rides.Records.{DurableRide, BusStore, Session, LiveNode, is_unfinished, active_ride}
use eki.Trip.Types.{in_service}

found_lem :
    {V : Type 0} (i : ℕ) (v : V) (m : List (ℕ × V))
    → lookup ℕ_discrete i (set ℕ_discrete i v m) ≡ some v
found_lem i v m = grind (arith, lookup-set ℕ_discrete i i v m)

module _ (F : Float) where
  open F use {Num}

  checkpoint_lem :
      (e : LiveNode Num) (p : RideProgress Num) (r : DurableRide Num) (n : ℕ)
      → is_in_service r.trip_state ≡ true
      → r.current_stop_index < n
      → ((checkpoint_of F e p n (some r)).trip_state ≡ in_service)
        × ((checkpoint_of F e p n (some r)).current_stop_index
            ≡ max p.current_stop_index r.current_stop_index)
        × ((checkpoint_of F e p n (some r)).has_departed_origin
            ≡ (p.has_departed_origin || r.has_departed_origin))
  unfolding checkpoint_of
  checkpoint_lem e p r n service below = (ground (arith, service), ground (arith, below), refl)

  durable_ride_lem :
      (e : LiveNode Num) (p : RideProgress Num) (c : RideCheckpoint Num) (i driver : ℕ)
      (d : RideDirection) (o : Option (DurableRide Num))
      → ((durable_ride F e p c i driver d o).session_id ≡ i)
        × ((durable_ride F e p c i driver d o).trip_state ≡ c.trip_state)
        × ((durable_ride F e p c i driver d o).current_stop_index ≡ c.current_stop_index)
        × ((durable_ride F e p c i driver d o).has_departed_origin ≡ c.has_departed_origin)
  unfolding durable_ride
  durable_ride_lem e p c i driver d o = (refl, refl, refl, refl)

module _ (F : Float) {S : Type 0} where
  open F use {Num}

  with_progress_lem :
      (e : LiveNode Num) (p : RideProgress Num) (c : RideCheckpoint Num) (stops : List S)
      (now : Num) (s : Session S Num) (k : ℕ)
      → c.trip_state ≡ in_service
      → c.current_stop_index < length stops
      → k < c.current_stop_index
      → ((with_progress F e p c stops now s).status ≡ active_ride)
        × (is_recorded k (with_progress F e p c stops now s).stops_reached ≡ true)
  with_progress_lem e p c stops now s k service below before =
      let reached : k ≤ last_reached c.trip_state c.current_stop_index =
        rw (service) (omega (arith, before)) in
      let listed =
        missing_stop_history-recorded stops c.trip_state c.current_stop_index k s.stops_reached now
          e.current_stop_index p.skipped_stop_indices p.unobserved_stop_indices
          (λ q. ground (arith, service, q)) below reached in
      (
        unfold with_progress in ground (arith, service),
        unfold with_progress in ground (arith, service, listed),
      )

  -- In service, with an event of any age whose index is one of the stops, as the stored one is: the
  -- ride of the owner of the lock gets the greater of both indices, stays in service and departed if
  -- it was, and its session becomes or stays active and lists every stop before that index.
  pub commit_progress-advances :
      (e : LiveNode Num) (p : RideProgress Num) (stops : List S) (now : Num) (i driver : ℕ)
      (d : RideDirection) (b : BusStore S Num) (s : Session S Num) (r : DurableRide Num) (k : ℕ)
      → owns_lock i b ≡ true
      → find_session i b ≡ some s
      → is_unfinished s.status ≡ true
      → lookup ℕ_discrete e.route_id b.rides ≡ some r
      → r.session_id ≡ i
      → is_in_service r.trip_state ≡ true
      → r.current_stop_index < length stops
      → p.current_stop_index < length stops
      → k < max p.current_stop_index r.current_stop_index
      → (r' : DurableRide Num) × (s' : Session S Num) × (lookup ℕ_discrete e.route_id
            (commit_progress F e p stops now i driver d b).0.rides
          ≡ some r')
        × (find_session i (commit_progress F e p stops now i driver d b).0 ≡ some s')
        × (r'.session_id ≡ i)
        × (r'.trip_state ≡ in_service)
        × (r'.current_stop_index ≡ max p.current_stop_index r.current_stop_index)
        × (r'.has_departed_origin ≡ (p.has_departed_origin || r.has_departed_origin))
        × (s'.status ≡ active_ride)
        × (is_recorded k s'.stops_reached ≡ true)
  commit_progress-advances e p stops now i driver d b s r k owns found open_session stored mine
        service low high before =
      let same : same_session_ride F e.route_id i b ≡ some r =
        ground (arith, stored, (==_iff r.session_id i).1 mine) in
      let c = checkpoint_of F e p (length stops) (some r) in
      let ride = durable_ride F e p c i driver d (some r) in
      let session = with_progress F e p c stops now s in
      let after : BusStore S Num = record (put_session i session b) {
        rides = set ℕ_discrete e.route_id ride b.rides;
      } in
      let eq : (commit_progress F e p stops now i driver d b).0 ≡ after =
        unfold commit_progress in ground (arith, owns, found, open_session, stored, same) in
      let (kept, index, departed) = checkpoint_lem F e p r (length stops) service low in
      let (named, trip, at, left) = durable_ride_lem F e p c i driver d (some r) in
      let (active, listed) =
        with_progress_lem e p c stops now s k kept (rw (index) (grind (arith, low, high)))
          (rw (index) before) in
      (
        ride,
        session,
        ap (λ (a : BusStore S Num). lookup ℕ_discrete e.route_id a.rides) eq
            ∙ found_lem e.route_id ride b.rides,
        ap (λ (a : BusStore S Num). find_session i a) eq ∙ found_lem i session b.sessions,
        named,
        trip ∙ kept,
        at ∙ index,
        left ∙ departed,
        active,
        listed,
      )
