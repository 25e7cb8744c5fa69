-- ===== src/Rides/Claims.antt =====
-- Every order of the transactions on a live node (backend/src/services/tripStateEngine.ts), between the
-- samples of the device, starts of rides and the sweep of a node that is stale.
use eki.Geo.{Float, LatLng}
use eki.Prelude.{ℕ, List, Option, some, none, Bool, false, ◌==◌, ◌&&◌, ◌||◌, [], ◌∷◌, ◌≡◌, or_else}
use eki.Rides.Engine.{RideCheckpoint}
use eki.Rides.Live.{
  ReturnRide, claim_return, release_claim, activate_return, publish_progress, publish_completion,
  retire,
}
use eki.Rides.Records.{LiveNode}
use eki.Trip.Types.{MotionState}

-- The claim of a session from another one is among those committed.
unfoldable pub has_claim : ℕ → ℕ → List (ℕ × ℕ) → Bool
has_claim i p [] = false
has_claim i p ((j, q) ∷ cs) = (j == i) && (q == p) || has_claim i p cs

abbrev pub logged {ℓ} : {A : Type ℓ} → Option A → ℕ → ℕ → List (ℕ × ℕ) → List (ℕ × ℕ)
logged none i p cs = cs
logged (some _) i p cs = (i, p) ∷ cs

-- The node, and the claims that were committed, of a session from another one.
pub record LiveClaims (N : Type 0) : Type 0 where
  pub node : Option (LiveNode N)
  pub claims : List (ℕ × ℕ)

pub data Reach (F : Float) : LiveClaims (F.Num) → Type 0 where
  no_node : Reach F (record { node = none; claims = [] })
  -- A start, a manual stop or a restart writes a node without a claim.
  then_written :
      {u : LiveClaims (F.Num)} (live : LiveNode (F.Num))
      → live.turnaround_claim_id ≡ none
      → Reach F u
      → Reach F (record u { node = some live })
  then_swept : {u : LiveClaims (F.Num)} → Reach F u → Reach F (record u { node = none })
  then_sampled :
      {u : LiveClaims (F.Num)} (live : LiveNode (F.Num)) (t : F.Num) (place : LatLng (F.Num))
      (motion : Option MotionState) (hdop : Option (F.Num)) (offline : Bool)
      → u.node ≡ some live
      → Reach F u
      → Reach F (record u {
        node = some (record live {
          timestamp = t;
          place = place;
          motion_state = motion;
          gps_hdop = hdop;
          is_offline = offline;
        });
      })
  then_claim :
      {u : LiveClaims (F.Num)} (new previous : ℕ) (now : F.Num) (destination : LatLng (F.Num))
      (radius : F.Num)
      → Reach F u
      → Reach F (record {
        node = or_else (claim_return F new previous now destination radius u.node) u.node;
        claims =
            logged
              (claim_return F new previous now destination radius u.node)
              new
              previous
              u.claims;
      })
  then_release :
      {u : LiveClaims (F.Num)} (new : ℕ)
      → Reach F u
      → Reach F (record u { node = or_else (release_claim F new u.node) u.node })
  then_activate :
      {u : LiveClaims (F.Num)} (r : ReturnRide) (previous : ℕ)
      → Reach F u
      → Reach F (record u { node = or_else (activate_return F r previous u.node) u.node })
  then_progress :
      {u : LiveClaims (F.Num)} (event : LiveNode (F.Num)) (c : RideCheckpoint (F.Num))
      (gap : Option (F.Num)) (stop : Option ℕ) (unobserved : List ℕ)
      → Reach F u
      → Reach F (record u {
        node = or_else (publish_progress F event c gap stop unobserved u.node) u.node;
      })
  then_completion :
      {u : LiveClaims (F.Num)} (event : LiveNode (F.Num)) (index : ℕ) (departed : Bool)
      (at eligible sampled : F.Num)
      → Reach F u
      → Reach F (record u {
        node =
            or_else (publish_completion F event index departed at eligible sampled u.node) u.node;
      })
  then_retire :
      {u : LiveClaims (F.Num)} (event : LiveNode (F.Num))
      → Reach F u
      → Reach F (record u { node = or_else (retire F event u.node) u.node })
