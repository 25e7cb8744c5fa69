-- ===== src/Rides/Claimed.antt =====
-- The claim of a return on a live node (backend/src/services/tripStateEngine.ts) in every order of
-- transactions.
use eki.Rides.Claims.{
  no_node, then_retire, then_completion, then_progress, then_activate, then_release, then_claim,
  then_sampled, then_swept, then_written, Reach, logged, LiveClaims, has_claim,
}
use eki.Geo.{Float, LatLng}
use eki.Prelude.{
  inr, inl, Option-cases, refl, ◌∙◌, arith, sym, ℕ, List, Option, some, none, Bool, true, ◌≡◌,
  or_else,
}
use eki.Rides.Engine.{RideCheckpoint}
use eki.Rides.Live.{
  ReturnRide, claim_return, release_claim, activate_return, publish_progress, publish_completion,
  retire, is_completed, is_number,
}
use eki.Rides.Records.{LiveNode}

-- A claim stands on a node only while its session is completed, and it was committed for that session.
pub record IsClaimed {N : Type 0} (live : LiveNode N) (claims : List (ℕ × ℕ)) (c : ℕ) : Type 0 where
  pub over : is_completed live.trip_state ≡ true
  pub from : (p : ℕ) → is_number live.session_id p ≡ true → has_claim c p claims ≡ true

unfoldable pub AreClaimed : {N : Type 0} → Option (LiveNode N) → List (ℕ × ℕ) → Type 0
AreClaimed {N = N} node claims =
    (live : LiveNode N) (c : ℕ)
    → node ≡ some live
    → live.turnaround_claim_id ≡ some c
    → IsClaimed live claims c

-- A transaction that commits a node with a claim accounts for it.
committed-AreClaimed :
    {N : Type 0}
    → (o n : Option (LiveNode N)) (cs : List (ℕ × ℕ)) → AreClaimed n cs
    → ((live : LiveNode N) (c : ℕ)
        → o ≡ some live
        → live.turnaround_claim_id ≡ some c
        → IsClaimed live cs c)
    → AreClaimed (or_else o n) cs
unfolding AreClaimed
committed-AreClaimed none n cs h k = h
committed-AreClaimed (some l) n cs h k = k

module _ (F : Float) where
  open F use {Num}

  -- A transaction that leaves no claim.
  unclaimed-AreClaimed :
      (o n : Option (LiveNode Num)) (cs : List (ℕ × ℕ))
      → AreClaimed n cs
      → ((live : LiveNode Num) → o ≡ some live → live.turnaround_claim_id ≡ none)
      → AreClaimed (or_else o n) cs
  unclaimed-AreClaimed o n cs h k =
      committed-AreClaimed o n cs h (λ live c e f. absurd (ground (arith, k live e, f)))

  release_claim-none :
      (new : ℕ) (n : Option (LiveNode Num)) (live : LiveNode Num)
      → release_claim F new n ≡ some live
      → live.turnaround_claim_id ≡ none
  unfolding release_claim
  release_claim-none new none live e = absurd (ground (arith, e))
  release_claim-none new (some o) live e = ground (arith, e)

  activate_return-none :
      (r : ReturnRide) (previous : ℕ) (n : Option (LiveNode Num)) (live : LiveNode Num)
      → activate_return F r previous n ≡ some live
      → live.turnaround_claim_id ≡ none
  unfolding activate_return
  activate_return-none r previous none live e = absurd (ground (arith, e))
  activate_return-none r previous (some o) live e = ground (arith, e)

  publish_completion-none :
      (event : LiveNode Num) (index : ℕ) (departed : Bool) (at eligible sampled : Num)
      (n : Option (LiveNode Num)) (live : LiveNode Num)
      → publish_completion F event index departed at eligible sampled n ≡ some live
      → live.turnaround_claim_id ≡ none
  unfolding publish_completion
  publish_completion-none event index departed at eligible sampled none live e =
      absurd (ground (arith, e))
  publish_completion-none event index departed at eligible sampled (some o) live e =
      ground (arith, e)

  -- A node whose session, state and claim are another's.
  kept-IsClaimed :
      (o live : LiveNode Num) (c : ℕ) (cs : List (ℕ × ℕ))
      → AreClaimed (some o) cs
      → live.turnaround_claim_id ≡ o.turnaround_claim_id
      → live.session_id ≡ o.session_id
      → live.trip_state ≡ o.trip_state
      → live.turnaround_claim_id ≡ some c
      → IsClaimed live cs c
  unfolding AreClaimed
  kept-IsClaimed o live c cs h same session state f =
      let k = h o c refl (sym same ∙ f) in
      record { over = rw (state) k.over; from = rw (session) k.from }

  retire-AreClaimed :
      (event : LiveNode Num) (n : Option (LiveNode Num)) (cs : List (ℕ × ℕ))
      → AreClaimed n cs
      → AreClaimed (or_else (retire F event n) n) cs
  unfolding retire
  retire-AreClaimed event none cs h = h
  retire-AreClaimed event (some o) cs h =
      committed-AreClaimed (retire F event (some o)) (some o) cs h (λ live c e f.
        kept-IsClaimed o live c cs h (ground (arith, e)) (ground (arith, e)) (ground (arith, e)) f)

  publish_progress-AreClaimed :
      (event : LiveNode Num) (p : RideCheckpoint Num) (gap : Option Num) (stop : Option ℕ)
      (unobserved : List ℕ) (n : Option (LiveNode Num)) (cs : List (ℕ × ℕ))
      → AreClaimed n cs
      → AreClaimed (or_else (publish_progress F event p gap stop unobserved n) n) cs
  unfolding publish_progress AreClaimed
  publish_progress-AreClaimed event p gap stop unobserved none cs h = h
  publish_progress-AreClaimed event p gap stop unobserved (some o) cs h =
      committed-AreClaimed (publish_progress F event p gap stop unobserved (some o)) (some o) cs h
        (λ live c e f.
          let same : live.turnaround_claim_id ≡ o.turnaround_claim_id = ground (arith, e) in
          let k = h o c refl (sym same ∙ f) in absurd (ground (arith, e, k.over)))

  claim_return-facts :
      (new previous : ℕ) (now : Num) (destination : LatLng Num) (radius : Num)
      (n : Option (LiveNode Num)) (live : LiveNode Num)
      → claim_return F new previous now destination radius n ≡ some live
      → (live.turnaround_claim_id ≡ some new)
        × (is_completed live.trip_state ≡ true)
        × (is_number live.session_id previous ≡ true)
  unfolding claim_return
  claim_return-facts new previous now destination radius none live e = absurd (ground (arith, e))
  claim_return-facts new previous now destination radius (some o) live e = ground (arith, e)

  is_number_unique : (o : Option ℕ) (i j : ℕ) → is_number o i ≡ true → is_number o j ≡ true → i ≡ j
  is_number_unique none i j h k = absurd (ground (arith, h))
  is_number_unique (some m) i j h k = ground (arith, h, k)

  claim_return-AreClaimed :
      (new previous : ℕ) (now : Num) (destination : LatLng Num) (radius : Num)
      (n : Option (LiveNode Num)) (cs : List (ℕ × ℕ))
      → AreClaimed n cs
      → AreClaimed
          (or_else (claim_return F new previous now destination radius n) n)
          (logged (claim_return F new previous now destination radius n) new previous cs)
  unfolding AreClaimed has_claim
  claim_return-AreClaimed new previous now destination radius n cs h =
      elim (Option-cases (claim_return F new previous now destination radius n)) [
        | inl e ↦ rw (e) h
        | inr (o, e) ↦
            let (mine, over, session) =
              claim_return-facts new previous now destination radius n o e in
            rw (e) (λ live c same f.
              let it : o ≡ live = ground (arith, same) in
              let whose : c ≡ new = ground (arith, f, mine, it) in
              rw (sym it) (
                rw (whose) (record {
                  over = over;
                  from = λ p q.
                      let where_ = is_number_unique o.session_id previous p session q in
                      ground (arith, where_);
                })))
      ]

  changed-AreClaimed :
      (n : Option (LiveNode Num)) (o w : LiveNode Num) (cs : List (ℕ × ℕ))
      → n ≡ some o
      → w.turnaround_claim_id ≡ o.turnaround_claim_id
      → w.session_id ≡ o.session_id
      → w.trip_state ≡ o.trip_state
      → AreClaimed n cs
      → AreClaimed (some w) cs
  unfolding AreClaimed
  changed-AreClaimed n o w cs e same session state h live c f g =
      let it : w ≡ live = ground (arith, f) in
      let k = h o c e (ground (arith, g, same, it)) in
      record {
        over = ground (arith, k.over, state, it);
        from = λ p q. k.from p (ground (arith, q, session, it));
      }

  activate_return-facts :
      (r : ReturnRide) (previous : ℕ) (n : Option (LiveNode Num)) (live : LiveNode Num)
      → activate_return F r previous n ≡ some live
      → (o : LiveNode Num) × (n ≡ some o)
        × (is_number o.session_id previous ≡ true)
        × (is_number o.turnaround_claim_id r.session_id ≡ true)
        × (live.session_id ≡ some r.session_id)
        × (live.turnaround_claim_id ≡ none)
  unfolding activate_return
  activate_return-facts r previous none live e = absurd (ground (arith, e))
  activate_return-facts r previous (some o) live e =
      (o, refl, ground (arith, e), ground (arith, e), ground (arith, e), ground (arith, e))

  is_number-some : (o : Option ℕ) (i : ℕ) → is_number o i ≡ true → o ≡ some i
  is_number-some none i h = absurd (ground (arith, h))
  is_number-some (some m) i h = ground (arith, h)

  Reach-AreClaimed : (u : LiveClaims Num) → Reach F u → AreClaimed u.node u.claims
  unfolding AreClaimed
  Reach-AreClaimed _ no_node = λ live c e f. absurd (ground (arith, e))
  Reach-AreClaimed _ (then_written live n r) = λ o c e f. absurd (ground (arith, e, f, n))
  Reach-AreClaimed _ (then_swept r) = λ live c e f. absurd (ground (arith, e))
  Reach-AreClaimed _ (then_sampled {u = u} live t place motion hdop offline e r) =
      changed-AreClaimed u.node live _ u.claims e refl refl refl (Reach-AreClaimed u r)
  Reach-AreClaimed _ (then_claim {u = u} new previous now destination radius r) =
      claim_return-AreClaimed new previous now destination radius u.node u.claims
        (Reach-AreClaimed u r)
  Reach-AreClaimed _ (then_release {u = u} new r) =
      unclaimed-AreClaimed (release_claim F new u.node) u.node u.claims (Reach-AreClaimed u r)
        (release_claim-none new u.node)
  Reach-AreClaimed _ (then_activate {u = u} s previous r) =
      unclaimed-AreClaimed (activate_return F s previous u.node) u.node u.claims
        (Reach-AreClaimed u r) (activate_return-none s previous u.node)
  Reach-AreClaimed _ (then_progress {u = u} event p gap stop unobserved r) =
      publish_progress-AreClaimed event p gap stop unobserved u.node u.claims (Reach-AreClaimed u r)
  Reach-AreClaimed _ (then_completion {u = u} event index departed at eligible sampled r) =
      unclaimed-AreClaimed (publish_completion F event index departed at eligible sampled u.node)
        u.node u.claims (Reach-AreClaimed u r)
        (publish_completion-none event index departed at eligible sampled u.node)
  Reach-AreClaimed _ (then_retire {u = u} event r) =
      retire-AreClaimed event u.node u.claims (Reach-AreClaimed u r)

  -- Whatever samples, starts, sweeps and transactions came before, in whatever order: a return that can be
  -- activated had claimed the node for the session that it returns from, and so had any other one that
  -- can, so that they are the same. After it the node has the session of the return, and no claim.
  pub Reach-activated :
      (u : LiveClaims Num) (r q : ReturnRide) (previous p : ℕ) (live other : LiveNode Num)
      → Reach F u
      → activate_return F r previous u.node ≡ some live
      → activate_return F q p u.node ≡ some other
      → (has_claim r.session_id previous u.claims ≡ true)
        × (live.session_id ≡ some r.session_id)
        × (live.turnaround_claim_id ≡ none)
        × (q.session_id ≡ r.session_id)
        × (p ≡ previous)
  unfolding AreClaimed
  Reach-activated u r q previous p live other h e f =
      let (o, node, from, by, session, cleared) = activate_return-facts r previous u.node live e in
      let (o', node', from', by', _, _) = activate_return-facts q p u.node other f in
      let same : o ≡ o' = ground (arith, node, node') in
      let whose = is_number-some o.turnaround_claim_id r.session_id by in
      let claimed = Reach-AreClaimed u h o r.session_id node whose in
      (
        claimed.from previous from,
        session,
        cleared,
        is_number_unique o.turnaround_claim_id q.session_id r.session_id (ground (arith, by', same))
            by,
        is_number_unique o.session_id p previous (ground (arith, from', same)) from,
      )
