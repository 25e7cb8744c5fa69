-- ===== src/Rides/Owned.antt =====
-- The consistency of a bus's documents, and what keeps it.
use mathlib.Core.Path.{subst}
use eki.Prelude.{
  [], ◌∷◌, holds, not, ◌&&◌, true, if◌then◌else◌, sym, ◌==◌, refl, Bool-cases, ◌∙◌, inr, ap, inl,
  Option-cases, is_some, ℕ, ℕ_discrete, List, Option, some, none, Bool, false, ◌≡◌, ◌≢◌, ite, arith,
  ◌⊎◌,
}
use eki.Prelude.OrderedMap.{lookup, set, lookup-set}
use eki.Rides.Consistent.{
  completed-IsConsistent, same-IsConsistent, ended-IsConsistent, IsConsistent,
}
use eki.Rides.Records.{BusLock, BusStore, Session, TerminalJourney, is_unfinished}
use eki.Rides.Start.{find_session, release_lock, drop_ride}

abbrev pub lock_id : Option BusLock → Option ℕ
lock_id none = none
lock_id (some l) = some l.session_id

abbrev pub journey_key : {N : Type 0} → Option (TerminalJourney N) → Option (ℕ × Bool)
journey_key none = none
journey_key (some j) = some (j.session_id, is_some j.consumed_by)

module _ {S N : Type 0} where
  abbrev pub brief : Session S N → Bool × Option ℕ
  brief s = (is_unfinished s.status, s.previous_session_id)

  abbrev pub brief_of : Option (Session S N) → Option (Bool × Option ℕ)
  brief_of none = none
  brief_of (some s) = some (brief s)

  abbrev pub facts : List (ℕ × Session S N) → ℕ → Option (Bool × Option ℕ)
  facts ss i = brief_of (lookup ℕ_discrete i ss)

  unfoldable pub IsOwned : BusStore S N → Type 0
  IsOwned b = IsConsistent (facts b.sessions) (lock_id b.lock) (journey_key b.terminal_journey)

  pub moved : {b c : BusStore S N} → IsOwned b → c ≡ b → IsOwned c
  moved h e = subst IsOwned (sym e) h

  pub facts-set :
      (i k : ℕ) (s : Session S N) (ss : List (ℕ × Session S N))
      → facts (set ℕ_discrete i s ss) k ≡ ite (ℕ_discrete i k) (some (brief s)) (facts ss k)
  facts-set i k s ss = grind (arith, lookup-set ℕ_discrete i k s ss)

  -- A session that is stored again the same in these respects.
  pub facts-set_same :
      (i k : ℕ) (s s' : Session S N) (ss : List (ℕ × Session S N))
      → lookup ℕ_discrete i ss ≡ some s
      → brief s' ≡ brief s
      → facts (set ℕ_discrete i s' ss) k ≡ facts ss k
  facts-set_same i k s s' ss found same = grind (arith, facts-set i k s' ss, found, same)

  -- The sessions and the checkpoint after the lock and a ride are given back.
  pub freed_lem :
      (i : ℕ) (b : BusStore S N)
      → ((release_lock i b).sessions ≡ b.sessions)
        × ((release_lock i b).terminal_journey ≡ b.terminal_journey)
        × (((lock_id b.lock ≡ some i) × (lock_id (release_lock i b).lock ≡ none))
            ⊎ ((lock_id b.lock ≢ some i) × (lock_id (release_lock i b).lock ≡ lock_id b.lock)))
  unfolding release_lock
  freed_lem i b = elim (Option-cases b.lock) [
    | inl n ↦ (ground (arith, n), ground (arith, n), inr (grind (arith, n), ground (arith, n)))
    | inr (l, q) ↦ elim (Bool-cases (l.session_id == i)) [
      | inl e ↦ (
        ground (arith, q, e),
        ground (arith, q, e),
        inl (grind (arith, q, e), ground (arith, q, e)),
      )
      | inr e ↦ (
        ground (arith, q, e),
        ground (arith, q, e),
        inr (grind (arith, q, e), ground (arith, q, e)),
      )
    ]
  ]

  pub dropped_lem :
      (route i : ℕ) (b : BusStore S N)
      → ((drop_ride route i b).sessions ≡ b.sessions)
        × ((drop_ride route i b).terminal_journey ≡ b.terminal_journey)
        × ((drop_ride route i b).lock ≡ b.lock)
  unfolding drop_ride
  dropped_lem route i b = (ground arith, ground arith, ground arith)

  pub maybe_dropped :
      (old : Bool) (route i : ℕ) (b : BusStore S N)
      → ((if old then drop_ride route i b else b).sessions ≡ b.sessions)
        × ((if old then drop_ride route i b else b).terminal_journey ≡ b.terminal_journey)
        × ((if old then drop_ride route i b else b).lock ≡ b.lock)
  maybe_dropped true route i b = dropped_lem route i b
  maybe_dropped false route i b = (refl, refl, refl)

  -- The session i is found, and ends.
  pub finished-IsOwned :
      (i : ℕ) (s s' : Session S N) (b c : BusStore S N)
      → IsOwned b
      → find_session i b ≡ some s
      → brief s' ≡ (false, s.previous_session_id)
      → c.sessions ≡ set ℕ_discrete i s' b.sessions
      → c.terminal_journey ≡ b.terminal_journey
      → c.lock ≡ b.lock
      → IsOwned (release_lock i c)
  unfolding IsOwned
  finished-IsOwned i s s' b c h found ends sessions journey lock =
      let (ss, jj, freed) = freed_lem i c in
      rw (ss ∙ sessions, jj ∙ journey)
        (ended-IsConsistent (facts b.sessions) (facts (set ℕ_discrete i s' b.sessions))
          (lock_id b.lock) (journey_key b.terminal_journey) h i (is_unfinished s.status)
          s.previous_session_id (lock_id (release_lock i c).lock) (ap brief_of found)
          (λ k. facts-set i k s' b.sessions ∙ rw (ends) refl) (rw (← lock) freed))

  -- The owner of the lock ends and leaves an open checkpoint.
  pub checkpointed-IsOwned :
      (i : ℕ) (s s' : Session S N) (j : TerminalJourney N) (b c : BusStore S N)
      → IsOwned b
      → find_session i b ≡ some s
      → is_unfinished s.status ≡ true
      → brief s' ≡ (false, s.previous_session_id)
      → c.sessions ≡ set ℕ_discrete i s' b.sessions
      → c.lock ≡ b.lock
      → j.session_id ≡ i
      → j.consumed_by ≡ none
      → IsOwned (record (release_lock i c) { terminal_journey = some j })
  unfolding IsOwned
  checkpointed-IsOwned i s s' j b c h found u ends sessions lock mine spare =
      let (ss, jj, freed) = freed_lem i c in
      let fact : facts b.sessions i ≡ some (true, s.previous_session_id) =
        grind (arith, found, u) in
      let free : lock_id (release_lock i c).lock ≡ none =
        grind (arith, freed, ap lock_id lock, h.locked i s.previous_session_id fact) in
      let key : journey_key (some j) ≡ some (i, false) = grind (arith, mine, spare) in
      rw (ss ∙ sessions, free)
        (completed-IsConsistent (facts b.sessions) (facts (set ℕ_discrete i s' b.sessions))
          (lock_id b.lock) (journey_key b.terminal_journey) h i s.previous_session_id
          (journey_key (some j)) fact (λ k. facts-set i k s' b.sessions ∙ rw (ends) refl) key)

  -- A transaction that neither opens nor ends a session keeps the documents consistent.
  pub kept-IsOwned :
      (i : ℕ) (s s' : Session S N) (b c : BusStore S N)
      → IsOwned b
      → find_session i b ≡ some s
      → brief s' ≡ brief s
      → c.sessions ≡ set ℕ_discrete i s' b.sessions
      → c.terminal_journey ≡ b.terminal_journey
      → lock_id c.lock ≡ lock_id b.lock
      → IsOwned c
  unfolding IsOwned
  kept-IsOwned i s s' b c h found same sessions journey lock =
      rw (sessions, journey, lock)
        (same-IsConsistent (facts b.sessions) (facts (set ℕ_discrete i s' b.sessions))
          (lock_id b.lock) (journey_key b.terminal_journey) h
          (λ k. facts-set_same i k s s' b.sessions found same))

  -- The number of a new session is not one that a session or the checkpoint still refers to.
  pub record IsUnused (new : ℕ) (b : BusStore S N) : Type 0 where
    pub previous :
        (i : ℕ) (s : Session S N) → find_session i b ≡ some s → s.previous_session_id ≢ some new
    pub journey : (j : TerminalJourney N) → b.terminal_journey ≡ some j → j.session_id ≢ new

  pub unused-facts :
      (new : ℕ) (b : BusStore S N)
      → IsUnused new b
      → (k : ℕ) (u : Bool) → facts b.sessions k ≢ some (u, some new)
  unused-facts new b h k u q = elim (Option-cases (find_session k b)) [
    | inl n ↦ absurd (grind (arith, n, q))
    | inr (s, n) ↦ h.previous k s n (grind (arith, n, q))
  ]

  pub unused-journey :
      (new : ℕ) (b : BusStore S N)
      → IsUnused new b
      → (c : Bool) → journey_key b.terminal_journey ≢ some (new, c)
  unused-journey new b h c q = elim (Option-cases b.terminal_journey) [
    | inl n ↦ absurd (grind (arith, n, q))
    | inr (j, n) ↦ h.journey j n (grind (arith, n, q))
  ]

  unfoldable pub no_return : ℕ → List (ℕ × Session S N) → Bool
  no_return new [] = true
  no_return new ((_, s) ∷ ss) =
      let rest = no_return new ss in not (holds (λ p. p == new) s.previous_session_id) && rest

  -- The test of it.
  unfoldable pub is_unused : ℕ → BusStore S N → Bool
  unfolding no_return
  is_unused new b =
      no_return new b.sessions
      && not (holds (λ (j : TerminalJourney N). j.session_id == new) b.terminal_journey)

  no_return-lookup :
      (new i : ℕ) (s : Session S N) (ss : List (ℕ × Session S N))
      → no_return new ss ≡ true
      → lookup ℕ_discrete i ss ≡ some s
      → s.previous_session_id ≢ some new
  unfolding no_return lookup
  no_return-lookup new i s [] h e f = absurd (ground (arith, e))
  no_return-lookup new i s ((j, t) ∷ ss) h e f = elim (ℕ_discrete j i) [
    | yes q ↦ let same : t ≡ s = ground (arith, e, q) in absurd (ground (arith, h, f, same))
    | no q ↦ no_return-lookup new i s ss (ground (arith, h)) (ground (arith, e, q)) f
  ]

  pub is_unused-IsUnused : (new : ℕ) (b : BusStore S N) → is_unused new b ≡ true → IsUnused new b
  unfolding is_unused
  is_unused-IsUnused new b h = record {
    previous = λ i s. no_return-lookup new i s b.sessions (ground (arith, h));
    journey = λ j e q. ground (arith, h, e, q);
  }
