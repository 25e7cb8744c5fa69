-- ===== src/Rides/Consistent.antt =====
-- What the sessions, the lock and the terminal checkpoint of one bus keep true together, of each
-- session only whether it is unfinished and which session it returns from.
use eki.Prelude.{
  ℕ, ℕ_discrete, Option, some, none, Bool, true, false, ◌≡◌, ◌≢◌, sym, ◌∙◌, ite, arith, ◌⊎◌,
}

pub record IsConsistent (f : ℕ → Option (Bool × Option ℕ)) (lock : Option ℕ)
    (journey : Option (ℕ × Bool)) : Type 0 where
  -- The lock belongs to an unfinished session, and every unfinished session has it.
  pub owner : (i : ℕ) → lock ≡ some i → (p : Option ℕ) × (f i ≡ some (true, p))
  pub locked : (i : ℕ) (p : Option ℕ) → f i ≡ some (true, p) → lock ≡ some i
  -- The session of the checkpoint is finished, if its history is still stored.
  pub ended :
      (i : ℕ) (c u : Bool) (p : Option ℕ) → journey ≡ some (i, c) → f i ≡ some (u, p) → u ≡ false
  -- A session that was returned from is finished, if its history is still stored, and its checkpoint
  -- is not open.
  pub origin :
      (i p : ℕ) (u v : Bool) (q : Option ℕ) → f i ≡ some (u, some p) → f p ≡ some (v, q) → v ≡ false
  pub spent : (i p : ℕ) (u : Bool) → f i ≡ some (u, some p) → journey ≢ some (p, false)
  -- No session is returned from twice.
  pub single : (i k p : ℕ) (u v : Bool) → f i ≡ some (u, some p) → f k ≡ some (v, some p) → i ≡ k

module _ (f f' : ℕ → Option (Bool × Option ℕ)) (l : Option ℕ) (j : Option (ℕ × Bool))
    (h : IsConsistent f l j) where
  -- No session changes in these respects.
  pub same-IsConsistent : ((k : ℕ) → f' k ≡ f k) → IsConsistent f' l j
  same-IsConsistent e = record {
    owner = λ i q. rw (e i) (h.owner i q);
    locked = λ i p q. h.locked i p (sym (e i) ∙ q);
    ended = λ i c u p q r. h.ended i c u p q (sym (e i) ∙ r);
    origin = λ i p u v q r t. h.origin i p u v q (sym (e i) ∙ r) (sym (e p) ∙ t);
    spent = λ i p u q. h.spent i p u (sym (e i) ∙ q);
    single = λ i k p u v q r. h.single i k p u v (sym (e i) ∙ q) (sym (e k) ∙ r);
  }

  -- A session ends and gives its lock back.
  pub ended-IsConsistent :
      (i : ℕ) (u : Bool) (p l' : Option ℕ)
      → f i ≡ some (u, p)
      → ((k : ℕ) → f' k ≡ ite (ℕ_discrete i k) (some (false, p)) (f k))
      → ((l ≡ some i) × (l' ≡ none)) ⊎ ((l ≢ some i) × (l' ≡ l))
      → IsConsistent f' l' j
  ended-IsConsistent i u p l' s e freed = record {
    owner = λ k q. grind (arith, e k, freed, s, h.owner k, h.locked k);
    locked = λ k q r. grind (arith, e k, freed, s, h.locked k q);
    ended = λ k c v q r t. grind (arith, e k, h.ended k c v q);
    origin = λ k q v w m r t. grind (arith, e k, e q, s, h.origin k q v w m, h.origin i q u w m);
    spent = λ k q v r. grind (arith, e k, s, h.spent k q v);
    single = λ k m q v w r t. grind (arith, e k, e m, s, h.single k m q v w);
  }

  -- The owner of the lock ends, and leaves an open checkpoint or the one before.
  pub completed-IsConsistent :
      (i : ℕ) (p : Option ℕ) (j' : Option (ℕ × Bool))
      → f i ≡ some (true, p)
      → ((k : ℕ) → f' k ≡ ite (ℕ_discrete i k) (some (false, p)) (f k))
      → j' ≡ some (i, false)
      → IsConsistent f' none j'
  completed-IsConsistent i p j' s e opened = record {
    owner = λ k q. absurd (grind (arith, q));
    locked = λ k q r. grind (arith, e k, s, h.locked k q, h.locked i p);
    ended = λ k c v q r t. grind (arith, e k, opened, s);
    origin = λ k q v w m r t. grind (arith, e k, e q, s, h.origin k q v w m, h.origin i q true w m);
    spent =
        λ k q v r t. grind (arith, e k, s, opened, h.origin k q v true p, h.origin i q true true p);
    single = λ k m q v w r t.
        grind
          (arith, e k, e m, s, h.single k m q v w, h.single i m q true w, h.single k i q v true);
  }

  -- A new session takes the free lock, and forgets the checkpoint.
  pub opened-IsConsistent :
      (new : ℕ)
      → l ≡ none
      → f new ≡ none
      → ((k : ℕ) (u : Bool) → f k ≢ some (u, some new))
      → ((k : ℕ) → f' k ≡ ite (ℕ_discrete new k) (some (true, none)) (f k))
      → IsConsistent f' (some new) none
  opened-IsConsistent new free fresh unused e = record {
    owner = λ k q. grind (arith, e k, q);
    locked = λ k q r. grind (arith, e k, free, h.locked k q);
    ended = λ k c u p q. absurd (grind (arith, q));
    origin = λ k q v w m r t. grind (arith, e k, e q, unused k v, h.origin k q v w m);
    spent = λ k q v r t. grind (arith, t);
    single = λ k m q v w r t. grind (arith, e k, e m, h.single k m q v w);
  }

  -- A new session takes the free lock and returns from the session of the open checkpoint.
  pub returned-IsConsistent :
      (new p : ℕ)
      → l ≡ none
      → f new ≡ none
      → ((k : ℕ) (u : Bool) → f k ≢ some (u, some new))
      → ((c : Bool) → j ≢ some (new, c))
      → j ≡ some (p, false)
      → ((k : ℕ) → f' k ≡ ite (ℕ_discrete new k) (some (true, some p)) (f k))
      → IsConsistent f' (some new) (some (p, true))
  returned-IsConsistent new p free fresh unused other journey e = record {
    owner = λ k q. grind (arith, e k, q);
    locked = λ k q r. grind (arith, e k, free, h.locked k q);
    ended = λ k c v m r t. grind (arith, e k, r, other false, journey, h.ended p false v m);
    origin = λ k q v w m r t. grind (
      arith,
      e k,
      e q,
      unused k v,
      other false,
      journey,
      h.ended p false w m,
      h.origin k q v w m,
    );
    spent = λ k q v r t. grind (arith, t);
    single = λ k m q v w r t.
        grind (arith, e k, e m, journey, h.spent k q v, h.spent m q w, h.single k m q v w);
  }

  -- The history of a finished session is deleted.
  pub deleted-IsConsistent :
      (i : ℕ)
      → ((p : Option ℕ) → f i ≢ some (true, p))
      → ((k : ℕ) → f' k ≡ ite (ℕ_discrete i k) none (f k))
      → IsConsistent f' l j
  deleted-IsConsistent i over e = record {
    owner = λ k q. let (p, found) = h.owner k q in (p, grind (arith, e k, over p, found));
    locked = λ k q r. grind (arith, e k, h.locked k q);
    ended = λ k c v q r t. grind (arith, e k, h.ended k c v q);
    origin = λ k q v w m r t. grind (arith, e k, e q, h.origin k q v w m);
    spent = λ k q v r. grind (arith, e k, h.spent k q v);
    single = λ k m q v w r t. grind (arith, e k, e m, h.single k m q v w);
  }
