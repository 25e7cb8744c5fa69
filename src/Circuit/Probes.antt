-- ===== src/Circuit/Probes.antt =====
-- The probes of the provider circuit (backend/src/services/rerouteRetry.ts).
use eki.Circuit.Defs.{
  here, next, Step, Reach, released, acquired, closed_circuit, Provider, Permit, Circuit,
  ceiling_ms, acquire, release, with_permit, open_circuit,
}
use mathlib.Core.Path.{subst}
use native.Mathlib.Nat.{one-le-pow}
use eki.Prelude.{
  ◌-◌, refl, min, some, inr, inl, ◌≤◌, Option-cases, Bool, Option, ltb, ◌==◌, ◌+◌, false, arith,
  not, ◌&&◌, if◌then◌else◌, ◌++◌, ◌≡◌, ◌<◌, List, ◌∷◌, [], ℕ,
}

-- The permits of a generation that are probes, those that are not, and those of a later one.
unfoldable pub probes : ℕ → List Permit → ℕ
probes g [] = 0
probes g (p ∷ ps) = (if p.probe && (p.generation == g) then 1 else 0) + probes g ps

unfoldable pub plain : ℕ → List Permit → ℕ
plain g [] = 0
plain g (p ∷ ps) = (if not p.probe && (p.generation == g) then 1 else 0) + plain g ps

unfoldable pub beyond : ℕ → List Permit → ℕ
beyond g [] = 0
beyond g (p ∷ ps) = (if ltb g p.generation then 1 else 0) + beyond g ps

probes-append : (g : ℕ) (l r : List Permit) → probes g (l ++ r) ≡ probes g l + probes g r
unfolding probes
probes-append g [] r = ground arith
probes-append g (p ∷ ps) r = omega (arith, probes-append g ps r)

plain-append : (g : ℕ) (l r : List Permit) → plain g (l ++ r) ≡ plain g l + plain g r
unfolding plain
plain-append g [] r = ground arith
plain-append g (p ∷ ps) r = omega (arith, plain-append g ps r)

beyond-append : (g : ℕ) (l r : List Permit) → beyond g (l ++ r) ≡ beyond g l + beyond g r
unfolding beyond
beyond-append g [] r = ground arith
beyond-append g (p ∷ ps) r = omega (arith, beyond-append g ps r)

-- No permit of a later generation than the circuit's: the next generation has none.
beyond-zero :
    (g : ℕ) (ps : List Permit)
    → beyond g ps ≡ 0
    → (probes (g + 1) ps ≡ 0) × (plain (g + 1) ps ≡ 0) × (beyond (g + 1) ps ≡ 0)
unfolding beyond probes plain
beyond-zero g [] h = ground arith
beyond-zero g (p ∷ ps) h = grind (arith, beyond-zero g ps)

-- The circuit is probing exactly while one probe of its generation is not spent, and never more.
-- When it is closed no probe is, and when it is open no other permit of its generation is.
pub record IsProbed (c : Circuit) (ps : List Permit) : Type 0 where
  pub one : probes c.generation ps ≡ (if c.probing then 1 else 0)
  pub closed : c.open_until ≡ 0 → c.probing ≡ false
  pub opened : 0 < c.open_until → plain c.generation ps ≡ 0
  pub current : beyond c.generation ps ≡ 0

acquire-IsProbed :
    (now : ℕ) (c : Circuit) (ps : List Permit)
    → IsProbed c ps
    → IsProbed (acquire now c).0 (with_permit (acquire now c).1 ps)
unfolding acquire probes plain beyond
acquire-IsProbed now c ps h = record {
  one = ground (arith, h.one, h.closed);
  closed = λ e. ground (arith, h.closed);
  opened = λ e. ground (arith, h.opened);
  current = ground (arith, h.current);
}

ceiling_ms-pos : (n : ℕ) → 0 < ceiling_ms n
unfolding ceiling_ms
ceiling_ms-pos n = omega (arith, one-le-pow (min 10 (n - 1)) 2 (omega arith))

-- A permit less.
spent :
    (g : ℕ) (p : Permit) (before after : List Permit)
    → (probes g (before ++ after) + (if p.probe && (p.generation == g) then 1 else 0)
        ≡ probes g (before ++ (p ∷ after)))
      × (plain g (before ++ after) + (if not p.probe && (p.generation == g) then 1 else 0)
          ≡ plain g (before ++ (p ∷ after)))
      × (beyond g (before ++ after) ≤ beyond g (before ++ (p ∷ after)))
unfolding probes plain beyond
spent g p before after = (
  omega (arith, probes-append g before (p ∷ after), probes-append g before after),
  omega (arith, plain-append g before (p ∷ after), plain-append g before after),
  omega (arith, beyond-append g before (p ∷ after), beyond-append g before after),
)

release-IsProbed :
    (now wait_ms : ℕ) (success : Option Bool) (p : Permit) (c : Circuit)
    (before after : List Permit)
    → 0 < wait_ms
    → IsProbed c (before ++ (p ∷ after))
    → IsProbed (release now wait_ms success p c) (before ++ after)
unfolding release open_circuit
release-IsProbed now wait_ms success p c before after w h =
    let g = c.generation in
    let (fewer, fewer_plain, fewer_beyond) = spent g p before after in
    let (less, less_plain, less_beyond) = spent (g + 1) p before after in
    let (no_probe, no_plain, no_beyond) = beyond-zero g (before ++ (p ∷ after)) h.current in
    elim (Option-cases success) [
      | inl q ↦ rw (q) (record {
        one = ground (arith, h.one, fewer);
        closed = λ e. ground (arith, h.closed);
        opened = λ e. ground (arith, h.opened, fewer_plain);
        current = ground (arith, h.current, fewer_beyond);
      })
      | inr (ok, q) ↦ rw (q) (record {
        one = ground (arith, h.one, h.closed, h.opened, fewer, fewer_plain, less, no_probe);
        closed = λ e. ground (arith, h.closed, h.opened, h.one, fewer, fewer_plain, w);
        opened = λ e. ground (arith, h.opened, fewer_plain, less_plain, no_plain);
        current = ground (arith, h.current, fewer_beyond, less_beyond, no_beyond);
      })
    ]

Step-IsProbed :
    (s u : Provider) → Step s u → IsProbed s.circuit s.permits → IsProbed u.circuit u.permits
Step-IsProbed s _ (acquired now) h = acquire-IsProbed now s.circuit s.permits h
Step-IsProbed s _ (released now wait_ms success p before after e low high) h =
    let pos = ceiling_ms-pos (s.circuit.openings + 1) in
    release-IsProbed now wait_ms success p s.circuit before after (omega arith)
      (subst (λ ps. IsProbed s.circuit ps) e h)

-- From a closed circuit without permits on, in every order of requests and outcomes, the circuit
-- is probing exactly while one probe of its generation is not spent, and no two are. While it is
-- closed no probe is, and while it is open no other permit of its generation is.
pub Reach-IsProbed :
    (u : Provider)
    → Reach (record { circuit = closed_circuit; permits = [] }) u
    → IsProbed u.circuit u.permits
Reach-IsProbed _ here = record {
  one = unfold probes in refl;
  closed = λ _. refl;
  opened = λ e. absurd (ground arith);
  current = unfold beyond in refl;
}
Reach-IsProbed u (next {t = t} r d) = Step-IsProbed t u d (Reach-IsProbed t r)

-- The circuit never stays shut: in every state that is reached with all permits spent, a request
-- is admitted as soon as the time of the opening is over, with a probe if the circuit was opened.
pub Reach-admits :
    (u : Provider) (now : ℕ)
    → Reach (record { circuit = closed_circuit; permits = [] }) u
    → u.permits ≡ []
    → u.circuit.open_until ≤ now
    → (acquire now u.circuit).1
      ≡ some (record { probe = ltb 0 u.circuit.open_until; generation = u.circuit.generation })
unfolding acquire
Reach-admits u now r e due =
    let h = Reach-IsProbed u r in
    let one : probes u.circuit.generation u.permits ≡ (if u.circuit.probing then 1 else 0) =
      h.one in
    let empty : probes u.circuit.generation u.permits ≡ 0 = rw (e) (unfold probes in refl) in
    ground (arith, one, empty, due)
