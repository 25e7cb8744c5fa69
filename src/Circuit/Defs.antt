-- ===== src/Circuit/Defs.antt =====
-- `RerouteProviderCircuit` of backend/src/services/rerouteRetry.ts. Times are whole milliseconds. The
-- function that `acquire` returns is a permit, which is spent when the function is called. The time
-- that a random number gives between the half and the whole of a ceiling is an argument.
use eki.Prelude.{
  leb, true, ◌≤◌, ◌+◌, ◌==◌, ◌-◌, ◌||◌, ◌^◌, none, not, ◌++◌, some, ◌*◌, ltb, ◌≡◌, if◌then◌else◌,
  Bool, min, List, Option, false, ◌∷◌, ℕ,
}

pub record Circuit : Type 0 where
  pub failures : ℕ
  pub openings : ℕ
  pub generation : ℕ
  pub open_until : ℕ
  pub probing : Bool
  pub rejected : ℕ

pub record Permit : Type 0 where
  pub probe : Bool
  pub generation : ℕ

abbrev pub closed_circuit : Circuit
closed_circuit = record {
  failures = 0;
  openings = 0;
  generation = 0;
  open_until = 0;
  probing = false;
  rejected = 0;
}

unfoldable pub acquire : ℕ → Circuit → Circuit × Option Permit
acquire now c =
    let probe = ltb 0 c.open_until in
    if c.probing || ltb now c.open_until then (record c { rejected = c.rejected + 1 }, none) else (
      if probe then record c { probing = true } else c,
      some (record { probe = probe; generation = c.generation }),
    )

-- The longest time that the circuit stays open at an opening.
unfoldable pub ceiling_ms : ℕ → ℕ
ceiling_ms openings = min 300_000 (60_000 * 2 ^ min 10 (openings - 1))

-- A failure of the provider.
unfoldable pub open_circuit : ℕ → ℕ → Bool → Circuit → Circuit
open_circuit now wait_ms probe c =
    let failed = record c { failures = c.failures + 1 } in
    if probe || leb 5 failed.failures
    then record failed {
      openings = c.openings + 1;
      open_until = now + wait_ms;
      generation = c.generation + 1;
    }
    else failed

-- The call of a permit's function, with `none` for an outcome that is no provider's.
unfoldable pub release : ℕ → ℕ → Option Bool → Permit → Circuit → Circuit
unfolding open_circuit
release now wait_ms success p c =
    let settled = if p.probe then record c { probing = false } else c in
    if not (p.generation == c.generation) then c else elim success [
      | none ↦ settled
      | some ok ↦
          if ok
          then record settled { failures = 0; openings = 0; open_until = 0 }
          else open_circuit now wait_ms p.probe settled
    ]

-- The circuit and the permits that are not spent yet.
pub record Provider : Type 0 where
  pub circuit : Circuit
  pub permits : List Permit

abbrev pub with_permit : Option Permit → List Permit → List Permit
with_permit none ps = ps
with_permit (some p) ps = p ∷ ps

pub data Step (s : Provider) : Provider → Type 0 where
  acquired :
      (now : ℕ)
      → Step s (record {
        circuit = (acquire now s.circuit).0;
        permits = with_permit (acquire now s.circuit).1 s.permits;
      })
  released :
      (now wait_ms : ℕ) (success : Option Bool) (p : Permit) (before after : List Permit)
      → s.permits ≡ before ++ (p ∷ after)
      → ceiling_ms (s.circuit.openings + 1) ≤ 2 * wait_ms
      → wait_ms ≤ ceiling_ms (s.circuit.openings + 1)
      → Step s
          (record { circuit = release now wait_ms success p s.circuit; permits = before ++ after })

pub data Reach (s : Provider) : Provider → Type 0 where
  here : Reach s s
  next : {t u : Provider} → Reach s t → Step t u → Reach s u
