-- ===== src/Tests/Circuit.antt =====
-- A request to the provider that fails once.
use eki.Circuit.Probes.{Reach-admits, Reach-IsProbed, IsProbed}
use eki.Circuit.Defs.{
  released, acquired, closed_circuit, open_circuit, ceiling_ms, Reach, here, next, Provider,
  Circuit, acquire, release,
}
use eki.Prelude.{arith, refl, false, ltb, some, ◌≡◌, []}

abbrev failed_once : Circuit
failed_once = record closed_circuit { failures = 1 }

abbrev failed : Provider
failed = record { circuit = failed_once; permits = [] }

failed-Reach : Reach (record { circuit = closed_circuit; permits = [] }) failed
unfolding acquire release open_circuit ceiling_ms
failed-Reach = next (next here (acquired 1_000)) (
    released 2_000 40_000 (some false) (record { probe = false; generation = 0 }) [] [] refl
      (omega arith) (omega arith))

Reach-IsProbed_example : IsProbed failed_once []
Reach-IsProbed_example = Reach-IsProbed failed failed-Reach

Reach-admits_example :
    (acquire 3_000 failed_once).1 ≡ some (record { probe = ltb 0 0; generation = 0 })
Reach-admits_example = Reach-admits failed 3_000 failed-Reach refl (omega arith)

-- The fifth failure opens the circuit for half a minute at least, and the probe comes after it.
fifth_failure :
    (release 2_000 40_000
      (some false)
      (record { probe = false; generation = 0 })
      (record closed_circuit { failures = 4 })).open_until
    ≡ 42_000
unfolding release open_circuit
fifth_failure = refl
