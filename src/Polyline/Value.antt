-- ===== src/Polyline/Value.antt =====
-- One coordinate of an encoded polyline (backend/src/lib/polylineUtils.ts).
use eki.Prelude.Int.{negsuc, pos, ℤ}
use eki.Polyline.Defs.{magnitude, zigzag, unzigzag, decode_coordinate, encode_value, digits}
use native.Mathlib.Numerals.{towards_suc}
use eki.Prelude.{
  inl, [], inr, leb, ap, Bool-cases, ◌∙◌, ◌/◌, lt→ltb, ◌%◌, ◌∷◌, arith, ◌-◌, ◌^◌, ◌≤◌, ◌*◌, some,
  ◌≡◌, ◌++◌, ◌+◌, ◌<◌, List, ℕ, zero, suc,
}

-- A difference that the 31 bits of its pattern hold.
abbrev pub IsSmall : ℤ → Type 0
IsSmall d = magnitude d ≤ 2 ^ 30 - 1

zigzag-lt : (d : ℤ) → IsSmall d → zigzag d < 2 ^ 31
unfolding zigzag
zigzag-lt (pos n) h = omega arith
zigzag-lt (negsuc n) h = omega arith

unzigzag-zigzag : (d : ℤ) → IsSmall d → unzigzag (zigzag d) ≡ d
unfolding zigzag unzigzag
unzigzag-zigzag (pos n) h = ground arith
unzigzag-zigzag (negsuc n) h = ground arith

last-digit :
    (n result shift : ℕ) (rest : List ℕ)
    → shift ≤ 30
    → n < 32
    → result + n * 2 ^ shift < 2 ^ 32
    → decode_coordinate ((n + 63) ∷ rest) result shift
      ≡ some (unzigzag (result + n * 2 ^ shift), rest)
unfolding decode_coordinate
last-digit n result shift rest s b w =
    let byte : n + 63 - 63 ≡ n = omega arith in
    let low : n % 32 ≡ n = omega arith in
    let fits : (result + n * 2 ^ shift) % 2 ^ 32 ≡ result + n * 2 ^ shift = omega (arith, w) in
    rw (byte, low, fits) (ground arith)

first-digit :
    (n result shift : ℕ) (cs : List ℕ)
    → shift ≤ 30
    → result + n % 32 * 2 ^ shift < 2 ^ 32
    → decode_coordinate ((32 + n % 32 + 63) ∷ cs) result shift
      ≡ decode_coordinate cs (result + n % 32 * 2 ^ shift) (shift + 5)
unfolding decode_coordinate
first-digit n result shift cs s w =
    let byte : 32 + n % 32 + 63 - 63 ≡ 32 + n % 32 = omega arith in
    let low : (32 + n % 32) % 32 ≡ n % 32 = omega arith in
    let fits : (result + n % 32 * 2 ^ shift) % 2 ^ 32 ≡ result + n % 32 * 2 ^ shift =
      omega (arith, w) in
    rw (byte, low, fits) (ground arith)

-- A number in its last digit and the others.
split-digit : (n p result : ℕ) → result + n * p ≡ result + n % 32 * p + n / 32 * (32 * p)
split-digit n p result =
    let parts : n ≡ n % 32 + n / 32 * 32 = omega arith in
    let scaled = ap (λ (t : ℕ). t * p) parts in grind (arith, scaled)

-- The digits of a number, read on top of a result of lower bits.
decode_coordinate-digits :
    (rounds n result shift : ℕ) (rest : List ℕ)
    → shift + 5 * rounds ≤ 30
    → n < 32 * 32 ^ rounds
    → result + n * 2 ^ shift < 2 ^ 32
    → decode_coordinate (digits rounds n ++ rest) result shift
      ≡ some (unzigzag (result + n * 2 ^ shift), rest)
decode_coordinate-digits zero n result shift rest s b w =
    unfold digits in last-digit n result shift rest (omega arith) (omega arith) w
decode_coordinate-digits (suc rounds) n result shift rest s b w =
    let split = split-digit n (2 ^ shift) result in
    let power : 2 ^ (shift + 5) ≡ 32 * 2 ^ shift = simp towards_suc (omega arith) in
    let ih =
      decode_coordinate-digits rounds (n / 32) (result + n % 32 * 2 ^ shift) (shift + 5) rest
        (omega arith) (grind (arith, b))
        (omega (arith, w, split, ap (λ (t : ℕ). n / 32 * t) power)) in
    elim (Bool-cases (leb 32 n)) [
      | inr small ↦
          let eq : digits (suc rounds) n ≡ (n + 63) ∷ [] = unfold digits in ground arith in
          rw (eq) (last-digit n result shift rest (omega arith) (ground arith) w)
      | inl large ↦
          let eq : digits (suc rounds) n ≡ (32 + n % 32 + 63) ∷ digits rounds (n / 32) =
            unfold digits in ground arith in
          rw (eq) (
            first-digit n result shift (digits rounds (n / 32) ++ rest) (omega arith)
              (omega (arith, w, split))
            ∙ (ih
                ∙ ap (λ (t : ℕ). some (unzigzag t, rest))
                    (omega (arith, split, ap (λ (t : ℕ). n / 32 * t) power))))
    ]

-- What is written for a small difference is read back, whatever follows it.
pub decode_coordinate-encode_value :
    (d : ℤ) (rest : List ℕ)
    → IsSmall d
    → decode_coordinate (encode_value d ++ rest) 0 0 ≡ some (d, rest)
decode_coordinate-encode_value d rest h =
    let small = zigzag-lt d h in
    let eq : encode_value d ≡ digits 6 (zigzag d) =
      unfold encode_value in ground (arith, lt→ltb (zigzag d) (2 ^ 31) small) in
    let read =
      decode_coordinate-digits 6 (zigzag d) 0 0 rest (omega arith) (omega arith) (omega arith) in
    let back : unzigzag (0 + zigzag d * 2 ^ 0) ≡ d =
      ap unzigzag (omega arith) ∙ unzigzag-zigzag d h in
    rw (eq) (read ∙ ap (λ (z : ℤ). some (z, rest)) back)
