-- ===== src/Polyline/RoundTrip.antt =====
-- A polyline that is written and read again (backend/src/lib/polylineUtils.ts).
use eki.Polyline.Value.{decode_coordinate-encode_value, IsSmall}
use eki.Prelude.Int.{negsuc, pos, ℤ}
use eki.Polyline.Defs.{
  decode_coordinate, digits, decode_from, on_earth, difference, total_of, magnitude, encode_value,
  PointE5, encode_from, encode_polyline, decode_polyline,
}
use eki.Prelude.{
  ◌∙◌, inr, length-append, refl, ◌++◌, inl, arith, List-cases, some, true, length, ◌≡◌, ◌≤◌, List,
  ◌∷◌, [], ℕ, zero, suc,
}

abbrev pub AllOnEarth : List PointE5 → Type 0
AllOnEarth [] = Unit
AllOnEarth (p ∷ ps) = (on_earth p.lat p.lng ≡ true) × AllOnEarth ps

total_of-difference : (a b : ℤ) → total_of a (difference b a) ≡ b
total_of-difference (pos n) (pos m) = ground arith
total_of-difference (pos n) (negsuc m) = ground arith
total_of-difference (negsuc n) (pos m) = ground arith
total_of-difference (negsuc n) (negsuc m) = ground arith

difference-IsSmall :
    (a b : ℤ) → magnitude a ≤ 18_000_000 → magnitude b ≤ 18_000_000 → IsSmall (difference a b)
difference-IsSmall a b p q = ground arith

encode_value-nonempty : (d : ℤ) → (c : ℕ) × (cs : List ℕ) × (encode_value d ≡ c ∷ cs)
encode_value-nonempty d = elim (List-cases (encode_value d)) [
  | inl q ↦ absurd (unfold encode_value digits in ground arith)
  | inr (c, cs, q) ↦ (c, cs, q)
]

length-encode_from : (lat lng : ℤ) (ps : List PointE5) → length ps ≤ length (encode_from lat lng ps)
unfolding encode_from
length-encode_from lat lng [] = omega arith
length-encode_from lat lng (p ∷ ps) =
    let (c, cs, q) = encode_value-nonempty (difference p.lat lat) in
    let tail = encode_value (difference p.lng lng) ++ encode_from p.lat p.lng ps in
    rw (q) (
      omega (
        arith,
        length-encode_from p.lat p.lng ps,
        length-append {0} cs tail,
        length-append {0} (encode_value (difference p.lng lng)) (encode_from p.lat p.lng ps),
      ))

decode_from-point :
    (fuel : ℕ) (lat lng dlat dlng : ℤ) (encoded after rest : List ℕ) (ps : List PointE5)
    → decode_coordinate encoded 0 0 ≡ some (dlat, after)
    → decode_coordinate after 0 0 ≡ some (dlng, rest)
    → decode_from fuel (total_of lat dlat) (total_of lng dlng) rest ≡ some ps
    → on_earth (total_of lat dlat) (total_of lng dlng) ≡ true
    → decode_from (suc fuel) lat lng encoded
      ≡ some (record { lat = total_of lat dlat; lng = total_of lng dlng } ∷ ps)
decode_from-point fuel lat lng dlat dlng [] after rest ps e f g h =
    absurd (unfold decode_coordinate in ground arith)
decode_from-point fuel lat lng dlat dlng (c ∷ cs) after rest ps e f g h =
    unfold decode_from in rw (e, f, g, h) refl

decode_from-encode_from :
    (fuel : ℕ) (lat lng : ℤ) (ps : List PointE5)
    → length ps ≤ fuel
    → magnitude lat ≤ 18_000_000
    → magnitude lng ≤ 18_000_000
    → AllOnEarth ps
    → decode_from fuel lat lng (encode_from lat lng ps) ≡ some ps
decode_from-encode_from fuel lat lng [] f a b h = unfold encode_from decode_from in refl
decode_from-encode_from zero lat lng (p ∷ ps) f a b h = absurd (omega arith)
decode_from-encode_from (suc fuel) lat lng (p ∷ ps) f a b h =
    let dlat = difference p.lat lat in
    let dlng = difference p.lng lng in
    let small : (magnitude p.lat ≤ 18_000_000) × (magnitude p.lng ≤ 18_000_000) =
      (ground (arith, h.0), ground (arith, h.0)) in
    let more = encode_from p.lat p.lng ps in
    let first =
      decode_coordinate-encode_value dlat (encode_value dlng ++ more)
        (difference-IsSmall p.lat lat small.0 a) in
    let second =
      decode_coordinate-encode_value dlng more (difference-IsSmall p.lng lng small.1 b) in
    let rest = decode_from-encode_from fuel p.lat p.lng ps (omega arith) small.0 small.1 h.1 in
    let (c, cs, q) = encode_value-nonempty dlat in
    let back = total_of-difference lat p.lat in
    let back' = total_of-difference lng p.lng in
    let eq : encode_from lat lng (p ∷ ps) ≡ encode_value dlat ++ (encode_value dlng ++ more) =
      unfold encode_from in refl in
    let point =
      decode_from-point fuel lat lng dlat dlng (encode_value dlat ++ (encode_value dlng ++ more))
        (encode_value dlng ++ more) more ps first second (rw (back, back') rest)
        (rw (back, back') h.0) in
    rw (eq) (point ∙ rw (back, back') refl)

-- A polyline whose coordinates lie on the earth is read back as it was written.
pub decode_polyline-encode_polyline :
    (ps : List PointE5) → AllOnEarth ps → decode_polyline (encode_polyline ps) ≡ some ps
unfolding decode_polyline encode_polyline
decode_polyline-encode_polyline ps h =
    decode_from-encode_from (length (encode_from (pos 0) (pos 0) ps)) (pos 0) (pos 0) ps
      (length-encode_from (pos 0) (pos 0) ps) (omega arith) (omega arith) h
