-- ===== src/Polyline/Defs.antt =====
-- `encodePolyline` and `decodePolyline` of backend/src/lib/polylineUtils.ts. A string is the list of
-- its character codes. A coordinate is a whole number of 1e-5 degrees, as `Math.round(x * 1e5)`
-- gives it. Bit patterns of 32 bits are numbers below 2 ^ 32; where `|` joins bits that do not
-- overlap it is `+`.
use eki.Prelude.Int.{negsuc, neg_part, pos_part, pos, ℤ}
use eki.Prelude.{
  ◌>>=◌, ◌==◌, ◌||◌, ◌%◌, ◌&&◌, length, ltb, ◌/◌, leb, ◌*◌, some, ◌-◌, none, if◌then◌else◌, Option,
  ◌+◌, Bool, ◌^◌, ◌++◌, List, ◌∷◌, [], ℕ, zero, suc,
}

pub record PointE5 : Type 0 where
  pub lat : ℤ
  pub lng : ℤ

abbrev pub difference : ℤ → ℤ → ℤ
difference a b =
    let x = pos_part a + neg_part b in
    let y = neg_part a + pos_part b in if leb y x then pos (x - y) else negsuc (y - x - 1)

abbrev pub total_of : ℤ → ℤ → ℤ
total_of a b =
    let x = pos_part a + pos_part b in
    let y = neg_part a + neg_part b in if leb y x then pos (x - y) else negsuc (y - x - 1)

-- `(d < 0) ? ~(d << 1) : (d << 1)`, as a pattern of 32 bits.
unfoldable pub zigzag : ℤ → ℕ
zigzag (pos n) = 2 * n % 2 ^ 32
zigzag (negsuc n) = (2 * n + 1) % 2 ^ 32

-- `result & 1 ? ~(result >> 1) : result >> 1` of such a pattern.
unfoldable pub unzigzag : ℕ → ℤ
unzigzag w =
    let m = 2 ^ 32 - w in
    if ltb w (2 ^ 31)
    then (if w % 2 == 1 then negsuc (w / 2) else pos (w / 2))
    else if w % 2 == 1
    then pos ((m + 1) / 2 - 1)
    else negsuc (m / 2 - 1)

-- The loop that writes a number that is not negative. A number of 31 bits has at most six digits
-- before its last one.
unfoldable pub digits : ℕ → ℕ → List ℕ
digits zero n = (n + 63) ∷ []
digits (suc rounds) n =
    let rest = digits rounds (n / 32) in
    if leb 32 n then (32 + n % 32 + 63) ∷ rest else (n + 63) ∷ []

-- A pattern that stands for a negative number is written as one character.
unfoldable pub encode_value : ℤ → List ℕ
unfolding digits
encode_value d =
    if ltb (zigzag d) (2 ^ 31) then digits 6 (zigzag d) else ((zigzag d + 63) % 2 ^ 16) ∷ []

unfoldable pub encode_from : ℤ → ℤ → List PointE5 → List ℕ
unfolding encode_value
encode_from lat lng [] = []
encode_from lat lng (p ∷ ps) =
    encode_value (difference p.lat lat)
    ++ (encode_value (difference p.lng lng) ++ encode_from p.lat p.lng ps)

unfoldable pub encode_polyline : List PointE5 → List ℕ
unfolding encode_from
encode_polyline = encode_from (pos 0) (pos 0)

-- `decodeCoordinate`, from the character on that is next: the value and the rest, or `none` where it
-- throws.
unfoldable pub decode_coordinate : List ℕ → ℕ → ℕ → Option (ℤ × List ℕ)
decode_coordinate [] result shift = none
decode_coordinate (c ∷ cs) result shift =
    let byte = c - 63 in
    let result' = (result + byte % 32 * 2 ^ shift) % 2 ^ 32 in
    let more = decode_coordinate cs result' (shift + 5) in
    if ltb c 63 || (ltb 63 byte || ltb 30 shift)
    then none
    else if ltb byte 32
    then some (unzigzag result', cs)
    else more

abbrev pub magnitude : ℤ → ℕ
magnitude z = pos_part z + neg_part z

abbrev pub on_earth : ℤ → ℤ → Bool
on_earth lat lng = leb (magnitude lat) 9_000_000 && leb (magnitude lng) 18_000_000

-- The loop of `decodePolyline`. Each round takes two characters at least.
unfoldable pub decode_from : ℕ → ℤ → ℤ → List ℕ → Option (List PointE5)
unfolding decode_coordinate
decode_from fuel lat lng [] = some []
decode_from zero lat lng (c ∷ cs) = none
decode_from (suc fuel) lat lng (c ∷ cs) = do
  (dlat, after) ← decode_coordinate (c ∷ cs) 0 0
  (dlng, rest) ← decode_coordinate after 0 0
  let lat' = total_of lat dlat
  let lng' = total_of lng dlng
  ps ← decode_from fuel lat' lng' rest
  if on_earth lat' lng' then some (record { lat = lat'; lng = lng' } ∷ ps) else none

unfoldable pub decode_polyline : List ℕ → Option (List PointE5)
unfolding decode_from
decode_polyline encoded = decode_from (length encoded) (pos 0) (pos 0) encoded
