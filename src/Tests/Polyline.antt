-- ===== src/Tests/Polyline.antt =====
-- A polyline of two points.
use eki.Prelude.Int.{pos}
use eki.Polyline.RoundTrip.{decode_polyline-encode_polyline}
use eki.Polyline.Defs.{PointE5, encode_polyline, decode_polyline, decode_coordinate, decode_from}
use eki.Prelude.{refl, none, some, ◌≡◌, List, ◌∷◌, []}

abbrev two_points : List PointE5
two_points =
    record { lat = pos 1_297_160; lng = pos 7_759_460 }
    ∷ (record { lat = pos 1_297_000; lng = pos 7_759_999 } ∷ [])

decode_polyline-encode_polyline_example :
    decode_polyline (encode_polyline two_points) ≡ some two_points
decode_polyline-encode_polyline_example =
    decode_polyline-encode_polyline two_points (refl, (refl, tt))

-- A character outside the alphabet is refused.
bad_character : decode_polyline (50 ∷ 70 ∷ []) ≡ none
unfolding decode_polyline decode_from decode_coordinate
bad_character = refl
