-- ===== src/Tests/Grid.antt =====
-- A small model of the numbers: integers, with functions of `Math` under which two places on one
-- meridian are 0 m or 100 m apart. It shows that the theorems' hypotheses can be met.
use eki.Prelude.{◌-◌, true, ◌&&◌, ltb, leb, ◌*◌, ◌+◌, if◌then◌else◌, ◌/◌, Bool, ℕ}
use eki.Prelude.Int.{neg_part, pos_part, ℤ, pos, negsuc}
use eki.Geo.{LatLng, Float}

abbrev pub minus : ℤ → ℤ → ℤ
minus a b =
    let x = pos_part a + neg_part b in
    let y = neg_part a + pos_part b in if leb y x then pos (x - y) else negsuc (y - x - 1)

abbrev pub times : ℤ → ℤ → ℤ
times a b =
    minus (pos (pos_part a * pos_part b + neg_part a * neg_part b))
      (pos (pos_part a * neg_part b + neg_part a * pos_part b))

abbrev pub size : ℤ → ℕ
size a = pos_part a + neg_part a

-- The quotient, towards zero.
abbrev pub quotient : ℤ → ℤ → ℤ
quotient a b =
    let q = size a / size b in
    if leb (pos_part a * neg_part b + neg_part a * pos_part b) 0
    then pos q
    else minus (pos 0) (pos q)

abbrev pub below : ℤ → ℤ → Bool
below a b = ltb (pos_part a + neg_part b) (pos_part b + neg_part a)

abbrev pub up_to : ℤ → ℤ → Bool
up_to a b = leb (pos_part a + neg_part b) (pos_part b + neg_part a)

abbrev pub grid : Float
grid = record {
  Num = ℤ;
  lit = λ n. if ltb 1_000_000 n then pos 50 else pos n;
  neg = λ a. minus (pos 0) a;
  add = λ a b. minus a (minus (pos 0) b);
  sub = minus;
  mul = times;
  div = quotient;
  lt = below;
  le = up_to;
  num_eq = λ a b. up_to a b && up_to b a;
  is_finite = λ _. true;
  is_safe_integer = λ _. true;
  infinity = pos 1_000_000_000;
  pi = pos 180;
  floor = λ a. a;
  abs = λ a. pos (size a);
  sqrt = λ a. a;
  sin = λ a. a;
  cos = λ _. pos 1;
  atan2 = λ y _. y;
  hypot = λ x y. pos (size x + size y);
  minimum = λ a b. if up_to a b then a else b;
  maximum = λ a b. if up_to a b then b else a;
  rem = λ a b. minus a (times (quotient a b) b);
  epsilon = pos 0;
  to_fixed = λ _ a. a;
}

-- A place on the meridian.
abbrev pub at : ℕ → LatLng ℤ
at n = record { lat = pos n; lng = pos 0 }
