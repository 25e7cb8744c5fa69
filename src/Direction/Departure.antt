-- ===== src/Direction/Departure.antt =====
-- `inferDepartureDirection` and `departureSamples` of backend/src/services/departureDirection.ts.
use eki.Direction.Endpoint.{RideDirection, forward, reverse}
use eki.Matching.Search.{match_route_position}
use eki.Matching.Segments.{trajectory_heading, vertex, RouteMatch}
use eki.Geo.{haversine_meters, Float, LatLng}
use eki.Prelude.{
  map, ◌-◌, ◌||◌, holds, ◌++◌, none, some, length, not, true, ◌&&◌, ltb, leb, false, if◌then◌else◌,
  Bool, Option, drop, List, ◌∷◌, [],
}

pub record DepartureSample (N : Type 0) : Type 0 where
  pub place : LatLng N
  pub timestamp : N

pub record DepartureInput (N : Type 0) : Type 0 where
  pub samples : List (DepartureSample N)
  pub stops : List (LatLng N)
  pub forward_path : List (LatLng N)
  pub reverse_path : List (LatLng N)
  pub now : N

module _ (F : Float) where
  open F use {Num, lit, add, sub, div, lt, le, is_finite, maximum}

  -- The fix has values, and is neither too old nor from the future.
  unfoldable pub recent_sample : Num → DepartureSample Num → Bool
  recent_sample now s =
      is_finite s.place.lat
      && (is_finite s.place.lng
          && (is_finite s.timestamp
              && (not (lt (lit 60_000) (sub now s.timestamp))
                  && not (lt (add now (lit 10_000)) s.timestamp))))

  -- The fixes after a fix: each is later than the one before, and within 250 m of it.
  unfoldable pub in_sequence : Num → DepartureSample Num → List (DepartureSample Num) → Bool
  unfolding recent_sample
  in_sequence now before [] = true
  in_sequence now before (s ∷ ss) =
      recent_sample now s
      && (not (le s.timestamp before.timestamp)
          && (not (lt (lit 250) (haversine_meters F s.place before.place)) && in_sequence now s ss))

  abbrev pub last_sample : DepartureSample Num → List (DepartureSample Num) → DepartureSample Num
  last_sample s [] = s
  last_sample s (t ∷ ts) = last_sample t ts

  -- The fixes, the first of which is given, are enough, usable and 2 seconds apart at least.
  unfoldable pub usable_samples : Num → DepartureSample Num → List (DepartureSample Num) → Bool
  unfolding in_sequence recent_sample
  usable_samples now first rest =
      leb 2 (length rest)
      && (recent_sample now first
          && (in_sequence now first rest
              && not (lt (sub (last_sample first rest).timestamp first.timestamp) (lit 2_000))))

  -- `matchRoutePosition` with its default arguments.
  unfoldable pub match_point : LatLng Num → List (LatLng Num) → Option Num → Option (RouteMatch Num)
  match_point point path heading = match_route_position F (record {
    raw_point = point;
    path = path;
    heading_degrees = heading;
    previous = none;
    position_uncertainty_m = lit 25;
    maximum_progress_change_m = none;
    plausible_progress_m = none;
  })

  unfoldable pub good_match : Num → RouteMatch Num → Bool
  good_match next_along m =
      not m.is_ambiguous
      && (not (lt (lit 15) m.distance_to_route_m)
          && (not (lt m.match_confidence (div (lit 7) (lit 10)))
              && (holds (λ d. not (lt (lit 35) d)) m.heading_difference
                  && not (lt (add next_along (lit 10)) m.along_route_distance_m))))

  -- The places along the route of the fixes, `none` if one of them has no good match.
  unfoldable pub places_along :
      List (LatLng Num) → Num → Num → List (DepartureSample Num) → Option (List Num)
  unfolding good_match match_point
  places_along path heading next_along [] = some []
  places_along path heading next_along (s ∷ ss) =
      let more = places_along path heading next_along ss in
      elim (match_point s.place path (some heading)) [
        | none ↦ none
        | some m ↦
            if good_match next_along m
            then elim more [ none ↦ none | some ps ↦ some (m.along_route_distance_m ∷ ps) ]
            else none
      ]

  -- No place falls more than 2.5 m behind the furthest one before it.
  unfoldable pub keeps_forward : Num → List Num → Bool
  keeps_forward furthest [] = true
  keeps_forward furthest (p ∷ ps) =
      let rest = keeps_forward (maximum furthest p) ps in
      not (lt p (sub furthest (div (lit 5) (lit 2)))) && rest

  abbrev pub last_place : Num → List Num → Num
  last_place p [] = p
  last_place p (q ∷ qs) = last_place q qs

  unfoldable pub advances : List Num → Bool
  unfolding keeps_forward
  advances [] = false
  advances (p ∷ ps) = keeps_forward p (p ∷ ps) && le (lit 30) (sub (last_place p ps) p)

  abbrev pub path_of : DepartureInput Num → RideDirection → List (LatLng Num)
  path_of i forward = i.forward_path
  path_of i reverse = i.reverse_path

  -- `stops[1]`, or `stops[stops.length - 2]`.
  abbrev pub next_stop : DepartureInput Num → RideDirection → LatLng Num
  next_stop i forward = vertex F i.stops 1
  next_stop i reverse = vertex F i.stops (length i.stops - 2)

  -- Whether the fixes travel the first leg of a direction.
  unfoldable pub is_candidate : DepartureInput Num → Num → RideDirection → Bool
  unfolding places_along advances match_point
  is_candidate i heading d = elim (match_point (next_stop i d) (path_of i d) none) [
    | none ↦ false
    | some next ↦
        not next.is_ambiguous
        && (not (lt (lit 20) next.distance_to_route_m)
            && holds advances
                (places_along (path_of i d) heading next.along_route_distance_m i.samples))
  ]

  unfoldable pub only_candidate : Bool → Bool → Option RideDirection
  only_candidate ahead back =
      if ahead then (if back then none else some forward) else if back then some reverse else none

  unfoldable pub infer_departure_direction : DepartureInput Num → Option RideDirection
  unfolding usable_samples is_candidate only_candidate
  infer_departure_direction i = elim i.samples [
    | [] ↦ none
    | first ∷ rest ↦
        if not (leb 2 (length i.stops)) || not (usable_samples i.now first rest)
        then none
        else elim (trajectory_heading F (map (λ (s : DepartureSample Num). s.place) i.samples)
            (lit 30)) [
              | none ↦ none
              | some heading ↦
                  only_candidate (is_candidate i heading forward) (is_candidate i heading reverse)
            ]
  ]

  -- The stored fixes that count: with values, earlier than the new one and at most 60 s older.
  unfoldable pub earlier_samples :
      DepartureSample Num → List (DepartureSample Num) → List (DepartureSample Num)
  earlier_samples s [] = []
  earlier_samples s (p ∷ ps) =
      let rest = earlier_samples s ps in
      if is_finite p.place.lat
        && (is_finite p.place.lng
            && (is_finite p.timestamp
                && (lt p.timestamp s.timestamp && le (sub s.timestamp p.timestamp) (lit 60_000))))
      then p ∷ rest
      else rest

  -- `valid.slice(-6)` of a list that is long enough.
  abbrev pub last_six : List (DepartureSample Num) → List (DepartureSample Num)
  last_six ps = drop (length ps - 6) ps

  unfoldable pub trimmed : List (DepartureSample Num) → List (DepartureSample Num)
  trimmed [] = []
  trimmed (p ∷ ps) = if ltb 7 (length (p ∷ ps)) then p ∷ last_six (p ∷ ps) else p ∷ ps

  -- `departureSamples`, on the stored fixes of the same context; those of another one are none.
  unfoldable pub departure_samples :
      List (DepartureSample Num) → DepartureSample Num → Bool → List (DepartureSample Num)
  unfolding earlier_samples trimmed
  departure_samples old s reliable_moving =
      let kept = if reliable_moving then trimmed (earlier_samples s old) else [] in
      let due : Bool = elim kept [
        | [] ↦ true
        | p ∷ ps ↦ le (lit 2_000) (sub s.timestamp (last_sample p ps).timestamp)
      ] in
      if reliable_moving && due then kept ++ s ∷ [] else kept
