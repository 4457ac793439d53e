-- ===== src/Map.antt =====
-- map/IntersectionMap.h and the queries of map/IntersectionMap.c. An array with its count is the list
-- of the entries in use. The geometry computes with doubles, through the interface `Doubles`.
pub mod Build
pub mod Movement
pub mod Zones
pub mod Service
pub mod File
pub mod Xml
use green_right_topst_linux.Base.{
  ℕ, zero, suc, ◌≡◌, List, [], ◌∷◌, ◌++◌, Bool, true, false, not, ◌&&◌, ◌||◌, Option, none, some,
  ltb, leb, ◌==◌, if◌then◌else◌, length, take, Str, str_eq, is_empty,
}
use green_right_topst_linux.Doubles.{Doubles}

pub record MapPoint (D : Doubles) : Type 0 where
  pub id : Str
  pub x : D.Double
  pub y : D.Double

-- `travel_heading_deg` is the 32 bits of an `int`.
pub record MapLanelet (D : Doubles) : Type 0 where
  pub id : Str
  pub area_points : List (MapPoint D)
  pub travel_heading_deg : ℕ
  pub maneuver : Str
  pub unprotected_left : Bool
  pub traffic_light_id : Str
  pub conflict_zone_ids : List Str

pub record MapArea (D : Doubles) : Type 0 where
  pub id : Str
  pub area_points : List (MapPoint D)

pub record MapConflictParticipant : Type 0 where
  pub lanelet_id : Str
  pub movement : Str

pub record MapConflictRelation : Type 0 where
  pub id : Str
  pub conflict_zone_id : Str
  pub participants : List MapConflictParticipant

pub record MapPolygon (D : Doubles) : Type 0 where
  pub id : Str
  pub points : List (MapPoint D)

-- Without `id`, which nothing reads or writes.
pub record IntersectionMap (D : Doubles) : Type 0 where
  pub width : D.Double
  pub height : D.Double
  pub lanelets : List (MapLanelet D)
  pub areas : List (MapArea D)
  pub traffic_lights : List (MapPolygon D)
  pub conflict_zones : List (MapArea D)
  pub conflict_relations : List MapConflictRelation
  pub intersection_center_id : Str

-- `MAP_QUERY_LANE` carries the id written to `lane_id_out`.
pub data MapQueryResult : Type 0 where
  map_query_not_found : MapQueryResult
  map_query_lane : Str → MapQueryResult
  map_query_intersection_center : MapQueryResult

unfoldable pub dabs_local : (D : Doubles) → D.Double → D.Double
dabs_local D v = if D.less v (D.decimal 0 0) then D.neg v else v

module _ {D : Doubles} where
  unfoldable pub point_on_segment : D.Double → D.Double → MapPoint D → MapPoint D → Bool
  point_on_segment px py a b =
      let eps = D.decimal 1 9 in
      let cross =
        D.sub (D.mul (D.sub px a.x) (D.sub b.y a.y)) (D.mul (D.sub py a.y) (D.sub b.x a.x)) in
      let dot =
        D.add (D.mul (D.sub px a.x) (D.sub b.x a.x)) (D.mul (D.sub py a.y) (D.sub b.y a.y)) in
      let len_sq =
        D.add (D.mul (D.sub b.x a.x) (D.sub b.x a.x)) (D.mul (D.sub b.y a.y) (D.sub b.y a.y)) in
      if D.less eps (dabs_local D cross)
      then false
      else if D.less dot (D.neg eps)
      then false
      else if D.less eps (D.sub dot len_sq)
      then false
      else true

  -- The edges from the first of the points on, the last one back to `first`.
  unfoldable pub on_boundary : D.Double → D.Double → MapPoint D → List (MapPoint D) → Bool
  on_boundary x y first [] = false
  on_boundary x y first (a ∷ []) = point_on_segment x y a first
  on_boundary x y first (a ∷ b ∷ rest) =
      point_on_segment x y a b || on_boundary x y first (b ∷ rest)

  -- Whether the ray from (x, y) crosses the edge between `j` and `i`.
  unfoldable pub ray_crosses : D.Double → D.Double → MapPoint D → MapPoint D → Bool
  ray_crosses x y j i =
      (if D.less y i.y then not (D.less y j.y) else D.less y j.y)
      && D.less x (
          D.add
            (D.div (D.mul (D.sub j.x i.x) (D.sub y i.y)) (D.add (D.sub j.y i.y) (D.decimal 1 12)))
            i.x)

  unfoldable pub cast_ray : D.Double → D.Double → MapPoint D → Bool → List (MapPoint D) → Bool
  cast_ray x y j inside [] = inside
  cast_ray x y j inside (i ∷ rest) =
      cast_ray x y i (if ray_crosses x y j i then not inside else inside) rest

  unfoldable pub last_point : MapPoint D → List (MapPoint D) → MapPoint D
  last_point p [] = p
  last_point p (q ∷ rest) = last_point q rest

  unfoldable pub point_in_polygon : D.Double → D.Double → List (MapPoint D) → Bool
  point_in_polygon x y [] = false
  point_in_polygon x y (p ∷ rest) =
      if ltb (length (p ∷ rest)) 3
      then false
      else if on_boundary x y p (p ∷ rest)
      then true
      else cast_ray x y (last_point p rest) false (p ∷ rest)

  unfoldable pub find_lanelet : List (MapLanelet D) → Str → Option (MapLanelet D)
  find_lanelet [] lane_id = none
  find_lanelet (lane ∷ rest) lane_id =
      if str_eq lane.id lane_id then some lane else find_lanelet rest lane_id

  unfoldable pub find_area : List (MapArea D) → Str → Option (MapArea D)
  find_area [] id = none
  find_area (area ∷ rest) id = if str_eq area.id id then some area else find_area rest id

  abbrev pub area_contains : D.Double → D.Double → Option (MapArea D) → Bool
  area_contains x y none = false
  area_contains x y (some area) = point_in_polygon x y area.area_points

  unfoldable pub intersection_map_is_in_intersection_center :
      IntersectionMap D → D.Double → D.Double → Bool
  intersection_map_is_in_intersection_center map x y =
      if is_empty map.intersection_center_id
      then false
      else area_contains x y (find_area map.areas map.intersection_center_id)

  -- The loop over the lanelets.
  unfoldable pub lane_loop : D.Double → D.Double → List (MapLanelet D) → MapQueryResult
  lane_loop x y [] = MapQueryResult.map_query_not_found
  lane_loop x y (lane ∷ rest) =
      if point_in_polygon x y lane.area_points
      then MapQueryResult.map_query_lane lane.id
      else lane_loop x y rest

  unfoldable pub intersection_map_get_lane_id :
      IntersectionMap D → D.Double → D.Double → MapQueryResult
  intersection_map_get_lane_id map x y =
      if intersection_map_is_in_intersection_center map x y
      then MapQueryResult.map_query_intersection_center
      else lane_loop x y map.lanelets

  unfoldable pub intersection_map_get_conflict_zone_ids : IntersectionMap D → Str → ℕ → List Str
  intersection_map_get_conflict_zone_ids map lane_id max_out =
      elim (find_lanelet map.lanelets lane_id) [
        | none ↦ []
        | some lane ↦ take max_out lane.conflict_zone_ids
      ]

  unfoldable pub intersection_map_get_traffic_light_id : IntersectionMap D → Str → Option Str
  intersection_map_get_traffic_light_id map lane_id = elim (find_lanelet map.lanelets lane_id) [
    | none ↦ none
    | some lane ↦ if is_empty lane.traffic_light_id then none else some lane.traffic_light_id
  ]
