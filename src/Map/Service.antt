-- ===== src/Map/Service.antt =====
-- service/map_service.c: the map behind the queries of the threads. A `NULL` result is `none`.
use green_right_topst_linux.Base.{
  ℕ, List, [], ◌∷◌, Bool, true, false, ◌&&◌, Option, none, some, ltb, ◌==◌, if◌then◌else◌, length,
  Str, codes, str_eq, safe_copy,
}
use green_right_topst_linux.Types.{
  Direction, MapContext, blank_context, vehicle_info_id_len, invalid_id,
}
use green_right_topst_linux.Libc.{strtol}
use green_right_topst_linux.Doubles.{Doubles}
use green_right_topst_linux.Map.{
  MapPoint, MapLanelet, MapArea, IntersectionMap, MapQueryResult, intersection_map_get_lane_id,
  find_lanelet, find_area,
}
use green_right_topst_linux.Map.Movement.{intersection_map_get_conflict_zone_ids_for_movement}

pub record MapService (D : Doubles) : Type 0 where
  pub map : IntersectionMap D
  pub loaded : Bool

unfoldable pub parse_direction : Str → Bool → Direction
parse_direction maneuver unprotected_left =
    if str_eq maneuver (codes "straight_right")
    then Direction.right
    else if str_eq maneuver (codes "straight_left")
    then if unprotected_left then Direction.unprotected_left else Direction.left
    else Direction.straight

module _ {D : Doubles} where
  -- `find_lanelet`.
  unfoldable pub service_find_lanelet : MapService D → Str → Option (MapLanelet D)
  service_find_lanelet service lanelet_id =
      if service.loaded then find_lanelet service.map.lanelets lanelet_id else none

  unfoldable pub find_conflict_zone : MapService D → Str → Option (MapArea D)
  find_conflict_zone service conflict_zone_id =
      if service.loaded then find_area service.map.conflict_zones conflict_zone_id else none

  abbrev pub context_of_lanelet : Option (MapLanelet D) → Option MapContext
  context_of_lanelet none = none
  context_of_lanelet (some lanelet) = some (record blank_context {
    found = true;
    lanelet_id = safe_copy vehicle_info_id_len lanelet.id;
    unprotected_left = lanelet.unprotected_left;
    direction = parse_direction lanelet.maneuver lanelet.unprotected_left;
    traffic_light_id = safe_copy vehicle_info_id_len lanelet.traffic_light_id;
  })

  abbrev pub context_of_result : MapService D → MapQueryResult → MapContext
  context_of_result service MapQueryResult.map_query_not_found = blank_context
  context_of_result service MapQueryResult.map_query_intersection_center = record blank_context {
    in_intersection_center = true;
  }
  context_of_result service (MapQueryResult.map_query_lane lane_id) =
      elim (context_of_lanelet (service_find_lanelet service lane_id)) [
        | none ↦ blank_context
        | some context ↦ context
      ]

  -- What is written to `out`: nothing if no map is loaded.
  unfoldable pub map_service_query_vehicle_context : MapService D → ℕ → ℕ → Option MapContext
  map_service_query_vehicle_context service x y =
      if service.loaded
      then some (
          context_of_result service
            (intersection_map_get_lane_id service.map (D.decimal x 0) (D.decimal y 0)))
      else none

  unfoldable pub map_service_lane_allows_right : MapService D → Str → Bool
  map_service_lane_allows_right service lanelet_id =
      elim (service_find_lanelet service lanelet_id) [
        | none ↦ false
        | some lanelet ↦ str_eq lanelet.maneuver (codes "straight_right")
      ]

  unfoldable pub map_service_lane_allows_unprotected_left : MapService D → Str → Bool
  map_service_lane_allows_unprotected_left service lanelet_id =
      elim (service_find_lanelet service lanelet_id) [
        | none ↦ false
        | some lanelet ↦ str_eq lanelet.maneuver (codes "straight_left") && lanelet.unprotected_left
      ]

  unfoldable pub map_service_get_conflict_zone_ids_for_movement :
      MapService D → Str → Str → ℕ → List Str
  map_service_get_conflict_zone_ids_for_movement service lanelet_id movement max_out =
      if service.loaded
      then intersection_map_get_conflict_zone_ids_for_movement service.map lanelet_id movement
          max_out
      else []

  unfoldable pub sum_points : List (MapPoint D) → D.Double → D.Double → D.Double × D.Double
  sum_points [] sum_x sum_y = (sum_x, sum_y)
  sum_points (p ∷ ps) sum_x sum_y = sum_points ps (D.add sum_x p.x) (D.add sum_y p.y)

  abbrev pub center_of_area : Option (MapArea D) → Option (D.Double × D.Double)
  center_of_area none = none
  center_of_area (some zone) =
      let n = length zone.area_points in
      let (sum_x, sum_y) = sum_points zone.area_points (D.decimal 0 0) (D.decimal 0 0) in
      if n == 0 then none else some (D.div sum_x (D.decimal n 0), D.div sum_y (D.decimal n 0))

  unfoldable pub map_service_get_conflict_zone_center :
      MapService D → Str → Option (D.Double × D.Double)
  map_service_get_conflict_zone_center service conflict_zone_id =
      center_of_area (find_conflict_zone service conflict_zone_id)

-- `value` if it is between 0 and 255.
abbrev pub byte_or_invalid : Bool × ℕ → ℕ
byte_or_invalid (true, n) = if n == 0 then 0 else invalid_id
byte_or_invalid (false, n) = if ltb 255 n then invalid_id else n

unfoldable pub map_service_parse_lane_num : Str → ℕ
map_service_parse_lane_num [] = invalid_id
map_service_parse_lane_num (c ∷ s) = if c == 76 then byte_or_invalid (strtol s) else invalid_id

unfoldable pub map_service_parse_traffic_light_num : Str → ℕ
map_service_parse_traffic_light_num [] = invalid_id
map_service_parse_traffic_light_num (a ∷ []) = invalid_id
map_service_parse_traffic_light_num (a ∷ b ∷ s) =
    if a == 84 && b == 76 then byte_or_invalid (strtol s) else invalid_id
