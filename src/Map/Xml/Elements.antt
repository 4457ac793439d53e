-- ===== src/Map/Xml/Elements.antt =====
-- The areas, polygons and lanelets that map/IntersectionMap.c reads from the XML text.
use green_right_topst_linux.Base.{
  ℕ, List, [], ◌∷◌, ◌++◌, Bool, true, false, ◌||◌, Option, none, some, ◌>>=◌, leb, if◌then◌else◌,
  length, Str, codes, str_eq, safe_copy,
}
use green_right_topst_linux.Doubles.{Doubles}
use green_right_topst_linux.Map.{MapPoint, MapLanelet, MapArea, MapPolygon, IntersectionMap}
use green_right_topst_linux.Map.Build.{find_point, map_max_id_len}
use green_right_topst_linux.Map.Xml.{
  get_attr_string, get_attr_int, tags, elements, attr, append_within, map_max_areas,
  map_max_conflict_zones, map_max_traffic_lights, map_max_lanelets, map_max_polygon_points,
}

abbrev pub is_yes : Option Str → Bool
is_yes none = false
is_yes (some text) =
    str_eq text (codes "true") || (str_eq text (codes "yes") || str_eq text (codes "1"))

abbrev pub or_zero : Option ℕ → ℕ
or_zero none = 0
or_zero (some n) = n

module _ {D : Doubles} where
  unfoldable pub add_refs : List (MapPoint D) → ℕ → List (MapPoint D) → List Str → List (MapPoint D)
  add_refs point_table max_out out_points [] = out_points
  add_refs point_table max_out out_points (p ∷ ps) = elim (leb max_out (length out_points)) [
    | true ↦ out_points
    | false ↦ elim (get_attr_string p (codes "id") map_max_id_len >>= find_point point_table) [
      | none ↦ add_refs point_table max_out out_points ps
      | some resolved ↦ add_refs point_table max_out (out_points ++ (resolved ∷ [])) ps
    ]
  ]

  unfoldable pub parse_area_point_refs : Str → Str → List (MapPoint D) → ℕ → List (MapPoint D)
  parse_area_point_refs block_start block_end point_table max_out =
      add_refs point_table max_out [] (tags (codes "<area_point_ref ") block_end block_start)

  unfoldable pub parse_point_refs : Str → Str → List (MapPoint D) → ℕ → List (MapPoint D)
  parse_point_refs block_start block_end point_table max_out =
      add_refs point_table max_out [] (tags (codes "<point_ref ") block_end block_start)

  -- The body of the loop over the areas.
  unfoldable pub add_area : List (MapPoint D) → IntersectionMap D → Str × Str → IntersectionMap D
  add_area point_table map (p, end) =
      let id = attr p (codes "id") in
      let type = attr p (codes "type") in
      let area : MapArea D = record {
        id = safe_copy map_max_id_len id;
        area_points = parse_point_refs p end point_table map_max_polygon_points;
      } in
      record map {
        areas = append_within map_max_areas map.areas area;
        intersection_center_id =
            if str_eq type (codes "intersection_center")
            then safe_copy map_max_id_len id
            else map.intersection_center_id;
        conflict_zones =
            if str_eq type (codes "conflict_zone")
            then append_within map_max_conflict_zones map.conflict_zones area
            else map.conflict_zones;
      }

  unfoldable pub add_areas :
      List (MapPoint D) → IntersectionMap D → List (Str × Str) → IntersectionMap D
  add_areas point_table map [] = map
  add_areas point_table map (e ∷ es) = add_areas point_table (add_area point_table map e) es

  unfoldable pub parse_areas : IntersectionMap D → Str → List (MapPoint D) → IntersectionMap D
  parse_areas map xml point_table =
      add_areas point_table map (elements (codes "<area ") (codes "</area>") xml)

  unfoldable pub add_polygon : List (MapPoint D) → IntersectionMap D → Str × Str → IntersectionMap D
  add_polygon point_table map (p, end) =
      let polygon : MapPolygon D = record {
        id = safe_copy map_max_id_len (attr p (codes "id"));
        points = parse_point_refs p end point_table map_max_polygon_points;
      } in
      if str_eq (attr p (codes "type")) (codes "traffic_light")
      then record map {
        traffic_lights = append_within map_max_traffic_lights map.traffic_lights polygon;
      }
      else map

  unfoldable pub add_polygons :
      List (MapPoint D) → IntersectionMap D → List (Str × Str) → IntersectionMap D
  add_polygons point_table map [] = map
  add_polygons point_table map (e ∷ es) =
      add_polygons point_table (add_polygon point_table map e) es

  unfoldable pub parse_polygons : IntersectionMap D → Str → List (MapPoint D) → IntersectionMap D
  parse_polygons map xml point_table =
      add_polygons point_table map (elements (codes "<polygon ") (codes "</polygon>") xml)

  unfoldable pub read_lanelet : List (MapPoint D) → Str × Str → MapLanelet D
  read_lanelet point_table (p, end) = record {
    id = attr p (codes "id");
    area_points = parse_area_point_refs p end point_table map_max_polygon_points;
    travel_heading_deg = or_zero (get_attr_int p (codes "travel_heading_deg"));
    maneuver = attr p (codes "maneuver");
    unprotected_left = is_yes (get_attr_string p (codes "unprotected_left") 16);
    traffic_light_id = attr p (codes "traffic_light_ref");
    conflict_zone_ids = [];
  }

  -- A full array ends the loop.
  unfoldable pub add_lanelets :
      List (MapPoint D) → List (MapLanelet D) → List (Str × Str) → List (MapLanelet D)
  add_lanelets point_table lanelets [] = lanelets
  add_lanelets point_table lanelets (e ∷ es) = elim (leb map_max_lanelets (length lanelets)) [
    | true ↦ lanelets
    | false ↦ add_lanelets point_table (lanelets ++ (read_lanelet point_table e ∷ [])) es
  ]

  unfoldable pub parse_lanelets : IntersectionMap D → Str → List (MapPoint D) → IntersectionMap D
  parse_lanelets map xml point_table = record map {
    lanelets =
        add_lanelets point_table map.lanelets
          (elements (codes "<lanelet ") (codes "</lanelet>") xml);
  }
