-- ===== src/Map/Xml/Rules.antt =====
-- The regulatory elements of map/IntersectionMap.c, and the whole reader.
use green_right_topst_linux.Base.{
  List, [], ◌∷◌, Bool, true, false, Option, none, some, ltb, if◌then◌else◌, length, Str, codes,
  str_eq,
}
use green_right_topst_linux.Doubles.{Doubles}
use green_right_topst_linux.Libc.{strstr}
use green_right_topst_linux.Map.{MapLanelet, MapConflictRelation, IntersectionMap}
use green_right_topst_linux.Map.Build.{
  map_max_id_len, lanelet_add_conflict_zone, lanelet_set_traffic_light, map_add_conflict_relation,
  conflict_relation_add_participant,
}
use green_right_topst_linux.Map.Xml.{
  get_attr_string, get_attr_double, tags, elements, attr, parse_points, map_max_points,
}
use green_right_topst_linux.Map.Xml.Elements.{parse_areas, parse_polygons, parse_lanelets}

-- The id of the first reference that starts with `pattern`, if it is before `end`.
abbrev pub ref_id : Option Str → Str → Str
ref_id none end = []
ref_id (some ref) end = if ltb (length end) (length ref) then attr ref (codes "id") else []

-- A change of the relation behind the pointer `relation`, which is the map's last one, if it is not NULL.
unfoldable pub change_last :
    (MapConflictRelation → MapConflictRelation)
    → List MapConflictRelation
    → List MapConflictRelation
change_last change [] = []
change_last change (r ∷ []) = change r ∷ []
change_last change (r ∷ s ∷ rest) = r ∷ change_last change (s ∷ rest)

-- The attribute of the map's tag, or the 0 that is there.
abbrev pub map_size : (D : Doubles) → (Str → D.Double) → Option Str → Str → D.Double
map_size D atof none attr_name = D.decimal 0 0
map_size D atof (some map_tag) attr_name = elim (get_attr_double atof map_tag attr_name) [
  | none ↦ D.decimal 0 0
  | some size ↦ size
]

module _ {D : Doubles} where
  -- `find_lanelet_mut` and a change of the lanelet it finds.
  unfoldable pub update_lanelet :
      List (MapLanelet D) → Str → (MapLanelet D → MapLanelet D) → List (MapLanelet D)
  update_lanelet [] lane_id change = []
  update_lanelet (lane ∷ lanes) lane_id change =
      if str_eq lane.id lane_id
      then change lane ∷ lanes
      else lane ∷ update_lanelet lanes lane_id change

  -- The loops over "<applies_to ", which change the lanelet that each names.
  unfoldable pub apply_to_lanelets :
      (MapLanelet D → MapLanelet D) → IntersectionMap D → List Str → IntersectionMap D
  apply_to_lanelets change map [] = map
  apply_to_lanelets change map (scan ∷ scans) =
      elim (get_attr_string scan (codes "lanelet_id") map_max_id_len) [
        | none ↦ apply_to_lanelets change map scans
        | some lane_id ↦
            apply_to_lanelets change
              (record map { lanelets = update_lanelet map.lanelets lane_id change }) scans
      ]

  -- The branch of a traffic light.
  unfoldable pub traffic_light_rule : IntersectionMap D → Str → Str → IntersectionMap D
  traffic_light_rule map p end =
      let tl_id = ref_id (strstr p (codes "<traffic_light_ref ")) end in
      apply_to_lanelets (λ (lane : MapLanelet D). lanelet_set_traffic_light lane tl_id) map
        (tags (codes "<applies_to ") end p)

  -- `if (!relation) relation = map_add_conflict_relation(...)`: whether there is a relation after it.
  unfoldable pub with_relation : IntersectionMap D → Bool → Str → Str → IntersectionMap D × Bool
  with_relation map true relation_id cz_id = (map, true)
  with_relation map false relation_id cz_id =
      let map' = map_add_conflict_relation map relation_id cz_id in
      (map', ltb (length map.conflict_relations) (length map'.conflict_relations))

  -- A participant with a lanelet; the map, and whether there is a relation.
  unfoldable pub add_participant :
      IntersectionMap D → Bool → Str → Str → Str → Str → IntersectionMap D × Bool
  add_participant map has_relation relation_id cz_id lane_id movement =
      let (map', has') = with_relation map has_relation relation_id cz_id in
      (
        record map' {
          conflict_relations =
              if has'
              then change_last
                  (λ (r : MapConflictRelation).
                    conflict_relation_add_participant r lane_id movement)
                  map'.conflict_relations
              else map'.conflict_relations;
          lanelets =
              update_lanelet map'.lanelets lane_id
                (λ (lane : MapLanelet D). lanelet_add_conflict_zone lane cz_id);
        },
        has',
      )

  -- The loop over "<participant ": the map, and `has_participant`.
  unfoldable pub add_participants :
      IntersectionMap D → Bool → Bool → Str → Str → List Str → IntersectionMap D × Bool
  add_participants map has_relation has_participant relation_id cz_id [] = (map, has_participant)
  add_participants map has_relation has_participant relation_id cz_id (scan ∷ scans) =
      elim (get_attr_string scan (codes "lanelet_id") map_max_id_len) [
        | none ↦ add_participants map has_relation has_participant relation_id cz_id scans
        | some lane_id ↦
            (let (map', has') =
                add_participant map has_relation relation_id cz_id lane_id
                  (attr scan (codes "movement")) in
              add_participants map' has' true relation_id cz_id scans)
      ]

  -- The branch of a conflict zone.
  unfoldable pub conflict_zone_rule : IntersectionMap D → Str → Str → IntersectionMap D
  conflict_zone_rule map p end =
      let relation_id = attr p (codes "id") in
      let cz_id = ref_id (strstr p (codes "<conflict_zone_ref ")) end in
      let (map', has_participant) =
        add_participants map false false relation_id cz_id (tags (codes "<participant ") end p) in
      if has_participant
      then map'
      else apply_to_lanelets (λ (lane : MapLanelet D). lanelet_add_conflict_zone lane cz_id) map'
          (tags (codes "<applies_to ") end p)

  unfoldable pub add_rules : IntersectionMap D → List (Str × Str) → IntersectionMap D
  add_rules map [] = map
  add_rules map ((p, end) ∷ es) =
      let type = attr p (codes "type") in
      add_rules
        (if str_eq type (codes "traffic_light")
          then traffic_light_rule map p end
          else if str_eq type (codes "conflict_zone")
          then conflict_zone_rule map p end
          else map)
        es

  unfoldable pub parse_regulatory_elements : IntersectionMap D → Str → IntersectionMap D
  parse_regulatory_elements map xml =
      add_rules map (elements (codes "<regulatory_element ") (codes "</regulatory_element>") xml)

  -- `memset(map, 0, sizeof(*map))`
  abbrev pub blank_map : IntersectionMap D
  blank_map = record {
    width = D.decimal 0 0;
    height = D.decimal 0 0;
    lanelets = [];
    areas = [];
    traffic_lights = [];
    conflict_zones = [];
    conflict_relations = [];
    intersection_center_id = [];
  }

  -- The map and the result, of what reading the file gives.
  unfoldable pub intersection_map_load_xml :
      (Str → D.Double) → Option Str → IntersectionMap D × Bool
  intersection_map_load_xml atof none = (blank_map, false)
  intersection_map_load_xml atof (some xml) =
      let map_tag = strstr xml (codes "<map ") in
      let map0 : IntersectionMap D = record blank_map {
        width = map_size D atof map_tag (codes "width");
        height = map_size D atof map_tag (codes "height");
      } in
      let point_table = parse_points atof xml map_max_points in
      let map1 = parse_areas map0 xml point_table in
      let map2 = parse_polygons map1 xml point_table in
      let map3 = parse_lanelets map2 xml point_table in (parse_regulatory_elements map3 xml, true)
