-- ===== src/Map/Xml/Load.antt =====
-- The arrays of a map that is read stay within their bounds, whatever the XML text.
use green_right_topst_linux.Base.{
  ◌≤◌, ◌≡◌, refl, sym, subst, List, [], ◌∷◌, Bool, true, false, Option, none, some, if◌then◌else◌,
  length, Str, codes, str_eq, arith, Option-cases, inl, inr,
}
use green_right_topst_linux.Doubles.{Doubles}
use green_right_topst_linux.Libc.{strstr}
use green_right_topst_linux.Map.{MapPoint, MapLanelet, IntersectionMap}
use green_right_topst_linux.Map.Xml.{
  get_attr_string, tags, elements, attr, parse_points, map_max_points,
}
use green_right_topst_linux.Map.Xml.Elements.{parse_areas, parse_polygons, parse_lanelets}
use green_right_topst_linux.Map.Xml.Rules.{
  traffic_light_rule, add_participant, add_participants, conflict_zone_rule, add_rules,
  parse_regulatory_elements, blank_map, intersection_map_load_xml, ref_id,
}
use green_right_topst_linux.Map.Xml.Capacity.{
  LaneletFits, IsWithin, points_fit, add_areas-IsWithin, if-IsWithin, add_polygons-IsWithin,
  lanelets_within,
}
use green_right_topst_linux.Map.Xml.Bounds.{
  zone_fits, light_fits, apply-IsWithin, participant-IsWithin,
}

module _ {D : Doubles} where
  participants-IsWithin :
      (map : IntersectionMap D) (has_relation has_participant : Bool) (relation_id cz_id : Str)
      (scans : List Str)
      → IsWithin map
      → IsWithin (add_participants map has_relation has_participant relation_id cz_id scans).0
  unfolding add_participants
  participants-IsWithin map a b relation_id cz_id [] w = w
  participants-IsWithin map a b relation_id cz_id (scan ∷ scans) w =
      elim (Option-cases (get_attr_string scan (codes "lanelet_id") 32)) [
        | inl e ↦
            let skipped : add_participants map a b relation_id cz_id (scan ∷ scans)
                ≡ add_participants map a b relation_id cz_id scans =
              cc in
            subst (λ (r : IntersectionMap D × Bool). IsWithin r.0) (sym skipped)
              (participants-IsWithin map a b relation_id cz_id scans w)
        | inr (lane_id, e) ↦
            let added =
              add_participant map a relation_id cz_id lane_id (attr scan (codes "movement")) in
            let changed : add_participants map a b relation_id cz_id (scan ∷ scans)
                ≡ add_participants added.0 added.1 true relation_id cz_id scans =
              cc in
            subst (λ (r : IntersectionMap D × Bool). IsWithin r.0) (sym changed)
              (participants-IsWithin added.0 added.1 true relation_id cz_id scans (
                participant-IsWithin map a relation_id cz_id lane_id (attr scan (codes "movement"))
                  w))
      ]

  light_rule-IsWithin :
      (map : IntersectionMap D) (p end : Str)
      → IsWithin map
      → IsWithin (traffic_light_rule map p end)
  unfolding traffic_light_rule
  light_rule-IsWithin map p end w =
      let tl_id = ref_id (strstr p (codes "<traffic_light_ref ")) end in
      apply-IsWithin _ map _
        (λ (lane : MapLanelet D) (h : LaneletFits lane). light_fits lane tl_id h) w

  zone_rule-IsWithin :
      (map : IntersectionMap D) (p end : Str)
      → IsWithin map
      → IsWithin (conflict_zone_rule map p end)
  unfolding conflict_zone_rule
  zone_rule-IsWithin map p end w =
      let cz_id = ref_id (strstr p (codes "<conflict_zone_ref ")) end in
      let added =
        participants-IsWithin map false false (attr p (codes "id")) cz_id
          (tags (codes "<participant ") end p) w in
      if-IsWithin _ _ _ added (
        apply-IsWithin _ _ _
          (λ (lane : MapLanelet D) (h : LaneletFits lane). zone_fits lane cz_id h) added)

  rule-IsWithin :
      (map : IntersectionMap D) (p end : Str)
      → IsWithin map
      → IsWithin (
          if str_eq (attr p (codes "type")) (codes "traffic_light")
          then traffic_light_rule map p end
          else if str_eq (attr p (codes "type")) (codes "conflict_zone")
          then conflict_zone_rule map p end
          else map)
  rule-IsWithin map p end w =
      if-IsWithin _ _ _ (light_rule-IsWithin map p end w)
        (if-IsWithin _ _ _ (zone_rule-IsWithin map p end w) w)

  rules-IsWithin :
      (es : List (Str × Str)) (map : IntersectionMap D) → IsWithin map → IsWithin (add_rules map es)
  unfolding add_rules
  rules-IsWithin [] map w = w
  rules-IsWithin ((p, end) ∷ es) map w = rules-IsWithin es _ (rule-IsWithin map p end w)

  parse_lanelets-IsWithin :
      (map : IntersectionMap D) (xml : Str) (table : List (MapPoint D))
      → IsWithin map
      → IsWithin (parse_lanelets map xml table)
  unfolding parse_lanelets
  parse_lanelets-IsWithin map xml table w =
      let (count, fit) =
        lanelets_within table map.lanelets (elements (codes "<lanelet ") (codes "</lanelet>") xml)
          w.lanelet_count w.lanelets_fit in
      record {
        lanelet_count = count;
        area_count = w.area_count;
        traffic_light_count = w.traffic_light_count;
        conflict_zone_count = w.conflict_zone_count;
        conflict_relation_count = w.conflict_relation_count;
        lanelets_fit = fit;
        areas_fit = w.areas_fit;
        polygons_fit = w.polygons_fit;
        zones_fit = w.zones_fit;
        relations_fit = w.relations_fit;
      }

  blank-IsWithin :
      (w h : D.Double) → IsWithin (record (blank_map {D = D}) { width = w; height = h })
  blank-IsWithin w h = record {
    lanelet_count = omega arith;
    area_count = omega arith;
    traffic_light_count = omega arith;
    conflict_zone_count = omega arith;
    conflict_relation_count = omega arith;
    lanelets_fit = tt;
    areas_fit = tt;
    polygons_fit = tt;
    zones_fit = tt;
    relations_fit = tt;
  }

  -- Whatever the XML text, and whatever `atof` makes of numbers: the point table has at most 256 entries,
  -- and the map that is read has at most 32 lanelets, 32 areas, 16 traffic lights, 16 conflict zones and 32
  -- relations, with at most 8 points each, 8 conflict zones per lanelet and 4 participants per relation.
  -- The reader fails exactly if the file cannot be read.
  pub intersection_map_load_xml-IsWithin :
      (atof : Str → D.Double) (file : Option Str) (text : Str)
      → IsWithin (intersection_map_load_xml {D = D} atof file).0
        × (length (parse_points {D = D} atof text map_max_points) ≤ 256)
        × ((intersection_map_load_xml {D = D} atof (some text)).1 ≡ true)
        × ((intersection_map_load_xml {D = D} atof none).1 ≡ false)
  unfolding intersection_map_load_xml parse_areas parse_polygons parse_lanelets parse_points
      parse_regulatory_elements
  intersection_map_load_xml-IsWithin atof file text = (
    loaded file,
    points_fit atof [] 256 (tags (codes "<point ") [] text) (omega arith),
    refl,
    refl,
  )
    where
      loaded : (f : Option Str) → IsWithin (intersection_map_load_xml {D = D} atof f).0
      loaded none = blank-IsWithin (D.decimal 0 0) (D.decimal 0 0)
      loaded (some xml) = rules-IsWithin _ _ (
          parse_lanelets-IsWithin _ xml table
            (add_polygons-IsWithin table _ _ (add_areas-IsWithin table _ _ (blank-IsWithin _ _))))
        where
          table : List (MapPoint D)
          table = parse_points atof xml map_max_points
