-- ===== src/Map/Xml/Capacity.antt =====
-- The areas, polygons and lanelets that are read stay within the bounds of their arrays.
use green_right_topst_linux.Base.{
  ℕ, ◌≤◌, ◌≡◌, sym, ap, subst, List, [], ◌∷◌, ◌++◌, Bool, true, false, ◌>>=◌, ltb, leb,
  if◌then◌else◌, length, length-append, Str, codes, str_eq, safe_copy, arith, Bool-cases,
  Option-cases, inl, inr, All, All-append,
}
use green_right_topst_linux.Doubles.{Doubles}
use green_right_topst_linux.Map.{
  MapPoint, MapLanelet, MapArea, MapPolygon, MapConflictRelation, IntersectionMap,
}
use green_right_topst_linux.Map.Build.{find_point, map_max_id_len}
use green_right_topst_linux.Map.Xml.{
  get_attr_string, tags, attr, append_within, add_points, point_entry,
}
use green_right_topst_linux.Map.Xml.Elements.{
  add_refs, parse_point_refs, parse_area_point_refs, add_area, add_areas, add_polygon, add_polygons,
  read_lanelet, add_lanelets,
}

abbrev pub LaneletFits : {D : Doubles} → MapLanelet D → Type 0
LaneletFits lane = (length lane.area_points ≤ 8) × (length lane.conflict_zone_ids ≤ 8)

abbrev pub AreaFits : {D : Doubles} → MapArea D → Type 0
AreaFits area = length area.area_points ≤ 8

abbrev pub PolygonFits : {D : Doubles} → MapPolygon D → Type 0
PolygonFits polygon = length polygon.points ≤ 8

abbrev pub RelationFits : MapConflictRelation → Type 0
RelationFits relation = length relation.participants ≤ 4

-- The bounds of the arrays in map/IntersectionMap.h.
pub record IsWithin {D : Doubles} (map : IntersectionMap D) : Type 0 where
  pub lanelet_count : length map.lanelets ≤ 32
  pub area_count : length map.areas ≤ 32
  pub traffic_light_count : length map.traffic_lights ≤ 16
  pub conflict_zone_count : length map.conflict_zones ≤ 16
  pub conflict_relation_count : length map.conflict_relations ≤ 32
  pub lanelets_fit : All LaneletFits map.lanelets
  pub areas_fit : All AreaFits map.areas
  pub polygons_fit : All PolygonFits map.traffic_lights
  pub zones_fit : All AreaFits map.conflict_zones
  pub relations_fit : All RelationFits map.conflict_relations

append_within_fits :
    {A : Type 0} (max : ℕ) (P : A → Type 0) (xs : List A) (x : A)
    → length xs ≤ max
    → All P xs
    → P x
    → (length (append_within max xs x) ≤ max) × All P (append_within max xs x)
append_within_fits max P xs x h a p = elim (Bool-cases (ltb (length xs) max)) [
  | inl e ↦ simp e (ground (arith, length-append xs (x ∷ [])), All-append P xs (x ∷ []) a (p, tt))
  | inr e ↦ simp e (h, a)
]

module _ {D : Doubles} where
  pub refs_fit :
      (point_table out_points : List (MapPoint D)) (max : ℕ) (ps : List Str)
      → length out_points ≤ max
      → length (add_refs point_table max out_points ps) ≤ max
  unfolding add_refs
  refs_fit point_table out_points max [] h = h
  refs_fit point_table out_points max (p ∷ ps) h = elim (Bool-cases (leb max (length out_points))) [
    | inl e ↦
        let same : add_refs point_table max out_points (p ∷ ps) ≡ out_points = cc in
        omega (arith, ap length same)
    | inr e ↦
        elim (Option-cases
          (get_attr_string p (codes "id") map_max_id_len >>= find_point point_table)) [
            | inl m ↦
                let skipped : add_refs point_table max out_points (p ∷ ps)
                    ≡ add_refs point_table max out_points ps =
                  cc in
                omega (arith, ap length skipped, refs_fit point_table out_points max ps h)
            | inr (resolved, m) ↦
                let longer = out_points ++ resolved ∷ [] in
                let added : add_refs point_table max out_points (p ∷ ps)
                    ≡ add_refs point_table max longer ps =
                  cc in
                omega (
                  arith,
                  ap length added,
                  refs_fit point_table longer max ps
                      (ground (arith, length-append out_points (resolved ∷ []))),
                )
          ]
  ]

  pub points_fit :
      (atof : Str → D.Double) (points : List (MapPoint D)) (max : ℕ) (ps : List Str)
      → length points ≤ max
      → length (add_points atof max points ps) ≤ max
  unfolding add_points
  points_fit atof points max [] h = h
  points_fit atof points max (p ∷ ps) h = elim (Bool-cases (leb max (length points))) [
    | inl e ↦
        let same : add_points atof max points (p ∷ ps) ≡ points = cc in
        omega (arith, ap length same)
    | inr e ↦ elim (Option-cases (point_entry {D = D} atof p)) [
      | inl m ↦
          let skipped : add_points atof max points (p ∷ ps) ≡ add_points atof max points ps = cc in
          omega (arith, ap length skipped, points_fit atof points max ps h)
      | inr (entry, m) ↦
          let longer = points ++ entry ∷ [] in
          let added : add_points atof max points (p ∷ ps) ≡ add_points atof max longer ps = cc in
          omega (
            arith,
            ap length added,
            points_fit atof longer max ps (ground (arith, length-append points (entry ∷ []))),
          )
    ]
  ]

  add_area-IsWithin :
      (point_table : List (MapPoint D)) (map : IntersectionMap D) (e : Str × Str)
      → IsWithin map
      → IsWithin (add_area point_table map e)
  unfolding add_area parse_point_refs
  add_area-IsWithin point_table map (p, end) w =
      let area : MapArea D = record {
        id = safe_copy map_max_id_len (attr p (codes "id"));
        area_points = parse_point_refs p end point_table 8;
      } in
      let fits : AreaFits area =
        refs_fit point_table [] 8 (tags (codes "<point_ref ") end p) (omega arith) in
      let appended = append_within_fits 32 AreaFits map.areas area w.area_count w.areas_fit fits in
      let zones =
        append_within_fits 16 AreaFits map.conflict_zones area w.conflict_zone_count w.zones_fit
          fits in
      let chosen =
        choose (str_eq (attr p (codes "type")) (codes "conflict_zone")) _ _ zones
          (w.conflict_zone_count, w.zones_fit) in
      record {
        lanelet_count = w.lanelet_count;
        area_count = appended.0;
        traffic_light_count = w.traffic_light_count;
        conflict_zone_count = chosen.0;
        conflict_relation_count = w.conflict_relation_count;
        lanelets_fit = w.lanelets_fit;
        areas_fit = appended.1;
        polygons_fit = w.polygons_fit;
        zones_fit = chosen.1;
        relations_fit = w.relations_fit;
      }
    where
      choose :
          (b : Bool) (xs ys : List (MapArea D))
          → (length xs ≤ 16) × All AreaFits xs
          → (length ys ≤ 16) × All AreaFits ys
          → (length (if b then xs else ys) ≤ 16) × All AreaFits (if b then xs else ys)
      choose true xs ys h k = h
      choose false xs ys h k = k

  pub add_areas-IsWithin :
      (point_table : List (MapPoint D)) (map : IntersectionMap D) (es : List (Str × Str))
      → IsWithin map
      → IsWithin (add_areas point_table map es)
  unfolding add_areas
  add_areas-IsWithin point_table map [] w = w
  add_areas-IsWithin point_table map (e ∷ es) w =
      add_areas-IsWithin point_table (add_area point_table map e) es
        (add_area-IsWithin point_table map e w)

  pub if-IsWithin :
      (b : Bool) (x y : IntersectionMap D) → IsWithin x → IsWithin y → IsWithin (if b then x else y)
  if-IsWithin true x y h k = h
  if-IsWithin false x y h k = k

  add_polygon-IsWithin :
      (point_table : List (MapPoint D)) (map : IntersectionMap D) (e : Str × Str)
      → IsWithin map
      → IsWithin (add_polygon point_table map e)
  unfolding add_polygon parse_point_refs
  add_polygon-IsWithin point_table map (p, end) w =
      let polygon : MapPolygon D = record {
        id = safe_copy map_max_id_len (attr p (codes "id"));
        points = parse_point_refs p end point_table 8;
      } in
      let fits : PolygonFits polygon =
        refs_fit point_table [] 8 (tags (codes "<point_ref ") end p) (omega arith) in
      let appended =
        append_within_fits 16 PolygonFits map.traffic_lights polygon w.traffic_light_count
          w.polygons_fit fits in
      if-IsWithin (str_eq (attr p (codes "type")) (codes "traffic_light")) _ _
        (record {
          lanelet_count = w.lanelet_count;
          area_count = w.area_count;
          traffic_light_count = appended.0;
          conflict_zone_count = w.conflict_zone_count;
          conflict_relation_count = w.conflict_relation_count;
          lanelets_fit = w.lanelets_fit;
          areas_fit = w.areas_fit;
          polygons_fit = appended.1;
          zones_fit = w.zones_fit;
          relations_fit = w.relations_fit;
        })
        w

  pub add_polygons-IsWithin :
      (point_table : List (MapPoint D)) (map : IntersectionMap D) (es : List (Str × Str))
      → IsWithin map
      → IsWithin (add_polygons point_table map es)
  unfolding add_polygons
  add_polygons-IsWithin point_table map [] w = w
  add_polygons-IsWithin point_table map (e ∷ es) w =
      add_polygons-IsWithin point_table (add_polygon point_table map e) es
        (add_polygon-IsWithin point_table map e w)

  -- So many lanelets fit.
  abbrev Lanes : List (MapLanelet D) → Type 0
  Lanes xs = (length xs ≤ 32) × All LaneletFits xs

  pub lanelets_within :
      (point_table : List (MapPoint D)) (lanelets : List (MapLanelet D)) (es : List (Str × Str))
      → length lanelets ≤ 32
      → All LaneletFits lanelets
      → (length (add_lanelets point_table lanelets es) ≤ 32)
        × All LaneletFits (add_lanelets point_table lanelets es)
  unfolding add_lanelets read_lanelet parse_area_point_refs
  lanelets_within point_table lanelets [] h a = (h, a)
  lanelets_within point_table lanelets ((p, end) ∷ es) h a =
      elim (Bool-cases (leb 32 (length lanelets))) [
        | inl e ↦
            let same : add_lanelets point_table lanelets ((p, end) ∷ es) ≡ lanelets = cc in
            subst Lanes (sym same) (h, a)
        | inr e ↦
            let lane = read_lanelet point_table (p, end) in
            let more = lanelets ++ lane ∷ [] in
            let added : add_lanelets point_table lanelets ((p, end) ∷ es)
                ≡ add_lanelets point_table more es =
              cc in
            let fits : LaneletFits lane = (
              refs_fit point_table [] 8 (tags (codes "<area_point_ref ") end p) (omega arith),
              omega arith,
            ) in
            subst Lanes (sym added) (
              lanelets_within point_table more es
                (ground (arith, length-append lanelets (lane ∷ [])))
                (All-append LaneletFits lanelets (lane ∷ []) a (fits, tt)))
      ]
