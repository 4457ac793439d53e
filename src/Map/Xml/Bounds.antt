-- ===== src/Map/Xml/Bounds.antt =====
-- The changes that regulatory elements make keep a map within the bounds of its arrays.
use green_right_topst_linux.Base.{
  ◌≡◌, refl, sym, subst, List, [], ◌∷◌, Bool, true, false, leb, if◌then◌else◌, length,
  length-append, Str, codes, str_eq, is_empty, safe_copy, arith, Bool-cases, Option-cases, inl, inr,
  All, All-append,
}
use green_right_topst_linux.Doubles.{Doubles}
use green_right_topst_linux.Map.{
  MapLanelet, MapConflictRelation, MapConflictParticipant, IntersectionMap,
}
use green_right_topst_linux.Map.Movement.{has_str}
use green_right_topst_linux.Map.Build.{
  map_max_id_len, lanelet_add_conflict_zone, lanelet_set_traffic_light, map_add_conflict_relation,
  conflict_relation_add_participant,
}
use green_right_topst_linux.Map.Xml.{get_attr_string}
use green_right_topst_linux.Map.Xml.Rules.{
  update_lanelet, apply_to_lanelets, change_last, with_relation, add_participant,
}
use green_right_topst_linux.Map.Xml.Capacity.{LaneletFits, RelationFits, IsWithin}

change_last_within :
    (change : MapConflictRelation → MapConflictRelation) (rs : List MapConflictRelation)
    → ((r : MapConflictRelation) → RelationFits r → RelationFits (change r))
    → All RelationFits rs
    → (length (change_last change rs) ≡ length rs) × All RelationFits (change_last change rs)
unfolding change_last
change_last_within change [] c a = (refl, tt)
change_last_within change (r ∷ []) c a = (refl, (c r a.0, tt))
change_last_within change (r ∷ s ∷ rest) c a =
    let (same, fits) = change_last_within change (s ∷ rest) c a.1 in (omega arith, (a.0, fits))

participant_fits :
    (r : MapConflictRelation) (lane_id movement : Str)
    → RelationFits r
    → RelationFits (conflict_relation_add_participant r lane_id movement)
unfolding conflict_relation_add_participant
participant_fits r lane_id movement h =
    let participant : MapConflictParticipant = record {
      lanelet_id = safe_copy map_max_id_len lane_id;
      movement = safe_copy map_max_id_len movement;
    } in
    elim (Bool-cases (is_empty lane_id)) [
      | inl e ↦ simp e h
      | inr e ↦ elim (Bool-cases (leb 4 (length r.participants))) [
        | inl k ↦ simp (e, k) h
        | inr k ↦ simp (e, k) (ground (arith, length-append r.participants (participant ∷ [])))
      ]
    ]

module _ {D : Doubles} where
  pub zone_fits :
      (lane : MapLanelet D) (id : Str)
      → LaneletFits lane
      → LaneletFits (lanelet_add_conflict_zone lane id)
  unfolding lanelet_add_conflict_zone
  zone_fits lane id h = elim (Bool-cases (is_empty id)) [
    | inl e ↦ simp e h
    | inr e ↦ elim (Bool-cases (has_str id lane.conflict_zone_ids)) [
      | inl k ↦ simp (e, k) h
      | inr k ↦ elim (Bool-cases (leb 8 (length lane.conflict_zone_ids))) [
        | inl m ↦ simp (e, k, m) h
        | inr m ↦
            simp (e, k, m)
              (
                h.0,
                ground (
                  arith,
                  length-append lane.conflict_zone_ids (safe_copy map_max_id_len id ∷ []),
                ),
              )
      ]
    ]
  ]

  pub light_fits :
      (lane : MapLanelet D) (id : Str)
      → LaneletFits lane
      → LaneletFits (lanelet_set_traffic_light lane id)
  unfolding lanelet_set_traffic_light
  light_fits lane id h = elim (Bool-cases (is_empty id)) [ inl e ↦ simp e h | inr e ↦ simp e h ]

  update_within :
      (lanes : List (MapLanelet D)) (id : Str) (change : MapLanelet D → MapLanelet D)
      → ((lane : MapLanelet D) → LaneletFits lane → LaneletFits (change lane))
      → All LaneletFits lanes
      → (length (update_lanelet lanes id change) ≡ length lanes)
        × All LaneletFits (update_lanelet lanes id change)
  unfolding update_lanelet
  update_within [] id change c a = (refl, tt)
  update_within (lane ∷ lanes) id change c a =
      let (same, fits) = update_within lanes id change c a.1 in
      elim (Bool-cases (str_eq lane.id id)) [
        | inl e ↦ simp e (refl, (c lane a.0, a.1))
        | inr e ↦ simp e (omega arith, (a.0, fits))
      ]

  -- A map within its bounds stays so with other lanelets and relations that are.
  changed-IsWithin :
      (map : IntersectionMap D) (lanelets : List (MapLanelet D))
      (relations : List MapConflictRelation)
      → IsWithin map
      → (length lanelets ≡ length map.lanelets) × All LaneletFits lanelets
      → (length relations ≡ length map.conflict_relations) × All RelationFits relations
      → IsWithin (record map { lanelets = lanelets; conflict_relations = relations })
  changed-IsWithin map lanelets relations w h k = record {
    lanelet_count = omega (arith, h.0, w.lanelet_count);
    area_count = w.area_count;
    traffic_light_count = w.traffic_light_count;
    conflict_zone_count = w.conflict_zone_count;
    conflict_relation_count = omega (arith, k.0, w.conflict_relation_count);
    lanelets_fit = h.1;
    areas_fit = w.areas_fit;
    polygons_fit = w.polygons_fit;
    zones_fit = w.zones_fit;
    relations_fit = k.1;
  }

  pub apply-IsWithin :
      (change : MapLanelet D → MapLanelet D) (map : IntersectionMap D) (scans : List Str)
      → ((lane : MapLanelet D) → LaneletFits lane → LaneletFits (change lane))
      → IsWithin map
      → IsWithin (apply_to_lanelets change map scans)
  unfolding apply_to_lanelets
  apply-IsWithin change map [] c w = w
  apply-IsWithin change map (scan ∷ scans) c w =
      elim (Option-cases (get_attr_string scan (codes "lanelet_id") 32)) [
        | inl e ↦
            let skipped : apply_to_lanelets change map (scan ∷ scans)
                ≡ apply_to_lanelets change map scans =
              cc in
            subst IsWithin (sym skipped) (apply-IsWithin change map scans c w)
        | inr (lane_id, e) ↦
            let lanelets = update_lanelet map.lanelets lane_id change in
            let after : IntersectionMap D = record map { lanelets = lanelets } in
            let changed : apply_to_lanelets change map (scan ∷ scans)
                ≡ apply_to_lanelets change after scans =
              cc in
            subst IsWithin (sym changed) (
              apply-IsWithin change after scans c (
                changed-IsWithin map lanelets map.conflict_relations w
                  (update_within map.lanelets lane_id change c w.lanelets_fit)
                  (refl, w.relations_fit)))
      ]

  relation-IsWithin :
      (map : IntersectionMap D) (relation_id cz_id : Str)
      → IsWithin map
      → IsWithin (map_add_conflict_relation map relation_id cz_id)
  unfolding map_add_conflict_relation
  relation-IsWithin map relation_id cz_id w =
      let relation : MapConflictRelation = record {
        id = safe_copy map_max_id_len relation_id;
        conflict_zone_id = safe_copy map_max_id_len cz_id;
        participants = [];
      } in
      let fits : RelationFits relation = omega arith in
      elim (Bool-cases (is_empty cz_id)) [
        | inl e ↦ simp e w
        | inr e ↦ elim (Bool-cases (leb 32 (length map.conflict_relations))) [
          | inl k ↦ simp (e, k) w
          | inr k ↦
              simp (e, k)
                (record {
                  lanelet_count = w.lanelet_count;
                  area_count = w.area_count;
                  traffic_light_count = w.traffic_light_count;
                  conflict_zone_count = w.conflict_zone_count;
                  conflict_relation_count =
                      ground (arith, length-append map.conflict_relations (relation ∷ []));
                  lanelets_fit = w.lanelets_fit;
                  areas_fit = w.areas_fit;
                  polygons_fit = w.polygons_fit;
                  zones_fit = w.zones_fit;
                  relations_fit =
                      All-append RelationFits map.conflict_relations (relation ∷ []) w.relations_fit
                        (fits, tt);
                })
        ]
      ]

  with_relation-IsWithin :
      (map : IntersectionMap D) (has : Bool) (relation_id cz_id : Str)
      → IsWithin map
      → IsWithin (with_relation map has relation_id cz_id).0
  unfolding with_relation
  with_relation-IsWithin map true relation_id cz_id w = w
  with_relation-IsWithin map false relation_id cz_id w = relation-IsWithin map relation_id cz_id w

  pub participant-IsWithin :
      (map : IntersectionMap D) (has : Bool) (relation_id cz_id lane_id movement : Str)
      → IsWithin map
      → IsWithin (add_participant map has relation_id cz_id lane_id movement).0
  unfolding add_participant
  participant-IsWithin map has relation_id cz_id lane_id movement w =
      let begun = with_relation map has relation_id cz_id in
      let v = with_relation-IsWithin map has relation_id cz_id w in
      changed-IsWithin begun.0 _ _ v
        (update_within begun.0.lanelets lane_id _ (λ lane h. zone_fits lane cz_id h) v.lanelets_fit)
        (choose begun.1 begun.0.conflict_relations v.relations_fit)
    where
      choose :
          (b : Bool) (rs : List MapConflictRelation)
          → All RelationFits rs
          → (let changed =
                if b
                then change_last
                    (λ (r : MapConflictRelation).
                      conflict_relation_add_participant r lane_id movement)
                    rs
                else rs in
              (length changed ≡ length rs) × All RelationFits changed)
      choose true rs h = change_last_within _ rs (λ r k. participant_fits r lane_id movement k) h
      choose false rs h = (refl, h)
