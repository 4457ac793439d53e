-- ===== src/Map/Build.antt =====
-- The functions of map/IntersectionMap.c that fill a map. A failed call changes nothing.
use green_right_topst_linux.Base.{
  ℕ, List, [], ◌∷◌, ◌++◌, Option, none, some, leb, if◌then◌else◌, length, Str, str_eq, is_empty,
  safe_copy,
}
use green_right_topst_linux.Doubles.{Doubles}
use green_right_topst_linux.Map.{
  MapPoint, MapLanelet, MapConflictParticipant, MapConflictRelation, IntersectionMap,
}
use green_right_topst_linux.Map.Movement.{has_str}

abbrev pub map_max_id_len : ℕ
map_max_id_len = 32

abbrev pub map_max_cz_per_lane : ℕ
map_max_cz_per_lane = 8

abbrev pub map_max_conflict_relations : ℕ
map_max_conflict_relations = 32

abbrev pub map_max_cz_participants : ℕ
map_max_cz_participants = 4

module _ {D : Doubles} where
  -- The point of the table with this id; `PointEntry` has the fields of `MapPoint`.
  unfoldable pub find_point : List (MapPoint D) → Str → Option (MapPoint D)
  find_point [] id = none
  find_point (p ∷ points) id =
      if str_eq p.id id
      then some (record p { id = safe_copy map_max_id_len p.id })
      else find_point points id

  unfoldable pub lanelet_add_conflict_zone : MapLanelet D → Str → MapLanelet D
  lanelet_add_conflict_zone lane conflict_zone_id =
      if is_empty conflict_zone_id
      then lane
      else if has_str conflict_zone_id lane.conflict_zone_ids
      then lane
      else if leb map_max_cz_per_lane (length lane.conflict_zone_ids)
      then lane
      else record lane {
        conflict_zone_ids =
            lane.conflict_zone_ids ++ safe_copy map_max_id_len conflict_zone_id ∷ [];
      }

  unfoldable pub lanelet_set_traffic_light : MapLanelet D → Str → MapLanelet D
  lanelet_set_traffic_light lane traffic_light_id =
      if is_empty traffic_light_id
      then lane
      else record lane { traffic_light_id = safe_copy map_max_id_len traffic_light_id }

  unfoldable pub map_add_conflict_relation : IntersectionMap D → Str → Str → IntersectionMap D
  map_add_conflict_relation map relation_id conflict_zone_id =
      if is_empty conflict_zone_id
      then map
      else if leb map_max_conflict_relations (length map.conflict_relations)
      then map
      else record map { conflict_relations = map.conflict_relations ++ relation ∷ [] }
    where
      relation : MapConflictRelation
      relation = record {
        id = safe_copy map_max_id_len relation_id;
        conflict_zone_id = safe_copy map_max_id_len conflict_zone_id;
        participants = [];
      }

unfoldable pub conflict_relation_add_participant :
    MapConflictRelation → Str → Str → MapConflictRelation
conflict_relation_add_participant relation lanelet_id movement =
    if is_empty lanelet_id
    then relation
    else if leb map_max_cz_participants (length relation.participants)
    then relation
    else record relation { participants = relation.participants ++ participant ∷ [] }
  where
    participant : MapConflictParticipant
    participant = record {
      lanelet_id = safe_copy map_max_id_len lanelet_id;
      movement = safe_copy map_max_id_len movement;
    }
