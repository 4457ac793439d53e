-- ===== src/Map/Movement.antt =====
-- `intersection_map_get_conflict_zone_ids_for_movement` of map/IntersectionMap.c.
use green_right_topst_linux.Base.{
  ℕ, List, [], ◌∷◌, ◌++◌, Bool, true, false, ◌&&◌, ◌||◌, ltb, if◌then◌else◌, length, Str, str_eq,
}
use green_right_topst_linux.Map.{MapConflictParticipant, MapConflictRelation, IntersectionMap}
use green_right_topst_linux.Doubles.{Doubles}

-- Whether one of the strings is `s`.
unfoldable pub has_str : Str → List Str → Bool
has_str s [] = false
has_str s (t ∷ ts) = str_eq t s || has_str s ts

-- Whether a participant is that lane with that movement.
unfoldable pub takes_part : Str → Str → List MapConflictParticipant → Bool
takes_part lane_id movement [] = false
takes_part lane_id movement (p ∷ ps) =
    (str_eq p.lanelet_id lane_id && str_eq p.movement movement) || takes_part lane_id movement ps

-- The loop over the relations; `out_ids` are those written so far.
unfoldable pub movement_loop : Str → Str → ℕ → List Str → List MapConflictRelation → List Str
movement_loop lane_id movement max_out out_ids [] = out_ids
movement_loop lane_id movement max_out out_ids (r ∷ rs) =
    if ltb (length out_ids) max_out
    then movement_loop lane_id movement max_out
        (if takes_part lane_id movement r.participants
            && (if has_str r.conflict_zone_id out_ids then false else true)
          then out_ids ++ r.conflict_zone_id ∷ []
          else out_ids)
        rs
    else out_ids

unfoldable pub intersection_map_get_conflict_zone_ids_for_movement :
    {D : Doubles} → IntersectionMap D → Str → Str → ℕ → List Str
intersection_map_get_conflict_zone_ids_for_movement map lane_id movement max_out =
    movement_loop lane_id movement max_out [] map.conflict_relations
