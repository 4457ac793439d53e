-- ===== src/SelfVehicle.antt =====
-- manager/self_vehicle_manager.c: the ego vehicle as the other threads see it. Each function runs
-- under the manager's mutex, so that it is one step. Readings of the monotonic clock are arguments.
pub mod Freshness
use green_right_topst_linux.Base.{
  ℕ, ◌+◌, ◌-◌, ◌%◌, ◌^◌, List, [], ◌∷◌, ◌++◌, Bool, true, false, ◌&&◌, Option, none, some, leb,
  ◌==◌, if◌then◌else◌, length, take, drop, replicate, map, Str, codes, is_empty, safe_copy,
}
use green_right_topst_linux.Types.{
  VehicleInfo, blank_vehicle, EgoVehicle, blank_ego, TurnState, MapContext, blank_context,
  vehicle_info_id_len, vehicle_info_turn_state_len, vehicle_info_max_conflict_zones, used_zones,
}
use green_right_topst_linux.Doubles.{Doubles}
use green_right_topst_linux.Map.Service.{
  MapService, map_service_query_vehicle_context, map_service_get_conflict_zone_ids_for_movement,
  map_service_get_conflict_zone_center,
}

abbrev pub self_vehicle_freshness_ms : ℕ
self_vehicle_freshness_ms = 300

unfoldable pub turn_state_to_string : TurnState → Str
turn_state_to_string TurnState.right_turn = codes "right_turn"
turn_state_to_string TurnState.left_turn = codes "left_turn"
turn_state_to_string TurnState.unprotected_left = codes "unprotected_left"
turn_state_to_string TurnState.straight = codes "straight"

unfoldable pub movement_from_turn_state : TurnState → Str
movement_from_turn_state TurnState.right_turn = codes "right_turn"
movement_from_turn_state TurnState.left_turn = codes "left_turn"
movement_from_turn_state TurnState.unprotected_left = codes "left_turn"
movement_from_turn_state TurnState.straight = codes "straight"

-- `clear_conflict_zones`, then the count and the ids are written: the other slots stay empty.
unfoldable pub set_conflict_zones : VehicleInfo → List Str → VehicleInfo
set_conflict_zones info ids = record info {
  conflict_zone_count = length ids;
  conflict_zone_ids =
      take vehicle_info_max_conflict_zones
        (map (safe_copy vehicle_info_id_len) ids ++ replicate vehicle_info_max_conflict_zones []);
}

unfoldable pub fill_map_fields : VehicleInfo → MapContext → VehicleInfo
fill_map_fields info context = record info {
  lanelet_id = safe_copy vehicle_info_id_len (if context.found then context.lanelet_id else []);
  linked_tl_id =
      safe_copy vehicle_info_id_len (if context.found then context.traffic_light_id else []);
}

abbrev pub projected_behind : (D : Doubles) → Option (D.Double × D.Double) → ℕ → ℕ → ℕ → Bool
projected_behind D none vehicle_x vehicle_y heading_deg = false
projected_behind D (some (center_x, center_y)) vehicle_x vehicle_y heading_deg =
    let pi = D.decimal 314159265358979323846 20 in
    let heading_rad = D.div (D.mul (D.decimal heading_deg 0) pi) (D.decimal 1800 1) in
    let to_cz_x = D.sub center_x (D.decimal vehicle_x 0) in
    let to_cz_y = D.sub center_y (D.decimal vehicle_y 0) in
    let projection =
      D.add (D.mul to_cz_x (D.sin heading_rad)) (D.mul to_cz_y (D.cos heading_rad)) in
    D.less projection (D.neg (D.decimal 100 1))

module _ {D : Doubles} where
  unfoldable pub fill_conflict_zones_from_lane :
      VehicleInfo → MapService D → Str → TurnState → VehicleInfo
  fill_conflict_zones_from_lane info map_service lanelet_id turn_state =
      if is_empty lanelet_id
      then set_conflict_zones info []
      else set_conflict_zones info (
          map_service_get_conflict_zone_ids_for_movement map_service lanelet_id
            (movement_from_turn_state turn_state) vehicle_info_max_conflict_zones)

  unfoldable pub conflict_zone_is_behind_vehicle : MapService D → Str → ℕ → ℕ → ℕ → Bool
  conflict_zone_is_behind_vehicle map_service conflict_zone_id vehicle_x vehicle_y heading_deg =
      projected_behind D (map_service_get_conflict_zone_center map_service conflict_zone_id)
        vehicle_x vehicle_y heading_deg

  -- The ids kept, of those given.
  unfoldable pub kept_loop : MapService D → VehicleInfo → List Str → List Str
  kept_loop map_service info [] = []
  kept_loop map_service info (cz_id ∷ rest) =
      if is_empty cz_id
      then kept_loop map_service info rest
      else if conflict_zone_is_behind_vehicle map_service cz_id info.x info.y info.heading
      then kept_loop map_service info rest
      else safe_copy vehicle_info_id_len cz_id ∷ kept_loop map_service info rest

  unfoldable pub filter_existing_conflict_zones_by_projection :
      VehicleInfo → MapService D → VehicleInfo
  filter_existing_conflict_zones_by_projection info map_service =
      set_conflict_zones info (kept_loop map_service info (used_zones info))

  unfoldable pub update_conflict_zones :
      VehicleInfo → MapService D → MapContext → TurnState → VehicleInfo
  update_conflict_zones info map_service context turn_state =
      if context.found && (if is_empty context.lanelet_id then false else true)
      then fill_conflict_zones_from_lane info map_service context.lanelet_id turn_state
      else filter_existing_conflict_zones_by_projection info map_service

pub record SelfVehicleManager : Type 0 where
  pub ego : EgoVehicle
  pub info : VehicleInfo
  pub last_update_monotonic_ms : ℕ
  pub turn_state : TurnState
  pub vehicle_id : ℕ
  pub valid : Bool

unfoldable pub self_vehicle_manager_init : ℕ → SelfVehicleManager
self_vehicle_manager_init vehicle_id = record {
  ego = blank_ego;
  info = record blank_vehicle {
    vehicle_id = vehicle_id;
    turn_state = safe_copy vehicle_info_turn_state_len (codes "straight");
  };
  last_update_monotonic_ms = 0;
  turn_state = TurnState.straight;
  vehicle_id = vehicle_id;
  valid = false;
}

-- The fields of `info` that do not depend on the map.
unfoldable pub info_of_ego : SelfVehicleManager → EgoVehicle → ℕ → VehicleInfo
info_of_ego manager ego timestamp_epoch_ms = record manager.info {
  vehicle_id = manager.vehicle_id;
  x = ego.x;
  y = ego.y;
  speed = ego.speed;
  heading = ego.heading;
  timestamp_ms = timestamp_epoch_ms;
  turn_state = safe_copy vehicle_info_turn_state_len (turn_state_to_string manager.turn_state);
}

abbrev pub written_or : MapContext → Option MapContext → MapContext
written_or garbage none = garbage
written_or garbage (some context) = context

-- `garbage` is what `context` holds if the query writes nothing to it.
unfoldable pub self_vehicle_manager_update_from_can :
    {D : Doubles}
    → SelfVehicleManager
    → MapService D
    → MapContext
    → EgoVehicle
    → ℕ
    → ℕ
    → SelfVehicleManager
self_vehicle_manager_update_from_can manager map_service garbage ego timestamp_epoch_ms now_ms =
    let context = written_or garbage (map_service_query_vehicle_context map_service ego.x ego.y) in
    let filled = fill_map_fields (info_of_ego manager ego timestamp_epoch_ms) context in
    record manager {
      ego = ego;
      info = update_conflict_zones filled map_service context manager.turn_state;
      last_update_monotonic_ms = now_ms;
      valid = true;
    }

unfoldable pub self_vehicle_manager_get_info : SelfVehicleManager → ℕ → Option VehicleInfo
self_vehicle_manager_get_info manager now_ms =
    if manager.valid
      && leb ((now_ms + 2 ^ 64 - manager.last_update_monotonic_ms) % 2 ^ 64)
          self_vehicle_freshness_ms
    then some manager.info
    else none

unfoldable pub self_vehicle_manager_get_ego : SelfVehicleManager → Option EgoVehicle
self_vehicle_manager_get_ego manager = if manager.valid then some manager.ego else none

abbrev pub self_vehicle_manager_get_turn_state : SelfVehicleManager → TurnState
self_vehicle_manager_get_turn_state manager = manager.turn_state

abbrev pub self_vehicle_manager_set_turn_state : SelfVehicleManager → TurnState → SelfVehicleManager
self_vehicle_manager_set_turn_state manager state = record manager { turn_state = state }
