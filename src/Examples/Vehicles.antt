-- ===== src/Examples/Vehicles.antt =====
-- The managers, the map and the turn state on concrete vehicles.
use green_right_topst_linux.Base.{
  ◌≤◌, ◌<◌, ◌≡◌, ◌⊎◌, refl, List, [], ◌∷◌, true, none, some, length, All, arith, codes, Str,
}
use green_right_topst_linux.Types.{
  EgoVehicle, TurnState, Direction, TrafficLight, MapContext, blank_context,
}
use green_right_topst_linux.OtherVehicles.{Slot, is_stale}
use green_right_topst_linux.OtherVehicles.Stale.{is_stale_age}
use green_right_topst_linux.TrafficLights.{traffic_light_manager_init}
use green_right_topst_linux.PublishQueue.{
  push, try_pop, run, vehicle_publish_queue_init, run-mailbox,
}
use green_right_topst_linux.SelfVehicle.{
  self_vehicle_manager_init, self_vehicle_manager_update_from_can, self_vehicle_manager_get_info,
  turn_state_to_string,
}
use green_right_topst_linux.SelfVehicle.Freshness.{get_info-update_from_can}
use green_right_topst_linux.Map.Movement.{intersection_map_get_conflict_zone_ids_for_movement}
use green_right_topst_linux.Map.Zones.{
  Member, Lists, NoDuplicates, conflict_zone_ids_for_movement_complete,
}
use green_right_topst_linux.EgoFrame.{RxContext, Readings, decide_turn_state}
use green_right_topst_linux.EgoFrame.Mode.{Turns, decide_turn_state_steps}
use green_right_topst_linux.Examples.{own, other, ego_right, readings, service, crossing}

abbrev used_slot : Slot
used_slot = record { vehicle = other; valid = true; last_updated_ms = 1000 }

-- The vehicle was updated 1 ms after the clock was read.
is_stale_age_example : is_stale 999 500 used_slot ≡ true
is_stale_age_example = is_stale_age 999 500 used_slot refl (omega arith) (omega arith) (omega arith)

abbrev red : TrafficLight
red = record { color = 0; time_left = 5; timestamp_ms = 10 }

size : length traffic_light_manager_init.slots ≡ 8
unfolding traffic_light_manager_init
size = refl

run-mailbox_example :
    run vehicle_publish_queue_init (push own ∷ push other ∷ try_pop ∷ try_pop ∷ [])
    ≡ some other ∷ none ∷ []
run-mailbox_example =
    run-mailbox vehicle_publish_queue_init (push own ∷ push other ∷ try_pop ∷ try_pop ∷ [])

get_info-update_from_can_example :
    let m = self_vehicle_manager_init 1 in
    let m' = self_vehicle_manager_update_from_can m service blank_context ego_right 4196 100 in
    (self_vehicle_manager_get_info m' 350 ≡ some m'.info)
    × (m'.info.x ≡ 50)
    × (m'.info.y ≡ 50)
    × (m'.info.speed ≡ 10)
    × (m'.info.heading ≡ 0)
    × (m'.info.vehicle_id ≡ m.vehicle_id)
    × (m'.info.timestamp_ms ≡ 4196)
    × (m'.info.turn_state ≡ turn_state_to_string m.turn_state)
    × (m'.info.conflict_zone_count ≤ 4)
get_info-update_from_can_example =
    get_info-update_from_can service (self_vehicle_manager_init 1) blank_context ego_right 4196 100
      350 (omega arith) (omega arith)

conflict_zone_ids_for_movement_complete_example :
    let result =
      intersection_map_get_conflict_zone_ids_for_movement crossing
        (codes "L1")
        (codes "right_turn")
        4 in
    let IsZone = Lists (codes "L1") (codes "right_turn") crossing.conflict_relations in
    (length result ≤ 4)
    × NoDuplicates result
    × All IsZone result
    × ((zone : Str) → IsZone zone → length result < 4 → Member zone result)
conflict_zone_ids_for_movement_complete_example =
    conflict_zone_ids_for_movement_complete crossing (codes "L1") (codes "right_turn") 4

abbrev turning : RxContext
turning = record {
  self = record (self_vehicle_manager_init 1) { turn_state = TurnState.right_turn };
  self_publish_queue = vehicle_publish_queue_init;
  candidate_vehicle_tx_enabled = true;
}

abbrev frames : List (Readings × EgoVehicle)
frames = (readings, ego_right) ∷ (readings, ego_right) ∷ []

abbrev right_lane : MapContext
right_lane = record blank_context { found = true; direction = Direction.right }

decide_turn_state_steps_example :
    let t = decide_turn_state TurnState.straight ego_right right_lane in
    ((t ≡ TurnState.straight) ⊎ Turns TurnState.straight 1 right_lane t)
    × (Turns TurnState.straight 1 right_lane TurnState.right_turn → t ≡ TurnState.right_turn)
decide_turn_state_steps_example =
    decide_turn_state_steps TurnState.straight TurnState.right_turn ego_right right_lane
