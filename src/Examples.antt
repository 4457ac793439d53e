-- ===== src/Examples.antt =====
-- Concrete data for the examples: a map with one conflict zone, vehicles, frames, and numbers in the
-- place of doubles.
mod Bus
mod Frames
mod Vehicles
mod Rounds
mod Wire
mod Times
mod Whole
mod Turn
use green_right_topst_linux.Base.{
  ℕ, ◌+◌, ◌-◌, ◌*◌, ◌/◌, ◌%◌, ◌^◌, List, [], ◌∷◌, Bool, true, false, Option, none, some, ltb, codes,
  replicate,
}
use green_right_topst_linux.Types.{VehicleInfo, blank_vehicle, EgoVehicle, TurnState, blank_context}
use green_right_topst_linux.Doubles.{Doubles}
use green_right_topst_linux.Map.{
  MapPoint, MapLanelet, MapArea, MapConflictParticipant, MapConflictRelation, IntersectionMap,
}
use green_right_topst_linux.Map.Service.{MapService}
use green_right_topst_linux.OtherVehicles.{
  OtherVehicleManager, other_vehicle_manager_init, other_vehicle_manager_update,
}
use green_right_topst_linux.TrafficLights.{traffic_light_manager_init}
use green_right_topst_linux.TxThread.{Env}
use green_right_topst_linux.EgoFrame.{Readings}
use green_right_topst_linux.Can.Rx.{CanHandler}

abbrev pub naturals : Doubles
naturals = record {
  Double = ℕ;
  decimal = λ m e. m / 10 ^ e;
  add = λ a b. a + b;
  sub = λ a b. a - b;
  mul = λ a b. a * b;
  div = λ a b. a / b;
  neg = λ a. 0 - a;
  less = λ a b. ltb a b;
  sin = λ a. a;
  cos = λ a. 1;
  to_u16 = λ a. a % 2 ^ 16;
  to_u64 = λ a. a % 2 ^ 64;
}

abbrev point : ℕ → ℕ → MapPoint naturals
point px py = record { id = codes "P"; x = px; y = py }

abbrev pub crossing : IntersectionMap naturals
crossing = record {
  lanelets =
      record {
        id = codes "L1";
        area_points = point 0 0 ∷ point 100 0 ∷ point 100 100 ∷ point 0 100 ∷ [];
        travel_heading_deg = 0;
        maneuver = codes "straight_right";
        unprotected_left = false;
        traffic_light_id = codes "TL2";
        conflict_zone_ids = codes "C1" ∷ [];
      }
      ∷ [];
  width = 0;
  height = 0;
  traffic_lights = [];
  areas = [];
  conflict_zones = record { id = codes "C1"; area_points = point 10 10 ∷ point 30 30 ∷ [] } ∷ [];
  conflict_relations =
      record {
        id = codes "R1";
        conflict_zone_id = codes "C1";
        participants = record { lanelet_id = codes "L1"; movement = codes "right_turn" } ∷ [];
      }
      ∷ [];
  intersection_center_id = [];
}

abbrev pub service : MapService naturals
service = record { map = crossing; loaded = true }

abbrev pub own : VehicleInfo
own = record blank_vehicle {
  vehicle_id = 1;
  x = 50;
  y = 50;
  turn_state = codes "right_turn";
  conflict_zone_ids = codes "C1" ∷ [] ∷ [] ∷ [] ∷ [];
  conflict_zone_count = 1;
}

abbrev pub other : VehicleInfo
other = record own { vehicle_id = 7; x = 60; turn_state = codes "straight" }

abbrev pub others : OtherVehicleManager
others = other_vehicle_manager_update other_vehicle_manager_init other 1000

abbrev pub env_active : Env
env_active = record {
  active = true;
  self = some own;
  connected = true;
  connected_for_light = true;
  others = others;
  traffic_lights = traffic_light_manager_init;
}

abbrev pub env_idle : Env
env_idle = record env_active { active = false }

-- A right turn signalled inside the lane.
abbrev pub ego_right : EgoVehicle
ego_right = record { x = 50; y = 50; speed = 10; heading = 0; turn_signal = 1; timestamp = 100 }

abbrev pub readings : Readings
readings = record {
  sync_epoch_ms = 5000;
  update_ms = 100;
  get_ms = 101;
  garbage = blank_context;
  update_garbage = blank_context;
}

abbrev pub receiver : List ℕ → CanHandler
receiver bytes = record {
  fd = some 3;
  rx_mock_mode = false;
  tx_mock_mode = false;
  mock_tick = 0;
  rx_buffer = bytes;
  ego_rx_count = 0;
  ego_rx_last_ms = 0;
  ego_rx_last_gap_ms = 0;
  ego_rx_max_gap_ms = 0;
  initialized = true;
  ego_calls = [];
}
