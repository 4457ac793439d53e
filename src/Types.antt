-- ===== src/Types.antt =====
-- common/types.h. A `char` array is the string it holds; an unsigned field is a natural number.
use green_right_topst_linux.Base.{ℕ, List, [], Bool, false, Str, replicate, take}

abbrev pub vehicle_id_none : ℕ
vehicle_id_none = 0

abbrev pub vehicle_info_id_len : ℕ
vehicle_info_id_len = 16

abbrev pub vehicle_info_turn_state_len : ℕ
vehicle_info_turn_state_len = 24

abbrev pub vehicle_info_max_conflict_zones : ℕ
vehicle_info_max_conflict_zones = 4

abbrev pub max_other_vehicles : ℕ
max_other_vehicles = 64

abbrev pub max_traffic_lights : ℕ
max_traffic_lights = 8

abbrev pub invalid_id : ℕ
invalid_id = 0xff

-- `conflict_zone_ids` is the array of four slots; the first `conflict_zone_count` are in use.
pub record VehicleInfo : Type 0 where
  pub vehicle_id : ℕ
  pub x : ℕ
  pub y : ℕ
  pub speed : ℕ
  pub heading : ℕ
  pub lanelet_id : Str
  pub turn_state : Str
  pub conflict_zone_ids : List Str
  pub conflict_zone_count : ℕ
  pub linked_tl_id : Str
  pub timestamp_ms : ℕ

-- `memset(v, 0, sizeof(*v))`
abbrev pub blank_vehicle : VehicleInfo
blank_vehicle = record {
  vehicle_id = 0;
  x = 0;
  y = 0;
  speed = 0;
  heading = 0;
  lanelet_id = [];
  turn_state = [];
  conflict_zone_ids = replicate vehicle_info_max_conflict_zones [];
  conflict_zone_count = 0;
  linked_tl_id = [];
  timestamp_ms = 0;
}

pub record EgoVehicle : Type 0 where
  pub x : ℕ
  pub y : ℕ
  pub speed : ℕ
  pub heading : ℕ
  pub turn_signal : ℕ
  pub timestamp : ℕ

abbrev pub blank_ego : EgoVehicle
blank_ego = record { x = 0; y = 0; speed = 0; heading = 0; turn_signal = 0; timestamp = 0 }

pub record TrafficLight : Type 0 where
  pub color : ℕ
  pub time_left : ℕ
  pub timestamp_ms : ℕ

abbrev pub blank_light : TrafficLight
blank_light = record { color = 0; time_left = 0; timestamp_ms = 0 }

pub data Direction : Type 0 where
  unknown straight right left unprotected_left : Direction

abbrev pub turn_signal_none : ℕ
turn_signal_none = 0

abbrev pub turn_signal_right : ℕ
turn_signal_right = 1

abbrev pub turn_signal_left : ℕ
turn_signal_left = 2

pub data TurnState : Type 0 where
  straight right_turn left_turn unprotected_left : TurnState

pub record MapContext : Type 0 where
  pub found : Bool
  pub in_intersection_center : Bool
  pub lanelet_id : Str
  pub direction : Direction
  pub unprotected_left : Bool
  pub traffic_light_id : Str

-- `memset(out, 0, sizeof(*out))`
abbrev pub blank_context : MapContext
blank_context = record {
  found = false;
  in_intersection_center = false;
  lanelet_id = [];
  direction = Direction.unknown;
  unprotected_left = false;
  traffic_light_id = [];
}

-- The slots that the loops `i < conflict_zone_count && i < VEHICLE_INFO_MAX_CONFLICT_ZONES` visit.
abbrev pub used_zones : VehicleInfo → List Str
used_zones v = take vehicle_info_max_conflict_zones (take v.conflict_zone_count v.conflict_zone_ids)
