-- ===== src/TxThread.antt =====
-- core/can_tx_thread.c: the loop of the CAN transmit thread, one round at a time.
-- A round reads the managers once; what other threads change between two locks of a round is not
-- modelled. The calls of the CAN handler are recorded as messages, oldest first.
pub mod Round
pub mod Report
pub mod Intro
pub mod Timing
pub mod Sync
use green_right_topst_linux.Base.{
  ℕ, ◌+◌, ◌%◌, ◌^◌, ◌/◌, List, [], ◌∷◌, ◌++◌, Bool, true, false, ◌||◌, Option, none, some, leb,
  ◌==◌, if◌then◌else◌,
}
use green_right_topst_linux.Types.{VehicleInfo, TrafficLight, vehicle_id_none}
use green_right_topst_linux.Doubles.{Doubles}
use green_right_topst_linux.Map.Service.{MapService}
use green_right_topst_linux.OtherVehicles.{OtherVehicleManager, other_vehicle_manager_set_candidate}
use green_right_topst_linux.TrafficLights.{
  TrafficLightManager, traffic_light_manager_select_candidate, traffic_light_manager_get_candidate,
}
use green_right_topst_linux.Candidate.{
  CandidateSelection, select_candidate_vehicle, maneuver_code_from_self,
  select_farthest_self_conflict_zone_center, select_candidate_traffic_light_id,
}
use green_right_topst_linux.Can.Rx.{CanHandler}
use green_right_topst_linux.CanTx.{
  Transmission, can_handler_send_ntp_sync, can_handler_send_candidate_vehicle_intro,
  can_handler_send_candidate_vehicle_status, can_handler_send_no_candidate_vehicle,
  can_handler_send_candidate_vehicle_unavailable, can_handler_send_traffic_light,
  can_handler_send_no_traffic_light, can_handler_send_traffic_light_unavailable,
}

abbrev pub can_tx_tick_ms : ℕ
can_tx_tick_ms = 10

abbrev pub candidate_status_tx_period_ms : ℕ
candidate_status_tx_period_ms = 20

abbrev pub traffic_light_tx_period_ms : ℕ
traffic_light_tx_period_ms = 300

abbrev pub ntp_sync_tx_period_ms : ℕ
ntp_sync_tx_period_ms = 100

abbrev pub candidate_id_none : ℕ
candidate_id_none = vehicle_id_none

pub data TxMessage : Type 0 where
  ntp_sync no_candidate unavailable : TxMessage
  intro status : CandidateSelection → TxMessage
  traffic_light : ℕ → TrafficLight → ℕ → ℕ → ℕ → TxMessage
  no_traffic_light : ℕ → ℕ → ℕ → TxMessage
  traffic_light_unavailable : ℕ → TxMessage

-- The call of the CAN handler that a message stands for.
unfoldable pub send_message : CanHandler → ℕ → ℕ → TxMessage → Transmission
send_message can sync_epoch_ms sync_status TxMessage.ntp_sync =
    can_handler_send_ntp_sync can sync_epoch_ms sync_status
send_message can sync_epoch_ms sync_status TxMessage.no_candidate =
    can_handler_send_no_candidate_vehicle can sync_epoch_ms
send_message can sync_epoch_ms sync_status TxMessage.unavailable =
    can_handler_send_candidate_vehicle_unavailable can sync_epoch_ms
send_message can sync_epoch_ms sync_status (TxMessage.intro s) =
    can_handler_send_candidate_vehicle_intro can s.type_mask s.conflict_zone_center_x
      s.conflict_zone_center_y s.vehicle.timestamp_ms
send_message can sync_epoch_ms sync_status (TxMessage.status s) =
    can_handler_send_candidate_vehicle_status can s.type_mask (some s.vehicle) sync_epoch_ms
send_message can sync_epoch_ms sync_status (TxMessage.traffic_light tl_id tl x y maneuver) =
    can_handler_send_traffic_light can tl_id (some tl) x y maneuver sync_epoch_ms
send_message can sync_epoch_ms sync_status (TxMessage.no_traffic_light x y maneuver) =
    can_handler_send_no_traffic_light can x y maneuver sync_epoch_ms
send_message can sync_epoch_ms sync_status (TxMessage.traffic_light_unavailable maneuver) =
    can_handler_send_traffic_light_unavailable can maneuver sync_epoch_ms

-- The locals of the loop.
pub record TxState : Type 0 where
  pub last_active : Bool
  pub last_had_candidate : Bool
  pub last_intro_vehicle_id : ℕ
  pub candidate_status_elapsed_ms : ℕ
  pub traffic_light_elapsed_ms : ℕ
  pub ntp_sync_elapsed_ms : ℕ

abbrev pub tx_init : TxState
tx_init = record {
  last_active = false;
  last_had_candidate = false;
  last_intro_vehicle_id = candidate_id_none;
  candidate_status_elapsed_ms = candidate_status_tx_period_ms;
  traffic_light_elapsed_ms = traffic_light_tx_period_ms / 2;
  ntp_sync_elapsed_ms = ntp_sync_tx_period_ms;
}

-- What a round reads: the candidate flag, `self_vehicle_manager_get_info`, the two readings of
-- `mqtt_handler_is_connected`, and the managers.
pub record Env : Type 0 where
  pub active : Bool
  pub self : Option VehicleInfo
  pub connected : Bool
  pub connected_for_light : Bool
  pub others : OtherVehicleManager
  pub traffic_lights : TrafficLightManager

-- The managers after the round, and the messages.
pub record Effect : Type 0 where
  pub others : OtherVehicleManager
  pub traffic_lights : TrafficLightManager
  pub messages : List TxMessage

-- The end of a round: the three counters are `uint32_t`.
unfoldable pub advance : TxState → TxState
advance s = record s {
  candidate_status_elapsed_ms = (s.candidate_status_elapsed_ms + can_tx_tick_ms) % 2 ^ 32;
  traffic_light_elapsed_ms = (s.traffic_light_elapsed_ms + can_tx_tick_ms) % 2 ^ 32;
  ntp_sync_elapsed_ms = (s.ntp_sync_elapsed_ms + can_tx_tick_ms) % 2 ^ 32;
}

unfoldable pub ntp_part : TxState → TxState × List TxMessage
ntp_part s =
    if leb ntp_sync_tx_period_ms s.ntp_sync_elapsed_ms
    then (record s { ntp_sync_elapsed_ms = 0 }, TxMessage.ntp_sync ∷ [])
    else (s, [])
