-- ===== src/EgoFrame.antt =====
-- core/can_rx_thread.c: the turn state machine and `on_ego_frame`, the callback of the CAN receiver.
-- The receive thread is the only one that changes the ego vehicle and the candidate flag. Clock
-- readings are arguments.
pub mod Mode
use green_right_topst_linux.Base.{
  ℕ, ◌≡◌, List, [], ◌∷◌, Bool, true, false, ◌&&◌, ◌||◌, Option, none, some, ◌==◌, if◌then◌else◌,
}
use green_right_topst_linux.Types.{
  VehicleInfo, EgoVehicle, Direction, TurnState, MapContext, turn_signal_none, turn_signal_right,
  turn_signal_left,
}
use green_right_topst_linux.Doubles.{Doubles}
use green_right_topst_linux.Map.Service.{MapService, map_service_query_vehicle_context}
use green_right_topst_linux.Ntp.{ntp_time_reconstruct}
use green_right_topst_linux.PublishQueue.{VehiclePublishQueue, vehicle_publish_queue_push}
use green_right_topst_linux.SelfVehicle.{
  SelfVehicleManager, self_vehicle_manager_update_from_can, self_vehicle_manager_get_info,
  self_vehicle_manager_get_turn_state, self_vehicle_manager_set_turn_state, written_or,
}

abbrev pub turn_of_direction : Bool → Bool → Direction → TurnState
turn_of_direction right_signal left_signal Direction.right =
    if right_signal then TurnState.right_turn else TurnState.straight
turn_of_direction right_signal left_signal Direction.left =
    if left_signal then TurnState.left_turn else TurnState.straight
turn_of_direction right_signal left_signal Direction.unprotected_left =
    if left_signal then TurnState.unprotected_left else TurnState.straight
turn_of_direction right_signal left_signal _ = TurnState.straight

unfoldable pub decide_turn_state : TurnState → EgoVehicle → MapContext → TurnState
decide_turn_state TurnState.straight ego map_context =
    if map_context.found
    then turn_of_direction (ego.turn_signal == turn_signal_right)
        (ego.turn_signal == turn_signal_left) map_context.direction
    else TurnState.straight
decide_turn_state current ego map_context =
    if ego.turn_signal == turn_signal_none then TurnState.straight else current

-- `state == TURN_STATE_RIGHT_TURN || state == TURN_STATE_UNPROTECTED_LEFT`
abbrev pub is_candidate_mode : TurnState → Bool
is_candidate_mode TurnState.right_turn = true
is_candidate_mode TurnState.unprotected_left = true
is_candidate_mode _ = false

-- The part of `AppContext` that the callback changes.
pub record RxContext : Type 0 where
  pub self : SelfVehicleManager
  pub self_publish_queue : VehiclePublishQueue
  pub candidate_vehicle_tx_enabled : Bool

abbrev pub push_latest : VehiclePublishQueue → Option VehicleInfo → VehiclePublishQueue
push_latest queue none = queue
push_latest queue (some self) = vehicle_publish_queue_push queue self

-- What a call reads besides the frame: the reference epoch of the NTP module, the monotonic clock in
-- `update_from_can` and in `get_info`, and the uninitialised `MapContext` variables.
pub record Readings : Type 0 where
  pub sync_epoch_ms : ℕ
  pub update_ms : ℕ
  pub get_ms : ℕ
  pub garbage : MapContext
  pub update_garbage : MapContext

module _ {D : Doubles} (map : MapService D) (readings : Readings) (context : RxContext)
    (ego : EgoVehicle) where
  -- The turn state that the call sets.
  abbrev pub next_turn_state : TurnState
  next_turn_state =
      decide_turn_state (self_vehicle_manager_get_turn_state context.self) ego
        (written_or readings.garbage (map_service_query_vehicle_context map ego.x ego.y))

  -- After `set_turn_state`.
  abbrev pub turned : RxContext
  turned = record context {
    self = self_vehicle_manager_set_turn_state context.self next_turn_state;
  }

  -- After `update_from_can`.
  abbrev pub updated : RxContext
  updated = record turned {
    self =
        self_vehicle_manager_update_from_can turned.self map readings.update_garbage ego
          (ntp_time_reconstruct ego.timestamp readings.sync_epoch_ms) readings.update_ms;
  }

  -- After the push.
  abbrev pub pushed : RxContext
  pushed = record updated {
    self_publish_queue =
        push_latest context.self_publish_queue
          (self_vehicle_manager_get_info updated.self readings.get_ms);
  }

unfoldable pub on_ego_frame :
    {D : Doubles} → MapService D → Readings → RxContext → EgoVehicle → RxContext
on_ego_frame map readings context ego = record (pushed map readings context ego) {
  candidate_vehicle_tx_enabled =
      changed_flag (is_candidate_mode (self_vehicle_manager_get_turn_state context.self))
        (is_candidate_mode (next_turn_state map readings context ego))
        context.candidate_vehicle_tx_enabled;
}
  where
    changed_flag : Bool → Bool → Bool → Bool
    changed_flag true true flag = flag
    changed_flag false false flag = flag
    changed_flag was is flag = is

-- What the other threads can see during a call: the context after each call that changes it.
abbrev pub stages :
    {D : Doubles} → MapService D → Readings → RxContext → EgoVehicle → List RxContext
stages map readings context ego =
    turned map readings context ego
    ∷ updated map readings context ego
    ∷ pushed map readings context ego
    ∷ on_ego_frame map readings context ego
    ∷ []
