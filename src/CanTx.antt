-- ===== src/CanTx.antt =====
-- handler/can_handler.c, sending: what each `can_handler_send_…` hands to `ipc_frame_send`.
use green_right_topst_linux.Base.{ℕ, ◌%◌, ◌^◌, List, not, Option, none, some, if◌then◌else◌}
use green_right_topst_linux.Types.{VehicleInfo, TrafficLight}
use green_right_topst_linux.Can.{
  pack_can_data, ntp_sync_msg_id, candidate_intro_msg_id, candidate_status_msg_id,
  candidate_status_type_none, candidate_status_type_comm_error, tl_status_msg_id, ntp_sync_payload,
  candidate_intro_payload, candidate_status_payload, traffic_light_payload,
  no_traffic_light_payload, traffic_light_unavailable_payload,
}
use green_right_topst_linux.Can.Rx.{CanHandler}
use green_right_topst_linux.Ipc.Send.{WriteResult, SendStatus, ipc_frame_send}

abbrev pub can_tx_channel_bitmask : ℕ
can_tx_channel_bitmask = 0x01

abbrev pub can_tx_only_channel_bitmask : ℕ
can_tx_only_channel_bitmask = 0x00

abbrev pub can_tx_id : ℕ
can_tx_id = 0x0100

-- What becomes of the eight CAN bytes: nothing, a log line, or a call of `ipc_frame_send`.
pub data Transmission : Type 0 where
  not_initialized device_not_open : Transmission
  mock_logged transmitted : List ℕ → Transmission

unfoldable pub transmission : CanHandler → List ℕ → Transmission
transmission handler can_data =
    if not handler.initialized
    then Transmission.not_initialized
    else if handler.tx_mock_mode
    then Transmission.mock_logged can_data
    else elim handler.fd [
      | none ↦ Transmission.device_not_open
      | some fd ↦ Transmission.transmitted can_data
    ]

-- The call of `ipc_frame_send`, given the answers of `write`.
unfoldable pub transmit : ℕ → Transmission → List WriteResult → Option (SendStatus × ℕ)
transmit eagain (Transmission.transmitted can_data) answers =
    ipc_frame_send eagain can_tx_channel_bitmask can_tx_only_channel_bitmask can_tx_id can_data
      answers
transmit eagain _ answers = none

unfoldable pub can_handler_send_frame : CanHandler → ℕ → ℕ → ℕ → Transmission
can_handler_send_frame handler message_id payload48 timestamp_epoch_ms =
    transmission handler (pack_can_data message_id (timestamp_epoch_ms % 2 ^ 12) payload48)

-- In the following the NTP module's epoch is the argument `sync_epoch_ms`.
unfoldable pub can_handler_send_ntp_sync : CanHandler → ℕ → ℕ → Transmission
can_handler_send_ntp_sync handler sync_epoch_ms sync_status = transmission handler (
    pack_can_data ntp_sync_msg_id (sync_epoch_ms % 2 ^ 12)
      (ntp_sync_payload sync_epoch_ms sync_status))

unfoldable pub can_handler_send_candidate_vehicle_intro : CanHandler → ℕ → ℕ → ℕ → ℕ → Transmission
can_handler_send_candidate_vehicle_intro handler type_mask cz_x cz_y timestamp_epoch_ms =
    can_handler_send_frame handler candidate_intro_msg_id
      (candidate_intro_payload type_mask cz_x cz_y) timestamp_epoch_ms

abbrev pub status_time : Option VehicleInfo → ℕ → ℕ
status_time none sync_epoch_ms = sync_epoch_ms
status_time (some vehicle) sync_epoch_ms = vehicle.timestamp_ms

unfoldable pub can_handler_send_candidate_vehicle_status :
    CanHandler → ℕ → Option VehicleInfo → ℕ → Transmission
can_handler_send_candidate_vehicle_status handler type_mask vehicle sync_epoch_ms =
    can_handler_send_frame handler candidate_status_msg_id
      (candidate_status_payload type_mask vehicle) (status_time vehicle sync_epoch_ms)

unfoldable pub can_handler_send_no_candidate_vehicle : CanHandler → ℕ → Transmission
can_handler_send_no_candidate_vehicle handler sync_epoch_ms =
    can_handler_send_candidate_vehicle_status handler candidate_status_type_none none sync_epoch_ms

unfoldable pub can_handler_send_candidate_vehicle_unavailable : CanHandler → ℕ → Transmission
can_handler_send_candidate_vehicle_unavailable handler sync_epoch_ms =
    can_handler_send_candidate_vehicle_status handler candidate_status_type_comm_error none
      sync_epoch_ms

unfoldable pub can_handler_send_traffic_light :
    CanHandler → ℕ → Option TrafficLight → ℕ → ℕ → ℕ → ℕ → Transmission
can_handler_send_traffic_light handler tl_id none cz_x cz_y maneuver sync_epoch_ms =
    can_handler_send_frame handler tl_status_msg_id
      (traffic_light_payload tl_id 0 0 cz_x cz_y maneuver) sync_epoch_ms
can_handler_send_traffic_light handler tl_id (some tl) cz_x cz_y maneuver sync_epoch_ms =
    can_handler_send_frame handler tl_status_msg_id
      (traffic_light_payload tl_id tl.color tl.time_left cz_x cz_y maneuver) tl.timestamp_ms

unfoldable pub can_handler_send_no_traffic_light : CanHandler → ℕ → ℕ → ℕ → ℕ → Transmission
can_handler_send_no_traffic_light handler cz_x cz_y maneuver sync_epoch_ms =
    can_handler_send_frame handler tl_status_msg_id (no_traffic_light_payload cz_x cz_y maneuver)
      sync_epoch_ms

unfoldable pub can_handler_send_traffic_light_unavailable : CanHandler → ℕ → ℕ → Transmission
can_handler_send_traffic_light_unavailable handler maneuver sync_epoch_ms =
    can_handler_send_frame handler tl_status_msg_id (traffic_light_unavailable_payload maneuver)
      sync_epoch_ms
