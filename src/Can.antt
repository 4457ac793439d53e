-- ===== src/Can.antt =====
-- handler/can_handler.c: the 64-bit CAN messages inside IPC frames.
-- A `uint64_t` wraps at 2^64; `<<` is `* 2 ^ k`, `>>` is `/ 2 ^ k`.
pub mod Codec
pub mod Payload
pub mod Rx
pub mod Device
use green_right_topst_linux.Base.{
  ℕ, zero, suc, ◌+◌, ◌-◌, ◌*◌, ◌/◌, ◌%◌, ◌^◌, bit_and, bit_or, List, [], ◌∷◌, Option, none, some,
  ltb, ◌==◌, if◌then◌else◌, take,
}
use green_right_topst_linux.Types.{EgoVehicle, VehicleInfo, blank_vehicle}

abbrev pub ego_frame_msg_id : ℕ
ego_frame_msg_id = 0x0

abbrev pub ntp_sync_msg_id : ℕ
ntp_sync_msg_id = 0x2

abbrev pub candidate_intro_msg_id : ℕ
candidate_intro_msg_id = 0x4

abbrev pub candidate_status_msg_id : ℕ
candidate_status_msg_id = 0x5

abbrev pub candidate_status_type_none : ℕ
candidate_status_type_none = 0x00

abbrev pub candidate_status_type_comm_error : ℕ
candidate_status_type_comm_error = 0x80

abbrev pub tl_status_msg_id : ℕ
tl_status_msg_id = 0x6

abbrev pub tl_status_id_none : ℕ
tl_status_id_none = 0x00

abbrev pub tl_status_id_comm_error : ℕ
tl_status_id_comm_error = 0x80

-- `(v & mask) << shift` on `uint64_t`
unfoldable pub field : ℕ → ℕ → ℕ → ℕ
field v mask shift = bit_and v mask * 2 ^ shift % 2 ^ 64

unfoldable pub decode_ego_status : ℕ → ℕ → EgoVehicle
decode_ego_status timestamp payload48 = record {
  x = bit_and (payload48 / 2 ^ 22) 0x3ff % 2 ^ 16;
  y = bit_and (payload48 / 2 ^ 11) 0x7ff % 2 ^ 16;
  speed = bit_and (payload48 / 2 ^ 32) 0xff % 2 ^ 8;
  heading = bit_and (payload48 / 2 ^ 2) 0x1ff % 2 ^ 16;
  turn_signal = bit_and (payload48 / 2 ^ 0) 0x3 % 2 ^ 8;
  timestamp = timestamp;
}

-- `for (i = 0; i < 8; i++) raw = (raw << 8) | data[i];`
unfoldable pub raw_of_bytes : ℕ → List ℕ → ℕ
raw_of_bytes raw [] = raw
raw_of_bytes raw (b ∷ bs) = raw_of_bytes (bit_or (raw * 2 ^ 8 % 2 ^ 64) b) bs

-- `none` is a return of false. The caller's `data` has at least `dlc` bytes.
unfoldable pub decode_can_payload : List ℕ → ℕ → Option EgoVehicle
decode_can_payload bytes dlc =
    if ltb dlc 8
    then none
    else (let raw = raw_of_bytes 0 (take 8 bytes) in
        let message_id = bit_and (raw / 2 ^ 60) 0xf % 2 ^ 8 in
        let timestamp = bit_and (raw / 2 ^ 48) 0xfff % 2 ^ 16 in
        if message_id == ego_frame_msg_id
        then some (decode_ego_status timestamp (bit_and raw 0xffffffffffff))
        else none)

-- `for (i = 7; i >= 0; i--) { out8[i] = raw & 0xFF; raw >>= 8; }`, from the bytes already written.
unfoldable pub bytes_of_raw : ℕ → ℕ → List ℕ → List ℕ
bytes_of_raw zero raw out = out
bytes_of_raw (suc n) raw out = bytes_of_raw n (raw / 2 ^ 8) ((bit_and raw 0xff % 2 ^ 8) ∷ out)

unfoldable pub raw_frame : ℕ → ℕ → ℕ → ℕ
raw_frame message_id timestamp payload48 =
    bit_or (bit_or (field message_id 0xf 60) (field timestamp 0xfff 48))
      (bit_and payload48 0xffffffffffff)

unfoldable pub pack_can_data : ℕ → ℕ → ℕ → List ℕ
unfolding raw_frame bytes_of_raw
pack_can_data message_id timestamp payload48 =
    bytes_of_raw 8 (raw_frame message_id timestamp payload48) []

-- The payload of `can_handler_send_ntp_sync`.
unfoldable pub ntp_sync_payload : ℕ → ℕ → ℕ
ntp_sync_payload sync_epoch_ms sync_status = bit_or (field sync_epoch_ms 0xffffffffff 8) sync_status

-- The payload of `can_handler_send_candidate_vehicle_intro`.
unfoldable pub candidate_intro_payload : ℕ → ℕ → ℕ → ℕ
candidate_intro_payload type_mask cz_x cz_y =
    bit_or (bit_or (field type_mask 0xff 32) (field cz_x 0x3ff 22)) (field cz_y 0x7ff 11)

-- The locals of `can_handler_send_candidate_vehicle_status`: all 0 if `vehicle` is null (`none`).
abbrev pub vehicle_or_zero : Option VehicleInfo → VehicleInfo
vehicle_or_zero none = blank_vehicle
vehicle_or_zero (some v) = v

-- The payload of `can_handler_send_candidate_vehicle_status`.
unfoldable pub candidate_status_payload : ℕ → Option VehicleInfo → ℕ
candidate_status_payload type_mask vehicle =
    let v = vehicle_or_zero vehicle in
    bit_or
      (bit_or
        (bit_or (bit_or (field type_mask 0xff 40) (field v.speed 0xff 32)) (field v.x 0x3ff 22))
        (field v.y 0x7ff 11))
      (field v.heading 0x1ff 2)

-- The payload of `can_handler_send_traffic_light`.
unfoldable pub traffic_light_payload : ℕ → ℕ → ℕ → ℕ → ℕ → ℕ → ℕ
traffic_light_payload tl_id color time_left cz_x cz_y maneuver =
    bit_or
      (bit_or
        (bit_or
          (bit_or (bit_or (field tl_id 0xff 32) (field color 0x3 30)) (field time_left 0xf 26))
          (field cz_x 0x3ff 16))
        (field cz_y 0x7ff 5))
      (field maneuver 0x3 3)

-- The payload of `can_handler_send_no_traffic_light`.
unfoldable pub no_traffic_light_payload : ℕ → ℕ → ℕ → ℕ
no_traffic_light_payload cz_x cz_y maneuver =
    bit_or (bit_or (bit_or (tl_status_id_none * 2 ^ 32) (field cz_x 0x3ff 16)) (field cz_y 0x7ff 5))
      (field maneuver 0x3 3)

-- The payload of `can_handler_send_traffic_light_unavailable`.
unfoldable pub traffic_light_unavailable_payload : ℕ → ℕ
traffic_light_unavailable_payload maneuver =
    bit_or (tl_status_id_comm_error * 2 ^ 32) (field maneuver 0x3 3)
