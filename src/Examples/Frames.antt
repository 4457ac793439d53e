-- ===== src/Examples/Frames.antt =====
-- Frames, payloads and time stamps on concrete numbers.
use green_right_topst_linux.Base.{
  inl, inr, ℕ, ◌-◌, ◌/◌, ◌%◌, ◌^◌, ◌<◌, ◌≡◌, refl, List, [], ◌∷◌, ◌++◌, some, length, arith,
}
use green_right_topst_linux.Types.{VehicleInfo, blank_vehicle}
use green_right_topst_linux.Crc.{crc_loop}
use green_right_topst_linux.Crc.Poly.{register_loop, crc_loop-register_loop}
use green_right_topst_linux.Ipc.{parse_ok, ipc_frame_parse, high_byte, low_byte}
use green_right_topst_linux.Ipc.Frame.{built, ipc_frame_build_fits, ipc_frame_parse-ipc_frame_build}
use green_right_topst_linux.Ipc.Send.{wrote, failed, sent, ipc_frame_send, ipc_frame_send_retries}
use green_right_topst_linux.Can.{pack_can_data, decode_can_payload, traffic_light_payload}
use green_right_topst_linux.Can.Codec.{ego_of, decode_can_payload-pack_can_data}
use green_right_topst_linux.Can.Payload.{traffic_light_payload_fields}
use green_right_topst_linux.Ntp.{ntp_time_reconstruct}
use green_right_topst_linux.Ntp.Reconstruct.{ntp_time_reconstruct_wraps}

abbrev payload : List ℕ
payload = 0x50 ∷ 1 ∷ 2 ∷ 3 ∷ 4 ∷ 5 ∷ 6 ∷ 7 ∷ []

ipc_frame_parse-ipc_frame_build_example :
    (length (built 1 0 0x100 payload) ≡ 23)
    × (ipc_frame_parse (built 1 0 0x100 payload ++ 9 ∷ []) (length (built 1 0 0x100 payload)) ≡ (
      parse_ok,
      record {
        can_id = 0;
        bytes = 1 ∷ 0 ∷ high_byte 0x100 ∷ low_byte 0x100 ∷ payload;
        data_len = 12;
      },
    ))
ipc_frame_parse-ipc_frame_build_example =
    ipc_frame_parse-ipc_frame_build 1 0 0x100 payload (9 ∷ []) 1024 (omega arith) (
      ipc_frame_build_fits 1 0 0x100 payload 1024 (λ e. omega (arith, e)) (omega arith)
        (omega arith))

ipc_frame_send_retries_example :
    ipc_frame_send 11 1 0 0x100 payload (failed 62 ∷ failed 11 ∷ wrote 23 ∷ []) ≡ some (sent, 2)
ipc_frame_send_retries_example =
    ipc_frame_send_retries 11 1 0 0x100 payload (failed 62 ∷ failed 11 ∷ []) [] (wrote 23)
      (λ e. omega (arith, e)) (omega arith) (inl refl, (inr refl, tt)) (λ h. h)

crc_loop-register_loop_example : crc_loop 0 (1 ∷ 255 ∷ []) ≡ register_loop 0 (1 ∷ 255 ∷ [])
crc_loop-register_loop_example =
    crc_loop-register_loop 0 (1 ∷ 255 ∷ []) (omega arith) (omega arith, (omega arith, tt))

decode_can_payload-pack_can_data_example :
    decode_can_payload (pack_can_data 0 5000 77 ++ 1 ∷ []) 8 ≡ some (ego_of 5000 77)
decode_can_payload-pack_can_data_example =
    decode_can_payload-pack_can_data 0 5000 77 (1 ∷ []) 8 (omega arith)

abbrev vehicle : VehicleInfo
vehicle = record blank_vehicle { x = 1030; y = 7; speed = 300; heading = 90 }

-- A time left of 30 s arrives as 14 s.
traffic_light_payload_fields_example :
    let p = traffic_light_payload 2 1 30 500 600 1 in
    (p < 2 ^ 40)
    × (p / 2 ^ 32 ≡ 2)
    × (p / 2 ^ 30 % 4 ≡ 1)
    × (p / 2 ^ 26 % 16 ≡ 14)
    × (p / 2 ^ 16 % 1024 ≡ 500)
    × (p / 2 ^ 5 % 2048 ≡ 600)
    × (p / 2 ^ 3 % 4 ≡ 1)
traffic_light_payload_fields_example = traffic_light_payload_fields 2 1 30 500 600 1

ntp_time_reconstruct_wraps_example : ntp_time_reconstruct 4000 100 ≡ 2 ^ 64 - 96
ntp_time_reconstruct_wraps_example = ntp_time_reconstruct_wraps 4000 100 (omega arith) (omega arith)
