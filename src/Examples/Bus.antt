-- ===== src/Examples/Bus.antt =====
-- Frames, messages and the receive loop on concrete bytes.
use green_right_topst_linux.Base.{
  ℕ, ◌+◌, ◌≤◌, ◌<◌, ◌≡◌, refl, List, [], ◌∷◌, ◌++◌, Bool, true, false, none, some, length, take,
  drop, get_or, arith,
}
use green_right_topst_linux.Types.{EgoVehicle}
use green_right_topst_linux.Crc.{crc16_table, crc_byte, crc_loop, ipc_calc_crc16}
use green_right_topst_linux.Ipc.{IpcFrame, ipc_frame_parse, big_endian16}
use green_right_topst_linux.Ipc.Frame.{ipc_frame_parse-IsFrame, ipc_frame_parse_sound}
use green_right_topst_linux.Can.{decode_can_payload, decode_ego_status, raw_of_bytes}
use green_right_topst_linux.Can.Rx.{
  CanHandler, process_ipc_rx_buffer, received, can_handler_poll, rx_loop, rx_round, at_header,
  find_ipc_header, after_parse, handle_frame, consume_rx_bytes, emit_ego_with_diagnostics,
}
use green_right_topst_linux.Can.Rx.Header.{extend}
use green_right_topst_linux.Can.Rx.Chunks.{process_ipc_rx_buffer-append}
use green_right_topst_linux.Can.Rx.Stop.{process_ipc_rx_buffer_ends, can_handler_poll_keeps}
use green_right_topst_linux.Can.Rx.Deliver.{IsMessage, process_ipc_rx_buffer-stream}
use green_right_topst_linux.Can.Device.{blank_handler}
use green_right_topst_linux.EgoFrame.Mode.{fresh_context, rx_run}
use green_right_topst_linux.RxThread.{
  RxThread, World, RxEvent, rx_step, rx_stop, rx_turn, rx_thread_run,
}
use green_right_topst_linux.RxThread.Arrival.{rx_turn-stream}
use green_right_topst_linux.RxThread.Descriptors.{
  descriptors, of_fd, IsPlaced, descriptors-rx_thread_run,
}
use green_right_topst_linux.Examples.{receiver, readings, service}

-- An ego frame: time stamp 1, speed 2, x 3, y 4, heading 5, right turn signal.
abbrev pub ego_frame : List ℕ
ego_frame =
    0xff ∷ 0x55 ∷ 0xaa ∷ 1 ∷ 1 ∷ 0 ∷ 0 ∷ 0 ∷ 8 ∷ 0 ∷ 1 ∷ 0 ∷ 2 ∷ 0 ∷ 0xc0 ∷ 0x20 ∷ 0x15 ∷ 0xf2
    ∷ 0x65 ∷ []

abbrev pub ego : EgoVehicle
ego = record { x = 3; y = 4; speed = 2; heading = 5; turn_signal = 1; timestamp = 1 }

abbrev clock : ℕ → ℕ
clock n = 1000 + n

pub ego_frame-IsMessage : IsMessage (ego_frame, ego)
unfolding ipc_calc_crc16 crc_loop crc_byte crc16_table big_endian16 decode_can_payload
    decode_ego_status raw_of_bytes
ego_frame-IsMessage = record {
  whole = record {
    sync = refl;
    start1 = refl;
    start2 = refl;
    room = omega arith;
    fits = refl;
    checked = refl;
  };
  small = omega arith;
  carries = refl;
}

process_ipc_rx_buffer-stream_example :
    (h' : CanHandler) × (process_ipc_rx_buffer clock (receiver (ego_frame ++ ego_frame ++ []))
      ≡ some (true, h'))
    × (h'.rx_buffer ≡ [])
    × (h'.ego_calls ≡ ego ∷ ego ∷ [])
process_ipc_rx_buffer-stream_example =
    process_ipc_rx_buffer-stream clock (receiver (ego_frame ++ ego_frame ++ [])) (ego_frame, ego)
      ((ego_frame, ego) ∷ []) (ego_frame-IsMessage, (ego_frame-IsMessage, tt)) refl

first_chunk :
    process_ipc_rx_buffer clock (receiver (take 12 ego_frame))
    ≡ some (false, receiver (take 12 ego_frame))
unfolding process_ipc_rx_buffer rx_loop rx_round at_header find_ipc_header after_parse handle_frame
    consume_rx_bytes emit_ego_with_diagnostics ipc_frame_parse big_endian16
first_chunk = refl

abbrev after_frame : CanHandler
after_frame = record (receiver []) { ego_rx_count = 1; ego_rx_last_ms = 1000; ego_calls = ego ∷ [] }

second_chunk : process_ipc_rx_buffer clock (receiver ego_frame) ≡ some (true, after_frame)
unfolding process_ipc_rx_buffer rx_loop rx_round at_header find_ipc_header after_parse handle_frame
    consume_rx_bytes emit_ego_with_diagnostics ipc_frame_parse big_endian16 ipc_calc_crc16 crc_loop
    crc_byte crc16_table decode_can_payload decode_ego_status raw_of_bytes
second_chunk = refl

process_ipc_rx_buffer-append_example :
    process_ipc_rx_buffer clock (extend (receiver (take 12 ego_frame)) (drop 12 ego_frame))
    ≡ some (true, after_frame)
process_ipc_rx_buffer-append_example =
    process_ipc_rx_buffer-append clock (receiver (take 12 ego_frame)) (receiver (take 12 ego_frame))
      after_frame (drop 12 ego_frame) false true first_chunk second_chunk

process_ipc_rx_buffer_ends_example :
    (processed : Bool) × (h' : CanHandler) × (process_ipc_rx_buffer clock (receiver ego_frame)
      ≡ some (processed, h'))
    × (length h'.rx_buffer < 0x400)
process_ipc_rx_buffer_ends_example = process_ipc_rx_buffer_ends clock (receiver ego_frame)

can_handler_poll_keeps_example :
    (can_handler_poll clock (receiver (take 12 ego_frame)) (received (drop 12 ego_frame))
      ≡ process_ipc_rx_buffer clock (receiver ego_frame))
    × (processed : Bool) × (h' : CanHandler) × (can_handler_poll clock
          (receiver (take 12 ego_frame))
          (received (drop 12 ego_frame))
        ≡ some (processed, h'))
    × (length h'.rx_buffer < 0x400)
can_handler_poll_keeps_example =
    can_handler_poll_keeps clock (receiver (take 12 ego_frame)) (drop 12 ego_frame) refl refl
      (omega arith) (omega arith) (omega arith)

abbrev no_frame : IpcFrame
no_frame = record { can_id = 0; bytes = []; data_len = 0 }

abbrev ego_data : IpcFrame
ego_data = record { can_id = 0; bytes = take 8 (drop 9 ego_frame); data_len = 8 }

ipc_frame_parse_sound_example :
    (get_or ego_frame 0 0 ≡ 0xff)
    × (get_or ego_frame 1 0 ≡ 0x55)
    × (get_or ego_frame 2 0 ≡ 0xaa)
    × (big_endian16 (get_or ego_frame 17 0) (get_or ego_frame 18 0) ≡ ipc_calc_crc16 ego_frame 17)
    × (ego_data.bytes ≡ take 8 (drop 9 ego_frame))
    × (8 ≤ ego_data.data_len)
    × (9 + ego_data.data_len ≤ 19)
    × (ego_data.data_len ≤ big_endian16 (get_or ego_frame 7 0) (get_or ego_frame 8 0))
ipc_frame_parse_sound_example =
    ipc_frame_parse_sound ego_frame 19
      (ipc_frame_parse-IsFrame ego_frame 19 ego_frame-IsMessage.whole)

abbrev rx_start : RxThread
rx_start = record {
  running = true;
  can_dev_path = none;
  can_rx_mock = false;
  can_tx_mock = false;
  can = blank_handler false false;
  context = fresh_context 1;
  polling = false;
}

abbrev pub arrival : World
arrival = record {
  answer = some 3;
  clock = clock;
  input = received ego_frame;
  readings = λ n. readings;
}

-- The device cannot be opened, then it can; a frame arrives; the program stops.
abbrev rx_events : List RxEvent
rx_events =
    rx_step (record arrival { answer = none })
    ∷ rx_step arrival
    ∷ rx_step arrival
    ∷ rx_stop
    ∷ rx_step arrival
    ∷ []

rx_start-IsPlaced : IsPlaced rx_start
rx_start-IsPlaced = record { placed = (refl, refl) }

descriptors-rx_thread_run_example :
    (descriptors [] (rx_thread_run service rx_start rx_events).1
      ≡ of_fd (rx_thread_run service rx_start rx_events).0.can.fd)
    × IsPlaced (rx_thread_run service rx_start rx_events).0
descriptors-rx_thread_run_example =
    descriptors-rx_thread_run service rx_start rx_events rx_start-IsPlaced

abbrev polling : RxThread
polling = record rx_start { can = receiver []; polling = true }

abbrev two_frames : List ℕ
two_frames = ego_frame ++ ego_frame ++ []

rx_turn-stream_example :
    ((rx_turn service polling (record arrival { input = received two_frames })).0.can.rx_buffer
      ≡ [])
    × ((rx_turn service polling (record arrival { input = received two_frames })).0.context
        ≡ rx_run service (fresh_context 1) ((readings, ego) ∷ (readings, ego) ∷ []))
rx_turn-stream_example =
    rx_turn-stream service polling arrival two_frames (ego_frame, ego) ((ego_frame, ego) ∷ []) refl
      refl refl refl (omega arith) (omega arith) (omega arith) refl
      (ego_frame-IsMessage, (ego_frame-IsMessage, tt))
