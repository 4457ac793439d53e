-- ===== src/Can/Rx.antt =====
-- handler/can_handler.c, receiving: the handler's state, resynchronisation on the byte stream, and
-- `can_handler_poll`.
-- The handler's `rx_buffer` is the list of its first `rx_buffer_len` bytes. The calls of the
-- callback `on_ego` are recorded in `ego_calls`, oldest first; `clock n` is the monotonic clock when
-- the n-th frame is delivered.
pub mod Stop
pub mod Keeps
pub mod Deliver
pub mod Header
pub mod Resume
pub mod Chunks
use green_right_topst_linux.Base.{
  ℕ, zero, suc, ◌+◌, ◌-◌, ◌*◌, ◌%◌, ◌^◌, ◌≡◌, List, [], ◌∷◌, ◌++◌, Option, none, some, Bool, true,
  false, ◌&&◌, ◌||◌, ltb, leb, ◌==◌, if◌then◌else◌, length, get_or, drop,
}
use green_right_topst_linux.Types.{EgoVehicle, turn_signal_right}
use green_right_topst_linux.Ipc.{
  IpcFrame, IpcParseResult, parse_ok, big_endian16, ipc_frame_parse, ipc_packet_prepare_size,
  ipc_packet_crc_size, ipc_max_packet_size, ipc_sync, ipc_start1, ipc_start2,
}
use green_right_topst_linux.Can.{decode_can_payload}

abbrev pub can_handler_rx_buffer_size : ℕ
can_handler_rx_buffer_size = 4096

-- `fd` is `none` while it is negative.
pub record CanHandler : Type 0 where
  pub fd : Option ℕ
  pub rx_mock_mode : Bool
  pub tx_mock_mode : Bool
  pub mock_tick : ℕ
  pub rx_buffer : List ℕ
  pub ego_rx_count : ℕ
  pub ego_rx_last_ms : ℕ
  pub ego_rx_last_gap_ms : ℕ
  pub ego_rx_max_gap_ms : ℕ
  pub initialized : Bool
  pub ego_calls : List EgoVehicle

-- `emit_ego_with_diagnostics`, with the logging that is compiled out left away.
unfoldable pub emit_ego_with_diagnostics : ℕ → CanHandler → EgoVehicle → CanHandler
emit_ego_with_diagnostics now_ms h ego =
    let seen = if h.ego_rx_last_ms == 0 then false else true in
    let gap_ms = if seen then (now_ms + 2 ^ 64 - h.ego_rx_last_ms) % 2 ^ 64 else 0 in
    record h {
      ego_rx_max_gap_ms = if ltb h.ego_rx_max_gap_ms gap_ms then gap_ms else h.ego_rx_max_gap_ms;
      ego_rx_count = (h.ego_rx_count + 1) % 2 ^ 64;
      ego_rx_last_ms = now_ms;
      ego_rx_last_gap_ms = gap_ms;
      ego_calls = h.ego_calls ++ ego ∷ [];
    }

unfoldable pub consume_rx_bytes : CanHandler → ℕ → CanHandler
consume_rx_bytes h count =
    if leb (length h.rx_buffer) count
    then record h { rx_buffer = [] }
    else record h { rx_buffer = drop count h.rx_buffer }

-- The offset of the first header, or the length.
unfoldable pub find_ipc_header : List ℕ → ℕ
find_ipc_header [] = 0
find_ipc_header (a ∷ []) = 1
find_ipc_header (a ∷ b ∷ []) = 2
find_ipc_header (a ∷ b ∷ c ∷ rest) =
    let later = suc (find_ipc_header (b ∷ c ∷ rest)) in
    if a == ipc_sync && b == ipc_start1 && c == ipc_start2 then 0 else later

-- How a round of the loop ends: by `break`, or on to the next with what is set in `processed`.
pub data Round : Type 0 where
  stop : CanHandler → Round
  next : Bool → CanHandler → Round

-- A decoded frame is emitted; any other is dropped whole.
unfoldable pub handle_frame : (ℕ → ℕ) → CanHandler → ℕ → IpcFrame → Round
handle_frame clock h frame_length frame = elim (decode_can_payload frame.bytes frame.data_len) [
  | none ↦ next false (consume_rx_bytes h frame_length)
  | some ego ↦
      next true
        (consume_rx_bytes (emit_ego_with_diagnostics (clock h.ego_rx_count) h ego) frame_length)
]

-- A frame that has arrived whole is handled, or skipped by one byte if it does not parse.
unfoldable pub after_parse : (ℕ → ℕ) → CanHandler → ℕ → IpcParseResult × IpcFrame → Round
after_parse clock h frame_length (IpcParseResult.parse_ok, frame) =
    handle_frame clock h frame_length frame
after_parse clock h frame_length (result, frame) = next false (consume_rx_bytes h 1)

-- From a header at the front of the buffer.
unfoldable pub at_header : (ℕ → ℕ) → CanHandler → Round
at_header clock h =
    let buffered = length h.rx_buffer in
    let payload_length = big_endian16 (get_or h.rx_buffer 7 0) (get_or h.rx_buffer 8 0) in
    let frame_length = ipc_packet_prepare_size + payload_length + ipc_packet_crc_size in
    if ltb buffered ipc_packet_prepare_size
    then stop h
    else if ltb payload_length 8 || ltb ipc_max_packet_size frame_length
    then next false (consume_rx_bytes h 1)
    else if ltb buffered frame_length
    then stop h
    else after_parse clock h frame_length (ipc_frame_parse h.rx_buffer frame_length)

-- The body of `while (handler->rx_buffer_len > 0)`.
unfoldable pub rx_round : (ℕ → ℕ) → CanHandler → Round
rx_round clock h =
    let header_offset = find_ipc_header h.rx_buffer in
    let buffered = length h.rx_buffer in
    if header_offset == buffered
    then stop (if ltb 2 buffered then consume_rx_bytes h (buffered - 2) else h)
    else at_header clock (if ltb 0 header_offset then consume_rx_bytes h header_offset else h)

-- What follows a round, `go` being the rest of the loop and `processed` the flag so far.
abbrev pub after_round :
    (Bool → CanHandler → Option (Bool × CanHandler)) → Bool → Round → Option (Bool × CanHandler)
after_round go processed (stop h) = some (processed, h)
after_round go processed (next done h) = go (processed || done) h

-- The loop on fuel, `none` if it runs out.
unfoldable pub rx_loop : (ℕ → ℕ) → ℕ → Bool → CanHandler → Option (Bool × CanHandler)
rx_loop clock zero processed h = none
rx_loop clock (suc fuel) processed h = elim (length h.rx_buffer == 0) [
  | true ↦ some (processed, h)
  | false ↦ after_round (rx_loop clock fuel) processed (rx_round clock h)
]

-- Each round but the last takes at least one byte, so that the buffer's length is fuel enough.
unfoldable pub process_ipc_rx_buffer : (ℕ → ℕ) → CanHandler → Option (Bool × CanHandler)
process_ipc_rx_buffer clock h = rx_loop clock (suc (length h.rx_buffer)) false h

-- `poll_mock`: made-up ego states, always inside the map with the right signal on.
unfoldable pub poll_mock : CanHandler → Bool × CanHandler
poll_mock h = (
  true,
  record h {
    mock_tick = (h.mock_tick + 1) % 2 ^ 16;
    ego_calls =
        h.ego_calls
        ++ record {
          x = (255 + h.mock_tick % 20) % 2 ^ 16;
          y = (70 + h.mock_tick % 35) % 2 ^ 16;
          speed = 30;
          heading = 0;
          turn_signal = turn_signal_right;
          timestamp = h.mock_tick;
        }
          ∷ [];
  },
)

-- What `select` and then `read` answer.
pub data Input : Type 0 where
  select_failed timed_out read_failed : Input
  received : List ℕ → Input

unfoldable pub receive : (ℕ → ℕ) → CanHandler → List ℕ → Option (Bool × CanHandler)
receive clock h bytes =
    let n = length bytes in
    let roomy =
      if ltb (can_handler_rx_buffer_size - length h.rx_buffer) n
      then record h { rx_buffer = [] }
      else h in
    if n == 0
    then some (false, h)
    else if ltb can_handler_rx_buffer_size n
    then some (false, roomy)
    else process_ipc_rx_buffer clock (record roomy { rx_buffer = roomy.rx_buffer ++ bytes })

unfoldable pub can_handler_poll : (ℕ → ℕ) → CanHandler → Input → Option (Bool × CanHandler)
can_handler_poll clock h input =
    if h.initialized
    then (if h.rx_mock_mode
        then some (poll_mock h)
        else elim input [ received bytes ↦ receive clock h bytes | _ ↦ some (false, h) ])
    else some (false, h)
