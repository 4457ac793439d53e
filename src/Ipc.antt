-- ===== src/Ipc.antt =====
-- common/ipc_frame.h and common/ipc_frame.c: frames on the IPC character device.
-- A buffer is the list of its bytes. `length` and `&` are read as the C code computes them, with
-- the cast to `uint16_t` written out. A pointer into the buffer is the list of the bytes it covers.
pub mod Frame
pub mod Send
pub mod Extend
use green_right_topst_linux.Base.{
  ℕ, ◌+◌, ◌-◌, ◌*◌, ◌/◌, ◌%◌, ◌^◌, bit_and, bit_or, List, [], ◌∷◌, ◌++◌, Option, none, some, not,
  ◌||◌, ltb, leb, ◌==◌, if◌then◌else◌, length, get_or, take, drop, Str, codes,
}
use green_right_topst_linux.Crc.{ipc_calc_crc16}

abbrev pub ipc_sync : ℕ
ipc_sync = 0xff

abbrev pub ipc_start1 : ℕ
ipc_start1 = 0x55

abbrev pub ipc_start2 : ℕ
ipc_start2 = 0xaa

abbrev pub ipc_packet_prepare_size : ℕ
ipc_packet_prepare_size = 9

abbrev pub ipc_packet_crc_size : ℕ
ipc_packet_crc_size = 2

abbrev pub ipc_max_packet_size : ℕ
ipc_max_packet_size = 0x400

abbrev pub ipc_frame_tx_cmd1 : ℕ
ipc_frame_tx_cmd1 = 0x05

abbrev pub ipc_frame_tx_cmd2 : ℕ
ipc_frame_tx_cmd2 = 0x01

abbrev pub ipc_frame_tx_header_size : ℕ
ipc_frame_tx_header_size = 4

pub data IpcParseResult : Type 0 where
  parse_ok too_short header_mismatch length_invalid crc_mismatch : IpcParseResult

unfoldable pub ipc_frame_parse_result_str : IpcParseResult → Str
ipc_frame_parse_result_str parse_ok = codes "OK"
ipc_frame_parse_result_str too_short = codes "frame too short"
ipc_frame_parse_result_str header_mismatch = codes "SYNC/START header mismatch"
ipc_frame_parse_result_str length_invalid =
    codes "LENGTH field invalid (too short for 8-byte CAN data)"
ipc_frame_parse_result_str crc_mismatch = codes "CRC mismatch"

pub record IpcFrame : Type 0 where
  pub can_id : ℕ
  pub bytes : List ℕ
  pub data_len : ℕ

-- `memset(out_frame, 0, sizeof(*out_frame))`
abbrev pub blank_frame : IpcFrame
blank_frame = record { can_id = 0; bytes = []; data_len = 0 }

-- Two bytes, the high one first, as a `uint16_t`.
unfoldable pub big_endian16 : ℕ → ℕ → ℕ
big_endian16 hi lo = bit_or (hi * 2 ^ 8) lo % 2 ^ 16

-- `len` is not negative: the only caller passes the length of a frame it has received.
unfoldable pub ipc_frame_parse : List ℕ → ℕ → IpcParseResult × IpcFrame
ipc_frame_parse buf len =
    if ltb len (ipc_packet_prepare_size + ipc_packet_crc_size)
    then (too_short, blank_frame)
    else if not (at 0 == ipc_sync) || not (at 1 == ipc_start1) || not (at 2 == ipc_start2)
    then (header_mismatch, blank_frame)
    else if ltb taken 8
    then (length_invalid, blank_frame)
    else if big_endian16 (at (len - 2)) (at (len - 1)) == ipc_calc_crc16 buf (len - 2)
    then (parse_ok, frame)
    else (crc_mismatch, frame)
  where
    at : ℕ → ℕ
    at i = get_or buf i 0

    avail : ℕ
    avail = len - ipc_packet_prepare_size

    taken : ℕ
    taken = if leb (big_endian16 (at 7) (at 8)) avail then big_endian16 (at 7) (at 8) else avail

    frame : IpcFrame
    frame = record {
      can_id = 0;
      bytes = take taken (drop ipc_packet_prepare_size buf);
      data_len = taken;
    }

-- `(uint8_t)((v >> 8) & 0xFF)` and `(uint8_t)(v & 0xFF)`
unfoldable pub high_byte : ℕ → ℕ
high_byte v = bit_and (v / 2 ^ 8) 0xff % 2 ^ 8

unfoldable pub low_byte : ℕ → ℕ
low_byte v = bit_and v 0xff % 2 ^ 8

-- The bytes before the CAN data: SYNC to LENGTH, then the TX header.
pub tx_prefix : ℕ → ℕ → ℕ → ℕ → List ℕ
tx_prefix channel_bitmask tx_only_channel_bitmask can_id payload_size =
    ipc_sync
    ∷ ipc_start1
    ∷ ipc_start2
    ∷ high_byte ipc_frame_tx_cmd1
    ∷ low_byte ipc_frame_tx_cmd1
    ∷ high_byte ipc_frame_tx_cmd2
    ∷ low_byte ipc_frame_tx_cmd2
    ∷ high_byte (payload_size % 2 ^ 16)
    ∷ low_byte (payload_size % 2 ^ 16)
    ∷ channel_bitmask
    ∷ tx_only_channel_bitmask
    ∷ high_byte can_id
    ∷ low_byte can_id
    ∷ []

-- The `total_size` bytes that are written to `out_buf`, of capacity `out_cap`; `none` is -1.
unfoldable pub ipc_frame_build : ℕ → ℕ → ℕ → List ℕ → ℕ → Option (List ℕ)
unfolding tx_prefix
ipc_frame_build channel_bitmask tx_only_channel_bitmask can_id payload out_cap =
    if length payload == 0
    then none
    else if ltb 0xffff payload_size || ltb out_cap total_size
    then none
    else some (packet ++ high_byte crc ∷ low_byte crc ∷ [])
  where
    payload_size : ℕ
    payload_size = ipc_frame_tx_header_size + length payload

    packet_size : ℕ
    packet_size = ipc_packet_prepare_size + payload_size

    total_size : ℕ
    total_size = packet_size + ipc_packet_crc_size

    packet : List ℕ
    packet = tx_prefix channel_bitmask tx_only_channel_bitmask can_id payload_size ++ payload

    crc : ℕ
    crc = ipc_calc_crc16 packet packet_size
