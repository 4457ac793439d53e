-- ===== src/Can/Codec.antt =====
-- The packing of CAN messages and its inverse, field by field.
use green_right_topst_linux.Base.{
  ℕ, zero, suc, ◌+◌, ◌*◌, ◌/◌, ◌%◌, ◌^◌, ◌≤◌, ◌<◌, ◌≡◌, refl, sym, ap, ◌∙◌, bit_and, List, All,
  take-append, [], ◌∷◌, ◌++◌, none, some, ◌==◌, if◌then◌else◌, arith, length, bit_and_low,
  bit_or_shifted,
}
use native.Mathlib.Nat.{pow-suc}
use green_right_topst_linux.Types.{EgoVehicle}
use green_right_topst_linux.Can.{
  field, decode_ego_status, raw_of_bytes, decode_can_payload, bytes_of_raw, raw_frame,
  pack_can_data,
}

raw_frame_lem : (m t p : ℕ) → raw_frame m t p ≡ m % 16 * 2 ^ 60 + t % 4096 * 2 ^ 48 + p % 2 ^ 48
unfolding raw_frame field
raw_frame_lem m t p =
    let fm : bit_and m 15 * 2 ^ 60 % 2 ^ 64 ≡ m % 16 * 2 ^ 60 = omega (arith, bit_and_low 4 m) in
    let ft : bit_and t 4095 * 2 ^ 48 % 2 ^ 64 ≡ t % 4096 * 2 ^ 48 =
      omega (arith, bit_and_low 12 t) in
    let fp : bit_and p 0xffffffffffff ≡ p % 2 ^ 48 = bit_and_low 48 p in
    let up : m % 16 * 2 ^ 60 + t % 4096 * 2 ^ 48 ≡ (m % 16 * 4096 + t % 4096) * 2 ^ 48 =
      omega arith in
    rw (fm, ft, fp, bit_or_shifted 60 (m % 16) (t % 4096 * 2 ^ 48) (omega arith))
      (rw up (bit_or_shifted 48 (m % 16 * 4096 + t % 4096) (p % 2 ^ 48) (omega arith)))

raw_of_bytes_step :
    (raw b : ℕ) (bs : List ℕ)
    → raw < 2 ^ 56
    → b < 256
    → raw_of_bytes raw (b ∷ bs) ≡ raw_of_bytes (raw * 256 + b) bs
unfolding raw_of_bytes
raw_of_bytes_step raw b bs h k =
    let w : raw * 2 ^ 8 % 2 ^ 64 ≡ raw * 256 = omega arith in rw (w, bit_or_shifted 8 raw b k)

length-bytes_of_raw : (n raw : ℕ) (out : List ℕ) → length (bytes_of_raw n raw out) ≡ n + length out
unfolding bytes_of_raw
length-bytes_of_raw zero raw out = omega arith
length-bytes_of_raw (suc n) raw out =
    omega (arith, length-bytes_of_raw n (raw / 2 ^ 8) ((bit_and raw 0xff % 2 ^ 8) ∷ out))

bytes_of_raw-IsByte :
    (n raw : ℕ) (out : List ℕ)
    → All (λ b. b < 256) out
    → All (λ b. b < 256) (bytes_of_raw n raw out)
unfolding bytes_of_raw
bytes_of_raw-IsByte zero raw out h = h
bytes_of_raw-IsByte (suc n) raw out h =
    bytes_of_raw-IsByte n (raw / 2 ^ 8) ((bit_and raw 0xff % 2 ^ 8) ∷ out) (omega arith, h)

raw-bytes_of_raw :
    (n raw : ℕ) (out : List ℕ)
    → raw < 256 ^ n
    → raw < 2 ^ 64
    → raw_of_bytes 0 (bytes_of_raw n raw out) ≡ raw_of_bytes raw out
unfolding bytes_of_raw
raw-bytes_of_raw zero raw out h k = let z : 0 ≡ raw = omega arith in rw z
raw-bytes_of_raw (suc n) raw out h k =
    let low : bit_and raw 0xff % 2 ^ 8 ≡ raw % 256 = omega (arith, bit_and_low 8 raw) in
    let whole : raw / 256 * 256 + raw % 256 ≡ raw = omega arith in
    rw low (
      raw-bytes_of_raw n (raw / 256) ((raw % 256) ∷ out) (omega (arith, pow-suc 256 n))
        (omega arith)
      ∙ raw_of_bytes_step (raw / 256) (raw % 256) out (omega arith) (omega arith)
      ∙ ap (λ r. raw_of_bytes r out) whole)

raw_frame-lt : (m t p : ℕ) → raw_frame m t p < 2 ^ 64
raw_frame-lt m t p = omega (arith, raw_frame_lem m t p)

-- The eight bytes of a message are the big-endian digits of its 64-bit word.
pub raw-pack_can_data :
    (m t p : ℕ)
    → (raw_of_bytes 0 (pack_can_data m t p) ≡ m % 16 * 2 ^ 60 + t % 4096 * 2 ^ 48 + p % 2 ^ 48)
      × (length (pack_can_data m t p) ≡ 8)
      × All (λ b. b < 256) (pack_can_data m t p)
unfolding pack_can_data raw_of_bytes
raw-pack_can_data m t p = (
  raw-bytes_of_raw 8 (raw_frame m t p) [] (raw_frame-lt m t p) (raw_frame-lt m t p)
      ∙ raw_frame_lem m t p,
  omega (arith, length-bytes_of_raw 8 (raw_frame m t p) []),
  bytes_of_raw-IsByte 8 (raw_frame m t p) [] tt,
)

decode_raw :
    (bytes rest : List ℕ) (dlc raw : ℕ)
    → length bytes ≡ 8
    → 8 ≤ dlc
    → raw_of_bytes 0 bytes ≡ raw
    → decode_can_payload (bytes ++ rest) dlc ≡ (
        if raw / 2 ^ 60 % 16 == 0
        then some (decode_ego_status (raw / 2 ^ 48 % 4096) (raw % 2 ^ 48))
        else none)
unfolding decode_can_payload
decode_raw bytes rest dlc raw h k e =
    rw (take-append bytes rest 8 (sym h), e)
      (ground
        (arith, bit_and_low 4 (raw / 2 ^ 60), bit_and_low 12 (raw / 2 ^ 48), bit_and_low 48 raw))

-- The fields of an ego message: the payload has 8 bits of speed above 32, 10 of x above 22, 11 of y
-- above 11, 9 of the heading above 2, and 2 of the turn signal.
abbrev pub ego_of : ℕ → ℕ → EgoVehicle
ego_of timestamp payload48 = record {
  x = payload48 / 2 ^ 22 % 1024;
  y = payload48 / 2 ^ 11 % 2048;
  speed = payload48 / 2 ^ 32 % 256;
  heading = payload48 / 4 % 512;
  turn_signal = payload48 % 4;
  timestamp = timestamp % 4096;
}

decode_ego_status_lem :
    (timestamp payload48 : ℕ)
    → decode_ego_status (timestamp % 4096) (payload48 % 2 ^ 48) ≡ ego_of timestamp payload48
unfolding decode_ego_status
decode_ego_status_lem timestamp p =
    let low = p % 2 ^ 48 in
    let x : bit_and (low / 2 ^ 22) 1023 % 2 ^ 16 ≡ p / 2 ^ 22 % 1024 =
      omega (arith, bit_and_low 10 (low / 2 ^ 22)) in
    let y : bit_and (low / 2 ^ 11) 2047 % 2 ^ 16 ≡ p / 2 ^ 11 % 2048 =
      omega (arith, bit_and_low 11 (low / 2 ^ 11)) in
    let speed : bit_and (low / 2 ^ 32) 255 % 2 ^ 8 ≡ p / 2 ^ 32 % 256 =
      omega (arith, bit_and_low 8 (low / 2 ^ 32)) in
    let heading : bit_and (low / 2 ^ 2) 511 % 2 ^ 16 ≡ p / 4 % 512 =
      omega (arith, bit_and_low 9 (low / 2 ^ 2)) in
    let signal : bit_and (low / 2 ^ 0) 3 % 2 ^ 8 ≡ p % 4 =
      omega (arith, bit_and_low 2 (low / 2 ^ 0)) in
    rw (x, y, speed, heading, signal) refl

-- A message that is packed and then decoded with a length of 8 or more is accepted exactly if its id is
-- the ego message's (the low four bits are 0). It then gives the timestamp's low 12 bits, and of the
-- payload 8 bits from bit 32 as the speed, 10 from bit 22 as x, 11 from bit 11 as y, 9 from bit 2 as the
-- heading, and the lowest 2 as the turn signal, whatever bytes follow the message.
pub decode_can_payload-pack_can_data :
    (message_id timestamp payload48 : ℕ) (rest : List ℕ) (dlc : ℕ)
    → 8 ≤ dlc
    → decode_can_payload (pack_can_data message_id timestamp payload48 ++ rest) dlc
      ≡ (if message_id % 16 == 0 then some (ego_of timestamp payload48) else none)
decode_can_payload-pack_can_data m t p rest dlc h =
    let r = raw-pack_can_data m t p in
    let raw = m % 16 * 2 ^ 60 + t % 4096 * 2 ^ 48 + p % 2 ^ 48 in
    let id : raw / 2 ^ 60 % 16 ≡ m % 16 = omega arith in
    let ts : raw / 2 ^ 48 % 4096 ≡ t % 4096 = omega arith in
    let pl : raw % 2 ^ 48 ≡ p % 2 ^ 48 = omega arith in
    decode_raw (pack_can_data m t p) rest dlc raw r.1 h r.0
    ∙ rw (id, ts, pl, decode_ego_status_lem t p) refl
