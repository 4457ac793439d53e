-- ===== src/Can/Payload.antt =====
-- The 48-bit payloads of the outgoing messages: no field touches another.
use green_right_topst_linux.Base.{
  ℕ, ◌+◌, ◌*◌, ◌/◌, ◌%◌, ◌^◌, ◌<◌, ◌≡◌, refl, bit_and, Option, arith, bit_and_low, bit_or_above,
}
use green_right_topst_linux.Types.{VehicleInfo}
use green_right_topst_linux.Can.{
  field, decode_ego_status, ntp_sync_payload, candidate_intro_payload, candidate_status_payload,
  traffic_light_payload, no_traffic_light_payload, traffic_light_unavailable_payload,
  vehicle_or_zero,
}

ntp_sync_payload_sum :
    (epoch status : ℕ)
    → status < 256
    → ntp_sync_payload epoch status ≡ epoch % 1099511627776 * 2 ^ 8 + status
unfolding ntp_sync_payload field
ntp_sync_payload_sum epoch status h =
    let f0 : bit_and epoch 0xffffffffff * 2 ^ 8 % 2 ^ 64 ≡ epoch % 1099511627776 * 2 ^ 8 =
      omega (arith, bit_and_low 40 epoch) in
    rw (f0, bit_or_above 8 (epoch % 1099511627776 * 2 ^ 8) status (omega arith) h)

candidate_intro_payload_sum :
    (mask cz_x cz_y : ℕ)
    → candidate_intro_payload mask cz_x cz_y
      ≡ mask % 256 * 2 ^ 32 + cz_x % 1024 * 2 ^ 22 + cz_y % 2048 * 2 ^ 11
unfolding candidate_intro_payload field
candidate_intro_payload_sum mask cz_x cz_y =
    let f0 : bit_and mask 0xff * 2 ^ 32 % 2 ^ 64 ≡ mask % 256 * 2 ^ 32 =
      omega (arith, bit_and_low 8 mask) in
    let f1 : bit_and cz_x 0x3ff * 2 ^ 22 % 2 ^ 64 ≡ cz_x % 1024 * 2 ^ 22 =
      omega (arith, bit_and_low 10 cz_x) in
    let f2 : bit_and cz_y 0x7ff * 2 ^ 11 % 2 ^ 64 ≡ cz_y % 2048 * 2 ^ 11 =
      omega (arith, bit_and_low 11 cz_y) in
    rw (
      f0,
      f1,
      f2,
      bit_or_above 32 (mask % 256 * 2 ^ 32) (cz_x % 1024 * 2 ^ 22) (omega arith) (omega arith),
      bit_or_above 22 (mask % 256 * 2 ^ 32 + cz_x % 1024 * 2 ^ 22) (cz_y % 2048 * 2 ^ 11)
          (omega arith) (omega arith),
    )

candidate_status_payload_sum :
    (mask : ℕ) (v : Option VehicleInfo)
    → candidate_status_payload mask v
      ≡ mask % 256 * 2 ^ 40
        + (vehicle_or_zero v).speed % 256 * 2 ^ 32
        + (vehicle_or_zero v).x % 1024 * 2 ^ 22
        + (vehicle_or_zero v).y % 2048 * 2 ^ 11
        + (vehicle_or_zero v).heading % 512 * 2 ^ 2
unfolding candidate_status_payload field
candidate_status_payload_sum mask v =
    let f0 : bit_and mask 0xff * 2 ^ 40 % 2 ^ 64 ≡ mask % 256 * 2 ^ 40 =
      omega (arith, bit_and_low 8 mask) in
    let f1 : bit_and (vehicle_or_zero v).speed 0xff * 2 ^ 32 % 2 ^ 64
        ≡ (vehicle_or_zero v).speed % 256 * 2 ^ 32 =
      omega (arith, bit_and_low 8 (vehicle_or_zero v).speed) in
    let f2 : bit_and (vehicle_or_zero v).x 0x3ff * 2 ^ 22 % 2 ^ 64
        ≡ (vehicle_or_zero v).x % 1024 * 2 ^ 22 =
      omega (arith, bit_and_low 10 (vehicle_or_zero v).x) in
    let f3 : bit_and (vehicle_or_zero v).y 0x7ff * 2 ^ 11 % 2 ^ 64
        ≡ (vehicle_or_zero v).y % 2048 * 2 ^ 11 =
      omega (arith, bit_and_low 11 (vehicle_or_zero v).y) in
    let f4 : bit_and (vehicle_or_zero v).heading 0x1ff * 2 ^ 2 % 2 ^ 64
        ≡ (vehicle_or_zero v).heading % 512 * 2 ^ 2 =
      omega (arith, bit_and_low 9 (vehicle_or_zero v).heading) in
    rw (
      f0,
      f1,
      f2,
      f3,
      f4,
      bit_or_above 40 (mask % 256 * 2 ^ 40) ((vehicle_or_zero v).speed % 256 * 2 ^ 32) (omega arith)
          (omega arith),
      bit_or_above 32 (mask % 256 * 2 ^ 40 + (vehicle_or_zero v).speed % 256 * 2 ^ 32)
          ((vehicle_or_zero v).x % 1024 * 2 ^ 22) (omega arith) (omega arith),
      bit_or_above 22
          (mask % 256 * 2 ^ 40
            + (vehicle_or_zero v).speed % 256 * 2 ^ 32
            + (vehicle_or_zero v).x % 1024 * 2 ^ 22)
          ((vehicle_or_zero v).y % 2048 * 2 ^ 11) (omega arith) (omega arith),
      bit_or_above 11
          (mask % 256 * 2 ^ 40
            + (vehicle_or_zero v).speed % 256 * 2 ^ 32
            + (vehicle_or_zero v).x % 1024 * 2 ^ 22
            + (vehicle_or_zero v).y % 2048 * 2 ^ 11)
          ((vehicle_or_zero v).heading % 512 * 2 ^ 2) (omega arith) (omega arith),
    )

traffic_light_payload_sum :
    (tl color time cz_x cz_y man : ℕ)
    → traffic_light_payload tl color time cz_x cz_y man
      ≡ tl % 256 * 2 ^ 32
        + color % 4 * 2 ^ 30
        + time % 16 * 2 ^ 26
        + cz_x % 1024 * 2 ^ 16
        + cz_y % 2048 * 2 ^ 5
        + man % 4 * 2 ^ 3
unfolding traffic_light_payload field
traffic_light_payload_sum tl color time cz_x cz_y man =
    let f0 : bit_and tl 0xff * 2 ^ 32 % 2 ^ 64 ≡ tl % 256 * 2 ^ 32 =
      omega (arith, bit_and_low 8 tl) in
    let f1 : bit_and color 0x3 * 2 ^ 30 % 2 ^ 64 ≡ color % 4 * 2 ^ 30 =
      omega (arith, bit_and_low 2 color) in
    let f2 : bit_and time 0xf * 2 ^ 26 % 2 ^ 64 ≡ time % 16 * 2 ^ 26 =
      omega (arith, bit_and_low 4 time) in
    let f3 : bit_and cz_x 0x3ff * 2 ^ 16 % 2 ^ 64 ≡ cz_x % 1024 * 2 ^ 16 =
      omega (arith, bit_and_low 10 cz_x) in
    let f4 : bit_and cz_y 0x7ff * 2 ^ 5 % 2 ^ 64 ≡ cz_y % 2048 * 2 ^ 5 =
      omega (arith, bit_and_low 11 cz_y) in
    let f5 : bit_and man 0x3 * 2 ^ 3 % 2 ^ 64 ≡ man % 4 * 2 ^ 3 =
      omega (arith, bit_and_low 2 man) in
    rw (
      f0,
      f1,
      f2,
      f3,
      f4,
      f5,
      bit_or_above 32 (tl % 256 * 2 ^ 32) (color % 4 * 2 ^ 30) (omega arith) (omega arith),
      bit_or_above 30 (tl % 256 * 2 ^ 32 + color % 4 * 2 ^ 30) (time % 16 * 2 ^ 26) (omega arith)
          (omega arith),
      bit_or_above 26 (tl % 256 * 2 ^ 32 + color % 4 * 2 ^ 30 + time % 16 * 2 ^ 26)
          (cz_x % 1024 * 2 ^ 16) (omega arith) (omega arith),
      bit_or_above 16
          (tl % 256 * 2 ^ 32 + color % 4 * 2 ^ 30 + time % 16 * 2 ^ 26 + cz_x % 1024 * 2 ^ 16)
          (cz_y % 2048 * 2 ^ 5) (omega arith) (omega arith),
      bit_or_above 5
          (tl % 256 * 2 ^ 32
            + color % 4 * 2 ^ 30
            + time % 16 * 2 ^ 26
            + cz_x % 1024 * 2 ^ 16
            + cz_y % 2048 * 2 ^ 5)
          (man % 4 * 2 ^ 3) (omega arith) (omega arith),
    )

-- The candidate status payload holds the type mask above bit 40, and read as an ego payload it gives
-- the vehicle's speed, x, y and heading modulo their widths and no turn signal (all 0 without a
-- vehicle).
pub candidate_status_payload_fields :
    (mask timestamp : ℕ) (v : Option VehicleInfo)
    → let p = candidate_status_payload mask v in
      let c = vehicle_or_zero v in
      (p < 2 ^ 48)
      × (p / 2 ^ 40 ≡ mask % 256)
      × (decode_ego_status timestamp p ≡ record {
        x = c.x % 1024;
        y = c.y % 2048;
        speed = c.speed % 256;
        heading = c.heading % 512;
        turn_signal = 0;
        timestamp = timestamp;
      })
unfolding decode_ego_status
candidate_status_payload_fields mask timestamp v =
    let p = candidate_status_payload mask v in
    rw (candidate_status_payload_sum mask v) (
      omega arith,
      omega arith,
      ground (
        arith,
        bit_and_low 10 (p / 2 ^ 22),
        bit_and_low 11 (p / 2 ^ 11),
        bit_and_low 8 (p / 2 ^ 32),
        bit_and_low 9 (p / 2 ^ 2),
        bit_and_low 2 (p / 2 ^ 0),
        candidate_status_payload_sum mask v,
      ),
    )

-- The intro payload holds the type mask and the conflict zone's centre modulo their widths, and
-- leaves the low 11 bits 0.
pub candidate_intro_payload_fields :
    (mask cz_x cz_y : ℕ)
    → let p = candidate_intro_payload mask cz_x cz_y in
      (p < 2 ^ 40)
      × (p / 2 ^ 32 ≡ mask % 256)
      × (p / 2 ^ 22 % 1024 ≡ cz_x % 1024)
      × (p / 2 ^ 11 % 2048 ≡ cz_y % 2048)
      × (p % 2 ^ 11 ≡ 0)
candidate_intro_payload_fields mask cz_x cz_y =
    rw (candidate_intro_payload_sum mask cz_x cz_y) (omega arith)

-- The traffic light payload holds each field modulo its width: 8 bits of id, 2 of colour, 4 of time
-- left, 10 and 11 of the conflict zone's centre, 2 of maneuver.
pub traffic_light_payload_fields :
    (tl color time cz_x cz_y man : ℕ)
    → let p = traffic_light_payload tl color time cz_x cz_y man in
      (p < 2 ^ 40)
      × (p / 2 ^ 32 ≡ tl % 256)
      × (p / 2 ^ 30 % 4 ≡ color % 4)
      × (p / 2 ^ 26 % 16 ≡ time % 16)
      × (p / 2 ^ 16 % 1024 ≡ cz_x % 1024)
      × (p / 2 ^ 5 % 2048 ≡ cz_y % 2048)
      × (p / 2 ^ 3 % 4 ≡ man % 4)
traffic_light_payload_fields tl color time cz_x cz_y man =
    rw (traffic_light_payload_sum tl color time cz_x cz_y man) (omega arith)

-- The two messages without a light are the general message with the light's id 0 or 0x80, colour
-- and time 0 (and, where the connection is down, no conflict zone).
pub traffic_light_payload_none :
    (cz_x cz_y man : ℕ)
    → (no_traffic_light_payload cz_x cz_y man ≡ traffic_light_payload 0 0 0 cz_x cz_y man)
      × (traffic_light_unavailable_payload man ≡ traffic_light_payload 0x80 0 0 0 0 man)
unfolding no_traffic_light_payload traffic_light_unavailable_payload traffic_light_payload field
traffic_light_payload_none cz_x cz_y man = (refl, refl)

-- With a one-byte status the NTP message carries 40 bits of the epoch above it, and the low 12 bits of
-- those are the epoch's.
pub ntp_sync_payload_fields :
    (epoch status : ℕ)
    → status < 256
    → let p = ntp_sync_payload epoch status in
      (p < 2 ^ 48)
      × (p / 2 ^ 8 ≡ epoch % 2 ^ 40)
      × (p % 2 ^ 8 ≡ status)
      × (p / 2 ^ 8 % 4096 ≡ epoch % 4096)
ntp_sync_payload_fields epoch status h = rw (ntp_sync_payload_sum epoch status h) (omega arith)
