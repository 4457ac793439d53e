-- ===== src/Codec/RoundTrip.antt =====
-- What a receiver decodes of the JSON that a sender writes.
use green_right_topst_linux.Base.{
  ℕ, zero, suc, ◌%◌, ◌^◌, ◌≤◌, ◌<◌, ◌≡◌, refl, List, [], ◌∷◌, none, some, arith, length, take, All,
  length-take, take_all, Str, str_eq, safe_copy, ltb, Bool-cases, inl, inr, if◌then◌else◌,
}
use green_right_topst_linux.Types.{VehicleInfo, TrafficLight, used_zones}
use green_right_topst_linux.Doubles.{Doubles}
use green_right_topst_linux.Libc.{Calendar}
use green_right_topst_linux.Codec.{
  Cjson, find_member, FindsMembers, get_uint_field, get_string_field, zones_from_items, zone_slots,
  string_items, vehicle_info_from_json, vehicle_info_from_json_string, vehicle_info_to_json,
  vehicle_info_to_json_string,
}
use green_right_topst_linux.Codec.Lights.{
  traffic_light_color_to_string, traffic_light_color_from_string, traffic_light_to_json,
  traffic_light_from_json,
}

-- A vehicle whose fields fit their C types, with a time stamp that a double holds exactly.
pub record IsWire (v : VehicleInfo) : Type 0 where
  pub id : v.vehicle_id < 2 ^ 8
  pub x_fits : v.x < 2 ^ 16
  pub y_fits : v.y < 2 ^ 16
  pub speed_fits : v.speed < 2 ^ 8
  pub heading_fits : v.heading < 2 ^ 16
  pub lanelet_fits : length v.lanelet_id ≤ 15
  pub turn_fits : length v.turn_state ≤ 23
  pub tl_fits : length v.linked_tl_id ≤ 15
  pub zones_fit : All (λ (z : Str). length z ≤ 15) (used_zones v)
  pub count_fits : length (used_zones v) ≡ v.conflict_zone_count
  pub slots : zone_slots (used_zones v) ≡ v.conflict_zone_ids
  pub time_fits : v.timestamp_ms < 2 ^ 53

-- Integers below 2^53 pass through a double unchanged.
abbrev pub IsExact : Doubles → Type 0
IsExact D = (n : ℕ) → n < 2 ^ 53 → D.to_u64 (D.decimal n 0) ≡ n

color_lem :
    (c : ℕ)
    → traffic_light_color_from_string (safe_copy 16 (traffic_light_color_to_string c))
      ≡ (if ltb c 3 then some c else none)
unfolding traffic_light_color_from_string traffic_light_color_to_string str_eq safe_copy
color_lem c = ground arith

module _ (D : Doubles) where
  zones_lem :
      (room : ℕ) (ids : List Str)
      → length ids ≤ room
      → All (λ (z : Str). length z ≤ 15) ids
      → zones_from_items {D = D} room (string_items ids) ≡ some ids
  unfolding zones_from_items string_items safe_copy
  zones_lem zero [] h a = refl
  zones_lem zero (z ∷ zs) h a = absurd (omega arith)
  zones_lem (suc room) [] h a = refl
  zones_lem (suc room) (z ∷ zs) h a =
      rw (zones_lem room zs (omega arith) a.1, take_all z 15 a.0) refl

  pub vehicle_info_from_json-to_json :
      (cjson : Cjson D) (calendar : Calendar) (v : VehicleInfo)
      → IsExact D
      → IsWire v
      → FindsMembers cjson
      → vehicle_info_from_json cjson (vehicle_info_to_json D calendar v) ≡ some v
  unfolding vehicle_info_from_json vehicle_info_to_json get_uint_field get_string_field find_member
      str_eq safe_copy
  vehicle_info_from_json-to_json cjson calendar v exact w finds =
      let zones =
        zones_lem 4 (used_zones v)
          (omega (arith, length-take 4 (take v.conflict_zone_count v.conflict_zone_ids)))
          w.zones_fit in
      let id : D.to_u64 (D.decimal v.vehicle_id 0) % 2 ^ 8 ≡ v.vehicle_id =
        omega (arith, exact v.vehicle_id (omega (arith, w.id)), w.id) in
      let x : D.to_u64 (D.decimal v.x 0) % 2 ^ 16 ≡ v.x =
        omega (arith, exact v.x (omega (arith, w.x_fits)), w.x_fits) in
      let y : D.to_u64 (D.decimal v.y 0) % 2 ^ 16 ≡ v.y =
        omega (arith, exact v.y (omega (arith, w.y_fits)), w.y_fits) in
      let speed : D.to_u64 (D.decimal v.speed 0) % 2 ^ 8 ≡ v.speed =
        omega (arith, exact v.speed (omega (arith, w.speed_fits)), w.speed_fits) in
      let heading : D.to_u64 (D.decimal v.heading 0) % 2 ^ 16 ≡ v.heading =
        omega (arith, exact v.heading (omega (arith, w.heading_fits)), w.heading_fits) in
      simp
        (
          finds,
          zones,
          id,
          x,
          y,
          speed,
          heading,
          exact v.timestamp_ms w.time_fits,
          take_all v.lanelet_id 15 w.lanelet_fits,
          take_all v.turn_state 23 w.turn_fits,
          take_all v.linked_tl_id 15 w.tl_fits,
          w.slots,
          w.count_fits,
        )
        refl

  -- A receiver whose parser reads what the sender's printer wrote decodes the very vehicle that was
  -- encoded, if members are looked up by name, its fields fit their C types, it has at most
  -- four conflict zones and no text in the unused places for them, and its time stamp is below 2^53.
  pub vehicle_info_from_json_string-to_json_string :
      (cjson : Cjson D) (calendar : Calendar) (v : VehicleInfo)
      → IsExact D
      → IsWire v
      → FindsMembers cjson
      → cjson.parse (cjson.print (vehicle_info_to_json D calendar v))
        ≡ some (vehicle_info_to_json D calendar v)
      → vehicle_info_from_json_string cjson (vehicle_info_to_json_string D cjson calendar v)
        ≡ some v
  unfolding vehicle_info_from_json_string vehicle_info_to_json_string
  vehicle_info_from_json_string-to_json_string cjson calendar v exact w finds p =
      rw p (vehicle_info_from_json-to_json cjson calendar v exact w finds)

  -- The same for a traffic light, of whose colours the three known ones pass and every other is refused.
  pub traffic_light_from_json-to_json :
      (cjson : Cjson D) (tl : TrafficLight)
      → IsExact D
      → FindsMembers cjson
      → tl.time_left < 2 ^ 8
      → tl.timestamp_ms < 2 ^ 53
      → traffic_light_from_json cjson (traffic_light_to_json D tl)
        ≡ (if ltb tl.color 3 then some tl else none)
  unfolding traffic_light_from_json traffic_light_to_json get_uint_field get_string_field
      find_member str_eq
  traffic_light_from_json-to_json cjson tl exact finds h k =
      let time : D.to_u64 (D.decimal tl.time_left 0) % 2 ^ 8 ≡ tl.time_left =
        omega (arith, exact tl.time_left (omega (arith, h)), h) in
      elim (Bool-cases (ltb tl.color 3)) [
        | inl e ↦ simp (finds, color_lem tl.color, e, time, exact tl.timestamp_ms k) refl
        | inr e ↦ simp (finds, color_lem tl.color, e) refl
      ]
