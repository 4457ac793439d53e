-- ===== src/Codec.antt =====
-- common/vehicle_codec.c: vehicles as JSON, and in Codec.Lights traffic lights. The library cJSON is given by its tree of
-- values, and by the look-up of members, its printer and its parser, which are arguments. Allocations do
-- not fail.
pub mod Lights
pub mod RoundTrip
pub mod Accepts
use green_right_topst_linux.Base.{
  ℕ, zero, suc, ◌≡◌, ◌+◌, ◌/◌, ◌%◌, ◌^◌, List, [], ◌∷◌, ◌++◌, map, Bool, true, false, Option, none,
  some, ◌>>=◌, ltb, if◌then◌else◌, length, take, replicate, Str, codes, str_eq, safe_copy, ◌==◌,
}
use green_right_topst_linux.Types.{
  VehicleInfo, TrafficLight, vehicle_info_id_len, vehicle_info_turn_state_len,
  vehicle_info_max_conflict_zones, used_zones, blank_vehicle,
}
use green_right_topst_linux.Doubles.{Doubles}
use green_right_topst_linux.Libc.{padded, Calendar}

-- The values of cJSON.
mutual
  pub data Json (D : Doubles) : Type 0 where
    json_null : Json D
    json_bool : Bool → Json D
    json_number : D.Double → Json D
    json_string : Str → Json D
    json_array : Items D → Json D
    json_object : Members D → Json D

  pub data Items (D : Doubles) : Type 0 where
    no_items : Items D
    item : Json D → Items D → Items D

  pub data Members (D : Doubles) : Type 0 where
    no_members : Members D
    member : Str → Json D → Members D → Members D

-- The printer, the parser, which refuses text that is not JSON, and
-- `cJSON_GetObjectItemCaseSensitive`.
pub record Cjson (D : Doubles) : Type 0 where
  pub print : Json D → Str
  pub parse : Str → Option (Json D)
  pub get_object_item : Json D → Str → Option (Json D)

-- The first member of that name.
unfoldable pub find_member : {D : Doubles} → Str → Members D → Option (Json D)
find_member key no_members = none
find_member key (member k j rest) = if str_eq key k then some j else find_member key rest

-- What cJSON documents of the look-up in an object.
abbrev pub FindsMembers : {D : Doubles} → Cjson D → Type 0
FindsMembers {D} cjson =
    (key : Str) (members : Members D)
    → cjson.get_object_item (json_object members) key ≡ find_member key members

-- The four slots, those behind the ids empty.
abbrev pub zone_slots : List Str → List Str
zone_slots ids =
    take vehicle_info_max_conflict_zones (ids ++ replicate vehicle_info_max_conflict_zones [])

module _ {D : Doubles} where
  abbrev pub number_value : Json D → Option ℕ
  number_value (json_number d) = some (D.to_u64 d)
  number_value _ = none

  abbrev pub string_value : ℕ → Json D → Option Str
  string_value size (json_string s) = some (safe_copy size s)
  string_value size _ = none

  abbrev pub array_value : Json D → Option (Items D)
  array_value (json_array items) = some items
  array_value _ = none

  unfoldable pub get_uint_field : Cjson D → Json D → Str → Option ℕ
  get_uint_field cjson root key = do j ← cjson.get_object_item root key; number_value j

  unfoldable pub get_string_field : Cjson D → Json D → Str → ℕ → Option Str
  get_string_field cjson root key size = do j ← cjson.get_object_item root key; string_value size j

  -- The loop over "conflict_zone_ids"; `room` is what is left of the array.
  unfoldable pub zones_from_items : ℕ → Items D → Option (List Str)
  zones_from_items room no_items = some []
  zones_from_items zero (item j rest) = some []
  zones_from_items (suc room) (item j rest) = do
    id ← string_value vehicle_info_id_len j
    ids ← zones_from_items room rest
    some (id ∷ ids)

  unfoldable pub vehicle_info_from_json : Cjson D → Json D → Option VehicleInfo
  vehicle_info_from_json cjson root = do
    vehicle_id ← get_uint_field cjson root (codes "vehicle_id")
    x ← get_uint_field cjson root (codes "x")
    y ← get_uint_field cjson root (codes "y")
    speed ← get_uint_field cjson root (codes "speed")
    heading ← get_uint_field cjson root (codes "heading")
    lanelet_id ← get_string_field cjson root (codes "lanelet_id") vehicle_info_id_len
    turn_state ← get_string_field cjson root (codes "turn_state") vehicle_info_turn_state_len
    cz_array ← cjson.get_object_item root (codes "conflict_zone_ids")
    items ← array_value cz_array
    ids ← zones_from_items vehicle_info_max_conflict_zones items
    linked_tl_id ← get_string_field cjson root (codes "linked_tl_id") vehicle_info_id_len
    timestamp_ms ← get_uint_field cjson root (codes "timestamp_ms")
    some (record {
      vehicle_id = vehicle_id % 2 ^ 8;
      x = x % 2 ^ 16;
      y = y % 2 ^ 16;
      speed = speed % 2 ^ 8;
      heading = heading % 2 ^ 16;
      lanelet_id = lanelet_id;
      turn_state = turn_state;
      conflict_zone_ids = zone_slots ids;
      conflict_zone_count = length ids;
      linked_tl_id = linked_tl_id;
      timestamp_ms = timestamp_ms;
    })

  unfoldable pub vehicle_info_from_json_string : Cjson D → Str → Option VehicleInfo
  vehicle_info_from_json_string cjson json_str = do
    root ← cjson.parse json_str
    vehicle_info_from_json cjson root

  -- The loop over the array; what does not decode is passed over.
  unfoldable pub vehicles_from_items : Cjson D → ℕ → Items D → List VehicleInfo
  vehicles_from_items cjson room no_items = []
  vehicles_from_items cjson zero (item j rest) = []
  vehicles_from_items cjson (suc room) (item j rest) = elim (vehicle_info_from_json cjson j) [
    | none ↦ vehicles_from_items cjson (suc room) rest
    | some v ↦ v ∷ vehicles_from_items cjson room rest
  ]

  -- The vehicles written to `out`; `none` is a return of -1.
  unfoldable pub vehicle_info_array_from_json_string : Cjson D → Str → ℕ → Option (List VehicleInfo)
  vehicle_info_array_from_json_string cjson json_str max_count = if max_count == 0 then none else do
    jarr ← cjson.parse json_str
    items ← array_value jarr
    some (vehicles_from_items cjson max_count items)

  unfoldable pub string_items : List Str → Items D
  string_items [] = no_items
  string_items (s ∷ ss) = item (json_string s) (string_items ss)

-- `format_utc_iso8601_ms`, from the format on.
unfoldable pub iso8601 : Calendar → ℕ → Str
iso8601 calendar unix_ms =
    let tm = calendar.gmtime (unix_ms / 1000) in
    padded 4 (tm.tm_year + 1900)
    ++ (codes "-"
        ++ (padded 2 (tm.tm_mon + 1)
            ++ (codes "-"
                ++ (padded 2 tm.tm_mday
                    ++ (codes "T"
                        ++ (padded 2 tm.tm_hour
                            ++ (codes ":"
                                ++ (padded 2 tm.tm_min
                                    ++ (codes ":"
                                        ++ (padded 2 tm.tm_sec
                                            ++ (codes "."
                                                ++ (padded 3 (unix_ms % 1000)
                                                    ++ codes "Z"))))))))))))

-- The buffer has 32 bytes.
unfoldable pub format_utc_iso8601_ms : Calendar → ℕ → Str
format_utc_iso8601_ms calendar timestamp_ms =
    safe_copy 32 (iso8601 calendar ((1767225600000 + timestamp_ms) % 2 ^ 64))

module _ (D : Doubles) where
  abbrev pub json_uint : ℕ → Json D
  json_uint n = json_number (D.decimal n 0)

  unfoldable pub vehicle_info_to_json : Calendar → VehicleInfo → Json D
  vehicle_info_to_json calendar v =
      let ids = used_zones v in
      json_object (
        member (codes "vehicle_id") (json_uint v.vehicle_id) (
          member (codes "x") (json_uint v.x) (
            member (codes "y") (json_uint v.y) (
              member (codes "speed") (json_uint v.speed) (
                member (codes "heading") (json_uint v.heading) (
                  member (codes "lanelet_id") (json_string v.lanelet_id) (
                    member (codes "turn_state") (json_string v.turn_state) (
                      member (codes "conflict_zone_ids") (json_array (string_items ids)) (
                        member (codes "conflict_zone_count") (json_uint (length ids)) (
                          member (codes "linked_tl_id") (json_string v.linked_tl_id) (
                            member (codes "timestamp_ms") (json_uint v.timestamp_ms) (
                              member (codes "timestamp")
                                (json_string (format_utc_iso8601_ms calendar v.timestamp_ms))
                                no_members))))))))))))

  unfoldable pub vehicle_info_to_json_string : Cjson D → Calendar → VehicleInfo → Str
  vehicle_info_to_json_string cjson calendar v = cjson.print (vehicle_info_to_json calendar v)

  unfoldable pub vehicle_items : Calendar → List VehicleInfo → Items D
  vehicle_items calendar [] = no_items
  vehicle_items calendar (v ∷ vs) =
      item (vehicle_info_to_json calendar v) (vehicle_items calendar vs)

  unfoldable pub vehicle_info_array_to_json_string : Cjson D → Calendar → List VehicleInfo → Str
  vehicle_info_array_to_json_string cjson calendar arr =
      cjson.print (json_array (vehicle_items calendar arr))
