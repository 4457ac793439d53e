-- ===== src/Codec/Lights.antt =====
-- The traffic lights of common/vehicle_codec.c.
use green_right_topst_linux.Base.{
  ℕ, ◌%◌, ◌^◌, Option, none, some, ◌>>=◌, ◌==◌, if◌then◌else◌, Str, codes, str_eq,
}
use green_right_topst_linux.Types.{TrafficLight}
use green_right_topst_linux.Doubles.{Doubles}
use green_right_topst_linux.Codec.{
  Json, json_string, json_object, no_members, member, json_uint, Cjson, get_uint_field,
  get_string_field,
}

unfoldable pub traffic_light_color_to_string : ℕ → Str
traffic_light_color_to_string color =
    if color == 0
    then codes "red"
    else if color == 1
    then codes "yellow"
    else if color == 2
    then codes "green"
    else codes "unknown"

unfoldable pub traffic_light_color_from_string : Str → Option ℕ
traffic_light_color_from_string color =
    if str_eq color (codes "red")
    then some 0
    else if str_eq color (codes "yellow")
    then some 1
    else if str_eq color (codes "green")
    then some 2
    else none

unfoldable pub traffic_light_to_json : (D : Doubles) → TrafficLight → Json D
traffic_light_to_json D tl = json_object (
    member (codes "color") (json_string (traffic_light_color_to_string tl.color)) (
      member (codes "time_left") (json_uint D tl.time_left)
        (member (codes "timestamp_ms") (json_uint D tl.timestamp_ms) no_members)))

unfoldable pub traffic_light_to_json_string : {D : Doubles} → Cjson D → TrafficLight → Str
traffic_light_to_json_string {D} cjson tl = cjson.print (traffic_light_to_json D tl)

unfoldable pub traffic_light_from_json : {D : Doubles} → Cjson D → Json D → Option TrafficLight
traffic_light_from_json cjson root = do
  text ← get_string_field cjson root (codes "color") 16
  color ← traffic_light_color_from_string text
  time_left ← get_uint_field cjson root (codes "time_left")
  timestamp_ms ← get_uint_field cjson root (codes "timestamp_ms")
  some (record { color = color; time_left = time_left % 2 ^ 8; timestamp_ms = timestamp_ms })

unfoldable pub traffic_light_from_json_string : {D : Doubles} → Cjson D → Str → Option TrafficLight
traffic_light_from_json_string cjson json_str = do
  root ← cjson.parse json_str
  traffic_light_from_json cjson root
