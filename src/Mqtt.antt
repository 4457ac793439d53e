-- ===== src/Mqtt.antt =====
-- handler/mqtt_handler.c: the vehicle's client of the broker. The library mosquitto is given by the
-- calls that the code makes of it, which are collected in order, and by their results, which are
-- arguments. Pointers are not NULL where the callers pass an object; allocations do not fail; the trace
-- of latencies (TemporalQos_TraceStage) is left out.
pub mod Topic
pub mod Resources
pub mod Thread
pub mod Events
pub mod Managers
pub mod Delivery
pub mod Sound
pub mod Ledger
pub mod Publishing
pub mod Published
pub mod Cadence
use green_right_topst_linux.Base.{
  ℕ, ◌+◌, ◌-◌, ◌%◌, ◌^◌, List, [], ◌∷◌, ◌++◌, Bool, true, false, not, ◌&&◌, ◌||◌, Option, none,
  some, ltb, leb, ◌==◌, if◌then◌else◌, length, take, drop, Str, codes, str_eq, is_empty, safe_copy,
}
use green_right_topst_linux.Types.{VehicleInfo, TrafficLight, invalid_id}
use green_right_topst_linux.Doubles.{Doubles}
use green_right_topst_linux.Libc.{decimal, padded, strtol, strtol_reads, Calendar, has_prefix}
use green_right_topst_linux.Codec.{
  Cjson, vehicle_info_from_json_string, vehicle_info_to_json_string,
}
use green_right_topst_linux.Codec.Lights.{traffic_light_from_json_string}

-- The calls of mosquitto that have an effect outside the handler.
pub data Call : Type 0 where
  mosquitto_lib_init mosquitto_lib_cleanup : Call
  mosquitto_new : Str → Call
  mosquitto_callbacks_set : Call
  mosquitto_will_set : Str → Bool → Call
  mosquitto_connect : Str → ℕ → ℕ → Call
  mosquitto_loop_start mosquitto_loop_stop mosquitto_disconnect mosquitto_destroy : Call
  mosquitto_subscribe : Str → Call
  mosquitto_publish : Str → Str → Bool → Call

-- What `mosquitto_new`, `mosquitto_connect` and `mosquitto_loop_start` report: whether they succeed.
pub record Results : Type 0 where
  pub new_ok : Bool
  pub connect_ok : Bool
  pub loop_start_ok : Bool

-- The function pointers, and what they do to the object behind `user_data` at a reading of the clock.
pub record MqttHandlerCallbacks (S : Type 0) : Type 0 where
  pub on_vehicle : Option (ℕ → VehicleInfo → S → S)
  pub on_traffic_light : Option (ℕ → ℕ → TrafficLight → S → S)

-- `mosq` is whether the pointer is not NULL.
pub record MqttHandler (S : Type 0) : Type 0 where
  pub mosq : Bool
  pub vehicle_id : ℕ
  pub status_topic : Str
  pub callbacks : MqttHandlerCallbacks S
  pub connected : Bool
  pub initialized : Bool

abbrev pub topic_vehicle_status_prefix : Str
topic_vehicle_status_prefix = codes "v2x/vehicle/"

-- `TOPIC_VEHICLE_STATUS_FMT`
abbrev pub vehicle_status_topic : ℕ → Str
vehicle_status_topic vehicle_id =
    topic_vehicle_status_prefix ++ (decimal vehicle_id ++ codes "/status")

abbrev pub topic_vehicle_status_wildcard : Str
topic_vehicle_status_wildcard = codes "v2x/vehicle/+/status"

abbrev pub topic_trafficlight_wildcard : Str
topic_trafficlight_wildcard = codes "v2x/trafficlight/+/status"

abbrev pub trafficlight_prefix : Str
trafficlight_prefix = codes "v2x/trafficlight/"

-- `if (id[0] == 'T' && id[1] == 'L') id += 2;`
abbrev pub past_tl : Str → Str
past_tl id = if str_eq (take 2 id) (codes "TL") then drop 2 id else id

abbrev pub light_id : Bool → Bool × ℕ → ℕ
light_id false value = invalid_id
light_id true (negative, value) =
    if (negative && not (value == 0)) || ltb 255 value then invalid_id else value

unfoldable pub parse_traffic_light_topic_id : Str → ℕ
parse_traffic_light_topic_id topic =
    if has_prefix trafficlight_prefix topic
    then (let id = past_tl (drop (length trafficlight_prefix) topic) in
        light_id (strtol_reads id) (strtol id))
    else invalid_id

-- The C string at the start of a buffer that ends with a NUL.
unfoldable pub c_string : List ℕ → Str
c_string [] = []
c_string (c ∷ s) = if c == 0 then [] else c ∷ c_string s

module _ {S : Type 0} where
  abbrev pub call_vehicle : Option (ℕ → VehicleInfo → S → S) → ℕ → VehicleInfo → S → S
  call_vehicle none now v user_data = user_data
  call_vehicle (some f) now v user_data = f now v user_data

  abbrev pub call_traffic_light :
      Option (ℕ → ℕ → TrafficLight → S → S) → ℕ → ℕ → TrafficLight → S → S
  call_traffic_light none now tl_id tl user_data = user_data
  call_traffic_light (some f) now tl_id tl user_data = f now tl_id tl user_data

  -- The branch of a vehicle's topic, on what decodes.
  unfoldable pub receive_vehicle : MqttHandler S → ℕ → Option VehicleInfo → S → S
  receive_vehicle handler now none user_data = user_data
  receive_vehicle handler now (some vehicle) user_data =
      if vehicle.vehicle_id == handler.vehicle_id
      then user_data
      else call_vehicle handler.callbacks.on_vehicle now vehicle user_data

  -- The branch of a traffic light's topic.
  unfoldable pub receive_traffic_light : MqttHandler S → ℕ → ℕ → Option TrafficLight → S → S
  receive_traffic_light handler now tl_id none user_data = user_data
  receive_traffic_light handler now tl_id (some tl) user_data =
      if tl_id == invalid_id
      then user_data
      else call_traffic_light handler.callbacks.on_traffic_light now tl_id tl user_data

  unfoldable pub on_message : {D : Doubles} → Cjson D → MqttHandler S → ℕ → Str → List ℕ → S → S
  on_message cjson handler now topic payload user_data =
      if is_empty payload
      then user_data
      else if has_prefix topic_vehicle_status_prefix topic
      then receive_vehicle handler now (vehicle_info_from_json_string cjson (c_string payload))
          user_data
      else if has_prefix trafficlight_prefix topic
      then receive_traffic_light handler now (parse_traffic_light_topic_id topic)
          (traffic_light_from_json_string cjson (c_string payload)) user_data
      else user_data

  -- `ok` is `rc == 0`.
  unfoldable pub on_connect : MqttHandler S → Bool → MqttHandler S × List Call
  on_connect handler ok =
      if ok
      then (
        record handler { connected = true },
        mosquitto_subscribe topic_vehicle_status_wildcard
            ∷ mosquitto_subscribe topic_trafficlight_wildcard
            ∷ [],
      )
      else (record handler { connected = false }, [])

  unfoldable pub on_disconnect : MqttHandler S → MqttHandler S
  on_disconnect handler = record handler { connected = false }

  -- The handler, the calls and the result. The handler's old contents are overwritten.
  unfoldable pub mqtt_handler_init :
      Results → Str → ℕ → ℕ → MqttHandlerCallbacks S → MqttHandler S × List Call × Bool
  mqtt_handler_init results host port vehicle_id callbacks =
      let blank : MqttHandler S = record {
        mosq = false;
        vehicle_id = vehicle_id;
        status_topic = [];
        callbacks = callbacks;
        connected = false;
        initialized = false;
      } in
      let status_topic = safe_copy 64 (vehicle_status_topic vehicle_id) in
      let named : MqttHandler S = record blank { status_topic = status_topic } in
      let begun : List Call =
        mosquitto_lib_init
        ∷ mosquitto_new (safe_copy 64 (codes "v2x_vehicle_" ++ padded 2 vehicle_id))
        ∷ [] in
      let tried : List Call =
        begun
        ++ (mosquitto_callbacks_set
            ∷ mosquitto_will_set status_topic true
            ∷ mosquitto_connect host port 60
            ∷ []) in
      if not results.new_ok
      then (blank, begun ++ (mosquitto_lib_cleanup ∷ []), false)
      else if not results.connect_ok
      then (named, tried ++ (mosquitto_destroy ∷ mosquitto_lib_cleanup ∷ []), false)
      else if not results.loop_start_ok
      then (
        named,
        tried
            ++ (mosquitto_loop_start ∷ mosquitto_disconnect ∷ mosquitto_destroy
                ∷ mosquitto_lib_cleanup ∷ []),
        false,
      )
      else (
        record named { mosq = true; initialized = true },
        tried ++ (mosquitto_loop_start ∷ []),
        true,
      )

  unfoldable pub mqtt_handler_cleanup : MqttHandler S → MqttHandler S × List Call
  mqtt_handler_cleanup handler =
      if handler.initialized
      then (
        record handler { connected = false; mosq = false; initialized = false },
        mosquitto_loop_stop ∷ mosquitto_disconnect ∷ mosquitto_destroy ∷ mosquitto_lib_cleanup ∷ [],
      )
      else (handler, [])

  -- `ok` is what `mosquitto_publish` reports, if it is called.
  unfoldable pub mqtt_handler_publish_vehicle_info :
      {D : Doubles} → Cjson D → Calendar → MqttHandler S → VehicleInfo → Bool → List Call × Bool
  mqtt_handler_publish_vehicle_info {D} cjson calendar handler vehicle ok =
      if handler.initialized && handler.mosq
      then (
        mosquitto_publish handler.status_topic
              (vehicle_info_to_json_string D cjson calendar vehicle) true
            ∷ [],
        ok,
      )
      else ([], false)

  unfoldable pub mqtt_handler_is_connected : MqttHandler S → Bool
  mqtt_handler_is_connected handler = if handler.initialized then handler.connected else false
