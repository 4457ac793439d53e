-- ===== src/Mqtt/Delivery.antt =====
-- From one vehicle's MQTT client to another's: a broker passes what is published to a subscriber.
use green_right_topst_linux.Base.{
  ℕ, ◌<◌, ◌≡◌, ◌≢◌, refl, ap, ◌∙◌, List, [], ◌∷◌, Bool, true, false, some, ◌==◌, length, arith, Str,
  All, str_eq, safe_copy, is_empty,
}
use green_right_topst_linux.Types.{VehicleInfo}
use green_right_topst_linux.Doubles.{Doubles}
use green_right_topst_linux.Libc.{has_prefix, Calendar}
use green_right_topst_linux.Codec.{
  Cjson, FindsMembers, vehicle_info_to_json, vehicle_info_from_json_string,
  vehicle_info_to_json_string,
}
use green_right_topst_linux.Codec.RoundTrip.{
  IsWire, IsExact, vehicle_info_from_json_string-to_json_string,
}
use green_right_topst_linux.OtherVehicles.{other_vehicle_manager_get}
use green_right_topst_linux.OtherVehicles.Table.{get-update}
use green_right_topst_linux.Mqtt.{
  Call, MqttHandler, receive_vehicle, on_message, c_string, topic_vehicle_status_prefix,
  vehicle_status_topic, mqtt_handler_init, mqtt_handler_publish_vehicle_info,
}
use green_right_topst_linux.Mqtt.Thread.{Managers, callbacks, on_vehicle_message}

-- The text of a C string: no NUL, and here not empty.
pub record IsText (s : Str) : Type 0 where
  pub no_nul : All (λ (c : ℕ). 0 < c) s
  pub not_empty : is_empty s ≡ false

c_string_lem : (s : Str) → All (λ (c : ℕ). 0 < c) s → c_string s ≡ s
unfolding c_string
c_string_lem [] h = refl
c_string_lem (c ∷ s) h = ground (arith, c_string_lem s h.1)

-- What a subscriber's callback makes of the calls of a publisher, at one reading of its clock.
abbrev pub delivered :
    {D : Doubles} → Cjson D → MqttHandler Managers → ℕ → List Call → Managers → Managers
delivered cjson receiver now [] m = m
delivered cjson receiver now (Call.mosquitto_publish topic payload retain ∷ cs) m =
    delivered cjson receiver now cs (on_message cjson receiver now topic payload m)
delivered cjson receiver now (_ ∷ cs) m = delivered cjson receiver now cs m

-- The handler that a successful `mqtt_handler_init` leaves.
abbrev pub opened : Str → ℕ → ℕ → MqttHandler Managers
opened host port vehicle_id =
    (mqtt_handler_init (record { new_ok = true; connect_ok = true; loop_start_ok = true }) host port
      vehicle_id callbacks).0

-- The topic of every vehicle is one that a receiver takes for a vehicle's.
topic_lem :
    (id : ℕ)
    → has_prefix topic_vehicle_status_prefix (safe_copy 64 (vehicle_status_topic id)) ≡ true
unfolding has_prefix safe_copy str_eq
topic_lem id = refl

module _ (D : Doubles) (cjson : Cjson D) (calendar : Calendar) (v : VehicleInfo) (exact : IsExact D)
    (wire : IsWire v) (finds : FindsMembers cjson)
    (text : IsText (cjson.print (vehicle_info_to_json D calendar v)))
    (parses : cjson.parse (cjson.print (vehicle_info_to_json D calendar v))
      ≡ some (vehicle_info_to_json D calendar v)) where
  text_lem : IsText (vehicle_info_to_json_string D cjson calendar v)
  unfolding vehicle_info_to_json_string
  text_lem = text

  message_lem :
      (receiver : MqttHandler Managers) (now : ℕ) (topic : Str) (m : Managers)
      → has_prefix topic_vehicle_status_prefix topic ≡ true
      → on_message cjson receiver now topic (vehicle_info_to_json_string D cjson calendar v) m
        ≡ receive_vehicle receiver now (some v) m
  unfolding on_message
  message_lem receiver now topic m h = simp (not_empty, h, decoded) refl
    where
      not_empty : is_empty (vehicle_info_to_json_string D cjson calendar v) ≡ false
      not_empty = text_lem.not_empty

      decoded :
          vehicle_info_from_json_string cjson
            (c_string (vehicle_info_to_json_string D cjson calendar v))
          ≡ some v
      decoded =
          ap (vehicle_info_from_json_string cjson)
            (c_string_lem (vehicle_info_to_json_string D cjson calendar v) text_lem.no_nul)
          ∙ vehicle_info_from_json_string-to_json_string D cjson calendar v exact wire finds parses

  -- What a vehicle publishes after a successful start of its client, another vehicle's client,
  -- with the thread's callbacks and a table of 64 slots, stores under its id, if that is below 64
  -- and not the receiver's own. The vehicle's fields fit their C types and its time stamp a
  -- double, it has at most four conflict zones and no text in the unused places for them, the printer's text is not empty, holds no NUL, and is read back by the parser, and
  -- members are looked up by name.
  pub get-delivered-publish :
      (host : Str) (port now : ℕ) (receiver : MqttHandler Managers) (m : Managers) (ok : Bool)
      → v.vehicle_id < 64
      → v.vehicle_id ≢ receiver.vehicle_id
      → receiver.callbacks ≡ callbacks
      → length m.others.slots ≡ 64
      → other_vehicle_manager_get
          (delivered cjson receiver now
            (mqtt_handler_publish_vehicle_info cjson calendar
              (opened host port v.vehicle_id)
              v
              ok).0
            m).others
          v.vehicle_id
        ≡ some v
  unfolding mqtt_handler_publish_vehicle_info mqtt_handler_init receive_vehicle on_vehicle_message
  get-delivered-publish host port now receiver m ok small other c size =
      let topic = safe_copy 64 (vehicle_status_topic v.vehicle_id) in
      let not_own : (v.vehicle_id == receiver.vehicle_id) ≡ false = ground arith in
      simp (message_lem receiver now topic m (topic_lem v.vehicle_id), not_own, c)
        (ground (arith, get-update m.others v now v.vehicle_id size))
