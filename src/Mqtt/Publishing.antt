-- ===== src/Mqtt/Publishing.antt =====
-- What the MQTT thread publishes.
use green_right_topst_linux.Base.{
  ◌≡◌, refl, ◌∙◌, List, [], ◌∷◌, Bool, true, Option, none, some, if◌then◌else◌, Bool-cases, inl,
  inr,
}
use green_right_topst_linux.Types.{VehicleInfo}
use green_right_topst_linux.Doubles.{Doubles}
use green_right_topst_linux.Libc.{Calendar}
use green_right_topst_linux.Codec.{Cjson, vehicle_info_to_json_string}
use green_right_topst_linux.PublishQueue.{vehicle_publish_queue_try_pop, content}
use green_right_topst_linux.Mqtt.{
  Call, MqttHandler, mqtt_handler_publish_vehicle_info, mqtt_handler_is_connected,
}
use green_right_topst_linux.Mqtt.Thread.{Managers, Context, publish_latest_self_vehicle}

module _ {D : Doubles} (cjson : Cjson D) (calendar : Calendar) where
  abbrev pub published : MqttHandler Managers → Option VehicleInfo → List Call
  published handler none = []
  published handler (some v) =
      Call.mosquitto_publish handler.status_topic (vehicle_info_to_json_string D cjson calendar v)
        true
      ∷ []

  -- If the client is connected and a vehicle waits, the queue is emptied and that vehicle is published,
  -- retained, on the handler's topic; otherwise nothing is published and the queue stays as it is.
  pub publish_latest_self_vehicle-content :
      (context : Context) (ok : Bool)
      → context.mqtt.mosq ≡ context.mqtt.initialized
      → (let (after, calls) = publish_latest_self_vehicle cjson calendar context ok in
          (calls
            ≡ published context.mqtt (
                if mqtt_handler_is_connected context.mqtt
                then content context.self_publish_queue
                else none))
          × (content after.self_publish_queue ≡ (
              if mqtt_handler_is_connected context.mqtt
              then none
              else content context.self_publish_queue)))
  unfolding publish_latest_self_vehicle vehicle_publish_queue_try_pop
      mqtt_handler_publish_vehicle_info mqtt_handler_is_connected
  publish_latest_self_vehicle-content context ok h = elim (Bool-cases context.mqtt.initialized) [
    | inl i ↦ elim (Bool-cases context.mqtt.connected) [
      | inl e ↦ elim (Bool-cases context.self_publish_queue.pending) [
        | inl f ↦ simp (i, e, f, h ∙ i) (refl, refl)
        | inr f ↦ simp (i, e, f) (refl, refl)
      ]
      | inr e ↦ simp (i, e) (refl, refl)
    ]
    | inr i ↦ simp i (refl, refl)
  ]
