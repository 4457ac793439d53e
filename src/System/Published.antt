-- ===== src/System/Published.antt =====
-- From a frame of the controller to what is published over MQTT.
use green_right_topst_linux.Base.{
  ℕ, ◌+◌, ◌-◌, ◌^◌, ◌≤◌, ◌<◌, ◌≡◌, refl, ap, ◌∙◌, subst, List, [], ◌∷◌, ◌++◌, Bool, true, false,
  Option, none, some, if◌then◌else◌, leb, Bool-cases, inl, inr, length, arith, Str, safe_copy,
}
use green_right_topst_linux.Types.{VehicleInfo, EgoVehicle}
use green_right_topst_linux.Doubles.{Doubles}
use green_right_topst_linux.Libc.{Calendar}
use green_right_topst_linux.Codec.{Cjson, vehicle_info_to_json_string}
use green_right_topst_linux.Map.Service.{MapService}
use green_right_topst_linux.SelfVehicle.{self_vehicle_manager_get_info}
use green_right_topst_linux.SelfVehicle.Freshness.{get_info-update_from_can}
use green_right_topst_linux.PublishQueue.{
  VehiclePublishQueue, vehicle_publish_queue_push, vehicle_publish_queue_try_pop,
}
use green_right_topst_linux.EgoFrame.{Readings, RxContext, push_latest, on_ego_frame}
use green_right_topst_linux.Can.Rx.{received}
use green_right_topst_linux.Can.Rx.Deliver.{Message, IsMessage, stream}
use green_right_topst_linux.RxThread.{World, rx_turn}
use green_right_topst_linux.RxThread.Arrival.{rx_turn-stream}
use green_right_topst_linux.Mqtt.{
  mosquitto_publish, Results, vehicle_status_topic, mqtt_handler_is_connected,
  mqtt_handler_publish_vehicle_info,
}
use green_right_topst_linux.Mqtt.Thread.{
  Context, Place, thread_turn, thread_round, publish_latest_self_vehicle,
}
use green_right_topst_linux.Mqtt.Sound.{Fits}
use green_right_topst_linux.Mqtt.Events.{step}
use green_right_topst_linux.System.{System, receive, mqtt_turn, rx_view, system_step}
use green_right_topst_linux.System.Sound.{IsConsistent}
use green_right_topst_linux.System.Heard.{inner_lem}

-- A vehicle with an id that is where a frame says.
pub record IsAt (own : ℕ) (ego : EgoVehicle) (v : VehicleInfo) : Type 0 where
  pub id : v.vehicle_id ≡ own
  pub x_is : v.x ≡ ego.x
  pub y_is : v.y ≡ ego.y
  pub speed_is : v.speed ≡ ego.speed
  pub heading_is : v.heading ≡ ego.heading

-- The clock's two readings in `on_ego_frame`: at most 300 ms apart.
pub record IsPrompt (r : Readings) : Type 0 where
  pub later : r.update_ms ≤ r.get_ms
  pub soon : r.get_ms ≤ r.update_ms + 300
  pub fits : r.get_ms < 2 ^ 64

pushed_lem :
    (queue : VehiclePublishQueue) (o : Option VehicleInfo) (v : VehicleInfo)
    → o ≡ some v
    → ((push_latest queue o).pending ≡ true) × ((push_latest queue o).latest ≡ v)
unfolding vehicle_publish_queue_push
pushed_lem queue none v h = absurd cc
pushed_lem queue (some w) v h = (refl, ground arith)

within : (a b : ℕ) → a ≤ b + 300 → leb (a - b) 300 ≡ true
within a b h = ground arith

frame_lem :
    {D : Doubles} (map : MapService D) (r : Readings) (c : RxContext) (ego : EgoVehicle)
    → IsPrompt r
    → let c' = on_ego_frame map r c ego in
      (c'.self_publish_queue.pending ≡ true)
      × (c'.self_publish_queue.latest ≡ c'.self.info)
      × IsAt c.self.vehicle_id ego c'.self.info
unfolding on_ego_frame
frame_lem map r c ego prompt =
    let self = (on_ego_frame map r c ego).self in
    let g =
      get_info-update_from_can map _ r.update_garbage ego _ r.update_ms r.get_ms prompt.later
        prompt.fits in
    let soon : leb (r.get_ms - r.update_ms) 300 ≡ true = within r.get_ms r.update_ms prompt.soon in
    let got : self_vehicle_manager_get_info self r.get_ms ≡ some self.info =
      g.0 ∙ ap (λ (b : Bool). if b then some self.info else none) soon in
    let pushed = pushed_lem c.self_publish_queue _ self.info got in
    (
      pushed.0,
      pushed.1,
      record { id = g.5; x_is = g.1; y_is = g.2; speed_is = g.3; heading_is = g.4 },
    )

module _ {D : Doubles} (cjson : Cjson D) (calendar : Calendar) (own : ℕ) where
  turn_lem :
      (context : Context) (place : Place) (results : Results) (now : ℕ) (ok : Bool)
      (v : VehicleInfo) (topic : Str)
      → Fits own place context.mqtt
      → mqtt_handler_is_connected context.mqtt ≡ true
      → context.running ≡ true
      → context.self_publish_queue.pending ≡ true
      → context.self_publish_queue.latest ≡ v
      → context.mqtt.status_topic ≡ topic
      → (thread_turn cjson calendar context place results now ok).2
        ≡ mosquitto_publish topic (vehicle_info_to_json_string D cjson calendar v) true ∷ []
  unfolding thread_turn thread_round publish_latest_self_vehicle vehicle_publish_queue_try_pop
      mqtt_handler_publish_vehicle_info
  turn_lem context Place.outer results now ok v topic f connected running pending latest t =
      let here = inner_lem own Place.outer context.mqtt f connected in absurd (cc (here.0, f.1))
  turn_lem context (Place.inner elapsed) results now ok v topic f connected running pending latest
        t =
      elim (Bool-cases (leb 500 (elapsed + 10))) [
        | inl e ↦ simp (running, f.0, f.1, connected, pending, latest, t, e) refl
        | inr e ↦ simp (running, f.0, f.1, connected, pending, latest, t, e) refl
      ]

  -- In a consistent state of the running program, with the receive thread in its inner loop on the real
  -- device and a client that is connected: if a read of at most 1024 bytes, with what is in a buffer of
  -- less than 1024 bytes, makes exactly one message of the controller, and the two clock readings of
  -- `on_ego_frame` are at most 300 ms apart, the next step of the MQTT thread publishes one vehicle, on
  -- the own topic and retained: with the own id, and with the place, the speed and the heading of the
  -- message.
  pub frame_is_published :
      (s : System D) (world : World) (bytes : List ℕ) (m : Message) (results : Results) (now : ℕ)
      (ok : Bool)
      → IsConsistent own s
      → s.app.running ≡ true
      → s.polling ≡ true
      → s.app.can.rx_mock_mode ≡ false
      → mqtt_handler_is_connected s.app.mqtt ≡ true
      → length s.app.can.rx_buffer < 0x400
      → 0 < length bytes
      → length bytes ≤ 0x400
      → s.app.can.rx_buffer ++ bytes ≡ stream (m ∷ [])
      → IsMessage m
      → IsPrompt (world.readings 0)
      → let s' =
          (system_step cjson calendar s (receive (record world { input = received bytes }))).0 in
        (v : VehicleInfo) × IsAt own m.1 v
        × ((system_step cjson calendar s' (mqtt_turn results now ok)).1.mqtt
            ≡ mosquitto_publish
                (safe_copy 64 (vehicle_status_topic own))
                (vehicle_info_to_json_string D cjson calendar v)
                true
              ∷ [])
  unfolding system_step step
  frame_is_published s world bytes m results now ok w running polling mock connected room some_bytes
        few whole message prompt =
      let t = (rx_turn s.app.map (rx_view s) (record world { input = received bytes })).0 in
      let arrived : t.context ≡ on_ego_frame s.app.map (world.readings 0) (rx_view s).context m.1 =
        (rx_turn-stream s.app.map (rx_view s) world bytes m [] polling running
          (w.rx.along ∙ polling) mock room some_bytes few whole (message, tt)).1 in
      let frame = frame_lem s.app.map (world.readings 0) (rx_view s).context m.1 prompt in
      let mosq = (inner_lem own s.place s.app.mqtt w.mqtt.fits connected).0 in
      let c' = on_ego_frame s.app.map (world.readings 0) (rx_view s).context m.1 in
      (
        c'.self.info,
        subst (λ id. IsAt id m.1 c'.self.info) w.rx.coherent.self_id frame.2,
        turn_lem _ s.place results now ok c'.self.info (safe_copy 64 (vehicle_status_topic own))
            w.mqtt.fits connected running
            (ap (λ (c : RxContext). c.self_publish_queue.pending) arrived ∙ frame.0)
            (ap (λ (c : RxContext). c.self_publish_queue.latest) arrived ∙ frame.1)
            (w.addressed.topic mosq),
      )
