-- ===== src/Mqtt/Thread.antt =====
-- core/mqtt_thread.c: what the MQTT thread and the callbacks do with the shared objects.
use green_right_topst_linux.Base.{
  ℕ, ◌+◌, List, [], Bool, ◌&&◌, Option, none, some, leb, if◌then◌else◌, Str,
}
use green_right_topst_linux.Types.{VehicleInfo, TrafficLight}
use green_right_topst_linux.Doubles.{Doubles}
use green_right_topst_linux.Libc.{Calendar}
use green_right_topst_linux.Codec.{Cjson}
use green_right_topst_linux.OtherVehicles.{
  OtherVehicleManager, other_vehicle_manager_update, other_vehicle_manager_cleanup_stale,
}
use green_right_topst_linux.TrafficLights.{TrafficLightManager, traffic_light_manager_update}
use green_right_topst_linux.PublishQueue.{VehiclePublishQueue, vehicle_publish_queue_try_pop}
use green_right_topst_linux.Mqtt.{
  Call, Results, MqttHandler, MqttHandlerCallbacks, mqtt_handler_init, mqtt_handler_cleanup,
  mqtt_handler_publish_vehicle_info, mqtt_handler_is_connected,
}

abbrev pub mqtt_thread_sleep_ms : ℕ
mqtt_thread_sleep_ms = 10

abbrev pub other_vehicle_timeout_ms : ℕ
other_vehicle_timeout_ms = 500

-- The managers of the context that the callbacks reach.
pub record Managers : Type 0 where
  pub others : OtherVehicleManager
  pub traffic_lights : TrafficLightManager

-- The part of `AppContext` that the thread uses.
pub record Context : Type 0 where
  pub running : Bool
  pub mqtt_host : Str
  pub mqtt_port : ℕ
  pub vehicle_id : ℕ
  pub mqtt : MqttHandler Managers
  pub self_publish_queue : VehiclePublishQueue
  pub managers : Managers

unfoldable pub on_vehicle_message : ℕ → VehicleInfo → Managers → Managers
on_vehicle_message now vehicle context = record context {
  others = other_vehicle_manager_update context.others vehicle now;
}

unfoldable pub on_traffic_light_message : ℕ → ℕ → TrafficLight → Managers → Managers
on_traffic_light_message now tl_id traffic_light context = record context {
  traffic_lights = traffic_light_manager_update context.traffic_lights tl_id traffic_light;
}

abbrev pub callbacks : MqttHandlerCallbacks Managers
callbacks = record {
  on_vehicle = some on_vehicle_message;
  on_traffic_light = some on_traffic_light_message;
}

abbrev pub clean : Context → ℕ → Context
clean context now = record context {
  managers = record context.managers {
    others =
        other_vehicle_manager_cleanup_stale context.managers.others other_vehicle_timeout_ms now;
  };
}

-- Where the thread is: before `mqtt_handler_init`, or in the inner loop with its `cleanup_elapsed`.
pub data Place : Type 0 where
  outer : Place
  inner : ℕ → Place

abbrev pub entered : MqttHandler Managers × List Call × Bool → Context → Context × Place × List Call
entered (handler, calls, ok) context =
    (record context { mqtt = handler }, if ok then Place.inner 0 else Place.outer, calls)

-- The inner loop is left.
unfoldable pub thread_leave : Context → Context × Place × List Call
thread_leave context =
    let (handler, calls) = mqtt_handler_cleanup context.mqtt in
    (record context { mqtt = handler }, Place.outer, calls)

module _ {D : Doubles} (cjson : Cjson D) (calendar : Calendar) where
  abbrev pub publish_popped :
      Context → Bool → VehiclePublishQueue × Option VehicleInfo → Context × List Call
  publish_popped context ok (queue, none) = (record context { self_publish_queue = queue }, [])
  publish_popped context ok (queue, some self) = (
    record context { self_publish_queue = queue },
    (mqtt_handler_publish_vehicle_info cjson calendar context.mqtt self ok).0,
  )

  unfoldable pub publish_latest_self_vehicle : Context → Bool → Context × List Call
  publish_latest_self_vehicle context ok =
      if mqtt_handler_is_connected context.mqtt
      then publish_popped context ok (vehicle_publish_queue_try_pop context.self_publish_queue)
      else (context, [])

  -- One round of the inner loop: the context and `cleanup_elapsed` after it, and the calls.
  unfoldable pub thread_round : Context → ℕ → ℕ → Bool → Context × ℕ × List Call
  thread_round context cleanup_elapsed now ok =
      let (context', calls) = publish_latest_self_vehicle context ok in
      let elapsed = cleanup_elapsed + mqtt_thread_sleep_ms in
      if leb other_vehicle_timeout_ms elapsed
      then (clean context' now, 0, calls)
      else (context', elapsed, calls)

  -- The thread's next step: a failed attempt to connect waits a second and is made again.
  unfoldable pub thread_turn : Context → Place → Results → ℕ → Bool → Context × Place × List Call
  thread_turn context Place.outer results now ok =
      if context.running
      then entered
          (mqtt_handler_init results context.mqtt_host context.mqtt_port context.vehicle_id
            callbacks)
          context
      else (context, Place.outer, [])
  thread_turn context (Place.inner cleanup_elapsed) results now ok =
      if context.running && context.mqtt.initialized
      then (let (context', elapsed, calls) = thread_round context cleanup_elapsed now ok in
          (context', Place.inner elapsed, calls))
      else thread_leave context
