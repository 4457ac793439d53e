-- ===== src/App.antt =====
-- core/main.c and core/app_context.h: the start and the end of the program. What the operating system
-- answers is an argument; the calls on mutexes and threads are collected in a list. Three of the four
-- calls of `pthread_mutex_init` have their results ignored, and are taken to succeed.
pub mod Process
use green_right_topst_linux.Base.{
  ℕ, ◌%◌, ◌^◌, List, [], ◌∷◌, ◌++◌, Bool, true, false, ◌&&◌, Option, none, some, if◌then◌else◌,
  get_elem?, Str, codes, str_eq, safe_copy,
}
use green_right_topst_linux.Types.{blank_vehicle, blank_ego, TurnState}
use green_right_topst_linux.Doubles.{Doubles}
use green_right_topst_linux.Libc.{atoi}
use green_right_topst_linux.Can.Rx.{CanHandler}
use green_right_topst_linux.Can.Device.{can_handler_default_dev_path, blank_handler}
use green_right_topst_linux.Map.Service.{MapService}
use green_right_topst_linux.Map.File.{MapFile, map_service_init}
use green_right_topst_linux.Map.Xml.Rules.{blank_map}
use green_right_topst_linux.SelfVehicle.{SelfVehicleManager, self_vehicle_manager_init}
use green_right_topst_linux.PublishQueue.{VehiclePublishQueue, vehicle_publish_queue_init}
use green_right_topst_linux.OtherVehicles.{OtherVehicleManager, other_vehicle_manager_init}
use green_right_topst_linux.TrafficLights.{TrafficLightManager, traffic_light_manager_init}
use green_right_topst_linux.Mqtt.{MqttHandler}
use green_right_topst_linux.Mqtt.Thread.{Managers}

-- The pointer `can_dev_path` is `none` while it is NULL. The objects behind the handler's `user_data`
-- are the two managers at the end.
pub record AppContext (D : Doubles) : Type 0 where
  pub running : Bool
  pub candidate_vehicle_tx_enabled : Bool
  pub mqtt_host : Str
  pub mqtt_port : ℕ
  pub vehicle_id : ℕ
  pub can_dev_path : Option Str
  pub can_rx_mock : Bool
  pub can_tx_mock : Bool
  pub can : CanHandler
  pub mqtt : MqttHandler Managers
  pub map : MapService D
  pub self : SelfVehicleManager
  pub self_publish_queue : VehiclePublishQueue
  pub others : OtherVehicleManager
  pub traffic_lights : TrafficLightManager

-- The mutexes and threads of the program, and the calls on them. `thread_create` has whether it
-- succeeds.
pub data Object : Type 0 where
  self_lock queue_lock others_lock lights_lock : Object
  can_rx_thread can_tx_thread mqtt_thread : Object

pub data MainCall : Type 0 where
  mutex_init mutex_destroy : Object → MainCall
  thread_create : Object → Bool → MainCall
  thread_join : Object → MainCall

-- What the program is given: `argv`, the two environment variables, the file at a path, and whether
-- `pthread_mutex_init` succeeds for the queue.
pub record Startup : Type 0 where
  pub argv : List Str
  pub can_rx_mock_env : Option Str
  pub can_tx_mock_env : Option Str
  pub file : Str → MapFile
  pub queue_lock_ok : Bool

abbrev pub default_map_path : Str
default_map_path = codes "map/intersection_lanelet_v1.xml"

abbrev pub default_mqtt_host : Str
default_mqtt_host = codes "127.0.0.1"

abbrev pub default_mqtt_port : ℕ
default_mqtt_port = 1883

abbrev pub default_vehicle_id : ℕ
default_vehicle_id = 1

-- `argc > i ? f(argv[i]) : otherwise`
abbrev pub argument : {A : Type 0} → Option Str → (Str → A) → A → A
argument none f otherwise = otherwise
argument (some s) f otherwise = f s

-- `env && strcmp(env, "1") == 0`
abbrev pub is_one : Option Str → Bool
is_one none = false
is_one (some s) = str_eq s (codes "1")

abbrev pub vehicle_id_of : List Str → ℕ
vehicle_id_of argv = argument (get_elem? argv 4) (λ s. atoi s % 2 ^ 8) default_vehicle_id

abbrev pub map_path_of : List Str → Str
map_path_of argv = argument (get_elem? argv 3) (λ s. s) default_map_path

abbrev pub app_cleanup : List MainCall
app_cleanup =
    mutex_destroy lights_lock
    ∷ mutex_destroy others_lock
    ∷ mutex_destroy queue_lock
    ∷ mutex_destroy self_lock
    ∷ []

abbrev pub join_threads : List MainCall
join_threads = thread_join can_rx_thread ∷ thread_join can_tx_thread ∷ thread_join mqtt_thread ∷ []

module _ {D : Doubles} where
  -- The context after `memset` and `atomic_init`: every number is 0, so that `can.fd` is 0.
  abbrev pub blank_app : AppContext D
  blank_app = record {
    running = true;
    candidate_vehicle_tx_enabled = false;
    mqtt_host = [];
    mqtt_port = 0;
    vehicle_id = 0;
    can_dev_path = none;
    can_rx_mock = false;
    can_tx_mock = false;
    can = record (blank_handler false false) { fd = some 0 };
    mqtt = record {
      mosq = false;
      vehicle_id = 0;
      status_topic = [];
      callbacks = record { on_vehicle = none; on_traffic_light = none };
      connected = false;
      initialized = false;
    };
    map = record { map = blank_map; loaded = false };
    self = record {
      ego = blank_ego;
      info = blank_vehicle;
      last_update_monotonic_ms = 0;
      turn_state = TurnState.straight;
      vehicle_id = 0;
      valid = false;
    };
    self_publish_queue = record { latest = blank_vehicle; pending = false };
    others = other_vehicle_manager_init;
    traffic_lights = record traffic_light_manager_init { candidate_id = 0 };
  }

-- The context at the end of a successful `app_init`.
abbrev pub ready_app : {D : Doubles} → MapService D → Startup → AppContext D
ready_app map startup = record blank_app {
  map = map;
  self = self_vehicle_manager_init (vehicle_id_of startup.argv);
  self_publish_queue = vehicle_publish_queue_init;
  others = other_vehicle_manager_init;
  traffic_lights = traffic_light_manager_init;
  mqtt_host = safe_copy 128 (argument (get_elem? startup.argv 1) (λ s. s) default_mqtt_host);
  mqtt_port = argument (get_elem? startup.argv 2) atoi default_mqtt_port;
  vehicle_id = vehicle_id_of startup.argv;
  can_dev_path = some can_handler_default_dev_path;
  can_rx_mock = is_one startup.can_rx_mock_env;
  can_tx_mock = is_one startup.can_tx_mock_env;
}

-- The context, the calls and the result.
unfoldable pub app_init :
    (D : Doubles) → (Str → D.Double) → Startup → AppContext D × List MainCall × Bool
app_init D atof startup =
    let (map, loaded) = map_service_init {D = D} atof (startup.file (map_path_of startup.argv)) in
    let mapped : AppContext D = record blank_app { map = map } in
    let named : AppContext D = record mapped {
      self = self_vehicle_manager_init (vehicle_id_of startup.argv);
    } in
    if loaded
    then if startup.queue_lock_ok
      then (
        ready_app map startup,
        mutex_init self_lock
            ∷ mutex_init queue_lock
            ∷ mutex_init others_lock
            ∷ mutex_init lights_lock
            ∷ [],
        true,
      )
      else (named, mutex_init self_lock ∷ [], false)
    else (mapped, [], false)

module _ {D : Doubles} where
  -- `SIGINT` or `SIGTERM`.
  unfoldable pub handle_signal : AppContext D → AppContext D
  handle_signal app = record app { running = false }

  -- Whether `pthread_create` succeeds for each thread.
  unfoldable pub start_threads : AppContext D → Bool → Bool → Bool → AppContext D × List MainCall
  start_threads app rx_ok mqtt_ok tx_ok = (
    record app { running = app.running && (rx_ok && (mqtt_ok && tx_ok)) },
    thread_create can_rx_thread rx_ok
        ∷ thread_create mqtt_thread mqtt_ok
        ∷ thread_create can_tx_thread tx_ok
        ∷ [],
  )

-- The calls of `main`, and its result. What the threads do in between is in System.
unfoldable pub main :
    (D : Doubles) → (Str → D.Double) → Startup → Bool → Bool → Bool → List MainCall × ℕ
main D atof startup rx_ok mqtt_ok tx_ok =
    let (app, calls, ok) = app_init D atof startup in
    if ok
    then (calls ++ ((start_threads app rx_ok mqtt_ok tx_ok).1 ++ (join_threads ++ app_cleanup)), 0)
    else (calls ++ app_cleanup, 1)
