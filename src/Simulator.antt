-- ===== src/Simulator.antt =====
-- tools/fake_vehicle_l15_to_l6.c: a made-up vehicle that drives along one lane and is published like a real
-- one. The calls of mosquitto and of mutexes are collected in lists; what they report, and the readings
-- of the clocks, are arguments. Printing and sleeping are left out.
pub mod Route
pub mod Balance
use green_right_topst_linux.Base.{
  ℕ, zero, suc, ◌+◌, ◌%◌, ◌^◌, List, [], ◌∷◌, ◌++◌, Bool, true, false, not, Option, none, some, ltb,
  leb, if◌then◌else◌, length, get_elem?, Str, codes, safe_copy,
}
use green_right_topst_linux.Types.{
  VehicleInfo, EgoVehicle, blank_ego, TurnState, MapContext, turn_signal_none,
}
use green_right_topst_linux.Doubles.{Doubles}
use green_right_topst_linux.Libc.{Calendar, atoi, decimal}
use green_right_topst_linux.Codec.{Cjson, vehicle_info_to_json_string}
use green_right_topst_linux.Map.Service.{MapService}
use green_right_topst_linux.Map.File.{MapFile, map_service_init}
use green_right_topst_linux.SelfVehicle.{
  SelfVehicleManager, self_vehicle_manager_init, self_vehicle_manager_set_turn_state,
  self_vehicle_manager_update_from_can, self_vehicle_manager_get_info,
}
use green_right_topst_linux.Mqtt.{
  Call, mosquitto_lib_init, mosquitto_new, mosquitto_connect, mosquitto_loop_start,
  mosquitto_loop_stop, mosquitto_disconnect, mosquitto_destroy, mosquitto_lib_cleanup,
  mosquitto_publish, Results, vehicle_status_topic,
}
use green_right_topst_linux.App.{
  MainCall, mutex_init, mutex_destroy, self_lock, argument, default_map_path,
}

abbrev pub default_vehicle_id : ℕ
default_vehicle_id = 2

abbrev pub default_speed : ℕ
default_speed = 30

abbrev pub default_heading : ℕ
default_heading = 90

abbrev pub route_start_x : ℕ
route_start_x = 30

abbrev pub route_end_x : ℕ
route_end_x = 370

abbrev pub route_step_x : ℕ
route_step_x = 4

abbrev pub route_y : ℕ
route_y = 220

unfoldable pub fill_ego : ℕ → EgoVehicle
fill_ego x = record blank_ego {
  x = x;
  y = route_y;
  speed = default_speed;
  heading = default_heading;
  turn_signal = turn_signal_none;
}

-- The end of a round of the loop.
unfoldable pub next_x : ℕ → ℕ
next_x x = if leb route_end_x x then route_start_x else (x + route_step_x) % 2 ^ 16

-- What a round reads: the reference epoch, the monotonic clock in `update_from_can` and in `get_info`, the
-- uninitialised `MapContext`, and what `mosquitto_publish` reports.
pub record Tick : Type 0 where
  pub sync_epoch_ms : ℕ
  pub update_ms : ℕ
  pub get_ms : ℕ
  pub garbage : MapContext
  pub publish_ok : Bool

module _ {D : Doubles} (cjson : Cjson D) (calendar : Calendar) where
  unfoldable pub publish_vehicle : Str → VehicleInfo → Bool → List Call × Bool
  publish_vehicle topic vehicle ok = (
    mosquitto_publish topic (vehicle_info_to_json_string D cjson calendar vehicle) false ∷ [],
    ok,
  )

  abbrev pub publish_info : Str → Option VehicleInfo → Bool → List Call
  publish_info topic none ok = []
  publish_info topic (some vehicle) ok = (publish_vehicle topic vehicle ok).0

  -- The rounds of the loop while `g_running` is set, from a position on.
  unfoldable pub drive : MapService D → Str → SelfVehicleManager → ℕ → List Tick → List Call
  drive map topic manager x [] = []
  drive map topic manager x (tick ∷ ticks) =
      let manager' =
        self_vehicle_manager_update_from_can manager map tick.garbage (fill_ego x)
          tick.sync_epoch_ms tick.update_ms in
      publish_info topic (self_vehicle_manager_get_info manager' tick.get_ms) tick.publish_ok
      ++ drive map topic manager' (next_x x) ticks

-- What the program is given: `argv`, the file at a path, what mosquitto reports, and the rounds until
-- `handle_signal` clears `g_running`.
pub record Trip : Type 0 where
  pub argv : List Str
  pub file : Str → MapFile
  pub results : Results
  pub ticks : List Tick

-- The calls of mosquitto and of mutexes, and the result of `main`.
pub record Outcome : Type 0 where
  pub calls : List Call
  pub locks : List MainCall
  pub result : ℕ

abbrev pub id_of : List Str → ℕ
id_of argv = argument (get_elem? argv 3) (λ s. atoi s % 2 ^ 8) default_vehicle_id

abbrev pub topic_of : ℕ → Str
topic_of vehicle_id = safe_copy 128 (vehicle_status_topic vehicle_id)

-- The manager when the loop begins.
abbrev pub manager_of : ℕ → SelfVehicleManager
manager_of vehicle_id =
    self_vehicle_manager_set_turn_state (self_vehicle_manager_init vehicle_id) TurnState.straight

-- The calls of mosquitto and the result, by what `mosquitto_new`, `mosquitto_connect` and
-- `mosquitto_loop_start` report.
unfoldable pub broker_part : Str → Str → ℕ → List Call → Bool → Bool → Bool → List Call × ℕ
broker_part client_id host port rounds false connect_ok loop_start_ok =
    (mosquitto_lib_init ∷ mosquitto_new client_id ∷ mosquitto_lib_cleanup ∷ [], 1)
broker_part client_id host port rounds true false loop_start_ok = (
  mosquitto_lib_init
      ∷ mosquitto_new client_id
      ∷ mosquitto_connect host port 30
      ∷ mosquitto_destroy
      ∷ mosquitto_lib_cleanup
      ∷ [],
  1,
)
broker_part client_id host port rounds true true false = (
  mosquitto_lib_init
      ∷ mosquitto_new client_id
      ∷ mosquitto_connect host port 30
      ∷ mosquitto_loop_start
      ∷ mosquitto_destroy
      ∷ mosquitto_lib_cleanup
      ∷ [],
  1,
)
broker_part client_id host port rounds true true true = (
  mosquitto_lib_init
      ∷ mosquitto_new client_id
      ∷ mosquitto_connect host port 30
      ∷ mosquitto_loop_start
      ∷ (rounds
          ++ (mosquitto_loop_stop ∷ mosquitto_disconnect ∷ mosquitto_destroy ∷ mosquitto_lib_cleanup
              ∷ [])),
  0,
)

-- From the map on.
unfoldable pub fake_vehicle_run :
    (D : Doubles) → Cjson D → Calendar → MapService D → Trip → List Call × ℕ
fake_vehicle_run D cjson calendar map trip =
    let vehicle_id = id_of trip.argv in
    broker_part (safe_copy 64 (codes "greenright_fake_vehicle_" ++ decimal vehicle_id))
      (argument (get_elem? trip.argv 1) (λ s. s) []) (argument (get_elem? trip.argv 2) atoi 0)
      (drive cjson calendar map (topic_of vehicle_id) (manager_of vehicle_id) route_start_x
        trip.ticks)
      trip.results.new_ok trip.results.connect_ok trip.results.loop_start_ok

-- Nothing was done but to report the failure.
abbrev pub refused : Outcome
refused = record { calls = []; locks = []; result = 1 }

-- The mutex of the manager is given back on each path.
unfoldable pub fake_vehicle_main :
    (D : Doubles) → Cjson D → Calendar → (Str → D.Double) → Trip → Outcome
fake_vehicle_main D cjson calendar atof trip =
    let map_path = argument (get_elem? trip.argv 4) (λ s. s) default_map_path in
    let (map, loaded) = map_service_init {D = D} atof (trip.file map_path) in
    let (calls, result) = fake_vehicle_run D cjson calendar map trip in
    if ltb (length trip.argv) 3
    then refused
    else if loaded
    then record {
      calls = calls;
      locks = mutex_init self_lock ∷ mutex_destroy self_lock ∷ [];
      result = result;
    }
    else refused
