-- ===== src/Examples/Whole.antt =====
-- The whole program, and the simulator, on a small map.
use green_right_topst_linux.Base.{
  ℕ, ◌≡◌, refl, List, [], ◌∷◌, true, false, none, some, length, Str, codes, All,
}
use green_right_topst_linux.Libc.{Calendar}
use green_right_topst_linux.Codec.{Cjson}
use green_right_topst_linux.Map.File.{MapFile, map_service_init}
use green_right_topst_linux.Mqtt.{Results}
use green_right_topst_linux.Mqtt.Thread.{Place}
use green_right_topst_linux.Can.Rx.{Input}
use green_right_topst_linux.RxThread.{World}
use green_right_topst_linux.App.{Startup, handle_signal, app_init, start_threads, main}
use green_right_topst_linux.App.Process.{live_after, live-main}
use green_right_topst_linux.System.{
  System, SystemEvent, receive, mqtt_turn, mqtt_callback, message, connect, transmit, signal,
  Output, begin, system_step, system_run,
}
use green_right_topst_linux.System.Sound.{IsConsistent, system_step-IsConsistent}
use green_right_topst_linux.System.Start.{system_run-IsConsistent_from_start}
use green_right_topst_linux.System.Outputs.{IsSafe, system_run-IsSafe}
use green_right_topst_linux.System.Stop.{system_run_stops}
use green_right_topst_linux.Simulator.{Trip, Tick, fake_vehicle_main}
use green_right_topst_linux.Simulator.Route.{IsTripCall, fake_vehicle_main-IsTripCall}
use green_right_topst_linux.Examples.{naturals, readings}
use green_right_topst_linux.Examples.Bus.{ego_frame}

calendar : Calendar
calendar = record {
  gmtime =
      λ s. record { tm_year = 70; tm_mon = 0; tm_mday = 1; tm_hour = 0; tm_min = 0; tm_sec = 0 };
  timegm = λ tm. some (0, tm);
}

cjson : Cjson naturals
cjson = record { print = λ j. codes "{}"; parse = λ s. none; get_object_item = λ j key. none }

abbrev map_file : Str → MapFile
map_file path = record {
  fopen_ok = true;
  fseek_ok = true;
  size = some 17;
  malloc_ok = true;
  bytes = codes "<map width=\"9\"/>.";
}

abbrev startup : Startup
startup = record {
  argv = codes "v2x_mqtt" ∷ codes "broker" ∷ [];
  can_rx_mock_env = none;
  can_tx_mock_env = some (codes "1");
  file = map_file;
  queue_lock_ok = true;
}

begun : (app_init naturals (λ s. length s) startup).2 ≡ true
unfolding app_init map_service_init green_right_topst_linux.Map.File.read_file_to_buffer
    green_right_topst_linux.Map.Xml.Rules.intersection_map_load_xml
begun = refl

abbrev ready : System naturals
ready = begin (start_threads (app_init naturals (λ s. length s) startup).0 true true true).0

-- What the receive thread meets: the device opens, and a frame arrives.
abbrev arrival : World
arrival = record {
  answer = some 3;
  clock = λ n. n;
  input = Input.received ego_frame;
  readings = λ n. readings;
}

abbrev pub broker : Results
broker = record { new_ok = true; connect_ok = true; loop_start_ok = true }

-- Each thread takes steps, a message comes in, and the program is stopped.
abbrev day : List SystemEvent
day =
    receive arrival
    ∷ mqtt_turn broker 5 true
    ∷ mqtt_callback (connect true)
    ∷ receive arrival
    ∷ mqtt_callback (message 7 (codes "v2x/vehicle/9/status") (codes "{}"))
    ∷ transmit 10 true
    ∷ mqtt_turn broker 15 true
    ∷ signal
    ∷ receive arrival
    ∷ mqtt_turn broker 25 true
    ∷ []

system_run-IsSafe_example :
    All
      (λ (taken : System naturals × Output). IsSafe cjson calendar 1 taken.0 taken.1)
      (system_run cjson calendar ready day).1
system_run-IsSafe_example =
    system_run-IsSafe naturals cjson calendar (λ s. length s) startup true true true day begun

system_run-IsConsistent_from_start_example : IsConsistent 1 (system_run cjson calendar ready day).0
system_run-IsConsistent_from_start_example =
    system_run-IsConsistent_from_start naturals (λ s. length s) startup cjson calendar true true
      true day begun

-- After some steps, and the signal.
abbrev stopped : System naturals
stopped = (system_step cjson calendar (system_run cjson calendar ready day).0 signal).0

stopped-IsConsistent : IsConsistent 1 stopped
stopped-IsConsistent =
    system_step-IsConsistent cjson calendar 1 (system_run cjson calendar ready day).0 signal (
      system_run-IsConsistent_from_start naturals (λ s. length s) startup cjson calendar true true
        true day begun)

not_running : stopped.app.running ≡ false
unfolding system_step handle_signal
not_running = refl

system_run_stops_example :
    let (s', taken) = system_run cjson calendar stopped day in
    All (λ (t : System naturals × Output). t.1.messages ≡ []) taken
    × (s'.polling ≡ false)
    × (s'.app.can.initialized ≡ false)
    × (s'.place ≡ Place.outer)
    × (s'.app.mqtt.initialized ≡ false)
system_run_stops_example =
    system_run_stops cjson calendar 1 stopped day stopped-IsConsistent not_running refl refl

live-main_example :
    let (calls, result) = main naturals (λ s. length s) startup true true false in
    (live_after [] calls ≡ none) × (result ≡ 0)
unfolding map_service_init green_right_topst_linux.Map.File.read_file_to_buffer
    green_right_topst_linux.Map.Xml.Rules.intersection_map_load_xml
live-main_example = live-main naturals (λ s. length s) startup true true false

abbrev trip : Trip
trip = record {
  argv = codes "fake" ∷ codes "broker" ∷ codes "1883" ∷ codes "7" ∷ [];
  file = map_file;
  results = broker;
  ticks = later 1 ∷ later 2 ∷ later 3 ∷ [];
}
  where
    later : ℕ → Tick
    later n = record {
      sync_epoch_ms = n;
      update_ms = n;
      get_ms = n;
      garbage = readings.garbage;
      publish_ok = true;
    }

fake_vehicle_main-IsTripCall_example :
    All
      (IsTripCall cjson calendar 7)
      (fake_vehicle_main naturals cjson calendar (λ s. length s) trip).calls
unfolding green_right_topst_linux.Libc.atoi green_right_topst_linux.Libc.strtol
    green_right_topst_linux.Libc.skip_space green_right_topst_linux.Libc.digits
fake_vehicle_main-IsTripCall_example =
    fake_vehicle_main-IsTripCall naturals cjson calendar (λ s. length s) trip
