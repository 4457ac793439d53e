-- ===== src/System/Start.antt =====
-- From `app_init` of core/main.c on, the context is consistent.
use green_right_topst_linux.Base.{
  ℕ, ◌≡◌, refl, sym, subst, List, Bool, true, false, if◌then◌else◌, none, get_or-replicate, Str,
  arith,
}
use green_right_topst_linux.Doubles.{Doubles}
use green_right_topst_linux.Libc.{Calendar}
use green_right_topst_linux.Codec.{Cjson}
use green_right_topst_linux.OtherVehicles.{
  blank_slot, other_vehicle_manager_init, other_vehicle_manager_get,
}
use green_right_topst_linux.OtherVehicles.Table.{init-IsValid}
use green_right_topst_linux.TrafficLights.{traffic_light_manager_init}
use green_right_topst_linux.SelfVehicle.{self_vehicle_manager_init}
use green_right_topst_linux.Map.Service.{MapService}
use green_right_topst_linux.Map.File.{map_service_init}
use green_right_topst_linux.App.{
  AppContext, Startup, vehicle_id_of, map_path_of, ready_app, app_init, start_threads,
}
use green_right_topst_linux.System.{SystemEvent, begin, system_run}
use green_right_topst_linux.System.Sound.{IsConsistent, system_run-IsConsistent}

pub no_vehicles : (i : ℕ) → other_vehicle_manager_get other_vehicle_manager_init i ≡ none
unfolding other_vehicle_manager_get other_vehicle_manager_init
no_vehicles i = ground (arith, get_or-replicate 64 i blank_slot)

-- A result that reports success is the first of the three.
succeeded :
    {A B : Type 0} (loaded locked : Bool) (ready named mapped : A) (b c d : B)
    → let first : A × B × Bool = (ready, b, true) in
      let second : A × B × Bool = (named, c, false) in
      let third : A × B × Bool = (mapped, d, false) in
      let r = if loaded then if locked then first else second else third in r.2 ≡ true → r.0 ≡ ready
succeeded true true ready named mapped b c d h = refl
succeeded true false ready named mapped b c d h = cc
succeeded false locked ready named mapped b c d h = cc

module _ (D : Doubles) (atof : Str → D.Double) (startup : Startup) where
  app_init_lem :
      (app_init D atof startup).2 ≡ true
      → (app_init D atof startup).0
        ≡ ready_app (map_service_init atof (startup.file (map_path_of startup.argv))).0 startup
  unfolding app_init
  app_init_lem ok = succeeded _ startup.queue_lock_ok _ _ _ _ _ _ ok

  ready-IsConsistent :
      (map : MapService D) (rx_ok mqtt_ok tx_ok : Bool)
      → IsConsistent
          (vehicle_id_of startup.argv)
          (begin (start_threads (ready_app map startup) rx_ok mqtt_ok tx_ok).0)
  unfolding start_threads self_vehicle_manager_init traffic_light_manager_init
  ready-IsConsistent map rx_ok mqtt_ok tx_ok = record {
    mqtt = record {
      same_id = refl;
      fits = (refl, refl);
      managers = record { table = init-IsValid; not_own = no_vehicles _; lights = refl };
    };
    addressed = record { same_id = refl; topic = λ h. cc; waiting = tt };
    rx = record {
      along = refl;
      coherent = record {
        flag = refl;
        self_id = refl;
        info = record { id = refl; zones = omega arith };
        waiting = tt;
      };
    };
  }

  pub begin-IsConsistent :
      (rx_ok mqtt_ok tx_ok : Bool)
      → (app_init D atof startup).2 ≡ true
      → IsConsistent
          (vehicle_id_of startup.argv)
          (begin (start_threads (app_init D atof startup).0 rx_ok mqtt_ok tx_ok).0)
  begin-IsConsistent rx_ok mqtt_ok tx_ok ok =
      subst
        (λ (app : AppContext D).
          IsConsistent (vehicle_id_of startup.argv)
            (begin (start_threads app rx_ok mqtt_ok tx_ok).0))
        (sym (app_init_lem ok)) (ready-IsConsistent _ rx_ok mqtt_ok tx_ok)

  -- If `app_init` succeeds, then whichever threads start, whatever they and mosquitto do, and whenever a
  -- signal comes, the following holds after each step, where a poll of the receive thread with its
  -- calls of `on_ego_frame` and a round of the transmit thread are one step each: the ids agree with the
  -- argument, each handler is initialised just while its thread is in its inner loop, the tables keep
  -- their sizes, each used slot holds the vehicle of its index and none the vehicle itself, the
  -- candidate flag is that of the turn state, and what waits to be published is the vehicle itself.
  pub system_run-IsConsistent_from_start :
      (cjson : Cjson D) (calendar : Calendar) (rx_ok mqtt_ok tx_ok : Bool) (es : List SystemEvent)
      → (app_init D atof startup).2 ≡ true
      → IsConsistent
          (vehicle_id_of startup.argv)
          (system_run cjson calendar
            (begin (start_threads (app_init D atof startup).0 rx_ok mqtt_ok tx_ok).0)
            es).0
  system_run-IsConsistent_from_start cjson calendar rx_ok mqtt_ok tx_ok es ok =
      system_run-IsConsistent cjson calendar (vehicle_id_of startup.argv) _ es
        (begin-IsConsistent rx_ok mqtt_ok tx_ok ok)
