-- ===== src/Simulator/Balance.antt =====
-- What the program of tools/fake_vehicle_l15_to_l6.c holds at its end.
use green_right_topst_linux.Base.{
  ℕ, ◌≡◌, refl, ap, ◌∙◌, List, [], ◌∷◌, ◌++◌, Bool, true, false, Option, none, some, ◌>>=◌, ltb,
  if◌then◌else◌, length, get_elem?, if_either, Str,
}
use green_right_topst_linux.Types.{VehicleInfo}
use green_right_topst_linux.Doubles.{Doubles}
use green_right_topst_linux.Libc.{Calendar}
use green_right_topst_linux.Codec.{Cjson}
use green_right_topst_linux.Map.Service.{MapService}
use green_right_topst_linux.Map.File.{map_service_init}
use green_right_topst_linux.SelfVehicle.{
  SelfVehicleManager, self_vehicle_manager_update_from_can, self_vehicle_manager_get_info,
}
use green_right_topst_linux.Mqtt.{
  Call, Results, mosquitto_loop_stop, mosquitto_disconnect, mosquitto_destroy,
  mosquitto_lib_cleanup,
}
use green_right_topst_linux.Mqtt.Resources.{Resources, held, held_after, nothing_held, one_held}
use green_right_topst_linux.App.{argument, default_map_path, mutex_init, mutex_destroy, self_lock}
use green_right_topst_linux.App.Process.{live_after}
use green_right_topst_linux.Simulator.{
  fill_ego, next_x, Tick, publish_vehicle, publish_info, drive, Trip, Outcome, refused, broker_part,
  fake_vehicle_run, fake_vehicle_main,
}

-- What follows from a call on, for both ways of putting the calls together.
bind_lem :
    (o : Option Resources) (f g h : Resources → Option Resources)
    → ((q : Resources) → f q ≡ (g q >>= h))
    → (o >>= f) ≡ ((o >>= g) >>= h)
bind_lem none f g h same = refl
bind_lem (some q) f g h same = same q

held-++ :
    (results : Results) (r : Resources) (a b : List Call)
    → held results r (a ++ b) ≡ (held results r a >>= (λ q. held results q b))
held-++ results r [] b = refl
held-++ results r (c ∷ a) b =
    bind_lem (held_after results r c) (λ q. held results q (a ++ b)) (λ q. held results q a)
      (λ q. held results q b) (λ q. held-++ results q a b)

module _ {D : Doubles} (cjson : Cjson D) (calendar : Calendar) (results : Results) where
  publish_held :
      (r : Resources) (topic : Str) (v : Option VehicleInfo) (ok : Bool)
      → held results r (publish_info cjson calendar topic v ok) ≡ some r
  unfolding publish_vehicle
  publish_held r topic none ok = refl
  publish_held r topic (some v) ok = refl

  -- The loop changes nothing of what is held.
  held-drive :
      (r : Resources) (map : MapService D) (topic : Str) (m : SelfVehicleManager) (x : ℕ)
      (ticks : List Tick)
      → held results r (drive cjson calendar map topic m x ticks) ≡ some r
  unfolding drive
  held-drive r map topic m x [] = refl
  held-drive r map topic m x (tick ∷ ticks) =
      let m' =
        self_vehicle_manager_update_from_can m map tick.garbage (fill_ego x) tick.sync_epoch_ms
          tick.update_ms in
      let info = self_vehicle_manager_get_info m' tick.get_ms in
      let later = drive cjson calendar map topic m' (next_x x) ticks in
      held-++ results r (publish_info cjson calendar topic info tick.publish_ok) later
      ∙ ap (λ (o : Option Resources). o >>= (λ q. held results q later))
          (publish_held r topic info tick.publish_ok)
      ∙ held-drive r map topic m' (next_x x) ticks

-- Nothing is held of mosquitto, and no mutex is left.
record IsBalanced (results : Results) (o : Outcome) : Type 0 where
  held_nothing : held results nothing_held o.calls ≡ some nothing_held
  no_lock : live_after [] o.locks ≡ some []

-- Each way through the calls of mosquitto gives everything back.
broker_held :
    (client_id host : Str) (port : ℕ) (rounds : List Call) (a b c : Bool)
    → let results : Results = record { new_ok = a; connect_ok = b; loop_start_ok = c } in
      ((r : Resources) → held results r rounds ≡ some r)
      → held results nothing_held (broker_part client_id host port rounds a b c).0
        ≡ some nothing_held
unfolding broker_part
broker_held client_id host port rounds false b c silent = refl
broker_held client_id host port rounds true false c silent = refl
broker_held client_id host port rounds true true false silent = refl
broker_held client_id host port rounds true true true silent =
    let results : Results = record { new_ok = true; connect_ok = true; loop_start_ok = true } in
    let ending : List Call =
      mosquitto_loop_stop ∷ mosquitto_disconnect ∷ mosquitto_destroy ∷ mosquitto_lib_cleanup ∷ [] in
    held-++ results one_held rounds ending
    ∙ ap (λ (o : Option Resources). o >>= (λ q. held results q ending)) (silent one_held)

module _ (D : Doubles) (cjson : Cjson D) (calendar : Calendar) (atof : Str → D.Double)
    (trip : Trip) where
  -- What a run that got past the map leaves.
  abbrev pub ran : MapService D → Outcome
  ran map =
      let (calls, result) = fake_vehicle_run D cjson calendar map trip in
      record {
        calls = calls;
        locks = mutex_init self_lock ∷ mutex_destroy self_lock ∷ [];
        result = result;
      }

  -- The program is refused, or runs on some map.
  pub outcome_either :
      (P : Outcome → Type 0)
      → P refused
      → ((map : MapService D) → P (ran map))
      → P (fake_vehicle_main D cjson calendar atof trip)
  unfolding fake_vehicle_main
  outcome_either P no_run run =
      let map_path = argument (get_elem? trip.argv 4) (λ s. s) default_map_path in
      let (map, loaded) = map_service_init {D = D} atof (trip.file map_path) in
      if_either P (ltb (length trip.argv) 3) refused (if loaded then ran map else refused) no_run
        (if_either P loaded (ran map) refused (run map) no_run)

  outcome_lem : IsBalanced trip.results (fake_vehicle_main D cjson calendar atof trip)
  unfolding fake_vehicle_run
  outcome_lem =
      let results = trip.results in
      outcome_either (IsBalanced results) (record { held_nothing = refl; no_lock = refl })
        (λ map. record {
          held_nothing =
              broker_held _ _ _ _ results.new_ok results.connect_ok results.loop_start_ok
                (λ r. held-drive cjson calendar results r map _ _ _ trip.ticks);
          no_lock = refl;
        })

  -- Whatever the arguments and whatever mosquitto reports, at the end of `main` nothing is held of
  -- mosquitto, and the manager's mutex is destroyed if it was initialised.
  pub fake_vehicle_main_balanced :
      (held trip.results nothing_held (fake_vehicle_main D cjson calendar atof trip).calls
        ≡ some nothing_held)
      × (live_after [] (fake_vehicle_main D cjson calendar atof trip).locks ≡ some [])
  fake_vehicle_main_balanced = (outcome_lem.held_nothing, outcome_lem.no_lock)
