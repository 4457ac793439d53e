-- ===== src/Simulator/Route.antt =====
-- Where the vehicle of tools/fake_vehicle_l15_to_l6.c is, and what it publishes.
use green_right_topst_linux.Base.{
  ℕ, zero, suc, ◌+◌, ◌*◌, ◌%◌, ◌≤◌, ◌<◌, ◌≡◌, refl, ap, ◌∙◌, List, [], ◌∷◌, Bool, true, false, none,
  some, if◌then◌else◌, arith, Str, codes, All, All-append,
}
use green_right_topst_linux.Types.{VehicleInfo, TurnState}
use green_right_topst_linux.Doubles.{Doubles}
use green_right_topst_linux.Libc.{Calendar}
use green_right_topst_linux.Codec.{Cjson, vehicle_info_to_json_string}
use green_right_topst_linux.Map.Service.{MapService}
use green_right_topst_linux.SelfVehicle.{
  SelfVehicleManager, turn_state_to_string, self_vehicle_manager_init,
  self_vehicle_manager_update_from_can, self_vehicle_manager_get_info,
}
use green_right_topst_linux.SelfVehicle.Freshness.{get_info-update_from_can}
use green_right_topst_linux.Mqtt.{Call}
use green_right_topst_linux.Simulator.Balance.{outcome_either}
use green_right_topst_linux.Simulator.{
  Outcome, fill_ego, next_x, Tick, publish_vehicle, publish_info, drive, Trip, id_of, topic_of,
  manager_of, broker_part, fake_vehicle_run, fake_vehicle_main,
}

-- The position after some rounds.
abbrev pub x_after : ℕ → ℕ
x_after zero = 30
x_after (suc n) = next_x (x_after n)

-- The route has 86 positions, from 30 to 370 in steps of 4, and begins again after the last.
pub x_after_lem : (n : ℕ) → x_after n ≡ 30 + 4 * (n % 86)
unfolding next_x
x_after_lem zero = refl
x_after_lem (suc n) = ground (arith, x_after_lem n)

-- A vehicle on the route.
pub record IsOnRoute (vehicle_id : ℕ) (v : VehicleInfo) : Type 0 where
  pub id : v.vehicle_id ≡ vehicle_id
  pub lane : v.y ≡ 220
  pub speed_is : v.speed ≡ 30
  pub heading_is : v.heading ≡ 90
  pub turn : v.turn_state ≡ codes "straight"
  pub zones : v.conflict_zone_count ≤ 4
  pub place : (k : ℕ) × (k < 86) × (v.x ≡ 30 + 4 * k)

-- A call of `mosquitto_publish` carries such a vehicle, on its topic, and is not retained.
abbrev pub IsTripCall : {D : Doubles} → Cjson D → Calendar → ℕ → Call → Type 0
IsTripCall {D} cjson calendar vehicle_id (Call.mosquitto_publish topic payload retain) =
    (topic ≡ topic_of vehicle_id)
    × (retain ≡ false)
    × ((v : VehicleInfo) × IsOnRoute vehicle_id v
        × (payload ≡ vehicle_info_to_json_string D cjson calendar v))
IsTripCall cjson calendar vehicle_id _ = Unit {0}

module _ {D : Doubles} (cjson : Cjson D) (calendar : Calendar) (map : MapService D)
    (vehicle_id : ℕ) where
  updated_lem :
      (m : SelfVehicleManager) (tick : Tick) (n : ℕ)
      → m.vehicle_id ≡ vehicle_id
      → m.turn_state ≡ TurnState.straight
      → IsOnRoute vehicle_id
          (self_vehicle_manager_update_from_can m map tick.garbage
            (fill_ego (x_after n))
            tick.sync_epoch_ms
            tick.update_ms).info
  unfolding self_vehicle_manager_update_from_can fill_ego turn_state_to_string
  updated_lem m tick n id straight =
      let v =
        get_info-update_from_can map m tick.garbage (fill_ego (x_after n)) tick.sync_epoch_ms 0 0
          (omega arith) (omega arith) in
      record {
        id = v.5 ∙ id;
        lane = v.2;
        speed_is = v.3;
        heading_is = v.4;
        turn = v.7 ∙ ap turn_state_to_string straight;
        zones = v.8;
        place = (n % 86, omega arith, v.1 ∙ x_after_lem n);
      }

  info_lem :
      (m : SelfVehicleManager) (now : ℕ) (ok : Bool)
      → IsOnRoute vehicle_id m.info
      → All (IsTripCall cjson calendar vehicle_id) (
          publish_info cjson calendar
            (topic_of vehicle_id)
            (self_vehicle_manager_get_info m now)
            ok)
  unfolding self_vehicle_manager_get_info publish_vehicle
  info_lem m now ok w = given _
    where
      given :
          (b : Bool)
          → All (IsTripCall cjson calendar vehicle_id) (
              publish_info cjson calendar
                (topic_of vehicle_id)
                (if b then some m.info else none)
                ok)
      given true = ((refl, refl, (m.info, w, refl)), tt)
      given false = tt

  drive_lem :
      (m : SelfVehicleManager) (n : ℕ) (ticks : List Tick)
      → m.vehicle_id ≡ vehicle_id
      → m.turn_state ≡ TurnState.straight
      → All
          (IsTripCall cjson calendar vehicle_id)
          (drive cjson calendar map (topic_of vehicle_id) m (x_after n) ticks)
  unfolding drive self_vehicle_manager_update_from_can
  drive_lem m n [] id straight = tt
  drive_lem m n (tick ∷ ticks) id straight =
      let m' =
        self_vehicle_manager_update_from_can m map tick.garbage (fill_ego (x_after n))
          tick.sync_epoch_ms tick.update_ms in
      All-append (IsTripCall cjson calendar vehicle_id) _ _
        (info_lem m' tick.get_ms tick.publish_ok (updated_lem m tick n id straight))
        (drive_lem m' (suc n) ticks id straight)

module _ (D : Doubles) (cjson : Cjson D) (calendar : Calendar) (atof : Str → D.Double)
    (trip : Trip) where
  broker_lem :
      (client_id host : Str) (port : ℕ) (rounds : List Call) (a b c : Bool)
      → All (IsTripCall cjson calendar (id_of trip.argv)) rounds
      → All
          (IsTripCall cjson calendar (id_of trip.argv))
          (broker_part client_id host port rounds a b c).0
  unfolding broker_part
  broker_lem client_id host port rounds false b c r = (tt, (tt, (tt, tt)))
  broker_lem client_id host port rounds true false c r = (tt, (tt, (tt, (tt, (tt, tt)))))
  broker_lem client_id host port rounds true true false r = (tt, (tt, (tt, (tt, (tt, (tt, tt))))))
  broker_lem client_id host port rounds true true true r = (
    tt,
    (
      tt,
      (
        tt,
        (
          tt,
          All-append (IsTripCall cjson calendar (id_of trip.argv)) rounds _ r
              (tt, (tt, (tt, (tt, tt)))),
        ),
      ),
    ),
  )

  -- Whatever the arguments, mosquitto and the clocks: every vehicle that the program publishes has the
  -- program's id, is on the lane `y = 220` at one of the 86 positions, drives straight ahead with speed
  -- 30 and heading 90, has at most four conflict zones, and is published on its topic, not retained.
  pub fake_vehicle_main-IsTripCall :
      All
        (IsTripCall cjson calendar (id_of trip.argv))
        (fake_vehicle_main D cjson calendar atof trip).calls
  unfolding fake_vehicle_run self_vehicle_manager_init
  fake_vehicle_main-IsTripCall =
      let id = id_of trip.argv in
      outcome_either D cjson calendar atof trip
        (λ (o : Outcome). All (IsTripCall cjson calendar id) o.calls) tt
        (λ map.
          broker_lem _ _ _ _ trip.results.new_ok trip.results.connect_ok trip.results.loop_start_ok
            (drive_lem cjson calendar map id (manager_of id) 0 trip.ticks refl refl))
