-- ===== src/Examples/Turn.antt =====
-- A right turn: vehicle 7 is heard of and told to the controller, and the own state is published.
use green_right_topst_linux.Base.{
  ◌≡◌, refl, true, some, codes, arith, take, drop, safe_copy, str_eq, is_empty, [], ◌∷◌,
}
use green_right_topst_linux.Types.{VehicleInfo, TurnState}
use green_right_topst_linux.OtherVehicles.Table.{init-IsValid}
use green_right_topst_linux.SelfVehicle.{self_vehicle_manager_get_info}
use green_right_topst_linux.Candidate.{
  CandidateSelection, distance_squared, selection_of, find_shared_conflict_zone, shared_loop,
  vehicle_has_conflict_zone, zone_loop, compute_type_mask,
}
use green_right_topst_linux.Candidate.Select.{Any}
use green_right_topst_linux.Libc.{has_prefix}
use green_right_topst_linux.Map.{find_area}
use green_right_topst_linux.Map.Service.{
  map_service_get_conflict_zone_center, find_conflict_zone, sum_points,
}
use green_right_topst_linux.Codec.{vehicle_info_from_json_string, vehicle_info_to_json_string}
use green_right_topst_linux.Codec.RoundTrip.{vehicle_info_from_json-to_json}
use green_right_topst_linux.Mqtt.{
  mosquitto_publish, vehicle_status_topic, mqtt_handler_is_connected,
}
use green_right_topst_linux.Mqtt.Thread.{Place, callbacks}
use green_right_topst_linux.App.{AppContext, blank_app}
use green_right_topst_linux.System.{
  rx_view, System, begin, receive, mqtt_turn, mqtt_callback, message, transmit, system_step,
}
use green_right_topst_linux.System.Sound.{IsConsistent}
use green_right_topst_linux.System.Start.{no_vehicles}
use green_right_topst_linux.System.Heard.{IsStatusWithin, IsVehicleMessage, transmit_tells_heard}
use green_right_topst_linux.EgoFrame.{on_ego_frame, stages, is_candidate_mode}
use green_right_topst_linux.System.Halfway.{AreHalfway, stages-AreHalfway}
use green_right_topst_linux.Can.Rx.{received}
use green_right_topst_linux.System.Published.{IsAt, frame_is_published}
use green_right_topst_linux.Examples.{naturals, service, own, other, receiver, readings}
use green_right_topst_linux.Examples.Bus.{ego_frame, ego, ego_frame-IsMessage, arrival}
use green_right_topst_linux.Examples.Whole.{broker}
use green_right_topst_linux.Examples.Wire.{
  cjson, calendar, cjson-FindsMembers, naturals-IsExact, other-IsWire,
}

-- The vehicle waits to turn right, with a client that is connected, and a part of a frame is read.
abbrev turning : AppContext naturals
turning = record (blank_app {D = naturals}) {
  candidate_vehicle_tx_enabled = true;
  vehicle_id = 1;
  mqtt = record {
    mosq = true;
    vehicle_id = 1;
    status_topic = safe_copy 64 (vehicle_status_topic 1);
    callbacks = callbacks;
    connected = true;
    initialized = true;
  };
  can = receiver (take 12 ego_frame);
  map = service;
  self = record (blank_app {D = naturals}).self {
    info = own;
    last_update_monotonic_ms = 100;
    turn_state = TurnState.right_turn;
    vehicle_id = 1;
    valid = true;
  };
}

abbrev waiting : System naturals
waiting = record (begin turning) { place = Place.inner 0; polling = true }

waiting-IsConsistent : IsConsistent 1 waiting
unfolding green_right_topst_linux.TrafficLights.traffic_light_manager_init
waiting-IsConsistent = record {
  mqtt = record {
    same_id = refl;
    fits = (refl, refl, refl, refl, omega arith);
    managers = record { table = init-IsValid; not_own = no_vehicles 1; lights = refl };
  };
  addressed = record { same_id = refl; topic = λ h. refl; waiting = tt };
  rx = record {
    along = refl;
    coherent = record {
      flag = refl;
      self_id = refl;
      info = record { id = refl; zones = omega arith };
      waiting = tt;
    };
  };
}

other-IsVehicleMessage : IsVehicleMessage cjson (vehicle_status_topic 7) (codes "{...}") other
unfolding has_prefix str_eq is_empty vehicle_info_from_json_string
other-IsVehicleMessage = record {
  prefix = refl;
  not_empty = refl;
  decoded =
      vehicle_info_from_json-to_json naturals cjson calendar other naturals-IsExact other-IsWire
        cjson-FindsMembers;
  small = omega arith;
}

abbrev choice : CandidateSelection
choice = record {
  vehicle = other;
  type_mask = 1;
  conflict_zone_id = codes "C1";
  conflict_zone_center_x = 20;
  conflict_zone_center_y = 20;
}

chosen : selection_of service own other ≡ some choice
unfolding selection_of find_shared_conflict_zone shared_loop vehicle_has_conflict_zone is_empty
    zone_loop str_eq compute_type_mask map_service_get_conflict_zone_center find_conflict_zone
    find_area safe_copy sum_points
chosen = refl

connected : mqtt_handler_is_connected turning.mqtt ≡ true
unfolding mqtt_handler_is_connected
connected = refl

known : self_vehicle_manager_get_info turning.self 150 ≡ some own
unfolding self_vehicle_manager_get_info
known = refl

transmit_tells_heard_example :
    let s' =
      (system_step cjson calendar waiting
        (mqtt_callback (message 140 (vehicle_status_topic 7) (codes "{...}")))).0 in
    Any
      (IsStatusWithin own (distance_squared own other))
      (system_step cjson calendar s' (transmit 150 true)).1.messages
transmit_tells_heard_example =
    transmit_tells_heard cjson calendar 1 waiting 140 150 true (vehicle_status_topic 7)
      (codes "{...}") own other choice waiting-IsConsistent refl refl connected known
      other-IsVehicleMessage chosen refl

frame_is_published_example :
    let s' =
      (system_step cjson calendar waiting
        (receive (record arrival { input = received (drop 12 ego_frame) }))).0 in
    (v : VehicleInfo) × IsAt 1 ego v
    × ((system_step cjson calendar s' (mqtt_turn broker 160 true)).1.mqtt
        ≡ mosquitto_publish
            (safe_copy 64 (vehicle_status_topic 1))
            (vehicle_info_to_json_string naturals cjson calendar v)
            true
          ∷ [])
frame_is_published_example =
    frame_is_published cjson calendar 1 waiting arrival (drop 12 ego_frame) (ego_frame, ego) broker
      160 true waiting-IsConsistent refl refl refl connected (omega arith) (omega arith)
      (omega arith) refl ego_frame-IsMessage
      (record { later = omega arith; soon = omega arith; fits = omega arith })

stages-AreHalfway_example :
    let context = (rx_view waiting).context in
    let next = (on_ego_frame service readings context ego).self.turn_state in
    AreHalfway 1 next true (is_candidate_mode next) (stages service readings context ego)
stages-AreHalfway_example =
    stages-AreHalfway service 1 readings (rx_view waiting).context ego
      waiting-IsConsistent.rx.coherent
