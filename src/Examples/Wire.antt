-- ===== src/Examples/Wire.antt =====
-- The JSON codec, the MQTT client and the map's reader on concrete data. The JSON library knows one
-- document; the calendar is that of the first second of 1970.
use green_right_topst_linux.Base.{
  ltb, leb, ℕ, ◌+◌, ◌-◌, ◌*◌, ◌/◌, ◌%◌, ◌^◌, ◌≤◌, ◌<◌, ◌≡◌, refl, List, [], ◌∷◌, ◌++◌, Bool, true,
  false, Option, none, some, if◌then◌else◌, length, replicate, All, arith, codes, Str,
}
use green_right_topst_linux.Libc.{Calendar}
use green_right_topst_linux.Codec.{
  Json, json_object, json_null, member, no_members, Cjson, FindsMembers, find_member,
  vehicle_info_to_json, vehicle_info_from_json, vehicle_info_from_json_string,
  vehicle_info_to_json_string,
}
use green_right_topst_linux.Codec.RoundTrip.{
  IsWire, IsExact, vehicle_info_from_json-to_json, vehicle_info_from_json_string-to_json_string,
}
use green_right_topst_linux.Codec.Accepts.{
  Field, IsAccepted, vehicle_info_from_json-refuses, vehicle_info_from_json-IsAccepted,
}
use green_right_topst_linux.OtherVehicles.{
  other_vehicle_manager_init, other_vehicle_manager_get, slot,
}
use green_right_topst_linux.OtherVehicles.Table.{init-IsValid}
use green_right_topst_linux.TrafficLights.{traffic_light_manager_init}
use green_right_topst_linux.PublishQueue.{vehicle_publish_queue_init}
use green_right_topst_linux.Map.Xml.{
  tags, tags_loop, elements, elements_loop, parse_points, map_max_points,
}
use green_right_topst_linux.Map.Xml.Scan.{elements_loop-enough}
use green_right_topst_linux.Map.Xml.Capacity.{IsWithin}
use green_right_topst_linux.Map.Xml.Rules.{intersection_map_load_xml}
use green_right_topst_linux.Map.Xml.Load.{intersection_map_load_xml-IsWithin}
use green_right_topst_linux.Mqtt.{
  Results, MqttHandler, trafficlight_prefix, parse_traffic_light_topic_id,
  mqtt_handler_publish_vehicle_info,
}
use green_right_topst_linux.Mqtt.Thread.{Managers, Place, thread_round}
use green_right_topst_linux.Mqtt.Events.{Event, State, run}
use green_right_topst_linux.Mqtt.Resources.{of_handler}
use green_right_topst_linux.Mqtt.Managers.{AreSound}
use green_right_topst_linux.Mqtt.Delivery.{IsText, delivered, opened, get-delivered-publish}
use green_right_topst_linux.Mqtt.Sound.{IsSound}
use green_right_topst_linux.Mqtt.Ledger.{ledger, ledger-run}
use green_right_topst_linux.Mqtt.Published.{IsAddressed}
use green_right_topst_linux.Mqtt.Cadence.{thread_round-cleanup}
use green_right_topst_linux.Examples.{naturals, own, other}

abbrev pub calendar : Calendar
calendar = record {
  gmtime =
      λ s. record { tm_year = 70; tm_mon = 0; tm_mday = 1; tm_hour = 0; tm_min = 0; tm_sec = 0 };
  timegm = λ tm. some (0, tm);
}

abbrev pub document : Json naturals
document = vehicle_info_to_json naturals calendar other

pub look_up : Json naturals → Str → Option (Json naturals)
look_up (json_object ms) key = find_member key ms
look_up _ key = none

abbrev pub cjson : Cjson naturals
cjson = record { print = λ j. codes "{...}"; parse = λ s. some document; get_object_item = look_up }

pub cjson-FindsMembers : FindsMembers cjson
unfolding look_up
cjson-FindsMembers key ms = refl

pub naturals-IsExact : IsExact naturals
naturals-IsExact n h = omega arith

pub other-IsWire : IsWire other
other-IsWire = record {
  id = omega arith;
  x_fits = omega arith;
  y_fits = omega arith;
  speed_fits = omega arith;
  heading_fits = omega arith;
  lanelet_fits = omega arith;
  turn_fits = omega arith;
  tl_fits = omega arith;
  zones_fit = (omega arith, tt);
  count_fits = refl;
  slots = refl;
  time_fits = omega arith;
}

document_IsText : IsText (codes "{...}")
unfolding green_right_topst_linux.Base.is_empty
document_IsText = record {
  no_nul = (omega arith, (omega arith, (omega arith, (omega arith, (omega arith, tt)))));
  not_empty = refl;
}

vehicle_info_from_json_string-to_json_string_example :
    vehicle_info_from_json_string cjson (vehicle_info_to_json_string naturals cjson calendar other)
    ≡ some other
vehicle_info_from_json_string-to_json_string_example =
    vehicle_info_from_json_string-to_json_string naturals cjson calendar other naturals-IsExact
      other-IsWire cjson-FindsMembers refl

-- An object without members.
abbrev empty_object : Json naturals
empty_object = json_object no_members

vehicle_info_from_json-refuses_example : vehicle_info_from_json cjson empty_object ≡ none
unfolding look_up green_right_topst_linux.Codec.find_member
vehicle_info_from_json-refuses_example =
    vehicle_info_from_json-refuses cjson empty_object Field.vehicle_id (λ h. cc (h.1))

vehicle_info_from_json-IsAccepted_example : IsAccepted other
vehicle_info_from_json-IsAccepted_example = vehicle_info_from_json-IsAccepted cjson document other (
    vehicle_info_from_json-to_json naturals cjson calendar other naturals-IsExact other-IsWire
      cjson-FindsMembers)

abbrev managers : Managers
managers = record {
  others = other_vehicle_manager_init;
  traffic_lights = traffic_light_manager_init;
}

abbrev pub receiver : MqttHandler Managers
receiver = opened (codes "broker") 1883 1

get-delivered-publish_example :
    other_vehicle_manager_get
      (delivered cjson receiver 1000
        (mqtt_handler_publish_vehicle_info cjson calendar
          (opened (codes "broker") 1883 7)
          other
          true).0
        managers).others
      7
    ≡ some other
unfolding green_right_topst_linux.Mqtt.mqtt_handler_init
get-delivered-publish_example =
    get-delivered-publish naturals cjson calendar other naturals-IsExact other-IsWire
      cjson-FindsMembers document_IsText refl (codes "broker") 1883 1000 receiver managers true
      (omega arith) (λ e. omega arith) refl init-IsValid.size

-- Before the thread starts.
abbrev start : State
start = record {
  context = record {
    running = true;
    mqtt_host = codes "broker";
    mqtt_port = 1883;
    vehicle_id = 1;
    mqtt = record {
      mosq = false;
      vehicle_id = 0;
      status_topic = [];
      callbacks = record { on_vehicle = none; on_traffic_light = none };
      connected = false;
      initialized = false;
    };
    self_publish_queue = vehicle_publish_queue_init;
    managers = managers;
  };
  place = Place.outer;
}

abbrev all_ok : Results
all_ok = record { new_ok = true; connect_ok = true; loop_start_ok = true }

-- A failed attempt, a successful one, a publication, a message and the end.
abbrev events : List Event
events =
    Event.turn (record all_ok { connect_ok = false }) 1000 true
    ∷ Event.turn all_ok 2000 true
    ∷ Event.connect true
    ∷ Event.push own
    ∷ Event.turn all_ok 2010 true
    ∷ Event.message 2015 (codes "v2x/vehicle/7/status") (codes "{...}")
    ∷ Event.stop
    ∷ Event.turn all_ok 2020 true
    ∷ []

managers-AreSound : AreSound 1 managers
unfolding green_right_topst_linux.OtherVehicles.other_vehicle_manager_get
    green_right_topst_linux.OtherVehicles.other_vehicle_manager_init
    green_right_topst_linux.TrafficLights.traffic_light_manager_init
managers-AreSound = record { table = init-IsValid; not_own = refl; lights = refl }

start-IsSound : IsSound 1 start
start-IsSound = record { same_id = refl; fits = (refl, refl); managers = managers-AreSound }

start-IsAddressed : IsAddressed 1 (λ v. v.vehicle_id ≡ 1) start.context
start-IsAddressed = record { same_id = refl; topic = λ h. cc; waiting = tt }

ledger-run_example :
    ledger cjson calendar (of_handler start.context.mqtt) start events
    ≡ some (of_handler (run cjson calendar start events).0.context.mqtt)
ledger-run_example = ledger-run cjson calendar 1 start events start-IsSound

thread_round-cleanup_example :
    ((thread_round cjson calendar start.context 490 3000 true).1 ≡ 0)
    × (other_vehicle_manager_get
          (thread_round cjson calendar start.context 490 3000 true).0.managers.others
          7
        ≡ (if leb (slot managers.others 7).last_updated_ms 3000
            then if ltb 500 (3000 - (slot managers.others 7).last_updated_ms)
              then none
              else other_vehicle_manager_get managers.others 7
            else none))
unfolding other_vehicle_manager_init
thread_round-cleanup_example =
    thread_round-cleanup cjson calendar start.context 49 3000 7 true (omega arith) (omega arith)
      (omega arith)

abbrev xml : Str
xml =
    codes
      "<map width=\"9\"><point id=\"P1\" x=\"1\" y=\"2\"/><area id=\"A1\" type=\"conflict_zone\"><point_ref id=\"P1\"/></area></map>"

intersection_map_load_xml-IsWithin_example :
    IsWithin (intersection_map_load_xml {D = naturals} (λ s. length s) (some xml)).0
    × (length (parse_points {D = naturals} (λ s. length s) xml map_max_points) ≤ 256)
    × ((intersection_map_load_xml {D = naturals} (λ s. length s) (some xml)).1 ≡ true)
    × ((intersection_map_load_xml {D = naturals} (λ s. length s) none).1 ≡ false)
intersection_map_load_xml-IsWithin_example =
    intersection_map_load_xml-IsWithin (λ s. length s) (some xml) xml

elements_loop-enough_example :
    (tags_loop 200 (codes "<area ") [] xml ≡ tags (codes "<area ") [] xml)
    × (elements_loop 200 (codes "<area ") (codes "</area>") xml
        ≡ elements (codes "<area ") (codes "</area>") xml)
elements_loop-enough_example =
    elements_loop-enough 200 (codes "<area ") (codes "</area>") [] xml (omega arith) (omega arith)
      (omega arith)
