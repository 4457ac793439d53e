-- ===== src/System.antt =====
-- The threads of the program on one `AppContext`: the steps of the receive thread, of the MQTT thread, of
-- mosquitto's own thread and of the transmit thread, and the signal that ends the program, in any order.
-- A step of the transmit thread is one round of its loop, which reads the context as it is then. A step of
-- the receive thread is one poll with the calls of `on_ego_frame` for the frames that it completes.
pub mod Changes
pub mod Sound
pub mod Start
pub mod Halfway
pub mod Safe
pub mod Outputs
pub mod Stop
pub mod Heard
pub mod Published
use green_right_topst_linux.Base.{
  ℕ, List, [], ◌∷◌, ◌++◌, Bool, true, false, Option, none, some, if◌then◌else◌, Str,
}
use green_right_topst_linux.Doubles.{Doubles}
use green_right_topst_linux.Libc.{Calendar}
use green_right_topst_linux.Codec.{Cjson}
use green_right_topst_linux.Can.Device.{DeviceCall}
use green_right_topst_linux.SelfVehicle.{self_vehicle_manager_get_info}
use green_right_topst_linux.RxThread.{RxThread, World, rx_turn}
use green_right_topst_linux.TxThread.{TxMessage, TxState, Env, tx_init}
use green_right_topst_linux.TxThread.Round.{tx_round}
use green_right_topst_linux.Mqtt.{Call, Results, mqtt_handler_is_connected}
use green_right_topst_linux.Mqtt.Thread.{Place}
use green_right_topst_linux.Mqtt.Events.{Event, State, step}
use green_right_topst_linux.App.{AppContext, handle_signal}

-- The context, where the receive thread and the MQTT thread are, and the locals of the transmit thread.
pub record System (D : Doubles) : Type 0 where
  pub app : AppContext D
  pub polling : Bool
  pub place : Place
  pub tx : TxState

-- Each thread before its first step.
abbrev pub begin : {D : Doubles} → AppContext D → System D
begin app = record { app = app; polling = false; place = Place.outer; tx = tx_init }

-- What mosquitto calls.
pub data Callback : Type 0 where
  message : ℕ → Str → List ℕ → Callback
  connect : Bool → Callback
  disconnect : Callback

-- A round of the transmit thread reads the clock, and whether the handler is connected for a second time.
pub data SystemEvent : Type 0 where
  receive : World → SystemEvent
  mqtt_turn : Results → ℕ → Bool → SystemEvent
  mqtt_callback : Callback → SystemEvent
  transmit : ℕ → Bool → SystemEvent
  signal : SystemEvent

-- The calls of an event on the device and on mosquitto, and the messages to the controller.
pub record Output : Type 0 where
  pub device : List DeviceCall
  pub mqtt : List Call
  pub messages : List TxMessage

abbrev pub silent : Output
silent = record { device = []; mqtt = []; messages = [] }

abbrev pub event_of : Callback → Event
event_of (message now topic payload) = Event.message now topic payload
event_of (connect ok) = Event.connect ok
event_of disconnect = Event.disconnect

module _ {D : Doubles} where
  -- What each thread sees of the context, and what it leaves there.
  abbrev pub rx_view : System D → RxThread
  rx_view s = record {
    running = s.app.running;
    can_dev_path = s.app.can_dev_path;
    can_rx_mock = s.app.can_rx_mock;
    can_tx_mock = s.app.can_tx_mock;
    can = s.app.can;
    context = record {
      self = s.app.self;
      self_publish_queue = s.app.self_publish_queue;
      candidate_vehicle_tx_enabled = s.app.candidate_vehicle_tx_enabled;
    };
    polling = s.polling;
  }

  abbrev pub rx_leave : System D → RxThread → System D
  rx_leave s t = record s {
    app = record s.app {
      can = t.can;
      self = t.context.self;
      self_publish_queue = t.context.self_publish_queue;
      candidate_vehicle_tx_enabled = t.context.candidate_vehicle_tx_enabled;
    };
    polling = t.polling;
  }

  abbrev pub mqtt_view : System D → State
  mqtt_view s = record {
    context = record {
      running = s.app.running;
      mqtt_host = s.app.mqtt_host;
      mqtt_port = s.app.mqtt_port;
      vehicle_id = s.app.vehicle_id;
      mqtt = s.app.mqtt;
      self_publish_queue = s.app.self_publish_queue;
      managers = record { others = s.app.others; traffic_lights = s.app.traffic_lights };
    };
    place = s.place;
  }

  abbrev pub mqtt_leave : System D → State → System D
  mqtt_leave s m = record s {
    app = record s.app {
      mqtt = m.context.mqtt;
      self_publish_queue = m.context.self_publish_queue;
      others = m.context.managers.others;
      traffic_lights = m.context.managers.traffic_lights;
    };
    place = m.place;
  }

  abbrev pub tx_view : System D → ℕ → Bool → Env
  tx_view s now connected_for_light = record {
    active = s.app.candidate_vehicle_tx_enabled;
    self = self_vehicle_manager_get_info s.app.self now;
    connected = mqtt_handler_is_connected s.app.mqtt;
    connected_for_light = connected_for_light;
    others = s.app.others;
    traffic_lights = s.app.traffic_lights;
  }

  -- A round of `can_tx_thread_main`, while the program runs.
  unfoldable pub tx_turn : System D → ℕ → Bool → System D × List TxMessage
  tx_turn s now connected_for_light =
      if s.app.running
      then (let (tx, effect) = tx_round s.app.map s.tx (tx_view s now connected_for_light) in
          (
            record s {
              app = record s.app { others = effect.others; traffic_lights = effect.traffic_lights };
              tx = tx;
            },
            effect.messages,
          ))
      else (s, [])

  unfoldable pub system_step : Cjson D → Calendar → System D → SystemEvent → System D × Output
  system_step cjson calendar s (receive world) =
      let (t, calls) = rx_turn s.app.map (rx_view s) world in
      (rx_leave s t, record silent { device = calls })
  system_step cjson calendar s (mqtt_turn results now ok) =
      let (m, calls) = step cjson calendar (mqtt_view s) (Event.turn results now ok) in
      (mqtt_leave s m, record silent { mqtt = calls })
  system_step cjson calendar s (mqtt_callback c) =
      let (m, calls) = step cjson calendar (mqtt_view s) (event_of c) in
      (mqtt_leave s m, record silent { mqtt = calls })
  system_step cjson calendar s (transmit now connected_for_light) =
      let (s', messages) = tx_turn s now connected_for_light in
      (s', record silent { messages = messages })
  system_step cjson calendar s signal = (record s { app = handle_signal s.app }, silent)

  -- The state after a sequence of events, and each event's output with the state before it.
  unfoldable pub system_run :
      Cjson D → Calendar → System D → List SystemEvent → System D × List (System D × Output)
  system_run cjson calendar s [] = (s, [])
  system_run cjson calendar s (e ∷ es) =
      let (s', output) = system_step cjson calendar s e in
      let (s'', outputs) = system_run cjson calendar s' es in (s'', (s, output) ∷ outputs)
