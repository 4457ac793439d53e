-- ===== src/Mqtt/Events.antt =====
-- The MQTT thread among the others: the callbacks that mosquitto's own thread makes while there is a
-- client, the pushes of the receive thread and the end of the program, in any order.
use green_right_topst_linux.Base.{ℕ, List, [], ◌∷◌, ◌++◌, Bool, false, if◌then◌else◌, Str}
use green_right_topst_linux.Types.{VehicleInfo}
use green_right_topst_linux.Doubles.{Doubles}
use green_right_topst_linux.Libc.{Calendar}
use green_right_topst_linux.Codec.{Cjson}
use green_right_topst_linux.PublishQueue.{vehicle_publish_queue_push}
use green_right_topst_linux.Mqtt.{Call, Results, on_message, on_connect, on_disconnect}
use green_right_topst_linux.Mqtt.Thread.{Context, Place, thread_turn}

pub data Event : Type 0 where
  turn : Results → ℕ → Bool → Event
  message : ℕ → Str → List ℕ → Event
  connect : Bool → Event
  disconnect : Event
  push : VehicleInfo → Event
  stop : Event

pub record State : Type 0 where
  pub context : Context
  pub place : Place

module _ {D : Doubles} (cjson : Cjson D) (calendar : Calendar) where
  -- A callback of mosquitto, if there is a client.
  unfoldable pub callback : Context → Event → Context × List Call
  callback context (Event.message now topic payload) = (
    record context { managers = on_message cjson context.mqtt now topic payload context.managers },
    [],
  )
  callback context (Event.connect ok) =
      let (handler, calls) = on_connect context.mqtt ok in
      (record context { mqtt = handler }, calls)
  callback context Event.disconnect = (record context { mqtt = on_disconnect context.mqtt }, [])
  callback context _ = (context, [])

  abbrev pub guarded : State → Event → State × List Call
  guarded s e =
      let (context, calls) = callback s.context e in
      if s.context.mqtt.mosq then (record s { context = context }, calls) else (s, [])

  unfoldable pub step : State → Event → State × List Call
  step s (Event.turn results now ok) =
      let (context, place, calls) = thread_turn cjson calendar s.context s.place results now ok in
      (record { context = context; place = place }, calls)
  step s (Event.push v) = (
    record s {
      context = record s.context {
        self_publish_queue = vehicle_publish_queue_push s.context.self_publish_queue v;
      };
    },
    [],
  )
  step s Event.stop = (record s { context = record s.context { running = false } }, [])
  step s (Event.message now topic payload) = guarded s (Event.message now topic payload)
  step s (Event.connect ok) = guarded s (Event.connect ok)
  step s Event.disconnect = guarded s Event.disconnect

  -- The state after a sequence of events, and all the calls of mosquitto, in order.
  unfoldable pub run : State → List Event → State × List Call
  run s [] = (s, [])
  run s (e ∷ es) = let (s', calls) = step s e in let (s'', more) = run s' es in (s'', calls ++ more)
