-- ===== src/System/Sound.antt =====
-- The invariant of the whole program: from `app_init` on, whatever the threads do and in whatever order.
use green_right_topst_linux.Base.{
  ℕ, ◌≡◌, refl, sym, ap, ◌∙◌, subst, List, [], ◌∷◌, Bool, true, false, Option, none, some,
  if◌then◌else◌, length, Bool-cases, inl, inr, arith,
}
use green_right_topst_linux.Types.{VehicleInfo}
use green_right_topst_linux.Doubles.{Doubles}
use green_right_topst_linux.Libc.{Calendar}
use green_right_topst_linux.Codec.{Cjson}
use green_right_topst_linux.OtherVehicles.{
  OtherVehicleManager, other_vehicle_manager_get, other_vehicle_manager_set_candidate,
}
use green_right_topst_linux.OtherVehicles.Table.{IsValid}
use green_right_topst_linux.TrafficLights.{
  TrafficLightManager, traffic_light_manager_select_candidate,
}
use green_right_topst_linux.TxThread.{TxMessage, TxState, Env}
use green_right_topst_linux.TxThread.Round.{
  stop_part, light_part, send_candidate_traffic_light, light_of_self, inactive_round, active_round,
  tx_round,
}
use green_right_topst_linux.Map.Service.{MapService}
use green_right_topst_linux.Mqtt.Thread.{Managers}
use green_right_topst_linux.Mqtt.Events.{Event, step}
use green_right_topst_linux.Mqtt.Managers.{AreSound}
use green_right_topst_linux.Mqtt.Sound.{IsSound, step-IsSound}
use green_right_topst_linux.Mqtt.Published.{IsAddressed, Pushes, step-Good}
use green_right_topst_linux.App.{handle_signal}
use green_right_topst_linux.System.{
  System, message, connect, disconnect, SystemEvent, receive, mqtt_turn, mqtt_callback, transmit,
  signal, rx_view, mqtt_view, mqtt_leave, tx_view, tx_turn, system_step, system_run,
}
use green_right_topst_linux.System.Changes.{IsOwn, IsAlong, rx_turn-IsAlong}

-- What the transmit thread leaves as it is: the slots of the two tables.
record SameSlots (m m' : Managers) : Type 0 where
  vehicles : m'.others.slots ≡ m.others.slots
  lights : m'.traffic_lights.slots ≡ m.traffic_lights.slots

set_candidate-slots :
    (m : OtherVehicleManager) (v : Option VehicleInfo)
    → (other_vehicle_manager_set_candidate m v).slots ≡ m.slots
unfolding other_vehicle_manager_set_candidate
set_candidate-slots m none = refl
set_candidate-slots m (some v) = refl

stop-slots : (s : TxState) (m : OtherVehicleManager) → (stop_part s m).1.slots ≡ m.slots
unfolding stop_part
stop-slots s m = elim (Bool-cases s.last_active) [
  | inl e ↦ simp e (set_candidate-slots m none)
  | inr e ↦ simp e refl
]

select-slots :
    (m : TrafficLightManager) (tl_id : ℕ)
    → (traffic_light_manager_select_candidate m tl_id).slots ≡ m.slots
unfolding traffic_light_manager_select_candidate
select-slots m tl_id = ground arith

module _ {D : Doubles} (map : MapService D) where
  light-slots :
      (env : Env) → (send_candidate_traffic_light map env).0.slots ≡ env.traffic_lights.slots
  unfolding send_candidate_traffic_light
  light-slots env = elim (Bool-cases env.connected_for_light) [
    | inr e ↦ simp e refl
    | inl e ↦ simp e (of_self env.self)
  ]
    where
      of_self :
          (v : Option VehicleInfo)
          → (light_of_self map env.traffic_lights v).0.slots ≡ env.traffic_lights.slots
      of_self none = refl
      of_self (some v) = select-slots env.traffic_lights _

  part-slots :
      (env : Env) (due : Bool) (s : TxState)
      → (light_part map env due s).1.slots ≡ env.traffic_lights.slots
  unfolding light_part
  part-slots env true s = light-slots env
  part-slots env false s = refl

  tx_round-SameSlots :
      (s : TxState) (env : Env)
      → let effect = (tx_round map s env).1 in
        SameSlots
          (record { others = env.others; traffic_lights = env.traffic_lights })
          (record { others = effect.others; traffic_lights = effect.traffic_lights })
  unfolding tx_round inactive_round active_round
  tx_round-SameSlots s env = elim (Bool-cases env.active) [
    | inl e ↦
        simp e (record { vehicles = set_candidate-slots env.others _; lights = part-slots env _ _ })
    | inr e ↦ simp e (record { vehicles = stop-slots _ env.others; lights = part-slots env _ _ })
  ]

SameSlots-AreSound : (own : ℕ) (m m' : Managers) → SameSlots m m' → AreSound own m → AreSound own m'
unfolding other_vehicle_manager_get
SameSlots-AreSound own m m' same w = record {
  table =
      subst (λ slots. IsValid (record { slots = slots; candidate = m'.others.candidate }))
        (sym same.vehicles) (record { size = w.table.size; own = w.table.own });
  not_own =
      subst
        (λ slots.
          other_vehicle_manager_get (record { slots = slots; candidate = m'.others.candidate }) own
          ≡ none)
        (sym same.vehicles) w.not_own;
  lights = ap length same.lights ∙ w.lights;
}

-- What holds of the context between any two steps: the MQTT thread's part is sound, the handler and the
-- queue have the vehicle's own topic and data, and the receive thread's part is coherent.
pub record IsConsistent {D : Doubles} (own : ℕ) (s : System D) : Type 0 where
  pub mqtt : IsSound own (mqtt_view s)
  pub addressed : IsAddressed own (IsOwn own) (mqtt_view s).context
  pub rx : IsAlong own (rx_view s)

module _ {D : Doubles} (cjson : Cjson D) (calendar : Calendar) (own : ℕ) where
  receive_lem :
      (s : System D) (world : _)
      → IsConsistent own s
      → IsConsistent own (system_step cjson calendar s (receive world)).0
  unfolding system_step
  receive_lem s world w =
      let along = rx_turn-IsAlong s.app.map own (rx_view s) world w.rx in
      record {
        mqtt = record { same_id = w.mqtt.same_id; fits = w.mqtt.fits; managers = w.mqtt.managers };
        addressed = record {
          same_id = w.addressed.same_id;
          topic = w.addressed.topic;
          waiting = along.coherent.waiting;
        };
        rx = record { along = along.along; coherent = along.coherent };
      }

  mqtt_lem :
      (s : System D) (e : Event)
      → Pushes (IsOwn own) e
      → IsConsistent own s
      → IsConsistent own (mqtt_leave s (step cjson calendar (mqtt_view s) e).0)
  mqtt_lem s e p w =
      let (good, calls) = step-Good cjson calendar own (IsOwn own) (mqtt_view s) e w.addressed p in
      let sound = step-IsSound cjson calendar own (mqtt_view s) e w.mqtt in
      record {
        mqtt = record { same_id = w.mqtt.same_id; fits = sound.fits; managers = sound.managers };
        addressed = record {
          same_id = w.addressed.same_id;
          topic = good.topic;
          waiting = good.waiting;
        };
        rx = record {
          along = w.rx.along;
          coherent = record {
            flag = w.rx.coherent.flag;
            self_id = w.rx.coherent.self_id;
            info = w.rx.coherent.info;
            waiting = good.waiting;
          };
        };
      }

  -- Only the managers and the locals of the transmit thread change, or `running`.
  managers_lem :
      (s : System D) (running : Bool) (others : OtherVehicleManager) (lights : TrafficLightManager)
      (locals : TxState)
      → AreSound own (record { others = others; traffic_lights = lights })
      → IsConsistent own s
      → IsConsistent own (record s {
        app = record s.app { running = running; others = others; traffic_lights = lights };
        tx = locals;
      })
  managers_lem s running others lights locals sound w = record {
    mqtt = record { same_id = w.mqtt.same_id; fits = w.mqtt.fits; managers = sound };
    addressed = record {
      same_id = w.addressed.same_id;
      topic = w.addressed.topic;
      waiting = w.addressed.waiting;
    };
    rx = record { along = w.rx.along; coherent = w.rx.coherent };
  }

  if-IsConsistent :
      (b : Bool) (x y : System D × List TxMessage)
      → IsConsistent own x.0
      → IsConsistent own y.0
      → IsConsistent own (if b then x else y).0
  if-IsConsistent true x y p q = p
  if-IsConsistent false x y p q = q

  transmit_lem :
      (s : System D) (now : ℕ) (connected_for_light : Bool)
      → IsConsistent own s
      → IsConsistent own (tx_turn s now connected_for_light).0
  unfolding tx_turn
  transmit_lem s now connected_for_light w =
      if-IsConsistent s.app.running _ _
        (managers_lem s s.app.running _ _ _
          (SameSlots-AreSound own _ _
            (tx_round-SameSlots s.app.map s.tx (tx_view s now connected_for_light)) w.mqtt.managers)
          w)
        w

  -- Every event keeps the context consistent.
  pub system_step-IsConsistent :
      (s : System D) (e : SystemEvent)
      → IsConsistent own s
      → IsConsistent own (system_step cjson calendar s e).0
  unfolding system_step handle_signal
  system_step-IsConsistent s (receive world) w = receive_lem s world w
  system_step-IsConsistent s (mqtt_turn results now ok) w =
      mqtt_lem s (Event.turn results now ok) tt w
  system_step-IsConsistent s (mqtt_callback (message now topic payload)) w =
      mqtt_lem s (Event.message now topic payload) tt w
  system_step-IsConsistent s (mqtt_callback (connect ok)) w = mqtt_lem s (Event.connect ok) tt w
  system_step-IsConsistent s (mqtt_callback disconnect) w = mqtt_lem s Event.disconnect tt w
  system_step-IsConsistent s (transmit now connected_for_light) w =
      transmit_lem s now connected_for_light w
  system_step-IsConsistent s signal w =
      managers_lem s false s.app.others s.app.traffic_lights s.tx w.mqtt.managers w

  pub system_run-IsConsistent :
      (s : System D) (es : List SystemEvent)
      → IsConsistent own s
      → IsConsistent own (system_run cjson calendar s es).0
  unfolding system_run
  system_run-IsConsistent s [] w = w
  system_run-IsConsistent s (e ∷ es) w =
      system_run-IsConsistent (system_step cjson calendar s e).0 es (system_step-IsConsistent s e w)
