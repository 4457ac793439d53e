-- ===== src/Mqtt/Ledger.antt =====
-- What the MQTT thread holds of mosquitto after every sequence of events.
use green_right_topst_linux.Base.{
  ℕ, ◌+◌, ◌≡◌, refl, sym, ap, ◌∙◌, List, [], ◌∷◌, Bool, true, false, Option, some, ◌>>=◌, ◌&&◌, leb,
  if◌then◌else◌, Bool-cases, inl, inr,
}
use green_right_topst_linux.Doubles.{Doubles}
use green_right_topst_linux.Libc.{Calendar}
use green_right_topst_linux.Codec.{Cjson}
use green_right_topst_linux.PublishQueue.{vehicle_publish_queue_try_pop}
use green_right_topst_linux.Mqtt.{
  Call, Results, MqttHandler, on_connect, on_disconnect, mqtt_handler_init,
  mqtt_handler_publish_vehicle_info, mqtt_handler_is_connected,
}
use green_right_topst_linux.Mqtt.Thread.{
  Managers, Context, Place, callbacks, publish_latest_self_vehicle, thread_round, thread_leave,
  thread_turn,
}
use green_right_topst_linux.Mqtt.Events.{Event, State, callback, guarded, step, run}
use green_right_topst_linux.Mqtt.Resources.{
  Resources, mqtt_handler_init-IsOpened, held, of_handler, nothing_held, one_held,
  held-mqtt_handler_cleanup,
}
use green_right_topst_linux.Mqtt.Sound.{IsSound, step-IsSound}

-- The results that an event's calls meet.
abbrev pub results_of : Event → Results
results_of (Event.turn results now ok) = results
results_of _ = record { new_ok = true; connect_ok = true; loop_start_ok = true }

module _ {D : Doubles} (cjson : Cjson D) (calendar : Calendar) where
  -- What is held after the calls of a sequence of events; `none` once a call gives back what is not held.
  abbrev pub ledger : Resources → State → List Event → Option Resources
  ledger r s [] = some r
  ledger r s (e ∷ es) =
      let (s', calls) = step cjson calendar s e in
      do r' ← held (results_of e) r calls; ledger r' s' es

  -- A step's calls change what is held as it changes the handler.
  abbrev Balanced : Results → MqttHandler Managers → MqttHandler Managers → List Call → Type 0
  Balanced results before after calls =
      held results (of_handler before) calls ≡ some (of_handler after)

  publish-Balanced :
      (results : Results) (context : Context) (ok : Bool)
      → (let (after, calls) = publish_latest_self_vehicle cjson calendar context ok in
          Balanced results context.mqtt after.mqtt calls)
  unfolding publish_latest_self_vehicle vehicle_publish_queue_try_pop
      mqtt_handler_publish_vehicle_info
  publish-Balanced results context ok = elim (Bool-cases (mqtt_handler_is_connected context.mqtt)) [
    | inl e ↦ elim (Bool-cases context.self_publish_queue.pending) [
      | inl f ↦ elim (Bool-cases (context.mqtt.initialized && context.mqtt.mosq)) [
        | inl g ↦ simp (e, f, g) refl
        | inr g ↦ simp (e, f, g) refl
      ]
      | inr f ↦ simp (e, f) refl
    ]
    | inr e ↦ simp e refl
  ]

  round-Balanced :
      (results : Results) (context : Context) (elapsed now : ℕ) (ok : Bool)
      → (let (after, elapsed', calls) = thread_round cjson calendar context elapsed now ok in
          Balanced results context.mqtt after.mqtt calls)
  unfolding thread_round
  round-Balanced results context elapsed now ok = elim (Bool-cases (leb 500 (elapsed + 10))) [
    | inl e ↦ simp e (publish-Balanced results context ok)
    | inr e ↦ simp e (publish-Balanced results context ok)
  ]

  enter-Balanced :
      (results : Results) (context : Context)
      → context.mqtt.initialized ≡ false
      → (let (handler, calls, ok) =
            mqtt_handler_init results context.mqtt_host context.mqtt_port context.vehicle_id
              callbacks in
          Balanced results context.mqtt handler calls)
  enter-Balanced results context h =
      let opening =
        mqtt_handler_init results context.mqtt_host context.mqtt_port context.vehicle_id
          callbacks in
      let opened =
        mqtt_handler_init-IsOpened results context.mqtt_host context.mqtt_port context.vehicle_id
          callbacks in
      let outcome : Bool → Resources = (λ b. if b then one_held else nothing_held) in
      ap (λ (b : Bool). held results (outcome b) opening.1) h
      ∙ opened.5
      ∙ sym (ap (λ (b : Bool). some (outcome b)) opened.1)

  if-Balanced :
      (results : Results) (before : MqttHandler Managers) (b : Bool)
      (x y : Context × Place × List Call)
      → Balanced results before x.0.mqtt x.2
      → Balanced results before y.0.mqtt y.2
      → (let (after, place, calls) = if b then x else y in Balanced results before after.mqtt calls)
  if-Balanced results before true x y h k = h
  if-Balanced results before false x y h k = k

  leave-Balanced :
      (results : Results) (context : Context)
      → (let (after, place, calls) = thread_leave context in
          Balanced results context.mqtt after.mqtt calls)
  unfolding thread_leave
  leave-Balanced results context =
      let closed = held-mqtt_handler_cleanup results context.mqtt in
      closed.0 ∙ sym (ap (λ (b : Bool). some (if b then one_held else nothing_held)) closed.1)

  turn-Balanced :
      (own : ℕ) (context : Context) (place : Place) (results : Results) (now : ℕ) (ok : Bool)
      → IsSound own (record { context = context; place = place })
      → (let (after, place', calls) = thread_turn cjson calendar context place results now ok in
          Balanced results context.mqtt after.mqtt calls)
  unfolding thread_turn
  turn-Balanced own context Place.outer results now ok w =
      if-Balanced results context.mqtt context.running _ _ (enter-Balanced results context w.fits.0)
        refl
  turn-Balanced own context (Place.inner elapsed) results now ok w =
      if-Balanced results context.mqtt (context.running && context.mqtt.initialized) _ _
        (round-Balanced results context elapsed now ok) (leave-Balanced results context)

  guarded-Balanced :
      (results : Results) (s : State) (e : Event)
      → (let (after, calls) = guarded cjson calendar s e in
          Balanced results s.context.mqtt after.context.mqtt calls)
  unfolding callback on_connect on_disconnect
  guarded-Balanced results s e = elim (Bool-cases s.context.mqtt.mosq) [
    | inl m ↦ simp m (called e)
    | inr m ↦ simp m refl
  ]
    where
      called :
          (c : Event)
          → Balanced results s.context.mqtt
              (callback cjson calendar s.context c).0.mqtt
              (callback cjson calendar s.context c).1
      called (Event.connect true) = refl
      called (Event.connect false) = refl
      called (Event.message now topic payload) = refl
      called Event.disconnect = refl
      called (Event.turn r n o) = refl
      called (Event.push v) = refl
      called Event.stop = refl

  step-Balanced :
      (own : ℕ) (s : State) (e : Event)
      → IsSound own s
      → (let (after, calls) = step cjson calendar s e in
          Balanced (results_of e) s.context.mqtt after.context.mqtt calls)
  unfolding step
  step-Balanced own s (Event.turn results now ok) w =
      turn-Balanced own s.context s.place results now ok w
  step-Balanced own s (Event.push v) w = refl
  step-Balanced own s Event.stop w = refl
  step-Balanced own s (Event.message now topic payload) w =
      guarded-Balanced (results_of Event.stop) s (Event.message now topic payload)
  step-Balanced own s (Event.connect ok) w =
      guarded-Balanced (results_of Event.stop) s (Event.connect ok)
  step-Balanced own s Event.disconnect w =
      guarded-Balanced (results_of Event.stop) s Event.disconnect

  -- From a sound state on, whatever attempts to connect fail and whenever the thread stops: nothing is given
  -- back that is not held, one library, one client and one loop are held while the handler is
  -- initialised, and nothing is held while it is not.
  pub ledger-run :
      (own : ℕ) (s : State) (es : List Event)
      → IsSound own s
      → ledger (of_handler s.context.mqtt) s es
        ≡ some (of_handler (run cjson calendar s es).0.context.mqtt)
  unfolding run
  ledger-run own s [] w = refl
  ledger-run own s (e ∷ es) w =
      ap (λ (o : Option Resources). o >>= (λ r. ledger r (step cjson calendar s e).0 es))
        (step-Balanced own s e w)
      ∙ ledger-run own (step cjson calendar s e).0 es (step-IsSound cjson calendar own s e w)

  -- Once `running` is false, the thread's next step leaves the inner loop with the handler cleaned up, and
  -- after it the thread is at its end: no step does anything more.
  pub thread_turn-stopped :
      (own : ℕ) (context : Context) (place : Place) (results later : Results) (now now' : ℕ)
      (ok ok' : Bool)
      → IsSound own (record { context = context; place = place })
      → context.running ≡ false
      → (let (after, place', calls) = thread_turn cjson calendar context place results now ok in
          (place' ≡ Place.outer)
          × (after.mqtt.initialized ≡ false)
          × (after.running ≡ false)
          × (thread_turn cjson calendar after place' later now' ok' ≡ (after, place', [])))
  unfolding thread_turn thread_leave
  thread_turn-stopped own context Place.outer results later now now' ok ok' w h =
      simp h (refl, w.fits.0, refl, refl)
  thread_turn-stopped own context (Place.inner elapsed) results later now now' ok ok' w h =
      simp h (refl, (held-mqtt_handler_cleanup results context.mqtt).1, refl, refl)
