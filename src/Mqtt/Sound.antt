-- ===== src/Mqtt/Sound.antt =====
-- What holds of the MQTT thread's state after every sequence of events, and of the calls it makes.
use green_right_topst_linux.Base.{
  ℕ, ◌+◌, ◌<◌, ◌≡◌, refl, sym, subst, ◌∙◌, List, [], ◌∷◌, Bool, true, false, ◌&&◌, leb,
  if◌then◌else◌, arith, Bool-cases, inl, inr,
}
use green_right_topst_linux.Doubles.{Doubles}
use green_right_topst_linux.Libc.{Calendar}
use green_right_topst_linux.Codec.{Cjson}
use green_right_topst_linux.PublishQueue.{vehicle_publish_queue_try_pop}
use green_right_topst_linux.Mqtt.{
  Call, Results, MqttHandler, on_connect, on_disconnect, mqtt_handler_init, mqtt_handler_cleanup,
  mqtt_handler_is_connected,
}
use green_right_topst_linux.Mqtt.Thread.{
  Managers, Context, Place, callbacks, entered, publish_latest_self_vehicle, thread_round,
  thread_leave, thread_turn,
}
use green_right_topst_linux.Mqtt.Events.{Event, State, callback, guarded, step, run}
use green_right_topst_linux.Mqtt.Managers.{AreSound, on_message-AreSound, clean-AreSound}

-- The handler as the thread's place needs it.
abbrev pub Fits : ℕ → Place → MqttHandler Managers → Type 0
Fits own Place.outer handler = (handler.initialized ≡ false) × (handler.mosq ≡ false)
Fits own (Place.inner cleanup_elapsed) handler =
    (handler.initialized ≡ true)
    × (handler.mosq ≡ true)
    × (handler.vehicle_id ≡ own)
    × (handler.callbacks ≡ callbacks)
    × (cleanup_elapsed < 500)

pub record IsSound (own : ℕ) (s : State) : Type 0 where
  pub same_id : s.context.vehicle_id ≡ own
  pub fits : Fits own s.place s.context.mqtt
  pub managers : AreSound own s.context.managers

module _ {D : Doubles} (cjson : Cjson D) (calendar : Calendar) (own : ℕ) where
  -- Publishing changes the queue alone.
  abbrev pub IsQuiet : Context → Context → Type 0
  IsQuiet before after =
      (after.mqtt ≡ before.mqtt)
      × (after.managers ≡ before.managers)
      × (after.vehicle_id ≡ before.vehicle_id)
      × (after.running ≡ before.running)

  pub publish-IsQuiet :
      (context : Context) (ok : Bool)
      → IsQuiet context (publish_latest_self_vehicle cjson calendar context ok).0
  unfolding publish_latest_self_vehicle vehicle_publish_queue_try_pop
  publish-IsQuiet context ok = elim (Bool-cases (mqtt_handler_is_connected context.mqtt)) [
    | inl e ↦ elim (Bool-cases context.self_publish_queue.pending) [
      | inl f ↦ simp (e, f) (refl, refl, refl, refl)
      | inr f ↦ simp (e, f) (refl, refl, refl, refl)
    ]
    | inr e ↦ simp e (refl, refl, refl, refl)
  ]

  quiet-IsSound :
      (before after : Context) (place : Place)
      → IsQuiet before after
      → IsSound own (record { context = before; place = place })
      → IsSound own (record { context = after; place = place })
  quiet-IsSound before after place q w = record {
    same_id = q.2 ∙ w.same_id;
    fits = subst (Fits own place) (sym q.0) w.fits;
    managers = subst (AreSound own) (sym q.1) w.managers;
  }

  -- The state after a step of the thread.
  abbrev state_of : Context × Place × List Call → State
  state_of (context, place, calls) = record { context = context; place = place }

  round-IsSound :
      (context : Context) (elapsed now : ℕ) (ok : Bool)
      → IsSound own (record { context = context; place = Place.inner elapsed })
      → IsSound own (
          let (context', elapsed', calls) = thread_round cjson calendar context elapsed now ok in
          record { context = context'; place = Place.inner elapsed' })
  unfolding thread_round
  round-IsSound context elapsed now ok w =
      let context' = (publish_latest_self_vehicle cjson calendar context ok).0 in
      let w' =
        quiet-IsSound context context' (Place.inner elapsed) (publish-IsQuiet context ok) w in
      let (initialized, mosq, id, c, bound) = w'.fits in
      elim (Bool-cases (leb 500 (elapsed + 10))) [
        | inl e ↦ simp e (record {
          same_id = w'.same_id;
          fits = (initialized, mosq, id, c, omega arith);
          managers = clean-AreSound own now context'.managers w'.managers context' refl;
        })
        | inr e ↦ simp e (record {
          same_id = w'.same_id;
          fits = (initialized, mosq, id, c, ground arith);
          managers = w'.managers;
        })
      ]

  leave-IsSound :
      (context : Context) (elapsed : ℕ)
      → IsSound own (record { context = context; place = Place.inner elapsed })
      → IsSound own (state_of (thread_leave context))
  unfolding thread_leave mqtt_handler_cleanup
  leave-IsSound context elapsed w = record {
    same_id = w.same_id;
    fits = simp w.fits.0 (refl, refl);
    managers = w.managers;
  }

  entered-IsSound :
      (new_ok connect_ok loop_start_ok : Bool) (context : Context)
      → IsSound own (record { context = context; place = Place.outer })
      → IsSound own (
          state_of (
            entered
              (mqtt_handler_init
                (record { new_ok = new_ok; connect_ok = connect_ok; loop_start_ok = loop_start_ok })
                context.mqtt_host
                context.mqtt_port
                context.vehicle_id
                callbacks)
              context))
  unfolding mqtt_handler_init
  entered-IsSound false b c context w = record {
    same_id = w.same_id;
    fits = (refl, refl);
    managers = w.managers;
  }
  entered-IsSound true false c context w = record {
    same_id = w.same_id;
    fits = (refl, refl);
    managers = w.managers;
  }
  entered-IsSound true true false context w = record {
    same_id = w.same_id;
    fits = (refl, refl);
    managers = w.managers;
  }
  entered-IsSound true true true context w = record {
    same_id = w.same_id;
    fits = (refl, refl, w.same_id, refl, omega arith);
    managers = w.managers;
  }

  if-IsSound :
      (b : Bool) (x y : Context × Place × List Call)
      → IsSound own (state_of x)
      → IsSound own (state_of y)
      → IsSound own (state_of (if b then x else y))
  if-IsSound true x y h k = h
  if-IsSound false x y h k = k

  turn-IsSound :
      (context : Context) (place : Place) (results : Results) (now : ℕ) (ok : Bool)
      → IsSound own (record { context = context; place = place })
      → IsSound own (state_of (thread_turn cjson calendar context place results now ok))
  unfolding thread_turn
  turn-IsSound context Place.outer results now ok w =
      if-IsSound context.running _ _
        (entered-IsSound results.new_ok results.connect_ok results.loop_start_ok context w) w
  turn-IsSound context (Place.inner elapsed) results now ok w =
      if-IsSound (context.running && context.mqtt.initialized) _ _
        (round-IsSound context elapsed now ok w) (leave-IsSound context elapsed w)

  -- While there is a client, the thread is in its inner loop.
  callback-IsSound :
      (context : Context) (elapsed : ℕ) (e : Event)
      → IsSound own (record { context = context; place = Place.inner elapsed })
      → IsSound own
          (record { context = (callback cjson calendar context e).0; place = Place.inner elapsed })
  unfolding callback on_connect on_disconnect
  callback-IsSound context elapsed (Event.message now topic payload) w = record {
    same_id = w.same_id;
    fits = w.fits;
    managers =
        on_message-AreSound own now context.managers w.managers context.mqtt w.fits.2 w.fits.3 cjson
          topic payload;
  }
  callback-IsSound context elapsed (Event.connect true) w = record {
    same_id = w.same_id;
    fits = w.fits;
    managers = w.managers;
  }
  callback-IsSound context elapsed (Event.connect false) w = record {
    same_id = w.same_id;
    fits = w.fits;
    managers = w.managers;
  }
  callback-IsSound context elapsed Event.disconnect w = record {
    same_id = w.same_id;
    fits = w.fits;
    managers = w.managers;
  }
  callback-IsSound context elapsed (Event.turn r n o) w = w
  callback-IsSound context elapsed (Event.push v) w = w
  callback-IsSound context elapsed Event.stop w = w

  guarded-IsSound :
      (s : State) (e : Event) → IsSound own s → IsSound own (guarded cjson calendar s e).0
  guarded-IsSound s e w = go s.place s.context w
    where
      go :
          (place : Place) (context : Context)
          → IsSound own (record { context = context; place = place })
          → IsSound own (guarded cjson calendar (record { context = context; place = place }) e).0
      go Place.outer context v = simp v.fits.1 v
      go (Place.inner elapsed) context v = simp v.fits.1 (callback-IsSound context elapsed e v)

  -- Every event keeps the state sound.
  pub step-IsSound :
      (s : State) (e : Event) → IsSound own s → IsSound own (step cjson calendar s e).0
  unfolding step
  step-IsSound s (Event.turn results now ok) w = turn-IsSound s.context s.place results now ok w
  step-IsSound s (Event.push v) w = record {
    same_id = w.same_id;
    fits = w.fits;
    managers = w.managers;
  }
  step-IsSound s Event.stop w = record { same_id = w.same_id; fits = w.fits; managers = w.managers }
  step-IsSound s (Event.message now topic payload) w =
      guarded-IsSound s (Event.message now topic payload) w
  step-IsSound s (Event.connect ok) w = guarded-IsSound s (Event.connect ok) w
  step-IsSound s Event.disconnect w = guarded-IsSound s Event.disconnect w

  -- From a sound state on, whatever happens and in whatever order: the tables stay well-formed,
  -- the vehicle is never among the others, the thread is in its inner loop if and only if the
  -- handler is initialised, and less than 500 ms of rounds have passed since the last cleanup.
  pub run-IsSound :
      (s : State) (es : List Event) → IsSound own s → IsSound own (run cjson calendar s es).0
  unfolding run
  run-IsSound s [] w = w
  run-IsSound s (e ∷ es) w = run-IsSound (step cjson calendar s e).0 es (step-IsSound s e w)
