-- ===== src/Mqtt/Published.antt =====
-- Where and what the MQTT thread publishes, after every sequence of events.
use green_right_topst_linux.Base.{
  ℕ, ◌+◌, ◌≡◌, refl, ap, subst, List, [], ◌∷◌, Bool, true, false, ◌&&◌, Option, none, some, leb,
  if◌then◌else◌, Bool-cases, inl, inr, All, All-append, safe_copy,
}
use green_right_topst_linux.Types.{VehicleInfo}
use green_right_topst_linux.Doubles.{Doubles}
use green_right_topst_linux.Libc.{Calendar}
use green_right_topst_linux.Codec.{Cjson, vehicle_info_to_json_string}
use green_right_topst_linux.PublishQueue.{
  vehicle_publish_queue_push, vehicle_publish_queue_try_pop, content,
}
use green_right_topst_linux.Mqtt.{
  Call, Results, on_connect, on_disconnect, mqtt_handler_init, vehicle_status_topic,
  mqtt_handler_cleanup, mqtt_handler_publish_vehicle_info, mqtt_handler_is_connected,
}
use green_right_topst_linux.Mqtt.Thread.{
  Context, Place, callbacks, entered, publish_latest_self_vehicle, thread_round, thread_leave,
  thread_turn,
}
use green_right_topst_linux.Mqtt.Events.{Event, State, callback, guarded, step, run}

-- The vehicle waiting in the queue, if any.
abbrev pub IfSome : (VehicleInfo → Type 0) → Option VehicleInfo → Type 0
IfSome P none = Unit {0}
IfSome P (some v) = P v

-- Every push brings a vehicle with the property.
abbrev pub Pushes : (VehicleInfo → Type 0) → Event → Type 0
Pushes P (Event.push v) = P v
Pushes P _ = Unit {0}

-- A call of `mosquitto_publish` goes to the vehicle's own topic and carries a vehicle with the property.
abbrev pub IsOwnCall :
    {D : Doubles} → Cjson D → Calendar → ℕ → (VehicleInfo → Type 0) → Call → Type 0
IsOwnCall {D} cjson calendar own P (Call.mosquitto_publish topic payload retain) =
    (topic ≡ safe_copy 64 (vehicle_status_topic own))
    × ((v : VehicleInfo) × P v × (payload ≡ vehicle_info_to_json_string D cjson calendar v))
IsOwnCall cjson calendar own P _ = Unit {0}

-- The handler's topic is the vehicle's own, and what waits has the property.
pub record IsAddressed (own : ℕ) (P : VehicleInfo → Type 0) (context : Context) : Type 0 where
  pub same_id : context.vehicle_id ≡ own
  pub topic :
      context.mqtt.mosq ≡ true → context.mqtt.status_topic ≡ safe_copy 64 (vehicle_status_topic own)
  pub waiting : IfSome P (content context.self_publish_queue)

module _ {D : Doubles} (cjson : Cjson D) (calendar : Calendar) (own : ℕ)
    (P : VehicleInfo → Type 0) where
  abbrev pub Good : Context → List Call → Type 0
  Good context calls = IsAddressed own P context × All (IsOwnCall cjson calendar own P) calls

  send-Good :
      (context : Context) (v : VehicleInfo) (ok : Bool)
      → IsAddressed own P context
      → P v
      → All
          (IsOwnCall cjson calendar own P)
          (mqtt_handler_publish_vehicle_info cjson calendar context.mqtt v ok).0
  unfolding mqtt_handler_publish_vehicle_info
  send-Good context v ok w p = elim (Bool-cases context.mqtt.initialized) [
    | inl g ↦ elim (Bool-cases context.mqtt.mosq) [
      | inl m ↦ simp (g, m) ((w.topic m, (v, p, refl)), tt)
      | inr m ↦ simp (g, m) tt
    ]
    | inr g ↦ simp g tt
  ]

  publish-Good :
      (context : Context) (ok : Bool)
      → IsAddressed own P context
      → (let (after, calls) = publish_latest_self_vehicle cjson calendar context ok in
          Good after calls)
  unfolding publish_latest_self_vehicle vehicle_publish_queue_try_pop
  publish-Good context ok w = elim (Bool-cases (mqtt_handler_is_connected context.mqtt)) [
    | inl e ↦ elim (Bool-cases context.self_publish_queue.pending) [
      | inl f ↦
          simp (e, f)
            (
              record { same_id = w.same_id; topic = w.topic; waiting = tt },
              send-Good context context.self_publish_queue.latest ok w (
                  subst
                    (λ (b : Bool).
                      IfSome P (if b then some context.self_publish_queue.latest else none))
                    f w.waiting),
            )
      | inr f ↦ simp (e, f) (w, tt)
    ]
    | inr e ↦ simp e (w, tt)
  ]

  round-Good :
      (context : Context) (elapsed now : ℕ) (ok : Bool)
      → IsAddressed own P context
      → (let (after, elapsed', calls) = thread_round cjson calendar context elapsed now ok in
          Good after calls)
  unfolding thread_round
  round-Good context elapsed now ok w =
      let (v, good) = publish-Good context ok w in
      elim (Bool-cases (leb 500 (elapsed + 10))) [
        | inl e ↦
            simp e (record { same_id = v.same_id; topic = v.topic; waiting = v.waiting }, good)
        | inr e ↦ simp e (v, good)
      ]

  enter-Good :
      (new_ok connect_ok loop_start_ok : Bool) (context : Context)
      → IsAddressed own P context
      → (let (after, place, calls) =
            entered
              (mqtt_handler_init
                (record { new_ok = new_ok; connect_ok = connect_ok; loop_start_ok = loop_start_ok })
                context.mqtt_host
                context.mqtt_port
                context.vehicle_id
                callbacks)
              context in
          Good after calls)
  unfolding mqtt_handler_init
  enter-Good false b c context w =
      (record { same_id = w.same_id; topic = λ h. cc; waiting = w.waiting }, (tt, (tt, (tt, tt))))
  enter-Good true false c context w = (
    record {
      same_id = w.same_id;
      topic = λ h. ap (λ (i : ℕ). safe_copy 64 (vehicle_status_topic i)) w.same_id;
      waiting = w.waiting;
    },
    (tt, (tt, (tt, (tt, (tt, (tt, (tt, tt))))))),
  )
  enter-Good true true false context w = (
    record {
      same_id = w.same_id;
      topic = λ h. ap (λ (i : ℕ). safe_copy 64 (vehicle_status_topic i)) w.same_id;
      waiting = w.waiting;
    },
    (tt, (tt, (tt, (tt, (tt, (tt, (tt, (tt, (tt, tt))))))))),
  )
  enter-Good true true true context w = (
    record {
      same_id = w.same_id;
      topic = λ h. ap (λ (i : ℕ). safe_copy 64 (vehicle_status_topic i)) w.same_id;
      waiting = w.waiting;
    },
    (tt, (tt, (tt, (tt, (tt, (tt, tt)))))),
  )

  if-Good :
      (b : Bool) (x y : Context × Place × List Call)
      → Good x.0 x.2
      → Good y.0 y.2
      → (let (after, place, calls) = if b then x else y in Good after calls)
  if-Good true x y h k = h
  if-Good false x y h k = k

  leave-Good :
      (context : Context)
      → IsAddressed own P context
      → (let (after, place, calls) = thread_leave context in Good after calls)
  unfolding thread_leave mqtt_handler_cleanup
  leave-Good context w = elim (Bool-cases context.mqtt.initialized) [
    | inl e ↦ simp e (
      record { same_id = w.same_id; topic = λ h. cc; waiting = w.waiting },
      (tt, (tt, (tt, (tt, tt)))),
    )
    | inr e ↦ simp e (record { same_id = w.same_id; topic = w.topic; waiting = w.waiting }, tt)
  ]

  turn-Good :
      (context : Context) (place : Place) (results : Results) (now : ℕ) (ok : Bool)
      → IsAddressed own P context
      → (let (after, place', calls) = thread_turn cjson calendar context place results now ok in
          Good after calls)
  unfolding thread_turn
  turn-Good context Place.outer results now ok w =
      if-Good context.running _ _
        (enter-Good results.new_ok results.connect_ok results.loop_start_ok context w) (w, tt)
  turn-Good context (Place.inner elapsed) results now ok w =
      if-Good (context.running && context.mqtt.initialized) _ _
        (round-Good context elapsed now ok w) (leave-Good context w)

  guarded-Good :
      (s : State) (e : Event)
      → IsAddressed own P s.context
      → (let (after, calls) = guarded cjson calendar s e in Good after.context calls)
  unfolding callback on_connect on_disconnect
  guarded-Good s e w = elim (Bool-cases s.context.mqtt.mosq) [
    | inl m ↦ simp m (called e)
    | inr m ↦ simp m (w, tt)
  ]
    where
      called :
          (c : Event)
          → Good (callback cjson calendar s.context c).0 (callback cjson calendar s.context c).1
      called (Event.connect true) =
          (record { same_id = w.same_id; topic = w.topic; waiting = w.waiting }, (tt, (tt, tt)))
      called (Event.connect false) =
          (record { same_id = w.same_id; topic = w.topic; waiting = w.waiting }, tt)
      called (Event.message now topic payload) =
          (record { same_id = w.same_id; topic = w.topic; waiting = w.waiting }, tt)
      called Event.disconnect =
          (record { same_id = w.same_id; topic = w.topic; waiting = w.waiting }, tt)
      called (Event.turn r n o) = (w, tt)
      called (Event.push v) = (w, tt)
      called Event.stop = (w, tt)

  pub step-Good :
      (s : State) (e : Event)
      → IsAddressed own P s.context
      → Pushes P e
      → (let (after, calls) = step cjson calendar s e in Good after.context calls)
  unfolding step vehicle_publish_queue_push
  step-Good s (Event.turn results now ok) w p = turn-Good s.context s.place results now ok w
  step-Good s (Event.push v) w p =
      (record { same_id = w.same_id; topic = w.topic; waiting = p }, tt)
  step-Good s Event.stop w p =
      (record { same_id = w.same_id; topic = w.topic; waiting = w.waiting }, tt)
  step-Good s (Event.message now topic payload) w p =
      guarded-Good s (Event.message now topic payload) w
  step-Good s (Event.connect ok) w p = guarded-Good s (Event.connect ok) w
  step-Good s Event.disconnect w p = guarded-Good s Event.disconnect w

  -- From a state whose handler, if it has a client, has the vehicle's own topic: whatever property
  -- the pushed vehicles have, and the one that waits at the start, every call of
  -- `mosquitto_publish`, in every sequence of events, carries the JSON of a vehicle with the
  -- property, on the vehicle's own topic.
  pub run-IsOwnCall :
      (s : State) (es : List Event)
      → IsAddressed own P s.context
      → All (Pushes P) es
      → All (IsOwnCall cjson calendar own P) (run cjson calendar s es).1
  unfolding run
  run-IsOwnCall s [] w p = tt
  run-IsOwnCall s (e ∷ es) w p =
      let (after, good) = step-Good s e w p.0 in
      All-append (IsOwnCall cjson calendar own P) (step cjson calendar s e).1
        (run cjson calendar (step cjson calendar s e).0 es).1 good
        (run-IsOwnCall (step cjson calendar s e).0 es after p.1)
