-- ===== src/Mqtt/Resources.antt =====
-- What the calls of handler/mqtt_handler.c hold of mosquitto: the library, a client, its connection and
-- its loop's thread.
use green_right_topst_linux.Base.{
  ℕ, zero, suc, ◌+◌, ◌≡◌, refl, Option, none, some, ◌>>=◌, List, [], ◌∷◌, Bool, true, false, ◌&&◌,
  if◌then◌else◌, Bool-cases, inl, inr, Str,
}
use green_right_topst_linux.Mqtt.{
  Call, Results, MqttHandler, MqttHandlerCallbacks, mqtt_handler_init, mqtt_handler_cleanup,
}

-- How often each is held.
pub record Resources : Type 0 where
  pub libraries : ℕ
  pub clients : ℕ
  pub loops : ℕ

abbrev pub nothing_held : Resources
nothing_held = record { libraries = 0; clients = 0; loops = 0 }

abbrev pub one_held : Resources
one_held = record { libraries = 1; clients = 1; loops = 1 }

-- One less, if there is one.
abbrev pub released : ℕ → Option ℕ
released zero = none
released (suc n) = some n

-- What is held after a call; `none` where it gives back what is not held.
abbrev pub held_after : Results → Resources → Call → Option Resources
held_after results r Call.mosquitto_lib_init = some (record r { libraries = r.libraries + 1 })
held_after results r Call.mosquitto_lib_cleanup = do
  n ← released r.libraries
  some (record r { libraries = n })
held_after results r (Call.mosquitto_new id) =
    some (if results.new_ok then record r { clients = r.clients + 1 } else r)
held_after results r Call.mosquitto_destroy = do
  n ← released r.clients
  some (record r { clients = n })
held_after results r Call.mosquitto_loop_start =
    some (if results.loop_start_ok then record r { loops = r.loops + 1 } else r)
held_after results r Call.mosquitto_loop_stop = do
  n ← released r.loops
  some (record r { loops = n })
held_after results r _ = some r

abbrev pub held : Results → Resources → List Call → Option Resources
held results r [] = some r
held results r (c ∷ cs) = do r' ← held_after results r c; held results r' cs

module _ {S : Type 0} where
  -- What a handler that is held by nobody else stands for.
  abbrev pub of_handler : MqttHandler S → Resources
  of_handler handler = if handler.initialized then one_held else nothing_held

  -- The result is `ok`, and what is held of mosquitto fits it.
  abbrev pub IsOpened : Results → ℕ → MqttHandler S × List Call × Bool → Bool → Type 0
  IsOpened results vehicle_id (handler, calls, result) ok =
      (result ≡ ok)
      × (handler.initialized ≡ ok)
      × (handler.mosq ≡ ok)
      × (handler.connected ≡ false)
      × (handler.vehicle_id ≡ vehicle_id)
      × (held results nothing_held calls ≡ some (if ok then one_held else nothing_held))

  init_lem :
      (a b c : Bool) (host : Str) (port vehicle_id : ℕ) (callbacks : MqttHandlerCallbacks S)
      → IsOpened
          (record { new_ok = a; connect_ok = b; loop_start_ok = c })
          vehicle_id
          (mqtt_handler_init
            (record { new_ok = a; connect_ok = b; loop_start_ok = c })
            host
            port
            vehicle_id
            callbacks)
          (a && (b && c))
  unfolding mqtt_handler_init
  init_lem false b c host port vehicle_id callbacks = (refl, refl, refl, refl, refl, refl)
  init_lem true false c host port vehicle_id callbacks = (refl, refl, refl, refl, refl, refl)
  init_lem true true false host port vehicle_id callbacks = (refl, refl, refl, refl, refl, refl)
  init_lem true true true host port vehicle_id callbacks = (refl, refl, refl, refl, refl, refl)

  -- `mqtt_handler_init` succeeds if and only if the three calls that can fail succeed. Then the handler
  -- has its client, and one library, one client and one loop are held; else it has no client and nothing
  -- is held. Either way it bears the vehicle's id and counts as not connected.
  pub mqtt_handler_init-IsOpened :
      (results : Results) (host : Str) (port vehicle_id : ℕ) (callbacks : MqttHandlerCallbacks S)
      → IsOpened results vehicle_id
          (mqtt_handler_init results host port vehicle_id callbacks)
          (results.new_ok && (results.connect_ok && results.loop_start_ok))
  mqtt_handler_init-IsOpened results host port vehicle_id callbacks =
      init_lem results.new_ok results.connect_ok results.loop_start_ok host port vehicle_id
        callbacks

  -- Cleaning up gives back what an initialised handler holds; cleaning up once more does nothing.
  pub held-mqtt_handler_cleanup :
      (results : Results) (handler : MqttHandler S)
      → (held results (of_handler handler) (mqtt_handler_cleanup handler).1 ≡ some nothing_held)
        × ((mqtt_handler_cleanup handler).0.initialized ≡ false)
        × (mqtt_handler_cleanup (mqtt_handler_cleanup handler).0
            ≡ ((mqtt_handler_cleanup handler).0, []))
  unfolding mqtt_handler_cleanup
  held-mqtt_handler_cleanup results handler = elim (Bool-cases handler.initialized) [
    | inl e ↦ simp e (refl, refl, refl)
    | inr e ↦ simp e (refl, refl, refl)
  ]
