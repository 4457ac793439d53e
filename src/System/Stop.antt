-- ===== src/System/Stop.antt =====
-- How the program ends after a signal, or after a thread that did not start.
use green_right_topst_linux.Base.{
  ℕ, ◌≡◌, refl, ap, ◌∙◌, subst, List, [], ◌∷◌, Bool, true, false, ◌||◌, Bool-cases, inl, inr, All,
}
use green_right_topst_linux.Doubles.{Doubles}
use green_right_topst_linux.Libc.{Calendar}
use green_right_topst_linux.Codec.{Cjson}
use green_right_topst_linux.RxThread.{World, rx_turn}
use green_right_topst_linux.Mqtt.Thread.{Context, Place, thread_leave, thread_turn}
use green_right_topst_linux.Mqtt.Events.{Event, State, step, guarded}
use green_right_topst_linux.Mqtt.Sound.{Fits}
use green_right_topst_linux.App.{handle_signal}
use green_right_topst_linux.System.{
  System, SystemEvent, receive, mqtt_turn, mqtt_callback, transmit, signal, message, connect,
  disconnect, Output, mqtt_view, rx_view, tx_turn, system_step, system_run,
}
use green_right_topst_linux.System.Sound.{IsConsistent, system_run-IsConsistent}

-- Whether the receive thread and the MQTT thread take a step in a sequence of events.
abbrev pub is_receive : SystemEvent → Bool
is_receive (receive world) = true
is_receive _ = false

abbrev pub is_turn : SystemEvent → Bool
is_turn (mqtt_turn results now ok) = true
is_turn _ = false

abbrev pub some_event : (SystemEvent → Bool) → List SystemEvent → Bool
some_event test [] = false
some_event test (e ∷ es) = test e || some_event test es

-- Where the two threads are, as far as it is known: outside their inner loops once `rx` and `mqtt` hold.
record Out {D : Doubles} (rx mqtt : Bool) (s : System D) : Type 0 where
  stopped : s.app.running ≡ false
  rx_out : rx ≡ true → s.polling ≡ false
  mqtt_out : mqtt ≡ true → s.place ≡ Place.outer

module _ {D : Doubles} (cjson : Cjson D) (calendar : Calendar) where
  rx_lem :
      (s : System D) (world : World)
      → s.app.running ≡ false
      → (rx_turn s.app.map (rx_view s) world).0.polling ≡ false
  unfolding rx_turn
  rx_lem s world h = elim (Bool-cases s.polling) [
    | inl e ↦ simp (h, e) refl
    | inr e ↦ simp (h, e) refl
  ]

  turn_lem :
      (place : Place) (context : Context) (results : _) (now : ℕ) (ok : Bool)
      → context.running ≡ false
      → (thread_turn cjson calendar context place results now ok).1 ≡ Place.outer
  unfolding thread_turn thread_leave
  turn_lem Place.outer context results now ok h = simp h refl
  turn_lem (Place.inner elapsed) context results now ok h = simp h refl

  callback_lem : (s : State) (e : Event) → (guarded cjson calendar s e).0.place ≡ s.place
  callback_lem s e = elim (Bool-cases s.context.mqtt.mosq) [
    | inl m ↦ simp m refl
    | inr m ↦ simp m refl
  ]

  step-Out :
      (rx mqtt : Bool) (s : System D) (e : SystemEvent)
      → Out rx mqtt s
      → Out (is_receive e || rx) (is_turn e || mqtt) (system_step cjson calendar s e).0
  unfolding system_step step tx_turn handle_signal
  step-Out rx mqtt s (receive world) w = record {
    stopped = w.stopped;
    rx_out = λ h. rx_lem s world w.stopped;
    mqtt_out = w.mqtt_out;
  }
  step-Out rx mqtt s (mqtt_turn results now ok) w = record {
    stopped = w.stopped;
    rx_out = w.rx_out;
    mqtt_out = λ h. turn_lem s.place (mqtt_view s).context results now ok w.stopped;
  }
  step-Out rx mqtt s (mqtt_callback (message now topic payload)) w = record {
    stopped = w.stopped;
    rx_out = w.rx_out;
    mqtt_out = λ h. callback_lem (mqtt_view s) (Event.message now topic payload) ∙ w.mqtt_out h;
  }
  step-Out rx mqtt s (mqtt_callback (connect ok)) w = record {
    stopped = w.stopped;
    rx_out = w.rx_out;
    mqtt_out = λ h. callback_lem (mqtt_view s) (Event.connect ok) ∙ w.mqtt_out h;
  }
  step-Out rx mqtt s (mqtt_callback disconnect) w = record {
    stopped = w.stopped;
    rx_out = w.rx_out;
    mqtt_out = λ h. callback_lem (mqtt_view s) Event.disconnect ∙ w.mqtt_out h;
  }
  step-Out rx mqtt s (transmit now connected_for_light) w =
      simp w.stopped (record { stopped = w.stopped; rx_out = w.rx_out; mqtt_out = w.mqtt_out })
  step-Out rx mqtt s signal w = record { stopped = refl; rx_out = w.rx_out; mqtt_out = w.mqtt_out }

  or_swap : (a b c : Bool) → (a || (b || c)) ≡ ((b || a) || c)
  or_swap true true c = refl
  or_swap true false c = refl
  or_swap false true c = refl
  or_swap false false c = refl

  run-Out :
      (rx mqtt : Bool) (s : System D) (es : List SystemEvent)
      → Out rx mqtt s
      → Out
          (some_event is_receive es || rx)
          (some_event is_turn es || mqtt)
          (system_run cjson calendar s es).0
  unfolding system_run
  run-Out rx mqtt s [] w = w
  run-Out rx mqtt s (e ∷ es) w =
      let s' = (system_step cjson calendar s e).0 in
      let r = some_event is_receive es in
      let t = some_event is_turn es in
      rw (← or_swap r (is_receive e) rx, ← or_swap t (is_turn e) mqtt)
        (run-Out (is_receive e || rx) (is_turn e || mqtt) s' es (step-Out rx mqtt s e w))

  step-silent :
      (s : System D) (e : SystemEvent)
      → s.app.running ≡ false
      → (system_step cjson calendar s e).1.messages ≡ []
  unfolding system_step tx_turn
  step-silent s (receive world) h = refl
  step-silent s (mqtt_turn results now ok) h = refl
  step-silent s (mqtt_callback c) h = refl
  step-silent s (transmit now connected_for_light) h = simp h refl
  step-silent s signal h = refl

  run-silent :
      (s : System D) (es : List SystemEvent)
      → Out false false s
      → All
          (λ (taken : System D × Output). taken.1.messages ≡ [])
          (system_run cjson calendar s es).1
  unfolding system_run
  run-silent s [] w = tt
  run-silent s (e ∷ es) w =
      let after = step-Out false false s e w in
      (
        step-silent s e w.stopped,
        run-silent (system_step cjson calendar s e).0 es
            (record { stopped = after.stopped; rx_out = λ h. cc; mqtt_out = λ h. cc }),
      )

  -- Once `running` is false in a consistent state: through any further events in which the receive thread
  -- and the MQTT thread each take a step, nothing is sent to the controller any more, and at the end
  -- both threads are outside their inner loops, and neither of their handlers is initialised.
  pub system_run_stops :
      (own : ℕ) (s : System D) (es : List SystemEvent)
      → IsConsistent own s
      → s.app.running ≡ false
      → some_event is_receive es ≡ true
      → some_event is_turn es ≡ true
      → let (s', taken) = system_run cjson calendar s es in
        All (λ (t : System D × Output). t.1.messages ≡ []) taken
        × (s'.polling ≡ false)
        × (s'.app.can.initialized ≡ false)
        × (s'.place ≡ Place.outer)
        × (s'.app.mqtt.initialized ≡ false)
  system_run_stops own s es w stopped received turned =
      let start : Out false false s = record {
        stopped = stopped;
        rx_out = λ h. cc;
        mqtt_out = λ h. cc;
      } in
      let s' = (system_run cjson calendar s es).0 in
      let out = run-Out false false s es start in
      let consistent = system_run-IsConsistent cjson calendar own s es w in
      let polling = out.rx_out (ap (λ (b : Bool). b || false) received) in
      let place = out.mqtt_out (ap (λ (b : Bool). b || false) turned) in
      (
        run-silent s es start,
        polling,
        consistent.rx.along ∙ polling,
        place,
        (subst (λ (p : Place). Fits own p s'.app.mqtt) place consistent.mqtt.fits).0,
      )
