-- ===== src/System/Outputs.antt =====
-- What the program tells the controller and the broker, over every run.
use green_right_topst_linux.Base.{
  ℕ, ◌≡◌, List, [], ◌∷◌, Bool, true, Option, none, some, Bool-cases, inl, inr, Str, All,
}
use green_right_topst_linux.Types.{VehicleInfo}
use green_right_topst_linux.Doubles.{Doubles}
use green_right_topst_linux.Libc.{Calendar}
use green_right_topst_linux.Codec.{Cjson}
use green_right_topst_linux.Candidate.{CandidateSelection}
use green_right_topst_linux.TxThread.Round.{round_candidate}
use green_right_topst_linux.Mqtt.Events.{Event}
use green_right_topst_linux.Mqtt.Published.{IfSome, IsOwnCall, step-Good}
use green_right_topst_linux.App.{Startup, vehicle_id_of, app_init, start_threads}
use green_right_topst_linux.System.{
  System, SystemEvent, receive, mqtt_turn, mqtt_callback, transmit, signal, message, connect,
  disconnect, Output, begin, mqtt_view, tx_view, tx_turn, system_step, system_run,
}
use green_right_topst_linux.System.Changes.{IsOwn, info-IsOwn}
use green_right_topst_linux.System.Sound.{IsConsistent, system_step-IsConsistent}
use green_right_topst_linux.System.Start.{begin-IsConsistent}
use green_right_topst_linux.System.Safe.{Tells, IfChosen, IsOther, tx_round-Tells, candidate_lem}

-- A vehicle that may be told to the controller in a state: another one, with the data that a lookup of its
-- id gives, while the candidate flag is set.
abbrev pub IsTarget : {D : Doubles} → ℕ → System D → VehicleInfo → Type 0
IsTarget own s v = IsOther own s.app.others v × (s.app.candidate_vehicle_tx_enabled ≡ true)

-- What a step from a state tells.
pub record IsSafe {D : Doubles} (cjson : Cjson D) (calendar : Calendar) (own : ℕ) (s : System D)
    (output : Output) : Type 0 where
  pub told : All (Tells (IsTarget own s)) output.messages
  pub published : All (IsOwnCall cjson calendar own (IsOwn own)) output.mqtt

module _ {D : Doubles} (cjson : Cjson D) (calendar : Calendar) (own : ℕ) where
  chosen_lem :
      (s : System D) (c : Option CandidateSelection)
      → IfChosen (IsOther own s.app.others) c
      → s.app.candidate_vehicle_tx_enabled ≡ true
      → IfChosen (IsTarget own s) c
  chosen_lem s none p mode = tt
  chosen_lem s (some c) p mode = (p, mode)

  own_info :
      (s : System D) (now : ℕ) (v : Option VehicleInfo)
      → IfSome (IsOwn own) v
      → IfSome (λ v. v.vehicle_id ≡ own) v
  own_info s now none p = tt
  own_info s now (some v) p = p.id

  transmit_told :
      (s : System D) (now : ℕ) (connected_for_light : Bool)
      → IsConsistent own s
      → All (Tells (IsTarget own s)) (tx_turn s now connected_for_light).1
  unfolding tx_turn
  transmit_told s now connected_for_light w = elim (Bool-cases s.app.running) [
    | inr e ↦ simp e tt
    | inl e ↦ simp e (
        let env = tx_view s now connected_for_light in
        tx_round-Tells s.app.map (IsTarget own s) s.tx env (λ active.
          chosen_lem s (round_candidate s.app.map env)
            (candidate_lem s.app.map own env w.mqtt.managers.table
              (own_info s now _ (info-IsOwn own now s.app.self w.rx.coherent.info)))
            active))
  ]

  system_step-IsSafe :
      (s : System D) (e : SystemEvent)
      → IsConsistent own s
      → IsSafe cjson calendar own s (system_step cjson calendar s e).1
  unfolding system_step
  system_step-IsSafe s (receive world) w = record { told = tt; published = tt }
  system_step-IsSafe s (mqtt_turn results now ok) w = record {
    told = tt;
    published =
        (step-Good cjson calendar own (IsOwn own) (mqtt_view s) (Event.turn results now ok)
          w.addressed tt).1;
  }
  system_step-IsSafe s (mqtt_callback (message now topic payload)) w = record {
    told = tt;
    published =
        (step-Good cjson calendar own (IsOwn own) (mqtt_view s) (Event.message now topic payload)
          w.addressed tt).1;
  }
  system_step-IsSafe s (mqtt_callback (connect ok)) w = record {
    told = tt;
    published =
        (step-Good cjson calendar own (IsOwn own) (mqtt_view s) (Event.connect ok) w.addressed
          tt).1;
  }
  system_step-IsSafe s (mqtt_callback disconnect) w = record {
    told = tt;
    published =
        (step-Good cjson calendar own (IsOwn own) (mqtt_view s) Event.disconnect w.addressed tt).1;
  }
  system_step-IsSafe s (transmit now connected_for_light) w = record {
    told = transmit_told s now connected_for_light w;
    published = tt;
  }
  system_step-IsSafe s signal w = record { told = tt; published = tt }

  run-IsSafe :
      (s : System D) (es : List SystemEvent)
      → IsConsistent own s
      → All
          (λ (taken : System D × Output). IsSafe cjson calendar own taken.0 taken.1)
          (system_run cjson calendar s es).1
  unfolding system_run
  run-IsSafe s [] w = tt
  run-IsSafe s (e ∷ es) w = (
    system_step-IsSafe s e w,
    run-IsSafe (system_step cjson calendar s e).0 es
        (system_step-IsConsistent cjson calendar own s e w),
  )

-- After a successful `app_init`, whichever threads start, and whatever the order of the steps, where a poll
-- of the receive thread with its calls of `on_ego_frame` and a round of the transmit thread are one step
-- each: each introduction and status that a step sends to the controller is of another vehicle, with
-- the data that a lookup of its id gives before the step, and is sent only while the candidate flag is
-- set; each call of `mosquitto_publish` carries the JSON of a vehicle with the own id and at most four
-- conflict zones, on the own topic.
pub system_run-IsSafe :
    (D : Doubles) (cjson : Cjson D) (calendar : Calendar) (atof : Str → D.Double)
    (startup : Startup) (rx_ok mqtt_ok tx_ok : Bool) (es : List SystemEvent)
    → (app_init D atof startup).2 ≡ true
    → All
        (λ (taken : System D × Output).
          IsSafe cjson calendar (vehicle_id_of startup.argv) taken.0 taken.1)
        (system_run cjson calendar
          (begin (start_threads (app_init D atof startup).0 rx_ok mqtt_ok tx_ok).0)
          es).1
system_run-IsSafe D cjson calendar atof startup rx_ok mqtt_ok tx_ok es ok =
    run-IsSafe cjson calendar (vehicle_id_of startup.argv) _ es
      (begin-IsConsistent D atof startup rx_ok mqtt_ok tx_ok ok)
