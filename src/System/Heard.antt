-- ===== src/System/Heard.antt =====
-- From a message of another vehicle to what core/can_tx_thread.c tells the controller.
use green_right_topst_linux.Base.{
  ℕ, ◌≤◌, ◌<◌, ◌≡◌, ◌≢◌, refl, sym, ◌∙◌, subst, List, [], ◌∷◌, Bool, true, false, Option, none,
  some, inl, inr, ◌==◌, Bool-cases, arith, Str, is_empty,
}
use green_right_topst_linux.Types.{VehicleInfo}
use green_right_topst_linux.Doubles.{Doubles}
use green_right_topst_linux.Libc.{Calendar, has_prefix}
use green_right_topst_linux.Codec.{Cjson, vehicle_info_from_json_string}
use green_right_topst_linux.Map.Service.{MapService}
use green_right_topst_linux.OtherVehicles.{other_vehicle_manager_update, other_vehicle_manager_get}
use green_right_topst_linux.OtherVehicles.Table.{IsValid, get-update, copy_valid-All}
use green_right_topst_linux.SelfVehicle.{self_vehicle_manager_get_info}
use green_right_topst_linux.EgoFrame.{is_candidate_mode}
use green_right_topst_linux.Candidate.{CandidateSelection, distance_squared, selection_of}
use green_right_topst_linux.Candidate.Select.{Any, NotFarther, select_candidate_vehicle-Nearest}
use green_right_topst_linux.TxThread.{TxMessage, TxState, Env}
use green_right_topst_linux.TxThread.Round.{
  selected, candidate_part, start_part, round_candidate, tx_round,
}
use green_right_topst_linux.TxThread.Report.{is_report, reports, status_due, round_report}
use green_right_topst_linux.Mqtt.{
  MqttHandler, mqtt_handler_is_connected, on_message, receive_vehicle, c_string,
  topic_vehicle_status_prefix,
}
use green_right_topst_linux.Mqtt.Thread.{Managers, Place, callbacks, on_vehicle_message}
use green_right_topst_linux.Mqtt.Sound.{Fits}
use green_right_topst_linux.Mqtt.Events.{step, callback}
use green_right_topst_linux.Mqtt.Published.{IfSome}
use green_right_topst_linux.System.{
  System, mqtt_callback, message, transmit, tx_view, tx_turn, system_step,
}
use green_right_topst_linux.System.Changes.{IsOwn, info-IsOwn}
use green_right_topst_linux.System.Sound.{IsConsistent, system_step-IsConsistent}
use green_right_topst_linux.System.Safe.{selection_lem}

-- The status of a vehicle at most so far away, where distances are squared.
abbrev pub IsStatusWithin : VehicleInfo → ℕ → TxMessage → Type 0
IsStatusWithin self limit (TxMessage.status c) = distance_squared self c.vehicle ≤ limit
IsStatusWithin self limit _ = ⊥

-- A message that on_message takes for that of a vehicle.
pub record IsVehicleMessage {D : Doubles} (cjson : Cjson D) (topic : Str) (payload : List ℕ)
    (v : VehicleInfo) : Type 0 where
  pub prefix : has_prefix topic_vehicle_status_prefix topic ≡ true
  pub not_empty : is_empty payload ≡ false
  pub decoded : vehicle_info_from_json_string cjson (c_string payload) ≡ some v
  pub small : v.vehicle_id < 64

Any-reports : (P : TxMessage → Type 0) (ms : List TxMessage) → Any P (reports ms) → Any P ms
Any-reports P [] h = h
Any-reports P (m ∷ ms) h = elim (Bool-cases (is_report m)) [
  | inl e ↦ elim (rw e at h) [ inl here ↦ inl here | inr later ↦ inr (Any-reports P ms later) ]
  | inr e ↦ inr (Any-reports P ms (rw e at h))
]

Any-selected :
    (P : TxMessage → Type 0) (s : TxState) (c : CandidateSelection)
    → P (TxMessage.status c)
    → Any P (selected s true c).1
unfolding selected
Any-selected P s c p = elim (Bool-cases (c.vehicle.vehicle_id == s.last_intro_vehicle_id)) [
  | inl e ↦ simp e (inl p)
  | inr e ↦ simp e (inr (inl p))
]

module _ {D : Doubles} (map : MapService D) where
  -- A round in which a status is due reports the candidate.
  round_told :
      (s : TxState) (env : Env) (self : VehicleInfo) (c : CandidateSelection)
      → env.active ≡ true
      → status_due map s ≡ true
      → NotFarther self (round_candidate map env) c
      → Any (IsStatusWithin self (distance_squared self c.vehicle)) (tx_round map s env).1.messages
  round_told s env self c active due near =
      let P = IsStatusWithin self (distance_squared self c.vehicle) in
      Any-reports P _ (
        subst (Any P) (sym (round_report map s env).0)
          (simp (active, due) (of_choice (start_part s) (round_candidate map env) near)))
    where
      of_choice :
          (t : TxState) (o : Option CandidateSelection)
          → NotFarther self o c
          → Any
              (IsStatusWithin self (distance_squared self c.vehicle))
              (candidate_part t true env.connected o).1
      of_choice t none near = absurd near
      of_choice t (some chosen) near = Any-selected _ t chosen near

  choice_lem :
      (env : Env) (self v : VehicleInfo) (c : CandidateSelection)
      → env.connected ≡ true
      → env.self ≡ some self
      → IsValid env.others
      → other_vehicle_manager_get env.others v.vehicle_id ≡ some v
      → selection_of map self v ≡ some c
      → NotFarther self (round_candidate map env) c
  choice_lem env self v c connected known w found selection =
      simp (connected, known)
        (copy_valid-All env.others w _ v.vehicle_id v
          (select_candidate_vehicle-Nearest map self env.others).1 found c selection)

module _ {D : Doubles} (own : ℕ) (s : System D) (now : ℕ) (connected_for_light : Bool)
    (self v : VehicleInfo) (c : CandidateSelection) (running : s.app.running ≡ true)
    (mode : is_candidate_mode s.app.self.turn_state ≡ true)
    (connected : mqtt_handler_is_connected s.app.mqtt ≡ true)
    (known : self_vehicle_manager_get_info s.app.self now ≡ some self)
    (selection : selection_of s.app.map self v ≡ some c)
    (due : status_due s.app.map s.tx ≡ true) where
  own_id : IsConsistent own s → self.vehicle_id ≡ own
  own_id w =
      (subst (IfSome (IsOwn own)) known (info-IsOwn own now s.app.self w.rx.coherent.info)).id

  -- What is in the table is told.
  found_told :
      (others : _)
      → IsConsistent own (record s { app = record s.app { others = others } })
      → other_vehicle_manager_get others v.vehicle_id ≡ some v
      → Any
          (IsStatusWithin self (distance_squared self v))
          (tx_turn (record s { app = record s.app { others = others } }) now connected_for_light).1
  unfolding tx_turn
  found_told others w found =
      let s' = record s { app = record s.app { others = others } } in
      let env = tx_view s' now connected_for_light in
      let (same, differs) = selection_lem s.app.map self v c selection in
      rw (running, same)
        (round_told s.app.map s.tx env self c (w.rx.coherent.flag ∙ mode) due
          (choice_lem s.app.map env self v c connected known w.mqtt.managers.table found selection))

-- The handler of a consistent context that is connected.
pub inner_lem :
    (own : ℕ) (place : Place) (handler : MqttHandler Managers)
    → Fits own place handler
    → mqtt_handler_is_connected handler ≡ true
    → (handler.mosq ≡ true) × (handler.vehicle_id ≡ own) × (handler.callbacks ≡ callbacks)
unfolding mqtt_handler_is_connected
inner_lem own Place.outer handler f h = absurd (ground (arith, f.0))
inner_lem own (Place.inner elapsed) handler f h = (f.1, f.2, f.3)

module _ {D : Doubles} (cjson : Cjson D) (calendar : Calendar) (own : ℕ) where
  stored_lem :
      (s : System D) (heard : ℕ) (topic : Str) (payload : List ℕ) (v : VehicleInfo)
      → IsVehicleMessage cjson topic payload v
      → s.app.mqtt.mosq ≡ true
      → s.app.mqtt.callbacks ≡ callbacks
      → v.vehicle_id ≢ s.app.mqtt.vehicle_id
      → (system_step cjson calendar s (mqtt_callback (message heard topic payload))).0 ≡ record s {
        app = record s.app { others = other_vehicle_manager_update s.app.others v heard };
      }
  unfolding system_step step callback on_message receive_vehicle on_vehicle_message
  stored_lem s heard topic payload v m mosq c other =
      let not_own : (v.vehicle_id == s.app.mqtt.vehicle_id) ≡ false = ground arith in
      simp (mosq, c, m.not_empty, m.prefix, m.decoded, not_own) refl

  -- In a consistent state of the running program, in a turn state that needs a candidate, connected to the
  -- broker and with fresh data of the vehicle itself: if a message of a vehicle with an id below 64 comes in that passes the
  -- checks for a candidate, and a round of the transmit thread follows in which a status is due, the
  -- round sends the status of a vehicle that is not farther away.
  pub transmit_tells_heard :
      (s : System D) (heard now : ℕ) (connected_for_light : Bool) (topic : Str) (payload : List ℕ)
      (self v : VehicleInfo) (c : CandidateSelection)
      → IsConsistent own s
      → s.app.running ≡ true
      → is_candidate_mode s.app.self.turn_state ≡ true
      → mqtt_handler_is_connected s.app.mqtt ≡ true
      → self_vehicle_manager_get_info s.app.self now ≡ some self
      → IsVehicleMessage cjson topic payload v
      → selection_of s.app.map self v ≡ some c
      → status_due s.app.map s.tx ≡ true
      → let s' = (system_step cjson calendar s (mqtt_callback (message heard topic payload))).0 in
        Any
          (IsStatusWithin self (distance_squared self v))
          (system_step cjson calendar s' (transmit now connected_for_light)).1.messages
  unfolding system_step
  transmit_tells_heard s heard now connected_for_light topic payload self v c w running mode
        connected known m selection due =
      let (mosq, id, callbacks_are) = inner_lem own s.place s.app.mqtt w.mqtt.fits connected in
      let self_id =
        own_id own s now connected_for_light self v c running mode connected known selection due
          w in
      let differs = (selection_lem s.app.map self v c selection).1 in
      let stored =
        stored_lem s heard topic payload v m mosq callbacks_are
          (λ h. differs (h ∙ id ∙ sym self_id)) in
      let others = other_vehicle_manager_update s.app.others v heard in
      let small = m.small in
      let found : other_vehicle_manager_get others v.vehicle_id ≡ some v =
        ground (arith, get-update s.app.others v heard v.vehicle_id w.mqtt.managers.table.size) in
      subst
        (λ (t : System D).
          Any (IsStatusWithin self (distance_squared self v)) (tx_turn t now connected_for_light).1)
        (sym stored)
        (found_told own s now connected_for_light self v c running mode connected known selection
          due others
          (subst (IsConsistent own) stored (
            system_step-IsConsistent cjson calendar own s
              (mqtt_callback (message heard topic payload)) w))
          found)
