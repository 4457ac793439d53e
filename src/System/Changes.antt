-- ===== src/System/Changes.antt =====
-- What the receive thread of core/can_rx_thread.c changes of the context that the threads share.
use green_right_topst_linux.Base.{
  ℕ, ◌+◌, ◌≤◌, ◌≡◌, refl, ◌∙◌, List, [], ◌∷◌, Bool, true, false, ◌&&◌, Option, none, some,
  if◌then◌else◌, Bool-cases, inl, inr, arith, Str,
}
use green_right_topst_linux.Types.{VehicleInfo, EgoVehicle}
use green_right_topst_linux.Doubles.{Doubles}
use green_right_topst_linux.Map.Service.{MapService}
use green_right_topst_linux.PublishQueue.{VehiclePublishQueue, vehicle_publish_queue_push, content}
use green_right_topst_linux.SelfVehicle.{
  SelfVehicleManager, self_vehicle_manager_get_info, self_vehicle_manager_update_from_can,
}
use green_right_topst_linux.SelfVehicle.Freshness.{get_info-update_from_can}
use green_right_topst_linux.EgoFrame.{
  RxContext, Readings, on_ego_frame, push_latest, is_candidate_mode,
}
use green_right_topst_linux.EgoFrame.Mode.{frame-InStep}
use green_right_topst_linux.Can.Rx.{CanHandler, can_handler_poll}
use green_right_topst_linux.Can.Rx.Keeps.{can_handler_poll-SameDevice}
use green_right_topst_linux.Can.Device.{can_handler_init, can_handler_cleanup, open_ipc_device}
use green_right_topst_linux.RxThread.{RxThread, World, call_all, polled, rx_turn}
use green_right_topst_linux.Mqtt.Published.{IfSome}

-- The vehicle itself, as it is published.
pub record IsOwn (own : ℕ) (v : VehicleInfo) : Type 0 where
  pub id : v.vehicle_id ≡ own
  pub zones : v.conflict_zone_count ≤ 4

-- The candidate flag is that of the turn state, and the manager and the queue hold the vehicle itself.
pub record IsCoherent (own : ℕ) (c : RxContext) : Type 0 where
  pub flag : c.candidate_vehicle_tx_enabled ≡ is_candidate_mode c.self.turn_state
  pub self_id : c.self.vehicle_id ≡ own
  pub info : IsOwn own c.self.info
  pub waiting : IfSome (IsOwn own) (content c.self_publish_queue)

-- The thread is in its inner loop just while the handler is initialised, and the context is coherent.
pub record IsAlong (own : ℕ) (t : RxThread) : Type 0 where
  pub along : t.can.initialized ≡ t.polling
  pub coherent : IsCoherent own t.context

pub push-waiting :
    (own : ℕ) (queue : VehiclePublishQueue) (v : Option VehicleInfo)
    → IfSome (IsOwn own) (content queue)
    → IfSome (IsOwn own) v
    → IfSome (IsOwn own) (content (push_latest queue v))
unfolding vehicle_publish_queue_push
push-waiting own queue none w p = w
push-waiting own queue (some v) w p = p

pub info-IsOwn :
    (own now : ℕ) (m : SelfVehicleManager)
    → IsOwn own m.info
    → IfSome (IsOwn own) (self_vehicle_manager_get_info m now)
unfolding self_vehicle_manager_get_info
info-IsOwn own now m w = given _
  where
    given : (b : Bool) → IfSome (IsOwn own) (if b then some m.info else none)
    given true = w
    given false = tt

module _ {D : Doubles} (map : MapService D) (own : ℕ) where
  pub update-IsOwn :
      (m : SelfVehicleManager) (garbage : _) (ego : EgoVehicle) (timestamp now : ℕ)
      → m.vehicle_id ≡ own
      → IsOwn own (self_vehicle_manager_update_from_can m map garbage ego timestamp now).info
  unfolding self_vehicle_manager_update_from_can
  update-IsOwn m garbage ego timestamp now e =
      let updated =
        get_info-update_from_can map m garbage ego timestamp 0 0 (omega arith) (omega arith) in
      record { id = updated.5 ∙ e; zones = updated.8 }

  -- Every frame keeps the context coherent.
  pub frame-IsCoherent :
      (readings : Readings) (c : RxContext) (ego : EgoVehicle)
      → IsCoherent own c
      → IsCoherent own (on_ego_frame map readings c ego)
  unfolding on_ego_frame self_vehicle_manager_update_from_can
  frame-IsCoherent readings c ego w =
      let info =
        update-IsOwn (record c.self { turn_state = _ }) readings.update_garbage ego _
          readings.update_ms w.self_id in
      record {
        flag = frame-InStep map readings c ego w.flag;
        self_id = w.self_id;
        info = info;
        waiting =
            push-waiting own c.self_publish_queue _ w.waiting
              (info-IsOwn own readings.get_ms _ info);
      }

  call_all-IsCoherent :
      (readings : ℕ → Readings) (n : ℕ) (c : RxContext) (egos : List EgoVehicle)
      → IsCoherent own c
      → IsCoherent own (call_all map readings n c egos)
  unfolding call_all
  call_all-IsCoherent readings n c [] w = w
  call_all-IsCoherent readings n c (ego ∷ egos) w =
      call_all-IsCoherent readings (n + 1) _ egos (frame-IsCoherent (readings n) c ego w)

  polled-IsAlong :
      (t : RxThread) (world : World) (r : Option (Bool × CanHandler))
      → can_handler_poll world.clock t.can world.input ≡ r
      → IsAlong own t
      → IsAlong own (polled map t world r)
  polled-IsAlong t world none e w = w
  polled-IsAlong t world (some (b, can)) e w = record {
    along =
        (can_handler_poll-SameDevice world.clock t.can can world.input b e).same_initialized
        ∙ w.along;
    coherent = call_all-IsCoherent world.readings 0 t.context _ w.coherent;
  }

  init_lem :
      (path : Option Str) (rx_mock tx_mock : Bool) (answer : Option ℕ)
      → let (can, calls, ok) = can_handler_init path rx_mock tx_mock answer in can.initialized ≡ ok
  unfolding can_handler_init open_ipc_device
  init_lem path true true answer = refl
  init_lem path true false answer = refl
  init_lem path false tx_mock answer = refl

  cleanup_lem : (can : CanHandler) → (can_handler_cleanup can).0.initialized ≡ false
  unfolding can_handler_cleanup
  cleanup_lem can = elim (Bool-cases can.initialized) [ inl e ↦ simp e refl | inr e ↦ simp e refl ]

  if-IsAlong :
      {A : Type 0} (b : Bool) (x y : RxThread × A)
      → IsAlong own x.0
      → IsAlong own y.0
      → IsAlong own (if b then x else y).0
  if-IsAlong true x y p q = p
  if-IsAlong false x y p q = q

  -- Every step of the receive thread keeps this.
  pub rx_turn-IsAlong :
      (t : RxThread) (world : World) → IsAlong own t → IsAlong own (rx_turn map t world).0
  unfolding rx_turn
  rx_turn-IsAlong t world w =
      if-IsAlong t.polling _ _
        (if-IsAlong (t.running && t.can.initialized) _ _ (polled-IsAlong t world _ refl w)
          (record { along = cleanup_lem t.can; coherent = w.coherent }))
        (if-IsAlong t.running _ _
          (record {
            along = init_lem t.can_dev_path t.can_rx_mock t.can_tx_mock world.answer;
            coherent = w.coherent;
          })
          w)
