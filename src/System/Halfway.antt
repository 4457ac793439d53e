-- ===== src/System/Halfway.antt =====
-- What the other threads can see while `on_ego_frame` of core/can_rx_thread.c runs.
use green_right_topst_linux.Base.{ℕ, ◌≡◌, refl, List, [], ◌∷◌, Bool}
use green_right_topst_linux.Types.{EgoVehicle, TurnState}
use green_right_topst_linux.Doubles.{Doubles}
use green_right_topst_linux.Map.Service.{MapService}
use green_right_topst_linux.PublishQueue.{content}
use green_right_topst_linux.SelfVehicle.{self_vehicle_manager_update_from_can}
use green_right_topst_linux.EgoFrame.{RxContext, Readings, on_ego_frame, stages, is_candidate_mode}
use green_right_topst_linux.Mqtt.Published.{IfSome}
use green_right_topst_linux.System.Changes.{
  IsOwn, IsCoherent, push-waiting, info-IsOwn, update-IsOwn, frame-IsCoherent,
}

-- The manager and the queue hold the vehicle itself, the turn state is `next`, and the flag is `flag`.
pub record IsHalfway (own : ℕ) (next : TurnState) (flag : Bool) (c : RxContext) : Type 0 where
  pub self_id : c.self.vehicle_id ≡ own
  pub info : IsOwn own c.self.info
  pub waiting : IfSome (IsOwn own) (content c.self_publish_queue)
  pub turn : c.self.turn_state ≡ next
  pub flag_is : c.candidate_vehicle_tx_enabled ≡ flag

-- The first stages are halfway, and the last is.
abbrev pub AreHalfway : ℕ → TurnState → Bool → Bool → List RxContext → Type 0
AreHalfway own next before after [] = ⊥
AreHalfway own next before after (c ∷ []) = IsHalfway own next after c
AreHalfway own next before after (c ∷ d ∷ cs) =
    IsHalfway own next before c × AreHalfway own next before after (d ∷ cs)

-- If the candidate flag is that of the turn state and the manager and the queue hold the vehicle itself
-- before a call of `on_ego_frame`: at each point of the call at which another thread can see a change, the
-- manager and the queue still hold the vehicle itself. The new turn state is seen from the first point
-- on, but the flag is that of the turn state before the call until the last point, at which it is that
-- of the new one.
pub stages-AreHalfway :
    {D : Doubles} (map : MapService D) (own : ℕ) (readings : Readings) (c : RxContext)
    (ego : EgoVehicle)
    → IsCoherent own c
    → let next = (on_ego_frame map readings c ego).self.turn_state in
      AreHalfway own next
        (is_candidate_mode c.self.turn_state)
        (is_candidate_mode next)
        (stages map readings c ego)
unfolding on_ego_frame self_vehicle_manager_update_from_can
stages-AreHalfway map own readings c ego w =
    let info =
      update-IsOwn map own (record c.self { turn_state = _ }) readings.update_garbage ego _
        readings.update_ms w.self_id in
    let waiting =
      push-waiting own c.self_publish_queue _ w.waiting (info-IsOwn own readings.get_ms _ info) in
    let after = frame-IsCoherent map own readings c ego w in
    (
      record {
        self_id = w.self_id;
        info = w.info;
        waiting = w.waiting;
        turn = refl;
        flag_is = w.flag;
      },
      (
        record {
          self_id = w.self_id;
          info = info;
          waiting = w.waiting;
          turn = refl;
          flag_is = w.flag;
        },
        (
          record {
            self_id = w.self_id;
            info = info;
            waiting = waiting;
            turn = refl;
            flag_is = w.flag;
          },
          record {
            self_id = after.self_id;
            info = after.info;
            waiting = after.waiting;
            turn = refl;
            flag_is = after.flag;
          },
        ),
      ),
    )
