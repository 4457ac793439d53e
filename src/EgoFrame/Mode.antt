-- ===== src/EgoFrame/Mode.antt =====
-- The turn state and the candidate flag of core/can_rx_thread.c.
use green_right_topst_linux.Base.{
  ℕ, ◌≡◌, ◌≢◌, ◌⊎◌, refl, sym, ◌∙◌, List, [], ◌∷◌, true, false, ◌==◌, if◌then◌else◌, arith, All,
  Bool-cases, inl, inr,
}
use native.Mathlib.Decide.{ℕ_discrete}
use green_right_topst_linux.Types.{EgoVehicle, TurnState, MapContext, Direction}
use green_right_topst_linux.Doubles.{Doubles}
use green_right_topst_linux.Map.Service.{MapService, map_service_query_vehicle_context}
use green_right_topst_linux.PublishQueue.{vehicle_publish_queue_init}
use green_right_topst_linux.SelfVehicle.{
  self_vehicle_manager_init, self_vehicle_manager_update_from_can, written_or,
}
use green_right_topst_linux.EgoFrame.{
  RxContext, Readings, on_ego_frame, decide_turn_state, is_candidate_mode, turn_of_direction,
}

-- The state machine, by the state, the turn signal, the map's answer and the next state: a turn begins
-- where the signal agrees with the lane's direction, and ends with the signal off.
pub data Turns : TurnState → ℕ → MapContext → TurnState → Type 0 where
  ends :
      {s : TurnState} {n : ℕ} {c : MapContext}
      → s ≢ TurnState.straight
      → n ≡ 0
      → Turns s n c TurnState.straight
  right_begins :
      {n : ℕ} {c : MapContext}
      → c.found ≡ true
      → c.direction ≡ Direction.right
      → n ≡ 1
      → Turns TurnState.straight n c TurnState.right_turn
  left_begins :
      {n : ℕ} {c : MapContext}
      → c.found ≡ true
      → c.direction ≡ Direction.left
      → n ≡ 2
      → Turns TurnState.straight n c TurnState.left_turn
  unprotected_left_begins :
      {n : ℕ} {c : MapContext}
      → c.found ≡ true
      → c.direction ≡ Direction.unprotected_left
      → n ≡ 2
      → Turns TurnState.straight n c TurnState.unprotected_left

-- The part of what `app_init` of core/main.c sets that the callback changes.
abbrev pub fresh_context : ℕ → RxContext
fresh_context vehicle_id = record {
  self = self_vehicle_manager_init vehicle_id;
  self_publish_queue = vehicle_publish_queue_init;
  candidate_vehicle_tx_enabled = false;
}

decide_on :
    (s : TurnState) (ego : EgoVehicle) (context : MapContext)
    → s ≢ TurnState.straight
    → decide_turn_state s ego context ≡ (if ego.turn_signal == 0 then TurnState.straight else s)
unfolding decide_turn_state
decide_on TurnState.straight ego context h = absurd (h refl)
decide_on TurnState.right_turn ego context h = refl
decide_on TurnState.left_turn ego context h = refl
decide_on TurnState.unprotected_left ego context h = refl

module _ {D : Doubles} (map : MapService D) where
  -- The frames, one after the other, with what each call reads.
  abbrev pub rx_run : RxContext → List (Readings × EgoVehicle) → RxContext
  rx_run context [] = context
  rx_run context ((readings, ego) ∷ frames) = rx_run (on_ego_frame map readings context ego) frames

  abbrev pub InStep : RxContext → Type 0
  InStep c = c.candidate_vehicle_tx_enabled ≡ is_candidate_mode c.self.turn_state

  pub frame-InStep :
      (readings : Readings) (c : RxContext) (ego : EgoVehicle)
      → InStep c
      → InStep (on_ego_frame map readings c ego)
  unfolding on_ego_frame self_vehicle_manager_update_from_can
  frame-InStep readings c ego h =
      let next =
        decide_turn_state c.self.turn_state ego
          (written_or readings.garbage (map_service_query_vehicle_context map ego.x ego.y)) in
      elim (Bool-cases (is_candidate_mode c.self.turn_state)) [
        | inl e ↦ elim (Bool-cases (is_candidate_mode next)) [
          | inl f ↦ simp (e, f) (h ∙ e)
          | inr f ↦ simp (e, f) refl
        ]
        | inr e ↦ elim (Bool-cases (is_candidate_mode next)) [
          | inl f ↦ simp (e, f) refl
          | inr f ↦ simp (e, f) (h ∙ e)
        ]
      ]

  run-InStep :
      (frames : List (Readings × EgoVehicle)) (c : RxContext) → InStep c → InStep (rx_run c frames)
  run-InStep [] c h = h
  run-InStep ((readings, ego) ∷ frames) c h = run-InStep frames _ (frame-InStep readings c ego h)

  -- After any frames from the start on, the candidate flag is set exactly in the turn states
  -- "right turn" and "unprotected left".
  pub rx_run_flag :
      (vehicle_id : ℕ) (frames : List (Readings × EgoVehicle))
      → let c = rx_run (fresh_context vehicle_id) frames in
        c.candidate_vehicle_tx_enabled ≡ is_candidate_mode c.self.turn_state
  unfolding self_vehicle_manager_init
  rx_run_flag vehicle_id frames = run-InStep frames (fresh_context vehicle_id) refl

  abbrev IsOn : Readings × EgoVehicle → Type 0
  IsOn frame = frame.1.turn_signal ≢ 0

  frame_turn :
      (readings : Readings) (c : RxContext) (ego : EgoVehicle)
      → (on_ego_frame map readings c ego).self.turn_state
        ≡ decide_turn_state c.self.turn_state ego
            (written_or readings.garbage (map_service_query_vehicle_context map ego.x ego.y))
  unfolding on_ego_frame self_vehicle_manager_update_from_can
  frame_turn readings c ego = refl

  run_lasts :
      (frames : List (Readings × EgoVehicle)) (c : RxContext)
      → c.self.turn_state ≢ TurnState.straight
      → All IsOn frames
      → (rx_run c frames).self.turn_state ≡ c.self.turn_state
  run_lasts [] c h on = refl
  run_lasts ((readings, ego) ∷ frames) c h on =
      let c' = on_ego_frame map readings c ego in
      let off : (ego.turn_signal == 0) ≡ false = ground (arith, on.0) in
      let same : c'.self.turn_state ≡ c.self.turn_state =
        frame_turn readings c ego ∙ decide_on c.self.turn_state ego _ h ∙ simp off refl in
      run_lasts frames c' (λ e. h (sym same ∙ e)) on.1 ∙ same

  -- Once begun, a turn lasts through any frames with the signal on, wherever the vehicle is, and a frame
  -- with the signal off after them ends it.
  pub rx_run_lasts :
      (c : RxContext) (frames : List (Readings × EgoVehicle)) (readings : Readings)
      (ego : EgoVehicle)
      → c.self.turn_state ≢ TurnState.straight
      → All (λ (f : Readings × EgoVehicle). f.1.turn_signal ≢ 0) frames
      → ego.turn_signal ≡ 0
      → ((rx_run c frames).self.turn_state ≡ c.self.turn_state)
        × ((on_ego_frame map readings (rx_run c frames) ego).self.turn_state ≡ TurnState.straight)
  rx_run_lasts c frames readings ego h on off =
      let lasts' = run_lasts frames c h on in
      let c' = rx_run c frames in
      (
        lasts',
        frame_turn readings c' ego
            ∙ decide_on c'.self.turn_state ego _ (λ e. h (sym lasts' ∙ e))
            ∙ ground (arith, off),
      )

begin_sound :
    (n : ℕ) (c : MapContext) (d : Direction)
    → c.found ≡ true
    → c.direction ≡ d
    → let t = turn_of_direction (n == 1) (n == 2) d in
      (t ≡ TurnState.straight) ⊎ Turns TurnState.straight n c t
begin_sound n c Direction.right f d = elim (ℕ_discrete n 1) [
  | yes e ↦ let b : (n == 1) ≡ true = ground (arith, e) in simp b (inr (Turns.right_begins f d e))
  | no e ↦ let b : (n == 1) ≡ false = ground (arith, e) in simp b (inl refl)
]
begin_sound n c Direction.left f d = elim (ℕ_discrete n 2) [
  | yes e ↦ let b : (n == 2) ≡ true = ground (arith, e) in simp b (inr (Turns.left_begins f d e))
  | no e ↦ let b : (n == 2) ≡ false = ground (arith, e) in simp b (inl refl)
]
begin_sound n c Direction.unprotected_left f d = elim (ℕ_discrete n 2) [
  | yes e ↦
      let b : (n == 2) ≡ true = ground (arith, e) in
      simp b (inr (Turns.unprotected_left_begins f d e))
  | no e ↦ let b : (n == 2) ≡ false = ground (arith, e) in simp b (inl refl)
]
begin_sound n c Direction.straight f d = inl refl
begin_sound n c Direction.unknown f d = inl refl

end_sound :
    (s : TurnState) (n : ℕ) (c : MapContext)
    → s ≢ TurnState.straight
    → let t = if n == 0 then TurnState.straight else s in (t ≡ s) ⊎ Turns s n c t
end_sound s n c h = elim (ℕ_discrete n 0) [
  | yes e ↦ let b : (n == 0) ≡ true = ground (arith, e) in simp b (inr (Turns.ends h e))
  | no e ↦ let b : (n == 0) ≡ false = ground (arith, e) in simp b (inl refl)
]

decide_sound :
    (s : TurnState) (ego : EgoVehicle) (c : MapContext)
    → let t = decide_turn_state s ego c in (t ≡ s) ⊎ Turns s ego.turn_signal c t
unfolding decide_turn_state
decide_sound TurnState.straight ego c = elim (Bool-cases c.found) [
  | inr e ↦ inl (simp e refl)
  | inl e ↦ simp e (begin_sound ego.turn_signal c c.direction e refl)
]
decide_sound TurnState.right_turn ego c = end_sound TurnState.right_turn ego.turn_signal c (λ e. cc)
decide_sound TurnState.left_turn ego c = end_sound TurnState.left_turn ego.turn_signal c (λ e. cc)
decide_sound TurnState.unprotected_left ego c =
    end_sound TurnState.unprotected_left ego.turn_signal c (λ e. cc)

decide_complete :
    {s t : TurnState} {n : ℕ} {c : MapContext} (ego : EgoVehicle)
    → Turns s n c t
    → ego.turn_signal ≡ n
    → decide_turn_state s ego c ≡ t
unfolding decide_turn_state
decide_complete ego (Turns.ends {s} {n} {c} h z) e = decide_on s ego c h ∙ ground (arith, e, z)
decide_complete ego (Turns.right_begins f d z) e = simp (f, d, e, z) refl
decide_complete ego (Turns.left_begins f d z) e = simp (f, d, e, z) refl
decide_complete ego (Turns.unprotected_left_begins f d z) e = simp (f, d, e, z) refl

-- The turn state follows the state machine: what is decided is the current state or the target of a
-- step, and every step that the signal and the map allow is taken.
pub decide_turn_state_steps :
    (s t : TurnState) (ego : EgoVehicle) (c : MapContext)
    → ((decide_turn_state s ego c ≡ s) ⊎ Turns s ego.turn_signal c (decide_turn_state s ego c))
      × (Turns s ego.turn_signal c t → decide_turn_state s ego c ≡ t)
decide_turn_state_steps s t ego c = (decide_sound s ego c, λ h. decide_complete ego h refl)
