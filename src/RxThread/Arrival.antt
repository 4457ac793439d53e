-- ===== src/RxThread/Arrival.antt =====
-- From the bytes of the device to the state of the ego vehicle.
use green_right_topst_linux.Base.{
  ℕ, ◌+◌, ◌<◌, ◌≤◌, ◌≡◌, refl, sym, ap, subst, ◌∙◌, List, [], ◌∷◌, ◌++◌, Bool, true, false, ◌&&◌,
  Option, some, length, drop, map, All, arith,
}
use green_right_topst_linux.Types.{EgoVehicle}
use green_right_topst_linux.Doubles.{Doubles}
use green_right_topst_linux.Map.Service.{MapService}
use green_right_topst_linux.Can.Rx.{CanHandler, received, can_handler_poll}
use green_right_topst_linux.Can.Rx.Stop.{can_handler_poll_keeps}
use green_right_topst_linux.Can.Rx.Deliver.{
  Message, IsMessage, stream, process_ipc_rx_buffer-stream,
}
use green_right_topst_linux.EgoFrame.{RxContext, Readings, on_ego_frame}
use green_right_topst_linux.EgoFrame.Mode.{rx_run}
use green_right_topst_linux.RxThread.{RxThread, World, call_all, polled, rx_turn}

drop-++ : {A : Type 0} (xs ys : List A) → drop (length xs) (xs ++ ys) ≡ ys
drop-++ [] ys = refl
drop-++ (x ∷ xs) ys = drop-++ xs ys

-- Each ego state with what its call reads.
abbrev pub numbered : (ℕ → Readings) → ℕ → List EgoVehicle → List (Readings × EgoVehicle)
numbered readings n [] = []
numbered readings n (ego ∷ egos) = (readings n, ego) ∷ numbered readings (n + 1) egos

call_all-rx_run :
    {D : Doubles} (service : MapService D) (readings : ℕ → Readings) (n : ℕ) (context : RxContext)
    (egos : List EgoVehicle)
    → call_all service readings n context egos ≡ rx_run service context (numbered readings n egos)
unfolding call_all
call_all-rx_run service readings n context [] = refl
call_all-rx_run service readings n context (ego ∷ egos) =
    call_all-rx_run service readings (n + 1) (on_ego_frame service (readings n) context ego) egos

turn_polls :
    {D : Doubles} (service : MapService D) (t : RxThread) (world : World)
    (r : Option (Bool × CanHandler))
    → t.polling ≡ true
    → t.running ≡ true
    → t.can.initialized ≡ true
    → can_handler_poll world.clock t.can world.input ≡ r
    → (rx_turn service t world).0 ≡ polled service t world r
unfolding rx_turn
turn_polls service t world r polling running initialized poll =
    let on : (t.running && t.can.initialized) ≡ true = ground arith in
    let result = ap (λ (x : Option (Bool × CanHandler)). polled service t world x) poll in
    simp (polling, on) result

-- The thread runs and polls an initialised device that is not a mock, with less than 1024 bytes in
-- the buffer. When these and the 1 to 1024 bytes that the device gives make up complete messages,
-- one step uses them all up, and `on_ego_frame` has been called for their ego states, once each
-- and in order.
pub rx_turn-stream :
    {D : Doubles} (service : MapService D) (t : RxThread) (world : World) (bytes : List ℕ)
    (m : Message) (ms : List Message)
    → t.polling ≡ true
    → t.running ≡ true
    → t.can.initialized ≡ true
    → t.can.rx_mock_mode ≡ false
    → length t.can.rx_buffer < 0x400
    → 0 < length bytes
    → length bytes ≤ 0x400
    → t.can.rx_buffer ++ bytes ≡ stream (m ∷ ms)
    → All IsMessage (m ∷ ms)
    → (let t' = (rx_turn service t (record world { input = received bytes })).0 in
        (t'.can.rx_buffer ≡ [])
        × (t'.context
            ≡ rx_run service t.context
                (numbered world.readings 0 (map (λ (k : Message). k.1) (m ∷ ms)))))
rx_turn-stream service t world bytes m ms polling running initialized mock room some_bytes few whole
      v =
    let filled = record t.can { rx_buffer = t.can.rx_buffer ++ bytes } in
    let egos = map (λ (k : Message). k.1) (m ∷ ms) in
    let kept =
      can_handler_poll_keeps world.clock t.can bytes initialized mock room some_bytes few in
    let (can, ran, empty, calls) = process_ipc_rx_buffer-stream world.clock filled m ms v whole in
    let poll : can_handler_poll world.clock t.can (received bytes) ≡ some (true, can) =
      kept.0 ∙ ran in
    let new : drop (length t.can.ego_calls) can.ego_calls ≡ egos =
      ap (λ (cs : List EgoVehicle). drop (length t.can.ego_calls) cs) calls
      ∙ drop-++ t.can.ego_calls egos in
    let turned =
      turn_polls service t (record world { input = received bytes }) (some (true, can)) polling
        running initialized poll in
    subst
      (λ (t' : RxThread).
        (t'.can.rx_buffer ≡ [])
        × (t'.context ≡ rx_run service t.context (numbered world.readings 0 egos)))
      (sym turned)
      (
        empty,
        ap (λ (cs : List EgoVehicle). call_all service world.readings 0 t.context cs) new
            ∙ call_all-rx_run service world.readings 0 t.context egos,
      )
