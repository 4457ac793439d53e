-- ===== src/RxThread.antt =====
-- core/can_rx_thread.c: the receive thread, which opens the device, polls it, and lets every frame that
-- arrives reach `on_ego_frame`. Sleeping is left out.
pub mod Descriptors
pub mod Arrival
use green_right_topst_linux.Base.{
  ℕ, ◌+◌, List, [], ◌∷◌, ◌++◌, Bool, true, false, ◌&&◌, Option, none, some, if◌then◌else◌, length,
  drop, Str,
}
use green_right_topst_linux.Types.{EgoVehicle}
use green_right_topst_linux.Doubles.{Doubles}
use green_right_topst_linux.Map.Service.{MapService}
use green_right_topst_linux.EgoFrame.{RxContext, Readings, on_ego_frame}
use green_right_topst_linux.Can.Rx.{CanHandler, Input, can_handler_poll}
use green_right_topst_linux.Can.Device.{DeviceCall, can_handler_init, can_handler_cleanup}

-- The part of `AppContext` that the thread uses; `polling` is whether it is in its inner loop.
pub record RxThread : Type 0 where
  pub running : Bool
  pub can_dev_path : Option Str
  pub can_rx_mock : Bool
  pub can_tx_mock : Bool
  pub can : CanHandler
  pub context : RxContext
  pub polling : Bool

-- What a step of the thread reads: the answer of `open`, the clock at each frame, what the device gives,
-- and what each call of the callback reads.
pub record World : Type 0 where
  pub answer : Option ℕ
  pub clock : ℕ → ℕ
  pub input : Input
  pub readings : ℕ → Readings

-- The steps of the thread, and when `running` becomes false.
pub data RxEvent : Type 0 where
  rx_step : World → RxEvent
  rx_stop : RxEvent

module _ {D : Doubles} (map : MapService D) where
  -- The calls of the callback, in order.
  unfoldable pub call_all : (ℕ → Readings) → ℕ → RxContext → List EgoVehicle → RxContext
  call_all readings n context [] = context
  call_all readings n context (ego ∷ egos) =
      call_all readings (n + 1) (on_ego_frame map (readings n) context ego) egos

  -- After a poll. The receive loop always gives a result.
  abbrev pub polled : RxThread → World → Option (Bool × CanHandler) → RxThread
  polled t world none = t
  polled t world (some (processed, can)) = record t {
    can = can;
    context = call_all world.readings 0 t.context (drop (length t.can.ego_calls) can.ego_calls);
  }

  -- The next step of the thread.
  unfoldable pub rx_turn : RxThread → World → RxThread × List DeviceCall
  rx_turn t world =
      if t.polling
      then if t.running && t.can.initialized
        then (polled t world (can_handler_poll world.clock t.can world.input), [])
        else (let (can, calls) = can_handler_cleanup t.can in
            (record t { can = can; polling = false }, calls))
      else if t.running
      then (let (can, calls, ok) =
            can_handler_init t.can_dev_path t.can_rx_mock t.can_tx_mock world.answer in
          (record t { can = can; polling = ok }, calls))
      else (t, [])

  unfoldable pub rx_event : RxThread → RxEvent → RxThread × List DeviceCall
  rx_event t (rx_step world) = rx_turn t world
  rx_event t rx_stop = (record t { running = false }, [])

  unfoldable pub rx_thread_run : RxThread → List RxEvent → RxThread × List DeviceCall
  rx_thread_run t [] = (t, [])
  rx_thread_run t (e ∷ es) =
      let (t', calls) = rx_event t e in
      let (t'', more) = rx_thread_run t' es in (t'', calls ++ more)
