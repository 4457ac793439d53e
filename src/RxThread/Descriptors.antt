-- ===== src/RxThread/Descriptors.antt =====
-- The file descriptors that the receive thread holds.
use green_right_topst_linux.Base.{
  ℕ, ◌≡◌, refl, sym, ap, ◌∙◌, subst, List, [], ◌∷◌, ◌++◌, Bool, true, false, ◌&&◌, Option, none,
  some, ◌==◌, if◌then◌else◌, Bool-cases, inl, inr, Str, arith,
}
use green_right_topst_linux.Doubles.{Doubles}
use green_right_topst_linux.Map.Service.{MapService}
use green_right_topst_linux.Can.Rx.{CanHandler, can_handler_poll}
use green_right_topst_linux.Can.Rx.Keeps.{SameDevice, can_handler_poll-SameDevice}
use green_right_topst_linux.Can.Device.{
  DeviceCall, device_open, device_close, close_calls, can_handler_init, can_handler_cleanup,
  open_ipc_device,
}
use green_right_topst_linux.RxThread.{
  RxThread, World, RxEvent, rx_step, rx_stop, polled, rx_turn, rx_event, rx_thread_run,
}

abbrev pub without : ℕ → List ℕ → List ℕ
without fd [] = []
without fd (x ∷ xs) = if x == fd then xs else x ∷ without fd xs

-- The open descriptors after some calls of `open` and `close`.
abbrev pub descriptors : List ℕ → List DeviceCall → List ℕ
descriptors fds [] = fds
descriptors fds (device_open path none ∷ calls) = descriptors fds calls
descriptors fds (device_open path (some fd) ∷ calls) = descriptors (fd ∷ fds) calls
descriptors fds (device_close fd ∷ calls) = descriptors (without fd fds) calls

descriptors-++ :
    (fds : List ℕ) (a b : List DeviceCall)
    → descriptors fds (a ++ b) ≡ descriptors (descriptors fds a) b
descriptors-++ fds [] b = refl
descriptors-++ fds (device_open path none ∷ a) b = descriptors-++ fds a b
descriptors-++ fds (device_open path (some fd) ∷ a) b = descriptors-++ (fd ∷ fds) a b
descriptors-++ fds (device_close fd ∷ a) b = descriptors-++ (without fd fds) a b

abbrev pub of_fd : Option ℕ → List ℕ
of_fd none = []
of_fd (some fd) = fd ∷ []

-- The handler as the thread's place needs it: outside the inner loop it has no device.
abbrev pub Placed : Bool → CanHandler → Type 0
Placed true can = can.initialized ≡ true
Placed false can = (can.initialized ≡ false) × (can.fd ≡ none)

pub record IsPlaced (t : RxThread) : Type 0 where
  pub placed : Placed t.polling t.can

closed_lem : (fd : Option ℕ) → descriptors (of_fd fd) (close_calls fd) ≡ []
closed_lem none = refl
closed_lem (some fd) = ground arith

init_lem :
    (path : Option Str) (rx tx : Bool) (answer : Option ℕ)
    → (let (can, calls, ok) = can_handler_init path rx tx answer in
        Placed ok can × (descriptors [] calls ≡ of_fd can.fd))
unfolding can_handler_init open_ipc_device
init_lem path true true answer = (refl, refl)
init_lem path true false none = ((refl, refl), refl)
init_lem path true false (some fd) = (refl, refl)
init_lem path false tx none = ((refl, refl), refl)
init_lem path false tx (some fd) = (refl, refl)

module _ {D : Doubles} (map : MapService D) where
  -- What a step keeps: the place fits, and the calls lead from the old descriptors to the new.
  record Steps (t : RxThread) (r : RxThread × List DeviceCall) : Type 0 where
    placed_after : IsPlaced r.0
    balanced : descriptors (of_fd t.can.fd) r.1 ≡ of_fd r.0.can.fd

  Steps-if :
      (b : Bool) (t : RxThread) (x y : RxThread × List DeviceCall)
      → Steps t x
      → Steps t y
      → Steps t (if b then x else y)
  Steps-if true t x y p q = p
  Steps-if false t x y p q = q

  polled_lem :
      (t : RxThread) (world : World)
      → IsPlaced t
      → Steps t (polled map t world (can_handler_poll world.clock t.can world.input), [])
  polled_lem t world w = go (can_handler_poll world.clock t.can world.input) refl
    where
      same_place :
          (p : Bool) (can : CanHandler) → SameDevice t.can can → Placed p t.can → Placed p can
      same_place true can s q = s.same_initialized ∙ q
      same_place false can s q = (s.same_initialized ∙ q.0, s.same_fd ∙ q.1)

      go :
          (r : Option (Bool × CanHandler))
          → can_handler_poll world.clock t.can world.input ≡ r
          → Steps t (polled map t world r, [])
      go none e = record { placed_after = w; balanced = refl }
      go (some (b, can)) e =
          let s = can_handler_poll-SameDevice world.clock t.can can world.input b e in
          record {
            placed_after = record { placed = same_place t.polling can s w.placed };
            balanced = ap of_fd (sym s.same_fd);
          }

  open_lem :
      (t : RxThread) (world : World)
      → Placed false t.can
      → (let (can, calls, ok) =
            can_handler_init t.can_dev_path t.can_rx_mock t.can_tx_mock world.answer in
          Steps t (record t { can = can; polling = ok }, calls))
  open_lem t world q =
      let opened = init_lem t.can_dev_path t.can_rx_mock t.can_tx_mock world.answer in
      record {
        placed_after = record { placed = opened.0 };
        balanced =
            ap
              (λ (fd : Option ℕ).
                descriptors (of_fd fd)
                  (can_handler_init t.can_dev_path t.can_rx_mock t.can_tx_mock world.answer).1)
              q.1
            ∙ opened.1;
      }

  close_lem :
      (t : RxThread)
      → Placed true t.can
      → (let (can, calls) = can_handler_cleanup t.can in
          Steps t (record t { can = can; polling = false }, calls))
  unfolding can_handler_cleanup
  close_lem t q =
      simp q
        (record { placed_after = record { placed = (refl, refl) }; balanced = closed_lem t.can.fd })

  turn_lem : (t : RxThread) (world : World) → IsPlaced t → Steps t (rx_turn map t world)
  unfolding rx_turn
  turn_lem t world w = elim (Bool-cases t.polling) [
    | inl e ↦ simp e (
        Steps-if (t.running && t.can.initialized) t _ _ (polled_lem t world w)
          (close_lem t (subst (λ (p : Bool). Placed p t.can) e w.placed)))
    | inr e ↦ simp e (
        Steps-if t.running t _ _
          (open_lem t world (subst (λ (p : Bool). Placed p t.can) e w.placed))
          (record { placed_after = w; balanced = refl }))
  ]

  event_lem : (t : RxThread) (e : RxEvent) → IsPlaced t → Steps t (rx_event map t e)
  unfolding rx_event
  event_lem t (rx_step world) w = turn_lem t world w
  event_lem t rx_stop w = record { placed_after = record { placed = w.placed }; balanced = refl }

  -- From a state on in which the thread, outside its inner loop, has a handler that is neither
  -- initialised nor open: whatever `open` answers, whatever arrives, and whenever the program
  -- stops, the descriptors that are open after all calls of `open` and `close` are exactly the
  -- handler's, so that none is lost; and outside its inner loop the thread holds none.
  pub descriptors-rx_thread_run :
      (t : RxThread) (es : List RxEvent)
      → IsPlaced t
      → (descriptors (of_fd t.can.fd) (rx_thread_run map t es).1
          ≡ of_fd (rx_thread_run map t es).0.can.fd)
        × IsPlaced (rx_thread_run map t es).0
  unfolding rx_thread_run
  descriptors-rx_thread_run t [] w = (refl, w)
  descriptors-rx_thread_run t (e ∷ es) w =
      let one = event_lem t e w in
      let (t', calls) = rx_event map t e in
      let more = descriptors-rx_thread_run t' es one.placed_after in
      (
        descriptors-++ (of_fd t.can.fd) calls (rx_thread_run map t' es).1
            ∙ ap (λ (fds : List ℕ). descriptors fds (rx_thread_run map t' es).1) one.balanced
            ∙ more.0,
        more.1,
      )
