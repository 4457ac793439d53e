-- ===== src/Can/Rx/Keeps.antt =====
-- Receiving leaves the device and the modes of the handler as they are.
use green_right_topst_linux.Base.{
  ℕ, zero, suc, ◌+◌, ◌-◌, ◌≡◌, refl, subst, ◌∙◌, List, [], ◌++◌, Option, some, Bool, true, false,
  ◌||◌, ltb, leb, ◌==◌, if◌then◌else◌, length, get_or, Bool-cases, Option-cases, inl, inr,
}
use green_right_topst_linux.Ipc.{
  IpcFrame, IpcParseResult, big_endian16, ipc_frame_parse, ipc_max_packet_size,
}
use green_right_topst_linux.Can.{decode_can_payload}
use green_right_topst_linux.Can.Rx.{
  CanHandler, Round, stop, next, Input, received, select_failed, timed_out, read_failed,
  emit_ego_with_diagnostics, consume_rx_bytes, find_ipc_header, handle_frame, after_parse,
  at_header, rx_round, after_round, rx_loop, process_ipc_rx_buffer, poll_mock, receive,
  can_handler_poll,
}

-- The second handler has the device and the modes of the first.
pub record SameDevice (h h' : CanHandler) : Type 0 where
  pub same_fd : h'.fd ≡ h.fd
  pub same_initialized : h'.initialized ≡ h.initialized
  pub same_rx : h'.rx_mock_mode ≡ h.rx_mock_mode
  pub same_tx : h'.tx_mock_mode ≡ h.tx_mock_mode

same_trans : (a b c : CanHandler) → SameDevice a b → SameDevice b c → SameDevice a c
same_trans a b c p q = record {
  same_fd = q.same_fd ∙ p.same_fd;
  same_initialized = q.same_initialized ∙ p.same_initialized;
  same_rx = q.same_rx ∙ p.same_rx;
  same_tx = q.same_tx ∙ p.same_tx;
}

same_refl : (a : CanHandler) → SameDevice a a
same_refl a = record { same_fd = refl; same_initialized = refl; same_rx = refl; same_tx = refl }

if_same :
    (b : Bool) (h x y : CanHandler)
    → SameDevice h x
    → SameDevice h y
    → SameDevice h (if b then x else y)
if_same true h x y p q = p
if_same false h x y p q = q

consume_same : (h : CanHandler) (n : ℕ) → SameDevice h (consume_rx_bytes h n)
unfolding consume_rx_bytes
consume_same h n =
    if_same (leb (length h.rx_buffer) n) h _ _
      (record { same_fd = refl; same_initialized = refl; same_rx = refl; same_tx = refl })
      (record { same_fd = refl; same_initialized = refl; same_rx = refl; same_tx = refl })

-- A round leaves the device and the modes as they are.
abbrev of_round : Round → CanHandler
of_round (stop h) = h
of_round (next done h) = h

record Kept (h : CanHandler) (r : Round) : Type 0 where
  same : SameDevice h (of_round r)

if-Kept :
    (b : Bool) (h : CanHandler) (x y : Round) → Kept h x → Kept h y → Kept h (if b then x else y)
if-Kept true h x y p q = p
if-Kept false h x y p q = q

handle-Kept :
    (clock : ℕ → ℕ) (h : CanHandler) (n : ℕ) (frame : IpcFrame)
    → Kept h (handle_frame clock h n frame)
unfolding handle_frame emit_ego_with_diagnostics
handle-Kept clock h n frame = elim (Option-cases (decode_can_payload frame.bytes frame.data_len)) [
  | inl e ↦ rw (e, handle_frame) (record { same = consume_same h n })
  | inr (ego, e) ↦
      let emitted = emit_ego_with_diagnostics (clock h.ego_rx_count) h ego in
      let same : SameDevice h emitted = record {
        same_fd = refl;
        same_initialized = refl;
        same_rx = refl;
        same_tx = refl;
      } in
      rw (e, handle_frame) (record { same = same_trans h emitted _ same (consume_same emitted n) })
]

after_parse-Kept :
    (clock : ℕ → ℕ) (h : CanHandler) (n : ℕ) (r : IpcParseResult × IpcFrame)
    → Kept h (after_parse clock h n r)
unfolding after_parse
after_parse-Kept clock h n (IpcParseResult.parse_ok, frame) = handle-Kept clock h n frame
after_parse-Kept clock h n (_, frame) = record { same = consume_same h 1 }

at_header-Kept : (clock : ℕ → ℕ) (h : CanHandler) → Kept h (at_header clock h)
unfolding at_header
at_header-Kept clock h =
    let buffered = length h.rx_buffer in
    let payload_length = big_endian16 (get_or h.rx_buffer 7 0) (get_or h.rx_buffer 8 0) in
    let frame_length = 9 + payload_length + 2 in
    let parsed = after_parse clock h frame_length (ipc_frame_parse h.rx_buffer frame_length) in
    let short : Kept h (stop h) = record { same = same_refl h } in
    let skipped : Kept h (next false (consume_rx_bytes h 1)) = record { same = consume_same h 1 } in
    let whole =
      if-Kept (ltb buffered frame_length) h (stop h) parsed short
        (after_parse-Kept clock h frame_length (ipc_frame_parse h.rx_buffer frame_length)) in
    if-Kept (ltb buffered 9) h (stop h)
      (if ltb payload_length 8 || ltb ipc_max_packet_size frame_length
        then next false (consume_rx_bytes h 1)
        else if ltb buffered frame_length
        then stop h
        else parsed)
      short
      (if-Kept (ltb payload_length 8 || ltb ipc_max_packet_size frame_length) h
        (next false (consume_rx_bytes h 1)) (if ltb buffered frame_length then stop h else parsed)
        skipped whole)

round-Kept : (clock : ℕ → ℕ) (h : CanHandler) → Kept h (rx_round clock h)
unfolding rx_round
round-Kept clock h =
    let n = find_ipc_header h.rx_buffer in
    let begun = if ltb 0 n then consume_rx_bytes h n else h in
    let same = if_same (ltb 0 n) h _ _ (consume_same h n) (same_refl h) in
    let headed = at_header-Kept clock begun in
    let kept =
      if ltb 2 (length h.rx_buffer) then consume_rx_bytes h (length h.rx_buffer - 2) else h in
    let stopped : Kept h (stop kept) = record {
      same =
          if_same (ltb 2 (length h.rx_buffer)) h _ _ (consume_same h (length h.rx_buffer - 2))
            (same_refl h);
    } in
    if-Kept (n == length h.rx_buffer) h (stop kept) (at_header clock begun) stopped
      (record { same = same_trans h begun _ same headed.same })

-- A result, if there is one, has the handler's device and modes.
record Yields (h : CanHandler) (r : Option (Bool × CanHandler)) : Type 0 where
  same_device : (b : Bool) (h' : CanHandler) → r ≡ some (b, h') → SameDevice h h'

Yields-some : (h g : CanHandler) (done : Bool) → SameDevice h g → Yields h (some (done, g))
Yields-some h g done s = record {
  same_device = λ b h' e. let same : g ≡ h' = cc in subst (SameDevice h) same s;
}

Yields-from :
    (h g : CanHandler) (r : Option (Bool × CanHandler)) → SameDevice h g → Yields g r → Yields h r
Yields-from h g r s y = record {
  same_device = λ b h' e. same_trans h g h' s (y.same_device b h' e);
}

Yields-if :
    (b : Bool) (h : CanHandler) (x y : Option (Bool × CanHandler))
    → Yields h x
    → Yields h y
    → Yields h (if b then x else y)
Yields-if true h x y p q = p
Yields-if false h x y p q = q

after-Yields :
    (go : Bool → CanHandler → Option (Bool × CanHandler)) (processed : Bool) (h : CanHandler)
    (r : Round)
    → ((done : Bool) (g : CanHandler) → Yields g (go done g))
    → Kept h r
    → Yields h (after_round go processed r)
after-Yields go processed h (stop g) y k = Yields-some h g processed k.same
after-Yields go processed h (next done g) y k = Yields-from h g _ k.same (y (processed || done) g)

loop-Yields :
    (clock : ℕ → ℕ) (fuel : ℕ) (processed : Bool) (h : CanHandler)
    → Yields h (rx_loop clock fuel processed h)
unfolding rx_loop
loop-Yields clock zero processed h = record { same_device = λ b h' e. cc }
loop-Yields clock (suc fuel) processed h = elim (Bool-cases (length h.rx_buffer == 0)) [
  | inl k ↦ rw (k, rx_loop) (Yields-some h h processed (same_refl h))
  | inr k ↦
      rw (k, rx_loop)
        (after-Yields (rx_loop clock fuel) processed h (rx_round clock h)
          (λ done g. loop-Yields clock fuel done g) (round-Kept clock h))
]

receive-Yields :
    (clock : ℕ → ℕ) (h : CanHandler) (bytes : List ℕ) → Yields h (receive clock h bytes)
unfolding receive process_ipc_rx_buffer
receive-Yields clock h bytes =
    let n = length bytes in
    let roomy = if ltb (4096 - length h.rx_buffer) n then record h { rx_buffer = [] } else h in
    let same : SameDevice h roomy =
      if_same (ltb (4096 - length h.rx_buffer) n) h _ _ (cut h []) (same_refl h) in
    let filled = record roomy { rx_buffer = roomy.rx_buffer ++ bytes } in
    Yields-if (n == 0) h _ _ (Yields-some h h false (same_refl h)) (
      Yields-if (ltb 4096 n) h _ _ (Yields-some h roomy false same) (
        Yields-from h filled _
          (same_trans h roomy filled same (cut roomy (roomy.rx_buffer ++ bytes)))
          (loop-Yields clock (suc (length filled.rx_buffer)) false filled)))
  where
    cut : (g : CanHandler) (buffer : List ℕ) → SameDevice g (record g { rx_buffer = buffer })
    cut g buffer = record {
      same_fd = refl;
      same_initialized = refl;
      same_rx = refl;
      same_tx = refl;
    }

input-Yields :
    (clock : ℕ → ℕ) (h : CanHandler) (input : Input)
    → Yields h (elim input [ received bytes ↦ receive clock h bytes | _ ↦ some (false, h) ])
input-Yields clock h (received bytes) = receive-Yields clock h bytes
input-Yields clock h select_failed = Yields-some h h false (same_refl h)
input-Yields clock h timed_out = Yields-some h h false (same_refl h)
input-Yields clock h read_failed = Yields-some h h false (same_refl h)

-- A poll leaves the device, whether the handler is initialised, and the modes as they are.
pub can_handler_poll-SameDevice :
    (clock : ℕ → ℕ) (h h' : CanHandler) (input : Input) (b : Bool)
    → can_handler_poll clock h input ≡ some (b, h')
    → SameDevice h h'
unfolding can_handler_poll poll_mock
can_handler_poll-SameDevice clock h h' input b e = all.same_device b h' e
  where
    mock : SameDevice h (poll_mock h).1
    mock = record { same_fd = refl; same_initialized = refl; same_rx = refl; same_tx = refl }

    all : Yields h (can_handler_poll clock h input)
    all =
        Yields-if h.initialized h _ _
          (Yields-if h.rx_mock_mode h _ _ (Yields-some h (poll_mock h).1 true mock)
            (input-Yields clock h input))
          (Yields-some h h false (same_refl h))
