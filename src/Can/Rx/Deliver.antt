-- ===== src/Can/Rx/Deliver.antt =====
-- What the receive loop of handler/can_handler.c makes of complete frames.
use green_right_topst_linux.Base.{
  ℕ, zero, suc, ◌-◌, ◌≤◌, ◌<◌, ◌≡◌, refl, sym, ap, ◌∙◌, List, [], ◌∷◌, ◌++◌, map, Option, some,
  Bool, true, false, ◌||◌, arith, length, take, drop, get_or, All, length-append, drop-append,
  append_assoc, append-nil, take-drop-append,
}
use green_right_topst_linux.Types.{EgoVehicle}
use green_right_topst_linux.Ipc.Frame.{IsFrame, ipc_frame_parse-IsFrame}
use green_right_topst_linux.Ipc.Extend.{IsFrame-append}
use green_right_topst_linux.Can.{decode_can_payload}
use green_right_topst_linux.Can.Rx.{
  CanHandler, next, emit_ego_with_diagnostics, find_ipc_header, handle_frame, after_parse,
  at_header, rx_round, after_round, rx_loop, process_ipc_rx_buffer,
}
use green_right_topst_linux.Can.Rx.Header.{consume_lem}
use green_right_topst_linux.Can.Rx.Resume.{rx_round_at}
use green_right_topst_linux.Can.Rx.Chunks.{rx_loop_step, rx_loop_empty}

-- The bytes of one received frame, and the ego state that they carry.
abbrev pub Message : Type 0
Message = List ℕ × EgoVehicle

pub record IsMessage (m : Message) : Type 0 where
  pub whole : IsFrame m.0 (length m.0)
  pub small : length m.0 ≤ 0x400
  pub carries :
      decode_can_payload (take (length m.0 - 11) (drop 9 m.0)) (length m.0 - 11) ≡ some m.1

abbrev pub stream : List Message → List ℕ
stream [] = []
stream (m ∷ ms) = m.0 ++ stream ms

-- The handler after the callback has had the ego state, with the bytes that then remain.
abbrev delivered : (ℕ → ℕ) → CanHandler → EgoVehicle → List ℕ → CanHandler
delivered clock h ego rest = record (emit_ego_with_diagnostics (clock h.ego_rx_count) h ego) {
  rx_buffer = rest;
}

find_header :
    (xs : List ℕ)
    → get_or xs 0 0 ≡ 0xff
    → get_or xs 1 0 ≡ 0x55
    → get_or xs 2 0 ≡ 0xaa
    → find_ipc_header xs ≡ 0
unfolding find_ipc_header
find_header [] a b c = refl
find_header (x ∷ []) a b c = absurd (omega arith)
find_header (x ∷ y ∷ []) a b c = absurd (omega arith)
find_header (x ∷ y ∷ z ∷ xs) a b c = ground arith

handle_frame_lem :
    (clock : ℕ → ℕ) (h : CanHandler) (n : ℕ) (bytes : List ℕ) (k : ℕ) (ego : EgoVehicle)
    → decode_can_payload bytes k ≡ some ego
    → handle_frame clock h n (record { can_id = 0; bytes = bytes; data_len = k })
      ≡ next true (delivered clock h ego (drop n h.rx_buffer))
unfolding handle_frame
handle_frame_lem clock h n bytes k ego e =
    rw (e, handle_frame)
      (ap (next true) (consume_lem (emit_ego_with_diagnostics (clock h.ego_rx_count) h ego) n)
        ∙ unfold emit_ego_with_diagnostics in refl)

at_header-IsFrame :
    (clock : ℕ → ℕ) (h : CanHandler) (n : ℕ) (ego : EgoVehicle)
    → IsFrame h.rx_buffer n
    → n ≤ length h.rx_buffer
    → n ≤ 0x400
    → decode_can_payload (take (n - 11) (drop 9 h.rx_buffer)) (n - 11) ≡ some ego
    → at_header clock h ≡ next true (delivered clock h ego (drop n h.rx_buffer))
unfolding at_header after_parse
at_header-IsFrame clock h n ego v p q e = ground (
  arith,
  ipc_frame_parse-IsFrame h.rx_buffer n v,
  handle_frame_lem clock h n (take (n - 11) (drop 9 h.rx_buffer)) (n - 11) ego e,
)

rx_round-IsMessage :
    (clock : ℕ → ℕ) (h : CanHandler) (m : Message) (rest : List ℕ)
    → IsMessage m
    → h.rx_buffer ≡ m.0 ++ rest
    → rx_round clock h ≡ next true (delivered clock h m.1 rest)
rx_round-IsMessage clock h m rest v e =
    rx_round_at clock h 0 (find_header h.rx_buffer w.sync w.start1 w.start2) (omega (arith, long))
    ∙ at_header-IsFrame clock h n m.1 w long v.small carried
    ∙ ap (λ b. next true (delivered clock h m.1 b)) (rw e (drop-append m.0 rest n refl))
  where
    n : ℕ
    n = length m.0

    long : n ≤ length h.rx_buffer
    long = rw e (omega (arith, length-append m.0 rest))

    w : IsFrame h.rx_buffer n
    w = rw e (IsFrame-append m.0 rest n (omega arith) v.whole)

    carried : decode_can_payload (take (n - 11) (drop 9 h.rx_buffer)) (n - 11) ≡ some m.1
    carried = rw e (rw (take-drop-append m.0 rest (n - 11) 9 (omega arith)) v.carries)

abbrev any_message : List Message → Bool
any_message [] = false
any_message (m ∷ ms) = true

-- What a run over a stream of messages ends with: an empty buffer, and one call for each message.
abbrev Delivers : List EgoVehicle → List Message → Bool → Option (Bool × CanHandler) → Type 0
Delivers calls ms p r =
    (q : Bool) × (h' : CanHandler) × (r ≡ some (q, h'))
    × (h'.rx_buffer ≡ [])
    × (h'.ego_calls ≡ calls ++ map (λ (m : Message). m.1) ms)
    × (q ≡ (p || any_message ms))

ego_calls-emit :
    (now : ℕ) (h : CanHandler) (ego : EgoVehicle)
    → (emit_ego_with_diagnostics now h ego).ego_calls ≡ h.ego_calls ++ ego ∷ []
unfolding emit_ego_with_diagnostics
ego_calls-emit now h ego = refl

rx_loop-Delivers :
    (clock : ℕ → ℕ) (f : ℕ) (p : Bool) (h : CanHandler) (ms : List Message)
    → All IsMessage ms
    → h.rx_buffer ≡ stream ms
    → length (stream ms) < f
    → Delivers h.ego_calls ms p (rx_loop clock f p h)
rx_loop-Delivers clock zero p h ms v e k = absurd (omega arith)
rx_loop-Delivers clock (suc f) p h [] v e k =
    (p, h, rx_loop_empty clock f p h (ap length e), e, sym (append-nil h.ego_calls), ground arith)
rx_loop-Delivers clock (suc f) p h (m ∷ ms) v e k =
    let long = length-append m.0 (stream ms) in
    let busy : 0 < length h.rx_buffer = omega (arith, ap length e) in
    let (q, h', ran, left, calls, flag) =
      rx_loop-Delivers clock f (p || true) (delivered clock h m.1 (stream ms)) ms v.1 refl
        (omega arith) in
    (
      q,
      h',
      rx_loop_step clock f p h busy
          ∙ ap (after_round (rx_loop clock f) p) (rx_round-IsMessage clock h m (stream ms) v.0 e)
          ∙ ran,
      left,
      calls ∙ rw (ego_calls-emit (clock h.ego_rx_count) h m.1) (append_assoc h.ego_calls _ _),
      ground (arith, flag),
    )

-- A buffer that holds complete ego messages, each of at most 1024 bytes, one after the other, is used
-- up, and the callback gets their ego states in that order; the poll reports it if there is one.
pub process_ipc_rx_buffer-stream :
    (clock : ℕ → ℕ) (h : CanHandler) (m : Message) (ms : List Message)
    → All IsMessage (m ∷ ms)
    → h.rx_buffer ≡ stream (m ∷ ms)
    → (h' : CanHandler) × (process_ipc_rx_buffer clock h ≡ some (true, h'))
      × (h'.rx_buffer ≡ [])
      × (h'.ego_calls ≡ h.ego_calls ++ map (λ (m : Message). m.1) (m ∷ ms))
unfolding process_ipc_rx_buffer
process_ipc_rx_buffer-stream clock h m ms v e =
    let (q, h', ran, left, calls, flag) =
      rx_loop-Delivers clock (suc (length h.rx_buffer)) false h (m ∷ ms) v e
        (omega (arith, ap length e)) in
    (h', rw flag at ran, left, calls)
