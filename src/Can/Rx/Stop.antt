-- ===== src/Can/Rx/Stop.antt =====
-- The receive loop ends, and what it leaves in the buffer is always short.
use green_right_topst_linux.Base.{
  ℕ, zero, suc, ◌+◌, ◌-◌, ◌≤◌, ◌<◌, ◌≡◌, refl, List, [], ◌∷◌, ◌++◌, Option, some, Bool, true, false,
  ◌||◌, ◌==◌, arith, length, length-drop, Option-cases, Bool-cases, inl, inr, get_or,
}
use green_right_topst_linux.Ipc.{IpcFrame, IpcParseResult, ipc_frame_parse, big_endian16}
use green_right_topst_linux.Can.{decode_can_payload}
use green_right_topst_linux.Can.Rx.{
  received, receive, can_handler_poll, CanHandler, Round, stop, next, consume_rx_bytes,
  emit_ego_with_diagnostics, find_ipc_header, handle_frame, after_parse, at_header, rx_round,
  after_round, rx_loop, process_ipc_rx_buffer,
}

pub length-consume_rx_bytes :
    (h : CanHandler) (n : ℕ) → length (consume_rx_bytes h n).rx_buffer ≡ length h.rx_buffer - n
unfolding consume_rx_bytes
length-consume_rx_bytes h n = ground (arith, length-drop n h.rx_buffer)

-- What a round leaves: at its end less than a frame, and otherwise less than it began with.
abbrev pub Shrinks : ℕ → Round → Type 0
Shrinks n (stop h) = (length h.rx_buffer ≤ n) × (length h.rx_buffer < 0x400)
Shrinks n (next done h) = length h.rx_buffer < n

handle_frame-Shrinks :
    (clock : ℕ → ℕ) (h : CanHandler) (n k : ℕ) (frame : IpcFrame)
    → 0 < n
    → 0 < length h.rx_buffer
    → length h.rx_buffer ≤ k
    → Shrinks k (handle_frame clock h n frame)
unfolding handle_frame consume_rx_bytes emit_ego_with_diagnostics
handle_frame-Shrinks clock h n k frame p q r =
    elim (Option-cases (decode_can_payload frame.bytes frame.data_len)) [
      | inl e ↦ rw (e, handle_frame) (omega (arith, length-consume_rx_bytes h n))
      | inr (ego, e) ↦
          rw (e, handle_frame)
            (omega (
              arith,
              length-consume_rx_bytes (emit_ego_with_diagnostics (clock h.ego_rx_count) h ego) n,
            ))
    ]

after_parse-Shrinks :
    (clock : ℕ → ℕ) (h : CanHandler) (n k : ℕ) (r : IpcParseResult × IpcFrame)
    → 0 < n
    → 0 < length h.rx_buffer
    → length h.rx_buffer ≤ k
    → Shrinks k (after_parse clock h n r)
unfolding after_parse
after_parse-Shrinks clock h n k (IpcParseResult.parse_ok, frame) p q r =
    handle_frame-Shrinks clock h n k frame p q r
after_parse-Shrinks clock h n k (_, frame) p q r = omega (arith, length-consume_rx_bytes h 1)

pub find_ipc_header-le : (bytes : List ℕ) → find_ipc_header bytes ≤ length bytes
unfolding find_ipc_header
find_ipc_header-le [] = omega arith
find_ipc_header-le (a ∷ []) = omega arith
find_ipc_header-le (a ∷ b ∷ []) = omega arith
find_ipc_header-le (a ∷ b ∷ c ∷ rest) = ground (arith, find_ipc_header-le (b ∷ c ∷ rest))

at_header-Shrinks :
    (clock : ℕ → ℕ) (h : CanHandler) (k : ℕ)
    → 0 < length h.rx_buffer
    → length h.rx_buffer ≤ k
    → Shrinks k (at_header clock h)
unfolding at_header
at_header-Shrinks clock h k p q =
    let payload_length = big_endian16 (get_or h.rx_buffer 7 0) (get_or h.rx_buffer 8 0) in
    ground (
      arith,
      length-consume_rx_bytes h 1,
      after_parse-Shrinks clock h (9 + payload_length + 2) k
          (ipc_frame_parse h.rx_buffer (9 + payload_length + 2)) (omega arith) p q,
    )

pub rx_round-Shrinks :
    (clock : ℕ → ℕ) (h : CanHandler)
    → 0 < length h.rx_buffer
    → Shrinks (length h.rx_buffer) (rx_round clock h)
unfolding rx_round
rx_round-Shrinks clock h p =
    let n = find_ipc_header h.rx_buffer in
    ground (
      arith,
      find_ipc_header-le h.rx_buffer,
      length-consume_rx_bytes h n,
      length-consume_rx_bytes h (length h.rx_buffer - 2),
      at_header-Shrinks clock h (length h.rx_buffer),
      at_header-Shrinks clock (consume_rx_bytes h n) (length h.rx_buffer),
    )

abbrev Ends : Option (Bool × CanHandler) → Type 0
Ends r = (b : Bool) × (h : CanHandler) × (r ≡ some (b, h)) × (length h.rx_buffer < 0x400)

round-Ends :
    (clock : ℕ → ℕ) (fuel n : ℕ) (processed : Bool) (r : Round)
    → Shrinks n r
    → ((done : Bool) (h : CanHandler) → length h.rx_buffer < n → Ends (rx_loop clock fuel done h))
    → Ends (after_round (rx_loop clock fuel) processed r)
round-Ends clock fuel n processed (stop h) s ih = (processed, h, refl, s.1)
round-Ends clock fuel n processed (next done h) s ih = ih (processed || done) h s

rx_loop-Ends :
    (clock : ℕ → ℕ) (fuel : ℕ) (processed : Bool) (h : CanHandler)
    → length h.rx_buffer < fuel
    → Ends (rx_loop clock fuel processed h)
unfolding rx_loop
rx_loop-Ends clock zero processed h p = absurd (omega arith)
rx_loop-Ends clock (suc fuel) processed h p = elim (Bool-cases (length h.rx_buffer == 0)) [
  | inl e ↦ (processed, h, rw (e, rx_loop), ground arith)
  | inr e ↦
      rw (e, rx_loop)
        (round-Ends clock fuel (length h.rx_buffer) processed (rx_round clock h)
          (rx_round-Shrinks clock h (ground arith))
          (λ done h' q. rx_loop-Ends clock fuel done h' (omega arith)))
]

-- The receive loop ends on every buffer, and leaves less than 1024 bytes in it.
pub process_ipc_rx_buffer_ends :
    (clock : ℕ → ℕ) (h : CanHandler)
    → (processed : Bool) × (h' : CanHandler) × (process_ipc_rx_buffer clock h
        ≡ some (processed, h'))
      × (length h'.rx_buffer < 0x400)
unfolding process_ipc_rx_buffer
process_ipc_rx_buffer_ends clock h =
    rx_loop-Ends clock (suc (length h.rx_buffer)) false h (omega arith)

-- A poll of an initialised device that reads 1 to 1024 bytes, with less than 1024 buffered, processes the
-- buffered bytes and those read, discarding none, and ends with less than 1024 buffered again.
pub can_handler_poll_keeps :
    (clock : ℕ → ℕ) (h : CanHandler) (bytes : List ℕ)
    → h.initialized ≡ true
    → h.rx_mock_mode ≡ false
    → length h.rx_buffer < 0x400
    → 0 < length bytes
    → length bytes ≤ 0x400
    → (can_handler_poll clock h (received bytes)
        ≡ process_ipc_rx_buffer clock (record h { rx_buffer = h.rx_buffer ++ bytes }))
      × (processed : Bool) × (h' : CanHandler) × (can_handler_poll clock h (received bytes)
          ≡ some (processed, h'))
      × (length h'.rx_buffer < 0x400)
unfolding can_handler_poll receive
can_handler_poll_keeps clock h bytes i m p q r =
    let whole = record h { rx_buffer = h.rx_buffer ++ bytes } in
    let (done, h', e, l) = process_ipc_rx_buffer_ends clock whole in
    (ground arith, done, h', ground (arith, e), l)
