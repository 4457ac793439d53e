-- ===== src/Can/Rx/Header.antt =====
-- What the parts of a round of the receive loop in handler/can_handler.c do with more bytes behind
-- those in the buffer.
use green_right_topst_linux.Base.{
  ℕ, suc, ◌+◌, ◌-◌, ◌≤◌, ◌≡◌, ◌≢◌, refl, ap, ◌∙◌, List, [], ◌∷◌, ◌++◌, true, false, ltb, leb, arith,
  length, drop, get_or, get_or-append, drop_all, drop-append_le, length-append, Option-cases,
  Bool-cases, inl, inr,
}
use green_right_topst_linux.Ipc.{IpcFrame, IpcParseResult, ipc_frame_parse, big_endian16}
use green_right_topst_linux.Ipc.Extend.{ipc_frame_parse-append}
use green_right_topst_linux.Can.{decode_can_payload}
use green_right_topst_linux.Can.Rx.{
  CanHandler, Round, stop, next, consume_rx_bytes, emit_ego_with_diagnostics, find_ipc_header,
  handle_frame, after_parse, at_header,
}

-- The handler with more bytes behind those in its buffer.
abbrev pub extend : CanHandler → List ℕ → CanHandler
extend h more = record h { rx_buffer = h.rx_buffer ++ more }

pub consume_lem :
    (h : CanHandler) (n : ℕ) → consume_rx_bytes h n ≡ record h { rx_buffer = drop n h.rx_buffer }
unfolding consume_rx_bytes
consume_lem h n = elim (Bool-cases (leb (length h.rx_buffer) n)) [
  | inl e ↦ rw (e, drop_all h.rx_buffer n (ground arith))
  | inr e ↦ rw e
]

consume-extend :
    (h : CanHandler) (more : List ℕ) (n : ℕ)
    → n ≤ length h.rx_buffer
    → consume_rx_bytes (extend h more) n ≡ extend (consume_rx_bytes h n) more
consume-extend h more n k =
    rw (consume_lem (extend h more) n, consume_lem h n, drop-append_le h.rx_buffer more n k)

pub find-append :
    (xs ys : List ℕ)
    → find_ipc_header xs ≢ length xs
    → find_ipc_header (xs ++ ys) ≡ find_ipc_header xs
unfolding find_ipc_header
find-append [] ys h = absurd (h refl)
find-append (a ∷ []) ys h = absurd (h refl)
find-append (a ∷ b ∷ []) ys h = absurd (h refl)
find-append (a ∷ b ∷ c ∷ xs) ys h = ground (arith, find-append (b ∷ c ∷ xs) ys)

pub find_miss :
    (a b c : ℕ) (xs ys : List ℕ)
    → find_ipc_header (a ∷ b ∷ c ∷ xs) ≢ 0
    → find_ipc_header (a ∷ b ∷ c ∷ ys) ≡ suc (find_ipc_header (b ∷ c ∷ ys))
unfolding find_ipc_header
find_miss a b c xs ys h = ground arith

-- A buffer without a header can be cut down to its last two bytes.
pub find-drop :
    (xs ys : List ℕ)
    → find_ipc_header xs ≡ length xs
    → find_ipc_header (xs ++ ys)
      ≡ (length xs - 2) + find_ipc_header (drop (length xs - 2) (xs ++ ys))
find-drop [] ys h = omega arith
find-drop (a ∷ []) ys h = omega arith
find-drop (a ∷ b ∷ []) ys h = omega arith
find-drop (a ∷ b ∷ c ∷ xs) ys h =
    let e : suc (suc (suc (length xs))) - 2 ≡ suc (length xs) = omega arith in
    let f : suc (suc (length xs)) - 2 ≡ length xs = omega arith in
    let miss : find_ipc_header (a ∷ b ∷ c ∷ xs) ≢ 0 = omega arith in
    let ih = rw f at (find-drop (b ∷ c ∷ xs) ys (omega (arith, find_miss a b c xs xs miss))) in
    rw e (find_miss a b c xs (xs ++ ys) miss ∙ omega (arith, ih))

-- From a header on, a round stops only to wait for more, and one that ends by `next` ends so, in the
-- same way, with more bytes behind.
abbrev pub After : CanHandler → List ℕ → Round → Round → Type 0
After g more (stop h) r = h ≡ g
After g more (next done h) r = r ≡ next done (extend h more)

handle_frame-After :
    (clock : ℕ → ℕ) (h : CanHandler) (more : List ℕ) (n : ℕ) (frame : IpcFrame)
    → n ≤ length h.rx_buffer
    → After h more (handle_frame clock h n frame) (handle_frame clock (extend h more) n frame)
unfolding handle_frame emit_ego_with_diagnostics
handle_frame-After clock h more n frame k =
    elim (Option-cases (decode_can_payload frame.bytes frame.data_len)) [
      | inl e ↦ rw (e, handle_frame) (ap (next false) (consume-extend h more n k))
      | inr (ego, e) ↦
          rw (e, handle_frame)
            (ap (next true)
              (consume-extend (emit_ego_with_diagnostics (clock h.ego_rx_count) h ego) more n k))
    ]

after_parse-After :
    (clock : ℕ → ℕ) (h : CanHandler) (more : List ℕ) (n : ℕ) (r : IpcParseResult × IpcFrame)
    → 1 ≤ n
    → n ≤ length h.rx_buffer
    → After h more (after_parse clock h n r) (after_parse clock (extend h more) n r)
unfolding after_parse
after_parse-After clock h more n (IpcParseResult.parse_ok, frame) p q =
    handle_frame-After clock h more n frame q
after_parse-After clock h more n (_, frame) p q =
    ap (next false) (consume-extend h more 1 (omega arith))

pub at_header-After :
    (clock : ℕ → ℕ) (h : CanHandler) (more : List ℕ)
    → After h more (at_header clock h) (at_header clock (extend h more))
unfolding at_header
at_header-After clock h more = elim (Bool-cases (ltb (length h.rx_buffer) 9)) [
  | inl e ↦ rw (e, at_header) refl
  | inr e ↦ long (ground arith)
]
  where
    L : ℕ
    L = big_endian16 (get_or h.rx_buffer 7 0) (get_or h.rx_buffer 8 0)

    long :
        9 ≤ length h.rx_buffer → After h more (at_header clock h) (at_header clock (extend h more))
    long k =
        rw
          (
            get_or-append h.rx_buffer more 7 0 (omega arith),
            get_or-append h.rx_buffer more 8 0 (omega arith),
          )
          (ground (
            arith,
            length-append h.rx_buffer more,
            consume-extend h more 1,
            ipc_frame_parse-append h.rx_buffer more (9 + L + 2),
            after_parse-After clock h more (9 + L + 2) (ipc_frame_parse h.rx_buffer (9 + L + 2)),
          ))
