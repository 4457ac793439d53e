-- ===== src/Can/Rx/Resume.antt =====
-- A round of the receive loop in handler/can_handler.c, with more bytes behind those in the buffer.
use green_right_topst_linux.Base.{
  ℕ, ◌+◌, ◌-◌, ◌≤◌, ◌<◌, ◌≡◌, ◌≢◌, refl, sym, ◌∙◌, List, [], ◌∷◌, ◌++◌, Bool, true, false, ltb,
  ◌==◌, if◌then◌else◌, arith, length, drop, length-drop, drop-append_le, length-append, drop-drop,
  ap₂,
}
use native.Mathlib.Decide.{ℕ_discrete, dec_lt}
use green_right_topst_linux.Can.Rx.{
  CanHandler, Round, stop, next, consume_rx_bytes, find_ipc_header, at_header, rx_round,
}
use green_right_topst_linux.Can.Rx.Stop.{find_ipc_header-le}
use green_right_topst_linux.Can.Rx.Header.{
  extend, consume_lem, find-append, find_miss, find-drop, After, at_header-After,
}

find_found :
    (xs : List ℕ)
    → find_ipc_header xs ≢ length xs
    → find_ipc_header (drop (find_ipc_header xs) xs) ≡ 0
find_found [] h = absurd (h (unfold find_ipc_header in refl))
find_found (a ∷ []) h = absurd (h (unfold find_ipc_header in refl))
find_found (a ∷ b ∷ []) h = absurd (h (unfold find_ipc_header in refl))
find_found (a ∷ b ∷ c ∷ xs) h = elim (ℕ_discrete (find_ipc_header (a ∷ b ∷ c ∷ xs)) 0) [
  | yes e ↦ rw e e
  | no ne ↦
      rw (find_miss a b c xs xs ne)
        (find_found (b ∷ c ∷ xs) (omega (arith, find_miss a b c xs xs ne)))
]

skip_lem :
    (h : CanHandler) (test : Bool) (n : ℕ)
    → (test ≡ false → n ≡ 0)
    → (if test then consume_rx_bytes h n else h) ≡ record h { rx_buffer = drop n h.rx_buffer }
skip_lem h true n e = consume_lem h n
skip_lem h false n e = let z : n ≡ 0 = e refl in rw z

-- A round, with the bytes that it passes over written as `drop`.
rx_round_lem :
    (clock : ℕ → ℕ) (h : CanHandler)
    → let buf = h.rx_buffer in
      rx_round clock h ≡ (
        if find_ipc_header buf == length buf
        then stop (record h { rx_buffer = drop (length buf - 2) buf })
        else at_header clock (record h { rx_buffer = drop (find_ipc_header buf) buf }))
unfolding rx_round
rx_round_lem clock h =
    ap₂ (λ s a. if find_ipc_header buf == length buf then stop s else at_header clock a)
      (skip_lem h (ltb 2 (length buf)) (length buf - 2) (λ e. ground arith))
      (skip_lem h (ltb 0 (find_ipc_header buf)) (find_ipc_header buf) (λ e. ground arith))
  where
    open h use {rx_buffer as buf}

-- Bytes before the first header, but for the last two, play no part.
rx_round-drop :
    (clock : ℕ → ℕ) (h : CanHandler) (d : ℕ)
    → let rest = drop d h.rx_buffer in
      2 ≤ length rest
      → find_ipc_header h.rx_buffer ≡ d + find_ipc_header rest
      → rx_round clock h ≡ rx_round clock (record h { rx_buffer = rest })
rx_round-drop clock h d k e =
    rx_round_lem clock h
    ∙ (rw
        (
          e,
          two,
          ← drop-drop buf d (length rest - 2),
          ← drop-drop buf d (find_ipc_header rest),
          same,
        )
        (sym (rx_round_lem clock (record h { rx_buffer = rest }))))
  where
    open h use {rx_buffer as buf}

    rest : List ℕ
    rest = drop d buf

    two : length buf - 2 ≡ d + (length rest - 2)
    two = omega (arith, length-drop d buf)

    same : (d + find_ipc_header rest == length buf) ≡ (find_ipc_header rest == length rest)
    same = ground (arith, length-drop d buf)

-- With the header at offset `n`, a round goes on from there.
pub rx_round_at :
    (clock : ℕ → ℕ) (h : CanHandler) (n : ℕ)
    → find_ipc_header h.rx_buffer ≡ n
    → n < length h.rx_buffer
    → rx_round clock h ≡ at_header clock (record h { rx_buffer = drop n h.rx_buffer })
rx_round_at clock h n e p = rx_round_lem clock h ∙ rw e (rw miss)
  where
    miss : (n == length h.rx_buffer) ≡ false
    miss = ground arith

-- What a round that stops leaves is not empty and, with more bytes behind, goes on as the whole
-- would.
abbrev pub Resumes : (ℕ → ℕ) → List ℕ → Round → Round → Type 0
Resumes clock more (stop h) r = (r ≡ rx_round clock (extend h more)) × (0 < length h.rx_buffer)
Resumes clock more (next done h) r = r ≡ next done (extend h more)

After-Resumes :
    (clock : ℕ → ℕ) (g : CanHandler) (more : List ℕ) (r s : Round)
    → After g more r s
    → s ≡ rx_round clock (extend g more)
    → 0 < length g.rx_buffer
    → Resumes clock more r s
After-Resumes clock g more (stop h) s a e p = rw a (e, p)
After-Resumes clock g more (next done h) s a e p = a

Resumes-found :
    (clock : ℕ → ℕ) (h : CanHandler) (more : List ℕ) (n : ℕ)
    → find_ipc_header h.rx_buffer ≡ n
    → n < length h.rx_buffer
    → Resumes clock more (rx_round clock h) (rx_round clock (extend h more))
Resumes-found clock h more n e p =
    rw (rx_round_at clock h n e p, ahead)
      (After-Resumes clock g more (at_header clock g) (at_header clock (extend g more))
        (at_header-After clock g more)
        (sym (
          rx_round_at clock (extend g more) 0 front
            (omega (arith, length-append g.rx_buffer more, length-drop n h.rx_buffer))))
        (omega (arith, length-drop n h.rx_buffer)))
  where
    g : CanHandler
    g = record h { rx_buffer = drop n h.rx_buffer }

    apart : find_ipc_header h.rx_buffer ≢ length h.rx_buffer
    apart = omega arith

    front : find_ipc_header (g.rx_buffer ++ more) ≡ 0
    front =
        let z = rw e at (find_found h.rx_buffer apart) in
        find-append g.rx_buffer more (omega (arith, z, length-drop n h.rx_buffer)) ∙ z

    ahead : rx_round clock (extend h more) ≡ at_header clock (extend g more)
    ahead =
        rx_round_at clock (extend h more) n (find-append h.rx_buffer more apart ∙ e)
          (omega (arith, length-append h.rx_buffer more))
        ∙ rw (drop-append_le h.rx_buffer more n (omega arith))

Resumes-absent :
    (clock : ℕ → ℕ) (h : CanHandler) (more : List ℕ)
    → find_ipc_header h.rx_buffer ≡ length h.rx_buffer
    → 0 < length h.rx_buffer
    → Resumes clock more (rx_round clock h) (rx_round clock (extend h more))
Resumes-absent clock h more e p = rw stops (cut, omega (arith, length-drop d h.rx_buffer))
  where
    d : ℕ
    d = length h.rx_buffer - 2

    hit : (find_ipc_header h.rx_buffer == length h.rx_buffer) ≡ true
    hit = ground arith

    stops : rx_round clock h ≡ stop (record h { rx_buffer = drop d h.rx_buffer })
    stops = rx_round_lem clock h ∙ rw hit

    cut :
        rx_round clock (extend h more)
        ≡ rx_round clock (extend (record h { rx_buffer = drop d h.rx_buffer }) more)
    cut = elim (dec_lt (length h.rx_buffer) 2) [
      | yes short ↦ (let z : length h.rx_buffer - 2 ≡ 0 = omega arith in rw z)
      | no long ↦
          rx_round-drop clock (extend h more) d
            (omega (arith, length-drop d (h.rx_buffer ++ more), length-append h.rx_buffer more))
            (find-drop h.rx_buffer more e)
          ∙ rw (drop-append_le h.rx_buffer more d (omega arith))
    ]

pub rx_round-Resumes :
    (clock : ℕ → ℕ) (h : CanHandler) (more : List ℕ)
    → 0 < length h.rx_buffer
    → Resumes clock more (rx_round clock h) (rx_round clock (extend h more))
rx_round-Resumes clock h more p =
    elim (ℕ_discrete (find_ipc_header h.rx_buffer) (length h.rx_buffer)) [
      | yes e ↦ Resumes-absent clock h more e p
      | no ne ↦
          Resumes-found clock h more (find_ipc_header h.rx_buffer) refl
            (omega (arith, find_ipc_header-le h.rx_buffer))
    ]
