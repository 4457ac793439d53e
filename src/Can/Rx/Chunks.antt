-- ===== src/Can/Rx/Chunks.antt =====
-- How the byte stream is cut into reads does not matter to the receive loop of
-- handler/can_handler.c.
use green_right_topst_linux.Base.{
  ℕ, zero, suc, ◌≤◌, ◌<◌, ◌≡◌, refl, sym, ap, ◌∙◌, List, ◌++◌, some, Bool, true, false, ◌||◌, ◌==◌,
  arith, length, length-append,
}
use native.Mathlib.Decide.{dec_lt}
use green_right_topst_linux.Can.Rx.{
  CanHandler, Round, stop, next, rx_round, after_round, rx_loop, process_ipc_rx_buffer,
}
use green_right_topst_linux.Can.Rx.Stop.{Shrinks, rx_round-Shrinks}
use green_right_topst_linux.Can.Rx.Header.{extend}
use green_right_topst_linux.Can.Rx.Resume.{Resumes, rx_round-Resumes}

-- The rest of the loop does not depend on surplus fuel.
after_round_fuel :
    (clock : ℕ → ℕ) (f g m n : ℕ) (p : Bool) (r : Round)
    → ((q : Bool) (h : CanHandler)
        → length h.rx_buffer < f
        → length h.rx_buffer < g
        → rx_loop clock f q h ≡ rx_loop clock g q h)
    → Shrinks m r
    → Shrinks n r
    → m ≤ f
    → n ≤ g
    → after_round (rx_loop clock f) p r ≡ after_round (rx_loop clock g) p r
after_round_fuel clock f g m n p (stop h) ih s t j k = refl
after_round_fuel clock f g m n p (next done h) ih s t j k =
    ih (p || done) h (omega arith) (omega arith)

-- One round of the loop, on a buffer that is not empty.
pub rx_loop_step :
    (clock : ℕ → ℕ) (f : ℕ) (p : Bool) (h : CanHandler)
    → 0 < length h.rx_buffer
    → rx_loop clock (suc f) p h ≡ after_round (rx_loop clock f) p (rx_round clock h)
unfolding rx_loop
rx_loop_step clock f p h k = rw (busy, rx_loop)
  where
    busy : (length h.rx_buffer == 0) ≡ false
    busy = ground arith

pub rx_loop_empty :
    (clock : ℕ → ℕ) (f : ℕ) (p : Bool) (h : CanHandler)
    → length h.rx_buffer ≡ 0
    → rx_loop clock (suc f) p h ≡ some (p, h)
unfolding rx_loop
rx_loop_empty clock f p h k = rw (idle, rx_loop)
  where
    idle : (length h.rx_buffer == 0) ≡ true
    idle = ground arith

rx_loop_fuel :
    (clock : ℕ → ℕ) (f g : ℕ) (p : Bool) (h : CanHandler)
    → length h.rx_buffer < f
    → length h.rx_buffer < g
    → rx_loop clock f p h ≡ rx_loop clock g p h
rx_loop_fuel clock zero g p h j k = absurd (omega arith)
rx_loop_fuel clock (suc f) zero p h j k = absurd (omega arith)
rx_loop_fuel clock (suc f) (suc g) p h j k = elim (dec_lt 0 (length h.rx_buffer)) [
  | yes busy ↦
      rw (rx_loop_step clock f p h busy, rx_loop_step clock g p h busy)
        (after_round_fuel clock f g (length h.rx_buffer) (length h.rx_buffer) p (rx_round clock h)
          (λ q h' a b. rx_loop_fuel clock f g q h' a b) (rx_round-Shrinks clock h busy)
          (rx_round-Shrinks clock h busy) (omega arith) (omega arith))
  | no idle ↦
      rx_loop_empty clock f p h (omega arith) ∙ sym (rx_loop_empty clock g p h (omega arith))
]

rx_loop_zero :
    (clock : ℕ → ℕ) (p q : Bool) (h h' : CanHandler) → ¬ (rx_loop clock 0 p h ≡ some (q, h'))
unfolding rx_loop
rx_loop_zero clock p q h h' e = cc

or_assoc : (p q r : Bool) → ((p || q) || r) ≡ (p || (q || r))
or_assoc true q r = refl
or_assoc false q r = refl

or_false : (p : Bool) → (p || false) ≡ p
or_false true = refl
or_false false = refl

-- The flag that a run begins with only adds to the one it ends with.
round_flag :
    (clock : ℕ → ℕ) (f : ℕ) (p r q : Bool) (h' : CanHandler) (x : Round)
    → after_round (rx_loop clock f) r x ≡ some (q, h')
    → ((r' : Bool) (h : CanHandler)
        → rx_loop clock f r' h ≡ some (q, h')
        → rx_loop clock f (p || r') h ≡ some (p || q, h'))
    → after_round (rx_loop clock f) (p || r) x ≡ some (p || q, h')
round_flag clock f p r q h' (stop h'') e ih = cc
round_flag clock f p r q h' (next done h'') e ih = rw (or_assoc p r done) (ih (r || done) h'' e)

rx_loop_flag :
    (clock : ℕ → ℕ) (f : ℕ) (p r q : Bool) (h h' : CanHandler)
    → rx_loop clock f r h ≡ some (q, h')
    → rx_loop clock f (p || r) h ≡ some (p || q, h')
rx_loop_flag clock zero p r q h h' e = absurd (rx_loop_zero clock r q h h' e)
rx_loop_flag clock (suc f) p r q h h' e = elim (dec_lt 0 (length h.rx_buffer)) [
  | yes busy ↦
      rx_loop_step clock f (p || r) h busy
      ∙ round_flag clock f p r q h' (rx_round clock h) (sym (rx_loop_step clock f r h busy) ∙ e)
          (λ r' g e'. rx_loop_flag clock f p r' q g h' e')
  | no idle ↦
      let z : length h.rx_buffer ≡ 0 = omega arith in
      cc (rx_loop_empty clock f r h z, rx_loop_empty clock f (p || r) h z)
]

-- The loop over the whole buffer against the loop over what a first run (to `q` and `h'`) has left.
abbrev Continues : (ℕ → ℕ) → List ℕ → ℕ → ℕ → Bool → CanHandler → Bool → CanHandler → Type 0
Continues clock more g k p h q h' =
    length (extend h more).rx_buffer < g
    → length (extend h' more).rx_buffer < k
    → rx_loop clock g p (extend h more) ≡ rx_loop clock k q (extend h' more)

round-Continues :
    (clock : ℕ → ℕ) (more : List ℕ) (f g k : ℕ) (p q : Bool) (h h' : CanHandler) (r : Round)
    → 0 < length h.rx_buffer
    → Shrinks (length h.rx_buffer) r
    → Resumes clock more r (rx_round clock (extend h more))
    → after_round (rx_loop clock f) p r ≡ some (q, h')
    → ((done : Bool) (g' : CanHandler)
        → length g'.rx_buffer < length h.rx_buffer
        → rx_loop clock f done g' ≡ some (q, h')
        → Continues clock more g k done g' q h')
    → Continues clock more (suc g) k p h q h'
round-Continues clock more f g k p q h h' (stop h'') b s c e ih i j =
    rw (← ap (λ t. t.0) same, ← kept)
      (rx_loop_step clock g p (extend h more) (omega (arith, length-append h.rx_buffer more))
        ∙ ap (after_round (rx_loop clock g) p) c.0
        ∙ sym (
            rx_loop_step clock g p (extend h'' more)
              (omega (arith, c.1, length-append h''.rx_buffer more)))
        ∙ rx_loop_fuel clock (suc g) k p (extend h'' more)
            (omega (arith, s.0, length-append h.rx_buffer more, length-append h''.rx_buffer more))
            (rw (← kept) at j))
  where
    same : ◌≡◌ {A = Bool × CanHandler} (p, h'') (q, h')
    same = cc

    kept : h'' ≡ h'
    kept = ap (λ t. t.1) same
round-Continues clock more f g k p q h h' (next done h'') b s c e ih i j =
    rw (rx_loop_step clock g p (extend h more) (omega (arith, length-append h.rx_buffer more)), c)
      (ih (p || done) h'' s e
        (omega (arith, length-append h.rx_buffer more, length-append h''.rx_buffer more)) j)

idle-Continues :
    (clock : ℕ → ℕ) (more : List ℕ) (f g k : ℕ) (p q : Bool) (h h' : CanHandler)
    → length h.rx_buffer ≡ 0
    → rx_loop clock (suc f) p h ≡ some (q, h')
    → Continues clock more g k p h q h'
idle-Continues clock more f g k p q h h' z e i j =
    rw (← ap (λ t. t.0) same, ← kept)
      (rx_loop_fuel clock g k p (extend h more) i (rw (← kept) at j))
  where
    same : ◌≡◌ {A = Bool × CanHandler} (p, h) (q, h')
    same = cc (rx_loop_empty clock f p h z)

    kept : h ≡ h'
    kept = ap (λ t. t.1) same

rx_loop-Continues :
    (clock : ℕ → ℕ) (more : List ℕ) (f g k : ℕ) (p q : Bool) (h h' : CanHandler)
    → rx_loop clock f p h ≡ some (q, h')
    → Continues clock more g k p h q h'
rx_loop-Continues clock more zero g k p q h h' e i j = absurd (rx_loop_zero clock p q h h' e)
rx_loop-Continues clock more (suc f) zero k p q h h' e i j = absurd (omega arith)
rx_loop-Continues clock more (suc f) (suc g) k p q h h' e i j =
    elim (dec_lt 0 (length h.rx_buffer)) [
      | yes busy ↦
          round-Continues clock more f g k p q h h' (rx_round clock h) busy
            (rx_round-Shrinks clock h busy) (rx_round-Resumes clock h more busy)
            (sym (rx_loop_step clock f p h busy) ∙ e)
            (λ done g' _ e'. rx_loop-Continues clock more f g k done q g' h' e') i j
      | no idle ↦ idle-Continues clock more f (suc g) k p q h h' (omega arith) e i j
    ]

-- If processing a buffer, and then processing what it leaves with more bytes behind it, give results, then
-- processing all the bytes at once ends in the same handler (and so with the same calls of `on_ego`),
-- and reports a frame if either of the two does.
pub process_ipc_rx_buffer-append :
    (clock : ℕ → ℕ) (h h₁ h₂ : CanHandler) (more : List ℕ) (q₁ q₂ : Bool)
    → process_ipc_rx_buffer clock h ≡ some (q₁, h₁)
    → process_ipc_rx_buffer clock (extend h₁ more) ≡ some (q₂, h₂)
    → process_ipc_rx_buffer clock (extend h more) ≡ some (q₁ || q₂, h₂)
unfolding process_ipc_rx_buffer
process_ipc_rx_buffer-append clock h h₁ h₂ more q₁ q₂ e₁ e₂ =
    rx_loop-Continues clock more (suc (length h.rx_buffer)) (suc (length (h.rx_buffer ++ more)))
      (suc (length (h₁.rx_buffer ++ more))) false q₁ h h₁ e₁ (omega arith) (omega arith)
    ∙ (rw or_false at (
        rx_loop_flag clock (suc (length (h₁.rx_buffer ++ more))) q₁ false q₂ (extend h₁ more) h₂
          e₂))
