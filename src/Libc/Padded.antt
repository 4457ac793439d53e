-- ===== src/Libc/Padded.antt =====
-- The digits of a padded number.
use green_right_topst_linux.Base.{
  ℕ, zero, suc, ◌+◌, ◌-◌, ◌/◌, ◌%◌, ◌≤◌, ◌<◌, ◌≡◌, refl, ◌∙◌, [], ◌∷◌, ltb, length, length-append,
  replicate, Str, arith, Bool-cases, inl, inr,
}
use green_right_topst_linux.Libc.{decimal_loop, decimal, padded}

loop_last : (fuel n : ℕ) (out : Str) → n < 10 → decimal_loop (suc fuel) n out ≡ (48 + n) ∷ out
unfolding decimal_loop
loop_last fuel n out h = ground arith

loop_more :
    (fuel n : ℕ) (out : Str)
    → 10 ≤ n
    → decimal_loop (suc fuel) n out ≡ decimal_loop fuel (n / 10) ((48 + n % 10) ∷ out)
unfolding decimal_loop
loop_more fuel n out h = ground arith

-- Each further digit, from the last.
decimal-one : (n : ℕ) → n < 10 → decimal n ≡ (48 + n) ∷ []
unfolding decimal
decimal-one n h = loop_last 19 n [] h

decimal-two : (n : ℕ) → 10 ≤ n → n < 100 → decimal n ≡ (48 + n / 10) ∷ (48 + n % 10) ∷ []
unfolding decimal
decimal-two n k h = loop_more 19 n [] k ∙ loop_last 18 (n / 10) _ (omega arith)

decimal-three :
    (n : ℕ)
    → 100 ≤ n
    → n < 1000
    → decimal n ≡ (48 + n / 100) ∷ (48 + n / 10 % 10) ∷ (48 + n % 10) ∷ []
unfolding decimal
decimal-three n k h =
    loop_more 19 n [] (omega arith)
    ∙ loop_more 18 (n / 10) _ (omega arith)
    ∙ loop_last 17 (n / 10 / 10) _ (omega arith)
    ∙ ground arith

decimal-four :
    (n : ℕ)
    → 1000 ≤ n
    → n < 10000
    → decimal n ≡ (48 + n / 1000) ∷ (48 + n / 100 % 10) ∷ (48 + n / 10 % 10) ∷ (48 + n % 10) ∷ []
unfolding decimal
decimal-four n k h =
    loop_more 19 n [] (omega arith)
    ∙ loop_more 18 (n / 10) _ (omega arith)
    ∙ loop_more 17 (n / 10 / 10) _ (omega arith)
    ∙ loop_last 16 (n / 10 / 10 / 10) _ (omega arith)
    ∙ ground arith

pub padded-two : (n : ℕ) → n < 100 → padded 2 n ≡ (48 + n / 10) ∷ (48 + n % 10) ∷ []
unfolding padded
padded-two n h = elim (Bool-cases (ltb n 10)) [
  | inl t ↦ rw (decimal-one n (ground arith)) (ground arith)
  | inr t ↦ rw (decimal-two n (ground arith) h) refl
]

pub padded-three :
    (n : ℕ) → n < 1000 → padded 3 n ≡ (48 + n / 100) ∷ (48 + n / 10 % 10) ∷ (48 + n % 10) ∷ []
unfolding padded
padded-three n h = elim (Bool-cases (ltb n 10)) [
  | inl t ↦ rw (decimal-one n (ground arith)) (ground arith)
  | inr t ↦ elim (Bool-cases (ltb n 100)) [
    | inl u ↦ rw (decimal-two n (ground arith) (ground arith)) (ground arith)
    | inr u ↦ rw (decimal-three n (ground arith) h) refl
  ]
]

pub padded-four :
    (n : ℕ)
    → 1000 ≤ n
    → n < 10000
    → padded 4 n ≡ (48 + n / 1000) ∷ (48 + n / 100 % 10) ∷ (48 + n / 10 % 10) ∷ (48 + n % 10) ∷ []
unfolding padded
padded-four n k h = rw (decimal-four n k h) refl

length-decimal_loop : (fuel n : ℕ) (out : Str) → length out ≤ length (decimal_loop fuel n out)
unfolding decimal_loop
length-decimal_loop zero n out = omega arith
length-decimal_loop (suc fuel) n out =
    ground (arith, length-decimal_loop fuel (n / 10) ((48 + n % 10) ∷ out))

length-decimal_loop-suc :
    (fuel n : ℕ) (out : Str) → suc (length out) ≤ length (decimal_loop (suc fuel) n out)
unfolding decimal_loop
length-decimal_loop-suc fuel n out =
    ground (arith, length-decimal_loop fuel (n / 10) ((48 + n % 10) ∷ out))

length-decimal : (n : ℕ) → 10000 ≤ n → 5 ≤ length (decimal n)
unfolding decimal
length-decimal n h =
    rw
      (
        loop_more 19 n [] (omega arith),
        loop_more 18 (n / 10) _ (omega arith),
        loop_more 17 (n / 10 / 10) _ (omega arith),
        loop_more 16 (n / 10 / 10 / 10) _ (omega arith),
      )
      (length-decimal_loop-suc 15 (n / 10 / 10 / 10 / 10) _)

-- A number of more than four digits takes more than four places.
pub length-padded_four : (n : ℕ) → 10000 ≤ n → 5 ≤ length (padded 4 n)
unfolding padded
length-padded_four n h =
    omega
      (arith, length-append (replicate (4 - length (decimal n)) 48) (decimal n), length-decimal n h)
