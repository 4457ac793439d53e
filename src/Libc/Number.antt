-- ===== src/Libc/Number.antt =====
-- What `strtol` reads of a printed number.
use green_right_topst_linux.Base.{
  ℕ, zero, suc, ◌+◌, ◌/◌, ◌%◌, ◌^◌, ◌<◌, ◌≡◌, refl, ap, ◌∙◌, [], ◌∷◌, ◌++◌, true, false, ltb,
  Bool-cases, inl, inr, arith, Str,
}
use green_right_topst_linux.Libc.{
  digits, skip_space, clamp_long, strtol, starts_with_digit, strtol_reads, decimal_loop, decimal,
}

-- With enough fuel, the digits of a number are read back, whatever follows.
digits-decimal_loop :
    (fuel n : ℕ) (out : Str) → n < 10 ^ fuel → digits 0 (decimal_loop fuel n out) ≡ digits n out
unfolding digits decimal_loop
digits-decimal_loop zero n out h = ap (λ (m : ℕ). digits m out) (omega arith)
digits-decimal_loop (suc fuel) n out h = elim (Bool-cases (ltb n 10)) [
  | inl e ↦ ground (arith)
  | inr e ↦ ground (arith, digits-decimal_loop fuel (n / 10) ((48 + n % 10) ∷ out))
]

starts-decimal_loop :
    (fuel n : ℕ) (out : Str)
    → starts_with_digit out ≡ true
    → starts_with_digit (decimal_loop fuel n out) ≡ true
unfolding decimal_loop
starts-decimal_loop zero n out h = h
starts-decimal_loop (suc fuel) n out h =
    ground (arith, starts-decimal_loop fuel (n / 10) ((48 + n % 10) ∷ out))

-- The same for the text that is appended to.
decimal_loop-++ :
    (fuel n : ℕ) (out rest : Str)
    → decimal_loop fuel n out ++ rest ≡ decimal_loop fuel n (out ++ rest)
unfolding decimal_loop
decimal_loop-++ zero n out rest = refl
decimal_loop-++ (suc fuel) n out rest =
    ground (arith, decimal_loop-++ fuel (n / 10) ((48 + n % 10) ∷ out) rest)

strtol-digit :
    (s : Str)
    → starts_with_digit s ≡ true
    → (strtol_reads s ≡ true) × (strtol s ≡ clamp_long (false, digits 0 s))
unfolding strtol strtol_reads skip_space
strtol-digit [] h = cc
strtol-digit (c ∷ s) h = (ground arith, ground arith)

starts-decimal : (n : ℕ) (rest : Str) → starts_with_digit (decimal_loop 20 n rest) ≡ true
unfolding decimal_loop
starts-decimal n rest = ground (arith, starts-decimal_loop 19 (n / 10) ((48 + n % 10) ∷ rest))

-- Every non-negative `long` that is printed and followed by something else than a digit is read back.
pub strtol-decimal :
    (n : ℕ) (rest : Str)
    → n < 2 ^ 63
    → starts_with_digit rest ≡ false
    → (strtol_reads (decimal n ++ rest) ≡ true) × (strtol (decimal n ++ rest) ≡ (false, n))
unfolding decimal digits
strtol-decimal n rest h k = rw (decimal_loop-++ 20 n [] rest) (
  read.0,
  read.1
      ∙ ap (λ (m : ℕ). clamp_long (false, m))
          (digits-decimal_loop 20 n rest (omega arith) ∙ stops rest k)
      ∙ ground arith,
)
  where
    read :
        (strtol_reads (decimal_loop 20 n rest) ≡ true)
        × (strtol (decimal_loop 20 n rest) ≡ clamp_long (false, digits 0 (decimal_loop 20 n rest)))
    read = strtol-digit (decimal_loop 20 n rest) (starts-decimal n rest)

    stops : (s : Str) → starts_with_digit s ≡ false → digits n s ≡ n
    stops [] e = refl
    stops (c ∷ s) e = simp e refl

pub starts-decimal_text : (n : ℕ) (rest : Str) → starts_with_digit (decimal n ++ rest) ≡ true
unfolding decimal
starts-decimal_text n rest = rw (decimal_loop-++ 20 n [] rest) (starts-decimal n rest)
