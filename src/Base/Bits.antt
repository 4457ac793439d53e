-- ===== src/Base/Bits.antt =====
-- `|`, `&` and `^` on bit fields, as arithmetic.
use Prim.Native.Nat.{
  ℕ, zero, suc, ◌+◌, ◌-◌, ◌*◌, ◌/◌, ◌%◌, ◌^◌, ◌≤◌, ◌<◌, bit_and, bit_or, bit_xor, min, max, digits,
  differ, bit_and-bitwise, bit_or-bitwise, bit_xor-bitwise,
}
use mathlib.Core.Path.{◌≡◌, refl, sym, ap}
use native.Mathlib.Nat.{pow-suc, one-le-pow, div-div-eq-div-mul}
use native.Mathlib.Omega.{arith}

-- The digit recursion that the native operations stand for does not depend on surplus fuel.
module _ (z : ℕ → ℕ) (f : ℕ → ℕ → ℕ) where
  digits_none : (n b : ℕ) → digits z f n 0 b ≡ z b
  digits_none zero b = refl
  digits_none (suc n) b = refl

  digits_enough : (n m a b : ℕ) → a ≤ n → a ≤ m → digits z f n a b ≡ digits z f m a b
  digits_enough n m zero b h k = rw (digits_none n b, digits_none m b)
  digits_enough zero m (suc a) b h k = absurd (omega arith)
  digits_enough (suc n) zero (suc a) b h k = absurd (omega arith)
  digits_enough (suc n) (suc m) (suc a) b h k =
      omega (arith, digits_enough n m (suc a / 2) (b / 2) (omega arith) (omega arith))

  -- One digit is split off.
  digits_step :
      (a b : ℕ)
      → digits z f (suc a) (suc a) b
        ≡ digits z f (suc a / 2) (suc a / 2) (b / 2) * 2 + f (suc a % 2) (b % 2)
  digits_step a b =
      omega (arith, digits_enough a (suc a / 2) (suc a / 2) (b / 2) (omega arith) (omega arith))

pub bit_or_digit : (a b : ℕ) → bit_or a b ≡ bit_or (a / 2) (b / 2) * 2 + max (a % 2) (b % 2)
bit_or_digit zero b = simp bit_or-bitwise (omega arith)
bit_or_digit (suc a) b = simp bit_or-bitwise (digits_step (λ y. y) max a b)

pub bit_and_digit : (a b : ℕ) → bit_and a b ≡ bit_and (a / 2) (b / 2) * 2 + min (a % 2) (b % 2)
bit_and_digit zero b = simp bit_and-bitwise (omega arith)
bit_and_digit (suc a) b = simp bit_and-bitwise (digits_step (λ y. 0) min a b)

pub bit_xor_digit : (a b : ℕ) → bit_xor a b ≡ bit_xor (a / 2) (b / 2) * 2 + differ (a % 2) (b % 2)
bit_xor_digit zero b = simp bit_xor-bitwise (omega arith)
bit_xor_digit (suc a) b = simp bit_xor-bitwise (digits_step (λ y. y) differ a b)

differ_mod : (a b : ℕ) → differ (a % 2) (b % 2) ≡ (a + b) % 2
differ_mod a b = go (a % 2) (b % 2) refl refl
  where
    go : (x y : ℕ) → a % 2 ≡ x → b % 2 ≡ y → differ x y ≡ (a + b) % 2
    go zero y p q = omega arith
    go (suc zero) zero p q = omega arith
    go (suc zero) (suc zero) p q = omega arith
    go (suc zero) (suc (suc y)) p q = absurd (omega arith)
    go (suc (suc x)) y p q = absurd (omega arith)

halve_scaled : (q k : ℕ) → q * 2 ^ suc k ≡ 2 * (q * 2 ^ k)
halve_scaled q k = omega (arith, ap (λ (t : ℕ). q * t) (pow-suc 2 k))

bit_or_none : (n a : ℕ) → a ≤ n → bit_or a 0 ≡ a
bit_or_none n zero h = refl
bit_or_none zero (suc a) h = absurd (omega arith)
bit_or_none (suc n) (suc a) h =
    omega (arith, bit_or_digit (suc a) 0, bit_or_none n (suc a / 2) (omega arith))

-- A field shifted past the bits of `r` and joined to it by `|` is added to it.
pub bit_or_shifted : (k q r : ℕ) → r < 2 ^ k → bit_or (q * 2 ^ k) r ≡ q * 2 ^ k + r
bit_or_shifted zero q r h = ground (arith, bit_or_none q q)
bit_or_shifted (suc k) q r h = ground (
  arith,
  bit_or_digit (q * 2 ^ suc k) r,
  halve_scaled q k,
  pow-suc 2 k,
  bit_or_shifted k q (r / 2) (omega (arith, pow-suc 2 k)),
)

bit_and_none : (n a : ℕ) → a ≤ n → bit_and a 0 ≡ 0
bit_and_none n zero h = refl
bit_and_none zero (suc a) h = absurd (omega arith)
bit_and_none (suc n) (suc a) h =
    omega (arith, bit_and_digit (suc a) 0, bit_and_none n (suc a / 2) (omega arith))

and_mask_fields : (k q r : ℕ) → r < 2 ^ k → bit_and (q * 2 ^ k + r) (2 ^ k - 1) ≡ r
and_mask_fields zero q r h =
    omega (arith, bit_and_none (q * 2 ^ 0 + r) (q * 2 ^ 0 + r) (omega arith))
and_mask_fields (suc k) q r h = ground (
  arith,
  bit_and_digit (q * 2 ^ suc k + r) (2 ^ suc k - 1),
  halve_scaled q k,
  pow-suc 2 k,
  one-le-pow k 2,
  and_mask_fields k q (r / 2) (omega (arith, pow-suc 2 k)),
)

-- A mask of `k` ones keeps the remainder by `2 ^ k`.
pub bit_and_low : (k a : ℕ) → bit_and a (2 ^ k - 1) ≡ a % 2 ^ k
bit_and_low k a = ground (arith, one-le-pow k 2, and_mask_fields k (a / 2 ^ k) (a % 2 ^ k))

bit_xor_none : (n a : ℕ) → a ≤ n → bit_xor a 0 ≡ a
bit_xor_none n zero h = refl
bit_xor_none zero (suc a) h = absurd (omega arith)
bit_xor_none (suc n) (suc a) h =
    omega (
      arith,
      bit_xor_digit (suc a) 0,
      differ_mod (suc a) 0,
      bit_xor_none n (suc a / 2) (omega arith),
    )

-- `^` acts on the bits from `k` on and leaves those below alone.
pub bit_xor_high :
    (k h b l : ℕ) → l < 2 ^ k → bit_xor (h * 2 ^ k + l) (b * 2 ^ k) ≡ bit_xor h b * 2 ^ k + l
bit_xor_high zero h b l p =
    let e : h * 2 ^ 0 + l ≡ h = omega arith in
    let f : b * 2 ^ 0 ≡ b = omega arith in rw (e, f) (omega arith)
bit_xor_high (suc k) h b l p = ground (
  arith,
  bit_xor_digit (h * 2 ^ suc k + l) (b * 2 ^ suc k),
  differ_mod (h * 2 ^ suc k + l) (b * 2 ^ suc k),
  halve_scaled h k,
  halve_scaled b k,
  halve_scaled (bit_xor h b) k,
  pow-suc 2 k,
  bit_xor_high k h b (l / 2) (omega (arith, pow-suc 2 k)),
)

-- `^` does not leave the width of its arguments.
pub bit_xor-lt : (k a b : ℕ) → a < 2 ^ k → b < 2 ^ k → bit_xor a b < 2 ^ k
bit_xor-lt zero a b p q =
    let e : a ≡ 0 = omega arith in let f : b ≡ 0 = omega arith in rw (e, f) (omega arith)
bit_xor-lt (suc k) a b p q = ground (
  arith,
  bit_xor_digit a b,
  differ_mod a b,
  pow-suc 2 k,
  bit_xor-lt k (a / 2) (b / 2) (omega (arith, pow-suc 2 k)) (omega (arith, pow-suc 2 k)),
)

-- The same where the upper operand is known only to be a multiple of `2 ^ k`.
pub bit_or_above : (k a r : ℕ) → a % 2 ^ k ≡ 0 → r < 2 ^ k → bit_or a r ≡ a + r
bit_or_above k a r e h =
    let whole : a / 2 ^ k * 2 ^ k ≡ a = grind arith in
    rw whole at (bit_or_shifted k (a / 2 ^ k) r h)

-- A mask whose low `k` bits are 0 acts on the bits above them.
pub bit_and_shifted : (k a c : ℕ) → bit_and a (c * 2 ^ k) ≡ bit_and (a / 2 ^ k) c * 2 ^ k
bit_and_shifted zero a c =
    let e : c * 2 ^ 0 ≡ c = omega arith in
    let f : a / 2 ^ 0 ≡ a = omega arith in rw (e, f) (omega arith)
bit_and_shifted (suc k) a c =
    let p : 2 ^ suc k ≡ 2 * 2 ^ k = omega (arith, pow-suc 2 k) in
    let q : a / 2 ^ suc k ≡ a / 2 / 2 ^ k = rw p (sym (div-div-eq-div-mul a 2 (2 ^ k))) in
    ground (
      arith,
      bit_and_digit a (c * 2 ^ suc k),
      halve_scaled c k,
      q,
      halve_scaled (bit_and (a / 2 ^ suc k) c) k,
      bit_and_shifted k (a / 2) c,
    )
