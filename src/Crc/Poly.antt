-- ===== src/Crc/Poly.antt =====
-- The table loop against the shift register that defines CRC-16 with the polynomial
-- x^16 + x^12 + x^5 + 1 (initial value 0, no reflection).
use green_right_topst_linux.Base.{
  ℕ, ◌+◌, ◌*◌, ◌/◌, ◌%◌, ◌^◌, ◌<◌, ◌≡◌, refl, ap, ◌∙◌, bit_and, bit_xor, List, [], ◌∷◌, Bool, true,
  ltb, ◌==◌, ==_iff, if◌then◌else◌, arith, get_or, all_below, all_below_sound, bit_and_low,
  bit_xor_high, bit_xor-lt, All,
}
use green_right_topst_linux.Crc.{crc16_table, crc_byte, crc_loop, crc_byte-lt}

-- One clock of the register: shift left, and subtract the polynomial if a one falls out.
shift_register : ℕ → ℕ
shift_register r = if ltb r 0x8000 then 2 * r else bit_xor (2 * r % 2 ^ 16) 0x1021

shift_two : ℕ → ℕ
unfolding shift_register
shift_two r = shift_register (shift_register r)

shift_byte : ℕ → ℕ
unfolding shift_two
shift_byte r = shift_two (shift_two (shift_two (shift_two r)))

-- The register after the bytes of a message, each fed in at the high end.
pub register_loop : ℕ → List ℕ → ℕ
register_loop r [] = r
register_loop r (b ∷ bs) = register_loop (shift_byte (bit_xor r (b * 2 ^ 8))) bs

-- A row of the table against the register, at every low byte.
table_row : ℕ → Bool
unfolding crc16_table shift_byte all_below
table_row t =
    all_below 256
      λ l. shift_byte (t * 256 + l) == bit_xor (get_or crc16_table t 0) (l * 256) % 65536

table_rows : all_below 256 table_row ≡ true
unfolding table_row
table_rows = refl

table_entry :
    (t l : ℕ)
    → t < 256
    → l < 256
    → shift_byte (t * 256 + l) ≡ bit_xor (get_or crc16_table t 0) (l * 256) % 65536
unfolding table_row
table_entry t l ht hl =
    (==_iff _ _).0 (all_below_sound 256 row l (all_below_sound 256 table_row t table_rows ht) hl)
  where
    row : ℕ → Bool
    row x = shift_byte (t * 256 + x) == bit_xor (get_or crc16_table t 0) (x * 256) % 65536

-- One round of the table loop is eight clocks of the register.
crc_byte-shift_byte :
    (crc b : ℕ) → crc < 2 ^ 16 → b < 256 → crc_byte crc b ≡ shift_byte (bit_xor crc (b * 2 ^ 8))
unfolding crc_byte
crc_byte-shift_byte crc b hc hb =
    let high : bit_and (crc / 256) 255 ≡ crc / 256 = omega (arith, bit_and_low 8 (crc / 256)) in
    let low : crc * 256 % 65536 ≡ crc % 256 * 256 = omega arith in
    let split : crc / 256 * 256 + crc % 256 ≡ crc = omega arith in
    let fed = bit_xor_high 8 (crc / 256) b (crc % 256) (omega arith) in
    let t = bit_xor (crc / 256) b in
    let below : t < 256 = bit_xor-lt 8 (crc / 256) b (omega arith) hb in
    let fed' : bit_xor crc (b * 256) ≡ t * 256 + crc % 256 = rw split at fed in
    rw (high, low, fed', table_entry t (crc % 256) below (omega arith))

-- On bytes, from a 16-bit start value, the table-driven checksum is the polynomial division.
pub crc_loop-register_loop :
    (crc : ℕ) (bs : List ℕ)
    → crc < 2 ^ 16
    → All (λ b. b < 256) bs
    → crc_loop crc bs ≡ register_loop crc bs
unfolding crc_loop register_loop
crc_loop-register_loop crc [] hc h = refl
crc_loop-register_loop crc (b ∷ bs) hc h =
    crc_loop-register_loop (crc_byte crc b) bs (crc_byte-lt crc b) h.1
    ∙ ap (λ r. register_loop r bs) (crc_byte-shift_byte crc b hc h.0)
