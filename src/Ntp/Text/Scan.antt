-- ===== src/Ntp/Text/Scan.antt =====
-- What `scan_iso8601` of Ntp.Text gives for the year and the month.
use green_right_topst_linux.Base.{
  ℕ, ◌+◌, ◌-◌, ◌*◌, ◌^◌, ◌≤◌, ◌<◌, ◌≡◌, ap, subst, ◌∙◌, Bool, true, false, ◌&&◌, suc, [], ◌∷◌,
  Option, none, some, >>=-eq-some, ltb, ◌==◌, Str, arith, Bool-cases, inl, inr,
}
use green_right_topst_linux.Libc.{
  signed_int, scan_digits, scan_unsigned, scan_signed, scan_int, scan_byte, skip_space,
  starts_with_digit, int_bits,
}
use green_right_topst_linux.Ntp.Text.{Fields, scan_field, scan_iso8601}

-- One digit of `scan_digits`.
digits_step :
    (width m bound acc : ℕ) (s : Str)
    → acc < m
    → m ≤ bound
    → ((a : ℕ) (r : Str) → a < m * 10 → (scan_digits width a r).0 < bound)
    → (scan_digits (suc width) acc s).0 < bound
unfolding scan_digits
digits_step width m bound acc [] h k rest = omega arith
digits_step width m bound acc (c ∷ s) h k rest = ground (arith, rest (acc * 10 + (c - 48)) s)

last_digit : (a : ℕ) (r : Str) → a < 1000 → (scan_digits 1 a r).0 < 10000
unfolding scan_digits
last_digit a r h = digits_step 0 1000 10000 a r h (omega arith) (λ a' r' h'. h')

three_digits : (a : ℕ) (r : Str) → a < 10 → (scan_digits 3 a r).0 < 10000
three_digits a r h =
    digits_step 2 10 10000 a r h (omega arith)
      (λ a' r' h'. digits_step 1 100 10000 a' r' h' (omega arith) last_digit)

four_digits : (r : Str) → (scan_digits 4 0 r).0 < 10000
four_digits r = digits_step 3 1 10000 0 r (omega arith) (omega arith) three_digits

-- A number of at most four bytes, as the pattern of an `int`.
abbrev pub IsShort : ℕ → Type 0
IsShort n = (n < 2 ^ 32) × (n < 2 ^ 32 - 10000 → n < 10000)

int_bits-IsShort : (negative : Bool) (n : ℕ) → n < 10000 → IsShort (int_bits (negative, n))
int_bits-IsShort true n h = omega arith
int_bits-IsShort false n h = omega arith

unsigned-IsShort :
    (negative : Bool) (width : ℕ) (s : Str) {r : ℕ × Str}
    → (scan_digits width 0 s).0 < 10000
    → scan_unsigned negative width s ≡ some r
    → IsShort r.0
unfolding scan_unsigned
unsigned-IsShort negative width s {r} h e = elim (Bool-cases (ltb 0 width && starts_with_digit s)) [
  | inl t ↦
      let found : some (signed_int negative (scan_digits width 0 s)) ≡ some r = rw t at e in
      let same : signed_int negative (scan_digits width 0 s) ≡ r = cc in
      subst (λ (q : ℕ × Str). IsShort q.0) same (int_bits-IsShort negative _ h)
  | inr t ↦ absurd (let no : none ≡ some r = rw t at e in cc)
]

signed-IsShort : (s : Str) {r : ℕ × Str} → scan_signed 4 s ≡ some r → IsShort r.0
unfolding scan_signed
signed-IsShort [] e = cc
signed-IsShort (c ∷ s) {r} e = elim (Bool-cases (c == 45)) [
  | inl t ↦ unsigned-IsShort true 3 s (three_digits 0 s (omega arith)) (rw t at e)
  | inr t ↦ elim (Bool-cases (c == 43)) [
    | inl u ↦ unsigned-IsShort false 3 s (three_digits 0 s (omega arith)) (rw (t, u) at e)
    | inr u ↦ unsigned-IsShort false 4 (c ∷ s) (four_digits (c ∷ s)) (rw (t, u) at e)
  ]
]

int_bits-lt : (negative : Bool) (n : ℕ) → int_bits (negative, n) < 2 ^ 32
int_bits-lt true n = omega arith
int_bits-lt false n = omega arith

unsigned-lt :
    (negative : Bool) (width : ℕ) (s : Str) {r : ℕ × Str}
    → scan_unsigned negative width s ≡ some r
    → r.0 < 2 ^ 32
unfolding scan_unsigned
unsigned-lt negative width s {r} e = elim (Bool-cases (ltb 0 width && starts_with_digit s)) [
  | inl t ↦
      let found : some (signed_int negative (scan_digits width 0 s)) ≡ some r = rw t at e in
      let same : signed_int negative (scan_digits width 0 s) ≡ r = cc in
      subst (λ (q : ℕ × Str). q.0 < 2 ^ 32) same (int_bits-lt negative _)
  | inr t ↦ absurd (let no : none ≡ some r = rw t at e in cc)
]

signed-lt : (width : ℕ) (s : Str) {r : ℕ × Str} → scan_signed width s ≡ some r → r.0 < 2 ^ 32
unfolding scan_signed
signed-lt width [] e = cc
signed-lt width (c ∷ s) {r} e = elim (Bool-cases (c == 45)) [
  | inl t ↦ unsigned-lt true (width - 1) s (rw t at e)
  | inr t ↦ elim (Bool-cases (c == 43)) [
    | inl u ↦ unsigned-lt false (width - 1) s (rw (t, u) at e)
    | inr u ↦ unsigned-lt false width (c ∷ s) (rw (t, u) at e)
  ]
]

field_lem :
    (width b : ℕ) (s : Str) {r : ℕ × Str}
    → scan_field width b s ≡ some r
    → (q : ℕ × Str) × (scan_int width s ≡ some q) × (q.0 ≡ r.0)
unfolding scan_field
field_lem width b s {r} e =
    let (q, found, e') = >>=-eq-some (scan_int width s) _ e in
    let (rest, byte, e'') = >>=-eq-some (scan_byte b q.1) _ e' in (q, found, cc)

-- A field of what was read.
abbrev read : (Fields → ℕ) → Option Fields → ℕ
read field none = 0
read field (some f) = field f

-- The year and the month that are read.
pub scan_lem :
    (s : Str) {f : Fields} → scan_iso8601 s ≡ some f → IsShort f.year × (f.month < 2 ^ 32)
unfolding scan_iso8601 scan_int
scan_lem s {f} e =
    let (year, found_year, e1) = >>=-eq-some (scan_field 4 b'-' s) _ e in
    let (month, found_month, e2) = >>=-eq-some (scan_field 2 b'-' year.1) _ e1 in
    let (day, found_day, e3) = >>=-eq-some (scan_field 2 b'T' month.1) _ e2 in
    let (hour, found_hour, e4) = >>=-eq-some (scan_field 2 b':' day.1) _ e3 in
    let (minute, found_minute, e5) = >>=-eq-some (scan_field 2 b':' hour.1) _ e4 in
    let (second, found_second, e6) = >>=-eq-some (scan_field 2 b'.' minute.1) _ e5 in
    let (milli, found_milli, e7) = >>=-eq-some (scan_int 3 second.1) _ e6 in
    let (y, scan_y, same_y) = field_lem 4 b'-' s found_year in
    let (m, scan_m, same_m) = field_lem 2 b'-' year.1 found_month in
    let at_year : y.0 ≡ f.year = same_y ∙ ap (read Fields.year) e7 in
    let at_month : m.0 ≡ f.month = same_m ∙ ap (read Fields.month) e7 in
    (
      subst IsShort at_year (signed-IsShort (skip_space s) scan_y),
      subst (λ (n : ℕ). n < 2 ^ 32) at_month (signed-lt 2 (skip_space year.1) scan_m),
    )
