-- ===== src/Libc.antt =====
-- The functions of the C library that the code uses on text and times, by their documentation.
pub mod Number
pub mod Padded
use green_right_topst_linux.Base.{
  ℕ, zero, suc, ◌+◌, ◌-◌, ◌*◌, ◌/◌, ◌%◌, ◌^◌, List, [], ◌∷◌, ◌++◌, Bool, true, false, ◌&&◌, ◌||◌,
  Option, none, some, ltb, leb, ◌==◌, if◌then◌else◌, length, take, drop, replicate, Str, str_eq,
}

-- `strtol(s, NULL, 10)`: white space, a sign, digits, up to the limits of a 64-bit `long`. A negative
-- result is `(true, magnitude)`.
abbrev pub is_digit : ℕ → Bool
is_digit c = leb 48 c && leb c 57

abbrev pub is_space : ℕ → Bool
is_space c = c == 32 || (leb 9 c && leb c 13)

unfoldable pub digits : ℕ → Str → ℕ
digits acc [] = acc
digits acc (c ∷ s) = let rest = digits (acc * 10 + (c - 48)) s in if is_digit c then rest else acc

abbrev pub signed_digits : Str → Bool × ℕ
signed_digits [] = (false, 0)
signed_digits (c ∷ s) =
    if c == 45
    then (true, digits 0 s)
    else if c == 43
    then (false, digits 0 s)
    else (false, digits 0 (c ∷ s))

unfoldable pub skip_space : Str → Str
skip_space [] = []
skip_space (c ∷ s) = if is_space c then skip_space s else c ∷ s

abbrev pub clamp_long : Bool × ℕ → Bool × ℕ
clamp_long (true, n) = if ltb (2 ^ 63) n then (true, 2 ^ 63) else (true, n)
clamp_long (false, n) = if leb (2 ^ 63) n then (false, 2 ^ 63 - 1) else (false, n)

unfoldable pub strtol : Str → Bool × ℕ
strtol s = clamp_long (signed_digits (skip_space s))

-- Whether `strtol` reads a digit at all, and so moves its end pointer.
abbrev pub starts_with_digit : Str → Bool
starts_with_digit [] = false
starts_with_digit (c ∷ s) = is_digit c

abbrev pub past_sign : Str → Str
past_sign [] = []
past_sign (c ∷ s) = if c == 45 || c == 43 then s else c ∷ s

unfoldable pub strtol_reads : Str → Bool
strtol_reads s = starts_with_digit (past_sign (skip_space s))

-- `strncmp(s, prefix, strlen(prefix)) == 0`
unfoldable pub has_prefix : Str → Str → Bool
has_prefix prefix s = str_eq (take (length prefix) s) prefix

-- `strstr`: the text from the first occurrence of the pattern on. A pointer into a text is the rest of the
-- text from there, so that of two pointers into one text the lower is the longer rest.
unfoldable pub strstr : Str → Str → Option Str
strstr [] pattern = if has_prefix pattern [] then some [] else none
strstr (c ∷ s) pattern =
    let later = strstr s pattern in if has_prefix pattern (c ∷ s) then some (c ∷ s) else later

-- `strchr`, of another byte than the terminator
unfoldable pub strchr : Str → ℕ → Option Str
strchr [] c = none
strchr (x ∷ s) c = let later = strchr s c in if x == c then some (x ∷ s) else later

-- `atoi`, the low 32 bits of what `strtol` gives: an `int` is its 32 bits here.
abbrev pub int_bits : Bool × ℕ → ℕ
int_bits (false, n) = n % 2 ^ 32
int_bits (true, n) = (2 ^ 32 - n % 2 ^ 32) % 2 ^ 32

unfoldable pub atoi : Str → ℕ
atoi s = int_bits (strtol s)

-- The conversion `%<width>d` of `sscanf`: white space is passed over, then at most `width` bytes are
-- read, a sign and at least one digit. It gives the number and the rest of the text.
unfoldable pub scan_digits : ℕ → ℕ → Str → ℕ × Str
scan_digits zero acc s = (acc, s)
scan_digits (suc width) acc [] = (acc, [])
scan_digits (suc width) acc (c ∷ s) =
    let rest = scan_digits width (acc * 10 + (c - 48)) s in
    if is_digit c then rest else (acc, c ∷ s)

abbrev pub signed_int : Bool → ℕ × Str → ℕ × Str
signed_int negative (n, rest) = (int_bits (negative, n), rest)

unfoldable pub scan_unsigned : Bool → ℕ → Str → Option (ℕ × Str)
scan_unsigned negative width s =
    if ltb 0 width && starts_with_digit s
    then some (signed_int negative (scan_digits width 0 s))
    else none

unfoldable pub scan_signed : ℕ → Str → Option (ℕ × Str)
scan_signed width [] = none
scan_signed width (c ∷ s) =
    if c == 45
    then scan_unsigned true (width - 1) s
    else if c == 43
    then scan_unsigned false (width - 1) s
    else scan_unsigned false width (c ∷ s)

unfoldable pub scan_int : ℕ → Str → Option (ℕ × Str)
scan_int width s = scan_signed width (skip_space s)

-- A byte of the format that stands for itself.
unfoldable pub scan_byte : ℕ → Str → Option Str
scan_byte b [] = none
scan_byte b (c ∷ s) = if c == b then some s else none

-- The decimal digits of a number of at most 20 digits, which every `uint64_t` is.
unfoldable pub decimal_loop : ℕ → ℕ → Str → Str
decimal_loop zero n out = out
decimal_loop (suc fuel) n out =
    let longer = decimal_loop fuel (n / 10) ((48 + n % 10) ∷ out) in
    if ltb n 10 then (48 + n) ∷ out else longer

-- `%u`, `%llu`
unfoldable pub decimal : ℕ → Str
decimal n = decimal_loop 20 n []

-- `%0<width>d` of a number that is not negative.
unfoldable pub padded : ℕ → ℕ → Str
padded width n = replicate (width - length (decimal n)) 48 ++ decimal n

-- `struct tm`, with the fields that are read.
pub record Tm : Type 0 where
  pub tm_year : ℕ
  pub tm_mon : ℕ
  pub tm_mday : ℕ
  pub tm_hour : ℕ
  pub tm_min : ℕ
  pub tm_sec : ℕ

-- `gmtime_r` and `timegm`, on seconds since 1970; a negative result of `timegm` is `none`, another one comes
-- with the normalised fields that it writes back to its argument. The seconds of a 64-bit number of
-- milliseconds never overflow the year, so that `gmtime_r` does not fail.
pub record Calendar : Type 0 where
  pub gmtime : ℕ → Tm
  pub timegm : Tm → Option (ℕ × Tm)
