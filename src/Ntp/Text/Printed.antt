-- ===== src/Ntp/Text/Printed.antt =====
-- What `iso8601` of Codec writes, and `scan_iso8601` of Ntp.Text reads of it.
use green_right_topst_linux.Base.{
  ℕ, ◌+◌, ◌*◌, ◌/◌, ◌%◌, ◌<◌, ◌≡◌, refl, ◌∙◌, ◌∷◌, ◌++◌, some, Str, arith, codes,
}
use green_right_topst_linux.Libc.{
  scan_digits, scan_unsigned, scan_signed, scan_int, scan_byte, Tm, Calendar, padded, skip_space,
}
use green_right_topst_linux.Libc.Padded.{padded-two, padded-three, padded-four}
use green_right_topst_linux.Codec.{iso8601}
use green_right_topst_linux.Ntp.Text.{Fields, scan_field, scan_iso8601}
use green_right_topst_linux.Ntp.Text.Exact.{IsDate}

-- Decimal digits, from the first.
abbrev digit : ℕ → ℕ
digit d = 48 + d

scan_two :
    (a b : ℕ) (rest : Str)
    → a < 10
    → b < 10
    → scan_int 2 ((48 + a) ∷ (48 + b) ∷ rest) ≡ some (a * 10 + b, rest)
unfolding scan_int skip_space scan_signed scan_unsigned scan_digits
scan_two a b rest h k = ground arith

scan_three :
    (a b c : ℕ) (rest : Str)
    → a < 10
    → b < 10
    → c < 10
    → scan_int 3 ((48 + a) ∷ (48 + b) ∷ (48 + c) ∷ rest) ≡ some (a * 100 + b * 10 + c, rest)
unfolding scan_int skip_space scan_signed scan_unsigned scan_digits
scan_three a b c rest h k l = ground arith

scan_four :
    (a b c d : ℕ) (rest : Str)
    → a < 10
    → b < 10
    → c < 10
    → d < 10
    → scan_int 4 ((48 + a) ∷ (48 + b) ∷ (48 + c) ∷ (48 + d) ∷ rest)
      ≡ some (a * 1000 + b * 100 + c * 10 + d, rest)
unfolding scan_int skip_space scan_signed scan_unsigned scan_digits
scan_four a b c d rest h k l m = ground arith

-- The conversions on the digits of a number.
field_two :
    (n b : ℕ) (rest : Str)
    → n < 100
    → scan_field 2 b (digit (n / 10) ∷ digit (n % 10) ∷ b ∷ rest) ≡ some (n, rest)
unfolding scan_field scan_byte
field_two n b rest h =
    rw (scan_two (n / 10) (n % 10) (b ∷ rest) (omega arith) (omega arith)) (ground arith)

field_four :
    (n b : ℕ) (rest : Str)
    → n < 10000
    → scan_field 4 b
        (digit (n / 1000) ∷ digit (n / 100 % 10) ∷ digit (n / 10 % 10) ∷ digit (n % 10) ∷ b ∷ rest)
      ≡ some (n, rest)
unfolding scan_field scan_byte
field_four n b rest h =
    rw
      (scan_four (n / 1000) (n / 100 % 10) (n / 10 % 10) (n % 10) (b ∷ rest) (omega arith)
        (omega arith) (omega arith) (omega arith))
      (ground arith)

int_three :
    (n : ℕ) (rest : Str)
    → n < 1000
    → scan_int 3 (digit (n / 100) ∷ digit (n / 10 % 10) ∷ digit (n % 10) ∷ rest) ≡ some (n, rest)
int_three n rest h =
    scan_three (n / 100) (n / 10 % 10) (n % 10) rest (omega arith) (omega arith) (omega arith)
    ∙ ground arith

-- What follows the year, with another byte in the place of the final "Z".
abbrev pub tail_of : Tm → ℕ → Str → Str
tail_of tm milli rest =
    b'-'
    ∷ digit ((tm.tm_mon + 1) / 10)
    ∷ digit ((tm.tm_mon + 1) % 10)
    ∷ b'-'
    ∷ digit (tm.tm_mday / 10)
    ∷ digit (tm.tm_mday % 10)
    ∷ b'T'
    ∷ digit (tm.tm_hour / 10)
    ∷ digit (tm.tm_hour % 10)
    ∷ b':'
    ∷ digit (tm.tm_min / 10)
    ∷ digit (tm.tm_min % 10)
    ∷ b':'
    ∷ digit (tm.tm_sec / 10)
    ∷ digit (tm.tm_sec % 10)
    ∷ b'.'
    ∷ digit (milli / 100)
    ∷ digit (milli / 10 % 10)
    ∷ digit (milli % 10)
    ∷ rest

pub iso8601_lem :
    (calendar : Calendar) (u : ℕ)
    → let tm = calendar.gmtime (u / 1000) in
      IsDate tm
      → iso8601 calendar u ≡ padded 4 (tm.tm_year + 1900) ++ tail_of tm (u % 1000) (codes "Z")
unfolding iso8601
iso8601_lem calendar u d =
    let tm = calendar.gmtime (u / 1000) in
    rw
      (
        padded-two (tm.tm_mon + 1) (omega (arith, d.mon)),
        padded-two tm.tm_mday (omega (arith, d.mday)),
        padded-two tm.tm_hour (omega (arith, d.hour)),
        padded-two tm.tm_min (omega (arith, d.min)),
        padded-two tm.tm_sec (omega (arith, d.sec)),
        padded-three (u % 1000) (omega arith),
      )
      refl

abbrev pub fields_of : Tm → ℕ → Fields
fields_of tm milli = record {
  year = tm.tm_year + 1900;
  month = tm.tm_mon + 1;
  day = tm.tm_mday;
  hour = tm.tm_hour;
  minute = tm.tm_min;
  second = tm.tm_sec;
  millisecond = milli;
}

-- Of such a text the scanner reads all fields, whatever the last byte is.
pub scan_tail :
    (tm : Tm) (milli : ℕ) (rest : Str)
    → IsDate tm
    → milli < 1000
    → tm.tm_year < 8100
    → scan_iso8601 (padded 4 (tm.tm_year + 1900) ++ tail_of tm milli rest)
      ≡ some (fields_of tm milli)
unfolding scan_iso8601
scan_tail tm milli rest d h k =
    rw
      (
        padded-four (tm.tm_year + 1900) (omega arith) (omega arith),
        field_four (tm.tm_year + 1900) b'-' _ (omega arith),
        field_two (tm.tm_mon + 1) b'-' _ (omega (arith, d.mon)),
        field_two tm.tm_mday b'T' _ (omega (arith, d.mday)),
        field_two tm.tm_hour b':' _ (omega (arith, d.hour)),
        field_two tm.tm_min b':' _ (omega (arith, d.min)),
        field_two tm.tm_sec b'.' _ (omega (arith, d.sec)),
        int_three milli rest h,
      )
      refl
