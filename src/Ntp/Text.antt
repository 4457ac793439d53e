-- ===== src/Ntp/Text.antt =====
-- common/ntp_time.c: the readings of the system clock, and times as ISO 8601 text. `gmtime_r` and
-- `timegm` are a `Calendar`. An `int` is its 32-bit pattern: a negative one is above every bound that
-- it is compared with, so that one comparison of patterns serves for the two of the source.
mod Scan
pub mod Exact
mod Printed
pub mod RoundTrip
use green_right_topst_linux.Base.{
  ℕ, zero, suc, ◌+◌, ◌-◌, ◌*◌, ◌/◌, ◌%◌, ◌^◌, [], ◌∷◌, Bool, true, false, ◌&&◌, Option, none, some,
  ◌>>=◌, ltb, leb, ◌==◌, if◌then◌else◌, length, take, Str,
}
use green_right_topst_linux.Libc.{Tm, Calendar, scan_int, scan_byte}
use green_right_topst_linux.Codec.{iso8601}
use green_right_topst_linux.Ntp.{ntp_sync_epoch_unix_ms}

abbrev pub ntp_time_iso8601_utc_strlen : ℕ
ntp_time_iso8601_utc_strlen = 24

-- `clock_gettime` fails (`none`), or gives seconds and nanoseconds.
unfoldable pub ntp_time_now_ms : Option (ℕ × ℕ) → ℕ
ntp_time_now_ms none = 0
ntp_time_now_ms (some (tv_sec, tv_nsec)) = (tv_sec * 1000 + tv_nsec / 1000000) % 2 ^ 64

-- What is written to `out`, and the result. The format is that of `iso8601`.
unfoldable pub ntp_time_format_iso8601_utc : Calendar → ℕ → Str × Bool
ntp_time_format_iso8601_utc calendar timestamp_epoch_ms =
    let text = iso8601 calendar ((ntp_sync_epoch_unix_ms + timestamp_epoch_ms) % 2 ^ 64) in
    (take ntp_time_iso8601_utc_strlen text, length text == ntp_time_iso8601_utc_strlen)

-- The variables that `sscanf` writes.
pub record Fields : Type 0 where
  pub year : ℕ
  pub month : ℕ
  pub day : ℕ
  pub hour : ℕ
  pub minute : ℕ
  pub second : ℕ
  pub millisecond : ℕ

-- `%<width>d` and the byte behind it.
unfoldable pub scan_field : ℕ → ℕ → Str → Option (ℕ × Str)
scan_field width b s = do field ← scan_int width s; rest ← scan_byte b field.1; some (field.0, rest)

-- `sscanf` with seven conversions made. The final "Z" of the format is behind the last of them, so that
-- it has no part in the number of conversions.
unfoldable pub scan_iso8601 : Str → Option Fields
scan_iso8601 s = do
  year ← scan_field 4 b'-' s
  month ← scan_field 2 b'-' year.1
  day ← scan_field 2 b'T' month.1
  hour ← scan_field 2 b':' day.1
  minute ← scan_field 2 b':' hour.1
  second ← scan_field 2 b'.' minute.1
  millisecond ← scan_int 3 second.1
  some (record {
    year = year.0;
    month = month.0;
    day = day.0;
    hour = hour.0;
    minute = minute.0;
    second = second.0;
    millisecond = millisecond.0;
  })

abbrev pub in_range : ℕ → ℕ → ℕ → Bool
in_range lo hi n = leb lo n && leb n hi

unfoldable pub are_in_range : Fields → Bool
are_in_range f =
    in_range 1 12 f.month
    && in_range 1 31 f.day
    && in_range 0 23 f.hour
    && in_range 0 59 f.minute
    && in_range 0 59 f.second
    && in_range 0 999 f.millisecond

-- `parsed`, as it is given to `timegm`.
abbrev pub tm_of : Fields → Tm
tm_of f = record {
  tm_year = (f.year + 2 ^ 32 - 1900) % 2 ^ 32;
  tm_mon = (f.month + 2 ^ 32 - 1) % 2 ^ 32;
  tm_mday = f.day;
  tm_hour = f.hour;
  tm_min = f.minute;
  tm_sec = f.second;
}

unfoldable pub same_tm : Tm → Tm → Bool
same_tm a b =
    a.tm_year == b.tm_year
    && a.tm_mon == b.tm_mon
    && a.tm_mday == b.tm_mday
    && a.tm_hour == b.tm_hour
    && a.tm_min == b.tm_min
    && a.tm_sec == b.tm_sec

-- From `timegm` on, which has normalised `parsed` in place before it is compared with `verified`.
unfoldable pub moment_of : Calendar → Fields → ℕ × Tm → Option ℕ
moment_of calendar f (seconds, parsed) =
    let unix_ms = (seconds * 1000 + f.millisecond) % 2 ^ 64 in
    if same_tm (calendar.gmtime seconds) parsed
    then if ltb unix_ms ntp_sync_epoch_unix_ms
      then none
      else some (unix_ms - ntp_sync_epoch_unix_ms)
    else none

unfoldable pub checked_moment : Calendar → Fields → Option ℕ
checked_moment calendar f =
    if are_in_range f
    then (do result ← calendar.timegm (tm_of f); moment_of calendar f result)
    else none

unfoldable pub ntp_time_parse_iso8601_utc : Calendar → Str → Option ℕ
ntp_time_parse_iso8601_utc calendar iso8601_utc =
    if length iso8601_utc == ntp_time_iso8601_utc_strlen
    then (do fields ← scan_iso8601 iso8601_utc; checked_moment calendar fields)
    else none
