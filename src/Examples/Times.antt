-- ===== src/Examples/Times.antt =====
-- Times as text, on a calendar whose months have 30 days.
use green_right_topst_linux.Base.{
  ap, false, ℕ, ◌≤◌, ◌<◌, ◌+◌, ◌-◌, ◌*◌, ◌/◌, ◌%◌, ◌^◌, ◌≡◌, ◌↔◌, refl, [], ◌∷◌, ◌++◌, true, ◌||◌,
  none, some, ltb, leb, if◌then◌else◌, arith, take, codes,
}
use green_right_topst_linux.Libc.{Tm, Calendar}
use green_right_topst_linux.Ntp.Text.{ntp_time_format_iso8601_utc, ntp_time_parse_iso8601_utc}
use green_right_topst_linux.Ntp.Text.Exact.{
  IsDate, month_of, elapsed, IsCalendar, Names, ntp_time_parse_iso8601_utc-Names,
}
use green_right_topst_linux.Ntp.Text.RoundTrip.{
  ntp_time_format_iso8601_utc_fits, parse-format, parse-format_any_last,
}

-- The seconds of a date.
seconds_of : Tm → ℕ
seconds_of tm =
    (((tm.tm_year - 70) * 360 + tm.tm_mon * 30 + (tm.tm_mday - 1)) * 24 + tm.tm_hour) * 3600
    + tm.tm_min * 60
    + tm.tm_sec

date_of : ℕ → Tm
date_of s = record {
  tm_year = 70 + s / 86400 / 360;
  tm_mon = s / 86400 % 360 / 30;
  tm_mday = s / 86400 % 30 + 1;
  tm_hour = s / 3600 % 24;
  tm_min = s / 60 % 60;
  tm_sec = s % 60;
}

short_months : Calendar
short_months = record {
  gmtime = date_of;
  timegm = λ tm.
      if ltb tm.tm_year 70 || leb (2 ^ 31) tm.tm_year
      then none
      else some (seconds_of tm, date_of (seconds_of tm));
}

start_of : (y m : ℕ) → 70 ≤ y → m < 12 → date_of (((y - 70) * 360 + m * 30) * 86400) ≡ month_of y m
unfolding date_of
start_of y m h k = ground arith

date_of-seconds :
    (tm : Tm) (first : ℕ)
    → IsDate tm
    → first < 2 ^ 55
    → date_of first ≡ month_of tm.tm_year tm.tm_mon
    → (seconds_of tm ≡ first + elapsed tm.tm_mday tm.tm_hour tm.tm_min tm.tm_sec)
      × ((ltb tm.tm_year 70 || leb (2 ^ 31) tm.tm_year) ≡ false)
unfolding date_of seconds_of
date_of-seconds tm first d h e =
    let year = ap (λ (t : Tm). t.tm_year) e in
    let mon = ap (λ (t : Tm). t.tm_mon) e in
    let mday = ap (λ (t : Tm). t.tm_mday) e in
    let hour = ap (λ (t : Tm). t.tm_hour) e in
    let min = ap (λ (t : Tm). t.tm_min) e in
    let sec = ap (λ (t : Tm). t.tm_sec) e in
    (omega (arith, year, mon, mday, hour, min, sec, d.mday), ground (arith, year))

short_months-IsCalendar : IsCalendar short_months
unfolding short_months date_of seconds_of
short_months-IsCalendar = record {
  dates = λ s h. record {
    mon = omega arith;
    mday = omega arith;
    hour = omega arith;
    min = omega arith;
    sec = omega arith;
  };
  back = λ s h.
      let same : seconds_of (date_of s) ≡ s = omega arith in
      let late : (ltb (date_of s).tm_year 70 || leb (2 ^ 31) (date_of s).tm_year) ≡ false =
        ground arith in
      simp (late, same) refl;
  after_1900 = λ tm r d h. ground arith;
  month = λ tm r d y h. (
    ((tm.tm_year - 70) * 360 + tm.tm_mon * 30) * 86400,
    omega (arith, d.mon),
    start_of tm.tm_year tm.tm_mon (ground arith) d.mon,
  );
  count =
      λ tm first d h e. let (sum, late) = date_of-seconds tm first d h e in simp (late, sum) refl;
}

formatted : (ntp_time_format_iso8601_utc short_months 1000).1 ≡ true
unfolding short_months date_of
formatted =
    (ntp_time_format_iso8601_utc_fits short_months short_months-IsCalendar 1000 (omega arith)).1
      (omega arith)

parse-format_example :
    ntp_time_parse_iso8601_utc short_months (ntp_time_format_iso8601_utc short_months 1000).0
    ≡ some 1000
parse-format_example =
    parse-format short_months short_months-IsCalendar 1000 (omega arith) formatted

parse-format_any_last_example :
    ntp_time_parse_iso8601_utc short_months
      (take 23 (ntp_time_format_iso8601_utc short_months 1000).0 ++ b'?' ∷ [])
    ≡ some 1000
parse-format_any_last_example =
    parse-format_any_last short_months short_months-IsCalendar 1000 (omega arith) b'?' formatted

ntp_time_parse_iso8601_utc-Names_example :
    (ntp_time_parse_iso8601_utc short_months (codes "2026-10-25T00:00:01.000Z") ≡ some 1000)
    ↔ Names short_months (codes "2026-10-25T00:00:01.000Z") 1000
ntp_time_parse_iso8601_utc-Names_example =
    ntp_time_parse_iso8601_utc-Names short_months short_months-IsCalendar
      (codes "2026-10-25T00:00:01.000Z") 1000

-- The moment and its text.
text_of_moment :
    ntp_time_format_iso8601_utc short_months 1000 ≡ (codes "2026-10-25T00:00:01.000Z", true)
unfolding ntp_time_format_iso8601_utc short_months date_of green_right_topst_linux.Codec.iso8601
    green_right_topst_linux.Libc.padded green_right_topst_linux.Libc.decimal
    green_right_topst_linux.Libc.decimal_loop
text_of_moment = refl

-- A day that the calendar does not have is the first of the next month.
next_month :
    ntp_time_parse_iso8601_utc short_months (codes "2026-10-31T00:00:00.000Z") ≡ some 518400000
unfolding ntp_time_parse_iso8601_utc short_months date_of seconds_of
    green_right_topst_linux.Ntp.Text.scan_iso8601 green_right_topst_linux.Ntp.Text.scan_field
    green_right_topst_linux.Ntp.Text.checked_moment green_right_topst_linux.Ntp.Text.are_in_range
    green_right_topst_linux.Ntp.Text.moment_of green_right_topst_linux.Ntp.Text.same_tm
    green_right_topst_linux.Libc.scan_int green_right_topst_linux.Libc.scan_signed
    green_right_topst_linux.Libc.skip_space green_right_topst_linux.Libc.scan_unsigned
    green_right_topst_linux.Libc.scan_byte green_right_topst_linux.Libc.scan_digits
next_month = refl
