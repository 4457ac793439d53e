-- ===== src/Ntp/Text/RoundTrip.antt =====
-- `ntp_time_parse_iso8601_utc` of common/ntp_time.c reads what `ntp_time_format_iso8601_utc` writes.
use green_right_topst_linux.Base.{
  ℕ, ◌+◌, ◌/◌, ◌%◌, ◌^◌, ◌≤◌, ◌<◌, ◌≡◌, ◌↔◌, refl, sym, ap, ◌-◌, ◌∙◌, [], ◌∷◌, ◌++◌, true, some,
  ltb, length, length-append, take, arith, Bool-cases, inl, inr, codes,
}
use green_right_topst_linux.Libc.{Tm, Calendar, padded}
use green_right_topst_linux.Libc.Padded.{padded-four, length-padded_four}
use green_right_topst_linux.Codec.{iso8601}
use green_right_topst_linux.Ntp.{ntp_sync_epoch_unix_ms}
use green_right_topst_linux.Ntp.Text.{ntp_time_format_iso8601_utc, ntp_time_parse_iso8601_utc}
use green_right_topst_linux.Ntp.Text.Printed.{tail_of, fields_of, iso8601_lem, scan_tail}
use green_right_topst_linux.Ntp.Text.Exact.{
  some_inj, IsDate, month_of, IsCalendar, ntp_time_parse_iso8601_utc-Names,
}

length_year : (n : ℕ) → 1900 ≤ n → (length (padded 4 n) ≡ 4) ↔ (n < 10000)
length_year n h = elim (Bool-cases (ltb n 10000)) [
  | inl t ↦
      let four = padded-four n (omega arith) (ground arith) in
      (λ e. ground arith, λ k. rw four refl)
  | inr t ↦
      let five = length-padded_four n (ground arith) in
      (λ e. absurd (omega (arith, five)), λ k. absurd (ground arith))
]

same_seconds : {a b : ℕ × Tm} → some a ≡ some b → a.0 ≡ b.0
same_seconds e = ap (λ (q : ℕ × Tm). q.0) (some_inj e)

month_again : (y m : ℕ) → month_of y m ≡ month_of (y + 1900 - 1900) (m + 1 - 1)
month_again y m =
    let year : y + 1900 - 1900 ≡ y = omega arith in
    let month : m + 1 - 1 ≡ m = omega arith in rw (year, month) refl

module _ (calendar : Calendar) (is : IsCalendar calendar) (ts : ℕ)
    (fits : ntp_sync_epoch_unix_ms + ts < 2 ^ 64) where
  -- The moment in Unix time, and its date.
  abbrev moment : ℕ
  moment = ntp_sync_epoch_unix_ms + ts

  abbrev date : Tm
  date = calendar.gmtime (moment / 1000)

  date-IsDate : IsDate date
  date-IsDate = is.dates (moment / 1000) (omega arith)

  text_lem :
      iso8601 calendar ((ntp_sync_epoch_unix_ms + ts) % 2 ^ 64)
      ≡ padded 4 (date.tm_year + 1900) ++ tail_of date (moment % 1000) (codes "Z")
  text_lem =
      let whole : (ntp_sync_epoch_unix_ms + ts) % 2 ^ 64 ≡ moment = omega arith in
      rw whole (iso8601_lem calendar moment date-IsDate)

  -- Formatting succeeds exactly for the years up to 9999.
  pub ntp_time_format_iso8601_utc_fits :
      ((ntp_time_format_iso8601_utc calendar ts).1 ≡ true)
      ↔ ((calendar.gmtime ((ntp_sync_epoch_unix_ms + ts) / 1000)).tm_year + 1900 < 10000)
  unfolding ntp_time_format_iso8601_utc
  ntp_time_format_iso8601_utc_fits =
      let year = padded 4 (date.tm_year + 1900) in
      let sum = length-append year (tail_of date (moment % 1000) (codes "Z")) in
      let (fwd, back) = length_year (date.tm_year + 1900) (omega arith) in
      rw text_lem (λ e. fwd (ground (arith, sum)), λ h. ground (arith, sum, back h))

  parses :
      (last : ℕ)
      → date.tm_year < 8100
      → ntp_time_parse_iso8601_utc calendar
          (padded 4 (date.tm_year + 1900) ++ tail_of date (moment % 1000) (last ∷ []))
        ≡ some ts
  parses last h =
      let d = date-IsDate in
      let year = padded 4 (date.tm_year + 1900) in
      let four = (length_year (date.tm_year + 1900) (omega arith)).1 (omega arith) in
      let text = year ++ tail_of date (moment % 1000) (last ∷ []) in
      let (first, early, starts) = is.month date _ d h (is.back (moment / 1000) (omega arith)) in
      let counted = is.count date first d (omega arith) starts in
      let sum = same_seconds (sym (is.back (moment / 1000) (omega arith)) ∙ counted) in
      (ntp_time_parse_iso8601_utc-Names calendar is text ts).1 (record {
        long = omega (arith, length-append year (tail_of date (moment % 1000) (last ∷ [])), four);
        fields = fields_of date (moment % 1000);
        scans = scan_tail date (moment % 1000) (last ∷ []) d (omega arith) h;
        in_range = record {
          month = omega (arith, d.mon);
          day = d.mday;
          hour = d.hour;
          minute = d.min;
          second = d.sec;
          millisecond = omega arith;
        };
        since_1900 = omega arith;
        first = first;
        starts = starts ∙ month_again date.tm_year date.tm_mon;
        fits = fits;
        counts = omega (arith, sum);
      })

  written :
      date.tm_year < 8100
      → (ntp_time_format_iso8601_utc calendar ts).0
        ≡ padded 4 (date.tm_year + 1900) ++ tail_of date (moment % 1000) (codes "Z")
  unfolding ntp_time_format_iso8601_utc
  written h = rw (text_lem, padded-four (date.tm_year + 1900) (omega arith) (omega arith)) refl

  year_in : (ntp_time_format_iso8601_utc calendar ts).1 ≡ true → date.tm_year < 8100
  year_in ok = omega (arith, ntp_time_format_iso8601_utc_fits.0 ok)

  -- A text that was formatted with success is parsed as the very moment, with any byte in the place of
  -- its final "Z", if `gmtime_r` and `timegm` do what is documented of them and the moment in Unix
  -- milliseconds is below 2^64.
  pub parse-format_any_last :
      (last : ℕ)
      → (ntp_time_format_iso8601_utc calendar ts).1 ≡ true
      → ntp_time_parse_iso8601_utc calendar
          (take 23 (ntp_time_format_iso8601_utc calendar ts).0 ++ last ∷ [])
        ≡ some ts
  parse-format_any_last last ok =
      let h = year_in ok in
      let digits = padded-four (date.tm_year + 1900) (omega arith) (omega arith) in
      let same : take 23
              (padded 4 (date.tm_year + 1900) ++ tail_of date (moment % 1000) (codes "Z"))
            ++ last ∷ []
          ≡ padded 4 (date.tm_year + 1900) ++ tail_of date (moment % 1000) (last ∷ []) =
        rw digits refl in
      rw (written h, same) (parses last h)

  -- A text that was formatted with success is parsed as the very moment that was formatted, if `gmtime_r`
  -- and `timegm` do what is documented of them and the moment in Unix milliseconds is below 2^64.
  pub parse-format :
      (ntp_time_format_iso8601_utc calendar ts).1 ≡ true
      → ntp_time_parse_iso8601_utc calendar (ntp_time_format_iso8601_utc calendar ts).0 ≡ some ts
  parse-format ok = let h = year_in ok in rw (written h) (parses b'Z' h)
