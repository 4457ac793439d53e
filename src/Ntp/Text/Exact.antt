-- ===== src/Ntp/Text/Exact.antt =====
-- Which texts `ntp_time_parse_iso8601_utc` of common/ntp_time.c accepts, and as what.
use green_right_topst_linux.Base.{
  ℕ, ◌+◌, ◌-◌, ◌*◌, ◌%◌, ◌^◌, ◌≤◌, ◌<◌, ◌≡◌, ◌↔◌, refl, sym, subst, ◌∙◌, Bool, true, false, Option,
  none, some, ◌>>=◌, >>=-eq-some, ltb, ◌==◌, if◌then◌else◌, length, Str, arith,
}
use green_right_topst_linux.Libc.{Tm, Calendar}
use green_right_topst_linux.Ntp.{ntp_sync_epoch_unix_ms}
use green_right_topst_linux.Ntp.Text.Scan.{IsShort, scan_lem}
use green_right_topst_linux.Ntp.Text.{
  Fields, scan_iso8601, are_in_range, tm_of, same_tm, moment_of, checked_moment,
  ntp_time_parse_iso8601_utc,
}

-- The ranges of the fields of a `struct tm` in UTC.
pub record IsDate (tm : Tm) : Type 0 where
  pub mon : tm.tm_mon < 12
  pub mday : (1 ≤ tm.tm_mday) × (tm.tm_mday ≤ 31)
  pub hour : tm.tm_hour < 24
  pub min : tm.tm_min < 60
  pub sec : tm.tm_sec < 60

-- The seconds from the first midnight of a month to a time of one of its days, the first of which is 1.
abbrev pub elapsed : ℕ → ℕ → ℕ → ℕ → ℕ
elapsed day hour minute second = (day - 1) * 86400 + hour * 3600 + minute * 60 + second

-- The first midnight of a month.
abbrev pub month_of : ℕ → ℕ → Tm
month_of tm_year tm_mon = record {
  tm_year = tm_year;
  tm_mon = tm_mon;
  tm_mday = 1;
  tm_hour = 0;
  tm_min = 0;
  tm_sec = 0;
}

-- What is documented of `gmtime_r` and `timegm`, for the seconds of a 64-bit number of milliseconds.
-- `timegm` undoes `gmtime_r`. A date with its fields in their ranges is none of 1970 or later if its year
-- is before 1900; if it is one of 1970 to 9999, so is the first midnight of its month, before 2^40 s. A
-- day counts from that midnight on, even if it is past the end of the month, as 40 October is 9
-- November, and the argument is normalised to the moment.
pub record IsCalendar (calendar : Calendar) : Type 0 where
  pub dates : (s : ℕ) → s < 2 ^ 55 → IsDate (calendar.gmtime s)
  pub back :
      (s : ℕ) → s < 2 ^ 55 → calendar.timegm (calendar.gmtime s) ≡ some (s, calendar.gmtime s)
  pub after_1900 :
      (tm : Tm) (r : ℕ × Tm) → IsDate tm → calendar.timegm tm ≡ some r → tm.tm_year < 2 ^ 31
  pub month :
      (tm : Tm) (r : ℕ × Tm)
      → IsDate tm
      → tm.tm_year < 8100
      → calendar.timegm tm ≡ some r
      → (first : ℕ) × (first < 2 ^ 40) × (calendar.gmtime first ≡ month_of tm.tm_year tm.tm_mon)
  pub count :
      (tm : Tm) (first : ℕ)
      → IsDate tm
      → first < 2 ^ 55
      → calendar.gmtime first ≡ month_of tm.tm_year tm.tm_mon
      → let s = first + elapsed tm.tm_mday tm.tm_hour tm.tm_min tm.tm_sec in
        calendar.timegm tm ≡ some (s, calendar.gmtime s)

-- The ranges that the source checks.
pub record IsInRange (f : Fields) : Type 0 where
  pub month : (1 ≤ f.month) × (f.month ≤ 12)
  pub day : (1 ≤ f.day) × (f.day ≤ 31)
  pub hour : f.hour < 24
  pub minute : f.minute < 60
  pub second : f.second < 60
  pub millisecond : f.millisecond < 1000

-- The text has 24 bytes; the fields that are read from it are in their ranges; and the moment `t` is that
-- many days, hours, minutes, seconds and milliseconds after the first midnight of the year and month.
pub record Names (calendar : Calendar) (s : Str) (t : ℕ) : Type 0 where
  pub long : length s ≡ 24
  pub fields : Fields
  pub scans : scan_iso8601 s ≡ some fields
  pub in_range : IsInRange fields
  pub since_1900 : 1900 ≤ fields.year
  pub first : ℕ
  pub starts : calendar.gmtime first ≡ month_of (fields.year - 1900) (fields.month - 1)
  pub fits : ntp_sync_epoch_unix_ms + t < 2 ^ 64
  pub counts :
      ntp_sync_epoch_unix_ms + t
      ≡ (first + elapsed fields.day fields.hour fields.minute fields.second) * 1000
        + fields.millisecond

-- A test that a result depends on has passed.
if-eq-some {ℓ} :
    {A : Type ℓ} (b : Bool) (o : Option A) {a : A}
    → (if b then o else none) ≡ some a
    → (b ≡ true) × (o ≡ some a)
if-eq-some true o e = (refl, e)
if-eq-some false o e = cc

if-eq-some_else {ℓ} :
    {A : Type ℓ} (b : Bool) (o : Option A) {a : A}
    → (if b then none else o) ≡ some a
    → (b ≡ false) × (o ≡ some a)
if-eq-some_else false o e = (refl, e)
if-eq-some_else true o e = cc

pub some_inj : {A : Type 0} {a b : A} → some a ≡ some b → a ≡ b
some_inj e = cc

same_tm_refl : (a : Tm) → same_tm a a ≡ true
unfolding same_tm
same_tm_refl a = ground arith

in_range_lem : (f : Fields) → are_in_range f ≡ true → IsInRange f
unfolding are_in_range
in_range_lem f h = record {
  month = ground (arith, h);
  day = ground (arith, h);
  hour = ground (arith, h);
  minute = ground (arith, h);
  second = ground (arith, h);
  millisecond = ground (arith, h);
}

in_range_back : (f : Fields) → IsInRange f → are_in_range f ≡ true
unfolding are_in_range
in_range_back f r = ground (arith, r.month, r.day, r.hour, r.minute, r.second, r.millisecond)

tm_of-IsDate : (f : Fields) → IsInRange f → IsDate (tm_of f)
tm_of-IsDate f r = record {
  mon = omega (arith, r.month);
  mday = r.day;
  hour = r.hour;
  min = r.minute;
  sec = r.second;
}

month_lem :
    (f : Fields)
    → IsInRange f
    → 1900 ≤ f.year
    → f.year < 2 ^ 32
    → month_of (tm_of f).tm_year (tm_of f).tm_mon ≡ month_of (f.year - 1900) (f.month - 1)
month_lem f r h k =
    let year : (f.year + 2 ^ 32 - 1900) % 2 ^ 32 ≡ f.year - 1900 = omega arith in
    let month : (f.month + 2 ^ 32 - 1) % 2 ^ 32 ≡ f.month - 1 = omega (arith, r.month) in
    rw (year, month) refl

module _ (calendar : Calendar) (is : IsCalendar calendar) where
  moment_lem :
      (f : Fields) (seconds t : ℕ)
      → seconds * 1000 + f.millisecond < 2 ^ 64
      → moment_of calendar f (seconds, calendar.gmtime seconds) ≡ some t
      → ntp_sync_epoch_unix_ms + t ≡ seconds * 1000 + f.millisecond
  unfolding moment_of
  moment_lem f seconds t h e =
      let e' = rw (same_tm_refl (calendar.gmtime seconds)) at e in
      let unix_ms = (seconds * 1000 + f.millisecond) % 2 ^ 64 in
      let (after, e'') = if-eq-some_else (ltb unix_ms ntp_sync_epoch_unix_ms) _ e' in
      let at : unix_ms - ntp_sync_epoch_unix_ms ≡ t = ground (arith, e'') in ground arith

  moment_back :
      (f : Fields) (seconds t : ℕ)
      → ntp_sync_epoch_unix_ms + t < 2 ^ 64
      → ntp_sync_epoch_unix_ms + t ≡ seconds * 1000 + f.millisecond
      → moment_of calendar f (seconds, calendar.gmtime seconds) ≡ some t
  unfolding moment_of
  moment_back f seconds t fits sum = rw (same_tm_refl (calendar.gmtime seconds)) (ground arith)

  -- A moment that the checked fields give.
  checked_lem :
      (s : Str) (f : Fields) (t : ℕ)
      → length s ≡ 24
      → scan_iso8601 s ≡ some f
      → IsShort f.year
      → checked_moment calendar f ≡ some t
      → Names calendar s t
  unfolding checked_moment
  checked_lem s f t long scans short e =
      let (ranges, e') = if-eq-some _ (calendar.timegm (tm_of f) >>= moment_of calendar f) e in
      let (r, made, e'') = >>=-eq-some (calendar.timegm (tm_of f)) (moment_of calendar f) e' in
      let in_range = in_range_lem f ranges in
      let d = tm_of-IsDate f in_range in
      let after = is.after_1900 (tm_of f) r d made in
      let tm_year : (tm_of f).tm_year < 8100 = omega (arith, after, short) in
      let since : 1900 ≤ f.year = omega (arith, after, short) in
      let (first, early, starts) = is.month (tm_of f) r d tm_year made in
      let seconds = first + elapsed f.day f.hour f.minute f.second in
      let counted = is.count (tm_of f) first d (omega arith) starts in
      let same : r ≡ (seconds, calendar.gmtime seconds) = some_inj (sym made ∙ counted) in
      let moment = subst (λ (q : ℕ × Tm). moment_of calendar f q ≡ some t) same e'' in
      let small : seconds * 1000 + f.millisecond < 2 ^ 64 = omega (
        arith, early, in_range.day, in_range.hour, in_range.minute, in_range.second,
        in_range.millisecond,
      ) in
      let counts = moment_lem f seconds t small moment in
      record {
        long = long;
        fields = f;
        scans = scans;
        in_range = in_range;
        since_1900 = since;
        first = first;
        starts = starts ∙ month_lem f in_range since short.0;
        fits = omega (arith, counts, small);
        counts = counts;
      }

  checked_back :
      (s : Str) (t : ℕ) (n : Names calendar s t)
      → n.fields.year < 2 ^ 32
      → checked_moment calendar n.fields ≡ some t
  unfolding checked_moment
  checked_back s t n short =
      let f = n.fields in
      let d = tm_of-IsDate f n.in_range in
      let starts = n.starts ∙ sym (month_lem f n.in_range n.since_1900 short) in
      let made = is.count (tm_of f) n.first d (omega (arith, n.counts, n.fits)) starts in
      rw (in_range_back f n.in_range, made)
        (moment_back f (n.first + elapsed f.day f.hour f.minute f.second) t n.fits n.counts)

  -- The parser accepts a text as a moment exactly if the text has 24 bytes, the fields that are read from
  -- it are in their ranges, and the moment is that many days, hours, minutes, seconds and milliseconds
  -- after the first midnight of the year and month: a day up to 31 that the month does not have is taken
  -- for one of the next month. `gmtime_r` and `timegm` do what is documented of them.
  pub ntp_time_parse_iso8601_utc-Names :
      (s : Str) (t : ℕ) → (ntp_time_parse_iso8601_utc calendar s ≡ some t) ↔ Names calendar s t
  unfolding ntp_time_parse_iso8601_utc
  ntp_time_parse_iso8601_utc-Names s t = (names, parses)
    where
      names : ntp_time_parse_iso8601_utc calendar s ≡ some t → Names calendar s t
      names e =
          let (long, e') =
            if-eq-some (length s == 24) (scan_iso8601 s >>= checked_moment calendar) e in
          let (f, scans, e'') = >>=-eq-some (scan_iso8601 s) (checked_moment calendar) e' in
          checked_lem s f t (ground (arith, long)) scans (scan_lem s scans).0 e''

      parses : Names calendar s t → ntp_time_parse_iso8601_utc calendar s ≡ some t
      parses n =
          let long : (length s == 24) ≡ true = ground (arith, n.long) in
          rw (long, n.scans) (checked_back s t n (scan_lem s n.scans).0.0)
