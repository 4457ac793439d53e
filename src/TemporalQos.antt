-- ===== src/TemporalQos.antt =====
-- common/temporal_qos.c: the line that traces a stage of a message.
use green_right_topst_linux.Base.{ℕ, [], ◌∷◌, ◌++◌, bit_and, if◌then◌else◌, take, drop, Str, codes}
use green_right_topst_linux.Libc.{Calendar, decimal}
use green_right_topst_linux.Ntp.{ntp_time_sync_epoch_ms}
use green_right_topst_linux.Ntp.Text.{ntp_time_format_iso8601_utc}

abbrev pub temporal_qos_timestamp_mask : ℕ
temporal_qos_timestamp_mask = 0x0fff

-- The line that is printed, at a reading of `ntp_time_now_ms`.
unfoldable pub temporal_qos_trace_stage : Calendar → ℕ → ℕ → ℕ → Str
temporal_qos_trace_stage calendar now_ms log_id src_timestamp12 =
    let (current_time, ok) = ntp_time_format_iso8601_utc calendar (ntp_time_sync_epoch_ms now_ms) in
    let stamp = decimal (bit_and src_timestamp12 temporal_qos_timestamp_mask) in
    let head = codes "[T" ++ (decimal log_id ++ (codes "] src_ts12=" ++ stamp)) in
    if ok
    then head
      ++ (codes " [TIME SYNC] " ++ (take 12 (drop 11 current_time) ++ (codes " UTC" ++ 10 ∷ [])))
    else head ++ (codes " current=INVALID" ++ 10 ∷ [])
