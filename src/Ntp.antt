-- ===== src/Ntp.antt =====
-- common/ntp_time.h and common/ntp_time.c: milliseconds since the 2026-01-01 reference epoch, and
-- the 12-bit time stamps of the RTOS. What the system clock and `adjtimex` answer are arguments.
pub mod Reconstruct
pub mod Text
use green_right_topst_linux.Base.{
  ℕ, ◌+◌, ◌-◌, ◌%◌, ◌^◌, bit_and, bit_or, Bool, ◌||◌, not, Option, none, some, ltb, leb, ◌==◌,
  if◌then◌else◌,
}

abbrev pub ntp_sync_epoch_unix_ms : ℕ
ntp_sync_epoch_unix_ms = 1767225600000

-- The argument is the `ntp_time_now_ms` of the moment.
unfoldable pub ntp_time_sync_epoch_ms : ℕ → ℕ
ntp_time_sync_epoch_ms now_ms =
    if leb ntp_sync_epoch_unix_ms now_ms then now_ms - ntp_sync_epoch_unix_ms else 0

pub data NtpSyncStatus : Type 0 where
  sync_ok sync_rtc_only sync_none : NtpSyncStatus

abbrev pub status_code : NtpSyncStatus → ℕ
status_code sync_ok = 0
status_code sync_rtc_only = 1
status_code sync_none = 2

-- `adjtimex` fails (`none`), or gives its return value and the status word. `sta_unsync` and
-- `time_error` are the platform's STA_UNSYNC and TIME_ERROR.
unfoldable pub ntp_time_get_sync_status : ℕ → ℕ → Option (ℕ × ℕ) → NtpSyncStatus
ntp_time_get_sync_status sta_unsync time_error none = sync_none
ntp_time_get_sync_status sta_unsync time_error (some (ret, status)) =
    if not (bit_and status sta_unsync == 0) || ret == time_error then sync_rtc_only else sync_ok

unfoldable pub ntp_time_reconstruct : ℕ → ℕ → ℕ
ntp_time_reconstruct rtos_ts_12bit linux_now_epoch_ms =
    let candidate =
      bit_or (bit_and linux_now_epoch_ms (2 ^ 64 - 4096)) (bit_and rtos_ts_12bit 0x0fff) in
    if ltb linux_now_epoch_ms candidate then (candidate + 2 ^ 64 - 4096) % 2 ^ 64 else candidate
