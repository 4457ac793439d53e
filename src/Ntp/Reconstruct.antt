-- ===== src/Ntp/Reconstruct.antt =====
-- `ntp_time_reconstruct` of common/ntp_time.c undoes the truncation of a time stamp to 12 bits.
use green_right_topst_linux.Base.{
  ℕ, ◌+◌, ◌-◌, ◌*◌, ◌/◌, ◌%◌, ◌^◌, ◌≤◌, ◌<◌, ◌≡◌, ◌∙◌, bit_and, bit_or, arith, bit_and_low,
  bit_and_shifted, bit_or_shifted,
}
use green_right_topst_linux.Ntp.{ntp_time_reconstruct}

-- The word before the correction: the current 4096 ms period with the stamp in its low bits.
candidate_lem :
    (ts now : ℕ)
    → now < 2 ^ 64
    → bit_or (bit_and now (2 ^ 64 - 4096)) (bit_and ts 0x0fff) ≡ now / 4096 * 4096 + ts % 4096
candidate_lem ts now h =
    let high : bit_and now (2 ^ 64 - 4096) ≡ now / 4096 * 4096 =
      bit_and_shifted 12 now (2 ^ 52 - 1) ∙ omega (arith, bit_and_low 52 (now / 4096)) in
    rw (high, bit_and_low 12 ts) (bit_or_shifted 12 (now / 4096) (ts % 4096) (omega arith))

-- On a clock below 2^64: a time that lies less than 4096 ms in the past is recovered from its low 12
-- bits.
pub ntp_time_reconstruct_exact :
    (t now : ℕ) → t ≤ now → now < t + 4096 → now < 2 ^ 64 → ntp_time_reconstruct (t % 4096) now ≡ t
unfolding ntp_time_reconstruct
ntp_time_reconstruct_exact t now p q r = rw (candidate_lem (t % 4096) now r) (ground arith)

-- On a clock from 4096 ms to below 2^64: the result lies in the last 4096 ms, up to now, and its low 12
-- bits are the stamp's, for every stamp.
pub ntp_time_reconstruct_window :
    (ts now : ℕ)
    → 4096 ≤ now
    → now < 2 ^ 64
    → let t = ntp_time_reconstruct ts now in (t ≤ now) × (now < t + 4096) × (t % 4096 ≡ ts % 4096)
unfolding ntp_time_reconstruct
ntp_time_reconstruct_window ts now p r = rw (candidate_lem ts now r) (ground arith)

-- A 12-bit stamp above a clock in its first 4096 ms makes the subtraction wrap: the result is
-- 2^64 - 4096 plus the stamp.
pub ntp_time_reconstruct_wraps :
    (ts now : ℕ) → now < ts → ts < 4096 → ntp_time_reconstruct ts now ≡ 2 ^ 64 - 4096 + ts
unfolding ntp_time_reconstruct
ntp_time_reconstruct_wraps ts now p q = rw (candidate_lem ts now (omega arith)) (ground arith)
