-- ===== src/Mqtt/Cadence.antt =====
-- How often the MQTT thread drops the vehicles that are no longer heard of.
use green_right_topst_linux.Base.{
  ℕ, ◌+◌, ◌*◌, ◌%◌, ◌<◌, ◌≡◌, true, false, Bool, none, leb, ltb, ◌-◌, ◌^◌, ◌==◌, if◌then◌else◌,
  Bool-cases, inl, inr, arith, ap, ◌∙◌,
}
use green_right_topst_linux.Doubles.{Doubles}
use green_right_topst_linux.Libc.{Calendar}
use green_right_topst_linux.Codec.{Cjson}
use green_right_topst_linux.OtherVehicles.{
  OtherVehicleManager, other_vehicle_manager_get, other_vehicle_manager_cleanup_stale, is_stale,
  slot,
}
use green_right_topst_linux.OtherVehicles.Stale.{get-cleanup_stale}
use green_right_topst_linux.Mqtt.Thread.{Managers, Context, thread_round}
use green_right_topst_linux.Mqtt.Sound.{publish-IsQuiet}

-- A vehicle that is not in use is looked up in vain, stale or not.
aged_lem :
    (m : OtherVehicleManager) (now i : ℕ)
    → now < 2 ^ 63
    → (slot m i).last_updated_ms < 2 ^ 63
    → (if is_stale now 500 (slot m i) then none else other_vehicle_manager_get m i) ≡ (
        if leb (slot m i).last_updated_ms now
        then if ltb 500 (now - (slot m i).last_updated_ms)
          then none
          else other_vehicle_manager_get m i
        else none)
unfolding is_stale other_vehicle_manager_get
aged_lem m now i h u = ground arith

-- After `k` rounds since the last cleanup, for `k` below 50, the next round is the `k + 1`st since then
-- modulo 50; a lookup is as before it, unless it is the 50th. At times below 2^63, a lookup after the 50th
-- gives nothing if the vehicle was last heard of more than 500 ms before the clock was read, or if it was
-- heard of after the clock was read; else it is as before.
pub thread_round-cleanup :
    {D : Doubles} (cjson : Cjson D) (calendar : Calendar) (context : Context) (k now i : ℕ)
    (ok : Bool)
    → k < 50
    → now < 2 ^ 63
    → (slot context.managers.others i).last_updated_ms < 2 ^ 63
    → (let (after, elapsed, calls) = thread_round cjson calendar context (10 * k) now ok in
        let last = (slot context.managers.others i).last_updated_ms in
        let before = other_vehicle_manager_get context.managers.others i in
        (elapsed ≡ 10 * ((k + 1) % 50))
        × (other_vehicle_manager_get after.managers.others i ≡ (
            if k == 49
            then if leb last now then if ltb 500 (now - last) then none else before else none
            else before)))
unfolding thread_round
thread_round-cleanup cjson calendar context k now i ok h fits used =
    let same = (publish-IsQuiet cjson calendar (context.vehicle_id) context ok).1 in
    elim (Bool-cases (leb 500 (10 * k + 10))) [
      | inl e ↦
          let last : (k == 49) ≡ true = ground arith in
          let wrapped : 0 ≡ 10 * ((k + 1) % 50) = ground arith in
          simp (e, last) (wrapped, cleaned same)
      | inr e ↦
          let not_last : (k == 49) ≡ false = ground arith in
          let next : 10 * k + 10 ≡ 10 * ((k + 1) % 50) = ground arith in
          simp (e, not_last)
            (next, ap (λ (m : Managers). other_vehicle_manager_get m.others i) same)
    ]
  where
    cleaned :
        {m : Managers}
        → m ≡ context.managers
        → other_vehicle_manager_get (other_vehicle_manager_cleanup_stale m.others 500 now) i ≡ (
            if leb (slot context.managers.others i).last_updated_ms now
            then if ltb 500 (now - (slot context.managers.others i).last_updated_ms)
              then none
              else other_vehicle_manager_get context.managers.others i
            else none)
    cleaned e =
        ap
          (λ (x : Managers).
            other_vehicle_manager_get (other_vehicle_manager_cleanup_stale x.others 500 now) i)
          e
        ∙ get-cleanup_stale context.managers.others 500 now i
        ∙ aged_lem context.managers.others now i fits used
