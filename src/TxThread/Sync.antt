-- ===== src/TxThread/Sync.antt =====
-- When the transmit loop of core/can_tx_thread.c sends the time.
use green_right_topst_linux.Base.{
  ℕ, ◌+◌, ◌-◌, ◌*◌, ◌/◌, ◌%◌, ◌^◌, ◌≤◌, ◌≡◌, refl, ap, ◌∙◌, List, [], ◌∷◌, ◌++◌, Bool, true, false,
  Option, none, some, ◌==◌, if◌then◌else◌, arith, length,
}
use green_right_topst_linux.Doubles.{Doubles}
use green_right_topst_linux.Map.Service.{MapService}
use green_right_topst_linux.TxThread.{TxMessage, TxState, Env, tx_init, ntp_part, advance}
use green_right_topst_linux.TxThread.Round.{
  stop_part, start_part, dropped, selected, candidate_part, round_candidate, light_part,
  inactive_round, active_round, tx_round, tx_run,
}
use green_right_topst_linux.TxThread.Report.{light_cases}

abbrev is_ntp_sync : TxMessage → Bool
is_ntp_sync TxMessage.ntp_sync = true
is_ntp_sync _ = false

abbrev pub count_ntp_sync : List TxMessage → ℕ
count_ntp_sync [] = 0
count_ntp_sync (m ∷ ms) = if is_ntp_sync m then count_ntp_sync ms + 1 else count_ntp_sync ms

count_ntp_sync-append :
    (a b : List TxMessage) → count_ntp_sync (a ++ b) ≡ count_ntp_sync a + count_ntp_sync b
count_ntp_sync-append [] b = omega arith
count_ntp_sync-append (m ∷ a) b = ground (arith, count_ntp_sync-append a b)

module _ {D : Doubles} (map : MapService D) where
  -- A part that neither sends the time nor touches its counter.
  abbrev Quiet : TxState → TxState → List TxMessage → Type 0
  Quiet s t ms = (t.ntp_sync_elapsed_ms ≡ s.ntp_sync_elapsed_ms) × (count_ntp_sync ms ≡ 0)

  part-Quiet :
      (s : TxState) (due connected : Bool) (c : Option _)
      → let r = candidate_part (start_part s) due connected c in Quiet s r.0 r.1
  unfolding selected dropped start_part
  part-Quiet s due connected none = ground arith
  part-Quiet s due connected (some c) = ground arith

  light-Quiet :
      (env : Env) (due : Bool) (s : TxState) → let r = light_part map env due s in Quiet s r.0 r.2
  unfolding light_part
  light-Quiet env true s = (
    refl,
    light_cases map (λ m. count_ntp_sync (m ∷ []) ≡ 0) (λ i l x y k. refl) (λ x y k. refl)
        (λ k. refl) env,
  )
  light-Quiet env false s = (refl, refl)

  stop-Quiet :
      (s : TxState) (env : Env) → Quiet s (stop_part s env.others).0 (stop_part s env.others).2
  unfolding stop_part
  stop-Quiet s env = ground arith

  branch-Quiet :
      (s : TxState) (env : Env) (b : Bool)
      → let r = if b then active_round map env s else inactive_round map env s in
        Quiet s r.0 r.1.messages
  unfolding active_round inactive_round
  branch-Quiet s env true =
      let r = candidate_part (start_part s) _ env.connected (round_candidate map env) in
      let p = part-Quiet s _ env.connected (round_candidate map env) in
      let l = light-Quiet env _ r.0 in
      (l.0 ∙ p.0, count_ntp_sync-append r.1 _ ∙ omega (arith, p.1, l.1))
  branch-Quiet s env false =
      let p = stop-Quiet s env in
      let l = light-Quiet env _ (stop_part s env.others).0 in
      (l.0 ∙ p.0, count_ntp_sync-append (stop_part s env.others).2 _ ∙ omega (arith, p.1, l.1))

  ntp_lem :
      (s : TxState) (k : ℕ)
      → s.ntp_sync_elapsed_ms ≡ 10 * k
      → 1 ≤ k
      → k ≤ 10
      → (count_ntp_sync (ntp_part s).1 ≡ k / 10)
        × ((ntp_part s).0.ntp_sync_elapsed_ms ≡ (if k == 10 then 0 else 10 * k))
  unfolding ntp_part
  ntp_lem s k e p q = ground arith

  -- The counter is at 10 k, with k from 1 to 10, before each round.
  sync_round :
      (s : TxState) (env : Env) (k : ℕ)
      → s.ntp_sync_elapsed_ms ≡ 10 * k
      → 1 ≤ k
      → k ≤ 10
      → let t = tx_round map s env in
        (count_ntp_sync t.1.messages ≡ k / 10)
        × (t.0.ntp_sync_elapsed_ms ≡ 10 * (if k == 10 then 1 else k + 1))
  unfolding tx_round advance
  sync_round s env k e p q =
      let b = branch-Quiet (ntp_part s).0 env env.active in
      let n = ntp_lem s k e p q in
      (
        count_ntp_sync-append (ntp_part s).1 _ ∙ omega (arith, n.0, b.1),
        ap (λ n. (n + 10) % 2 ^ 32) (b.0 ∙ n.1) ∙ ground arith,
      )

  sync_run :
      (envs : List Env) (s : TxState) (k : ℕ)
      → s.ntp_sync_elapsed_ms ≡ 10 * k
      → 1 ≤ k
      → k ≤ 10
      → count_ntp_sync (tx_run map s envs).1 ≡ (length envs + k - 1) / 10
  sync_run [] s k e p q = omega arith
  sync_run (env ∷ envs) s k e p q =
      let r = sync_round s env k e p q in
      let t = tx_round map s env in
      let rest =
        sync_run envs t.0 (if k == 10 then 1 else k + 1) r.1 (ground arith) (ground arith) in
      count_ntp_sync-append t.1.messages _ ∙ rw (r.0, rest) (ground arith)

  -- From the loop's start on, n rounds send the time ⌈n / 10⌉ times, so in the first round and in every
  -- tenth after it, whatever the mode.
  pub tx_run_syncs :
      (envs : List Env) → count_ntp_sync (tx_run map tx_init envs).1 ≡ (length envs + 9) / 10
  tx_run_syncs envs = sync_run envs tx_init 10 refl (omega arith) (omega arith) ∙ omega arith
