-- ===== src/TxThread/Timing.antt =====
-- The timing of the transmit loop of core/can_tx_thread.c.
use green_right_topst_linux.Base.{
  ◌+◌, ◌%◌, ◌^◌, ◌≤◌, ◌<◌, ◌≡◌, ◌⊎◌, refl, ap, ◌∙◌, List, [], ◌∷◌, ◌++◌, append-nil, Bool, true,
  false, ◌||◌, Option, none, some, inl, inr, ◌==◌, if◌then◌else◌, arith, length, length-append, All,
  Bool-cases,
}
use green_right_topst_linux.Doubles.{Doubles}
use green_right_topst_linux.Map.Service.{MapService}
use green_right_topst_linux.TxThread.{TxMessage, TxState, Env, tx_init}
use green_right_topst_linux.TxThread.Round.{
  stop_part, start_part, dropped, selected, candidate_part, round_candidate, tx_round, tx_run,
}
use green_right_topst_linux.TxThread.Report.{
  reports, reports-append, status_due, report_round, round_report,
}

abbrev Inactive : Env → Type 0
Inactive env = env.active ≡ false

module _ {D : Doubles} (map : MapService D) where
  idle_round :
      (s : TxState) (env : Env)
      → Inactive env
      → let t = tx_round map s env in
        (reports t.1.messages ≡ (if s.last_active then TxMessage.no_candidate ∷ [] else []))
        × (t.0.last_active ≡ false)
  unfolding stop_part
  idle_round s env h =
      let r = round_report map s env in
      elim (Bool-cases s.last_active) [
        | inl a ↦ (r.0 ∙ simp (h, a) refl, r.1 ∙ simp (h, a) refl)
        | inr a ↦ (r.0 ∙ simp (h, a) refl, r.1 ∙ simp (h, a) refl)
      ]

  idle_run :
      (envs : List Env) (s : TxState)
      → All Inactive envs
      → s.last_active ≡ false
      → reports (tx_run map s envs).1 ≡ []
  idle_run [] s h a = refl
  idle_run (env ∷ envs) s h a =
      let t = tx_round map s env in
      let r = idle_round s env h.0 in
      reports-append t.1.messages (tx_run map t.0 envs).1
      ∙ simp (r.0, a, idle_run envs t.0 h.1 r.1) refl

  -- Through any number of rounds out of candidate mode the loop reports on the candidate vehicle once,
  -- that there is none, in the first of them, if it comes from candidate mode, and else not at all.
  pub tx_run_notifies_once :
      (env : Env) (envs : List Env) (s : TxState)
      → All (λ (e : Env). e.active ≡ false) (env ∷ envs)
      → reports (tx_run map s (env ∷ envs)).1
        ≡ (if s.last_active then TxMessage.no_candidate ∷ [] else [])
  tx_run_notifies_once env envs s h =
      let t = tx_round map s env in
      let r = idle_round s env h.0 in
      reports-append t.1.messages (tx_run map t.0 envs).1
      ∙ simp (r.0, idle_run envs t.0 h.1 r.1) (append-nil _)

  -- A part either reports and restarts the counter, or leaves it, which it may not if a status is due.
  abbrev Restarts : TxState → Bool → TxState × List TxMessage → Type 0
  Restarts s due r =
      (((1 ≤ length r.1) × (r.0.candidate_status_elapsed_ms ≡ 0))
        ⊎ ((due ≡ false) × (r.0.candidate_status_elapsed_ms ≡ s.candidate_status_elapsed_ms)))
      × (r.0.last_active ≡ s.last_active)

  part-Restarts :
      (s : TxState) (due connected : Bool) (c : Option _)
      → Restarts s due (candidate_part s due connected c)
  unfolding selected dropped
  part-Restarts s due connected none = elim (Bool-cases (due || s.last_had_candidate)) [
    | inl e ↦ simp e (inl (omega arith, refl), refl)
    | inr e ↦ simp e (inr (ground arith, refl), refl)
  ]
  part-Restarts s due connected (some c) =
      elim (Bool-cases (c.vehicle.vehicle_id == s.last_intro_vehicle_id)) [
        | inr e ↦ simp e (inl (omega arith, refl), refl)
        | inl e ↦ elim (Bool-cases due) [
          | inl d ↦ simp (e, d) (inl (omega arith, refl), refl)
          | inr d ↦ simp (e, d) (inr (refl, refl), refl)
        ]
      ]

  -- In candidate mode the counter stands between one and three ticks after a round.
  abbrev Steady : TxState → Type 0
  Steady s =
      s.last_active ≡ true
      → (10 ≤ s.candidate_status_elapsed_ms) × (s.candidate_status_elapsed_ms < 30)

  start_lem :
      (s : TxState)
      → ((start_part s).last_active ≡ true)
        × (s.last_active ≡ true
            → (start_part s).candidate_status_elapsed_ms ≡ s.candidate_status_elapsed_ms)
        × (s.last_active ≡ false → (start_part s).candidate_status_elapsed_ms ≡ 20)
  unfolding start_part
  start_lem s = ground arith

  -- A round in candidate mode reports, or less than two ticks had passed since the last report.
  active_lem :
      (s : TxState) (env : Env)
      → env.active ≡ true
      → Steady s
      → let t = tx_round map s env in
        (t.0.last_active ≡ true)
        × (((1 ≤ length (reports t.1.messages)) × (t.0.candidate_status_elapsed_ms ≡ 10))
            ⊎ ((s.last_active ≡ true)
                × (s.candidate_status_elapsed_ms < 20)
                × (t.0.candidate_status_elapsed_ms ≡ s.candidate_status_elapsed_ms + 10)))
  active_lem s env h k =
      let r = round_report map s env in
      let p =
        part-Restarts (start_part s) (status_due map s) env.connected (round_candidate map env) in
      let l = start_lem s in
      let q : report_round map s env
          ≡ candidate_part (start_part s) (status_due map s) env.connected
              (round_candidate map env) =
        simp h refl in
      let elapsed =
        r.4
        ∙ ap (λ (x : TxState × List TxMessage). (x.0.candidate_status_elapsed_ms + 10) % 2 ^ 32)
            q in
      (
        r.1 ∙ ap (λ (x : TxState × List TxMessage). x.0.last_active) q ∙ p.1 ∙ l.0,
        elim p.0 [
          | inl (n, zero') ↦ inl (rw (r.0, q) n, elapsed ∙ simp zero' refl)
          | inr (d, same) ↦ elim (Bool-cases s.last_active) [
            | inl a ↦ inr (
              a,
              not_due s d a,
              elapsed ∙ ap (λ n. (n + 10) % 2 ^ 32) (same ∙ l.1 a) ∙ omega (arith, k a),
            )
            | inr b ↦ absurd (not_false s d b)
          ]
        ],
      )
    where
      not_due :
          (s : TxState)
          → status_due map s ≡ false
          → s.last_active ≡ true
          → s.candidate_status_elapsed_ms < 20
      not_due s d a = ground arith

      not_false : (s : TxState) → status_due map s ≡ false → s.last_active ≡ false → ⊥
      not_false s d a = ground arith

  round-Steady : (s : TxState) (env : Env) → Steady s → Steady (tx_round map s env).0
  round-Steady s env k h = elim (Bool-cases env.active) [
    | inl e ↦ elim (active_lem s env e k).1 [
      | inl (n, ten) ↦ omega (arith, ten)
      | inr (a, less, same) ↦ omega (arith, less, same, k a)
    ]
    | inr e ↦ absurd (ground (arith, (idle_round s env e).1))
  ]

  run-Steady : (envs : List Env) (s : TxState) → Steady s → Steady (tx_run map s envs).0
  run-Steady [] s k = k
  run-Steady (env ∷ envs) s k = run-Steady envs (tx_round map s env).0 (round-Steady s env k)

  -- After any rounds from its start on, two rounds on end in candidate mode, that is 20 ms, send at
  -- least one report on the candidate vehicle.
  pub tx_run-reports :
      (before : List Env) (env env' : Env)
      → env.active ≡ true
      → env'.active ≡ true
      → 1 ≤ length (reports (tx_run map (tx_run map tx_init before).0 (env ∷ env' ∷ [])).1)
  tx_run-reports before env env' h h' =
      let s = (tx_run map tx_init before).0 in
      let steady = run-Steady before tx_init (λ a. absurd (ground arith)) in
      let t = tx_round map s env in
      let t' = tx_round map t.0 env' in
      let first = active_lem s env h steady in
      let second = active_lem t.0 env' h' (round-Steady s env steady) in
      rw
        (
          reports-append t.1.messages (t'.1.messages ++ []),
          append-nil t'.1.messages,
          length-append (reports t.1.messages) (reports t'.1.messages),
        )
        (elim first.1 [
          | inl (n, ten) ↦ omega (arith, n)
          | inr (a, less, same) ↦ elim second.1 [
            | inl (n, ten) ↦ omega (arith, n)
            | inr (b, less', same') ↦ omega (arith, less', same, steady a)
          ]
        ])
