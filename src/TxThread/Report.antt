-- ===== src/TxThread/Report.antt =====
-- What a round of core/can_tx_thread.c reports of the candidate vehicle, apart from the time and
-- the traffic light.
use green_right_topst_linux.Base.{
  ℕ, ◌+◌, ◌%◌, ◌^◌, ◌≡◌, refl, ap, ◌∙◌, List, [], ◌∷◌, ◌++◌, append-nil, Bool, true, false, Option,
  none, some, leb, if◌then◌else◌, arith, Bool-cases, inl, inr,
}
use green_right_topst_linux.Types.{TrafficLight}
use green_right_topst_linux.Doubles.{Doubles}
use green_right_topst_linux.Map.Service.{MapService}
use green_right_topst_linux.TxThread.{TxMessage, TxState, Env, ntp_part, advance}
use green_right_topst_linux.TxThread.Round.{
  stop_part, start_part, selected, dropped, candidate_part, round_candidate, light_part,
  light_message, light_of_self, send_candidate_traffic_light, inactive_round, active_round,
  tx_round,
}

abbrev pub is_report : TxMessage → Bool
is_report TxMessage.no_candidate = true
is_report TxMessage.unavailable = true
is_report (TxMessage.intro selection) = true
is_report (TxMessage.status selection) = true
is_report _ = false

-- The messages about the candidate vehicle.
abbrev pub reports : List TxMessage → List TxMessage
reports [] = []
reports (m ∷ ms) = if is_report m then m ∷ reports ms else reports ms

pub reports-append : (a b : List TxMessage) → reports (a ++ b) ≡ reports a ++ reports b
reports-append [] b = refl
reports-append (m ∷ a) b = elim (Bool-cases (is_report m)) [
  | inl e ↦ rw e (ap (λ r. m ∷ r) (reports-append a b))
  | inr e ↦ rw e (reports-append a b)
]

module _ {D : Doubles} (map : MapService D) where
  abbrev pub status_due : TxState → Bool
  status_due s = if s.last_active then leb 20 s.candidate_status_elapsed_ms else true

  -- The round, restricted to the candidate vehicle.
  abbrev pub report_round : TxState → Env → TxState × List TxMessage
  report_round s env =
      if env.active
      then candidate_part (start_part s) (status_due s) env.connected (round_candidate map env)
      else ((stop_part s env.others).0, (stop_part s env.others).2)

  -- The fields that a report depends on.
  abbrev pub SameCore : TxState → TxState → Type 0
  SameCore s t =
      (s.last_active ≡ t.last_active)
      × (s.last_had_candidate ≡ t.last_had_candidate)
      × (s.last_intro_vehicle_id ≡ t.last_intro_vehicle_id)
      × (s.candidate_status_elapsed_ms ≡ t.candidate_status_elapsed_ms)

  -- The traffic light part sends one of its three messages.
  pub light_cases :
      (P : TxMessage → Type 0)
      → ((i : ℕ) (l : TrafficLight) (x y k : ℕ) → P (TxMessage.traffic_light i l x y k))
      → ((x y k : ℕ) → P (TxMessage.no_traffic_light x y k))
      → ((k : ℕ) → P (TxMessage.traffic_light_unavailable k))
      → (env : Env) → P (send_candidate_traffic_light map env).1
  unfolding send_candidate_traffic_light
  light_cases P f g h env = elim (Bool-cases env.connected_for_light) [
    | inr e ↦ simp e (h _)
    | inl e ↦ simp e (light_of env.self)
  ]
    where
      message_of : (c : ℕ × ℕ) (k : ℕ) (o : Option _) → P (light_message c k o)
      message_of c k none = g _ _ _
      message_of c k (some t) = f _ _ _ _ _

      light_of : (v : Option _) → P (light_of_self map env.traffic_lights v).1
      light_of none = g _ _ _
      light_of (some v) = message_of _ _ _

  light_silent : (env : Env) → is_report (send_candidate_traffic_light map env).1 ≡ false
  light_silent =
      light_cases (λ m. is_report m ≡ false) (λ i l x y k. refl) (λ x y k. refl) (λ k. refl)

  light_core : (env : Env) (due : Bool) (s : TxState) → SameCore (light_part map env due s).0 s
  unfolding light_part
  light_core env true s = (refl, refl, refl, refl)
  light_core env false s = (refl, refl, refl, refl)

  light_reports : (env : Env) (due : Bool) (s : TxState) → reports (light_part map env due s).2 ≡ []
  unfolding light_part
  light_reports env true s = rw (light_silent env) refl
  light_reports env false s = refl

  ntp_core : (s : TxState) → SameCore (ntp_part s).0 s
  unfolding ntp_part
  ntp_core s = ground arith

  ntp_reports : (s : TxState) → reports (ntp_part s).1 ≡ []
  unfolding ntp_part
  ntp_reports s = ground arith

  abbrev SameReport : TxState × List TxMessage → TxState × List TxMessage → Type 0
  SameReport r r' = SameCore r.0 r'.0 × (r.1 ≡ r'.1)

  start_core : (s t : TxState) → SameCore s t → SameCore (start_part s) (start_part t)
  unfolding start_part
  start_core s t h = ground arith

  part_core :
      (s t : TxState) (due connected : Bool) (c : Option _)
      → SameCore s t
      → SameReport (candidate_part s due connected c) (candidate_part t due connected c)
  unfolding selected dropped
  part_core s t due connected none h = ground arith
  part_core s t due connected (some c) h = ground arith

  stop_core :
      (s t : TxState) (env : Env)
      → SameCore s t
      → SameReport
          ((stop_part s env.others).0, (stop_part s env.others).2)
          ((stop_part t env.others).0, (stop_part t env.others).2)
  unfolding stop_part
  stop_core s t env h = ground arith

  -- Reports depend on those fields alone.
  report_core :
      (s t : TxState) (env : Env)
      → SameCore s t
      → SameReport (report_round s env) (report_round t env)
  report_core s t env h =
      let due : status_due s ≡ status_due t = ground arith in
      elim (Bool-cases env.active) [
        | inl e ↦
            rw (e, due)
              (part_core (start_part s) (start_part t) (status_due t) env.connected
                (round_candidate map env) (start_core s t h))
        | inr e ↦ rw e (stop_core s t env h)
      ]

  part_reports :
      (s : TxState) (due connected : Bool) (c : Option _)
      → reports (candidate_part s due connected c).1 ≡ (candidate_part s due connected c).1
  unfolding selected dropped
  part_reports s due connected none = ground arith
  part_reports s due connected (some c) = ground arith

  stop_reports :
      (s : TxState) (env : Env) → reports (stop_part s env.others).2 ≡ (stop_part s env.others).2
  unfolding stop_part
  stop_reports s env = ground arith

  -- Adding the traffic light part.
  with_light :
      (r : TxState × List TxMessage) (env : Env) (due : Bool)
      → reports r.1 ≡ r.1
      → SameCore (light_part map env due r.0).0 r.0
        × (reports (r.1 ++ (light_part map env due r.0).2) ≡ r.1)
  with_light r env due h = (
    light_core env due r.0,
    reports-append r.1 (light_part map env due r.0).2
        ∙ rw (h, light_reports env due r.0) (append-nil r.1),
  )

  active_lem :
      (s : TxState) (env : Env)
      → env.active ≡ true
      → SameCore (active_round map env s).0 (report_round s env).0
        × (reports (active_round map env s).1.messages ≡ (report_round s env).1)
  unfolding active_round light_part send_candidate_traffic_light
  active_lem s env e = rw e (
      with_light
        (candidate_part (start_part s) (status_due s) env.connected (round_candidate map env)) env
        (if s.last_active then leb 300 s.traffic_light_elapsed_ms else false)
        (part_reports (start_part s) (status_due s) env.connected (round_candidate map env)))

  inactive_lem :
      (s : TxState) (env : Env)
      → env.active ≡ false
      → SameCore (inactive_round map env s).0 (report_round s env).0
        × (reports (inactive_round map env s).1.messages ≡ (report_round s env).1)
  unfolding inactive_round light_part send_candidate_traffic_light
  inactive_lem s env e = rw e (
      with_light ((stop_part s env.others).0, (stop_part s env.others).2) env
        (leb 300 s.traffic_light_elapsed_ms) (stop_reports s env))

  branch_lem :
      (s : TxState) (env : Env) (b : Bool)
      → env.active ≡ b
      → let r = if b then active_round map env s else inactive_round map env s in
        SameCore r.0 (report_round s env).0 × (reports r.1.messages ≡ (report_round s env).1)
  branch_lem s env true e = active_lem s env e
  branch_lem s env false e = inactive_lem s env e

  -- A round reports what `report_round` says, and keeps its fields but for the passage of time.
  pub round_report :
      (s : TxState) (env : Env)
      → let r = report_round s env in
        let t = tx_round map s env in
        (reports t.1.messages ≡ r.1)
        × (t.0.last_active ≡ r.0.last_active)
        × (t.0.last_had_candidate ≡ r.0.last_had_candidate)
        × (t.0.last_intro_vehicle_id ≡ r.0.last_intro_vehicle_id)
        × (t.0.candidate_status_elapsed_ms ≡ (r.0.candidate_status_elapsed_ms + 10) % 2 ^ 32)
  unfolding tx_round advance
  round_report s env =
      let s1 = (ntp_part s).0 in
      let same = report_core s1 s env (ntp_core s) in
      let b = branch_lem s1 env env.active refl in
      (
        reports-append (ntp_part s).1 _ ∙ rw (ntp_reports s) (b.1 ∙ same.1),
        b.0.0 ∙ same.0.0,
        b.0.1 ∙ same.0.1,
        b.0.2 ∙ same.0.2,
        ap (λ n. (n + 10) % 2 ^ 32) (b.0.3 ∙ same.0.3),
      )
