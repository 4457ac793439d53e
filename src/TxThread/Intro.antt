-- ===== src/TxThread/Intro.antt =====
-- The introduction of candidate vehicles by the transmit loop of core/can_tx_thread.c.
use green_right_topst_linux.Base.{
  ℕ, ◌≡◌, ◌≢◌, refl, sym, ap, ◌∙◌, List, [], ◌∷◌, ◌++◌, Bool, true, false, ◌||◌, Option, none, some,
  ◌==◌, arith, All, Bool-cases, inl, inr,
}
use native.Mathlib.Decide.{ℕ_discrete}
use green_right_topst_linux.Doubles.{Doubles}
use green_right_topst_linux.Map.Service.{MapService}
use green_right_topst_linux.Candidate.{CandidateSelection}
use green_right_topst_linux.TxThread.{TxMessage, TxState, Env, tx_init}
use green_right_topst_linux.TxThread.Round.{
  stop_part, start_part, selected, dropped, candidate_part, round_candidate, tx_round, tx_run,
}
use green_right_topst_linux.TxThread.Report.{reports, report_round, round_report}

-- What the controller knows: the vehicle introduced last, until a notice that there is none.
abbrev pub known_after : Option ℕ → TxMessage → Option ℕ
known_after known (TxMessage.intro s) = some s.vehicle.vehicle_id
known_after known TxMessage.no_candidate = none
known_after known TxMessage.unavailable = none
known_after known _ = known

abbrev pub Fits : Option ℕ → TxMessage → Type 0
Fits known (TxMessage.status s) = known ≡ some s.vehicle.vehicle_id
Fits known _ = Unit {0}

-- Each status is about the vehicle that the controller knows.
abbrev pub Introduced : Option ℕ → List TxMessage → Type 0
Introduced known [] = Unit {0}
Introduced known (m ∷ ms) = Fits known m × Introduced (known_after known m) ms

abbrev known_at_end : Option ℕ → List TxMessage → Option ℕ
known_at_end known [] = known
known_at_end known (m ∷ ms) = known_at_end (known_after known m) ms

Introduced-append :
    (known : Option ℕ) (a b : List TxMessage)
    → Introduced known a
    → Introduced (known_at_end known a) b
    → Introduced known (a ++ b)
Introduced-append known [] b h k = k
Introduced-append known (m ∷ a) b h k = (h.0, Introduced-append (known_after known m) a b h.1 k)

-- The other messages do not matter.
Introduced-reports :
    (known : Option ℕ) (ms : List TxMessage)
    → Introduced known (reports ms)
    → Introduced known ms × (known_at_end known ms ≡ known_at_end known (reports ms))
Introduced-reports known [] h = (tt, refl)
Introduced-reports known (TxMessage.ntp_sync ∷ ms) h =
    let r = Introduced-reports known ms h in ((tt, r.0), r.1)
Introduced-reports known (TxMessage.no_candidate ∷ ms) h =
    let r = Introduced-reports none ms h.1 in ((tt, r.0), r.1)
Introduced-reports known (TxMessage.unavailable ∷ ms) h =
    let r = Introduced-reports none ms h.1 in ((tt, r.0), r.1)
Introduced-reports known (TxMessage.intro s ∷ ms) h =
    let r = Introduced-reports (some s.vehicle.vehicle_id) ms h.1 in ((tt, r.0), r.1)
Introduced-reports known (TxMessage.status s ∷ ms) h =
    let r = Introduced-reports known ms h.1 in ((h.0, r.0), r.1)
Introduced-reports known (TxMessage.traffic_light i l x y k ∷ ms) h =
    let r = Introduced-reports known ms h in ((tt, r.0), r.1)
Introduced-reports known (TxMessage.no_traffic_light x y k ∷ ms) h =
    let r = Introduced-reports known ms h in ((tt, r.0), r.1)
Introduced-reports known (TxMessage.traffic_light_unavailable k ∷ ms) h =
    let r = Introduced-reports known ms h in ((tt, r.0), r.1)

-- The loop's memory of the last introduction is what the controller knows.
abbrev Remembers : ℕ → Option ℕ → Type 0
Remembers last known = last ≢ 0 → known ≡ some last

abbrev pub HasId : Option CandidateSelection → Type 0
HasId none = Unit {0}
HasId (some s) = s.vehicle.vehicle_id ≢ 0

abbrev RoundOk : Option ℕ → TxState × List TxMessage → Type 0
RoundOk known r =
    Introduced known r.1 × Remembers r.0.last_intro_vehicle_id (known_at_end known r.1)

dropped-RoundOk :
    (s : TxState) (due : Bool) (notice : TxMessage) (known : Option ℕ)
    → Fits known notice
    → RoundOk known (dropped s due notice)
unfolding dropped
dropped-RoundOk s due notice known h = elim (Bool-cases (due || s.last_had_candidate)) [
  | inr e ↦ rw e (tt, λ n. absurd (n refl))
  | inl e ↦ rw e ((h, tt), λ n. absurd (n refl))
]

selected-RoundOk :
    (s : TxState) (due : Bool) (c : CandidateSelection) (known : Option ℕ)
    → c.vehicle.vehicle_id ≢ 0
    → Remembers s.last_intro_vehicle_id known
    → RoundOk known (selected s due c)
unfolding selected
selected-RoundOk s due c known n h =
    elim (ℕ_discrete c.vehicle.vehicle_id s.last_intro_vehicle_id) [
      | no ne ↦
          let e : (c.vehicle.vehicle_id == s.last_intro_vehicle_id) ≡ false = ground arith in
          simp e ((tt, (refl, tt)), λ m. refl)
      | yes eq ↦
          let e : (c.vehicle.vehicle_id == s.last_intro_vehicle_id) ≡ true = ground arith in
          let k : known ≡ some s.last_intro_vehicle_id = h (rw (← eq) n) in
          let k' : known ≡ some c.vehicle.vehicle_id = k ∙ ap some (sym eq) in
          elim (Bool-cases due) [
            | inl d ↦ simp (e, d) ((k', tt), λ m. k)
            | inr d ↦ simp (e, d) (tt, λ m. k)
          ]
    ]

start-Remembers :
    (s : TxState) (known : Option ℕ)
    → Remembers s.last_intro_vehicle_id known
    → Remembers (start_part s).last_intro_vehicle_id known
unfolding start_part
start-Remembers s known h = elim (Bool-cases s.last_active) [
  | inl e ↦ simp e h
  | inr e ↦ simp e (λ n. absurd (n refl))
]

part-RoundOk :
    (s : TxState) (due connected : Bool) (c : Option CandidateSelection) (known : Option ℕ)
    → HasId c
    → Remembers s.last_intro_vehicle_id known
    → RoundOk known (candidate_part s due connected c)
part-RoundOk s due true none known n h = dropped-RoundOk s due TxMessage.no_candidate known tt
part-RoundOk s due false none known n h = dropped-RoundOk s due TxMessage.unavailable known tt
part-RoundOk s due connected (some c) known n h = selected-RoundOk s due c known n h

module _ {D : Doubles} (map : MapService D) where
  report-RoundOk :
      (s : TxState) (env : Env) (known : Option ℕ)
      → HasId (round_candidate map env)
      → Remembers s.last_intro_vehicle_id known
      → RoundOk known (report_round map s env)
  unfolding stop_part
  report-RoundOk s env known n h = elim (Bool-cases env.active) [
    | inl e ↦ simp e (
        part-RoundOk (start_part s) _ env.connected (round_candidate map env) known n
          (start-Remembers s known h))
    | inr e ↦ elim (Bool-cases s.last_active) [
      | inl a ↦ simp (e, a) ((tt, tt), λ m. absurd (m refl))
      | inr a ↦ simp (e, a) (tt, h)
    ]
  ]

  run-Introduced :
      (envs : List Env) (s : TxState) (known : Option ℕ)
      → All (λ env. HasId (round_candidate map env)) envs
      → Remembers s.last_intro_vehicle_id known
      → Introduced known (tx_run map s envs).1
  run-Introduced [] s known n h = tt
  run-Introduced (env ∷ envs) s known n h =
      let t = tx_round map s env in
      let ok = report-RoundOk s env known n.0 h in
      let same = round_report map s env in
      let here = Introduced-reports known t.1.messages (rw same.0 ok.0) in
      let next : Remembers t.0.last_intro_vehicle_id (known_at_end known t.1.messages) =
        rw (same.3, here.1, same.0) ok.1 in
      Introduced-append known t.1.messages (tx_run map t.0 envs).1 here.0
        (run-Introduced envs t.0 (known_at_end known t.1.messages) n.1 next)

  -- From its start on, whatever the connection, the candidate mode and the managers do, the loop sends
  -- a vehicle's status only while the controller knows that vehicle: it is the one introduced last,
  -- and no notice that there is no candidate came after. No candidate may have the id 0.
  pub tx_run_introduces :
      (envs : List Env)
      → All (λ env. HasId (round_candidate map env)) envs
      → Introduced none (tx_run map tx_init envs).1
  tx_run_introduces envs n = run-Introduced envs tx_init none n (λ m. absurd (m refl))
