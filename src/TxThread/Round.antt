-- ===== src/TxThread/Round.antt =====
-- core/can_tx_thread.c: the branches of a round of the CAN transmit thread, and the round.
use green_right_topst_linux.Base.{
  ℕ, List, [], ◌∷◌, ◌++◌, Bool, true, false, ◌||◌, Option, none, some, leb, ◌==◌, ◌/◌,
  if◌then◌else◌,
}
use green_right_topst_linux.Types.{VehicleInfo, TrafficLight}
use green_right_topst_linux.Doubles.{Doubles}
use green_right_topst_linux.Map.Service.{MapService}
use green_right_topst_linux.OtherVehicles.{OtherVehicleManager, other_vehicle_manager_set_candidate}
use green_right_topst_linux.TrafficLights.{
  TrafficLightManager, traffic_light_manager_select_candidate, traffic_light_manager_get_candidate,
}
use green_right_topst_linux.Candidate.{
  CandidateSelection, select_candidate_vehicle, maneuver_code_from_self,
  select_farthest_self_conflict_zone_center, select_candidate_traffic_light_id,
}
use green_right_topst_linux.TxThread.{
  TxMessage, TxState, Env, Effect, advance, ntp_part, candidate_id_none,
  candidate_status_tx_period_ms, traffic_light_tx_period_ms,
}

-- Mode ended: the notice, once.
unfoldable pub stop_part :
    TxState → OtherVehicleManager → TxState × OtherVehicleManager × List TxMessage
stop_part s others =
    if s.last_active
    then (
      record s {
        last_active = false;
        last_had_candidate = false;
        last_intro_vehicle_id = candidate_id_none;
        candidate_status_elapsed_ms = 0;
      },
      other_vehicle_manager_set_candidate others none,
      TxMessage.no_candidate ∷ [],
    )
    else (s, others, [])

unfoldable pub start_part : TxState → TxState
start_part s = if s.last_active then s else record s {
  last_active = true;
  last_had_candidate = false;
  last_intro_vehicle_id = candidate_id_none;
  candidate_status_elapsed_ms = candidate_status_tx_period_ms;
  traffic_light_elapsed_ms = traffic_light_tx_period_ms / 2;
}

-- Without a candidate: the notice if a status is due or there was a candidate.
unfoldable pub dropped : TxState → Bool → TxMessage → TxState × List TxMessage
dropped s status_due notice =
    if status_due || s.last_had_candidate
    then (
      record s {
        candidate_status_elapsed_ms = 0;
        last_intro_vehicle_id = candidate_id_none;
        last_had_candidate = false;
      },
      notice ∷ [],
    )
    else (record s { last_intro_vehicle_id = candidate_id_none; last_had_candidate = false }, [])

-- With a candidate: an introduction if it is new, and its status if due or new.
unfoldable pub selected : TxState → Bool → CandidateSelection → TxState × List TxMessage
selected s status_due selection =
    if selection.vehicle.vehicle_id == s.last_intro_vehicle_id
    then if status_due
      then (
        record s { candidate_status_elapsed_ms = 0; last_had_candidate = true },
        TxMessage.status selection ∷ [],
      )
      else (record s { last_had_candidate = true }, [])
    else (
      record s {
        last_intro_vehicle_id = selection.vehicle.vehicle_id;
        candidate_status_elapsed_ms = 0;
        last_had_candidate = true;
      },
      TxMessage.intro selection ∷ TxMessage.status selection ∷ [],
    )

abbrev pub candidate_vehicle : Option CandidateSelection → Option VehicleInfo
candidate_vehicle none = none
candidate_vehicle (some selection) = some selection.vehicle

-- The candidate of an active round: none without connection or fresh own data.
abbrev pub round_candidate : {D : Doubles} → MapService D → Env → Option CandidateSelection
round_candidate map env =
    if env.connected
    then elim env.self [ none ↦ none | some self ↦ select_candidate_vehicle map env.others self ]
    else none

abbrev pub candidate_part :
    TxState → Bool → Bool → Option CandidateSelection → TxState × List TxMessage
candidate_part s status_due connected (some selection) = selected s status_due selection
candidate_part s status_due connected none =
    dropped s status_due (if connected then TxMessage.no_candidate else TxMessage.unavailable)

abbrev pub light_message : ℕ × ℕ → ℕ → Option (ℕ × TrafficLight) → TxMessage
light_message center maneuver none = TxMessage.no_traffic_light center.0 center.1 maneuver
light_message center maneuver (some (tl_id, tl)) =
    TxMessage.traffic_light tl_id tl center.0 center.1 maneuver

abbrev pub light_of_self :
    {D : Doubles}
    → MapService D
    → TrafficLightManager
    → Option VehicleInfo
    → TrafficLightManager × TxMessage
light_of_self map lights none =
    (lights, TxMessage.no_traffic_light 0 0 (maneuver_code_from_self none))
light_of_self map lights (some self) =
    let lights' =
      traffic_light_manager_select_candidate lights (select_candidate_traffic_light_id self) in
    (
      lights',
      light_message (select_farthest_self_conflict_zone_center map self)
          (maneuver_code_from_self (some self)) (traffic_light_manager_get_candidate lights'),
    )

unfoldable pub send_candidate_traffic_light :
    {D : Doubles} → MapService D → Env → TrafficLightManager × TxMessage
send_candidate_traffic_light map env =
    if env.connected_for_light then light_of_self map env.traffic_lights env.self else (
      env.traffic_lights,
      TxMessage.traffic_light_unavailable (maneuver_code_from_self env.self),
    )

unfoldable pub light_part :
    {D : Doubles}
    → MapService D
    → Env
    → Bool
    → TxState
    → TxState × TrafficLightManager × List TxMessage
light_part map env traffic_light_due s =
    if traffic_light_due
    then (record s { traffic_light_elapsed_ms = 0 }, sent.0, sent.1 ∷ [])
    else (s, env.traffic_lights, [])
  where
    sent : TrafficLightManager × TxMessage
    sent = send_candidate_traffic_light map env

-- A round after the NTP part: without and with candidate mode.
unfoldable pub inactive_round : {D : Doubles} → MapService D → Env → TxState → TxState × Effect
inactive_round map env s =
    let traffic_light_due = leb traffic_light_tx_period_ms s.traffic_light_elapsed_ms in
    let (s1, others, notice) = stop_part s env.others in
    let (s2, lights, light) = light_part map env traffic_light_due s1 in
    (s2, record { others = others; traffic_lights = lights; messages = notice ++ light })

unfoldable pub active_round : {D : Doubles} → MapService D → Env → TxState → TxState × Effect
active_round map env s =
    let status_due =
      if s.last_active
      then leb candidate_status_tx_period_ms s.candidate_status_elapsed_ms
      else true in
    let traffic_light_due =
      if s.last_active then leb traffic_light_tx_period_ms s.traffic_light_elapsed_ms else false in
    let candidate = round_candidate map env in
    let (s1, report) = candidate_part (start_part s) status_due env.connected candidate in
    let (s2, lights, light) = light_part map env traffic_light_due s1 in
    (
      s2,
      record {
        others = other_vehicle_manager_set_candidate env.others (candidate_vehicle candidate);
        traffic_lights = lights;
        messages = report ++ light;
      },
    )

-- One round of `can_tx_thread_main`.
unfoldable pub tx_round : {D : Doubles} → MapService D → TxState → Env → TxState × Effect
tx_round map s env =
    let (s1, sync) = ntp_part s in
    let (s2, effect) = if env.active then active_round map env s1 else inactive_round map env s1 in
    (advance s2, record effect { messages = sync ++ effect.messages })

-- The messages of the rounds, and the state after them.
abbrev pub tx_run : {D : Doubles} → MapService D → TxState → List Env → TxState × List TxMessage
tx_run map s [] = (s, [])
tx_run map s (env ∷ envs) =
    let (s', effect) = tx_round map s env in
    let (s'', messages) = tx_run map s' envs in (s'', effect.messages ++ messages)
