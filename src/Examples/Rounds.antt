-- ===== src/Examples/Rounds.antt =====
-- The transmit loop and the choice of a candidate on concrete rounds.
use green_right_topst_linux.Base.{
  ◌≤◌, ◌≡◌, ◌⊎◌, refl, [], ◌∷◌, none, length, arith, is_empty, str_eq, safe_copy,
}
use green_right_topst_linux.Candidate.{
  select_candidate_vehicle, select_loop, selection_of, take_nearer, find_shared_conflict_zone,
  shared_loop, vehicle_has_conflict_zone, zone_loop, compute_type_mask,
}
use green_right_topst_linux.Candidate.Select.{Any, Nearest, select_candidate_vehicle-Nearest}
use green_right_topst_linux.Map.{find_area}
use green_right_topst_linux.Map.Service.{
  map_service_get_conflict_zone_center, find_conflict_zone, sum_points,
}
use green_right_topst_linux.OtherVehicles.{
  other_vehicle_manager_copy_valid, copy_loop, other_vehicle_manager_init,
  other_vehicle_manager_update,
}
use green_right_topst_linux.TxThread.{tx_init}
use green_right_topst_linux.TxThread.Round.{tx_run, round_candidate}
use green_right_topst_linux.TxThread.Report.{reports}
use green_right_topst_linux.TxThread.Intro.{Introduced, HasId, tx_run_introduces}
use green_right_topst_linux.TxThread.Timing.{tx_run-reports}
use green_right_topst_linux.Examples.{service, own, others, env_active, env_idle}

candidate_id : HasId (round_candidate service env_active)
unfolding select_candidate_vehicle select_loop selection_of take_nearer find_shared_conflict_zone
    shared_loop vehicle_has_conflict_zone zone_loop compute_type_mask is_empty str_eq safe_copy
    find_area map_service_get_conflict_zone_center find_conflict_zone sum_points
    other_vehicle_manager_copy_valid copy_loop other_vehicle_manager_init
    other_vehicle_manager_update
candidate_id = λ e. omega (arith, e)

candidate_id_idle : HasId (round_candidate service env_idle)
candidate_id_idle = candidate_id

tx_run_introduces_example :
    Introduced none (tx_run service tx_init (env_active ∷ env_idle ∷ env_active ∷ [])).1
tx_run_introduces_example =
    tx_run_introduces service (env_active ∷ env_idle ∷ env_active ∷ [])
      (candidate_id, (candidate_id_idle, (candidate_id, tt)))

tx_run-reports_example :
    1
    ≤ length (
        reports
          (tx_run service
            (tx_run service tx_init (env_idle ∷ [])).0
            (env_active ∷ env_active ∷ [])).1)
tx_run-reports_example = tx_run-reports service (env_idle ∷ []) env_active env_active refl refl

select_candidate_vehicle-Nearest_example :
    let vs = other_vehicle_manager_copy_valid others 64 in
    let chosen = select_candidate_vehicle service others own in
    ((chosen ≡ none) ⊎ Any (λ v. selection_of service own v ≡ chosen) vs)
    × Nearest service own vs chosen
select_candidate_vehicle-Nearest_example = select_candidate_vehicle-Nearest service own others
