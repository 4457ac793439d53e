-- ===== src/Candidate.antt =====
-- core/can_tx_thread.c: which other vehicle is reported to the controller as the candidate.
pub mod Select
use green_right_topst_linux.Base.{
  ◌>>=◌, ℕ, ◌+◌, ◌-◌, ◌*◌, ◌%◌, ◌^◌, List, [], ◌∷◌, Bool, true, false, ◌&&◌, ◌||◌, Option, none,
  some, ltb, ◌==◌, if◌then◌else◌, Str, codes, str_eq, is_empty, safe_copy,
}
use green_right_topst_linux.Types.{
  VehicleInfo, vehicle_info_id_len, max_other_vehicles, invalid_id, used_zones,
}
use green_right_topst_linux.Doubles.{Doubles}
use green_right_topst_linux.Map.Service.{
  MapService, map_service_get_conflict_zone_center, map_service_parse_traffic_light_num,
}
use green_right_topst_linux.OtherVehicles.{OtherVehicleManager, other_vehicle_manager_copy_valid}

abbrev pub type_mask_right_vs_straight : ℕ
type_mask_right_vs_straight = 1

abbrev pub type_mask_right_vs_left : ℕ
type_mask_right_vs_left = 2

abbrev pub type_mask_left_vs_straight : ℕ
type_mask_left_vs_straight = 4

abbrev pub type_mask_left_vs_right : ℕ
type_mask_left_vs_right = 8

abbrev pub maneuver_straight : ℕ
maneuver_straight = 0

abbrev pub maneuver_right_turn : ℕ
maneuver_right_turn = 1

abbrev pub maneuver_unprotected_left : ℕ
maneuver_unprotected_left = 2

abbrev pub maneuver_left_turn : ℕ
maneuver_left_turn = 3

pub record CandidateSelection : Type 0 where
  pub vehicle : VehicleInfo
  pub type_mask : ℕ
  pub conflict_zone_id : Str
  pub conflict_zone_center_x : ℕ
  pub conflict_zone_center_y : ℕ

unfoldable pub zone_loop : Str → List Str → Bool
zone_loop conflict_zone_id [] = false
zone_loop conflict_zone_id (z ∷ zs) = str_eq z conflict_zone_id || zone_loop conflict_zone_id zs

unfoldable pub vehicle_has_conflict_zone : VehicleInfo → Str → Bool
vehicle_has_conflict_zone vehicle conflict_zone_id =
    if is_empty conflict_zone_id then false else zone_loop conflict_zone_id (used_zones vehicle)

unfoldable pub shared_loop : VehicleInfo → List Str → Option Str
shared_loop other [] = none
shared_loop other (z ∷ zs) =
    if vehicle_has_conflict_zone other z
    then some (safe_copy vehicle_info_id_len z)
    else shared_loop other zs

unfoldable pub find_shared_conflict_zone : VehicleInfo → VehicleInfo → Option Str
find_shared_conflict_zone self other = shared_loop other (used_zones self)

-- |a - b|, the magnitude of the `int32_t` difference.
abbrev pub gap : ℕ → ℕ → ℕ
gap a b = (a - b) + (b - a)

-- The sum of the squares as `uint32_t`.
unfoldable pub sum_of_squares : ℕ → ℕ → ℕ
sum_of_squares dx dy = (dx * dx + dy * dy) % 2 ^ 32

unfoldable pub distance_squared : VehicleInfo → VehicleInfo → ℕ
distance_squared a b = sum_of_squares (gap a.x b.x) (gap a.y b.y)

abbrev pub is_turn_state : VehicleInfo → Str → Bool
is_turn_state vehicle state = str_eq vehicle.turn_state state

abbrev pub is_protected_left_turn_state : VehicleInfo → Bool
is_protected_left_turn_state vehicle = is_turn_state vehicle (codes "left_turn")

unfoldable pub maneuver_code_from_self : Option VehicleInfo → ℕ
maneuver_code_from_self none = maneuver_straight
maneuver_code_from_self (some self) =
    if is_turn_state self (codes "right_turn")
    then maneuver_right_turn
    else if is_turn_state self (codes "unprotected_left")
    then maneuver_unprotected_left
    else if is_turn_state self (codes "left_turn")
    then maneuver_left_turn
    else maneuver_straight

unfoldable pub compute_type_mask : VehicleInfo → VehicleInfo → Option ℕ
compute_type_mask self other =
    if is_turn_state self (codes "right_turn")
    then if is_turn_state other (codes "straight")
      then some type_mask_right_vs_straight
      else if is_protected_left_turn_state other
      then some type_mask_right_vs_left
      else none
    else if is_turn_state self (codes "unprotected_left")
    then if is_turn_state other (codes "straight")
      then some type_mask_left_vs_straight
      else if is_turn_state other (codes "right_turn")
      then some type_mask_left_vs_right
      else none
    else none

-- The end of the loop body: `best` is `none` while `found` is false.
unfoldable pub take_nearer :
    VehicleInfo → Option CandidateSelection → Option CandidateSelection → Option CandidateSelection
take_nearer self best none = best
take_nearer self none (some new) = some new
take_nearer self (some old) (some new) =
    if ltb (distance_squared self new.vehicle) (distance_squared self old.vehicle)
    then some new
    else some old

module _ {D : Doubles} where
  -- The checks of the loop body: the selection for this vehicle, or `none` for `continue`.
  unfoldable pub selection_of : MapService D → VehicleInfo → VehicleInfo → Option CandidateSelection
  selection_of map self other = if other.vehicle_id == self.vehicle_id then none else do
    zone ← find_shared_conflict_zone self other
    type_mask ← compute_type_mask self other
    (center_x, center_y) ← map_service_get_conflict_zone_center map zone
    some (record {
      vehicle = other;
      type_mask = type_mask;
      conflict_zone_id = safe_copy vehicle_info_id_len zone;
      conflict_zone_center_x = D.to_u16 center_x;
      conflict_zone_center_y = D.to_u16 center_y;
    })

  unfoldable pub select_loop :
      MapService D
      → VehicleInfo
      → List VehicleInfo
      → Option CandidateSelection
      → Option CandidateSelection
  select_loop map self [] best = best
  select_loop map self (other ∷ others) best =
      select_loop map self others (take_nearer self best (selection_of map self other))

  unfoldable pub select_candidate_vehicle :
      MapService D → OtherVehicleManager → VehicleInfo → Option CandidateSelection
  select_candidate_vehicle map others self =
      select_loop map self (other_vehicle_manager_copy_valid others max_other_vehicles) none

  -- The loop over the own conflict zones; `best` is the distance and the centre.
  unfoldable pub farthest_loop :
      MapService D → VehicleInfo → List Str → Option (ℕ × ℕ × ℕ) → Option (ℕ × ℕ × ℕ)
  farthest_loop map self [] best = best
  farthest_loop map self (z ∷ zs) best =
      farthest_loop map self zs (take_farther best (map_service_get_conflict_zone_center map z))
    where
      take_farther : Option (ℕ × ℕ × ℕ) → Option (D.Double × D.Double) → Option (ℕ × ℕ × ℕ)
      take_farther best none = best
      take_farther none (some (center_x, center_y)) =
          let x = D.to_u16 center_x in
          let y = D.to_u16 center_y in some (sum_of_squares (gap x self.x) (gap y self.y), x, y)
      take_farther (some (distance, best_x, best_y)) (some (center_x, center_y)) =
          let x = D.to_u16 center_x in
          let y = D.to_u16 center_y in
          let dist = sum_of_squares (gap x self.x) (gap y self.y) in
          if ltb distance dist then some (dist, x, y) else some (distance, best_x, best_y)

  -- The centre, or (0, 0), which the caller has set, if there is none.
  unfoldable pub select_farthest_self_conflict_zone_center : MapService D → VehicleInfo → ℕ × ℕ
  select_farthest_self_conflict_zone_center map self =
      elim (farthest_loop map self (used_zones self) none) [
        | none ↦ (0, 0)
        | some (distance, best_x, best_y) ↦ (best_x, best_y)
      ]

unfoldable pub select_candidate_traffic_light_id : VehicleInfo → ℕ
select_candidate_traffic_light_id self = map_service_parse_traffic_light_num self.linked_tl_id
