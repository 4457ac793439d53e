-- ===== src/TrafficLights.antt =====
-- manager/traffic_light_manager.c: the last state of each traffic light, and the candidate light.
-- Each function runs under the manager's mutex, so that it is one step. The arrays `table` and `valid`
-- are one list: a slot is `none` if it is not valid.
use green_right_topst_linux.Base.{
  ℕ, ◌≡◌, List, Bool, true, false, ◌&&◌, Option, none, some, ltb, leb, ◌==◌, if◌then◌else◌, arith,
  length, get_or, set, replicate, get_or-set_self, get_or-set_ne,
}
use native.Mathlib.Decide.{ℕ_discrete}
use green_right_topst_linux.Types.{TrafficLight, blank_light, max_traffic_lights, invalid_id}

pub record Slot : Type 0 where
  pub light : TrafficLight
  pub valid : Bool

abbrev pub blank_slot : Slot
blank_slot = record { light = blank_light; valid = false }

pub record TrafficLightManager : Type 0 where
  pub slots : List Slot
  pub candidate : TrafficLight
  pub candidate_id : ℕ
  pub candidate_valid : Bool

unfoldable pub traffic_light_manager_init : TrafficLightManager
traffic_light_manager_init = record {
  slots = replicate max_traffic_lights blank_slot;
  candidate = blank_light;
  candidate_id = invalid_id;
  candidate_valid = false;
}

unfoldable pub traffic_light_manager_update :
    TrafficLightManager → ℕ → TrafficLight → TrafficLightManager
traffic_light_manager_update m tl_id tl =
    if leb max_traffic_lights tl_id
    then m
    else record m { slots = set m.slots tl_id (record { light = tl; valid = true }) }

abbrev pub slot : TrafficLightManager → ℕ → Slot
slot m i = get_or m.slots i blank_slot

unfoldable pub traffic_light_manager_get : TrafficLightManager → ℕ → Option TrafficLight
traffic_light_manager_get m tl_id =
    if leb max_traffic_lights tl_id
    then none
    else if (slot m tl_id).valid
    then some (slot m tl_id).light
    else none

unfoldable pub traffic_light_manager_select_candidate :
    TrafficLightManager → ℕ → TrafficLightManager
traffic_light_manager_select_candidate m tl_id =
    if ltb tl_id max_traffic_lights && (slot m tl_id).valid
    then record m { candidate = (slot m tl_id).light; candidate_id = tl_id; candidate_valid = true }
    else record m { candidate = blank_light; candidate_id = invalid_id; candidate_valid = false }

-- The id and the light of the candidate.
unfoldable pub traffic_light_manager_get_candidate : TrafficLightManager → Option (ℕ × TrafficLight)
traffic_light_manager_get_candidate m =
    if m.candidate_valid then some (m.candidate_id, m.candidate) else none

-- In a table of 8 slots: after an update a lookup at its id gives the new light, if that id is below 8;
-- every other lookup is as before, and so is the candidate.
pub get-traffic_light_manager_update :
    (m : TrafficLightManager) (tl_id : ℕ) (tl : TrafficLight) (j : ℕ)
    → length m.slots ≡ 8
    → (traffic_light_manager_get (traffic_light_manager_update m tl_id tl) j ≡ (
        if ltb tl_id 8
        then if tl_id == j then some tl else traffic_light_manager_get m j
        else traffic_light_manager_get m j))
      × (traffic_light_manager_get_candidate (traffic_light_manager_update m tl_id tl)
          ≡ traffic_light_manager_get_candidate m)
unfolding traffic_light_manager_get traffic_light_manager_update traffic_light_manager_get_candidate
get-traffic_light_manager_update m tl_id tl j h = (
  elim (ℕ_discrete tl_id j) [
    | yes e ↦ ground (arith, get_or-set_self m.slots tl_id new blank_slot)
    | no ne ↦ ground (arith, get_or-set_ne m.slots tl_id j new blank_slot ne)
  ],
  ground arith,
)
  where
    new : Slot
    new = record { light = tl; valid = true }

abbrev pub tagged : ℕ → Option TrafficLight → Option (ℕ × TrafficLight)
tagged i none = none
tagged i (some tl) = some (i, tl)

-- Selecting a candidate makes it the light a lookup of that id gives, with its id, and no candidate
-- if the lookup gives none; lookups are as before.
pub select_candidate-get :
    (m : TrafficLightManager) (tl_id j : ℕ)
    → (traffic_light_manager_get_candidate (traffic_light_manager_select_candidate m tl_id)
        ≡ tagged tl_id (traffic_light_manager_get m tl_id))
      × (traffic_light_manager_get (traffic_light_manager_select_candidate m tl_id) j
          ≡ traffic_light_manager_get m j)
unfolding traffic_light_manager_get traffic_light_manager_select_candidate
    traffic_light_manager_get_candidate
select_candidate-get m tl_id j = (ground arith, ground arith)
