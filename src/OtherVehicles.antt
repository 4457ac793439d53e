-- ===== src/OtherVehicles.antt =====
-- manager/other_vehicle_manager.c: what the other vehicles last reported, by vehicle id.
-- Each function runs under the manager's mutex, so that it is one step. The arrays `table`, `valid`
-- and `last_updated_ms` are one list of slots. Clock readings are arguments.
pub mod Table
pub mod Stale
use green_right_topst_linux.Base.{
  ℕ, suc, ◌+◌, ◌-◌, ◌%◌, ◌^◌, List, [], ◌∷◌, Bool, true, false, ◌&&◌, Option, none, some, ltb, leb,
  ◌==◌, if◌then◌else◌, length, get_or, set, replicate,
}
use green_right_topst_linux.Types.{VehicleInfo, blank_vehicle, max_other_vehicles}

pub record Slot : Type 0 where
  pub vehicle : VehicleInfo
  pub valid : Bool
  pub last_updated_ms : ℕ

abbrev pub blank_slot : Slot
blank_slot = record { vehicle = blank_vehicle; valid = false; last_updated_ms = 0 }

-- `candidate` and `candidate_valid`.
pub record Candidate : Type 0 where
  pub vehicle : VehicleInfo
  pub valid : Bool

abbrev pub no_candidate : Candidate
no_candidate = record { vehicle = blank_vehicle; valid = false }

pub record OtherVehicleManager : Type 0 where
  pub slots : List Slot
  pub candidate : Candidate

unfoldable pub other_vehicle_manager_init : OtherVehicleManager
other_vehicle_manager_init = record {
  slots = replicate max_other_vehicles blank_slot;
  candidate = no_candidate;
}

unfoldable pub other_vehicle_manager_update :
    OtherVehicleManager → VehicleInfo → ℕ → OtherVehicleManager
other_vehicle_manager_update m v now =
    if leb max_other_vehicles v.vehicle_id
    then m
    else record m { slots = set m.slots v.vehicle_id slot }
  where
    slot : Slot
    slot = record { vehicle = v; valid = true; last_updated_ms = now }

abbrev pub slot : OtherVehicleManager → ℕ → Slot
slot m i = get_or m.slots i blank_slot

unfoldable pub other_vehicle_manager_get : OtherVehicleManager → ℕ → Option VehicleInfo
other_vehicle_manager_get m vehicle_id =
    if leb max_other_vehicles vehicle_id
    then none
    else if (slot m vehicle_id).valid
    then some (slot m vehicle_id).vehicle
    else none

unfoldable pub count_loop : List Slot → ℕ → ℕ
count_loop [] count = count
count_loop (s ∷ ss) count = count_loop ss (if s.valid then count + 1 else count)

unfoldable pub other_vehicle_manager_count : OtherVehicleManager → ℕ
unfolding count_loop
other_vehicle_manager_count m = count_loop m.slots 0

-- The list written to `out`; its length is the count returned. `room` is `max_count - count`.
unfoldable pub copy_loop : List Slot → ℕ → List VehicleInfo
copy_loop [] room = []
copy_loop (s ∷ ss) ℕ.zero = []
copy_loop (s ∷ ss) (suc room) = elim s.valid [
  | true ↦ s.vehicle ∷ copy_loop ss room
  | false ↦ copy_loop ss (suc room)
]

unfoldable pub other_vehicle_manager_copy_valid : OtherVehicleManager → ℕ → List VehicleInfo
unfolding copy_loop
other_vehicle_manager_copy_valid m max_count = copy_loop m.slots max_count

-- `now - last_updated_ms[i] > timeout_ms` on `uint64_t`
unfoldable pub is_stale : ℕ → ℕ → Slot → Bool
is_stale now timeout_ms s = s.valid && ltb timeout_ms ((now + 2 ^ 64 - s.last_updated_ms) % 2 ^ 64)

unfoldable pub cleanup_slot : ℕ → ℕ → Slot → Slot
cleanup_slot now timeout_ms s = if is_stale now timeout_ms s then record s { valid = false } else s

unfoldable pub cleanup_candidate : ℕ → ℕ → ℕ → Slot → Candidate → Candidate
cleanup_candidate now timeout_ms i s c =
    if is_stale now timeout_ms s && (c.valid && c.vehicle.vehicle_id == i) then no_candidate else c

-- The loop from index `i` on.
unfoldable pub cleanup_loop : ℕ → ℕ → ℕ → List Slot → Candidate → List Slot × Candidate
unfolding cleanup_slot cleanup_candidate is_stale
cleanup_loop now timeout_ms i [] c = ([], c)
cleanup_loop now timeout_ms i (s ∷ ss) c =
    let (rest, c') =
      cleanup_loop now timeout_ms (i + 1) ss (cleanup_candidate now timeout_ms i s c) in
    (cleanup_slot now timeout_ms s ∷ rest, c')

-- `now` is read before the mutex is taken.
unfoldable pub other_vehicle_manager_cleanup_stale :
    OtherVehicleManager → ℕ → ℕ → OtherVehicleManager
other_vehicle_manager_cleanup_stale m timeout_ms now =
    let (slots, c) = cleanup_loop now timeout_ms 0 m.slots m.candidate in
    record { slots = slots; candidate = c }

unfoldable pub other_vehicle_manager_set_candidate :
    OtherVehicleManager → Option VehicleInfo → OtherVehicleManager
other_vehicle_manager_set_candidate m none = record m { candidate = no_candidate }
other_vehicle_manager_set_candidate m (some v) = record m {
  candidate = record { vehicle = v; valid = true };
}

unfoldable pub other_vehicle_manager_get_candidate : OtherVehicleManager → Option VehicleInfo
other_vehicle_manager_get_candidate m = if m.candidate.valid then some m.candidate.vehicle else none
