-- ===== src/SelfVehicle/Freshness.antt =====
-- What manager/self_vehicle_manager.c hands out after an update from the CAN bus, and for how long.
use green_right_topst_linux.Base.{
  ℕ, zero, suc, ◌+◌, ◌-◌, ◌%◌, ◌^◌, ◌≤◌, ◌<◌, ◌≡◌, refl, ap, ◌∙◌, List, [], ◌∷◌, true, false, ◌&&◌,
  none, some, inl, inr, leb, if◌then◌else◌, arith, length, take, Bool-cases, Str, is_empty,
  safe_copy,
}
use green_right_topst_linux.Types.{VehicleInfo, EgoVehicle, MapContext, TurnState, used_zones}
use green_right_topst_linux.Doubles.{Doubles}
use green_right_topst_linux.Map.Service.{
  MapService, map_service_query_vehicle_context, map_service_get_conflict_zone_ids_for_movement,
}
use green_right_topst_linux.Map.Zones.{conflict_zone_ids_for_movement_complete}
use green_right_topst_linux.SelfVehicle.{
  SelfVehicleManager, turn_state_to_string, set_conflict_zones, fill_map_fields,
  fill_conflict_zones_from_lane, kept_loop, filter_existing_conflict_zones_by_projection,
  update_conflict_zones, info_of_ego, self_vehicle_manager_update_from_can,
  self_vehicle_manager_get_info, written_or,
}

-- What the conflict zones do not touch, and that their count is in bounds.
abbrev pub ZonesOf : VehicleInfo → VehicleInfo → Type 0
ZonesOf info v =
    (v.x ≡ info.x)
    × (v.y ≡ info.y)
    × (v.speed ≡ info.speed)
    × (v.heading ≡ info.heading)
    × (v.vehicle_id ≡ info.vehicle_id)
    × (v.timestamp_ms ≡ info.timestamp_ms)
    × (v.turn_state ≡ info.turn_state)
    × (v.conflict_zone_count ≤ 4)

set-ZonesOf :
    (info : VehicleInfo) (ids : List Str)
    → length ids ≤ 4
    → ZonesOf info (set_conflict_zones info ids)
unfolding set_conflict_zones
set-ZonesOf info ids h = (refl, refl, refl, refl, refl, refl, refl, h)

length-take-le : (n : ℕ) (xs : List Str) → length (take n xs) ≤ n
length-take-le zero xs = omega arith
length-take-le (suc n) [] = omega arith
length-take-le (suc n) (x ∷ xs) = omega (arith, length-take-le n xs)

module _ {D : Doubles} (map_service : MapService D) where
  length-kept_loop :
      (info : VehicleInfo) (ids : List Str) → length (kept_loop map_service info ids) ≤ length ids
  unfolding kept_loop
  length-kept_loop info [] = omega arith
  length-kept_loop info (z ∷ zs) = ground (arith, length-kept_loop info zs)

  movement_count :
      (lane movement : Str)
      → length (map_service_get_conflict_zone_ids_for_movement map_service lane movement 4) ≤ 4
  unfolding map_service_get_conflict_zone_ids_for_movement
  movement_count lane movement = elim (Bool-cases map_service.loaded) [
    | inl e ↦ simp e (conflict_zone_ids_for_movement_complete map_service.map lane movement 4).0
    | inr e ↦ simp e (omega arith)
  ]

  update-ZonesOf :
      (info : VehicleInfo) (context : MapContext) (turn_state : TurnState)
      → ZonesOf info (update_conflict_zones info map_service context turn_state)
  unfolding update_conflict_zones fill_conflict_zones_from_lane
      filter_existing_conflict_zones_by_projection
  update-ZonesOf info context turn_state =
      elim (Bool-cases (context.found && (if is_empty context.lanelet_id then false else true))) [
        | inl e ↦ simp e (elim (Bool-cases (is_empty context.lanelet_id)) [
          | inl f ↦ simp f (set-ZonesOf info [] (omega arith))
          | inr f ↦ simp f (set-ZonesOf info _ (movement_count _ _))
        ])
        | inr e ↦ simp e (
            set-ZonesOf info _ (
              omega (
                arith,
                length-kept_loop info (used_zones info),
                length-take-le 4 (take info.conflict_zone_count info.conflict_zone_ids),
              )))
      ]

string_fits : (s : TurnState) → safe_copy 24 (turn_state_to_string s) ≡ turn_state_to_string s
unfolding safe_copy turn_state_to_string
string_fits TurnState.straight = refl
string_fits TurnState.right_turn = refl
string_fits TurnState.left_turn = refl
string_fits TurnState.unprotected_left = refl

age_lem :
    (updated now : ℕ)
    → updated ≤ now
    → now < 2 ^ 64
    → leb ((now + 2 ^ 64 - updated) % 2 ^ 64) 300 ≡ leb (now - updated) 300
age_lem updated now h k = ap (λ n. leb n 300) (omega arith)

-- On a clock below 2^64 that does not run backwards: for 300 ms after an update the manager hands out
-- its vehicle, and then nothing; that vehicle has the frame's values, the own id, the given time, the
-- turn state's name and at most four conflict zones.
pub get_info-update_from_can :
    {D : Doubles} (map : MapService D) (m : SelfVehicleManager) (garbage : MapContext)
    (ego : EgoVehicle) (timestamp updated now : ℕ)
    → updated ≤ now
    → now < 2 ^ 64
    → let m' = self_vehicle_manager_update_from_can m map garbage ego timestamp updated in
      (self_vehicle_manager_get_info m' now
        ≡ (if leb (now - updated) 300 then some m'.info else none))
      × (m'.info.x ≡ ego.x)
      × (m'.info.y ≡ ego.y)
      × (m'.info.speed ≡ ego.speed)
      × (m'.info.heading ≡ ego.heading)
      × (m'.info.vehicle_id ≡ m.vehicle_id)
      × (m'.info.timestamp_ms ≡ timestamp)
      × (m'.info.turn_state ≡ turn_state_to_string m.turn_state)
      × (m'.info.conflict_zone_count ≤ 4)
unfolding self_vehicle_manager_update_from_can self_vehicle_manager_get_info info_of_ego
    fill_map_fields
get_info-update_from_can map m garbage ego timestamp updated now h k =
    let context = written_or garbage (map_service_query_vehicle_context map ego.x ego.y) in
    let z =
      update-ZonesOf map (fill_map_fields (info_of_ego m ego timestamp) context) context
        m.turn_state in
    let v =
      update_conflict_zones (fill_map_fields (info_of_ego m ego timestamp) context) map context
        m.turn_state in
    (
      ap (λ b. if b then some v else none) (age_lem updated now h k),
      z.0,
      z.1,
      z.2,
      z.3,
      z.4,
      z.5,
      z.6 ∙ string_fits m.turn_state,
      z.7,
    )
