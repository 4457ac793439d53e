-- ===== src/OtherVehicles/Table.antt =====
-- The table of manager/other_vehicle_manager.c as a map from vehicle ids.
use green_right_topst_linux.Base.{
  ℕ, zero, suc, ◌+◌, ◌≤◌, ◌<◌, ◌≡◌, refl, ap, ◌∙◌, subst, List, [], ◌∷◌, true, some, inl, inr, ltb,
  leb, ◌==◌, if◌then◌else◌, arith, length, get_or, set, take, take_all, All, length-set,
  get_or-set_self, get_or-set_ne, get_or-replicate, Bool-cases,
}
use native.Mathlib.Decide.{ℕ_discrete}
use green_right_topst_linux.Types.{VehicleInfo}
use green_right_topst_linux.OtherVehicles.{
  Slot, slot, blank_slot, OtherVehicleManager, other_vehicle_manager_init,
  other_vehicle_manager_update, other_vehicle_manager_get, other_vehicle_manager_count,
  other_vehicle_manager_copy_valid, count_loop, copy_loop,
}

-- All 64 slots are there, and a used slot holds the vehicle of its index.
pub record IsValid (m : OtherVehicleManager) : Type 0 where
  pub size : length m.slots ≡ 64
  pub own : (i : ℕ) → (slot m i).valid ≡ true → (slot m i).vehicle.vehicle_id ≡ i

pub init-IsValid : IsValid other_vehicle_manager_init
unfolding other_vehicle_manager_init
init-IsValid = record {
  size = refl;
  own = λ i h. cc (ap (λ (s : Slot). s.valid) (get_or-replicate 64 i blank_slot));
}

slot-set :
    (m : OtherVehicleManager) (i j : ℕ) (s : Slot)
    → i < length m.slots
    → get_or (set m.slots i s) j blank_slot ≡ (if i == j then s else slot m j)
slot-set m i j s h = elim (ℕ_discrete i j) [
  | yes e ↦ ground (arith, get_or-set_self m.slots i s blank_slot h)
  | no ne ↦ ground (arith, get_or-set_ne m.slots i j s blank_slot ne)
]

-- Updates keep the table well-formed, whatever id the message carries.
pub update-IsValid :
    {m : OtherVehicleManager} (v : VehicleInfo) (now : ℕ)
    → IsValid m
    → IsValid (other_vehicle_manager_update m v now)
unfolding other_vehicle_manager_update
update-IsValid {m} v now w = elim (Bool-cases (leb 64 v.vehicle_id)) [
  | inl e ↦ rw e w
  | inr e ↦ rw e (record {
    size = length-set m.slots v.vehicle_id new ∙ w.size;
    own = λ i. ground (arith, slot-set m v.vehicle_id i new, w.own i, w.size);
  })
]
  where
    new : Slot
    new = record { vehicle = v; valid = true; last_updated_ms = now }

-- In a table of 64 slots: after an update a lookup at the vehicle's id gives the vehicle, if that id is
-- below 64; every other lookup is as before.
pub get-update :
    (m : OtherVehicleManager) (v : VehicleInfo) (now j : ℕ)
    → length m.slots ≡ 64
    → other_vehicle_manager_get (other_vehicle_manager_update m v now) j ≡ (
        if ltb v.vehicle_id 64
        then if v.vehicle_id == j then some v else other_vehicle_manager_get m j
        else other_vehicle_manager_get m j)
unfolding other_vehicle_manager_get other_vehicle_manager_update
get-update m v now j h =
    ground (
      arith,
      slot-set m v.vehicle_id j (record { vehicle = v; valid = true; last_updated_ms = now }),
    )

-- The vehicles in use, in the order of their ids.
abbrev pub valid_vehicles : List Slot → List VehicleInfo
valid_vehicles [] = []
valid_vehicles (s ∷ ss) = if s.valid then s.vehicle ∷ valid_vehicles ss else valid_vehicles ss

copy_loop-take : (ss : List Slot) (room : ℕ) → copy_loop ss room ≡ take room (valid_vehicles ss)
unfolding copy_loop
copy_loop-take [] zero = refl
copy_loop-take [] (suc room) = refl
copy_loop-take (s ∷ ss) zero = refl
copy_loop-take (s ∷ ss) (suc room) =
    ground (arith, copy_loop-take ss room, copy_loop-take ss (suc room))

count_loop-length : (ss : List Slot) (n : ℕ) → count_loop ss n ≡ n + length (valid_vehicles ss)
unfolding count_loop
count_loop-length [] n = omega arith
count_loop-length (s ∷ ss) n = ground (arith, count_loop-length ss n, count_loop-length ss (n + 1))

-- `copy_valid` copies the vehicles in use in the order of their ids, as many as there is room for, and
-- `count` is their number.
pub copy_valid-take :
    (m : OtherVehicleManager) (max_count : ℕ)
    → (other_vehicle_manager_copy_valid m max_count ≡ take max_count (valid_vehicles m.slots))
      × (other_vehicle_manager_count m ≡ length (valid_vehicles m.slots))
unfolding other_vehicle_manager_copy_valid other_vehicle_manager_count
copy_valid-take m max_count =
    (copy_loop-take m.slots max_count, count_loop-length m.slots 0 ∙ omega arith)

-- Ids that rise along the list, from `n` on.
abbrev pub Ascending : ℕ → List VehicleInfo → Type 0
Ascending n [] = Unit {0}
Ascending n (v ∷ vs) = (n ≤ v.vehicle_id) × Ascending (v.vehicle_id + 1) vs

Ascending-mono : (m n : ℕ) (vs : List VehicleInfo) → m ≤ n → Ascending n vs → Ascending m vs
Ascending-mono m n [] h a = tt
Ascending-mono m n (v ∷ vs) h a = (omega arith, a.1)

length-valid_vehicles : (ss : List Slot) → length (valid_vehicles ss) ≤ length ss
length-valid_vehicles [] = omega arith
length-valid_vehicles (s ∷ ss) = ground (arith, length-valid_vehicles ss)

valid_vehicles-All :
    (P : VehicleInfo → Type 0) (ss : List Slot) (i : ℕ)
    → All P (valid_vehicles ss)
    → (get_or ss i blank_slot).valid ≡ true
    → P (get_or ss i blank_slot).vehicle
valid_vehicles-All P [] i all h = absurd cc
valid_vehicles-All P (s ∷ ss) zero all h = (rw h at all).0
valid_vehicles-All P (s ∷ ss) (suc i) all h = elim (Bool-cases s.valid) [
  | inl e ↦ valid_vehicles-All P ss i (rw e at all).1 h
  | inr e ↦ valid_vehicles-All P ss i (rw e at all) h
]

module _ (m : OtherVehicleManager) (w : IsValid m) where
  abbrev pub Found : VehicleInfo → Type 0
  Found v = other_vehicle_manager_get m v.vehicle_id ≡ some v

  get_slot :
      (i : ℕ) (s : Slot)
      → i < 64
      → s ≡ slot m i
      → s.valid ≡ true
      → other_vehicle_manager_get m i ≡ some s.vehicle
  unfolding other_vehicle_manager_get
  get_slot i s h e u = ground arith

  Found-slot :
      (i : ℕ) (s : Slot)
      → i < 64
      → s ≡ slot m i
      → s.valid ≡ true
      → (s.vehicle.vehicle_id ≡ i) × Found s.vehicle
  Found-slot i s h e u =
      let own = w.own i (rw (← e) u) in
      let id : s.vehicle.vehicle_id ≡ i = rw e own in
      (id, ap (other_vehicle_manager_get m) id ∙ get_slot i s h e u)

  Found-from :
      (ss : List Slot) (i : ℕ)
      → i + length ss ≡ 64
      → ((j : ℕ) → get_or ss j blank_slot ≡ slot m (i + j))
      → All Found (valid_vehicles ss) × Ascending i (valid_vehicles ss)
  Found-from [] i k h = (tt, tt)
  Found-from (s ∷ ss) i k h =
      let rest = Found-from ss (i + 1) (omega arith) (λ j. h (suc j) ∙ ap (slot m) (omega arith)) in
      let here : s ≡ slot m i = h 0 ∙ ap (slot m) (omega arith) in
      elim (Bool-cases s.valid) [
        | inl u ↦
            (let f = Found-slot i s (omega arith) here u in
              rw u ((f.1, rest.0), (omega (arith, f.0), rw f.0 rest.1)))
        | inr u ↦ rw u (rest.0, Ascending-mono i (i + 1) (valid_vehicles ss) (omega arith) rest.1)
      ]

  copy_all : other_vehicle_manager_copy_valid m 64 ≡ valid_vehicles m.slots
  copy_all =
      let short = length-valid_vehicles m.slots in
      (copy_valid-take m 64).0 ∙ take_all (valid_vehicles m.slots) 64 (omega (arith, w.size))

  -- What holds of the vehicles of a full copy holds of what a lookup gives.
  pub copy_valid-All :
      (P : VehicleInfo → Type 0) (i : ℕ) (v : VehicleInfo)
      → All P (other_vehicle_manager_copy_valid m 64)
      → other_vehicle_manager_get m i ≡ some v
      → P v
  unfolding other_vehicle_manager_get
  copy_valid-All P i v all h =
      let used : (slot m i).valid ≡ true = ground arith in
      let here : (slot m i).vehicle ≡ v = ground arith in
      subst P here (valid_vehicles-All P m.slots i (rw copy_all at all) used)

  -- In a well-formed table, a full copy lists each vehicle in use once, in the order of the ids, and
  -- each is what a lookup of its id gives.
  pub copy_valid-Found :
      All Found (other_vehicle_manager_copy_valid m 64)
      × Ascending 0 (other_vehicle_manager_copy_valid m 64)
      × (length (other_vehicle_manager_copy_valid m 64) ≡ other_vehicle_manager_count m)
  copy_valid-Found =
      let both = copy_valid-take m 64 in
      let found = Found-from m.slots 0 (omega (arith, w.size)) (λ j. ap (slot m) (omega arith)) in
      rw (copy_all, both.1) (found.0, found.1, refl)
