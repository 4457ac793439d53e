-- ===== src/Candidate/Select.antt =====
-- `select_candidate_vehicle` of core/can_tx_thread.c picks a nearest conflicting vehicle.
use green_right_topst_linux.Base.{
  ◌≤◌, ◌≡◌, ◌⊎◌, refl, sym, ◌∙◌, List, [], ◌∷◌, Option, none, some, inl, inr, ltb, arith, All,
  Bool-cases,
}
use green_right_topst_linux.Types.{VehicleInfo}
use green_right_topst_linux.Doubles.{Doubles}
use green_right_topst_linux.Map.Service.{MapService}
use green_right_topst_linux.OtherVehicles.{OtherVehicleManager, other_vehicle_manager_copy_valid}
use green_right_topst_linux.Candidate.{
  CandidateSelection, distance_squared, selection_of, take_nearer, select_loop,
  select_candidate_vehicle,
}

-- Whether some element has the property.
abbrev pub Any : {A : Type 0} → (A → Type 0) → List A → Type 0
Any P [] = ⊥
Any P (x ∷ xs) = P x ⊎ Any P xs

-- The choice is at most as far as `c`; with no choice, nothing is.
abbrev pub NotFarther : VehicleInfo → Option CandidateSelection → CandidateSelection → Type 0
NotFarther self none c = ⊥
NotFarther self (some chosen) c =
    distance_squared self chosen.vehicle ≤ distance_squared self c.vehicle

take_nearer_new :
    (self : VehicleInfo) (best : Option CandidateSelection) (c : CandidateSelection)
    → NotFarther self (take_nearer self best (some c)) c
unfolding take_nearer
take_nearer_new self none c = omega arith
take_nearer_new self (some b) c =
    elim (Bool-cases (ltb (distance_squared self c.vehicle) (distance_squared self b.vehicle))) [
      | inl e ↦ simp e (omega arith)
      | inr e ↦ simp e (ground (arith, e))
    ]

take_nearer_old :
    (self : VehicleInfo) (best new : Option CandidateSelection) (c : CandidateSelection)
    → NotFarther self best c
    → NotFarther self (take_nearer self best new) c
unfolding take_nearer
take_nearer_old self best none c h = h
take_nearer_old self none (some n) c h = absurd h
take_nearer_old self (some b) (some n) c h =
    elim (Bool-cases (ltb (distance_squared self n.vehicle) (distance_squared self b.vehicle))) [
      | inl e ↦ simp e (ground (arith, e, h))
      | inr e ↦ simp e h
    ]

take_nearer_either :
    (self : VehicleInfo) (best new : Option CandidateSelection)
    → (take_nearer self best new ≡ best) ⊎ (take_nearer self best new ≡ new)
unfolding take_nearer
take_nearer_either self best none = inl refl
take_nearer_either self none (some n) = inr refl
take_nearer_either self (some b) (some n) =
    elim (Bool-cases (ltb (distance_squared self n.vehicle) (distance_squared self b.vehicle))) [
      | inl e ↦ simp e (inr refl)
      | inr e ↦ simp e (inl refl)
    ]

module _ {D : Doubles} (map : MapService D) (self : VehicleInfo) where
  keeps_old :
      (vs : List VehicleInfo) (best : Option CandidateSelection) (c : CandidateSelection)
      → NotFarther self best c
      → NotFarther self (select_loop map self vs best) c
  unfolding select_loop
  keeps_old [] best c h = h
  keeps_old (v ∷ vs) best c h =
      keeps_old vs _ c (take_nearer_old self best (selection_of map self v) c h)

  -- Every vehicle that passes the checks is at least as far as the choice.
  abbrev pub Nearest : List VehicleInfo → Option CandidateSelection → Type 0
  Nearest vs chosen =
      All
        (λ v.
          (c : CandidateSelection) → selection_of map self v ≡ some c → NotFarther self chosen c)
        vs

  loop-Nearest :
      (vs : List VehicleInfo) (best : Option CandidateSelection)
      → Nearest vs (select_loop map self vs best)
  unfolding select_loop
  loop-Nearest [] best = tt
  loop-Nearest (v ∷ vs) best = (
    λ c e. keeps_old vs _ c (rw e (take_nearer_new self best c)),
    loop-Nearest vs (take_nearer self best (selection_of map self v)),
  )

  loop-Any :
      (vs : List VehicleInfo) (best : Option CandidateSelection)
      → (select_loop map self vs best ≡ best)
        ⊎ Any (λ v. selection_of map self v ≡ select_loop map self vs best) vs
  unfolding select_loop
  loop-Any [] best = inl refl
  loop-Any (v ∷ vs) best = elim (loop-Any vs (take_nearer self best (selection_of map self v))) [
    | inr later ↦ inr (inr later)
    | inl e ↦ elim (take_nearer_either self best (selection_of map self v)) [
      | inl old ↦ inl (e ∙ old)
      | inr new ↦ inr (inl (sym (e ∙ new)))
    ]
  ]

  -- The choice is the selection of one of the vehicles in use, no vehicle in use that passes the checks
  -- is nearer, and there is no choice only if none of them passes.
  pub select_candidate_vehicle-Nearest :
      (others : OtherVehicleManager)
      → let vs = other_vehicle_manager_copy_valid others 64 in
        let chosen = select_candidate_vehicle map others self in
        ((chosen ≡ none) ⊎ Any (λ v. selection_of map self v ≡ chosen) vs) × Nearest vs chosen
  unfolding select_candidate_vehicle
  select_candidate_vehicle-Nearest others =
      let vs = other_vehicle_manager_copy_valid others 64 in
      (loop-Any vs none, loop-Nearest vs none)
