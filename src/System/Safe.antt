-- ===== src/System/Safe.antt =====
-- What the program tells the controller and the broker, over every run.
use green_right_topst_linux.Base.{
  ℕ, ◌≡◌, ◌≢◌, refl, sym, ap, ◌∙◌, subst, List, [], ◌∷◌, Bool, true, false, ◌||◌, Option, none,
  some, >>=-eq-some, leb, ◌==◌, Bool-cases, inl, inr, arith, All, All-append,
}
use green_right_topst_linux.Types.{VehicleInfo}
use green_right_topst_linux.Doubles.{Doubles}
use green_right_topst_linux.Map.Service.{MapService, map_service_get_conflict_zone_center}
use green_right_topst_linux.OtherVehicles.{
  OtherVehicleManager, other_vehicle_manager_copy_valid, other_vehicle_manager_get,
}
use green_right_topst_linux.OtherVehicles.Table.{IsValid, copy_valid-Found}
use green_right_topst_linux.Mqtt.Published.{IfSome}
use green_right_topst_linux.Candidate.{
  CandidateSelection, find_shared_conflict_zone, compute_type_mask, selection_of,
  select_candidate_vehicle,
}
use green_right_topst_linux.Candidate.Select.{Any, select_candidate_vehicle-Nearest}
use green_right_topst_linux.TxThread.{TxMessage, TxState, Env, ntp_part}
use green_right_topst_linux.TxThread.Round.{
  stop_part, selected, dropped, candidate_part, round_candidate, light_part, inactive_round,
  active_round, tx_round,
}
use green_right_topst_linux.TxThread.Report.{light_cases}

-- The messages about a vehicle are about vehicles with the property.
abbrev pub Tells : (VehicleInfo → Type 0) → TxMessage → Type 0
Tells P (TxMessage.intro c) = P c.vehicle
Tells P (TxMessage.status c) = P c.vehicle
Tells P _ = Unit {0}

abbrev pub IfChosen : (VehicleInfo → Type 0) → Option CandidateSelection → Type 0
IfChosen P none = Unit {0}
IfChosen P (some c) = P c.vehicle

module _ {D : Doubles} (map : MapService D) (P : VehicleInfo → Type 0) where
  dropped-Tells :
      (s : TxState) (due : Bool) (notice : TxMessage)
      → Tells P notice
      → All (Tells P) (dropped s due notice).1
  unfolding dropped
  dropped-Tells s due notice p = elim (Bool-cases (due || s.last_had_candidate)) [
    | inl e ↦ simp e (p, tt)
    | inr e ↦ simp e tt
  ]

  selected-Tells :
      (s : TxState) (due : Bool) (c : CandidateSelection)
      → P c.vehicle
      → All (Tells P) (selected s due c).1
  unfolding selected
  selected-Tells s due c p = elim (Bool-cases (c.vehicle.vehicle_id == s.last_intro_vehicle_id)) [
    | inr e ↦ simp e (p, (p, tt))
    | inl e ↦ elim (Bool-cases due) [ inl f ↦ simp (e, f) (p, tt) | inr f ↦ simp (e, f) tt ]
  ]

  part-Tells :
      (s : TxState) (due connected : Bool) (c : Option CandidateSelection)
      → IfChosen P c
      → All (Tells P) (candidate_part s due connected c).1
  part-Tells s due connected (some c) p = selected-Tells s due c p
  part-Tells s due true none p = dropped-Tells s due TxMessage.no_candidate tt
  part-Tells s due false none p = dropped-Tells s due TxMessage.unavailable tt

  light-Tells : (env : Env) (due : Bool) (s : TxState) → All (Tells P) (light_part map env due s).2
  unfolding light_part
  light-Tells env true s =
      (light_cases map (Tells P) (λ i l x y k. tt) (λ x y k. tt) (λ k. tt) env, tt)
  light-Tells env false s = tt

  stop-Tells : (s : TxState) (others : _) → All (Tells P) (stop_part s others).2
  unfolding stop_part
  stop-Tells s others = elim (Bool-cases s.last_active) [
    | inl e ↦ simp e (tt, tt)
    | inr e ↦ simp e tt
  ]

  sync-Tells : (s : TxState) → All (Tells P) (ntp_part s).1
  unfolding ntp_part
  sync-Tells s = elim (Bool-cases (leb 100 s.ntp_sync_elapsed_ms)) [
    | inl e ↦ simp e (tt, tt)
    | inr e ↦ simp e tt
  ]

  -- A round tells of the candidate of an active round, and of no other vehicle.
  pub tx_round-Tells :
      (s : TxState) (env : Env)
      → (env.active ≡ true → IfChosen P (round_candidate map env))
      → All (Tells P) (tx_round map s env).1.messages
  unfolding tx_round inactive_round active_round
  tx_round-Tells s env p = elim (Bool-cases env.active) [
    | inl e ↦ simp e (
        All-append (Tells P) (ntp_part s).1 _ (sync-Tells s) (
          All-append (Tells P) (candidate_part _ _ env.connected (round_candidate map env)).1 _
            (part-Tells _ _ env.connected (round_candidate map env) (p e)) (light-Tells env _ _)))
    | inr e ↦ simp e (
        All-append (Tells P) (ntp_part s).1 _ (sync-Tells s) (
          All-append (Tells P) (stop_part _ env.others).2 _ (stop-Tells _ env.others)
            (light-Tells env _ _)))
  ]

Any-elim :
    {A X : Type 0} (Q R : A → Type 0) (xs : List A)
    → Any Q xs
    → All R xs
    → ((x : A) → Q x → R x → X)
    → X
Any-elim Q R [] q r use_it = absurd q
Any-elim Q R (x ∷ xs) (inl q) r use_it = use_it x q r.0
Any-elim Q R (x ∷ xs) (inr q) r use_it = Any-elim Q R xs q r.1 use_it

-- A vehicle that a lookup of its id gives, and that is not the vehicle itself.
abbrev pub IsOther : ℕ → OtherVehicleManager → VehicleInfo → Type 0
IsOther own others v =
    (v.vehicle_id ≢ own) × (other_vehicle_manager_get others v.vehicle_id ≡ some v)

module _ {D : Doubles} (map : MapService D) where
  -- A selection is of the other vehicle, whose id is not the vehicle's own.
  pub selection_lem :
      (self v : VehicleInfo) (c : CandidateSelection)
      → selection_of map self v ≡ some c
      → (v ≡ c.vehicle) × (v.vehicle_id ≢ self.vehicle_id)
  unfolding selection_of
  selection_lem self v c e = elim (Bool-cases (v.vehicle_id == self.vehicle_id)) [
    | inl t ↦ absurd (let no_choice : none ≡ some c = rw t at e in cc)
    | inr t ↦
        let e' = rw t at e in
        let (zone, found, e1) = >>=-eq-some (find_shared_conflict_zone self v) _ e' in
        let (mask, known, e2) = >>=-eq-some (compute_type_mask self v) _ e1 in
        let (center, at, e3) = >>=-eq-some (map_service_get_conflict_zone_center map zone) _ e2 in
        (ap (vehicle_or v) e3, ground arith)
  ]
    where
      vehicle_or : VehicleInfo → Option CandidateSelection → VehicleInfo
      vehicle_or d none = d
      vehicle_or d (some s) = s.vehicle

  select_lem :
      (own : ℕ) (others : OtherVehicleManager) (self : VehicleInfo)
      → IsValid others
      → self.vehicle_id ≡ own
      → IfChosen (IsOther own others) (select_candidate_vehicle map others self)
  select_lem own others self w id = of_choice (select_candidate_vehicle map others self) refl
    where
      of_choice :
          (o : Option CandidateSelection)
          → select_candidate_vehicle map others self ≡ o
          → IfChosen (IsOther own others) o
      of_choice none e = tt
      of_choice (some c) e = elim (select_candidate_vehicle-Nearest map self others).0 [
        | inl empty ↦ absurd (let clash : none ≡ some c = sym empty ∙ e in cc)
        | inr some_one ↦
            Any-elim _ _ (other_vehicle_manager_copy_valid others 64) some_one
              (copy_valid-Found others w).0
              (λ v q found.
                let (same, differs) = selection_lem self v c (q ∙ e) in
                subst (IsOther own others) same ((λ h. differs (h ∙ sym id)), found))
      ]

  -- The candidate of a round is such a vehicle.
  pub candidate_lem :
      (own : ℕ) (env : Env)
      → IsValid env.others
      → IfSome (λ v. v.vehicle_id ≡ own) env.self
      → IfChosen (IsOther own env.others) (round_candidate map env)
  candidate_lem own env w id = of_env env.connected env.self id
    where
      of_env :
          (connected : Bool) (self : Option VehicleInfo)
          → IfSome (λ v. v.vehicle_id ≡ own) self
          → IfChosen
              (IsOther own env.others)
              (round_candidate map (record env { connected = connected; self = self }))
      of_env false self h = tt
      of_env true none h = tt
      of_env true (some self) h = select_lem own env.others self w h
