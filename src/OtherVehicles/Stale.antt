-- ===== src/OtherVehicles/Stale.antt =====
-- `other_vehicle_manager_cleanup_stale` and the candidate of manager/other_vehicle_manager.c.
use green_right_topst_linux.Base.{
  ℕ, zero, suc, ◌+◌, ◌-◌, ◌^◌, ◌<◌, ◌≡◌, refl, ap, ◌∙◌, List, [], ◌∷◌, true, false, ◌&&◌, none, inl,
  inr, ltb, leb, if◌then◌else◌, arith, length, get_or, Bool-cases,
}
use green_right_topst_linux.OtherVehicles.{
  Slot, slot, blank_slot, Candidate, no_candidate, OtherVehicleManager, is_stale, cleanup_slot,
  cleanup_candidate, cleanup_loop, other_vehicle_manager_get, other_vehicle_manager_cleanup_stale,
  other_vehicle_manager_get_candidate,
}
use green_right_topst_linux.OtherVehicles.Table.{IsValid}

module _ (now timeout_ms : ℕ) where
  slots_lem :
      (i : ℕ) (ss : List Slot) (c : Candidate) (j : ℕ)
      → get_or (cleanup_loop now timeout_ms i ss c).0 j blank_slot
        ≡ cleanup_slot now timeout_ms (get_or ss j blank_slot)
  unfolding cleanup_loop
  slots_lem i [] c j = refl
  slots_lem i (s ∷ ss) c zero = refl
  slots_lem i (s ∷ ss) c (suc j) = slots_lem (i + 1) ss (cleanup_candidate now timeout_ms i s c) j

  size_lem :
      (i : ℕ) (ss : List Slot) (c : Candidate)
      → length (cleanup_loop now timeout_ms i ss c).0 ≡ length ss
  unfolding cleanup_loop
  size_lem i [] c = refl
  size_lem i (s ∷ ss) c = ap suc (size_lem (i + 1) ss (cleanup_candidate now timeout_ms i s c))

  -- A candidate that is gone stays gone.
  gone_lem :
      (i : ℕ) (ss : List Slot) (c : Candidate)
      → c.valid ≡ false
      → (cleanup_loop now timeout_ms i ss c).1 ≡ c
  unfolding cleanup_loop
  gone_lem i [] c h = refl
  gone_lem i (s ∷ ss) c h =
      let same : cleanup_candidate now timeout_ms i s c ≡ c =
        unfold cleanup_candidate in ground arith in
      rw same (gone_lem (i + 1) ss c h)

  -- Slots after its own do not touch the candidate.
  later_lem :
      (i : ℕ) (ss : List Slot) (c : Candidate)
      → c.vehicle.vehicle_id < i
      → (cleanup_loop now timeout_ms i ss c).1 ≡ c
  unfolding cleanup_loop
  later_lem i [] c h = refl
  later_lem i (s ∷ ss) c h =
      let same : cleanup_candidate now timeout_ms i s c ≡ c =
        unfold cleanup_candidate in ground arith in
      rw same (later_lem (i + 1) ss c (omega arith))

  -- The candidate goes exactly if its own slot, at offset `k`, is stale.
  candidate_lem :
      (i : ℕ) (ss : List Slot) (c : Candidate) (k : ℕ)
      → c.vehicle.vehicle_id ≡ i + k
      → (cleanup_loop now timeout_ms i ss c).1
        ≡ (if is_stale now timeout_ms (get_or ss k blank_slot) && c.valid then no_candidate else c)
  unfolding cleanup_loop
  candidate_lem i [] c k h = refl
  candidate_lem i (s ∷ ss) c zero h = elim (Bool-cases (is_stale now timeout_ms s && c.valid)) [
    | inl e ↦
        let gone : cleanup_candidate now timeout_ms i s c ≡ no_candidate =
          unfold cleanup_candidate in ground arith in
        rw (gone, e) (gone_lem (i + 1) ss no_candidate refl)
    | inr e ↦
        let same : cleanup_candidate now timeout_ms i s c ≡ c =
          unfold cleanup_candidate in ground arith in
        rw (same, e) (later_lem (i + 1) ss c (omega arith))
  ]
  candidate_lem i (s ∷ ss) c (suc k) h =
      let same : cleanup_candidate now timeout_ms i s c ≡ c =
        unfold cleanup_candidate in ground arith in
      rw same (candidate_lem (i + 1) ss c k (omega arith))

module _ (m : OtherVehicleManager) (timeout_ms now : ℕ) where
  abbrev after : OtherVehicleManager
  after = other_vehicle_manager_cleanup_stale m timeout_ms now

  slot-cleanup : (i : ℕ) → slot after i ≡ cleanup_slot now timeout_ms (slot m i)
  unfolding other_vehicle_manager_cleanup_stale
  slot-cleanup i = slots_lem now timeout_ms 0 m.slots m.candidate i

  -- After the cleanup a lookup finds what it found before, unless the slot was stale: then nothing.
  pub get-cleanup_stale :
      (i : ℕ)
      → other_vehicle_manager_get after i
        ≡ (if is_stale now timeout_ms (slot m i) then none else other_vehicle_manager_get m i)
  unfolding other_vehicle_manager_get cleanup_slot
  get-cleanup_stale i = ground (arith, slot-cleanup i)

  pub cleanup_stale-IsValid : IsValid m → IsValid after
  unfolding other_vehicle_manager_cleanup_stale cleanup_slot
  cleanup_stale-IsValid w = record {
    size = size_lem now timeout_ms 0 m.slots m.candidate ∙ w.size;
    own = λ i. ground (arith, slot-cleanup i, w.own i);
  }

  -- The cleanup drops the candidate exactly if the slot of its vehicle was stale.
  pub get_candidate-cleanup_stale : other_vehicle_manager_get_candidate after ≡ (
      if is_stale now timeout_ms (slot m m.candidate.vehicle.vehicle_id)
      then none
      else other_vehicle_manager_get_candidate m)
  unfolding other_vehicle_manager_get_candidate other_vehicle_manager_cleanup_stale
  get_candidate-cleanup_stale = ground (
    arith,
    candidate_lem now timeout_ms 0 m.slots m.candidate m.candidate.vehicle.vehicle_id (omega arith),
  )

-- For times and a timeout below 2^63: a used slot that was updated by `now` is stale exactly if it is
-- older than the timeout, and one that was updated after `now` was read is always stale.
pub is_stale_age :
    (now timeout_ms : ℕ) (s : Slot)
    → s.valid ≡ true
    → now < 2 ^ 63
    → s.last_updated_ms < 2 ^ 63
    → timeout_ms < 2 ^ 63
    → is_stale now timeout_ms s
      ≡ (if leb s.last_updated_ms now then ltb timeout_ms (now - s.last_updated_ms) else true)
unfolding is_stale
is_stale_age now timeout_ms s u a b c = ground arith
