-- ===== src/Map/Zones.antt =====
-- The conflict zones of a lane and a movement, from map/IntersectionMap.c: what the search returns.
use green_right_topst_linux.Base.{
  ℕ, ◌≤◌, ◌<◌, ◌≡◌, ◌⊎◌, refl, sym, ap, ◌∙◌, List, [], ◌∷◌, ◌++◌, true, false, ◌&&◌, ◌||◌,
  if◌then◌else◌, arith, length, length-append, All, All-append, Str, str_eq, str_eq_refl, str_eq→eq,
  Bool-cases, inl, inr,
}
use native.Mathlib.Decide.{dec_lt}
use green_right_topst_linux.Doubles.{Doubles}
use green_right_topst_linux.Map.{MapConflictParticipant, MapConflictRelation, IntersectionMap}
use green_right_topst_linux.Map.Movement.{
  has_str, takes_part, movement_loop, intersection_map_get_conflict_zone_ids_for_movement,
}

str_eq_sym : (a b : Str) → str_eq a b ≡ str_eq b a
unfolding str_eq
str_eq_sym [] [] = refl
str_eq_sym [] (y ∷ ys) = refl
str_eq_sym (x ∷ xs) [] = refl
str_eq_sym (x ∷ xs) (y ∷ ys) = ground (arith, str_eq_sym xs ys)

ℕ_compare : (a b : ℕ) → (a < b) ⊎ (b ≤ a)
ℕ_compare a b = elim (dec_lt a b) [ yes h ↦ inl h | no h ↦ inr (omega (arith, h)) ]

has_str-append :
    (s t : Str) (xs : List Str) → has_str s (xs ++ t ∷ []) ≡ (has_str s xs || str_eq t s)
unfolding has_str
has_str-append s t [] = ground arith
has_str-append s t (x ∷ xs) = ground (arith, has_str-append s t xs)

-- The string stands in the list.
abbrev pub Member : Str → List Str → Type 0
Member s [] = ⊥
Member s (t ∷ ts) = (t ≡ s) ⊎ Member s ts

has_str→Member : (s : Str) (ts : List Str) → has_str s ts ≡ true → Member s ts
unfolding has_str
has_str→Member s [] h = absurd cc
has_str→Member s (t ∷ ts) h = elim (Bool-cases (str_eq t s)) [
  | inl e ↦ inl (str_eq→eq t s e)
  | inr e ↦ inr (has_str→Member s ts (rw e at h))
]

Member→has_str : (s : Str) (ts : List Str) → Member s ts → has_str s ts ≡ true
unfolding has_str
Member→has_str s [] m = absurd m
Member→has_str s (t ∷ ts) (inl e) =
    let same : str_eq t s ≡ true = ap (str_eq t) (sym e) ∙ str_eq_refl t in simp same refl
Member→has_str s (t ∷ ts) (inr m) = ground (arith, Member→has_str s ts m)

-- No string stands twice, by the code's own test.
abbrev Distinct : List Str → Type 0
Distinct [] = Unit {0}
Distinct (s ∷ ss) = (has_str s ss ≡ false) × Distinct ss

-- No string stands twice.
abbrev pub NoDuplicates : List Str → Type 0
NoDuplicates [] = Unit {0}
NoDuplicates (s ∷ ss) = (¬ Member s ss) × NoDuplicates ss

Distinct→NoDuplicates : (ss : List Str) → Distinct ss → NoDuplicates ss
Distinct→NoDuplicates [] d = tt
Distinct→NoDuplicates (s ∷ ss) d = (
  λ m.
      let found = Member→has_str s ss m in
      absurd (let clash : true ≡ false = sym found ∙ d.0 in cc),
  Distinct→NoDuplicates ss d.1,
)

Distinct-append :
    (xs : List Str) (t : Str) → Distinct xs → has_str t xs ≡ false → Distinct (xs ++ t ∷ [])
unfolding has_str
Distinct-append [] t h n = (refl, tt)
Distinct-append (x ∷ xs) t h n = (
  has_str-append x t xs ∙ ground (arith, h.0, n, str_eq_sym x t),
  Distinct-append xs t h.1 (ground (arith, n)),
)

-- A relation that lists the lane with the movement, for that conflict zone, by the code's own test.
abbrev Found : Str → Str → List MapConflictRelation → Str → Type 0
Found lane_id movement [] zone = ⊥
Found lane_id movement (r ∷ rs) zone =
    ((takes_part lane_id movement r.participants ≡ true) × (r.conflict_zone_id ≡ zone))
    ⊎ Found lane_id movement rs zone

module _ (lane_id movement : Str) (max_out : ℕ) where
  -- What one relation adds.
  abbrev added : List Str → MapConflictRelation → List Str
  added out r =
      if takes_part lane_id movement r.participants
        && (if has_str r.conflict_zone_id out then false else true)
      then out ++ r.conflict_zone_id ∷ []
      else out

  added-cases :
      (out : List Str) (r : MapConflictRelation)
      → ((added out r ≡ out)
          × (takes_part lane_id movement r.participants ≡ true
              → has_str r.conflict_zone_id out ≡ true))
        ⊎ ((added out r ≡ out ++ r.conflict_zone_id ∷ [])
            × (takes_part lane_id movement r.participants ≡ true)
            × (has_str r.conflict_zone_id out ≡ false))
  added-cases out r = elim (Bool-cases (takes_part lane_id movement r.participants)) [
    | inr p ↦ inl (simp p refl, λ q. cc)
    | inl p ↦ elim (Bool-cases (has_str r.conflict_zone_id out)) [
      | inl h ↦ inl (simp (p, h) refl, λ q. h)
      | inr h ↦ inr (simp (p, h) refl, p, h)
    ]
  ]

  -- One round of the loop, where there is room, and the end, where there is none.
  loop_next :
      (out : List Str) (r : MapConflictRelation) (rs : List MapConflictRelation)
      → length out < max_out
      → movement_loop lane_id movement max_out out (r ∷ rs)
        ≡ movement_loop lane_id movement max_out (added out r) rs
  unfolding movement_loop
  loop_next out r rs h = ground (arith, h)

  loop_full :
      (out : List Str) (rs : List MapConflictRelation)
      → max_out ≤ length out
      → movement_loop lane_id movement max_out out rs ≡ out
  unfolding movement_loop
  loop_full out [] h = refl
  loop_full out (r ∷ rs) h = ground (arith, h)

  loop_ok :
      (out : List Str) (rs : List MapConflictRelation)
      → length out ≤ max_out
      → Distinct out
      → let result = movement_loop lane_id movement max_out out rs in
        (length result ≤ max_out) × Distinct result
  unfolding movement_loop
  loop_ok out [] h n = (h, n)
  loop_ok out (r ∷ rs) h n = elim (ℕ_compare (length out) max_out) [
    | inr full ↦ simp (loop_full out (r ∷ rs) full) (h, n)
    | inl room ↦ simp (loop_next out r rs room) (elim (added-cases out r) [
      | inl (e, p) ↦ simp e (loop_ok out rs h n)
      | inr (e, p, q) ↦ simp e (
          loop_ok (out ++ r.conflict_zone_id ∷ []) rs
            (rw (length-append out (r.conflict_zone_id ∷ [])) (omega arith))
            (Distinct-append out r.conflict_zone_id n q))
    ])
  ]

  loop_sound :
      (P : Str → Type 0) (out : List Str) (rs : List MapConflictRelation)
      → ((zone : Str) → Found lane_id movement rs zone → P zone)
      → All P out
      → All P (movement_loop lane_id movement max_out out rs)
  unfolding movement_loop
  loop_sound P out [] h a = a
  loop_sound P out (r ∷ rs) h a = elim (ℕ_compare (length out) max_out) [
    | inr full ↦ simp (loop_full out (r ∷ rs) full) a
    | inl room ↦ simp (loop_next out r rs room) (elim (added-cases out r) [
      | inl (e, p) ↦ simp e (loop_sound P out rs (λ zone l. h zone (inr l)) a)
      | inr (e, p, q) ↦ simp e (
          loop_sound P (out ++ r.conflict_zone_id ∷ []) rs (λ zone l. h zone (inr l))
            (All-append P out (r.conflict_zone_id ∷ []) a
              (h r.conflict_zone_id (inl (p, refl)), tt)))
    ])
  ]

  known_after_round :
      (zone : Str) (out : List Str) (r : MapConflictRelation) (rs : List MapConflictRelation)
      → Found lane_id movement (r ∷ rs) zone ⊎ (has_str zone out ≡ true)
      → Found lane_id movement rs zone ⊎ (has_str zone (added out r) ≡ true)
  known_after_round zone out r rs (inl (inr l)) = inl l
  known_after_round zone out r rs (inl (inl (p, e))) = inr (elim (added-cases out r) [
    | inl (same, q) ↦ simp same (ap (λ (z : Str). has_str z out) (sym e) ∙ q p)
    | inr (more, q, n) ↦ simp more (
        has_str-append zone r.conflict_zone_id out
        ∙ ground (arith, ap (str_eq r.conflict_zone_id) (sym e), str_eq_refl r.conflict_zone_id))
  ])
  known_after_round zone out r rs (inr h) = inr (elim (added-cases out r) [
    | inl (same, q) ↦ simp same h
    | inr (more, q, n) ↦ simp more (has_str-append zone r.conflict_zone_id out ∙ ground (arith, h))
  ])

  loop_complete :
      (zone : Str) (out : List Str) (rs : List MapConflictRelation)
      → Found lane_id movement rs zone ⊎ (has_str zone out ≡ true)
      → let result = movement_loop lane_id movement max_out out rs in
        length result < max_out → has_str zone result ≡ true
  unfolding movement_loop
  loop_complete zone out [] (inl l) k = elim l [ ]
  loop_complete zone out [] (inr h) k = h
  loop_complete zone out (r ∷ rs) h k = elim (ℕ_compare (length out) max_out) [
    | inr full ↦
        let e = ap (λ (x : List Str). length x) (loop_full out (r ∷ rs) full) in
        absurd (omega (arith, e, k, full))
    | inl room ↦
        let e = loop_next out r rs room in
        let k' : length (movement_loop lane_id movement max_out (added out r) rs) < max_out =
          rw (← e) k in
        simp e (loop_complete zone (added out r) rs (known_after_round zone out r rs h) k')
  ]

-- A participant is that lane with that movement.
abbrev pub Participates : Str → Str → List MapConflictParticipant → Type 0
Participates lane_id movement [] = ⊥
Participates lane_id movement (p ∷ ps) =
    ((p.lanelet_id ≡ lane_id) × (p.movement ≡ movement)) ⊎ Participates lane_id movement ps

-- A relation of that conflict zone has such a participant.
abbrev pub Lists : Str → Str → List MapConflictRelation → Str → Type 0
Lists lane_id movement [] zone = ⊥
Lists lane_id movement (r ∷ rs) zone =
    (Participates lane_id movement r.participants × (r.conflict_zone_id ≡ zone))
    ⊎ Lists lane_id movement rs zone

module _ (lane_id movement : Str) where
  takes_part→Participates :
      (ps : List MapConflictParticipant)
      → takes_part lane_id movement ps ≡ true
      → Participates lane_id movement ps
  unfolding takes_part
  takes_part→Participates [] h = absurd cc
  takes_part→Participates (p ∷ ps) h = elim (Bool-cases (str_eq p.lanelet_id lane_id)) [
    | inr e ↦ inr (takes_part→Participates ps (rw e at h))
    | inl e ↦ elim (Bool-cases (str_eq p.movement movement)) [
      | inl f ↦ inl (str_eq→eq p.lanelet_id lane_id e, str_eq→eq p.movement movement f)
      | inr f ↦ inr (takes_part→Participates ps (rw (e, f) at h))
    ]
  ]

  Participates→takes_part :
      (ps : List MapConflictParticipant)
      → Participates lane_id movement ps
      → takes_part lane_id movement ps ≡ true
  unfolding takes_part
  Participates→takes_part [] m = absurd m
  Participates→takes_part (p ∷ ps) (inl (lane, move)) =
      let e : str_eq p.lanelet_id lane_id ≡ true =
        ap (str_eq p.lanelet_id) (sym lane) ∙ str_eq_refl p.lanelet_id in
      let f : str_eq p.movement movement ≡ true =
        ap (str_eq p.movement) (sym move) ∙ str_eq_refl p.movement in
      simp (e, f) refl
  Participates→takes_part (p ∷ ps) (inr m) = ground (arith, Participates→takes_part ps m)

  Found→Lists :
      (rs : List MapConflictRelation) (zone : Str)
      → Found lane_id movement rs zone
      → Lists lane_id movement rs zone
  Found→Lists [] zone l = l
  Found→Lists (r ∷ rs) zone (inl (part, e)) = inl (takes_part→Participates r.participants part, e)
  Found→Lists (r ∷ rs) zone (inr l) = inr (Found→Lists rs zone l)

  Lists→Found :
      (rs : List MapConflictRelation) (zone : Str)
      → Lists lane_id movement rs zone
      → Found lane_id movement rs zone
  Lists→Found [] zone l = l
  Lists→Found (r ∷ rs) zone (inl (part, e)) = inl (Participates→takes_part r.participants part, e)
  Lists→Found (r ∷ rs) zone (inr l) = inr (Lists→Found rs zone l)

-- The search returns no zone twice and at most `max_out`, each that of a relation with a participant that is
-- the lane with the movement; if it returns less than `max_out`, it returns every such zone.
pub conflict_zone_ids_for_movement_complete :
    {D : Doubles} (map : IntersectionMap D) (lane_id movement : Str) (max_out : ℕ)
    → let result =
        intersection_map_get_conflict_zone_ids_for_movement map lane_id movement max_out in
      let IsZone = Lists lane_id movement map.conflict_relations in
      (length result ≤ max_out)
      × NoDuplicates result
      × All IsZone result
      × ((zone : Str) → IsZone zone → length result < max_out → Member zone result)
unfolding intersection_map_get_conflict_zone_ids_for_movement
conflict_zone_ids_for_movement_complete map lane_id movement max_out =
    let rs = map.conflict_relations in
    let ok = loop_ok lane_id movement max_out [] rs (omega arith) tt in
    (
      ok.0,
      Distinct→NoDuplicates _ ok.1,
      loop_sound lane_id movement max_out (Lists lane_id movement rs) [] rs
          (λ zone l. Found→Lists lane_id movement rs zone l) tt,
      λ zone l k. has_str→Member zone _ (
          loop_complete lane_id movement max_out zone [] rs
            (inl (Lists→Found lane_id movement rs zone l)) k),
    )
