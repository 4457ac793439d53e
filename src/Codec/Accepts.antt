-- ===== src/Codec/Accepts.antt =====
-- What common/vehicle_codec.c accepts, and what it refuses.
use green_right_topst_linux.Base.{
  ℕ, zero, suc, ◌-◌, ◌^◌, ◌≤◌, ◌<◌, ◌≡◌, refl, subst, List, [], ◌∷◌, ◌++◌, Option, none, some,
  ◌>>=◌, >>=-eq-some, Option-cases, inl, inr, arith, length, replicate, All, All-append, All-take,
  length-take, length-append, Str, codes, safe_copy,
}
use green_right_topst_linux.Types.{VehicleInfo}
use green_right_topst_linux.Doubles.{Doubles}
use green_right_topst_linux.Codec.{
  Json, Items, item, no_items, Cjson, get_uint_field, get_string_field, number_value, string_value,
  array_value, zones_from_items, zone_slots, vehicle_info_from_json,
}

-- The members that a vehicle must have.
pub data Field : Type 0 where
  vehicle_id x y speed heading lanelet_id turn_state conflict_zone_ids linked_tl_id timestamp_ms :
      Field

abbrev pub key_of : Field → Str
key_of vehicle_id = codes "vehicle_id"
key_of x = codes "x"
key_of y = codes "y"
key_of speed = codes "speed"
key_of heading = codes "heading"
key_of lanelet_id = codes "lanelet_id"
key_of turn_state = codes "turn_state"
key_of conflict_zone_ids = codes "conflict_zone_ids"
key_of linked_tl_id = codes "linked_tl_id"
key_of timestamp_ms = codes "timestamp_ms"

-- The type that each must have.
abbrev pub HasType : {D : Doubles} → Field → Json D → Type 0
HasType {D} lanelet_id j = (s : Str) × (j ≡ Json.json_string s)
HasType {D} turn_state j = (s : Str) × (j ≡ Json.json_string s)
HasType {D} linked_tl_id j = (s : Str) × (j ≡ Json.json_string s)
HasType {D} conflict_zone_ids j = (items : Items D) × (j ≡ Json.json_array items)
HasType {D} _ j = (d : D.Double) × (j ≡ Json.json_number d)

-- What an accepted vehicle satisfies, whatever the sender wrote.
pub record IsAccepted (v : VehicleInfo) : Type 0 where
  pub id : v.vehicle_id < 2 ^ 8
  pub x_fits : v.x < 2 ^ 16
  pub y_fits : v.y < 2 ^ 16
  pub speed_fits : v.speed < 2 ^ 8
  pub heading_fits : v.heading < 2 ^ 16
  pub lanelet_fits : length v.lanelet_id ≤ 15
  pub turn_fits : length v.turn_state ≤ 23
  pub tl_fits : length v.linked_tl_id ≤ 15
  pub count_fits : v.conflict_zone_count ≤ 4
  pub slots : length v.conflict_zone_ids ≡ 4
  pub zones_fit : All (λ (z : Str). length z ≤ 15) v.conflict_zone_ids

-- A property of the value, if there is one.
abbrev IfSome : {A : Type 0} → (A → Type 0) → Option A → Type 0
IfSome P none = Unit {0}
IfSome P (some a) = P a

length-safe_copy : (size : ℕ) (s : Str) → length (safe_copy size s) ≤ size - 1
unfolding safe_copy
length-safe_copy size s = omega (arith, length-take (size - 1) s)

module _ {D : Doubles} where
  number_lem :
      (j : Json D) {n : ℕ} → number_value j ≡ some n → (d : D.Double) × (j ≡ Json.json_number d)
  number_lem (Json.json_number d) h = (d, refl)
  number_lem Json.json_null h = cc
  number_lem (Json.json_bool b) h = cc
  number_lem (Json.json_string s) h = cc
  number_lem (Json.json_array i) h = cc
  number_lem (Json.json_object m) h = cc

  string_fits :
      (size : ℕ) (j : Json D) → IfSome (λ (s : Str). length s ≤ size - 1) (string_value size j)
  string_fits size (Json.json_string s) = length-safe_copy size s
  string_fits size Json.json_null = tt
  string_fits size (Json.json_bool b) = tt
  string_fits size (Json.json_number d) = tt
  string_fits size (Json.json_array i) = tt
  string_fits size (Json.json_object m) = tt

  string_lem :
      (size : ℕ) (j : Json D) {s : Str}
      → string_value size j ≡ some s
      → (t : Str) × (j ≡ Json.json_string t)
  string_lem size (Json.json_string s) h = (s, refl)
  string_lem size Json.json_null h = cc
  string_lem size (Json.json_bool b) h = cc
  string_lem size (Json.json_number d) h = cc
  string_lem size (Json.json_array i) h = cc
  string_lem size (Json.json_object m) h = cc

  array_lem :
      (j : Json D) {i : Items D} → array_value j ≡ some i → (k : Items D) × (j ≡ Json.json_array k)
  array_lem (Json.json_array i) h = (i, refl)
  array_lem Json.json_null h = cc
  array_lem (Json.json_bool b) h = cc
  array_lem (Json.json_number d) h = cc
  array_lem (Json.json_string s) h = cc
  array_lem (Json.json_object m) h = cc

  -- The ids that are read are at most as many as there is room for, and short.
  zones_fit :
      (room : ℕ) (items : Items D)
      → IfSome
          (λ (ids : List Str). (length ids ≤ room) × All (λ (z : Str). length z ≤ 15) ids)
          (zones_from_items room items)
  unfolding zones_from_items
  zones_fit room no_items = (omega arith, tt)
  zones_fit zero (item j rest) = (omega arith, tt)
  zones_fit (suc room) (item j rest) =
      zones_cons (string_value 16 j) (zones_from_items room rest) (string_fits 16 j)
        (zones_fit room rest)
    where
      zones_cons :
          (id : Option Str) (ids : Option (List Str))
          → IfSome (λ (s : Str). length s ≤ 15) id
          → IfSome (λ (ss : List Str). (length ss ≤ room) × All (λ (z : Str). length z ≤ 15) ss) ids
          → IfSome
              (λ (ss : List Str). (length ss ≤ suc room) × All (λ (z : Str). length z ≤ 15) ss)
              (id >>= (λ i. ids >>= (λ is. some (i ∷ is))))
      zones_cons none ids h k = tt
      zones_cons (some i) none h k = tt
      zones_cons (some i) (some is) h k = (omega (arith, k.0), (h, k.1))

slots_lem :
    (ids : List Str)
    → length ids ≤ 4
    → All (λ (z : Str). length z ≤ 15) ids
    → (length (zone_slots ids) ≡ 4) × All (λ (z : Str). length z ≤ 15) (zone_slots ids)
slots_lem ids h k =
    let short = (λ (z : Str). length z ≤ 15) in
    (
      omega (arith, length-append ids (replicate 4 []), length-take 4 (ids ++ replicate 4 [])),
      All-take short 4 (ids ++ replicate 4 []) (
          All-append short ids (replicate 4 []) k
            (omega arith, (omega arith, (omega arith, (omega arith, tt))))),
    )

module _ {D : Doubles} (cjson : Cjson D) (root : Json D) where
  -- A member is there, with the type of the field.
  abbrev pub Has : Field → Type 0
  Has f = (j : Json D) × (cjson.get_object_item root (key_of f) ≡ some j) × HasType f j

  uint_lem :
      (key : Str) {n : ℕ}
      → get_uint_field cjson root key ≡ some n
      → (j : Json D) × (cjson.get_object_item root key ≡ some j)
        × ((d : D.Double) × (j ≡ Json.json_number d))
  unfolding get_uint_field
  uint_lem key h =
      let (j, e, t) = >>=-eq-some (cjson.get_object_item root key) number_value h in
      (j, e, number_lem j t)

  text_lem :
      (key : Str) (size : ℕ) {s : Str}
      → get_string_field cjson root key size ≡ some s
      → (j : Json D) × (cjson.get_object_item root key ≡ some j)
        × ((t : Str) × (j ≡ Json.json_string t))
  unfolding get_string_field
  text_lem key size h =
      let (j, e, t) = >>=-eq-some (cjson.get_object_item root key) (string_value size) h in
      (j, e, string_lem size j t)

  text_fits :
      (key : Str) (size : ℕ) {s : Str}
      → get_string_field cjson root key size ≡ some s
      → length s ≤ size - 1
  unfolding get_string_field
  text_fits key size h =
      let (j, e, t) = >>=-eq-some (cjson.get_object_item root key) (string_value size) h in
      subst (IfSome (λ (s : Str). length s ≤ size - 1)) t (string_fits size j)

  members_lem : (v : VehicleInfo) → vehicle_info_from_json cjson root ≡ some v → (f : Field) → Has f
  unfolding vehicle_info_from_json
  members_lem v h0 f =
      let (n1, e1, h1) = >>=-eq-some (get_uint_field cjson root (codes "vehicle_id")) _ h0 in
      let (n2, e2, h2) = >>=-eq-some (get_uint_field cjson root (codes "x")) _ h1 in
      let (n3, e3, h3) = >>=-eq-some (get_uint_field cjson root (codes "y")) _ h2 in
      let (n4, e4, h4) = >>=-eq-some (get_uint_field cjson root (codes "speed")) _ h3 in
      let (n5, e5, h5) = >>=-eq-some (get_uint_field cjson root (codes "heading")) _ h4 in
      let (s6, e6, h6) = >>=-eq-some (get_string_field cjson root (codes "lanelet_id") 16) _ h5 in
      let (s7, e7, h7) = >>=-eq-some (get_string_field cjson root (codes "turn_state") 24) _ h6 in
      let (j8, e8, h8) =
        >>=-eq-some (cjson.get_object_item root (codes "conflict_zone_ids")) _ h7 in
      let (i9, e9, h9) = >>=-eq-some (array_value j8) _ h8 in
      let (z10, e10, h10) = >>=-eq-some (zones_from_items 4 i9) _ h9 in
      let (s11, e11, h11) =
        >>=-eq-some (get_string_field cjson root (codes "linked_tl_id") 16) _ h10 in
      let (n12, e12, h12) = >>=-eq-some (get_uint_field cjson root (codes "timestamp_ms")) _ h11 in
      elim f as (λ k. Has k) [
        | vehicle_id ↦ uint_lem (codes "vehicle_id") e1
        | x ↦ uint_lem (codes "x") e2
        | y ↦ uint_lem (codes "y") e3
        | speed ↦ uint_lem (codes "speed") e4
        | heading ↦ uint_lem (codes "heading") e5
        | lanelet_id ↦ text_lem (codes "lanelet_id") 16 e6
        | turn_state ↦ text_lem (codes "turn_state") 24 e7
        | conflict_zone_ids ↦ (j8, e8, array_lem j8 e9)
        | linked_tl_id ↦ text_lem (codes "linked_tl_id") 16 e11
        | timestamp_ms ↦ uint_lem (codes "timestamp_ms") e12
      ]

  -- A JSON value that lacks one of the ten members of a vehicle, or has it with another type than the
  -- encoder writes, is refused.
  pub vehicle_info_from_json-refuses :
      (f : Field) → (Has f → ⊥) → vehicle_info_from_json cjson root ≡ none
  vehicle_info_from_json-refuses f h = elim (Option-cases (vehicle_info_from_json cjson root)) [
    | inl e ↦ e
    | inr (v, e) ↦ absurd (h (members_lem v e f))
  ]

  -- Whatever JSON value decodes to a vehicle, the numbers fit their fields, the texts fit their buffers
  -- with the terminator, and at most four conflict zones are counted.
  pub vehicle_info_from_json-IsAccepted :
      (v : VehicleInfo) → vehicle_info_from_json cjson root ≡ some v → IsAccepted v
  unfolding vehicle_info_from_json
  vehicle_info_from_json-IsAccepted v h0 =
      let (n1, e1, h1) = >>=-eq-some (get_uint_field cjson root (codes "vehicle_id")) _ h0 in
      let (n2, e2, h2) = >>=-eq-some (get_uint_field cjson root (codes "x")) _ h1 in
      let (n3, e3, h3) = >>=-eq-some (get_uint_field cjson root (codes "y")) _ h2 in
      let (n4, e4, h4) = >>=-eq-some (get_uint_field cjson root (codes "speed")) _ h3 in
      let (n5, e5, h5) = >>=-eq-some (get_uint_field cjson root (codes "heading")) _ h4 in
      let (s6, e6, h6) = >>=-eq-some (get_string_field cjson root (codes "lanelet_id") 16) _ h5 in
      let (s7, e7, h7) = >>=-eq-some (get_string_field cjson root (codes "turn_state") 24) _ h6 in
      let (j8, e8, h8) =
        >>=-eq-some (cjson.get_object_item root (codes "conflict_zone_ids")) _ h7 in
      let (i9, e9, h9) = >>=-eq-some (array_value j8) _ h8 in
      let (z10, e10, h10) = >>=-eq-some (zones_from_items 4 i9) _ h9 in
      let (s11, e11, h11) =
        >>=-eq-some (get_string_field cjson root (codes "linked_tl_id") 16) _ h10 in
      let (n12, e12, h12) = >>=-eq-some (get_uint_field cjson root (codes "timestamp_ms")) _ h11 in
      let z =
        subst (IfSome (λ (ss : List Str). (length ss ≤ 4) × All (λ (t : Str). length t ≤ 15) ss))
          e10 (zones_fit 4 i9) in
      let w = slots_lem z10 z.0 z.1 in
      subst (IfSome IsAccepted) h12 (record {
        id = omega arith;
        x_fits = omega arith;
        y_fits = omega arith;
        speed_fits = omega arith;
        heading_fits = omega arith;
        lanelet_fits = text_fits (codes "lanelet_id") 16 e6;
        turn_fits = text_fits (codes "turn_state") 24 e7;
        tl_fits = text_fits (codes "linked_tl_id") 16 e11;
        count_fits = z.0;
        slots = w.0;
        zones_fit = w.1;
      })
