-- ===== src/Map/Xml.antt =====
-- The reader of map/IntersectionMap.c: attributes, tags and elements of the XML text, and the points,
-- areas, polygons and lanelets. `atof` of the C library is an argument.
pub mod Scan
pub mod Elements
pub mod Rules
pub mod Capacity
pub mod Bounds
pub mod Load
use green_right_topst_linux.Base.{
  ℕ, zero, suc, ◌+◌, ◌-◌, List, [], ◌∷◌, ◌++◌, Bool, true, false, ◌||◌, Option, none, some, ◌>>=◌,
  ltb, leb, if◌then◌else◌, length, take, drop, Str, codes, str_eq, safe_copy,
}
use green_right_topst_linux.Doubles.{Doubles}
use green_right_topst_linux.Libc.{strstr, strchr, atoi}
use green_right_topst_linux.Map.{MapPoint, MapLanelet, MapArea, MapPolygon, IntersectionMap}
use green_right_topst_linux.Map.Build.{find_point, map_max_id_len}

abbrev pub map_max_points : ℕ
map_max_points = 256

abbrev pub map_max_lanelets : ℕ
map_max_lanelets = 32

abbrev pub map_max_areas : ℕ
map_max_areas = 32

abbrev pub map_max_traffic_lights : ℕ
map_max_traffic_lights = 16

abbrev pub map_max_conflict_zones : ℕ
map_max_conflict_zones = 16

abbrev pub map_max_polygon_points : ℕ
map_max_polygon_points = 8

-- The value from `value_start` to the quote, if all lies before the end of the tag.
abbrev pub attr_value : Str → Str → Str → Str → ℕ → Option Str
attr_value tag_end p value_start value_end out_size =
    if leb (length p) (length tag_end)
    then none
    else if leb (length value_start) (length tag_end)
    then none
    else if ltb (length value_end) (length tag_end)
    then none
    else some (take (out_size - 1) (take (length value_start - length value_end) value_start))

-- What is written to `out`; `none` if the result is false. The loop never goes round.
unfoldable pub get_attr_string : Str → Str → ℕ → Option Str
get_attr_string tag_start attr_name out_size = do
  tag_end ← strchr tag_start 62
  let pattern = safe_copy 64 (attr_name ++ codes "=\"")
  p ← strstr tag_start pattern
  let value_start = drop (length pattern) p
  value_end ← strchr value_start 34
  attr_value tag_end p value_start value_end out_size

abbrev pub or_empty : Option Str → Str
or_empty none = []
or_empty (some s) = s

-- The tags that a loop visits from `p` on: the loops look for `pattern`, leave at `block_end`, and go on
-- behind the next `>`, if that is before `block_end`. For a loop to the end of the text `block_end` is [].
unfoldable pub tags_loop : ℕ → Str → Str → Str → List Str
tags_loop zero pattern block_end p = []
tags_loop (suc fuel) pattern block_end p = elim (strstr p pattern) [
  | none ↦ []
  | some tag ↦ elim (leb (length tag) (length block_end)) [
    | true ↦ []
    | false ↦ tag ∷ elim (strchr tag 62) [
      | none ↦ []
      | some next ↦ elim (leb (length next) (length block_end)) [
        | true ↦ []
        | false ↦ tags_loop fuel pattern block_end (drop 1 next)
      ]
    ]
  ]
]

unfoldable pub tags : Str → Str → Str → List Str
tags pattern block_end p = tags_loop (length p) pattern block_end p

-- The elements that a loop visits, from the opening tag and from the closing tag on.
unfoldable pub elements_loop : ℕ → Str → Str → Str → List (Str × Str)
elements_loop zero opening closing p = []
elements_loop (suc fuel) opening closing p = elim (strstr p opening) [
  | none ↦ []
  | some start ↦ elim (strstr start closing) [
    | none ↦ []
    | some end ↦ (start, end) ∷ elements_loop fuel opening closing (drop (length closing) end)
  ]
]

unfoldable pub elements : Str → Str → Str → List (Str × Str)
elements opening closing xml = elements_loop (length xml) opening closing xml

unfoldable pub get_attr_double : {A : Type 0} → (Str → A) → Str → Str → Option A
get_attr_double atof tag_start attr_name = do
  buf ← get_attr_string tag_start attr_name 64
  some (atof buf)

unfoldable pub get_attr_int : Str → Str → Option ℕ
get_attr_int tag_start attr_name = do buf ← get_attr_string tag_start attr_name 64; some (atoi buf)

module _ {D : Doubles} (atof : Str → D.Double) where
  -- A `PointEntry` has the fields of a `MapPoint`.
  abbrev pub point_entry : Str → Option (MapPoint D)
  point_entry p = do
    id ← get_attr_string p (codes "id") map_max_id_len
    x ← get_attr_double atof p (codes "x")
    y ← get_attr_double atof p (codes "y")
    some (record { id = safe_copy map_max_id_len id; x = x; y = y })

  unfoldable pub add_points : ℕ → List (MapPoint D) → List Str → List (MapPoint D)
  add_points max_points points [] = points
  add_points max_points points (p ∷ ps) = elim (leb max_points (length points)) [
    | true ↦ points
    | false ↦ elim (point_entry p) [
      | none ↦ add_points max_points points ps
      | some entry ↦ add_points max_points (points ++ (entry ∷ [])) ps
    ]
  ]

  unfoldable pub parse_points : Str → ℕ → List (MapPoint D)
  parse_points xml max_points = add_points max_points [] (tags (codes "<point ") [] xml)

abbrev pub attr : Str → Str → Str
attr p attr_name = or_empty (get_attr_string p attr_name map_max_id_len)

-- The entry is appended if the array has room.
abbrev pub append_within {ℓ} : {A : Type ℓ} → ℕ → List A → A → List A
append_within max xs x = if ltb (length xs) max then xs ++ (x ∷ []) else xs
