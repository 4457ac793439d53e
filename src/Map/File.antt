-- ===== src/Map/File.antt =====
-- map/IntersectionMap.c: reading the map's file, and service/map_service.c: loading the map.
use green_right_topst_linux.Base.{ℕ, List, Bool, Option, none, some, if◌then◌else◌, take, Str}
use green_right_topst_linux.Doubles.{Doubles}
use green_right_topst_linux.Map.Service.{MapService}
use green_right_topst_linux.Map.Xml.Rules.{intersection_map_load_xml}
use green_right_topst_linux.Mqtt.{c_string}

-- What the calls on the file answer: whether `fopen` and `fseek` succeed, what `ftell` gives, if it is
-- not negative, whether there is memory, and the bytes in the file.
pub record MapFile : Type 0 where
  pub fopen_ok : Bool
  pub fseek_ok : Bool
  pub size : Option ℕ
  pub malloc_ok : Bool
  pub bytes : List ℕ

abbrev pub buffer_of : Bool → List ℕ → Option ℕ → Option Str
buffer_of malloc_ok bytes none = none
buffer_of malloc_ok bytes (some size) =
    if malloc_ok then some (c_string (take size bytes)) else none

-- The text in the buffer, up to its first NUL.
unfoldable pub read_file_to_buffer : MapFile → Option Str
read_file_to_buffer file =
    if file.fopen_ok
    then if file.fseek_ok then buffer_of file.malloc_ok file.bytes file.size else none
    else none

module _ {D : Doubles} where
  -- The service and the result.
  unfoldable pub map_service_init : (Str → D.Double) → MapFile → MapService D × Bool
  map_service_init atof file =
      let (map, loaded) = intersection_map_load_xml atof (read_file_to_buffer file) in
      (record { map = map; loaded = loaded }, loaded)
