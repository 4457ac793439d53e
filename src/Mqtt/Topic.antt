-- ===== src/Mqtt/Topic.antt =====
-- Which traffic light a topic names, in handler/mqtt_handler.c.
use green_right_topst_linux.Base.{
  ℕ, ◌^◌, ◌<◌, ◌≡◌, refl, ◌∙◌, [], ◌∷◌, ◌++◌, true, false, ltb, if◌then◌else◌, arith, Str, codes,
  str_eq,
}
use green_right_topst_linux.Libc.{has_prefix, decimal, strtol, strtol_reads, starts_with_digit}
use green_right_topst_linux.Libc.Number.{strtol-decimal, starts-decimal_text}
use green_right_topst_linux.Mqtt.{
  trafficlight_prefix, past_tl, light_id, parse_traffic_light_topic_id,
}

-- The text after the prefix, with and without "TL".
past_tl-tl : (s : Str) → past_tl (codes "TL" ++ s) ≡ s
unfolding str_eq
past_tl-tl s = refl

past_tl-digit : (s : Str) → starts_with_digit s ≡ true → past_tl s ≡ s
unfolding str_eq
past_tl-digit [] h = cc
past_tl-digit (c ∷ s) h = ground arith

parse_lem :
    (s : Str)
    → parse_traffic_light_topic_id (trafficlight_prefix ++ s)
      ≡ light_id (strtol_reads (past_tl s)) (strtol (past_tl s))
unfolding parse_traffic_light_topic_id has_prefix str_eq
parse_lem s = refl

light_id_lem : (n : ℕ) → light_id true (false, n) ≡ (if ltb n 256 then n else 255)
light_id_lem n = ground arith

-- The topic of a traffic light names its number, written with or without "TL", if it is at most 255;
-- every greater number below 2^63 is refused with 255.
pub parse_traffic_light_topic_id-decimal :
    (n : ℕ)
    → n < 2 ^ 63
    → (parse_traffic_light_topic_id (trafficlight_prefix ++ (decimal n ++ codes "/status"))
        ≡ (if ltb n 256 then n else 255))
      × (parse_traffic_light_topic_id
            (trafficlight_prefix ++ (codes "TL" ++ (decimal n ++ codes "/status")))
          ≡ (if ltb n 256 then n else 255))
parse_traffic_light_topic_id-decimal n h = (
  parse_lem s ∙ simp (past_tl-digit s (starts-decimal_text n (codes "/status"))) value,
  parse_lem (codes "TL" ++ s) ∙ simp (past_tl-tl s) value,
)
  where
    s : Str
    s = decimal n ++ codes "/status"

    value : light_id (strtol_reads s) (strtol s) ≡ (if ltb n 256 then n else 255)
    value =
        let read = strtol-decimal n (codes "/status") h refl in
        simp (read.0, read.1) (light_id_lem n)
