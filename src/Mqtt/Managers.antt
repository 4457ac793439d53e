-- ===== src/Mqtt/Managers.antt =====
-- What the messages that the MQTT callbacks receive do to the tables of vehicles and traffic lights.
use green_right_topst_linux.Base.{
  ℕ, ◌+◌, ◌-◌, ◌^◌, ◌<◌, ◌≤◌, ◌≡◌, ◌≢◌, refl, sym, ap, ◌∙◌, subst, List, [], ◌∷◌, ◌++◌, Bool, true,
  false, not, ◌&&◌, Option, none, some, leb, ltb, ◌==◌, if◌then◌else◌, length, set, length-set,
  Bool-cases, Option-cases, inl, inr, arith, Str, All,
}
use green_right_topst_linux.Types.{VehicleInfo, TrafficLight, max_traffic_lights, invalid_id}
use green_right_topst_linux.Doubles.{Doubles}
use green_right_topst_linux.Libc.{has_prefix}
use green_right_topst_linux.Codec.{Cjson, vehicle_info_from_json_string}
use green_right_topst_linux.Codec.Lights.{traffic_light_from_json_string}
use green_right_topst_linux.OtherVehicles.{
  other_vehicle_manager_get, other_vehicle_manager_cleanup_stale,
}
use green_right_topst_linux.OtherVehicles.Table.{IsValid, update-IsValid, get-update}
use green_right_topst_linux.OtherVehicles.Stale.{cleanup_stale-IsValid, get-cleanup_stale}
use green_right_topst_linux.TrafficLights.{traffic_light_manager_update}
use green_right_topst_linux.Mqtt.{
  MqttHandler, receive_vehicle, receive_traffic_light, on_message, parse_traffic_light_topic_id,
  c_string, topic_vehicle_status_prefix, trafficlight_prefix,
}
use green_right_topst_linux.Mqtt.Thread.{
  Managers, Context, callbacks, clean, on_vehicle_message, on_traffic_light_message,
  other_vehicle_timeout_ms,
}

-- The tables are well-formed, and the vehicle is not among the others.
pub record AreSound (own : ℕ) (m : Managers) : Type 0 where
  pub table : IsValid m.others
  pub not_own : other_vehicle_manager_get m.others own ≡ none
  pub lights : length m.traffic_lights.slots ≡ 8

module _ (own now : ℕ) (m : Managers) (w : AreSound own m) where
  update_sound :
      (v : VehicleInfo) → (v.vehicle_id == own) ≡ false → AreSound own (on_vehicle_message now v m)
  unfolding on_vehicle_message
  update_sound v h = record {
    table = update-IsValid v now w.table;
    not_own = ground (arith, get-update m.others v now own w.table.size, w.not_own);
    lights = w.lights;
  }

  light_sound :
      (tl_id : ℕ) (tl : TrafficLight) → AreSound own (on_traffic_light_message now tl_id tl m)
  unfolding on_traffic_light_message traffic_light_manager_update
  light_sound tl_id tl = record {
    table = w.table;
    not_own = w.not_own;
    lights = elim (Bool-cases (leb max_traffic_lights tl_id)) [
      | inl e ↦ simp e w.lights
      | inr e ↦
          simp e (
            length-set m.traffic_lights.slots tl_id (record { light = tl; valid = true })
            ∙ w.lights)
    ];
  }

  pub clean-AreSound :
      (context : Context) → context.managers ≡ m → AreSound own (clean context now).managers
  clean-AreSound context e =
      subst
        (λ (k : Managers). AreSound own (record k {
          others = other_vehicle_manager_cleanup_stale k.others other_vehicle_timeout_ms now;
        }))
        (sym e)
        (record {
          table = cleanup_stale-IsValid m.others other_vehicle_timeout_ms now w.table;
          not_own =
              ground
                (arith, get-cleanup_stale m.others other_vehicle_timeout_ms now own, w.not_own);
          lights = w.lights;
        })

  module _ (handler : MqttHandler Managers) (i : handler.vehicle_id ≡ own)
      (c : handler.callbacks ≡ callbacks) where
    vehicle_sound : (v : Option VehicleInfo) → AreSound own (receive_vehicle handler now v m)
    unfolding receive_vehicle
    vehicle_sound none = w
    vehicle_sound (some v) = elim (Bool-cases (v.vehicle_id == handler.vehicle_id)) [
      | inl e ↦ simp e w
      | inr e ↦ simp (e, c) (update_sound v (ap (λ (k : ℕ). v.vehicle_id == k) (sym i) ∙ e))
    ]

    traffic_light_sound :
        (tl_id : ℕ) (tl : Option TrafficLight)
        → AreSound own (receive_traffic_light handler now tl_id tl m)
    unfolding receive_traffic_light
    traffic_light_sound tl_id none = w
    traffic_light_sound tl_id (some tl) = elim (Bool-cases (tl_id == invalid_id)) [
      | inl e ↦ simp e w
      | inr e ↦ simp (e, c) (light_sound tl_id tl)
    ]

    -- No message, whatever its topic and payload, breaks the tables or enters the vehicle itself among
    -- the others.
    pub on_message-AreSound :
        {D : Doubles} (cjson : Cjson D) (topic : Str) (payload : List ℕ)
        → AreSound own (on_message cjson handler now topic payload m)
    unfolding on_message green_right_topst_linux.Base.is_empty
    on_message-AreSound cjson topic [] = w
    on_message-AreSound cjson topic (p ∷ ps) =
        branches (has_prefix topic_vehicle_status_prefix topic)
          (has_prefix trafficlight_prefix topic)
          (vehicle_sound (vehicle_info_from_json_string cjson (c_string (p ∷ ps))))
          (traffic_light_sound (parse_traffic_light_topic_id topic)
            (traffic_light_from_json_string cjson (c_string (p ∷ ps))))
      where
        branches :
            (a b : Bool) {x y : Managers}
            → AreSound own x
            → AreSound own y
            → AreSound own (if a then x else if b then y else m)
        branches true b h k = h
        branches false true h k = k
        branches false false h k = w
