-- ===== src/Config/FlexInjection.antt =====
-- `FlexInjectionConfig`: the section of the Flex client.
use elecraft_genius_bridge.Config.Checks.{
  ConfigError, invalid, IpAddr, check, one_of, validate_lan_or_loopback, validate_port,
  validate_nonempty_token, first_error,
}
use elecraft_genius_bridge.Common.{
  Bool, List, Option, String, Text, [], codes, false, if◌then◌else◌, is_empty, leb, none, not, some,
  trim, true, ℕ, ◌++◌, ◌==◌, ◌∷◌,
}

pub record FlexInjectionConfig : Type 0 where
  pub enabled : Bool
  pub radio_ip : Text
  pub radio_port : ℕ
  pub amplifier_ip : Text
  pub force_advertised_pgxl_ip : Option Text
  pub allow_mismatched_advertised_ip : Bool
  pub amplifier_port : ℕ
  pub amplifier_model : Text
  pub serial : Text
  pub handle : Text
  pub ant_map : Text
  pub full_pgxl_registration : Bool
  pub create_meters : Bool
  pub create_interlock : Bool
  pub disable_amp_interlock : Bool
  pub enable_runtime_interlock : Bool
  pub enable_vita_meter_publish : Bool
  pub amplifier_status_profile : Text
  pub trace_amplifier_advertisements : Bool
  pub pgxl_force_operate_advertisement : Bool
  pub flex_force_operate_via_radio : Bool
  pub pgxl_connect_assist : Bool
  pub amplifier_startup_state_policy : Text
  pub wait_first_kpa_poll_timeout_ms : ℕ
  pub amplifier_reannounce_interval_ms : ℕ
  pub pgxl_startup_trigger_strategy : Text
  pub aethersdr_open_trigger_variant : Text
  pub reconnect_initial_ms : ℕ
  pub reconnect_max_ms : ℕ
  pub ping_interval_ms : ℕ
  pub tuner_refresh_interval_ms : ℕ

abbrev pub default_flex_injection : FlexInjectionConfig
default_flex_injection = record {
  enabled = false;
  radio_ip = codes "127.0.0.1";
  radio_port = 4992;
  amplifier_ip = codes "127.0.0.1";
  force_advertised_pgxl_ip = none;
  allow_mismatched_advertised_ip = false;
  amplifier_port = 9008;
  amplifier_model = codes "PowerGeniusXL";
  serial = codes "EGB-KPA500";
  handle = codes "amp_1";
  ant_map = codes "ANT1:PORTA,ANT2:PORTB";
  full_pgxl_registration = true;
  create_meters = true;
  create_interlock = true;
  disable_amp_interlock = false;
  enable_runtime_interlock = false;
  enable_vita_meter_publish = false;
  amplifier_status_profile = codes "pgxl_paired";
  trace_amplifier_advertisements = false;
  pgxl_force_operate_advertisement = false;
  flex_force_operate_via_radio = false;
  pgxl_connect_assist = false;
  amplifier_startup_state_policy = codes "wait_for_first_kpa_poll";
  wait_first_kpa_poll_timeout_ms = 10000;
  amplifier_reannounce_interval_ms = 5000;
  pgxl_startup_trigger_strategy = codes "current";
  aethersdr_open_trigger_variant = codes "current";
  reconnect_initial_ms = 1000;
  reconnect_max_ms = 30000;
  ping_interval_ms = 30000;
  tuner_refresh_interval_ms = 5000;
}

abbrev pub amplifier_status_profiles : List String
amplifier_status_profiles =
    "minimal" ∷ "official_pgxl" ∷ "pgxl_paired" ∷ "pgxl_verbose" ∷ "old_good_pgxl"
    ∷ "aethersdr_minimal" ∷ "aethersdr_operational" ∷ "aethersdr_force_direct"
    ∷ "aethersdr_pgxl_direct_lab" ∷ "strict_real_pgxl" ∷ []

abbrev pub startup_state_policies : List String
startup_state_policies =
    "wait_for_first_kpa_poll" ∷ "advertise_standby_immediately" ∷ "advertise_configured_default"
    ∷ []

abbrev pub trigger_strategies : List String
trigger_strategies =
    "current" ∷ "rapid_sub_only" ∷ "reannounce_status_only" ∷ "reannounce_create_style_status"
    ∷ "no_burst" ∷ []

abbrev pub trigger_variants : List String
trigger_variants =
    "current" ∷ "no_hack_fields" ∷ "state_only" ∷ "state_connected" ∷ "state_ip_port"
    ∷ "state_model_ip_port_serial" ∷ "availability_fields" ∷ "current_hack_fields" ∷ []

unfoldable pub validate_status_profile : FlexInjectionConfig → Option ConfigError
validate_status_profile c = check (one_of amplifier_status_profiles c.amplifier_status_profile) (
    codes
      "flex_injection.amplifier_status_profile must be one of minimal, official_pgxl, pgxl_paired, pgxl_verbose, old_good_pgxl, aethersdr_minimal, aethersdr_operational, aethersdr_force_direct, aethersdr_pgxl_direct_lab, strict_real_pgxl; got "
    ++ c.amplifier_status_profile)

abbrev pub not_zero : ℕ → Text → Option ConfigError
not_zero n name = check (not (n == 0)) (codes "flex_injection." ++ (name ++ codes " must be > 0"))

-- The checks of the timing and of the startup, after the status profile's.
abbrev pub timing_checks : FlexInjectionConfig → List (Option ConfigError)
timing_checks c =
    check (one_of startup_state_policies c.amplifier_startup_state_policy) (
      codes
        "flex_injection.amplifier_startup_state_policy must be one of wait_for_first_kpa_poll, advertise_standby_immediately, advertise_configured_default; got "
      ++ c.amplifier_startup_state_policy)
    ∷ not_zero c.wait_first_kpa_poll_timeout_ms (codes "wait_first_kpa_poll_timeout_ms")
    ∷ not_zero c.amplifier_reannounce_interval_ms (codes "amplifier_reannounce_interval_ms")
    ∷ check (one_of trigger_strategies c.pgxl_startup_trigger_strategy) (
        codes
          "flex_injection.pgxl_startup_trigger_strategy must be one of current, rapid_sub_only, reannounce_status_only, reannounce_create_style_status, no_burst; got "
        ++ c.pgxl_startup_trigger_strategy)
    ∷ check (one_of trigger_variants c.aethersdr_open_trigger_variant) (
        codes
          "flex_injection.aethersdr_open_trigger_variant must be one of current, no_hack_fields, state_only, state_connected, state_ip_port, state_model_ip_port_serial, availability_fields, current_hack_fields; got "
        ++ c.aethersdr_open_trigger_variant)
    ∷ not_zero c.reconnect_initial_ms (codes "reconnect_initial_ms")
    ∷ check (leb c.reconnect_initial_ms c.reconnect_max_ms)
        (codes "flex_injection.reconnect_max_ms must be >= reconnect_initial_ms")
    ∷ not_zero c.ping_interval_ms (codes "ping_interval_ms")
    ∷ not_zero c.tuner_refresh_interval_ms (codes "tuner_refresh_interval_ms")
    ∷ []

unfoldable pub validate_timing : FlexInjectionConfig → Option ConfigError
validate_timing c = first_error (timing_checks c)

-- The checks after the addresses.
abbrev pub rest_checks : FlexInjectionConfig → List (Option ConfigError)
rest_checks c =
    validate_port "flex_injection.radio_port" c.radio_port
    ∷ validate_port "flex_injection.amplifier_port" c.amplifier_port
    ∷ validate_nonempty_token "flex_injection.amplifier_model" c.amplifier_model
    ∷ validate_nonempty_token "flex_injection.serial" c.serial
    ∷ validate_nonempty_token "flex_injection.handle" c.handle
    ∷ validate_nonempty_token "flex_injection.ant_map" c.ant_map
    ∷ validate_status_profile c
    ∷ validate_timing c
    ∷ []

unfoldable pub validate_rest : FlexInjectionConfig → Option ConfigError
validate_rest c = first_error (rest_checks c)

module _ (parse : Text → Option IpAddr) where
  -- An error, or the address.
  pub data Parsed : Type 0 where
    bad : ConfigError → Parsed
    good : IpAddr → Parsed

  unfoldable pub parse_ip : String → Text → Parsed
  parse_ip name value = elim (parse value) [
    | none ↦ bad (invalid (codes name ++ (codes " is not an IP address: " ++ value)))
    | some ip ↦ good ip
  ]

  -- `parse_ip(..)?` and what follows with the address.
  abbrev pub with_ip : Parsed → (IpAddr → Option ConfigError) → Option ConfigError
  with_ip (bad e) rest = some e
  with_ip (good ip) rest = rest ip

  -- The forced address, if one is given that is not blank.
  abbrev pub forced : Option Text → Option Text
  forced none = none
  forced (some value) = if is_empty (trim value) then none else some value

  -- The forced address is read before the other two are judged, and judged after them.
  unfoldable pub validate_advertised :
      Option Text → Option ConfigError → Option ConfigError → Option ConfigError
  validate_advertised none others rest = first_error (others ∷ rest ∷ [])
  validate_advertised (some value) others rest =
      with_ip (parse_ip "flex_injection.force_advertised_pgxl_ip" value) λ ip.
        first_error (
          others
          ∷ validate_lan_or_loopback "flex_injection.force_advertised_pgxl_ip" ip
          ∷ rest
          ∷ [])

  unfoldable pub validate_flex_injection : FlexInjectionConfig → Option ConfigError
  unfolding validate_advertised
  validate_flex_injection c =
      if not c.enabled
      then none
      else with_ip (parse_ip "flex_injection.radio_ip" c.radio_ip) λ radio_ip.
        with_ip (parse_ip "flex_injection.amplifier_ip" c.amplifier_ip) λ amplifier_ip.
          validate_advertised (forced c.force_advertised_pgxl_ip)
            (first_error (
              validate_lan_or_loopback "flex_injection.radio_ip" radio_ip
              ∷ validate_lan_or_loopback "flex_injection.amplifier_ip" amplifier_ip
              ∷ []))
            (validate_rest c)
