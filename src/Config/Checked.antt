-- ===== src/Config/Checked.antt =====
-- The Flex section of a configuration that passes.
use elecraft_genius_bridge.Config.Checks.{
  ConfigError, IpAddr, check, is_lan_or_loopback_or_cgnat, validate_lan_or_loopback,
  validate_nonempty_token, has_pipe, first_error, first_error-none,
}
use elecraft_genius_bridge.Config.FlexInjection.{
  timing_checks, rest_checks, Parsed, bad, good, FlexInjectionConfig, validate_flex_injection,
  validate_timing, validate_rest, validate_advertised, parse_ip, forced, with_ip,
  validate_status_profile,
}
use elecraft_genius_bridge.Config.Whole.{all_checks, BridgeConfig, validate_all}
use elecraft_genius_bridge.Common.{
  Option, Option-cases, String, Text, [], arith, false, inl, inr, is_word, none, some, trim, true,
  ◌≡◌, ◌≢◌, ◌≤◌, Bool, is_empty, ◌∷◌, List,
}

-- A token that the Flex protocol can carry: not blank, with no white space and no pipe.
pub record IsToken (t : Text) : Type 0 where
  pub not_blank : trim t ≢ []
  pub one_word : is_word t ≡ true
  pub no_pipe : has_pipe t ≡ false

not_nil : (u : Text) → is_empty u ≡ false → u ≢ []
not_nil [] h e = absurd (ground arith)
not_nil (c ∷ u) h e = cc

validate_nonempty_token-IsToken :
    (name : String) (t : Text) → validate_nonempty_token name t ≡ none → IsToken t
unfolding validate_nonempty_token
validate_nonempty_token-IsToken name t h = record {
  not_blank = not_nil (trim t) (ground arith);
  one_word = ground arith;
  no_pipe = ground arith;
}

check-none : (b : Bool) (message : Text) → check b message ≡ none → b ≡ true
check-none b message h = ground arith

module _ (parse : Text → Option IpAddr) where
  -- An address that stands on the local side.
  pub record IsLocal (value : Text) : Type 0 where
    pub ip : IpAddr
    pub read : parse value ≡ some ip
    pub local : is_lan_or_loopback_or_cgnat ip ≡ true

  -- What an enabled Flex section keeps to.
  pub record IsSane (c : FlexInjectionConfig) : Type 0 where
    pub radio : IsLocal c.radio_ip
    pub amplifier : IsLocal c.amplifier_ip
    pub radio_port : 1 ≤ c.radio_port
    pub amplifier_port : 1 ≤ c.amplifier_port
    pub model : IsToken c.amplifier_model
    pub serial : IsToken c.serial
    pub handle : IsToken c.handle
    pub ant_map : IsToken c.ant_map
    pub initial : 1 ≤ c.reconnect_initial_ms
    pub backoff : c.reconnect_initial_ms ≤ c.reconnect_max_ms
    pub ping : 1 ≤ c.ping_interval_ms

  timing-facts :
      (c : FlexInjectionConfig)
      → validate_timing c ≡ none
      → (1 ≤ c.reconnect_initial_ms)
        × (c.reconnect_initial_ms ≤ c.reconnect_max_ms)
        × (1 ≤ c.ping_interval_ms)
  unfolding validate_timing
  timing-facts c h =
      let each = first_error-none (timing_checks c) h in
      let initial = check-none _ _ each.1.1.1.1.1.0 in
      let backoff = check-none _ _ each.1.1.1.1.1.1.0 in
      let ping = check-none _ _ each.1.1.1.1.1.1.1.0 in (ground arith, ground arith, ground arith)

  rest-IsSane :
      (c : FlexInjectionConfig)
      → IsLocal c.radio_ip
      → IsLocal c.amplifier_ip
      → validate_rest c ≡ none
      → IsSane c
  unfolding validate_rest
  rest-IsSane c r a h =
      let each = first_error-none (rest_checks c) h in
      let radio = check-none _ _ each.0 in
      let amplifier = check-none _ _ each.1.0 in
      let (initial, backoff, ping) = timing-facts c each.1.1.1.1.1.1.1.0 in
      record {
        radio = r;
        amplifier = a;
        radio_port = ground arith;
        amplifier_port = ground arith;
        model = validate_nonempty_token-IsToken _ c.amplifier_model each.1.1.0;
        serial = validate_nonempty_token-IsToken _ c.serial each.1.1.1.0;
        handle = validate_nonempty_token-IsToken _ c.handle each.1.1.1.1.0;
        ant_map = validate_nonempty_token-IsToken _ c.ant_map each.1.1.1.1.1.0;
        initial = initial;
        backoff = backoff;
        ping = ping;
      }

  -- Both groups of checks have passed, whether an address is forced or not.
  validate_advertised-none :
      (o : Option Text) (others rest : Option ConfigError)
      → validate_advertised parse o others rest ≡ none
      → (others ≡ none) × (rest ≡ none)
  unfolding validate_advertised
  validate_advertised-none none others rest h =
      let each = first_error-none (others ∷ rest ∷ []) h in (each.0, each.1.0)
  validate_advertised-none (some value) others rest h =
      by_address (parse_ip parse "flex_injection.force_advertised_pgxl_ip" value) h
    where
      checks : IpAddr → List (Option ConfigError)
      checks ip =
          others ∷ validate_lan_or_loopback "flex_injection.force_advertised_pgxl_ip" ip ∷ rest ∷ []

      by_address :
          (p : Parsed parse)
          → with_ip parse p (λ ip. first_error (checks ip)) ≡ none
          → (others ≡ none) × (rest ≡ none)
      by_address (bad e) k = absurd (ground arith)
      by_address (good ip) k = let each = first_error-none (checks ip) k in (each.0, each.1.1.0)

  parse_ip-good :
      (name : String) (value : Text) (rest : IpAddr → Option ConfigError)
      → with_ip parse (parse_ip parse name value) rest ≡ none
      → (ip : IpAddr) × (parse value ≡ some ip) × (rest ip ≡ none)
  unfolding parse_ip
  parse_ip-good name value rest h = elim (Option-cases (parse value)) [
    | inl n ↦ absurd (ground arith)
    | inr (ip, n) ↦ (ip, n, rw (parse_ip, n) at h)
  ]

  validate_flex_injection-IsSane :
      (c : FlexInjectionConfig)
      → validate_flex_injection parse c ≡ none
      → c.enabled ≡ true
      → IsSane c
  unfolding validate_flex_injection validate_rest validate_status_profile validate_timing
  validate_flex_injection-IsSane c h e =
      let (radio, radio_read, h1) =
        parse_ip-good "flex_injection.radio_ip" c.radio_ip _ (rw e at h) in
      let (amplifier, amplifier_read, h2) =
        parse_ip-good "flex_injection.amplifier_ip" c.amplifier_ip _ h1 in
      let (others, rest) =
        validate_advertised-none (forced parse c.force_advertised_pgxl_ip) _ _ h2 in
      let each =
        first_error-none
          (validate_lan_or_loopback "flex_injection.radio_ip" radio
            ∷ validate_lan_or_loopback "flex_injection.amplifier_ip" amplifier
            ∷ [])
          others in
      rest-IsSane c (record { ip = radio; read = radio_read; local = check-none _ _ each.0 })
        (record { ip = amplifier; read = amplifier_read; local = check-none _ _ each.1.0 }) rest

  -- In a configuration that passes, an enabled Flex section points at local addresses only, for the radio
  -- and for the amplifier; its ports are no zeros, its names are words without a pipe, and the times
  -- between its attempts to connect lie in order.
  pub validate_all-IsSane :
      (c : BridgeConfig)
      → validate_all parse c ≡ none
      → c.flex_injection.enabled ≡ true
      → IsSane c.flex_injection
  unfolding validate_all
  validate_all-IsSane c h e =
      validate_flex_injection-IsSane c.flex_injection
        (first_error-none (all_checks parse c) h).1.1.1.1.1.1.0 e
