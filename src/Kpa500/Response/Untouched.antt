-- ===== src/Kpa500/Response/Untouched.antt =====
-- The connection and the progress of the first poll over the lines of the amplifier.
use elecraft_genius_bridge.Bridge.Float.{Float32}
use elecraft_genius_bridge.Bridge.Amp.{AmpState}
use elecraft_genius_bridge.Kpa500.Response.{
  Amp, set_firmware, set_serial, set_operate, set_power, set_swr, parse_power_swr,
  parse_temperature, set_volts, set_current, parse_volts_current, parse_fault, parse_fault_speaker,
  parse_trimmed, parse_kpa500_response,
}
use elecraft_genius_bridge.Common.{Text, arith, if_let_cases, trim, refl, ◌≡◌}

module _ (fl : Float32) where
  pub record Same (a b : AmpState (fl.Float)) : Type 0 where
    pub connection : b.connection_state ≡ a.connection_state
    pub completed : b.first_poll_completed ≡ a.first_poll_completed

  Same-refl : (a : AmpState (fl.Float)) → Same a a
  Same-refl a = record { connection = refl; completed = refl }

  set_firmware-Same : (a : Amp fl) (raw : Text) → Same a (set_firmware fl a raw)
  unfolding set_firmware
  set_firmware-Same a raw = ground arith

  set_serial-Same : (a : Amp fl) (raw : Text) → Same a (set_serial fl a raw)
  unfolding set_serial
  set_serial-Same a raw = ground arith

  set_operate-Same : (a : Amp fl) (raw : Text) → Same a (set_operate fl a raw)
  unfolding set_operate
  set_operate-Same a raw = ground arith

  parse_power_swr-Same : (a : Amp fl) (raw : Text) → Same a (parse_power_swr fl a raw)
  unfolding parse_power_swr set_power set_swr
  parse_power_swr-Same a raw = ground arith

  parse_temperature-Same : (a : Amp fl) (raw : Text) → Same a (parse_temperature fl a raw)
  unfolding parse_temperature
  parse_temperature-Same a raw = ground arith

  parse_volts_current-Same : (a : Amp fl) (raw : Text) → Same a (parse_volts_current fl a raw)
  unfolding parse_volts_current set_volts set_current
  parse_volts_current-Same a raw = ground arith

  parse_fault-Same : (a : Amp fl) (raw : Text) → Same a (parse_fault fl a raw)
  unfolding parse_fault
  parse_fault-Same a raw = ground arith

  parse_fault_speaker-Same : (a : Amp fl) (raw : Text) → Same a (parse_fault_speaker fl a raw)
  unfolding parse_fault_speaker
  parse_fault_speaker-Same a raw = ground arith

  parse_trimmed-Same : (r : Text) (a : Amp fl) → Same a (parse_trimmed fl r a)
  unfolding parse_trimmed
  parse_trimmed-Same r a =
      if_let_cases (Same a) _ _ _ (λ raw e. set_firmware-Same a raw)
        (if_let_cases (Same a) _ _ _ (λ raw e. set_serial-Same a raw)
          (if_let_cases (Same a) _ _ _ (λ raw e. set_operate-Same a raw)
            (if_let_cases (Same a) _ _ _ (λ raw e. parse_power_swr-Same a raw)
              (if_let_cases (Same a) _ _ _ (λ raw e. parse_temperature-Same a raw)
                (if_let_cases (Same a) _ _ _ (λ raw e. parse_volts_current-Same a raw)
                  (if_let_cases (Same a) _ _ _ (λ raw e. parse_fault-Same a raw)
                    (if_let_cases (Same a) _ _ _ (λ raw e. parse_fault_speaker-Same a raw)
                      (Same-refl a))))))))

  pub parse_kpa500_response-Same :
      (response : Text) (a : AmpState (fl.Float)) → Same a (parse_kpa500_response fl response a)
  unfolding parse_kpa500_response
  parse_kpa500_response-Same response a = parse_trimmed-Same (trim response) a
