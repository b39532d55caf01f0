-- ===== src/Kpa500/Response/Agreement.antt =====
-- The operate flag and the operating state, which the emulated amplifier advertises.
use elecraft_genius_bridge.Bridge.Float.{Float32}
use elecraft_genius_bridge.Bridge.Amp.{AmpState, standby, operate}
use elecraft_genius_bridge.Kpa500.Response.{
  Amp, set_firmware, set_serial, set_operate, set_power, set_swr, parse_power_swr,
  parse_temperature, set_volts, set_current, parse_volts_current, parse_fault, parse_fault_speaker,
  parse_trimmed, parse_kpa500_response,
}
use elecraft_genius_bridge.Common.{Text, arith, false, if_let_cases, trim, true, ◌≡◌}

module _ (fl : Float32) where
  -- The state never says operate without the flag, nor standby with it.
  pub record Agrees (a : AmpState (fl.Float)) : Type 0 where
    pub operates : a.state ≡ operate → a.operate ≡ true
    pub stands_by : a.state ≡ standby → a.operate ≡ false

  set_operate-Agrees : (a : Amp fl) (raw : Text) → Agrees a → Agrees (set_operate fl a raw)
  unfolding set_operate
  set_operate-Agrees a raw g = ground arith

  parse_power_swr-Agrees : (a : Amp fl) (raw : Text) → Agrees a → Agrees (parse_power_swr fl a raw)
  unfolding parse_power_swr set_power set_swr
  parse_power_swr-Agrees a raw g = ground arith

  parse_volts_current-Agrees :
      (a : Amp fl) (raw : Text) → Agrees a → Agrees (parse_volts_current fl a raw)
  unfolding parse_volts_current set_volts set_current
  parse_volts_current-Agrees a raw g = ground arith

  parse_fault-Agrees : (a : Amp fl) (raw : Text) → Agrees a → Agrees (parse_fault fl a raw)
  unfolding parse_fault
  parse_fault-Agrees a raw g = ground arith

  set_firmware-Agrees : (a : Amp fl) (raw : Text) → Agrees a → Agrees (set_firmware fl a raw)
  unfolding set_firmware
  set_firmware-Agrees a raw g = ground arith

  set_serial-Agrees : (a : Amp fl) (raw : Text) → Agrees a → Agrees (set_serial fl a raw)
  unfolding set_serial
  set_serial-Agrees a raw g = ground arith

  parse_temperature-Agrees :
      (a : Amp fl) (raw : Text) → Agrees a → Agrees (parse_temperature fl a raw)
  unfolding parse_temperature
  parse_temperature-Agrees a raw g = ground arith

  parse_fault_speaker-Agrees :
      (a : Amp fl) (raw : Text) → Agrees a → Agrees (parse_fault_speaker fl a raw)
  unfolding parse_fault_speaker
  parse_fault_speaker-Agrees a raw g = ground arith

  parse_trimmed-Agrees : (r : Text) (a : Amp fl) → Agrees a → Agrees (parse_trimmed fl r a)
  unfolding parse_trimmed
  parse_trimmed-Agrees r a g =
      if_let_cases Agrees _ _ _ (λ raw e. set_firmware-Agrees a raw g)
        (if_let_cases Agrees _ _ _ (λ raw e. set_serial-Agrees a raw g)
          (if_let_cases Agrees _ _ _ (λ raw e. set_operate-Agrees a raw g)
            (if_let_cases Agrees _ _ _ (λ raw e. parse_power_swr-Agrees a raw g)
              (if_let_cases Agrees _ _ _ (λ raw e. parse_temperature-Agrees a raw g)
                (if_let_cases Agrees _ _ _ (λ raw e. parse_volts_current-Agrees a raw g)
                  (if_let_cases Agrees _ _ _ (λ raw e. parse_fault-Agrees a raw g)
                    (if_let_cases Agrees _ _ _ (λ raw e. parse_fault_speaker-Agrees a raw g)
                      g)))))))

  -- Whatever line the amplifier sends, its operating state keeps in step with the operate flag: it is
  -- operate only if the flag is set, and standby only if it is not.
  pub parse_kpa500_response-Agrees :
      (response : Text) (a : AmpState (fl.Float))
      → Agrees a
      → Agrees (parse_kpa500_response fl response a)
  unfolding parse_kpa500_response
  parse_kpa500_response-Agrees response a g = parse_trimmed-Agrees (trim response) a g
