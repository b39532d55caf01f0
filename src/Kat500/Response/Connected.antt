-- ===== src/Kat500/Response/Connected.antt =====
-- The state of the connection over the lines of the tuner.
use elecraft_genius_bridge.Bridge.Float.{Float32}
use elecraft_genius_bridge.Kat500.Response.{
  Tuner, set_antenna, set_mode, set_fault, parse_vswr, set_forward, set_band, parse_trimmed,
  set_firmware, set_tuning, parse_kat500_response, set_serial, set_frequency, parse_trimmed_cases,
}
use elecraft_genius_bridge.Common.{Text, arith, refl, trim, ◌≡◌}

module _ (fl : Float32) where
  parse_trimmed-connection_state :
      (t : Tuner fl) (r : Text) → (parse_trimmed fl r t).connection_state ≡ t.connection_state
  unfolding set_firmware set_serial set_antenna set_mode set_tuning set_fault parse_vswr set_forward
      set_frequency set_band
  parse_trimmed-connection_state t r =
      parse_trimmed_cases fl (λ u. u.connection_state ≡ t.connection_state) r t
        record {
          other = refl;
          firmware = λ raw. ground arith;
          serial = λ raw. ground arith;
          antenna = λ raw. ground arith;
          bypass_on = refl;
          bypass_off = refl;
          mode = λ raw. ground arith;
          tuned = λ raw. ground arith;
          fault = λ raw. ground arith;
          vswr = λ raw. ground arith;
          forward = λ raw. ground arith;
          frequency = λ raw. ground arith;
          band = λ raw. ground arith;
        }

  pub parse_kat500_response-connection_state :
      (response : Text) (t : Tuner fl)
      → (parse_kat500_response fl response t).connection_state ≡ t.connection_state
  unfolding parse_kat500_response
  parse_kat500_response-connection_state response t =
      parse_trimmed-connection_state t (trim response)
