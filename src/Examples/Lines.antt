-- ===== src/Examples/Lines.antt =====
-- Sample lines of the protocols.
use elecraft_genius_bridge.Protocol.{parse_client_command, response_line, ok}
use elecraft_genius_bridge.Protocol.Parsing.{
  parse_client_command-Reads, parse_client_command-command_text, Reads, command_text,
}
use elecraft_genius_bridge.Flex.Response.{parse_response, parse_response-response_line}
use elecraft_genius_bridge.Bridge.Float.{hundredths}
use elecraft_genius_bridge.Bridge.Tuner.{default_tuner, TunerState, connected}
use elecraft_genius_bridge.Kat500.Frequency.{
  frequency_context_wire, frequency_hz_to_khz, frequency_context_wire_lem,
  requested_khz_from_frequency_wire, confirmed_khz_from_frequency_response,
}
use elecraft_genius_bridge.Kat500.Response.{parse_kat500_response}
use elecraft_genius_bridge.Kat500.Response.Tuning.{parse_kat500_response-tuning}
use elecraft_genius_bridge.Kat500.Response.Ranges.{parse_kat500_response-IsPlausible, IsPlausible}
use elecraft_genius_bridge.Common.{
  Text, arith, codes, false, inl, is_whitespace, none, refl, show_nat, some, trim, trim_end_matches,
  trim_start_matches, true, ℕ, ◌*◌, ◌++◌, ◌+◌, ◌<◌, ◌≡◌, ◌≢◌, ◌≤◌, ◌⊎◌,
}

abbrev numberless : Text
numberless = codes "Cstatus\n"

parse_client_command-Reads_example : Reads numberless (parse_client_command numberless)
parse_client_command-Reads_example = parse_client_command-Reads numberless

parse_client_command-command_text_example :
    parse_client_command (codes " " ++ command_text 12 (codes "status\n"))
    ≡ ok (record { seq = 12; command = trim (codes "status\n") })
parse_client_command-command_text_example =
    parse_client_command-command_text (codes " ") 12 (codes "status\n")
      (unfold is_whitespace in (refl, tt)) (omega arith)
      (unfold trim trim_start_matches trim_end_matches is_whitespace in λ e. cc)

parse_response-response_line_example :
    parse_response (response_line 7 0 (codes "handle|1"))
    ≡ some (7, show_nat 0, codes "handle|1" ++ codes "\n")
parse_response-response_line_example =
    parse_response-response_line 7 0 (codes "handle|1") (omega arith)

frequency_context_wire_lem_example :
    let khz = frequency_hz_to_khz 14250600 in
    ((1800000 ≤ 14250600)
      × (14250600 ≤ 54000000)
      × (wire : Text) × (frequency_context_wire (some 14250600) ≡ some wire)
      × (requested_khz_from_frequency_wire wire ≡ some khz)
      × (confirmed_khz_from_frequency_response wire ≡ some khz)
      × (1000 * khz ≤ 14250600 + 500)
      × (14250600 < 1000 * khz + 500))
    ⊎ (((14250600 < 1800000) ⊎ (54000000 < 14250600))
        × (frequency_context_wire (some 14250600) ≡ none))
frequency_context_wire_lem_example = frequency_context_wire_lem 14250600

-- A tuner at rest, with numbers in hundredths.
abbrev pub tuner : TunerState ℕ
tuner = record (default_tuner 0 100) {
  connected = true;
  connection_state = connected;
  operate = true;
  selected_antenna = some 1;
  swr = 130;
}

abbrev tuner_plausible : IsPlausible hundredths tuner
tuner_plausible = record { antenna_fits = omega arith; swr_fits = refl; forward_fits = inl refl }

parse_kat500_response-tuning_example :
    let u = parse_kat500_response hundredths (codes "TP1;\n") tuner in
    ((trim (codes "TP1;\n") ≡ codes "TP0;") × (u.tuning ≡ false))
    ⊎ ((trim (codes "TP1;\n") ≡ codes "TP1;") × (u.tuning ≡ true))
    ⊎ ((trim (codes "TP1;\n") ≢ codes "TP0;")
        × (trim (codes "TP1;\n") ≢ codes "TP1;")
        × (u.tuning ≡ tuner.tuning))
parse_kat500_response-tuning_example =
    parse_kat500_response-tuning hundredths (codes "TP1;\n") tuner

parse_kat500_response-IsPlausible_example :
    IsPlausible hundredths (parse_kat500_response hundredths (codes "VSWR 2;") tuner)
parse_kat500_response-IsPlausible_example =
    parse_kat500_response-IsPlausible hundredths refl (codes "VSWR 2;") tuner tuner_plausible
