-- ===== src/Examples/Dry.antt =====
-- A dry run that follows the radio, while the clients ask for a tune, an antenna and operate.
use elecraft_genius_bridge.Bridge.Float.{hundredths}
use elecraft_genius_bridge.Bridge.State.{BridgeState}
use elecraft_genius_bridge.Config.Device.{default_device}
use elecraft_genius_bridge.Config.Operational.{default_operational}
use elecraft_genius_bridge.Kpa500.Command as Kpa500
use elecraft_genius_bridge.Kpa500.Command.{cmd_operate}
use elecraft_genius_bridge.Kpa500.Control as Kpa500Control
use elecraft_genius_bridge.Kpa500.Follow.{process_band_follow}
use elecraft_genius_bridge.Kat500.Command as Kat500
use elecraft_genius_bridge.Kat500.Command.{cmd_fault}
use elecraft_genius_bridge.Kat500.Desired as Kat500Desired
use elecraft_genius_bridge.Kat500.Follow.{process_frequency_follow}
use elecraft_genius_bridge.Egb.Policy.{BridgeConfig, kpa500_settings, kat500_settings}
use elecraft_genius_bridge.Egb.Policy.Passes.{dry_run_writes_nothing}
use elecraft_genius_bridge.Examples.Follow.{port, no_poll}
use elecraft_genius_bridge.Examples.Control.{asking, control_port, shown}
use elecraft_genius_bridge.Examples.Amplifier.{amp_port}
use elecraft_genius_bridge.Common.{[], none, refl, some, true, ◌↔◌, ◌≡◌}

abbrev dry : BridgeConfig
dry = record {
  kpa500 = record default_device { follow_flex_band = true };
  kat500 = record default_device { follow_flex_frequency = true };
  operational = default_operational;
}

abbrev all_asked : BridgeState hundredths
all_asked = record asking { desired = record (asking.desired) { amp_operate = some true } }

dry_run_writes_nothing_example :
    let kpa = kpa500_settings dry in
    let kat = kat500_settings dry in
    ((Kpa500Control.process_desired_control hundredths kpa amp_port all_asked).wires ≡ [])
    × ((process_band_follow hundredths kpa port all_asked).1 ≡ none)
    × ((Kat500Desired.process_desired_control hundredths shown kat control_port all_asked).wires
        ≡ [])
    × ((process_frequency_follow hundredths kat no_poll 0 port all_asked).1 ≡ none)
    × ((Kpa500.ensure_can_send kpa cmd_operate ≡ none) ↔ (cmd_operate.safety ≡ Kpa500.read_only))
    × ((Kat500.ensure_can_send kat cmd_fault ≡ none) ↔ (cmd_fault.safety ≡ Kat500.read_only))
dry_run_writes_nothing_example =
    dry_run_writes_nothing hundredths shown dry refl refl (λ e. cc) amp_port port control_port
      no_poll 0 port all_asked cmd_operate cmd_fault
