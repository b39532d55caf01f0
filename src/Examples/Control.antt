-- ===== src/Examples/Control.antt =====
-- Passes of the tuner's desired control.
use elecraft_genius_bridge.Bridge.Float.{hundredths}
use elecraft_genius_bridge.Bridge.State.{BridgeState}
use elecraft_genius_bridge.Bridge.Desired.{default_desired}
use elecraft_genius_bridge.Bridge.Serial.{Window, sent}
use elecraft_genius_bridge.Kat500.Command.{Kat500Settings}
use elecraft_genius_bridge.Kat500.Tune.{TunePort, poll_tune_until_idle}
use elecraft_genius_bridge.Kat500.Tune.Ends.{IsIdle, poll_tune_until_idle-IsIdle}
use elecraft_genius_bridge.Kat500.Desired.{ControlPort, process_desired_control}
use elecraft_genius_bridge.Kat500.Desired.Guarded.{IsPermitted, process_desired_control-IsPermitted}
use elecraft_genius_bridge.Kat500.Desired.Taken.{process_desired_control-taken, tuned_once}
use elecraft_genius_bridge.Examples.Follow.{changing, port}
use elecraft_genius_bridge.Common.{
  All, Option, Text, [], arith, codes, false, none, refl, some, true, ◌∷◌, ◌≡◌,
}

abbrev pub shown : Option Text → Text
shown o = []

abbrev pub line : Text → Window
line response = record { sending = sent; lines = response ∷ []; read_fails = false }

abbrev tune_port : TunePort
tune_port = record {
  started_ms = 5000;
  rounds = λ i. record { window = line (codes "TP0;"); takes_ms = 20 };
  vswr = line (codes "VSWR 1.20;");
}

abbrev pub control_port : ControlPort
control_port = record {
  now_ms = 5000;
  frequency = port;
  autotune = line (codes "T;");
  tune = tune_port;
  finished_ms = 6000;
  antenna = line (codes "AN2;");
  bypass = line (codes "BYPB;");
}

abbrev pub permissive : Kat500Settings
permissive = record {
  dry_run = false;
  allow_control = true;
  allow_rf_risk = true;
  follow_flex_frequency = true;
}

-- A tune and an antenna are asked for at once.
abbrev pub asking : BridgeState hundredths
asking = record changing {
  desired = record default_desired {
    tuner_autotune_requested = true;
    tuner_selected_antenna = some 2;
  };
}

poll_tune_until_idle-IsIdle_example :
    IsIdle hundredths shown (poll_tune_until_idle hundredths shown tune_port asking)
poll_tune_until_idle-IsIdle_example = poll_tune_until_idle-IsIdle hundredths shown tune_port asking

process_desired_control-IsPermitted_example :
    All
      (IsPermitted permissive asking.desired asking.radio_context.frequency_hz)
      (process_desired_control hundredths shown permissive control_port asking).wires
process_desired_control-IsPermitted_example =
    process_desired_control-IsPermitted hundredths shown permissive control_port asking

process_desired_control-taken_example :
    (process_desired_control hundredths shown permissive control_port asking).state.desired
    ≡ default_desired
process_desired_control-taken_example =
    process_desired_control-taken hundredths shown permissive control_port asking

-- The same requests again, 900 ms later.
abbrev asking_again : BridgeState hundredths
asking_again = record asking {
  radio_context =
      (process_desired_control hundredths shown permissive control_port asking).state.radio_context;
}

tuned_once_example :
    let r =
      process_desired_control hundredths shown permissive
        (record control_port { now_ms = 5900 })
        asking_again in
    (r.wires ≡ []) × (r.error ≡ none) × (r.state.desired.tuner_selected_antenna ≡ none)
tuned_once_example =
    tuned_once hundredths shown permissive control_port (record control_port { now_ms = 5900 })
      asking asking_again refl refl refl refl (omega arith) (omega arith)
