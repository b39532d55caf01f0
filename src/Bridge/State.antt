-- ===== src/Bridge/State.antt =====
-- `BridgeState`, which the drivers and the emulators share. Of `LifecycleDiagnostics` it holds `tune`;
-- the client sessions, the counters and the identity of the process are left out.
use elecraft_genius_bridge.Bridge.Float.{Float32}
use elecraft_genius_bridge.Bridge.Radio.{RadioContext}
use elecraft_genius_bridge.Bridge.Amp.{AmpState}
use elecraft_genius_bridge.Bridge.Tuner.{TunerState}
use elecraft_genius_bridge.Bridge.Injection.{FlexInjectionState}
use elecraft_genius_bridge.Bridge.Desired.{DesiredState, ControlDiagnostics}
use elecraft_genius_bridge.Bridge.Lifecycle.{TuneLifecycleStatus}
use elecraft_genius_bridge.Common.{Text, some}

pub record BridgeState (fl : Float32) : Type 0 where
  pub radio_context : RadioContext
  pub amp : AmpState (fl.Float)
  pub tuner : TunerState (fl.Float)
  pub flex_injection : FlexInjectionState
  pub desired : DesiredState
  pub controls : ControlDiagnostics
  pub tune : TuneLifecycleStatus

-- A new `last_safety_decision`.
abbrev pub decided : {fl : Float32} → Text → BridgeState fl → BridgeState fl
decided decision g = record g {
  controls = record (g.controls) { last_safety_decision = some decision };
}
