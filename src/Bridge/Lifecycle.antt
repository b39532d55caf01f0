-- ===== src/Bridge/Lifecycle.antt =====
-- The lifecycle records of crates/bridge-core/src/state.rs. The clock is an argument, `now`, and
-- the reasons are texts.
use elecraft_genius_bridge.Common.{
  Bool, Option, Text, false, none, some, text_eq, ℕ, ap, arith, eq_of_text_eq, if◌then◌else◌,
  saturating_add, text_eq_iff, true, ◌&&◌, ◌↔◌, ◌≡◌, ◌≢◌, ◌⊎◌, decides,
}
use native.Mathlib.Omega.{arith}

pub data LifecycleState : Type 0 where
  disconnected connecting subscribed object_created object_advertised : LifecycleState
  object_accepted tcp_connected active degraded removed reconnecting not_started : LifecycleState

pub data TuneLifecycleState : Type 0 where
  idle tune_requested tuning tune_complete tune_failed cooldown : TuneLifecycleState

pub LifecycleState-discrete : Discrete LifecycleState
LifecycleState-discrete = hlevel

pub TuneLifecycleState-discrete : Discrete TuneLifecycleState
TuneLifecycleState-discrete = hlevel

-- `self.state != state || self.last_transition_reason.as_deref() != Some(reason.as_str())`
abbrev pub same_reason : Option Text → Text → Bool
same_reason none reason = false
same_reason (some r) reason = text_eq r reason

pub record LifecycleStatus : Type 0 where
  pub state : LifecycleState
  pub transition_count : ℕ
  pub last_transition_reason : Option Text
  pub entered_at_ms : Option ℕ

pub record TuneLifecycleStatus : Type 0 where
  pub state : TuneLifecycleState
  pub transition_count : ℕ
  pub last_transition_reason : Option Text
  pub entered_at_ms : Option ℕ
  pub last_successful_tune_ms : Option ℕ
  pub last_failed_tune_ms : Option ℕ

-- What both `transition` methods do to the fields that they share.
unfoldable pub transition : LifecycleStatus → LifecycleState → Text → ℕ → LifecycleStatus
transition s state reason now =
    if decides (LifecycleState-discrete s.state state)
      && same_reason s.last_transition_reason reason
    then s
    else record s {
      state = state;
      transition_count = saturating_add s.transition_count 1;
      last_transition_reason = some reason;
      entered_at_ms = some now;
    }

unfoldable pub tune_transition :
    TuneLifecycleStatus → TuneLifecycleState → Text → ℕ → TuneLifecycleStatus
tune_transition s state reason now =
    if decides (TuneLifecycleState-discrete s.state state)
      && same_reason s.last_transition_reason reason
    then s
    else record s {
      state = state;
      transition_count = saturating_add s.transition_count 1;
      last_transition_reason = some reason;
      entered_at_ms = some now;
    }

unfoldable pub mark_success : TuneLifecycleStatus → Text → ℕ → TuneLifecycleStatus
unfolding tune_transition
mark_success s reason now =
    tune_transition (record s { last_successful_tune_ms = some now }) tune_complete reason now

unfoldable pub mark_failure : TuneLifecycleStatus → Text → ℕ → TuneLifecycleStatus
unfolding tune_transition
mark_failure s reason now =
    tune_transition (record s { last_failed_tune_ms = some now }) tune_failed reason now

same_reason_iff : (o : Option Text) (r : Text) → (same_reason o r ≡ true) ↔ (o ≡ some r)
same_reason_iff none r = (λ e. cc, λ e. cc)
same_reason_iff (some q) r =
    (λ e. ap some (eq_of_text_eq q r e), λ e. ground (arith, text_eq_iff q r))

-- A transition leaves the requested state and reason behind. It counts, and stamps the time, exactly
-- when one of the two is new; otherwise nothing changes, so a repeated request has no effect.
pub transition_lem :
    (s : LifecycleStatus) (state : LifecycleState) (reason : Text) (now later : ℕ)
    → let t = transition s state reason now in
      (t.state ≡ state)
      × (t.last_transition_reason ≡ some reason)
      × (((s.state ≡ state) × (s.last_transition_reason ≡ some reason) × (t ≡ s))
          ⊎ (((s.state ≢ state) ⊎ (s.last_transition_reason ≢ some reason))
              × (t.transition_count ≡ saturating_add s.transition_count 1)
              × (t.entered_at_ms ≡ some now)))
      × (transition t state reason later ≡ t)
unfolding transition
transition_lem s state reason now later =
    ground
      (arith, same_reason_iff s.last_transition_reason reason, same_reason_iff (some reason) reason)
