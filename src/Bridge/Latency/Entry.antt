-- ===== src/Bridge/Latency/Entry.antt =====
-- One transition of the KPA500's state: `KpaStateTransitionLatency`, and what each observation does
-- to one entry.
use elecraft_genius_bridge.Common.{
  Bool, Option, Text, arith, codes, false, if◌then◌else◌, is_none, is_some, leb, ltb, none, some,
  text_eq, true, ℕ, ◌&&◌, ◌++◌, ◌-◌, ◌≡◌, ◌≤◌,
}

pub record KpaStateTransitionLatency : Type 0 where
  pub transition_id : ℕ
  pub old_state : Text
  pub new_state : Text
  pub kpa_detect_ms : ℕ
  pub shared_state_update_ms : ℕ
  pub first_pgxl_status_after_detect_ms : Option ℕ
  pub first_pgxl_status_state : Option Text
  pub first_pgxl_matching_state_ms : Option ℕ
  pub first_flex_reannounce_tx_ms : Option ℕ
  pub first_flex_reannounce_line : Option Text
  pub first_flex_status_observed_ms : Option ℕ
  pub first_flex_status_state : Option Text
  pub first_flex_status_line : Option Text
  pub first_flex_matching_state_ms : Option ℕ
  pub flex_state_reflection_result : Option Text
  pub passed_pgxl_under_2s : Option Bool
  pub passed_flex_under_2s : Option Bool

unfoldable pub new : ℕ → Text → Text → ℕ → KpaStateTransitionLatency
new transition_id old_state new_state timestamp_ms = record {
  transition_id = transition_id;
  old_state = old_state;
  new_state = new_state;
  kpa_detect_ms = timestamp_ms;
  shared_state_update_ms = timestamp_ms;
  first_pgxl_status_after_detect_ms = none;
  first_pgxl_status_state = none;
  first_pgxl_matching_state_ms = none;
  first_flex_reannounce_tx_ms = none;
  first_flex_reannounce_line = none;
  first_flex_status_observed_ms = none;
  first_flex_status_state = none;
  first_flex_status_line = none;
  first_flex_matching_state_ms = none;
  flex_state_reflection_result = none;
  passed_pgxl_under_2s = none;
  passed_flex_under_2s = none;
}

-- The closure of `refresh_pass_flags`.
abbrev pub passes : ℕ → ℕ → Bool
passes detect observed = leb detect observed && leb (observed - detect) 2000

abbrev pub pass_flag : ℕ → Option ℕ → Option Bool
pass_flag detect none = none
pass_flag detect (some observed) = some (passes detect observed)

unfoldable pub refresh_pass_flags : KpaStateTransitionLatency → KpaStateTransitionLatency
refresh_pass_flags t = record t {
  passed_pgxl_under_2s = pass_flag t.kpa_detect_ms t.first_pgxl_matching_state_ms;
  passed_flex_under_2s = pass_flag t.kpa_detect_ms t.first_flex_matching_state_ms;
}

-- A step on one entry says whether it changed the entry.
abbrev pub Step : Type 0
Step = KpaStateTransitionLatency × Bool

note_pgxl_status : ℕ → Text → KpaStateTransitionLatency → Step
note_pgxl_status now state t =
    if is_none t.first_pgxl_status_after_detect_ms
    then (
      record t {
        first_pgxl_status_after_detect_ms = some now;
        first_pgxl_status_state = some state;
      },
      true,
    )
    else (t, false)

note_pgxl_match : ℕ → Text → Step → Step
note_pgxl_match now state s =
    if is_none s.0.first_pgxl_matching_state_ms && text_eq state s.0.new_state
    then (record (s.0) { first_pgxl_matching_state_ms = some now }, true)
    else s

-- `if changed { transition.refresh_pass_flags(); … }`
abbrev refresh_changed : Step → Step
refresh_changed s = if s.1 then (refresh_pass_flags s.0, true) else s

-- The body of the loop of `record_pgxl_status_observed`.
unfoldable pub observe_pgxl_status : ℕ → Text → KpaStateTransitionLatency → Step
unfolding note_pgxl_status note_pgxl_match refresh_pass_flags
observe_pgxl_status now state t =
    if ltb now t.kpa_detect_ms
    then (t, false)
    else refresh_changed (note_pgxl_match now state (note_pgxl_status now state t))

-- The body of the loop of `record_flex_reannounce_sent`.
unfoldable pub observe_flex_reannounce : ℕ → Option Text → KpaStateTransitionLatency → Step
unfolding refresh_pass_flags
observe_flex_reannounce now line t =
    if ltb now t.kpa_detect_ms
    then (t, false)
    else if is_none t.first_flex_reannounce_tx_ms
    then (
      refresh_pass_flags
          (record t { first_flex_reannounce_tx_ms = some now; first_flex_reannounce_line = line }),
      true,
    )
    else (t, false)

unfoldable pub echo_result : Text → Text → Text
echo_result state new_state =
    codes "flex_echoed_" ++ (state ++ (codes "_while_egb_expected_" ++ new_state))

note_flex_status : ℕ → Text → Option Text → KpaStateTransitionLatency → Step
note_flex_status now state line t =
    if is_none t.first_flex_status_observed_ms
    then (
      record t {
        first_flex_status_observed_ms = some now;
        first_flex_status_state = some state;
        first_flex_status_line = line;
        flex_state_reflection_result =
            if text_eq state t.new_state
            then t.flex_state_reflection_result
            else some (echo_result state t.new_state);
      },
      true,
    )
    else (t, false)

note_flex_match : ℕ → Text → Step → Step
note_flex_match now state s =
    if is_none s.0.first_flex_matching_state_ms && text_eq state s.0.new_state
    then (
      record (s.0) {
        first_flex_matching_state_ms = some now;
        flex_state_reflection_result = some (codes "matched");
      },
      true,
    )
    else s

-- The body of the loop of `record_flex_status_observed`.
unfoldable pub observe_flex_status : ℕ → Text → Option Text → KpaStateTransitionLatency → Step
unfolding note_flex_status note_flex_match refresh_pass_flags
observe_flex_status now state line t =
    if ltb now t.kpa_detect_ms
    then (t, false)
    else refresh_changed (note_flex_match now state (note_flex_status now state line t))

-- Times lie at or after the detection.
abbrev pub NotBefore : ℕ → Option ℕ → Type 0
NotBefore detect none = Unit
NotBefore detect (some now) = detect ≤ now

-- What the observations keep true of an entry: its flags say whether the first matching status came
-- within two seconds, no time lies before the detection, and a match is a status that was seen.
pub record IsConsistent (t : KpaStateTransitionLatency) : Type 0 where
  pub pgxl_flag : t.passed_pgxl_under_2s ≡ pass_flag t.kpa_detect_ms t.first_pgxl_matching_state_ms
  pub flex_flag : t.passed_flex_under_2s ≡ pass_flag t.kpa_detect_ms t.first_flex_matching_state_ms
  pub pgxl_seen : NotBefore t.kpa_detect_ms t.first_pgxl_status_after_detect_ms
  pub flex_seen : NotBefore t.kpa_detect_ms t.first_flex_status_observed_ms
  pub pgxl_matched : NotBefore t.kpa_detect_ms t.first_pgxl_matching_state_ms
  pub flex_matched : NotBefore t.kpa_detect_ms t.first_flex_matching_state_ms
  pub reannounced : NotBefore t.kpa_detect_ms t.first_flex_reannounce_tx_ms
  pub pgxl_order :
      is_some t.first_pgxl_matching_state_ms ≡ true
      → is_some t.first_pgxl_status_after_detect_ms ≡ true
  pub flex_order :
      is_some t.first_flex_matching_state_ms ≡ true → is_some t.first_flex_status_observed_ms ≡ true
  pub reflected :
      is_some t.first_flex_matching_state_ms ≡ true
      → t.flex_state_reflection_result ≡ some (codes "matched")

pub new-IsConsistent :
    (id : ℕ) (old_state new_state : Text) (now : ℕ) → IsConsistent (new id old_state new_state now)
unfolding new
new-IsConsistent id old_state new_state now = ground arith

pub observe_pgxl_status-IsConsistent :
    (now : ℕ) (state : Text) (t : KpaStateTransitionLatency)
    → IsConsistent t
    → IsConsistent (observe_pgxl_status now state t).0
unfolding observe_pgxl_status
observe_pgxl_status-IsConsistent now state t c = ground arith

pub observe_flex_reannounce-IsConsistent :
    (now : ℕ) (line : Option Text) (t : KpaStateTransitionLatency)
    → IsConsistent t
    → IsConsistent (observe_flex_reannounce now line t).0
unfolding observe_flex_reannounce
observe_flex_reannounce-IsConsistent now line t c = ground arith

pub observe_flex_status-IsConsistent :
    (now : ℕ) (state : Text) (line : Option Text) (t : KpaStateTransitionLatency)
    → IsConsistent t
    → IsConsistent (observe_flex_status now state line t).0
unfolding observe_flex_status
observe_flex_status-IsConsistent now state line t c = ground arith
