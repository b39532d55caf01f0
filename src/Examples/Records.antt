-- ===== src/Examples/Records.antt =====
-- Sample runs of the records of the shared state.
use elecraft_genius_bridge.Bridge.Stats.{
  default_stats, record_poll_successes, average_poll_latency_ms, average_poll_latency_bounds,
}
use elecraft_genius_bridge.Bridge.Lifecycle.{LifecycleStatus, not_started}
use elecraft_genius_bridge.Bridge.Latency.Log.{
  Event, kpa_changed, pgxl_status, flex_status, run, step, empty, IsValid, run-empty-IsValid,
}
use elecraft_genius_bridge.Bridge.Latency.Once.{KeepsAll, observation-KeepsAll}
use elecraft_genius_bridge.Common.{List, [], arith, codes, none, some, ℕ, ◌↔◌, ◌∷◌, ◌≡◌, ◌≤◌}

abbrev polls : List ℕ
polls = 10 ∷ 30 ∷ 20 ∷ []

average_poll_latency_bounds_example :
    let s = record_poll_successes default_stats polls in
    (s.last_poll_latency_ms ≤ s.max_poll_latency_ms)
    × ((a : ℕ) → average_poll_latency_ms s ≡ some a → a ≤ s.max_poll_latency_ms)
    × ((average_poll_latency_ms s ≡ none) ↔ (polls ≡ []))
average_poll_latency_bounds_example =
    average_poll_latency_bounds polls (unfold polls in omega arith)

abbrev not_yet : LifecycleStatus
not_yet = record {
  state = not_started;
  transition_count = 0;
  last_transition_reason = none;
  entered_at_ms = none;
}

-- The amplifier goes to operate, and the radio first reports standby, then operate.
abbrev events : List Event
events =
    kpa_changed (codes "standby") (codes "operate") 100
    ∷ pgxl_status 400 (codes "operate")
    ∷ flex_status 900 (some (codes "standby")) none
    ∷ flex_status 1200 (some (codes "operate")) none
    ∷ []

run-empty-IsValid_example : IsValid (run empty events)
run-empty-IsValid_example = run-empty-IsValid events

observation-KeepsAll_example :
    let g = run empty events in
    KeepsAll g.latencies (step g (flex_status 1500 (some (codes "operate")) none)).latencies
observation-KeepsAll_example =
    observation-KeepsAll (run empty events) (flex_status 1500 (some (codes "operate")) none) tt
