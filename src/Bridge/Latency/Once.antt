-- ===== src/Bridge/Latency/Once.antt =====
-- The first observations of a transition, under later observations.
use elecraft_genius_bridge.Bridge.Latency.Entry.{
  KpaStateTransitionLatency, observe_pgxl_status, observe_flex_reannounce, observe_flex_status, new,
  Step,
}
use elecraft_genius_bridge.Common.{
  Option, Text, arith, none, some, ℕ, ◌≡◌, Bool-cases, List, [], drop, inl, inr, length,
  length-append, ltb, refl, saturating_add, ◌++◌, ◌<◌, ◌∷◌, ◌≤◌, ◌⊎◌, ◌-◌,
}
use elecraft_genius_bridge.Bridge.Latency.Log.{
  Event, max_latencies, observe_all, record_kpa_state_transition, step, Log, kpa_changed,
  pgxl_status, flex_reannounced, flex_status,
}
use elecraft_genius_bridge.Bridge.Latency.Log

abbrev pub Settled {ℓ} : {A : Type ℓ} → Option A → Option A → Type ℓ
Settled none now = Unit
Settled (some a) now = now ≡ some a

Settled-refl {ℓ} : {A : Type ℓ} (o : Option A) → Settled o o
Settled-refl none = tt
Settled-refl (some a) = refl

-- What later calls leave alone in an entry.
pub record Keeps (t u : KpaStateTransitionLatency) : Type 0 where
  pub same_id : u.transition_id ≡ t.transition_id
  pub same_states : (u.old_state ≡ t.old_state) × (u.new_state ≡ t.new_state)
  pub same_detection : u.kpa_detect_ms ≡ t.kpa_detect_ms
  pub pgxl_status_settled :
      Settled t.first_pgxl_status_after_detect_ms u.first_pgxl_status_after_detect_ms
  pub pgxl_match_settled : Settled t.first_pgxl_matching_state_ms u.first_pgxl_matching_state_ms
  pub reannounce_settled : Settled t.first_flex_reannounce_tx_ms u.first_flex_reannounce_tx_ms
  pub flex_status_settled : Settled t.first_flex_status_observed_ms u.first_flex_status_observed_ms
  pub flex_match_settled : Settled t.first_flex_matching_state_ms u.first_flex_matching_state_ms

Keeps-refl : (t : KpaStateTransitionLatency) → Keeps t t
Keeps-refl t = record {
  same_id = refl;
  same_states = (refl, refl);
  same_detection = refl;
  pgxl_status_settled = Settled-refl t.first_pgxl_status_after_detect_ms;
  pgxl_match_settled = Settled-refl t.first_pgxl_matching_state_ms;
  reannounce_settled = Settled-refl t.first_flex_reannounce_tx_ms;
  flex_status_settled = Settled-refl t.first_flex_status_observed_ms;
  flex_match_settled = Settled-refl t.first_flex_matching_state_ms;
}

observe_pgxl_status-Keeps :
    (now : ℕ) (state : Text) (t : KpaStateTransitionLatency)
    → Keeps t (observe_pgxl_status now state t).0
unfolding observe_pgxl_status
observe_pgxl_status-Keeps now state t = ground arith

observe_flex_reannounce-Keeps :
    (now : ℕ) (line : Option Text) (t : KpaStateTransitionLatency)
    → Keeps t (observe_flex_reannounce now line t).0
unfolding observe_flex_reannounce
observe_flex_reannounce-Keeps now line t = ground arith

observe_flex_status-Keeps :
    (now : ℕ) (state : Text) (line : Option Text) (t : KpaStateTransitionLatency)
    → Keeps t (observe_flex_status now state line t).0
unfolding observe_flex_status
observe_flex_status-Keeps now state line t = ground arith

abbrev pub KeepsAll : List KpaStateTransitionLatency → List KpaStateTransitionLatency → Type 0
KeepsAll [] [] = Unit
KeepsAll [] (u ∷ us) = ⊥
KeepsAll (t ∷ ts) [] = ⊥
KeepsAll (t ∷ ts) (u ∷ us) = Keeps t u × KeepsAll ts us

observe_all-KeepsAll :
    (f : KpaStateTransitionLatency → Step) (ts : List KpaStateTransitionLatency)
    → ((t : KpaStateTransitionLatency) → Keeps t (f t).0)
    → KeepsAll ts (observe_all f ts).0
unfolding observe_all
observe_all-KeepsAll f [] k = tt
observe_all-KeepsAll f (t ∷ ts) k = (k t, observe_all-KeepsAll f ts k)

KeepsAll-refl : (ts : List KpaStateTransitionLatency) → KeepsAll ts ts
KeepsAll-refl [] = tt
KeepsAll-refl (t ∷ ts) = (Keeps-refl t, KeepsAll-refl ts)

abbrev pub IsObservation : Event → Type 0
IsObservation (kpa_changed old_state new_state now) = ⊥
IsObservation (pgxl_status now state) = Unit
IsObservation (flex_reannounced now state line) = Unit
IsObservation (flex_status now state line) = Unit

-- An observation keeps the entries in their places, with their ids, states and times of detection, and
-- never moves a first time that is noted already.
pub observation-KeepsAll :
    (g : Log) (e : Event) → IsObservation e → KeepsAll g.latencies (step g e).latencies
unfolding step Log.record_pgxl_status_observed Log.record_flex_reannounce_sent
    Log.record_flex_status_observed
observation-KeepsAll g (kpa_changed old_state new_state now) h = absurd h
observation-KeepsAll g (pgxl_status now state) h =
    observe_all-KeepsAll (observe_pgxl_status now state) g.latencies
      (observe_pgxl_status-Keeps now state)
observation-KeepsAll g (flex_reannounced now state line) h =
    observe_all-KeepsAll (observe_flex_reannounce now line) g.latencies
      (observe_flex_reannounce-Keeps now line)
observation-KeepsAll g (flex_status now none line) h = KeepsAll-refl g.latencies
observation-KeepsAll g (flex_status now (some state) line) h =
    observe_all-KeepsAll (observe_flex_status now state line) g.latencies
      (observe_flex_status-Keeps now state line)

drop_oldest :
    (ts : List KpaStateTransitionLatency) (t : KpaStateTransitionLatency)
    → length ts ≡ max_latencies
    → (o : KpaStateTransitionLatency) × (rest : List KpaStateTransitionLatency) × (ts ≡ o ∷ rest)
      × (drop 1 (ts ++ t ∷ []) ≡ rest ++ t ∷ [])
drop_oldest [] t h = absurd (omega arith)
drop_oldest (o ∷ rest) t h = (o, rest, refl, refl)

-- A new transition goes to the end of the list. Below 64 entries nothing is lost for it; at 64, the
-- oldest entry alone is.
pub record_kpa_state_transition_lem :
    (g : Log) (old_state new_state : Text) (now : ℕ)
    → length g.latencies ≤ max_latencies
    → let (g', t) = record_kpa_state_transition g old_state new_state now in
      (t.new_state ≡ new_state)
      × (t.kpa_detect_ms ≡ now)
      × (((length g.latencies < max_latencies) × (g'.latencies ≡ g.latencies ++ t ∷ []))
          ⊎ ((o : KpaStateTransitionLatency) × (rest : List KpaStateTransitionLatency) × (length
                  g.latencies
                ≡ max_latencies)
              × (g.latencies ≡ o ∷ rest)
              × (g'.latencies ≡ rest ++ t ∷ [])))
unfolding record_kpa_state_transition new
record_kpa_state_transition_lem g old_state new_state now h =
    let ts = g.latencies in
    let t = new (saturating_add g.count 1) old_state new_state now in
    let size = length-append ts (t ∷ []) in
    elim (Bool-cases (ltb max_latencies (length (ts ++ t ∷ [])))) [
      | inl e ↦
          let full : length ts ≡ max_latencies = ground (arith, size) in
          let (o, rest, p, q) = drop_oldest ts t full in
          let one : length (ts ++ t ∷ []) - max_latencies ≡ 1 = omega (arith, size) in
          (refl, refl, inr (o, rest, full, p, rw e (rw one q)))
      | inr e ↦ (refl, refl, inl (ground arith, rw e))
    ]
