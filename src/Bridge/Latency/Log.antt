-- ===== src/Bridge/Latency/Log.antt =====
-- The list of transitions in `FlexInjectionState`, and its four methods.
use elecraft_genius_bridge.Bridge.Latency.Entry.{
  KpaStateTransitionLatency, Step, new, observe_pgxl_status, observe_flex_reannounce,
  observe_flex_status, IsConsistent, new-IsConsistent, observe_pgxl_status-IsConsistent,
  observe_flex_reannounce-IsConsistent, observe_flex_status-IsConsistent,
}
use elecraft_genius_bridge.Common.{
  All, All-append, All-drop, Bool-cases, List, Option, Text, [], ap, arith, drop, if◌then◌else◌,
  inl, inr, length, length-drop, ltb, none, refl, saturating_add, some, suc, ℕ, ◌++◌, ◌-◌, ◌∷◌, ◌≡◌,
  ◌≤◌,
}

pub record Log : Type 0 where
  pub count : ℕ
  pub latencies : List KpaStateTransitionLatency

abbrev pub max_latencies : ℕ
max_latencies = 64

unfoldable pub record_kpa_state_transition : Log → Text → Text → ℕ → Log × KpaStateTransitionLatency
record_kpa_state_transition g old_state new_state now =
    let count = saturating_add g.count 1 in
    let transition = new count old_state new_state now in
    let pushed = g.latencies ++ transition ∷ [] in
    (
      record {
        count = count;
        latencies =
            if ltb max_latencies (length pushed)
            then drop (length pushed - max_latencies) pushed
            else pushed;
      },
      transition,
    )

-- The loop over `&mut self.kpa_state_transition_latencies`: the entries afterwards, and the clones of
-- those that changed.
unfoldable pub observe_all :
    (KpaStateTransitionLatency → Step)
    → List KpaStateTransitionLatency
    → List KpaStateTransitionLatency × List KpaStateTransitionLatency
observe_all f [] = ([], [])
observe_all f (t ∷ ts) =
    let (rest, updated) = observe_all f ts in
    let (t', changed) = f t in (t' ∷ rest, if changed then t' ∷ updated else updated)

abbrev observed : Log → (KpaStateTransitionLatency → Step) → Log × List KpaStateTransitionLatency
observed g f =
    let (after, updated) = observe_all f g.latencies in (record g { latencies = after }, updated)

unfoldable pub record_pgxl_status_observed : Log → ℕ → Text → Log × List KpaStateTransitionLatency
unfolding observe_all
record_pgxl_status_observed g now state = observed g (observe_pgxl_status now state)

-- `_state` is not read.
unfoldable pub record_flex_reannounce_sent :
    Log → ℕ → Option Text → Option Text → Log × List KpaStateTransitionLatency
unfolding observe_all
record_flex_reannounce_sent g now state line = observed g (observe_flex_reannounce now line)

unfoldable pub record_flex_status_observed :
    Log → ℕ → Option Text → Option Text → Log × List KpaStateTransitionLatency
unfolding observe_all
record_flex_status_observed g now none line = (g, [])
record_flex_status_observed g now (some state) line =
    observed g (observe_flex_status now state line)

pub data Event : Type 0 where
  kpa_changed : Text → Text → ℕ → Event
  pgxl_status : ℕ → Text → Event
  flex_reannounced flex_status : ℕ → Option Text → Option Text → Event

unfoldable pub step : Log → Event → Log
step g (kpa_changed old_state new_state now) =
    (record_kpa_state_transition g old_state new_state now).0
step g (pgxl_status now state) = (record_pgxl_status_observed g now state).0
step g (flex_reannounced now state line) = (record_flex_reannounce_sent g now state line).0
step g (flex_status now state line) = (record_flex_status_observed g now state line).0

unfoldable pub run : Log → List Event → Log
run g [] = g
run g (e ∷ es) = run (step g e) es

unfoldable pub empty : Log
empty = record { count = 0; latencies = [] }

pub record IsValid (g : Log) : Type 0 where
  pub consistent : All IsConsistent g.latencies
  pub bounded : length g.latencies ≤ max_latencies

observe_all-IsConsistent :
    (f : KpaStateTransitionLatency → Step) (ts : List KpaStateTransitionLatency)
    → ((t : KpaStateTransitionLatency) → IsConsistent t → IsConsistent (f t).0)
    → All IsConsistent ts
    → All IsConsistent (observe_all f ts).0
unfolding observe_all
observe_all-IsConsistent f [] k c = tt
observe_all-IsConsistent f (t ∷ ts) k c = (k t c.0, observe_all-IsConsistent f ts k c.1)

length-observe_all :
    (f : KpaStateTransitionLatency → Step) (ts : List KpaStateTransitionLatency)
    → length (observe_all f ts).0 ≡ length ts
unfolding observe_all
length-observe_all f [] = refl
length-observe_all f (t ∷ ts) = ap suc (length-observe_all f ts)

observed-IsValid :
    (g : Log) (f : KpaStateTransitionLatency → Step)
    → ((t : KpaStateTransitionLatency) → IsConsistent t → IsConsistent (f t).0)
    → IsValid g
    → IsValid (observed g f).0
observed-IsValid g f k v = record {
  consistent = observe_all-IsConsistent f g.latencies k v.consistent;
  bounded = omega (arith, length-observe_all f g.latencies);
}

trimmed-IsValid :
    (n count : ℕ) (ts : List KpaStateTransitionLatency)
    → n ≡ length ts
    → All IsConsistent ts
    → IsValid (record {
      count = count;
      latencies = if ltb max_latencies n then drop (n - max_latencies) ts else ts;
    })
trimmed-IsValid n count ts e c = elim (Bool-cases (ltb max_latencies n)) [
  | inl h ↦ rw h (record {
    consistent = All-drop IsConsistent (n - max_latencies) ts c;
    bounded = omega (arith, length-drop (n - max_latencies) ts);
  })
  | inr h ↦ rw h (record { consistent = c; bounded = ground arith })
]

step-IsValid : (g : Log) (e : Event) → IsValid g → IsValid (step g e)
unfolding step record_kpa_state_transition record_pgxl_status_observed record_flex_reannounce_sent
    record_flex_status_observed
step-IsValid g (kpa_changed old_state new_state now) v =
    let count = saturating_add g.count 1 in
    let transition = new count old_state new_state now in
    trimmed-IsValid _ count (g.latencies ++ transition ∷ []) refl (
      All-append IsConsistent g.latencies (transition ∷ []) v.consistent
        (new-IsConsistent count old_state new_state now, tt))
step-IsValid g (pgxl_status now state) v =
    observed-IsValid g (observe_pgxl_status now state) (observe_pgxl_status-IsConsistent now state)
      v
step-IsValid g (flex_reannounced now state line) v =
    observed-IsValid g (observe_flex_reannounce now line)
      (observe_flex_reannounce-IsConsistent now line) v
step-IsValid g (flex_status now none line) v = v
step-IsValid g (flex_status now (some state) line) v =
    observed-IsValid g (observe_flex_status now state line)
      (observe_flex_status-IsConsistent now state line) v

run-IsValid : (g : Log) (es : List Event) → IsValid g → IsValid (run g es)
unfolding run
run-IsValid g [] v = v
run-IsValid g (e ∷ es) v = run-IsValid (step g e) es (step-IsValid g e v)

-- After any sequence of the four calls on an empty log there are at most 64 entries, and in each the
-- two flags say whether the first matching status came within two seconds of the detection, no noted
-- time lies before the detection, and a matching status is also noted as seen and, from the radio, as
-- "matched".
pub run-empty-IsValid : (es : List Event) → IsValid (run empty es)
unfolding empty
run-empty-IsValid es = run-IsValid empty es (record { consistent = tt; bounded = omega arith })
