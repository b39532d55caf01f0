-- ===== src/Bridge/Stats.antt =====
-- `DeviceRuntimeStats` of crates/bridge-core/src/state.rs, with the latency of the polls. Counters are
-- `u64`, and a latency is one too.
use native.Mathlib.Nat.{div-le_of_le-mul}
use elecraft_genius_bridge.Common.{
  All, List, Option, [], arith, if◌then◌else◌, max, none, saturating_add, saturating_add-le, some,
  u64_max, ℕ, ◌*◌, ◌/◌, ◌==◌, ◌↔◌, ◌∷◌, ◌≡◌, ◌≤◌, Bool-cases, inl, inr, ltb, min, ◌+◌, refl, ◌<◌,
}

pub record DeviceRuntimeStats : Type 0 where
  pub reconnect_count : ℕ
  pub poll_success_count : ℕ
  pub poll_failure_count : ℕ
  pub stale_transition_count : ℕ
  pub last_poll_latency_ms : ℕ
  pub max_poll_latency_ms : ℕ
  pub total_poll_latency_ms : ℕ

unfoldable pub default_stats : DeviceRuntimeStats
default_stats = record {
  reconnect_count = 0;
  poll_success_count = 0;
  poll_failure_count = 0;
  stale_transition_count = 0;
  last_poll_latency_ms = 0;
  max_poll_latency_ms = 0;
  total_poll_latency_ms = 0;
}

unfoldable pub record_poll_success : DeviceRuntimeStats → ℕ → DeviceRuntimeStats
record_poll_success s latency_ms = record s {
  poll_success_count = saturating_add s.poll_success_count 1;
  last_poll_latency_ms = latency_ms;
  max_poll_latency_ms = max s.max_poll_latency_ms latency_ms;
  total_poll_latency_ms = saturating_add s.total_poll_latency_ms latency_ms;
}

unfoldable pub average_poll_latency_ms : DeviceRuntimeStats → Option ℕ
average_poll_latency_ms s =
    if s.poll_success_count == 0
    then none
    else some (s.total_poll_latency_ms / s.poll_success_count)

-- What polling keeps true of the statistics, also once counters have saturated.
pub record IsConsistent (s : DeviceRuntimeStats) : Type 0 where
  pub last_le_max : s.last_poll_latency_ms ≤ s.max_poll_latency_ms
  pub total_le : s.total_poll_latency_ms ≤ s.poll_success_count * s.max_poll_latency_ms
  pub max_fits : s.max_poll_latency_ms ≤ u64_max
  pub count_fits : s.poll_success_count ≤ u64_max

mul_mono : (a b c d : ℕ) → a ≤ b → c ≤ d → a * c ≤ b * d
mul_mono a b c d h k = grind arith

widen :
    (count m top total latency : ℕ)
    → total ≤ count * m
    → count ≤ u64_max
    → m ≤ top
    → latency ≤ top
    → count * m ≤ count * top
    → count * m ≤ u64_max * m
    → saturating_add total latency ≤ saturating_add count 1 * top
unfolding saturating_add
widen count m top total latency h k a b c d = elim (Bool-cases (ltb count u64_max)) [
  | inl e ↦ let one : min (count + 1) u64_max ≡ count + 1 = ground arith in rw one (omega arith)
  | inr e ↦ let one : min (count + 1) u64_max ≡ u64_max = ground arith in rw one (omega arith)
]

total_bound :
    (count m total latency : ℕ)
    → total ≤ count * m
    → count ≤ u64_max
    → saturating_add total latency ≤ saturating_add count 1 * max m latency
unfolding saturating_add
total_bound count m total latency h k =
    let top = max m latency in
    let scaled = mul_mono count count m top (omega arith) (omega arith) in
    let capped = mul_mono count u64_max m m k (omega arith) in
    widen count m top total latency h k (omega arith) (omega arith) scaled capped

pub record_poll_success-IsConsistent :
    (s : DeviceRuntimeStats) (latency_ms : ℕ)
    → latency_ms ≤ u64_max
    → IsConsistent s
    → IsConsistent (record_poll_success s latency_ms)
unfolding record_poll_success
record_poll_success-IsConsistent s latency_ms h c = record {
  last_le_max = omega arith;
  total_le = total_bound s.poll_success_count _ _ latency_ms c.total_le c.count_fits;
  max_fits = omega arith;
  count_fits = saturating_add-le s.poll_success_count 1;
}

unfoldable pub record_poll_successes : DeviceRuntimeStats → List ℕ → DeviceRuntimeStats
record_poll_successes s [] = s
record_poll_successes s (l ∷ ls) = record_poll_successes (record_poll_success s l) ls

record_poll_successes-IsConsistent :
    (s : DeviceRuntimeStats) (ls : List ℕ)
    → All (λ l. l ≤ u64_max) ls
    → IsConsistent s
    → IsConsistent (record_poll_successes s ls)
unfolding record_poll_successes
record_poll_successes-IsConsistent s [] h c = c
record_poll_successes-IsConsistent s (l ∷ ls) h c =
    record_poll_successes-IsConsistent (record_poll_success s l) ls h.1
      (record_poll_success-IsConsistent s l h.0 c)

record_poll_successes-pos :
    (s : DeviceRuntimeStats) (ls : List ℕ)
    → 0 < s.poll_success_count
    → 0 < (record_poll_successes s ls).poll_success_count
unfolding record_poll_successes record_poll_success saturating_add
record_poll_successes-pos s [] h = h
record_poll_successes-pos s (l ∷ ls) h =
    record_poll_successes-pos (record_poll_success s l) ls (omega arith)

average_none_iff :
    (ls : List ℕ)
    → (average_poll_latency_ms (record_poll_successes default_stats ls) ≡ none) ↔ (ls ≡ [])
unfolding average_poll_latency_ms record_poll_successes
average_none_iff [] = (λ e. refl, λ e. unfold default_stats in refl)
average_none_iff (l ∷ ls) =
    let counted =
      record_poll_successes-pos (record_poll_success default_stats l) ls
        (unfold record_poll_success saturating_add in omega arith) in
    (λ e. absurd (ground arith), λ e. cc)

average-le-max :
    (s : DeviceRuntimeStats) {a : ℕ}
    → IsConsistent s
    → average_poll_latency_ms s ≡ some a
    → a ≤ s.max_poll_latency_ms
unfolding average_poll_latency_ms
average-le-max s {a} c h = ground (
  arith,
  div-le_of_le-mul s.poll_success_count {m = s.total_poll_latency_ms} {n = s.max_poll_latency_ms},
)

default_stats-IsConsistent : IsConsistent default_stats
unfolding default_stats
default_stats-IsConsistent = omega arith

-- After any number of successful polls from the start, the average latency lies at or under the
-- greatest one, and so does the last; there is an average exactly when a poll has succeeded.
pub average_poll_latency_bounds :
    (ls : List ℕ)
    → All (λ l. l ≤ u64_max) ls
    → let s = record_poll_successes default_stats ls in
      (s.last_poll_latency_ms ≤ s.max_poll_latency_ms)
      × ((a : ℕ) → average_poll_latency_ms s ≡ some a → a ≤ s.max_poll_latency_ms)
      × ((average_poll_latency_ms s ≡ none) ↔ (ls ≡ []))
average_poll_latency_bounds ls h =
    let c = record_poll_successes-IsConsistent default_stats ls h default_stats-IsConsistent in
    (c.last_le_max, (λ a e. average-le-max _ c e), average_none_iff ls)
