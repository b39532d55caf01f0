-- ===== src/Kat500/Response/Capabilities.antt =====
-- The capabilities as a dictionary of `key=value` entries.
use elecraft_genius_bridge.Kat500.Response.{capability_entry, set_capability_value}
use elecraft_genius_bridge.Common.{
  Lacks, List, Option, Option-cases, Text, [], ap, arith, codes, eq_of_strip_prefix, if◌then◌else◌,
  inl, inr, none, refl, some, split_once, split_once-append, strip_prefix, strip_prefix-append,
  text_eq, ◌++◌, ◌∙◌, ◌∷◌, ◌≡◌, ◌≢◌, Bool-cases, starts_with, text_eq_iff,
}

-- The value of the first entry for the key.
unfoldable pub capability_value : List Text → Text → Option Text
capability_value [] key = none
capability_value (entry ∷ rest) key = elim (strip_prefix (key ++ codes "=") entry) [
  | none ↦ capability_value rest key
  | some value ↦ some value
]

append_assoc_one : (key value : Text) → (key ++ codes "=") ++ value ≡ key ++ b'=' ∷ value
append_assoc_one [] value = refl
append_assoc_one (c ∷ key) value = ap (λ t. c ∷ t) (append_assoc_one key value)

strip-own :
    (key value : Text) → strip_prefix (key ++ codes "=") (capability_entry key value) ≡ some value
unfolding capability_entry
strip-own key value =
    rw (← append_assoc_one key value) (strip_prefix-append (key ++ codes "=") value)

-- An entry has one key.
one_key :
    (j k entry u v : Text)
    → Lacks b'=' j
    → Lacks b'=' k
    → strip_prefix (j ++ codes "=") entry ≡ some u
    → strip_prefix (k ++ codes "=") entry ≡ some v
    → j ≡ k
one_key j k entry u v lj lk p q =
    let split =
      λ (key : Text) (w : Text) (l : Lacks b'=' key)
          (e : strip_prefix (key ++ codes "=") entry ≡ some w).
        let shape = eq_of_strip_prefix (key ++ codes "=") entry e ∙ append_assoc_one key w in
        ap (split_once b'=') shape ∙ split_once-append b'=' key w l in
    ground (arith, split j u lj p, split k v lk q)

get-set_own :
    (cs : List Text) (k value : Text)
    → capability_value (set_capability_value cs k value) k ≡ some value
unfolding capability_value set_capability_value starts_with
get-set_own [] k value = ground (arith, strip-own k value)
get-set_own (entry ∷ rest) k value = ground (arith, strip-own k value, get-set_own rest k value)

-- An entry of one key is not an entry of another.
strip-ne :
    (j k entry : Text) {u : Text}
    → Lacks b'=' j
    → Lacks b'=' k
    → j ≢ k
    → strip_prefix (k ++ codes "=") entry ≡ some u
    → strip_prefix (j ++ codes "=") entry ≡ none
strip-ne j k entry {u} lj lk n e = elim (Option-cases (strip_prefix (j ++ codes "=") entry)) [
  | inl q ↦ q
  | inr (v, q) ↦ absurd (n (one_key j k entry v u lj lk q e))
]

get-set_other :
    (cs : List Text) (j k value : Text)
    → Lacks b'=' j
    → Lacks b'=' k
    → j ≢ k
    → capability_value (set_capability_value cs k value) j ≡ capability_value cs j
unfolding capability_value set_capability_value starts_with
get-set_other [] j k value lj lk n =
    ground (arith, strip-ne j k (capability_entry k value) lj lk n (strip-own k value))
get-set_other (entry ∷ rest) j k value lj lk n =
    let own = strip-ne j k (capability_entry k value) lj lk n (strip-own k value) in
    elim (Option-cases (strip_prefix (k ++ codes "=") entry)) [
      | inl e ↦ ground (arith, get-set_other rest j k value lj lk n)
      | inr (u, e) ↦ ground (arith, own, strip-ne j k entry lj lk n e)
    ]

-- Setting a key's value is seen under that key and under no other, if keys hold no equals sign.
pub capability_value-set :
    (capabilities : List Text) (j k value : Text)
    → Lacks b'=' j
    → Lacks b'=' k
    → capability_value (set_capability_value capabilities k value) j
      ≡ (if text_eq j k then some value else capability_value capabilities j)
capability_value-set cs j k value lj lk = elim (Bool-cases (text_eq j k)) [
  | inl e ↦ rw (e, (text_eq_iff j k).0 e) (get-set_own cs k value)
  | inr e ↦ rw e (get-set_other cs j k value lj lk (λ q. ground (arith, text_eq_iff j k)))
]
