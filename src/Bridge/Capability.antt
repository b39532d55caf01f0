-- ===== src/Bridge/Capability.antt =====
-- `push_capability` of crates/bridge-core/src/state.rs.
use mathlib.Core.List.{
  Nodup, Mem, mem-append, mem-cons, not-mem-nil, mem-cons_of_mem, mem-append_left, Nodup-cons,
  Mem-prop, perm_append_singleton,
}
use mathlib.Core.Logic.{◌∨₁◌, ∨₁_prop}
use mathlib.Core.Logic.Or
use mathlib.Core.List.Perm
use elecraft_genius_bridge.Common.{
  Bool, List, Text, [], false, if◌then◌else◌, not, text_eq, ◌++◌, ◌||◌, ◌∷◌, true, ◌↔◌, ◌≡◌,
  Bool-cases, arith, eq_of_text_eq, inl, inr, refl, sym, text_eq_refl,
}

unfoldable pub contains : List Text → Text → Bool
contains [] capability = false
contains (existing ∷ rest) capability = text_eq existing capability || contains rest capability

unfoldable pub push_capability : List Text → Text → List Text
unfolding contains
push_capability capabilities capability =
    if not (contains capabilities capability) then capabilities ++ capability ∷ [] else capabilities

Bool-prop : (b : Bool) → IsProp (b ≡ true)
Bool-prop b = hlevel

contains_iff : (cs : List Text) (c : Text) → (contains cs c ≡ true) ↔ Mem c cs
unfolding contains
contains_iff [] c = (λ e. cc, λ m. absurd (not-mem-nil m))
contains_iff (x ∷ cs) c = (
  λ e. elim (Bool-cases (text_eq x c)) [
    | inl h ↦ mem-cons.1 (Or.inl (sym (eq_of_text_eq x c h)))
    | inr h ↦ mem-cons_of_mem x ((contains_iff cs c).0 (ground arith))
  ],
  λ m.
      Or.elim (Bool-prop _) (mem-cons.0 m) (λ e. rw (← e, text_eq_refl c))
        λ k. let there = (contains_iff cs c).1 k in ground arith,
)

not-Mem : (cs : List Text) (c : Text) → contains cs c ≡ false → ¬ Mem c cs
not-Mem cs c h m = let there = (contains_iff cs c).1 m in cc

Mem_single-append : (cs : List Text) (c d : Text) → Mem d (cs ++ c ∷ []) → Mem d cs ∨₁ (d ≡ c)
Mem_single-append cs c d m =
    Or.elim ∨₁_prop (mem-append.0 m) (λ k. Or.inl k)
      λ k.
        Or.elim ∨₁_prop (mem-cons.0 k) (λ e. Or.inr e) (λ none_left. absurd (not-mem-nil none_left))

Mem-append_single : (cs : List Text) (c d : Text) → Mem d cs ∨₁ (d ≡ c) → Mem d (cs ++ c ∷ [])
Mem-append_single cs c d m =
    Or.elim Mem-prop m (λ k. mem-append_left (c ∷ []) k)
      λ e. mem-append.1 (Or.inr (mem-cons.1 (Or.inl e)))

contains-append : (cs : List Text) (c : Text) → contains (cs ++ c ∷ []) c ≡ true
contains-append cs c = (contains_iff (cs ++ c ∷ []) c).1 (Mem-append_single cs c c (Or.inr refl))

push_capability-Mem :
    (cs : List Text) (c d : Text) → Mem d (push_capability cs c) ↔ (Mem d cs ∨₁ (d ≡ c))
unfolding push_capability
push_capability-Mem cs c d = elim (Bool-cases (contains cs c)) [
  | inl h ↦
      rw h (λ m. Or.inl m, λ m. Or.elim Mem-prop m (λ k. k) (λ e. rw e ((contains_iff cs c).0 h)))
  | inr h ↦ rw h (Mem_single-append cs c d, Mem-append_single cs c d)
]

push_capability-Nodup : (cs : List Text) (c : Text) → Nodup cs → Nodup (push_capability cs c)
unfolding push_capability
push_capability-Nodup cs c n = elim (Bool-cases (contains cs c)) [
  | inl h ↦ rw h n
  | inr h ↦
      rw h (Perm.nodup (Perm.symm (perm_append_singleton c cs)) (Nodup-cons.1 (not-Mem cs c h, n)))
]

-- The list gains the capability at its end if it lacks it and stays as it is otherwise: nothing is
-- lost, nothing else comes in, no entry is doubled, and pushing it again changes nothing.
pub push_capability_lem :
    (capabilities : List Text) (c : Text)
    → ((d : Text) → Mem d (push_capability capabilities c) ↔ (Mem d capabilities ∨₁ (d ≡ c)))
      × (Nodup capabilities → Nodup (push_capability capabilities c))
      × (push_capability (push_capability capabilities c) c ≡ push_capability capabilities c)
unfolding push_capability
push_capability_lem cs c =
    (push_capability-Mem cs c, push_capability-Nodup cs c, ground (arith, contains-append cs c))
