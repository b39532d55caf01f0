-- ===== src/Common/Strings.antt =====
-- `&str` as a list of Unicode code points, and the methods of `str` that the source calls.
use Prim.Native.Nat.{ℕ}
use Prim.Native.Char.{code}
use Prim.Native.String.{String}
use mathlib.Core.Path.{◌≡◌, refl, ap, sym, ◌∙◌}
use mathlib.Core.Logic.{◌≢◌, ◌↔◌, ◌⊎◌, inl, inr}
use mathlib.Core.Bool.{Bool, true, false, ◌&&◌, ◌||◌}
use mathlib.Core.Option.{Option, none, some}
use mathlib.Core.Option
use mathlib.Core.List.{List, [], ◌∷◌, ◌++◌}
use native.Mathlib.Omega.{arith}
use elecraft_genius_bridge.Common.Tests.{leb, ◌==◌, if◌then◌else◌, Bool-cases, Option-cases}
use elecraft_genius_bridge.Common.Lists.{All}

abbrev pub Text : Type 0
Text = List ℕ

-- The code points of a literal.
abbrev pub codes : String → Text
codes String.[] = []
codes (String.◌∷◌ c s) = code c ∷ codes s

-- `char::is_whitespace`: the code points of the Unicode property White_Space.
unfoldable pub is_whitespace : ℕ → Bool
is_whitespace c =
    (leb 9 c && leb c 13)
    || c == 32
    || c == 0x85
    || c == 0xa0
    || c == 0x1680
    || (leb 0x2000 c && leb c 0x200a)
    || c == 0x2028
    || c == 0x2029
    || c == 0x202f
    || c == 0x205f
    || c == 0x3000

unfoldable pub text_eq : Text → Text → Bool
text_eq [] [] = true
text_eq [] (d ∷ ds) = false
text_eq (c ∷ cs) [] = false
text_eq (c ∷ cs) (d ∷ ds) = c == d && text_eq cs ds

unfoldable pub strip_prefix : Text → Text → Option Text
strip_prefix [] t = some t
strip_prefix (p ∷ ps) [] = none
strip_prefix (p ∷ ps) (c ∷ cs) = if c == p then strip_prefix ps cs else none

abbrev pub is_stripped : Option Text → Bool
is_stripped none = false
is_stripped (some t) = true

unfoldable pub starts_with : Text → Text → Bool
unfolding strip_prefix
starts_with p t = is_stripped (strip_prefix p t)

-- `strip_suffix` with a single character.
unfoldable pub strip_suffix_char : ℕ → Text → Option Text
strip_suffix_char d [] = none
strip_suffix_char d (c ∷ []) = if c == d then some [] else none
strip_suffix_char d (c ∷ e ∷ cs) = Option.map (λ t. c ∷ t) (strip_suffix_char d (e ∷ cs))

unfoldable pub ends_with_char : ℕ → Text → Bool
unfolding strip_suffix_char
ends_with_char d t = is_stripped (strip_suffix_char d t)

-- `split_once` at the first `d`.
unfoldable pub split_once : ℕ → Text → Option (Text × Text)
split_once d [] = none
split_once d (c ∷ cs) =
    if c == d then some ([], cs) else Option.map (λ p. (c ∷ p.0, p.1)) (split_once d cs)

unfoldable pub trim_start_matches : (ℕ → Bool) → Text → Text
trim_start_matches p [] = []
trim_start_matches p (c ∷ cs) = if p c then trim_start_matches p cs else c ∷ cs

-- Puts `c` before a text that has lost its end, and drops it too if nothing is left behind it.
abbrev pub push_end : (ℕ → Bool) → ℕ → Text → Text
push_end p c [] = if p c then [] else c ∷ []
push_end p c (d ∷ ds) = c ∷ d ∷ ds

unfoldable pub trim_end_matches : (ℕ → Bool) → Text → Text
trim_end_matches p [] = []
trim_end_matches p (c ∷ cs) = push_end p c (trim_end_matches p cs)

unfoldable pub trim : Text → Text
trim t = trim_end_matches is_whitespace (trim_start_matches is_whitespace t)

abbrev pub is_empty : Text → Bool
is_empty [] = true
is_empty (c ∷ cs) = false

pub text_eq_refl : (t : Text) → text_eq t t ≡ true
unfolding text_eq
text_eq_refl [] = refl
text_eq_refl (c ∷ cs) = ground (arith, text_eq_refl cs)

pub eq_of_text_eq : (s t : Text) → text_eq s t ≡ true → s ≡ t
unfolding text_eq
eq_of_text_eq [] [] h = refl
eq_of_text_eq [] (d ∷ ds) h = cc
eq_of_text_eq (c ∷ cs) [] h = cc
eq_of_text_eq (c ∷ cs) (d ∷ ds) h = ground (arith, eq_of_text_eq cs ds)

pub text_eq_iff : (s t : Text) → (text_eq s t ≡ true) ↔ (s ≡ t)
text_eq_iff s t = (eq_of_text_eq s t, λ e. ap (text_eq s) (sym e) ∙ text_eq_refl s)

pub Text-cases : (s t : Text) → (s ≡ t) ⊎ (s ≢ t)
Text-cases s t = elim (Bool-cases (text_eq s t)) [
  | inl e ↦ inl (eq_of_text_eq s t e)
  | inr e ↦ inr (λ q. ground (arith, text_eq_iff s t))
]

pub strip_prefix-append : (p t : Text) → strip_prefix p (p ++ t) ≡ some t
unfolding strip_prefix
strip_prefix-append [] t = refl
strip_prefix-append (c ∷ p) t = ground (arith, strip_prefix-append p t)

pub eq_of_strip_prefix : (p t : Text) {u : Text} → strip_prefix p t ≡ some u → t ≡ p ++ u
unfolding strip_prefix
eq_of_strip_prefix [] t h = ground arith
eq_of_strip_prefix (c ∷ p) [] h = cc
eq_of_strip_prefix (c ∷ p) (d ∷ t) {u} h = ground (arith, eq_of_strip_prefix p t {u = u})

pub strip_suffix_char-append : (d : ℕ) (t : Text) → strip_suffix_char d (t ++ d ∷ []) ≡ some t
unfolding strip_suffix_char
strip_suffix_char-append d [] = ground arith
strip_suffix_char-append d (c ∷ []) = ground arith
strip_suffix_char-append d (c ∷ e ∷ t) = rw (strip_suffix_char-append d (e ∷ t))

-- No entry is the separator.
abbrev pub Lacks : ℕ → Text → Type 0
Lacks d = All λ c. c ≢ d

pub split_once-append : (d : ℕ) (s t : Text) → Lacks d s → split_once d (s ++ d ∷ t) ≡ some (s, t)
unfolding split_once
split_once-append d [] t h = ground arith
split_once-append d (c ∷ s) t h = ground (arith, split_once-append d s t h.1)

-- What `split_once` gives for the rest of a text decides what it gives for the text.
split_once-cons :
    (d c : ℕ) (t u v : Text)
    → split_once d (c ∷ t) ≡ some (u, v)
    → ((c ≡ d) × (u ≡ []) × (v ≡ t))
      ⊎ ((w : Text) × (c ≢ d) × (split_once d t ≡ some (w, v)) × (u ≡ c ∷ w))
unfolding split_once
split_once-cons d c t u v h = elim (Bool-cases (c == d)) [
  | inl e ↦ inl (ground arith)
  | inr e ↦ elim (Option-cases (split_once d t)) [
    | inl n ↦ absurd (ground arith)
    | inr (p, q) ↦ inr (p.0, ground arith, ground arith, ground arith)
  ]
]

pub eq_of_split_once :
    (d : ℕ) (t u v : Text) → split_once d t ≡ some (u, v) → (t ≡ u ++ d ∷ v) × Lacks d u
unfolding split_once
eq_of_split_once d [] u v h = cc
eq_of_split_once d (c ∷ t) u v h = elim (split_once-cons d c t u v h) [
  | inl (e, p, q) ↦ rw (p, q, e) (refl, tt)
  | inr (w, e, p, q) ↦ rw q (let (x, y) = eq_of_split_once d t w v p in (ap (λ z. c ∷ z) x, (e, y)))
]

pub split_once-Lacks : (d : ℕ) (t : Text) → Lacks d t → split_once d t ≡ none
unfolding split_once
split_once-Lacks d [] h = refl
split_once-Lacks d (c ∷ t) h = ground (arith, split_once-Lacks d t h.1)

append-ne-nil : (t u : Text) → u ≢ [] → t ++ u ≢ []
append-ne-nil [] u h = h
append-ne-nil (c ∷ t) u h = λ e. cc

pub Lacks-of_split_once : (d : ℕ) (t : Text) → split_once d t ≡ none → Lacks d t
unfolding split_once
Lacks-of_split_once d [] h = tt
Lacks-of_split_once d (c ∷ t) h = elim (Option-cases (split_once d t)) [
  | inl n ↦ (ground arith, Lacks-of_split_once d t n)
  | inr (p, n) ↦ absurd (ground arith)
]

-- Trimming, for any class of characters.
module _ (p : ℕ → Bool) where
  abbrev pub AllIn : Text → Type 0
  AllIn = All λ c. p c ≡ true

  pub trim_start_matches-append :
      (a t : Text) → AllIn a → trim_start_matches p (a ++ t) ≡ trim_start_matches p t
  unfolding trim_start_matches
  trim_start_matches-append [] t h = refl
  trim_start_matches-append (c ∷ a) t h = rw h.0 (trim_start_matches-append a t h.1)

  pub trim_end_matches_all : (a : Text) → AllIn a → trim_end_matches p a ≡ []
  unfolding trim_end_matches
  trim_end_matches_all [] h = refl
  trim_end_matches_all (c ∷ a) h = rw (trim_end_matches_all a h.1, h.0)

  pub trim_end_matches-append_dropped :
      (t u : Text) → trim_end_matches p u ≡ [] → trim_end_matches p (t ++ u) ≡ trim_end_matches p t
  unfolding trim_end_matches
  trim_end_matches-append_dropped [] u h = h
  trim_end_matches-append_dropped (c ∷ t) u h = rw (trim_end_matches-append_dropped t u h)

  push_end-ne : (c : ℕ) (t : Text) → t ≢ [] → push_end p c t ≡ c ∷ t
  push_end-ne c [] h = absurd (h refl)
  push_end-ne c (d ∷ t) h = refl

  pub trim_end_matches-append_kept :
      (t u : Text)
      → trim_end_matches p u ≢ []
      → trim_end_matches p (t ++ u) ≡ t ++ trim_end_matches p u
  unfolding trim_end_matches
  trim_end_matches-append_kept [] u h = refl
  trim_end_matches-append_kept (c ∷ t) u h =
      rw (trim_end_matches-append_kept t u h) (push_end-ne c _ (append-ne-nil t _ h))

  -- The first character stays, if something behind it does.
  pub trim_end_matches-cons_kept :
      (c : ℕ) (u : Text)
      → trim_end_matches p u ≢ []
      → trim_end_matches p (c ∷ u) ≡ c ∷ trim_end_matches p u
  unfolding trim_end_matches
  trim_end_matches-cons_kept c u h = push_end-ne c (trim_end_matches p u) h

  pub trim_end_matches_framed :
      (c : ℕ) (s : Text) (d : ℕ) (u : Text)
      → trim_end_matches p u ≢ []
      → trim_end_matches p (c ∷ (s ++ d ∷ u)) ≡ c ∷ (s ++ d ∷ trim_end_matches p u)
  trim_end_matches_framed c s d u h =
      let last = trim_end_matches-cons_kept d u h in
      let middle =
        trim_end_matches-append_kept s (d ∷ u) (rw last (λ e. cc)) ∙ ap (λ t. s ++ t) last in
      trim_end_matches-cons_kept c (s ++ d ∷ u) (rw middle (append-ne-nil s _ (λ e. cc)))
      ∙ ap (λ t. c ∷ t) middle

  abbrev pub NoneIn : Text → Type 0
  NoneIn = All λ c. p c ≡ false

  pub trim_end_matches-append_last :
      (t : Text) (d : ℕ) → p d ≡ false → trim_end_matches p (t ++ d ∷ []) ≡ t ++ d ∷ []
  unfolding trim_end_matches
  trim_end_matches-append_last t d h =
      let last : trim_end_matches p (d ∷ []) ≡ d ∷ [] = rw h in
      trim_end_matches-append_kept t (d ∷ []) (rw last (λ e. cc)) ∙ ap (λ u. t ++ u) last

  pub trim_end_matches_none : (t : Text) → NoneIn t → trim_end_matches p t ≡ t
  unfolding trim_end_matches
  trim_end_matches_none [] h = refl
  trim_end_matches_none (c ∷ []) h = rw (h.0)
  trim_end_matches_none (c ∷ d ∷ t) h = rw (trim_end_matches_none (d ∷ t) h.1)

  pub trim_start_matches_none : (t : Text) → NoneIn t → trim_start_matches p t ≡ t
  unfolding trim_start_matches
  trim_start_matches_none [] h = refl
  trim_start_matches_none (c ∷ t) h = rw (h.0)

  push_end_start :
      (c : ℕ) (t : Text)
      → p c ≡ true
      → trim_start_matches p (push_end p c t) ≡ trim_start_matches p t
  unfolding trim_start_matches
  push_end_start c [] h = ground arith
  push_end_start c (d ∷ t) h = ground arith

  push_end_keep :
      (c : ℕ) (t : Text) → p c ≡ false → trim_start_matches p (push_end p c t) ≡ push_end p c t
  unfolding trim_start_matches
  push_end_keep c [] h = ground arith
  push_end_keep c (d ∷ t) h = ground arith

  -- The two ends are trimmed in either order.
  pub trim_start_end :
      (t : Text)
      → trim_start_matches p (trim_end_matches p t) ≡ trim_end_matches p (trim_start_matches p t)
  unfolding trim_start_matches trim_end_matches
  trim_start_end [] = refl
  trim_start_end (c ∷ t) = elim (Bool-cases (p c)) [
    | inl e ↦ rw e (push_end_start c (trim_end_matches p t) e ∙ trim_start_end t)
    | inr e ↦ rw e (push_end_keep c (trim_end_matches p t) e)
  ]

  trim_end-push_end :
      (c : ℕ) (t : Text)
      → trim_end_matches p t ≡ t
      → trim_end_matches p (push_end p c t) ≡ push_end p c t
  unfolding trim_end_matches
  trim_end-push_end c [] h = elim (Bool-cases (p c)) [ inl e ↦ rw e refl | inr e ↦ rw e (rw e) ]
  trim_end-push_end c (d ∷ t) h = rw h

  pub trim_end_matches_idem :
      (t : Text) → trim_end_matches p (trim_end_matches p t) ≡ trim_end_matches p t
  unfolding trim_end_matches
  trim_end_matches_idem [] = refl
  trim_end_matches_idem (c ∷ t) =
      trim_end-push_end c (trim_end_matches p t) (trim_end_matches_idem t)

  pub trim_start_matches_idem :
      (t : Text) → trim_start_matches p (trim_start_matches p t) ≡ trim_start_matches p t
  unfolding trim_start_matches
  trim_start_matches_idem [] = refl
  trim_start_matches_idem (c ∷ t) = elim (Bool-cases (p c)) [
    | inl e ↦ rw e (trim_start_matches_idem t)
    | inr e ↦ rw e (rw e)
  ]

pub trim_end_of_trim : (t : Text) → trim_end_matches is_whitespace (trim t) ≡ trim t
unfolding trim
trim_end_of_trim t = trim_end_matches_idem is_whitespace (trim_start_matches is_whitespace t)

-- Trimming the end first changes nothing.
pub trim-trim_end : (t : Text) → trim (trim_end_matches is_whitespace t) ≡ trim t
unfolding trim
trim-trim_end t =
    rw (trim_start_end is_whitespace t)
      (trim_end_matches_idem is_whitespace (trim_start_matches is_whitespace t))

pub trim-trim : (t : Text) → trim (trim t) ≡ trim t
unfolding trim
trim-trim t =
    rw (trim_start_end is_whitespace (trim_start_matches is_whitespace t))
      (rw (trim_start_matches_idem is_whitespace t) (trim_end_matches_idem is_whitespace _))

-- A text with something in it keeps something when only its end is trimmed.
pub trim_end-ne-nil : (t : Text) → trim t ≢ [] → trim_end_matches is_whitespace t ≢ []
unfolding trim trim_start_matches trim_end_matches
trim_end-ne-nil t h e = h (sym (trim-trim_end t) ∙ rw e)

pub trim_none : (t : Text) → NoneIn is_whitespace t → trim t ≡ t
unfolding trim
trim_none t h =
    rw (trim_start_matches_none is_whitespace t h) (trim_end_matches_none is_whitespace t h)

pub trim_kept :
    (c : ℕ) (s : Text) (d : ℕ)
    → is_whitespace c ≡ false
    → is_whitespace d ≡ false
    → trim (c ∷ (s ++ d ∷ [])) ≡ c ∷ (s ++ d ∷ [])
unfolding trim trim_start_matches
trim_kept c s d h k = rw h (trim_end_matches-append_last is_whitespace (c ∷ s) d k)

pub trim-blank : (t : Text) → trim (b' ' ∷ t) ≡ trim t
unfolding trim trim_start_matches is_whitespace
trim-blank t = refl
