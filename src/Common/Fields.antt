-- ===== src/Common/Fields.antt =====
-- What the parsers of both devices' responses share: the payload of a line, the chain of `if let`, and
-- the words of a payload.
use Prim.Native.String.{String}
use mathlib.Core.Path.{◌≡◌, refl}
use Prim.Native.Nat.{ℕ}
use mathlib.Core.Bool.{Bool, true, false, not, ◌&&◌, ◌||◌}
use native.Mathlib.Omega.{arith}
use mathlib.Core.Option.{Option, none, some}
use mathlib.Core.List.{List, [], ◌∷◌, ◌++◌}
use elecraft_genius_bridge.Common.Tests.{if◌then◌else◌}
use elecraft_genius_bridge.Common.Strings.{
  starts_with, ends_with_char, Text, codes, is_whitespace, strip_prefix, strip_suffix_char, text_eq,
}

-- `response.strip_prefix(prefix).and_then(|value| value.strip_suffix(';'))`
unfoldable pub payload : Text → Text → Option Text
payload prefix response = elim (strip_prefix prefix response) [
  | none ↦ none
  | some value ↦ strip_suffix_char b';' value
]

-- `if let Some(raw) = o { f(raw); return; } rest`
abbrev pub if_let {ℓ} : {A : Type ℓ} → Option Text → (Text → A) → A → A
if_let none f rest = rest
if_let (some raw) f rest = f raw

-- A key or value of a `match` on text.
infix 50 ◌is◌
abbrev pub ◌is◌ : Text → String → Bool
t is s = text_eq t (codes s)

pub if_let_cases {ℓ κ} :
    {A : Type κ} (P : A → Type ℓ) (o : Option Text) (f : Text → A) (rest : A)
    → ((raw : Text) → o ≡ some raw → P (f raw))
    → P rest
    → P (if_let o f rest)
if_let_cases P none f rest h k = k
if_let_cases P (some raw) f rest h k = h raw refl

pub if_cases {ℓ κ} :
    {A : Type κ} (P : A → Type ℓ) (b : Bool) (x y : A) → P x → P y → P (if b then x else y)
if_cases P true x y h k = h
if_cases P false x y h k = k

-- Each branch may use what the test says.
pub if_split {ℓ κ} :
    {A : Type κ} (P : A → Type ℓ) (b : Bool) (x y : A)
    → (b ≡ true → P x)
    → (b ≡ false → P y)
    → P (if b then x else y)
if_split P true x y h k = h refl
if_split P false x y h k = k refl

-- An empty word is no word.
cons_word : Text → List Text → List Text
cons_word [] ws = ws
cons_word (d ∷ w) ws = (d ∷ w) ∷ ws

-- The word at the front, which may be empty, and the words after it.
front : Text → Text × List Text
unfolding cons_word
front [] = ([], [])
front (c ∷ t) =
    let (word, rest) = front t in
    if is_whitespace c then ([], cons_word word rest) else (c ∷ word, rest)

-- `str::split_whitespace`.
unfoldable pub split_whitespace : Text → List Text
unfolding cons_word front
split_whitespace t = let (word, rest) = front t in cons_word word rest

-- Whether a line starts with one of the prefixes and ends with a semicolon.
unfoldable pub any_prefix : List Text → Text → Bool
any_prefix [] response = false
any_prefix (prefix ∷ rest) response =
    (starts_with prefix response && ends_with_char b';' response) || any_prefix rest response

-- No white space.
abbrev pub is_word : Text → Bool
is_word [] = true
is_word (c ∷ w) = not (is_whitespace c) && is_word w

front-append :
    (w rest : Text) → is_word w ≡ true → front (w ++ b' ' ∷ rest) ≡ (w, split_whitespace rest)
unfolding front split_whitespace is_whitespace
front-append [] rest h = refl
front-append (c ∷ w) rest h =
    let printing : is_whitespace c ≡ false = ground arith in
    let rest_word : is_word w ≡ true = ground arith in
    rw (printing, front-append w rest rest_word) refl

-- A word, and a blank behind it.
pub split_whitespace-word :
    (c : ℕ) (w rest : Text)
    → is_word (c ∷ w) ≡ true
    → split_whitespace ((c ∷ w) ++ b' ' ∷ rest) ≡ (c ∷ w) ∷ split_whitespace rest
unfolding split_whitespace cons_word
split_whitespace-word c w rest h = rw (front-append (c ∷ w) rest h) refl
