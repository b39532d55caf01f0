-- ===== src/Common/Decimal.antt =====
-- Unsigned decimal numbers: `Display` and `str::parse` of the integer types.
use Prim.Native.Nat.{ℕ, zero, suc, ◌+◌, ◌-◌, ◌*◌, ◌/◌, ◌%◌, ◌≤◌, ◌<◌}
use mathlib.Core.Path.{◌≡◌, refl, ◌∙◌}
use mathlib.Core.Logic.{◌≢◌, inl, inr}
use mathlib.Core.Bool.{Bool, true, false, not, ◌&&◌}
use mathlib.Core.Option.{Option, none, some}
use mathlib.Core.List.{[], ◌∷◌}
use native.Mathlib.Omega.{arith}
use elecraft_genius_bridge.Common.Tests.{ltb, leb, ◌==◌, if◌then◌else◌, Bool-cases}
use elecraft_genius_bridge.Common.Lists.{All}
use elecraft_genius_bridge.Common.Strings.{Text, Lacks}

unfoldable pub is_digit : ℕ → Bool
is_digit c = leb b'0' c && leb c b'9'

-- The digits of `n` in front of `rest`; `n` is enough fuel, since each round divides by ten.
unfoldable pub show_digits : ℕ → ℕ → Text → Text
show_digits zero n rest = rest
show_digits (suc f) n rest =
    let more = show_digits f (n / 10) ((b'0' + n % 10) ∷ rest) in
    if ltb n 10 then (b'0' + n) ∷ rest else more

unfoldable pub show_nat : ℕ → Text
unfolding show_digits
show_nat n = show_digits (suc n) n []

-- `checked_mul` and `checked_add` against the bound of the type.
unfoldable pub parse_digits : ℕ → ℕ → Text → Option ℕ
unfolding is_digit
parse_digits bound acc [] = some acc
parse_digits bound acc (c ∷ cs) =
    let acc' = acc * 10 + (c - b'0') in
    let rest = parse_digits bound acc' cs in if is_digit c && leb acc' bound then rest else none

unfoldable pub parse_unsigned : ℕ → Text → Option ℕ
unfolding parse_digits
parse_unsigned bound [] = none
parse_unsigned bound (c ∷ cs) = parse_digits bound 0 (c ∷ cs)

-- `parse::<u8>` and the like: one leading plus sign is allowed, an empty number is not.
unfoldable pub parse_nat : ℕ → Text → Option ℕ
unfolding parse_unsigned
parse_nat bound [] = none
parse_nat bound (c ∷ cs) =
    if c == b'+' then parse_unsigned bound cs else parse_unsigned bound (c ∷ cs)

-- A decimal digit.
abbrev pub IsDigit : ℕ → Type 0
IsDigit c = is_digit c ≡ true

step :
    (n bound : ℕ) (rest : Text)
    → ltb n 10 ≡ false
    → n ≤ bound
    → parse_digits bound (n / 10) ((b'0' + n % 10) ∷ rest) ≡ parse_digits bound n rest
unfolding parse_digits
step n bound rest e k =
    let e : n / 10 * 10 + (b'0' + n % 10 - b'0') ≡ n = omega arith in rw e (ground arith)

pub parse_digits-show_digits :
    (f n bound : ℕ) (rest : Text)
    → n < f
    → n ≤ bound
    → parse_digits bound 0 (show_digits f n rest) ≡ parse_digits bound n rest
unfolding parse_digits show_digits
parse_digits-show_digits zero n bound rest h k = absurd (omega arith)
parse_digits-show_digits (suc f) n bound rest h k = elim (Bool-cases (ltb n 10)) [
  | inl e ↦ rw e (ground arith)
  | inr e ↦ rw e (
      parse_digits-show_digits f (n / 10) bound ((b'0' + n % 10) ∷ rest) (ground arith)
        (ground arith)
      ∙ step n bound rest e k)
]

pub show_digits_digits :
    (f n : ℕ) (rest : Text) → All IsDigit rest → All IsDigit (show_digits f n rest)
unfolding show_digits is_digit
show_digits_digits zero n rest h = h
show_digits_digits (suc f) n rest h = elim (Bool-cases (ltb n 10)) [
  | inl e ↦ rw e (ground arith, h)
  | inr e ↦ rw e (show_digits_digits f (n / 10) ((b'0' + n % 10) ∷ rest) (ground arith, h))
]

pub show_nat_digits : (n : ℕ) → All IsDigit (show_nat n)
unfolding show_nat
show_nat_digits n = show_digits_digits (suc n) n [] tt

-- A shown number has a first digit.
show_digits_cons :
    (f n c : ℕ) (rest : Text) → (d : ℕ) × (t : Text) × (show_digits f n (c ∷ rest) ≡ d ∷ t)
unfolding show_digits
show_digits_cons zero n c rest = (c, rest, refl)
show_digits_cons (suc f) n c rest = elim (Bool-cases (ltb n 10)) [
  | inl e ↦ (b'0' + n, c ∷ rest, rw e)
  | inr e ↦ rw e (show_digits_cons f (n / 10) (b'0' + n % 10) (c ∷ rest))
]

pub show_nat_cons : (n : ℕ) → (d : ℕ) × (t : Text) × (show_nat n ≡ d ∷ t)
unfolding show_nat show_digits
show_nat_cons n = elim (Bool-cases (ltb n 10)) [
  | inl e ↦ (b'0' + n, [], rw e)
  | inr e ↦ rw e (show_digits_cons n (n / 10) (b'0' + n % 10) [])
]

pub digit-ne : (c d : ℕ) → IsDigit c → is_digit d ≡ false → c ≢ d
unfolding is_digit
digit-ne c d h k = ground arith

parse_nat_digits :
    (bound : ℕ) (t : Text) (d : ℕ) (u : Text)
    → t ≡ d ∷ u
    → All IsDigit t
    → parse_nat bound t ≡ parse_digits bound 0 t
unfolding parse_nat parse_unsigned
parse_nat_digits bound [] d u e h = cc
parse_nat_digits bound (c ∷ t) d u e h = ground (arith, digit-ne c b'+' h.0)

-- A number in range is read back from what `Display` writes for it.
pub parse_nat-show_nat : (bound n : ℕ) → n ≤ bound → parse_nat bound (show_nat n) ≡ some n
unfolding show_nat parse_digits
parse_nat-show_nat bound n h =
    let (d, u, e) = show_nat_cons n in
    parse_nat_digits bound (show_nat n) d u e (show_nat_digits n)
    ∙ parse_digits-show_digits (suc n) n bound [] (omega arith) h

parse_digits-le :
    (bound acc : ℕ) (t : Text) {n : ℕ} → acc ≤ bound → parse_digits bound acc t ≡ some n → n ≤ bound
unfolding parse_digits
parse_digits-le bound acc [] h e = ground arith
parse_digits-le bound acc (c ∷ t) {n} h e =
    ground (arith, parse_digits-le bound (acc * 10 + (c - b'0')) t {n = n})

-- What is read fits the type.
pub parse_nat-le : (bound : ℕ) (t : Text) {n : ℕ} → parse_nat bound t ≡ some n → n ≤ bound
unfolding parse_nat parse_unsigned
parse_nat-le bound [] e = cc
parse_nat-le bound (c ∷ []) {n} e = ground (arith, parse_digits-le bound 0 (c ∷ []) {n = n})
parse_nat-le bound (c ∷ d ∷ t) {n} e =
    ground
      (arith, parse_digits-le bound 0 (c ∷ d ∷ t) {n = n}, parse_digits-le bound 0 (d ∷ t) {n = n})

-- A number's digits hold no field separator.
pub digits-Lacks : (t : Text) → All IsDigit t → Lacks b'|' t
digits-Lacks [] h = tt
digits-Lacks (c ∷ t) h = (digit-ne c b'|' h.0 (unfold is_digit in refl), digits-Lacks t h.1)

-- `parse` of a signed type: whether there is a minus sign, and the magnitude. The bound is the type's
-- greatest number.
unfoldable pub parse_signed : ℕ → Text → Option (Bool × ℕ)
unfolding parse_nat parse_unsigned
parse_signed bound [] = none
parse_signed bound (c ∷ cs) =
    if c == b'-'
    then signed true (parse_unsigned (bound + 1) cs)
    else signed false (parse_nat bound (c ∷ cs))
  where
    signed : Bool → Option ℕ → Option (Bool × ℕ)
    signed negative none = none
    signed negative (some n) = some (negative, n)

-- `Display` of a signed number.
unfoldable pub show_signed : Bool × ℕ → Text
show_signed n = if n.0 && not (n.1 == 0) then b'-' ∷ show_nat n.1 else show_nat n.1
