-- ===== src/Config/Checks.antt =====
-- The checks that the sections share. `Result<(), ConfigError>` is the error, if any; `parse::<IpAddr>`
-- is an argument where it is called.
use Prim.Native.Nat.{bit_and}
use elecraft_genius_bridge.Common.{
  Bool, List, Option, String, Text, [], codes, false, if◌then◌else◌, is_empty, is_word, leb, none,
  not, some, trim, ℕ, ◌&&◌, ◌++◌, ◌==◌, ◌is◌, ◌||◌, ◌∷◌, All, arith, refl, ◌≡◌,
}
use elecraft_genius_bridge.Config.Device as Device
use elecraft_genius_bridge.Config.Operational as Operational

-- `ConfigError::Invalid`, with its message or with the one of a device or of the operational section.
pub data ConfigError : Type 0 where
  invalid : Text → ConfigError
  device_invalid : Device.Invalid → ConfigError
  operational_invalid : Operational.Invalid → ConfigError

-- A sequence of checks with `?`: the first error, if any.
abbrev pub first_error {ℓ} : {E : Type ℓ} → List (Option E) → Option E
first_error [] = none
first_error (none ∷ rest) = first_error rest
first_error (some e ∷ rest) = some e

pub first_error-none {ℓ} :
    {E : Type ℓ} (checks : List (Option E)) → first_error checks ≡ none → All (λ c. c ≡ none) checks
first_error-none [] h = tt
first_error-none (none ∷ rest) h = (refl, first_error-none rest h)
first_error-none (some e ∷ rest) h = absurd (ground arith)

abbrev pub check : Bool → Text → Option ConfigError
check b message = if b then none else some (invalid message)

pub data IpAddr : Type 0 where
  -- The four octets.
  v4 : ℕ → ℕ → ℕ → ℕ → IpAddr
  -- The eight segments, the last seven of them as a list.
  v6 : ℕ → List ℕ → IpAddr

abbrev all_but_last_zero : List ℕ → Bool
all_but_last_zero [] = false
all_but_last_zero (s ∷ []) = s == 1
all_but_last_zero (s ∷ t ∷ rest) = s == 0 && all_but_last_zero (t ∷ rest)

-- `Ipv4Addr::is_private`
abbrev pub is_private : ℕ → ℕ → Bool
is_private a b = a == 10 || (a == 172 && leb 16 b && leb b 31) || (a == 192 && b == 168)

unfoldable pub is_lan_or_loopback_or_cgnat : IpAddr → Bool
is_lan_or_loopback_or_cgnat (v4 a b c d) =
    a == 127 || is_private a b || (a == 169 && b == 254) || (a == 100 && leb 64 b && leb b 127)
is_lan_or_loopback_or_cgnat (v6 first rest) =
    (first == 0 && all_but_last_zero rest)
    || bit_and first 0xfe00 == 0xfc00
    || bit_and first 0xffc0 == 0xfe80

abbrev pub validate_lan_or_loopback : String → IpAddr → Option ConfigError
validate_lan_or_loopback name ip = check (is_lan_or_loopback_or_cgnat ip) (
    codes name
    ++ codes " must be loopback, private LAN, link-local, or CGNAT for Phase 17 injection")

abbrev pub validate_port : String → ℕ → Option ConfigError
validate_port name port =
    check (not (port == 0)) (codes name ++ codes " must be between 1 and 65535")

abbrev pub has_pipe : Text → Bool
has_pipe [] = false
has_pipe (c ∷ t) = c == b'|' || has_pipe t

unfoldable pub validate_nonempty_token : String → Text → Option ConfigError
validate_nonempty_token name value = first_error (
    check (not (is_empty (trim value))) (codes name ++ codes " must not be empty")
    ∷ check (not (has_pipe value || not (is_word value)))
        (codes name ++ codes " must not contain whitespace or pipe characters")
    ∷ [])

-- A `match` on text whose arms are alternatives.
abbrev pub one_of : List String → Text → Bool
one_of [] t = false
one_of (s ∷ rest) t = t is s || one_of rest t
