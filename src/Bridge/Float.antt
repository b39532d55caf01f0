-- ===== src/Bridge/Float.antt =====
-- The single-precision numbers of the device states. The model takes the type and the few operations
-- that the source applies to it as a parameter.
use elecraft_genius_bridge.Common.{
  Bool, Option, Text, leb, none, parse_nat, some, u32_max, ℕ, ◌*◌, ◌/◌, ◌==◌, ◌^◌, if◌then◌else◌,
  ltb, max, min, ◌-◌, show_nat, true, u16_max, ◌+◌,
}

pub record Float32 : Type 1 where
  pub Float : Type 0
  -- The literal `n * 10^-k`.
  pub decimal : ℕ → ℕ → Float
  -- `f32::from` on `u16`.
  pub from_u16 : ℕ → Float
  -- `f32::from` on `i16`: whether the number is negative, and its magnitude.
  pub from_i16 : Bool → ℕ → Float
  pub div : Float → Float → Float
  pub add : Float → Float → Float
  pub sub : Float → Float → Float
  pub mul : Float → Float → Float
  pub neg : Float → Float
  pub max_f : Float → Float → Float
  pub min_f : Float → Float → Float
  pub log10 : Float → Float
  pub is_finite : Float → Bool
  -- `.round()`, and `as u16`, which saturates.
  pub round_u16 : Float → ℕ
  -- `{:.k}`.
  pub fixed : ℕ → Float → Text
  -- `hz as f64 / 1_000_000.0` under `{:.6}`.
  pub mhz : ℕ → Text
  -- `str::parse::<f32>`.
  pub parse : Text → Option Float
  -- `(a - b).abs() > c`.
  pub differs : Float → Float → Float → Bool
  pub eq : Float → Float → Bool
  pub le : Float → Float → Bool

-- Numbers in steps of a hundredth, with zero for those below it: one way to meet the interface.
abbrev pub hundredths : Float32
hundredths = record {
  Float = ℕ;
  decimal = λ n k. n * 100 / 10 ^ k;
  from_u16 = λ n. n * 100;
  from_i16 = λ negative n. if negative then 0 else n * 100;
  add = λ a b. a + b;
  sub = λ a b. a - b;
  mul = λ a b. a * b / 100;
  neg = λ a. 0;
  max_f = max;
  min_f = min;
  log10 = λ a. a;
  is_finite = λ a. true;
  round_u16 = λ a. min u16_max ((a + 50) / 100);
  fixed = λ k a. show_nat a;
  mhz = show_nat;
  div = λ a b. a * 100 / b;
  parse = λ t. elim (parse_nat u32_max t) [ none ↦ none | some n ↦ some (n * 100) ];
  differs = λ a b c. ltb c (max a b - min a b);
  eq = λ a b. a == b;
  le = λ a b. leb a b;
}
