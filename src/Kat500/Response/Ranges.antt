-- ===== src/Kat500/Response/Ranges.antt =====
-- The ranges of the antenna, the SWR and the forward power over the lines of the tuner.
use elecraft_genius_bridge.Bridge.Float.{Float32}
use elecraft_genius_bridge.Kat500.Response.{
  trimmed, Tuner, parse_kat500_response, parse_trimmed, parse_trimmed_cases, set_firmware,
  set_serial, set_antenna, set_mode, set_tuning, set_fault, parse_vswr, set_forward, set_frequency,
  set_band,
}
use elecraft_genius_bridge.Common.{
  Option, Text, none, some, true, ℕ, ◌&&◌, ◌≡◌, ◌≤◌, Bool-cases, Option-cases, arith, inl, inr, leb,
  parse_nat, trim, u16_max, ◌⊎◌,
}

abbrev AntennaFits : Option ℕ → Type 0
AntennaFits none = Unit
AntennaFits (some antenna) = antenna ≤ 3

module _ (fl : Float32) where
  open fl use {Float, decimal, from_u16, le}

  -- The forward power is zero, or a reading of the 12-bit converter.
  abbrev ForwardFits : Float → Type 0
  ForwardFits f = (f ≡ decimal 0 0) ⊎ ((n : ℕ) × (n ≤ 4095) × (f ≡ from_u16 n))

  abbrev SwrFits : Float → Type 0
  SwrFits f = (le (decimal 1 0) f && le f (decimal 9999 2)) ≡ true

  -- The antenna is one of four, the SWR lies between 1 and 99.99, and the forward power fits.
  pub record IsPlausible (t : Tuner fl) : Type 0 where
    pub antenna_fits : AntennaFits t.selected_antenna
    pub swr_fits : SwrFits t.swr
    pub forward_fits : ForwardFits t.forward_power_watts

  set_forward-cases :
      (t : Tuner fl) (raw : Text)
      → let power = (set_forward fl t raw).forward_power_watts in
        (power ≡ t.forward_power_watts) ⊎ ((n : ℕ) × (n ≤ 4095) × (power ≡ from_u16 n))
  unfolding set_forward
  set_forward-cases t raw = elim (Option-cases (parse_nat u16_max raw)) [
    | inl e ↦ inl (ground arith)
    | inr (n, e) ↦ elim (Bool-cases (leb n 4095)) [
      | inl q ↦ inr (n, ground arith, ground arith)
      | inr q ↦ inl (ground arith)
    ]
  ]

  set_forward-IsPlausible :
      (t : Tuner fl) (raw : Text) → IsPlausible t → IsPlausible (set_forward fl t raw)
  set_forward-IsPlausible t raw v = record {
    antenna_fits = unfold set_forward in ground arith;
    swr_fits = unfold set_forward in ground arith;
    forward_fits = elim (set_forward-cases t raw) [
      | inl e ↦ rw e (v.forward_fits)
      | inr reading ↦ inr reading
    ];
  }

  module _ (one : SwrFits (decimal 1 0)) where
    keeps_plausible : (t : Tuner fl) (r : Text) → IsPlausible t → IsPlausible (parse_trimmed fl r t)
    unfolding set_firmware set_serial set_antenna set_mode set_tuning set_fault parse_vswr
        set_frequency set_band
    keeps_plausible t r v = parse_trimmed_cases fl IsPlausible r t record {
      other = v;
      firmware = λ raw. ground arith;
      serial = λ raw. ground arith;
      antenna = λ raw. ground arith;
      bypass_on = ground arith;
      bypass_off = ground arith;
      mode = λ raw. ground arith;
      tuned = λ raw e. ground arith;
      fault = λ raw. ground arith;
      vswr = λ raw. ground arith;
      forward = λ raw. set_forward-IsPlausible t raw v;
      frequency = λ raw. ground arith;
      band = λ raw. ground arith;
    }

    -- If one is a possible SWR among the numbers given for `f32`, a plausible state stays plausible
    -- whatever line comes in, valid or not: the antenna is at most 3, the SWR lies between 1 and
    -- 99.99, and the forward power is zero or a reading of at most 4095.
    pub parse_kat500_response-IsPlausible :
        (response : Text) (t : Tuner fl)
        → IsPlausible t
        → IsPlausible (parse_kat500_response fl response t)
    parse_kat500_response-IsPlausible response t v =
        rw (trimmed fl response t) (keeps_plausible t (trim response) v)
