-- ===== src/Keeper/Thresholds/Tests.antt =====
-- Runs of the balance thresholds, with an oracle fee of 0.5 and the defaults.
use everdraw.Base.{◌≡◌, refl, pos, negsuc, arith, ok, err}
use everdraw.Keeper.Thresholds.{
  Inputs, Thresholds, with_defaults, max_big_int, some_negative, invalid_headroom, thresholds,
  derive_keeper_balance_thresholds, negative_input, bad_headroom,
}
use everdraw.Keeper.Thresholds.Bounds.{IsValid, Covers, derive-Covers, derive-IsValid}

abbrev inputs : Inputs
inputs = with_defaults (pos 500_000_000_000_000_000) (pos 1_000_000_000_000_000_000) (pos 0)

inputs-IsValid : IsValid inputs
inputs-IsValid = record {
  fee = refl;
  floor = refl;
  warn = refl;
  gas = refl;
  minimum = refl;
  minimum_warn = omega arith;
  some_draw = omega arith;
  draws = omega arith;
}

derive-Covers_example :
    (t : Thresholds) × (derive_keeper_balance_thresholds inputs ≡ ok t) × Covers inputs t
derive-Covers_example = derive-Covers inputs inputs-IsValid

inputs_run :
    derive_keeper_balance_thresholds inputs
    ≡ ok (record {
      floor_wei = 3_000_000_000_000_000_000;
      warn_wei = 6_000_000_000_000_000_000;
      fee_derived_floor = 2_100_000_000_000_000_000;
      fee_derived_warn = 4_100_000_000_000_000_000;
    })
unfolding derive_keeper_balance_thresholds some_negative invalid_headroom thresholds max_big_int
inputs_run = refl

derive-IsValid_example : IsValid inputs
derive-IsValid_example =
    derive-IsValid inputs
      (record {
        floor_wei = 3_000_000_000_000_000_000;
        warn_wei = 6_000_000_000_000_000_000;
        fee_derived_floor = 2_100_000_000_000_000_000;
        fee_derived_warn = 4_100_000_000_000_000_000;
      })
      inputs_run

negative_fee :
    derive_keeper_balance_thresholds (with_defaults (negsuc 0) (pos 0) (pos 0)) ≡ err negative_input
unfolding derive_keeper_balance_thresholds some_negative invalid_headroom thresholds max_big_int
negative_fee = refl

no_headroom :
    derive_keeper_balance_thresholds (record inputs { warn_draws = pos 3 }) ≡ err bad_headroom
unfolding derive_keeper_balance_thresholds some_negative invalid_headroom thresholds max_big_int
no_headroom = refl
