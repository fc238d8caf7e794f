-- ===== src/Keeper/Thresholds.antt =====
-- scripts/keeper/balance-thresholds.mjs: the balances below which the keeper warns, and stops.
pub mod Bounds
mod Tests
use everdraw.Base.{
  ℕ, ◌+◌, ◌*◌, ℤ, pos, pos_part, ltb_ℤ, Bool, ◌||◌, not, List, [], ◌∷◌, ltb, if◌then◌else◌, Result,
  ok, ◌>>=◌, ◌>>◌, guard,
}

pub data Error : Type 0 where
  negative_input bad_headroom : Error

pub record Inputs : Type 0 where
  pub oracle_fee_wei : ℤ
  pub configured_floor_wei : ℤ
  pub configured_warn_wei : ℤ
  pub floor_draws : ℤ
  pub warn_draws : ℤ
  pub gas_buffer_wei : ℤ
  pub minimum_floor_wei : ℤ
  pub minimum_warn_wei : ℤ

-- The arguments that a call may leave out, as the declaration fills them in.
abbrev pub with_defaults : ℤ → ℤ → ℤ → Inputs
with_defaults fee floor warn = record {
  oracle_fee_wei = fee;
  configured_floor_wei = floor;
  configured_warn_wei = warn;
  floor_draws = pos 4;
  warn_draws = pos 8;
  gas_buffer_wei = pos 100_000_000_000_000_000;
  minimum_floor_wei = pos 3_000_000_000_000_000_000;
  minimum_warn_wei = pos 6_000_000_000_000_000_000;
}

pub record Thresholds : Type 0 where
  pub floor_wei : ℕ
  pub warn_wei : ℕ
  pub fee_derived_floor : ℕ
  pub fee_derived_warn : ℕ

-- `values.reduce((highest, value) => (value > highest ? value : highest), 0n)`, no value negative.
pub max_big_int : ℕ → List ℕ → ℕ
max_big_int highest [] = highest
max_big_int highest (value ∷ values) =
    max_big_int (if ltb highest value then value else highest) values

-- The first `if`: an input is negative, or the minimum to warn at is below that to stop at.
pub some_negative : Inputs → Bool
some_negative i =
    ltb_ℤ i.oracle_fee_wei (pos 0)
    || (ltb_ℤ i.configured_floor_wei (pos 0)
        || (ltb_ℤ i.configured_warn_wei (pos 0)
            || (ltb_ℤ i.gas_buffer_wei (pos 0)
                || (ltb_ℤ i.minimum_floor_wei (pos 0)
                    || ltb_ℤ i.minimum_warn_wei i.minimum_floor_wei))))

-- The second `if`.
pub invalid_headroom : Inputs → Bool
invalid_headroom i = not (ltb_ℤ (pos 0) i.floor_draws) || ltb_ℤ i.warn_draws i.floor_draws

-- What is computed past the two tests. There no number is negative, so `pos_part` is the number.
pub thresholds : Inputs → Thresholds
thresholds i =
    let fee = pos_part i.oracle_fee_wei in
    let gas = pos_part i.gas_buffer_wei in
    let fee_derived_floor = fee * pos_part i.floor_draws + gas in
    let floor_wei =
      max_big_int 0
        (pos_part i.minimum_floor_wei ∷ pos_part i.configured_floor_wei ∷ fee_derived_floor ∷ []) in
    let fee_derived_warn = fee * pos_part i.warn_draws + gas in
    let warn_wei = max_big_int 0 (
      pos_part i.minimum_warn_wei
      ∷ pos_part i.configured_warn_wei
      ∷ fee_derived_warn
      ∷ floor_wei
      ∷ []) in
    record {
      floor_wei = floor_wei;
      warn_wei = warn_wei;
      fee_derived_floor = fee_derived_floor;
      fee_derived_warn = fee_derived_warn;
    }

pub derive_keeper_balance_thresholds : Inputs → Result Error Thresholds
derive_keeper_balance_thresholds i = do
  guard (not (some_negative i)) negative_input
  guard (not (invalid_headroom i)) bad_headroom
  ok (thresholds i)
