-- ===== src/Keeper/Thresholds/Bounds.antt =====
-- What the derived thresholds guarantee, and when they are refused.
use everdraw.Base.{
  ℕ, ◌+◌, ◌*◌, ◌≤◌, ◌<◌, ◌≡◌, ◌↔◌, false, pos_part, neg_part, max, [], ◌∷◌, arith, ok,
}
use everdraw.Keeper.Thresholds.{
  Inputs, Thresholds, max_big_int, some_negative, invalid_headroom, thresholds,
  derive_keeper_balance_thresholds,
}

max_big_int-three : (a b c : ℕ) → max_big_int 0 (a ∷ b ∷ c ∷ []) ≡ max a (max b c)
unfolding max_big_int
max_big_int-three a b c = ground arith

max_big_int-four : (a b c d : ℕ) → max_big_int 0 (a ∷ b ∷ c ∷ d ∷ []) ≡ max a (max b (max c d))
unfolding max_big_int
max_big_int-four a b c d = ground arith

pub record Covers (i : Inputs) (t : Thresholds) : Type 0 where
  pub floor-le-warn : t.floor_wei ≤ t.warn_wei
  pub floor_exact :
      t.floor_wei
      ≡ max (pos_part i.minimum_floor_wei) (
          max
            (pos_part i.configured_floor_wei)
            (pos_part i.oracle_fee_wei * pos_part i.floor_draws + pos_part i.gas_buffer_wei))
  pub warn_exact :
      t.warn_wei
      ≡ max (pos_part i.minimum_warn_wei) (
          max (pos_part i.configured_warn_wei) (
            max
              (pos_part i.oracle_fee_wei * pos_part i.warn_draws + pos_part i.gas_buffer_wei)
              t.floor_wei))
  pub one_draw : pos_part i.oracle_fee_wei + pos_part i.gas_buffer_wei ≤ t.floor_wei

-- The inputs that the code accepts.
pub record IsValid (i : Inputs) : Type 0 where
  pub fee : neg_part i.oracle_fee_wei ≡ 0
  pub floor : neg_part i.configured_floor_wei ≡ 0
  pub warn : neg_part i.configured_warn_wei ≡ 0
  pub gas : neg_part i.gas_buffer_wei ≡ 0
  pub minimum : neg_part i.minimum_floor_wei ≡ 0
  pub minimum_warn :
      pos_part i.minimum_floor_wei + neg_part i.minimum_warn_wei ≤ pos_part i.minimum_warn_wei
  pub some_draw : 0 < pos_part i.floor_draws
  pub draws : pos_part i.floor_draws + neg_part i.warn_draws ≤ pos_part i.warn_draws

some_negative_iff :
    (i : Inputs)
    → (some_negative i ≡ false) ↔ (
        (neg_part i.oracle_fee_wei ≡ 0)
        × (neg_part i.configured_floor_wei ≡ 0)
        × (neg_part i.configured_warn_wei ≡ 0)
        × (neg_part i.gas_buffer_wei ≡ 0)
        × (neg_part i.minimum_floor_wei ≡ 0)
        × (pos_part i.minimum_floor_wei + neg_part i.minimum_warn_wei
            ≤ pos_part i.minimum_warn_wei + neg_part i.minimum_floor_wei))
unfolding some_negative
some_negative_iff i = (λ e. ground arith, λ h. ground arith)

invalid_headroom_iff :
    (i : Inputs)
    → (invalid_headroom i ≡ false) ↔ (
        (0 < pos_part i.floor_draws)
        × (pos_part i.floor_draws + neg_part i.warn_draws ≤ pos_part i.warn_draws))
unfolding invalid_headroom
invalid_headroom_iff i = (λ e. ground arith, λ h. ground arith)

thresholds-Covers : (i : Inputs) → 0 < pos_part i.floor_draws → Covers i (thresholds i)
unfolding thresholds
thresholds-Covers i p =
    let fee = pos_part i.oracle_fee_wei in
    let gas = pos_part i.gas_buffer_wei in
    let floor =
      max_big_int-three (pos_part i.minimum_floor_wei) (pos_part i.configured_floor_wei)
        (fee * pos_part i.floor_draws + gas) in
    let warn =
      max_big_int-four (pos_part i.minimum_warn_wei) (pos_part i.configured_warn_wei)
        (fee * pos_part i.warn_draws + gas) (thresholds i).floor_wei in
    let once : fee ≤ fee * pos_part i.floor_draws = grind arith in
    record {
      floor-le-warn = omega (arith, warn);
      floor_exact = floor;
      warn_exact = warn;
      one_draw = omega (arith, floor, once);
    }

-- Valid inputs get thresholds: the floor is the greatest of the minimum, the configured floor and
-- the fees of the floor's draws with the gas buffer, the warning threshold is the greatest of its
-- three and the floor, and a balance at the floor pays for at least one draw.
pub derive-Covers :
    (i : Inputs)
    → IsValid i
    → (t : Thresholds) × (derive_keeper_balance_thresholds i ≡ ok t) × Covers i t
unfolding derive_keeper_balance_thresholds
derive-Covers i v =
    let first : some_negative i ≡ false =
      (some_negative_iff i).1 (v.fee, v.floor, v.warn, v.gas, v.minimum, omega arith) in
    let second : invalid_headroom i ≡ false = (invalid_headroom_iff i).1 (v.some_draw, v.draws) in
    (thresholds i, rw (first, second), thresholds-Covers i v.some_draw)

-- Inputs that are not valid are refused: whenever thresholds come back, the inputs were valid.
pub derive-IsValid :
    (i : Inputs) (t : Thresholds) → derive_keeper_balance_thresholds i ≡ ok t → IsValid i
unfolding derive_keeper_balance_thresholds
derive-IsValid i t e =
    let a : some_negative i ≡ false = ground arith in
    let b : invalid_headroom i ≡ false = ground arith in
    let h = (some_negative_iff i).0 a in
    let k = (invalid_headroom_iff i).0 b in
    record {
      fee = h.0;
      floor = h.1;
      warn = h.2;
      gas = h.3;
      minimum = h.4;
      minimum_warn = omega (arith, h.4, h.5);
      some_draw = k.0;
      draws = k.1;
    }
