-- ===== src/Draw/Leaves/Amounts.antt =====
-- The divisions of `buildLeaves`: shares never pass the whole, and the first position takes what is
-- left over.
use everdraw.Base.{
  ℕ, suc, length, ◌+◌, ◌*◌, ◌/◌, ◌≤◌, ◌<◌, ◌≡◌, refl, ap, sym, List, [], ◌∷◌, map, arith, ◌==◌,
  ◌||◌, sum, Bool-cases, inl, inr,
}
use everdraw.Draw.Input.{Input, Leg, Recipient}
use everdraw.Draw.Leaves.{winner_pool, prize_amount, allocated_fee_amount}
use everdraw.Draw.Leaves.Loops.{legs_total, positions_total, fee_total, fees_total, FeesFit}

div-mul-le : (n d : ℕ) → n / d * d ≤ n
div-mul-le n d = grind arith

-- Rounded shares of `whole` by weights out of `d` sum up to at most the unrounded share.
shares-le :
    (whole d : ℕ) (weights : List ℕ)
    → 0 < d
    → sum (map (λ w. whole * w / d) weights) * d ≤ whole * sum weights
shares-le whole d [] h = omega arith
shares-le whole d (w ∷ ws) h = omega (arith, div-mul-le (whole * w) d, shares-le whole d ws h)

le_of_times : (a b d : ℕ) → 0 < d → a * d ≤ b * d → a ≤ b
le_of_times a b d h le = grind arith

pub shares-le-whole :
    (whole d : ℕ) (weights : List ℕ)
    → 0 < d
    → sum weights ≡ d
    → sum (map (λ w. whole * w / d) weights) ≤ whole
shares-le-whole whole d weights h e =
    le_of_times _ whole d h (rw e at (shares-le whole d weights h))

shares-map :
    (whole d : ℕ) (rs : List Recipient)
    → sum (map (λ r. whole * r.bps / d) rs) ≡ sum (map (λ w. whole * w / d) (map (λ r. r.bps) rs))
shares-map whole d [] = refl
shares-map whole d (r ∷ rs) = omega (arith, shares-map whole d rs)

module _ (input : Input) where
  -- What the positions from `position` on win of one leg.
  column : Leg → ℕ → List ℕ → ℕ
  column leg position [] = 0
  column leg position (bps ∷ tiers) =
      prize_amount input leg position bps + column leg (suc position) tiers

  rows : ℕ → List ℕ → List Leg → ℕ
  rows position [] legs = 0
  rows position (bps ∷ tiers) legs =
      legs_total input position bps legs + rows (suc position) tiers legs

  rows-eq-positions_total :
      (position : ℕ) (tiers : List ℕ)
      → positions_total input position tiers ≡ rows position tiers input.prize_legs
  unfolding rows
  rows-eq-positions_total position [] = refl
  rows-eq-positions_total position (bps ∷ tiers) =
      omega (arith, rows-eq-positions_total (suc position) tiers)

  rows-cons :
      (position : ℕ) (tiers : List ℕ) (leg : Leg) (legs : List Leg)
      → rows position tiers (leg ∷ legs) ≡ column leg position tiers + rows position tiers legs
  unfolding rows column
  rows-cons position [] leg legs = omega arith
  rows-cons position (bps ∷ tiers) leg legs = omega (arith, rows-cons (suc position) tiers leg legs)

  rows-nil : (position : ℕ) (tiers : List ℕ) → rows position tiers [] ≡ 0
  unfolding rows
  rows-nil position [] = refl
  rows-nil position (bps ∷ tiers) = omega (arith, rows-nil (suc position) tiers)

  column-later :
      (leg : Leg) (position : ℕ) (tiers : List ℕ)
      → column leg (suc position) tiers ≡ sum (map (λ b. winner_pool input leg * b / 10000) tiers)
  unfolding column prize_amount
  column-later leg position [] = refl
  column-later leg position (bps ∷ tiers) = ground (arith, column-later leg (suc position) tiers)

  -- The positions share out the whole of a leg's pool.
  column-winner_pool :
      (leg : Leg)
      → 0 < length input.tier_bps
      → sum input.tier_bps ≡ 10000
      → column leg 0 input.tier_bps ≡ winner_pool input leg
  unfolding column prize_amount
  column-winner_pool leg p e = go input.tier_bps refl
    where
      go : (tiers : List ℕ) → input.tier_bps ≡ tiers → column leg 0 tiers ≡ winner_pool input leg
      go [] t = absurd (omega (arith, ap length t))
      go (bps ∷ tiers) t =
          let share = λ (b : ℕ). winner_pool input leg * b / 10000 in
          omega (
            arith,
            column-later leg 0 tiers,
            ap (λ (l : List ℕ). sum (map share l)) t,
            shares-le-whole (winner_pool input leg) 10000 input.tier_bps (omega arith) e,
          )

  abbrev pub pools : List Leg → ℕ
  pools [] = 0
  pools (leg ∷ legs) = winner_pool input leg + pools legs

  positions_total-pools :
      (legs : List Leg)
      → 0 < length input.tier_bps
      → sum input.tier_bps ≡ 10000
      → rows 0 input.tier_bps legs ≡ pools legs
  positions_total-pools [] p e = rows-nil 0 input.tier_bps
  positions_total-pools (leg ∷ legs) p e = omega (
    arith,
    rows-cons 0 input.tier_bps leg legs,
    column-winner_pool leg p e,
    positions_total-pools legs p e,
  )

  fee_total-map :
      (leg : Leg) (rs : List Recipient)
      → fee_total input leg rs ≡ sum (map (λ r. leg.fee_amount * r.bps / input.fee_bps) rs)
  fee_total-map leg [] = refl
  fee_total-map leg (r ∷ rs) = omega (arith, fee_total-map leg rs)

  -- A leg's pool and its fees are the leg.
  pub pools-fees :
      (legs : List Leg)
      → FeesFit input legs
      → pools legs + fees_total input legs ≡ sum (map (λ l. l.amount) legs)
  unfolding winner_pool allocated_fee_amount
  pools-fees [] h = omega arith
  pools-fees (leg ∷ legs) h = elim (Bool-cases ((input.fee_bps == 0) || (leg.fee_amount == 0))) [
    | inl e ↦ ground (arith, e, h.0, pools-fees legs h.1)
    | inr e ↦ ground (arith, e, h.0, pools-fees legs h.1, fee_total-map leg input.fee_recipients)
  ]

  -- The positions and the fees together pay out every leg, to the last unit.
  pub paid_total :
      0 < length input.tier_bps
      → sum input.tier_bps ≡ 10000
      → FeesFit input input.prize_legs
      → positions_total input 0 input.tier_bps + fees_total input input.prize_legs
        ≡ sum (map (λ l. l.amount) input.prize_legs)
  paid_total p e h = omega (
    arith,
    rows-eq-positions_total 0 input.tier_bps,
    positions_total-pools input.prize_legs p e,
    pools-fees input.prize_legs h,
  )

  -- The fees that are handed out never pass the fee amount.
  pub allocated_fee_amount-le :
      (fee_amount : ℕ)
      → input.fee_bps ≡ sum (map (λ r. r.bps) input.fee_recipients)
      → allocated_fee_amount input fee_amount ≤ fee_amount
  unfolding allocated_fee_amount
  allocated_fee_amount-le fee_amount e =
      elim (Bool-cases ((input.fee_bps == 0) || (fee_amount == 0))) [
        | inl none_due ↦ rw none_due (omega arith)
        | inr due ↦
            rw (due, shares-map fee_amount input.fee_bps input.fee_recipients)
              (shares-le-whole fee_amount input.fee_bps _ (ground (arith, due)) (sym e))
      ]
