-- ===== src/Draw/Leaves/Conservation.antt =====
-- The leaves of `compute` pay out the prize legs.
use everdraw.Base.{
  ℕ, false, suc, ◌≤◌, ◌<◌, ◌≡◌, refl, ap, String, Option, List, [], ◌∷◌, map, arith, ◌==◌, length,
  All, sum, ok,
}
use everdraw.Draw.Input.{RawInput, Input, Leg, normalize}
use everdraw.Draw.Input.Sorted.{IsNormal, normalize-IsNormal}
use everdraw.Draw.Leaves.{
  Keccak, Leaf, Out, Output, pick_winners, total_twab, build_leaves, fee_legs, compute, output,
}
use everdraw.Draw.Leaves.Winner.{Chosen, random_below, pick_winner-Chosen}
use everdraw.Draw.Leaves.Loops.{Numbered, total, FeesFit, prize_positions-Paid, fee_legs-Paid}
use everdraw.Draw.Leaves.Amounts.{allocated_fee_amount-le, paid_total}

-- No leg's fee passes the leg.
abbrev pub FeesWithin : List Leg → Type 0
FeesWithin = All (λ leg. leg.fee_amount ≤ leg.amount)

FeesWithin-FeesFit :
    (input : Input) (legs : List Leg)
    → input.fee_bps ≡ sum (map (λ r. r.bps) input.fee_recipients)
    → FeesWithin legs
    → FeesFit input legs
FeesWithin-FeesFit input [] e h = tt
FeesWithin-FeesFit input (leg ∷ legs) e h = (
  omega (arith, allocated_fee_amount-le input leg.fee_amount e, h.0),
  FeesWithin-FeesFit input legs e h.1,
)

module _ (keccak : Keccak) where
  -- Each position's winner is the account in whose interval that position's number falls.
  abbrev pub ChosenAll : Input → ℕ → List ℕ → Type 0
  ChosenAll input position [] = Unit {0}
  ChosenAll input position (w ∷ ws) =
      Chosen input.accounts
        (random_below keccak input.seed input.draw_id position (total_twab input)) 0 w
      × ChosenAll input (suc position) ws

  pick_winners_total :
      (input : Input) (position : ℕ) (tiers : List ℕ)
      → 0 < total_twab input
      → (ws : List ℕ) × (pick_winners keccak input (total_twab input) position tiers ≡ ok ws)
        × (length ws ≡ length tiers)
        × ChosenAll input position ws
  unfolding pick_winners
  pick_winners_total input position [] h = ([], refl, refl, tt)
  pick_winners_total input position (b ∷ tiers) h =
      let (w, run, chosen) =
        pick_winner-Chosen keccak input.accounts input.seed input.draw_id position h in
      let (ws, runs, len, all_chosen) = pick_winners_total input (suc position) tiers h in
      (w ∷ ws, rw (run, runs), ap suc len, (chosen, all_chosen))

  pub build_leaves-pays :
      (input : Input)
      → IsNormal input
      → 0 < total_twab input
      → FeesWithin input.prize_legs
      → (ws : List ℕ) × (leaves : List Leaf) × (build_leaves keccak input ≡ ok (ws, leaves))
        × (length ws ≡ length input.tier_bps)
        × ChosenAll input 0 ws
        × Numbered 0 leaves
        × (total leaves ≡ sum (map (λ l. l.amount) input.prize_legs))
  unfolding build_leaves
  build_leaves-pays input normal p within =
      let fit = FeesWithin-FeesFit input input.prize_legs normal.fees within in
      let (ws, runs, len, chosen) = pick_winners_total input 0 input.tier_bps p in
      let start : Out = record { leaves = []; leaf_index = 0 } in
      let (mid, run, prizes) =
        prize_positions-Paid keccak input 0 input.tier_bps ws start len fit
          (record { numbered = tt; next = refl }) in
      let fees = fee_legs-Paid keccak input input.prize_legs mid prizes.is_numbered in
      let some_twab : (total_twab input == 0) ≡ false = ground arith in
      (
        ws,
        (fee_legs keccak input input.prize_legs mid).leaves,
        rw (some_twab, runs, run),
        len,
        chosen,
        fees.is_numbered.numbered,
        omega (arith, prizes.more, fees.more, paid_total input normal.some_tier normal.tiers fit),
      )

  -- From any input that passes `normalize`, with some TWAB and no leg whose fee passes it, `compute`
  -- returns leaves that pay out every prize leg to the last unit: the positions and the fee
  -- recipients together get the sum of the legs. The leaves carry the numbers 0, 1, 2, ..., none is
  -- empty, and each winner is the account whose interval of the TWABs its hash falls in.
  pub compute-pays :
      (get_address : String → Option ℕ) (raw : RawInput) (input : Input)
      → normalize get_address raw ≡ ok input
      → 0 < total_twab input
      → FeesWithin input.prize_legs
      → (out : Output) × (compute keccak get_address raw ≡ ok out)
        × (total out.leaves ≡ sum (map (λ l. l.amount) input.prize_legs))
        × Numbered 0 out.leaves
        × (length out.winners ≡ length input.tier_bps)
        × ChosenAll input 0 out.winners
  unfolding compute
  compute-pays get_address raw input e p within =
      let (ws, leaves, run, len, chosen, numbered, pays) =
        build_leaves-pays input (normalize-IsNormal get_address raw input e) p within in
      (output keccak input ws leaves, rw (e, run), pays, numbered, len, chosen)
