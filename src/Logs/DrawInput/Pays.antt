-- ===== src/Logs/DrawInput/Pays.antt =====
-- From the contracts' answers to the payouts: an input that is built can be computed with.
use everdraw.Base.{
  ℕ, zero, suc, ◌+◌, ◌*◌, ◌/◌, ◌-◌, ◌≤◌, ◌<◌, ◌≡◌, refl, ap, ◌∙◌, not, ◌||◌, List, [], ◌∷◌, map,
  arith, All, ltb, ◌==◌, if◌then◌else◌, Bool-cases, inl, inr, sum, Ascending, Result, ok, err,
  Ensures, Ensures-then, Ensures-guard, Ensures-elim,
}
use everdraw.Draw.Input.{Account, Input}
use everdraw.Draw.Input.Sorted.{IsNormal}
use everdraw.Draw.Leaves.{Keccak, Leaf, build_leaves, total_twab}
use everdraw.Draw.Leaves.Loops.{total}
use everdraw.Draw.Leaves.Conservation.{FeesWithin, build_leaves-pays}
use everdraw.Draw.Leaves.Amounts.{shares-le-whole}
use everdraw.Logs.DrawInput.{
  BuildError, bad_status, no_seed, twab_mismatch, Draw, twab_or_zero, read_accounts,
  read_recipients, reward_leg, read_rewards, build_draw_input,
}

module _ {E : Type 0} (d : Draw E) where
  -- The accounts are some of the participants, in their order, and each has some TWAB.
  record Chosen (participants : List ℕ) (accounts : List Account) : Type 0 where
    positive : All (λ a. 0 < a.twab) accounts
    bounded : (l : ℕ) → All (λ p. l ≤ p) participants → All (λ a. l ≤ a.address) accounts
    ascending : Ascending (λ p. p) participants → Ascending (λ a. a.address) accounts

  Chosen-more :
      (a value : ℕ) (participants : List ℕ) (rest : List Account)
      → Chosen participants rest
      → Chosen
          (a ∷ participants)
          (if ltb 0 value then record { address = a; twab = value } ∷ rest else rest)
  Chosen-more a value participants rest h = elim (Bool-cases (ltb 0 value)) [
    | inl some ↦ rw some (record {
      positive = (ground (arith, some), h.positive);
      bounded = λ l all. (all.0, h.bounded l all.1);
      ascending = λ asc. (h.bounded a asc.0, h.ascending asc.1);
    })
    | inr none ↦ rw none (record {
      positive = h.positive;
      bounded = λ l all. h.bounded l all.1;
      ascending = λ asc. h.ascending asc.1;
    })
  ]

  read_accounts-Chosen :
      (participants : List ℕ) → Ensures (Chosen participants) (read_accounts d participants)
  unfolding read_accounts
  read_accounts-Chosen [] = record { positive = tt; bounded = λ l all. tt; ascending = λ asc. tt }
  read_accounts-Chosen (a ∷ participants) =
      Ensures-then (λ v. Unit {0}) (Chosen (a ∷ participants)) (twab_or_zero d (d.twab_between a)) _
        (any (twab_or_zero d (d.twab_between a)))
        λ value _.
          Ensures-then (Chosen participants) (Chosen (a ∷ participants))
            (read_accounts d participants) _ (read_accounts-Chosen participants)
            λ rest h. Chosen-more a value participants rest h
    where
      any : (r : Result (BuildError E) ℕ) → Ensures (λ v. Unit {0}) r
      any (ok v) = tt
      any (err e) = tt

  -- What the reward legs pay.
  abbrev pub rewards : (i n : ℕ) → ℕ
  rewards i zero = 0
  rewards i (suc n) = (d.reward_leg_at i).1 + rewards (suc i) n

  sum-read_rewards :
      (fee_bps i n : ℕ) → sum (map (λ l. l.amount) (read_rewards d fee_bps i n)) ≡ rewards i n
  unfolding read_rewards reward_leg
  sum-read_rewards fee_bps i zero = refl
  sum-read_rewards fee_bps i (suc n) =
      ap (λ k. (d.reward_leg_at i).1 + k) (sum-read_rewards fee_bps (suc i) n)

  part-le : (amount bps : ℕ) → bps ≤ 10000 → amount * bps / 10000 ≤ amount
  part-le amount bps le =
      let weights : List ℕ = bps ∷ (10000 - bps) ∷ [] in
      let whole : sum weights ≡ 10000 = omega (arith, le) in
      omega (arith, shares-le-whole amount 10000 weights (omega arith) whole)

  read_rewards-FeesWithin :
      (fee_bps i n : ℕ) → fee_bps ≤ 10000 → FeesWithin (read_rewards d fee_bps i n)
  unfolding read_rewards reward_leg
  read_rewards-FeesWithin fee_bps i zero le = tt
  read_rewards-FeesWithin fee_bps i (suc n) le = (
    ground (arith, part-le (d.reward_leg_at i).1 fee_bps le),
    read_rewards-FeesWithin fee_bps (suc i) n le,
  )

  -- What is known of an input that was built.
  record Built (participants : List ℕ) (input : Input) : Type 0 where
    normal : Ascending (λ p. p) participants → IsNormal input
    twab : total_twab input ≡ d.total_twab
    within :
        d.fee_amount ≤ d.total_payout
        → sum (map (λ r. r.bps) (read_recipients d 0 d.fee_recipient_count)) ≤ 10000
        → FeesWithin input.prize_legs
    legs :
        sum (map (λ l. l.amount) input.prize_legs) ≡ d.total_payout + rewards 0 d.reward_leg_count

  build_draw_input-Built :
      (participants : List ℕ) → Ensures (Built participants) (build_draw_input d participants)
  unfolding build_draw_input
  build_draw_input-Built participants =
      Ensures-guard (Built participants) ((d.status == 2) || ((d.status == 3) || (d.status == 4)))
        bad_status _
        λ _. Ensures-guard (Built participants) (not (d.seed == 0)) no_seed _ λ _.
          Ensures-then (Chosen participants) (Built participants) (read_accounts d participants) _
            (read_accounts-Chosen participants)
            λ accounts h.
              Ensures-guard (Built participants) (sum (map (λ a. a.twab) accounts) == d.total_twab)
                twab_mismatch _
                λ same.
                  let fee_bps =
                    sum (map (λ r. r.bps) (read_recipients d 0 d.fee_recipient_count)) in
                  record {
                    normal = λ asc. record {
                      some_tier = omega arith;
                      tiers = refl;
                      fees = refl;
                      positive = h.positive;
                      ascending = h.ascending asc;
                    };
                    twab = ground (arith, same);
                    within =
                        λ fee bps. (fee, read_rewards-FeesWithin fee_bps 0 d.reward_leg_count bps);
                    legs =
                        ap (λ k. d.total_payout + k)
                          (sum-read_rewards fee_bps 0 d.reward_leg_count);
                  }

-- Let an input be built from participants in the order of their addresses, for a draw with some TWAB
-- whose fee does not pass its payout and whose recipients get at most the whole in basis points. Then
-- the draw can be computed from it, over the very TWAB that the contract has for it, and the leaves
-- pay exactly the draw's payout and its rewards.
pub build_draw_input-pays :
    {E : Type 0} (d : Draw E) (keccak : Keccak) (participants : List ℕ) (input : Input)
    → build_draw_input d participants ≡ ok input
    → Ascending (λ p. p) participants
    → 0 < d.total_twab
    → d.fee_amount ≤ d.total_payout
    → sum (map (λ r. r.bps) (read_recipients d 0 d.fee_recipient_count)) ≤ 10000
    → (ws : List ℕ) × (leaves : List Leaf) × (build_leaves keccak input ≡ ok (ws, leaves))
      × (total_twab input ≡ d.total_twab)
      × (total leaves ≡ d.total_payout + rewards d 0 d.reward_leg_count)
build_draw_input-pays d keccak participants input run asc some_twab fee bps =
    let built =
      Ensures-elim (Built d participants) (build_draw_input d participants) input
        (build_draw_input-Built d participants) run in
    let (ws, leaves, ran, len, chosen, numbered, pays) =
      build_leaves-pays keccak input (built.normal asc) (omega (arith, built.twab, some_twab))
        (built.within fee bps) in
    (ws, leaves, ran, built.twab, pays ∙ built.legs)
