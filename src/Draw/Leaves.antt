-- ===== src/Draw/Leaves.antt =====
-- scripts/draw/compute-winners.js, `pickWinner`, `buildLeaves`, `allocatedFeeAmount` and `compute`.
-- The hashes of ethers are the fields of `Keccak`; a bytes32 is a number.
pub mod Winner
pub mod Loops
pub mod Amounts
pub mod Conservation
mod Tests
use everdraw.Base.{
  ℕ, suc, ◌+◌, ◌-◌, ◌*◌, ◌/◌, ◌%◌, String, Bool, true, false, ◌||◌, Option, none, some, List, [],
  ◌∷◌, ◌++◌, map, ltb, ◌==◌, if◌then◌else◌, length, get_or, sum, Result, ok, err, ◌>>=◌, map_result,
}
use everdraw.Draw.Input.{
  RawInput, Account, Leg, Recipient, Input, Error, normalize, winner_search_exhausted, out_of_range,
}
use everdraw.Draw.Merkle.{merkle_root, merkle_proofs}

-- `encoded_hash` is keccak256 of `AbiCoder.encode(types, values)`, `packed` that of two packed
-- words, `text_hash` that of a text's UTF-8.
pub record Keccak : Type 0 where
  pub encoded_hash : List String → List ℕ → ℕ
  pub packed : ℕ → ℕ → ℕ
  pub text_hash : String → ℕ

-- The first account whose running total passes `r`.
pub scan : List Account → ℕ → ℕ → Result Error ℕ
scan [] r cumulative = err winner_search_exhausted
scan (a ∷ accounts) r cumulative =
    if ltb r (cumulative + a.twab) then ok a.address else scan accounts r (cumulative + a.twab)

pub allocated_fee_amount : Input → ℕ → ℕ
allocated_fee_amount input fee_amount =
    if (input.fee_bps == 0) || (fee_amount == 0)
    then 0
    else sum (map (λ r. fee_amount * r.bps / input.fee_bps) input.fee_recipients)

pub winner_pool : Input → Leg → ℕ
winner_pool input leg = leg.amount - allocated_fee_amount input leg.fee_amount

-- What one position wins of one leg; what the divisions leave over goes to the first.
pub prize_amount : Input → Leg → ℕ → ℕ → ℕ
prize_amount input leg position bps =
    let pool = winner_pool input leg in
    let floor_sum = sum (map (λ b. pool * b / 10000) input.tier_bps) in
    let dust = if position == 0 then pool - floor_sum else 0 in pool * bps / 10000 + dust

pub data Position : Type 0 where
  tier : ℕ → Position
  fee : Position

pub record Leaf : Type 0 where
  pub leaf_index : ℕ
  pub position : Position
  pub account : ℕ
  pub token : ℕ
  pub amount : ℕ
  pub kind : ℕ
  pub leaf : ℕ

-- The loops' variables.
pub record Out : Type 0 where
  pub leaves : List Leaf
  pub leaf_index : ℕ

abbrev pub total_twab : Input → ℕ
total_twab input = sum (map (λ a. a.twab) input.accounts)

module _ (keccak : Keccak) where
  pub pick_winner : List Account → ℕ → ℕ → ℕ → ℕ → Result Error ℕ
  pick_winner accounts total_twab seed draw_id position =
      let r =
        keccak.encoded_hash ("bytes32" ∷ "uint256" ∷ "uint256" ∷ [])
          (seed ∷ draw_id ∷ position ∷ [])
        % total_twab in
      scan accounts r 0

  -- `leaf = encodedHash(...); leaves.push({...}); leafIndex++`.
  pub push_leaf : Input → Position → ℕ → ℕ → ℕ → ℕ → Out → Out
  push_leaf input position account token amount kind out =
      let distribution_id =
        keccak.encoded_hash ("address" ∷ "uint256" ∷ [])
          (input.draw_manager ∷ input.draw_id ∷ []) in
      let types : List String =
        "bytes32" ∷ "uint256" ∷ "uint256" ∷ "address" ∷ "bytes32" ∷ "uint256" ∷ "address"
        ∷ "address" ∷ "uint256" ∷ "uint8" ∷ [] in
      let leaf = keccak.encoded_hash types (
        keccak.text_hash "everdraw-v5-claim-leaf/3"
        ∷ 3
        ∷ input.chain_id
        ∷ input.claim_manager
        ∷ distribution_id
        ∷ out.leaf_index
        ∷ account
        ∷ token
        ∷ amount
        ∷ kind
        ∷ []) in
      let pushed : Leaf = record {
        leaf_index = out.leaf_index;
        position = position;
        account = account;
        token = token;
        amount = amount;
        kind = kind;
        leaf = leaf;
      } in
      record { leaves = out.leaves ++ pushed ∷ []; leaf_index = suc out.leaf_index }

  -- One round of the loop over the legs, for one position. Where the fees pass the leg the pool is
  -- negative, and ethers refuses to encode one of its amounts.
  pub prize_leg : Input → ℕ → ℕ → ℕ → ℕ → Leg → Out → Result Error Out
  prize_leg input position bps winner leg_index leg out =
      if ltb leg.amount (allocated_fee_amount input leg.fee_amount)
      then err out_of_range
      else let amount = prize_amount input leg position bps in
        ok (
          if amount == 0
          then out
          else push_leaf input (tier position) winner leg.token amount
              (if leg_index == 0 then 0 else 2) out)

  pub prize_legs : Input → ℕ → ℕ → ℕ → ℕ → List Leg → Out → Result Error Out
  prize_legs input position bps winner leg_index [] out = ok out
  prize_legs input position bps winner leg_index (leg ∷ legs) out = do
    out' ← prize_leg input position bps winner leg_index leg out
    prize_legs input position bps winner (suc leg_index) legs out'

  -- `for (position …)`: the winners and their tiers side by side.
  pub prize_positions : Input → ℕ → List ℕ → List ℕ → Out → Result Error Out
  prize_positions input position (bps ∷ tiers) (winner ∷ winners) out = do
    out' ← prize_legs input position bps winner 0 input.prize_legs out
    prize_positions input (suc position) tiers winners out'
  prize_positions input position _ _ out = ok out

  pub fee_leg : Input → Leg → List Recipient → Out → Out
  fee_leg input leg [] out = out
  fee_leg input leg (r ∷ rs) out =
      let amount = leg.fee_amount * r.bps / input.fee_bps in
      fee_leg input leg rs
        (if amount == 0 then out else push_leaf input fee r.account leg.token amount 1 out)

  pub fee_legs : Input → List Leg → Out → Out
  fee_legs input [] out = out
  fee_legs input (leg ∷ legs) out = fee_legs input legs (
      if (input.fee_bps == 0) || (leg.fee_amount == 0)
      then out
      else fee_leg input leg input.fee_recipients out)

  -- `input.tierBps.map((_, position) => pickWinner(...))`.
  pub pick_winners : Input → ℕ → ℕ → List ℕ → Result Error (List ℕ)
  pick_winners input total_twab position [] = ok []
  pick_winners input total_twab position (_ ∷ tiers) = do
    w ← pick_winner input.accounts total_twab input.seed input.draw_id position
    ws ← pick_winners input total_twab (suc position) tiers
    ok (w ∷ ws)

  -- `winners` and `leaves` of what `buildLeaves` returns.
  pub build_leaves : Input → Result Error (List ℕ × List Leaf)
  build_leaves input = if total_twab input == 0 then ok ([], []) else do
    winners ← pick_winners input (total_twab input) 0 input.tier_bps
    out ← prize_positions input 0 input.tier_bps winners (record { leaves = []; leaf_index = 0 })
    ok (winners, (fee_legs input input.prize_legs out).leaves)

-- What `compute` returns; the proofs stand beside the leaves, in their order.
pub record Output : Type 0 where
  pub root : Option ℕ
  pub total_twab : ℕ
  pub total_payout : ℕ
  pub leaf_count : ℕ
  pub winner_count : ℕ
  pub winners : List ℕ
  pub leaves : List Leaf
  pub proofs : Option (List (List ℕ))

abbrev pub output : Keccak → Input → List ℕ → List Leaf → Output
output keccak input winners leaves = record {
  root = merkle_root keccak.packed (map (λ l. l.leaf) leaves);
  total_twab = total_twab input;
  total_payout = input.total_payout;
  leaf_count = length leaves;
  winner_count = length leaves;
  winners = winners;
  leaves = leaves;
  proofs = merkle_proofs keccak.packed (map (λ l. l.leaf) leaves);
}

pub compute : Keccak → (String → Option ℕ) → RawInput → Result Error Output
compute keccak get_address raw = do
  input ← normalize get_address raw
  result ← build_leaves keccak input
  ok (output keccak input result.0 result.1)
