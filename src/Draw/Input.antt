-- ===== src/Draw/Input.antt =====
-- scripts/draw/compute-winners.js, `hex32`, `uint` and `normalize`: the draw input as JSON gives it,
-- and as the computation uses it. An address is the number behind its text, for `getAddress`
-- (ethers) writes each address in one way; lower-cased addresses are ordered as these numbers are.
-- A JSON number or numeral is the integer that `BigInt` reads; a text that `BigInt` refuses is not
-- modelled.
pub mod Sorted
pub mod Tests
use everdraw.Base.{
  codes, ℕ, ◌+◌, ◌-◌, ◌*◌, ℤ, pos, negsuc, String, Bool, true, false, ◌&&◌, ◌||◌, not, Option, none,
  some, List, [], ◌∷◌, map, ltb, leb, ◌==◌, if◌then◌else◌, length, keep, sum, sort_by, Result, ok,
  err, ◌>>=◌, ◌>>◌, guard, or_throw, map_result,
}

pub data Error : Type 0 where
  bad_bytes32 negative_uint bad_address bad_tiers winner_search_exhausted out_of_range : Error

pub record RawAccount : Type 0 where
  pub address : String
  pub twab : ℤ

pub record RawLeg : Type 0 where
  pub token : String
  pub amount : ℤ
  pub fee_amount : Option ℤ

pub record RawRecipient : Type 0 where
  pub account : String
  pub bps : ℤ

pub record RawInput : Type 0 where
  pub draw_id : ℤ
  pub draw_manager : String
  pub chain_id : ℤ
  pub claim_manager : String
  pub seed : String
  pub accounts : List RawAccount
  pub prize_legs : List RawLeg
  pub tier_bps : Option (List ℤ)
  pub fee_recipients : Option (List RawRecipient)
  pub total_payout : ℤ

pub record Account : Type 0 where
  pub address : ℕ
  pub twab : ℕ

pub record Leg : Type 0 where
  pub token : ℕ
  pub amount : ℕ
  pub fee_amount : ℕ

pub record Recipient : Type 0 where
  pub account : ℕ
  pub bps : ℕ

pub record Input : Type 0 where
  pub draw_id : ℕ
  pub draw_manager : ℕ
  pub chain_id : ℕ
  pub claim_manager : ℕ
  pub seed : ℕ
  pub accounts : List Account
  pub prize_legs : List Leg
  pub tier_bps : List ℕ
  pub fee_recipients : List Recipient
  pub fee_bps : ℕ
  pub total_payout : ℕ

pub hex_digit : ℕ → Option ℕ
hex_digit c =
    if leb b'0' c && leb c b'9'
    then some (c - b'0')
    else if leb b'a' c && leb c b'f'
    then some (c - 87)
    else if leb b'A' c && leb c b'F'
    then some (c - 55)
    else none

hex_value : ℕ → List ℕ → Option ℕ
hex_value n [] = some n
hex_value n (c ∷ cs) = elim (hex_digit c) [ none ↦ none | some d ↦ hex_value (n * 16 + d) cs ]

pub bytes32_digits : List ℕ → Option ℕ
unfolding hex_value hex_digit
bytes32_digits (c ∷ x ∷ cs) =
    if (c == b'0') && ((x == b'x') && (length cs == 64)) then hex_value 0 cs else none
bytes32_digits _ = none

-- The number that the lower-cased text writes.
pub hex32 : String → Result Error ℕ
unfolding bytes32_digits
hex32 value = or_throw (bytes32_digits (codes value)) bad_bytes32

pub uint : ℤ → Result Error ℕ
uint (pos n) = ok n
uint (negsuc n) = err negative_uint

abbrev pub fee_or_zero : Option ℤ → ℤ
fee_or_zero none = pos 0
fee_or_zero (some n) = n

abbrev pub tiers_or_default : Option (List ℤ) → List ℤ
tiers_or_default none = pos 10000 ∷ []
tiers_or_default (some tiers) = tiers

abbrev pub recipients_or_none : Option (List RawRecipient) → List RawRecipient
recipients_or_none none = []
recipients_or_none (some rs) = rs

-- `getAddress` returns `none` where ethers throws.
module _ (get_address : String → Option ℕ) where
  pub address : String → Result Error ℕ
  address text = or_throw (get_address text) bad_address

  pub account : RawAccount → Result Error Account
  unfolding address uint
  account raw = do
    a ← address raw.address
    twab ← uint raw.twab
    ok (record { address = a; twab = twab })

  pub leg : RawLeg → Result Error Leg
  unfolding address uint
  leg raw = do
    token ← address raw.token
    amount ← uint raw.amount
    fee ← uint (fee_or_zero raw.fee_amount)
    ok (record { token = token; amount = amount; fee_amount = fee })

  pub recipient : RawRecipient → Result Error Recipient
  unfolding address uint
  recipient raw = do
    a ← address raw.account
    bps ← uint raw.bps
    ok (record { account = a; bps = bps })

  pub normalize : RawInput → Result Error Input
  unfolding account leg recipient hex32
  normalize raw = do
    draw_id ← uint raw.draw_id
    draw_manager ← address raw.draw_manager
    chain_id ← uint raw.chain_id
    claim_manager ← address raw.claim_manager
    seed ← hex32 raw.seed
    accounts ← map_result account raw.accounts
    prize_legs ← map_result leg raw.prize_legs
    tier_bps ← map_result uint (tiers_or_default raw.tier_bps)
    fee_recipients ← map_result recipient (recipients_or_none raw.fee_recipients)
    guard (not ((length tier_bps == 0) || not (sum tier_bps == 10000))) bad_tiers
    total_payout ← uint raw.total_payout
    ok (record {
      draw_id = draw_id;
      draw_manager = draw_manager;
      chain_id = chain_id;
      claim_manager = claim_manager;
      seed = seed;
      accounts = sort_by (λ a. a.address) (keep (λ a. ltb 0 a.twab) accounts);
      prize_legs = prize_legs;
      tier_bps = tier_bps;
      fee_recipients = fee_recipients;
      fee_bps = sum (map (λ r. r.bps) fee_recipients);
      total_payout = total_payout;
    })
