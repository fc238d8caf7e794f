-- ===== src/Logs/DrawInput.antt =====
-- scripts/draw/write-watch-inputs.mjs, `buildDrawInput`, and scripts/draw/reconstruct-watcher-input.mjs,
-- `buildWatcherDrawInput`, which read the same: the draw's input, from what the contracts answer.
-- `getTwabBetween` may throw; the other reads are given by their answers. Texts of numbers and
-- addresses are the numbers, so that the input stands as `normalize` reads it back.
pub mod Pays
use everdraw.Base.{
  ℕ, zero, suc, ◌+◌, ◌*◌, ◌/◌, Bool, true, false, not, ◌||◌, List, [], ◌∷◌, map, ltb, ◌==◌,
  if◌then◌else◌, sum, length, Result, ok, err, ◌>>=◌, ◌>>◌, guard,
}
use everdraw.Draw.Input.{Account, Leg, Recipient, Input}

pub data BuildError (E : Type 0) : Type 0 where
  bad_status no_seed twab_mismatch : BuildError E
  thrown : E → BuildError E

-- What `draws(drawId)` and the other calls answer.
pub record Draw (E : Type 0) : Type 0 where
  pub draw_id : ℕ
  pub draw_manager : ℕ
  pub chain_id : ℕ
  pub claim_manager : ℕ
  pub status : ℕ
  pub seed : ℕ
  pub total_twab : ℕ
  pub total_payout : ℕ
  pub fee_amount : ℕ
  pub payout_token : ℕ
  pub fee_recipient_count : ℕ
  pub fee_recipient_at : ℕ → Recipient
  pub reward_leg_count : ℕ
  pub reward_leg_at : ℕ → ℕ × ℕ
  pub twab_between : (account : ℕ) → Result E ℕ
  pub is_insufficient_history : E → Bool

module _ {E : Type 0} (d : Draw E) where
  -- An account whose history begins after the period has no TWAB in it.
  unfoldable pub twab_or_zero : Result E ℕ → Result (BuildError E) ℕ
  twab_or_zero (ok value) = ok value
  twab_or_zero (err e) = if d.is_insufficient_history e then ok 0 else err (thrown e)

  unfoldable pub read_accounts : List ℕ → Result (BuildError E) (List Account)
  read_accounts [] = ok []
  read_accounts (a ∷ participants) = do
    value ← twab_or_zero (d.twab_between a)
    rest ← read_accounts participants
    ok (if ltb 0 value then record { address = a; twab = value } ∷ rest else rest)

  -- The recipients from `i` on, `n` of them.
  unfoldable pub read_recipients : (i n : ℕ) → List Recipient
  read_recipients i zero = []
  read_recipients i (suc n) = d.fee_recipient_at i ∷ read_recipients (suc i) n

  unfoldable pub reward_leg : (fee_bps : ℕ) → ℕ × ℕ → Leg
  reward_leg fee_bps (token, amount) = record {
    token = token;
    amount = amount;
    fee_amount = if fee_bps == 0 then 0 else amount * fee_bps / 10000;
  }

  unfoldable pub read_rewards : (fee_bps i n : ℕ) → List Leg
  read_rewards fee_bps i zero = []
  read_rewards fee_bps i (suc n) =
      reward_leg fee_bps (d.reward_leg_at i) ∷ read_rewards fee_bps (suc i) n

  unfoldable pub build_draw_input : (participants : List ℕ) → Result (BuildError E) Input
  build_draw_input participants = do
    guard ((d.status == 2) || ((d.status == 3) || (d.status == 4))) bad_status
    guard (not (d.seed == 0)) no_seed
    accounts ← read_accounts participants
    guard (sum (map (λ a. a.twab) accounts) == d.total_twab) twab_mismatch
    let recipients = read_recipients 0 d.fee_recipient_count
    let fee_bps = sum (map (λ r. r.bps) recipients)
    ok (record {
      draw_id = d.draw_id;
      draw_manager = d.draw_manager;
      chain_id = d.chain_id;
      claim_manager = d.claim_manager;
      seed = d.seed;
      accounts = accounts;
      prize_legs =
          record { token = d.payout_token; amount = d.total_payout; fee_amount = d.fee_amount }
          ∷ read_rewards fee_bps 0 d.reward_leg_count;
      tier_bps = 10000 ∷ [];
      fee_recipients = recipients;
      fee_bps = fee_bps;
      total_payout = d.total_payout;
    })

-- The watcher reads by code of its own that does the same.
abbrev pub build_watcher_draw_input : {E : Type 0} → Draw E → List ℕ → Result (BuildError E) Input
build_watcher_draw_input d participants = build_draw_input d participants
