-- ===== src/Draw/Input/Sorted.antt =====
-- What holds of an input that `normalize` lets through.
use everdraw.Base.{
  ℕ, ◌<◌, ◌≡◌, refl, not, ◌||◌, Option, List, [], ◌∷◌, map, arith, String, ltb, ◌==◌, length, keep,
  All, sum, All-sort_by, Ascending, sort_by-Ascending, ok, map_result, Ensures, Ensures-bind,
  Ensures-guard, Ensures-elim,
}
use everdraw.Draw.Input.{
  RawInput, Account, Input, bad_tiers, uint, address, account, leg, recipient, hex32, normalize,
  tiers_or_default, recipients_or_none,
}

pub record IsNormal (input : Input) : Type 0 where
  pub some_tier : 0 < length input.tier_bps
  pub tiers : sum input.tier_bps ≡ 10000
  pub fees : input.fee_bps ≡ sum (map (λ r. r.bps) input.fee_recipients)
  pub positive : All (λ a. 0 < a.twab) input.accounts
  pub ascending : Ascending (λ a. a.address) input.accounts

keep-positive : (xs : List Account) → All (λ a. 0 < a.twab) (keep (λ a. ltb 0 a.twab) xs)
keep-positive [] = tt
keep-positive (a ∷ xs) = ground (arith, keep-positive xs)

-- What `normalize` returns has at least one tier, tiers that sum to 10000, the sum of the recipients'
-- shares as its feeBps, and accounts with positive TWAB in the order of their addresses.
pub normalize-IsNormal :
    (get_address : String → Option ℕ) (raw : RawInput) (input : Input)
    → normalize get_address raw ≡ ok input
    → IsNormal input
unfolding normalize
normalize-IsNormal get_address raw input e =
    Ensures-elim IsNormal (normalize get_address raw) input every_input e
  where
    every_input : Ensures IsNormal (normalize get_address raw)
    every_input = Ensures-bind IsNormal (uint raw.draw_id) _ λ draw_id.
        Ensures-bind IsNormal (address get_address raw.draw_manager) _ λ draw_manager.
          Ensures-bind IsNormal (uint raw.chain_id) _ λ chain_id.
            Ensures-bind IsNormal (address get_address raw.claim_manager) _ λ claim_manager.
              Ensures-bind IsNormal (hex32 raw.seed) _ λ seed.
                Ensures-bind IsNormal (map_result (account get_address) raw.accounts) _ λ accounts.
                  Ensures-bind IsNormal (map_result (leg get_address) raw.prize_legs) _
                    λ prize_legs.
                      Ensures-bind IsNormal (map_result uint (tiers_or_default raw.tier_bps)) _
                        λ tier_bps.
                          Ensures-bind IsNormal
                            (map_result (recipient get_address)
                              (recipients_or_none raw.fee_recipients))
                            _
                            λ rs.
                              Ensures-guard IsNormal
                                (not ((length tier_bps == 0) || not (sum tier_bps == 10000)))
                                bad_tiers _
                                λ passed.
                                  Ensures-bind IsNormal (uint raw.total_payout) _ λ total_payout.
                                    record {
                                      some_tier = ground (arith, passed);
                                      tiers = ground (arith, passed);
                                      fees = refl;
                                      positive = All-sort_by _ _ _ (keep-positive accounts);
                                      ascending =
                                          sort_by-Ascending (λ a. a.address) (keep _ accounts);
                                    }
