-- ===== src/Draw/Input/Tests.antt =====
-- Runs of `normalize` on a small draw.
use text.Mathlib.Text.{◌==◌ as str_eq}
use everdraw.Base.{
  ℕ, ◌≡◌, refl, pos, negsuc, String, Option, none, some, [], ◌∷◌, if◌then◌else◌, sort_by, ok, err,
}
use everdraw.Draw.Input.{
  RawInput, Input, normalize, account, leg, recipient, address, uint, hex32, bytes32_digits,
  bad_bytes32, bad_tiers, negative_uint,
}
use everdraw.Draw.Input.Sorted.{IsNormal, normalize-IsNormal}

abbrev pub addresses : String → Option ℕ
addresses text =
    if str_eq text "0xA1"
    then some 161
    else if str_eq text "0xB2"
    then some 178
    else if str_eq text "0xC3"
    then some 195
    else none

abbrev pub seed : String
seed = "0x00000000000000000000000000000000000000000000000000000000000000Ff"

abbrev pub raw : RawInput
raw = record {
  draw_id = pos 7;
  draw_manager = "0xA1";
  chain_id = pos 143;
  claim_manager = "0xB2";
  seed = seed;
  accounts =
      record { address = "0xC3"; twab = pos 60 }
      ∷ record { address = "0xA1"; twab = pos 0 }
      ∷ record { address = "0xB2"; twab = pos 40 }
      ∷ [];
  prize_legs = record { token = "0xA1"; amount = pos 1001; fee_amount = some (pos 100) } ∷ [];
  tier_bps = some (pos 6000 ∷ pos 4000 ∷ []);
  fee_recipients = some (record { account = "0xC3"; bps = pos 300 } ∷ []);
  total_payout = pos 1001;
}

abbrev pub input : Input
input = record {
  draw_id = 7;
  draw_manager = 161;
  chain_id = 143;
  claim_manager = 178;
  seed = 255;
  accounts = record { address = 178; twab = 40 } ∷ record { address = 195; twab = 60 } ∷ [];
  prize_legs = record { token = 161; amount = 1001; fee_amount = 100 } ∷ [];
  tier_bps = 6000 ∷ 4000 ∷ [];
  fee_recipients = record { account = 195; bps = 300 } ∷ [];
  fee_bps = 300;
  total_payout = 1001;
}

pub normalize-raw : normalize addresses raw ≡ ok input
unfolding normalize account leg recipient address uint hex32 sort_by
normalize-raw = refl

short_seed : hex32 "0x12" ≡ err bad_bytes32
unfolding hex32 bytes32_digits
short_seed = refl

bad_tier_sum : normalize addresses (record raw { tier_bps = some (pos 9999 ∷ []) }) ≡ err bad_tiers
unfolding normalize account leg recipient address uint hex32
bad_tier_sum = refl

negative_twab :
    normalize addresses
      (record raw { accounts = record { address = "0xC3"; twab = negsuc 4 } ∷ [] })
    ≡ err negative_uint
unfolding normalize account leg recipient address uint hex32
negative_twab = refl

normalize-IsNormal_example : IsNormal input
normalize-IsNormal_example = normalize-IsNormal addresses raw input normalize-raw
