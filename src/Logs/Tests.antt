-- ===== src/Logs/Tests.antt =====
-- Runs of the log reader: a provider that serves two blocks at most, with one log in each block.
use everdraw.Base.{
  none, negsuc, includes, lower, Result, sum, map, ℕ, ◌+◌, ◌*◌, ◌==◌, ◌<◌, ◌≤◌, ◌≡◌, refl, Bool,
  true, false, not, ◌&&◌, ◌||◌, List, [], ◌∷◌, arith, All, ltb, if◌then◌else◌, some, ok, err,
  Ascending, copies,
}
use everdraw.Draw.Input.{Input}
use everdraw.Draw.Leaves.{Keccak, Leaf, build_leaves, total_twab}
use everdraw.Draw.Leaves.Loops.{total}
use everdraw.Logs.DrawInput.{
  Draw, twab_or_zero, read_accounts, read_recipients, reward_leg, read_rewards, build_draw_input,
}
use everdraw.Logs.DrawInput.Pays.{build_draw_input-pays}
use everdraw.Logs.Cache.{
  Cache, Scope, unscanned, fresh, out_of_scope, scan_from, ensure_scope, is_canonical,
  ensure_canonical,
}
use everdraw.Logs.Cache.Canonical.{Canonical, ensure_canonical_lem}
use everdraw.Logs.Retries.{is_range_limit_error, is_transient_error, transient_code, get_logs_range}
use everdraw.Logs.Retries.Complete.{get_logs_range-Faithful}
use everdraw.Logs.Ranges.{Provider, windows, get_logs_range_direct}
use everdraw.Logs.Ranges.Windows.{between, covered, windows-covered}
use everdraw.Logs.Ranges.Complete.{
  logs_of, Faithful, Answer, Honest, get_logs_range_direct-Faithful,
}
use everdraw.Logs.Search.{First, block_at_or_after_timestamp, block_at_or_after_timestamp-First}
use everdraw.Logs.Accounts.{
  Log, deposit, transfer, participant_accounts_from_logs, participant_accounts_from_logs_lem,
  times_named,
}

windows-covered_example :
    (covered (windows 1000 4 7 17) ≡ between 7 17)
    × All (λ w. (w.0 ≤ w.1) × (w.1 < w.0 + 4)) (windows 1000 4 7 17)
windows-covered_example = windows-covered 1000 4 7 17 (omega arith)

-- The log of a block is the block's number.
abbrev block_logs : ℕ → List ℕ
block_logs b = b ∷ []

-- The only error is that the range is too wide.
abbrev provider : Provider (Unit {0}) Bool ℕ
provider = record {
  get_logs = λ from to w.
      ((if ltb (from + 1) to then err true else ok (logs_of block_logs (between from to))), w);
  is_range_limit = λ e. e;
  is_transient = λ e. false;
}

toy-Answer :
    (wide : Bool) (from to : ℕ) (w : Unit {0})
    → Answer {W = Unit {0}} {E = Bool} block_logs from to
        ((if wide then err true else ok (logs_of block_logs (between from to))), w)
toy-Answer true from to w = tt
toy-Answer false from to w = refl

provider-Honest : Honest {W = Unit {0}} {E = Bool} block_logs provider
provider-Honest from to w = toy-Answer (ltb (from + 1) to) from to w

get_logs_range_direct-Faithful_example :
    Faithful block_logs (between 10 14) (get_logs_range_direct provider 3 5 10 14 tt)
get_logs_range_direct-Faithful_example =
    get_logs_range_direct-Faithful block_logs provider provider-Honest 3 5 10 14 tt (omega arith)
      (omega arith) (omega arith)

-- Blocks come every two seconds.
abbrev time : ℕ → ℕ
time b = 2 * b

block_at_or_after_timestamp-First_example :
    (block : ℕ) × (block_at_or_after_timestamp {E = Bool} (λ b. ok (some (time b))) 31 10 40
      ≡ ok block)
    × First {E = Bool} (λ b. ok (some (time b))) 31 time 10 40 block
block_at_or_after_timestamp-First_example =
    block_at_or_after_timestamp-First {E = Bool} (λ b. ok (some (time b))) 31 time (λ b. refl)
      (λ a b le. omega (arith, le)) 10 40 (omega arith) (omega arith)

abbrev logs : List Log
logs =
    record { block_number = 12; log_index = 0; event = transfer 7 9 }
    ∷ record { block_number = 11; log_index = 4; event = deposit 7 }
    ∷ record { block_number = 11; log_index = 2; event = transfer 0 3 }
    ∷ []

participant_accounts_from_logs_lem_example :
    Ascending (λ a. a) (participant_accounts_from_logs logs (8 ∷ []))
    × ((a : ℕ)
        → copies a (participant_accounts_from_logs logs (8 ∷ [])) ≡ (
            if (not (a == 0) && ltb 0 (times_named a logs)) || ltb 0 (copies a (8 ∷ []))
            then 1
            else 0))
participant_accounts_from_logs_lem_example = participant_accounts_from_logs_lem logs (8 ∷ [])

-- A seeded draw of 1000 with a fee of 100 and a reward of 60; account 5 has no history.
abbrev draw : Draw Bool
draw = record {
  draw_id = 7;
  draw_manager = 161;
  chain_id = 143;
  claim_manager = 178;
  status = 2;
  seed = 255;
  total_twab = 100;
  total_payout = 1000;
  fee_amount = 100;
  payout_token = 20;
  fee_recipient_count = 1;
  fee_recipient_at = λ i. record { account = 9; bps = 500 };
  reward_leg_count = 1;
  reward_leg_at = λ i. (21, 60);
  twab_between = λ a. if a == 5 then err true else ok 50;
  is_insufficient_history = λ e. e;
}

abbrev built : Input
built = record {
  draw_id = 7;
  draw_manager = 161;
  chain_id = 143;
  claim_manager = 178;
  seed = 255;
  accounts = record { address = 3; twab = 50 } ∷ record { address = 8; twab = 50 } ∷ [];
  prize_legs =
      record { token = 20; amount = 1000; fee_amount = 100 }
      ∷ record { token = 21; amount = 60; fee_amount = 3 }
      ∷ [];
  tier_bps = 10000 ∷ [];
  fee_recipients = record { account = 9; bps = 500 } ∷ [];
  fee_bps = 500;
  total_payout = 1000;
}

build-draw : build_draw_input draw (3 ∷ 5 ∷ 8 ∷ []) ≡ ok built
unfolding build_draw_input read_accounts twab_or_zero read_recipients read_rewards reward_leg
build-draw = refl

read_recipients-draw : sum (map (λ r. r.bps) (read_recipients draw 0 1)) ≤ 10000
unfolding read_recipients
read_recipients-draw = omega arith

abbrev toy : Keccak
toy = record {
  encoded_hash = λ types values. sum values;
  packed = λ a b. a + b;
  text_hash = λ text. 11;
}

build_draw_input-pays_example :
    (ws : List ℕ) × (leaves : List Leaf) × (build_leaves toy built ≡ ok (ws, leaves))
    × (total_twab built ≡ 100)
    × (total leaves ≡ 1060)
build_draw_input-pays_example =
    build_draw_input-pays draw toy (3 ∷ 5 ∷ 8 ∷ []) built build-draw
      ((omega arith, (omega arith, tt)), ((omega arith, tt), (tt, tt))) (omega arith) (omega arith)
      read_recipients-draw

-- A provider that always says that it is busy, next to the one that serves two blocks.
abbrev busy : Provider (Unit {0}) Bool ℕ
busy = record {
  get_logs = λ from to w. (err false, w);
  is_range_limit = λ e. e;
  is_transient = λ e. true;
}

get_logs_range-Faithful_example :
    Faithful block_logs (between 10 14) (get_logs_range busy provider false 3 5 10 14 tt)
get_logs_range-Faithful_example =
    get_logs_range-Faithful block_logs busy provider false 3 5 10 14 tt (λ from to w. tt)
      provider-Honest (omega arith) (omega arith) (omega arith)

-- The block of the seeds' scan has another hash now.
abbrev hashes : ℕ → Result Bool ℕ
hashes b = if b == 90 then ok 900 else ok 555

abbrev cached : Cache
cached = record {
  chain_id = 143;
  draw_manager_address = 161;
  vault_address = 20;
  from_block = 50;
  participants = record {
    last_scanned_block = 90;
    last_scanned_block_hash = 900;
    found = 3 ∷ 8 ∷ [];
  };
  seeds = record { last_scanned_block = 80; last_scanned_block_hash = 800; found = (7, 75) ∷ [] };
}

abbrev scope : Scope
scope = record { chain_id = 143; draw_manager_address = 161; vault_address = 20; from_block = 50 }

abbrev emptied : Cache
emptied = record {
  chain_id = 143;
  draw_manager_address = 161;
  vault_address = 20;
  from_block = 50;
  participants = record { last_scanned_block = 49; last_scanned_block_hash = 0; found = [] };
  seeds = record { last_scanned_block = 49; last_scanned_block_hash = 0; found = [] };
}

reorganised : ensure_canonical hashes 161 scope cached ≡ ok (emptied, false)
unfolding ensure_canonical ensure_scope is_canonical out_of_scope scan_from unscanned fresh
reorganised = refl

ensure_canonical_lem_example : Canonical hashes scope emptied false
ensure_canonical_lem_example =
    ensure_canonical_lem hashes 161 scope cached emptied false reorganised

text_errors :
    (is_range_limit_error
        (record { text = "eth_getLogs is limited to a 100 Blocks range"; code = none })
      ≡ true)
    × (is_transient_error (record { text = "oops"; code = some (negsuc 32004) }) ≡ true)
    × (is_transient_error (record { text = "execution reverted"; code = none }) ≡ false)
unfolding is_range_limit_error is_transient_error transient_code includes lower
text_errors = (refl, refl, refl)
