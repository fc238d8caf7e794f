-- ===== src/Keeper/Loop/Tests.antt =====
-- Runs of the keeper on a toy chain: draw 1 is proposed, its challenge window is over at time 500, and
-- the period of the next draw is over too.
use everdraw.Base.{
  ℕ, ◌+◌, ◌≤◌, ◌<◌, ◌≡◌, refl, true, false, List, [], ◌∷◌, arith, none, ok, err, pos, All, length,
  ◌⊎◌, leb, ltb, ◌||◌, ◌&&◌, if◌then◌else◌, Ascending, copies,
}
use everdraw.Draw.Leaves.{Keccak}
use everdraw.Keeper.Thresholds.{with_defaults}
use everdraw.Keeper.Claims.{missing}
use everdraw.Keeper.Actions.{
  Query, Chain, State, error, rpc_read, on_world, note, answered, submitted, start_draw,
  finalize_root, chain_id, write_chain_id, block_number, timestamp, balance, code_of, wired,
  next_period_start, draw_period, randomness_oracle, oracle_fee, seed_request_timeout,
  primary_proposer, current_draw_id, draw_status, seed_requested_at, challenge_ends_at, is_claimed,
}
use everdraw.Keeper.Actions.Reads.{Outcome, rpc_read_lem}
use everdraw.Keeper.Actions.Trace.{Justified}
use everdraw.Keeper.Lifecycle.{
  Config, ask, send, buffered_oracle_fee, start_due_draw, start_previewed, maybe_start_draw,
  batches,
}
use everdraw.Keeper.Lifecycle.Batches.{join, batches_lem}
use everdraw.Keeper.Settlement.{maybe_finalize}
use everdraw.Keeper.Loop.{Settings, run_once, claim_draw_ids, first_recent_draw_id}
use everdraw.Keeper.Loop.DrawIds.{claim_draw_ids_lem, first_recent_draw_id_lem}
use everdraw.Keeper.Loop.Guards.{run_once-Justified}

abbrev answer : Query → ℕ
answer chain_id = 143
answer write_chain_id = 143
answer block_number = 9
answer timestamp = 500
answer (balance a) = 9_000_000_000_000_000_000
answer (code_of a) = 1
answer (wired g) = 1
answer next_period_start = 300
answer draw_period = 100
answer randomness_oracle = 60
answer (oracle_fee oracle) = 7
answer seed_request_timeout = 50
answer primary_proposer = 0
answer current_draw_id = 1
answer (draw_status d) = 3
answer (seed_requested_at d) = 0
answer (challenge_ends_at d) = 450
answer (is_claimed d i) = 0

abbrev chain : Chain (Unit {0})
chain = record {
  query = λ q w. (ok (answer q), w);
  preview = λ w. (ok (record { due = true; will_skip = false; required_fee = 7 }), w);
  distribution = λ d w. (ok (record { registered_at = 0; leaf_count = 0 }), w);
  submit = λ tx w. (ok 1, w);
  draw_input = λ d w. (err (error "no input"), w);
  python_root = λ input w. (ok (0, 0), w);
  sync_participants = λ block w. (ok tt, w);
}

abbrev keccak : Keccak
keccak = record { encoded_hash = λ types values. 0; packed = λ a b. 0; text_hash = λ text. 0 }

abbrev config : Config
config = record {
  expected_chain_id = 143;
  rpc_retries = 2;
  claim_batch_size = 50;
  signer_address = 5;
  keccak = keccak;
  get_address = λ text. none;
}

abbrev settings : Settings
settings = record {
  config = config;
  addresses = 11 ∷ 12 ∷ [];
  wiring = ("DrawManager.vault", 1) ∷ [];
  thresholds = with_defaults (pos 0) (pos 0) (pos 0);
  recent_claim_window = 5;
  alert_threshold = 3;
  state_key = λ d. "m:c:1";
  now = 500;
}

abbrev start : State (Unit {0})
start = record {
  world = tt;
  log = [];
  attempt = record { state = record { claims = []; file = missing }; failure_pings = 0 };
}

run_once-Justified_example : Justified (run_once chain settings start).1.log
run_once-Justified_example = run_once-Justified chain settings start tt

-- The draw is made final, after what had to be asked.
finalizes :
    (maybe_finalize chain config 1 start).1.log
    ≡ submitted (finalize_root 1)
      ∷ answered write_chain_id 143
      ∷ answered (challenge_ends_at 1) 450
      ∷ answered timestamp 500
      ∷ answered (draw_status 1) 3
      ∷ []
unfolding maybe_finalize ask send rpc_read note
finalizes = refl

starts :
    (maybe_start_draw chain config start).1.log
    ≡ submitted (start_draw 10)
      ∷ answered write_chain_id 143
      ∷ answered draw_period 100
      ∷ answered next_period_start 300
      ∷ answered timestamp 500
      ∷ []
unfolding maybe_start_draw start_previewed start_due_draw buffered_oracle_fee ask send rpc_read note
starts = refl

claim_draw_ids_lem_example :
    Ascending (λ id. id) (claim_draw_ids (2 ∷ 9 ∷ []) 6 10)
    × ((id : ℕ)
        → copies id (claim_draw_ids (2 ∷ 9 ∷ []) 6 10)
          ≡ (if ltb 0 (copies id (2 ∷ 9 ∷ [])) || (leb 6 id && leb id 10) then 1 else 0))
claim_draw_ids_lem_example = claim_draw_ids_lem (2 ∷ 9 ∷ []) 6 10

first_recent_draw_id_lem_example :
    (first : ℕ) × (first_recent_draw_id 10 5 ≡ ok first)
    × (0 < first)
    × (first ≤ 10)
    × ((11 ≡ first + 5) ⊎ ((first ≡ 1) × (10 ≤ 5)))
first_recent_draw_id_lem_example = first_recent_draw_id_lem 10 5 (omega arith) (omega arith)

abbrev pending : List ℕ
pending = 7 ∷ 8 ∷ 9 ∷ []

batches_lem_example :
    (join (batches 2 3 pending) ≡ pending)
    × All (λ b. (0 < length b) × (length b ≤ 2)) (batches 2 3 pending)
batches_lem_example = batches_lem 2 pending (omega arith)

rpc_read_lem_example :
    Outcome
      (on_world (chain.query timestamp))
      "time"
      2
      start
      (rpc_read "time" 2 (on_world (chain.query timestamp)) start)
rpc_read_lem_example = rpc_read_lem (on_world (chain.query timestamp)) "time" 2 start
