-- ===== src/Watcher/Tests.antt =====
-- The watcher on a small chain, and the theorems there. Draw 1 has its seed in block 5 and its
-- proposal in block 6; account 9 holds the whole vault.
use everdraw.Base.{
  ℕ, ◌+◌, ◌≡◌, inl, refl, String, true, false, none, some, List, [], ◌∷◌, arith, leb, ◌≤◌, ◌≤◌,
  ◌==◌, if◌then◌else◌, ok, add_id, add_ids, find, assign, map_values, sort_by, insert_by, keep,
  ◌&&◌,
}
use everdraw.Logs.Accounts.{add_account}
use everdraw.Logs.DrawInput.{
  Draw, build_draw_input, read_accounts, twab_or_zero, read_recipients, reward_leg, read_rewards,
}
use everdraw.Logs.Ranges.{Provider, attempts_left, get_logs_range_direct, windows, windows_from}
use everdraw.Logs.Retries.{get_logs_range, retry_transient}
use everdraw.Watcher.Actions.{give, throw, throw_if, or_fail, when, update, read, each, collect}
use everdraw.Watcher.Events.{
  WatchEvent, WatchLog, transfer, seed_received, root_proposed, sort_logs,
}
use everdraw.Watcher.Batches.{
  ends_of, flatten, last_of, batches_of, canonical_hash, canonical_block_hashes, check_boundary,
  check_log, assert_canonical_log_batch, scan_batch, query_logs_chunked,
}
use everdraw.Watcher.Cache.{
  CacheState, empty_state, read_state, evidence_matches, root_needs_independent_verification,
  mark_verified, verified_root, historical_finalized_root, integrity_verified_root,
  finalization_handled,
}
use everdraw.Watcher.Cache.Incidents.{active_coverage_incidents, values}
use everdraw.Watcher.Node.{Node, Config, Run, call, clock, security_range, head_range, save, note}
use everdraw.Watcher.Sync.{
  reconstruct_event, reconstruct, ingest_watcher_reconstruction_logs, record_event, record_logs,
  ingest_batch, events_of, evidence_of, check_canonical, ensure_canonical, sync_batch, scan_through,
  sync_through, assert_event, assert_evidence_canonical,
}
use everdraw.Watcher.Verify.{
  challenge_deadline_mismatch, proposal_coverage_failure, return, alarm, mismatch,
  read_security_provider, validate_security_provider, proposal_evidence_of, recomputed_root,
  verify_independent_root, check_timing, verify_proposal,
}
use everdraw.Watcher.Round.{
  Current, Report, can_checkpoint_batch, should_enforce_live_window, in_scope, known_root,
  first_block, canonical_checkpoint_matches, asked_hash, write_state, tell_change, on_proposal,
  on_finalization, reconstruct_logs, on_batch, scan, verify_needed, needs_verification,
  verify_current, look_at_draw, look_at_current, handle_incidents, check_current, finish, watch,
  if_canonical, new_process, open_cache, resume, run_process, main,
}
use everdraw.Watcher.Invariant.{Filed, Orderly, Written, last_checkpoint}
use everdraw.Watcher.Round.Health.{IsProven}
use everdraw.Logs.Cache.{Scope}
use everdraw.Logs.Ranges.Complete.{logs_of}
use everdraw.Logs.Ranges.Windows.{between}
use everdraw.Watcher.Actions.Keeps.{Ends}
use everdraw.Watcher.Cache.{Evidence}
use everdraw.Watcher.Cache.Incidents.{Identity, record_coverage_incident}
use everdraw.Watcher.Cache.Incidents.Open.{of_draw}
use everdraw.Watcher.States.{here, next, recording, active_coverage_incidents-Reach}
use everdraw.Watcher.Sync.Refines.{Refines, Scanned, sync_through-Refines}
use everdraw.Watcher.Actions.Gives.{Gives}
use everdraw.Watcher.Round.Quiet.{Quiet}
use everdraw.Watcher.Round.Quiet.CatchUp.{runs, main-Returned}
use everdraw.Watcher.Round.Quiet.Resume.{Next, Returned}
use everdraw.Watcher.Round.Main.{main-Proven, main-IsSafe}

abbrev log : ℕ → ℕ → ℕ → WatchEvent → WatchLog
log address block index event = record {
  address = address;
  block_number = block;
  block_hash = block + 100;
  index = index;
  event = event;
}

abbrev chain_logs : List WatchLog
chain_logs =
    log 20 5 1 (seed_received 1 55)
    ∷ log 30 5 0 (transfer 0 9)
    ∷ log 20 6 0 (root_proposed 1 77 900)
    ∷ []

abbrev toy_provider : Provider ℕ String WatchLog
toy_provider = record {
  get_logs = λ from to w.
      (ok (keep (λ l. leb from l.block_number && leb l.block_number to) chain_logs), w);
  is_range_limit = λ e. false;
  is_transient = λ e. false;
}

abbrev toy_draw : Draw String
toy_draw = record {
  draw_id = 0;
  draw_manager = 0;
  chain_id = 10143;
  claim_manager = 40;
  status = 3;
  seed = 55;
  total_twab = 100;
  total_payout = 10;
  fee_amount = 0;
  payout_token = 50;
  fee_recipient_count = 0;
  fee_recipient_at = λ i. record { account = 0; bps = 0 };
  reward_leg_count = 0;
  reward_leg_at = λ i. (0, 0);
  twab_between = λ a. ok (if a == 9 then 100 else 0);
  is_insufficient_history = λ e. false;
}

abbrev toy_node : Node ℕ
toy_node = record {
  head_chain_id = λ w. (ok 10143, w);
  security_chain_id = λ w. (ok 10143, w);
  head_has_code = λ w. (ok true, w);
  security_has_code = λ w. (ok true, w);
  head_number = λ w. (ok 6, w);
  head_block_hash = λ b w. (ok (some (b + 100)), w);
  fast_logs = toy_provider;
  head_logs = toy_provider;
  security_logs = toy_provider;
  vault = λ w. (ok 30, w);
  challenge_ends_at = λ d w. (ok 900, w);
  current_draw_id = λ w. (ok 1, w);
  draw = λ d w. (ok (record { root = 77; status = 3 }), w);
  draw_answers = λ d b w. (ok toy_draw, w);
  recompute = λ i. ok 77;
  fingerprint = λ i. 0;
  now = λ w. (w, w);
  alarm = λ a w. (ok tt, w);
  notify = λ a w. (ok tt, w);
  post_proofs = λ d r w. (ok 200, w);
  ping_health = λ w. w;
}

abbrev toy_config : Config
toy_config = record {
  expected_chain_id = 10143;
  draw_manager_address = 20;
  prize_vault = 30;
  from_block = 5;
  max_blocks_per_run = 10;
  max_log_lookback = 1000;
  chunk_size = 10;
  independent_chunk_size = 10;
  concurrency = 1;
  use_caller_logs = true;
  attempts = 3;
  min_veto_remaining = 300;
  can_publish = true;
  require_publish = true;
  acknowledged = [];
}

abbrev first_run : Run ℕ
first_run = record {
  world = 500;
  cache = record {
    scope = record { chain_id = 0; draw_manager_address = 0; vault_address = 0; from_block = 0 };
    last_scanned_block = 0;
    last_scanned_block_hash = 0;
    participant_accounts = [];
    seed_blocks = [];
    seed_evidence = [];
    proposals = [];
    finalizations = [];
    verified_roots = [];
    historical_finalized_roots = [];
    coverage_incidents = [];
    published_finalizations = [];
  };
  independent_file = none;
  state_file = none;
  log = [];
  validated = false;
  checked = 0;
  accounts = [];
  seed_blocks = [];
  last_checkpoint_hash = 0;
  coverage_failures = [];
  root_mismatches = [];
}

abbrev current : Current
current = record { draw_id = 1; root = 77; status = 3 }

abbrev report : Report
report = record { run_end = 6; latest = 6; current = some current }

-- What a process leaves that begins with no files.
abbrev after_run : Run ℕ
after_run = (main toy_node toy_config first_run).1

proposal_verified : main toy_node toy_config first_run ≡ (ok report, after_run)
unfolding main run_process new_process open_cache resume if_canonical in_scope first_block
    should_enforce_live_window watch scan on_batch reconstruct_logs on_proposal on_finalization
    tell_change look_at_current look_at_draw verify_current verify_needed needs_verification
    known_root handle_incidents check_current finish write_state canonical_checkpoint_matches
    asked_hash can_checkpoint_batch verify_proposal check_timing verify_independent_root
    recomputed_root proposal_evidence_of validate_security_provider read_security_provider mismatch
    alarm return challenge_deadline_mismatch proposal_coverage_failure assert_evidence_canonical
    assert_event sync_through scan_through sync_batch ensure_canonical check_canonical events_of
    evidence_of ingest_batch record_logs record_event ingest_watcher_reconstruction_logs reconstruct
    reconstruct_event call clock security_range head_range save note active_coverage_incidents
    values empty_state read_state evidence_matches root_needs_independent_verification mark_verified
    verified_root historical_finalized_root integrity_verified_root finalization_handled ends_of
    flatten last_of batches_of canonical_hash canonical_block_hashes check_boundary check_log
    assert_canonical_log_batch scan_batch query_logs_chunked sort_logs give throw throw_if or_fail
    when update read each collect get_logs_range retry_transient attempts_left get_logs_range_direct
    windows windows_from build_draw_input read_accounts twab_or_zero read_recipients reward_leg
    read_rewards add_account add_id add_ids find assign map_values sort_by insert_by
proposal_verified = refl

main-Proven_example : IsProven toy_node toy_config current
main-Proven_example =
    main-Proven toy_node toy_config first_run after_run report current tt proposal_verified refl
      refl

main-IsSafe_example :
    Filed toy_node toy_config after_run.independent_file
    × Orderly after_run.log
    × Written none (last_checkpoint after_run.log) after_run.state_file
main-IsSafe_example = main-IsSafe toy_node toy_config first_run tt

-- The logs of a block.
abbrev block_logs : ℕ → List WatchLog
block_logs block =
    if block == 5
    then log 20 5 1 (seed_received 1 55) ∷ log 30 5 0 (transfer 0 9) ∷ []
    else if block == 6
    then log 20 6 0 (root_proposed 1 77 900) ∷ []
    else []

abbrev honest_provider : Provider ℕ String WatchLog
honest_provider = record {
  get_logs = λ from to w. (ok (logs_of block_logs (between from to)), w);
  is_range_limit = λ e. false;
  is_transient = λ e. false;
}

abbrev honest_node : Node ℕ
honest_node = record toy_node { security_logs = honest_provider }

abbrev toy_scope : Scope
toy_scope = record {
  chain_id = 10143;
  draw_manager_address = 20;
  vault_address = 30;
  from_block = 5;
}

abbrev opened_run : Run ℕ
opened_run = record first_run {
  cache = record first_run.cache { scope = toy_scope; last_scanned_block = 4 };
}

opened_run-Refines : Refines honest_node toy_config block_logs opened_run
unfolding find
opened_run-Refines = (
  record {
    reached = omega arith;
    proposals = λ d. refl;
    finalizations = λ d. refl;
    seeds = λ d. refl;
  },
  omega arith,
)

sync_through-Refines_example :
    Ends
      (Scanned honest_node toy_config block_logs 6)
      (Refines honest_node toy_config block_logs)
      (sync_through honest_node toy_config 6 opened_run)
sync_through-Refines_example =
    sync_through-Refines honest_node toy_config block_logs (λ from to w. refl) (omega arith) 6
      opened_run (omega arith) (omega arith) opened_run-Refines

abbrev evidence : (block : ℕ) → Evidence
evidence block = record {
  root = 77;
  event_block_number = block;
  event_block_hash = block + 100;
  seed_block_number = 5;
  seed_block_hash = 105;
  seed = 55;
}

-- Another block has another fingerprint.
abbrev by_block : Identity → ℕ
by_block i = i.proposal_evidence.event_block_number

abbrev gap : (block : ℕ) → Identity
gap block = record {
  draw_id = 1;
  root = 77;
  proposal_evidence = evidence block;
  finalization_evidence = evidence 8;
}

-- Draw 1 has an incident, and another one after a reorganisation.
abbrev after_first : CacheState
after_first = (record_coverage_incident by_block (gap 6) 10 (empty_state toy_scope)).0

abbrev after_second : CacheState
after_second = (record_coverage_incident by_block (gap 7) 20 after_first).0

active_coverage_incidents-Reach_example : of_draw 1 (active_coverage_incidents after_second) ≤ 1
active_coverage_incidents-Reach_example =
    active_coverage_incidents-Reach by_block toy_scope after_second
      (next (next here (recording (gap 6) 10 (empty_state toy_scope)))
        (recording (gap 7) 20 after_first))
      1

-- Blocks 5 to 40, without events; the draw is open.
abbrev quiet_provider : Provider ℕ String WatchLog
quiet_provider = record {
  get_logs = λ from to w. (ok [], w);
  is_range_limit = λ e. false;
  is_transient = λ e. false;
}

abbrev quiet_node : Node ℕ
quiet_node = record toy_node {
  head_number = λ w. (ok 40, w);
  fast_logs = quiet_provider;
  draw = λ d w. (ok (record { root = 0; status = 0 }), w);
}

abbrev block_hash : ℕ → ℕ
block_hash b = b + 100

quiet_chain : Quiet quiet_node toy_config block_hash 40
quiet_chain = record {
  chain = λ w. refl;
  code = λ w. refl;
  number = λ w. refl;
  vault = λ w. refl;
  hashes = λ b w. refl;
  hashes_there = λ b e. omega (arith, e);
  logs = λ from to w. ([], refl, tt);
  draw_id = λ w. (1, refl);
  draw = λ d w. (record { root = 0; status = 0 }, refl, omega arith);
  notified = λ l w. refl;
}

main-Returned_example :
    Gives
      (Next quiet_node toy_config block_hash 40 quiet_chain (omega arith) 41)
      (Returned quiet_node toy_config block_hash 40 quiet_chain (omega arith) 40)
      (main quiet_node toy_config (runs quiet_node toy_config 3 first_run))
main-Returned_example =
    main-Returned quiet_node toy_config block_hash 40 quiet_chain (omega arith) (omega arith)
      (omega arith) (omega arith) refl (omega arith) 3 5 first_run (omega arith) (omega arith)
      (refl, inl (refl, refl))
