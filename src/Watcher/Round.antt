-- ===== src/Watcher/Round.antt =====
-- scripts/draw/watch-root-proposals.mjs, `main`: one run of the watcher.
pub mod Safe
pub mod Latest
pub mod Health
pub mod Main
pub mod Quiet
use everdraw.Base.{
  ℕ, zero, suc, ◌+◌, ◌-◌, Bool, true, false, not, ◌&&◌, ◌||◌, Option, none, some, List, [], ◌∷◌,
  keep, has, length, max, min, ltb, leb, ◌==◌, if◌then◌else◌, Table, ok, err,
}
use everdraw.Logs.Cache.{Scope}
use everdraw.Watcher.Actions.{
  Action, Kind, proposals, finalizations, after, give, throw, throw_if, or_fail, when, read, update,
  each, ◌>>=◌, ◌>>◌, head_chain_mismatch, no_head_bytecode, vault_mismatch, bad_max_blocks,
  coverage_failed, run_checkpoint_changed, proposal_evidence_changed, finalization_evidence_changed,
  thrown,
}
use everdraw.Watcher.Events.{
  WatchEvent, WatchLog, transfer, seed_received, root_proposed, root_finalized, privileged, other,
  sort_logs,
}
use everdraw.Watcher.Cache.{
  CacheState, Incident, Evidence, empty_state, read_state, root_needs_independent_verification,
  verified_root, integrity_verified_root, mark_historical_finalized_integrity,
  mark_finalization_handled, finalization_handled,
}
use everdraw.Watcher.Cache.Incidents.{
  Identity, is_some, same_id, coverage_incident, record_coverage_incident,
  mark_coverage_incident_notified, acknowledge_coverage_incident, active_coverage_incidents,
}
use everdraw.Watcher.Batches.{
  Window, Canonical, assert_canonical_log_batch, query_logs_chunked, last_of, ends_of,
}
use everdraw.Watcher.Node.{
  Alarm, finalized_mismatch, discovered_mismatch, coverage_gap, awaiting_acknowledgment,
  privileged_change, DrawView, Node, Config, WatcherState, Run, call, clock, head_range, save, note,
  checkpointed,
}
use everdraw.Watcher.Sync.{is_hash, get_block, ensure_canonical, ingest_watcher_reconstruction_logs}
use everdraw.Watcher.Verify.{
  Verification, live, historical_finalized, alarm, mismatch, verify_independent_root,
  verify_proposal, publish_claim_proofs,
}

-- `currentEvidence`.
pub record Current : Type 0 where
  pub draw_id : ℕ
  pub root : ℕ
  pub status : ℕ

-- What the last line of a run says, and `currentEvidence`.
pub record Report : Type 0 where
  pub run_end : ℕ
  pub latest : ℕ
  pub current : Option Current

unfoldable pub can_checkpoint_batch : (root_mismatch_count : ℕ) → Bool
can_checkpoint_batch root_mismatch_count = root_mismatch_count == 0

unfoldable pub should_enforce_live_window : Option WatcherState → Bool
should_enforce_live_window none = false
should_enforce_live_window (some state) = state.live_monitoring

-- A state file of another deployment counts as none.
unfoldable pub in_scope : Scope → Option WatcherState → Option WatcherState
in_scope scope none = none
in_scope scope (some state) =
    if (state.chain_id == scope.chain_id)
      && ((state.draw_manager_address == scope.draw_manager_address)
          && ((state.vault_address == scope.vault_address)
              && (state.from_block == scope.from_block)))
    then some state
    else none

abbrev pub is_privileged : WatchEvent → Bool
is_privileged (privileged name) = true
is_privileged (transfer from to) = false
is_privileged (seed_received draw_id seed) = false
is_privileged (root_proposed draw_id root ends) = false
is_privileged (root_finalized draw_id root) = false
is_privileged other = false

-- The integrity of a finalized root may have been recovered later.
unfoldable pub known_root : (status draw_id : ℕ) → CacheState → Option ℕ
known_root status draw_id c =
    if status == 4 then integrity_verified_root draw_id c else verified_root draw_id c

unfoldable pub first_block : (from_block : ℕ) → Option WatcherState → ℕ
first_block from_block none = from_block
first_block from_block (some state) =
    max from_block
      (if state.last_scanned_block == 0 then from_block else state.last_scanned_block + 1)

module _ {W : Type 0} (n : Node W) (cfg : Config) where
  unfoldable pub asked_hash : (block hash : ℕ) → Action (Run W) Bool
  asked_hash block hash = do actual ← get_block n cfg block; give (is_hash hash actual)

  -- `canonicalCheckpointMatches`.
  unfoldable pub canonical_checkpoint_matches : (block hash : ℕ) → Action (Run W) Bool
  canonical_checkpoint_matches block hash =
      if (hash == 0) || (block == 0) then give false else asked_hash block hash

  -- `writeState`.
  unfoldable pub write_state :
      Scope → (last_scanned_block : ℕ) → (live_monitoring : Bool) → Action (Run W) (Unit {0})
  write_state scope last_scanned_block live_monitoring = do
    update λ s. record s {
      state_file = some (record {
        chain_id = scope.chain_id;
        draw_manager_address = scope.draw_manager_address;
        vault_address = scope.vault_address;
        from_block = scope.from_block;
        last_scanned_block = last_scanned_block;
        last_scanned_block_hash = s.last_checkpoint_hash;
        participant_accounts = s.accounts;
        seed_blocks = s.seed_blocks;
        live_monitoring = live_monitoring;
      });
    }
    note (checkpointed last_scanned_block)

  module _ (scope : Scope) (enforce : Bool) where
    unfoldable pub tell_change : WatchLog → Action (Run W) (Unit {0})
    tell_change l = when enforce (call (n.notify (privileged_change l)))

    unfoldable pub on_proposal : (block : ℕ) → WatchEvent → Action (Run W) (Unit {0})
    on_proposal block (root_proposed draw_id root ends) = do
      checked ← verify_proposal n cfg enforce draw_id root block (some ends) live
      give tt
    on_proposal block (root_finalized draw_id root) = give tt
    on_proposal block (transfer from to) = give tt
    on_proposal block (seed_received draw_id seed) = give tt
    on_proposal block (privileged name) = give tt
    on_proposal block other = give tt

    unfoldable pub handle_finalization :
        (draw_id root : ℕ) → Verification → Action (Run W) (Unit {0})
    handle_finalization draw_id root v = do
      publish_claim_proofs n cfg draw_id v.root
      save (mark_finalization_handled draw_id v.evidence)

    unfoldable pub on_finalization : (block : ℕ) → WatchEvent → Action (Run W) (Unit {0})
    on_finalization block (root_finalized draw_id root) = do
      v ← verify_independent_root n cfg draw_id root finalizations block
      if v.root == root
          then handle_finalization draw_id root v
          else mismatch n cfg (finalized_mismatch draw_id root v.root)
    on_finalization block (root_proposed draw_id root ends) = give tt
    on_finalization block (transfer from to) = give tt
    on_finalization block (seed_received draw_id seed) = give tt
    on_finalization block (privileged name) = give tt
    on_finalization block other = give tt

    abbrev pub is_manager : WatchLog → Bool
    is_manager l = l.address == scope.draw_manager_address

    unfoldable pub reconstruct_logs : List WatchLog → Action (Run W) (Unit {0})
    reconstruct_logs logs = update λ s.
        let r =
          ingest_watcher_reconstruction_logs scope.vault_address scope.draw_manager_address logs
            s.accounts s.seed_blocks in
        record s { accounts = r.accounts; seed_blocks = r.seed_blocks }

    abbrev pub keep_hash : ℕ → Action (Run W) (Unit {0})
    keep_hash hash = update (λ s. record s { last_checkpoint_hash = hash })

    unfoldable pub on_batch : List Window → List WatchLog → Canonical → Action (Run W) (Unit {0})
    on_batch batch logs canonical = do
      reconstruct_logs logs
      keep_hash canonical.checkpoint_hash
      each tell_change (sort_logs (keep (λ l. is_privileged l.event) logs))
      each (λ l. on_proposal l.block_number l.event) (sort_logs (keep is_manager logs))
      each (λ l. on_finalization l.block_number l.event) (sort_logs (keep is_manager logs))
      verified ← assert_canonical_log_batch (get_block n cfg) batch logs canonical.boundary_hashes
      keep_hash verified.checkpoint_hash
      mismatches ← read (λ s. length s.root_mismatches)
      when (can_checkpoint_batch mismatches) (write_state scope (last_of 0 (ends_of batch)) enforce)

    unfoldable pub scan : (from to : ℕ) → Action (Run W) (Unit {0})
    scan from to =
        query_logs_chunked (get_block n cfg) (head_range n cfg) on_batch cfg.max_log_lookback
          cfg.chunk_size cfg.concurrency from to

    -- The current draw is finalized, and its proofs are not published or it was not verified.
    unfoldable pub record_recovery :
        (draw_id root : ℕ) → (proposal finalization : Evidence) → Action (Run W) (Unit {0})
    record_recovery draw_id root proposal finalization = do
      now ← clock n
      let identity : Identity = record {
        draw_id = draw_id;
        root = root;
        proposal_evidence = proposal;
        finalization_evidence = finalization;
      }
      save (λ c. (record_coverage_incident n.fingerprint identity now c).0)
      save (mark_historical_finalized_integrity draw_id proposal finalization)

    -- `historical` is `historicalProposal`, there if the root needed verification.
    abbrev pub recover :
        Current → Verification → Option (Bool × Evidence) → Action (Run W) (Unit {0})
    recover current v none = give tt
    recover current v (some (acceptable, evidence)) =
        record_recovery current.draw_id current.root evidence v.evidence

    abbrev pub is_acceptable : Option (Bool × Evidence) → Bool
    is_acceptable none = true
    is_acceptable (some (acceptable, evidence)) = acceptable

    unfoldable pub accept_finalized :
        Current
        → (handled : Bool) → Option (Bool × Evidence)
        → Verification
        → Action (Run W) (Unit {0})
    accept_finalized current handled historical v = do
      recover current v historical
      when (not handled) (handle_finalization current.draw_id current.root v)

    unfoldable pub check_finalized :
        (latest : ℕ)
        → Current
        → (handled : Bool) → Option (Bool × Evidence)
        → Action (Run W) (Unit {0})
    check_finalized latest current handled historical = do
      v ← verify_independent_root n cfg current.draw_id current.root finalizations latest
      if not (v.root == current.root)
          then mismatch n cfg (discovered_mismatch current.draw_id current.root v.root)
          else when (is_acceptable historical) (accept_finalized current handled historical v)

    unfoldable pub verify_needed :
        (latest : ℕ) → Current → Bool → Action (Run W) (Option (Bool × Evidence))
    verify_needed latest current false = give none
    verify_needed latest current true = do
      historical ←
          verify_proposal n cfg enforce current.draw_id current.root latest none
            (if current.status == 4 then historical_finalized else live)
      give (some historical)

    unfoldable pub needs_verification : Current → CacheState → Bool
    needs_verification current c =
        root_needs_independent_verification current.status current.root
          (known_root current.status current.draw_id c)

    unfoldable pub verify_current : (latest : ℕ) → Current → Action (Run W) (Unit {0})
    verify_current latest current = do
      ensure_canonical n cfg
      needed ← read (λ s. needs_verification current s.cache)
      historical ← verify_needed latest current needed
      handled ← read (λ s. finalization_handled current.draw_id current.root s.cache)
      when ((current.status == 4) && (not handled || needed))
          (check_finalized latest current handled historical)

    unfoldable pub look_at_draw : (latest draw_id : ℕ) → Action (Run W) (Option Current)
    look_at_draw latest draw_id = do
      draw ← call (n.draw draw_id)
      let current : Current = record { draw_id = draw_id; root = draw.root; status = draw.status }
      verify_current latest current
      give (some current)

    unfoldable pub look_at_current : (latest : ℕ) → Action (Run W) (Option Current)
    look_at_current latest = do
      draw_id ← call n.current_draw_id
      if draw_id == 0 then give none else look_at_draw latest draw_id

    -- `coverageIncident(id)`, whose fields are read next.
    unfoldable pub reload : Incident → Action (Run W) Incident
    reload i = do
      found ← read (λ s. coverage_incident i.id s.cache)
      or_fail (thrown "incident is undefined") found

    unfoldable pub notify_incident : Incident → Action (Run W) Incident
    notify_incident i = do
      alarm n cfg (coverage_gap i.id)
      now ← clock n
      save (mark_coverage_incident_notified i.id now)
      reload i

    unfoldable pub acknowledge_incident : Incident → Action (Run W) Incident
    acknowledge_incident i = do
      now ← clock n
      save (acknowledge_coverage_incident i.id now)
      reload i

    unfoldable pub handle_incident : Incident → Action (Run W) (Unit {0})
    handle_incident active = do
      notified ← if is_some active.notified_at then give active else notify_incident active
      incident ←
          if has (same_id notified.id) cfg.acknowledged
          then acknowledge_incident notified
          else give notified
      when (not (is_some incident.acknowledged_at)) (
          update λ s. record s {
            coverage_failures = awaiting_acknowledgment incident.id ∷ s.coverage_failures;
          })

    unfoldable pub handle_incidents : Action (Run W) (Unit {0})
    handle_incidents = do
      active ← read (λ s. active_coverage_incidents s.cache)
      each handle_incident active

    -- What the checks at the end of a healthy run ask of the cache.
    unfoldable pub check_current : Option Current → CacheState → Action (Run W) (Unit {0})
    check_current none c = give tt
    check_current (some current) c = do
      throw_if (needs_verification current c) (proposal_evidence_changed current.draw_id)
      throw_if ((current.status == 4) && not (finalization_handled current.draw_id current.root c))
          (finalization_evidence_changed current.draw_id)

    unfoldable pub finish : (run_end : ℕ) → Option Current → Action (Run W) (Unit {0})
    finish run_end current = do
      hash ← read (λ s. s.last_checkpoint_hash)
      same ← canonical_checkpoint_matches run_end hash
      throw_if (not same) (run_checkpoint_changed run_end)
      ensure_canonical n cfg
      c ← read (λ s. s.cache)
      check_current current c
      write_state scope run_end true
      update (λ s. record s { world = n.ping_health s.world })

    unfoldable pub watch : (scan_from latest : ℕ) → Action (Run W) Report
    watch scan_from latest =
        let run_end = min (scan_from + cfg.max_blocks_per_run - 1) latest in
        do
          when (leb scan_from latest) (scan scan_from run_end)
          current ← if run_end == latest then look_at_current latest else give none
          handle_incidents
          failures ← read (λ s. length s.coverage_failures)
          throw_if (not (failures == 0)) (coverage_failed failures)
          when (run_end == latest) (finish run_end current)
          give (record { run_end = run_end; latest = latest; current = current })

  -- The state file's state, if the chain still has its last block.
  unfoldable pub if_canonical : Option WatcherState → Action (Run W) (Option WatcherState)
  if_canonical none = give none
  if_canonical (some state) = do
    same ← canonical_checkpoint_matches state.last_scanned_block state.last_scanned_block_hash
    give (if same then some state else none)

  abbrev pub accounts_of : Option WatcherState → List ℕ
  accounts_of none = []
  accounts_of (some state) = state.participant_accounts

  abbrev pub seeds_of : Option WatcherState → Table ℕ ℕ
  seeds_of none = []
  seeds_of (some state) = state.seed_blocks

  abbrev pub hash_of : Option WatcherState → ℕ
  hash_of none = 0
  hash_of (some state) = state.last_scanned_block_hash

  -- The variables of a new process; its cache is opened later, so that what stands here is not read.
  unfoldable pub new_process : Run W → Run W
  new_process s = record s {
    cache = empty_state (record {
      chain_id = cfg.expected_chain_id;
      draw_manager_address = cfg.draw_manager_address;
      vault_address = cfg.prize_vault;
      from_block = cfg.from_block;
    });
    log = [];
    validated = false;
    checked = 0;
    accounts = [];
    seed_blocks = [];
    last_checkpoint_hash = 0;
    coverage_failures = [];
    root_mismatches = [];
  }

  unfoldable pub open_cache : Scope → Run W → Run W
  open_cache scope s = record s { cache = read_state scope s.independent_file }

  unfoldable pub resume : Option WatcherState → Run W → Run W
  resume state s = record s {
    accounts = accounts_of state;
    seed_blocks = seeds_of state;
    last_checkpoint_hash = hash_of state;
  }

  -- The body of `main`, whose variables are new.
  unfoldable pub run_process : Action (Run W) Report
  run_process = do
    chain_id ← call n.head_chain_id
    throw_if (not (chain_id == cfg.expected_chain_id)) (head_chain_mismatch chain_id)
    has_code ← call n.head_has_code
    throw_if (not has_code) no_head_bytecode
    latest ← call n.head_number
    vault ← call n.vault
    throw_if (not (vault == cfg.prize_vault)) vault_mismatch
    let scope : Scope = record {
      chain_id = chain_id;
      draw_manager_address = cfg.draw_manager_address;
      vault_address = vault;
      from_block = cfg.from_block;
    }
    update (open_cache scope)
    file ← read (λ s. s.state_file)
    state ← if_canonical (in_scope scope file)
    update (resume state)
    throw_if (cfg.max_blocks_per_run == 0) bad_max_blocks
    watch scope (should_enforce_live_window state) (first_block cfg.from_block state) latest

  unfoldable pub main : Action (Run W) Report
  main = do update new_process; run_process
