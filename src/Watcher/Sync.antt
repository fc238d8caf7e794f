-- ===== src/Watcher/Sync.antt =====
-- scripts/draw/independent-watcher-cache.mjs, `syncThrough` and the methods that ask the chain, with
-- `ingestWatcherReconstructionLogs` of scripts/draw/reconstruct-watcher-input.mjs.
pub mod Latest
pub mod Holds
pub mod Refines
pub mod Safe
use everdraw.Base.{
  ℕ, ◌+◌, Bool, true, false, not, ◌&&◌, ◌||◌, Option, none, some, List, [], ◌∷◌, max, ltb, ◌==◌,
  if◌then◌else◌, sort, add_id, add_ids, Table, find_number, assign_number, ok, err,
}
use everdraw.Logs.Accounts.{add_account}
use everdraw.Watcher.Actions.{
  Action, Failure, Kind, proposals, finalizations, after, give, throw, throw_if, or_fail, when,
  read, ◌>>=◌, ◌>>◌, missing_event, no_seed_evidence, event_not_canonical, seed_not_canonical,
  checkpoint_changed,
}
use everdraw.Watcher.Events.{
  WatchEvent, WatchLog, transfer, seed_received, root_proposed, root_finalized, privileged, other,
  sort_logs,
}
use everdraw.Watcher.Cache.{CacheState, RootEvent, SeedEvidence, Evidence, empty_state}
use everdraw.Watcher.Batches.{Window, Canonical, query_logs_chunked, last_of, ends_of}
use everdraw.Watcher.Node.{Node, Config, Run, call, security_range, save}

-- Participants and the blocks of the seeds.
pub record Reconstruction : Type 0 where
  pub accounts : List ℕ
  pub seed_blocks : Table ℕ ℕ

abbrev pub add_nonzero : List ℕ → ℕ → List ℕ
add_nonzero = add_account

module _ (vault manager : ℕ) where
  unfoldable pub reconstruct_event :
      (address block : ℕ) → WatchEvent → Reconstruction → Reconstruction
  reconstruct_event address block (transfer from to) r =
      if address == vault
      then record r { accounts = add_nonzero (add_nonzero r.accounts from) to }
      else r
  reconstruct_event address block (seed_received draw_id seed) r =
      if address == manager
      then record r { seed_blocks = assign_number draw_id block r.seed_blocks }
      else r
  reconstruct_event address block (root_proposed draw_id root ends) r = r
  reconstruct_event address block (root_finalized draw_id root) r = r
  reconstruct_event address block (privileged name) r = r
  reconstruct_event address block other r = r

  unfoldable pub reconstruct : List WatchLog → Reconstruction → Reconstruction
  reconstruct [] r = r
  reconstruct (l ∷ logs) r = reconstruct logs (reconstruct_event l.address l.block_number l.event r)

  unfoldable pub ingest_watcher_reconstruction_logs :
      List WatchLog
      → (initial_accounts : List ℕ) → (initial_seed_blocks : Table ℕ ℕ) → Reconstruction
  ingest_watcher_reconstruction_logs logs initial_accounts initial_seed_blocks =
      let r =
        reconstruct (sort_logs logs)
          (record { accounts = add_ids [] initial_accounts; seed_blocks = initial_seed_blocks }) in
      record r { accounts = sort r.accounts }

-- An event of the draw manager in the loop of `onBatch`.
unfoldable pub record_event : (block hash : ℕ) → WatchEvent → CacheState → CacheState
record_event block hash (seed_received draw_id seed) c = record c {
  seed_evidence =
      assign_number draw_id (record { seed = seed; block_number = block; block_hash = hash })
        c.seed_evidence;
}
record_event block hash (root_proposed draw_id root ends) c = record c {
  proposals =
      assign_number draw_id
        (record { root = root; challenge_ends_at = ends; block_number = block; block_hash = hash })
        c.proposals;
}
record_event block hash (root_finalized draw_id root) c = record c {
  finalizations =
      assign_number draw_id
        (record { root = root; challenge_ends_at = 0; block_number = block; block_hash = hash })
        c.finalizations;
}
record_event block hash (transfer from to) c = c
record_event block hash (privileged name) c = c
record_event block hash other c = c

unfoldable pub record_logs : (manager : ℕ) → List WatchLog → CacheState → CacheState
record_logs manager [] c = c
record_logs manager (l ∷ logs) c =
    record_logs manager logs
      (if l.address == manager then record_event l.block_number l.block_hash l.event c else c)

-- The body of `onBatch`: `to` is the last block of the batch, `hash` that block's.
unfoldable pub ingest_batch : List WatchLog → (to hash : ℕ) → CacheState → CacheState
ingest_batch logs to hash c =
    let manager = c.scope.draw_manager_address in
    let reconstructed =
      ingest_watcher_reconstruction_logs c.scope.vault_address manager logs c.participant_accounts
        c.seed_blocks in
    let recorded = record_logs manager logs c in
    record recorded {
      participant_accounts = reconstructed.accounts;
      seed_blocks = reconstructed.seed_blocks;
      last_scanned_block = to;
      last_scanned_block_hash = hash;
    }

-- `block?.hash === expected`.
abbrev pub is_hash : ℕ → Option ℕ → Bool
is_hash expected none = false
is_hash expected (some hash) = hash == expected

unfoldable pub events_of : Kind → CacheState → Table ℕ RootEvent
events_of proposals c = c.proposals
events_of finalizations c = c.finalizations

abbrev pub with_root : ℕ → Option RootEvent → Option RootEvent
with_root root none = none
with_root root (some e) = if e.root == root then some e else none

unfoldable pub evidence_of : RootEvent → SeedEvidence → Evidence
evidence_of event seed = record {
  root = event.root;
  event_block_number = event.block_number;
  event_block_hash = event.block_hash;
  seed_block_number = seed.block_number;
  seed_block_hash = seed.block_hash;
  seed = seed.seed;
}

-- The incidents stay when the chain has changed.
unfoldable pub rebuild : CacheState → CacheState
rebuild c = record (empty_state c.scope) { coverage_incidents = c.coverage_incidents }

module _ {W : Type 0} (n : Node W) (cfg : Config) where
  abbrev pub get_block : ℕ → Action (Run W) (Option ℕ)
  get_block block = call (n.head_block_hash block)

  -- It is looked at only if there is a hash and the block lies in the scope.
  abbrev pub is_skipped : CacheState → Bool
  is_skipped c = (c.last_scanned_block_hash == 0) || ltb c.last_scanned_block c.scope.from_block

  unfoldable pub check_canonical : CacheState → Action (Run W) (Unit {0})
  check_canonical c = do
    hash ← get_block c.last_scanned_block
    when (not (is_hash c.last_scanned_block_hash hash)) (save rebuild)

  unfoldable pub ensure_canonical : Action (Run W) (Unit {0})
  ensure_canonical = do c ← read (λ s. s.cache); when (not (is_skipped c)) (check_canonical c)

  unfoldable pub sync_batch : List Window → List WatchLog → Canonical → Action (Run W) (Unit {0})
  sync_batch batch logs canonical =
      save (ingest_batch logs (last_of 0 (ends_of batch)) canonical.checkpoint_hash)

  unfoldable pub scan_through : (from target : ℕ) → Action (Run W) (Unit {0})
  scan_through from target =
      query_logs_chunked get_block (security_range n cfg) sync_batch cfg.max_log_lookback
        cfg.independent_chunk_size 1 from target

  unfoldable pub sync_through : (target : ℕ) → Action (Run W) (Unit {0})
  sync_through target = do
    ensure_canonical
    from ← read (λ s. max s.cache.scope.from_block (s.cache.last_scanned_block + 1))
    when (not (ltb target from)) (scan_through from target)

  unfoldable pub assert_event : Kind → (draw_id root : ℕ) → Action (Run W) RootEvent
  assert_event kind draw_id root = do
    found ← read (λ s. find_number draw_id (events_of kind s.cache))
    or_fail (missing_event kind draw_id) (with_root root found)

  -- The checkpoint is not that of the chain: the cache is emptied, its incidents too.
  unfoldable pub reset : (draw_id : ℕ) → Action (Run W) (Unit {0})
  reset draw_id = do save (λ c. empty_state c.scope); throw (checkpoint_changed draw_id)

  unfoldable pub assert_evidence_canonical : Kind → (draw_id root : ℕ) → Action (Run W) Evidence
  assert_evidence_canonical kind draw_id root = do
    event ← assert_event kind draw_id root
    found ← read (λ s. find_number draw_id s.cache.seed_evidence)
    seed ← or_fail (no_seed_evidence draw_id) found
    event_block ← get_block event.block_number
    seed_block ← get_block seed.block_number
    last ← read (λ s. s.cache.last_scanned_block)
    checkpoint ← get_block last
    throw_if (not (is_hash event.block_hash event_block)) (event_not_canonical kind draw_id)
    throw_if (not (is_hash seed.block_hash seed_block)) (seed_not_canonical draw_id)
    last_hash ← read (λ s. s.cache.last_scanned_block_hash)
    when (not (is_hash last_hash checkpoint)) (reset draw_id)
    give (evidence_of event seed)
