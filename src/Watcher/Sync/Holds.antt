-- ===== src/Watcher/Sync/Holds.antt =====
-- The cache refines the chain: whatever it scanned, its tables are what the logs of the scanned
-- blocks say last of each draw.
use everdraw.Base.{
  ℕ, suc, ◌+◌, ◌-◌, ◌≤◌, ◌<◌, ◌≡◌, refl, sym, ap, ◌∙◌, Bool, true, false, none, List, [], ◌∷◌,
  arith, ◌==◌, if◌then◌else◌, find, find_number, Table,
}
use everdraw.Logs.Cache.{Scope}
use everdraw.Logs.Ranges.Windows.{between, between-extend, no_blocks}
use everdraw.Logs.Ranges.Complete.{logs_of, logs_of-append}
use everdraw.Watcher.Cache.{CacheState, empty_state}
use everdraw.Watcher.Events.{
  WatchEvent, WatchLog, transfer, seed_received, root_proposed, root_finalized, privileged, other,
}
use everdraw.Watcher.Sync.{record_logs, record_event, ingest_batch, rebuild}
use everdraw.Watcher.Sync.Latest.{
  latest, latest-append, Reading, says, proposal_in, finalization_in, seed_in, proposals-record,
  finalizations-record, seeds-record, table-record_logs,
}

module _ (block_logs : ℕ → List WatchLog) where
  -- The logs of the blocks that were scanned.
  abbrev pub scanned : CacheState → List WatchLog
  scanned c = logs_of block_logs (between c.scope.from_block c.last_scanned_block)

  abbrev pub Says : {V : Type 0} → Reading V → CacheState → Table ℕ V → Type 0
  Says reading c table =
      (d : ℕ)
      → find_number d table ≡ latest (says reading c.scope.draw_manager_address d) (scanned c) none

  pub record Holds (c : CacheState) : Type 0 where
    pub reached : c.scope.from_block ≤ c.last_scanned_block + 1
    pub proposals : Says proposal_in c c.proposals
    pub finalizations : Says finalization_in c c.finalizations
    pub seeds : Says seed_in c c.seed_evidence

  empty-Holds :
      (scope : Scope)
      → 0 < scope.from_block
      → (c : CacheState)
      → Holds (record (empty_state scope) { coverage_incidents = c.coverage_incidents })
  unfolding empty_state find
  empty-Holds scope pos c =
      let none_yet = no_blocks scope.from_block (scope.from_block - 1) (omega (arith, pos)) in
      record {
        reached = omega arith;
        proposals = λ d. rw none_yet;
        finalizations = λ d. rw none_yet;
        seeds = λ d. rw none_yet;
      }

  -- The tables before the logs of some more blocks, and after them.
  more_blocks :
      {V : Type 0} (reading : Reading V) (c : CacheState) (to : ℕ) (table table' : Table ℕ V)
      → c.scope.from_block ≤ c.last_scanned_block + 1
      → c.last_scanned_block ≤ to
      → Says reading c table
      → ((d : ℕ)
          → find_number d table'
            ≡ latest
                (says reading c.scope.draw_manager_address d)
                (logs_of block_logs (between (suc c.last_scanned_block) to))
                (find_number d table))
      → (d : ℕ)
      → find_number d table'
        ≡ latest
            (says reading c.scope.draw_manager_address d)
            (logs_of block_logs (between c.scope.from_block to))
            none
  more_blocks reading c to table table' low high before step d =
      let f = says reading c.scope.draw_manager_address d in
      let from = c.scope.from_block in
      let mid = c.last_scanned_block in
      step d
      ∙ ap (latest f (logs_of block_logs (between (suc mid) to))) (before d)
      ∙ sym (latest-append f (scanned c) (logs_of block_logs (between (suc mid) to)) none)
      ∙ ap (λ logs. latest f logs none)
          (sym (logs_of-append block_logs (between from mid) (between (suc mid) to))
            ∙ ap (logs_of block_logs) (sym (between-extend from mid to low high)))

  record_event-scope :
      (block hash : ℕ) (e : WatchEvent) (c : CacheState)
      → (record_event block hash e c).scope ≡ c.scope
  unfolding record_event
  record_event-scope block hash (seed_received d seed) c = refl
  record_event-scope block hash (root_proposed d root ends) c = refl
  record_event-scope block hash (root_finalized d root) c = refl
  record_event-scope block hash (transfer from to) c = refl
  record_event-scope block hash (privileged name) c = refl
  record_event-scope block hash other c = refl

  one_scope :
      (b : Bool) (block hash : ℕ) (e : WatchEvent) (c : CacheState)
      → (if b then record_event block hash e c else c).scope ≡ c.scope
  one_scope true block hash e c = record_event-scope block hash e c
  one_scope false block hash e c = refl

  record_logs-scope :
      (manager : ℕ) (logs : List WatchLog) (c : CacheState)
      → (record_logs manager logs c).scope ≡ c.scope
  unfolding record_logs
  record_logs-scope manager [] c = refl
  record_logs-scope manager (l ∷ logs) c =
      record_logs-scope manager logs _
      ∙ one_scope (l.address == manager) l.block_number l.block_hash l.event c

  -- Ingesting the logs of the next blocks.
  pub ingest-Holds :
      (logs : List WatchLog) (to hash : ℕ) (c : CacheState)
      → Holds c
      → c.last_scanned_block ≤ to
      → logs ≡ logs_of block_logs (between (suc c.last_scanned_block) to)
      → Holds (ingest_batch logs to hash c)
  unfolding ingest_batch
  ingest-Holds logs to hash c h high e =
      let manager = c.scope.draw_manager_address in
      let scope = record_logs-scope manager logs c in
      record {
        reached = rw scope (omega (arith, h.reached, high));
        proposals = rw scope (
            more_blocks proposal_in c to c.proposals _ h.reached high h.proposals (
              rw (← e) (λ d.
                table-record_logs (λ c. c.proposals) proposal_in proposals-record manager d logs
                  c)));
        finalizations = rw scope (
            more_blocks finalization_in c to c.finalizations _ h.reached high h.finalizations (
              rw (← e) (λ d.
                table-record_logs (λ c. c.finalizations) finalization_in finalizations-record
                  manager d logs c)));
        seeds = rw scope (
            more_blocks seed_in c to c.seed_evidence _ h.reached high h.seeds (
              rw (← e) (λ d.
                table-record_logs (λ c. c.seed_evidence) seed_in seeds-record manager d logs c)));
      }

  pub rebuild-Holds : (c : CacheState) → 0 < c.scope.from_block → Holds (rebuild c)
  unfolding rebuild
  rebuild-Holds c pos = empty-Holds c.scope pos c

  pub ingest-scope :
      (logs : List WatchLog) (to hash : ℕ) (c : CacheState)
      → (ingest_batch logs to hash c).scope ≡ c.scope
  unfolding ingest_batch
  ingest-scope logs to hash c = record_logs-scope c.scope.draw_manager_address logs c
