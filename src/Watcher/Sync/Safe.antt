-- ===== src/Watcher/Sync/Safe.antt =====
-- Reading the chain keeps a run safe; evidence that is returned is that of the root asked for.
use everdraw.Base.{
  ℕ, ◌≡◌, refl, Bool, true, false, Option, none, some, List, [], ◌∷◌, All, arith, ◌==◌,
  if◌then◌else◌,
}
use everdraw.Watcher.Actions.{Kind, missing_event}
use everdraw.Watcher.Actions.Keeps.{
  Any, Keeps, Keeps-bind, Keeps-then, Post-give, Keeps-check, Keeps-found, Keeps-or_fail,
  Keeps-when, Keeps-read, Keeps-throw, Post-weaken,
}
use everdraw.Watcher.Batches.{flatten, Window, Canonical}
use everdraw.Watcher.Batches.Stable.{Keeps-query_logs_chunked}
use everdraw.Watcher.Events.{
  WatchEvent, WatchLog, transfer, seed_received, root_proposed, root_finalized, privileged, other,
}
use everdraw.Watcher.Cache.{RootEvent, CacheState, empty_state}
use everdraw.Watcher.Node.{Alarm, Node, Config, Run, WatcherState}
use everdraw.Watcher.Sync.{
  record_event, record_logs, ingest_batch, rebuild, get_block, check_canonical, ensure_canonical,
  sync_batch, scan_through, sync_through, with_root, assert_event, reset, evidence_of,
  assert_evidence_canonical,
}
use everdraw.Watcher.Invariant.{
  Answered, batch, Marked, empty-Marked, Marked-same, IsSafe, Keeps-call, Keeps-security_range,
  Keeps-save,
}

module _ {W : Type 0} (n : Node W) (cfg : Config) (file : Option WatcherState)
    (More : List Alarm → Type 0) where
  record_event-Marked :
      (block hash : ℕ) (e : WatchEvent) (c : CacheState)
      → Marked n cfg c
      → Marked n cfg (record_event block hash e c)
  unfolding record_event
  record_event-Marked block hash (seed_received d seed) c h =
      Marked-same n cfg c _ refl refl refl refl refl h
  record_event-Marked block hash (root_proposed d r ends) c h =
      Marked-same n cfg c _ refl refl refl refl refl h
  record_event-Marked block hash (root_finalized d r) c h =
      Marked-same n cfg c _ refl refl refl refl refl h
  record_event-Marked block hash (transfer from to) c h = h
  record_event-Marked block hash (privileged name) c h = h
  record_event-Marked block hash other c h = h

  if-Marked :
      (b : Bool) (c c' : CacheState)
      → Marked n cfg c
      → Marked n cfg c'
      → Marked n cfg (if b then c else c')
  if-Marked true c c' h k = h
  if-Marked false c c' h k = k

  record_logs-Marked :
      (manager : ℕ) (logs : List WatchLog) (c : CacheState)
      → Marked n cfg c
      → Marked n cfg (record_logs manager logs c)
  unfolding record_logs
  record_logs-Marked manager [] c h = h
  record_logs-Marked manager (l ∷ logs) c h = record_logs-Marked manager logs _ (
      if-Marked (l.address == manager) _ c
        (record_event-Marked l.block_number l.block_hash l.event c h) h)

  ingest_batch-Marked :
      (results : List (List WatchLog)) (to hash : ℕ) (c : CacheState)
      → All (Answered n cfg) results
      → Marked n cfg c
      → Marked n cfg (ingest_batch (flatten results) to hash c)
  unfolding ingest_batch
  ingest_batch-Marked results to hash c answered h =
      let recorded = record_logs-Marked c.scope.draw_manager_address (flatten results) c h in
      record {
        sourced = record {
          vault = recorded.sourced.vault;
          manager = recorded.sourced.manager;
          gathered =
              rw (h.sourced.vault, h.sourced.manager)
                (batch results c.participant_accounts c.seed_blocks answered h.sourced.gathered);
        };
        verified = recorded.verified;
        recovered = recorded.recovered;
      }

  rebuild-Marked : (c : CacheState) → Marked n cfg c → Marked n cfg (rebuild c)
  unfolding rebuild
  rebuild-Marked c h =
      Marked-same n cfg (empty_state c.scope) _ refl refl refl refl refl
        (empty-Marked n cfg c.scope h.sourced.vault h.sourced.manager)

  abbrev Safe : Run W → Type 0
  Safe = IsSafe n cfg file More

  pub Keeps-get_block : (block : ℕ) → Keeps Safe Any (get_block n cfg block)
  Keeps-get_block block = Keeps-call n cfg file More (n.head_block_hash block)

  pub Keeps-ensure_canonical : Keeps Safe Any (ensure_canonical n cfg)
  unfolding ensure_canonical check_canonical
  Keeps-ensure_canonical = Keeps-then Safe Any _ _ (Keeps-read Safe _) λ c. Keeps-when Safe _ _ (
      Keeps-then Safe Any _ _ (Keeps-get_block c.last_scanned_block)
        λ hash. Keeps-when Safe _ _ (Keeps-save n cfg file More rebuild rebuild-Marked))

  Keeps-sync_batch :
      (ws : List Window) (results : List (List WatchLog)) (c : Canonical)
      → All (Answered n cfg) results
      → Keeps Safe Any (sync_batch n cfg ws (flatten results) c)
  unfolding sync_batch
  Keeps-sync_batch ws results c answered =
      Keeps-save n cfg file More (ingest_batch (flatten results) _ c.checkpoint_hash)
        (λ s h. ingest_batch-Marked results _ c.checkpoint_hash s answered h)

  pub Keeps-sync_through : (target : ℕ) → Keeps Safe Any (sync_through n cfg target)
  unfolding sync_through scan_through
  Keeps-sync_through target = Keeps-then Safe Any _ _ Keeps-ensure_canonical λ _.
      Keeps-then Safe Any _ _ (Keeps-read Safe _) λ from. Keeps-when Safe _ _ (
        Keeps-query_logs_chunked Safe (get_block n cfg) Keeps-get_block _ _ (Answered n cfg)
          (Keeps-security_range n cfg file More) Keeps-sync_batch _ _ _ _ _)

  with_root-root :
      (root : ℕ) (found : Option RootEvent) (e : RootEvent)
      → with_root root found ≡ some e
      → e.root ≡ root
  with_root-root root none e h = cc
  with_root-root root (some x) e h = ground (arith, h)

  pub Keeps-assert_event :
      (kind : Kind) (d root : ℕ) → Keeps Safe (λ e. e.root ≡ root) (assert_event n cfg kind d root)
  unfolding assert_event
  Keeps-assert_event kind d root = Keeps-then Safe _ _ _ (Keeps-read Safe _) λ found s h.
      let r = Keeps-or_fail Safe (missing_event kind d) (with_root root found) s h in
      Post-weaken Safe _ _ _ (with_root-root root found) r

  Keeps-reset : (d : ℕ) → Keeps Safe Any (reset n cfg d)
  unfolding reset
  Keeps-reset d =
      Keeps-then Safe Any _ _
        (Keeps-save n cfg file More (λ c. empty_state c.scope)
          (λ c h. empty-Marked n cfg c.scope h.sourced.vault h.sourced.manager))
        λ _. Keeps-throw Safe Any _

  pub Keeps-assert_evidence_canonical :
      (kind : Kind) (d root : ℕ)
      → Keeps Safe (λ e. e.root ≡ root) (assert_evidence_canonical n cfg kind d root)
  unfolding assert_evidence_canonical evidence_of
  Keeps-assert_evidence_canonical kind d root =
      Keeps-bind Safe _ _ _ _ (Keeps-assert_event kind d root) λ event is_root.
        Keeps-then Safe _ _ _ (Keeps-read Safe _) λ found.
          Keeps-then Safe _ _ _ (Keeps-found Safe _ _) λ seed.
            Keeps-then Safe _ _ _ (Keeps-get_block _) λ event_block.
              Keeps-then Safe _ _ _ (Keeps-get_block _) λ seed_block.
                Keeps-then Safe _ _ _ (Keeps-read Safe _) λ last.
                  Keeps-then Safe _ _ _ (Keeps-get_block _) λ checkpoint.
                    Keeps-then Safe _ _ _ (Keeps-check Safe _ _) λ _.
                      Keeps-then Safe _ _ _ (Keeps-check Safe _ _) λ _.
                        Keeps-then Safe _ _ _ (Keeps-read Safe _) λ hash.
                          Keeps-then Safe _ _ _ (Keeps-when Safe _ _ (Keeps-reset d))
                            λ _ s h. Post-give Safe _ _ s h is_root
