-- ===== src/Watcher/Batches/Stable.antt =====
-- A scan keeps what its callbacks keep.
use everdraw.Base.{ℕ, Option, List, [], add_ids, Table, All}
use everdraw.Watcher.Actions.{Action}
use everdraw.Watcher.Actions.Keeps.{
  Any, Keeps, Keeps-then, Keeps-found, Keeps-check, Keeps-give, Keeps-each, Keeps-collect,
  Keeps-collect_all, Keeps-bind,
}
use everdraw.Watcher.Events.{WatchLog}
use everdraw.Watcher.Batches.{
  Window, Canonical, canonical_hash, canonical_block_hashes, check_boundary, check_log, flatten,
  assert_canonical_log_batch, scan_batch, query_logs_chunked,
}

module _ {S : Type 0} (P : S → Type 0) (block_hash : ℕ → Action S (Option ℕ))
    (keeps : (n : ℕ) → Keeps P Any (block_hash n)) where
  Keeps-canonical_hash : (n : ℕ) → Keeps P Any (canonical_hash block_hash n)
  unfolding canonical_hash
  Keeps-canonical_hash n =
      Keeps-then P Any _ _ (keeps n)
        λ answer. Keeps-then P Any _ _ (Keeps-found P _ _) λ hash. Keeps-give P _

  pub Keeps-canonical_block_hashes :
      (ns : List ℕ) → Keeps P Any (canonical_block_hashes block_hash ns)
  unfolding canonical_block_hashes
  Keeps-canonical_block_hashes ns = Keeps-collect P _ Keeps-canonical_hash (add_ids [] ns)

  pub Keeps-assert_canonical_log_batch :
      (ws : List Window) (logs : List WatchLog) (hashes : Table ℕ ℕ)
      → Keeps P Any (assert_canonical_log_batch block_hash ws logs hashes)
  unfolding assert_canonical_log_batch check_boundary check_log
  Keeps-assert_canonical_log_batch ws logs hashes =
      Keeps-then P Any _ _ (Keeps-canonical_block_hashes _) λ canonical.
        Keeps-then P Any _ _ (Keeps-each P _ (λ n. Keeps-check P _ _) _) λ _.
          Keeps-then P Any _ _ (Keeps-each P _ (λ l. Keeps-check P _ _) logs) λ _. Keeps-give P _

  module _ (get_logs : (from to : ℕ) → Action S (List WatchLog))
      (on_batch : List Window → List WatchLog → Canonical → Action S (Unit {0}))
      (T : List WatchLog → Type 0) (reads : (from to : ℕ) → Keeps P T (get_logs from to))
      (handles : (ws : List Window) (results : List (List WatchLog)) (c : Canonical)
        → All T results
        → Keeps P Any (on_batch ws (flatten results) c)) where
    Keeps-scan_batch : (ws : List Window) → Keeps P Any (scan_batch block_hash get_logs on_batch ws)
    unfolding scan_batch
    Keeps-scan_batch ws = Keeps-then P Any _ _ (Keeps-canonical_block_hashes _) λ hashes.
        Keeps-bind P (All T) Any _ _ (Keeps-collect_all P T _ (λ (w : Window). reads w.0 w.1) ws)
          λ results answered.
            Keeps-then P Any _ _ (Keeps-assert_canonical_log_batch ws _ hashes)
              λ canonical. handles ws results canonical answered

    pub Keeps-query_logs_chunked :
        (lookback chunk concurrency from to : ℕ)
        → Keeps P Any
            (query_logs_chunked block_hash get_logs on_batch lookback chunk concurrency from to)
    unfolding query_logs_chunked
    Keeps-query_logs_chunked lookback chunk concurrency from to = Keeps-each P _ Keeps-scan_batch _
