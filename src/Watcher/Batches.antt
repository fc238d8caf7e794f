-- ===== src/Watcher/Batches.antt =====
-- scripts/draw/write-watch-inputs.mjs, `canonicalBlockHashes`, `assertCanonicalLogBatch` and
-- `queryLogsChunked`: a scan of the chain whose blocks are asked for before and after the logs of
-- each batch. The windows of a batch are read one after the other, which is the default concurrency;
-- the parallel reads of a larger one are not modelled, nor are the log lines. `block_hash` is
-- `getBlock(block)?.hash`, its retries and timeouts included.
pub mod Stable
pub mod Passes
use everdraw.Base.{
  ℕ, zero, suc, ◌+◌, Bool, true, false, not, ◌&&◌, ◌||◌, Option, none, some, List, [], ◌∷◌, ◌++◌,
  map, ◌==◌, if◌then◌else◌, take, drop, length, add_ids, Table, find_number, ok,
}
use everdraw.Logs.Ranges.{windows}
use everdraw.Watcher.Actions.{
  Action, after, give, throw, throw_if, or_fail, ◌>>=◌, ◌>>◌, each, collect, missing_block,
  range_changed, log_mismatch,
}
use everdraw.Watcher.Events.{WatchLog}

abbrev pub Window : Type 0
Window = ℕ × ℕ

-- `windows.flat()`.
unfoldable pub ends_of : List Window → List ℕ
ends_of [] = []
ends_of ((from, to) ∷ ws) = from ∷ to ∷ ends_of ws

unfoldable pub flatten : {A : Type 0} → List (List A) → List A
flatten [] = []
flatten (xs ∷ xss) = xs ++ flatten xss

unfoldable pub last_of : ℕ → List ℕ → ℕ
last_of d [] = d
last_of d (n ∷ ns) = last_of n ns

-- What a batch that stood is: the hashes that were read last, and the block it ends with.
pub record Canonical : Type 0 where
  pub boundary_hashes : Table ℕ ℕ
  pub checkpoint_block : ℕ
  pub checkpoint_hash : ℕ

-- `slice(i, i + concurrency)`, until the windows are used up; the fuel is enough if there are no more
-- windows.
unfoldable pub batches_of : (concurrency fuel : ℕ) → List Window → List (List Window)
batches_of concurrency zero ws = []
batches_of concurrency (suc fuel) [] = []
batches_of concurrency (suc fuel) (w ∷ ws) =
    take concurrency (w ∷ ws) ∷ batches_of concurrency fuel (drop concurrency (w ∷ ws))

module _ {S : Type 0} (block_hash : ℕ → Action S (Option ℕ)) where
  -- The empty text is no hash.
  abbrev pub present : Option ℕ → Option ℕ
  present none = none
  present (some hash) = if hash == 0 then none else some hash

  unfoldable pub canonical_hash : ℕ → Action S (ℕ × ℕ)
  canonical_hash n = do
    answer ← block_hash n
    hash ← or_fail (missing_block n) (present answer)
    give (n, hash)

  unfoldable pub canonical_block_hashes : List ℕ → Action S (Table ℕ ℕ)
  canonical_block_hashes numbers = collect canonical_hash (add_ids [] numbers)

  -- Two reads of a block that agree; no answer agrees with none.
  abbrev pub agrees : Option ℕ → Option ℕ → Bool
  agrees (some expected) (some actual) = actual == expected
  agrees (some expected) none = false
  agrees none actual = false

  unfoldable pub check_boundary : (boundary_hashes canonical : Table ℕ ℕ) → ℕ → Action S (Unit {0})
  check_boundary boundary_hashes canonical n =
      throw_if (not (agrees (find_number n boundary_hashes) (find_number n canonical)))
        (range_changed n)

  abbrev pub has_hash : ℕ → Option ℕ → Bool
  has_hash hash none = false
  has_hash hash (some actual) = not (hash == 0) && (hash == actual)

  unfoldable pub check_log : (canonical : Table ℕ ℕ) → WatchLog → Action S (Unit {0})
  check_log canonical l =
      throw_if (not (has_hash l.block_hash (find_number l.block_number canonical)))
        (log_mismatch l.block_number)

  abbrev pub or_zero : Option ℕ → ℕ
  or_zero none = 0
  or_zero (some n) = n

  unfoldable pub assert_canonical_log_batch :
      List Window → List WatchLog → (boundary_hashes : Table ℕ ℕ) → Action S Canonical
  assert_canonical_log_batch windows logs boundary_hashes =
      let boundary = add_ids [] (ends_of windows) in
      do
        canonical ← canonical_block_hashes (boundary ++ map (λ l. l.block_number) logs)
        each (check_boundary boundary_hashes canonical) boundary
        each (check_log canonical) logs
        give (record {
          boundary_hashes = canonical;
          checkpoint_block = last_of 0 boundary;
          checkpoint_hash = or_zero (find_number (last_of 0 boundary) canonical);
        })

  module _ (get_logs : (from to : ℕ) → Action S (List WatchLog))
      (on_batch : List Window → List WatchLog → Canonical → Action S (Unit {0})) where
    unfoldable pub scan_batch : List Window → Action S (Unit {0})
    scan_batch batch = do
      boundary_hashes ← canonical_block_hashes (ends_of batch)
      results ← collect (λ (w : Window). get_logs w.0 w.1) batch
      canonical ← assert_canonical_log_batch batch (flatten results) boundary_hashes
      on_batch batch (flatten results) canonical

    -- The logs that it returns are not used where it is called.
    unfoldable pub query_logs_chunked :
        (max_log_lookback chunk_size concurrency from to : ℕ) → Action S (Unit {0})
    query_logs_chunked max_log_lookback chunk_size concurrency from to =
        let ws = windows max_log_lookback chunk_size from to in
        each scan_batch (batches_of concurrency (length ws) ws)
