-- ===== src/Watcher/Sync/Refines.antt =====
-- `syncThrough` keeps the cache a refinement of the chain, and scans up to its target.
use everdraw.Base.{
  ℕ, zero, suc, ◌+◌, ◌-◌, ◌≤◌, ◌<◌, ◌≡◌, refl, ap, ◌∙◌, not, List, [], ◌∷◌, append-nil, arith, max,
  min, ltb, leb, length, Bool-cases, inl, inr, Result, ok, err, String,
}
use everdraw.Logs.Ranges
use everdraw.Logs.Ranges.{Provider, get_logs_range_direct, windows, windows_from}
use everdraw.Logs.Ranges.Windows.{between}
use everdraw.Logs.Ranges.Complete.{logs_of, Honest, Faithful, get_logs_range_direct-Faithful}
use everdraw.Watcher.Actions.{Action, after, when, read, update, each, collect}
use everdraw.Watcher.Actions.Keeps.{
  Any, Post, Keeps, Keeps-then, Keeps-read, Post-after, Ends, Ends-mono, Keeps-when, Ends-after,
  Ends-Post,
}
use everdraw.Watcher.Batches.{
  Window, batches_of, ends_of, last_of, flatten, scan_batch, query_logs_chunked,
}
use everdraw.Watcher.Batches.Stable.{Keeps-canonical_block_hashes, Keeps-assert_canonical_log_batch}
use everdraw.Watcher.Cache.{CacheState, empty_state}
use everdraw.Watcher.Events.{WatchLog}
use everdraw.Watcher.Node.{Node, Config, Run, call, answered, ranged, security_range, save}
use everdraw.Watcher.Sync.{
  ingest_batch, rebuild, get_block, check_canonical, ensure_canonical, sync_batch, scan_through,
  sync_through,
}
use everdraw.Watcher.Sync.Holds.{Holds, ingest-Holds, ingest-scope, rebuild-Holds}

module _ {W : Type 0} (n : Node W) (cfg : Config) (block_logs : ℕ → List WatchLog) where
  -- The cache refines the chain, and its deployment is not in the first block.
  abbrev pub Refines : Run W → Type 0
  Refines s = Holds block_logs s.cache × (0 < s.cache.scope.from_block)

  -- The next block to scan.
  abbrev pub UpTo : ℕ → Run W → Type 0
  UpTo next s = Refines s × (s.cache.last_scanned_block + 1 ≡ next)

  -- What the scan leaves where it returns.
  abbrev pub Scanned : ℕ → Run W → Type 0
  Scanned target s = Refines s × (target ≤ s.cache.last_scanned_block)

  module _ (H : CacheState → Type 0) where
    Post-answered :
        {A : Type 0} (r : Result String A × W) (s : Run W)
        → H s.cache
        → Post (λ s. H s.cache) Any (answered r s)
    Post-answered (ok a, w) s h = record { state = h; result = tt }
    Post-answered (err e, w) s h = record { state = h; result = tt }

    Keeps-get_block : (block : ℕ) → Keeps (λ s. H s.cache) Any (get_block n cfg block)
    unfolding call
    Keeps-get_block block s h = Post-answered (n.head_block_hash block s.world) s h

    Post-ranged :
        (bs : List ℕ) (r : Result (Ranges.Failure String) (List WatchLog) × W) (s : Run W)
        → Faithful block_logs bs r
        → H s.cache
        → Post (λ s. H s.cache) (λ logs. logs ≡ logs_of block_logs bs) (ranged r s)
    Post-ranged bs (ok logs, w) s f h = record { state = h; result = f }
    Post-ranged bs (err (Ranges.thrown e), w) s f h = record { state = h; result = tt }
    Post-ranged bs (err Ranges.no_attempt, w) s f h = record { state = h; result = tt }
    Post-ranged bs (err Ranges.out_of_fuel, w) s f h = record { state = h; result = tt }

    module _ (honest : Honest block_logs n.security_logs) (tries : 0 < cfg.attempts) where
      Keeps-security_range :
          (from to : ℕ)
          → from ≤ to
          → Keeps
              (λ s. H s.cache)
              (λ logs. logs ≡ logs_of block_logs (between from to))
              (security_range n cfg from to)
      unfolding security_range
      Keeps-security_range from to le s h =
          Post-ranged (between from to) _ s
            (get_logs_range_direct-Faithful block_logs n.security_logs honest cfg.attempts
              (suc (to - from)) from to s.world tries (omega (arith, le)) (omega arith))
            h

  module _ (honest : Honest block_logs n.security_logs) (tries : 0 < cfg.attempts) where
    ingested :
        (logs : List WatchLog) (from to hash : ℕ) (c : CacheState)
        → from ≤ to
        → (Holds block_logs c × (0 < c.scope.from_block)) × (c.last_scanned_block + 1 ≡ from)
        → logs ≡ logs_of block_logs (between from to)
        → Holds block_logs (ingest_batch logs to hash c)
          × (0 < (ingest_batch logs to hash c).scope.from_block)
    ingested logs from to hash c le ((holds, pos), next) e =
        let first : from ≡ suc c.last_scanned_block = omega (arith, next) in
        (
          ingest-Holds block_logs logs to hash c holds (omega (arith, next, le))
              (e ∙ ap (λ k. logs_of block_logs (between k to)) first),
          rw (ingest-scope block_logs logs to hash c) pos,
        )

    -- One window, which is a batch of its own.
    Ends-window :
        (from to : ℕ) (s : Run W)
        → from ≤ to
        → UpTo from s
        → Ends (UpTo (suc to)) Refines (
            scan_batch
              (get_block n cfg)
              (security_range n cfg)
              (sync_batch n cfg)
              ((from, to) ∷ [])
              s)
    unfolding scan_batch collect flatten sync_batch save update ends_of last_of ingest_batch
    Ends-window from to s le h =
        let H : CacheState → Type 0 = λ c.
          (Holds block_logs c × (0 < c.scope.from_block)) × (c.last_scanned_block + 1 ≡ from) in
        Ends-Post (UpTo (suc to)) Refines (UpTo from) Any _ _ (λ s u. u.0)
          (Keeps-canonical_block_hashes (UpTo from) (get_block n cfg) (Keeps-get_block H) _ s h)
          λ hashes s _ h.
            Ends-Post (UpTo (suc to)) Refines (UpTo from)
              (λ results. flatten results ≡ logs_of block_logs (between from to)) _ _ (λ s u. u.0)
              (Post-after (UpTo from) _ _ (security_range n cfg from to s) _
                (Keeps-security_range H honest tries from to le s h)
                (λ logs e s h. record { state = h; result = append-nil logs ∙ e }))
              λ results s e h.
                Ends-Post (UpTo (suc to)) Refines (UpTo from) Any _ _ (λ s u. u.0)
                  (Keeps-assert_canonical_log_batch (UpTo from) (get_block n cfg)
                    (Keeps-get_block H) _ (flatten results) hashes s h)
                  λ canonical s _ h. (
                    ingested (flatten results) from to canonical.checkpoint_hash s.cache le h e,
                    omega arith,
                  )

    no_batches : (k : ℕ) → batches_of 1 k [] ≡ []
    unfolding batches_of
    no_batches zero = refl
    no_batches (suc k) = refl

    abbrev scan_batches : List (List Window) → Action (Run W) (Unit {0})
    scan_batches = each (scan_batch (get_block n cfg) (security_range n cfg) (sync_batch n cfg))

    Ends-nothing :
        (k to : ℕ) (s : Run W)
        → UpTo (suc to) s
        → Ends (UpTo (suc to)) Refines (scan_batches (batches_of 1 k []) s)
    unfolding each
    Ends-nothing k to s h = rw (no_batches k) h

    -- A window, and then the others.
    Ends-first :
        (size to batches from : ℕ) (ws : List Window) (s : Run W)
        → from ≤ to
        → suc (length ws) ≤ batches
        → 0 < size
        → UpTo from s
        → ((k : ℕ) (t : Run W)
            → length ws ≤ k
            → UpTo (min (from + size) (suc to)) t
            → Ends (UpTo (suc to)) Refines (scan_batches (batches_of 1 k ws) t))
        → Ends
            (UpTo (suc to))
            Refines
            (scan_batches (batches_of 1 batches ((from, min (from + size - 1) to) ∷ ws)) s)
    unfolding batches_of each
    Ends-first size to zero from ws s le len pos h rest = absurd (omega (arith, len))
    Ends-first size to (suc k) from ws s le len pos h rest =
        let last = min (from + size - 1) to in
        let next : suc last ≡ min (from + size) (suc to) = omega (arith, le, pos) in
        Ends-after (UpTo (suc to)) Refines (UpTo (suc last)) _ _
          (Ends-window from last s (omega (arith, le, pos)) h)
          (λ _ t u. rest k t (omega (arith, len)) (rw next at u))

    -- The windows from `from` on, one after the other.
    Ends-windows :
        (size to fuel batches from : ℕ) (s : Run W)
        → 0 < size
        → to + 1 ≤ from + fuel
        → length (windows_from size to fuel from) ≤ batches
        → UpTo (min from (suc to)) s
        → Ends
            (UpTo (suc to))
            Refines
            (scan_batches (batches_of 1 batches (windows_from size to fuel from)) s)
    unfolding windows_from
    Ends-windows size to zero batches from s pos enough len h =
        let all : min from (suc to) ≡ suc to = omega (arith, enough) in
        Ends-nothing batches to s (rw (← all) h)
    Ends-windows size to (suc fuel) batches from s pos enough len h =
        elim (Bool-cases (leb from to)) [
          | inl more ↦
              let here : min from (suc to) ≡ from = ground (arith, more) in
              let rest = λ (k : ℕ) (t : Run W).
                Ends-windows size to fuel k (from + size) t pos (omega (arith, pos, enough)) in
              rw more (
                Ends-first size to batches from (windows_from size to fuel (from + size)) s
                  (ground (arith, more)) (rw more at len) pos (rw here at h) rest)
          | inr past ↦
              let all : min from (suc to) ≡ suc to = ground (arith, past) in
              rw past (Ends-nothing batches to s (rw (← all) h))
        ]

    Ends-scan_through :
        (from target : ℕ) (s : Run W)
        → 0 < cfg.independent_chunk_size
        → target ≤ from + cfg.max_log_lookback
        → from ≤ target
        → UpTo from s
        → Ends (UpTo (suc target)) Refines (scan_through n cfg from target s)
    unfolding scan_through query_logs_chunked windows
    Ends-scan_through from target s pos near le h =
        let first : max from (target - cfg.max_log_lookback) ≡ from = omega (arith, near) in
        let here : min (max from (target - cfg.max_log_lookback)) (suc target) ≡ from =
          omega (arith, near, le) in
        Ends-windows cfg.independent_chunk_size target (target + 1) _
          (max from (target - cfg.max_log_lookback)) s pos (omega arith) (omega arith) (rw here h)

    -- The deployment's block lies within the lookback of the target.
    abbrev Near : ℕ → Run W → Type 0
    Near target s = Refines s × (target ≤ s.cache.scope.from_block + cfg.max_log_lookback)

    Keeps-save-rebuild : (target : ℕ) → Keeps (Near target) Any (save rebuild)
    unfolding save update rebuild empty_state
    Keeps-save-rebuild target s ((holds, pos), near) = record {
      state = ((rebuild-Holds block_logs s.cache pos, pos), near);
      result = tt;
    }

    Keeps-ensure_canonical : (target : ℕ) → Keeps (Near target) Any (ensure_canonical n cfg)
    unfolding ensure_canonical check_canonical
    Keeps-ensure_canonical target =
        let H : CacheState → Type 0 = λ c.
          (Holds block_logs c × (0 < c.scope.from_block))
          × (target ≤ c.scope.from_block + cfg.max_log_lookback) in
        Keeps-then (Near target) Any _ _ (Keeps-read (Near target) _) λ (c : CacheState).
          Keeps-when (Near target) _ _ (
            Keeps-then (Near target) Any _ _ (Keeps-get_block H c.last_scanned_block)
              λ hash. Keeps-when (Near target) _ _ (Keeps-save-rebuild target))

    Ends-resume :
        (target : ℕ) (s : Run W)
        → 0 < cfg.independent_chunk_size
        → Near target s
        → Ends (Scanned target) Refines (
            after
              (read
                (λ (s : Run W). max s.cache.scope.from_block (s.cache.last_scanned_block + 1))
                s)
              (λ from. when (not (ltb target from)) (scan_through n cfg from target)))
    unfolding read when
    Ends-resume target s pos (h, near) =
        let from = max s.cache.scope.from_block (s.cache.last_scanned_block + 1) in
        let next : from ≡ s.cache.last_scanned_block + 1 = omega (arith, h.0.reached) in
        elim (Bool-cases (ltb target from)) [
          | inl past ↦ rw past (h, ground (arith, past, next))
          | inr more ↦ rw more (
              Ends-mono (UpTo (suc target)) (Scanned target) Refines
                (scan_through n cfg from target s) (λ t u. (u.0, omega (arith, u.1)))
                (Ends-scan_through from target s pos (omega (arith, near)) (ground (arith, more))
                  (h, omega (arith, next))))
        ]

    -- With a security endpoint that answers with the chain's logs, and a target that the lookback
    -- reaches from the deployment's block, syncThrough keeps the cache a refinement of the chain
    -- however it ends: of each draw, its tables hold what the logs of the scanned blocks say last.
    -- Where it returns, the scan has reached the target.
    pub sync_through-Refines :
        (target : ℕ) (s : Run W)
        → 0 < cfg.independent_chunk_size
        → target ≤ s.cache.scope.from_block + cfg.max_log_lookback
        → Refines s
        → Ends (Scanned target) Refines (sync_through n cfg target s)
    unfolding sync_through
    sync_through-Refines target s pos near h =
        Ends-Post (Scanned target) Refines (Near target) Any _ _ (λ s u. u.0)
          (Keeps-ensure_canonical target s (h, near)) λ _ s _ h. Ends-resume target s pos h
