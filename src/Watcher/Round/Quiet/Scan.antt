-- ===== src/Watcher/Round/Quiet/Scan.antt =====
-- A scan of a quiet chain returns, and the state file is that of its last block.
use everdraw.Base.{
  ℕ, zero, suc, ◌+◌, ◌-◌, ◌≤◌, ◌<◌, ◌≡◌, refl, ◌∙◌, ap, Bool, true, false, List, [], ◌∷◌, arith,
  leb, ◌==◌, keep, length, min, max, All, Bool-cases, inl, inr, add_ids, append-nil,
}
use everdraw.Logs.Cache.{Scope}
use everdraw.Logs.Ranges.{windows, windows_from}
use everdraw.Watcher.Actions.{Action, after, give, when, read, update, each, collect}
use everdraw.Watcher.Actions.Keeps.{Any}
use everdraw.Watcher.Actions.Gives.{
  Gives, Gives-after, Gives-each, Gives-when, Gives-update, Gives-mono,
}
use everdraw.Watcher.Batches.{
  Window, Canonical, batches_of, ends_of, last_of, flatten, scan_batch, query_logs_chunked,
}
use everdraw.Watcher.Batches.Passes.{
  Agrees, Gives-canonical_block_hashes, Gives-assert_canonical_log_batch,
}
use everdraw.Watcher.Events.{
  WatchEvent, WatchLog, transfer, seed_received, root_proposed, root_finalized, privileged, other,
  sort_logs,
}
use everdraw.Watcher.Node.{Node, Config, Run, head_range, note}
use everdraw.Watcher.Sync.{get_block}
use everdraw.Watcher.Round.{
  is_manager, can_checkpoint_batch, write_state, tell_change, on_proposal, on_finalization,
  reconstruct_logs, on_batch, scan,
}
use everdraw.Watcher.Round.Quiet.{
  is_tame, Tame, Quiet, Idle, At, Gives-call, Gives-head_range, Gives-get_block, All-keep,
  All-sort_logs, All-OnChain, All-any, last_end, end_there, both_ends,
}

module _ {W : Type 0} (n : Node W) (cfg : Config) (hash : ℕ → ℕ) (latest : ℕ)
    (quiet : Quiet n cfg hash latest) (tries : 0 < cfg.attempts) (enforce : Bool) where
  abbrev pub scope_of : Scope
  scope_of = record {
    chain_id = cfg.expected_chain_id;
    draw_manager_address = cfg.draw_manager_address;
    vault_address = cfg.prize_vault;
    from_block = cfg.from_block;
  }

  abbrev Calm : Run W → Type 0
  Calm = Idle n cfg hash latest

  abbrev Marks : ℕ → Run W → Type 0
  Marks = At n cfg hash latest

  Gives-tell_change :
      (l : WatchLog) (s : Run W) → Calm s → Gives Calm Any (tell_change n cfg scope_of enforce l s)
  unfolding tell_change
  Gives-tell_change l s h = Gives-when Calm enforce _ s h λ _.
      Gives-mono Calm (λ u. u ≡ tt) Any _ (λ _ _. tt)
        (Gives-call n cfg hash latest quiet tries Calm tt _ s (quiet.notified l s.world) (λ w. h))

  Gives-on_proposal :
      (block : ℕ) (e : WatchEvent) (s : Run W)
      → is_tame e ≡ true
      → Calm s
      → Gives Calm Any (on_proposal n cfg scope_of enforce block e s)
  unfolding on_proposal give
  Gives-on_proposal block (root_proposed d root ends) s t h = absurd (cc t)
  Gives-on_proposal block (root_finalized d root) s t h = (h, tt)
  Gives-on_proposal block (transfer from to) s t h = (h, tt)
  Gives-on_proposal block (seed_received d seed) s t h = (h, tt)
  Gives-on_proposal block (privileged name) s t h = (h, tt)
  Gives-on_proposal block other s t h = (h, tt)

  Gives-on_finalization :
      (block : ℕ) (e : WatchEvent) (s : Run W)
      → is_tame e ≡ true
      → Calm s
      → Gives Calm Any (on_finalization n cfg scope_of enforce block e s)
  unfolding on_finalization give
  Gives-on_finalization block (root_finalized d root) s t h = absurd (cc t)
  Gives-on_finalization block (root_proposed d root ends) s t h = (h, tt)
  Gives-on_finalization block (transfer from to) s t h = (h, tt)
  Gives-on_finalization block (seed_received d seed) s t h = (h, tt)
  Gives-on_finalization block (privileged name) s t h = (h, tt)
  Gives-on_finalization block other s t h = (h, tt)

  -- What is written is the block's state.
  pub Gives-write_state :
      (block : ℕ) (watched : Bool) (s : Run W)
      → Calm s
      → s.last_checkpoint_hash ≡ hash block
      → Gives (Marks block) Any (write_state n cfg scope_of block watched s)
  unfolding write_state note update
  Gives-write_state block watched s h e = ((h, (_, refl, refl, refl, refl, refl, refl, e), e), tt)

  -- The end of a batch: nothing was found, so the cursor moves.
  Gives-checkpoint :
      (block : ℕ) (s : Run W)
      → Calm s
      → s.last_checkpoint_hash ≡ hash block
      → Gives (Marks block) Any (
          after
            (read (λ (s : Run W). length s.root_mismatches) s)
            (λ k. when (can_checkpoint_batch k) (write_state n cfg scope_of block enforce)))
  unfolding read when can_checkpoint_batch
  Gives-checkpoint block s h e =
      let none_found : (length s.root_mismatches == 0) ≡ true = rw h.0 in
      rw none_found (Gives-write_state block enforce s h e)

  managed :
      (logs : List WatchLog)
      → All (Tame n cfg hash latest) logs
      → All (Tame n cfg hash latest) (sort_logs (keep (is_manager n cfg scope_of enforce) logs))
  managed logs tame =
      All-sort_logs n cfg hash latest quiet tries _ _
        (All-keep n cfg hash latest quiet tries _ _ logs tame)

  Gives-on_batch :
      (from to : ℕ) (logs : List WatchLog) (c : Canonical) (s : Run W)
      → All (Tame n cfg hash latest) logs
      → Agrees Calm
          (get_block n cfg)
          hash
          quiet.hashes_there
          (λ b s h. Gives-get_block n cfg hash latest quiet tries Calm b s (λ w. h))
          (add_ids [] (from ∷ to ∷ []))
          c.boundary_hashes
      → Calm s
      → Gives (Marks to) Any (on_batch n cfg scope_of enforce ((from, to) ∷ []) logs c s)
  unfolding on_batch reconstruct_logs ends_of last_of
  Gives-on_batch from to logs c s tame agree h =
      let asks = λ (b : ℕ) (s : Run W) (h : Calm s).
        Gives-get_block n cfg hash latest quiet tries Calm b s (λ w. h) in
      Gives-after Calm (Marks to) Any Any _ _ (Gives-update Calm _ s h) λ _ s _ h.
        Gives-after Calm (Marks to) Any Any _ _ (Gives-update Calm _ s h) λ _ s _ h.
          Gives-after Calm (Marks to) Any Any _ _
            (Gives-each Calm (λ _. Unit {0}) _ (λ l s _ h. Gives-tell_change l s h) _ s
              (All-any n cfg hash latest quiet tries _) h)
            λ _ s _ h.
              Gives-after Calm (Marks to) Any Any _ _
                (Gives-each Calm (Tame n cfg hash latest) _
                  (λ l s t h. Gives-on_proposal l.block_number l.event s t.1 h) _ s
                  (managed logs tame) h)
                λ _ s _ h.
                  Gives-after Calm (Marks to) Any Any _ _
                    (Gives-each Calm (Tame n cfg hash latest) _
                      (λ l s t h. Gives-on_finalization l.block_number l.event s t.1 h) _ s
                      (managed logs tame) h)
                    λ _ s _ h.
                      Gives-after Calm (Marks to) _ Any _ _
                        (Gives-assert_canonical_log_batch Calm (get_block n cfg) hash
                          quiet.hashes_there asks ((from, to) ∷ []) logs c.boundary_hashes s
                          (end_there n cfg hash latest quiet tries from to) agree
                          (All-OnChain n cfg hash latest quiet tries Calm logs tame) h)
                        λ verified s passed h.
                          let end : verified.checkpoint_hash ≡ hash to =
                            passed.last
                            ∙ ap hash (last_end n cfg hash latest quiet tries from to) in
                          Gives-after (λ s. Calm s × (s.last_checkpoint_hash ≡ hash to)) (Marks to)
                            Any Any _ _
                            (Gives-update (λ s. Calm s × (s.last_checkpoint_hash ≡ hash to)) _ s
                              (h, end))
                            λ _ s _ h. Gives-checkpoint to s h.0 h.1

  Gives-window :
      (from to : ℕ) (s : Run W)
      → Calm s
      → Gives (Marks to) Any (
          scan_batch
            (get_block n cfg)
            (head_range n cfg)
            (on_batch n cfg scope_of enforce)
            ((from, to) ∷ [])
            s)
  unfolding scan_batch collect flatten ends_of
  Gives-window from to s h =
      let asks = λ (b : ℕ) (s : Run W) (h : Calm s).
        Gives-get_block n cfg hash latest quiet tries Calm b s (λ w. h) in
      Gives-after Calm (Marks to) _ Any _ _
        (Gives-canonical_block_hashes Calm (get_block n cfg) hash quiet.hashes_there asks
          (from ∷ to ∷ []) s h)
        λ hashes s agree h.
          Gives-after Calm (Marks to) (λ results. All (Tame n cfg hash latest) (flatten results))
            Any _ _
            (Gives-after Calm Calm _ _ _ _
              (Gives-head_range n cfg hash latest quiet tries Calm from to s (λ w. h))
              (λ logs s tame h. (h, rw (append-nil logs) tame)))
            λ results s tame h.
              Gives-after Calm (Marks to) _ Any _ _
                (Gives-assert_canonical_log_batch Calm (get_block n cfg) hash quiet.hashes_there
                  asks ((from, to) ∷ []) (flatten results) hashes s
                  (end_there n cfg hash latest quiet tries from to)
                  (λ b there. agree b (both_ends n cfg hash latest quiet tries from to b there))
                  (All-OnChain n cfg hash latest quiet tries Calm _ tame) h)
                λ canonical s passed h.
                  Gives-on_batch from to (flatten results) canonical s tame passed.hashes h

  abbrev scan_batches : List (List Window) → Action (Run W) (Unit {0})
  scan_batches =
      each (scan_batch (get_block n cfg) (head_range n cfg) (on_batch n cfg scope_of enforce))

  Gives-first :
      (to batches from last : ℕ) (ws : List Window) (s : Run W)
      → suc (length ws) ≤ batches
      → Calm s
      → ((k : ℕ) (t : Run W)
          → length ws ≤ k
          → Marks last t
          → Gives (Marks to) Any (scan_batches (batches_of 1 k ws) t))
      → Gives (Marks to) Any (scan_batches (batches_of 1 batches ((from, last) ∷ ws)) s)
  unfolding batches_of each
  Gives-first to zero from last ws s len h rest = absurd (omega (arith, len))
  Gives-first to (suc k) from last ws s len h rest =
      Gives-after (Marks last) (Marks to) Any Any _ _ (Gives-window from last s h)
        (λ _ t _ m. rest k t (omega (arith, len)) m)

  Gives-nothing :
      (k to : ℕ) (t : Run W)
      → Marks to t
      → Gives (Marks to) Any (scan_batches (batches_of 1 k []) t)
  unfolding batches_of each
  Gives-nothing zero to t m = (m, tt)
  Gives-nothing (suc k) to t m = (m, tt)

  no_windows : (size to fuel from : ℕ) → to < from → windows_from size to fuel from ≡ []
  unfolding windows_from
  no_windows size to zero from lt = refl
  no_windows size to (suc fuel) from lt =
      let past : leb from to ≡ false = ground (arith, lt) in rw past

  Gives-windows :
      (size to fuel batches from : ℕ) (s : Run W)
      → 0 < size
      → from ≤ to
      → to < from + fuel
      → length (windows_from size to fuel from) ≤ batches
      → Calm s
      → Gives
          (Marks to)
          Any
          (scan_batches (batches_of 1 batches (windows_from size to fuel from)) s)
  unfolding windows_from
  Gives-windows size to zero batches from s pos le enough len h = absurd (omega (arith, le, enough))
  Gives-windows size to (suc fuel) batches from s pos le enough len h =
      let more : leb from to ≡ true = ground (arith, le) in
      let last = min (from + size - 1) to in
      rw more (
        Gives-first to batches from last (windows_from size to fuel (from + size)) s
          (rw more at len) h
          λ k t len m. elim (Bool-cases (leb (from + size) to)) [
            | inl further ↦
                Gives-windows size to fuel k (from + size) t pos (ground (arith, further))
                  (omega (arith, pos, enough)) len m.0
            | inr done ↦
                let past : to < from + size = ground (arith, done) in
                let end : last ≡ to = omega (arith, past) in
                rw (no_windows size to fuel (from + size) past) (Gives-nothing k to t (rw end at m))
          ])

  one_by_one :
      (size k to : ℕ) (ws : List Window) (s : Run W)
      → size ≡ 1
      → Gives (Marks to) Any (scan_batches (batches_of 1 k ws) s)
      → Gives (Marks to) Any (scan_batches (batches_of size k ws) s)
  one_by_one size k to ws s e h = rw e h

  -- A scan returns, and the state file is that of its last block.
  pub Gives-scan :
      (from to : ℕ) (s : Run W)
      → 0 < cfg.chunk_size
      → cfg.concurrency ≡ 1
      → from ≤ to
      → Calm s
      → Gives (Marks to) Any (scan n cfg scope_of enforce from to s)
  unfolding scan query_logs_chunked windows
  Gives-scan from to s pos one le h =
      let first : max from (to - cfg.max_log_lookback) ≤ to = omega (arith, le) in
      one_by_one cfg.concurrency _ to
        (windows_from cfg.chunk_size to (to + 1) (max from (to - cfg.max_log_lookback))) s one
        (Gives-windows cfg.chunk_size to (to + 1) _ (max from (to - cfg.max_log_lookback)) s pos
          first (omega arith) (omega arith) h)
