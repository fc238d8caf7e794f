-- ===== src/Watcher/Round/Safe.antt =====
-- Every part of a run keeps it safe.
use everdraw.Base.{
  ℕ, ◌≡◌, refl, Bool, true, false, Option, some, List, [], ◌∷◌, arith, length, ◌==◌,
}
use everdraw.Logs.Cache.{Scope}
use everdraw.Watcher.Actions.{Action, finalizations, after, read, when, update}
use everdraw.Watcher.Actions.Keeps.{
  Any, Post, Keeps, Keeps-then, Keeps-give, Keeps-when, Keeps-each, Keeps-if, Post-after,
}
use everdraw.Watcher.Batches.{flatten, Window, Canonical, last_of, ends_of}
use everdraw.Watcher.Batches.Stable.{Keeps-query_logs_chunked, Keeps-assert_canonical_log_batch}
use everdraw.Watcher.Cache.{mark_finalization_handled}
use everdraw.Watcher.Events.{
  WatchEvent, WatchLog, transfer, seed_received, root_proposed, root_finalized, privileged, other,
}
use everdraw.Watcher.Node.{Alarm, finalized_mismatch, Node, Config, Run, WatcherState, note}
use everdraw.Watcher.Invariant.{
  Marked-same, IsSafe, Keeps-call, Keeps-save, Keeps-variables, Keeps-head_range,
}
use everdraw.Watcher.Sync.{get_block}
use everdraw.Watcher.Sync.Safe.{Keeps-get_block}
use everdraw.Watcher.Verify.{Verification, live}
use everdraw.Watcher.Verify.Recomputed.{
  Free, Keeps-mismatch, Keeps-verify_independent_root, Keeps-verify_proposal,
  Keeps-publish_claim_proofs,
}
use everdraw.Watcher.Round.{
  can_checkpoint_batch, write_state, tell_change, on_proposal, handle_finalization, on_finalization,
  reconstruct_logs, keep_hash, on_batch, scan,
}

module _ {W : Type 0} (n : Node W) (cfg : Config) (file : Option WatcherState) where
  abbrev Safe : Run W → Type 0
  Safe = IsSafe n cfg file Free

  module _ (More : List Alarm → Type 0) where
    -- The state file is written while there is no mismatch.
    pub Post-write_state :
        (scope : Scope) (block : ℕ) (watched : Bool) (s : Run W)
        → IsSafe n cfg file More s
        → s.root_mismatches ≡ []
        → Post (IsSafe n cfg file More) Any (write_state n cfg scope block watched s)
    unfolding write_state note update
    Post-write_state scope block watched s h calm = record {
      state = record {
        marked = h.marked;
        filed = h.filed;
        orderly = (h.calm calm, h.orderly);
        calm = h.calm;
        counted = h.counted;
        written = (_, refl, refl);
        more = h.more;
      };
      result = tt;
    }

  no_alarms : (ms : List Alarm) → can_checkpoint_batch (length ms) ≡ true → ms ≡ []
  unfolding can_checkpoint_batch
  no_alarms [] e = refl
  no_alarms (m ∷ ms) e = absurd (ground (arith, e))

  module _ (scope : Scope) (enforce : Bool) where
    Keeps-on_proposal :
        (block : ℕ) (e : WatchEvent) → Keeps Safe Any (on_proposal n cfg scope enforce block e)
    unfolding on_proposal
    Keeps-on_proposal block (root_proposed d root ends) s h =
        Post-after Safe _ Any _ _
          (Keeps-verify_proposal n cfg file enforce d root block (some ends) live s h)
          (λ _ _. Keeps-give Safe _)
    Keeps-on_proposal block (root_finalized d root) s h = Keeps-give Safe _ s h
    Keeps-on_proposal block (transfer from to) s h = Keeps-give Safe _ s h
    Keeps-on_proposal block (seed_received d seed) s h = Keeps-give Safe _ s h
    Keeps-on_proposal block (privileged name) s h = Keeps-give Safe _ s h
    Keeps-on_proposal block other s h = Keeps-give Safe _ s h

    pub Keeps-handle_finalization :
        (d root : ℕ) (v : Verification)
        → Keeps Safe Any (handle_finalization n cfg scope enforce d root v)
    unfolding handle_finalization mark_finalization_handled
    Keeps-handle_finalization d root v =
        Keeps-then Safe Any _ _ (Keeps-publish_claim_proofs n cfg file d v.root) λ _.
          Keeps-save n cfg file Free _ (λ c h. Marked-same n cfg c _ refl refl refl refl refl h)

    Keeps-on_finalization :
        (block : ℕ) (e : WatchEvent) → Keeps Safe Any (on_finalization n cfg scope enforce block e)
    unfolding on_finalization
    Keeps-on_finalization block (root_finalized d root) s h =
        Post-after Safe _ Any _ _
          (Keeps-verify_independent_root n cfg file d root finalizations block s h)
          λ v _.
            Keeps-if Safe Any (v.root == root) _ _ (λ _. Keeps-handle_finalization d root v)
              (λ _. Keeps-mismatch n cfg file (finalized_mismatch d root v.root))
    Keeps-on_finalization block (root_proposed d root ends) s h = Keeps-give Safe _ s h
    Keeps-on_finalization block (transfer from to) s h = Keeps-give Safe _ s h
    Keeps-on_finalization block (seed_received d seed) s h = Keeps-give Safe _ s h
    Keeps-on_finalization block (privileged name) s h = Keeps-give Safe _ s h
    Keeps-on_finalization block other s h = Keeps-give Safe _ s h

    Keeps-tell_change : (l : WatchLog) → Keeps Safe Any (tell_change n cfg scope enforce l)
    unfolding tell_change
    Keeps-tell_change l = Keeps-when Safe _ _ (Keeps-call n cfg file Free _)

    Keeps-keep_hash : (hash : ℕ) → Keeps Safe Any (keep_hash n cfg scope enforce hash)
    Keeps-keep_hash hash =
        Keeps-variables n cfg file Free _ (λ s. refl) (λ s. refl) (λ s. refl) (λ s. omega arith)
          (λ s. refl) (λ s. refl)

    Keeps-reconstruct_logs :
        (logs : List WatchLog) → Keeps Safe Any (reconstruct_logs n cfg scope enforce logs)
    unfolding reconstruct_logs
    Keeps-reconstruct_logs logs =
        Keeps-variables n cfg file Free _ (λ s. refl) (λ s. refl) (λ s. refl) (λ s. omega arith)
          (λ s. refl) (λ s. refl)

    Post-when_calm :
        (b : Bool) (m : Action (Run W) (Unit {0})) (s : Run W)
        → Safe s
        → (b ≡ true → Post Safe Any (m s))
        → Post Safe Any (when b m s)
    unfolding when
    Post-when_calm true m s h k = k refl
    Post-when_calm false m s h k = record { state = h; result = tt }

    Keeps-checkpoint :
        (ws : List Window)
        → Keeps Safe Any (λ s. after (read (λ (s : Run W). length s.root_mismatches) s) (λ k.
          when (can_checkpoint_batch k) (write_state n cfg scope (last_of 0 (ends_of ws)) enforce)))
    unfolding read
    Keeps-checkpoint ws s h =
        Post-when_calm _ _ s h
          (λ e. Post-write_state Free scope _ enforce s h (no_alarms s.root_mismatches e))

    Keeps-on_batch :
        (ws : List Window) (logs : List WatchLog) (c : Canonical)
        → Keeps Safe Any (on_batch n cfg scope enforce ws logs c)
    unfolding on_batch
    Keeps-on_batch ws logs c = Keeps-then Safe Any _ _ (Keeps-reconstruct_logs logs) λ _.
        Keeps-then Safe Any _ _ (Keeps-keep_hash c.checkpoint_hash) λ _.
          Keeps-then Safe Any _ _ (Keeps-each Safe _ Keeps-tell_change _) λ _.
            Keeps-then Safe Any _ _
              (Keeps-each Safe _ (λ l. Keeps-on_proposal l.block_number l.event) _)
              λ _.
                Keeps-then Safe Any _ _
                  (Keeps-each Safe _ (λ l. Keeps-on_finalization l.block_number l.event) _)
                  λ _.
                    Keeps-then Safe Any _ _
                      (Keeps-assert_canonical_log_batch Safe (get_block n cfg)
                        (Keeps-get_block n cfg file Free) ws logs c.boundary_hashes)
                      λ verified.
                        Keeps-then Safe Any _ _ (Keeps-keep_hash verified.checkpoint_hash)
                          λ _. Keeps-checkpoint ws

    pub Keeps-scan : (from to : ℕ) → Keeps Safe Any (scan n cfg scope enforce from to)
    unfolding scan
    Keeps-scan from to =
        Keeps-query_logs_chunked Safe (get_block n cfg) (Keeps-get_block n cfg file Free) _ _ Any
          (Keeps-head_range n cfg file Free)
          (λ ws results c _. Keeps-on_batch ws (flatten results) c) _ _ _ _ _
