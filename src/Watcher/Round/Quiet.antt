-- ===== src/Watcher/Round/Quiet.antt =====
-- On a chain where nothing is proposed and every call is answered, a scan returns and moves the
-- cursor to its end.
pub mod Scan
pub mod Ending
pub mod Resume
pub mod CatchUp
use everdraw.Base.{
  ℕ, zero, suc, ◌+◌, ◌-◌, ◌≤◌, ◌<◌, ◌≡◌, ◌≢◌, refl, sym, ◌∙◌, ap, Bool, true, false, not, ◌&&◌,
  ◌||◌, Option, none, some, List, [], ◌∷◌, ◌++◌, arith, ltb, leb, ◌==◌, if◌then◌else◌, has, keep,
  length, min, max, All, All-sort_by, Bool-cases, inl, inr, Result, ok, err, add_id, add_ids,
  String, append-nil, subst,
}
use everdraw.Logs.Cache.{Scope}
use everdraw.Logs.Ranges
use everdraw.Logs.Ranges.{Provider, Read, windows, windows_from}
use everdraw.Logs.Retries.{get_logs_range, retry_transient, tried}
use everdraw.Watcher.Actions.{Action, Failure, after, give, when, read, update, each, collect}
use everdraw.Watcher.Actions.Keeps.{Any}
use everdraw.Watcher.Actions.Gives.{
  Gives, Gives-after, Gives-each, Gives-give, Gives-read, Gives-when, Gives-update, Gives-mono,
}
use everdraw.Watcher.Batches.{
  Window, Canonical, batches_of, ends_of, last_of, flatten, scan_batch, query_logs_chunked,
  canonical_block_hashes,
}
use everdraw.Watcher.Batches.Passes.{
  Agrees, OnChain, Passed, Gives-canonical_block_hashes, Gives-assert_canonical_log_batch,
}
use everdraw.Watcher.Events.{
  WatchEvent, WatchLog, transfer, seed_received, root_proposed, root_finalized, privileged, other,
  sort_logs,
}
use everdraw.Watcher.Node.{
  privileged_change, DrawView, Node, Config, WatcherState, Run, call, answered, ranged, head_range,
  note,
}
use everdraw.Watcher.Sync.{get_block}
use everdraw.Watcher.Round.{
  is_privileged, is_manager, can_checkpoint_batch, write_state, tell_change, on_proposal,
  on_finalization, reconstruct_logs, keep_hash, on_batch, scan,
}

-- No event about a root.
abbrev pub is_tame : WatchEvent → Bool
is_tame (root_proposed d root ends) = false
is_tame (root_finalized d root) = false
is_tame (transfer from to) = true
is_tame (seed_received d seed) = true
is_tame (privileged name) = true
is_tame other = true

module _ {W L : Type 0} where
  answered_at_once :
      (is_transient : String → Bool) (left : ℕ) (again : Read W String L)
      (r : Result String (List L) × W) (ls : List L)
      → r.0 ≡ ok ls
      → tried is_transient left again r ≡ (ok ls, r.1)
  answered_at_once t left again (ok x, w) ls e = let same : x ≡ ls = cc in rw same
  answered_at_once t left again (err x, w) ls e = cc

  retry-answered :
      (is_transient : String → Bool) (attempts : ℕ) (call : W → Result String (List L) × W) (w : W)
      (ls : List L)
      → 0 < attempts
      → (call w).0 ≡ ok ls
      → retry_transient is_transient attempts call w ≡ (ok ls, (call w).1)
  unfolding retry_transient
  retry-answered t zero call w ls pos e = absurd (omega (arith, pos))
  retry-answered t (suc left) call w ls pos e =
      answered_at_once t left (retry_transient t left call) (call w) ls e

  -- Where the first provider answers, its answer is taken.
  range-answered :
      (fast slow : Provider W String L) (use_caller : Bool) (attempts fuel from to : ℕ) (w : W)
      (ls : List L)
      → 0 < attempts
      → (fast.get_logs from to w).0 ≡ ok ls
      → (get_logs_range fast slow use_caller attempts (suc fuel) from to w).0 ≡ ok ls
  unfolding get_logs_range
  range-answered fast slow true attempts fuel from to w ls pos e =
      rw (retry-answered fast.is_transient attempts (fast.get_logs from to) w ls pos e)
  range-answered fast slow false attempts fuel from to w ls pos e =
      rw (retry-answered fast.is_transient attempts (fast.get_logs from to) w ls pos e)

module _ {W : Type 0} (n : Node W) (cfg : Config) (hash : ℕ → ℕ) (latest : ℕ) where
  abbrev pub Tame : WatchLog → Type 0
  Tame l = (l.block_hash ≡ hash l.block_number) × (is_tame l.event ≡ true)

  -- Every call of the head endpoint is answered, always by the same chain, and no draw is proposed.
  pub record Quiet : Type 0 where
    pub chain : (w : W) → (n.head_chain_id w).0 ≡ ok cfg.expected_chain_id
    pub code : (w : W) → (n.head_has_code w).0 ≡ ok true
    pub number : (w : W) → (n.head_number w).0 ≡ ok latest
    pub vault : (w : W) → (n.vault w).0 ≡ ok cfg.prize_vault
    pub hashes : (b : ℕ) (w : W) → (n.head_block_hash b w).0 ≡ ok (some (hash b))
    pub hashes_there : (b : ℕ) → hash b ≢ 0
    pub logs :
        (from to : ℕ) (w : W)
        → (ls : List WatchLog) × ((n.fast_logs.get_logs from to w).0 ≡ ok ls) × All Tame ls
    pub draw_id : (w : W) → (d : ℕ) × ((n.current_draw_id w).0 ≡ ok d)
    pub draw : (d : ℕ) (w : W) → (v : DrawView) × ((n.draw d w).0 ≡ ok v) × (v.status < 3)
    pub notified : (l : WatchLog) (w : W) → (n.notify (privileged_change l) w).0 ≡ ok tt

  -- Nothing was found, and the cache was not used.
  abbrev pub Idle : Run W → Type 0
  Idle s =
      (s.root_mismatches ≡ [])
      × (s.coverage_failures ≡ [])
      × (s.cache.last_scanned_block_hash ≡ 0)
      × (s.cache.coverage_incidents ≡ [])
      × (s.independent_file ≡ none)

  -- The state file of a deployment, written at a block.
  abbrev pub Cursor : ℕ → Option WatcherState → Type 0
  Cursor block o =
      (st : WatcherState) × (o ≡ some st)
      × (st.chain_id ≡ cfg.expected_chain_id)
      × (st.draw_manager_address ≡ cfg.draw_manager_address)
      × (st.vault_address ≡ cfg.prize_vault)
      × (st.from_block ≡ cfg.from_block)
      × (st.last_scanned_block ≡ block)
      × (st.last_scanned_block_hash ≡ hash block)

  abbrev pub At : ℕ → Run W → Type 0
  At block s = Idle s × Cursor block s.state_file × (s.last_checkpoint_hash ≡ hash block)

  module _ (quiet : Quiet) (tries : 0 < cfg.attempts) where
    Gives-answered :
        {A : Type 0} (P : Run W → Type 0) (a : A) (r : Result String A × W) (s : Run W)
        → r.0 ≡ ok a
        → ((w : W) → P (record s { world = w }))
        → Gives P (λ x. x ≡ a) (answered r s)
    Gives-answered P a (ok x, w) s e p = (p w, cc)
    Gives-answered P a (err x, w) s e p = absurd (cc e)

    pub Gives-call :
        {A : Type 0} (P : Run W → Type 0) (a : A) (m : W → Result String A × W) (s : Run W)
        → (m s.world).0 ≡ ok a
        → ((w : W) → P (record s { world = w }))
        → Gives P (λ x. x ≡ a) (call m s)
    unfolding call
    Gives-call P a m s e p = Gives-answered P a (m s.world) s e p

    Gives-ranged :
        (P : Run W → Type 0) (ls : List WatchLog)
        (r : Result (Ranges.Failure String) (List WatchLog) × W) (s : Run W)
        → r.0 ≡ ok ls
        → ((w : W) → P (record s { world = w }))
        → Gives P (λ x. x ≡ ls) (ranged r s)
    Gives-ranged P ls (ok x, w) s e p = (p w, cc)
    Gives-ranged P ls (err x, w) s e p = absurd (cc e)

    pub Gives-head_range :
        (P : Run W → Type 0) (from to : ℕ) (s : Run W)
        → ((w : W) → P (record s { world = w }))
        → Gives P (All Tame) (head_range n cfg from to s)
    unfolding head_range
    Gives-head_range P from to s p =
        let (ls, answer, tame) = quiet.logs from to s.world in
        let e =
          range-answered n.fast_logs n.head_logs cfg.use_caller_logs cfg.attempts (to - from) from
            to s.world ls tries answer in
        Gives-mono P (λ x. x ≡ ls) (All Tame) _ (λ x f. rw f tame) (Gives-ranged P ls _ s e p)

    pub Gives-get_block :
        (P : Run W → Type 0) (b : ℕ) (s : Run W)
        → ((w : W) → P (record s { world = w }))
        → Gives P (λ o. o ≡ some (hash b)) (get_block n cfg b s)
    Gives-get_block P b s p = Gives-call P (some (hash b)) _ s (quiet.hashes b s.world) p

    pub All-keep :
        (T : WatchLog → Type 0) (p : WatchLog → Bool) (ls : List WatchLog)
        → All T ls
        → All T (keep p ls)
    All-keep T p [] h = tt
    All-keep T p (l ∷ ls) h = elim (Bool-cases (p l)) [
      | inl kept ↦ rw kept (h.0, All-keep T p ls h.1)
      | inr left ↦ rw left (All-keep T p ls h.1)
    ]

    pub All-sort_logs :
        (T : WatchLog → Type 0) (ls : List WatchLog) → All T ls → All T (sort_logs ls)
    unfolding sort_logs
    All-sort_logs T ls h = All-sort_by _ T _ (All-sort_by _ T ls h)

    pub All-OnChain :
        (P : Run W → Type 0) (ls : List WatchLog)
        → All Tame ls
        → All (λ l. l.block_hash ≡ hash l.block_number) ls
    All-OnChain P [] h = tt
    All-OnChain P (l ∷ ls) h = (h.0.0, All-OnChain P ls h.1)

    pub All-any : (ls : List WatchLog) → All (λ _. Unit {0}) ls
    All-any [] = tt
    All-any (l ∷ ls) = (tt, All-any ls)

    -- A batch of one window has its end for its last block.
    pub last_end : (from to : ℕ) → last_of 0 (add_ids [] (from ∷ to ∷ [])) ≡ to
    unfolding last_of add_ids add_id
    last_end from to = ground arith

    pub end_there :
        (from to : ℕ)
        → has (λ j. j == last_of 0 (add_ids [] (from ∷ to ∷ []))) (add_ids [] (from ∷ to ∷ []))
          ≡ true
    unfolding last_of add_ids add_id
    end_there from to = ground arith

    pub both_ends :
        (from to b : ℕ)
        → has (λ j. j == b) (add_ids [] (from ∷ to ∷ [])) ≡ true
        → has (λ j. j == b) (from ∷ to ∷ []) ≡ true
    unfolding add_ids add_id
    both_ends from to b e = ground (arith, e)
