-- ===== src/Watcher/Invariant.antt =====
-- What is said of a run at any time: of every marker, that its root was recomputed from what the
-- independent endpoint answered, and of the state file, that it was not written after a mismatch.
use everdraw.Base.{
  ℕ, suc, ◌-◌, ◌≤◌, ◌≡◌, refl, ap, All, Table, Bool, true, false, Option, none, some, List, [], ◌∷◌,
  arith, length, String, Result, ok, err, find, find_number,
}
use everdraw.Draw.Input.{Input}
use everdraw.Logs.Cache.{Scope}
use everdraw.Logs.DrawInput.{Draw, build_watcher_draw_input}
use everdraw.Logs.Ranges
use everdraw.Logs.Ranges.{get_logs_range_direct}
use everdraw.Watcher.Batches.{flatten}
use everdraw.Watcher.Events.{WatchLog}
use everdraw.Watcher.Sync.{ingest_watcher_reconstruction_logs}
use everdraw.Watcher.Actions.{update}
use everdraw.Watcher.Actions.Keeps.{Any, Post, Keeps}
use everdraw.Watcher.Cache.{Evidence, Recovery, CacheState, empty_state}
use everdraw.Watcher.Node.{
  Alarm, deadline_disagreement, deadline_mismatch, root_mismatch, finalized_mismatch,
  discovered_mismatch, late, coverage_gap, awaiting_acknowledgment, privileged_change, Node, Config,
  Run, WatcherState, Event, alarmed, checkpointed, published, call, answered, clock, ticked, ranged,
  security_range, head_range, save,
}

-- An alarm that says that something on the chain is not what was recomputed or announced.
abbrev pub is_mismatch : Alarm → Bool
is_mismatch (deadline_disagreement d e o) = true
is_mismatch (deadline_mismatch d e o) = true
is_mismatch (root_mismatch d r o) = true
is_mismatch (finalized_mismatch d r o) = true
is_mismatch (discovered_mismatch d r o) = true
is_mismatch (late d) = false
is_mismatch (coverage_gap id) = false
is_mismatch (awaiting_acknowledgment id) = false
is_mismatch (privileged_change l) = false

-- No alarm of such a kind.
abbrev pub Calm : List Event → Type 0
Calm [] = Unit {0}
Calm (alarmed a ∷ log) = (is_mismatch a ≡ false) × Calm log
Calm (checkpointed b ∷ log) = Calm log
Calm (published d r ∷ log) = Calm log

-- The state file was written only while there had been none.
abbrev pub Orderly : List Event → Type 0
Orderly [] = Unit {0}
Orderly (checkpointed b ∷ log) = Calm log × Orderly log
Orderly (alarmed a ∷ log) = Orderly log
Orderly (published d r ∷ log) = Orderly log

abbrev pub last_checkpoint : List Event → Option ℕ
last_checkpoint [] = none
last_checkpoint (checkpointed b ∷ log) = some b
last_checkpoint (alarmed a ∷ log) = last_checkpoint log
last_checkpoint (published d r ∷ log) = last_checkpoint log

-- The file is the one that the run began with, or the one of the last checkpoint.
abbrev pub Written : (file : Option WatcherState) → Option ℕ → Option WatcherState → Type 0
Written file none now = now ≡ file
Written file (some block) now =
    (st : WatcherState) × (now ≡ some st) × (st.last_scanned_block ≡ block)

module _ {W : Type 0} (n : Node W) (cfg : Config) where
  -- What the independent endpoint answered when it was asked for the logs of some blocks.
  abbrev pub Answered : List WatchLog → Type 0
  Answered logs =
      (from : ℕ) × (to : ℕ) × (w : W) × ((get_logs_range_direct n.security_logs cfg.attempts
          (suc (to - from)) from to w).0
        ≡ ok logs)

  -- The accounts and the seed blocks that such logs say, batch after batch.
  pub data Gathered : List ℕ → Table ℕ ℕ → Type 0 where
    nothing : Gathered [] []
    batch :
        (results : List (List WatchLog)) (accounts : List ℕ) (seeds : Table ℕ ℕ)
        → All Answered results
        → Gathered accounts seeds
        → Gathered
            (ingest_watcher_reconstruction_logs cfg.prize_vault cfg.draw_manager_address
              (flatten results)
              accounts
              seeds).accounts
            (ingest_watcher_reconstruction_logs cfg.prize_vault cfg.draw_manager_address
              (flatten results)
              accounts
              seeds).seed_blocks

  -- The root is the one that is recomputed from what the independent endpoint answered: the accounts
  -- and the seed's block by its logs, the rest of the input by its answers about the draw at the
  -- seed's block.
  pub record Recomputed (draw_id root : ℕ) : Type 0 where
    pub accounts : List ℕ
    pub seeds : Table ℕ ℕ
    pub gathered : Gathered accounts seeds
    pub seed_block : ℕ
    pub seeded : find_number draw_id seeds ≡ some seed_block
    pub world : W
    pub answers : Draw String
    pub answered : (n.draw_answers draw_id seed_block world).0 ≡ ok answers
    pub input : Input
    pub built :
        build_watcher_draw_input
          (record answers { draw_id = draw_id; draw_manager = cfg.draw_manager_address })
          accounts
        ≡ ok input
    pub result : n.recompute input ≡ ok root

  -- The cache is that of the deployment, and what it holds was gathered.
  pub record Sourced (c : CacheState) : Type 0 where
    pub vault : c.scope.vault_address ≡ cfg.prize_vault
    pub manager : c.scope.draw_manager_address ≡ cfg.draw_manager_address
    pub gathered : Gathered c.participant_accounts c.seed_blocks

  pub record Marked (c : CacheState) : Type 0 where
    pub sourced : Sourced c
    pub verified :
        (d : ℕ) (m : Evidence) → find_number d c.verified_roots ≡ some m → Recomputed d m.root
    pub recovered :
        (d : ℕ) (m : Recovery)
        → find_number d c.historical_finalized_roots ≡ some m
        → Recomputed d m.root

  pub empty-Marked :
      (scope : Scope)
      → scope.vault_address ≡ cfg.prize_vault
      → scope.draw_manager_address ≡ cfg.draw_manager_address
      → Marked (empty_state scope)
  unfolding empty_state find
  empty-Marked scope vault manager = record {
    sourced = record { vault = vault; manager = manager; gathered = nothing };
    verified = λ d m e. absurd (cc e);
    recovered = λ d m e. absurd (cc e);
  }

  -- A state with the same markers.
  pub Marked-same :
      (c c' : CacheState)
      → c'.verified_roots ≡ c.verified_roots
      → c'.historical_finalized_roots ≡ c.historical_finalized_roots
      → c'.scope ≡ c.scope
      → c'.participant_accounts ≡ c.participant_accounts
      → c'.seed_blocks ≡ c.seed_blocks
      → Marked c
      → Marked c'
  Marked-same c c' e f scope accounts seeds h = record {
    sourced = record {
      vault = rw scope h.sourced.vault;
      manager = rw scope h.sourced.manager;
      gathered = rw (accounts, seeds) h.sourced.gathered;
    };
    verified = λ d m i. h.verified d m (rw e at i);
    recovered = λ d m i. h.recovered d m (rw f at i);
  }

  -- The file of the cache, if there is one and it is of this deployment.
  abbrev pub Filed : Option CacheState → Type 0
  Filed none = Unit {0}
  Filed (some c) =
      c.scope.vault_address ≡ cfg.prize_vault
      → c.scope.draw_manager_address ≡ cfg.draw_manager_address
      → Marked c

  -- `More` is what else is known of the mismatches.
  module _ (file : Option WatcherState) (More : List Alarm → Type 0) where
    pub record IsSafe (s : Run W) : Type 0 where
      pub marked : Marked s.cache
      pub filed : Filed s.independent_file
      pub orderly : Orderly s.log
      pub calm : s.root_mismatches ≡ [] → Calm s.log
      pub counted : length s.root_mismatches ≤ length s.coverage_failures
      pub written : Written file (last_checkpoint s.log) s.state_file
      pub more : More s.root_mismatches

    -- Only the world has changed.
    in_world : (s : Run W) (w : W) → IsSafe s → IsSafe (record s { world = w })
    in_world s w h = record {
      marked = h.marked;
      filed = h.filed;
      orderly = h.orderly;
      calm = h.calm;
      counted = h.counted;
      written = h.written;
      more = h.more;
    }

    Post-answered :
        {A : Type 0} (r : Result String A × W) (s : Run W)
        → IsSafe s
        → Post IsSafe Any (answered r s)
    Post-answered (ok a, w) s h = record { state = in_world s w h; result = tt }
    Post-answered (err e, w) s h = record { state = in_world s w h; result = tt }

    pub Keeps-call : {A : Type 0} (m : W → Result String A × W) → Keeps IsSafe Any (call m)
    unfolding call
    Keeps-call m s h = Post-answered (m s.world) s h

    Post-ticked : (r : ℕ × W) (s : Run W) → IsSafe s → Post IsSafe Any (ticked r s)
    Post-ticked (t, w) s h = record { state = in_world s w h; result = tt }

    -- What a call returns, the endpoint answered.
    Post-asked :
        {A : Type 0} (P : Run W → Type 0) (m : W → Result String A × W) (s : Run W) (w : W)
        (r : Result String A × W)
        → m w ≡ r
        → ((w : W) → P (record s { world = w }))
        → Post P (λ a. (w : W) × ((m w).0 ≡ ok a)) (answered r s)
    Post-asked P m s w (ok a, w') e h = record { state = h w'; result = (w, ap (λ r. r.0) e) }
    Post-asked P m s w (err x, w') e h = record { state = h w'; result = tt }

    -- The cache stays what it is.
    abbrev pub Unmoved : CacheState → Run W → Type 0
    Unmoved c s = IsSafe s × (s.cache ≡ c)

    pub Keeps-asked :
        {A : Type 0} (c : CacheState) (m : W → Result String A × W)
        → Keeps (Unmoved c) (λ a. (w : W) × ((m w).0 ≡ ok a)) (call m)
    unfolding call
    Keeps-asked c m s h =
        Post-asked (Unmoved c) m s s.world (m s.world) refl (λ w. (in_world s w h.0, h.1))

    pub Keeps-clock : Keeps IsSafe Any (clock n)
    unfolding clock
    Keeps-clock s h = Post-ticked (n.now s.world) s h

    Post-ranged :
        {A : Type 0} (r : Result (Ranges.Failure String) A × W) (s : Run W)
        → IsSafe s
        → Post IsSafe Any (ranged r s)
    Post-ranged (ok a, w) s h = record { state = in_world s w h; result = tt }
    Post-ranged (err (Ranges.thrown e), w) s h = record { state = in_world s w h; result = tt }
    Post-ranged (err Ranges.no_attempt, w) s h = record { state = in_world s w h; result = tt }
    Post-ranged (err Ranges.out_of_fuel, w) s h = record { state = in_world s w h; result = tt }

    Post-answer :
        (from to : ℕ) (w : W) (r : Result (Ranges.Failure String) (List WatchLog) × W) (s : Run W)
        → get_logs_range_direct n.security_logs cfg.attempts (suc (to - from)) from to w ≡ r
        → IsSafe s
        → Post IsSafe Answered (ranged r s)
    Post-answer from to w (ok a, w') s e h = record {
      state = in_world s w' h;
      result = (from, to, w, ap (λ r. r.0) e);
    }
    Post-answer from to w (err (Ranges.thrown x), w') s e h = record {
      state = in_world s w' h;
      result = tt;
    }
    Post-answer from to w (err Ranges.no_attempt, w') s e h = record {
      state = in_world s w' h;
      result = tt;
    }
    Post-answer from to w (err Ranges.out_of_fuel, w') s e h = record {
      state = in_world s w' h;
      result = tt;
    }

    pub Keeps-security_range : (from to : ℕ) → Keeps IsSafe Answered (security_range n cfg from to)
    unfolding security_range
    Keeps-security_range from to s h = Post-answer from to s.world _ s refl h

    pub Keeps-head_range : (from to : ℕ) → Keeps IsSafe Any (head_range n cfg from to)
    unfolding head_range
    Keeps-head_range from to s h = Post-ranged _ s h

    -- What a method makes of the cache keeps its markers.
    pub Keeps-save :
        (f : CacheState → CacheState)
        → ((c : CacheState) → Marked c → Marked (f c))
        → Keeps IsSafe Any (save f)
    unfolding save update
    Keeps-save f k s h = record {
      state = record {
        marked = k s.cache h.marked;
        filed = λ _ _. k s.cache h.marked;
        orderly = h.orderly;
        calm = h.calm;
        counted = h.counted;
        written = h.written;
        more = h.more;
      };
      result = tt;
    }

    -- A change to the run's other variables.
    pub Keeps-variables :
        (f : Run W → Run W)
        → ((s : Run W) → (f s).cache ≡ s.cache)
        → ((s : Run W) → (f s).log ≡ s.log)
        → ((s : Run W) → (f s).root_mismatches ≡ s.root_mismatches)
        → ((s : Run W) → length s.coverage_failures ≤ length (f s).coverage_failures)
        → ((s : Run W) → (f s).state_file ≡ s.state_file)
        → ((s : Run W) → (f s).independent_file ≡ s.independent_file)
        → Keeps IsSafe Any (update f)
    unfolding update
    Keeps-variables f cache log mismatches failures now cached s h = record {
      state = record {
        marked = rw (cache s) h.marked;
        filed = rw (cached s) h.filed;
        orderly = rw (log s) h.orderly;
        calm = rw (log s, mismatches s) h.calm;
        counted = rw (mismatches s) (omega (arith, h.counted, failures s));
        written = rw (log s, now s) h.written;
        more = rw (mismatches s) h.more;
      };
      result = tt;
    }
