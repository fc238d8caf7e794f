-- ===== src/Watcher/Round/Main.antt =====
-- One run of the watcher: what a run that returns has proven, and what every run leaves behind.
use everdraw.Base.{
  ℕ, ◌+◌, ◌-◌, ◌≤◌, ◌≡◌, refl, subst, Bool, true, false, not, ◌||◌, Option, none, some, List, [],
  ◌∷◌, arith, length, min, leb, ◌==◌, Bool-cases, inl, inr, ok,
}
use everdraw.Logs.Cache.{Scope}
use everdraw.Watcher.Actions.{◌>>◌, after, read, when, give, update, throw_if, coverage_failed}
use everdraw.Watcher.Actions.Keeps.{
  Any, Post, Keeps, Keeps-bind, Keeps-then, Keeps-give, Post-give, Keeps-check, Keeps-throw_if,
  Keeps-when, Keeps-read, Keeps-read_known, Keeps-if, Keeps-when_gives, Post-after, Post-throw_if,
  Post-mono, Post-weaken,
}
use everdraw.Watcher.Cache.{CacheState, read_state, same_scope}
use everdraw.Watcher.Node.{Node, Config, Run, WatcherState, Alarm}
use everdraw.Watcher.Invariant.{
  Marked, empty-Marked, Filed, IsSafe, Orderly, Written, last_checkpoint, Keeps-call,
  Keeps-variables,
}
use everdraw.Watcher.Sync.Safe.{Keeps-ensure_canonical, Keeps-get_block}
use everdraw.Watcher.Verify.Recomputed.{Free}
use everdraw.Watcher.Round.{
  Current, Report, asked_hash, canonical_checkpoint_matches, check_current, finish, watch,
  look_at_current, if_canonical, new_process, open_cache, resume, run_process, main,
}
use everdraw.Watcher.Round.Safe.{Post-write_state, Keeps-scan}
use everdraw.Watcher.Round.Latest.{Keeps-look_at_current, Keeps-handle_incidents}
use everdraw.Watcher.Round.Health.{IsProven, Proven, needs-IsProven}

module _ {W : Type 0} (n : Node W) (cfg : Config) (file : Option WatcherState) where
  abbrev Safe : Run W → Type 0
  Safe = IsSafe n cfg file Free

  -- No mismatch was found.
  abbrev NoMismatch : List Alarm → Type 0
  NoMismatch ms = ms ≡ []

  abbrev Calm : Run W → Type 0
  Calm = IsSafe n cfg file NoMismatch

  Keeps-matches :
      (More : List Alarm → Type 0) (block hash : ℕ)
      → Keeps (IsSafe n cfg file More) Any (canonical_checkpoint_matches n cfg block hash)
  unfolding canonical_checkpoint_matches asked_hash
  Keeps-matches More block hash =
      Keeps-if (IsSafe n cfg file More) Any ((hash == 0) || (block == 0)) _
        (asked_hash n cfg block hash) (λ _. Keeps-give _ false)
        (λ _.
          Keeps-then (IsSafe n cfg file More) Any _ _ (Keeps-get_block n cfg file More block)
            (λ actual. Keeps-give _ _))

  -- What the report of a run that returned says.
  abbrev pub Reported : Report → Type 0
  Reported r = r.run_end ≡ r.latest → Proven n cfg r.current

  no_failures :
      (fs ms : List Alarm) → length ms ≤ length fs → not (length fs == 0) ≡ false → ms ≡ []
  no_failures fs [] le e = refl
  no_failures fs (m ∷ ms) le e = absurd (ground (arith, le, e))

  relaxed : (s : Run W) → Calm s → Safe s
  relaxed s h = record {
    marked = h.marked;
    filed = h.filed;
    orderly = h.orderly;
    calm = h.calm;
    counted = h.counted;
    written = h.written;
    more = tt;
  }

  calmed : (s : Run W) → Safe s → s.root_mismatches ≡ [] → Calm s
  calmed s h e = record {
    marked = h.marked;
    filed = h.filed;
    orderly = h.orderly;
    calm = h.calm;
    counted = h.counted;
    written = h.written;
    more = e;
  }

  module _ (scope : Scope) (enforce : Bool) where
    Keeps-check_current :
        (current : Option Current) (c : CacheState)
        → Marked n cfg c
        → Keeps Calm (λ _. Proven n cfg current) (check_current n cfg scope enforce current c)
    unfolding check_current
    Keeps-check_current none c m s h = Post-give Calm _ tt s h tt
    Keeps-check_current (some current) c m s h =
        Post-after Calm _ _ _ _ (Keeps-throw_if Calm _ _ s h) λ _ verified s h.
          Post-weaken Calm _ _ _ (λ _ _. needs-IsProven n cfg scope enforce current c m verified)
            (Keeps-throw_if Calm _ _ s h)

    Keeps-finish :
        (run_end : ℕ) (current : Option Current)
        → Keeps Calm (λ _. Proven n cfg current) (finish n cfg scope enforce run_end current)
    unfolding finish
    Keeps-finish run_end current = Keeps-then Calm _ _ _ (Keeps-read Calm _) λ hash.
        Keeps-then Calm _ _ _ (Keeps-matches NoMismatch run_end hash) λ same.
          Keeps-then Calm _ _ _ (Keeps-check Calm _ _) λ _.
            Keeps-then Calm _ _ _ (Keeps-ensure_canonical n cfg file NoMismatch) λ _.
              Keeps-bind Calm _ _ _ _
                (Keeps-read_known Calm (Marked n cfg) (λ s. s.cache) (λ s h. h.marked))
                λ c m. Keeps-bind Calm _ _ _ _ (Keeps-check_current current c m) λ _ proven.
                  Keeps-then Calm _ _ _
                    (λ s h. Post-write_state n cfg file NoMismatch scope run_end true s h h.more)
                    λ _ s h.
                      Post-weaken Calm _ _ _ (λ _ _. proven)
                        (Keeps-variables n cfg file NoMismatch _ (λ s. refl) (λ s. refl) (λ s. refl)
                          (λ s. omega arith) (λ s. refl) (λ s. refl) s h)

    -- The end of a run: only a run without failures finishes.
    Keeps-ending :
        (run_end latest : ℕ) (current : Option Current)
        → Keeps Safe Reported (λ s.
          after (read (λ (s : Run W). length s.coverage_failures) s) (λ failures.
            throw_if (not (failures == 0)) (coverage_failed failures)
            >> (when (run_end == latest) (finish n cfg scope enforce run_end current)
                >> give (record { run_end = run_end; latest = latest; current = current }))))
    unfolding read
    Keeps-ending run_end latest current s h = Post-throw_if Safe Reported _ _ _ s h λ e.
        Post-mono Calm Safe Reported _ relaxed (
          Post-after Calm _ Reported _ _
            (Keeps-when_gives Calm (run_end == latest) _ (Proven n cfg current)
              (λ _. Keeps-finish run_end current) s
              (calmed s h (no_failures s.coverage_failures s.root_mismatches h.counted e)))
            λ _ proven t k. Post-give Calm Reported _ t k λ same. proven (ground (arith, same)))

    Keeps-watch : (from latest : ℕ) → Keeps Safe Reported (watch n cfg scope enforce from latest)
    unfolding watch
    Keeps-watch from latest =
        let run_end = min (from + cfg.max_blocks_per_run - 1) latest in
        Keeps-then Safe _ _ _
          (Keeps-when Safe (leb from latest) _ (Keeps-scan n cfg file scope enforce from run_end))
          λ _.
            Keeps-then Safe _ _ _
              (Keeps-if Safe Any (run_end == latest) (look_at_current n cfg scope enforce latest) _
                (λ _. Keeps-look_at_current n cfg file scope enforce latest)
                (λ _. Keeps-give Safe _))
              λ current.
                Keeps-then Safe _ _ _ (Keeps-handle_incidents n cfg file scope enforce)
                  λ _. Keeps-ending run_end latest current

  Keeps-if_canonical : (o : Option WatcherState) → Keeps Safe Any (if_canonical n cfg o)
  unfolding if_canonical
  Keeps-if_canonical none s h = Keeps-give Safe none s h
  Keeps-if_canonical (some state) s h =
      Post-after Safe _ _ _ _ (Keeps-matches Free _ _ s h) (λ same _. Keeps-give Safe _)

  read_state-Marked :
      (scope : Scope) (o : Option CacheState)
      → scope.vault_address ≡ cfg.prize_vault
      → scope.draw_manager_address ≡ cfg.draw_manager_address
      → Filed n cfg o
      → Marked n cfg (read_state scope o)
  unfolding read_state
  read_state-Marked scope none vault manager h = empty-Marked n cfg scope vault manager
  read_state-Marked scope (some c) vault manager h = elim (Bool-cases (same_scope c.scope scope)) [
    | inl same ↦ rw same (h (ground (arith, same, vault)) (ground (arith, same, manager)))
    | inr other ↦ rw other (empty-Marked n cfg scope vault manager)
  ]

  Keeps-open_cache :
      (scope : Scope)
      → scope.vault_address ≡ cfg.prize_vault
      → scope.draw_manager_address ≡ cfg.draw_manager_address
      → Keeps Safe Any (update (open_cache n cfg scope))
  unfolding update open_cache
  Keeps-open_cache scope vault manager s h = record {
    state = record {
      marked = read_state-Marked scope s.independent_file vault manager h.filed;
      filed = h.filed;
      orderly = h.orderly;
      calm = h.calm;
      counted = h.counted;
      written = h.written;
      more = tt;
    };
    result = tt;
  }

  new_process-IsSafe :
      (s : Run W)
      → Filed n cfg s.independent_file
      → s.state_file ≡ file
      → Safe (new_process n cfg s)
  unfolding new_process
  new_process-IsSafe s h e = record {
    marked = empty-Marked n cfg _ refl refl;
    filed = h;
    orderly = tt;
    calm = λ _. tt;
    counted = omega arith;
    written = e;
    more = tt;
  }

  Keeps-resume : (o : Option WatcherState) → Keeps Safe Any (update (resume n cfg o))
  unfolding resume
  Keeps-resume o =
      Keeps-variables n cfg file Free (resume n cfg o) (λ s. refl) (λ s. refl) (λ s. refl)
        (λ s. omega arith) (λ s. refl) (λ s. refl)

  Keeps-run_process : Keeps Safe Reported (run_process n cfg)
  unfolding run_process
  Keeps-run_process = Keeps-then Safe _ _ _ (Keeps-call n cfg file Free _) λ chain_id.
      Keeps-then Safe _ _ _ (Keeps-check Safe _ _) λ _.
        Keeps-then Safe _ _ _ (Keeps-call n cfg file Free _) λ has_code.
          Keeps-then Safe _ _ _ (Keeps-check Safe _ _) λ _.
            Keeps-then Safe _ _ _ (Keeps-call n cfg file Free _) λ latest.
              Keeps-then Safe _ _ _ (Keeps-call n cfg file Free _) λ vault.
                Keeps-bind Safe _ _ _ _ (Keeps-throw_if Safe _ _) λ _ same.
                  Keeps-then Safe _ _ _ (Keeps-open_cache _ (ground (arith, same)) refl) λ _.
                    Keeps-then Safe _ _ _ (Keeps-read Safe _) λ state_file.
                      Keeps-then Safe _ _ _ (Keeps-if_canonical _) λ state.
                        Keeps-then Safe _ _ _ (Keeps-resume state) λ _.
                          Keeps-then Safe _ _ _ (Keeps-check Safe _ _) λ _. Keeps-watch _ _ _ latest

  Post-main :
      (s : Run W)
      → Filed n cfg s.independent_file
      → s.state_file ≡ file
      → Post Safe Reported (main n cfg s)
  unfolding main update
  Post-main s h e = Keeps-run_process _ (new_process-IsSafe s h e)

module _ {W : Type 0} (n : Node W) (cfg : Config) where
  -- A run that returns with its scan at the head of the chain has proven the current draw, if that is
  -- proposed or finalized: its root is the one that the recomputation gives for the input that
  -- buildWatcherDrawInput builds from what the independent endpoint answered about that draw at the
  -- block of its seed; the seed's block and the accounts are those of logs that this endpoint
  -- answered. If the process starts with a file of the cache of this deployment, what that holds was
  -- gathered from such logs, and the roots of its markers were recomputed so.
  pub main-Proven :
      (s t : Run W) (report : Report) (current : Current)
      → Filed n cfg s.independent_file
      → main n cfg s ≡ (ok report, t)
      → report.run_end ≡ report.latest
      → report.current ≡ some current
      → IsProven n cfg current
  main-Proven s t report current filed run caught_up there =
      let post =
        subst (Post (Safe n cfg s.state_file) (Reported n cfg s.state_file)) run
          (Post-main n cfg s.state_file s filed refl) in
      let proven = post.result caught_up in subst (Proven n cfg) there proven

  -- However a run ends, if the cache's file is of this deployment, what it holds was gathered from the
  -- independent endpoint's logs and the roots of its markers were recomputed, if that was so before; no checkpoint was written to the state file after an alarm of a mismatch; and
  -- the state file is the one from before or that of the last checkpoint.
  pub main-IsSafe :
      (s : Run W)
      → Filed n cfg s.independent_file
      → let t = (main n cfg s).1 in
        Filed n cfg t.independent_file
        × Orderly t.log
        × Written s.state_file (last_checkpoint t.log) t.state_file
  main-IsSafe s filed =
      let post = Post-main n cfg s.state_file s filed refl in
      (post.state.filed, post.state.orderly, post.state.written)
