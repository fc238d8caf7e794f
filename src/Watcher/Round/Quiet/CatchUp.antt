-- ===== src/Watcher/Round/Quiet/CatchUp.antt =====
-- The watcher catches up with a quiet chain: each run returns and moves the cursor, and after enough
-- of them a run ends at the head of the chain.
use everdraw.Base.{
  ℕ, zero, suc, ◌+◌, ◌-◌, ◌*◌, ◌≤◌, ◌<◌, ◌≡◌, refl, ◌∙◌, ap, Bool, true, not, subst, Option, arith,
  leb, ◌==◌, min, Bool-cases, inl, inr,
}
use everdraw.Logs.Cache.{Scope}
use everdraw.Watcher.Actions.{bad_max_blocks, when, read, update, throw_if, ◌>>=◌, ◌>>◌}
use everdraw.Watcher.Actions.Keeps.{Any}
use everdraw.Watcher.Actions.Gives.{
  Gives, Gives-after, Gives-read, Gives-throw_if, Gives-state, Gives-left,
}
use everdraw.Watcher.Node.{Node, Config, Run, WatcherState}
use everdraw.Watcher.Round.{
  Report, watch, if_canonical, in_scope, first_block, should_enforce_live_window, open_cache,
  resume, run_process, main,
}
use everdraw.Watcher.Round.Quiet.{Quiet, At, Gives-call}
use everdraw.Watcher.Round.Quiet.Scan.{scope_of, Gives-scan}
use everdraw.Watcher.Round.Quiet.Ending.{Gives-watch}
use everdraw.Watcher.Round.Quiet.Resume.{
  Next, Resumed, Returned, Ready, Same, Resuming, first_block-Resumed, Gives-open_cache,
  Gives-new_process, Gives-file, Gives-resume_with,
}

-- Several runs, one after the other; each leaves its files to the next.
unfoldable pub runs : {W : Type 0} (n : Node W) (cfg : Config) → ℕ → Run W → Run W
runs n cfg zero s = s
runs n cfg (suc k) s = runs n cfg k (main n cfg s).1

module _ {W : Type 0} (n : Node W) (cfg : Config) (hash : ℕ → ℕ) (latest : ℕ)
    (quiet : Quiet n cfg hash latest) (tries : 0 < cfg.attempts) where
  abbrev scope : Scope
  scope = scope_of n cfg hash latest quiet tries true

  abbrev Marks : ℕ → Run W → Type 0
  Marks = At n cfg hash latest

  module _ (pos : 0 < cfg.from_block) (deployed : cfg.from_block ≤ latest)
      (size : 0 < cfg.chunk_size) (one : cfg.concurrency ≡ 1)
      (blocks : 0 < cfg.max_blocks_per_run) where
    abbrev end_of : ℕ → ℕ
    end_of next = min (next + cfg.max_blocks_per_run - 1) latest

    Resumed-after :
        (next : ℕ) (o : Option WatcherState)
        → Resumed n cfg hash latest quiet tries next o
        → cfg.from_block ≤ next
    Resumed-after next o (inl (gone, e)) = ground (arith, e)
    Resumed-after next o (inr (block, e, past, positive, h)) = ground (arith, e, past)

    -- There is no block to scan when the cursor is at the head.
    at_head :
        (next : ℕ) (o : Option WatcherState) (s : Run W)
        → latest < next
        → next ≤ latest + 1
        → Resumed n cfg hash latest quiet tries next o
        → Resuming n cfg hash latest quiet tries next o s
        → Marks (end_of next) s
    at_head next o s lt le (inl (gone, e)) h = absurd (omega (arith, lt, e, deployed))
    at_head next o s lt le (inr (block, e, past, positive, cursor)) (idle, file, inl gone) =
        absurd (cc (gone, cursor.1))
    at_head next o s lt le (inr (block, e, past, positive, cursor)) (idle, file, inr same) =
        let last : end_of next ≡ block = omega (arith, e, lt, le, blocks) in
        let before : next - 1 ≡ block = omega (arith, e) in
        rw last (idle, rw file cursor, same ∙ ap hash before)

    Gives-Resumed :
        (next : ℕ) (o : Option WatcherState) (enforce : Bool) (s : Run W)
        → next ≤ latest + 1
        → Resumed n cfg hash latest quiet tries next o
        → Resuming n cfg hash latest quiet tries next o s
        → Gives
            (Marks (end_of next))
            (Returned n cfg hash latest quiet tries (end_of next))
            (watch n cfg scope enforce (first_block cfg.from_block o) latest s)
    unfolding when
    Gives-Resumed next o enforce s le r h =
        let low = Resumed-after next o r in
        rw (first_block-Resumed n cfg hash latest quiet tries next o r) (
          Gives-watch n cfg hash latest quiet tries enforce next s
            (omega (arith, low, pos, deployed, blocks))
            (elim (Bool-cases (leb next latest)) [
              | inl more ↦ rw more (
                  Gives-scan n cfg hash latest quiet tries enforce next (end_of next) s size one
                    (ground (arith, more, blocks)) h.0)
              | inr done ↦ rw done (at_head next o s (ground (arith, done)) le r h, tt)
            ]))

    -- The run once its scope is known.
    Gives-scoped :
        (next : ℕ) (s : Run W)
        → next ≤ latest + 1
        → Ready n cfg hash latest quiet tries next s
        → Gives (Marks (end_of next)) (Returned n cfg hash latest quiet tries (end_of next)) (
            (do
              update (open_cache n cfg scope)
              file ← read (λ s. s.state_file)
              state ← if_canonical n cfg (in_scope scope file)
              update (resume n cfg state)
              throw_if (cfg.max_blocks_per_run == 0) bad_max_blocks
              watch n cfg scope
                  (should_enforce_live_window state)
                  (first_block cfg.from_block state)
                  latest)
              s)
    Gives-scoped next s le h =
        let Q : Report → Type 0 = Returned n cfg hash latest quiet tries (end_of next) in
        let End : Run W → Type 0 = Marks (end_of next) in
        let o = s.state_file in
        Gives-after (Same n cfg hash latest quiet tries o) End Any Q _ _
          (Gives-open_cache n cfg hash latest quiet tries o s (h.0, refl))
          λ _ s _ same.
            Gives-after (Same n cfg hash latest quiet tries o) End (λ x. x ≡ o) Q _ _
              (Gives-read (Same n cfg hash latest quiet tries o) (λ x. x ≡ o) _ s same same.1)
              λ file s e same.
                Gives-after (Same n cfg hash latest quiet tries o) End (λ x. x ≡ o) Q _ _
                  (Gives-file n cfg hash latest quiet tries next o file s e h.1 same)
                  λ state s e same.
                    Gives-after (Resuming n cfg hash latest quiet tries next o) End Any Q _ _
                      (Gives-resume_with n cfg hash latest quiet tries next o state s e h.1 same)
                      λ _ s _ r.
                        Gives-after (Resuming n cfg hash latest quiet tries next o) End Any Q _ _
                          (Gives-throw_if (Resuming n cfg hash latest quiet tries next o) _ _ s
                            (ground (arith, blocks)) r)
                          λ _ s _ r.
                            rw e (Gives-Resumed next o (should_enforce_live_window o) s le h.1 r)

    Gives-run_process :
        (next : ℕ) (s : Run W)
        → next ≤ latest + 1
        → Ready n cfg hash latest quiet tries next s
        → Gives
            (Marks (end_of next))
            (Returned n cfg hash latest quiet tries (end_of next))
            (run_process n cfg s)
    unfolding run_process
    Gives-run_process next s le h =
        let Q : Report → Type 0 = Returned n cfg hash latest quiet tries (end_of next) in
        let End : Run W → Type 0 = Marks (end_of next) in
        Gives-after (Ready n cfg hash latest quiet tries next) End (λ x. x ≡ cfg.expected_chain_id)
          Q _ _
          (Gives-call n cfg hash latest quiet tries (Ready n cfg hash latest quiet tries next) _ _ s
            (quiet.chain s.world) (λ w. h))
          λ chain s chained h.
            Gives-after (Ready n cfg hash latest quiet tries next) End Any Q _ _
              (Gives-throw_if (Ready n cfg hash latest quiet tries next) _ _ s
                (rw chained (ground arith)) h)
              λ _ s _ h.
                Gives-after (Ready n cfg hash latest quiet tries next) End (λ x. x ≡ true) Q _ _
                  (Gives-call n cfg hash latest quiet tries
                    (Ready n cfg hash latest quiet tries next) _ _ s (quiet.code s.world) (λ w. h))
                  λ coded s e h.
                    Gives-after (Ready n cfg hash latest quiet tries next) End Any Q _ _
                      (Gives-throw_if (Ready n cfg hash latest quiet tries next) _ _ s (ap not e) h)
                      λ _ s _ h.
                        Gives-after (Ready n cfg hash latest quiet tries next) End (λ x. x ≡ latest)
                          Q _ _
                          (Gives-call n cfg hash latest quiet tries
                            (Ready n cfg hash latest quiet tries next) _ _ s (quiet.number s.world)
                            (λ w. h))
                          λ head s headed h.
                            Gives-after (Ready n cfg hash latest quiet tries next) End
                              (λ x. x ≡ cfg.prize_vault) Q _ _
                              (Gives-call n cfg hash latest quiet tries
                                (Ready n cfg hash latest quiet tries next) _ _ s
                                (quiet.vault s.world) (λ w. h))
                              λ vault s vaulted h.
                                Gives-after (Ready n cfg hash latest quiet tries next) End Any Q _ _
                                  (Gives-throw_if (Ready n cfg hash latest quiet tries next) _ _ s
                                    (rw vaulted (ground arith)) h)
                                  λ _ s _ h.
                                    rw (chained, headed, vaulted) (Gives-scoped next s le h)

    -- The cursor after a run.
    Next-after :
        (next : ℕ) (s : Run W)
        → cfg.from_block ≤ next
        → Marks (end_of next) s
        → Next n cfg hash latest quiet tries (suc (end_of next)) s
    Next-after next s low h = (
      h.0.4,
      inr (
        end_of next,
        refl,
        omega (arith, low, deployed, blocks),
        omega (arith, low, pos, deployed, blocks),
        h.1,
      ),
    )

    Next-low :
        (next : ℕ) (s : Run W) → Next n cfg hash latest quiet tries next s → cfg.from_block ≤ next
    Next-low next s h = Resumed-after next s.state_file h.1

    pub Gives-main :
        (next : ℕ) (s : Run W)
        → next ≤ latest + 1
        → Next n cfg hash latest quiet tries next s
        → Gives
            (Next n cfg hash latest quiet tries (suc (end_of next)))
            (Returned n cfg hash latest quiet tries (end_of next))
            (main n cfg s)
    unfolding main
    Gives-main next s le h =
        let after_run = Next n cfg hash latest quiet tries (suc (end_of next)) in
        Gives-after (Ready n cfg hash latest quiet tries next) after_run Any
          (Returned n cfg hash latest quiet tries (end_of next)) _ _
          (Gives-new_process n cfg hash latest quiet tries next s h)
          λ _ s' _ r.
            Gives-state (Marks (end_of next)) after_run
              (Returned n cfg hash latest quiet tries (end_of next)) _
              (λ t m. Next-after next t (Next-low next s h) m) (Gives-run_process next s' le r)

    Next-run :
        (next : ℕ) (s : Run W)
        → next ≤ latest + 1
        → Next n cfg hash latest quiet tries next s
        → Next n cfg hash latest quiet tries (suc (end_of next)) (main n cfg s).1
    Next-run next s le h =
        Gives-left (Next n cfg hash latest quiet tries (suc (end_of next)))
          (Returned n cfg hash latest quiet tries (end_of next)) (main n cfg s)
          (Gives-main next s le h)

    -- On a chain that answers every call, proposes no root and has its head at `latest`, at or after
    -- the deployment block, which is not 0, and with a configuration that allows at least one block
    -- a run, one per window and one attempt, and reads one window at a time: when a run begins with
    -- no independent cache file, and with no state file and `next` the deployment block, or with a
    -- canonical state file of the deployment whose last block is the one before `next`, then after
    -- `k` runs, of which `k + 1` are enough to cover the blocks to the head, the next run returns,
    -- its scan ends at the head, and the state file it leaves has the head as its last block.
    pub main-Returned :
        (k next : ℕ) (s : Run W)
        → next ≤ latest + 1
        → latest < next + suc k * cfg.max_blocks_per_run
        → Next n cfg hash latest quiet tries next s
        → Gives
            (Next n cfg hash latest quiet tries (suc latest))
            (Returned n cfg hash latest quiet tries latest)
            (main n cfg (runs n cfg k s))
    unfolding runs
    main-Returned zero next s le enough h =
        let head : end_of next ≡ latest = omega (arith, le, enough, blocks) in
        subst
          (λ b.
            Gives (Next n cfg hash latest quiet tries (suc b))
              (Returned n cfg hash latest quiet tries b) (main n cfg s))
          head (Gives-main next s le h)
    main-Returned (suc k) next s le enough h =
        main-Returned k (suc (end_of next)) (main n cfg s).1 (omega arith)
          (omega (arith, le, enough, blocks)) (Next-run next s le h)
