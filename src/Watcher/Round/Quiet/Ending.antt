-- ===== src/Watcher/Round/Quiet/Ending.antt =====
-- The end of a run on a quiet chain: the current draw is looked at, nothing is open, and the state
-- file is written.
use everdraw.Base.{
  ℕ, ◌+◌, ◌-◌, ◌<◌, ◌≡◌, refl, ap, Bool, true, false, not, ◌||◌, Option, none, some, [], arith, leb,
  ◌==◌, if◌then◌else◌, min, Bool-cases, inl, inr,
}
use everdraw.Logs.Cache.{Scope}
use everdraw.Watcher.Actions.{give, when}
use everdraw.Watcher.Actions.Keeps.{Any}
use everdraw.Watcher.Actions.Gives.{
  Gives, Gives-after, Gives-each, Gives-give, Gives-read, Gives-when, Gives-update, Gives-throw_if,
}
use everdraw.Watcher.Cache.{CacheState, root_needs_independent_verification}
use everdraw.Watcher.Cache.Incidents.{active_coverage_incidents, values}
use everdraw.Watcher.Node.{Node, Config, Run}
use everdraw.Watcher.Sync.{ensure_canonical, is_skipped}
use everdraw.Watcher.Round.{
  Current, Report, canonical_checkpoint_matches, asked_hash, verify_needed, needs_verification,
  verify_current, look_at_draw, look_at_current, handle_incidents, check_current, finish, watch,
  scan,
}
use everdraw.Watcher.Round.Quiet.{Quiet, At, Gives-call, Gives-get_block}
use everdraw.Watcher.Round.Quiet.Scan.{scope_of, Gives-write_state}

module _ {W : Type 0} (n : Node W) (cfg : Config) (hash : ℕ → ℕ) (latest : ℕ)
    (quiet : Quiet n cfg hash latest) (tries : 0 < cfg.attempts) where
  abbrev scope : Scope
  scope = scope_of n cfg hash latest quiet tries true

  abbrev Marks : ℕ → Run W → Type 0
  Marks = At n cfg hash latest

  pub Gives-matches :
      (P : Run W → Type 0) (block : ℕ) (s : Run W)
      → 0 < block
      → ((w : W) → P (record s { world = w }))
      → Gives P (λ b. b ≡ true) (canonical_checkpoint_matches n cfg block (hash block) s)
  unfolding canonical_checkpoint_matches asked_hash
  Gives-matches P block s pos p =
      let there = quiet.hashes_there block in
      let looked : ((hash block == 0) || (block == 0)) ≡ false = ground (arith, there, pos) in
      rw looked (
        Gives-after P P _ _ _ _ (Gives-get_block n cfg hash latest quiet tries P block s p)
          λ o s e h. Gives-give P (λ b. b ≡ true) _ s h (rw e (ground arith)))

  Gives-same :
      (block found : ℕ) (s : Run W)
      → found ≡ hash block
      → 0 < block
      → Marks block s
      → Gives (Marks block) (λ b. b ≡ true) (canonical_checkpoint_matches n cfg block found s)
  Gives-same block found s e pos h = rw e (Gives-matches (Marks block) block s pos (λ w. h))

  -- A cache without a checkpoint is not looked at.
  Gives-ensure_canonical :
      (block : ℕ) (s : Run W) → Marks block s → Gives (Marks block) Any (ensure_canonical n cfg s)
  unfolding ensure_canonical
  Gives-ensure_canonical block s h =
      Gives-after (Marks block) (Marks block) (λ (c : CacheState). not (is_skipped n cfg c) ≡ false)
        Any _ _ (Gives-read (Marks block) _ (λ s. s.cache) s h (ground (arith, h.0.2)))
        λ c s e h. Gives-when (Marks block) _ _ s h (λ f. absurd (cc (e, f)))

  module _ (enforce : Bool) where
    abbrev IsCalm : Option Current → Type 0
    IsCalm none = Unit {0}
    IsCalm (some current) = current.status < 3

    unneeded :
        (current : Current) (c : CacheState)
        → current.status < 3
        → needs_verification n cfg scope enforce current c ≡ false
    unfolding needs_verification root_needs_independent_verification
    unneeded current c lt = ground (arith, lt)

    Gives-verify_current :
        (block : ℕ) (current : Current) (s : Run W)
        → current.status < 3
        → Marks block s
        → Gives (Marks block) Any (verify_current n cfg scope enforce latest current s)
    unfolding verify_current verify_needed
    Gives-verify_current block current s lt h =
        Gives-after (Marks block) (Marks block) Any Any _ _ (Gives-ensure_canonical block s h)
          λ _ s _ h.
            Gives-after (Marks block) (Marks block) (λ b. b ≡ false) Any _ _
              (Gives-read (Marks block) _ _ s h (unneeded current s.cache lt))
              λ needed s e h. rw e (
                Gives-after (Marks block) (Marks block) Any Any _ _
                  (Gives-give (Marks block) Any none s h tt)
                  λ o s _ h.
                    Gives-after (Marks block) (Marks block) Any Any _ _
                      (Gives-read (Marks block) Any _ s h tt)
                      λ handled s _ h.
                        Gives-when (Marks block) _ _ s h (λ f. absurd (ground (arith, f, lt))))

    Gives-look_at_draw :
        (block draw_id : ℕ) (s : Run W)
        → Marks block s
        → Gives (Marks block) IsCalm (look_at_draw n cfg scope enforce latest draw_id s)
    unfolding look_at_draw
    Gives-look_at_draw block draw_id s h =
        let (v, answer, lt) = quiet.draw draw_id s.world in
        Gives-after (Marks block) (Marks block) (λ x. x ≡ v) IsCalm _ _
          (Gives-call n cfg hash latest quiet tries (Marks block) v _ s answer (λ w. h))
          λ x s e h.
            let low : x.status < 3 = rw e lt in
            Gives-after (Marks block) (Marks block) Any IsCalm _ _
              (Gives-verify_current block
                (record { draw_id = draw_id; root = x.root; status = x.status }) s low h)
              λ _ s _ h. Gives-give (Marks block) IsCalm _ s h low

    Gives-look_at_current :
        (block : ℕ) (s : Run W)
        → Marks block s
        → Gives (Marks block) IsCalm (look_at_current n cfg scope enforce latest s)
    unfolding look_at_current
    Gives-look_at_current block s h =
        let (d, answer) = quiet.draw_id s.world in
        Gives-after (Marks block) (Marks block) (λ x. x ≡ d) IsCalm _ _
          (Gives-call n cfg hash latest quiet tries (Marks block) d _ s answer (λ w. h))
          λ x s _ h. elim (Bool-cases (x == 0)) [
            | inl zero_draw ↦ rw zero_draw (Gives-give (Marks block) IsCalm none s h tt)
            | inr some_draw ↦ rw some_draw (Gives-look_at_draw block x s h)
          ]

    -- No incident is open.
    Gives-handle_incidents :
        (block : ℕ) (s : Run W)
        → Marks block s
        → Gives (Marks block) Any (handle_incidents n cfg scope enforce s)
    unfolding handle_incidents active_coverage_incidents values
    Gives-handle_incidents block s h =
        Gives-after (Marks block) (Marks block) (λ is. is ≡ []) Any _ _
          (Gives-read (Marks block) _ _ s h (rw h.0.3))
          λ is s e h. Gives-each (Marks block) (λ _. ⊥) _ (λ i s x h. absurd x) is s (rw e tt) h

    Gives-check_current :
        (block : ℕ) (current : Option Current) (c : CacheState) (s : Run W)
        → IsCalm current
        → Marks block s
        → Gives (Marks block) Any (check_current n cfg scope enforce current c s)
    unfolding check_current
    Gives-check_current block none c s lt h = Gives-give (Marks block) Any _ s h tt
    Gives-check_current block (some current) c s lt h =
        Gives-after (Marks block) (Marks block) Any Any _ _
          (Gives-throw_if (Marks block) _ _ s (unneeded current c lt) h)
          λ _ s _ h. Gives-throw_if (Marks block) _ _ s (ground (arith, lt)) h

    Gives-finish :
        (block : ℕ) (current : Option Current) (s : Run W)
        → 0 < block
        → IsCalm current
        → Marks block s
        → Gives (Marks block) Any (finish n cfg scope enforce block current s)
    unfolding finish
    Gives-finish block current s pos lt h =
        Gives-after (Marks block) (Marks block) (λ b. b ≡ hash block) Any _ _
          (Gives-read (Marks block) _ _ s h h.2)
          λ found s e h.
            Gives-after (Marks block) (Marks block) (λ b. b ≡ true) Any _ _
              (Gives-same block found s e pos h)
              λ same s e h.
                Gives-after (Marks block) (Marks block) Any Any _ _
                  (Gives-throw_if (Marks block) _ _ s (ap not e) h)
                  λ _ s _ h.
                    Gives-after (Marks block) (Marks block) Any Any _ _
                      (Gives-ensure_canonical block s h)
                      λ _ s _ h.
                        Gives-after (Marks block) (Marks block) Any Any _ _
                          (Gives-read (Marks block) Any _ s h tt)
                          λ c s _ h.
                            Gives-after (Marks block) (Marks block) Any Any _ _
                              (Gives-check_current block current c s lt h)
                              λ _ s _ h.
                                Gives-after (Marks block) (Marks block) Any Any _ _
                                  (Gives-write_state n cfg hash latest quiet tries true block true s
                                    h.0 h.2)
                                  λ _ s _ h. Gives-update (Marks block) _ s h

    abbrev pub Ends : ℕ → Report → Type 0
    Ends block r = (r.run_end ≡ block) × (r.latest ≡ latest)

    -- The end of a run whose cursor is at the block.
    Gives-look :
        (block : ℕ) (s : Run W)
        → Marks block s
        → Gives
            (Marks block)
            IsCalm
            ((if block == latest then look_at_current n cfg scope enforce latest else give none) s)
    Gives-look block s h = elim (Bool-cases (block == latest)) [
      | inl head ↦ rw head (Gives-look_at_current block s h)
      | inr behind ↦ rw behind (Gives-give (Marks block) IsCalm none s h tt)
    ]

    pub Gives-watch :
        (from : ℕ) (s : Run W)
        → 0 < min (from + cfg.max_blocks_per_run - 1) latest
        → Gives (Marks (min (from + cfg.max_blocks_per_run - 1) latest)) Any (
            when
              (leb from latest)
              (scan n cfg scope enforce from (min (from + cfg.max_blocks_per_run - 1) latest))
              s)
        → Gives
            (Marks (min (from + cfg.max_blocks_per_run - 1) latest))
            (Ends (min (from + cfg.max_blocks_per_run - 1) latest))
            (watch n cfg scope enforce from latest s)
    unfolding watch
    Gives-watch from s pos scanned =
        let block = min (from + cfg.max_blocks_per_run - 1) latest in
        Gives-after (Marks block) (Marks block) Any (Ends block) _ _ scanned λ _ s _ h.
          Gives-after (Marks block) (Marks block) IsCalm (Ends block) _ _ (Gives-look block s h)
            λ current s lt h.
              Gives-after (Marks block) (Marks block) Any (Ends block) _ _
                (Gives-handle_incidents block s h)
                λ _ s _ h.
                  Gives-after (Marks block) (Marks block) (λ k. k ≡ 0) (Ends block) _ _
                    (Gives-read (Marks block) _ _ s h (rw h.0.1 refl))
                    λ failures s e h.
                      Gives-after (Marks block) (Marks block) Any (Ends block) _ _
                        (Gives-throw_if (Marks block) _ _ s (rw e (ground arith)) h)
                        λ _ s _ h.
                          Gives-after (Marks block) (Marks block) Any (Ends block) _ _
                            (Gives-when (Marks block) _ _ s h
                              (λ _. Gives-finish block current s pos lt h))
                            λ _ s _ h. Gives-give (Marks block) (Ends block) _ s h (refl, refl)
