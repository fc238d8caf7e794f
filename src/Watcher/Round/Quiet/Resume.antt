-- ===== src/Watcher/Round/Quiet/Resume.antt =====
-- What a run on a quiet chain resumes: the state file, if there is one.
use everdraw.Base.{
  ℕ, suc, ◌-◌, ◌≤◌, ◌<◌, ◌≡◌, refl, sym, ◌∙◌, ap, ◌⊎◌, true, Option, none, some, arith, inl, inr,
}
use everdraw.Logs.Cache.{Scope}
use everdraw.Watcher.Actions.{update}
use everdraw.Watcher.Actions.Keeps.{Any}
use everdraw.Watcher.Actions.Gives.{Gives, Gives-after, Gives-give, Gives-update}
use everdraw.Watcher.Cache.{empty_state, read_state}
use everdraw.Watcher.Node.{Node, Config, Run, WatcherState}
use everdraw.Watcher.Round.{
  Report, canonical_checkpoint_matches, if_canonical, in_scope, first_block, new_process,
  open_cache, resume,
}
use everdraw.Watcher.Round.Quiet.{Quiet, Idle, Cursor, At}
use everdraw.Watcher.Round.Quiet.Scan.{scope_of}
use everdraw.Watcher.Round.Quiet.Ending.{Gives-matches}

module _ {W : Type 0} (n : Node W) (cfg : Config) (hash : ℕ → ℕ) (latest : ℕ)
    (quiet : Quiet n cfg hash latest) (tries : 0 < cfg.attempts) where
  abbrev scope : Scope
  scope = scope_of n cfg hash latest quiet tries true

  abbrev Marks : ℕ → Run W → Type 0
  Marks = At n cfg hash latest

  -- The block after the last scanned one; a cursor is past the deployment.
  abbrev pub Next : ℕ → Run W → Type 0
  Next next s =
      (s.independent_file ≡ none)
      × (((s.state_file ≡ none) × (next ≡ cfg.from_block))
          ⊎ ((block : ℕ) × (next ≡ suc block)
              × (cfg.from_block ≤ block)
              × (0 < block)
              × Cursor n cfg hash latest block s.state_file))

  -- What is resumed: nothing, or the state of the block before.
  abbrev pub Resumed : ℕ → Option WatcherState → Type 0
  Resumed next o =
      ((o ≡ none) × (next ≡ cfg.from_block))
      ⊎ ((block : ℕ) × (next ≡ suc block)
          × (cfg.from_block ≤ block)
          × (0 < block)
          × Cursor n cfg hash latest block o)

  in_scope-Cursor :
      (block : ℕ) (o : Option WatcherState)
      → Cursor n cfg hash latest block o
      → in_scope scope o ≡ o
  unfolding in_scope
  in_scope-Cursor block none h = absurd (cc h.1)
  in_scope-Cursor block (some st) h =
      let (x, e, chain, manager, vault, from, last, end) = h in
      ground (arith, e, chain, manager, vault, from)

  in_scope-none : {o : Option WatcherState} → o ≡ none → in_scope scope o ≡ none
  unfolding in_scope
  in_scope-none e = rw e

  pub first_block-Resumed :
      (next : ℕ) (o : Option WatcherState) → Resumed next o → first_block cfg.from_block o ≡ next
  unfolding first_block
  first_block-Resumed next none (inl (gone, e)) = cc e
  first_block-Resumed next (some st) (inl (gone, e)) = absurd (cc gone)
  first_block-Resumed next none (inr (block, e, past, pos, h)) = absurd (cc h.1)
  first_block-Resumed next (some st)
        (inr (block, e, past, pos, (x, same, chain, manager, vault, from, last, end))) =
      ground (arith, e, past, pos, same, last)

  pub in_scope-Resumed :
      (next : ℕ) (o : Option WatcherState) → Resumed next o → in_scope scope o ≡ o
  in_scope-Resumed next o (inl (gone, e)) = rw gone (in_scope-none refl)
  in_scope-Resumed next o (inr (block, e, past, pos, h)) = in_scope-Cursor block o h

  Gives-checkpointed :
      (P : Run W → Type 0) (block : ℕ) (st : WatcherState) (s : Run W)
      → 0 < block
      → st.last_scanned_block ≡ block
      → st.last_scanned_block_hash ≡ hash block
      → ((w : W) → P (record s { world = w }))
      → Gives P
          (λ b. b ≡ true)
          (canonical_checkpoint_matches n cfg st.last_scanned_block st.last_scanned_block_hash s)
  Gives-checkpointed P block st s pos at same p =
      rw at (rw same (Gives-matches n cfg hash latest quiet tries P block s pos p))

  -- The state file is taken.
  Gives-if_canonical :
      (P : Run W → Type 0) (next : ℕ) (o : Option WatcherState) (s : Run W)
      → Resumed next o
      → P s
      → ((w : W) → P (record s { world = w }))
      → Gives P (λ r. r ≡ o) (if_canonical n cfg o s)
  unfolding if_canonical
  Gives-if_canonical P next none s r h p = Gives-give P _ none s h refl
  Gives-if_canonical P next (some st) s (inl (gone, e)) h p = absurd (cc gone)
  Gives-if_canonical P next (some st) s
        (inr (block, e, past, pos, (x, same, chain, manager, vault, from, last, end))) h p =
      let known : st ≡ x = cc same in
      Gives-after P P (λ b. b ≡ true) (λ r. r ≡ some st) _ _
        (Gives-checkpointed P block st s pos (ap (λ x. x.last_scanned_block) known ∙ last)
          (ap (λ x. x.last_scanned_block_hash) known ∙ end) p)
        λ b s e h. Gives-give P (λ r. r ≡ some st) _ s h (rw e refl)

  -- What a run returned.
  abbrev pub Returned : ℕ → Report → Type 0
  Returned block r = (r.run_end ≡ block) × (r.latest ≡ latest)

  -- A run's variables, and what it resumes.
  abbrev pub Ready : ℕ → Run W → Type 0
  Ready next s = Idle n cfg hash latest s × Resumed next s.state_file

  -- The state file stays what it was.
  abbrev pub Same : Option WatcherState → Run W → Type 0
  Same o s = Idle n cfg hash latest s × (s.state_file ≡ o)

  pub Gives-open_cache :
      (o : Option WatcherState) (s : Run W)
      → Same o s
      → Gives (Same o) Any (update (open_cache n cfg scope) s)
  unfolding open_cache read_state empty_state
  Gives-open_cache o s h =
      Gives-update (Same o) (open_cache n cfg scope) s
        ((h.0.0, h.0.1, rw h.0.4 refl, rw h.0.4 refl, h.0.4), h.1)

  pub Gives-new_process :
      (next : ℕ) (s : Run W) → Next next s → Gives (Ready next) Any (update (new_process n cfg) s)
  unfolding new_process empty_state
  Gives-new_process next s h =
      Gives-update (Ready next) (new_process n cfg) s ((refl, refl, refl, refl, h.0), h.1)

  -- The state at which the scan begins.
  abbrev pub Resuming : ℕ → Option WatcherState → Run W → Type 0
  Resuming next o s =
      Idle n cfg hash latest s
      × (s.state_file ≡ o)
      × ((o ≡ none) ⊎ (s.last_checkpoint_hash ≡ hash (next - 1)))

  Gives-resume :
      (next : ℕ) (o : Option WatcherState) (s : Run W)
      → Resumed next o
      → Same o s
      → Gives (Resuming next o) Any (update (resume n cfg o) s)
  unfolding resume
  Gives-resume next none s r h = Gives-update (Resuming next none) _ s (h.0, h.1, inl refl)
  Gives-resume next (some st) s (inl (gone, e)) h = absurd (cc gone)
  Gives-resume next (some st) s
        (inr (block, e, past, pos, (x, same, chain, manager, vault, from, last, end))) h =
      let known : st ≡ x = cc same in
      let before : next - 1 ≡ block = omega (arith, e) in
      Gives-update (Resuming next (some st)) _ s
        (h.0, h.1, inr (ap (λ x. x.last_scanned_block_hash) known ∙ end ∙ sym (ap hash before)))

  pub Gives-file :
      (next : ℕ) (o file : Option WatcherState) (s : Run W)
      → file ≡ o
      → Resumed next o
      → Same o s
      → Gives (Same o) (λ x. x ≡ o) (if_canonical n cfg (in_scope scope file) s)
  Gives-file next o file s e r same =
      rw (e, in_scope-Resumed next o r) (Gives-if_canonical (Same o) next o s r same (λ w. same))

  pub Gives-resume_with :
      (next : ℕ) (o state : Option WatcherState) (s : Run W)
      → state ≡ o
      → Resumed next o
      → Same o s
      → Gives (Resuming next o) Any (update (resume n cfg state) s)
  Gives-resume_with next o state s e r same = rw e (Gives-resume next o s r same)
