-- ===== src/Watcher/Verify/Recomputed.antt =====
-- A verification keeps a run safe, and when it accepts a proposal the root was recomputed.
use everdraw.Base.{
  ℕ, zero, suc, ◌≡◌, refl, ap, sym, ◌∙◌, some, none, find_number, Bool, true, false, not, ◌&&◌,
  Option, List, [], arith, ◌==◌, String, Result, ok, err, find_number-assign_all,
}
use everdraw.Logs.DrawInput.{BuildError}
use everdraw.Watcher.Actions.{
  Failure, Action, Kind, proposals, finalizations, update, throw_if, publish_not_configured,
}
use everdraw.Watcher.Actions.Keeps.{
  Any, Post, Keeps, Keeps-bind, Keeps-then, Keeps-give, Post-give, Keeps-check, Keeps-when,
  Keeps-when_known, Keeps-read, Keeps-read_known, Keeps-or_fail, Post-mono, Post-after, Post-weaken,
  Keeps-if,
}
use everdraw.Watcher.Cache.{Evidence, CacheState, mark_verified}
use everdraw.Watcher.Node.{
  Alarm, late, Node, Config, Run, WatcherState, note, alarmed, published, of_text,
}
use everdraw.Watcher.Invariant.{
  Unmoved, Keeps-asked, is_mismatch, Recomputed, Marked, IsSafe, Keeps-call, Keeps-clock,
  Keeps-save, Keeps-variables,
}
use everdraw.Watcher.Sync.Safe.{
  Keeps-sync_through, Keeps-assert_event, Keeps-assert_evidence_canonical,
}
use everdraw.Watcher.Verify.{
  nonzero, Verification, Mode, of_build, return, alarm, coverage_failure, mismatch,
  read_security_provider, validate_security_provider, proposal_evidence_of, recomputed_root,
  verify_independent_root, check_timing, verify_proposal, post_once, or_again, post_attempts,
  publish_claim_proofs,
}

-- Nothing is known of the mismatches.
abbrev pub Free : List Alarm → Type 0
Free ms = Unit {0}

module _ {W : Type 0} (n : Node W) (cfg : Config) (file : Option WatcherState) where
  abbrev Safe : Run W → Type 0
  Safe = IsSafe n cfg file Free

  Keeps-return :
      {A : Type 0} (P : Run W → Type 0) (r : Result Failure A) → Keeps P (λ a. r ≡ ok a) (return r)
  unfolding return
  Keeps-return P (ok a) s h = record { state = h; result = refl }
  Keeps-return P (err e) s h = record { state = h; result = tt }

  -- An alarm of a mismatch is written after `rootMismatches` was.
  Keeps-note :
      (a : Alarm) (s : Run W)
      → Safe s
      → (s.root_mismatches ≡ [] → is_mismatch a ≡ false)
      → Post Safe Any (note (alarmed a) s)
  unfolding note update
  Keeps-note a s h k = record {
    state = record {
      marked = h.marked;
      filed = h.filed;
      orderly = h.orderly;
      calm = λ e. (k e, h.calm e);
      counted = h.counted;
      written = h.written;
      more = tt;
    };
    result = tt;
  }

  Post-alarm :
      (a : Alarm) (s : Run W)
      → Safe s
      → (s.root_mismatches ≡ [] → is_mismatch a ≡ false)
      → Post Safe Any (alarm n cfg a s)
  unfolding alarm
  Post-alarm a s h k =
      Post-after Safe Any Any (note (alarmed a) s) _ (Keeps-note a s h k)
        (λ _ _. Keeps-call n cfg file Free (n.alarm a))

  pub Keeps-alarm : (a : Alarm) → is_mismatch a ≡ false → Keeps Safe Any (alarm n cfg a)
  Keeps-alarm a e s h = Post-alarm a s h (λ _. e)

  pub Keeps-coverage_failure :
      (a : Alarm) → is_mismatch a ≡ false → Keeps Safe Any (coverage_failure n cfg a)
  unfolding coverage_failure
  Keeps-coverage_failure a e =
      Keeps-then Safe Any _ _
        (Keeps-variables n cfg file Free _ (λ s. refl) (λ s. refl) (λ s. refl) (λ s. omega arith)
          (λ s. refl) (λ s. refl))
        (λ _. Keeps-alarm a e)

  pub Keeps-mismatch : (a : Alarm) → Keeps Safe Any (mismatch n cfg a)
  unfolding mismatch update
  Keeps-mismatch a s h =
      Post-alarm a _
        (record {
          marked = h.marked;
          filed = h.filed;
          orderly = h.orderly;
          calm = λ e. absurd (cc e);
          counted = omega (arith, h.counted);
          written = h.written;
          more = tt;
        })
        (λ e. cc e)

  Keeps-validate : Keeps Safe Any (validate_security_provider n cfg)
  unfolding validate_security_provider read_security_provider
  Keeps-validate = Keeps-then Safe Any _ _ (Keeps-read Safe _) λ validated. Keeps-when Safe _ _ (
      Keeps-then Safe Any _ _ (Keeps-call n cfg file Free n.security_chain_id) λ chain.
        Keeps-then Safe Any _ _ (Keeps-check Safe _ _) λ _.
          Keeps-then Safe Any _ _ (Keeps-call n cfg file Free n.security_has_code) λ has_code.
            Keeps-then Safe Any _ _ (Keeps-check Safe _ _) λ _.
              Keeps-variables n cfg file Free _ (λ s. refl) (λ s. refl) (λ s. refl)
                (λ s. omega arith) (λ s. refl) (λ s. refl))

  built : {A : Type 0} (r : Result (BuildError String) A) (a : A) → of_build r ≡ ok a → r ≡ ok a
  built (ok x) a e = cc
  built (err x) a e = cc

  answered_text : {A : Type 0} (r : Result String A) (a : A) → of_text r ≡ ok a → r ≡ ok a
  answered_text (ok x) a e = cc
  answered_text (err x) a e = cc

  nonzero-some : (o : Option ℕ) (b : ℕ) → nonzero o ≡ some b → o ≡ some b
  nonzero-some none b e = cc
  nonzero-some (some x) b e = ground (arith, e)

  Keeps-recomputed_root :
      (d : ℕ) → Keeps Safe (λ root. Recomputed n cfg d root) (recomputed_root n cfg d)
  unfolding recomputed_root
  Keeps-recomputed_root d s h =
      let c = s.cache in
      let P = Unmoved n cfg file Free c in
      let found_root : Keeps P (λ root. Recomputed n cfg d root) (recomputed_root n cfg d) =
        Keeps-bind P (λ found. found ≡ find_number d c.seed_blocks) _ _ _
          (Keeps-read_known P _ _ (λ t p. ap (λ c. find_number d c.seed_blocks) p.1))
          λ found known. Keeps-bind P _ _ _ _ (Keeps-or_fail P _ _) λ seed_block there.
            Keeps-bind P _ _ _ _ (Keeps-asked n cfg file Free c _) λ answers asked.
              Keeps-bind P (λ accounts. accounts ≡ c.participant_accounts) _ _ _
                (Keeps-read_known P _ _ (λ t p. ap (λ c. c.participant_accounts) p.1))
                λ accounts gathered. Keeps-bind P _ _ _ _ (Keeps-return P _) λ input is_input t p.
                  Post-weaken P (λ root. of_text (n.recompute input) ≡ ok root) _ _
                    (λ root e. record {
                      accounts = accounts;
                      seeds = c.seed_blocks;
                      gathered = rw gathered h.marked.sourced.gathered;
                      seed_block = seed_block;
                      seeded = sym known ∙ nonzero-some found seed_block there;
                      world = asked.0;
                      answers = answers;
                      answered = asked.1;
                      input = input;
                      built = built _ input is_input;
                      result = answered_text (n.recompute input) root e;
                    })
                    (Keeps-return P (of_text (n.recompute input)) t p) in
      Post-mono P Safe _ _ (λ t p. p.0) (found_root s (h, refl))

  Keeps-proposal_evidence_of :
      (kind : Kind) (d root : ℕ) (e : Evidence)
      → e.root ≡ root
      → Keeps Safe (λ e. e.root ≡ root) (proposal_evidence_of n cfg kind d root e)
  unfolding proposal_evidence_of
  Keeps-proposal_evidence_of proposals d root e q s h = Post-give Safe _ e s h q
  Keeps-proposal_evidence_of finalizations d root e q s h =
      Keeps-assert_evidence_canonical n cfg file Free proposals d root s h

  -- What a verification that returns has found.
  abbrev pub Found : (d root : ℕ) → Verification → Type 0
  Found d root v =
      Recomputed n cfg d v.root × (v.evidence.root ≡ root) × (v.proposal_evidence.root ≡ root)

  pub Keeps-verify_independent_root :
      (d root : ℕ) (kind : Kind) (through : ℕ)
      → Keeps Safe (Found d root) (verify_independent_root n cfg d root kind through)
  unfolding verify_independent_root
  Keeps-verify_independent_root d root kind through = Keeps-then Safe _ _ _ Keeps-validate λ _.
      Keeps-then Safe _ _ _ (Keeps-sync_through n cfg file Free through) λ _.
        Keeps-bind Safe _ _ _ _ (Keeps-assert_event n cfg file Free kind d root) λ event _.
          Keeps-bind Safe _ _ _ _ (Keeps-recomputed_root d) λ recomputed r.
            Keeps-bind Safe _ _ _ _ (Keeps-assert_evidence_canonical n cfg file Free kind d root)
              λ evidence e.
                Keeps-bind Safe _ _ _ _ (Keeps-proposal_evidence_of kind d root evidence e)
                  λ proposal p s h. Post-give Safe _ _ s h (r, e, p)

  mark_verified-Marked :
      (d : ℕ) (e : Evidence)
      → Recomputed n cfg d e.root
      → (c : CacheState) → Marked n cfg c
      → Marked n cfg (mark_verified d e c)
  unfolding mark_verified
  mark_verified-Marked d e r c h = record {
    verified =
        find_number-assign_all (λ j m. Recomputed n cfg j m.root) d e c.verified_roots r h.verified;
    recovered = h.recovered;
    sourced = record {
      vault = h.sourced.vault;
      manager = h.sourced.manager;
      gathered = h.sourced.gathered;
    };
  }

  Keeps-check_timing : (d ends : ℕ) → Keeps Safe Any (check_timing n cfg d ends)
  unfolding check_timing
  Keeps-check_timing d ends = Keeps-then Safe _ _ _ (Keeps-clock n cfg file Free) λ now.
      Keeps-then Safe _ _ _ (Keeps-when Safe _ _ (Keeps-coverage_failure (late d) refl))
        λ _. Keeps-give Safe _

  -- What a verified proposal's answer says.
  abbrev pub Accepted : (d root : ℕ) → Bool × Evidence → Type 0
  Accepted d root r = (r.0 ≡ true → Recomputed n cfg d root) × (r.1.root ≡ root)

  accepted_root :
      (d root : ℕ) (v : Verification) (disagree moved timely : Bool)
      → Found d root v
      → (not disagree && (not moved && (not (not (v.root == root)) && timely))) ≡ true
      → Recomputed n cfg d root
  accepted_root d root v disagree moved timely f e =
      let same : v.root ≡ root = ground (arith, e) in rw (← same) f.0

  and_left : (a b : Bool) → (a && b) ≡ true → a ≡ true
  and_left a b e = ground (arith, e)

  pub Keeps-verify_proposal :
      (enforce : Bool) (d root through : ℕ) (deadline : Option ℕ) (mode : Mode)
      → Keeps Safe (Accepted d root) (verify_proposal n cfg enforce d root through deadline mode)
  unfolding verify_proposal
  Keeps-verify_proposal enforce d root through deadline mode =
      Keeps-bind Safe _ _ _ _ (Keeps-verify_independent_root d root proposals through) λ v f.
        Keeps-then Safe _ _ _
          (Keeps-variables n cfg file Free _ (λ s. refl) (λ s. refl) (λ s. refl) (λ s. omega arith)
            (λ s. refl) (λ s. refl))
          λ _. Keeps-then Safe _ _ _ (Keeps-call n cfg file Free _) λ stored.
            Keeps-then Safe _ _ _ (Keeps-when Safe _ _ (Keeps-mismatch _)) λ _.
              Keeps-then Safe _ _ _ (Keeps-when Safe _ _ (Keeps-mismatch _)) λ _.
                Keeps-then Safe _ _ _ (Keeps-when Safe _ _ (Keeps-mismatch _)) λ _.
                  Keeps-then Safe _ _ _
                    (Keeps-if Safe Any _ _ _ (λ _. Keeps-check_timing d stored)
                      (λ _. Keeps-give Safe true))
                    λ timely.
                      Keeps-then Safe _ _ _
                        (Keeps-when_known Safe _ _ (λ e. Keeps-save n cfg file Free _ (
                          mark_verified-Marked d v.proposal_evidence
                            (rw f.2 (accepted_root d root v _ _ timely f (and_left _ _ e))))))
                        λ _ s h. Post-give Safe _ _ s h (accepted_root d root v _ _ timely f, f.2)

  Post-published : (d root : ℕ) (s : Run W) → Safe s → Post Safe Any (note (published d root) s)
  unfolding note update
  Post-published d root s h = record {
    state = record {
      marked = h.marked;
      filed = h.filed;
      orderly = h.orderly;
      calm = h.calm;
      counted = h.counted;
      written = h.written;
      more = tt;
    };
    result = tt;
  }

  Keeps-post_once : (d root : ℕ) → Keeps Safe Any (post_once n cfg d root)
  unfolding post_once
  Keeps-post_once d root =
      Keeps-then Safe _ _ _ (Keeps-call n cfg file Free _)
        λ status. Keeps-then Safe _ _ _ (Keeps-check Safe _ _) λ _ s h. Post-published d root s h

  Post-or_again :
      (again : Action (Run W) (Unit {0})) (r : Result Failure (Unit {0}) × Run W)
      → Keeps Safe Any again
      → Post Safe Any r
      → Post Safe Any (or_again n cfg again r)
  Post-or_again again (ok u, s) k h = h
  Post-or_again again (err e, s) k h = k s h.state

  Keeps-post_attempts : (left d root : ℕ) → Keeps Safe Any (post_attempts n cfg left d root)
  unfolding post_attempts
  Keeps-post_attempts zero d root s h = Keeps-post_once d root s h
  Keeps-post_attempts (suc left) d root s h =
      Post-or_again _ _ (Keeps-post_attempts left d root) (Keeps-post_once d root s h)

  pub Keeps-publish_claim_proofs : (d root : ℕ) → Keeps Safe Any (publish_claim_proofs n cfg d root)
  unfolding publish_claim_proofs
  Keeps-publish_claim_proofs d root =
      Keeps-if Safe Any cfg.can_publish _ (throw_if cfg.require_publish publish_not_configured)
        (λ _. Keeps-post_attempts 2 d root) (λ _. Keeps-check Safe _ _)
