-- ===== src/Watcher/Verify.antt =====
-- scripts/draw/watch-root-proposals.mjs: `verifyIndependentRoot`, `verifyProposal`,
-- `publishClaimProofs` and what they call in `main`. The retries around the reconstruction are part
-- of the call that reads its answers.
pub mod Recomputed
use everdraw.Base.{
  ℕ, zero, suc, ◌+◌, ◌-◌, Bool, true, false, not, ◌&&◌, ◌||◌, Option, none, some, List, [], ◌∷◌,
  ltb, leb, ◌==◌, if◌then◌else◌, find_number, Result, ok, err, String,
}
use everdraw.Draw.Input.{Input}
use everdraw.Logs.DrawInput.{Draw, BuildError, build_watcher_draw_input}
use everdraw.Watcher.Actions.{
  Action, Failure, Kind, proposals, finalizations, after, give, throw, throw_if, or_fail, when,
  read, update, ◌>>=◌, ◌>>◌, security_chain_mismatch, no_security_bytecode, no_seed_block,
  publish_not_configured, publish_status, build, thrown,
}
use everdraw.Watcher.Cache.{CacheState, RootEvent, Evidence, mark_verified}
use everdraw.Watcher.Node.{
  Alarm, deadline_disagreement, deadline_mismatch, root_mismatch, late, Node, Config, Run, call,
  clock, of_text, save, note, alarmed, published,
}
use everdraw.Watcher.Sync.{sync_through, assert_event, assert_evidence_canonical}

pub record Verification : Type 0 where
  pub root : ℕ  -- the recomputed one
  pub event : RootEvent
  pub evidence : Evidence
  pub proposal_evidence : Evidence

-- `verifyProposal`'s two modes.
pub data Mode : Type 0 where
  live historical_finalized : Mode

abbrev pub is_live : Mode → Bool
is_live live = true
is_live historical_finalized = false

-- `challengeDeadlineMismatch`.
unfoldable pub challenge_deadline_mismatch : (event_deadline stored_deadline : ℕ) → Bool
challenge_deadline_mismatch event_deadline stored_deadline = not (event_deadline == stored_deadline)

-- `proposalCoverageFailure`: too little time remained, or none.
unfoldable pub proposal_coverage_failure : (challenge_ends_at observed_at min_remaining : ℕ) → Bool
proposal_coverage_failure challenge_ends_at observed_at min_remaining =
    ltb challenge_ends_at (observed_at + min_remaining)

abbrev pub of_build : {A : Type 0} → Result (BuildError String) A → Result Failure A
of_build (ok a) = ok a
of_build (err e) = err (build e)

abbrev pub nonzero : Option ℕ → Option ℕ
nonzero none = none
nonzero (some b) = if b == 0 then none else some b

abbrev pub disagrees : (deadline : ℕ) → Option ℕ → Bool
disagrees deadline none = false
disagrees deadline (some discovered) = not (discovered == deadline)

abbrev pub or_none : Option ℕ → ℕ
or_none none = 0
or_none (some n) = n

module _ {W : Type 0} where
  unfoldable pub return : {A : Type 0} → Result Failure A → Action (Run W) A
  return r s = (r, s)

module _ {W : Type 0} (n : Node W) (cfg : Config) where
  -- `alarm`: on the console first.
  unfoldable pub alarm : Alarm → Action (Run W) (Unit {0})
  alarm a = do note (alarmed a); call (n.alarm a)

  -- `coverageFailures.push`, and the alarm.
  unfoldable pub coverage_failure : Alarm → Action (Run W) (Unit {0})
  coverage_failure a = do
    update (λ s. record s { coverage_failures = a ∷ s.coverage_failures })
    alarm a

  -- The same with `rootMismatches.push`.
  unfoldable pub mismatch : Alarm → Action (Run W) (Unit {0})
  mismatch a = do
    update λ s. record s {
      coverage_failures = a ∷ s.coverage_failures;
      root_mismatches = a ∷ s.root_mismatches;
    }
    alarm a

  unfoldable pub read_security_provider : Action (Run W) (Unit {0})
  read_security_provider = do
    chain_id ← call n.security_chain_id
    throw_if (not (chain_id == cfg.expected_chain_id)) (security_chain_mismatch chain_id)
    has_code ← call n.security_has_code
    throw_if (not has_code) no_security_bytecode
    update (λ s. record s { validated = true })

  unfoldable pub validate_security_provider : Action (Run W) (Unit {0})
  validate_security_provider = do
    validated ← read (λ s. s.validated)
    when (not validated) read_security_provider

  unfoldable pub proposal_evidence_of :
      Kind → (draw_id root : ℕ) → Evidence → Action (Run W) Evidence
  proposal_evidence_of proposals draw_id root evidence = give evidence
  proposal_evidence_of finalizations draw_id root evidence =
      assert_evidence_canonical n cfg proposals draw_id root

  -- The root by the independent endpoint's data.
  unfoldable pub recomputed_root : (draw_id : ℕ) → Action (Run W) ℕ
  recomputed_root draw_id = do
    found ← read (λ s. find_number draw_id s.cache.seed_blocks)
    seed_block ← or_fail (no_seed_block draw_id) (nonzero found)
    answers ← call (n.draw_answers draw_id seed_block)
    accounts ← read (λ s. s.cache.participant_accounts)
    let draw = record answers { draw_id = draw_id; draw_manager = cfg.draw_manager_address }
    input ← return (of_build (build_watcher_draw_input draw accounts))
    return (of_text (n.recompute input))

  unfoldable pub verify_independent_root :
      (draw_id root : ℕ) → Kind → (through_block : ℕ) → Action (Run W) Verification
  verify_independent_root draw_id root kind through_block = do
    validate_security_provider
    sync_through n cfg through_block
    event ← assert_event n cfg kind draw_id root
    recomputed ← recomputed_root draw_id
    evidence ← assert_evidence_canonical n cfg kind draw_id root
    proposal_evidence ← proposal_evidence_of kind draw_id root evidence
    give (record {
      root = recomputed;
      event = event;
      evidence = evidence;
      proposal_evidence = proposal_evidence;
    })

  unfoldable pub check_timing : (draw_id challenge_ends_at : ℕ) → Action (Run W) Bool
  check_timing draw_id challenge_ends_at = do
    now ← clock n
    let is_late = proposal_coverage_failure challenge_ends_at now cfg.min_veto_remaining
    when is_late (coverage_failure (late draw_id))
    give (not is_late)

  -- `enforce` is `enforceLiveWindow`; the answer is `acceptable`, with the proposal's evidence.
  unfoldable pub verify_proposal :
      (enforce : Bool)
      → (draw_id root through_block : ℕ) → (discovery_deadline : Option ℕ) → Mode
      → Action (Run W) (Bool × Evidence)
  verify_proposal enforce draw_id root through_block discovery_deadline mode = do
    v ← verify_independent_root draw_id root proposals through_block
    update (λ s. record s { checked = suc s.checked })
    stored ← call (n.challenge_ends_at draw_id)
    let deadline = v.event.challenge_ends_at
    let disagree = disagrees deadline discovery_deadline
    when disagree (mismatch (deadline_disagreement draw_id (or_none discovery_deadline) deadline))
    let moved = challenge_deadline_mismatch deadline stored
    when moved (mismatch (deadline_mismatch draw_id deadline stored))
    let wrong = not (v.root == root)
    when wrong (mismatch (root_mismatch draw_id root v.root))
    timely ← if is_live mode && enforce then check_timing draw_id stored else give true
    let acceptable = not disagree && (not moved && (not wrong && timely))
    when (acceptable && is_live mode) (save (mark_verified draw_id v.proposal_evidence))
    give (acceptable, v.proposal_evidence)

  abbrev pub is_ok_status : ℕ → Bool
  is_ok_status status = leb 200 status && ltb status 300

  unfoldable pub post_once : (draw_id root : ℕ) → Action (Run W) (Unit {0})
  post_once draw_id root = do
    status ← call (n.post_proofs draw_id root)
    throw_if (not (is_ok_status status)) (publish_status status)
    note (published draw_id root)

  -- `catch`, with the attempts that are left.
  abbrev pub or_again :
      Action (Run W) (Unit {0})
      → Result Failure (Unit {0}) × Run W
      → Result Failure (Unit {0}) × Run W
  or_again again (ok u, s) = (ok u, s)
  or_again again (err e, s) = again s

  unfoldable pub post_attempts : (left draw_id root : ℕ) → Action (Run W) (Unit {0})
  post_attempts zero draw_id root s = post_once draw_id root s
  post_attempts (suc left) draw_id root s =
      or_again (post_attempts left draw_id root) (post_once draw_id root s)

  -- Three attempts. What it returns is not used where it is called.
  unfoldable pub publish_claim_proofs : (draw_id root : ℕ) → Action (Run W) (Unit {0})
  publish_claim_proofs draw_id root =
      if cfg.can_publish
      then post_attempts 2 draw_id root
      else throw_if cfg.require_publish publish_not_configured
