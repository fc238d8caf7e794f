-- ===== src/Watcher/Actions.antt =====
-- The errors of the root watcher, and its code as actions on a state: an action that throws keeps
-- what it had changed.
pub mod Keeps
pub mod Gives
use everdraw.Base.{
  ℕ, ◌≡◌, refl, String, Bool, true, false, Option, none, some, List, [], ◌∷◌, Result, ok, err,
}
use everdraw.Logs.DrawInput.{BuildError}

-- Which of the draw manager's events: `proposals` or `finalizations`.
pub data Kind : Type 0 where
  proposals finalizations : Kind

-- The errors of write-watch-inputs.mjs, independent-watcher-cache.mjs and watch-root-proposals.mjs,
-- with the numbers that their texts name; `build` is one of buildWatcherDrawInput, `thrown` that of a
-- call, by its text.
pub data Failure : Type 0 where
  missing_block range_changed log_mismatch : (block : ℕ) → Failure
  missing_event event_not_canonical : Kind → (draw_id : ℕ) → Failure
  no_seed_evidence seed_not_canonical checkpoint_changed no_seed_block : (draw_id : ℕ) → Failure
  head_chain_mismatch security_chain_mismatch : (chain_id : ℕ) → Failure
  no_head_bytecode no_security_bytecode vault_mismatch bad_max_blocks : Failure
  publish_not_configured : Failure
  publish_status : (status : ℕ) → Failure
  coverage_failed : (count : ℕ) → Failure
  run_checkpoint_changed : (block : ℕ) → Failure
  proposal_evidence_changed finalization_evidence_changed : (draw_id : ℕ) → Failure
  build : BuildError String → Failure
  thrown : String → Failure

abbrev pub Action : Type 0 → Type 0 → Type 0
Action S A = S → Result Failure A × S

module _ {S : Type 0} where
  abbrev pub after : {A B : Type 0} → Result Failure A × S → (A → Action S B) → Result Failure B × S
  after (ok a, s) f = f a s
  after (err e, s) f = (err e, s)

  unfoldable pub give : {A : Type 0} → A → Action S A
  give a s = (ok a, s)

  unfoldable pub throw : {A : Type 0} → Failure → Action S A
  throw e s = (err e, s)

  unfoldable pub update : (S → S) → Action S (Unit {0})
  update f s = (ok tt, f s)

  unfoldable pub read : {A : Type 0} → (S → A) → Action S A
  read f s = (ok (f s), s)

  -- `if (b) throw e`.
  unfoldable pub throw_if : Bool → Failure → Action S (Unit {0})
  throw_if true e s = (err e, s)
  throw_if false e s = (ok tt, s)

  unfoldable pub or_fail : {A : Type 0} → Failure → Option A → Action S A
  or_fail e none s = (err e, s)
  or_fail e (some a) s = (ok a, s)

  -- `if (b) await action`.
  unfoldable pub when : Bool → Action S (Unit {0}) → Action S (Unit {0})
  when true m s = m s
  when false m s = (ok tt, s)

infixl 5 ◌>>=◌ ◌>>◌
abbrev pub ◌>>=◌ : {S A B : Type 0} → Action S A → (A → Action S B) → Action S B
(m >>= f) s = after (m s) f

abbrev pub ◌>>◌ : {S B : Type 0} → Action S (Unit {0}) → Action S B → Action S B
m >> k = m >>= λ _. k

module _ {S A : Type 0} where
  -- `for (const x of xs) await f(x)`.
  unfoldable pub each : (A → Action S (Unit {0})) → List A → Action S (Unit {0})
  each f [] s = (ok tt, s)
  each f (x ∷ xs) s = after (f x s) (λ _. each f xs)

module _ {S A B : Type 0} where
  -- The answers, in the order of the list.
  unfoldable pub collect : (A → Action S B) → List A → Action S (List B)
  collect f [] s = (ok [], s)
  collect f (x ∷ xs) s =
      after (f x s) (λ y s'. after (collect f xs s') (λ ys s''. (ok (y ∷ ys), s'')))
