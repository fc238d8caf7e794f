-- ===== src/Watcher/States.antt =====
-- The cache as a state machine: whatever the watcher does to it, in any order, no draw ever has two
-- open coverage incidents.
use everdraw.Base.{
  ℕ, ◌≤◌, ◌≡◌, refl, ◌∙◌, Bool, true, false, List, [], ◌∷◌, arith, if◌then◌else◌, ◌==◌,
}
use everdraw.Logs.Cache.{Scope}
use everdraw.Watcher.Events.{
  WatchEvent, WatchLog, transfer, seed_received, root_proposed, root_finalized, privileged, other,
}
use everdraw.Watcher.Cache.{
  Evidence, IncidentId, CacheState, empty_state, mark_verified, mark_historical_finalized_integrity,
  mark_finalization_handled,
}
use everdraw.Watcher.Cache.Incidents.{
  Identity, coverage_incident, record_coverage_incident, mark_coverage_incident_notified,
  acknowledge_coverage_incident, active_coverage_incidents,
}
use everdraw.Watcher.Cache.Incidents.Open.{
  of_draw, active-open, OneOpen, recorded-OneOpen, changed-OneOpen,
}
use everdraw.Watcher.Sync.{record_event, record_logs, ingest_batch, rebuild}

module _ (fingerprint : Identity → ℕ) where
  -- The methods that change the state, and what a run does of itself: a batch of logs, the rebuilding
  -- after a reorganisation, and the reset when a checkpoint changed during a verification.
  pub data Step : CacheState → CacheState → Type 0 where
    ingest :
        (logs : List WatchLog) (to hash : ℕ) (c : CacheState) → Step c (ingest_batch logs to hash c)
    rebuilding : (c : CacheState) → Step c (rebuild c)
    resetting : (c : CacheState) → Step c (empty_state c.scope)
    verifying : (d : ℕ) (e : Evidence) (c : CacheState) → Step c (mark_verified d e c)
    recovering :
        (d : ℕ) (p f : Evidence) (c : CacheState)
        → Step c (mark_historical_finalized_integrity d p f c)
    handling : (d : ℕ) (e : Evidence) (c : CacheState) → Step c (mark_finalization_handled d e c)
    recording :
        (i : Identity) (now : ℕ) (c : CacheState)
        → Step c (record_coverage_incident fingerprint i now c).0
    notifying :
        (id : IncidentId) (now : ℕ) (c : CacheState)
        → Step c (mark_coverage_incident_notified id now c)
    acknowledging :
        (id : IncidentId) (now : ℕ) (c : CacheState)
        → Step c (acknowledge_coverage_incident id now c)

  pub data Reach (c : CacheState) : CacheState → Type 0 where
    here : Reach c c
    next : {d e : CacheState} → Reach c d → Step d e → Reach c e

  event_incidents :
      (block hash : ℕ) (e : WatchEvent) (c : CacheState)
      → (record_event block hash e c).coverage_incidents ≡ c.coverage_incidents
  unfolding record_event
  event_incidents block hash (seed_received d seed) c = refl
  event_incidents block hash (root_proposed d root ends) c = refl
  event_incidents block hash (root_finalized d root) c = refl
  event_incidents block hash (transfer from to) c = refl
  event_incidents block hash (privileged name) c = refl
  event_incidents block hash other c = refl

  one_log_incidents :
      (b : Bool) (block hash : ℕ) (e : WatchEvent) (c : CacheState)
      → (if b then record_event block hash e c else c).coverage_incidents ≡ c.coverage_incidents
  one_log_incidents true block hash e c = event_incidents block hash e c
  one_log_incidents false block hash e c = refl

  logs_incidents :
      (manager : ℕ) (logs : List WatchLog) (c : CacheState)
      → (record_logs manager logs c).coverage_incidents ≡ c.coverage_incidents
  unfolding record_logs
  logs_incidents manager [] c = refl
  logs_incidents manager (l ∷ logs) c =
      logs_incidents manager logs _
      ∙ one_log_incidents (l.address == manager) l.block_number l.block_hash l.event c

  Step-OneOpen : {c c' : CacheState} → Step c c' → OneOpen c → OneOpen c'
  unfolding ingest_batch rebuild empty_state mark_verified mark_historical_finalized_integrity
      mark_finalization_handled record_coverage_incident mark_coverage_incident_notified
      acknowledge_coverage_incident coverage_incident
  Step-OneOpen (ingest logs to hash c) h d =
      rw (logs_incidents c.scope.draw_manager_address logs c) (h d)
  Step-OneOpen (rebuilding c) h d = h d
  Step-OneOpen (resetting c) h d = omega arith
  Step-OneOpen (verifying k e c) h d = h d
  Step-OneOpen (recovering k p f c) h d = h d
  Step-OneOpen (handling k e c) h d = h d
  Step-OneOpen (recording i now c) h d = recorded-OneOpen _ i now c _ refl h d
  Step-OneOpen (notifying id now c) h d = changed-OneOpen id _ _ c _ (λ d i. refl) refl h d
  Step-OneOpen (acknowledging id now c) h d = changed-OneOpen id _ _ c _ (λ d i. refl) refl h d

  Reach-OneOpen : {c c' : CacheState} → Reach c c' → OneOpen c → OneOpen c'
  Reach-OneOpen here h = h
  Reach-OneOpen (next r step) h = Step-OneOpen step (Reach-OneOpen r h)

  -- From an empty cache, however its methods follow one another, the active coverage incidents hold
  -- at most one of each draw.
  pub active_coverage_incidents-Reach :
      (scope : Scope) (c : CacheState)
      → Reach (empty_state scope) c
      → (d : ℕ) → of_draw d (active_coverage_incidents c) ≤ 1
  unfolding active_coverage_incidents empty_state
  active_coverage_incidents-Reach scope c reach d =
      rw (active-open d c.coverage_incidents) (Reach-OneOpen reach (λ e. omega arith) d)
