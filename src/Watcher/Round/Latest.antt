-- ===== src/Watcher/Round/Latest.antt =====
-- Looking at the current draw and at the incidents keeps a run safe.
use everdraw.Base.{
  ℕ, ◌≡◌, refl, Bool, true, false, not, Option, none, some, arith, has, ◌==◌, if◌then◌else◌,
  find_number-assign_all,
}
use everdraw.Logs.Cache.{Scope}
use everdraw.Watcher.Actions.{finalizations}
use everdraw.Watcher.Actions.Keeps.{
  Any, Keeps, Keeps-bind, Keeps-then, Keeps-give, Post-give, Keeps-found, Keeps-when, Keeps-read,
  Keeps-each, Keeps-if, Post-after,
}
use everdraw.Watcher.Cache.{
  Evidence, CacheState, Incident, IncidentId, mark_historical_finalized_integrity,
}
use everdraw.Watcher.Cache.Incidents.{
  Identity, is_some, recorded, record_coverage_incident, changed_if, same_id,
  mark_coverage_incident_notified, acknowledge_coverage_incident,
}
use everdraw.Watcher.Node.{coverage_gap, Node, Config, Run, WatcherState}
use everdraw.Watcher.Invariant.{
  Recomputed, Marked, Marked-same, IsSafe, Keeps-call, Keeps-clock, Keeps-save, Keeps-variables,
}
use everdraw.Watcher.Sync.Safe.{Keeps-ensure_canonical}
use everdraw.Watcher.Verify.{Verification}
use everdraw.Watcher.Verify.Recomputed.{
  Free, Accepted, Keeps-alarm, Keeps-mismatch, Keeps-verify_independent_root, Keeps-verify_proposal,
}
use everdraw.Watcher.Round.{
  Current, record_recovery, recover, accept_finalized, check_finalized, verify_needed,
  verify_current, look_at_draw, look_at_current, reload, notify_incident, acknowledge_incident,
  handle_incident, handle_incidents,
}
use everdraw.Watcher.Round.Safe.{Keeps-handle_finalization}

module _ {W : Type 0} (n : Node W) (cfg : Config) (file : Option WatcherState) where
  abbrev Safe : Run W → Type 0
  Safe = IsSafe n cfg file Free

  recorded-Marked :
      (id : IncidentId) (i : Identity) (now : ℕ) (c : CacheState) (o : Option Incident)
      → Marked n cfg c
      → Marked n cfg (recorded id i now c o).0
  unfolding recorded
  recorded-Marked id i now c (some old) h = h
  recorded-Marked id i now c none h = Marked-same n cfg c _ refl refl refl refl refl h

  record-Marked :
      (i : Identity) (now : ℕ) (c : CacheState)
      → Marked n cfg c
      → Marked n cfg (record_coverage_incident n.fingerprint i now c).0
  unfolding record_coverage_incident
  record-Marked i now c h = recorded-Marked _ i now c _ h

  if-Marked :
      (b : Bool) (c c' : CacheState)
      → Marked n cfg c
      → Marked n cfg c'
      → Marked n cfg (if b then c else c')
  if-Marked true c c' h k = h
  if-Marked false c c' h k = k

  changed-Marked :
      (id : IncidentId) (p : Incident → Bool) (f : Incident → Incident) (o : Option Incident)
      (c : CacheState)
      → Marked n cfg c
      → Marked n cfg (changed_if id p f o c)
  unfolding changed_if
  changed-Marked id p f none c h = h
  changed-Marked id p f (some i) c h =
      if-Marked (p i) _ c (Marked-same n cfg c _ refl refl refl refl refl h) h

  integrity-Marked :
      (d : ℕ) (proposal finalization : Evidence) (c : CacheState)
      → Recomputed n cfg d proposal.root
      → Marked n cfg c
      → Marked n cfg (mark_historical_finalized_integrity d proposal finalization c)
  unfolding mark_historical_finalized_integrity
  integrity-Marked d proposal finalization c r h = record {
    sourced = record {
      vault = h.sourced.vault;
      manager = h.sourced.manager;
      gathered = h.sourced.gathered;
    };
    verified = h.verified;
    recovered =
        find_number-assign_all (λ j m. Recomputed n cfg j m.root) d _ c.historical_finalized_roots r
          h.recovered;
  }

  module _ (scope : Scope) (enforce : Bool) where
    Keeps-record_recovery :
        (d root : ℕ) (proposal finalization : Evidence)
        → Recomputed n cfg d proposal.root
        → Keeps Safe Any (record_recovery n cfg scope enforce d root proposal finalization)
    unfolding record_recovery
    Keeps-record_recovery d root proposal finalization r =
        Keeps-then Safe _ _ _ (Keeps-clock n cfg file Free) λ now.
          Keeps-then Safe _ _ _ (Keeps-save n cfg file Free _ (record-Marked _ now))
            λ _. Keeps-save n cfg file Free _ (λ c. integrity-Marked d proposal finalization c r)

    -- What is known where a root was verified anew.
    abbrev Historical : (d root : ℕ) → Option (Bool × Evidence) → Type 0
    Historical d root none = Unit {0}
    Historical d root (some r) = Accepted n cfg file d root r

    Keeps-recover :
        (current : Current) (v : Verification) (o : Option (Bool × Evidence))
        → Recomputed n cfg current.draw_id current.root
        → Historical current.draw_id current.root o
        → Keeps Safe Any (recover n cfg scope enforce current v o)
    Keeps-recover current v none r h = Keeps-give Safe _
    Keeps-recover current v (some (b, e)) r h =
        Keeps-record_recovery current.draw_id current.root e v.evidence (rw h.1 r)

    Keeps-accept_finalized :
        (current : Current) (handled : Bool) (o : Option (Bool × Evidence)) (v : Verification)
        → Recomputed n cfg current.draw_id current.root
        → Historical current.draw_id current.root o
        → Keeps Safe Any (accept_finalized n cfg scope enforce current handled o v)
    unfolding accept_finalized
    Keeps-accept_finalized current handled o v r h =
        Keeps-then Safe _ _ _ (Keeps-recover current v o r h)
          λ _. Keeps-when Safe _ _ (Keeps-handle_finalization n cfg file scope enforce _ _ v)

    same_root :
        (current : Current) (v : Verification)
        → Recomputed n cfg current.draw_id v.root
        → not (v.root == current.root) ≡ false
        → Recomputed n cfg current.draw_id current.root
    same_root current v r e = let same : v.root ≡ current.root = ground (arith, e) in rw (← same) r

    Keeps-check_finalized :
        (latest : ℕ) (current : Current) (handled : Bool) (o : Option (Bool × Evidence))
        → Historical current.draw_id current.root o
        → Keeps Safe Any (check_finalized n cfg scope enforce latest current handled o)
    unfolding check_finalized
    Keeps-check_finalized latest current handled o h =
        Keeps-bind Safe _ _ _ _
          (Keeps-verify_independent_root n cfg file current.draw_id current.root finalizations
            latest)
          λ v f.
            Keeps-if Safe Any (not (v.root == current.root)) _ _ (λ _. Keeps-mismatch n cfg file _)
              (λ e.
                Keeps-when Safe _ _
                  (Keeps-accept_finalized current handled o v (same_root current v f.0 e) h))

    Keeps-verify_needed :
        (latest : ℕ) (current : Current) (b : Bool)
        → Keeps Safe
            (Historical current.draw_id current.root)
            (verify_needed n cfg scope enforce latest current b)
    unfolding verify_needed
    Keeps-verify_needed latest current false s h = Post-give Safe _ none s h tt
    Keeps-verify_needed latest current true s h =
        Post-after Safe _ _ _ _
          (Keeps-verify_proposal n cfg file enforce current.draw_id current.root latest none _ s h)
          (λ r a s h. Post-give Safe _ (some r) s h a)

    Keeps-verify_current :
        (latest : ℕ) (current : Current)
        → Keeps Safe Any (verify_current n cfg scope enforce latest current)
    unfolding verify_current
    Keeps-verify_current latest current =
        Keeps-then Safe _ _ _ (Keeps-ensure_canonical n cfg file Free) λ _.
          Keeps-then Safe _ _ _ (Keeps-read Safe _) λ needed.
            Keeps-bind Safe _ _ _ _ (Keeps-verify_needed latest current needed) λ o h.
              Keeps-then Safe _ _ _ (Keeps-read Safe _)
                λ handled. Keeps-when Safe _ _ (Keeps-check_finalized latest current handled o h)

    Keeps-look_at_draw : (latest d : ℕ) → Keeps Safe Any (look_at_draw n cfg scope enforce latest d)
    unfolding look_at_draw
    Keeps-look_at_draw latest d =
        Keeps-then Safe _ _ _ (Keeps-call n cfg file Free _)
          λ draw. Keeps-then Safe _ _ _ (Keeps-verify_current latest _) λ _. Keeps-give Safe _

    pub Keeps-look_at_current :
        (latest : ℕ) → Keeps Safe Any (look_at_current n cfg scope enforce latest)
    unfolding look_at_current
    Keeps-look_at_current latest = Keeps-then Safe _ _ _ (Keeps-call n cfg file Free _) λ d.
        Keeps-if Safe Any (d == 0) _ _ (λ _. Keeps-give Safe _) (λ _. Keeps-look_at_draw latest d)

    Keeps-reload : (i : Incident) → Keeps Safe Any (reload n cfg scope enforce i)
    unfolding reload
    Keeps-reload i = Keeps-then Safe _ _ _ (Keeps-read Safe _) (λ o. Keeps-found Safe _ _)

    Keeps-notify_incident : (i : Incident) → Keeps Safe Any (notify_incident n cfg scope enforce i)
    unfolding notify_incident mark_coverage_incident_notified
    Keeps-notify_incident i =
        Keeps-then Safe _ _ _ (Keeps-alarm n cfg file (coverage_gap i.id) refl) λ _.
          Keeps-then Safe _ _ _ (Keeps-clock n cfg file Free) λ now.
            Keeps-then Safe _ _ _
              (Keeps-save n cfg file Free _ (λ c h. changed-Marked i.id _ _ _ c h))
              λ _. Keeps-reload i

    Keeps-acknowledge_incident :
        (i : Incident) → Keeps Safe Any (acknowledge_incident n cfg scope enforce i)
    unfolding acknowledge_incident acknowledge_coverage_incident
    Keeps-acknowledge_incident i = Keeps-then Safe _ _ _ (Keeps-clock n cfg file Free) λ now.
        Keeps-then Safe _ _ _ (Keeps-save n cfg file Free _ (λ c h. changed-Marked i.id _ _ _ c h))
          λ _. Keeps-reload i

    Keeps-handle_incident : (i : Incident) → Keeps Safe Any (handle_incident n cfg scope enforce i)
    unfolding handle_incident
    Keeps-handle_incident i =
        Keeps-then Safe _ _ _
          (Keeps-if Safe Any (is_some i.notified_at) _ _ (λ _. Keeps-give Safe _)
            (λ _. Keeps-notify_incident i))
          λ notified.
            Keeps-then Safe _ _ _
              (Keeps-if Safe Any (has (same_id notified.id) cfg.acknowledged) _ _
                (λ _. Keeps-acknowledge_incident notified) (λ _. Keeps-give Safe _))
              λ incident. Keeps-when Safe _ _ (
                Keeps-variables n cfg file Free _ (λ s. refl) (λ s. refl) (λ s. refl)
                  (λ s. omega arith) (λ s. refl) (λ s. refl))

    pub Keeps-handle_incidents : Keeps Safe Any (handle_incidents n cfg scope enforce)
    unfolding handle_incidents
    Keeps-handle_incidents =
        Keeps-then Safe _ _ _ (Keeps-read Safe _) (Keeps-each Safe _ Keeps-handle_incident)
