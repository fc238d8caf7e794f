-- ===== src/Watcher/Cache/Incidents.antt =====
-- The coverage incidents of `IndependentWatcherCache`: a finalized root whose proposal was not
-- watched while it could be vetoed. `fingerprint` is the SHA-256 of the incident's identity.
pub mod Open
use everdraw.Base.{
  ℕ, Bool, true, false, not, ◌&&◌, ◌||◌, Option, none, some, List, [], ◌∷◌, map, keep, ◌==◌,
  if◌then◌else◌, Table, find, assign, map_values,
}
use everdraw.Watcher.Cache.{Evidence, IncidentId, Incident, CacheState}

abbrev pub is_some : {A : Type 0} → Option A → Bool
is_some none = false
is_some (some a) = true

-- What the identity of an incident holds, besides the deployment.
pub record Identity : Type 0 where
  pub draw_id : ℕ
  pub root : ℕ
  pub proposal_evidence : Evidence
  pub finalization_evidence : Evidence

abbrev pub same_id : IncidentId → IncidentId → Bool
same_id (a, b) (c, d) = (a == c) && (b == d)

unfoldable pub coverage_incident : IncidentId → CacheState → Option Incident
coverage_incident id c = find same_id id c.coverage_incidents

unfoldable pub supersede : (draw_id now : ℕ) → Incident → Incident
supersede draw_id now i =
    if (i.draw_id == draw_id) && not (is_some i.superseded_at)
    then record i { superseded_at = some now }
    else i

unfoldable pub new_incident : IncidentId → (draw_id root now : ℕ) → Incident
new_incident id draw_id root now = record {
  id = id;
  draw_id = draw_id;
  root = root;
  detected_at = now;
  notified_at = none;
  acknowledged_at = none;
  superseded_at = none;
}

-- An incident that is there already is not recorded again; a new one takes the place of its draw's.
unfoldable pub recorded :
    IncidentId → Identity → (now : ℕ) → CacheState → Option Incident → CacheState × Bool
recorded id i now c (some old) = (c, false)
recorded id i now c none = (
  record c {
    coverage_incidents =
        assign same_id id (new_incident id i.draw_id i.root now)
          (map_values (supersede i.draw_id now) c.coverage_incidents);
  },
  true,
)

module _ (fingerprint : Identity → ℕ) where
  abbrev pub coverage_incident_id : Identity → IncidentId
  coverage_incident_id i = (i.draw_id, fingerprint i)

  -- With what it returns: whether the incident is a new one.
  unfoldable pub record_coverage_incident : Identity → (now : ℕ) → CacheState → CacheState × Bool
  record_coverage_incident i now c =
      let id = coverage_incident_id i in recorded id i now c (coverage_incident id c)

-- Written back under its key, if there is one that passes the test.
unfoldable pub changed_if :
    IncidentId
    → (Incident → Bool)
    → (Incident → Incident)
    → Option Incident
    → CacheState
    → CacheState
changed_if id p f none c = c
changed_if id p f (some i) c =
    if p i
    then record c { coverage_incidents = assign same_id id (f i) c.coverage_incidents }
    else c

unfoldable pub mark_coverage_incident_notified : IncidentId → (now : ℕ) → CacheState → CacheState
mark_coverage_incident_notified id now c =
    changed_if id (λ i. not (is_some i.superseded_at) && not (is_some i.notified_at))
      (λ i. record i { notified_at = some now }) (coverage_incident id c) c

unfoldable pub acknowledge_coverage_incident : IncidentId → (now : ℕ) → CacheState → CacheState
acknowledge_coverage_incident id now c =
    changed_if id (λ i. not (is_some i.superseded_at) && not (is_some i.acknowledged_at))
      (λ i. record i { acknowledged_at = some now }) (coverage_incident id c) c

unfoldable pub values : {K V : Type 0} → Table K V → List V
values [] = []
values ((k, v) ∷ m) = v ∷ values m

unfoldable pub active_coverage_incidents : CacheState → List Incident
active_coverage_incidents c =
    keep (λ i. not (is_some i.superseded_at)) (values c.coverage_incidents)

unfoldable pub unresolved_coverage_incidents : CacheState → List Incident
unresolved_coverage_incidents c =
    keep (λ i. not (is_some i.acknowledged_at)) (active_coverage_incidents c)
