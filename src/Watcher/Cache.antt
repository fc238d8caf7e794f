-- ===== src/Watcher/Cache.antt =====
-- scripts/draw/independent-watcher-cache.mjs, `IndependentWatcherCache`: its state and what each
-- method makes of it. A draw's key is its number. Times are arguments. The version of the file, and a
-- file that is not this program's, are left out of `read_state`.
pub mod Incidents
use everdraw.Base.{
  ℕ, ◌-◌, ◌+◌, Bool, true, false, not, ◌&&◌, ◌||◌, Option, none, some, List, [], ◌∷◌, map, keep,
  ◌==◌, if◌then◌else◌, Table, find, assign, map_values, find_number, assign_number,
}
use everdraw.Logs.Cache.{Scope}

pub record SeedEvidence : Type 0 where
  pub seed : ℕ
  pub block_number : ℕ
  pub block_hash : ℕ

-- An event RootProposed; RootFinalized has no deadline, which is 0 then.
pub record RootEvent : Type 0 where
  pub root : ℕ
  pub challenge_ends_at : ℕ
  pub block_number : ℕ
  pub block_hash : ℕ

pub record Evidence : Type 0 where
  pub root : ℕ
  pub event_block_number : ℕ
  pub event_block_hash : ℕ
  pub seed_block_number : ℕ
  pub seed_block_hash : ℕ
  pub seed : ℕ

pub record Recovery : Type 0 where
  pub root : ℕ
  pub proposal_evidence : Evidence
  pub finalization_evidence : Evidence

-- `coverageIncidentId`: the draw and the fingerprint, after the colon.
abbrev pub IncidentId : Type 0
IncidentId = ℕ × ℕ

pub record Incident : Type 0 where
  pub id : IncidentId
  pub draw_id : ℕ
  pub root : ℕ
  pub detected_at : ℕ
  pub notified_at : Option ℕ
  pub acknowledged_at : Option ℕ
  pub superseded_at : Option ℕ

pub record CacheState : Type 0 where
  pub scope : Scope
  pub last_scanned_block : ℕ
  pub last_scanned_block_hash : ℕ
  pub participant_accounts : List ℕ
  pub seed_blocks : Table ℕ ℕ
  pub seed_evidence : Table ℕ SeedEvidence
  pub proposals : Table ℕ RootEvent
  pub finalizations : Table ℕ RootEvent
  pub verified_roots : Table ℕ Evidence
  pub historical_finalized_roots : Table ℕ Recovery
  pub coverage_incidents : Table IncidentId Incident
  pub published_finalizations : Table ℕ Evidence

-- `fromBlock - 1`: the block of a deployment is not 0.
unfoldable pub empty_state : Scope → CacheState
empty_state scope = record {
  scope = scope;
  last_scanned_block = scope.from_block - 1;
  last_scanned_block_hash = 0;
  participant_accounts = [];
  seed_blocks = [];
  seed_evidence = [];
  proposals = [];
  finalizations = [];
  verified_roots = [];
  historical_finalized_roots = [];
  coverage_incidents = [];
  published_finalizations = [];
}

abbrev pub same_scope : Scope → Scope → Bool
same_scope s t =
    (s.chain_id == t.chain_id)
    && ((s.draw_manager_address == t.draw_manager_address)
        && ((s.vault_address == t.vault_address) && (s.from_block == t.from_block)))

-- `read`, of the file that the last process left, if there is one.
unfoldable pub read_state : Scope → Option CacheState → CacheState
read_state scope none = empty_state scope
read_state scope (some c) = if same_scope c.scope scope then c else empty_state scope

abbrev pub matching : Evidence → RootEvent → SeedEvidence → Bool
matching m e s =
    (m.root == e.root)
    && ((m.event_block_number == e.block_number)
        && ((m.event_block_hash == e.block_hash)
            && ((m.seed_block_number == s.block_number)
                && ((m.seed_block_hash == s.block_hash) && (m.seed == s.seed)))))

unfoldable pub evidence_matches : Option Evidence → Option RootEvent → Option SeedEvidence → Bool
evidence_matches (some m) (some e) (some s) = matching m e s
evidence_matches (some m) (some e) none = false
evidence_matches (some m) none s = false
evidence_matches none e s = false

abbrev pub is_status : ℕ → ℕ → ℕ → Bool
is_status a b status = (status == a) || (status == b)

abbrev pub is_root : ℕ → Option ℕ → Bool
is_root root none = false
is_root root (some verified) = root == verified

-- A root is not the empty text, which stands for one that was never verified.
unfoldable pub root_needs_independent_verification : (status root : ℕ) → Option ℕ → Bool
root_needs_independent_verification status root verified_root =
    is_status 3 4 status && not (is_root root verified_root)

unfoldable pub mark_verified : ℕ → Evidence → CacheState → CacheState
mark_verified draw_id evidence c = record c {
  verified_roots = assign_number draw_id evidence c.verified_roots;
}

abbrev pub root_of : Option Evidence → Option ℕ
root_of none = none
root_of (some m) = some m.root

unfoldable pub verified_root : ℕ → CacheState → Option ℕ
verified_root draw_id c =
    let marker = find_number draw_id c.verified_roots in
    if evidence_matches marker (find_number draw_id c.proposals)
      (find_number draw_id c.seed_evidence)
    then root_of marker
    else none

unfoldable pub mark_historical_finalized_integrity :
    ℕ → (proposal_evidence finalization_evidence : Evidence) → CacheState → CacheState
mark_historical_finalized_integrity draw_id proposal_evidence finalization_evidence c = record c {
  historical_finalized_roots =
      assign_number draw_id
        (record {
          root = proposal_evidence.root;
          proposal_evidence = proposal_evidence;
          finalization_evidence = finalization_evidence;
        })
        c.historical_finalized_roots;
}

-- What becomes of a marker, with the events and the seed of its draw.
abbrev pub historical_root :
    Option Recovery → (proposal finalization : Option RootEvent) → Option SeedEvidence → Option ℕ
historical_root none proposal finalization seed = none
historical_root (some m) proposal finalization seed =
    if not (m.root == m.proposal_evidence.root) || not (m.root == m.finalization_evidence.root)
    then none
    else if evidence_matches (some m.proposal_evidence) proposal seed
        && evidence_matches (some m.finalization_evidence) finalization seed
    then some m.root
    else none

unfoldable pub historical_finalized_root : ℕ → CacheState → Option ℕ
historical_finalized_root draw_id c =
    historical_root (find_number draw_id c.historical_finalized_roots)
      (find_number draw_id c.proposals) (find_number draw_id c.finalizations)
      (find_number draw_id c.seed_evidence)

abbrev pub or_else : Option ℕ → Option ℕ → Option ℕ
or_else none second = second
or_else (some root) second = some root

unfoldable pub integrity_verified_root : ℕ → CacheState → Option ℕ
integrity_verified_root draw_id c =
    or_else (verified_root draw_id c) (historical_finalized_root draw_id c)

unfoldable pub mark_finalization_handled : ℕ → Evidence → CacheState → CacheState
mark_finalization_handled draw_id evidence c = record c {
  published_finalizations = assign_number draw_id evidence c.published_finalizations;
}

abbrev pub marks : Option Evidence → ℕ → Bool
marks none root = false
marks (some m) root = m.root == root

unfoldable pub finalization_handled : ℕ → ℕ → CacheState → Bool
finalization_handled draw_id root c =
    let marker = find_number draw_id c.published_finalizations in
    marks marker root
    && evidence_matches marker (find_number draw_id c.finalizations)
        (find_number draw_id c.seed_evidence)
