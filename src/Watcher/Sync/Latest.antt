-- ===== src/Watcher/Sync/Latest.antt =====
-- What the logs of a chain say of a draw, the last one that speaks of it having the word; and that
-- the loop of `onBatch` records just that.
use everdraw.Base.{
  ℕ, ◌≡◌, refl, ◌∙◌, ap, Bool, true, false, Option, none, some, List, [], ◌∷◌, ◌++◌, ◌==◌,
  if◌then◌else◌, Bool-cases, inl, inr, Table, find_number, assign_number, find_number-assign,
}
use everdraw.Watcher.Cache.{CacheState, RootEvent, SeedEvidence}
use everdraw.Watcher.Events.{
  WatchEvent, WatchLog, transfer, seed_received, root_proposed, root_finalized, privileged, other,
}
use everdraw.Watcher.Sync.{record_event, record_logs}

abbrev pub pick : {V : Type 0} → Option V → Option V → Option V
pick none before = before
pick (some v) before = some v

-- `says l` is what a log says, if it speaks of the draw.
abbrev pub latest : {V : Type 0} → (WatchLog → Option V) → List WatchLog → Option V → Option V
latest says [] before = before
latest says (l ∷ logs) before = latest says logs (pick (says l) before)

pub latest-append :
    {V : Type 0} (says : WatchLog → Option V) (xs ys : List WatchLog) (o : Option V)
    → latest says (xs ++ ys) o ≡ latest says ys (latest says xs o)
latest-append says [] ys o = refl
latest-append says (x ∷ xs) ys o = latest-append says xs ys (pick (says x) o)

-- An event of a log, for a draw.
abbrev pub Reading : Type 0 → Type 0
Reading V = (block hash draw_id : ℕ) → WatchEvent → Option V

abbrev pub proposal_in : Reading RootEvent
proposal_in block hash d (root_proposed e root ends) =
    if e == d
    then some
        (record { root = root; challenge_ends_at = ends; block_number = block; block_hash = hash })
    else none
proposal_in block hash d (root_finalized e root) = none
proposal_in block hash d (seed_received e seed) = none
proposal_in block hash d (transfer from to) = none
proposal_in block hash d (privileged name) = none
proposal_in block hash d other = none

abbrev pub finalization_in : Reading RootEvent
finalization_in block hash d (root_finalized e root) =
    if e == d
    then some
        (record { root = root; challenge_ends_at = 0; block_number = block; block_hash = hash })
    else none
finalization_in block hash d (root_proposed e root ends) = none
finalization_in block hash d (seed_received e seed) = none
finalization_in block hash d (transfer from to) = none
finalization_in block hash d (privileged name) = none
finalization_in block hash d other = none

abbrev pub seed_in : Reading SeedEvidence
seed_in block hash d (seed_received e seed) =
    if e == d then some (record { seed = seed; block_number = block; block_hash = hash }) else none
seed_in block hash d (root_proposed e root ends) = none
seed_in block hash d (root_finalized e root) = none
seed_in block hash d (transfer from to) = none
seed_in block hash d (privileged name) = none
seed_in block hash d other = none

-- A log of the draw manager's.
abbrev pub says : {V : Type 0} → Reading V → (manager draw_id : ℕ) → WatchLog → Option V
says reading manager d l =
    if l.address == manager then reading l.block_number l.block_hash d l.event else none

assigned :
    {V : Type 0} (e d : ℕ) (v : V) (m : Table ℕ V)
    → find_number d (assign_number e v m) ≡ pick (if e == d then some v else none) (find_number d m)
assigned e d v m = elim (Bool-cases (e == d)) [
  | inl same ↦ find_number-assign e d v m ∙ (rw same)
  | inr apart ↦ find_number-assign e d v m ∙ (rw apart)
]

pub proposals-record :
    (block hash d : ℕ) (e : WatchEvent) (c : CacheState)
    → find_number d (record_event block hash e c).proposals
      ≡ pick (proposal_in block hash d e) (find_number d c.proposals)
unfolding record_event
proposals-record block hash d (root_proposed e root ends) c = assigned e d _ c.proposals
proposals-record block hash d (root_finalized e root) c = refl
proposals-record block hash d (seed_received e seed) c = refl
proposals-record block hash d (transfer from to) c = refl
proposals-record block hash d (privileged name) c = refl
proposals-record block hash d other c = refl

pub finalizations-record :
    (block hash d : ℕ) (e : WatchEvent) (c : CacheState)
    → find_number d (record_event block hash e c).finalizations
      ≡ pick (finalization_in block hash d e) (find_number d c.finalizations)
unfolding record_event
finalizations-record block hash d (root_finalized e root) c = assigned e d _ c.finalizations
finalizations-record block hash d (root_proposed e root ends) c = refl
finalizations-record block hash d (seed_received e seed) c = refl
finalizations-record block hash d (transfer from to) c = refl
finalizations-record block hash d (privileged name) c = refl
finalizations-record block hash d other c = refl

pub seeds-record :
    (block hash d : ℕ) (e : WatchEvent) (c : CacheState)
    → find_number d (record_event block hash e c).seed_evidence
      ≡ pick (seed_in block hash d e) (find_number d c.seed_evidence)
unfolding record_event
seeds-record block hash d (seed_received e seed) c = assigned e d _ c.seed_evidence
seeds-record block hash d (root_proposed e root ends) c = refl
seeds-record block hash d (root_finalized e root) c = refl
seeds-record block hash d (transfer from to) c = refl
seeds-record block hash d (privileged name) c = refl
seeds-record block hash d other c = refl

module _ {V : Type 0} (table : CacheState → Table ℕ V) (reading : Reading V)
    (records : (block hash d : ℕ) (e : WatchEvent) (c : CacheState)
      → find_number d (table (record_event block hash e c))
        ≡ pick (reading block hash d e) (find_number d (table c))) where
  one_log :
      (b : Bool) (block hash d : ℕ) (e : WatchEvent) (c : CacheState)
      → find_number d (table (if b then record_event block hash e c else c))
        ≡ pick (if b then reading block hash d e else none) (find_number d (table c))
  one_log true block hash d e c = records block hash d e c
  one_log false block hash d e c = refl

  pub table-record_logs :
      (manager d : ℕ) (logs : List WatchLog) (c : CacheState)
      → find_number d (table (record_logs manager logs c))
        ≡ latest (says reading manager d) logs (find_number d (table c))
  unfolding record_logs
  table-record_logs manager d [] c = refl
  table-record_logs manager d (l ∷ logs) c =
      table-record_logs manager d logs _
      ∙ ap (latest (says reading manager d) logs)
          (one_log (l.address == manager) l.block_number l.block_hash d l.event c)
