-- ===== src/Watcher/Cache/Incidents/Open.antt =====
-- No operation on the incidents leaves a draw with two open ones.
use everdraw.Base.{
  ℕ, ◌+◌, ◌≤◌, ◌≡◌, refl, Bool, not, ◌&&◌, Option, none, some, List, [], ◌∷◌, arith, keep, ◌==◌,
  if◌then◌else◌, Bool-cases, inl, inr, Table, find, assign, map_values,
}
use everdraw.Watcher.Cache.{IncidentId, Incident, CacheState}
use everdraw.Watcher.Cache.Incidents.{
  Identity, is_some, same_id, supersede, new_incident, recorded, changed_if, values,
}

-- How many incidents of a list are the draw's.
abbrev pub of_draw : ℕ → List Incident → ℕ
of_draw d [] = 0
of_draw d (i ∷ is) = (if i.draw_id == d then 1 else 0) + of_draw d is

abbrev is_open : ℕ → Incident → Bool
is_open d i = not (is_some i.superseded_at) && (i.draw_id == d)

abbrev one : Bool → ℕ
one b = if b then 1 else 0

abbrev one_of : ℕ → Option Incident → ℕ
one_of d none = 0
one_of d (some i) = one (is_open d i)

-- The open ones of a table.
abbrev open_count : ℕ → Table IncidentId Incident → ℕ
open_count d [] = 0
open_count d ((k, i) ∷ m) = one (is_open d i) + open_count d m

pub active-open :
    (d : ℕ) (m : Table IncidentId Incident)
    → of_draw d (keep (λ i. not (is_some i.superseded_at)) (values m)) ≡ open_count d m
unfolding values
active-open d [] = refl
active-open d ((k, i) ∷ m) = elim (Bool-cases (not (is_some i.superseded_at))) [
  | inl active ↦ rw active (ground (arith, active-open d m))
  | inr old ↦ rw old (ground (arith, active-open d m))
]

-- A new entry, or one in the place of another.
open-assign :
    (d : ℕ) (id : IncidentId) (v : Incident) (m : Table IncidentId Incident)
    → open_count d (assign same_id id v m) + one_of d (find same_id id m)
      ≡ open_count d m + one (is_open d v)
unfolding assign find
open-assign d id v [] = omega arith
open-assign d id v ((k, i) ∷ m) = elim (Bool-cases (same_id k id)) [
  | inl same ↦ rw same (omega arith)
  | inr apart ↦ rw apart (omega (arith, open-assign d id v m))
]

find-supersede :
    (e now : ℕ) (id : IncidentId) (m : Table IncidentId Incident)
    → find same_id id m ≡ none
    → find same_id id (map_values (supersede e now) m) ≡ none
unfolding find map_values
find-supersede e now id [] h = refl
find-supersede e now id ((k, i) ∷ m) h = elim (Bool-cases (same_id k id)) [
  | inl same ↦ absurd (cc (rw same at h))
  | inr apart ↦ rw apart (find-supersede e now id m (rw apart at h))
]

-- The draw's own are superseded, the others stay.
superseded_one :
    (d e now : ℕ) (i : Incident)
    → one (is_open d (supersede e now i)) ≡ (if e == d then 0 else one (is_open d i))
unfolding supersede
superseded_one d e now i = ground arith

open-supersede :
    (d e now : ℕ) (m : Table IncidentId Incident)
    → open_count d (map_values (supersede e now) m) ≡ (if e == d then 0 else open_count d m)
unfolding map_values
open-supersede d e now [] = ground arith
open-supersede d e now ((k, i) ∷ m) =
    ground (arith, superseded_one d e now i, open-supersede d e now m)

-- At most one open incident for each draw.
abbrev pub OneOpen : CacheState → Type 0
OneOpen c = (d : ℕ) → open_count d c.coverage_incidents ≤ 1

pub recorded-OneOpen :
    (id : IncidentId) (i : Identity) (now : ℕ) (c : CacheState) (o : Option Incident)
    → find same_id id c.coverage_incidents ≡ o
    → OneOpen c
    → OneOpen (recorded id i now c o).0
unfolding recorded new_incident
recorded-OneOpen id i now c (some old) e h d = h d
recorded-OneOpen id i now c none e h d =
    let m = map_values (supersede i.draw_id now) c.coverage_incidents in
    let added = open-assign d id (new_incident id i.draw_id i.root now) m in
    let absent = find-supersede i.draw_id now id c.coverage_incidents e in
    ground (arith, h d, rw absent at added, open-supersede d i.draw_id now c.coverage_incidents)

pub changed-OneOpen :
    (id : IncidentId) (p : Incident → Bool) (f : Incident → Incident) (c : CacheState)
    (o : Option Incident)
    → ((d : ℕ) (i : Incident) → is_open d (f i) ≡ is_open d i)
    → find same_id id c.coverage_incidents ≡ o
    → OneOpen c
    → OneOpen (changed_if id p f o c)
unfolding changed_if
changed-OneOpen id p f c none same e h d = h d
changed-OneOpen id p f c (some i) same e h d = elim (Bool-cases (p i)) [
  | inl may ↦
      let put = open-assign d id (f i) c.coverage_incidents in
      rw may (ground (arith, h d, rw e at put, same d i))
  | inr kept ↦ rw kept (h d)
]
