-- ===== src/Watcher/Round/Health.antt =====
-- What a run that ends well, and every run, guarantees.
use everdraw.Base.{
  ℕ, ◌≡◌, refl, ◌⊎◌, Bool, false, Option, none, some, arith, ◌==◌, if◌then◌else◌, Bool-cases, inl,
  inr, find_number,
}
use everdraw.Logs.Cache.{Scope}
use everdraw.Watcher.Cache.{
  Evidence, Recovery, RootEvent, SeedEvidence, CacheState, evidence_matches, root_of, verified_root,
  historical_root, historical_finalized_root, or_else, integrity_verified_root,
  root_needs_independent_verification,
}
use everdraw.Watcher.Node.{Node, Config}
use everdraw.Watcher.Invariant.{Recomputed, Marked}
use everdraw.Watcher.Round.{Current, known_root, needs_verification}

module _ {W : Type 0} (n : Node W) (cfg : Config) where
  -- A root that the cache knows was recomputed.
  known_marker :
      (d root : ℕ) (m : Option Evidence) (e : Option RootEvent) (s : Option SeedEvidence)
      → ((x : Evidence) → m ≡ some x → Recomputed n cfg d x.root)
      → (if evidence_matches m e s then root_of m else none) ≡ some root
      → Recomputed n cfg d root
  unfolding evidence_matches
  known_marker d root none e s h k = absurd (cc k)
  known_marker d root (some m) e s h k =
      let same : m.root ≡ root = ground (arith, k) in rw (← same) (h m refl)

  verified_root-Recomputed :
      (d root : ℕ) (c : CacheState)
      → Marked n cfg c
      → verified_root d c ≡ some root
      → Recomputed n cfg d root
  unfolding verified_root
  verified_root-Recomputed d root c h =
      known_marker d root (find_number d c.verified_roots) _ _ (h.verified d)

  historical_marker :
      (d root : ℕ) (m : Option Recovery) (e f : Option RootEvent) (s : Option SeedEvidence)
      → ((x : Recovery) → m ≡ some x → Recomputed n cfg d x.root)
      → historical_root m e f s ≡ some root
      → Recomputed n cfg d root
  historical_marker d root none e f s h k = absurd (cc k)
  historical_marker d root (some m) e f s h k =
      let same : m.root ≡ root = ground (arith, k) in rw (← same) (h m refl)

  historical-Recomputed :
      (d root : ℕ) (c : CacheState)
      → Marked n cfg c
      → historical_finalized_root d c ≡ some root
      → Recomputed n cfg d root
  unfolding historical_finalized_root
  historical-Recomputed d root c h =
      historical_marker d root (find_number d c.historical_finalized_roots) _ _ _ (h.recovered d)

  either-Recomputed :
      (d root : ℕ) (a b : Option ℕ)
      → (a ≡ some root → Recomputed n cfg d root)
      → (b ≡ some root → Recomputed n cfg d root)
      → or_else a b ≡ some root
      → Recomputed n cfg d root
  either-Recomputed d root none b h k e = k e
  either-Recomputed d root (some x) b h k e = h e

  known-Recomputed :
      (status d root : ℕ) (c : CacheState)
      → Marked n cfg c
      → known_root status d c ≡ some root
      → Recomputed n cfg d root
  unfolding known_root integrity_verified_root
  known-Recomputed status d root c h e = elim (Bool-cases (status == 4)) [
    | inl final ↦
        either-Recomputed d root _ _ (verified_root-Recomputed d root c h)
          (historical-Recomputed d root c h) (rw final at e)
    | inr other ↦ verified_root-Recomputed d root c h (rw other at e)
  ]

  -- A proposed or finalized root of the current draw.
  abbrev pub IsProven : Current → Type 0
  IsProven current =
      (current.status ≡ 3) ⊎ (current.status ≡ 4) → Recomputed n cfg current.draw_id current.root

  abbrev pub Proven : Option Current → Type 0
  Proven none = Unit {0}
  Proven (some current) = IsProven current

  not_needed :
      (status root : ℕ) (known : Option ℕ)
      → (status ≡ 3) ⊎ (status ≡ 4)
      → root_needs_independent_verification status root known ≡ false
      → known ≡ some root
  unfolding root_needs_independent_verification
  not_needed status root none st e = absurd (ground (arith, st, e))
  not_needed status root (some k) st e = ground (arith, st, e)

  module _ (scope : Scope) (enforce : Bool) where
    pub needs-IsProven :
        (current : Current) (c : CacheState)
        → Marked n cfg c
        → needs_verification n cfg scope enforce current c ≡ false
        → IsProven current
    unfolding needs_verification
    needs-IsProven current c h e st =
        known-Recomputed current.status current.draw_id current.root c h
          (not_needed current.status current.root _ st e)
