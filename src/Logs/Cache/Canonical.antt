-- ===== src/Logs/Cache/Canonical.antt =====
-- What a cache holds once its scope is ensured, and that a reorganised chain empties it.
use everdraw.Base.{
  ℕ, ◌+◌, ◌-◌, ◌≤◌, ◌<◌, ◌≡◌, refl, Bool, true, false, ◌||◌, ◌⊎◌, [], arith, ltb, ◌==◌, Bool-cases,
  inl, inr, Result, ok, err, ◌>>=◌, Ensures, Ensures-elim,
}
use everdraw.Logs.Cache.{
  Checkpoint, Cache, Scope, unscanned, fresh, scan_from, ensure_scope, is_canonical, and_canonical,
  rebuilt, ensure_canonical,
}

-- The cache belongs to the scope, and its scans reach its first block at least.
pub record InScope (s : Scope) (c : Cache) : Type 0 where
  pub chain : c.chain_id ≡ s.chain_id
  pub manager : c.draw_manager_address ≡ s.draw_manager_address
  pub vault : c.vault_address ≡ s.vault_address
  pub from : c.from_block ≤ s.from_block
  pub participants : s.from_block ≤ c.participants.last_scanned_block + 1
  pub seeds : s.from_block ≤ c.seeds.last_scanned_block + 1

scan_from-le :
    {A : Type 0} (from : ℕ) (nothing : A) (c : Checkpoint A)
    → from ≤ (scan_from (from - 1) nothing c).last_scanned_block + 1
unfolding scan_from unscanned
scan_from-le from nothing c = ground arith

ensure_scope-InScope : (manager : ℕ) (s : Scope) (c : Cache) → InScope s (ensure_scope manager s c)
unfolding ensure_scope
ensure_scope-InScope manager s c = record {
  chain = refl;
  manager = refl;
  vault = refl;
  from = ground arith;
  participants = scan_from-le s.from_block [] _;
  seeds = scan_from-le s.from_block [] _;
}

fresh-empty :
    (manager : ℕ) (s : Scope)
    → let c = ensure_scope manager s (fresh manager) in
      (c.participants.found ≡ [])
      × (c.seeds.found ≡ [])
      × (c.participants.last_scanned_block_hash ≡ 0)
      × (c.seeds.last_scanned_block_hash ≡ 0)
unfolding ensure_scope fresh scan_from unscanned
fresh-empty manager s = ground arith

module _ {E : Type 0} (get_hash : ℕ → Result E ℕ) where
  -- The checkpoint's block is the chain's, unless it has no hash or lies before the scope.
  abbrev pub Matches : {A : Type 0} → (from_block : ℕ) → Checkpoint A → Type 0
  Matches from c =
      (c.last_scanned_block_hash ≡ 0)
      ⊎ ((c.last_scanned_block < from)
          ⊎ (get_hash c.last_scanned_block ≡ ok c.last_scanned_block_hash))

  same_hash : (r : Result E ℕ) (h : ℕ) → (r >>= λ hash. ok (hash == h)) ≡ ok true → r ≡ ok h
  same_hash (ok n) h e = ground (arith, e)
  same_hash (err x) h e = cc

  is_canonical-Matches :
      {A : Type 0} (from : ℕ) (c : Checkpoint A)
      → is_canonical get_hash from c ≡ ok true
      → Matches from c
  unfolding is_canonical
  is_canonical-Matches from c e =
      elim (Bool-cases ((c.last_scanned_block_hash == 0) || ltb c.last_scanned_block from)) [
        | inl skipped ↦ elim (Bool-cases (c.last_scanned_block_hash == 0)) [
          | inl no_hash ↦ inl (ground (arith, no_hash))
          | inr some ↦ inr (inl (ground (arith, skipped, some)))
        ]
        | inr read ↦ inr (
            inr
              (same_hash (get_hash c.last_scanned_block) c.last_scanned_block_hash (rw read at e)))
      ]

  -- What the cache is after the call.
  pub record Canonical (s : Scope) (c : Cache) (same : Bool) : Type 0 where
    pub in_scope : InScope s c
    pub participants : Matches s.from_block c.participants
    pub seeds : Matches s.from_block c.seeds
    pub emptied : same ≡ false → (c.participants.found ≡ []) × (c.seeds.found ≡ [])

  rebuilt-Canonical :
      (manager : ℕ) (s : Scope) → Canonical s (ensure_scope manager s (fresh manager)) false
  rebuilt-Canonical manager s =
      let (people, seeds, no_hash, no_seed_hash) = fresh-empty manager s in
      record {
        in_scope = ensure_scope-InScope manager s (fresh manager);
        participants = inl no_hash;
        seeds = inl no_seed_hash;
        emptied = λ _. (people, seeds);
      }

  both-Canonical :
      (manager : ℕ) (s : Scope) (c : Cache) (first second : Result E Bool)
      → InScope s c
      → (first ≡ ok true → Matches s.from_block c.participants)
      → (second ≡ ok true → Matches s.from_block c.seeds)
      → Ensures
          (λ r. Canonical s r.0 r.1)
          (and_canonical get_hash first second >>= λ same. ok (rebuilt get_hash manager s c same))
  both-Canonical manager s c (err e) second scope h k = tt
  both-Canonical manager s c (ok false) second scope h k = rebuilt-Canonical manager s
  both-Canonical manager s c (ok true) (err e) scope h k = tt
  both-Canonical manager s c (ok true) (ok false) scope h k = rebuilt-Canonical manager s
  both-Canonical manager s c (ok true) (ok true) scope h k = record {
    in_scope = scope;
    participants = h refl;
    seeds = k refl;
    emptied = λ e. absurd (cc e);
  }

  -- Whenever `ensureCanonical` returns, the cache belongs to the scope, its scans reach the scope's
  -- first block at least, and each of them ends with a block that the chain has now, or with none. If
  -- it returns false the chain has changed under the cache, and nothing that was found is left in it.
  pub ensure_canonical_lem :
      (manager : ℕ) (s : Scope) (c c' : Cache) (same : Bool)
      → ensure_canonical get_hash manager s c ≡ ok (c', same)
      → Canonical s c' same
  unfolding ensure_canonical
  ensure_canonical_lem manager s c c' same run =
      let scoped = ensure_scope manager s c in
      Ensures-elim (λ r. Canonical s r.0 r.1) (ensure_canonical get_hash manager s c) (c', same)
        (both-Canonical manager s scoped (is_canonical get_hash s.from_block scoped.participants)
          (is_canonical get_hash s.from_block scoped.seeds) (ensure_scope-InScope manager s c)
          (is_canonical-Matches s.from_block scoped.participants)
          (is_canonical-Matches s.from_block scoped.seeds))
        run
