-- ===== src/Logs/Cache.antt =====
-- scripts/draw/write-watch-inputs.mjs, `DrawInputEventCache`: what it holds for which contracts, and
-- when it starts afresh. Addresses and hashes are numbers, 0 is the empty text. The cache's version,
-- and a state that was edited to hold no safe integers, are not modelled; nor are `updatedAt` and the
-- file, into which `save` writes the state.
pub mod Canonical
use everdraw.Base.{
  ℕ, ◌+◌, ◌-◌, ◌≤◌, Bool, true, false, not, ◌&&◌, ◌||◌, Option, none, some, List, [], ◌∷◌, max, min,
  ltb, ◌==◌, if◌then◌else◌, Result, ok, err, ◌>>=◌,
}

-- `participants`, and `seeds` with the blocks of the seeds: a scan through a block, the hash of that
-- block, and what was found.
pub record Checkpoint (A : Type 0) : Type 0 where
  pub last_scanned_block : ℕ
  pub last_scanned_block_hash : ℕ
  pub found : A

pub record Cache : Type 0 where
  pub chain_id : ℕ
  pub draw_manager_address : ℕ
  pub vault_address : ℕ
  pub from_block : ℕ
  pub participants : Checkpoint (List ℕ)
  pub seeds : Checkpoint (List (ℕ × ℕ))

pub record Scope : Type 0 where
  pub chain_id : ℕ
  pub draw_manager_address : ℕ
  pub vault_address : ℕ
  pub from_block : ℕ

unfoldable pub unscanned : {A : Type 0} → (block : ℕ) → A → Checkpoint A
unscanned block nothing = record {
  last_scanned_block = block;
  last_scanned_block_hash = 0;
  found = nothing;
}

-- `manager` is the address that the cache was made with.
unfoldable pub fresh : (manager : ℕ) → Cache
fresh manager = record {
  chain_id = 0;
  draw_manager_address = manager;
  vault_address = 0;
  from_block = 0;
  participants = unscanned 0 [];
  seeds = unscanned 0 [];
}

-- A name that is set and is another one.
abbrev pub differs : ℕ → ℕ → Bool
differs held expected = not (held == 0) && not (held == expected)

unfoldable pub out_of_scope : Cache → Scope → Bool
out_of_scope c s =
    differs c.chain_id s.chain_id
    || (differs c.draw_manager_address s.draw_manager_address
        || (differs c.vault_address s.vault_address || ltb s.from_block c.from_block))

-- A scan that ends before the first block of the scope begins again there.
unfoldable pub scan_from : {A : Type 0} → (start : ℕ) → A → Checkpoint A → Checkpoint A
scan_from start nothing c = if ltb c.last_scanned_block start then unscanned start nothing else c

-- `#ensureScope`.
unfoldable pub ensure_scope : (manager : ℕ) → Scope → Cache → Cache
ensure_scope manager s c =
    let start = s.from_block - 1 in
    let kept = if out_of_scope c s then fresh manager else c in
    record {
      chain_id = s.chain_id;
      draw_manager_address = s.draw_manager_address;
      vault_address = s.vault_address;
      from_block = if kept.from_block == 0 then s.from_block else min kept.from_block s.from_block;
      participants = scan_from start [] kept.participants;
      seeds = scan_from start [] kept.seeds;
    }

-- `get_hash` is `#checkpointHash`: the hash of a block, retries included, or an error; that of block 0
-- is empty.
module _ {E : Type 0} (get_hash : ℕ → Result E ℕ) where
  -- The block of a checkpoint is still the one that was scanned. A checkpoint without a hash or before
  -- the scope is not looked at.
  unfoldable pub is_canonical : {A : Type 0} → (from_block : ℕ) → Checkpoint A → Result E Bool
  is_canonical from_block c =
      if (c.last_scanned_block_hash == 0) || ltb c.last_scanned_block from_block
      then ok true
      else (get_hash c.last_scanned_block >>= λ hash. ok (hash == c.last_scanned_block_hash))

  abbrev pub and_canonical : Result E Bool → Result E Bool → Result E Bool
  and_canonical (ok true) second = second
  and_canonical (ok false) second = ok false
  and_canonical (err e) second = err e

  abbrev pub rebuilt : (manager : ℕ) → Scope → Cache → Bool → Cache × Bool
  rebuilt manager s c true = (c, true)
  rebuilt manager s c false = (ensure_scope manager s (fresh manager), false)

  -- `ensureCanonical`, with what it returns.
  unfoldable pub ensure_canonical : (manager : ℕ) → Scope → Cache → Result E (Cache × Bool)
  ensure_canonical manager s c =
      let scoped = ensure_scope manager s c in
      and_canonical (is_canonical s.from_block scoped.participants)
        (is_canonical s.from_block scoped.seeds)
      >>= λ same. ok (rebuilt manager s scoped same)
