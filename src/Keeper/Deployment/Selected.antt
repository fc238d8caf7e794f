-- ===== src/Keeper/Deployment/Selected.antt =====
-- What is certain of a deployment that was selected, and of the targets that the keeper runs on.
use everdraw.Base.{
  ℕ, ◌≤◌, ◌<◌, ◌≡◌, ◌≢◌, ℤ, pos, String, Option, none, some, List, arith, ◌==◌, codes, lower, ok,
  Ensures-guard, Ensures-elim, Ensures-bind,
}
use everdraw.Draw.Input.{bytes32_digits}
use everdraw.Keeper.Deployment.{
  Ownership, Entry, Addresses, Deployment, configured_address, configured_block,
  resolve_v5_runtime_targets, draw_manager_mismatch, claim_manager_mismatch, from_block_mismatch,
}
use everdraw.Keeper.Deployment.Active.{Last, IsActive}

module _ (get_address : String → Option ℕ) where
  -- The number behind an address that is written in the manifest.
  abbrev pub Address : Option String → ℕ → Type 0
  Address written address =
      (v : String) × (written ≡ some v) × (get_address v ≡ some address) × (0 < address)

  -- The addresses are the entry's, each that of its name.
  pub record Addressed (e : Entry) (a : Addresses) : Type 0 where
    pub twab_controller : Address (e.addresses "twabController") a.twab_controller
    pub shmon_strategy : Address (e.addresses "shmonStrategy") a.shmon_strategy
    pub prize_vault : Address (e.addresses "prizeVault") a.prize_vault
    pub claim_manager : Address (e.addresses "claimManager") a.claim_manager
    pub oracle : Address (e.addresses "pythRandomnessOracle") a.pyth_randomness_oracle
    pub draw_manager : Address (e.addresses "drawManager") a.draw_manager

  -- The text of a hash of 32 bytes, in whatever case.
  abbrev pub Hash : Option String → Type 0
  Hash written =
      (v : String) × (hash : ℕ) × (written ≡ some v)
      × (bytes32_digits (lower (codes v)) ≡ some hash)

  -- The ownership was accepted for each of the four contracts, by an owner that did not deploy them.
  pub record Accepted (o : Ownership) (owners : ℕ × ℕ) : Type 0 where
    pub status : o.status ≡ "accepted"
    pub final_owner : Address o.final_owner owners.0
    pub deployer : Address o.deployer owners.1
    pub differ : owners.0 ≢ owners.1
    pub twab_controller : Hash (o.accept_txs "twabController")
    pub prize_vault : Hash (o.accept_txs "prizeVault")
    pub claim_manager : Hash (o.accept_txs "claimManager")
    pub draw_manager : Hash (o.accept_txs "drawManager")

  -- On the mainnet there are two owners, to whom the contracts were handed over.
  abbrev pub Owned : ℕ → Ownership → Option (ℕ × ℕ) → Type 0
  Owned chain_id o none = chain_id ≢ 143
  Owned chain_id o (some owners) = (chain_id ≡ 143) × Accepted o owners

  -- The block is the entry's, a positive one that a number of JavaScript holds exactly.
  abbrev pub Block : Option ℤ → ℕ → Type 0
  Block written block = (written ≡ some (pos block)) × (0 < block) × (block ≤ 9007199254740991)

  -- What is certain of a deployment that was selected.
  pub record Selected (chain_id : ℕ) (contracts : List Entry) (d : Deployment) : Type 0 where
    pub entry : Entry
    pub last_active : Last (IsActive chain_id) contracts entry
    pub addressed : Addressed entry d.addresses
    pub owned : Owned chain_id entry.ownership d.owners
    pub block : Block entry.start_block d.start_block
    pub chain : d.chain_id ≡ chain_id

  -- Whenever the keeper gets targets to run on, they are those of the deployment, whatever the
  -- environment sets.
  pub resolve-deployed :
      (d : Deployment) (draw_manager claim_manager : Option String) (from_block : Option ℤ)
      (targets : ℕ × ℕ × ℕ)
      → resolve_v5_runtime_targets get_address d draw_manager claim_manager from_block ≡ ok targets
      → targets ≡ (d.addresses.draw_manager, d.addresses.claim_manager, d.start_block)
  unfolding resolve_v5_runtime_targets
  resolve-deployed d draw_manager claim_manager from_block targets run =
      let P : ℕ × ℕ × ℕ → Type 0 =
        λ t. t ≡ (d.addresses.draw_manager, d.addresses.claim_manager, d.start_block) in
      Ensures-elim P
        (resolve_v5_runtime_targets get_address d draw_manager claim_manager from_block) targets
        (Ensures-bind P (configured_address get_address draw_manager d.addresses.draw_manager) _
          λ manager.
            Ensures-bind P (configured_address get_address claim_manager d.addresses.claim_manager)
              _
              λ claims.
                Ensures-bind P (configured_block get_address from_block d.start_block) _ λ from.
                  Ensures-guard P (manager == d.addresses.draw_manager) draw_manager_mismatch _ λ a.
                    Ensures-guard P (claims == d.addresses.claim_manager) claim_manager_mismatch _
                      λ b. Ensures-guard P (from == d.start_block) from_block_mismatch _ λ c.
                        let ea : manager ≡ d.addresses.draw_manager = ground (arith, a) in
                        let eb : claims ≡ d.addresses.claim_manager = ground (arith, b) in
                        let ec : from ≡ d.start_block = ground (arith, c) in rw (ea, eb, ec))
        run
