-- ===== src/Keeper/Deployment.antt =====
-- scripts/keeper/v5-deployment.mjs: which deployment of the manifest the keeper runs on. A field that
-- the JSON may lack is an option, a number in it an integer, an address or a hash the number behind
-- its text; `get_address` is ethers'. The texts of errors are left out.
pub mod Active
pub mod Selected
mod Tests
use everdraw.Base.{
  ℕ, zero, suc, ℤ, pos, negsuc, String, Bool, true, false, not, ◌&&◌, ◌||◌, Option, none, some,
  List, [], ◌∷◌, ◌==◌, leb, if◌then◌else◌, length, every, codes, lower, str_eq, Result, ok, err,
  ◌>>=◌, ◌>>◌, guard, or_throw,
}
use everdraw.Draw.Input.{hex_digit, bytes32_digits}

pub data Error : Type 0 where
  invalid_block invalid_address zero_address invalid_hash not_accepted same_owner invalid_chain_id :
      Error
  chain_mismatch none_active draw_manager_mismatch claim_manager_mismatch from_block_mismatch :
      Error

pub record Ownership : Type 0 where
  pub status : String
  pub final_owner : Option String
  pub deployer : Option String
  pub accept_txs : String → Option String

pub record Entry : Type 0 where
  pub protocol_version : Option ℤ
  pub source : String
  pub deploy_commit : String
  pub chain_id : Option ℤ
  pub status : String
  pub addresses : String → Option String
  pub start_block : Option ℤ
  pub ownership : Ownership

pub record Addresses : Type 0 where
  pub twab_controller : ℕ
  pub shmon_strategy : ℕ
  pub prize_vault : ℕ
  pub claim_manager : ℕ
  pub pyth_randomness_oracle : ℕ
  pub draw_manager : ℕ

-- The owners that were checked, which only the mainnet's deployment needs.
pub record Deployment : Type 0 where
  pub chain_id : ℕ
  pub start_block : ℕ
  pub addresses : Addresses
  pub owners : Option (ℕ × ℕ)

-- `Number.isSafeInteger`, of a number that is not negative.
abbrev pub is_safe : ℕ → Bool
is_safe n = leb n 9007199254740991

abbrev pub safe_block : ℕ → Result Error ℕ
safe_block n = if not (n == 0) && is_safe n then ok n else err invalid_block

pub positive_block : Option ℤ → Result Error ℕ
positive_block (some (pos n)) = safe_block n
positive_block (some (negsuc n)) = err invalid_block
positive_block none = err invalid_block

pub transaction_hash : Option String → Result Error ℕ
transaction_hash none = err invalid_hash
transaction_hash (some value) = or_throw (bytes32_digits (lower (codes value))) invalid_hash

abbrev pub is_hex_digit : ℕ → Bool
is_hex_digit c = elim (hex_digit c) [ none ↦ false | some d ↦ true ]

abbrev pub is_number : ℕ → Option ℤ → Bool
is_number n (some (pos m)) = m == n
is_number n _ = false

pub is_v5_record : Entry → Bool
is_v5_record e =
    is_number 5 e.protocol_version
    || (str_eq e.source "src/v5"
        && ((length (codes e.deploy_commit) == 40) && every is_hex_digit (codes e.deploy_commit)))

-- `entry.chainId ?? data.chainId`, which was found to be the expected one.
abbrev pub has_chain : ℕ → Option ℤ → Bool
has_chain chain_id none = true
has_chain chain_id (some n) = is_number chain_id (some n)

pub is_active : ℕ → Entry → Bool
is_active chain_id e =
    is_v5_record e && (has_chain chain_id e.chain_id && str_eq e.status "draw-manager-committed")

-- `[...contracts].reverse().find(...)`: the last one that passes.
pub find_last : {A : Type 0} → (A → Bool) → List A → Option A
find_last p [] = none
find_last p (x ∷ xs) = elim (find_last p xs) [
  | none ↦ if p x then some x else none
  | some y ↦ some y
]

module _ (get_address : String → Option ℕ) where
  pub normalized_address : Option String → Result Error ℕ
  normalized_address none = err invalid_address
  normalized_address (some value) = do
    address ← or_throw (get_address value) invalid_address
    guard (not (address == 0)) zero_address
    ok address

  pub validate_mainnet_ownership : Ownership → Result Error (ℕ × ℕ)
  validate_mainnet_ownership o = do
    guard (str_eq o.status "accepted") not_accepted
    final_owner ← normalized_address o.final_owner
    deployer ← normalized_address o.deployer
    guard (not (final_owner == deployer)) same_owner
    _ ← transaction_hash (o.accept_txs "twabController")
    _ ← transaction_hash (o.accept_txs "prizeVault")
    _ ← transaction_hash (o.accept_txs "claimManager")
    _ ← transaction_hash (o.accept_txs "drawManager")
    ok (final_owner, deployer)

  pub required_addresses : Entry → Result Error Addresses
  required_addresses e = do
    twab_controller ← normalized_address (e.addresses "twabController")
    shmon_strategy ← normalized_address (e.addresses "shmonStrategy")
    prize_vault ← normalized_address (e.addresses "prizeVault")
    claim_manager ← normalized_address (e.addresses "claimManager")
    oracle ← normalized_address (e.addresses "pythRandomnessOracle")
    draw_manager ← normalized_address (e.addresses "drawManager")
    ok (record {
      twab_controller = twab_controller;
      shmon_strategy = shmon_strategy;
      prize_vault = prize_vault;
      claim_manager = claim_manager;
      pyth_randomness_oracle = oracle;
      draw_manager = draw_manager;
    })

  -- `ownership`: on the mainnet, chain 143, it is validated.
  pub owners_of : ℕ → Ownership → Result Error (Option (ℕ × ℕ))
  owners_of chain_id o =
      if chain_id == 143
      then (validate_mainnet_ownership o >>= λ owners. ok (some owners))
      else ok none

  pub select_active_v5_deployment :
      (expected_chain_id : ℕ) → Option ℤ → List Entry → Result Error Deployment
  select_active_v5_deployment chain_id data_chain_id contracts = do
    guard (not (chain_id == 0) && is_safe chain_id) invalid_chain_id
    guard (is_number chain_id data_chain_id) chain_mismatch
    active ← or_throw (find_last (is_active chain_id) contracts) none_active
    addresses ← required_addresses active
    owners ← owners_of chain_id active.ownership
    start_block ← positive_block active.start_block
    ok (record {
      chain_id = chain_id;
      start_block = start_block;
      addresses = addresses;
      owners = owners;
    })

  abbrev pub configured_address : Option String → ℕ → Result Error ℕ
  configured_address none deployed = ok deployed
  configured_address (some value) deployed = normalized_address (some value)

  abbrev pub configured_block : Option ℤ → ℕ → Result Error ℕ
  configured_block none deployed = positive_block (some (pos deployed))
  configured_block (some n) deployed = positive_block (some n)

  -- The draw manager, the claim manager and the first block, as the environment sets them or as the
  -- deployment has them.
  pub resolve_v5_runtime_targets :
      Deployment
      → (draw_manager claim_manager : Option String) → (from_block : Option ℤ)
      → Result Error (ℕ × ℕ × ℕ)
  resolve_v5_runtime_targets d draw_manager claim_manager from_block = do
    manager ← configured_address draw_manager d.addresses.draw_manager
    claims ← configured_address claim_manager d.addresses.claim_manager
    from ← configured_block from_block d.start_block
    guard (manager == d.addresses.draw_manager) draw_manager_mismatch
    guard (claims == d.addresses.claim_manager) claim_manager_mismatch
    guard (from == d.start_block) from_block_mismatch
    ok (manager, claims, from)
