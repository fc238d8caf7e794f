-- ===== src/Keeper/Deployment/Tests.antt =====
-- Runs of the selection on a manifest of a test chain with two active entries and a retired one.
use everdraw.Base.{
  ℕ, ◌≡◌, refl, pos, String, Option, none, some, List, [], ◌∷◌, codes, length, ok, err,
}
use everdraw.Keeper.Deployment.{
  Entry, Ownership, Deployment, positive_block, normalized_address, resolve_v5_runtime_targets,
  from_block_mismatch,
}
use everdraw.Keeper.Deployment.Selected.{Selected, resolve-deployed}

-- An address is the length of its text.
abbrev get_address : String → Option ℕ
get_address text = some (length (codes text))

abbrev ownership : Ownership
ownership = record { status = ""; final_owner = none; deployer = none; accept_txs = λ name. none }

abbrev entry : (status : String) → ℕ → Entry
entry status block = record {
  protocol_version = some (pos 5);
  source = "";
  deploy_commit = "";
  chain_id = some (pos 10143);
  status = status;
  addresses = λ name. some name;
  start_block = some (pos block);
  ownership = ownership;
}

abbrev contracts : List Entry
contracts =
    entry "draw-manager-committed" 100
    ∷ entry "draw-manager-committed" 200
    ∷ entry "retired" 300
    ∷ []

abbrev deployment : Deployment
deployment = record {
  chain_id = 10143;
  start_block = 200;
  addresses = record {
    twab_controller = 14;
    shmon_strategy = 13;
    prize_vault = 10;
    claim_manager = 12;
    pyth_randomness_oracle = 20;
    draw_manager = 11;
  };
  owners = none;
}

abbrev targets : ℕ × ℕ × ℕ
targets = (11, 12, 200)

resolve-deployment :
    resolve_v5_runtime_targets get_address deployment (some "drawManager") none none ≡ ok targets
unfolding resolve_v5_runtime_targets normalized_address positive_block
resolve-deployment = refl

resolve-deployed_example : targets ≡ (
  deployment.addresses.draw_manager, deployment.addresses.claim_manager, deployment.start_block,
)
resolve-deployed_example =
    resolve-deployed get_address deployment (some "drawManager") none none targets
      resolve-deployment

other_block :
    resolve_v5_runtime_targets get_address deployment none none (some (pos 150))
    ≡ err from_block_mismatch
unfolding resolve_v5_runtime_targets normalized_address positive_block
other_block = refl
