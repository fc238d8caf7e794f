-- ===== src/Draw/Merkle.antt =====
-- scripts/draw/compute-winners.js, `merkleRoot` and `merkleProofs`: the tree over the claim leaves.
-- A bytes32 is the number that its 64 hexadecimal digits write; lower-cased strings of one length
-- are ordered as these numbers are. `packed` stands for keccak256 of two packed words (ethers).
pub mod Proofs
pub mod Order
mod Tests
pub mod Gap
use everdraw.Base.{
  ℕ, zero, suc, String, ◌<◌, Option, none, some, List, [], ◌∷◌, ◌++◌, map, arith, ltb,
  if◌then◌else◌, length, get_or, set, sort, sort_by,
}

abbrev pub zero_root : ℕ
zero_root = 0

module _ (packed : ℕ → ℕ → ℕ) where
  -- The smaller word first.
  pub hash_pair : ℕ → ℕ → ℕ
  hash_pair a b = if ltb a b then packed a b else packed b a

  -- The inner loop: neighbours are hashed, and a last odd one goes up as it is.
  pub pair_up : List ℕ → List ℕ
  pair_up [] = []
  pair_up (a ∷ []) = a ∷ []
  pair_up (a ∷ b ∷ rest) = hash_pair a b ∷ pair_up rest

  -- `while (level.length > 1)` and `return level[0]`; `none` means that the fuel ran out.
  pub root_rounds : ℕ → List ℕ → Option ℕ
  root_rounds zero level = none
  root_rounds (suc fuel) level =
      let rest = root_rounds fuel (sort (pair_up level)) in
      if ltb 1 (length level) then rest else some (get_or level 0 zero_root)

  pub merkle_root : List ℕ → Option ℕ
  merkle_root [] = some zero_root
  merkle_root (x ∷ xs) = root_rounds (length (x ∷ xs)) (sort (x ∷ xs))

-- A node of `merkleProofs`: its hash, and the index of one leaf below it.
pub record Node : Type 0 where
  pub leaf : ℕ
  pub index : ℕ

-- `leaves.map((leaf, index) => ({ leaf, index }))`.
pub index_from : ℕ → List ℕ → List Node
index_from i [] = []
index_from i (x ∷ xs) = record { leaf = x; index = i } ∷ index_from (suc i) xs

-- `proofs[i].push(v)`.
pub push_at : List (List ℕ) → ℕ → ℕ → List (List ℕ)
push_at proofs i v = set proofs i (get_or proofs i [] ++ v ∷ [])

-- `leaves.map(() => [])`.
pub no_proofs : List ℕ → List (List ℕ)
no_proofs = map (λ _. [])

-- What the inner loop pushes to the proofs.
pub push_level : List Node → List (List ℕ) → List (List ℕ)
push_level [] proofs = proofs
push_level (a ∷ []) proofs = proofs
push_level (left ∷ right ∷ rest) proofs =
    push_level rest (push_at (push_at proofs left.index right.leaf) right.index left.leaf)

abbrev pub sort_nodes : List Node → List Node
sort_nodes = sort_by (λ n. n.leaf)

module _ (packed : ℕ → ℕ → ℕ) where
  -- What the inner loop pushes to `next`: a parent keeps the index of its left child.
  pub pair_nodes : List Node → List Node
  pair_nodes [] = []
  pair_nodes (a ∷ []) = a ∷ []
  pair_nodes (left ∷ right ∷ rest) =
      record { leaf = hash_pair packed left.leaf right.leaf; index = left.index } ∷ pair_nodes rest

  pub proof_rounds : ℕ → List Node → List (List ℕ) → Option (List (List ℕ))
  proof_rounds zero level proofs = none
  proof_rounds (suc fuel) level proofs =
      let rest = proof_rounds fuel (sort_nodes (pair_nodes level)) (push_level level proofs) in
      if ltb 1 (length level) then rest else some proofs

  pub merkle_proofs : List ℕ → Option (List (List ℕ))
  merkle_proofs [] = some []
  merkle_proofs (x ∷ xs) =
      proof_rounds (length (x ∷ xs)) (sort_nodes (index_from 0 (x ∷ xs))) (no_proofs (x ∷ xs))

  -- How a proof is checked against the root: the verifier folds it over the leaf (the contract's
  -- `_verify`, which the claim manager runs).
  pub verify : ℕ → List ℕ → ℕ
  verify leaf [] = leaf
  verify leaf (sibling ∷ proof) = verify (hash_pair packed leaf sibling) proof
