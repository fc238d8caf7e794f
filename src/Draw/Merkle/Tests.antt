-- ===== src/Draw/Merkle/Tests.antt =====
-- Runs of the tree on three leaves, over a toy hash.
use mathlib.Core.List.Perm
use everdraw.Base.{ℕ, ◌+◌, ◌*◌, ◌<◌, ◌≡◌, refl, some, List, [], ◌∷◌, length, get_or, sort, sort_by}
use everdraw.Draw.Merkle.{
  hash_pair, pair_up, root_rounds, merkle_root, index_from, push_at, no_proofs, push_level,
  pair_nodes, proof_rounds, merkle_proofs, verify,
}
use everdraw.Draw.Merkle.Order.{merkle_root-perm}
use everdraw.Draw.Merkle.Proofs.{some_proof_verifies}
use everdraw.Draw.Merkle.Gap.{second_leaf_unproved}

abbrev packed : ℕ → ℕ → ℕ
packed a b = a * 1000 + b

abbrev leaves : List ℕ
leaves = 5 ∷ 3 ∷ 9 ∷ []

merkle_root-perm_example : merkle_root packed leaves ≡ merkle_root packed (3 ∷ 5 ∷ 9 ∷ [])
merkle_root-perm_example = merkle_root-perm packed leaves (3 ∷ 5 ∷ 9 ∷ []) (Perm.swap 3 5 (9 ∷ []))

some_proof_verifies_example :
    (proofs : List (List ℕ)) × (i : ℕ) × (merkle_proofs packed leaves ≡ some proofs)
    × (length proofs ≡ 3)
    × (i < 3)
    × (merkle_root packed leaves ≡ some (verify packed (get_or leaves i 0) (get_or proofs i [])))
some_proof_verifies_example = some_proof_verifies packed leaves (λ e. cc)

sorted_leaves : sort leaves ≡ 3 ∷ 5 ∷ 9 ∷ []
unfolding sort_by
sorted_leaves = refl

second_leaf_unproved_example :
    (proofs : List (List ℕ)) × (j : ℕ) × (merkle_proofs packed leaves ≡ some proofs)
    × (j < 3)
    × (get_or leaves j 0 ≡ 5)
    × (get_or proofs j [] ≡ 3 ∷ [])
    × (verify packed 5 (get_or proofs j []) ≡ hash_pair packed 5 3)
second_leaf_unproved_example = second_leaf_unproved packed leaves 3 5 (9 ∷ []) sorted_leaves

-- The three proofs of the toy tree: that of the leaf 5 stops at the pair's hash, 3005.
gap_run : merkle_proofs packed leaves ≡ some ((3 ∷ []) ∷ (5 ∷ 9 ∷ []) ∷ (3005 ∷ []) ∷ [])
unfolding merkle_proofs proof_rounds pair_nodes push_level push_at index_from no_proofs hash_pair
    sort_by
gap_run = refl

gap_root : merkle_root packed leaves ≡ some 12005
unfolding merkle_root root_rounds pair_up hash_pair sort_by
gap_root = refl
