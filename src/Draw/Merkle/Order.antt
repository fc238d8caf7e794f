-- ===== src/Draw/Merkle/Order.antt =====
-- The tree's shape: the loops end, and the root does not depend on the order of the leaves.
use mathlib.Core.List.{Perm}
use everdraw.Base.{
  ℕ, zero, suc, ◌+◌, ◌*◌, ◌≤◌, ◌<◌, ◌≡◌, refl, ap, ◌∙◌, Option, some, List, [], ◌∷◌, map, arith,
  length, sort, sort_by, length-sort_by, sort-perm, sort_by-map, Bool-cases, inl, inr, ltb, ltb→lt,
  get_or,
}
use everdraw.Draw.Merkle.{
  Node, pair_up, root_rounds, merkle_root, pair_nodes, sort_nodes, index_from,
}

module _ (packed : ℕ → ℕ → ℕ) where
  length-pair_up :
      (xs : List ℕ)
      → (length (pair_up packed xs) * 2 ≤ length xs + 1)
        × (length xs ≤ length (pair_up packed xs) * 2)
  unfolding pair_up
  length-pair_up [] = omega arith
  length-pair_up (a ∷ []) = omega arith
  length-pair_up (a ∷ b ∷ rest) = omega (arith, length-pair_up rest)

  -- A round leaves the half of its level, rounded up.
  pub length-round :
      (xs : List ℕ)
      → (length (sort (pair_up packed xs)) * 2 ≤ length xs + 1)
        × (length xs ≤ length (sort (pair_up packed xs)) * 2)
  length-round xs = rw (length-sort_by (λ n. n) (pair_up packed xs)) (length-pair_up xs)

  pub root_rounds_total :
      (fuel : ℕ) (level : List ℕ)
      → 0 < length level
      → length level ≤ fuel
      → (r : ℕ) × (root_rounds packed fuel level ≡ some r)
  unfolding root_rounds
  root_rounds_total zero level p h = absurd (omega arith)
  root_rounds_total (suc fuel) level p h = elim (Bool-cases (ltb 1 (length level))) [
    | inl e ↦ rw e (
        root_rounds_total fuel (sort (pair_up packed level)) (omega (arith, length-round level))
          (omega (arith, length-round level, ltb→lt _ _ e)))
    | inr e ↦ (get_or level 0 0, rw e)
  ]

  -- For every list of leaves the loop ends within its fuel, with a root.
  pub merkle_root_total : (leaves : List ℕ) → (r : ℕ) × (merkle_root packed leaves ≡ some r)
  unfolding merkle_root
  merkle_root_total [] = (0, refl)
  merkle_root_total (x ∷ xs) =
      root_rounds_total (length (x ∷ xs)) (sort (x ∷ xs))
        (omega (arith, length-sort_by {0} (λ n. n) (x ∷ xs)))
        (omega (arith, length-sort_by {0} (λ n. n) (x ∷ xs)))

  merkle_root_sorted : ℕ → List ℕ → Option ℕ
  merkle_root_sorted n [] = some 0
  merkle_root_sorted n (x ∷ xs) = root_rounds packed n (x ∷ xs)

  merkle_root-sort :
      (xs : List ℕ) → merkle_root packed xs ≡ merkle_root_sorted (length (sort xs)) (sort xs)
  unfolding merkle_root
  merkle_root-sort [] = unfold sort_by merkle_root_sorted in refl
  merkle_root-sort (x ∷ xs) = cases (sort (x ∷ xs)) (length-sort_by (λ n. n) (x ∷ xs))
    where
      cases :
          (l : List ℕ)
          → length l ≡ length (x ∷ xs)
          → root_rounds packed (length (x ∷ xs)) l ≡ merkle_root_sorted (length l) l
      cases [] e = absurd (omega arith)
      cases (y ∷ ys) e = unfold merkle_root_sorted in rw (← e)

  -- The root depends on which leaves there are, and not on their order.
  pub merkle_root-perm :
      (xs ys : List ℕ) → Perm xs ys → merkle_root packed xs ≡ merkle_root packed ys
  merkle_root-perm xs ys p = rw (merkle_root-sort xs, merkle_root-sort ys, sort-perm xs ys p)

  -- The level that `merkleProofs` goes on with is the level of `merkleRoot`.
  pub leaf-pair_nodes :
      (ns : List Node)
      → map (λ n. n.leaf) (pair_nodes packed ns) ≡ pair_up packed (map (λ n. n.leaf) ns)
  unfolding pair_nodes pair_up
  leaf-pair_nodes [] = refl
  leaf-pair_nodes (a ∷ []) = refl
  leaf-pair_nodes (a ∷ b ∷ rest) = rw (leaf-pair_nodes rest)

  pub leaf-next_level :
      (ns : List Node)
      → map (λ n. n.leaf) (sort_nodes (pair_nodes packed ns))
        ≡ sort (pair_up packed (map (λ n. n.leaf) ns))
  leaf-next_level ns =
      sort_by-map (λ n. n.leaf) (pair_nodes packed ns) ∙ ap sort (leaf-pair_nodes ns)

pub leaf-index_from : (i : ℕ) (xs : List ℕ) → map (λ n. n.leaf) (index_from i xs) ≡ xs
unfolding index_from
leaf-index_from i [] = refl
leaf-index_from i (x ∷ xs) = rw (leaf-index_from (suc i) xs)
