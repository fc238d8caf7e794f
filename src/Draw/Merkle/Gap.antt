-- ===== src/Draw/Merkle/Gap.antt =====
-- What `merkleProofs` leaves out: a parent node keeps the index of its left child alone, so the
-- right child's proof never grows past its own level.
use everdraw.Base.{
  ℕ, zero, suc, ◌<◌, ◌≡◌, ◌≢◌, refl, sym, ap, ◌∙◌, Option, none, some, List, [], ◌∷◌, ◌++◌, map,
  arith, length, length-set, get_or, get_or-set_self, get_or-set_ne, sort, sort_by, length-map,
  sort_by-map, All, All-sort_by, Bool-cases, inl, inr, ltb, lt→ltb,
}
use everdraw.Draw.Merkle.{
  Node, hash_pair, pair_nodes, sort_nodes, index_from, push_at, no_proofs, push_level, proof_rounds,
  merkle_proofs, verify,
}
use everdraw.Draw.Merkle.Order.{leaf-index_from}
use everdraw.Draw.Merkle.Proofs.{
  Distinct, Reaches, sort_nodes-Distinct, index_from-Distinct, pair_nodes-All, push_level-other,
  start-Reaches, get_or-no_proofs, some_proof_verifies,
}

length-no_proofs : (xs : List ℕ) → length (no_proofs xs) ≡ length xs
unfolding no_proofs
length-no_proofs xs = length-map xs (λ _. [])

module _ (packed : ℕ → ℕ → ℕ) where
  -- The rounds leave a proof alone whose index is on no node of the level.
  proof_rounds-other :
      (fuel i : ℕ) (level : List Node) (ps qs : List (List ℕ))
      → All (λ m. i ≢ m.index) level
      → proof_rounds packed fuel level ps ≡ some qs
      → get_or qs i [] ≡ get_or ps i []
  unfolding proof_rounds
  proof_rounds-other zero i level ps qs h e = cc
  proof_rounds-other (suc fuel) i level ps qs h e = elim (Bool-cases (ltb 1 (length level))) [
    | inl more ↦
        proof_rounds-other fuel i (sort_nodes (pair_nodes packed level)) (push_level level ps) qs
          (All-sort_by (λ n. n.leaf) (λ m. i ≢ m.index) _ (pair_nodes-All packed i level h))
          (rw more at e)
        ∙ push_level-other packed i level ps h
    | inr last ↦
        ap (λ (o : Option (List (List ℕ))). elim o [ none ↦ [] | some ls ↦ get_or ls i [] ])
          (sym (rw last at e))
  ]

  right_of_first :
      (fuel : ℕ) (a b : Node) (rest : List Node) (ps qs : List (List ℕ))
      → Distinct (a ∷ b ∷ rest)
      → b.index < length ps
      → get_or ps b.index [] ≡ []
      → proof_rounds packed fuel (a ∷ b ∷ rest) ps ≡ some qs
      → get_or qs b.index [] ≡ a.leaf ∷ []
  unfolding proof_rounds push_at push_level pair_nodes
  right_of_first zero a b rest ps qs d lt empty run = cc
  right_of_first (suc fuel) a b rest ps qs d lt empty run =
      let once = push_at ps a.index b.leaf in
      let others : All (λ m. b.index ≢ m.index) (pair_nodes packed (a ∷ b ∷ rest)) =
        (λ e. d.0.0 (sym e), pair_nodes-All packed b.index rest d.1.0) in
      proof_rounds-other fuel b.index (sort_nodes (pair_nodes packed (a ∷ b ∷ rest))) _ qs
        (All-sort_by (λ n. n.leaf) (λ m. b.index ≢ m.index) _ others)
        (rw (lt→ltb 1 (length (a ∷ b ∷ rest)) (omega arith)) at run)
      ∙ push_level-other packed b.index rest (push_at once b.index a.leaf) d.1.0
      ∙ get_or-set_self once b.index _ [] (rw (length-set ps a.index _) lt)
      ∙ ap (λ l. l ++ a.leaf ∷ []) (get_or-set_ne ps a.index b.index _ [] d.0.0 ∙ empty)

  -- The two first nodes, and what the start says of the second.
  second_of_start :
      (leaves : List ℕ) (ns : List Node) (a b : ℕ) (rest : List ℕ) (qs : List (List ℕ)) (fuel : ℕ)
      → Distinct ns
      → All (Reaches packed leaves (no_proofs leaves)) ns
      → map (λ n. n.leaf) ns ≡ a ∷ b ∷ rest
      → proof_rounds packed fuel ns (no_proofs leaves) ≡ some qs
      → (j : ℕ) × (j < length leaves) × (get_or leaves j 0 ≡ b) × (get_or qs j [] ≡ a ∷ [])
  unfolding verify
  second_of_start leaves [] a b rest qs fuel d h e run = cc
  second_of_start leaves (x ∷ []) a b rest qs fuel d h e run = cc
  second_of_start leaves (x ∷ y ∷ ns) a b rest qs fuel d h e run = (
    y.index,
    rw (length-no_proofs leaves) at h.1.0.0,
    (rw (get_or-no_proofs leaves y.index) at h.1.0.1) ∙ ap (λ l. get_or l 1 0) e,
    right_of_first fuel x y ns (no_proofs leaves) qs d h.1.0.0 (get_or-no_proofs leaves y.index) run
        ∙ ap (λ l. get_or l 0 0 ∷ []) e,
  )

  -- Of any two or more leaves let `a` and `b` be the two smallest. The computation ends, and a
  -- leaf `b` gets the proof that is `a` alone, however high the tree is; a verifier takes it to
  -- the pair's hash.
  pub second_leaf_unproved :
      (leaves : List ℕ) (a b : ℕ) (rest : List ℕ)
      → sort leaves ≡ a ∷ b ∷ rest
      → (proofs : List (List ℕ)) × (j : ℕ) × (merkle_proofs packed leaves ≡ some proofs)
        × (j < length leaves)
        × (get_or leaves j 0 ≡ b)
        × (get_or proofs j [] ≡ a ∷ [])
        × (verify packed b (get_or proofs j []) ≡ hash_pair packed b a)
  unfolding merkle_proofs verify sort_by
  second_leaf_unproved [] a b rest e = cc
  second_leaf_unproved (x ∷ xs) a b rest e =
      let leaves = x ∷ xs in
      let start = index_from 0 leaves in
      let (proofs, i, run, _, _, _) = some_proof_verifies packed leaves (λ q. cc) in
      let (j, lt, at, short) =
        second_of_start leaves (sort_nodes start) a b rest proofs (length leaves)
          (sort_nodes-Distinct start (index_from-Distinct 0 leaves))
          (All-sort_by (λ n. n.leaf) (Reaches packed leaves (no_proofs leaves)) start
            (start-Reaches packed leaves [] leaves 0 refl refl))
          (sort_by-map (λ n. n.leaf) start ∙ ap sort (leaf-index_from 0 leaves) ∙ e) run in
      (proofs, j, run, lt, at, short, rw short)
