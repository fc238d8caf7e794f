-- ===== src/Draw/Merkle/Proofs.antt =====
-- What `merkleProofs` produces: the proof of the leaf whose index survives the rounds is complete.
use everdraw.Base.{
  ℕ, zero, suc, ◌+◌, ◌*◌, ◌≤◌, ◌<◌, ◌≡◌, ◌≢◌, refl, sym, ap, ◌∙◌, some, List, [], ◌∷◌, ◌++◌, map,
  arith, length, length-set, set, get_or, get_or-set_self, get_or-set_ne, sort_by, length-sort_by,
  length-map, length-append, append_assoc, sort_by-map, All, All-insert_by, All-sort_by, insert_by,
  Bool-cases, inl, inr, lt→ltb, leb,
}
use everdraw.Draw.Merkle.{
  Node, hash_pair, root_rounds, merkle_root, pair_nodes, sort_nodes, index_from, push_at, no_proofs,
  push_level, proof_rounds, merkle_proofs, verify,
}
use everdraw.Draw.Merkle.Order.{length-round, leaf-next_level, leaf-index_from}

-- No two nodes of a level carry the same index.
abbrev pub Distinct : List Node → Type 0
Distinct [] = Unit {0}
Distinct (n ∷ ns) = All (λ m. n.index ≢ m.index) ns × Distinct ns

All-insert-Distinct :
    (x : Node) (ys : List Node)
    → All (λ m. x.index ≢ m.index) ys
    → Distinct ys
    → Distinct (insert_by (λ n. n.leaf) x ys)
unfolding insert_by
All-insert-Distinct x [] f d = (tt, tt)
All-insert-Distinct x (y ∷ ys) f d = elim (Bool-cases (leb x.leaf y.leaf)) [
  | inl e ↦ rw e (f, d)
  | inr e ↦ rw e (
    All-insert_by (λ n. n.leaf) (λ m. y.index ≢ m.index) x ys (λ q. f.0 (sym q)) d.0,
    All-insert-Distinct x ys f.1 d.1,
  )
]

pub sort_nodes-Distinct : (ns : List Node) → Distinct ns → Distinct (sort_nodes ns)
unfolding sort_by
sort_nodes-Distinct [] d = tt
sort_nodes-Distinct (n ∷ ns) d =
    All-insert-Distinct n (sort_nodes ns)
      (All-sort_by (λ n. n.leaf) (λ m. n.index ≢ m.index) ns d.0) (sort_nodes-Distinct ns d.1)

-- The nodes of a list start under empty proofs, each at the place of its leaf.
index_from-above : (i j : ℕ) (xs : List ℕ) → i < j → All (λ m. i ≢ m.index) (index_from j xs)
unfolding index_from
index_from-above i j [] h = tt
index_from-above i j (x ∷ xs) h = (λ e. omega arith, index_from-above i (suc j) xs (omega arith))

pub index_from-Distinct : (i : ℕ) (xs : List ℕ) → Distinct (index_from i xs)
unfolding index_from
index_from-Distinct i [] = tt
index_from-Distinct i (x ∷ xs) =
    (index_from-above i (suc i) xs (omega arith), index_from-Distinct (suc i) xs)

pub length-index_from : (i : ℕ) (xs : List ℕ) → length (index_from i xs) ≡ length xs
unfolding index_from
length-index_from i [] = refl
length-index_from i (x ∷ xs) = ap suc (length-index_from (suc i) xs)

pub get_or-no_proofs : (xs : List ℕ) (i : ℕ) → get_or (no_proofs xs) i [] ≡ []
unfolding no_proofs
get_or-no_proofs [] i = refl
get_or-no_proofs (x ∷ xs) zero = refl
get_or-no_proofs (x ∷ xs) (suc i) = get_or-no_proofs xs i

get_or-append : (pre : List ℕ) (x : ℕ) (xs : List ℕ) → get_or (pre ++ x ∷ xs) (length pre) 0 ≡ x
get_or-append [] x xs = refl
get_or-append (p ∷ pre) x xs = get_or-append pre x xs

module _ (packed : ℕ → ℕ → ℕ) where
  pub pair_nodes-All :
      (i : ℕ) (ns : List Node)
      → All (λ m. i ≢ m.index) ns
      → All (λ m. i ≢ m.index) (pair_nodes packed ns)
  unfolding pair_nodes
  pair_nodes-All i [] h = tt
  pair_nodes-All i (a ∷ []) h = h
  pair_nodes-All i (a ∷ b ∷ rest) h = (h.0, pair_nodes-All i rest h.1.1)

  pub pair_nodes-Distinct : (ns : List Node) → Distinct ns → Distinct (pair_nodes packed ns)
  unfolding pair_nodes
  pair_nodes-Distinct [] d = tt
  pair_nodes-Distinct (a ∷ []) d = d
  pair_nodes-Distinct (a ∷ b ∷ rest) d =
      (pair_nodes-All a.index rest d.0.1, pair_nodes-Distinct rest d.1.1)

  verify-append :
      (leaf v : ℕ) (proof : List ℕ)
      → verify packed leaf (proof ++ v ∷ []) ≡ hash_pair packed (verify packed leaf proof) v
  unfolding verify
  verify-append leaf v [] = refl
  verify-append leaf v (p ∷ proof) = verify-append (hash_pair packed leaf p) v proof

  -- A push elsewhere leaves a proof alone.
  pub push_level-other :
      (i : ℕ) (ns : List Node) (ps : List (List ℕ))
      → All (λ m. i ≢ m.index) ns
      → get_or (push_level ns ps) i [] ≡ get_or ps i []
  unfolding push_level push_at
  push_level-other i [] ps h = refl
  push_level-other i (a ∷ []) ps h = refl
  push_level-other i (a ∷ b ∷ rest) ps h =
      push_level-other i rest _ h.1.1
      ∙ get_or-set_ne _ b.index i _ [] (λ e. h.1.0 (sym e))
      ∙ get_or-set_ne ps a.index i _ [] (λ e. h.0 (sym e))

  length-push_level : (ns : List Node) (ps : List (List ℕ)) → length (push_level ns ps) ≡ length ps
  unfolding push_level push_at
  length-push_level [] ps = refl
  length-push_level (a ∷ []) ps = refl
  length-push_level (a ∷ b ∷ rest) ps =
      length-push_level rest _ ∙ length-set _ b.index _ ∙ length-set ps a.index _

  pub length-next_nodes :
      (ns : List Node)
      → (length (sort_nodes (pair_nodes packed ns)) * 2 ≤ length ns + 1)
        × (length ns ≤ length (sort_nodes (pair_nodes packed ns)) * 2)
  length-next_nodes ns = omega (
    arith,
    ap length (leaf-next_level packed ns),
    length-round packed (map (λ n. n.leaf) ns),
    length-map ns (λ n. n.leaf),
    length-map (sort_nodes (pair_nodes packed ns)) (λ n. n.leaf),
  )

  module _ (leaves : List ℕ) where
    -- The proof at the node's index takes its leaf to the node.
    abbrev pub Reaches : List (List ℕ) → Node → Type 0
    Reaches ps n =
        (n.index < length ps)
        × (verify packed (get_or leaves n.index 0) (get_or ps n.index []) ≡ n.leaf)

    Reaches-same :
        (ps qs : List (List ℕ)) (n : Node)
        → length qs ≡ length ps
        → get_or qs n.index [] ≡ get_or ps n.index []
        → Reaches ps n
        → Reaches qs n
    Reaches-same ps qs n e f r = (omega (arith, r.0), rw f r.1)

    Reaches-pair :
        (ps : List (List ℕ)) (l r : Node)
        → l.index ≢ r.index
        → Reaches ps l
        → Reaches
            (push_at (push_at ps l.index r.leaf) r.index l.leaf)
            (record { leaf = hash_pair packed l.leaf r.leaf; index = l.index })
    unfolding push_at
    Reaches-pair ps l r ne h = (
      rw (length-set _ r.index _, length-set ps l.index _) h.0,
      rw (
        get_or-set_ne (set ps l.index (get_or ps l.index [] ++ r.leaf ∷ [])) r.index l.index _ []
            (λ e. ne (sym e)),
        get_or-set_self ps l.index _ [] h.0,
        verify-append (get_or leaves l.index 0) r.leaf (get_or ps l.index []),
        h.1,
      ),
    )

    All-Reaches-same :
        (ps qs : List (List ℕ)) (ns : List Node)
        → length qs ≡ length ps
        → All (λ n. get_or qs n.index [] ≡ get_or ps n.index []) ns
        → All (Reaches ps) ns
        → All (Reaches qs) ns
    All-Reaches-same ps qs [] e f h = tt
    All-Reaches-same ps qs (n ∷ ns) e f h =
        (Reaches-same ps qs n e f.0 h.0, All-Reaches-same ps qs ns e f.1 h.1)

    push-rest :
        (ps : List (List ℕ)) (l r : Node) (ns : List Node)
        → All (λ m. l.index ≢ m.index) ns
        → All (λ m. r.index ≢ m.index) ns
        → All (Reaches ps) ns
        → All (Reaches (push_at (push_at ps l.index r.leaf) r.index l.leaf)) ns
    unfolding push_at
    push-rest ps l r [] hl hr h = tt
    push-rest ps l r (n ∷ ns) hl hr h = (
      Reaches-same ps _ n (length-set _ r.index _ ∙ length-set ps l.index _)
          (get_or-set_ne _ r.index n.index _ [] hr.0 ∙ get_or-set_ne ps l.index n.index _ [] hl.0)
          h.0,
      push-rest ps l r ns hl.1 hr.1 h.1,
    )

    -- One round of the loop keeps every node of the next level reached.
    level-Reaches :
        (ns : List Node) (ps : List (List ℕ))
        → Distinct ns
        → All (Reaches ps) ns
        → All (Reaches (push_level ns ps)) (pair_nodes packed ns)
    unfolding push_level pair_nodes
    level-Reaches [] ps d h = tt
    level-Reaches (a ∷ []) ps d h = h
    level-Reaches (a ∷ b ∷ rest) ps d h = (
      Reaches-same _ _ (record { leaf = hash_pair packed a.leaf b.leaf; index = a.index })
          (length-push_level rest _) (push_level-other a.index rest _ d.0.1)
          (Reaches-pair ps a b d.0.0 h.0),
      level-Reaches rest _ d.1.1 (push-rest ps a b rest d.0.1 d.1.0 h.1.1),
    )

    -- Both loops run together, and the last node's index has a proof that leads to the root.
    pub rounds-Reaches :
        (fuel : ℕ) (level : List Node) (ps : List (List ℕ))
        → Distinct level
        → All (Reaches ps) level
        → 0 < length level
        → length level ≤ fuel
        → (qs : List (List ℕ)) × (i : ℕ) × (proof_rounds packed fuel level ps ≡ some qs)
          × (i < length qs)
          × (length qs ≡ length ps)
          × (root_rounds packed fuel (map (λ n. n.leaf) level)
              ≡ some (verify packed (get_or leaves i 0) (get_or qs i [])))
    unfolding proof_rounds root_rounds
    rounds-Reaches zero level ps d h p f = absurd (omega arith)
    rounds-Reaches (suc fuel) [] ps d h p f = absurd (omega arith)
    rounds-Reaches (suc fuel) (n ∷ []) ps d h p f =
        (ps, n.index, refl, h.0.0, refl, ap some (sym h.0.1))
    rounds-Reaches (suc fuel) (a ∷ b ∷ rest) ps d h p f =
        let ns = a ∷ b ∷ rest in
        let (qs, i, run, lt, len, root) =
          rounds-Reaches fuel (sort_nodes (pair_nodes packed ns)) (push_level ns ps)
            (sort_nodes-Distinct _ (pair_nodes-Distinct ns d))
            (All-sort_by (λ n. n.leaf) (Reaches (push_level ns ps)) _ (level-Reaches ns ps d h))
            (omega (arith, length-next_nodes ns)) (omega (arith, length-next_nodes ns)) in
        (
          qs,
          i,
          rw (lt→ltb 1 (length ns) (omega arith)) run,
          lt,
          len ∙ length-push_level ns ps,
          rw (lt→ltb 1 (length (map (λ n. n.leaf) ns)) (omega (arith, length-map ns (λ n. n.leaf))))
              (rw leaf-next_level at root),
        )

  -- `pre` are the leaves that stand before.
  pub start-Reaches :
      (leaves pre xs : List ℕ) (k : ℕ)
      → leaves ≡ pre ++ xs
      → length pre ≡ k
      → All (Reaches leaves (no_proofs leaves)) (index_from k xs)
  unfolding index_from verify no_proofs
  start-Reaches leaves pre [] k e f = tt
  start-Reaches leaves pre (x ∷ xs) k e f = (
    (
      rw (length-map leaves (λ _. [])) (omega (arith, ap length e, length-append pre (x ∷ xs), f)),
      rw (get_or-no_proofs leaves k, e, ← f) (get_or-append pre x xs),
    ),
    start-Reaches leaves (pre ++ x ∷ []) xs (suc k) (e ∙ sym (append_assoc pre (x ∷ []) xs))
        (omega (arith, length-append pre (x ∷ []), f)),
  )

  -- For every list of leaves both computations end, and some leaf's proof leads to the root.
  pub some_proof_verifies :
      (leaves : List ℕ)
      → leaves ≢ []
      → (proofs : List (List ℕ)) × (i : ℕ) × (merkle_proofs packed leaves ≡ some proofs)
        × (length proofs ≡ length leaves)
        × (i < length leaves)
        × (merkle_root packed leaves
            ≡ some (verify packed (get_or leaves i 0) (get_or proofs i [])))
  unfolding merkle_proofs merkle_root no_proofs
  some_proof_verifies [] ne = absurd (ne refl)
  some_proof_verifies (x ∷ xs) ne =
      let leaves = x ∷ xs in
      let start = index_from 0 leaves in
      let (proofs, i, run, lt, len, root) =
        rounds-Reaches leaves (length leaves) (sort_nodes start) (no_proofs leaves)
          (sort_nodes-Distinct start (index_from-Distinct 0 leaves))
          (All-sort_by (λ n. n.leaf) (Reaches leaves (no_proofs leaves)) start
            (start-Reaches leaves [] leaves 0 refl refl))
          (omega (arith, length-sort_by (λ n. n.leaf) start, length-index_from 0 leaves))
          (omega (arith, length-sort_by (λ n. n.leaf) start, length-index_from 0 leaves)) in
      let same : length proofs ≡ length leaves = len ∙ length-map leaves (λ _. []) in
      (
        proofs,
        i,
        run,
        same,
        omega (arith, same, lt),
        rw (sort_by-map (λ n. n.leaf) start, leaf-index_from 0 leaves) at root,
      )
