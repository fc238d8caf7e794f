-- ===== src/Watcher/Batches/Passes.antt =====
-- On a chain that does not change, the checks of a batch pass.
use everdraw.Base.{
  ℕ, ◌≡◌, ◌≢◌, refl, ap, true, false, not, ◌||◌, Option, none, some, List, [], ◌∷◌, ◌++◌, map,
  arith, ◌==◌, has, All, Bool-cases, inl, inr, add_ids, has-copies, copies-add_ids, Table, find,
  find_number,
}
use everdraw.Watcher.Actions.{Action, give, or_fail, collect}
use everdraw.Watcher.Actions.Keeps.{Any}
use everdraw.Watcher.Actions.Gives.{
  Gives, Gives-after, Gives-each, Gives-throw_if, Gives-give, Gives-mono,
}
use everdraw.Watcher.Events.{WatchLog}
use everdraw.Watcher.Batches.{
  Window, Canonical, present, canonical_hash, canonical_block_hashes, agrees, check_boundary,
  has_hash, check_log, assert_canonical_log_batch, ends_of, last_of, or_zero,
}

module _ {S : Type 0} (P : S → Type 0) (block_hash : ℕ → Action S (Option ℕ)) (hash : ℕ → ℕ)
    (there : (n : ℕ) → hash n ≢ 0)
    (answers : (n : ℕ) (s : S) → P s → Gives P (λ o. o ≡ some (hash n)) (block_hash n s)) where
  abbrev hashed : List ℕ → Table ℕ ℕ
  hashed ns = map (λ n. (n, hash n)) ns

  present_hash : (n : ℕ) (o : Option ℕ) → o ≡ some (hash n) → present block_hash o ≡ some (hash n)
  present_hash n none e = cc
  present_hash n (some h) e = ground (arith, e, there n)

  Gives-canonical_hash :
      (n : ℕ) (s : S) → P s → Gives P (λ r. r ≡ (n, hash n)) (canonical_hash block_hash n s)
  unfolding canonical_hash or_fail give
  Gives-canonical_hash n s p =
      Gives-after P P _ _ (block_hash n s) _ (answers n s p)
        (λ o s e p. rw (present_hash n o e) (p, refl))

  Gives-hashes :
      (ns : List ℕ) (s : S)
      → P s
      → Gives P (λ t. t ≡ hashed ns) (collect (canonical_hash block_hash) ns s)
  unfolding collect
  Gives-hashes [] s p = (p, refl)
  Gives-hashes (n ∷ ns) s p =
      Gives-after P P _ _ _ _ (Gives-canonical_hash n s p)
        λ r s e p. Gives-after P P _ _ _ _ (Gives-hashes ns s p) λ t s f p. (p, rw (e, f))

  find-hashed :
      (n : ℕ) (ns : List ℕ)
      → has (λ j. j == n) ns ≡ true
      → find_number n (hashed ns) ≡ some (hash n)
  unfolding find
  find-hashed n [] e = cc
  find-hashed n (j ∷ ns) e = elim (Bool-cases (j == n)) [
    | inl same ↦ let eq : j ≡ n = ground (arith, same) in rw same (ap (λ k. some (hash k)) eq)
    | inr apart ↦ rw apart (find-hashed n ns (rw apart at e))
  ]

  has-add_ids :
      (n : ℕ) (ns : List ℕ) → has (λ j. j == n) ns ≡ true → has (λ j. j == n) (add_ids [] ns) ≡ true
  has-add_ids n ns e = ground (
    arith,
    has-copies n ns,
    has-copies n (add_ids [] ns),
    copies-add_ids n [] ns (omega arith),
    e,
  )

  -- A table of the chain's hashes, of these blocks at least.
  abbrev pub Agrees : List ℕ → Table ℕ ℕ → Type 0
  Agrees ns t = (n : ℕ) → has (λ j. j == n) ns ≡ true → find_number n t ≡ some (hash n)

  pub Gives-canonical_block_hashes :
      (ns : List ℕ) (s : S) → P s → Gives P (Agrees ns) (canonical_block_hashes block_hash ns s)
  unfolding canonical_block_hashes
  Gives-canonical_block_hashes ns s p =
      Gives-mono P _ _ _ (λ t e n there. rw e (find-hashed n _ (has-add_ids n ns there)))
        (Gives-hashes (add_ids [] ns) s p)

  -- A log that the chain has.
  abbrev pub OnChain : WatchLog → Type 0
  OnChain l = l.block_hash ≡ hash l.block_number

  has-append :
      (n : ℕ) (xs ys : List ℕ)
      → has (λ j. j == n) (xs ++ ys) ≡ has (λ j. j == n) xs || has (λ j. j == n) ys
  has-append n [] ys = refl
  has-append n (x ∷ xs) ys = ground (arith, has-append n xs ys)

  -- Every block of a list, or of the logs, is among those asked for.
  abbrev Asked : List ℕ → ℕ → Type 0
  Asked ns n = has (λ j. j == n) ns ≡ true

  All-Asked : (zs xs : List ℕ) → ((n : ℕ) → Asked xs n → Asked zs n) → All (Asked zs) xs
  All-Asked zs [] sub = tt
  All-Asked zs (x ∷ xs) sub =
      (sub x (ground arith), All-Asked zs xs (λ n e. sub n (ground (arith, e))))

  abbrev Known : List ℕ → WatchLog → Type 0
  Known zs l = Asked zs l.block_number × OnChain l

  All-Known :
      (zs : List ℕ) (logs : List WatchLog)
      → ((n : ℕ) → Asked (map (λ l. l.block_number) logs) n → Asked zs n)
      → All OnChain logs
      → All (Known zs) logs
  All-Known zs [] sub h = tt
  All-Known zs (l ∷ logs) sub h = (
    (sub l.block_number (ground arith), h.0),
    All-Known zs logs (λ n e. sub n (ground (arith, e))) h.1,
  )

  agrees_same :
      (n : ℕ) (a b : Option ℕ)
      → a ≡ some (hash n)
      → b ≡ some (hash n)
      → not (agrees block_hash a b) ≡ false
  agrees_same n a b e f = rw (e, f) (ground arith)

  has_known_hash :
      (h n : ℕ) (o : Option ℕ)
      → h ≡ hash n
      → o ≡ some (hash n)
      → not (has_hash block_hash h o) ≡ false
  has_known_hash h n o e f = rw (e, f) (ground (arith, there n))

  -- What a batch that passed is.
  pub record Passed (boundary : List ℕ) (c : Canonical) : Type 0 where
    pub hashes : Agrees boundary c.boundary_hashes
    pub last : c.checkpoint_hash ≡ hash (last_of 0 boundary)

  or_zero-some : (o : Option ℕ) (n : ℕ) → o ≡ some n → or_zero block_hash o ≡ n
  or_zero-some o n e = rw e

  pub Gives-assert_canonical_log_batch :
      (ws : List Window) (logs : List WatchLog) (before : Table ℕ ℕ) (s : S)
      → let boundary = add_ids [] (ends_of ws) in
        has (λ j. j == last_of 0 boundary) boundary ≡ true
        → Agrees boundary before
        → All OnChain logs
        → P s
        → Gives P (Passed boundary) (assert_canonical_log_batch block_hash ws logs before s)
  unfolding assert_canonical_log_batch check_boundary check_log
  Gives-assert_canonical_log_batch ws logs before s last known on p =
      let boundary = add_ids [] (ends_of ws) in
      let blocks = map (λ l. l.block_number) logs in
      let left : (n : ℕ) → Asked boundary n → Asked (boundary ++ blocks) n =
        λ n e. ground (arith, e, has-append n boundary blocks) in
      let right : (n : ℕ) → Asked blocks n → Asked (boundary ++ blocks) n =
        λ n e. ground (arith, e, has-append n boundary blocks) in
      Gives-after P P _ _ _ _ (Gives-canonical_block_hashes (boundary ++ blocks) s p) λ t s agree p.
        Gives-after P P Any _ _ _
          (Gives-each P (Asked boundary) _
            (λ n s e p.
              Gives-throw_if P _ _ s (agrees_same n _ _ (known n e) (agree n (left n e))) p)
            boundary s (All-Asked boundary boundary (λ n e. e)) p)
          λ _ s _ p.
            Gives-after P P Any _ _ _
              (Gives-each P (Known (boundary ++ blocks)) _
                (λ l s e p.
                  Gives-throw_if P _ _ s
                    (has_known_hash l.block_hash l.block_number _ e.1 (agree l.block_number e.0)) p)
                logs s (All-Known (boundary ++ blocks) logs right on) p)
              λ _ s _ p. Gives-give P (Passed boundary) _ s p (record {
                hashes = λ n e. agree n (left n e);
                last = or_zero-some _ _ (agree _ (left _ last));
              })
