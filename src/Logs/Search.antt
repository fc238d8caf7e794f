-- ===== src/Logs/Search.antt =====
-- scripts/draw/write-watch-inputs.mjs, `blockAtOrAfterTimestamp`: the search for the first block at
-- or after a time. `get_block` is the timestamp of a block, none if the chain has no such block; the
-- block's timestamp is the same whenever it is asked for. The numbers are all safe integers.
use everdraw.Base.{
  ℕ, zero, suc, ◌+◌, ◌-◌, ◌/◌, ◌≤◌, ◌<◌, ◌≡◌, refl, false, ◌⊎◌, Option, none, some, arith, ltb,
  ◌==◌, if◌then◌else◌, Bool-cases, inl, inr, Result, ok, err, ◌>>=◌,
}

pub data Error (E : Type 0) : Type 0 where
  thrown : E → Error E
  invalid_timestamp invalid_range missing_block out_of_fuel : Error E

module _ {E : Type 0} (get_block : ℕ → Result E (Option ℕ)) (target : ℕ) where
  abbrev timestamp_of : Result E (Option ℕ) → Result (Error E) ℕ
  timestamp_of (ok (some t)) = ok t
  timestamp_of (ok none) = err missing_block
  timestamp_of (err e) = err (thrown e)

  -- `while (low < high)`.
  search : (fuel low high : ℕ) → Result (Error E) ℕ
  search zero low high = err out_of_fuel
  search (suc fuel) low high =
      let mid = low + (high - low) / 2 in
      if ltb low high
      then (timestamp_of (get_block mid) >>= λ t.
          if ltb t target then search fuel (mid + 1) high else search fuel low mid)
      else ok low

  pub block_at_or_after_timestamp : (from_block to_block : ℕ) → Result (Error E) ℕ
  block_at_or_after_timestamp from_block to_block =
      if target == 0
      then err invalid_timestamp
      else if ltb to_block from_block
      then err invalid_range
      else search (to_block - from_block + 1) from_block to_block

  -- The first block of the range at or after the time, or the last block if all are earlier.
  pub record First (time : ℕ → ℕ) (from to block : ℕ) : Type 0 where
    pub low : from ≤ block
    pub high : block ≤ to
    pub before : (b : ℕ) → from ≤ b → b < block → time b < target
    pub here : (target ≤ time block) ⊎ (block ≡ to)

  module _ (time : ℕ → ℕ) (known : (b : ℕ) → get_block b ≡ ok (some (time b)))
      (ordered : (a b : ℕ) → a ≤ b → time a ≤ time b) where
    -- What is known of the range that is left, `low` to `high`, of the first one.
    record Left (from to low high : ℕ) : Type 0 where
      inside : from ≤ low
      some_block : low ≤ high
      within : high ≤ to
      before : (b : ℕ) → from ≤ b → b < low → time b < target
      past : (target ≤ time high) ⊎ (high ≡ to)

    search-First :
        (fuel from to low high : ℕ)
        → Left from to low high
        → high < low + fuel
        → (block : ℕ) × (search fuel low high ≡ ok block) × First time from to block
    unfolding search
    search-First zero from to low high l lt = absurd (omega (arith, l.some_block, lt))
    search-First (suc fuel) from to low high l lt = elim (Bool-cases (ltb low high)) [
      | inr one ↦
          let e : high ≡ low = ground (arith, one, l.some_block) in
          (
            low,
            rw one,
            record {
              low = l.inside;
              high = omega (arith, e, l.within);
              before = l.before;
              here = rw e at l.past;
            },
          )
      | inl more ↦
          let mid = low + (high - low) / 2 in
          let below : mid < high = ground (arith, more) in
          elim (Bool-cases (ltb (time mid) target)) [
            | inl early ↦
                let (block, run, first) =
                  search-First fuel from to (mid + 1) high
                    (record {
                      inside = omega (arith, l.inside);
                      some_block = omega (arith, below);
                      within = l.within;
                      before =
                          λ b ge lt'. ground (arith, early, ordered b mid (omega (arith, lt')));
                      past = l.past;
                    })
                    (omega (arith, lt)) in
                (block, rw (more, known mid, early) run, first)
            | inr late ↦
                let (block, run, first) =
                  search-First fuel from to low mid
                    (record {
                      inside = l.inside;
                      some_block = omega arith;
                      within = omega (arith, below, l.within);
                      before = l.before;
                      past = inl (ground (arith, late));
                    })
                    (omega (arith, below, lt)) in
                (block, rw (more, known mid, late) run, first)
          ]
    ]

    -- On a chain that answers every block and whose blocks come in the order of their timestamps, the
    -- search ends with the first block of the range at or after the time, or with the last block if all are earlier.
    pub block_at_or_after_timestamp-First :
        (from to : ℕ)
        → 0 < target
        → from ≤ to
        → (block : ℕ) × (block_at_or_after_timestamp from to ≡ ok block) × First time from to block
    unfolding block_at_or_after_timestamp
    block_at_or_after_timestamp-First from to p le =
        let valid : (target == 0) ≡ false = ground arith in
        let range : ltb to from ≡ false = ground arith in
        let (block, run, first) =
          search-First (to - from + 1) from to from to
            (record {
              inside = omega arith;
              some_block = le;
              within = omega arith;
              before = λ b ge lt. absurd (omega (arith, ge, lt));
              past = inr refl;
            })
            (omega (arith, le)) in
        (block, rw (valid, range) run, first)
