-- ===== src/Keeper/Claims/Streaks.antt =====
-- The failure counter: how many times a claim has failed since it last succeeded.
use everdraw.Base.{
  ℕ, ◌+◌, ◌≡◌, refl, ap, ◌∙◌, String, false, Option, none, some, List, [], ◌∷◌, arith, lookup, All,
  str_eq, eq_iff, if◌then◌else◌,
}
use everdraw.Keeper.Claims.{
  Entry, quarantined, retrying, ClaimRetryState, Op, quarantines, fails, clears, step, run,
  failures_of, holds_quarantine,
}
use everdraw.Keeper.Claims.Quarantine.{holds_retry, lookup-quarantine, lookup-fails, lookup-clears}

-- The calls' own account of the failures of `key` in a row, `n` of them before.
abbrev pub tally : String → ℕ → Op → ℕ
tally key n (quarantines _ _ _ _ _ _) = n
tally key n (fails j _ _ _) = if str_eq j key then n + 1 else n
tally key n (clears j) = if str_eq j key then 0 else n

abbrev pub streak : String → ℕ → List Op → ℕ
streak key n [] = n
streak key n (op ∷ ops) = streak key (tally key n op) ops

-- The call does not quarantine `key`.
abbrev pub Spares : String → Op → Type 0
Spares key (quarantines j _ _ _ _ _) = str_eq j key ≡ false
Spares key (fails _ _ _ _) = Unit {0}
Spares key (clears _) = Unit {0}

free_retry :
    (o : Option Entry) → holds_quarantine o ≡ false → holds_retry o ≡ false → failures_of o ≡ 0
free_retry none h k = refl
free_retry (some (quarantined _ _ _ _ _)) h k = cc
free_retry (some (retrying _ _ _ _)) h k = cc

step-tally :
    (op : Op) (s : ClaimRetryState) (key : String)
    → holds_quarantine (lookup key s.claims) ≡ false
    → Spares key op
    → (failures_of (lookup key (step s op).claims)
        ≡ tally key (failures_of (lookup key s.claims)) op)
      × (holds_quarantine (lookup key (step s op).claims) ≡ false)
unfolding step
step-tally (quarantines j d sel name m now) s key h sp =
    ground (arith, h, sp, lookup-quarantine s j key d sel name m now)
step-tally (fails j d m now) s key h sp =
    ground (arith, h, eq_iff j key, lookup-fails s j key d m now)
step-tally (clears j) s key h sp =
    ground (arith, h, eq_iff j key, lookup-clears s j key, free_retry (lookup key s.claims) h)

-- While a claim is not quarantined, its counter is the number of its failures since the last
-- success, whatever is called for other claims in between.
pub run-streak :
    (ops : List Op) (s : ClaimRetryState) (key : String)
    → holds_quarantine (lookup key s.claims) ≡ false
    → All (Spares key) ops
    → (failures_of (lookup key (run s ops).claims)
        ≡ streak key (failures_of (lookup key s.claims)) ops)
      × (holds_quarantine (lookup key (run s ops).claims) ≡ false)
unfolding run
run-streak [] s key h sp = (refl, h)
run-streak (op ∷ ops) s key h sp =
    let (count, free) = step-tally op s key h sp.0 in
    let (rest, still) = run-streak ops (step s op) key free sp.1 in
    (rest ∙ ap (λ n. streak key n ops) count, still)
