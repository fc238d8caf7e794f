-- ===== src/Keeper/Claims/Quarantine.antt =====
-- A quarantine lasts, and is counted once.
use everdraw.Base.{
  ℕ, ◌+◌, ◌≡◌, refl, String, Bool, true, false, Option, none, some, List, [], ◌∷◌, arith, lookup,
  count_values-put, lookup-put, lookup-remove, str_eq, eq_iff, eq_refl, one_if, if◌then◌else◌, ◌&&◌,
  not, Bool-cases, inl, inr,
}
use everdraw.Keeper.Claims.{
  Entry, quarantined, retrying, ClaimRetryState, is_quarantined, quarantine, record_failure,
  record_transient_failure, clear_failure, clear_transient_failure, quarantined_count, Op,
  quarantines, fails, clears, step, run, is_quarantined_entry, next_failure, holds_quarantine,
}

-- What each call leaves at a key.
pub lookup-quarantine :
    (s : ClaimRetryState) (j key : String) (d : ℕ) (sel e m : String) (now : ℕ)
    → lookup key (quarantine s j d sel e m now).0.claims ≡ (
        if holds_quarantine (lookup j s.claims)
        then lookup key s.claims
        else if str_eq j key
        then some (quarantined d sel e m now)
        else lookup key s.claims)
unfolding quarantine
lookup-quarantine s j key d sel e m now =
    ground (arith, lookup-put j key (quarantined d sel e m now) s.claims)

lookup-record_failure :
    (o : Option Entry) (s : ClaimRetryState) (j key : String) (d : ℕ) (m : String) (now : ℕ)
    → lookup key (record_failure o s j d m now).0.claims ≡ (
        if holds_quarantine o
        then lookup key s.claims
        else if str_eq j key
        then some (next_failure o d m now)
        else lookup key s.claims)
unfolding record_failure
lookup-record_failure none s j key d m now = lookup-put j key _ s.claims
lookup-record_failure (some (quarantined _ _ _ _ _)) s j key d m now = refl
lookup-record_failure (some (retrying _ _ _ _)) s j key d m now = lookup-put j key _ s.claims

pub lookup-fails :
    (s : ClaimRetryState) (j key : String) (d : ℕ) (m : String) (now : ℕ)
    → lookup key (record_transient_failure s j d m now).0.claims ≡ (
        if holds_quarantine (lookup j s.claims)
        then lookup key s.claims
        else if str_eq j key
        then some (next_failure (lookup j s.claims) d m now)
        else lookup key s.claims)
unfolding record_transient_failure
lookup-fails s j key d m now = lookup-record_failure (lookup j s.claims) s j key d m now

abbrev pub holds_retry : Option Entry → Bool
holds_retry (some (retrying _ _ _ _)) = true
holds_retry _ = false

lookup-clear_failure :
    (o : Option Entry) (s : ClaimRetryState) (j key : String)
    → lookup key (clear_failure o s j).0.claims
      ≡ (if holds_retry o && str_eq j key then none else lookup key s.claims)
unfolding clear_failure
lookup-clear_failure none s j key = refl
lookup-clear_failure (some (quarantined _ _ _ _ _)) s j key = refl
lookup-clear_failure (some (retrying _ _ _ _)) s j key = lookup-remove j key s.claims

pub lookup-clears :
    (s : ClaimRetryState) (j key : String)
    → lookup key (clear_transient_failure s j).0.claims
      ≡ (if holds_retry (lookup j s.claims) && str_eq j key then none else lookup key s.claims)
unfolding clear_transient_failure
lookup-clears s j key = lookup-clear_failure (lookup j s.claims) s j key

step-quarantined :
    (s : ClaimRetryState) (op : Op) (key : String) (d : ℕ) (sel e m : String) (at : ℕ)
    → lookup key s.claims ≡ some (quarantined d sel e m at)
    → lookup key (step s op).claims ≡ some (quarantined d sel e m at)
unfolding step
step-quarantined s (quarantines j d' sel' name m' now) key d sel e m at h =
    ground (arith, h, eq_iff j key, lookup-quarantine s j key d' sel' name m' now)
step-quarantined s (fails j d' m' now) key d sel e m at h =
    ground (arith, h, eq_iff j key, lookup-fails s j key d' m' now)
step-quarantined s (clears j) key d sel e m at h =
    ground (arith, h, eq_iff j key, lookup-clears s j key)

-- Once a claim is quarantined it stays so, with the error it was quarantined for, whatever calls
-- follow, for this claim or for others.
pub run-quarantined :
    (ops : List Op) (s : ClaimRetryState) (key : String) (d : ℕ) (sel e m : String) (at : ℕ)
    → lookup key s.claims ≡ some (quarantined d sel e m at)
    → lookup key (run s ops).claims ≡ some (quarantined d sel e m at)
unfolding run
run-quarantined [] s key d sel e m at h = h
run-quarantined (op ∷ ops) s key d sel e m at h =
    run-quarantined ops (step s op) key d sel e m at (step-quarantined s op key d sel e m at h)

one_if-free : (o : Option Entry) → holds_quarantine o ≡ false → one_if is_quarantined_entry o ≡ 0
one_if-free none h = refl
one_if-free (some (quarantined _ _ _ _ _)) h = cc
one_if-free (some (retrying _ _ _ _)) h = refl

-- `quarantine` says whether it added to the number of quarantined claims: it adds exactly one when
-- it returns true, and then the claim is quarantined; when it returns false it changes nothing, and
-- the claim was quarantined before.
pub quarantine-count :
    (s : ClaimRetryState) (key : String) (d : ℕ) (sel e m : String) (now : ℕ)
    → let r = quarantine s key d sel e m now in
      (quarantined_count r.0 ≡ quarantined_count s + (if r.1 then 1 else 0))
      × (is_quarantined r.0 key ≡ true)
      × (is_quarantined s key ≡ not r.1)
unfolding quarantine quarantined_count is_quarantined
quarantine-count s key d sel e m now = elim (Bool-cases (holds_quarantine (lookup key s.claims))) [
  | inl held ↦ rw held (omega arith, held, refl)
  | inr free ↦ rw free (
    omega (
      arith,
      count_values-put is_quarantined_entry key (quarantined d sel e m now) s.claims,
      one_if-free (lookup key s.claims) free,
    ),
    rw (lookup-put key key (quarantined d sel e m now) s.claims, eq_refl key),
    refl,
  )
]
