-- ===== src/Keeper/Actions/Trace.antt =====
-- What a transaction rests on, and how an action keeps the log justified: from a state whose log is
-- justified it comes to one whose log is, without losing an entry.
use everdraw.Base.{
  ℕ, zero, suc, ◌+◌, ◌≤◌, ◌≡◌, ◌≢◌, refl, List, [], ◌∷◌, Bool-cases, inl, inr, ◌⊎◌, ok, err, Result,
  String,
}
use everdraw.Keeper.Claims.Errors.{ClaimError}
use everdraw.Keeper.Actions.{
  Query, Tx, Event, State, Action, ◌>>◌, after, recover, give, on_world, rpc_read, note,
  is_twab_not_finalized, answered, submitted, timestamp, draw_status, challenge_ends_at,
  seed_requested_at, seed_request_timeout, next_period_start, draw_period, start_draw,
  rerequest_seed, propose_root, finalize_root, claim_many,
}

-- The event stands in the log.
abbrev pub Logged : Event → List Event → Type 0
Logged e [] = ⊥
Logged e (f ∷ log) = (e ≡ f) ⊎ Logged e log

-- What must have been answered before a transaction is sent.
abbrev pub Ready : List Event → Tx → Type 0
Ready log (start_draw value) =
    (now : ℕ) × (start : ℕ) × (period : ℕ) × Logged (answered timestamp now) log
    × Logged (answered next_period_start start) log
    × Logged (answered draw_period period) log
    × (start + period ≤ now)
Ready log (rerequest_seed draw_id value) =
    (now : ℕ) × (at : ℕ) × (timeout : ℕ) × Logged (answered timestamp now) log
    × Logged (answered (seed_requested_at draw_id) at) log
    × Logged (answered seed_request_timeout timeout) log
    × (at ≢ 0)
    × (at + timeout ≤ now)
Ready log (propose_root draw_id root leaf_count total_payout) =
    Logged (answered (draw_status draw_id) 2) log
Ready log (finalize_root draw_id) =
    (now : ℕ) × (ends : ℕ) × Logged (answered (draw_status draw_id) 3) log
    × Logged (answered timestamp now) log
    × Logged (answered (challenge_ends_at draw_id) ends) log
    × (ends ≤ now)
Ready log (claim_many draw_id leaves proofs) = Logged (answered (draw_status draw_id) 4) log

-- Each transaction of the log was ready, given the log before it.
abbrev pub Justified : List Event → Type 0
Justified [] = Unit {0}
Justified (answered q n ∷ log) = Justified log
Justified (submitted tx ∷ log) = Ready log tx × Justified log

-- No entry of `log` is lost in `log'`.
abbrev pub Kept : List Event → List Event → Type 0
Kept log log' = (e : Event) → Logged e log → Logged e log'

pub Ready-Kept : (tx : Tx) (log log' : List Event) → Kept log log' → Ready log tx → Ready log' tx
Ready-Kept (start_draw v) log log' k (now, start, period, a, b, c, le) =
    (now, start, period, k _ a, k _ b, k _ c, le)
Ready-Kept (rerequest_seed d v) log log' k (now, at, timeout, a, b, c, ne, le) =
    (now, at, timeout, k _ a, k _ b, k _ c, ne, le)
Ready-Kept (propose_root d r n p) log log' k h = k _ h
Ready-Kept (finalize_root d) log log' k (now, ends, a, b, c, le) =
    (now, ends, k _ a, k _ b, k _ c, le)
Ready-Kept (claim_many d ls ps) log log' k h = k _ h

abbrev pub OnOk :
    {A : Type 0} → (A → List Event → Type 0) → Result ClaimError A → List Event → Type 0
OnOk Q (ok a) log = Q a log
OnOk Q (err e) log = Unit {0}

abbrev pub Any : {A : Type 0} → A → List Event → Type 0
Any a log = Unit {0}

module _ {W : Type 0} where
  -- Where an action that began with `log` may end; `Q` is what its result says of the log.
  pub record Good {A : Type 0} (log : List Event) (Q : A → List Event → Type 0)
      (r : Result ClaimError A × State W) : Type 0 where
    pub justified : Justified r.1.log
    pub kept : Kept log r.1.log
    pub result : OnOk Q r.0 r.1.log

  pub Good-after :
      {A B : Type 0} (log : List Event) (Q : A → List Event → Type 0) (R : B → List Event → Type 0)
      (r : Result ClaimError A × State W) (f : A → Action W B)
      → Good log Q r
      → ((a : A) (s : State W)
          → Justified s.log
          → Kept log s.log
          → Q a s.log
          → Good s.log R (f a s))
      → Good log R (after r f)
  Good-after log Q R (ok a, s) f h k =
      let rest = k a s h.justified h.kept h.result in
      record {
        justified = rest.justified;
        kept = λ e i. rest.kept e (h.kept e i);
        result = rest.result;
      }
  Good-after log Q R (err e, s) f h k = record {
    justified = h.justified;
    kept = h.kept;
    result = tt;
  }

  pub Good-recover :
      {A : Type 0} (log : List Event) (r : Result ClaimError A × State W)
      (f : ClaimError → Action W A)
      → Good log Any r
      → ((e : ClaimError) (s : State W) → Justified s.log → Kept log s.log → Good s.log Any (f e s))
      → Good log Any (recover r f)
  Good-recover log (ok a, s) f h k = h
  Good-recover log (err e, s) f h k =
      let rest = k e s h.justified h.kept in
      record {
        justified = rest.justified;
        kept = λ e i. rest.kept e (h.kept e i);
        result = rest.result;
      }

  pub Good-same :
      {A : Type 0} (s : State W) (r : Result ClaimError A × State W)
      → Justified s.log
      → r.1.log ≡ s.log
      → Good s.log Any r
  Good-same s (ok a, t) j e = record { justified = rw e j; kept = λ f i. rw e i; result = tt }
  Good-same s (err x, t) j e = record { justified = rw e j; kept = λ f i. rw e i; result = tt }

  log-recover :
      {A : Type 0} (l : List Event) (r : Result ClaimError A × State W)
      (f : ClaimError → Action W A)
      → r.1.log ≡ l
      → ((e : ClaimError) (s : State W) → s.log ≡ l → (f e s).1.log ≡ l)
      → (recover r f).1.log ≡ l
  log-recover l (ok a, s) f e k = e
  log-recover l (err x, s) f e k = k x s e

  pub log-rpc_read :
      {A : Type 0} (label : String) (retries : ℕ) (call : W → Result ClaimError A × W) (s : State W)
      (l : List Event)
      → s.log ≡ l
      → (rpc_read label retries (on_world call) s).1.log ≡ l
  unfolding rpc_read
  log-rpc_read label zero call s l e = log-recover l (on_world call s) _ e (λ x t h. h)
  log-rpc_read label (suc n) call s l e = log-recover l (on_world call s) _ e λ x t h.
      elim (Bool-cases (is_twab_not_finalized x)) [
        | inl twab ↦ rw twab h
        | inr other ↦ rw other (log-rpc_read label n call t l h)
      ]

  -- One read, retries included, and the note of its answer.
  pub Good-answer :
      (label : String) (retries : ℕ) (q : Query) (call : W → Result ClaimError ℕ × W) (s : State W)
      → Justified s.log
      → Good s.log
          (λ n log. Logged (answered q n) log)
          (after (rpc_read label retries (on_world call) s) (λ n. note (answered q n) >> give n))
  unfolding note
  Good-answer label retries q call s j =
      Good-after s.log Any _ (rpc_read label retries (on_world call) s) _
        (Good-same s _ j (log-rpc_read label retries call s s.log refl))
        λ n t jt kt any. record { justified = jt; kept = λ e i. inr i; result = inl refl }

  pub Good-submitted :
      (tx : Tx) (s : State W)
      → Justified s.log
      → Ready s.log tx
      → Good s.log Any (note (submitted tx) s)
  unfolding note
  Good-submitted tx s j ready = record { justified = (ready, j); kept = λ e i. inr i; result = tt }

  pub Good-on_world :
      {A : Type 0} (call : W → Result ClaimError A × W) (s : State W)
      → Justified s.log
      → Good s.log Any (on_world call s)
  Good-on_world call s j = Good-same s (on_world call s) j refl
