-- ===== src/Keeper/Lifecycle/Guards.antt =====
-- A draw is started only when its period is over, and a seed asked for again only after its timeout.
use everdraw.Base.{
  ℕ, ◌+◌, ◌≡◌, refl, Bool, true, false, not, ◌||◌, List, arith, ltb, ◌==◌, if◌then◌else◌,
  Bool-cases, inl, inr, String, Option, none, some,
}
use everdraw.Keeper.Claims.Errors.{ClaimError}
use everdraw.Keeper.Actions.{
  Query, Tx, Chain, Event, State, Action, Preview, ◌>>=◌, ◌>>◌, give, throw, try_catch, on_world,
  rpc_read, note, answered, submitted, write_chain_id, timestamp, seed_requested_at,
  randomness_oracle, oracle_fee, seed_request_timeout, next_period_start, draw_period, start_draw,
  rerequest_seed, is_twab_not_finalized, is_insufficient_oracle_fee,
}
use everdraw.Keeper.Actions.Trace.{
  Logged, Ready, Justified, Kept, Ready-Kept, Any, Good, Good-after, Good-recover, Good-same,
  Good-answer, log-rpc_read, Good-submitted, Good-on_world,
}
use everdraw.Keeper.Lifecycle.{
  Config, ask, send, start_draw_failed, start_due_draw, start_previewed, maybe_start_draw,
  maybe_rerequest_seed, buffered_oracle_fee,
}

module _ {W : Type 0} (chain : Chain W) (config : Config) where
  pub Good-ask :
      (label : String) (q : Query) (s : State W)
      → Justified s.log
      → Good s.log (λ n log. Logged (answered q n) log) (ask chain config label q s)
  unfolding ask
  Good-ask label q s j = Good-answer label config.rpc_retries q (chain.query q) s j

  pub Good-give : {A : Type 0} (a : A) (s : State W) → Justified s.log → Good s.log Any (give a s)
  Good-give a s j = Good-same s (give a s) j refl

  pub Good-throw :
      {A : Type 0} (e : ClaimError) (s : State W)
      → Justified s.log
      → Good s.log (Any {A = A}) (throw e s)
  Good-throw e s j = Good-same s (throw e s) j refl

  pub Good-send :
      (label : String) (tx : Tx) (s : State W)
      → Justified s.log
      → Ready s.log tx
      → Good s.log Any (send chain config label tx s)
  unfolding send
  Good-send label tx s j ready =
      Good-after s.log _ Any (ask chain config "writeProvider.getNetwork" write_chain_id s) _
        (Good-ask "writeProvider.getNetwork" write_chain_id s j)
        λ network t jt kt _. elim (Bool-cases (network == config.expected_chain_id)) [
          | inl same ↦ rw same (
              Good-after t.log Any Any (note (submitted tx) t) _
                (Good-submitted tx t jt (Ready-Kept tx s.log t.log kt ready))
                λ _ u ju ku _.
                  Good-after u.log Any Any (on_world (chain.submit tx) u) _
                    (Good-on_world (chain.submit tx) u ju)
                    λ status v jv kv _. elim (Bool-cases (status == 1)) [
                      | inl mined ↦ rw mined (Good-give tt v jv)
                      | inr reverted ↦ rw reverted (Good-throw _ v jv)
                    ])
          | inr other ↦ rw other (Good-throw _ t jt)
        ]

  pub Good-if :
      {A : Type 0} (b : Bool) (m n : Action W A) (s : State W)
      → (b ≡ true → Good s.log Any (m s))
      → (b ≡ false → Good s.log Any (n s))
      → Good s.log Any ((if b then m else n) s)
  Good-if true m n s h k = h refl
  Good-if false m n s h k = k refl

  -- A condition that ends the action.
  pub Good-unless :
      {A : Type 0} (b : Bool) (a : A) (m : Action W A) (s : State W)
      → Justified s.log
      → (b ≡ false → Good s.log Any (m s))
      → Good s.log Any ((if b then give a else m) s)
  Good-unless b a m s j h = Good-if b (give a) m s (λ _. Good-give a s j) h

  -- The same, where it throws.
  pub Good-throws :
      {A : Type 0} (b : Bool) (e : ClaimError) (m : Action W A) (s : State W)
      → Justified s.log
      → (b ≡ false → Good s.log Any (m s))
      → Good s.log Any ((if b then throw e else m) s)
  Good-throws b e m s j h = Good-if b (throw e) m s (λ _. Good-throw e s j) h

  -- A transaction that ends the action with `true`.
  pub Good-send-true :
      (label : String) (tx : Tx) (s : State W)
      → Justified s.log
      → Ready s.log tx
      → Good s.log Any ((send chain config label tx >> give true) s)
  Good-send-true label tx s j ready =
      Good-after s.log Any Any (send chain config label tx s) _ (Good-send label tx s j ready)
        λ _ t jt kt _. Good-give true t jt

  -- A read, and what follows it.
  pub Good-ask_then :
      {A : Type 0} (label : String) (q : Query) (f : ℕ → Action W A) (s : State W)
      → Justified s.log
      → ((n : ℕ) (t : State W)
          → Justified t.log
          → Kept s.log t.log
          → Logged (answered q n) t.log
          → Good t.log Any (f n t))
      → Good s.log Any ((ask chain config label q >>= f) s)
  Good-ask_then label q f s j k =
      Good-after s.log _ Any (ask chain config label q s) f (Good-ask label q s j) k

  pub Good-maybe_rerequest_seed :
      (draw_id status : ℕ) (s : State W)
      → Justified s.log
      → Good s.log Any (maybe_rerequest_seed chain config draw_id status s)
  unfolding maybe_rerequest_seed
  Good-maybe_rerequest_seed draw_id status s j =
      Good-unless (not (status == 1)) false _ s j λ awaiting.
        Good-ask_then _ timestamp _ s j λ now t jt kt is_now.
          Good-ask_then _ (seed_requested_at draw_id) _ t jt λ at u ju ku is_at.
            Good-ask_then _ seed_request_timeout _ u ju λ timeout v jv kv is_timeout.
              Good-unless ((at == 0) || ltb now (at + timeout)) false _ v jv λ due.
                Good-ask_then _ randomness_oracle _ v jv λ oracle x jx kx _.
                  Good-ask_then _ (oracle_fee oracle) _ x jx λ fee w jw kw _.
                    Good-send-true _ (rerequest_seed draw_id fee) w jw (
                      now,
                      at,
                      timeout,
                      kw _ (kx _ (kv _ (ku _ is_now))),
                      kw _ (kx _ (kv _ is_at)),
                      kw _ (kx _ is_timeout),
                      ground (arith, due),
                      ground (arith, due),
                    )

  -- A period that is over when it is asked for is over for every later transaction.
  PeriodOver : List Event → Type 0
  PeriodOver log = (value : ℕ) → Ready log (start_draw value)

  Good-start_draw_failed :
      (e : ClaimError) (s : State W)
      → Justified s.log
      → PeriodOver s.log
      → Good s.log Any (start_draw_failed chain config e s)
  unfolding start_draw_failed PeriodOver
  Good-start_draw_failed e s j over = Good-unless (is_twab_not_finalized e) false _ s j λ final.
      elim (Bool-cases (is_insufficient_oracle_fee e)) [
        | inl low ↦ rw low (
            Good-ask_then _ randomness_oracle _ s j λ oracle u ju ku _.
              Good-ask_then _ (oracle_fee oracle) _ u ju λ fee t jt kt _.
                Good-send-true _ (start_draw (buffered_oracle_fee fee)) t jt (
                  Ready-Kept (start_draw (buffered_oracle_fee fee)) u.log t.log kt (
                    Ready-Kept (start_draw (buffered_oracle_fee fee)) s.log u.log ku
                      (over (buffered_oracle_fee fee)))))
        | inr other ↦ rw other (Good-throw e s j)
      ]

  Good-start_due_draw :
      (p : Preview) (s : State W)
      → Justified s.log
      → PeriodOver s.log
      → Good s.log Any (start_due_draw chain config p s)
  unfolding start_due_draw PeriodOver
  Good-start_due_draw p s j over =
      let value = if p.will_skip then 0 else buffered_oracle_fee p.required_fee in
      Good-recover s.log ((send chain config "startDraw" (start_draw value) >> give true) s) _
        (Good-send-true "startDraw" (start_draw value) s j (over value))
        λ e t jt kt.
          Good-start_draw_failed e t jt λ v. Ready-Kept (start_draw v) s.log t.log kt (over v)

  -- The preview, `none` where the period's TWABs are not final yet.
  Good-preview :
      (s : State W)
      → Justified s.log
      → Good s.log Any (
          try_catch
            (rpc_read "manager.previewStartDraw" config.rpc_retries (on_world chain.preview)
              >>= λ p. give (some p))
            (λ e. if is_twab_not_finalized e then give none else throw e)
            s)
  Good-preview s j =
      Good-recover s.log
        ((rpc_read "manager.previewStartDraw" config.rpc_retries (on_world chain.preview) >>= λ p.
            give (some p))
          s)
        _
        (Good-after s.log Any Any
          (rpc_read "manager.previewStartDraw" config.rpc_retries (on_world chain.preview) s) _
          (Good-same s _ j (log-rpc_read _ config.rpc_retries chain.preview s s.log refl))
          λ p t jt kt _. Good-give (some p) t jt)
        λ e t jt kt. Good-unless (is_twab_not_finalized e) none _ t jt λ final. Good-throw e t jt

  Good-start_previewed :
      (preview : Option Preview) (s : State W)
      → Justified s.log
      → PeriodOver s.log
      → Good s.log Any (start_previewed chain config preview s)
  unfolding start_previewed
  Good-start_previewed none s j over = Good-give false s j
  Good-start_previewed (some p) s j over =
      Good-if p.due _ _ s (λ due. Good-start_due_draw p s j over) λ early. Good-give false s j

  pub Good-maybe_start_draw :
      (s : State W) → Justified s.log → Good s.log Any (maybe_start_draw chain config s)
  unfolding maybe_start_draw PeriodOver
  Good-maybe_start_draw s j = Good-ask_then _ timestamp _ s j λ now t jt kt is_now.
      Good-ask_then _ next_period_start _ t jt λ start u ju ku is_start.
        Good-ask_then _ draw_period _ u ju λ period v jv kv is_period.
          Good-unless (ltb now (start + period)) false _ v jv λ due.
            let over : PeriodOver v.log = λ value. (
              now,
              start,
              period,
              kv _ (ku _ is_now),
              kv _ is_start,
              is_period,
              ground (arith, due),
            ) in
            Good-after v.log Any Any _ _ (Good-preview v jv) λ preview w jw kw _.
              Good-start_previewed preview w jw
                λ value. Ready-Kept (start_draw value) v.log w.log kw (over value)
