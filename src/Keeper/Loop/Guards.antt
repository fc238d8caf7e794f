-- ===== src/Keeper/Loop/Guards.antt =====
-- One round of the keeper sends nothing before its time.
use everdraw.Base.{
  ℕ, zero, suc, refl, String, Bool, false, not, ◌&&◌, ◌||◌, List, [], ◌∷◌, ltb, ◌==◌, ok, err,
  Result, pos,
}
use everdraw.Keeper.Thresholds.{derive_keeper_balance_thresholds}
use everdraw.Keeper.Claims.{is_quarantined, ThresholdError}
use everdraw.Keeper.Claims.Settle.{Attempt}
use everdraw.Keeper.Actions.{
  ◌>>=◌, Chain, State, give, on_world, rpc_read, chain_id, block_number, balance, code_of, wired,
  randomness_oracle, oracle_fee, current_draw_id, draw_status,
}
use everdraw.Keeper.Actions.Trace.{
  Justified, Any, Good, Good-after, Good-recover, Good-same, Good-on_world, log-rpc_read,
}
use everdraw.Keeper.Lifecycle.{ask, Config, raise}
use everdraw.Keeper.Lifecycle.Guards.{
  Good-give, Good-throw, Good-if, Good-unless, Good-throws, Good-ask_then, Good-maybe_start_draw,
}
use everdraw.Keeper.Settlement.Guards.{
  Good-raise, Good-maybe_finalize, Good-maybe_claim, Good-reconcile_lifecycle_draw,
}
use everdraw.Keeper.Loop.{
  Settings, check_code, read_wiring, assert_wired, check_balance, preflight, finalize_pass,
  outstanding_pass, settled, settle, try_claim, of_thresholds, claim_draw, claim_pass, passes,
  run_once, first_recent_draw_id, claim_draw_ids,
}

module _ {W : Type 0} (chain : Chain W) (settings : Settings) where
  abbrev config : Config
  config = settings.config

  Good-check_code :
      (addresses : List ℕ) (s : State W)
      → Justified s.log
      → Good s.log Any (check_code chain settings addresses s)
  unfolding check_code
  Good-check_code [] s j = Good-give chain config tt s j
  Good-check_code (a ∷ addresses) s j =
      Good-ask_then chain config _ (code_of a) _ s j λ code t jt kt _.
        Good-throws chain config (code == 0) _ _ t jt λ some_code. Good-check_code addresses t jt

  Good-read_wiring :
      (getters : List (String × ℕ)) (s : State W)
      → Justified s.log
      → Good s.log Any (read_wiring chain settings getters s)
  unfolding read_wiring
  Good-read_wiring [] s j = Good-give chain config [] s j
  Good-read_wiring (g ∷ getters) s j =
      Good-ask_then chain config _ (wired g.0) _ s j λ actual t jt kt _.
        Good-after t.log Any Any _ _ (Good-read_wiring getters t jt)
          λ rest u ju ku _. Good-give chain config _ u ju

  Good-assert_wired :
      (pairs : List (ℕ × ℕ)) (s : State W)
      → Justified s.log
      → Good s.log Any (assert_wired chain settings pairs s)
  unfolding assert_wired
  Good-assert_wired [] s j = Good-give chain config tt s j
  Good-assert_wired (p ∷ pairs) s j =
      Good-if chain config (p.0 == p.1) _ _ s (λ _. Good-assert_wired pairs s j)
        λ _. Good-throw chain config _ s j

  Good-finalize_pass :
      (draw_id n : ℕ) (s : State W)
      → Justified s.log
      → Good s.log Any (finalize_pass chain settings draw_id n s)
  unfolding finalize_pass
  Good-finalize_pass draw_id zero s j = Good-give chain config [] s j
  Good-finalize_pass draw_id (suc n) s j =
      Good-ask_then chain config _ (draw_status draw_id) _ s j λ status t jt kt _.
        Good-after t.log Any Any _ _
          (Good-if chain config (status == 3) _ _ t
            (λ _. Good-maybe_finalize chain config draw_id t jt)
            λ _. Good-give chain config false t jt)
          λ finalized u ju ku _.
            Good-after u.log Any Any _ _ (Good-finalize_pass (suc draw_id) n u ju)
              λ rest v jv kv _. Good-give chain config _ v jv

  Good-outstanding_pass :
      (proposed : Bool) (draw_id n : ℕ) (s : State W)
      → Justified s.log
      → Good s.log Any (outstanding_pass chain settings proposed draw_id n s)
  unfolding outstanding_pass
  Good-outstanding_pass proposed draw_id zero s j = Good-give chain config false s j
  Good-outstanding_pass proposed draw_id (suc n) s j =
      Good-ask_then chain config _ (draw_status draw_id) _ s j λ status t jt kt _.
        Good-after t.log Any Any _ _
          (Good-unless chain config
            (not ((status == 1) || (status == 2)) || ((status == 2) && proposed)) false _ t jt
            λ _. Good-reconcile_lifecycle_draw chain config draw_id status t jt)
          λ did_act u ju ku _.
            Good-after u.log Any Any _ _
              (Good-outstanding_pass (proposed || (did_act && (status == 2))) (suc draw_id) n u ju)
              λ rest v jv kv _. Good-give chain config _ v jv

  Good-settled :
      (r : Result ThresholdError (Attempt × Bool)) (s : State W)
      → Justified s.log
      → Good s.log Any (settled chain settings r s)
  unfolding settled
  Good-settled (ok r) s j = Good-same s _ j refl
  Good-settled (err e) s j = Good-same s _ j refl

  -- A claim that throws leaves its log to the handlers.
  Good-try_claim :
      (draw_id : ℕ) (s : State W)
      → Justified s.log
      → Good s.log Any (try_claim chain settings draw_id s)
  unfolding try_claim
  Good-try_claim draw_id s j =
      let claim = Good-maybe_claim chain config draw_id s j in
      record { justified = claim.justified; kept = claim.kept; result = tt }

  Good-claim_draw :
      (draw_id : ℕ) (s : State W)
      → Justified s.log
      → Good s.log Any (claim_draw chain settings draw_id s)
  unfolding claim_draw settle
  Good-claim_draw draw_id s j =
      Good-if chain config (is_quarantined s.attempt.state (settings.state_key draw_id))
        (give false) _ s (λ _. Good-give chain config false s j)
        λ _. Good-ask_then chain config _ (draw_status draw_id) _ s j λ status t jt kt _.
          Good-if chain config (status == 4) _ _ t
            (λ _.
              Good-after t.log Any Any _ _ (Good-try_claim draw_id t jt)
                λ claim u ju ku _. Good-settled _ u ju)
            λ _. Good-give chain config false t jt

  Good-claim_pass :
      (draws : List ℕ) (s : State W)
      → Justified s.log
      → Good s.log Any (claim_pass chain settings draws s)
  unfolding claim_pass
  Good-claim_pass [] s j = Good-give chain config false s j
  Good-claim_pass (draw_id ∷ draws) s j =
      Good-after s.log Any Any _ _ (Good-claim_draw draw_id s j) λ claimed t jt kt _.
        Good-after t.log Any Any _ _ (Good-claim_pass draws t jt)
          λ rest u ju ku _. Good-give chain config _ u ju

  Good-passes :
      (current : ℕ) (s : State W)
      → Justified s.log
      → Good s.log Any (passes chain settings current s)
  unfolding passes
  Good-passes current s j =
      Good-after s.log Any Any _ _ (Good-finalize_pass 1 current s j) λ finalized t jt kt _.
        Good-after t.log Any Any _ _ (Good-maybe_start_draw chain config t jt) λ started u ju ku _.
          Good-ask_then chain config _ current_draw_id _ u ju λ after_start v jv kv _.
            Good-after v.log Any Any _ _ (Good-outstanding_pass false 1 after_start v jv)
              λ acted w jw kw _.
                Good-after w.log Any Any _ _
                  (Good-raise chain config
                    (first_recent_draw_id after_start settings.recent_claim_window) w jw)
                  λ first x jx kx _.
                    Good-after x.log Any Any _ _
                      (Good-claim_pass (claim_draw_ids finalized first after_start) x jx)
                      λ claimed y jy ky _. Good-give chain config _ y jy

  Good-check_balance :
      (s : State W) → Justified s.log → Good s.log Any (check_balance chain settings s)
  unfolding check_balance
  Good-check_balance s j =
      let call = λ (oracle : ℕ).
        rpc_read "oracle.getFee(balance threshold)" 0
          (on_world (chain.query (oracle_fee oracle))) in
      Good-after s.log Any Any _ _
        (Good-recover s.log
          ((ask chain config "manager.randomnessOracle" randomness_oracle >>= call) s) (λ e. give 0)
          (Good-ask_then chain config _ randomness_oracle _ s j λ oracle x jx kx _.
            Good-same x (call oracle x) jx
              (log-rpc_read _ 0 (chain.query (oracle_fee oracle)) x x.log refl))
          λ e t jt kt. Good-give chain config 0 t jt)
        λ fee t jt kt _.
          let derived =
            derive_keeper_balance_thresholds
              (record settings.thresholds { oracle_fee_wei = pos fee }) in
          Good-after t.log Any Any (raise (of_thresholds derived) t) _
            (Good-raise chain config (of_thresholds derived) t jt)
            λ thresholds u ju ku _.
              Good-ask_then chain config _ (balance config.signer_address) _ u ju λ held v jv kv _.
                Good-throws chain config (ltb held thresholds.floor_wei) _ _ v jv
                  λ enough. Good-give chain config tt v jv

  Good-preflight : (s : State W) → Justified s.log → Good s.log Any (preflight chain settings s)
  unfolding preflight
  Good-preflight s j = Good-ask_then chain config _ chain_id _ s j λ network t jt kt _.
      Good-after t.log Any Any _ _
        (Good-if chain config (not (network == config.expected_chain_id)) _ _ t
          (λ _. Good-throw chain config _ t jt) λ _. Good-give chain config tt t jt)
        λ _ u ju ku _.
          Good-after u.log Any Any _ _ (Good-check_code settings.addresses u ju) λ _ v jv kv _.
            Good-after v.log Any Any _ _ (Good-read_wiring settings.wiring v jv) λ pairs w jw kw _.
              Good-after w.log Any Any _ _ (Good-assert_wired pairs w jw) λ _ x jx kx _.
                Good-after x.log Any Any _ _ (Good-check_balance x jx) λ _ y jy ky _.
                  Good-ask_then chain config _ block_number _ y jy
                    λ latest z jz kz _. Good-on_world (chain.sync_participants latest) z jz

  -- Whatever the chain answers, fails or does meanwhile, one round of the keeper sends no
  -- transaction before its time: none of those it has sent by the end, in success or by an error,
  -- was sent unless the chain had answered what it takes. A draw is started when its period is over;
  -- a seed is asked for again after its timeout; a root is proposed for a draw seen as seeded, made
  -- final for one seen as proposed whose challenge window is over, and claimed from for one seen as
  -- final.
  pub run_once-Justified :
      (s : State W) → Justified s.log → Justified (run_once chain settings s).1.log
  unfolding run_once
  run_once-Justified s j =
      let good : Good s.log Any (run_once chain settings s) =
        (Good-after s.log Any Any (preflight chain settings s) _ (Good-preflight s j) λ _ t jt kt _.
          Good-ask_then chain config _ current_draw_id _ t jt λ current u ju ku _.
            Good-if chain config (current == 0) _ _ u (λ _. Good-maybe_start_draw chain config u ju)
              λ _. Good-passes current u ju) in
      good.justified
