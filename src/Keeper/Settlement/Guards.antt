-- ===== src/Keeper/Settlement/Guards.antt =====
-- A root is proposed for a seeded draw only, made final after its challenge window, and claimed from
-- when it is final.
use everdraw.Base.{
  ℕ, zero, suc, ◌≡◌, refl, Bool, true, false, not, ◌&&◌, ◌||◌, List, [], ◌∷◌, map, arith, ltb, ◌==◌,
  ok, err, Result, or_throw, length, every,
}
use everdraw.Draw.Input.{RawInput}
use everdraw.Draw.Leaves.{Leaf, compute}
use everdraw.Keeper.Claims.Errors.{ClaimError}
use everdraw.Keeper.Actions.{
  Chain, State, Distribution, on_world, rpc_read, error, answered, timestamp, primary_proposer,
  draw_status, challenge_ends_at, is_claimed, propose_root, finalize_root, claim_many,
}
use everdraw.Keeper.Actions.Trace.{
  Logged, Justified, Any, Good, Good-after, Good-same, Good-on_world, log-rpc_read,
}
use everdraw.Keeper.Lifecycle.{Config, raise, of_draw, batches, unclaimed}
use everdraw.Keeper.Lifecycle.Guards.{
  Good-give, Good-throw, Good-if, Good-unless, Good-throws, Good-ask_then, Good-send,
  Good-send-true, Good-maybe_rerequest_seed,
}
use everdraw.Keeper.Settlement.{
  compute_with_python_parity, maybe_propose, maybe_finalize, claimed_flags, claim_batches,
  claim_unclaimed, maybe_claim, reconcile_lifecycle_draw,
}

equal_of : (a b : ℕ) → not (a == b) ≡ false → a ≡ b
equal_of a b e = ground (arith, e)

module _ {W : Type 0} (chain : Chain W) (config : Config) where
  pub Good-raise :
      {A : Type 0} (r : Result ClaimError A) (s : State W)
      → Justified s.log
      → Good s.log Any (raise r s)
  Good-raise (ok a) s j = Good-give chain config a s j
  Good-raise (err e) s j = Good-throw chain config e s j

  Good-compute :
      (input : RawInput) (s : State W)
      → Justified s.log
      → Good s.log Any (compute_with_python_parity chain config input s)
  unfolding compute_with_python_parity
  Good-compute input s j =
      Good-after s.log Any Any _ _
        (Good-raise (of_draw (compute config.keccak config.get_address input)) s j)
        λ out t jt kt _.
          Good-after t.log Any Any _ _ (Good-raise (or_throw out.root (error "fuel")) t jt)
            λ root u ju ku _.
              Good-after u.log Any Any _ _ (Good-raise (or_throw out.proofs (error "fuel")) u ju)
                λ proofs v jv kv _.
                  Good-after v.log Any Any _ _ (Good-on_world (chain.python_root input) v jv)
                    λ python w jw kw _.
                      Good-throws chain config
                        (not (python.0 == root) || not (python.1 == length out.leaves)) _ _ w jw
                        λ same. Good-give chain config _ w jw

  pub Good-maybe_propose :
      (draw_id : ℕ) (s : State W)
      → Justified s.log
      → Good s.log Any (maybe_propose chain config draw_id s)
  unfolding maybe_propose
  Good-maybe_propose draw_id s j =
      Good-ask_then chain config _ (draw_status draw_id) _ s j λ status t jt kt is_status.
        Good-unless chain config (not (status == 2)) false _ t jt λ seeded.
          Good-ask_then chain config _ primary_proposer _ t jt λ primary u ju ku _.
            Good-unless chain config (not (primary == 0) && not (primary == config.signer_address))
              false _ u ju
              λ ours.
                Good-after u.log Any Any _ _ (Good-on_world (chain.draw_input draw_id) u ju)
                  λ input v jv kv _.
                    Good-after v.log Any Any _ _ (Good-compute input v jv) λ result w jw kw _.
                      Good-throws chain config (length result.leaves == 0) _ _ w jw λ some_leaf.
                        Good-send-true chain config _
                          (propose_root draw_id result.root result.leaf_count result.total_payout) w
                          jw (kw _ (kv _ (ku _ (rw (equal_of status 2 seeded) at is_status))))

  pub Good-maybe_finalize :
      (draw_id : ℕ) (s : State W)
      → Justified s.log
      → Good s.log Any (maybe_finalize chain config draw_id s)
  unfolding maybe_finalize
  Good-maybe_finalize draw_id s j =
      Good-ask_then chain config _ (draw_status draw_id) _ s j λ status t jt kt is_status.
        Good-unless chain config (not (status == 3)) false _ t jt λ proposed.
          Good-ask_then chain config _ timestamp _ t jt λ now u ju ku is_now.
            Good-ask_then chain config _ (challenge_ends_at draw_id) _ u ju λ ends v jv kv is_end.
              Good-unless chain config (ltb now ends) false _ v jv λ over.
                Good-send-true chain config _ (finalize_root draw_id) v jv (
                  now,
                  ends,
                  kv _ (ku _ (rw (equal_of status 3 proposed) at is_status)),
                  kv _ is_now,
                  is_end,
                  ground (arith, over),
                )

  Good-claimed_flags :
      (draw_id leaf_index n : ℕ) (s : State W)
      → Justified s.log
      → Good s.log Any (claimed_flags chain config draw_id leaf_index n s)
  unfolding claimed_flags
  Good-claimed_flags draw_id leaf_index zero s j = Good-give chain config [] s j
  Good-claimed_flags draw_id leaf_index (suc n) s j =
      Good-ask_then chain config _ (is_claimed draw_id leaf_index) _ s j λ flag t jt kt _.
        Good-after t.log Any Any _ _ (Good-claimed_flags draw_id (suc leaf_index) n t jt)
          λ flags u ju ku _. Good-give chain config _ u ju

  Good-claim_batches :
      (draw_id : ℕ) (parts : List (List (Leaf × List ℕ))) (s : State W)
      → Justified s.log
      → Logged (answered (draw_status draw_id) 4) s.log
      → Good s.log Any (claim_batches chain config draw_id parts s)
  unfolding claim_batches
  Good-claim_batches draw_id [] s j final = Good-give chain config tt s j
  Good-claim_batches draw_id (part ∷ parts) s j final =
      Good-after s.log Any Any _ _
        (Good-send chain config "claimMany"
          (claim_many draw_id (map (λ p. p.0) part) (map (λ p. p.1) part)) s j final)
        λ _ t jt kt _. Good-claim_batches draw_id parts t jt (kt _ final)

  Good-claim_unclaimed :
      (draw_id : ℕ) (flags : List Bool) (s : State W)
      → Justified s.log
      → Logged (answered (draw_status draw_id) 4) s.log
      → Good s.log Any (claim_unclaimed chain config draw_id flags s)
  unfolding claim_unclaimed
  Good-claim_unclaimed draw_id flags s j final =
      Good-after s.log Any Any _ _ (Good-on_world (chain.draw_input draw_id) s j) λ input t jt kt _.
        Good-after t.log Any Any _ _ (Good-compute input t jt) λ result u ju ku _.
          let pending = unclaimed flags result.leaves result.proofs in
          Good-unless chain config (length pending == 0) false _ u ju λ some_leaf.
            Good-after u.log Any Any _ _
              (Good-claim_batches draw_id (batches config.claim_batch_size (length pending) pending)
                u ju (ku _ (kt _ final)))
              λ _ v jv kv _. Good-give chain config true v jv

  pub Good-maybe_claim :
      (draw_id : ℕ) (s : State W)
      → Justified s.log
      → Good s.log Any (maybe_claim chain config draw_id s)
  unfolding maybe_claim
  Good-maybe_claim draw_id s j =
      Good-ask_then chain config _ (draw_status draw_id) _ s j λ status t jt kt is_status.
        Good-unless chain config (not (status == 4)) false _ t jt λ final.
          Good-after t.log Any Any
            (rpc_read "claimManager.distributions" config.rpc_retries
              (on_world (chain.distribution draw_id)) t)
            _
            (Good-same t _ jt
              (log-rpc_read _ config.rpc_retries (chain.distribution draw_id) t t.log refl))
            λ (d : Distribution) u ju ku _.
              Good-throws chain config (d.registered_at == 0) _ _ u ju λ registered.
                Good-throws chain config (d.leaf_count == 0) _ _ u ju λ some_leaf.
                  Good-after u.log Any Any _ _ (Good-claimed_flags draw_id 0 d.leaf_count u ju)
                    λ flags v jv kv _.
                      Good-unless chain config (every (λ b. b) flags) false _ v jv λ open_leaf.
                        Good-claim_unclaimed draw_id flags v jv
                          (kv _ (ku _ (rw (equal_of status 4 final) at is_status)))

  pub Good-reconcile_lifecycle_draw :
      (draw_id status : ℕ) (s : State W)
      → Justified s.log
      → Good s.log Any (reconcile_lifecycle_draw chain config draw_id status s)
  unfolding reconcile_lifecycle_draw
  Good-reconcile_lifecycle_draw draw_id status s j =
      Good-if chain config (status == 1) _ _ s
        (λ _. Good-maybe_rerequest_seed chain config draw_id status s j)
        λ _.
          Good-if chain config (status == 2) _ _ s (λ _. Good-maybe_propose draw_id s j)
            λ _.
              Good-if chain config (status == 3) _ _ s
                (λ _.
                  Good-after s.log Any Any _ _ (Good-maybe_finalize draw_id s j)
                    λ finalized t jt kt _.
                      Good-unless chain config (not finalized) false _ t jt λ done.
                        Good-after t.log Any Any _ _ (Good-maybe_claim draw_id t jt)
                          λ _ u ju ku _. Good-give chain config true u ju)
                λ _. Good-give chain config false s j
