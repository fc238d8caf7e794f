-- ===== src/Keeper/Actions.antt =====
-- scripts/keeper-v5.js: how the keeper reads the chain and sends transactions. An action takes the
-- world and what the keeper has done so far, and returns or throws. The chain, with the time and
-- every other party on it, is the parameter `Chain`: each answer may be an error, a timeout
-- included, and may change the world. Log lines and the count of calls are left out, and so are the
-- numbers in the texts of errors.
pub mod Trace
pub mod Reads
use Prim.Native.String.{◌++◌ as ◌<>◌}
use everdraw.Base.{
  ℕ, zero, suc, String, Bool, true, false, not, Option, none, some, List, [], ◌∷◌, has, codes,
  lower, includes, length, ◌==◌, if◌then◌else◌, Result, ok, err,
}
use everdraw.Draw.Input.{RawInput}
use everdraw.Draw.Leaves.{Leaf}
use everdraw.Keeper.Claims.Errors.{ClaimError, texts}
use everdraw.Keeper.Claims.Settle.{Attempt}

-- The calls that answer with a number, an address or a flag.
pub data Query : Type 0 where
  chain_id write_chain_id block_number timestamp : Query
  balance code_of : (account : ℕ) → Query
  wired : (getter : String) → Query
  next_period_start draw_period seed_request_timeout primary_proposer current_draw_id : Query
  randomness_oracle : Query
  oracle_fee : (oracle : ℕ) → Query
  draw_status seed_requested_at challenge_ends_at : (draw_id : ℕ) → Query
  is_claimed : (draw_id leaf_index : ℕ) → Query

pub data Tx : Type 0 where
  start_draw : (value : ℕ) → Tx
  rerequest_seed : (draw_id value : ℕ) → Tx
  propose_root : (draw_id root leaf_count total_payout : ℕ) → Tx
  finalize_root : (draw_id : ℕ) → Tx
  claim_many : (draw_id : ℕ) → List Leaf → List (List ℕ) → Tx

pub record Preview : Type 0 where
  pub due : Bool
  pub will_skip : Bool
  pub required_fee : ℕ

pub record Distribution : Type 0 where
  pub registered_at : ℕ
  pub leaf_count : ℕ

-- `submit` answers with the status of the receipt. `draw_input` is `buildAndPersistInput`,
-- `python_root` the root and the number of leaves that compute_winners.py prints.
pub record Chain (W : Type 0) : Type 0 where
  pub query : Query → W → Result ClaimError ℕ × W
  pub preview : W → Result ClaimError Preview × W
  pub distribution : ℕ → W → Result ClaimError Distribution × W
  pub submit : Tx → W → Result ClaimError ℕ × W
  pub draw_input : ℕ → W → Result ClaimError RawInput × W
  pub python_root : RawInput → W → Result ClaimError (ℕ × ℕ) × W
  pub sync_participants : ℕ → W → Result ClaimError (Unit {0}) × W

-- What the keeper learned and did, the last first.
pub data Event : Type 0 where
  answered : Query → ℕ → Event
  submitted : Tx → Event

pub record State (W : Type 0) : Type 0 where
  pub world : W
  pub log : List Event
  pub attempt : Attempt

abbrev pub Action : Type 0 → Type 0 → Type 0
Action W A = State W → Result ClaimError A × State W

abbrev pub after :
    {W A B : Type 0}
    → Result ClaimError A × State W
    → (A → Action W B)
    → Result ClaimError B × State W
after (ok a, s) f = f a s
after (err e, s) f = (err e, s)

-- `catch (err) { return handler(err) }`.
abbrev pub recover :
    {W A : Type 0}
    → Result ClaimError A × State W
    → (ClaimError → Action W A)
    → Result ClaimError A × State W
recover (ok a, s) handler = (ok a, s)
recover (err e, s) handler = handler e s

infixl 5 ◌>>=◌ ◌>>◌
abbrev pub ◌>>=◌ : {W A B : Type 0} → Action W A → (A → Action W B) → Action W B
(m >>= f) s = after (m s) f

abbrev pub ◌>>◌ : {W B : Type 0} → Action W (Unit {0}) → Action W B → Action W B
m >> k = m >>= λ _. k

abbrev pub try_catch : {W A : Type 0} → Action W A → (ClaimError → Action W A) → Action W A
try_catch m handler s = recover (m s) handler

abbrev pub give : {W A : Type 0} → A → Action W A
give a s = (ok a, s)

abbrev pub throw : {W A : Type 0} → ClaimError → Action W A
throw e s = (err e, s)

-- `new Error(message)`.
abbrev pub error : String → ClaimError
error text = record {
  own_data = none;
  info_error_data = none;
  error_data = none;
  revert_data = none;
  revert_name = none;
  revert_signature = none;
  revert_arg = none;
  reason = none;
  short_message = none;
  message = some text;
}

-- Some text of the error holds the TWAB controller's selector of TimestampNotFinalized.
pub is_twab_not_finalized : ClaimError → Bool
is_twab_not_finalized e =
    has (λ t. includes (lower (codes t)) (codes "0x947ad913"))
      (texts (
        e.own_data ∷ e.info_error_data ∷ e.error_data ∷ e.revert_signature ∷ e.short_message
        ∷ e.message ∷ []))

join : List String → String
join [] = ""
join (t ∷ []) = t
join (t ∷ u ∷ ts) = t <> (" " <> join (u ∷ ts))

pub is_insufficient_oracle_fee : ClaimError → Bool
is_insufficient_oracle_fee e =
    includes
      (lower (codes (join (texts (e.reason ∷ e.short_message ∷ e.message ∷ e.revert_arg ∷ [])))))
      (codes "insufficient oracle fee")

-- The first that is not empty.
first_text : List String → String
first_text [] = ""
first_text (t ∷ ts) = if length (codes t) == 0 then first_text ts else t

-- The text of an error; the secrets that the keeper blacks out in it are left in.
pub error_message : ClaimError → String
error_message e = first_text (texts (e.short_message ∷ e.reason ∷ e.message ∷ []))

module _ {W : Type 0} where
  -- A call of the chain, which is no call of the keeper's own state.
  abbrev pub on_world : {A : Type 0} → (W → Result ClaimError A × W) → Action W A
  on_world call s = let (r, w) = call s.world in (r, record s { world = w })

  -- `rpcRead` with `retries` left.
  unfoldable pub rpc_read : {A : Type 0} → String → ℕ → Action W A → Action W A
  rpc_read label zero call = try_catch call λ e.
      throw
        (if is_twab_not_finalized e then e else error (label <> (" failed: " <> error_message e)))
  rpc_read label (suc retries) call =
      try_catch call λ e. if is_twab_not_finalized e then throw e else rpc_read label retries call

  unfoldable pub note : Event → Action W (Unit {0})
  note e s = (ok tt, record s { log = e ∷ s.log })
