-- ===== src/Logs/Retries.antt =====
-- scripts/draw/write-watch-inputs.mjs, `isRangeLimitError`, `isTransientError`, `retryTransient` and
-- `getLogsRange`: which errors of a provider may pass, and the read that turns from the fast provider
-- to the caller's. An error is the texts that `errText` joins and its code; a negative code is -n for
-- `negsuc`. The delays are left out.
pub mod Complete
use everdraw.Base.{
  ℕ, zero, suc, ◌+◌, ◌/◌, ℤ, pos, negsuc, String, Bool, true, false, not, ◌&&◌, ◌||◌, Option, none,
  some, List, [], ◌∷◌, has, codes, lower, includes, ltb, ◌==◌, if◌then◌else◌, Result, ok, err,
}
use everdraw.Logs.Ranges.{Failure, thrown, no_attempt, out_of_fuel, Provider, Read, and_then}

pub record RpcError : Type 0 where
  pub text : String
  pub code : Option ℤ

abbrev mentions_one : RpcError → List String → Bool
mentions_one e parts = has (λ part. includes (lower (codes e.text)) (codes part)) parts

unfoldable pub is_range_limit_error : RpcError → Bool
is_range_limit_error e =
    mentions_one e ("block range" ∷ "range limit" ∷ "maximum range" ∷ [])
    || (mentions_one e ("limited to" ∷ []) && mentions_one e ("blocks" ∷ []))

unfoldable pub transient_code : Option ℤ → Bool
transient_code none = false
transient_code (some (pos n)) = (n == 19) || (n == 429)
transient_code (some (negsuc n)) = (n == 32004) || (n == 32600)

unfoldable pub is_transient_error : RpcError → Bool
is_transient_error e =
    mentions_one e (
      "temporary" ∷ "please retry" ∷ "try again" ∷ "timeout" ∷ "timed out" ∷ "rate limit"
      ∷ "too many requests" ∷ "compute unit" ∷ "capacity" ∷ "invalid json" ∷ "not valid json"
      ∷ "failed to detect network" ∷ "network error" ∷ "socket" ∷ "econn" ∷ "enetwork"
      ∷ "server response" ∷ "does not exist" ∷ "not available" ∷ "method not found" ∷ [])
    || transient_code e.code

module _ {W E L : Type 0} where
  -- One attempt; `again` are those that are left, `left` of them.
  abbrev pub tried :
      (E → Bool) → (left : ℕ) → Read W E L → Result E (List L) × W → Result (Failure E) (List L) × W
  tried is_transient left again (ok logs, w) = (ok logs, w)
  tried is_transient left again (err e, w) =
      (if not (is_transient e) || (left == 0) then (λ w'. (err (thrown e), w')) else again) w

  -- `retryTransient` with some attempts.
  unfoldable pub retry_transient :
      (E → Bool) → (attempts : ℕ) → (W → Result E (List L) × W) → Read W E L
  retry_transient is_transient zero call w = (err no_attempt, w)
  retry_transient is_transient (suc left) call w =
      tried is_transient left (retry_transient is_transient left call) (call w)

  -- What is done about an error that ended the attempts: a range that is too wide is split, any other
  -- error is thrown on.
  abbrev pub split_or_throw :
      (E → Bool)
      → (from to : ℕ) → Read W E L
      → Result (Failure E) (List L) × W
      → Result (Failure E) (List L) × W
  split_or_throw is_range_limit from to split (ok logs, w) = (ok logs, w)
  split_or_throw is_range_limit from to split (err no_attempt, w) = (err no_attempt, w)
  split_or_throw is_range_limit from to split (err out_of_fuel, w) = (err out_of_fuel, w)
  split_or_throw is_range_limit from to split (err (thrown e), w) =
      (if is_range_limit e && ltb from to then split else (λ w'. (err (thrown e), w'))) w

  -- The first provider failed for good: the caller's is asked.
  abbrev pub or_else :
      Result (Failure E) (List L) × W → Read W E L → Result (Failure E) (List L) × W
  or_else (ok logs, w) other = (ok logs, w)
  or_else (err e, w) other = other w

  -- `fast` is the provider for logs, `slow` the caller's; with `use_caller` they are the same, and
  -- there is nothing to fall back to.
  unfoldable pub get_logs_range :
      (fast slow : Provider W E L) → (use_caller : Bool) → (attempts fuel from to : ℕ) → Read W E L
  get_logs_range fast slow use_caller attempts zero from to w = (err out_of_fuel, w)
  get_logs_range fast slow use_caller attempts (suc fuel) from to w =
      let mid = (from + to) / 2 in
      let split : Read W E L = λ w'.
        and_then (get_logs_range fast slow use_caller attempts fuel from mid w')
          (get_logs_range fast slow use_caller attempts fuel (suc mid) to) in
      let first = retry_transient fast.is_transient attempts (fast.get_logs from to) w in
      if use_caller
      then split_or_throw fast.is_range_limit from to split first
      else or_else first λ w'.
        split_or_throw slow.is_range_limit from to split
          (retry_transient slow.is_transient attempts (slow.get_logs from to) w')
