-- ===== src/Logs/Ranges.antt =====
-- scripts/draw/write-watch-inputs.mjs, `getLogsRangeDirect`, and the windows of `queryLogsChunked`.
-- The provider answers a request for the logs from one block to another, or throws; `W` is the
-- world it stands in. Whether an error says that the range is too wide, or may pass, are tests of
-- the provider's errors. The delays between two attempts are left out.
pub mod Complete
pub mod Windows
use everdraw.Base.{
  ℕ, zero, suc, ◌+◌, ◌-◌, ◌/◌, Bool, not, ◌&&◌, ◌||◌, List, [], ◌∷◌, ◌++◌, max, min, ltb, leb, ◌==◌,
  if◌then◌else◌, Result, ok, err,
}

-- What ends a read: an error of the provider, no attempt at all, or the fuel of the model.
pub data Failure (E : Type 0) : Type 0 where
  thrown : E → Failure E
  no_attempt out_of_fuel : Failure E

pub record Provider (W E L : Type 0) : Type 0 where
  pub get_logs : (from to : ℕ) → W → Result E (List L) × W
  pub is_range_limit : E → Bool
  pub is_transient : E → Bool

abbrev pub Read : Type 0 → Type 0 → Type 0 → Type 0
Read W E L = W → Result (Failure E) (List L) × W

module _ {W E L : Type 0} where
  abbrev pub prepend : List L → Result (Failure E) (List L) × W → Result (Failure E) (List L) × W
  prepend left (ok logs, w) = (ok (left ++ logs), w)
  prepend left (err e, w) = (err e, w)

  -- `[...left, ...right]`, the right part read after the left one.
  abbrev pub and_then :
      Result (Failure E) (List L) × W → Read W E L → Result (Failure E) (List L) × W
  and_then (err e, w) right = (err e, w)
  and_then (ok left, w) right = prepend left (right w)

  module _ (p : Provider W E L) (from to : ℕ) (split : Read W E L) where
    -- What an attempt does with the answer; `again` are the attempts that are left, of which there
    -- are `left`.
    abbrev pub attempted :
        (left : ℕ) → Read W E L → Result E (List L) × W → Result (Failure E) (List L) × W
    attempted left again (ok logs, w) = (ok logs, w)
    attempted left again (err e, w) =
        (if p.is_range_limit e && ltb from to
            then split
            else if not (p.is_transient e) || (left == 0)
            then (λ w'. (err (thrown e), w'))
            else again)
          w

    -- The loop over the attempts.
    unfoldable pub attempts_left : ℕ → Read W E L
    attempts_left zero w = (err no_attempt, w)
    attempts_left (suc left) w = attempted left (attempts_left left) (p.get_logs from to w)

  -- The fuel bounds how often a range is halved.
  unfoldable pub get_logs_range_direct : Provider W E L → (attempts fuel from to : ℕ) → Read W E L
  get_logs_range_direct p attempts zero from to w = (err out_of_fuel, w)
  get_logs_range_direct p attempts (suc fuel) from to w =
      let mid = (from + to) / 2 in
      attempts_left p from to
        (λ w'.
          and_then (get_logs_range_direct p attempts fuel from mid w')
            (get_logs_range_direct p attempts fuel (suc mid) to))
        attempts w

-- The windows from `from` on, each of `chunk_size` blocks but the last. The fuel is enough if there
-- are no more blocks.
unfoldable pub windows_from : (chunk_size to fuel from : ℕ) → List (ℕ × ℕ)
windows_from chunk_size to zero from = []
windows_from chunk_size to (suc fuel) from =
    let rest = windows_from chunk_size to fuel (from + chunk_size) in
    if leb from to then (from, min (from + chunk_size - 1) to) ∷ rest else []

unfoldable pub windows : (max_log_lookback chunk_size from_block to_block : ℕ) → List (ℕ × ℕ)
windows max_log_lookback chunk_size from_block to_block =
    windows_from chunk_size to_block (to_block + 1) (max from_block (to_block - max_log_lookback))
