-- ===== src/Logs/Retries/Complete.antt =====
-- The read that turns to the caller's provider loses no log and doubles none either.
use everdraw.Base.{
  ℕ, zero, suc, ◌+◌, ◌/◌, ◌≤◌, ◌<◌, ◌≡◌, Bool, true, false, not, ◌&&◌, ◌||◌, List, arith, ltb, ◌==◌,
  if◌then◌else◌, Bool-cases, inl, inr, Result, ok, err,
}
use everdraw.Logs.Ranges.{Failure, thrown, no_attempt, out_of_fuel, Provider, Read, and_then}
use everdraw.Logs.Ranges.Windows.{between, between-append}
use everdraw.Logs.Ranges.Complete.{Faithful, Faithful-and_then, Answer, Honest}
use everdraw.Logs.Retries.{tried, retry_transient, split_or_throw, or_else, get_logs_range}

module _ {W E L : Type 0} (block_logs : ℕ → List L) where
  Faithful-tried :
      (is_transient : E → Bool) (from to left : ℕ) (again : Read W E L) (r : Result E (List L) × W)
      → Answer block_logs from to r
      → ((left == 0) ≡ false → (v : W) → Faithful block_logs (between from to) (again v))
      → Faithful block_logs (between from to) (tried is_transient left again r)
  Faithful-tried is_transient from to left again (ok logs, w) h k = h
  Faithful-tried is_transient from to left again (err e, w) h k =
      elim (Bool-cases (not (is_transient e) || (left == 0))) [
        | inl last ↦ rw last tt
        | inr more ↦ rw more (k (ground (arith, more)) w)
      ]

  Faithful-retry_transient :
      (is_transient : E → Bool) (from to attempts : ℕ) (call : W → Result E (List L) × W) (w : W)
      → ((v : W) → Answer block_logs from to (call v))
      → 0 < attempts
      → Faithful block_logs (between from to) (retry_transient is_transient attempts call w)
  unfolding retry_transient
  Faithful-retry_transient is_transient from to zero call w a q = absurd (omega (arith, q))
  Faithful-retry_transient is_transient from to (suc left) call w a q =
      Faithful-tried is_transient from to left (retry_transient is_transient left call) (call w)
        (a w)
        λ more v. Faithful-retry_transient is_transient from to left call v a (ground (arith, more))

  Faithful-split_or_throw :
      (is_range_limit : E → Bool) (from to : ℕ) (split : Read W E L)
      (r : Result (Failure E) (List L) × W)
      → (ltb from to ≡ true → (v : W) → Faithful block_logs (between from to) (split v))
      → Faithful block_logs (between from to) r
      → Faithful block_logs (between from to) (split_or_throw is_range_limit from to split r)
  Faithful-split_or_throw is_range_limit from to split (ok logs, w) k h = h
  Faithful-split_or_throw is_range_limit from to split (err no_attempt, w) k h = h
  Faithful-split_or_throw is_range_limit from to split (err out_of_fuel, w) k h = h
  Faithful-split_or_throw is_range_limit from to split (err (thrown e), w) k h =
      elim (Bool-cases (is_range_limit e && ltb from to)) [
        | inl wide ↦ rw wide (k (ground (arith, wide)) w)
        | inr narrow ↦ rw narrow tt
      ]

  Faithful-or_else :
      (bs : List ℕ) (r : Result (Failure E) (List L) × W) (other : Read W E L)
      → Faithful block_logs bs r
      → ((v : W) → Faithful block_logs bs (other v))
      → Faithful block_logs bs (or_else r other)
  Faithful-or_else bs (ok logs, w) other h k = h
  Faithful-or_else bs (err e, w) other h k = k w

  -- If neither provider ever answers with other logs than those of the blocks asked for, the read
  -- ends with all the logs from the one block to the other, each once and in the order of the
  -- blocks, or with an error of a provider, whichever provider served which part. A fuel past the
  -- number of blocks is enough.
  pub get_logs_range-Faithful :
      (fast slow : Provider W E L) (use_caller : Bool) (attempts fuel from to : ℕ) (w : W)
      → Honest block_logs fast
      → Honest block_logs slow
      → 0 < attempts
      → to < from + fuel
      → 0 < fuel
      → Faithful block_logs
          (between from to)
          (get_logs_range fast slow use_caller attempts fuel from to w)
  unfolding get_logs_range
  get_logs_range-Faithful fast slow use_caller attempts zero from to w hf hs q lt some =
      absurd (omega (arith, some))
  get_logs_range-Faithful fast slow use_caller attempts (suc fuel) from to w hf hs q lt some =
      let mid = (from + to) / 2 in
      let split : Read W E L = λ v.
        and_then (get_logs_range fast slow use_caller attempts fuel from mid v)
          (get_logs_range fast slow use_caller attempts fuel (suc mid) to) in
      let halves : ltb from to ≡ true → (v : W) → Faithful block_logs (between from to) (split v) =
        λ wide v.
          let low : from ≤ mid = ground (arith, wide) in
          let high : mid < to = ground (arith, wide) in
          rw (between-append from mid to low (omega (arith, high))) (
            Faithful-and_then block_logs (between from mid) (between (suc mid) to)
              (get_logs_range fast slow use_caller attempts fuel from mid v) _
              (get_logs_range-Faithful fast slow use_caller attempts fuel from mid v hf hs q
                (omega (arith, high, lt)) (omega (arith, low, high, lt)))
              λ u.
                get_logs_range-Faithful fast slow use_caller attempts fuel (suc mid) to u hf hs q
                  (omega (arith, low, lt)) (omega (arith, low, high, lt))) in
      let first =
        Faithful-retry_transient fast.is_transient from to attempts (fast.get_logs from to) w
          (hf from to) q in
      Faithful-if (between from to) use_caller _ _
        (Faithful-split_or_throw fast.is_range_limit from to split _ halves first)
        (Faithful-or_else (between from to) _ _ first λ v.
          Faithful-split_or_throw slow.is_range_limit from to split _ halves (
            Faithful-retry_transient slow.is_transient from to attempts (slow.get_logs from to) v
              (hs from to) q))
    where
      Faithful-if :
          (bs : List ℕ) (b : Bool) (r s : Result (Failure E) (List L) × W)
          → Faithful block_logs bs r
          → Faithful block_logs bs s
          → Faithful block_logs bs (if b then r else s)
      Faithful-if bs true r s h k = h
      Faithful-if bs false r s h k = k
