-- ===== src/Logs/Ranges/Complete.antt =====
-- A read that halves its ranges loses no log and doubles none.
use mathlib.Core.List.{◌++◌ as ◌<>◌}
use everdraw.Base.{
  ℕ, zero, suc, ◌+◌, ◌/◌, ◌≤◌, ◌<◌, ◌≡◌, refl, ap, sym, ◌∙◌, true, false, not, ◌&&◌, ◌||◌, List, [],
  ◌∷◌, ◌++◌, arith, ltb, ◌==◌, Bool-cases, inl, inr, append_assoc, Result, ok, err,
}
use everdraw.Logs.Ranges.{
  Failure, thrown, no_attempt, out_of_fuel, Provider, Read, prepend, and_then, attempted,
  attempts_left, get_logs_range_direct,
}
use everdraw.Logs.Ranges.Windows.{between, between-append}

module _ {L : Type 0} (block_logs : ℕ → List L) where
  abbrev pub logs_of : List ℕ → List L
  logs_of [] = []
  logs_of (b ∷ bs) = block_logs b ++ logs_of bs

  pub logs_of-append : (xs ys : List ℕ) → logs_of (xs ++ ys) ≡ logs_of xs ++ logs_of ys
  logs_of-append [] ys = refl
  logs_of-append (x ∷ xs) ys =
      ap (λ l. block_logs x ++ l) (logs_of-append xs ys)
      ∙ sym (append_assoc (block_logs x) (logs_of xs) (logs_of ys))

module _ {W E L : Type 0} (block_logs : ℕ → List L) where
  -- What a read of some blocks may end with, if it makes some attempt: all their logs, in order, or
  -- an error of the provider.
  abbrev pub Faithful : List ℕ → Result (Failure E) (List L) × W → Type 0
  Faithful bs (ok logs, w) = logs ≡ logs_of block_logs bs
  Faithful bs (err (thrown e), w) = Unit {0}
  Faithful bs (err no_attempt, w) = ⊥
  Faithful bs (err out_of_fuel, w) = ⊥

  Faithful-prepend :
      (xs ys : List ℕ) (left : List L) (r : Result (Failure E) (List L) × W)
      → left ≡ logs_of block_logs xs
      → Faithful ys r
      → Faithful (xs ++ ys) (prepend left r)
  Faithful-prepend xs ys left (ok logs, w) e h = rw (e, h) (sym (logs_of-append block_logs xs ys))
  Faithful-prepend xs ys left (err (thrown x), w) e h = tt
  Faithful-prepend xs ys left (err no_attempt, w) e h = h
  Faithful-prepend xs ys left (err out_of_fuel, w) e h = h

  pub Faithful-and_then :
      (xs ys : List ℕ) (r : Result (Failure E) (List L) × W) (right : Read W E L)
      → Faithful xs r
      → ((w : W) → Faithful ys (right w))
      → Faithful (xs ++ ys) (and_then r right)
  Faithful-and_then xs ys (ok left, w) right h k = Faithful-prepend xs ys left (right w) h (k w)
  Faithful-and_then xs ys (err (thrown e), w) right h k = tt
  Faithful-and_then xs ys (err no_attempt, w) right h k = h
  Faithful-and_then xs ys (err out_of_fuel, w) right h k = h

  -- The provider's answers are the chain's logs of the blocks asked for.
  abbrev pub Answer : (from to : ℕ) → Result E (List L) × W → Type 0
  Answer from to (ok logs, w) = logs ≡ logs_of block_logs (between from to)
  Answer from to (err e, w) = Unit {0}

  abbrev pub Honest : Provider W E L → Type 0
  Honest p = (from to : ℕ) (w : W) → Answer from to (p.get_logs from to w)

  module _ (p : Provider W E L) (honest : Honest p) where
    Faithful-attempted :
        (from to left : ℕ) (split again : Read W E L) (r : Result E (List L) × W)
        → Answer from to r
        → (ltb from to ≡ true → (w : W) → Faithful (between from to) (split w))
        → ((left == 0) ≡ false → (w : W) → Faithful (between from to) (again w))
        → Faithful (between from to) (attempted p from to split left again r)
    Faithful-attempted from to left split again (ok logs, w) a h k = a
    Faithful-attempted from to left split again (err e, w) a h k =
        elim (Bool-cases (p.is_range_limit e && ltb from to)) [
          | inl wide ↦ rw wide (h (ground (arith, wide)) w)
          | inr narrow ↦ elim (Bool-cases (not (p.is_transient e) || (left == 0))) [
            | inl last ↦ rw (narrow, last) tt
            | inr more ↦ rw (narrow, more) (k (ground (arith, more)) w)
          ]
        ]

    Faithful-attempts_left :
        (from to : ℕ) (split : Read W E L) (left : ℕ) (w : W)
        → (ltb from to ≡ true → (v : W) → Faithful (between from to) (split v))
        → 0 < left
        → Faithful (between from to) (attempts_left p from to split left w)
    unfolding attempts_left
    Faithful-attempts_left from to split zero w h q = absurd (omega (arith, q))
    Faithful-attempts_left from to split (suc left) w h q =
        Faithful-attempted from to left split _ (p.get_logs from to w) (honest from to w) h
          λ more v. Faithful-attempts_left from to split left v h (ground (arith, more))

    -- If the provider never answers with other logs than those of the blocks asked for, a read with
    -- some attempts ends with all the logs from the one block to the other, each once and in the
    -- order of the blocks, or with an error of the provider. A fuel past the number of blocks is
    -- enough.
    pub get_logs_range_direct-Faithful :
        (attempts fuel from to : ℕ) (w : W)
        → 0 < attempts
        → to < from + fuel
        → 0 < fuel
        → Faithful (between from to) (get_logs_range_direct p attempts fuel from to w)
    unfolding get_logs_range_direct
    get_logs_range_direct-Faithful attempts zero from to w q lt some = absurd (omega (arith, some))
    get_logs_range_direct-Faithful attempts (suc fuel) from to w q lt some =
        Faithful-attempts_left from to _ attempts w
          (λ wide v.
            let mid = (from + to) / 2 in
            let low : from ≤ mid = ground (arith, wide) in
            let high : mid < to = ground (arith, wide) in
            rw (between-append from mid to low (omega (arith, high))) (
              Faithful-and_then (between from mid) (between (suc mid) to)
                (get_logs_range_direct p attempts fuel from mid v) _
                (get_logs_range_direct-Faithful attempts fuel from mid v q (omega (arith, high, lt))
                  (omega (arith, low, high, lt)))
                λ u.
                  get_logs_range_direct-Faithful attempts fuel (suc mid) to u q
                    (omega (arith, low, lt)) (omega (arith, low, high, lt))))
          q
