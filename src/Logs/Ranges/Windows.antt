-- ===== src/Logs/Ranges/Windows.antt =====
-- The windows of a scan, laid side by side, are the blocks of the scan.
use everdraw.Base.{
  ℕ, zero, suc, ◌+◌, ◌-◌, ◌≤◌, ◌<◌, ◌≡◌, ap, sym, ◌∙◌, List, [], ◌∷◌, ◌++◌, arith, All, max, min,
  leb, append-nil, Bool-cases, inl, inr,
}
use everdraw.Logs.Ranges.{windows_from, windows}

-- `n` blocks from `from` on.
abbrev pub blocks : (from n : ℕ) → List ℕ
blocks from zero = []
blocks from (suc n) = from ∷ blocks (suc from) n

pub blocks-append : (from m n : ℕ) → blocks from (m + n) ≡ blocks from m ++ blocks (from + m) n
blocks-append from zero n =
    let a : 0 + n ≡ n = omega arith in let b : from + 0 ≡ from = omega arith in rw (a, b)
blocks-append from (suc m) n =
    let a : suc m + n ≡ suc (m + n) = omega arith in
    let b : from + suc m ≡ suc from + m = omega arith in
    rw (a, b) (ap (λ l. from ∷ l) (blocks-append (suc from) m n))

-- The blocks from the one to the other, both included.
abbrev pub between : ℕ → ℕ → List ℕ
between from to = blocks from (to + 1 - from)

-- The first part may be empty.
pub between-extend :
    (from mid to : ℕ)
    → from ≤ mid + 1
    → mid ≤ to
    → between from to ≡ between from mid ++ between (suc mid) to
between-extend from mid to le le' =
    ap (blocks from) (omega (arith, le, le'))
    ∙ blocks-append from (mid + 1 - from) (to - mid)
    ∙ ap (λ l. between from mid ++ l)
        (ap (λ k. blocks k (to - mid)) (omega (arith, le)) ∙ ap (blocks (suc mid)) (omega arith))

pub between-append :
    (from mid to : ℕ)
    → from ≤ mid
    → mid ≤ to
    → between from to ≡ between from mid ++ between (suc mid) to
between-append from mid to le le' = between-extend from mid to (omega (arith, le)) le'

abbrev pub covered : List (ℕ × ℕ) → List ℕ
covered [] = []
covered (w ∷ ws) = between w.0 w.1 ++ covered ws

pub no_blocks : (from to : ℕ) → to < from → between from to ≡ []
no_blocks from to lt = let e : to + 1 - from ≡ 0 = omega (arith, lt) in rw e

first_window :
    (size from to : ℕ)
    → 0 < size
    → from ≤ to
    → between from to ≡ between from (min (from + size - 1) to) ++ between (from + size) to
first_window size from to p le = elim (Bool-cases (leb (from + size) to)) [
  | inl full ↦
      between-append from (from + size - 1) to (omega (arith, p)) (ground (arith, full))
      ∙ ap (λ k. between from (from + size - 1) ++ between k to) (omega (arith, p))
      ∙ ap (λ k. between from k ++ between (from + size) to) (ground (arith, full))
  | inr last ↦
      sym (append-nil (between from to))
      ∙ ap (λ l. between from to ++ l) (sym (no_blocks (from + size) to (ground (arith, last))))
      ∙ ap (λ k. between from k ++ between (from + size) to) (ground (arith, last))
]

windows_from-covered :
    (size to fuel from : ℕ)
    → 0 < size
    → to + 1 ≤ from + fuel
    → (covered (windows_from size to fuel from) ≡ between from to)
      × All (λ w. (w.0 ≤ w.1) × (w.1 < w.0 + size)) (windows_from size to fuel from)
unfolding windows_from
windows_from-covered size to zero from p le = (sym (no_blocks from to (omega (arith, le))), tt)
windows_from-covered size to (suc fuel) from p le = elim (Bool-cases (leb from to)) [
  | inr past ↦ rw past (sym (no_blocks from to (ground (arith, past))), tt)
  | inl more ↦
      let (rest, sizes) =
        windows_from-covered size to fuel (from + size) p (omega (arith, p, le)) in
      let le : from ≤ to = ground (arith, more) in
      rw more (
        ap (λ l. between from (min (from + size - 1) to) ++ l) rest
            ∙ sym (first_window size from to p le),
        ((omega (arith, le, p), omega (arith, p)), sizes),
      )
]

-- With a chunk size that is not 0, the windows laid side by side are the blocks from the first one
-- within the lookback to the last, each once and in order, and no window has more blocks than the
-- chunk size.
pub windows-covered :
    (lookback size from to : ℕ)
    → 0 < size
    → (covered (windows lookback size from to) ≡ between (max from (to - lookback)) to)
      × All (λ w. (w.0 ≤ w.1) × (w.1 < w.0 + size)) (windows lookback size from to)
unfolding windows
windows-covered lookback size from to p =
    windows_from-covered size to (to + 1) (max from (to - lookback)) p (omega arith)
