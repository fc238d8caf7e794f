-- ===== src/Draw/Leaves/Winner.antt =====
-- `pickWinner`: whose interval of the running total the random number falls in.
use everdraw.Base.{
  ℕ, zero, suc, ◌+◌, ◌%◌, ◌≤◌, ◌<◌, ◌≡◌, refl, ap, ◌∙◌, Bool, false, List, [], ◌∷◌, ◌++◌, map,
  arith, ltb, ◌==◌, if◌then◌else◌, ltb→lt, ltb→le, lt→ltb, le→ltb, sum, Result, ok, err, Bool-cases,
  inl, inr,
}
use mathlib.Core.Path.{ap₂}
use native.Mathlib.Nat.{mod-lt}
use everdraw.Draw.Input.{Account, Error}
use everdraw.Draw.Leaves.{Keccak, scan, pick_winner}

abbrev pub twabs : List Account → ℕ
twabs accounts = sum (map (λ a. a.twab) accounts)

-- `r` falls in the part of the line, from `c` on, that `a` holds between `before` and `after`.
pub record Chosen (accounts : List Account) (r c winner : ℕ) : Type 0 where
  pub before : List Account
  pub chosen : Account
  pub after : List Account
  pub split : accounts ≡ before ++ chosen ∷ after
  pub is_winner : winner ≡ chosen.address
  pub from : c + twabs before ≤ r
  pub to : r < c + twabs before + chosen.twab

Chosen-skip :
    (a : Account) (accounts : List Account) (r c w : ℕ)
    → Chosen accounts r (c + a.twab) w
    → Chosen (a ∷ accounts) r c w
Chosen-skip a accounts r c w h = record {
  before = a ∷ h.before;
  chosen = h.chosen;
  after = h.after;
  split = ap (λ l. a ∷ l) h.split;
  is_winner = h.is_winner;
  from = omega (arith, h.from);
  to = omega (arith, h.to);
}

pub scan-Chosen :
    (accounts : List Account) (r c : ℕ)
    → c ≤ r
    → r < c + twabs accounts
    → (w : ℕ) × (scan accounts r c ≡ ok w) × Chosen accounts r c w
unfolding scan
scan-Chosen [] r c low high = absurd (omega arith)
scan-Chosen (a ∷ accounts) r c low high = elim (Bool-cases (ltb r (c + a.twab))) [
  | inl e ↦ (
    a.address,
    rw e,
    record {
      before = [];
      chosen = a;
      after = accounts;
      split = refl;
      is_winner = refl;
      from = omega arith;
      to = omega (arith, ltb→lt _ _ e);
    },
  )
  | inr e ↦
      let (w, run, h) = scan-Chosen accounts r (c + a.twab) (ltb→le _ _ e) (omega arith) in
      (w, rw e run, Chosen-skip a accounts r c w h)
]

module _ (keccak : Keccak) where
  abbrev pub random_below : ℕ → ℕ → ℕ → ℕ → ℕ
  random_below seed draw_id position total =
      keccak.encoded_hash ("bytes32" ∷ "uint256" ∷ "uint256" ∷ []) (seed ∷ draw_id ∷ position ∷ [])
      % total

  -- With a positive total of TWABs the search never runs out: some account wins, and it is the one
  -- in whose interval of the running total the hash, reduced by the total, falls.
  pub pick_winner-Chosen :
      (accounts : List Account) (seed draw_id position : ℕ)
      → 0 < twabs accounts
      → (w : ℕ) × (pick_winner keccak accounts (twabs accounts) seed draw_id position ≡ ok w)
        × Chosen accounts (random_below seed draw_id position (twabs accounts)) 0 w
  unfolding pick_winner
  pick_winner-Chosen accounts seed draw_id position h =
      scan-Chosen accounts (random_below seed draw_id position (twabs accounts)) 0 (omega arith)
        (omega (arith, mod-lt (keccak.encoded_hash _ _) h))

-- How many of the `n` numbers from `c` on elect `address`.
abbrev elects : ℕ → Result Error ℕ → Bool
elects address (ok w) = w == address
elects address (err e) = false

abbrev pub votes : List Account → ℕ → ℕ → ℕ → ℕ → ℕ
votes accounts address base c zero = 0
votes accounts address base c (suc n) =
    (if elects address (scan accounts c base) then 1 else 0) + votes accounts address base (suc c) n

abbrev pub weight : ℕ → List Account → ℕ
weight address [] = 0
weight address (a ∷ accounts) =
    (if a.address == address then a.twab else 0) + weight address accounts

-- The first account's share of the numbers.
votes-first :
    (a : Account) (accounts : List Account) (address base c n : ℕ)
    → c + n ≡ base + a.twab
    → votes (a ∷ accounts) address base c n ≡ (if a.address == address then n else 0)
unfolding scan
votes-first a accounts address base c zero e = ground arith
votes-first a accounts address base c (suc n) e =
    rw (lt→ltb c (base + a.twab) (omega arith))
      (ground (arith, votes-first a accounts address base (suc c) n))

votes-rest :
    (a : Account) (accounts : List Account) (address base c n : ℕ)
    → base + a.twab ≤ c
    → votes (a ∷ accounts) address base c n ≡ votes accounts address (base + a.twab) c n
unfolding scan
votes-rest a accounts address base c zero h = refl
votes-rest a accounts address base c (suc n) h =
    rw (le→ltb c (base + a.twab) h, votes-rest a accounts address base (suc c) n (omega arith))

votes-append :
    (accounts : List Account) (address base c m n k d : ℕ)
    → k ≡ m + n
    → d ≡ c + m
    → votes accounts address base c k
      ≡ votes accounts address base c m + votes accounts address base d n
votes-append accounts address base c zero n k d e f =
    let same : k ≡ n = omega arith in
    let here : d ≡ c = omega arith in rw (same, here) (omega arith)
votes-append accounts address base c (suc m) n zero d e f = absurd (omega arith)
votes-append accounts address base c (suc m) n (suc k) d e f =
    let v : ℕ = if elects address (scan accounts c base) then 1 else 0 in
    omega (
      arith,
      ap (λ (t : ℕ). v + t)
          (votes-append accounts address base (suc c) m n k d (omega arith) (omega arith)),
    )

-- Of the numbers below the total of the TWABs, as many elect an address as that address has TWAB.
pub votes-weight :
    (accounts : List Account) (address c : ℕ)
    → votes accounts address c c (twabs accounts) ≡ weight address accounts
votes-weight [] address c = refl
votes-weight (a ∷ accounts) address c =
    votes-append (a ∷ accounts) address c c a.twab (twabs accounts) (twabs (a ∷ accounts))
      (c + a.twab) refl refl
    ∙ ap₂ ◌+◌ (votes-first a accounts address c c a.twab refl) (
        votes-rest a accounts address c (c + a.twab) (twabs accounts) (omega arith)
        ∙ votes-weight accounts address (c + a.twab))
