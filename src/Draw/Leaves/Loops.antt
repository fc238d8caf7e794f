-- ===== src/Draw/Leaves/Loops.antt =====
-- The loops of `buildLeaves`: they number the leaves in order, push none that is empty, and each
-- adds to the total of the leaves what it is to pay out.
use everdraw.Base.{
  ℕ, suc, ◌+◌, ◌*◌, ◌/◌, ◌≤◌, ◌<◌, ◌≡◌, refl, List, [], ◌∷◌, ◌++◌, arith, ◌==◌, ◌||◌, if◌then◌else◌,
  ok, Bool-cases, inl, inr, length, length-append, All, le→ltb,
}
use everdraw.Draw.Input.{Input, Leg, Recipient}
use everdraw.Draw.Leaves.{
  Keccak, Leaf, Out, Position, tier, fee, push_leaf, prize_leg, prize_legs, prize_positions,
  fee_leg, fee_legs, prize_amount, allocated_fee_amount,
}

-- From `i` on, one number each, and each with something to claim.
abbrev pub Numbered : ℕ → List Leaf → Type 0
Numbered i [] = Unit {0}
Numbered i (l ∷ ls) = (l.leaf_index ≡ i) × (0 < l.amount) × Numbered (suc i) ls

Numbered-append :
    (i j : ℕ) (ls : List Leaf) (l : Leaf)
    → Numbered i ls
    → j ≡ i + length ls
    → l.leaf_index ≡ j
    → 0 < l.amount
    → Numbered i (ls ++ l ∷ [])
Numbered-append i j [] l h e f p = (omega (arith, f, e), p, tt)
Numbered-append i j (x ∷ ls) l h e f p =
    (h.0, h.1, Numbered-append (suc i) j ls l h.2 (omega arith) f p)

pub record IsNumbered (out : Out) : Type 0 where
  pub numbered : Numbered 0 out.leaves
  pub next : out.leaf_index ≡ length out.leaves

abbrev pub total : List Leaf → ℕ
total [] = 0
total (l ∷ ls) = l.amount + total ls

total-append : (ls : List Leaf) (l : Leaf) → total (ls ++ l ∷ []) ≡ total ls + l.amount
total-append [] l = omega arith
total-append (x ∷ ls) l = omega (arith, total-append ls l)

-- The state that a loop leaves: numbered, and richer by `paid`.
pub record Paid (out out' : Out) (paid : ℕ) : Type 0 where
  pub is_numbered : IsNumbered out'
  pub more : total out'.leaves ≡ total out.leaves + paid

Paid-then : {a b c : Out} (m n : ℕ) → Paid a b m → Paid b c n → Paid a c (m + n)
Paid-then m n h k = record { is_numbered = k.is_numbered; more = omega (arith, h.more, k.more) }

-- What the loop over the legs is to pay for one position.
abbrev pub legs_total : Input → ℕ → ℕ → List Leg → ℕ
legs_total input position bps [] = 0
legs_total input position bps (leg ∷ legs) =
    prize_amount input leg position bps + legs_total input position bps legs

abbrev pub positions_total : Input → ℕ → List ℕ → ℕ
positions_total input position [] = 0
positions_total input position (bps ∷ tiers) =
    legs_total input position bps input.prize_legs + positions_total input (suc position) tiers

abbrev pub fee_total : Input → Leg → List Recipient → ℕ
fee_total input leg [] = 0
fee_total input leg (r ∷ rs) = leg.fee_amount * r.bps / input.fee_bps + fee_total input leg rs

abbrev pub fees_total : Input → List Leg → ℕ
fees_total input [] = 0
fees_total input (leg ∷ legs) =
    (if (input.fee_bps == 0) || (leg.fee_amount == 0)
      then 0
      else fee_total input leg input.fee_recipients)
    + fees_total input legs

-- The fees of every leg fit into it.
abbrev pub FeesFit : Input → List Leg → Type 0
FeesFit input = All (λ leg. allocated_fee_amount input leg.fee_amount ≤ leg.amount)

module _ (keccak : Keccak) (input : Input) where
  pushed-Paid :
      (p : Position) (account token amount kind : ℕ) (out : Out)
      → IsNumbered out
      → Paid out
          (if amount == 0 then out else push_leaf keccak input p account token amount kind out)
          amount
  unfolding push_leaf
  pushed-Paid p account token amount kind out h = elim (Bool-cases (amount == 0)) [
    | inl e ↦ rw e (record { is_numbered = h; more = ground arith })
    | inr e ↦ rw e (record {
      is_numbered = record {
        numbered =
            Numbered-append 0 out.leaf_index out.leaves _ h.numbered (omega (arith, h.next)) refl
              (ground arith);
        next = omega (arith, h.next, length-append out.leaves (_ ∷ []));
      };
      more = total-append out.leaves _;
    })
  ]

  pub prize_legs-Paid :
      (position bps winner leg_index : ℕ) (legs : List Leg) (out : Out)
      → FeesFit input legs
      → IsNumbered out
      → (out' : Out) × (prize_legs keccak input position bps winner leg_index legs out ≡ ok out')
        × Paid out out' (legs_total input position bps legs)
  unfolding prize_legs prize_leg
  prize_legs-Paid position bps winner leg_index [] out fits h =
      (out, refl, record { is_numbered = h; more = omega arith })
  prize_legs-Paid position bps winner leg_index (leg ∷ legs) out fits h =
      let amount : ℕ = prize_amount input leg position bps in
      let kind : ℕ = if leg_index == 0 then 0 else 2 in
      let next : Out =
        if amount == 0
        then out
        else push_leaf keccak input (tier position) winner leg.token amount kind out in
      let first = pushed-Paid (tier position) winner leg.token amount kind out h in
      let (out', run, rest) =
        prize_legs-Paid position bps winner (suc leg_index) legs next fits.1 first.is_numbered in
      (out', rw (le→ltb _ _ fits.0) run, Paid-then amount _ first rest)

  pub prize_positions-Paid :
      (position : ℕ) (tiers winners : List ℕ) (out : Out)
      → length winners ≡ length tiers
      → FeesFit input input.prize_legs
      → IsNumbered out
      → (out' : Out) × (prize_positions keccak input position tiers winners out ≡ ok out')
        × Paid out out' (positions_total input position tiers)
  unfolding prize_positions
  prize_positions-Paid position [] [] out e fits h =
      (out, refl, record { is_numbered = h; more = omega arith })
  prize_positions-Paid position [] (w ∷ ws) out e fits h = absurd (omega arith)
  prize_positions-Paid position (bps ∷ tiers) [] out e fits h = absurd (omega arith)
  prize_positions-Paid position (bps ∷ tiers) (w ∷ ws) out e fits h =
      let (mid, run, first) = prize_legs-Paid position bps w 0 input.prize_legs out fits h in
      let (out', run', rest) =
        prize_positions-Paid (suc position) tiers ws mid (omega arith) fits first.is_numbered in
      (out', rw run run', Paid-then _ _ first rest)

  fee_leg-Paid :
      (leg : Leg) (rs : List Recipient) (out : Out)
      → IsNumbered out
      → Paid out (fee_leg keccak input leg rs out) (fee_total input leg rs)
  unfolding fee_leg
  fee_leg-Paid leg [] out h = record { is_numbered = h; more = omega arith }
  fee_leg-Paid leg (r ∷ rs) out h =
      let first =
        pushed-Paid fee r.account leg.token (leg.fee_amount * r.bps / input.fee_bps) 1 out h in
      Paid-then _ _ first (fee_leg-Paid leg rs _ first.is_numbered)

  pub fee_legs-Paid :
      (legs : List Leg) (out : Out)
      → IsNumbered out
      → Paid out (fee_legs keccak input legs out) (fees_total input legs)
  unfolding fee_legs
  fee_legs-Paid [] out h = record { is_numbered = h; more = omega arith }
  fee_legs-Paid (leg ∷ legs) out h =
      let none_due = (input.fee_bps == 0) || (leg.fee_amount == 0) in
      let first : Paid out
          (if none_due then out else fee_leg keccak input leg input.fee_recipients out)
          (if none_due then 0 else fee_total input leg input.fee_recipients) =
        elim (Bool-cases none_due) [
          | inl e ↦ rw e (record { is_numbered = h; more = omega arith })
          | inr e ↦ rw e (fee_leg-Paid leg input.fee_recipients out h)
        ] in
      Paid-then _ _ first (fee_legs-Paid legs _ first.is_numbered)
