-- ===== src/Keeper/Lifecycle/Batches.antt =====
-- The claims that `maybeClaim` sends: the leaves still to claim, each once, in batches.
use everdraw.Base.{
  ℕ, zero, suc, ◌≤◌, ◌<◌, ◌≡◌, refl, ap, ◌∙◌, List, [], ◌∷◌, ◌++◌, arith, All, length, take, drop,
}
use everdraw.Keeper.Lifecycle.{batches}

abbrev pub join : {A : Type 0} → List (List A) → List A
join [] = []
join (xs ∷ xss) = xs ++ join xss

module _ {A : Type 0} where
  take-drop : (n : ℕ) (xs : List A) → take n xs ++ drop n xs ≡ xs
  take-drop zero xs = refl
  take-drop (suc n) [] = refl
  take-drop (suc n) (x ∷ xs) = ap (λ l. x ∷ l) (take-drop n xs)

  length-take : (n : ℕ) (xs : List A) → length (take n xs) ≤ n
  length-take zero xs = omega arith
  length-take (suc n) [] = omega arith
  length-take (suc n) (x ∷ xs) = omega (arith, length-take n xs)

  length-drop : (n : ℕ) (xs : List A) → length (drop n xs) ≤ length xs
  length-drop zero xs = omega arith
  length-drop (suc n) [] = omega arith
  length-drop (suc n) (x ∷ xs) = omega (arith, length-drop n xs)

  some_taken : (size : ℕ) (x : A) (xs : List A) → 0 < size → 0 < length (take size (x ∷ xs))
  some_taken zero x xs p = absurd (omega (arith, p))
  some_taken (suc n) x xs p = omega arith

  shorter : (size : ℕ) (x : A) (xs : List A) → 0 < size → length (drop size (x ∷ xs)) ≤ length xs
  shorter zero x xs p = absurd (omega (arith, p))
  shorter (suc n) x xs p = length-drop n xs

  batches-All :
      (size fuel : ℕ) (xs : List A)
      → 0 < size
      → length xs ≤ fuel
      → (join (batches size fuel xs) ≡ xs)
        × All (λ b. (0 < length b) × (length b ≤ size)) (batches size fuel xs)
  unfolding batches
  batches-All size fuel [] p le = (refl, tt)
  batches-All size zero (x ∷ xs) p le = absurd (omega (arith, le))
  batches-All size (suc fuel) (x ∷ xs) p le =
      let (joined, sizes) =
        batches-All size fuel (drop size (x ∷ xs)) p (omega (arith, le, shorter size x xs p)) in
      (
        ap (λ l. take size (x ∷ xs) ++ l) joined ∙ take-drop size (x ∷ xs),
        ((some_taken size x xs p, length-take size (x ∷ xs)), sizes),
      )

-- With a batch size that is not 0, the batches joined are the claims that are sent, no batch is
-- empty, and none is larger than the size.
pub batches_lem :
    {A : Type 0} (size : ℕ) (pending : List A)
    → 0 < size
    → (join (batches size (length pending) pending) ≡ pending)
      × All (λ b. (0 < length b) × (length b ≤ size)) (batches size (length pending) pending)
batches_lem size pending p = batches-All size (length pending) pending p (omega arith)
