-- ===== src/Base/Sorting.antt =====
-- `Array.prototype.sort` by a numeric key: stable, smallest first.
use Prim.Native.Nat.{ℕ, suc, ◌≤◌}
use mathlib.Core.Path.{◌≡◌, refl, ◌∙◌}
use mathlib.Core.List.{List, [], ◌∷◌, map, Perm, Permᴰ}
use native.Mathlib.Omega.{arith}
use everdraw.Base.Tests.{if◌then◌else◌, leb, Bool-cases}
use mathlib.Core.Logic.{inl, inr, ∥∥₁_elim}
use everdraw.Base.Lists.{length, All}

module _ {ℓ} {A : Type ℓ} (key : A → ℕ) where
  unfoldable pub insert_by : A → List A → List A
  insert_by x [] = x ∷ []
  insert_by x (y ∷ ys) = if leb (key x) (key y) then x ∷ y ∷ ys else y ∷ insert_by x ys

  unfoldable pub sort_by : List A → List A
  unfolding insert_by
  sort_by [] = []
  sort_by (x ∷ xs) = insert_by x (sort_by xs)

  pub length-insert_by : (x : A) (ys : List A) → length (insert_by x ys) ≡ suc (length ys)
  unfolding insert_by
  length-insert_by x [] = refl
  length-insert_by x (y ∷ ys) = ground (arith, length-insert_by x ys)

  pub length-sort_by : (xs : List A) → length (sort_by xs) ≡ length xs
  unfolding sort_by
  length-sort_by [] = refl
  length-sort_by (x ∷ xs) = omega (arith, length-insert_by x (sort_by xs), length-sort_by xs)

  pub All-insert_by {κ} :
      (P : A → Type κ) (x : A) (ys : List A) → P x → All P ys → All P (insert_by x ys)
  unfolding insert_by
  All-insert_by P x [] px h = (px, tt)
  All-insert_by P x (y ∷ ys) px h = elim (Bool-cases (leb (key x) (key y))) [
    | inl e ↦ rw e (px, h)
    | inr e ↦ rw e (h.0, All-insert_by P x ys px h.1)
  ]

  pub All-sort_by {κ} : (P : A → Type κ) (xs : List A) → All P xs → All P (sort_by xs)
  unfolding sort_by
  All-sort_by P [] h = tt
  All-sort_by P (x ∷ xs) h = All-insert_by P x (sort_by xs) h.0 (All-sort_by P xs h.1)

  -- Smallest key first.
  abbrev pub Ascending : List A → Type 0
  Ascending [] = Unit {0}
  Ascending (a ∷ xs) = All (λ b. key a ≤ key b) xs × Ascending xs

  All-le_trans :
      (x y : A) (xs : List A)
      → key x ≤ key y
      → All (λ b. key y ≤ key b) xs
      → All (λ b. key x ≤ key b) xs
  All-le_trans x y [] h f = tt
  All-le_trans x y (a ∷ xs) h f = (omega (arith, f.0), All-le_trans x y xs h f.1)

  insert_by-Ascending : (x : A) (xs : List A) → Ascending xs → Ascending (insert_by x xs)
  unfolding insert_by
  insert_by-Ascending x [] h = (tt, tt)
  insert_by-Ascending x (a ∷ xs) h = elim (Bool-cases (leb (key x) (key a))) [
    | inl e ↦ rw e ((ground (arith, e), All-le_trans x a xs (ground (arith, e)) h.0), h)
    | inr e ↦ rw e (
      All-insert_by (λ b. key a ≤ key b) x xs (ground (arith, e)) h.0,
      insert_by-Ascending x xs h.1,
    )
  ]

  pub sort_by-Ascending : (xs : List A) → Ascending (sort_by xs)
  unfolding sort_by
  sort_by-Ascending [] = tt
  sort_by-Ascending (a ∷ xs) = insert_by-Ascending a (sort_by xs) (sort_by-Ascending xs)

List_set : IsSet (List ℕ)
List_set = hlevel

-- The default sort of numbers.
abbrev pub sort : List ℕ → List ℕ
sort = sort_by (λ x. x)

insert_by_comm :
    (x y : ℕ) (ys : List ℕ)
    → insert_by (λ n. n) x (insert_by (λ n. n) y ys)
      ≡ insert_by (λ n. n) y (insert_by (λ n. n) x ys)
unfolding insert_by
insert_by_comm x y [] = ground arith
insert_by_comm x y (z ∷ ys) = ground (arith, insert_by_comm x y ys)

sort-permᴰ : {xs ys : List ℕ} → Permᴰ xs ys → sort xs ≡ sort ys
unfolding sort_by
sort-permᴰ Permᴰ.nil = refl
sort-permᴰ (Permᴰ.cons {b = b} {l₁ = l} e p) = rw (e, sort-permᴰ p)
sort-permᴰ (Permᴰ.swap {a' = a} {b' = b} {l = l} e f) = rw (e, f) (insert_by_comm b a (sort l))
sort-permᴰ (Permᴰ.trans p q) = sort-permᴰ p ∙ sort-permᴰ q

-- Sorting forgets the order of the input.
pub sort-perm : (xs ys : List ℕ) → Perm xs ys → sort xs ≡ sort ys
sort-perm xs ys p = ∥∥₁_elim p (List_set _ _) sort-permᴰ

module _ {ℓ} {A : Type ℓ} (f : A → ℕ) where
  insert_by-map :
      (x : A) (ys : List A) → map f (insert_by f x ys) ≡ insert_by (λ n. n) (f x) (map f ys)
  unfolding insert_by
  insert_by-map x [] = refl
  insert_by-map x (y ∷ ys) = ground (arith, insert_by-map x ys)

  -- Sorting records by a key sorts the keys.
  pub sort_by-map : (xs : List A) → map f (sort_by f xs) ≡ sort (map f xs)
  unfolding sort_by
  sort_by-map [] = refl
  sort_by-map (x ∷ xs) = rw (insert_by-map x (sort_by f xs), sort_by-map xs)
