-- ===== src/Base/Sets.antt =====
-- A `Set` of numbers, as the list of its members in the order in which they were added.
use Prim.Native.Nat.{ℕ, ◌+◌, ◌≤◌}
use mathlib.Core.Path.{◌≡◌, refl}
use mathlib.Core.Logic.{inl, inr}
use mathlib.Core.List.{List, [], ◌∷◌, ◌++◌}
use native.Mathlib.Omega.{arith}
use everdraw.Base.Tests.{if◌then◌else◌, ltb, ◌==◌, Bool-cases}
use everdraw.Base.Lists.{has}
use everdraw.Base.Sorting.{sort, sort_by, insert_by}

-- `set.add`.
unfoldable pub add_id : List ℕ → ℕ → List ℕ
add_id ids id = if has (λ j. j == id) ids then ids else ids ++ id ∷ []

unfoldable pub add_ids : List ℕ → List ℕ → List ℕ
add_ids ids [] = ids
add_ids ids (id ∷ more) = add_ids (add_id ids id) more

-- How many times the list holds `id`.
abbrev pub copies : ℕ → List ℕ → ℕ
copies id [] = 0
copies id (x ∷ xs) = (if x == id then 1 else 0) + copies id xs

copies-append : (id : ℕ) (xs ys : List ℕ) → copies id (xs ++ ys) ≡ copies id xs + copies id ys
copies-append id [] ys = omega arith
copies-append id (x ∷ xs) ys = omega (arith, copies-append id xs ys)

pub has-copies : (id : ℕ) (ids : List ℕ) → has (λ j. j == id) ids ≡ ltb 0 (copies id ids)
has-copies id [] = ground arith
has-copies id (x ∷ xs) = ground (arith, has-copies id xs)

copies-insert_by :
    (id x : ℕ) (ys : List ℕ) → copies id (insert_by (λ n. n) x ys) ≡ copies id (x ∷ ys)
unfolding insert_by
copies-insert_by id x [] = refl
copies-insert_by id x (y ∷ ys) = ground (arith, copies-insert_by id x ys)

pub copies-sort : (id : ℕ) (xs : List ℕ) → copies id (sort xs) ≡ copies id xs
unfolding sort_by
copies-sort id [] = refl
copies-sort id (x ∷ xs) = omega (arith, copies-insert_by id x (sort xs), copies-sort id xs)

pub copies-add_id :
    (id j : ℕ) (ids : List ℕ)
    → copies id ids ≤ 1
    → copies id (add_id ids j) ≡ (if j == id then 1 else copies id ids)
unfolding add_id
copies-add_id id j ids le = elim (Bool-cases (j == id)) [
  | inl same ↦
      let e : j ≡ id = ground (arith, same) in
      rw e (ground (arith, has-copies id ids, copies-append id ids (id ∷ [])))
  | inr other ↦ ground (arith, other, copies-append id ids (j ∷ []))
]

pub copies-add_ids :
    (id : ℕ) (ids more : List ℕ)
    → copies id ids ≤ 1
    → copies id (add_ids ids more) ≡ (if ltb 0 (copies id more) then 1 else copies id ids)
unfolding add_ids
copies-add_ids id ids [] le = ground arith
copies-add_ids id ids (j ∷ more) le =
    let added = copies-add_id id j ids le in
    let rest = copies-add_ids id (add_id ids j) more (ground (arith, added)) in
    ground (arith, rest, added)
