-- ===== src/Base/Tables.antt =====
-- Objects whose keys are numbers, or pairs of them, as association lists in the order of insertion.
use Prim.Native.Nat.{ℕ}
use mathlib.Core.Path.{◌≡◌, refl, sym, ◌∙◌}
use mathlib.Core.Logic.{◌↔◌, inl, inr}
use mathlib.Core.Bool.{Bool, true}
use mathlib.Core.List.{List, [], ◌∷◌}
use mathlib.Core.Option.{Option, none, some}
use native.Mathlib.Omega.{arith}
use everdraw.Base.Tests.{if◌then◌else◌, ◌==◌, Bool-cases}

abbrev pub Table : Type 0 → Type 0 → Type 0
Table K V = List (K × V)

module _ {K V : Type 0} (same : K → K → Bool) where
  -- `table[k]`.
  unfoldable pub find : K → Table K V → Option V
  find k [] = none
  find k ((j, v) ∷ m) = if same j k then some v else find k m

  -- `table[k] = v`.
  unfoldable pub assign : K → V → Table K V → Table K V
  assign k v [] = (k, v) ∷ []
  assign k v ((j, w) ∷ m) = if same j k then (j, v) ∷ m else (j, w) ∷ assign k v m

  pub find-assign :
      ((j k : K) → (same j k ≡ true) ↔ (j ≡ k))
      → (k j : K) (v : V) (m : Table K V)
      → find j (assign k v m) ≡ (if same k j then some v else find j m)
  unfolding find assign
  find-assign iff k j v [] = refl
  find-assign iff k j v ((i, w) ∷ m) =
      ground (arith, iff k j, iff i k, iff i j, find-assign iff k j v m)

-- `Object.values(table)`, changed one by one.
unfoldable pub map_values : {K V : Type 0} → (V → V) → Table K V → Table K V
map_values f [] = []
map_values f ((k, v) ∷ m) = (k, f v) ∷ map_values f m

-- Tables by a number.
pub number_iff : (j k : ℕ) → ((j == k) ≡ true) ↔ (j ≡ k)
number_iff j k = ground arith

abbrev pub find_number : {V : Type 0} → ℕ → Table ℕ V → Option V
find_number = find ◌==◌

abbrev pub assign_number : {V : Type 0} → ℕ → V → Table ℕ V → Table ℕ V
assign_number = assign ◌==◌

pub find_number-assign :
    {V : Type 0} (k j : ℕ) (v : V) (m : Table ℕ V)
    → find_number j (assign_number k v m) ≡ (if k == j then some v else find_number j m)
find_number-assign = find-assign ◌==◌ number_iff

some_inj : {V : Type 0} (v w : V) → some v ≡ some w → v ≡ w
some_inj v w e = cc

-- What holds of a new entry and of the old ones holds of all.
pub find_number-assign_all :
    {V : Type 0} (P : ℕ → V → Type 0) (k : ℕ) (v : V) (m : Table ℕ V)
    → P k v
    → ((j : ℕ) (w : V) → find_number j m ≡ some w → P j w)
    → (j : ℕ) (w : V) → find_number j (assign_number k v m) ≡ some w
    → P j w
find_number-assign_all P k v m new old j w found =
    let e = sym (find_number-assign k j v m) ∙ found in
    elim (Bool-cases (k == j)) [
      | inl same ↦
          let key : k ≡ j = ground (arith, same) in
          let value : v ≡ w = some_inj v w (rw same at e) in rw (← key, ← value) new
      | inr other ↦ old j w (rw other at e)
    ]
