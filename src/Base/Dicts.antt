-- ===== src/Base/Dicts.antt =====
-- Objects and maps with text keys, as association lists: `obj[k]`, `obj[k] = v` and `delete obj[k]`.
use Prim.Native.Nat.{ℕ, ◌+◌}
use Prim.Native.String.{String}
use mathlib.Core.Path.{◌≡◌, refl}
use mathlib.Core.Bool.{Bool}
use mathlib.Core.List.{List, [], ◌∷◌}
use mathlib.Core.Option.{Option, none, some}
use native.Mathlib.Omega.{arith}
use text.Mathlib.Text.{◌==◌ as str_eq}
use text.Mathlib.TextEquality.{eq_iff}
use everdraw.Base.Tests.{if◌then◌else◌}

abbrev pub Dict {ℓ} : Type ℓ → Type ℓ
Dict V = List (String × V)

module _ {ℓ} {V : Type ℓ} where
  unfoldable pub lookup : String → Dict V → Option V
  lookup k [] = none
  lookup k ((j, v) ∷ m) = if str_eq j k then some v else lookup k m

  unfoldable pub put : String → V → Dict V → Dict V
  put k v [] = (k, v) ∷ []
  put k v ((j, w) ∷ m) = if str_eq j k then (j, v) ∷ m else (j, w) ∷ put k v m

  unfoldable pub remove : String → Dict V → Dict V
  remove k [] = []
  remove k ((j, v) ∷ m) = let rest = remove k m in if str_eq j k then rest else (j, v) ∷ rest

  pub lookup-put :
      (k j : String) (v : V) (m : Dict V)
      → lookup j (put k v m) ≡ (if str_eq k j then some v else lookup j m)
  unfolding lookup put
  lookup-put k j v [] = refl
  lookup-put k j v ((i, w) ∷ m) =
      ground (arith, eq_iff k j, eq_iff i k, eq_iff i j, lookup-put k j v m)

  pub lookup-remove :
      (k j : String) (m : Dict V)
      → lookup j (remove k m) ≡ (if str_eq k j then none else lookup j m)
  unfolding lookup remove
  lookup-remove k j [] = ground arith
  lookup-remove k j ((i, w) ∷ m) =
      ground (arith, eq_iff k j, eq_iff i k, eq_iff i j, lookup-remove k j m)

  -- `Object.values(obj).filter(p).length`.
  abbrev pub one_if : (V → Bool) → Option V → ℕ
  one_if p none = 0
  one_if p (some v) = if p v then 1 else 0

  unfoldable pub count_values : (V → Bool) → Dict V → ℕ
  count_values p [] = 0
  count_values p ((k, v) ∷ m) = (if p v then 1 else 0) + count_values p m

  pub count_values-put :
      (p : V → Bool) (k : String) (v : V) (m : Dict V)
      → count_values p (put k v m) + one_if p (lookup k m)
        ≡ count_values p m + (if p v then 1 else 0)
  unfolding count_values put lookup
  count_values-put p k v [] = ground arith
  count_values-put p k v ((j, w) ∷ m) = ground (arith, count_values-put p k v m)
