-- ===== src/Base/Results.antt =====
-- Code that may throw: a result, or the error that is thrown.
use mathlib.Core.Path.{◌≡◌, refl, subst}
use mathlib.Core.List.{List, [], ◌∷◌}
use mathlib.Core.Bool.{Bool, true, false}
use mathlib.Core.Option.{Option, none, some}

pub data Result {ℓ} (E A : Type ℓ) : Type ℓ where
  ok : A → Result E A
  err : E → Result E A

infixl 5 ◌>>=◌ ◌>>◌
abbrev pub ◌>>=◌ {ℓ} : {E A B : Type ℓ} → Result E A → (A → Result E B) → Result E B
ok a >>= f = f a
err e >>= f = err e

abbrev pub ◌>>◌ : {E B : Type 0} → Result E (Unit {0}) → Result E B → Result E B
m >> k = m >>= λ _. k

-- `if (!b) throw e`.
abbrev pub guard : {E : Type 0} → Bool → E → Result E (Unit {0})
guard true e = ok tt
guard false e = err e

abbrev pub or_throw {ℓ} : {E A : Type ℓ} → Option A → E → Result E A
or_throw none e = err e
or_throw (some a) e = ok a

-- `xs.map(f)` for an `f` that may throw: the first error ends it.
abbrev pub map_result {ℓ} : {E A B : Type ℓ} → (A → Result E B) → List A → Result E (List B)
map_result f [] = ok []
map_result f (x ∷ xs) = f x >>= λ y. map_result f xs >>= λ ys. ok (y ∷ ys)

-- What a result says where nothing is thrown.
abbrev pub Ensures {ℓ} : {E A : Type ℓ} → (A → Type ℓ) → Result E A → Type ℓ
Ensures P (ok a) = P a
Ensures P (err e) = Unit

module _ {E A : Type 0} (P : A → Type 0) where
  pub Ensures-bind :
      {B : Type 0} (m : Result E B) (f : B → Result E A)
      → ((b : B) → Ensures P (f b))
      → Ensures P (m >>= f)
  Ensures-bind (ok b) f h = h b
  Ensures-bind (err e) f h = tt

  pub Ensures-guard :
      (b : Bool) (e : E) (r : Result E A) → (b ≡ true → Ensures P r) → Ensures P (guard b e >> r)
  Ensures-guard true e r h = h refl
  Ensures-guard false e r h = tt

  pub Ensures-elim : (m : Result E A) (a : A) → Ensures P m → m ≡ ok a → P a
  Ensures-elim m a h e = subst (Ensures P) e h

pub Ensures-then :
    {E A B : Type 0} (Q : B → Type 0) (P : A → Type 0) (m : Result E B) (f : B → Result E A)
    → Ensures Q m
    → ((b : B) → Q b → Ensures P (f b))
    → Ensures P (m >>= f)
Ensures-then Q P (ok b) f h k = k b h
Ensures-then Q P (err e) f h k = tt

pub Ensures-run :
    {E A B : Type 0} (P : A → Type 0) (m : Result E B) (f : B → Result E A)
    → ((b : B) → m ≡ ok b → Ensures P (f b))
    → Ensures P (m >>= f)
Ensures-run P (ok b) f k = k b refl
Ensures-run P (err e) f k = tt
