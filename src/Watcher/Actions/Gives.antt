-- ===== src/Watcher/Actions/Gives.antt =====
-- An action that is sure to return.
use everdraw.Base.{◌≡◌, refl, Bool, true, false, List, [], ◌∷◌, Result, ok, err, All}
use everdraw.Watcher.Actions.{Failure, Action, after, give, throw_if, when, update, read, each}
use everdraw.Watcher.Actions.Keeps.{Any}

-- An action that returns, with what holds of the state and of what it returns.
abbrev pub Gives : {S A : Type 0} → (S → Type 0) → (A → Type 0) → Result Failure A × S → Type 0
Gives P Q (ok a, s) = P s × Q a
Gives P Q (err e, s) = ⊥

module _ {S : Type 0} where
  pub Gives-after :
      {A B : Type 0} (Mid P : S → Type 0) (Q : A → Type 0) (R : B → Type 0)
      (r : Result Failure A × S) (f : A → Action S B)
      → Gives Mid Q r
      → ((a : A) (s : S) → Q a → Mid s → Gives P R (f a s))
      → Gives P R (after r f)
  Gives-after Mid P Q R (ok a, s) f h k = k a s h.1 h.0
  Gives-after Mid P Q R (err e, s) f h k = absurd h

  pub Gives-each :
      {A : Type 0} (P : S → Type 0) (T : A → Type 0) (f : A → Action S (Unit {0}))
      → ((a : A) (s : S) → T a → P s → Gives P Any (f a s))
      → (xs : List A) (s : S) → All T xs
      → P s
      → Gives P Any (each f xs s)
  unfolding each
  Gives-each P T f k [] s t h = (h, tt)
  Gives-each P T f k (x ∷ xs) s t h =
      Gives-after P P Any Any (f x s) _ (k x s t.0 h) (λ _ s _ h. Gives-each P T f k xs s t.1 h)

  pub Gives-throw_if :
      (P : S → Type 0) (b : Bool) (e : Failure) (s : S)
      → b ≡ false
      → P s
      → Gives P Any (throw_if b e s)
  unfolding throw_if
  Gives-throw_if P true e s h p = absurd (cc h)
  Gives-throw_if P false e s h p = (p, tt)

  pub Gives-give :
      {A : Type 0} (P : S → Type 0) (Q : A → Type 0) (a : A) (s : S)
      → P s
      → Q a
      → Gives P Q (give a s)
  unfolding give
  Gives-give P Q a s p q = (p, q)

  pub Gives-read :
      {A : Type 0} (P : S → Type 0) (Q : A → Type 0) (f : S → A) (s : S)
      → P s
      → Q (f s)
      → Gives P Q (read f s)
  unfolding read
  Gives-read P Q f s p q = (p, q)

  pub Gives-when :
      (P : S → Type 0) (b : Bool) (m : Action S (Unit {0})) (s : S)
      → P s
      → (b ≡ true → Gives P Any (m s))
      → Gives P Any (when b m s)
  unfolding when
  Gives-when P true m s p k = k refl
  Gives-when P false m s p k = (p, tt)

  pub Gives-update : (P : S → Type 0) (f : S → S) (s : S) → P (f s) → Gives P Any (update f s)
  unfolding update
  Gives-update P f s p = (p, tt)

  pub Gives-mono :
      {A : Type 0} (P : S → Type 0) (Q R : A → Type 0) (r : Result Failure A × S)
      → ((a : A) → Q a → R a)
      → Gives P Q r
      → Gives P R r
  Gives-mono P Q R (ok a, s) k h = (h.0, k a h.1)
  Gives-mono P Q R (err e, s) k h = h

  pub Gives-state :
      {A : Type 0} (P R : S → Type 0) (Q : A → Type 0) (r : Result Failure A × S)
      → ((s : S) → P s → R s)
      → Gives P Q r
      → Gives R Q r
  Gives-state P R Q (ok a, s) k h = (k s h.0, h.1)
  Gives-state P R Q (err e, s) k h = h

  pub Gives-left :
      {A : Type 0} (P : S → Type 0) (Q : A → Type 0) (r : Result Failure A × S)
      → Gives P Q r
      → P r.1
  Gives-left P Q (ok a, s) h = h.0
  Gives-left P Q (err e, s) h = absurd h
