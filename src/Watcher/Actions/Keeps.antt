-- ===== src/Watcher/Actions/Keeps.antt =====
-- An action keeps an invariant of the state, whether it returns or throws, and what it returns meets
-- a condition.
use everdraw.Base.{
  ◌≡◌, refl, Bool, true, false, Option, none, some, List, [], ◌∷◌, Result, ok, err, All,
  if◌then◌else◌,
}
use everdraw.Watcher.Actions.{
  Failure, Action, after, give, throw, throw_if, or_fail, when, update, read, each, collect,
}

abbrev pub Returned : {A : Type 0} → (A → Type 0) → Result Failure A → Type 0
Returned Q (ok a) = Q a
Returned Q (err e) = Unit {0}

abbrev pub Any : {A : Type 0} → A → Type 0
Any a = Unit {0}

module _ {S : Type 0} (P : S → Type 0) where
  pub record Post {A : Type 0} (Q : A → Type 0) (r : Result Failure A × S) : Type 0 where
    pub state : P r.1
    pub result : Returned Q r.0

  abbrev pub Keeps : {A : Type 0} → (A → Type 0) → Action S A → Type 0
  Keeps Q m = (s : S) → P s → Post Q (m s)

  pub Post-after :
      {A B : Type 0} (Q : A → Type 0) (R : B → Type 0) (r : Result Failure A × S)
      (f : A → Action S B)
      → Post Q r
      → ((a : A) → Q a → Keeps R (f a))
      → Post R (after r f)
  Post-after Q R (ok a, s) f h k = k a h.result s h.state
  Post-after Q R (err e, s) f h k = record { state = h.state; result = tt }

  pub Post-give : {A : Type 0} (Q : A → Type 0) (a : A) (s : S) → P s → Q a → Post Q (give a s)
  unfolding give
  Post-give Q a s p q = record { state = p; result = q }

  pub Keeps-give : {A : Type 0} (a : A) → Keeps Any (give a)
  unfolding give
  Keeps-give a s p = record { state = p; result = tt }

  pub Keeps-throw : {A : Type 0} (Q : A → Type 0) (e : Failure) → Keeps Q (throw e)
  unfolding throw
  Keeps-throw Q e s p = record { state = p; result = tt }

  pub Keeps-throw_if : (b : Bool) (e : Failure) → Keeps (λ _. b ≡ false) (throw_if b e)
  unfolding throw_if
  Keeps-throw_if true e s p = record { state = p; result = tt }
  Keeps-throw_if false e s p = record { state = p; result = refl }

  pub Keeps-or_fail :
      {A : Type 0} (e : Failure) (o : Option A) → Keeps (λ a. o ≡ some a) (or_fail e o)
  unfolding or_fail
  Keeps-or_fail e none s p = record { state = p; result = tt }
  Keeps-or_fail e (some a) s p = record { state = p; result = refl }

  pub Keeps-when : (b : Bool) (m : Action S (Unit {0})) → Keeps Any m → Keeps Any (when b m)
  unfolding when
  Keeps-when true m h s p = h s p
  Keeps-when false m h s p = record { state = p; result = tt }

  -- What the condition says is known in the action.
  pub Keeps-when_known :
      (b : Bool) (m : Action S (Unit {0})) → (b ≡ true → Keeps Any m) → Keeps Any (when b m)
  unfolding when
  Keeps-when_known true m h s p = h refl s p
  Keeps-when_known false m h s p = record { state = p; result = tt }

  pub Keeps-if :
      {A : Type 0} (Q : A → Type 0) (b : Bool) (m n : Action S A)
      → (b ≡ true → Keeps Q m)
      → (b ≡ false → Keeps Q n)
      → Keeps Q (if b then m else n)
  Keeps-if Q true m n h k s p = h refl s p
  Keeps-if Q false m n h k s p = k refl s p

  pub Keeps-read : {A : Type 0} (f : S → A) → Keeps Any (read f)
  unfolding read
  Keeps-read f s p = record { state = p; result = tt }

  -- What the invariant says of what is read.
  pub Keeps-read_known :
      {A : Type 0} (Q : A → Type 0) (f : S → A) → ((s : S) → P s → Q (f s)) → Keeps Q (read f)
  unfolding read
  Keeps-read_known Q f h s p = record { state = p; result = h s p }

  pub Keeps-update : (f : S → S) → ((s : S) → P s → P (f s)) → Keeps Any (update f)
  unfolding update
  Keeps-update f h s p = record { state = h s p; result = tt }

  pub Keeps-each :
      {A : Type 0} (f : A → Action S (Unit {0}))
      → ((a : A) → Keeps Any (f a))
      → (xs : List A) → Keeps Any (each f xs)
  unfolding each
  Keeps-each f h [] s p = record { state = p; result = tt }
  Keeps-each f h (x ∷ xs) s p = Post-after Any Any (f x s) _ (h x s p) (λ _ _. Keeps-each f h xs)

  pub Keeps-collect :
      {A B : Type 0} (f : A → Action S B)
      → ((a : A) → Keeps Any (f a))
      → (xs : List A) → Keeps Any (collect f xs)
  unfolding collect
  Keeps-collect f h [] s p = record { state = p; result = tt }
  Keeps-collect f h (x ∷ xs) s p = Post-after Any Any (f x s) _ (h x s p) λ y _ s' p'.
      Post-after Any Any (collect f xs s') _ (Keeps-collect f h xs s' p')
        (λ ys _ s'' p''. record { state = p''; result = tt })

  -- The results of every call.
  pub Keeps-collect_all :
      {A B : Type 0} (T : B → Type 0) (f : A → Action S B)
      → ((a : A) → Keeps T (f a))
      → (xs : List A) → Keeps (All T) (collect f xs)
  unfolding collect
  Keeps-collect_all T f h [] s p = record { state = p; result = tt }
  Keeps-collect_all T f h (x ∷ xs) s p = Post-after T (All T) (f x s) _ (h x s p) λ y t s' p'.
      Post-after (All T) (All T) (collect f xs s') _ (Keeps-collect_all T f h xs s' p')
        (λ ys ts s'' p''. record { state = p''; result = (t, ts) })

  pub Keeps-bind :
      {A B : Type 0} (Q : A → Type 0) (R : B → Type 0) (m : Action S A) (f : A → Action S B)
      → Keeps Q m
      → ((a : A) → Q a → Keeps R (f a))
      → Keeps R (λ s. after (m s) f)
  Keeps-bind Q R m f h k s p = Post-after Q R (m s) f (h s p) k

  -- Where nothing is known of what the first action returns.
  pub Keeps-then :
      {A B : Type 0} (R : B → Type 0) (m : Action S A) (f : A → Action S B)
      → Keeps Any m
      → ((a : A) → Keeps R (f a))
      → Keeps R (λ s. after (m s) f)
  Keeps-then R m f h k s p = Post-after Any R (m s) f (h s p) (λ a _. k a)

  pub Keeps-check : (b : Bool) (e : Failure) → Keeps Any (throw_if b e)
  unfolding throw_if
  Keeps-check true e s p = record { state = p; result = tt }
  Keeps-check false e s p = record { state = p; result = tt }

  pub Keeps-found : {A : Type 0} (e : Failure) (o : Option A) → Keeps Any (or_fail e o)
  unfolding or_fail
  Keeps-found e none s p = record { state = p; result = tt }
  Keeps-found e (some a) s p = record { state = p; result = tt }

  pub Post-weaken :
      {A : Type 0} (Q R : A → Type 0) (r : Result Failure A × S)
      → ((a : A) → Q a → R a)
      → Post Q r
      → Post R r
  Post-weaken Q R (ok a, s) k h = record { state = h.state; result = k a h.result }
  Post-weaken Q R (err e, s) k h = record { state = h.state; result = tt }

  -- What an action under a condition returns is known where the condition holds.
  pub Keeps-when_gives :
      (b : Bool) (m : Action S (Unit {0})) (Q : Type 0)
      → (b ≡ true → Keeps (λ _. Q) m)
      → Keeps (λ _. b ≡ true → Q) (when b m)
  unfolding when
  Keeps-when_gives true m Q h s p = let r = h refl s p in Post-weaken _ _ (m s) (λ _ q _. q) r
  Keeps-when_gives false m Q h s p = record { state = p; result = λ e. absurd (cc e) }

  -- A check that changes nothing, and what follows it.
  pub Post-throw_if :
      {B : Type 0} (R : B → Type 0) (b : Bool) (e : Failure) (f : Unit {0} → Action S B) (s : S)
      → P s
      → (b ≡ false → Post R (f tt s))
      → Post R (after (throw_if b e s) f)
  unfolding throw_if
  Post-throw_if R true e f s p k = record { state = p; result = tt }
  Post-throw_if R false e f s p k = k refl

-- The same of another invariant that follows.
pub Post-mono :
    {S A : Type 0} (P P' : S → Type 0) (Q : A → Type 0) (r : Result Failure A × S)
    → ((s : S) → P s → P' s)
    → Post P Q r
    → Post P' Q r
Post-mono P P' Q r k h = record { state = k r.1 h.state; result = h.result }

-- What holds of the state where an action returns, and where it throws.
abbrev pub Ends : {S A : Type 0} → (Ok Thrown : S → Type 0) → Result Failure A × S → Type 0
Ends Ok Thrown (ok a, s) = Ok s
Ends Ok Thrown (err e, s) = Thrown s

module _ {S A B : Type 0} (Ok Thrown : S → Type 0) where
  pub Ends-after :
      (Mid : S → Type 0) (r : Result Failure A × S) (f : A → Action S B)
      → Ends Mid Thrown r
      → ((a : A) (s : S) → Mid s → Ends Ok Thrown (f a s))
      → Ends Ok Thrown (after r f)
  Ends-after Mid (ok a, s) f h k = k a s h
  Ends-after Mid (err e, s) f h k = h

  pub Ends-Post :
      (P : S → Type 0) (Q : A → Type 0) (r : Result Failure A × S) (f : A → Action S B)
      → ((s : S) → P s → Thrown s)
      → Post P Q r
      → ((a : A) (s : S) → Q a → P s → Ends Ok Thrown (f a s))
      → Ends Ok Thrown (after r f)
  Ends-Post P Q (ok a, s) f t h k = k a s h.result h.state
  Ends-Post P Q (err e, s) f t h k = t s h.state

pub Ends-mono :
    {S A : Type 0} (Ok Ok' Thrown : S → Type 0) (r : Result Failure A × S)
    → ((s : S) → Ok s → Ok' s)
    → Ends Ok Thrown r
    → Ends Ok' Thrown r
Ends-mono Ok Ok' Thrown (ok a, s) k h = k s h
Ends-mono Ok Ok' Thrown (err e, s) k h = h
