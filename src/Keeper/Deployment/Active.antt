-- ===== src/Keeper/Deployment/Active.antt =====
-- The entry of the manifest that is found: the last activated record of V5 for the chain.
use everdraw.Base.{
  ℕ, ◌≡◌, refl, ap, sym, ℤ, pos, negsuc, Bool, true, false, Option, none, some, List, [], ◌∷◌, ◌++◌,
  arith, All, ◌==◌, Bool-cases, Option-cases, inl, inr, ◌⊎◌, ◌&&◌, ◌||◌, length, codes, every,
  eq_iff,
}
use everdraw.Draw.Input.{hex_digit}
use everdraw.Keeper.Deployment.{
  is_hex_digit, has_chain, is_v5_record, Entry, is_number, is_active, find_last,
}

-- `x` is the last of the list that has the property.
pub record Last {A : Type 0} (P : A → Type 0) (xs : List A) (x : A) : Type 0 where
  pub before : List A
  pub later : List A
  pub split : xs ≡ before ++ x ∷ later
  pub has_it : P x
  pub none_later : All (λ y. P y → ⊥) later

find_last-none :
    {A : Type 0} (p : A → Bool) (xs : List A) → find_last p xs ≡ none → All (λ y. p y ≡ false) xs
unfolding find_last
find_last-none p [] e = tt
find_last-none p (x ∷ xs) e = elim (Option-cases (find_last p xs)) [
  | inl nothing ↦ elim (Bool-cases (p x)) [
    | inl hit ↦ absurd (cc (rw (nothing, hit) at e))
    | inr miss ↦ (miss, find_last-none p xs nothing)
  ]
  | inr (y, found) ↦ absurd (cc (rw found at e))
]

All-none :
    {A : Type 0} (P : A → Type 0) (p : A → Bool)
    → ((x : A) → P x → p x ≡ true)
    → (xs : List A) → All (λ y. p y ≡ false) xs
    → All (λ y. P y → ⊥) xs
All-none P p complete [] h = tt
All-none P p complete (x ∷ xs) h =
    (λ q. absurd (cc (complete x q, h.0)), All-none P p complete xs h.1)

-- The test decides the property.
pub find_last-Last :
    {A : Type 0} (P : A → Type 0) (p : A → Bool)
    → ((x : A) → p x ≡ true → P x)
    → ((x : A) → P x → p x ≡ true)
    → (xs : List A) (x : A) → find_last p xs ≡ some x
    → Last P xs x
unfolding find_last
find_last-Last P p sound complete [] x e = absurd (cc e)
find_last-Last P p sound complete (y ∷ ys) x e = elim (Option-cases (find_last p ys)) [
  | inl nothing ↦ elim (Bool-cases (p y)) [
    | inl hit ↦
        let same : y ≡ x = cc (rw (nothing, hit) at e) in
        record {
          before = [];
          later = ys;
          split = ap (λ z. z ∷ ys) same;
          has_it = sound x (rw (sym same) hit);
          none_later = All-none P p complete ys (find_last-none p ys nothing);
        }
    | inr miss ↦ absurd (cc (rw (nothing, miss) at e))
  ]
  | inr (z, found) ↦
      let l = find_last-Last P p sound complete ys x (rw found (rw found at e)) in
      record {
        before = y ∷ l.before;
        later = l.later;
        split = ap (λ t. y ∷ t) l.split;
        has_it = l.has_it;
        none_later = l.none_later;
      }
]

-- A character that is a digit of a hexadecimal number.
abbrev pub Hex : ℕ → Type 0
Hex c = (d : ℕ) × (hex_digit c ≡ some d)

-- A record of V5: it says so, or it is built from src/v5 and names a commit by its 40 digits.
abbrev pub IsV5 : Entry → Type 0
IsV5 e =
    (e.protocol_version ≡ some (pos 5))
    ⊎ ((e.source ≡ "src/v5")
        × (length (codes e.deploy_commit) ≡ 40)
        × All Hex (codes e.deploy_commit))

-- An activated record of V5 for the chain, or for the manifest's chain if it names none.
pub record IsActive (chain_id : ℕ) (e : Entry) : Type 0 where
  pub of_v5 : IsV5 e
  pub on_chain : (e.chain_id ≡ none) ⊎ (e.chain_id ≡ some (pos chain_id))
  pub status : e.status ≡ "draw-manager-committed"

digit-Hex :
    (c : ℕ) (o : Option ℕ) → elim o [ none ↦ false | some d ↦ true ] ≡ true → (d : ℕ) × (o ≡ some d)
digit-Hex c none e = absurd (cc e)
digit-Hex c (some d) e = (d, refl)

some_digit : (o : Option ℕ) (d : ℕ) → o ≡ some d → elim o [ none ↦ false | some d ↦ true ] ≡ true
some_digit none d e = absurd (cc e)
some_digit (some x) d e = refl

every-Hex : (cs : List ℕ) → every is_hex_digit cs ≡ true → All Hex cs
every-Hex [] e = tt
every-Hex (c ∷ cs) e =
    (digit-Hex c (hex_digit c) (ground (arith, e)), every-Hex cs (ground (arith, e)))

Hex-every : (cs : List ℕ) → All Hex cs → every is_hex_digit cs ≡ true
Hex-every [] h = refl
Hex-every (c ∷ cs) ((d, e), h) =
    let first : is_hex_digit c ≡ true = some_digit (hex_digit c) d e in rw (first, Hex-every cs h)

is_number-pos : (n : ℕ) (o : Option ℤ) → is_number n o ≡ true → o ≡ some (pos n)
is_number-pos n none e = absurd (cc e)
is_number-pos n (some (pos m)) e = let same : m ≡ n = ground (arith, e) in rw same
is_number-pos n (some (negsuc m)) e = absurd (cc e)

pos-is_number : (n : ℕ) (o : Option ℤ) → o ≡ some (pos n) → is_number n o ≡ true
pos-is_number n o e = rw e (ground arith)

or_cases : (a b : Bool) → (a || b) ≡ true → (a ≡ true) ⊎ (b ≡ true)
or_cases a b e = ground (arith, e)

and_both : (a b : Bool) → (a && b) ≡ true → (a ≡ true) × (b ≡ true)
and_both a b e = (ground (arith, e), ground (arith, e))

is_v5_record-IsV5 : (e : Entry) → is_v5_record e ≡ true → IsV5 e
unfolding is_v5_record
is_v5_record-IsV5 e h = elim (or_cases _ _ h) [
  | inl five ↦ inl (is_number-pos 5 e.protocol_version five)
  | inr built ↦
      let (source, commit) = and_both _ _ built in
      let (size, digits) =
        and_both (length (codes e.deploy_commit) == 40) (every is_hex_digit (codes e.deploy_commit))
          commit in
      inr (
        (eq_iff e.source "src/v5").0 source,
        ground (arith, size),
        every-Hex (codes e.deploy_commit) digits,
      )
]

IsV5-is_v5_record : (e : Entry) → IsV5 e → is_v5_record e ≡ true
unfolding is_v5_record
IsV5-is_v5_record e (inl five) = rw (pos-is_number 5 e.protocol_version five)
IsV5-is_v5_record e (inr (source, size, digits)) =
    let a = (eq_iff e.source "src/v5").1 source in
    let b : (length (codes e.deploy_commit) == 40) ≡ true = ground (arith, size) in
    let c = Hex-every (codes e.deploy_commit) digits in rw (a, b, c) (ground arith)

has_chain-cases :
    (chain_id : ℕ) (o : Option ℤ)
    → has_chain chain_id o ≡ true
    → (o ≡ none) ⊎ (o ≡ some (pos chain_id))
has_chain-cases chain_id none e = inl refl
has_chain-cases chain_id (some n) e = inr (is_number-pos chain_id (some n) e)

cases-has_chain :
    (chain_id : ℕ) (o : Option ℤ)
    → (o ≡ none) ⊎ (o ≡ some (pos chain_id))
    → has_chain chain_id o ≡ true
cases-has_chain chain_id o (inl e) = rw e
cases-has_chain chain_id o (inr e) = rw e (ground arith)

pub is_active-IsActive :
    (chain_id : ℕ) (e : Entry) → is_active chain_id e ≡ true → IsActive chain_id e
unfolding is_active
is_active-IsActive chain_id e h =
    let (v5, rest) = and_both _ _ h in
    let (chain, status) = and_both _ _ rest in
    record {
      of_v5 = is_v5_record-IsV5 e v5;
      on_chain = has_chain-cases chain_id e.chain_id chain;
      status = (eq_iff e.status "draw-manager-committed").0 status;
    }

pub IsActive-is_active :
    (chain_id : ℕ) (e : Entry) → IsActive chain_id e → is_active chain_id e ≡ true
unfolding is_active
IsActive-is_active chain_id e h = rw (
  IsV5-is_v5_record e h.of_v5,
  cases-has_chain chain_id e.chain_id h.on_chain,
  (eq_iff e.status "draw-manager-committed").1 h.status,
)
