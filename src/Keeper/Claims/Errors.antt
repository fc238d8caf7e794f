-- ===== src/Keeper/Claims/Errors.antt =====
-- scripts/keeper/claim-isolation.mjs, `terminalClaimError`: the errors that no retry can mend.
use everdraw.Base.{
  ◌≡◌, refl, String, Bool, true, false, ◌||◌, Option, none, some, List, [], ◌∷◌, subst, arith, All,
  codes, lower, includes, if◌then◌else◌, Bool-cases, Option-cases, inl, inr, ◌⊎◌,
}

-- The parts of an error that are looked through; `none` is one that is no text.
pub record ClaimError : Type 0 where
  pub own_data : Option String
  pub info_error_data : Option String
  pub error_data : Option String
  pub revert_data : Option String
  pub revert_name : Option String
  pub revert_signature : Option String
  pub revert_arg : Option String
  pub reason : Option String
  pub short_message : Option String
  pub message : Option String

abbrev pub texts : List (Option String) → List String
texts [] = []
texts (none ∷ values) = texts values
texts (some t ∷ values) = t ∷ texts values

unfoldable pub error_values : ClaimError → List String
error_values e = texts (
    e.own_data ∷ e.info_error_data ∷ e.error_data ∷ e.revert_data ∷ e.revert_name
    ∷ e.revert_signature ∷ e.reason ∷ e.short_message ∷ e.message ∷ [])

pub record Terminal : Type 0 where
  pub selector : String
  pub name : String

abbrev pub terminal_claim_errors : List Terminal
terminal_claim_errors =
    record { selector = "0x09bde339"; name = "InvalidProof" }
    ∷ record { selector = "0x3a35c2f9"; name = "DistributionNotFound" }
    ∷ record { selector = "0x646cf558"; name = "AlreadyClaimed" }
    ∷ record { selector = "0x89d99da3"; name = "BadLeaf" }
    ∷ []

unfoldable pub mentions : String → Terminal → Bool
mentions value t =
    let normalized = lower (codes value) in
    includes normalized (codes t.selector) || includes normalized (lower (codes t.name))

-- The inner loop: the first error of the table that the text mentions.
unfoldable pub first_mentioned : String → List Terminal → Option Terminal
first_mentioned value [] = none
first_mentioned value (t ∷ table) = if mentions value t then some t else first_mentioned value table

unfoldable pub search_values : List String → Option Terminal
search_values [] = none
search_values (value ∷ values) = elim (first_mentioned value terminal_claim_errors) [
  | none ↦ search_values values
  | some t ↦ some t
]

unfoldable pub terminal_claim_error : ClaimError → Option Terminal
unfolding search_values
terminal_claim_error e = search_values (error_values e)

first_mentioned_sound :
    (value : String) (table : List Terminal) (t : Terminal)
    → first_mentioned value table ≡ some t
    → mentions value t ≡ true
unfolding first_mentioned
first_mentioned_sound value [] t e = cc
first_mentioned_sound value (u ∷ table) t e = elim (Bool-cases (mentions value u)) [
  | inl hit ↦ ground (arith, hit, e)
  | inr miss ↦ first_mentioned_sound value table t (rw miss at e)
]

first_mentioned-none :
    (value : String) (table : List Terminal)
    → first_mentioned value table ≡ none
    → All (λ t. mentions value t ≡ false) table
unfolding first_mentioned
first_mentioned-none value [] e = tt
first_mentioned-none value (u ∷ table) e = elim (Bool-cases (mentions value u)) [
  | inl hit ↦ absurd (cc (rw hit at e))
  | inr miss ↦ (miss, first_mentioned-none value table (rw miss at e))
]

-- The list holds a text with the property.
abbrev pub Some : (String → Type 0) → List String → Type 0
Some P [] = ⊥
Some P (v ∷ vs) = P v ⊎ Some P vs

-- One of the texts that there are.
abbrev pub OneOf : String → List (Option String) → Type 0
OneOf v [] = ⊥
OneOf v (o ∷ os) = (o ≡ some v) ⊎ OneOf v os

-- The nine parts of an error that may be texts; the arguments of a revert are left out.
abbrev parts : ClaimError → List (Option String)
parts e =
    e.own_data ∷ e.info_error_data ∷ e.error_data ∷ e.revert_data ∷ e.revert_name
    ∷ e.revert_signature ∷ e.reason ∷ e.short_message ∷ e.message ∷ []

abbrev pub IsText : ClaimError → String → Type 0
IsText e v = OneOf v (parts e)

-- In whatever case, the text holds the selector or the name.
abbrev pub Names : String → Terminal → Type 0
Names v t =
    (includes (lower (codes v)) (codes t.selector) ≡ true)
    ⊎ (includes (lower (codes v)) (lower (codes t.name)) ≡ true)

abbrev pub InTable : Terminal → List Terminal → Type 0
InTable t [] = ⊥
InTable t (u ∷ table) = (u ≡ t) ⊎ InTable t table

-- The four errors of the claim manager that no retry can mend.
abbrev lasting : List Terminal
lasting =
    record { selector = "0x09bde339"; name = "InvalidProof" }
    ∷ record { selector = "0x3a35c2f9"; name = "DistributionNotFound" }
    ∷ record { selector = "0x646cf558"; name = "AlreadyClaimed" }
    ∷ record { selector = "0x89d99da3"; name = "BadLeaf" }
    ∷ []

abbrev pub IsLasting : Terminal → Type 0
IsLasting t = InTable t lasting

mentions-Names : (v : String) (t : Terminal) → mentions v t ≡ true → Names v t
unfolding mentions
mentions-Names v t e = ground (arith, e)

mentions-unnamed : (v : String) (t : Terminal) → mentions v t ≡ false → Names v t → ⊥
unfolding mentions
mentions-unnamed v t e (inl h) = ground (arith, e, h)
mentions-unnamed v t e (inr h) = ground (arith, e, h)

first_mentioned-InTable :
    (value : String) (table : List Terminal) (t : Terminal)
    → first_mentioned value table ≡ some t
    → InTable t table
unfolding first_mentioned
first_mentioned-InTable value [] t e = absurd (cc e)
first_mentioned-InTable value (u ∷ table) t e = elim (Bool-cases (mentions value u)) [
  | inl hit ↦ inl (cc (rw hit at e))
  | inr miss ↦ inr (first_mentioned-InTable value table t (rw miss at e))
]

texts-Some :
    (P : String → Type 0) (os : List (Option String))
    → Some P (texts os)
    → (v : String) × OneOf v os × P v
texts-Some P [] h = absurd h
texts-Some P (none ∷ os) h = let (v, at, p) = texts-Some P os h in (v, inr at, p)
texts-Some P (some t ∷ os) (inl p) = (t, inl refl, p)
texts-Some P (some t ∷ os) (inr h) = let (v, at, p) = texts-Some P os h in (v, inr at, p)

texts-All :
    (P : String → Type 0) (os : List (Option String))
    → All P (texts os)
    → (v : String) → OneOf v os
    → P v
texts-All P [] h v at = absurd at
texts-All P (none ∷ os) h v (inl e) = absurd (cc e)
texts-All P (none ∷ os) h v (inr at) = texts-All P os h v at
texts-All P (some t ∷ os) h v (inl e) = let same : t ≡ v = cc e in subst P same h.0
texts-All P (some t ∷ os) h v (inr at) = texts-All P os h.1 v at

InTable-All :
    (P : Terminal → Type 0) (table : List Terminal) (t : Terminal)
    → All P table
    → InTable t table
    → P t
InTable-All P [] t h at = absurd at
InTable-All P (u ∷ table) t h (inl e) = subst P e h.0
InTable-All P (u ∷ table) t h (inr at) = InTable-All P table t h.1 at

search_values_lem :
    (values : List String)
    → ((t : Terminal) × (search_values values ≡ some t)
        × IsLasting t
        × Some (λ v. mentions v t ≡ true) values)
      ⊎ ((search_values values ≡ none)
          × All (λ v. All (λ t. mentions v t ≡ false) terminal_claim_errors) values)
unfolding search_values
search_values_lem [] = inr (refl, tt)
search_values_lem (v ∷ values) = elim (Option-cases (first_mentioned v terminal_claim_errors)) [
  | inl e ↦ elim (search_values_lem values) [
    | inl (t, run, listed, h) ↦ inl (t, rw (e, search_values) run, listed, inr h)
    | inr (run, h) ↦ inr (rw (e, search_values) run, (first_mentioned-none v _ e, h))
  ]
  | inr (t, e) ↦ inl (
    t,
    rw (e, search_values),
    first_mentioned-InTable v _ t e,
    inl (first_mentioned_sound v _ t e),
  )
]

-- An error is found to be terminal as one of four, and only if one of its nine texts holds, in
-- whatever case, the selector or the name of that one; it is found not to be terminal only if no text
-- of it holds a selector or a name of the four.
pub terminal_claim_error_lem :
    (e : ClaimError)
    → ((t : Terminal) × (terminal_claim_error e ≡ some t)
        × IsLasting t
        × ((v : String) × IsText e v × Names v t))
      ⊎ ((terminal_claim_error e ≡ none)
          × ((v : String) (t : Terminal) → IsText e v → IsLasting t → Names v t → ⊥))
unfolding terminal_claim_error error_values
terminal_claim_error_lem e = elim (search_values_lem (error_values e)) [
  | inl (t, run, listed, h) ↦
      let (v, at, mentioned) = texts-Some (λ v. mentions v t ≡ true) (parts e) h in
      inl (t, run, listed, (v, at, mentions-Names v t mentioned))
  | inr (run, h) ↦ inr (
    run,
    λ v t at listed. mentions-unnamed v t (
        InTable-All (λ t. mentions v t ≡ false) lasting t
          (texts-All (λ v. All (λ t. mentions v t ≡ false) lasting) (parts e) h v at) listed),
  )
]
