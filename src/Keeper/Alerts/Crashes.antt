-- ===== src/Keeper/Alerts/Crashes.antt =====
-- What the policy remembers of the exits, and when it raises a crash loop.
use everdraw.Base.{
  ℕ, ◌≤◌, ◌<◌, ◌≡◌, ◌≢◌, refl, ap, sym, ◌∙◌, Bool, true, false, List, [], ◌∷◌, ◌++◌, arith, All,
  ltb, ◌==◌, if◌then◌else◌, Bool-cases, inl, inr, keep, length, some, none, codes, lt→ltb, le→ltb,
}
use everdraw.Keeper.Alerts.{
  Text, Policy, recent, observe_exit, dedupe, emit, crash_event, within, init, Config,
}
use mathlib.Core.List.{map, append-nil, append_assoc}

-- The policy after the exits, each a code and a time.
pub after_exits : Policy → List (ℕ × ℕ) → Policy
after_exits p [] = p
after_exits p (e ∷ exits) = after_exits (observe_exit p e.0 e.1).0 exits

times-dedupe :
    (p : Policy) (key : Text) (now : ℕ) → (dedupe p key now).0.non_zero_exits ≡ p.non_zero_exits
unfolding dedupe
times-dedupe p key now = ground arith

config-dedupe : (p : Policy) (key : Text) (now : ℕ) → (dedupe p key now).0.config ≡ p.config
unfolding dedupe
config-dedupe p key now = ground arith

-- An exit with an error, as `observe_exit` computes it.
observe_exit_lem :
    (p : Policy) (code now : ℕ)
    → code ≢ 0
    → let times = recent p.crash_window_ms now p.non_zero_exits in
      let q = record p { non_zero_exits = times } in
      observe_exit p code now ≡ (
        if ltb (length times) p.crash_threshold
        then (q, none)
        else emit
            (dedupe q (codes "crash-loop") now)
            (crash_event (length times) p.crash_window_ms code))
unfolding observe_exit
observe_exit_lem p code now ne = let e : (code == 0) ≡ false = ground arith in rw e

fields-observe_exit :
    (p : Policy) (code now : ℕ)
    → code ≢ 0
    → ((observe_exit p code now).0.non_zero_exits ≡ recent p.crash_window_ms now p.non_zero_exits)
      × ((observe_exit p code now).0.config ≡ p.config)
fields-observe_exit p code now ne =
    let times = recent p.crash_window_ms now p.non_zero_exits in
    elim (Bool-cases (ltb (length times) p.crash_threshold)) [
      | inl few ↦ rw (observe_exit_lem p code now ne, few) (refl, refl)
      | inr many ↦
          rw (observe_exit_lem p code now ne, many)
            (times-dedupe _ (codes "crash-loop") now, config-dedupe _ (codes "crash-loop") now)
    ]

keep-append : (t : ℕ → Bool) (xs ys : List ℕ) → keep t (xs ++ ys) ≡ keep t xs ++ keep t ys
keep-append t [] ys = refl
keep-append t (x ∷ xs) ys = elim (Bool-cases (t x)) [
  | inl e ↦ rw e (ap (λ l. x ∷ l) (keep-append t xs ys))
  | inr e ↦ rw e (keep-append t xs ys)
]

-- A wider test before changes nothing.
keep-keep :
    (t u : ℕ → Bool)
    → ((x : ℕ) → t x ≡ true → u x ≡ true)
    → (xs : List ℕ) → keep t (keep u xs) ≡ keep t xs
keep-keep t u h [] = refl
keep-keep t u h (x ∷ xs) = elim (Bool-cases (u x)) [
  | inl e ↦ elim (Bool-cases (t x)) [
    | inl k ↦ rw (e, k) (ap (λ l. x ∷ l) (keep-keep t u h xs))
    | inr k ↦ rw (e, k) (keep-keep t u h xs)
  ]
  | inr e ↦ elim (Bool-cases (t x)) [
    | inl k ↦ absurd (cc (h x k, e))
    | inr k ↦ rw (e, k) (keep-keep t u h xs)
  ]
]

-- For every exit from `prev` on, the times that are kept are as good as all of them.
abbrev Agrees : Policy → List ℕ → ℕ → Type 0
Agrees p times prev =
    (now : ℕ)
    → prev ≤ now
    → keep (within p.crash_window_ms now) p.non_zero_exits
      ≡ keep (within p.crash_window_ms now) times

-- The exits come in order of time, from `prev` on.
abbrev pub Ascending : ℕ → List (ℕ × ℕ) → Type 0
Ascending prev [] = Unit {0}
Ascending prev (e ∷ exits) = prev ≤ e.1 × Ascending e.1 exits

abbrev pub last_time : ℕ → List (ℕ × ℕ) → ℕ
last_time prev [] = prev
last_time prev (e ∷ exits) = last_time e.1 exits

abbrev pub times_of : List (ℕ × ℕ) → List ℕ
times_of = map (λ e. e.1)

wider : (w t now : ℕ) → t ≤ now → (x : ℕ) → within w now x ≡ true → within w t x ≡ true
wider w t now le x e = ground arith

Agrees-recent :
    (p : Policy) (times : List ℕ) (prev t : ℕ)
    → prev ≤ t
    → Agrees p times prev
    → (now : ℕ) → t ≤ now
    → keep (within p.crash_window_ms now) (recent p.crash_window_ms t p.non_zero_exits)
      ≡ keep (within p.crash_window_ms now) (times ++ t ∷ [])
unfolding recent
Agrees-recent p times prev t le h now le' =
    let w = p.crash_window_ms in
    keep-keep (within w now) (within w t) (wider w t now le') (p.non_zero_exits ++ t ∷ [])
    ∙ (keep-append (within w now) p.non_zero_exits (t ∷ [])
        ∙ (ap (λ l. l ++ keep (within w now) (t ∷ [])) (h now (omega arith))
            ∙ sym (keep-append (within w now) times (t ∷ []))))

after_exits-Agrees :
    (exits : List (ℕ × ℕ)) (p : Policy) (times : List ℕ) (prev : ℕ)
    → All (λ e. e.0 ≢ 0) exits
    → Ascending prev exits
    → Agrees p times prev
    → ((after_exits p exits).config ≡ p.config)
      × Agrees (after_exits p exits) (times ++ times_of exits) (last_time prev exits)
unfolding after_exits
after_exits-Agrees [] p times prev nz asc h = (refl, rw (append-nil times) h)
after_exits-Agrees (e ∷ exits) p times prev nz asc h =
    let q = (observe_exit p e.0 e.1).0 in
    let (kept, same) = fields-observe_exit p e.0 e.1 nz.0 in
    let next : Agrees q (times ++ e.1 ∷ []) e.1 =
      λ now le. rw (same, kept) (Agrees-recent p times prev e.1 asc.0 h now le) in
    let (config, rest) = after_exits-Agrees exits q (times ++ e.1 ∷ []) e.1 nz.1 asc.1 next in
    (config ∙ same, rw (append_assoc times (e.1 ∷ []) (times_of exits)) at rest)

recent-Agrees :
    (p : Policy) (times : List ℕ) (prev now : ℕ)
    → prev ≤ now
    → Agrees p times prev
    → recent p.crash_window_ms now p.non_zero_exits
      ≡ keep (within p.crash_window_ms now) (times ++ now ∷ [])
unfolding recent
recent-Agrees p times prev now le h =
    keep-append (within p.crash_window_ms now) p.non_zero_exits (now ∷ [])
    ∙ (ap (λ l. l ++ keep (within p.crash_window_ms now) (now ∷ [])) (h now le)
        ∙ sym (keep-append (within p.crash_window_ms now) times (now ∷ [])))

-- What an exit leaves and raises, if `times` are the times that it keeps.
Raised : Policy → ℕ → ℕ → List ℕ → Type 0
Raised p code now times =
    let r = observe_exit p code now in
    (r.0.non_zero_exits ≡ times)
    × (length times < p.crash_threshold → r.1 ≡ none)
    × (p.crash_threshold ≤ length times
        → p.last_alert_at (codes "crash-loop") ≡ 0
        → r.1 ≡ some (crash_event (length times) p.crash_window_ms code))

observe_exit-Raised :
    (p : Policy) (code now : ℕ)
    → code ≢ 0
    → Raised p code now (recent p.crash_window_ms now p.non_zero_exits)
unfolding Raised dedupe
observe_exit-Raised p code now ne =
    let times = recent p.crash_window_ms now p.non_zero_exits in
    (
      (fields-observe_exit p code now ne).0,
      λ few. rw (observe_exit_lem p code now ne, lt→ltb (length times) p.crash_threshold few),
      λ many first.
          rw (observe_exit_lem p code now ne, le→ltb (length times) p.crash_threshold many, first),
    )

-- After exits with an error in order of time, the next one leaves in the policy exactly the times in
-- the window before it, and raises no crash loop if they are fewer than the threshold; if they are
-- as many, and no crash loop has been raised, it raises one that says how many.
pub crash_loop_raised :
    (c : Config) (exits : List (ℕ × ℕ)) (code now : ℕ)
    → All (λ e. e.0 ≢ 0) exits
    → Ascending 0 exits
    → code ≢ 0
    → last_time 0 exits ≤ now
    → let p = after_exits (init c) exits in
      let r = observe_exit p code now in
      let times = keep (within c.crash_window_ms now) (times_of exits ++ now ∷ []) in
      (r.0.non_zero_exits ≡ times)
      × (length times < c.crash_threshold → r.1 ≡ none)
      × (c.crash_threshold ≤ length times
          → p.last_alert_at (codes "crash-loop") ≡ 0
          → r.1 ≡ some (crash_event (length times) c.crash_window_ms code))
unfolding Raised init after_exits
crash_loop_raised c exits code now nz asc ne le =
    let p = after_exits (init c) exits in
    let (config, agrees) = after_exits-Agrees exits (init c) [] 0 nz asc (λ now le. refl) in
    let raised = observe_exit-Raised p code now ne in
    rw config at (rw (recent-Agrees p (times_of exits) (last_time 0 exits) now le agrees) at raised)
