-- ===== src/Keeper/Alerts/Spacing.antt =====
-- Two alerts under one key never come within the repeat interval.
use everdraw.Base.{
  ℕ, ◌+◌, ◌≤◌, ◌<◌, ◌≡◌, ◌≢◌, refl, sym, true, false, List, [], ◌∷◌, arith, All, ltb, ◌==◌, ◌&&◌,
  not, if◌then◌else◌, if_pos, if_neg, Bool-cases, inl, inr, ◌⊎◌,
}
use everdraw.Keeper.Alerts.{Text, Text-discrete, Policy, dedupe}

-- The alerts that go out when the policy is asked for these keys at these times.
pub sends : Policy → List (Text × ℕ) → List (Text × ℕ)
sends p [] = []
sends p (c ∷ calls) =
    let asked = dedupe p c.0 c.1 in
    let rest = sends asked.0 calls in if asked.1 then c ∷ rest else rest

-- After each alert, those under its key come `gap` later at the earliest.
abbrev pub Spaced : ℕ → List (Text × ℕ) → Type 0
Spaced gap [] = Unit {0}
Spaced gap (a ∷ alerts) = All (λ b. b.0 ≡ a.0 → a.1 + gap ≤ b.1) alerts × Spaced gap alerts

-- What a call does that lets its alert through.
record Sent (p q : Policy) (key : Text) (now : ℕ) : Type 0 where
  same_gap : q.repeat_ms ≡ p.repeat_ms
  set : q.last_alert_at key ≡ now
  kept : (j : Text) → j ≢ key → q.last_alert_at j ≡ p.last_alert_at j
  apart : p.last_alert_at key ≢ 0 → p.last_alert_at key + p.repeat_ms ≤ now

dedupe-Sent :
    (p : Policy) (key : Text) (now : ℕ)
    → (dedupe p key now ≡ (p, false))
      ⊎ (((dedupe p key now).1 ≡ true) × Sent p (dedupe p key now).0 key now)
unfolding dedupe
dedupe-Sent p key now =
    let last = p.last_alert_at key in
    elim (Bool-cases (not (last == 0) && ltb now (last + p.repeat_ms))) [
      | inl held ↦ inl (rw held)
      | inr free ↦ inr (
          rw free (
            refl,
            record {
              same_gap = refl;
              set = if_pos (Text-discrete key key) refl now (p.last_alert_at key);
              kept = λ j ne. if_neg (Text-discrete j key) ne now (p.last_alert_at j);
              apart = λ ne. ground (arith, free);
            },
          ))
    ]

-- No alert under `key` comes within the interval after `l`, if the last one was at `l` or later.
sends-Later :
    (calls : List (Text × ℕ)) (p : Policy) (key : Text) (l : ℕ)
    → 0 < l
    → l ≤ p.last_alert_at key
    → All (λ b. b.0 ≡ key → l + p.repeat_ms ≤ b.1) (sends p calls)
unfolding sends
sends-Later [] p key l pos le = tt
sends-Later (c ∷ calls) p key l pos le = elim (dedupe-Sent p c.0 c.1) [
  | inl e ↦ rw e (sends-Later calls p key l pos le)
  | inr (sent, h) ↦
      let q = (dedupe p c.0 c.1).0 in
      let still : l ≤ q.last_alert_at key = elim (Text-discrete key c.0) [
        | yes e ↦ rw (e, h.set) (omega (arith, h.apart (ground (arith, rw e at le)), rw e at le))
        | no ne ↦ omega (arith, h.kept key ne)
      ] in
      let rest = sends-Later calls q key l pos still in
      rw sent (
        λ e. omega (arith, h.apart (ground (arith, rw (sym e) at le)), rw (sym e) at le),
        rw h.same_gap at rest,
      )
]

-- Asked at any times but 0, under whatever keys, the policy never lets two alerts under one key go
-- out within the repeat interval.
pub sends-Spaced :
    (calls : List (Text × ℕ)) (p : Policy)
    → All (λ c. 0 < c.1) calls
    → Spaced p.repeat_ms (sends p calls)
unfolding sends
sends-Spaced [] p pos = tt
sends-Spaced (c ∷ calls) p pos = elim (dedupe-Sent p c.0 c.1) [
  | inl e ↦ rw e (sends-Spaced calls p pos.1)
  | inr (sent, h) ↦
      let q = (dedupe p c.0 c.1).0 in
      let later = sends-Later calls q c.0 c.1 pos.0 (omega (arith, h.set)) in
      let rest = sends-Spaced calls q pos.1 in
      rw sent (rw h.same_gap at later, rw h.same_gap at rest)
]
