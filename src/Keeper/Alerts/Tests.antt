-- ===== src/Keeper/Alerts/Tests.antt =====
-- Runs of the alert policy.
use everdraw.Base.{
  ℕ, ◌≤◌, ◌<◌, ◌≡◌, refl, true, List, [], ◌∷◌, ◌++◌, arith, some, none, codes, includes, length,
  keep,
}
use everdraw.Keeper.Alerts.{
  Policy, Text, default_config, init, observe_line, observe_exit, dedupe, match_key, trim,
  trim_start, is_space, take_word, match_here, line, crash_event, within,
}
use everdraw.Keeper.Alerts.Spacing.{sends, Spaced, sends-Spaced}
use everdraw.Keeper.Alerts.Crashes.{after_exits, times_of, crash_loop_raised}

abbrev fresh : Policy
fresh = record { config = default_config; non_zero_exits = []; last_alert_at = λ _. 0 }

abbrev asked : List (Text × ℕ)
asked =
    (codes "low-balance", 1000)
    ∷ (codes "crash-loop", 1500)
    ∷ (codes "low-balance", 2000)
    ∷ (codes "low-balance", 3_601_000)
    ∷ []

sends-Spaced_example : Spaced 3_600_000 (sends fresh asked)
sends-Spaced_example =
    sends-Spaced asked fresh (omega arith, (omega arith, (omega arith, (omega arith, tt))))

-- Three exits in a minute, after one that is older.
abbrev exits_before : List (ℕ × ℕ)
exits_before = (1, 1000) ∷ (1, 90_000) ∷ (137, 100_000) ∷ []

abbrev times : List ℕ
times = 90_000 ∷ 100_000 ∷ 120_000 ∷ []

times-within : keep (within 60_000 120_000) (times_of exits_before ++ 120_000 ∷ []) ≡ times
times-within = refl

crash_loop_raised_example :
    let r = observe_exit (after_exits (init default_config) exits_before) 1 120_000 in
    let kept = keep (within 60_000 120_000) (times_of exits_before ++ 120_000 ∷ []) in
    (r.0.non_zero_exits ≡ kept)
    × (length kept < 3 → r.1 ≡ none)
    × (3 ≤ length kept
        → (after_exits (init default_config) exits_before).last_alert_at (codes "crash-loop") ≡ 0
        → r.1 ≡ some (crash_event (length kept) 60_000 1))
crash_loop_raised_example =
    crash_loop_raised default_config exits_before 1 120_000
      ((λ e. cc), ((λ e. cc), ((λ e. cc), tt))) (omega arith, (omega arith, (omega arith, tt)))
      (λ e. cc) (omega arith)

quarantine_key :
    match_key (codes "x CLAIM_QUARANTINED key=0xa:0xb:7 drawId=7") ≡ some (codes "0xa:0xb:7")
unfolding match_key match_here take_word
quarantine_key = refl

trimmed : trim (codes "  low ") ≡ codes "low"
unfolding trim trim_start is_space
trimmed = refl

warns :
    (observe_line fresh (codes "LOW_BALANCE_WARNING 3") 1000).1
    ≡ some (record {
      key = codes "low-balance";
      message = line (codes "LOW_BALANCE_WARNING 3");
      failure_healthcheck = true;
    })
unfolding observe_line dedupe includes trim trim_start is_space
warns = refl
