-- ===== src/Keeper/Alerts.antt =====
-- scripts/keeper/v5-runtime-alert-policy.mjs: which of the keeper's log lines and exits alert the
-- operator. Texts are lists of code points, times are milliseconds.
pub mod Spacing
pub mod Crashes
mod Tests
use everdraw.Base.{
  ℕ, zero, suc, ◌+◌, ◌<◌, Bool, true, false, ◌&&◌, ◌||◌, not, Option, none, some, List, [], ◌∷◌,
  ◌++◌, ltb, leb, ◌==◌, if◌then◌else◌, length, keep, codes, starts_with, includes, ite, ℕ_discrete,
  String,
}
use mathlib.Core.List.{reverse}

abbrev pub Text : Type 0
Text = List ℕ

pub Text-discrete : Discrete Text
Text-discrete = hlevel ℕ_discrete

pub record Config : Type 0 where
  pub crash_threshold : ℕ
  pub crash_window_ms : ℕ
  pub repeat_ms : ℕ

abbrev pub default_config : Config
default_config = record { crash_threshold = 3; crash_window_ms = 60_000; repeat_ms = 3_600_000 }

-- `last_alert_at` is the map, 0 where it has no entry.
pub record Policy : Type 0 where
  pub config : Config
  pub open config use *
  pub non_zero_exits : List ℕ
  pub last_alert_at : Text → ℕ

pub init : Config → Policy
init c = record { config = c; non_zero_exits = []; last_alert_at = λ _. 0 }

abbrev pub update : (Text → ℕ) → Text → ℕ → Text → ℕ
update m k v j = ite (Text-discrete j k) v (m j)

pub dedupe : Policy → Text → ℕ → Policy × Bool
dedupe p key now =
    let last = p.last_alert_at key in
    if not (last == 0) && ltb now (last + p.repeat_ms)
    then (p, false)
    else (record p { last_alert_at = update p.last_alert_at key now }, true)

pub data Message : Type 0 where
  line : Text → Message
  exits : (count window code : ℕ) → Message

pub record Event : Type 0 where
  pub key : Text
  pub message : Message
  pub failure_healthcheck : Bool

-- The white space that `trim` takes off.
is_space : ℕ → Bool
is_space c =
    (leb 9 c && leb c 13)
    || ((c == 32)
        || ((c == 160)
            || ((c == 5760)
                || ((leb 8192 c && leb c 8202)
                    || ((c == 8232)
                        || ((c == 8233)
                            || ((c == 8239)
                                || ((c == 8287) || ((c == 12288) || (c == 65279))))))))))

trim_start : Text → Text
unfolding is_space
trim_start [] = []
trim_start (c ∷ cs) = if is_space c then trim_start cs else c ∷ cs

pub trim : Text → Text
unfolding trim_start
trim text = reverse (trim_start (reverse (trim_start text)))

take_word : Text → Text
take_word [] = []
take_word (c ∷ cs) = if c == 32 then [] else c ∷ take_word cs

-- The text begins with `key=` and a character that is no space; `rest` is what a later match gives.
match_here : Text → Option Text → Option Text
unfolding take_word
match_here (k ∷ e ∷ y ∷ q ∷ w ∷ ws) rest =
    if (k == b'k') && ((e == b'e') && ((y == b'y') && ((q == b'=') && not (w == 32))))
    then some (w ∷ take_word ws)
    else rest
match_here _ rest = rest

-- `line.match(/key=([^ ]+)/)?.[1]`.
pub match_key : Text → Option Text
unfolding match_here
match_key [] = none
match_key (c ∷ cs) = match_here (c ∷ cs) (match_key cs)

abbrev pub or_trimmed : Option Text → Text → Text
or_trimmed none text = trim text
or_trimmed (some key) text = key

abbrev pub emit : Policy × Bool → Event → Policy × Option Event
emit (p, sent) event = (p, if sent then some event else none)

pub observe_line : Policy → Text → ℕ → Policy × Option Event
unfolding dedupe match_key trim
observe_line p text now =
    if includes text (codes "CLAIM_QUARANTINED")
    then (let key = codes "claim-quarantined:" ++ or_trimmed (match_key text) text in
        emit (dedupe p key now)
          (record { key = key; message = line (trim text); failure_healthcheck = false }))
    else if not (includes text (codes "LOW_BALANCE_WARNING"))
        && not (includes text (codes "keeper balance low:"))
    then (p, none)
    else emit (dedupe p (codes "low-balance") now) (record {
      key = codes "low-balance";
      message = line (trim text);
      failure_healthcheck = true;
    })

-- `now - at <= crashWindowMs`.
abbrev pub within : (window now at : ℕ) → Bool
within window now at = leb now (at + window)

-- `push(now)`, then the filter.
pub recent : ℕ → ℕ → List ℕ → List ℕ
recent window now times = keep (within window now) (times ++ now ∷ [])

abbrev pub crash_event : (count window code : ℕ) → Event
crash_event count window code = record {
  key = codes "crash-loop";
  message = exits count window code;
  failure_healthcheck = true;
}

pub observe_exit : Policy → ℕ → ℕ → Policy × Option Event
unfolding dedupe
observe_exit p code now =
    if code == 0
    then (record p { non_zero_exits = [] }, none)
    else let times = recent p.crash_window_ms now p.non_zero_exits in
      let p' = record p { non_zero_exits = times } in
      if ltb (length times) p.crash_threshold
      then (p', none)
      else emit (dedupe p' (codes "crash-loop") now)
          (crash_event (length times) p.crash_window_ms code)
