-- ===== src/Logs/Accounts.antt =====
-- scripts/draw/write-watch-inputs.mjs, `participantAccountsFromLogs` with `sortLogs`: who took part,
-- by the vault's events. An address is a number, ZERO_ADDRESS is 0; what `parseLog` (ethers) makes
-- of a log is its `VaultEvent`.
use everdraw.Base.{
  ℕ, ◌+◌, ◌≡◌, refl, ◌∙◌, ◌&&◌, ◌||◌, not, List, [], ◌∷◌, map, arith, ltb, ◌==◌, if◌then◌else◌, sum,
  sort, sort_by, insert_by, Ascending, sort_by-Ascending, add_id, add_ids, copies, copies-sort,
  copies-add_id, copies-add_ids, ◌≤◌,
}

pub data VaultEvent : Type 0 where
  deposit : (recipient : ℕ) → VaultEvent
  transfer : (from to : ℕ) → VaultEvent
  other : VaultEvent

pub record Log : Type 0 where
  pub block_number : ℕ
  pub log_index : ℕ
  pub event : VaultEvent

-- By block, and by index where the blocks are equal: both sorts are stable.
pub sort_logs : List Log → List Log
sort_logs logs = sort_by (λ l. l.block_number) (sort_by (λ l. l.log_index) logs)

-- `add`.
unfoldable pub add_account : List ℕ → ℕ → List ℕ
add_account accounts a = if a == 0 then accounts else add_id accounts a

pub add_event : List ℕ → VaultEvent → List ℕ
add_event accounts (deposit a) = add_account accounts a
add_event accounts (transfer from to) = add_account (add_account accounts from) to
add_event accounts other = accounts

pub add_logs : List ℕ → List Log → List ℕ
add_logs accounts [] = accounts
add_logs accounts (l ∷ logs) = add_logs (add_event accounts l.event) logs

pub participant_accounts_from_logs : List Log → List ℕ → List ℕ
participant_accounts_from_logs logs initial_accounts =
    sort (add_logs (add_ids [] initial_accounts) (sort_logs logs))

-- How often an event names the account.
abbrev pub named : ℕ → VaultEvent → ℕ
named a (deposit b) = if b == a then 1 else 0
named a (transfer b c) = (if b == a then 1 else 0) + (if c == a then 1 else 0)
named a other = 0

abbrev pub times_named : ℕ → List Log → ℕ
times_named a logs = sum (map (λ l. named a l.event) logs)

module _ {A : Type 0} (key f : A → ℕ) where
  sum-insert_by : (x : A) (ys : List A) → sum (map f (insert_by key x ys)) ≡ f x + sum (map f ys)
  unfolding insert_by
  sum-insert_by x [] = refl
  sum-insert_by x (y ∷ ys) = ground (arith, sum-insert_by x ys)

  sum-sort_by : (xs : List A) → sum (map f (sort_by key xs)) ≡ sum (map f xs)
  unfolding sort_by
  sum-sort_by [] = refl
  sum-sort_by (x ∷ xs) = omega (arith, sum-insert_by x (sort_by key xs), sum-sort_by xs)

copies-add_account :
    (a b : ℕ) (accounts : List ℕ)
    → copies a accounts ≤ 1
    → copies a (add_account accounts b)
      ≡ (if not (a == 0) && (b == a) then 1 else copies a accounts)
unfolding add_account
copies-add_account a b accounts le = ground (arith, copies-add_id a b accounts le)

copies-add_event :
    (a : ℕ) (e : VaultEvent) (accounts : List ℕ)
    → copies a accounts ≤ 1
    → copies a (add_event accounts e)
      ≡ (if not (a == 0) && ltb 0 (named a e) then 1 else copies a accounts)
unfolding add_event
copies-add_event a (deposit b) accounts le = ground (arith, copies-add_account a b accounts le)
copies-add_event a (transfer b c) accounts le =
    let first = copies-add_account a b accounts le in
    let second = copies-add_account a c (add_account accounts b) (ground (arith, first)) in
    ground (arith, first, second)
copies-add_event a other accounts le = ground arith

copies-add_logs :
    (a : ℕ) (logs : List Log) (accounts : List ℕ)
    → copies a accounts ≤ 1
    → copies a (add_logs accounts logs)
      ≡ (if not (a == 0) && ltb 0 (times_named a logs) then 1 else copies a accounts)
unfolding add_logs
copies-add_logs a [] accounts le = ground arith
copies-add_logs a (l ∷ logs) accounts le =
    let first = copies-add_event a l.event accounts le in
    let rest = copies-add_logs a logs (add_event accounts l.event) (ground (arith, first)) in
    ground (arith, first, rest)

-- The participants come in the order of their addresses, each once: the accounts known before, and
-- those that some event names as a recipient, a sender or a receiver, the zero address not counted.
-- The order of the logs does not matter.
pub participant_accounts_from_logs_lem :
    (logs : List Log) (initial : List ℕ)
    → Ascending (λ a. a) (participant_accounts_from_logs logs initial)
      × ((a : ℕ)
          → copies a (participant_accounts_from_logs logs initial) ≡ (
              if (not (a == 0) && ltb 0 (times_named a logs)) || ltb 0 (copies a initial)
              then 1
              else 0))
unfolding participant_accounts_from_logs sort_logs
participant_accounts_from_logs_lem logs initial =
    let sorted = sort_logs logs in
    let known = add_ids [] initial in
    (
      sort_by-Ascending (λ a. a) (add_logs known sorted),
      λ a.
          let before = copies-add_ids a [] initial (omega arith) in
          let added = copies-add_logs a sorted known (ground (arith, before)) in
          let same : times_named a sorted ≡ times_named a logs =
            sum-sort_by (λ l. l.block_number) (λ l. named a l.event)
              (sort_by (λ l. l.log_index) logs)
            ∙ sum-sort_by (λ l. l.log_index) (λ l. named a l.event) logs in
          copies-sort a (add_logs known sorted) ∙ ground (arith, before, rw same at added),
    )
