-- ===== src/Watcher/Events.antt =====
-- What the watcher reads: the logs of the vault and of the draw manager, as `parseLog` (ethers) takes
-- them apart. Addresses, hashes, roots and seeds are numbers; 0 is the empty text, and the zero
-- address.
use everdraw.Base.{ℕ, String, List, sort_by}

pub data WatchEvent : Type 0 where
  transfer : (from to : ℕ) → WatchEvent
  seed_received : (draw_id seed : ℕ) → WatchEvent
  root_proposed : (draw_id root challenge_ends_at : ℕ) → WatchEvent
  root_finalized : (draw_id root : ℕ) → WatchEvent
  privileged : (name : String) → WatchEvent
  other : WatchEvent

pub record WatchLog : Type 0 where
  pub address : ℕ
  pub block_number : ℕ
  pub block_hash : ℕ
  pub index : ℕ
  pub event : WatchEvent

-- By block, and by index where the blocks are equal: both sorts are stable.
unfoldable pub sort_logs : List WatchLog → List WatchLog
sort_logs logs = sort_by (λ l. l.block_number) (sort_by (λ l. l.index) logs)
