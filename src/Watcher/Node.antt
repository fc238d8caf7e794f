-- ===== src/Watcher/Node.antt =====
-- What the watcher's run is given and what it keeps: the two RPC endpoints with everything else
-- outside the process, `W` being the world that they stand in, and the run's variables with the two
-- state files. A call answers or throws an error, of which its text is kept; its retries and timeouts
-- are part of it. What goes to the console is left out, and so are `updatedAt` and the messages' texts.
use everdraw.Base.{ℕ, suc, ◌-◌, String, Bool, Option, some, List, ◌∷◌, Result, ok, err, Table}
use everdraw.Draw.Input.{Input}
use everdraw.Logs.DrawInput.{Draw}
use everdraw.Logs.Ranges
use everdraw.Logs.Ranges.{Provider, get_logs_range_direct}
use everdraw.Logs.Retries.{get_logs_range}
use everdraw.Watcher.Actions.{Failure, Action, thrown, update}
use everdraw.Watcher.Events.{WatchLog}
use everdraw.Watcher.Cache.{CacheState, IncidentId}
use everdraw.Watcher.Cache.Incidents.{Identity}

-- `alarm` and `notify`, by what their messages name.
pub data Alarm : Type 0 where
  deadline_disagreement deadline_mismatch : (draw_id event other : ℕ) → Alarm
  root_mismatch finalized_mismatch discovered_mismatch : (draw_id root recomputed : ℕ) → Alarm
  late : (draw_id : ℕ) → Alarm
  coverage_gap : IncidentId → Alarm
  awaiting_acknowledgment : IncidentId → Alarm
  privileged_change : WatchLog → Alarm

-- `draws(drawId)`, as far as the run looks at it.
pub record DrawView : Type 0 where
  pub root : ℕ
  pub status : ℕ

pub record Node (W : Type 0) : Type 0 where
  pub head_chain_id : W → Result String ℕ × W
  pub security_chain_id : W → Result String ℕ × W
  pub head_has_code : W → Result String Bool × W
  pub security_has_code : W → Result String Bool × W
  pub head_number : W → Result String ℕ × W
  pub head_block_hash : ℕ → W → Result String (Option ℕ) × W
  pub fast_logs : Provider W String WatchLog
  pub head_logs : Provider W String WatchLog
  pub security_logs : Provider W String WatchLog
  pub vault : W → Result String ℕ × W
  pub challenge_ends_at : ℕ → W → Result String ℕ × W
  pub current_draw_id : W → Result String ℕ × W
  pub draw : ℕ → W → Result String DrawView × W
  pub draw_answers : (draw_id seed_block : ℕ) → W → Result String (Draw String) × W
  pub recompute : Input → Result String ℕ  -- the root that compute_winners.py prints
  pub fingerprint : Identity → ℕ
  pub now : W → ℕ × W
  pub alarm : Alarm → W → Result String (Unit {0}) × W
  pub notify : Alarm → W → Result String (Unit {0}) × W
  pub post_proofs : (draw_id root : ℕ) → W → Result String ℕ × W
  pub ping_health : W → W

pub record Config : Type 0 where
  pub expected_chain_id : ℕ
  pub draw_manager_address : ℕ
  pub prize_vault : ℕ
  pub from_block : ℕ
  pub max_blocks_per_run : ℕ
  pub max_log_lookback : ℕ
  pub chunk_size : ℕ
  pub independent_chunk_size : ℕ
  pub concurrency : ℕ
  pub use_caller_logs : Bool
  pub attempts : ℕ
  pub min_veto_remaining : ℕ
  pub can_publish : Bool
  pub require_publish : Bool
  pub acknowledged : List IncidentId

-- STATE_FILE.
pub record WatcherState : Type 0 where
  pub chain_id : ℕ
  pub draw_manager_address : ℕ
  pub vault_address : ℕ
  pub from_block : ℕ
  pub last_scanned_block : ℕ
  pub last_scanned_block_hash : ℕ
  pub participant_accounts : List ℕ
  pub seed_blocks : Table ℕ ℕ
  pub live_monitoring : Bool

-- What the process wrote for the outside to see, the last first.
pub data Event : Type 0 where
  alarmed : Alarm → Event
  checkpointed : (block : ℕ) → Event
  published : (draw_id root : ℕ) → Event

-- `independent_file` and `state_file` are the two state files.
pub record Run (W : Type 0) : Type 0 where
  pub world : W
  pub cache : CacheState
  pub independent_file : Option CacheState
  pub state_file : Option WatcherState
  pub log : List Event
  pub validated : Bool
  pub checked : ℕ
  pub accounts : List ℕ
  pub seed_blocks : Table ℕ ℕ
  pub last_checkpoint_hash : ℕ
  pub coverage_failures : List Alarm
  pub root_mismatches : List Alarm

abbrev pub of_text : {A : Type 0} → Result String A → Result Failure A
of_text (ok a) = ok a
of_text (err e) = err (thrown e)

abbrev pub of_range : {A : Type 0} → Result (Ranges.Failure String) A → Result Failure A
of_range (ok a) = ok a
of_range (err (Ranges.thrown e)) = err (thrown e)
of_range (err Ranges.no_attempt) = err (thrown "undefined")
of_range (err Ranges.out_of_fuel) = err (thrown "the range was halved too often")

module _ {W : Type 0} where
  abbrev pub with_world : {A : Type 0} → Result Failure A × W → Action (Run W) A
  with_world (r, w) s = (r, record s { world = w })

  abbrev pub answered : {A : Type 0} → Result String A × W → Action (Run W) A
  answered (r, w) s = with_world (of_text r, w) s

  -- A call of what stands outside.
  unfoldable pub call : {A : Type 0} → (W → Result String A × W) → Action (Run W) A
  call m s = answered (m s.world) s

  abbrev pub ticked : ℕ × W → Action (Run W) ℕ
  ticked (t, w) s = (ok t, record s { world = w })

  -- `Date.now()`, in seconds.
  unfoldable pub clock : Node W → Action (Run W) ℕ
  clock n s = ticked (n.now s.world) s

  abbrev pub ranged : {A : Type 0} → Result (Ranges.Failure String) A × W → Action (Run W) A
  ranged (r, w) s = with_world (of_range r, w) s

  -- `getLogsRangeDirect` of the security endpoint: a range is halved less often than it has blocks.
  unfoldable pub security_range : Node W → Config → (from to : ℕ) → Action (Run W) (List WatchLog)
  security_range n cfg from to s =
      ranged (get_logs_range_direct n.security_logs cfg.attempts (suc (to - from)) from to s.world)
        s

  -- `getLogsRange` of the head endpoint.
  unfoldable pub head_range : Node W → Config → (from to : ℕ) → Action (Run W) (List WatchLog)
  head_range n cfg from to s =
      ranged
        (get_logs_range n.fast_logs n.head_logs cfg.use_caller_logs cfg.attempts (suc (to - from))
          from to s.world)
        s

  -- A method of the cache that ends with `atomicWrite`.
  unfoldable pub save : (CacheState → CacheState) → Action (Run W) (Unit {0})
  save f = update λ s. record s { cache = f s.cache; independent_file = some (f s.cache) }

  unfoldable pub note : Event → Action (Run W) (Unit {0})
  note e = update λ s. record s { log = e ∷ s.log }
