-- ===== src/Heartbeat/Shutdown.antt =====
-- src/heartbeat/__init__.py: stopping the tasks, and the shutdown sequence.
pub mod Laws
pub mod Runs
pub mod Steps
pub mod Failed
use gemma_vllm_worker.Base.{
  ℕ, Bool, true, false, ◌||◌, not, Option, none, some, String, if◌then◌else◌, ◌==◌,
  string_comparable,
}
use gemma_vllm_worker.Heartbeat.{is_heartbeat_enabled}
use gemma_vllm_worker.Heartbeat.World.{World, Task, running, finished, M, pure, ◌>>=◌, ◌>>◌, modify}
use gemma_vllm_worker.Heartbeat.Service.{Context, signal_termination, deregister, close_redis}

-- `task and not task.done()`
abbrev pub is_running : Option Task → Bool
is_running none = false
is_running (some running) = true
is_running (some finished) = false

-- `stop_heartbeat`
unfoldable pub stop_heartbeat : World → World
stop_heartbeat w = if is_running w.heartbeat_task then record w { heartbeat_task = none } else w

-- `stop_idle_timeout`; `own` says that the idle task itself is the caller, which it then cancels.
unfoldable pub stop_idle_timeout : Bool → World → World
stop_idle_timeout own w =
    if is_running w.idle_task
    then record w { idle_task = none; cancel_pending = w.cancel_pending || own }
    else w

-- The world in which the first call of `graceful_shutdown` signals.
abbrev pub begin_shutdown : World → World
begin_shutdown w = stop_idle_timeout false (stop_heartbeat (record w { shutdown_signaled = true }))

module _ (c : Context) where
  -- After the signal: a pause keeps the registration and the connection.
  unfoldable pub after_signal : String → M (Unit {0})
  unfolding deregister close_redis
  after_signal reason w =
      if not (reason == "idle-timeout") then (do deregister c; close_redis c) w else pure tt w

  unfoldable pub first_shutdown : String → M (Unit {0})
  unfolding after_signal signal_termination
  first_shutdown reason w =
      if is_heartbeat_enabled c.config
      then (do signal_termination c reason; after_signal reason) w
      else pure tt w

  -- `graceful_shutdown`
  unfoldable pub graceful_shutdown : String → M (Unit {0})
  unfolding first_shutdown close_redis stop_heartbeat stop_idle_timeout
  graceful_shutdown reason w =
      if w.shutdown_signaled then close_redis c w else first_shutdown reason (begin_shutdown w)
