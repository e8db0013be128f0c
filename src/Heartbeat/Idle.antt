-- ===== src/Heartbeat/Idle.antt =====
-- src/heartbeat/load_tracker.py: the load and the idle timeout.
pub mod Interrupted
pub mod Load
pub mod Rounds
use gemma_vllm_worker.Base.{
  ℕ, ◌+◌, ◌-◌, ◌*◌, Bool, true, false, ◌&&◌, Option, none, some, List, [], ◌∷◌, if◌then◌else◌, leb,
  ◌==◌, nat_comparable,
}
use gemma_vllm_worker.Base.Int.{ℤ, pos, negsuc, is_zero}
use gemma_vllm_worker.Heartbeat.World.{
  World, running, finished, M, pure, ◌>>=◌, ◌>>◌, modify, try_log,
}
use gemma_vllm_worker.Heartbeat.Service.{Context}
use gemma_vllm_worker.Heartbeat.Shutdown.{stop_idle_timeout}

-- `increment_load`
unfoldable pub increment_load : ℕ → World → World
increment_load now w = record w { current_load = w.current_load + 1; last_activity = now }

-- `decrement_load`, which sets a negative load to 0; the load is never negative before.
unfoldable pub decrement_load : ℕ → World → World
decrement_load now w = record w {
  current_load = if w.current_load == 0 then 0 else w.current_load - 1;
  last_activity = now;
}

-- `touch_activity`
unfoldable pub touch_activity : ℕ → World → World
touch_activity now w = record w { last_activity = now }

-- `time.time() - _last_activity >= IDLE_TIMEOUT_S`
unfoldable pub is_idle_since : ℤ → ℕ → ℕ → Bool
is_idle_since (pos minutes) last now = leb (last + minutes * 60000) now
is_idle_since (negsuc k) last now = leb last (now + (k + 1) * 60000)

-- `start_idle_timeout`; the callback is the one of `idle_tick`.
unfoldable pub start_idle_timeout : ℤ → World → World
start_idle_timeout minutes w = if is_zero minutes then w else record w { idle_task = some running }

-- One round of `_idle_monitor` after its sleep, with the shutdown callback; whether the loop ends.
unfoldable pub idle_tick : ℤ → M (Unit {0}) → ℕ → M Bool
unfolding is_idle_since stop_idle_timeout
idle_tick minutes callback now w =
    if (w.current_load == 0) && is_idle_since minutes w.last_activity now
    then (do modify (stop_idle_timeout true); try_log callback; pure true) w
    else pure false w

-- One round of the loop: what others did to the state during its sleep, and the time when it wakes.
abbrev pub Round : Type 0
Round = (World → World) × ℕ

-- `_idle_monitor`, over the rounds that it gets to run; whether it ended by then.
unfoldable pub idle_monitor : ℤ → M (Unit {0}) → List Round → M Bool
unfolding idle_tick
idle_monitor minutes callback [] = pure false
idle_monitor minutes callback ((others, now) ∷ rounds) = do
  modify others
  ended ← idle_tick minutes callback now
  if ended then pure true else idle_monitor minutes callback rounds
