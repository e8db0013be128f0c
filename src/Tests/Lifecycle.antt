-- ===== src/Tests/Lifecycle.antt =====
-- A worker with heartbeats: its load, its idle timeout, its boot and its shutdowns.
use gemma_vllm_worker.Base.{
  ◌≡◌, ◌⊎◌, ◌↔◌, refl, Bool, true, false, none, some, [], ◌∷◌, ◌++◌, map, String, inl, inr, arith,
  if◌then◌else◌, ◌==◌, string_comparable,
}
use gemma_vllm_worker.Base.Int.{pos}
use gemma_vllm_worker.Base.Dict.{Dict}
use gemma_vllm_worker.Base.Events.{Events, done, item}
use gemma_vllm_worker.OpenAi.{value, failed, Reply, doc}
use gemma_vllm_worker.Heartbeat.{Config, is_heartbeat_enabled}
use gemma_vllm_worker.Heartbeat.World.{
  Command, World, Reply as Answer, ok, error, running, raised, returned, pure,
}
use gemma_vllm_worker.Heartbeat.Service.{Context, termination, start_heartbeat}
use gemma_vllm_worker.Heartbeat.Shutdown.{graceful_shutdown}
use gemma_vllm_worker.Heartbeat.Shutdown.Laws.{removal, graceful_shutdown_answered}
use gemma_vllm_worker.Heartbeat.Shutdown.Runs.{
  is_removal, is_signal, shutdowns, pause_keeps_registration, IsOrderly,
}
use gemma_vllm_worker.Heartbeat.Shutdown.Steps.{
  here, next, shutdown, request_starts, heartbeat_starts, Reach-IsOrderly,
}
use gemma_vllm_worker.Heartbeat.Shutdown.Failed.{refused_keeps_registration}
use gemma_vllm_worker.Heartbeat.Quiet.{count_of}
use gemma_vllm_worker.Heartbeat.Idle.{
  idle_tick, idle_monitor, is_idle_since, increment_load, decrement_load, touch_activity,
}
use gemma_vllm_worker.Heartbeat.Idle.Load.{idle_tick_active, idle_tick_loaded}
use gemma_vllm_worker.Heartbeat.Idle.Rounds.{undisturbed, shut_down, idle_monitor_ends}
use gemma_vllm_worker.Server.{Json, handle_openai}
use gemma_vllm_worker.Server.Traffic.{idle, request, await, Traffic_load}
use gemma_vllm_worker.Server.Boot.{boot, boot_ready, skips_model, Succeeds}

abbrev config : Config
config = record {
  tenant_id = "t";
  service_id = "s";
  instance_id = "i";
  provider = "runpod";
  redis_url = "redis://r";
  runpod_pod_id = "p";
  region = "unknown";
  idle_timeout_minutes = pos 20;
}

-- A client that answers every command as given, and suspends at the given ones.
abbrev context_with : (Command → Answer) → (Command → Bool) → Context
context_with f suspends = record {
  config = config;
  hostname = none;
  start_time = 0;
  text_of = λ n. "n";
  dumps = λ d. "{}";
  redis = record { answer = λ t k. f k; suspends = suspends };
}

abbrev pub calm : Context
calm = context_with (λ k. ok) (λ k. is_signal k)

abbrev refusing : Context
refusing = context_with (λ k. if is_signal k then error "down" else ok) (λ k. false)

abbrev pub worker : World
worker = record {
  current_status = "healthy";
  current_load = 0;
  last_activity = 5;
  heartbeat_task = some running;
  idle_task = some running;
  shutdown_signaled = false;
  redis_open = true;
  cancel_pending = false;
  trace = [];
}

graceful_shutdown_answered_example :
    let (o, w') = graceful_shutdown calm "shutdown" worker in
    (o ≡ returned tt)
    × (w'.trace ≡ [] ++ ((termination calm "shutdown", ok) ∷ removal calm))
    × (w'.redis_open ≡ false)
unfolding is_heartbeat_enabled
graceful_shutdown_answered_example =
    graceful_shutdown_answered calm "shutdown" worker (λ t k. refl) refl refl refl refl

pause_keeps_registration_example :
    count_of is_removal (shutdowns calm ("idle-timeout" ∷ "shutdown" ∷ []) worker).trace ≡ 0
pause_keeps_registration_example = pause_keeps_registration calm ("shutdown" ∷ []) worker refl

refused_keeps_registration_example :
    ((graceful_shutdown refusing "unhealthy" worker).0 ≡ raised "down")
    × (count_of is_removal (shutdowns refusing ("unhealthy" ∷ "shutdown" ∷ []) worker).trace ≡ 0)
unfolding is_heartbeat_enabled
refused_keeps_registration_example =
    refused_keeps_registration refusing "unhealthy" "down" ("shutdown" ∷ []) worker (λ t. refl) refl
      refl refl refl

abbrev busy : World
busy = increment_load 9 (start_heartbeat calm worker)

Reach-IsOrderly_example :
    IsOrderly (graceful_shutdown calm "shutdown" (graceful_shutdown calm "unhealthy" busy).1).1
unfolding start_heartbeat is_heartbeat_enabled increment_load
Reach-IsOrderly_example =
    Reach-IsOrderly calm worker
      (graceful_shutdown calm "shutdown" (graceful_shutdown calm "unhealthy" busy).1).1 refl refl
      (next
        (next
          (next (next here (heartbeat_starts worker refl))
            (request_starts 9 (start_heartbeat calm worker)))
          (shutdown "unhealthy" busy))
        (shutdown "shutdown" (graceful_shutdown calm "unhealthy" busy).1))

idle_tick_active_run :
    (idle_tick (pos 20) (pure tt) 1200000 (increment_load 9 worker)
      ≡ (returned false, increment_load 9 worker))
    × (idle_tick (pos 20) (pure tt) 1200000 (decrement_load 9 worker)
        ≡ (returned false, decrement_load 9 worker))
    × (idle_tick (pos 20) (pure tt) 1200000 (touch_activity 9 worker)
        ≡ (returned false, touch_activity 9 worker))
idle_tick_active_run = idle_tick_active 20 1200000 9 (pure tt) worker (omega arith)

loaded_waits :
    idle_tick (pos 20) (pure tt) 9999999 (increment_load 9 worker)
    ≡ (returned false, increment_load 9 worker)
unfolding increment_load
loaded_waits = idle_tick_loaded 20 9999999 (pure tt) (increment_load 9 worker) (omega arith)

touched :
    idle_monitor
      (pos 20)
      (graceful_shutdown calm "idle-timeout")
      ((touch_activity 600000, 900000) ∷ [])
      worker
    ≡ (returned false, touch_activity 600000 worker)
unfolding idle_monitor idle_tick touch_activity is_idle_since
touched = refl

idle_monitor_ends_example :
    idle_monitor
      (pos 20)
      (graceful_shutdown calm "idle-timeout")
      (((touch_activity 600000, 900000) ∷ []) ++ map undisturbed (1200000 ∷ 1800000 ∷ []))
      worker
    ≡ shut_down 20 (graceful_shutdown calm "idle-timeout") (touch_activity 600000 worker)
unfolding touch_activity
idle_monitor_ends_example =
    idle_monitor_ends 20 (graceful_shutdown calm "idle-timeout")
      ((touch_activity 600000, 900000) ∷ []) (1200000 ∷ 1800000 ∷ []) worker
      (touch_activity 600000 worker) touched refl (inr (inl (omega arith)))

abbrev json : Json String
json = record { dumps = λ d. d; as_str = λ d. none; has_error = λ d. false; error_of = λ m. m }

abbrev engine : String → Events (Reply String)
engine d = item (doc d) done

abbrev streams : String → Bool
streams d = d == "stream"

Traffic_load_example :
    (handle_openai json true
      (some "stream")
      streams
      engine
      7
      8
      (increment_load 6 worker)).1.current_load
    ≡ 2
unfolding handle_openai increment_load touch_activity
Traffic_load_example =
    Traffic_load json streams engine worker
      (handle_openai json true (some "stream") streams engine 7 8
        (touch_activity 6 (increment_load 6 worker))).1
      2 refl (request true (some "stream") 7 8 (await 6 idle))

boot_ready_example :
    ((boot calm (failed "disk full") (value tt) [] worker).engines_ready ≡ true) ↔ (
      (skips_model [] ≡ true)
      ⊎ (Succeeds {A = Dict String} (failed "disk full") × Succeeds {A = Unit {0}} (value tt)))
boot_ready_example = boot_ready calm (failed "disk full") (value tt) [] worker
