-- ===== src/Heartbeat/Tasks.antt =====
-- The coroutines of src/heartbeat/ again, await by await, so that others may run between them: what a
-- coroutine does up to its next await, and all interleavings of the tasks of a worker. `from_url`, which
-- returns at once, is taken as an await too: another task may run there, or none.
pub mod Protocol
pub mod Steady
pub mod Signals
pub mod Registered
pub mod Removed
pub mod Alone
use gemma_vllm_worker.Base.{
  ℕ, ◌≡◌, ◌⊎◌, Bool, true, false, not, ◌&&◌, Option, none, some, List, [], ◌∷◌, ◌++◌, String,
  if◌then◌else◌, ◌==◌, string_comparable, nat_comparable,
}
use gemma_vllm_worker.Base.Int.{ℤ}
use gemma_vllm_worker.Heartbeat.{Config, get_heartbeat_keys, is_heartbeat_enabled, heartbeat_ttl_s}
use gemma_vllm_worker.Heartbeat.World.{
  Command, connect, heartbeat, hset, delete, srem, publish, close, Reply, ok, error, World,
}
use gemma_vllm_worker.Heartbeat.Service.{Context, heartbeat_fields, termination}
use gemma_vllm_worker.Heartbeat.Shutdown.{is_running, begin_shutdown, stop_idle_timeout}
use gemma_vllm_worker.Heartbeat.Idle.{increment_load, decrement_load, touch_activity, is_idle_since}

-- The rest of a coroutine: reads and changes of the module globals, and awaits of Redis.
pub data Coroutine : Type 0 where
  return : Coroutine
  raise : String → Coroutine
  look : (World → Coroutine) → Coroutine
  change : (World → World) → Coroutine → Coroutine
  await : Command → (Reply → Coroutine) → Coroutine

abbrev pub and_then : Coroutine → Coroutine → Coroutine
and_then return q = q
and_then (raise m) q = raise m
and_then (look f) q = look (λ w. and_then (f w) q)
and_then (change f p) q = change f (and_then p q)
and_then (await c f) q = await c (λ r. and_then (f r) q)

-- `try: … except Exception: log`
abbrev pub logged : Coroutine → Coroutine
logged return = return
logged (raise m) = return
logged (look f) = look (λ w. logged (f w))
logged (change f p) = change f (logged p)
logged (await c f) = await c (λ r. logged (f r))

abbrev pub after_reply : Reply → Coroutine
after_reply ok = return
after_reply (error m) = raise m

abbrev pub send : Command → Coroutine
send c = await c after_reply

module _ (c : Context) where
  unfoldable pub get_redis_steps : Coroutine
  get_redis_steps = look λ w.
      if w.redis_open
      then return
      else and_then (send connect) (change (λ v. record v { redis_open = true }) return)

  unfoldable pub send_heartbeat_steps : ℕ → Coroutine
  unfolding get_redis_steps
  send_heartbeat_steps now = and_then get_redis_steps (
      look λ w.
        let keys = get_heartbeat_keys c.config in
        logged (
          send (
            heartbeat keys.hash_key (heartbeat_fields c now w) heartbeat_ttl_s keys.set_key
              c.config.instance_id)))

  unfoldable pub set_status_steps : String → Coroutine
  unfolding get_redis_steps
  set_status_steps status =
      change (λ w. record w { current_status = status })
        (logged (
          and_then get_redis_steps
            (send (hset (get_heartbeat_keys c.config).hash_key "status" status))))

  unfoldable pub deregister_steps : Coroutine
  unfolding get_redis_steps
  deregister_steps = logged (
      and_then get_redis_steps (
        and_then (send (delete (get_heartbeat_keys c.config).hash_key))
          (send (srem (get_heartbeat_keys c.config).set_key c.config.instance_id))))

  unfoldable pub signal_termination_steps : String → Coroutine
  unfolding get_redis_steps
  signal_termination_steps reason = and_then get_redis_steps (send (termination c reason))

  unfoldable pub close_redis_steps : Coroutine
  close_redis_steps = look λ w.
      if w.redis_open
      then and_then (send close) (change (λ v. record v { redis_open = false }) return)
      else return

  -- What follows the signal.
  unfoldable pub after_signal_steps : String → Coroutine
  unfolding deregister_steps close_redis_steps
  after_signal_steps reason =
      if not (reason == "idle-timeout") then and_then deregister_steps close_redis_steps else return

  unfoldable pub first_shutdown_steps : String → Coroutine
  unfolding signal_termination_steps after_signal_steps
  first_shutdown_steps reason =
      if is_heartbeat_enabled c.config
      then and_then (signal_termination_steps reason) (after_signal_steps reason)
      else return

  unfoldable pub graceful_shutdown_steps : String → Coroutine
  unfolding close_redis_steps first_shutdown_steps
  graceful_shutdown_steps reason = look λ w.
      if w.shutdown_signaled
      then close_redis_steps
      else change begin_shutdown (first_shutdown_steps reason)

  -- A round of `_idle_monitor` after its sleep, with the callback of the server.
  unfoldable pub idle_tick_steps : ℤ → ℕ → Coroutine
  unfolding graceful_shutdown_steps
  idle_tick_steps minutes now = look λ w.
      if (w.current_load == 0) && is_idle_since minutes w.last_activity now
      then change (stop_idle_timeout true) (logged (graceful_shutdown_steps "idle-timeout"))
      else return

-- What may start: a round of the heartbeat loop, the one heartbeat that is started beside it, a round of
-- the idle monitor, a change of the status, a shutdown, and what requests do to the load.
pub data Kind : Type 0 where
  beat : ℕ → Kind
  first_beat : ℕ → Kind
  healthy draining : Kind
  idle : ℤ → ℕ → Kind
  shutdown : String → Kind
  request_starts request_touches request_ends : ℕ → Kind

-- Whether it belongs to the task of the heartbeat loop, which `stop_heartbeat` cancels.
abbrev pub in_loop : Kind → Bool
in_loop (beat now) = true
in_loop kind = false

unfoldable pub code_of : Context → Kind → Coroutine
unfolding send_heartbeat_steps set_status_steps idle_tick_steps graceful_shutdown_steps
code_of c (beat now) = send_heartbeat_steps c now
code_of c (first_beat now) = send_heartbeat_steps c now
code_of c healthy = set_status_steps c "healthy"
code_of c draining = set_status_steps c "draining"
code_of c (idle minutes now) = idle_tick_steps c minutes now
code_of c (shutdown reason) = graceful_shutdown_steps c reason
code_of c (request_starts now) = change (increment_load now) return
code_of c (request_touches now) = change (touch_activity now) return
code_of c (request_ends now) = change (decrement_load now) return

-- What Redis holds of the worker: its hash, and its name in the active set.
pub record Registry : Type 0 where
  pub hash : Bool
  pub member : Bool

unfoldable pub effect : Command → Registry → Registry
effect (heartbeat k fields ttl s m) g = record { hash = true; member = true }
effect (hset k field value) g = record g { hash = true }
effect (delete k) g = record g { hash = false }
effect (srem k m) g = record g { member = false }
effect connect g = g
effect (publish channel message) g = g
effect close g = g

-- A command that fails may have had its effect all the same.
abbrev pub Answered : Command → Reply → Registry → Registry → Type 0
Answered cmd ok g g' = g' ≡ effect cmd g
Answered cmd (error m) g g' = (g' ≡ effect cmd g) ⊎ (g' ≡ g)

pub record Process : Type 0 where
  pub of_loop : Bool
  pub code : Coroutine

pub record State : Type 0 where
  pub world : World
  pub registry : Registry
  -- The commands that cancelled tasks were waiting for, and those that failed.
  pub abandoned : List Command
  pub tasks : List Process

-- Up to the next await.
unfoldable pub advance : Coroutine → World → Coroutine × World
advance return w = (return, w)
advance (raise m) w = (raise m, w)
advance (look f) w = advance (f w) w
advance (change f p) w = advance p (f w)
advance (await c f) w = (await c f, w)

-- The tasks of the heartbeat loop run while it is not stopped.
abbrev pub Enabled : Bool → World → Type 0
Enabled true w = is_running w.heartbeat_task ≡ true
Enabled false w = Unit

-- A task that is cancelled at an await leaves its command, which may be on its way to Redis.
abbrev pub leave : Coroutine → List Command → List Command
leave (await cmd f) cs = cmd ∷ cs
leave p cs = cs

abbrev pub leave_failed : Reply → Command → List Command → List Command
leave_failed ok cmd cs = cs
leave_failed (error m) cmd cs = cmd ∷ cs

abbrev pub resumed :
    Bool → Coroutine × World → Registry → List Command → List Process → List Process → State
resumed loop (p, w) g cs before after = record {
  world = w;
  registry = g;
  abandoned = cs;
  tasks = before ++ (record { of_loop = loop; code = p } ∷ after);
}

-- Which tasks may start, and in which worlds Redis may still carry out a command that a task left behind.
module _ (c : Context) (may_start : Kind → Bool) (may_linger : World → Command → Bool) where
  -- A task starts, is answered by Redis, or is cancelled at an await; or Redis carries out a command that
  -- failed, or whose task was cancelled, at any later time and any number of times. In the first two the
  -- task runs up to its next await, which nothing interrupts.
  pub data Step (s s' : State) : Type 0 where
    begins :
        (kind : Kind)
        → may_start kind ≡ true
        → Enabled (in_loop kind) s.world
        → s'
          ≡ resumed
              (in_loop kind)
              (advance (code_of c kind) s.world)
              s.registry
              s.abandoned
              []
              s.tasks
        → Step s s'
    answered :
        (before after : List Process) (loop : Bool) (cmd : Command) (f : Reply → Coroutine)
        (r : Reply) (g : Registry)
        → s.tasks ≡ before ++ (record { of_loop = loop; code = await cmd f } ∷ after)
        → Enabled loop s.world
        → Answered cmd r s.registry g
        → s'
          ≡ resumed loop
              (advance (f r) (record s.world { trace = s.world.trace ++ ((cmd, r) ∷ []) }))
              g
              (leave_failed r cmd s.abandoned)
              before
              after
        → Step s s'
    cancelled :
        (before after : List Process) (t : Process)
        → s.tasks ≡ before ++ (t ∷ after)
        → s' ≡ record s { tasks = before ++ after; abandoned = leave t.code s.abandoned }
        → Step s s'
    lingers :
        (before after : List Command) (cmd : Command)
        → s.abandoned ≡ before ++ (cmd ∷ after)
        → may_linger s.world cmd ≡ true
        → s' ≡ record s { registry = effect cmd s.registry }
        → Step s s'

  pub data Reach (s : State) : State → Type 0 where
    here : Reach s s
    next : {t u : State} → Reach s t → Step t u → Reach s u
