-- ===== src/Heartbeat/World.antt =====
-- The module globals of src/heartbeat/ as one state, Redis as an environment that answers commands, and
-- the coroutines' monad over them. A command may succeed, raise, or be interrupted because the task that
-- awaits it was cancelled. Each coroutine is taken as running without others between its awaits.
use gemma_vllm_worker.Base.{
  ℕ, Bool, false, ◌&&◌, Option, none, List, [], ◌∷◌, ◌++◌, String, if◌then◌else◌,
}
use gemma_vllm_worker.Base.Dict.{Dict}

-- The calls of the Redis client.
pub data Command : Type 0 where
  connect : Command
  -- The pipeline of one heartbeat: the hash with its fields, its time to live, and the active set.
  heartbeat : (hash_key : String) → Dict String → (ttl : ℕ) → (set_key member : String) → Command
  hset : (key field value : String) → Command
  delete : (key : String) → Command
  srem : (key member : String) → Command
  publish : (channel : String) → Dict String → Command
  close : Command

pub data Reply : Type 0 where
  ok : Reply
  error : String → Reply

-- A task that was created, and was not stopped by its owner.
pub data Task : Type 0 where
  running finished : Task

-- Times are in milliseconds.
pub record World : Type 0 where
  pub current_status : String
  pub current_load : ℕ
  pub last_activity : ℕ
  pub heartbeat_task : Option Task
  pub idle_task : Option Task
  pub shutdown_signaled : Bool
  -- `_redis` is not `None`.
  pub redis_open : Bool
  -- The running task was cancelled and did not yet meet a suspending await.
  pub cancel_pending : Bool
  -- The commands sent so far with their replies, the first at the head.
  pub trace : List (Command × Reply)

-- The values that the module globals have first, with the time at which they are made.
unfoldable pub initial_world : ℕ → World
initial_world now = record {
  current_status = "booting";
  current_load = 0;
  last_activity = now;
  heartbeat_task = none;
  idle_task = none;
  shutdown_signaled = false;
  redis_open = false;
  cancel_pending = false;
  trace = [];
}

-- `get_status` and `get_load`
abbrev pub get_status : World → String
get_status w = w.current_status

abbrev pub get_load : World → ℕ
get_load w = w.current_load

-- How the client answers, by what was sent before, and which of its calls suspend the task.
pub record Redis : Type 0 where
  pub answer : List (Command × Reply) → Command → Reply
  pub suspends : Command → Bool

pub data Outcome (A : Type 0) : Type 0 where
  returned : A → Outcome A
  raised : String → Outcome A
  cancelled : Outcome A

abbrev pub M : Type 0 → Type 0
M A = World → Outcome A × World

abbrev pub pure : {A : Type 0} → A → M A
pure a w = (returned a, w)

abbrev pub bind_outcome : {A B : Type 0} → Outcome A → World → (A → M B) → Outcome B × World
bind_outcome (returned a) w f = f a w
bind_outcome (raised m) w f = (raised m, w)
bind_outcome cancelled w f = (cancelled, w)

infixl 5 ◌>>=◌ ◌>>◌
abbrev pub ◌>>=◌ : {A B : Type 0} → M A → (A → M B) → M B
◌>>=◌ m f w = let (o, w') = m w in bind_outcome o w' f

abbrev pub ◌>>◌ : {B : Type 0} → M (Unit {0}) → M B → M B
m >> k = m >>= λ _. k

abbrev pub modify : (World → World) → M (Unit {0})
modify f w = (returned tt, f w)

abbrev pub handle_outcome : Outcome (Unit {0}) → Outcome (Unit {0})
handle_outcome (returned a) = returned a
handle_outcome (raised m) = returned tt
handle_outcome cancelled = cancelled

-- `try: … except Exception: log`; a cancellation is no `Exception`.
abbrev pub try_log : M (Unit {0}) → M (Unit {0})
try_log m w = let (o, w') = m w in (handle_outcome o, w')

abbrev pub of_reply : Reply → Outcome (Unit {0})
of_reply ok = returned tt
of_reply (error m) = raised m

-- One call of the client. If it suspends a task that was cancelled, the call is interrupted; it then counts as
-- not sent, as if the client first suspended before it writes.
unfoldable pub perform : Redis → Command → M (Unit {0})
perform redis c w =
    let reply = redis.answer w.trace c in
    if w.cancel_pending && redis.suspends c
    then (cancelled, record w { cancel_pending = false })
    else (of_reply reply, record w { trace = w.trace ++ ((c, reply) ∷ []) })
