-- ===== src/Tests/Interleaving.antt =====
-- Tasks of the heartbeat that run between each other's awaits.
use gemma_vllm_worker.Base.{
  ℕ, zero, suc, ◌≤◌, ◌≡◌, refl, Bool, true, false, not, List, [], ◌∷◌, ◌++◌,
}
use gemma_vllm_worker.Heartbeat.{is_heartbeat_enabled}
use gemma_vllm_worker.Heartbeat.World.{initial_world, World, Command, close, Reply, ok}
use gemma_vllm_worker.Heartbeat.Shutdown.Runs.{is_signal}
use gemma_vllm_worker.Heartbeat.Shutdown.{stop_idle_timeout, stop_heartbeat}
use gemma_vllm_worker.Heartbeat.Quiet.{count_of}
use gemma_vllm_worker.Heartbeat.Tasks.{
  Coroutine, return, await, Kind, first_beat, beat, shutdown, in_loop, code_of, effect, Process,
  State, advance, resumed, Step, begins, answered, Reach, here, next,
}
use gemma_vllm_worker.Heartbeat.Tasks.Registered.{hash_entry, writes, removes, is_confirmed}
use gemma_vllm_worker.Heartbeat.Tasks.Signals.{one_signal}
use gemma_vllm_worker.Tests.Lifecycle.{worker, calm}

abbrev at_rest : State
at_rest = record {
  world = worker;
  registry = record { hash = true; member = true };
  abandoned = [];
  tasks = [];
}

abbrev starting : Kind → State → State
starting kind s =
    resumed (in_loop kind) (advance (code_of calm kind) s.world) s.registry s.abandoned [] s.tasks

-- The task at a place of the list, which waits for Redis, is answered.
abbrev before : ℕ → List Process → List Process
before zero ts = []
before (suc n) [] = []
before (suc n) (t ∷ ts) = t ∷ before n ts

abbrev from : ℕ → List Process → List Process
from zero ts = ts
from (suc n) [] = []
from (suc n) (t ∷ ts) = from n ts

abbrev command_of : List Process → Command
command_of [] = close
command_of (t ∷ after) = elim t.code [ await cmd f ↦ cmd | code ↦ close ]

abbrev rest_of : List Process → Reply → Coroutine
rest_of [] r = return
rest_of (t ∷ after) r = elim t.code [ await cmd f ↦ f r | code ↦ return ]

abbrev answered_at : ℕ → State → State
answered_at n s =
    let ts = from n s.tasks in
    let cmd = command_of ts in
    resumed false
      (advance (rest_of ts ok) (record s.world { trace = s.world.trace ++ ((cmd, ok) ∷ []) }))
      (effect cmd s.registry) s.abandoned (before n s.tasks) (from 1 ts)

answered_at-Step :
    (may : Kind → Bool) (linger : World → Command → Bool) (n : ℕ) (s : State)
    → (let ts = from n s.tasks in
        s.tasks
        ≡ before n s.tasks
          ++ (record { of_loop = false; code = await (command_of ts) (rest_of ts) } ∷ from 1 ts))
    → Step calm may linger s (answered_at n s)
answered_at-Step may linger n s e =
    let ts = from n s.tasks in
    answered (before n s.tasks) (from 1 ts) false (command_of ts) (rest_of ts) ok
      (effect (command_of ts) s.registry) e tt refl refl

-- A heartbeat of the loop waits for Redis while the shutdown sends its signal and removes the hash.
abbrev beating : State
beating = starting (beat 9) at_rest

abbrev stopping : State
stopping = starting (shutdown "shutdown") beating

abbrev signaled : State
signaled = answered_at 0 stopping

abbrev removed : State
removed = answered_at 0 signaled

abbrev unwritten : Kind → Bool
unwritten kind = not (writes hash_entry kind)

abbrev at_any_time : World → Command → Bool
at_any_time w cmd = true

-- Redis drops what cancelled tasks sent once it confirmed the removal of the hash.
abbrev in_time : World → Command → Bool
in_time w cmd = not (is_confirmed (removes hash_entry) w.trace)

removed-Reach :
    (may : Kind → Bool) (linger : World → Command → Bool)
    → may (beat 9) ≡ true
    → may (shutdown "shutdown") ≡ true
    → Reach calm may linger at_rest removed
unfolding code_of advance is_heartbeat_enabled stop_idle_timeout stop_heartbeat
removed-Reach may linger b d =
    next
      (next
        (next (next here (begins (beat 9) b refl refl)) (begins (shutdown "shutdown") d tt refl))
        (answered_at-Step may linger 0 stopping refl))
      (answered_at-Step may linger 0 signaled refl)

one_signal_example :
    (count_of is_signal removed.world.trace ≤ 1)
    × (removed.world.shutdown_signaled ≡ false → count_of is_signal removed.world.trace ≡ 0)
one_signal_example =
    one_signal calm (λ kind. true) at_any_time at_rest removed refl refl
      (removed-Reach (λ kind. true) at_any_time refl refl)

-- The heartbeat that is started beside the loop is not stopped: it waits while the shutdown removes the
-- registration, and registers the worker again.
abbrev unstopped : State
unstopped = starting (shutdown "shutdown") (starting (first_beat 9) at_rest)

abbrev deregistered : State
deregistered = answered_at 0 (answered_at 0 (answered_at 0 unstopped))

abbrev registered_again : State
registered_again = answered_at 1 deregistered

registered_again-Reach : Reach calm (λ kind. true) at_any_time at_rest registered_again
unfolding code_of advance is_heartbeat_enabled stop_idle_timeout stop_heartbeat
registered_again-Reach =
    let may : Kind → Bool = λ kind. true in
    let linger = at_any_time in
    next
      (next
        (next
          (next
            (next (next here (begins (first_beat 9) refl tt refl))
              (begins (shutdown "shutdown") refl tt refl))
            (answered_at-Step may linger 0 unstopped refl))
          (answered_at-Step may linger 0 (answered_at 0 unstopped) refl))
        (answered_at-Step may linger 0 (answered_at 0 (answered_at 0 unstopped)) refl))
      (answered_at-Step may linger 1 deregistered refl)

deregistered_lem : deregistered.registry ≡ record { hash = false; member = false }
unfolding code_of advance effect is_heartbeat_enabled stop_idle_timeout stop_heartbeat
deregistered_lem = refl

registered_again_lem : registered_again.registry ≡ record { hash = true; member = true }
unfolding code_of advance effect is_heartbeat_enabled stop_idle_timeout stop_heartbeat
registered_again_lem = refl

-- A worker from its start on.
abbrev first : State
first = record {
  world = initial_world 3;
  registry = record { hash = false; member = false };
  abandoned = [];
  tasks = [];
}

from_start :
    (s : State)
    → Reach calm (λ kind. true) at_any_time first s
    → count_of is_signal s.world.trace ≤ 1
unfolding initial_world
from_start s r = (one_signal calm (λ kind. true) at_any_time first s refl refl r).0
