-- ===== src/Server/Life/Ends.antt =====
-- How a life of the server ends.
use gemma_vllm_worker.Base.{ℕ, ◌≡◌, true, false, List, ◌∷◌, ◌++◌, String, string_comparable}
use gemma_vllm_worker.Base.Dict.{Dict}
use gemma_vllm_worker.Base.Events.{Events}
use gemma_vllm_worker.OpenAi.{Reply}
use gemma_vllm_worker.Heartbeat.World.{Command, Reply as Answer, ok, World}
use gemma_vllm_worker.Heartbeat.Service.{Context, termination}
use gemma_vllm_worker.Heartbeat.Quiet.{count_of}
use gemma_vllm_worker.Heartbeat.Shutdown.Laws.{removal}
use gemma_vllm_worker.Heartbeat.Shutdown.Runs.{is_signal}
use gemma_vllm_worker.Server.App.{App}
use gemma_vllm_worker.Server.Life.Calm.{IsCalm}

-- Only the load and the activity may differ.
abbrev Keeps : World → World → Type 0
Keeps w u = (load : ℕ) × (last : ℕ) × (u ≡ record w { current_load = load; last_activity = last })

-- A world with an open connection, and not shut down.
abbrev IsLive : World → Type 0
IsLive w = (w.redis_open ≡ true) × IsCalm w

-- The one signal of a process with the reason, with nothing but the removal after it.
abbrev pub SignalsOnce : Context → String → World → Type 0
SignalsOnce c reason u =
    (u.redis_open ≡ false)
    × ((t : List (Command × Answer)) × (count_of is_signal t ≡ 0)
        × (u.trace ≡ t ++ ((termination c reason, ok) ∷ removal c)))
