-- ===== src/Server/Stop.antt =====
-- How the server of src/server.py stops, and its list of models.
use gemma_vllm_worker.Base.{Bool, true, false, none, some}
use gemma_vllm_worker.Batch.{Quantity}
use gemma_vllm_worker.Generate.{Settings}
use gemma_vllm_worker.OpenAi.{Attempt, value, failed, Serving, doc, ensure_engines_initialized}
use gemma_vllm_worker.Heartbeat.World.{World, M}
use gemma_vllm_worker.Heartbeat.Service.{Context}
use gemma_vllm_worker.Heartbeat.Shutdown.{graceful_shutdown}
use gemma_vllm_worker.Server.{HttpResponse, respond, message, reply}
use gemma_vllm_worker.Server.Boot.{Ending, exit_after}

-- The end of `lifespan`.
unfoldable pub lifespan_end : Context → M (Unit {0})
unfolding graceful_shutdown
lifespan_end c = graceful_shutdown c "shutdown"

-- `_fatal_shutdown`: the task that a CUDA error starts, and how it ends.
unfoldable pub fatal_shutdown : Context → World → Ending × World
unfolding graceful_shutdown
fatal_shutdown c w = let (o, w') = graceful_shutdown c "unhealthy" w in (exit_after c o, w')

-- `models`, with the flag `_engines_initialized` before and after; it raises where vLLM does.
unfoldable pub models :
    (q : Quantity) (v : Serving)
    → Settings q.Num
    → (engines_ready initialized : Bool) → Bool × Attempt (HttpResponse v.Doc)
unfolding ensure_engines_initialized
models q v settings false initialized = (initialized, value (respond 503 (message "Model loading")))
models q v settings true initialized =
    let (now, problem) = ensure_engines_initialized q v settings false initialized in
    (
      now,
      elim problem [
        | some m ↦ failed m
        | none ↦ elim v.show_models [
          | failed m ↦ failed m
          | value d ↦ value (respond 200 (reply (doc d)))
        ]
      ],
    )
