-- ===== src/Server/Boot/Failed.antt =====
-- A boot that fails in `_boot_in_background` of src/server.py.
use gemma_vllm_worker.Base.{◌≡◌, false, true, List, ◌∷◌, ◌++◌, string_comparable}
use gemma_vllm_worker.Base.Dict.{Dict}
use gemma_vllm_worker.Heartbeat.World.{World, connect, ok}
use gemma_vllm_worker.Heartbeat.Service.{Context, termination}
use gemma_vllm_worker.Heartbeat.Shutdown.Laws.{Answers, removal, sent}
use gemma_vllm_worker.Server.Boot.{Booted, exited}

-- Not shut down, with no connection and no cancellation.
pub record IsFresh (w : World) : Type 0 where
  pub pending : w.cancel_pending ≡ false
  pub first : w.shutdown_signaled ≡ false
  pub closed : w.redis_open ≡ false

-- What a failed boot of such a worker leaves.
abbrev pub Fails : Context → World → Booted → Type 0
Fails c w b =
    (b.ending ≡ exited)
    × (b.engines_ready ≡ false)
    × (b.world.redis_open ≡ false)
    × (b.world.trace ≡ w.trace ++ ((connect, ok) ∷ (termination c "unhealthy", ok) ∷ removal c))

module _ (c : Context) (all : Answers c) where
  abbrev opened : World → World
  opened w = record (sent c connect w) { redis_open = true }
