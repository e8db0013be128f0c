-- ===== src/Heartbeat/Idle/Interrupted.antt =====
-- The idle monitor stops its own task before it awaits the shutdown callback.
use gemma_vllm_worker.Base.{false, String, nat_comparable}
use gemma_vllm_worker.Heartbeat.World.{World}
use gemma_vllm_worker.Heartbeat.Service.{Context}

abbrev pause : String
pause = "idle-timeout"

module _ (c : Context) where
  abbrev interrupted : World → World
  interrupted w = record w { cancel_pending = false }
