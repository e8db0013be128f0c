-- ===== src/Heartbeat/Tasks/Removed.antt =====
-- A worker that was removed from Redis stays so in every interleaving of the tasks.
use gemma_vllm_worker.Base.{Bool, true, false, string_comparable, nat_comparable}
use gemma_vllm_worker.Heartbeat.World.{Command, delete, srem, hset, heartbeat, World}

abbrev is_removal : Command → Bool
is_removal (delete k) = true
is_removal (srem k m) = true
is_removal cmd = false

abbrev is_write : Command → Bool
is_write (hset k f v) = true
is_write (heartbeat k fields ttl s m) = true
is_write cmd = false
