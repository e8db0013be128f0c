-- ===== src/Tests/Jobs.antt =====
-- Jobs of the serverless handler on a broken GPU.
use gemma_vllm_worker.Base.{ℕ, ◌≡◌, ◌↔◌, refl, true, false, none, inr, String, map}
use gemma_vllm_worker.Base.Events.{raise, item, items}
use gemma_vllm_worker.Batch.{natural}
use gemma_vllm_worker.Generate.{Settings, generate}
use gemma_vllm_worker.OpenAi.{value, text}
use gemma_vllm_worker.Handler.{Job, tokens, handler}
use gemma_vllm_worker.Handler.Errors.{yields, Exits, NamesCuda, Fails, handler_vllm, handler-Exits}

abbrev settings : Settings ℕ
settings = record { default_batch_size = 50; batch_size_growth_factor = 3; min_batch_size = 1 }

abbrev job : Job ℕ String
job = record {
  has_openai_route = false;
  request = record {
    stream = false;
    n_responses = 1;
    max_batch_size = none;
    batch_size_growth_factor = none;
    min_batch_size = none;
  };
  outputs = raise "CUDA error: out of memory";
  openai_replies = item (text "data: a") (raise "CUDA error: out of memory");
}

handler_vllm_example :
    (yields (handler natural settings (value job))
      ≡ map tokens (items (generate natural settings job.request job.outputs)))
    × (¬ Exits (handler natural settings (value job)))
handler_vllm_example = handler_vllm natural settings job refl

abbrev routed : Job ℕ String
routed = record job { has_openai_route = true }

handler-Exits_example :
    Exits (handler natural settings (value routed))
    ↔ ((m : String) × Fails (value routed) m × NamesCuda m)
handler-Exits_example = handler-Exits natural settings (value routed)

broken_gpu : Fails (value routed) "CUDA error: out of memory" × NamesCuda "no cuda device"
broken_gpu = ((refl, refl), ("no ", " device", inr refl))
