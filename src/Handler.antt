-- ===== src/Handler.antt =====
-- src/handler.py: the job handler of the serverless worker. The construction of the `JobInput` is given
-- by its outcome, and so are vLLM's events for the job.
pub mod Errors
pub mod Start
use gemma_vllm_worker.Base.{
  Bool, true, false, not, ◌||◌, Option, none, some, List, [], ◌∷◌, String, if◌then◌else◌, ◌==◌,
  string_comparable,
}
use gemma_vllm_worker.Base.Text.{contains}
use gemma_vllm_worker.Base.Events.{Events, done, raise, item}
use gemma_vllm_worker.Batch.{Quantity}
use gemma_vllm_worker.Generate.{Settings, Request, RequestOutput}
use gemma_vllm_worker.Generate
use gemma_vllm_worker.OpenAi.{Attempt, value, failed}
use gemma_vllm_worker.OpenAi

-- What the handler yields: what the engines yield, or `{"error": …}`.
pub data Yielded (Doc : Type 0) : Type 0 where
  tokens : Generate.Reply → Yielded Doc
  openai : OpenAi.Reply Doc → Yielded Doc
  error : String → Yielded Doc

-- A run of the handler: what it yields, and whether it returns or exits the process.
pub data Run (A : Type 0) : Type 0 where
  finished : Run A
  exited : Run A
  yielding : A → Run A → Run A

unfoldable pub is_cuda_error : String → Bool
is_cuda_error message = contains "CUDA" message || contains "cuda" message

-- The `except` clause.
unfoldable pub on_error : {Doc : Type 0} → String → Run (Yielded Doc)
unfolding is_cuda_error
on_error message = if is_cuda_error message then exited else yielding (error message) finished

-- The loop over the engine's generator, inside the `try`.
unfoldable pub forward : {A Doc : Type 0} → (A → Yielded Doc) → Events A → Run (Yielded Doc)
unfolding on_error
forward wrap done = finished
forward wrap (raise m) = on_error m
forward wrap (item a es) = yielding (wrap a) (forward wrap es)

-- What is read of a `JobInput`, with vLLM's events for it.
pub record Job (N Doc : Type 0) : Type 0 where
  -- `bool(job_input.openai_route)`
  pub has_openai_route : Bool
  pub request : Request N
  pub outputs : Events RequestOutput
  -- What `OpenAIvLLMEngine.generate` yields for it.
  pub openai_replies : Events (OpenAi.Reply Doc)

abbrev pub uses_openai : {N Doc : Type 0} → Job N Doc → Bool
uses_openai j = j.has_openai_route

-- `handler`
unfoldable pub handler :
    {Doc : Type 0} → (q : Quantity) → Settings q.Num → Attempt (Job q.Num Doc) → Run (Yielded Doc)
unfolding forward on_error Generate.generate
handler q s (failed m) = on_error m
handler q s (value j) =
    if uses_openai j
    then forward openai j.openai_replies
    else forward tokens (Generate.generate q s j.request j.outputs)
