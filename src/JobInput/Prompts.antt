-- ===== src/JobInput/Prompts.antt =====
-- What a job with messages comes to.
use gemma_vllm_worker.Base.{
  ◌≡◌, ◌⊎◌, refl, ap, ◌∙◌, false, Option, none, some, String, if_false, string_comparable,
}
use gemma_vllm_worker.Base.Dict.{Dict}
use gemma_vllm_worker.Base.Events.{Events}
use gemma_vllm_worker.Base.Value.{Value, Items, str, list, is_true}
use gemma_vllm_worker.Batch.{Quantity}
use gemma_vllm_worker.Generate.{Settings, RequestOutput, generate, generate_vllm, drive, error}
use gemma_vllm_worker.OpenAi.{Attempt, value, failed}
use gemma_vllm_worker.OpenAi
use gemma_vllm_worker.EngineArgs.Types.{Python}
use gemma_vllm_worker.Tokenizer.{
  Tokenizer, TokenizerWrapper, Pretrained, attempt_map, or_else, wrap, tokenizer_wrapper,
  get_tokenizer_for_chat_template, prompt_of,
}
use gemma_vllm_worker.JobInput.{
  Sampling, JobInput, job_input, request_of, outputs_for, job_of, attempt_job, handle_job,
}
use gemma_vllm_worker.Handler.{Yielded, tokens, Run, finished, yielding, forward, handler}
use gemma_vllm_worker.Tokenizer.Templates.{
  render_messages, apply_chat_template-wrap, get_tokenizer_for_chat_template_lem, prompt_of-list,
}
use gemma_vllm_worker.JobInput.Parameters.{IsLimited, job_input-IsLimited}

module _ (py : Python) where
  module _ (sampling : Sampling py.Float) where
    module _ (q : Quantity) (number : Value py.Float → q.Num) (settings : Settings q.Num)
        (llm : Value py.Float → sampling.SamplingParams → Events RequestOutput) {Doc : Type 0}
        (openai : (openai_route openai_input : Value py.Float) → Events (OpenAi.Reply Doc)) where
      -- What the handler yields for rendered messages, or for the exception of rendering them.
      abbrev pub run_of :
          JobInput py.Float sampling.SamplingParams → Attempt String → Run (Yielded Doc)
      run_of j (failed m) = yielding (tokens (error m)) finished
      run_of j (value text) = forward tokens (
          generate q settings (request_of py sampling q number j)
            (llm (str text) j.sampling_params))

      run_of-outputs :
          (j : JobInput py.Float sampling.SamplingParams) (o : Attempt String)
          → forward {Doc = Doc} tokens (
              generate q settings
                (request_of py sampling q number j)
                (outputs_for py sampling llm j.sampling_params (attempt_map str o)))
            ≡ run_of j o
      unfolding generate generate_vllm drive forward
      run_of-outputs j (value text) = refl
      run_of-outputs j (failed m) = refl

-- A job whose input has a list of messages and no OpenAI route, in either mode of the tokenizer: the
-- messages are rendered with the custom template, if one is set and not empty, or with the tokenizer's own.
-- Without either, or where the rendering raises, the handler yields one error and returns, and vLLM gets
-- no prompt; else it yields what the vLLM engine yields for the rendered text. The job's sampling
-- parameters are kept, with a limit of 100 tokens if they give none.
pub handle_job_messages :
    (py : Python) (sampling : Sampling py.Float) (q : Quantity) (number : Value py.Float → q.Num)
    (settings : Settings q.Num)
    (llm : Value py.Float → sampling.SamplingParams → Events RequestOutput) (Doc : Type 0)
    (openai : (openai_route openai_input : Value py.Float) → Events (OpenAi.Reply Doc))
    (from_pretrained : Pretrained py.Float) (env : Dict String)
    (engine_args : String → Value py.Float) (own : Option (TokenizerWrapper py.Float))
    (t : Tokenizer py.Float) (job : Dict (Value py.Float))
    (j : JobInput py.Float sampling.SamplingParams) (messages : Items py.Float)
    → from_pretrained
        (or_else py (engine_args "tokenizer") (engine_args "model"))
        (or_else py (engine_args "tokenizer_revision") (str "main"))
        (engine_args "trust_remote_code")
      ≡ value t
    → (own ≡ none) ⊎ (own ≡ some (wrap py env t))
    → job_input py sampling job ≡ value j
    → j.llm_input ≡ list messages
    → is_true py.is_zero_float j.openai_route ≡ false
    → (handle_job py sampling q number settings
          (get_tokenizer_for_chat_template py from_pretrained env engine_args own)
          llm
          openai
          job
        ≡ run_of py sampling q number settings llm openai j (render_messages py env t messages))
      × IsLimited py sampling job j.sampling_params
unfolding handle_job handler job_of tokenizer_wrapper
handle_job_messages py sampling q number settings llm Doc openai from_pretrained env engine_args own
      t job j messages loaded mode read given vllm =
    let wrapper = get_tokenizer_for_chat_template py from_pretrained env engine_args own in
    let found : wrapper ≡ value (wrap py env t) =
      get_tokenizer_for_chat_template_lem py from_pretrained env engine_args own (wrap py env t)
        (ap (attempt_map (wrap py env)) loaded) mode in
    let prompt : prompt_of py wrapper j.llm_input j.apply_chat_template
        ≡ attempt_map str (render_messages py env t messages) =
      rw found (rw given (prompt_of-list py (wrap py env t) messages j.apply_chat_template))
      ∙ ap (attempt_map str) (apply_chat_template-wrap py env t messages) in
    (
      ap (λ o. handler q settings (attempt_job py sampling q number settings wrapper llm openai o))
            read
          ∙ if_false (is_true py.is_zero_float j.openai_route) _ _ vllm
          ∙ ap
              (λ p. forward tokens (
                generate q settings (request_of py sampling q number j)
                  (outputs_for py sampling llm j.sampling_params p)))
              prompt
          ∙ run_of-outputs py sampling q number settings llm openai j
              (render_messages py env t messages),
      job_input-IsLimited py sampling job j read,
    )
