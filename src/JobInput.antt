-- ===== src/JobInput.antt =====
-- `JobInput` of src/utils.py, and the way of a job from its input to the engines. The construction of
-- vLLM's `SamplingParams` is a parameter, with the number of responses that it asks for.
pub mod Parameters
pub mod Prompts
use gemma_vllm_worker.Base.{
  ℕ, Bool, true, false, not, ◌||◌, Option, none, some, [], ◌∷◌, String, if◌then◌else◌, is_some,
  get_or,
}
use gemma_vllm_worker.Base.Int.{pos}
use gemma_vllm_worker.Base.Dict.{Dict, lookup, insert}
use gemma_vllm_worker.Base.Events.{Events, raise}
use gemma_vllm_worker.Base.Value.{
  Value, null, bool, int, float, str, list, tuple, dict, entries, fields_of, is_true, is_null,
}
use gemma_vllm_worker.Batch.{Quantity}
use gemma_vllm_worker.Generate.{Settings, Request, RequestOutput}
use gemma_vllm_worker.OpenAi.{Attempt, value, failed, attempt_bind}
use gemma_vllm_worker.OpenAi
use gemma_vllm_worker.EngineArgs.Types.{
  Python, FieldType, int_type, float_type, Conversion, ok, value_error, type_error,
}
use gemma_vllm_worker.Tokenizer.{TokenizerWrapper, prompt_of}
use gemma_vllm_worker.Handler.{Job, Yielded, Run, handler}

-- `SamplingParams(**d)`, its `n`, and the messages of the exceptions of Python.
pub record Sampling (F : Type 0) : Type 1 where
  pub SamplingParams : Type 0
  pub sampling_params_of : Dict (Value F) → Attempt SamplingParams
  pub n : SamplingParams → ℕ
  -- Of `int(v)` and `float(v)`, and of `samp_param` where it is no dict.
  pub conversion_error : FieldType → Value F → String
  pub no_dict : Value F → String

pub record JobInput (F Params : Type 0) : Type 0 where
  pub llm_input : Value F
  pub stream : Value F
  pub max_batch_size : Value F
  pub apply_chat_template : Value F
  pub use_openai_format : Value F
  pub sampling_params : Params
  pub batch_size_growth_factor : Value F
  pub min_batch_size : Value F
  pub openai_route : Value F
  pub openai_input : Value F

module _ (py : Python) (sampling : Sampling py.Float) where
  -- `job.get(key, default)`
  abbrev pub get_field : Dict (Value py.Float) → String → Value py.Float → Value py.Float
  get_field job key default = get_or (lookup key job) default

  abbrev pub called :
      FieldType → Value py.Float → Conversion (Value py.Float) → Attempt (Value py.Float)
  called t v (ok w) = value w
  called t v value_error = failed (sampling.conversion_error t v)
  called t v type_error = failed (sampling.conversion_error t v)

  -- `t(v) if v else None`
  abbrev pub converted_or_none : FieldType → Value py.Float → Attempt (Value py.Float)
  converted_or_none t v =
      if is_true py.is_zero_float v then called t v (py.call t v) else value null

  -- `samp_param["max_tokens"] = 100`, where it is missing.
  unfoldable pub with_max_tokens : Dict (Value py.Float) → Dict (Value py.Float)
  with_max_tokens samp_param =
      if is_some (lookup "max_tokens" samp_param)
      then samp_param
      else insert "max_tokens" (int (pos 100)) samp_param

  -- `self.sampling_params`, from what the job gives.
  unfoldable pub read_sampling : Value py.Float → Attempt sampling.SamplingParams
  unfolding with_max_tokens
  read_sampling (dict fs) = sampling.sampling_params_of (with_max_tokens (entries fs))
  read_sampling null = failed (sampling.no_dict null)
  read_sampling (bool b) = failed (sampling.no_dict (bool b))
  read_sampling (int k) = failed (sampling.no_dict (int k))
  read_sampling (float x) = failed (sampling.no_dict (float x))
  read_sampling (str s) = failed (sampling.no_dict (str s))
  read_sampling (list xs) = failed (sampling.no_dict (list xs))
  read_sampling (tuple xs) = failed (sampling.no_dict (tuple xs))

  -- `JobInput.__init__`
  unfoldable pub job_input :
      Dict (Value py.Float) → Attempt (JobInput py.Float sampling.SamplingParams)
  unfolding read_sampling
  job_input job =
      attempt_bind (read_sampling (get_field job "sampling_params" (dict (fields_of [])))) λ params.
        attempt_bind (converted_or_none float_type (get_field job "batch_size_growth_factor" null))
          λ growth.
            attempt_bind (converted_or_none int_type (get_field job "min_batch_size" null)) λ least.
              value record {
                llm_input = get_field job "messages" (get_field job "prompt" null);
                stream = get_field job "stream" (bool false);
                max_batch_size = get_field job "max_batch_size" null;
                apply_chat_template = get_field job "apply_chat_template" (bool false);
                use_openai_format = get_field job "use_openai_format" (bool false);
                sampling_params = params;
                batch_size_growth_factor = growth;
                min_batch_size = least;
                openai_route = get_field job "openai_route" null;
                openai_input = get_field job "openai_input" null;
              }

  module _ (q : Quantity) (number : Value py.Float → q.Num) where
    abbrev pub number_or_none : Value py.Float → Option q.Num
    number_or_none v = if is_null v then none else some (number v)

    -- What `generate` reads of a `JobInput`.
    unfoldable pub request_of : JobInput py.Float sampling.SamplingParams → Request q.Num
    request_of j = record {
      stream = is_true py.is_zero_float j.stream;
      n_responses = sampling.n j.sampling_params;
      max_batch_size = number_or_none j.max_batch_size;
      batch_size_growth_factor = number_or_none j.batch_size_growth_factor;
      min_batch_size = number_or_none j.min_batch_size;
    }

  -- What vLLM yields for the prompt, or the exception of the rendering.
  abbrev pub outputs_for :
      (Value py.Float → sampling.SamplingParams → Events RequestOutput)
      → sampling.SamplingParams
      → Attempt (Value py.Float)
      → Events RequestOutput
  outputs_for llm params (value prompt) = llm prompt params
  outputs_for llm params (failed m) = raise m

  module _ (q : Quantity) (number : Value py.Float → q.Num) (settings : Settings q.Num)
      (wrapper : Attempt (TokenizerWrapper py.Float))
      (llm : Value py.Float → sampling.SamplingParams → Events RequestOutput) {Doc : Type 0}
      (openai : (openai_route openai_input : Value py.Float) → Events (OpenAi.Reply Doc)) where
    unfoldable pub job_of : JobInput py.Float sampling.SamplingParams → Job q.Num Doc
    unfolding prompt_of request_of
    job_of j = record {
      has_openai_route = is_true py.is_zero_float j.openai_route;
      request = request_of q number j;
      outputs =
          outputs_for llm j.sampling_params
            (prompt_of py wrapper j.llm_input j.apply_chat_template);
      openai_replies = openai j.openai_route j.openai_input;
    }

    abbrev pub attempt_job :
        Attempt (JobInput py.Float sampling.SamplingParams) → Attempt (Job q.Num Doc)
    attempt_job (value j) = value (job_of j)
    attempt_job (failed m) = failed m

    -- `handler`, from the input of the job.
    unfoldable pub handle_job : Dict (Value py.Float) → Run (Yielded Doc)
    unfolding job_input job_of handler
    handle_job job = handler q settings (attempt_job (job_input job))
