-- ===== src/Tests/Starting.antt =====
-- A job with messages, and the start of the OpenAI engine with one adapter.
use gemma_vllm_worker.Base.{
  ℕ, ◌≡◌, inr, refl, true, false, Option, none, some, [], ◌∷◌, String, ◌<>◌, if◌then◌else◌, get_or,
  ◌==◌, string_comparable,
}
use gemma_vllm_worker.Base.Int.{pos}
use gemma_vllm_worker.Base.Number.{parse_int}
use gemma_vllm_worker.Base.Text.{lower, contains}
use gemma_vllm_worker.Base.Dict.{Dict, lookup, insert}
use gemma_vllm_worker.Base.Events.{Events, done, item}
use gemma_vllm_worker.Base.Value.{Value, null, bool, int, str, list, dict, items_of, fields_of}
use gemma_vllm_worker.Batch.{natural}
use gemma_vllm_worker.Generate.{Settings, RequestOutput}
use gemma_vllm_worker.OpenAi.{value, failed}
use gemma_vllm_worker.EngineArgs.{get_local_args, get_engine_args}
use gemma_vllm_worker.EngineArgs.Types.{Python}
use gemma_vllm_worker.Tokenizer.{Tokenizer, wrap, get_tokenizer_for_chat_template}
use gemma_vllm_worker.JobInput.{Sampling, JobInput, job_input, handle_job}
use gemma_vllm_worker.JobInput.Prompts.{run_of, handle_job_messages}
use gemma_vllm_worker.JobInput.Parameters.{IsLimited}
use gemma_vllm_worker.Tokenizer.Templates.{render_messages}
use gemma_vllm_worker.Handler.{handler, on_error, is_cuda_error, exited}
use gemma_vllm_worker.Engines.{
  Backend, made, VllmEngine, OpenAiEngine, vllm_engine, own_tokenizer, load_lora_adapters,
  load_adapters, announce, raw_output, served_name, openai_engine,
}
use gemma_vllm_worker.Engines.Loras.{AllMade, openai_engine_made}
use gemma_vllm_worker.Tests.Engine.{
  python_with, vllm, environment, engine_args, local_json, loads, settled,
}

abbrev pub loads_all : String → Option (Value String)
loads_all s = if s == "[{}]" then some (list (items_of (dict (fields_of []) ∷ []))) else loads s

abbrev pub python : Python
python = python_with loads_all

abbrev sampling : Sampling String
sampling = record {
  SamplingParams = Dict (Value String);
  sampling_params_of = value;
  n = λ d. 1;
  conversion_error = λ t v. "invalid literal for int() with base 10: 'cuda'";
  no_dict = λ v. "TypeError";
}

-- Renders a template by its name.
abbrev tokenizer : Tokenizer String
tokenizer = record {
  chat_template = null;
  render = λ template messages. elim template [
    | str s ↦ value (s <> ": hi")
    | other ↦ failed "no template"
  ];
}

abbrev settings : Settings ℕ
settings = record { default_batch_size = 50; batch_size_growth_factor = 3; min_batch_size = 1 }

abbrev llm : Value String → Dict (Value String) → Events RequestOutput
llm prompt params =
    item (record { prompt_tokens = 2; outputs = (record { index = 0; text = "yes" }) ∷ [] }) done

abbrev messages : Value String
messages = list (items_of (dict (fields_of (("role", str "user") ∷ [])) ∷ []))

abbrev job : Dict (Value String)
job =
    ("messages", messages)
    ∷ ("sampling_params", dict (fields_of (("top_k", int (pos 5)) ∷ [])))
    ∷ []

abbrev input : JobInput String (Dict (Value String))
input = record {
  llm_input = messages;
  stream = bool false;
  max_batch_size = null;
  apply_chat_template = bool false;
  use_openai_format = bool false;
  sampling_params = ("top_k", int (pos 5)) ∷ ("max_tokens", int (pos 100)) ∷ [];
  batch_size_growth_factor = null;
  min_batch_size = null;
  openai_route = null;
  openai_input = null;
}

read : job_input python sampling job ≡ value input
unfolding job_input lookup insert
read = refl

abbrev templates : Dict String
templates = ("CUSTOM_CHAT_TEMPLATE", "mine") ∷ []

abbrev attributes : String → Value String
attributes key = if key == "tokenizer_mode" then str "mistral" else null

handle_job_messages_example :
    (handle_job python sampling natural
        (λ v. 7)
        settings
        (get_tokenizer_for_chat_template python
          (λ n r t. value tokenizer)
          templates
          attributes
          (some (wrap python templates tokenizer)))
        llm
        {Doc = String}
        (λ route body. done)
        job
      ≡ run_of python sampling natural
          (λ v. 7)
          settings
          llm
          (λ route body. done)
          input
          (render_messages python templates tokenizer
            (items_of (dict (fields_of (("role", str "user") ∷ [])) ∷ []))))
    × IsLimited python sampling job input.sampling_params
handle_job_messages_example =
    handle_job_messages python sampling natural (λ v. 7) settings llm String (λ route body. done)
      (λ n r t. value tokenizer) templates attributes (some (wrap python templates tokenizer))
      tokenizer job input (items_of (dict (fields_of (("role", str "user") ∷ [])) ∷ [])) refl
      (inr refl) read refl refl

rendered : render_messages python templates tokenizer (items_of []) ≡ value "mine: hi"
unfolding lookup
rendered = refl

abbrev pub backend : Backend String
backend = record {
  Llm = String;
  LoraModulePath = ℕ;
  async_engine_args =
      λ args. some (λ key. get_or (lookup key (("tokenizer_mode", str "mistral") ∷ args)) null);
  from_engine_args = λ attribute. some "new";
  from_pretrained = λ n r t. value tokenizer;
  lora_module_path = λ v. some 3;
}

abbrev attributes_of_engine : String → Value String
attributes_of_engine key =
    get_or (lookup key (("tokenizer_mode", str "mistral") ∷ engine_args)) null

abbrev pub base : VllmEngine String String
base = record {
  engine_args = attributes_of_engine;
  llm = "llm";
  tokenizer = none;
  max_concurrency = pos 30;
  settings = record {
    default_batch_size = pos 50;
    batch_size_growth_factor = pos 3;
    min_batch_size = pos 1;
  };
}

abbrev pub engine : OpenAiEngine String String ℕ
engine = record {
  base = base;
  served_model_name = str "/c/m";
  response_role = "assistant";
  lora_adapters = made 3 ∷ [];
  engines_initialized = false;
  raw_openai_output = true;
}

pub args_read : get_engine_args python vllm (some local_json) environment ≡ some engine_args
unfolding get_engine_args get_local_args
args_read = settled loads_all

base_started :
    vllm_engine python backend vllm (some "llm") (some local_json) environment ≡ some base
unfolding vllm_engine own_tokenizer lookup
base_started = rw args_read refl

started : openai_engine python backend vllm base (some local_json) environment ≡ some engine
unfolding openai_engine load_lora_adapters load_adapters announce raw_output served_name lookup
    parse_int lower
started = rw base_started refl

listed :
    loads_all (get_or (lookup "LORA_MODULES" environment) "[]")
    ≡ some (list (items_of (dict (fields_of []) ∷ [])))
unfolding lookup
listed = refl

openai_engine_made_example :
    AllMade python backend (items_of (dict (fields_of []) ∷ [])) engine.lora_adapters
    × (engine.base.llm ≡ base.llm)
    × (engine.engines_initialized ≡ false)
openai_engine_made_example =
    openai_engine_made python backend vllm base (some local_json) environment
      (items_of (dict (fields_of []) ∷ [])) engine listed started

-- A job whose number is the text "cuda" ends the process.
cuda_text :
    handle_job python sampling natural
      (λ v. 7)
      settings
      (failed "")
      llm
      {Doc = String}
      (λ route body. done)
      (("min_batch_size", str "cuda") ∷ [])
    ≡ exited
unfolding handle_job handler on_error is_cuda_error job_input lookup contains
cuda_text = refl
