-- ===== src/Engines.antt =====
-- The construction of the engines in src/engine.py: `vLLMEngine.__init__`, `OpenAIvLLMEngine.__init__` and
-- `_load_lora_adapters`. No value is where a constructor raises. vLLM's own constructors are the record
-- `Backend`.
pub mod Options
pub mod Loras
pub mod Serving
use Prim.Native.String
use gemma_vllm_worker.Base.{
  Bool, true, false, not, ◌||◌, Option, none, some, List, [], ◌∷◌, String, if◌then◌else◌, is_nil,
  get_or, ◌==◌, string_comparable,
}
use gemma_vllm_worker.Base.Int.{ℤ, pos, is_zero}
use gemma_vllm_worker.Base.Number.{parse_int}
use gemma_vllm_worker.Base.Text.{lower}
use gemma_vllm_worker.Base.Dict.{Dict, lookup}
use gemma_vllm_worker.Base.Value.{
  Value, Items, Fields, null, bool, int, float, str, list, tuple, dict, nil, cons, end, field,
  is_null, is_text,
}
use gemma_vllm_worker.Constants
use gemma_vllm_worker.Generate.{Settings}
use gemma_vllm_worker.OpenAi.{Attempt, value, failed}
use gemma_vllm_worker.EngineArgs.{Vllm, Args, get_engine_args}
use gemma_vllm_worker.EngineArgs.Types.{Python}
use gemma_vllm_worker.EngineArgs.Speculative.{bind, setting}
use gemma_vllm_worker.Tokenizer.{TokenizerWrapper, Pretrained, tokenizer_wrapper, or_else}

-- `AsyncEngineArgs(**args)` as its attributes, the engine that is made of them, the tokenizers, and
-- `LoRAModulePath(**adapter)`.
pub record Backend (F : Type 0) : Type 1 where
  pub Llm : Type 0
  pub LoraModulePath : Type 0
  pub async_engine_args : Dict (Value F) → Option (String → Value F)
  pub from_engine_args : (String → Value F) → Option Llm
  pub from_pretrained : Pretrained F
  pub lora_module_path : Value F → Option LoraModulePath

abbrev pub option_of : {A : Type 0} → Attempt A → Option A
option_of (value a) = some a
option_of (failed m) = none

-- `int(os.getenv(key, default))`
abbrev pub int_setting : Dict String → String → ℤ → Option ℤ
int_setting env key default = elim (lookup key env) [ none ↦ some default | some s ↦ parse_int s ]

-- An entry of `lora_adapters`: made, or left as it was in the JSON.
pub data Adapter (F Lora : Type 0) : Type 0 where
  made : Lora → Adapter F Lora
  left : Value F → Adapter F Lora

-- The attributes that `__init__` of the engines sets.
pub record VllmEngine (F Llm : Type 0) : Type 0 where
  pub engine_args : String → Value F
  pub llm : Llm
  pub tokenizer : Option (TokenizerWrapper F)
  pub max_concurrency : ℤ
  pub settings : Settings ℤ

pub record OpenAiEngine (F Llm Lora : Type 0) : Type 0 where
  pub base : VllmEngine F Llm
  pub served_model_name : Value F
  pub response_role : String
  pub lora_adapters : List (Adapter F Lora)
  pub engines_initialized : Bool
  pub raw_openai_output : Bool

module _ (py : Python) (backend : Backend py.Float) where
  -- The tokenizer, which is none in the mode of mistral.
  unfoldable pub own_tokenizer :
      Dict String → (String → Value py.Float) → Option (Option (TokenizerWrapper py.Float))
  unfolding tokenizer_wrapper
  own_tokenizer env engine_args =
      if is_text "mistral" (engine_args "tokenizer_mode")
      then some none
      else bind
          (option_of (
            tokenizer_wrapper py backend.from_pretrained env
              (or_else py (engine_args "tokenizer") (engine_args "model"))
              (engine_args "tokenizer_revision") (engine_args "trust_remote_code")))
          λ w. some (some w)

  -- `_initialize_llm`, which raises what vLLM raises.
  abbrev pub initialize_llm : (String → Value py.Float) → Option backend.Llm
  initialize_llm engine_args = backend.from_engine_args engine_args

  -- `self._initialize_llm() if engine is None else engine.llm`
  abbrev pub llm_of : Option backend.Llm → (String → Value py.Float) → Option backend.Llm
  llm_of none engine_args = initialize_llm engine_args
  llm_of (some llm) engine_args = some llm

  -- `vLLMEngine.__init__`, with the engine that is given, the file of the boot, and the environment.
  unfoldable pub vllm_engine :
      Vllm py.Float
      → Option backend.Llm
      → Option String
      → Dict String
      → Option (VllmEngine py.Float backend.Llm)
  unfolding own_tokenizer
  vllm_engine vllm engine local_file env =
      bind (bind (get_engine_args py vllm local_file env) backend.async_engine_args) λ engine_args.
        bind (llm_of engine engine_args) λ llm. bind (own_tokenizer env engine_args) λ tokenizer.
          bind (int_setting env "MAX_CONCURRENCY" Constants.default_max_concurrency)
            λ max_concurrency.
              bind (int_setting env "DEFAULT_BATCH_SIZE" Constants.default_batch_size)
                λ default_batch_size.
                  bind
                    (int_setting env "BATCH_SIZE_GROWTH_FACTOR"
                      Constants.default_batch_size_growth_factor)
                    λ growth_factor.
                      bind (int_setting env "MIN_BATCH_SIZE" Constants.default_min_batch_size)
                        λ min_batch_size. some record {
                          engine_args = engine_args;
                          llm = llm;
                          tokenizer = tokenizer;
                          max_concurrency = max_concurrency;
                          settings = record {
                            default_batch_size = default_batch_size;
                            batch_size_growth_factor = growth_factor;
                            min_batch_size = min_batch_size;
                          };
                        }

  abbrev pub adapter_of : Value py.Float → Adapter py.Float backend.LoraModulePath
  adapter_of v = elim (backend.lora_module_path v) [ some lora ↦ made lora | none ↦ left v ]

  unfoldable pub load_all : Items py.Float → List (Adapter py.Float backend.LoraModulePath)
  load_all nil = []
  load_all (cons v xs) = adapter_of v ∷ load_all xs

  -- The keys of a dict, which is what a loop over it sees; no key is a mapping.
  abbrev pub keys_left : Fields py.Float → List (Adapter py.Float backend.LoraModulePath)
  keys_left end = []
  keys_left (field k v fs) = left (str k) ∷ keys_left fs

  -- So for the characters of a text.
  abbrev pub chars_left : String → List (Adapter py.Float backend.LoraModulePath)
  chars_left Prim.Native.String.[] = []
  chars_left (Prim.Native.String.◌∷◌ c s) =
      left (str (Prim.Native.String.◌∷◌ c Prim.Native.String.[])) ∷ chars_left s

  -- The loop over what the JSON holds; numbers, booleans and `None` cannot be iterated over.
  unfoldable pub load_adapters :
      Value py.Float → Option (List (Adapter py.Float backend.LoraModulePath))
  unfolding load_all
  load_adapters (list xs) = some (load_all xs)
  load_adapters (dict fs) = some (keys_left fs)
  load_adapters (str s) = some (chars_left s)
  load_adapters null = none
  load_adapters (bool b) = none
  load_adapters (int n) = none
  load_adapters (float x) = none
  load_adapters (tuple xs) = none

  -- `_load_lora_adapters`; a text that is no JSON counts as an empty list.
  unfoldable pub load_lora_adapters :
      Dict String → Option (List (Adapter py.Float backend.LoraModulePath))
  unfolding load_adapters
  load_lora_adapters env = elim (py.loads (get_or (lookup "LORA_MODULES" env) "[]")) [
    | none ↦ some []
    | some v ↦ load_adapters v
  ]

  -- The log lines read `adapter.name` and `adapter.path`, which no JSON value has.
  unfoldable pub announce : List (Adapter py.Float backend.LoraModulePath) → Option (Unit {0})
  announce [] = some tt
  announce (made lora ∷ adapters) = announce adapters
  announce (left v ∷ adapters) = none

  -- RAW_OPENAI_OUTPUT
  unfoldable pub raw_output : String → Option Bool
  raw_output raw_output_env =
      if (lower raw_output_env == "true") || (lower raw_output_env == "false")
      then some (lower raw_output_env == "true")
      else bind (parse_int raw_output_env) λ n. some (not (is_zero n))

  -- `os.getenv(OPENAI_SERVED_MODEL_NAME_OVERRIDE) or served_model_name or model`
  unfoldable pub served_name : Dict String → (String → Value py.Float) → Value py.Float
  served_name env engine_args = elim (setting env "OPENAI_SERVED_MODEL_NAME_OVERRIDE") [
    | some name ↦ str name
    | none ↦ or_else py (engine_args "served_model_name") (engine_args "model")
  ]

  -- `OpenAIvLLMEngine.__init__`
  unfoldable pub openai_engine :
      Vllm py.Float
      → VllmEngine py.Float backend.Llm
      → Option String
      → Dict String
      → Option (OpenAiEngine py.Float backend.Llm backend.LoraModulePath)
  unfolding vllm_engine load_lora_adapters announce raw_output served_name
  openai_engine vllm engine local_file env =
      bind (vllm_engine vllm (some engine.llm) local_file env) λ base.
        bind (load_lora_adapters env) λ adapters. bind (announce adapters) λ _.
          bind (raw_output (get_or (lookup "RAW_OPENAI_OUTPUT" env) "1")) λ raw. some record {
            base = base;
            served_model_name = served_name env base.engine_args;
            response_role = get_or (setting env "OPENAI_RESPONSE_ROLE") "assistant";
            lora_adapters = adapters;
            engines_initialized = false;
            raw_openai_output = raw;
          }
