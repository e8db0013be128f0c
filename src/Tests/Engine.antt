-- ===== src/Tests/Engine.antt =====
-- The engine's arguments, with a runtime that has no floats, on a machine with two GPUs.
use gemma_vllm_worker.Base.{
  ◌≡◌, ◌≤◌, ◌⊎◌, refl, ap, ◌∙◌, true, false, Option, none, some, [], ◌∷◌, String, if◌then◌else◌,
  elem, ◌==◌, string_comparable,
}
use gemma_vllm_worker.Base.Int.{ℤ, pos}
use gemma_vllm_worker.Base.Text.{lower, upper, strip, lstrip, rstrip, underscores, contains}
use gemma_vllm_worker.Base.Number.{parse_int}
use gemma_vllm_worker.Base.Dict.{Dict, lookup, insert, erase, update}
use gemma_vllm_worker.Base.Dict.Layers.{NodupKeys}
use gemma_vllm_worker.Base.Value.{
  Value, null, int, str, dict, fields_of, entries, is_null, is_zero_value, is_sentinel,
}
use gemma_vllm_worker.EngineArgs.Types.{
  FieldType, int_type, str_type, none_type, generic, dict_of, union_of, no_args, type_arg, get_args,
  resolve_field_type, ok, type_error, Python,
}
use gemma_vllm_worker.EngineArgs.Convert.{convert, convert_to, any_none, empty_values}
use gemma_vllm_worker.EngineArgs.Convert.Fits.{Fits, convert-Fits}
use gemma_vllm_worker.EngineArgs.Overrides.{sanitize_hf_overrides}
use gemma_vllm_worker.EngineArgs.Overrides.Safe.{IsSanitized, sanitize_hf_overrides_lem}
use gemma_vllm_worker.EngineArgs.Speculative.{
  setting, read_count, method_of, text_value, from_variables, get_speculative_config,
}
use gemma_vllm_worker.EngineArgs.Speculative.Method.{IsMethod, get_speculative_config_lem}
use gemma_vllm_worker.EngineArgs.{
  Vllm, Args, get, get_local_args, model_len, get_engine_args, merged, keep_valid, adjusted,
  offline, set_limits, set_capture, set_speculative, adjust_early, adjust_late, sanitize_overrides,
  set_quantization, set_parallel, set_cache_dtype, unset_zero, set_batched_tokens,
  resolve_max_model_len, set_backend, set_logging,
}
use gemma_vllm_worker.EngineArgs.Sources.{
  default_args, get_args_from_env_auto_discover, discover_from, apply_env_aliases, apply_aliases,
  local_args_to_engine_args, local_from,
}
use gemma_vllm_worker.EngineArgs.Merge.{kept, layered}
use gemma_vllm_worker.EngineArgs.Precedence.{get_engine_args-layered}
use gemma_vllm_worker.EngineArgs.Settled.{IsParallel, get_engine_args_settled}

-- The only text that is JSON is the file of the boot.
abbrev pub local_json : String
local_json = "{\"MODEL_NAME\": \"/c/m\", \"TOKENIZER_NAME\": \"/c/t\"}"

abbrev pub local : Dict (Value String)
local = ("MODEL_NAME", str "/c/m") ∷ ("TOKENIZER_NAME", str "/c/t") ∷ []

abbrev pub loads : String → Option (Value String)
loads s = if s == local_json then some (dict (fields_of local)) else none

abbrev pub python_with : (String → Option (Value String)) → Python
python_with json = record {
  Float = String;
  float_of = λ s. none;
  is_zero_float = λ s. s == "0.0";
  float_0 = "0.0";
  float_0_95 = "0.95";
  loads = json;
  call = λ t v. type_error;
}

abbrev python : Python
python = python_with loads

abbrev optional_int : FieldType
optional_int = generic union_of (type_arg int_type (type_arg none_type no_args))

-- A configuration of the model that gives its length.
abbrev pub vllm : Vllm String
vllm = record {
  valid_fields =
      ("model", str_type)
      ∷ ("tokenizer", str_type)
      ∷ ("max_model_len", optional_int)
      ∷ ("max_num_batched_tokens", optional_int)
      ∷ ("tensor_parallel_size", int_type)
      ∷ [];
  rejects = some (λ fs. true);
  model_config = λ model trust revision.
      some (λ attr. if attr == "max_seq_len" then some (int (pos 4096)) else none);
  device_count = 2;
}

pub fields_nodup : NodupKeys vllm.valid_fields
unfolding lookup
fields_nodup = (refl, (refl, (refl, (refl, (refl, tt)))))

abbrev pub environment : Dict String
environment =
    ("MODEL_NAME", "gemma")
    ∷ ("TOKENIZER_NAME", "gemma")
    ∷ ("MAX_MODEL_LEN", "0")
    ∷ ("LORA_MODULES", "[{}]")
    ∷ []

abbrev pub engine_args : Args python vllm
engine_args =
    ("tensor_parallel_size", int (pos 2))
    ∷ ("max_model_len", null)
    ∷ ("model", str "/c/m")
    ∷ ("tokenizer", str "/c/t")
    ∷ ("max_parallel_loading_workers", null)
    ∷ ("max_num_batched_tokens", int (pos 4096))
    ∷ []

abbrev merged_arguments : Args python vllm
merged_arguments =
    ("tensor_parallel_size", int (pos 1))
    ∷ ("max_model_len", int (pos 0))
    ∷ ("model", str "/c/m")
    ∷ ("tokenizer", str "/c/t")
    ∷ []

gathered :
    (json : String → Option (Value String))
    → merged (python_with json) vllm environment local ≡ merged_arguments
unfolding merged keep_valid update insert lookup default_args get_args_from_env_auto_discover
    discover_from apply_env_aliases apply_aliases local_args_to_engine_args local_from convert
    convert_to resolve_field_type parse_int strip lstrip rstrip upper lower underscores is_sentinel
gathered json = refl

adjusted_to :
    (json : String → Option (Value String))
    → adjusted
        (python_with json)
        vllm
        (offline (python_with json) vllm environment)
        merged_arguments
      ≡ some engine_args
unfolding adjusted set_limits set_capture set_speculative get_speculative_config from_variables
    adjust_early adjust_late sanitize_overrides set_quantization set_parallel set_cache_dtype
    unset_zero set_batched_tokens model_len resolve_max_model_len set_backend set_logging lookup
    insert
adjusted_to json = refl

pub settled :
    (json : String → Option (Value String))
    → adjusted
        (python_with json)
        vllm
        (offline (python_with json) vllm environment)
        (merged (python_with json) vllm environment local)
      ≡ some engine_args
settled json =
    ap (adjusted (python_with json) vllm (offline (python_with json) vllm environment))
      (gathered json)
    ∙ adjusted_to json

started : get_engine_args python vllm (some local_json) environment ≡ some engine_args
unfolding get_engine_args get_local_args
started = settled loads

-- The file of the boot decides the model, against the variable.
get_engine_args-layered_example :
    (local : Args python vllm) × (env' : Dict String) × (get_local_args python vllm
        (some local_json)
        environment
      ≡ some (local, env'))
    × (lookup "model" engine_args
        ≡ kept python vllm "model" (layered python vllm environment local "model"))
get_engine_args-layered_example =
    get_engine_args-layered python vllm (some local_json) environment engine_args "model"
      fields_nodup
      (
        refl,
        (refl, (refl, (refl, (refl, (refl, (refl, (refl, (refl, (refl, (refl, (refl, tt))))))))))),
      )
      started

get_engine_args_settled_example :
    (is_zero_value (λ x. x == "0.0") (get python vllm "max_model_len" engine_args) ≡ false)
    × ((is_null (get python vllm "max_num_batched_tokens" engine_args) ≡ false)
        ⊎ (is_null (model_len python vllm engine_args) ≡ true))
    × ((vllm.device_count ≤ 1) ⊎ IsParallel python vllm engine_args)
get_engine_args_settled_example =
    get_engine_args_settled python vllm (some local_json) environment engine_args started

-- A dict of ints is taken for the text that it is written as.
abbrev dict_of_int : FieldType
dict_of_int = generic dict_of (type_arg str_type (type_arg int_type no_args))

taken_as_text : convert python "{\"a\": 1}" dict_of_int ≡ ok (str "{\"a\": 1}")
unfolding convert convert_to resolve_field_type strip lstrip rstrip
taken_as_text = refl

convert-Fits_example :
    ((◌≡◌ {A = Value String} (str "{\"a\": 1}") null)
      × (elem (strip "{\"a\": 1}") empty_values ≡ true)
      × (any_none (get_args dict_of_int) ≡ true))
    ⊎ ((elem (strip "{\"a\": 1}") empty_values ≡ false)
        × Fits python (resolve_field_type dict_of_int) (str "{\"a\": 1}"))
convert-Fits_example = convert-Fits python "{\"a\": 1}" dict_of_int (str "{\"a\": 1}") taken_as_text

-- A rejected scaling, and nothing else, is taken out of one entry.
abbrev rope_overrides : Dict (Value String)
rope_overrides =
    (
      "text_config",
      dict (fields_of (("rope_scaling", dict (fields_of [])) ∷ ("layers", int (pos 2)) ∷ [])),
    )
    ∷ ("n", int (pos 1))
    ∷ []

overrides_nodup : NodupKeys (entries (fields_of rope_overrides))
unfolding lookup
overrides_nodup = (refl, (refl, tt))

sanitize_hf_overrides_lem_example :
    IsSanitized
      (λ fs. true)
      (fields_of rope_overrides)
      "text_config"
      (sanitize_hf_overrides (some (λ fs. true)) (dict (fields_of rope_overrides)))
sanitize_hf_overrides_lem_example =
    sanitize_hf_overrides_lem (λ fs. true) (fields_of rope_overrides) "text_config" overrides_nodup

sanitized :
    sanitize_hf_overrides (some (λ fs. true)) (dict (fields_of rope_overrides))
    ≡ dict (
        fields_of (
          ("text_config", dict (fields_of (("layers", int (pos 2)) ∷ [])))
          ∷ ("n", int (pos 1))
          ∷ []))
unfolding sanitize_hf_overrides lookup erase
sanitized = refl

abbrev speculative : Dict String
speculative = ("SPECULATIVE_MODEL", "yuhuili/EAGLE3-LLaMA") ∷ ("NGRAM_PROMPT_LOOKUP_MAX", "0") ∷ []

abbrev eagle : Value String
eagle = dict (fields_of (("method", str "eagle3") ∷ ("model", str "yuhuili/EAGLE3-LLaMA") ∷ []))

read_eagle : get_speculative_config python speculative ≡ some eagle
unfolding get_speculative_config from_variables lookup contains lower parse_int method_of
read_eagle = refl

unset : setting speculative "SPECULATIVE_CONFIG" ≡ none
unfolding lookup
unset = refl

get_speculative_config_lem_example :
    (ngram_max : Option ℤ) × (read_count (setting speculative "NGRAM_PROMPT_LOOKUP_MAX")
      ≡ some ngram_max)
    × (((eagle ≡ null)
          × (setting speculative "SPECULATIVE_METHOD" ≡ none)
          × (setting speculative "SPECULATIVE_MODEL" ≡ none)
          × (ngram_max ≡ none))
        ⊎ ((d : Dict (Value String)) × (m : String) × (eagle ≡ dict (fields_of d))
            × IsMethod
                (setting speculative "SPECULATIVE_METHOD")
                (setting speculative "SPECULATIVE_MODEL")
                m
            × (lookup "method" d ≡ some (str m))
            × (lookup "model" d ≡ text_value (setting speculative "SPECULATIVE_MODEL"))))
get_speculative_config_lem_example =
    get_speculative_config_lem python speculative eagle unset read_eagle
