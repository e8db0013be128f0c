-- ===== src/EngineArgs.antt =====
-- src/engine_args.py: the arguments of the vLLM engine, from the environment variables and the file of
-- the boot. Its children hold the steps; this file holds `get_engine_args`, up to the construction of
-- vLLM's `AsyncEngineArgs` from the dict. What vLLM and transformers answer is the record `Vllm`.
pub mod Types
pub mod Convert
pub mod Sources
pub mod Overrides
pub mod Speculative
pub mod Merge
pub mod Untouched
pub mod Precedence
pub mod Booted
pub mod Settled
use gemma_vllm_worker.Base.{
  ℕ, Bool, true, false, not, ◌&&◌, ◌||◌, Option, none, some, List, [], ◌∷◌, String, if◌then◌else◌,
  is_some, is_nil, get_or, ltb, ◌==◌, string_comparable,
}
use gemma_vllm_worker.Base.Int.{ℤ, pos}
use gemma_vllm_worker.Base.Number.{parse_int}
use gemma_vllm_worker.Base.Text.{lower}
use gemma_vllm_worker.Base.Dict.{Dict, lookup, insert, erase, update}
use gemma_vllm_worker.Base.Value.{
  Value, Fields, null, bool, int, float, str, list, tuple, dict, fields_of, entries, is_sentinel,
  is_null, is_text, is_zero_value, is_true,
}
use gemma_vllm_worker.Limits.{convert_limit_mm_per_prompt}
use gemma_vllm_worker.EngineArgs.Types.{FieldType, Python}
use gemma_vllm_worker.EngineArgs.Sources.{
  default_args, get_args_from_env_auto_discover, apply_env_aliases, local_args_to_engine_args,
}
use gemma_vllm_worker.EngineArgs.Overrides.{sanitize_hf_overrides}
use gemma_vllm_worker.EngineArgs.Speculative.{bind, setting, get_speculative_config}

-- The fields of `AsyncEngineArgs`, the rejected rope scalings, and the attributes of a model's
-- configuration, none where it cannot be had.
pub record Vllm (F : Type 0) : Type 0 where
  pub valid_fields : Dict FieldType
  pub rejects : Option (Fields F → Bool)
  pub model_config :
      (model trust_remote_code revision : Value F) → Option (String → Option (Value F))
  pub device_count : ℕ

module _ (py : Python) (vllm : Vllm py.Float) where
  abbrev pub Args : Type 0
  Args = Dict (Value py.Float)

  -- `args.get(key)`
  abbrev pub get : String → Args → Value py.Float
  get key args = get_or (lookup key args) null

  abbrev pub offline : Dict String → Dict String
  offline env = insert "HF_HUB_OFFLINE" "1" (insert "TRANSFORMERS_OFFLINE" "1" env)

  -- `get_local_args`, from the text of the file if it exists; no value where it raises.
  abbrev pub local_of : Option (Value py.Float) → Dict String → Option (Args × Dict String)
  local_of (some (dict local)) env = some (entries local, offline env)
  local_of other env = none

  unfoldable pub get_local_args : Option String → Dict String → Option (Args × Dict String)
  get_local_args none env = some ([], env)
  get_local_args (some text) env = local_of (py.loads text) env

  -- `{k: v for k, v in args.items() if k in valid_fields and v not in (None, "", "None")}`
  unfoldable pub keep_valid : Args → Args
  keep_valid [] = []
  keep_valid ((k, v) ∷ args) =
      let rest = keep_valid args in
      if is_some (lookup k vllm.valid_fields) && not (is_sentinel v) then (k, v) ∷ rest else rest

  -- The arguments of all sources, the later over the earlier.
  unfoldable pub merged : Dict String → Args → Args
  unfolding update
  merged env local =
      let discovered =
        update (default_args py) (get_args_from_env_auto_discover py vllm.valid_fields env) in
      let aliased = apply_env_aliases py vllm.valid_fields env discovered in
      keep_valid (
        if is_nil local
        then aliased
        else update aliased (local_args_to_engine_args py vllm.valid_fields local))

  abbrev pub int_entries : Dict ℤ → Args
  int_entries [] = []
  int_entries ((k, n) ∷ d) = (k, int n) ∷ int_entries d

  -- LIMIT_MM_PER_PROMPT
  abbrev pub with_limits : Option String → Args → Option Args
  with_limits none args = some args
  with_limits (some text) args =
      bind (convert_limit_mm_per_prompt text)
        λ limits. some (insert "limit_mm_per_prompt" (dict (fields_of (int_entries limits))) args)

  unfoldable pub set_limits : Dict String → Args → Option Args
  set_limits env args = with_limits (lookup "LIMIT_MM_PER_PROMPT" env) args

  abbrev pub with_overrides : Option (Value py.Float) → Args → Args
  with_overrides none args = args
  with_overrides (some hf_overrides) args =
      let sanitized = sanitize_hf_overrides vllm.rejects hf_overrides in
      if is_true py.is_zero_float sanitized
      then insert "hf_overrides" sanitized args
      else erase "hf_overrides" args

  unfoldable pub sanitize_overrides : Args → Args
  sanitize_overrides args = with_overrides (lookup "hf_overrides" args) args

  unfoldable pub set_quantization : Args → Args
  set_quantization args =
      if is_text "bitsandbytes" (get "load_format" args)
      then insert "quantization" (get "load_format" args) args
      else args

  unfoldable pub set_parallel : Args → Args
  set_parallel args =
      if ltb 1 vllm.device_count
      then insert "max_parallel_loading_workers" null
          (insert "tensor_parallel_size" (int (pos vllm.device_count)) args)
      else args

  unfoldable pub set_cache_dtype : Args → Args
  set_cache_dtype args =
      if is_text "fp8_e5m2" (get "kv_cache_dtype" args)
      then insert "kv_cache_dtype" (str "fp8") args
      else args

  -- MAX_CONTEXT_LEN_TO_CAPTURE
  abbrev pub with_capture : Option String → Args → Option Args
  with_capture none args = some args
  with_capture (some text) args =
      bind (parse_int text) λ n. some (insert "max_seq_len_to_capture" (int n) args)

  unfoldable pub set_capture : Dict String → Args → Option Args
  set_capture env args = with_capture (setting env "MAX_CONTEXT_LEN_TO_CAPTURE") args

  -- `if args.get(key) == 0: args[key] = None`
  unfoldable pub unset_zero : String → Args → Args
  unset_zero key args =
      if is_zero_value py.is_zero_float (get key args) then insert key null args else args

  abbrev pub first_attr : List String → (String → Option (Value py.Float)) → Value py.Float
  first_attr [] config = null
  first_attr (attr ∷ attrs) config =
      let val = get_or (config attr) null in
      let rest = first_attr attrs config in if is_null val then rest else val

  -- `_resolve_max_model_len`
  unfoldable pub resolve_max_model_len : (model trust revision : Value py.Float) → Value py.Float
  resolve_max_model_len model trust revision = elim (vllm.model_config model trust revision) [
    | none ↦ null
    | some config ↦
        first_attr ("max_position_embeddings" ∷ "n_positions" ∷ "max_seq_len" ∷ "seq_length" ∷ [])
          config
  ]

  -- The given length, or that of the model's configuration.
  abbrev pub len_or_resolved :
      (max_model_len model trust revision : Value py.Float) → Value py.Float
  len_or_resolved max_model_len model trust revision =
      if is_null max_model_len then resolve_max_model_len model trust revision else max_model_len

  unfoldable pub model_len : Args → Value py.Float
  unfolding resolve_max_model_len
  model_len args =
      len_or_resolved (get "max_model_len" args) (get "model" args)
        (get_or (lookup "trust_remote_code" args) (bool false)) (get "revision" args)

  unfoldable pub set_batched_tokens : Args → Args
  set_batched_tokens args =
      if is_null (get "max_num_batched_tokens" args) && not (is_null (model_len args))
      then insert "max_num_batched_tokens" (model_len args) args
      else args

  -- VLLM_ATTENTION_BACKEND
  abbrev pub with_backend : Option String → Args → Args
  with_backend none args = args
  with_backend (some backend) args =
      if is_true py.is_zero_float (get "attention_backend" args)
      then args
      else insert "attention_backend" (str backend) args

  unfoldable pub set_backend : Dict String → Args → Args
  set_backend env args = with_backend (setting env "VLLM_ATTENTION_BACKEND") args

  -- DISABLE_LOG_REQUESTS
  abbrev pub with_logging : Option String → Args → Args
  with_logging none args = args
  with_logging (some text) args =
      if lower text == "true" then insert "enable_log_requests" (bool false) args else args

  unfoldable pub set_logging : Dict String → Args → Args
  set_logging env args = with_logging (setting env "DISABLE_LOG_REQUESTS") args

  unfoldable pub set_speculative : Dict String → Args → Option Args
  set_speculative env args = bind (get_speculative_config py env) λ config.
      some
        (if is_true py.is_zero_float config then insert "speculative_config" config args else args)

  -- From the filter on, with the steps that cannot raise between those that can.
  unfoldable pub adjust_early : Args → Args
  adjust_early args = set_cache_dtype (set_parallel (set_quantization (sanitize_overrides args)))

  unfoldable pub adjust_late : Dict String → Args → Args
  adjust_late env args = set_logging env (
      set_backend env (
        set_batched_tokens (unset_zero "max_num_batched_tokens" (unset_zero "max_model_len" args))))

  unfoldable pub adjusted : Dict String → Args → Option Args
  adjusted env args = bind (set_limits env args) λ limited.
      bind (set_capture env (adjust_early limited))
        λ captured. set_speculative env (adjust_late env captured)

  -- `get_engine_args`, up to `AsyncEngineArgs(**args)`; no value where it raises.
  unfoldable pub get_engine_args : Option String → Dict String → Option Args
  get_engine_args local_file env =
      bind (get_local_args local_file env) λ (local, env'). adjusted env' (merged env local)
