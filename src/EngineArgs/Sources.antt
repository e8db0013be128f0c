-- ===== src/EngineArgs/Sources.antt =====
-- Where src/engine_args.py takes its arguments from: its defaults, the environment variables with the
-- names of vLLM's fields, three older names, and the file that the boot of the model leaves.
pub mod Layers
use gemma_vllm_worker.Base.{
  Bool, true, false, not, ◌&&◌, ◌||◌, Option, none, some, List, [], ◌∷◌, String, if◌then◌else◌,
  is_some, ◌==◌, string_comparable, get_or,
}
use gemma_vllm_worker.Base.Int.{pos}
use gemma_vllm_worker.Base.Text.{upper, lower, underscores}
use gemma_vllm_worker.Base.Dict.{Dict, lookup, insert}
use gemma_vllm_worker.Base.Value.{Value, null, bool, int, float, str, is_sentinel}
use gemma_vllm_worker.EngineArgs.Types.{FieldType, Conversion, ok, value_error, type_error, Python}
use gemma_vllm_worker.EngineArgs.Convert.{convert}

-- `ENV_ALIASES`
abbrev pub env_aliases : Dict String
env_aliases =
    ("MODEL_NAME", "model") ∷ ("MODEL_REVISION", "revision") ∷ ("TOKENIZER_NAME", "tokenizer") ∷ []

module _ (py : Python) where
  -- `DEFAULT_ARGS`
  unfoldable pub default_args : Dict (Value py.Float)
  default_args =
      ("disable_log_stats", bool false)
      ∷ ("enable_log_requests", bool false)
      ∷ ("gpu_memory_utilization", float py.float_0_95)
      ∷ ("pipeline_parallel_size", int (pos 1))
      ∷ ("tensor_parallel_size", int (pos 1))
      ∷ ("skip_tokenizer_init", bool false)
      ∷ ("tokenizer_mode", str "auto")
      ∷ ("trust_remote_code", bool false)
      ∷ ("load_format", str "auto")
      ∷ ("dtype", str "auto")
      ∷ ("kv_cache_dtype", str "auto")
      ∷ ("seed", int (pos 0))
      ∷ ("worker_use_ray", bool false)
      ∷ ("block_size", int (pos 16))
      ∷ ("enable_prefix_caching", bool false)
      ∷ ("disable_sliding_window", bool false)
      ∷ ("swap_space", int (pos 4))
      ∷ ("cpu_offload_gb", int (pos 0))
      ∷ ("max_num_seqs", int (pos 256))
      ∷ ("max_logprobs", int (pos 20))
      ∷ ("enforce_eager", bool false)
      ∷ ("max_seq_len_to_capture", int (pos 8192))
      ∷ ("disable_custom_all_reduce", bool false)
      ∷ ("tokenizer_pool_size", int (pos 0))
      ∷ ("tokenizer_pool_type", str "ray")
      ∷ ("enable_lora", bool false)
      ∷ ("max_loras", int (pos 1))
      ∷ ("max_lora_rank", int (pos 16))
      ∷ ("enable_prompt_adapter", bool false)
      ∷ ("max_prompt_adapters", int (pos 1))
      ∷ ("max_prompt_adapter_token", int (pos 0))
      ∷ ("fully_sharded_loras", bool false)
      ∷ ("lora_extra_vocab_size", int (pos 256))
      ∷ ("lora_dtype", str "auto")
      ∷ ("device", str "auto")
      ∷ ("ray_workers_use_nsight", bool false)
      ∷ ("num_lookahead_slots", int (pos 0))
      ∷ ("scheduler_delay_factor", float py.float_0)
      ∷ ("guided_decoding_backend", str "outlines")
      ∷ ("spec_decoding_acceptance_method", str "rejection_sampler")
      ∷ ("stream_interval", int (pos 1))
      ∷ []

  -- `args[key] = …`, where there is a value.
  abbrev pub set_if :
      String → Option (Value py.Float) → Dict (Value py.Float) → Dict (Value py.Float)
  set_if key none args = args
  set_if key (some v) args = insert key v args

  abbrev pub converted : Conversion (Value py.Float) → Option (Value py.Float)
  converted (ok v) = some v
  converted value_error = none
  converted type_error = none

  -- The value of a variable for a field; a variable that cannot be converted is skipped.
  abbrev pub from_env : Dict String → String → FieldType → Option (Value py.Float)
  from_env env key t = elim (lookup key env) [
    | none ↦ none
    | some value ↦ converted (convert py value t)
  ]

  -- `_get_args_from_env_auto_discover`: the loop over the fields, with the arguments so far.
  unfoldable pub discover_from :
      Dict String → Dict FieldType → Dict (Value py.Float) → Dict (Value py.Float)
  discover_from env [] args = args
  discover_from env ((name, t) ∷ fields) args =
      discover_from env fields (set_if name (from_env env (upper name) t) args)

  unfoldable pub get_args_from_env_auto_discover :
      Dict FieldType → Dict String → Dict (Value py.Float)
  unfolding discover_from
  get_args_from_env_auto_discover valid_fields env = discover_from env valid_fields []

  -- `_apply_env_aliases`: the loop over the older names.
  unfoldable pub apply_aliases :
      Dict FieldType → Dict String → Dict String → Dict (Value py.Float) → Dict (Value py.Float)
  apply_aliases valid_fields env [] args = args
  apply_aliases valid_fields env ((alias, target) ∷ aliases) args =
      apply_aliases valid_fields env aliases (elim (lookup target valid_fields) [
        | none ↦ args
        | some t ↦ set_if target (from_env env alias t) args
      ])

  unfoldable pub apply_env_aliases :
      Dict FieldType → Dict String → Dict (Value py.Float) → Dict (Value py.Float)
  unfolding apply_aliases
  apply_env_aliases valid_fields env args = apply_aliases valid_fields env env_aliases args

  -- `ENV_ALIASES.get(k, k.lower().replace("-", "_"))`
  abbrev pub target_of : String → String
  target_of k = get_or (lookup k env_aliases) (underscores (lower k))

  -- The value that one local argument gives to its target.
  abbrev pub accepted : Dict FieldType → String → Value py.Float → Option (Value py.Float)
  accepted valid_fields target v =
      if not (is_some (lookup target valid_fields)) || is_sentinel v then none else some v

  -- `_local_args_to_engine_args`: the loop over the local arguments.
  unfoldable pub local_from :
      Dict FieldType → Dict (Value py.Float) → Dict (Value py.Float) → Dict (Value py.Float)
  local_from valid_fields [] out = out
  local_from valid_fields ((k, v) ∷ local) out =
      local_from valid_fields local
        (set_if (target_of k) (accepted valid_fields (target_of k) v) out)

  unfoldable pub local_args_to_engine_args :
      Dict FieldType → Dict (Value py.Float) → Dict (Value py.Float)
  unfolding local_from
  local_args_to_engine_args valid_fields local = local_from valid_fields local []
