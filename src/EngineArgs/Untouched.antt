-- ===== src/EngineArgs/Untouched.antt =====
-- What the steps after the merge of the arguments leave as it was.
use gemma_vllm_worker.Base.{
  ◌≡◌, refl, sym, ap, ◌∙◌, Bool, true, false, not, ◌&&◌, Option, none, some, List, [], ◌∷◌, String,
  if◌then◌else◌, ◌==◌, string_comparable, arith, if_false, ltb,
}
use gemma_vllm_worker.Base.Int.{pos}
use gemma_vllm_worker.Base.Dict.{Dict, lookup, insert, erase, lookup-insert, lookup-erase}
use gemma_vllm_worker.Base.Number.{parse_int}
use gemma_vllm_worker.Base.Text.{lower}
use gemma_vllm_worker.Base.Value.{
  Value, null, bool, int, str, is_true, is_text, is_zero_value, is_null,
}
use gemma_vllm_worker.Limits.{convert_limit_mm_per_prompt}
use gemma_vllm_worker.EngineArgs.Types.{Python}
use gemma_vllm_worker.EngineArgs.Overrides.{sanitize_hf_overrides}
use gemma_vllm_worker.EngineArgs.Speculative.{bind, setting, get_speculative_config}
use gemma_vllm_worker.EngineArgs.{
  Vllm, Args, get, with_limits, with_overrides, with_capture, with_backend, with_logging,
  set_limits, sanitize_overrides, set_quantization, set_parallel, set_cache_dtype, set_capture,
  unset_zero, set_batched_tokens, model_len, set_backend, set_logging, set_speculative,
  adjust_early, adjust_late, adjusted,
}

-- The arguments that the steps after the merge may change.
abbrev pub adjusted_keys : List String
adjusted_keys =
    "limit_mm_per_prompt" ∷ "hf_overrides" ∷ "quantization" ∷ "tensor_parallel_size"
    ∷ "max_parallel_loading_workers" ∷ "kv_cache_dtype" ∷ "max_seq_len_to_capture" ∷ "max_model_len"
    ∷ "max_num_batched_tokens" ∷ "attention_backend" ∷ "enable_log_requests" ∷ "speculative_config"
    ∷ []

abbrev pub late_keys : List String
late_keys =
    "max_model_len" ∷ "max_num_batched_tokens" ∷ "attention_backend" ∷ "enable_log_requests" ∷ []

abbrev pub DiffersFrom : List String → String → Type 0
DiffersFrom [] k = Unit
DiffersFrom (n ∷ ns) k = ((n == k) ≡ false) × DiffersFrom ns k

pub bind-some :
    {A B : Type 0} (o : Option A) (f : A → Option B) (b : B)
    → bind o f ≡ some b
    → (a : A) × (o ≡ some a) × (f a ≡ some b)
bind-some none f b e = absurd (ground arith)
bind-some (some a) f b e = (a, refl, e)

pub some_eq : {A : Type 0} {a b : A} → some a ≡ some b → a ≡ b
some_eq e = cc

module _ (py : Python) (vllm : Vllm py.Float) (k : String) where
  -- A step that may set one key, under a test.
  pub insert_if :
      (n : String) (v : Value py.Float) (b : Bool) (args : Args py vllm)
      → (n == k) ≡ false
      → lookup k (if b then insert n v args else args) ≡ lookup k args
  insert_if n v true args h =
      lookup-insert n k v args ∙ if_false (n == k) (some v) (lookup k args) h
  insert_if n v false args h = refl

  pub lookup-with_overrides :
      (o : Option (Value py.Float)) (args : Args py vllm)
      → ("hf_overrides" == k) ≡ false
      → lookup k (with_overrides py vllm o args) ≡ lookup k args
  lookup-with_overrides none args h = refl
  lookup-with_overrides (some v) args h =
      one (is_true py.is_zero_float (sanitize_hf_overrides vllm.rejects v))
    where
      one :
          (b : Bool)
          → lookup k (
              if b
              then insert "hf_overrides" (sanitize_hf_overrides vllm.rejects v) args
              else erase "hf_overrides" args)
            ≡ lookup k args
      one true = insert_if "hf_overrides" (sanitize_hf_overrides vllm.rejects v) true args h
      one false =
          lookup-erase "hf_overrides" k args ∙ if_false ("hf_overrides" == k) none (lookup k args) h

  pub lookup-set_parallel :
      (args : Args py vllm)
      → ("tensor_parallel_size" == k) ≡ false
      → ("max_parallel_loading_workers" == k) ≡ false
      → lookup k (set_parallel py vllm args) ≡ lookup k args
  unfolding set_parallel
  lookup-set_parallel args h h' = one (ltb 1 vllm.device_count)
    where
      one :
          (b : Bool)
          → lookup k (
              if b
              then insert "max_parallel_loading_workers" null
                  (insert "tensor_parallel_size" (int (pos vllm.device_count)) args)
              else args)
            ≡ lookup k args
      one true =
          insert_if "max_parallel_loading_workers" null true
            (insert "tensor_parallel_size" (int (pos vllm.device_count)) args) h'
          ∙ insert_if "tensor_parallel_size" (int (pos vllm.device_count)) true args h
      one false = refl

  pub lookup-with_backend :
      (o : Option String) (args : Args py vllm)
      → ("attention_backend" == k) ≡ false
      → lookup k (with_backend py vllm o args) ≡ lookup k args
  lookup-with_backend none args h = refl
  lookup-with_backend (some backend) args h =
      one (is_true py.is_zero_float (get py vllm "attention_backend" args))
    where
      one :
          (b : Bool)
          → lookup k (if b then args else insert "attention_backend" (str backend) args)
            ≡ lookup k args
      one true = refl
      one false = insert_if "attention_backend" (str backend) true args h

  pub lookup-with_logging :
      (o : Option String) (args : Args py vllm)
      → ("enable_log_requests" == k) ≡ false
      → lookup k (with_logging py vllm o args) ≡ lookup k args
  lookup-with_logging none args h = refl
  lookup-with_logging (some text) args h =
      insert_if "enable_log_requests" (bool false) (lower text == "true") args h

  lookup-adjust_early :
      (args : Args py vllm)
      → DiffersFrom adjusted_keys k
      → lookup k (adjust_early py vllm args) ≡ lookup k args
  unfolding adjust_early set_cache_dtype set_quantization sanitize_overrides
  lookup-adjust_early args (_, (overrides, (quantization, (tensor, (loading, (cache, _)))))) =
      let a = sanitize_overrides py vllm args in
      let b = set_quantization py vllm a in
      let c = set_parallel py vllm b in
      insert_if "kv_cache_dtype" (str "fp8") (is_text "fp8_e5m2" (get py vllm "kv_cache_dtype" c)) c
        cache
      ∙ lookup-set_parallel b tensor loading
      ∙ insert_if "quantization" (get py vllm "load_format" a)
          (is_text "bitsandbytes" (get py vllm "load_format" a)) a quantization
      ∙ lookup-with_overrides (lookup "hf_overrides" args) args overrides

  pub lookup-adjust_late :
      (env : Dict String) (args : Args py vllm)
      → DiffersFrom late_keys k
      → lookup k (adjust_late py vllm env args) ≡ lookup k args
  unfolding adjust_late unset_zero set_batched_tokens set_backend set_logging
  lookup-adjust_late env args (len, (tokens, (backend, (logging, _)))) =
      let a = unset_zero py vllm "max_model_len" args in
      let b = unset_zero py vllm "max_num_batched_tokens" a in
      let c = set_batched_tokens py vllm b in
      let d = set_backend py vllm env c in
      lookup-with_logging (setting env "DISABLE_LOG_REQUESTS") d logging
      ∙ lookup-with_backend (setting env "VLLM_ATTENTION_BACKEND") c backend
      ∙ insert_if "max_num_batched_tokens" (model_len py vllm b)
          (is_null (get py vllm "max_num_batched_tokens" b) && not (is_null (model_len py vllm b)))
          b tokens
      ∙ insert_if "max_num_batched_tokens" null
          (is_zero_value py.is_zero_float (get py vllm "max_num_batched_tokens" a)) a tokens
      ∙ insert_if "max_model_len" null
          (is_zero_value py.is_zero_float (get py vllm "max_model_len" args)) args len

  lookup-with_limits :
      (o : Option String) (args a : Args py vllm)
      → ("limit_mm_per_prompt" == k) ≡ false
      → with_limits py vllm o args ≡ some a
      → lookup k a ≡ lookup k args
  lookup-with_limits none args a h e = ap (lookup k) (sym (some_eq e))
  lookup-with_limits (some text) args a h e =
      let (limits, _, done) = bind-some (convert_limit_mm_per_prompt text) _ a e in
      ap (lookup k) (sym (some_eq done)) ∙ insert_if "limit_mm_per_prompt" _ true args h

  pub lookup-with_capture :
      (o : Option String) (args a : Args py vllm)
      → ("max_seq_len_to_capture" == k) ≡ false
      → with_capture py vllm o args ≡ some a
      → lookup k a ≡ lookup k args
  lookup-with_capture none args a h e = ap (lookup k) (sym (some_eq e))
  lookup-with_capture (some text) args a h e =
      let (n, _, done) = bind-some (parse_int text) _ a e in
      ap (lookup k) (sym (some_eq done)) ∙ insert_if "max_seq_len_to_capture" _ true args h

  pub lookup-set_speculative :
      (env : Dict String) (args a : Args py vllm)
      → ("speculative_config" == k) ≡ false
      → set_speculative py vllm env args ≡ some a
      → lookup k a ≡ lookup k args
  unfolding set_speculative
  lookup-set_speculative env args a h e =
      let (config, _, done) = bind-some (get_speculative_config py env) _ a e in
      ap (lookup k) (sym (some_eq done))
      ∙ insert_if "speculative_config" config (is_true py.is_zero_float config) args h

  pub lookup-adjusted :
      (env : Dict String) (args a : Args py vllm)
      → DiffersFrom adjusted_keys k
      → adjusted py vllm env args ≡ some a
      → lookup k a ≡ lookup k args
  unfolding adjusted set_limits set_capture
  lookup-adjusted env args a h e =
      let (
        limits,
        (_, (_, (_, (_, (_, (capture, (len, (tokens, (backend, (logging, (speculative, _))))))))))),
      ) =
        h in
      let (limited, l, rest) = bind-some (set_limits py vllm env args) _ a e in
      let early = adjust_early py vllm limited in
      let (captured, c, last) = bind-some (set_capture py vllm env early) _ a rest in
      lookup-set_speculative env (adjust_late py vllm env captured) a speculative last
      ∙ lookup-adjust_late env captured (len, (tokens, (backend, (logging, tt))))
      ∙ lookup-with_capture (setting env "MAX_CONTEXT_LEN_TO_CAPTURE") early captured capture c
      ∙ lookup-adjust_early limited h
      ∙ lookup-with_limits (lookup "LIMIT_MM_PER_PROMPT" env) args limited limits l
