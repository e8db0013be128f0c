-- ===== src/EngineArgs/Settled.antt =====
-- What the adjusted arguments guarantee to the vLLM engine.
use gemma_vllm_worker.Base.{
  ◌≡◌, ◌≤◌, ◌⊎◌, refl, sym, ap, ◌∙◌, Bool, true, false, Option, some, String, get_or, ltb, ◌==◌,
  string_comparable, arith, if_true, if_false, Bool-cases, inl, inr,
}
use gemma_vllm_worker.Base.Int.{pos}
use gemma_vllm_worker.Base.Dict.{Dict, lookup, insert, lookup-insert}
use gemma_vllm_worker.Base.Value.{Value, null, int, str, is_null, is_zero_value}
use gemma_vllm_worker.EngineArgs.Types.{Python}
use gemma_vllm_worker.EngineArgs.Speculative.{setting}
use gemma_vllm_worker.EngineArgs.{
  Vllm, Args, get, get_local_args, merged, set_limits, set_quantization, set_parallel,
  sanitize_overrides, set_cache_dtype, set_capture, unset_zero, model_len, set_batched_tokens,
  set_backend, set_logging, set_speculative, adjust_early, adjust_late, adjusted, get_engine_args,
}
use gemma_vllm_worker.EngineArgs.Untouched.{
  bind-some, DiffersFrom, late_keys, insert_if, lookup-with_backend, lookup-with_logging,
  lookup-adjust_late, lookup-with_capture, lookup-set_speculative,
}

module _ (py : Python) (vllm : Vllm py.Float) where
  model_len_eq :
      (a b : Args py vllm)
      → lookup "max_model_len" a ≡ lookup "max_model_len" b
      → lookup "model" a ≡ lookup "model" b
      → lookup "trust_remote_code" a ≡ lookup "trust_remote_code" b
      → lookup "revision" a ≡ lookup "revision" b
      → model_len py vllm a ≡ model_len py vllm b
  unfolding model_len
  model_len_eq a b len model trust revision = rw len (rw model (rw trust (rw revision refl)))

  -- After the zero is unset, the value is no zero.
  unset_zero_lem :
      (key : String) (args : Args py vllm)
      → (key == key) ≡ true
      → is_zero_value py.is_zero_float (get py vllm key (unset_zero py vllm key args)) ≡ false
  unfolding unset_zero
  unset_zero_lem key args same =
      elim (Bool-cases (is_zero_value py.is_zero_float (get py vllm key args))) [
        | inl zero ↦ rw zero (
            ap (λ o. is_zero_value py.is_zero_float (get_or o null))
              (lookup-insert key key null args ∙ if_true (key == key) (some null) _ same))
        | inr other ↦ rw other other
      ]

  -- If the batched tokens are unset after their step, no length was found.
  set_batched_tokens_lem :
      (b : Args py vllm)
      → is_null (get py vllm "max_num_batched_tokens" (set_batched_tokens py vllm b)) ≡ true
      → is_null (model_len py vllm b) ≡ true
  unfolding set_batched_tokens
  set_batched_tokens_lem b = one _ _ refl refl
    where
      one :
          (x y : Bool)
          → is_null (get py vllm "max_num_batched_tokens" b) ≡ x
          → is_null (model_len py vllm b) ≡ y
          → is_null (get py vllm "max_num_batched_tokens" (set_batched_tokens py vllm b)) ≡ true
          → y ≡ true
      one x true p q h = refl
      one true false p q h =
          sym q
          ∙ sym (
              ap (λ o. is_null (get_or o null))
                (lookup-insert "max_num_batched_tokens" "max_num_batched_tokens"
                  (model_len py vllm b) b))
          ∙ sym (
              ap (λ d. is_null (get py vllm "max_num_batched_tokens" d))
                (if_true _ (insert "max_num_batched_tokens" (model_len py vllm b) b) b
                  (rw p (rw q refl))))
          ∙ h
      one false false p q h =
          sym p
          ∙ sym (
              ap (λ d. is_null (get py vllm "max_num_batched_tokens" d))
                (if_false _ (insert "max_num_batched_tokens" (model_len py vllm b) b) b
                  (rw p refl)))
          ∙ h

  -- The worker's own two steps after the batched tokens change none of these keys.
  abbrev last_steps : Dict String → Args py vllm → Args py vllm
  last_steps env c = set_logging py vllm env (set_backend py vllm env c)

  module _ (env : Dict String) (captured a : Args py vllm)
      (done : set_speculative py vllm env (adjust_late py vllm env captured) ≡ some a) where
    abbrev unset : Args py vllm
    unset =
        unset_zero py vllm "max_num_batched_tokens" (unset_zero py vllm "max_model_len" captured)

    lookup-last :
        (k : String)
        → ("attention_backend" == k) ≡ false
        → ("enable_log_requests" == k) ≡ false
        → ("speculative_config" == k) ≡ false
        → lookup k a ≡ lookup k (set_batched_tokens py vllm unset)
    unfolding adjust_late set_logging set_backend
    lookup-last k h h' h'' =
        let c = set_batched_tokens py vllm unset in
        let d = set_backend py vllm env c in
        lookup-set_speculative py vllm k env (adjust_late py vllm env captured) a h'' done
        ∙ lookup-with_logging py vllm k (setting env "DISABLE_LOG_REQUESTS") d h'
        ∙ lookup-with_backend py vllm k (setting env "VLLM_ATTENTION_BACKEND") c h

    lookup-unset :
        (k : String)
        → ("attention_backend" == k) ≡ false
        → ("enable_log_requests" == k) ≡ false
        → ("speculative_config" == k) ≡ false
        → ("max_num_batched_tokens" == k) ≡ false
        → lookup k a ≡ lookup k unset
    unfolding set_batched_tokens
    lookup-unset k h h' h'' t =
        lookup-last k h h' h''
        ∙ insert_if py vllm k "max_num_batched_tokens" (model_len py vllm unset) _ unset t

    len_nonzero : is_zero_value py.is_zero_float (get py vllm "max_model_len" a) ≡ false
    unfolding unset_zero
    len_nonzero =
        let first = unset_zero py vllm "max_model_len" captured in
        let zero =
          λ (o : Option (Value py.Float)). is_zero_value py.is_zero_float (get_or o null) in
        ap zero (lookup-unset "max_model_len" refl refl refl refl)
        ∙ ap zero (insert_if py vllm "max_model_len" "max_num_batched_tokens" null _ first refl)
        ∙ unset_zero_lem "max_model_len" captured refl

    tokens_set :
        is_null (get py vllm "max_num_batched_tokens" a) ≡ true
        → is_null (model_len py vllm a) ≡ true
    tokens_set h =
        ap is_null (
          model_len_eq a unset (lookup-unset "max_model_len" refl refl refl refl)
            (lookup-unset "model" refl refl refl refl)
            (lookup-unset "trust_remote_code" refl refl refl refl)
            (lookup-unset "revision" refl refl refl refl))
        ∙ set_batched_tokens_lem unset (
            sym (
              ap (λ o. is_null (get_or o null))
                (lookup-last "max_num_batched_tokens" refl refl refl))
            ∙ h)

  set_parallel_lem :
      (args : Args py vllm)
      → ltb 1 vllm.device_count ≡ true
      → (lookup "tensor_parallel_size" (set_parallel py vllm args)
          ≡ some (int (pos vllm.device_count)))
        × (lookup "max_parallel_loading_workers" (set_parallel py vllm args) ≡ some null)
  unfolding set_parallel
  set_parallel_lem args many =
      let sized = insert "tensor_parallel_size" (int (pos vllm.device_count)) args in
      rw many (
        lookup-insert "max_parallel_loading_workers" "tensor_parallel_size" null sized
            ∙ lookup-insert "tensor_parallel_size" "tensor_parallel_size"
                (int (pos vllm.device_count)) args,
        lookup-insert "max_parallel_loading_workers" "max_parallel_loading_workers" null sized,
      )

  -- The steps after the parallel size keep a key that none of them sets.
  lookup-parallel :
      (k : String) (limited : Args py vllm) (env : Dict String) (captured a : Args py vllm)
      → DiffersFrom late_keys k
      → ("kv_cache_dtype" == k) ≡ false
      → ("max_seq_len_to_capture" == k) ≡ false
      → ("speculative_config" == k) ≡ false
      → set_capture py vllm env (adjust_early py vllm limited) ≡ some captured
      → set_speculative py vllm env (adjust_late py vllm env captured) ≡ some a
      → lookup k a
        ≡ lookup k
            (set_parallel py vllm (set_quantization py vllm (sanitize_overrides py vllm limited)))
  unfolding adjust_early set_capture set_cache_dtype
  lookup-parallel k limited env captured a late cache capture speculative caught done =
      let b = set_quantization py vllm (sanitize_overrides py vllm limited) in
      lookup-set_speculative py vllm k env (adjust_late py vllm env captured) a speculative done
      ∙ lookup-adjust_late py vllm k env captured late
      ∙ lookup-with_capture py vllm k (setting env "MAX_CONTEXT_LEN_TO_CAPTURE")
          (adjust_early py vllm limited) captured capture caught
      ∙ insert_if py vllm k "kv_cache_dtype" (str "fp8") _ (set_parallel py vllm b) cache

  abbrev pub IsParallel : Args py vllm → Type 0
  IsParallel a =
      (lookup "tensor_parallel_size" a ≡ some (int (pos vllm.device_count)))
      × (lookup "max_parallel_loading_workers" a ≡ some null)

  IsParallel-cases :
      (limited : Args py vllm) (env : Dict String) (captured a : Args py vllm)
      → set_capture py vllm env (adjust_early py vllm limited) ≡ some captured
      → set_speculative py vllm env (adjust_late py vllm env captured) ≡ some a
      → (vllm.device_count ≤ 1) ⊎ IsParallel a
  IsParallel-cases limited env captured a caught done =
      elim (Bool-cases (ltb 1 vllm.device_count)) [
        | inl many ↦
            let b = set_quantization py vllm (sanitize_overrides py vllm limited) in
            let (tensor, loading) = set_parallel_lem b many in
            inr (
              lookup-parallel "tensor_parallel_size" limited env captured a
                    (refl, (refl, (refl, (refl, tt)))) refl refl refl caught done
                  ∙ tensor,
              lookup-parallel "max_parallel_loading_workers" limited env captured a
                    (refl, (refl, (refl, (refl, tt)))) refl refl refl caught done
                  ∙ loading,
            )
        | inr one ↦ inl (ground arith)
      ]

-- Where the arguments can be had at all, the engine's length is never the zero that stands for no limit;
-- the number of batched tokens is unset only if neither the arguments nor the model's configuration give a
-- length; and with more than one GPU the tensor parallel size is their number and the loading workers are
-- unset, whatever was asked for.
pub get_engine_args_settled :
    (py : Python) (vllm : Vllm py.Float) (local_file : Option String) (env : Dict String)
    (args : Args py vllm)
    → get_engine_args py vllm local_file env ≡ some args
    → (is_zero_value py.is_zero_float (get py vllm "max_model_len" args) ≡ false)
      × ((is_null (get py vllm "max_num_batched_tokens" args) ≡ false)
          ⊎ (is_null (model_len py vllm args) ≡ true))
      × ((vllm.device_count ≤ 1) ⊎ IsParallel py vllm args)
unfolding get_engine_args adjusted
get_engine_args_settled py vllm local_file env args e =
    let ((local, env'), read, rest) = bind-some (get_local_args py vllm local_file env) _ args e in
    let start = merged py vllm env local in
    let (limited, l, rest') = bind-some (set_limits py vllm env' start) _ args rest in
    let early = adjust_early py vllm limited in
    let (captured, caught, done) = bind-some (set_capture py vllm env' early) _ args rest' in
    (
      len_nonzero py vllm env' captured args done,
      elim (Bool-cases (is_null (get py vllm "max_num_batched_tokens" args))) [
        | inl absent ↦ inr (tokens_set py vllm env' captured args done absent)
        | inr there ↦ inl there
      ],
      IsParallel-cases py vllm limited env' captured args caught done,
    )
