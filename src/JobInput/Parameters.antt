-- ===== src/JobInput/Parameters.antt =====
-- The sampling parameters of a job.
use gemma_vllm_worker.Base.{
  ◌≡◌, ◌⊎◌, refl, sym, ap, subst, eq_iff, ◌∙◌, true, false, Option, none, some, [], String,
  if◌then◌else◌, is_some, arith, inl, inr, Bool-cases, ◌==◌, string_comparable,
}
use gemma_vllm_worker.Base.Int.{pos}
use gemma_vllm_worker.Base.Dict.{Dict, lookup, insert, lookup-insert}
use gemma_vllm_worker.Base.Dict.Layers.{or_some, or_some-none}
use gemma_vllm_worker.Base.Value.{
  Value, Fields, null, bool, int, float, str, list, tuple, dict, entries, fields_of,
}
use gemma_vllm_worker.OpenAi.{Attempt, value}
use gemma_vllm_worker.OpenAi.Routes.{attempt_bind-value}
use gemma_vllm_worker.EngineArgs.Types.{Python, int_type, float_type}
use gemma_vllm_worker.JobInput.{
  Sampling, JobInput, get_field, converted_or_none, with_max_tokens, read_sampling, job_input,
}

module _ (py : Python) where
  lookup-with_max_tokens :
      (sampling : Sampling py.Float) (k : String) (d : Dict (Value py.Float))
      → lookup k (with_max_tokens py sampling d)
        ≡ or_some (lookup k d) (if "max_tokens" == k then some (int (pos 100)) else none)
  unfolding with_max_tokens
  lookup-with_max_tokens sampling k d =
      one (lookup "max_tokens" d) refl (Bool-cases ("max_tokens" == k))
    where
      one :
          (o : Option (Value py.Float))
          → lookup "max_tokens" d ≡ o
          → (("max_tokens" == k) ≡ true) ⊎ (("max_tokens" == k) ≡ false)
          → lookup k (if is_some o then d else insert "max_tokens" (int (pos 100)) d)
            ≡ or_some (lookup k d) (if "max_tokens" == k then some (int (pos 100)) else none)
      one none e (inl same) =
          lookup-insert "max_tokens" k (int (pos 100)) d
          ∙ (let gone : lookup k d ≡ none =
                subst (λ i. lookup i d ≡ none) ((eq_iff "max_tokens" k).0 same) e in
              rw same (rw gone refl))
      one none e (inr other) =
          lookup-insert "max_tokens" k (int (pos 100)) d
          ∙ rw other (sym (or_some-none (lookup k d)))
      one (some v) e (inl same) =
          let there : lookup k d ≡ some v =
            subst (λ i. lookup i d ≡ some v) ((eq_iff "max_tokens" k).0 same) e in
          rw there refl
      one (some v) e (inr other) = rw other (sym (or_some-none (lookup k d)))

  value_eq : {A : Type 0} {a b : A} → ◌≡◌ {A = Attempt A} (value a) (value b) → a ≡ b
  value_eq e = cc

  module _ (sampling : Sampling py.Float) where
    -- The sampling parameters of a job are what it gives, with a limit of 100 tokens if it gives none.
    abbrev pub IsLimited : Dict (Value py.Float) → sampling.SamplingParams → Type 0
    IsLimited job params =
        (fs : Fields py.Float) × (d : Dict (Value py.Float)) × (get_field py sampling job
            "sampling_params" (dict (fields_of []))
          ≡ dict fs)
        × (sampling.sampling_params_of d ≡ value params)
        × ((k : String)
            → lookup k d
              ≡ or_some (lookup k (entries fs))
                  (if "max_tokens" == k then some (int (pos 100)) else none))

    read_sampling-IsLimited :
        (job : Dict (Value py.Float)) (v : Value py.Float) (params : sampling.SamplingParams)
        → get_field py sampling job "sampling_params" (dict (fields_of [])) ≡ v
        → read_sampling py sampling v ≡ value params
        → IsLimited job params
    unfolding read_sampling
    read_sampling-IsLimited job (dict fs) params given e = (
      fs,
      with_max_tokens py sampling (entries fs),
      given,
      e,
      (λ k. lookup-with_max_tokens sampling k (entries fs)),
    )
    read_sampling-IsLimited job null params given e = absurd (ground arith)
    read_sampling-IsLimited job (bool b) params given e = absurd (ground arith)
    read_sampling-IsLimited job (int n) params given e = absurd (ground arith)
    read_sampling-IsLimited job (float x) params given e = absurd (ground arith)
    read_sampling-IsLimited job (str s) params given e = absurd (ground arith)
    read_sampling-IsLimited job (list xs) params given e = absurd (ground arith)
    read_sampling-IsLimited job (tuple xs) params given e = absurd (ground arith)

    params_eq :
        {i j : JobInput py.Float sampling.SamplingParams}
        → ◌≡◌ {A = Attempt (JobInput py.Float sampling.SamplingParams)} (value i) (value j)
        → i.sampling_params ≡ j.sampling_params
    params_eq e =
        ap (λ (x : JobInput py.Float sampling.SamplingParams). x.sampling_params) (value_eq e)

    pub job_input-IsLimited :
        (job : Dict (Value py.Float)) (j : JobInput py.Float sampling.SamplingParams)
        → job_input py sampling job ≡ value j
        → IsLimited job j.sampling_params
    unfolding job_input
    job_input-IsLimited job j e =
        let given = get_field py sampling job "sampling_params" (dict (fields_of [])) in
        let (params, read, e1) = attempt_bind-value (read_sampling py sampling given) _ j e in
        let (growth, _, e2) =
          attempt_bind-value
            (converted_or_none py sampling float_type
              (get_field py sampling job "batch_size_growth_factor" null))
            _ j e1 in
        let (least, _, e3) =
          attempt_bind-value
            (converted_or_none py sampling int_type
              (get_field py sampling job "min_batch_size" null))
            _ j e2 in
        subst (IsLimited job) (params_eq e3) (read_sampling-IsLimited job given params refl read)
