-- ===== src/EngineArgs/Speculative.antt =====
-- `get_speculative_config` of src/engine_args.py.
pub mod Method
use gemma_vllm_worker.Base.{
  Bool, true, false, not, ◌&&◌, ◌||◌, Option, none, some, List, [], ◌∷◌, String, if◌then◌else◌,
  is_some, is_nil, get_or, ◌==◌, string_comparable,
}
use gemma_vllm_worker.Base.Int.{ℤ, is_zero}
use gemma_vllm_worker.Base.Number.{parse_int}
use gemma_vllm_worker.Base.Text.{lower, contains}
use gemma_vllm_worker.Base.Dict.{Dict, lookup, insert}
use gemma_vllm_worker.Base.Value.{Value, null, bool, int, str, dict, fields_of}
use gemma_vllm_worker.EngineArgs.Types.{Python}

-- No value where `int` raises `ValueError`.
abbrev pub bind {ℓ} : {A B : Type ℓ} → Option A → (A → Option B) → Option B
bind none f = none
bind (some a) f = f a

-- `os.getenv(key)` where the empty text counts as unset.
abbrev pub setting : Dict String → String → Option String
setting env key = elim (lookup key env) [ none ↦ none | some s ↦ if s == "" then none else some s ]

abbrev pub nonzero : ℤ → Option ℤ
nonzero n = if is_zero n then none else some n

-- `(int(s) or None) if s else None`
abbrev pub read_count : Option String → Option (Option ℤ)
read_count none = some none
read_count (some s) = bind (parse_int s) (λ n. some (nonzero n))

-- `int(s)` where `s` is set.
abbrev pub read_int : Option String → Option (Option ℤ)
read_int none = some none
read_int (some s) = bind (parse_int s) (λ n. some (some n))

-- The method that a model's name tells.
unfoldable pub method_of_model : String → String
method_of_model model =
    let model_lower = lower model in
    if contains "eagle3" model_lower
    then "eagle3"
    else if contains "eagle" model_lower
    then "eagle"
    else if contains "medusa" model_lower
    then "medusa"
    else "draft_model"

-- The method, from what is set of the method, the model, and the length of the ngrams.
unfoldable pub method_of : Option String → Option String → Option ℤ → Option String
unfolding method_of_model
method_of (some method) model ngram_max = some method
method_of none none (some n) = some "ngram"
method_of none (some model) ngram_max = some (method_of_model model)
method_of none none none = none

module _ {F : Type 0} where
  -- `config[key] = value`, where there is one.
  abbrev pub put : String → Option (Value F) → Dict (Value F) → Dict (Value F)
  put key none config = config
  put key (some v) config = insert key v config

  abbrev pub text_value : Option String → Option (Value F)
  text_value none = none
  text_value (some s) = some (str s)

  abbrev pub int_value : Option ℤ → Option (Value F)
  int_value none = none
  int_value (some n) = some (int n)

  -- `spec_eager.lower() == .true.`, where it is set.
  abbrev pub eager_value : Option String → Option (Value F)
  eager_value none = none
  eager_value (some s) = some (bool (lower s == "true"))

  -- A sequence of such assignments.
  unfoldable pub put_all : List (String × Option (Value F)) → Dict (Value F) → Dict (Value F)
  unfolding insert
  put_all [] config = config
  put_all ((key, value) ∷ l) config = put_all l (put key value config)

  -- The assignments of the source, in its order.
  abbrev pub assignments :
      Dict String
      → (method model : Option String)
      → (num_spec_tokens ngram_max ngram_min draft_tp max_len disable_batch : Option ℤ)
      → List (String × Option (Value F))
  assignments env method model num_spec_tokens ngram_max ngram_min draft_tp max_len disable_batch =
      ("method", text_value (method_of method model ngram_max))
      ∷ ("model", text_value model)
      ∷ ("num_speculative_tokens", int_value num_spec_tokens)
      ∷ ("prompt_lookup_max", int_value ngram_max)
      ∷ ("prompt_lookup_min", int_value ngram_min)
      ∷ ("draft_tensor_parallel_size", int_value draft_tp)
      ∷ ("max_model_len", int_value max_len)
      ∷ ("disable_by_batch_size", int_value disable_batch)
      ∷ ("quantization", text_value (setting env "SPECULATIVE_QUANTIZATION"))
      ∷ ("revision", text_value (setting env "SPECULATIVE_MODEL_REVISION"))
      ∷ ("enforce_eager", eager_value (setting env "SPECULATIVE_ENFORCE_EAGER"))
      ∷ []

  -- From the method on: the dict that is built.
  unfoldable pub build :
      Dict String
      → (method model : Option String) → (num_spec_tokens ngram_max ngram_min : Option ℤ)
      → Option (Dict (Value F))
  unfolding method_of put_all
  build env method model num_spec_tokens ngram_max ngram_min =
      bind (read_int (setting env "SPECULATIVE_DRAFT_TENSOR_PARALLEL_SIZE")) λ draft_tp.
        bind (read_int (setting env "SPECULATIVE_MAX_MODEL_LEN")) λ max_len.
          bind (read_int (setting env "SPECULATIVE_DISABLE_BY_BATCH_SIZE")) λ disable_batch. some (
            put_all
              (assignments env method model num_spec_tokens ngram_max ngram_min draft_tp max_len
                disable_batch)
              [])

  -- `config`, or `None` if it is empty.
  abbrev pub config_value : Dict (Value F) → Value F
  config_value d = if is_nil d then null else dict (fields_of d)

  -- The second option: from the individual variables.
  unfoldable pub from_variables : Dict String → Option (Value F)
  unfolding build
  from_variables env =
      let method = setting env "SPECULATIVE_METHOD" in
      let model = setting env "SPECULATIVE_MODEL" in
      bind (read_count (setting env "NUM_SPECULATIVE_TOKENS")) λ num_spec_tokens.
        bind (read_count (setting env "NGRAM_PROMPT_LOOKUP_MAX")) λ ngram_max.
          bind (read_count (setting env "NGRAM_PROMPT_LOOKUP_MIN")) λ ngram_min.
            if not (is_some method || is_some model || is_some ngram_max)
            then some null
            else bind (build env method model num_spec_tokens ngram_max ngram_min)
                λ config. some (config_value config)

-- `get_speculative_config`; no value where it raises.
unfoldable pub get_speculative_config : (py : Python) → Dict String → Option (Value py.Float)
unfolding from_variables
get_speculative_config py env = elim (setting env "SPECULATIVE_CONFIG") [
  | some json ↦ some (get_or (py.loads json) null)
  | none ↦ from_variables env
]
