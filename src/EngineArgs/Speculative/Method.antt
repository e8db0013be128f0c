-- ===== src/EngineArgs/Speculative/Method.antt =====
-- Which method the speculative configuration names.
use gemma_vllm_worker.Base.{
  ◌≡◌, ◌⊎◌, refl, sym, ap, ◌∙◌, subst, Bool-cases, if_true, if_false, false, not, ◌||◌, Option,
  none, some, List, [], ◌∷◌, String, get_or, if◌then◌else◌, is_some, ◌==◌, string_comparable, arith,
  inl, inr,
}
use gemma_vllm_worker.Base.Int.{ℤ}
use gemma_vllm_worker.Base.Text.{lower, contains}
use gemma_vllm_worker.Base.Text.Contains.{Holds, contains_iff}
use gemma_vllm_worker.Base.Dict.{Dict, lookup, lookup-insert}
use gemma_vllm_worker.Base.Dict.Layers.{or_some-none, or_some, or_some_assoc}
use gemma_vllm_worker.Base.Value.{Value, null, str, dict, fields_of}
use gemma_vllm_worker.EngineArgs.Types.{Python}
use gemma_vllm_worker.EngineArgs.Untouched.{bind-some, some_eq}
use gemma_vllm_worker.EngineArgs.Speculative.{
  bind, setting, read_count, read_int, method_of_model, method_of, put, text_value, put_all,
  assignments, build, config_value, from_variables, get_speculative_config,
}

-- The method that the name of a model tells, by the first of three words that is in it in lower case.
abbrev pub TellsMethod : String → String → Type 0
TellsMethod model m =
    (Holds "eagle3" (lower model) × (m ≡ "eagle3"))
    ⊎ ((¬ Holds "eagle3" (lower model))
        × ((Holds "eagle" (lower model) × (m ≡ "eagle"))
            ⊎ ((¬ Holds "eagle" (lower model))
                × ((Holds "medusa" (lower model) × (m ≡ "medusa"))
                    ⊎ ((¬ Holds "medusa" (lower model)) × (m ≡ "draft_model"))))))

-- The method, by what is set: itself, else the model, else only the ngrams.
abbrev pub IsMethod : Option String → Option String → String → Type 0
IsMethod (some method) model m = m ≡ method
IsMethod none (some model) m = TellsMethod model m
IsMethod none none m = m ≡ "ngram"

misses : (p s : String) → contains p s ≡ false → ¬ Holds p s
misses p s off h = ground (arith, off, (contains_iff p s).1 h)

method_of_model-TellsMethod : (model : String) → TellsMethod model (method_of_model model)
unfolding method_of_model
method_of_model-TellsMethod model =
    let s = lower model in
    elim (Bool-cases (contains "eagle3" s)) [
      | inl on ↦ inl ((contains_iff "eagle3" s).0 on, if_true _ _ _ on)
      | inr off ↦ inr (
        misses "eagle3" s off,
        elim (Bool-cases (contains "eagle" s)) [
          | inl on ↦ inl ((contains_iff "eagle" s).0 on, if_false _ _ _ off ∙ if_true _ _ _ on)
          | inr off' ↦ inr (
            misses "eagle" s off',
            elim (Bool-cases (contains "medusa" s)) [
              | inl on ↦ inl (
                (contains_iff "medusa" s).0 on,
                if_false _ _ _ off ∙ if_false _ _ _ off' ∙ if_true _ _ _ on,
              )
              | inr off'' ↦ inr (
                misses "medusa" s off'',
                if_false _ _ _ off ∙ if_false _ _ _ off' ∙ if_false _ _ _ off'',
              )
            ],
          )
        ],
      )
    ]

method_of-IsMethod :
    (method model : Option String) (ngram_max : Option ℤ) (m : String)
    → method_of method model ngram_max ≡ some m
    → IsMethod method model m
unfolding method_of
method_of-IsMethod (some method) model ngram_max m e = sym (some_eq e)
method_of-IsMethod none (some model) none m e =
    subst (TellsMethod model) (some_eq e) (method_of_model-TellsMethod model)
method_of-IsMethod none (some model) (some n) m e =
    subst (TellsMethod model) (some_eq e) (method_of_model-TellsMethod model)
method_of-IsMethod none none (some n) m e = sym (some_eq e)
method_of-IsMethod none none none m e = absurd (ground arith)

method_of-some :
    (method model : Option String) (ngram_max : Option ℤ)
    → not (is_some method || is_some model || is_some ngram_max) ≡ false
    → (m : String) × (method_of method model ngram_max ≡ some m)
unfolding method_of
method_of-some (some method) model ngram_max any = (method, refl)
method_of-some none (some model) ngram_max any = (method_of_model model, refl)
method_of-some none none (some n) any = ("ngram", refl)
method_of-some none none none any = absurd (ground arith)

module _ {F : Type 0} where
  lookup-put :
      (k n : String) (o : Option (Value F)) (d : Dict (Value F))
      → lookup k (put n o d) ≡ or_some (if n == k then o else none) (lookup k d)
  lookup-put k n none d = ground arith
  lookup-put k n (some v) d = lookup-insert n k v d ∙ ground arith

  -- The last assignment of a value to a key.
  abbrev last_put : String → List (String × Option (Value F)) → Option (Value F)
  last_put k [] = none
  last_put k ((n, o) ∷ l) = or_some (last_put k l) (if n == k then o else none)

  lookup-put_all :
      (k : String) (l : List (String × Option (Value F))) (d : Dict (Value F))
      → lookup k (put_all l d) ≡ or_some (last_put k l) (lookup k d)
  unfolding put_all
  lookup-put_all k [] d = refl
  lookup-put_all k ((n, o) ∷ l) d =
      lookup-put_all k l (put n o d)
      ∙ ap (or_some (last_put k l)) (lookup-put k n o d)
      ∙ sym (or_some_assoc (last_put k l) (if n == k then o else none) (lookup k d))

  assignments_lem :
      (env : Dict String) (method model : Option String)
      (tokens ngram_max ngram_min draft_tp max_len batch : Option ℤ)
      → let d =
          put_all {F = F}
            (assignments env method model tokens ngram_max ngram_min draft_tp max_len batch)
            [] in
        (lookup "method" d ≡ text_value (method_of method model ngram_max))
        × (lookup "model" d ≡ text_value model)
  unfolding lookup
  assignments_lem env method model tokens ngram_max ngram_min draft_tp max_len batch =
      let l = assignments env method model tokens ngram_max ngram_min draft_tp max_len batch in
      (
        lookup-put_all "method" l [] ∙ or_some-none (text_value (method_of method model ngram_max)),
        lookup-put_all "model" l [] ∙ or_some-none _ ∙ or_some-none (text_value model),
      )

  -- A dict with a value is not empty.
  filled :
      (d : Dict (Value F)) (k : String) (v : Value F)
      → lookup k d ≡ some v
      → config_value d ≡ dict (fields_of d)
  unfolding lookup
  filled [] k v e = absurd (ground arith)
  filled (x ∷ d) k v e = refl

  build_lem :
      (env : Dict String) (method model : Option String) (tokens ngram_max ngram_min : Option ℤ)
      (d : Dict (Value F))
      → build env method model tokens ngram_max ngram_min ≡ some d
      → (lookup "method" d ≡ text_value (method_of method model ngram_max))
        × (lookup "model" d ≡ text_value model)
  unfolding build
  build_lem env method model tokens ngram_max ngram_min d e =
      let (draft_tp, _, e1) =
        bind-some (read_int (setting env "SPECULATIVE_DRAFT_TENSOR_PARALLEL_SIZE")) _ d e in
      let (max_len, _, e2) =
        bind-some (read_int (setting env "SPECULATIVE_MAX_MODEL_LEN")) _ d e1 in
      let (batch, _, e3) =
        bind-some (read_int (setting env "SPECULATIVE_DISABLE_BY_BATCH_SIZE")) _ d e2 in
      let (m, n) =
        assignments_lem env method model tokens ngram_max ngram_min draft_tp max_len batch in
      (ap (lookup "method") (sym (some_eq e3)) ∙ m, ap (lookup "model") (sym (some_eq e3)) ∙ n)

  build-IsMethod :
      (env : Dict String) (method model : Option String) (tokens ngram_max ngram_min : Option ℤ)
      (v : Value F)
      → not (is_some method || is_some model || is_some ngram_max) ≡ false
      → bind (build env method model tokens ngram_max ngram_min) (λ d. some (config_value d))
        ≡ some v
      → (d : Dict (Value F)) × (m : String) × (v ≡ dict (fields_of d))
        × IsMethod method model m
        × (lookup "method" d ≡ some (str m))
        × (lookup "model" d ≡ text_value model)
  build-IsMethod env method model tokens ngram_max ngram_min v any e =
      let (d, built, done) = bind-some (build env method model tokens ngram_max ngram_min) _ v e in
      let (at_method, at_model) = build_lem env method model tokens ngram_max ngram_min d built in
      let (m, named) = method_of-some method model ngram_max any in
      let at_m : lookup "method" d ≡ some (str m) = at_method ∙ ap text_value named in
      (
        d,
        m,
        sym (some_eq done) ∙ filled d "method" (str m) at_m,
        method_of-IsMethod method model ngram_max m named,
        at_m,
        at_model,
      )

module _ {F : Type 0} where
  -- Where nothing is set there is nothing to build; else what is built.
  decided :
      (env : Dict String) (method model : Option String) (tokens ngram_max ngram_min : Option ℤ)
      (v : Value F)
      → (if not (is_some method || is_some model || is_some ngram_max)
          then some null
          else bind (build env method model tokens ngram_max ngram_min) λ d. some (config_value d))
        ≡ some v
      → ((v ≡ null) × (method ≡ none) × (model ≡ none) × (ngram_max ≡ none))
        ⊎ ((d : Dict (Value F)) × (m : String) × (v ≡ dict (fields_of d))
            × IsMethod method model m
            × (lookup "method" d ≡ some (str m))
            × (lookup "model" d ≡ text_value model))
  decided env none none tokens none ngram_min v e = inl (sym (some_eq e), refl, refl, refl)
  decided env (some s) model tokens n ngram_min v e =
      inr (build-IsMethod env (some s) model tokens n ngram_min v refl e)
  decided env none (some s) tokens n ngram_min v e =
      inr (build-IsMethod env none (some s) tokens n ngram_min v refl e)
  decided env none none tokens (some n) ngram_min v e =
      inr (build-IsMethod env none none tokens (some n) ngram_min v refl e)

from_variables_eq :
    (py : Python) (env : Dict String)
    → setting env "SPECULATIVE_CONFIG" ≡ none
    → get_speculative_config py env ≡ from_variables env
unfolding get_speculative_config
from_variables_eq py env unset =
    ap
      (λ (o : Option String). elim o [
        | some json ↦ some (get_or (py.loads json) null)
        | none ↦ from_variables env
      ])
      unset

-- Without `SPECULATIVE_CONFIG`, where the variables are read without an error: the result is `None` exactly
-- where neither a method, nor a model, nor a length of ngrams other than 0 is set. Else it is a dict whose
-- method is the one that is set; without one, that of the first of "eagle3", "eagle" and "medusa" that is in
-- the model's name, in lower case, or "draft_model"; and "ngram" where there is neither a method nor a model. Its
-- model is the one that is set, if any.
pub get_speculative_config_lem :
    (py : Python) (env : Dict String) (v : Value py.Float)
    → setting env "SPECULATIVE_CONFIG" ≡ none
    → get_speculative_config py env ≡ some v
    → let method = setting env "SPECULATIVE_METHOD" in
      let model = setting env "SPECULATIVE_MODEL" in
      (ngram_max : Option ℤ) × (read_count (setting env "NGRAM_PROMPT_LOOKUP_MAX") ≡ some ngram_max)
      × (((v ≡ null) × (method ≡ none) × (model ≡ none) × (ngram_max ≡ none))
          ⊎ ((d : Dict (Value py.Float)) × (m : String) × (v ≡ dict (fields_of d))
              × IsMethod method model m
              × (lookup "method" d ≡ some (str m))
              × (lookup "model" d ≡ text_value model)))
unfolding get_speculative_config from_variables
get_speculative_config_lem py env v unset e =
    let method = setting env "SPECULATIVE_METHOD" in
    let model = setting env "SPECULATIVE_MODEL" in
    let read : from_variables env ≡ some v = sym (from_variables_eq py env unset) ∙ e in
    let (tokens, _, e1) = bind-some (read_count (setting env "NUM_SPECULATIVE_TOKENS")) _ v read in
    let (ngram_max, counted, e2) =
      bind-some (read_count (setting env "NGRAM_PROMPT_LOOKUP_MAX")) _ v e1 in
    let (ngram_min, _, e3) =
      bind-some (read_count (setting env "NGRAM_PROMPT_LOOKUP_MIN")) _ v e2 in
    (ngram_max, counted, decided env method model tokens ngram_max ngram_min v e3)
