-- ===== src/Engines/Loras.antt =====
-- LoRA adapters at the start of the OpenAI engine.
use gemma_vllm_worker.Base.{
  ◌≡◌, refl, sym, ap, ◌∙◌, subst, false, Option, none, some, List, [], ◌∷◌, map, String, get_or,
  arith,
}
use gemma_vllm_worker.Base.Dict.{Dict, lookup}
use gemma_vllm_worker.Base.Value.{Value, Items, nil, cons, list, values}
use gemma_vllm_worker.Base.Int.{pos}
use gemma_vllm_worker.EngineArgs.Speculative.{bind}
use gemma_vllm_worker.EngineArgs.{Vllm, get_engine_args}
use gemma_vllm_worker.EngineArgs.Types.{Python}
use gemma_vllm_worker.EngineArgs.Untouched.{bind-some, some_eq}
use gemma_vllm_worker.Engines.{
  Backend, Adapter, made, left, int_setting, own_tokenizer, VllmEngine, OpenAiEngine, vllm_engine,
  load_all, load_adapters, load_lora_adapters, announce, raw_output, openai_engine,
}

module _ (py : Python) (backend : Backend py.Float) where
  -- Every entry is made, and these are the adapters.
  abbrev pub AllMade : Items py.Float → List (Adapter py.Float backend.LoraModulePath) → Type 0
  AllMade xs adapters =
      (loras : List backend.LoraModulePath) × (adapters ≡ map made loras)
      × (map backend.lora_module_path (values xs) ≡ map some loras)

  announce-AllMade :
      (xs : Items py.Float)
      → announce py backend (load_all py backend xs) ≡ some tt
      → AllMade xs (load_all py backend xs)
  unfolding announce load_all
  announce-AllMade nil e = ([], refl, refl)
  announce-AllMade (cons v xs) e = one (backend.lora_module_path v) (announce-AllMade xs) e
    where
      one :
          (o : Option backend.LoraModulePath)
          → (announce py backend (load_all py backend xs) ≡ some tt
              → AllMade xs (load_all py backend xs))
          → announce py backend
              ((elim o [ some lora ↦ made lora | none ↦ left v ]) ∷ load_all py backend xs)
            ≡ some tt
          → (loras : List backend.LoraModulePath) × ((elim o [
            | some lora ↦ made lora
            | none ↦ left v
          ])
                ∷ load_all py backend xs
              ≡ map made loras)
            × (o ∷ map backend.lora_module_path (values xs) ≡ map some loras)
      one none ih h = absurd (ground arith)
      one (some lora) ih h =
          let (loras, same, all) = ih h in
          (lora ∷ loras, ap (λ l. made lora ∷ l) same, ap (λ l. some lora ∷ l) all)

  of_list :
      (env : Dict String) (xs : Items py.Float)
      → py.loads (get_or (lookup "LORA_MODULES" env) "[]") ≡ some (list xs)
      → load_lora_adapters py backend env ≡ some (load_all py backend xs)
  unfolding load_lora_adapters load_adapters
  of_list env xs loaded =
      ap
        (λ (o : Option (Value py.Float)). elim o [
          | none ↦ some []
          | some v ↦ load_adapters py backend v
        ])
        loaded

  bind-cases :
      {A B : Type 0} (o : Option A) (f : A → Option B) (b : B) (P : Type 0)
      → bind o f ≡ some b
      → ((a : A) → f a ≡ some b → P)
      → P
  bind-cases o f b P e next = let (a, _, h) = bind-some o f b e in next a h

  -- The engine that is given is the engine's.
  vllm_engine-llm :
      (vllm : Vllm py.Float) (llm : backend.Llm) (local_file : Option String) (env : Dict String)
      (e : VllmEngine py.Float backend.Llm)
      → vllm_engine py backend vllm (some llm) local_file env ≡ some e
      → e.llm ≡ llm
  unfolding vllm_engine
  vllm_engine-llm vllm llm local_file env e started =
      bind-cases (bind (get_engine_args py vllm local_file env) backend.async_engine_args) _ e _
        started
        λ engine_args e1.
          bind-cases (own_tokenizer py backend env engine_args) _ e _ e1 λ tokenizer e2.
            bind-cases (int_setting env "MAX_CONCURRENCY" (pos 30)) _ e _ e2 λ concurrency e3.
              bind-cases (int_setting env "DEFAULT_BATCH_SIZE" (pos 50)) _ e _ e3 λ size e4.
                bind-cases (int_setting env "BATCH_SIZE_GROWTH_FACTOR" (pos 3)) _ e _ e4
                  λ growth e5.
                    bind-cases (int_setting env "MIN_BATCH_SIZE" (pos 1)) _ e _ e5 λ least e6.
                      ap (λ (x : VllmEngine py.Float backend.Llm). x.llm) (sym (some_eq e6))

-- Where LORA_MODULES is a JSON list, the OpenAI engine starts only if every entry of it makes an adapter, and
-- then it has exactly these, in this order: an entry that cannot be made is not skipped, although
-- `_load_lora_adapters` goes on after it, and with it the engine does not start. The engine starts with the
-- given vLLM engine, and with its serving engines not initialized.
pub openai_engine_made :
    (py : Python) (backend : Backend py.Float) (vllm : Vllm py.Float)
    (engine : VllmEngine py.Float backend.Llm) (local_file : Option String) (env : Dict String)
    (xs : Items py.Float) (e : OpenAiEngine py.Float backend.Llm backend.LoraModulePath)
    → py.loads (get_or (lookup "LORA_MODULES" env) "[]") ≡ some (list xs)
    → openai_engine py backend vllm engine local_file env ≡ some e
    → AllMade py backend xs e.lora_adapters
      × (e.base.llm ≡ engine.llm)
      × (e.engines_initialized ≡ false)
unfolding openai_engine load_lora_adapters load_adapters
openai_engine_made py backend vllm engine local_file env xs e loaded started =
    let (base, b, e1) =
      bind-some (vllm_engine py backend vllm (some engine.llm) local_file env) _ e started in
    let (adapters, l, e2) = bind-some (load_lora_adapters py backend env) _ e e1 in
    let (_, a, e3) = bind-some (announce py backend adapters) _ e e2 in
    let (raw, _, e4) =
      bind-some (raw_output py backend (get_or (lookup "RAW_OPENAI_OUTPUT" env) "1")) _ e e3 in
    let list_read : load_all py backend xs ≡ adapters =
      some_eq (sym (of_list py backend env xs loaded) ∙ l) in
    let made_all =
      announce-AllMade py backend xs
        (subst (λ ys. announce py backend ys ≡ some tt) (sym list_read) a) in
    let given : adapters ≡ e.lora_adapters =
      ap (λ (x : OpenAiEngine py.Float backend.Llm backend.LoraModulePath). x.lora_adapters)
        (some_eq e4) in
    (
      subst (AllMade py backend xs) (list_read ∙ given) made_all,
      ap (λ (x : OpenAiEngine py.Float backend.Llm backend.LoraModulePath). x.base.llm)
            (sym (some_eq e4))
          ∙ vllm_engine-llm py backend vllm engine.llm local_file env base b,
      ap (λ (x : OpenAiEngine py.Float backend.Llm backend.LoraModulePath). x.engines_initialized)
          (sym (some_eq e4)),
    )
