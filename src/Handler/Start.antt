-- ===== src/Handler/Start.antt =====
-- The start of the serverless worker at the end of src/handler.py. `runpod.serverless.start` is third-party
-- code: what it is given is the result.
use gemma_vllm_worker.Base.{
  ◌≡◌, sym, ap, subst, ◌∙◌, if_true, if_false, Bool, ◌||◌, Option, none, some, String,
  if◌then◌else◌, ◌==◌, string_comparable, arith, inl, inr, Bool-cases, get_or,
}
use gemma_vllm_worker.Base.Int.{ℤ, pos}
use gemma_vllm_worker.Base.Dict.{Dict, lookup}
use gemma_vllm_worker.Base.Value.{Items, list}
use gemma_vllm_worker.EngineArgs.{Vllm}
use gemma_vllm_worker.EngineArgs.Types.{Python}
use gemma_vllm_worker.Engines.{Backend, VllmEngine, OpenAiEngine, vllm_engine, openai_engine}
use gemma_vllm_worker.Engines.Loras.{AllMade, openai_engine_made}

-- How the module ends: a process that vLLM spawned does nothing, one that cannot make the engines exits,
-- and else the job loop starts with the two engines.
pub data Started (F Llm Lora : Type 0) : Type 0 where
  spawned : Started F Llm Lora
  exited : Started F Llm Lora
  serving : VllmEngine F Llm → OpenAiEngine F Llm Lora → Started F Llm Lora

-- `__name__ == "__main__" or multiprocessing.current_process().name == "MainProcess"`
unfoldable pub is_main : (module_name process_name : String) → Bool
is_main module_name process_name = (module_name == "__main__") || (process_name == "MainProcess")

-- The "concurrency_modifier", of the global `vllm_engine`.
unfoldable pub concurrency_modifier : {F Llm : Type 0} → Option (VllmEngine F Llm) → ℤ
concurrency_modifier none = pos 1
concurrency_modifier (some e) = e.max_concurrency

module _ (py : Python) (backend : Backend py.Float) where
  abbrev Worker : Type 0
  Worker = Started py.Float backend.Llm backend.LoraModulePath

  abbrev with_openai :
      VllmEngine py.Float backend.Llm
      → Option (OpenAiEngine py.Float backend.Llm backend.LoraModulePath)
      → Worker
  with_openai e none = exited
  with_openai e (some o) = serving e o

  abbrev with_vllm :
      Vllm py.Float
      → Option String
      → Dict String
      → Option (VllmEngine py.Float backend.Llm)
      → Worker
  with_vllm vllm local_file env none = exited
  with_vllm vllm local_file env (some e) =
      with_openai e (openai_engine py backend vllm e local_file env)

  unfoldable pub start_worker :
      (module_name process_name : String) → Vllm py.Float → Option String → Dict String → Worker
  unfolding is_main vllm_engine openai_engine
  start_worker module_name process_name vllm local_file env =
      if is_main module_name process_name
      then with_vllm vllm local_file env (vllm_engine py backend vllm none local_file env)
      else spawned

  with_openai-serving :
      (e e' : VllmEngine py.Float backend.Llm)
      (made : Option (OpenAiEngine py.Float backend.Llm backend.LoraModulePath))
      (o : OpenAiEngine py.Float backend.Llm backend.LoraModulePath)
      → ◌≡◌ {A = Worker} (with_openai e' made) (serving e o)
      → (e' ≡ e) × (made ≡ some o)
  with_openai-serving e e' none o h = absurd (ground arith)
  with_openai-serving e e' (some o') o h = (cc, cc)

  with_vllm-serving :
      (vllm : Vllm py.Float) (local_file : Option String) (env : Dict String)
      (made : Option (VllmEngine py.Float backend.Llm)) (e : VllmEngine py.Float backend.Llm)
      (o : OpenAiEngine py.Float backend.Llm backend.LoraModulePath)
      → with_vllm vllm local_file env made ≡ serving e o
      → (made ≡ some e) × (openai_engine py backend vllm e local_file env ≡ some o)
  with_vllm-serving vllm local_file env none e o h = absurd (ground arith)
  with_vllm-serving vllm local_file env (some e') e o h =
      let (same, made) = with_openai-serving e e' _ o h in
      (ap some same, subst (λ x. openai_engine py backend vllm x local_file env ≡ some o) same made)

  -- A worker that gets to its job loop made both engines, of one vLLM engine, and each adapter of the list.
  pub start_worker-serving :
      (module_name process_name : String) (vllm : Vllm py.Float) (local_file : Option String)
      (env : Dict String) (e : VllmEngine py.Float backend.Llm)
      (o : OpenAiEngine py.Float backend.Llm backend.LoraModulePath) (xs : Items py.Float)
      → py.loads (get_or (lookup "LORA_MODULES" env) "[]") ≡ some (list xs)
      → start_worker module_name process_name vllm local_file env ≡ serving e o
      → (vllm_engine py backend vllm none local_file env ≡ some e)
        × (o.base.llm ≡ e.llm)
        × AllMade py backend xs o.lora_adapters
  unfolding start_worker
  start_worker-serving module_name process_name vllm local_file env e o xs loaded started =
      elim (Bool-cases (is_main module_name process_name)) [
        | inl main ↦
            let (made, other) =
              with_vllm-serving vllm local_file env _ e o (sym (if_true _ _ _ main) ∙ started) in
            let (all, same, _) =
              openai_engine_made py backend vllm e local_file env xs o loaded other in
            (made, same, all)
        | inr spawned_one ↦ absurd (ground (arith, sym (if_false _ _ _ spawned_one) ∙ started))
      ]
