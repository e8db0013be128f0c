-- ===== src/Tests/Working.antt =====
-- The start of the serverless worker, and the start of the serving classes.
use gemma_vllm_worker.Base.{
  ℕ, ◌≡◌, refl, none, some, String, [], ◌∷◌, if◌then◌else◌, ◌==◌, string_comparable,
}
use gemma_vllm_worker.Base.Int.{pos}
use gemma_vllm_worker.Base.Number.{parse_int}
use gemma_vllm_worker.Base.Text.{lower}
use gemma_vllm_worker.Base.Dict.{lookup}
use gemma_vllm_worker.Base.Value.{str}
use gemma_vllm_worker.OpenAi.{value, failed}
use gemma_vllm_worker.Engines.{
  VllmEngine, vllm_engine, own_tokenizer, load_lora_adapters, load_adapters, announce, raw_output,
  served_name, openai_engine,
}
use gemma_vllm_worker.Engines.Serving.{ServingClasses, initialize_engines, problem_of}
use gemma_vllm_worker.Handler.Start.{is_main, concurrency_modifier, spawned, serving, start_worker}
use gemma_vllm_worker.Tests.Engine.{vllm, environment, local_json}
use gemma_vllm_worker.Tests.Starting.{python, backend, base, engine, args_read}

abbrev new_base : VllmEngine String String
new_base = record base { llm = "new" }

base_made : vllm_engine python backend vllm none (some local_json) environment ≡ some new_base
unfolding vllm_engine own_tokenizer lookup
base_made = rw args_read refl

base_taken :
    vllm_engine python backend vllm (some "new") (some local_json) environment ≡ some new_base
unfolding vllm_engine own_tokenizer lookup
base_taken = rw args_read refl

engine_made :
    openai_engine python backend vllm new_base (some local_json) environment
    ≡ some (record engine { base = new_base })
unfolding openai_engine load_lora_adapters load_adapters announce raw_output served_name lookup
    parse_int lower
engine_made = rw base_taken refl

worker_started :
    start_worker python backend "handler" "MainProcess" vllm (some local_json) environment
    ≡ serving new_base (record engine { base = new_base })
unfolding start_worker is_main
worker_started = rw base_made (rw engine_made refl)

worker_spawned :
    start_worker python backend "handler" "SpawnProcess-1" vllm (some local_json) environment
    ≡ spawned
unfolding start_worker is_main
worker_spawned = refl

modified :
    (concurrency_modifier (some base) ≡ pos 30)
    × (concurrency_modifier {F = String} {Llm = String} none ≡ pos 1)
unfolding concurrency_modifier
modified = (refl, refl)

-- Classes that are made of anything but an empty list of adapters; the chat class refuses to warm up.
abbrev classes : ServingClasses String String ℕ
classes = record {
  Models = String;
  Render = String;
  Chat = String;
  Completion = String;
  serving_models =
      λ llm name path adapters. elim adapters [ [] ↦ failed "no adapters" | a ∷ more ↦ value llm ];
  init_static_loras = λ models. value tt;
  chat_template = λ llm. str "engine's";
  serving_render = λ llm models options. value models;
  serving_chat = λ llm models render options. value options.response_role;
  serving_completion = λ llm models render options. value render;
  warmup = λ chat. if chat == "user" then failed "cold" else value tt;
}

initialized :
    (problem_of classes (initialize_engines classes [] engine) ≡ none)
    × (problem_of classes (initialize_engines classes [] (record engine { lora_adapters = [] }))
        ≡ some "no adapters")
    × (problem_of classes (initialize_engines classes [] (record engine { response_role = "user" }))
        ≡ some "cold")
unfolding initialize_engines
initialized = (refl, refl, refl)
