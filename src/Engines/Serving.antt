-- ===== src/Engines/Serving.antt =====
-- `_initialize_engines` of src/engine.py: the serving classes in the order in which they are made. vLLM's
-- constructors are the record `ServingClasses`.
use gemma_vllm_worker.Base.{◌≡◌, refl, subst, Option, none, some, List, String}
use gemma_vllm_worker.Base.Dict.{Dict}
use gemma_vllm_worker.Base.Value.{Value}
use gemma_vllm_worker.OpenAi.{Attempt, value, failed, attempt_bind}
use gemma_vllm_worker.OpenAi.Routes.{attempt_bind-value}
use gemma_vllm_worker.Engines.{Adapter, OpenAiEngine}
use gemma_vllm_worker.Engines.Options.{
  RenderOptions, ChatOptions, CompletionOptions, serving_template, render_options, chat_options,
  completion_options,
}

-- What is called of vLLM. The template is that of the engine's tokenizer, null where this cannot be had.
pub record ServingClasses (F Llm Lora : Type 0) : Type 1 where
  pub Models : Type 0
  pub Render : Type 0
  pub Chat : Type 0
  pub Completion : Type 0
  pub serving_models : Llm → (name model_path : Value F) → List (Adapter F Lora) → Attempt Models
  pub init_static_loras : Models → Attempt (Unit {0})
  pub chat_template : Llm → Value F
  pub serving_render : Llm → Models → RenderOptions F → Attempt Render
  pub serving_chat : Llm → Models → Render → ChatOptions F → Attempt Chat
  pub serving_completion : Llm → Models → Render → CompletionOptions → Attempt Completion
  -- `warmup`, which does nothing where there is none.
  pub warmup : Chat → Attempt (Unit {0})

module _ {F Llm Lora : Type 0} (s : ServingClasses F Llm Lora) where
  -- What the attributes are set to.
  pub record Engines : Type 0 where
    pub serving_models : s.Models
    pub serving_render : s.Render
    pub chat_engine : s.Chat
    pub completion_engine : s.Completion

  abbrev own_template : OpenAiEngine F Llm Lora → Value F
  own_template e = serving_template (s.chat_template e.base.llm) e.base.tokenizer

  -- `_initialize_engines`, in the environment.
  unfoldable pub initialize_engines : Dict String → OpenAiEngine F Llm Lora → Attempt Engines
  unfolding serving_template render_options chat_options completion_options
  initialize_engines env e =
      let llm = e.base.llm in
      attempt_bind
        (s.serving_models llm e.served_model_name (e.base.engine_args "model") e.lora_adapters)
        λ models. attempt_bind (s.init_static_loras models) λ u.
          attempt_bind (s.serving_render llm models (render_options env (own_template e))) λ render.
            attempt_bind
              (s.serving_chat llm models render (chat_options env e.response_role (own_template e)))
              λ chat.
                attempt_bind (s.serving_completion llm models render (completion_options env))
                  λ completion. attempt_bind (s.warmup chat) λ u. value record {
                    serving_models = models;
                    serving_render = render;
                    chat_engine = chat;
                    completion_engine = completion;
                  }

  -- The exception of `_initialize_engines`, as `_ensure_engines_initialized` sees it.
  abbrev pub problem_of : Attempt Engines → Option String
  problem_of (value engines) = none
  problem_of (failed m) = some m

  -- How the engines were made, with options that agree where they are shared.
  pub record IsMade (e : OpenAiEngine F Llm Lora) (g : Engines) : Type 0 where
    pub render : RenderOptions F
    pub chat : ChatOptions F
    pub completion : CompletionOptions
    pub models_made :
        s.serving_models e.base.llm e.served_model_name (e.base.engine_args "model") e.lora_adapters
        ≡ value g.serving_models
    pub loras_loaded : s.init_static_loras g.serving_models ≡ value tt
    pub render_made : s.serving_render e.base.llm g.serving_models render ≡ value g.serving_render
    pub chat_made :
        s.serving_chat e.base.llm g.serving_models g.serving_render chat ≡ value g.chat_engine
    pub completion_made :
        s.serving_completion e.base.llm g.serving_models g.serving_render completion
        ≡ value g.completion_engine
    pub same_template : render.chat_template ≡ chat.chat_template
    pub same_trust : render.trust_request_chat_template ≡ chat.trust_request_chat_template
    pub same_tools : render.enable_auto_tools ≡ chat.enable_auto_tools
    pub same_parser : render.tool_parser ≡ chat.tool_parser
    pub same_token_ids : chat.return_tokens_as_token_ids ≡ completion.return_tokens_as_token_ids
    pub same_usage : chat.enable_force_include_usage ≡ completion.enable_force_include_usage
    pub own_role : chat.response_role ≡ e.response_role

  -- Where the initialization succeeds, each class was made of those before it, with the adapters loaded, and
  -- the options that two of them share are the same.
  pub initialize_engines-IsMade :
      (env : Dict String) (e : OpenAiEngine F Llm Lora) (g : Engines)
      → initialize_engines env e ≡ value g
      → IsMade e g
  unfolding initialize_engines render_options chat_options completion_options
  initialize_engines-IsMade env e g done = with_value done λ models a done.
      with_value done λ u b done. with_value done λ render d done. with_value done λ chat f done.
        with_value done λ completion h done. with_value done λ u k done.
          subst (IsMade e) (value_eq done) record {
            render = render_options env (own_template e);
            chat = chat_options env e.response_role (own_template e);
            completion = completion_options env;
            models_made = a;
            loras_loaded = b;
            render_made = d;
            chat_made = f;
            completion_made = h;
            same_template = refl;
            same_trust = refl;
            same_tools = refl;
            same_parser = refl;
            same_token_ids = refl;
            same_usage = refl;
            own_role = refl;
          }
    where
      value_eq : {x y : Engines} → ◌≡◌ {A = Attempt Engines} (value x) (value y) → x ≡ y
      value_eq same = cc

      with_value :
          {A B : Type 0} {o : Attempt A} {f : A → Attempt B} {b : B} {P : Type 0}
          → attempt_bind o f ≡ value b
          → ((a : A) → o ≡ value a → f a ≡ value b → P)
          → P
      with_value {o = o} {f = f} {b = b} made next =
          let (a, first, rest) = attempt_bind-value o f b made in next a first rest
