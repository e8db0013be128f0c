-- ===== src/Tokenizer/Templates.antt =====
-- Which template renders the messages.
use gemma_vllm_worker.Base.{
  ◌≡◌, ◌⊎◌, refl, Bool, true, false, not, ◌||◌, Option, none, some, String, if◌then◌else◌, arith,
  inl, inr, if_true, ◌==◌, string_comparable,
}
use gemma_vllm_worker.Base.Dict.{Dict, lookup}
use gemma_vllm_worker.Base.Value.{Value, Items, str, list, is_true}
use gemma_vllm_worker.OpenAi.{Attempt, value, failed}
use gemma_vllm_worker.EngineArgs.Types.{Python}
use gemma_vllm_worker.EngineArgs.Speculative.{setting}
use gemma_vllm_worker.Tokenizer.{
  Tokenizer, TokenizerWrapper, Pretrained, missing_template, attempt_map, or_else, use_template,
  is_given, wrap, tokenizer_wrapper, apply_chat_template, get_tokenizer_for_chat_template,
  prompt_of,
}

-- A setting is not the empty text.
setting_given : (env : Dict String) (key s : String) → setting env key ≡ some s → (s == "") ≡ false
setting_given env key s e = one (lookup key env) e
  where
    one :
        (o : Option String)
        → ◌≡◌ {A = Option String}
            (elim o [ none ↦ none | some x ↦ if x == "" then none else some x ])
            (some s)
        → (s == "") ≡ false
    one none h = absurd (ground arith)
    one (some x) h = ground arith

module _ (py : Python) where
  -- The custom template, if it is set and not empty, or the tokenizer's own.
  abbrev pub template_of : Dict String → Tokenizer py.Float → Value py.Float
  template_of env t = elim (setting env "CUSTOM_CHAT_TEMPLATE") [
    | none ↦ t.chat_template
    | some custom ↦ str custom
  ]

  -- The messages rendered, or the exception.
  abbrev pub render_messages : Dict String → Tokenizer py.Float → Items py.Float → Attempt String
  render_messages env t messages =
      if is_true py.is_zero_float (template_of env t)
      then t.render (template_of env t) (list messages)
      else failed missing_template

  pub apply_chat_template-wrap :
      (env : Dict String) (t : Tokenizer py.Float) (messages : Items py.Float)
      → apply_chat_template py (wrap py env t) (list messages) ≡ render_messages env t messages
  unfolding apply_chat_template wrap
  apply_chat_template-wrap env t messages =
      one (setting env "CUSTOM_CHAT_TEMPLATE") (setting_given env "CUSTOM_CHAT_TEMPLATE")
    where
      one :
          (o : Option String)
          → ((s : String) → o ≡ some s → (s == "") ≡ false)
          → (if not (is_true py.is_zero_float t.chat_template || is_given py o)
              then failed missing_template
              else (use_template py o t).render (use_template py o t).chat_template (list messages))
            ≡ (if is_true py.is_zero_float
                  (elim o [ none ↦ t.chat_template | some custom ↦ str custom ])
                then t.render
                    (elim o [ none ↦ t.chat_template | some custom ↦ str custom ])
                    (list messages)
                else failed missing_template)
      one none given = ground arith
      one (some s) given = let full : (s == "") ≡ false = given s refl in ground arith

  -- In either mode the wrapper is that of the engine's tokenizer.
  pub get_tokenizer_for_chat_template_lem :
      (from_pretrained : Pretrained py.Float) (env : Dict String)
      (engine_args : String → Value py.Float) (own : Option (TokenizerWrapper py.Float))
      (w : TokenizerWrapper py.Float)
      → tokenizer_wrapper py from_pretrained env
          (or_else py (engine_args "tokenizer") (engine_args "model"))
          (engine_args "tokenizer_revision")
          (engine_args "trust_remote_code")
        ≡ value w
      → (own ≡ none) ⊎ (own ≡ some w)
      → get_tokenizer_for_chat_template py from_pretrained env engine_args own ≡ value w
  unfolding get_tokenizer_for_chat_template tokenizer_wrapper
  get_tokenizer_for_chat_template_lem from_pretrained env engine_args none w loaded own = loaded
  get_tokenizer_for_chat_template_lem from_pretrained env engine_args (some x) w loaded (inl e) =
      absurd (ground arith)
  get_tokenizer_for_chat_template_lem from_pretrained env engine_args (some x) w loaded (inr e) = cc

  pub prompt_of-list :
      (w : TokenizerWrapper py.Float) (messages : Items py.Float) (apply : Value py.Float)
      → prompt_of py (value w) (list messages) apply
        ≡ attempt_map str (apply_chat_template py w (list messages))
  unfolding prompt_of
  prompt_of-list w messages apply = if_true _ _ _ (or_true (is_true py.is_zero_float apply))
    where
      or_true : (b : Bool) → (b || true) ≡ true
      or_true true = refl
      or_true false = refl
