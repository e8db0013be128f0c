-- ===== src/Tokenizer.antt =====
-- src/tokenizer.py, and `_get_tokenizer_for_chat_template` of src/engine.py with its copy of the wrapper:
-- which template a prompt is rendered with. The tokenizers of transformers and their rendering are
-- third-party code: a tokenizer is its template and what `apply_chat_template` gives for a template and
-- a list of messages.

pub mod Templates
use gemma_vllm_worker.Base.{
  Bool, true, false, not, ◌||◌, Option, none, some, [], ◌∷◌, String, if◌then◌else◌,
}
use gemma_vllm_worker.Base.Dict.{Dict, lookup}
use gemma_vllm_worker.Base.Value.{
  Value, null, bool, int, float, str, list, tuple, dict, items_of, fields_of, is_true,
}
use gemma_vllm_worker.OpenAi.{Attempt, value, failed}
use gemma_vllm_worker.EngineArgs.Types.{Python}
use gemma_vllm_worker.EngineArgs.Speculative.{setting}

pub record Tokenizer (F : Type 0) : Type 0 where
  pub chat_template : Value F
  pub render : (template messages : Value F) → Attempt String

-- `TokenizerWrapper`, and `MinimalTokenizerWrapper` too.
pub record TokenizerWrapper (F : Type 0) : Type 0 where
  pub tokenizer : Tokenizer F
  pub custom_chat_template : Option String
  pub has_chat_template : Bool

-- `AutoTokenizer.from_pretrained`
abbrev pub Pretrained : Type 0 → Type 0
Pretrained F = (name revision trust_remote_code : Value F) → Attempt (Tokenizer F)

abbrev pub missing_template : String
missing_template =
    "Chat template does not exist for this model, you must provide a single string input instead of a list of messages"

abbrev pub bad_input : String
bad_input = "Input must be a string or a list of messages"

abbrev pub attempt_map : {A B : Type 0} → (A → B) → Attempt A → Attempt B
attempt_map f (value a) = value (f a)
attempt_map f (failed m) = failed m

module _ (py : Python) where
  -- `a or b`
  abbrev pub or_else : Value py.Float → Value py.Float → Value py.Float
  or_else a b = if is_true py.is_zero_float a then a else b

  -- `self.tokenizer.chat_template = …`, for a text that is not empty.
  abbrev pub use_template : Option String → Tokenizer py.Float → Tokenizer py.Float
  use_template none t = t
  use_template (some custom) t = record t { chat_template = str custom }

  abbrev pub is_given : Option String → Bool
  is_given none = false
  is_given (some custom) = true

  -- `TokenizerWrapper.__init__`, from the loaded tokenizer on.
  unfoldable pub wrap : Dict String → Tokenizer py.Float → TokenizerWrapper py.Float
  wrap env t = record {
    tokenizer = use_template (setting env "CUSTOM_CHAT_TEMPLATE") t;
    custom_chat_template = lookup "CUSTOM_CHAT_TEMPLATE" env;
    has_chat_template =
        is_true py.is_zero_float t.chat_template || is_given (setting env "CUSTOM_CHAT_TEMPLATE");
  }

  -- `TokenizerWrapper`, by the tokenizer's name.
  unfoldable pub tokenizer_wrapper :
      Pretrained py.Float
      → Dict String
      → (name revision trust_remote_code : Value py.Float) → Attempt (TokenizerWrapper py.Float)
  unfolding wrap
  tokenizer_wrapper from_pretrained env name revision trust_remote_code =
      attempt_map (wrap env)
        (from_pretrained name (or_else revision (str "main")) trust_remote_code)

  abbrev pub user_message : String → Value py.Float
  user_message content = dict (fields_of (("role", str "user") ∷ ("content", str content) ∷ []))

  -- `self.tokenizer.apply_chat_template(input, …)`
  abbrev pub rendered : TokenizerWrapper py.Float → Value py.Float → Attempt String
  rendered w messages = w.tokenizer.render w.tokenizer.chat_template messages

  -- `apply_chat_template`
  unfoldable pub apply_chat_template : TokenizerWrapper py.Float → Value py.Float → Attempt String
  apply_chat_template w (list messages) =
      if not w.has_chat_template then failed missing_template else rendered w (list messages)
  apply_chat_template w (str input) = rendered w (list (items_of (user_message input ∷ [])))
  apply_chat_template w null = failed bad_input
  apply_chat_template w (bool b) = failed bad_input
  apply_chat_template w (int n) = failed bad_input
  apply_chat_template w (float x) = failed bad_input
  apply_chat_template w (tuple xs) = failed bad_input
  apply_chat_template w (dict fs) = failed bad_input

  -- `_get_tokenizer_for_chat_template`, with the attributes of the engine's arguments.
  unfoldable pub get_tokenizer_for_chat_template :
      Pretrained py.Float
      → Dict String
      → (String → Value py.Float)
      → Option (TokenizerWrapper py.Float)
      → Attempt (TokenizerWrapper py.Float)
  unfolding wrap
  get_tokenizer_for_chat_template from_pretrained env engine_args (some w) = value w
  get_tokenizer_for_chat_template from_pretrained env engine_args none = attempt_map (wrap env) (
      from_pretrained (or_else (engine_args "tokenizer") (engine_args "model"))
        (or_else (engine_args "tokenizer_revision") (str "main")) (engine_args "trust_remote_code"))

  -- `isinstance(llm_input, list)`
  abbrev pub is_list : Value py.Float → Bool
  is_list (list xs) = true
  is_list other = false

  -- The first lines of `_generate_vllm`: the prompt.
  unfoldable pub prompt_of :
      Attempt (TokenizerWrapper py.Float)
      → (llm_input apply_chat_template : Value py.Float) → Attempt (Value py.Float)
  unfolding apply_chat_template
  prompt_of wrapper llm_input apply =
      if is_true py.is_zero_float apply || is_list llm_input
      then (elim wrapper [
        | failed m ↦ failed m
        | value w ↦ attempt_map str (apply_chat_template w llm_input)
      ])
      else value llm_input
