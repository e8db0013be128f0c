-- ===== src/Engines/Options.antt =====
-- The options that `_initialize_engines` of src/engine.py gives to vLLM's serving classes.

use gemma_vllm_worker.Base.{
  Bool, Option, none, some, String, if◌then◌else◌, get_or, ◌==◌, string_comparable,
}
use gemma_vllm_worker.Base.Text.{lower}
use gemma_vllm_worker.Base.Dict.{Dict, lookup}
use gemma_vllm_worker.Base.Value.{Value, is_null}
use gemma_vllm_worker.EngineArgs.Speculative.{setting}
use gemma_vllm_worker.Tokenizer.{TokenizerWrapper}

-- `os.getenv(key, .false.).lower() == .true.`
abbrev pub flag : Dict String → String → Bool
flag env key = lower (get_or (lookup key env) "false") == "true"

-- What `_initialize_engines` gives to the serving classes.
pub record RenderOptions (F : Type 0) : Type 0 where
  pub chat_template : Value F
  pub trust_request_chat_template : Bool
  pub enable_auto_tools : Bool
  pub exclude_tools_when_tool_choice_none : Bool
  pub tool_parser : Option String
  pub log_error_stack : Bool

pub record ChatOptions (F : Type 0) : Type 0 where
  pub response_role : String
  pub chat_template : Value F
  pub trust_request_chat_template : Bool
  pub return_tokens_as_token_ids : Bool
  pub reasoning_parser : String
  pub enable_auto_tools : Bool
  pub exclude_tools_when_tool_choice_none : Bool
  pub tool_parser : Option String
  pub enable_prompt_tokens_details : Bool
  pub enable_force_include_usage : Bool
  pub enable_log_outputs : Bool

pub record CompletionOptions : Type 0 where
  pub return_tokens_as_token_ids : Bool
  pub enable_prompt_tokens_details : Bool
  pub enable_force_include_usage : Bool

-- The template of vLLM's tokenizer, null where it cannot be had, else that of the wrapper.
unfoldable pub serving_template :
    {F : Type 0} → (engine_template : Value F) → Option (TokenizerWrapper F) → Value F
serving_template engine_template none = engine_template
serving_template engine_template (some w) =
    if is_null engine_template then w.tokenizer.chat_template else engine_template

unfoldable pub render_options : {F : Type 0} → Dict String → Value F → RenderOptions F
render_options env chat_template = record {
  chat_template = chat_template;
  trust_request_chat_template = flag env "TRUST_REQUEST_CHAT_TEMPLATE";
  enable_auto_tools = flag env "ENABLE_AUTO_TOOL_CHOICE";
  exclude_tools_when_tool_choice_none = flag env "EXCLUDE_TOOLS_WHEN_TOOL_CHOICE_NONE";
  tool_parser = setting env "TOOL_CALL_PARSER";
  log_error_stack = flag env "LOG_ERROR_STACK";
}

unfoldable pub chat_options :
    {F : Type 0} → Dict String → (response_role : String) → Value F → ChatOptions F
chat_options env response_role chat_template = record {
  response_role = response_role;
  chat_template = chat_template;
  trust_request_chat_template = flag env "TRUST_REQUEST_CHAT_TEMPLATE";
  return_tokens_as_token_ids = flag env "RETURN_TOKENS_AS_TOKEN_IDS";
  reasoning_parser = get_or (setting env "REASONING_PARSER") "";
  enable_auto_tools = flag env "ENABLE_AUTO_TOOL_CHOICE";
  exclude_tools_when_tool_choice_none = flag env "EXCLUDE_TOOLS_WHEN_TOOL_CHOICE_NONE";
  tool_parser = setting env "TOOL_CALL_PARSER";
  enable_prompt_tokens_details = flag env "ENABLE_PROMPT_TOKENS_DETAILS";
  enable_force_include_usage = flag env "ENABLE_FORCE_INCLUDE_USAGE";
  enable_log_outputs = flag env "ENABLE_LOG_OUTPUTS";
}

unfoldable pub completion_options : Dict String → CompletionOptions
completion_options env = record {
  return_tokens_as_token_ids = flag env "RETURN_TOKENS_AS_TOKEN_IDS";
  enable_prompt_tokens_details = flag env "ENABLE_PROMPT_TOKENS_DETAILS";
  enable_force_include_usage = flag env "ENABLE_FORCE_INCLUDE_USAGE";
}
