-- ===== src/OpenAi.antt =====
-- src/engine.py, class `OpenAIvLLMEngine`: the route of a request, the lazy start of the serving engines,
-- and the batches of the streamed chunks. vLLM's serving classes are third-party code: `Serving` holds
-- what the engine calls of them, over an unknown type of JSON documents, and `json.loads`.
pub mod Chunks
pub mod Routes
use gemma_vllm_worker.Base.{
  ℕ, suc, ◌+◌, Bool, true, false, ◌||◌, not, Option, none, some, List, [], ◌∷◌, ◌++◌, String,
  if◌then◌else◌, is_nil, ◌==◌, string_comparable,
}
use gemma_vllm_worker.Base.Text.{contains, join, remove_prefix, rstrip_newlines}
use gemma_vllm_worker.Base.Events.{Events, done, raise, item}
use gemma_vllm_worker.Batch.{Quantity, BatchSize, new, update, le}
use gemma_vllm_worker.Generate.{Settings}

-- What a call that may raise gives.
pub data Attempt {ℓ} (A : Type ℓ) : Type ℓ where
  value : A → Attempt A
  failed : String → Attempt A

abbrev pub attempt_bind : {A B : Type 0} → Attempt A → (A → Attempt B) → Attempt B
attempt_bind (value a) f = f a
attempt_bind (failed m) f = failed m

-- What `create_chat_completion` and `create_completion` return.
pub data Response (Doc : Type 0) : Type 0 where
  error_response : Doc → Response Doc
  whole : Doc → Response Doc
  stream : Events String → Response Doc

pub data Endpoint : Type 0 where
  chat completion : Endpoint

-- The JSON documents and what is called of vLLM: the construction of a request from the input, the
-- serving call (with `model_dump` of what it returns where that is a model), the list of models, the
-- error response of a message, and the one-off initialization, `none` where it succeeds.
pub record Serving : Type 1 where
  pub Doc : Type 0
  pub Query : Type 0
  pub loads : String → Attempt Doc
  pub make_request : Endpoint → Doc → Attempt Query
  pub create : Endpoint → Query → Attempt (Response Doc)
  pub show_models : Attempt Doc
  pub error_doc : String → Doc
  pub initialize : Option String
  -- The message of Python's `TypeError`.
  pub type_error : String

-- What `generate` yields: a document, the text of some raw chunks, or a list of decoded chunks.
pub data Reply (Doc : Type 0) : Type 0 where
  doc : Doc → Reply Doc
  text : String → Reply Doc
  docs : List Doc → Reply Doc

-- What is done with one chunk of the stream.
pub data Kept (D : Type 0) : Type 0 where
  skip : Kept D
  keep : D → Kept D
  broken : String → Kept D

-- With raw output.
unfoldable pub keep_raw : String → Kept String
keep_raw chunk = if contains "data" chunk then keep chunk else skip

abbrev pub kept_of : {D : Type 0} → Attempt D → Kept D
kept_of (value d) = keep d
kept_of (failed m) = broken m

-- Without raw output.
unfoldable pub keep_decoded : {D : Type 0} → (String → Attempt D) → String → Kept D
keep_decoded loads chunk =
    if contains "data" chunk
    then (if contains "[DONE]" chunk
        then skip
        else kept_of (loads (rstrip_newlines (remove_prefix "data: " chunk))))
    else skip

module _ (q : Quantity) {D : Type 0} (classify : String → Kept D) where
  -- The loop over the chunks, with the batch so far, its length and the size to reach.
  unfoldable pub gather : Events String → List D → ℕ → BatchSize q.Num → Events (List D)
  gather done xs n b = if is_nil xs then done else item xs done
  gather (raise m) xs n b = raise m
  gather (item chunk es) xs n b = elim (classify chunk) [
    | skip ↦ gather es xs n b
    | broken m ↦ raise m
    | keep d ↦ elim (le q b.current_batch_size (q.of_count (n + 1))) [
      | true ↦ item (xs ++ (d ∷ [])) (gather es [] 0 (update q b))
      | false ↦ gather es (xs ++ (d ∷ [])) (n + 1) b
    ]
  ]

abbrev pub relay : {A B : Type 0} → (A → B) → Events A → Events B
relay f done = done
relay f (raise m) = raise m
relay f (item a es) = item (f a) (relay f es)

abbrev pub chunk_size : (q : Quantity) → Settings q.Num → BatchSize q.Num
chunk_size q s = new q s.default_batch_size s.min_batch_size s.batch_size_growth_factor

module _ (q : Quantity) (v : Serving) (settings : Settings q.Num) (raw : Bool) where
  -- The `else` branch of `_handle_chat_or_completion_request`.
  unfoldable pub stream_batches : Events String → Events (Reply v.Doc)
  unfolding gather keep_raw keep_decoded
  stream_batches es =
      if raw
      then relay (λ xs. text (join xs)) (gather q keep_raw es [] 0 (chunk_size q settings))
      else relay docs (gather q (keep_decoded v.loads) es [] 0 (chunk_size q settings))

  -- From the response on; `wants_stream` is `openai_input.get("stream")`. A model that is returned for a
  -- streaming request, and is no error, cannot be iterated over, nor can a generator be dumped.
  unfoldable pub answer : Bool → Response v.Doc → Events (Reply v.Doc)
  answer wants_stream (error_response d) = item (doc d) done
  answer false (whole d) = item (doc d) done
  answer true (whole d) = raise v.type_error
  answer true (stream es) = stream_batches es
  answer false (stream es) = raise v.type_error

  abbrev pub answer_of : Bool → Attempt (Response v.Doc) → Events (Reply v.Doc)
  answer_of wants_stream (value r) = answer wants_stream r
  answer_of wants_stream (failed m) = raise m

  abbrev pub serve : Endpoint → Bool → Attempt v.Query → Events (Reply v.Doc)
  serve e wants_stream (failed m) = item (doc (v.error_doc m)) done
  serve e wants_stream (value r) = answer_of wants_stream (v.create e r)

  -- `_handle_chat_or_completion_request`
  unfoldable pub handle : Endpoint → v.Doc → Bool → Events (Reply v.Doc)
  unfolding answer stream_batches
  handle e input wants_stream = serve e wants_stream (v.make_request e input)

  abbrev pub models_of : Attempt v.Doc → Events (Reply v.Doc)
  models_of (value d) = item (doc d) done
  models_of (failed m) = raise m

  unfoldable pub route : String → v.Doc → Bool → Events (Reply v.Doc)
  unfolding handle
  route path input wants_stream =
      if path == "/v1/models"
      then models_of v.show_models
      else if path == "/v1/chat/completions"
      then handle chat input wants_stream
      else if path == "/v1/completions"
      then handle completion input wants_stream
      else item (doc (v.error_doc "Invalid route")) done

  -- `_ensure_engines_initialized`: whether the engines are initialized afterwards, and the exception.
  unfoldable pub ensure_engines_initialized : Bool → Bool × Option String
  ensure_engines_initialized true = (true, none)
  ensure_engines_initialized false = elim v.initialize [
    | none ↦ (true, none)
    | some m ↦ (false, some m)
  ]

  -- `generate`: the flag `_engines_initialized` before and after, and what is yielded.
  unfoldable pub generate : Bool → String → v.Doc → Bool → Bool × Events (Reply v.Doc)
  unfolding route ensure_engines_initialized
  generate initialized path input wants_stream =
      let (now, problem) = ensure_engines_initialized initialized in
      elim problem [ none ↦ (now, route path input wants_stream) | some m ↦ (now, raise m) ]
