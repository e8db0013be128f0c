-- ===== src/Server.antt =====
-- src/server.py: the OpenAI routes with their load accounting, the two kinds of responses, the health
-- routes, and the boot sequence. FastAPI and uvicorn are not modelled; what the routes return is.
pub mod Streams
pub mod Traffic
pub mod Boot
pub mod Stop
pub mod App
pub mod Life
use gemma_vllm_worker.Base.{
  ℕ, Bool, true, false, ◌||◌, Option, none, some, List, [], ◌∷◌, ◌++◌, map, String, ◌<>◌,
  if◌then◌else◌,
}
use gemma_vllm_worker.Base.Text.{contains}
use gemma_vllm_worker.Base.Events.{Events, done, raise, item}
use gemma_vllm_worker.OpenAi.{Reply, doc, text, docs}
use gemma_vllm_worker.Heartbeat.World.{World, get_status, get_load}
use gemma_vllm_worker.Heartbeat.Idle.{increment_load, decrement_load, touch_activity}

-- What is asked of a JSON document: its text, what it is if it is a `str`, whether it is a dict with the
-- key "error", and the dict `{'error': message}`.
pub record Json (Doc : Type 0) : Type 0 where
  pub dumps : Doc → String
  pub as_str : Doc → Option String
  pub has_error : Doc → Bool
  pub error_of : String → Doc

-- `_check_cuda_fatal`: whether the shutdown of the worker is started.
unfoldable pub is_cuda_fatal : String → Bool
is_cuda_fatal message = contains "CUDA" message || contains "cuda" message

abbrev pub done_line : String
done_line = "data: [DONE]\n\n"

-- What a streamed response sent, and whether it started the shutdown.
pub record Streamed : Type 0 where
  pub chunks : List String
  pub fatal : Bool

abbrev pub sending : List String → Streamed → Streamed
sending cs s = record s { chunks = cs ++ s.chunks }

-- A response with its status and content.
pub data Content (Doc : Type 0) : Type 0 where
  message : String → Content Doc
  reply : Reply Doc → Content Doc

pub record HttpResponse (Doc : Type 0) : Type 0 where
  pub status_code : ℕ
  pub content : Content Doc
  pub fatal : Bool

abbrev pub respond : {Doc : Type 0} → ℕ → Content Doc → HttpResponse Doc
respond code c = record { status_code = code; content = c; fatal = false }

module _ {Doc : Type 0} (j : Json Doc) where
  unfoldable pub sse : Doc → String
  sse d = "data: " <> (j.dumps d <> "\n\n")

  -- What is sent of one chunk of a batch.
  unfoldable pub line_of : Doc → String
  unfolding sse
  line_of d = elim (j.as_str d) [ none ↦ sse d | some s ↦ s ]

  -- `_stream_response`, iterated to its end.
  unfoldable pub stream_response : Events (Reply Doc) → Streamed
  unfolding sse line_of is_cuda_fatal
  stream_response done = record { chunks = done_line ∷ []; fatal = false }
  stream_response (raise m) = record { chunks = sse (j.error_of m) ∷ []; fatal = is_cuda_fatal m }
  stream_response (item (doc d) es) =
      let rest = stream_response es in
      if j.has_error d
      then record { chunks = sse d ∷ []; fatal = false }
      else sending (sse d ∷ []) rest
  stream_response (item (text t) es) = sending (t ∷ []) (stream_response es)
  stream_response (item (docs ds) es) = sending (map line_of ds) (stream_response es)

  -- The result that the loop of `_non_stream_response` is left with.
  unfoldable pub answer_with : Option (Reply Doc) → HttpResponse Doc
  answer_with none = respond 500 (message "No response generated")
  answer_with (some (doc d)) =
      if j.has_error d then respond 400 (reply (doc d)) else respond 200 (reply (doc d))
  answer_with (some r) = respond 200 (reply r)

  unfoldable pub collect : Option (Reply Doc) → Events (Reply Doc) → HttpResponse Doc
  unfolding answer_with is_cuda_fatal
  collect last done = answer_with last
  collect last (raise m) = record {
    status_code = 500;
    content = message m;
    fatal = is_cuda_fatal m;
  }
  collect last (item r es) = collect (some r) es

  -- `_non_stream_response`
  unfoldable pub non_stream_response : Events (Reply Doc) → HttpResponse Doc
  unfolding collect
  non_stream_response es = collect none es

-- What `_handle_openai` returns: a response, or a stream that is sent afterwards.
pub data Handled (Doc : Type 0) : Type 0 where
  answered : HttpResponse Doc → Handled Doc
  streaming : Events (Reply Doc) → Handled Doc

abbrev pub admit : ℕ → World → World
admit now w = touch_activity now (increment_load now w)

module _ {Doc : Type 0} (j : Json Doc) where
  -- `_handle_openai`, with the parsed body and its "stream", the generator that the engine makes of it, and
  -- the times at which the request comes and is answered. A stream is counted off by `end_stream`.
  unfoldable pub handle_openai :
      Bool
      → Option Doc
      → (Doc → Bool)
      → (Doc → Events (Reply Doc))
      → ℕ
      → ℕ
      → World
      → Handled Doc × World
  unfolding non_stream_response
  handle_openai false body wants_stream generate now later w =
      (answered (respond 503 (message "Model loading, please retry")), w)
  handle_openai true none wants_stream generate now later w =
      (answered (respond 400 (message "Invalid JSON body")), w)
  handle_openai true (some body) wants_stream generate now later w =
      if wants_stream body
      then (streaming (generate body), admit now w)
      else (answered (non_stream_response j (generate body)), decrement_load later (admit now w))

  -- The end of a streamed response: what it sent, and the `finally` that counts the request off.
  unfoldable pub end_stream : Events (Reply Doc) → ℕ → World → Streamed × World
  unfolding stream_response
  end_stream es later w = (stream_response j es, decrement_load later w)

-- The content of the health routes.
pub record Status : Type 0 where
  pub status : String
  pub heartbeat : Option String
  pub load : Option ℕ

-- `health`
unfoldable pub health : World → ℕ × Status
health w =
    (200, record { status = "ok"; heartbeat = some (get_status w); load = some (get_load w) })

-- `ping`, with no content while the engines are not ready.
unfoldable pub ping : Bool → ℕ × Option Status
ping false = (204, none)
ping true = (200, some (record { status = "ok"; heartbeat = none; load = none }))

-- `ready`
unfoldable pub ready : Bool → World → ℕ × Status
ready false w = (503, record { status = "loading"; heartbeat = some (get_status w); load = none })
ready true w = (200, record { status = "ready"; heartbeat = some (get_status w); load = none })
