-- ===== src/Server/App.antt =====
-- src/server.py: the application, which puts the HMAC check before its routes, and these before the
-- engines and the load of the heartbeat. What FastAPI answers to other paths and methods is not modelled.
pub mod Gate
use gemma_vllm_worker.Base.{
  ℕ, Bool, true, false, not, ◌&&◌, ◌||◌, Option, none, some, List, [], ◌∷◌, String, if◌then◌else◌,
  ◌==◌, string_comparable,
}
use gemma_vllm_worker.Base.Events.{Events}
use gemma_vllm_worker.Batch.{Quantity}
use gemma_vllm_worker.Generate.{Settings}
use gemma_vllm_worker.OpenAi.{
  Serving, Attempt, value, failed, Reply, ensure_engines_initialized, generate,
}
use gemma_vllm_worker.Auth.{
  Request, Environment, Verdict, valid, response, type_error, dispatch, exempt_paths,
}
use gemma_vllm_worker.Heartbeat.World.{World}
use gemma_vllm_worker.Server.Stop.{models}
use gemma_vllm_worker.Server.{
  Json, Handled, HttpResponse, answered, streaming, Status, health, ping, ready, handle_openai,
  end_stream,
}

-- The functions that are registered as routes.
pub data Route : Type 0 where
  health_route ping_route ready_route chat_route completions_route models_route : Route

unfoldable pub route_of : String → String → Option Route
route_of method path =
    if method == "GET"
    then (if path == "/health"
        then some health_route
        else if path == "/ping"
        then some ping_route
        else if path == "/ready"
        then some ready_route
        else if path == "/v1/models"
        then some models_route
        else none)
    else if method == "POST"
    then (if path == "/v1/chat/completions"
        then some chat_route
        else if path == "/v1/completions"
        then some completions_route
        else none)
    else none

-- The module globals of the server, of the engine and of the heartbeat.
pub record App : Type 0 where
  pub engines_ready : Bool
  pub engines_initialized : Bool
  -- Whether a CUDA error was met, which starts `_fatal_shutdown`.
  pub fatal : Bool
  pub world : World

-- What a client is sent: the refusal of the check, a page, what a route of the engine returns, the answer
-- of the framework to an exception, and that to what is no route.
pub data Sent (Doc : Type 0) : Type 0 where
  denied : ℕ → String → Sent Doc
  page : ℕ → Option Status → Sent Doc
  handled : Handled Doc → Sent Doc
  crashed : Sent Doc
  no_route : Sent Doc

-- A request with its body, if that is JSON, the clock of the check, and the times at which it is admitted
-- and answered; or the end of a stream.
pub data Event (Doc : Type 0) : Type 0 where
  arrives : Request → Option Doc → (now_ms now later : ℕ) → Event Doc
  stream_ends : Events (Reply Doc) → (later : ℕ) → Event Doc

module _ (q : Quantity) (v : Serving) (settings : Settings q.Num) (raw : Bool) (j : Json v.Doc)
    (wants_stream : v.Doc → Bool) where
  -- Whether the engines are initialized after a request that is not streamed.
  abbrev pub after_generate : String → Option v.Doc → App → Bool
  after_generate path none a = a.engines_initialized
  after_generate path (some d) a =
      if a.engines_ready && not (wants_stream d)
      then (generate q v settings raw a.engines_initialized path d false).0
      else a.engines_initialized

  abbrev pub is_fatal : Handled v.Doc → Bool
  is_fatal (answered r) = r.fatal
  is_fatal (streaming es) = false

  -- `_handle_openai` with the engine. The generator of a stream runs later.
  unfoldable pub handle_route : String → Option v.Doc → ℕ → ℕ → App → Sent v.Doc × App
  unfolding handle_openai generate
  handle_route path body now later a =
      let run : v.Doc → Events (Reply v.Doc) =
        λ d. (generate q v settings raw a.engines_initialized path d (wants_stream d)).1 in
      let (h, w) = handle_openai j a.engines_ready body wants_stream run now later a.world in
      let met = a.fatal || is_fatal h in
      (
        handled h,
        record a { engines_initialized = after_generate path body a; fatal = met; world = w },
      )

  abbrev pub listed : Attempt (HttpResponse v.Doc) → Sent v.Doc
  listed (value r) = handled (answered r)
  listed (failed m) = crashed

  unfoldable pub list_models : App → Sent v.Doc × App
  unfolding models
  list_models a =
      let (now, result) = models q v settings a.engines_ready a.engines_initialized in
      (listed result, record a { engines_initialized = now })

  abbrev pub run_route : Option Route → Option v.Doc → ℕ → ℕ → App → Sent v.Doc × App
  run_route none body now later a = (no_route, a)
  run_route (some health_route) body now later a =
      let (code, status) = health a.world in (page code (some status), a)
  run_route (some ping_route) body now later a =
      let (code, status) = ping a.engines_ready in (page code status, a)
  run_route (some ready_route) body now later a =
      let (code, status) = ready a.engines_ready a.world in (page code (some status), a)
  run_route (some chat_route) body now later a =
      handle_route "/v1/chat/completions" body now later a
  run_route (some completions_route) body now later a =
      handle_route "/v1/completions" body now later a
  run_route (some models_route) body now later a = list_models a

  module _ (sign : String → String → String) (env : Environment) where
    abbrev pub gated : Verdict → Sent v.Doc × App → App → Sent v.Doc × App
    gated valid next a = next
    gated (response code m) next a = (denied code m, a)
    gated type_error next a = (crashed, a)

    -- One event: what is sent, and the application afterwards.
    unfoldable pub serve_event : Event v.Doc → App → Option (Sent v.Doc) × App
    unfolding dispatch route_of handle_route list_models health ping ready end_stream
    serve_event (arrives r body now_ms now later) a =
        let (sent, b) =
          gated (dispatch sign env now_ms exempt_paths r)
            (run_route (route_of r.method r.path) body now later a) a in
        (some sent, b)
    serve_event (stream_ends es later) a =
        let (sent, w) = end_stream j es later a.world in
        let (now, problem) = ensure_engines_initialized q v settings raw a.engines_initialized in
        let met = a.fatal || sent.fatal in
        (none, record a { engines_initialized = now; fatal = met; world = w })

    -- Events in their order, each with what was sent.
    unfoldable pub serve_all :
        List (Event v.Doc) → App → List (Event v.Doc × Option (Sent v.Doc)) × App
    unfolding serve_event
    serve_all [] a = ([], a)
    serve_all (e ∷ es) a =
        let (sent, b) = serve_event e a in let (log, c) = serve_all es b in ((e, sent) ∷ log, c)
