-- ===== src/Server/Life/Fatal.antt =====
-- The requests and streams of a life that met a CUDA error, by what the client is sent.
use gemma_vllm_worker.Base.{
  ℕ, ◌≡◌, refl, sym, ap, ◌∙◌, Bool, true, false, ◌||◌, Option, none, some, List, [], ◌∷◌, String,
  if◌then◌else◌, inl, inr, Bool-cases,
}
use gemma_vllm_worker.Base.Text.{contains}
use gemma_vllm_worker.Base.Events.{Events, done, raise, item}
use gemma_vllm_worker.Batch.{Quantity}
use gemma_vllm_worker.Generate.{Settings}
use gemma_vllm_worker.OpenAi.{
  Serving, Attempt, value, failed, Reply, doc, text, docs, ensure_engines_initialized,
}
use gemma_vllm_worker.Auth.{
  Environment, Verdict, valid, response, type_error, dispatch, exempt_paths,
}
use gemma_vllm_worker.Heartbeat.World.{World}
use gemma_vllm_worker.Heartbeat.Service.{Context, send_heartbeat}
use gemma_vllm_worker.Server.{
  Json, Content, message, reply, HttpResponse, answered, streaming, is_cuda_fatal, stream_response,
  respond, answer_with, collect, handle_openai, end_stream, non_stream_response,
}
use gemma_vllm_worker.Server.Stop.{models}
use gemma_vllm_worker.Server.App.{
  App, Sent, handled, Event, arrives, stream_ends, Route, health_route, ping_route, ready_route,
  models_route, chat_route, completions_route, route_of, handle_route, list_models, run_route,
  gated, listed, is_fatal, serve_event,
}
use gemma_vllm_worker.Server.Life.{Activity, serves, beats, live}

abbrev names_cuda : String → Bool
names_cuda m = contains "CUDA" m || contains "cuda" m

-- A response with a message that names CUDA.
abbrev in_content : {Doc : Type 0} → Content Doc → Bool
in_content (message m) = names_cuda m
in_content (reply r) = false

abbrev in_sent : {Doc : Type 0} → Sent Doc → Bool
in_sent (handled (answered r)) = in_content r.content
in_sent (handled (streaming es)) = false
in_sent sent = false

-- A stream that ends by an exception that names CUDA, with no error among its documents before.
abbrev in_stream : {Doc : Type 0} → Json Doc → Events (Reply Doc) → Bool
in_stream j done = false
in_stream j (raise m) = names_cuda m
in_stream j (item (doc d) es) = let rest = in_stream j es in if j.has_error d then false else rest
in_stream j (item (text t) es) = in_stream j es
in_stream j (item (docs ds) es) = in_stream j es

abbrev in_event : {Doc : Type 0} → Json Doc → Event Doc → Option (Sent Doc) → Bool
in_event j (arrives r body now_ms now later) none = false
in_event j (arrives r body now_ms now later) (some sent) = in_sent sent
in_event j (stream_ends es later) sent = in_stream j es

-- The answer of the list of models.
abbrev answer_of : {Doc : Type 0} → Option String → Attempt Doc → Attempt (HttpResponse Doc)
answer_of problem shown = elim problem [
  | some m ↦ failed m
  | none ↦ elim shown [ failed m ↦ failed m | value d ↦ value (respond 200 (reply (doc d))) ]
]

or_false : (b : Bool) → b ≡ b || false
or_false true = refl
or_false false = refl

module _ {Doc : Type 0} (j : Json Doc) where
  in_stream-stream_response :
      (es : Events (Reply Doc)) → (stream_response j es).fatal ≡ in_stream j es
  unfolding stream_response is_cuda_fatal
  in_stream-stream_response done = refl
  in_stream-stream_response (raise m) = refl
  in_stream-stream_response (item (doc d) es) = elim (Bool-cases (j.has_error d)) [
    | inl bad ↦ rw bad refl
    | inr good ↦ rw good (in_stream-stream_response es)
  ]
  in_stream-stream_response (item (text t) es) = in_stream-stream_response es
  in_stream-stream_response (item (docs ds) es) = in_stream-stream_response es

  in_content-collect :
      (last : Option (Reply Doc)) (es : Events (Reply Doc))
      → (collect j last es).fatal ≡ in_content (collect j last es).content
  unfolding collect answer_with is_cuda_fatal contains
  in_content-collect none done = refl
  in_content-collect (some (doc d)) done = elim (Bool-cases (j.has_error d)) [
    | inl bad ↦ rw bad refl
    | inr good ↦ rw good refl
  ]
  in_content-collect (some (text t)) done = refl
  in_content-collect (some (docs ds)) done = refl
  in_content-collect last (raise m) = refl
  in_content-collect last (item r es) = in_content-collect (some r) es

module _ (q : Quantity) (v : Serving) (settings : Settings q.Num) (raw : Bool) (j : Json v.Doc)
    (wants_stream : v.Doc → Bool) where
  handle_openai_fatal :
      (ready : Bool) (body : Option v.Doc) (run : v.Doc → Events (Reply v.Doc)) (now later : ℕ)
      (w : World)
      → let h = (handle_openai j ready body wants_stream run now later w).0 in
        is_fatal q v settings raw j wants_stream h ≡ in_sent (handled h)
  unfolding handle_openai non_stream_response contains
  handle_openai_fatal false body run now later w = refl
  handle_openai_fatal true none run now later w = refl
  handle_openai_fatal true (some d) run now later w = elim (Bool-cases (wants_stream d)) [
    | inl streams ↦ rw streams refl
    | inr whole ↦ rw whole (in_content-collect j none (run d))
  ]

  abbrev Marks : App → Sent v.Doc × App → Type 0
  Marks a r = r.1.fatal ≡ a.fatal || in_sent r.0

  handle_route-Marks :
      (path : String) (body : Option v.Doc) (now later : ℕ) (a : App)
      → Marks a (handle_route q v settings raw j wants_stream path body now later a)
  unfolding handle_route
  handle_route-Marks path body now later a =
      ap (λ b. a.fatal || b) (handle_openai_fatal a.engines_ready body _ now later a.world)

  listed_models :
      (problem : Option String) (shown : Attempt v.Doc)
      → in_sent (listed q v settings raw j wants_stream (answer_of problem shown)) ≡ false
  listed_models (some m) shown = refl
  listed_models none (failed m) = refl
  listed_models none (value d) = refl

  models_quiet :
      (ready initialized : Bool)
      → in_sent (listed q v settings raw j wants_stream (models q v settings ready initialized).1)
        ≡ false
  unfolding models contains
  models_quiet false initialized = refl
  models_quiet true initialized =
      listed_models (ensure_engines_initialized q v settings false initialized).1 v.show_models

  list_models-Marks : (a : App) → Marks a (list_models q v settings raw j wants_stream a)
  unfolding list_models
  list_models-Marks a =
      or_false a.fatal
      ∙ ap (λ b. a.fatal || b) (sym (models_quiet a.engines_ready a.engines_initialized))

  run_route-Marks :
      (r : Option Route) (body : Option v.Doc) (now later : ℕ) (a : App)
      → Marks a (run_route q v settings raw j wants_stream r body now later a)
  run_route-Marks none body now later a = or_false a.fatal
  run_route-Marks (some health_route) body now later a = or_false a.fatal
  run_route-Marks (some ping_route) body now later a = or_false a.fatal
  run_route-Marks (some ready_route) body now later a = or_false a.fatal
  run_route-Marks (some models_route) body now later a = list_models-Marks a
  run_route-Marks (some chat_route) body now later a = handle_route-Marks _ body now later a
  run_route-Marks (some completions_route) body now later a = handle_route-Marks _ body now later a

  module _ (sign : String → String → String) (env : Environment) where
    gated-Marks :
        (x : Verdict) (next : Sent v.Doc × App) (a : App)
        → Marks a next
        → Marks a (gated q v settings raw j wants_stream sign env x next a)
    gated-Marks valid next a h = h
    gated-Marks (response code m) next a h = or_false a.fatal
    gated-Marks type_error next a h = or_false a.fatal

    serve_event_fatal :
        (e : Event v.Doc) (a : App)
        → let (sent, b) = serve_event q v settings raw j wants_stream sign env e a in
          b.fatal ≡ a.fatal || in_event j e sent
    unfolding serve_event end_stream
    serve_event_fatal (arrives r body now_ms now later) a =
        gated-Marks (dispatch sign env now_ms exempt_paths r) _ a
          (run_route-Marks (route_of r.method r.path) body now later a)
    serve_event_fatal (stream_ends es later) a =
        ap (λ b. a.fatal || b) (in_stream-stream_response j es)

    module _ (c : Context) where
      -- Whether an answer of the life, or a stream that ends in it, tells of a CUDA error.
      abbrev pub meets_cuda : List (Activity v.Doc) → App → Bool
      meets_cuda [] a = false
      meets_cuda (serves e ∷ es) a =
          let (sent, b) = serve_event q v settings raw j wants_stream sign env e a in
          in_event j e sent || meets_cuda es b
      meets_cuda (beats now ∷ es) a =
          meets_cuda es (record a { world = (send_heartbeat c now a.world).1 })

      pub meets_cuda-live :
          (es : List (Activity v.Doc)) (a : App)
          → a.fatal ≡ false
          → (live c q v settings raw j wants_stream sign env es a).fatal ≡ meets_cuda es a
      unfolding live
      meets_cuda-live [] a h = h
      meets_cuda-live (serves e ∷ es) a h =
          let (sent, b) = serve_event q v settings raw j wants_stream sign env e a in
          let here : b.fatal ≡ in_event j e sent =
            serve_event_fatal e a ∙ ap (λ x. x || in_event j e sent) h in
          elim (Bool-cases b.fatal) [
            | inl met ↦ rw (met, (sym here ∙ met)) met
            | inr goes_on ↦ rw (goes_on, (sym here ∙ goes_on)) (meets_cuda-live es b goes_on)
          ]
      meets_cuda-live (beats now ∷ es) a h = meets_cuda-live es _ h
