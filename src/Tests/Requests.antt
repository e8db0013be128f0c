-- ===== src/Tests/Requests.antt =====
-- Requests to the whole application, signed and not.
use gemma_vllm_worker.Base.{
  ◌≡◌, refl, true, false, Option, none, some, List, [], ◌∷◌, String, filter, string_comparable,
}
use gemma_vllm_worker.Base.Number.{parse_int}
use gemma_vllm_worker.Base.Text.{is_ascii, contains}
use gemma_vllm_worker.Base.Events.{done}
use gemma_vllm_worker.Batch.{natural}
use gemma_vllm_worker.OpenAi.{doc}
use gemma_vllm_worker.Auth.{Request, message_of}
use gemma_vllm_worker.Server.{message, answered, respond, reply}
use gemma_vllm_worker.Server.App.{
  App, Sent, denied, handled, no_route, Event, arrives, stream_ends, serve_event, serve_all,
}
use gemma_vllm_worker.Server.App.Gate.{is_signed, serve_all-filter}
use gemma_vllm_worker.Tests.Lifecycle.{worker}
use gemma_vllm_worker.Tests.Serving.{settings, serving, json}
use gemma_vllm_worker.Tests.Signing.{sign, env, signed}

abbrev app : App
app = record { engines_ready = true; engines_initialized = false; fatal = false; world = worker }

abbrev unsigned : String → String → Request
unsigned method path = record {
  signature = none;
  timestamp = none;
  method = method;
  path = path;
  query = "";
}

abbrev pub requests : List (Event String)
requests =
    arrives (unsigned "POST" "/v1/completions") (some "x") 1000000 10 20
    ∷ arrives (unsigned "GET" "/health") none 1000000 30 30
    ∷ arrives signed (some "x") 1000001 40 50
    ∷ stream_ends done 60
    ∷ []

serve_all-filter_example :
    let run = serve_all natural serving settings true json (λ d. false) sign env in
    let others = filter (is_signed sign env) requests in
    (filter (λ x. is_signed sign env x.0) (run requests app).0 ≡ (run others app).0)
    × ((run requests app).1 ≡ (run others app).1)
serve_all-filter_example =
    serve_all-filter natural serving settings true json (λ d. false) sign env requests app

abbrev sent_for : Event String → Option (Sent String)
sent_for e = (serve_event natural serving settings true json (λ d. false) sign env e app).0

sent_lem :
    (sent_for (arrives (unsigned "POST" "/v1/completions") (some "x") 1000000 10 20)
      ≡ some (denied 401 "Missing HMAC authentication headers"))
    × (sent_for (arrives (unsigned "POST" "/health") none 1000000 10 20) ≡ some no_route)
    × (sent_for (arrives signed (some "x") 1000001 40 50)
        ≡ some (handled (answered (respond 200 (reply (doc "hello"))))))
    × (sent_for (arrives signed none 1000001 40 50)
        ≡ some (handled (answered (respond 400 (message "Invalid JSON body")))))
unfolding serve_event parse_int is_ascii message_of contains
sent_lem = (refl, refl, refl, refl)
