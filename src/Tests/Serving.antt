-- ===== src/Tests/Serving.antt =====
-- The OpenAI routes and what the server sends.
use gemma_vllm_worker.Base.{
  ℕ, ◌≡◌, refl, ◌==◌, string_comparable, true, false, none, [], ◌∷◌, String, ◌<>◌, if◌then◌else◌,
}
use gemma_vllm_worker.Base.Text.{join, contains, rstrip_newlines, remove_prefix}
use gemma_vllm_worker.Base.Events.{Events, done, raise, item, items}
use gemma_vllm_worker.Batch.{natural, new, update}
use gemma_vllm_worker.Generate.{Settings}
use gemma_vllm_worker.OpenAi.{
  Serving, value, failed, completion, whole, doc, keep_raw, gather, stream_batches, route, generate,
  chunk_size,
}
use gemma_vllm_worker.OpenAi.Chunks.{IsGrouped, gather-IsGrouped_start}
use gemma_vllm_worker.OpenAi.Routes.{route_refused}
use gemma_vllm_worker.Server.{
  Json, done_line, sse, line_of, stream_response, non_stream_response, respond, reply,
}
use gemma_vllm_worker.Server.Streams.{
  stream_response_raw, stream_response_decoded, non_stream_response-generate,
  non_stream_response_failed,
}

abbrev pub settings : Settings ℕ
settings = record { default_batch_size = 50; batch_size_growth_factor = 3; min_batch_size = 1 }

-- vLLM with texts as documents: the request "bad" is refused, any other gets the answer "hello".
abbrev pub serving : Serving
serving = record {
  Doc = String;
  Query = String;
  loads = λ s. value s;
  make_request = λ e d. if d == "bad" then failed "bad request" else value d;
  create = λ e r. value (whole "hello");
  show_models = value "models";
  error_doc = λ m. "error: " <> m;
  initialize = none;
  type_error = "TypeError";
}

abbrev pub json : Json String
json = record {
  dumps = λ d. d;
  as_str = λ d. none;
  has_error = λ d. contains "error" d;
  error_of = λ m. "error: " <> m;
}

abbrev chunks : Events String
chunks = item "data: a\n\n" (item ": ping\n\n" (item "data: b\n\n" (item "data: [DONE]\n\n" done)))

-- Chunks that contain no "data" are dropped, and the terminator of vLLM is followed by the server's.
stream_response_raw_example :
    join (stream_response json (stream_batches natural serving settings true chunks)).chunks
    ≡ "data: a\n\ndata: b\n\ndata: [DONE]\n\ndata: [DONE]\n\n"
unfolding stream_batches update new contains
stream_response_raw_example = stream_response_raw natural serving json settings chunks tt

stream_response_decoded_example :
    (stream_response json (stream_batches natural serving settings false chunks)).chunks
    ≡ "data: a\n\n" ∷ "data: b\n\n" ∷ done_line ∷ []
unfolding stream_batches update new contains sse line_of rstrip_newlines remove_prefix
stream_response_decoded_example = stream_response_decoded natural serving json settings chunks tt

gather-IsGrouped_start_example :
    IsGrouped natural keep_raw
      (chunk_size natural settings)
      (items (gather natural keep_raw chunks [] 0 (chunk_size natural settings)))
gather-IsGrouped_start_example =
    gather-IsGrouped_start natural keep_raw chunks (chunk_size natural settings)

non_stream_response-generate_example :
    (d : String) × ((generate natural serving settings true false "/v1/completions" "x" false).1
      ≡ item (doc d) done)
    × (non_stream_response json
          (generate natural serving settings true false "/v1/completions" "x" false).1
        ≡ respond (if json.has_error d then 400 else 200) (reply (doc d)))
unfolding generate
non_stream_response-generate_example =
    non_stream_response-generate natural serving json settings true false "/v1/completions" "x" tt

non_stream_failed_run :
    (non_stream_response json (item (doc "a") (raise "CUDA error"))).status_code ≡ 500
non_stream_failed_run =
    non_stream_response_failed json (item (doc "a") (raise "CUDA error")) (λ h. h)

route_refused_run :
    route natural serving settings true "/v1/completions" "bad" true
    ≡ item (doc "error: bad request") done
route_refused_run =
    route_refused natural serving settings true true completion "bad" "bad request" refl
