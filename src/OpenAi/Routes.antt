-- ===== src/OpenAi/Routes.antt =====
-- What a request of each route gives.
use gemma_vllm_worker.Base.{
  ◌≡◌, refl, Bool, true, false, String, arith, ◌==◌, string_comparable, if◌then◌else◌, inl, inr,
  Option-cases, subst, sym,
}
use gemma_vllm_worker.Base.Events.{Events, done, raise, item, IsComplete}
use gemma_vllm_worker.Batch.{Quantity}
use gemma_vllm_worker.Generate.{Settings}
use gemma_vllm_worker.OpenAi.{
  attempt_bind, Serving, Reply, Response, Attempt, value, failed, doc, error_response, whole,
  stream, Endpoint, chat, completion, answer, serve, handle, route, ensure_engines_initialized,
  generate, models_of, answer_of,
}

module _ (q : Quantity) (v : Serving) (s : Settings q.Num) (raw : Bool) where
  -- One document and no exception, if there is no exception.
  abbrev pub GivesOne : Events (Reply v.Doc) → Type 0
  GivesOne es = IsComplete es → (d : v.Doc) × (es ≡ item (doc d) done)

  answer-GivesOne : (r : Response v.Doc) → GivesOne (answer q v s raw false r)
  unfolding answer
  answer-GivesOne (error_response d) c = (d, refl)
  answer-GivesOne (whole d) c = (d, refl)
  answer-GivesOne (stream es) c = absurd c

  answer_of-GivesOne : (r : Attempt (Response v.Doc)) → GivesOne (answer_of q v s raw false r)
  answer_of-GivesOne (value r) c = answer-GivesOne r c
  answer_of-GivesOne (failed m) c = absurd c

  serve-GivesOne : (e : Endpoint) (r : Attempt v.Query) → GivesOne (serve q v s raw e false r)
  serve-GivesOne e (failed m) c = (v.error_doc m, refl)
  serve-GivesOne e (value r) c = answer_of-GivesOne (v.create e r) c

  handle-GivesOne : (e : Endpoint) (input : v.Doc) → GivesOne (handle q v s raw e input false)
  unfolding handle
  handle-GivesOne e input = serve-GivesOne e (v.make_request e input)

  models_of-GivesOne : (m : Attempt v.Doc) → GivesOne (models_of q v s raw m)
  models_of-GivesOne (value d) c = (d, refl)
  models_of-GivesOne (failed m) c = absurd c

  if-GivesOne :
      (b : Bool) (x y : Events (Reply v.Doc))
      → GivesOne x
      → GivesOne y
      → GivesOne (if b then x else y)
  if-GivesOne true x y h k = h
  if-GivesOne false x y h k = k

  route-GivesOne : (path : String) (input : v.Doc) → GivesOne (route q v s raw path input false)
  unfolding route
  route-GivesOne path input =
      if-GivesOne (path == "/v1/models") _ _ (models_of-GivesOne v.show_models) (
        if-GivesOne (path == "/v1/chat/completions") _ _ (handle-GivesOne chat input) (
          if-GivesOne (path == "/v1/completions") _ _ (handle-GivesOne completion input)
            (λ c. (v.error_doc "Invalid route", refl))))

-- A request that does not ask for a stream, on any route and in any state of the engines, gives exactly
-- one document, unless an exception is raised.
pub generate-GivesOne :
    (q : Quantity) (v : Serving) (s : Settings q.Num) (raw initialized : Bool) (path : String)
    (input : v.Doc)
    → IsComplete (generate q v s raw initialized path input false).1
    → (d : v.Doc) × ((generate q v s raw initialized path input false).1 ≡ item (doc d) done)
unfolding generate ensure_engines_initialized
generate-GivesOne q v s raw true path input c = route-GivesOne q v s raw path input c
generate-GivesOne q v s raw false path input c = elim (Option-cases v.initialize) [
  | inl fine ↦
      let same : (generate q v s raw false path input false).1 ≡ route q v s raw path input false =
        ground arith in
      subst (GivesOne q v s raw) (sym same) (route-GivesOne q v s raw path input) c
  | inr (m, bad) ↦
      let same : (generate q v s raw false path input false).1 ≡ raise m = ground arith in
      subst (GivesOne q v s raw) (sym same) (λ e. absurd e) c
]

-- The route of an endpoint.
abbrev pub path_of : Endpoint → String
path_of chat = "/v1/chat/completions"
path_of completion = "/v1/completions"

-- A request that the request class of its route refuses gives that error's document alone and no
-- exception, whether or not a stream was asked for.
pub route_refused :
    (q : Quantity) (v : Serving) (s : Settings q.Num) (raw wants_stream : Bool) (e : Endpoint)
    (input : v.Doc) (m : String)
    → v.make_request e input ≡ failed m
    → route q v s raw (path_of e) input wants_stream ≡ item (doc (v.error_doc m)) done
unfolding route
route_refused q v s raw wants_stream chat input m h = rw h
route_refused q v s raw wants_stream completion input m h = rw h

pub attempt_bind-value :
    {A B : Type 0} (o : Attempt A) (f : A → Attempt B) (b : B)
    → attempt_bind o f ≡ value b
    → (a : A) × (o ≡ value a) × (f a ≡ value b)
attempt_bind-value (value a) f b e = (a, refl, e)
attempt_bind-value (failed m) f b e = absurd (ground arith)
