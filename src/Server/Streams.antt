-- ===== src/Server/Streams.antt =====
-- What a client of the server receives, from vLLM's chunks on.
use package.text.Mathlib.TextLemmas.{nil-append, append-nil, append_assoc as text_assoc}
use mathlib.Core.List.{append_assoc}
use gemma_vllm_worker.Base.{
  ◌≡◌, refl, sym, ap, ◌∙◌, Bool, true, false, Option, none, some, List, [], ◌∷◌, ◌++◌, map, String,
  ◌<>◌, if◌then◌else◌, arith,
}
use gemma_vllm_worker.Base.Text.{join}
use gemma_vllm_worker.Base.Events.{Events, done, raise, item, items, IsComplete}
use gemma_vllm_worker.Batch.{Quantity}
use gemma_vllm_worker.Generate.{Settings}
use gemma_vllm_worker.OpenAi.{
  Serving, Reply, doc, text, docs, keep_raw, keep_decoded, relay, chunk_size, gather,
  stream_batches, generate,
}
use gemma_vllm_worker.OpenAi.Chunks.{
  kept, sent_text, sent_docs, sent_text-stream_batches, sent_docs-stream_batches,
}
use gemma_vllm_worker.OpenAi.Routes.{generate-GivesOne}
use gemma_vllm_worker.Server.{
  Json, done_line, line_of, stream_response, non_stream_response, collect, respond, reply,
}

-- Streams of texts alone, and of lists of documents alone, as the two modes yield.
abbrev AllTexts : {Doc : Type 0} → Events (Reply Doc) → Type 0
AllTexts done = Unit
AllTexts (raise m) = Unit
AllTexts (item (text t) es) = AllTexts es
AllTexts (item (doc d) es) = ⊥
AllTexts (item (docs ds) es) = ⊥

abbrev AllDocs : {Doc : Type 0} → Events (Reply Doc) → Type 0
AllDocs done = Unit
AllDocs (raise m) = Unit
AllDocs (item (docs ds) es) = AllDocs es
AllDocs (item (doc d) es) = ⊥
AllDocs (item (text t) es) = ⊥

relay-AllTexts :
    (Doc : Type 0) (f : List String → String) (es : Events (List String))
    → AllTexts {Doc = Doc} (relay (λ xs. text (f xs)) es)
relay-AllTexts Doc f done = tt
relay-AllTexts Doc f (raise m) = tt
relay-AllTexts Doc f (item xs es) = relay-AllTexts Doc f es

relay-AllDocs : (Doc : Type 0) (es : Events (List Doc)) → AllDocs (relay docs es)
relay-AllDocs Doc done = tt
relay-AllDocs Doc (raise m) = tt
relay-AllDocs Doc (item xs es) = relay-AllDocs Doc es

map_append : {A B : Type 0} (f : A → B) (xs ys : List A) → map f (xs ++ ys) ≡ map f xs ++ map f ys
map_append f [] ys = refl
map_append f (x ∷ xs) ys = ap (λ t. f x ∷ t) (map_append f xs ys)

module _ {Doc : Type 0} (j : Json Doc) where
  stream_texts :
      (es : Events (Reply Doc))
      → AllTexts es
      → IsComplete es
      → join (stream_response j es).chunks ≡ sent_text (items es) <> done_line
  unfolding stream_response
  stream_texts done h c = append-nil done_line ∙ sym (nil-append done_line)
  stream_texts (raise m) h c = absurd c
  stream_texts (item (text t) es) h c =
      ap (λ s. t <> s) (stream_texts es h c) ∙ sym (text_assoc t (sent_text (items es)) done_line)
  stream_texts (item (doc d) es) h c = absurd h
  stream_texts (item (docs ds) es) h c = absurd h

  stream_docs :
      (es : Events (Reply Doc))
      → AllDocs es
      → IsComplete es
      → (stream_response j es).chunks ≡ map (line_of j) (sent_docs (items es)) ++ (done_line ∷ [])
  unfolding stream_response
  stream_docs done h c = refl
  stream_docs (raise m) h c = absurd c
  stream_docs (item (docs ds) es) h c =
      ap (λ s. map (line_of j) ds ++ s) (stream_docs es h c)
      ∙ sym (
          append_assoc (map (line_of j) ds) (map (line_of j) (sent_docs (items es)))
            (done_line ∷ []))
      ∙ ap (λ s. s ++ (done_line ∷ [])) (sym (map_append (line_of j) ds (sent_docs (items es))))
  stream_docs (item (doc d) es) h c = absurd h
  stream_docs (item (text t) es) h c = absurd h

-- With raw output, a stream that ends with no exception gives the client exactly vLLM's chunks that
-- contain "data", joined, and then one more end marker line, also where vLLM's last chunk is one.
pub stream_response_raw :
    (q : Quantity) (v : Serving) (j : Json v.Doc) (s : Settings q.Num) (es : Events String)
    → IsComplete (stream_batches q v s true es)
    → join (stream_response j (stream_batches q v s true es)).chunks
      ≡ join (kept keep_raw es) <> done_line
unfolding stream_batches
stream_response_raw q v j s es c =
    stream_texts j (stream_batches q v s true es)
      (relay-AllTexts v.Doc join (gather q keep_raw es [] 0 (chunk_size q s))) c
    ∙ ap (λ t. t <> done_line) (sent_text-stream_batches q v s es c)

-- Without raw output, a stream that ends with no exception gives the client one line (the event line of
-- its JSON text, or the document itself if that is a text) for each document decoded from a chunk that
-- contains "data" and not the end marker, in order, and then exactly one end marker line.
pub stream_response_decoded :
    (q : Quantity) (v : Serving) (j : Json v.Doc) (s : Settings q.Num) (es : Events String)
    → IsComplete (stream_batches q v s false es)
    → (stream_response j (stream_batches q v s false es)).chunks
      ≡ map (line_of j) (kept (keep_decoded v.loads) es) ++ (done_line ∷ [])
unfolding stream_batches
stream_response_decoded q v j s es c =
    stream_docs j (stream_batches q v s false es)
      (relay-AllDocs v.Doc (gather q (keep_decoded v.loads) es [] 0 (chunk_size q s))) c
    ∙ ap (λ ds. map (line_of j) ds ++ (done_line ∷ [])) (sent_docs-stream_batches q v s es c)

collect_failed :
    {Doc : Type 0} (j : Json Doc) (last : Option (Reply Doc)) (es : Events (Reply Doc))
    → ¬ IsComplete es
    → (collect j last es).status_code ≡ 500
unfolding collect
collect_failed j last done h = absurd (h tt)
collect_failed j last (raise m) h = refl
collect_failed j last (item r es) h = collect_failed j (some r) es h

-- A request that does not ask for a stream and whose run ends with no exception is answered, on every
-- route, with the one document of the run: with status 400 if that is an error and 200 if not.
pub non_stream_response-generate :
    (q : Quantity) (v : Serving) (j : Json v.Doc) (s : Settings q.Num) (raw initialized : Bool)
    (path : String) (input : v.Doc)
    → IsComplete (generate q v s raw initialized path input false).1
    → (d : v.Doc) × ((generate q v s raw initialized path input false).1 ≡ item (doc d) done)
      × (non_stream_response j (generate q v s raw initialized path input false).1
          ≡ respond (if j.has_error d then 400 else 200) (reply (doc d)))
unfolding non_stream_response
non_stream_response-generate q v j s raw initialized path input c =
    let (d, e) = generate-GivesOne q v s raw initialized path input c in
    (d, e, ap (collect j none) e ∙ ground arith)

-- A run that raises is answered with status 500, whatever it yielded before.
pub non_stream_response_failed :
    {Doc : Type 0} (j : Json Doc) (es : Events (Reply Doc))
    → ¬ IsComplete es
    → (non_stream_response j es).status_code ≡ 500
unfolding non_stream_response
non_stream_response_failed j es h = collect_failed j none es h
