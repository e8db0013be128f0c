-- ===== src/Server/App/Gate.antt =====
-- What requests without a valid signature can do.
use gemma_vllm_worker.Base.{
  ℕ, ◌≡◌, ◌⊎◌, refl, sym, ap, subst, Bool, true, false, Option, List, [], ◌∷◌, String, filter, elem,
  string_comparable, eq_iff, arith, inl, inr, Bool-cases,
}
use gemma_vllm_worker.Batch.{Quantity}
use gemma_vllm_worker.Generate.{Settings}
use gemma_vllm_worker.OpenAi.{Serving}
use gemma_vllm_worker.Auth.{
  Environment, Verdict, valid, response, type_error, verify_cp_hmac, dispatch, exempt_paths,
}
use gemma_vllm_worker.Server.{Json}
use gemma_vllm_worker.Server.App.{
  App, Sent, Event, arrives, stream_ends, route_of, run_route, gated, serve_event, serve_all,
}

abbrev is_valid : Verdict → Bool
is_valid valid = true
is_valid verdict = false

module _ (sign : String → String → String) (env : Environment) where
  -- An event that is no request without a valid signature.
  abbrev pub is_signed : {Doc : Type 0} → Event Doc → Bool
  is_signed (arrives r body now_ms now later) = is_valid (verify_cp_hmac sign env now_ms r)
  is_signed (stream_ends es later) = true

module _ (q : Quantity) (v : Serving) (settings : Settings q.Num) (raw : Bool) (j : Json v.Doc)
    (wants_stream : v.Doc → Bool) where
  abbrev after_route : String → String → Option v.Doc → ℕ → ℕ → App → App
  after_route method path body now later a =
      (run_route q v settings raw j wants_stream (route_of method path) body now later a).1

  -- The routes that are exempt only read.
  after_exempt :
      (method path : String) (body : Option v.Doc) (now later : ℕ) (a : App)
      → (path ≡ "/health") ⊎ ((path ≡ "/ready") ⊎ (path ≡ "/ping"))
      → after_route method path body now later a ≡ a
  unfolding route_of
  after_exempt method path body now later a (inl h) =
      subst (λ p. after_route method p body now later a ≡ a) (sym h) (ground arith)
  after_exempt method path body now later a (inr (inl h)) =
      subst (λ p. after_route method p body now later a ≡ a) (sym h) (ground arith)
  after_exempt method path body now later a (inr (inr h)) =
      subst (λ p. after_route method p body now later a ≡ a) (sym h) (ground arith)

  exempt_route :
      (method path : String) (body : Option v.Doc) (now later : ℕ) (a : App)
      → elem path exempt_paths ≡ true
      → after_route method path body now later a ≡ a
  exempt_route method path body now later a h =
      after_exempt method path body now later a
        (ground (arith, h, eq_iff path "/health", eq_iff path "/ready", eq_iff path "/ping"))

  module _ (sign : String → String → String) (env : Environment) where
    gated_refused :
        (x : Verdict) (next : Sent v.Doc × App) (a : App)
        → is_valid x ≡ false
        → (gated q v settings raw j wants_stream sign env x next a).1 ≡ a
    gated_refused valid next a h = absurd (ground arith)
    gated_refused (response code m) next a h = refl
    gated_refused type_error next a h = refl

    serve_unsigned :
        (e : Event v.Doc) (a : App)
        → is_signed sign env e ≡ false
        → (serve_event q v settings raw j wants_stream sign env e a).1 ≡ a
    unfolding serve_event dispatch
    serve_unsigned (stream_ends es later) a h = absurd (ground arith)
    serve_unsigned (arrives r body now_ms now later) a h =
        elim (Bool-cases (elem r.path exempt_paths)) [
          | inl exempt ↦ rw exempt (exempt_route r.method r.path body now later a exempt)
          | inr checked ↦ rw checked (gated_refused (verify_cp_hmac sign env now_ms r) _ a h)
        ]

-- Over any sequence of requests and ends of streams, the requests without a valid signature, on exempt
-- paths or not, have no effect: the application ends as if they had not come (its load, its activity and
-- its engines), and what all others are sent is the same, in the same order.
pub serve_all-filter :
    (q : Quantity) (v : Serving) (settings : Settings q.Num) (raw : Bool) (j : Json v.Doc)
    (wants_stream : v.Doc → Bool) (sign : String → String → String) (env : Environment)
    (es : List (Event v.Doc)) (a : App)
    → (let run = serve_all q v settings raw j wants_stream sign env in
        let signed = filter (is_signed sign env) es in
        (filter (λ x. is_signed sign env x.0) (run es a).0 ≡ (run signed a).0)
        × ((run es a).1 ≡ (run signed a).1))
unfolding serve_all
serve_all-filter q v settings raw j wants_stream sign env [] a = (refl, refl)
serve_all-filter q v settings raw j wants_stream sign env (e ∷ es) a =
    let (sent, b) = serve_event q v settings raw j wants_stream sign env e a in
    let ih = serve_all-filter q v settings raw j wants_stream sign env es b in
    elim (Bool-cases (is_signed sign env e)) [
      | inl signed ↦ rw signed (ap (λ log. (e, sent) ∷ log) ih.0, ih.1)
      | inr unsigned ↦ rw unsigned (
          subst
            (λ c.
              (filter (λ x. is_signed sign env x.0)
                  (serve_all q v settings raw j wants_stream sign env es b).0
                ≡ (serve_all q v settings raw j wants_stream sign env
                    (filter (is_signed sign env) es) c).0)
              × ((serve_all q v settings raw j wants_stream sign env es b).1
                  ≡ (serve_all q v settings raw j wants_stream sign env
                      (filter (is_signed sign env) es) c).1))
            (serve_unsigned q v settings raw j wants_stream sign env e a unsigned) ih)
    ]
