-- ===== src/Handler/Errors.antt =====
-- Which errors end the process.
use gemma_vllm_worker.Base.{
  ◌≡◌, ◌↔◌, ◌⊎◌, refl, sym, ap, ◌∙◌, subst, Bool, true, false, ◌||◌, ◌<>◌, List, [], ◌∷◌, map,
  String, arith, Bool-cases, inl, inr,
}
use gemma_vllm_worker.Base.Events.{Events, done, raise, item, items, catch, IsComplete}
use gemma_vllm_worker.Batch.{Quantity}
use gemma_vllm_worker.Generate.{Settings, replies, generate, generate_vllm}
use gemma_vllm_worker.Base.Text.{contains}
use gemma_vllm_worker.Base.Text.Contains.{contains_iff}
use gemma_vllm_worker.OpenAi.{Attempt, value, failed}
use gemma_vllm_worker.Handler.{
  Yielded, tokens, openai, Run, finished, exited, yielding, is_cuda_error, on_error, forward, Job,
  uses_openai, handler,
}

abbrev pub yields : {A : Type 0} → Run A → List A
yields finished = []
yields exited = []
yields (yielding a r) = a ∷ yields r

abbrev pub Exits : {A : Type 0} → Run A → Type 0
Exits finished = ⊥
Exits exited = Unit
Exits (yielding a r) = Exits r

-- The message has the text "CUDA" or "cuda" in it.
abbrev pub NamesCuda : String → Type 0
NamesCuda m = (a : String) × (b : String) × ((m ≡ a <> ("CUDA" <> b)) ⊎ (m ≡ a <> ("cuda" <> b)))

-- The generator ends with this exception.
abbrev pub Raises : {A : Type 0} → Events A → String → Type 0
Raises done m = ⊥
Raises (raise x) m = x ≡ m
Raises (item a es) m = Raises es m

-- A job that fails with this exception: in `JobInput`, or in the OpenAI engine.
abbrev pub Fails : {N Doc : Type 0} → Attempt (Job N Doc) → String → Type 0
Fails (failed x) m = x ≡ m
Fails (value j) m = (uses_openai j ≡ true) × Raises j.openai_replies m

is_cuda_error_iff : (m : String) → (is_cuda_error m ≡ true) ↔ NamesCuda m
unfolding is_cuda_error
is_cuda_error_iff m = (
  (λ h. elim (Bool-cases (contains "CUDA" m)) [
    | inl upper ↦ let (a, b, e) = (contains_iff "CUDA" m).0 upper in (a, b, inl e)
    | inr other ↦
        let (a, b, e) =
          (contains_iff "cuda" m).0 (sym (ap (λ x. x || contains "cuda" m) other) ∙ h) in
        (a, b, inr e)
  ]),
  from,
)
  where
    or_true : (x : Bool) → x || true ≡ true
    or_true x = ground arith

    from : NamesCuda m → contains "CUDA" m || contains "cuda" m ≡ true
    from (a, b, inl e) = ap (λ x. x || contains "cuda" m) ((contains_iff "CUDA" m).1 (a, b, e))
    from (a, b, inr e) =
        ap (λ x. contains "CUDA" m || x) ((contains_iff "cuda" m).1 (a, b, e))
        ∙ or_true (contains "CUDA" m)

catch-IsComplete :
    {A : Type 0} (es : Events A) (h : String → Events A)
    → ((m : String) → IsComplete (h m))
    → IsComplete (catch es h)
catch-IsComplete done h all = tt
catch-IsComplete (raise m) h all = all m
catch-IsComplete (item a es) h all = catch-IsComplete es h all

on_error-Exits : (Doc : Type 0) (m : String) → Exits (on_error {Doc = Doc} m) ↔ NamesCuda m
unfolding on_error
on_error-Exits Doc m =
    let (to, from) = is_cuda_error_iff m in
    elim (Bool-cases (is_cuda_error m)) [
      | inl fatal ↦ rw fatal ((λ e. to fatal), (λ n. tt))
      | inr other ↦ rw other ((λ e. absurd e), (λ n. absurd (ground (arith, from n, other))))
    ]

module _ {A Doc : Type 0} (wrap : A → Yielded Doc) where
  forward-IsComplete :
      (es : Events A)
      → IsComplete es
      → (yields (forward wrap es) ≡ map wrap (items es)) × (¬ Exits (forward wrap es))
  unfolding forward
  forward-IsComplete done h = (refl, (λ e. e))
  forward-IsComplete (raise m) h = absurd h
  forward-IsComplete (item a es) h =
      let (same, stays) = forward-IsComplete es h in (ap (λ l. wrap a ∷ l) same, stays)

  forward-Exits :
      (es : Events A) → Exits (forward wrap es) ↔ ((m : String) × Raises es m × NamesCuda m)
  unfolding forward
  forward-Exits done = ((λ e. absurd e), (λ (m, e, n). e))
  forward-Exits (raise x) =
      let (to, from) = on_error-Exits Doc x in
      ((λ e. (x, refl, to e)), (λ (m, e, n). from (subst NamesCuda (sym e) n)))
  forward-Exits (item a es) = forward-Exits es

-- A job whose `JobInput` is made, and that has no OpenAI route, does not end the process, whatever vLLM
-- raises, a CUDA error included: the handler yields exactly what `generate` of the vLLM engine yields, and returns.
pub handler_vllm :
    {Doc : Type 0} (q : Quantity) (s : Settings q.Num) (j : Job q.Num Doc)
    → uses_openai j ≡ false
    → (yields (handler q s (value j)) ≡ map tokens (items (generate q s j.request j.outputs)))
      × (¬ Exits (handler q s (value j)))
unfolding handler generate
handler_vllm q s j h =
    let run = generate q s j.request j.outputs in
    rw h (
      forward-IsComplete tokens run
        (catch-IsComplete (replies (generate_vllm q s j.request j.outputs)) _ (λ m. tt)))

-- Any job, with a route or not, ends the process exactly if its `JobInput` raises, or it has an OpenAI route
-- and the OpenAI engine raises, an exception with "CUDA" or "cuda" somewhere in its message.
pub handler-Exits :
    {Doc : Type 0} (q : Quantity) (s : Settings q.Num) (job : Attempt (Job q.Num Doc))
    → Exits (handler q s job) ↔ ((m : String) × Fails job m × NamesCuda m)
unfolding handler generate
handler-Exits {Doc = Doc} q s (failed x) =
    let (to, from) = on_error-Exits Doc x in
    ((λ e. (x, refl, to e)), (λ (m, e, n). from (subst NamesCuda (sym e) n)))
handler-Exits {Doc = Doc} q s (value j) = elim (Bool-cases (uses_openai j)) [
  | inl on ↦
      let (to, from) = forward-Exits openai j.openai_replies in
      rw on (
        (λ e. let (m, raised, n) = to e in (m, (refl, raised), n)),
        (λ (m, (h, raised), n). from (m, raised, n)),
      )
  | inr off ↦
      let stays =
        (forward-IsComplete {Doc = Doc} tokens (generate q s j.request j.outputs)
          (catch-IsComplete (replies (generate_vllm q s j.request j.outputs)) _ (λ m. tt))).1 in
      rw off ((λ e. absurd (stays e)), (λ (m, (h, raised), n). absurd (ground arith)))
]
