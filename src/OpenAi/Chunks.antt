-- ===== src/OpenAi/Chunks.antt =====
-- How streamed chunks are grouped into batches: none is lost, reordered or sent twice, and every batch is
-- closed by the chunk that fills it.
use mathlib.Core.List.{append_assoc}
use package.text.Mathlib.TextLemmas.{nil-append, append_assoc as text_assoc}
use gemma_vllm_worker.Base.{
  ℕ, ◌+◌, ◌-◌, ◌<◌, ◌≡◌, refl, sym, subst, ap, ◌∙◌, Bool, true, false, List, [], ◌∷◌, ◌++◌, String,
  ◌<>◌, arith, length, inl, inr, is_nil, Bool-cases, length-append,
}
use gemma_vllm_worker.Base.Text.{join}
use gemma_vllm_worker.Base.Events.{Events, done, raise, item, items, IsComplete}
use gemma_vllm_worker.Batch.{Quantity, BatchSize, update, le}
use gemma_vllm_worker.Generate.{Settings}
use gemma_vllm_worker.OpenAi.{
  Serving, Reply, text, docs, Kept, skip, keep, broken, keep_raw, keep_decoded, gather, relay,
  chunk_size, stream_batches,
}

abbrev pub concat : {A : Type 0} → List (List A) → List A
concat [] = []
concat (xs ∷ xss) = xs ++ concat xss

abbrev pub add_kept : {D : Type 0} → Kept D → List D → List D
add_kept skip rest = rest
add_kept (keep d) rest = d ∷ rest
add_kept (broken m) rest = rest

-- What is kept of the chunks of a generator.
abbrev pub kept : {D : Type 0} → (String → Kept D) → Events String → List D
kept f done = []
kept f (raise m) = []
kept f (item c es) = add_kept (f c) (kept f es)

data KeptCases {D : Type 0} (k : Kept D) : Type 0 where
  skipped : k ≡ skip → KeptCases k
  failed : (m : String) → k ≡ broken m → KeptCases k
  kept_one : (d : D) → k ≡ keep d → KeptCases k

kept_cases : {D : Type 0} (k : Kept D) → KeptCases k
kept_cases skip = skipped refl
kept_cases (broken m) = failed m refl
kept_cases (keep d) = kept_one d refl

module _ (q : Quantity) {D : Type 0} (classify : String → Kept D) where
  gather_skip :
      (c : String) (es : Events String) (xs : List D) (n : ℕ) (b : BatchSize q.Num)
      → classify c ≡ skip
      → gather q classify (item c es) xs n b ≡ gather q classify es xs n b
  unfolding gather
  gather_skip c es xs n b e = ground arith

  gather_broken :
      (c m : String) (es : Events String) (xs : List D) (n : ℕ) (b : BatchSize q.Num)
      → classify c ≡ broken m
      → gather q classify (item c es) xs n b ≡ raise m
  unfolding gather
  gather_broken c m es xs n b e = ground arith

  gather_full :
      (c : String) (d : D) (es : Events String) (xs : List D) (n : ℕ) (b : BatchSize q.Num)
      → classify c ≡ keep d
      → le q b.current_batch_size (q.of_count (n + 1)) ≡ true
      → gather q classify (item c es) xs n b
        ≡ item (xs ++ (d ∷ [])) (gather q classify es [] 0 (update q b))
  unfolding gather
  gather_full c d es xs n b e full = ground arith

  gather_more :
      (c : String) (d : D) (es : Events String) (xs : List D) (n : ℕ) (b : BatchSize q.Num)
      → classify c ≡ keep d
      → le q b.current_batch_size (q.of_count (n + 1)) ≡ false
      → gather q classify (item c es) xs n b ≡ gather q classify es (xs ++ (d ∷ [])) (n + 1) b
  unfolding gather
  gather_more c d es xs n b e lacks = ground arith

  abbrev is_full : BatchSize q.Num → ℕ → Bool
  is_full b n = le q b.current_batch_size (q.of_count n)

  -- The batches from the size `b` on.
  abbrev pub IsGrouped : BatchSize q.Num → List (List D) → Type 0
  IsGrouped b [] = Unit
  IsGrouped b (xs ∷ xss) =
      (0 < length xs)
      × (1 < length xs → is_full b (length xs - 1) ≡ false)
      × (is_nil xss ≡ false → is_full b (length xs) ≡ true)
      × IsGrouped (update q b) xss

  -- The batches give back all that is kept, and what was held before.
  abbrev Restores : List D → Events (List D) → Type 0
  Restores ds run = IsComplete run → concat (items run) ≡ ds

  pub concat-gather :
      (es : Events String) (xs : List D) (n : ℕ) (b : BatchSize q.Num)
      → Restores (xs ++ kept classify es) (gather q classify es xs n b)
  unfolding gather
  concat-gather done [] n b = λ c. refl
  concat-gather done (x ∷ xs) n b = λ c. refl
  concat-gather (raise m) xs n b = λ c. absurd c
  concat-gather (item chunk es) xs n b = elim (kept_cases (classify chunk)) [
    | skipped e ↦
        subst (Restores _) (sym (gather_skip chunk es xs n b e)) (rw e (concat-gather es xs n b))
    | failed m e ↦ subst (Restores _) (sym (gather_broken chunk m es xs n b e)) (λ c. absurd c)
    | kept_one d e ↦
        let joined = append_assoc xs (d ∷ []) (kept classify es) in
        elim (Bool-cases (is_full b (n + 1))) [
          | inl full ↦ subst (Restores _) (sym (gather_full chunk d es xs n b e full)) (
              rw e (λ c.
                ap (λ ys. (xs ++ (d ∷ [])) ++ ys) (concat-gather es [] 0 (update q b) c) ∙ joined))
          | inr lacks ↦
              subst (Restores _) (sym (gather_more chunk d es xs n b e lacks))
                (rw e (λ c. concat-gather es (xs ++ (d ∷ [])) (n + 1) b c ∙ joined))
        ]
  ]

  gather-IsGrouped :
      (es : Events String) (xs : List D) (n : ℕ) (b : BatchSize q.Num)
      → length xs ≡ n
      → (0 < n → is_full b n ≡ false)
      → (1 < n → is_full b (n - 1) ≡ false)
      → IsGrouped b (items (gather q classify es xs n b))
  unfolding gather
  gather-IsGrouped done [] n b len h k = tt
  gather-IsGrouped done (x ∷ xs) n b len h k =
      (omega arith, (λ big. rw len (k (omega (arith, len)))), (λ e. ground arith), tt)
  gather-IsGrouped (raise m) xs n b len h k = tt
  gather-IsGrouped (item chunk es) xs n b len h k = elim (kept_cases (classify chunk)) [
    | skipped e ↦
        subst (λ r. IsGrouped b (items r)) (sym (gather_skip chunk es xs n b e))
          (gather-IsGrouped es xs n b len h k)
    | failed m e ↦ subst (λ r. IsGrouped b (items r)) (sym (gather_broken chunk m es xs n b e)) tt
    | kept_one d e ↦
        let len' : length (xs ++ (d ∷ [])) ≡ n + 1 = length-append xs (d ∷ []) ∙ omega arith in
        let pred : n ≡ n + 1 - 1 = omega arith in
        elim (Bool-cases (is_full b (n + 1))) [
          | inl full ↦
              subst (λ r. IsGrouped b (items r)) (sym (gather_full chunk d es xs n b e full))
                (
                  omega arith,
                  (λ big.
                      subst (λ l. is_full b (l - 1) ≡ false) (sym len')
                        (subst (λ l. is_full b l ≡ false) pred (h (omega arith)))),
                  (λ later. subst (λ l. is_full b l ≡ true) (sym len') full),
                  gather-IsGrouped es [] 0 (update q b) refl (λ z. absurd (omega arith))
                      (λ z. absurd (omega arith)),
                )
          | inr lacks ↦
              subst (λ r. IsGrouped b (items r)) (sym (gather_more chunk d es xs n b e lacks))
                (gather-IsGrouped es (xs ++ (d ∷ [])) (n + 1) b len' (λ z. lacks)
                  (λ z. subst (λ l. is_full b l ≡ false) pred (h (omega arith))))
        ]
  ]

  -- Whatever the generator does, no batch is empty, every batch is yielded by the chunk that fills it, so
  -- that one chunk less does not fill it and only the last may be short, and the sizes to reach are those
  -- of the growing `BatchSize`.
  pub gather-IsGrouped_start :
      (es : Events String) (b : BatchSize q.Num) → IsGrouped b (items (gather q classify es [] 0 b))
  gather-IsGrouped_start es b =
      gather-IsGrouped es [] 0 b refl (λ z. absurd (omega arith)) (λ z. absurd (omega arith))

-- The texts among what was yielded, joined.
abbrev pub sent_text : {Doc : Type 0} → List (Reply Doc) → String
sent_text [] = ""
sent_text (text t ∷ rs) = t <> sent_text rs
sent_text (r ∷ rs) = sent_text rs

-- The decoded documents among what was yielded.
abbrev pub sent_docs : {Doc : Type 0} → List (Reply Doc) → List Doc
sent_docs [] = []
sent_docs (docs ds ∷ rs) = ds ++ sent_docs rs
sent_docs (r ∷ rs) = sent_docs rs

IsComplete-relay :
    (A B : Type 0) (f : A → B) (es : Events A) → IsComplete (relay f es) → IsComplete es
IsComplete-relay A B f done c = c
IsComplete-relay A B f (raise m) c = c
IsComplete-relay A B f (item a es) c = IsComplete-relay A B f es c

join-append : (xs ys : List String) → join (xs ++ ys) ≡ join xs <> join ys
join-append [] ys = sym (nil-append _)
join-append (x ∷ xs) ys =
    ap (λ t. x <> t) (join-append xs ys) ∙ sym (text_assoc x (join xs) (join ys))

sent_text-relay :
    (Doc : Type 0) (es : Events (List String))
    → sent_text {Doc = Doc} (items (relay (λ xs. text (join xs)) es)) ≡ join (concat (items es))
sent_text-relay Doc done = refl
sent_text-relay Doc (raise m) = refl
sent_text-relay Doc (item xs es) =
    ap (λ t. join xs <> t) (sent_text-relay Doc es) ∙ sym (join-append xs (concat (items es)))

sent_docs-relay :
    {Doc : Type 0} (es : Events (List Doc)) → sent_docs (items (relay docs es)) ≡ concat (items es)
sent_docs-relay done = refl
sent_docs-relay (raise m) = refl
sent_docs-relay (item xs es) = ap (λ t. xs ++ t) (sent_docs-relay es)

-- With raw output, a stream that ends with no exception sends exactly the chunks that contain "data",
-- joined in order.
pub sent_text-stream_batches :
    (q : Quantity) (v : Serving) (s : Settings q.Num) (es : Events String)
    → IsComplete (stream_batches q v s true es)
    → sent_text (items (stream_batches q v s true es)) ≡ join (kept keep_raw es)
unfolding stream_batches
sent_text-stream_batches q v s es c =
    let run = gather q keep_raw es [] 0 (chunk_size q s) in
    sent_text-relay v.Doc run
    ∙ ap join (
        concat-gather q keep_raw es [] 0 (chunk_size q s)
          (IsComplete-relay (List String) (Reply v.Doc) (λ xs. text (join xs)) run c))

-- Without raw output, a stream that ends with no exception sends exactly the documents decoded from the
-- chunks that contain "data" and not the end marker, in order.
pub sent_docs-stream_batches :
    (q : Quantity) (v : Serving) (s : Settings q.Num) (es : Events String)
    → IsComplete (stream_batches q v s false es)
    → sent_docs (items (stream_batches q v s false es)) ≡ kept (keep_decoded v.loads) es
unfolding stream_batches
sent_docs-stream_batches q v s es c =
    let run = gather q (keep_decoded v.loads) es [] 0 (chunk_size q s) in
    sent_docs-relay run
    ∙ concat-gather q (keep_decoded v.loads) es [] 0 (chunk_size q s)
        (IsComplete-relay (List v.Doc) (Reply v.Doc) docs run c)
