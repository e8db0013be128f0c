-- ===== src/Generate/Tokens.antt =====
-- What the streamed batches of `generate_vllm` hold: every response's text, in order, with nothing lost
-- or sent twice.
use text.Mathlib.TextLemmas.{nil-append, append-nil, append_assoc}
use gemma_vllm_worker.Base.{
  ℕ, zero, suc, ◌+◌, ◌<◌, ◌≡◌, refl, sym, subst, ap, ◌∙◌, Bool, true, false, some, List, [], ◌∷◌,
  ◌++◌, String, ◌<>◌, if◌then◌else◌, get_elem?, set, replicate, get_or, arith, length, ◌==◌,
  nat_comparable, inl, inr, ltb, Bool-cases, Option-cases, length-set, length-replicate,
}
use gemma_vllm_worker.Base.Text.{drop, text_length, join}
use gemma_vllm_worker.Base.Text.Laws.{drop-append, join-append_one}
use gemma_vllm_worker.Base.Events.{
  Events, done, raise, item, items, IsComplete, prepend, items-prepend,
}
use gemma_vllm_worker.Batch.{Quantity, le}
use gemma_vllm_worker.Generate.{
  Output, RequestOutput, TokenBatch, Progress, Settings, Request, tokens_at, append_token,
  empty_choices, flush, take_output, take_outputs, close, drive, start, generate_vllm, count_input,
}

-- All that was yielded of one response.
abbrev pub yielded : ℕ → List TokenBatch → String
yielded i [] = ""
yielded i (b ∷ bs) = join (tokens_at b.choices i) <> yielded i bs

abbrev pub text_at : List String → ℕ → String
text_at texts i = get_or (get_elem? texts i) ""

-- The text of the last output of a response, or the one before if there is none.
abbrev pub text_after : ℕ → List Output → String → String
text_after i [] old = old
text_after i (o ∷ os) old = text_after i os (if o.index == i then o.text else old)

abbrev pub final_text : ℕ → Events RequestOutput → String → String
final_text i done old = old
final_text i (raise m) old = old
final_text i (item r es) old = final_text i es (text_after i r.outputs old)

-- Every output's text extends the one before of the same response, as vLLM's cumulative outputs do.
abbrev pub Extends : List Output → (List String → Type 0) → List String → Type 0
Extends [] K texts = K texts
Extends (o ∷ os) K texts =
    ((t : String) × (text_at texts o.index <> t ≡ o.text)) × Extends os K (set texts o.index o.text)

abbrev pub IsCumulative : Events RequestOutput → List String → Type 0
IsCumulative done texts = Unit
IsCumulative (raise m) texts = Unit
IsCumulative (item r es) texts = Extends r.outputs (IsCumulative es) texts

pub text_at-set :
    (texts : List String) (j i : ℕ) (last v : String)
    → get_elem? texts j ≡ some last
    → text_at (set texts j v) i ≡ (if j == i then v else text_at texts i)
text_at-set [] j i last v h = ground arith
text_at-set (t ∷ texts) zero zero last v h = ground arith
text_at-set (t ∷ texts) zero (suc i) last v h = ground arith
text_at-set (t ∷ texts) (suc j) zero last v h = ground arith
text_at-set (t ∷ texts) (suc j) (suc i) last v h = text_at-set texts j i last v h ∙ ground arith

tokens_at-append_token :
    (cs : List (List String)) (j i : ℕ) (t : String)
    → j < length cs
    → join (tokens_at (append_token cs j t) i)
      ≡ (if j == i then join (tokens_at cs i) <> t else join (tokens_at cs i))
tokens_at-append_token [] j i t h = elim h [ ]
tokens_at-append_token (c ∷ cs) zero zero t h = join-append_one c t
tokens_at-append_token (c ∷ cs) zero (suc i) t h = ground arith
tokens_at-append_token (c ∷ cs) (suc j) zero t h = ground arith
tokens_at-append_token (c ∷ cs) (suc j) (suc i) t h =
    tokens_at-append_token cs j i t (ground arith) ∙ ground arith

tokens_at-empty : (n i : ℕ) → tokens_at (empty_choices n) i ≡ []
tokens_at-empty zero i = refl
tokens_at-empty (suc n) zero = refl
tokens_at-empty (suc n) (suc i) = tokens_at-empty n i

pub text_at-empty : (n i : ℕ) → text_at (replicate n "") i ≡ ""
text_at-empty zero i = refl
text_at-empty (suc n) zero = refl
text_at-empty (suc n) (suc i) = text_at-empty n i

lt-length : {A : Type 0} (xs : List A) (i : ℕ) {a : A} → get_elem? xs i ≡ some a → i < length xs
lt-length [] i h = ground arith
lt-length (x ∷ xs) zero h = omega arith
lt-length (x ∷ xs) (suc i) h = let ih = lt-length xs i h in omega arith

-- The state of the loop, for one response `i` of which `sent` was yielded.
record IsFollowed {N : Type 0} (n i : ℕ) (sent : String) (p : Progress N) : Type 0 where
  in_step : sent <> join (tokens_at p.choices i) ≡ text_at p.last_output_texts i
  sized : length p.choices ≡ n
  tracked : length p.last_output_texts ≡ n
  pending : p.in_batch ≡ 0 → tokens_at p.choices i ≡ []

extend :
    (sent pend t last text now : String) (b : Bool)
    → sent <> pend ≡ now
    → (b ≡ true → last ≡ now)
    → last <> t ≡ text
    → sent <> (if b then pend <> t else pend) ≡ (if b then text else now)
extend sent pend t last text now true h k e =
    sym (append_assoc sent pend t) ∙ ap (λ s. s <> t) (h ∙ sym (k refl)) ∙ e
extend sent pend t last text now false h k e = h

last_at :
    (texts : List String) (j i : ℕ) (last : String)
    → get_elem? texts j ≡ some last
    → (j == i) ≡ true
    → last ≡ text_at texts i
last_at texts j i last h e = let same : j ≡ i = ground arith in rw (← same) (rw h)

module _ (q : Quantity) (n i : ℕ) where
  abbrev take : Output → String → Progress q.Num → List TokenBatch × Progress q.Num
  take = take_output q true n

  -- What `flush` leaves of a state whose last text is not yet written.
  flush_lem :
      (p : Progress q.Num) (sent text : String)
      → sent <> join (tokens_at p.choices i) ≡ text
      → length p.choices ≡ n
      → 0 < p.in_batch
      → let (out, p') = flush q true n p in
        ((sent <> yielded i out) <> join (tokens_at p'.choices i) ≡ text)
        × (length p'.choices ≡ n)
        × (p'.in_batch ≡ 0 → tokens_at p'.choices i ≡ [])
        × (p'.last_output_texts ≡ p.last_output_texts)
  unfolding flush
  flush_lem p sent text h len pos =
      elim (Bool-cases (le q p.batch_size.current_batch_size (q.of_count p.in_batch))) [
        | inl full ↦ rw full (
          rw (tokens_at-empty n i) (append-nil _ ∙ ap (λ s. sent <> s) (append-nil _) ∙ h),
          length-replicate n [],
          (λ z. tokens_at-empty n i),
          refl,
        )
        | inr more ↦ rw more (rw (append-nil sent) h, len, (λ z. absurd (omega arith)), refl)
      ]

  take_output-IsFollowed :
      (o : Output) (last sent : String) (p : Progress q.Num)
      → get_elem? p.last_output_texts o.index ≡ some last
      → (t : String) × (last <> t ≡ o.text)
      → IsFollowed n i sent p
      → IsFollowed n i (sent <> yielded i (take o last p).0) (take o last p).1
  unfolding take_output
  take_output-IsFollowed o last sent p found (t, e) h =
      let rest : drop (text_length last) o.text ≡ t =
        ap (λ s. drop (text_length last) s) (sym e) ∙ drop-append last t in
      let within = lt-length p.last_output_texts o.index found in
      let (a, b, c, d) =
        flush_lem
          (record p {
            total = p.total + 1;
            in_batch = p.in_batch + 1;
            choices = append_token p.choices o.index (drop (text_length last) o.text);
          })
          sent (if o.index == i then o.text else text_at p.last_output_texts i)
          (rw
            (tokens_at-append_token p.choices o.index i _ (omega (arith, h.sized, h.tracked)), rest)
            (extend sent _ t last o.text _ (o.index == i) h.in_step
              (last_at p.last_output_texts o.index i last found) e))
          (length-set p.choices o.index _ ∙ h.sized) (omega arith) in
      record {
        in_step = a ∙ sym (rw d (text_at-set p.last_output_texts o.index i last o.text found));
        sized = b;
        tracked = rw d (length-set p.last_output_texts o.index o.text ∙ h.tracked);
        pending = c;
      }

  take_output_texts :
      (o : Output) (last : String) (p : Progress q.Num)
      → (take o last p).1.last_output_texts ≡ set p.last_output_texts o.index o.text
  unfolding take_output
  take_output_texts o last p = ground arith

  count_input_lem :
      (r : RequestOutput) (p : Progress q.Num) (sent : String)
      → IsFollowed n i sent p
      → ((count_input r p).last_output_texts ≡ p.last_output_texts)
        × IsFollowed n i sent (count_input r p)
  count_input_lem r p sent h = elim (Bool-cases p.is_first_output) [
    | inl first ↦ rw first (
      refl,
      record { in_step = h.in_step; sized = h.sized; tracked = h.tracked; pending = h.pending },
    )
    | inr later ↦ rw later (
      refl,
      record { in_step = h.in_step; sized = h.sized; tracked = h.tracked; pending = h.pending },
    )
  ]

  yielded-append : (bs cs : List TokenBatch) → yielded i (bs ++ cs) ≡ yielded i bs <> yielded i cs
  yielded-append [] cs = sym (nil-append _)
  yielded-append (b ∷ bs) cs =
      ap (λ s. join (tokens_at b.choices i) <> s) (yielded-append bs cs)
      ∙ sym (append_assoc _ (yielded i bs) (yielded i cs))

  -- The batches that a complete rest of the run yields carry on to the text `goal`.
  abbrev Delivers : String → String → Events TokenBatch → Type 0
  Delivers sent goal es = IsComplete es → sent <> yielded i (items es) ≡ goal

  IsComplete-prepend :
      (out : List TokenBatch) (es : Events TokenBatch) → IsComplete (prepend out es) → IsComplete es
  IsComplete-prepend [] es h = h
  IsComplete-prepend (b ∷ out) es h = IsComplete-prepend out es h

  prepend-Delivers :
      (sent goal : String) (out : List TokenBatch) (es : Events TokenBatch)
      → Delivers (sent <> yielded i out) goal es
      → Delivers sent goal (prepend out es)
  prepend-Delivers sent goal out es h c =
      ap (λ bs. sent <> yielded i bs) (items-prepend out es)
      ∙ ap (λ s. sent <> s) (yielded-append out (items es))
      ∙ sym (append_assoc sent (yielded i out) (yielded i (items es)))
      ∙ h (IsComplete-prepend out es c)

  take_outputs-Delivers :
      (F : String → String) (C : List String → Type 0) (k : Progress q.Num → Events TokenBatch)
      → ((p : Progress q.Num) (sent : String)
          → IsFollowed n i sent p
          → C p.last_output_texts
          → Delivers sent (F (text_at p.last_output_texts i)) (k p))
      → (os : List Output) (p : Progress q.Num) (sent : String) → IsFollowed n i sent p
      → Extends os C p.last_output_texts
      → Delivers sent
          (F (text_after i os (text_at p.last_output_texts i)))
          (take_outputs q true n os k p)
  unfolding take_outputs
  take_outputs-Delivers F C k ok [] p sent h c = ok p sent h c
  take_outputs-Delivers F C k ok (o ∷ os) p sent h (grown, c) =
      elim (Option-cases (get_elem? p.last_output_texts o.index)) [
        | inl missing ↦ rw (missing, take_outputs) (λ e. absurd e)
        | inr (last, found) ↦
            let texts = take_output_texts o last p in
            let old : text_at p.last_output_texts o.index ≡ last = rw found in
            let same = text_at-set p.last_output_texts o.index i last o.text found in
            rw (found, take_outputs)
              (prepend-Delivers sent _ (take o last p).0 _ (
                subst
                  (λ t.
                    Delivers (sent <> yielded i (take o last p).0) (F (text_after i os t))
                      (take_outputs q true n os k (take o last p).1))
                  (ap (λ ts. text_at ts i) texts ∙ same)
                  (take_outputs-Delivers F C k ok os (take o last p).1
                    (sent <> yielded i (take o last p).0)
                    (take_output-IsFollowed o last sent p found
                      (grown.0, ap (λ s. s <> grown.0) (sym old) ∙ grown.1) h)
                    (subst (Extends os C) (sym texts) c))))
      ]

  close-Delivers :
      (p : Progress q.Num) (sent : String)
      → IsFollowed n i sent p
      → Delivers sent (text_at p.last_output_texts i) (close q true n p)
  unfolding close
  close-Delivers p sent h c = elim (Bool-cases (ltb 0 p.in_batch)) [
    | inl some_left ↦ rw some_left (ap (λ s. sent <> s) (append-nil _) ∙ h.in_step)
    | inr none_left ↦
        rw none_left (ap (λ ts. sent <> join ts) (sym (h.pending (ground arith))) ∙ h.in_step)
  ]

  drive-Delivers :
      (es : Events RequestOutput) (p : Progress q.Num) (sent : String)
      → IsFollowed n i sent p
      → IsCumulative es p.last_output_texts
      → Delivers sent (final_text i es (text_at p.last_output_texts i)) (drive q true n es p)
  unfolding drive
  drive-Delivers done p sent h c = close-Delivers p sent h
  drive-Delivers (raise m) p sent h c = λ e. absurd e
  drive-Delivers (item r es) p sent h c =
      let (texts, followed) = count_input_lem r p sent h in
      subst
        (λ ts.
          Delivers sent (final_text i es (text_after i r.outputs (text_at ts i)))
            (take_outputs q true n r.outputs (drive q true n es) (count_input r p)))
        texts
        (take_outputs-Delivers (final_text i es) (IsCumulative es) (drive q true n es)
          (drive-Delivers es) r.outputs (count_input r p) sent followed
          (subst (Extends r.outputs (IsCumulative es)) (sym texts) c))

  start-IsFollowed :
      (s : Settings q.Num) (r : Request q.Num) → r.n_responses ≡ n → IsFollowed n i "" (start q s r)
  start-IsFollowed s r e = rw e (record {
    in_step = rw (tokens_at-empty n i, text_at-empty n i) (append-nil "");
    sized = length-replicate n [];
    tracked = length-replicate n "";
    pending = λ z. tokens_at-empty n i;
  })

-- With streaming on and outputs of which each extends the text before it of the same response, a run
-- that ends with no exception yields exactly the final text of every response: its tokens, joined over
-- all batches in order, are the text of its last output.
pub yielded-generate_vllm :
    (q : Quantity) (s : Settings q.Num) (r : Request q.Num) (es : Events RequestOutput) (i : ℕ)
    → r.stream ≡ true
    → IsCumulative es (replicate r.n_responses "")
    → IsComplete (generate_vllm q s r es)
    → yielded i (items (generate_vllm q s r es)) ≡ final_text i es ""
unfolding generate_vllm
yielded-generate_vllm q s r es i on c e =
    let n = r.n_responses in
    let goal = final_text i es (text_at (replicate n "") i) in
    sym (nil-append _)
    ∙ subst (λ b. Delivers q n i "" goal (drive q b n es (start q s r))) (sym on)
        (drive-Delivers q n i es (start q s r) "" (start-IsFollowed q n i s r refl) c) e
    ∙ ap (final_text i es) (text_at-empty n i)
