-- ===== src/Generate/Whole.antt =====
-- Runs of `generate_vllm` that end well: when they do, and the one batch of a request that does not stream.
use gemma_vllm_worker.Base.{
  ℕ, zero, suc, ◌+◌, ◌<◌, ◌≡◌, refl, sym, subst, ap, ◌∙◌, Bool, true, false, some, List, [], ◌∷◌,
  map, String, if◌then◌else◌, get_elem?, set, arith, length, All, nat_comparable, length-set,
  length-replicate,
}
use gemma_vllm_worker.Base.Events.{Events, done, raise, item, prepend, IsComplete}
use gemma_vllm_worker.Batch.{Quantity}
use gemma_vllm_worker.Generate.{
  Output, RequestOutput, TokenBatch, Progress, Settings, Request, tokens_at, take_output,
  take_outputs, close, drive, start, generate_vllm, count_input, finish, remember,
}
use gemma_vllm_worker.Generate.Tokens.{text_at, text_after, final_text, text_at-set, text_at-empty}
use gemma_vllm_worker.Generate.Packing.{first_prompt}

-- Every output is of one of the `n` responses that were asked for.
abbrev pub IsInRange : ℕ → Events RequestOutput → Type 0
IsInRange n done = Unit
IsInRange n (raise m) = Unit
IsInRange n (item r es) = All (λ (o : Output). o.index < n) r.outputs × IsInRange n es

-- The number of outputs of all responses.
abbrev pub output_count : Events RequestOutput → ℕ
output_count done = 0
output_count (raise m) = 0
output_count (item r es) = length r.outputs + output_count es

at-length : {A : Type 0} (xs : List A) (i : ℕ) → i < length xs → (a : A) × (get_elem? xs i ≡ some a)
at-length [] i h = absurd (omega arith)
at-length (x ∷ xs) zero h = (x, refl)
at-length (x ∷ xs) (suc i) h = at-length xs i (omega arith)

module _ (q : Quantity) (stream : Bool) (n : ℕ) where
  take_output_tracked :
      (o : Output) (last : String) (p : Progress q.Num)
      → (take_output q stream n o last p).1.last_output_texts
        ≡ set p.last_output_texts o.index o.text
  unfolding take_output
  take_output_tracked o last p = ground arith

  prepend-IsComplete :
      (xs : List TokenBatch) (es : Events TokenBatch) → IsComplete es → IsComplete (prepend xs es)
  prepend-IsComplete [] es h = h
  prepend-IsComplete (x ∷ xs) es h = prepend-IsComplete xs es h

  take_outputs-IsComplete :
      (k : Progress q.Num → Events TokenBatch)
      → ((p : Progress q.Num) → length p.last_output_texts ≡ n → IsComplete (k p))
      → (os : List Output) (p : Progress q.Num) → All (λ (o : Output). o.index < n) os
      → length p.last_output_texts ≡ n
      → IsComplete (take_outputs q stream n os k p)
  unfolding take_outputs
  take_outputs-IsComplete k ok [] p h len = ok p len
  take_outputs-IsComplete k ok (o ∷ os) p (here, h) len =
      let (last, found) = at-length p.last_output_texts o.index (omega arith) in
      rw (found, take_outputs)
        (prepend-IsComplete (take_output q stream n o last p).0 _ (
          take_outputs-IsComplete k ok os (take_output q stream n o last p).1 h
            (rw take_output_tracked (length-set p.last_output_texts o.index o.text ∙ len))))

  close-IsComplete : (p : Progress q.Num) → IsComplete (close q stream n p)
  unfolding close
  close-IsComplete p = ground arith

  drive-IsComplete :
      (es : Events RequestOutput) (p : Progress q.Num)
      → IsComplete es
      → IsInRange n es
      → length p.last_output_texts ≡ n
      → IsComplete (drive q stream n es p)
  unfolding drive
  drive-IsComplete done p e h len = close-IsComplete p
  drive-IsComplete (item r es) p e (here, h) len =
      take_outputs-IsComplete (drive q stream n es) (λ p' len'. drive-IsComplete es p' e h len')
        r.outputs (count_input r p) here (counted p.is_first_output refl)
    where
      counted : (b : Bool) → p.is_first_output ≡ b → length (count_input r p).last_output_texts ≡ n
      counted b h = ground arith
  drive-IsComplete (raise m) p e h len = e

-- If the engine's generator returns and reports only responses that were asked for, so does
-- `generate_vllm`, in either mode: no exception is raised.
pub generate_vllm-IsComplete :
    (q : Quantity) (s : Settings q.Num) (r : Request q.Num) (es : Events RequestOutput)
    → IsComplete es
    → IsInRange r.n_responses es
    → IsComplete (generate_vllm q s r es)
unfolding generate_vllm
generate_vllm-IsComplete q s r es e h =
    drive-IsComplete q r.stream r.n_responses es (start q s r) e h
      (length-replicate r.n_responses "")

module _ (q : Quantity) (n : ℕ) where
  -- What the outputs do to the state where nothing is streamed.
  note : List Output → Progress q.Num → Progress q.Num
  note [] p = p
  note (o ∷ os) p = note os (remember q false n o (record p { total = p.total + 1 }))

  take_outputs_whole :
      (k : Progress q.Num → Events TokenBatch) (os : List Output) (p : Progress q.Num)
      → All (λ (o : Output). o.index < n) os
      → length p.last_output_texts ≡ n
      → take_outputs q false n os k p ≡ k (note os p)
  unfolding take_outputs note take_output
  take_outputs_whole k [] p h len = refl
  take_outputs_whole k (o ∷ os) p (here, h) len =
      let (last, found) = at-length p.last_output_texts o.index (omega arith) in
      rw (found, take_outputs)
        (take_outputs_whole k os _ h (length-set p.last_output_texts o.index o.text ∙ len))

  note_lem :
      (os : List Output) (p : Progress q.Num)
      → All (λ (o : Output). o.index < n) os
      → length p.last_output_texts ≡ n
      → ((i : ℕ)
          → text_at (note os p).last_output_texts i
            ≡ text_after i os (text_at p.last_output_texts i))
        × (length (note os p).last_output_texts ≡ n)
        × ((note os p).total ≡ p.total + length os)
        × ((note os p).n_input_tokens ≡ p.n_input_tokens)
        × ((note os p).is_first_output ≡ p.is_first_output)
        × ((note os p).in_batch ≡ p.in_batch)
  unfolding note
  note_lem [] p h len = ((λ i. refl), len, omega arith, refl, refl, refl)
  note_lem (o ∷ os) p (here, h) len =
      let (last, found) = at-length p.last_output_texts o.index (omega arith) in
      let (a, b, c, d, e, f) =
        note_lem os (remember q false n o (record p { total = p.total + 1 })) h
          (length-set p.last_output_texts o.index o.text ∙ len) in
      (
        (λ i.
            a i
            ∙ ap (text_after i os) (text_at-set p.last_output_texts o.index i last o.text found)),
        b,
        omega (arith, c),
        d,
        e,
        f,
      )

  -- The state when the engine's generator returned.
  finally : Events RequestOutput → Progress q.Num → Progress q.Num
  finally done p = p
  finally (raise m) p = p
  finally (item r es) p = finally es (note r.outputs (count_input r p))

  count_input_whole :
      (r : RequestOutput) (p : Progress q.Num)
      → ((count_input r p).last_output_texts ≡ p.last_output_texts)
        × ((count_input r p).total ≡ p.total)
        × ((count_input r p).in_batch ≡ p.in_batch)
        × ((count_input r p).is_first_output ≡ false)
        × ((count_input r p).n_input_tokens
            ≡ (if p.is_first_output then r.prompt_tokens else p.n_input_tokens))
  count_input_whole r p = ground arith

  drive_whole :
      (es : Events RequestOutput) (p : Progress q.Num)
      → IsComplete es
      → IsInRange n es
      → length p.last_output_texts ≡ n
      → drive q false n es p ≡ close q false n (finally es p)
  unfolding drive finally
  drive_whole done p e h len = refl
  drive_whole (raise m) p e h len = absurd e
  drive_whole (item r es) p e (here, h) len =
      let start_len = ap length (count_input_whole r p).0 ∙ len in
      take_outputs_whole (drive q false n es) r.outputs (count_input r p) here start_len
      ∙ drive_whole es _ e h (note_lem r.outputs (count_input r p) here start_len).1

  finally_lem :
      (es : Events RequestOutput) (p : Progress q.Num)
      → IsComplete es
      → IsInRange n es
      → length p.last_output_texts ≡ n
      → ((i : ℕ)
          → text_at (finally es p).last_output_texts i
            ≡ final_text i es (text_at p.last_output_texts i))
        × (length (finally es p).last_output_texts ≡ n)
        × ((finally es p).total ≡ p.total + output_count es)
        × ((finally es p).in_batch ≡ p.in_batch)
        × (p.is_first_output ≡ false → (finally es p).n_input_tokens ≡ p.n_input_tokens)
  unfolding finally
  finally_lem done p e h len = ((λ i. refl), len, omega arith, refl, (λ z. refl))
  finally_lem (raise m) p e h len = absurd e
  finally_lem (item r es) p e (here, h) len =
      let (texts, total, in_batch, first, input) = count_input_whole r p in
      let (a, b, c, d, f, g) = note_lem r.outputs (count_input r p) here (ap length texts ∙ len) in
      let (a', b', c', d', e') = finally_lem es (note r.outputs (count_input r p)) e h b in
      (
        (λ i.
            a' i
            ∙ ap (final_text i es) (a i ∙ ap (λ ts. text_after i r.outputs (text_at ts i)) texts)),
        b',
        omega (arith, c', c, total),
        d' ∙ g ∙ in_batch,
        (λ z. e' (f ∙ first) ∙ d ∙ input ∙ ground arith),
      )

  finally_prompt :
      (es : Events RequestOutput) (p : Progress q.Num)
      → IsComplete es
      → IsInRange n es
      → length p.last_output_texts ≡ n
      → p.is_first_output ≡ true
      → p.n_input_tokens ≡ 0
      → (finally es p).n_input_tokens ≡ first_prompt es
  unfolding finally
  finally_prompt done p e h len first none_yet = none_yet
  finally_prompt (raise m) p e h len first none_yet = absurd e
  finally_prompt (item r es) p e (here, h) len first none_yet =
      let (texts, total, in_batch, counted, input) = count_input_whole r p in
      let (a, b, c, d, f, g) = note_lem r.outputs (count_input r p) here (ap length texts ∙ len) in
      (finally_lem es (note r.outputs (count_input r p)) e h b).4 (f ∙ counted)
      ∙ d
      ∙ input
      ∙ ground arith

  close_whole :
      (p : Progress q.Num)
      → close q false n p
        ≡ item
            (finish (record p {
              choices = map (λ text. text ∷ []) p.last_output_texts;
              in_batch = p.in_batch + 1;
            }))
            done
  unfolding close
  close_whole p = ground arith

  tokens_at-map :
      (ts : List String) (i : ℕ)
      → i < length ts
      → tokens_at (map (λ text. text ∷ []) ts) i ≡ text_at ts i ∷ []
  tokens_at-map [] i h = absurd (omega arith)
  tokens_at-map (t ∷ ts) zero h = refl
  tokens_at-map (t ∷ ts) (suc i) h = tokens_at-map ts i (omega arith)

  length-map_tokens :
      (ts : List String) → length (map (λ (text : String). text ∷ []) ts) ≡ length ts
  length-map_tokens [] = refl
  length-map_tokens (t ∷ ts) = ap suc (length-map_tokens ts)

-- The one batch of a request that does not stream.
pub record IsWhole (n : ℕ) (es : Events RequestOutput) (b : TokenBatch) : Type 0 where
  pub responses : length b.choices ≡ n
  pub texts : (i : ℕ) → i < n → tokens_at b.choices i ≡ final_text i es "" ∷ []
  pub output : b.usage.output ≡ output_count es
  pub input : b.usage.input ≡ first_prompt es

-- Without streaming, if the engine's generator returns and reports only responses that were asked for,
-- exactly one batch is yielded, with one text for each response, that of its last output, and with the
-- number of outputs and the prompt's length as its usage.
pub generate_vllm-IsWhole :
    (q : Quantity) (s : Settings q.Num) (r : Request q.Num) (es : Events RequestOutput)
    → r.stream ≡ false
    → IsComplete es
    → IsInRange r.n_responses es
    → (b : TokenBatch) × (generate_vllm q s r es ≡ item b done) × IsWhole r.n_responses es b
unfolding generate_vllm
generate_vllm-IsWhole q s r es off e h =
    let n = r.n_responses in
    let p = start q s r in
    let p' = finally q n es p in
    let (texts, len, total, in_batch, input) = finally_lem q n es p e h (length-replicate n "") in
    (
      finish (record p' {
        choices = map (λ text. text ∷ []) p'.last_output_texts;
        in_batch = p'.in_batch + 1;
      }),
      (subst (λ b. drive q b n es p ≡ close q false n p') (sym off)
            (drive_whole q n es p e h (length-replicate n "")))
          ∙ close_whole q n p',
      record {
        responses = length-map_tokens q n p'.last_output_texts ∙ len;
        texts = λ i within.
            tokens_at-map q n p'.last_output_texts i (omega (arith, len))
            ∙ ap (λ t. t ∷ []) (texts i ∙ ap (final_text i es) (text_at-empty n i));
        output = omega (arith, total);
        input = finally_prompt q n es p e h (length-replicate n "") refl refl;
      },
    )
