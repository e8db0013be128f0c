-- ===== src/Generate/Packing.antt =====
-- How the streamed batches of `generate_vllm` are filled, and what their usage says.
use gemma_vllm_worker.Base.{
  ℕ, zero, suc, ◌+◌, ◌-◌, ◌<◌, ◌≡◌, refl, sym, subst, ◌∙◌, Bool, true, false, some, List, [], ◌∷◌,
  String, get_elem?, arith, length, inl, inr, ltb, ltb→lt, is_nil, if_false, Bool-cases,
  Option-cases, length-set, length-replicate, length-append,
}
use gemma_vllm_worker.Base.Text.{drop, text_length}
use gemma_vllm_worker.Base.Events.{Events, done, raise, item, items, prepend}
use gemma_vllm_worker.Batch.{Quantity, BatchSize, update, le}
use gemma_vllm_worker.Generate.{
  Output, RequestOutput, TokenBatch, Progress, Settings, Request, append_token, empty_choices,
  take_output, take_outputs, close, drive, start, generate_vllm, count_input,
}

-- The number of tokens in a batch, over all responses.
abbrev pub tokens_in : List (List String) → ℕ
tokens_in [] = 0
tokens_in (c ∷ cs) = length c + tokens_in cs

-- The prompt's tokens by the first request output.
abbrev pub first_prompt : Events RequestOutput → ℕ
first_prompt done = 0
first_prompt (raise m) = 0
first_prompt (item r es) = r.prompt_tokens

-- `n` tokens fill a batch.
abbrev pub is_full : (q : Quantity) → BatchSize q.Num → ℕ → Bool
is_full q b n = le q b.current_batch_size (q.of_count n)

-- The batches of a run from the size `b` on, when `sent` tokens were yielded before.
abbrev pub IsPacked : (q : Quantity) → ℕ → ℕ → BatchSize q.Num → List TokenBatch → Type 0
IsPacked q input sent b [] = Unit
IsPacked q input sent b (x ∷ xs) =
    (0 < tokens_in x.choices)
    × (1 < tokens_in x.choices → is_full q b (tokens_in x.choices - 1) ≡ false)
    × (is_nil xs ≡ false → is_full q b (tokens_in x.choices) ≡ true)
    × (x.usage.output ≡ sent + tokens_in x.choices)
    × (x.usage.input ≡ input)
    × IsPacked q input (sent + tokens_in x.choices) (update q b) xs

tokens_in-append_token :
    (cs : List (List String)) (j : ℕ) (t : String)
    → j < length cs
    → tokens_in (append_token cs j t) ≡ tokens_in cs + 1
tokens_in-append_token [] j t h = elim h [ ]
tokens_in-append_token (c ∷ cs) zero t h = omega (arith, length-append {0} c (t ∷ []))
tokens_in-append_token (c ∷ cs) (suc j) t h =
    let ih = tokens_in-append_token cs j t (omega arith) in omega arith

tokens_in-empty : (n : ℕ) → tokens_in (empty_choices n) ≡ 0
tokens_in-empty zero = refl
tokens_in-empty (suc n) = omega (arith, tokens_in-empty n)

lt-length : {A : Type 0} (xs : List A) (i : ℕ) {a : A} → get_elem? xs i ≡ some a → i < length xs
lt-length [] i h = ground arith
lt-length (x ∷ xs) zero h = omega arith
lt-length (x ∷ xs) (suc i) h = let ih = lt-length xs i h in omega arith

-- The state of the loop once the prompt is counted, when `sent` tokens were yielded.
record IsFilling (q : Quantity) (n input sent : ℕ) (p : Progress q.Num) : Type 0 where
  counted : tokens_in p.choices ≡ p.in_batch
  billed : p.total ≡ sent + p.in_batch
  lacking : 0 < p.in_batch → is_full q p.batch_size p.in_batch ≡ false
  lacked : 1 < p.in_batch → is_full q p.batch_size (p.in_batch - 1) ≡ false
  sized : length p.choices ≡ n
  tracked : length p.last_output_texts ≡ n
  known : p.is_first_output ≡ false
  prompted : p.n_input_tokens ≡ input

module _ (q : Quantity) (n input : ℕ) where
  -- A run from a state yields well packed batches.
  abbrev Packs : ℕ → Progress q.Num → Events TokenBatch → Type 0
  Packs sent p es = IsPacked q input sent p.batch_size (items es)

  take_output-Packs :
      (o : Output) (last : String) (p : Progress q.Num) (sent : ℕ)
      (k : Progress q.Num → Events TokenBatch)
      → get_elem? p.last_output_texts o.index ≡ some last
      → ((sent' : ℕ) (p' : Progress q.Num) → IsFilling q n input sent' p' → Packs sent' p' (k p'))
      → IsFilling q n input sent p
      → Packs sent p
          (prepend (take_output q true n o last p).0 (k (take_output q true n o last p).1))
  unfolding take_output
  take_output-Packs o last p sent k found ok h =
      let token = drop (text_length last) o.text in
      let within = lt-length p.last_output_texts o.index found in
      let more =
        tokens_in-append_token p.choices o.index token (omega (arith, h.sized, h.tracked)) in
      let all : tokens_in (append_token p.choices o.index token) ≡ p.in_batch + 1 =
        omega (arith, h.counted) in
      let texts = length-set p.last_output_texts o.index o.text ∙ h.tracked in
      elim (Bool-cases (is_full q p.batch_size (p.in_batch + 1))) [
        | inl full ↦ rw full (
          omega arith,
          (λ big.
              subst (λ m. is_full q p.batch_size m ≡ false)
                (let e : p.in_batch ≡ tokens_in (append_token p.choices o.index token) - 1 =
                    omega arith in
                  e)
                (h.lacking (omega arith))),
          (λ later. subst (λ m. is_full q p.batch_size m ≡ true) (sym all) full),
          omega (arith, h.billed),
          h.prompted,
          ok _ _ (record {
            counted = tokens_in-empty n;
            billed = omega (arith, h.billed);
            lacking = λ z. absurd (omega arith);
            lacked = λ z. absurd (omega arith);
            sized = length-replicate n [];
            tracked = texts;
            known = h.known;
            prompted = h.prompted;
          }),
        )
        | inr lacks ↦ rw lacks (
            ok _ _ (record {
              counted = all;
              billed = omega (arith, h.billed);
              lacking = λ z. lacks;
              lacked = λ z.
                  subst (λ m. is_full q p.batch_size m ≡ false)
                    (let e : p.in_batch ≡ p.in_batch + 1 - 1 = omega arith in e)
                    (h.lacking (omega arith));
              sized = length-set p.choices o.index _ ∙ h.sized;
              tracked = texts;
              known = h.known;
              prompted = h.prompted;
            }))
      ]

  take_outputs-Packs :
      (k : Progress q.Num → Events TokenBatch)
      → ((sent' : ℕ) (p' : Progress q.Num) → IsFilling q n input sent' p' → Packs sent' p' (k p'))
      → (os : List Output) (sent : ℕ) (p : Progress q.Num) → IsFilling q n input sent p
      → Packs sent p (take_outputs q true n os k p)
  unfolding take_outputs
  take_outputs-Packs k ok [] sent p h = ok sent p h
  take_outputs-Packs k ok (o ∷ os) sent p h =
      elim (Option-cases (get_elem? p.last_output_texts o.index)) [
        | inl missing ↦ rw (missing, take_outputs) tt
        | inr (last, found) ↦
            rw (found, take_outputs)
              (take_output-Packs o last p sent (take_outputs q true n os k) found
                (take_outputs-Packs k ok os) h)
      ]

  close-Packs :
      (p : Progress q.Num) (sent : ℕ) → IsFilling q n input sent p → Packs sent p (close q true n p)
  unfolding close
  close-Packs p sent h = elim (Bool-cases (ltb 0 p.in_batch)) [
    | inl some_left ↦ rw some_left (
      omega (arith, h.counted, ltb→lt 0 p.in_batch some_left),
      (λ big.
          subst (λ m. is_full q p.batch_size (m - 1) ≡ false) (sym h.counted)
            (h.lacked (omega (arith, h.counted)))),
      (λ more. ground arith),
      omega (arith, h.billed, h.counted),
      h.prompted,
      tt,
    )
    | inr none_left ↦ rw none_left tt
  ]

  drive-Packs :
      (es : Events RequestOutput) (sent : ℕ) (p : Progress q.Num)
      → IsFilling q n input sent p
      → Packs sent p (drive q true n es p)
  unfolding drive
  drive-Packs done sent p h = close-Packs p sent h
  drive-Packs (raise m) sent p h = tt
  drive-Packs (item r es) sent p h =
      subst (λ p'. Packs sent p (take_outputs q true n r.outputs (drive q true n es) p'))
        (sym (if_false p.is_first_output _ p h.known))
        (take_outputs-Packs (drive q true n es) (drive-Packs es) r.outputs sent p h)

-- With streaming on, whatever the engine does: no batch is empty; every batch is yielded by the token
-- that fills it, so that one token less does not fill it and only the last may be short; the sizes are
-- those of the growing `BatchSize`; and a batch's usage gives the number of tokens yielded up to and
-- with it, and the length of the prompt that the first output reports.
pub generate_vllm-IsPacked :
    (q : Quantity) (s : Settings q.Num) (r : Request q.Num) (es : Events RequestOutput)
    → r.stream ≡ true
    → IsPacked q (first_prompt es) 0 (start q s r).batch_size (items (generate_vllm q s r es))
unfolding generate_vllm drive close
generate_vllm-IsPacked q s r done on =
    subst
      (λ b. IsPacked q 0 0 (start q s r).batch_size (items (close q b r.n_responses (start q s r))))
      (sym on) tt
generate_vllm-IsPacked q s r (raise m) on = tt
generate_vllm-IsPacked q s r (item o es) on =
    let n = r.n_responses in
    let p = count_input o (start q s r) in
    subst
      (λ b.
        IsPacked q o.prompt_tokens 0 (start q s r).batch_size
          (items (take_outputs q b n o.outputs (drive q b n es) p)))
      (sym on)
      (take_outputs-Packs q n o.prompt_tokens (drive q true n es)
        (drive-Packs q n o.prompt_tokens es) o.outputs 0 p
        (record {
          counted = tokens_in-empty n;
          billed = omega arith;
          lacking = λ z. absurd (omega arith);
          lacked = λ z. absurd (omega arith);
          sized = length-replicate n [];
          tracked = length-replicate n "";
          known = refl;
          prompted = refl;
        }))
