-- ===== src/Generate.antt =====
-- src/engine.py, class `vLLMEngine`: `_generate_vllm`, which gathers the tokens of the vLLM engine in
-- batches, and `generate` around it. The engine's generator (`self.llm.generate`) and the rendering of
-- chat messages (`tokenizer.apply_chat_template`) are third-party code, and so parameters.
pub mod Tokens
pub mod Packing
pub mod Whole
use gemma_vllm_worker.Base.{
  ℕ, zero, suc, ◌+◌, ◌≡◌, Bool, true, false, ◌||◌, Option, none, some, List, [], ◌∷◌, ◌++◌, map,
  String, if◌then◌else◌, get_elem?, set, replicate, get_or, ltb,
}
use gemma_vllm_worker.Base.Text.{drop, text_length}
use gemma_vllm_worker.Base.Events.{Events, done, raise, item, catch, prepend}
use gemma_vllm_worker.Batch.{Quantity, BatchSize, new, update, le, is_truthy}

-- `output` of the vLLM engine: the whole text so far of one response.
pub record Output : Type 0 where
  pub index : ℕ
  pub text : String

-- `request_output`; of the prompt's token ids only their number is used.
pub record RequestOutput : Type 0 where
  pub prompt_tokens : ℕ
  pub outputs : List Output

pub record Usage : Type 0 where
  pub input : ℕ
  pub output : ℕ

-- `{"choices": [{"tokens": […]}, …], "usage": {…}}`
pub record TokenBatch : Type 0 where
  pub choices : List (List String)
  pub usage : Usage

-- What `generate` yields: a batch, or `{"error": …}`.
pub data Reply : Type 0 where
  batch : TokenBatch → Reply
  error : String → Reply

-- The local variables of the loop.
pub record Progress (N : Type 0) : Type 0 where
  pub n_input_tokens : ℕ
  pub is_first_output : Bool
  pub last_output_texts : List String
  pub in_batch : ℕ
  pub total : ℕ
  pub choices : List (List String)
  pub batch_size : BatchSize N

-- The message where a list has no such index: when it is read, or, without streaming, when it is assigned.
abbrev pub index_error : Bool → String
index_error stream =
    if stream then "list index out of range" else "list assignment index out of range"

-- `[{"tokens": []} for _ in range(n_responses)]`
abbrev pub empty_choices : ℕ → List (List String)
empty_choices n = replicate n []

abbrev pub tokens_at : List (List String) → ℕ → List String
tokens_at choices i = get_or (get_elem? choices i) []

-- `batch["choices"][i]["tokens"].append(token)`
abbrev pub append_token : List (List String) → ℕ → String → List (List String)
append_token choices i token = set choices i (tokens_at choices i ++ (token ∷ []))

-- Lines 128 to 131: the prompt's tokens are counted at the first request output.
abbrev pub count_input : {N : Type 0} → RequestOutput → Progress N → Progress N
count_input r p =
    if p.is_first_output
    then record p { n_input_tokens = r.prompt_tokens; is_first_output = false }
    else p

abbrev pub finish : {N : Type 0} → Progress N → TokenBatch
finish p = record {
  choices = p.choices;
  usage = record { input = p.n_input_tokens; output = p.total };
}

module _ (q : Quantity) (stream : Bool) (n_responses : ℕ) where
  -- A token was added to the batch: yield the batch if it is full.
  unfoldable pub flush : Progress q.Num → List TokenBatch × Progress q.Num
  flush p =
      if le q p.batch_size.current_batch_size (q.of_count p.in_batch)
      then (
        finish p ∷ [],
        record p {
          in_batch = 0;
          choices = empty_choices n_responses;
          batch_size = update q p.batch_size;
        },
      )
      else ([], p)

  -- `last_output_texts[output_index] = output.text`
  abbrev pub remember : Output → Progress q.Num → Progress q.Num
  remember o p = record p { last_output_texts = set p.last_output_texts o.index o.text }

  -- One round of the inner loop, at an index that is in range, where `last` is the old text.
  unfoldable pub take_output : Output → String → Progress q.Num → List TokenBatch × Progress q.Num
  unfolding flush
  take_output o last p =
      if stream
      then (let (out, p') = flush (record p {
        total = p.total + 1;
        in_batch = p.in_batch + 1;
        choices = append_token p.choices o.index (drop (text_length last) o.text);
      }) in
          (out, remember o p'))
      else ([], remember o (record p { total = p.total + 1 }))

  -- The inner loop; `k` is what follows it.
  unfoldable pub take_outputs :
      List Output → (Progress q.Num → Events TokenBatch) → Progress q.Num → Events TokenBatch
  take_outputs [] k p = k p
  take_outputs (o ∷ os) k p = elim (get_elem? p.last_output_texts o.index) [
    | none ↦ raise (index_error stream)
    | some last ↦ let (out, p') = take_output o last p in prepend out (take_outputs os k p')
  ]

  -- After the loop: the final texts if nothing was streamed, and the last batch.
  unfoldable pub close : Progress q.Num → Events TokenBatch
  close p =
      let p' = if stream then p else record p {
        choices = map (λ text. text ∷ []) p.last_output_texts;
        in_batch = p.in_batch + 1;
      } in
      if ltb 0 p'.in_batch then item (finish p') done else done

  -- The outer loop over the engine's generator, and what follows it.
  unfoldable pub drive : Events RequestOutput → Progress q.Num → Events TokenBatch
  drive done p = close p
  drive (raise m) p = raise m
  drive (item r es) p = take_outputs r.outputs (drive es) (count_input r p)

-- `self.default_batch_size` and the two other settings of the engine.
pub record Settings (N : Type 0) : Type 0 where
  pub default_batch_size : N
  pub batch_size_growth_factor : N
  pub min_batch_size : N

-- The `job_input` of one call, as far as `generate` reads it.
pub record Request (N : Type 0) : Type 0 where
  pub stream : Bool
  pub n_responses : ℕ
  pub max_batch_size : Option N
  pub batch_size_growth_factor : Option N
  pub min_batch_size : Option N

-- `given or default`
abbrev pub or_default : (q : Quantity) → Option q.Num → q.Num → q.Num
or_default q none d = d
or_default q (some a) d = if is_truthy q a then a else d

abbrev pub start : (q : Quantity) → Settings q.Num → Request q.Num → Progress q.Num
start q s r = record {
  n_input_tokens = 0;
  is_first_output = true;
  last_output_texts = replicate r.n_responses "";
  in_batch = 0;
  total = 0;
  choices = empty_choices r.n_responses;
  batch_size =
      new q (or_default q r.max_batch_size s.default_batch_size)
        (or_default q r.min_batch_size s.min_batch_size)
        (or_default q r.batch_size_growth_factor s.batch_size_growth_factor);
}

-- `_generate_vllm`, from the engine's generator for the rendered prompt.
unfoldable pub generate_vllm :
    (q : Quantity) → Settings q.Num → Request q.Num → Events RequestOutput → Events TokenBatch
unfolding drive close take_outputs take_output
generate_vllm q s r es = drive q r.stream r.n_responses es (start q s r)

abbrev pub replies : Events TokenBatch → Events Reply
replies done = done
replies (raise m) = raise m
replies (item b es) = item (batch b) (replies es)

-- `generate`: an exception becomes a last item.
unfoldable pub generate :
    (q : Quantity) → Settings q.Num → Request q.Num → Events RequestOutput → Events Reply
unfolding generate_vllm
generate q s r es = catch (replies (generate_vllm q s r es)) (λ m. item (error m) done)
