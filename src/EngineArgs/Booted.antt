-- ===== src/EngineArgs/Booted.antt =====
-- From the boot of the model to the arguments of its engine: the file that the one writes is read by the
-- other.
use gemma_vllm_worker.Base.{
  ◌≡◌, refl, sym, ap, ◌∙◌, Bool, true, false, Option, none, some, List, [], ◌∷◌, String,
  if◌then◌else◌, is_some, ◌==◌, string_comparable, arith,
}
use gemma_vllm_worker.Base.Text.{lower, underscores}
use gemma_vllm_worker.Base.Dict.{Dict, lookup}
use gemma_vllm_worker.Base.Dict.Layers.{or_some-none, or_some, NodupKeys}
use gemma_vllm_worker.Base.Value.{Value, str, dict, fields_of, entries-fields_of, is_sentinel}
use gemma_vllm_worker.Download.{Hub, Fetch}
use gemma_vllm_worker.Model.{
  Disk, Codec, local_args_path, model_args_path, metadata, given, keep_if, or_none, ensure_model,
}
use gemma_vllm_worker.Model.Laws.{IsFaithful, ensure_model-IsStored}
use gemma_vllm_worker.Model.Metadata.{
  ensure_model-metadata, Gave, model_asked, tokenizer_asked, revision_asked,
  tokenizer_revision_asked,
}
use gemma_vllm_worker.EngineArgs.Types.{FieldType, Python}
use gemma_vllm_worker.EngineArgs.Sources.{target_of, accepted}
use gemma_vllm_worker.EngineArgs.Sources.Layers.{local_value}
use gemma_vllm_worker.EngineArgs.{Vllm, Args, offline, get_local_args, local_of, get_engine_args}
use gemma_vllm_worker.EngineArgs.Merge.{kept, below, layered}
use gemma_vllm_worker.EngineArgs.Untouched.{DiffersFrom, adjusted_keys}
use gemma_vllm_worker.EngineArgs.Precedence.{get_engine_args-layered}

-- A dict of texts as a dict of values.
abbrev pub texts : {F : Type 0} → Dict String → Dict (Value F)
texts [] = []
texts ((k, s) ∷ d) = (k, str s) ∷ texts d

-- `json.loads` of what `json.dumps` gives for a dict of texts.
abbrev pub ReadsTexts : Python → Codec → Type 0
ReadsTexts py codec =
    (d : Dict String) → py.loads (codec.dumps d) ≡ some (dict (fields_of (texts d)))

pair_eq :
    {A B : Type 0} {a a' : A} {b b' : B}
    → ◌≡◌ {A = Option (A × B)} (some (a, b)) (some (a', b'))
    → a ≡ a'
pair_eq e = cc

or_some_if : {A : Type 0} (b : Bool) (o : Option A) → o ≡ or_some o (if b then none else none)
or_some_if true o = sym (or_some-none o)
or_some_if false o = sym (or_some-none o)

module _ (py : Python) (fields : Dict FieldType) (k : String) where
  abbrev accepted_text : String → Option String → Option (Value py.Float)
  accepted_text target none = none
  accepted_text target (some s) = accepted py fields target (str s)

  -- The last entry with a value whose key has the field as its target.
  abbrev last_given : List (String × Option String) → Option (Value py.Float)
  last_given [] = none
  last_given ((j, o) ∷ l) =
      or_some (last_given l)
        (if target_of py j == k then accepted_text (target_of py j) (or_none o) else none)

  local_value-keep_if :
      (j : String) (o : Option String) (d : Dict String)
      → local_value py fields k (texts (keep_if j o d))
        ≡ or_some
            (local_value py fields k (texts d))
            (if target_of py j == k then accepted_text (target_of py j) o else none)
  local_value-keep_if j none d =
      or_some_if (target_of py j == k) (local_value py fields k (texts d))
  local_value-keep_if j (some s) d = refl

  local_value-given :
      (l : List (String × Option String)) → local_value py fields k (texts (given l)) ≡ last_given l
  unfolding given
  local_value-given [] = refl
  local_value-given ((j, o) ∷ l) =
      local_value-keep_if j (or_none o) (given l)
      ∙ ap
          (λ v.
            or_some v
              (if target_of py j == k then accepted_text (target_of py j) (or_none o) else none))
          (local_value-given l)

  -- A value that the file gives is taken.
  accepted_text-some :
      (s : String)
      → is_some (lookup k fields) ≡ true
      → is_sentinel {F = py.Float} (str s) ≡ false
      → accepted_text k (some s) ≡ some (str s)
  accepted_text-some s known real = ground arith

module _ (py : Python) (fields : Dict FieldType) (path revision path' revision' : Option String)
    (s : String) (real : is_sentinel {F = py.Float} (str s) ≡ false) where
  abbrev entries_given : List (String × Option String)
  entries_given =
      ("MODEL_NAME", path)
      ∷ ("MODEL_REVISION", revision)
      ∷ ("TOKENIZER_NAME", path')
      ∷ ("TOKENIZER_REVISION", revision')
      ∷ []

  model_entry :
      is_some (lookup "model" fields) ≡ true
      → or_none path ≡ some s
      → local_value py fields "model" (texts (metadata path revision path' revision'))
        ≡ some (str s)
  unfolding metadata lookup lower underscores
  model_entry known here =
      local_value-given py fields "model" entries_given
      ∙ ap (accepted_text py fields "model" "model") here
      ∙ accepted_text-some py fields "model" s known real

  tokenizer_entry :
      is_some (lookup "tokenizer" fields) ≡ true
      → or_none path' ≡ some s
      → local_value py fields "tokenizer" (texts (metadata path revision path' revision'))
        ≡ some (str s)
  unfolding metadata lookup lower underscores
  tokenizer_entry known here =
      local_value-given py fields "tokenizer" entries_given
      ∙ or_some-none _
      ∙ or_some-none _
      ∙ ap (accepted_text py fields "tokenizer" "tokenizer") here
      ∙ accepted_text-some py fields "tokenizer" s known real

  real-or_none : or_none (some s) ≡ some s
  unfolding is_sentinel
  real-or_none = ground arith

module _ (py : Python) (vllm : Vllm py.Float) (codec : Codec) where
  kept_str :
      (k s : String) (o : Option (Value py.Float))
      → is_some (lookup k vllm.valid_fields) ≡ true
      → is_sentinel {F = py.Float} (str s) ≡ false
      → kept py vllm k (or_some (some (str s)) o) ≡ some (str s)
  kept_str k s o known real = ground arith

  read_local :
      (d : Dict String) (env : Dict String)
      → ReadsTexts py codec
      → get_local_args py vllm (some (codec.dumps d)) env ≡ some (texts d, offline py vllm env)
  unfolding get_local_args
  read_local d env reads =
      ap (λ v. local_of py vllm v env) (reads d)
      ∙ ap (λ e. some (e, offline py vllm env)) (entries-fields_of (texts d))

  -- A field whose value the metadata gives, by its entry.
  field_of_entry :
      (d : Dict String) (env : Dict String) (a : Args py vllm) (k s : String)
      → ReadsTexts py codec
      → NodupKeys vllm.valid_fields
      → DiffersFrom adjusted_keys k
      → get_engine_args py vllm (some (codec.dumps d)) env ≡ some a
      → is_some (lookup k vllm.valid_fields) ≡ true
      → is_sentinel {F = py.Float} (str s) ≡ false
      → local_value py vllm.valid_fields k (texts d) ≡ some (str s)
      → lookup k a ≡ some (str s)
  field_of_entry d env a k s reads nodup differs e known real entry =
      let (local, env', read, found) =
        get_engine_args-layered py vllm (some (codec.dumps d)) env a k nodup differs e in
      let same : texts d ≡ local = pair_eq (sym (read_local d env reads) ∙ read) in
      found
      ∙ ap (λ l. kept py vllm k (layered py vllm env l k)) (sym same)
      ∙ ap (λ v. kept py vllm k (or_some v (below py vllm env k))) entry
      ∙ kept_str k s (below py vllm env k) known real

-- On a volume without a model, the boot's download reaches the engine. Where the hub gives one path for the
-- model that the environment asks for, at its revision, and then one for the tokenizer that it asks for, at
-- the tokenizer's revision, and vLLM has the fields, the engine is given the first path as its model and the
-- second as its tokenizer, whatever the variables then say. No path is a text that counts as absent, and the
-- texts that `json.dumps` gives are read back by `json.loads`.
pub boot_reaches_engine :
    (py : Python) (vllm : Vllm py.Float) (codec : Codec) (hub : Hub)
    (join_path : String → String → String) (base_path type_error : String) (s : Disk)
    (between after : List Fetch) (env : Dict String) (a : Args py vllm) (model tokenizer : String)
    → ReadsTexts py codec
    → IsFaithful codec
    → NodupKeys vllm.valid_fields
    → is_some (lookup "model" vllm.valid_fields) ≡ true
    → is_some (lookup "tokenizer" vllm.valid_fields) ≡ true
    → lookup (model_args_path join_path base_path) s.files ≡ none
    → Gave hub codec join_path base_path type_error
        (model_asked s.env)
        (revision_asked s.env)
        "model"
        s.fetches
        model
        between
    → Gave hub codec join_path base_path type_error
        (tokenizer_asked s.env)
        (tokenizer_revision_asked s.env)
        "tokenizer"
        between
        tokenizer
        after
    → is_sentinel {F = py.Float} (str model) ≡ false
    → is_sentinel {F = py.Float} (str tokenizer) ≡ false
    → get_engine_args py vllm
        (lookup local_args_path (ensure_model hub codec join_path base_path type_error s).1.files)
        env
      ≡ some a
    → (lookup "model" a ≡ some (str model)) × (lookup "tokenizer" a ≡ some (str tokenizer))
boot_reaches_engine py vllm codec hub join_path base_path type_error s between after env a model
      tokenizer reads faithful nodup has_model has_tokenizer absent em et rm rt g =
    let revision = revision_asked s.env in
    let revision' = tokenizer_revision_asked s.env in
    let args = metadata (some model) revision (some tokenizer) revision' in
    let e =
      ensure_model-metadata hub codec join_path base_path type_error s model tokenizer between after
        absent em et in
    let stored = ensure_model-IsStored hub codec join_path base_path type_error faithful s args e in
    let given_args = ap (λ f. get_engine_args py vllm f env) (sym stored.local) ∙ g in
    let fields = vllm.valid_fields in
    (
      field_of_entry py vllm codec args env a "model" model reads nodup differs given_args has_model
          rm
          (model_entry py fields (some model) revision (some tokenizer) revision' model rm has_model
            (real-or_none py fields (some model) revision (some tokenizer) revision' model rm)),
      field_of_entry py vllm codec args env a "tokenizer" tokenizer reads nodup differs' given_args
          has_tokenizer rt
          (tokenizer_entry py fields (some model) revision (some tokenizer) revision' tokenizer rt
            has_tokenizer
            (real-or_none py fields (some model) revision (some tokenizer) revision' tokenizer rt)),
    )
  where
    differs : DiffersFrom adjusted_keys "model"
    differs = (
      refl,
      (refl, (refl, (refl, (refl, (refl, (refl, (refl, (refl, (refl, (refl, (refl, tt))))))))))),
    )

    differs' : DiffersFrom adjusted_keys "tokenizer"
    differs' = (
      refl,
      (refl, (refl, (refl, (refl, (refl, (refl, (refl, (refl, (refl, (refl, (refl, tt))))))))))),
    )
