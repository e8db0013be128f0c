-- ===== src/Model/Laws.antt =====
-- What a boot leaves for the next one.
use gemma_vllm_worker.Base.{
  ◌≡◌, ◌⊎◌, get_or, refl, sym, subst, ap, ◌∙◌, Option, none, some, String, ◌==◌, string_comparable,
  arith, eq_iff, Bool-cases, inl, inr, if_true, if_false,
}
use gemma_vllm_worker.Base.Dict.{Dict, lookup, insert, lookup-insert}
use gemma_vllm_worker.OpenAi.{Attempt, value, failed}
use gemma_vllm_worker.Download.{Hub, Result, returned, raised}
use gemma_vllm_worker.Model.{
  Disk, Codec, M, bind_result, ◌>>=◌, ◌>>◌, local_args_path, metadata, set_caches, fetch_both,
  or_none, or_else, model_args_path, fetch, patch_tokenizer, write_args, fetch_model, reuse,
  proceed, ensure_model,
}

-- What is read of a text that was written is what was written.
abbrev pub IsFaithful : Codec → Type 0
IsFaithful codec = (args : Dict String) → codec.loads (codec.dumps args) ≡ value args

-- A result holds with the disk that it is returned with.
abbrev pub Gives : {A : Type 0} → (A → Disk → Type 0) → M A → Disk → Type 0
Gives {A} Q m s = (a : A) → (m s).0 ≡ returned a → Q a (m s).1

pub option_cases : (o : Option String) → (o ≡ none) ⊎ ((s : String) × (o ≡ some s))
option_cases none = inl refl
option_cases (some s) = inr (s, refl)

pub returned_eq : {A : Type 0} {a b : A} → returned a ≡ returned b → a ≡ b
returned_eq e = cc

bind-Gives :
    {A B : Type 0} (Q : B → Disk → Type 0) (m : M A) (f : A → M B)
    → ((a : A) (s : Disk) → Gives Q (f a) s)
    → (s : Disk) → Gives Q (m >>= f) s
bind-Gives {A} {B} Q m f h s b e = go (m s).0 (m s).1 e
  where
    go :
        (o : Result A) (s' : Disk)
        → (bind_result o s' f).0 ≡ returned b
        → Q b (bind_result o s' f).1
    go (returned a) s' e = h a s' b e
    go (raised p) s' e = absurd (ground arith)

module _ (codec : Codec) (join_path : String → String → String) (base_path : String) where
  -- The arguments are in both copies: what the next boot reads, and what the engine's settings are read
  -- from.
  pub record IsStored (args : Dict String) (s : Disk) : Type 0 where
    pub kept :
        (text : String) × (lookup (model_args_path join_path base_path) s.files ≡ some text)
        × (codec.loads text ≡ value args)
    pub local : lookup local_args_path s.files ≡ some (codec.dumps args)

  IsStored-insert :
      IsFaithful codec
      → (args : Dict String) (s : Disk)
      → IsStored args (record s {
        files =
            insert local_args_path
              (codec.dumps args)
              (insert (model_args_path join_path base_path) (codec.dumps args) s.files);
      })
  IsStored-insert faithful args s =
      let path = model_args_path join_path base_path in
      let text = codec.dumps args in
      let inner = insert path text s.files in
      record {
        kept = (
          text,
          ground (
            arith,
            lookup-insert local_args_path path text inner,
            lookup-insert path path text s.files,
            eq_iff path path,
            eq_iff local_args_path path,
          ),
          faithful args,
        );
        local = ground (
          arith,
          lookup-insert local_args_path local_args_path text inner,
          eq_iff local_args_path local_args_path,
        );
      }

  -- A write of the second copy alone keeps the first, whose text may be the same file.
  IsStored-reuse :
      IsFaithful codec
      → (args : Dict String) (text : String) (s : Disk)
      → lookup (model_args_path join_path base_path) s.files ≡ some text
      → codec.loads text ≡ value args
      → IsStored args (record s { files = insert local_args_path (codec.dumps args) s.files })
  IsStored-reuse faithful args text s there read =
      let path = model_args_path join_path base_path in
      let law = lookup-insert local_args_path path (codec.dumps args) s.files in
      record {
        kept = elim (Bool-cases (local_args_path == path)) [
          | inl same ↦ (codec.dumps args, law ∙ if_true _ _ _ same, faithful args)
          | inr other ↦ (text, law ∙ if_false _ _ _ other ∙ there, read)
        ];
        local = ground (
          arith,
          lookup-insert local_args_path local_args_path (codec.dumps args) s.files,
          eq_iff local_args_path local_args_path,
        );
      }

module _ (hub : Hub) (codec : Codec) (join_path : String → String → String)
    (base_path type_error : String) where
  write_args-IsStored :
      IsFaithful codec
      → (args : Dict String) (s : Disk)
      → Gives
          (IsStored codec join_path base_path)
          (write_args hub codec join_path base_path type_error args)
          s
  unfolding write_args
  write_args-IsStored faithful args s a e =
      subst
        (λ b.
          IsStored codec join_path base_path b
            (write_args hub codec join_path base_path type_error args s).1)
        (returned_eq e) (IsStored-insert codec join_path base_path faithful args s)

  -- What holds after every write of the metadata of a download holds after the download.
  module _ (Q : Dict String → Disk → Type 0)
      (written : (path revision path' revision' : Option String) (s : Disk)
        → Gives Q
            (write_args hub codec join_path base_path type_error
              (metadata path revision path' revision'))
            s) where
    fetch_both-Gives :
        (name : String) (revision : Option String) (tokenizer : String)
        (tokenizer_revision : Option String) (s : Disk)
        → Gives Q
            (fetch_both hub codec join_path base_path type_error name revision tokenizer
              tokenizer_revision)
            s
    unfolding fetch_both
    fetch_both-Gives name revision tokenizer tokenizer_revision =
        let get = fetch hub codec join_path base_path type_error in
        let patch = patch_tokenizer hub codec join_path base_path type_error in
        let store = write_args hub codec join_path base_path type_error in
        let args : Option String → Option String → Dict String =
          λ path path'. metadata path revision path' tokenizer_revision in
        let tail : Option String → Option String → M (Dict String) =
          λ path path'. patch path' >> store (args path path') in
        let rest : Option String → M (Dict String) =
          λ path. get tokenizer tokenizer_revision "tokenizer" >>= tail path in
        bind-Gives Q (get name revision "model") rest (λ path.
          bind-Gives Q (get tokenizer tokenizer_revision "tokenizer") (tail path) (λ path'.
            bind-Gives Q (patch path') (λ u. store (args path path'))
              (λ u. written path revision path' tokenizer_revision)))

    pub fetch_model-Gives :
        (s : Disk) → Gives Q (fetch_model hub codec join_path base_path type_error) s
    unfolding fetch_model
    fetch_model-Gives s =
        let s' = set_caches hub codec join_path base_path type_error s in
        let model_name =
          get_or (lookup "MODEL_NAME" s'.env) "cyankiwi/gemma-4-26B-A4B-it-AWQ-4bit" in
        let model_revision = or_none (lookup "MODEL_REVISION" s'.env) in
        fetch_both-Gives model_name model_revision
          (get_or (or_none (lookup "TOKENIZER_NAME" s'.env)) model_name)
          (or_else (lookup "TOKENIZER_REVISION" s'.env) model_revision) s'

  reuse-IsStored :
      IsFaithful codec
      → (text : String) (s : Disk)
      → lookup (model_args_path join_path base_path) s.files ≡ some text
      → (read : Attempt (Dict String)) → codec.loads text ≡ read
      → Gives
          (IsStored codec join_path base_path)
          (reuse hub codec join_path base_path type_error read)
          s
  reuse-IsStored faithful text s there (value args) read a e =
      subst
        (λ b.
          IsStored codec join_path base_path b
            (record s { files = insert local_args_path (codec.dumps args) s.files }))
        (returned_eq e) (IsStored-reuse codec join_path base_path faithful args text s there read)
  reuse-IsStored faithful text s there (failed m) read a e = absurd (ground arith)

  pub ensure_model-IsStored :
      IsFaithful codec
      → (s : Disk)
      → Gives
          (IsStored codec join_path base_path)
          (ensure_model hub codec join_path base_path type_error)
          s
  unfolding ensure_model
  ensure_model-IsStored faithful s =
      let Proper : Option String → Type 0 = λ o.
        Gives (IsStored codec join_path base_path)
          (proceed hub codec join_path base_path type_error o) s in
      elim (option_cases (lookup (model_args_path join_path base_path) s.files)) [
        | inl absent ↦ subst Proper (sym absent) (
            fetch_model-Gives (IsStored codec join_path base_path)
              (λ a b c d. write_args-IsStored faithful (metadata a b c d)) s)
        | inr (text, there) ↦
            subst Proper (sym there) (reuse-IsStored faithful text s there (codec.loads text) refl)
      ]

  ensure_model_stored :
      (args : Dict String) (s : Disk)
      → IsStored codec join_path base_path args s
      → ensure_model hub codec join_path base_path type_error s
        ≡ (returned args, record s { files = insert local_args_path (codec.dumps args) s.files })
  unfolding ensure_model
  ensure_model_stored args s h =
      let (text, there, read) = h.kept in
      ap (λ o. proceed hub codec join_path base_path type_error o s) there
      ∙ ap (λ r. reuse hub codec join_path base_path type_error r s) read

-- Once a boot got the model's arguments, the next one gets the same arguments, whatever the hub then
-- answers: it fetches nothing and changes no environment variable, and the arguments are in the file that
-- the engine's settings are read from. The texts that `json.dumps` gives are read back by `json.loads`.
pub ensure_model_again :
    (hub hub' : Hub) (codec : Codec) (join_path : String → String → String)
    (base_path type_error : String) (args : Dict String) (s : Disk)
    → IsFaithful codec
    → (ensure_model hub codec join_path base_path type_error s).0 ≡ returned args
    → let s' = (ensure_model hub codec join_path base_path type_error s).1 in
      let (o, s'') = ensure_model hub' codec join_path base_path type_error s' in
      (o ≡ returned args)
      × (s''.fetches ≡ s'.fetches)
      × (s''.env ≡ s'.env)
      × (lookup local_args_path s''.files ≡ some (codec.dumps args))
ensure_model_again hub hub' codec join_path base_path type_error args s faithful e =
    let s' = (ensure_model hub codec join_path base_path type_error s).1 in
    let stored = ensure_model-IsStored hub codec join_path base_path type_error faithful s args e in
    let again = ensure_model_stored hub' codec join_path base_path type_error args s' stored in
    (
      ap (λ t. t.0) again,
      ap (λ t. t.1.fetches) again,
      ap (λ t. t.1.env) again,
      ap (λ t. lookup local_args_path t.1.files) again
          ∙ ground (
            arith,
            lookup-insert local_args_path local_args_path (codec.dumps args) s'.files,
            eq_iff local_args_path local_args_path,
          ),
    )
