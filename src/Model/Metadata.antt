-- ===== src/Model/Metadata.antt =====
-- The arguments that a download leaves are the metadata of its paths and revisions.
use gemma_vllm_worker.Base.{
  ◌≡◌, refl, ap, ◌∙◌, false, Option, none, some, List, String, get_or, ◌==◌, string_comparable, inl,
  inr, if_false,
}
use gemma_vllm_worker.Base.Dict.{Dict, lookup, insert, lookup-insert}
use gemma_vllm_worker.Download.{Hub, Fetch, returned, download}
use gemma_vllm_worker.Model.{
  Disk, Codec, M, bind_result, ◌>>=◌, ◌>>◌, hf_cache, tokenizer_patch_src, model_args_path,
  metadata, or_none, or_else, fetch, set_caches, patch_tokenizer, write_args, fetch_both,
  fetch_model, proceed, ensure_model,
}
use gemma_vllm_worker.Model.Laws.{option_cases}

-- The names and revisions that the environment asks for.
abbrev pub model_asked : Dict String → String
model_asked env = get_or (lookup "MODEL_NAME" env) "cyankiwi/gemma-4-26B-A4B-it-AWQ-4bit"

abbrev pub tokenizer_asked : Dict String → String
tokenizer_asked env = get_or (or_none (lookup "TOKENIZER_NAME" env)) (model_asked env)

abbrev pub revision_asked : Dict String → Option String
revision_asked env = or_none (lookup "MODEL_REVISION" env)

abbrev pub tokenizer_revision_asked : Dict String → Option String
tokenizer_revision_asked env = or_else (lookup "TOKENIZER_REVISION" env) (revision_asked env)

module _ (hub : Hub) (codec : Codec) (join_path : String → String → String)
    (base_path type_error : String) where
  -- The download of a name gave the path.
  abbrev pub Gave : String → Option String → String → List Fetch → String → List Fetch → Type 0
  Gave name revision type before path after =
      download hub name revision type (some (hf_cache join_path base_path)) before
      ≡ (returned (some path), after)

  patched :
      (path : String) (s : Disk)
      → (u : Disk) × (patch_tokenizer hub codec join_path base_path type_error (some path) s
          ≡ (returned tt, u))
  unfolding patch_tokenizer
  patched path s = elim (option_cases (lookup tokenizer_patch_src s.files)) [
    | inl e ↦ (s, rw (e, patch_tokenizer) refl)
    | inr (text, e) ↦ (
      record s { files = insert (join_path path "tokenizer_config.json") text s.files },
      rw (e, patch_tokenizer) refl,
    )
  ]

  fetched :
      (name : String) (revision : Option String) (type path : String) (s : Disk)
      (after : List Fetch)
      → Gave name revision type s.fetches path after
      → fetch hub codec join_path base_path type_error name revision type s
        ≡ (returned (some path), record s { fetches = after })
  fetched name revision type path s after e = ap (λ t. (t.0, record s { fetches = t.1 })) e

  bind-returned :
      {A B : Type 0} (m : M A) (f : A → M B) (s u : Disk) (a : A)
      → m s ≡ (returned a, u)
      → (m >>= f) s ≡ f a u
  bind-returned m f s u a e = ap (λ t. bind_result t.0 t.1 f) e

  fetch_both_lem :
      (name name' : String) (revision revision' : Option String) (path path' : String) (s : Disk)
      (between after : List Fetch)
      → Gave name revision "model" s.fetches path between
      → Gave name' revision' "tokenizer" between path' after
      → (u : Disk) × (fetch_both hub codec join_path base_path type_error name revision name'
            revision' s
          ≡ (returned (metadata (some path) revision (some path') revision'), u))
  unfolding fetch_both write_args
  fetch_both_lem name name' revision revision' path path' s between after e e' =
      let s1 : Disk = record s { fetches = between } in
      let s2 : Disk = record s { fetches = after } in
      let (u, p) = patched path' s2 in
      let write : Option String → Option String → M (Dict String) = λ a b.
        write_args hub codec join_path base_path type_error (metadata a revision b revision') in
      let patch : Option String → Option String → M (Dict String) =
        λ a b. patch_tokenizer hub codec join_path base_path type_error b >> write a b in
      let second : M (Option String) =
        fetch hub codec join_path base_path type_error name' revision' "tokenizer" in
      (
        (write (some path) (some path') u).1,
        bind-returned (fetch hub codec join_path base_path type_error name revision "model")
              (λ a. second >>= patch a) s s1 (some path)
              (fetched name revision "model" path s between e)
            ∙ bind-returned second (patch (some path)) s1 s2 (some path')
                (fetched name' revision' "tokenizer" path' s1 after e')
            ∙ bind-returned (patch_tokenizer hub codec join_path base_path type_error (some path'))
                (λ t. write (some path) (some path')) s2 u tt p,
      )

  cached :
      (k : String) (s : Disk)
      → ("HF_HOME" == k) ≡ false
      → ("HUGGINGFACE_HUB_CACHE" == k) ≡ false
      → ("HF_DATASETS_CACHE" == k) ≡ false
      → lookup k (set_caches hub codec join_path base_path type_error s).env ≡ lookup k s.env
  cached k s a b d =
      lookup-insert "HF_DATASETS_CACHE" k _ _
      ∙ if_false _ _ _ d
      ∙ lookup-insert "HUGGINGFACE_HUB_CACHE" k _ _
      ∙ if_false _ _ _ b
      ∙ lookup-insert "HF_HOME" k _ s.env
      ∙ if_false _ _ _ a

  -- Where the hub gives both, the boot returns the metadata of what it gave.
  pub ensure_model-metadata :
      (s : Disk) (path path' : String) (between after : List Fetch)
      → lookup (model_args_path join_path base_path) s.files ≡ none
      → Gave (model_asked s.env) (revision_asked s.env) "model" s.fetches path between
      → Gave
          (tokenizer_asked s.env)
          (tokenizer_revision_asked s.env)
          "tokenizer"
          between
          path'
          after
      → (ensure_model hub codec join_path base_path type_error s).0
        ≡ returned (
            metadata
              (some path)
              (revision_asked s.env)
              (some path')
              (tokenizer_revision_asked s.env))
  unfolding ensure_model fetch_model
  ensure_model-metadata s path path' between after absent e e' =
      let s' = set_caches hub codec join_path base_path type_error s in
      let name = cached "MODEL_NAME" s refl refl refl in
      let revision = cached "MODEL_REVISION" s refl refl refl in
      let name' = cached "TOKENIZER_NAME" s refl refl refl in
      let revision' = cached "TOKENIZER_REVISION" s refl refl refl in
      let (u, made) =
        fetch_both_lem (model_asked s.env) (tokenizer_asked s.env) (revision_asked s.env)
          (tokenizer_revision_asked s.env) path path' s' between after e e' in
      ap (λ o. (proceed hub codec join_path base_path type_error o s).0) absent
      ∙ rw (name, revision, name', revision') (ap (λ t. t.0) made)
