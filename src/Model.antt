-- ===== src/Model.antt =====
-- `ensure_model` of src/boot_model.py, over the files and the environment variables. JSON texts are a
-- parameter; files can be read and written, and `makedirs`, which the writes rely on, is left out.
pub mod Laws
pub mod Metadata
pub mod Bake
use gemma_vllm_worker.Base.{
  Bool, true, false, Option, none, some, List, [], ◌∷◌, String, ◌<>◌, if◌then◌else◌, get_or, ◌==◌,
  string_comparable, ◌≡◌,
}
use gemma_vllm_worker.Base.Dict.{Dict, lookup, insert}
use gemma_vllm_worker.OpenAi.{Attempt, value, failed}
use gemma_vllm_worker.Download.{Hub, Fetch, Problem, other, Result, returned, raised, download}

pub record Disk : Type 0 where
  pub files : Dict String
  pub env : Dict String
  -- What was fetched from the hub so far.
  pub fetches : List Fetch

-- `json.dumps` and `json.loads` on dicts of texts.
pub record Codec : Type 0 where
  pub dumps : Dict String → String
  pub loads : String → Attempt (Dict String)

abbrev pub M : Type 0 → Type 0
M A = Disk → Result A × Disk

abbrev pub bind_result : {A B : Type 0} → Result A → Disk → (A → M B) → Result B × Disk
bind_result (returned a) s f = f a s
bind_result (raised p) s f = (raised p, s)

infixl 5 ◌>>=◌ ◌>>◌
abbrev pub ◌>>=◌ : {A B : Type 0} → M A → (A → M B) → M B
◌>>=◌ m f s = let (o, s') = m s in bind_result o s' f

abbrev pub ◌>>◌ : {B : Type 0} → M (Unit {0}) → M B → M B
m >> k = m >>= λ _. k

abbrev pub local_args_path : String
local_args_path = "/local_model_args.json"

abbrev pub tokenizer_patch_src : String
tokenizer_patch_src = "/tmp/tokenizer_config.json"

-- `x or None` and `x or y`.
abbrev pub or_none : Option String → Option String
or_none none = none
or_none (some s) = if s == "" then none else some s

abbrev pub or_else : Option String → Option String → Option String
or_else none b = b
or_else (some a) b = if a == "" then b else some a

abbrev pub keep_if : String → Option String → Dict String → Dict String
keep_if k none d = d
keep_if k (some v) d = (k, v) ∷ d

-- `{k: v for k, v in metadata.items() if v not in (None, "")}`
unfoldable pub given : List (String × Option String) → Dict String
given [] = []
given ((k, v) ∷ d) = keep_if k (or_none v) (given d)

unfoldable pub metadata :
    (model_path model_revision tokenizer_path tokenizer_revision : Option String) → Dict String
unfolding given
metadata model_path model_revision tokenizer_path tokenizer_revision = given (
    ("MODEL_NAME", model_path)
    ∷ ("MODEL_REVISION", model_revision)
    ∷ ("TOKENIZER_NAME", tokenizer_path)
    ∷ ("TOKENIZER_REVISION", tokenizer_revision)
    ∷ [])

abbrev pub write : String → String → M (Unit {0})
write path text s = (returned tt, record s { files = insert path text s.files })

abbrev pub return : {A : Type 0} → A → M A
return a s = (returned a, s)

-- `os.path.join` is a parameter.
abbrev pub model_args_path : (String → String → String) → String → String
model_args_path join_path base_path = join_path base_path "local_model_args.json"

abbrev pub hf_cache : (String → String → String) → String → String
hf_cache join_path base_path = join_path (join_path base_path "huggingface-cache") "hub"

-- The other parameters are the hub, the JSON texts, `BASE_PATH`, and the message of the
-- `TypeError` of a path that is `None`.
module _ (hub : Hub) (codec : Codec) (join_path : String → String → String)
    (base_path type_error : String) where
  abbrev pub fetch : String → Option String → String → M (Option String)
  fetch name revision type s =
      let (o, log) =
        download hub name revision type (some (hf_cache join_path base_path)) s.fetches in
      (o, record s { fetches = log })

  -- The tokenizer's configuration is replaced if there is a patch.
  unfoldable pub patch_tokenizer : Option String → M (Unit {0})
  patch_tokenizer tokenizer_path s = elim (lookup tokenizer_patch_src s.files) [
    | none ↦ (returned tt, s)
    | some text ↦ elim tokenizer_path [
      | none ↦ (raised (other type_error), s)
      | some path ↦ write (join_path path "tokenizer_config.json") text s
    ]
  ]

  -- Both copies of the arguments.
  unfoldable pub write_args : Dict String → M (Dict String)
  write_args args = do
    write (model_args_path join_path base_path) (codec.dumps args)
    write local_args_path (codec.dumps args)
    return args

  -- From the first download on, for the names and revisions of the model and the tokenizer.
  unfoldable pub fetch_both : String → Option String → String → Option String → M (Dict String)
  unfolding patch_tokenizer write_args
  fetch_both model_name model_revision tokenizer_name tokenizer_revision = do
    model_path ← fetch model_name model_revision "model"
    tokenizer_path ← fetch tokenizer_name tokenizer_revision "tokenizer"
    patch_tokenizer tokenizer_path
    write_args (metadata model_path model_revision tokenizer_path tokenizer_revision)

  -- The caches of the hub's client.
  abbrev pub set_caches : Disk → Disk
  set_caches s = record s {
    env =
        insert "HF_DATASETS_CACHE" (join_path (join_path base_path "huggingface-cache") "datasets")
          (insert "HUGGINGFACE_HUB_CACHE" (hf_cache join_path base_path)
            (insert "HF_HOME" (hf_cache join_path base_path) s.env));
  }

  unfoldable pub fetch_model : M (Dict String)
  unfolding fetch_both
  fetch_model s =
      let s' = set_caches s in
      let model_name = get_or (lookup "MODEL_NAME" s'.env) "cyankiwi/gemma-4-26B-A4B-it-AWQ-4bit" in
      let model_revision = or_none (lookup "MODEL_REVISION" s'.env) in
      fetch_both model_name model_revision
        (get_or (or_none (lookup "TOKENIZER_NAME" s'.env)) model_name)
        (or_else (lookup "TOKENIZER_REVISION" s'.env) model_revision) s'

  abbrev pub reuse : Attempt (Dict String) → M (Dict String)
  reuse (value args) s = (do write local_args_path (codec.dumps args); return args) s
  reuse (failed m) s = (raised (other m), s)

  -- With the text of the arguments' file, if it exists.
  abbrev pub proceed : Option String → M (Dict String)
  proceed none s = fetch_model s
  proceed (some text) s = reuse (codec.loads text) s

  -- `ensure_model`
  unfoldable pub ensure_model : M (Dict String)
  unfolding fetch_model
  ensure_model s = proceed (lookup (model_args_path join_path base_path) s.files) s
