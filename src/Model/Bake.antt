-- ===== src/Model/Bake.antt =====
-- The script of src/download_model.py, which puts a model into an image when that is built: `setup_env`,
-- and the lines under `__main__`. A download without a name raises what the hub raises.
use gemma_vllm_worker.Base.{
  Option, none, some, [], ◌∷◌, String, if◌then◌else◌, get_or, ◌==◌, string_comparable,
}
use gemma_vllm_worker.Base.Dict.{Dict, lookup, update}
use gemma_vllm_worker.Download.{Hub, Problem, raised, download}
use gemma_vllm_worker.Model.{Codec, M, ◌>>=◌, or_none, or_else, given, write, local_args_path}

abbrev pub test_variables : Dict String
test_variables =
    ("HF_HOME", "tmp/hf_cache")
    ∷ ("MODEL_NAME", "openchat/openchat-3.5-0106")
    ∷ ("HF_HUB_ENABLE_HF_TRANSFER", "1")
    ∷ ("TENSORIZE", "1")
    ∷ ("TENSORIZER_NUM_GPUS", "1")
    ∷ ("DTYPE", "auto")
    ∷ []

-- `setup_env`; its assignment of `BASE_DIR` is to a variable of its own.
unfoldable pub setup_env : Dict String → Dict String
unfolding update
setup_env env =
    if get_or (lookup "TESTING_DOWNLOAD" env) "" == "1" then update env test_variables else env

module _ (hub : Hub) (codec : Codec) (unnamed : Problem) where
  abbrev pub fetch_named :
      Option String → Option String → (type : String) → Option String → M (Option String)
  fetch_named none revision type cache_dir s = (raised unnamed, s)
  fetch_named (some name) revision type cache_dir s =
      let (o, log) = download hub name revision type cache_dir s.fetches in
      (o, record s { fetches = log })

  -- With the environment that `setup_env` leaves; the file is "//local_model_args.json", which is the same.
  unfoldable pub bake_in : Dict String → M (Unit {0})
  unfolding given download
  bake_in env =
      let cache_dir = lookup "HF_HOME" env in
      let model_name = lookup "MODEL_NAME" env in
      let model_revision = or_none (lookup "MODEL_REVISION" env) in
      let tokenizer_name = or_else (lookup "TOKENIZER_NAME" env) model_name in
      let tokenizer_revision = or_else (lookup "TOKENIZER_REVISION" env) model_revision in
      fetch_named model_name model_revision "model" cache_dir >>= λ model_path.
      fetch_named tokenizer_name tokenizer_revision "tokenizer" cache_dir >>= λ tokenizer_path.
      write local_args_path (
        codec.dumps (
          given (
            ("MODEL_NAME", model_path)
            ∷ ("MODEL_REVISION", lookup "MODEL_REVISION" env)
            ∷ ("QUANTIZATION", lookup "QUANTIZATION" env)
            ∷ ("TOKENIZER_NAME", tokenizer_path)
            ∷ ("TOKENIZER_REVISION", tokenizer_revision)
            ∷ [])))

  unfoldable pub bake : M (Unit {0})
  unfolding bake_in setup_env
  bake s = bake_in (setup_env s.env) (record s { env = setup_env s.env })
