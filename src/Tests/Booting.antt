-- ===== src/Tests/Booting.antt =====
-- The boot of a worker: the download, with an encoding of dicts that can be read back, and the engine's
-- arguments that come of it.
use Prim.Native.Char.{Char, code}
use Prim.Native.String.{String, [], ◌∷◌}
use mathlib.Core.List.{List}
use gemma_vllm_worker.Base.{
  ◌≡◌, inl, refl, ap, ◌∙◌, Bool, true, false, none, some, if◌then◌else◌, nat_beq, ◌<>◌, Option,
  ◌==◌, ◌||◌, string_comparable,
}
use gemma_vllm_worker.Base.Dict.{Dict, lookup, insert}
use gemma_vllm_worker.OpenAi.{value}
use gemma_vllm_worker.Model.Bake.{bake, bake_in, setup_env}
use gemma_vllm_worker.Download.{invalid_type, Hub, at, value_error, returned, request, download}
use gemma_vllm_worker.Download.Laws.{IsFound, download-IsFound, download_missed}
use gemma_vllm_worker.Base.Value.{Value, str, dict, fields_of, is_sentinel}
use gemma_vllm_worker.EngineArgs.Types.{Python}
use gemma_vllm_worker.EngineArgs.{offline, get_local_args, get_engine_args, merged, adjusted}
use gemma_vllm_worker.EngineArgs.Speculative.{bind}
use gemma_vllm_worker.EngineArgs.Booted.{texts, ReadsTexts, boot_reaches_engine}
use gemma_vllm_worker.Tests.Engine.{
  local, python_with, vllm, fields_nodup, environment, settled, engine_args,
}
use gemma_vllm_worker.Model.{
  given, model_args_path, Disk, Codec, ensure_model, local_args_path, metadata,
}
use gemma_vllm_worker.Model.Laws.{IsFaithful, ensure_model_again}

abbrev end_mark : Char
end_mark = "."

abbrev mark : Char
mark = "_"

-- A text with a mark before each character and one at its end, before the rest.
put : String → String → String
put [] rest = end_mark ∷ rest
put (c ∷ s) rest = mark ∷ (c ∷ put s rest)

encode : Dict String → String
unfolding put
encode List.[] = ""
encode (List.◌∷◌ (k, v) d) = put k (put v (encode d))

push : Char → List String → List String
push c List.[] = List.[]
push c (List.◌∷◌ x xs) = List.◌∷◌ (c ∷ x) xs

-- The read_texts that were put, where the flag says that a mark was read.
read_texts : Bool → String → List String
unfolding push
read_texts marked [] = List.[]
read_texts false (c ∷ s) =
    let ended = read_texts false s in
    let goes_on = read_texts true s in if nat_beq (code c) b'.' then List.◌∷◌ "" ended else goes_on
read_texts true (c ∷ s) = push c (read_texts false s)

pairs : List String → Dict String
pairs List.[] = List.[]
pairs (List.◌∷◌ k List.[]) = List.[]
pairs (List.◌∷◌ k (List.◌∷◌ v xs)) = List.◌∷◌ (k, v) (pairs xs)

read_texts-put :
    (s rest : String) → read_texts false (put s rest) ≡ List.◌∷◌ s (read_texts false rest)
unfolding read_texts put push
read_texts-put [] rest = refl
read_texts-put (c ∷ s) rest = ap (push c) (read_texts-put s rest)

pairs-encode : (d : Dict String) → pairs (read_texts false (encode d)) ≡ d
unfolding pairs read_texts encode
pairs-encode List.[] = refl
pairs-encode (List.◌∷◌ (k, v) d) =
    ap pairs (read_texts-put k (put v (encode d)))
    ∙ ap (λ xs. pairs (List.◌∷◌ k xs)) (read_texts-put v (encode d))
    ∙ ap (λ e. List.◌∷◌ (k, v) e) (pairs-encode d)

abbrev codec : Codec
codec = record { dumps = encode; loads = λ s. value (pairs (read_texts false s)) }

codec-IsFaithful : IsFaithful codec
codec-IsFaithful args = ap value (pairs-encode args)

-- The hub has every model's weights in one file, and the tokenizer's configuration.
abbrev hub : Hub
hub = λ log r. at ("/c/" <> r.name) (λ p. p == "*.bin" || p == "*.json")

abbrev empty_hub : Hub
empty_hub = λ log r. at "/c" (λ p. false)

abbrev disk : Disk
disk = record {
  files = List.[];
  env = List.◌∷◌ ("MODEL_NAME", "m") (List.◌∷◌ ("TOKENIZER_NAME", "t") List.[]);
  fetches = List.[];
}

abbrev join : String → String → String
join a b = a <> ("/" <> b)

abbrev arguments : Dict String
arguments = List.◌∷◌ ("MODEL_NAME", "/c/m") (List.◌∷◌ ("TOKENIZER_NAME", "/c/t") List.[])

-- With the hub gone, the second boot uses what the first one left.
first_boot : (ensure_model hub codec join "/w" "TypeError" disk).0 ≡ returned arguments
unfolding ensure_model download metadata lookup insert
first_boot = refl

ensure_model_again_example :
    let s' = (ensure_model hub codec join "/w" "TypeError" disk).1 in
    let (o, s'') = ensure_model (λ log r. value_error) codec join "/w" "TypeError" s' in
    (o ≡ returned arguments)
    × (s''.fetches ≡ s'.fetches)
    × (s''.env ≡ s'.env)
    × (lookup local_args_path s''.files ≡ some (encode arguments))
ensure_model_again_example =
    ensure_model_again hub (λ log r. value_error) codec join "/w" "TypeError" arguments disk
      codec-IsFaithful first_boot

model_found : (download hub "m" none "model" (some "/c") List.[]).0 ≡ returned (some "/c/m")
unfolding download
model_found = refl

download-IsFound_example : IsFound hub (request "m" none (some "/c")) "/c/m"
download-IsFound_example =
    download-IsFound hub "m" none "model" (some "/c") List.[] "/c/m" model_found

download_missed_example :
    (download empty_hub "m" none "model" (some "/c") List.[]).0 ≡ returned none
download_missed_example =
    download_missed empty_hub "m" none "model" (some "/c") List.[] (λ log r. ("/c", refl))
      (inl refl)

abbrev json : String → Option (Value String)
json s = some (dict (fields_of (texts (pairs (read_texts false s)))))

abbrev python : Python
python = python_with json

reads : ReadsTexts python codec
reads d = ap (λ e. some (dict (fields_of (texts e)))) (pairs-encode d)

-- What the boot leaves is read back.
written :
    get_local_args python vllm
      (lookup local_args_path (ensure_model hub codec join "/w" "TypeError" disk).1.files)
      environment
    ≡ some (local, offline python vllm environment)
unfolding get_local_args ensure_model lookup download insert pairs read_texts encode metadata
written = refl

started :
    get_engine_args python vllm
      (lookup local_args_path (ensure_model hub codec join "/w" "TypeError" disk).1.files)
      environment
    ≡ some engine_args
unfolding get_engine_args
started =
    ap
      (λ o.
        bind o λ (given, env'). adjusted python vllm env' (merged python vllm environment given))
      written
    ∙ settled json

absent : lookup (model_args_path join "/w") disk.files ≡ none
unfolding lookup
absent = refl

boot_reaches_engine_example :
    (lookup "model" engine_args ≡ some (str "/c/m"))
    × (lookup "tokenizer" engine_args ≡ some (str "/c/t"))
unfolding lookup is_sentinel download
boot_reaches_engine_example =
    boot_reaches_engine python vllm codec hub join "/w" "TypeError" disk _ _ environment engine_args
      "/c/m" "/c/t" reads codec-IsFaithful fields_nodup refl refl absent refl refl refl refl started

-- An image that is built with a quantized model.
baked :
    lookup local_args_path
      (bake hub codec (invalid_type "") (record disk {
        env = List.◌∷◌ ("MODEL_NAME", "m") (List.◌∷◌ ("QUANTIZATION", "awq") List.[]);
      })).1.files
    ≡ some (
        encode (
          List.◌∷◌
            ("MODEL_NAME", "/c/m")
            (List.◌∷◌ ("QUANTIZATION", "awq") (List.◌∷◌ ("TOKENIZER_NAME", "/c/m") List.[]))))
unfolding bake bake_in setup_env given download lookup insert
baked = refl
