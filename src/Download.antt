-- ===== src/Download.antt =====
-- `download` of src/download_model.py: which of the pattern sets is fetched, and what is returned. The
-- hub, `snapshot_download` with what `glob` then finds at the path, is a parameter that may answer by
-- what was fetched before.
pub mod Laws
use gemma_vllm_worker.Base.{
  Bool, true, false, ◌||◌, Option, none, some, List, [], ◌∷◌, ◌++◌, map, String, if◌then◌else◌,
  ◌==◌, string_comparable,
}

abbrev pub tokenizer_patterns : List (List String)
tokenizer_patterns = ("*.json" ∷ "tokenizer*" ∷ []) ∷ []

abbrev pub model_patterns : List (List String)
model_patterns = ("*.safetensors" ∷ []) ∷ ("*.bin" ∷ []) ∷ ("*.pt" ∷ []) ∷ []

abbrev pub first : List (List String) → List String
first [] = []
first (ps ∷ pss) = ps

-- The arguments of one `snapshot_download`.
pub record Fetch : Type 0 where
  pub name : String
  pub revision : Option String
  pub cache_dir : Option String
  pub allow_patterns : List String

-- A path with the test whether a pattern has files there, a `ValueError`, or another exception.
pub data Fetched : Type 0 where
  at : String → (String → Bool) → Fetched
  value_error : Fetched
  failure : String → Fetched

abbrev pub Hub : Type 0
Hub = List Fetch → Fetch → Fetched

-- The exceptions.
pub data Problem : Type 0 where
  invalid_type : String → Problem
  no_patterns : List (List String) → Problem
  other : String → Problem

pub data Result (A : Type 0) : Type 0 where
  returned : A → Result A
  raised : Problem → Result A

abbrev pub any : {A : Type 0} → (A → Bool) → List A → Bool
any p [] = false
any p (x ∷ xs) = p x || any p xs

unfoldable pub pattern_sets : String → Option (List (List String))
pattern_sets type =
    if type == "model"
    then some (map (λ ps. ps ++ first tokenizer_patterns) model_patterns)
    else if type == "tokenizer"
    then some tokenizer_patterns
    else none

-- What one answer gives, with the result of the rest of the loop.
abbrev pub settle :
    (all : List (List String))
    → List String
    → List Fetch
    → Result (Option String) × List Fetch
    → Fetched
    → Result (Option String) × List Fetch
settle all ps log rest (at path finds) = if any finds ps then (returned (some path), log) else rest
settle all ps log rest value_error = (raised (no_patterns all), log)
settle all ps log rest (failure m) = (raised (other m), log)

module _ (hub : Hub) (fetch_of : List String → Fetch) (all : List (List String)) where
  -- The loop over the pattern sets, with what was fetched so far. It ends with `None`.
  unfoldable pub fetch_sets : List (List String) → List Fetch → Result (Option String) × List Fetch
  fetch_sets [] log = (returned none, log)
  fetch_sets (ps ∷ pss) log =
      let log' = log ++ (fetch_of ps ∷ []) in
      let rest = fetch_sets pss log' in settle all ps log' rest (hub log (fetch_of ps))

abbrev pub request : String → Option String → Option String → List String → Fetch
request name revision cache_dir ps = record {
  name = name;
  revision = revision;
  cache_dir = cache_dir;
  allow_patterns = ps;
}

-- From the pattern sets of the type on.
abbrev pub download_sets :
    Hub
    → (name : String) → (revision : Option String) → (type : String) → (cache_dir : Option String)
    → List Fetch
    → Option (List (List String))
    → Result (Option String) × List Fetch
download_sets hub name revision type cache_dir log none = (raised (invalid_type type), log)
download_sets hub name revision type cache_dir log (some sets) =
    fetch_sets hub (request name revision cache_dir) sets sets log

-- `download`
unfoldable pub download :
    Hub
    → (name : String) → (revision : Option String) → (type : String) → (cache_dir : Option String)
    → List Fetch
    → Result (Option String) × List Fetch
unfolding fetch_sets pattern_sets
download hub name revision type cache_dir log =
    download_sets hub name revision type cache_dir log (pattern_sets type)
