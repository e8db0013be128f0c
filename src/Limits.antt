-- ===== src/Limits.antt =====
-- `convert_limit_mm_per_prompt` of src/utils.py: limits such as "image=1,video=0" as a dict.
pub mod Pairs
pub mod Lookup
use gemma_vllm_worker.Base.{Option, none, some, List, [], ◌∷◌, String}
use gemma_vllm_worker.Base.Int.{ℤ}
use gemma_vllm_worker.Base.Number.{parse_int}
use gemma_vllm_worker.Base.Text.{split}
use gemma_vllm_worker.Base.Dict.{Dict, insert}

abbrev pub with_value : String → Option ℤ → Option (String × ℤ)
with_value key none = none
with_value key (some n) = some (key, n)

-- `key, value = pair.split('=')` and `int(value)`, which both raise `ValueError`.
abbrev pub of_parts : List String → Option (String × ℤ)
of_parts [] = none
of_parts (key ∷ []) = none
of_parts (key ∷ value ∷ []) = with_value key (parse_int value)
of_parts (key ∷ value ∷ part ∷ parts) = none

unfoldable pub read_pair : String → Option (String × ℤ)
unfolding split
read_pair pair = of_parts (split b'=' pair)

-- The loop over the pairs that were read, with the dict so far; no value where one raises.
unfoldable pub collect_pairs : List (Option (String × ℤ)) → Dict ℤ → Option (Dict ℤ)
unfolding insert
collect_pairs [] result = some result
collect_pairs (none ∷ pairs) result = none
collect_pairs (some (key, n) ∷ pairs) result = collect_pairs pairs (insert key n result)

abbrev pub read_pairs : List String → List (Option (String × ℤ))
read_pairs [] = []
read_pairs (pair ∷ pairs) = read_pair pair ∷ read_pairs pairs

-- `convert_limit_mm_per_prompt`
unfoldable pub convert_limit_mm_per_prompt : String → Option (Dict ℤ)
unfolding collect_pairs
convert_limit_mm_per_prompt input_string = collect_pairs (read_pairs (split b',' input_string)) []
