-- ===== src/Tests/Settings.antt =====
-- Limits that are read from a setting.
use gemma_vllm_worker.Base.{◌≡◌, ◌⊎◌, refl, none, some, [], ◌∷◌, List, String}
use gemma_vllm_worker.Base.Dict.{Dict, lookup, insert}
use gemma_vllm_worker.Base.Int.{ℤ, pos}
use gemma_vllm_worker.Base.Number.{parse_int}
use gemma_vllm_worker.Base.Text.{split}
use gemma_vllm_worker.Limits.{read_pair, collect_pairs, convert_limit_mm_per_prompt}
use gemma_vllm_worker.Limits.Lookup.{last_of, HasBad, AllRead, convert_limit_lem}

limits :
    (convert_limit_mm_per_prompt "image=1,video=0,image= 2"
      ≡ some (("image", pos 2) ∷ ("video", pos 0) ∷ []))
    × (convert_limit_mm_per_prompt "image=1," ≡ none)
unfolding convert_limit_mm_per_prompt collect_pairs read_pair parse_int split insert
limits = (refl, refl)

convert_limit_lem_example :
    let ts = split b',' "image=1,video=0,image=2" in
    (HasBad ts × (convert_limit_mm_per_prompt "image=1,video=0,image=2" ≡ none))
    ⊎ ((r : Dict ℤ) × (ps : List (String × ℤ)) × (convert_limit_mm_per_prompt
            "image=1,video=0,image=2"
          ≡ some r)
        × AllRead ts ps
        × ((k : String) → lookup k r ≡ last_of k ps none))
convert_limit_lem_example = convert_limit_lem "image=1,video=0,image=2"
