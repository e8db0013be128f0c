-- ===== src/EngineArgs/Overrides.antt =====
-- `_sanitize_hf_overrides` of src/engine_args.py. Whether vLLM's `patch_rope_scaling_dict` can be
-- imported, and which dicts it then rejects, is a parameter.
pub mod Cleans
pub mod Safe
use gemma_vllm_worker.Base.{
  Bool, true, false, ◌||◌, not, Option, none, some, List, [], ◌∷◌, String, if◌then◌else◌, is_nil,
  ◌==◌, string_comparable,
}
use gemma_vllm_worker.Base.Dict.{Dict, lookup, erase}
use gemma_vllm_worker.Base.Value.{
  Value, Fields, null, bool, int, float, str, list, tuple, dict, entries, fields_of, is_null,
}

module _ {F : Type 0} (rejects : Fields F → Bool) where
  -- The "rope_scaling" of a value, if it is a dict with a dict there that vLLM rejects.
  abbrev pub rope_rejected : Option (Value F) → Bool
  rope_rejected (some (dict rope_scaling)) = rejects rope_scaling
  rope_rejected other = false

  abbrev pub is_rejected : Value F → Bool
  is_rejected (dict value) = rope_rejected (lookup "rope_scaling" (entries value))
  is_rejected other = false

  -- `stripped if stripped else None`
  abbrev pub or_null : Dict (Value F) → Value F
  or_null d = if is_nil d then null else dict (fields_of d)

  abbrev pub strip_rope : Value F → Value F
  strip_rope (dict value) = or_null (erase "rope_scaling" (entries value))
  strip_rope other = other

  -- One round of the loop.
  abbrev pub cleaned_value : Value F → Value F
  cleaned_value value = if is_rejected value then strip_rope value else value

  unfoldable pub cleaned : Dict (Value F) → Dict (Value F)
  cleaned [] = []
  cleaned ((key, value) ∷ d) = (key, cleaned_value value) ∷ cleaned d

  unfoldable pub changed : Dict (Value F) → Bool
  changed [] = false
  changed ((key, value) ∷ d) = is_rejected value || changed d

  -- `{k: v for k, v in cleaned.items() if v is not None}`
  unfoldable pub without_nulls : Dict (Value F) → Dict (Value F)
  without_nulls [] = []
  without_nulls ((key, value) ∷ d) =
      let rest = without_nulls d in if is_null value then rest else (key, value) ∷ rest

  unfoldable pub sanitize_dict : Dict (Value F) → Value F
  unfolding cleaned changed without_nulls
  sanitize_dict d =
      if not (changed d) then dict (fields_of d) else or_null (without_nulls (cleaned d))

module _ {F : Type 0} where
  -- `_sanitize_hf_overrides`
  unfoldable pub sanitize_hf_overrides : Option (Fields F → Bool) → Value F → Value F
  unfolding sanitize_dict
  sanitize_hf_overrides none hf_overrides = hf_overrides
  sanitize_hf_overrides (some rejects) (dict d) = sanitize_dict rejects (entries d)
  sanitize_hf_overrides (some rejects) other = other
