-- ===== src/EngineArgs/Overrides/Safe.antt =====
-- What the sanitized overrides hold: nothing that vLLM rejects, and all else as it was.
use gemma_vllm_worker.Base.{
  ◌≡◌, ◌⊎◌, refl, sym, ap, ◌∙◌, subst, Bool, true, false, not, none, some, [], ◌∷◌, String,
  if◌then◌else◌, ◌==◌, string_comparable, eq_iff, arith, Bool-cases, inl, inr, if_true, if_false,
}
use gemma_vllm_worker.Base.Dict.{Dict, lookup, erase, lookup-erase}
use gemma_vllm_worker.Base.Dict.Layers.{NodupKeys}
use gemma_vllm_worker.Base.Value.{
  Value, Fields, null, bool, int, float, str, list, tuple, dict, entries, fields_of, is_null,
  entries-fields_of, fields_of-entries,
}
use gemma_vllm_worker.EngineArgs.Overrides.Cleans.{cleaned_lookup, Cleans, cleaned_lookup-Cleans}
use gemma_vllm_worker.EngineArgs.Overrides.{
  rope_rejected, is_rejected, or_null, strip_rope, cleaned_value, cleaned, changed, without_nulls,
  sanitize_dict, sanitize_hf_overrides,
}

abbrev pub entries_of : {F : Type 0} → Value F → Dict (Value F)
entries_of (dict fs) = entries fs
entries_of other = []

module _ {F : Type 0} (rejects : Fields F → Bool) where
  -- No entry has a rope scaling that vLLM rejects.
  abbrev pub AllAccepted : Dict (Value F) → Type 0
  AllAccepted [] = Unit
  AllAccepted ((k, v) ∷ d) = (is_rejected rejects v ≡ false) × AllAccepted d

  or_null-accepted :
      (d : Dict (Value F))
      → lookup "rope_scaling" d ≡ none
      → is_rejected rejects (or_null rejects d) ≡ false
  or_null-accepted [] h = refl
  or_null-accepted (x ∷ d) h =
      ap (λ e. rope_rejected rejects (lookup "rope_scaling" e)) (entries-fields_of (x ∷ d))
      ∙ ap (rope_rejected rejects) h

  strip_rope-accepted :
      (v : Value F)
      → is_rejected rejects v ≡ true
      → is_rejected rejects (strip_rope rejects v) ≡ false
  strip_rope-accepted (dict value) h =
      or_null-accepted (erase "rope_scaling" (entries value))
        (lookup-erase "rope_scaling" "rope_scaling" (entries value))
  strip_rope-accepted null h = refl
  strip_rope-accepted (bool b) h = refl
  strip_rope-accepted (int n) h = refl
  strip_rope-accepted (float x) h = refl
  strip_rope-accepted (str s) h = refl
  strip_rope-accepted (list xs) h = refl
  strip_rope-accepted (tuple xs) h = refl

  cleaned_value-accepted : (v : Value F) → is_rejected rejects (cleaned_value rejects v) ≡ false
  cleaned_value-accepted v = elim (Bool-cases (is_rejected rejects v)) [
    | inl bad ↦
        ap (is_rejected rejects) (if_true _ (strip_rope rejects v) v bad)
        ∙ strip_rope-accepted v bad
    | inr good ↦ ap (is_rejected rejects) (if_false _ (strip_rope rejects v) v good) ∙ good
  ]

  cleaned-AllAccepted : (d : Dict (Value F)) → AllAccepted (cleaned rejects d)
  unfolding cleaned
  cleaned-AllAccepted [] = tt
  cleaned-AllAccepted ((k, v) ∷ d) = (cleaned_value-accepted v, cleaned-AllAccepted d)

  without_nulls-AllAccepted :
      (d : Dict (Value F)) → AllAccepted d → AllAccepted (without_nulls rejects d)
  unfolding without_nulls
  without_nulls-AllAccepted [] h = tt
  without_nulls-AllAccepted ((k, v) ∷ d) (here, h) = elim (Bool-cases (is_null v)) [
    | inl absent ↦ rw absent (without_nulls-AllAccepted d h)
    | inr there ↦ rw there (here, without_nulls-AllAccepted d h)
  ]

  changed-AllAccepted : (d : Dict (Value F)) → changed rejects d ≡ false → AllAccepted d
  unfolding changed
  changed-AllAccepted [] h = tt
  changed-AllAccepted ((k, v) ∷ d) h = ground (arith, changed-AllAccepted d)

  AllAccepted-changed : (d : Dict (Value F)) → AllAccepted d → changed rejects d ≡ false
  unfolding changed
  AllAccepted-changed [] h = refl
  AllAccepted-changed ((k, v) ∷ d) (here, h) = rw here (AllAccepted-changed d h)

  pick_same :
      (b : Bool) (k j : String) (w : Value F) (rest : Dict (Value F))
      → (j == k) ≡ true
      → lookup k rest ≡ none
      → lookup k (if b then rest else (j, w) ∷ rest) ≡ (if b then none else some w)
  unfolding lookup
  pick_same true k j w rest same gone = gone
  pick_same false k j w rest same gone = if_true (j == k) (some w) (lookup k rest) same

  pick_other :
      (b : Bool) (k j : String) (w : Value F) (rest : Dict (Value F))
      → (j == k) ≡ false
      → lookup k (if b then rest else (j, w) ∷ rest) ≡ lookup k rest
  unfolding lookup
  pick_other true k j w rest differ = refl
  pick_other false k j w rest differ = if_false (j == k) (some w) (lookup k rest) differ

  lookup-cleaned :
      (k : String) (d : Dict (Value F))
      → NodupKeys d
      → lookup k (without_nulls rejects (cleaned rejects d)) ≡ cleaned_lookup rejects (lookup k d)
  unfolding cleaned without_nulls lookup
  lookup-cleaned k [] h = refl
  lookup-cleaned k ((j, v) ∷ d) (fresh, h) =
      let w = cleaned_value rejects v in
      let rest = without_nulls rejects (cleaned rejects d) in
      let ih = lookup-cleaned k d h in
      elim (Bool-cases (j == k)) [
        | inl same ↦
            let gone : lookup k d ≡ none =
              subst (λ i. lookup i d ≡ none) ((eq_iff j k).0 same) fresh in
            pick_same (is_null w) k j w rest same (ih ∙ ap (cleaned_lookup rejects) gone)
            ∙ ap (cleaned_lookup rejects) (sym (if_true (j == k) (some v) (lookup k d) same))
        | inr differ ↦
            pick_other (is_null w) k j w rest differ
            ∙ ih
            ∙ ap (cleaned_lookup rejects) (sym (if_false (j == k) (some v) (lookup k d) differ))
      ]

  entries_of-or_null : (d : Dict (Value F)) → entries_of (or_null rejects d) ≡ d
  entries_of-or_null [] = refl
  entries_of-or_null (x ∷ d) = entries-fields_of (x ∷ d)

  entries_of-AllAccepted :
      (d : Dict (Value F)) → AllAccepted d → AllAccepted (entries_of (or_null rejects d))
  entries_of-AllAccepted d h = subst AllAccepted (sym (entries_of-or_null d)) h

  sanitize_or_null :
      (d : Dict (Value F))
      → AllAccepted d
      → sanitize_hf_overrides (some rejects) (or_null rejects d) ≡ or_null rejects d
  unfolding sanitize_hf_overrides sanitize_dict
  sanitize_or_null [] h = refl
  sanitize_or_null (x ∷ d) h =
      ap (sanitize_dict rejects) (entries-fields_of (x ∷ d))
      ∙ if_true _ _ _ (ap not (AllAccepted-changed (x ∷ d) h))

  -- The overrides are left alone, or every entry is cleaned.
  abbrev pub IsSanitized : Fields F → String → Value F → Type 0
  IsSanitized fs k r =
      (AllAccepted (entries_of r))
      × (sanitize_hf_overrides (some rejects) r ≡ r)
      × ((r ≡ dict fs) ⊎ Cleans rejects (lookup k (entries fs)) (lookup k (entries_of r)))

  sanitize_unchanged :
      (fs : Fields F) (k : String)
      → changed rejects (entries fs) ≡ false
      → (sanitize_hf_overrides (some rejects) (dict fs) ≡ dict fs) × IsSanitized fs k (dict fs)
  unfolding sanitize_hf_overrides sanitize_dict
  sanitize_unchanged fs k same =
      let e =
        if_true (not (changed rejects (entries fs))) (dict (fields_of (entries fs)))
          (or_null rejects (without_nulls rejects (cleaned rejects (entries fs)))) (ap not same)
        ∙ ap dict (fields_of-entries fs) in
      (e, (changed-AllAccepted (entries fs) same, e, inl refl))

-- The sanitized overrides hold no rope scaling that vLLM rejects, and sanitizing them again changes nothing.
-- Either nothing was changed at all, or this holds of each entry: one without a rejected rope scaling is as it
-- was, and is left out if it is `None`; one with a rejected rope scaling keeps every other key with its value,
-- has no rope scaling, and is left out if it has no other key.
pub sanitize_hf_overrides_lem :
    {F : Type 0} (rejects : Fields F → Bool) (fs : Fields F) (k : String)
    → NodupKeys (entries fs)
    → IsSanitized rejects fs k (sanitize_hf_overrides (some rejects) (dict fs))
unfolding sanitize_hf_overrides sanitize_dict
sanitize_hf_overrides_lem rejects fs k h = elim (Bool-cases (changed rejects (entries fs))) [
  | inl some_changed ↦
      let rest = without_nulls rejects (cleaned rejects (entries fs)) in
      let accepted =
        without_nulls-AllAccepted rejects (cleaned rejects (entries fs))
          (cleaned-AllAccepted rejects (entries fs)) in
      let e =
        if_false (not (changed rejects (entries fs))) (dict (fields_of (entries fs)))
          (or_null rejects rest) (ap not some_changed) in
      subst (IsSanitized rejects fs k) (sym e) (
        entries_of-AllAccepted rejects rest accepted,
        sanitize_or_null rejects rest accepted,
        inr (
            subst (Cleans rejects (lookup k (entries fs)))
              (sym (
                ap (lookup k) (entries_of-or_null rejects rest)
                ∙ lookup-cleaned rejects k (entries fs) h))
              (cleaned_lookup-Cleans rejects (lookup k (entries fs)))),
      )
  | inr none_changed ↦
      let (e, all) = sanitize_unchanged rejects fs k none_changed in
      subst (IsSanitized rejects fs k) (sym e) all
]
