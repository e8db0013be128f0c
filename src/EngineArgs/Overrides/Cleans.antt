-- ===== src/EngineArgs/Overrides/Cleans.antt =====
-- What becomes of one entry of the overrides.
use gemma_vllm_worker.Base.{
  ◌≡◌, ◌⊎◌, refl, sym, ap, ◌∙◌, subst, Bool, true, false, Option, none, some, [], ◌∷◌, String,
  if◌then◌else◌, ◌==◌, string_comparable, arith, Bool-cases, inl, inr, if_true, if_false,
}
use gemma_vllm_worker.Base.Dict.{Dict, lookup, erase, lookup-erase}
use gemma_vllm_worker.Base.Value.{
  Value, Fields, null, bool, int, float, str, list, tuple, dict, entries, fields_of, is_null,
  entries-fields_of,
}
use gemma_vllm_worker.EngineArgs.Overrides.{
  rope_rejected, is_rejected, or_null, strip_rope, cleaned_value,
}

module _ {F : Type 0} (rejects : Fields F → Bool) where
  -- A cleaned value, if it is there.
  abbrev pub unless_null : Value F → Option (Value F)
  unless_null v = if is_null v then none else some v

  abbrev pub cleaned_lookup : Option (Value F) → Option (Value F)
  cleaned_lookup none = none
  cleaned_lookup (some v) = unless_null (cleaned_value rejects v)

  -- A dict with a rope scaling in it that vLLM rejects.
  abbrev pub HasRejected : Value F → Fields F → Type 0
  HasRejected v sub =
      (rope : Fields F) × (v ≡ dict sub)
      × (lookup "rope_scaling" (entries sub) ≡ some (dict rope))
      × (rejects rope ≡ true)

  -- An entry before and after: an entry without a rejected rope scaling is as it was, and gone if it is null; one
  -- with such a scaling has all its other keys and not this one, and is gone if there are no others.
  abbrev pub Strips : Fields F → Option (Value F) → Type 0
  Strips sub new =
      (((j : String) → ("rope_scaling" == j) ≡ false → lookup j (entries sub) ≡ none)
        × (new ≡ none))
      ⊎ ((rest : Fields F) × (new ≡ some (dict rest))
          × ((j : String)
              → lookup j (entries rest)
                ≡ (if "rope_scaling" == j then none else lookup j (entries sub))))

  abbrev pub Cleans : Option (Value F) → Option (Value F) → Type 0
  Cleans none new = new ≡ none
  Cleans (some v) new =
      (((sub : Fields F) → ¬ HasRejected v sub) × (new ≡ unless_null v))
      ⊎ ((sub : Fields F) × HasRejected v sub × Strips sub new)

  rejected_rope :
      (o : Option (Value F))
      → rope_rejected rejects o ≡ true
      → (rope : Fields F) × (o ≡ some (dict rope)) × (rejects rope ≡ true)
  rejected_rope (some (dict rope)) h = (rope, refl, h)
  rejected_rope none h = absurd (ground arith)
  rejected_rope (some null) h = absurd (ground arith)
  rejected_rope (some (bool b)) h = absurd (ground arith)
  rejected_rope (some (int n)) h = absurd (ground arith)
  rejected_rope (some (float x)) h = absurd (ground arith)
  rejected_rope (some (str s)) h = absurd (ground arith)
  rejected_rope (some (list xs)) h = absurd (ground arith)
  rejected_rope (some (tuple xs)) h = absurd (ground arith)

  or_null-Strips :
      (sub : Fields F) (d : Dict (Value F))
      → ((j : String) → lookup j d ≡ (if "rope_scaling" == j then none else lookup j (entries sub)))
      → Strips sub (unless_null (or_null rejects d))
  unfolding lookup
  or_null-Strips sub [] all = inl ((λ j other. sym (if_false _ _ _ other) ∙ sym (all j)), refl)
  or_null-Strips sub (x ∷ d) all =
      inr (fields_of (x ∷ d), refl, (λ j. ap (lookup j) (entries-fields_of (x ∷ d)) ∙ all j))

  strip_rope-Cleans :
      (v : Value F)
      → is_rejected rejects v ≡ true
      → Cleans (some v) (unless_null (strip_rope rejects v))
  strip_rope-Cleans (dict sub) h =
      let (rope, e, bad) = rejected_rope (lookup "rope_scaling" (entries sub)) h in
      inr (
        sub,
        (rope, refl, e, bad),
        or_null-Strips sub (erase "rope_scaling" (entries sub))
            (λ j. lookup-erase "rope_scaling" j (entries sub)),
      )
  strip_rope-Cleans null h = absurd (ground arith)
  strip_rope-Cleans (bool b) h = absurd (ground arith)
  strip_rope-Cleans (int n) h = absurd (ground arith)
  strip_rope-Cleans (float x) h = absurd (ground arith)
  strip_rope-Cleans (str s) h = absurd (ground arith)
  strip_rope-Cleans (list xs) h = absurd (ground arith)
  strip_rope-Cleans (tuple xs) h = absurd (ground arith)

  pub cleaned_lookup-Cleans : (o : Option (Value F)) → Cleans o (cleaned_lookup o)
  cleaned_lookup-Cleans none = refl
  cleaned_lookup-Cleans (some v) = elim (Bool-cases (is_rejected rejects v)) [
    | inl bad ↦
        subst (λ w. Cleans (some v) (unless_null w)) (sym (if_true _ (strip_rope rejects v) v bad))
          (strip_rope-Cleans v bad)
    | inr good ↦ inl (
      (λ sub (rope, e, found, rejected). ground (
        arith,
        sym good ∙ ap (is_rejected rejects) e ∙ ap (rope_rejected rejects) found ∙ rejected,
      )),
      ap unless_null (if_false _ (strip_rope rejects v) v good),
    )
  ]
