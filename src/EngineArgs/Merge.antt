-- ===== src/EngineArgs/Merge.antt =====
-- What the merged sources hold, before the later steps adjust it.
use gemma_vllm_worker.Base.{
  ◌≡◌, refl, sym, ap, ◌∙◌, subst, not, ◌&&◌, Option, none, some, [], ◌∷◌, String, if◌then◌else◌,
  is_some, is_nil, ◌==◌, string_comparable, eq_iff, Bool-cases, inl, inr, if_true, if_false,
}
use gemma_vllm_worker.Base.Dict.{Dict, lookup, update}
use gemma_vllm_worker.Base.Dict.Layers.{
  or_some-none, or_some, NodupKeys, update-NodupKeys, lookup-update,
}
use gemma_vllm_worker.Base.Value.{Value, is_sentinel}
use gemma_vllm_worker.EngineArgs.Types.{Python}
use gemma_vllm_worker.EngineArgs.Sources.{
  env_aliases, default_args, get_args_from_env_auto_discover, apply_env_aliases,
  local_args_to_engine_args,
}
use gemma_vllm_worker.EngineArgs.Sources.Layers.{
  default_args-NodupKeys, field_value, discover_from-NodupKeys, lookup-discover_from, alias_value,
  lookup-apply_aliases, apply_aliases-NodupKeys, local_value, lookup-local_from,
  local_from-NodupKeys,
}
use gemma_vllm_worker.EngineArgs.{Vllm, Args, keep_valid, merged}

module _ (py : Python) (vllm : Vllm py.Float) where
  -- The filter on one value.
  abbrev pub kept : String → Option (Value py.Float) → Option (Value py.Float)
  kept k none = none
  kept k (some v) =
      if is_some (lookup k vllm.valid_fields) && not (is_sentinel v) then some v else none

  lookup-keep_valid :
      (k : String) (args : Args py vllm)
      → NodupKeys args
      → lookup k (keep_valid py vllm args) ≡ kept k (lookup k args)
  unfolding keep_valid lookup
  lookup-keep_valid k [] h = refl
  lookup-keep_valid k ((j, v) ∷ args) (fresh, h) =
      elim (Bool-cases (is_some (lookup j vllm.valid_fields) && not (is_sentinel v))) [
        | inl keeps ↦ rw keeps (elim (Bool-cases (j == k)) [
          | inl same ↦
              let e : j ≡ k = (eq_iff j k).0 same in
              rw same
                (subst (λ i. some v ≡ kept i (some v)) e (sym (if_true _ (some v) none keeps)))
          | inr differ ↦ rw differ (lookup-keep_valid k args h)
        ])
        | inr drops ↦ rw drops (
            lookup-keep_valid k args h ∙ (elim (Bool-cases (j == k)) [
              | inl same ↦
                  let e : j ≡ k = (eq_iff j k).0 same in
                  rw same (
                    ap (kept k) (subst (λ i. lookup i args ≡ none) e fresh)
                    ∙ subst (λ i. none ≡ kept i (some v)) e (sym (if_false _ (some v) none drops)))
              | inr differ ↦ rw differ refl
            ]))
      ]

  -- The value of the strongest source below the local file: an older name, the variable of the field, or
  -- the default.
  abbrev pub below : Dict String → String → Option (Value py.Float)
  below env k =
      or_some (alias_value py vllm.valid_fields env k env_aliases)
        (or_some (field_value py env k (lookup k vllm.valid_fields)) (lookup k (default_args py)))

  -- The value of the strongest source of all.
  abbrev pub layered : Dict String → Args py vllm → String → Option (Value py.Float)
  layered env local k = or_some (local_value py vllm.valid_fields k local) (below env k)

  module _ (env : Dict String) (known : NodupKeys vllm.valid_fields) where
    abbrev found : Args py vllm
    found = get_args_from_env_auto_discover py vllm.valid_fields env

    abbrev aliased : Args py vllm
    aliased = apply_env_aliases py vllm.valid_fields env (update (default_args py) found)

    found-NodupKeys : NodupKeys found
    unfolding get_args_from_env_auto_discover
    found-NodupKeys = discover_from-NodupKeys py env vllm.valid_fields [] tt

    found-lookup : (k : String) → lookup k found ≡ field_value py env k (lookup k vllm.valid_fields)
    unfolding get_args_from_env_auto_discover lookup
    found-lookup k =
        lookup-discover_from py k env vllm.valid_fields [] known
        ∙ or_some-none (field_value py env k (lookup k vllm.valid_fields))

    aliased-NodupKeys : NodupKeys aliased
    unfolding apply_env_aliases
    aliased-NodupKeys =
        apply_aliases-NodupKeys py vllm.valid_fields env env_aliases
          (update (default_args py) found)
          (update-NodupKeys (default_args py) found (default_args-NodupKeys py))

    aliased-lookup :
        (k : String)
        → lookup k aliased
          ≡ or_some (alias_value py vllm.valid_fields env k env_aliases) (
              or_some
                (field_value py env k (lookup k vllm.valid_fields))
                (lookup k (default_args py)))
    unfolding apply_env_aliases
    aliased-lookup k =
        let alias = alias_value py vllm.valid_fields env k env_aliases in
        lookup-apply_aliases py k vllm.valid_fields env env_aliases (update (default_args py) found)
        ∙ ap (or_some alias) (lookup-update k (default_args py) found found-NodupKeys)
        ∙ ap (λ o. or_some alias (or_some o (lookup k (default_args py)))) (found-lookup k)

    abbrev overridden : Args py vllm → Args py vllm
    overridden local =
        if is_nil local
        then aliased
        else update aliased (local_args_to_engine_args py vllm.valid_fields local)

    overridden-NodupKeys : (local : Args py vllm) → NodupKeys (overridden local)
    overridden-NodupKeys [] = aliased-NodupKeys
    overridden-NodupKeys (x ∷ local) =
        update-NodupKeys aliased (local_args_to_engine_args py vllm.valid_fields (x ∷ local))
          aliased-NodupKeys

    locals_lookup :
        (k : String) (local : Args py vllm)
        → lookup k (local_args_to_engine_args py vllm.valid_fields local)
          ≡ local_value py vllm.valid_fields k local
    unfolding local_args_to_engine_args lookup
    locals_lookup k local =
        lookup-local_from py k vllm.valid_fields local []
        ∙ or_some-none (local_value py vllm.valid_fields k local)

    locals-NodupKeys :
        (local : Args py vllm) → NodupKeys (local_args_to_engine_args py vllm.valid_fields local)
    unfolding local_args_to_engine_args
    locals-NodupKeys local = local_from-NodupKeys py vllm.valid_fields local [] tt

    lookup-overridden :
        (k : String) (local : Args py vllm) → lookup k (overridden local) ≡ layered env local k
    lookup-overridden k [] = aliased-lookup k
    lookup-overridden k (x ∷ local) =
        let given = local_args_to_engine_args py vllm.valid_fields (x ∷ local) in
        lookup-update k aliased given (locals-NodupKeys (x ∷ local))
        ∙ ap (λ o. or_some o (lookup k aliased)) (locals_lookup k (x ∷ local))
        ∙ ap (or_some (local_value py vllm.valid_fields k (x ∷ local))) (aliased-lookup k)

    pub lookup-merged :
        (k : String) (local : Args py vllm)
        → lookup k (merged py vllm env local) ≡ kept k (layered env local k)
    unfolding merged
    lookup-merged k local =
        lookup-keep_valid k (overridden local) (overridden-NodupKeys local)
        ∙ ap (kept k) (lookup-overridden k local)
