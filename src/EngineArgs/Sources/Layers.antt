-- ===== src/EngineArgs/Sources/Layers.antt =====
-- What each source gives for a key, and that no source loses a key of the one below it.
use gemma_vllm_worker.Base.{
  ◌≡◌, refl, sym, ap, ◌∙◌, subst, Option, none, some, [], ◌∷◌, String, if◌then◌else◌, ◌==◌,
  string_comparable, eq_iff, arith, Bool-cases, inl, inr,
}
use gemma_vllm_worker.Base.Text.{upper}
use gemma_vllm_worker.Base.Dict.{Dict, lookup, lookup-insert}
use gemma_vllm_worker.Base.Dict.Layers.{
  or_some, or_some_assoc, NodupKeys, insert-NodupKeys, has_nodup_keys, has_nodup_keys-NodupKeys,
}
use gemma_vllm_worker.Base.Value.{Value}
use gemma_vllm_worker.EngineArgs.Types.{FieldType, Python}
use gemma_vllm_worker.EngineArgs.Sources.{
  default_args, set_if, from_env, discover_from, apply_aliases, target_of, accepted, local_from,
}

module _ (py : Python) where
  lookup-set_if :
      (j k : String) (o : Option (Value py.Float)) (d : Dict (Value py.Float))
      → lookup j (set_if py k o d) ≡ or_some (if k == j then o else none) (lookup j d)
  lookup-set_if j k none d = ground arith
  lookup-set_if j k (some v) d = lookup-insert k j v d ∙ ground arith

  set_if-NodupKeys :
      (k : String) (o : Option (Value py.Float)) (d : Dict (Value py.Float))
      → NodupKeys d
      → NodupKeys (set_if py k o d)
  set_if-NodupKeys k none d h = h
  set_if-NodupKeys k (some v) d h = insert-NodupKeys k v d h

  pub default_args-NodupKeys : NodupKeys (default_args py)
  unfolding default_args has_nodup_keys lookup
  default_args-NodupKeys = has_nodup_keys-NodupKeys (default_args py) refl

  -- The value that the variable of a field gives.
  abbrev pub field_value : Dict String → String → Option FieldType → Option (Value py.Float)
  field_value env k none = none
  field_value env k (some t) = from_env py env (upper k) t

  pub discover_from-NodupKeys :
      (env : Dict String) (fields : Dict FieldType) (args : Dict (Value py.Float))
      → NodupKeys args
      → NodupKeys (discover_from py env fields args)
  unfolding discover_from
  discover_from-NodupKeys env [] args h = h
  discover_from-NodupKeys env ((name, t) ∷ fields) args h =
      discover_from-NodupKeys env fields _
        (set_if-NodupKeys name (from_env py env (upper name) t) args h)

  pub lookup-discover_from :
      (k : String) (env : Dict String) (fields : Dict FieldType) (args : Dict (Value py.Float))
      → NodupKeys fields
      → lookup k (discover_from py env fields args)
        ≡ or_some (field_value env k (lookup k fields)) (lookup k args)
  unfolding discover_from lookup
  lookup-discover_from k env [] args h = refl
  lookup-discover_from k env ((name, t) ∷ fields) args (fresh, h) =
      let o = from_env py env (upper name) t in
      lookup-discover_from k env fields (set_if py name o args) h
      ∙ ap (or_some (field_value env k (lookup k fields))) (lookup-set_if k name o args)
      ∙ (elim (Bool-cases (name == k)) [
        | inl same ↦
            let e : name ≡ k = (eq_iff name k).0 same in
            rw same (
              ap (λ f. or_some (field_value env k f) (or_some o (lookup k args)))
                (subst (λ i. lookup i fields ≡ none) e fresh)
              ∙ ap (λ i. or_some (from_env py env (upper i) t) (lookup k args)) e)
        | inr differ ↦ rw differ refl
      ])

  -- The value of the last of the older names that has the field as its target.
  abbrev pub alias_value :
      Dict FieldType → Dict String → String → Dict String → Option (Value py.Float)
  alias_value fields env k [] = none
  alias_value fields env k ((alias, target) ∷ aliases) =
      or_some (alias_value fields env k aliases) (
        if target == k
        then (elim (lookup target fields) [ none ↦ none | some t ↦ from_env py env alias t ])
        else none)

  alias_step :
      (fields : Dict FieldType) (env : Dict String) (alias target k : String)
      (args : Dict (Value py.Float)) (f : Option FieldType)
      → lookup k (elim f [ none ↦ args | some t ↦ set_if py target (from_env py env alias t) args ])
        ≡ or_some
            (if target == k
              then (elim f [ none ↦ none | some t ↦ from_env py env alias t ])
              else none)
            (lookup k args)
  alias_step fields env alias target k args none = ground arith
  alias_step fields env alias target k args (some t) = lookup-set_if k target _ args

  pub lookup-apply_aliases :
      (k : String) (fields : Dict FieldType) (env aliases : Dict String)
      (args : Dict (Value py.Float))
      → lookup k (apply_aliases py fields env aliases args)
        ≡ or_some (alias_value fields env k aliases) (lookup k args)
  unfolding apply_aliases
  lookup-apply_aliases k fields env [] args = refl
  lookup-apply_aliases k fields env ((alias, target) ∷ aliases) args =
      lookup-apply_aliases k fields env aliases _
      ∙ ap (or_some (alias_value fields env k aliases))
          (alias_step fields env alias target k args (lookup target fields))
      ∙ sym (or_some_assoc (alias_value fields env k aliases) _ (lookup k args))

  pub apply_aliases-NodupKeys :
      (fields : Dict FieldType) (env aliases : Dict String) (args : Dict (Value py.Float))
      → NodupKeys args
      → NodupKeys (apply_aliases py fields env aliases args)
  unfolding apply_aliases
  apply_aliases-NodupKeys fields env [] args h = h
  apply_aliases-NodupKeys fields env ((alias, target) ∷ aliases) args h =
      apply_aliases-NodupKeys fields env aliases _ (one (lookup target fields))
    where
      one :
          (f : Option FieldType)
          → NodupKeys
              (elim f [ none ↦ args | some t ↦ set_if py target (from_env py env alias t) args ])
      one none = h
      one (some t) = set_if-NodupKeys target (from_env py env alias t) args h

  -- The value of the last local argument that has the field as its target, and is no sentinel.
  abbrev pub local_value : Dict FieldType → String → Dict (Value py.Float) → Option (Value py.Float)
  local_value fields k [] = none
  local_value fields k ((j, v) ∷ local) =
      or_some (local_value fields k local)
        (if target_of py j == k then accepted py fields (target_of py j) v else none)

  pub lookup-local_from :
      (k : String) (fields : Dict FieldType) (local out : Dict (Value py.Float))
      → lookup k (local_from py fields local out)
        ≡ or_some (local_value fields k local) (lookup k out)
  unfolding local_from
  lookup-local_from k fields [] out = refl
  lookup-local_from k fields ((j, v) ∷ local) out =
      lookup-local_from k fields local _
      ∙ ap (or_some (local_value fields k local))
          (lookup-set_if k (target_of py j) (accepted py fields (target_of py j) v) out)
      ∙ sym (or_some_assoc (local_value fields k local) _ (lookup k out))

  pub local_from-NodupKeys :
      (fields : Dict FieldType) (local out : Dict (Value py.Float))
      → NodupKeys out
      → NodupKeys (local_from py fields local out)
  unfolding local_from
  local_from-NodupKeys fields [] out h = h
  local_from-NodupKeys fields ((j, v) ∷ local) out h =
      local_from-NodupKeys fields local _
        (set_if-NodupKeys (target_of py j) (accepted py fields (target_of py j) v) out h)
