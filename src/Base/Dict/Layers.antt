-- ===== src/Base/Dict/Layers.antt =====
-- Dicts laid over one another: what is found under a key where the later layers come first.
use Prim.Native.String.{String}
use mathlib.Core.Path.{◌≡◌, refl, ap, ◌∙◌, subst}
use mathlib.Core.Bool.{Bool, true, false}
use mathlib.Core.Logic.{inl, inr}
use mathlib.Core.Option.{Option, none, some}
use mathlib.Core.List.{[], ◌∷◌}
use native.Mathlib.Omega.{arith}
use text.Mathlib.TextEquality.{eq_iff}
use gemma_vllm_worker.Base.Tests.{Bool-cases}
use gemma_vllm_worker.Base.Equality.{◌==◌, string_comparable}
use gemma_vllm_worker.Base.Dict.{Dict, lookup, insert, update, lookup-insert}

module _ {ℓ} {V : Type ℓ} where
  -- The first of two that is there.
  abbrev pub or_some : Option V → Option V → Option V
  or_some none b = b
  or_some (some a) b = some a

  pub or_some_assoc : (a b c : Option V) → or_some (or_some a b) c ≡ or_some a (or_some b c)
  or_some_assoc none b c = refl
  or_some_assoc (some a) b c = refl

  pub or_some-none : (a : Option V) → or_some a none ≡ a
  or_some-none none = refl
  or_some-none (some a) = refl

  -- A dict has each key once.
  abbrev pub NodupKeys : Dict V → Type ℓ
  NodupKeys [] = Unit
  NodupKeys ((k, v) ∷ d) = (lookup k d ≡ none) × NodupKeys d

  pub insert-NodupKeys : (k : String) (v : V) (d : Dict V) → NodupKeys d → NodupKeys (insert k v d)
  unfolding insert lookup
  insert-NodupKeys k v [] h = (refl, tt)
  insert-NodupKeys k v ((j, w) ∷ d) (fresh, h) =
      ground (arith, insert-NodupKeys k v d h, lookup-insert k j v d, eq_iff j k, eq_iff k j)

  pub update-NodupKeys : (d e : Dict V) → NodupKeys d → NodupKeys (update d e)
  unfolding update
  update-NodupKeys d [] h = h
  update-NodupKeys d ((k, v) ∷ e) h = update-NodupKeys (insert k v d) e (insert-NodupKeys k v d h)

  pub lookup-update :
      (j : String) (d e : Dict V)
      → NodupKeys e
      → lookup j (update d e) ≡ or_some (lookup j e) (lookup j d)
  unfolding update lookup
  lookup-update j d [] h = refl
  lookup-update j d ((k, v) ∷ e) (fresh, h) =
      lookup-update j (insert k v d) e h
      ∙ ap (or_some (lookup j e)) (lookup-insert k j v d)
      ∙ (elim (Bool-cases (k == j)) [
        | inl same ↦ rw same (
            ap (λ o. or_some o (some v))
              (subst (λ i. lookup i e ≡ none) ((eq_iff k j).0 same) fresh))
        | inr differ ↦ rw differ refl
      ])

  -- A test for a dict that is written out.
  unfoldable pub has_nodup_keys : Dict V → Bool
  has_nodup_keys [] = true
  has_nodup_keys ((k, v) ∷ d) = elim (lookup k d) [ none ↦ has_nodup_keys d | some w ↦ false ]

  pub has_nodup_keys-NodupKeys : (d : Dict V) → has_nodup_keys d ≡ true → NodupKeys d
  unfolding has_nodup_keys
  has_nodup_keys-NodupKeys [] h = tt
  has_nodup_keys-NodupKeys ((k, v) ∷ d) h = ground (arith, has_nodup_keys-NodupKeys d)
