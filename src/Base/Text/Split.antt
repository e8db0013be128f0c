-- ===== src/Base/Text/Split.antt =====
-- What `s.split(sep)` gives, by where the separator stands.
use Prim.Native.Char.{Char, code}
use Prim.Native.Nat.{ℕ}
use Prim.Native.String.{String, ◌++◌, [], ◌∷◌}
use text.Mathlib.TextLemmas.{nil-append, cons-append, append-nil, append_assoc}
use mathlib.Core.Path.{◌≡◌, ◌∙◌, ap, sym}
use mathlib.Core.Logic.{◌⊎◌, inl, inr}
use mathlib.Core.Bool.{true, false}
use mathlib.Core.List.{List}
use gemma_vllm_worker.Base.Equality.{nat_beq}
use gemma_vllm_worker.Base.Tests.{Bool-cases, if_true, if_false}
use gemma_vllm_worker.Base.Text.{split, split_from}

module _ (sep : ℕ) where
  abbrev pub IsMark : Char → Type 0
  IsMark c = nat_beq (code c) sep ≡ true

  -- The separator is nowhere in the text.
  abbrev pub Lacks : String → Type 0
  Lacks [] = Unit
  Lacks (c ∷ s) = (nat_beq (code c) sep ≡ false) × Lacks s

  longer : (cur : String) (c : Char) (s : String) → (cur ++ (c ∷ [])) ++ s ≡ cur ++ (c ∷ s)
  longer cur c s =
      append_assoc cur (c ∷ []) s
      ∙ ap (λ t. cur ++ t) (cons-append c [] s ∙ ap (λ t. c ∷ t) (nil-append s))

  split_from-whole : (cur s : String) → Lacks s → split_from sep cur s ≡ List.◌∷◌ (cur ++ s) List.[]
  unfolding split_from
  split_from-whole cur [] h = ap (λ t. List.◌∷◌ t List.[]) (sym (append-nil cur))
  split_from-whole cur (c ∷ s) (other, h) =
      if_false _ _ _ other
      ∙ split_from-whole (cur ++ (c ∷ [])) s h
      ∙ ap (λ t. List.◌∷◌ t List.[]) (longer cur c s)

  split_from-first :
      (cur a : String) (c : Char) (b : String)
      → Lacks a
      → IsMark c
      → split_from sep cur (a ++ (c ∷ b)) ≡ List.◌∷◌ (cur ++ a) (split_from sep "" b)
  unfolding split_from
  split_from-first cur [] c b h mark =
      ap (split_from sep cur) (nil-append (c ∷ b))
      ∙ if_true _ _ _ mark
      ∙ ap (λ t. List.◌∷◌ t (split_from sep "" b)) (sym (append-nil cur))
  split_from-first cur (d ∷ a) c b (other, h) mark =
      ap (split_from sep cur) (cons-append d a (c ∷ b))
      ∙ if_false _ _ _ other
      ∙ split_from-first (cur ++ (d ∷ [])) a c b h mark
      ∙ ap (λ t. List.◌∷◌ t (split_from sep "" b)) (longer cur d a)

  pub split-whole : (s : String) → Lacks s → split sep s ≡ List.◌∷◌ s List.[]
  unfolding split
  split-whole s h = split_from-whole "" s h ∙ ap (λ t. List.◌∷◌ t List.[]) (nil-append s)

  pub split-first :
      (a : String) (c : Char) (b : String)
      → Lacks a
      → IsMark c
      → split sep (a ++ (c ∷ b)) ≡ List.◌∷◌ a (split sep b)
  unfolding split
  split-first a c b h mark =
      split_from-first "" a c b h mark ∙ ap (λ t. List.◌∷◌ t (split_from sep "" b)) (nil-append a)

  -- A text that the separator divides, at its first place.
  abbrev pub Divided : String → Type 0
  Divided s = (a : String) × (c : Char) × (b : String) × (s ≡ a ++ (c ∷ b)) × Lacks a × IsMark c

  pub divide : (s : String) → Lacks s ⊎ Divided s
  divide [] = inl tt
  divide (c ∷ s) = elim (Bool-cases (nat_beq (code c) sep)) [
    | inl mark ↦ inr ([], c, s, sym (nil-append (c ∷ s)), tt, mark)
    | inr other ↦ elim (divide s) [
      | inl h ↦ inl (other, h)
      | inr (a, d, b, e, h, mark) ↦
          inr (c ∷ a, d, b, ap (λ t. c ∷ t) e ∙ sym (cons-append c a (d ∷ b)), (other, h), mark)
    ]
  ]

  pub split-some : (s : String) → (p : String) × (ps : List String) × (split sep s ≡ List.◌∷◌ p ps)
  split-some s = elim (divide s) [
    | inl h ↦ (s, List.[], split-whole s h)
    | inr (a, c, b, e, h, mark) ↦ (a, split sep b, ap (split sep) e ∙ split-first a c b h mark)
  ]
