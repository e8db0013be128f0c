-- ===== src/Limits/Lookup.antt =====
-- What the dict of the limits holds.
use gemma_vllm_worker.Base.{
  ◌≡◌, ◌≢◌, ◌⊎◌, inl, inr, refl, sym, ap, ◌∙◌, Option, none, some, List, [], ◌∷◌, String,
  if◌then◌else◌, ◌==◌, string_comparable,
}
use gemma_vllm_worker.Base.Int.{ℤ}
use gemma_vllm_worker.Base.Text.{split}
use gemma_vllm_worker.Base.Dict.{Dict, lookup, insert, lookup-insert}
use gemma_vllm_worker.Limits.{read_pair, read_pairs, collect_pairs, convert_limit_mm_per_prompt}
use gemma_vllm_worker.Limits.Pairs.{Reads, read_pair_iff}

-- The value of the last pair with the key, or a default.
abbrev pub last_of : String → List (String × ℤ) → Option ℤ → Option ℤ
last_of k [] d = d
last_of k ((key, n) ∷ ps) d = last_of k ps (if key == k then some n else d)

-- Some text is no name and number.
abbrev pub HasBad : List String → Type 0
HasBad [] = ⊥
HasBad (t ∷ ts) = ((key : String) (n : ℤ) → ¬ Reads t key n) ⊎ HasBad ts

-- The texts are these names and numbers.
abbrev pub AllRead : List String → List (String × ℤ) → Type 0
AllRead [] [] = Unit
AllRead [] (p ∷ ps) = ⊥
AllRead (t ∷ ts) [] = ⊥
AllRead (t ∷ ts) ((key, n) ∷ ps) = Reads t key n × AllRead ts ps

abbrev Converts : List String → Dict ℤ → Type 0
Converts ts d =
    (HasBad ts × (collect_pairs (read_pairs ts) d ≡ none))
    ⊎ ((r : Dict ℤ) × (ps : List (String × ℤ)) × (collect_pairs (read_pairs ts) d ≡ some r)
        × AllRead ts ps
        × ((k : String) → lookup k r ≡ last_of k ps (lookup k d)))

-- A text that is read, or not.
pair-cases :
    (t : String)
    → ((read_pair t ≡ none) × ((key : String) (n : ℤ) → ¬ Reads t key n))
      ⊎ ((key : String) × (n : ℤ) × (read_pair t ≡ some (key, n)) × Reads t key n)
pair-cases t = by_result (read_pair t) refl
  where
    by_result :
        (o : Option (String × ℤ))
        → read_pair t ≡ o
        → ((read_pair t ≡ none) × ((key : String) (n : ℤ) → ¬ Reads t key n))
          ⊎ ((key : String) × (n : ℤ) × (read_pair t ≡ some (key, n)) × Reads t key n)
    by_result none e = inl (e, (λ key n h. apart (key, n) (sym e ∙ (read_pair_iff t key n).1 h)))
      where
        apart : (p : String × ℤ) → ◌≢◌ {A = Option (String × ℤ)} none (some p)
        apart p h = cc
    by_result (some (key, n)) e = inr (key, n, e, (read_pair_iff t key n).0 e)

collect_pairs-Converts : (ts : List String) (d : Dict ℤ) → Converts ts d
unfolding collect_pairs
collect_pairs-Converts [] d = inr (d, [], refl, tt, (λ k. refl))
collect_pairs-Converts (t ∷ ts) d = elim (pair-cases t) [
  | inl (e, bad) ↦ inl (inl bad, ap (λ o. collect_pairs (o ∷ read_pairs ts) d) e)
  | inr (key, n, e, reads) ↦
      let first = ap (λ o. collect_pairs (o ∷ read_pairs ts) d) e in
      elim (collect_pairs-Converts ts (insert key n d)) [
        | inl (bad, none_of) ↦ inl (inr bad, first ∙ none_of)
        | inr (r, ps, made, all, holds) ↦ inr (
          r,
          (key, n) ∷ ps,
          first ∙ made,
          (reads, all),
          (λ k. holds k ∙ ap (last_of k ps) (lookup-insert key k n d)),
        )
      ]
]

-- Either some text between two commas is not a name and a number around its one "=", and the conversion
-- raises; or all of them are, and it gives a dict in which every name has the number of its last pair, and no
-- other name has one.
pub convert_limit_lem :
    (s : String)
    → let ts = split b',' s in
      (HasBad ts × (convert_limit_mm_per_prompt s ≡ none))
      ⊎ ((r : Dict ℤ) × (ps : List (String × ℤ)) × (convert_limit_mm_per_prompt s ≡ some r)
          × AllRead ts ps
          × ((k : String) → lookup k r ≡ last_of k ps none))
unfolding convert_limit_mm_per_prompt lookup
convert_limit_lem s = collect_pairs-Converts (split b',' s) []
