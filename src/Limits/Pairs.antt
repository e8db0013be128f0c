-- ===== src/Limits/Pairs.antt =====
-- Which texts are read as a name with a number.
use Prim.Native.Char.{Char}
use Prim.Native.String
use gemma_vllm_worker.Base.{
  ◌≡◌, ◌↔◌, sym, ap, ◌∙◌, subst, inl, inr, Option, none, some, ◌∷◌, String, ◌<>◌, arith,
}
use gemma_vllm_worker.Base.Int.{ℤ}
use gemma_vllm_worker.Base.Number.{parse_int}
use gemma_vllm_worker.Base.Text.{split}
use gemma_vllm_worker.Base.Text.Split.{Lacks, IsMark, divide, split-whole, split-first, split-some}
use gemma_vllm_worker.Limits.{with_value, of_parts, read_pair}

-- A name and a number around the one "=" of the text.
abbrev pub Reads : String → String → ℤ → Type 0
Reads pair key n =
    (c : Char) × (text : String) × (pair ≡ key <> Prim.Native.String.◌∷◌ c text)
    × IsMark b'=' c
    × Lacks b'=' key
    × Lacks b'=' text
    × (parse_int text ≡ some n)

Reads-read_pair : (pair key : String) (n : ℤ) → Reads pair key n → read_pair pair ≡ some (key, n)
unfolding read_pair
Reads-read_pair pair key n (c, text, e, mark, h, k, number) =
    ap (λ t. of_parts (split b'=' t)) e
    ∙ ap of_parts (split-first b'=' key c text h mark)
    ∙ ap (λ l. of_parts (key ∷ l)) (split-whole b'=' text k)
    ∙ ap (with_value key) number

with_value-some :
    (key : String) (o : Option ℤ) (k : String) (n : ℤ)
    → with_value key o ≡ some (k, n)
    → (key ≡ k) × (o ≡ some n)
with_value-some key none k n e = absurd (ground arith)
with_value-some key (some m) k n e = (ap (λ x. x.0) (some_eq e), ap (λ x. some x.1) (some_eq e))
  where
    some_eq : {x y : String × ℤ} → ◌≡◌ {A = Option (String × ℤ)} (some x) (some y) → x ≡ y
    some_eq h = cc

no_more : {A : Type 0} (p : String × ℤ) → ◌≡◌ {A = Option (String × ℤ)} none (some p) → A
no_more p e = absurd (ground arith)

read_pair-Reads : (pair key : String) (n : ℤ) → read_pair pair ≡ some (key, n) → Reads pair key n
unfolding read_pair
read_pair-Reads pair key n e = elim (divide b'=' pair) [
  | inl whole ↦ no_more (key, n) (sym (ap of_parts (split-whole b'=' pair whole)) ∙ e)
  | inr (a, c, b, at, h, mark) ↦
      let parts = ap (split b'=') at ∙ split-first b'=' a c b h mark in
      elim (divide b'=' b) [
        | inl whole ↦
            let (same, number) =
              with_value-some a (parse_int b) key n
                (sym (ap of_parts (parts ∙ ap (λ l. a ∷ l) (split-whole b'=' b whole))) ∙ e) in
            subst (λ k. Reads pair k n) same (c, b, at, mark, h, whole, number)
        | inr (a', c', b', at', h', mark') ↦
            let (p, ps, more) = split-some b'=' b' in
            let three =
              parts
              ∙ ap (λ l. a ∷ l)
                  (ap (split b'=') at'
                    ∙ split-first b'=' a' c' b' h' mark'
                    ∙ ap (λ l. a' ∷ l) more) in
            no_more (key, n) (sym (ap of_parts three) ∙ e)
      ]
]

pub read_pair_iff :
    (pair key : String) (n : ℤ) → (read_pair pair ≡ some (key, n)) ↔ Reads pair key n
read_pair_iff pair key n = (read_pair-Reads pair key n, Reads-read_pair pair key n)
