-- ===== src/Base/Text/Contains.antt =====
-- What `p in s` says of the texts.
use Prim.Native.Char.{code}
use Prim.Native.String.{String, ◌++◌, [], ◌∷◌}
use text.Mathlib.TextEquality.{Char-path}
use text.Mathlib.TextLemmas.{nil-append, cons-append}
use native.Mathlib.Omega.{arith}
use mathlib.Core.Path.{◌≡◌, refl, ◌∙◌, ap, ap₂, sym, subst}
use mathlib.Core.Logic.{◌↔◌, inl, inr}
use mathlib.Core.Bool.{Bool, true, ◌&&◌, ◌||◌}
use gemma_vllm_worker.Base.Equality.{nat_beq, nat_beq_iff}
use gemma_vllm_worker.Base.Tests.{Bool-cases}
use gemma_vllm_worker.Base.Text.{is_prefix, contains}

both : (x y : Bool) → x && y ≡ true → (x ≡ true) × (y ≡ true)
both x y e = (ground arith, ground arith)

is_prefix-append : (p b : String) → is_prefix p (p ++ b) ≡ true
is_prefix-append [] b = refl
is_prefix-append (c ∷ p) b =
    ap (is_prefix (c ∷ p)) (cons-append c p b)
    ∙ ap₂ (λ x y. x && y) ((nat_beq_iff (code c) (code c)).1 refl) (is_prefix-append p b)

append-is_prefix : (p s : String) → is_prefix p s ≡ true → (b : String) × (s ≡ p ++ b)
append-is_prefix [] s h = (s, sym (nil-append s))
append-is_prefix (c ∷ p) [] h = absurd (ground arith)
append-is_prefix (c ∷ p) (d ∷ s) h =
    let (first, rest) = both (nat_beq (code c) (code d)) (is_prefix p s) h in
    let same = Char-path c d ((nat_beq_iff (code c) (code d)).0 first) in
    let (b, e) = append-is_prefix p s rest in
    (b, ap₂ (λ x t. x ∷ t) (sym same) e ∙ sym (cons-append c p b))

-- A text with the part `p`.
abbrev pub Holds : String → String → Type 0
Holds p s = (a : String) × (b : String) × (s ≡ a ++ (p ++ b))

contains-of_prefix : (p s : String) → is_prefix p s ≡ true → contains p s ≡ true
unfolding contains
contains-of_prefix p [] h = h
contains-of_prefix p (c ∷ s) h = ap (λ x. x || contains p s) h

contains-append : (a p b : String) → contains p (a ++ (p ++ b)) ≡ true
unfolding contains
contains-append [] p b =
    ap (contains p) (nil-append (p ++ b)) ∙ contains-of_prefix p (p ++ b) (is_prefix-append p b)
contains-append (c ∷ a) p b =
    let t = a ++ (p ++ b) in
    ap (contains p) (cons-append c a (p ++ b))
    ∙ ap (λ x. is_prefix p (c ∷ t) || x) (contains-append a p b)
    ∙ or_true (is_prefix p (c ∷ t))
  where
    or_true : (x : Bool) → x || true ≡ true
    or_true x = ground arith

append-contains : (p s : String) → contains p s ≡ true → Holds p s
unfolding contains
append-contains p [] h =
    let (b, e) = append-is_prefix p [] h in ([], b, e ∙ sym (nil-append (p ++ b)))
append-contains p (c ∷ s) h = elim (Bool-cases (is_prefix p (c ∷ s))) [
  | inl here ↦
      let (b, e) = append-is_prefix p (c ∷ s) here in ([], b, e ∙ sym (nil-append (p ++ b)))
  | inr later ↦
      let (a, b, e) = append-contains p s (sym (ap (λ x. x || contains p s) later) ∙ h) in
      (c ∷ a, b, ap (λ t. c ∷ t) e ∙ sym (cons-append c a (p ++ b)))
]

pub contains_iff : (p s : String) → (contains p s ≡ true) ↔ Holds p s
contains_iff p s = (
  append-contains p s,
  (λ (a, b, e). subst (λ t. contains p t ≡ true) (sym e) (contains-append a p b)),
)
