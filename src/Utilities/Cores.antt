-- ===== src/Utilities/Cores.antt =====
-- The number of cores.
use gemma_vllm_worker.Base.{
  ℕ, ◌≡◌, refl, sym, ◌∙◌, subst, Bool, true, false, not, ◌&&◌, ◌||◌, Option, none, some, List, [],
  ◌∷◌, String, if◌then◌else◌, ◌==◌, elem, length, string_comparable, arith, inl, inr, Bool-cases,
  get_or, if_true, if_false,
}
use gemma_vllm_worker.Base.Text.{contains}
use gemma_vllm_worker.Utilities.{
  Core, core_comparable, same_core_iff, value_of, Scan, add, scan_line, scan, go_on,
  count_physical_cores,
}

abbrev pub is_distinct : List Core → Bool
is_distinct [] = true
is_distinct (c ∷ cs) = not (elem c cs) && is_distinct cs

-- All pairs that the file has, in its order, after a physical id: each line of a core, with the last
-- physical id before it.
abbrev pub pairs : Option String → List String → List Core
pairs id [] = []
pairs id (line ∷ lines) =
    if contains "physical id" line
    then pairs (value_of line) lines
    else if contains "core id" line
    then (id, get_or (value_of line) "") ∷ pairs id lines
    else pairs id lines

elem-add : (p c : Core) (cs : List Core) → elem p (add c cs) ≡ (p == c) || elem p cs
elem-add p c cs = elim (Bool-cases (elem c cs)) [
  | inl there ↦ rw there (elim (Bool-cases (p == c)) [
    | inl same ↦ rw same (subst (λ x. elem x cs ≡ true) (sym ((same_core_iff p c).0 same)) there)
    | inr other ↦ rw other refl
  ])
  | inr missing ↦ rw missing refl
]

add-is_distinct :
    (c : Core) (cs : List Core) → is_distinct cs ≡ true → is_distinct (add c cs) ≡ true
add-is_distinct c cs h = elim (Bool-cases (elem c cs)) [
  | inl there ↦ rw there h
  | inr missing ↦ rw missing (rw missing h)
]

-- The pairs that are found, or are still to come.
abbrev holds : Scan → List String → Core → Bool
holds s lines p = elem p (pairs s.current_physical_id lines) || elem p s.cores

abbrev Steps : String → List String → Scan → Scan → Type 0
Steps line lines s u =
    (is_distinct u.cores ≡ true) × ((p : Core) → holds u lines p ≡ holds s (line ∷ lines) p)

some_eq : {s u : Scan} → ◌≡◌ {A = Option Scan} (some s) (some u) → s ≡ u
some_eq e = cc

move : (a b x : Bool) → x || (a || b) ≡ (a || x) || b
move a b x = ground arith

scan_line_lem :
    (line : String) (lines : List String) (s u : Scan)
    → is_distinct s.cores ≡ true
    → scan_line line s ≡ some u
    → Steps line lines s u
unfolding scan_line
scan_line_lem line lines s u distinct e = elim (Bool-cases (contains "physical id" line)) [
  | inl physical ↦ rw physical (on_physical (value_of line) (sym (if_true _ _ _ physical) ∙ e))
  | inr other ↦ elim (Bool-cases (contains "core id" line)) [
    | inl core ↦ rw other (
        rw core
          (on_core (value_of line) (sym (if_true _ _ _ core) ∙ sym (if_false _ _ _ other) ∙ e)))
    | inr neither ↦ rw other (
        rw neither (
          let same = some_eq (sym (if_false _ _ _ neither) ∙ sym (if_false _ _ _ other) ∙ e) in
          subst
            (λ v. (is_distinct v.cores ≡ true) × ((p : Core) → holds v lines p ≡ holds s lines p))
            same (distinct, (λ p. refl))))
  ]
]
  where
    on_physical :
        (o : Option String)
        → ◌≡◌ {A = Option Scan}
            (elim o [ none ↦ none | some id ↦ some (record s { current_physical_id = some id }) ])
            (some u)
        → (is_distinct u.cores ≡ true)
          × ((p : Core) → holds u lines p ≡ elem p (pairs o lines) || elem p s.cores)
    on_physical none h = absurd (ground arith)
    on_physical (some id) h =
        subst
          (λ v.
            (is_distinct v.cores ≡ true)
            × ((p : Core) → holds v lines p ≡ elem p (pairs (some id) lines) || elem p s.cores))
          (some_eq h) (distinct, (λ p. refl))

    on_core :
        (o : Option String)
        → ◌≡◌ {A = Option Scan}
            (elim o [
              | none ↦ none
              | some id ↦ some (record s { cores = add (s.current_physical_id, id) s.cores })
            ])
            (some u)
        → (is_distinct u.cores ≡ true)
          × ((p : Core)
              → holds u lines p
                ≡ elem p ((s.current_physical_id, get_or o "") ∷ pairs s.current_physical_id lines)
                  || elem p s.cores)
    on_core none h = absurd (ground arith)
    on_core (some id) h =
        let found : Core = (s.current_physical_id, id) in
        subst
          (λ v.
            (is_distinct v.cores ≡ true)
            × ((p : Core)
                → holds v lines p
                  ≡ elem p (found ∷ pairs s.current_physical_id lines) || elem p s.cores))
          (some_eq h)
          (
            add-is_distinct found s.cores distinct,
            (λ p.
                rw (elem-add p found s.cores) (
                  move (p == found) (elem p s.cores) (elem p (pairs s.current_physical_id lines)))),
          )

go_on-some :
    {A B : Type 0} (o : Option A) (f : A → Option B) (b : B)
    → go_on o f ≡ some b
    → (a : A) × (o ≡ some a) × (f a ≡ some b)
go_on-some none f b e = absurd (ground arith)
go_on-some (some a) f b e = (a, refl, e)

scan_lem :
    (lines : List String) (s t : Scan)
    → is_distinct s.cores ≡ true
    → scan lines s ≡ some t
    → (is_distinct t.cores ≡ true) × ((p : Core) → elem p t.cores ≡ holds s lines p)
unfolding scan
scan_lem [] s t distinct e =
    subst (λ v. (is_distinct v.cores ≡ true) × ((p : Core) → elem p v.cores ≡ holds s [] p))
      (some_eq e) (distinct, (λ p. refl))
scan_lem (line ∷ lines) s t distinct e =
    let (u, first, rest) = go_on-some (scan_line line s) (scan lines) t e in
    let (now, step) = scan_line_lem line lines s u distinct first in
    let (then_distinct, all) = scan_lem lines u t now rest in (then_distinct, (λ p. all p ∙ step p))

no_more : (b : Bool) → b || false ≡ b
no_more b = ground arith

-- A count is the number of distinct pairs of a physical id and a core id in the file, however often each of
-- them is there and in whatever order.
pub count_physical_cores_lem :
    (content : List String) (n : ℕ)
    → count_physical_cores content ≡ some n
    → (cores : List Core) × (is_distinct cores ≡ true)
      × (length cores ≡ n)
      × ((p : Core) → elem p cores ≡ elem p (pairs none content))
unfolding count_physical_cores
count_physical_cores_lem content n e =
    let at_first : Scan = record { current_physical_id = none; cores = [] } in
    let (t, scanned, counted) = go_on-some (scan content at_first) _ n e in
    let (distinct, all) = scan_lem content at_first t refl scanned in
    (t.cores, distinct, count_eq counted, (λ p. all p ∙ no_more (elem p (pairs none content))))
  where
    count_eq : {a b : ℕ} → ◌≡◌ {A = Option ℕ} (some a) (some b) → a ≡ b
    count_eq h = cc
