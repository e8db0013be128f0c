-- ===== src/Utilities.antt =====
-- The helpers of src/utils.py and src/engine.py that no other code of the worker calls.
pub mod Cores
use Prim.Native.String
use Prim.Native.Char.{code}
use gemma_vllm_worker.Base.{
  ℕ, suc, ◌≡◌, ◌↔◌, refl, Bool, true, false, ◌&&◌, Option, none, some, List, [], ◌∷◌, String,
  if◌then◌else◌, ◌==◌, elem, length, Comparable, string_comparable, nat_comparable, eq_iff, arith,
  ap,
}
use mathlib.Core.Path.{ap₂}
use gemma_vllm_worker.Base.Int.{pos, negsuc}
use gemma_vllm_worker.Base.Number.{parse_int}
use gemma_vllm_worker.Base.Text.{contains, strip, drop, is_prefix}
use gemma_vllm_worker.Base.Dict.{Dict, lookup}
use gemma_vllm_worker.Batch.{Quantity, least}
use gemma_vllm_worker.Generate.{Settings}

-- The text after the first ": ", and that before it.
unfoldable pub after_mark : String → Option String
after_mark Prim.Native.String.[] = none
after_mark (Prim.Native.String.◌∷◌ c s) =
    let rest = after_mark s in
    if is_prefix ": " (Prim.Native.String.◌∷◌ c s) then some (drop 1 s) else rest

unfoldable pub before_mark : String → String
before_mark Prim.Native.String.[] = ""
before_mark (Prim.Native.String.◌∷◌ c s) =
    let rest = before_mark s in
    if is_prefix ": " (Prim.Native.String.◌∷◌ c s) then "" else Prim.Native.String.◌∷◌ c rest

-- `line.strip().split(': ')[1]`, which raises where there is no ": ".
unfoldable pub value_of : String → Option String
unfolding after_mark before_mark
value_of line = elim (after_mark (strip line)) [ none ↦ none | some s ↦ some (before_mark s) ]

abbrev pub Core : Type 0
Core = Option String × String

abbrev pub same_id : Option String → Option String → Bool
same_id none none = true
same_id none (some b) = false
same_id (some a) none = false
same_id (some a) (some b) = a == b

abbrev pub same_core : Core → Core → Bool
same_core (a, c) (b, d) = same_id a b && (c == d)

pub same_core_iff : (c d : Core) → (same_core c d ≡ true) ↔ (c ≡ d)
same_core_iff (none, c) (none, d) =
    ((λ h. ap (λ x. (none, x)) ((eq_iff c d).0 h)), (λ h. (eq_iff c d).1 (ap (λ x. x.1) h)))
same_core_iff (none, c) (some b, d) = ((λ h. ground arith), (λ h. apart (ap (λ x. x.0) h)))
  where
    apart : ◌≡◌ {A = Option String} none (some b) → false ≡ true
    apart e = cc
same_core_iff (some a, c) (none, d) = ((λ h. ground arith), (λ h. apart (ap (λ x. x.0) h)))
  where
    apart : ◌≡◌ {A = Option String} (some a) none → false ≡ true
    apart e = cc
same_core_iff (some a, c) (some b, d) = (
  (λ h.
      let (first, second) = both (a == b) (c == d) h in
      ap₂ (λ x y. (some x, y)) ((eq_iff a b).0 first) ((eq_iff c d).0 second)),
  (λ h.
      let first = (eq_iff a b).1 (inner (ap (λ x. x.0) h)) in
      let second = (eq_iff c d).1 (ap (λ x. x.1) h) in rw first second),
)
  where
    inner : ◌≡◌ {A = Option String} (some a) (some b) → a ≡ b
    inner e = cc

    both : (x y : Bool) → x && y ≡ true → (x ≡ true) × (y ≡ true)
    both x y e = (ground arith, ground arith)

instance abbrev pub core_comparable : Comparable Core
core_comparable = record { equals = same_core; equals_iff = same_core_iff }

-- The local variables of `count_physical_cores`; the cores are a set, each is there once.
pub record Scan : Type 0 where
  pub current_physical_id : Option String
  pub cores : List Core

abbrev pub add : Core → List Core → List Core
add c cores = if elem c cores then cores else c ∷ cores

-- What the loop does with a line; none where it raises.
unfoldable pub scan_line : String → Scan → Option Scan
unfolding value_of
scan_line line s =
    if contains "physical id" line
    then (elim (value_of line) [
      | none ↦ none
      | some id ↦ some (record s { current_physical_id = some id })
    ])
    else if contains "core id" line
    then (elim (value_of line) [
      | none ↦ none
      | some id ↦ some (record s { cores = add (s.current_physical_id, id) s.cores })
    ])
    else some s

abbrev pub go_on : {A B : Type 0} → Option A → (A → Option B) → Option B
go_on none f = none
go_on (some a) f = f a

unfoldable pub scan : List String → Scan → Option Scan
unfolding scan_line
scan [] s = some s
scan (line ∷ lines) s = go_on (scan_line line s) (scan lines)

-- `count_physical_cores`, of the lines of /proc/cpuinfo.
unfoldable pub count_physical_cores : List String → Option ℕ
unfolding scan
count_physical_cores content =
    go_on (scan content (record { current_physical_id = none; cores = [] }))
      λ s. some (length s.cores)

-- `get_int_bool_env`; none where the text is no number.
unfoldable pub get_int_bool_env : Dict String → String → Bool → Option Bool
get_int_bool_env env env_var default = elim (lookup env_var env) [
  | none ↦ some default
  | some s ↦ go_on (parse_int s) λ n. elim n [ pos k ↦ some (k == 1) | negsuc k ↦ some false ]
]

-- `dynamic_batch_size` of the engine.
unfoldable pub dynamic_batch_size : (q : Quantity) → Settings q.Num → q.Num → q.Num → q.Num
dynamic_batch_size q s current_batch_size growth_factor =
    least q (q.mul current_batch_size growth_factor) s.default_batch_size
