-- ===== src/Base/Value.antt =====
-- The Python values that JSON texts and settings hold. Floats are a parameter of the type.
use Prim.Native.String.{String}
use mathlib.Core.Path.{◌≡◌, refl, ap}
use mathlib.Core.Bool.{Bool, true, false, not, ◌||◌}
use mathlib.Core.List.{List, [], ◌∷◌}
use gemma_vllm_worker.Base.Int.{ℤ, is_zero}
use gemma_vllm_worker.Base.Dict.{Dict}
use gemma_vllm_worker.Base.Equality.{◌==◌, string_comparable}

mutual
  pub data Value (F : Type 0) : Type 0 where
    null : Value F
    bool : Bool → Value F
    int : ℤ → Value F
    float : F → Value F
    str : String → Value F
    list : Items F → Value F
    tuple : Items F → Value F
    dict : Fields F → Value F

  pub data Items (F : Type 0) : Type 0 where
    nil : Items F
    cons : Value F → Items F → Items F

  pub data Fields (F : Type 0) : Type 0 where
    end : Fields F
    field : String → Value F → Fields F → Fields F

module _ {F : Type 0} where
  abbrev pub items_of : List (Value F) → Items F
  items_of [] = nil
  items_of (x ∷ xs) = cons x (items_of xs)

  abbrev pub values : Items F → List (Value F)
  values nil = []
  values (cons x xs) = x ∷ values xs

  abbrev pub fields_of : Dict (Value F) → Fields F
  fields_of [] = end
  fields_of ((k, v) ∷ d) = field k v (fields_of d)

  abbrev pub entries : Fields F → Dict (Value F)
  entries end = []
  entries (field k v fs) = (k, v) ∷ entries fs

  -- `v in (None, "", "None")`
  unfoldable pub is_sentinel : Value F → Bool
  is_sentinel null = true
  is_sentinel (str s) = (s == "") || (s == "None")
  is_sentinel (bool b) = false
  is_sentinel (int n) = false
  is_sentinel (float x) = false
  is_sentinel (list xs) = false
  is_sentinel (tuple xs) = false
  is_sentinel (dict fs) = false

  abbrev pub is_null : Value F → Bool
  is_null null = true
  is_null (bool b) = false
  is_null (int n) = false
  is_null (float x) = false
  is_null (str s) = false
  is_null (list xs) = false
  is_null (tuple xs) = false
  is_null (dict fs) = false

  -- `v == text`
  abbrev pub is_text : String → Value F → Bool
  is_text t null = false
  is_text t (bool b) = false
  is_text t (int n) = false
  is_text t (float x) = false
  is_text t (str s) = s == t
  is_text t (list xs) = false
  is_text t (tuple xs) = false
  is_text t (dict fs) = false

  -- `v == 0`, which `False` and a zero float are too.
  abbrev pub is_zero_value : (F → Bool) → Value F → Bool
  is_zero_value zero_float null = false
  is_zero_value zero_float (bool b) = not b
  is_zero_value zero_float (int n) = is_zero n
  is_zero_value zero_float (float x) = zero_float x
  is_zero_value zero_float (str s) = false
  is_zero_value zero_float (list xs) = false
  is_zero_value zero_float (tuple xs) = false
  is_zero_value zero_float (dict fs) = false

  abbrev has_items : Items F → Bool
  has_items nil = false
  has_items (cons x xs) = true

  abbrev pub has_fields : Fields F → Bool
  has_fields end = false
  has_fields (field k v fs) = true

  -- The truth of a value, as `if v` tests it.
  abbrev pub is_true : (F → Bool) → Value F → Bool
  is_true zero_float null = false
  is_true zero_float (bool b) = b
  is_true zero_float (int n) = not (is_zero n)
  is_true zero_float (float x) = not (zero_float x)
  is_true zero_float (str s) = not (s == "")
  is_true zero_float (list xs) = has_items xs
  is_true zero_float (tuple xs) = has_items xs
  is_true zero_float (dict fs) = has_fields fs

  pub entries-fields_of : (d : Dict (Value F)) → entries (fields_of d) ≡ d
  entries-fields_of [] = refl
  entries-fields_of ((k, v) ∷ d) = ap (λ e. (k, v) ∷ e) (entries-fields_of d)

  pub fields_of-entries : (fs : Fields F) → fields_of (entries fs) ≡ fs
  fields_of-entries end = refl
  fields_of-entries (field k v fs) = ap (field k v) (fields_of-entries fs)
