-- ===== src/EngineArgs/Convert/Fits.antt =====
-- Of which type the value is that a variable is converted to.
use gemma_vllm_worker.Base.{
  ◌≡◌, ◌⊎◌, refl, sym, subst, Bool, true, false, Option, none, some, List, String, elem,
  string_comparable, if◌then◌else◌, arith, Bool-cases, inl, inr, if_true, if_false, ◌∙◌,
}
use gemma_vllm_worker.Base.Int.{ℤ}
use gemma_vllm_worker.Base.Number.{parse_int}
use gemma_vllm_worker.Base.Text.{strip}
use gemma_vllm_worker.Base.Value.{
  Value, Items, null, bool, int, float, str, list, tuple, dict, values, items_of,
}
use gemma_vllm_worker.EngineArgs.Types.{
  FieldType, bool_type, int_type, float_type, str_type, dict_type, list_type, tuple_type, none_type,
  ellipsis, other_type, generic, union_of, dict_of, list_of, tuple_of, other_origin, get_args,
  resolve_field_type, Conversion, ok, value_error, type_error, Python,
}
use gemma_vllm_worker.EngineArgs.Convert.{
  any_none, empty_values, of_option, call_all, as_tuple, split_tuple, or_split, tuple_of_json,
  to_tuple, fallback, convert_to, convert,
}

ok_eq : {A : Type 0} {a b : A} → ok a ≡ ok b → a ≡ b
ok_eq e = cc

module _ (py : Python) where
  abbrev pub IsTuple : Value py.Float → Type 0
  IsTuple v = (xs : Items py.Float) × (v ≡ tuple xs)

  -- An int, a float or a text.
  abbrev pub IsScalar : Value py.Float → Type 0
  IsScalar v =
      ((n : ℤ) × (v ≡ int n)) ⊎ (((x : py.Float) × (v ≡ float x)) ⊎ ((s : String) × (v ≡ str s)))

  -- What a value of an effective type is. A JSON value is of any kind.
  abbrev pub Fits : FieldType → Value py.Float → Type 0
  Fits bool_type v = (b : Bool) × (v ≡ bool b)
  Fits int_type v = (n : ℤ) × (v ≡ int n)
  Fits float_type v = (x : py.Float) × (v ≡ float x)
  Fits str_type v = (s : String) × (v ≡ str s)
  Fits dict_type v = Unit
  Fits list_type v = Unit
  Fits tuple_type v = IsTuple v
  Fits none_type v = IsScalar v
  Fits ellipsis v = IsScalar v
  Fits (other_type name) v = IsScalar v
  Fits (generic union_of ts) v = IsScalar v
  Fits (generic dict_of ts) v = Unit
  Fits (generic list_of ts) v = Unit
  Fits (generic tuple_of ts) v = IsTuple v
  Fits (generic other_origin ts) v = IsScalar v

  of_option_ok :
      {A : Type 0} (f : A → Value py.Float) (o : Option A) (v : Value py.Float)
      → of_option py f o ≡ ok v
      → (a : A) × (v ≡ f a)
  of_option_ok f none v e = absurd (ground arith)
  of_option_ok f (some a) v e = (a, sym (ok_eq e))

  as_tuple-IsTuple :
      (c : Conversion (List (Value py.Float))) (v : Value py.Float)
      → as_tuple py c ≡ ok v
      → IsTuple v
  as_tuple-IsTuple (ok xs) v e = (items_of xs, sym (ok_eq e))
  as_tuple-IsTuple value_error v e = absurd (ground arith)
  as_tuple-IsTuple type_error v e = absurd (ground arith)

  split_tuple-IsTuple :
      (t : FieldType) (val : String) (v : Value py.Float) → split_tuple py t val ≡ ok v → IsTuple v
  unfolding split_tuple
  split_tuple-IsTuple t val v e = as_tuple-IsTuple _ v e

  or_split-IsTuple :
      (t : FieldType) (val : String) (c : Conversion (List (Value py.Float))) (v : Value py.Float)
      → or_split py t val c ≡ ok v
      → IsTuple v
  or_split-IsTuple t val (ok xs) v e = (items_of xs, sym (ok_eq e))
  or_split-IsTuple t val value_error v e = absurd (ground arith)
  or_split-IsTuple t val type_error v e = split_tuple-IsTuple t val v e

  tuple_of_json-IsTuple :
      (t : FieldType) (val : String) (o : Option (Value py.Float)) (v : Value py.Float)
      → tuple_of_json py t val o ≡ ok v
      → IsTuple v
  tuple_of_json-IsTuple t val none v e = split_tuple-IsTuple t val v e
  tuple_of_json-IsTuple t val (some (list xs)) v e =
      or_split-IsTuple t val (call_all py t (values xs)) v e
  tuple_of_json-IsTuple t val (some null) v e = split_tuple-IsTuple t val v e
  tuple_of_json-IsTuple t val (some (bool b)) v e = split_tuple-IsTuple t val v e
  tuple_of_json-IsTuple t val (some (int n)) v e = split_tuple-IsTuple t val v e
  tuple_of_json-IsTuple t val (some (float x)) v e = split_tuple-IsTuple t val v e
  tuple_of_json-IsTuple t val (some (str s)) v e = split_tuple-IsTuple t val v e
  tuple_of_json-IsTuple t val (some (tuple xs)) v e = split_tuple-IsTuple t val v e
  tuple_of_json-IsTuple t val (some (dict fs)) v e = split_tuple-IsTuple t val v e

  to_tuple-IsTuple :
      (t : FieldType) (val : String) (v : Value py.Float) → to_tuple py t val ≡ ok v → IsTuple v
  unfolding to_tuple
  to_tuple-IsTuple t val v e = tuple_of_json-IsTuple _ val (py.loads val) v e

  fallback-IsScalar : (val : String) → IsScalar (fallback py val)
  unfolding fallback
  fallback-IsScalar val = one (parse_int val) (py.float_of val)
    where
      one :
          (i : Option ℤ) (f : Option py.Float)
          → IsScalar
              (elim i [ some n ↦ int n | none ↦ elim f [ some x ↦ float x | none ↦ str val ] ])
      one none none = inr (inr (val, refl))
      one none (some x) = inr (inl (x, refl))
      one (some n) f = inl (n, refl)

  scalar :
      (val : String) (v : Value py.Float)
      → ◌≡◌ {A = Conversion (Value py.Float)} (ok (fallback py val)) (ok v)
      → IsScalar v
  scalar val v e = subst IsScalar (ok_eq e) (fallback-IsScalar val)

  convert_to-Fits :
      (val : String) (t r : FieldType) (v : Value py.Float)
      → convert_to py val t r ≡ ok v
      → Fits r v
  unfolding convert_to
  convert_to-Fits val t bool_type v e = (_, sym (ok_eq e))
  convert_to-Fits val t int_type v e = of_option_ok int (parse_int val) v e
  convert_to-Fits val t float_type v e = of_option_ok float (py.float_of val) v e
  convert_to-Fits val t str_type v e = (val, sym (ok_eq e))
  convert_to-Fits val t dict_type v e = tt
  convert_to-Fits val t list_type v e = tt
  convert_to-Fits val t tuple_type v e = to_tuple-IsTuple t val v e
  convert_to-Fits val t none_type v e = scalar val v e
  convert_to-Fits val t ellipsis v e = scalar val v e
  convert_to-Fits val t (other_type name) v e = scalar val v e
  convert_to-Fits val t (generic union_of ts) v e = scalar val v e
  convert_to-Fits val t (generic dict_of ts) v e = tt
  convert_to-Fits val t (generic list_of ts) v e = tt
  convert_to-Fits val t (generic tuple_of ts) v e = to_tuple-IsTuple t val v e
  convert_to-Fits val t (generic other_origin ts) v e = scalar val v e

-- A variable that is converted gives `None`, for an empty text and an annotation with `None` among its
-- arguments, or a value of the effective type: a bool, an int, a float, a text, a tuple, any value for a
-- dict or a list, and an int, a float or a text for any other. For an annotation such as dict[str, int] the
-- effective type is its first argument, so that the value is a text.
pub convert-Fits :
    (py : Python) (value : String) (t : FieldType) (v : Value py.Float)
    → convert py value t ≡ ok v
    → ((v ≡ null) × (elem (strip value) empty_values ≡ true) × (any_none (get_args t) ≡ true))
      ⊎ ((elem (strip value) empty_values ≡ false) × Fits py (resolve_field_type t) v)
unfolding convert
convert-Fits py value t v e = elim (Bool-cases (elem (strip value) empty_values)) [
  | inl empty ↦ inl (of_empty (any_none (get_args t)) refl empty (sym (if_true _ _ _ empty) ∙ e))
  | inr given ↦ inr (
    given,
    convert_to-Fits py (strip value) t (resolve_field_type t) v (sym (if_false _ _ _ given) ∙ e),
  )
]
  where
    of_empty :
        (b : Bool)
        → any_none (get_args t) ≡ b
        → elem (strip value) empty_values ≡ true
        → ◌≡◌ {A = Conversion (Value py.Float)} (if b then ok null else value_error) (ok v)
        → (v ≡ null) × (elem (strip value) empty_values ≡ true) × (any_none (get_args t) ≡ true)
    of_empty true h empty e = (sym (ok_eq e), empty, h)
    of_empty false h empty e = absurd (ground arith)
