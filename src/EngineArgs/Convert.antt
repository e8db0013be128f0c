-- ===== src/EngineArgs/Convert.antt =====
-- `_convert_env_value_to_field_type` of src/engine_args.py.
pub mod Fits
use gemma_vllm_worker.Base.{
  Bool, true, false, not, Option, none, some, List, [], ◌∷◌, map, String, if◌then◌else◌, elem,
  get_or, ◌==◌, string_comparable,
}
use gemma_vllm_worker.Base.Int.{ℤ}
use gemma_vllm_worker.Base.Number.{parse_int}
use gemma_vllm_worker.Base.Text.{strip, lower, split}
use gemma_vllm_worker.Base.Value.{
  Value, null, bool, int, float, str, list, tuple, dict, items_of, values,
}
use gemma_vllm_worker.EngineArgs.Types.{
  FieldType, bool_type, int_type, float_type, str_type, dict_type, list_type, tuple_type, none_type,
  ellipsis, other_type, generic, Origin, union_of, dict_of, list_of, tuple_of, other_origin,
  is_none_type, is_ellipsis, get_args, without, first_or, resolve_field_type, Conversion, ok,
  value_error, type_error, Python,
}

abbrev pub any_none : List FieldType → Bool
any_none [] = false
any_none (t ∷ ts) = if is_none_type t then true else any_none ts

abbrev pub empty_values : List String
empty_values = "" ∷ "None" ∷ "none" ∷ []

abbrev pub true_values : List String
true_values = "true" ∷ "1" ∷ "yes" ∷ "on" ∷ []

-- `[x.strip() for x in s.split(",") if x.strip()]`
abbrev pub stripped : List String → List String
stripped [] = []
stripped (s ∷ ss) = let rest = stripped ss in if strip s == "" then rest else strip s ∷ rest

module _ (py : Python) where
  abbrev pub of_option :
      {A : Type 0} → (A → Value py.Float) → Option A → Conversion (Value py.Float)
  of_option f none = value_error
  of_option f (some a) = ok (f a)

  -- `json.loads(val)`, or the text.
  abbrev pub json_or_text : String → Value py.Float
  json_or_text val = get_or (py.loads val) (str val)

  -- `elem_type(x)` of each item, up to the first that raises.
  unfoldable pub call_all : FieldType → List (Value py.Float) → Conversion (List (Value py.Float))
  call_all t [] = ok []
  call_all t (x ∷ xs) = elim (py.call t x) [
    | ok y ↦ elim (call_all t xs) [
      | ok ys ↦ ok (y ∷ ys)
      | value_error ↦ value_error
      | type_error ↦ type_error
    ]
    | value_error ↦ value_error
    | type_error ↦ type_error
  ]

  abbrev pub as_tuple : Conversion (List (Value py.Float)) → Conversion (Value py.Float)
  as_tuple (ok xs) = ok (tuple (items_of xs))
  as_tuple value_error = value_error
  as_tuple type_error = type_error

  -- The items between commas.
  unfoldable pub split_tuple : FieldType → String → Conversion (Value py.Float)
  unfolding call_all
  split_tuple t val = as_tuple (call_all t (map str (stripped (split b',' val))))

  -- A `TypeError` of the items of a JSON list leads to the commas.
  abbrev pub or_split :
      FieldType → String → Conversion (List (Value py.Float)) → Conversion (Value py.Float)
  or_split t val (ok xs) = ok (tuple (items_of xs))
  or_split t val value_error = value_error
  or_split t val type_error = split_tuple t val

  abbrev pub tuple_of_json :
      FieldType → String → Option (Value py.Float) → Conversion (Value py.Float)
  tuple_of_json t val (some (list xs)) = or_split t val (call_all t (values xs))
  tuple_of_json t val other = split_tuple t val

  -- With the item type read from the whole annotation.
  unfoldable pub to_tuple : FieldType → String → Conversion (Value py.Float)
  unfolding split_tuple call_all
  to_tuple field_type val =
      tuple_of_json (first_or (without is_ellipsis (get_args field_type)) str_type) val
        (py.loads val)

  -- An int, else a float, else the text.
  unfoldable pub fallback : String → Value py.Float
  fallback val = elim (parse_int val) [
    | some n ↦ int n
    | none ↦ elim (py.float_of val) [ some x ↦ float x | none ↦ str val ]
  ]

  -- By the effective type.
  unfoldable pub convert_to : String → FieldType → FieldType → Conversion (Value py.Float)
  unfolding to_tuple fallback
  convert_to val t bool_type = ok (bool (elem (lower val) true_values))
  convert_to val t int_type = of_option int (parse_int val)
  convert_to val t float_type = of_option float (py.float_of val)
  convert_to val t str_type = ok (str val)
  convert_to val t dict_type = ok (json_or_text val)
  convert_to val t list_type = ok (json_or_text val)
  convert_to val t tuple_type = to_tuple t val
  convert_to val t none_type = ok (fallback val)
  convert_to val t ellipsis = ok (fallback val)
  convert_to val t (other_type name) = ok (fallback val)
  convert_to val t (generic union_of ts) = ok (fallback val)
  convert_to val t (generic dict_of ts) = ok (json_or_text val)
  convert_to val t (generic list_of ts) = ok (json_or_text val)
  convert_to val t (generic tuple_of ts) = to_tuple t val
  convert_to val t (generic other_origin ts) = ok (fallback val)

  -- `_convert_env_value_to_field_type`
  unfoldable pub convert : String → FieldType → Conversion (Value py.Float)
  unfolding convert_to resolve_field_type
  convert value t =
      let val = strip value in
      if elem val empty_values
      then (if any_none (get_args t) then ok null else value_error)
      else convert_to val t (resolve_field_type t)
