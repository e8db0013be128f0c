-- ===== src/EngineArgs/Types.antt =====
-- The annotations of the fields of vLLM's `AsyncEngineArgs`, as `get_origin` and `get_args` take them
-- apart, and the conversions that the Python runtime gives.
use gemma_vllm_worker.Base.{
  Bool, true, false, Option, none, some, List, [], ◌∷◌, String, if◌then◌else◌,
}
use gemma_vllm_worker.Base.Value.{Value}

pub data Origin : Type 0 where
  union_of dict_of list_of tuple_of other_origin : Origin

mutual
  pub data FieldType : Type 0 where
    bool_type int_type float_type str_type dict_type list_type tuple_type none_type : FieldType
    ellipsis : FieldType
    -- Any other class, or an argument that is no type.
    other_type : String → FieldType
    generic : Origin → TypeArgs → FieldType

  pub data TypeArgs : Type 0 where
    no_args : TypeArgs
    type_arg : FieldType → TypeArgs → TypeArgs

abbrev pub list_of_args : TypeArgs → List FieldType
list_of_args no_args = []
list_of_args (type_arg t ts) = t ∷ list_of_args ts

abbrev pub is_none_type : FieldType → Bool
is_none_type none_type = true
is_none_type t = false

abbrev pub is_ellipsis : FieldType → Bool
is_ellipsis ellipsis = true
is_ellipsis t = false

abbrev pub get_origin : FieldType → Option Origin
get_origin (generic o ts) = some o
get_origin t = none

abbrev pub get_args : FieldType → List FieldType
get_args (generic o ts) = list_of_args ts
get_args t = []

-- The items that do not pass a test.
abbrev pub without : (FieldType → Bool) → List FieldType → List FieldType
without p [] = []
without p (t ∷ ts) = if p t then without p ts else t ∷ without p ts

abbrev pub first_or : List FieldType → FieldType → FieldType
first_or [] t = t
first_or (u ∷ us) t = u

-- `_resolve_field_type`
unfoldable pub resolve_field_type : FieldType → FieldType
resolve_field_type t = elim (get_origin t) [
  | none ↦ t
  | some o ↦ first_or (without is_none_type (get_args t)) t
]

-- What a conversion gives; a `JSONDecodeError` is a `ValueError`.
pub data Conversion (A : Type 0) : Type 0 where
  ok : A → Conversion A
  value_error : Conversion A
  type_error : Conversion A

-- The runtime: its floats, `float(s)`, `json.loads(s)`, and the call of a type on a value.
pub record Python : Type 1 where
  pub Float : Type 0
  pub float_of : String → Option Float
  pub is_zero_float : Float → Bool
  -- The literals of the source.
  pub float_0 : Float
  pub float_0_95 : Float
  pub loads : String → Option (Value Float)
  pub call : FieldType → Value Float → Conversion (Value Float)
