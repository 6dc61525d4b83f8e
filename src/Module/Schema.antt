-- ===== src/Module/Schema.antt =====
-- The data forms that internal/module/schema.go lets a module declare. `parses` tells whether
-- strconv.ParseFloat accepts a text. A field's unit, group and display are not looked at.
pub mod Request
pub mod Fields
pub mod Tests
use radar_node.Base.{
  ℕ, suc, ◌+◌, Bool, true, false, not, ◌&&◌, ◌||◌, String, Option, none, some, List, [], ◌∷◌, ltb,
  any, str_eq, if◌then◌else◌, lookup,
}
use radar_node.Wire.{Value, nothing, flag, literal, text, object, array}

pub record FieldSchema : Type 0 where
  pub name : String
  pub field_type : String
  pub is_required : Bool
  pub is_primary : Bool
  pub is_summary : Bool

-- `validFieldTypes[t]`.
unfoldable pub valid_field_type : String → Bool
valid_field_type t =
    str_eq t "string"
    || str_eq t "number"
    || str_eq t "bool"
    || str_eq t "object"
    || str_eq t "array"

pub data SchemaError : Type 0 where
  missing_name : SchemaError
  declared_twice : String → SchemaError
  unknown_type : String → String → SchemaError
  primary_in_request : String → SchemaError
  primary_not_number : String → String → SchemaError
  summary_in_request : String → SchemaError
  summary_not_number : String → String → SchemaError
  several_primaries : ℕ → SchemaError

-- One turn of the loop of `validateFieldSchema`, without the count of primary fields.
unfoldable pub field_error : String → List String → FieldSchema → Option SchemaError
field_error which seen f =
    if str_eq f.name ""
    then some missing_name
    else if any (str_eq f.name) seen
    then some (declared_twice f.name)
    else if not (valid_field_type f.field_type)
    then some (unknown_type f.name f.field_type)
    else if f.is_primary && str_eq which "request"
    then some (primary_in_request f.name)
    else if f.is_primary && not (str_eq f.field_type "number")
    then some (primary_not_number f.name f.field_type)
    else if f.is_summary && str_eq which "request"
    then some (summary_in_request f.name)
    else if f.is_summary && not (str_eq f.field_type "number")
    then some (summary_not_number f.name f.field_type)
    else none

abbrev pub counts_primary : FieldSchema → ℕ → ℕ
counts_primary f primaries = if f.is_primary then suc primaries else primaries

unfoldable pub validate_fields_from :
    String → List String → ℕ → List FieldSchema → Option SchemaError
validate_fields_from which seen primaries [] =
    if ltb 1 primaries then some (several_primaries primaries) else none
validate_fields_from which seen primaries (f ∷ fs) = elim (field_error which seen f) [
  | none ↦ validate_fields_from which (f.name ∷ seen) (counts_primary f primaries) fs
  | some e ↦ some e
]

-- `validateFieldSchema`.
unfoldable pub validate_field_schema : String → List FieldSchema → Option SchemaError
validate_field_schema which fields = validate_fields_from which [] 0 fields

pub data RequestError : Type 0 where
  missing_param : String → RequestError
  wrong_type : String → String → RequestError

module _ (parses : String → Bool) where
  -- The kinds of value that `matchesType` tells apart.
  unfoldable pub is_text : Value → Bool
  is_text (text s) = true
  is_text _ = false

  unfoldable pub reads_bool : Value → Bool
  reads_bool (flag b) = true
  reads_bool (text s) = str_eq s "true" || str_eq s "false"
  reads_bool _ = false

  unfoldable pub reads_number : Value → Bool
  reads_number (literal n) = true
  reads_number (text s) = parses s
  reads_number _ = false

  unfoldable pub is_object : Value → Bool
  is_object (object members) = true
  is_object _ = false

  unfoldable pub is_array : Value → Bool
  is_array (array elements) = true
  is_array _ = false

  -- `matchesType`.
  unfoldable pub matches_type : Value → String → Bool
  matches_type v want_type =
      if str_eq want_type "string"
      then is_text v
      else if str_eq want_type "bool"
      then reads_bool v
      else if str_eq want_type "number"
      then reads_number v
      else if str_eq want_type "object"
      then is_object v
      else if str_eq want_type "array"
      then is_array v
      else false

  -- `v, present := params[name]`, with a JSON null taken for an absent one.
  abbrev pub present : Option Value → Option Value
  present none = none
  present (some nothing) = none
  present (some v) = some v

  unfoldable pub param_error : FieldSchema → Option Value → Option RequestError
  param_error f none = if f.is_required then some (missing_param f.name) else none
  param_error f (some v) =
      if matches_type v f.field_type then none else some (wrong_type f.name f.field_type)

  -- `validateRequest`.
  unfoldable pub validate_request : List FieldSchema → List (String × Value) → Option RequestError
  validate_request [] params = none
  validate_request (f ∷ fs) params = elim (param_error f (present (lookup f.name params))) [
    | none ↦ validate_request fs params
    | some e ↦ some e
  ]
