-- ===== src/Module/Schema/Tests.antt =====
-- Schemas and parameters of internal/module/schema.go, and the theorems at them.
use radar_node.Base.{
  ◌≡◌, refl, ◌↔◌, ◌≤◌, Bool, true, false, String, some, none, List, [], ◌∷◌, str_eq, lookup,
}
use radar_node.Wire.{Value, text}
use radar_node.Module.Schema.{
  FieldSchema, validate_request, validate_field_schema, wrong_type, matches_type, param_error,
  reads_number, is_text,
}
use radar_node.Module.Schema.Request.{Verdict, validate_request-Verdict}
use radar_node.Module.Schema.Fields.{AreFields, primaries_of, validate_field_schema-AreFields}

abbrev field : String → String → Bool → FieldSchema
field name field_type is_required = record {
  name = name;
  field_type = field_type;
  is_required = is_required;
  is_primary = false;
  is_summary = false;
}

abbrev fields : List FieldSchema
fields = field "host" "string" true ∷ field "count" "number" false ∷ []

abbrev params : List (String × Value)
params = ("host", text "example.org") ∷ ("count", text "many") ∷ []

abbrev only_five : String → Bool
only_five s = str_eq s "5"

many_refused : validate_request only_five fields params ≡ some (wrong_type "count" "number")
unfolding validate_request param_error matches_type reads_number is_text lookup
many_refused = refl

validate_request-Verdict_example :
    Verdict only_five params fields (validate_request only_five fields params)
validate_request-Verdict_example = validate_request-Verdict only_five params fields

validate_field_schema-AreFields_example :
    (validate_field_schema "request" fields ≡ none)
    ↔ (AreFields "request" [] fields × (primaries_of fields ≤ 1))
validate_field_schema-AreFields_example = validate_field_schema-AreFields "request" fields
