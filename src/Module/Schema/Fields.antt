-- ===== src/Module/Schema/Fields.antt =====
-- The schemas that internal/module/schema.go accepts.
use radar_node.Base.{
  ℕ, ◌+◌, ◌≤◌, ◌≡◌, ◌↔◌, true, false, ◌||◌, String, none, some, List, [], ◌∷◌, any, str_eq,
  if◌then◌else◌, arith, Option-cases, inl, inr,
}
use radar_node.Module.Schema.{
  FieldSchema, SchemaError, valid_field_type, field_error, counts_primary, validate_fields_from,
  validate_field_schema,
}

-- What a field must be by itself, in a form of a kind, after the fields of some names.
pub record IsField (which : String) (seen : List String) (f : FieldSchema) : Type 0 where
  pub named : str_eq f.name "" ≡ false
  pub fresh : any (str_eq f.name) seen ≡ false
  pub typed : valid_field_type f.field_type ≡ true
  pub response_only : f.is_primary || f.is_summary ≡ true → str_eq which "request" ≡ false
  pub numeric : f.is_primary || f.is_summary ≡ true → str_eq f.field_type "number" ≡ true

pub AreFields : String → List String → List FieldSchema → Type 0
AreFields which seen [] = Unit
AreFields which seen (f ∷ fs) = IsField which seen f × AreFields which (f.name ∷ seen) fs

unfoldable pub primaries_of : List FieldSchema → ℕ
primaries_of [] = 0
primaries_of (f ∷ fs) = (if f.is_primary then 1 else 0) + primaries_of fs

field_error-IsField :
    (which : String) (seen : List String) (f : FieldSchema)
    → field_error which seen f ≡ none
    → IsField which seen f
unfolding field_error
field_error-IsField which seen f ok = record {
  named = ground (arith, ok);
  fresh = ground (arith, ok);
  typed = ground (arith, ok);
  response_only = λ h. ground (arith, ok, h);
  numeric = λ h. ground (arith, ok, h);
}

IsField-field_error :
    (which : String) (seen : List String) (f : FieldSchema)
    → IsField which seen f
    → field_error which seen f ≡ none
unfolding field_error
IsField-field_error which seen f ok =
    ground (arith, ok.named, ok.fresh, ok.typed, ok.response_only, ok.numeric)

no_error : {A : Type 0} (e : SchemaError) → some e ≡ none → A
no_error e h = ground (arith, h)

accepted-AreFields :
    (which : String) (seen : List String) (primaries : ℕ) (fs : List FieldSchema)
    → validate_fields_from which seen primaries fs ≡ none
    → AreFields which seen fs × (primaries + primaries_of fs ≤ 1)
unfolding validate_fields_from AreFields primaries_of
accepted-AreFields which seen primaries [] ok = (tt, ground (arith, ok))
accepted-AreFields which seen primaries (f ∷ fs) ok =
    elim (Option-cases (field_error which seen f)) [
      | inl fine ↦
          let (fields, few) =
            accepted-AreFields which (f.name ∷ seen) (counts_primary f primaries) fs
              (rw (fine, validate_fields_from) at ok) in
          ((field_error-IsField which seen f fine, fields), ground (arith, few))
      | inr (e, refused) ↦ no_error e (rw (refused, validate_fields_from) at ok)
    ]

AreFields-accepted :
    (which : String) (seen : List String) (primaries : ℕ) (fs : List FieldSchema)
    → AreFields which seen fs
    → primaries + primaries_of fs ≤ 1
    → validate_fields_from which seen primaries fs ≡ none
unfolding validate_fields_from AreFields primaries_of
AreFields-accepted which seen primaries [] ok few = ground (arith, few)
AreFields-accepted which seen primaries (f ∷ fs) ok few =
    rw (IsField-field_error which seen f ok.0, validate_fields_from)
      (AreFields-accepted which (f.name ∷ seen) (counts_primary f primaries) fs ok.1
        (ground (arith, few)))

-- A schema is accepted exactly when every field has a name of its own and a known type, primary and
-- summary fields are numbers and stand in no request form, and at most one field is primary.
pub validate_field_schema-AreFields :
    (which : String) (fields : List FieldSchema)
    → (validate_field_schema which fields ≡ none)
      ↔ (AreFields which [] fields × (primaries_of fields ≤ 1))
unfolding validate_field_schema
validate_field_schema-AreFields which fields = (
  λ ok. let (are, few) = accepted-AreFields which [] 0 fields ok in (are, omega (arith, few)),
  λ ok. AreFields-accepted which [] 0 fields ok.0 (omega (arith, ok.1)),
)
