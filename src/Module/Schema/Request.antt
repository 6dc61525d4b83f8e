-- ===== src/Module/Schema/Request.antt =====
-- The parameters that internal/module/schema.go lets through to a module.
use radar_node.Base.{
  ◌≡◌, inl, inr, refl, Bool, true, false, String, Option, none, some, List, [], ◌∷◌, ◌++◌,
  Option-cases, Bool-cases, All, lookup, ap,
}
use radar_node.Wire.{Value}
use radar_node.Module.Schema.{
  FieldSchema, RequestError, missing_param, wrong_type, matches_type, present, param_error,
  validate_request,
}

module _ (parses : String → Bool) (params : List (String × Value)) where
  -- What a field asks of its parameter: to be there if it is required, and to have the field's type.
  pub Meets : FieldSchema → Option Value → Type 0
  Meets f none = f.is_required ≡ false
  Meets f (some v) = matches_type parses v f.field_type ≡ true

  abbrev pub param_of : FieldSchema → Option Value
  param_of f = present parses (lookup f.name params)

  -- What is wrong with the first field that is not met.
  pub Blames : FieldSchema → Option Value → RequestError → Type 0
  Blames f none e = (f.is_required ≡ true) × (e ≡ missing_param f.name)
  Blames f (some v) e =
      (matches_type parses v f.field_type ≡ false) × (e ≡ wrong_type f.name f.field_type)

  pub Verdict : List FieldSchema → Option RequestError → Type 0
  Verdict fields none = All (λ f. Meets f (param_of f)) fields
  Verdict fields (some e) =
      (before : List FieldSchema) × (f : FieldSchema) × (after : List FieldSchema) × (fields
        ≡ before ++ f ∷ after)
      × All (λ g. Meets g (param_of g)) before
      × Blames f (param_of f) e

  Judges : FieldSchema → Option Value → Option RequestError → Type 0
  Judges f o none = Meets f o
  Judges f o (some e) = Blames f o e

  param_error-Judges : (f : FieldSchema) (o : Option Value) → Judges f o (param_error parses f o)
  unfolding param_error Judges Meets Blames
  param_error-Judges f none = elim (Bool-cases f.is_required) [
    | inl required ↦ rw required (refl, refl)
    | inr optional ↦ rw optional refl
  ]
  param_error-Judges f (some v) = elim (Bool-cases (matches_type parses v f.field_type)) [
    | inl matching ↦ rw matching matching
    | inr other ↦ rw other (other, refl)
  ]

  Verdict-step :
      (f : FieldSchema) (fs : List FieldSchema) (o : Option RequestError)
      → Meets f (param_of f)
      → Verdict fs o
      → Verdict (f ∷ fs) o
  unfolding Verdict
  Verdict-step f fs none met v = (met, v)
  Verdict-step f fs (some e) met (before, g, after, split, met_before, blame) =
      (f ∷ before, g, after, ap (◌∷◌ f) split, (met, met_before), blame)

  -- validateRequest accepts exactly the parameters that meet every field; otherwise its error is about
  -- the first field that is not met, the ones before it being met.
  pub validate_request-Verdict :
      (fields : List FieldSchema) → Verdict fields (validate_request parses fields params)
  unfolding validate_request Verdict Judges
  validate_request-Verdict [] = tt
  validate_request-Verdict (f ∷ fs) =
      let judged = param_error-Judges f (param_of f) in
      elim (Option-cases (param_error parses f (param_of f))) [
        | inl fine ↦
            rw (fine, validate_request)
              (Verdict-step f fs _ (rw fine at judged) (validate_request-Verdict fs))
        | inr (e, refused) ↦
            rw (refused, validate_request) ([], f, fs, refl, tt, (rw refused at judged))
      ]
