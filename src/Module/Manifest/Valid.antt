-- ===== src/Module/Manifest/Valid.antt =====
-- The manifests that internal/module/module.go accepts.
use radar_node.Base.{◌≡◌, ◌↔◌, not, String, Option, none, List, pos, at_most}
use radar_node.Module.Schema.{validate_field_schema}
use radar_node.Module.Manifest.{
  Manifest, guard, is_module_name, schema_error, install_error, kind_error, validate, bad_name,
  negative_timeout, request_schema, response_schema,
}
use radar_node.Module.Manifest.Spec.{IsValid}
use radar_node.Module.Manifest.Parts.{
  or_else_iff, refused_unless, is_module_name-IsName, schema_iff, install_iff,
}
use radar_node.Module.Manifest.Kinds.{accepted_kind, kind_accepted}

module _ (groups : String → Option (List String)) where
  -- validate accepts exactly the manifests that are valid in the sense of `IsValid`: a well-formed name,
  -- no negative timeout, well-formed schemas, installable dependencies, and either a known action
  -- alone or a program whose pool, placeholders and collection are well formed.
  pub validate-IsValid : (m : Manifest) → (validate groups m ≡ none) ↔ IsValid groups m
  unfolding validate
  validate-IsValid m =
      let parts =
        or_else_iff (guard (not (is_module_name m.name)) bad_name) _
          (refused_unless _ bad_name (is_module_name-IsName m.name))
          (or_else_iff (guard (not (at_most (pos 0) m.min_timeout_ms)) negative_timeout) _
            (refused_unless _ negative_timeout (λ h. h, λ h. h))
            (or_else_iff (schema_error request_schema (validate_field_schema "request" m.request)) _
              (schema_iff "request" request_schema m.request)
              (or_else_iff
                (schema_error response_schema (validate_field_schema "response" m.response)) _
                (schema_iff "response" response_schema m.response)
                (or_else_iff (install_error m.install) (kind_error groups m) (install_iff m.install)
                  (accepted_kind groups m, kind_accepted groups m))))) in
      (
        λ h.
            let (name, (timeout, (request, (response, (install, kind))))) = parts.0 h in
            record {
              name = name;
              timeout = timeout;
              request = request;
              response = response;
              install = install;
              kind = kind;
            },
        λ h. parts.1 (h.name, (h.timeout, (h.request, (h.response, (h.install, h.kind))))),
      )
