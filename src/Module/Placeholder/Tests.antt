-- ===== src/Module/Placeholder/Tests.antt =====
-- Arguments of a command, and the theorems at them.
use radar_node.Base.{◌≡◌, refl, Option, none, some, [], ◌++◌, All, if◌then◌else◌}
use radar_node.Module.Placeholder.{
  Text, codes, ExecContext, validate_placeholders, resolve, pieces, pieces_from, match_token,
  name_token, close_token, first_unknown, is_known, param_of, expand, replace_pieces, source_of,
  or_empty, same_text,
}
use radar_node.Module.Placeholder.Pieces.{IsResolved, value_of, validate_placeholders-IsResolved}
use radar_node.Module.Placeholder.Hyphens.{resolve-hyphen}

abbrev param : Text → Option Text
param name = if same_text name (codes "sni") then some (codes "a.org") else none

abbrev context : ExecContext
context = record {
  target = codes "{{alloc_port}}";
  timeout_ms = codes "5000";
  params_json_path = codes "/tmp/p";
  alloc_port = codes "1080";
  source_ip = none;
  bind_interface = [];
  jobs_json_path = [];
  config_path = [];
  param = param;
}

abbrev argument : Text
argument = codes "{{{target}} {{ param.sni }}:{{alloc_port}}"

argument_valid : validate_placeholders argument ≡ none
unfolding validate_placeholders pieces pieces_from match_token name_token close_token first_unknown
    is_known param_of
argument_valid = refl

argument_resolved : resolve context argument ≡ codes "{{{alloc_port}} a.org:1080"
unfolding resolve pieces pieces_from match_token name_token close_token expand param_of
argument_resolved = refl

unknown : validate_placeholders (codes "{{targets}}") ≡ some (codes "targets")
unfolding validate_placeholders pieces pieces_from match_token name_token close_token first_unknown
    is_known param_of
unknown = refl

validate_placeholders-IsResolved_example :
    (replace_pieces source_of (pieces argument) ≡ argument)
    × All (IsResolved context) (pieces argument)
    × (resolve context argument
        ≡ replace_pieces (λ t. or_empty (value_of context t.name)) (pieces argument))
validate_placeholders-IsResolved_example =
    validate_placeholders-IsResolved context argument argument_valid

resolve-hyphen_example :
    let arg = codes "{{" ++ (codes "param.server" ++ codes "-name}}") in
    (validate_placeholders arg ≡ none) × (resolve context arg ≡ arg)
resolve-hyphen_example = resolve-hyphen context (codes "param.server") (codes "name}}") refl refl
