-- ===== src/Module/Manifest/Tests.antt =====
-- A directory with two modules, and the theorems at it.
use radar_node.Base.{
  ◌≡◌, refl, ◌↔◌, false, String, Option, none, some, List, [], ◌∷◌, map, pos, All, sort,
  insert_sorted,
}
use radar_node.Module.Placeholder.{
  Text, codes, validate_placeholders, pieces, pieces_from, match_token, name_token, close_token,
  first_unknown, is_known, param_of,
}
use radar_node.Module.Schema.{validate_field_schema, validate_fields_from}
use radar_node.Module.Manifest.{
  Manifest, Entry, loaded, unknown_placeholder, validate, validate_pool, is_module_name,
  install_error, known_action, args_error, steps_error, collect_error, ext, text_less, load_files,
  load_fs,
}
use radar_node.Module.Manifest.Spec.{IsValid}
use radar_node.Module.Manifest.Valid.{validate-IsValid}
use radar_node.Module.Manifest.Loading.{AreDistinct, module_files, load_fs-loaded}

abbrev no_groups : String → Option (List String)
no_groups pattern = none

abbrev native : Text → Manifest
native name = record {
  name = name;
  min_timeout_ms = pos 0;
  request = [];
  response = [];
  install = [];
  action = "tcp_connect";
  prepare = none;
  run = none;
  teardown = none;
  pool = none;
  format = "";
  pattern = "";
}

abbrev pooled : Text → Manifest
pooled arg = record (native (codes "xray-1")) {
  action = "";
  run = some (codes "test" ∷ arg ∷ []);
  pool = some (record {
    max_jobs_per_instance = pos 50;
    test_concurrency = pos 5;
    build_config = some (codes "build" ∷ codes "{{jobs_json}}" ∷ []);
    start = some (codes "xray" ∷ []);
    stop = none;
  });
  format = "writeout_json";
}

pooled_accepted : validate no_groups (pooled (codes "{{target}}")) ≡ none
unfolding validate is_module_name validate_field_schema validate_fields_from install_error
    validate_pool steps_error args_error collect_error validate_placeholders pieces pieces_from
    match_token name_token close_token first_unknown is_known param_of
pooled_accepted = refl

pooled_refused :
    validate no_groups (pooled (codes "{{shell}}")) ≡ some (unknown_placeholder (codes "shell"))
unfolding validate is_module_name validate_field_schema validate_fields_from install_error
    validate_pool steps_error args_error collect_error validate_placeholders pieces pieces_from
    match_token name_token close_token first_unknown is_known param_of
pooled_refused = refl

validate-IsValid_example :
    (validate no_groups (pooled (codes "{{target}}")) ≡ none)
    ↔ IsValid no_groups (pooled (codes "{{target}}"))
validate-IsValid_example = validate-IsValid no_groups (pooled (codes "{{target}}"))

abbrev entry : String → Option Manifest → Entry
entry file parsed = record { file = codes file; is_dir = false; parsed = parsed }

abbrev directory : List Entry
directory =
    entry "b.yaml" (some (native (codes "udp")))
    ∷ entry "notes.txt" none
    ∷ entry "a.yml" (some (native (codes "tcp")))
    ∷ []

sorted_modules :
    load_fs no_groups directory ≡ loaded (native (codes "tcp") ∷ native (codes "udp") ∷ [])
unfolding load_fs load_files sort insert_sorted text_less ext validate is_module_name
    validate_field_schema validate_fields_from install_error known_action
sorted_modules = refl

load_fs-loaded_example :
    (load_fs no_groups directory ≡ loaded (native (codes "tcp") ∷ native (codes "udp") ∷ [])) ↔ (
      (map (λ e. e.parsed) (module_files directory)
        ≡ map some (native (codes "tcp") ∷ native (codes "udp") ∷ []))
      × All (IsValid no_groups) (native (codes "tcp") ∷ native (codes "udp") ∷ [])
      × AreDistinct (native (codes "tcp") ∷ native (codes "udp") ∷ []))
load_fs-loaded_example =
    load_fs-loaded no_groups directory (native (codes "tcp") ∷ native (codes "udp") ∷ [])
