-- ===== src/Module/Manifest.antt =====
-- The manifest of a module, internal/module/module.go: what validate accepts, and the files that LoadFS
-- loads. Parsing YAML, hashing and regexp.Compile are other code: a manifest is what the parser made of
-- a file, and `groups` gives the names of a pattern's groups, none where it does not compile. The
-- order in which validate looks at the steps, which Go leaves open, is that of their declaration.
pub mod Spec
pub mod Parts
pub mod Kinds
pub mod Valid
pub mod Loading
mod Tests
use radar_node.Base.{
  ℕ, Bool, true, false, not, ◌&&◌, ◌||◌, String, Option, none, some, List, [], ◌∷◌, ◌++◌, ℤ, pos,
  negsuc, at_most, leb, ltb, ◌==◌, str_eq, if◌then◌else◌, any, sort, retain,
}
use radar_node.Module.Schema.{FieldSchema, SchemaError, validate_field_schema}
use radar_node.Module.Placeholder.{Text, codes, same_text, all_pass, validate_placeholders}

abbrev pub Step : Type 0
Step = List Text

pub record PoolSpec : Type 0 where
  pub max_jobs_per_instance : ℤ
  pub test_concurrency : ℤ
  pub build_config : Option Step
  pub start : Option Step
  pub stop : Option Step

pub record InstallDependency : Type 0 where
  pub name : String
  pub kind : String
  pub url : String
  pub path : String

-- `Module`, the fields that validate and LoadFS read.
pub record Manifest : Type 0 where
  pub name : Text
  pub min_timeout_ms : ℤ
  pub request : List FieldSchema
  pub response : List FieldSchema
  pub install : List InstallDependency
  pub action : String
  pub prepare : Option Step
  pub run : Option Step
  pub teardown : Option Step
  pub pool : Option PoolSpec
  pub format : String
  pub pattern : String

pub data ManifestError : Type 0 where
  bad_name negative_timeout both_kinds neither_kind : ManifestError
  request_schema response_schema : SchemaError → ManifestError
  install_no_name install_no_url install_bad_kind install_no_path : ManifestError
  unknown_action action_with_prepare action_with_pool : ManifestError
  pool_with_prepare pool_without_run pool_jobs pool_concurrency pool_no_build_config : ManifestError
  pool_no_start : ManifestError
  unknown_placeholder : Text → ManifestError
  unused_pattern bad_pattern no_latency_group bad_format : ManifestError

-- `if test { return err }`, and the checks after it.
abbrev pub guard : Bool → ManifestError → Option ManifestError
guard test e = if test then some e else none

infixr 20 ◌or_else◌
abbrev pub ◌or_else◌ : Option ManifestError → Option ManifestError → Option ManifestError
none or_else rest = rest
(some e) or_else rest = some e

-- `^[a-z][a-z0-9-]*$`.
unfoldable pub is_module_name : Text → Bool
is_module_name [] = false
is_module_name (c ∷ cs) =
    leb b'a' c
    && leb c b'z'
    && all_pass (λ d. leb b'a' d && leb d b'z' || leb b'0' d && leb d b'9' || d == b'-') cs

abbrev pub schema_error : (SchemaError → ManifestError) → Option SchemaError → Option ManifestError
schema_error wrap none = none
schema_error wrap (some e) = some (wrap e)

abbrev pub dependency_error : InstallDependency → Option ManifestError
dependency_error d =
    guard (str_eq d.name "") install_no_name
    or_else guard (str_eq d.url "") install_no_url
    or_else guard
        (not (str_eq d.kind "") && not (str_eq d.kind "binary") && not (str_eq d.kind "file"))
        install_bad_kind
    or_else guard (str_eq d.path "") install_no_path

unfoldable pub install_error : List InstallDependency → Option ManifestError
install_error [] = none
install_error (d ∷ ds) = dependency_error d or_else install_error ds

-- `step != nil && len(step.Command) > 0`.
abbrev pub has_command : Option Step → Bool
has_command (some (arg ∷ args)) = true
has_command _ = false

abbrev pub is_set {ℓ} : {A : Type ℓ} → Option A → Bool
is_set none = false
is_set (some a) = true

-- The registry of internal/action.
unfoldable pub known_action : String → Bool
known_action a =
    str_eq a "tcp_connect"
    || str_eq a "udp_probe"
    || str_eq a "dns_query"
    || str_eq a "icmp_ping"
    || str_eq a "http_request"
    || str_eq a "system_stats"
    || str_eq a "http_fetch"
    || str_eq a "proxy_connect"

abbrev pub pool_spec_error : Manifest → PoolSpec → Option ManifestError
pool_spec_error m p =
    guard (is_set m.prepare || is_set m.teardown) pool_with_prepare
    or_else guard (not (has_command m.run)) pool_without_run
    or_else guard (at_most p.max_jobs_per_instance (pos 0)) pool_jobs
    or_else guard (at_most p.test_concurrency (pos 0)) pool_concurrency
    or_else guard (not (has_command p.build_config)) pool_no_build_config
    or_else guard (not (has_command p.start)) pool_no_start

-- `validatePool`.
unfoldable pub validate_pool : Manifest → Option ManifestError
validate_pool m = elim m.pool [ none ↦ none | some p ↦ pool_spec_error m p ]

unfoldable pub args_error : List Text → Option ManifestError
args_error [] = none
args_error (arg ∷ args) = elim (validate_placeholders arg) [
  | none ↦ args_error args
  | some name ↦ some (unknown_placeholder name)
]

abbrev pub step_error : Option Step → Option ManifestError
step_error none = none
step_error (some args) = args_error args

abbrev pub pool_steps : Option PoolSpec → List (Option Step)
pool_steps none = []
pool_steps (some p) = p.build_config ∷ p.start ∷ p.stop ∷ []

unfoldable pub steps_error : List (Option Step) → Option ManifestError
steps_error [] = none
steps_error (s ∷ ss) = step_error s or_else steps_error ss

module _ (groups : String → Option (List String)) where
  abbrev pub pattern_error : Option (List String) → Option ManifestError
  pattern_error none = some bad_pattern
  pattern_error (some names) = guard (not (any (str_eq "latency_ms") names)) no_latency_group

  unfoldable pub collect_error : String → String → Option ManifestError
  collect_error format pattern =
      if str_eq format "writeout_json"
      then guard (not (str_eq pattern "")) unused_pattern
      else if str_eq format "regex"
      then pattern_error (groups pattern)
      else some bad_format

  -- The checks of a module with an action, which end the validation.
  abbrev pub action_error : Manifest → Option ManifestError
  action_error m =
      guard (not (known_action m.action)) unknown_action
      or_else guard (is_set m.prepare || is_set m.teardown) action_with_prepare
      or_else guard (is_set m.pool) action_with_pool

  abbrev pub program_error : Manifest → Option ManifestError
  program_error m =
      validate_pool m
      or_else steps_error (m.prepare ∷ m.run ∷ m.teardown ∷ pool_steps m.pool)
      or_else collect_error m.format m.pattern

  abbrev pub kind_error : Manifest → Option ManifestError
  kind_error m =
      let has_action = not (str_eq m.action "") in
      if has_action && has_command m.run
      then some both_kinds
      else if not has_action && not (has_command m.run)
      then some neither_kind
      else if has_action
      then action_error m
      else program_error m

  -- `validate`.
  unfoldable pub validate : Manifest → Option ManifestError
  validate m =
      guard (not (is_module_name m.name)) bad_name
      or_else guard (not (at_most (pos 0) m.min_timeout_ms)) negative_timeout
      or_else schema_error request_schema (validate_field_schema "request" m.request)
      or_else schema_error response_schema (validate_field_schema "response" m.response)
      or_else install_error m.install
      or_else kind_error m

-- `filepath.Ext` of a file name: from its last dot on.
unfoldable pub ext : Text → Text
ext [] = []
ext (c ∷ cs) =
    let rest = ext cs in if any (λ d. d == b'.') cs then rest else if c == b'.' then c ∷ cs else []

-- A directory entry with what reading and parsing it gives, none for an error.
pub record Entry : Type 0 where
  pub file : Text
  pub is_dir : Bool
  pub parsed : Option Manifest

-- Go's order of texts.
unfoldable pub text_less : Text → Text → Bool
text_less [] [] = false
text_less [] (d ∷ ds) = true
text_less (c ∷ cs) [] = false
text_less (c ∷ cs) (d ∷ ds) = let rest = text_less cs ds in ltb c d || c == d && rest

abbrev pub is_module_file : Entry → Bool
is_module_file e =
    not e.is_dir
    && (same_text (ext e.file) (codes ".yaml") || same_text (ext e.file) (codes ".yml"))

pub data LoadError : Type 0 where
  unreadable : Text → LoadError
  refused : Text → ManifestError → LoadError
  defined_twice : Text → Text → LoadError

pub data Loaded : Type 0 where
  loaded : List Manifest → Loaded
  load_failed : LoadError → Loaded

abbrev pub prepend : Manifest → Loaded → Loaded
prepend m (loaded ms) = loaded (m ∷ ms)
prepend m (load_failed e) = load_failed e

-- `seen[name]`: the file that defined the name.
abbrev pub definer : Text → List (Text × Text) → Option Text
definer name [] = none
definer name (d ∷ ds) = if same_text d.0 name then some d.1 else definer name ds

module _ (groups : String → Option (List String)) where
  unfoldable pub load_files : List (Text × Text) → List Entry → Loaded
  load_files seen [] = loaded []
  load_files seen (e ∷ es) = elim e.parsed [
    | none ↦ load_failed (unreadable e.file)
    | some m ↦ elim (validate groups m) [
      | some err ↦ load_failed (refused e.file err)
      | none ↦ elim (definer m.name seen) [
        | some prior ↦ load_failed (defined_twice e.file prior)
        | none ↦ prepend m (load_files ((m.name, e.file) ∷ seen) es)
      ]
    ]
  ]

  -- `LoadFS` of a directory that can be read.
  unfoldable pub load_fs : List Entry → Loaded
  load_fs es = load_files [] (sort (λ a b. text_less a.file b.file) (retain is_module_file es))
