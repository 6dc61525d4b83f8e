-- ===== src/Module/Manifest/Parts.antt =====
-- What the checks of internal/module/module.go on the parts of a manifest ask for.
use radar_node.Base.{
  ℕ, ◌≤◌, ◌≡◌, refl, ◌↔◌, inl, inr, arith, Bool, true, false, not, ◌&&◌, ◌||◌, String, Option, none,
  some, Option-cases, List, [], ◌∷◌, ℤ, pos, negsuc, at_most, leb, ◌==◌, All,
}
use radar_node.Module.Schema.{FieldSchema, SchemaError, validate_field_schema}
use radar_node.Module.Schema.Fields.{AreFields, primaries_of, validate_field_schema-AreFields}
use radar_node.Module.Placeholder.{Text, all_pass, validate_placeholders}
use radar_node.Module.Manifest.{
  Step, PoolSpec, InstallDependency, Manifest, ManifestError, guard, ◌or_else◌, is_module_name,
  schema_error, dependency_error, install_error, has_command, is_set, pool_spec_error, args_error,
  step_error, steps_error, pool_with_prepare, pool_without_run, pool_jobs, pool_concurrency,
  pool_no_build_config, pool_no_start,
}
use radar_node.Module.Manifest.Spec.{
  IsNameCharacter, IsName, Runs, IsPositive, IsInstallable, IsPool, Pools, IsStep,
}

-- The first of two checks that finds an error.
or_else-none : (a b : Option ManifestError) → (a or_else b ≡ none) ↔ ((a ≡ none) × (b ≡ none))
or_else-none none b = (λ e. (refl, e), λ h. h.1)
or_else-none (some x) b = (λ e. absurd (ground (arith, e)), λ h. absurd (ground (arith, h.0)))

guard-none : (test : Bool) (e : ManifestError) → (guard test e ≡ none) ↔ (test ≡ false)
guard-none true e = (λ h. absurd (ground (arith, h)), λ h. cc)
guard-none false e = (λ h. refl, λ h. refl)

-- Two checks in a row find nothing exactly when what each asks for holds.
pub or_else_iff :
    {A B : Type 0} (a b : Option ManifestError)
    → ((a ≡ none) ↔ A)
    → ((b ≡ none) ↔ B)
    → (a or_else b ≡ none) ↔ (A × B)
or_else_iff a b f g = (
  λ e. let h = (or_else-none a b).0 e in (f.0 h.0, g.0 h.1),
  λ h. (or_else-none a b).1 (f.1 h.0, g.1 h.1),
)

pub guard_iff :
    {A : Type 0} (test : Bool) (e : ManifestError)
    → ((test ≡ false) ↔ A)
    → (guard test e ≡ none) ↔ A
guard_iff test e f = (λ h. f.0 ((guard-none test e).0 h), λ h. (guard-none test e).1 (f.1 h))

not-true : (b : Bool) → (not b ≡ false) ↔ (b ≡ true)
not-true b = (λ h. ground (arith, h), λ h. ground (arith, h))

pub refused_unless :
    {A : Type 0} (test : Bool) (e : ManifestError)
    → ((test ≡ true) ↔ A)
    → (guard (not test) e ≡ none) ↔ A
refused_unless test e f =
    guard_iff (not test) e (λ h. f.0 ((not-true test).0 h), λ h. (not-true test).1 (f.1 h))

abbrev is_name_character : ℕ → Bool
is_name_character d = leb b'a' d && leb d b'z' || leb b'0' d && leb d b'9' || d == b'-'

is_name_character_iff : (c : ℕ) → (is_name_character c ≡ true) ↔ IsNameCharacter c
is_name_character_iff c = (λ h. ground (arith, h), λ h. ground (arith, h))

all_characters : (cs : Text) → (all_pass is_name_character cs ≡ true) ↔ All IsNameCharacter cs
all_characters [] = (λ h. tt, λ h. refl)
all_characters (c ∷ cs) = (
  λ h. ((is_name_character_iff c).0 (ground (arith, h)), (all_characters cs).0 (ground (arith, h))),
  λ h. ground (arith, (is_name_character_iff c).1 h.0, (all_characters cs).1 h.1),
)

pub is_module_name-IsName : (name : Text) → (is_module_name name ≡ true) ↔ IsName name
unfolding is_module_name
is_module_name-IsName [] = (λ h. absurd (ground (arith, h)), λ h. absurd h)
is_module_name-IsName (c ∷ cs) = (
  λ h. (ground (arith, h), ground (arith, h), (all_characters cs).0 (ground (arith, h))),
  λ h. ground (arith, h, (all_characters cs).1 h.2),
)

pub schema_iff :
    (which : String) (wrap : SchemaError → ManifestError) (fields : List FieldSchema)
    → (schema_error wrap (validate_field_schema which fields) ≡ none)
      ↔ (AreFields which [] fields × (primaries_of fields ≤ 1))
schema_iff which wrap fields =
    let are = validate_field_schema-AreFields which fields in
    (λ h. are.0 (none_wrapped (validate_field_schema which fields) h), λ h. rw (are.1 h) refl)
  where
    none_wrapped : (o : Option SchemaError) → schema_error wrap o ≡ none → o ≡ none
    none_wrapped none h = refl
    none_wrapped (some e) h = absurd (ground (arith, h))

dependency_iff : (d : InstallDependency) → (dependency_error d ≡ none) ↔ IsInstallable d
dependency_iff d = (
  λ h. record {
    named = ground (arith, h);
    located = ground (arith, h);
    of_kind = ground (arith, h);
    placed = ground (arith, h);
  },
  λ h. ground (arith, h.named, h.located, h.of_kind, h.placed),
)

pub install_iff : (ds : List InstallDependency) → (install_error ds ≡ none) ↔ All IsInstallable ds
unfolding install_error
install_iff [] = (λ h. tt, λ h. refl)
install_iff (d ∷ ds) =
    or_else_iff (dependency_error d) (install_error ds) (dependency_iff d) (install_iff ds)

pub runs_iff : (s : Option Step) → (has_command s ≡ true) ↔ Runs s
runs_iff none = (λ h. absurd (ground (arith, h)), λ h. absurd h)
runs_iff (some []) = (λ h. absurd (ground (arith, h)), λ h. absurd h)
runs_iff (some (arg ∷ args)) = (λ h. tt, λ h. refl)

positive_iff : (z : ℤ) → (at_most z (pos 0) ≡ false) ↔ IsPositive z
positive_iff (pos n) = (λ h. ground (arith, h), λ h. ground (arith, h))
positive_iff (negsuc n) = (λ h. absurd (ground (arith, h)), λ h. absurd h)

pub neither_set_iff :
    (a b : Option Step) → ((is_set a || is_set b) ≡ false) ↔ ((a ≡ none) × (b ≡ none))
neither_set_iff none none = (λ h. (refl, refl), λ h. refl)
neither_set_iff none (some t) = (λ h. absurd (ground (arith, h)), λ h. absurd (ground (arith, h.1)))
neither_set_iff (some s) b = (λ h. absurd (ground (arith, h)), λ h. absurd (ground (arith, h.0)))

args_iff :
    (args : List Text)
    → (args_error args ≡ none) ↔ All (λ arg. validate_placeholders arg ≡ none) args
unfolding args_error
args_iff [] = (λ h. tt, λ h. refl)
args_iff (arg ∷ args) = (
  λ h. elim (Option-cases (validate_placeholders arg)) [
    | inl fine ↦ (fine, (args_iff args).0 (ground (arith, h, fine)))
    | inr (name, e) ↦ absurd (ground (arith, h, e))
  ],
  λ h. rw (h.0, args_error) ((args_iff args).1 h.1),
)

step_iff : (s : Option Step) → (step_error s ≡ none) ↔ IsStep s
step_iff none = (λ h. tt, λ h. refl)
step_iff (some args) = args_iff args

pub steps_iff : (ss : List (Option Step)) → (steps_error ss ≡ none) ↔ All IsStep ss
unfolding steps_error
steps_iff [] = (λ h. tt, λ h. refl)
steps_iff (s ∷ ss) = or_else_iff (step_error s) (steps_error ss) (step_iff s) (steps_iff ss)

pool_spec_iff :
    (m : Manifest) (p : PoolSpec) → Runs m.run → (pool_spec_error m p ≡ none) ↔ IsPool m p
pool_spec_iff m p runs =
    let parts =
      or_else_iff (guard (is_set m.prepare || is_set m.teardown) pool_with_prepare) _
        (guard_iff _ pool_with_prepare (neither_set_iff m.prepare m.teardown))
        (or_else_iff (guard (not (has_command m.run)) pool_without_run) _
          (refused_unless _ pool_without_run (runs_iff m.run))
          (or_else_iff (guard (at_most p.max_jobs_per_instance (pos 0)) pool_jobs) _
            (guard_iff _ pool_jobs (positive_iff p.max_jobs_per_instance))
            (or_else_iff (guard (at_most p.test_concurrency (pos 0)) pool_concurrency) _
              (guard_iff _ pool_concurrency (positive_iff p.test_concurrency))
              (or_else_iff (guard (not (has_command p.build_config)) pool_no_build_config)
                (guard (not (has_command p.start)) pool_no_start)
                (refused_unless _ pool_no_build_config (runs_iff p.build_config))
                (refused_unless _ pool_no_start (runs_iff p.start)))))) in
    (
      λ h.
          let (alone, (run, (jobs, (concurrency, (builds, starts))))) = parts.0 h in
          record {
            alone = alone;
            jobs = jobs;
            concurrency = concurrency;
            builds = builds;
            starts = starts;
          },
      λ h. parts.1 (h.alone, (runs, (h.jobs, (h.concurrency, (h.builds, h.starts))))),
    )

pub pool_iff :
    (m : Manifest) (o : Option PoolSpec)
    → Runs m.run
    → (elim o [ none ↦ none | some p ↦ pool_spec_error m p ] ≡ none) ↔ Pools m o
pool_iff m none runs = (λ h. tt, λ h. refl)
pool_iff m (some p) runs = pool_spec_iff m p runs
