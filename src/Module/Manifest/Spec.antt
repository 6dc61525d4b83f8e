-- ===== src/Module/Manifest/Spec.antt =====
-- The manifests that internal/module/module.go means to accept, as conditions on their fields.
use radar_node.Base.{
  ℕ, ◌≤◌, ◌≡◌, ◌⊎◌, true, false, ◌||◌, String, Option, none, some, List, [], ◌∷◌, ℤ, pos, negsuc,
  at_most, str_eq, any, All,
}
use radar_node.Module.Schema.Fields.{AreFields, primaries_of}
use radar_node.Module.Placeholder.{Text, validate_placeholders}
use radar_node.Module.Manifest.{
  Step, PoolSpec, InstallDependency, Manifest, has_command, known_action, pool_steps,
}

-- A name: a small letter, then small letters, digits and hyphens.
abbrev pub IsNameCharacter : ℕ → Type 0
IsNameCharacter c = ((b'a' ≤ c) × (c ≤ b'z')) ⊎ ((b'0' ≤ c) × (c ≤ b'9')) ⊎ (c ≡ b'-')

abbrev pub IsName : Text → Type 0
IsName [] = ⊥
IsName (c ∷ cs) = (b'a' ≤ c) × (c ≤ b'z') × All IsNameCharacter cs

abbrev pub Runs : Option Step → Type 0
Runs none = ⊥
Runs (some []) = ⊥
Runs (some (arg ∷ args)) = Unit

abbrev pub IsPositive : ℤ → Type 0
IsPositive (pos n) = 1 ≤ n
IsPositive (negsuc n) = ⊥

pub record IsInstallable (d : InstallDependency) : Type 0 where
  pub named : str_eq d.name "" ≡ false
  pub located : str_eq d.url "" ≡ false
  pub of_kind : (str_eq d.kind "" || str_eq d.kind "binary" || str_eq d.kind "file") ≡ true
  pub placed : str_eq d.path "" ≡ false

pub record IsPool (m : Manifest) (p : PoolSpec) : Type 0 where
  pub alone : (m.prepare ≡ none) × (m.teardown ≡ none)
  pub jobs : IsPositive p.max_jobs_per_instance
  pub concurrency : IsPositive p.test_concurrency
  pub builds : Runs p.build_config
  pub starts : Runs p.start

abbrev pub Pools : Manifest → Option PoolSpec → Type 0
Pools m none = Unit
Pools m (some p) = IsPool m p

-- Every placeholder in the arguments of a step is known.
abbrev pub IsStep : Option Step → Type 0
IsStep none = Unit
IsStep (some args) = All (λ arg. validate_placeholders arg ≡ none) args

abbrev pub AreGroups : Option (List String) → Type 0
AreGroups none = ⊥
AreGroups (some names) = any (str_eq "latency_ms") names ≡ true

module _ (groups : String → Option (List String)) where
  abbrev pub Collects : Manifest → Type 0
  Collects m =
      ((str_eq m.format "writeout_json" ≡ true) × (str_eq m.pattern "" ≡ true))
      ⊎ ((str_eq m.format "writeout_json" ≡ false)
          × (str_eq m.format "regex" ≡ true)
          × AreGroups (groups m.pattern))

  -- A module calls an action of the agent, or runs a program.
  pub record IsAction (m : Manifest) : Type 0 where
    pub named : str_eq m.action "" ≡ false
    pub no_program : has_command m.run ≡ false
    pub known : known_action m.action ≡ true
    pub no_steps : (m.prepare ≡ none) × (m.teardown ≡ none)
    pub no_pool : m.pool ≡ none

  pub record IsProgram (m : Manifest) : Type 0 where
    pub no_action : str_eq m.action "" ≡ true
    pub runs : Runs m.run
    pub pools : Pools m m.pool
    pub steps : All IsStep (m.prepare ∷ m.run ∷ m.teardown ∷ pool_steps m.pool)
    pub collects : Collects m

  pub record IsValid (m : Manifest) : Type 0 where
    pub name : IsName m.name
    pub timeout : at_most (pos 0) m.min_timeout_ms ≡ true
    pub request : AreFields "request" [] m.request × (primaries_of m.request ≤ 1)
    pub response : AreFields "response" [] m.response × (primaries_of m.response ≤ 1)
    pub install : All IsInstallable m.install
    pub kind : IsAction m ⊎ IsProgram m
