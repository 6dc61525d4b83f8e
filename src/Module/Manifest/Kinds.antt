-- ===== src/Module/Manifest/Kinds.antt =====
-- A manifest that calls an action or runs a program, internal/module/module.go.
use radar_node.Base.{
  ◌≡◌, refl, ◌↔◌, ◌⊎◌, inl, inr, arith, true, false, not, ◌||◌, Bool-cases, String, Option, none,
  some, List, ◌∷◌, str_eq, All,
}
use radar_node.Module.Manifest.{
  PoolSpec, Manifest, guard, has_command, is_set, known_action, validate_pool, pool_steps,
  steps_error, pattern_error, collect_error, action_error, program_error, kind_error,
  no_latency_group, unknown_action, action_with_prepare, action_with_pool,
}
use radar_node.Module.Manifest.Spec.{Runs, Pools, IsStep, AreGroups, Collects, IsAction, IsProgram}
use radar_node.Module.Manifest.Parts.{
  or_else_iff, guard_iff, refused_unless, runs_iff, neither_set_iff, steps_iff, pool_iff,
}

module _ (groups : String → Option (List String)) where
  groups_iff : (o : Option (List String)) → (pattern_error groups o ≡ none) ↔ AreGroups o
  groups_iff none = (λ h. absurd (ground (arith, h)), λ h. absurd h)
  groups_iff (some names) = refused_unless _ no_latency_group (λ h. h, λ h. h)

  collect_iff :
      (m : Manifest) → (collect_error groups m.format m.pattern ≡ none) ↔ Collects groups m
  unfolding collect_error
  collect_iff m = (
    λ h. elim (Bool-cases (str_eq m.format "writeout_json")) [
      | inl json ↦ inl (json, ground (arith, h, json))
      | inr other ↦ elim (Bool-cases (str_eq m.format "regex")) [
        | inl regex ↦
            inr (other, regex, (groups_iff (groups m.pattern)).0 (ground (arith, h, other, regex)))
        | inr neither ↦ absurd (ground (arith, h, other, neither))
      ]
    ],
    λ h. elim h [
      | inl (json, empty) ↦ ground (arith, json, empty)
      | inr (other, regex, ok) ↦ ground (arith, other, regex, (groups_iff (groups m.pattern)).1 ok)
    ],
  )

  action_iff :
      (m : Manifest)
      → (action_error groups m ≡ none) ↔ (
          (known_action m.action ≡ true)
          × (((m.prepare ≡ none) × (m.teardown ≡ none)) × (is_set m.pool ≡ false)))
  action_iff m =
      or_else_iff (guard (not (known_action m.action)) unknown_action) _
        (refused_unless _ unknown_action (λ h. h, λ h. h))
        (or_else_iff (guard (is_set m.prepare || is_set m.teardown) action_with_prepare)
          (guard (is_set m.pool) action_with_pool)
          (guard_iff _ action_with_prepare (neither_set_iff m.prepare m.teardown))
          (guard_iff _ action_with_pool (λ h. h, λ h. h)))

  no_pool_iff : (o : Option PoolSpec) → (is_set o ≡ false) ↔ (o ≡ none)
  no_pool_iff none = (λ h. refl, λ h. refl)
  no_pool_iff (some p) = (λ h. absurd (ground (arith, h)), λ h. absurd (ground (arith, h)))

  program_iff :
      (m : Manifest)
      → Runs m.run
      → (program_error groups m ≡ none) ↔ (
          Pools m m.pool
          × (All IsStep (m.prepare ∷ m.run ∷ m.teardown ∷ pool_steps m.pool) × Collects groups m))
  unfolding validate_pool
  program_iff m runs = or_else_iff (validate_pool m) _ (pool_iff m m.pool runs) (
      or_else_iff (steps_error (m.prepare ∷ m.run ∷ m.teardown ∷ pool_steps m.pool))
        (collect_error groups m.format m.pattern)
        (steps_iff (m.prepare ∷ m.run ∷ m.teardown ∷ pool_steps m.pool)) (collect_iff m))

  pub accepted_kind :
      (m : Manifest) → kind_error groups m ≡ none → IsAction groups m ⊎ IsProgram groups m
  accepted_kind m h = elim (Bool-cases (str_eq m.action "")) [
    | inl program ↦ elim (Bool-cases (has_command m.run)) [
      | inl runs ↦
          let (pools, (steps, collects)) =
            (program_iff m ((runs_iff m.run).0 runs)).0 (ground (arith, h, program, runs)) in
          inr (record {
            no_action = program;
            runs = (runs_iff m.run).0 runs;
            pools = pools;
            steps = steps;
            collects = collects;
          })
      | inr idle ↦ absurd (ground (arith, h, program, idle))
    ]
    | inr action ↦ elim (Bool-cases (has_command m.run)) [
      | inl runs ↦ absurd (ground (arith, h, action, runs))
      | inr idle ↦
          let (known, (no_steps, no_pool)) = (action_iff m).0 (ground (arith, h, action, idle)) in
          inl (record {
            named = action;
            no_program = idle;
            known = known;
            no_steps = no_steps;
            no_pool = (no_pool_iff m.pool).0 no_pool;
          })
    ]
  ]

  pub kind_accepted :
      (m : Manifest) → IsAction groups m ⊎ IsProgram groups m → kind_error groups m ≡ none
  kind_accepted m (inl a) =
      let fine = (action_iff m).1 (a.known, (a.no_steps, (no_pool_iff m.pool).1 a.no_pool)) in
      rw (a.named, a.no_program, kind_error) fine
  kind_accepted m (inr p) =
      let fine = (program_iff m p.runs).1 (p.pools, (p.steps, p.collects)) in
      rw (p.no_action, (runs_iff m.run).1 p.runs, kind_error) fine
