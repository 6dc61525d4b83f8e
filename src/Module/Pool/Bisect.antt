-- ===== src/Module/Pool/Bisect.antt =====
-- The isolation of a bad job in internal/module/pool.go. The tests of a started engine and its build
-- are other programs': a build is an argument, a function of the jobs that gives the error, and a
-- test's outcome is not looked into. `contains` is `strings.Contains`.
use radar_node.Base.{
  ℕ, zero, suc, ◌/◌, ◌≤◌, ◌<◌, ◌≡◌, refl, Bool, true, false, not, ◌&&◌, ◌||◌, String, Option, none,
  some, List, [], ◌∷◌, ◌++◌, map, arith, ltb, leb, if◌then◌else◌, length, take, drop, str_eq,
  Bool-cases, Option-cases, take-append-drop, length-take-le, length-drop, ap, inl, inr, ltb→lt,
  ltb→ge, ◌∙◌, sym,
}

-- An error of buildAndStart; `phase` is none where it is no engineBuildError.
pub record BuildError : Type 0 where
  pub phase : Option String
  pub message : String
  pub is_deadline_exceeded : Bool

unfoldable pub phase_bisects : (String → String → Bool) → String → BuildError → Bool
phase_bisects contains phase e =
    if str_eq phase "build_config"
    then not (
        contains e.message "not found"
        || contains e.message "exit status 127"
        || contains e.message "executable file not found")
    else not (e.is_deadline_exceeded || contains e.message "did not become ready")

unfoldable pub error_bisects : (String → String → Bool) → Option String → BuildError → Bool
error_bisects contains none e = true
error_bisects contains (some phase) e = phase_bisects contains phase e

-- `shouldBisect`.
unfoldable pub should_bisect : (String → String → Bool) → BuildError → ℕ → Bool
should_bisect contains e chunk_size =
    if leb chunk_size 1 then false else error_bisects contains e.phase e

pub data Outcome : Type 0 where
  tested : Outcome
  failed : BuildError → Outcome

abbrev pub outcome_of : Option BuildError → Outcome
outcome_of none = tested
outcome_of (some e) = failed e

-- One outcome for each of the jobs.
abbrev pub all_with {ℓ} : {Job : Type ℓ} → Outcome → List Job → List (Job × Outcome)
all_with outcome [] = []
all_with outcome (j ∷ js) = (j, outcome) ∷ all_with outcome js

module _ {ℓ} {Job : Type ℓ} (contains : String → String → Bool)
    (build : List Job → Option BuildError) where
  -- `runEphemeral`, on fuel: the results that it writes, in the order of the jobs.
  unfoldable pub run_ephemeral : ℕ → List Job → List (Job × Outcome)
  run_ephemeral zero jobs = []
  run_ephemeral (suc fuel) jobs = elim (build jobs) [
    | none ↦ all_with tested jobs
    | some e ↦ elim (ltb 1 (length jobs) && should_bisect contains e (length jobs)) [
      | true ↦
          let mid = length jobs / 2 in
          run_ephemeral fuel (take mid jobs) ++ run_ephemeral fuel (drop mid jobs)
      | false ↦ all_with (failed e) jobs
    ]
  ]

  jobs_of : List (Job × Outcome) → List Job
  jobs_of results = map (λ r. r.0) results

  -- The outcome of a job that is built alone.
  abbrev pub alone : Job → Outcome
  alone j = outcome_of (build (j ∷ []))

  abbrev pub each_alone : List Job → List (Job × Outcome)
  each_alone [] = []
  each_alone (j ∷ js) = (j, alone j) ∷ each_alone js

  each_alone-append : (js ks : List Job) → each_alone (js ++ ks) ≡ each_alone js ++ each_alone ks
  each_alone-append [] ks = refl
  each_alone-append (j ∷ js) ks = ap (◌∷◌ (j, alone j)) (each_alone-append js ks)

  abbrev pub BuildsAlone : List Job → Type 0
  BuildsAlone [] = Unit
  BuildsAlone (j ∷ js) = (build (j ∷ []) ≡ none) × BuildsAlone js

  -- Whoever builds a chunk builds each of its jobs, and an error of more than one job is bisected.
  pub record BlamesJobs : Type ℓ where
    pub builds_each : (js : List Job) → build js ≡ none → BuildsAlone js
    pub bisected :
        (js : List Job) (e : BuildError)
        → build js ≡ some e
        → 1 < length js
        → should_bisect contains e (length js) ≡ true

  all_tested : (js : List Job) → BuildsAlone js → all_with tested js ≡ each_alone js
  all_tested [] b = refl
  all_tested (j ∷ js) (b, bs) = rw (b, all_tested js bs) refl

  single_failure :
      (js : List Job) (e : BuildError)
      → build js ≡ some e
      → length js ≤ 1
      → all_with (failed e) js ≡ each_alone js
  single_failure [] e h small = refl
  single_failure (j ∷ []) e h small = rw h refl
  single_failure (j ∷ k ∷ js) e h small = ground (arith, small)

  -- With fuel for each job, where a chunk that builds consists of jobs that build alone, and a chunk
  -- of more than one job fails with an error that is bisected, runEphemeral gives each job, in order,
  -- the outcome that it has alone: a bad job costs only its own result.
  pub run_ephemeral-each_alone :
      (fuel : ℕ) (js : List Job)
      → length js ≤ fuel
      → BlamesJobs
      → run_ephemeral fuel js ≡ each_alone js
  unfolding run_ephemeral
  run_ephemeral-each_alone zero [] enough b = refl
  run_ephemeral-each_alone zero (j ∷ js) enough b = ground (arith, enough)
  run_ephemeral-each_alone (suc fuel) js enough b = elim (Option-cases (build js)) [
    | inl built ↦ rw (built, run_ephemeral) (all_tested js (b.builds_each js built))
    | inr (e, h) ↦ elim (Bool-cases (ltb 1 (length js))) [
      | inl more ↦
          let mid = length js / 2 in
          rw
            (
              h,
              run_ephemeral,
              more,
              b.bisected js e h (ltb→lt _ _ more),
              run_ephemeral-each_alone fuel (take mid js)
                  (omega (arith, enough, length-take-le mid js, ltb→lt _ _ more)) b,
              run_ephemeral-each_alone fuel (drop mid js)
                  (omega (arith, enough, length-drop mid js, ltb→lt _ _ more)) b,
            )
            (sym (each_alone-append (take mid js) (drop mid js))
              ∙ ap each_alone (take-append-drop mid js))
      | inr single ↦ rw (h, single, run_ephemeral) (single_failure js e h (ltb→ge _ _ single))
    ]
  ]
