-- ===== src/Agent/Checks/Account.antt =====
-- Every check of a tick gives one result, unless its destination never cleared.
use mathlib.Core.List.{Perm, Mem, mem-cons_self, mem-cons_of_mem}
use radar_node.Base.{
  All-append, ℕ, suc, ◌+◌, ◌≡◌, refl, ◌∙◌, ap, arith, ◌⊎◌, inl, inr, Bool, true, false, Bool-cases,
  String, Option, none, some, List, [], ◌∷◌, ◌++◌, map, All, if◌then◌else◌, get_elem?,
}
use radar_node.Wire.{Result}
use radar_node.Agent.Tick.{CheckJob}
use radar_node.Agent.Checks.{
  World, Work, single, batch, ProbeResult, options_for, run_check, batch_results, run_check_batch,
  add_to_batch, is_batched, split_jobs, dispatch, run_work, collect, run_checks,
}
use radar_node.Agent.Checks.Totals.{count, count-append, total, total-Perm, total-append, total-map}

-- A result is of the run and the probe of its check.
abbrev pub run_of_result : Result → String × String
run_of_result r = (r.run_id, r.probe_id)

abbrev pub run_of_job : CheckJob → String × String
run_of_job j = (j.run_id, j.pr.id)

abbrev jobs_of : Work → List CheckJob
jobs_of (single j) = j ∷ []
jobs_of (batch prober js) = js

module _ (w : World) where
  -- Why a check gives no result: its destination never cleared, or its batch skipped it.
  abbrev pub Unreported : List Work → CheckJob → Type 0
  Unreported ks j =
      ((b : Bool) × (w.checker j.pr.prober ≡ some b)
        × (w.clears j (options_for w j.pr j.seq).destination ≡ false))
      ⊎ ((prober : String) × (mates : List CheckJob) × (i : ℕ) × Mem (batch prober mates) ks
          × (get_elem? mates i ≡ some j)
          × ((w.check_batch prober (map (λ m. options_for w m.pr m.seq) mates) i).skip ≡ true))

  abbrev dropped_batch : (ℕ → ProbeResult) → ℕ → List CheckJob → List CheckJob
  dropped_batch answers i [] = []
  dropped_batch answers i (j ∷ js) =
      let rest = dropped_batch answers (suc i) js in if (answers i).skip then j ∷ rest else rest

  abbrev dropped_single : CheckJob → Option Bool → Bool → List CheckJob
  dropped_single j none c = []
  dropped_single j (some b) true = []
  dropped_single j (some b) false = j ∷ []

  abbrev dropped_of : Work → List CheckJob
  dropped_of (single j) =
      dropped_single j (w.checker j.pr.prober) (w.clears j (options_for w j.pr j.seq).destination)
  dropped_of (batch prober js) =
      dropped_batch (w.check_batch prober (map (λ m. options_for w m.pr m.seq) js)) 0 js

  abbrev dropped : List Work → List CheckJob
  dropped [] = []
  dropped (k ∷ ks) = dropped_of k ++ dropped ks

  module _ (p : String × String → Bool) where
    abbrev results_that : List Result → ℕ
    results_that rs = count (λ r. p (run_of_result r)) rs

    abbrev jobs_that : List CheckJob → ℕ
    jobs_that js = count (λ j. p (run_of_job j)) js

    batch_results-dropped_batch :
        (answers : ℕ → ProbeResult) (i : ℕ) (js : List CheckJob)
        → results_that (batch_results w answers i js) + jobs_that (dropped_batch answers i js)
          ≡ jobs_that js
    unfolding batch_results
    batch_results-dropped_batch answers i [] = refl
    batch_results-dropped_batch answers i (j ∷ js) =
        ground (arith, batch_results-dropped_batch answers (suc i) js)

    run_work-dropped_of :
        (k : Work) → results_that (run_work w k) + jobs_that (dropped_of k) ≡ jobs_that (jobs_of k)
    unfolding run_work run_check run_check_batch
    run_work-dropped_of (single j) = ground arith
    run_work-dropped_of (batch prober js) = batch_results-dropped_batch _ 0 js

    collect-total :
        (ks : List Work) → results_that (collect w ks) ≡ total (λ k. results_that (run_work w k)) ks
    unfolding collect
    collect-total [] = refl
    collect-total (k ∷ ks) =
        count-append (λ r. p (run_of_result r)) (run_work w k) (collect w ks)
        ∙ ap (λ (n : ℕ). results_that (run_work w k) + n) (collect-total ks)

    total-dropped :
        (ks : List Work)
        → total (λ k. results_that (run_work w k)) ks + jobs_that (dropped ks)
          ≡ total (λ k. jobs_that (jobs_of k)) ks
    total-dropped [] = refl
    total-dropped (k ∷ ks) = omega (
      arith,
      total-dropped ks,
      run_work-dropped_of k,
      count-append (λ j. p (run_of_job j)) (dropped_of k) (dropped ks),
    )

    -- The work that is dispatched has the jobs.
    abbrev batched_that : List (String × List CheckJob) → ℕ
    batched_that bs = total (λ b. jobs_that b.1) bs

    add_to_batch-total :
        (j : CheckJob) (bs : List (String × List CheckJob))
        → batched_that (add_to_batch w j bs) ≡ jobs_that (j ∷ []) + batched_that bs
    unfolding add_to_batch
    add_to_batch-total j [] = refl
    add_to_batch-total j (b ∷ bs) =
        ground (arith, add_to_batch-total j bs, count-append (λ i. p (run_of_job i)) b.1 (j ∷ []))

    split_jobs-total :
        (js : List CheckJob) (bs : List (String × List CheckJob)) (singles : List CheckJob)
        → batched_that (split_jobs w js bs singles).0 + jobs_that (split_jobs w js bs singles).1
          ≡ jobs_that js + batched_that bs + jobs_that singles
    unfolding split_jobs
    split_jobs-total [] bs singles = omega arith
    split_jobs-total (j ∷ js) bs singles = elim (Bool-cases (is_batched w j)) [
      | inl e ↦ rw e (
          omega (
            arith,
            split_jobs-total js (add_to_batch w j bs) singles,
            add_to_batch-total j bs,
            count-append (λ i. p (run_of_job i)) (j ∷ []) js,
          ))
      | inr e ↦ rw e (
          omega (
            arith,
            split_jobs-total js bs (singles ++ j ∷ []),
            count-append (λ i. p (run_of_job i)) singles (j ∷ []),
            count-append (λ i. p (run_of_job i)) (j ∷ []) js,
          ))
    ]

    singles-total : (js : List CheckJob) → total (λ j. jobs_that (j ∷ [])) js ≡ jobs_that js
    singles-total [] = refl
    singles-total (j ∷ js) =
        omega (arith, singles-total js, count-append (λ i. p (run_of_job i)) (j ∷ []) js)

    dispatch-total :
        (js : List CheckJob) → total (λ k. jobs_that (jobs_of k)) (dispatch w js) ≡ jobs_that js
    unfolding dispatch
    dispatch-total js =
        let split = split_jobs w js [] [] in
        omega (
          arith,
          total-append (λ k. jobs_that (jobs_of k)) (map (λ b. batch b.0 b.1) split.0)
              (map single split.1),
          total-map (λ k. jobs_that (jobs_of k)) (λ (b : String × List CheckJob). batch b.0 b.1)
              split.0,
          total-map (λ k. jobs_that (jobs_of k)) single split.1,
          singles-total split.1,
          split_jobs-total js [] [],
        )

    run_checks-total :
        (js : List CheckJob)
        → Perm (w.finish (dispatch w js)) (dispatch w js)
        → results_that (run_checks w js) + jobs_that (dropped (dispatch w js)) ≡ jobs_that js
    unfolding run_checks
    run_checks-total js ends = omega (
      arith,
      collect-total (w.finish (dispatch w js)),
      total-Perm (λ k. results_that (run_work w k)) (w.finish (dispatch w js)) (dispatch w js) ends,
      total-dropped (dispatch w js),
      dispatch-total js,
    )

  -- The jobs of a batch from a place on.
  dropped_batch-Unreported :
      (ks : List Work) (prober : String) (mates : List CheckJob) (i : ℕ) (js : List CheckJob)
      → Mem (batch prober mates) ks
      → ((n : ℕ) → get_elem? mates (i + n) ≡ get_elem? js n)
      → All
          (Unreported ks)
          (dropped_batch (w.check_batch prober (map (λ m. options_for w m.pr m.seq) mates)) i js)
  dropped_batch-Unreported ks prober mates i [] here places = tt
  dropped_batch-Unreported ks prober mates i (j ∷ js) here places =
      let rest =
        dropped_batch-Unreported ks prober mates (suc i) js here
          (λ n. ap (get_elem? mates) (omega arith) ∙ places (suc n)) in
      elim (Bool-cases (w.check_batch prober (map (λ m. options_for w m.pr m.seq) mates) i).skip) [
        | inl e ↦
            rw e
              (inr (prober, mates, i, here, ap (get_elem? mates) (omega arith) ∙ places 0, e), rest)
        | inr e ↦ rw e rest
      ]

  dropped_single-Unreported :
      (ks : List Work) (j : CheckJob) (o : Option Bool) (c : Bool)
      → w.checker j.pr.prober ≡ o
      → w.clears j (options_for w j.pr j.seq).destination ≡ c
      → All (Unreported ks) (dropped_single j o c)
  dropped_single-Unreported ks j none c e d = tt
  dropped_single-Unreported ks j (some b) true e d = tt
  dropped_single-Unreported ks j (some b) false e d = (inl (b, e, d), tt)

  dropped_of-Unreported :
      (ks : List Work) (k : Work) → Mem k ks → All (Unreported ks) (dropped_of k)
  dropped_of-Unreported ks (single j) here = dropped_single-Unreported ks j _ _ refl refl
  dropped_of-Unreported ks (batch prober js) here =
      dropped_batch-Unreported ks prober js 0 js here (λ n. ap (get_elem? js) (omega arith))

  dropped-Unreported :
      (all ks : List Work) → ((k : Work) → Mem k ks → Mem k all) → All (Unreported all) (dropped ks)
  dropped-Unreported all [] within = tt
  dropped-Unreported all (k ∷ ks) within =
      All-append (Unreported all) (dropped_of k) (dropped ks)
        (dropped_of-Unreported all k (within k mem-cons_self))
        (dropped-Unreported all ks (λ i m. within i (mem-cons_of_mem k m)))

  -- Whatever order the goroutines end in, every check of the jobs gives exactly one result, of its run
  -- and its probe, but for those that are left out; and each of these is one whose destination never
  -- cleared, or that its own batch skipped at its place.
  pub run_checks-accounted :
      (js : List CheckJob)
      → Perm (w.finish (dispatch w js)) (dispatch w js)
      → (left_out : List CheckJob) × ((p : String × String → Bool)
          → count (λ r. p (run_of_result r)) (run_checks w js)
              + count (λ j. p (run_of_job j)) left_out
            ≡ count (λ j. p (run_of_job j)) js)
        × All (Unreported (dispatch w js)) left_out
  run_checks-accounted js ends = (
    dropped (dispatch w js),
    λ p. run_checks-total p js ends,
    dropped-Unreported (dispatch w js) (dispatch w js) (λ k m. m),
  )
