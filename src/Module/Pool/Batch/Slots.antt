-- ===== src/Module/Pool/Batch/Slots.antt =====
-- Every job of a batch of internal/module/pool.go is reported once, by the slot that it falls into.
use radar_node.Base.{
  ℕ, zero, suc, ◌/◌, ◌≤◌, ◌<◌, ◌≡◌, refl, ap, ◌∙◌, subst, Bool, ◌&&◌, String, Option, none, some,
  List, [], ◌∷◌, ◌++◌, map, ltb, length, length-take-le, length-drop, take, drop, take-append-drop,
  arith, Bool-cases, Option-cases, inl, inr, ltb→lt, if_both,
}
use mathlib.Core.Option
use radar_node.Module.Pool.Slot.{acquire}
use radar_node.Module.Pool.Bisect.{
  BuildError, Outcome, tested, failed, should_bisect, run_ephemeral, all_with,
}
use radar_node.Module.Pool.Run.{
  PendingJob, PoolJob, PoolState, JobReport, no_port, World, pin, allocate_jobs, report_of, repin,
  repin_jobs, isolated, run_bisected, without_engine, starts, run_jobs, run_slot,
}
use radar_node.Module.Pool.Batch.{run_slots}

map-append : {A B : Type 0} (f : A → B) (xs ys : List A) → map f (xs ++ ys) ≡ map f xs ++ map f ys
map-append f [] ys = refl
map-append f (x ∷ xs) ys = ap (◌∷◌ (f x)) (map-append f xs ys)

abbrev pub firsts : {A B : Type 0} → List (A × B) → List A
firsts l = map (λ e. e.0) l

firsts-append : {A B : Type 0} (xs ys : List (A × B)) → firsts (xs ++ ys) ≡ firsts xs ++ firsts ys
firsts-append xs ys = map-append (λ e. e.0) xs ys

all_with-firsts : {A : Type 0} (outcome : Outcome) (js : List A) → firsts (all_with outcome js) ≡ js
all_with-firsts outcome [] = refl
all_with-firsts outcome (j ∷ js) = ap (◌∷◌ j) (all_with-firsts outcome js)

run_ephemeral-firsts :
    {A : Type 0} (contains : String → String → Bool) (build : List A → Option BuildError) (fuel : ℕ)
    (js : List A)
    → length js ≤ fuel
    → firsts (run_ephemeral contains build fuel js) ≡ js
unfolding run_ephemeral
run_ephemeral-firsts contains build zero [] enough = refl
run_ephemeral-firsts contains build zero (j ∷ js) enough = ground (arith, enough)
run_ephemeral-firsts contains build (suc fuel) js enough = elim (Option-cases (build js)) [
  | inl built ↦ rw (built, run_ephemeral) (all_with-firsts tested js)
  | inr (e, h) ↦ elim (Bool-cases (ltb 1 (length js) && should_bisect contains e (length js))) [
    | inr whole ↦ rw (h, run_ephemeral, whole) (all_with-firsts (failed e) js)
    | inl split ↦
        let mid = length js / 2 in
        let more : 1 < length js = ltb→lt 1 (length js) (ground (arith, split)) in
        rw (h, run_ephemeral, split)
          (firsts-append (run_ephemeral contains build fuel (take mid js))
              (run_ephemeral contains build fuel (drop mid js))
            ∙ ap (λ l. l ++ firsts (run_ephemeral contains build fuel (drop mid js)))
                (run_ephemeral-firsts contains build fuel (take mid js)
                  (omega (arith, enough, length-take-le mid js, more)))
            ∙ ap (λ l. take mid js ++ l)
                (run_ephemeral-firsts contains build fuel (drop mid js)
                  (omega (arith, enough, length-drop mid js, more)))
            ∙ take-append-drop mid js)
  ]
]

module _ {M : Type 0} (w : World M) where
  abbrev jobs_of : List PoolJob → List PendingJob
  jobs_of js = map (λ j. j.job) js

  reports_of : (js : List (PoolJob × Outcome)) → firsts (map (report_of w) js) ≡ jobs_of (firsts js)
  reports_of [] = refl
  reports_of ((j, tested) ∷ js) = ap (◌∷◌ j.job) (reports_of js)
  reports_of ((j, failed e) ∷ js) = ap (◌∷◌ j.job) (reports_of js)

  -- Where all jobs got a port, they are the jobs of the chunk.
  abbrev JobsOf : List PendingJob → Option (List PoolJob) → Type 0
  JobsOf ps none = Unit {0}
  JobsOf ps (some js) = jobs_of js ≡ ps

  JobsOf-with_job :
      (p : PendingJob) (port : ℕ) (ps : List PendingJob) (o : Option (List PoolJob))
      → JobsOf ps o
      → JobsOf (p ∷ ps) (Option.map (λ js. record { job = p; port = port } ∷ js) o)
  JobsOf-with_job p port ps none h = tt
  JobsOf-with_job p port ps (some js) h = ap (◌∷◌ p) h

  allocate_jobs-JobsOf :
      (used : List ℕ) (ports : List (String × ℕ)) (ps : List PendingJob)
      → JobsOf ps (allocate_jobs w used ports ps).1
  unfolding allocate_jobs
  allocate_jobs-JobsOf used ports [] = refl
  allocate_jobs-JobsOf used ports (p ∷ ps) = elim (Option-cases (pin w used ports p.key)) [
    | inl e ↦ rw (e, allocate_jobs) tt
    | inr ((port, used', ports'), e) ↦
        rw (e, allocate_jobs) (JobsOf-with_job p port ps _ (allocate_jobs-JobsOf used' ports' ps))
  ]

  no_port-firsts :
      (ps : List PendingJob) → firsts {B = JobReport M} (map (λ p. (p, no_port)) ps) ≡ ps
  no_port-firsts [] = refl
  no_port-firsts (p ∷ ps) = ap (◌∷◌ p) (no_port-firsts ps)

  repin_jobs-JobsOf :
      (ports : List (String × ℕ)) (ps : List PendingJob) → JobsOf ps (repin_jobs w ports ps).1
  unfolding repin_jobs
  repin_jobs-JobsOf ports [] = refl
  repin_jobs-JobsOf ports (p ∷ ps) = elim (Option-cases (repin w ports p.key)) [
    | inl e ↦ rw (e, repin_jobs) tt
    | inr ((port, ports'), e) ↦
        rw (e, repin_jobs) (JobsOf-with_job p port ps _ (repin_jobs-JobsOf ports' ps))
  ]

  isolated-firsts :
      (chunk : List PendingJob) (o : Option (List PoolJob))
      → JobsOf chunk o
      → firsts (isolated w chunk o) ≡ chunk
  isolated-firsts chunk none h = no_port-firsts chunk
  isolated-firsts chunk (some js) h =
      reports_of (run_ephemeral w.contains w.build (length js) js)
      ∙ ap jobs_of (run_ephemeral-firsts w.contains w.build (length js) js (omega arith))
      ∙ h

  without_engine-firsts :
      (error : Option BuildError) (chunk : List PendingJob) (js : List PoolJob)
      (ports : List (String × ℕ))
      → jobs_of js ≡ chunk
      → firsts (without_engine w error chunk js ports).1 ≡ chunk
  unfolding without_engine run_bisected
  without_engine-firsts none chunk js ports h =
      reports_of (all_with tested js) ∙ ap jobs_of (all_with-firsts tested js) ∙ h
  without_engine-firsts (some e) chunk js ports h =
      if_both (λ (r : List (String × ℕ) × List (PendingJob × JobReport M)). firsts r.1 ≡ chunk)
        (should_bisect w.contains e (length chunk))
        (isolated-firsts chunk _ (repin_jobs-JobsOf _ chunk))
        (reports_of (all_with (failed e) js) ∙ ap jobs_of (all_with-firsts (failed e) js) ∙ h)

  run_jobs-firsts :
      (live : List String) (slot : ℕ) (chunk : List PendingJob) (js : List PoolJob)
      (pins : List (String × ℕ)) (s : PoolState)
      → jobs_of js ≡ chunk
      → firsts (run_jobs w live slot chunk js pins s).1 ≡ chunk
  unfolding run_jobs
  run_jobs-firsts live slot chunk js pins s h =
      let result =
        acquire (w.hash_jobs js) (w.healthy slot) (starts w (w.build js)) (s.slots slot) in
      elim (Option-cases result.1) [
        | inl e ↦ rw (e, run_jobs) (without_engine-firsts (w.build js) chunk js _ h)
        | inr (id, e) ↦
            rw (e, run_jobs)
              (reports_of (all_with tested js) ∙ ap jobs_of (all_with-firsts tested js) ∙ h)
      ]

  -- A slot reports each of its jobs once, in their order, whatever fails.
  run_slot-firsts :
      (live : List String) (slot : ℕ) (chunk : List PendingJob) (s : PoolState)
      → firsts (run_slot w live slot chunk s).1 ≡ chunk
  unfolding run_slot
  run_slot-firsts live slot chunk s =
      let used = map (λ pin. pin.1) s.ports in
      let pins = (allocate_jobs w used s.ports chunk).0 in
      let kept = allocate_jobs-JobsOf used s.ports chunk in
      elim (Option-cases (allocate_jobs w used s.ports chunk).1) [
        | inl e ↦ rw (e, run_slot) (no_port-firsts chunk)
        | inr (js, e) ↦
            rw (e, run_slot)
              (run_jobs-firsts live slot chunk js pins s (subst (JobsOf chunk) e kept))
      ]

  -- So do all slots together, where an instance takes a job and the rounds suffice.
  pub run_slots-firsts :
      (max_jobs : ℕ) (live : List String) (fuel slot : ℕ) (ps : List PendingJob) (s : PoolState)
      → 0 < max_jobs
      → length ps ≤ fuel
      → firsts (run_slots w max_jobs live fuel slot ps s).1 ≡ ps
  unfolding run_slots
  run_slots-firsts max_jobs live zero slot [] s some_job enough = refl
  run_slots-firsts max_jobs live zero slot (p ∷ ps) s some_job enough = ground (arith, enough)
  run_slots-firsts max_jobs live (suc fuel) slot [] s some_job enough = refl
  run_slots-firsts max_jobs live (suc fuel) slot (p ∷ ps) s some_job enough =
      let chunk = take max_jobs (p ∷ ps) in
      let s' = (run_slot w live slot chunk s).0 in
      let rest = run_slots w max_jobs live fuel (suc slot) (drop max_jobs (p ∷ ps)) s' in
      firsts-append (run_slot w live slot chunk s).1 rest.1
      ∙ ap (λ l. l ++ firsts rest.1) (run_slot-firsts live slot chunk s)
      ∙ ap (λ l. chunk ++ l)
          (run_slots-firsts max_jobs live fuel (suc slot) (drop max_jobs (p ∷ ps)) s' some_job
            (omega (arith, enough, some_job, length-drop max_jobs (p ∷ ps))))
      ∙ take-append-drop max_jobs (p ∷ ps)
