-- ===== src/Module/Pool/Batch/Groups.antt =====
-- The groups that CheckBatch of internal/module/pool.go collects: every valid option in one of its
-- key, every invalid one answered.
use mathlib.Core.Option.{some-injective}
use radar_node.Base.{
  All-append, ℕ, suc, ◌+◌, ◌-◌, ◌<◌, ◌≡◌, ◌⊎◌, refl, sym, ap, ◌∙◌, subst, Bool, true, false, ◌||◌,
  String, Option, none, some, List, [], ◌∷◌, ltb, ◌==◌, str_eq, eq_iff, get_elem?, All, arith,
  Bool-cases, Option-cases, inl, inr,
}
use radar_node.Wire.{Value}
use radar_node.Module.Schema.{RequestError, validate_request}
use radar_node.Module.Pool.Run.{Options, PendingJob}
use radar_node.Module.Pool.Batch.{
  invalid, Result, Module, JobGroup, add_job, set_result, job_key, floored, collect_job,
  collect_jobs,
}
use radar_node.Module.Pool.Batch.Keys.{
  none-some, has_head, has_other, Distinct, add_job-Distinct, has-add_job,
}

module _ (parses : String → Bool) (digest : String → ℕ → List (String × Value) → String → String)
    (m : Module) (all : List Options) where
  abbrev pub verdict : Options → Option RequestError
  verdict o = validate_request parses m.request o.params

  -- The identity of an option's job.
  abbrev pub key_of : Options → String
  key_of o = job_key digest (floored m o)

  pub record IsJob (p : PendingJob) : Type 0 where
    pub option : Options
    pub here : get_elem? all p.idx ≡ some option
    pub valid : verdict option ≡ none
    pub seq : p.o.seq ≡ option.seq
    pub key : p.key ≡ key_of option

  -- A job's option is the one at its number.
  pub IsJob-option :
      (p : PendingJob) (k : ℕ) (o : Options)
      → IsJob p
      → p.idx ≡ k
      → get_elem? all k ≡ some o
      → (verdict o ≡ none) × (p.o.seq ≡ o.seq) × (p.key ≡ key_of o)
  IsJob-option p k o h at here =
      let e : h.option ≡ o = some-injective _ _ (sym h.here ∙ ap (get_elem? all) at ∙ here) in
      subst (λ x. (verdict x ≡ none) × (p.o.seq ≡ x.seq) × (p.key ≡ key_of x)) (e)
        (h.valid, h.seq, h.key)

  abbrev pub IsGroup : JobGroup → Type 0
  IsGroup g = IsJob g.first × All (λ d. IsJob d × (d.key ≡ g.first.key)) g.others

  add_job-IsGroup :
      (j : PendingJob) (gs : List JobGroup) → IsJob j → All IsGroup gs → All IsGroup (add_job j gs)
  unfolding add_job
  add_job-IsGroup j [] h a = ((h, tt), tt)
  add_job-IsGroup j (g ∷ gs) h ((first, others), a) = elim (Bool-cases (str_eq g.first.key j.key)) [
    | inl same ↦
        rw (same, add_job)
          (
            (
              first,
              All-append (λ d. IsJob d × (d.key ≡ g.first.key)) g.others (j ∷ []) others
                  ((h, ground (arith, same, eq_iff g.first.key j.key)), tt),
            ),
            a,
          )
    | inr other ↦ rw (other, add_job) ((first, others), add_job-IsGroup j gs h a)
  ]

  no_option_above :
      (i k : ℕ) (o : Options)
      → ((n : ℕ) → get_elem? all (i + n) ≡ none)
      → get_elem? all k ≡ some o
      → k < i
  no_option_above i k o nothing here = elim (Bool-cases (ltb k i)) [
    | inl lt ↦ ground (arith, lt)
    | inr ge ↦
        let e : i + (k - i) ≡ k = ground (arith, ge) in
        let absurd : ⊥ = none-some o (sym (nothing (k - i)) ∙ ap (get_elem? all) e ∙ here) in
        elim absurd [ ]
  ]

  module _ {M : Type 0} where
    abbrev pub refused : Options → RequestError → Result M
    refused o e = record { target = o.target; seq = o.seq; report = invalid e }

    -- Where an option stands after the loop: in a group, or answered.
    abbrev pub Settled : List JobGroup → ℕ → Options → Option RequestError → Result M → Type 0
    Settled gs i o none r = (has_head i gs || has_other i gs) ≡ true
    Settled gs i o (some e) r = r ≡ refused o e

    pub record Collected (i : ℕ) (results : ℕ → Result M) (gs : List JobGroup) : Type 0 where
      pub groups : All IsGroup gs
      pub distinct : Distinct gs
      pub settled :
          (k : ℕ) (o : Options)
          → k < i
          → get_elem? all k ≡ some o
          → Settled gs k o (verdict o) (results k)

    Collected-add :
        (i : ℕ) (results : ℕ → Result M) (gs : List JobGroup) (j : PendingJob)
        → j.idx ≡ i
        → IsJob j
        → Collected i results gs
        → Collected (suc i) results (add_job j gs)
    Collected-add i results gs j at h c = record {
      groups = add_job-IsGroup j gs h c.groups;
      distinct = add_job-Distinct j gs c.distinct;
      settled = λ k o lt here. later k o here (Bool-cases (k == i)) lt;
    }
      where
        answered :
            (k : ℕ) (o : Options) (v : Option RequestError)
            → Settled gs k o v (results k)
            → Settled (add_job j gs) k o v (results k)
        answered k o none s = ground (arith, has-add_job k j gs, s)
        answered k o (some e) s = s

        later :
            (k : ℕ) (o : Options)
            → get_elem? all k ≡ some o
            → ((k == i) ≡ true) ⊎ ((k == i) ≡ false)
            → k < suc i
            → Settled (add_job j gs) k o (verdict o) (results k)
        later k o here (inl same) lt =
            let e : j.idx ≡ k = ground (arith, same, at) in
            subst (λ v. Settled (add_job j gs) k o v (results k))
              (sym (IsJob-option j k o h e here).0) (ground (arith, has-add_job k j gs, e))
        later k o here (inr other) lt =
            answered k o (verdict o) (c.settled k o (ground (arith, other, lt)) here)

    Collected-refuse :
        (i : ℕ) (results : ℕ → Result M) (gs : List JobGroup) (o : Options) (e : RequestError)
        → get_elem? all i ≡ some o
        → verdict o ≡ some e
        → Collected i results gs
        → Collected (suc i) (set_result i (refused o e) results) gs
    Collected-refuse i results gs o e here refusal c = record {
      groups = c.groups;
      distinct = c.distinct;
      settled = λ k x lt there. later k x there (Bool-cases (k == i)) lt;
    }
      where
        later :
            (k : ℕ) (x : Options)
            → get_elem? all k ≡ some x
            → ((k == i) ≡ true) ⊎ ((k == i) ≡ false)
            → k < suc i
            → Settled gs k x (verdict x) (set_result i (refused o e) results k)
        later k x there (inl same) lt =
            let at : i ≡ k = ground (arith, same) in
            let y : o ≡ x = some-injective _ _ (sym here ∙ ap (get_elem? all) at ∙ there) in
            rw same (
              subst (λ z. Settled gs k z (verdict z) (refused o e)) (y)
                (subst (λ v. Settled gs k o v (refused o e)) (sym refusal) refl))
        later k x there (inr other) lt = rw other (c.settled k x (ground (arith, other, lt)) there)

    Collected-step :
        (i : ℕ) (o : Options) (results : ℕ → Result M) (gs : List JobGroup)
        → get_elem? all i ≡ some o
        → Collected i results gs
        → let (results', gs') = collect_job parses digest m i o (results, gs) in
          Collected (suc i) results' gs'
    unfolding collect_job
    Collected-step i o results gs here c = elim (Option-cases (verdict o)) [
      | inl valid ↦
          rw (valid, collect_job)
            (Collected-add i results gs (record { idx = i; key = key_of o; o = floored m o }) refl
              (record { option = o; here = here; valid = valid; seq = refl; key = refl }) c)
      | inr (e, refusal) ↦
          rw (refusal, collect_job) (Collected-refuse i results gs o e here refusal c)
    ]

    -- After the loop every option is settled.
    pub collect_jobs-Collected :
        (os : List Options) (i : ℕ) (results : ℕ → Result M) (gs : List JobGroup)
        → ((n : ℕ) → get_elem? all (i + n) ≡ get_elem? os n)
        → Collected i results gs
        → let (results', gs') = collect_jobs parses digest m i os (results, gs) in
          All IsGroup gs'
          × Distinct gs'
          × ((k : ℕ) (o : Options)
              → get_elem? all k ≡ some o
              → Settled gs' k o (verdict o) (results' k))
    unfolding collect_jobs
    collect_jobs-Collected [] i results gs suffix c =
        (c.groups, c.distinct, λ k o here. c.settled k o (no_option_above i k o suffix here) here)
    collect_jobs-Collected (o ∷ os) i results gs suffix c =
        let next = collect_job parses digest m i o (results, gs) in
        collect_jobs-Collected os (suc i) next.0 next.1
          (λ n. ap (get_elem? all) (omega arith) ∙ suffix (suc n))
          (Collected-step i o results gs (ap (get_elem? all) (omega arith) ∙ suffix 0) c)
