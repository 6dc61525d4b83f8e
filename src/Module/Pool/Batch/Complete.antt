-- ===== src/Module/Pool/Batch/Complete.antt =====
-- CheckBatch of internal/module/pool.go answers every option, and equal jobs alike.

use radar_node.Base.{
  All-weaken, ℕ, ◌<◌, ◌≤◌, ◌≡◌, ◌⊎◌, refl, sym, ap, ◌∙◌, subst, Bool, true, String, Option, none,
  some, List, [], ◌∷◌, map, ◌==◌, str_eq, length, any, get_elem?, All, arith, Bool-cases, inl, inr,
  sort, sort-any, sort-All, Option-cases,
}
use radar_node.Wire.{Value}
use radar_node.Module.Schema.{RequestError}
use radar_node.Module.Pool.Run.{Options, PendingJob, PoolState, JobReport, World}
use radar_node.Module.Pool.Batch.{
  ran, Result, Module, JobGroup, reported, write_reports, fan_out, run_slots, max_jobs_per_instance,
  collect_jobs, run_groups, check_batch, zero_result,
}
use radar_node.Module.Pool.Batch.Slots.{firsts, run_slots-firsts}
use radar_node.Module.Pool.Batch.Keys.{has_head, has_other, has_key, Distinct}
use radar_node.Module.Pool.Batch.Groups.{
  verdict, key_of, IsJob, IsJob-option, IsGroup, refused, Settled, Collected,
  collect_jobs-Collected,
}
use radar_node.Module.Pool.Batch.Heads.{All-heads, any-heads, head_at, heads_have_heads}
use radar_node.Module.Pool.Batch.Writes.{write_reports-keeps, fan_out-keeps, Copies}
use radar_node.Module.Pool.Batch.Words.{
  occurs, occurs-sort-heads, any-key-heads, key_found, reports_written, words_of_slots,
}
use radar_node.Module.Pool.Batch.Told.{
  max_jobs_per_instance-positive, at_option, IsRan, told, told-heads,
}

module _ {M : Type 0} where
  -- The slots report a job of the key of an option that is valid.
  abbrev pub IsReported : String → List (PendingJob × JobReport M) → Option RequestError → Type 0
  IsReported key reports none = any (λ p. str_eq p.key key) (firsts reports) ≡ true
  IsReported key reports (some e) = Unit {0}

  module _ (parses : String → Bool) (digest : String → ℕ → List (String × Value) → String → String)
      (m : Module) (opts : List Options) where
    -- The result of an option: its refusal, or its own number and what `slot_said` of its job.
    abbrev pub Answers : (String → JobReport M) → Options → Option RequestError → Result M → Type 0
    Answers slot_said o (some e) r = r ≡ refused parses digest m opts o e
    Answers slot_said o none r =
        (r.seq ≡ o.seq) × (r.report ≡ ran (slot_said (key_of parses digest m opts o)))

    abbrev pub AnswersAt : (String → JobReport M) → ℕ → Result M → Type 0
    AnswersAt slot_said i r =
        (o : Options)
        → get_elem? opts i ≡ some o
        → Answers slot_said o (verdict parses digest m opts o) r

    -- The same before the slots' words are known.
    abbrev Ran : Options → Option RequestError → Result M → Type 0
    Ran o (some e) r = r ≡ refused parses digest m opts o e
    Ran o none r = (r.seq ≡ o.seq) × IsRan r.report

    abbrev RanAt : ℕ → Result M → Type 0
    RanAt i r = (o : Options) → get_elem? opts i ≡ some o → Ran o (verdict parses digest m opts o) r

    RanAt-job :
        (p : PendingJob) (x : JobReport M)
        → IsJob parses digest m opts p
        → RanAt p.idx (reported p x)
    RanAt-job p x h o here =
        let (valid, seq, key) = IsJob-option parses digest m opts p p.idx o h refl here in
        subst (λ v. Ran o v (reported p x)) (sym valid) (seq, refl)

    AnswersAt-job :
        (slot_said : String → JobReport M) (p : PendingJob) (r : Result M)
        → IsJob parses digest m opts p
        → r.seq ≡ p.o.seq
        → r.report ≡ ran (slot_said p.key)
        → AnswersAt slot_said p.idx r
    AnswersAt-job slot_said p r h seq said o here =
        let (valid, same_seq, key) = IsJob-option parses digest m opts p p.idx o h refl here in
        subst (λ v. Answers slot_said o v r) (sym valid)
          (seq ∙ same_seq, said ∙ ap (λ k. ran (slot_said k)) key)

    IsGroup-Copies :
        (slot_said : String → JobReport M) (g : JobGroup)
        → IsGroup parses digest m opts g
        → Copies (AnswersAt slot_said) g
    IsGroup-Copies slot_said g (first, others) r answers =
        All-weaken (λ d. IsJob parses digest m opts d × (d.key ≡ g.first.key))
          (λ d. AnswersAt slot_said d.idx (record r { seq = d.o.seq })) g.others
          (λ d h.
            AnswersAt-job slot_said d (record r { seq = d.o.seq }) h.0 refl
              (said ∙ ap (λ k. ran (slot_said k)) (sym first.key ∙ sym h.1)))
          others
      where
        said : r.report ≡ ran (slot_said (key_of parses digest m opts first.option))
        said =
            (subst (λ v. Answers slot_said first.option v r) (first.valid)
              (answers first.option first.here)).1

    -- Of a group's head, its own number and that a slot spoke of it.
    IsGroup-head :
        (g : JobGroup) (r : Result M)
        → IsGroup parses digest m opts g
        → RanAt g.first.idx r
        → (r.seq ≡ g.first.o.seq) × IsRan r.report
    IsGroup-head g r (first, others) ran_at =
        let (seq, said) =
          subst (λ v. Ran first.option v r) (first.valid) (ran_at first.option first.here) in
        (seq ∙ sym first.seq, said)

    module _ (results : ℕ → Result M) (gs : List JobGroup)
        (reports : List (PendingJob × JobReport M)) (groups : All (IsGroup parses digest m opts) gs)
        (distinct : Distinct gs) (jobs : All (IsJob parses digest m opts) (firsts reports))
        (mentioned : (i : ℕ) → any (λ p. p.idx == i) (firsts reports) ≡ has_head i gs) where
      abbrev written : ℕ → Result M
      written = write_reports reports results

      written-RanAt : (i : ℕ) → RanAt i (results i) ⊎ (has_head i gs ≡ true) → RanAt i (written i)
      written-RanAt i (inl old) =
          write_reports-keeps RanAt reports results i
            (All-weaken (IsJob parses digest m opts)
              (λ p. (x : JobReport M) → RanAt p.idx (reported p x)) (firsts reports)
              (λ p h x. RanAt-job p x h) jobs)
            (inl old)
      written-RanAt i (inr head) =
          write_reports-keeps RanAt reports results i
            (All-weaken (IsJob parses digest m opts)
              (λ p. (x : JobReport M) → RanAt p.idx (reported p x)) (firsts reports)
              (λ p h x. RanAt-job p x h) jobs)
            (inr (mentioned i ∙ head))

      heads-IsRan :
          (hs : List JobGroup)
          → All (IsGroup parses digest m opts) hs
          → All (λ g. has_head g.first.idx gs ≡ true) hs
          → All
              (λ g.
                ((written g.first.idx).seq ≡ g.first.o.seq) × IsRan (written g.first.idx).report)
              hs
      heads-IsRan [] a b = tt
      heads-IsRan (h ∷ hs) (a, rest) (b, more) = (
        IsGroup-head h (written h.first.idx) a (written-RanAt h.first.idx (inr b)),
        heads-IsRan hs rest more,
      )

      abbrev slot_said : String → JobReport M
      slot_said key = told gs written key

      heads_told : All (λ g. (written g.first.idx).report ≡ ran (slot_said g.first.key)) gs
      heads_told = told-heads gs written distinct (
          All-weaken
            (λ g. ((written g.first.idx).seq ≡ g.first.o.seq) × IsRan (written g.first.idx).report)
            (λ g. IsRan (written g.first.idx).report) gs (λ g h. h.1)
            (heads-IsRan gs groups (heads_have_heads gs)))

      heads_answered_from :
          (hs : List JobGroup)
          → All (IsGroup parses digest m opts) hs
          → All
              (λ g.
                ((written g.first.idx).seq ≡ g.first.o.seq) × IsRan (written g.first.idx).report)
              hs
          → All (λ g. (written g.first.idx).report ≡ ran (slot_said g.first.key)) hs
          → All (λ g. AnswersAt slot_said g.first.idx (written g.first.idx)) hs
      heads_answered_from [] a b c = tt
      heads_answered_from (h ∷ hs) (a, later) (b, more) (c, told_later) = (
        AnswersAt-job slot_said h.first (written h.first.idx) a.0 b.0 c,
        heads_answered_from hs later more told_later,
      )

      heads_answered : All (λ g. AnswersAt slot_said g.first.idx (written g.first.idx)) gs
      heads_answered =
          heads_answered_from gs groups (heads-IsRan gs groups (heads_have_heads gs)) heads_told

      refused_answered :
          (i : ℕ) (o : Options) (e : RequestError)
          → get_elem? opts i ≡ some o
          → verdict parses digest m opts o ≡ some e
          → results i ≡ refused parses digest m opts o e
          → AnswersAt slot_said i (written i)
      refused_answered i o e here refusal settled =
          let before : RanAt i (results i) = λ x there.
            at_option opts (λ y. Ran y (verdict parses digest m opts y) (results i)) i o x here
              there (subst (λ v. Ran o v (results i)) (sym refusal) settled) in
          let after = written-RanAt i (inl before) o here in
          λ x there.
            at_option opts (λ y. Answers slot_said y (verdict parses digest m opts y) (written i)) i
              o x here there
              (subst (λ v. Answers slot_said o v (written i)) (sym refusal)
                (subst (λ v. Ran o v (written i)) (refusal) after))

      fan_out_answers :
          (i : ℕ)
          → AnswersAt slot_said i (written i) ⊎ (has_other i gs ≡ true)
          → AnswersAt slot_said i (fan_out gs written i)
      fan_out_answers i =
          fan_out-keeps (AnswersAt slot_said) gs written i
            (All-weaken (IsGroup parses digest m opts) (Copies (AnswersAt slot_said)) gs
              (IsGroup-Copies slot_said) groups)
            heads_answered

      Settled-AnswersAt :
          (i : ℕ) (o : Options)
          → get_elem? opts i ≡ some o
          → Settled parses digest m opts gs i o (verdict parses digest m opts o) (results i)
          → AnswersAt slot_said i (fan_out gs written i)
      Settled-AnswersAt i o here settled = elim (Option-cases (verdict parses digest m opts o)) [
        | inl valid ↦
            let grouped =
              subst (λ v. Settled parses digest m opts gs i o v (results i)) (valid) settled in
            elim (Bool-cases (has_head i gs)) [
              | inl head ↦
                  fan_out_answers i (
                    inl (head_at (λ k. AnswersAt slot_said k (written k)) i gs heads_answered head))
              | inr none_head ↦ fan_out_answers i (inr (ground (arith, grouped, none_head)))
            ]
        | inr (e, refusal) ↦ fan_out_answers i (
            inl (
              refused_answered i o e here refusal
                (subst (λ v. Settled parses digest m opts gs i o v (results i)) (refusal) settled)))
      ]

    Settled-IsReported :
        (reports : List (PendingJob × JobReport M)) (results : ℕ → Result M) (gs : List JobGroup)
        → All (IsGroup parses digest m opts) gs
        → ((key : String) → any (λ p. str_eq p.key key) (firsts reports) ≡ has_key key gs)
        → (i : ℕ) (o : Options) → get_elem? opts i ≡ some o
        → Settled parses digest m opts gs i o (verdict parses digest m opts o) (results i)
        → IsReported (key_of parses digest m opts o) reports (verdict parses digest m opts o)
    Settled-IsReported reports results gs groups keys i o here settled =
        by_verdict (verdict parses digest m opts o) settled
      where
        by_verdict :
            (v : Option RequestError)
            → Settled parses digest m opts gs i o v (results i)
            → IsReported (key_of parses digest m opts o) reports v
        by_verdict none h = keys _ ∙ key_found parses digest m opts i o gs here groups h
        by_verdict (some e) h = tt

    nothing-Collected : Collected parses digest m opts {M = M} 0 (λ i. zero_result) []
    nothing-Collected = record {
      groups = tt;
      distinct = tt;
      settled = λ k o lt here. let absurd : ⊥ = omega (arith, lt) in elim absurd [ ];
    }

    -- CheckBatch, where the module lets an instance take a job, answers each option at its own place:
    -- an invalid request with its error and its own number; any other with its own number and with
    -- what the slots said of its key, so that options of one key get the same report. For every valid
    -- option the slots report a job of its key, and `slot_said` is what they report of each job. It
    -- holds whatever the engines, ports and tests do.
    pub check_batch-Answers :
        (less : String → String → Bool) (w : World M) (s : PoolState)
        → 0 < m.max_jobs
        → let gs = (collect_jobs parses digest m 0 opts (λ i. zero_result {M = M}, [])).1 in
          let reports = (run_groups less w m gs s).1 in
          (slot_said : String → JobReport M) × All (λ e. e.1 ≡ slot_said e.0.key) reports
          × ((i : ℕ) (o : Options)
              → get_elem? opts i ≡ some o
              → IsReported (key_of parses digest m opts o) reports (verdict parses digest m opts o)
                × Answers slot_said o
                    (verdict parses digest m opts o)
                    ((check_batch parses digest less w m opts s).1 i))
    unfolding check_batch run_groups
    check_batch-Answers less w s some_job =
        let (results, gs) = collect_jobs parses digest m 0 opts (λ i. zero_result {M = M}, []) in
        let (groups, distinct, settled) =
          collect_jobs-Collected parses digest m opts opts 0 (λ i. zero_result) []
            (λ n. ap (get_elem? opts) (omega arith)) nothing-Collected in
        let order = λ (a b : PendingJob). less a.key b.key in
        let firsts_of = map (λ (g : JobGroup). g.first) gs in
        let pending = sort order firsts_of in
        let max_jobs = max_jobs_per_instance w.jobs_limit m.max_jobs in
        let reports =
          (run_slots w max_jobs (map (λ p. p.key) pending) (length pending) 0 pending s).1 in
        let same : firsts reports ≡ pending =
          run_slots-firsts w max_jobs (map (λ p. p.key) pending) (length pending) 0 pending s
            (max_jobs_per_instance-positive w.jobs_limit m.max_jobs some_job) (omega arith) in
        let jobs = subst (All (IsJob parses digest m opts)) (sym same) (
          sort-All order (IsJob parses digest m opts) firsts_of (
            All-heads (IsJob parses digest m opts) gs (
              All-weaken (IsGroup parses digest m opts) (λ g. IsJob parses digest m opts g.first) gs
                (λ g h. h.0) groups))) in
        let mentioned = λ (i : ℕ).
          ap (any (λ p. p.idx == i)) same
          ∙ sort-any order (λ p. p.idx == i) firsts_of
          ∙ any-heads i gs in
        let said = slot_said results gs reports groups distinct jobs mentioned in
        let now_written = write_reports reports results in
        let once = λ (key : String).
          subst (λ ps. occurs key ps ≤ 1) (sym same) (occurs-sort-heads order key gs distinct) in
        let Told = λ (p : PendingJob). (now_written p.idx).report ≡ ran (said p.key) in
        let told_firsts = subst (All Told) (sym same) (
          sort-All order Told firsts_of
            (All-heads Told gs (heads_told results gs reports groups distinct jobs mentioned))) in
        (
          said,
          words_of_slots said now_written reports
              (reports_written parses digest m opts reports results jobs once) told_firsts,
          λ i o here. (
            Settled-IsReported reports results gs groups
                (λ key.
                  ap (any (λ p. str_eq p.key key)) same
                  ∙ sort-any order (λ p. str_eq p.key key) firsts_of
                  ∙ any-key-heads key gs)
                i o here (settled i o here),
            Settled-AnswersAt results gs reports groups distinct jobs mentioned i o here
                (settled i o here) o here,
          ),
        )
