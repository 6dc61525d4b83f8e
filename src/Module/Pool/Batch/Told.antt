-- ===== src/Module/Pool/Batch/Told.antt =====
-- What the slots told the jobs of CheckBatch of internal/module/pool.go.
use mathlib.Core.Option.{some-injective}
use radar_node.Base.{
  ℕ, ◌<◌, ◌≡◌, sym, ◌∙◌, subst, false, String, some, List, [], ◌∷◌, str_eq, eq_refl, eq_iff,
  if◌then◌else◌, get_elem?, All, arith,
}
use radar_node.Module.Pool.Run.{Options, JobReport, no_port}
use radar_node.Module.Pool.Batch.{
  Report, absent, invalid, ran, Result, JobGroup, max_jobs_per_instance,
}
use radar_node.Module.Pool.Batch.Keys.{has_key, Distinct}
use radar_node.Module.Pool.Batch.Groups.{}

pub max_jobs_per_instance-positive :
    (limit module_value : ℕ) → 0 < module_value → 0 < max_jobs_per_instance limit module_value
unfolding max_jobs_per_instance
max_jobs_per_instance-positive limit module_value h = ground (arith, h)

-- What holds of an option holds of whatever its number gives.
pub at_option :
    (opts : List Options) (P : Options → Type 0) (i : ℕ) (o x : Options)
    → get_elem? opts i ≡ some o
    → get_elem? opts i ≡ some x
    → P o
    → P x
at_option opts P i o x here there h = subst P (some-injective _ _ (sym here ∙ there)) h

module _ {M : Type 0} where
  abbrev pub said_by_slot : Report M → JobReport M
  said_by_slot (ran x) = x
  said_by_slot absent = no_port
  said_by_slot (invalid e) = no_port

  abbrev pub IsRan : Report M → Type 0
  IsRan r = r ≡ ran (said_by_slot r)

  -- What the head of a key's group was told.
  abbrev pub told : List JobGroup → (ℕ → Result M) → String → JobReport M
  told [] results key = no_port
  told (g ∷ gs) results key =
      if str_eq g.first.key key
      then said_by_slot (results g.first.idx).report
      else told gs results key

  told-later :
      (g : JobGroup) (all gs : List JobGroup) (results : ℕ → Result M)
      → has_key g.first.key gs ≡ false
      → All (λ h. (results h.first.idx).report ≡ ran (told all results h.first.key)) gs
      → All (λ h. (results h.first.idx).report ≡ ran (told (g ∷ all) results h.first.key)) gs
  told-later g all [] results d a = tt
  told-later g all (h ∷ gs) results d (a, rest) =
      let other : str_eq g.first.key h.first.key ≡ false =
        ground (arith, d, eq_iff g.first.key h.first.key, eq_iff h.first.key g.first.key) in
      (rw other a, told-later g all gs results (ground (arith, d)) rest)

  pub told-heads :
      (gs : List JobGroup) (results : ℕ → Result M)
      → Distinct gs
      → All (λ g. IsRan (results g.first.idx).report) gs
      → All (λ g. (results g.first.idx).report ≡ ran (told gs results g.first.key)) gs
  told-heads [] results d a = tt
  told-heads (g ∷ gs) results (d, ds) (a, rest) =
      (rw (eq_refl g.first.key) a, told-later g gs gs results d (told-heads gs results ds rest))
